-- ===== src/Descriptors/Gdt.antt =====
-- What the processor reads from a gate of the GDT.
use james_m.Base.{
  ℕ, ◌+◌, ◌*◌, ◌/◌, ◌%◌, ◌<◌, ◌≡◌, List, [], ◌∷◌, refl, Run, ok, panic, arith, some, get_elem?,
  length, leb, get_elem?-set_self, get_elem?-set_ne, ap, bit_and, bit_or, if◌then◌else◌, ◌==◌,
  ◌>>=◌,
}
use james_m.Bits.{bit_and_mask, bit_and_high, bit_or_low}
use james_m.Descriptors.{GdtEntry, Tables, gdt_flush, gdt_entry, gdt_set_gate, init_gdt}

-- The base and the limit that a descriptor stands for.
abbrev pub gdt_base : GdtEntry → ℕ
gdt_base e = e.ge_base_lo + 65536 * e.ge_base_mi + 16777216 * e.ge_base_hi

abbrev pub gdt_limit : GdtEntry → ℕ
gdt_limit e = e.ge_limit_lo + 65536 * (e.ge_granularity % 16)

high_nibble : (g : ℕ) → g < 256 → bit_and g 0xF0 ≡ g / 16 * 16
high_nibble g h = omega (
  arith,
  bit_and_high 4 (g / 16) (g % 16) 0xF (omega arith),
  bit_and_mask 4 (g / 16),
  ap (λ (t : ℕ). bit_and t 0xF0) (split g),
)
  where
    split : (y : ℕ) → y ≡ y / 16 * 16 + y % 16
    split y = omega arith

-- A gate holds the base, the low 20 bits of the limit, the access byte and the flags of `gran`.
gdt_entry-fields :
    (base limit access gran : ℕ)
    → base < 4294967296
    → limit < 4294967296
    → access < 256
    → gran < 256
    → (gdt_base (gdt_entry base limit access gran) ≡ base)
      × (gdt_limit (gdt_entry base limit access gran) ≡ limit % 1048576)
      × ((gdt_entry base limit access gran).ge_access ≡ access)
      × ((gdt_entry base limit access gran).ge_granularity / 16 ≡ gran / 16)
unfolding gdt_entry
gdt_entry-fields base limit access gran hb hl ha hg =
    let low : bit_and (limit / 65536) 0x0F ≡ limit / 65536 % 16 = bit_and_mask 4 (limit / 65536) in
    let high : bit_and (gran % 256) 0xF0 ≡ gran / 16 * 16 =
      omega (arith, high_nibble (gran % 256) (omega arith)) in
    let gr : bit_or (bit_and (limit / 65536) 0x0F) (bit_and (gran % 256) 0xF0)
        ≡ gran / 16 * 16 + limit / 65536 % 16 =
      rw (low, high) (bit_or_low 4 (gran / 16) (limit / 65536 % 16) (omega arith)) in
    (
      omega (
        arith,
        bit_and_mask 16 base,
        bit_and_mask 8 (base / 65536),
        bit_and_mask 8 (base / 16777216),
      ),
      omega (arith, bit_and_mask 16 limit, gr),
      omega arith,
      omega (arith, gr),
    )

-- gdt_set_gate panics outside the table; inside it writes entry `n` and leaves the others.
pub gdt_set_gate-get_elem? :
    (n base limit access gran : ℕ) (entries : List GdtEntry) (j : ℕ)
    → (gdt_set_gate n base limit access gran entries >>= λ es. ok (get_elem? es j)) ≡ (
        if leb (length entries) n
        then panic
        else ok (if n == j then some (gdt_entry base limit access gran) else get_elem? entries j))
unfolding gdt_set_gate
gdt_set_gate-get_elem? n base limit access gran entries j = ground (
  arith,
  get_elem?-set_self entries n (gdt_entry base limit access gran),
  get_elem?-set_ne entries n j (gdt_entry base limit access gran),
)

-- The five segments that init_gdt sets up.
abbrev pub segments : List GdtEntry
segments =
    gdt_entry 0 0 0 0
    ∷ gdt_entry 0 0xFFFFFFFF 0x9A 0xCF
    ∷ gdt_entry 0 0xFFFFFFFF 0x92 0xCF
    ∷ gdt_entry 0 0xFFFFFFFF 0xFA 0xCF
    ∷ gdt_entry 0 0xFFFFFFFF 0xF2 0xCF
    ∷ []

five_gates :
    (entries : List GdtEntry)
    → length entries ≡ 5
    → (k : List GdtEntry → Run Tables)
    → (do
      g0 ← gdt_set_gate 0 0 0 0 0 entries
      g1 ← gdt_set_gate 1 0 0xFFFFFFFF 0x9A 0xCF g0
      g2 ← gdt_set_gate 2 0 0xFFFFFFFF 0x92 0xCF g1
      g3 ← gdt_set_gate 3 0 0xFFFFFFFF 0xFA 0xCF g2
      g4 ← gdt_set_gate 4 0 0xFFFFFFFF 0xF2 0xCF g3
      k g4)
      ≡ k segments
unfolding gdt_set_gate
five_gates [] h k = absurd (omega arith)
five_gates (a ∷ []) h k = absurd (omega arith)
five_gates (a ∷ b ∷ []) h k = absurd (omega arith)
five_gates (a ∷ b ∷ c ∷ []) h k = absurd (omega arith)
five_gates (a ∷ b ∷ c ∷ d ∷ []) h k = absurd (omega arith)
five_gates (a ∷ b ∷ c ∷ d ∷ e ∷ []) h k = refl
five_gates (a ∷ b ∷ c ∷ d ∷ e ∷ f ∷ r) h k = absurd (omega arith)

-- On a table of five entries init_gdt returns the five segments, whatever the table held, and loads
-- the table with limit 39.
pub init_gdt-segments :
    (gdt_addr : ℕ) (t : Tables)
    → length t.gdt_entries ≡ 5
    → init_gdt gdt_addr t
      ≡ ok (record t {
        gdt_entries = segments;
        events = gdt_flush (record { limit = 39; base = gdt_addr }) ∷ t.events;
      })
init_gdt-segments gdt_addr t h =
    unfold init_gdt in
    rw h (
      five_gates t.gdt_entries h λ g4. ok (record t {
        gdt_entries = g4;
        events = gdt_flush (record { limit = 39; base = gdt_addr }) ∷ t.events;
      }))

-- A gate that reads as a segment: base, limit, access byte, and the four flags.
pub record Segment (base limit access flags : ℕ) (e : GdtEntry) : Type 0 where
  pub at : gdt_base e ≡ base
  pub limit_field : gdt_limit e ≡ limit
  pub access_byte : e.ge_access ≡ access
  pub flags_field : e.ge_granularity / 16 ≡ flags

-- The null gate, then code and data of the kernel and of user programs: each over the whole memory, with a
-- limit in pages, in 32-bit mode.
pub record FlatSegments (es : List GdtEntry) : Type 0 where
  pub null_gate : GdtEntry
  pub kernel_code : GdtEntry
  pub kernel_data : GdtEntry
  pub user_code : GdtEntry
  pub user_data : GdtEntry
  pub listed : es ≡ null_gate ∷ kernel_code ∷ kernel_data ∷ user_code ∷ user_data ∷ []
  pub nothing : Segment 0 0 0 0 null_gate
  pub code : Segment 0 0xFFFFF 0x9A 0xC kernel_code
  pub data_gate : Segment 0 0xFFFFF 0x92 0xC kernel_data
  pub code_user : Segment 0 0xFFFFF 0xFA 0xC user_code
  pub data_user : Segment 0 0xFFFFF 0xF2 0xC user_data

gdt_entry-Segment :
    (limit access gran : ℕ)
    → limit < 4294967296
    → access < 256
    → gran < 256
    → Segment 0 (limit % 1048576) access (gran / 16) (gdt_entry 0 limit access gran)
gdt_entry-Segment limit access gran hl ha hg =
    let (base, lim, acc, flags) = gdt_entry-fields 0 limit access gran (omega arith) hl ha hg in
    record { at = base; limit_field = lim; access_byte = acc; flags_field = flags }

pub segments-FlatSegments : FlatSegments segments
segments-FlatSegments = record {
  null_gate = gdt_entry 0 0 0 0;
  kernel_code = gdt_entry 0 0xFFFFFFFF 0x9A 0xCF;
  kernel_data = gdt_entry 0 0xFFFFFFFF 0x92 0xCF;
  user_code = gdt_entry 0 0xFFFFFFFF 0xFA 0xCF;
  user_data = gdt_entry 0 0xFFFFFFFF 0xF2 0xCF;
  listed = refl;
  nothing = gdt_entry-Segment 0 0 0 (omega arith) (omega arith) (omega arith);
  code = gdt_entry-Segment 0xFFFFFFFF 0x9A 0xCF (omega arith) (omega arith) (omega arith);
  data_gate = gdt_entry-Segment 0xFFFFFFFF 0x92 0xCF (omega arith) (omega arith) (omega arith);
  code_user = gdt_entry-Segment 0xFFFFFFFF 0xFA 0xCF (omega arith) (omega arith) (omega arith);
  data_user = gdt_entry-Segment 0xFFFFFFFF 0xF2 0xCF (omega arith) (omega arith) (omega arith);
}

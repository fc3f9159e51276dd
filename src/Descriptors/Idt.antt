-- ===== src/Descriptors/Idt.antt =====
-- The interrupt table after init_idt.
use james_m.Base.{
  ℕ, zero, suc, ◌+◌, ◌*◌, ◌/◌, ◌<◌, ◌≤◌, ◌≡◌, refl, List, [], ◌∷◌, some, none, ok, arith, get_elem?,
  length, leb, ltb, set, if◌then◌else◌, ◌&&◌, get_elem?-set_self, get_elem?-set_ne, length-set, ap,
  ◌∙◌, false, true, u32,
}
use james_m.Bits.{bit_and_mask}
use james_m.Descriptors.Controllers.{Controllers, controllers, remapped, controllers-remap}
use james_m.Descriptors.{
  IdtEntry, Tables, Event, idt_flush, idt_entry, idt_set_gate, set_gates, zero_entry, clear_entries,
  init_idt, remap, send,
}

-- The address that the processor jumps to.
abbrev pub idt_base : IdtEntry → ℕ
idt_base e = e.ie_base_lo + 65536 * e.ie_base_hi

-- A gate through which the processor gets to `base` with the selector and the flags.
pub record LeadsTo (base sel flags : ℕ) (e : IdtEntry) : Type 0 where
  pub leads : idt_base e ≡ u32 base
  pub selector : e.ie_sel ≡ sel
  pub always0 : e.ie_always0 ≡ 0
  pub flags_byte : e.ie_flags ≡ flags

idt_entry-LeadsTo :
    (base sel flags : ℕ)
    → sel < 65536
    → flags < 256
    → LeadsTo base sel flags (idt_entry base sel flags)
unfolding idt_entry
idt_entry-LeadsTo base sel flags hs hf = record {
  leads = omega (arith, bit_and_mask 16 base, bit_and_mask 16 (base / 65536));
  selector = omega arith;
  always0 = refl;
  flags_byte = omega arith;
}

length-clear_entries : (xs : List IdtEntry) → length (clear_entries xs) ≡ length xs
unfolding clear_entries
length-clear_entries [] = refl
length-clear_entries (x ∷ xs) = ap suc (length-clear_entries xs)

get_elem?-end {ℓ} : {A : Type ℓ} (xs : List A) (j : ℕ) → length xs ≤ j → get_elem? xs j ≡ none
get_elem?-end [] j h = refl
get_elem?-end (x ∷ xs) zero h = absurd (omega arith)
get_elem?-end (x ∷ xs) (suc j) h = get_elem?-end xs j (omega arith)

get_elem?-clear_entries :
    (xs : List IdtEntry) (j : ℕ) → j < length xs → get_elem? (clear_entries xs) j ≡ some zero_entry
unfolding clear_entries
get_elem?-clear_entries [] j h = absurd (omega arith)
get_elem?-clear_entries (x ∷ xs) zero h = refl
get_elem?-clear_entries (x ∷ xs) (suc j) h = get_elem?-clear_entries xs j (omega arith)

module _ (stub : ℕ → ℕ) where
  -- The gates `n`, …, `n + left - 1` are set, the others are as before.
  record Ready (left n : ℕ) (xs : List IdtEntry) : Type 0 where
    out : List IdtEntry
    returns : set_gates stub left n xs ≡ ok out
    same_length : length out ≡ length xs
    entry :
        (j : ℕ)
        → get_elem? out j ≡ (
            if leb n j && ltb j (n + left)
            then some (idt_entry (stub j) 8 0x8E)
            else get_elem? xs j)

  Ready-suc :
      (left n : ℕ) (xs : List IdtEntry)
      → n < length xs
      → Ready left (n + 1) (set xs n (idt_entry (stub n) 8 0x8E))
      → Ready (suc left) n xs
  Ready-suc left n xs h rest = record {
    out = rest.out;
    returns =
        unfold set_gates idt_set_gate in
        (let e : leb (length xs) n ≡ false = ground arith in rw e rest.returns);
    same_length = rest.same_length ∙ length-set xs n (idt_entry (stub n) 8 0x8E);
    entry = λ j. ground (
      arith,
      rest.entry j,
      get_elem?-set_self xs n (idt_entry (stub n) 8 0x8E),
      get_elem?-set_ne xs n j (idt_entry (stub n) 8 0x8E),
    );
  }

  set_gates-Ready : (left n : ℕ) (xs : List IdtEntry) → n + left ≤ length xs → Ready left n xs
  set_gates-Ready zero n xs h = record {
    out = xs;
    returns = unfold set_gates in refl;
    same_length = refl;
    entry = λ j. ground arith;
  }
  set_gates-Ready (suc left) n xs h = Ready-suc left n xs (omega arith) (
      set_gates-Ready left (n + 1) (set xs n (idt_entry (stub n) 8 0x8E))
        (omega (arith, length-set xs n (idt_entry (stub n) 8 0x8E))))

  -- The entries after init_idt, by the function that idt_set_gate writes them with.
  init_idt-entries :
      (idt_addr : ℕ) (t : Tables)
      → length t.idt_entries ≡ 256
      → (t' : Tables) × (init_idt idt_addr stub t ≡ ok t')
        × ((j : ℕ)
            → get_elem? t'.idt_entries j ≡ (
                if ltb j 48
                then some (idt_entry (stub j) 8 0x8E)
                else if ltb j 256
                then some zero_entry
                else none))
        × (t'.gdt_entries ≡ t.gdt_entries)
        × (t'.events ≡ idt_flush (record { limit = 2047; base = idt_addr }) ∷ send remap t.events)
  init_idt-entries idt_addr t h = (
    record t {
      idt_entries = g.out;
      events = idt_flush (record { limit = 2047; base = idt_addr }) ∷ send remap t.events;
    },
    unfold init_idt in rw (g.returns, h),
    λ j. ground (
      arith,
      g.entry j,
      get_elem?-clear_entries t.idt_entries j,
      get_elem?-end (clear_entries t.idt_entries) j,
      length-clear_entries t.idt_entries,
    ),
    refl,
    refl,
  )
    where
      g : Ready 48 0 (clear_entries t.idt_entries)
      g =
          set_gates-Ready 48 0 (clear_entries t.idt_entries)
            (omega (arith, length-clear_entries t.idt_entries))

  pub init_idt-set :
      (idt_addr : ℕ) (t : Tables)
      → length t.idt_entries ≡ 256
      → (t' : Tables) × (init_idt idt_addr stub t ≡ ok t')
        × ((j : ℕ)
            → j < 48
            → (e : IdtEntry) × (get_elem? t'.idt_entries j ≡ some e) × LeadsTo (stub j) 8 0x8E e)
        × (t'.gdt_entries ≡ t.gdt_entries)
        × (t'.events ≡ idt_flush (record { limit = 2047; base = idt_addr }) ∷ send remap t.events)
        × ((j : ℕ) → 48 ≤ j → j < 256 → get_elem? t'.idt_entries j ≡ some zero_entry)
        × (get_elem? t'.idt_entries 256 ≡ none)
  init_idt-set idt_addr t h =
      let (t', returns, entries, kept, events) = init_idt-entries idt_addr t h in
      (
        t',
        returns,
        (λ j below.
            let inside : ltb j 48 ≡ true = ground (arith, below) in
            (
              idt_entry (stub j) 8 0x8E,
              entries j ∙ rw inside,
              idt_entry-LeadsTo (stub j) 8 0x8E (omega arith) (omega arith),
            )),
        kept,
        events,
        (λ j from below.
            let outside : ltb j 48 ≡ false = ground (arith, from) in
            let inside : ltb j 256 ≡ true = ground (arith, below) in
            entries j ∙ rw (outside, inside)),
        entries 256,
      )

  -- On a table of 256 entries init_idt returns a table of 256 entries. Through gate `j` below 48 the
  -- processor gets to the address of its stub, read from the gate's two halves, with selector 8 and flags
  -- 0x8E; all fields of the others are zero. Both controllers have been started again, with vectors from 32 and
  -- from 40 on and no line masked, and last the table, of limit 2047, has been loaded; the GDT is as before.
  pub init_idt-gates :
      (idt_addr : ℕ) (t : Tables)
      → length t.idt_entries ≡ 256
      → (t' : Tables) × (init_idt idt_addr stub t ≡ ok t')
        × ((j : ℕ)
            → j < 48
            → (e : IdtEntry) × (get_elem? t'.idt_entries j ≡ some e) × LeadsTo (stub j) 8 0x8E e)
        × ((j : ℕ) → 48 ≤ j → j < 256 → get_elem? t'.idt_entries j ≡ some zero_entry)
        × (get_elem? t'.idt_entries 256 ≡ none)
        × (t'.gdt_entries ≡ t.gdt_entries)
        × (es : List Event) × (t'.events
            ≡ idt_flush (record { limit = 2047; base = idt_addr }) ∷ es)
        × ((start : Controllers) → controllers start es ≡ remapped)
  init_idt-gates idt_addr t h =
      let (t', returns, gates, kept, events, zeros, last) = init_idt-set idt_addr t h in
      (
        t',
        returns,
        gates,
        zeros,
        last,
        kept,
        send remap t.events,
        events,
        λ start. controllers-remap start t.events,
      )

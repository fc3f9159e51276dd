-- ===== src/Descriptors.antt =====
-- src/descriptor_tables.c: the global and the interrupt descriptor table.
--
-- What the code does to the hardware is a list of events, the latest first: a byte sent to a port, and
-- the two loads that src/asm/gdt_flush.s and idt_flush.s make. `stub` gives the addresses of the
-- assembly stubs: isr0, …, isr31 and then irq0, …, irq15.
pub mod Gdt
pub mod Controllers
pub mod Idt
mod Tests
use james_m.Base.{
  ℕ, zero, suc, ◌+◌, ◌-◌, ◌*◌, ◌/◌, ◌^◌, ◌%◌, List, [], ◌∷◌, Run, ok, panic, ◌>>=◌, leb,
  if◌then◌else◌, bit_and, bit_or, ◌>>>◌, u8, u16, set, length,
}

-- `struct gdt_entry`
pub record GdtEntry : Type 0 where
  pub ge_limit_lo : ℕ
  pub ge_base_lo : ℕ
  pub ge_base_mi : ℕ
  pub ge_access : ℕ
  pub ge_granularity : ℕ
  pub ge_base_hi : ℕ

-- `struct idt_entry`
pub record IdtEntry : Type 0 where
  pub ie_base_lo : ℕ
  pub ie_sel : ℕ
  pub ie_always0 : ℕ
  pub ie_flags : ℕ
  pub ie_base_hi : ℕ

-- `struct gdt_ptr` and `struct idt_ptr`
pub record TablePtr : Type 0 where
  pub limit : ℕ
  pub base : ℕ

pub data Event : Type 0 where
  outb : (port value : ℕ) → Event
  gdt_flush idt_flush : TablePtr → Event

-- The entry that gdt_set_gate writes: each field is cut to its width.
unfoldable pub gdt_entry : (base limit access gran : ℕ) → GdtEntry
gdt_entry base limit access gran = record {
  ge_limit_lo = bit_and limit 0xFFFF;
  ge_base_lo = bit_and base 0xFFFF;
  ge_base_mi = bit_and (base >>> 16) 0xFF;
  ge_access = u8 access;
  ge_granularity = bit_or (bit_and (limit >>> 16) 0x0F) (bit_and (u8 gran) 0xF0);
  ge_base_hi = bit_and (base >>> 24) 0xFF;
}

-- NELEM(gdt_entries) and NELEM(idt_entries) are the lengths of the lists.
unfoldable pub gdt_set_gate : (n base limit access gran : ℕ) → List GdtEntry → Run (List GdtEntry)
gdt_set_gate n base limit access gran entries =
    if leb (length entries) n then panic else ok (set entries n (gdt_entry base limit access gran))

unfoldable pub idt_entry : (base sel flags : ℕ) → IdtEntry
idt_entry base sel flags = record {
  ie_base_lo = bit_and base 0xFFFF;
  ie_sel = u16 sel;
  ie_always0 = 0;
  ie_flags = u8 flags;
  ie_base_hi = bit_and (base >>> 16) 0xFFFF;
}

unfoldable pub idt_set_gate : (n base sel flags : ℕ) → List IdtEntry → Run (List IdtEntry)
idt_set_gate n base sel flags entries =
    if leb (length entries) n then panic else ok (set entries n (idt_entry base sel flags))

-- The tables with the events so far.
pub record Tables : Type 0 where
  pub gdt_entries : List GdtEntry
  pub idt_entries : List IdtEntry
  pub events : List Event

-- `gdt_addr` is the address of `gdt_entries`.
unfoldable pub init_gdt : (gdt_addr : ℕ) → Tables → Run Tables
init_gdt gdt_addr t = do
  let ptr : TablePtr = record { limit = 8 * length t.gdt_entries - 1; base = gdt_addr }
  g0 ← gdt_set_gate 0 0 0 0 0 t.gdt_entries
  g1 ← gdt_set_gate 1 0 0xFFFFFFFF 0x9A 0xCF g0
  g2 ← gdt_set_gate 2 0 0xFFFFFFFF 0x92 0xCF g1
  g3 ← gdt_set_gate 3 0 0xFFFFFFFF 0xFA 0xCF g2
  g4 ← gdt_set_gate 4 0 0xFFFFFFFF 0xF2 0xCF g3
  ok (record t { gdt_entries = g4; events = gdt_flush ptr ∷ t.events })

-- The calls `idt_set_gate(n, (uint32_t)isrN, 0x08, 0x8E)` in their order, from `n` on.
unfoldable pub set_gates : (stub : ℕ → ℕ) → (left n : ℕ) → List IdtEntry → Run (List IdtEntry)
set_gates stub zero n entries = ok entries
set_gates stub (suc left) n entries =
    idt_set_gate n (stub n) 0x08 0x8E entries >>= set_gates stub left (n + 1)

-- An entry of zero bytes, which memset leaves.
abbrev pub zero_entry : IdtEntry
zero_entry = record { ie_base_lo = 0; ie_sel = 0; ie_always0 = 0; ie_flags = 0; ie_base_hi = 0 }

unfoldable pub clear_entries : List IdtEntry → List IdtEntry
clear_entries [] = []
clear_entries (x ∷ xs) = zero_entry ∷ clear_entries xs

-- The bytes that remap the interrupt controllers, first to last.
abbrev pub remap : List Event
remap =
    outb 0x20 0x11
    ∷ outb 0xA0 0x11
    ∷ outb 0x21 0x20
    ∷ outb 0xA1 0x28
    ∷ outb 0x21 0x04
    ∷ outb 0xA1 0x02
    ∷ outb 0x21 0x01
    ∷ outb 0xA1 0x01
    ∷ outb 0x21 0x0
    ∷ outb 0xA1 0x0
    ∷ []

abbrev pub send : List Event → List Event → List Event
send [] events = events
send (e ∷ es) events = send es (e ∷ events)

unfoldable pub init_idt : (idt_addr : ℕ) → (stub : ℕ → ℕ) → Tables → Run Tables
init_idt idt_addr stub t = do
  let ptr : TablePtr = record { limit = 8 * length t.idt_entries - 1; base = idt_addr }
  entries ← set_gates stub 48 0 (clear_entries t.idt_entries)
  ok (record t { idt_entries = entries; events = idt_flush ptr ∷ send remap t.events })

unfoldable pub init_descriptor_tables :
    (gdt_addr idt_addr : ℕ) → (stub : ℕ → ℕ) → Tables → Run Tables
init_descriptor_tables gdt_addr idt_addr stub t = do
  t1 ← init_gdt gdt_addr t
  init_idt idt_addr stub t1

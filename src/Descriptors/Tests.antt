-- ===== src/Descriptors/Tests.antt =====
-- The descriptor tables' theorems at small inputs.
use james_m.Base.{
  ℕ, zero, suc, ◌+◌, ◌*◌, ◌≡◌, ◌<◌, ◌≤◌, refl, List, [], ◌∷◌, ok, some, none, get_elem?,
}
use james_m.Descriptors.{GdtEntry, IdtEntry, Event, Tables, idt_flush, zero_entry, init_idt}
use james_m.Descriptors.Controllers.{Controllers, controllers, remapped}
use james_m.Descriptors.Idt.{LeadsTo, init_idt-gates}

abbrev repeated {ℓ} : {A : Type ℓ} → ℕ → A → List A
repeated zero a = []
repeated (suc n) a = a ∷ repeated n a

abbrev blank_gdt : GdtEntry
blank_gdt = record {
  ge_limit_lo = 1;
  ge_base_lo = 2;
  ge_base_mi = 3;
  ge_access = 4;
  ge_granularity = 5;
  ge_base_hi = 6;
}

abbrev tables : Tables
tables = record {
  gdt_entries = repeated 5 blank_gdt;
  idt_entries = repeated 256 zero_entry;
  events = [];
}

abbrev stub : ℕ → ℕ
stub n = 0x100000 + 16 * n

init_idt-gates_example :
    (t' : Tables) × (init_idt 0x3000 stub tables ≡ ok t')
    × ((j : ℕ)
        → j < 48
        → (e : IdtEntry) × (get_elem? t'.idt_entries j ≡ some e) × LeadsTo (stub j) 8 0x8E e)
    × ((j : ℕ) → 48 ≤ j → j < 256 → get_elem? t'.idt_entries j ≡ some zero_entry)
    × (get_elem? t'.idt_entries 256 ≡ none)
    × (t'.gdt_entries ≡ tables.gdt_entries)
    × (es : List Event) × (t'.events ≡ idt_flush (record { limit = 2047; base = 0x3000 }) ∷ es)
    × ((start : Controllers) → controllers start es ≡ remapped)
init_idt-gates_example = init_idt-gates stub 0x3000 tables refl

-- ===== src/Boot/Tests.antt =====
-- The first stages of kern_main on a machine with blank tables.
use james_m.Base.{
  ℕ, zero, suc, ◌+◌, ◌*◌, ◌<◌, ◌≡◌, refl, List, [], ◌∷◌, none, some, ok, panic, get_elem?,
  if◌then◌else◌, ◌==◌, add32,
}
use james_m.Memory.{Mem, load32, store32}
use james_m.Descriptors.{GdtEntry, IdtEntry, Tables, zero_entry, gdt_flush, idt_flush, send, remap}
use james_m.Monitor.{Screen}
use james_m.Descriptors.Gdt.{FlatSegments}
use james_m.Descriptors.Idt.{LeadsTo}
use james_m.Descriptors.Controllers.{Controllers, controllers, remapped}
use james_m.Boot.{
  Image, Computer, boot_tables, boot_modules, booting, tables_init, ok_line, multiboot_line,
}
use james_m.Boot.Stages.{reported, on_screen, IsCleared, boot_tables-ready, boot_modules-found}

abbrev repeated {ℓ} : {A : Type ℓ} → ℕ → A → List A
repeated zero x = []
repeated (suc n) x = x ∷ repeated n x

abbrev blank_gdt : GdtEntry
blank_gdt = record {
  ge_limit_lo = 0;
  ge_base_lo = 0;
  ge_base_mi = 0;
  ge_access = 0;
  ge_granularity = 0;
  ge_base_hi = 0;
}

abbrev image : Image
image = record {
  gdt_addr = 0x2000;
  idt_addr = 0x3000;
  stub = λ n. 0x100000 + 16 * n;
  page_fault_addr = 0x104000;
  callbacks = record { read_at = 0x105000; readdir_at = 0x105100; finddir_at = 0x105200 };
  buf = 0x9000;
  fuel = 64;
}

abbrev computer : Mem → Computer
computer m = record {
  kernel = record {
    mem = m;
    frames = 0;
    nframes = 0;
    kernel_directory = 0;
    current_directory = 0;
    placement_address = 0x110000;
    cr0 = 0;
    cr3 = 0;
    kernel_heap = none;
  };
  tables = record {
    gdt_entries = repeated 5 blank_gdt;
    idt_entries = repeated 256 zero_entry;
    events = [];
  };
  machine = record {
    interrupt_handlers = repeated 256 0;
    tick = 0;
    ports = [];
    screen = record { video = λ _. 0; cursor_x = 0; cursor_y = 0; ports = [] };
  };
}

boot_tables-ready_example :
    (t : Tables) × (blank : Screen) × IsCleared (computer (λ _. 0)).machine.screen blank
    × (boot_tables image (computer (λ _. 0))
        ≡ ok (
            reported ok_line
              (record (reported tables_init
                (reported booting (on_screen blank (computer (λ _. 0))))) { tables = t })))
    × FlatSegments t.gdt_entries
    × ((j : ℕ)
        → j < 48
        → (e : IdtEntry) × (get_elem? t.idt_entries j ≡ some e)
          × LeadsTo (0x100000 + 16 * j) 8 0x8E e)
    × (t.events
        ≡ idt_flush (record { limit = 2047; base = 0x3000 })
          ∷ send remap (gdt_flush (record { limit = 39; base = 0x2000 }) ∷ []))
    × ((start : Controllers) → controllers start t.events ≡ remapped)
boot_tables-ready_example = boot_tables-ready image (computer (λ _. 0)) refl refl

-- A list of one module at 0x600 whose first words are 0x200000 and 0x210000.
abbrev one_module : Mem
one_module =
    store32 (store32 (store32 (store32 (λ _. 0) 0x514 1) 0x518 0x600) 0x600 0x200000) 0x604 0x210000

boot_modules-found_example : boot_modules 0x500 (computer one_module) ≡ (
    if load32 one_module 0x514 == 0
    then panic
    else ok (
      load32 one_module (load32 one_module 0x518),
      reported ok_line (record (reported multiboot_line (computer one_module)) {
        kernel = record (computer one_module).kernel {
          placement_address = load32 one_module (add32 (load32 one_module 0x518) 4);
        };
      }),
    ))
boot_modules-found_example = boot_modules-found 0x500 (computer one_module)

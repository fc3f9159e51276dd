-- ===== src/Boot/Stages.antt =====
-- The first stages of kern_main.
use james_m.Base.{
  ℕ, ◌+◌, ◌<◌, ◌≡◌, refl, subst, sym, ap, ◌∙◌, arith, List, ◌∷◌, some, Run, ok, panic, true, false,
  length, get_elem?, ltb, if◌then◌else◌, add32, ◌==◌, ◌>>=◌, Bool-cases, inl, inr,
}
use james_m.Memory.{load32}
use james_m.Monitor.{Screen, mon_clear}
use james_m.Monitor.Putchar.{mon_clear-blank}
use james_m.Printf.Messages.{are_plain, are_chars}
use james_m.Descriptors.{
  Tables, IdtEntry, init_descriptor_tables, gdt_flush, idt_flush, send, remap,
}
use james_m.Descriptors.Gdt.{segments, init_gdt-segments, FlatSegments, segments-FlatSegments}
use james_m.Descriptors.Controllers.{Controllers, controllers, remapped, controllers-remap}
use james_m.Descriptors.Idt.{LeadsTo, init_idt-set}
use james_m.Interrupts.Messages.{showing, print-showing}
use james_m.Boot.{
  Image, Computer, report, booting, tables_init, ok_line, multiboot_line, mods_count_offset,
  mods_addr_offset, boot_tables, boot_modules,
}

-- A stage's message.
abbrev pub reported : List ℕ → Computer → Computer
reported text s = record s { machine = showing text s.machine }

report-reported :
    (text : List ℕ) (s : Computer)
    → are_plain text ≡ true
    → are_chars text ≡ true
    → length text < 64
    → report text s ≡ ok (reported text s)
report-reported text s plain_text chars short =
    rw (print-showing text s.machine plain_text chars short)

-- With another screen.
abbrev pub on_screen : Screen → Computer → Computer
on_screen blank s = record s { machine = record s.machine { screen = blank } }

-- All cells of the screen hold a space, white on black, and the cursor is in the first.
pub record IsCleared (before after : Screen) : Type 0 where
  pub cells : (a : ℕ) → after.video a ≡ (if ltb a 2000 then 0xF20 else before.video a)
  pub column : after.cursor_x ≡ 0
  pub line : after.cursor_y ≡ 0

-- On tables of 5 and 256 entries kern_main's first stage returns. The screen has been cleared and then
-- shows the three messages; neither the memory nor the handlers have changed. The five segments are the
-- null gate and flat code and data for the kernel and for user programs, as read from the gates' fields;
-- through each of the 48 gates the processor gets to its stub, with selector 8 and flags 0x8E. First
-- the GDT of limit 39 has been loaded, then both controllers have been started again, with vectors from 32
-- and from 40 on and no line masked, and last the table of interrupts, of limit 2047, has been loaded.
pub boot_tables-ready :
    (i : Image) (s : Computer)
    → length s.tables.gdt_entries ≡ 5
    → length s.tables.idt_entries ≡ 256
    → (t : Tables) × (blank : Screen) × IsCleared s.machine.screen blank
      × (boot_tables i s
          ≡ ok (
              reported ok_line
                (record (reported tables_init (reported booting (on_screen blank s))) {
                  tables = t;
                })))
      × FlatSegments t.gdt_entries
      × ((j : ℕ)
          → j < 48
          → (e : IdtEntry) × (get_elem? t.idt_entries j ≡ some e) × LeadsTo (i.stub j) 8 0x8E e)
      × (t.events
          ≡ idt_flush (record { limit = 2047; base = i.idt_addr })
            ∷ send remap (gdt_flush (record { limit = 39; base = i.gdt_addr }) ∷ s.tables.events))
      × ((start : Controllers) → controllers start t.events ≡ remapped)
unfolding boot_tables init_descriptor_tables
boot_tables-ready i s five many =
    let gdt = init_gdt-segments i.gdt_addr s.tables five in
    let with_segments : Tables = record (s.tables) {
      gdt_entries = segments;
      events = gdt_flush (record { limit = 39; base = i.gdt_addr }) ∷ s.tables.events;
    } in
    let (t, idt, gates, kept, events, zeros, last) =
      init_idt-set i.stub i.idt_addr with_segments many in
    let blank = mon_clear s.machine.screen in
    let first = report-reported booting (on_screen blank s) refl refl (omega arith) in
    let second =
      report-reported tables_init (reported booting (on_screen blank s)) refl refl (omega arith) in
    (
      t,
      blank,
      record {
        cells = λ a. (mon_clear-blank s.machine.screen a).0;
        column = (mon_clear-blank s.machine.screen 0).1;
        line = (mon_clear-blank s.machine.screen 0).2;
      },
      rw (first, second, gdt, idt)
          (report-reported ok_line
            (record (reported tables_init (reported booting (on_screen blank s))) { tables = t })
            refl refl (omega arith)),
      subst FlatSegments (sym kept) segments-FlatSegments,
      gates,
      events,
      λ start. ap (controllers start) events ∙ controllers-remap start with_segments.events,
    )

-- The second stage panics if the boot loader counts no module; otherwise it returns the first word of the
-- list of modules, puts the placement address at the second, and says so on the screen.
pub boot_modules-found :
    (mboot_ptr : ℕ) (s : Computer)
    → boot_modules mboot_ptr s ≡ (
        if load32 s.kernel.mem (mboot_ptr + mods_count_offset) == 0
        then panic
        else (let mods = load32 s.kernel.mem (mboot_ptr + mods_addr_offset) in
            ok (
              load32 s.kernel.mem mods,
              reported ok_line (record (reported multiboot_line s) {
                kernel = record s.kernel { placement_address = load32 s.kernel.mem (add32 mods 4) };
              }),
            )))
unfolding boot_modules
boot_modules-found mboot_ptr s =
    let said = report-reported multiboot_line s refl refl (omega arith) in
    elim (Bool-cases (load32 s.kernel.mem (mboot_ptr + mods_count_offset) == 0)) [
      | inl no_module ↦
          let count : ltb 0 (load32 s.kernel.mem (mboot_ptr + mods_count_offset)) ≡ false =
            ground (arith, no_module) in
          rw (no_module, said, count)
      | inr present ↦
          let count : ltb 0 (load32 s.kernel.mem (mboot_ptr + mods_count_offset)) ≡ true =
            ground (arith, present) in
          rw (present, said, count)
            (ap
              (λ (r : Run Computer). r >>= λ s2.
                ok (load32 s.kernel.mem (load32 s.kernel.mem (mboot_ptr + mods_addr_offset)), s2))
              (report-reported ok_line
                (record (reported multiboot_line s) {
                  kernel = record s.kernel {
                    placement_address =
                        load32 s.kernel.mem
                          (add32 (load32 s.kernel.mem (mboot_ptr + mods_addr_offset)) 4);
                  };
                })
                refl refl (omega arith)))
    ]

-- ===== src/Boot.antt =====
-- src/main.c: kern_main, the entry point of the kernel, with src/include/multiboot.h.
pub mod Stages
mod Tests
use james_m.Base.{ℕ, ◌+◌, List, [], ◌∷◌, Run, ok, panic, ◌>>=◌, ltb, add32, kassert}
use james_m.Memory.{load32}
use james_m.Kernel.{Kernel}
use james_m.Kmalloc.{Alloc}
use james_m.Descriptors.{Tables, init_descriptor_tables}
use james_m.Monitor.{mon_clear}
use james_m.Interrupts.{Machine, print}
use james_m.Setup.{init_paging}
use james_m.Files.{Initrd, Callbacks, init_initrd}
use james_m.Listing.{vfs_print_content}

-- Offsets in `struct multiboot` of src/include/multiboot.h, whose fields are words without gaps.
abbrev pub mods_count_offset : ℕ
mods_count_offset = 20

abbrev pub mods_addr_offset : ℕ
mods_addr_offset = 24

-- Where the parts of the kernel that the linker places are, and the fuel of its loops.
pub record Image : Type 0 where
  pub gdt_addr : ℕ
  pub idt_addr : ℕ
  pub stub : ℕ → ℕ
  pub page_fault_addr : ℕ
  pub callbacks : Callbacks
  pub buf : ℕ
  pub fuel : ℕ

pub record Computer : Type 0 where
  pub kernel : Kernel
  pub tables : Tables
  pub machine : Machine

abbrev pub ok_line : List ℕ
ok_line = b'O' ∷ b'K' ∷ b'\n' ∷ []

-- A message of kern_main, without conversions.
abbrev pub report : List ℕ → Computer → Run Computer
report text s = do m ← print text [] s.machine; ok (record s { machine = m })

abbrev pub booting : List ℕ
booting = b'+' ∷ b' ' ∷ b'b' ∷ b'o' ∷ b'o' ∷ b't' ∷ b'i' ∷ b'n' ∷ b'g' ∷ b'.' ∷ b'\n' ∷ []

abbrev pub tables_init : List ℕ
tables_init =
    b'+' ∷ b' ' ∷ b'd' ∷ b'e' ∷ b's' ∷ b'c' ∷ b'r' ∷ b'i' ∷ b'p' ∷ b't' ∷ b'o' ∷ b'r' ∷ b' ' ∷ b't'
    ∷ b'a' ∷ b'b' ∷ b'l' ∷ b'e' ∷ b's' ∷ b' ' ∷ b'i' ∷ b'n' ∷ b'i' ∷ b't' ∷ b'.' ∷ b'.' ∷ b'.' ∷ []

abbrev pub multiboot_line : List ℕ
multiboot_line =
    b'+' ∷ b' ' ∷ b'm' ∷ b'u' ∷ b'l' ∷ b't' ∷ b'i' ∷ b'b' ∷ b'o' ∷ b'o' ∷ b't' ∷ b'.' ∷ b'.' ∷ b'.'
    ∷ []

abbrev pub paged_mode : List ℕ
paged_mode =
    b'+' ∷ b' ' ∷ b's' ∷ b'w' ∷ b'i' ∷ b't' ∷ b'c' ∷ b'h' ∷ b'i' ∷ b'n' ∷ b'g' ∷ b' ' ∷ b't' ∷ b'o'
    ∷ b' ' ∷ b'p' ∷ b'a' ∷ b'g' ∷ b'e' ∷ b'd' ∷ b' ' ∷ b'm' ∷ b'o' ∷ b'd' ∷ b'e' ∷ b'.' ∷ b'.'
    ∷ b'.' ∷ []

abbrev pub vfs_line : List ℕ
vfs_line = b'+' ∷ b' ' ∷ b'V' ∷ b'F' ∷ b'S' ∷ b'.' ∷ b'.' ∷ b'.' ∷ []

-- The screen, and the tables of the processor.
unfoldable pub boot_tables : Image → Computer → Run Computer
boot_tables i s = do
  s1 ←
      report booting
        (record s { machine = record s.machine { screen = mon_clear s.machine.screen } })
  s2 ← report tables_init s1
  t ← init_descriptor_tables i.gdt_addr i.idt_addr i.stub s2.tables
  report ok_line (record s2 { tables = t })

-- The module that the boot loader has put into memory: where it starts, and the machine with the placement
-- address behind it.
unfoldable pub boot_modules : (mboot_ptr : ℕ) → Computer → Run (ℕ × Computer)
boot_modules mboot_ptr s = do
  s1 ← report multiboot_line s
  _ ← kassert (ltb 0 (load32 s1.kernel.mem (mboot_ptr + mods_count_offset)))
  let mods = load32 s1.kernel.mem (mboot_ptr + mods_addr_offset)
  let initrd_start = load32 s1.kernel.mem mods
  let initrd_end = load32 s1.kernel.mem (add32 mods 4)
  s2 ← report ok_line (record s1 { kernel = record s1.kernel { placement_address = initrd_end } })
  ok (initrd_start, s2)

unfoldable pub boot_paging : Alloc → Image → Computer → Run Computer
boot_paging alloc i s = do
  s1 ← report paged_mode s
  (k, m) ← init_paging alloc i.fuel i.page_fault_addr s1.kernel s1.machine
  report ok_line (record s1 { kernel = k; machine = m })

unfoldable pub boot_files : Alloc → Image → (initrd_start : ℕ) → Computer → Run (Initrd × Computer)
boot_files alloc i initrd_start s = do
  s1 ← report vfs_line s
  (d, k) ← init_initrd alloc i.callbacks i.fuel initrd_start s1.kernel
  s2 ← report ok_line (record s1 { kernel = k })
  ok (d, s2)

-- All of kern_main before its last line.
unfoldable pub boot : Alloc → Image → (mboot_ptr : ℕ) → Computer → Run Computer
boot alloc i mboot_ptr s = do
  s1 ← boot_tables i s
  (initrd_start, s2) ← boot_modules mboot_ptr s1
  s3 ← boot_paging alloc i s2
  (d, s4) ← boot_files alloc i initrd_start s3
  done ←
      vfs_print_content i.callbacks d i.buf i.fuel
        (record { mem = s4.kernel.mem; screen = s4.machine.screen })
  ok (record s4 {
    kernel = record s4.kernel { mem = done.mem };
    machine = record s4.machine { screen = done.screen };
  })

-- `PANIC("end of kern_main()")`; the 42 is never returned.
unfoldable pub kern_main : Alloc → Image → (mboot_ptr : ℕ) → Computer → Run ℕ
kern_main alloc i mboot_ptr s = boot alloc i mboot_ptr s >>= λ _. panic

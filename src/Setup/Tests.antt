-- ===== src/Setup/Tests.antt =====
-- The handler of page faults, on a write of a user program to a page that is not present, and the page
-- table of the heap on a kernel with a blank directory.
use james_m.Base.{ℕ, ◌+◌, ◌*◌, ◌<◌, refl, none, ◌≡◌, arith, [], ok, panic, List}
use james_m.Printf.Pieces.{AllRendered}
use james_m.Memory.{load32}
use james_m.Kernel.{Kernel}
use james_m.Kmalloc.{Alloc}
use james_m.Setup.Tables.{next_page, make_tables-heap_pages}
use james_m.Interrupts.{CpuRegs, Machine}
use james_m.Interrupts.Messages.{showing}
use james_m.Setup.{page_fault_message, page_fault_handler, make_tables, page_of, vm_kern_heap_start}
use james_m.Setup.Faults.{
  head_text, present_text, read_only_text, user_text, address_pieces, page_fault_handler-panics,
}

abbrev blank : Machine
blank = record {
  interrupt_handlers = [];
  tick = 0;
  ports = [];
  screen = record { video = λ _. 0; cursor_x = 0; cursor_y = 0; ports = [] };
}

abbrev user_write : CpuRegs
user_write = record {
  ds = 0x23;
  edi = 0;
  esi = 0;
  ebp = 0;
  esp = 0;
  ebx = 0;
  edx = 0;
  ecx = 0;
  eax = 0;
  int_no = 14;
  err_code = 6;
  eip = 0x400000;
  cs = 0x1B;
  eflags = 0x202;
  useresp = 0;
  ss = 0x23;
}

page_fault_handler-panics_example :
    (out : List ℕ) × AllRendered (address_pieces 0xDEAD000) out
    × (page_fault_message user_write 0xDEAD000 blank
        ≡ ok (
            showing out (
              showing [] (
                showing user_text
                  (showing read_only_text (showing present_text (showing head_text blank)))))))
    × (page_fault_handler user_write 0xDEAD000 blank ≡ panic)
page_fault_handler-panics_example =
    page_fault_handler-panics user_write 0xDEAD000 blank (omega arith)

abbrev no_alloc : Alloc
no_alloc size page_align k = panic

abbrev early : Kernel
early = record {
  mem = λ _. 0;
  frames = 0x3000;
  nframes = 4096;
  kernel_directory = 0x4000;
  current_directory = 0;
  placement_address = 0x6004;
  cr0 = 0;
  cr3 = 0;
  kernel_heap = none;
}

no_table : load32 (λ _. 0) 0x4C00 ≡ 0
unfolding load32
no_table = refl

make_tables-heap_pages_example :
    (k'' : Kernel) × (make_tables no_alloc 256 vm_kern_heap_start early ≡ ok k'')
    × (k''.placement_address ≡ next_page 0x6004 + 4096)
    × ((n : ℕ)
        → n < 256
        → (page_of no_alloc (vm_kern_heap_start + 4096 * n) 0 k''
            ≡ ok (next_page 0x6004 + 4 * n, k''))
          × (load32 k''.mem (next_page 0x6004 + 4 * n) ≡ 0))
make_tables-heap_pages_example =
    make_tables-heap_pages no_alloc early refl (omega arith) (omega arith) no_table

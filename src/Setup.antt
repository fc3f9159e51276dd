-- ===== src/Setup.antt =====
-- The set-up of paging and of the heap: init_paging and page_fault_handler of src/paging.c, new_heap of
-- src/heap.c, new_sorted_array and delete_sorted_array of src/sorted_array.c. They use the allocator,
-- the heap and the interrupts together, so they stand behind all of these.
pub mod Faults
pub mod Tables
mod Tests
use james_m.Base.{
  ℕ, zero, suc, ◌/◌, List, [], ◌∷◌, Option, some, Run, ok, panic, fault, out_of_fuel, ◌>>=◌, ◌==◌,
  ltb, if◌then◌else◌, bit_and, add32, mul32,
}
use james_m.SortedArray.{SortedArray, Cmp}
use james_m.Kernel.{Kernel, VmHeap}
use james_m.Paging.{index_from_bit, get_page, alloc_frame, switch_page_directory}
use james_m.Kmalloc.{Alloc, kmalloc0, kmalloc0_a, kmalloc0_ap}
use james_m.Heap.{init_heap}
use james_m.Heap.Free.{kfree}
use james_m.Interrupts.{CpuRegs, Machine, print, register_interrupt_handler}

abbrev vm_kern_heap_start : ℕ
vm_kern_heap_start = 0xC0000000

abbrev vm_kern_heap_initial_size : ℕ
vm_kern_heap_initial_size = 0x100000

-- The sizes of a page table, a page directory and a `struct vm_heap`.
abbrev sizeof_page_table : ℕ
sizeof_page_table = 4096

abbrev sizeof_page_directory : ℕ
sizeof_page_directory = 8196

abbrev sizeof_heap : ℕ
sizeof_heap = 36

unfoldable new_sorted_array :
    Alloc → (maxsize : ℕ) → Option Cmp → Kernel → Run (SortedArray × Kernel)
new_sorted_array alloc maxsize cmp k = do
  (array, phys, k') ← kmalloc0 alloc (mul32 maxsize 4) k
  if array == 0
      then panic
      else ok (record { sa_array = array; sa_size = 0; sa_maxsize = maxsize; sa_cmp = cmp }, k')

unfoldable delete_sorted_array : SortedArray → Kernel → Run Kernel
delete_sorted_array a k = kfree a.sa_array k

-- The heap is a value, so the block for it is only taken.
unfoldable new_heap : Alloc → (start end max su ro : ℕ) → Kernel → Run (VmHeap × Kernel)
new_heap alloc start end max su ro k = do
  (heap, phys, k') ← kmalloc0 alloc sizeof_heap k
  if heap == 0
      then panic
      else (do (h, m) ← init_heap start end max su ro k'.mem; ok (h, record k' { mem = m }))

-- get_page with the call of kmalloc0_ap that it makes.
abbrev page_of : Alloc → (address create : ℕ) → Kernel → Run (ℕ × Kernel)
page_of alloc address create k =
    get_page (kmalloc0_ap alloc sizeof_page_table) address create k.kernel_directory k

-- `for (i = VM_KERN_HEAP_START; …; i += 0x1000) get_page(i, 1, kernel_directory);`
unfoldable pub make_tables : Alloc → (left i : ℕ) → Kernel → Run Kernel
make_tables alloc zero i k = ok k
make_tables alloc (suc left) i k =
    page_of alloc i 1 k >>= λ (page, k'). make_tables alloc left (add32 i 4096) k'

-- `while (i < placement_address)`; the placement address moves when a page table is made.
unfoldable pub identity_map : Alloc → (fuel i : ℕ) → Kernel → Run Kernel
identity_map alloc zero i k = out_of_fuel
identity_map alloc (suc fuel) i k =
    let round = page_of alloc i 1 k >>= λ (page, k').
    alloc_frame k' page 0 0 >>= identity_map alloc fuel (add32 i 4096) in
    if ltb i k.placement_address then round else ok k

-- `for (i = VM_KERN_HEAP_START; …; i += 0x1000) alloc_frame(get_page(i, 0, kernel_directory), 0, 0);`
unfoldable pub map_heap : Alloc → (left i : ℕ) → Kernel → Run Kernel
map_heap alloc zero i k = ok k
map_heap alloc (suc left) i k = page_of alloc i 0 k >>= λ (page, k').
    (if page == 0 then fault else alloc_frame k' page 0 0) >>= map_heap alloc left (add32 i 4096)

-- `fuel` bounds the pages up to the placement address; `handler` is the address of page_fault_handler.
unfoldable pub init_paging : Alloc → (fuel handler : ℕ) → Kernel → Machine → Run (Kernel × Machine)
init_paging alloc fuel handler k m = do
  let nframes = 0x1000000 / 0x1000
  (frames, phys, k1) ← kmalloc0 alloc (index_from_bit nframes) (record k { nframes = nframes })
  (dir, phys, k2) ← kmalloc0_a alloc sizeof_page_directory (record k1 { frames = frames })
  k3 ← make_tables alloc 256 vm_kern_heap_start (record k2 { kernel_directory = dir })
  (heap, phys, k4) ← kmalloc0 alloc sizeof_heap k3
  k5 ← identity_map alloc fuel 0 k4
  k6 ← map_heap alloc 256 vm_kern_heap_start k5
  m' ← register_interrupt_handler 14 handler m
  let k7 = switch_page_directory dir k6
  (h, mem) ←
      init_heap vm_kern_heap_start (add32 vm_kern_heap_start vm_kern_heap_initial_size) 0xCFFFF000 0
        0 k7.mem
  ok (record k7 { mem = mem; kernel_heap = some h }, m')

-- A part of the message that is printed when a bit of the error code is set.
abbrev pub print_if : (flag : ℕ) → (text : List ℕ) → Machine → Run Machine
print_if flag text m = if flag == 0 then ok m else print text [] m

-- `cr2` is the register with the faulting address. The variable `present` is 1 when the page is not
-- present; the code does not print `id`.
unfoldable pub page_fault_message : CpuRegs → (cr2 : ℕ) → Machine → Run Machine
page_fault_message regs cr2 m = do
  let present = if bit_and regs.err_code 1 == 0 then 1 else 0
  m1 ←
      print (b'P' ∷ b'a' ∷ b'g' ∷ b'e' ∷ b' ' ∷ b'f' ∷ b'a' ∷ b'u' ∷ b'l' ∷ b't' ∷ b' ' ∷ b'(' ∷ [])
        [] m
  m2 ← print_if present (b'p' ∷ b'r' ∷ b'e' ∷ b's' ∷ b'e' ∷ b'n' ∷ b't' ∷ b' ' ∷ []) m1
  m3 ←
      print_if (bit_and regs.err_code 2)
        (b'r' ∷ b'e' ∷ b'a' ∷ b'd' ∷ b'-' ∷ b'o' ∷ b'n' ∷ b'l' ∷ b'y' ∷ b' ' ∷ []) m2
  m4 ←
      print_if (bit_and regs.err_code 4)
        (b'u' ∷ b's' ∷ b'e' ∷ b'r' ∷ b'-' ∷ b'm' ∷ b'o' ∷ b'd' ∷ b'e' ∷ b' ' ∷ []) m3
  m5 ←
      print_if (bit_and regs.err_code 8)
        (b'r' ∷ b'e' ∷ b's' ∷ b'e' ∷ b'r' ∷ b'v' ∷ b'e' ∷ b'd' ∷ b' ' ∷ []) m4
  print (b')' ∷ b' ' ∷ b'a' ∷ b't' ∷ b' ' ∷ b'%' ∷ b'x' ∷ b'\n' ∷ []) (cr2 ∷ []) m5

-- After the message the handler panics.
unfoldable pub page_fault_handler : CpuRegs → (cr2 : ℕ) → Machine → Run Machine
page_fault_handler regs cr2 m = page_fault_message regs cr2 m >>= λ m'. panic

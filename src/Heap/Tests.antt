-- ===== src/Heap/Tests.antt =====
-- Runs of the heap, and its theorems at a heap of one hole.
use james_m.Base.{
  ℕ, ◌/◌, ◌%◌, ◌≡◌, refl, arith, ◌∷◌, [], Option, some, ok, Halts, if◌then◌else◌, ◌==◌, ◌||◌, ltb,
}
use james_m.Memory.{Mem, load32, store32}
use james_m.Memory.Words.{IsBytes, store32-IsBytes}
use james_m.SortedArray.Cells.{cells}
use james_m.Kernel.{Kernel, VmHeap}
use james_m.Heap.{hh_size, store_header, store_footer, vm_heap_header_cmp, find_smallest_hole}
use james_m.Heap.Layout.{store_header-IsBytes, store_footer-IsBytes}
use james_m.Heap.Free.{free}
use james_m.Heap.Resize.{contract_size}
use james_m.Heap.Find.{BestFit, find_smallest_hole-BestFit}
use james_m.Heap.Bounds.{contract_size_lem, free-Halts}

-- The index stands at 0x1000; a hole of 256 bytes stands at 0x2000.
abbrev zeros : Mem
zeros _ = 0

abbrev one_hole : Mem
one_hole = store32 (store_footer (store_header zeros 0x2000 1 256) 0x20F8 0x2000) 0x1000 0x2000

abbrev small_heap : VmHeap
small_heap = record {
  h_index = record {
    sa_array = 0x1000;
    sa_size = 1;
    sa_maxsize = 8;
    sa_cmp = some vm_heap_header_cmp;
  };
  h_addr_start = 0x2000;
  h_addr_end = 0x3000;
  h_addr_max = 0x9000;
  h_su = 0;
  h_ro = 0;
}

abbrev with_heap : Kernel
with_heap = record {
  mem = one_hole;
  frames = 0x100;
  nframes = 64;
  kernel_directory = 0x4000;
  current_directory = 0x4000;
  placement_address = 0x8000;
  cr0 = 0;
  cr3 = 0;
  kernel_heap = some small_heap;
}

one_hole-IsBytes : IsBytes one_hole
one_hole-IsBytes = store32-IsBytes _ 0x1000 0x2000 (
    store_footer-IsBytes _ 0x20F8 0x2000
      (store_header-IsBytes zeros 0x2000 1 256 (λ a. omega arith)))

one_hole-cells : cells one_hole 0x1000 0 1 ≡ 0x2000 ∷ []
unfolding cells load32 store32
one_hole-cells = refl

one_hole-size : hh_size one_hole 0x2000 ≡ 256
unfolding load32 store32
one_hole-size = refl

find_smallest_hole-BestFit_example :
    (o : Option ℕ) × (find_smallest_hole one_hole small_heap 120 0 ≡ ok o)
    × BestFit one_hole 120 0 (cells one_hole 0x1000 0 1) o
find_smallest_hole-BestFit_example =
    find_smallest_hole-BestFit one_hole small_heap 120
      (rw one_hole-cells (omega (arith, one_hole-size), tt)) (rw one_hole-cells (tt, tt))

contract_size_lem_example :
    contract_size 0x9F1000
    ≡ (if (0x9F1000 / 4096 % 2 == 1) || ltb 0x9F1000 0x70000 then 0x70000 else 0x9F1000)
contract_size_lem_example = contract_size_lem 0x9F1000

free-Halts_example : Halts (free 0x200C with_heap)
free-Halts_example = free-Halts 0x200C with_heap

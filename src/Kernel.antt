-- ===== src/Kernel.antt =====
-- The global state that src/kmalloc.c, src/heap.c and src/paging.c share: the memory of the machine
-- and the variables that those files declare `extern` of one another.
use james_m.Base.{ℕ, Option}
use james_m.Memory.{Mem}
use james_m.SortedArray.{SortedArray}

-- `struct vm_heap` of src/include/heap.h. The flags `h_su` and `h_ro` are C ints used as Booleans.
pub record VmHeap : Type 0 where
  pub h_index : SortedArray
  pub h_addr_start : ℕ
  pub h_addr_end : ℕ
  pub h_addr_max : ℕ
  pub h_su : ℕ
  pub h_ro : ℕ

-- `frames` and the two directories are addresses; `kernel_heap` is `none` while it is NULL; `cr0` and
-- `cr3` are the control registers that the inline assembly of switch_page_directory writes.
pub record Kernel : Type 0 where
  pub mem : Mem
  pub frames : ℕ
  pub nframes : ℕ
  pub kernel_directory : ℕ
  pub current_directory : ℕ
  pub placement_address : ℕ
  pub cr0 : ℕ
  pub cr3 : ℕ
  pub kernel_heap : Option VmHeap

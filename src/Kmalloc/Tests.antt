-- ===== src/Kmalloc/Tests.antt =====
-- The theorem on the placement allocator at a placement address behind a kernel.
use james_m.Base.{◌≡◌, refl, arith, none, ok, panic, true}
use james_m.Kernel.{Kernel}
use james_m.Kmalloc.{Alloc, _kmalloc}
use james_m.Kmalloc.Placement.{after_placing, _kmalloc-placed}

abbrev early : Kernel
early = record {
  mem = λ _. 0xAA;
  frames = 0;
  nframes = 0;
  kernel_directory = 0;
  current_directory = 0;
  placement_address = 0x112345;
  cr0 = 0;
  cr3 = 0;
  kernel_heap = none;
}

abbrev no_alloc : Alloc
no_alloc size page_align k = panic

_kmalloc-placed_example :
    _kmalloc no_alloc 8196 true 3 early
    ≡ ok (0x113000, 0x113000, after_placing 8196 3 0x113000 early)
_kmalloc-placed_example =
    _kmalloc-placed no_alloc 8196 true 3 early refl (omega arith) (omega arith)

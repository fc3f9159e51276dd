-- ===== src/Kmalloc.antt =====
-- src/kmalloc.c: the placement allocator that serves until the heap is there, and the way to the heap.
--
-- The heap itself grows by calls of kmalloc0_ap (expand, get_page), so what this file needs of the
-- heap, its `alloc`, is an argument here; Heap.antt ties the knot.
pub mod Placement
pub mod Supply
mod Tests
use james_m.Base.{
  ℕ, ◌+◌, ◌*◌, Bool, true, false, Option, none, some, Run, ok, fault, ◌>>=◌, ◌==◌, if◌then◌else◌,
  bit_and, add32, sub32, u32, ◌&&◌, not,
}
use james_m.Memory.{Mem, bzero}
use james_m.Kernel.{Kernel, VmHeap}
use james_m.Paging.{VmPage, load_page, get_page}

-- `M_ALIGNED` and `M_ZERO`.
abbrev pub m_aligned : ℕ
m_aligned = 1

abbrev pub m_zero : ℕ
m_zero = 2

-- `if ((flags & M_ALIGNED) && (placement_address & 0xFFFFF000))`
unfoldable pub align_placement : (flags placement : ℕ) → ℕ
align_placement flags placement =
    if not (bit_and flags m_aligned == 0) && not (bit_and placement 0xFFFFF000 == 0)
    then add32 (bit_and placement 0xFFFFF000) 4096
    else placement

-- The branch of `_kmalloc` that runs before the heap is there. The three results are the address, the
-- value for `*phys` and the new state.
unfoldable pub place : (len flags : ℕ) → Kernel → ℕ × ℕ × Kernel
place len flags k =
    let phys = align_placement flags k.placement_address in
    let next = add32 phys len in (sub32 next len, phys, record k { placement_address = next })

-- `*phys = page->p_frame * 0x1000 + ((uint32_t)addr & 0xFFF)`; the page is looked up, not created.
unfoldable pub physical : ℕ → Kernel → Run ℕ
physical addr k = do
  (page, k') ← get_page (λ _. fault) addr 0 k.kernel_directory k
  if page == 0
      then fault
      else ok (add32 (u32 ((load_page k page).p_frame * 4096)) (bit_and addr 0xFFF))

abbrev pub Alloc : Type 0
Alloc = (size page_align : ℕ) → Kernel → Run (ℕ × Kernel)

-- The branch of `_kmalloc` that takes the heap.
unfoldable pub from_heap :
    Alloc → (len : ℕ) → (wants_phys : Bool) → (flags : ℕ) → Kernel → Run (ℕ × ℕ × Kernel)
from_heap alloc len wants_phys flags k = do
  (addr, k') ← alloc len (bit_and flags m_aligned) k
  phys ← (if wants_phys then physical addr k' else ok 0)
  ok (addr, phys, k')

-- `if (flags & M_ZERO) bzero(addr, len);`
unfoldable pub zeroed : (len flags : ℕ) → ℕ × ℕ × Kernel → ℕ × ℕ × Kernel
zeroed len flags (addr, phys, k) =
    (addr, phys, if bit_and flags m_zero == 0 then k else record k { mem = bzero k.mem addr len })

-- `wants_phys` says that `phys` is not NULL; without it the second result means nothing.
unfoldable pub _kmalloc :
    Alloc → (len : ℕ) → (wants_phys : Bool) → (flags : ℕ) → Kernel → Run (ℕ × ℕ × Kernel)
_kmalloc alloc len wants_phys flags k = do
  got ← elim k.kernel_heap [
    | none ↦ ok (place len flags k)
    | some _ ↦ from_heap alloc len wants_phys flags k
  ]
  ok (zeroed len flags got)

-- The calls of kmalloc.h.
unfoldable pub kmalloc : Alloc → ℕ → Kernel → Run (ℕ × ℕ × Kernel)
kmalloc alloc len = _kmalloc alloc len false 0

unfoldable pub kmalloc0 : Alloc → ℕ → Kernel → Run (ℕ × ℕ × Kernel)
kmalloc0 alloc len = _kmalloc alloc len false m_zero

unfoldable pub kmalloc_a : Alloc → ℕ → Kernel → Run (ℕ × ℕ × Kernel)
kmalloc_a alloc len = _kmalloc alloc len false m_aligned

unfoldable pub kmalloc0_a : Alloc → ℕ → Kernel → Run (ℕ × ℕ × Kernel)
kmalloc0_a alloc len = _kmalloc alloc len false 3

unfoldable pub kmalloc_p : Alloc → ℕ → Kernel → Run (ℕ × ℕ × Kernel)
kmalloc_p alloc len = _kmalloc alloc len true 0

unfoldable pub kmalloc0_p : Alloc → ℕ → Kernel → Run (ℕ × ℕ × Kernel)
kmalloc0_p alloc len = _kmalloc alloc len true m_zero

unfoldable pub kmalloc_ap : Alloc → ℕ → Kernel → Run (ℕ × ℕ × Kernel)
kmalloc_ap alloc len = _kmalloc alloc len true m_aligned

unfoldable pub kmalloc0_ap : Alloc → ℕ → Kernel → Run (ℕ × ℕ × Kernel)
kmalloc0_ap alloc len = _kmalloc alloc len true 3

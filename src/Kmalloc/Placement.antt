-- ===== src/Kmalloc/Placement.antt =====
-- _kmalloc before the heap is there.
use james_m.Base.{
  ℕ, ◌+◌, ◌*◌, ◌/◌, ◌<◌, ◌≡◌, arith, none, ok, Bool, false, ◌==◌, leb, if◌then◌else◌, bit_and,
  add32, sub32, ◌&&◌, not, ap, ◌∙◌, Bool-cases, inl, inr,
}
use james_m.Bits.{bit_and_page}
use james_m.Memory.{bzero}
use james_m.Kernel.{Kernel}
use james_m.Kmalloc.{
  Alloc, m_aligned, m_zero, align_placement, place, zeroed, _kmalloc, kmalloc, kmalloc0,
}

-- Where the next block begins. An address below 4096 counts as aligned, and every other one goes to the
-- next page, also one that is aligned.
abbrev pub placed_at : (flags placement : ℕ) → ℕ
placed_at flags placement =
    if not (bit_and flags m_aligned == 0) && leb 4096 placement
    then (placement / 4096 + 1) * 4096
    else placement

align_placement-placed_at :
    (flags placement : ℕ)
    → placement < 4294963200
    → align_placement flags placement ≡ placed_at flags placement
unfolding align_placement
align_placement-placed_at flags placement small =
    rw (bit_and_page placement (omega arith)) (ground arith)

-- The state after a block of `len` bytes at `a`.
abbrev pub after_placing : (len flags a : ℕ) → Kernel → Kernel
after_placing len flags a k = record k {
  mem = if bit_and flags m_zero == 0 then k.mem else bzero k.mem a len;
  placement_address = a + len;
}

zeroed_lem :
    (len flags a : ℕ) (k : Kernel)
    → zeroed len flags (a, a, record k { placement_address = a + len })
      ≡ (a, a, after_placing len flags a k)
unfolding zeroed
zeroed_lem len flags a k = elim (Bool-cases (bit_and flags m_zero == 0)) [
  | inl plain ↦ rw plain
  | inr cleared ↦ rw cleared
]

place_lem :
    (len flags : ℕ) (k : Kernel)
    → k.placement_address < 4294963200
    → placed_at flags k.placement_address + len < 4294967296
    → place len flags k ≡ (
      placed_at flags k.placement_address,
      placed_at flags k.placement_address,
      record k { placement_address = placed_at flags k.placement_address + len },
    )
unfolding place
place_lem len flags k small fits =
    let a = placed_at flags k.placement_address in
    let next : add32 a len ≡ a + len = omega (arith, fits) in
    let start : sub32 (a + len) len ≡ a = omega (arith, fits) in
    rw (align_placement-placed_at flags k.placement_address small, next, start)

_kmalloc-place :
    (alloc : Alloc) (len : ℕ) (wants_phys : Bool) (flags : ℕ) (k : Kernel)
    → k.kernel_heap ≡ none
    → _kmalloc alloc len wants_phys flags k ≡ ok (zeroed len flags (place len flags k))
unfolding _kmalloc
_kmalloc-place alloc len wants_phys flags k no_heap = simp no_heap

-- Without a heap and short of the end of the address space, _kmalloc returns a block that begins at
-- the placement address, or with M_ALIGNED and a placement address from 4096 on at the start of the
-- next page; its physical address is the same; the placement address becomes its end; and with M_ZERO
-- its bytes are zero. Nothing else changes.
pub _kmalloc-placed :
    (alloc : Alloc) (len : ℕ) (wants_phys : Bool) (flags : ℕ) (k : Kernel)
    → k.kernel_heap ≡ none
    → k.placement_address < 4294963200
    → placed_at flags k.placement_address + len < 4294967296
    → _kmalloc alloc len wants_phys flags k
      ≡ ok (
        placed_at flags k.placement_address,
        placed_at flags k.placement_address,
        after_placing len flags (placed_at flags k.placement_address) k,
      )
_kmalloc-placed alloc len wants_phys flags k no_heap small fits =
    _kmalloc-place alloc len wants_phys flags k no_heap
    ∙ ap (λ got. ok (zeroed len flags got)) (place_lem len flags k small fits)
    ∙ ap ok (zeroed_lem len flags (placed_at flags k.placement_address) k)

-- kmalloc0 without a heap.
pub kmalloc0-placed :
    (alloc : Alloc) (len : ℕ) (k : Kernel)
    → k.kernel_heap ≡ none
    → k.placement_address < 4294963200
    → k.placement_address + len < 4294967296
    → kmalloc0 alloc len k
      ≡ ok
          (k.placement_address, k.placement_address, after_placing len m_zero k.placement_address k)
unfolding kmalloc0
kmalloc0-placed alloc len k no_heap small fits =
    _kmalloc-placed alloc len false m_zero k no_heap small fits

pub kmalloc-placed :
    (alloc : Alloc) (len : ℕ) (k : Kernel)
    → k.kernel_heap ≡ none
    → k.placement_address < 4294963200
    → k.placement_address + len < 4294967296
    → kmalloc alloc len k
      ≡ ok (k.placement_address, k.placement_address, after_placing len 0 k.placement_address k)
unfolding kmalloc
kmalloc-placed alloc len k no_heap small fits =
    _kmalloc-placed alloc len false 0 k no_heap small fits

-- ===== src/Heap/Carve.antt =====
-- What alloc leaves in memory when it takes a hole that is large enough, without alignment.
use james_m.Base.{
  ℕ, ◌+◌, ◌-◌, ◌≤◌, ◌<◌, ◌≡◌, refl, ◌∙◌, ◌⊎◌, some, true, ok, arith, if◌then◌else◌, lt→ltb, ltb,
  add32, sub32,
}
use james_m.Memory.{Mem, load32}
use james_m.Memory.Words.{IsBytes}
use james_m.Memory.Regions.{SameOutside}
use james_m.SortedArray.{slot, lookup_sorted_array, remove_sorted_array}
use james_m.SortedArray.Cells.{cells}
use james_m.SortedArray.Remove.{erase_at, Removed, remove_sorted_array-Removed}
use james_m.Kernel.{Kernel, VmHeap}
use james_m.Heap.{hh_size, store_header, store_footer, vm_heap_header_cmp}
use james_m.Heap.Layout.{
  the_heap-some, HeaderAt, FooterAt, store_header-HeaderAt, store_footer-FooterAt,
  store_header-IsBytes, store_footer-IsBytes, SameOutside-store_header, SameOutside-store_footer,
  HeaderAt-SameOutside, cells-SameOutside,
}
use james_m.Heap.Alloc.{align_site, write_block, take_hole}

-- The heap `h` of `k` has, as entry `i` of its index, a hole of `total` bytes at `pos` that can
-- hold `size` bytes and their header and footer. The hole lies below the heap's end and apart from
-- the index.
pub record IsRoom (k : Kernel) (h : VmHeap) (i pos total size : ℕ) : Type 0 where
  pub heap : k.kernel_heap ≡ some h
  pub bytes : IsBytes k.mem
  pub compares : h.h_index.sa_cmp ≡ some vm_heap_header_cmp
  pub inside : i < h.h_index.sa_size
  pub capacity : h.h_index.sa_size ≤ h.h_index.sa_maxsize
  pub entry : load32 k.mem (slot h.h_index.sa_array i) ≡ pos
  pub total_size : hh_size k.mem pos ≡ total
  pub fits : size + 20 ≤ total
  pub below : pos + total ≤ h.h_addr_end
  pub limit : h.h_addr_end < 4294967296
  pub apart : (slot h.h_index.sa_array h.h_index.sa_size ≤ pos) ⊎ (pos + total ≤ h.h_index.sa_array)

module _ (k : Kernel) (h : VmHeap) (i pos total size : ℕ) (r : IsRoom k h i pos total size) where
  pub removed : Removed k.mem h.h_index i (remove_sorted_array k.mem h.h_index i)
  removed = remove_sorted_array-Removed k.mem h.h_index i r.bytes r.inside

  -- The state after the hole's entry has been removed.
  unfoldable pub without : Kernel
  without = record k {
    mem = removed.m';
    kernel_heap =
        some (record h { h_index = record (h.h_index) { sa_size = h.h_index.sa_size - 1 } });
  }

  align_site-unaligned :
      align_site 0 i pos total k ≡ ok (record { pos = pos; hole_size = total; state = without })
  unfolding align_site without
  align_site-unaligned = rw (the_heap-some k r.heap, removed.returns)

  pub take_hole-write_block : take_hole size 0 i k ≡ (
      let whole = ltb (sub32 total (add32 size 20)) 20 in
      write_block
        (if whole then add32 size (sub32 total (add32 size 20)) else size)
        (if whole then total else add32 size 20)
        (record { pos = pos; hole_size = total; state = without }))
  unfolding take_hole lookup_sorted_array
  take_hole-write_block = rw (
    the_heap-some k r.heap,
    lt→ltb i h.h_index.sa_size r.inside,
    r.entry,
    r.total_size,
    align_site-unaligned,
  )

  -- The memory with a block of `bytes` bytes, overhead included, at `pos`.
  unfoldable pub with_block : (bytes : ℕ) → Mem
  with_block bytes = store_footer (store_header removed.m' pos 0 bytes) (pos + bytes - 8) pos

  pub with_block-HeaderAt :
      (bytes : ℕ) → 20 ≤ bytes → bytes ≤ total → HeaderAt (with_block bytes) pos 0 bytes
  unfolding with_block
  with_block-HeaderAt bytes lo hi =
      HeaderAt-SameOutside (pos + bytes - 8) (pos + bytes) m1
        (store_footer m1 (pos + bytes - 8) pos)
        (SameOutside-store_footer m1 (pos + bytes - 8) (pos + bytes - 8) (pos + bytes) m1 pos
          (omega arith) (omega arith) (λ a out. refl))
        (store_header-HeaderAt removed.m' pos 0 bytes (omega arith)
          (omega (arith, r.below, r.limit)))
        (omega arith)
    where
      m1 : Mem
      m1 = store_header removed.m' pos 0 bytes

  pub with_block-FooterAt :
      (bytes : ℕ) → bytes ≤ total → FooterAt (with_block bytes) (pos + bytes - 8) pos
  unfolding with_block
  with_block-FooterAt bytes hi =
      store_footer-FooterAt _ (pos + bytes - 8) pos (omega (arith, r.below, r.limit))

  pub with_block-SameOutside :
      (bytes : ℕ)
      → 20 ≤ bytes
      → bytes ≤ total
      → SameOutside pos (pos + bytes) removed.m' (with_block bytes)
  unfolding with_block
  with_block-SameOutside bytes lo hi =
      SameOutside-store_footer _ (pos + bytes - 8) pos (pos + bytes) removed.m' pos (omega arith)
        (omega arith)
        (SameOutside-store_header removed.m' pos pos (pos + bytes) removed.m' 0 bytes (omega arith)
          (omega arith) (λ a out. refl))

  pub with_block-IsBytes : (bytes : ℕ) → IsBytes (with_block bytes)
  unfolding with_block
  with_block-IsBytes bytes =
      store_footer-IsBytes _ (pos + bytes - 8) pos
        (store_header-IsBytes removed.m' pos 0 bytes removed.still_bytes)

  pub with_block-cells :
      (bytes : ℕ)
      → 20 ≤ bytes
      → bytes ≤ total
      → cells (with_block bytes) h.h_index.sa_array 0 (h.h_index.sa_size - 1)
        ≡ erase_at (cells k.mem h.h_index.sa_array 0 h.h_index.sa_size) i
  with_block-cells bytes lo hi =
      cells-SameOutside pos (pos + bytes) removed.m' (with_block bytes)
        (with_block-SameOutside bytes lo hi) h.h_index.sa_array 0 (h.h_index.sa_size - 1)
        (omega (arith, r.apart))
      ∙ removed.entries

  -- With nothing left behind the block.
  write_block-exact :
      (room : ℕ)
      → room + 20 ≡ total
      → write_block room total (record { pos = pos; hole_size = total; state = without })
        ≡ ok (pos + 12, record without { mem = with_block total })
  unfolding write_block with_block without
  write_block-exact room e =
      let rest : sub32 total total ≡ 0 = omega (arith, r.below, r.limit) in
      let place : add32 (add32 pos 12) room ≡ pos + total - 8 = omega (arith, r.below, r.limit) in
      let result : add32 pos 12 ≡ pos + 12 = omega (arith, r.below, r.limit) in
      rw (rest, place, result)

  pub take_hole-exact :
      total < size + 40
      → take_hole size 0 i k ≡ ok (pos + 12, record without { mem = with_block total })
  take_hole-exact small =
      take_hole-write_block
      ∙ (let left : sub32 total (add32 size 20) ≡ total - size - 20 =
            omega (arith, r.fits, r.below, r.limit) in
          let whole : ltb (total - size - 20) 20 ≡ true = ground (arith, r.fits) in
          rw (left, whole)
            (write_block-exact (add32 size (total - size - 20))
              (omega (arith, r.fits, r.below, r.limit))))

  -- With a heap whose index compares by vm_heap_header_cmp, and a hole below its end and apart from the
  -- index as entry `i` that has room for the request and its overhead but not
  -- for another header and footer: taking it without alignment returns the address behind the hole's
  -- header; the whole hole is then a block, with its header and footer; and the index has lost the
  -- entry `i` and keeps the others in their order.
  pub take_hole-whole :
      total < size + 40
      → (k' : Kernel) × (take_hole size 0 i k ≡ ok (pos + 12, k'))
        × HeaderAt k'.mem pos 0 total
        × FooterAt k'.mem (pos + total - 8) pos
        × (cells k'.mem h.h_index.sa_array 0 (h.h_index.sa_size - 1)
            ≡ erase_at (cells k.mem h.h_index.sa_array 0 h.h_index.sa_size) i)
        × (k'.kernel_heap
            ≡ some (record h { h_index = record (h.h_index) { sa_size = h.h_index.sa_size - 1 } }))
  take_hole-whole small = (
    record without { mem = with_block total },
    take_hole-exact small,
    with_block-HeaderAt total (omega (arith, r.fits)) (omega arith),
    with_block-FooterAt total (omega arith),
    with_block-cells total (omega (arith, r.fits)) (omega arith),
    unfold without in refl,
  )

-- ===== src/Heap/Split.antt =====
-- What alloc leaves in memory when it takes a hole and splits it, without alignment.
use james_m.Base.{
  ℕ, ◌+◌, ◌-◌, ◌≤◌, ◌≡◌, refl, ◌∙◌, ◌∷◌, some, true, false, ok, arith, lt→ltb, ltb, ◌==◌, add32,
  sub32, ap, ◌>>=◌, sym,
}
use mathlib.Core.List.{Perm}
use james_m.Memory.{Mem}
use james_m.Memory.Words.{IsBytes}
use james_m.Memory.Regions.{SameOutside}
use james_m.SortedArray.{SortedArray, slot, insert_sorted_array}
use james_m.SortedArray.Cells.{cells}
use james_m.SortedArray.Insert.{Inserted, insert_sorted_array-Inserted, insert_by, comes_before}
use james_m.SortedArray.Remove.{erase_at}
use james_m.SortedArray.Order.{insert_by-perm}
use james_m.Kernel.{Kernel, VmHeap}
use james_m.Heap.{store_header, store_footer, vm_heap_header_cmp, the_heap}
use james_m.Heap.Layout.{
  HeaderAt, FooterAt, store_header-HeaderAt, store_footer-FooterAt, store_header-IsBytes,
  store_footer-IsBytes, SameOutside-store_header, SameOutside-store_footer, HeaderAt-SameOutside,
  FooterAt-SameOutside, cells-SameOutside,
}
use james_m.Heap.Alloc.{split_rest, write_block, take_hole}
use james_m.Heap.Carve.{
  IsRoom, without, with_block-IsBytes, take_hole-write_block, with_block, with_block-HeaderAt,
  with_block-FooterAt, with_block-cells,
}

module _ (k : Kernel) (h : VmHeap) (i pos total size : ℕ) (r : IsRoom k h i pos total size)
    (room : size + 40 ≤ total) where
  abbrev pub hole : ℕ
  hole = pos + size + 20

  unfoldable pub block : Mem
  block = with_block k h i pos total size r (size + 20)

  -- The memory with the block and the header and the footer of the hole behind it.
  pub both : Mem
  both = store_footer (store_header block hole 1 (total - size - 20)) (pos + total - 8) hole

  abbrev pub index : SortedArray
  index = record (h.h_index) { sa_size = h.h_index.sa_size - 1 }

  pub both-IsBytes : IsBytes both
  unfolding both block
  both-IsBytes = store_footer-IsBytes _ (pos + total - 8) hole (
      store_header-IsBytes _ hole 1 (total - size - 20)
        (with_block-IsBytes k h i pos total size r (size + 20)))

  pub both-SameOutside : SameOutside hole (pos + total) block both
  unfolding both
  both-SameOutside =
      SameOutside-store_footer _ (pos + total - 8) (pos + size + 20) (pos + total) block
        (pos + size + 20) (omega arith) (omega arith)
        (SameOutside-store_header block (pos + size + 20) (pos + size + 20) (pos + total) block 1
          (total - size - 20) (omega arith) (omega arith) (λ a out. refl))

  pub inserted :
      Inserted both both-IsBytes index hole
        (omega (arith, r.below, r.limit))
        vm_heap_header_cmp
        (insert_sorted_array both index hole)
  inserted =
      insert_sorted_array-Inserted both both-IsBytes index hole (omega (arith, r.below, r.limit))
        vm_heap_header_cmp r.compares (omega (arith, r.inside, r.capacity))

  -- The state after the hole behind the block has been put into the index.
  unfoldable pub after : Kernel
  after = record (without k h i pos total size r) {
    mem = inserted.m';
    kernel_heap = some (record h { h_index = record index { sa_size = index.sa_size + 1 } });
  }

  split_rest-after :
      split_rest hole (total - size - 20) (record (without k h i pos total size r) { mem = block })
      ≡ ok after
  unfolding split_rest the_heap without after both
  split_rest-after =
      let footer : sub32 (add32 (pos + size + 20) (total - size - 20)) 8 ≡ pos + total - 8 =
        omega (arith, r.below, r.limit) in
      let inside : ltb (pos + total - 8) h.h_addr_end ≡ true =
        lt→ltb (pos + total - 8) h.h_addr_end (omega (arith, r.below)) in
      rw (footer, inside, inserted.returns)

  write_block-split :
      write_block size
        (size + 20)
        (record { pos = pos; hole_size = total; state = without k h i pos total size r })
      ≡ ok (pos + 12, after)
  unfolding write_block block with_block without
  write_block-split =
      let rest : sub32 total (size + 20) ≡ total - size - 20 = omega (arith, r.below, r.limit) in
      let some_left : ((total - size - 20) == 0) ≡ false = ground arith in
      let place : add32 (add32 pos 12) size ≡ pos + (size + 20) - 8 =
        omega (arith, r.below, r.limit) in
      let next : add32 (pos + (size + 20) - 8) 8 ≡ pos + size + 20 =
        omega (arith, r.below, r.limit) in
      let result : add32 pos 12 ≡ pos + 12 = omega (arith, r.below, r.limit) in
      rw (rest, some_left, place, next, result)
        (ap (λ t. t >>= λ k2. ok (pos + 12, k2)) split_rest-after)

  pub index-SameOutside :
      SameOutside h.h_index.sa_array (slot h.h_index.sa_array h.h_index.sa_size) both inserted.m'
  index-SameOutside a out = inserted.elsewhere a (omega (arith, out, r.inside))

  whole_index : h.h_index.sa_size - 1 + 1 ≡ h.h_index.sa_size
  whole_index = omega (arith, r.inside)

  pub after-insert_by :
      cells inserted.m' h.h_index.sa_array 0 h.h_index.sa_size
      ≡ insert_by
          (comes_before both vm_heap_header_cmp hole)
          hole
          (erase_at (cells k.mem h.h_index.sa_array 0 h.h_index.sa_size) i)
  unfolding block
  after-insert_by =
      let arr = h.h_index.sa_array in
      let n = h.h_index.sa_size - 1 in
      let old =
        cells-SameOutside hole (pos + total) block both both-SameOutside arr 0 n
          (omega (arith, r.apart, r.inside))
        ∙ with_block-cells k h i pos total size r (size + 20) (omega arith) (omega arith) in
      ap (λ j. cells inserted.m' arr 0 j) (sym whole_index)
      ∙ inserted.entries
      ∙ ap (insert_by (comes_before both vm_heap_header_cmp hole) hole) old

  after-entries :
      Perm
        (cells inserted.m' h.h_index.sa_array 0 h.h_index.sa_size)
        ((pos + size + 20) ∷ erase_at (cells k.mem h.h_index.sa_array 0 h.h_index.sa_size) i)
  after-entries =
      rw after-insert_by (insert_by-perm (comes_before both vm_heap_header_cmp hole) hole _)

  -- A header that the index's new entry and the two blocks leave alone.
  pub after-HeaderAt :
      {p is_hole bytes : ℕ}
      → HeaderAt both p is_hole bytes
      → pos ≤ p
      → p + 12 ≤ pos + total
      → HeaderAt inserted.m' p is_hole bytes
  after-HeaderAt {p} at lo hi =
      HeaderAt-SameOutside _ _ both inserted.m' index-SameOutside at (omega (arith, r.apart))

  pub after-FooterAt :
      {p header : ℕ}
      → FooterAt both p header
      → pos ≤ p
      → p + 8 ≤ pos + total
      → FooterAt inserted.m' p header
  after-FooterAt {p} at lo hi =
      FooterAt-SameOutside _ _ both inserted.m' index-SameOutside at (omega (arith, r.apart))

  pub block_header : HeaderAt both pos 0 (size + 20)
  unfolding block
  block_header =
      HeaderAt-SameOutside hole (pos + total) block both both-SameOutside
        (with_block-HeaderAt k h i pos total size r (size + 20) (omega arith) (omega arith))
        (omega arith)

  pub block_footer : FooterAt both (pos + (size + 20) - 8) pos
  unfolding block
  block_footer =
      FooterAt-SameOutside hole (pos + total) block both both-SameOutside
        (with_block-FooterAt k h i pos total size r (size + 20) (omega arith)) (omega arith)

  pub hole_header : HeaderAt both hole 1 (total - size - 20)
  unfolding both
  hole_header =
      HeaderAt-SameOutside (pos + total - 8) (pos + total) m1
        (store_footer m1 (pos + total - 8) hole)
        (SameOutside-store_footer m1 (pos + total - 8) (pos + total - 8) (pos + total) m1 hole
          (omega arith) (omega arith) (λ a out. refl))
        (store_header-HeaderAt block hole 1 (total - size - 20) (omega arith)
          (omega (arith, r.below, r.limit)))
        (omega arith)
    where
      m1 : Mem
      m1 = store_header block hole 1 (total - size - 20)

  pub hole_footer : FooterAt both (pos + total - 8) hole
  unfolding both
  hole_footer = store_footer-FooterAt _ (pos + total - 8) hole (omega (arith, r.below, r.limit))

  pub take_hole-after : take_hole size 0 i k ≡ ok (pos + 12, after)
  take_hole-after =
      take_hole-write_block k h i pos total size r
      ∙ (let left : sub32 total (add32 size 20) ≡ total - size - 20 =
            omega (arith, r.below, r.limit) in
          let overhead : add32 size 20 ≡ size + 20 = omega (arith, r.below, r.limit) in
          let whole : ltb (total - size - 20) 20 ≡ false = ground arith in
          rw (left, overhead, whole) write_block-split)

  -- With a heap whose index compares by vm_heap_header_cmp and holds, as entry `i`, a hole of `total`
  -- bytes below the heap's end and apart from the index, with room for the request, its overhead and
  -- another header and footer: taking it without alignment returns the address behind the header of a
  -- block of `size + 20` bytes at the hole's place, with its header and footer; a hole of the other
  -- bytes stands behind it with its header and footer; and, up to their order, the entries of the index
  -- are that hole in place of the entry `i`.
  pub take_hole-split :
      (k' : Kernel) × (take_hole size 0 i k ≡ ok (pos + 12, k'))
      × HeaderAt k'.mem pos 0 (size + 20)
      × FooterAt k'.mem (pos + (size + 20) - 8) pos
      × HeaderAt k'.mem (pos + size + 20) 1 (total - size - 20)
      × FooterAt k'.mem (pos + total - 8) (pos + size + 20)
      × Perm
          (cells k'.mem h.h_index.sa_array 0 h.h_index.sa_size)
          ((pos + size + 20) ∷ erase_at (cells k.mem h.h_index.sa_array 0 h.h_index.sa_size) i)
  unfolding after
  take_hole-split = (
    after,
    take_hole-after,
    after-HeaderAt block_header (omega arith) (omega arith),
    after-FooterAt block_footer (omega arith) (omega arith),
    after-HeaderAt hole_header (omega arith) (omega arith),
    after-FooterAt hole_footer (omega arith) (omega arith),
    after-entries,
  )

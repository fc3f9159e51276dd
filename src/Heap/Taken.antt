-- ===== src/Heap/Taken.antt =====
-- What alloc leaves of a heap when it takes a hole without alignment.
use james_m.Base.{
  ℕ, ◌+◌, ◌-◌, ◌≤◌, ◌<◌, ◌≡◌, ◌⊎◌, inl, inr, refl, ap, ◌∙◌, arith, List, [], ◌∷◌, some, ok, ltb,
  if◌then◌else◌, Bool-cases, subst,
}
use james_m.Memory.Words.{IsBytes}
use james_m.SortedArray.{slot}
use james_m.SortedArray.Cells.{cells}
use james_m.SortedArray.Insert.{comes_before}
use james_m.SortedArray.Remove.{erase_at}
use james_m.Kernel.{Kernel, VmHeap}
use james_m.Heap.{vm_heap_header_cmp}
use james_m.Heap.Layout.{FooterAt}
use james_m.Heap.Segments.{Seg, IsSeg, block, hole, Tiled, holes, count}
use james_m.Heap.Holes.{count-insert_by}
use james_m.Heap.Alloc.{take_hole}
use james_m.Heap.Carve.{
  IsRoom, removed, without, take_hole-exact, with_block, with_block-IsBytes, with_block-HeaderAt,
  with_block-FooterAt, with_block-SameOutside, with_block-cells,
}
use james_m.Heap.Split

-- What a hole of `n` bytes becomes when `size` bytes are asked for.
abbrev pub taken : (size n : ℕ) → List Seg
taken size n =
    if ltb n (size + 40) then block n ∷ [] else block (size + 20) ∷ hole (n - size - 20) ∷ []

-- The pieces `ss` stand in the `bytes` bytes at `pos`, the index has lost its entry `i` and has got the holes
-- of `ss`, and no other byte has changed.
pub record Taken (k : Kernel) (h : VmHeap) (i pos bytes : ℕ) (ss : List Seg) (k' : Kernel)
    : Type 0 where
  pub left : ℕ
  pub heap : k'.kernel_heap ≡ some (record h { h_index = record (h.h_index) { sa_size = left } })
  pub no_more : left ≤ h.h_index.sa_size
  pub still_bytes : IsBytes k'.mem
  pub tiled : Tiled k'.mem h.h_addr_end pos ss (pos + bytes)
  pub entries :
      (x : ℕ)
      → count x (cells k'.mem h.h_index.sa_array 0 left)
        ≡ count x (holes pos ss)
          + count x (erase_at (cells k.mem h.h_index.sa_array 0 h.h_index.sa_size) i)
  pub elsewhere :
      (a : ℕ)
      → (a < h.h_index.sa_array) ⊎ (slot h.h_index.sa_array h.h_index.sa_size ≤ a)
      → (a < pos) ⊎ (pos + bytes ≤ a)
      → k'.mem a ≡ k.mem a

module _ (k : Kernel) (h : VmHeap) (i pos bytes size : ℕ) (r : IsRoom k h i pos bytes size) where
  pub take_hole-Taken_whole :
      bytes < size + 40
      → (k' : Kernel) × (take_hole size 0 i k ≡ ok (pos + 12, k'))
        × Taken k h i pos bytes (block bytes ∷ []) k'
  unfolding without
  take_hole-Taken_whole small = (
    record (without k h i pos bytes size r) { mem = with_block k h i pos bytes size r bytes },
    take_hole-exact k h i pos bytes size r small,
    record {
      left = h.h_index.sa_size - 1;
      heap = refl;
      no_more = omega arith;
      still_bytes = with_block-IsBytes k h i pos bytes size r bytes;
      tiled = (
        record {
          room = omega (arith, r.fits);
          header =
              with_block-HeaderAt k h i pos bytes size r bytes (omega (arith, r.fits))
                (omega arith);
          footer = inl (with_block-FooterAt k h i pos bytes size r bytes (omega arith));
        },
        refl,
      );
      entries = λ x.
          ap (count x)
            (with_block-cells k h i pos bytes size r bytes (omega (arith, r.fits)) (omega arith))
          ∙ omega arith;
      elsewhere = λ a out apart.
          with_block-SameOutside k h i pos bytes size r bytes (omega (arith, r.fits)) (omega arith)
            a apart
          ∙ (removed k h i pos bytes size r).elsewhere a out;
    },
  )

  module _ (room : size + 40 ≤ bytes) where
    abbrev next : ℕ
    next = pos + size + 20

    abbrev split : Kernel
    split = Split.after k h i pos bytes size r room

    split-block : IsSeg split.mem h.h_addr_end pos (block (size + 20))
    unfolding Split.after
    split-block = record {
      room = omega arith;
      header =
          Split.after-HeaderAt k h i pos bytes size r room
            (Split.block_header k h i pos bytes size r room) (omega arith) (omega arith);
      footer = inl (
          Split.after-FooterAt k h i pos bytes size r room
            (Split.block_footer k h i pos bytes size r room) (omega arith) (omega arith));
    }

    split-hole : IsSeg split.mem h.h_addr_end next (hole (bytes - size - 20))
    unfolding Split.after
    split-hole = record {
      room = omega arith;
      header =
          Split.after-HeaderAt k h i pos bytes size r room
            (Split.hole_header k h i pos bytes size r room) (omega arith) (omega arith);
      footer = inl (
          subst (λ a. FooterAt split.mem a next) (omega arith)
            (Split.after-FooterAt k h i pos bytes size r room
              (Split.hole_footer k h i pos bytes size r room) (omega arith) (omega arith)));
    }

    split-entries :
        (x : ℕ)
        → count x (cells split.mem h.h_index.sa_array 0 h.h_index.sa_size)
          ≡ count x (next ∷ [])
            + count x (erase_at (cells k.mem h.h_index.sa_array 0 h.h_index.sa_size) i)
    unfolding Split.after
    split-entries x =
        ap (count x) (Split.after-insert_by k h i pos bytes size r room)
        ∙ count-insert_by x
            (comes_before (Split.both k h i pos bytes size r room) vm_heap_header_cmp next) next
            (erase_at (cells k.mem h.h_index.sa_array 0 h.h_index.sa_size) i)
        ∙ omega arith

    split_elsewhere :
        (a : ℕ)
        → (a < h.h_index.sa_array) ⊎ (slot h.h_index.sa_array h.h_index.sa_size ≤ a)
        → (a < pos) ⊎ (pos + bytes ≤ a)
        → split.mem a ≡ k.mem a
    unfolding Split.after
    split_elsewhere a out apart =
        Split.index-SameOutside k h i pos bytes size r room a out
        ∙ Split.both-SameOutside k h i pos bytes size r room a (omega arith)
        ∙ unfold Split.block in
          (with_block-SameOutside k h i pos bytes size r (size + 20) (omega arith) (omega arith) a
              (omega arith)
            ∙ (removed k h i pos bytes size r).elsewhere a out)

    pub take_hole-Taken_split :
        (k' : Kernel) × (take_hole size 0 i k ≡ ok (pos + 12, k'))
        × Taken k h i pos bytes (block (size + 20) ∷ hole (bytes - size - 20) ∷ []) k'
    take_hole-Taken_split = (
      split,
      Split.take_hole-after k h i pos bytes size r room,
      record {
        left = h.h_index.sa_size;
        heap =
            unfold Split.after in
            ap (λ n. some (record h { h_index = record (h.h_index) { sa_size = n } }))
              (omega (arith, r.inside));
        no_more = omega arith;
        still_bytes =
            unfold Split.after in (Split.inserted k h i pos bytes size r room).still_bytes;
        tiled = (
          split-block,
          (
            subst (λ a. IsSeg split.mem h.h_addr_end a (hole (bytes - size - 20))) (omega arith)
                split-hole,
            omega arith,
          ),
        );
        entries = λ x.
            split-entries x
            ∙ ap
                (λ a.
                  count x (a ∷ [])
                  + count x (erase_at (cells k.mem h.h_index.sa_array 0 h.h_index.sa_size) i))
                (omega arith);
        elsewhere = split_elsewhere;
      },
    )

  -- Whether the hole is split or given whole.
  pub take_hole-Taken :
      (k' : Kernel) × (take_hole size 0 i k ≡ ok (pos + 12, k'))
      × Taken k h i pos bytes (taken size bytes) k'
  take_hole-Taken = elim (Bool-cases (ltb bytes (size + 40))) [
    | inl small ↦ rw small (take_hole-Taken_whole (ground (arith, small)))
    | inr large ↦ rw large (take_hole-Taken_split (ground (arith, large)))
  ]

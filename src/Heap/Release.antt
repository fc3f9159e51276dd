-- ===== src/Heap/Release.antt =====
-- free on a heap in which another block follows the block: the heap that it leaves.
use james_m.Base.{
  ℕ, ◌+◌, ◌-◌, ◌≤◌, ◌<◌, ◌≡◌, ◌≢◌, ◌⊎◌, inl, inr, refl, List, [], ◌∷◌, ◌++◌, some, ok, arith, ◌∙◌,
  ap, true,
}
use james_m.Memory.Words.{IsBytes, store32-IsBytes}
use james_m.Memory.Regions.{SameOutside, SameOutside-store32}
use james_m.SortedArray.{slot, insert_sorted_array}
use james_m.SortedArray.Cells.{cells}
use james_m.SortedArray.Insert.{Inserted, insert_sorted_array-Inserted, comes_before}
use james_m.Kernel.{Kernel, VmHeap}
use james_m.Heap.{vm_heap_header_cmp, hh_is_hole, hf_header, hf_magic, ftr_magic, insert_index}
use james_m.Heap.Layout.{the_heap-some, cells-SameOutside}
use james_m.Heap.Segments.{
  Seg, IsSeg, block, hole, total, Tiled, Tiled-end, Tiled-after, HeaderAt-Agree, FooterAt-Agree,
  count,
}
use james_m.Heap.Holes.{count-insert_by}
use james_m.Heap.Invariant.{IsHeap}
use james_m.Heap.Replace.{resized, Changed, IsHeap-replaced}
use james_m.Heap.Unify.{
  IsBetween, marked, HeaderAt-marked, FooterAt-store32, HeaderAt-store32, unify_left-alone,
  free-joined,
}
use james_m.Heap.Free.{free}

-- What a block of `n` bytes that is freed becomes, with what stands before it.
abbrev pub release : List Seg → ℕ → List Seg
release [] n = hole n ∷ []
release (block a ∷ []) n = block a ∷ hole n ∷ []
release (hole a ∷ []) n = hole (a + n) ∷ []
release (s ∷ t ∷ ss) n = s ∷ release (t ∷ ss) n

-- A row of pieces has a last one, or is empty.
pub data Ending : List Seg → Type 0 where
  nothing : Ending []
  ends : (init : List Seg) (s : Seg) → Ending (init ++ (s ∷ []))

pub ending : (ss : List Seg) → Ending ss
ending [] = nothing
ending (s ∷ ss) = add s (ending ss)
  where
    add : (s : Seg) {ss : List Seg} → Ending ss → Ending (s ∷ ss)
    add s nothing = ends [] s
    add s (ends init t) = ends (s ∷ init) t

pub release-block :
    (init : List Seg) (a n : ℕ)
    → release (init ++ (block a ∷ [])) n ≡ (init ++ (block a ∷ [])) ++ (hole n ∷ [])
release-block [] a n = refl
release-block (s ∷ []) a n = refl
release-block (s ∷ t ∷ ss) a n = ap (λ zs. s ∷ zs) (release-block (t ∷ ss) a n)

pub release-hole :
    (init : List Seg) (a n : ℕ) → release (init ++ (hole a ∷ [])) n ≡ init ++ (hole (a + n) ∷ [])
release-hole [] a n = refl
release-hole (s ∷ []) a n = refl
release-hole (s ∷ t ∷ ss) a n = ap (λ zs. s ∷ zs) (release-hole (t ∷ ss) a n)

module _ (k : Kernel) (h : VmHeap) (before after : List Seg) (n b : ℕ)
    (r : IsHeap k h (before ++ (block n ∷ block b ∷ after))) where
  abbrev pub pos : ℕ
  pos = h.h_addr_start + total before

  here : Tiled k.mem h.h_addr_end pos (block n ∷ block b ∷ after) h.h_addr_end
  here =
      Tiled-after k.mem h.h_addr_end h.h_addr_start before (block n ∷ block b ∷ after) h.h_addr_end
        r.tiled

  below : pos + n + b ≤ h.h_addr_end
  below = omega (arith, Tiled-end k.mem h.h_addr_end (pos + n + b) after h.h_addr_end here.1.1)

  between : IsBetween k h pos n
  between = record {
    heap = r.heap;
    header = here.0.header;
    footer = elim here.0.footer [ inl f ↦ f | inr last ↦ absurd (ground (arith, last)) ];
    room = here.0.room;
    low = omega (arith, r.index_below);
    below = omega (arith, below, here.1.0.room);
    limit = r.limit;
  }

  -- The state after a block that joins nothing has been put into the index.
  module _ (space : h.h_index.sa_size < h.h_index.sa_maxsize) where
    marked-IsBytes : IsBytes (marked k h pos n between).mem
    marked-IsBytes = store32-IsBytes k.mem (pos + 4) 1 r.bytes

    small : pos < 4294967296
    small = omega (arith, below, r.limit)

    inserted :
        Inserted
          (marked k h pos n between).mem
          marked-IsBytes
          h.h_index
          pos
          small
          vm_heap_header_cmp
          (insert_sorted_array (marked k h pos n between).mem h.h_index pos)
    inserted =
        insert_sorted_array-Inserted (marked k h pos n between).mem marked-IsBytes h.h_index pos
          small vm_heap_header_cmp r.compares space

    pub listed : Kernel
    listed = record k { mem = inserted.m'; kernel_heap = some (resized h (h.h_index.sa_size + 1)) }

    insert_index-listed : insert_index (marked k h pos n between) pos ≡ ok listed
    unfolding listed
    insert_index-listed = rw (the_heap-some (marked k h pos n between) r.heap, inserted.returns)

    marked-SameOutside : SameOutside pos (pos + n) k.mem (marked k h pos n between).mem
    marked-SameOutside =
        SameOutside-store32 pos (pos + n) k.mem k.mem (pos + 4) 1 (omega arith)
          (omega (arith, here.0.room)) (λ a out. refl)

    -- The index stays below the heap.
    index_away :
        (a : ℕ)
        → (a < h.h_index.sa_array) ⊎ (slot h.h_index.sa_array h.h_index.sa_maxsize ≤ a)
        → inserted.m' a ≡ (marked k h pos n between).mem a
    index_away a out = inserted.elsewhere a (omega (arith, out, space))

    listed-Changed : Changed k h pos (pos + total (block n ∷ [])) (h.h_index.sa_size + 1) listed
    unfolding listed
    listed-Changed = record {
      heap = refl;
      capacity = omega (arith, space);
      still_bytes = inserted.still_bytes;
      elsewhere = λ a out apart. index_away a out ∙ marked-SameOutside a (omega (arith, apart));
    }

    listed-hole : IsSeg listed.mem h.h_addr_end pos (hole n)
    unfolding listed
    listed-hole = record {
      room = here.0.room;
      header =
          HeaderAt-Agree (marked k h pos n between).mem inserted.m' pos (pos + n)
            (λ a lo hi. index_away a (omega (arith, r.index_below))) (omega arith)
            (omega (arith, here.0.room)) (HeaderAt-marked k.mem here.0.header);
      footer = inl (
          FooterAt-Agree (marked k h pos n between).mem inserted.m' pos (pos + n)
            (λ a lo hi. index_away a (omega (arith, r.index_below))) (omega (arith, here.0.room))
            (omega (arith, here.0.room))
            (FooterAt-store32 k.mem (pos + 4) 1 between.footer (omega (arith, here.0.room))));
    }

    listed-counts :
        (x : ℕ)
        → count x (cells listed.mem h.h_index.sa_array 0 (h.h_index.sa_size + 1))
          ≡ count x (pos ∷ []) + count x (cells k.mem h.h_index.sa_array 0 h.h_index.sa_size)
    unfolding listed
    listed-counts x =
        let xs = cells (marked k h pos n between).mem h.h_index.sa_array 0 h.h_index.sa_size in
        let same =
          cells-SameOutside pos (pos + n) k.mem (marked k h pos n between).mem marked-SameOutside
            h.h_index.sa_array 0 h.h_index.sa_size (omega (arith, r.index_below, space)) in
        omega (
          arith,
          ap (count x) inserted.entries,
          count-insert_by x (comes_before (marked k h pos n between).mem vm_heap_header_cmp pos) pos
              xs,
          ap (count x) same,
        )

    pub listed-IsHeap :
        IsHeap listed (resized h (h.h_index.sa_size + 1)) (before ++ (hole n ∷ block b ∷ after))
    listed-IsHeap =
        IsHeap-replaced k h before (block n ∷ []) (hole n ∷ []) (block b ∷ after) r
          (h.h_index.sa_size + 1) listed listed-Changed (listed-hole, omega arith) refl
          λ x. omega (arith, listed-counts x)

    -- A block with no hole on its left becomes a hole of its own.
    pub released_alone :
        ((hf_magic k.mem (pos - 8) ≢ ftr_magic)
          ⊎ ((hh_is_hole k.mem (hf_header k.mem (pos - 8)) ≡ 0)
              × ((hf_header k.mem (pos - 8) + 8 ≤ pos + 4)
                  ⊎ (pos + 8 ≤ hf_header k.mem (pos - 8) + 4))))
        → free (pos + 12) k ≡ ok listed
    released_alone alone =
        free-joined k h pos n between
          (record {
            header = pos;
            footer = pos + n - 8;
            do_add = true;
            state = marked k h pos n between;
          })
          refl r.heap (unify_left-alone k h pos n between alone)
          (HeaderAt-store32 k.mem (pos + 4) 1 here.1.0.header (omega (arith, here.0.room)))
        ∙ insert_index-listed

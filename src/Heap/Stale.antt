-- ===== src/Heap/Stale.antt =====
-- free on a block between a block and a hole: what the footer of the joined hole says.
use james_m.Base.{
  ℕ, zero, suc, ◌+◌, ◌-◌, ◌≤◌, ◌<◌, ◌≡◌, inl, inr, refl, List, [], ◌∷◌, some, ok, arith, ◌∙◌, ap,
  subst, true, false, add32, sub32, lt→ltb, ◌==◌, Bool-cases,
}
use james_m.Memory.{Mem, load32, store32}
use james_m.Memory.Words.{IsBytes, store32-IsBytes, load32-store32, load32-store32_ne}
use james_m.Memory.Regions.{SameOutside, SameOutside-store32}
use james_m.SortedArray.{
  SortedArray, slot, lookup_sorted_array, insert_sorted_array, remove_sorted_array,
}
use james_m.SortedArray.Cells.{cells, cells-zero, cells-suc}
use james_m.SortedArray.Insert.{Inserted, insert_sorted_array-Inserted}
use james_m.SortedArray.Remove.{Removed, remove_sorted_array-Removed}
use james_m.Kernel.{Kernel, VmHeap}
use james_m.Heap.{vm_heap_header_cmp, the_heap}
use james_m.Heap.Layout.{
  HeaderAt, FooterAt, HeaderAt-SameOutside, FooterAt-SameOutside, cells-SameOutside,
}
use james_m.Heap.Segments.{Seg, block, hole, Tiled-end, HeaderAt-Agree, FooterAt-Agree, count}
use james_m.Heap.Invariant.{IsHeap, HoleIn-entry}
use james_m.Heap.Unify.{IsBetween, marked, unify_left-alone, HeaderAt-marked, HeaderAt-store32}
use james_m.Heap.Free.{Freed, index_of_from, index_of, unify_right, trim, free_block, free}

index_of_from-found :
    (m : Mem) (a : SortedArray) (el left i : ℕ)
    → i + left ≡ a.sa_size
    → 0 < count el (cells m a.sa_array i left)
    → (j : ℕ) × (index_of_from m a el left i ≡ ok j) × (j < a.sa_size)
unfolding index_of_from lookup_sorted_array
index_of_from-found m a el zero i e h =
    absurd (omega (arith, h, ap (count el) (cells-zero m a.sa_array i)))
index_of_from-found m a el (suc left) i e h =
    let inside = lt→ltb i a.sa_size (omega arith) in
    let split = ap (count el) (cells-suc m a.sa_array i left) in
    elim (Bool-cases (load32 m (slot a.sa_array i) == el)) [
      | inl same ↦ (i, rw (inside, same), omega arith)
      | inr other ↦
          let swapped : (el == load32 m (slot a.sa_array i)) ≡ false = ground (arith, other) in
          let (j, found, below) =
            index_of_from-found m a el left (i + 1) (omega arith)
              (ground (arith, h, split, swapped)) in
          (j, rw (inside, other, found), below)
    ]

-- An entry of the index is found by the search of free.
pub index_of-found :
    (m : Mem) (a : SortedArray) (el : ℕ)
    → 0 < count el (cells m a.sa_array 0 a.sa_size)
    → (j : ℕ) × (index_of m a el ≡ ok j) × (j < a.sa_size)
unfolding index_of
index_of-found m a el h = index_of_from-found m a el a.sa_size 0 (omega arith) h

module _ (k : Kernel) (h : VmHeap) (n c b : ℕ) (after : List Seg)
    (r : IsHeap k h (block n ∷ hole c ∷ block b ∷ after)) where
  abbrev pub pos : ℕ
  pos = h.h_addr_start

  below : pos + n + c + 20 ≤ h.h_addr_end
  below = omega (
    arith,
    Tiled-end k.mem h.h_addr_end (pos + n + c + b) after h.h_addr_end r.tiled.1.1.1,
    r.tiled.1.1.0.room,
  )

  between : IsBetween k h pos n
  between = record {
    heap = r.heap;
    header = r.tiled.0.header;
    footer = elim r.tiled.0.footer [ inl f ↦ f | inr last ↦ absurd (omega (arith, last.0)) ];
    room = r.tiled.0.room;
    low = omega (arith, r.index_below);
    below = omega (arith, below);
    limit = r.limit;
  }

  hole_foot : FooterAt k.mem (pos + n + c - 8) (pos + n)
  hole_foot = elim r.tiled.1.0.footer [
    | inl f ↦ f
    | inr last ↦ absurd (omega (arith, last.1, below))
  ]

  -- The memory once the block is marked and has got the size of both.
  sized : Mem
  sized = store32 (store32 k.mem (pos + 4) 1) (pos + 8) (n + c)

  sized-IsBytes : IsBytes sized
  unfolding sized
  sized-IsBytes = store32-IsBytes _ (pos + 8) (n + c) (store32-IsBytes k.mem (pos + 4) 1 r.bytes)

  sized-SameOutside : SameOutside pos (pos + 12) k.mem sized
  unfolding sized
  sized-SameOutside =
      SameOutside-store32 pos (pos + 12) k.mem _ (pos + 8) (n + c) (omega arith) (omega arith) (
        SameOutside-store32 pos (pos + 12) k.mem k.mem (pos + 4) 1 (omega arith) (omega arith)
          (λ a out. refl))

  found : (j : ℕ) × (index_of sized h.h_index (pos + n) ≡ ok j) × (j < h.h_index.sa_size)
  found = index_of-found sized h.h_index (pos + n) (
      omega (
        arith,
        HoleIn-entry k h (block n ∷ hole c ∷ block b ∷ after) r {x = pos + n} (record {
          before = block n ∷ [];
          size = c;
          after = block b ∷ after;
          splits = refl;
          place = omega arith;
        }),
        ap (count (pos + n)) (
            cells-SameOutside pos (pos + 12) k.mem sized sized-SameOutside h.h_index.sa_array 0
              h.h_index.sa_size (omega (arith, r.index_below, r.capacity))),
      ))

  removed : Removed sized h.h_index found.0 (remove_sorted_array sized h.h_index found.0)
  removed = remove_sorted_array-Removed sized h.h_index found.0 sized-IsBytes found.2

  abbrev fewer : SortedArray
  fewer = record (h.h_index) { sa_size = h.h_index.sa_size - 1 }

  inserted :
      Inserted removed.m' removed.still_bytes fewer pos
        (omega (arith, below, r.limit))
        vm_heap_header_cmp
        (insert_sorted_array removed.m' fewer pos)
  inserted =
      insert_sorted_array-Inserted removed.m' removed.still_bytes fewer pos
        (omega (arith, below, r.limit)) vm_heap_header_cmp r.compares
        (omega (arith, found.2, r.capacity))

  -- Only the index and the block's header have changed.
  end-SameOutside : (a : ℕ) → h.h_addr_start ≤ a → inserted.m' a ≡ sized a
  end-SameOutside a lo =
      inserted.elsewhere a (omega (arith, r.index_below, r.capacity, found.2, lo))
      ∙ removed.elsewhere a (omega (arith, r.index_below, r.capacity, found.2, lo))

  done : Kernel
  done = record k {
    mem = inserted.m';
    kernel_heap =
        some (record h { h_index = record fewer { sa_size = h.h_index.sa_size - 1 + 1 } });
  }

  abbrev step1 : Freed
  step1 = record {
    header = pos;
    footer = pos + n - 8;
    do_add = true;
    state = marked k h pos n between;
  }

  abbrev step2 : Freed
  step2 = record {
    header = pos;
    footer = pos + n + c - 8;
    do_add = true;
    state = record k { mem = removed.m'; kernel_heap = some (record h { h_index = fewer }) };
  }

  unify_right-hole : unify_right (pos + n) step1 ≡ ok step2
  unfolding unify_right the_heap sized
  unify_right-hole =
      let mine = HeaderAt-marked k.mem r.tiled.0.header in
      let there =
        HeaderAt-store32 k.mem (pos + 4) 1 r.tiled.1.0.header (omega (arith, r.tiled.0.room)) in
      let kept =
        HeaderAt-store32 (marked k h pos n between).mem (pos + 8) (n + c) there
          (omega (arith, r.tiled.0.room)) in
      let sum : add32 n c ≡ n + c = omega (arith, below, r.limit) in
      let inside = lt→ltb found.0 h.h_index.sa_size found.2 in
      let foot : sub32 (add32 (pos + n) c) 8 ≡ pos + n + c - 8 =
        omega (arith, r.tiled.1.0.room, below, r.limit) in
      rw (
        there.magic, there.hole, r.heap, mine.size_field, there.size_field, sum, kept.size_field,
        found.1, inside, removed.returns, foot,
      )

  trim-inside : trim (pos + n) step2 ≡ ok step2
  unfolding trim the_heap
  trim-inside =
      let behind : add32 (pos + n + c - 8) 8 ≡ pos + n + c =
        omega (arith, r.tiled.1.0.room, below, r.limit) in
      let before_end : (pos + n + c == h.h_addr_end) ≡ false = ground (arith, below) in
      rw (behind, before_end)

  free-done : free (pos + 12) k ≡ ok done
  unfolding free free_block done the_heap
  free-done =
      let back : sub32 (pos + 12) 12 ≡ pos = omega (arith, below, r.limit) in
      let given : ((pos + 12) == 0) ≡ false = ground arith in
      let place : sub32 (add32 pos n) 8 ≡ pos + n - 8 =
        omega (arith, between.room, below, r.limit) in
      let behind : add32 (pos + n - 8) 8 ≡ pos + n = omega (arith, between.room, below, r.limit) in
      rw (
        given,
        r.heap,
        back,
        between.header.size_field,
        place,
        between.header.magic,
        between.footer.magic,
        unify_left-alone k h pos n between (inl r.guard),
        behind,
        unify_right-hole,
        trim-inside,
        inserted.returns,
      )

  sized-HeaderAt : HeaderAt sized pos 1 (n + c)
  unfolding sized
  sized-HeaderAt =
      let mine = HeaderAt-marked k.mem r.tiled.0.header in
      let m1 = store32 k.mem (pos + 4) 1 in
      record {
        magic = load32-store32_ne m1 (pos + 8) pos (n + c) (omega arith) ∙ mine.magic;
        hole = load32-store32_ne m1 (pos + 8) (pos + 4) (n + c) (omega arith) ∙ mine.hole;
        size_field = load32-store32 m1 (pos + 8) (n + c) (omega (arith, below, r.limit));
      }

  -- With the invariant, where the heap begins with a block, a hole and another block: free of the first block
  -- returns. The header of the block is then that of a hole of both their bytes, but the footer at its end
  -- still names the header in its middle, which still is the header of a hole of the old size.
  pub free-stale_footer :
      (k' : Kernel) × (free (pos + 12) k ≡ ok k')
      × HeaderAt k'.mem pos 1 (n + c)
      × FooterAt k'.mem (pos + (n + c) - 8) (pos + n)
      × HeaderAt k'.mem (pos + n) 1 c
  unfolding done
  free-stale_footer = (
    done,
    free-done,
    HeaderAt-Agree sized inserted.m' pos (pos + 12) (λ a lo hi. end-SameOutside a lo) (omega arith)
        (omega arith) sized-HeaderAt,
    subst (λ a. FooterAt inserted.m' a (pos + n)) (omega arith)
        (FooterAt-Agree sized inserted.m' (pos + 12) h.h_addr_end
          (λ a lo hi. end-SameOutside a (omega arith))
          (omega (arith, between.room, r.tiled.1.0.room)) (omega (arith, below, r.tiled.1.0.room))
          (FooterAt-SameOutside pos (pos + 12) k.mem sized sized-SameOutside hole_foot
            (omega (arith, between.room, r.tiled.1.0.room)))),
    HeaderAt-Agree sized inserted.m' (pos + 12) h.h_addr_end
        (λ a lo hi. end-SameOutside a (omega arith)) (omega (arith, between.room))
        (omega (arith, below, r.tiled.1.0.room))
        (HeaderAt-SameOutside pos (pos + 12) k.mem sized sized-SameOutside r.tiled.1.0.header
          (omega (arith, between.room))),
  )

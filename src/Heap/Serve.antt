-- ===== src/Heap/Serve.antt =====
-- alloc on a heap in which a hole is large enough: what it gives away, and the heap that it leaves.
use james_m.Base.{
  ℕ, suc, ◌+◌, ◌≤◌, ◌<◌, ◌≡◌, ◌⊎◌, inl, inr, refl, List, [], ◌∷◌, ◌++◌, Option, some, none,
  none≢some, ok, arith, ◌∙◌, ap, subst, sym, ltb, add32, Bool-cases, get_elem?,
}
use james_m.Memory.{load32}
use james_m.SortedArray.{slot}
use james_m.SortedArray.Cells.{cells, get_elem?-cells, get_elem?-cells-none}
use james_m.Kernel.{Kernel, VmHeap}
use james_m.Heap.{fits, find_smallest_hole, hh_size}
use james_m.Heap.Find.{
  FirstHit, hit, miss, find_index_from-FirstHit, find_hole_from-find_index_from,
}
use james_m.Heap.Layout.{the_heap-some}
use james_m.Heap.Segments.{Seg, hole, total, Tiled}
use james_m.Heap.Holes.{HoleIn, count-erase_at}
use james_m.Heap.Invariant.{IsHeap, entry-HoleIn, HoleIn-IsSeg, HoleIn-below, HoleIn-entry}
use james_m.Heap.Replace.{resized, IsHeap-replaced}
use james_m.Heap.Carve.{IsRoom}
use james_m.Heap.Taken.{taken, Taken, take_hole-Taken}
use james_m.Heap.Alloc.{take_hole, alloc}

total-taken : (size n : ℕ) → size + 20 ≤ n → total (taken size n) ≡ n
total-taken size n fit = elim (Bool-cases (ltb n (size + 40))) [
  | inl small ↦ rw small (omega arith)
  | inr large ↦ rw large (ground (arith, large))
]

-- What alloc has done to the heap `ss`: one of its holes that is large enough, of `n` bytes, is the block
-- that was asked for, with a hole behind it or not, the pieces before and behind it are the same, and
-- no byte outside that hole and the index has changed.
pub record Served (k : Kernel) (h : VmHeap) (ss : List Seg) (size : ℕ) (p : ℕ) (k' : Kernel)
    : Type 0 where
  pub before : List Seg
  pub n : ℕ
  pub after : List Seg
  pub entries : ℕ
  pub split : ss ≡ before ++ (hole n ∷ after)
  pub fit : size + 20 ≤ n
  pub address : p ≡ h.h_addr_start + total before + 12
  pub is_heap : IsHeap k' (resized h entries) (before ++ (taken size n ++ after))
  pub elsewhere :
      (a : ℕ)
      → (a < h.h_index.sa_array) ⊎ (slot h.h_index.sa_array h.h_index.sa_maxsize ≤ a)
      → (a < h.h_addr_start + total before) ⊎ (h.h_addr_start + total before + n ≤ a)
      → k'.mem a ≡ k.mem a

module _ (k : Kernel) (h : VmHeap) (size : ℕ) where
  served :
      (before after : List Seg) (n i : ℕ) (k' : Kernel)
      → IsHeap k h (before ++ (hole n ∷ after))
      → size + 20 ≤ n
      → get_elem? (cells k.mem h.h_index.sa_array 0 h.h_index.sa_size) i
        ≡ some (h.h_addr_start + total before)
      → Taken k h i (h.h_addr_start + total before) n (taken size n) k'
      → Served k h (before ++ (hole n ∷ after)) size (h.h_addr_start + total before + 12) k'
  served before after n i k' r fit at t = record {
    before = before;
    n = n;
    after = after;
    entries = t.left;
    split = refl;
    fit = fit;
    address = refl;
    is_heap =
        IsHeap-replaced k h before (hole n ∷ []) (taken size n) after r t.left k'
          (record {
            heap = t.heap;
            capacity = omega (arith, t.no_more, r.capacity);
            still_bytes = t.still_bytes;
            elsewhere = λ a out apart.
                t.elsewhere a (omega (arith, r.capacity, out)) (omega (arith, apart));
          })
          (subst (λ b. Tiled k'.mem h.h_addr_end pos (taken size n) b) (omega arith) t.tiled)
          (omega (arith, total-taken size n fit))
          λ x. omega (arith, t.entries x, count-erase_at x _ i pos at);
    elsewhere = λ a out apart. t.elsewhere a (omega (arith, out, r.capacity)) apart;
  }
    where
      pos : ℕ
      pos = h.h_addr_start + total before

  inside_index :
      {i e : ℕ}
      → get_elem? (cells k.mem h.h_index.sa_array 0 h.h_index.sa_size) i ≡ some e
      → i < h.h_index.sa_size
  inside_index {i} at = elim (Bool-cases (ltb i h.h_index.sa_size)) [
    | inl inside ↦ ground (arith, inside)
    | inr outside ↦ absurd (
        none≢some (
          sym (
            get_elem?-cells-none k.mem h.h_index.sa_array 0 h.h_index.sa_size i
              (ground (arith, outside)))
          ∙ at))
  ]

  entry_word :
      (i : ℕ) {e : ℕ}
      → get_elem? (cells k.mem h.h_index.sa_array 0 h.h_index.sa_size) i ≡ some e
      → load32 k.mem (slot h.h_index.sa_array i) ≡ e
  entry_word i {e} at =
      let word = get_elem?-cells k.mem h.h_index.sa_array 0 h.h_index.sa_size i (inside_index at) in
      let zeroth : 0 + i ≡ i = omega arith in
      some-injective
        (ap (λ j. some (load32 k.mem (slot h.h_index.sa_array j))) (sym zeroth) ∙ sym word ∙ at)
    where
      some-injective : {x y : ℕ} → Path (Option ℕ) (some x) (some y) → x ≡ y
      some-injective e = cc

  module _ (ss : List Seg) (r : IsHeap k h ss) where
    room :
        {i e : ℕ} (f : HoleIn h.h_addr_start e ss)
        → get_elem? (cells k.mem h.h_index.sa_array 0 h.h_index.sa_size) i ≡ some e
        → size + 20 ≤ f.size
        → IsRoom k h i e f.size size
    room {i} {e} f at fit = record {
      heap = r.heap;
      bytes = r.bytes;
      compares = r.compares;
      inside = inside_index at;
      capacity = r.capacity;
      entry = entry_word i at;
      total_size = (HoleIn-IsSeg k h ss r f).0.header.size_field;
      fits = fit;
      below = HoleIn-below k h ss r f;
      limit = r.limit;
      apart = inl (omega (arith, r.index_below, r.capacity, f.place));
    }

    -- The hole that the search has hit is taken.
    take_hit :
        (i e : ℕ) (f : HoleIn h.h_addr_start e ss)
        → get_elem? (cells k.mem h.h_index.sa_array 0 h.h_index.sa_size) i ≡ some e
        → size + 20 ≤ f.size
        → (p : ℕ) × (k' : Kernel) × (take_hole size 0 i k ≡ ok (p, k')) × Served k h ss size p k'
    take_hit i e f at fit =
        let (k', taking, t) = take_hole-Taken k h i e f.size size (room f at fit) in
        (
          e + 12,
          k',
          taking,
          subst (λ zs. Served k h zs size (e + 12) k') (sym f.splits)
              (subst (λ a. Served k h (f.before ++ (hole f.size ∷ f.after)) size (a + 12) k')
                (sym f.place)
                (served f.before f.after f.size i k' (subst (λ zs. IsHeap k h zs) f.splits r) fit
                  (at ∙ ap some f.place)
                  (subst (λ a. Taken k h i a f.size (taken size f.size) k') f.place t))),
        )

    hole_size : {x : ℕ} (f : HoleIn h.h_addr_start x ss) → hh_size k.mem x ≡ f.size
    hole_size f = (HoleIn-IsSeg k h ss r f).0.header.size_field

    serve_found :
        {x : ℕ} (f : HoleIn h.h_addr_start x ss)
        → size + 20 ≤ f.size
        → (o : Option ℕ)
        → FirstHit
            (fits k.mem (size + 20) 0)
            0
            (cells k.mem h.h_index.sa_array 0 h.h_index.sa_size)
            o
        → (i : ℕ) × (o ≡ some i)
          × (p : ℕ) × (k' : Kernel) × (take_hole size 0 i k ≡ ok (p, k'))
          × Served k h ss size p k'
    unfolding fits
    serve_found f fit (some i) (hit {n} {e} j same at passes) =
        let g = entry-HoleIn k h ss r j e at in
        let e' : n ≡ j = omega (arith, same) in
        let (p, k', taking, s) = take_hit j e g at (ground (arith, passes, hole_size g)) in
        (j, ap some e', p, k', taking, s)
    serve_found {x} f fit none (miss all) =
        let no_fit = all x (HoleIn-entry k h ss r f) in
        absurd (ground (arith, no_fit, hole_size f, fit))

    -- With the invariant, and a hole in the heap that is large enough for the request and its overhead, alloc
    -- without alignment returns in its first round, whatever the order of the index: the address behind
    -- the header of a block of the bytes asked for, cut from one hole that is large enough; the pieces
    -- before and behind that hole and their bytes stay as they were, and the invariant holds again.
    pub alloc-Served :
        (fuel x : ℕ) (f : HoleIn h.h_addr_start x ss)
        → size + 20 ≤ f.size
        → (p : ℕ) × (k' : Kernel) × (alloc (suc fuel) size 0 k ≡ ok (p, k'))
          × Served k h ss size p k'
    unfolding alloc find_smallest_hole
    alloc-Served fuel x f fit =
        let xs = cells k.mem h.h_index.sa_array 0 h.h_index.sa_size in
        let (i, found, p, k', taking, s) =
          serve_found f fit _ (find_index_from-FirstHit (fits k.mem (size + 20) 0) 0 xs) in
        let overhead : add32 size 20 ≡ size + 20 =
          omega (arith, fit, HoleIn-below k h ss r f, r.limit) in
        let search =
          find_hole_from-find_index_from k.mem h.h_index (size + 20) 0 h.h_index.sa_size 0
            (omega arith) in
        (p, k', rw (the_heap-some k r.heap, overhead, search, found) taking, s)

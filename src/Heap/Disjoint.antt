-- ===== src/Heap/Disjoint.antt =====
-- Two calls of alloc give away memory that does not overlap.
use james_m.Base.{
  ℕ, suc, ◌+◌, ◌-◌, ◌≤◌, ◌<◌, ◌≡◌, ◌⊎◌, inl, inr, List, [], ◌∷◌, ◌++◌, ok, arith, ◌∙◌, ap, sym, ltb,
  Bool-cases,
}
use james_m.Kernel.{Kernel, VmHeap}
use james_m.Heap.Segments.{Seg, kind, extent, block, hole, total}
use james_m.Heap.Holes.{HoleIn}
use james_m.Heap.Replace.{resized}
use james_m.Heap.Taken.{taken}
use james_m.Heap.Serve.{Served, alloc-Served}
use james_m.Heap.Alloc.{alloc}

-- A block and a hole of the same row do not overlap.
apart :
    (xs ys us vs : List Seg) (c n : ℕ)
    → xs ++ (block c ∷ ys) ≡ us ++ (hole n ∷ vs)
    → (total xs + c ≤ total us) ⊎ (total us + n ≤ total xs)
apart [] ys [] vs c n e = let same : block c ≡ hole n = cc in absurd (omega (arith, ap kind same))
apart [] ys (u ∷ us) vs c n e = let same : block c ≡ u = cc in inl (omega (arith, ap extent same))
apart (x ∷ xs) ys [] vs c n e = let same : x ≡ hole n = cc in inr (omega (arith, ap extent same))
apart (x ∷ xs) ys (u ∷ us) vs c n e =
    let same : x ≡ u = cc in
    let later : xs ++ (block c ∷ ys) ≡ us ++ (hole n ∷ vs) = cc in
    elim (apart xs ys us vs c n later) [
      | inl before ↦ inl (omega (arith, ap extent same, before))
      | inr behind ↦ inr (omega (arith, ap extent same, behind))
    ]

-- The first of the pieces that a hole has become is the block, large enough.
pub record FirstBlock (size n : ℕ) (rest : List Seg) : Type 0 where
  pub c : ℕ
  pub others : List Seg
  pub starts : taken size n ++ rest ≡ block c ∷ others
  pub enough : size + 20 ≤ c

pub taken-FirstBlock : (size n : ℕ) (rest : List Seg) → size + 20 ≤ n → FirstBlock size n rest
taken-FirstBlock size n rest fit = elim (Bool-cases (ltb n (size + 40))) [
  | inl small ↦ record { c = n; others = rest; starts = rw small; enough = fit }
  | inr large ↦ record {
    c = size + 20;
    others = hole (n - size - 20) ∷ rest;
    starts = rw large;
    enough = omega arith;
  }
]

-- Two requests, and between them the heap that the first has left.
module _ (k : Kernel) (h : VmHeap) (ss : List Seg) (size p : ℕ) (k1 : Kernel)
    (first : Served k h ss size p k1) where
  abbrev pub middle : VmHeap
  middle = resized h first.entries

  abbrev pub pieces : List Seg
  pieces = first.before ++ (taken size first.n ++ first.after)

  -- Where a request has been served from a heap with the invariant, and a hole of what is left is large
  -- enough for a second request: alloc serves it, the bytes that the two callers get do not overlap, and the
  -- bytes of the first are not changed.
  pub alloc-disjoint :
      (fuel size' x : ℕ) (f : HoleIn h.h_addr_start x pieces)
      → size' + 20 ≤ f.size
      → (q : ℕ) × (k2 : Kernel) × (alloc (suc fuel) size' 0 k1 ≡ ok (q, k2))
        × Served k1 middle pieces size' q k2
        × ((p + size ≤ q) ⊎ (q + size' ≤ p))
        × ((a : ℕ) → p ≤ a → a < p + size → k2.mem a ≡ k1.mem a)
  alloc-disjoint fuel size' x f fit =
      let (q, k2, returns, second) =
        alloc-Served k1 middle size' pieces first.is_heap fuel x f fit in
      let b = taken-FirstBlock size first.n first.after first.fit in
      let away =
        apart first.before b.others second.before second.after b.c second.n
          (ap (λ zs. first.before ++ zs) (sym b.starts) ∙ second.split) in
      (
        q,
        k2,
        returns,
        second,
        omega (arith, away, first.address, second.address, b.enough, second.fit),
        λ a lo hi.
            second.elsewhere a (omega (arith, first.address, first.is_heap.index_below))
              (omega (arith, away, first.address, b.enough)),
      )

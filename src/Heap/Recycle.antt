-- ===== src/Heap/Recycle.antt =====
-- free keeps the invariant of the heap where another block follows the block.
use james_m.Base.{
  ℕ, ◌+◌, ◌-◌, ◌≤◌, ◌<◌, ◌≡◌, ◌≢◌, ◌⊎◌, inl, inr, refl, List, [], ◌∷◌, ◌++◌, ok, arith, ◌∙◌, ap,
  subst, sym,
}
use james_m.Kernel.{Kernel, VmHeap}
use james_m.Heap.{hh_is_hole, hf_header, hf_magic, ftr_magic}
use james_m.Heap.Layout.{FooterAt}
use james_m.Heap.Segments.{Seg, IsSeg, block, hole, extent, total, Tiled, Tiled-after}
use james_m.Heap.Invariant.{IsHeap}
use james_m.Heap.Replace.{resized}
use james_m.Heap.Release.{
  release, Ending, nothing, ends, ending, release-block, release-hole, listed, listed-IsHeap,
  released_alone,
}
use james_m.Heap.Join.{wide, joined-IsHeap, released_joined}
use james_m.Heap.Free.{free}

append-snoc : (xs : List Seg) (s : Seg) (ys : List Seg) → (xs ++ (s ∷ [])) ++ ys ≡ xs ++ (s ∷ ys)
append-snoc [] s ys = refl
append-snoc (x ∷ xs) s ys = ap (λ zs. x ∷ zs) (append-snoc xs s ys)

total-snoc : (xs : List Seg) (s : Seg) → total (xs ++ (s ∷ [])) ≡ total xs + extent s
total-snoc [] s = omega arith
total-snoc (x ∷ xs) s = omega (arith, total-snoc xs s)

-- free of `p` has returned, and what is left is a heap with these pieces.
pub record Released (k : Kernel) (h : VmHeap) (p : ℕ) (ss : List Seg) : Type 0 where
  pub k' : Kernel
  pub entries : ℕ
  pub returns : free p k ≡ ok k'
  pub is_heap : IsHeap k' (resized h entries) ss

module _ (k : Kernel) (h : VmHeap) (n b : ℕ) (after : List Seg)
    (space : h.h_index.sa_size < h.h_index.sa_maxsize) where
  abbrev pub rest : List Seg
  rest = block n ∷ block b ∷ after

  first_freed : IsHeap k h rest → Released k h (h.h_addr_start + 0 + 12) (hole n ∷ block b ∷ after)
  first_freed r = record {
    k' = listed k h [] after n b r space;
    entries = h.h_index.sa_size + 1;
    returns =
        released_alone k h [] after n b r space
          (inl (subst (λ a. hf_magic k.mem (a - 8) ≢ ftr_magic) (omega arith) r.guard));
    is_heap = listed-IsHeap k h [] after n b r space;
  }

  -- What stands before is a block, whose footer is found.
  module _ (init : List Seg) (a : ℕ) (r : IsHeap k h ((init ++ (block a ∷ [])) ++ rest)) where
    abbrev pub pos : ℕ
    pos = h.h_addr_start + total (init ++ (block a ∷ []))

    before_block : IsSeg k.mem h.h_addr_end (h.h_addr_start + total init) (block a)
    before_block =
        (Tiled-after k.mem h.h_addr_end h.h_addr_start init (block a ∷ rest) h.h_addr_end (
          subst (λ zs. Tiled k.mem h.h_addr_end h.h_addr_start zs h.h_addr_end)
            (append-snoc init (block a) rest) r.tiled)).0

    alone :
        (hh_is_hole k.mem (hf_header k.mem (pos - 8)) ≡ 0)
        × ((hf_header k.mem (pos - 8) + 8 ≤ pos + 4) ⊎ (pos + 8 ≤ hf_header k.mem (pos - 8) + 4))
    alone = (
      ap (λ x. hh_is_hole k.mem x) names ∙ before_block.header.hole,
      inl (omega (arith, names, ends_here, before_block.room)),
    )
      where
        ends_here : pos ≡ h.h_addr_start + total init + a
        ends_here = omega (arith, total-snoc init (block a))

        footer : FooterAt k.mem (h.h_addr_start + total init + a - 8) (h.h_addr_start + total init)
        footer = elim before_block.footer [ inl f ↦ f | inr last ↦ absurd (omega (arith, last.0)) ]

        names : hf_header k.mem (pos - 8) ≡ h.h_addr_start + total init
        names = ap (λ x. hf_header k.mem (x - 8)) ends_here ∙ footer.names

    freed_behind_block :
        Released k h (pos + 12) ((init ++ (block a ∷ [])) ++ (hole n ∷ block b ∷ after))
    freed_behind_block = record {
      k' = listed k h (init ++ (block a ∷ [])) after n b r space;
      entries = h.h_index.sa_size + 1;
      returns = released_alone k h (init ++ (block a ∷ [])) after n b r space (inr alone);
      is_heap = listed-IsHeap k h (init ++ (block a ∷ [])) after n b r space;
    }

  freed_behind_hole :
      (init : List Seg) (a : ℕ)
      → IsHeap k h (init ++ (hole a ∷ rest))
      → Released k h
          (h.h_addr_start + total init + a + 12)
          (init ++ (hole (a + n) ∷ block b ∷ after))
  freed_behind_hole init a r = record {
    k' = wide k h init after a n b r;
    entries = h.h_index.sa_size;
    returns = released_joined k h init after a n b r;
    is_heap = joined-IsHeap k h init after a n b r;
  }

  released :
      {before : List Seg}
      → Ending before
      → IsHeap k h (before ++ rest)
      → Released k h (h.h_addr_start + total before + 12) (release before n ++ (block b ∷ after))
  released nothing r = first_freed r
  released (ends init (block a)) r =
      subst (λ zs. Released k h (pos init a r + 12) zs)
        (sym (append-snoc (init ++ (block a ∷ [])) (hole n) (block b ∷ after))
          ∙ ap (λ zs. zs ++ (block b ∷ after)) (sym (release-block init a n)))
        (freed_behind_block init a r)
  released (ends init (hole a)) r =
      subst (λ zs. Released k h (h.h_addr_start + total (init ++ (hole a ∷ [])) + 12) zs)
        (sym (append-snoc init (hole (a + n)) (block b ∷ after))
          ∙ ap (λ zs. zs ++ (block b ∷ after)) (sym (release-hole init a n)))
        (subst (λ p. Released k h p (init ++ (hole (a + n) ∷ block b ∷ after)))
          (omega (arith, total-snoc init (hole a)))
          (freed_behind_hole init a
            (subst (λ zs. IsHeap k h zs) (append-snoc init (hole a) rest) r)))

  -- With the invariant and a place left in the index, on a block that another block follows: free returns, and
  -- the invariant holds again. The block has become a hole, alone where a block or nothing stands before it
  -- and as a part of the hole that stands before it otherwise; all other pieces are the same.
  pub free-Released :
      (before : List Seg)
      → IsHeap k h (before ++ (block n ∷ block b ∷ after))
      → Released k h (h.h_addr_start + total before + 12) (release before n ++ (block b ∷ after))
  free-Released before r = released (ending before) r

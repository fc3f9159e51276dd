-- ===== src/Heap/Holes.antt =====
-- The holes among the pieces of a heap, and how often an address is an entry of a list.
use james_m.Base.{
  ℕ, zero, suc, ◌+◌, ◌<◌, ◌≡◌, refl, ap, ◌∙◌, arith, List, [], ◌∷◌, ◌++◌, ◌==◌, if◌then◌else◌, Bool,
  Bool-cases, inl, inr, get_elem?, some, none≢some,
}
use james_m.SortedArray.Insert.{insert_by}
use james_m.SortedArray.Remove.{erase_at}
use james_m.Heap.Segments.{Seg, block, hole, extent, total, holes, count}

pub count-append : (x : ℕ) (xs ys : List ℕ) → count x (xs ++ ys) ≡ count x xs + count x ys
count-append x [] ys = omega arith
count-append x (y ∷ xs) ys = omega (arith, count-append x xs ys)

pub count-insert_by :
    (x : ℕ) (before : ℕ → Bool) (el : ℕ) (ys : List ℕ)
    → count x (insert_by before el ys) ≡ (if x == el then 1 else 0) + count x ys
count-insert_by x before el [] = refl
count-insert_by x before el (y ∷ ys) = elim (Bool-cases (before y)) [
  | inl b ↦ rw b (omega (arith, count-insert_by x before el ys))
  | inr b ↦ rw b
]

pub count-erase_at :
    (x : ℕ) (ys : List ℕ) (i e : ℕ)
    → get_elem? ys i ≡ some e
    → count x ys ≡ (if x == e then 1 else 0) + count x (erase_at ys i)
count-erase_at x [] i e at = absurd (none≢some at)
count-erase_at x (y ∷ ys) zero e at = let same : y ≡ e = cc in rw same
count-erase_at x (y ∷ ys) (suc i) e at = omega (arith, count-erase_at x ys i e at)

pub holes-append :
    (p : ℕ) (xs ys : List Seg) → holes p (xs ++ ys) ≡ holes p xs ++ holes (p + total xs) ys
holes-append p [] ys = ap (λ a. holes a ys) (omega arith)
holes-append p (block n ∷ xs) ys =
    holes-append (p + n) xs ys ∙ ap (λ a. holes (p + n) xs ++ holes a ys) (omega arith)
holes-append p (hole n ∷ xs) ys =
    ap (λ zs. p ∷ zs)
      (holes-append (p + n) xs ys ∙ ap (λ a. holes (p + n) xs ++ holes a ys) (omega arith))

-- The hole at `x`, with what stands before it and behind it.
pub record HoleIn (p x : ℕ) (ss : List Seg) : Type 0 where
  pub before : List Seg
  pub size : ℕ
  pub after : List Seg
  pub splits : ss ≡ before ++ (hole size ∷ after)
  pub place : x ≡ p + total before

HoleIn-later :
    {p x : ℕ} {ss : List Seg} (s : Seg) → HoleIn (p + extent s) x ss → HoleIn p x (s ∷ ss)
HoleIn-later s h = record {
  before = s ∷ h.before;
  size = h.size;
  after = h.after;
  splits = ap (λ zs. s ∷ zs) h.splits;
  place = h.place ∙ omega arith;
}

-- Every address in the list of the holes has a hole.
pub holes-HoleIn : (p x : ℕ) (ss : List Seg) → 0 < count x (holes p ss) → HoleIn p x ss
holes-HoleIn p x [] h = absurd (omega arith)
holes-HoleIn p x (block n ∷ ss) h = HoleIn-later (block n) (holes-HoleIn (p + n) x ss h)
holes-HoleIn p x (hole n ∷ ss) h = elim (Bool-cases (x == p)) [
  | inl same ↦ record {
    before = [];
    size = n;
    after = ss;
    splits = refl;
    place = ground (arith, same);
  }
  | inr other ↦ HoleIn-later (hole n) (holes-HoleIn (p + n) x ss (ground (arith, other, h)))
]

-- How often `x` is a hole once the pieces between two others have been replaced.
pub count-middle :
    (x p : ℕ) (xs ms ys : List Seg)
    → count x (holes p (xs ++ (ms ++ ys)))
      ≡ count x (holes p xs)
        + count x (holes (p + total xs) ms)
        + count x (holes (p + total xs + total ms) ys)
count-middle x p xs ms ys = omega (
  arith,
  ap (count x) (holes-append p xs (ms ++ ys)),
  count-append x (holes p xs) (holes (p + total xs) (ms ++ ys)),
  ap (count x) (holes-append (p + total xs) ms ys),
  count-append x (holes (p + total xs) ms) (holes (p + total xs + total ms) ys),
)

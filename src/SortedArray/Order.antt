-- ===== src/SortedArray/Order.antt =====
-- Insertion keeps an ordered list ordered, and keeps its elements.
use james_m.Base.{
  ℕ, ◌≡◌, List, [], ◌∷◌, Bool, true, false, Bool-cases, inl, inr, some, ok, ◌+◌, ◌<◌, is_negative,
  arith,
}
use mathlib.Core.List.{Perm}
use mathlib.Core.List.Perm
use james_m.Memory.{Mem}
use james_m.Memory.Words.{IsBytes}
use james_m.SortedArray.{SortedArray, Cmp, default_cmp_func, insert_sorted_array}
use james_m.SortedArray.Cells.{cells}
use james_m.SortedArray.Insert.{insert_by, comes_before, insert_sorted_array-Inserted}

pub insert_by-perm :
    (before : ℕ → Bool) (el : ℕ) (xs : List ℕ) → Perm (insert_by before el xs) (el ∷ xs)
insert_by-perm before el [] = Perm.refl (el ∷ [])
insert_by-perm before el (x ∷ xs) = elim (Bool-cases (before x)) [
  | inl b ↦ rw b (Perm.trans (Perm.cons x (insert_by-perm before el xs)) (Perm.swap el x xs))
  | inr b ↦ rw b (Perm.refl (el ∷ x ∷ xs))
]

abbrev pub All : (ℕ → Type 0) → List ℕ → Type 0
All P [] = Unit
All P (x ∷ xs) = P x × All P xs

-- No entry compares above a later one.
abbrev pub IsSorted : (ℕ → ℕ → Bool) → List ℕ → Type 0
IsSorted lt [] = Unit
IsSorted lt (x ∷ xs) = All (λ y. lt y x ≡ false) xs × IsSorted lt xs

-- A Boolean test that is a strict order on the values in `P`: what is before is not after, and not
-- being before is transitive.
pub record IsStrictOrder (P : ℕ → Type 0) (lt : ℕ → ℕ → Bool) : Type 0 where
  pub asymm : (x y : ℕ) → P x → P y → lt x y ≡ true → lt y x ≡ false
  pub trans : (x y z : ℕ) → P x → P y → P z → lt y x ≡ false → lt z y ≡ false → lt z x ≡ false

All-insert_by :
    (Q : ℕ → Type 0) (before : ℕ → Bool) (el : ℕ) (xs : List ℕ)
    → Q el
    → All Q xs
    → All Q (insert_by before el xs)
All-insert_by Q before el [] q h = (q, tt)
All-insert_by Q before el (x ∷ xs) q h = elim (Bool-cases (before x)) [
  | inl b ↦ rw b (h.0, All-insert_by Q before el xs q h.1)
  | inr b ↦ rw b (q, h)
]

module _ (P : ℕ → Type 0) (lt : ℕ → ℕ → Bool) (o : IsStrictOrder P lt) where
  All-trans :
      (x y : ℕ) (xs : List ℕ)
      → P x
      → P y
      → All P xs
      → lt y x ≡ false
      → All (λ z. lt z y ≡ false) xs
      → All (λ z. lt z x ≡ false) xs
  All-trans x y [] p q ps h k = tt
  All-trans x y (z ∷ zs) p q ps h k =
      (o.trans x y z p q ps.0 h k.0, All-trans x y zs p q ps.1 h k.1)

  pub insert_by-IsSorted :
      (el : ℕ) (xs : List ℕ)
      → P el
      → All P xs
      → IsSorted lt xs
      → IsSorted lt (insert_by (λ x. lt x el) el xs)
  insert_by-IsSorted el [] p ps h = (tt, tt)
  insert_by-IsSorted el (x ∷ xs) p ps h = elim (Bool-cases (lt x el)) [
    | inl b ↦ rw b (
      All-insert_by (λ y. lt y x ≡ false) (λ y. lt y el) el xs (o.asymm x el ps.0 p b) h.0,
      insert_by-IsSorted el xs p ps.1 h.1,
    )
    | inr b ↦ rw b ((b, All-trans el x xs p ps.0 ps.1 b h.0), h)
  ]

-- The order in which `cmp` puts the pointers, in the memory `m`.
abbrev pub cmp_lt : Mem → Cmp → ℕ → ℕ → Bool
cmp_lt m cmp x y = is_negative (cmp m x y)

-- Where the comparison function is a strict order on the entries and `el`, has been set, and there
-- is room, insert_sorted_array returns an array of one more entry; if the entries were in order they
-- still are, and they are the old entries and `el`.
pub insert_sorted_array-IsSorted :
    (m : Mem) (bytes : IsBytes m) (a : SortedArray) (el : ℕ) (cmp : Cmp) (P : ℕ → Type 0)
    → el < 4294967296
    → a.sa_cmp ≡ some cmp
    → a.sa_size < a.sa_maxsize
    → IsStrictOrder P (cmp_lt m cmp)
    → P el
    → All P (cells m a.sa_array 0 a.sa_size)
    → IsSorted (cmp_lt m cmp) (cells m a.sa_array 0 a.sa_size)
    → (m' : Mem) × (a' : SortedArray) × (insert_sorted_array m a el ≡ ok (m', a'))
      × IsSorted (cmp_lt m cmp) (cells m' a'.sa_array 0 a'.sa_size)
      × Perm (cells m' a'.sa_array 0 a'.sa_size) (el ∷ cells m a.sa_array 0 a.sa_size)
insert_sorted_array-IsSorted m bytes a el cmp P small has room o p ps sorted =
    let done = insert_sorted_array-Inserted m bytes a el small cmp has room in
    let old = cells m a.sa_array 0 a.sa_size in
    (
      done.m',
      record a { sa_size = a.sa_size + 1 },
      done.returns,
      rw done.entries (insert_by-IsSorted P (cmp_lt m cmp) o el old p ps sorted),
      rw done.entries (insert_by-perm (comes_before m cmp el) el old),
    )

-- `default_cmp_func` orders the words below 2 ^ 31, where the difference does not wrap.
pub default_cmp-IsStrictOrder :
    (m : Mem) → IsStrictOrder (λ x. x < 2147483648) (cmp_lt m default_cmp_func)
unfolding default_cmp_func
default_cmp-IsStrictOrder m = record {
  asymm = λ x y p q h. ground arith;
  trans = λ x y z p q r h k. ground arith;
}

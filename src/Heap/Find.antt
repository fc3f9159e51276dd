-- ===== src/Heap/Find.antt =====
-- find_smallest_hole: the first hole that fits, and in an ordered index the smallest.
use james_m.Base.{
  ℕ, zero, suc, ◌+◌, ◌≤◌, ◌<◌, ◌≡◌, refl, List, [], ◌∷◌, Option, none, some, Bool, false, ok, arith,
  if◌then◌else◌, get_elem?, Bool-cases, inl, inr, lt→ltb, leb, true, subst, sym, ◌==◌,
}
use james_m.Memory.{Mem}
use james_m.SortedArray.{SortedArray, lookup_sorted_array}
use james_m.SortedArray.Cells.{cells, cells-zero, cells-suc}
use james_m.SortedArray.Order.{All, IsSorted, cmp_lt, IsStrictOrder}
use james_m.Kernel.{VmHeap}
use james_m.Heap.Segments.{count}
use james_m.Heap.{hh_size, vm_heap_header_cmp, fits, find_hole_from, find_smallest_hole}

abbrev pub find_index_from : (ℕ → Bool) → ℕ → List ℕ → Option ℕ
find_index_from p i [] = none
find_index_from p i (x ∷ xs) = if p x then some i else find_index_from p (i + 1) xs

pub find_hole_from-find_index_from :
    (m : Mem) (a : SortedArray) (size page_align left i : ℕ)
    → i + left ≡ a.sa_size
    → find_hole_from m a size page_align left i
      ≡ ok (find_index_from (fits m size page_align) i (cells m a.sa_array i left))
unfolding find_hole_from lookup_sorted_array
find_hole_from-find_index_from m a size page_align zero i e = rw (cells-zero m)
find_hole_from-find_index_from m a size page_align (suc left) i e =
    let inside = lt→ltb i a.sa_size (omega arith) in
    let rest = find_hole_from-find_index_from m a size page_align left (i + 1) (omega arith) in
    rw (cells-suc m a.sa_array i left, inside) (ground (arith, rest))

-- The sizes for which vm_heap_header_cmp does not wrap.
abbrev pub IsSmall : Mem → ℕ → Type 0
IsSmall m x = hh_size m x < 2147483648

-- vm_heap_header_cmp orders the headers of sizes below 2 ^ 31.
pub vm_heap_header_cmp-IsStrictOrder :
    (m : Mem) → IsStrictOrder (IsSmall m) (cmp_lt m vm_heap_header_cmp)
unfolding vm_heap_header_cmp
vm_heap_header_cmp-IsStrictOrder m = record {
  asymm = λ x y p q h. ground arith;
  trans = λ x y z p q r h k. ground arith;
}

size-le :
    (m : Mem) (x y : ℕ)
    → IsSmall m x
    → IsSmall m y
    → cmp_lt m vm_heap_header_cmp y x ≡ false
    → hh_size m x ≤ hh_size m y
unfolding vm_heap_header_cmp
size-le m x y p q h = ground arith

-- What a search of the entries `xs`, the first of them at index `i`, gives for a request of `size`.
pub data BestFit (m : Mem) (size i : ℕ) (xs : List ℕ) : Option ℕ → Type 0 where
  best :
      {n e : ℕ} (j : ℕ)
      → n ≡ i + j
      → get_elem? xs j ≡ some e
      → size ≤ hh_size m e
      → All (λ x. size ≤ hh_size m x → hh_size m e ≤ hh_size m x) xs
      → BestFit m size i xs (some n)
  none_fits : All (λ x. hh_size m x < size) xs → BestFit m size i xs none

module _ (m : Mem) (size : ℕ) where
  larger_later :
      (x : ℕ) (xs : List ℕ)
      → IsSmall m x
      → All (IsSmall m) xs
      → All (λ y. cmp_lt m vm_heap_header_cmp y x ≡ false) xs
      → All (λ y. size ≤ hh_size m y → hh_size m x ≤ hh_size m y) xs
  larger_later x [] p ps h = tt
  larger_later x (y ∷ ys) p ps h = (λ _. size-le m x y p ps.0 h.0, larger_later x ys p ps.1 h.1)

  BestFit-later :
      {i x : ℕ} {xs : List ℕ} {o : Option ℕ}
      → hh_size m x < size
      → BestFit m size (i + 1) xs o
      → BestFit m size i (x ∷ xs) o
  BestFit-later small (best j e at fit all) =
      best (suc j) (omega arith) at fit ((λ h. absurd (omega arith)), all)
  BestFit-later small (none_fits all) = none_fits (small, all)

  find_index_from-BestFit :
      (i : ℕ) (xs : List ℕ)
      → All (IsSmall m) xs
      → IsSorted (cmp_lt m vm_heap_header_cmp) xs
      → BestFit m size i xs (find_index_from (fits m size 0) i xs)
  unfolding fits
  find_index_from-BestFit i [] ps s = none_fits tt
  find_index_from-BestFit i (x ∷ xs) ps s = elim (Bool-cases (leb size (hh_size m x))) [
    | inl fit ↦ rw fit (
        best 0 (omega arith) refl (ground arith)
          ((λ h. omega arith), larger_later x xs ps.0 ps.1 s.0))
    | inr no_fit ↦
        rw no_fit (BestFit-later (ground arith) (find_index_from-BestFit (i + 1) xs ps.1 s.1))
  ]

-- With the index in the order of vm_heap_header_cmp and sizes below 2 ^ 31, find_smallest_hole for
-- a request without alignment returns the index of an entry that is large enough, and no entry that
-- is large enough is smaller; or it returns -1 and no entry is large enough.
pub find_smallest_hole-BestFit :
    (m : Mem) (h : VmHeap) (size : ℕ)
    → All (IsSmall m) (cells m h.h_index.sa_array 0 h.h_index.sa_size)
    → IsSorted (cmp_lt m vm_heap_header_cmp) (cells m h.h_index.sa_array 0 h.h_index.sa_size)
    → (o : Option ℕ) × (find_smallest_hole m h size 0 ≡ ok o)
      × BestFit m size 0 (cells m h.h_index.sa_array 0 h.h_index.sa_size) o
unfolding find_smallest_hole
find_smallest_hole-BestFit m h size ps s =
    let xs = cells m h.h_index.sa_array 0 h.h_index.sa_size in
    (
      find_index_from (fits m size 0) 0 xs,
      find_hole_from-find_index_from m h.h_index size 0 h.h_index.sa_size 0 (omega arith),
      find_index_from-BestFit m size 0 xs ps s,
    )

-- What a search of the entries `xs` for the first that passes the test `p` gives, in any order of them.
pub data FirstHit (p : ℕ → Bool) (i : ℕ) (xs : List ℕ) : Option ℕ → Type 0 where
  hit :
      {n e : ℕ} (j : ℕ)
      → n ≡ i + j
      → get_elem? xs j ≡ some e
      → p e ≡ true
      → FirstHit p i xs (some n)
  miss : ((x : ℕ) → 0 < count x xs → p x ≡ false) → FirstHit p i xs none

FirstHit-later :
    {p : ℕ → Bool} {i y : ℕ} {xs : List ℕ} {o : Option ℕ}
    → p y ≡ false
    → FirstHit p (i + 1) xs o
    → FirstHit p i (y ∷ xs) o
FirstHit-later misses (hit j e at passes) = hit (suc j) (omega arith) at passes
FirstHit-later {p} {i} {y} {xs} misses (miss all) = miss λ x h. elim (Bool-cases (x == y)) [
  | inl same ↦ subst (λ a. p a ≡ false) (sym (eq-of x y same)) misses
  | inr other ↦ all x (ground (arith, other, h))
]
  where
    eq-of : (x y : ℕ) → (x == y) ≡ true → x ≡ y
    eq-of x y h = ground (arith, h)

pub find_index_from-FirstHit :
    (p : ℕ → Bool) (i : ℕ) (xs : List ℕ) → FirstHit p i xs (find_index_from p i xs)
find_index_from-FirstHit p i [] = miss λ x h. absurd (omega arith)
find_index_from-FirstHit p i (x ∷ xs) = elim (Bool-cases (p x)) [
  | inl passes ↦ rw passes (hit 0 (omega arith) refl passes)
  | inr misses ↦ rw misses (FirstHit-later misses (find_index_from-FirstHit p (i + 1) xs))
]

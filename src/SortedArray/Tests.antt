-- ===== src/SortedArray/Tests.antt =====
-- Runs of the sorted array, and its theorems at a small array.
use james_m.Base.{◌<◌, ◌≡◌, refl, [], ◌∷◌, arith, ok, some, none, panic, get_elem?}
use mathlib.Core.List.{Perm}
use james_m.Memory.{Mem, store32, load32}
use james_m.Memory.Words.{IsBytes, store32-IsBytes}
use james_m.SortedArray.{
  SortedArray, default_cmp_func, insert_sorted_array, remove_sorted_array, lookup_sorted_array,
}
use james_m.SortedArray.Cells.{cells}
use james_m.SortedArray.Remove.{Removed, remove_sorted_array-Removed, lookup_sorted_array-get_elem?}
use james_m.SortedArray.Order.{
  IsSorted, cmp_lt, insert_sorted_array-IsSorted, default_cmp-IsStrictOrder,
}

abbrev zeros : Mem
zeros _ = 0

-- 10 and 30 at address 100.
abbrev two_words : Mem
two_words = store32 (store32 zeros 100 10) 104 30

abbrev two_entries : SortedArray
two_entries = record { sa_array = 100; sa_size = 2; sa_maxsize = 3; sa_cmp = some default_cmp_func }

two_words-IsBytes : IsBytes two_words
two_words-IsBytes = store32-IsBytes _ 104 30 (store32-IsBytes _ 100 10 (λ a. omega arith))

two_words-cells : cells two_words 100 0 2 ≡ 10 ∷ 30 ∷ []
unfolding cells load32 store32
two_words-cells = refl

insert_sorted_array-IsSorted_example :
    (m' : Mem) × (a' : SortedArray) × (insert_sorted_array two_words two_entries 20 ≡ ok (m', a'))
    × IsSorted (cmp_lt two_words default_cmp_func) (cells m' a'.sa_array 0 a'.sa_size)
    × Perm (cells m' a'.sa_array 0 a'.sa_size) (20 ∷ cells two_words 100 0 2)
insert_sorted_array-IsSorted_example =
    insert_sorted_array-IsSorted two_words two_words-IsBytes two_entries 20 default_cmp_func
      (λ x. x < 2147483648) (omega arith) refl (omega arith) (default_cmp-IsStrictOrder two_words)
      (omega arith) (rw two_words-cells (omega arith))
      (rw two_words-cells (unfold default_cmp_func in ((refl, tt), (tt, tt))))

remove_sorted_array-Removed_example :
    Removed two_words two_entries 0 (remove_sorted_array two_words two_entries 0)
remove_sorted_array-Removed_example =
    remove_sorted_array-Removed two_words two_entries 0 two_words-IsBytes (omega arith)

lookup_sorted_array-get_elem?_example :
    lookup_sorted_array two_words two_entries 1
    ≡ elim (get_elem? (cells two_words 100 0 2) 1) [ none ↦ panic | some v ↦ ok v ]
lookup_sorted_array-get_elem?_example = lookup_sorted_array-get_elem? two_words two_entries 1

lookup_outside : lookup_sorted_array two_words two_entries 2 ≡ panic
unfolding lookup_sorted_array
lookup_outside = refl

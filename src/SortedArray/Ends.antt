-- ===== src/SortedArray/Ends.antt =====
-- The operations of the sorted array return or panic.
use james_m.Base.{
  ℕ, Option, none, some, Run, Halts, Halts->>=, Halts-kassert, halts_ok, halts_panic,
}
use james_m.Memory.{Mem}
use james_m.SortedArray.{
  SortedArray, Cmp, with_cmp, insert_sorted_array, lookup_sorted_array, remove_sorted_array,
}

with_cmp-Halts {ℓ} :
    {A : Type ℓ} (o : Option Cmp) (f : Cmp → Run A)
    → ((c : Cmp) → Halts (f c))
    → Halts (with_cmp o f)
with_cmp-Halts none f h = halts_panic
with_cmp-Halts (some c) f h = h c

module _ (m : Mem) (a : SortedArray) where
  pub insert_sorted_array-Halts : (el : ℕ) → Halts (insert_sorted_array m a el)
  unfolding insert_sorted_array
  insert_sorted_array-Halts el =
      with_cmp-Halts a.sa_cmp _ λ cmp. Halts->>= (Halts-kassert _) λ _. halts_ok

  pub lookup_sorted_array-Halts : (i : ℕ) → Halts (lookup_sorted_array m a i)
  unfolding lookup_sorted_array
  lookup_sorted_array-Halts i = Halts->>= (Halts-kassert _) λ _. halts_ok

  pub remove_sorted_array-Halts : (i : ℕ) → Halts (remove_sorted_array m a i)
  unfolding remove_sorted_array
  remove_sorted_array-Halts i = Halts->>= (Halts-kassert _) λ _. halts_ok

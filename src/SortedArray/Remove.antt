-- ===== src/SortedArray/Remove.antt =====
-- lookup_sorted_array and remove_sorted_array on the list of entries.
use james_m.Base.{
  ℕ, zero, suc, ◌+◌, ◌-◌, ◌≤◌, ◌<◌, ◌≡◌, refl, ap₂, ◌∙◌, ◌⊎◌, List, [], ◌∷◌, arith, some, ok, panic,
  Run, lt→ltb, le→ltb, get_elem?, none, Bool-cases, inl, inr, ltb,
}
use james_m.Memory.{Mem, load32, store32}
use james_m.Memory.Words.{
  IsBytes, store32-IsBytes, load32-lt, load32-store32, load32-store32_ne, store32_elsewhere,
}
use james_m.SortedArray.{SortedArray, slot, shift_down, lookup_sorted_array, remove_sorted_array}
use james_m.SortedArray.Cells.{
  cells, cells-zero, cells-suc, cells-store32_ne, get_elem?-cells, get_elem?-cells-none,
}

abbrev pub erase_at : List ℕ → ℕ → List ℕ
erase_at [] i = []
erase_at (x ∷ xs) zero = xs
erase_at (x ∷ xs) (suc i) = x ∷ erase_at xs i

load32-shift_down :
    (arr left i : ℕ) (m : Mem) (p : ℕ)
    → (p + 4 ≤ slot arr i) ⊎ (slot arr (i + left) ≤ p)
    → load32 (shift_down arr left i m) p ≡ load32 m p
unfolding shift_down
load32-shift_down arr zero i m p h = refl
load32-shift_down arr (suc left) i m p h = ground (
  arith,
  load32-shift_down arr left (i + 1) (store32 m (slot arr i) (load32 m (slot arr (i + 1)))) p,
  load32-store32_ne m (slot arr i) p (load32 m (slot arr (i + 1))),
)

shift_down_elsewhere :
    (arr left i : ℕ) (m : Mem) (p : ℕ)
    → (p < slot arr i) ⊎ (slot arr (i + left) ≤ p)
    → shift_down arr left i m p ≡ m p
unfolding shift_down
shift_down_elsewhere arr zero i m p h = refl
shift_down_elsewhere arr (suc left) i m p h = ground (
  arith,
  shift_down_elsewhere arr left (i + 1) (store32 m (slot arr i) (load32 m (slot arr (i + 1)))) p,
  store32_elsewhere m (slot arr i) (load32 m (slot arr (i + 1))) p,
)

shift_down-IsBytes : (arr left i : ℕ) (m : Mem) → IsBytes m → IsBytes (shift_down arr left i m)
unfolding shift_down
shift_down-IsBytes arr zero i m h = h
shift_down-IsBytes arr (suc left) i m h =
    shift_down-IsBytes arr left (i + 1) _ (store32-IsBytes m (slot arr i) _ h)

shift_down-suc :
    (arr left i : ℕ) (m : Mem)
    → shift_down arr (suc left) i m
      ≡ shift_down arr left (i + 1) (store32 m (slot arr i) (load32 m (slot arr (i + 1))))
unfolding shift_down
shift_down-suc arr left i m = refl

cells-shift_down :
    (arr left i : ℕ) (m : Mem)
    → IsBytes m
    → cells (shift_down arr (suc left) i m) arr i left ≡ cells m arr (i + 1) left
cells-shift_down arr zero i m bytes = rw (cells-zero m, cells-zero _)
cells-shift_down arr (suc left) i m bytes =
    rw (shift_down-suc arr (suc left) i m, cells-suc _ arr i left, cells-suc m arr (i + 1) left)
      (ap₂ ◌∷◌
        (load32-shift_down arr (suc left) (i + 1) m1 (slot arr i) (omega arith)
          ∙ load32-store32 m (slot arr i) next (load32-lt m _ bytes))
        (cells-shift_down arr left (i + 1) m1 (store32-IsBytes m (slot arr i) next bytes)
          ∙ cells-store32_ne m arr (i + 1 + 1) left (slot arr i) next (omega arith)))
  where
    next : ℕ
    next = load32 m (slot arr (i + 1))

    m1 : Mem
    m1 = store32 m (slot arr i) next

cells-remove :
    (arr left d i : ℕ) (m : Mem)
    → IsBytes m
    → cells (shift_down arr (suc left) (i + d) m) arr i (d + left)
      ≡ erase_at (cells m arr i (suc (d + left))) d
cells-remove arr left zero i m bytes =
    let e : i + 0 ≡ i = omega arith in
    let f : 0 + left ≡ left = omega arith in
    rw (e, f, cells-suc m arr i left) (cells-shift_down arr left i m bytes)
cells-remove arr left (suc d) i m bytes =
    let e : i + suc d ≡ i + 1 + d = omega arith in
    let f : suc d + left ≡ suc (d + left) = omega arith in
    rw (e, f, cells-suc _ arr i (d + left), cells-suc m arr i (suc (d + left)))
      (ap₂ ◌∷◌ (load32-shift_down arr (suc left) (i + 1 + d) m (slot arr i) (omega arith))
        (cells-remove arr left d (i + 1) m bytes))

cells-removed :
    (arr left n i : ℕ) (m : Mem)
    → IsBytes m
    → n ≡ suc (i + left)
    → cells (shift_down arr (n - i) i m) arr 0 (n - 1) ≡ erase_at (cells m arr 0 n) i
cells-removed arr left n i m bytes g =
    let e : n - i ≡ suc left = omega arith in
    let f : n - 1 ≡ i + left = omega arith in
    let z : 0 + i ≡ i = omega arith in rw (e, f, g) (rw z at (cells-remove arr left i 0 m bytes))

module _ (m : Mem) (a : SortedArray) (i : ℕ) where
  -- What a call of remove_sorted_array that returns has done.
  pub record Removed (r : Run (Mem × SortedArray)) : Type 0 where
    pub m' : Mem
    pub returns : r ≡ ok (m', record a { sa_size = a.sa_size - 1 })
    pub entries :
        cells m' a.sa_array 0 (a.sa_size - 1) ≡ erase_at (cells m a.sa_array 0 a.sa_size) i
    pub still_bytes : IsBytes m'
    pub elsewhere : (p : ℕ) → (p < a.sa_array) ⊎ (slot a.sa_array a.sa_size ≤ p) → m' p ≡ m p

  -- Below `sa_size`, remove_sorted_array returns; the entries are the old ones without the one at
  -- `i`, in the same order, and no byte outside the `sa_size` entries changes.
  pub remove_sorted_array-Removed : IsBytes m → i < a.sa_size → Removed (remove_sorted_array m a i)
  remove_sorted_array-Removed bytes h = record {
    m' = shift_down a.sa_array (a.sa_size - i) i m;
    returns = unfold remove_sorted_array in rw (lt→ltb i a.sa_size h);
    entries = cells-removed a.sa_array (a.sa_size - i - 1) a.sa_size i m bytes (omega arith);
    still_bytes = shift_down-IsBytes a.sa_array (a.sa_size - i) i m bytes;
    elsewhere = λ p out. shift_down_elsewhere a.sa_array (a.sa_size - i) i m p (omega arith);
  }

  -- At or above `sa_size`, remove_sorted_array panics.
  pub remove_sorted_array-panic : a.sa_size ≤ i → remove_sorted_array m a i ≡ panic
  unfolding remove_sorted_array
  remove_sorted_array-panic h = rw (le→ltb i a.sa_size h)

  -- lookup_sorted_array returns the entry at `i` of the list of `sa_size` entries, and panics where
  -- that list has none.
  pub lookup_sorted_array-get_elem? :
      lookup_sorted_array m a i
      ≡ elim (get_elem? (cells m a.sa_array 0 a.sa_size) i) [ none ↦ panic | some v ↦ ok v ]
  unfolding lookup_sorted_array
  lookup_sorted_array-get_elem? = elim (Bool-cases (ltb i a.sa_size)) [
    | inl inside ↦
        let z : 0 + i ≡ i = omega arith in
        rw (inside, get_elem?-cells m a.sa_array 0 a.sa_size i (ground arith), z)
    | inr outside ↦ rw (outside, get_elem?-cells-none m a.sa_array 0 a.sa_size i (ground arith))
  ]

-- ===== src/SortedArray/Insert.antt =====
-- insert_sorted_array is insertion into the list of entries.
use native.Mathlib.Numerals.{add-one}
use james_m.Base.{
  Run, true, false, ℕ, zero, suc, ◌+◌, ◌-◌, ◌≤◌, ◌<◌, ◌≡◌, refl, ap, ap₂, ◌∙◌, ◌⊎◌, inl, inr, List,
  [], ◌∷◌, arith, some, ok, Bool, is_negative, if◌then◌else◌, ◌==◌, Bool-cases, lt→ltb,
}
use james_m.Memory.{Mem, load32, store32}
use james_m.Memory.Words.{
  IsBytes, store32-IsBytes, load32-lt, load32-store32, load32-store32_ne, store32_elsewhere,
}
use james_m.SortedArray.{
  SortedArray, Cmp, slot, find_place, shift_up, place_at, insert_sorted_array,
}
use james_m.SortedArray.Cells.{cells, cells-zero, cells-suc, cells-store32_ne}

-- `el` before the first entry that does not come before it.
abbrev pub insert_by : (ℕ → Bool) → ℕ → List ℕ → List ℕ
insert_by before el [] = el ∷ []
insert_by before el (x ∷ xs) = if before x then x ∷ insert_by before el xs else el ∷ x ∷ xs

shift_up_elsewhere :
    (arr left i tmp : ℕ) (m : Mem) (p : ℕ)
    → (p < slot arr (i + 1)) ⊎ (slot arr (i + 1 + left) ≤ p)
    → shift_up arr left i tmp m p ≡ m p
unfolding shift_up
shift_up_elsewhere arr zero i tmp m p h = refl
shift_up_elsewhere arr (suc left) i tmp m p h = ground (
  arith,
  shift_up_elsewhere arr left (i + 1) (load32 m (slot arr (i + 1)))
      (store32 m (slot arr (i + 1)) tmp) p,
  store32_elsewhere m (slot arr (i + 1)) tmp p,
)

shift_up-IsBytes : (arr left i tmp : ℕ) (m : Mem) → IsBytes m → IsBytes (shift_up arr left i tmp m)
unfolding shift_up
shift_up-IsBytes arr zero i tmp m h = h
shift_up-IsBytes arr (suc left) i tmp m h =
    shift_up-IsBytes arr left (i + 1) _ _ (store32-IsBytes m (slot arr (i + 1)) tmp h)

load32-shift_up :
    (arr left i tmp : ℕ) (m : Mem) (p : ℕ)
    → (p + 4 ≤ slot arr (i + 1)) ⊎ (slot arr (i + 1 + left) ≤ p)
    → load32 (shift_up arr left i tmp m) p ≡ load32 m p
unfolding shift_up
load32-shift_up arr zero i tmp m p h = refl
load32-shift_up arr (suc left) i tmp m p h = ground (
  arith,
  load32-shift_up arr left (i + 1) (load32 m (slot arr (i + 1))) (store32 m (slot arr (i + 1)) tmp)
      p,
  load32-store32_ne m (slot arr (i + 1)) p tmp,
)

cells-shift_up :
    (arr left i tmp : ℕ) (m : Mem)
    → IsBytes m
    → tmp < 4294967296
    → cells (shift_up arr (suc left) i tmp m) arr (i + 1) (suc left)
      ≡ tmp ∷ cells m arr (i + 1) left
unfolding shift_up cells
cells-shift_up arr zero i tmp m bytes h =
    ap (λ (t : ℕ). t ∷ []) (load32-store32 m (slot arr (i + 1)) tmp h)
cells-shift_up arr (suc left) i tmp m bytes h =
    ap₂ ◌∷◌
      (load32-shift_up arr (suc left) (i + 1) (load32 m (slot arr (i + 1))) m1 (slot arr (i + 1))
          (omega arith)
        ∙ load32-store32 m (slot arr (i + 1)) tmp h)
      (cells-shift_up arr left (i + 1) (load32 m (slot arr (i + 1))) m1
          (store32-IsBytes m (slot arr (i + 1)) tmp bytes) (load32-lt m _ bytes)
        ∙ ap (λ ys. load32 m (slot arr (i + 1)) ∷ ys)
            (cells-store32_ne m arr (i + 1 + 1) left (slot arr (i + 1)) tmp (omega arith)))
  where
    m1 : Mem
    m1 = store32 m (slot arr (i + 1)) tmp

-- Is `x` before `el` in the order of `cmp`?
abbrev pub comes_before : Mem → Cmp → ℕ → ℕ → Bool
comes_before m cmp el x = is_negative (cmp m x el)

find_place_bounds :
    (m : Mem) (cmp : Cmp) (arr el left i : ℕ)
    → (i ≤ find_place m cmp arr el left i) × (find_place m cmp arr el left i ≤ i + left)
unfolding find_place
find_place_bounds m cmp arr el zero i = omega arith
find_place_bounds m cmp arr el (suc left) i =
    ground (arith, find_place_bounds m cmp arr el left (i + 1))

module _ (m : Mem) (cmp : Cmp) (arr el : ℕ) where
  find_place_none : (i : ℕ) → find_place m cmp arr el 0 i ≡ i
  unfolding find_place
  find_place_none i = refl

  find_place_after :
      (left i : ℕ)
      → comes_before m cmp el (load32 m (slot arr i)) ≡ true
      → find_place m cmp arr el (suc left) i ≡ find_place m cmp arr el left (i + 1)
  unfolding find_place
  find_place_after left i h = rw h

  find_place_here :
      (left i : ℕ)
      → comes_before m cmp el (load32 m (slot arr i)) ≡ false
      → find_place m cmp arr el (suc left) i ≡ i
  unfolding find_place
  find_place_here left i h = rw h

module _ (m : Mem) (bytes : IsBytes m) (a : SortedArray) (el : ℕ) (small : el < 4294967296) where
  load32-place_at :
      (it p : ℕ)
      → it ≤ a.sa_size
      → (p + 4 ≤ slot a.sa_array it) ⊎ (slot a.sa_array (a.sa_size + 1) ≤ p)
      → load32 (place_at m a el it) p ≡ load32 m p
  unfolding place_at
  load32-place_at it p le h = ground (
    arith,
    load32-store32_ne m (slot a.sa_array a.sa_size) p el,
    load32-store32_ne m (slot a.sa_array it) p el,
    load32-shift_up a.sa_array (a.sa_size - it) it (load32 m (slot a.sa_array it))
        (store32 m (slot a.sa_array it) el) p,
  )

  pub place_at_elsewhere :
      (it p : ℕ)
      → it ≤ a.sa_size
      → (p < a.sa_array) ⊎ (slot a.sa_array (a.sa_size + 1) ≤ p)
      → place_at m a el it p ≡ m p
  unfolding place_at
  place_at_elsewhere it p le h = ground (
    arith,
    store32_elsewhere m (slot a.sa_array a.sa_size) el p,
    store32_elsewhere m (slot a.sa_array it) el p,
    shift_up_elsewhere a.sa_array (a.sa_size - it) it (load32 m (slot a.sa_array it))
        (store32 m (slot a.sa_array it) el) p,
  )

  place_at-IsBytes : (it : ℕ) → IsBytes (place_at m a el it)
  unfolding place_at
  place_at-IsBytes it = elim (Bool-cases (it == a.sa_size)) [
    | inl end ↦ rw end (store32-IsBytes m (slot a.sa_array a.sa_size) el bytes)
    | inr inside ↦ rw inside (
        shift_up-IsBytes a.sa_array (a.sa_size - it) it _ _
          (store32-IsBytes m (slot a.sa_array it) el bytes))
  ]

  place_at_end : (i : ℕ) → i ≡ a.sa_size → cells (place_at m a el i) a.sa_array i 1 ≡ el ∷ []
  unfolding place_at cells
  place_at_end i e = ground (arith, load32-store32 m (slot a.sa_array i) el)

  place_at_here :
      (i left : ℕ)
      → i + suc left ≡ a.sa_size
      → cells (place_at m a el i) a.sa_array i (suc (suc left))
        ≡ el ∷ cells m a.sa_array i (suc left)
  place_at_here i left e =
      rw (shifts, cells-suc _ arr i (suc left), cells-suc m arr i left)
        (ap₂ ◌∷◌
          (load32-shift_up arr (suc left) i old m1 (slot arr i) (omega arith)
            ∙ load32-store32 m (slot arr i) el small)
          (cells-shift_up arr left i old m1 (store32-IsBytes m (slot arr i) el bytes)
              (load32-lt m _ bytes)
            ∙ ap (λ ys. old ∷ ys)
                (cells-store32_ne m arr (i + 1) left (slot arr i) el (omega arith))))
    where
      arr : ℕ
      arr = a.sa_array

      old : ℕ
      old = load32 m (slot arr i)

      m1 : Mem
      m1 = store32 m (slot arr i) el

      shifts : place_at m a el i ≡ shift_up arr (suc left) i old m1
      shifts =
          let ne : (i == a.sa_size) ≡ false = ground arith in
          let d : a.sa_size - i ≡ suc left = omega arith in unfold place_at in rw (ne, d)

  place_found :
      (cmp : Cmp) (left i : ℕ)
      → i + left ≡ a.sa_size
      → cells (place_at m a el (find_place m cmp a.sa_array el left i)) a.sa_array i (suc left)
        ≡ insert_by (comes_before m cmp el) el (cells m a.sa_array i left)
  place_found cmp zero i e =
      rw (find_place_none m cmp a.sa_array el i, cells-zero m) (place_at_end i (omega arith))
  place_found cmp (suc left) i e =
      elim (Bool-cases (comes_before m cmp el (load32 m (slot a.sa_array i)))) [
        | inl before ↦
            rw
              (
                find_place_after m cmp a.sa_array el left i before,
                cells-suc m a.sa_array i left,
                cells-suc _ a.sa_array i (suc left),
                before,
              )
              (ap₂ ◌∷◌
                (load32-place_at (find_place m cmp a.sa_array el left (i + 1)) (slot a.sa_array i)
                  (omega (arith, find_place_bounds m cmp a.sa_array el left (i + 1)))
                  (omega (arith, find_place_bounds m cmp a.sa_array el left (i + 1))))
                (place_found cmp left (i + 1) (omega arith)))
        | inr here ↦
            rw
              (
                find_place_here m cmp a.sa_array el left i here,
                ap (insert_by (comes_before m cmp el) el) (cells-suc m a.sa_array i left),
                here,
                ← cells-suc m a.sa_array i left,
              )
              (place_at_here i left e)
      ]

  -- What a call of insert_sorted_array that returns has done.
  pub record Inserted (cmp : Cmp) (r : Run (Mem × SortedArray)) : Type 0 where
    pub m' : Mem
    pub returns : r ≡ ok (m', record a { sa_size = a.sa_size + 1 })
    pub entries :
        cells m' a.sa_array 0 (a.sa_size + 1)
        ≡ insert_by (comes_before m cmp el) el (cells m a.sa_array 0 a.sa_size)
    pub still_bytes : IsBytes m'
    pub elsewhere : (p : ℕ) → (p < a.sa_array) ⊎ (slot a.sa_array (a.sa_size + 1) ≤ p) → m' p ≡ m p

  -- With a comparison function and room for one more entry, insert_sorted_array returns; the new
  -- entries are the old ones with `el` put before the first that does not compare below it, and no
  -- byte outside the `sa_size + 1` entries changes.
  pub insert_sorted_array-Inserted :
      (cmp : Cmp)
      → a.sa_cmp ≡ some cmp
      → a.sa_size < a.sa_maxsize
      → Inserted cmp (insert_sorted_array m a el)
  insert_sorted_array-Inserted cmp has room = record {
    m' = place_at m a el (find_place m cmp a.sa_array el a.sa_size 0);
    returns = unfold insert_sorted_array in rw (has, lt→ltb a.sa_size a.sa_maxsize room);
    entries = rw (add-one a.sa_size) (place_found cmp a.sa_size 0 (omega arith));
    still_bytes = place_at-IsBytes _;
    elsewhere = λ p out.
        place_at_elsewhere _ p (omega (arith, find_place_bounds m cmp a.sa_array el a.sa_size 0))
          out;
  }

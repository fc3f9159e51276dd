-- ===== src/Paging/Search.antt =====
-- first_frame finds the first free frame.
use james_m.Base.{
  ℕ, zero, suc, ◌+◌, ◌*◌, ◌/◌, ◌%◌, ◌^◌, ◌-◌, ◌≤◌, ◌<◌, ◌≡◌, refl, ◌⊎◌, inl, inr, arith, ◌==◌,
  bit_and, Option, none, some, Bool-cases, ◌∙◌, ltb,
}
use james_m.Bits.{bit, bit_and_one_bit_iff, bit-le-one, bit_ones}
use james_m.Memory.{load32}
use james_m.Kernel.{Kernel}
use james_m.Paging.{first_bit, free_bit, first_word, first_frame, frame_word}
use james_m.Paging.Frames.{used}

-- What a search of the places `lo`, …, `hi - 1` of a table of zeros and ones finds.
pub data FirstZero (f : ℕ → ℕ) (lo hi : ℕ) : Option ℕ → Type 0 where
  found :
      {n : ℕ}
      → lo ≤ n
      → n < hi
      → f n ≡ 0
      → ((i : ℕ) → lo ≤ i → i < n → f i ≡ 1)
      → FirstZero f lo hi (some n)
  full : ((i : ℕ) → lo ≤ i → i < hi → f i ≡ 1) → FirstZero f lo hi none

module _ {f : ℕ → ℕ} {lo hi : ℕ} where
  FirstZero-here : lo < hi → f lo ≡ 0 → FirstZero f lo hi (some lo)
  FirstZero-here h z = found (omega arith) h z (λ i p q. absurd (omega arith))

  FirstZero-later : {o : Option ℕ} → f lo ≡ 1 → FirstZero f (lo + 1) hi o → FirstZero f lo hi o
  FirstZero-later one (found p q z below) =
      found (omega arith) q z (λ i a b. ground (arith, below i))
  FirstZero-later one (full all) = full (λ i a b. ground (arith, all i))

-- The same in a form that names its parts, for tables that are searched twice.
abbrev IsFirst : (ℕ → ℕ) → ℕ → ℕ → ℕ → Type 0
IsFirst f lo hi n = (lo ≤ n) × (n < hi) × (f n ≡ 0) × ((i : ℕ) → lo ≤ i → i < n → f i ≡ 1)

IsFirst-unique :
    {f : ℕ → ℕ} {lo hi n : ℕ} {o : Option ℕ} → IsFirst f lo hi n → FirstZero f lo hi o → o ≡ some n
IsFirst-unique {n} (p, q, z, below) (found {n = m} p' q' z' below') =
    ground (arith, below m, below' n)
IsFirst-unique {n} (p, q, z, below) (full all) = ground (arith, all n)

-- A table has one first zero.
pub FirstZero-unique :
    {f : ℕ → ℕ} {lo hi n : ℕ} {o : Option ℕ}
    → FirstZero f lo hi (some n)
    → FirstZero f lo hi o
    → o ≡ some n
FirstZero-unique (found p q z below) k = IsFirst-unique (p, q, z, below) k

first_bit-FirstZero :
    (w left j hi : ℕ) → j + left ≡ hi → FirstZero (bit w) j hi (first_bit w left j)
unfolding first_bit
first_bit-FirstZero w zero j hi e = full (λ i p q. absurd (omega arith))
first_bit-FirstZero w (suc left) j hi e = elim (Bool-cases (bit_and w (2 ^ j) == 0)) [
  | inl free ↦ rw free (FirstZero-here (omega arith) (ground (arith, bit_and_one_bit_iff j w)))
  | inr busy ↦ rw busy (
      FirstZero-later (ground (arith, bit_and_one_bit_iff j w, bit-le-one j w))
        (first_bit-FirstZero w left (j + 1) hi (omega arith)))
]

-- The early `continue` on a full word gives what the loop over its bits would.
free_bit-FirstZero : (w : ℕ) → FirstZero (bit w) 0 32 (free_bit w)
unfolding free_bit
free_bit-FirstZero w = elim (Bool-cases (w == 0xFFFFFFFF)) [
  | inl ones ↦ rw ones (full (λ i p q. ground (arith, bit_ones 32 i)))
  | inr other ↦ rw other (first_bit-FirstZero w 32 0 32 refl)
]

-- A full word is skipped; else its first free bit is the answer.
FirstZero-word :
    (f g : ℕ → ℕ) (i hi : ℕ) {o : Option ℕ} (rest : Option ℕ)
    → ((j : ℕ) → j < 32 → f (i * 4 * 8 + j) ≡ g j)
    → i * 32 + 32 ≤ hi
    → FirstZero g 0 32 o
    → FirstZero f ((i + 1) * 32) hi rest
    → FirstZero f (i * 32) hi (elim o [ none ↦ rest | some j ↦ some (i * 4 * 8 + j) ])
FirstZero-word f g i hi rest same fits (found {n} p q z below) later =
    found (omega arith) (omega arith) (same n q ∙ z) λ m a b.
      let e : i * 4 * 8 + (m - i * 32) ≡ m = omega arith in
      rw e at (same (m - i * 32) (omega arith) ∙ below (m - i * 32) (omega arith) (omega arith))
FirstZero-word f g i hi rest same fits (full all) (found p q z below) =
    found (omega arith) q z λ m a b. elim (Bool-cases (ltb m ((i + 1) * 32))) [
      | inl inside ↦
          let e : i * 4 * 8 + (m - i * 32) ≡ m = omega arith in
          rw e at (same (m - i * 32) (ground arith) ∙ all (m - i * 32) (omega arith) (ground arith))
      | inr above ↦ below m (ground arith) b
    ]
FirstZero-word f g i hi rest same fits (full all) (full above) = full λ m a b.
    elim (Bool-cases (ltb m ((i + 1) * 32))) [
      | inl inside ↦
          let e : i * 4 * 8 + (m - i * 32) ≡ m = omega arith in
          rw e at (same (m - i * 32) (ground arith) ∙ all (m - i * 32) (omega arith) (ground arith))
      | inr out ↦ above m (ground arith) b
    ]

module _ (k : Kernel) where
  -- A word's bits are those of its 32 frames.
  used_word : (i j : ℕ) → j < 32 → used k (i * 4 * 8 + j) ≡ bit (load32 k.mem (frame_word k i)) j
  unfolding used
  used_word i j h =
      let e : (i * 4 * 8 + j) / 32 ≡ i = omega arith in
      let d : (i * 4 * 8 + j) % 32 ≡ j = omega arith in rw (e, d)

  first_word-FirstZero :
      (left i : ℕ) → FirstZero (used k) (i * 32) ((i + left) * 32) (first_word k left i)
  unfolding first_word
  first_word-FirstZero zero i = full (λ n p q. absurd (omega arith))
  first_word-FirstZero (suc left) i =
      let e : i + 1 + left ≡ i + suc left = omega arith in
      FirstZero-word (used k) (bit (load32 k.mem (frame_word k i))) i ((i + suc left) * 32)
        (first_word k left (i + 1)) (used_word i) (omega arith)
        (free_bit-FirstZero (load32 k.mem (frame_word k i)))
        (rw e at (first_word-FirstZero left (i + 1)))

  -- The frames that first_frame looks at: those of the whole words of the bitset.
  abbrev pub searched : ℕ
  searched = k.nframes / 32 * 32

  -- first_frame returns the lowest free frame, or the word of -1 exactly when all are in use.
  pub first_frame_lem :
      (FirstZero (used k) 0 searched (some (first_frame k)))
      ⊎ ((first_frame k ≡ 0xFFFFFFFF) × FirstZero (used k) 0 searched none)
  unfolding first_frame
  first_frame_lem = go (first_word k (k.nframes / 32) 0) (first_word-FirstZero (k.nframes / 32) 0)
    where
      e : 0 + k.nframes / 32 ≡ k.nframes / 32
      e = omega arith

      go :
          (o : Option ℕ)
          → FirstZero (used k) (0 * 32) ((0 + k.nframes / 32) * 32) o
          → (FirstZero (used k) 0 searched (some (elim o [ none ↦ 0xFFFFFFFF | some f ↦ f ])))
            ⊎ (◌≡◌ {A = ℕ} (elim o [ none ↦ 0xFFFFFFFF | some f ↦ f ]) 0xFFFFFFFF
                × FirstZero (used k) 0 searched none)
      go none h = inr (refl, rw e at h)
      go (some f) h = inl (rw e at h)

-- ===== src/Memory/Text.antt =====
-- strlen and strcmp on texts that end in a zero byte.
use james_m.Base.{
  ℕ, zero, suc, ◌+◌, ◌<◌, ◌≤◌, ◌≡◌, refl, ap, ◌∙◌, List, [], ◌∷◌, ok, arith, length, ◌==◌,
  if◌then◌else◌, Bool, true, false, ◌&&◌, sub32, subst, Bool-cases, inl, inr,
}
use james_m.Memory.{Mem, strlen_from, strlen, strcmp}
use james_m.Memory.Words.{IsBytes}

-- The characters `xs`, none of them zero, stand at `s`, and a zero byte ends them.
abbrev pub IsText : Mem → ℕ → List ℕ → Type 0
IsText m s [] = m s ≡ 0
IsText m s (x ∷ xs) = (m s ≡ x) × (0 < x) × (x < 256) × IsText m (s + 1) xs

-- The characters `xs` written at `s`, without an end.
abbrev pub with_text : Mem → ℕ → List ℕ → Mem
with_text m s [] a = m a
with_text m s (x ∷ xs) a = if a == s then x else with_text m (s + 1) xs a

strlen_from-IsText :
    (fuel : ℕ) (m : Mem) (s l : ℕ) (xs : List ℕ)
    → IsText m (s + l) xs
    → length xs < fuel
    → strlen_from fuel m s l ≡ ok (l + length xs)
unfolding strlen_from
strlen_from-IsText zero m s l xs h f = absurd (omega arith)
strlen_from-IsText (suc fuel) m s l [] h f = ground arith
strlen_from-IsText (suc fuel) m s l (x ∷ xs) h f = ground (
  arith,
  strlen_from-IsText fuel m s (l + 1) xs (subst (λ a. IsText m a xs) (omega arith) h.3)
      (omega arith),
)

-- On a text `strlen` returns its length, with any fuel above that length.
pub strlen-length :
    (fuel : ℕ) (m : Mem) (s : ℕ) (xs : List ℕ)
    → IsText m s xs
    → length xs < fuel
    → strlen fuel m s ≡ ok (length xs)
unfolding strlen
strlen-length fuel m s xs h f =
    strlen_from-IsText fuel m s 0 xs (subst (λ a. IsText m a xs) (omega arith) h) f
    ∙ ap ok (omega arith)

abbrev pub text_eq : List ℕ → List ℕ → Bool
text_eq [] [] = true
text_eq [] (y ∷ ys) = false
text_eq (x ∷ xs) [] = false
text_eq (x ∷ xs) (y ∷ ys) = (x == y) && text_eq xs ys

-- On two texts `strcmp` ends within the length of the first, and returns 0 exactly when the texts
-- are equal.
pub strcmp-text_eq :
    (fuel : ℕ) (m : Mem) (s1 s2 : ℕ) (xs ys : List ℕ)
    → IsText m s1 xs
    → IsText m s2 ys
    → length xs < fuel
    → (r : ℕ) × (strcmp fuel m s1 s2 ≡ ok r) × ((r == 0) ≡ text_eq xs ys)
unfolding strcmp
strcmp-text_eq zero m s1 s2 xs ys h k f = absurd (omega arith)
strcmp-text_eq (suc fuel) m s1 s2 [] [] h k f = (0, ground arith, refl)
strcmp-text_eq (suc fuel) m s1 s2 [] (y ∷ ys) h k f = (sub32 0 y, ground arith, ground arith)
strcmp-text_eq (suc fuel) m s1 s2 (x ∷ xs) [] h k f = (sub32 x 0, ground arith, ground arith)
strcmp-text_eq (suc fuel) m s1 s2 (x ∷ xs) (y ∷ ys) h k f =
    let (r, e, t) = strcmp-text_eq fuel m (s1 + 1) (s2 + 1) xs ys h.3 k.3 (omega arith) in
    elim (Bool-cases (x == y)) [
      | inl same ↦ (r, ground arith, ground arith)
      | inr differ ↦ (sub32 x y, ground arith, ground arith)
    ]

-- Characters of a text, none of them its end.
abbrev pub Chars : List ℕ → Type 0
Chars [] = Unit
Chars (x ∷ xs) = (0 < x) × (x < 256) × Chars xs

pub with_text_below : (m : Mem) (s : ℕ) (xs : List ℕ) (a : ℕ) → a < s → with_text m s xs a ≡ m a
with_text_below m s [] a h = refl
with_text_below m s (x ∷ xs) a h = ground (arith, with_text_below m (s + 1) xs a)

-- A text depends on nothing but its bytes and the zero behind them.
pub IsText-ext :
    (m m' : Mem) (s : ℕ) (xs : List ℕ)
    → ((a : ℕ) → s ≤ a → a ≤ s + length xs → m' a ≡ m a)
    → IsText m s xs
    → IsText m' s xs
IsText-ext m m' s [] same h = same s (omega arith) (omega arith) ∙ h
IsText-ext m m' s (x ∷ xs) same h = (
  same s (omega arith) (omega arith) ∙ h.0,
  h.1,
  h.2,
  IsText-ext m m' (s + 1) xs (λ a lo hi. same a (omega arith) (omega arith)) h.3,
)

pub IsText-with_text :
    (m : Mem) (s : ℕ) (xs : List ℕ)
    → Chars xs
    → m (s + length xs) ≡ 0
    → IsText (with_text m s xs) s xs
IsText-with_text m s [] h e = e'
  where
    e' : m s ≡ 0
    e' = ap m (omega arith) ∙ e
IsText-with_text m s (x ∷ xs) h e =
    let here : (s == s) ≡ true = ground arith in
    (
      rw here,
      h.0,
      h.1,
      IsText-ext (with_text m (s + 1) xs) (with_text m s (x ∷ xs)) (s + 1) xs
          (λ a lo hi. let later : (a == s) ≡ false = ground arith in rw later)
          (IsText-with_text m (s + 1) xs h.2 (ap m (omega arith) ∙ e)),
    )

pub with_text_above :
    (m : Mem) (s : ℕ) (xs : List ℕ) (a : ℕ) → s + length xs ≤ a → with_text m s xs a ≡ m a
with_text_above m s [] a h = refl
with_text_above m s (x ∷ xs) a h =
    let other : (a == s) ≡ false = ground (arith, h) in
    rw (other, with_text_above m (s + 1) xs a (omega arith))

pub with_text-IsBytes :
    (m : Mem) (s : ℕ) (xs : List ℕ) → Chars xs → IsBytes m → IsBytes (with_text m s xs)
with_text-IsBytes m s [] h bytes a = bytes a
with_text-IsBytes m s (x ∷ xs) h bytes a =
    ground (arith, h, with_text-IsBytes m (s + 1) xs h.2 bytes a)

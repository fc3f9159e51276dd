-- ===== src/Bits/Step.antt =====
-- `&` and `|` digit by digit. The native operations stand for a recursion whose first argument counts
-- the digits to go; what it counts beyond the length of the number does not matter.
use Prim.Native.Nat.{min, max, digits, bitwise, bit_and-bitwise, bit_or-bitwise}
use james_m.Base.{ℕ, zero, suc, ◌+◌, ◌*◌, ◌/◌, ◌%◌, ◌≤◌, bit_and, bit_or, ◌≡◌, refl, ap, ◌∙◌, arith}

module _ (rest : ℕ → ℕ) (op : ℕ → ℕ → ℕ) where
  -- A count `w` bounds both recursions.
  settled :
      (w count x y : ℕ) → x ≤ count → count ≤ w → digits rest op count x y ≡ bitwise rest op x y
  settled w zero zero y long bound = refl
  settled w (suc count) zero y long bound = refl
  settled w zero (suc x) y long bound = absurd (omega arith)
  settled zero (suc count) (suc x) y long bound = absurd (omega arith)
  settled (suc w) (suc count) (suc x) y long bound = rw (
    settled w count (suc x / 2) (y / 2) (omega arith) (omega arith),
    settled w x (suc x / 2) (y / 2) (omega arith) (omega arith),
  )

  bitwise_positive :
      (x y : ℕ)
      → bitwise rest op (suc x) y ≡ bitwise rest op (suc x / 2) (y / 2) * 2 + op (suc x % 2) (y % 2)
  bitwise_positive x y =
      ap (λ (high : ℕ). high * 2 + op (suc x % 2) (y % 2))
        (settled x x (suc x / 2) (y / 2) (omega arith) (omega arith))

pub bit_and_step : (x y : ℕ) → bit_and x y ≡ bit_and (x / 2) (y / 2) * 2 + min (x % 2) (y % 2)
bit_and_step zero y = simp bit_and-bitwise (omega arith)
bit_and_step (suc x) y = simp bit_and-bitwise (bitwise_positive (λ _. 0) min x y)

pub bit_or_step : (x y : ℕ) → bit_or x y ≡ bit_or (x / 2) (y / 2) * 2 + max (x % 2) (y % 2)
bit_or_step zero y = simp bit_or-bitwise (omega arith)
bit_or_step (suc x) y = simp bit_or-bitwise (bitwise_positive (λ d. d) max x y)

and_digits_zero : (count x : ℕ) → digits (λ _. 0) min count x 0 ≡ 0
and_digits_zero zero x = refl
and_digits_zero (suc count) zero = refl
and_digits_zero (suc count) (suc x) = omega (arith, and_digits_zero count (suc x / 2))

pub bit_and-zero : (x : ℕ) → bit_and x 0 ≡ 0
bit_and-zero x = bit_and-bitwise x 0 ∙ and_digits_zero x x

or_digits_zero : (count x : ℕ) → x ≤ count → digits (λ d. d) max count x 0 ≡ x
or_digits_zero zero x long = omega arith
or_digits_zero (suc count) zero long = refl
or_digits_zero (suc count) (suc x) long =
    omega (arith, or_digits_zero count (suc x / 2) (omega arith))

pub bit_or-zero : (x : ℕ) → bit_or x 0 ≡ x
bit_or-zero x = bit_or-bitwise x 0 ∙ or_digits_zero x x (omega arith)

pub zero-bit_or : (y : ℕ) → bit_or 0 y ≡ y
zero-bit_or y = bit_or-bitwise 0 y

pub zero-bit_and : (y : ℕ) → bit_and 0 y ≡ 0
zero-bit_and y = bit_and-bitwise 0 y

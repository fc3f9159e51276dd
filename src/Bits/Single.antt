-- ===== src/Bits/Single.antt =====
-- Single bits: what `|= 1 << i`, `&= ~(1 << i)` and `& (1 << i)` do to the bits of a word.
use native.Mathlib.Nat.{pow-suc, one-le-pow}
use james_m.Base.{
  ℕ, zero, suc, ◌-◌, ◌*◌, ◌/◌, ◌%◌, ◌^◌, ◌≤◌, ◌<◌, bit_and, bit_or, ◌≡◌, refl, arith, ◌==◌,
  if◌then◌else◌, ◌↔◌,
}
use james_m.Bits.Step.{bit_or_step, bit_and_step, bit_or-zero, bit_and-zero, zero-bit_and}
use james_m.Bits.Masks.{shift_once}

-- The digit of `x` at place `i`.
unfoldable pub bit : ℕ → ℕ → ℕ
bit x zero = x % 2
bit x (suc i) = bit (x / 2) i

pub bit-le-one : (i x : ℕ) → bit x i ≤ 1
unfolding bit
bit-le-one zero x = omega arith
bit-le-one (suc i) x = bit-le-one i (x / 2)

pub bit_zero : (i : ℕ) → bit 0 i ≡ 0
unfolding bit
bit_zero zero = refl
bit_zero (suc i) = bit_zero i

pub bit_and_one_bit : (i x : ℕ) → bit_and x (2 ^ i) ≡ bit x i * 2 ^ i
unfolding bit
bit_and_one_bit zero x = omega (arith, bit_and_step x 1, bit_and-zero (x / 2))
bit_and_one_bit (suc i) x = ground (
  arith,
  bit_and_step x (2 ^ suc i),
  pow-suc 2 i,
  shift_once i (bit (x / 2) i),
  bit_and_one_bit i (x / 2),
)

pub bit-bit_or : (i j x : ℕ) → bit (bit_or x (2 ^ i)) j ≡ (if i == j then 1 else bit x j)
unfolding bit
bit-bit_or zero zero x = omega (arith, bit_or_step x 1)
bit-bit_or zero (suc j) x = ground (arith, bit_or_step x 1, bit_or-zero (x / 2))
bit-bit_or (suc i) zero x = ground (arith, bit_or_step x (2 ^ suc i), pow-suc 2 i)
bit-bit_or (suc i) (suc j) x =
    ground (arith, bit_or_step x (2 ^ suc i), pow-suc 2 i, bit-bit_or i j (x / 2))

pub bit_or-lt : (w i x : ℕ) → i < w → x < 2 ^ w → bit_or x (2 ^ i) < 2 ^ w
bit_or-lt zero i x p q = absurd (omega arith)
bit_or-lt (suc w) zero x p q = ground (arith, bit_or_step x 1, bit_or-zero (x / 2), pow-suc 2 w)
bit_or-lt (suc w) (suc i) x p q =
    ground (arith, bit_or_step x (2 ^ suc i), pow-suc 2 i, pow-suc 2 w, bit_or-lt w i (x / 2))

bit_and-le_fuel : (n x m : ℕ) → x ≤ n → bit_and x m ≤ x
bit_and-le_fuel n zero m h = rw zero-bit_and (omega arith)
bit_and-le_fuel zero (suc x) m h = absurd (omega arith)
bit_and-le_fuel (suc n) (suc x) m h =
    omega (arith, bit_and_step (suc x) m, bit_and-le_fuel n (suc x / 2) (m / 2) (omega arith))

pub bit_and-le : (x m : ℕ) → bit_and x m ≤ x
bit_and-le x m = bit_and-le_fuel x x m (omega arith)

two_pow-lt : (i w : ℕ) → i < w → 2 ^ i < 2 ^ w
two_pow-lt i zero h = absurd (omega arith)
two_pow-lt zero (suc w) h = omega (arith, pow-suc 2 w, one-le-pow w 2)
two_pow-lt (suc i) (suc w) h = omega (arith, pow-suc 2 w, pow-suc 2 i, two_pow-lt i w (omega arith))

bit-mask : (w j x : ℕ) → j < w → bit (bit_and x (2 ^ w - 1)) j ≡ bit x j
unfolding bit
bit-mask zero j x q = absurd (omega arith)
bit-mask (suc w) zero x q =
    omega (arith, bit_and_step x (2 ^ suc w - 1), pow-suc 2 w, one-le-pow w 2)
bit-mask (suc w) (suc j) x q = ground (
  arith,
  bit_and_step x (2 ^ suc w - 1),
  pow-suc 2 w,
  one-le-pow w 2,
  bit-mask w j (x / 2) (omega arith),
)

pub bit-bit_and_not :
    (w i j x : ℕ)
    → i < w
    → j < w
    → bit (bit_and x (2 ^ w - 1 - 2 ^ i)) j ≡ (if i == j then 0 else bit x j)
unfolding bit
bit-bit_and_not zero i j x p q = absurd (omega arith)
bit-bit_and_not (suc w) zero zero x p q =
    omega (arith, bit_and_step x (2 ^ suc w - 1 - 1), pow-suc 2 w, one-le-pow w 2)
bit-bit_and_not (suc w) zero (suc j) x p q = ground (
  arith,
  bit_and_step x (2 ^ suc w - 1 - 1),
  pow-suc 2 w,
  one-le-pow w 2,
  bit-mask w j (x / 2) (omega arith),
)
bit-bit_and_not (suc w) (suc i) zero x p q = ground (
  arith,
  bit_and_step x (2 ^ suc w - 1 - 2 ^ suc i),
  pow-suc 2 w,
  pow-suc 2 i,
  two_pow-lt i w (omega arith),
)
bit-bit_and_not (suc w) (suc i) (suc j) x p q = ground (
  arith,
  bit_and_step x (2 ^ suc w - 1 - 2 ^ suc i),
  pow-suc 2 w,
  pow-suc 2 i,
  two_pow-lt i w (omega arith),
  bit-bit_and_not w i j (x / 2) (omega arith) (omega arith),
)

mul_pos_iff : (b p : ℕ) → 1 ≤ p → (b * p ≡ 0) ↔ (b ≡ 0)
mul_pos_iff b p h = (λ e. grind arith, λ e. rw e (omega arith))

-- `x & (1 << i)` is 0 exactly when bit `i` is.
pub bit_and_one_bit_iff : (i x : ℕ) → (bit_and x (2 ^ i) ≡ 0) ↔ (bit x i ≡ 0)
bit_and_one_bit_iff i x =
    rw (bit_and_one_bit i x) (mul_pos_iff (bit x i) (2 ^ i) (one-le-pow i 2 (omega arith)))

-- In a word of ones every bit is 1.
pub bit_ones : (w i : ℕ) → i < w → bit (2 ^ w - 1) i ≡ 1
unfolding bit
bit_ones zero i h = absurd (omega arith)
bit_ones (suc w) zero h = omega (arith, pow-suc 2 w, one-le-pow w 2)
bit_ones (suc w) (suc i) h = ground (arith, pow-suc 2 w, one-le-pow w 2, bit_ones w i)

-- ===== src/Bits/Masks.antt =====
-- `&` and `|` work on the digits above a place and on those below it apart from each other. So a low
-- mask is a remainder, a mask of high bits a rounding down, and `|` of disjoint fields a sum.
use native.Mathlib.Nat.{pow-suc, one-le-pow}
use james_m.Base.{
  ℕ, zero, suc, ◌+◌, ◌-◌, ◌*◌, ◌/◌, ◌%◌, ◌^◌, ◌<◌, bit_and, bit_or, ◌≡◌, ap, ap₂, ◌∙◌, arith,
}
use james_m.Bits.Step.{bit_or_step, bit_and_step, bit_or-zero, bit_and-zero, zero-bit_or}

pub shift_once : (k q : ℕ) → q * 2 ^ suc k ≡ q * 2 ^ k + q * 2 ^ k
shift_once k q = grind (arith, ap (λ (p : ℕ). q * p) (pow-suc 2 k))

bit_and_split :
    (k q r s t : ℕ)
    → r < 2 ^ k
    → t < 2 ^ k
    → bit_and (q * 2 ^ k + r) (s * 2 ^ k + t) ≡ bit_and q s * 2 ^ k + bit_and r t
bit_and_split zero q zero s zero low low' =
    let high : q * 1 + 0 ≡ q = omega arith in
    let high' : s * 1 + 0 ≡ s = omega arith in rw (high, high') (omega arith)
bit_and_split zero q (suc r) s t low low' = absurd (omega arith)
bit_and_split zero q zero s (suc t) low low' = absurd (omega arith)
bit_and_split (suc k) q r s t low low' =
    let p = pow-suc 2 k in
    ground (
      arith,
      shift_once k q,
      shift_once k s,
      shift_once k (bit_and q s),
      bit_and_step (q * 2 ^ suc k + r) (s * 2 ^ suc k + t),
      bit_and_step r t,
      bit_and_split k q (r / 2) s (t / 2) (omega (arith, p)) (omega (arith, p)),
    )

bit_or_split :
    (k q r s t : ℕ)
    → r < 2 ^ k
    → t < 2 ^ k
    → bit_or (q * 2 ^ k + r) (s * 2 ^ k + t) ≡ bit_or q s * 2 ^ k + bit_or r t
bit_or_split zero q zero s zero low low' =
    let high : q * 1 + 0 ≡ q = omega arith in
    let high' : s * 1 + 0 ≡ s = omega arith in rw (high, high') (omega arith)
bit_or_split zero q (suc r) s t low low' = absurd (omega arith)
bit_or_split zero q zero s (suc t) low low' = absurd (omega arith)
bit_or_split (suc k) q r s t low low' =
    let p = pow-suc 2 k in
    ground (
      arith,
      shift_once k q,
      shift_once k s,
      shift_once k (bit_or q s),
      bit_or_step (q * 2 ^ suc k + r) (s * 2 ^ suc k + t),
      bit_or_step r t,
      bit_or_split k q (r / 2) s (t / 2) (omega (arith, p)) (omega (arith, p)),
    )

-- `(q << k) | r`, with `r` below the place.
pub bit_or_fields : (k q r : ℕ) → r < 2 ^ k → bit_or (q * 2 ^ k) r ≡ q * 2 ^ k + r
bit_or_fields k q r low =
    ap₂ bit_or (omega arith) (omega arith)
    ∙ bit_or_split k q 0 0 r (one-le-pow k 2 (omega arith)) low
    ∙ rw (bit_or-zero q, zero-bit_or r)

-- `r | (q << k)`.
pub bit_or_low : (k q r : ℕ) → r < 2 ^ k → bit_or r (q * 2 ^ k) ≡ q * 2 ^ k + r
bit_or_low k q r low =
    ap₂ bit_or (omega arith) (omega arith)
    ∙ bit_or_split k 0 r q 0 low (one-le-pow k 2 (omega arith))
    ∙ rw (zero-bit_or q, bit_or-zero r)

-- A mask with `k` low zeros works on the digits above them.
pub bit_and_high :
    (k q r m : ℕ) → r < 2 ^ k → bit_and (q * 2 ^ k + r) (m * 2 ^ k) ≡ bit_and q m * 2 ^ k
bit_and_high k q r m low =
    ap₂ bit_and (omega arith) (omega arith)
    ∙ bit_and_split k q r m 0 low (one-le-pow k 2 (omega arith))
    ∙ rw (bit_and-zero r) (omega arith)

bit_and_all_ones : (k r : ℕ) → r < 2 ^ k → bit_and r (2 ^ k - 1) ≡ r
bit_and_all_ones zero r low = omega (arith, bit_and-zero r)
bit_and_all_ones (suc k) r low =
    let p = pow-suc 2 k in
    ground (
      arith,
      p,
      one-le-pow k 2,
      bit_and_step r (2 ^ suc k - 1),
      bit_and_all_ones k (r / 2) (omega (arith, p)),
    )

-- A mask of `k` ones gives the remainder by `2 ^ k`.
pub bit_and_mask : (k a : ℕ) → bit_and a (2 ^ k - 1) ≡ a % 2 ^ k
bit_and_mask k a =
    let positive = one-le-pow k 2 (omega arith) in
    let low : a % 2 ^ k < 2 ^ k = ground (arith, positive) in
    ap₂ bit_and (ground (arith, positive)) (omega arith)
    ∙ bit_and_split k (a / 2 ^ k) (a % 2 ^ k) 0 (2 ^ k - 1) low (omega (arith, positive))
    ∙ rw (bit_and-zero (a / 2 ^ k), bit_and_all_ones k (a % 2 ^ k) low) (omega arith)

-- `x & 0xFFFFF000` rounds an address down to its page.
pub bit_and_page : (x : ℕ) → x < 4294967296 → bit_and x 0xFFFFF000 ≡ x / 4096 * 4096
bit_and_page x h = omega (
  arith,
  bit_and_high 12 (x / 4096) (x % 4096) 0xFFFFF (omega arith),
  bit_and_mask 20 (x / 4096),
  ap (λ (t : ℕ). bit_and t 0xFFFFF000) (split x),
)
  where
    split : (y : ℕ) → y ≡ y / 4096 * 4096 + y % 4096
    split y = omega arith

-- `x & 0xFFF` is the offset in the page.
pub bit_and_offset : (x : ℕ) → bit_and x 0xFFF ≡ x % 4096
bit_and_offset x = bit_and_mask 12 x

-- ===== src/Tar/Size.antt =====
-- The size field of a header: eleven octal digits, the most significant first.
use native.Mathlib.Nat.{pow-suc}
use james_m.Base.{
  ℕ, zero, suc, ◌+◌, ◌*◌, ◌/◌, ◌%◌, ◌^◌, ◌<◌, ◌≡◌, ap, ◌∙◌, arith, add32, sub32, mul32,
}
use james_m.Memory.{Mem}
use james_m.Tar.{char_word, getsize_from, getsize, stride}

-- The `count` octal digits of `n` end before `addr + count`.
abbrev pub IsOctal : Mem → (addr count n : ℕ) → Type 0
IsOctal m addr zero n = Unit
IsOctal m addr (suc count) n = (m (addr + count) ≡ 48 + n % 8) × IsOctal m addr count (n / 8)

mod_factor : (a n c : ℕ) → (a + n * (c % 4294967296)) % 4294967296 ≡ (a + n * c) % 4294967296
mod_factor a n c =
    let split : c ≡ 4294967296 * (c / 4294967296) + c % 4294967296 = omega arith in
    let product : n * c ≡ 4294967296 * (n * (c / 4294967296)) + n * (c % 4294967296) =
      grind (arith, ap (λ (t : ℕ). n * t) split) in
    omega (arith, product)

-- One round: the digit `n % 8` counts `count`, and the others count eight times as much.
round_lem :
    (size count n : ℕ)
    → (add32 size (mul32 (n % 8) count) + n / 8 * mul32 count 8) % 4294967296
      ≡ (size + n * count) % 4294967296
round_lem size count n =
    let split : n ≡ 8 * (n / 8) + n % 8 = omega arith in
    let product : n * count ≡ 8 * (n / 8 * count) + n % 8 * count =
      grind (arith, ap (λ (t : ℕ). t * count) split) in
    let shifted : n / 8 * (count * 8) ≡ 8 * (n / 8 * count) = grind arith in
    omega
      (arith, mod_factor (add32 size (mul32 (n % 8) count)) (n / 8) (count * 8), product, shifted)

digit_lem : (n : ℕ) → sub32 (char_word (48 + n % 8)) 48 ≡ n % 8
digit_lem n = ground arith

getsize_from-IsOctal :
    (m : Mem) (addr j n size count : ℕ)
    → IsOctal m addr j n
    → n < 8 ^ j
    → size < 4294967296
    → getsize_from m addr j size count ≡ (size + n * count) % 4294967296
unfolding getsize_from
getsize_from-IsOctal m addr zero zero size count digits small w = omega arith
getsize_from-IsOctal m addr zero (suc n) size count digits small w = absurd (omega arith)
getsize_from-IsOctal m addr (suc j) n size count digits small w =
    rw (digits.0, digit_lem n)
      (getsize_from-IsOctal m addr j (n / 8) (add32 size (mul32 (n % 8) count)) (mul32 count 8)
          digits.1 (omega (arith, pow-suc 8 j)) (omega arith)
        ∙ round_lem size count n)

-- On a field of eleven octal digits getsize returns the number that they write, modulo 2 ^ 32: a size
-- of 4 GiB or more, which the field can hold, is cut.
pub getsize-IsOctal :
    (m : Mem) (addr n : ℕ) → IsOctal m addr 11 n → n < 8589934592 → getsize m addr ≡ n % 4294967296
unfolding getsize
getsize-IsOctal m addr n digits small =
    getsize_from-IsOctal m addr 11 n 0 1 digits (omega arith) (omega arith) ∙ omega arith

-- Below 4 GiB less one block, the next header is one block and the blocks of the data away.
pub stride_lem : (siz : ℕ) → siz < 4294966784 → stride siz ≡ 512 + (siz + 511) / 512 * 512
unfolding stride
stride_lem siz small = ground arith

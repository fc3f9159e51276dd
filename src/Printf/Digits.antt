-- ===== src/Printf/Digits.antt =====
-- The digits of a number: their count, and reading them back.
use james_m.Base.{
  ℕ, zero, suc, ◌+◌, ◌-◌, ◌*◌, ◌/◌, ◌%◌, ◌^◌, ◌≤◌, ◌<◌, ◌≡◌, ap, ◌∙◌, ◌⊎◌, arith, List, [], ◌∷◌, ok,
  ltb, if◌then◌else◌, length, Bool-cases, inl, inr,
}
use native.Mathlib.Nat.{pow-suc}
use james_m.Printf.{push_decimal, push_hex, hex_digit}

-- A character as a decimal and as a hexadecimal digit.
abbrev pub decimal_value : ℕ → ℕ
decimal_value c = c - 48

abbrev pub hex_value : ℕ → ℕ
hex_value c = if ltb c 97 then c - 48 else c - 87

-- The number that the digits `cs` write behind the number `n`.
abbrev pub read_decimal : (n : ℕ) → List ℕ → ℕ
read_decimal n [] = n
read_decimal n (c ∷ cs) = read_decimal (10 * n + decimal_value c) cs

abbrev pub read_hex : (n : ℕ) → List ℕ → ℕ
read_hex n [] = n
read_hex n (c ∷ cs) = read_hex (16 * n + hex_value c) cs

-- Every character is a decimal digit.
abbrev pub Digits : List ℕ → Type 0
Digits [] = Unit
Digits (c ∷ cs) = (48 ≤ c) × (c ≤ 57) × Digits cs

-- `ds` stands for `u` in front of the characters `buf`, in at most `max` digits.
pub record Written (read : ℕ → List ℕ → ℕ) (max u : ℕ) (buf ds : List ℕ) : Type 0 where
  pub reads : read 0 ds ≡ read u buf
  pub count : length ds ≤ max + length buf
  pub more : length buf < length ds

push_decimal_small :
    (left u : ℕ) (buf : List ℕ) → u < 10 → push_decimal (suc left) u buf ≡ ok ((48 + u % 10) ∷ buf)
unfolding push_decimal
push_decimal_small left u buf small = ground arith

push_decimal_large :
    (left u : ℕ) (buf : List ℕ)
    → 10 ≤ u
    → push_decimal (suc left) u buf ≡ push_decimal left (u / 10) ((48 + u % 10) ∷ buf)
unfolding push_decimal
push_decimal_large left u buf large = ground arith

push_decimal-one :
    (left u : ℕ) (buf : List ℕ)
    → u < 10
    → Digits buf
    → (ds : List ℕ) × (push_decimal (suc left) u buf ≡ ok ds)
      × Written read_decimal (suc left) u buf ds
      × Digits ds
push_decimal-one left u buf small digits = (
  (48 + u % 10) ∷ buf,
  push_decimal_small left u buf small,
  record {
    reads = ap (λ (n : ℕ). read_decimal n buf) (omega arith);
    count = omega arith;
    more = omega arith;
  },
  (omega arith, omega arith, digits),
)

-- Enough rounds for the digits of `u`: the buffer then has them in front, and reading them back
-- gives `u`.
pub push_decimal-Written :
    (left u : ℕ) (buf : List ℕ)
    → u < 10 ^ suc left
    → Digits buf
    → (ds : List ℕ) × (push_decimal (suc left) u buf ≡ ok ds)
      × Written read_decimal (suc left) u buf ds
      × Digits ds
push_decimal-Written zero u buf small digits = push_decimal-one 0 u buf (omega arith) digits
push_decimal-Written (suc left) u buf small digits = elim (Bool-cases (ltb u 10)) [
  | inl one ↦ push_decimal-one (suc left) u buf (ground arith) digits
  | inr many ↦
      let (ds, e, w, d) =
        push_decimal-Written left (u / 10) ((48 + u % 10) ∷ buf)
          (omega (arith, pow-suc 10 (suc left))) (omega arith, omega arith, digits) in
      (
        ds,
        push_decimal_large (suc left) u buf (ground arith) ∙ e,
        record {
          reads = w.reads ∙ ap (λ (n : ℕ). read_decimal n buf) (omega arith);
          count = omega (arith, w.count);
          more = omega (arith, w.more);
        },
        d,
      )
]

-- Every word has at most ten decimal digits, so with a sign it fits the buffer of eleven characters,
-- and reading the digits that %u prints back gives the word.
pub push_decimal-word :
    (u : ℕ)
    → u < 4294967296
    → (ds : List ℕ) × (push_decimal 10 u [] ≡ ok ds)
      × (read_decimal 0 ds ≡ u)
      × (length ds ≤ 10)
      × (0 < length ds)
      × Digits ds
push_decimal-word u small =
    let (ds, e, w, d) = push_decimal-Written 9 u [] (omega arith) tt in
    (ds, e, w.reads, omega (arith, w.count), omega (arith, w.more), d)

-- `0`, …, `9`, `a`, …, `f`.
abbrev pub IsHexDigit : ℕ → Type 0
IsHexDigit c = ((48 ≤ c) × (c ≤ 57)) ⊎ ((97 ≤ c) × (c ≤ 102))

abbrev pub HexDigits : List ℕ → Type 0
HexDigits [] = Unit
HexDigits (c ∷ cs) = IsHexDigit c × HexDigits cs

hex_digit-IsHexDigit : (d : ℕ) → d < 16 → IsHexDigit (hex_digit d)
hex_digit-IsHexDigit d small = ground arith

hex_value-hex_digit : (d : ℕ) → d < 16 → hex_value (hex_digit d) ≡ d
hex_value-hex_digit d small = ground arith

push_hex_small :
    (left u : ℕ) (buf : List ℕ) → u < 16 → push_hex (suc left) u buf ≡ ok (hex_digit (u % 16) ∷ buf)
unfolding push_hex
push_hex_small left u buf small = ground arith

push_hex_large :
    (left u : ℕ) (buf : List ℕ)
    → 16 ≤ u
    → push_hex (suc left) u buf ≡ push_hex left (u / 16) (hex_digit (u % 16) ∷ buf)
unfolding push_hex
push_hex_large left u buf large = ground arith

push_hex-one :
    (left u : ℕ) (buf : List ℕ)
    → u < 16
    → HexDigits buf
    → (ds : List ℕ) × (push_hex (suc left) u buf ≡ ok ds)
      × Written read_hex (suc left) u buf ds
      × HexDigits ds
push_hex-one left u buf small digits = (
  hex_digit (u % 16) ∷ buf,
  push_hex_small left u buf small,
  record {
    reads = ap (λ (n : ℕ). read_hex n buf) (ground (arith, hex_value-hex_digit (u % 16)));
    count = omega arith;
    more = omega arith;
  },
  (hex_digit-IsHexDigit (u % 16) (omega arith), digits),
)

-- Enough rounds for the digits of `u`: the buffer then has them in front, and reading them back
-- gives `u`.
pub push_hex-Written :
    (left u : ℕ) (buf : List ℕ)
    → u < 16 ^ suc left
    → HexDigits buf
    → (ds : List ℕ) × (push_hex (suc left) u buf ≡ ok ds)
      × Written read_hex (suc left) u buf ds
      × HexDigits ds
push_hex-Written zero u buf small digits = push_hex-one 0 u buf (omega arith) digits
push_hex-Written (suc left) u buf small digits = elim (Bool-cases (ltb u 16)) [
  | inl one ↦ push_hex-one (suc left) u buf (ground arith) digits
  | inr many ↦
      let (ds, e, w, d) =
        push_hex-Written left (u / 16) (hex_digit (u % 16) ∷ buf)
          (omega (arith, pow-suc 16 (suc left)))
          (hex_digit-IsHexDigit (u % 16) (omega arith), digits) in
      (
        ds,
        push_hex_large (suc left) u buf (ground arith) ∙ e,
        record {
          reads =
              w.reads
              ∙ ap (λ (n : ℕ). read_hex n buf) (ground (arith, hex_value-hex_digit (u % 16)));
          count = omega (arith, w.count);
          more = omega (arith, w.more);
        },
        d,
      )
]

-- Every word has at most eight hexadecimal digits, and reading the digits that %x prints back gives the
-- word.
pub push_hex-word :
    (u : ℕ)
    → u < 4294967296
    → (ds : List ℕ) × (push_hex 8 u [] ≡ ok ds)
      × (read_hex 0 ds ≡ u)
      × (length ds ≤ 8)
      × (0 < length ds)
      × HexDigits ds
push_hex-word u small =
    let (ds, e, w, d) = push_hex-Written 7 u [] (omega arith) tt in
    (ds, e, w.reads, omega (arith, w.count), omega (arith, w.more), d)

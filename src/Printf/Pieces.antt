-- ===== src/Printf/Pieces.antt =====
-- What vprintf prints for a format that is given by its pieces.
use james_m.Base.{
  ℕ, zero, suc, ◌+◌, ◌≤◌, ◌<◌, ◌≡◌, ◌≢◌, refl, ap, subst, arith, List, [], ◌∷◌, ◌++◌, Option, some,
  Run, ok, ◌==◌, is_negative, add32, sub32, u8, u32, length, length-append, Bool-cases, inl, inr,
  false, true,
}
use james_m.Memory.{Mem}
use james_m.Memory.Text.{IsText}
use james_m.Monitor.{Screen, mon_putchar}
use james_m.Printf.{
  Printing, dump, put_text, va_arg, put_int, conversion, vprintf_round, vprintf_loop, vprintf,
}
use james_m.Printf.Digits.{
  read_decimal, read_hex, Digits, HexDigits, push_decimal-word, push_hex-word,
}

-- A character that is no `%`, or a conversion with its argument.
pub data Piece : Type 0 where
  plain char_arg int_arg unsigned_arg hex_arg : ℕ → Piece
  text_arg : (s : ℕ) → List ℕ → Piece

abbrev pub piece_format : Piece → List ℕ
piece_format (plain c) = c ∷ []
piece_format (char_arg w) = b'%' ∷ b'c' ∷ []
piece_format (int_arg w) = b'%' ∷ b'd' ∷ []
piece_format (unsigned_arg w) = b'%' ∷ b'u' ∷ []
piece_format (hex_arg w) = b'%' ∷ b'x' ∷ []
piece_format (text_arg s xs) = b'%' ∷ b's' ∷ []

abbrev pub piece_args : Piece → List ℕ
piece_args (plain c) = []
piece_args (char_arg w) = w ∷ []
piece_args (int_arg w) = w ∷ []
piece_args (unsigned_arg w) = w ∷ []
piece_args (hex_arg w) = w ∷ []
piece_args (text_arg s xs) = s ∷ []

-- The fuel that a piece needs.
abbrev pub weight : Piece → ℕ
weight (text_arg s xs) = suc (length xs)
weight p = 1

abbrev pub IsPiece : Mem → Piece → Type 0
IsPiece m (plain c) = (c ≢ 0) × (c ≢ b'%')
IsPiece m (char_arg w) = w < 4294967296
IsPiece m (int_arg w) = w < 4294967296
IsPiece m (unsigned_arg w) = w < 4294967296
IsPiece m (hex_arg w) = w < 4294967296
IsPiece m (text_arg s xs) = IsText m s xs

-- The characters that a piece may print.
pub data Rendered : Piece → List ℕ → Type 0 where
  as_plain : {c : ℕ} → Rendered (plain c) (c ∷ [])
  as_char : {w : ℕ} → Rendered (char_arg w) (u8 w ∷ [])
  as_text : {s : ℕ} {xs : List ℕ} → Rendered (text_arg s xs) xs
  as_unsigned :
      {w : ℕ} {ds : List ℕ} → read_decimal 0 ds ≡ w → Digits ds → Rendered (unsigned_arg w) ds
  as_positive :
      {w : ℕ} {ds : List ℕ}
      → w < 2147483648
      → read_decimal 0 ds ≡ w
      → Digits ds
      → Rendered (int_arg w) ds
  as_negative :
      {w : ℕ} {ds : List ℕ}
      → 2147483648 ≤ w
      → read_decimal 0 ds + w ≡ 4294967296
      → Digits ds
      → Rendered (int_arg w) (b'-' ∷ ds)
  as_hex : {w : ℕ} {ds : List ℕ} → read_hex 0 ds ≡ w → HexDigits ds → Rendered (hex_arg w) ds

abbrev pub formats : List Piece → List ℕ
formats [] = []
formats (p ∷ ps) = piece_format p ++ formats ps

abbrev pub args : List Piece → List ℕ
args [] = []
args (p ∷ ps) = piece_args p ++ args ps

abbrev pub weights : List Piece → ℕ
weights [] = 0
weights (p ∷ ps) = weight p + weights ps

abbrev pub ArePieces : Mem → List Piece → Type 0
ArePieces m [] = Unit
ArePieces m (p ∷ ps) = IsPiece m p × ArePieces m ps

pub data AllRendered : List Piece → List ℕ → Type 0 where
  nothing : AllRendered [] []
  then_piece :
      {p : Piece} {ps : List Piece} {xs ys : List ℕ}
      → Rendered p xs
      → AllRendered ps ys
      → AllRendered (p ∷ ps) (xs ++ ys)

-- The characters one after the other on the screen.
abbrev pub put_all : List ℕ → Screen → Screen
put_all [] s = s
put_all (c ∷ cs) s = put_all cs (mon_putchar c s)

abbrev pub count : List ℕ → ℕ → ℕ
count [] r = r
count (c ∷ cs) r = count cs (add32 r 1)

abbrev pub at : (fmt : ℕ) → List ℕ → ℕ → Screen → Printing
at f ws r s = record { fmt = f; ap = ws; ret = r; screen = s }

pub put_all-append :
    (xs ys : List ℕ) (s : Screen) → put_all (xs ++ ys) s ≡ put_all ys (put_all xs s)
put_all-append [] ys s = refl
put_all-append (x ∷ xs) ys s = put_all-append xs ys (mon_putchar x s)

pub count-append : (xs ys : List ℕ) (r : ℕ) → count (xs ++ ys) r ≡ count ys (count xs r)
count-append [] ys r = refl
count-append (x ∷ xs) ys r = count-append xs ys (add32 r 1)

pub count-length : (xs : List ℕ) (r : ℕ) → r < 4294967296 → count xs r ≡ u32 (r + length xs)
count-length [] r small = omega arith
count-length (x ∷ xs) r small = omega (arith, count-length xs (add32 r 1) (omega arith))

dump-at :
    (xs : List ℕ) (f : ℕ) (ws : List ℕ) (r : ℕ) (s : Screen)
    → dump xs (at f ws r s) ≡ at f ws (count xs r) (put_all xs s)
unfolding dump
dump-at [] f ws r s = refl
dump-at (x ∷ xs) f ws r s = dump-at xs f ws (add32 r 1) (mon_putchar x s)

put_text-at :
    (fuel : ℕ) (m : Mem) (a : ℕ) (xs : List ℕ) (f : ℕ) (ws : List ℕ) (r : ℕ) (s : Screen)
    → IsText m a xs
    → length xs < fuel
    → put_text fuel m a (at f ws r s) ≡ ok (at f ws (count xs r) (put_all xs s))
unfolding put_text
put_text-at zero m a xs f ws r s text enough = absurd (omega arith)
put_text-at (suc fuel) m a [] f ws r s text enough = rw text
put_text-at (suc fuel) m a (x ∷ xs) f ws r s text enough =
    let nonzero : (x == 0) ≡ false = ground (arith, text) in
    rw (text.0, nonzero)
      (put_text-at fuel m (a + 1) xs f ws (add32 r 1) (mon_putchar x s) text.3 (omega arith))

-- One round prints one piece.
module _ (m : Mem) (fuel a : ℕ) (rest ws : List ℕ) (r : ℕ) (s : Screen) where
  abbrev pub Prints : Piece → Type 0
  Prints p =
      (out : List ℕ) × Rendered p out
      × (vprintf_round fuel m (at a (piece_args p ++ ws) r s)
          ≡ ok (some (at (a + length (piece_format p)) ws (count out r) (put_all out s))))

  dumped :
      (f : ℕ) (xs : List ℕ)
      → Path
          (Run (Option Printing))
          (ok (some (dump xs (at f ws r s))))
          (ok (some (at f ws (count xs r) (put_all xs s))))
  dumped f xs = ap (λ (q : Printing). ok (some q)) (dump-at xs f ws r s)

  round_int-positive : (w : ℕ) → w < 2147483648 → m a ≡ b'%' → m (a + 1) ≡ b'd' → Prints (int_arg w)
  unfolding vprintf_round conversion va_arg put_int
  round_int-positive w small c d =
      let (ds, e, reads, most, least, digits) = push_decimal-word w (omega arith) in
      let sign : is_negative w ≡ false = ground arith in
      (ds, as_positive small reads digits, rw (c, d, sign, e) (dumped (a + 2) ds))

  round_int-negative :
      (w : ℕ) → 2147483648 ≤ w → w < 4294967296 → m a ≡ b'%' → m (a + 1) ≡ b'd' → Prints (int_arg w)
  unfolding vprintf_round conversion va_arg put_int
  round_int-negative w large small c d =
      let (ds, e, reads, most, least, digits) = push_decimal-word (sub32 0 w) (omega arith) in
      let sign : is_negative w ≡ true = ground arith in
      (
        b'-' ∷ ds,
        as_negative large (omega (arith, reads)) digits,
        rw (c, d, sign, e) (dumped (a + 2) (b'-' ∷ ds)),
      )

  pub round-Prints :
      (p : Piece) → IsPiece m p → weight p ≤ fuel → IsText m a (piece_format p ++ rest) → Prints p
  unfolding vprintf_round conversion va_arg
  round-Prints (plain c) good enough text =
      let nonzero : (c == 0) ≡ false = ground (arith, good) in
      let other : (c == b'%') ≡ false = ground (arith, good) in
      (c ∷ [], as_plain, rw (text.0, nonzero, other))
  round-Prints (char_arg w) good enough text = (u8 w ∷ [], as_char, rw (text.0, text.3.0))
  round-Prints (int_arg w) good enough text = elim (Bool-cases (is_negative w)) [
    | inl minus ↦ round_int-negative w (ground arith) good text.0 text.3.0
    | inr plus ↦ round_int-positive w (ground arith) text.0 text.3.0
  ]
  round-Prints (unsigned_arg w) good enough text =
      let (ds, e, reads, most, least, digits) = push_decimal-word w good in
      (ds, as_unsigned reads digits, rw (text.0, text.3.0, e) (dumped (a + 2) ds))
  round-Prints (hex_arg w) good enough text =
      let (ds, e, reads, most, least, digits) = push_hex-word w good in
      (ds, as_hex reads digits, rw (text.0, text.3.0, e) (dumped (a + 2) ds))
  round-Prints (text_arg t xs) good enough text =
      let e = put_text-at fuel m t xs (a + 2) ws r s good (omega arith) in
      (xs, as_text, rw (text.0, text.3.0, e))

pub IsText-after :
    (m : Mem) (a : ℕ) (xs ys : List ℕ) → IsText m a (xs ++ ys) → IsText m (a + length xs) ys
IsText-after m a [] ys h = subst (λ b. IsText m b ys) (omega arith) h
IsText-after m a (x ∷ xs) ys h =
    subst (λ b. IsText m b ys) (omega arith) (IsText-after m (a + 1) xs ys h.3)

pub weight-pos : (p : Piece) → 1 ≤ weight p
weight-pos (plain c) = omega arith
weight-pos (char_arg w) = omega arith
weight-pos (int_arg w) = omega arith
weight-pos (unsigned_arg w) = omega arith
weight-pos (hex_arg w) = omega arith
weight-pos (text_arg s xs) = omega arith

pub vprintf_loop-AllRendered :
    (fuel : ℕ) (m : Mem) (a : ℕ) (ps : List Piece) (r : ℕ) (s : Screen)
    → ArePieces m ps
    → weights ps < fuel
    → IsText m a (formats ps)
    → (out : List ℕ) × AllRendered ps out
      × (vprintf_loop fuel m (at a (args ps) r s)
          ≡ ok (at (a + length (formats ps)) [] (count out r) (put_all out s)))
unfolding vprintf_loop
vprintf_loop-AllRendered zero m a ps r s good enough text = absurd (omega arith)
vprintf_loop-AllRendered (suc fuel) m a [] r s good enough text =
    ([], nothing, unfold vprintf_round in rw text (ap (λ (b : ℕ). ok (at b [] r s)) (omega arith)))
vprintf_loop-AllRendered (suc fuel) m a (p ∷ ps) r s good enough text =
    let (out, one, e) =
      round-Prints m fuel a (formats ps) (args ps) r s p good.0 (omega arith) text in
    let (more, others, f) =
      vprintf_loop-AllRendered fuel m (a + length (piece_format p)) ps (count out r) (put_all out s)
        good.1 (omega (arith, weight-pos p))
        (IsText-after m a (piece_format p) (formats ps) text) in
    (
      out ++ more,
      then_piece one others,
      rw (e, f)
          (ap ok (
            rw (count-append out more r, put_all-append out more s)
              (ap (λ (b : ℕ). at b [] (count more (count out r)) (put_all more (put_all out s)))
                (omega (arith, length-append (piece_format p) (formats ps)))))),
    )

-- A format of characters and conversions, given by its pieces, with the words that they ask for as
-- arguments, texts where %s asks for them, and more fuel than pieces and characters of those texts:
-- vprintf returns; it puts on the screen, in order, what the pieces stand for: a character, a text,
-- digits that read back as the word (after a minus sign as its distance to 2 ^ 32); and it returns the
-- number of characters put.
pub vprintf-AllRendered :
    (fuel : ℕ) (m : Mem) (fmt : ℕ) (ps : List Piece) (s : Screen)
    → ArePieces m ps
    → weights ps < fuel
    → IsText m fmt (formats ps)
    → (out : List ℕ) × AllRendered ps out
      × (vprintf fuel m fmt (args ps) s ≡ ok (u32 (length out), put_all out s))
unfolding vprintf
vprintf-AllRendered fuel m fmt ps s good enough text =
    let (out, all, e) = vprintf_loop-AllRendered fuel m fmt ps 0 s good enough text in
    let c : count out 0 ≡ u32 (length out) = omega (arith, count-length out 0 (omega arith)) in
    (out, all, rw (e, c))

-- ===== src/Interrupts/Messages.antt =====
-- What print puts on the screen for a literal without conversions.
use james_m.Base.{
  ℕ, ◌<◌, ◌≡◌, refl, ap, ◌∙◌, sym, arith, List, [], ◌∷◌, ◌++◌, Run, ok, true, length, ◌>>=◌, subst,
}
use james_m.Memory.Text.{IsText, IsText-with_text}
use james_m.Monitor.{Screen}
use james_m.Printf.{printf, vprintf}
use james_m.Printf.Pieces.{
  plain, AllRendered, nothing, then_piece, as_plain, formats, args, weights, ArePieces, put_all,
  vprintf-AllRendered,
}
use james_m.Printf.Messages.{plains, are_plain, are_chars, are_chars-Chars, plains-ArePieces}
use james_m.Interrupts.{Machine, print, literal, message}

-- A literal without conversions is printed as it is.
AllRendered-plains : (xs out : List ℕ) → AllRendered (plains xs) out → out ≡ xs
AllRendered-plains [] _ nothing = refl
AllRendered-plains (x ∷ xs) _ (then_piece {ys = ys} as_plain rest) =
    ap (λ zs. x ∷ zs) (AllRendered-plains xs ys rest)

formats-plains : (xs : List ℕ) → formats (plains xs) ≡ xs
formats-plains [] = refl
formats-plains (x ∷ xs) = ap (λ zs. x ∷ zs) (formats-plains xs)

args-plains : (xs : List ℕ) → args (plains xs) ≡ []
args-plains [] = refl
args-plains (x ∷ xs) = args-plains xs

weights-plains : (xs : List ℕ) → weights (plains xs) ≡ length xs
weights-plains [] = refl
weights-plains (x ∷ xs) = omega (arith, weights-plains xs)

append-nil-plains : (xs : List ℕ) → plains xs ++ [] ≡ plains xs
append-nil-plains [] = refl
append-nil-plains (x ∷ xs) = ap (λ zs. plain x ∷ zs) (append-nil-plains xs)

-- The machine with a text on the screen.
abbrev pub showing : List ℕ → Machine → Machine
showing text m = record m { screen = put_all text m.screen }

pub print-showing :
    (text : List ℕ) (m : Machine)
    → are_plain text ≡ true
    → are_chars text ≡ true
    → length text < 64
    → print text [] m ≡ ok (showing text m)
unfolding print printf
print-showing text m plain_text chars short =
    let pieces : ArePieces (literal text) (plains text) =
      subst (ArePieces (literal text)) (append-nil-plains text)
        (plains-ArePieces (literal text) text [] plain_text tt) in
    let (out, all, e) =
      vprintf-AllRendered 64 (literal text) message (plains text) m.screen pieces
        (omega (arith, weights-plains text, short))
        (subst (λ f. IsText (literal text) message f) (sym (formats-plains text))
          (IsText-with_text (λ _. 0) message text (are_chars-Chars text chars) refl)) in
    let none_left = args-plains text in
    let same = AllRendered-plains text out all in
    let printed = ap (λ ws. vprintf 64 (literal text) message ws m.screen) (sym none_left) ∙ e in
    ap (λ (r : Run (ℕ × Screen)). r >>= λ (n, screen). ok (record m { screen = screen })) printed
    ∙ ap (λ o. ok (record m { screen = put_all o m.screen })) same

-- ===== src/Printf/Messages.antt =====
-- Messages with a literal format and a text.
use james_m.Base.{
  ℕ, ◌+◌, ◌<◌, ◌≡◌, refl, subst, arith, List, [], ◌∷◌, ◌++◌, ok, length, Bool, true, false, ◌&&◌,
  ◌==◌, ltb, if◌then◌else◌,
}
use james_m.Memory.{Mem}
use james_m.Memory.Text.{
  IsText, Chars, with_text, with_text_below, with_text_above, IsText-ext, IsText-with_text,
}
use james_m.Monitor.{Screen}
use james_m.Printf.{text_at, message_memory, printf, say}
use james_m.Printf.Pieces.{
  Piece, plain, ArePieces, weights, formats, args, AllRendered, put_all, vprintf-AllRendered,
}

pub IsText-format :
    (format text : List ℕ)
    → Chars format
    → length format < text_at
    → IsText (message_memory format text) 0 format
IsText-format format text h fits =
    IsText-ext (with_text (λ _. 0) 0 format) (message_memory format text) 0 format
      (λ a lo hi. with_text_below (with_text (λ _. 0) 0 format) text_at text a (omega arith))
      (IsText-with_text (λ _. 0) 0 format h refl)

pub IsText-text_at :
    (format text : List ℕ)
    → Chars text
    → length format < text_at
    → IsText (message_memory format text) text_at text
IsText-text_at format text h fits =
    IsText-with_text (with_text (λ _. 0) 0 format) text_at text h
      (with_text_above (λ _. 0) 0 format (text_at + length text) (omega arith))

-- The tests that a literal is checked by.
abbrev pub are_chars : List ℕ → Bool
are_chars [] = true
are_chars (x ∷ xs) = ltb 0 x && ltb x 256 && are_chars xs

pub are_chars-Chars : (xs : List ℕ) → are_chars xs ≡ true → Chars xs
are_chars-Chars [] h = tt
are_chars-Chars (x ∷ xs) h =
    (ground (arith, h), ground (arith, h), are_chars-Chars xs (ground (arith, h)))

abbrev pub are_plain : List ℕ → Bool
are_plain [] = true
are_plain (x ∷ xs) = if x == 0 then false else if x == b'%' then false else are_plain xs

-- The pieces of a literal without conversions.
abbrev pub plains : List ℕ → List Piece
plains [] = []
plains (x ∷ xs) = plain x ∷ plains xs

pub plains-ArePieces :
    (m : Mem) (xs : List ℕ) (ps : List Piece)
    → are_plain xs ≡ true
    → ArePieces m ps
    → ArePieces m (plains xs ++ ps)
plains-ArePieces m [] ps h rest = rest
plains-ArePieces m (x ∷ xs) ps h rest =
    ((ground (arith, h), ground (arith, h)), plains-ArePieces m xs ps (ground (arith, h)) rest)

-- A message that is given by its pieces is put on the screen, and the printing ends.
pub say-AllRendered :
    (format text : List ℕ) (ps : List Piece) (s : Screen)
    → format ≡ formats ps
    → Chars format
    → length format < text_at
    → ArePieces (message_memory format text) ps
    → weights ps < 2048
    → (out : List ℕ) × AllRendered ps out × (say format text (args ps) s ≡ ok (put_all out s))
unfolding say printf
say-AllRendered format text ps s e h fits good enough =
    let (out, all, r) =
      vprintf-AllRendered 2048 (message_memory format text) 0 ps s good enough (
        subst (λ f. IsText (message_memory format text) 0 f) e
          (IsText-format format text h fits)) in
    (out, all, rw r)

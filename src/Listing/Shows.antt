-- ===== src/Listing/Shows.antt =====
-- What the messages of the listing show on the screen.
use james_m.Base.{ℕ, ◌<◌, ◌≡◌, refl, ap, ◌∙◌, sym, subst, arith, List, [], ◌∷◌, ◌++◌, ok, length}
use james_m.Memory.Text.{Chars}
use james_m.Monitor.{Screen, mon_putchar}
use james_m.Printf.{text_at, message_memory, say}
use james_m.Printf.Pieces.{
  Piece, text_arg, ArePieces, weights, formats, args, AllRendered, nothing, then_piece, put_all,
}
use james_m.Printf.Messages.{
  plains, plains-ArePieces, are_chars-Chars, IsText-text_at, say-AllRendered,
}
use james_m.Listing.{found_file, directory_line, contents_line}

-- From one screen to the other, what the pieces stand for is put.
pub record Shows (ps : List Piece) (s s' : Screen) : Type 0 where
  pub out : List ℕ
  pub all : AllRendered ps out
  pub screen : s' ≡ put_all out s

append_assoc : (xs ys zs : List ℕ) → (xs ++ ys) ++ zs ≡ xs ++ (ys ++ zs)
append_assoc [] ys zs = refl
append_assoc (x ∷ xs) ys zs = ap (λ ws. x ∷ ws) (append_assoc xs ys zs)

AllRendered-append :
    {ps qs : List Piece} {xs ys : List ℕ}
    → AllRendered ps xs
    → AllRendered qs ys
    → AllRendered (ps ++ qs) (xs ++ ys)
AllRendered-append nothing b = b
AllRendered-append {ps = p ∷ ps} {qs = qs} {ys = ys} (then_piece {xs = u} {ys = v} one rest) b =
    subst (λ ws. AllRendered (p ∷ (ps ++ qs)) ws) (sym (append_assoc u v ys))
      (then_piece one (AllRendered-append rest b))

put_all-append : (xs ys : List ℕ) (s : Screen) → put_all (xs ++ ys) s ≡ put_all ys (put_all xs s)
put_all-append [] ys s = refl
put_all-append (x ∷ xs) ys s = put_all-append xs ys (mon_putchar x s)

pub Shows-append :
    {ps qs : List Piece} {s s' s'' : Screen}
    → Shows ps s s'
    → Shows qs s' s''
    → Shows (ps ++ qs) s s''
Shows-append {s = s} a b = record {
  out = a.out ++ b.out;
  all = AllRendered-append a.all b.all;
  screen = b.screen ∙ ap (put_all b.out) a.screen ∙ sym (put_all-append a.out b.out s);
}

pub Shows-nothing : (s : Screen) → Shows [] s s
Shows-nothing s = record { out = []; all = nothing; screen = refl }

-- A message shows its pieces.
pub say-Shows :
    (format text : List ℕ) (ps : List Piece) (s : Screen)
    → format ≡ formats ps
    → Chars format
    → length format < text_at
    → ArePieces (message_memory format text) ps
    → weights ps < 2048
    → (s' : Screen) × (say format text (args ps) s ≡ ok s') × Shows ps s s'
say-Shows format text ps s e h fits good enough =
    let (out, all, said) = say-AllRendered format text ps s e h fits good enough in
    (put_all out s, said, record { out = out; all = all; screen = refl })

abbrev pub found_file_pieces : (name : List ℕ) → List Piece
found_file_pieces name =
    plains (b'F' ∷ b'o' ∷ b'u' ∷ b'n' ∷ b'd' ∷ b' ' ∷ b'f' ∷ b'i' ∷ b'l' ∷ b'e' ∷ b' ' ∷ [])
    ++ (text_arg text_at name ∷ [])

pub say-found_file :
    (name : List ℕ) (s : Screen)
    → Chars name
    → length name < 2000
    → (s' : Screen) × (say found_file name (text_at ∷ []) s ≡ ok s')
      × Shows (found_file_pieces name) s s'
say-found_file name s chars short =
    say-Shows found_file name (found_file_pieces name) s refl (are_chars-Chars found_file refl)
      (omega arith)
      (plains-ArePieces (message_memory found_file name)
        (b'F' ∷ b'o' ∷ b'u' ∷ b'n' ∷ b'd' ∷ b' ' ∷ b'f' ∷ b'i' ∷ b'l' ∷ b'e' ∷ b' ' ∷ [])
        (text_arg text_at name ∷ []) refl (IsText-text_at found_file name chars (omega arith), tt))
      (omega arith)

pub say-directory_line :
    (s : Screen)
    → (s' : Screen) × (say directory_line [] [] s ≡ ok s')
      × Shows (plains directory_line ++ []) s s'
say-directory_line s =
    say-Shows directory_line [] (plains directory_line ++ []) s refl
      (are_chars-Chars directory_line refl) (omega arith)
      (plains-ArePieces (message_memory directory_line []) directory_line [] refl tt) (omega arith)

pub say-contents_line :
    (s : Screen)
    → (s' : Screen) × (say contents_line [] [] s ≡ ok s') × Shows (plains contents_line ++ []) s s'
say-contents_line s =
    say-Shows contents_line [] (plains contents_line ++ []) s refl
      (are_chars-Chars contents_line refl) (omega arith)
      (plains-ArePieces (message_memory contents_line []) contents_line [] refl tt) (omega arith)

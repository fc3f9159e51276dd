-- ===== src/Printf/Tests.antt =====
-- Runs of vprintf, and its theorems at small formats.
use james_m.Base.{ℕ, ◌+◌, ◌≡◌, refl, arith, List, [], ◌∷◌, ok, u32, length}
use james_m.Memory.{Mem}
use james_m.Memory.Text.{with_text}
use james_m.Monitor.{Screen, mon_putchar}
use james_m.Printf.{vprintf, push_decimal}
use james_m.Printf.Overrun.{vprintf-overrun}
use james_m.Printf.Pieces.{
  Piece, plain, int_arg, text_arg, AllRendered, put_all, vprintf-AllRendered, args,
}

-- `ab` at 16, and `%d%s` at 32.
abbrev texts : Mem
texts = with_text (with_text (λ _. 0) 16 (b'a' ∷ b'b' ∷ [])) 32 (b'%' ∷ b'd' ∷ b'%' ∷ b's' ∷ [])

abbrev blank : Screen
blank = record { video = λ _. 0; cursor_x = 0; cursor_y = 0; ports = [] }

-- -7, and the text.
abbrev two_pieces : List Piece
two_pieces = int_arg 4294967289 ∷ text_arg 16 (b'a' ∷ b'b' ∷ []) ∷ []

vprintf-AllRendered_example :
    (out : List ℕ) × AllRendered two_pieces out
    × (vprintf 9 texts 32 (args two_pieces) blank ≡ ok (u32 (length out), put_all out blank))
vprintf-AllRendered_example =
    vprintf-AllRendered 9 texts 32 two_pieces blank (omega arith, (omega arith, tt)) (omega arith)
      (omega arith)

-- `a%` at 16, and `b%d` behind its end.
abbrev lonely : Mem
lonely = with_text (with_text (λ _. 0) 16 (b'a' ∷ b'%' ∷ [])) 19 (b'b' ∷ b'%' ∷ b'd' ∷ [])

abbrev behind : List Piece
behind = plain b'b' ∷ int_arg 5 ∷ []

vprintf-overrun_example :
    (out : List ℕ) × (more : List ℕ) × AllRendered (plain b'a' ∷ []) out
    × AllRendered behind more
    × (vprintf 9 lonely 16 (5 ∷ []) blank
        ≡ ok (u32 (length out + 1 + length more), put_all more (mon_putchar 0 (put_all out blank))))
vprintf-overrun_example =
    vprintf-overrun 9 lonely 16 (plain b'a' ∷ []) behind blank ((omega arith, omega arith), tt)
      ((omega arith, omega arith), (omega arith, tt)) (omega arith) (omega arith) (omega arith)

push_decimal_run :
    push_decimal 10 1193180 [] ≡ ok (b'1' ∷ b'1' ∷ b'9' ∷ b'3' ∷ b'1' ∷ b'8' ∷ b'0' ∷ [])
unfolding push_decimal
push_decimal_run = refl

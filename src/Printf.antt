-- ===== src/Printf.antt =====
-- src/freebsd/printf.c: formatted output on the text screen.
--
-- The arguments of a variadic call are words on the stack, in a list here; one that the format asks for
-- and the caller has not passed is a fault. `buf` is a list with the last character first, which is the
-- order in which the code prints it.
pub mod Digits
pub mod Pieces
pub mod Overrun
pub mod Messages
mod Tests
use james_m.Base.{
  ℕ, zero, suc, ◌+◌, ◌-◌, ◌/◌, ◌%◌, List, [], ◌∷◌, Option, none, some, Run, ok, fault, out_of_fuel,
  ◌>>=◌, ◌==◌, ltb, if◌then◌else◌, is_negative, add32, sub32, u8,
}
use james_m.Memory.{Mem}
use james_m.Memory.Text.{with_text}
use james_m.Monitor.{Screen, mon_putchar}

-- `fmt`, `ap` and `ret` of vprintf, and the screen.
pub record Printing : Type 0 where
  pub fmt : ℕ
  pub ap : List ℕ
  pub ret : ℕ
  pub screen : Screen

-- `mon_putchar(c); ret++;`
abbrev pub put : ℕ → Printing → Printing
put c p = record p { ret = add32 p.ret 1; screen = mon_putchar c p.screen }

-- `while (--s >= buf) { mon_putchar(*s); ret++; }`
unfoldable pub dump : List ℕ → Printing → Printing
dump [] p = p
dump (c ∷ buf) p = dump buf (put c p)

-- `for (s = va_arg(ap, char *); *s; s++)`
unfoldable pub put_text : (fuel : ℕ) → Mem → (s : ℕ) → Printing → Run Printing
put_text zero m s p = out_of_fuel
put_text (suc fuel) m s p =
    let rest = put_text fuel m (s + 1) (put (m s) p) in if m s == 0 then ok p else rest

-- `do { *s++ = '0' + u % 10U; } while (u /= 10U);`, in at most `left` rounds.
unfoldable pub push_decimal : (left u : ℕ) → List ℕ → Run (List ℕ)
push_decimal zero u buf = out_of_fuel
push_decimal (suc left) u buf =
    let next = push_decimal left (u / 10) ((48 + u % 10) ∷ buf) in
    if u / 10 == 0 then ok ((48 + u % 10) ∷ buf) else next

-- `hex[d]`
abbrev pub hex_digit : ℕ → ℕ
hex_digit d = if ltb d 10 then 48 + d else 87 + d

-- `do { *s++ = hex[u & 0xfu]; } while (u >>= 4);`
unfoldable pub push_hex : (left u : ℕ) → List ℕ → Run (List ℕ)
push_hex zero u buf = out_of_fuel
push_hex (suc left) u buf =
    let next = push_hex left (u / 16) (hex_digit (u % 16) ∷ buf) in
    if u / 16 == 0 then ok (hex_digit (u % 16) ∷ buf) else next

-- `va_arg(ap, …)`
unfoldable pub va_arg : Printing → Run (ℕ × Printing)
va_arg p = elim p.ap [ [] ↦ fault | w ∷ ws ↦ ok (w, record p { ap = ws }) ]

-- The cases of the conversions. The character after the `%` has been read; the fuel is for the text of
-- an argument; a word has at most ten decimal and eight hexadecimal digits.
unfoldable pub put_int : ℕ → Printing → Run Printing
put_int i p = do
  buf ← push_decimal 10 (if is_negative i then sub32 0 i else i) []
  ok (dump (if is_negative i then b'-' ∷ buf else buf) p)

unfoldable pub conversion : (fuel : ℕ) → Mem → (c : ℕ) → Printing → Run Printing
conversion fuel m c p =
    if c == b'c'
    then (do (w, p') ← va_arg p; ok (put (u8 w) p'))
    else if c == b's'
    then (do (w, p') ← va_arg p; put_text fuel m w p')
    else if c == b'd'
    then (do (w, p') ← va_arg p; put_int w p')
    else if c == b'u'
    then (do (w, p') ← va_arg p; buf ← push_decimal 10 w []; ok (dump buf p'))
    else if c == b'x'
    then (do (w, p') ← va_arg p; buf ← push_hex 8 w []; ok (dump buf p'))
    else ok (put c p)

-- One round of `while ((c = *fmt++))`; `none` is its end. What stands after a `%` is read, and passed,
-- whatever it is.
unfoldable pub vprintf_round : (fuel : ℕ) → Mem → Printing → Run (Option Printing)
vprintf_round fuel m p =
    let c = m p.fmt in
    if c == 0
    then ok none
    else if c == b'%'
    then (do p' ← conversion fuel m (m (p.fmt + 1)) (record p { fmt = p.fmt + 2 }); ok (some p'))
    else ok (some (put c (record p { fmt = p.fmt + 1 })))

unfoldable pub vprintf_loop : (fuel : ℕ) → Mem → Printing → Run Printing
vprintf_loop zero m p = out_of_fuel
vprintf_loop (suc fuel) m p =
    vprintf_round fuel m p >>= λ o. elim o [ none ↦ ok p | some p' ↦ vprintf_loop fuel m p' ]

-- The result, the number of characters, and the screen. The fuel bounds the rounds and the characters of
-- a text.
unfoldable pub vprintf : (fuel : ℕ) → Mem → (fmt : ℕ) → (ap : List ℕ) → Screen → Run (ℕ × Screen)
vprintf fuel m fmt ap s = do
  p ← vprintf_loop fuel m (record { fmt = fmt; ap = ap; ret = 0; screen = s })
  ok (p.ret, p.screen)

unfoldable pub printf : (fuel : ℕ) → Mem → (fmt : ℕ) → (ap : List ℕ) → Screen → Run (ℕ × Screen)
printf fuel m fmt ap s = vprintf fuel m fmt ap s

-- A call with a format that is a literal, and one text that is a value of the model: both stand in a memory
-- of their own, the text at `text_at`.
abbrev pub text_at : ℕ
text_at = 4096

abbrev pub message_memory : (format text : List ℕ) → Mem
message_memory format text = with_text (with_text (λ _. 0) 0 format) text_at text

unfoldable pub say : (format text ap : List ℕ) → Screen → Run Screen
say format text ap s = do (n, s') ← printf 2048 (message_memory format text) 0 ap s; ok s'

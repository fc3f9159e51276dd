-- ===== src/Monitor/Putchar.antt =====
-- What mon_putchar does to the cursor and to the cells.
use james_m.Base.{
  ℕ, ◌+◌, ◌*◌, ◌/◌, ◌%◌, ◌<◌, ◌≡◌, refl, arith, ltb, leb, ◌&&◌, ◌==◌, if◌then◌else◌, bit_and,
  bit_or, List, ◌∷◌, ap, true, Bool-cases, inl, inr, false, u16, u8,
}
use james_m.Bits.{bit_and_high, bit_and_mask, bit_or_low}
use james_m.Monitor.{
  Screen, put_cell, type_char, wrap_line, scroll, move_cursor, mon_putchar, mon_clear, move_lines,
  is_printable, attr, mon_blank_char,
}
use james_m.Monitor.Scroll.{move_lines_lem, blank_cells_lem}

-- The cursor is on the screen.
pub record OnScreen (s : Screen) : Type 0 where
  pub x : s.cursor_x < 80
  pub y : s.cursor_y < 25

-- `x & ~7` for a byte and a little more.
tab_stop : (x : ℕ) → x < 4294967296 → bit_and x 0xFFFFFFF8 ≡ x / 8 * 8
tab_stop x h = omega (
  arith,
  bit_and_high 3 (x / 8) (x % 8) 0x1FFFFFFF (omega arith),
  bit_and_mask 29 (x / 8),
  ap (λ (t : ℕ). bit_and t 0xFFFFFFF8) (split x),
)
  where
    split : (y : ℕ) → y ≡ y / 8 * 8 + y % 8
    split y = omega arith

-- mon_putchar keeps the cursor on the screen, whatever the character.
pub mon_putchar-OnScreen : (c : ℕ) (s : Screen) → OnScreen s → OnScreen (mon_putchar c s)
unfolding mon_putchar move_cursor scroll wrap_line type_char
mon_putchar-OnScreen c s h = ground (arith, tab_stop (s.cursor_x + 8))

-- A printable character with the screen's colours.
coloured : (c : ℕ) → c < 128 → bit_or c attr ≡ c + 512
coloured c h = omega (arith, bit_or_low 9 1 c (omega arith))

-- The cells after a scroll by one line: each line takes the next, the last is blank.
abbrev pub scrolled : (ℕ → ℕ) → ℕ → ℕ
scrolled video a =
    if ltb a 1920 then video (a + 80) else if ltb a 2000 then mon_blank_char else video a

scroll-video :
    (s : Screen) (a : ℕ)
    → (scroll s).video a ≡ (if leb 25 s.cursor_y then scrolled s.video a else s.video a)
unfolding scroll
scroll-video s a =
    ground (
      arith,
      move_lines_lem 1920 0 s.video a,
      blank_cells_lem 80 1920 (move_lines 1920 0 s.video) a,
    )

type_printable :
    (c : ℕ) (s : Screen)
    → OnScreen s
    → is_printable c ≡ true
    → type_char c s ≡ record s {
      video = put_cell s.video (s.cursor_x + 80 * s.cursor_y) (c + 512);
      cursor_x = s.cursor_x + 1;
    }
unfolding type_char
type_printable c s h p =
    let e1 : (c == 0x08) ≡ false = ground arith in
    let e2 : (c == 0x09) ≡ false = ground arith in
    let e3 : (c == b'\r') ≡ false = ground arith in
    let e4 : (c == b'\n') ≡ false = ground arith in
    let e5 : bit_or c attr ≡ c + 512 = coloured c (ground arith) in
    let e6 : u8 (s.cursor_x + 1) ≡ s.cursor_x + 1 = omega arith in rw (e1, e2, e3, e4, p, e5, e6)

-- With the cursor on the screen, a printable character is put under the cursor and nothing else is
-- written; at the last cell of the last line the screen then moves up by one line. No cell outside
-- the 80 by 25 of the screen changes.
pub mon_putchar-printable :
    (c : ℕ) (s : Screen) (a : ℕ)
    → OnScreen s
    → is_printable c ≡ true
    → (mon_putchar c s).video a ≡ (
        if (s.cursor_x == 79) && (s.cursor_y == 24)
        then scrolled (put_cell s.video 1999 (c + 512)) a
        else put_cell s.video (s.cursor_x + 80 * s.cursor_y) (c + 512) a)
unfolding mon_putchar move_cursor
mon_putchar-printable c s a h p =
    rw (type_printable c s h p, scroll-video)
      (unfold wrap_line in
        elim (Bool-cases (leb 80 (s.cursor_x + 1))) [
          | inl end ↦ rw end (unfold put_cell in ground arith)
          | inr inside ↦ rw inside (unfold put_cell in ground arith)
        ])

-- The bytes that move_cursor sends last to the data port are the high and the low byte of the
-- cursor's cell.
pub mon_putchar-cursor :
    (c : ℕ) (s : Screen)
    → OnScreen s
    → (hi lo : ℕ) × (rest : List (ℕ × ℕ)) × ((mon_putchar c s).ports
        ≡ (0x3D5, lo) ∷ (0x3D4, 15) ∷ (0x3D5, hi) ∷ (0x3D4, 14) ∷ rest)
      × (hi * 256 + lo ≡ (mon_putchar c s).cursor_y * 80 + (mon_putchar c s).cursor_x)
unfolding mon_putchar move_cursor
mon_putchar-cursor c s h =
    let on : OnScreen (mon_putchar c s) = mon_putchar-OnScreen c s h in
    let t : Screen = scroll (wrap_line (type_char c s)) in
    let cl : ℕ = u16 (t.cursor_y * 80 + t.cursor_x) in
    (u8 (cl / 256), u8 cl, t.ports, refl, omega (arith, on.x, on.y))

-- mon_clear blanks every cell of the screen and no other, and puts the cursor in the first.
pub mon_clear-blank :
    (s : Screen) (a : ℕ)
    → ((mon_clear s).video a ≡ (if ltb a 2000 then mon_blank_char else s.video a))
      × ((mon_clear s).cursor_x ≡ 0)
      × ((mon_clear s).cursor_y ≡ 0)
unfolding mon_clear move_cursor
mon_clear-blank s a = (ground (arith, blank_cells_lem 2000 0 s.video a), refl, refl)

-- ===== src/Monitor.antt =====
-- src/monitor.c: the text screen.
--
-- `video` gives the 16-bit cells from 0xB8000 on, `ports` the bytes that move_cursor has sent, the
-- latest first. The cursor's coordinates are bytes.
pub mod Scroll
pub mod Putchar
mod Tests
use james_m.Base.{
  ℕ, zero, suc, ◌+◌, ◌*◌, ◌/◌, ◌%◌, ◌^◌, ◌-◌, List, [], ◌∷◌, ◌==◌, ltb, leb, if◌then◌else◌, ◌&&◌,
  bit_and, bit_or, Bool, u8, u16, ◌>>>◌, ◌<<<◌,
}

pub record Screen : Type 0 where
  pub video : ℕ → ℕ
  pub cursor_x : ℕ
  pub cursor_y : ℕ
  pub ports : List (ℕ × ℕ)

abbrev pub mon_width : ℕ
mon_width = 80

abbrev pub mon_height : ℕ
mon_height = 25

abbrev pub mon_default_attr_byte : ℕ
mon_default_attr_byte = bit_or (0 <<< 4) (bit_and 15 0x0F)

abbrev pub mon_blank_char : ℕ
mon_blank_char = bit_or 0x20 (mon_default_attr_byte <<< 8)

unfoldable pub put_cell : (ℕ → ℕ) → ℕ → ℕ → ℕ → ℕ
put_cell video p v a = if a == p then v else video a

unfoldable pub move_cursor : Screen → Screen
move_cursor s =
    let cl = u16 (s.cursor_y * mon_width + s.cursor_x) in
    record s {
      ports = (0x3D5, u8 cl) ∷ (0x3D4, 15) ∷ (0x3D5, u8 (cl >>> 8)) ∷ (0x3D4, 14) ∷ s.ports;
    }

-- `for (i = 0; i < w * (h - 1); i++) video_memory[i] = video_memory[i + w];`
unfoldable pub move_lines : (left i : ℕ) → (ℕ → ℕ) → ℕ → ℕ
move_lines zero i video = video
move_lines (suc left) i video = move_lines left (i + 1) (put_cell video i (video (i + mon_width)))

-- `for (; i < …; i++) video_memory[i] = MON_BLANK_CHAR;`
unfoldable pub blank_cells : (left i : ℕ) → (ℕ → ℕ) → ℕ → ℕ
blank_cells zero i video = video
blank_cells (suc left) i video = blank_cells left (i + 1) (put_cell video i mon_blank_char)

unfoldable pub scroll : Screen → Screen
scroll s =
    if leb mon_height s.cursor_y
    then record s {
      video =
          blank_cells mon_width (mon_width * (mon_height - 1))
            (move_lines (mon_width * (mon_height - 1)) 0 s.video);
      cursor_y = mon_height - 1;
    }
    else s

-- `(bc << 4) | (fc & 0x0F)`, shifted to the high byte of a cell.
abbrev pub attr : ℕ
attr = u8 (bit_or (0 <<< 4) (bit_and 2 0x0F)) <<< 8

-- `c >= ' '`: a char is signed, so the bytes from 128 on are negative.
abbrev pub is_printable : ℕ → Bool
is_printable c = leb 0x20 c && ltb c 128

-- The chain of tests on the character. A write goes to the cell before the cursor's new place.
unfoldable pub type_char : ℕ → Screen → Screen
type_char c s =
    if (c == 0x08) && ltb 0 s.cursor_x
    then record s { cursor_x = s.cursor_x - 1 }
    else if c == 0x09
    then record s { cursor_x = u8 (bit_and (s.cursor_x + 8) 0xFFFFFFF8) }
    else if c == b'\r'
    then record s { cursor_x = 0 }
    else if c == b'\n'
    then record s { cursor_x = 0; cursor_y = u8 (s.cursor_y + 1) }
    else if is_printable c
    then record s {
      video = put_cell s.video (s.cursor_x + mon_width * s.cursor_y) (bit_or c attr);
      cursor_x = u8 (s.cursor_x + 1);
    }
    else s

-- `if (cursor_x >= MON_WIDTH)`
unfoldable pub wrap_line : Screen → Screen
wrap_line s =
    if leb mon_width s.cursor_x
    then record s { cursor_x = 0; cursor_y = u8 (s.cursor_y + 1) }
    else s

-- `c` is the byte that a char of the source stands for.
unfoldable pub mon_putchar : ℕ → Screen → Screen
mon_putchar c s = move_cursor (scroll (wrap_line (type_char c s)))

unfoldable pub mon_clear : Screen → Screen
mon_clear s = move_cursor (record s {
  video = blank_cells (mon_width * mon_height) 0 s.video;
  cursor_x = 0;
  cursor_y = 0;
})

-- ===== src/Monitor/Scroll.antt =====
-- The loops of scroll and mon_clear.
use james_m.Base.{ℕ, zero, suc, ◌+◌, ◌≡◌, arith, ltb, leb, ◌&&◌, if◌then◌else◌}
use james_m.Monitor.{put_cell, move_lines, blank_cells, mon_blank_char}

-- Each cell in the range takes what stood a line below it, though the loop works in place.
pub move_lines_lem :
    (left i : ℕ) (video : ℕ → ℕ) (a : ℕ)
    → move_lines left i video a ≡ (if leb i a && ltb a (i + left) then video (a + 80) else video a)
unfolding move_lines put_cell
move_lines_lem zero i video a = ground arith
move_lines_lem (suc left) i video a =
    ground (arith, move_lines_lem left (i + 1) (put_cell video i (video (i + 80))) a)

pub blank_cells_lem :
    (left i : ℕ) (video : ℕ → ℕ) (a : ℕ)
    → blank_cells left i video a ≡ (if leb i a && ltb a (i + left) then mon_blank_char else video a)
unfolding blank_cells put_cell
blank_cells_lem zero i video a = ground arith
blank_cells_lem (suc left) i video a =
    ground (arith, blank_cells_lem left (i + 1) (put_cell video i mon_blank_char) a)

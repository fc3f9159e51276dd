-- ===== src/Monitor/Tests.antt =====
-- Runs of the screen, and its theorems at the last cell of the last line.
use james_m.Base.{◌+◌, ◌*◌, ◌≡◌, refl, arith, [], ◌==◌, ◌&&◌, if◌then◌else◌}
use james_m.Monitor.{Screen, put_cell, type_char, mon_putchar}
use james_m.Monitor.Putchar.{OnScreen, scrolled, mon_putchar-OnScreen, mon_putchar-printable}

abbrev corner : Screen
corner = record { video = λ a. a; cursor_x = 79; cursor_y = 24; ports = [] }

corner-OnScreen : OnScreen corner
corner-OnScreen = omega arith

mon_putchar-OnScreen_example : OnScreen (mon_putchar b'A' corner)
mon_putchar-OnScreen_example = mon_putchar-OnScreen b'A' corner corner-OnScreen

mon_putchar-printable_example : (mon_putchar b'A' corner).video 1919 ≡ (
    if (79 == 79) && (24 == 24)
    then scrolled (put_cell (λ a. a) 1999 (b'A' + 512)) 1919
    else put_cell (λ a. a) (79 + 80 * 24) (b'A' + 512) 1919)
mon_putchar-printable_example = mon_putchar-printable b'A' corner 1919 corner-OnScreen refl

-- A tab goes to the next multiple of 8.
tab_runs : (type_char 0x09 (record corner { cursor_x = 17 })).cursor_x ≡ 24
unfolding type_char
tab_runs = refl

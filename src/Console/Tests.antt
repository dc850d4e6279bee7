-- ===== src/Console/Tests.antt =====
-- The console on a screen of 16 by 32 pixels.
use osvirt_project.Base.{ℕ, ◌+◌, ◌-◌, ◌*◌, ◌≤◌, ◌<◌, ◌≡◌, ok, arith}
use osvirt_project.Console.{Console, fb_scrollup, fb_output}
use osvirt_project.Console.Scroll.{fb_scrollup_lem}
use osvirt_project.Console.Cursor.{SameSizes, IsConsole, fb_output-IsConsole}

-- The cursor is past the last column of the last row.
abbrev screen : Console
screen = record { fb = λ q. q; width = 16; pos_x = 2; pos_y = 1; max_x = 2; max_y = 2 }

abbrev glyphs : ℕ → ℕ
glyphs n = 255

screen-IsConsole : IsConsole screen
screen-IsConsole = record {
  wide = omega arith;
  columns = omega arith;
  narrow = omega arith;
  rows = omega arith;
  short = omega arith;
  small = omega arith;
  column = omega arith;
  row = omega arith;
}

fb_scrollup_lem_example :
    (c : Console) × (fb_scrollup screen ≡ ok c)
    × ((q : ℕ) → q < 16 * ((2 - 1) * 16) → c.fb q ≡ q + 16 * 16)
    × ((q : ℕ) → 16 * ((2 - 1) * 16) ≤ q → q < 16 * (2 * 16) → c.fb q ≡ 0)
    × ((q : ℕ) → 16 * (2 * 16) ≤ q → c.fb q ≡ q)
fb_scrollup_lem_example = fb_scrollup_lem screen (omega arith) (omega arith) (omega arith)

fb_output-IsConsole_example :
    (c : Console) × (fb_output glyphs 65 screen ≡ ok c) × SameSizes screen c × IsConsole c
fb_output-IsConsole_example = fb_output-IsConsole glyphs 65 screen screen-IsConsole

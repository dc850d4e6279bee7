-- ===== src/Console.antt =====
-- The framebuffer console of fb.c. The glyphs of ascii_font.c are the parameter `font`, a byte for
-- each row of a character.
pub mod Scroll
pub mod Cursor
mod Tests
use osvirt_project.Base.{
  ℕ, zero, suc, ◌+◌, ◌-◌, ◌*◌, ◌/◌, ◌%◌, ◌^◌, Bool, ◌||◌, List, [], ◌∷◌, if◌then◌else◌, ◌==◌, leb,
  Run, ok, fault, ◌>>=◌, u32_mod, u64_mod,
}

-- `FONT_WIDTH` and `FONT_HEIGHT`.
abbrev pub font_width : ℕ
font_width = 8

abbrev pub font_height : ℕ
font_height = 16

-- The pixels and the private variables.
abbrev pub Pixels : Type 0
Pixels = ℕ → ℕ

pub record Console : Type 0 where
  pub fb : Pixels
  pub width : ℕ
  pub pos_x : ℕ
  pub pos_y : ℕ
  pub max_x : ℕ
  pub max_y : ℕ

abbrev pub put : ℕ → ℕ → Pixels → Pixels
put a v fb q = if q == a then v else fb q

-- The loops of `fb_scrollup`, with the rounds left.
unfoldable pub copy_up : (rounds cur row : ℕ) → Pixels → Pixels
copy_up zero cur row fb = fb
copy_up (suc k) cur row fb = copy_up k (cur + 1) row (put cur (fb (cur + row)) fb)

unfoldable pub clear_row : (rounds cur : ℕ) → Pixels → Pixels
clear_row zero cur fb = fb
clear_row (suc k) cur fb = clear_row k (cur + 1) (put cur 0 fb)

-- `Width * ((MaxY - 1) * FONT_HEIGHT)` and `Width * FONT_HEIGHT`, in `unsigned int`s.
abbrev pub count_of : Console → ℕ
count_of c = (c.width * (((c.max_y + u32_mod - 1) * font_height) % u32_mod)) % u32_mod

abbrev pub row_of : Console → ℕ
row_of c = (c.width * font_height) % u32_mod

-- `fb_scrollup`. Its loops test at the end: with nothing to move they run past all memory.
unfoldable pub fb_scrollup : Console → Run Console
fb_scrollup c =
    if (count_of c == 0) || (row_of c == 0)
    then fault
    else ok (record c {
      fb = clear_row (row_of c) (count_of c) (copy_up (count_of c) 0 (row_of c) c.fb);
    })

-- One row of a glyph: the highest bit first, as a pixel of all ones or of zeros.
unfoldable pub draw_bits : (rounds i bitmap cur : ℕ) → Pixels → Pixels
draw_bits zero i bitmap cur fb = fb
draw_bits (suc k) i bitmap cur fb =
    draw_bits k (i + 1) ((bitmap * 2) % 256) cur
      (put (cur + i) (if leb 128 bitmap then u32_mod - 1 else 0) fb)

unfoldable pub draw_rows : (rounds j cur : ℕ) → (ptr : ℕ → ℕ) → (width : ℕ) → Pixels → Pixels
draw_rows zero j cur ptr width fb = fb
draw_rows (suc k) j cur ptr width fb =
    draw_rows k (j + 1) (cur + width) ptr width (draw_bits font_width 0 (ptr j) cur fb)

-- `(size_t) PosX * FONT_WIDTH + (PosY * FONT_HEIGHT) * Width`.
abbrev pub cursor : Console → ℕ
cursor c = c.pos_x * font_width + (((c.pos_y * font_height) % u32_mod) * c.width) % u32_mod

-- The character that is drawn: `?` outside of ASCII.
abbrev pub shown : ℕ → ℕ
shown ch = if leb 128 ch then 63 else ch

abbrev pub wrap_line : ℕ → Console → Console
wrap_line ch c =
    if (ch == 10) || (c.pos_x == c.max_x)
    then record c { pos_x = 0; pos_y = (c.pos_y + 1) % u32_mod }
    else c

unfoldable pub scroll_if_full : Console → Run Console
scroll_if_full c =
    if c.pos_y == c.max_y
    then fb_scrollup (record c { pos_y = (c.pos_y + u32_mod - 1) % u32_mod })
    else ok c

module _ (font : ℕ → ℕ) where
  unfoldable pub draw_char : ℕ → Console → Console
  draw_char ch c = record c {
    fb = draw_rows font_height 0 (cursor c) (λ j. font (ch * font_height + j)) c.width c.fb;
    pos_x = (c.pos_x + 1) % u32_mod;
  }

  unfoldable pub fb_output : ℕ → Console → Run Console
  fb_output ch c =
      if ch == 0
      then ok c
      else (scroll_if_full (wrap_line (shown ch) c) >>= λ c'.
          if shown ch == 10 then ok c' else ok (draw_char (shown ch) c'))

  unfoldable pub fb_print : List ℕ → Console → Run Console
  fb_print [] c = ok c
  fb_print (ch ∷ text) c = fb_output ch c >>= fb_print text

  -- `fb_init`: a blank screen, and then the hello statement `text`.
  unfoldable pub fb_init : (text : List ℕ) (fb : Pixels) (width height : ℕ) → Run Console
  fb_init text fb width height = fb_print text (record {
    fb = clear_row ((width * height) % u64_mod) 0 fb;
    width = width;
    pos_x = 0;
    pos_y = 0;
    max_x = width / font_width;
    max_y = height / font_height;
  })

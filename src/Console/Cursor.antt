-- ===== src/Console/Cursor.antt =====
-- The cursor stays on the screen.
use osvirt_project.Base.{
  ℕ, ◌+◌, ◌-◌, ◌*◌, ◌%◌, ◌^◌, ◌≤◌, ◌<◌, ◌≡◌, refl, ap, ◌∙◌, inl, inr, false, ◌||◌, arith,
  if◌then◌else◌, ◌==◌, Bool-cases, ok, u32_mod, ◌>>=◌,
}
use osvirt_project.Console.{Console, scroll_if_full, wrap_line, shown, draw_char, fb_output}
use osvirt_project.Console.Scroll.{moved_up, fb_scrollup-run}

-- A screen of at least one column and two rows of text, with pixels that 32 bits count, and a cursor in
-- a row of it, past its last column at most.
pub record IsConsole (c : Console) : Type 0 where
  pub wide : 0 < c.width
  pub columns : 1 ≤ c.max_x
  pub narrow : c.max_x < 2 ^ 31
  pub rows : 2 ≤ c.max_y
  pub short : c.max_y < 2 ^ 31
  pub small : c.width * (c.max_y * 16) < 2 ^ 32
  pub column : c.pos_x ≤ c.max_x
  pub row : c.pos_y < c.max_y

-- The sizes stay.
abbrev pub SameSizes : Console → Console → Type 0
SameSizes c c' = (c'.width ≡ c.width) × (c'.max_x ≡ c.max_x) × (c'.max_y ≡ c.max_y)

scroll_if_full-SameSizes :
    (c : Console)
    → 0 < c.width
    → 2 ≤ c.max_y
    → c.max_y < 2 ^ 31
    → c.width * (c.max_y * 16) < 2 ^ 32
    → c.pos_y ≤ c.max_y
    → (c' : Console) × (scroll_if_full c ≡ ok c')
      × SameSizes c c'
      × (c'.pos_x ≡ c.pos_x)
      × (c'.pos_y < c.max_y)
unfolding scroll_if_full
scroll_if_full-SameSizes c wide rows short small row = elim (Bool-cases (c.pos_y == c.max_y)) [
  | inl e ↦
      let back : (c.pos_y + u32_mod - 1) % u32_mod ≡ c.max_y - 1 = ground arith in
      let c1 : Console = record c { pos_y = c.max_y - 1 } in
      (
        record c1 { fb = moved_up c1 },
        rw (scroll_if_full, e, back) (fb_scrollup-run c1 wide rows small),
        (refl, refl, refl),
        refl,
        omega arith,
      )
  | inr e ↦ (c, rw (scroll_if_full, e) refl, (refl, refl, refl), refl, ground arith)
]

wrapped :
    (ch : ℕ) (c : Console)
    → IsConsole c
    → SameSizes c (wrap_line ch c)
      × ((wrap_line ch c).pos_x < c.max_x)
      × ((wrap_line ch c).pos_y ≤ c.max_y)
wrapped ch c is =
    let columns = is.columns in
    let column = is.column in
    let row = is.row in
    let short = is.short in
    elim (Bool-cases ((ch == 10) || (c.pos_x == c.max_x))) [
      | inl e ↦ rw e ((refl, refl, refl), omega arith, omega arith)
      | inr e ↦ rw e ((refl, refl, refl), ground arith, omega arith)
    ]

-- The invariant reads sizes and cursor only.
IsConsole-moved :
    (c c' : Console)
    → IsConsole c
    → SameSizes c c'
    → c'.pos_x ≤ c.max_x
    → c'.pos_y < c.max_y
    → IsConsole c'
IsConsole-moved c c' is (w, x, y) column row = record {
  wide = rw w is.wide;
  columns = rw x is.columns;
  narrow = rw x is.narrow;
  rows = rw y is.rows;
  short = rw y is.short;
  small = rw (w, y) is.small;
  column = rw x column;
  row = rw y row;
}

module _ (font : ℕ → ℕ) where
  output_run :
      (ch : ℕ) (c c1 : Console)
      → (ch == 0) ≡ false
      → scroll_if_full (wrap_line (shown ch) c) ≡ ok c1
      → fb_output font ch c ≡ (if shown ch == 10 then ok c1 else ok (draw_char font (shown ch) c1))
  unfolding fb_output
  output_run ch c c1 e run = rw (fb_output, e, run, ◌>>=◌) refl

  -- `fb_output` of any character, on a screen of a pixel, a column and two rows of text at least, with
  -- fewer than 2 ^ 31 columns and rows, pixels that 32 bits count and the cursor in place: it returns, keeps the screen's sizes, and leaves the
  -- cursor in a row of the screen and past its last column at most.
  pub fb_output-IsConsole :
      (ch : ℕ) (c : Console)
      → IsConsole c
      → (c' : Console) × (fb_output font ch c ≡ ok c') × SameSizes c c' × IsConsole c'
  unfolding fb_output draw_char
  fb_output-IsConsole ch c is = elim (Bool-cases (ch == 0)) [
    | inl e ↦ (c, rw (fb_output, e) refl, (refl, refl, refl), is)
    | inr e ↦
        let narrow = is.narrow in
        let (same, left, down) = wrapped (shown ch) c is in
        let (c1, run, same1, x, y) =
          scroll_if_full-SameSizes (wrap_line (shown ch) c) (rw same.0 is.wide) (rw same.2 is.rows)
            (rw same.2 is.short) (rw (same.0, same.2) is.small) (rw same.2 down) in
        let sizes : SameSizes c c1 = (same1.0 ∙ same.0, same1.1 ∙ same.1, same1.2 ∙ same.2) in
        elim (Bool-cases (shown ch == 10)) [
          | inl nl ↦ (
            c1,
            output_run ch c c1 e run
                ∙ ap (λ t. if t then ok c1 else ok (draw_char font (shown ch) c1)) nl,
            sizes,
            IsConsole-moved c c1 is sizes (omega arith) (omega arith),
          )
          | inr nl ↦ (
            draw_char font (shown ch) c1,
            output_run ch c c1 e run
                ∙ ap (λ t. if t then ok c1 else ok (draw_char font (shown ch) c1)) nl,
            sizes,
            IsConsole-moved c (draw_char font (shown ch) c1) is sizes (omega arith) (omega arith),
          )
        ]
  ]

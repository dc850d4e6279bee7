-- ===== src/Console/Scroll.antt =====
-- What scrolling does to the pixels.
use osvirt_project.Base.{
  ℕ, zero, suc, ◌+◌, ◌-◌, ◌*◌, ◌%◌, ◌^◌, ◌≤◌, ◌<◌, ◌≡◌, ap, ◌∙◌, ◌&&◌, arith, if◌then◌else◌, ltb,
  leb, ok, u32_mod,
}
use osvirt_project.Console.{Pixels, put, copy_up, clear_row, Console, fb_scrollup}

-- The loop that moves cells down by `row` reads none that it has written.
copy_up-cells :
    (rounds cur row : ℕ) (fb : Pixels) (q : ℕ)
    → 0 < row
    → copy_up rounds cur row fb q
      ≡ (if leb cur q && ltb q (cur + rounds) then fb (q + row) else fb q)
unfolding copy_up
copy_up-cells zero cur row fb q pos = ground arith
copy_up-cells (suc k) cur row fb q pos =
    let rest = copy_up-cells k (cur + 1) row (put cur (fb (cur + row)) fb) q pos in ground arith

clear_row-cells :
    (rounds cur : ℕ) (fb : Pixels) (q : ℕ)
    → clear_row rounds cur fb q ≡ (if leb cur q && ltb q (cur + rounds) then 0 else fb q)
unfolding clear_row
clear_row-cells zero cur fb q = ground arith
clear_row-cells (suc k) cur fb q =
    let rest = clear_row-cells k (cur + 1) (put cur 0 fb) q in ground arith

one_more : (w a : ℕ) → w * ((a + 1) * 16) ≡ w * (a * 16) + w * 16
one_more w a = grind arith

sizes :
    (w m : ℕ)
    → 0 < w
    → 2 ≤ m
    → w * (m * 16) < 2 ^ 32
    → ((w * (((m + u32_mod - 1) * 16) % u32_mod)) % u32_mod ≡ w * ((m - 1) * 16))
      × ((w * 16) % u32_mod ≡ w * 16)
      × (w * (m * 16) ≡ w * ((m - 1) * 16) + w * 16)
      × (0 < w * ((m - 1) * 16))
sizes w m wide rows small =
    let same : m ≡ m - 1 + 1 = omega arith in
    let parts = ap (λ x. w * (x * 16)) same ∙ one_more w (m - 1) in
    let tall : m * 16 ≤ w * (m * 16) = grind arith in
    let pos : 0 < w * ((m - 1) * 16) = grind arith in
    let inner : ((m + u32_mod - 1) * 16) % u32_mod ≡ (m - 1) * 16 = omega arith in
    (rw inner (omega arith), omega arith, parts, pos)

-- The pixels after scrolling.
abbrev pub moved_up : Console → Pixels
moved_up c =
    clear_row (c.width * 16) (c.width * ((c.max_y - 1) * 16))
      (copy_up (c.width * ((c.max_y - 1) * 16)) 0 (c.width * 16) c.fb)

pub fb_scrollup-run :
    (c : Console)
    → 0 < c.width
    → 2 ≤ c.max_y
    → c.width * (c.max_y * 16) < 2 ^ 32
    → fb_scrollup c ≡ ok (record c { fb = moved_up c })
unfolding fb_scrollup
fb_scrollup-run c wide rows small =
    let (count, row, parts, some_rows) = sizes c.width c.max_y wide rows small in
    rw (fb_scrollup, count, row) (ground arith)

-- `fb_scrollup` on a screen that has a width and at least two rows of text, with pixels that 32 bits count: every row
-- of text moves up by one, the last row is blank, and the pixels behind it stay.
pub fb_scrollup_lem :
    (c : Console)
    → 0 < c.width
    → 2 ≤ c.max_y
    → c.width * (c.max_y * 16) < 2 ^ 32
    → (c' : Console) × (fb_scrollup c ≡ ok c')
      × ((q : ℕ) → q < c.width * ((c.max_y - 1) * 16) → c'.fb q ≡ c.fb (q + c.width * 16))
      × ((q : ℕ) → c.width * ((c.max_y - 1) * 16) ≤ q → q < c.width * (c.max_y * 16) → c'.fb q ≡ 0)
      × ((q : ℕ) → c.width * (c.max_y * 16) ≤ q → c'.fb q ≡ c.fb q)
fb_scrollup_lem c wide rows small =
    let (count, row, parts, some_rows) = sizes c.width c.max_y wide rows small in
    let n = c.width * ((c.max_y - 1) * 16) in
    let r = c.width * 16 in
    let cells : (q : ℕ)
        → clear_row r n (copy_up n 0 r c.fb) q ≡ (
            if leb n q && ltb q (n + r)
            then 0
            else (if leb 0 q && ltb q (0 + n) then c.fb (q + r) else c.fb q)) =
      λ q.
        clear_row-cells r n (copy_up n 0 r c.fb) q
        ∙ ap (λ v. if leb n q && ltb q (n + r) then 0 else v)
            (copy_up-cells n 0 r c.fb q (omega arith)) in
    (
      record c { fb = moved_up c },
      fb_scrollup-run c wide rows small,
      (λ q lo. cells q ∙ ground arith),
      (λ q lo hi. cells q ∙ ground arith),
      (λ q lo. cells q ∙ ground arith),
    )

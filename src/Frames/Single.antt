-- ===== src/Frames/Single.antt =====
-- One page frame at a time, by index: what a page's move changes, and that nothing else happens.
use osvirt_project.Base.{
  ℕ, ◌+◌, ◌%◌, ◌*◌, ◌/◌, ◌≡◌, refl, ◌≢◌, ◌<◌, ◌-◌, Bool, true, false, Option, none, some, arith,
  if◌then◌else◌, get_elem?, get_elem?-set_self, get_elem?-set_ne, Run, ok, length, length-set,
  u32_mod, u64_mod, page_size,
}
use osvirt_project.Frames.{
  PageInfo, Frames, Flag, inuse, reserved, flag, with_flag, frame_index, page_at, take_page,
  drop_page,
}

pub flag-with_flag : (fl : Flag) (v : Bool) (p : PageInfo) → flag fl (with_flag fl v p) ≡ v
flag-with_flag inuse v p = refl
flag-with_flag reserved v p = refl

-- Writing back the bit that an entry had restores the entry.
pub with_flag-with_flag :
    (fl : Flag) (v w : Bool) (p : PageInfo) → flag fl p ≡ w → with_flag fl w (with_flag fl v p) ≡ p
with_flag-with_flag inuse v w p e = ground arith
with_flag-with_flag reserved v w p e = ground arith

-- The counters after `n` pages were taken (`true`) or released (`false`).
abbrev pub free_after : Bool → ℕ → ℕ → ℕ
free_after true n m = (m + n * (u32_mod - page_size)) % u32_mod
free_after false n m = (m + n * page_size) % u32_mod

abbrev pub used_after : Bool → ℕ → ℕ → ℕ
used_after true n m = (m + n * page_size) % u32_mod
used_after false n m = (m + n * (u32_mod - page_size)) % u32_mod

-- The state after one page's bit was written.
abbrev pub moved_page : Flag → Bool → ℕ → PageInfo → Frames → Frames
moved_page fl v i p f = record f {
  info = osvirt_project.Base.set f.info i (with_flag fl v p);
  free_memory = free_after v 1 f.free_memory;
  used_memory = used_after v 1 f.used_memory;
}

-- A page's address, back to its index: no wrap below the end of the address space.
frame_index-page_at :
    (addr i : ℕ)
    → addr + i * page_size < u64_mod
    → frame_index (page_at addr i) ≡ frame_index addr + i
frame_index-page_at addr i h = omega arith

module _ (fl : Flag) (addr : ℕ) (f : Frames) (i : ℕ) (p : PageInfo) where
  pub take_page-clear :
      frame_index addr ≡ i
      → get_elem? f.info i ≡ some p
      → flag fl p ≡ false
      → take_page fl addr f ≡ ok (0, moved_page fl true i p f)
  unfolding take_page
  take_page-clear at held e = ground arith

  pub take_page-set :
      frame_index addr ≡ i
      → get_elem? f.info i ≡ some p
      → flag fl p ≡ true
      → take_page fl addr f ≡ ok (1, f)
  unfolding take_page
  take_page-set at held e = ground arith

  pub drop_page-set :
      frame_index addr ≡ i
      → get_elem? f.info i ≡ some p
      → flag fl p ≡ true
      → drop_page fl addr f ≡ ok (0, moved_page fl false i p f)
  unfolding drop_page
  drop_page-set at held e = ground arith

-- The same at the `i`-th page from `addr` on.
module _ (fl : Flag) (addr i : ℕ) (f : Frames) (p : PageInfo)
    (fits : addr + i * page_size < u64_mod)
    (held : get_elem? f.info (frame_index addr + i) ≡ some p) where
  pub take_page_at-clear :
      flag fl p ≡ false
      → take_page fl (page_at addr i) f ≡ ok (0, moved_page fl true (frame_index addr + i) p f)
  take_page_at-clear =
      take_page-clear fl (page_at addr i) f (frame_index addr + i) p
        (frame_index-page_at addr i fits) held

  pub take_page_at-set : flag fl p ≡ true → take_page fl (page_at addr i) f ≡ ok (1, f)
  take_page_at-set =
      take_page-set fl (page_at addr i) f (frame_index addr + i) p (frame_index-page_at addr i fits)
        held

  pub drop_page_at-set :
      flag fl p ≡ true
      → drop_page fl (page_at addr i) f ≡ ok (0, moved_page fl false (frame_index addr + i) p f)
  drop_page_at-set =
      drop_page-set fl (page_at addr i) f (frame_index addr + i) p (frame_index-page_at addr i fits)
        held

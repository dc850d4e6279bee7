-- ===== src/Frames/Returns.antt =====
-- The functions that reserve and allocate page frames return inside of the table, and keep the table's size and
-- the count of its memory.
use osvirt_project.Base.{
  ℕ, suc, ◌+◌, ◌*◌, ◌≤◌, ◌<◌, ◌≡◌, refl, inl, inr, Bool, true, List, [], ◌∷◌, arith, if◌then◌else◌,
  ap, Bool-cases, get_elem?, get_elem?-some, length, length-set, Run, ok, u64_mod, page_size,
}
use mathlib.Core.Option
use osvirt_project.Frames.{
  PageInfo, Frames, Flag, inuse, reserved, flag, with_flag, frame_index, take_page, take_pages,
  reserve_page, reserve_pages, alloc_page, alloc_pages,
}
use osvirt_project.Frames.Single.{moved_page, take_page-clear, take_page-set}
use osvirt_project.Frames.Range.{in_range, take_pages-Moved}
use osvirt_project.Frames.Account.{IsAccounted, take_page-IsAccounted, take_from-IsAccounted}

-- Lists whose entries at each index are there or not alike.
length-pointwise :
    (c : ℕ → Bool) (w : PageInfo → PageInfo) (xs ys : List PageInfo)
    → ((j : ℕ) → get_elem? ys j ≡ (if c j then Option.map w (get_elem? xs j) else get_elem? xs j))
    → length ys ≡ length xs
length-pointwise c w [] [] same = refl
length-pointwise c w [] (y ∷ ys) same = let first = same 0 in ground arith
length-pointwise c w (x ∷ xs) [] same = let first = same 0 in ground arith
length-pointwise c w (x ∷ xs) (y ∷ ys) same =
    ap suc (length-pointwise (λ j. c (suc j)) w xs ys (λ j. same (suc j)))

-- A call returned, with a table of `n` entries that is accounted for.
abbrev pub Kept : (total n : ℕ) → Run (ℕ × Frames) → Type 0
Kept total n r = (x : ℕ × Frames) × (r ≡ ok x) × (length x.1.info ≡ n) × IsAccounted total x.1

module _ (fl : Flag) where
  take_pages-Kept :
      (total addr n : ℕ) (f : Frames)
      → addr + n * page_size ≤ u64_mod
      → frame_index addr + n ≤ length f.info
      → IsAccounted total f
      → Kept total (length f.info) (take_pages fl addr n f)
  unfolding take_pages
  take_pages-Kept total addr n f fits inside a =
      let used = a.used in
      elim (take_pages-Moved fl addr n f fits inside (a.word, omega arith)) [
        | inl (h, run, clear, moved) ↦ (
          (0, h),
          run,
          length-pointwise (in_range (frame_index addr) n) (with_flag fl true) f.info h.info
              moved.info,
          take_from-IsAccounted total fl addr n 0 f run a,
        )
        | inr refused ↦ ((1, f), refused.0, refl, a)
      ]

  take_page-Kept :
      (total addr : ℕ) (f : Frames)
      → frame_index addr < length f.info
      → IsAccounted total f
      → Kept total (length f.info) (take_page fl addr f)
  take_page-Kept total addr f inside a =
      let (p, held) = get_elem?-some f.info (frame_index addr) inside in
      elim (Bool-cases (flag fl p)) [
        | inl set ↦ ((1, f), take_page-set fl addr f (frame_index addr) p refl held set, refl, a)
        | inr clear ↦
            let run = take_page-clear fl addr f (frame_index addr) p refl held clear in
            (
              (0, moved_page fl true (frame_index addr) p f),
              run,
              length-set f.info (frame_index addr) (with_flag fl true p),
              take_page-IsAccounted total fl addr f run a,
            )
      ]

pub reserve_pages-Kept :
    (total addr n : ℕ) (f : Frames)
    → addr + n * page_size ≤ u64_mod
    → frame_index addr + n ≤ length f.info
    → IsAccounted total f
    → Kept total (length f.info) (reserve_pages addr n f)
unfolding reserve_pages
reserve_pages-Kept = take_pages-Kept reserved

pub reserve_page-Kept :
    (total addr : ℕ) (f : Frames)
    → frame_index addr < length f.info
    → IsAccounted total f
    → Kept total (length f.info) (reserve_page addr f)
unfolding reserve_page
reserve_page-Kept = take_page-Kept reserved

pub alloc_pages-Kept :
    (total addr n : ℕ) (f : Frames)
    → addr + n * page_size ≤ u64_mod
    → frame_index addr + n ≤ length f.info
    → IsAccounted total f
    → Kept total (length f.info) (alloc_pages addr n f)
unfolding alloc_pages
alloc_pages-Kept = take_pages-Kept inuse

pub alloc_page-Kept :
    (total addr : ℕ) (f : Frames)
    → frame_index addr < length f.info
    → IsAccounted total f
    → Kept total (length f.info) (alloc_page addr f)
unfolding alloc_page
alloc_page-Kept = take_page-Kept inuse

-- ===== src/Frames/Request.antt =====
-- `request_page`: which page it returns.
use osvirt_project.Base.{
  ℕ, zero, suc, ◌+◌, ◌*◌, ◌%◌, ◌≤◌, ◌<◌, ◌≡◌, refl, ◌⊎◌, inl, inr, true, false, ◌||◌, none, some,
  List, [], ◌∷◌, arith, Bool-cases, Option-cases, get_elem?, get_elem?-lt, length, ap, ◌∙◌, Run, ok,
  u64_mod, page_size,
}
use osvirt_project.Frames.{PageInfo, Frames, inuse, alloc_page, first_free, request_page}
use osvirt_project.Frames.Single.{moved_page, take_page-clear}

abbrev pub Busy : PageInfo → Type 0
Busy p = (p.inuse || p.reserved) ≡ true

-- Every entry below index `n` is in use or reserved.
abbrev pub BusyBelow : List PageInfo → ℕ → Type 0
BusyBelow ps n = (j : ℕ) → j < n → (p : PageInfo) × (get_elem? ps j ≡ some p) × Busy p

first_free-none : (ps : List PageInfo) (i : ℕ) → first_free ps i ≡ none → BusyBelow ps (length ps)
unfolding first_free
first_free-none [] i e j h = elim h [ ]
first_free-none (p ∷ ps) i e zero h = (p, refl, ground arith)
first_free-none (p ∷ ps) i e (suc j) h = first_free-none ps (i + 1) (ground arith) j (omega arith)

BusyBelow-cons :
    (p : PageInfo) (ps : List PageInfo) (n : ℕ)
    → Busy p
    → BusyBelow ps n
    → BusyBelow (p ∷ ps) (suc n)
BusyBelow-cons p ps n b below zero h = (p, refl, b)
BusyBelow-cons p ps n b below (suc j) h = below j (omega arith)

-- The first entry that `first_free` finds, with the index it counts to.
abbrev pub FirstFree : List PageInfo → ℕ → ℕ → Type 0
FirstFree ps i k =
    (j : ℕ) × (p : PageInfo) × (k ≡ i + j)
    × (get_elem? ps j ≡ some p)
    × ((p.inuse || p.reserved) ≡ false)
    × BusyBelow ps j

first_free-some : (ps : List PageInfo) (i k : ℕ) → first_free ps i ≡ some k → FirstFree ps i k
unfolding first_free
first_free-some [] i k e = ground arith
first_free-some (p ∷ ps) i k e = elim (Bool-cases (p.inuse || p.reserved)) [
  | inl busy ↦
      let (j, q, at, held, idle, below) = first_free-some ps (i + 1) k (rw busy at e) in
      (suc j, q, omega arith, held, idle, BusyBelow-cons p ps j busy below)
  | inr idle ↦ (0, p, ground arith, refl, idle, λ j h. elim h [ ])
]

-- What `request_page` returns on a table of `f`: every page is taken and it returns `NULL`, or it
-- returns the address of the lowest page that is neither in use nor reserved and marks that page.
abbrev pub Requested : Frames → Run (ℕ × Frames) → Type 0
Requested f r =
    (BusyBelow f.info (length f.info) × (r ≡ ok (0, f)))
    ⊎ ((i : ℕ) × (p : PageInfo) × (get_elem? f.info i ≡ some p)
        × ((p.inuse || p.reserved) ≡ false)
        × BusyBelow f.info i
        × (r ≡ ok (i * page_size, moved_page inuse true i p f)))

request_page-hit :
    (f : Frames) (i : ℕ) (p : PageInfo)
    → length f.info * page_size ≤ u64_mod
    → first_free f.info 0 ≡ some i
    → get_elem? f.info i ≡ some p
    → (p.inuse || p.reserved) ≡ false
    → request_page f ≡ ok (i * page_size, moved_page inuse true i p f)
unfolding request_page alloc_page
request_page-hit f i p small first held idle =
    let inside = get_elem?-lt f.info i p held in
    let wrap : (i * page_size) % u64_mod ≡ i * page_size = omega arith in
    rw (
      first,
      request_page,
      wrap,
      take_page-clear inuse (i * page_size) f i p (omega arith) held (ground arith),
    )

-- `request_page` never faults. It returns `NULL` and changes nothing exactly when every page of
-- the table is in use or reserved. Else it returns the lowest page that is neither, marks it in
-- use and moves one page between the counters. The table's pages lie below 2 ^ 64.
pub request_page_lowest :
    (f : Frames) → length f.info * page_size ≤ u64_mod → Requested f (request_page f)
unfolding request_page
request_page_lowest f small = elim (Option-cases (first_free f.info 0)) [
  | inl out ↦ inl (first_free-none f.info 0 out, rw (out, request_page))
  | inr hit ↦
      let (j, p, at, held, idle, below) = first_free-some f.info 0 hit.0 hit.1 in
      let same : hit.0 ≡ j = omega arith in
      inr (j, p, held, idle, below, request_page-hit f j p small (hit.1 ∙ ap some same) held idle)
]

-- ===== src/Frames.antt =====
-- The page frame allocator of allocator.c: `page_info_t`, `page_properties_t`, the two counters,
-- and the functions that take and release page frames.
pub mod Single
pub mod Range
pub mod Account
pub mod Request
pub mod Show
pub mod Returns
mod Tests
use osvirt_project.Base.{
  ℕ, zero, suc, ◌+◌, ◌-◌, ◌*◌, ◌/◌, ◌%◌, ◌≡◌, refl, Bool, true, false, ◌||◌, Option, none, some,
  List, [], ◌∷◌, if◌then◌else◌, ◌==◌, get_elem?, set, Run, ok, fault, ◌>>=◌, u64_mod, u32_mod,
  page_size,
}

-- `page_info_t`, less its padding.
pub record PageInfo : Type 0 where
  pub inuse : Bool
  pub reserved : Bool

-- `properties_ptr.info_buffer` with its `properties_ptr.size` entries, and the counters, which are
-- C `int`s: they keep 32 bits of what is added to them.
pub record Frames : Type 0 where
  pub info : List PageInfo
  pub free_memory : ℕ
  pub used_memory : ℕ

-- The bit that a function tests and writes: `inuse` for alloc and free, `reserved` for reserve and
-- unreserve.
pub data Flag : Type 0 where
  inuse reserved : Flag

abbrev pub flag : Flag → PageInfo → Bool
flag inuse p = p.inuse
flag reserved p = p.reserved

abbrev pub with_flag : Flag → Bool → PageInfo → PageInfo
with_flag inuse v p = record p { inuse = v }
with_flag reserved v p = record p { reserved = v }

-- `free_memory -= PAGESIZE` and `+= PAGESIZE`, kept to an `int`.
abbrev pub debit : ℕ → ℕ
debit m = (m + u32_mod - page_size) % u32_mod

abbrev pub credit : ℕ → ℕ
credit m = (m + page_size) % u32_mod

-- `(uint64_t)addr >> PAGESHIFT`.
abbrev pub frame_index : ℕ → ℕ
frame_index addr = addr / page_size

-- `alloc_page` and `__reserve_page`: 1 if the bit is set already.
unfoldable pub take_page : Flag → ℕ → Frames → Run (ℕ × Frames)
take_page fl addr f = elim (get_elem? f.info (frame_index addr)) [
  | none ↦ fault
  | some p ↦
      if flag fl p
      then ok (1, f)
      else ok (
        0,
        record f {
          info = set f.info (frame_index addr) (with_flag fl true p);
          free_memory = debit f.free_memory;
          used_memory = credit f.used_memory;
        },
      )
]

-- `free_page` and `__unreserve_page`: 1 if the bit is clear already.
unfoldable pub drop_page : Flag → ℕ → Frames → Run (ℕ × Frames)
drop_page fl addr f = elim (get_elem? f.info (frame_index addr)) [
  | none ↦ fault
  | some p ↦
      if flag fl p
      then ok (
        0,
        record f {
          info = set f.info (frame_index addr) (with_flag fl false p);
          free_memory = credit f.free_memory;
          used_memory = debit f.used_memory;
        },
      )
      else ok (1, f)
]

-- `(uint64_t)addr + (i * PAGESIZE)`.
abbrev pub page_at : ℕ → ℕ → ℕ
page_at addr i = (addr + i * page_size) % u64_mod

-- The loop of `free_pages` and `__unreserve_pages`, with the rounds left and `i`.
unfoldable pub drop_from : Flag → ℕ → (rounds i : ℕ) → Frames → Run Frames
drop_from fl addr zero i f = ok f
drop_from fl addr (suc k) i f =
    drop_page fl (page_at addr i) f >>= λ r. drop_from fl addr k (i + 1) r.1

unfoldable pub drop_pages : Flag → ℕ → ℕ → Frames → Run (ℕ × Frames)
drop_pages fl addr num_pages f = drop_from fl addr num_pages 0 f >>= λ f'. ok (0, f')

-- The loop of `alloc_pages` and `__reserve_pages`: on a failure the pages before it are released.
unfoldable pub take_from : Flag → ℕ → (rounds i : ℕ) → Frames → Run (ℕ × Frames)
take_from fl addr zero i f = ok (0, f)
take_from fl addr (suc k) i f = take_page fl (page_at addr i) f >>= λ r. elim (r.0 == 0) [
  | true ↦ take_from fl addr k (i + 1) r.1
  | false ↦ drop_pages fl addr i r.1 >>= λ s. ok (1, s.1)
]

unfoldable pub take_pages : Flag → ℕ → ℕ → Frames → Run (ℕ × Frames)
take_pages fl addr num_pages f = take_from fl addr num_pages 0 f

-- The functions under their C names.
unfoldable pub alloc_page : ℕ → Frames → Run (ℕ × Frames)
alloc_page = take_page inuse

unfoldable pub free_page : ℕ → Frames → Run (ℕ × Frames)
free_page = drop_page inuse

unfoldable pub reserve_page : ℕ → Frames → Run (ℕ × Frames)
reserve_page = take_page reserved

unfoldable pub unreserve_page : ℕ → Frames → Run (ℕ × Frames)
unreserve_page = drop_page reserved

unfoldable pub alloc_pages : ℕ → ℕ → Frames → Run (ℕ × Frames)
alloc_pages = take_pages inuse

unfoldable pub free_pages : ℕ → ℕ → Frames → Run (ℕ × Frames)
free_pages = drop_pages inuse

unfoldable pub reserve_pages : ℕ → ℕ → Frames → Run (ℕ × Frames)
reserve_pages = take_pages reserved

unfoldable pub unreserve_pages : ℕ → ℕ → Frames → Run (ℕ × Frames)
unreserve_pages = drop_pages reserved

-- The loop of `request_page` over the entries from index `i` on: the first that has neither bit.
unfoldable pub first_free : List PageInfo → ℕ → Option ℕ
first_free [] i = none
first_free (p ∷ ps) i =
    let rest = first_free ps (i + 1) in if p.inuse || p.reserved then rest else some i

-- `request_page`: the address of the page that it takes, or `NULL`, which is 0.
unfoldable pub request_page : Frames → Run (ℕ × Frames)
request_page f = elim (first_free f.info 0) [
  | none ↦ ok (0, f)
  | some i ↦ alloc_page ((i * page_size) % u64_mod) f >>= λ r. ok ((i * page_size) % u64_mod, r.1)
]

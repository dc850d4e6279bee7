-- ===== src/Frames/Account.antt =====
-- The counters `free_memory` and `used_memory` against the bits that are set.
use osvirt_project.Base.{
  ℕ, zero, suc, ◌+◌, ◌*◌, ◌%◌, ◌<◌, ◌≡◌, inl, inr, Bool, true, false, some, List, [], ◌∷◌, arith,
  Bool-cases, Option-cases, ◌==◌, get_elem?, set, Run, ok, ◌>>=◌, >>=-eq-ok, u32_mod, u64_mod,
  page_size,
}
use osvirt_project.Frames.{
  PageInfo, Frames, Flag, inuse, reserved, flag, with_flag, frame_index, page_at, take_page,
  drop_page, drop_from, drop_pages, take_from, take_pages, alloc_page, free_page, reserve_page,
  unreserve_page, alloc_pages, free_pages, reserve_pages, unreserve_pages, request_page, first_free,
}

abbrev pub bit : Bool → ℕ
bit true = 1
bit false = 0

-- The number of bits that are set, both flags together.
unfoldable pub count_set : List PageInfo → ℕ
count_set [] = 0
count_set (p ∷ ps) = bit p.inuse + bit p.reserved + count_set ps

-- The used counter is the memory of the set bits, and the two counters make up the total, all
-- in the 32 bits of an `int`.
pub record IsAccounted (total : ℕ) (f : Frames) : Type 0 where
  pub used : f.used_memory ≡ (page_size * count_set f.info) % u32_mod
  pub sum : (f.free_memory + f.used_memory) % u32_mod ≡ total % u32_mod
  pub word : f.free_memory < u32_mod

count_set-set :
    (fl : Flag) (v : Bool) (ps : List PageInfo) (i : ℕ) (p : PageInfo)
    → get_elem? ps i ≡ some p
    → count_set (set ps i (with_flag fl v p)) + bit (flag fl p) ≡ count_set ps + bit v
unfolding count_set
count_set-set fl v [] i p e = ground arith
count_set-set inuse v (q ∷ ps) zero p e = ground arith
count_set-set reserved v (q ∷ ps) zero p e = ground arith
count_set-set fl v (q ∷ ps) (suc i) p e = omega (arith, count_set-set fl v ps i p e)

module _ (total : ℕ) where
  pub take_page-IsAccounted :
      (fl : Flag) (addr : ℕ) (f : Frames) {r : ℕ × Frames}
      → take_page fl addr f ≡ ok r
      → IsAccounted total f
      → IsAccounted total r.1
  unfolding take_page
  take_page-IsAccounted fl addr f e a = elim (Option-cases (get_elem? f.info (frame_index addr))) [
    | inl out ↦ ground arith
    | inr hit ↦ ground (arith, count_set-set fl true f.info (frame_index addr) hit.0 hit.1)
  ]

  drop_page-IsAccounted :
      (fl : Flag) (addr : ℕ) (f : Frames) {r : ℕ × Frames}
      → drop_page fl addr f ≡ ok r
      → IsAccounted total f
      → IsAccounted total r.1
  unfolding drop_page
  drop_page-IsAccounted fl addr f e a = elim (Option-cases (get_elem? f.info (frame_index addr))) [
    | inl out ↦ ground arith
    | inr hit ↦ ground (arith, count_set-set fl false f.info (frame_index addr) hit.0 hit.1)
  ]

  drop_from-IsAccounted :
      (fl : Flag) (addr k i : ℕ) (f : Frames) {g : Frames}
      → drop_from fl addr k i f ≡ ok g
      → IsAccounted total f
      → IsAccounted total g
  unfolding drop_from
  drop_from-IsAccounted fl addr zero i f e a = ground arith
  drop_from-IsAccounted fl addr (suc k) i f e a =
      let (r, step, rest) = >>=-eq-ok (drop_page fl (page_at addr i) f) _ e in
      drop_from-IsAccounted fl addr k (i + 1) r.1 rest
        (drop_page-IsAccounted fl (page_at addr i) f step a)

  drop_pages-IsAccounted :
      (fl : Flag) (addr n : ℕ) (f : Frames) {r : ℕ × Frames}
      → drop_pages fl addr n f ≡ ok r
      → IsAccounted total f
      → IsAccounted total r.1
  unfolding drop_pages
  drop_pages-IsAccounted fl addr n f e a =
      let (g, run, rest) = >>=-eq-ok (drop_from fl addr n 0 f) _ e in
      let after = drop_from-IsAccounted fl addr n 0 f run a in ground arith

  pub take_from-IsAccounted :
      (fl : Flag) (addr k i : ℕ) (f : Frames) {r : ℕ × Frames}
      → take_from fl addr k i f ≡ ok r
      → IsAccounted total f
      → IsAccounted total r.1
  unfolding take_from
  take_from-IsAccounted fl addr zero i f e a = ground arith
  take_from-IsAccounted fl addr (suc k) i f e a =
      let (s, step, rest) = >>=-eq-ok (take_page fl (page_at addr i) f) _ e in
      let mid = take_page-IsAccounted fl (page_at addr i) f step a in
      elim (Bool-cases (s.0 == 0)) [
        | inl good ↦ take_from-IsAccounted fl addr k (i + 1) s.1 (rw good at rest) mid
        | inr bad ↦
            let (t, undo, done) = >>=-eq-ok (drop_pages fl addr i s.1) _ (rw bad at rest) in
            let after = drop_pages-IsAccounted fl addr i s.1 undo mid in ground arith
      ]

  request_page-IsAccounted :
      (f : Frames) {r : ℕ × Frames}
      → request_page f ≡ ok r
      → IsAccounted total f
      → IsAccounted total r.1
  unfolding request_page alloc_page
  request_page-IsAccounted f e a = elim (Option-cases (first_free f.info 0)) [
    | inl out ↦ ground arith
    | inr hit ↦
        let (s, step, done) =
          >>=-eq-ok (alloc_page ((hit.0 * page_size) % u64_mod) f)
            (λ s. ok ((hit.0 * page_size) % u64_mod, s.1)) (rw (hit.1, request_page) at e) in
        let after = take_page-IsAccounted inuse ((hit.0 * page_size) % u64_mod) f step a in
        ground arith
  ]

-- A call of one of the allocator's functions.
pub data Op : Type 0 where
  alloc free reserve unreserve : ℕ → Op
  alloc_many free_many reserve_many unreserve_many : ℕ → ℕ → Op
  request : Op

unfoldable pub exec : Op → Frames → Run (ℕ × Frames)
exec (alloc addr) = alloc_page addr
exec (free addr) = free_page addr
exec (reserve addr) = reserve_page addr
exec (unreserve addr) = unreserve_page addr
exec (alloc_many addr n) = alloc_pages addr n
exec (free_many addr n) = free_pages addr n
exec (reserve_many addr n) = reserve_pages addr n
exec (unreserve_many addr n) = unreserve_pages addr n
exec request = request_page

-- A sequence of calls, up to the first that goes outside of the table.
unfoldable pub exec_all : List Op → Frames → Run Frames
exec_all [] f = ok f
exec_all (o ∷ os) f = exec o f >>= λ r. exec_all os r.1

exec-IsAccounted :
    (total : ℕ) (o : Op) (f : Frames) {r : ℕ × Frames}
    → exec o f ≡ ok r
    → IsAccounted total f
    → IsAccounted total r.1
unfolding exec alloc_page free_page reserve_page unreserve_page alloc_pages free_pages reserve_pages
    unreserve_pages take_pages
exec-IsAccounted t (alloc addr) f = take_page-IsAccounted t inuse addr f
exec-IsAccounted t (free addr) f = drop_page-IsAccounted t inuse addr f
exec-IsAccounted t (reserve addr) f = take_page-IsAccounted t reserved addr f
exec-IsAccounted t (unreserve addr) f = drop_page-IsAccounted t reserved addr f
exec-IsAccounted t (alloc_many addr n) f = take_from-IsAccounted t inuse addr n 0 f
exec-IsAccounted t (free_many addr n) f = drop_pages-IsAccounted t inuse addr n f
exec-IsAccounted t (reserve_many addr n) f = take_from-IsAccounted t reserved addr n 0 f
exec-IsAccounted t (unreserve_many addr n) f = drop_pages-IsAccounted t reserved addr n f
exec-IsAccounted t request f = request_page-IsAccounted t f

-- Whatever sequence of the allocator's functions runs, rollbacks of failed requests included, the
-- used counter stays the memory of the set bits and the two counters make up the total, modulo
-- 2 ^ 32, if they did at the start.
pub exec_all-IsAccounted :
    (total : ℕ) (os : List Op) (f : Frames) {g : Frames}
    → exec_all os f ≡ ok g
    → IsAccounted total f
    → IsAccounted total g
unfolding exec_all
exec_all-IsAccounted t [] f e a = ground arith
exec_all-IsAccounted t (o ∷ os) f e a =
    let (r, step, rest) = >>=-eq-ok (exec o f) _ e in
    exec_all-IsAccounted t os r.1 rest (exec-IsAccounted t o f step a)

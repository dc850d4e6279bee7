-- ===== src/UserHeap/Tags.antt =====
-- Stores of tags: what is read back, and what is far enough to stay.
use osvirt_project.Base.{ℕ, ◌+◌, ◌*◌, ◌%◌, ◌^◌, ◌≤◌, ◌<◌, ◌≡◌, refl, ◌⊎◌, ◌∙◌, Bool, some, arith}
use osvirt_project.UserHeap.{Tag, tag, tag_size, Memory, store, Heap, mark}

-- Tags at the two addresses do not overlap.
abbrev pub Far : ℕ → ℕ → Type 0
Far a q = (q + tag_size ≤ a) ⊎ (a + tag_size ≤ q)

pub store-same : (a : ℕ) (t : Tag) (m : Memory) → store a t m a ≡ some t
unfolding store
store-same a t m = ground arith

pub store-Far : (a q : ℕ) (t : Tag) (m : Memory) → Far a q → store a t m q ≡ m q
unfolding store
store-Far a q t m h = ground arith

-- `mark_used` and `mark_free` with a size that 63 bits hold.
module _ (f : Bool) (cur n : ℕ) (h : Heap) (small : n < 2 ^ 63) where
  pub mark-header : (mark f cur n h).mem cur ≡ some (tag f n)
  unfolding mark
  mark-header =
      let fits : n % 2 ^ 63 ≡ n = omega arith in
      rw fits (
        store-Far (cur + tag_size + n) cur (tag f n) (store cur (tag f n) h.mem) (omega arith)
        ∙ store-same cur (tag f n) h.mem)

  pub mark-footer : (mark f cur n h).mem (cur + tag_size + n) ≡ some (tag f n)
  unfolding mark
  mark-footer =
      let fits : n % 2 ^ 63 ≡ n = omega arith in
      rw fits (store-same (cur + tag_size + n) (tag f n) (store cur (tag f n) h.mem))

  -- Outside of the block, tags and all, nothing changes.
  pub mark-outside :
      (q : ℕ)
      → (q + tag_size ≤ cur) ⊎ (cur + n + tag_size * 2 ≤ q)
      → (mark f cur n h).mem q ≡ h.mem q
  unfolding mark
  mark-outside q far =
      let fits : n % 2 ^ 63 ≡ n = omega arith in
      rw fits (
        store-Far (cur + tag_size + n) q (tag f n) (store cur (tag f n) h.mem) (omega arith)
        ∙ store-Far cur q (tag f n) h.mem (omega arith))

  pub mark-rest :
      ((mark f cur n h).brk ≡ h.brk)
      × ((mark f cur n h).start_brk ≡ h.start_brk)
      × ((mark f cur n h).max_addr ≡ h.max_addr)
  unfolding mark
  mark-rest = (refl, refl, refl)

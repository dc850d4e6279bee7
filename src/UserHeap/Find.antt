-- ===== src/UserHeap/Find.antt =====
-- `find_block`: the first free block that is large enough.
use osvirt_project.Base.{
  ℕ, zero, suc, ◌+◌, ◌-◌, ◌*◌, ◌≤◌, ◌<◌, ◌≡◌, refl, ◌∙◌, inl, inr, true, false, ◌&&◌, some, List,
  [], ◌∷◌, arith, if◌then◌else◌, ◌==◌, leb, ok, ◌>>=◌, Bool-cases,
}
use osvirt_project.UserHeap.{Tag, tag, tag_size, Heap, get_next, load, find_from, find_block}
use osvirt_project.UserHeap.Blocks.{Block, span, Segment, Segment-end, IsHeap, IsHeap-extent}

-- The address of the first block in the list that is free and holds `n` bytes, or 0.
abbrev pub first_fit : (n a : ℕ) → List Block → ℕ
first_fit n a [] = 0
first_fit n a (b ∷ bs) = if b.0 && leb n b.1 then a else first_fit n (a + b.1 + tag_size * 2) bs

-- `get_next` off the fences.
pub get_next_inner :
    (h : Heap) (cur : ℕ) (t : Tag)
    → h.mem cur ≡ some t
    → ¬ (cur + tag_size ≡ h.brk)
    → ¬ (cur ≡ h.start_brk)
    → get_next cur h ≡ ok (cur + t.size + tag_size * 2)
unfolding get_next
get_next_inner h cur t here last first = ground arith

-- One turn of the walk over a tag.
module _ (k cur n : ℕ) (h : Heap) (t : Tag) (some_cur : ¬ (cur ≡ 0))
    (here : h.mem cur ≡ some t) where
  find_from_hit : (t.free && leb n t.size) ≡ true → find_from (suc k) cur n h ≡ ok cur
  unfolding find_from
  find_from_hit e =
      let zero_no : (cur == 0) ≡ false = ground arith in rw (find_from, zero_no, load, here, e) refl

  find_from_miss :
      (next : ℕ)
      → (t.free && leb n t.size) ≡ false
      → get_next cur h ≡ ok next
      → find_from (suc k) cur n h ≡ find_from k next n h
  unfolding find_from
  find_from_miss next e f =
      let zero_no : (cur == 0) ≡ false = ground arith in
      rw (find_from, zero_no, load, here, e, f, ◌>>=◌) refl

pub find_from-first_fit :
    (fuel a n : ℕ) (h : Heap) (bs : List Block)
    → Segment h.mem a bs (h.brk - tag_size)
    → h.mem (h.brk - tag_size) ≡ some (tag false 0)
    → h.start_brk < a
    → tag_size ≤ h.brk
    → span bs + 2 ≤ fuel
    → find_from fuel a n h ≡ ok (first_fit n a bs)
unfolding find_from get_next
find_from-first_fit zero a n h bs s last lo room enough = ground arith
find_from-first_fit (suc zero) a n h bs s last lo room enough = ground arith
find_from-first_fit (suc (suc k)) a n h [] s last lo room enough =
    let here : h.mem a ≡ some (tag false 0) = rw s last in
    let end : get_next a h ≡ ok 0 = ground arith in
    let stop : find_from (suc k) 0 n h ≡ ok 0 = ground arith in
    find_from_miss (suc k) a n h (tag false 0) (omega arith) here 0 refl end ∙ stop
find_from-first_fit (suc k) a n h (b ∷ bs) s last lo room enough =
    let ends = Segment-end h.mem (a + b.1 + tag_size * 2) (h.brk - tag_size) bs s.3 in
    let next = get_next_inner h a (tag b.0 b.1) s.0 (omega arith) (omega arith) in
    let here = s.0 in
    let rest =
      find_from-first_fit k (a + b.1 + tag_size * 2) n h bs s.3 last (omega arith) room
        (omega arith) in
    elim (Bool-cases (b.0 && leb n b.1)) [
      | inl e ↦ find_from_hit k a n h (tag b.0 b.1) (omega arith) here e ∙ ground arith
      | inr e ↦
          find_from_miss k a n h (tag b.0 b.1) (omega arith) here (a + b.1 + tag_size * 2) e next
          ∙ rest
          ∙ ground arith
    ]

-- On a heap of blocks `find_block` ends, at the first fit.
pub find_block-first_fit :
    (n : ℕ) (h : Heap) (bs : List Block)
    → IsHeap h bs
    → find_block n h ≡ ok (first_fit n (h.start_brk + tag_size) bs)
unfolding find_block find_from get_next
find_block-first_fit n h bs held =
    let (extent, small) = IsHeap-extent h bs held in
    let first = held.first in
    let above = held.above in
    let rest =
      find_from-first_fit (h.brk - h.start_brk + 1) (h.start_brk + tag_size) n h bs held.blocks
        held.last (omega arith) (omega arith) (omega arith) in
    let fuel : h.brk - h.start_brk + 2 ≡ suc (h.brk - h.start_brk + 1) = omega arith in
    let next : get_next h.start_brk h ≡ ok (h.start_brk + tag_size) = ground arith in
    rw fuel (
      find_from_miss (h.brk - h.start_brk + 1) h.start_brk n h (tag false 0) (omega arith) first
        (h.start_brk + tag_size) refl next
      ∙ rest)

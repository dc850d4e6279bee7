-- ===== src/UserHeap/Place.antt =====
-- `split`: what becomes of the block that was found.
use osvirt_project.Base.{
  ℕ, ◌+◌, ◌-◌, ◌*◌, ◌^◌, ◌≤◌, ◌<◌, ◌≡◌, refl, ◌∙◌, inl, inr, Bool, true, false, some, List, [], ◌∷◌,
  ◌++◌, arith, if◌then◌else◌, ltb, ok, ◌>>=◌, Bool-cases, ltb→lt,
}
use osvirt_project.UserHeap.{
  tag, tag_size, min_block_size, max_heap, Heap, load, mark, mark_used, mark_free, get_next, split,
  split_size_of, to_int, from_int,
}
use osvirt_project.UserHeap.Tags.{mark-header, mark-footer, mark-outside, mark-rest}
use osvirt_project.UserHeap.Blocks.{
  Block, span, span-append, at, SameLimits, Segment-split, IsHeap, IsHeap-extent, IsHeap-replace,
}
use osvirt_project.UserHeap.Find.{get_next_inner}

-- A used block of `n` bytes, and a free one of what is left if more than the least size is left.
abbrev pub placed : (n size : ℕ) → List Block
placed n size =
    if ltb min_block_size (size - n - tag_size * 2)
    then (false, n) ∷ (true, size - n - tag_size * 2) ∷ []
    else (false, size) ∷ []

-- One block of the heap: its tags and its bounds.
pub record Stands (h : Heap) (pre : List Block) (b : Block) : Type 0 where
  pub header : h.mem (at h pre) ≡ some (tag b.0 b.1)
  pub footer : h.mem (at h pre + tag_size + b.1) ≡ some (tag b.0 b.1)
  pub least : min_block_size ≤ b.1
  pub most : at h pre + b.1 + tag_size * 3 ≤ h.brk
  pub bounded : b.1 + tag_size * 4 + span pre ≤ max_heap

pub IsHeap-Stands :
    (h : Heap) (pre post : List Block) (b : Block) → IsHeap h (pre ++ (b ∷ post)) → Stands h pre b
IsHeap-Stands h pre post b held =
    let (extent, small) = IsHeap-extent h (pre ++ (b ∷ post)) held in
    let spans = span-append pre (b ∷ post) in
    let (front, back) =
      Segment-split h.mem (h.start_brk + tag_size) (h.brk - tag_size) pre (b ∷ post) held.blocks in
    record {
      header = back.0;
      footer = back.1;
      least = back.2;
      most = omega arith;
      bounded = omega arith;
    }

-- A stretch of blocks becomes one block of the same extent.
pub mark-IsHeap :
    (f : Bool) (n : ℕ) (h : Heap) (pre old post : List Block)
    → IsHeap h (pre ++ (old ++ post))
    → n + tag_size * 2 ≡ span old
    → min_block_size ≤ n
    → IsHeap (mark f (at h pre) n h) (pre ++ ((f, n) ∷ post))
mark-IsHeap f n h pre old post held equal least =
    let (extent, small) = IsHeap-extent h (pre ++ (old ++ post)) held in
    let spans = span-append pre (old ++ post) in
    let spans' = span-append old post in
    let fits : n < 2 ^ 63 = omega arith in
    IsHeap-replace h (mark f (at h pre) n h) pre old ((f, n) ∷ []) post held
      (mark-rest f (at h pre) n h fits) (omega arith)
      (mark-header f (at h pre) n h fits, mark-footer f (at h pre) n h fits, least, omega arith)
      (λ q far. mark-outside f (at h pre) n h fits q (omega arith))

-- A block becomes a used one and a free one behind it, which is the next of the first.
pub mark-mark-IsHeap :
    (n r : ℕ) (h : Heap) (pre post : List Block) (b : Block)
    → IsHeap h (pre ++ (b ∷ post))
    → min_block_size ≤ n
    → min_block_size ≤ r
    → n + tag_size * 2 + r ≡ b.1
    → (get_next (at h pre) (mark_used (at h pre) n h) ≡ ok (at h pre + n + tag_size * 2))
      × SameLimits h (mark_free (at h pre + n + tag_size * 2) r (mark_used (at h pre) n h))
      × IsHeap
          (mark_free (at h pre + n + tag_size * 2) r (mark_used (at h pre) n h))
          (pre ++ ((false, n) ∷ (true, r) ∷ post))
unfolding mark_used mark_free
mark-mark-IsHeap n r h pre post b held least least' equal =
    let stands = IsHeap-Stands h pre post b held in
    let small = stands.bounded in
    let most = stands.most in
    let fits : n < 2 ^ 63 = omega arith in
    let fits' : r < 2 ^ 63 = omega arith in
    let a = at h pre in
    let h1 = mark false a n h in
    let behind = a + n + tag_size * 2 in
    let (brks, starts, maxs) = mark-rest false a n h fits in
    let (brks', starts', maxs') = mark-rest true behind r h1 fits' in
    (
      get_next_inner h1 a (tag false n) (mark-header false a n h fits) (omega arith) (omega arith),
      (brks' ∙ brks, starts' ∙ starts, maxs' ∙ maxs),
      IsHeap-replace h (mark true behind r h1) pre (b ∷ []) ((false, n) ∷ (true, r) ∷ []) post held
          (brks' ∙ brks, starts' ∙ starts, maxs' ∙ maxs) (omega arith)
          (
            mark-outside true behind r h1 fits' a (omega arith) ∙ mark-header false a n h fits,
            mark-outside true behind r h1 fits' (a + tag_size + n) (omega arith)
                ∙ mark-footer false a n h fits,
            least,
            (
              mark-header true behind r h1 fits',
              mark-footer true behind r h1 fits',
              least',
              omega arith,
            ),
          )
          (λ q far.
            mark-outside true behind r h1 fits' q (omega arith)
            ∙ mark-outside false a n h fits q (omega arith)),
    )

pub split-IsHeap :
    (n : ℕ) (h : Heap) (pre post : List Block) (b : Block)
    → IsHeap h (pre ++ (b ∷ post))
    → min_block_size ≤ n
    → n ≤ b.1
    → (h' : Heap) × (split (at h pre) n h ≡ ok h')
      × SameLimits h h'
      × IsHeap h' (pre ++ (placed n b.1 ++ post))
unfolding split mark_used
split-IsHeap n h pre post b held least fits =
    let stands = IsHeap-Stands h pre post b held in
    let here = stands.header in
    let small = stands.bounded in
    let most = stands.most in
    let whole : from_int (to_int b.1) ≡ b.1 = ground arith in
    let part : from_int n ≡ n = ground arith in
    let left : split_size_of (to_int b.1) n ≡ b.1 - n - tag_size * 2 = ground arith in
    let left' : from_int (b.1 - n - tag_size * 2) ≡ b.1 - n - tag_size * 2 = ground arith in
    elim (Bool-cases (ltb min_block_size (b.1 - n - tag_size * 2))) [
      | inl e ↦
          let over = ltb→lt min_block_size (b.1 - n - tag_size * 2) e in
          let (seen, limits, held') =
            mark-mark-IsHeap n (b.1 - n - tag_size * 2) h pre post b held least (omega arith)
              (omega arith) in
          (
            mark_free (at h pre + n + tag_size * 2) (b.1 - n - tag_size * 2)
                (mark_used (at h pre) n h),
            rw (load, here, left, e, part, seen, left', ◌>>=◌) refl,
            limits,
            rw e held',
          )
      | inr e ↦ (
        mark_used (at h pre) b.1 h,
        rw (load, here, left, e, whole) refl,
        mark-rest false (at h pre) b.1 h (omega arith),
        rw e (mark-IsHeap false b.1 h pre (b ∷ []) post held (omega arith) (omega arith)),
      )
    ]

-- ===== src/UserHeap/Extend.antt =====
-- `extend_heap` and `mem_sbrk`: a new last block, and the end of the heap.
use osvirt_project.Base.{
  ℕ, ◌+◌, ◌-◌, ◌*◌, ◌%◌, ◌^◌, ◌≤◌, ◌<◌, ◌≡◌, refl, sym, ◌∙◌, true, false, List, [], ◌∷◌, ◌++◌,
  arith, if◌then◌else◌, ◌==◌, leb, ok, fault, ◌>>=◌, u64_mod,
}
use osvirt_project.UserHeap.{
  tag, tag_size, min_block_size, store, Heap, mark, mark_free, mem_sbrk, extend_heap, to_int,
}
use osvirt_project.UserHeap.Tags.{
  store-same, store-Far, mark-header, mark-footer, mark-outside, mark-rest,
}
use osvirt_project.UserHeap.Blocks.{
  Block, span, Segment-frame, Segment-append, IsHeap, IsHeap-extent,
}
use osvirt_project.UserHeap.Find.{get_next_inner}

-- The heap that a granted `mem_sbrk` leaves.
abbrev pub grown : (n : ℕ) → Heap → Heap
grown n h = record h { brk = h.brk + (n + 2 * tag_size) }

-- The heap with the new block and the new fence.
abbrev pub extended : (n : ℕ) → Heap → Heap
extended n h =
    let h1 = mark true (h.brk - tag_size) n (grown n h) in
    record (grown n h) { mem = store (h.brk + n + tag_size) (tag false 0) h1.mem }

pub mem_sbrk-ok :
    (w : ℕ) (h : Heap)
    → w < 2 ^ 31
    → h.brk + w ≤ h.max_addr
    → mem_sbrk w h ≡ (h.brk, record h { brk = h.brk + w })
unfolding mem_sbrk
mem_sbrk-ok w h small under = ground arith

pub mem_sbrk-null : (w : ℕ) (h : Heap) → h.max_addr < h.brk + w → mem_sbrk w h ≡ (0, h)
unfolding mem_sbrk
mem_sbrk-null w h over = ground arith

-- The increment that `extend_heap` asks for.
wanted :
    (n : ℕ)
    → min_block_size ≤ n
    → n + tag_size * 2 < 2 ^ 31
    → to_int (
        if leb min_block_size ((n + 2 * tag_size) % u64_mod)
        then (n + 2 * tag_size) % u64_mod
        else min_block_size)
      ≡ n + 2 * tag_size
wanted n least small = ground arith

module _ (n : ℕ) (h : Heap) (bs : List Block) (held : IsHeap h bs)
    (least : min_block_size ≤ n) where
  -- Past the limit the pointer that `mem_sbrk` returns is not one.
  pub extend_heap-fault :
      h.max_addr < h.brk + n + tag_size * 2 → n + tag_size * 2 < 2 ^ 31 → extend_heap n h ≡ fault
  unfolding extend_heap mem_sbrk
  extend_heap-fault over small =
      let null = mem_sbrk-null (n + 2 * tag_size) h (omega arith) in
      rw (extend_heap, wanted n least small, null) refl

  pub extend_heap-ok :
      h.brk + n + tag_size * 2 ≤ h.max_addr → extend_heap n h ≡ ok (h.brk - tag_size, extended n h)
  unfolding extend_heap mem_sbrk mark_free
  extend_heap-ok under =
      let room = held.room in
      let extent = held.extent in
      let above = held.above in
      let small : n + tag_size * 2 < 2 ^ 31 = omega arith in
      let sbrk = mem_sbrk-ok (n + 2 * tag_size) h (omega arith) (omega arith) in
      let some_brk : (h.brk == 0) ≡ false = ground arith in
      let h1 = mark true (h.brk - tag_size) n (grown n h) in
      let (brks, starts, maxs) = mark-rest true (h.brk - tag_size) n (grown n h) (omega arith) in
      let next =
        get_next_inner h1 (h.brk - tag_size) (tag true n)
          (mark-header true (h.brk - tag_size) n (grown n h) (omega arith)) (omega arith)
          (omega arith) in
      let fence : h.brk - tag_size + n + tag_size * 2 ≡ h.brk + n + tag_size = omega arith in
      rw (extend_heap, wanted n least small, sbrk, some_brk, next, ◌>>=◌, fence) refl

  pub extended-IsHeap :
      h.brk + n + tag_size * 2 ≤ h.max_addr → IsHeap (extended n h) (bs ++ ((true, n) ∷ []))
  extended-IsHeap under =
      let (extent, small) = IsHeap-extent h bs held in
      let room = held.room in
      let above = held.above in
      let limit = held.extent in
      let h1 = mark true (h.brk - tag_size) n (grown n h) in
      let fits : n < 2 ^ 63 = omega arith in
      let outside = mark-outside true (h.brk - tag_size) n (grown n h) fits in
      let fence = h.brk + n + tag_size in
      let far = store-Far fence in
      let here : h.start_brk + tag_size + span bs ≡ h.brk - tag_size = omega arith in
      let end : fence ≡ h.brk + (n + 2 * tag_size) - tag_size = omega arith in
      record {
        first =
            far h.start_brk (tag false 0) h1.mem (omega arith)
            ∙ outside h.start_brk (omega arith)
            ∙ held.first;
        blocks =
            Segment-append (extended n h).mem (h.start_brk + tag_size)
              (h.brk + (n + 2 * tag_size) - tag_size) bs ((true, n) ∷ [])
              (rw here (
                Segment-frame h.mem (extended n h).mem (h.start_brk + tag_size) (h.brk - tag_size)
                  bs held.blocks
                  (λ q lo hi. far q (tag false 0) h1.mem (omega arith) ∙ outside q (omega arith))))
              (rw here (
                far (h.brk - tag_size) (tag false 0) h1.mem (omega arith)
                    ∙ mark-header true (h.brk - tag_size) n (grown n h) fits,
                far (h.brk - tag_size + tag_size + n) (tag false 0) h1.mem (omega arith)
                    ∙ mark-footer true (h.brk - tag_size) n (grown n h) fits,
                least,
                omega arith,
              ));
        last = rw (sym end) (store-same fence (tag false 0) h1.mem);
        room = omega arith;
        limit = omega arith;
        extent = held.extent;
        above = held.above;
      }

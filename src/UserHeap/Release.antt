-- ===== src/UserHeap/Release.antt =====
-- `mm_free` against the list of blocks: the block is free, in one with its free neighbours.
use osvirt_project.Base.{
  ◌+◌, ◌-◌, ◌*◌, ◌%◌, ◌^◌, ◌<◌, ◌≡◌, refl, sym, ap, subst, ◌∙◌, inl, inr, true, false, List, ◌∷◌,
  ◌++◌, arith, ◌==◌, ok, ◌>>=◌, u32_mod, u64_mod,
}
use mathlib.Core.List.{append_assoc}
use osvirt_project.UserHeap.{tag_size, Heap, load, from_int, mark, mark_free, coalesce, mm_free}
use osvirt_project.UserHeap.Tags.{mark-rest}
use osvirt_project.UserHeap.Blocks.{Block, span, span-append, at, SameLimits, IsHeap, IsHeap-extent}
use osvirt_project.UserHeap.Place.{IsHeap-Stands, mark-IsHeap}
use osvirt_project.UserHeap.Neighbours.{released, Left, Right, left, right}

-- `coalesce` marks the block with what it takes in.
coalesce_lem :
    (h : Heap) (pre post : List Block) (b : Block)
    → IsHeap h (pre ++ (b ∷ post))
    → (l : Left h pre) (r : Right h (at h pre) post)
    → span l.absorbed + b.1 + span r.absorbed < 2 ^ 31
    → coalesce (at h pre) h
      ≡ ok (mark_free (at h l.kept) (span l.absorbed + b.1 + span r.absorbed) h)
unfolding coalesce
coalesce_lem h pre post b held l r small =
    let stands = IsHeap-Stands h pre post b held in
    let whole = ap span l.parts ∙ span-append l.kept l.absorbed in
    elim l.how [
      | inl (le, lz) ↦
          let at_kept : at h pre ≡ at h l.kept = omega arith in
          elim r.how [
            | inl (re, rz) ↦
                let size : span l.absorbed + b.1 + span r.absorbed ≡ b.1 = omega arith in
                rw (coalesce, l.seen, ◌>>=◌, r.seen, load, stands.header, le, re, at_kept, size)
                  refl
            | inr (re, rn) ↦
                let size : (from_int r.size + b.1 + tag_size * 2) % u64_mod
                    ≡ span l.absorbed + b.1 + span r.absorbed =
                  ground arith in
                rw (coalesce, l.seen, ◌>>=◌, r.seen, load, stands.header, le, re, at_kept, size)
                  refl
          ]
      | inr (le, ln, back) ↦ elim r.how [
        | inl (re, rz) ↦
            let size : (from_int l.size + b.1 + tag_size * 2) % u64_mod
                ≡ span l.absorbed + b.1 + span r.absorbed =
              ground arith in
            rw (coalesce, l.seen, ◌>>=◌, r.seen, load, stands.header, le, re, back, size) refl
        | inr (re, rn) ↦
            let size : (from_int ((l.size + r.size) % u32_mod) + b.1 + tag_size * 4) % u64_mod
                ≡ span l.absorbed + b.1 + span r.absorbed =
              ground arith in
            rw (coalesce, l.seen, ◌>>=◌, r.seen, load, stands.header, le, re, back, size) refl
      ]
    ]

regroup :
    (pre post kept taken taken' rest : List Block) (b : Block)
    → pre ≡ kept ++ taken
    → post ≡ taken' ++ rest
    → pre ++ (b ∷ post) ≡ kept ++ ((taken ++ (b ∷ taken')) ++ rest)
regroup pre post kept taken taken' rest b e e' =
    rw (e, e')
      (append_assoc kept taken (b ∷ (taken' ++ rest))
        ∙ ap (λ l. kept ++ l) (sym (append_assoc taken (b ∷ taken') rest)))

-- On a heap of blocks `mm_free` of the payload of one of them ends, and leaves the heap of the
-- same blocks but that one, which is free now and in one with the free neighbours that it has.
pub mm_free_lem :
    (h : Heap) (pre post : List Block) (b : Block)
    → IsHeap h (pre ++ (b ∷ post))
    → (h' : Heap) × (mm_free (at h pre + tag_size) h ≡ ok h')
      × IsHeap h' (released pre b.1 post)
      × SameLimits h h'
unfolding mm_free mark_free
mm_free_lem h pre post b held =
    let l = left h pre post b held in
    let r = right h pre post b held in
    let size = span l.absorbed + b.1 + span r.absorbed in
    let (extent, bound) = IsHeap-extent h (pre ++ (b ∷ post)) held in
    let spans = span-append pre (b ∷ post) in
    let before = ap span l.parts ∙ span-append l.kept l.absorbed in
    let after = ap span r.parts ∙ span-append r.absorbed r.rest in
    let inside = span-append l.absorbed (b ∷ r.absorbed) in
    let stands = IsHeap-Stands h pre post b held in
    let least = stands.least in
    let payload : at h pre + tag_size - tag_size ≡ at h pre = omega arith in
    let some_addr : (at h pre + tag_size == 0) ≡ false = ground arith in
    let parts : pre ++ (b ∷ post) ≡ l.kept ++ ((l.absorbed ++ (b ∷ r.absorbed)) ++ r.rest) =
      regroup pre post l.kept l.absorbed r.absorbed r.rest b l.parts r.parts in
    let comes : released pre b.1 post ≡ l.kept ++ ((true, size) ∷ r.rest) =
      l.comes b.1 post ∙ ap (λ k. l.kept ++ k) (r.comes (span l.absorbed + b.1)) in
    (
      mark true (at h l.kept) size h,
      rw (some_addr, payload) (coalesce_lem h pre post b held l r (omega arith)),
      rw comes (
          mark-IsHeap true size h l.kept (l.absorbed ++ (b ∷ r.absorbed)) r.rest
            (subst (λ bs. IsHeap h bs) parts held) (omega arith) (omega arith)),
      mark-rest true (at h l.kept) size h (omega arith),
    )

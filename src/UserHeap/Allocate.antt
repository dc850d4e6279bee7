-- ===== src/UserHeap/Allocate.antt =====
-- `mm_malloc` against the list of blocks: the first fit is used and split, or the heap grows, or
-- the program faults at the limit of the heap.
use osvirt_project.Base.{
  ℕ, ◌+◌, ◌-◌, ◌*◌, ◌^◌, ◌≤◌, ◌<◌, ◌≡◌, refl, ap, subst, ◌∙◌, ◌⊎◌, inl, inr, Bool, true, false,
  ◌&&◌, List, [], ◌∷◌, ◌++◌, arith, if◌then◌else◌, ◌==◌, leb, Run, ok, fault, ◌>>=◌, Bool-cases,
  leb→le,
}
use osvirt_project.UserHeap.{
  tag_size, min_block_size, Heap, extend_heap, find_block, split, mm_malloc, to_int,
}
use osvirt_project.UserHeap.Blocks.{Block, span, at, SameLimits, IsHeap, IsHeap-extent}
use osvirt_project.UserHeap.Find.{first_fit, find_block-first_fit}
use osvirt_project.UserHeap.Place.{placed, split-IsHeap}
use osvirt_project.UserHeap.Extend.{extended, extended-IsHeap, extend_heap-ok, extend_heap-fault}

-- No block of the list is free and holds `n` bytes.
abbrev pub NoneFits : ℕ → List Block → Type 0
NoneFits n [] = Unit
NoneFits n (b ∷ bs) = ((b.0 && leb n b.1) ≡ false) × NoneFits n bs

-- The first fit, as a place in the list.
pub record Fit (n : ℕ) (bs : List Block) : Type 0 where
  pub pre : List Block
  pub post : List Block
  pub size : ℕ
  pub parts : bs ≡ pre ++ ((true, size) ∷ post)
  pub before : NoneFits n pre
  pub holds : n ≤ size

-- A fit behind a block that does not fit.
abbrev later :
    (n : ℕ) (bs : List Block) (f : Bool) (s : ℕ)
    → (f && leb n s) ≡ false
    → Fit n bs
    → Fit n ((f, s) ∷ bs)
later n bs f s e g = record {
  pre = (f, s) ∷ g.pre;
  post = g.post;
  size = g.size;
  parts = ap (λ l. (f, s) ∷ l) g.parts;
  before = (e, g.before);
  holds = g.holds;
}

pub first_fit-cases :
    (n a : ℕ) (bs : List Block)
    → ((f : Fit n bs) × (first_fit n a bs ≡ a + span f.pre))
      ⊎ (NoneFits n bs × (first_fit n a bs ≡ 0))
first_fit-cases n a [] = inr (tt, refl)
first_fit-cases n a ((false, s) ∷ bs) = elim (first_fit-cases n (a + s + tag_size * 2) bs) [
  | inl (g, eq) ↦ inl (later n bs false s refl g, eq ∙ omega arith)
  | inr (none_fits, eq) ↦ inr ((refl, none_fits), eq)
]
first_fit-cases n a ((true, s) ∷ bs) = elim (Bool-cases (leb n s)) [
  | inl e ↦ inl (
    record { pre = []; post = bs; size = s; parts = refl; before = tt; holds = leb→le n s e },
    rw e (omega arith),
  )
  | inr e ↦ elim (first_fit-cases n (a + s + tag_size * 2) bs) [
    | inl (g, eq) ↦ inl (later n bs true s e g, rw e (eq ∙ omega arith))
    | inr (none_fits, eq) ↦ inr ((e, none_fits), rw e eq)
  ]
]

-- What `mm_malloc` comes to on the blocks `bs`, for blocks of `n` bytes.
pub data Allocated (n : ℕ) (h : Heap) (bs : List Block) (r : Run (ℕ × Heap)) : Type 0 where
  -- The first fit is used, and what is left of it is a free block if it is large enough.
  reused :
      (f : Fit n bs) (h' : Heap)
      → r ≡ ok (at h f.pre + tag_size, h')
      → IsHeap h' (f.pre ++ (placed n f.size ++ f.post))
      → SameLimits h h'
      → Allocated n h bs r
  -- Nothing fits: a used block is set behind the others.
  appended :
      (h' : Heap)
      → NoneFits n bs
      → r ≡ ok (at h bs + tag_size, h')
      → IsHeap h' (bs ++ ((false, n) ∷ []))
      → h'.brk ≡ h.brk + n + tag_size * 2
      → h'.start_brk ≡ h.start_brk
      → h'.max_addr ≡ h.max_addr
      → Allocated n h bs r
  -- Nothing fits and the heap is at its limit.
  refused : NoneFits n bs → h.max_addr < h.brk + n + tag_size * 2 → r ≡ fault → Allocated n h bs r

-- The size that `mm_malloc` asks for.
abbrev pub asked : ℕ → ℕ
asked size = if leb size min_block_size then min_block_size else size

-- `mm_malloc` past the search.
malloc_tail :
    (size n found p : ℕ) (h h1 h2 : Heap)
    → ¬ (size ≡ 0)
    → asked size ≡ n
    → find_block n h ≡ ok found
    → (if found == 0 then extend_heap n h else ok (found, h)) ≡ ok (p, h1)
    → split p n h1 ≡ ok h2
    → n < 2 ^ 31
    → mm_malloc size h ≡ ok (p + tag_size, h2)
unfolding mm_malloc
malloc_tail size n found p h h1 h2 some_size e search grow cut small =
    let nonzero : (size == 0) ≡ false = ground arith in
    let same : to_int n ≡ n = omega arith in
    rw (mm_malloc, nonzero, e, search, ◌>>=◌, grow, same, cut) refl

module _ (size n : ℕ) (h : Heap) (bs : List Block) (held : IsHeap h bs) (some_size : ¬ (size ≡ 0))
    (is : asked size ≡ n) (small : n + tag_size * 2 < 2 ^ 31) where
  least : min_block_size ≤ n
  least = ground arith

  reuse :
      (f : Fit n bs)
      → first_fit n (h.start_brk + tag_size) bs ≡ at h f.pre
      → Allocated n h bs (mm_malloc size h)
  reuse f eq =
      let held' : IsHeap h (f.pre ++ ((true, f.size) ∷ f.post)) =
        subst (λ l. IsHeap h l) f.parts held in
      let (h', cut, limits, new) =
        split-IsHeap n h f.pre f.post (true, f.size) held' least f.holds in
      let some_found : (at h f.pre == 0) ≡ false = ground arith in
      reused f h'
        (malloc_tail size n (at h f.pre) (at h f.pre) h h h' some_size is
          (find_block-first_fit n h bs held ∙ ap ok eq) (rw some_found refl) cut (omega arith))
        new limits

  append :
      NoneFits n bs
      → first_fit n (h.start_brk + tag_size) bs ≡ 0
      → h.brk + n + tag_size * 2 ≤ h.max_addr
      → Allocated n h bs (mm_malloc size h)
  append none_fits eq room =
      let (extent, bound) = IsHeap-extent h bs held in
      let (h', cut, limits, new) =
        split-IsHeap n (extended n h) bs [] (true, n) (extended-IsHeap n h bs held least room) least
          (omega arith) in
      let place : h.brk - tag_size ≡ at h bs = omega arith in
      let whole : placed n n ≡ (false, n) ∷ [] = ground arith in
      appended h' none_fits
        (malloc_tail size n 0 (at h bs) h (extended n h) h' some_size is
          (find_block-first_fit n h bs held ∙ ap ok eq)
          (extend_heap-ok n h bs held least room ∙ ap (λ a. ok (a, extended n h)) place) cut
          (omega arith))
        (subst (λ l. IsHeap h' (bs ++ (l ++ []))) whole new) (omega arith) limits.1 limits.2

  refuse :
      NoneFits n bs
      → first_fit n (h.start_brk + tag_size) bs ≡ 0
      → h.max_addr < h.brk + n + tag_size * 2
      → Allocated n h bs (mm_malloc size h)
  unfolding mm_malloc
  refuse none_fits eq over =
      let nonzero : (size == 0) ≡ false = ground arith in
      refused none_fits over (
        rw
          (
            mm_malloc,
            nonzero,
            is,
            find_block-first_fit n h bs held,
            ◌>>=◌,
            eq,
            extend_heap-fault n h bs held least over small,
          )
          refl)

-- On a heap of blocks `mm_malloc` for `size` bytes, where `size` is not 0 and `n`, the size but 16
-- at least, is such that `n + 16` is below 2 ^ 31, ends: it returns the payload of the first free block of `n` bytes or
-- more, used now and split if more than 16 bytes are left, or of a new last block of `n` bytes if
-- no block fits; or it faults if no block fits and the heap has no room. The heap that it leaves
-- is the heap of those blocks.
pub mm_malloc_lem :
    (size n : ℕ) (h : Heap) (bs : List Block)
    → IsHeap h bs
    → ¬ (size ≡ 0)
    → asked size ≡ n
    → n + tag_size * 2 < 2 ^ 31
    → Allocated n h bs (mm_malloc size h)
mm_malloc_lem size n h bs held some_size is small =
    elim (first_fit-cases n (h.start_brk + tag_size) bs) [
      | inl (f, eq) ↦ reuse size n h bs held some_size is small f eq
      | inr (none_fits, eq) ↦ elim (Bool-cases (leb (h.brk + n + tag_size * 2) h.max_addr)) [
        | inl e ↦
            append size n h bs held some_size is small none_fits eq
              (leb→le (h.brk + n + tag_size * 2) h.max_addr e)
        | inr e ↦ refuse size n h bs held some_size is small none_fits eq (ground arith)
      ]
    ]

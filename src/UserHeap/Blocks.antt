-- ===== src/UserHeap/Blocks.antt =====
-- The heap as the list of its blocks, and the invariant that ties the tags to it.
use osvirt_project.Base.{
  ℕ, ◌+◌, ◌-◌, ◌*◌, ◌≤◌, ◌<◌, ◌≡◌, ◌∙◌, ◌⊎◌, inl, inr, Bool, false, some, List, [], ◌∷◌, ◌++◌,
  arith,
}
use osvirt_project.UserHeap.{tag, tag_size, min_block_size, max_heap, Memory, Heap}

-- A block: free or used, and the bytes of its payload.
abbrev pub Block : Type 0
Block = Bool × ℕ

-- The bytes that blocks take with their tags.
abbrev pub span : List Block → ℕ
span [] = 0
span (b ∷ bs) = b.1 + tag_size * 2 + span bs

-- From `a` to `e` memory is the blocks, each between two tags that say the same.
abbrev pub Segment : Memory → ℕ → List Block → ℕ → Type 0
Segment m a [] e = a ≡ e
Segment m a (b ∷ bs) e =
    (m a ≡ some (tag b.0 b.1))
    × (m (a + tag_size + b.1) ≡ some (tag b.0 b.1))
    × (min_block_size ≤ b.1)
    × Segment m (a + b.1 + tag_size * 2) bs e

-- The two fences with the blocks between them.
pub record IsHeap (h : Heap) (bs : List Block) : Type 0 where
  pub first : h.mem h.start_brk ≡ some (tag false 0)
  pub blocks : Segment h.mem (h.start_brk + tag_size) bs (h.brk - tag_size)
  pub last : h.mem (h.brk - tag_size) ≡ some (tag false 0)
  pub room : h.start_brk + tag_size * 2 ≤ h.brk
  pub limit : h.brk ≤ h.max_addr
  pub extent : h.max_addr ≤ h.start_brk + max_heap
  pub above : 0 < h.start_brk

pub Segment-end : (m : Memory) (a e : ℕ) (bs : List Block) → Segment m a bs e → a + span bs ≡ e
Segment-end m a e [] s = omega arith
Segment-end m a e (b ∷ bs) s = omega (arith, Segment-end m (a + b.1 + tag_size * 2) e bs s.3)

-- A change that spares the tags between `a` and `e` spares the segment.
pub Segment-frame :
    (m m' : Memory) (a e : ℕ) (bs : List Block)
    → Segment m a bs e
    → ((q : ℕ) → a ≤ q → q + tag_size ≤ e → m' q ≡ m q)
    → Segment m' a bs e
Segment-frame m m' a e [] s same = s
Segment-frame m m' a e (b ∷ bs) s same =
    let ends = Segment-end m (a + b.1 + tag_size * 2) e bs s.3 in
    (
      same a (omega arith) (omega arith) ∙ s.0,
      same (a + tag_size + b.1) (omega arith) (omega arith) ∙ s.1,
      s.2,
      Segment-frame m m' (a + b.1 + tag_size * 2) e bs s.3 (λ q lo hi. same q (omega arith) hi),
    )

pub Segment-append :
    (m : Memory) (a e : ℕ) (xs ys : List Block)
    → Segment m a xs (a + span xs)
    → Segment m (a + span xs) ys e
    → Segment m a (xs ++ ys) e
Segment-append m a e [] ys s t = let at : a + 0 ≡ a = omega arith in rw at at t
Segment-append m a e (x ∷ xs) ys s t =
    let at : a + (x.1 + tag_size * 2 + span xs) ≡ a + x.1 + tag_size * 2 + span xs = omega arith in
    (s.0, s.1, s.2, Segment-append m (a + x.1 + tag_size * 2) e xs ys (rw at at s.3) (rw at at t))

pub Segment-split :
    (m : Memory) (a e : ℕ) (xs ys : List Block)
    → Segment m a (xs ++ ys) e
    → Segment m a xs (a + span xs) × Segment m (a + span xs) ys e
Segment-split m a e [] ys s = let at : a + 0 ≡ a = omega arith in (omega arith, rw at s)
Segment-split m a e (x ∷ xs) ys s =
    let at : a + (x.1 + tag_size * 2 + span xs) ≡ a + x.1 + tag_size * 2 + span xs = omega arith in
    let (front, back) = Segment-split m (a + x.1 + tag_size * 2) e xs ys s.3 in
    ((s.0, s.1, s.2, rw at front), rw at back)

-- Blocks in the middle are replaced by others of the same extent.
pub Segment-replace :
    (m m' : Memory) (a e : ℕ) (pre old new post : List Block)
    → Segment m a (pre ++ (old ++ post)) e
    → span new ≡ span old
    → Segment m' (a + span pre) new (a + span pre + span new)
    → ((q : ℕ) → (q + tag_size ≤ a + span pre) ⊎ (a + span pre + span old ≤ q) → m' q ≡ m q)
    → Segment m' a (pre ++ (new ++ post)) e
Segment-replace m m' a e pre old new post s same seg keep =
    let (front, rest) = Segment-split m a e pre (old ++ post) s in
    let (mid, back) = Segment-split m (a + span pre) e old post rest in
    Segment-append m' a e pre (new ++ post)
      (Segment-frame m m' a (a + span pre) pre front (λ q lo hi. keep q (inl hi)))
      (Segment-append m' (a + span pre) e new post seg (
        rw same
          (Segment-frame m m' (a + span pre + span old) e post back (λ q lo hi. keep q (inr lo)))))

-- The limits of the heap and its first address stay.
abbrev pub SameLimits : Heap → Heap → Type 0
SameLimits h h' = (h'.brk ≡ h.brk) × (h'.start_brk ≡ h.start_brk) × (h'.max_addr ≡ h.max_addr)

-- Where the block behind `pre` begins.
abbrev pub at : Heap → List Block → ℕ
at h pre = h.start_brk + tag_size + span pre

-- The extent of a heap, told by its blocks.
pub IsHeap-extent :
    (h : Heap) (bs : List Block)
    → IsHeap h bs
    → (h.start_brk + tag_size + span bs + tag_size ≡ h.brk) × (span bs + tag_size * 2 ≤ max_heap)
IsHeap-extent h bs held =
    let ends = Segment-end h.mem (h.start_brk + tag_size) (h.brk - tag_size) bs held.blocks in
    let room = held.room in
    let limit = held.limit in let extent = held.extent in (omega arith, omega arith)

pub span-append : (xs ys : List Block) → span (xs ++ ys) ≡ span xs + span ys
span-append [] ys = omega arith
span-append (x ∷ xs) ys = omega (arith, span-append xs ys)

pub IsHeap-replace :
    (h h' : Heap) (pre old new post : List Block)
    → IsHeap h (pre ++ (old ++ post))
    → SameLimits h h'
    → span new ≡ span old
    → Segment h'.mem (at h pre) new (at h pre + span new)
    → ((q : ℕ) → (q + tag_size ≤ at h pre) ⊎ (at h pre + span old ≤ q) → h'.mem q ≡ h.mem q)
    → IsHeap h' (pre ++ (new ++ post))
IsHeap-replace h h' pre old new post held same equal seg keep =
    let (extent, small) = IsHeap-extent h (pre ++ (old ++ post)) held in
    let spans = span-append pre (old ++ post) in
    let spans' = span-append old post in
    let room = held.room in
    let limit = held.limit in
    let most = held.extent in
    let above = held.above in
    let (brks, starts, maxs) = same in
    record {
      first = rw starts (keep h.start_brk (inl (omega arith)) ∙ held.first);
      blocks =
          rw (starts, brks)
            (Segment-replace h.mem h'.mem (h.start_brk + tag_size) (h.brk - tag_size) pre old new
              post held.blocks equal seg keep);
      last = rw brks (keep (h.brk - tag_size) (inr (omega arith)) ∙ held.last);
      room = omega arith;
      limit = omega arith;
      extent = omega arith;
      above = omega arith;
    }

-- ===== src/UserHeap/Sequence/Safety.antt =====
-- What holds whenever a program has made calls of mm.c.
use osvirt_project.Base.{
  ℕ, ◌+◌, ◌*◌, ◌^◌, ◌≤◌, ◌<◌, ◌≡◌, ◌≢◌, sym, ap, subst, ◌∙◌, ◌⊎◌, inl, inr, Option, some, List,
  arith, ok,
}
use osvirt_project.UserHeap.{tag_size, Memory, Heap, mm_malloc, mm_free}
use osvirt_project.UserHeap.Blocks.{Block, IsHeap, IsHeap-extent}
use osvirt_project.UserHeap.Allocate.{asked}
use osvirt_project.UserHeap.Live.{live, used-Apart, mm_malloc-live, mm_free-live}
use osvirt_project.UserHeap.Sequence.{Program, Reach}
use osvirt_project.UserHeap.Sequence.Payloads.{IsIn, IsIn-split, Apart-two, Apart-new, used-inside}
use osvirt_project.UserHeap.Sequence.Tracked.{Tracked, Reach-Tracked, ok_eq}

-- What a program relies on: the heap is a list of blocks; what it holds lies between the fences
-- and the tags; no two payloads overlap; a new one overlaps none; and each can be given back.
pub record IsSafe (s : Program) : Type 0 where
  pub intact : (bs : List Block) × IsHeap s.heap bs
  pub inside :
      (p n : ℕ)
      → s.held p ≡ some n
      → (s.heap.start_brk + tag_size * 2 ≤ p) × (p + n + tag_size * 2 ≤ s.heap.brk)
  pub apart :
      (p n q k : ℕ) → s.held p ≡ some n → s.held q ≡ some k → p ≢ q → (p + n ≤ q) ⊎ (q + k ≤ p)
  pub fresh :
      (size p : ℕ) (h' : Heap) (q k : ℕ)
      → size ≢ 0
      → asked size + tag_size * 2 < 2 ^ 31
      → mm_malloc size s.heap ≡ ok (p, h')
      → s.held q ≡ some k
      → (q + k ≤ p) ⊎ (p + size ≤ q)
  pub freed : (p n : ℕ) → s.held p ≡ some n → (h' : Heap) × (mm_free p s.heap ≡ ok h')

Tracked-apart :
    (h : Heap) (held : ℕ → Option ℕ) (bs : List Block) (p n q k : ℕ)
    → Tracked h held bs
    → held p ≡ some n
    → held q ≡ some k
    → p ≢ q
    → (p + n ≤ q) ⊎ (q + k ≤ p)
Tracked-apart h held bs p n q k t has has' ne =
    let (i, pos, at_p, enough) = t.payload p n has in
    let (j, pos', at_q, enough') = t.payload q k has' in
    elim (Apart-two 0 p i q j (live h bs) (used-Apart (h.start_brk + tag_size) 0 bs (omega arith))
      at_p at_q) [
        | inl (same, e) ↦ absurd (ne same)
        | inr (inl e) ↦ inl (omega arith)
        | inr (inr e) ↦ inr (omega arith)
      ]

Tracked-fresh :
    (h h' : Heap) (held : ℕ → Option ℕ) (bs : List Block) (size p q k : ℕ)
    → Tracked h held bs
    → size ≢ 0
    → asked size + tag_size * 2 < 2 ^ 31
    → mm_malloc size h ≡ ok (p, h')
    → held q ≡ some k
    → (q + k ≤ p) ⊎ (p + size ≤ q)
Tracked-fresh h h' held bs size p q k t some_size small run has =
    elim (mm_malloc-live size h bs t.blocks some_size small) [
      | inl failed ↦ absurd cc
      | inr (p', i, h'', bs', xs, ys, went, is, enough, before, after, apart) ↦
          let (j, pos, inside, enough') = t.payload q k has in
          let same : p' ≡ p = ap (λ r. r.0) (ok_eq (sym went ∙ run)) in
          elim (Apart-new 0 p' i q j xs ys apart (subst (IsIn q j) before inside)) [
            | inl e ↦ inl (omega arith)
            | inr e ↦ inr (omega arith)
          ]
    ]

-- A program starts with the heap of `memlib_init`, at any address that is not 0 and over any memory.
-- It makes any number of calls that return, of `mm_malloc` and `mm_realloc` for sizes that are not 0
-- and, 16 at least, with 16 more below 2 ^ 31, of `mm_realloc` on what it holds and of `mm_free` on
-- that or `NULL`, and it writes only to what it holds. Then the heap is a list of blocks between two fences,
-- what the program holds lies inside of it, no two of its payloads overlap, `mm_malloc` for such a
-- size returns none that overlaps one, and `mm_free` of each returns.
pub Reach-IsSafe : (base : ℕ) (m : Memory) (s : Program) → 0 < base → Reach base m s → IsSafe s
Reach-IsSafe base m s above r =
    let (bs, t) = Reach-Tracked base m s above r in
    let (extent, bound) = IsHeap-extent s.heap bs t.blocks in
    record {
      intact = (bs, t.blocks);
      inside = λ p n has.
          let (k, pos, at_p, enough) = t.payload p n has in
          let (low, high) = used-inside (s.heap.start_brk + tag_size) p k bs at_p in
          (omega arith, omega arith);
      apart = λ p n q k has has' ne. Tracked-apart s.heap s.held bs p n q k t has has' ne;
      fresh = λ size p h' q k some_size small run has.
          Tracked-fresh s.heap h' s.held bs size p q k t some_size small run has;
      freed = λ p n has.
          let (k, pos, at_p, enough) = t.payload p n has in
          let (xs, ys, parts) = IsIn-split p k (live s.heap bs) at_p in
          let (h', bs', run, is, left) = mm_free-live s.heap bs xs ys p k t.blocks parts in
          (h', run);
    }

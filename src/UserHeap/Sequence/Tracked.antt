-- ===== src/UserHeap/Sequence/Tracked.antt =====
-- What a program holds, among the payloads in use, through every step.
use osvirt_project.Base.{
  ℕ, ◌+◌, ◌*◌, ◌^◌, ◌≤◌, ◌<◌, ◌≡◌, ◌≢◌, refl, sym, subst, ◌∙◌, ◌⊎◌, inl, inr, false, Option, some,
  List, [], ◌∷◌, ◌++◌, arith, ◌==◌, ok, Bool-cases, ◌>>=◌, >>=-eq-ok,
}
use osvirt_project.UserHeap.{tag_size, Memory, Heap, mm_malloc, mm_free, mm_realloc}
use osvirt_project.UserHeap.Blocks.{Block, at, IsHeap, IsHeap-replace}
use osvirt_project.UserHeap.Place.{IsHeap-Stands}
use osvirt_project.UserHeap.Allocate.{asked}
use osvirt_project.UserHeap.Live.{live, place_of, mm_malloc-live, mm_free-live}
use osvirt_project.UserHeap.Setup.{memlib_init-IsHeap}
use osvirt_project.UserHeap.Sequence.{
  Program, grant, give_back, write_byte, Step, malloc, free, free_null, realloc, write, Reach,
  start, next,
}
use osvirt_project.UserHeap.Sequence.Payloads.{IsIn, IsIn-split, IsIn-new, IsIn-more, IsIn-less}

-- The blocks of the heap, and a payload for every address that is held.
pub record Tracked (h : Heap) (held : ℕ → Option ℕ) (bs : List Block) : Type 0 where
  pub blocks : IsHeap h bs
  pub payload : (p n : ℕ) → held p ≡ some n → (k : ℕ) × (0 < n) × IsIn p k (live h bs) × (n ≤ k)

grant-Tracked :
    (p size k : ℕ) (h h' : Heap) (held : ℕ → Option ℕ) (bs bs' : List Block) (xs ys : List (ℕ × ℕ))
    → Tracked h held bs
    → IsHeap h' bs'
    → size ≢ 0
    → size ≤ k
    → live h bs ≡ xs ++ ys
    → live h' bs' ≡ xs ++ ((p, k) ∷ ys)
    → Tracked h' (grant p size held) bs'
grant-Tracked p size k h h' held bs bs' xs ys t is some_size le before after = record {
  blocks = is;
  payload = λ q n e. elim (Bool-cases (q == p)) [
    | inl same ↦
        let at : p ≡ q = ground arith in
        let asked_for : n ≡ size = ground arith in
        (
          k,
          omega arith,
          rw after (subst (λ x. IsIn x k (xs ++ ((p, k) ∷ ys))) at (IsIn-new p k xs ys)),
          omega arith,
        )
    | inr other ↦
        let was : held q ≡ some n = ground arith in
        let (j, pos, inside, enough) = t.payload q n was in
        (j, pos, rw after (IsIn-more q j (p, k) xs ys (subst (IsIn q j) before inside)), enough)
  ];
}

give_back-Tracked :
    (p k : ℕ) (h h' : Heap) (held : ℕ → Option ℕ) (bs bs' : List Block) (xs ys : List (ℕ × ℕ))
    → Tracked h held bs
    → IsHeap h' bs'
    → live h bs ≡ xs ++ ((p, k) ∷ ys)
    → live h' bs' ≡ xs ++ ys
    → Tracked h' (give_back p held) bs'
give_back-Tracked p k h h' held bs bs' xs ys t is before after = record {
  blocks = is;
  payload = λ q n e.
      let ne : q ≢ p = ground arith in
      let was : held q ≡ some n = ground arith in
      let (j, pos, inside, enough) = t.payload q n was in
      (j, pos, rw after (IsIn-less q j p k xs ys ne (subst (IsIn q j) before inside)), enough);
}

pub ok_eq {ℓ} : {X : Type ℓ} {x y : X} → ok x ≡ ok y → x ≡ y
ok_eq e = cc

malloc-Tracked :
    (size p : ℕ) (h h' : Heap) (held : ℕ → Option ℕ) (bs : List Block)
    → Tracked h held bs
    → size ≢ 0
    → asked size + tag_size * 2 < 2 ^ 31
    → mm_malloc size h ≡ ok (p, h')
    → (bs' : List Block) × Tracked h' (grant p size held) bs'
malloc-Tracked size p h h' held bs t some_size small run =
    elim (mm_malloc-live size h bs t.blocks some_size small) [
      | inl failed ↦ absurd cc
      | inr (p', k, h'', bs', xs, ys, went, is, enough, before, after, apart) ↦
          let same = ok_eq (sym went ∙ run) in
          (
            bs',
            subst (λ r. Tracked r.1 (grant r.0 size held) bs') same
                (grant-Tracked p' size k h h'' held bs bs' xs ys t is some_size enough before
                  after),
          )
    ]

free-Tracked :
    (p n : ℕ) (h h' : Heap) (held : ℕ → Option ℕ) (bs : List Block)
    → Tracked h held bs
    → held p ≡ some n
    → mm_free p h ≡ ok h'
    → (bs' : List Block) × Tracked h' (give_back p held) bs'
free-Tracked p n h h' held bs t has run =
    let (k, pos, inside, enough) = t.payload p n has in
    let (xs, ys, parts) = IsIn-split p k (live h bs) inside in
    let (h'', bs', went, is, left) = mm_free-live h bs xs ys p k t.blocks parts in
    let same = ok_eq (sym went ∙ run) in
    (
      bs',
      subst (λ r. Tracked r (give_back p held) bs') same
          (give_back-Tracked p k h h'' held bs bs' xs ys t is parts left),
    )

write_byte-far :
    (x q : ℕ) (h : Heap) → (q + tag_size ≤ x) ⊎ (x < q) → (write_byte x h).mem q ≡ h.mem q
write_byte-far x q h far = ground arith

-- A write inside of a payload in use leaves every tag.
write-IsHeap :
    (p k x : ℕ) (h : Heap) (bs : List Block)
    → IsHeap h bs
    → IsIn p k (live h bs)
    → p ≤ x
    → x < p + k
    → IsHeap (write_byte x h) bs
write-IsHeap p k x h bs is inside low high =
    let (xs, ys, listed) = IsIn-split p k (live h bs) inside in
    let q = place_of (h.start_brk + tag_size) bs xs ys p k listed in
    let held = subst (IsHeap h) q.parts is in
    let stands = IsHeap-Stands h q.pre q.post (false, k) held in
    let payload = q.payload in
    rw q.parts (
      IsHeap-replace h (write_byte x h) q.pre ((false, k) ∷ []) ((false, k) ∷ []) q.post held
        (refl, refl, refl) refl
        (
          write_byte-far x (at h q.pre) h (omega arith) ∙ stands.header,
          write_byte-far x (at h q.pre + tag_size + k) h (omega arith) ∙ stands.footer,
          stands.least,
          omega arith,
        )
        (λ y far. write_byte-far x y h (omega arith)))

realloc-Tracked :
    (p n size q : ℕ) (h h' : Heap) (held : ℕ → Option ℕ) (bs : List Block)
    → Tracked h held bs
    → held p ≡ some n
    → size ≢ 0
    → asked size + tag_size * 2 < 2 ^ 31
    → mm_realloc p size h ≡ ok (q, h')
    → (bs' : List Block) × Tracked h' (grant q size (give_back p held)) bs'
unfolding mm_realloc
realloc-Tracked p n size q h h' held bs t has some_size small run =
    let asks : (size == 0) ≡ false = ground arith in
    let both : (mm_free p h >>= λ h1. mm_malloc size h1) ≡ ok (q, h') =
      sym (rw (mm_realloc, asks) refl) ∙ run in
    let (h1, freed, got) = >>=-eq-ok (mm_free p h) (λ h1. mm_malloc size h1) both in
    let (bs1, t1) = free-Tracked p n h h1 held bs t has freed in
    malloc-Tracked size q h1 h' (give_back p held) bs1 t1 some_size small got

free_null-same : (h h' : Heap) → mm_free 0 h ≡ ok h' → h ≡ h'
unfolding mm_free
free_null-same h h' e = ok_eq e

Step-Tracked :
    (s t : Program) (bs : List Block)
    → Step s t
    → Tracked s.heap s.held bs
    → (bs' : List Block) × Tracked t.heap t.held bs'
Step-Tracked s t bs (malloc size p some_size small run holds) tr =
    rw holds (malloc-Tracked size p s.heap t.heap s.held bs tr some_size small run)
Step-Tracked s t bs (free p n has run holds) tr =
    rw holds (free-Tracked p n s.heap t.heap s.held bs tr has run)
Step-Tracked s t bs (free_null run holds) tr =
    rw holds (bs, subst (λ h. Tracked h s.held bs) (free_null-same s.heap t.heap run) tr)
Step-Tracked s t bs (realloc p n size q has some_size small run holds) tr =
    rw holds (realloc-Tracked p n size q s.heap t.heap s.held bs tr has some_size small run)
Step-Tracked s t bs (write p n x has low high writes holds) tr =
    let (k, pos, inside, enough) = tr.payload p n has in
    rw (holds, writes)
      (
        bs,
        record {
          blocks = write-IsHeap p k x s.heap bs tr.blocks inside low (omega arith);
          payload = tr.payload;
        },
      )

pub Reach-Tracked :
    (base : ℕ) (m : Memory) (s : Program)
    → 0 < base
    → Reach base m s
    → (bs : List Block) × Tracked s.heap s.held bs
Reach-Tracked base m s above start =
    ([], record { blocks = memlib_init-IsHeap base m above; payload = λ p n e. absurd cc })
Reach-Tracked base m t above (next {s} r st) =
    let (bs, tr) = Reach-Tracked base m s above r in Step-Tracked s t bs st tr

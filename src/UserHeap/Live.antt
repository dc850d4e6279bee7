-- ===== src/UserHeap/Live.antt =====
-- The payloads that a program holds.
use osvirt_project.Base.{
  ℕ, ◌+◌, ◌-◌, ◌*◌, ◌^◌, ◌≤◌, ◌<◌, ◌≡◌, refl, sym, ap, subst, ◌∙◌, ◌⊎◌, inl, inr, Bool, true, false,
  List, [], ◌∷◌, ◌++◌, arith, ltb, ok, fault, Bool-cases,
}
use mathlib.Core.List.{append-nil}
use osvirt_project.UserHeap.{tag_size, min_block_size, Heap, mm_malloc, mm_free}
use osvirt_project.UserHeap.Blocks.{Block, span, at, IsHeap}
use osvirt_project.UserHeap.Place.{placed}
use osvirt_project.UserHeap.Neighbours.{free_right, released}
use osvirt_project.UserHeap.Allocate.{Allocated, reused, appended, refused, asked, mm_malloc_lem}
use osvirt_project.UserHeap.Release.{mm_free_lem}

-- The payloads of the used blocks from `a` on, with their sizes, in the order of their addresses.
unfoldable pub used : (a : ℕ) → List Block → List (ℕ × ℕ)
used a [] = []
used a ((true, n) ∷ bs) = used (a + n + tag_size * 2) bs
used a ((false, n) ∷ bs) = (a + tag_size, n) ∷ used (a + n + tag_size * 2) bs

abbrev pub live : Heap → List Block → List (ℕ × ℕ)
live h bs = used (h.start_brk + tag_size) bs

used-append : (a : ℕ) (xs ys : List Block) → used a (xs ++ ys) ≡ used a xs ++ used (a + span xs) ys
unfolding used
used-append a [] ys = let e : a + 0 ≡ a = omega arith in rw e refl
used-append a ((true, n) ∷ xs) ys =
    used-append (a + n + tag_size * 2) xs ys
    ∙ ap (λ x. used (a + n + tag_size * 2) xs ++ used x ys) (omega arith)
used-append a ((false, n) ∷ xs) ys =
    ap (λ l. (a + tag_size, n) ∷ l)
      (used-append (a + n + tag_size * 2) xs ys
        ∙ ap (λ x. used (a + n + tag_size * 2) xs ++ used x ys) (omega arith))

used-placed :
    (a n size : ℕ) (post : List Block)
    → n ≤ size
    → (k : ℕ) × (n ≤ k)
      × (used a (placed n size ++ post) ≡ (a + tag_size, k) ∷ used (a + size + tag_size * 2) post)
unfolding used
used-placed a n size post le = elim (Bool-cases (ltb min_block_size (size - n - tag_size * 2))) [
  | inl e ↦ (
    n,
    omega arith,
    rw (placed, e)
        (ap (λ x. (a + tag_size, n) ∷ used x post)
          (let more : min_block_size < size - n - tag_size * 2 = ground arith in omega arith)),
  )
  | inr e ↦ (size, le, rw (placed, e) refl)
]

used-right :
    (a s : ℕ) (post : List Block) → used a (free_right s post) ≡ used (a + s + tag_size * 2) post
unfolding used
used-right a s [] = refl
used-right a s ((true, n) ∷ post) = ap (λ x. used x post) (omega arith)
used-right a s ((false, n) ∷ post) = refl

used-released :
    (a s : ℕ) (pre post : List Block)
    → used a (released pre s post) ≡ used a pre ++ used (a + span pre + s + tag_size * 2) post
unfolding used
used-released a s [] post = used-right a s post ∙ ap (λ x. used x post) (omega arith)
used-released a s ((true, n) ∷ []) post =
    used-right a (n + s + tag_size * 2) post ∙ ap (λ x. used x post) (omega arith)
used-released a s ((false, n) ∷ []) post =
    ap (λ l. (a + tag_size, n) ∷ l)
      (used-right (a + n + tag_size * 2) s post ∙ ap (λ x. used x post) (omega arith))
used-released a s ((true, n) ∷ (q ∷ pre)) post =
    used-released (a + n + tag_size * 2) s (q ∷ pre) post
    ∙ ap (λ x. used (a + n + tag_size * 2) (q ∷ pre) ++ used x post) (omega arith)
used-released a s ((false, n) ∷ (q ∷ pre)) post =
    ap (λ l. (a + tag_size, n) ∷ l)
      (used-released (a + n + tag_size * 2) s (q ∷ pre) post
        ∙ ap (λ x. used (a + n + tag_size * 2) (q ∷ pre) ++ used x post) (omega arith))

-- Payloads in the order of their addresses, that do not overlap.
abbrev pub Apart : (from : ℕ) → List (ℕ × ℕ) → Type 0
Apart from [] = Unit
Apart from ((p, k) ∷ l) = (from ≤ p) × Apart (p + k) l

pub used-Apart : (a from : ℕ) (bs : List Block) → from ≤ a → Apart from (used a bs)
unfolding used
used-Apart a from [] le = tt
used-Apart a from ((true, n) ∷ bs) le = used-Apart (a + n + tag_size * 2) from bs (omega arith)
used-Apart a from ((false, n) ∷ bs) le =
    (omega arith, used-Apart (a + n + tag_size * 2) (a + tag_size + n) bs (omega arith))

-- `mm_malloc` for `size` bytes, not 0 and with no overflow of `int`, faults or returns a payload of
-- as many bytes or more. The payloads in use are then those from before, unmoved, and the
-- new one, and no two of them overlap.
pub mm_malloc-live :
    (size : ℕ) (h : Heap) (bs : List Block)
    → IsHeap h bs
    → ¬ (size ≡ 0)
    → asked size + tag_size * 2 < 2 ^ 31
    → (mm_malloc size h ≡ fault)
      ⊎ ((p k : ℕ) × (h' : Heap) × (bs' : List Block) × (xs ys : List (ℕ × ℕ)) × (mm_malloc size h
            ≡ ok (p, h'))
          × IsHeap h' bs'
          × (size ≤ k)
          × (live h bs ≡ xs ++ ys)
          × (live h' bs' ≡ xs ++ ((p, k) ∷ ys))
          × Apart 0 (xs ++ ((p, k) ∷ ys)))
unfolding used
mm_malloc-live size h bs held some_size small =
    from (mm_malloc_lem size (asked size) h bs held some_size refl small)
  where
    from :
        Allocated (asked size) h bs (mm_malloc size h)
        → (mm_malloc size h ≡ fault)
          ⊎ ((p k : ℕ) × (h' : Heap) × (bs' : List Block) × (xs ys : List (ℕ × ℕ)) × (mm_malloc size
                  h
                ≡ ok (p, h'))
              × IsHeap h' bs'
              × (size ≤ k)
              × (live h bs ≡ xs ++ ys)
              × (live h' bs' ≡ xs ++ ((p, k) ∷ ys))
              × Apart 0 (xs ++ ((p, k) ∷ ys)))
    from (refused none_fits full run) = inl run
    from (appended h' none_fits run is brk start max) =
        let a = h.start_brk + tag_size in
        let enough : size ≤ asked size = ground arith in
        let here : live h' (bs ++ ((false, asked size) ∷ []))
            ≡ live h (bs ++ ((false, asked size) ∷ [])) =
          ap (λ x. used (x + tag_size) (bs ++ ((false, asked size) ∷ []))) start in
        inr (
          at h bs + tag_size,
          asked size,
          h',
          bs ++ ((false, asked size) ∷ []),
          live h bs,
          [],
          run,
          is,
          enough,
          sym (append-nil (live h bs)),
          here ∙ used-append a bs ((false, asked size) ∷ []),
          subst (Apart 0) (used-append a bs ((false, asked size) ∷ []))
              (used-Apart a 0 (bs ++ ((false, asked size) ∷ [])) (omega arith)),
        )
    from (reused f h' run is limits) =
        let a = h.start_brk + tag_size in
        let b = a + span f.pre in
        let enough : size ≤ asked size = ground arith in
        let (k, more, new) = used-placed b (asked size) f.size f.post f.holds in
        let after = used (b + f.size + tag_size * 2) f.post in
        let here : live h' (f.pre ++ (placed (asked size) f.size ++ f.post))
            ≡ live h (f.pre ++ (placed (asked size) f.size ++ f.post)) =
          ap (λ x. used (x + tag_size) (f.pre ++ (placed (asked size) f.size ++ f.post)))
            limits.1 in
        let at_list =
          used-append a f.pre (placed (asked size) f.size ++ f.post)
          ∙ ap (λ l. used a f.pre ++ l) new in
        inr (
          at h f.pre + tag_size,
          k,
          h',
          f.pre ++ (placed (asked size) f.size ++ f.post),
          used a f.pre,
          after,
          run,
          is,
          omega arith,
          ap (used a) f.parts ∙ used-append a f.pre ((true, f.size) ∷ f.post),
          here ∙ at_list,
          subst (Apart 0) at_list
              (used-Apart a 0 (f.pre ++ (placed (asked size) f.size ++ f.post)) (omega arith)),
        )

-- The block of a payload in use.
pub record Place (a : ℕ) (bs : List Block) (xs ys : List (ℕ × ℕ)) (p k : ℕ) : Type 0 where
  pub pre : List Block
  pub post : List Block
  pub parts : bs ≡ pre ++ ((false, k) ∷ post)
  pub payload : p ≡ a + span pre + tag_size
  pub left : used a pre ≡ xs
  pub right : used (a + span pre + k + tag_size * 2) post ≡ ys

first_eq : {x y : ℕ × ℕ} {xs ys : List (ℕ × ℕ)} → x ∷ xs ≡ y ∷ ys → (x ≡ y) × (xs ≡ ys)
first_eq e = (cc, cc)

-- Behind another block.
behind :
    (a n p k : ℕ) (f : Bool) (bs : List Block) (xs xs' ys : List (ℕ × ℕ))
    → Place (a + n + tag_size * 2) bs xs ys p k
    → ((l : List Block) → used (a + n + tag_size * 2) l ≡ xs → used a ((f, n) ∷ l) ≡ xs')
    → Place a ((f, n) ∷ bs) xs' ys p k
behind a n p k f bs xs xs' ys q goes =
    let payload = q.payload in
    record {
      pre = (f, n) ∷ q.pre;
      post = q.post;
      parts = ap (λ l. (f, n) ∷ l) q.parts;
      payload = omega arith;
      left = goes q.pre q.left;
      right = ap (λ x. used x q.post) (omega arith) ∙ q.right;
    }

pub place_of :
    (a : ℕ) (bs : List Block) (xs ys : List (ℕ × ℕ)) (p k : ℕ)
    → used a bs ≡ xs ++ ((p, k) ∷ ys)
    → Place a bs xs ys p k
unfolding used
place_of a [] [] ys p k e = absurd cc
place_of a [] (x ∷ xs) ys p k e = absurd cc
place_of a ((true, n) ∷ bs) xs ys p k e =
    behind a n p k true bs xs xs ys (place_of (a + n + tag_size * 2) bs xs ys p k e) (λ l h. h)
place_of a ((false, n) ∷ bs) [] ys p k e =
    let (here, rest) = first_eq e in
    let at_p = ap (λ x. x.0) here in
    let size : n ≡ k = ap (λ x. x.1) here in
    record {
      pre = [];
      post = bs;
      parts = rw size refl;
      payload = omega arith;
      left = refl;
      right = ap (λ x. used x bs) (omega arith) ∙ rest;
    }
place_of a ((false, n) ∷ bs) (x ∷ xs) ys p k e =
    let (here, rest) = first_eq e in
    behind a n p k false bs xs (x ∷ xs) ys (place_of (a + n + tag_size * 2) bs xs ys p k rest)
      (λ l h. rw (here, h) refl)

-- `mm_free` of a payload in use returns, and leaves the other payloads in use, unmoved.
pub mm_free-live :
    (h : Heap) (bs : List Block) (xs ys : List (ℕ × ℕ)) (p k : ℕ)
    → IsHeap h bs
    → live h bs ≡ xs ++ ((p, k) ∷ ys)
    → (h' : Heap) × (bs' : List Block) × (mm_free p h ≡ ok h')
      × IsHeap h' bs'
      × (live h' bs' ≡ xs ++ ys)
mm_free-live h bs xs ys p k held e =
    let a = h.start_brk + tag_size in
    let q = place_of a bs xs ys p k e in
    let (h', run, is, limits) =
      mm_free_lem h q.pre q.post (false, k) (subst (IsHeap h) q.parts held) in
    (
      h',
      released q.pre k q.post,
      rw q.payload run,
      is,
      ap (λ x. used (x + tag_size) (released q.pre k q.post)) limits.1
          ∙ used-released a k q.pre q.post
          ∙ rw (q.left, q.right) refl,
    )

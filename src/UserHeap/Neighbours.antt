-- ===== src/UserHeap/Neighbours.antt =====
-- The neighbours that `coalesce` looks at, and the list of blocks that freeing one leaves.
use osvirt_project.Base.{
  ℕ, ◌+◌, ◌-◌, ◌*◌, ◌<◌, ◌≡◌, refl, sym, ap, subst, ◌∙◌, ◌⊎◌, inl, inr, Bool, true, false, some,
  List, [], ◌∷◌, ◌++◌, arith, ◌==◌, ok, ◌>>=◌, u32_mod,
}
use mathlib.Core.List.{append-nil, append_assoc}
use osvirt_project.UserHeap.{Tag, tag, tag_size, Heap, load, to_int, get_prev, prev_of, next_of}
use osvirt_project.UserHeap.Blocks.{Block, span, span-append, at, IsHeap, IsHeap-extent}
use osvirt_project.UserHeap.Find.{get_next_inner}
use osvirt_project.UserHeap.Place.{IsHeap-Stands}

-- A free block of `s` bytes in front of `post`, in one with a free first block of `post`.
abbrev pub free_right : ℕ → List Block → List Block
free_right s [] = (true, s) ∷ []
free_right s ((true, n) ∷ post) = (true, s + n + tag_size * 2) ∷ post
free_right s ((false, n) ∷ post) = (true, s) ∷ (false, n) ∷ post

-- The same behind `pre`, in one with a free last block of `pre`.
abbrev pub released : List Block → ℕ → List Block → List Block
released [] s post = free_right s post
released ((true, n) ∷ []) s post = free_right (n + s + tag_size * 2) post
released ((false, n) ∷ []) s post = (false, n) ∷ free_right s post
released (p ∷ q ∷ pre) s post = p ∷ released (q ∷ pre) s post

-- What `next_of` sees, and which blocks of `post` are to be taken in.
pub record Right (h : Heap) (cur : ℕ) (post : List Block) : Type 0 where
  pub absorbed : List Block
  pub rest : List Block
  pub is_free : Bool
  pub size : ℕ
  pub parts : post ≡ absorbed ++ rest
  pub seen : next_of cur h ≡ ok (is_free, size)
  pub how :
      ((is_free ≡ false) × (span absorbed ≡ 0))
      ⊎ ((is_free ≡ true) × (span absorbed ≡ size + tag_size * 2))
  pub comes : (s : ℕ) → free_right s post ≡ (true, s + span absorbed) ∷ rest

-- What `prev_of` sees, and which blocks of `pre` are to be taken in.
pub record Left (h : Heap) (pre : List Block) : Type 0 where
  pub kept : List Block
  pub absorbed : List Block
  pub is_free : Bool
  pub size : ℕ
  pub parts : pre ≡ kept ++ absorbed
  pub seen : prev_of (at h pre) h ≡ ok (is_free, size)
  pub how :
      ((is_free ≡ false) × (span absorbed ≡ 0))
      ⊎ ((is_free ≡ true)
          × (span absorbed ≡ size + tag_size * 2)
          × (get_prev (at h pre) h ≡ ok (at h kept)))
  pub comes :
      (s : ℕ) (post : List Block)
      → released pre s post ≡ kept ++ free_right (span absorbed + s) post

-- The tag that follows a block.
follow :
    (h : Heap) (pre post : List Block) (b : Block) (t : Tag)
    → IsHeap h (pre ++ (b ∷ post))
    → h.mem (at h pre + b.1 + tag_size * 2) ≡ some t
    → t.size < u32_mod
    → next_of (at h pre) h ≡ ok (t.free, t.size)
unfolding next_of
follow h pre post b t held there small =
    let stands = IsHeap-Stands h pre post b held in
    let most = stands.most in
    let next =
      get_next_inner h (at h pre) (tag b.0 b.1) stands.header (omega arith) (omega arith) in
    let same : to_int t.size ≡ t.size = omega arith in
    rw (next_of, next, ◌>>=◌, load, there, same) refl

follow_block :
    (h : Heap) (pre post : List Block) (b : Block) (f : Bool) (n : ℕ)
    → IsHeap h (pre ++ (b ∷ (f, n) ∷ post))
    → next_of (at h pre) h ≡ ok (f, n)
follow_block h pre post b f n held =
    let held' = subst (λ l. IsHeap h l) (sym (append_assoc pre (b ∷ []) ((f, n) ∷ post))) held in
    let next = IsHeap-Stands h (pre ++ (b ∷ [])) post (f, n) held' in
    let bounded = next.bounded in
    let spans = span-append pre (b ∷ []) in
    let there : at h (pre ++ (b ∷ [])) ≡ at h pre + b.1 + tag_size * 2 = omega arith in
    follow h pre ((f, n) ∷ post) b (tag f n) held (rw (sym there) next.header) (omega arith)

pub right :
    (h : Heap) (pre post : List Block) (b : Block)
    → IsHeap h (pre ++ (b ∷ post))
    → Right h (at h pre) post
right h pre [] b held =
    let (extent, small) = IsHeap-extent h (pre ++ (b ∷ [])) held in
    let spans = span-append pre (b ∷ []) in
    let end : h.brk - tag_size ≡ at h pre + b.1 + tag_size * 2 = omega arith in
    record {
      absorbed = [];
      rest = [];
      is_free = false;
      size = 0;
      parts = refl;
      seen = follow h pre [] b (tag false 0) held (rw (sym end) held.last) (omega arith);
      how = inl (refl, refl);
      comes = λ s. ap (λ k. (true, k) ∷ []) (omega arith);
    }
right h pre ((true, n) ∷ post) b held = record {
  absorbed = (true, n) ∷ [];
  rest = post;
  is_free = true;
  size = n;
  parts = refl;
  seen = follow_block h pre post b true n held;
  how = inr (refl, omega arith);
  comes = λ s. ap (λ k. (true, k) ∷ post) (omega arith);
}
right h pre ((false, n) ∷ post) b held = record {
  absorbed = [];
  rest = (false, n) ∷ post;
  is_free = false;
  size = n;
  parts = refl;
  seen = follow_block h pre post b false n held;
  how = inl (refl, refl);
  comes = λ s. ap (λ k. (true, k) ∷ (false, n) ∷ post) (omega arith);
}

-- A block behind another.
module _ (h : Heap) (kept post : List Block) (f : Bool) (n : ℕ) (b : Block)
    (held : IsHeap h ((kept ++ ((f, n) ∷ [])) ++ (b ∷ post))) where
  behind_get : get_prev (at h (kept ++ ((f, n) ∷ []))) h ≡ ok (at h kept)
  unfolding get_prev
  behind_get =
      let spans = span-append kept ((f, n) ∷ []) in
      let held' = subst (λ l. IsHeap h l) (append_assoc kept ((f, n) ∷ []) (b ∷ post)) held in
      let stands = IsHeap-Stands h kept (b ∷ post) (f, n) held' in
      let there : at h (kept ++ ((f, n) ∷ [])) - tag_size ≡ at h kept + tag_size + n =
        omega arith in
      let some_block : (at h (kept ++ ((f, n) ∷ [])) == h.start_brk) ≡ false = ground arith in
      let back : at h (kept ++ ((f, n) ∷ [])) - tag_size * 2 - n ≡ at h kept = omega arith in
      rw (get_prev, some_block, there, load, stands.footer, back) refl

  behind_prev : prev_of (at h (kept ++ ((f, n) ∷ []))) h ≡ ok (f, n)
  unfolding prev_of
  behind_prev =
      let spans = span-append kept ((f, n) ∷ []) in
      let held' = subst (λ l. IsHeap h l) (append_assoc kept ((f, n) ∷ []) (b ∷ post)) held in
      let stands = IsHeap-Stands h kept (b ∷ post) (f, n) held' in
      let there : at h (kept ++ ((f, n) ∷ [])) - tag_size ≡ at h kept + tag_size + n =
        omega arith in
      let least = stands.least in
      let bounded = stands.bounded in
      let some_size : (n == 0) ≡ false = ground arith in
      let same : to_int n ≡ n = omega arith in
      rw (prev_of, load, there, stands.footer, some_size, behind_get, ◌>>=◌, stands.header, same)
        refl

-- `released` behind a last block.
released-free :
    (kept post : List Block) (n s : ℕ)
    → released (kept ++ ((true, n) ∷ [])) s post ≡ kept ++ free_right (n + s + tag_size * 2) post
released-free [] post n s = refl
released-free (p ∷ []) post n s = refl
released-free (p ∷ q ∷ kept) post n s = ap (λ l. p ∷ l) (released-free (q ∷ kept) post n s)

released-used :
    (kept post : List Block) (n s : ℕ)
    → released (kept ++ ((false, n) ∷ [])) s post ≡ (kept ++ ((false, n) ∷ [])) ++ free_right s post
released-used [] post n s = refl
released-used (p ∷ []) post n s = refl
released-used (p ∷ q ∷ kept) post n s = ap (λ l. p ∷ l) (released-used (q ∷ kept) post n s)

snoc-cases :
    (l : List Block) → (l ≡ []) ⊎ ((kept : List Block) × (p : Block) × (l ≡ kept ++ (p ∷ [])))
snoc-cases [] = inl refl
snoc-cases (x ∷ l) = elim (snoc-cases l) [
  | inl e ↦ inr ([], x, ap (λ k. x ∷ k) e)
  | inr (kept, p, e) ↦ inr (x ∷ kept, p, ap (λ k. x ∷ k) e)
]

Left-fence : (h : Heap) (post : List Block) → IsHeap h post → Left h []
unfolding prev_of
Left-fence h post held =
    let there : at h [] - tag_size ≡ h.start_brk = omega arith in
    let zero_size : (0 == 0) ≡ true = ground arith in
    record {
      kept = [];
      absorbed = [];
      is_free = false;
      size = 0;
      parts = refl;
      seen = rw (prev_of, load, there, held.first) refl;
      how = inl (refl, refl);
      comes = λ s post. ap (λ k. free_right k post) (omega arith);
    }

Left-block :
    (h : Heap) (kept post : List Block) (f : Bool) (n : ℕ) (b : Block)
    → IsHeap h ((kept ++ ((f, n) ∷ [])) ++ (b ∷ post))
    → Left h (kept ++ ((f, n) ∷ []))
Left-block h kept post true n b held = record {
  kept = kept;
  absorbed = (true, n) ∷ [];
  is_free = true;
  size = n;
  parts = refl;
  seen = behind_prev h kept post true n b held;
  how = inr (refl, omega arith, behind_get h kept post true n b held);
  comes = λ s post. released-free kept post n s ∙ ap (λ k. kept ++ free_right k post) (omega arith);
}
Left-block h kept post false n b held = record {
  kept = kept ++ ((false, n) ∷ []);
  absorbed = [];
  is_free = false;
  size = n;
  parts = sym (append-nil (kept ++ ((false, n) ∷ [])));
  seen = behind_prev h kept post false n b held;
  how = inl (refl, refl);
  comes = λ s post.
      released-used kept post n s
      ∙ ap (λ k. (kept ++ ((false, n) ∷ [])) ++ free_right k post) (omega arith);
}

pub left :
    (h : Heap) (pre post : List Block) (b : Block) → IsHeap h (pre ++ (b ∷ post)) → Left h pre
left h pre post b held = elim (snoc-cases pre) [
  | inl e ↦
      subst (λ l. Left h l) (sym e)
        (Left-fence h (b ∷ post) (subst (λ l. IsHeap h (l ++ (b ∷ post))) e held))
  | inr (kept, (f, n), e) ↦
      subst (λ l. Left h l) (sym e)
        (Left-block h kept post f n b (subst (λ l. IsHeap h (l ++ (b ∷ post))) e held))
]

-- ===== src/PageTable/Grow.antt =====
-- Linking a fresh page into a page table: every path reads as before, but for those through the
-- new entry.
use osvirt_project.Base.{
  ℕ, ◌/◌, ◌%◌, ◌^◌, ◌≤◌, ◌<◌, ◌≡◌, ◌≢◌, ◌⊎◌, inl, inr, refl, sym, ◌∙◌, ap, Option, none, some, List,
  [], ◌∷◌, ◌++◌, arith, Option-cases, length, page_size,
}
use native.Mathlib.Decide.{ℕ_discrete}
use osvirt_project.PageTable.{Memory, entry_at, present, next_table}
use osvirt_project.PageTable.Walk.{
  reach, leaf, translate, InRange, path_of, strip, strip-some, strip-append, reach-frame,
  reach-append, reach-aligned, InRange-append, length-mid, path_of-InRange,
}

-- A table is reached by one path only.
pub record IsTree (m : Memory) (pml : ℕ) : Type 0 where
  pub aligned : pml % page_size ≡ 0
  pub unshared :
      (p q : List ℕ) (c : ℕ)
      → length p ≤ 3
      → length q ≤ 3
      → InRange p
      → InRange q
      → reach m pml p ≡ some c
      → reach m pml q ≡ some c
      → p ≡ q

-- No table of the tree lies in the page `a`.
abbrev pub Fresh : Memory → ℕ → ℕ → Type 0
Fresh m pml a = (q : List ℕ) → length q ≤ 3 → InRange q → reach m pml q ≢ some a

-- `m'` is `m` with the entry `i` of the table `t` set to the page `a`, which `clear` may have
-- cleared.
pub record Linked (m m' : Memory) (t i a : ℕ) : Type 0 where
  pub on : present (m' (entry_at t i)) ≡ 1
  pub to : next_table (m' (entry_at t i)) ≡ a
  pub others :
      (c j : ℕ)
      → c % page_size ≡ 0
      → j < 512
      → c ≢ a
      → (c ≢ t) ⊎ (j ≢ i)
      → m' (entry_at c j) ≡ m (entry_at c j)
  pub cleared : (j : ℕ) → j < 512 → m' (entry_at a j) ≡ 0

-- What a path reaches after the link, from its rest behind the new entry and what it reached.
abbrev pub grown : ℕ → Option (List ℕ) → Option ℕ → Option ℕ
grown a none old = old
grown a (some []) old = some a
grown a (some (j ∷ r)) old = none

grown-some : (a : ℕ) (r : List ℕ) (x y : Option ℕ) → grown a (some r) x ≡ grown a (some r) y
grown-some a [] x y = refl
grown-some a (j ∷ r) x y = refl

grown-cases :
    (a c : ℕ) (x : Option (List ℕ)) (o : Option ℕ) → grown a x o ≡ some c → (o ≡ some c) ⊎ (c ≡ a)
grown-cases a c none o e = inl e
grown-cases a c (some []) o e = inr (ground arith)
grown-cases a c (some (j ∷ r)) o e = ground arith

module _ (m m' : Memory) (pml t i a : ℕ) (p : List ℕ) (tree : IsTree m pml)
    (at : reach m pml p ≡ some t) (short : length p ≤ 2) (range : InRange p) (small : i < 512)
    (fresh : Fresh m pml a) (link : Linked m m' t i a) where
  -- A path that does not go through the new entry reads no changed word.
  reach-aside :
      (q : List ℕ)
      → length q ≤ 3
      → InRange q
      → ((r : List ℕ) → q ≢ p ++ (i ∷ r))
      → reach m' pml q ≡ reach m pml q
  reach-aside q len inr' avoid = reach-frame m m' pml q λ r j c s e here.
      let parts = InRange-append r (j ∷ s) (rw (← e) inr') in
      let bound : length r ≤ 3 = omega (arith, length-mid r j s, ap length e) in
      link.others c j (reach-aligned m pml r c tree.aligned here) parts.1.0
        (λ same. fresh r bound parts.0 (here ∙ ap some same)) (aside r j c s e here bound parts.0)
    where
      aside :
          (r : List ℕ) (j c : ℕ) (s : List ℕ)
          → q ≡ r ++ (j ∷ s)
          → reach m pml r ≡ some c
          → length r ≤ 3
          → InRange r
          → (c ≢ t) ⊎ (j ≢ i)
      aside r j c s e here bound ok = elim (ℕ_discrete c t) [
        | no ne ↦ inl ne
        | yes same ↦ inr λ j=i.
            let same_path =
              tree.unshared r p c bound (omega arith) ok range here (at ∙ ap some (sym same)) in
            avoid s (e ∙ ap (λ l. l ++ (j ∷ s)) same_path ∙ ap (λ k. p ++ (k ∷ s)) j=i)
      ]

  -- The path to the table of the new entry is not through it.
  pub reach_self : reach m' pml p ≡ some t
  reach_self =
      reach-aside p (omega arith) range
        (λ r e. let l = ap length e in absurd (omega (arith, length-mid p i r)))
      ∙ at

  pub reach-new : (r : List ℕ) → InRange r → reach m' pml (p ++ (i ∷ r)) ≡ grown a (some r) none
  unfolding reach
  reach-new [] ok = reach-append m' pml t p (i ∷ []) reach_self ∙ rw (link.on, link.to)
  reach-new (j ∷ r) ok =
      reach-append m' pml t p (i ∷ j ∷ r) reach_self ∙ rw (link.on, link.to, link.cleared j ok.0)

  pub reach-grown :
      (q : List ℕ)
      → length q ≤ 3
      → InRange q
      → reach m' pml q ≡ grown a (strip p i q) (reach m pml q)
  reach-grown q len ok = elim (Option-cases (strip p i q)) [
    | inl aside ↦ rw aside (
        reach-aside q len ok
          λ r e. let hit : some r ≡ none = sym (rw e (strip-append p i r)) ∙ aside in cc)
    | inr through ↦
        let e = strip-some p i q through.0 through.1 in
        rw through.1 (
          ap (reach m' pml) e
          ∙ reach-new through.0 (InRange-append p (i ∷ through.0) (rw e at ok)).1.1
          ∙ grown-some a through.0 none (reach m pml q))
  ]

  -- A table that is reached now was reached before, or is the new page.
  pub reach-old_or_new :
      (q : List ℕ) (c : ℕ)
      → length q ≤ 3
      → InRange q
      → reach m' pml q ≡ some c
      → (reach m pml q ≡ some c) ⊎ (c ≡ a)
  reach-old_or_new q c len ok e =
      grown-cases a c (strip p i q) (reach m pml q) (sym (reach-grown q len ok) ∙ e)

  -- The page table stays a tree.
  pub IsTree-grown : IsTree m' pml
  IsTree-grown = record {
    aligned = tree.aligned;
    unshared = λ q r c lq lr oq or hq hr.
        one_path q r c lq lr oq or (strip p i q) refl (strip p i r) refl
          (sym (reach-grown q lq oq) ∙ hq) (sym (reach-grown r lr or) ∙ hr);
  }
    where
      one_path :
          (q r : List ℕ) (c : ℕ)
          → length q ≤ 3
          → length r ≤ 3
          → InRange q
          → InRange r
          → (x : Option (List ℕ)) → strip p i q ≡ x
          → (y : Option (List ℕ)) → strip p i r ≡ y
          → grown a (strip p i q) (reach m pml q) ≡ some c
          → grown a (strip p i r) (reach m pml r) ≡ some c
          → q ≡ r
      one_path q r c lq lr oq or none eq none er hq hr =
          tree.unshared q r c lq lr oq or (rw eq at hq) (rw er at hr)
      one_path q r c lq lr oq or (some []) eq (some []) er hq hr =
          strip-some p i q [] eq ∙ sym (strip-some p i r [] er)
      one_path q r c lq lr oq or (some []) eq none er hq hr =
          let new : some a ≡ some c = rw eq at hq in
          absurd (fresh r lr or ((rw er at hr) ∙ sym new))
      one_path q r c lq lr oq or none eq (some []) er hq hr =
          let new : some a ≡ some c = rw er at hr in
          absurd (fresh q lq oq ((rw eq at hq) ∙ sym new))
      one_path q r c lq lr oq or (some (j ∷ s)) eq y er hq hr =
          let gone : none ≡ some c = rw eq at hq in cc
      one_path q r c lq lr oq or x eq (some (j ∷ s)) er hq hr =
          let gone : none ≡ some c = rw er at hr in cc

  module _ (off : present (m (entry_at t i)) ≡ 0) where
    -- Nothing was reached through an entry that is not present.
    reach-off : (r : List ℕ) → reach m pml (p ++ (i ∷ r)) ≡ none
    unfolding reach
    reach-off r = reach-append m pml t p (i ∷ r) at ∙ rw off

    leaf-aside :
        (q : List ℕ) (j : ℕ)
        → length q ≡ 3
        → InRange q
        → j < 512
        → (o : Option ℕ) → reach m pml q ≡ o
        → leaf m' o j ≡ leaf m o j
    unfolding leaf
    leaf-aside q j three ok lt none here = refl
    leaf-aside q j three ok lt (some c) here =
        let old =
          link.others c j (reach-aligned m pml q c tree.aligned here) lt
            (λ e. fresh q (omega arith) ok (here ∙ ap some e))
            (inl λ e.
              let same = ap length (
                tree.unshared q p c (omega arith) (omega arith) ok range here
                  (at ∙ ap some (sym e))) in
              omega arith) in
        rw old

    leaf-grown :
        (q : List ℕ) (j : ℕ)
        → length q ≡ 3
        → InRange q
        → j < 512
        → (x : Option (List ℕ)) → strip p i q ≡ x
        → leaf m' (grown a x (reach m pml q)) j ≡ leaf m (reach m pml q) j
    unfolding leaf
    leaf-grown q j three ok lt none e = leaf-aside q j three ok lt (reach m pml q) refl
    leaf-grown q j three ok lt (some []) e =
        rw (ap (reach m pml) (strip-some p i q [] e) ∙ reach-off [], link.cleared j lt)
    leaf-grown q j three ok lt (some (k ∷ r)) e =
        rw (ap (reach m pml) (strip-some p i q (k ∷ r) e) ∙ reach-off (k ∷ r))

    -- No virtual address gains or loses its page.
    pub translate-grown : (va : ℕ) → translate m' pml va ≡ translate m pml va
    unfolding translate
    translate-grown va =
        ap (λ o. leaf m' o ((va / 2 ^ 12) % 512))
          (reach-grown (path_of va) (omega arith) (path_of-InRange va))
        ∙ leaf-grown (path_of va) ((va / 2 ^ 12) % 512) refl (path_of-InRange va) (omega arith)
            (strip p i (path_of va)) refl

-- ===== src/Kernel/Start/Shared.antt =====
-- The user's table before the program is mapped: a tree that shares the tables behind the kernel's
-- first entry.
use osvirt_project.Base.{
  ℕ, zero, suc, ◌/◌, ◌%◌, ◌^◌, ◌≤◌, ◌<◌, ◌≡◌, ◌≢◌, refl, sym, ap, subst, ◌∙◌, ◌⊎◌, inl, inr, Option,
  none, some, List, [], ◌∷◌, length, arith, Run, page_size,
}
use osvirt_project.PageTable.{Memory, entry_at, present, next_table, store, clear_page}
use osvirt_project.PageTable.Walk.{
  reach, leaf, translate, InRange, InRange-append, reach-frame, reach-aligned, length-mid,
}
use osvirt_project.PageTable.Level.{PageSource, IsSound}
use osvirt_project.Kernel.Start.{share_kernel}

-- The words of the user's table, and those of every other page.
module _ (u k : ℕ) (m : Memory) (aligned_u : u % page_size ≡ 0) (apart : k ≢ u)
    (aligned_k : k % page_size ≡ 0) where
  pub shared-first : next_table (share_kernel u k m (entry_at u 0)) ≡ next_table (m (entry_at k 0))
  unfolding share_kernel store clear_page
  shared-first = ground arith

  pub shared-on : present (share_kernel u k m (entry_at u 0)) ≡ 1
  unfolding share_kernel store clear_page
  shared-on = ground arith

  pub shared-none : (i : ℕ) → 0 < i → i < 512 → share_kernel u k m (entry_at u i) ≡ 0
  unfolding share_kernel store clear_page
  shared-none i above small = ground arith

  pub shared-other :
      (c j : ℕ)
      → c % page_size ≡ 0
      → c ≢ u
      → j < 512
      → share_kernel u k m (entry_at c j) ≡ m (entry_at c j)
  unfolding share_kernel store clear_page
  shared-other c j aligned other small = ground arith

module _ {S : Type 0} (get_page : S → Run (ℕ × S)) (source : PageSource get_page) (u k : ℕ)
    (m : Memory) (s s1 : S) (sound : IsSound get_page source k m s)
    (on : present (m (entry_at k 0)) ≡ 1) (aligned : u % page_size ≡ 0) (has : source.Has s u)
    (gone : ¬ (source.Has s1 u)) (shrinks : (a : ℕ) → source.Has s1 a → source.Has s a)
    (ready : source.CanGive s1) where
  abbrev shared : Memory
  shared = share_kernel u k m

  fresh : (q : List ℕ) (c : ℕ) → length q ≤ 3 → InRange q → reach m k q ≡ some c → c ≢ u
  fresh q c short range at e = sound.apart q c short range at (subst (source.Has s) (sym e) has)

  apart_pml : k ≢ u
  unfolding reach
  apart_pml = fresh [] k (omega arith) tt refl

  -- Behind the first entry the user's table is the kernel's.
  pub reach-shared :
      (q : List ℕ) → length q ≤ 2 → InRange q → reach shared u (0 ∷ q) ≡ reach m k (0 ∷ q)
  unfolding reach
  reach-shared q short range =
      let first = shared-first u k m aligned apart_pml sound.tree.aligned in
      let there = shared-on u k m aligned apart_pml sound.tree.aligned in
      let a = next_table (m (entry_at k 0)) in
      let frame : reach shared a q ≡ reach m a q = reach-frame m shared a q λ r j c t e at.
        let (front, (small, rest)) = InRange-append r (j ∷ t) (subst InRange e range) in
        let len : length r ≤ 2 = omega (arith, length-mid r j t, ap length e) in
        shared-other u k m aligned apart_pml sound.tree.aligned c j
          (reach-aligned m a r c (omega arith) at)
          (fresh (0 ∷ r) c (omega arith) (omega arith, front) (rw (reach, on) at)) small in
      rw (reach, there, on, first) frame

  reach-none : (i : ℕ) (q : List ℕ) → 0 < i → i < 512 → reach shared u (i ∷ q) ≡ none
  unfolding reach
  reach-none i q above small =
      rw (reach, shared-none u k m aligned apart_pml sound.tree.aligned i above small) refl

  -- A table that is reached is the user's own, or one of the kernel's.
  reach-cases :
      (q : List ℕ) (c : ℕ)
      → length q ≤ 3
      → InRange q
      → reach shared u q ≡ some c
      → ((q ≡ []) × (c ≡ u)) ⊎ ((r : List ℕ) × (q ≡ 0 ∷ r) × (reach m k q ≡ some c))
  unfolding reach
  reach-cases [] c short range at = inl (refl, ground arith)
  reach-cases (zero ∷ q) c short (small, range) at =
      inr (q, refl, sym (reach-shared q (omega arith) range) ∙ at)
  reach-cases (suc i ∷ q) c short (small, range) at = absurd (
      let nothing = reach-none (suc i) q (omega arith) small in
      let no : none ≡ some c = sym nothing ∙ at in cc)

  shared-unshared :
      (p q : List ℕ) (c : ℕ)
      → length p ≤ 3
      → length q ≤ 3
      → InRange p
      → InRange q
      → reach shared u p ≡ some c
      → reach shared u q ≡ some c
      → p ≡ q
  shared-unshared p q c lp lq rp rq hp hq = elim (reach-cases p c lp rp hp) [
    | inl (e, is) ↦ elim (reach-cases q c lq rq hq) [
      | inl (e', is') ↦ e ∙ sym e'
      | inr (r', e', at') ↦ absurd (fresh q c lq rq at' is)
    ]
    | inr (r, e, at) ↦ elim (reach-cases q c lq rq hq) [
      | inl (e', is') ↦ absurd (fresh p c lp rp at is')
      | inr (r', e', at') ↦ sound.tree.unshared p q c lp lq rp rq at at'
    ]
  ]

  pub shared-IsSound : IsSound get_page source u shared s1
  shared-IsSound = record {
    tree = record { aligned = aligned; unshared = shared-unshared };
    ready = ready;
    apart = λ q c l o e h. elim (reach-cases q c l o e) [
      | inl (none_in, is) ↦ gone (subst (source.Has s1) is h)
      | inr (r, way, at) ↦ sound.apart q c l o at (shrinks c h)
    ];
  }

  leaf-shared :
      (o : Option ℕ) (i : ℕ)
      → i < 512
      → ((c : ℕ) → o ≡ some c → (c % page_size ≡ 0) × (c ≢ u))
      → leaf shared o i ≡ leaf m o i
  unfolding leaf
  leaf-shared none i small is = refl
  leaf-shared (some c) i small is =
      let (at, other) = is c refl in
      rw (shared-other u k m aligned apart_pml sound.tree.aligned c i at other small) refl

  -- The first 512 GB are translated as in the kernel's table.
  pub translate-shared : (va : ℕ) → va < 2 ^ 39 → translate shared u va ≡ translate m k va
  unfolding translate
  translate-shared va low =
      let first : va / 2 ^ 39 % 512 ≡ 0 = omega arith in
      let rest : List ℕ = (va / 2 ^ 30 % 512) ∷ (va / 2 ^ 21 % 512) ∷ [] in
      let range : InRange rest = omega arith in
      rw (translate, first, reach-shared rest (omega arith) range)
        (leaf-shared (reach m k (0 ∷ rest)) (va / 2 ^ 12 % 512) (omega arith) (λ c e. (
          reach-aligned m k (0 ∷ rest) c sound.tree.aligned e,
          fresh (0 ∷ rest) c (omega arith) (omega arith, range) e,
        )))

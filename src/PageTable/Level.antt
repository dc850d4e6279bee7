-- ===== src/PageTable/Level.antt =====
-- One level of `map_memory`: the entry is present already, or a fresh page is linked in.
use osvirt_project.Base.{
  ℕ, ◌/◌, ◌%◌, ◌^◌, ◌≤◌, ◌<◌, ◌≡◌, ◌≢◌, ◌⊎◌, inl, inr, refl, sym, ◌∙◌, ap, true, false, some, List,
  [], ◌∷◌, ◌++◌, Bool-cases, length, Run, ok, halted, arith, ◌==◌, page_size,
}
use osvirt_project.PageTable.{Memory, entry_at, present, next_table, clear_page, ensure}
use osvirt_project.PageTable.Walk.{reach, translate, InRange, reach-append, reach-aligned}
use osvirt_project.PageTable.Grow.{
  IsTree, Fresh, Linked, reach-new, IsTree-grown, translate-grown, reach-old_or_new,
}
use osvirt_project.PageTable.Word.{Setter, IsSetter, IsSetter-Linked}

-- What `map_memory` relies on of `get_block(1)`: from a state in which it can give it returns, in such a state;
-- its result is `NULL` or a page-aligned page below 2 ^ 52 that it had and has no longer; and it never
-- gains pages.
pub record PageSource {S : Type 0} (get_block : S → Run (ℕ × S)) : Type 1 where
  pub Has : S → ℕ → Type 0
  pub CanGive : S → Type 0
  pub returns : (s : S) → CanGive s → (r : ℕ × S) × (get_block s ≡ ok r)
  pub keeps : (s : S) (r : ℕ × S) → CanGive s → get_block s ≡ ok r → CanGive r.1
  pub gives :
      (s : S) (r : ℕ × S)
      → CanGive s
      → get_block s ≡ ok r
      → r.0 ≢ 0
      → Has s r.0 × (¬ Has r.1 r.0) × (r.0 % page_size ≡ 0) × (r.0 < 2 ^ 52)
  pub shrinks : (s : S) (r : ℕ × S) → CanGive s → get_block s ≡ ok r → (a : ℕ) → Has r.1 a → Has s a

module _ {S : Type 0} (get_block : S → Run (ℕ × S)) (source : PageSource get_block) where
  -- There is a state in which `get_block` can give and in which it returns `NULL`.
  abbrev pub RunsDry : Type 0
  RunsDry = (t s' : S) × source.CanGive t × (get_block t ≡ ok (0, s'))

  -- The machine halts, and there is such a state.
  abbrev pub HaltsDry : {A : Type 0} → Run A → Type 0
  HaltsDry run = (run ≡ halted) × RunsDry

module _ {S : Type 0} (get_block : S → Run (ℕ × S)) (source : PageSource get_block) (pml : ℕ) where
  open source use {Has, CanGive, returns, keeps, gives, shrinks}

  -- The table is a tree, none of its tables is a page that `get_block` still has, and it can give.
  pub record IsSound (m : Memory) (s : S) : Type 0 where
    pub tree : IsTree m pml
    pub ready : CanGive s
    pub apart : (q : List ℕ) (c : ℕ) → length q ≤ 3 → InRange q → reach m pml q ≡ some c → ¬ Has s c

  -- What one level leaves: either the level's code, for want of a page, or 0 and a path that is
  -- one longer. No translation changes.
  pub record Ensured (code t i : ℕ) (p : List ℕ) (m : Memory) (r : ℕ × Memory × S) : Type 0 where
    pub still : IsSound r.1 r.2
    pub same : (va : ℕ) → translate r.1 pml va ≡ translate m pml va
    pub way :
        ((r.0 ≡ code) × RunsDry get_block source)
        ⊎ ((r.0 ≡ 0) × (reach r.1 pml (p ++ (i ∷ [])) ≡ some (next_table (r.1 (entry_at t i)))))

  module _ (set_entry : Setter) (sets : IsSetter set_entry) (code t i usermode : ℕ) (p : List ℕ)
      (short : length p ≤ 2) (range : InRange p) (small : i < 512) (m : Memory) (s : S)
      (sound : IsSound m s) (at : reach m pml p ≡ some t) where
    abbrev pub Outcome : Type 0
    Outcome =
        (r : ℕ × Memory × S) × (ensure get_block set_entry code t i usermode (m, s) ≡ ok r)
        × Ensured code t i p m r

    ensure_present : (present (m (entry_at t i)) == 0) ≡ false → Outcome
    unfolding ensure reach
    ensure_present on =
        let one : present (m (entry_at t i)) ≡ 1 = ground arith in
        (
          (0, m, s),
          rw on,
          record {
            still = sound;
            same = λ va. refl;
            way = inr (refl, reach-append m pml t p (i ∷ []) at ∙ rw one);
          },
        )

    module _ (off : (present (m (entry_at t i)) == 0) ≡ true) (r : ℕ × S)
        (got : get_block s ≡ ok r) where
      ensure_null : (r.0 == 0) ≡ true → Outcome
      unfolding ensure
      ensure_null null = (
        (code, m, r.1),
        rw (off, got, null),
        record {
          still = record {
            tree = sound.tree;
            ready = keeps s r sound.ready got;
            apart = λ q c l o e h. sound.apart q c l o e (shrinks s r sound.ready got c h);
          };
          same = λ va. refl;
          way =
              let at : r.0 ≡ 0 = ground arith in
              inl (refl, (s, r.1, sound.ready, got ∙ ap (λ x. ok (x, r.1)) at));
        },
      )

      ensure_page : (r.0 == 0) ≡ false → Outcome
      unfolding ensure
      ensure_page page =
          let (has, gone, aligned, below) = gives s r sound.ready got (ground arith) in
          let m' = set_entry (clear_page m r.0) t i (r.0 / page_size) 1 usermode in
          let fresh : Fresh m pml r.0 = λ q l o e. sound.apart q r.0 l o e has in
          let link : Linked m m' t i r.0 =
            IsSetter-Linked set_entry m t i r.0 usermode sets
              (reach-aligned m pml p t sound.tree.aligned at) aligned below small
              (λ e. fresh p (omega arith) range (at ∙ ap some (sym e))) in
          (
            (0, m', r.1),
            rw (off, got, page),
            record {
              still = record {
                tree = IsTree-grown m m' pml t i r.0 p sound.tree at short range small fresh link;
                ready = keeps s r sound.ready got;
                apart = λ q c l o e h.
                    elim (reach-old_or_new m m' pml t i r.0 p sound.tree at short range small fresh
                      link q c l o e) [
                        | inl old ↦ sound.apart q c l o old (shrinks s r sound.ready got c h)
                        | inr new ↦ gone (rw new at h)
                      ];
              };
              same =
                  translate-grown m m' pml t i r.0 p sound.tree at short range small fresh link
                    (ground arith);
              way = inr (
                refl,
                reach-new m m' pml t i r.0 p sound.tree at short range small fresh link [] tt
                    ∙ ap some (sym link.to),
              );
            },
          )

    pub ensure-Ensured : Outcome
    ensure-Ensured = elim (Bool-cases (present (m (entry_at t i)) == 0)) [
      | inr on ↦ ensure_present on
      | inl off ↦
          let (r, got) = returns s sound.ready in
          elim (Bool-cases (r.0 == 0)) [
            | inl null ↦ ensure_null off r got null
            | inr page ↦ ensure_page off r got page
          ]
    ]

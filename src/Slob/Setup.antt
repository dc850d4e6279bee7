-- ===== src/Slob/Setup.antt =====
-- `__init_slob_list`, one list after the other.
use osvirt_project.Base.{
  ℕ, ◌+◌, ◌-◌, ◌*◌, ◌/◌, ◌%◌, ◌≤◌, ◌<◌, ◌≡◌, ◌≢◌, refl, sym, ap, subst, ◌∙◌, ◌⊎◌, inl, inr, Bool,
  true, false, ◌||◌, [], arith, Bool-cases, ◌==◌, u64_mod, page_size,
}
use osvirt_project.ListLib.{ListLib, has}
use osvirt_project.Slob.{
  SlobType, small, medium, large, index, slob_sizes, Bounds, Slob, set_bounds, init_slob_list,
}
use osvirt_project.Slob.Areas.{bounds_of, IsBlock}
use osvirt_project.Slob.Kept.{index-cases, index-one}
use osvirt_project.Slob.Fill.{InRun, Added, IsAbsent, slob_sizes-pos, add_blks-Added}

-- The blocks of some pages.
rounds-whole :
    (t : SlobType) (n : ℕ) → (n * page_size) / slob_sizes t * slob_sizes t ≡ n * page_size
rounds-whole small n = omega arith
rounds-whole medium n = omega arith
rounds-whole large n = omega arith

run-within :
    (t : SlobType) (n j : ℕ)
    → j < (n * page_size) / slob_sizes t
    → ((j * slob_sizes t) % slob_sizes t ≡ 0) × (j * slob_sizes t + slob_sizes t ≤ n * page_size)
run-within small n j lt = (omega arith, omega arith)
run-within medium n j lt = (omega arith, omega arith)
run-within large n j lt = (omega arith, omega arith)

within-run :
    (t : SlobType) (n base a : ℕ)
    → base ≤ a
    → (a - base) % slob_sizes t ≡ 0
    → a + slob_sizes t ≤ base + n * page_size
    → InRun ((n * page_size) / slob_sizes t) base t a
within-run small n base a low whole high = ((a - base) / 256, omega arith, omega arith)
within-run medium n base a low whole high = ((a - base) / 1024, omega arith, omega arith)
within-run large n base a low whole high = ((a - base) / page_size, omega arith, omega arith)

module _ (lib : ListLib) where
  open lib use {items, list_init, items-init_self, items-init_other}

  -- The lists of some of the types are those of their blocks, and nothing else is in a list.
  pub record IsPart (filled : SlobType → Bool) (s : Slob lib) : Type 0 where
    pub lists :
        (k a : ℕ)
        → has a (items s.links k) ≡ true
        → (t : SlobType) × (k ≡ index t) × (filled t ≡ true) × IsBlock lib t a s
    pub full :
        (t : SlobType) (a : ℕ)
        → filled t ≡ true
        → IsBlock lib t a s
        → has a (items s.links (index t)) ≡ true

  links-set_bounds :
      (t : SlobType) (b : Bounds) (s : Slob lib) → (set_bounds lib t b s).links ≡ s.links
  links-set_bounds small b s = refl
  links-set_bounds medium b s = refl
  links-set_bounds large b s = refl

  bounds_self :
      (t : SlobType) (b : Bounds) (s : Slob lib) → bounds_of lib t (set_bounds lib t b s) ≡ b
  bounds_self small b s = refl
  bounds_self medium b s = refl
  bounds_self large b s = refl

  bounds_other :
      (t u : SlobType) (b : Bounds) (s : Slob lib) (l : lib.Links)
      → index u ≢ index t
      → bounds_of lib u (set_bounds lib t b (record s { links = l })) ≡ bounds_of lib u s
  bounds_other small small b s l ne = absurd (ne refl)
  bounds_other medium medium b s l ne = absurd (ne refl)
  bounds_other large large b s l ne = absurd (ne refl)
  bounds_other small medium b s l ne = refl
  bounds_other small large b s l ne = refl
  bounds_other medium small b s l ne = refl
  bounds_other medium large b s l ne = refl
  bounds_other large small b s l ne = refl
  bounds_other large medium b s l ne = refl

  IsBlock-same :
      (s s' : Slob lib) {Q : SlobType → Type 0}
      → ((u : SlobType) → Q u → bounds_of lib u s' ≡ bounds_of lib u s)
      → (u : SlobType) → Q u
      → (a : ℕ) → IsBlock lib u a s
      → IsBlock lib u a s'
  IsBlock-same s s' same u q a b = record {
    low = rw (same u q) b.low;
    whole = rw (same u q) b.whole;
    high = rw (same u q) b.high;
  }

  module _ (base n : ℕ) (t : SlobType) (filled : SlobType → Bool) (s : Slob lib)
      (part : IsPart filled s) (below : base + n * page_size < u64_mod) (fresh : filled t ≡ false)
      (apart : (u : SlobType)
        → filled u ≡ true
        → ((bounds_of lib u s).high ≤ base)
          ⊎ (base + n * page_size ≤ (bounds_of lib u s).low)) where
    abbrev fill : SlobType → Bool
    fill u = filled u || (index u == index t)

    abbrev bounds : Bounds
    bounds = record { low = base; high = (base + n * page_size) % u64_mod }

    abbrev cleared : Slob lib
    cleared = set_bounds lib t bounds (record s { links = list_init (index t) s.links })

    cleared_self : items cleared.links (index t) ≡ []
    cleared_self =
        ap (λ l. items l (index t))
          (links-set_bounds t bounds (record s { links = list_init (index t) s.links }))
        ∙ items-init_self (index t) s.links

    cleared_other : (k : ℕ) → k ≢ index t → items cleared.links k ≡ items s.links k
    cleared_other k ne =
        ap (λ l. items l k)
          (links-set_bounds t bounds (record s { links = list_init (index t) s.links }))
        ∙ items-init_other (index t) k s.links ne

    cleared-IsAbsent :
        (a : ℕ) → InRun ((n * page_size) / slob_sizes t) base t a → IsAbsent lib a cleared
    unfolding has
    cleared-IsAbsent a (j, lt, at) k = elim (index-cases k t) [
      | inl one ↦ ap (λ l. has a (items cleared.links l)) one ∙ ap (has a) cleared_self
      | inr two ↦ ap (has a) (cleared_other k two) ∙ elim (Bool-cases (has a (items s.links k))) [
        | inl on ↦
            let (u, listed, has_been, block) = part.lists k a on in
            let pos = slob_sizes-pos u in
            let low = block.low in
            let high = block.high in
            let (whole, inside) = run-within t n j lt in
            elim (apart u has_been) [
              | inl before ↦ absurd (omega arith)
              | inr behind ↦ absurd (let pos' = slob_sizes-pos t in omega arith)
            ]
        | inr off ↦ off
      ]
    ]

    abbrev added : Slob lib
    added = init_slob_list lib base n t s

    added-Added : Added lib ((n * page_size) / slob_sizes t) base t cleared added
    unfolding init_slob_list
    added-Added =
        add_blks-Added lib ((n * page_size) / slob_sizes t) base t cleared
          (let whole = rounds-whole t n in omega arith) cleared-IsAbsent

    pub added-bounds : bounds_of lib t added ≡ record { low = base; high = base + n * page_size }
    added-bounds =
        added-Added.bounds t
        ∙ bounds_self t bounds (record s { links = list_init (index t) s.links })
        ∙ ap (λ h. record { low = base; high = h }) (omega arith)

    pub added-bounds_other :
        (u : SlobType) → index u ≢ index t → bounds_of lib u added ≡ bounds_of lib u s
    added-bounds_other u ne =
        added-Added.bounds u ∙ bounds_other t u bounds s (list_init (index t) s.links) ne

    -- The list of the type holds its blocks, and those of the filled types still theirs.
    module _ (u : SlobType) (a : ℕ) (two : index u ≢ index t) where
      block-old : IsBlock lib u a added → IsBlock lib u a s
      block-old = IsBlock-same added s (λ v h. sym (added-bounds_other v h)) u two a

      block-new : IsBlock lib u a s → IsBlock lib u a added
      block-new = IsBlock-same s added added-bounds_other u two a

    run-block : (a : ℕ) → InRun ((n * page_size) / slob_sizes t) base t a → IsBlock lib t a added
    run-block a (j, lt, at) =
        let (whole, inside) = run-within t n j lt in
        let from : a - base ≡ j * slob_sizes t = omega arith in
        record {
          low = rw added-bounds (omega arith);
          whole = rw (added-bounds, from) whole;
          high = rw added-bounds (omega arith);
        }

    block-run : (a : ℕ) → IsBlock lib t a added → InRun ((n * page_size) / slob_sizes t) base t a
    block-run a b =
        within-run t n base a (rw added-bounds at b.low) (rw added-bounds at b.whole)
          (rw added-bounds at b.high)

    pub added-IsPart : IsPart fill added
    unfolding has
    added-IsPart = record { lists = lists; full = full }
      where
        lists :
            (k a : ℕ)
            → has a (items added.links k) ≡ true
            → (u : SlobType) × (k ≡ index u) × (fill u ≡ true) × IsBlock lib u a added
        lists k a h = elim (index-cases k t) [
          | inl one ↦
              elim (added-Added.new a (sym (ap (λ l. has a (items added.links l)) one) ∙ h)) [
                | inl before ↦ let none_left = ap (has a) cleared_self in absurd cc
                | inr run ↦ (t, one, ground arith, run-block a run)
              ]
          | inr two ↦
              let (u, listed, has_been, block) =
                part.lists k a
                  (sym (ap (has a) (added-Added.other k two ∙ cleared_other k two)) ∙ h) in
              (u, listed, rw has_been refl, block-new u a (λ e. two (listed ∙ e)) block)
        ]

        full :
            (u : SlobType) (a : ℕ)
            → fill u ≡ true
            → IsBlock lib u a added
            → has a (items added.links (index u)) ≡ true
        full u a filled_u b = elim (index-cases (index u) t) [
          | inl one ↦
              ap (λ l. has a (items added.links l)) one
              ∙ added-Added.run a
                  (block-run a (subst (λ v. IsBlock lib v a added) (index-one u t one) b))
          | inr two ↦
              ap (has a) (added-Added.other (index u) two ∙ cleared_other (index u) two)
              ∙ part.full u a (ground arith) (block-old u a two b)
        ]

-- ===== src/Slob/Fill.antt =====
-- What `__init_slob_list` puts into a list.
use osvirt_project.Base.{
  ℕ, zero, suc, ◌+◌, ◌*◌, ◌%◌, ◌<◌, ◌≡◌, ◌≢◌, refl, ap, ◌∙◌, ◌⊎◌, inl, inr, true, false, ◌||◌, [],
  ◌∷◌, arith, Bool-cases, ◌==◌, u64_mod,
}
use osvirt_project.ListLib.{ListLib, has, has-append}
use osvirt_project.Slob.{SlobType, small, medium, large, index, slob_sizes, Slob, add_blk, add_blks}
use osvirt_project.Slob.Areas.{bounds_of}
use osvirt_project.Slob.Kept.{index-cases, bounds-add_blk}

pub slob_sizes-pos : (t : SlobType) → 0 < slob_sizes t
slob_sizes-pos small = omega arith
slob_sizes-pos medium = omega arith
slob_sizes-pos large = omega arith

-- One of a run of blocks from an address on.
abbrev pub InRun : (rounds i : ℕ) → SlobType → ℕ → Type 0
InRun rounds i t a = (j : ℕ) × (j < rounds) × (a ≡ i + j * slob_sizes t)

InRun-cases :
    (k i : ℕ) (t : SlobType) (a : ℕ)
    → InRun (suc k) i t a
    → (a ≡ i) ⊎ InRun k (i + slob_sizes t) t a
InRun-cases k i t a (zero, lt, e) = inl (omega arith)
InRun-cases k i t a (suc j, lt, e) = inr (j, omega arith, omega arith)

module _ (lib : ListLib) where
  open lib use {items, items-push_back_self, items-push_back_other}

  pub record Added (rounds i : ℕ) (t : SlobType) (s s' : Slob lib) : Type 0 where
    pub new :
        (a : ℕ)
        → has a (items s'.links (index t)) ≡ true
        → (has a (items s.links (index t)) ≡ true) ⊎ InRun rounds i t a
    pub old :
        (a : ℕ) → has a (items s.links (index t)) ≡ true → has a (items s'.links (index t)) ≡ true
    pub run : (a : ℕ) → InRun rounds i t a → has a (items s'.links (index t)) ≡ true
    pub other : (k : ℕ) → k ≢ index t → items s'.links k ≡ items s.links k
    pub bounds : (u : SlobType) → bounds_of lib u s' ≡ bounds_of lib u s

  abbrev pub IsAbsent : (a : ℕ) → Slob lib → Type 0
  IsAbsent a s = (k : ℕ) → has a (items s.links k) ≡ false

  module _ (t : SlobType) (i : ℕ) (s : Slob lib) (out : IsAbsent i s) where
    one_self :
        (a : ℕ)
        → has a (items (add_blk lib t i s).links (index t))
          ≡ (has a (items s.links (index t)) || (a == i))
    unfolding add_blk has
    one_self a =
        ap (has a) (items-push_back_self (index t) i s.links out)
        ∙ has-append a (items s.links (index t)) (i ∷ [])
        ∙ ground arith

    one_other : (k : ℕ) → k ≢ index t → items (add_blk lib t i s).links k ≡ items s.links k
    unfolding add_blk
    one_other k ne = items-push_back_other (index t) i k s.links out ne

    one-IsAbsent : (a : ℕ) → a ≢ i → IsAbsent a s → IsAbsent a (add_blk lib t i s)
    one-IsAbsent a ne absent k = elim (index-cases k t) [
      | inl one ↦
          ap (λ l. has a (items (add_blk lib t i s).links l)) one
          ∙ one_self a
          ∙ (let o = absent (index t) in ground arith)
      | inr two ↦ ap (has a) (one_other k two) ∙ absent k
    ]

  pub add_blks-Added :
      (k i : ℕ) (t : SlobType) (s : Slob lib)
      → i + k * slob_sizes t < u64_mod
      → ((a : ℕ) → InRun k i t a → IsAbsent a s)
      → Added k i t s (add_blks lib k i t s)
  unfolding add_blks
  add_blks-Added zero i t s below out = record {
    new = λ a h. inl h;
    old = λ a h. h;
    run = λ a (j, lt, e). absurd (omega arith);
    other = λ k ne. refl;
    bounds = λ u. refl;
  }
  add_blks-Added (suc k) i t s below out =
      let pos = slob_sizes-pos t in
      let next : (i + slob_sizes t) % u64_mod ≡ i + slob_sizes t = (omega arith) in
      let here = out i (0, (omega arith), (omega arith)) in
      let rest =
        add_blks-Added k (i + slob_sizes t) t (add_blk lib t i s) (omega arith) (λ a (j, lt, e).
          one-IsAbsent t i s here a (omega arith) (out a (suc j, (omega arith), (omega arith)))) in
      rw next (record {
        new = λ a h. elim (rest.new a h) [
          | inl before ↦ elim (Bool-cases (a == i)) [
            | inl at ↦ let at' : a ≡ i = ground arith in inr (0, (omega arith), (omega arith))
            | inr apart ↦ inl (let self = one_self t i s here a in ground arith)
          ]
          | inr (j, lt, e) ↦ inr (suc j, (omega arith), (omega arith))
        ];
        old = λ a h. rest.old a (let self = one_self t i s here a in ground arith);
        run = λ a r. elim (InRun-cases k i t a r) [
          | inl at ↦ rest.old a (let self = one_self t i s here a in ground arith)
          | inr later ↦ rest.run a later
        ];
        other = λ l ne. rest.other l ne ∙ one_other t i s here l ne;
        bounds = λ u. rest.bounds u ∙ bounds-add_blk lib u t i s;
      })

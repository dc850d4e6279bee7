-- ===== src/Slob/Kept.antt =====
-- What the requests to the slob allocator leave: each block is held or in the list of its type.
use osvirt_project.Base.{
  ℕ, ◌≤◌, ◌≡◌, ◌≢◌, refl, sym, ap, subst, ◌∙◌, ◌⊎◌, inl, inr, Bool, true, false, ◌&&◌, not, ◌||◌,
  none, some, [], ◌∷◌, arith, Bool-cases, ◌==◌,
}
use osvirt_project.ListLib.{ListLib, has, has-without, has-append}
use osvirt_project.Slob.{SlobType, small, medium, large, index, slob_sizes, Slob, add_blk}
use osvirt_project.Slob.Areas.{bounds_of, IsBlock, HasAreas, same_type}
use osvirt_project.Slob.Requests.{grant, give_back, Client}

pub index-one : (t u : SlobType) → index t ≡ index u → t ≡ u
index-one small small e = refl
index-one medium medium e = refl
index-one large large e = refl
index-one small medium e = absurd (omega arith)
index-one small large e = absurd (omega arith)
index-one medium small e = absurd (omega arith)
index-one medium large e = absurd (omega arith)
index-one large small e = absurd (omega arith)
index-one large medium e = absurd (omega arith)

pub index-cases : (k : ℕ) (t : SlobType) → (k ≡ index t) ⊎ (k ≢ index t)
index-cases k t = elim (Bool-cases (k == index t)) [
  | inl one ↦ inl (ground arith)
  | inr two ↦ inr (ground arith)
]

module _ (lib : ListLib) where
  open lib use {
    Links, items, list_push_back, list_remove, items-push_back_self, items-push_back_other,
    items-remove,
  }

  abbrev pub listed : SlobType → ℕ → Slob lib → Bool
  listed t a s = has a (items s.links (index t))

  -- A block is held or in the list of its type, never both; nothing else is held or listed; what is
  -- held fits.
  pub record IsKept (c : Client lib) : Type 0 where
    pub areas : HasAreas lib c.slob
    pub free :
        (t : SlobType) (a : ℕ)
        → listed t a c.slob ≡ true
        → IsBlock lib t a c.slob × (c.held a ≡ none)
    pub lists : (k a : ℕ) → has a (items c.slob.links k) ≡ true → (t : SlobType) × (k ≡ index t)
    pub holds :
        (a n : ℕ) → c.held a ≡ some n → (t : SlobType) × IsBlock lib t a c.slob × (n ≤ slob_sizes t)
    pub complete :
        (t : SlobType) (a : ℕ)
        → IsBlock lib t a c.slob
        → (listed t a c.slob ≡ true) ⊎ ((n : ℕ) × (c.held a ≡ some n))

  -- A block and the ranges where the bounds are the same.
  module _ (s s' : Slob lib) (same : (t : SlobType) → bounds_of lib t s' ≡ bounds_of lib t s) where
    IsBlock-same : (t : SlobType) (a : ℕ) → IsBlock lib t a s → IsBlock lib t a s'
    IsBlock-same t a b = record {
      low = rw (same t) b.low;
      whole = rw (same t) b.whole;
      high = rw (same t) b.high;
    }

    HasAreas-same : HasAreas lib s → HasAreas lib s'
    HasAreas-same areas = record {
      some_low = λ t. rw (same t) (areas.some_low t);
      apart = λ t u lt. rw (same t, same u) (areas.apart t u lt);
    }

  bounds-links :
      (t : SlobType) (s : Slob lib) (l : Links)
      → bounds_of lib t (record s { links = l }) ≡ bounds_of lib t s
  bounds-links small s l = refl
  bounds-links medium s l = refl
  bounds-links large s l = refl

  pub bounds-add_blk :
      (t u : SlobType) (a : ℕ) (s : Slob lib)
      → bounds_of lib t (add_blk lib u a s) ≡ bounds_of lib t s
  unfolding add_blk
  bounds-add_blk small u a s = refl
  bounds-add_blk medium u a s = refl
  bounds-add_blk large u a s = refl

  -- A block of a list is handed out.
  module _ (c : Client lib) (kept : IsKept c) (t : SlobType) (e size : ℕ)
      (here : listed t e c.slob ≡ true) (fits : size ≤ slob_sizes t) where
    abbrev taken : Slob lib
    taken = record (c.slob) { links = list_remove e c.slob.links }

    still : (k a : ℕ) → has a (items taken.links k) ≡ (has a (items c.slob.links k) && not (a == e))
    still k a =
        ap (has a) (items-remove (index t) e k c.slob.links here)
        ∙ has-without a e (items c.slob.links k)

    same : (u : SlobType) → bounds_of lib u taken ≡ bounds_of lib u c.slob
    same u = bounds-links u c.slob (list_remove e c.slob.links)

    back : (u : SlobType) (a : ℕ) → IsBlock lib u a taken → IsBlock lib u a c.slob
    back = IsBlock-same taken c.slob (λ u. sym (same u))

    pub IsKept-taken : IsKept (record { slob = taken; held = grant e size c.held })
    IsKept-taken = record {
      areas = HasAreas-same c.slob taken same kept.areas;
      free = λ u a h.
          let was : listed u a c.slob ≡ true = ground (arith, still (index u) a) in
          let other : (a == e) ≡ false = ground (arith, still (index u) a) in
          let (block, unheld) = kept.free u a was in
          (IsBlock-same c.slob taken same u a block, rw other unheld);
      lists = λ k a h. kept.lists k a (ground (arith, still k a));
      holds = λ a n h. elim (Bool-cases (a == e)) [
        | inl at ↦
            let at' : a ≡ e = ground arith in
            (
              t,
              IsBlock-same c.slob taken same t a
                  (subst (λ x. IsBlock lib t x c.slob) (sym at') (kept.free t e here).0),
              ground arith,
            )
        | inr other ↦
            let (u, block, small_enough) = kept.holds a n (ground arith) in
            (u, IsBlock-same c.slob taken same u a block, small_enough)
      ];
      complete = λ u a b. elim (Bool-cases (a == e)) [
        | inl at ↦ inr (size, rw at refl)
        | inr other ↦ elim (kept.complete u a (back u a b)) [
          | inl was ↦ inl (still (index u) a ∙ rw (was, other) refl)
          | inr (n, held) ↦ inr (n, rw other held)
        ]
      ];
    }

  -- A block that is held is given back.
  module _ (c : Client lib) (kept : IsKept c) (t : SlobType) (e n : ℕ) (held : c.held e ≡ some n)
      (block : IsBlock lib t e c.slob) where
    absent : (k : ℕ) → has e (items c.slob.links k) ≡ false
    absent k = elim (Bool-cases (has e (items c.slob.links k))) [
      | inl on ↦
          let (u, at) = kept.lists k e on in
          let (b, unheld) =
            kept.free u e (subst (λ x. has e (items c.slob.links x) ≡ true) at on) in
          absurd cc
      | inr off ↦ off
    ]

    abbrev freed : Slob lib
    freed = add_blk lib t e c.slob

    same' : (u : SlobType) → bounds_of lib u freed ≡ bounds_of lib u c.slob
    same' u = bounds-add_blk u t e c.slob

    now_self : (a : ℕ) → listed t a freed ≡ (listed t a c.slob || (a == e))
    unfolding add_blk has
    now_self a =
        ap (has a) (items-push_back_self (index t) e c.slob.links absent)
        ∙ has-append a (items c.slob.links (index t)) (e ∷ [])
        ∙ ground arith

    now_other : (k a : ℕ) → k ≢ index t → has a (items freed.links k) ≡ has a (items c.slob.links k)
    unfolding add_blk
    now_other k a ne = ap (has a) (items-push_back_other (index t) e k c.slob.links absent ne)

    now : (u : SlobType) (a : ℕ) → (a == e) ≡ false → listed u a freed ≡ listed u a c.slob
    now u a other = elim (index-cases (index u) t) [
      | inl one ↦
          ap (λ k. has a (items freed.links k)) one ∙ now_self a ∙ rw (other, one) (ground arith)
      | inr two ↦ now_other (index u) a two
    ]

    pub IsKept-freed : IsKept (record { slob = freed; held = give_back e c.held })
    IsKept-freed = record {
      areas = HasAreas-same c.slob freed same' kept.areas;
      free = λ u a h. elim (Bool-cases (a == e)) [
        | inl at ↦
            let at' : a ≡ e = ground arith in
            let one : index u ≡ index t =
              only_here u (subst (λ x. listed u x freed ≡ true) at' h) in
            (
              IsBlock-same c.slob freed same' u a (
                  subst (λ x. IsBlock lib u x c.slob) (sym at')
                    (subst (λ v. IsBlock lib v e c.slob) (sym (index-one u t one)) block)),
              rw at refl,
            )
        | inr other ↦
            let (b, unheld) = kept.free u a (sym (now u a other) ∙ h) in
            (IsBlock-same c.slob freed same' u a b, rw other unheld)
      ];
      lists = λ k a h. elim (index-cases k t) [
        | inl one ↦ (t, one)
        | inr two ↦ kept.lists k a (sym (now_other k a two) ∙ h)
      ];
      holds = λ a m h.
          let other : (a == e) ≡ false = ground arith in
          let (u, b, fits) = kept.holds a m (ground arith) in
          (u, IsBlock-same c.slob freed same' u a b, fits);
      complete = λ u a b.
          let b' : IsBlock lib u a c.slob = IsBlock-same freed c.slob (λ v. sym (same' v)) u a b in
          elim (Bool-cases (a == e)) [
            | inl at ↦
                let at' : a ≡ e = ground arith in
                let one : index u ≡ index t =
                  same_type lib u t e c.slob kept.areas (subst (λ x. IsBlock lib u x c.slob) at' b')
                    block in
                inl (ap (λ k. has a (items freed.links k)) one ∙ now_self a ∙ rw at (ground arith))
            | inr other ↦ elim (kept.complete u a b') [
              | inl was ↦ inl (now u a other ∙ was)
              | inr (m, was) ↦ inr (m, rw other was)
            ]
          ];
    }
      where
        only_here : (u : SlobType) → listed u e freed ≡ true → index u ≡ index t
        only_here u h = elim (index-cases (index u) t) [
          | inl one ↦ one
          | inr two ↦ let was = now_other (index u) e two in let out = absent (index u) in absurd cc
        ]

-- ===== src/Buddy/Split.antt =====
-- One round of the split loop on the invariant: the upper half of a held block moves to an unused
-- descriptor `y` and into the list `d`.
use native.Mathlib.Nat.{two-pow-succ}
use osvirt_project.Base.{
  ℕ, suc, ◌+◌, ◌*◌, ◌/◌, ◌^◌, ◌≤◌, ◌≡◌, ap, sym, ◌∙◌, ◌≢◌, ◌⊎◌, inl, inr, Bool, true, false, ◌&&◌,
  ◌||◌, some, List, arith, ◌==◌, Bool-cases, get_elem?, get_elem?-set_self, get_elem?-set_ne, set,
  page_size,
}
use osvirt_project.Buddy.{Block}
use osvirt_project.Buddy.Index.{pow_pos}
use osvirt_project.Buddy.Inv.{IsBlock, IsSound, IsHeld, Apart, lower_half, upper_half}

absurd_bool : {P : Type 0} (c : Bool) → c ≡ true → c ≡ false → P
absurd_bool c p q = absurd (ground arith)

Apart-sym : (a b : Block) → Apart a b → Apart b a
Apart-sym a b (inl h) = inr h
Apart-sym a b (inr h) = inl h

-- The halves, without the wrap of `uint64_t`.
pub record Halves (b : Block) (d : ℕ) : Type 0 where
  pub size : b.size / 2 ≡ 2 ^ d
  pub upper : (upper_half b).physical_addr ≡ b.physical_addr + 2 ^ d * page_size
  pub whole : b.size ≡ 2 ^ d + 2 ^ d

pub halves : (pool : List Block) (x d : ℕ) (b : Block) → IsBlock pool x (suc d) b → Halves b d
halves pool x d b is =
    let double : b.size ≡ 2 ^ d + 2 ^ d = is.size ∙ two-pow-succ d in
    let small = is.below in
    let used = is.used in
    record { size = omega arith; upper = omega (arith, pow_pos d); whole = double }

module _ (pool : List Block) (M M' : ℕ → ℕ → Bool) (x y d : ℕ) (b z : Block)
    (sound : IsSound pool M) (held : IsHeld pool M x (suc d) b) (pos : 1 ≤ d)
    (free : get_elem? pool y ≡ some z) (unused : z.physical_addr ≡ 0)
    (M-split : (k e : ℕ) → M' k e ≡ (M k e || ((k == d) && (e == y)))) where
  abbrev pub pool' : List Block
  pool' = set (set pool y (upper_half b)) x (lower_half b)

  y≢x : y ≢ x
  y≢x e =
      let same : some z ≡ some b = sym free ∙ ap (get_elem? pool) e ∙ held.block.held in
      let used = held.block.used in ground arith

  -- The descriptor in use was in no list.
  pub y_absent : (k : ℕ) → M k y ≡ false
  y_absent k = elim (Bool-cases (M k y)) [
    | inr out ↦ out
    | inl got ↦
        let (c, is) = sound.entry k y got in
        let same : some z ≡ some c = sym free ∙ is.held in
        let used = is.used in absurd (ground arith)
  ]

  parts : Halves b d
  parts = halves pool x d b held.block

  at_x : get_elem? pool' x ≡ some (lower_half b)
  at_x =
      get_elem?-set_self (set pool y (upper_half b)) x (lower_half b) b
        (get_elem?-set_ne pool y x (upper_half b) y≢x ∙ held.block.held)

  pub at_y : get_elem? pool' y ≡ some (upper_half b)
  at_y =
      get_elem?-set_ne (set pool y (upper_half b)) x y (lower_half b) (λ e. y≢x (sym e))
      ∙ get_elem?-set_self pool y (upper_half b) z free

  at_old : (k e : ℕ) → M k e ≡ true → get_elem? pool' e ≡ get_elem? pool e
  at_old k e got =
      get_elem?-set_ne (set pool y (upper_half b)) x e (lower_half b)
        (λ s. absurd_bool (M k e) got (ap (M k) (sym s) ∙ held.absent k))
      ∙ get_elem?-set_ne pool y e (upper_half b)
          (λ s. absurd_bool (M k e) got (ap (M k) (sym s) ∙ y_absent k))

  lower_IsBlock : IsBlock pool' x d (lower_half b)
  lower_IsBlock = record {
    held = at_x;
    size = parts.size;
    used = held.block.used;
    below = omega (arith, parts.whole, parts.size, held.block.below);
    several = pos;
    index = omega (arith, held.block.index);
  }

  upper_IsBlock : IsBlock pool' y d (upper_half b)
  upper_IsBlock = record {
    held = at_y;
    size = parts.size;
    used = λ e. omega (arith, parts.upper, pow_pos d);
    below = omega (arith, parts.whole, parts.size, parts.upper, held.block.below);
    several = pos;
    index = omega (arith, held.block.index);
  }

  lower_Apart : (c : Block) → Apart b c → Apart (lower_half b) c
  lower_Apart c h = omega (arith, parts.whole, parts.size, h)

  upper_Apart : (c : Block) → Apart b c → Apart (upper_half b) c
  upper_Apart c h = omega (arith, parts.whole, parts.size, parts.upper, h)

  Origin : (k e : ℕ) → Type 0
  Origin k e = (M k e ≡ true) ⊎ ((k ≡ d) × (e ≡ y))

  origin : (k e : ℕ) → M' k e ≡ true → Origin k e
  unfolding Origin
  origin k e got = ground (arith, M-split k e)

  entry_of : (k e : ℕ) → Origin k e → (c : Block) × IsBlock pool' e k c
  unfolding Origin
  entry_of k e (inl old) =
      let (c, is) = sound.entry k e old in
      (
        c,
        record {
          held = at_old k e old ∙ is.held;
          size = is.size;
          used = is.used;
          below = is.below;
          several = is.several;
          index = is.index;
        },
      )
  entry_of k e (inr (this, new)) = rw (this, new) (upper_half b, upper_IsBlock)

  -- A block read back from the new pool is the one that stands there.
  read_y : (c : Block) → get_elem? pool' y ≡ some c → upper_half b ≡ c
  read_y c e = let same : some (upper_half b) ≡ some c = sym at_y ∙ e in cc

  Apart-of :
      (k e k' e' : ℕ) (c c' : Block)
      → Origin k e
      → Origin k' e'
      → e ≢ e'
      → get_elem? pool' e ≡ some c
      → get_elem? pool' e' ≡ some c'
      → Apart c c'
  unfolding Origin
  Apart-of k e k' e' c c' (inl old) (inl old') ne h h' =
      sound.apart k e k' e' c c' old old' ne (sym (at_old k e old) ∙ h)
        (sym (at_old k' e' old') ∙ h')
  Apart-of k e k' e' c c' (inr (this, new)) (inl old') ne h h' =
      let same = read_y c (rw new at h) in
      rw (← same) (upper_Apart c' (held.alone k' e' c' old' (sym (at_old k' e' old') ∙ h')))
  Apart-of k e k' e' c c' (inl old) (inr (this, new)) ne h h' =
      let same = read_y c' (rw new at h') in
      let far = upper_Apart c (held.alone k e c old (sym (at_old k e old) ∙ h)) in
      rw (← same) (Apart-sym _ _ far)
  Apart-of k e k' e' c c' (inr (this, new)) (inr (this', new')) ne h h' =
      absurd (ne (new ∙ sym new'))

  pub split-IsSound : IsSound pool' M'
  split-IsSound = record {
    entry = λ k e got. entry_of k e (origin k e got);
    apart = λ k e k' e' c c' got got' ne.
        Apart-of k e k' e' c c' (origin k e got) (origin k' e' got') ne;
  }

  alone_of :
      (k e : ℕ) (c : Block) → Origin k e → get_elem? pool' e ≡ some c → Apart (lower_half b) c
  unfolding Origin
  alone_of k e c (inl old) h = lower_Apart c (held.alone k e c old (sym (at_old k e old) ∙ h))
  alone_of k e c (inr (this, new)) h =
      let same = read_y c (rw new at h) in
      rw (← same) (inl (omega (arith, parts.upper, parts.size)))

  pub split-IsHeld : IsHeld pool' M' x d (lower_half b)
  split-IsHeld = record {
    block = lower_IsBlock;
    absent = λ k. ground (arith, M-split k x, held.absent k, y≢x);
    alone = λ k e c got. alone_of k e c (origin k e got);
  }

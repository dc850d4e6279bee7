-- ===== src/Slob/Areas.antt =====
-- The three ranges of blocks, and which of them `__slob_free` finds for a block.
use osvirt_project.Base.{ℕ, ◌+◌, ◌-◌, ◌%◌, ◌≤◌, ◌<◌, ◌≡◌, ◌≢◌, ◌⊎◌, some, arith}
use osvirt_project.ListLib.{ListLib}
use osvirt_project.Slob.{SlobType, small, medium, large, index, slob_sizes, Bounds, Slob, type_of}

module _ (lib : ListLib) where
  abbrev pub bounds_of : SlobType → Slob lib → Bounds
  bounds_of small s = s.small_bounds
  bounds_of medium s = s.medium_bounds
  bounds_of large s = s.large_bounds

  -- The address of a block of a range.
  pub record IsBlock (t : SlobType) (a : ℕ) (s : Slob lib) : Type 0 where
    pub low : (bounds_of t s).low ≤ a
    pub whole : (a - (bounds_of t s).low) % slob_sizes t ≡ 0
    pub high : a + slob_sizes t ≤ (bounds_of t s).high

  -- The ranges do not overlap, none starts at `NULL`, and none starts where one of larger blocks
  -- ends.
  pub record HasAreas (s : Slob lib) : Type 0 where
    pub some_low : (t : SlobType) → (bounds_of t s).low ≢ 0
    pub apart :
        (t u : SlobType)
        → index t < index u
        → ((bounds_of t s).high ≤ (bounds_of u s).low)
          ⊎ ((bounds_of u s).high < (bounds_of t s).low)

  pub type_of-block :
      (t : SlobType) (a : ℕ) (s : Slob lib) → HasAreas s → IsBlock t a s → type_of lib a s ≡ some t
  type_of-block small a s areas b =
      let low = b.low in
      let high = b.high in
      let beside = areas.apart small medium (omega arith) in
      let beside' = areas.apart small large (omega arith) in ground arith
  type_of-block medium a s areas b =
      let low = b.low in
      let high = b.high in let beside = areas.apart medium large (omega arith) in ground arith
  type_of-block large a s areas b = let low = b.low in let high = b.high in ground arith

  pub block-some : (t : SlobType) (a : ℕ) (s : Slob lib) → HasAreas s → IsBlock t a s → a ≢ 0
  block-some t a s areas b e = let low = b.low in let some_low = areas.some_low t in omega arith

  -- Two blocks do not overlap.
  pub blocks-apart :
      (t u : SlobType) (a b : ℕ) (s : Slob lib)
      → HasAreas s
      → IsBlock t a s
      → IsBlock u b s
      → a ≢ b
      → (a + slob_sizes t ≤ b) ⊎ (b + slob_sizes u ≤ a)
  blocks-apart t u a b s areas x y ne = go t u x.low x.whole x.high y.low y.whole y.high
    where
      go :
          (t u : SlobType)
          → (bounds_of t s).low ≤ a
          → (a - (bounds_of t s).low) % slob_sizes t ≡ 0
          → a + slob_sizes t ≤ (bounds_of t s).high
          → (bounds_of u s).low ≤ b
          → (b - (bounds_of u s).low) % slob_sizes u ≡ 0
          → b + slob_sizes u ≤ (bounds_of u s).high
          → (a + slob_sizes t ≤ b) ⊎ (b + slob_sizes u ≤ a)
      go small small l w h l' w' h' = omega arith
      go medium medium l w h l' w' h' = omega arith
      go large large l w h l' w' h' = omega arith
      go small medium l w h l' w' h' =
          let beside = areas.apart small medium (omega arith) in omega arith
      go small large l w h l' w' h' =
          let beside = areas.apart small large (omega arith) in omega arith
      go medium large l w h l' w' h' =
          let beside = areas.apart medium large (omega arith) in omega arith
      go medium small l w h l' w' h' =
          let beside = areas.apart small medium (omega arith) in omega arith
      go large small l w h l' w' h' =
          let beside = areas.apart small large (omega arith) in omega arith
      go large medium l w h l' w' h' =
          let beside = areas.apart medium large (omega arith) in omega arith

  pub same_type :
      (t u : SlobType) (a : ℕ) (s : Slob lib)
      → HasAreas s
      → IsBlock t a s
      → IsBlock u a s
      → index t ≡ index u
  same_type t u a s areas x y =
      ground (arith, type_of-block t a s areas x, type_of-block u a s areas y)

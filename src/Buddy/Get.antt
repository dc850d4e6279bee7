-- ===== src/Buddy/Get.antt =====
-- The split loop of `get_block` keeps the free lists sound.
use osvirt_project.Base.{
  ℕ, zero, suc, ◌^◌, ◌≤◌, ◌<◌, ◌≡◌, refl, ap, sym, ◌∙◌, ◌≢◌, ◌⊎◌, inl, inr, Bool, true, false, not,
  ◌&&◌, ◌||◌, some, [], ◌∷◌, arith, ◌==◌, ltb, Bool-cases, Option-cases, get_elem?, set, ok, halted,
}
use Prim.Native.Nat.{min}
use osvirt_project.ListLib.{ListLib, has, has-append}
use osvirt_project.Buddy.{Block, request_buddy, Buddy, add_block, split_once, split_from}
use osvirt_project.Buddy.Index.{pages_to_buddy_index-pow}
use osvirt_project.Buddy.Pool.{find-Found}
use osvirt_project.Buddy.Inv.{IsSound, IsHeld, lower_half, upper_half}
use osvirt_project.Buddy.Split.{halves, at_y, y_absent, split-IsSound, split-IsHeld}

module _ (lib : ListLib) where
  open lib use {items, list_push_back, items-push_back_self, items-push_back_other, items-remove}

  -- Which descriptor is in which list, and the same less one descriptor.
  abbrev pub members : Buddy lib → ℕ → ℕ → Bool
  members s k e = has e (items s.links k)

  abbrev pub members_but : ℕ → Buddy lib → ℕ → ℕ → Bool
  members_but x s k e = has e (items s.links k) && not (e == x)

  -- After a part of the split loop: the block at hand has 2 ^ k pages, and starts where it did.
  pub record Reached (x k start : ℕ) (s : Buddy lib) : Type 0 where
    pub block : Block
    pub sound : IsSound s.pool (members_but x s)
    pub held : IsHeld s.pool (members_but x s) x k block
    pub starts : block.physical_addr ≡ start
    pub home : (l : ℕ) × (has x (items s.links l) ≡ true)

  -- `__add_block` of a descriptor in no list, for a block of 2 ^ d pages.
  pub add_block-push :
      (y d : ℕ) (s : Buddy lib) (b : Block)
      → get_elem? s.pool y ≡ some b
      → b.size ≡ 2 ^ d
      → d < 32
      → add_block lib y s ≡ ok (record s { links = list_push_back d y s.links })
  unfolding add_block
  add_block-push y d s b held size small = ground (arith, pages_to_buddy_index-pow d (omega arith))

  -- The round of the loop, given the descriptor that the pool has left.
  module _ (x d : ℕ) (s : Buddy lib) (pos : 1 ≤ d) (b z : Block) (y : ℕ)
      (sound : IsSound s.pool (members_but x s))
      (held : IsHeld s.pool (members_but x s) x (suc d) b) (got : request_buddy s.pool ≡ some y)
      (free : get_elem? s.pool y ≡ some z) (unused : z.physical_addr ≡ 0) where
    -- The state after the round.
    abbrev pub after : Buddy lib
    after = record s {
      pool = set (set s.pool y (upper_half b)) x (lower_half b);
      links = list_push_back d y s.links;
    }

    pub y≢x : y ≢ x
    y≢x e =
        let same : some z ≡ some b = sym free ∙ ap (get_elem? s.pool) e ∙ held.block.held in
        let used = held.block.used in ground arith

    abbrev pub M' : ℕ → ℕ → Bool
    M' k e = members_but x s k e || ((k == d) && (e == y))

    -- The descriptor is in no list, `x`'s included.
    unlisted : (k : ℕ) → has y (items s.links k) ≡ false
    unlisted k =
        let out =
          y_absent s.pool (members_but x s) M' x y d b z sound held pos free unused (λ k e. refl)
            k in
        let ne = y≢x in ground arith

    pub members-after : (k e : ℕ) → members_but x after k e ≡ M' k e
    unfolding has
    members-after k e = elim (Bool-cases (k == d)) [
      | inl same ↦
          let is : k ≡ d = ground arith in
          let ne = y≢x in
          rw (is, items-push_back_self d y s.links unlisted)
            (ground (arith, has-append e (items s.links d) (y ∷ [])))
      | inr other ↦
          let isnt : k ≢ d = ground arith in
          ground (arith, items-push_back_other d y k s.links unlisted isnt)
    ]

    -- A push takes nothing off a list.
    members-kept : (k e : ℕ) → has e (items s.links k) ≡ true → has e (items after.links k) ≡ true
    members-kept k e in_list = elim (Bool-cases (k == d)) [
      | inl same ↦
          let is : k ≡ d = ground arith in
          let in_d : has e (items s.links d) ≡ true = rw is at in_list in
          rw (
            is,
            items-push_back_self d y s.links unlisted,
            has-append e (items s.links d) (y ∷ []),
            in_d,
          )
      | inr other ↦
          let isnt : k ≢ d = ground arith in
          rw (items-push_back_other d y k s.links unlisted isnt) in_list
    ]

    pub pushed : split_once lib x s ≡ ok after
    unfolding split_once
    pushed =
        let at =
          at_y s.pool (members_but x s) M' x y d b z sound held pos free unused (λ k e. refl) in
        let size = (halves s.pool x d b held.block).size in
        let small = held.block.index in
        ground (
          arith,
          held.block.held,
          add_block-push y d (record s { pool = after.pool }) (upper_half b) at size (omega arith),
        )

    pub round_Reached :
        (start : ℕ)
        → b.physical_addr ≡ start
        → (l : ℕ) × (has x (items s.links l) ≡ true)
        → Reached x d start after
    round_Reached start same home = record {
      block = lower_half b;
      sound =
          split-IsSound s.pool (members_but x s) (members_but x after) x y d b z sound held pos free
            unused members-after;
      held =
          split-IsHeld s.pool (members_but x s) (members_but x after) x y d b z sound held pos free
            unused members-after;
      starts = same;
      home = (home.0, members-kept home.0 x home.1);
    }

  split_once-Reached :
      (x d start : ℕ) (s : Buddy lib)
      → 1 ≤ d
      → Reached x (suc d) start s
      → (split_once lib x s ≡ halted)
        ⊎ ((s' : Buddy lib) × (split_once lib x s ≡ ok s') × Reached x d start s')
  unfolding split_once request_buddy
  split_once-Reached x d start s pos r = elim (Option-cases (request_buddy s.pool)) [
    | inl out ↦ inl (ground arith)
    | inr hit ↦
        let f = find-Found s.pool 0 hit.0 hit.1 in
        inr (
          after x d s pos r.block f.block hit.0 r.sound r.held hit.1 f.held f.match,
          pushed x d s pos r.block f.block hit.0 r.sound r.held hit.1 f.held f.match,
          round_Reached x d s pos r.block f.block hit.0 r.sound r.held hit.1 f.held f.match start
              r.starts r.home,
        )
  ]

  -- The loop stops one list above `list_index`, or where it starts if that is lower.
  pub split_from-Reached :
      (x list_index start j : ℕ) (s : Buddy lib)
      → Reached x (suc j) start s
      → (split_from lib x list_index j s ≡ halted)
        ⊎ ((s' : Buddy lib) × (split_from lib x list_index j s ≡ ok s')
            × Reached x (suc (min j list_index)) start s')
  unfolding split_from
  split_from-Reached x li start zero s r =
      let e : min 0 li ≡ 0 = omega arith in inr (s, refl, rw e r)
  split_from-Reached x li start (suc j) s r = elim (Bool-cases (ltb li (suc j))) [
    | inr stop ↦
        let e : min (suc j) li ≡ suc j = ground arith in inr (s, rw (stop, split_from), rw e r)
    | inl more ↦ elim (split_once-Reached x (suc j) start s (omega arith) r) [
      | inl out ↦ inl (rw (more, split_from, out))
      | inr (s', run, r') ↦
          let e : min (suc j) li ≡ min j li = ground arith in
          rw (more, split_from, run, e) (split_from-Reached x li start j s' r')
    ]
  ]

-- ===== src/Buddy/Joined.antt =====
-- A merge of `free_block` on the state: a buddy leaves its list, and the lower of the two blocks is
-- held with twice the size.
use osvirt_project.Base.{
  ℕ, suc, ◌+◌, ◌*◌, ◌^◌, ◌≤◌, ◌<◌, ◌≡◌, ◌≢◌, refl, ap, sym, subst, ◌∙◌, ◌⊎◌, inl, inr, true, false,
  not, ◌&&◌, some, arith, ◌==◌, leb, Bool-cases, get_elem?, get_elem?-set_self, get_elem?-set_ne,
  set, u64_mod, page_size, Run,
}
use native.Mathlib.Nat.{two-pow-succ}
use native.Mathlib.Decide.{ℕ_discrete}
use osvirt_project.ListLib.{ListLib, has, has-without}
use osvirt_project.Buddy.{Block, Buddy, doubled, remove_block}
use osvirt_project.Buddy.Inv.{block_end, Apart, IsBlock, IsSound, IsHeld}
use osvirt_project.Buddy.Get.{members}
use osvirt_project.Buddy.Pair.{IsAligned}
use osvirt_project.Buddy.Merge.{merged-IsSound, merged-IsHeld}
use osvirt_project.Buddy.Release.{FreeAt, In, IsRegular, Freed}

module _ (lib : ListLib) where
  open lib use {items, list_remove, items-remove}

  module _ (s : Buddy lib) (y k lo : ℕ) (c l u : Block) (regular : IsRegular lib s)
      (listed : members lib s k y ≡ true) (at_y : get_elem? s.pool y ≡ some c)
      (block : IsBlock s.pool lo k l)
      (absent : (j : ℕ) → (members lib s j lo && not (lo == y)) ≡ false)
      (next : u.physical_addr ≡ l.physical_addr + 2 ^ k * page_size) (u_size : u.size ≡ 2 ^ k)
      (apart : (j e : ℕ) (b' : Block)
        → members lib s j e ≡ true
        → e ≢ y
        → get_elem? s.pool e ≡ some b'
        → Apart l b' × Apart u b')
      (inside : block_end u < s.offset + 2 ^ 31) (small : suc k < 32) where
    abbrev pub d : Block
    d = doubled lib l

    abbrev pub after : Buddy lib
    after = record (remove_block lib y s) { pool = set s.pool lo d }

    members-after : (j e : ℕ) → members lib after j e ≡ (members lib s j e && not (e == y))
    unfolding remove_block
    members-after j e =
        ap (has e) (items-remove k y j s.links listed) ∙ has-without e y (items s.links j)

    was : (j e : ℕ) → members lib after j e ≡ true → (members lib s j e ≡ true) × (e ≢ y)
    was j e on = (ground (arith, members-after j e), ground (arith, members-after j e))

    twice : d.size ≡ 2 ^ suc k
    twice =
        let size = block.size in
        let whole = two-pow-succ k in
        let fits : 2 ^ k * page_size ≤ u64_mod = (let below = block.below in omega arith) in
        omega arith

    pub d_end : block_end d ≡ block_end u
    d_end = let whole = two-pow-succ k in omega (arith, twice)

    d_below : block_end d ≤ u64_mod
    d_below = let room = regular.room in omega (arith, d_end)

    still : IsSound s.pool (members lib after)
    still = record {
      entry = λ j e on. regular.sound.entry j e (was j e on).0;
      apart = λ j e j' e' b b' on on' ne.
          regular.sound.apart j e j' e' b b' (was j e on).0 (was j' e' on').0 ne;
    }

    gone : (j : ℕ) → members lib after j lo ≡ false
    gone j = members-after j lo ∙ absent j

    beside :
        (j e : ℕ) (b' : Block)
        → members lib after j e ≡ true
        → get_elem? s.pool e ≡ some b'
        → Apart l b' × Apart u b'
    beside j e b' on h = apart j e b' (was j e on).0 (was j e on).1 h

    after-IsSound : IsSound after.pool (members lib after)
    unfolding remove_block
    after-IsSound =
        merged-IsSound s.pool (members lib after) lo k l u d still block gone next u_size beside
          refl twice d_below small

    pub after-IsHeld : IsHeld after.pool (members lib after) lo (suc k) d
    unfolding remove_block
    after-IsHeld =
        merged-IsHeld s.pool (members lib after) lo k l u d still block gone next u_size beside refl
          twice d_below small

    -- The descriptors that are left in a list stand where they did.
    stays :
        (j e : ℕ) (b : Block)
        → members lib after j e ≡ true
        → get_elem? after.pool e ≡ some b
        → get_elem? s.pool e ≡ some b
    stays j e b on h =
        sym (
          get_elem?-set_ne s.pool lo e d (λ same.
            (let off = gone j in
              let on' : members lib after j lo ≡ true = ap (λ i. members lib after j i) same ∙ on in
              ground arith)))
        ∙ h

    -- No address changes.
    at_old :
        (e : ℕ) (b : Block)
        → get_elem? after.pool e ≡ some b
        → (b0 : Block) × (get_elem? s.pool e ≡ some b0) × (b0.physical_addr ≡ b.physical_addr)
    at_old e b h = elim (ℕ_discrete lo e) [
      | yes same ↦
          let here : some d ≡ some b =
            sym (get_elem?-set_self s.pool lo d l block.held)
            ∙ ap (get_elem? after.pool) same
            ∙ h in
          let same' : d ≡ b = cc in
          (
            l,
            sym (ap (get_elem? s.pool) same) ∙ block.held,
            ap (λ (v : Block). v.physical_addr) same',
          )
      | no ne ↦ (b, sym (get_elem?-set_ne s.pool lo e d ne) ∙ h, refl)
    ]

    pub after-IsRegular : IsRegular lib after
    unfolding remove_block
    after-IsRegular = record {
      sound = after-IsSound;
      aligned = λ j e b on h. regular.aligned j e b (was j e on).0 (stays j e b on h);
      inside = λ j e b on h. regular.inside j e b (was j e on).0 (stays j e b on h);
      room = regular.room;
      unique = λ e e' b b' h h' used same.
          let (b0, h0, same0) = at_old e b h in
          let (b1, h1, same1) = at_old e' b' h' in
          regular.unique e e' b0 b1 h0 h1 (λ z. used (omega arith)) (omega arith);
    }

    -- The pages of the two blocks are those of the one.
    pub In-d : (a : ℕ) → In l a ⊎ In u a → In d a
    In-d a way = let size = block.size in let whole = two-pow-succ k in omega (arith, twice)

    pub d-In : (a : ℕ) → In d a → In l a ⊎ In u a
    d-In a (low, high) =
        let size = block.size in
        let whole = two-pow-succ k in
        elim (Bool-cases (leb u.physical_addr a)) [
          | inl up ↦ inr (ground arith, omega (arith, twice))
          | inr down ↦ inl (low, (let less : a < u.physical_addr = ground arith in omega arith))
        ]

    -- A page is free before or of the buddy.
    pub FreeAt-before : (a : ℕ) → FreeAt lib s a → FreeAt lib after a ⊎ In c a
    unfolding remove_block
    FreeAt-before a (j, e, b, on, h, low, high) = elim (ℕ_discrete e y) [
      | yes same ↦
          let here : some c ≡ some b = sym at_y ∙ ap (get_elem? s.pool) (sym same) ∙ h in
          let same' : b ≡ c = cc in inr (subst (λ v. In v a) same' (low, high))
      | no ne ↦
          let on' : members lib after j e ≡ true = ground (arith, members-after j e) in
          let ne' : lo ≢ e = λ same.
            (let off = gone j in
              let on'' : members lib after j lo ≡ true =
                ap (λ i. members lib after j i) same ∙ on' in
              ground arith) in
          inl (j, e, b, on', get_elem?-set_ne s.pool lo e d ne' ∙ h, low, high)
    ]

    pub FreeAt-after : (a : ℕ) → FreeAt lib after a → FreeAt lib s a
    unfolding remove_block
    FreeAt-after a (j, e, b, on, h, low, high) =
        (j, e, b, (was j e on).0, stays j e b on h, low, high)

    pub FreeAt-c : (a : ℕ) → In c a → FreeAt lib s a
    FreeAt-c a (low, high) = (k, y, c, listed, at_y, low, high)

    -- The block that the merge leaves is freed in its stead.
    pub joined-Freed :
        (b : Block) (run run' : Run (Buddy lib))
        → ((a : ℕ) → In b a ⊎ In c a → In l a ⊎ In u a)
        → ((a : ℕ) → In l a ⊎ In u a → In b a ⊎ In c a)
        → IsAligned s.offset (suc k) d
        → (IsRegular lib after
            → IsHeld after.pool (members lib after) lo (suc k) d
            → IsAligned s.offset (suc k) d
            → block_end d < s.offset + 2 ^ 31
            → Freed lib after d run')
        → run ≡ run'
        → Freed lib s b run
    joined-Freed b run run' into out aligned frees same =
        let r : Freed lib after d run' =
          frees after-IsRegular after-IsHeld aligned (omega (arith, d_end)) in
        record {
          left = r.left;
          run = same ∙ r.run;
          regular = r.regular;
          gained = λ a way. elim way [
            | inl free ↦ elim (FreeAt-before a free) [
              | inl rest ↦ r.gained a (inl rest)
              | inr in_c ↦ r.gained a (inr (In-d a (into a (inr in_c))))
            ]
            | inr in_b ↦ r.gained a (inr (In-d a (into a (inl in_b))))
          ];
          only = λ a free. elim (r.only a free) [
            | inl rest ↦ inl (FreeAt-after a rest)
            | inr in_d ↦ elim (out a (d-In a in_d)) [
              | inl in_b ↦ inr in_b
              | inr in_c ↦ inl (FreeAt-c a in_c)
            ]
          ];
        }

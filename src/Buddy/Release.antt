-- ===== src/Buddy/Release.antt =====
-- What `free_block` leaves when the block goes to its list.
use osvirt_project.Base.{
  ℕ, ◌+◌, ◌^◌, ◌≤◌, ◌<◌, ◌≡◌, ◌≢◌, refl, sym, subst, ◌∙◌, ◌⊎◌, inl, inr, true, ◌&&◌, ◌||◌, some, [],
  ◌∷◌, arith, ◌==◌, Bool-cases, get_elem?, Run, ok, u64_mod,
}
use osvirt_project.ListLib.{ListLib, has, has-append}
use osvirt_project.Buddy.{Block, Buddy, add_block}
use osvirt_project.Buddy.Inv.{block_end, Apart, IsBlock, IsSound, IsHeld}
use osvirt_project.Buddy.Get.{members, add_block-push}
use osvirt_project.Buddy.Pair.{IsAligned}

-- The address lies in the block.
abbrev pub In : Block → ℕ → Type 0
In b a = (b.physical_addr ≤ a) × (a < block_end b)

module _ (lib : ListLib) where
  open lib use {items, list_push_back, items-push_back_self, items-push_back_other}

  -- The address lies in a free block.
  abbrev pub FreeAt : Buddy lib → ℕ → Type 0
  FreeAt s a =
      (k e : ℕ) × (b : Block) × (members lib s k e ≡ true)
      × (get_elem? s.pool e ≡ some b)
      × (b.physical_addr ≤ a)
      × (a < block_end b)

  -- Sound free lists of blocks below 2 ^ 31 bytes from `offset` on, each at a multiple of its size; and
  -- no two descriptors in use have the same address.
  pub record IsRegular (s : Buddy lib) : Type 0 where
    pub sound : IsSound s.pool (members lib s)
    pub aligned :
        (k e : ℕ) (b : Block)
        → members lib s k e ≡ true
        → get_elem? s.pool e ≡ some b
        → IsAligned s.offset k b
    pub inside :
        (k e : ℕ) (b : Block)
        → members lib s k e ≡ true
        → get_elem? s.pool e ≡ some b
        → block_end b < s.offset + 2 ^ 31
    pub room : s.offset + 2 ^ 31 ≤ u64_mod
    pub unique :
        (e e' : ℕ) (b b' : Block)
        → get_elem? s.pool e ≡ some b
        → get_elem? s.pool e' ≡ some b'
        → b.physical_addr ≢ 0
        → b.physical_addr ≡ b'.physical_addr
        → e ≡ e'

  -- The free pages are those from before and the block's.
  pub record Freed (s : Buddy lib) (b : Block) (r : Run (Buddy lib)) : Type 0 where
    pub left : Buddy lib
    pub run : r ≡ ok left
    pub regular : IsRegular left
    pub gained : (a : ℕ) → FreeAt s a ⊎ In b a → FreeAt left a
    pub only : (a : ℕ) → FreeAt left a → FreeAt s a ⊎ In b a

  -- The block goes to the list of its size.
  module _ (s : Buddy lib) (x k : ℕ) (b : Block) (regular : IsRegular s)
      (held : IsHeld s.pool (members lib s) x k b) (aligned : IsAligned s.offset k b)
      (inside : block_end b < s.offset + 2 ^ 31) where
    abbrev listed : Buddy lib
    listed = record s { links = list_push_back k x s.links }

    members-listed :
        (j e : ℕ) → members lib listed j e ≡ (members lib s j e || ((j == k) && (e == x)))
    unfolding has
    members-listed j e = elim (Bool-cases (j == k)) [
      | inl same ↦
          let is : j ≡ k = ground arith in
          rw (is, items-push_back_self k x s.links held.absent)
            (ground (arith, has-append e (items s.links k) (x ∷ [])))
      | inr two ↦
          let isnt : j ≢ k = ground arith in
          ground (arith, items-push_back_other k x j s.links held.absent isnt)
    ]

    Origin : (j e : ℕ) → Type 0
    Origin j e = (members lib s j e ≡ true) ⊎ ((j ≡ k) × (e ≡ x))

    origin : (j e : ℕ) → members lib listed j e ≡ true → Origin j e
    unfolding Origin
    origin j e on = ground (arith, members-listed j e)

    read_x : (c : Block) → get_elem? s.pool x ≡ some c → b ≡ c
    read_x c e = let same : some b ≡ some c = sym held.block.held ∙ e in cc

    flip : (c d : Block) → Apart c d → Apart d c
    flip c d (inl h) = inr h
    flip c d (inr h) = inl h

    entry : (j e : ℕ) → Origin j e → (c : Block) × IsBlock s.pool e j c
    unfolding Origin
    entry j e (inl old) = regular.sound.entry j e old
    entry j e (inr (this, new)) = rw (this, new) (b, held.block)

    apart :
        (j e j' e' : ℕ) (c c' : Block)
        → Origin j e
        → Origin j' e'
        → e ≢ e'
        → get_elem? s.pool e ≡ some c
        → get_elem? s.pool e' ≡ some c'
        → Apart c c'
    unfolding Origin
    apart j e j' e' c c' (inl old) (inl old') ne h h' =
        regular.sound.apart j e j' e' c c' old old' ne h h'
    apart j e j' e' c c' (inr (this, new)) (inl old') ne h h' =
        let same = read_x c (rw new at h) in rw (← same) (held.alone j' e' c' old' h')
    apart j e j' e' c c' (inl old) (inr (this, new)) ne h h' =
        let same = read_x c' (rw new at h') in rw (← same) (flip b c (held.alone j e c old h))
    apart j e j' e' c c' (inr (this, new)) (inr (this', new')) ne h h' =
        absurd (ne (new ∙ sym new'))

    of_each :
        (Q : ℕ → Block → Type 0)
        → ((j e : ℕ) (c : Block) → members lib s j e ≡ true → get_elem? s.pool e ≡ some c → Q j c)
        → Q k b
        → (j e : ℕ) (c : Block) → members lib listed j e ≡ true
        → get_elem? s.pool e ≡ some c
        → Q j c
    unfolding Origin
    of_each Q old new j e c on h = go (origin j e on)
      where
        go : Origin j e → Q j c
        go (inl before) = old j e c before h
        go (inr (this, is_x)) =
            subst (λ i. Q i c) (sym this) (subst (λ d. Q k d) (read_x c (rw is_x at h)) new)

    listed-IsRegular : IsRegular listed
    listed-IsRegular = record {
      sound = record {
        entry = λ j e on. entry j e (origin j e on);
        apart = λ j e j' e' c c' on on' ne h h'.
            apart j e j' e' c c' (origin j e on) (origin j' e' on') ne h h';
      };
      aligned = of_each (λ j c. IsAligned s.offset j c) regular.aligned aligned;
      inside = of_each (λ j c. block_end c < s.offset + 2 ^ 31) regular.inside inside;
      room = regular.room;
      unique = regular.unique;
    }

    pub add_block-Freed : Freed s b (add_block lib x s)
    add_block-Freed =
        let small = held.block.index in
        record {
          left = listed;
          run = add_block-push lib x k s b held.block.held held.block.size small;
          regular = listed-IsRegular;
          gained = λ a here. elim here [
            | inl (j, e, c, on, h, low, high) ↦
                (j, e, c, members-listed j e ∙ rw on refl, h, low, high)
            | inr (low, high) ↦
                (k, x, b, members-listed k x ∙ ground arith, held.block.held, low, high)
          ];
          only = λ a (j, e, c, on, h, low, high).
              of_each (λ i d. d.physical_addr ≤ a → a < block_end d → FreeAt s a ⊎ In b a)
                (λ i f d was at below above. inl (i, f, d, was, at, below, above))
                (λ below above. inr (below, above)) j e c on h low high;
        }

-- ===== src/Buddy/Rejoin.antt =====
-- `free_block` on sound free lists.
use osvirt_project.Base.{
  ℕ, zero, suc, ◌+◌, ◌*◌, ◌/◌, ◌%◌, ◌^◌, ◌<◌, ◌≡◌, ◌≢◌, refl, ap, sym, subst, ◌∙◌, ◌⊎◌, inl, inr,
  true, false, some, arith, ltb, Option-cases, get_elem?, Run, ◌>>=◌, page_size,
}
use osvirt_project.ListLib.{ListLib}
use osvirt_project.Buddy.{
  Block, Buddy, pages_to_buddy_index, remove_block, find_in, pair_address, merge_pair, find_pair,
  free_round, free_from, listed, free_block,
}
use osvirt_project.Buddy.Index.{pow_pos, pages_to_buddy_index-pow}
use osvirt_project.Buddy.Inv.{block_end, Apart, IsBlock, IsHeld}
use osvirt_project.Buddy.Get.{members}
use osvirt_project.Buddy.Free.{find_in-has, listed-remove_lt}
use osvirt_project.Buddy.Pair.{IsAligned, pages_pow, pair_address-cases, half_place}
use osvirt_project.Buddy.Search.{find_in-at, found, index_small}
use osvirt_project.Buddy.Release.{IsRegular, Freed, add_block-Freed}
use osvirt_project.Buddy.Joined.{joined-Freed}

module _ (lib : ListLib) where
  open lib use {items, list_remove, items-remove}

  -- The recursive call frees, on fewer free blocks.
  abbrev IsFreeing : (ℕ → Buddy lib → Run (Buddy lib)) → Buddy lib → Type 0
  IsFreeing again s =
      (s' : Buddy lib) (x k : ℕ) (b : Block)
      → listed lib 32 s'.links < listed lib 32 s.links
      → IsRegular lib s'
      → IsHeld s'.pool (members lib s') x k b
      → IsAligned s'.offset k b
      → block_end b < s'.offset + 2 ^ 31
      → Freed lib s' b (again b.physical_addr s')

  -- A round on a block that is held, where the recursive call frees.
  module _ (again : ℕ → Buddy lib → Run (Buddy lib)) (s : Buddy lib) (x k : ℕ) (b : Block)
      (frees : IsFreeing again s) (regular : IsRegular lib s)
      (held : IsHeld s.pool (members lib s) x k b) (aligned : IsAligned s.offset k b)
      (inside : block_end b < s.offset + 2 ^ 31) where
    size_below : 2 ^ (k + 12) < 2 ^ 31
    size_below = let (q, at) = aligned in let size = held.block.size in omega (arith, pages_pow k)

    -- With the buddy `c` of the descriptor `y` in the list.
    module _ (y : ℕ) (c : Block) (in_list : members lib s k y ≡ true)
        (at_y : get_elem? s.pool y ≡ some c) where
      y≢x : y ≢ x
      y≢x e =
          let off = held.absent k in
          let on : members lib s k x ≡ true = ap (members lib s k) (sym e) ∙ in_list in
          absurd (ground arith)

      c_block : IsBlock s.pool y k c
      c_block =
          let (c', is) = regular.sound.entry k y in_list in
          let same : some c' ≡ some c = sym is.held ∙ at_y in
          let same' : c' ≡ c = cc in subst (IsBlock s.pool y k) same' is

      both :
          (j e : ℕ) (b' : Block)
          → members lib s j e ≡ true
          → e ≢ y
          → get_elem? s.pool e ≡ some b'
          → Apart b b' × Apart c b'
      both j e b' on ne h = (
        held.alone j e b' on h,
        regular.sound.apart k y j e c b' in_list on (λ same. ne (sym same)) at_y h,
      )

      small : suc k < 32
      small = let below = index_small k size_below in ground arith

      swap : {P Q : Type 0} → P ⊎ Q → Q ⊎ P
      swap (inl p) = inr p
      swap (inr p) = inl p

      both_flipped :
          (j e : ℕ) (b' : Block)
          → members lib s j e ≡ true
          → e ≢ y
          → get_elem? s.pool e ≡ some b'
          → Apart c b' × Apart b b'
      both_flipped j e b' on ne h = let (f, g) = both j e b' on ne h in (g, f)

      merge_upper :
          (q : ℕ)
          → q % 2 ≡ 0
          → b.physical_addr ≡ s.offset + q * 2 ^ (k + 12)
          → c.physical_addr ≡ s.offset + (q + 1) * 2 ^ (k + 12)
          → Freed lib s b (merge_pair lib again x b y s)
      unfolding merge_pair remove_block
      merge_upper q even at at' =
          let next : c.physical_addr ≡ b.physical_addr + 2 ^ k * page_size =
            (let more : (q + 1) * 2 ^ (k + 12) ≡ q * 2 ^ (k + 12) + 2 ^ (k + 12) = grind arith in
              omega (arith, pages_pow k)) in
          let lower : ltb c.physical_addr b.physical_addr ≡ false = ground arith in
          joined-Freed lib s y k x c b c regular in_list at_y held.block
            (λ j. rw (held.absent j) refl) next c_block.size both
            (regular.inside k y c in_list at_y) small b (merge_pair lib again x b y s) _
            (λ a way. way) (λ a way. way) (q / 2, at ∙ ap (λ v. s.offset + v) (half_place k q even))
            (frees _ x (suc k) _ (listed-remove_lt lib 32 k y s.links in_list (omega arith)))
            (rw (merge_pair, at_y, lower) refl)

      merge_lower :
          (p : ℕ)
          → p % 2 ≡ 0
          → b.physical_addr ≡ s.offset + suc p * 2 ^ (k + 12)
          → c.physical_addr ≡ s.offset + p * 2 ^ (k + 12)
          → Freed lib s b (merge_pair lib again x b y s)
      unfolding merge_pair remove_block
      merge_lower p even at at' =
          let next : b.physical_addr ≡ c.physical_addr + 2 ^ k * page_size =
            (let more : suc p * 2 ^ (k + 12) ≡ p * 2 ^ (k + 12) + 2 ^ (k + 12) = omega arith in
              omega (arith, pages_pow k)) in
          let lower : ltb c.physical_addr b.physical_addr ≡ true =
            (let some_pages = pow_pos k in ground arith) in
          joined-Freed lib s y k y c c b regular in_list at_y c_block (λ j. ground arith) next
            held.block.size both_flipped inside small b (merge_pair lib again x b y s) _
            (λ a way. swap way) (λ a way. swap way)
            (p / 2, at' ∙ ap (λ v. s.offset + v) (half_place k p even))
            (frees _ y (suc k) _ (listed-remove_lt lib 32 k y s.links in_list (omega arith)))
            (rw (merge_pair, at_y, lower) refl)

    round-Freed : Freed lib s b (free_round lib again b.physical_addr s)
    unfolding free_round find_pair
    round-Freed =
        let (q, at) = aligned in
        let size = held.block.size in
        let below = index_small k size_below in
        let room = regular.room in
        let index = ap pages_to_buddy_index size ∙ pages_to_buddy_index-pow k (ground arith) in
        let this = found lib s x b regular held.block.held held.block.used in
        let here : pair_address lib b.physical_addr s.offset k
            ≡ pair_address lib (s.offset + q * 2 ^ (k + 12)) s.offset k =
          ap (λ v. pair_address lib v s.offset k) at in
        rw (free_round, this, held.block.held, index, ◌>>=◌, find_pair, below)
          (elim (Option-cases
            (find_in lib (items s.links k) (pair_address lib b.physical_addr s.offset k) s.pool)) [
              | inl alone ↦ rw alone (add_block-Freed lib s x k b regular held aligned inside)
              | inr (y, hit) ↦
                  let in_list =
                    find_in-has lib (items s.links k) (pair_address lib b.physical_addr s.offset k)
                      y s.pool hit in
                  let (c, at_y, at_c) =
                    find_in-at lib (items s.links k) (pair_address lib b.physical_addr s.offset k) y
                      s.pool hit in
                  rw hit (elim (pair_address-cases lib s.offset k q (omega (arith, pages_pow k))) [
                    | inl (even, next) ↦ merge_upper y c in_list at_y q even at (at_c ∙ here ∙ next)
                    | inr (p, odd, even, before) ↦
                        merge_lower y c in_list at_y p even
                          (at ∙ ap (λ v. s.offset + v * 2 ^ (k + 12)) odd) (at_c ∙ here ∙ before)
                  ])
            ])

  free_from-Freed :
      (fuel : ℕ) (s : Buddy lib) (x k : ℕ) (b : Block)
      → listed lib 32 s.links < fuel
      → IsRegular lib s
      → IsHeld s.pool (members lib s) x k b
      → IsAligned s.offset k b
      → block_end b < s.offset + 2 ^ 31
      → Freed lib s b (free_from lib fuel b.physical_addr s)
  unfolding free_from
  free_from-Freed zero s x k b enough regular held aligned inside = absurd (omega arith)
  free_from-Freed (suc fuel) s x k b enough regular held aligned inside =
      round-Freed (free_from lib fuel) s x k b
        (λ s' y j c fewer. free_from-Freed fuel s' y j c (omega arith)) regular held aligned inside

  -- `free_block` of a block that is held, of 2 ^ k pages at a multiple of its size from `offset` on, on sound
  -- free lists of such blocks, all below 2 ^ 31 bytes from `offset` on, where no two descriptors in
  -- use have the same address: it returns; the lists stay as they are described, and the free pages are those
  -- from before and the block's.
  pub free_block-Freed :
      (s : Buddy lib) (x k : ℕ) (b : Block)
      → IsRegular lib s
      → IsHeld s.pool (members lib s) x k b
      → IsAligned s.offset k b
      → block_end b < s.offset + 2 ^ 31
      → Freed lib s b (free_block lib b.physical_addr s)
  unfolding free_block
  free_block-Freed s x k b regular held aligned inside =
      free_from-Freed (listed lib 32 s.links + 1) s x k b (omega arith) regular held aligned inside

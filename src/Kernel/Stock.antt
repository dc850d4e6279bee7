-- ===== src/Kernel/Stock.antt =====
-- The buddy system after `init_page_properties`, as a source of pages.
use osvirt_project.Base.{
  ℕ, zero, suc, ◌+◌, ◌*◌, ◌/◌, ◌%◌, ◌^◌, ◌≤◌, ◌<◌, ◌≡◌, ◌≢◌, refl, sym, ap, subst, ◌∙◌, some, List,
  [], ◌∷◌, arith, get_elem?, get_elem?-some, set, get_elem?-set_self, get_elem?-set_ne, length,
  length-set, page_size,
}
use osvirt_project.ListLib.{ListLib}
use osvirt_project.Frames.{Frames}
use osvirt_project.Buddy.{Block, Buddy}
use osvirt_project.Buddy.Index.{pow_pos}
use osvirt_project.Buddy.Budget.{weight, IsEnough, weight-set}
use osvirt_project.MemoryMap.{Layout, buddy_block_size}
use osvirt_project.MemoryMap.Setup.{clear_from, clear_pool}
use osvirt_project.MemoryMap.Setup.Ready.{Ready}
use osvirt_project.Kernel.Pages.{IsStocked}

-- No descriptor is in use.
abbrev pub AllUnused : List Block → Type 0
AllUnused [] = Unit
AllUnused (b ∷ bs) = (b.physical_addr ≡ 0) × AllUnused bs

clear_from-kept :
    (first i : ℕ) (pool : List Block)
    → AllUnused pool
    → AllUnused (clear_from first i pool) × (length (clear_from first i pool) ≡ length pool)
unfolding clear_from
clear_from-kept first i [] unused = (tt, refl)
clear_from-kept first i (b ∷ bs) (here, rest) =
    let (rest', same) = clear_from-kept first (i + 1) bs rest in
    ((ground arith, rest'), ap suc same)

clear_pool-kept :
    (rounds i : ℕ) (pool : List Block)
    → AllUnused pool
    → AllUnused (clear_pool rounds i pool) × (length (clear_pool rounds i pool) ≡ length pool)
unfolding clear_pool
clear_pool-kept zero i pool unused = (unused, refl)
clear_pool-kept (suc k) i pool unused =
    let first = page_size / 8 * i / buddy_block_size in
    let (now, same) = clear_from-kept first 0 pool unused in
    let (after, same') = clear_pool-kept k (i + 1) (clear_from first 0 pool) now in
    (after, same' ∙ same)

AllUnused-weight : (pool : List Block) → AllUnused pool → weight pool ≡ 0
unfolding weight
AllUnused-weight [] unused = refl
AllUnused-weight (b ∷ bs) (here, rest) = ground (arith, AllUnused-weight bs rest)

AllUnused-entry :
    (pool : List Block) (e : ℕ) (b : Block)
    → AllUnused pool
    → get_elem? pool e ≡ some b
    → b.physical_addr ≡ 0
AllUnused-entry [] e b unused held = absurd cc
AllUnused-entry (c ∷ pool) zero b (here, rest) held = ground arith
AllUnused-entry (c ∷ pool) (suc e) b (here, rest) held = AllUnused-entry pool e b rest held

-- A pool in which one descriptor is used.
module _ (pool : List Block) (unused : AllUnused pool) (blk : Block)
    (some_pool : 0 < length pool) where
  used_first :
      (e : ℕ) (b : Block) → get_elem? (set pool 0 blk) e ≡ some b → b.physical_addr ≢ 0 → b ≡ blk
  used_first zero b held used =
      let (z, old) = get_elem?-some pool 0 some_pool in
      let new : some blk ≡ some b = sym (get_elem?-set_self pool 0 blk z old) ∙ held in cc
  used_first (suc e) b held used =
      let ne : 0 ≢ suc e = λ h. omega arith in
      absurd (
        used (
          AllUnused-entry pool (suc e) b unused
            (sym (get_elem?-set_ne pool 0 (suc e) blk ne) ∙ held)))

  one-IsEnough : 1 ≤ blk.size → blk.size ≤ length pool → IsEnough (set pool 0 blk)
  one-IsEnough some_size small =
      let (z, old) = get_elem?-some pool 0 some_pool in
      let long = length-set pool 0 blk in
      let none_before = AllUnused-weight pool unused in
      let change = weight-set pool 0 z blk old in
      record {
        sized = λ e b held used. rw (used_first e b held used) some_size;
        budget = ground arith;
      }

-- After `init_page_properties` on a pool in clear memory, whole pages below 2 ^ 52, the buddy system can give pages to
-- the page tables.
pub Ready-IsStocked :
    (lib : ListLib) (raw_pool : ℕ → List Block) (total addr largest : ℕ) (l : Layout) (f : Frames)
    (s : Buddy lib)
    → Ready lib raw_pool total addr largest l f s
    → AllUnused (raw_pool l.num_buddy_pages)
    → length (raw_pool l.num_buddy_pages) ≡ l.num_buddy_pages * 128
    → addr % page_size ≡ 0
    → addr + largest ≤ 2 ^ 52
    → IsStocked lib s
Ready-IsStocked lib raw_pool total addr largest l f s r unused long aligned below =
    let raws = raw_pool l.num_buddy_pages in
    let (unused', same) = clear_pool-kept l.num_buddy_pages 0 raws unused in
    let pool = clear_pool l.num_buddy_pages 0 raws in
    let blk : Block = record { physical_addr = l.buddy_start; size = 2 ^ r.order } in
    let most = r.most in
    let pages = r.pages in
    let begins = r.begins in
    let descriptors = r.descriptors in
    let pos = pow_pos r.order in
    let some_pool : 0 < length pool = omega arith in
    record {
      sound = r.lists;
      enough = rw r.others (one-IsEnough pool unused' blk some_pool pos (omega arith));
      frames = λ k e b listed held.
          let (c, is) = r.lists.entry k e listed in
          let same_block : some c ≡ some b = sym is.held ∙ held in
          let same_as : c ≡ b = cc in
          let used : b.physical_addr ≢ 0 = subst (λ x. x.physical_addr ≢ 0) same_as is.used in
          let is_first : b ≡ blk =
            used_first pool unused' blk some_pool e b (rw r.others at held) used in
          rw is_first (omega arith, omega arith);
    }

-- ===== src/MemoryMap/Setup.antt =====
-- `init_page_properties` of allocator.c as a whole: the tables, the pool and the buddy system.
pub mod Ready
use osvirt_project.Base.{
  ℕ, zero, suc, ◌+◌, ◌-◌, ◌*◌, ◌/◌, ◌%◌, ◌^◌, ◌≤◌, ◌<◌, ◌≡◌, ◌≢◌, refl, sym, ap, subst, ◌∙◌, inl,
  inr, Bool, true, false, ◌&&◌, none, some, List, [], ◌∷◌, arith, if◌then◌else◌, ◌==◌, ltb, leb,
  Bool-cases, get_elem?, length, Run, ok, ◌>>=◌, u64_mod, u32_mod, page_size,
}
use osvirt_project.ListLib.{ListLib}
use osvirt_project.Frames.{PageInfo, Frames, reserve_page, reserve_pages}
use osvirt_project.Frames.Account.{count_set, IsAccounted}
use osvirt_project.Frames.Returns.{Kept, reserve_page-Kept, reserve_pages-Kept}
use osvirt_project.Buddy.{Block, Buddy, find_from, request_buddy}
use osvirt_project.Buddy.Inv.{IsSound}
use osvirt_project.Buddy.Get.{members}
use osvirt_project.Buddy.Setup.{init_buddy, init_buddy-IsSound}
use osvirt_project.MemoryMap.{
  MemoryDescriptor, is_special, size_of, get_memory_map_size, largest_segment_from,
  reserve_special_segments, Layout, layout_of, buddy_block_size, init_tables,
}

abbrev cleared : Block
cleared = record { physical_addr = 0; size = 0 }

-- `__builtin_memset` of a page, from the descriptor `first` on: a page holds 128 descriptors.
unfoldable pub clear_from : (first i : ℕ) → List Block → List Block
clear_from first i [] = []
clear_from first i (b ∷ bs) =
    (if leb first i && ltb i (first + page_size / buddy_block_size) then cleared else b)
    ∷ clear_from first (i + 1) bs

-- The loop over the pages of the pool, with the rounds left and `i`. It goes on by `PAGESIZE / 8` bytes.
unfoldable pub clear_pool : (rounds i : ℕ) → List Block → List Block
clear_pool zero i pool = pool
clear_pool (suc k) i pool =
    clear_pool k (i + 1) (clear_from (page_size / 8 * i / buddy_block_size) 0 pool)

module _ (lib : ListLib) where
  open lib use {Links, items}

  -- `raw` and `raw_pool` are what memory holds where the table and the pool come to stand.
  unfoldable pub init_page_properties :
      List MemoryDescriptor
      → (raw : ℕ → List PageInfo) (raw_pool : ℕ → List Block) → Links
      → Run (Layout × Frames × Buddy lib)
  init_page_properties map raw raw_pool links = init_tables map raw >>= λ t.
      let pages = t.0.num_buddy_pages in
      init_buddy lib t.0.buddy_start t.0.buddy_total
        (record { pool = clear_pool pages 0 (raw_pool pages); links = links; offset = 0 })
      >>= λ s. ok (t.0, t.1, s)

-- The first descriptor of the pool is cleared.
clear_pool-first :
    (rounds i : ℕ) (bs : List Block)
    → (bs' : List Block) × (clear_pool rounds i (cleared ∷ bs) ≡ cleared ∷ bs')
unfolding clear_pool clear_from
clear_pool-first zero i bs = (bs, refl)
clear_pool-first (suc k) i bs =
    let first = page_size / 8 * i / buddy_block_size in
    let same : (if leb first 0 && ltb 0 (first + page_size / buddy_block_size)
          then cleared
          else cleared)
        ≡ cleared =
      either (leb first 0 && ltb 0 (first + page_size / buddy_block_size)) in
    let (bs', rest) = clear_pool-first k (i + 1) (clear_from first 1 bs) in (bs', rw same rest)
  where
    either : (c : Bool) → (if c then cleared else cleared) ≡ cleared
    either true = refl
    either false = refl

pub request_buddy-cleared :
    (rounds : ℕ) (pool : List Block)
    → 0 < rounds
    → 0 < length pool
    → request_buddy (clear_pool rounds 0 pool) ≡ some 0
unfolding request_buddy find_from clear_pool clear_from
request_buddy-cleared zero pool some_rounds some_pool = absurd (omega arith)
request_buddy-cleared (suc k) [] some_rounds some_pool = absurd (omega arith)
request_buddy-cleared (suc k) (b ∷ bs) some_rounds some_pool =
    let (bs', e) = clear_pool-first k 1 (clear_from 0 1 bs) in ap (λ p. find_from p 0 0) e

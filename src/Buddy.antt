-- ===== src/Buddy.antt =====
-- The buddy system of allocator.c: the pool of block descriptors, the 32 lists of free blocks,
-- `get_block` and `free_block`. The linked lists are the parameter `lib`; a descriptor is known by
-- its index in the pool, and its list element with it.
pub mod Index
pub mod Pool
pub mod Inv
pub mod Split
pub mod Merge
pub mod Pair
pub mod Release
pub mod Joined
pub mod Search
pub mod Rejoin
pub mod Get
pub mod Give
pub mod Budget
pub mod Supply
pub mod Size
pub mod Free
pub mod Setup
mod Tests
use Prim.Native.Nat.{bit_xor}
use osvirt_project.Base.{
  ℕ, zero, suc, ◌+◌, ◌-◌, ◌*◌, ◌/◌, ◌%◌, ◌^◌, ◌≡◌, Bool, true, false, Option, none, some, List, [],
  ◌∷◌, if◌then◌else◌, ◌==◌, ltb, leb, get_elem?, set, Run, ok, halted, fault, out_of_fuel, ◌>>=◌,
  u64_mod, page_size,
}
use osvirt_project.ListLib.{ListLib}

-- `buddy_block_t`, less its list element. A descriptor with address 0 is not in use. The size is
-- in pages.
pub record Block : Type 0 where
  pub physical_addr : ℕ
  pub size : ℕ

-- `NUM_BUDDY_LISTS`.
abbrev pub num_buddy_lists : ℕ
num_buddy_lists = 32

-- `while(num_pages >> ++i);` with the shifts that remain below the width of `size_t`. A shift by
-- 64 is undefined.
unfoldable pub index_from : (rounds i num_pages : ℕ) → Run ℕ
index_from zero i n = fault
index_from (suc k) i n =
    let rest = index_from k (i + 1) n in if n / 2 ^ (i + 1) == 0 then ok i else rest

unfoldable pub pages_to_buddy_index : ℕ → Run ℕ
pages_to_buddy_index n = index_from 63 0 n

-- The index of the first descriptor with an address, from index `i` on.
unfoldable pub find_from : List Block → ℕ → ℕ → Option ℕ
find_from [] addr i = none
find_from (b ∷ bs) addr i =
    let rest = find_from bs addr (i + 1) in if b.physical_addr == addr then some i else rest

-- `__request_buddy` and `__find_buddy`.
unfoldable pub request_buddy : List Block → Option ℕ
request_buddy pool = find_from pool 0 0

unfoldable pub find_buddy : List Block → ℕ → Option ℕ
find_buddy pool addr = find_from pool addr 0

module _ (lib : ListLib) where
  open lib use {Links, items, list_init, list_push_back, list_remove}

  pub record Buddy : Type 0 where
    pub pool : List Block
    pub links : Links
    pub offset : ℕ

  -- A read of a descriptor through a pointer.
  abbrev pub load : ℕ → Buddy → (Block → Run Buddy) → Run Buddy
  load b s k = elim (get_elem? s.pool b) [ none ↦ fault | some blk ↦ k blk ]

  unfoldable pub add_block : ℕ → Buddy → Run Buddy
  add_block b s = load b s λ blk. pages_to_buddy_index blk.size >>= λ list_index.
      if ltb list_index num_buddy_lists
      then ok (record s { links = list_push_back list_index b s.links })
      else fault

  unfoldable pub remove_block : ℕ → Buddy → Buddy
  remove_block b s = record s { links = list_remove b s.links }

  -- The body of the split loop: the upper half of the block becomes a block of its own.
  unfoldable pub split_once : ℕ → Buddy → Run Buddy
  split_once b s = elim (request_buddy s.pool) [
    | none ↦ halted
    | some buddy ↦ load b s λ blk.
        let half : Block = record {
          physical_addr = (blk.physical_addr + ((blk.size * page_size) % u64_mod) / 2) % u64_mod;
          size = blk.size / 2;
        } in
        add_block buddy
          (record s { pool = set (set s.pool buddy half) b (record blk { size = blk.size / 2 }) })
  ]

  -- `for(j = i-1; j > list_index && j > 0; j--)`.
  unfoldable pub split_from : (b list_index j : ℕ) → Buddy → Run Buddy
  split_from b list_index zero s = ok s
  split_from b list_index (suc j) s = elim (ltb list_index (suc j)) [
    | true ↦ split_once b s >>= λ s'. split_from b list_index j s'
    | false ↦ ok s
  ]

  -- What happens once a list with a block is found: its front is split, removed and returned.
  unfoldable pub take_front : (b list_index i : ℕ) → Buddy → Run (ℕ × Buddy)
  take_front b list_index i s = split_from b list_index ((i + u64_mod - 1) % u64_mod) s >>= λ s'.
      elim (get_elem? s'.pool b) [
        | none ↦ fault
        | some blk ↦ ok (blk.physical_addr, remove_block b s')
      ]

  -- `for(i = list_index; i < NUM_BUDDY_LISTS; i++)`, with the rounds left.
  unfoldable pub scan_lists : (rounds list_index i : ℕ) → Buddy → Run (ℕ × Buddy)
  scan_lists zero list_index i s = ok (0, s)
  scan_lists (suc k) list_index i s = elim (items s.links i) [
    | [] ↦ scan_lists k list_index (i + 1) s
    | b ∷ _ ↦ take_front b list_index i s
  ]

  unfoldable pub get_block : ℕ → Buddy → Run (ℕ × Buddy)
  get_block num_pages s = pages_to_buddy_index num_pages >>= λ list_index.
      scan_lists (num_buddy_lists - list_index) list_index list_index s

  -- The first block of a list of descriptors that lies at an address.
  unfoldable pub find_in : List ℕ → ℕ → List Block → Option ℕ
  find_in [] addr pool = none
  find_in (e ∷ es) addr pool =
      let rest = find_in es addr pool in
      elim (get_elem? pool e) [
        | none ↦ rest
        | some blk ↦ if blk.physical_addr == addr then some e else rest
      ]

  -- `((addr - offset) ^ (1 << (list_index + PAGESHIFT))) + offset`.
  abbrev pub pair_address : (addr offset list_index : ℕ) → ℕ
  pair_address addr offset list_index =
      (bit_xor ((addr + u64_mod - offset) % u64_mod) (2 ^ (list_index + 12)) + offset) % u64_mod

  -- The two ends of a merge: the block that goes on, with its size doubled.
  abbrev pub doubled : Block → Block
  doubled blk = record blk { size = (blk.size * 2) % u64_mod }

  -- `free_block` in its parts, from the last on; `again` is its recursive call. The buddy leaves its
  -- list, and the lower of the two blocks is freed with twice the size.
  unfoldable pub merge_pair :
      (ℕ → Buddy → Run Buddy) → (b : ℕ) → Block → (buddy : ℕ) → Buddy → Run Buddy
  merge_pair again b blk buddy s = elim (get_elem? s.pool buddy) [
    | none ↦ fault
    | some bud ↦
        if ltb bud.physical_addr blk.physical_addr
        then again bud.physical_addr
            (record (remove_block buddy s) { pool = set s.pool buddy (doubled bud) })
        else again blk.physical_addr
            (record (remove_block buddy s) { pool = set s.pool b (doubled blk) })
  ]

  -- `1 << (list_index + 12)` is an `int`: from 31 bits on it is undefined.
  unfoldable pub find_pair :
      (ℕ → Buddy → Run Buddy) → (addr b : ℕ) → Block → Buddy → (list_index : ℕ) → Run Buddy
  find_pair again addr b blk s list_index = elim (ltb list_index 19) [
    | false ↦ fault
    | true ↦
        elim (find_in (items s.links list_index) (pair_address addr s.offset list_index) s.pool) [
          | none ↦ add_block b s
          | some buddy ↦ merge_pair again b blk buddy s
        ]
  ]

  unfoldable pub free_round : (ℕ → Buddy → Run Buddy) → ℕ → Buddy → Run Buddy
  free_round again addr s = elim (find_buddy s.pool addr) [
    | none ↦ halted
    | some b ↦ elim (get_elem? s.pool b) [
      | none ↦ fault
      | some blk ↦ pages_to_buddy_index blk.size >>= find_pair again addr b blk s
    ]
  ]

  unfoldable pub free_from : (fuel addr : ℕ) → Buddy → Run Buddy
  free_from zero addr s = out_of_fuel
  free_from (suc k) addr s = free_round (free_from k) addr s

  -- The number of free blocks in the lists below index `n`.
  unfoldable pub listed : ℕ → Links → ℕ
  listed zero l = 0
  listed (suc n) l = osvirt_project.Base.length (items l n) + listed n l

  -- Each round but the last takes a block off the lists.
  unfoldable pub free_block : ℕ → Buddy → Run Buddy
  free_block addr s = free_from (listed num_buddy_lists s.links + 1) addr s

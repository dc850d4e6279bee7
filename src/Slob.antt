-- ===== src/Slob.antt =====
-- The slob allocator of slob.c and kerninc/slob.h: three lists of blocks of 256, 1024 and 4096
-- bytes. The linked lists are the parameter `lib`; the list element of a block stands at its
-- address, by which it is known. The pages come from `get_block`, a parameter here.
pub mod Alloc
pub mod Areas
pub mod Requests
pub mod Kept
pub mod Safety
pub mod Fill
pub mod Setup
pub mod Start
mod Tests
use osvirt_project.Base.{
  ℕ, zero, suc, ◌+◌, ◌*◌, ◌/◌, ◌%◌, Bool, true, false, ◌&&◌, Option, none, some, List, [], ◌∷◌,
  if◌then◌else◌, ◌==◌, ltb, leb, Run, ok, fault, halted, ◌>>=◌, u64_mod, page_size,
}
use osvirt_project.ListLib.{ListLib}

-- `slob_type_t`, and its number as an index.
pub data SlobType : Type 0 where
  small medium large : SlobType

abbrev pub index : SlobType → ℕ
index small = 0
index medium = 1
index large = 2

-- `slob_sizes`.
abbrev pub slob_sizes : SlobType → ℕ
slob_sizes small = 256
slob_sizes medium = 1024
slob_sizes large = page_size

-- `small_slob_bounds` and its two kin.
pub record Bounds : Type 0 where
  pub low : ℕ
  pub high : ℕ

-- The list that `__slob_alloc` takes from, if the size is not too large.
abbrev pub class_of : ℕ → Option SlobType
class_of size =
    if leb size 256
    then some small
    else if leb size 1024
    then some medium
    else if leb size page_size
    then some large
    else none

abbrev pub within : ℕ → Bounds → Bool
within a b = leb b.low a && leb a b.high

module _ (lib : ListLib) where
  open lib use {Links, items, list_init, list_push_back, list_remove}

  -- The lists, the `size` fields of the blocks, and the bounds.
  pub record Slob : Type 0 where
    pub links : Links
    pub size : ℕ → ℕ
    pub small_bounds : Bounds
    pub medium_bounds : Bounds
    pub large_bounds : Bounds

  abbrev pub set_bounds : SlobType → Bounds → Slob → Slob
  set_bounds small b s = record s { small_bounds = b }
  set_bounds medium b s = record s { medium_bounds = b }
  set_bounds large b s = record s { large_bounds = b }

  -- `blk->size = slob_sizes[slob_type]` and the block at the end of its list.
  unfoldable pub add_blk : SlobType → ℕ → Slob → Slob
  add_blk t a s = record s {
    size = λ q. if q == a then slob_sizes t else s.size q;
    links = list_push_back (index t) a s.links;
  }

  -- The loop of `__init_slob_list`: a round for each block of the pages.
  unfoldable pub add_blks : (rounds i : ℕ) → SlobType → Slob → Slob
  add_blks zero i t s = s
  add_blks (suc k) i t s = add_blks k ((i + slob_sizes t) % u64_mod) t (add_blk t i s)

  unfoldable pub init_slob_list : (base_addr num_pages : ℕ) → SlobType → Slob → Slob
  init_slob_list base n t s = add_blks ((n * page_size) / slob_sizes t) base t (
      set_bounds t (record { low = base; high = (base + n * page_size) % u64_mod })
        (record s { links = list_init (index t) s.links }))

  -- One list of `slob_init`: `HALT` if there is no block for it.
  unfoldable pub init_from :
      {P : Type 0} → (ℕ → P → Run (ℕ × P)) → (num_pages : ℕ) → SlobType → Slob × P → Run (Slob × P)
  init_from get_block n t (s, p) =
      get_block n p >>= λ r. if r.0 == 0 then halted else ok (init_slob_list r.0 n t s, r.1)

  unfoldable pub slob_init :
      {P : Type 0} → (ℕ → P → Run (ℕ × P)) → (num_pages : ℕ) → Slob × P → Run (Slob × P)
  slob_init get_block n s =
      if ltb n 3
      then halted
      else (init_from get_block (n / 3) small s >>= λ s1.
          init_from get_block (n / 3) medium s1 >>= λ s2. init_from get_block (n / 3) large s2)

  unfoldable pub slob_alloc : ℕ → Slob → ℕ × Slob
  slob_alloc size s = elim (class_of size) [
    | none ↦ (0, s)
    | some t ↦ elim (items s.links (index t)) [
      | [] ↦ (0, s)
      | e ∷ _ ↦ (e, record s { links = list_remove e s.links })
    ]
  ]

  -- The type that `__slob_free` finds: the last of the three ranges that holds the address. With
  -- none, `stype` is not set.
  abbrev pub type_of : ℕ → Slob → Option SlobType
  type_of a s =
      if within a s.large_bounds
      then some large
      else if within a s.medium_bounds
      then some medium
      else if within a s.small_bounds
      then some small
      else none

  unfoldable pub slob_free : ℕ → Slob → Run Slob
  slob_free a s = elim (type_of a s) [ none ↦ fault | some t ↦ ok (add_blk t a s) ]

  unfoldable pub kmalloc : ℕ → Slob → ℕ × Slob
  kmalloc = slob_alloc

  unfoldable pub kfree : ℕ → Slob → Run Slob
  kfree = slob_free

  unfoldable pub kzfree : ℕ → Slob → Run Slob
  kzfree = slob_free

  -- Nothing is copied.
  unfoldable pub krealloc : (addr size : ℕ) → Slob → Run (ℕ × Slob)
  krealloc a size s = kfree a s >>= λ s'. ok (kmalloc size s')

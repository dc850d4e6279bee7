-- ===== src/PageTable.antt =====
-- page_table.c and kerninc/page_table.h: the bit fields of the four kinds of entries, the functions
-- that set them, and `map_memory`. Memory is the 64-bit words at their byte addresses, and an
-- entry is one word.
pub mod Walk
pub mod Word
pub mod Grow
pub mod Level
pub mod Drawn
pub mod Leaf
pub mod Map
pub mod Counter
mod Tests
use osvirt_project.Base.{
  ℕ, ◌+◌, ◌-◌, ◌*◌, ◌/◌, ◌%◌, ◌^◌, ◌≡◌, Bool, true, false, ◌&&◌, if◌then◌else◌, ◌==◌, leb, ltb, Run,
  ok, ◌>>=◌, u64_mod, page_size,
}

abbrev pub Memory : Type 0
Memory = ℕ → ℕ

-- The word of entry `n` of a table.
abbrev pub entry_at : ℕ → ℕ → ℕ
entry_at base n = base + 8 * n

unfoldable pub store : Memory → ℕ → ℕ → Memory
store m a w q = if q == a then w else m q

-- The fields that the kernel reads: `present` is bit 0, `page_address` bits 12 to 51.
abbrev pub present : ℕ → ℕ
present w = w % 2

abbrev pub page_address : ℕ → ℕ
page_address w = (w / page_size) % 2 ^ 40

-- The fields that the setters write: `writable` is bit 1 and always set, `usermode` is bit 2. A bit
-- field keeps the low bits of what is assigned to it. `kept` is bit 8.
abbrev pub fields : (kept address present usermode : ℕ) → ℕ
fields kept address p usermode =
    p % 2 + 2 + 4 * (usermode % 2) + 256 * kept + page_size * (address % 2 ^ 40)

abbrev pub bit8 : ℕ → ℕ
bit8 w = (w / 256) % 2

-- `set_pte` and `set_pml` assign every field; `set_pde` and `set_pdpe` assign `ign` twice and leave
-- `ign2`, bit 8, as it was.
unfoldable pub set_pte : Memory → (base n address present usermode : ℕ) → Memory
set_pte m base n address p usermode = store m (entry_at base n) (fields 0 address p usermode)

unfoldable pub set_pde : Memory → (base n address present usermode : ℕ) → Memory
set_pde m base n address p usermode =
    store m (entry_at base n) (fields (bit8 (m (entry_at base n))) address p usermode)

unfoldable pub set_pdpe : Memory → (base n address present usermode : ℕ) → Memory
set_pdpe m base n address p usermode =
    store m (entry_at base n) (fields (bit8 (m (entry_at base n))) address p usermode)

unfoldable pub set_pml : Memory → (base n address present usermode : ℕ) → Memory
set_pml m base n address p usermode = store m (entry_at base n) (fields 0 address p usermode)

-- `page_table_indexer_t`.
pub record Indexes : Type 0 where
  pub pml_idx : ℕ
  pub pdpe_idx : ℕ
  pub pde_idx : ℕ
  pub pte_idx : ℕ

-- `& PT_INDEX_MASK` keeps nine bits.
abbrev pub get_page_indexes : ℕ → Indexes
get_page_indexes addr = record {
  pte_idx = (addr / 2 ^ 12) % 512;
  pde_idx = (addr / 2 ^ 21) % 512;
  pdpe_idx = (addr / 2 ^ 30) % 512;
  pml_idx = (addr / 2 ^ 39) % 512;
}

-- `__builtin_memset(addr, 0, PAGESIZE)`.
unfoldable pub clear_page : Memory → ℕ → Memory
clear_page m a q = if leb a q && ltb q (a + page_size) then 0 else m q

-- `(uint64_t)entry.page_address << PAGESHIFT`.
abbrev pub next_table : ℕ → ℕ
next_table w = page_address w * page_size

-- The page blocks come from `get_block(1)`, a parameter here: its state and its result, 0 for `NULL`.
module _ {S : Type 0} (get_block : S → Run (ℕ × S)) where
  -- One level of `map_memory`: if the entry is not present, a cleared page is linked in by the
  -- level's setter. The number is the level's error code if there was no page, else 0.
  unfoldable pub ensure :
      (set_entry : Memory → (base n address present usermode : ℕ) → Memory)
      → (code table idx usermode : ℕ) → Memory × S
      → Run (ℕ × Memory × S)
  ensure set_entry code table idx usermode (m, s) =
      if present (m (entry_at table idx)) == 0
      then (get_block s >>= λ r.
          if r.0 == 0
          then ok (code, m, r.1)
          else ok (0, set_entry (clear_page m r.0) table idx (r.0 / page_size) 1 usermode, r.1))
      else ok (0, m, s)

  -- A level that failed ends the call with its code.
  abbrev pub and_then :
      Run (ℕ × Memory × S) → (Memory → S → Run (ℕ × Memory × S)) → Run (ℕ × Memory × S)
  and_then r k = r >>= λ r. if r.0 == 0 then k r.1 r.2 else ok r

  unfoldable pub map_memory :
      (pml4 virtual_addr physical_addr usermode : ℕ) → Memory × S → Run (ℕ × Memory × S)
  unfolding ensure
  map_memory pml4 va pa usermode (m, s) =
      let idx = get_page_indexes va in
      if pml4 == 0
      then ok (1, m, s)
      else and_then (ensure set_pml 2 pml4 idx.pml_idx usermode (m, s)) λ m s.
        let pdpe = next_table (m (entry_at pml4 idx.pml_idx)) in
        and_then (ensure set_pdpe 3 pdpe idx.pdpe_idx usermode (m, s)) λ m s.
          let pde = next_table (m (entry_at pdpe idx.pdpe_idx)) in
          and_then (ensure set_pde 4 pde idx.pde_idx usermode (m, s)) λ m s.
            let pte = next_table (m (entry_at pde idx.pde_idx)) in
            ok (0, set_pte m pte idx.pte_idx (pa / page_size) 1 usermode, s)

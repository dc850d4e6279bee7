-- ===== src/MemoryMap/Setup/Ready.antt =====
-- What `init_page_properties` leaves.
use osvirt_project.Base.{
  ℕ, ◌+◌, ◌*◌, ◌/◌, ◌%◌, ◌^◌, ◌≤◌, ◌<◌, ◌≡◌, refl, sym, subst, ◌∙◌, inl, inr, true, some, List, [],
  ◌∷◌, arith, Bool-cases, get_elem?, set, length, ok, ◌>>=◌, u64_mod, u32_mod, page_size,
}
use osvirt_project.ListLib.{ListLib}
use osvirt_project.Frames.{PageInfo, Frames, reserve_page, reserve_pages}
use osvirt_project.Frames.Account.{count_set, IsAccounted}
use osvirt_project.Frames.Returns.{reserve_page-Kept, reserve_pages-Kept}
use osvirt_project.Buddy.{Block, Buddy}
use osvirt_project.Buddy.Inv.{IsSound}
use osvirt_project.Buddy.Get.{members}
use osvirt_project.Buddy.Setup.{init_buddy-IsSound}
use osvirt_project.MemoryMap.{
  MemoryDescriptor, is_special, get_memory_map_size, largest_segment_from, reserve_special_segments,
  Layout, layout_of, buddy_block_size, init_tables,
}
use osvirt_project.MemoryMap.Setup.{clear_pool, init_page_properties, request_buddy-cleared}

-- The special segments of the map lie below page `n`.
abbrev pub AreInside : (n : ℕ) → List MemoryDescriptor → Type 0
AreInside n [] = Unit
AreInside n (d ∷ ds) =
    (is_special d.kind ≡ true
      → (d.physical_addr + d.num_pages * page_size ≤ u64_mod)
        × (d.physical_addr / page_size + d.num_pages ≤ n))
    × AreInside n ds

special-Kept :
    (total : ℕ) (ds : List MemoryDescriptor) (f : Frames)
    → AreInside (length f.info) ds
    → IsAccounted total f
    → (g : Frames) × (reserve_special_segments ds f ≡ ok g)
      × (length g.info ≡ length f.info)
      × IsAccounted total g
unfolding reserve_special_segments
special-Kept total [] f inside a = (f, refl, refl, a)
special-Kept total (d ∷ ds) f inside a = elim (Bool-cases (is_special d.kind)) [
  | inl special ↦
      let (fits, below) = inside.0 special in
      let (x, run, same, a') =
        reserve_pages-Kept total d.physical_addr d.num_pages f fits below a in
      let (g, rest, same', a'') =
        special-Kept total ds x.1 (subst (λ n. AreInside n ds) (sym same) inside.1) a' in
      (g, rw (special, run, ◌>>=◌, rest) refl, same' ∙ same, a'')
  | inr other ↦
      let (g, rest, same, a') = special-Kept total ds f inside.1 a in (g, rw other rest, same, a')
]

-- The table of `n` page frames, the pool and the buddy system's pages, one behind the other in the
-- segment, with a descriptor for each page; the count of the memory; and one free block, as large as
-- the pages allow.
pub record Ready (lib : ListLib) (raw_pool : ℕ → List Block) (total addr largest : ℕ) (l : Layout)
    (f : Frames) (s : Buddy lib) : Type 0 where
  pub entries : length f.info ≡ total / page_size
  pub account : IsAccounted total f
  pub table : (l.info_buffer ≡ addr) × (addr + total / page_size ≤ l.buddy_pool)
  pub pool : l.buddy_pool + l.buddy_total * buddy_block_size ≤ l.buddy_start
  pub descriptors : l.buddy_total ≤ l.num_buddy_pages * 128
  pub begins : l.buddy_start ≡ addr + (l.num_bitmap_pages + l.num_buddy_pages) * page_size
  pub pages : l.buddy_start + l.buddy_total * page_size ≤ addr + largest
  pub lists : IsSound s.pool (members lib s)
  pub order : ℕ
  pub first : get_elem? s.pool 0 ≡ some (record { physical_addr = l.buddy_start; size = 2 ^ order })
  pub only : ListLib.items lib s.links order ≡ 0 ∷ []
  pub most : (2 ^ order ≤ l.buddy_total) × (l.buddy_total < 2 ^ (order + 1))
  pub others :
      s.pool
      ≡ set
          (clear_pool l.num_buddy_pages 0 (raw_pool l.num_buddy_pages))
          0
          (record { physical_addr = l.buddy_start; size = 2 ^ order })

-- The table, the pool and the buddy system's pages in their segment, among the first `n` pages.
record Laid (addr largest n : ℕ) (l : Layout) : Type 0 where
  bitmap : addr + l.num_bitmap_pages * page_size ≤ n * page_size
  pool : l.buddy_pool + l.num_buddy_pages * page_size ≤ n * page_size
  some_pool : 0 < l.num_buddy_pages
  several : 2 ≤ l.buddy_total
  most : l.buddy_total ≤ largest / page_size
  some_start : 0 < l.buddy_start
  table : (l.info_buffer ≡ addr) × (addr + n ≤ l.buddy_pool)
  start : l.buddy_pool + l.buddy_total * buddy_block_size ≤ l.buddy_start
  pages : l.buddy_start + l.buddy_total * page_size ≤ addr + largest
  descriptors : l.buddy_total ≤ l.num_buddy_pages * 128
  begins : l.buddy_start ≡ addr + (l.num_bitmap_pages + l.num_buddy_pages) * page_size

layout_of-Laid :
    (addr largest n : ℕ)
    → n < 2 ^ 52
    → addr + largest ≤ n * page_size
    → (n * 8) / page_size + (largest / page_size * buddy_block_size) / page_size + 4
      ≤ largest / page_size
    → Laid addr largest n (layout_of addr largest n)
unfolding layout_of
layout_of-Laid addr largest n few below room = record {
  bitmap = omega arith;
  pool = omega arith;
  some_pool = omega arith;
  several = omega arith;
  most = omega arith;
  some_start = omega arith;
  table = (refl, omega arith);
  start = omega arith;
  pages = omega arith;
  descriptors = omega arith;
  begins = omega arith;
}

-- The sizes and the segment that the map gives.
module _ (map : List MemoryDescriptor) (raw : ℕ → List PageInfo) (addr largest total n : ℕ)
    (segment : largest_segment_from map (0, 0) ≡ (addr, largest))
    (whole : (get_memory_map_size map 0).0 ≡ total) (count : total / page_size ≡ n)
    (some_pages : 0 < n) (few : n < 2 ^ 52) (entries : length (raw n) ≡ n)
    (zeros : count_set (raw n) ≡ 0) (inside : AreInside n map) (l : Layout)
    (laid : layout_of addr largest n ≡ l) where
  begun : Frames
  begun = record { info = raw n; free_memory = total % u32_mod; used_memory = 0 }

  begun-IsAccounted : IsAccounted total begun
  unfolding begun
  begun-IsAccounted = record { used = rw zeros refl; sum = omega arith; word = omega arith }

  tables-chain :
      (r s t : ℕ × Frames) (f1 : Frames)
      → reserve_page 0 begun ≡ ok r
      → reserve_special_segments map r.1 ≡ ok f1
      → reserve_pages addr l.num_bitmap_pages f1 ≡ ok s
      → reserve_pages l.buddy_pool l.num_buddy_pages s.1 ≡ ok t
      → init_tables map raw ≡ ok (l, t.1)
  unfolding init_tables begun
  tables-chain r s t f1 run run1 run2 run3 =
      rw (init_tables, segment, whole, count, laid, run, ◌>>=◌, run1, run2, run3) refl

  tables-run :
      addr + l.num_bitmap_pages * page_size ≤ n * page_size
      → l.buddy_pool + l.num_buddy_pages * page_size ≤ n * page_size
      → (f : Frames) × (init_tables map raw ≡ ok (l, f)) × (length f.info ≡ n) × IsAccounted total f
  unfolding begun
  tables-run bitmap pool =
      let (r, run, same, a) = reserve_page-Kept total 0 begun (omega arith) begun-IsAccounted in
      let (f1, run1, same1, a1) =
        special-Kept total map r.1 (subst (λ k. AreInside k map) (omega arith) inside) a in
      let (s, run2, same2, a2) =
        reserve_pages-Kept total addr l.num_bitmap_pages f1 (omega arith) (omega arith) a1 in
      let (t, run3, same3, a3) =
        reserve_pages-Kept total l.buddy_pool l.num_buddy_pages s.1 (omega arith) (omega arith)
          a2 in
      (t.1, tables-chain r s t f1 run run1 run2 run3, omega arith, a3)

-- The map and the memory at boot: the largest free segment and the page frames that the map counts;
-- every special segment, and the largest one, lie among those; there is room in it for the table
-- and the pool, and two pages more; and where the table comes to stand memory is clear.
pub record IsBootable (map : List MemoryDescriptor) (raw : ℕ → List PageInfo)
    (addr largest total : ℕ) : Type 0 where
  pub segment : largest_segment_from map (0, 0) ≡ (addr, largest)
  pub whole : (get_memory_map_size map 0).0 ≡ total
  pub some_pages : 0 < total / page_size
  pub few : (total / page_size < 2 ^ 52) × (largest < 2 ^ 43)
  pub entries : length (raw (total / page_size)) ≡ total / page_size
  pub zeros : count_set (raw (total / page_size)) ≡ 0
  pub inside : AreInside (total / page_size) map
  pub below : addr + largest ≤ total / page_size * page_size
  pub room :
      (total / page_size * 8) / page_size + (largest / page_size * buddy_block_size) / page_size + 4
      ≤ largest / page_size

-- On such a map, and with room for a descriptor on each page of the pool, `init_page_properties`
-- returns. The table of page frames, the pool and the pages of the buddy system then follow each other in the
-- largest free segment; the table has an entry for each page frame, and the counters count it;
-- and the free lists are sound, with one block, where those pages begin, of the largest power of two that is not above their number.
pub init_page_properties-Ready :
    (lib : ListLib) (map : List MemoryDescriptor) (raw : ℕ → List PageInfo)
    (raw_pool : ℕ → List Block) (links : ListLib.Links lib) (addr largest total : ℕ)
    → IsBootable map raw addr largest total
    → ((n : ℕ) → 0 < n → 0 < length (raw_pool n))
    → ((k : ℕ) → 32 ≤ k → ListLib.items lib links k ≡ [])
    → (l : Layout) × (f : Frames) × (s : Buddy lib) × (init_page_properties lib map raw raw_pool
          links
        ≡ ok (l, f, s))
      × Ready lib raw_pool total addr largest l f s
unfolding init_page_properties
init_page_properties-Ready lib map raw raw_pool links addr largest total b some_pool beyond =
    let n = total / page_size in
    let room = b.room in
    let below = b.below in
    let few = b.few in
    let l = layout_of addr largest n in
    let laid = layout_of-Laid addr largest n few.0 below room in
    let pages = laid.pages in
    let most = laid.most in
    let some_start = laid.some_start in
    let (f, run, entries, account) =
      tables-run map raw addr largest total n b.segment b.whole refl b.some_pages few.0 b.entries
        b.zeros b.inside l refl laid.bitmap laid.pool in
    let raws = raw_pool l.num_buddy_pages in
    let s0 : Buddy lib = record {
      pool = clear_pool l.num_buddy_pages 0 raws;
      links = links;
      offset = 0;
    } in
    let free =
      request_buddy-cleared l.num_buddy_pages raws laid.some_pool
        (some_pool l.num_buddy_pages laid.some_pool) in
    let (s, k, done, lists, low, high, only, first, changed) =
      init_buddy-IsSound lib l.buddy_start l.buddy_total 0 s0 free beyond laid.several (omega arith)
        (omega arith) (omega arith) in
    (
      l,
      f,
      s,
      rw (init_page_properties, run, ◌>>=◌, done) refl,
      record {
        entries = entries;
        account = account;
        table = laid.table;
        pool = laid.start;
        descriptors = laid.descriptors;
        begins = laid.begins;
        pages = laid.pages;
        lists = lists;
        order = k;
        first = first;
        only = only;
        most = (low, high);
        others = changed;
      },
    )

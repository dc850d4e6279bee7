-- ===== src/MemoryMap/Tests.antt =====
-- The set-up of the allocators on a concrete map, where the pool holds what was there before.
use osvirt_project.Base.{
  ℕ, zero, suc, ◌+◌, ◌*◌, ◌<◌, ◌≡◌, refl, List, [], ◌∷◌, arith, ok, length, replicate,
}
use osvirt_project.Frames.{Frames}
use osvirt_project.ListLib.Sequences.{sequences}
use osvirt_project.Buddy.{Block, Buddy}
use osvirt_project.MemoryMap.{Layout}
use osvirt_project.MemoryMap.Setup.{init_page_properties}
use osvirt_project.MemoryMap.Setup.Ready.{Ready, init_page_properties-Ready}
use osvirt_project.MemoryMap.Samples.{map, clear_table, map-IsBootable}

abbrev old_block : Block
old_block = record { physical_addr = 0x5000; size = 7 }

abbrev raw_pool : ℕ → List Block
raw_pool zero = []
raw_pool (suc n) = old_block ∷ replicate (127 + n * 128) old_block

some_pool : (n : ℕ) → 0 < n → 0 < length (raw_pool n)
some_pool zero h = absurd (omega arith)
some_pool (suc n) h = omega arith

init_page_properties-Ready_example :
    (l : Layout) × (f : Frames) × (s : Buddy sequences) × (init_page_properties sequences map
        clear_table raw_pool
        (λ k. [])
      ≡ ok (l, f, s))
    × Ready sequences raw_pool 142671872 0x10000 0x8000000 l f s
init_page_properties-Ready_example =
    init_page_properties-Ready sequences map clear_table raw_pool (λ k. []) 0x10000 0x8000000
      142671872 map-IsBootable some_pool (λ k h. refl)

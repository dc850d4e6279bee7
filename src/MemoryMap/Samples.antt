-- ===== src/MemoryMap/Samples.antt =====
-- A memory map for concrete runs: one free segment between two others.
use osvirt_project.Base.{
  ℕ, zero, suc, ◌≡◌, refl, ap, false, List, [], ◌∷◌, arith, length, replicate,
}
use osvirt_project.Frames.{PageInfo}
use osvirt_project.Frames.Account.{count_set}
use osvirt_project.MemoryMap.{
  MemoryDescriptor, boot_services_code, conventional_memory, memory_mapped_io, largest_segment_from,
  get_memory_map_size, add_sizes,
}
use osvirt_project.MemoryMap.Setup.Ready.{IsBootable}

abbrev pub map : List MemoryDescriptor
map =
    (record { kind = boot_services_code; physical_addr = 0; num_pages = 16 })
    ∷ (record { kind = conventional_memory; physical_addr = 0x10000; num_pages = 32768 })
    ∷ (record { kind = memory_mapped_io; physical_addr = 0x8010000; num_pages = 2048 })
    ∷ []

abbrev clear_page : PageInfo
clear_page = record { inuse = false; reserved = false }

-- Clear memory.
abbrev pub clear_table : ℕ → List PageInfo
clear_table n = replicate n clear_page

length-clear_table : (n : ℕ) → length (clear_table n) ≡ n
length-clear_table zero = refl
length-clear_table (suc n) = ap suc (length-clear_table n)

count_set-clear_table : (n : ℕ) → count_set (clear_table n) ≡ 0
unfolding count_set
count_set-clear_table zero = refl
count_set-clear_table (suc n) = omega (arith, count_set-clear_table n)

pub map-IsBootable : IsBootable map clear_table 0x10000 0x8000000 142671872
unfolding largest_segment_from get_memory_map_size add_sizes
map-IsBootable = record {
  segment = refl;
  whole = refl;
  some_pages = omega arith;
  few = (omega arith, omega arith);
  entries = length-clear_table 34832;
  zeros = count_set-clear_table 34832;
  inside = ((λ e. absurd cc), ((λ e. absurd cc), ((λ e. (omega arith, omega arith)), tt)));
  below = omega arith;
  room = omega arith;
}

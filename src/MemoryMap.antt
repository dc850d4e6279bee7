-- ===== src/MemoryMap.antt =====
-- The firmware's memory map in allocator.c: `get_memory_map_size`, `get_largest_segment_size`,
-- `reserve_special_segments` and `init_page_properties`, with MemoryMap/Setup. The map is the list of its `memory_map_size / memory_map_desc_size` entries.
pub mod Segments
pub mod Setup
pub mod Samples
mod Tests
use osvirt_project.Base.{
  ℕ, zero, suc, ◌+◌, ◌-◌, ◌*◌, ◌/◌, ◌%◌, ◌^◌, Bool, true, false, ◌&&◌, ◌||◌, List, [], ◌∷◌,
  if◌then◌else◌, ◌==◌, ltb, Run, ok, ◌>>=◌, u64_mod, u32_mod, page_size,
}
use osvirt_project.Frames.{PageInfo, Frames, reserve_page, reserve_pages}

-- `enum EFI_MEMORY_TYPES`.
pub data MemoryType : Type 0 where
  reserved_memory_type loader_code loader_data boot_services_code boot_services_data : MemoryType
  runtime_services_code runtime_services_data conventional_memory unusable_memory : MemoryType
  acpi_reclaim_memory acpi_memory_nvs memory_mapped_io memory_mapped_io_port_space : MemoryType
  pal_code : MemoryType

-- `efi_memory_descriptor_t`, less what the kernel does not read.
pub record MemoryDescriptor : Type 0 where
  pub kind : MemoryType
  pub physical_addr : ℕ
  pub num_pages : ℕ

-- `desc->num_pages * PAGESIZE`.
abbrev pub size_of : MemoryDescriptor → ℕ
size_of d = (d.num_pages * page_size) % u64_mod

-- The loop of `get_memory_map_size`.
unfoldable pub add_sizes : List MemoryDescriptor → ℕ → ℕ
add_sizes [] total_size = total_size
add_sizes (d ∷ ds) total_size = add_sizes ds ((total_size + size_of d) % u64_mod)

-- `get_memory_map_size` with its static variable: the result, and the variable after the call.
unfoldable pub get_memory_map_size : List MemoryDescriptor → ℕ → ℕ × ℕ
get_memory_map_size map total_size =
    if ltb 0 total_size
    then (total_size, total_size)
    else (add_sizes map total_size, add_sizes map total_size)

abbrev pub is_conventional : MemoryType → Bool
is_conventional conventional_memory = true
is_conventional _ = false

-- The loop of `get_largest_segment_size`.
unfoldable pub largest_from : List MemoryDescriptor → ℕ → ℕ
largest_from [] largest = largest
largest_from (d ∷ ds) largest =
    largest_from ds
      (if is_conventional d.kind && ltb largest (size_of d) then size_of d else largest)

unfoldable pub get_largest_segment_size : List MemoryDescriptor → ℕ
get_largest_segment_size map = largest_from map 0

-- The loop of `init_page_properties`: the address and the size of the largest segment.
unfoldable pub largest_segment_from : List MemoryDescriptor → ℕ × ℕ → ℕ × ℕ
largest_segment_from [] r = r
largest_segment_from (d ∷ ds) r =
    largest_segment_from ds
      (if is_conventional d.kind && ltb r.1 (size_of d) then (d.physical_addr, size_of d) else r)

-- The types that `reserve_special_segments` reserves.
abbrev pub is_special : MemoryType → Bool
is_special reserved_memory_type = true
is_special runtime_services_code = true
is_special runtime_services_data = true
is_special unusable_memory = true
is_special acpi_reclaim_memory = true
is_special acpi_memory_nvs = true
is_special memory_mapped_io = true
is_special memory_mapped_io_port_space = true
is_special pal_code = true
is_special _ = false

-- What `__reserve_pages` returns is not looked at.
unfoldable pub reserve_special_segments : List MemoryDescriptor → Frames → Run Frames
reserve_special_segments [] f = ok f
reserve_special_segments (d ∷ ds) f =
    if is_special d.kind
    then (reserve_pages d.physical_addr d.num_pages f >>= λ r. reserve_special_segments ds r.1)
    else reserve_special_segments ds f

-- What `init_page_properties` lays out in the largest segment.
pub record Layout : Type 0 where
  pub info_buffer : ℕ
  pub num_bitmap_pages : ℕ
  pub buddy_pool : ℕ
  pub num_buddy_pages : ℕ
  pub buddy_start : ℕ
  pub buddy_total : ℕ

-- `sizeof(buddy_block_t)`.
abbrev pub buddy_block_size : ℕ
buddy_block_size = 32

-- The addresses and sizes, from the segment and the number of page frames.
unfoldable pub layout_of : (addr largest num_frames : ℕ) → Layout
layout_of addr largest num_frames =
    let bitmap = ((num_frames * 8) % u64_mod) / page_size + 1 in
    let buddies = (largest / page_size * buddy_block_size) / page_size + 1 in
    record {
      info_buffer = addr;
      num_bitmap_pages = bitmap;
      buddy_pool = (addr + page_size * bitmap) % u64_mod;
      num_buddy_pages = buddies;
      buddy_start = (addr + page_size * bitmap + page_size * buddies) % u64_mod;
      buddy_total = (largest / page_size + 2 * u64_mod - bitmap - buddies) % u64_mod;
    }

-- `init_page_properties` up to the buddy system and its pool, at boot. `raw` is what memory holds where the table of
-- page frames comes to stand, since the code clears none of it.
unfoldable pub init_tables :
    List MemoryDescriptor → (raw : ℕ → List PageInfo) → Run (Layout × Frames)
init_tables map raw =
    let (addr, largest) = largest_segment_from map (0, 0) in
    let total = (get_memory_map_size map 0).0 in
    let layout = layout_of addr largest (total / page_size) in
    let f : Frames = record {
      info = raw (total / page_size);
      free_memory = total % u32_mod;
      used_memory = 0;
    } in
    reserve_page 0 f >>= λ r. reserve_special_segments map r.1 >>= λ f1.
    reserve_pages addr layout.num_bitmap_pages f1 >>= λ s.
    reserve_pages layout.buddy_pool layout.num_buddy_pages s.1 >>= λ t. ok (layout, t.1)

-- ===== src/PageTable/Tests.antt =====
-- `map_memory` from an empty table, with a source of pages that counts up.
use osvirt_project.Base.{ℕ, ◌≡◌, refl, Option, some, Run, ok, ◌>>=◌, arith}
use osvirt_project.PageTable.{Memory, map_memory, get_page_indexes}
use osvirt_project.PageTable.Walk.{reach, InRange, translate}
use osvirt_project.PageTable.Map.{MapOutcome, map_memory_lem}
use osvirt_project.PageTable.Counter.{next_page, counter, zeroes, zeroes-IsSound}

-- The first user page, at physical page 0x1234.
map_memory_lem_example :
    MapOutcome next_page counter 4096 0x8000003000 0x1234000 zeroes
      (map_memory next_page 4096 0x8000003000 0x1234000 1 (zeroes, 2))
map_memory_lem_example =
    map_memory_lem next_page counter 4096 0x8000003000 0x1234000 1 zeroes 2 (omega arith)
      (omega arith) zeroes-IsSound

-- The same call, run.
mapped : Run (Option ℕ)
unfolding map_memory translate osvirt_project.PageTable.Walk.leaf
mapped = map_memory next_page 4096 0x8000003000 0x1234000 1 (zeroes, 2) >>= λ r.
    ok (translate r.1 4096 0x8000003008)

mapped_run : mapped ≡ ok (some 0x1234000)
unfolding mapped reach osvirt_project.PageTable.store osvirt_project.PageTable.clear_page
    osvirt_project.PageTable.set_pml osvirt_project.PageTable.set_pdpe
    osvirt_project.PageTable.set_pde osvirt_project.PageTable.set_pte
mapped_run = refl

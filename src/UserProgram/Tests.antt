-- ===== src/UserProgram/Tests.antt =====
-- The user program at a concrete address.
use osvirt_project.Base.{◌≡◌, true, none, [], ◌∷◌, ok, arith}
use osvirt_project.UserHeap.{Memory, Heap}
use osvirt_project.UserHeap.Blocks.{IsHeap}
use osvirt_project.UserProgram.{user_start}
use osvirt_project.UserProgram.Blocks.{printed, user_start_lem}

abbrev blank : Memory
blank q = none

user_start_lem_example :
    (h : Heap) × (user_start 0x18000000000 blank ≡ ok (printed 0x18000000000, h))
    × IsHeap h ((true, 4640) ∷ [])
user_start_lem_example = user_start_lem 0x18000000000 blank (omega arith)

-- ===== src/UserHeap/Tests.antt =====
-- The user heap at concrete inputs.
use osvirt_project.Base.{
  ℕ, ◌+◌, ◌≡◌, ◌≤◌, ◌⊎◌, ◌++◌, refl, fault, true, false, none, List, [], ◌∷◌, arith, ok, Run,
}
use osvirt_project.UserHeap.{
  tag_size, Memory, Heap, mark, mem_sbrk, find_block, mm_malloc, mm_free, memlib_init, find_from,
  extend_heap, split, mark_used, mark_free, get_next, store,
}
use osvirt_project.UserHeap.Blocks.{Block, at, SameLimits, IsHeap}
use osvirt_project.UserHeap.Place.{mark-IsHeap}
use osvirt_project.UserHeap.Extend.{extended, extended-IsHeap}
use osvirt_project.UserHeap.Allocate.{Allocated, mm_malloc_lem}
use osvirt_project.UserHeap.Neighbours.{released}
use osvirt_project.UserHeap.Release.{mm_free_lem}
use osvirt_project.UserHeap.Live.{used, live, Apart, mm_malloc-live, mm_free-live}
use osvirt_project.UserHeap.Sequence.{Program, grant, write_byte, malloc, write, start, next}
use osvirt_project.UserHeap.Sequence.Safety.{IsSafe, Reach-IsSafe}
use osvirt_project.UserHeap.Show.{
  debug_heap_user, debug_heap, heap_listing, kernel_listing, debug_heap_user-shown,
}
use osvirt_project.UserHeap.Setup.{memlib_init-IsHeap}

abbrev base : ℕ
base = 65536

abbrev blank : Memory
blank q = none

abbrev empty_heap : Heap
empty_heap = memlib_init base blank

abbrev blocks : List Block
blocks = (false, 64) ∷ (true, 32) ∷ []

-- A used block of 64 bytes, then a free one of 32.
abbrev two_blocks : Heap
two_blocks = mark false (at empty_heap []) 64 (extended 32 (extended 64 empty_heap))

two_blocks-IsHeap : IsHeap two_blocks blocks
unfolding memlib_init mem_sbrk
two_blocks-IsHeap =
    let held = memlib_init-IsHeap base blank (omega arith) in
    let one = extended-IsHeap 64 empty_heap [] held (omega arith) (omega arith) in
    let two =
      extended-IsHeap 32 (extended 64 empty_heap) ((true, 64) ∷ []) one (omega arith)
        (omega arith) in
    mark-IsHeap false 64 (extended 32 (extended 64 empty_heap)) [] ((true, 64) ∷ [])
      ((true, 32) ∷ []) two (omega arith) (omega arith)

mm_malloc_lem_example : Allocated 20 two_blocks blocks (mm_malloc 20 two_blocks)
mm_malloc_lem_example =
    mm_malloc_lem 20 20 two_blocks blocks two_blocks-IsHeap (ground arith) (ground arith)
      (omega arith)

mm_free_lem_example :
    (h' : Heap) × (mm_free (at two_blocks [] + tag_size) two_blocks ≡ ok h')
    × IsHeap h' (released [] 64 ((true, 32) ∷ []))
    × SameLimits two_blocks h'
mm_free_lem_example = mm_free_lem two_blocks [] ((true, 32) ∷ []) (false, 64) two_blocks-IsHeap

mm_malloc-live_example :
    (mm_malloc 20 two_blocks ≡ fault)
    ⊎ ((p k : ℕ) × (h' : Heap) × (bs' : List Block) × (xs ys : List (ℕ × ℕ)) × (mm_malloc 20
            two_blocks
          ≡ ok (p, h'))
        × IsHeap h' bs'
        × (20 ≤ k)
        × (live two_blocks blocks ≡ xs ++ ys)
        × (live h' bs' ≡ xs ++ ((p, k) ∷ ys))
        × Apart 0 (xs ++ ((p, k) ∷ ys)))
mm_malloc-live_example =
    mm_malloc-live 20 two_blocks blocks two_blocks-IsHeap (ground arith) (omega arith)

one_payload : live two_blocks blocks ≡ [] ++ ((65552, 64) ∷ [])
unfolding used memlib_init mem_sbrk mark
one_payload = refl

mm_free-live_example :
    (h' : Heap) × (bs' : List Block) × (mm_free 65552 two_blocks ≡ ok h')
    × IsHeap h' bs'
    × (live h' bs' ≡ [] ++ [])
mm_free-live_example = mm_free-live two_blocks blocks [] [] 65552 64 two_blocks-IsHeap one_payload

heap_of : Run (ℕ × Heap) → Heap
heap_of (ok (p, h)) = h
heap_of _ = empty_heap

-- A payload of 20 bytes is had and written to.
abbrev one_held : Program
unfolding heap_of mm_malloc
one_held = record { heap = heap_of (mm_malloc 20 empty_heap); held = grant 65552 20 (λ q. none) }

abbrev one_written : Program
one_written = record one_held { heap = write_byte 65571 one_held.heap }

one_had : mm_malloc 20 empty_heap ≡ ok (65552, one_held.heap)
unfolding one_held heap_of mm_malloc find_block find_from mem_sbrk extend_heap split mark mark_used
    mark_free get_next memlib_init store
one_had = refl

Reach-IsSafe_example : IsSafe one_written
unfolding one_held
Reach-IsSafe_example = Reach-IsSafe base blank one_written (omega arith) (
    next (next start (malloc 20 65552 (omega arith) (omega arith) one_had refl))
      (write 65552 20 65571 refl (omega arith) (omega arith) refl refl))

debug_heap_user-shown_example :
    (debug_heap_user two_blocks ≡ ok (heap_listing (two_blocks.start_brk + tag_size) blocks))
    × (debug_heap 5 two_blocks.start_brk two_blocks.mem
        ≡ ok (kernel_listing (two_blocks.start_brk + tag_size) blocks))
debug_heap_user-shown_example =
    debug_heap_user-shown 5 two_blocks blocks two_blocks-IsHeap (omega arith)

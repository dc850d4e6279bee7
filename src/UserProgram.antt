-- ===== src/UserProgram.antt =====
-- The user program of user.c, which makes calls of mm.c and prints the heap in between.
pub mod Blocks
mod Tests
use osvirt_project.Base.{ℕ, List, [], ◌∷◌, ◌++◌, Run, ok, ◌>>=◌}
use osvirt_project.UserHeap.{Memory, Heap, mm_malloc, mm_free, mm_realloc, memlib_init}
use osvirt_project.UserHeap.Show.{Line, debug_heap_user}

-- The texts that it prints, and what `debug_heap_user` prints.
pub data Printed : Type 0 where
  user_banner mallocing reallocing freeing end_reached : Printed
  calling_memlib_init in_memlib_init : Printed
  heap_lines : List Line → Printed

-- `malloc_test`; the first call of `mm_malloc` sets up the heap, at the address `base`.
unfoldable pub malloc_test : (base : ℕ) → Memory → Run (List Printed × Heap)
malloc_test base m = mm_malloc 256 (memlib_init base m) >>= λ a. mm_malloc 256 a.1 >>= λ b.
    debug_heap_user b.1 >>= λ shown. mm_realloc b.0 4096 b.1 >>= λ c.
    debug_heap_user c.1 >>= λ shown'. mm_free c.0 c.1 >>= λ h. mm_free a.0 h >>= λ h'.
    debug_heap_user h' >>= λ shown''. ok (
      mallocing
          ∷ calling_memlib_init
          ∷ in_memlib_init
          ∷ heap_lines shown
          ∷ reallocing
          ∷ heap_lines shown'
          ∷ freeing
          ∷ heap_lines shown''
          ∷ [],
      h',
    )

-- `user_start` up to its endless loop.
unfoldable pub user_start : (base : ℕ) → Memory → Run (List Printed × Heap)
user_start base m = malloc_test base m >>= λ r. ok (user_banner ∷ (r.0 ++ (end_reached ∷ [])), r.1)

-- ===== src/Kernel.antt =====
-- The loops of kernel.c and kernel_syscall.c that map memory, and the system calls. The pages come
-- from `get_block(1)`, and the heap's block from `get_block(size)`, parameters here.
pub mod Ranges
pub mod Calls
pub mod Pages
pub mod Strict
pub mod Stock
pub mod Boot
pub mod Start
mod Tests
use osvirt_project.Base.{
  ℕ, zero, suc, ◌+◌, ◌-◌, ◌*◌, ◌/◌, ◌^◌, Bool, true, false, ◌||◌, List, [], ◌∷◌, if◌then◌else◌,
  ◌==◌, ltb, leb, Run, ok, halted, ◌>>=◌, u64_mod, page_size,
}
use osvirt_project.PageTable.{Memory, map_memory}

-- The rounds of `for (i = 0; i < size; i += PAGESIZE)`.
abbrev pub rounds_of : ℕ → ℕ
rounds_of size = (size + (page_size - 1)) / page_size

-- What user programs have printed: the format and its argument, or the time.
pub data Output : Type 0 where
  format : ℕ → Output
  format_with : (text argument : ℕ) → Output
  time_of : (text time : ℕ) → Output
  heap_dump : ℕ → Output

module _ {S : Type 0} (get_page : S → Run (ℕ × S)) where
  -- The mapping loops of `kernel_start`: a failure halts the machine.
  unfoldable pub map_range : (rounds pml va pa usermode : ℕ) → Memory × S → Run (Memory × S)
  map_range zero pml va pa usermode (m, s) = ok (m, s)
  map_range (suc k) pml va pa usermode (m, s) =
      map_memory get_page pml va pa usermode (m, s) >>= λ r. elim (r.0 == 0) [
        | true ↦ map_range k pml (va + page_size) (pa + page_size) usermode (r.1, r.2)
        | false ↦ halted
      ]

  -- The kernel's table: memory up to `size`, the framebuffer, and the fourth gigabyte, each address to
  -- itself.
  unfoldable pub map_kernel : (kernel_pml size framebuffer : ℕ) → Memory × S → Run (Memory × S)
  map_kernel pml size fb mp = map_range (rounds_of size) pml 0 0 0 mp >>= λ mp.
      map_range (rounds_of (2 ^ 24)) pml fb fb 0 mp >>= λ mp.
      map_range (rounds_of 0x40000000) pml 0xc0000000 0xc0000000 0 mp

  -- The user program, at its own addresses.
  unfoldable pub map_user :
      (user_pml user_code_size user_buffer : ℕ) → Memory × S → Run (Memory × S)
  map_user pml size buffer mp = map_range (rounds_of size) pml 0x8000003000 buffer 1 mp

  -- The mapping loop of `assign_heap`: what `map_memory` returns is not looked at.
  unfoldable pub map_all : (rounds pml va pa usermode : ℕ) → Memory × S → Run (Memory × S)
  map_all zero pml va pa usermode (m, s) = ok (m, s)
  map_all (suc k) pml va pa usermode (m, s) = map_memory get_page pml va pa usermode (m, s) >>= λ r.
      map_all k pml (va + page_size) (pa + page_size) usermode (r.1, r.2)

  -- What the system calls use: memory, `user_pml`, `user_heap_ptr`, `*time_ptr`, and the output.
  pub record Kernel : Type 0 where
    pub mem : Memory
    pub pages : S
    pub user_pml : ℕ
    pub user_heap_ptr : ℕ
    pub time : ℕ
    pub log : List Output

  abbrev pub base_vaddr : ℕ
  base_vaddr = 0x18000000000

  -- The loop of `assign_heap` counts in an `int`: after 2 ^ 19 pages it is negative, which as an
  -- unsigned number is no longer below the size of any heap.
  abbrev pub heap_rounds : ℕ → ℕ
  heap_rounds size = if leb size (2 ^ 19) then size else 2 ^ 19

  unfoldable pub assign_heap :
      (get_block : ℕ → S → Run (ℕ × S)) (size : ℕ) → Kernel → Run (ℕ × Kernel)
  assign_heap get_block size k = get_block size k.pages >>= λ r.
      if r.0 == 0
      then ok (1, record k { user_heap_ptr = 0; pages = r.1 })
      else (map_all (heap_rounds size) k.user_pml base_vaddr r.0 1 (k.mem, r.1) >>= λ t.
          ok (base_vaddr, record k { user_heap_ptr = r.0; mem = t.0; pages = t.1 }))

  abbrev pub put : Output → Kernel → Kernel
  put o k = record k { log = o ∷ k.log }

  -- `do_syscall_entry`; a negative number is 2 ^ 63 or more, and -1 is 2 ^ 64 - 1.
  unfoldable pub do_syscall_entry :
      (get_block : ℕ → S → Run (ℕ × S)) (n a1 a2 : ℕ) → Kernel → Run (ℕ × Kernel)
  do_syscall_entry get_block n a1 a2 k =
      if leb (2 ^ 63) n || ltb 4 n
      then ok (0xffffffffffffffff, k)
      else if n == 0
      then ok (0, put (format a1) k)
      else if n == 1
      then assign_heap get_block a1 k
      else if n == 2
      then ok (0, put (heap_dump k.user_heap_ptr) k)
      else if n == 3
      then ok (0, put (format_with a1 a2) k)
      else ok (0, put (time_of a1 k.time) k)

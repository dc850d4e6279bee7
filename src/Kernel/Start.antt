-- ===== src/Kernel/Start.antt =====
-- The start of kernel.c: `syscall_init`, and the kernel's page table in `kernel_start`.
pub mod Identity
pub mod Shared
pub mod User
use Prim.Native.Nat.{bit_or}
use osvirt_project.Base.{if◌then◌else◌, ◌==◌, halted, ℕ, ◌+◌, ◌*◌, ◌^◌, Run, ok, ◌>>=◌}
use osvirt_project.PageTable.{Memory, clear_page, store, entry_at, fields, page_address, map_memory}
use osvirt_project.Apic.{Cpu, Lapic, rdmsr, wrmsr}
use osvirt_project.Kernel.{map_kernel, map_user}

-- `MSR_EFER`, `MSR_STAR`, `MSR_LSTAR` and `MSR_SFMASK`.
unfoldable pub syscall_init : Cpu → (syscall_entry_ptr : ℕ) → Lapic → Lapic
syscall_init cpu syscall_entry_ptr s =
    let s1 = wrmsr 0xc0000080 (bit_or (rdmsr cpu 0xc0000080) 1) s in
    let s2 = wrmsr 0xc0000081 (bit_or (0x10 * 2 ^ 48) (0x08 * 2 ^ 32)) s1 in
    let s3 = wrmsr 0xc0000082 syscall_entry_ptr s2 in wrmsr 0xc0000084 (2 ^ 9) s3

module _ {S : Type 0} (get_page : S → Run (ℕ × S)) where
  -- `kernel_pml`, and the mapping loops. A failure of `get_block` is not looked at.
  unfoldable pub map_start : (size framebuffer : ℕ) → Memory × S → Run (ℕ × Memory × S)
  map_start size fb (m, s) = get_page s >>= λ r.
      map_kernel get_page r.0 size fb (clear_page m r.0, r.1) >>= λ t. ok (r.0, t.0, t.1)

-- The user's table: empty but for the kernel's first entry, not for user mode.
unfoldable pub share_kernel : (user_pml kernel_pml : ℕ) → Memory → Memory
share_kernel user_pml kernel_pml m =
    let m1 = clear_page m user_pml in
    store m1 (entry_at user_pml 0) (fields 0 (page_address (m1 (entry_at kernel_pml 0))) 1 0)

module _ {S : Type 0} (get_page : S → Run (ℕ × S)) where
  -- `user_pml`, the user program, and a page for its stack. A failure to map the stack halts.
  unfoldable pub map_stack : (user_pml : ℕ) → Memory × S → Run (Memory × S)
  map_stack user_pml (m, s) = get_page s >>= λ k.
      map_memory get_page user_pml 0x8000001000 k.0 1 (m, k.1) >>= λ r.
      if r.0 == 0 then ok (r.1, r.2) else halted

  unfoldable pub user_start :
      (kernel_pml user_code_size user_buffer : ℕ) → Memory × S → Run (ℕ × Memory × S)
  user_start kernel_pml size buffer (m, s) = get_page s >>= λ u.
      map_user get_page u.0 size buffer (share_kernel u.0 kernel_pml m, u.1) >>= λ t.
      map_stack u.0 t >>= λ v. ok (u.0, v.0, v.1)

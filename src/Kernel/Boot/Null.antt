-- ===== src/Kernel/Boot/Null.antt =====
-- Without a page for a table the mapping loops halt.
use osvirt_project.Base.{ℕ, zero, suc, ◌<◌, ◌≡◌, refl, ◌⊎◌, inl, inr, arith, Run, ok, halted, ◌>>=◌}
use osvirt_project.PageTable.{Memory, map_memory}
use osvirt_project.Kernel.{rounds_of, map_range, map_kernel, map_user}
use osvirt_project.Kernel.Start.{map_start, share_kernel, map_stack, user_start}
use osvirt_project.PageTable.{clear_page}

ℕ-cases : (n : ℕ) → (n ≡ 0) ⊎ ((k : ℕ) × (n ≡ suc k))
ℕ-cases zero = inl refl
ℕ-cases (suc k) = inr (k, refl)

module _ {S : Type 0} (get_page : S → Run (ℕ × S)) where
  map_memory-null :
      (va pa usermode : ℕ) (m : Memory) (s : S)
      → map_memory get_page 0 va pa usermode (m, s) ≡ ok (1, m, s)
  unfolding map_memory
  map_memory-null va pa usermode m s = refl

  map_range-null :
      (k va pa usermode : ℕ) (m : Memory) (s : S)
      → map_range get_page (suc k) 0 va pa usermode (m, s) ≡ halted
  unfolding map_range
  map_range-null k va pa usermode m s =
      rw (map_range, map_memory-null va pa usermode m s, ◌>>=◌) refl

  map_kernel-null :
      (size fb : ℕ) (m : Memory) (s : S) → 0 < size → map_kernel get_page 0 size fb (m, s) ≡ halted
  unfolding map_kernel
  map_kernel-null size fb m s some_size = elim (ℕ-cases (rounds_of size)) [
    | inl out ↦ absurd (omega arith)
    | inr (k, more) ↦ rw (map_kernel, more, map_range-null k 0 0 0 m s, ◌>>=◌) refl
  ]

  -- The kernel's table at `NULL`.
  pub map_start-null :
      (size fb : ℕ) (m : Memory) (s s1 : S)
      → get_page s ≡ ok (0, s1)
      → 0 < size
      → map_start get_page size fb (m, s) ≡ halted
  unfolding map_start
  map_start-null size fb m s s1 got some_size =
      rw (map_start, got, ◌>>=◌, map_kernel-null size fb (clear_page m 0) s1 some_size) refl

  map_stack-null :
      (m : Memory) (s : S) (p : ℕ × S) → get_page s ≡ ok p → map_stack get_page 0 (m, s) ≡ halted
  unfolding map_stack
  map_stack-null m s p got =
      rw (map_stack, got, ◌>>=◌, map_memory-null 0x8000001000 p.0 1 m p.1) refl

  -- The user's table at `NULL`.
  pub user_start-null :
      (k size buffer : ℕ) (m : Memory) (s s1 : S) (p : ℕ × S)
      → get_page s ≡ ok (0, s1)
      → get_page s1 ≡ ok p
      → user_start get_page k size buffer (m, s) ≡ halted
  unfolding user_start map_user map_range
  user_start-null k size buffer m s s1 p got got' = elim (ℕ-cases (rounds_of size)) [
    | inl out ↦
        rw
          (
            user_start,
            got,
            ◌>>=◌,
            map_user,
            out,
            map_range,
            map_stack-null (share_kernel 0 k m) s1 p got',
          )
          refl
    | inr (j, more) ↦
        rw
          (
            user_start,
            got,
            ◌>>=◌,
            map_user,
            more,
            map_range-null j 0x8000003000 buffer 1 (share_kernel 0 k m) s1,
          )
          refl
  ]

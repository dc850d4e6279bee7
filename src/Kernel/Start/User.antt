-- ===== src/Kernel/Start/User.antt =====
-- The user's table when the program starts.
use osvirt_project.Base.{
  ℕ, ◌+◌, ◌*◌, ◌/◌, ◌^◌, ◌≤◌, ◌<◌, ◌≡◌, ◌≢◌, refl, ◌∙◌, ◌⊎◌, inl, inr, true, false, some, arith,
  Run, ok, ◌>>=◌, ◌==◌, Bool-cases, page_size,
}
use osvirt_project.PageTable.{Memory, entry_at, present}
use osvirt_project.PageTable.Walk.{translate}
use osvirt_project.PageTable.Level.{PageSource, HaltsDry, IsSound}
use osvirt_project.PageTable.Map.{map_memory_lem}
use osvirt_project.Kernel.{rounds_of, map_user}
use osvirt_project.Kernel.Ranges.{page_of, map_range-Ranged}
use osvirt_project.Kernel.Start.{share_kernel, map_stack, user_start}
use osvirt_project.Kernel.Start.Shared.{shared-IsSound, translate-shared}

module _ {S : Type 0} (get_page : S → Run (ℕ × S)) (source : PageSource get_page) (u : ℕ)
    (some_pml : u ≢ 0) where
  -- `map_stack` halts, or maps the stack's page and no other.
  abbrev StackOutcome : Memory → Run (Memory × S) → Type 0
  StackOutcome m run =
      HaltsDry get_page source run
      ⊎ ((r : Memory × S) × (stack : ℕ) × (run ≡ ok r)
          × IsSound get_page source u r.0 r.1
          × (translate r.0 u 0x8000001000 ≡ some (stack * page_size))
          × ((va : ℕ) → page_of va ≢ page_of 0x8000001000 → translate r.0 u va ≡ translate m u va))

  map_stack-page :
      (m : Memory) (s : S) (p : ℕ × S)
      → get_page s ≡ ok p
      → p.0 < 2 ^ 52
      → IsSound get_page source u m s
      → StackOutcome m (map_stack get_page u (m, s))
  unfolding map_stack
  map_stack-page m s p got below sound =
      let still : IsSound get_page source u m p.1 = record {
        tree = sound.tree;
        ready = source.keeps s p sound.ready got;
        apart = λ q c l o e h. sound.apart q c l o e (source.shrinks s p sound.ready got c h);
      } in
      let (r, run, sound', way) =
        map_memory_lem get_page source u 0x8000001000 p.0 1 m p.1 some_pml below still in
      elim way [
        | inl (good, mapped) ↦
            let done : (r.0 == 0) ≡ true = ground arith in
            inr (
              (r.1, r.2),
              p.0 / page_size,
              rw (map_stack, got, ◌>>=◌, run, done) refl,
              sound',
              mapped.here,
              mapped.rest,
            )
        | inr (bad, most, dry, same) ↦
            let failed : (r.0 == 0) ≡ false = ground arith in
            inl (rw (map_stack, got, ◌>>=◌, run, failed) refl, dry)
      ]

  map_stack-cases :
      (m : Memory) (s : S)
      → IsSound get_page source u m s
      → StackOutcome m (map_stack get_page u (m, s))
  map_stack-cases m s sound =
      let (p, got) = source.returns s sound.ready in
      elim (Bool-cases (p.0 == 0)) [
        | inl null ↦ map_stack-page m s p got (ground arith) sound
        | inr page ↦
            map_stack-page m s p got (source.gives s p sound.ready got (ground arith)).3 sound
      ]

-- The user's table: the kernel's translation below 2 ^ 39, the program's pages in their order, and a
-- page for the stack.
pub record UserTables (u k rounds buffer : ℕ) (m m' : Memory) : Type 0 where
  pub kernel_part : (va : ℕ) → va < 2 ^ 39 → translate m' u va ≡ translate m k va
  pub program :
      (j : ℕ)
      → j < rounds
      → translate m' u (0x8000003000 + j * page_size) ≡ some ((buffer / page_size + j) * page_size)
  pub stack : (page : ℕ) × (translate m' u 0x8000001000 ≡ some (page * page_size))

-- On a sound kernel table with its first entry present, and when `get_block` has a page for the
-- user's table, the rest of `kernel_start` up to the jump halts, and there is a state in which
-- `get_block` can give and in which it returns `NULL`; or it leaves a sound table for the user:
-- addresses below 2 ^ 39 are translated as in the kernel's table, the pages from 0x8000003000 on to
-- those of the program, and the stack's page to some page. The program is below 2 ^ 52, and its
-- last address below 2 ^ 48.
pub user_start-UserTables :
    {S : Type 0} (get_page : S → Run (ℕ × S)) (source : PageSource get_page) (k size buffer : ℕ)
    (m : Memory) (s : S) (u : ℕ × S)
    → u.0 ≢ 0
    → get_page s ≡ ok u
    → IsSound get_page source k m s
    → present (m (entry_at k 0)) ≡ 1
    → 0x8000003000 + rounds_of size * page_size ≤ 2 ^ 48
    → buffer + rounds_of size * page_size ≤ 2 ^ 52
    → HaltsDry get_page source (user_start get_page k size buffer (m, s))
      ⊎ ((t : Memory × S) × (user_start get_page k size buffer (m, s) ≡ ok (u.0, t.0, t.1))
          × IsSound get_page source u.0 t.0 t.1
          × UserTables u.0 k (rounds_of size) buffer m t.0)
unfolding user_start map_user
user_start-UserTables get_page source k size buffer m s u some_pml got sound on below below' =
    let (has, gone, aligned, small) = source.gives s u sound.ready got some_pml in
    let shrinks = source.shrinks s u sound.ready got in
    let ready = source.keeps s u sound.ready got in
    let m1 = share_kernel u.0 k m in
    let sound1 =
      shared-IsSound get_page source u.0 k m s u.1 sound on aligned has gone shrinks ready in
    let same1 =
      translate-shared get_page source u.0 k m s u.1 sound on aligned has gone shrinks ready in
    elim (map_range-Ranged get_page source u.0 some_pml (rounds_of size) 0x8000003000 buffer 1 m1
      u.1 below below' sound1) [
        | inl (stop, dry) ↦ inl (rw (user_start, got, ◌>>=◌, map_user, stop) refl, dry)
        | inr (r, run, ranged) ↦
            elim (map_stack-cases get_page source u.0 some_pml r.0 r.1 ranged.sound) [
              | inl (stop, dry) ↦ inl (rw (user_start, got, ◌>>=◌, map_user, run, stop) refl, dry)
              | inr (t, stack, run', sound', here, rest) ↦ inr (
                t,
                rw (user_start, got, ◌>>=◌, map_user, run, run') refl,
                sound',
                record {
                  kernel_part = λ va low.
                      rest va (λ e. omega arith)
                      ∙ ranged.rest va (λ j less e. omega arith)
                      ∙ same1 va low;
                  program = λ j less.
                      rest (0x8000003000 + j * page_size) (λ e. omega arith) ∙ ranged.inside j less;
                  stack = (stack, here);
                },
              )
            ]
      ]

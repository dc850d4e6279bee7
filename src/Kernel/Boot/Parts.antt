-- ===== src/Kernel/Boot/Parts.antt =====
-- The two tables of `kernel_start`, over the buddy system.
use osvirt_project.Base.{
  ℕ, ◌+◌, ◌*◌, ◌^◌, ◌≤◌, ◌<◌, ◌≡◌, refl, ap, ◌∙◌, ◌⊎◌, inl, inr, none, some, List, arith, ◌==◌,
  Bool-cases, ok, page_size,
}
use osvirt_project.ListLib.{ListLib}
use osvirt_project.Buddy.{Buddy, get_block}
use osvirt_project.MemoryMap.{MemoryDescriptor, get_memory_map_size}
use osvirt_project.PageTable.{Memory, entry_at, present}
use osvirt_project.PageTable.Walk.{reach, leaf, translate}
use osvirt_project.PageTable.Level.{PageSource, HaltsDry, IsSound}
use osvirt_project.PageTable.Drawn.{Drawn, drawn_from}
use osvirt_project.Kernel.{rounds_of}
use osvirt_project.Kernel.Start.{map_start, user_start}
use osvirt_project.Kernel.Start.Identity.{IsIdentity, Covered, map_start-KernelTables}
use osvirt_project.Kernel.Start.User.{UserTables, user_start-UserTables}
use osvirt_project.Kernel.Pages.{IsStocked, get_block-returns, get_block-keeps, buddies}
use osvirt_project.Kernel.Boot.Null.{map_start-null, user_start-null}

-- A table that translates the address 0 has its first entry.
pub translate-present :
    (m : Memory) (pml x : ℕ) → translate m pml 0 ≡ some x → present (m (entry_at pml 0)) ≡ 1
unfolding translate reach leaf
translate-present m pml x e = elim (Bool-cases (present (m (entry_at pml 0)) == 1)) [
  | inl on ↦ ground arith
  | inr off ↦
      let stuck : translate m pml 0 ≡ none = rw (translate, reach, off, leaf) refl in absurd cc
]

pub known_size :
    (map : List MemoryDescriptor) (total : ℕ)
    → (get_memory_map_size map 0).0 ≡ total
    → 0 < total
    → (get_memory_map_size map (get_memory_map_size map 0).1).0 ≡ total
unfolding get_memory_map_size
known_size map total whole some_size = ground arith

module _ (lib : ListLib) (s0 : Buddy lib) where
  -- The buddy system, in the states that it comes to by `get_block(1)`.
  abbrev pub drawn : PageSource (get_block lib 1)
  drawn = drawn_from (get_block lib 1) (buddies lib) s0

  -- The last part, from the user's table on.
  pub user_part :
      (k size buffer : ℕ) (m : Memory) (s : Buddy lib)
      → IsSound (get_block lib 1) drawn k m s
      → present (m (entry_at k 0)) ≡ 1
      → 0x8000003000 + rounds_of size * page_size ≤ 2 ^ 48
      → buffer + rounds_of size * page_size ≤ 2 ^ 52
      → HaltsDry (get_block lib 1) drawn (user_start (get_block lib 1) k size buffer (m, s))
        ⊎ ((u : ℕ × Memory × Buddy lib) × (user_start (get_block lib 1) k size buffer (m, s) ≡ ok u)
            × IsSound (get_block lib 1) drawn u.0 u.1 u.2
            × UserTables u.0 k (rounds_of size) buffer m u.1)
  user_part k size buffer m s sound on below below' =
      let (u, got) = get_block-returns lib s sound.ready.0 in
      let (v, got') = get_block-returns lib u.1 (get_block-keeps lib s u sound.ready.0 got) in
      elim (Bool-cases (u.0 == 0)) [
        | inl null ↦
            let at : u.0 ≡ 0 = ground arith in
            let none_left : get_block lib 1 s ≡ ok (0, u.1) = got ∙ ap (λ x. ok (x, u.1)) at in
            inl (
              user_start-null (get_block lib 1) k size buffer m s u.1 v none_left got',
              (s, u.1, sound.ready, none_left),
            )
        | inr page ↦
            elim (user_start-UserTables (get_block lib 1) drawn k size buffer m s u (ground arith)
              got sound on below below') [
                | inl stop ↦ inl stop
                | inr (t, run, sound', tables) ↦ inr ((u.0, t.0, t.1), run, sound', tables)
              ]
      ]

  -- The kernel's table.
  pub kernel_part :
      (size f : ℕ) (m : Memory) (s : Buddy lib)
      → IsStocked lib s × Drawn (get_block lib 1) s0 s
      → 0 < size
      → size + page_size ≤ 2 ^ 48
      → (f + 4096) * page_size ≤ 2 ^ 48
      → HaltsDry (get_block lib 1) drawn (map_start (get_block lib 1) size (f * page_size) (m, s))
        ⊎ ((k : ℕ × Memory × Buddy lib) × (map_start (get_block lib 1) size (f * page_size) (m, s)
              ≡ ok k)
            × IsSound (get_block lib 1) drawn k.0 k.1 k.2
            × ((x : ℕ) → x < 2 ^ 36 → Covered size f x → IsIdentity k.0 k.1 x))
  kernel_part size f m s st some_size below below' =
      let (u, got) = get_block-returns lib s st.0 in
      elim (Bool-cases (u.0 == 0)) [
        | inl null ↦
            let at : u.0 ≡ 0 = ground arith in
            let none_left : get_block lib 1 s ≡ ok (0, u.1) = got ∙ ap (λ x. ok (x, u.1)) at in
            inl (
              map_start-null (get_block lib 1) size (f * page_size) m s u.1 none_left some_size,
              (s, u.1, st, none_left),
            )
        | inr page ↦
            elim (map_start-KernelTables (get_block lib 1) drawn size f m s u (ground arith) st got
              below below') [
                | inl stop ↦ inl stop
                | inr (t, run, tables) ↦ inr ((u.0, t.0, t.1), run, tables.0, tables.1)
              ]
      ]

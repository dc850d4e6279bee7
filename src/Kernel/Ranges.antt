-- ===== src/Kernel/Ranges.antt =====
-- The mapping loops against the processor's reading of the table.
use osvirt_project.Base.{
  ℕ, zero, suc, ◌+◌, ◌*◌, ◌/◌, ◌%◌, ◌^◌, ◌≤◌, ◌<◌, ◌≡◌, refl, ◌∙◌, ◌≢◌, ◌⊎◌, inl, inr, some, arith,
  Run, ok, ◌>>=◌, eq→==, ne→==, page_size,
}
use osvirt_project.PageTable.{Memory}
use osvirt_project.PageTable.Walk.{translate}
use osvirt_project.PageTable.Level.{PageSource, HaltsDry, IsSound}
use osvirt_project.PageTable.Leaf.{Mapped}
use osvirt_project.PageTable.Map.{map_memory_lem}
use osvirt_project.Kernel.{map_range}

-- The page of an address, in the 48-bit address space.
abbrev pub page_of : ℕ → ℕ
page_of va = (va / page_size) % 2 ^ 36

-- The address lies in none of the pages.
abbrev pub Outside : (va rounds va' : ℕ) → Type 0
Outside va rounds va' = (j : ℕ) → j < rounds → page_of va' ≢ page_of (va + j * page_size)

module _ {S : Type 0} (get_page : S → Run (ℕ × S)) (source : PageSource get_page) (pml : ℕ)
    (some_pml : pml ≢ 0) where
  -- The pages are mapped one to one, and no other page's translation changes.
  pub record Ranged (rounds va pa : ℕ) (m : Memory) (r : Memory × S) : Type 0 where
    pub sound : IsSound get_page source pml r.0 r.1
    pub inside :
        (j : ℕ)
        → j < rounds
        → translate r.0 pml (va + j * page_size) ≡ some ((pa / page_size + j) * page_size)
    pub rest : (va' : ℕ) → Outside va rounds va' → translate r.0 pml va' ≡ translate m pml va'

  pub Ranged-step :
      (k va pa : ℕ) (m m1 : Memory) (r : Memory × S)
      → va + suc k * page_size ≤ 2 ^ 48
      → Mapped pml va pa m m1
      → Ranged k (va + page_size) (pa + page_size) m1 r
      → Ranged (suc k) va pa m r
  Ranged-step k va pa m m1 r below mapped ranged = record {
    sound = ranged.sound;
    inside = inside;
    rest = λ va' out.
        ranged.rest va' (λ j lt e. out (suc j) (omega arith) (omega arith))
        ∙ mapped.rest va' (λ e. out 0 (omega arith) (omega arith));
  }
    where
      inside :
          (j : ℕ)
          → j < suc k
          → translate r.0 pml (va + j * page_size) ≡ some ((pa / page_size + j) * page_size)
      inside zero lt =
          let at : va + 0 * page_size ≡ va = omega arith in
          let to : pa / page_size + 0 ≡ pa / page_size = omega arith in
          rw (at, to) (ranged.rest va (λ j lt e. omega arith) ∙ mapped.here)
      inside (suc j) lt =
          let at : va + suc j * page_size ≡ va + page_size + j * page_size = omega arith in
          let to : pa / page_size + suc j ≡ (pa + page_size) / page_size + j = omega arith in
          rw (at, to) (ranged.inside j (omega arith))

  -- A mapping loop of `kernel_start` over pages below 2 ^ 48, to pages below 2 ^ 52, on a sound
  -- table: the machine halts, and there is a state in which `get_block` can give and in which it
  -- returns `NULL`; or every page of the range is translated to its page, every other page as
  -- before, and the table stays sound.
  pub map_range-Ranged :
      (rounds va pa usermode : ℕ) (m : Memory) (s : S)
      → va + rounds * page_size ≤ 2 ^ 48
      → pa + rounds * page_size ≤ 2 ^ 52
      → IsSound get_page source pml m s
      → HaltsDry get_page source (map_range get_page rounds pml va pa usermode (m, s))
        ⊎ ((r : Memory × S) × (map_range get_page rounds pml va pa usermode (m, s) ≡ ok r)
            × Ranged rounds va pa m r)
  unfolding map_range
  map_range-Ranged zero va pa usermode m s below below' sound = inr (
    (m, s),
    refl,
    record { sound = sound; inside = λ j lt. absurd (omega arith); rest = λ va' out. refl },
  )
  map_range-Ranged (suc k) va pa usermode m s below below' sound =
      let (r, run, sound', way) =
        map_memory_lem get_page source pml va pa usermode m s some_pml (omega arith) sound in
      elim way [
        | inl (good, mapped) ↦
            elim (map_range-Ranged k (va + page_size) (pa + page_size) usermode r.1 r.2
              (omega arith) (omega arith) sound') [
                | inl (stop, dry) ↦
                    inl (rw (map_range, run, ◌>>=◌, eq→== r.0 0 good, stop) refl, dry)
                | inr (t, go, ranged) ↦ inr (
                  t,
                  rw (map_range, run, ◌>>=◌, eq→== r.0 0 good, go) refl,
                  Ranged-step k va pa m r.1 t below mapped ranged,
                )
              ]
        | inr (bad, most, dry, same) ↦
            inl (rw (map_range, run, ◌>>=◌, ne→== r.0 0 (omega arith)) refl, dry)
      ]

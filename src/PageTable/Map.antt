-- ===== src/PageTable/Map.antt =====
-- `map_memory` against the processor's reading of the table.
use osvirt_project.Base.{
  ℕ, ◌/◌, ◌%◌, ◌^◌, ◌≤◌, ◌<◌, ◌≡◌, ◌≢◌, ◌⊎◌, inl, inr, refl, sym, ◌∙◌, some, List, [], ◌∷◌, ◌++◌,
  Run, ok, arith, ne→==, eq→==, page_size,
}
use osvirt_project.PageTable.{
  Memory, entry_at, next_table, get_page_indexes, set_pte, set_pde, set_pdpe, set_pml, ensure,
  and_then, map_memory,
}
use osvirt_project.PageTable.Walk.{reach, translate, path_of}
use osvirt_project.PageTable.Word.{Setter, set_pml-IsSetter, set_pdpe-IsSetter, set_pde-IsSetter}
use osvirt_project.PageTable.Level.{PageSource, RunsDry, IsSound, Ensured, ensure-Ensured}
use osvirt_project.PageTable.Leaf.{Mapped, set_pte-Mapped, set_pte-IsTree, set_pte-reach}

module _ {S : Type 0} (get_block : S → Run (ℕ × S)) (source : PageSource get_block) (pml : ℕ) where
  -- What a call of `map_memory` on the memory `m` does: it returns, the table stays sound, and
  -- either it returns 0 and the address's page alone is mapped, or it returns the code 2, 3 or 4,
  -- no translation changes, and there is a state in which `get_block` can give and in which it
  -- returns `NULL`.
  abbrev pub MapOutcome : (va pa : ℕ) → Memory → Run (ℕ × Memory × S) → Type 0
  MapOutcome va pa m run =
      (r : ℕ × Memory × S) × (run ≡ ok r)
      × IsSound get_block source pml r.1 r.2
      × (((r.0 ≡ 0) × Mapped pml va pa m r.1)
          ⊎ ((2 ≤ r.0)
              × (r.0 ≤ 4)
              × RunsDry get_block source
              × ((va' : ℕ) → translate r.1 pml va' ≡ translate m pml va')))

  module _ (va pa : ℕ) (m₀ : Memory) where
    -- A level whose entry is there hands over to the next; a level that fails ends the call.
    level :
        (code t i usermode : ℕ) (p : List ℕ) (set_entry : Setter) (m : Memory) (s : S)
        (k : Memory → S → Run (ℕ × Memory × S))
        → 2 ≤ code
        → code ≤ 4
        → ((va' : ℕ) → translate m pml va' ≡ translate m₀ pml va')
        → ((r : ℕ × Memory × S) × (ensure get_block set_entry code t i usermode (m, s) ≡ ok r)
            × Ensured get_block source pml code t i p m r)
        → ((r : ℕ × Memory × S)
            → IsSound get_block source pml r.1 r.2
            → ((va' : ℕ) → translate r.1 pml va' ≡ translate m₀ pml va')
            → reach r.1 pml (p ++ (i ∷ [])) ≡ some (next_table (r.1 (entry_at t i)))
            → MapOutcome va pa m₀ (k r.1 r.2))
        → MapOutcome va pa m₀
            (and_then get_block (ensure get_block set_entry code t i usermode (m, s)) k)
    level code t i usermode p set_entry m s k lo hi same (r, run, e) next = elim e.way [
      | inl failed ↦ (
        r,
        rw (run, ne→== r.0 0 (let code_is = failed.0 in omega arith)),
        e.still,
        (let code_is = failed.0 in
            inr (omega arith, omega arith, failed.1, λ va'. e.same va' ∙ same va')),
      )
      | inr (good, way) ↦
          rw (run, eq→== r.0 0 good) (next r e.still (λ va'. e.same va' ∙ same va') way)
    ]

    last_level :
        (t usermode : ℕ) (m : Memory) (s : S)
        → pa < 2 ^ 52
        → IsSound get_block source pml m s
        → ((va' : ℕ) → translate m pml va' ≡ translate m₀ pml va')
        → reach m pml (path_of va) ≡ some t
        → MapOutcome va pa m₀
            (ok (0, set_pte m t ((va / 2 ^ 12) % 512) (pa / page_size) 1 usermode, s))
    last_level t usermode m s small sound same at =
        let mapped = set_pte-Mapped m pml t va pa usermode sound.tree at small in
        (
          (0, set_pte m t ((va / 2 ^ 12) % 512) (pa / page_size) 1 usermode, s),
          refl,
          record {
            tree = set_pte-IsTree m pml t va pa usermode sound.tree at;
            ready = sound.ready;
            apart = λ q c l o e.
                sound.apart q c l o
                  (sym (set_pte-reach m pml t va pa usermode sound.tree at q l o) ∙ e);
          },
          inl (refl, record { here = mapped.here; rest = λ va' ne. mapped.rest va' ne ∙ same va' }),
        )

  -- On a sound table, and with a source of fresh pages, `map_memory` returns. If it returns 0, the
  -- processor reads the address's page as the given physical page and every other page as before.
  -- Else it returns 2, 3 or 4, no translation changes, and there is a state in which `get_block`
  -- can give and in which it returns `NULL`. Either way the table stays a tree whose tables are
  -- none of the source's pages. The physical address lies below 2 ^ 52.
  pub map_memory_lem :
      (va pa usermode : ℕ) (m : Memory) (s : S)
      → pml ≢ 0
      → pa < 2 ^ 52
      → IsSound get_block source pml m s
      → MapOutcome va pa m (map_memory get_block pml va pa usermode (m, s))
  unfolding map_memory reach
  map_memory_lem va pa usermode m s ne small sound =
      let idx = get_page_indexes va in
      rw (ne→== pml 0 ne) (
        level va pa m 2 pml idx.pml_idx usermode [] set_pml m s _ (omega arith) (omega arith)
          (λ va'. refl)
          (ensure-Ensured get_block source pml set_pml set_pml-IsSetter 2 pml idx.pml_idx usermode
            [] (omega arith) tt (omega arith) m s sound refl)
          λ r₁ sound₁ same₁ at₁.
            let t₁ = next_table (r₁.1 (entry_at pml idx.pml_idx)) in
            level va pa m 3 t₁ idx.pdpe_idx usermode (idx.pml_idx ∷ []) set_pdpe r₁.1 r₁.2 _
              (omega arith) (omega arith) same₁
              (ensure-Ensured get_block source pml set_pdpe set_pdpe-IsSetter 3 t₁ idx.pdpe_idx
                usermode (idx.pml_idx ∷ []) (omega arith) (omega arith) (omega arith) r₁.1 r₁.2
                sound₁ at₁)
              λ r₂ sound₂ same₂ at₂.
                let t₂ = next_table (r₂.1 (entry_at t₁ idx.pdpe_idx)) in
                level va pa m 4 t₂ idx.pde_idx usermode (idx.pml_idx ∷ idx.pdpe_idx ∷ []) set_pde
                  r₂.1 r₂.2 _ (omega arith) (omega arith) same₂
                  (ensure-Ensured get_block source pml set_pde set_pde-IsSetter 4 t₂ idx.pde_idx
                    usermode (idx.pml_idx ∷ idx.pdpe_idx ∷ []) (omega arith) (omega arith)
                    (omega arith) r₂.1 r₂.2 sound₂ at₂)
                  λ r₃ sound₃ same₃ at₃.
                    last_level va pa m (next_table (r₃.1 (entry_at t₂ idx.pde_idx))) usermode r₃.1
                      r₃.2 small sound₃ same₃ at₃)

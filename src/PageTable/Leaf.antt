-- ===== src/PageTable/Leaf.antt =====
-- The last level of `map_memory`: one entry of one last-level table is stored.
use osvirt_project.Base.{
  ℕ, ◌*◌, ◌/◌, ◌%◌, ◌^◌, ◌≤◌, ◌<◌, ◌≡◌, ◌≢◌, refl, sym, ◌∙◌, ap, Option, none, some, List, ◌∷◌,
  length, arith, page_size,
}
use osvirt_project.PageTable.{Memory, entry_at, store, fields, set_pte}
use osvirt_project.PageTable.Walk.{
  reach, leaf, translate, InRange, path_of, path_of-InRange, reach-frame, reach-aligned,
  InRange-append, length-mid,
}
use osvirt_project.PageTable.Grow.{IsTree}
use osvirt_project.PageTable.Word.{
  fields-present, fields-next_table, entry_at-injective, store-same, store-other,
}

-- What a call that succeeds does to the translations: the address's page is mapped to the physical
-- page, and every other page of the 48-bit address space reads as before.
pub record Mapped (pml va pa : ℕ) (m m' : Memory) : Type 0 where
  pub here : translate m' pml va ≡ some ((pa / page_size) * page_size)
  pub rest :
      (va' : ℕ)
      → (va' / page_size) % 2 ^ 36 ≢ (va / page_size) % 2 ^ 36
      → translate m' pml va' ≡ translate m pml va'

head_eq : {a b : ℕ} {xs ys : List ℕ} → a ∷ xs ≡ b ∷ ys → (a ≡ b) × (xs ≡ ys)
head_eq e = (cc, cc)

-- Addresses with the same four indexes lie in one page of the 48-bit address space.
same_page :
    (va va' : ℕ)
    → path_of va ≡ path_of va'
    → (va / 2 ^ 12) % 512 ≡ (va' / 2 ^ 12) % 512
    → (va / page_size) % 2 ^ 36 ≡ (va' / page_size) % 2 ^ 36
same_page va va' e f =
    let a = head_eq e in let b = head_eq a.1 in let c = head_eq b.1 in omega (arith, a.0, b.0, c.0)

module _ (m : Memory) (pml t i w : ℕ) (p : List ℕ) (tree : IsTree m pml) (three : length p ≡ 3)
    (range : InRange p) (small : i < 512) (at : reach m pml p ≡ some t) where
  reach-store :
      (q : List ℕ)
      → length q ≤ 3
      → InRange q
      → reach (store m (entry_at t i) w) pml q ≡ reach m pml q
  reach-store q len inside = reach-frame m (store m (entry_at t i) w) pml q λ r j c s e here.
      let parts = InRange-append r (j ∷ s) (rw (← e) inside) in
      store-other m (entry_at t i) w (entry_at c j) λ hit.
        let same =
          entry_at-injective c j t i (reach-aligned m pml r c tree.aligned here)
            (reach-aligned m pml p t tree.aligned at) parts.1.0 small hit in
        let len_r : length r ≤ 2 = omega (arith, length-mid r j s, ap length e) in
        let one =
          tree.unshared r p c (omega arith) (omega arith) parts.0 range here
            (at ∙ ap some (sym same.0)) in
        absurd (omega (arith, ap length one))

  -- The page table stays a tree, with the same tables.
  pub IsTree-store : IsTree (store m (entry_at t i) w) pml
  IsTree-store = record {
    aligned = tree.aligned;
    unshared = λ q r c lq lr oq or hq hr.
        tree.unshared q r c lq lr oq or (sym (reach-store q lq oq) ∙ hq)
          (sym (reach-store r lr or) ∙ hr);
  }

  leaf-other :
      (q : List ℕ) (j : ℕ)
      → length q ≡ 3
      → InRange q
      → j < 512
      → (q ≡ p → j ≢ i)
      → (o : Option ℕ) → reach m pml q ≡ o
      → leaf (store m (entry_at t i) w) o j ≡ leaf m o j
  unfolding leaf
  leaf-other q j len inside lt differ none here = refl
  leaf-other q j len inside lt differ (some c) here =
      let old = store-other m (entry_at t i) w (entry_at c j) λ hit.
        let same =
          entry_at-injective c j t i (reach-aligned m pml q c tree.aligned here)
            (reach-aligned m pml p t tree.aligned at) lt small hit in
        differ
          (tree.unshared q p c (omega arith) (omega arith) inside range here
            (at ∙ ap some (sym same.0)))
          same.1 in
      rw old

module _ (m : Memory) (pml t va pa usermode : ℕ) (tree : IsTree m pml)
    (at : reach m pml (path_of va) ≡ some t) where
  -- `set_pte` at the end of an address's path maps its page, and no other.
  pub set_pte-Mapped :
      pa < 2 ^ 52
      → Mapped pml va pa m (set_pte m t ((va / 2 ^ 12) % 512) (pa / page_size) 1 usermode)
  unfolding translate leaf set_pte
  set_pte-Mapped small =
      let i = (va / 2 ^ 12) % 512 in
      let w = fields 0 (pa / page_size) 1 usermode in
      let kept =
        reach-store m pml t i w (path_of va) tree refl (path_of-InRange va) (omega arith) at in
      record {
        here =
            rw
              (
                kept (path_of va) (omega arith) (path_of-InRange va) ∙ at,
                store-same m (entry_at t i) w,
                fields-present 0 (pa / page_size) usermode (omega arith),
              )
              (ap some (fields-next_table 0 (pa / page_size) usermode (omega arith) ∙ omega arith));
        rest = λ va' differ.
            ap (λ o. leaf (store m (entry_at t i) w) o ((va' / 2 ^ 12) % 512))
              (kept (path_of va') (omega arith) (path_of-InRange va'))
            ∙ leaf-other m pml t i w (path_of va) tree refl (path_of-InRange va) (omega arith) at
                (path_of va') ((va' / 2 ^ 12) % 512) refl (path_of-InRange va') (omega arith)
                (λ e f. differ (same_page va' va e f)) (reach m pml (path_of va')) refl;
      }

  pub set_pte-IsTree : IsTree (set_pte m t ((va / 2 ^ 12) % 512) (pa / page_size) 1 usermode) pml
  unfolding set_pte
  set_pte-IsTree =
      IsTree-store m pml t ((va / 2 ^ 12) % 512) (fields 0 (pa / page_size) 1 usermode) (path_of va)
        tree refl (path_of-InRange va) (omega arith) at

  -- No table is added.
  pub set_pte-reach :
      (q : List ℕ)
      → length q ≤ 3
      → InRange q
      → reach (set_pte m t ((va / 2 ^ 12) % 512) (pa / page_size) 1 usermode) pml q ≡ reach m pml q
  unfolding set_pte
  set_pte-reach =
      reach-store m pml t ((va / 2 ^ 12) % 512) (fields 0 (pa / page_size) 1 usermode) (path_of va)
        tree refl (path_of-InRange va) (omega arith) at

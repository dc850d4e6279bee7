-- ===== src/Kernel/Calls.antt =====
-- The system calls: `assign_heap` and the mappings that it leaves alone.
use osvirt_project.Base.{
  ℕ, zero, suc, ◌+◌, ◌*◌, ◌^◌, ◌≤◌, ◌<◌, ◌≡◌, refl, ◌∙◌, ◌≢◌, ◌⊎◌, inl, inr, arith, ◌==◌, Run, ok,
  fault, some, sym, ap, subst, ◌/◌, ◌>>=◌, Bool-cases, page_size,
}
use osvirt_project.PageTable.{Memory, map_memory}
use osvirt_project.PageTable.Walk.{translate}
use osvirt_project.PageTable.Level.{PageSource, IsSound}
use osvirt_project.PageTable.Map.{map_memory_lem}
use osvirt_project.Kernel.{map_all, Kernel, heap_rounds, assign_heap}
use osvirt_project.Kernel.Ranges.{Outside, Ranged, Ranged-step}
use osvirt_project.Kernel.Strict.{strict, map_memory-Same}
use Prim.Native.Nat.{min}

module _ {S : Type 0} (get_page : S → Run (ℕ × S)) (source : PageSource get_page) (pml : ℕ)
    (some_pml : pml ≢ 0) where
  -- The loop of `assign_heap` returns whatever the calls of `map_memory` return, and changes no
  -- translation outside of the range.
  pub map_all-rest :
      (rounds va pa usermode : ℕ) (m : Memory) (s : S)
      → va + rounds * page_size ≤ 2 ^ 48
      → pa + rounds * page_size ≤ 2 ^ 52
      → IsSound get_page source pml m s
      → (r : Memory × S) × (map_all get_page rounds pml va pa usermode (m, s) ≡ ok r)
        × IsSound get_page source pml r.0 r.1
        × ((va' : ℕ) → Outside va rounds va' → translate r.0 pml va' ≡ translate m pml va')
  unfolding map_all
  map_all-rest zero va pa usermode m s below below' sound = ((m, s), refl, sound, λ va' out. refl)
  map_all-rest (suc k) va pa usermode m s below below' sound =
      let (r, run, sound', way) =
        map_memory_lem get_page source pml va pa usermode m s some_pml (omega arith) sound in
      let (t, go, still, rest) =
        map_all-rest k (va + page_size) (pa + page_size) usermode r.1 r.2 (omega arith)
          (omega arith) sound' in
      (
        t,
        rw (map_all, run, ◌>>=◌, go) refl,
        still,
        λ va' out. rest va' (λ j lt e. out (suc j) (omega arith) (omega arith)) ∙ elim way [
          | inl (good, mapped) ↦ mapped.rest va' (λ e. out 0 (omega arith) (omega arith))
          | inr (bad, most, dry, same) ↦ same va'
        ],
      )

  -- The loop maps its pages one to one, or it meets a `NULL` of `get_page`: the loop in which that is a
  -- fault is one.
  pub map_all-Ranged :
      (rounds va pa usermode : ℕ) (m : Memory) (s : S) (r : Memory × S)
      → va + rounds * page_size ≤ 2 ^ 48
      → pa + rounds * page_size ≤ 2 ^ 52
      → IsSound get_page source pml m s
      → map_all get_page rounds pml va pa usermode (m, s) ≡ ok r
      → (map_all (strict get_page) rounds pml va pa usermode (m, s) ≡ fault)
        ⊎ Ranged get_page source pml some_pml rounds va pa m r
  unfolding map_all
  map_all-Ranged zero va pa usermode m s r below below' sound run =
      let same : (m, s) ≡ r = cc in
      inr (
        subst (λ x. Ranged get_page source pml some_pml zero va pa m x) same
          (record { sound = sound; inside = λ j lt. absurd (omega arith); rest = λ va' out. refl }))
  map_all-Ranged (suc k) va pa usermode m s r below below' sound run =
      let (t, go, sound', way) =
        map_memory_lem get_page source pml va pa usermode m s some_pml (omega arith) sound in
      elim (map_memory-Same get_page source.CanGive source.returns source.keeps pml va pa usermode m
        s some_pml sound.ready) [
          | inl dry ↦ inl (rw (map_all, dry, ◌>>=◌) refl)
          | inr (t', again, strictly, done, fit) ↦
              let same : t' ≡ t = (let e = sym again ∙ go in cc) in
              let good : t.0 ≡ 0 = sym (ap (λ (x : ℕ × Memory × S). x.0) same) ∙ done in
              let strictly' : map_memory (strict get_page) pml va pa usermode (m, s) ≡ ok t =
                strictly ∙ ap (λ x. ok x) same in
              elim (map_all-Ranged k (va + page_size) (pa + page_size) usermode t.1 t.2 r
                (omega arith) (omega arith) sound' (rw (map_all, go, ◌>>=◌) at run)) [
                  | inl dry ↦ inl (rw (map_all, strictly', ◌>>=◌) dry)
                  | inr ranged ↦ elim way [
                    | inl (zero_code, mapped) ↦ inr (
                        Ranged-step get_page source pml some_pml k va pa m t.1 r below mapped
                          ranged)
                    | inr (bad, most, dry, rest) ↦ absurd (omega arith)
                  ]
                ]
        ]

module _ {S : Type 0} (get_page : S → Run (ℕ × S)) (source : PageSource get_page)
    (get_block : ℕ → S → Run (ℕ × S)) where
  -- The mapping of the heap's pages.
  abbrev pub HeapMapped : (pml size place : ℕ) → (m m' : Memory) → S → Type 0
  HeapMapped pml size place m m' pages =
      (map_all (strict get_page) (min size (2 ^ 19)) pml 0x18000000000 place 1 (m, pages) ≡ fault)
      ⊎ ((j : ℕ)
          → j < min size (2 ^ 19)
          → translate m' pml (0x18000000000 + j * page_size)
            ≡ some ((place / page_size + j) * page_size))

  -- `assign_heap` where `get_block(size)` returns, on a table that is sound with the pages that are left
  -- then, for a block below 2 ^ 51. If there is no block it returns 1 and leaves memory as it was.
  -- Else it returns 0x18000000000; from there on the pages of the heap, `size` or 2 ^ 19 if that is
  -- less, are translated to those of the block one after the other, or mapping them meets a `NULL` of
  -- `get_block(1)`: the loop in which that is a fault is one. No other translation changes, and the
  -- table stays sound.
  pub assign_heap_lem :
      (size : ℕ) (k : Kernel get_page) (b : ℕ × S)
      → k.user_pml ≢ 0
      → get_block size k.pages ≡ ok b
      → b.0 < 2 ^ 51
      → IsSound get_page source k.user_pml k.mem b.1
      → (r : ℕ × Kernel get_page) × (assign_heap get_page get_block size k ≡ ok r)
        × IsSound get_page source k.user_pml r.1.mem r.1.pages
        × (((b.0 ≡ 0) × (r.0 ≡ 1) × (r.1.mem ≡ k.mem))
            ⊎ ((b.0 ≢ 0)
                × (r.0 ≡ 0x18000000000)
                × HeapMapped k.user_pml size b.0 k.mem r.1.mem b.1
                × ((va' : ℕ)
                    → Outside 0x18000000000 (min size (2 ^ 19)) va'
                    → translate r.1.mem k.user_pml va' ≡ translate k.mem k.user_pml va')))
  unfolding assign_heap
  assign_heap_lem size k b some_pml got low sound = elim (Bool-cases (b.0 == 0)) [
    | inl e ↦ (
      (1, record k { user_heap_ptr = 0; pages = b.1 }),
      rw (assign_heap, got, ◌>>=◌, e) refl,
      sound,
      inl (ground arith, refl, refl),
    )
    | inr e ↦
        let n = min size (2 ^ 19) in
        let few : heap_rounds get_page size ≡ n = ground arith in
        let (t, go, still, rest) =
          map_all-rest get_page source k.user_pml some_pml n 0x18000000000 b.0 1 k.mem b.1
            (omega arith) (omega arith) sound in
        let go' =
          ap (λ v. map_all get_page v k.user_pml 0x18000000000 b.0 1 (k.mem, b.1)) few ∙ go in
        (
          (0x18000000000, record k { user_heap_ptr = b.0; mem = t.0; pages = t.1 }),
          rw (assign_heap, got, ◌>>=◌, e, go') refl,
          still,
          inr (
            ground arith,
            refl,
            elim (map_all-Ranged get_page source k.user_pml some_pml n 0x18000000000 b.0 1 k.mem b.1
                t (omega arith) (omega arith) sound go) [
                  | inl dry ↦ inl dry
                  | inr ranged ↦ inr ranged.inside
                ],
            rest,
          ),
        )
  ]

-- ===== src/Kernel/Strict.antt =====
-- The mapping loops where `get_block` is not allowed to return `NULL`.
use osvirt_project.Base.{
  ℕ, zero, suc, ◌+◌, ◌/◌, ◌^◌, ◌≡◌, ◌≢◌, refl, sym, ◌∙◌, ◌⊎◌, inl, inr, arith, ◌==◌, Bool-cases,
  if◌then◌else◌, ne→==, eq→==, Run, ok, halted, fault, ◌>>=◌, page_size,
}
use osvirt_project.PageTable.{
  Memory, entry_at, present, next_table, clear_page, get_page_indexes, set_pde, set_pdpe, set_pml,
  ensure, and_then, map_memory,
}
use osvirt_project.PageTable.Word.{Setter}
use osvirt_project.Kernel.{rounds_of, map_range, map_kernel, map_user}
use osvirt_project.Kernel.Start.{map_start, share_kernel, map_stack, user_start}

-- `get_block`, but `NULL` is a fault.
unfoldable pub strict : {S : Type 0} → (S → Run (ℕ × S)) → S → Run (ℕ × S)
strict get_block s = get_block s >>= λ r. if r.0 == 0 then fault else ok r

-- In the states of `Fit`, which its calls do not leave, `get_block` returns.
module _ {S : Type 0} (get_block : S → Run (ℕ × S)) (Fit : S → Type 0)
    (returns : (s : S) → Fit s → (r : ℕ × S) × (get_block s ≡ ok r))
    (keeps : (s : S) (r : ℕ × S) → Fit s → get_block s ≡ ok r → Fit r.1) where
  -- The strict run is a fault, or `NULL` was not returned and both runs give the same.
  abbrev pub Same : {A : Type 0} → (A → S) → (A → Type 0) → Run A → Run A → Type 0
  Same {A} state Good run run' =
      (run' ≡ fault) ⊎ ((r : A) × (run ≡ ok r) × (run' ≡ ok r) × Good r × Fit (state r))

  get_block-Same :
      (s : S) → Fit s → Same (λ (r : ℕ × S). r.1) (λ r. r.0 ≢ 0) (get_block s) (strict get_block s)
  unfolding strict
  get_block-Same s fit =
      let (r, got) = returns s fit in
      elim (Bool-cases (r.0 == 0)) [
        | inl null ↦ inl (rw (strict, got, ◌>>=◌, null) refl)
        | inr some_page ↦
            inr (r, got, rw (strict, got, ◌>>=◌, some_page) refl, ground arith, keeps s r fit got)
      ]

  abbrev state3 : ℕ × Memory × S → S
  state3 r = r.2

  abbrev IsDone : ℕ × Memory × S → Type 0
  IsDone r = r.0 ≡ 0

  ensure-Same :
      (set_entry : Setter) (code t i usermode : ℕ) (m : Memory) (s : S)
      → Fit s
      → Same state3 IsDone
          (ensure get_block set_entry code t i usermode (m, s))
          (ensure (strict get_block) set_entry code t i usermode (m, s))
  unfolding ensure
  ensure-Same set_entry code t i usermode m s fit =
      elim (Bool-cases (present (m (entry_at t i)) == 0)) [
        | inr on ↦ inr ((0, m, s), rw on refl, rw on refl, refl, fit)
        | inl off ↦ elim (get_block-Same s fit) [
          | inl dry ↦ inl (rw (off, dry, ◌>>=◌) refl)
          | inr (r, got, got', some_page, fit') ↦
              let page = ne→== r.0 0 some_page in
              inr (
                (0, set_entry (clear_page m r.0) t i (r.0 / page_size) 1 usermode, r.1),
                rw (off, got, ◌>>=◌, page) refl,
                rw (off, got', ◌>>=◌, page) refl,
                refl,
                fit',
              )
        ]
      ]

  -- One step behind another.
  then-Same :
      (run run' : Run (ℕ × Memory × S)) (k k' : Memory → S → Run (ℕ × Memory × S))
      → Same state3 IsDone run run'
      → ((m : Memory) (s : S) → Fit s → Same state3 IsDone (k m s) (k' m s))
      → Same state3 IsDone (and_then get_block run k) (and_then (strict get_block) run' k')
  then-Same run run' k k' (inl dry) next = inl (rw (dry, ◌>>=◌) refl)
  then-Same run run' k k' (inr (r, go, go', done, fit)) next =
      rw (go, go', ◌>>=◌, eq→== r.0 0 done) (next r.1 r.2 fit)

  pub map_memory-Same :
      (pml va pa usermode : ℕ) (m : Memory) (s : S)
      → pml ≢ 0
      → Fit s
      → Same state3 IsDone
          (map_memory get_block pml va pa usermode (m, s))
          (map_memory (strict get_block) pml va pa usermode (m, s))
  unfolding map_memory
  map_memory-Same pml va pa usermode m s some_pml fit =
      let idx = get_page_indexes va in
      rw (ne→== pml 0 some_pml) (
        then-Same _ _ _ _ (ensure-Same set_pml 2 pml idx.pml_idx usermode m s fit) λ m1 s1 fit1.
          let pdpe = next_table (m1 (entry_at pml idx.pml_idx)) in
          then-Same _ _ _ _ (ensure-Same set_pdpe 3 pdpe idx.pdpe_idx usermode m1 s1 fit1)
            λ m2 s2 fit2.
              let pde = next_table (m2 (entry_at pdpe idx.pdpe_idx)) in
              then-Same _ _ _ _ (ensure-Same set_pde 4 pde idx.pde_idx usermode m2 s2 fit2)
                λ m3 s3 fit3. inr (_, refl, refl, refl, fit3))

  abbrev state2 : Memory × S → S
  state2 r = r.1

  abbrev Any : {A : Type 0} → A → Type 0
  Any r = Unit

  map_range-Same :
      (rounds pml va pa usermode : ℕ) (m : Memory) (s : S)
      → pml ≢ 0
      → Fit s
      → Same state2 Any
          (map_range get_block rounds pml va pa usermode (m, s))
          (map_range (strict get_block) rounds pml va pa usermode (m, s))
  unfolding map_range
  map_range-Same zero pml va pa usermode m s some_pml fit = inr ((m, s), refl, refl, tt, fit)
  map_range-Same (suc k) pml va pa usermode m s some_pml fit =
      elim (map_memory-Same pml va pa usermode m s some_pml fit) [
        | inl dry ↦ inl (rw (map_range, dry, ◌>>=◌) refl)
        | inr (r, go, go', done, fit') ↦
            rw (map_range, go, go', ◌>>=◌, eq→== r.0 0 done)
              (map_range-Same k pml (va + page_size) (pa + page_size) usermode r.1 r.2 some_pml
                fit')
      ]

  -- One loop behind another.
  bind-Same :
      {A B : Type 0} {state : A → S} {state' : B → S} {Good : A → Type 0} {Good' : B → Type 0}
      (run run' : Run A) (k k' : A → Run B)
      → Same state Good run run'
      → ((r : A) → Good r → Fit (state r) → Same state' Good' (k r) (k' r))
      → Same state' Good' (run >>= k) (run' >>= k')
  bind-Same run run' k k' (inl dry) next = inl (rw (dry, ◌>>=◌) refl)
  bind-Same run run' k k' (inr (r, go, go', good, fit)) next = rw (go, go', ◌>>=◌) (next r good fit)

  map_kernel-Same :
      (pml size fb : ℕ) (t : Memory × S)
      → pml ≢ 0
      → Fit t.1
      → Same state2 Any
          (map_kernel get_block pml size fb t)
          (map_kernel (strict get_block) pml size fb t)
  unfolding map_kernel
  map_kernel-Same pml size fb t some_pml fit =
      bind-Same _ _ _ _ (map_range-Same (rounds_of size) pml 0 0 0 t.0 t.1 some_pml fit)
        λ t1 any fit1.
          bind-Same _ _ _ _
            (map_range-Same (rounds_of (2 ^ 24)) pml fb fb 0 t1.0 t1.1 some_pml fit1)
            λ t2 any fit2.
              map_range-Same (rounds_of 0x40000000) pml 0xc0000000 0xc0000000 0 t2.0 t2.1 some_pml
                fit2

  -- The kernel's table: a fault without a page, else what `kernel_start` builds.
  pub map_start-Same :
      (size fb : ℕ) (m : Memory) (s : S)
      → Fit s
      → Same state3 Any
          (map_start get_block size fb (m, s))
          (map_start (strict get_block) size fb (m, s))
  unfolding map_start
  map_start-Same size fb m s fit = bind-Same _ _ _ _ (get_block-Same s fit) λ r some_page fit1.
      bind-Same _ _ _ _ (map_kernel-Same r.0 size fb (clear_page m r.0, r.1) some_page fit1)
        λ t any fit2. inr ((r.0, t.0, t.1), refl, refl, tt, fit2)

  map_stack-Same :
      (u : ℕ) (t : Memory × S)
      → u ≢ 0
      → Fit t.1
      → Same state2 Any (map_stack get_block u t) (map_stack (strict get_block) u t)
  unfolding map_stack
  map_stack-Same u t some_pml fit = bind-Same _ _ _ _ (get_block-Same t.1 fit) λ p some_page fit1.
      bind-Same _ _ _ _ (map_memory-Same u 0x8000001000 p.0 1 t.0 p.1 some_pml fit1) λ r done fit2.
        inr ((r.1, r.2), rw (eq→== r.0 0 done) refl, rw (eq→== r.0 0 done) refl, tt, fit2)

  -- The user's table likewise.
  pub user_start-Same :
      (k size buffer : ℕ) (m : Memory) (s : S)
      → Fit s
      → Same state3 Any
          (user_start get_block k size buffer (m, s))
          (user_start (strict get_block) k size buffer (m, s))
  unfolding user_start map_user
  user_start-Same k size buffer m s fit =
      bind-Same _ _ _ _ (get_block-Same s fit) λ u some_page fit1.
        bind-Same _ _ _ _
          (map_range-Same (rounds_of size) u.0 0x8000003000 buffer 1 (share_kernel u.0 k m) u.1
            some_page fit1)
          λ t any fit2.
            bind-Same _ _ _ _ (map_stack-Same u.0 t some_page fit2)
              λ v any' fit3. inr ((u.0, v.0, v.1), refl, refl, tt, fit3)

  -- A run that halts is a fault in the strict run.
  pub halted-strict :
      {A : Type 0} {state : A → S} {Good : A → Type 0} {run run' : Run A}
      → Same state Good run run'
      → run ≡ halted
      → run' ≡ fault
  halted-strict (inl dry) stop = dry
  halted-strict (inr (r, go, go', good, fit)) stop = absurd (differ (sym go ∙ stop))
    where
      differ : {A : Type 0} {r : A} → ¬ (ok r ≡ halted)
      differ e = absurd cc

-- ===== src/Kernel/Pages.antt =====
-- The buddy system as the source of pages for the page tables: `get_block(1)`.
use osvirt_project.Base.{
  ℕ, ◌%◌, ◌^◌, ◌≤◌, ◌<◌, ◌≡◌, ◌≢◌, sym, ap, subst, ◌∙◌, ◌⊎◌, inl, inr, true, some, arith, get_elem?,
  Run, ok, page_size,
}
use osvirt_project.ListLib.{ListLib}
use osvirt_project.Buddy.{Block, Buddy, get_block}
use osvirt_project.Buddy.Index.{pow_pos}
use osvirt_project.Buddy.Inv.{block_end, IsSound}
use osvirt_project.Buddy.Get.{members}
use osvirt_project.Buddy.Budget.{IsEnough}
use osvirt_project.Buddy.Supply.{WasFree}
use osvirt_project.Buddy.Supply.Gives.{Supplied, get_block-Supplied}
use osvirt_project.PageTable.Level.{PageSource}

module _ (lib : ListLib) where
  -- The address lies in a free block.
  abbrev pub IsFree : Buddy lib → ℕ → Type 0
  IsFree s a =
      (k e : ℕ) × (b : Block) × (members lib s k e ≡ true)
      × (get_elem? s.pool e ≡ some b)
      × (b.physical_addr ≤ a)
      × (a < block_end b)

  -- Sound free lists with enough descriptors, and blocks of whole page frames below 2 ^ 52.
  pub record IsStocked (s : Buddy lib) : Type 0 where
    pub sound : IsSound s.pool (members lib s)
    pub enough : IsEnough s.pool
    pub frames :
        (k e : ℕ) (b : Block)
        → members lib s k e ≡ true
        → get_elem? s.pool e ≡ some b
        → (b.physical_addr % page_size ≡ 0) × (block_end b ≤ 2 ^ 52)

  WasFree-frames :
      (s : Buddy lib) (c : Block)
      → IsStocked s
      → WasFree lib s c
      → (c.physical_addr % page_size ≡ 0) × (block_end c ≤ 2 ^ 52)
  WasFree-frames s c st (k, e, b, listed, held, part) =
      let (aligned, below) = st.frames k e b listed held in
      let (i, from) = part.from in let to = part.to in (omega arith, omega arith)

  WasFree-IsFree :
      (s : Buddy lib) (c : Block) (a : ℕ)
      → WasFree lib s c
      → c.physical_addr ≤ a
      → a < block_end c
      → IsFree s a
  WasFree-IsFree s c a (k, e, b, listed, held, part) low high =
      let (i, from) = part.from in
      let to = part.to in (k, e, b, listed, held, omega arith, omega arith)

  given-IsStocked :
      (s : Buddy lib) (r : Run (ℕ × Buddy lib))
      → IsStocked s
      → (g : Supplied lib s r) → IsStocked g.left
  given-IsStocked s r st g = record {
    sound = g.sound;
    enough = g.enough;
    frames = λ k e b listed held. WasFree-frames s b st (g.all k e b listed held);
  }

  ok_eq : {x y : ℕ × Buddy lib} → ok x ≡ ok y → x ≡ y
  ok_eq e = cc

  -- What one call comes to.
  outcome :
      (s : Buddy lib) (r : ℕ × Buddy lib)
      → IsStocked s
      → get_block lib 1 s ≡ ok r
      → ((0, s) ≡ r)
        ⊎ ((g : Supplied lib s (get_block lib 1 s)) × ((g.block.physical_addr, g.left) ≡ r))
  outcome s r st run = elim (get_block-Supplied lib 1 s (omega arith) st.sound st.enough) [
    | inl null ↦ inl (ok_eq (sym null ∙ run))
    | inr g ↦ inr (g, ok_eq (sym g.run ∙ run))
  ]

  block-fresh :
      (s : Buddy lib) (r : Run (ℕ × Buddy lib))
      → IsStocked s
      → (g : Supplied lib s r)
      → IsFree s g.block.physical_addr
        × (¬ (IsFree g.left g.block.physical_addr))
        × (g.block.physical_addr % page_size ≡ 0)
        × (g.block.physical_addr < 2 ^ 52)
  block-fresh s r st g =
      let (aligned, below) = WasFree-frames s g.block st g.was in
      let size = g.held.block.size in
      let some_page : g.block.physical_addr < block_end g.block = omega (arith, pow_pos g.order) in
      (
        WasFree-IsFree s g.block g.block.physical_addr g.was (omega arith) some_page,
        (λ (k, e, c, listed, held, low, high). elim (g.held.alone k e c listed held) [
          | inl before ↦ omega arith
          | inr behind ↦ omega arith
        ]),
        aligned,
        omega arith,
      )

  pub get_block-returns :
      (s : Buddy lib) → IsStocked s → (r : ℕ × Buddy lib) × (get_block lib 1 s ≡ ok r)
  get_block-returns s st = elim (get_block-Supplied lib 1 s (omega arith) st.sound st.enough) [
    | inl null ↦ ((0, s), null)
    | inr g ↦ ((g.block.physical_addr, g.left), g.run)
  ]

  pub get_block-keeps :
      (s : Buddy lib) (r : ℕ × Buddy lib) → IsStocked s → get_block lib 1 s ≡ ok r → IsStocked r.1
  get_block-keeps s r st run = elim (outcome s r st run) [
    | inl null ↦ subst (λ x. IsStocked x.1) null st
    | inr (g, same) ↦ subst (λ x. IsStocked x.1) same (given-IsStocked s (get_block lib 1 s) st g)
  ]

  pub get_block-gives :
      (s : Buddy lib) (r : ℕ × Buddy lib)
      → IsStocked s
      → get_block lib 1 s ≡ ok r
      → r.0 ≢ 0
      → IsFree s r.0 × (¬ (IsFree r.1 r.0)) × (r.0 % page_size ≡ 0) × (r.0 < 2 ^ 52)
  get_block-gives s r st run some_page = elim (outcome s r st run) [
    | inl null ↦ absurd (some_page (sym (ap (λ x. x.0) null)))
    | inr (g, same) ↦
        subst
          (λ (x : ℕ × Buddy lib).
            IsFree s x.0 × (¬ (IsFree x.1 x.0)) × (x.0 % page_size ≡ 0) × (x.0 < 2 ^ 52))
          same (block-fresh s (get_block lib 1 s) st g)
  ]

  pub get_block-shrinks :
      (s : Buddy lib) (r : ℕ × Buddy lib)
      → IsStocked s
      → get_block lib 1 s ≡ ok r
      → (a : ℕ) → IsFree r.1 a
      → IsFree s a
  get_block-shrinks s r st run a = elim (outcome s r st run) [
    | inl null ↦ subst (λ (x : ℕ × Buddy lib). IsFree x.1 a → IsFree s a) null (λ h. h)
    | inr (g, same) ↦
        subst (λ (x : ℕ × Buddy lib). IsFree x.1 a → IsFree s a) same
          (λ (k, e, c, listed, held, low, high).
            WasFree-IsFree s c a (g.all k e c listed held) low high)
  ]

  abbrev pub buddies : PageSource (get_block lib 1)
  buddies = record {
    Has = IsFree;
    CanGive = IsStocked;
    returns = get_block-returns;
    keeps = get_block-keeps;
    gives = get_block-gives;
    shrinks = get_block-shrinks;
  }

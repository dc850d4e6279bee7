-- ===== src/PageTable/Word.antt =====
-- The entry setters as stores of one word, and what they link.
use osvirt_project.Base.{
  ℕ, ◌*◌, ◌/◌, ◌%◌, ◌^◌, ◌<◌, ◌≡◌, ◌≢◌, ◌⊎◌, inl, inr, refl, ◌∙◌, arith, page_size,
}
use osvirt_project.PageTable.{
  Memory, entry_at, present, next_table, store, fields, bit8, set_pte, set_pde, set_pdpe, set_pml,
  clear_page,
}
use osvirt_project.PageTable.Grow.{Linked}

abbrev pub Setter : Type 0
Setter = Memory → (base n address present usermode : ℕ) → Memory

-- A setter stores one word, whose fields are what it is given, and bit 8 is any.
abbrev pub IsSetter : Setter → Type 0
IsSetter set_entry =
    (m : Memory) (base n address p usermode : ℕ)
    → (kept : ℕ) × (kept < 2)
      × (set_entry m base n address p usermode
          ≡ store m (entry_at base n) (fields kept address p usermode))

pub set_pml-IsSetter : IsSetter set_pml
unfolding set_pml
set_pml-IsSetter m base n address p usermode = (0, omega arith, refl)

pub set_pdpe-IsSetter : IsSetter set_pdpe
unfolding set_pdpe
set_pdpe-IsSetter m base n address p usermode = (bit8 (m (entry_at base n)), omega arith, refl)

pub set_pde-IsSetter : IsSetter set_pde
unfolding set_pde
set_pde-IsSetter m base n address p usermode = (bit8 (m (entry_at base n)), omega arith, refl)

pub set_pte-IsSetter : IsSetter set_pte
unfolding set_pte
set_pte-IsSetter m base n address p usermode = (0, omega arith, refl)

pub fields-present :
    (kept address usermode : ℕ) → kept < 2 → present (fields kept address 1 usermode) ≡ 1
fields-present kept address usermode h = omega arith

pub fields-next_table :
    (kept address usermode : ℕ)
    → kept < 2
    → next_table (fields kept address 1 usermode) ≡ (address % 2 ^ 40) * page_size
fields-next_table kept address usermode h = omega arith

-- Entries of aligned tables do not overlap.
pub entry_at-injective :
    (c j t i : ℕ)
    → c % page_size ≡ 0
    → t % page_size ≡ 0
    → j < 512
    → i < 512
    → entry_at c j ≡ entry_at t i
    → (c ≡ t) × (j ≡ i)
entry_at-injective c j t i ac at hj hi e = (omega arith, omega arith)

pub store-same : (m : Memory) (a w : ℕ) → store m a w a ≡ w
unfolding store
store-same m a w = ground arith

pub store-other : (m : Memory) (a w q : ℕ) → q ≢ a → store m a w q ≡ m q
unfolding store
store-other m a w q h = ground arith

clear_page-other :
    (m : Memory) (a c j : ℕ)
    → a % page_size ≡ 0
    → c % page_size ≡ 0
    → j < 512
    → c ≢ a
    → clear_page m a (entry_at c j) ≡ m (entry_at c j)
unfolding clear_page
clear_page-other m a c j aa ac hj ne = ground arith

clear_page-inside : (m : Memory) (a j : ℕ) → j < 512 → clear_page m a (entry_at a j) ≡ 0
unfolding clear_page
clear_page-inside m a j hj = ground arith

entry_at-ne :
    (c j t i : ℕ)
    → c % page_size ≡ 0
    → t % page_size ≡ 0
    → j < 512
    → i < 512
    → (c ≢ t) ⊎ (j ≢ i)
    → entry_at c j ≢ entry_at t i
entry_at-ne c j t i ac at hj hi (inl ne) e = ne (entry_at-injective c j t i ac at hj hi e).0
entry_at-ne c j t i ac at hj hi (inr ne) e = ne (entry_at-injective c j t i ac at hj hi e).1

-- A setter over a cleared page links that page.
pub IsSetter-Linked :
    (set_entry : Setter) (m : Memory) (t i a usermode : ℕ)
    → IsSetter set_entry
    → t % page_size ≡ 0
    → a % page_size ≡ 0
    → a < 2 ^ 52
    → i < 512
    → a ≢ t
    → Linked m (set_entry (clear_page m a) t i (a / page_size) 1 usermode) t i a
IsSetter-Linked set_entry m t i a usermode sets at aa small hi ne =
    let (kept, bit, e) = sets (clear_page m a) t i (a / page_size) 1 usermode in
    let word = fields kept (a / page_size) 1 usermode in
    rw e (record {
      on = rw (store-same (clear_page m a) (entry_at t i) word) (omega arith);
      to = rw (store-same (clear_page m a) (entry_at t i) word) (omega arith);
      others = λ c j ac hj out apart.
          store-other (clear_page m a) (entry_at t i) word (entry_at c j)
            (entry_at-ne c j t i ac at hj hi apart)
          ∙ clear_page-other m a c j aa ac hj out;
      cleared = λ j hj.
          store-other (clear_page m a) (entry_at t i) word (entry_at a j)
            (entry_at-ne a j t i aa at hj hi (inl ne))
          ∙ clear_page-inside m a j hj;
    })

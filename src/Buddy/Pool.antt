-- ===== src/Buddy/Pool.antt =====
-- The search for a descriptor in the pool.
use osvirt_project.Base.{
  ℕ, zero, suc, ◌+◌, ◌<◌, ◌≡◌, refl, ◌≢◌, false, inl, inr, some, List, [], ◌∷◌, arith, ◌==◌,
  Bool-cases, get_elem?,
}
use osvirt_project.Buddy.{Block, find_from}

-- A descriptor with the address, before which none has it.
pub record Found (bs : List Block) (addr j : ℕ) : Type 0 where
  pub block : Block
  pub held : get_elem? bs j ≡ some block
  pub match : block.physical_addr ≡ addr
  pub first : (k : ℕ) (b : Block) → k < j → get_elem? bs k ≡ some b → b.physical_addr ≢ addr

find_from-Found :
    (bs : List Block) (addr i k : ℕ)
    → find_from bs addr i ≡ some k
    → (j : ℕ) × (k ≡ i + j) × Found bs addr j
unfolding find_from
find_from-Found [] addr i k e = ground arith
find_from-Found (b ∷ bs) addr i k e = elim (Bool-cases (b.physical_addr == addr)) [
  | inl hit ↦ (
    0,
    ground arith,
    record { block = b; held = refl; match = ground arith; first = λ k c h. absurd (omega arith) },
  )
  | inr miss ↦
      let (j, at, f) = find_from-Found bs addr (i + 1) k (rw miss at e) in
      (
        suc j,
        omega arith,
        record {
          block = f.block;
          held = f.held;
          match = f.match;
          first = λ k c h g. later k c h g (f.first) miss;
        },
      )
]
  where
    later :
        {j : ℕ} (k : ℕ) (c : Block)
        → k < suc j
        → get_elem? (b ∷ bs) k ≡ some c
        → ((k : ℕ) (b : Block) → k < j → get_elem? bs k ≡ some b → b.physical_addr ≢ addr)
        → (b.physical_addr == addr) ≡ false
        → c.physical_addr ≢ addr
    later zero c h g f miss = ground arith
    later (suc k) c h g f miss = f k c (omega arith) g

pub find-Found : (bs : List Block) (addr k : ℕ) → find_from bs addr 0 ≡ some k → Found bs addr k
find-Found bs addr k e =
    let (j, at, f) = find_from-Found bs addr 0 k e in let same : k ≡ j = omega arith in rw same f

-- ===== src/Buddy/Inv.antt =====
-- The invariant of the free lists, on which block is in which list: `M k e` says that the
-- descriptor `e` is in the list `k`.
use osvirt_project.Base.{
  ℕ, ◌+◌, ◌*◌, ◌/◌, ◌%◌, ◌^◌, ◌≤◌, ◌<◌, ◌≡◌, sym, ◌∙◌, ◌≢◌, ◌⊎◌, Bool, true, false, some, List,
  get_elem?, page_size, u64_mod,
}
use osvirt_project.Buddy.{Block}

abbrev pub block_end : Block → ℕ
block_end b = b.physical_addr + b.size * page_size

-- Two blocks share no page.
abbrev pub Apart : Block → Block → Type 0
Apart a b = (block_end a ≤ b.physical_addr) ⊎ (block_end b ≤ a.physical_addr)

-- The descriptor `e` stands for a block of 2 ^ k pages. No block has a single page.
pub record IsBlock (pool : List Block) (e k : ℕ) (b : Block) : Type 0 where
  pub held : get_elem? pool e ≡ some b
  pub size : b.size ≡ 2 ^ k
  pub used : b.physical_addr ≢ 0
  pub below : block_end b ≤ u64_mod
  pub several : 1 ≤ k
  pub index : k < 32

-- The blocks in list `k` have 2 ^ k pages, and no two free blocks share a page.
pub record IsSound (pool : List Block) (M : ℕ → ℕ → Bool) : Type 0 where
  pub entry : (k e : ℕ) → M k e ≡ true → (b : Block) × IsBlock pool e k b
  pub apart :
      (k e k' e' : ℕ) (b b' : Block)
      → M k e ≡ true
      → M k' e' ≡ true
      → e ≢ e'
      → get_elem? pool e ≡ some b
      → get_elem? pool e' ≡ some b'
      → Apart b b'

-- A block of 2 ^ k pages that is in no list, and shares no page with those that are.
pub record IsHeld (pool : List Block) (M : ℕ → ℕ → Bool) (x k : ℕ) (b : Block) : Type 0 where
  pub block : IsBlock pool x k b
  pub absent : (k' : ℕ) → M k' x ≡ false
  pub alone : (k' e : ℕ) (b' : Block) → M k' e ≡ true → get_elem? pool e ≡ some b' → Apart b b'

-- The halves of a block of 2 ^ (d + 1) pages.
abbrev pub lower_half : Block → Block
lower_half b = record b { size = b.size / 2 }

abbrev pub upper_half : Block → Block
upper_half b = record {
  physical_addr = (b.physical_addr + ((b.size * page_size) % u64_mod) / 2) % u64_mod;
  size = b.size / 2;
}

-- Both depend on the membership pointwise.
module _ (pool : List Block) (M M' : ℕ → ℕ → Bool) (same : (k e : ℕ) → M' k e ≡ M k e) where
  pub IsSound-same : IsSound pool M → IsSound pool M'
  IsSound-same sound = record {
    entry = λ k e got. sound.entry k e (sym (same k e) ∙ got);
    apart = λ k e k' e' b b' got got'.
        sound.apart k e k' e' b b' (sym (same k e) ∙ got) (sym (same k' e') ∙ got');
  }

  pub IsHeld-same : {x k : ℕ} {b : Block} → IsHeld pool M x k b → IsHeld pool M' x k b
  IsHeld-same {x} held = record {
    block = held.block;
    absent = λ k'. same k' x ∙ held.absent k';
    alone = λ k' e b' got. held.alone k' e b' (sym (same k' e) ∙ got);
  }

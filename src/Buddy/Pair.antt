-- ===== src/Buddy/Pair.antt =====
-- The address of a block's buddy.
use osvirt_project.Base.{
  ℕ, zero, suc, ◌+◌, ◌-◌, ◌*◌, ◌/◌, ◌%◌, ◌^◌, ◌<◌, ◌≡◌, refl, ap, ◌∙◌, ◌⊎◌, inl, inr, arith,
  page_size, u64_mod,
}
use native.Mathlib.Nat.{two-pow-succ}
use Prim.Native.Nat.{bit_xor}
use osvirt_project.Base.Xor.{bit_xor_one, bit_xor_pow}
use osvirt_project.ListLib.{ListLib}
use osvirt_project.Buddy.{Block, pair_address}

-- The bytes of 2 ^ k pages.
pub pages_pow : (k : ℕ) → 2 ^ (k + 12) ≡ 2 ^ k * page_size
pages_pow zero = refl
pages_pow (suc k) =
    let shift : suc k + 12 ≡ suc (k + 12) = omega arith in
    omega (arith, ap (λ j. 2 ^ j) shift, pages_pow k, two-pow-succ k, two-pow-succ (k + 12))

-- The block lies at a multiple of its size from `offset` on.
abbrev pub IsAligned : (offset k : ℕ) → Block → Type 0
IsAligned offset k b = (q : ℕ) × (b.physical_addr ≡ offset + q * 2 ^ (k + 12))

succ : (r p : ℕ) → suc r * p ≡ r * p + p
succ r p = omega arith

-- The buddy is the next block at an even place, and the one before at an odd one.
pub pair_address-cases :
    (lib : ListLib) (offset k q : ℕ)
    → offset + q * 2 ^ (k + 12) + 2 ^ (k + 12) < u64_mod
    → ((q % 2 ≡ 0)
        × (pair_address lib (offset + q * 2 ^ (k + 12)) offset k ≡ offset + (q + 1) * 2 ^ (k + 12)))
      ⊎ ((p : ℕ) × (q ≡ suc p)
          × (p % 2 ≡ 0)
          × (pair_address lib (offset + q * 2 ^ (k + 12)) offset k ≡ offset + p * 2 ^ (k + 12)))
pair_address-cases lib offset k q below =
    let from : (offset + q * 2 ^ (k + 12) + u64_mod - offset) % u64_mod ≡ q * 2 ^ (k + 12) =
      omega arith in
    let turned = bit_xor_pow (k + 12) q in
    elim (bit_xor_one q) [
      | inl (even, next) ↦
          let more : (q + 1) * 2 ^ (k + 12) ≡ q * 2 ^ (k + 12) + 2 ^ (k + 12) = grind arith in
          inl (even, rw (from, turned, next) (omega arith))
      | inr (odd, before) ↦
          let at : q ≡ suc (bit_xor q 1) = omega arith in
          let less : q * 2 ^ (k + 12) ≡ bit_xor q 1 * 2 ^ (k + 12) + 2 ^ (k + 12) =
            ap (λ x. x * 2 ^ (k + 12)) at ∙ succ (bit_xor q 1) (2 ^ (k + 12)) in
          inr (bit_xor q 1, at, omega arith, rw (from, turned) (omega arith))
    ]

-- A block at an even place is the lower half of one of twice its size.
pub half_place : (k q : ℕ) → q % 2 ≡ 0 → q * 2 ^ (k + 12) ≡ q / 2 * 2 ^ (suc k + 12)
half_place k q even =
    let shift : suc k + 12 ≡ suc (k + 12) = omega arith in
    let twice : 2 ^ (suc k + 12) ≡ 2 ^ (k + 12) + 2 ^ (k + 12) =
      ap (λ j. 2 ^ j) shift ∙ two-pow-succ (k + 12) in
    let two : q ≡ q / 2 + q / 2 = omega arith in
    ap (λ x. x * 2 ^ (k + 12)) two ∙ rw twice (grind arith)

-- ===== src/Buddy/Index.antt =====
-- `pages_to_buddy_index` is the logarithm.
use osvirt_project.Base.{
  ℕ, zero, suc, ◌+◌, ◌/◌, ◌^◌, ◌≤◌, ◌<◌, ◌≡◌, refl, ap, ◌∙◌, ◌≢◌, ◌⊎◌, inl, inr, arith, ◌==◌,
  Bool-cases, ok,
}
use native.Mathlib.Nat.{two-pow-succ, pow-le-pow_right}
use native.Mathlib.Numerals.{add-one}
use osvirt_project.Buddy.{index_from, pages_to_buddy_index}

-- `k` is the list that blocks of `n` pages belong to.
abbrev pub IsIndex : ℕ → ℕ → Type 0
IsIndex n k = ((2 ^ k ≤ n) ⊎ (k ≡ 0)) × (n < 2 ^ (k + 1))

pub pow_pos : (k : ℕ) → 0 < 2 ^ k
pow_pos zero = omega arith
pow_pos (suc k) = omega (arith, two-pow-succ k, pow_pos k)

pub pow_step : (k : ℕ) → 2 ^ (k + 1) ≡ 2 ^ k + 2 ^ k
pow_step k = rw add-one (two-pow-succ k)

lt_of_div : (n m : ℕ) → 0 < m → n / m ≡ 0 → n < m
lt_of_div n m h e = grind arith

le_of_div : (n m : ℕ) → 0 < m → n / m ≢ 0 → m ≤ n
le_of_div n m h e = grind arith

index_from_total :
    (rounds i n : ℕ)
    → (2 ^ i ≤ n) ⊎ ((i ≡ 0) × (0 < rounds))
    → n < 2 ^ (i + rounds)
    → (k : ℕ) × (index_from rounds i n ≡ ok k) × IsIndex n k
unfolding index_from
index_from_total zero i n (inl lo) hi =
    let e : i + 0 ≡ i = omega arith in absurd (omega (arith, ap (λ k. 2 ^ k) e))
index_from_total zero i n (inr (z, pos)) hi = absurd (omega arith)
index_from_total (suc r) i n lo hi = elim (Bool-cases (n / 2 ^ (i + 1) == 0)) [
  | inl done ↦ (i, rw done, (start lo, lt_of_div n (2 ^ (i + 1)) (pow_pos (i + 1)) (ground arith)))
  | inr more ↦
      let shift : i + suc r ≡ i + 1 + r = omega arith in
      rw more (
        index_from_total r (i + 1) n
          (inl (le_of_div n (2 ^ (i + 1)) (pow_pos (i + 1)) (ground arith)))
          (omega (arith, ap (λ k. 2 ^ k) shift)))
]
  where
    start : (2 ^ i ≤ n) ⊎ ((i ≡ 0) × (0 < suc r)) → (2 ^ i ≤ n) ⊎ (i ≡ 0)
    start (inl a) = inl a
    start (inr a) = inr a.0

-- `pages_to_buddy_index` ends, for every number of pages below 2 ^ 63, with the list index `k` such
-- that the pages are at least 2 ^ k (or `k` is 0) and fewer than 2 ^ (k + 1).
pub pages_to_buddy_index_total :
    (n : ℕ) → n < 2 ^ 63 → (k : ℕ) × (pages_to_buddy_index n ≡ ok k) × IsIndex n k
unfolding pages_to_buddy_index
pages_to_buddy_index_total n h = index_from_total 63 0 n (inr (refl, omega arith)) h

pub pow_mono : (i j : ℕ) → i ≤ j → 2 ^ i ≤ 2 ^ j
pow_mono i j h = pow-le-pow_right {n = 2} (omega arith) h

not_below : (n k j : ℕ) → IsIndex n k → IsIndex n j → ¬ (k < j)
not_below n k j (lo, hi) (inl lo', hi') h = omega (arith, pow_mono (k + 1) j (omega arith))
not_below n k j (lo, hi) (inr z, hi') h = omega arith

-- A number has one index.
pub IsIndex-unique : (n k j : ℕ) → IsIndex n k → IsIndex n j → k ≡ j
IsIndex-unique n k j a b = omega (arith, not_below n k j a b, not_below n j k b a)

-- The index of a power of two is its exponent.
pub pages_to_buddy_index-pow : (k : ℕ) → k < 63 → pages_to_buddy_index (2 ^ k) ≡ ok k
pages_to_buddy_index-pow k h =
    let below : 2 ^ k < 2 ^ 63 =
      omega (arith, pow_mono (k + 1) 63 (omega arith), pow_step k, pow_pos k) in
    let (j, run, is) = pages_to_buddy_index_total (2 ^ k) below in
    let e =
      IsIndex-unique (2 ^ k) j k is (inl (omega arith), omega (arith, pow_step k, pow_pos k)) in
    run ∙ ap ok e

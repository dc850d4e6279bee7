-- ===== src/Base/Xor.antt =====
-- `bit_xor` with a power of two.
use Prim.Native.Nat.{
  ℕ, zero, suc, ◌+◌, ◌*◌, ◌/◌, ◌%◌, ◌^◌, ◌≤◌, ◌<◌, differ, bit_xor, digits, bit_xor-bitwise,
}
use mathlib.Core.Path.{◌≡◌, ◌∙◌, refl, ap}
use mathlib.Core.Logic.{◌⊎◌, inl, inr}
use native.Mathlib.Omega.{arith}
use native.Mathlib.Nat.{pow-suc}

-- The operation on so many digits.
abbrev crossed : (count a b : ℕ) → ℕ
crossed count a b = digits (λ b. b) differ count a b

crossed_enough : (b a n m : ℕ) → a ≤ m → a ≤ n → crossed n a b ≡ crossed m a b
crossed_enough b (suc x) (suc k) (suc l) below below' =
    let half = crossed_enough (b / 2) (suc x / 2) k l (omega arith) (omega arith) in
    ap (λ h. h * 2 + differ (suc x % 2) (b % 2)) half
crossed_enough b (suc x) zero m below below' = absurd (omega arith)
crossed_enough b (suc x) (suc k) zero below below' = absurd (omega arith)
crossed_enough b zero zero zero below below' = refl
crossed_enough b zero zero (suc l) below below' = refl
crossed_enough b zero (suc k) zero below below' = refl
crossed_enough b zero (suc k) (suc l) below below' = refl

pub zero-bit_xor : (b : ℕ) → bit_xor 0 b ≡ b
zero-bit_xor b = bit_xor-bitwise 0 b

-- The lowest digit of a number that is not 0, and the others.
bit_xor_halves :
    (a b : ℕ) → bit_xor (suc a) b ≡ bit_xor (suc a / 2) (b / 2) * 2 + differ (suc a % 2) (b % 2)
bit_xor_halves a b =
    let whole = bit_xor-bitwise (suc a) b in
    let half = bit_xor-bitwise (suc a / 2) (b / 2) in
    let same = crossed_enough (b / 2) (suc a / 2) a (suc a / 2) (omega arith) (omega arith) in
    omega arith

bit_xor_none : (count a : ℕ) → a ≤ count → bit_xor a 0 ≡ a
bit_xor_none count zero le = zero-bit_xor 0
bit_xor_none zero (suc a) le = absurd (omega arith)
bit_xor_none (suc n) (suc a) le =
    let whole = bit_xor_halves a 0 in
    let half = bit_xor_none n (suc a / 2) (omega arith) in
    let digit = differ_none (suc a % 2) in omega arith
  where
    differ_none : (d : ℕ) → differ d 0 ≡ d
    differ_none zero = refl
    differ_none (suc d) = refl

differ-cases : (d : ℕ) → d < 2 → ((d ≡ 0) × (differ d 1 ≡ 1)) ⊎ ((d ≡ 1) × (differ d 1 ≡ 0))
differ-cases zero small = inl (refl, refl)
differ-cases (suc zero) small = inr (refl, refl)
differ-cases (suc (suc d)) small = absurd (omega arith)

-- One digit is turned over.
pub bit_xor_one :
    (q : ℕ) → ((q % 2 ≡ 0) × (bit_xor q 1 ≡ q + 1)) ⊎ ((q % 2 ≡ 1) × (bit_xor q 1 + 1 ≡ q))
bit_xor_one zero = inl (refl, zero-bit_xor 1)
bit_xor_one (suc q) =
    let whole = bit_xor_halves q 1 in
    let half = bit_xor_none (suc q / 2) (suc q / 2) (omega arith) in
    elim (differ-cases (suc q % 2) (omega arith)) [
      | inl (even, digit) ↦ inl (even, omega arith)
      | inr (odd, digit) ↦ inr (odd, omega arith)
    ]

bit_xor_double : (a b : ℕ) → bit_xor (a * 2) (b * 2) ≡ bit_xor a b * 2
bit_xor_double zero b = omega (arith, zero-bit_xor (b * 2), zero-bit_xor b)
bit_xor_double (suc a) b =
    let whole : bit_xor (suc (suc (a * 2))) (b * 2)
        ≡ bit_xor (suc (suc (a * 2)) / 2) (b * 2 / 2) * 2
          + differ (suc (suc (a * 2)) % 2) (b * 2 % 2) =
      bit_xor_halves (suc (a * 2)) (b * 2) in
    let top : suc (suc (a * 2)) / 2 ≡ suc a = omega arith in
    let left : suc (suc (a * 2)) % 2 ≡ 0 = omega arith in
    let right : b * 2 / 2 ≡ b = omega arith in
    let low : b * 2 % 2 ≡ 0 = omega arith in
    let twice : suc a * 2 ≡ suc (suc (a * 2)) = omega arith in
    rw twice (whole ∙ rw (top, left, right, low) (omega arith))

pub bit_xor_pow : (m q : ℕ) → bit_xor (q * 2 ^ m) (2 ^ m) ≡ bit_xor q 1 * 2 ^ m
bit_xor_pow zero q =
    let one : q * 2 ^ 0 ≡ q = omega arith in let same = ap (λ x. bit_xor x 1) one in omega arith
bit_xor_pow (suc m) q =
    let power = pow-suc 2 m in
    let left : q * 2 ^ suc m ≡ q * 2 ^ m * 2 = grind arith in
    let right : 2 ^ suc m ≡ 2 ^ m * 2 = omega arith in
    let whole : bit_xor q 1 * 2 ^ m * 2 ≡ bit_xor q 1 * 2 ^ suc m = grind arith in
    ap (λ x. bit_xor x (2 ^ suc m)) left
    ∙ ap (λ x. bit_xor (q * 2 ^ m * 2) x) right
    ∙ bit_xor_double (q * 2 ^ m) (2 ^ m)
    ∙ ap (λ x. x * 2) (bit_xor_pow m q)
    ∙ whole

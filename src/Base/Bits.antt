-- ===== src/Base/Bits.antt =====
-- `bit_or` of numbers whose digits do not overlap.
use Prim.Native.Nat.{
  ℕ, zero, suc, ◌+◌, ◌*◌, ◌/◌, ◌%◌, ◌^◌, ◌≤◌, ◌<◌, max, bit_or, digits, bit_or-bitwise,
}
use mathlib.Core.Path.{◌≡◌, ◌∙◌, refl, sym, ap}
use native.Mathlib.Omega.{arith}
use native.Mathlib.Nat.{pow-suc, div-div-eq-div-mul}

-- The operation on so many digits.
abbrev joined : (count a b : ℕ) → ℕ
joined count a b = digits (λ b. b) max count a b

-- Counts that are enough for the first number give the same.
joined_enough : (b a n m : ℕ) → a ≤ m → a ≤ n → joined n a b ≡ joined m a b
joined_enough b (suc x) (suc k) (suc l) below below' =
    let half = joined_enough (b / 2) (suc x / 2) k l (omega arith) (omega arith) in omega arith
joined_enough b (suc x) zero m below below' = absurd (omega arith)
joined_enough b (suc x) (suc k) zero below below' = absurd (omega arith)
joined_enough b zero zero zero below below' = refl
joined_enough b zero zero (suc l) below below' = refl
joined_enough b zero (suc k) zero below below' = refl
joined_enough b zero (suc k) (suc l) below below' = refl

pub zero-bit_or : (b : ℕ) → bit_or 0 b ≡ b
zero-bit_or b = bit_or-bitwise 0 b

-- The lowest digit, and the others.
pub bit_or_halves : (a b : ℕ) → bit_or a b ≡ bit_or (a / 2) (b / 2) * 2 + max (a % 2) (b % 2)
bit_or_halves zero b = omega (arith, zero-bit_or b, zero-bit_or (b / 2))
bit_or_halves (suc a) b =
    let whole = bit_or-bitwise (suc a) b in
    let half = bit_or-bitwise (suc a / 2) (b / 2) in
    let same = joined_enough (b / 2) (suc a / 2) a (suc a / 2) (omega arith) (omega arith) in
    omega arith

pub bit_or_none : (count a : ℕ) → a ≤ count → bit_or a 0 ≡ a
bit_or_none count zero le = zero-bit_or 0
bit_or_none zero (suc a) le = absurd (omega arith)
bit_or_none (suc n) (suc a) le =
    let whole = bit_or_halves (suc a) 0 in
    let half = bit_or_none n (suc a / 2) (omega arith) in omega arith

twice : (k q : ℕ) → q * 2 ^ suc k ≡ q * 2 ^ k * 2
twice k q = let power = pow-suc 2 k in grind arith

-- A number below 2 ^ k and a multiple of 2 ^ k.
pub bit_or_disjoint : (k q r : ℕ) → r < 2 ^ k → bit_or (q * 2 ^ k) r ≡ q * 2 ^ k + r
bit_or_disjoint zero q r small =
    let none_left : r ≡ 0 = omega arith in
    rw none_left (let same = bit_or_none (q * 2 ^ 0) (q * 2 ^ 0) (omega arith) in omega arith)
bit_or_disjoint (suc k) q r small =
    let double = twice k q in
    let power = pow-suc 2 k in
    let whole = bit_or_halves (q * 2 ^ suc k) r in
    let rest = bit_or_disjoint k q (r / 2) (omega arith) in
    let half : q * 2 ^ suc k / 2 ≡ q * 2 ^ k = omega arith in
    let parts = ap (λ x. bit_or x (r / 2)) half in omega arith

bit_or_half : (a b : ℕ) → bit_or a b / 2 ≡ bit_or (a / 2) (b / 2)
bit_or_half a b = let whole = bit_or_halves a b in omega arith

halve : (k x : ℕ) → x / 2 / 2 ^ k ≡ x / 2 ^ suc k
halve k x =
    let power : 2 ^ suc k ≡ 2 * 2 ^ k = omega (arith, pow-suc 2 k) in
    div-div-eq-div-mul x 2 (2 ^ k) ∙ ap (λ d. x / d) (sym power)

-- The digits from some place on.
pub bit_or_shift : (k a b : ℕ) → bit_or a b / 2 ^ k ≡ bit_or (a / 2 ^ k) (b / 2 ^ k)
bit_or_shift zero a b =
    let same = ap (λ x. bit_or x (b / 2 ^ 0)) (one a) ∙ ap (λ x. bit_or a x) (one b) in omega arith
  where
    one : (x : ℕ) → x / 2 ^ 0 ≡ x
    one x = omega arith
bit_or_shift (suc k) a b =
    sym (halve k (bit_or a b))
    ∙ ap (λ x. x / 2 ^ k) (bit_or_half a b)
    ∙ bit_or_shift k (a / 2) (b / 2)
    ∙ ap (λ x. bit_or x (b / 2 / 2 ^ k)) (halve k a)
    ∙ ap (λ x. bit_or (a / 2 ^ suc k) x) (halve k b)

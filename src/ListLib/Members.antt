-- ===== src/ListLib/Members.antt =====
-- Membership of numbers in lists, and removal.
use osvirt_project.Base.{
  ℕ, ◌≡◌, refl, Bool, false, not, ◌&&◌, ◌||◌, List, [], ◌∷◌, ◌++◌, arith, if◌then◌else◌, ◌==◌,
}

unfoldable pub has : ℕ → List ℕ → Bool
has e [] = false
has e (x ∷ xs) = (e == x) || has e xs

-- The list less every occurrence of an element.
unfoldable pub without : ℕ → List ℕ → List ℕ
without e [] = []
without e (x ∷ xs) = let rest = without e xs in if e == x then rest else x ∷ rest

pub has-append : (e : ℕ) (xs ys : List ℕ) → has e (xs ++ ys) ≡ (has e xs || has e ys)
unfolding has
has-append e [] ys = refl
has-append e (x ∷ xs) ys = ground (arith, has-append e xs ys)

pub has-without : (e x : ℕ) (xs : List ℕ) → has e (without x xs) ≡ (has e xs && not (e == x))
unfolding has without
has-without e x [] = refl
has-without e x (y ∷ ys) = ground (arith, has-without e x ys)

pub without-append : (e : ℕ) (xs ys : List ℕ) → without e (xs ++ ys) ≡ without e xs ++ without e ys
unfolding without
without-append e [] ys = refl
without-append e (x ∷ xs) ys = ground (arith, without-append e xs ys)

pub without-absent : (e : ℕ) (xs : List ℕ) → has e xs ≡ false → without e xs ≡ xs
unfolding has without
without-absent e [] h = refl
without-absent e (x ∷ xs) h = ground (arith, without-absent e xs)

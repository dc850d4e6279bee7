-- ===== src/PageTable/Walk.antt =====
-- The processor's reading of a page table: four levels of 512 entries, each followed if its present
-- bit is set. It is what `map_memory` is held to.
use osvirt_project.Base.{
  ℕ, suc, ◌+◌, ◌%◌, ◌<◌, ◌≡◌, refl, Option, none, some, List, [], ◌∷◌, ◌++◌, arith, if◌then◌else◌,
  ◌==◌, Bool-cases, inl, inr, length, length-append, ap, page_size,
}
use osvirt_project.PageTable.{Memory, entry_at, present, next_table, get_page_indexes}

-- The table at the end of a path of indexes.
unfoldable pub reach : Memory → ℕ → List ℕ → Option ℕ
reach m base [] = some base
reach m base (i ∷ is) =
    let rest = reach m (next_table (m (entry_at base i))) is in
    if present (m (entry_at base i)) == 1 then rest else none

-- The indexes above the last level.
abbrev pub path_of : ℕ → List ℕ
path_of va = let idx = get_page_indexes va in idx.pml_idx ∷ idx.pdpe_idx ∷ idx.pde_idx ∷ []

-- The page that the entry `i` of a last-level table maps.
unfoldable pub leaf : Memory → Option ℕ → ℕ → Option ℕ
leaf m none i = none
leaf m (some t) i =
    if present (m (entry_at t i)) == 1 then some (next_table (m (entry_at t i))) else none

-- The physical page that a virtual address is mapped to.
unfoldable pub translate : Memory → ℕ → ℕ → Option ℕ
translate m pml va = leaf m (reach m pml (path_of va)) (get_page_indexes va).pte_idx

abbrev pub InRange : List ℕ → Type 0
InRange [] = Unit
InRange (i ∷ is) = (i < 512) × InRange is

pub path_of-InRange : (va : ℕ) → InRange (path_of va)
path_of-InRange va = omega arith

-- `q` less a leading `p` and then `i`.
unfoldable pub strip : List ℕ → ℕ → List ℕ → Option (List ℕ)
strip p i [] = none
strip [] i (j ∷ q) = if j == i then some q else none
strip (x ∷ p) i (y ∷ q) = let rest = strip p i q in if x == y then rest else none

pub strip-some : (p : List ℕ) (i : ℕ) (q r : List ℕ) → strip p i q ≡ some r → q ≡ p ++ (i ∷ r)
unfolding strip
strip-some [] i [] r e = ground arith
strip-some (x ∷ p) i [] r e = ground arith
strip-some [] i (j ∷ q) r e = ground arith
strip-some (x ∷ p) i (y ∷ q) r e = ground (arith, strip-some p i q r)

-- A word that no step of the path reads does not matter.
pub reach-frame :
    (m m' : Memory) (b : ℕ) (q : List ℕ)
    → ((r : List ℕ) (j c : ℕ) (s : List ℕ)
        → q ≡ r ++ (j ∷ s)
        → reach m b r ≡ some c
        → m' (entry_at c j) ≡ m (entry_at c j))
    → reach m' b q ≡ reach m b q
unfolding reach
reach-frame m m' b [] same = refl
reach-frame m m' b (j ∷ q) same =
    let here : m' (entry_at b j) ≡ m (entry_at b j) = same [] j b q refl refl in
    elim (Bool-cases (present (m (entry_at b j)) == 1)) [
      | inl on ↦
          rw (here, on)
            (reach-frame m m' (next_table (m (entry_at b j))) q
              λ r k c s e at. same (j ∷ r) k c s (ap (λ l. j ∷ l) e) (rw on at))
      | inr off ↦ rw (here, off)
    ]

pub reach-append :
    (m : Memory) (b c : ℕ) (p q : List ℕ) → reach m b p ≡ some c → reach m b (p ++ q) ≡ reach m c q
unfolding reach
reach-append m b c [] q e = ground arith
reach-append m b c (i ∷ p) q e =
    ground (arith, reach-append m (next_table (m (entry_at b i))) c p q)

pub strip-append : (p : List ℕ) (i : ℕ) (r : List ℕ) → strip p i (p ++ (i ∷ r)) ≡ some r
unfolding strip
strip-append [] i r = ground arith
strip-append (x ∷ p) i r = ground (arith, strip-append p i r)

pub reach-aligned :
    (m : Memory) (b : ℕ) (q : List ℕ) (c : ℕ)
    → b % page_size ≡ 0
    → reach m b q ≡ some c
    → c % page_size ≡ 0
unfolding reach
reach-aligned m b [] c h e = ground arith
reach-aligned m b (i ∷ q) c h e =
    ground (arith, reach-aligned m (next_table (m (entry_at b i))) q c (omega arith))

pub InRange-append : (r s : List ℕ) → InRange (r ++ s) → InRange r × InRange s
InRange-append [] s h = (tt, h)
InRange-append (i ∷ r) s h = let (front, back) = InRange-append r s h.1 in ((h.0, front), back)

pub length-mid :
    (p : List ℕ) (i : ℕ) (r : List ℕ) → length (p ++ (i ∷ r)) ≡ length p + suc (length r)
length-mid p i r = length-append p (i ∷ r)

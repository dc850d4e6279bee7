-- ===== src/Buddy/Budget.antt =====
-- The descriptors of the pool are enough for every split: what counts is the pages of those in use.
use osvirt_project.Base.{
  ℕ, zero, suc, ◌+◌, ◌≤◌, ◌<◌, ◌≡◌, ◌≢◌, refl, inl, inr, false, some, none, sym, ◌∙◌, List, [], ◌∷◌,
  arith, if◌then◌else◌, ◌==◌, Bool-cases, Option-cases, get_elem?, set, length, length-set,
  get_elem?-set_self, get_elem?-set_ne,
}
use osvirt_project.Buddy.{Block, find_from, request_buddy}

-- The pages of the descriptors in use.
unfoldable pub weight : List Block → ℕ
weight [] = 0
weight (b ∷ bs) = (if b.physical_addr == 0 then 0 else b.size) + weight bs

abbrev pub pages_of : Block → ℕ
pages_of b = if b.physical_addr == 0 then 0 else b.size

-- No descriptor in use is empty, and the pool has at least as many descriptors as those have pages.
pub record IsEnough (pool : List Block) : Type 0 where
  pub sized : (e : ℕ) (b : Block) → get_elem? pool e ≡ some b → b.physical_addr ≢ 0 → 1 ≤ b.size
  pub budget : weight pool ≤ length pool

pub weight-set :
    (pool : List Block) (e : ℕ) (b c : Block)
    → get_elem? pool e ≡ some b
    → weight (set pool e c) + pages_of b ≡ weight pool + pages_of c
unfolding weight
weight-set [] e b c held = ground arith
weight-set (d ∷ pool) zero b c held = ground arith
weight-set (d ∷ pool) (suc e) b c held = omega (arith, weight-set pool e b c held)

-- A pool in which every descriptor is in use.
full-weight :
    (pool : List Block) (i : ℕ)
    → find_from pool 0 i ≡ none
    → ((e : ℕ) (b : Block) → get_elem? pool e ≡ some b → b.physical_addr ≢ 0 → 1 ≤ b.size)
    → length pool ≤ weight pool
unfolding weight find_from
full-weight [] i out sized = omega arith
full-weight (b ∷ pool) i out sized =
    let used : (b.physical_addr == 0) ≡ false = ground arith in
    let rest : find_from pool 0 (i + 1) ≡ none = ground arith in
    let here = sized 0 b refl (ground arith) in
    rw used (omega (arith, full-weight pool (i + 1) rest (λ e. sized (suc e))))

full-weight_more :
    (pool : List Block) (i x : ℕ) (b : Block)
    → find_from pool 0 i ≡ none
    → ((e : ℕ) (b : Block) → get_elem? pool e ≡ some b → b.physical_addr ≢ 0 → 1 ≤ b.size)
    → get_elem? pool x ≡ some b
    → 2 ≤ b.size
    → length pool < weight pool
unfolding weight find_from
full-weight_more [] i x b out sized held several = ground arith
full-weight_more (c ∷ pool) i zero b out sized held several =
    let used : (c.physical_addr == 0) ≡ false = ground arith in
    let rest : find_from pool 0 (i + 1) ≡ none = ground arith in
    let same : c ≡ b = cc in
    let large : 2 ≤ c.size = rw same several in
    rw used (omega (arith, full-weight pool (i + 1) rest (λ e. sized (suc e))))
full-weight_more (c ∷ pool) i (suc x) b out sized held several =
    let used : (c.physical_addr == 0) ≡ false = ground arith in
    let rest : find_from pool 0 (i + 1) ≡ none = ground arith in
    let here = sized 0 c refl (ground arith) in
    rw used
      (omega (arith, full-weight_more pool (i + 1) x b rest (λ e. sized (suc e)) held several))

-- While a block of two pages or more is in use there is a free descriptor.
pub request_buddy-some :
    (pool : List Block) (x : ℕ) (b : Block)
    → IsEnough pool
    → get_elem? pool x ≡ some b
    → 2 ≤ b.size
    → (y : ℕ) × (request_buddy pool ≡ some y)
unfolding request_buddy
request_buddy-some pool x b enough held several = elim (Option-cases (request_buddy pool)) [
  | inl out ↦
      let more = full-weight_more pool 0 x b out enough.sized held several in
      let budget = enough.budget in absurd (omega arith)
  | inr hit ↦ hit
]

-- A block is split into two that have its pages.
pub IsEnough-split :
    (pool : List Block) (x y : ℕ) (b z lower upper : Block)
    → IsEnough pool
    → y ≢ x
    → get_elem? pool x ≡ some b
    → get_elem? pool y ≡ some z
    → z.physical_addr ≡ 0
    → (b.physical_addr ≢ 0) × (lower.size + upper.size ≡ b.size)
    → (1 ≤ lower.size) × (1 ≤ upper.size)
    → IsEnough (set (set pool y upper) x lower)
IsEnough-split pool x y b z lower upper enough ne held free unused (used, whole) (some_l, some_u) =
    let p1 = set pool y upper in
    let p2 = set p1 x lower in
    let held1 : get_elem? p1 x ≡ some b = get_elem?-set_ne pool y x upper ne ∙ held in
    let none_there : pages_of z ≡ 0 = ground arith in
    let all_there : pages_of b ≡ b.size = ground arith in
    let up : pages_of upper ≤ upper.size = ground arith in
    let low : pages_of lower ≤ lower.size = ground arith in
    let w1 = weight-set pool y z upper free in
    let w2 = weight-set p1 x b lower held1 in
    let long1 = length-set pool y upper in
    let long2 = length-set p1 x lower in
    let budget = enough.budget in
    record {
      sized = λ e c at some_addr. elim (Bool-cases (e == x)) [
        | inl is_x ↦
            let same : e ≡ x = ground arith in
            let new : some lower ≡ some c =
              sym (get_elem?-set_self p1 x lower b held1) ∙ (rw same at at) in
            let is : lower ≡ c = cc in rw is at some_l
        | inr not_x ↦
            let ne_x : x ≢ e = ground arith in
            let at1 : get_elem? p1 e ≡ some c = sym (get_elem?-set_ne p1 x e lower ne_x) ∙ at in
            elim (Bool-cases (e == y)) [
              | inl is_y ↦
                  let same : e ≡ y = ground arith in
                  let new : some upper ≡ some c =
                    sym (get_elem?-set_self pool y upper z free) ∙ (rw same at at1) in
                  let is : upper ≡ c = cc in rw is at some_u
              | inr not_y ↦
                  let ne_y : y ≢ e = ground arith in
                  enough.sized e c (sym (get_elem?-set_ne pool y e upper ne_y) ∙ at1) some_addr
            ]
      ];
      budget = omega arith;
    }

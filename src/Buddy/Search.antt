-- ===== src/Buddy/Search.antt =====
-- What the searches of `free_block` find.
use osvirt_project.Base.{
  ℕ, zero, suc, ◌+◌, ◌^◌, ◌<◌, ◌≡◌, ◌≢◌, refl, ap, sym, subst, ◌∙◌, inl, inr, true, some, List, [],
  ◌∷◌, arith, ◌==◌, ltb, Bool-cases, Option-cases, get_elem?,
}
use osvirt_project.ListLib.{ListLib}
use osvirt_project.Buddy.{Block, Buddy, find_from, find_buddy, find_in}
use osvirt_project.Buddy.Index.{pow_mono}
use osvirt_project.Buddy.Pool.{find-Found}
use osvirt_project.Buddy.Release.{IsRegular}

find_from-some :
    (bs : List Block) (addr i j : ℕ) (b : Block)
    → get_elem? bs j ≡ some b
    → b.physical_addr ≡ addr
    → (k : ℕ) × (find_from bs addr i ≡ some k)
unfolding find_from
find_from-some [] addr i j b h at = absurd cc
find_from-some (c ∷ bs) addr i zero b h at =
    let same : c ≡ b = cc in
    let hit : (c.physical_addr == addr) ≡ true =
      ground (arith, ap (λ (x : Block). x.physical_addr) same) in
    (i, rw hit refl)
find_from-some (c ∷ bs) addr i (suc j) b h at = elim (Bool-cases (c.physical_addr == addr)) [
  | inl hit ↦ (i, rw hit refl)
  | inr miss ↦ let (k, run) = find_from-some bs addr (i + 1) j b h at in (k, rw miss run)
]

-- A block of fewer than 2 ^ 31 bytes has an index below 19.
pub index_small : (k : ℕ) → 2 ^ (k + 12) < 2 ^ 31 → ltb k 19 ≡ true
index_small k less = elim (Bool-cases (ltb k 19)) [
  | inl yes_small ↦ yes_small
  | inr no_small ↦ let large = pow_mono 31 (k + 12) (ground arith) in absurd (omega arith)
]

module _ (lib : ListLib) where
  open lib use {items, list_remove, items-remove}

  pub find_in-at :
      (es : List ℕ) (addr e : ℕ) (pool : List Block)
      → find_in lib es addr pool ≡ some e
      → (b : Block) × (get_elem? pool e ≡ some b) × (b.physical_addr ≡ addr)
  unfolding find_in
  find_in-at [] addr e pool h = absurd cc
  find_in-at (x ∷ xs) addr e pool h = elim (Option-cases (get_elem? pool x)) [
    | inl out ↦ find_in-at xs addr e pool (rw (find_in, out) at h)
    | inr (c, held) ↦ elim (Bool-cases (c.physical_addr == addr)) [
      | inl hit ↦
          let same : some x ≡ some e = rw (find_in, held, hit) at h in
          let same' : x ≡ e = cc in
          (c, subst (λ i. get_elem? pool i ≡ some c) same' held, ground arith)
      | inr miss ↦ find_in-at xs addr e pool (rw (find_in, held, miss) at h)
    ]
  ]

  -- The descriptor of a block that is held is the one that is found.
  pub found :
      (s : Buddy lib) (x : ℕ) (b : Block)
      → IsRegular lib s
      → get_elem? s.pool x ≡ some b
      → b.physical_addr ≢ 0
      → find_buddy s.pool b.physical_addr ≡ some x
  unfolding find_buddy
  found s x b regular held used =
      let (k, run) = find_from-some s.pool b.physical_addr 0 x b held refl in
      let f = find-Found s.pool b.physical_addr k run in
      let match = f.match in
      let same = regular.unique x k b f.block held f.held used (sym match) in
      run ∙ ap some (sym same)

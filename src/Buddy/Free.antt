-- ===== src/Buddy/Free.antt =====
-- `free_block` ends.
use osvirt_project.Base.{
  ℕ, zero, suc, ◌+◌, ◌≤◌, ◌<◌, ◌≡◌, refl, ap, ◌≢◌, inl, inr, true, some, List, [], ◌∷◌, arith, ltb,
  ltb→lt, Bool-cases, Option-cases, get_elem?, set, length, Run, ok, halted, fault, out_of_fuel,
  ◌>>=◌,
}
use native.Mathlib.Decide.{ℕ_discrete}
use osvirt_project.ListLib.{ListLib, has, without}
use osvirt_project.Buddy.{
  Block, index_from, pages_to_buddy_index, find_buddy, Buddy, doubled, add_block, remove_block,
  find_in, pair_address, merge_pair, find_pair, free_round, free_from, listed, free_block,
}

length-without : (e : ℕ) (xs : List ℕ) → length (without e xs) ≤ length xs
unfolding without
length-without e [] = omega arith
length-without e (x ∷ xs) = ground (arith, length-without e xs)

length-without-has : (e : ℕ) (xs : List ℕ) → has e xs ≡ true → length (without e xs) < length xs
unfolding has without
length-without-has e [] h = ground arith
length-without-has e (x ∷ xs) h = ground (arith, length-without e xs, length-without-has e xs)

index_from-fuel : (k i n : ℕ) → index_from k i n ≢ out_of_fuel
unfolding index_from
index_from-fuel zero i n = ground arith
index_from-fuel (suc k) i n = ground (arith, index_from-fuel k (i + 1) n)

module _ (lib : ListLib) where
  open lib use {Links, items, list_remove, items-remove}

  pub find_in-has :
      (es : List ℕ) (addr e : ℕ) (pool : List Block)
      → find_in lib es addr pool ≡ some e
      → has e es ≡ true
  unfolding find_in has
  find_in-has [] addr e pool h = ground arith
  find_in-has (x ∷ xs) addr e pool h = ground (arith, find_in-has xs addr e pool)

  listed-remove :
      (n l e : ℕ) (s : Links)
      → has e (items s l) ≡ true
      → listed lib n (list_remove e s) ≤ listed lib n s
  unfolding listed
  listed-remove zero l e s h = omega arith
  listed-remove (suc n) l e s h = omega (
    arith,
    listed-remove n l e s h,
    length-without e (items s n),
    ap (length {0}) (items-remove l e n s h),
  )

  pub listed-remove_lt :
      (n l e : ℕ) (s : Links)
      → has e (items s l) ≡ true
      → l < n
      → listed lib n (list_remove e s) < listed lib n s
  unfolding listed
  listed-remove_lt zero l e s h lt = absurd (omega arith)
  listed-remove_lt (suc n) l e s h lt = elim (ℕ_discrete l n) [
    | yes same ↦ omega (
      arith,
      listed-remove n l e s h,
      length-without-has e (items s n) (rw same at h),
      ap (length {0}) (items-remove l e n s h),
    )
    | no ne ↦ omega (
      arith,
      listed-remove_lt n l e s h (omega arith),
      length-without e (items s n),
      ap (length {0}) (items-remove l e n s h),
    )
  ]

  bind-fuel :
      {A B : Type 0} (m : Run A) (f : A → Run B)
      → m ≢ out_of_fuel
      → ((a : A) → m ≡ ok a → f a ≢ out_of_fuel)
      → (m >>= f) ≢ out_of_fuel
  bind-fuel (ok a) f h k = k a refl
  bind-fuel halted f h k = ground arith
  bind-fuel fault f h k = ground arith
  bind-fuel out_of_fuel f h k = absurd (h refl)

  push-fuel :
      (b : ℕ) (s : Buddy lib) (blk : Block)
      → get_elem? s.pool b ≡ some blk
      → add_block lib b s ≢ out_of_fuel
  unfolding add_block pages_to_buddy_index
  push-fuel b s blk held = let index = index_from-fuel 63 0 blk.size in ground arith

  -- A recursive call that ends whenever fewer blocks are free.
  module _ (again : ℕ → Buddy lib → Run (Buddy lib)) (s : Buddy lib)
      (ends : (a : ℕ) (s' : Buddy lib)
        → listed lib 32 s'.links < listed lib 32 s.links
        → again a s' ≢ out_of_fuel) where
    merge_pair-fuel :
        (b buddy li : ℕ) (blk : Block)
        → li < 32
        → has buddy (items s.links li) ≡ true
        → merge_pair lib again b blk buddy s ≢ out_of_fuel
    unfolding merge_pair remove_block
    merge_pair-fuel b buddy li blk small in_list =
        let fewer = listed-remove_lt 32 li buddy s.links in_list small in
        elim (Option-cases (get_elem? s.pool buddy)) [
          | inl out ↦ ground arith
          | inr (bud, held) ↦
              let up =
                ends bud.physical_addr
                  (record (remove_block lib buddy s) { pool = set s.pool buddy (doubled lib bud) })
                  fewer in
              let down =
                ends blk.physical_addr
                  (record (remove_block lib buddy s) { pool = set s.pool b (doubled lib blk) })
                  fewer in
              ground arith
        ]

    find_pair-fuel :
        (addr b li : ℕ) (blk : Block)
        → get_elem? s.pool b ≡ some blk
        → find_pair lib again addr b blk s li ≢ out_of_fuel
    unfolding find_pair
    find_pair-fuel addr b li blk held = elim (Bool-cases (ltb li 19)) [
      | inr out ↦ ground arith
      | inl small ↦
          let push = push-fuel b s blk held in
          elim (Option-cases
            (find_in lib (items s.links li) (pair_address lib addr s.offset li) s.pool)) [
              | inl alone ↦ ground arith
              | inr (buddy, found) ↦
                  let merge = merge_pair-fuel b buddy li blk (omega (arith, ltb→lt li 19 small)) (
                    find_in-has (items s.links li) (pair_address lib addr s.offset li) buddy s.pool
                      found) in
                  ground arith
            ]
    ]

    free_round-fuel : (addr : ℕ) → free_round lib again addr s ≢ out_of_fuel
    unfolding free_round pages_to_buddy_index
    free_round-fuel addr = elim (Option-cases (find_buddy s.pool addr)) [
      | inl out ↦ ground arith
      | inr (b, found) ↦ elim (Option-cases (get_elem? s.pool b)) [
        | inl out ↦ ground arith
        | inr (blk, held) ↦
            rw (found, free_round, held)
              (bind-fuel (pages_to_buddy_index blk.size) _ (index_from-fuel 63 0 blk.size)
                λ li e. find_pair-fuel addr b li blk held)
      ]
    ]

  free_from-fuel :
      (fuel addr : ℕ) (s : Buddy lib)
      → listed lib 32 s.links < fuel
      → free_from lib fuel addr s ≢ out_of_fuel
  unfolding free_from
  free_from-fuel zero addr s enough = absurd (omega arith)
  free_from-fuel (suc k) addr s enough =
      free_round-fuel (free_from lib k) s (λ a s' fewer. free_from-fuel k a s' (omega arith)) addr

  -- `free_block` ends on every state and address, whatever the lists and the pool hold: each
  -- recursive call has one free block less, so that the fuel of the model does not run out.
  pub free_block-ends : (addr : ℕ) (s : Buddy lib) → free_block lib addr s ≢ out_of_fuel
  unfolding free_block
  free_block-ends addr s = free_from-fuel (listed lib 32 s.links + 1) addr s (omega arith)

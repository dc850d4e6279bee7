-- ===== src/Buddy/Setup.antt =====
-- `init_buddy` of allocator.c: the first block of the buddy system.
use osvirt_project.Base.{
  ℕ, zero, suc, ◌+◌, ◌-◌, ◌*◌, ◌%◌, ◌^◌, ◌≤◌, ◌<◌, ◌≡◌, refl, sym, ap, ◌∙◌, ◌≢◌, ◌⊎◌, inl, inr,
  true, false, none, some, List, [], ◌∷◌, arith, if◌then◌else◌, ◌==◌, ltb, get_elem?, set,
  get_elem?-set_self, Run, ok, fault, halted, ◌>>=◌, Bool-cases, ltb→lt, u64_mod, page_size,
}
use native.Mathlib.Nat.{pow-le-pow_right}
use osvirt_project.ListLib.{ListLib, has}
use osvirt_project.Buddy.{Block, num_buddy_lists, pages_to_buddy_index, request_buddy, Buddy}
use osvirt_project.Buddy.Index.{IsIndex, pages_to_buddy_index_total}
use osvirt_project.Buddy.Pool.{find-Found}
use osvirt_project.Buddy.Inv.{IsBlock, IsSound}
use osvirt_project.Buddy.Get.{members}

request_buddy-held :
    (pool : List Block) (b : ℕ)
    → request_buddy pool ≡ some b
    → (z : Block) × (get_elem? pool b ≡ some z)
unfolding request_buddy
request_buddy-held pool b free = let found = find-Found pool 0 b free in (found.block, found.held)

module _ (lib : ListLib) where
  open lib use {
    Links, items, list_init, list_push_back, items-init_self, items-init_other,
    items-push_back_self, items-push_back_other,
  }

  -- `for (i = 0; i < NUM_BUDDY_LISTS; i++) list_init(&buddy_lists[i]);`
  unfoldable pub init_lists : (rounds i : ℕ) → Links → Links
  init_lists zero i l = l
  init_lists (suc k) i l = init_lists k (i + 1) (list_init i l)

  -- The first block in its list. A list index past the last one is out of bounds.
  unfoldable pub insert_first : (addr list_index : ℕ) → Buddy lib → Run (Buddy lib)
  insert_first addr list_index s = elim (request_buddy s.pool) [
    | none ↦ halted
    | some b ↦
        if ltb list_index num_buddy_lists
        then ok (record s {
          pool = set s.pool b (record { physical_addr = addr; size = 2 ^ list_index });
          links = list_push_back list_index b s.links;
        })
        else fault
  ]

  -- `1 << list_index` is an `int`: from 31 bits on it is undefined. The pages that are left over
  -- are counted and then forgotten.
  unfoldable pub init_buddy : (addr total_mem_num_pages : ℕ) → Buddy lib → Run (Buddy lib)
  init_buddy addr total s = pages_to_buddy_index total >>= λ list_index.
      if ltb list_index 31
      then insert_first addr
          (if ltb total (2 ^ list_index) then (list_index + u64_mod - 1) % u64_mod else list_index)
          (record s { offset = addr; links = init_lists num_buddy_lists 0 s.links })
      else fault

  init_lists-items :
      (rounds i k : ℕ) (l : Links)
      → (items l k ≡ []) ⊎ ((i ≤ k) × (k < i + rounds))
      → items (init_lists rounds i l) k ≡ []
  unfolding init_lists
  init_lists-items zero i k l (inl e) = e
  init_lists-items zero i k l (inr h) = absurd (omega arith)
  init_lists-items (suc r) i k l h = elim (Bool-cases (k == i)) [
    | inl e ↦
        let same : k ≡ i = ground arith in
        init_lists-items r (i + 1) k (list_init i l) (inl (rw same (items-init_self i l)))
    | inr e ↦
        let other : k ≢ i = ground arith in
        init_lists-items r (i + 1) k (list_init i l) (later i r k l other h)
  ]
    where
      later :
          (i r k : ℕ) (l : Links)
          → k ≢ i
          → (items l k ≡ []) ⊎ ((i ≤ k) × (k < i + suc r))
          → (items (list_init i l) k ≡ []) ⊎ ((i + 1 ≤ k) × (k < i + 1 + r))
      later i r k l ne (inl e) = inl (items-init_other i k l ne ∙ e)
      later i r k l ne (inr h) = inr (omega arith, omega arith)

  -- The links after the block is put into list `k` of empty lists.
  module _ (k b : ℕ) (l : Links) (empty : (j : ℕ) → items l j ≡ []) where
    out : (j : ℕ) → has b (items l j) ≡ false
    unfolding has
    out j = rw (empty j) refl

    pushed_self : items (list_push_back k b l) k ≡ b ∷ []
    pushed_self = items-push_back_self k b l out ∙ rw (empty k) refl

    pushed-other : (j : ℕ) → j ≢ k → items (list_push_back k b l) j ≡ []
    pushed-other j ne = items-push_back_other k b j l out ne ∙ empty j

    only : (j e : ℕ) → has e (items (list_push_back k b l) j) ≡ true → (j ≡ k) × (e ≡ b)
    unfolding has
    only j e got = elim (Bool-cases (j == k)) [
      | inl same ↦
          let at : j ≡ k = ground arith in
          (
            at,
            only_elem e
                (ap (has e) (sym (ap (items (list_push_back k b l)) at ∙ pushed_self)) ∙ got),
          )
      | inr other ↦
          let ne : j ≢ k = ground arith in
          absurd (no_elem e (ap (has e) (sym (pushed-other j ne)) ∙ got))
    ]
      where
        only_elem : (e : ℕ) → has e (b ∷ []) ≡ true → e ≡ b
        only_elem e h = ground arith

        no_elem : (e : ℕ) → has e [] ≡ true → ⊥
        no_elem e h = ground arith

    -- One block in one list is a sound state.
    pushed-IsSound :
        (pool : List Block) (blk : Block)
        → IsBlock pool b k blk
        → IsSound pool (λ j e. has e (items (list_push_back k b l) j))
    pushed-IsSound pool blk is = record {
      entry = λ j e got. let at = only j e got in rw (at.0, at.1) (blk, is);
      apart = λ j e j' e' x x' got got' ne h h'.
          absurd (ne ((only j e got).1 ∙ sym (only j' e' got').1));
    }

  insert_first-run :
      (addr b k : ℕ) (s : Buddy lib)
      → request_buddy s.pool ≡ some b
      → k < 31
      → insert_first addr k s
        ≡ ok (record s {
          pool = set s.pool b (record { physical_addr = addr; size = 2 ^ k });
          links = list_push_back k b s.links;
        })
  unfolding insert_first
  insert_first-run addr b k s free small =
      let listed : ltb k num_buddy_lists ≡ true = ground arith in
      rw (insert_first, free, listed) refl

  init_buddy-run :
      (addr total b k : ℕ) (s : Buddy lib)
      → pages_to_buddy_index total ≡ ok k
      → 2 ^ k ≤ total
      → k < 31
      → request_buddy s.pool ≡ some b
      → init_buddy addr total s
        ≡ ok (record {
          pool = set s.pool b (record { physical_addr = addr; size = 2 ^ k });
          links = list_push_back k b (init_lists num_buddy_lists 0 s.links);
          offset = addr;
        })
  unfolding init_buddy
  init_buddy-run addr total b k s run low small free =
      let fits : ltb k 31 ≡ true = ground arith in
      let same : (if ltb total (2 ^ k) then (k + u64_mod - 1) % u64_mod else k) ≡ k =
        ground arith in
      let s0 : Buddy lib = record s {
        offset = addr;
        links = init_lists num_buddy_lists 0 s.links;
      } in
      rw (init_buddy, run, ◌>>=◌, fits)
        (ap (λ j. insert_first addr j s0) same ∙ insert_first-run addr b k s0 free small)

  -- `init_buddy` on a pool with an unused descriptor, for 2 pages or more and fewer than 2 ^ 31 at
  -- an address that is not 0, and that end below 2 ^ 64: it returns, with free lists that are
  -- sound and hold one block, at that address, of the largest power of two that is not above the
  -- number of pages. Of the pool only its descriptor has changed.
  pub init_buddy-IsSound :
      (addr total b : ℕ) (s : Buddy lib)
      → request_buddy s.pool ≡ some b
      → ((k : ℕ) → 32 ≤ k → items s.links k ≡ [])
      → 2 ≤ total
      → total < 2 ^ 31
      → addr ≢ 0
      → addr + total * page_size ≤ u64_mod
      → (s' : Buddy lib) × (k : ℕ) × (init_buddy addr total s ≡ ok s')
        × IsSound s'.pool (members lib s')
        × (2 ^ k ≤ total)
        × (total < 2 ^ (k + 1))
        × (items s'.links k ≡ b ∷ [])
        × (get_elem? s'.pool b ≡ some (record { physical_addr = addr; size = 2 ^ k }))
        × (s'.pool ≡ set s.pool b (record { physical_addr = addr; size = 2 ^ k }))
  init_buddy-IsSound addr total b s free beyond several few some_addr below =
      let (k, run, is) = pages_to_buddy_index_total total (omega arith) in
      let low : 2 ^ k ≤ total = index_low total k several is in
      let small : k < 31 = index_small total k few low in
      let pos : 1 ≤ k = index_pos total k several is in
      let (z, inside) = request_buddy-held s.pool b free in
      let blk : Block = record { physical_addr = addr; size = 2 ^ k } in
      let l0 = init_lists num_buddy_lists 0 s.links in
      let empty : (j : ℕ) → items l0 j ≡ [] =
        λ j. init_lists-items 32 0 j s.links (listed_or_not j s beyond) in
      let held : get_elem? (set s.pool b blk) b ≡ some blk =
        get_elem?-set_self s.pool b blk z inside in
      let is_block : IsBlock (set s.pool b blk) b k blk = record {
        held = held;
        size = refl;
        used = some_addr;
        below = omega arith;
        several = pos;
        index = omega arith;
      } in
      (
        record { pool = set s.pool b blk; links = list_push_back k b l0; offset = addr },
        k,
        init_buddy-run addr total b k s run low small free,
        pushed-IsSound k b l0 empty (set s.pool b blk) blk is_block,
        low,
        is.1,
        pushed_self k b l0 empty,
        held,
        refl,
      )
    where
      index_low : (n k : ℕ) → 2 ≤ n → IsIndex n k → 2 ^ k ≤ n
      index_low n k h (inl lo, hi) = lo
      index_low n k h (inr z, hi) = let one : 2 ^ k ≡ 1 = rw z refl in omega arith

      index_pos : (n k : ℕ) → 2 ≤ n → IsIndex n k → 1 ≤ k
      index_pos n zero h is = omega (arith, is.1)
      index_pos n (suc k) h is = omega arith

      index_small : (n k : ℕ) → n < 2 ^ 31 → 2 ^ k ≤ n → k < 31
      index_small n k few low = elim (Bool-cases (ltb k 31)) [
        | inl e ↦ ltb→lt k 31 e
        | inr e ↦
            let over : 31 ≤ k = ground arith in
            let pow = pow-le-pow_right {n = 2} (omega arith) over in absurd (omega arith)
      ]

      listed_or_not :
          (j : ℕ) (s : Buddy lib)
          → ((k : ℕ) → 32 ≤ k → items s.links k ≡ [])
          → (items s.links j ≡ []) ⊎ ((0 ≤ j) × (j < 0 + 32))
      listed_or_not j s beyond = elim (Bool-cases (ltb j 32)) [
        | inl e ↦ inr (omega arith, ltb→lt j 32 e)
        | inr e ↦ inl (beyond j (ground arith))
      ]

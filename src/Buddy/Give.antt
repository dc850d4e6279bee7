-- ===== src/Buddy/Give.antt =====
-- `get_block` keeps the free lists sound, and what it returns.
use osvirt_project.Base.{
  ℕ, zero, suc, ◌+◌, ◌-◌, ◌%◌, ◌^◌, ◌≤◌, ◌<◌, ◌≡◌, refl, ap, sym, ◌∙◌, ◌≢◌, ◌⊎◌, inl, inr, true,
  List, [], ◌∷◌, arith, leb, Bool-cases, List-cases, Run, ok, halted, ◌>>=◌, u64_mod,
}
use Prim.Native.Nat.{min}
use native.Mathlib.Decide.{ℕ_discrete}
use osvirt_project.ListLib.{ListLib, has, has-without}
use osvirt_project.Buddy.{Block, Buddy, remove_block, take_front, scan_lists, get_block}
use osvirt_project.Buddy.Index.{IsIndex, pages_to_buddy_index_total}
use osvirt_project.Buddy.Inv.{IsSound-same, IsHeld-same, IsBlock, IsSound, IsHeld}
use osvirt_project.Buddy.Get.{members, members_but, Reached, split_from-Reached}

module _ (lib : ListLib) where
  open lib use {items, list_push_back, items-push_back_self, items-push_back_other, items-remove}

  -- What `get_block` gives from the list `list_index` on: the machine halts, or
  -- `NULL` and an unchanged state, or a block of 2 ^ k pages that is off the lists
  -- and shares no page with the free blocks, which stay sound. It is at most one list larger than
  -- asked for, and as small only if that list had a block.
  abbrev pub Given : ℕ → Buddy lib → Run (ℕ × Buddy lib) → Type 0
  Given list_index s r =
      (r ≡ halted)
      ⊎ (((k : ℕ) → list_index ≤ k → k < 32 → items s.links k ≡ []) × (r ≡ ok (0, s)))
      ⊎ ((k x : ℕ) × (b : Block) × (s' : Buddy lib) × (r ≡ ok (b.physical_addr, s'))
          × IsSound s'.pool (members lib s')
          × IsHeld s'.pool (members lib s') x k b
          × (((k ≡ list_index) × (items s.links list_index ≢ []))
              ⊎ ((k ≡ list_index + 1) × (items s.links list_index ≡ []))))

  pub front_Reached :
      (s : Buddy lib) (i x : ℕ) (xs : List ℕ)
      → IsSound s.pool (members lib s)
      → items s.links i ≡ x ∷ xs
      → (b : Block) × IsBlock s.pool x i b × Reached lib x i b.physical_addr s
  unfolding has
  front_Reached s i x xs sound front =
      let in_list : members lib s i x ≡ true = rw front (ground arith) in
      let (b, is) = sound.entry i x in_list in
      (
        b,
        is,
        record {
          block = b;
          sound = record {
            entry = λ k e got. sound.entry k e (ground arith);
            apart = λ k e k' e' c c' got got' ne.
                sound.apart k e k' e' c c' (ground arith) (ground arith) ne;
          };
          held = record {
            block = is;
            absent = λ k. ground arith;
            alone = λ k e c got h.
                sound.apart i x k e b c in_list (ground arith) (λ s. ground arith) is.held h;
          };
          starts = refl;
          home = (i, in_list);
        },
      )

  -- What the front block of a list gives.
  module _ (s : Buddy lib) (li i x : ℕ) (xs : List ℕ) (sound : IsSound s.pool (members lib s))
      (front : items s.links i ≡ x ∷ xs) (from : li ≤ i) where
    abbrev Taken : Run (ℕ × Buddy lib) → Type 0
    Taken r =
        (r ≡ halted)
        ⊎ ((b : Block) × (s' : Buddy lib) × (r ≡ ok (b.physical_addr, s'))
            × IsSound s'.pool (members lib s')
            × IsHeld s'.pool (members lib s') x (suc (min (i - 1) li)) b)

    pub taken_off :
        (k start : ℕ) (s' : Buddy lib)
        → (r : Reached lib x k start s') → (j e : ℕ)
        → members lib (remove_block lib x s') j e ≡ members_but lib x s' j e
    unfolding remove_block
    taken_off k start s' r j e =
        rw (items-remove r.home.0 x j s'.links r.home.1) (has-without e x (items s'.links j))

    pub removed-IsSound :
        (s' : Buddy lib)
        → IsSound s'.pool (members_but lib x s')
        → ((j e : ℕ) → members lib (remove_block lib x s') j e ≡ members_but lib x s' j e)
        → IsSound (remove_block lib x s').pool (members lib (remove_block lib x s'))
    unfolding remove_block
    removed-IsSound s' h off =
        IsSound-same s'.pool (members_but lib x s') (members lib (remove_block lib x s')) off h

    pub removed-IsHeld :
        {b : Block} {k : ℕ} (s' : Buddy lib)
        → IsHeld s'.pool (members_but lib x s') x k b
        → ((j e : ℕ) → members lib (remove_block lib x s') j e ≡ members_but lib x s' j e)
        → IsHeld (remove_block lib x s').pool (members lib (remove_block lib x s')) x k b
    unfolding remove_block
    removed-IsHeld s' h off =
        IsHeld-same s'.pool (members_but lib x s') (members lib (remove_block lib x s')) off h

    take_front-Taken : Taken (take_front lib x li i s)
    unfolding take_front
    take_front-Taken =
        let (b, is, r) = front_Reached s i x xs sound front in
        let several = is.several in
        let index = is.index in
        let down : (i + u64_mod - 1) % u64_mod ≡ i - 1 = omega arith in
        let up : i ≡ suc (i - 1) = omega arith in
        elim (split_from-Reached lib x li b.physical_addr (i - 1) s (rw up at r)) [
          | inl out ↦ inl (rw (down, out))
          | inr (s', run, r') ↦
              let off = taken_off (suc (min (i - 1) li)) b.physical_addr s' r' in
              inr (
                r'.block,
                remove_block lib x s',
                rw (down, run, ◌>>=◌, r'.held.block.held),
                removed-IsSound s' r'.sound off,
                removed-IsHeld s' r'.held off,
              )
        ]

    front_pos : 1 ≤ i
    front_pos = let (b, is, r) = front_Reached s i x xs sound front in is.several

  take_front-Given :
      (s : Buddy lib) (li i x : ℕ) (xs : List ℕ) (r : Run (ℕ × Buddy lib))
      → li ≤ i
      → 1 ≤ i
      → ((k : ℕ) → li ≤ k → k < i → items s.links k ≡ [])
      → items s.links i ≡ x ∷ xs
      → ((r ≡ halted)
          ⊎ ((b : Block) × (s' : Buddy lib) × (r ≡ ok (b.physical_addr, s'))
              × IsSound s'.pool (members lib s')
              × IsHeld s'.pool (members lib s') x (suc (min (i - 1) li)) b))
      → Given li s r
  take_front-Given s li i x xs r from pos empty here (inl out) = inl out
  take_front-Given s li i x xs r from pos empty here (inr (b, s', run, sound, held)) =
      elim (ℕ_discrete i li) [
        | yes same ↦
            let top : suc (min (i - 1) li) ≡ li = omega arith in
            inr (
              inr (
                li,
                x,
                b,
                s',
                run,
                sound,
                rw top at held,
                inl (
                  refl,
                  λ none_left.
                      let clash : [] ≡ x ∷ xs =
                        sym none_left ∙ ap (items s.links) (sym same) ∙ here in
                      cc,
                ),
              ))
        | no above ↦
            let top : suc (min (i - 1) li) ≡ li + 1 = omega arith in
            inr (
              inr (
                li + 1,
                x,
                b,
                s',
                run,
                sound,
                rw top at held,
                inr (refl, empty li (omega arith) (omega arith)),
              ))
      ]

  -- From the list `i` on, all lists from `li` to `i` being empty.
  scan_lists-Given :
      (n li i : ℕ) (s : Buddy lib)
      → IsSound s.pool (members lib s)
      → li ≤ i
      → i + n ≡ 32
      → ((k : ℕ) → li ≤ k → k < i → items s.links k ≡ [])
      → Given li s (scan_lists lib n li i s)
  unfolding scan_lists
  scan_lists-Given zero li i s sound from all empty =
      inr (inl ((λ k lo hi. empty k lo (omega arith)), refl))
  scan_lists-Given (suc n) li i s sound from all empty = elim (List-cases (items s.links i)) [
    | inl none_here ↦
        rw (none_here, scan_lists)
          (scan_lists-Given n li (i + 1) s sound (omega arith) (omega arith) λ k lo hi.
            elim (ℕ_discrete k i) [ yes e ↦ rw e none_here | no ne ↦ empty k lo (omega arith) ])
    | inr (x, xs, here) ↦
        rw (here, scan_lists)
          (take_front-Given s li i x xs (take_front lib x li i s) from
            (front_pos s li i x xs sound here from) empty here
            (take_front-Taken s li i x xs sound here from))
  ]

  -- From the request's own list on. Past the last list nothing is looked at.
  scan_all :
      (li : ℕ) (s : Buddy lib)
      → IsSound s.pool (members lib s)
      → Given li s (scan_lists lib (32 - li) li li s)
  unfolding scan_lists
  scan_all li s sound = elim (Bool-cases (leb li 32)) [
    | inl inside ↦
        scan_lists-Given (32 - li) li li s sound (omega arith) (ground arith)
          (λ k lo hi. absurd (omega arith))
    | inr past ↦
        let rounds : 32 - li ≡ 0 = ground arith in
        let over : 32 ≤ li = ground arith in
        rw rounds (inr (inl ((λ k lo hi. absurd (omega arith)), refl)))
  ]

  -- `get_block` on sound free lists: the machine halts; or
  -- no list from the request's own on has a block, and the result is `NULL` and nothing changes; or
  -- the result is the address of a block that is taken off the lists, shares no page with the blocks
  -- that stay free, and has 2 ^ k pages. `k` is the request's own list if that had a block, else the
  -- list above. The lists stay sound.
  pub get_block_sound :
      (n : ℕ) (s : Buddy lib)
      → n < 2 ^ 63
      → IsSound s.pool (members lib s)
      → (list_index : ℕ) × IsIndex n list_index × Given list_index s (get_block lib n s)
  unfolding get_block
  get_block_sound n s small sound =
      let (li, run, is) = pages_to_buddy_index_total n small in
      (li, is, rw run (scan_all li s sound))

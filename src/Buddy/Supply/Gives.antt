-- ===== src/Buddy/Supply/Gives.antt =====
-- What `get_block` gives, with enough descriptors.
use osvirt_project.Base.{
  ℕ, zero, suc, ◌+◌, ◌-◌, ◌%◌, ◌^◌, ◌≤◌, ◌<◌, ◌≡◌, refl, sym, ◌∙◌, ◌⊎◌, inl, inr, true, some, List,
  ◌∷◌, arith, List-cases, get_elem?, Run, ok, ◌>>=◌, u64_mod,
}
use Prim.Native.Nat.{min}
use osvirt_project.ListLib.{ListLib}
use osvirt_project.Buddy.{Block, Buddy, split_from, remove_block, take_front, scan_lists, get_block}
use osvirt_project.Buddy.Index.{pages_to_buddy_index_total}
use osvirt_project.Buddy.Inv.{IsSound, IsHeld}
use osvirt_project.Buddy.Get.{members, members_but}
use osvirt_project.Buddy.Give.{front_Reached, taken_off, removed-IsSound, removed-IsHeld}
use osvirt_project.Buddy.Budget.{IsEnough}
use osvirt_project.Buddy.Supply.{WasFree, Traced, split_from-Traced, Part-same}

module _ (lib : ListLib) where
  open lib use {items}

  -- A block of 2 ^ k pages that was free, and is no longer: what is free still shares no page with it.
  pub record Supplied (s0 : Buddy lib) (r : Run (ℕ × Buddy lib)) : Type 0 where
    pub left : Buddy lib
    pub block : Block
    pub at : ℕ
    pub order : ℕ
    pub run : r ≡ ok (block.physical_addr, left)
    pub sound : IsSound left.pool (members lib left)
    pub held : IsHeld left.pool (members lib left) at order block
    pub enough : IsEnough left.pool
    pub was : WasFree lib s0 block
    pub all :
        (j e : ℕ) (c : Block)
        → members lib left j e ≡ true
        → get_elem? left.pool e ≡ some c
        → WasFree lib s0 c

  take_front-run :
      (x li i j : ℕ) (s s' : Buddy lib) (b : Block)
      → (i + u64_mod - 1) % u64_mod ≡ j
      → split_from lib x li j s ≡ ok s'
      → get_elem? s'.pool x ≡ some b
      → take_front lib x li i s ≡ ok (b.physical_addr, remove_block lib x s')
  unfolding take_front
  take_front-run x li i j s s' b down run held = rw (take_front, down, run, ◌>>=◌, held) refl

  take_front-Supplied :
      (s : Buddy lib) (li i x : ℕ) (xs : List ℕ)
      → IsSound s.pool (members lib s)
      → IsEnough s.pool
      → items s.links i ≡ x ∷ xs
      → li ≤ i
      → Supplied s (take_front lib x li i s)
  unfolding remove_block
  take_front-Supplied s li i x xs sound enough front from =
      let (b, is, r) = front_Reached lib s i x xs sound front in
      let several = is.several in
      let index = is.index in
      let down : (i + u64_mod - 1) % u64_mod ≡ i - 1 = omega arith in
      let up : i ≡ suc (i - 1) = omega arith in
      let t : Traced lib s x i b.physical_addr s = record {
        reached = r;
        enough = enough;
        all = λ j e c listed at. (j, e, c, listed, at, Part-same c);
      } in
      let (s', run, t') = split_from-Traced lib s s x li b.physical_addr (i - 1) (rw up at t) in
      let r' = t'.reached in
      let off =
        taken_off lib s li i x xs sound front from (suc (min (i - 1) li)) b.physical_addr s' r' in
      record {
        left = remove_block lib x s';
        block = r'.block;
        at = x;
        order = suc (min (i - 1) li);
        run = take_front-run x li i (i - 1) s s' r'.block down run r'.held.block.held;
        sound = removed-IsSound lib s li i x xs sound front from s' r'.sound off;
        held = removed-IsHeld lib s li i x xs sound front from s' r'.held off;
        enough = t'.enough;
        was = t'.all r'.home.0 x r'.block r'.home.1 r'.held.block.held;
        all = λ j e c listed at.
            let but : members_but lib x s' j e ≡ true = sym (off j e) ∙ listed in
            let old : members lib s' j e ≡ true = ground arith in t'.all j e c old at;
      }

  scan_lists-Supplied :
      (n li i : ℕ) (s : Buddy lib)
      → IsSound s.pool (members lib s)
      → IsEnough s.pool
      → li ≤ i
      → (scan_lists lib n li i s ≡ ok (0, s)) ⊎ Supplied s (scan_lists lib n li i s)
  unfolding scan_lists
  scan_lists-Supplied zero li i s sound enough from = inl refl
  scan_lists-Supplied (suc n) li i s sound enough from = elim (List-cases (items s.links i)) [
    | inl none_here ↦
        rw (scan_lists, none_here) (scan_lists-Supplied n li (i + 1) s sound enough (omega arith))
    | inr (x, xs, here) ↦
        rw (scan_lists, here) (inr (take_front-Supplied s li i x xs sound enough here from))
  ]

  -- `get_block` on sound free lists, with as many descriptors in the pool as those in use have pages, does not halt: it returns
  -- `NULL` and changes nothing, or a block all of whose pages were free, and that shares none with the
  -- blocks that are free then, which were free before. The lists stay sound, and the descriptors enough.
  pub get_block-Supplied :
      (n : ℕ) (s : Buddy lib)
      → n < 2 ^ 63
      → IsSound s.pool (members lib s)
      → IsEnough s.pool
      → (get_block lib n s ≡ ok (0, s)) ⊎ Supplied s (get_block lib n s)
  unfolding get_block
  get_block-Supplied n s small sound enough =
      let (li, run, is) = pages_to_buddy_index_total n small in
      rw run (scan_lists-Supplied (32 - li) li li s sound enough (omega arith))

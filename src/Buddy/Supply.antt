-- ===== src/Buddy/Supply.antt =====
-- `get_block` with enough descriptors: it does not halt, and what it gives was free before.
pub mod Gives
use osvirt_project.Base.{
  ℕ, zero, suc, ◌+◌, ◌-◌, ◌*◌, ◌/◌, ◌%◌, ◌^◌, ◌≤◌, ◌<◌, ◌≡◌, ◌≢◌, refl, sym, ap, subst, ◌∙◌, ◌⊎◌,
  inl, inr, Bool, true, false, ◌&&◌, ◌||◌, not, some, none, List, [], ◌∷◌, arith, ◌==◌, ltb, leb,
  Bool-cases, List-cases, get_elem?, set, get_elem?-set_ne, get_elem?-set_self, Run, ok, ◌>>=◌,
  u64_mod, page_size,
}
use Prim.Native.Nat.{min}
use native.Mathlib.Decide.{ℕ_discrete}
use osvirt_project.ListLib.{ListLib, has}
use osvirt_project.Buddy.{
  Block, Buddy, request_buddy, split_once, split_from, remove_block, take_front, scan_lists,
  get_block, pages_to_buddy_index,
}
use osvirt_project.Buddy.Index.{pow_pos, IsIndex, pages_to_buddy_index_total}
use osvirt_project.Buddy.Pool.{find-Found}
use osvirt_project.Buddy.Inv.{block_end, IsBlock, IsSound, IsHeld, lower_half, upper_half}
use osvirt_project.Buddy.Split.{Halves, halves, at_y}
use osvirt_project.Buddy.Get.{
  members, members_but, Reached, after, y≢x, members-after, M', pushed, round_Reached,
}
use osvirt_project.Buddy.Give.{front_Reached, taken_off, removed-IsSound, removed-IsHeld}
use osvirt_project.Buddy.Budget.{IsEnough, request_buddy-some, IsEnough-split}

-- The pages of `c` are pages of `b`.
pub record Part (c b : Block) : Type 0 where
  pub from : (i : ℕ) × (c.physical_addr ≡ b.physical_addr + i * page_size)
  pub to : block_end c ≤ block_end b

pub Part-same : (b : Block) → Part b b
Part-same b = record { from = (0, omega arith); to = omega arith }

Part-trans : (a b c : Block) → Part a b → Part b c → Part a c
Part-trans a b c p q =
    let (i, e) = p.from in
    let (j, e') = q.from in
    let near = p.to in let far = q.to in record { from = (i + j, omega arith); to = omega arith }

Part-lower : (b : Block) (d : ℕ) → Halves b d → Part (lower_half b) b
Part-lower b d h =
    let size = h.size in let whole = h.whole in record { from = (0, omega arith); to = omega arith }

Part-upper : (b : Block) (d : ℕ) → Halves b d → Part (upper_half b) b
Part-upper b d h =
    let size = h.size in
    let whole = h.whole in let upper = h.upper in record { from = (2 ^ d, upper); to = omega arith }

module _ (lib : ListLib) where
  open lib use {items}

  -- The block is a part of one that is free in `s`.
  abbrev pub WasFree : Buddy lib → Block → Type 0
  WasFree s c =
      (k e : ℕ) × (b : Block) × (members lib s k e ≡ true)
      × (get_elem? s.pool e ≡ some b)
      × Part c b

  WasFree-Part : (s : Buddy lib) (c b : Block) → Part c b → WasFree s b → WasFree s c
  WasFree-Part s c b p (k, e, a, listed, held, part) =
      (k, e, a, listed, held, Part-trans c b a p part)

  -- A part of the split loop that began in the state `s0`.
  pub record Traced (s0 : Buddy lib) (x k start : ℕ) (s : Buddy lib) : Type 0 where
    pub reached : Reached lib x k start s
    pub enough : IsEnough s.pool
    pub all :
        (j e : ℕ) (c : Block)
        → members lib s j e ≡ true
        → get_elem? s.pool e ≡ some c
        → WasFree s0 c

  -- A block that is free after a round of the loop was free before, or is a half.
  old_or_new :
      (s0 s : Buddy lib) (x d y : ℕ) (b z c : Block) (j e : ℕ) (pos : 1 ≤ d)
      (sound : IsSound s.pool (members_but lib x s))
      (held : IsHeld s.pool (members_but lib x s) x (suc d) b) (got : request_buddy s.pool ≡ some y)
      (free : get_elem? s.pool y ≡ some z) (unused : z.physical_addr ≡ 0)
      → Halves b d
      → WasFree s0 b
      → ((j e : ℕ) (c : Block)
          → members lib s j e ≡ true
          → get_elem? s.pool e ≡ some c
          → WasFree s0 c)
      → members lib (after lib x d s pos b z y sound held got free unused) j e ≡ true
      → get_elem? (after lib x d s pos b z y sound held got free unused).pool e ≡ some c
      → WasFree s0 c
  old_or_new s0 s x d y b z c j e pos sound held got free unused h here all listed at =
      let s' = after lib x d s pos b z y sound held got free unused in
      let ne = y≢x lib x d s pos b z y sound held got free unused in
      elim (Bool-cases (e == x)) [
        | inl at_x ↦
            let same : e ≡ x = ground arith in
            let before = get_elem?-set_ne s.pool y x (upper_half b) ne ∙ held.block.held in
            let read : some (lower_half b) ≡ some c =
              sym (get_elem?-set_self (set s.pool y (upper_half b)) x (lower_half b) b before)
              ∙ (rw same at at) in
            let is : lower_half b ≡ c = cc in
            subst (WasFree s0) is (WasFree-Part s0 (lower_half b) b (Part-lower b d h) here)
        | inr not_x ↦
            let listed_but : members_but lib x s' j e ≡ true = ground arith in
            let now : (members_but lib x s j e || ((j == d) && (e == y))) ≡ true =
              sym (members-after lib x d s pos b z y sound held got free unused j e) ∙ listed_but in
            elim (Bool-cases (e == y)) [
              | inl new ↦
                  let same : e ≡ y = ground arith in
                  let there =
                    at_y s.pool (members_but lib x s)
                      (M' lib x d s pos b z y sound held got free unused) x y d b z sound held pos
                      free unused (λ k e. refl) in
                  let read : some (upper_half b) ≡ some c = sym there ∙ (rw same at at) in
                  let is : upper_half b ≡ c = cc in
                  subst (WasFree s0) is (WasFree-Part s0 (upper_half b) b (Part-upper b d h) here)
              | inr old ↦
                  let was : members lib s j e ≡ true = ground arith in
                  let ne_x : x ≢ e = λ same. ground arith in
                  let ne_y : y ≢ e = λ same. ground arith in
                  all j e c was (
                    sym (get_elem?-set_ne s.pool y e (upper_half b) ne_y)
                    ∙ (sym (get_elem?-set_ne (set s.pool y (upper_half b)) x e (lower_half b) ne_x)
                        ∙ at))
            ]
      ]

  split_once-Traced :
      (s0 s : Buddy lib) (x d start : ℕ)
      → 1 ≤ d
      → Traced s0 x (suc d) start s
      → (s' : Buddy lib) × (split_once lib x s ≡ ok s') × Traced s0 x d start s'
  unfolding request_buddy
  split_once-Traced s0 s x d start pos t =
      let r = t.reached in
      let b = r.block in
      let h = halves s.pool x d b r.held.block in
      let whole = h.whole in
      let half = h.size in
      let here = t.all r.home.0 x b r.home.1 r.held.block.held in
      let several : 2 ≤ b.size = omega (arith, pow_pos d) in
      let (y, hit) = request_buddy-some s.pool x b t.enough r.held.block.held several in
      let f = find-Found s.pool 0 y hit in
      let s' = after lib x d s pos b f.block y r.sound r.held hit f.held f.match in
      let ne = y≢x lib x d s pos b f.block y r.sound r.held hit f.held f.match in
      (
        s',
        pushed lib x d s pos b f.block y r.sound r.held hit f.held f.match,
        record {
          reached =
              round_Reached lib x d s pos b f.block y r.sound r.held hit f.held f.match start
                r.starts r.home;
          enough =
              IsEnough-split s.pool x y b f.block (lower_half b) (upper_half b) t.enough ne
                r.held.block.held f.held f.match (r.held.block.used, omega arith)
                (omega (arith, pow_pos d), omega (arith, pow_pos d));
          all = λ j e c listed at.
              old_or_new s0 s x d y b f.block c j e pos r.sound r.held hit f.held f.match h here
                t.all listed at;
        },
      )

  pub split_from-Traced :
      (s0 s : Buddy lib) (x li start j : ℕ)
      → Traced s0 x (suc j) start s
      → (s' : Buddy lib) × (split_from lib x li j s ≡ ok s') × Traced s0 x (suc (min j li)) start s'
  unfolding split_from
  split_from-Traced s0 s x li start zero t = let e : min 0 li ≡ 0 = omega arith in (s, refl, rw e t)
  split_from-Traced s0 s x li start (suc j) t = elim (Bool-cases (ltb li (suc j))) [
    | inr stop ↦ let e : min (suc j) li ≡ suc j = ground arith in (s, rw (stop, split_from), rw e t)
    | inl more ↦
        let (s1, run, t1) = split_once-Traced s0 s x (suc j) start (omega arith) t in
        let (s2, rest, t2) = split_from-Traced s0 s1 x li start j t1 in
        let e : min (suc j) li ≡ min j li = ground arith in
        (s2, rw (more, split_from, run, ◌>>=◌, rest) refl, rw e t2)
  ]

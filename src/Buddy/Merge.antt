-- ===== src/Buddy/Merge.antt =====
-- One merge of `free_block` on the invariant: the lower of two buddies goes on with twice the size.
use native.Mathlib.Nat.{two-pow-succ}
use osvirt_project.Base.{
  ℕ, suc, ◌+◌, ◌*◌, ◌^◌, ◌≤◌, ◌<◌, ◌≡◌, ◌≢◌, ap, sym, subst, ◌∙◌, Bool, true, false, some, List,
  arith, get_elem?, get_elem?-set_self, get_elem?-set_ne, set, page_size, u64_mod,
}
use osvirt_project.Buddy.{Block}
use osvirt_project.Buddy.Index.{pow_pos}
use osvirt_project.Buddy.Inv.{block_end, Apart, IsBlock, IsSound, IsHeld}

module _ (pool : List Block) (M : ℕ → ℕ → Bool) (lo k : ℕ) (l u d : Block) (sound : IsSound pool M)
    (block : IsBlock pool lo k l) (absent : (k' : ℕ) → M k' lo ≡ false)
    (next : u.physical_addr ≡ l.physical_addr + 2 ^ k * page_size) (u_size : u.size ≡ 2 ^ k)
    (apart : (k' e : ℕ) (b' : Block)
      → M k' e ≡ true
      → get_elem? pool e ≡ some b'
      → Apart l b' × Apart u b')
    (start : d.physical_addr ≡ l.physical_addr) (twice : d.size ≡ 2 ^ suc k)
    (below : block_end d ≤ u64_mod) (small : suc k < 32) where
  abbrev pub merged : List Block
  merged = set pool lo d

  other : (k' e : ℕ) → M k' e ≡ true → lo ≢ e
  other k' e on same =
      let off = absent k' in let on' : M k' lo ≡ true = ap (M k') same ∙ on in absurd (ground arith)

  same_at : (k' e : ℕ) → M k' e ≡ true → get_elem? merged e ≡ get_elem? pool e
  same_at k' e on = get_elem?-set_ne pool lo e d (other k' e on)

  pub merged-IsSound : IsSound merged M
  merged-IsSound = record {
    entry = λ k' e on.
        let (b, is) = sound.entry k' e on in
        (
          b,
          record {
            held = same_at k' e on ∙ is.held;
            size = is.size;
            used = is.used;
            below = is.below;
            several = is.several;
            index = is.index;
          },
        );
    apart = λ k' e k'' e' b b' on on' ne got got'.
        sound.apart k' e k'' e' b b' on on' ne (sym (same_at k' e on) ∙ got)
          (sym (same_at k'' e' on') ∙ got');
  }

  pub merged-IsHeld : IsHeld merged M lo (suc k) d
  merged-IsHeld = record {
    block = record {
      held = get_elem?-set_self pool lo d l block.held;
      size = twice;
      used = (let used = block.used in λ e. used (omega arith));
      below = below;
      several = omega arith;
      index = small;
    };
    absent = absent;
    alone = λ k' e b' on got.
        let (is_l, is_u) = apart k' e b' on (sym (same_at k' e on) ∙ got) in
        let (c, is) = sound.entry k' e on in
        let same : some b' ≡ some c = sym (sym (same_at k' e on) ∙ got) ∙ is.held in
        let size = is.size in
        let some_page : 0 < c.size = omega (arith, pow_pos k') in
        let whole = two-pow-succ k in
        let size_l = block.size in
        let eq : b' ≡ c = cc in
        let some_page' : 0 < b'.size = subst (λ (x : Block). 0 < x.size) (sym eq) some_page in
        omega arith;
  }

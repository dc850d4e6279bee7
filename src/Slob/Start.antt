-- ===== src/Slob/Start.antt =====
-- The slob allocator from `slob_init` on.
use osvirt_project.Base.{
  ℕ, ◌+◌, ◌*◌, ◌/◌, ◌≤◌, ◌<◌, ◌≡◌, ◌≢◌, refl, sym, ap, subst, ◌∙◌, ◌⊎◌, inl, Bool, true, false,
  ◌||◌, none, List, [], arith, ◌==◌, ne→==, ltb, Run, ok, ◌>>=◌, u64_mod, page_size,
}
use osvirt_project.ListLib.{ListLib, has}
use osvirt_project.Slob.{
  SlobType, small, medium, large, index, Bounds, Slob, kmalloc, init_slob_list, init_from,
  slob_init,
}
use osvirt_project.Slob.Areas.{bounds_of, IsBlock, HasAreas}
use osvirt_project.Slob.Requests.{Request, Client, serve_all}
use osvirt_project.Slob.Kept.{IsKept, index-one}
use osvirt_project.Slob.Setup.{IsPart, added-IsPart, added-bounds, added-bounds_other}
use osvirt_project.Slob.Safety.{Got, IsApart, serve_all-IsKept}

-- The area of the smaller blocks lies before the other, or behind it and not right behind it.
abbrev pub IsBeside : (n b c : ℕ) → Type 0
IsBeside n b c = (b + n * page_size ≤ c) ⊎ (c + n * page_size < b)

-- The three areas of some pages each.
pub record IsPlaced (n b1 b2 b3 : ℕ) : Type 0 where
  pub some_area : (b1 ≢ 0) × (b2 ≢ 0) × (b3 ≢ 0)
  pub below :
      (b1 + n * page_size < u64_mod)
      × (b2 + n * page_size < u64_mod)
      × (b3 + n * page_size < u64_mod)
  pub beside : IsBeside n b1 b2 × IsBeside n b1 b3 × IsBeside n b2 b3

module _ (lib : ListLib) (n b1 b2 b3 : ℕ) (s : Slob lib) (placed : IsPlaced n b1 b2 b3)
    (empty : (k : ℕ) → ListLib.items lib s.links k ≡ []) where
  abbrev with_none : SlobType → Bool
  with_none u = false

  abbrev with_small : SlobType → Bool
  with_small u = with_none u || (index u == index small)

  abbrev with_medium : SlobType → Bool
  with_medium u = with_small u || (index u == index medium)

  abbrev with_large : SlobType → Bool
  with_large u = with_medium u || (index u == index large)

  abbrev pub s1 : Slob lib
  s1 = init_slob_list lib b1 n small s

  abbrev pub s2 : Slob lib
  s2 = init_slob_list lib b2 n medium s1

  abbrev pub s3 : Slob lib
  s3 = init_slob_list lib b3 n large s2

  abbrev area : ℕ → Bounds
  area b = record { low = b; high = b + n * page_size }

  part0 : IsPart lib with_none s
  unfolding has
  part0 = record {
    lists = λ k a h. let out = ap (has a) (empty k) in absurd cc;
    full = λ t a h b. absurd cc;
  }

  below1 : b1 + n * page_size < u64_mod
  below1 = placed.below.0

  apart1 :
      (u : SlobType)
      → with_none u ≡ true
      → ((bounds_of lib u s).high ≤ b1) ⊎ (b1 + n * page_size ≤ (bounds_of lib u s).low)
  apart1 u h = absurd cc

  part1 : IsPart lib with_small s1
  part1 = added-IsPart lib b1 n small with_none s part0 below1 refl apart1

  small1 : bounds_of lib small s1 ≡ area b1
  small1 = added-bounds lib b1 n small with_none s part0 below1 refl apart1

  below2 : b2 + n * page_size < u64_mod
  below2 = placed.below.1

  apart2 :
      (u : SlobType)
      → with_small u ≡ true
      → ((bounds_of lib u s1).high ≤ b2) ⊎ (b2 + n * page_size ≤ (bounds_of lib u s1).low)
  apart2 small h = rw small1 (let beside = placed.beside.0 in omega arith)
  apart2 medium h = absurd cc
  apart2 large h = absurd cc

  part2 : IsPart lib with_medium s2
  part2 = added-IsPart lib b2 n medium with_small s1 part1 below2 refl apart2

  kept2 : (u : SlobType) → index u ≢ 1 → bounds_of lib u s2 ≡ bounds_of lib u s1
  kept2 = added-bounds_other lib b2 n medium with_small s1 part1 below2 refl apart2

  small2 : bounds_of lib small s2 ≡ area b1
  small2 = kept2 small (λ e. omega arith) ∙ small1

  medium2 : bounds_of lib medium s2 ≡ area b2
  medium2 = added-bounds lib b2 n medium with_small s1 part1 below2 refl apart2

  below3 : b3 + n * page_size < u64_mod
  below3 = placed.below.2

  apart3 :
      (u : SlobType)
      → with_medium u ≡ true
      → ((bounds_of lib u s2).high ≤ b3) ⊎ (b3 + n * page_size ≤ (bounds_of lib u s2).low)
  apart3 small h = rw small2 (let beside = placed.beside.1 in omega arith)
  apart3 medium h = rw medium2 (let beside = placed.beside.2 in omega arith)
  apart3 large h = absurd cc

  part3 : IsPart lib with_large s3
  part3 = added-IsPart lib b3 n large with_medium s2 part2 below3 refl apart3

  kept3 : (u : SlobType) → index u ≢ 2 → bounds_of lib u s3 ≡ bounds_of lib u s2
  kept3 = added-bounds_other lib b3 n large with_medium s2 part2 below3 refl apart3

  small3 : bounds_of lib small s3 ≡ area b1
  small3 = kept3 small (λ e. omega arith) ∙ small2

  medium3 : bounds_of lib medium s3 ≡ area b2
  medium3 = kept3 medium (λ e. omega arith) ∙ medium2

  large3 : bounds_of lib large s3 ≡ area b3
  large3 = added-bounds lib b3 n large with_medium s2 part2 below3 refl apart3

  all_areas : HasAreas lib s3
  all_areas = record { some_low = some_low; apart = apart }
    where
      some_low : (t : SlobType) → (bounds_of lib t s3).low ≢ 0
      some_low small = rw small3 placed.some_area.0
      some_low medium = rw medium3 placed.some_area.1
      some_low large = rw large3 placed.some_area.2

      apart :
          (t u : SlobType)
          → index t < index u
          → ((bounds_of lib t s3).high ≤ (bounds_of lib u s3).low)
            ⊎ ((bounds_of lib u s3).high < (bounds_of lib t s3).low)
      apart small medium lt = rw (small3, medium3) placed.beside.0
      apart small large lt = rw (small3, large3) placed.beside.1
      apart medium large lt = rw (medium3, large3) placed.beside.2
      apart small small lt = absurd (omega arith)
      apart medium medium lt = absurd (omega arith)
      apart large large lt = absurd (omega arith)
      apart medium small lt = absurd (omega arith)
      apart large small lt = absurd (omega arith)
      apart large medium lt = absurd (omega arith)

  with_all : (t : SlobType) → with_large t ≡ true
  with_all small = refl
  with_all medium = refl
  with_all large = refl

  pub all-IsKept : IsKept lib (record { slob = s3; held = λ a. none })
  all-IsKept = record {
    areas = all_areas;
    free = λ t a h.
        let (u, one, filled, block) = part3.lists (index t) a h in
        (subst (λ v. IsBlock lib v a s3) (sym (index-one t u one)) block, refl);
    lists = λ k a h. let (u, one, filled, block) = part3.lists k a h in (u, one);
    holds = λ a m h. absurd cc;
    complete = λ t a b. inl (part3.full t a (with_all t) b);
  }

-- `slob_init` for 3 pages or more, where no list has an element yet, and where `get_block` returns
-- three blocks whose first pages do not overlap, none starting where those for larger blocks end:
-- it returns, and then requests of any number and order are served without a fault. After them each
-- block is held or in the list of its type, no two of the payloads that are held overlap, and
-- `kmalloc` returns `NULL` or a block that is not held.
pub slob_init-IsApart :
    (lib : ListLib) {P : Type 0} (get_block : ℕ → P → Run (ℕ × P)) (n : ℕ) (s : Slob lib) (p : P)
    (r1 r2 r3 : ℕ × P) (requests : List Request)
    → 3 ≤ n
    → ((k : ℕ) → ListLib.items lib s.links k ≡ [])
    → get_block (n / 3) p ≡ ok r1
    → get_block (n / 3) r1.1 ≡ ok r2
    → get_block (n / 3) r2.1 ≡ ok r3
    → IsPlaced (n / 3) r1.0 r2.0 r3.0
    → (t : Slob lib) × (slob_init lib get_block n (s, p) ≡ ok (t, r3.1))
      × (d : Client lib) × (serve_all lib requests (record { slob = t; held = λ a. none }) ≡ ok d)
      × IsKept lib d
      × IsApart lib d
      × ((size : ℕ) → Got lib size d (kmalloc lib size d.slob))
unfolding slob_init init_from
slob_init-IsApart lib get_block n s p r1 r2 r3 requests enough empty got1 got2 got3 placed =
    let (some1, some2, some3) = placed.some_area in
    let many : ltb n 3 ≡ false = ground arith in
    let (d, runs, kept, apart, gives) =
      serve_all-IsKept lib requests
        (record { slob = s3 lib (n / 3) r1.0 r2.0 r3.0 s placed empty; held = λ a. none })
        (all-IsKept lib (n / 3) r1.0 r2.0 r3.0 s placed empty) in
    (
      s3 lib (n / 3) r1.0 r2.0 r3.0 s placed empty,
      rw
          (
            slob_init,
            many,
            init_from,
            got1,
            ◌>>=◌,
            ne→== r1.0 0 some1,
            got2,
            ne→== r2.0 0 some2,
            got3,
            ne→== r3.0 0 some3,
          )
          refl,
      d,
      runs,
      kept,
      apart,
      gives,
    )

-- ===== src/Slob/Tests.antt =====
-- The slob allocator with two small blocks and a medium one.
use osvirt_project.Base.{
  ℕ, ◌+◌, ◌*◌, ◌≡◌, ◌≢◌, refl, false, true, none, List, [], ◌∷◌, arith, if◌then◌else◌, ◌==◌, Run,
  ok, page_size,
}
use osvirt_project.ListLib.{has}
use osvirt_project.ListLib.Sequences.{sequences}
use osvirt_project.Slob.{SlobType, small, medium, large, index, Slob, kmalloc, slob_init}
use osvirt_project.Slob.Requests.{Request, malloc, free, realloc, Client, serve_all}
use osvirt_project.Slob.Kept.{IsKept}
use osvirt_project.Slob.Safety.{Got, IsApart}
use osvirt_project.Slob.Start.{IsPlaced, slob_init-IsApart}
use osvirt_project.Slob.Alloc.{Took, kmalloc_lem}

abbrev blocks : ℕ → List ℕ
blocks k = if k == 0 then 0x1000 ∷ 0x1100 ∷ [] else if k == 1 then 0x2000 ∷ [] else []

abbrev start : Slob sequences
start = record {
  links = blocks;
  size = λ a. 256;
  small_bounds = record { low = 0x1000; high = 0x2000 };
  medium_bounds = record { low = 0x2000; high = 0x3000 };
  large_bounds = record { low = 0x3000; high = 0x4000 };
}

blocks-once :
    (t : SlobType) (e : ℕ) (rest : List ℕ) → blocks (index t) ≡ e ∷ rest → has e rest ≡ false
unfolding has
blocks-once small e rest h = ground arith
blocks-once medium e rest h = ground arith
blocks-once large e rest h = ground arith

blocks-one :
    (t : SlobType) (k e : ℕ)
    → has e (blocks (index t)) ≡ true
    → k ≢ index t
    → has e (blocks k) ≡ false
unfolding has
blocks-one small k e h ne = ground arith
blocks-one medium k e h ne = ground arith
blocks-one large k e h ne = ground arith

kmalloc_lem_example : Took sequences 200 start (kmalloc sequences 200 start)
kmalloc_lem_example =
    kmalloc_lem sequences 200 start (record { once = blocks-once; one = blocks-one })

-- Pages from an address on.
abbrev next_block : ℕ → ℕ → Run (ℕ × ℕ)
next_block n p = ok (p, p + n * page_size)

abbrev nothing : Slob sequences
nothing = record {
  links = λ k. [];
  size = λ a. 0;
  small_bounds = record { low = 0; high = 0 };
  medium_bounds = record { low = 0; high = 0 };
  large_bounds = record { low = 0; high = 0 };
}

abbrev some_requests : List Request
some_requests = malloc 100 ∷ malloc 2000 ∷ realloc 0x1000 600 ∷ free 0x3000 ∷ []

nothing-IsPlaced : IsPlaced 1 0x1000 0x2000 0x3000
nothing-IsPlaced = record {
  some_area = (λ e. omega arith, λ e. omega arith, λ e. omega arith);
  below = (omega arith, omega arith, omega arith);
  beside = (omega arith, omega arith, omega arith);
}

slob_init-IsApart_example :
    (t : Slob sequences) × (slob_init sequences next_block 3 (nothing, 0x1000) ≡ ok (t, 0x4000))
    × (d : Client sequences) × (serve_all sequences some_requests
          (record { slob = t; held = λ a. none })
        ≡ ok d)
    × IsKept sequences d
    × IsApart sequences d
    × ((size : ℕ) → Got sequences size d (kmalloc sequences size d.slob))
slob_init-IsApart_example =
    slob_init-IsApart sequences next_block 3 nothing 0x1000 (0x1000, 0x2000) (0x2000, 0x3000)
      (0x3000, 0x4000) some_requests (omega arith) (λ k. refl) refl refl refl nothing-IsPlaced

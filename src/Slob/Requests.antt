-- ===== src/Slob/Requests.antt =====
-- A part of the kernel that calls the slob allocator, with the sizes it has asked for at the addresses
-- that it holds.
use osvirt_project.Base.{ℕ, Option, none, some, List, [], ◌∷◌, if◌then◌else◌, ◌==◌, Run, ok, ◌>>=◌}
use osvirt_project.ListLib.{ListLib}
use osvirt_project.Slob.{Slob, kmalloc, kfree, krealloc}

pub data Request : Type 0 where
  malloc : ℕ → Request
  free : ℕ → Request
  realloc : (addr size : ℕ) → Request

abbrev pub grant : (a size : ℕ) → (ℕ → Option ℕ) → ℕ → Option ℕ
grant a size held q = if q == a then some size else held q

abbrev pub give_back : ℕ → (ℕ → Option ℕ) → ℕ → Option ℕ
give_back a held q = if q == a then none else held q

module _ (lib : ListLib) where
  pub record Client : Type 0 where
    pub slob : Slob lib
    pub held : ℕ → Option ℕ

  -- What `kmalloc` has returned.
  abbrev pub received : ℕ → (ℕ → Option ℕ) → ℕ × Slob lib → Client
  received size held r = record {
    slob = r.1;
    held = if r.0 == 0 then held else grant r.0 size held;
  }

  -- The client gives back, or has replaced, only what it holds.
  unfoldable pub serve : Request → Client → Run Client
  serve (malloc size) c = ok (received size c.held (kmalloc lib size c.slob))
  serve (free a) c = elim (c.held a) [
    | none ↦ ok c
    | some n ↦ kfree lib a c.slob >>= λ s. ok (record { slob = s; held = give_back a c.held })
  ]
  serve (realloc a size) c = elim (c.held a) [
    | none ↦ ok c
    | some n ↦ krealloc lib a size c.slob >>= λ r. ok (received size (give_back a c.held) r)
  ]

  unfoldable pub serve_all : List Request → Client → Run Client
  serve_all [] c = ok c
  serve_all (q ∷ qs) c = serve q c >>= serve_all qs

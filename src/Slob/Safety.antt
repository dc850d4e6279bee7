-- ===== src/Slob/Safety.antt =====
-- Requests to the slob allocator in any order.
use osvirt_project.Base.{
  ℕ, ◌+◌, ◌≤◌, ◌≡◌, ◌≢◌, refl, ap, ◌∙◌, ◌⊎◌, inl, inr, none, some, List, [], ◌∷◌, arith,
  Option-cases, List-cases, ne→==, ok, ◌>>=◌,
}
use osvirt_project.ListLib.{ListLib, has}
use osvirt_project.Slob.{
  index, Slob, class_of, add_blk, slob_alloc, slob_free, kmalloc, kfree, krealloc,
}
use osvirt_project.Slob.Areas.{type_of-block, block-some, blocks-apart}
use osvirt_project.Slob.Alloc.{has-front, class-holds}
use osvirt_project.Slob.Requests.{
  Request, malloc, free, realloc, grant, give_back, Client, received, serve, serve_all,
}
use osvirt_project.Slob.Kept.{IsKept, IsKept-taken, IsKept-freed}

module _ (lib : ListLib) where
  open lib use {items, list_remove}

  -- What `kmalloc` returns: `NULL`, with nothing changed, or a block that nobody holds.
  pub Got : (size : ℕ) → Client lib → ℕ × Slob lib → Type 0
  Got size c r =
      (r ≡ (0, c.slob))
      ⊎ ((r.0 ≢ 0)
          × (c.held r.0 ≡ none)
          × IsKept lib (record { slob = r.1; held = grant r.0 size c.held }))

  kmalloc-Got : (size : ℕ) (c : Client lib) → IsKept lib c → Got size c (kmalloc lib size c.slob)
  unfolding kmalloc slob_alloc Got
  kmalloc-Got size c kept = elim (Option-cases (class_of size)) [
    | inl none_fits ↦ inl (rw (kmalloc, slob_alloc, none_fits) refl)
    | inr (t, fits) ↦ elim (List-cases (items c.slob.links (index t))) [
      | inl empty ↦ inl (rw (kmalloc, slob_alloc, fits, empty) refl)
      | inr (e, rest, front) ↦
          let here = ap (has e) front ∙ has-front e rest in
          let (block, unheld) = kept.free t e here in
          rw (kmalloc, slob_alloc, fits, front)
            (inr (
              block-some lib t e c.slob kept.areas block,
              unheld,
              IsKept-taken lib c kept t e size here (class-holds lib size t fits),
            ))
    ]
  ]

  received-IsKept :
      (size : ℕ) (c : Client lib)
      → IsKept lib c
      → IsKept lib (received lib size c.held (kmalloc lib size c.slob))
  unfolding Got
  received-IsKept size c kept = elim (kmalloc-Got size c kept) [
    | inl null ↦ rw null kept
    | inr (some_block, unheld, kept') ↦ rw (ne→== (kmalloc lib size c.slob).0 0 some_block) kept'
  ]

  pub kfree-keeps :
      (a n : ℕ) (c : Client lib)
      → IsKept lib c
      → c.held a ≡ some n
      → (s : Slob lib) × (kfree lib a c.slob ≡ ok s)
        × IsKept lib (record { slob = s; held = give_back a c.held })
  unfolding kfree slob_free
  kfree-keeps a n c kept held =
      let (t, block, small_enough) = kept.holds a n held in
      (
        add_blk lib t a c.slob,
        rw (kfree, slob_free, type_of-block lib t a c.slob kept.areas block) refl,
        IsKept-freed lib c kept t a n held block,
      )

  serve-IsKept :
      (q : Request) (c : Client lib)
      → IsKept lib c
      → (d : Client lib) × (serve lib q c ≡ ok d) × IsKept lib d
  unfolding serve krealloc
  serve-IsKept (malloc size) c kept =
      (received lib size c.held (kmalloc lib size c.slob), refl, received-IsKept size c kept)
  serve-IsKept (free a) c kept = elim (Option-cases (c.held a)) [
    | inl out ↦ (c, rw (serve, out) refl, kept)
    | inr (n, held) ↦
        let (s, run, kept') = kfree-keeps a n c kept held in
        (record { slob = s; held = give_back a c.held }, rw (serve, held, run, ◌>>=◌) refl, kept')
  ]
  serve-IsKept (realloc a size) c kept = elim (Option-cases (c.held a)) [
    | inl out ↦ (c, rw (serve, out) refl, kept)
    | inr (n, held) ↦
        let (s, run, kept') = kfree-keeps a n c kept held in
        (
          received lib size (give_back a c.held) (kmalloc lib size s),
          rw (serve, held, krealloc, run, ◌>>=◌) refl,
          received-IsKept size (record { slob = s; held = give_back a c.held }) kept',
        )
  ]

  -- The payloads that are held do not overlap.
  pub IsApart : Client lib → Type 0
  IsApart c =
      (a b m n : ℕ) → c.held a ≡ some m → c.held b ≡ some n → a ≢ b → (a + m ≤ b) ⊎ (b + n ≤ a)

  IsKept-IsApart : (c : Client lib) → IsKept lib c → IsApart c
  unfolding IsApart
  IsKept-IsApart c kept a b m n held held' ne =
      let (t, x, small_enough) = kept.holds a m held in
      let (u, y, small_enough') = kept.holds b n held' in
      elim (blocks-apart lib t u a b c.slob kept.areas x y ne) [
        | inl before ↦ inl (omega arith)
        | inr behind ↦ inr (omega arith)
      ]

  -- On ranges that do not overlap, none starting where one of larger blocks ends, and whose blocks are
  -- each held or in the list of their type: requests of any number and order are served without a
  -- fault. After them each block is held or in the list of its type, no two of the payloads that are held overlap,
  -- and `kmalloc` returns `NULL` or a block that is not held.
  pub serve_all-IsKept :
      (requests : List Request) (c : Client lib)
      → IsKept lib c
      → (d : Client lib) × (serve_all lib requests c ≡ ok d)
        × IsKept lib d
        × IsApart d
        × ((size : ℕ) → Got size d (kmalloc lib size d.slob))
  unfolding serve_all
  serve_all-IsKept [] c kept =
      (c, refl, kept, IsKept-IsApart c kept, λ size. kmalloc-Got size c kept)
  serve_all-IsKept (q ∷ qs) c kept =
      let (d, run, kept') = serve-IsKept q c kept in
      let (t, runs, after, apart, gives) = serve_all-IsKept qs d kept' in
      (t, rw (serve_all, run, ◌>>=◌, runs) refl, after, apart, gives)

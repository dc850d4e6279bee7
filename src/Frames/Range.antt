-- ===== src/Frames/Range.antt =====
-- `alloc_pages`, `free_pages` and their reserve counterparts over a range of page frames.
use mathlib.Core.Option
use osvirt_project.Base.{
  ℕ, zero, suc, ◌+◌, ◌*◌, ◌≤◌, ◌<◌, ◌≡◌, refl, ◌⊎◌, inl, inr, ◌∙◌, sym, Bool, true, false, ◌&&◌,
  some, arith, if◌then◌else◌, leb, ltb, Bool-cases, get_elem?, get_elem?-set_self, get_elem?-set_ne,
  get_elem?-some, eq_of_get_elem?, length, set, Run, ok, u32_mod, u64_mod, page_size,
}
use osvirt_project.Frames.{
  PageInfo, Frames, Flag, flag, with_flag, frame_index, drop_from, drop_pages, take_from,
  take_pages,
}
use osvirt_project.Frames.Single.{
  flag-with_flag, with_flag-with_flag, free_after, used_after, moved_page, take_page_at-clear,
  take_page_at-set, drop_page_at-set,
}

abbrev pub in_range : ℕ → ℕ → ℕ → Bool
in_range base n j = leb base j && ltb j (base + n)

-- The bit of every entry of the range is `v`.
abbrev pub AllAre : Flag → Bool → ℕ → ℕ → Frames → Type 0
AllAre fl v base n f =
    (j : ℕ)
    → in_range base n j ≡ true
    → (p : PageInfo) × (get_elem? f.info j ≡ some p) × (flag fl p ≡ v)

-- `g` is `f` with the bit `fl` of `n` entries from `base` on written to `v`, and the counters
-- moved by `n` pages.
pub record Moved (fl : Flag) (v : Bool) (base n : ℕ) (f g : Frames) : Type 0 where
  pub info :
      (j : ℕ)
      → get_elem? g.info j ≡ (
          if in_range base n j
          then Option.map (with_flag fl v) (get_elem? f.info j)
          else get_elem? f.info j)
  pub free : g.free_memory ≡ free_after v n f.free_memory
  pub used : g.used_memory ≡ used_after v n f.used_memory

-- The counters hold 32 bits.
abbrev pub AreWords : Frames → Type 0
AreWords f = (f.free_memory < u32_mod) × (f.used_memory < u32_mod)

free_after-suc : (v : Bool) (n m : ℕ) → free_after v 1 (free_after v n m) ≡ free_after v (n + 1) m
free_after-suc true n m = omega arith
free_after-suc false n m = omega arith

used_after-suc : (v : Bool) (n m : ℕ) → used_after v 1 (used_after v n m) ≡ used_after v (n + 1) m
used_after-suc true n m = omega arith
used_after-suc false n m = omega arith

free_after-zero : (v : Bool) (m : ℕ) → m < u32_mod → free_after v 0 m ≡ m
free_after-zero true m h = omega arith
free_after-zero false m h = omega arith

used_after-zero : (v : Bool) (m : ℕ) → m < u32_mod → used_after v 0 m ≡ m
used_after-zero true m h = omega arith
used_after-zero false m h = omega arith

module _ (fl : Flag) (v : Bool) where
  Moved-none : (base : ℕ) (f : Frames) → AreWords f → Moved fl v base 0 f f
  Moved-none base f w = record {
    info = λ j. ground arith;
    free = sym (free_after-zero v f.free_memory w.0);
    used = sym (used_after-zero v f.used_memory w.1);
  }

  Moved-suc :
      (base n : ℕ) (f g : Frames) (p : PageInfo)
      → Moved fl v base n f g
      → get_elem? g.info (base + n) ≡ some p
      → Moved fl v base (n + 1) f (moved_page fl v (base + n) p g)
  Moved-suc base n f g p m held = record {
    info = λ j. ground (
      arith,
      m.info j,
      get_elem?-set_self g.info (base + n) (with_flag fl v p) p held,
      get_elem?-set_ne g.info (base + n) j (with_flag fl v p),
    );
    free = rw m.free (free_after-suc v n f.free_memory);
    used = rw m.used (used_after-suc v n f.used_memory);
  }

  -- What a partial move leaves at an entry that it has not reached.
  Moved-ahead :
      {base n : ℕ} {f g : Frames}
      → Moved fl v base n f g
      → (j : ℕ) → base + n ≤ j
      → get_elem? g.info j ≡ get_elem? f.info j
  Moved-ahead m j h = ground (arith, m.info j)

free_after-free_after : (n m : ℕ) → m < u32_mod → free_after false n (free_after true n m) ≡ m
free_after-free_after n m h = omega arith

used_after-used_after : (n m : ℕ) → m < u32_mod → used_after false n (used_after true n m) ≡ m
used_after-used_after n m h = omega arith

module _ (fl : Flag) where
  -- Releasing the pages that were just taken restores the state.
  Moved-back :
      {base n : ℕ} {f g h : Frames}
      → AreWords f
      → AllAre fl false base n f
      → Moved fl true base n f g
      → Moved fl false base n g h
      → h ≡ f
  Moved-back {base} {n} {f} {g} {h} w clear m b =
      let same : h.info ≡ f.info = eq_of_get_elem? h.info f.info restored in
      let frees = free_after-free_after n f.free_memory w.0 in
      let uses = used_after-used_after n f.used_memory w.1 in ground arith
    where
      restored_in : (j : ℕ) → in_range base n j ≡ true → get_elem? h.info j ≡ get_elem? f.info j
      restored_in j e =
          let (p, held, unset) = clear j e in
          ground (arith, m.info j, b.info j, with_flag-with_flag fl true false p unset)

      restored : (j : ℕ) → get_elem? h.info j ≡ get_elem? f.info j
      restored j = elim (Bool-cases (in_range base n j)) [
        | inl e ↦ restored_in j e
        | inr e ↦ ground (arith, m.info j, b.info j)
      ]

-- The two outcomes of taking `n` pages from `base` on: all were clear and are now set, or one was
-- set and nothing changed.
abbrev pub Took : Flag → ℕ → ℕ → Frames → Run (ℕ × Frames) → Type 0
Took fl base n f r =
    (h : Frames) × (r ≡ ok (0, h)) × AllAre fl false base n f × Moved fl true base n f h

abbrev pub Refused : Flag → ℕ → ℕ → Frames → Run (ℕ × Frames) → Type 0
Refused fl base n f r =
    (r ≡ ok (1, f))
    × (j : ℕ) × (p : PageInfo) × (in_range base n j ≡ true)
    × (get_elem? f.info j ≡ some p)
    × (flag fl p ≡ true)

AllAre-suc :
    (fl : Flag) (v : Bool) (base n : ℕ) (f : Frames) (p : PageInfo)
    → AllAre fl v base n f
    → get_elem? f.info (base + n) ≡ some p
    → flag fl p ≡ v
    → AllAre fl v base (n + 1) f
AllAre-suc fl v base n f p all held e j h = elim (Bool-cases (in_range base n j)) [
  | inl old ↦ all j old
  | inr new ↦ let last : j ≡ base + n = ground arith in rw last (p, held, e)
]

module _ (fl : Flag) (addr : ℕ) where
  drop_from-Moved :
      (k i n : ℕ) (f g : Frames)
      → n ≡ i + k
      → addr + n * page_size ≤ u64_mod
      → AllAre fl true (frame_index addr) n f
      → Moved fl false (frame_index addr) i f g
      → (h : Frames) × (drop_from fl addr k i g ≡ ok h) × Moved fl false (frame_index addr) n f h
  unfolding drop_from
  drop_from-Moved zero i n f g e fits full m = let e' : n ≡ i = omega arith in (g, refl, rw e' m)
  drop_from-Moved (suc k) i n f g e fits full m =
      let (p, held, is) = full (frame_index addr + i) (ground arith) in
      let now : get_elem? g.info (frame_index addr + i) ≡ some p =
        Moved-ahead fl false m (frame_index addr + i) (omega arith) ∙ held in
      let g' = moved_page fl false (frame_index addr + i) p g in
      let (h, run, m') =
        drop_from-Moved k (i + 1) n f g' (omega arith) fits full
          (Moved-suc fl false (frame_index addr) i f g p m now) in
      (h, rw (drop_page_at-set fl addr i g p (omega arith) now is) run, m')

  -- Releasing a range whose bits are all set clears exactly those, and returns 0.
  pub drop_pages-Moved :
      (n : ℕ) (f : Frames)
      → addr + n * page_size ≤ u64_mod
      → AreWords f
      → AllAre fl true (frame_index addr) n f
      → (h : Frames) × (drop_pages fl addr n f ≡ ok (0, h))
        × Moved fl false (frame_index addr) n f h
  unfolding drop_pages
  drop_pages-Moved n f fits w full =
      let (h, run, m) =
        drop_from-Moved n 0 n f f (omega arith) fits full
          (Moved-none fl false (frame_index addr) f w) in
      (h, rw run, m)

  -- What was just taken is all set.
  Moved-AllAre :
      {base n : ℕ} {f g : Frames}
      → AllAre fl false base n f
      → Moved fl true base n f g
      → AllAre fl true base n g
  Moved-AllAre {g} clear m j e =
      let (p, held, unset) = clear j e in
      (with_flag fl true p, ground (arith, m.info j), flag-with_flag fl true p)

  Moved-words : {base n : ℕ} {f g : Frames} → Moved fl true base n f g → AreWords g
  Moved-words m = omega (arith, m.free, m.used)

  -- The release in the middle of a failed request restores the state.
  drop_pages-back :
      (n : ℕ) (f g : Frames)
      → addr + n * page_size ≤ u64_mod
      → AreWords f
      → AllAre fl false (frame_index addr) n f
      → Moved fl true (frame_index addr) n f g
      → drop_pages fl addr n g ≡ ok (0, f)
  drop_pages-back n f g fits w clear m =
      let (h, run, b) = drop_pages-Moved n g fits (Moved-words m) (Moved-AllAre clear m) in
      let e : h ≡ f = Moved-back fl w clear m b in rw (← e) run

  take_from-Moved :
      (k i n : ℕ) (f g : Frames)
      → n ≡ i + k
      → addr + n * page_size ≤ u64_mod
      → frame_index addr + n ≤ length f.info
      → AreWords f
      → AllAre fl false (frame_index addr) i f
      → Moved fl true (frame_index addr) i f g
      → Took fl (frame_index addr) n f (take_from fl addr k i g)
        ⊎ Refused fl (frame_index addr) n f (take_from fl addr k i g)
  unfolding take_from
  take_from-Moved zero i n f g e fits inside w clear m =
      let e' : n ≡ i = omega arith in inl (g, refl, rw e' clear, rw e' m)
  take_from-Moved (suc k) i n f g e fits inside w clear m =
      let (p, held) = get_elem?-some f.info (frame_index addr + i) (omega arith) in
      let now : get_elem? g.info (frame_index addr + i) ≡ some p =
        Moved-ahead fl true m (frame_index addr + i) (omega arith) ∙ held in
      elim (Bool-cases (flag fl p)) [
        | inl set ↦ rw (take_page_at-set fl addr i g p (omega arith) now set) (
            inr (
              rw (drop_pages-back i f g (omega arith) w clear m),
              frame_index addr + i,
              p,
              ground arith,
              held,
              set,
            ))
        | inr unset ↦ rw (take_page_at-clear fl addr i g p (omega arith) now unset) (
            take_from-Moved k (i + 1) n f (moved_page fl true (frame_index addr + i) p g)
              (omega arith) fits inside w
              (AllAre-suc fl false (frame_index addr) i f p clear held unset)
              (Moved-suc fl true (frame_index addr) i f g p m now))
      ]

  -- Taking a range that ends below 2 ^ 64 and inside of the table either returns 0 with exactly the
  -- bits of the range set and its memory moved between the counters, if all were clear; or it
  -- returns 1 with the table and the counters as they were, if one was set.
  pub take_pages-Moved :
      (n : ℕ) (f : Frames)
      → addr + n * page_size ≤ u64_mod
      → frame_index addr + n ≤ length f.info
      → AreWords f
      → Took fl (frame_index addr) n f (take_pages fl addr n f)
        ⊎ Refused fl (frame_index addr) n f (take_pages fl addr n f)
  unfolding take_pages
  take_pages-Moved n f fits inside w =
      take_from-Moved n 0 n f f (omega arith) fits inside w (λ j e. absurd (ground arith))
        (Moved-none fl true (frame_index addr) f w)

-- ===== src/Kernel/Start/Identity.antt =====
-- The kernel's table maps memory, the framebuffer and the fourth gigabyte to themselves.
use osvirt_project.Base.{
  ℕ, ◌+◌, ◌-◌, ◌*◌, ◌/◌, ◌%◌, ◌^◌, ◌≤◌, ◌<◌, ◌≡◌, ◌≢◌, refl, sym, ap, subst, ◌∙◌, ◌⊎◌, inl, inr,
  true, some, List, [], ◌∷◌, arith, Run, ok, ◌>>=◌, leb, ltb, Bool-cases, page_size,
}
use osvirt_project.PageTable.{Memory, entry_at, clear_page}
use osvirt_project.PageTable.Walk.{reach, translate, InRange}
use osvirt_project.PageTable.Level.{PageSource, HaltsDry, IsSound}
use osvirt_project.Kernel.{rounds_of, map_range, map_kernel}
use osvirt_project.Kernel.Ranges.{Ranged, map_range-Ranged}
use osvirt_project.Kernel.Start.{map_start}

-- A page that is mapped to itself.
abbrev pub IsIdentity : (pml : ℕ) → Memory → (page : ℕ) → Type 0
IsIdentity pml m x = translate m pml (x * page_size) ≡ some (x * page_size)

-- The pages of memory, of the framebuffer and of the fourth gigabyte.
abbrev pub Covered : (size f x : ℕ) → Type 0
Covered size f x =
    (x * page_size < size) ⊎ (((f ≤ x) × (x < f + 4096)) ⊎ ((0xc0000 ≤ x) × (x < 0x100000)))

-- In a cleared table only the empty path leads to a table.
cleared_only :
    (m : Memory) (pml : ℕ) (q : List ℕ) (c : ℕ)
    → InRange q
    → reach (clear_page m pml) pml q ≡ some c
    → (q ≡ []) × (c ≡ pml)
unfolding reach clear_page
cleared_only m pml [] c range at = (refl, ground arith)
cleared_only m pml (i ∷ q) c (small, range) at =
    let low : leb pml (entry_at pml i) ≡ true = ground arith in
    let high : ltb (entry_at pml i) (pml + page_size) ≡ true = ground arith in
    let zero_there : clear_page m pml (entry_at pml i) ≡ 0 = rw (clear_page, low, high) refl in
    ground arith

module _ {S : Type 0} (get_page : S → Run (ℕ × S)) (source : PageSource get_page) (pml : ℕ)
    (some_pml : pml ≢ 0) where
  cleared-IsSound :
      (m : Memory) (s : S)
      → pml % page_size ≡ 0
      → ¬ (source.Has s pml)
      → source.CanGive s
      → IsSound get_page source pml (clear_page m pml) s
  cleared-IsSound m s aligned gone ready = record {
    tree = record {
      aligned = aligned;
      unshared = λ p q c lp lq rp rq hp hq.
          (cleared_only m pml p c rp hp).0 ∙ sym (cleared_only m pml q c rq hq).0;
    };
    ready = ready;
    apart = λ q c l o e h. gone (subst (source.Has s) (cleared_only m pml q c o e).1 h);
  }

  -- A range that is mapped to itself, and the pages that were before.
  module _ (rounds base : ℕ) (m : Memory) (r : Memory × S)
      (below : (base + rounds) * page_size ≤ 2 ^ 48)
      (ranged : Ranged get_page source pml some_pml rounds
        (base * page_size)
        (base * page_size)
        m
        r) where
    in_range : (x : ℕ) → base ≤ x → x < base + rounds → IsIdentity pml r.0 x
    in_range x low high =
        let at : base * page_size + (x - base) * page_size ≡ x * page_size = omega arith in
        let to : base * page_size / page_size + (x - base) ≡ x = omega arith in
        subst (λ a. translate r.0 pml a ≡ some (x * page_size)) at
          (ranged.inside (x - base) (omega arith) ∙ ap (λ a. some (a * page_size)) to)

    kept :
        (x : ℕ)
        → x < 2 ^ 36
        → (x < base) ⊎ (base + rounds ≤ x)
        → IsIdentity pml m x
        → IsIdentity pml r.0 x
    kept x small away is = ranged.rest (x * page_size) (λ j less same. omega arith) ∙ is

    identity :
        (x : ℕ)
        → x < 2 ^ 36
        → ((base ≤ x) × (x < base + rounds)) ⊎ IsIdentity pml m x
        → IsIdentity pml r.0 x
    identity x small (inl (low, high)) = in_range x low high
    identity x small (inr is) = elim (Bool-cases (leb base x)) [
      | inr e ↦ kept x small (inl (ground arith)) is
      | inl e ↦ elim (Bool-cases (ltb x (base + rounds))) [
        | inl e' ↦ in_range x (ground arith) (ground arith)
        | inr e' ↦ kept x small (inr (ground arith)) is
      ]
    ]

  -- One range after another.
  range-cases :
      (rounds base : ℕ) (m : Memory) (s : S)
      → (base + rounds) * page_size ≤ 2 ^ 48
      → IsSound get_page source pml m s
      → HaltsDry get_page source
          (map_range get_page rounds pml (base * page_size) (base * page_size) 0 (m, s))
        ⊎ ((r : Memory × S) × (map_range get_page rounds pml
                (base * page_size)
                (base * page_size)
                0
                (m, s)
              ≡ ok r)
            × IsSound get_page source pml r.0 r.1
            × ((x : ℕ)
                → x < 2 ^ 36
                → ((base ≤ x) × (x < base + rounds)) ⊎ IsIdentity pml m x
                → IsIdentity pml r.0 x))
  range-cases rounds base m s below sound =
      elim (map_range-Ranged get_page source pml some_pml rounds (base * page_size)
        (base * page_size) 0 m s (omega arith) (omega arith) sound) [
          | inl stop ↦ inl stop
          | inr (r, run, ranged) ↦ inr (r, run, ranged.sound, identity rounds base m r below ranged)
        ]

  abbrev pub KernelTables : (size f : ℕ) → Memory × S → Type 0
  KernelTables size f t =
      IsSound get_page source pml t.0 t.1
      × ((x : ℕ) → x < 2 ^ 36 → Covered size f x → IsIdentity pml t.0 x)

  map_kernel-cases :
      (size f : ℕ) (m : Memory) (s : S)
      → size + page_size ≤ 2 ^ 48
      → (f + 4096) * page_size ≤ 2 ^ 48
      → IsSound get_page source pml m s
      → HaltsDry get_page source (map_kernel get_page pml size (f * page_size) (m, s))
        ⊎ ((t : Memory × S) × (map_kernel get_page pml size (f * page_size) (m, s) ≡ ok t)
            × KernelTables size f t)
  unfolding map_kernel
  map_kernel-cases size f m s below below' sound =
      elim (range-cases (rounds_of size) 0 m s (omega arith) sound) [
        | inl (stop, dry) ↦ inl (rw (map_kernel, stop, ◌>>=◌) refl, dry)
        | inr (r1, run1, sound1, id1) ↦ elim (range-cases 4096 f r1.0 r1.1 below' sound1) [
          | inl (stop, dry) ↦ inl (rw (map_kernel, run1, ◌>>=◌, stop) refl, dry)
          | inr (r2, run2, sound2, id2) ↦
              elim (range-cases 0x40000 0xc0000 r2.0 r2.1 (omega arith) sound2) [
                | inl (stop, dry) ↦ inl (rw (map_kernel, run1, ◌>>=◌, run2, stop) refl, dry)
                | inr (r3, run3, sound3, id3) ↦ inr (
                  r3,
                  rw (map_kernel, run1, ◌>>=◌, run2, run3) refl,
                  (
                    sound3,
                    λ x small way. elim way [
                      | inl low ↦
                          id3 x small
                            (inr (id2 x small (inr (id1 x small (inl (omega arith, omega arith))))))
                      | inr (inl screen) ↦ id3 x small (inr (id2 x small (inl screen)))
                      | inr (inr high) ↦ id3 x small (inl high)
                    ],
                  ),
                )
              ]
        ]
      ]

-- When `get_block` can give and has a page for it, the kernel's table of `kernel_start` is built,
-- or the machine halts and there is a state in which `get_block` can give and in which it returns
-- `NULL`. If the table is built it is sound, and the processor maps to itself every page of memory,
-- of the 16 MB from the framebuffer on, and of the fourth gigabyte. The framebuffer is at the start
-- of a page, and memory and framebuffer are below 2 ^ 48.
pub map_start-KernelTables :
    {S : Type 0} (get_page : S → Run (ℕ × S)) (source : PageSource get_page) (size f : ℕ)
    (m : Memory) (s : S) (p : ℕ × S) (some_pml : p.0 ≢ 0)
    → source.CanGive s
    → get_page s ≡ ok p
    → size + page_size ≤ 2 ^ 48
    → (f + 4096) * page_size ≤ 2 ^ 48
    → HaltsDry get_page source (map_start get_page size (f * page_size) (m, s))
      ⊎ ((t : Memory × S) × (map_start get_page size (f * page_size) (m, s) ≡ ok (p.0, t.0, t.1))
          × KernelTables get_page source p.0 some_pml size f t)
unfolding map_start
map_start-KernelTables get_page source size f m s p some_pml can got below below' =
    let (has, gone, aligned, small) = source.gives s p can got some_pml in
    let sound =
      cleared-IsSound get_page source p.0 some_pml m p.1 aligned gone (source.keeps s p can got) in
    elim (map_kernel-cases get_page source p.0 some_pml size f (clear_page m p.0) p.1 below below'
      sound) [
        | inl (stop, dry) ↦ inl (rw (map_start, got, ◌>>=◌, stop) refl, dry)
        | inr (t, run, tables) ↦ inr (t, rw (map_start, got, ◌>>=◌, run) refl, tables)
      ]

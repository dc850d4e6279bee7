-- ===== src/MemoryMap/Segments.antt =====
-- The sizes that are computed from the memory map.
use osvirt_project.Base.{
  ℕ, ◌≤◌, ◌≡◌, refl, sym, ap, ◌∙◌, ◌⊎◌, inl, inr, Bool, true, false, ◌&&◌, List, [], ◌∷◌, arith,
  if◌then◌else◌, ltb, Bool-cases,
}
use osvirt_project.MemoryMap.{
  MemoryDescriptor, size_of, is_conventional, largest_from, get_largest_segment_size,
  largest_segment_from,
}

-- A descriptor of the map.
abbrev pub InMap : MemoryDescriptor → List MemoryDescriptor → Type 0
InMap d [] = ⊥
InMap d (x ∷ xs) = (d ≡ x) ⊎ InMap d xs

-- No free segment of the map is larger.
abbrev pub IsBound : ℕ → List MemoryDescriptor → Type 0
IsBound n [] = Unit
IsBound n (x ∷ xs) = (is_conventional x.kind ≡ true → size_of x ≤ n) × IsBound n xs

largest_from-grows : (ds : List MemoryDescriptor) (n : ℕ) → n ≤ largest_from ds n
unfolding largest_from
largest_from-grows [] n = omega arith
largest_from-grows (d ∷ ds) n = elim (Bool-cases (is_conventional d.kind && ltb n (size_of d))) [
  | inl e ↦ rw e (ground (arith, largest_from-grows ds (size_of d)))
  | inr e ↦ rw e (largest_from-grows ds n)
]

bounded :
    (d : MemoryDescriptor) (n k : ℕ)
    → is_conventional d.kind ≡ true
    → (if is_conventional d.kind && ltb n (size_of d) then size_of d else n) ≤ k
    → size_of d ≤ k
bounded d n k c le = ground arith

largest_from-IsBound : (ds : List MemoryDescriptor) (n : ℕ) → IsBound (largest_from ds n) ds
unfolding largest_from
largest_from-IsBound [] n = tt
largest_from-IsBound (d ∷ ds) n =
    let m = if is_conventional d.kind && ltb n (size_of d) then size_of d else n in
    ((λ c. bounded d n (largest_from ds m) c (largest_from-grows ds m)), largest_from-IsBound ds m)

-- The result of the loop is the size it started from, or that of a free segment.
largest_from-held :
    (ds : List MemoryDescriptor) (n : ℕ)
    → (largest_from ds n ≡ n)
      ⊎ ((d : MemoryDescriptor) × InMap d ds
          × (is_conventional d.kind ≡ true)
          × (size_of d ≡ largest_from ds n))
unfolding largest_from
largest_from-held [] n = inl refl
largest_from-held (d ∷ ds) n = elim (Bool-cases (is_conventional d.kind && ltb n (size_of d))) [
  | inl e ↦ rw e (elim (largest_from-held ds (size_of d)) [
    | inl same ↦ inr (d, inl refl, ground arith, sym same)
    | inr (x, at, c, s) ↦ inr (x, inr at, c, s)
  ])
  | inr e ↦ rw e (elim (largest_from-held ds n) [
    | inl same ↦ inl same
    | inr (x, at, c, s) ↦ inr (x, inr at, c, s)
  ])
]

-- `get_largest_segment_size` is the largest size of a free segment of the map: no free segment is
-- larger, and it is 0 or the size of one.
pub get_largest_segment_size_lem :
    (map : List MemoryDescriptor)
    → IsBound (get_largest_segment_size map) map
      × ((get_largest_segment_size map ≡ 0)
          ⊎ ((d : MemoryDescriptor) × InMap d map
              × (is_conventional d.kind ≡ true)
              × (size_of d ≡ get_largest_segment_size map)))
unfolding get_largest_segment_size
get_largest_segment_size_lem map = (largest_from-IsBound map 0, largest_from-held map 0)

chosen-size : (c : Bool) (p r : ℕ × ℕ) → (if c then p else r).1 ≡ (if c then p.1 else r.1)
chosen-size true p r = refl
chosen-size false p r = refl

-- `init_page_properties` finds the size that `get_largest_segment_size` returns.
pub largest_segment_from-size :
    (ds : List MemoryDescriptor) (r : ℕ × ℕ) → (largest_segment_from ds r).1 ≡ largest_from ds r.1
unfolding largest_from largest_segment_from
largest_segment_from-size [] r = refl
largest_segment_from-size (d ∷ ds) r =
    let test = is_conventional d.kind && ltb r.1 (size_of d) in
    largest_segment_from-size ds (if test then (d.physical_addr, size_of d) else r)
    ∙ ap (largest_from ds) (chosen-size test (d.physical_addr, size_of d) r)

-- ===== src/Slob/Alloc.antt =====
-- `kmalloc` and `kfree`: which list a block comes from and goes back to.
use osvirt_project.Base.{
  ℕ, ◌≤◌, ◌<◌, ◌≡◌, refl, ap, ◌∙◌, ◌≢◌, ◌⊎◌, inl, inr, true, false, none, some, List, [], ◌∷◌,
  arith, Option-cases, List-cases,
}
use osvirt_project.ListLib.{ListLib, has, without, without-absent}
use osvirt_project.Slob.{
  SlobType, small, medium, large, index, slob_sizes, Slob, class_of, slob_alloc, kmalloc,
}

pub has-front : (e : ℕ) (rest : List ℕ) → has e (e ∷ rest) ≡ true
unfolding has
has-front e rest = ground arith

without-front : (e : ℕ) (rest : List ℕ) → has e rest ≡ false → without e (e ∷ rest) ≡ rest
unfolding without
without-front e rest out = let absent = without-absent e rest out in ground arith

-- The sizes that each list serves.
abbrev pub InRange : SlobType → ℕ → Type 0
InRange small size = size ≤ 256
InRange medium size = (256 < size) × (size ≤ 1024)
InRange large size = (1024 < size) × (size ≤ 4096)

class_of-InRange : (size : ℕ) (t : SlobType) → class_of size ≡ some t → InRange t size
class_of-InRange size small h = ground arith
class_of-InRange size medium h = ground arith
class_of-InRange size large h = ground arith

class_of-none : (size : ℕ) → class_of size ≡ none → 4096 < size
class_of-none size h = ground arith

module _ (lib : ListLib) where
  open lib use {
    Links, items, list_push_back, list_remove, items-push_back_self, items-push_back_other,
    items-remove,
  }

  -- Each block is in one list at most, once.
  pub record IsSorted (s : Slob lib) : Type 0 where
    pub once :
        (t : SlobType) (e : ℕ) (rest : List ℕ)
        → items s.links (index t) ≡ e ∷ rest
        → has e rest ≡ false
    pub one :
        (t : SlobType) (k e : ℕ)
        → has e (items s.links (index t)) ≡ true
        → k ≢ index t
        → has e (items s.links k) ≡ false

  -- What is left of a list when a block is taken from it.
  pub data Took (size : ℕ) (s : Slob lib) (r : ℕ × Slob lib) : Type 0 where
    -- The size is above 4096, or the list of its range is empty.
    refused :
        (4096 < size) ⊎ ((t : SlobType) × InRange t size × (items s.links (index t) ≡ []))
        → r ≡ (0, s)
        → Took size s r
    -- The front of the list of the size's range.
    taken :
        (t : SlobType) (e : ℕ) (rest : List ℕ) (s' : Slob lib)
        → InRange t size
        → size ≤ slob_sizes t
        → items s.links (index t) ≡ e ∷ rest
        → r ≡ (e, s')
        → items s'.links (index t) ≡ rest
        → ((k : ℕ) → k ≢ index t → items s'.links k ≡ items s.links k)
        → Took size s r

  pub class-holds : (size : ℕ) (t : SlobType) → class_of size ≡ some t → size ≤ slob_sizes t
  class-holds size small h = ground arith
  class-holds size medium h = ground arith
  class-holds size large h = ground arith

  -- Where each block is in one list at most, once: `kmalloc` takes the front of the list of small
  -- blocks for up to 256 bytes, of medium ones for up to 1024 and of large ones for up to 4096, whose
  -- blocks are as large as the request, and leaves the rest of that list and the other lists as they
  -- were; or it returns `NULL` and changes nothing, if the size is above 4096 or that list is empty.
  pub kmalloc_lem : (size : ℕ) (s : Slob lib) → IsSorted s → Took size s (kmalloc lib size s)
  unfolding kmalloc slob_alloc
  kmalloc_lem size s sorted = elim (Option-cases (class_of size)) [
    | inl none_fits ↦
        refused (inl (class_of-none size none_fits)) (rw (kmalloc, slob_alloc, none_fits) refl)
    | inr (t, fits) ↦ elim (List-cases (items s.links (index t))) [
      | inl empty ↦
          refused (inr (t, class_of-InRange size t fits, empty))
            (rw (kmalloc, slob_alloc, fits, empty) refl)
      | inr (e, rest, front) ↦
          taken t e rest (record s { links = list_remove e s.links }) (class_of-InRange size t fits)
            (class-holds size t fits) front (rw (kmalloc, slob_alloc, fits, front) refl)
            (items-remove (index t) e (index t) s.links (here t e rest front)
              ∙ ap (without e) front
              ∙ without-front e rest (sorted.once t e rest front))
            (λ k ne.
              items-remove (index t) e k s.links (here t e rest front)
              ∙ without-absent e (items s.links k) (sorted.one t k e (here t e rest front) ne))
    ]
  ]
    where
      here :
          (t : SlobType) (e : ℕ) (rest : List ℕ)
          → items s.links (index t) ≡ e ∷ rest
          → has e (items s.links (index t)) ≡ true
      here t e rest front = ap (has e) front ∙ has-front e rest

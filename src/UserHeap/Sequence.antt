-- ===== src/UserHeap/Sequence.antt =====
-- The calls that a program makes of mm.c one after the other, and what it writes in between.
pub mod Payloads
pub mod Tracked
pub mod Safety
use osvirt_project.Base.{
  ℕ, ◌+◌, ◌-◌, ◌*◌, ◌^◌, ◌≤◌, ◌<◌, ◌≡◌, ◌≢◌, refl, sym, ap, subst, ◌∙◌, ◌⊎◌, inl, inr, true, false,
  ◌&&◌, Option, none, some, List, [], ◌∷◌, ◌++◌, arith, if◌then◌else◌, ◌==◌, ltb, leb, Run, ok,
  fault, Bool-cases, ◌>>=◌, >>=-eq-ok,
}
use osvirt_project.UserHeap.{tag_size, Memory, Heap, mm_malloc, mm_free, mm_realloc, memlib_init}
use osvirt_project.UserHeap.Blocks.{
  Block, span, at, Segment, SameLimits, IsHeap, IsHeap-extent, IsHeap-replace,
}
use osvirt_project.UserHeap.Place.{IsHeap-Stands}
use osvirt_project.UserHeap.Allocate.{asked}
use osvirt_project.UserHeap.Live.{
  used, live, Apart, used-Apart, place_of, mm_malloc-live, mm_free-live,
}
use osvirt_project.UserHeap.Setup.{memlib_init-IsHeap}

-- A program: its heap, and the sizes it has asked for at the addresses that it holds.
pub record Program : Type 0 where
  pub heap : Heap
  pub held : ℕ → Option ℕ

abbrev pub grant : (p size : ℕ) → (ℕ → Option ℕ) → ℕ → Option ℕ
grant p size held q = if q == p then some size else held q

abbrev pub give_back : ℕ → (ℕ → Option ℕ) → ℕ → Option ℕ
give_back p held q = if q == p then none else held q

-- A byte is written: no tag stands over it any more.
abbrev pub write_byte : ℕ → Heap → Heap
write_byte x h = record h { mem = λ q. if leb q x && ltb x (q + tag_size) then none else h.mem q }

-- A program asks for some bytes, at most 2 ^ 31 with the tags; it gives back, or has replaced, what it holds,
-- or `NULL`; and it writes where it holds memory.
pub data Step (s t : Program) : Type 0 where
  malloc :
      (size p : ℕ)
      → size ≢ 0
      → asked size + tag_size * 2 < 2 ^ 31
      → mm_malloc size s.heap ≡ ok (p, t.heap)
      → t.held ≡ grant p size s.held
      → Step s t
  free :
      (p n : ℕ)
      → s.held p ≡ some n
      → mm_free p s.heap ≡ ok t.heap
      → t.held ≡ give_back p s.held
      → Step s t
  free_null : mm_free 0 s.heap ≡ ok t.heap → t.held ≡ s.held → Step s t
  realloc :
      (p n size q : ℕ)
      → s.held p ≡ some n
      → size ≢ 0
      → asked size + tag_size * 2 < 2 ^ 31
      → mm_realloc p size s.heap ≡ ok (q, t.heap)
      → t.held ≡ grant q size (give_back p s.held)
      → Step s t
  write :
      (p n x : ℕ)
      → s.held p ≡ some n
      → p ≤ x
      → x < p + n
      → t.heap ≡ write_byte x s.heap
      → t.held ≡ s.held
      → Step s t

abbrev pub started : (base : ℕ) → Memory → Program
started base m = record { heap = memlib_init base m; held = λ p. none }

pub data Reach (base : ℕ) (m : Memory) : Program → Type 0 where
  start : Reach base m (started base m)
  next : {s t : Program} → Reach base m s → Step s t → Reach base m t

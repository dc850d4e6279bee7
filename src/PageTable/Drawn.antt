-- ===== src/PageTable/Drawn.antt =====
-- The states that a source of pages comes to by its own calls.
use osvirt_project.Base.{ℕ, ◌≡◌, Run, ok}
use osvirt_project.PageTable.{Memory}
use osvirt_project.PageTable.Level.{PageSource, IsSound}

-- Some calls of `get_block` lead from one state to the other.
pub data Drawn {S : Type 0} (get_block : S → Run (ℕ × S)) (s : S) : S → Type 0 where
  start : Drawn get_block s s
  call : (t : S) (r : ℕ × S) → Drawn get_block s t → get_block t ≡ ok r → Drawn get_block s r.1

module _ {S : Type 0} (get_block : S → Run (ℕ × S)) (source : PageSource get_block) where
  -- The same source, in the states that it comes to from the given one.
  abbrev pub drawn_from : S → PageSource get_block
  drawn_from s0 = record {
    Has = source.Has;
    CanGive = λ s. source.CanGive s × Drawn get_block s0 s;
    returns = λ s can. source.returns s can.0;
    keeps = λ s r can e. (source.keeps s r can.0 e, call s r can.1 e);
    gives = λ s r can. source.gives s r can.0;
    shrinks = λ s r can. source.shrinks s r can.0;
  }

  pub drawn_from-IsSound :
      (s0 : S) (pml : ℕ) (m : Memory) (s : S)
      → IsSound get_block (drawn_from s0) pml m s
      → IsSound get_block source pml m s
  drawn_from-IsSound s0 pml m s sound = record {
    tree = sound.tree;
    ready = sound.ready.0;
    apart = sound.apart;
  }

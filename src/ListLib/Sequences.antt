-- ===== src/ListLib/Sequences.antt =====
-- The interface at lists of numbers: an instance for concrete runs.
use osvirt_project.Base.{ℕ, refl, List, [], ◌∷◌, ◌++◌, arith, if◌then◌else◌, ◌==◌}
use osvirt_project.ListLib.{ListLib, without}

abbrev pub sequences : ListLib
sequences = record {
  Links = ℕ → List ℕ;
  items = λ s k. s k;
  list_init = λ l s k. if k == l then [] else s k;
  list_push_back = λ l e s k. if k == l then s k ++ (e ∷ []) else s k;
  list_remove = λ e s k. without e (s k);
  items-init_self = λ l s. ground arith;
  items-init_other = λ l k s ne. ground arith;
  items-push_back_self = λ l e s out. ground arith;
  items-push_back_other = λ l e k s out ne. ground arith;
  items-remove = λ l e k s here. refl;
}

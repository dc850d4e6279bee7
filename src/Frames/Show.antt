-- ===== src/Frames/Show.antt =====
-- `print_available_memory` and `print_allocator` of allocator.c, as the lines that they print.
use osvirt_project.Base.{
  ℕ, ◌+◌, ◌-◌, ◌*◌, ◌/◌, ◌%◌, Bool, ◌&&◌, ◌||◌, not, Option, none, some, List, [], ◌∷◌, ◌++◌,
  if◌then◌else◌, ◌==◌, leb, length, replicate, u64_mod, page_size,
}
use osvirt_project.Frames.{PageInfo, Frames}

-- What a line says, with the arguments that `printf` is called with.
pub data Line : Type 0 where
  size_line used_line free_line : ℕ → Line
  range_line : (first last state : ℕ) → Line

-- `current_state`: 1 in use, 2 reserved, 3 free. Before the first page it is 0.
abbrev pub state_of : PageInfo → ℕ
state_of p = if p.inuse then 1 else if p.reserved then 2 else 3

-- The `switch`, for the pages from `prev` to the one before index `i`.
unfoldable pub state_line : (old_state prev i : ℕ) → List Line
state_line old_state prev i =
    if (old_state == 1) || (old_state == 2) || (old_state == 3)
    then range_line prev (((i + u64_mod - 1) * page_size) % u64_mod) old_state ∷ []
    else []

abbrev pub is_change : (size old_state current_state i : ℕ) → Bool
is_change size old_state current_state i =
    (not (current_state == old_state) && not (old_state == 0)) || (i + 1 == size)

-- The loop over the entries from index `i` on.
unfoldable pub print_from : (size : ℕ) → List PageInfo → (i old_state prev : ℕ) → List Line
print_from size [] i old_state prev = []
print_from size (p ∷ ps) i old_state prev =
    let change = is_change size old_state (state_of p) i in
    (if change then state_line old_state prev i else [])
    ++ print_from size ps (i + 1) (state_of p) (if change then (i * page_size) % u64_mod else prev)

unfoldable pub print_available_memory : Frames → List Line
print_available_memory f = used_line f.used_memory ∷ free_line f.free_memory ∷ []

unfoldable pub print_allocator : Frames → List Line
print_allocator f =
    size_line (length f.info) ∷ print_available_memory f ++ print_from (length f.info) f.info 0 0 0

-- The states of the entries but the last.
abbrev pub all_but_last : List PageInfo → List ℕ
all_but_last [] = []
all_but_last (p ∷ []) = []
all_but_last (p ∷ (q ∷ ps)) = state_of p ∷ all_but_last (q ∷ ps)

abbrev and_then : List ℕ → Option (List ℕ) → Option (List ℕ)
and_then xs none = none
and_then xs (some ys) = some (xs ++ ys)

-- The states of the pages that the lines tell of, from page `page` on: nothing if a range does not
-- begin at the page behind the one before it, or has the same state as that one.
unfoldable pub read_states : (page before : ℕ) → List Line → Option (List ℕ)
read_states page before [] = some []
read_states page before (range_line first last s ∷ ls) =
    if (first == page * page_size) && leb first last && not (s == before)
    then and_then (replicate (last / page_size + 1 - page) s)
        (read_states (last / page_size + 1) s ls)
    else none
read_states page before (size_line n ∷ ls) = read_states page before ls
read_states page before (used_line n ∷ ls) = read_states page before ls
read_states page before (free_line n ∷ ls) = read_states page before ls

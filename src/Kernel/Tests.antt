-- ===== src/Kernel/Tests.antt =====
-- The mapping loops and the heap's system call over the counting source of pages.
use osvirt_project.Base.{
  ℕ, zero, suc, ◌^◌, ◌≡◌, ◌≢◌, ◌⊎◌, inl, inr, refl, sym, ◌∙◌, some, List, [], ◌∷◌, Run, ok, arith,
  ◌==◌, if◌then◌else◌,
}
use osvirt_project.PageTable.{Memory}
use osvirt_project.PageTable.Walk.{translate, reach}
use osvirt_project.PageTable.Level.{HaltsDry, IsSound}
use osvirt_project.PageTable.Counter.{next_page, counter, zeroes, zeroes-IsSound}
use osvirt_project.Kernel.{Kernel, assign_heap}
use osvirt_project.Kernel.Ranges.{Outside}
use osvirt_project.Kernel.Start.{user_start}
use osvirt_project.Kernel.Start.User.{UserTables, user_start-UserTables}
use osvirt_project.Kernel.Calls.{HeapMapped, assign_heap_lem}
use Prim.Native.Nat.{min}

abbrev kernel : Kernel next_page
kernel = record { mem = zeroes; pages = 2; user_pml = 4096; user_heap_ptr = 0; time = 0; log = [] }

abbrev place : ℕ
place = 0x100000

-- A block at that place, whatever the size.
abbrev one_block : ℕ → ℕ → Run (ℕ × ℕ)
one_block size s = ok (place, s)

assign_heap_lem_example :
    (r : ℕ × Kernel next_page) × (assign_heap next_page one_block 4 kernel ≡ ok r)
    × IsSound next_page counter 4096 r.1.mem r.1.pages
    × (((place ≡ 0) × (r.0 ≡ 1) × (r.1.mem ≡ zeroes))
        ⊎ ((place ≢ 0)
            × (r.0 ≡ 0x18000000000)
            × HeapMapped next_page counter one_block 4096 4 place zeroes r.1.mem 2
            × ((va' : ℕ)
                → Outside 0x18000000000 (min 4 (2 ^ 19)) va'
                → translate r.1.mem 4096 va' ≡ translate zeroes 4096 va')))
assign_heap_lem_example =
    assign_heap_lem next_page counter one_block 4 kernel (place, 2) (λ e. omega arith) refl
      (omega arith) zeroes-IsSound

-- A table whose first entry leads to an empty table.
abbrev linked : Memory
linked q = if q == 4096 then 8195 else 0

two_tables :
    (q : List ℕ) (c : ℕ)
    → reach linked 4096 q ≡ some c
    → ((q ≡ []) × (c ≡ 4096)) ⊎ ((q ≡ 0 ∷ []) × (c ≡ 8192))
unfolding reach
two_tables [] c e = inl (refl, ground arith)
two_tables (zero ∷ []) c e = inr (refl, ground arith)
two_tables (zero ∷ (j ∷ q)) c e = ground arith
two_tables (suc i ∷ q) c e = ground arith

linked-IsSound : IsSound next_page counter 4096 linked 3
linked-IsSound = record {
  tree = record {
    aligned = refl;
    unshared = λ p q c lp lq rp rq hp hq. one_path p q c (two_tables p c hp) (two_tables q c hq);
  };
  ready = tt;
  apart = λ q c l o e h. ground (arith, two_tables q c e);
}
  where
    one_path :
        (p q : List ℕ) (c : ℕ)
        → ((p ≡ []) × (c ≡ 4096)) ⊎ ((p ≡ 0 ∷ []) × (c ≡ 8192))
        → ((q ≡ []) × (c ≡ 4096)) ⊎ ((q ≡ 0 ∷ []) × (c ≡ 8192))
        → p ≡ q
    one_path p q c (inl a) (inl b) = a.0 ∙ sym b.0
    one_path p q c (inl a) (inr b) = absurd (omega arith)
    one_path p q c (inr a) (inl b) = absurd (omega arith)
    one_path p q c (inr a) (inr b) = a.0 ∙ sym b.0

-- A program of 5000 bytes at 0x100000.
user_start-UserTables_example :
    HaltsDry next_page counter (user_start next_page 4096 5000 0x100000 (linked, 3))
    ⊎ ((t : Memory × ℕ) × (user_start next_page 4096 5000 0x100000 (linked, 3)
          ≡ ok (12288, t.0, t.1))
        × IsSound next_page counter 12288 t.0 t.1
        × UserTables 12288 4096 2 0x100000 linked t.0)
user_start-UserTables_example =
    user_start-UserTables next_page counter 4096 5000 0x100000 linked 3 (12288, 4)
      (λ e. omega arith) refl linked-IsSound refl (omega arith) (omega arith)

-- ===== src/UserProgram/Blocks.antt =====
-- The blocks that the user program leaves on the heap.
use osvirt_project.Base.{
  ℕ, ◌+◌, ◌*◌, ◌^◌, ◌≤◌, ◌<◌, ◌≡◌, ◌≢◌, refl, sym, ap, subst, ◌∙◌, true, false, List, [], ◌∷◌, ◌++◌,
  arith, ◌==◌, ok, ◌>>=◌,
}
use osvirt_project.UserHeap.{
  tag_size, min_block_size, max_heap, Memory, Heap, mm_malloc, mm_free, mm_realloc, memlib_init,
}
use osvirt_project.UserHeap.Blocks.{Block, span, at, IsHeap, IsHeap-extent}
use osvirt_project.UserHeap.Allocate.{
  NoneFits, Fit, reused, appended, refused, asked, mm_malloc_lem,
}
use osvirt_project.UserHeap.Extend.{mem_sbrk-ok}
use osvirt_project.UserHeap.Neighbours.{released}
use osvirt_project.UserHeap.Release.{mm_free_lem}
use osvirt_project.UserHeap.Setup.{memlib_init-IsHeap}
use osvirt_project.UserHeap.Show.{heap_listing, debug_heap_user, debug_heap_user-shown}
use osvirt_project.UserProgram.{
  Printed, user_banner, mallocing, reallocing, freeing, end_reached, calling_memlib_init,
  in_memlib_init, heap_lines, malloc_test, user_start,
}

-- Where no block fits there is no first fit.
no_fit_at : (n s : ℕ) (pre post : List Block) → NoneFits n (pre ++ ((true, s) ∷ post)) → n ≤ s → ⊥
no_fit_at n s [] post (misses, none_fits) le = ground arith
no_fit_at n s (b ∷ pre) post (misses, none_fits) le = no_fit_at n s pre post none_fits le

no_fit : (n : ℕ) (bs : List Block) → NoneFits n bs → Fit n bs → ⊥
no_fit n bs none_fits f =
    no_fit_at n f.size f.pre f.post (subst (NoneFits n) f.parts none_fits) f.holds

-- A heap of blocks at `base`, of full extent.
record Stage (base : ℕ) (h : Heap) (bs : List Block) : Type 0 where
  blocks : IsHeap h bs
  start : h.start_brk ≡ base
  max : h.max_addr ≡ base + max_heap

-- `mm_malloc` where no block fits and the heap has room: a block behind the others.
grow :
    (size base : ℕ) (h : Heap) (bs : List Block)
    → Stage base h bs
    → size ≢ 0
    → NoneFits (asked size) bs
    → span bs + asked size + tag_size * 4 < 2 ^ 27
    → (h' : Heap) × (mm_malloc size h ≡ ok (base + tag_size + span bs + tag_size, h'))
      × Stage base h' (bs ++ ((false, asked size) ∷ []))
grow size base h bs st some_size misses room =
    let (extent, bound) = IsHeap-extent h bs st.blocks in
    let start = st.start in
    let max = st.max in
    elim (mm_malloc_lem size (asked size) h bs st.blocks some_size refl (omega arith)) [
      | reused f h' run is limits ↦ absurd (no_fit (asked size) bs misses f)
      | refused none_fits full run ↦ absurd (omega arith)
      | appended h' none_fits run is brk start' max' ↦
          let at_base : at h bs + tag_size ≡ base + tag_size + span bs + tag_size = omega arith in
          (
            h',
            run ∙ ap (λ p. ok (p, h')) at_base,
            record { blocks = is; start = start' ∙ start; max = max' ∙ max },
          )
    ]

-- `mm_free` of the block behind `pre`.
give :
    (base n : ℕ) (h : Heap) (pre post : List Block)
    → Stage base h (pre ++ ((false, n) ∷ post))
    → (h' : Heap) × (mm_free (base + tag_size + span pre + tag_size) h ≡ ok h')
      × Stage base h' (released pre n post)
give base n h pre post st =
    let (h', run, is, limits) = mm_free_lem h pre post (false, n) st.blocks in
    let start = st.start in
    (
      h',
      ap (λ b. mm_free (b + tag_size + span pre + tag_size) h) (sym start) ∙ run,
      record { blocks = is; start = limits.1 ∙ start; max = limits.2 ∙ st.max },
    )

begun : (base : ℕ) (m : Memory) → 0 < base → Stage base (memlib_init base m) []
unfolding memlib_init
begun base m above =
    let h0 : Heap = record { mem = m; start_brk = base; brk = base; max_addr = base + max_heap } in
    let sbrk = mem_sbrk-ok min_block_size h0 (omega arith) (omega arith) in
    record {
      blocks = memlib_init-IsHeap base m above;
      start = rw (memlib_init, sbrk) refl;
      max = rw (memlib_init, sbrk) refl;
    }

-- What is shown of the heap.
showing :
    (base : ℕ) (h : Heap) (bs : List Block)
    → Stage base h bs
    → debug_heap_user h ≡ ok (heap_listing (base + tag_size) bs)
showing base h bs st =
    let (all, kernel) = debug_heap_user-shown 1 h bs st.blocks (omega arith) in
    all ∙ ap (λ b. ok (heap_listing (b + tag_size) bs)) st.start

abbrev two : List Block
two = (false, 256) ∷ (false, 256) ∷ []

abbrev three : List Block
three = (false, 256) ∷ (true, 256) ∷ (false, 4096) ∷ []

abbrev one : List Block
one = (true, 4640) ∷ []

-- What `user_start` prints.
abbrev pub printed : (base : ℕ) → List Printed
printed base =
    user_banner
    ∷ mallocing
    ∷ calling_memlib_init
    ∷ in_memlib_init
    ∷ heap_lines (heap_listing (base + tag_size) two)
    ∷ reallocing
    ∷ heap_lines (heap_listing (base + tag_size) three)
    ∷ freeing
    ∷ heap_lines (heap_listing (base + tag_size) one)
    ∷ end_reached
    ∷ []

-- `mm_realloc` in its two parts.
realloc_parts :
    (p q size : ℕ) (h h1 h2 : Heap)
    → size ≢ 0
    → mm_free p h ≡ ok h1
    → mm_malloc size h1 ≡ ok (q, h2)
    → mm_realloc p size h ≡ ok (q, h2)
unfolding mm_realloc
realloc_parts p q size h h1 h2 some_size freed got =
    let asks : (size == 0) ≡ false = ground arith in rw (mm_realloc, asks, freed, ◌>>=◌, got) refl

-- On a heap set up at any address but 0 and over any memory `user_start` reaches its endless loop:
-- it has shown two used blocks of 256 bytes, then, the second of them given back for one of 4096 bytes
-- behind it, three blocks, and last, all given back, one free block of 4640 bytes, which is what the
-- heap holds.
pub user_start_lem :
    (base : ℕ) (m : Memory)
    → 0 < base
    → (h : Heap) × (user_start base m ≡ ok (printed base, h)) × IsHeap h ((true, 4640) ∷ [])
unfolding user_start malloc_test
user_start_lem base m above =
    let s0 = begun base m above in
    let (h1, run1, s1) = grow 256 base (memlib_init base m) [] s0 (omega arith) tt (omega arith) in
    let (h2, run2, s2) =
      grow 256 base h1 ((false, 256) ∷ []) s1 (omega arith) (refl, tt) (omega arith) in
    let (h3, run3, s3) = give base 256 h2 ((false, 256) ∷ []) [] s2 in
    let (h4, run4, s4) =
      grow 4096 base h3 ((false, 256) ∷ (true, 256) ∷ []) s3 (omega arith) (refl, (refl, tt))
        (omega arith) in
    let (h5, run5, s5) = give base 4096 h4 ((false, 256) ∷ (true, 256) ∷ []) [] s4 in
    let (h6, run6, s6) = give base 256 h5 [] ((true, 4368) ∷ []) s5 in
    let re =
      realloc_parts (base + tag_size + 272 + tag_size) (base + tag_size + 544 + tag_size) 4096 h2 h3
        h4 (omega arith) run3 run4 in
    (
      h6,
      rw
          (
            user_start,
            malloc_test,
            run1,
            ◌>>=◌,
            run2,
            showing base h2 two s2,
            re,
            showing base h4 three s4,
            run5,
            run6,
            showing base h6 one s6,
          )
          refl,
      s6.blocks,
    )

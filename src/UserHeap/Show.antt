-- ===== src/UserHeap/Show.antt =====
-- `debug_heap_user` of mm.c and `debug_heap` of kernel_syscall.c, as what they print.
use osvirt_project.Base.{
  ℕ, zero, suc, ◌+◌, ◌-◌, ◌*◌, ◌<◌, ◌≡◌, refl, Bool, true, false, ◌&&◌, not, some, none, List, [],
  ◌∷◌, ◌++◌, arith, if◌then◌else◌, ◌==◌, Run, ok, fault, out_of_fuel, ◌>>=◌,
}
use osvirt_project.UserHeap.{Tag, tag, tag_size, Memory, Heap}
use osvirt_project.UserHeap.Blocks.{Block, span, Segment, IsHeap, IsHeap-extent}

-- A call that prints, with its arguments.
pub data Line : Type 0 where
  debugging heap_empty done_debugging : Line
  starts_at : ℕ → Line
  block_address block_size : ℕ → Line
  block_free : Bool → Line
  block_line : (address size : ℕ) (free : Bool) → Line

-- A read of a tag through `tmp`.
abbrev read {ℓ} : {A : Type ℓ} → Memory → ℕ → (Tag → Run A) → Run A
read m a k = elim (m a) [ none ↦ fault | some t ↦ k t ]

-- The loop of `debug_heap_user`, on fuel.
unfoldable pub show_blocks : (fuel tmp : ℕ) → Memory → Run (List Line)
show_blocks zero tmp m = out_of_fuel
show_blocks (suc k) tmp m = read m tmp λ t. elim (t.size == 0) [
  | true ↦ ok []
  | false ↦ show_blocks k (tmp + (t.size + tag_size * 2)) m >>= λ ls.
      ok (block_address tmp ∷ block_size t.size ∷ block_free t.free ∷ ls)
]

-- No more tags than bytes lie in the heap.
unfoldable pub debug_heap_user : Heap → Run (List Line)
debug_heap_user h =
    let tmp = h.start_brk + tag_size in
    read h.mem tmp λ t.
      if not t.free && (t.size == 0)
      then ok (debugging ∷ starts_at tmp ∷ heap_empty ∷ [])
      else (show_blocks (h.brk - h.start_brk) tmp h.mem >>= λ ls.
          ok (debugging ∷ starts_at tmp ∷ (ls ++ (done_debugging ∷ []))))

-- The loop of `debug_heap`, which goes on while the size is 0.
unfoldable pub kernel_blocks : (fuel tmp : ℕ) → Memory → Run (List Line)
kernel_blocks zero tmp m = out_of_fuel
kernel_blocks (suc k) tmp m = read m tmp λ t. elim (t.size == 0) [
  | true ↦ kernel_blocks k (tmp + (t.size + tag_size * 2)) m >>= λ ls.
      ok (block_line tmp t.size t.free ∷ ls)
  | false ↦ ok []
]

unfoldable pub debug_heap : (fuel user_heap_ptr : ℕ) → Memory → Run (List Line)
debug_heap fuel user_heap_ptr m =
    let tmp = user_heap_ptr + tag_size in
    read m tmp λ t.
      if not t.free && (t.size == 0)
      then ok (debugging ∷ starts_at tmp ∷ heap_empty ∷ [])
      else (kernel_blocks fuel tmp m >>= λ ls.
          ok (debugging ∷ starts_at tmp ∷ (ls ++ (done_debugging ∷ []))))

-- The lines about blocks from address `a` on.
abbrev pub block_lines : (a : ℕ) → List Block → List Line
block_lines a [] = []
block_lines a (b ∷ bs) =
    block_address a ∷ block_size b.1 ∷ block_free b.0 ∷ block_lines (a + b.1 + tag_size * 2) bs

abbrev pub heap_listing : (a : ℕ) → List Block → List Line
heap_listing a [] = debugging ∷ starts_at a ∷ heap_empty ∷ []
heap_listing a (b ∷ bs) =
    debugging ∷ starts_at a ∷ (block_lines a (b ∷ bs) ++ (done_debugging ∷ []))

-- What the kernel prints of the same blocks: it stops at the first of them.
abbrev pub kernel_listing : (a : ℕ) → List Block → List Line
kernel_listing a [] = debugging ∷ starts_at a ∷ heap_empty ∷ []
kernel_listing a (b ∷ bs) = debugging ∷ starts_at a ∷ done_debugging ∷ []

show_blocks-Segment :
    (fuel a e : ℕ) (m : Memory) (bs : List Block)
    → Segment m a bs e
    → m e ≡ some (tag false 0)
    → span bs < fuel
    → show_blocks fuel a m ≡ ok (block_lines a bs)
unfolding show_blocks
show_blocks-Segment zero a e m bs s last enough = absurd (omega arith)
show_blocks-Segment (suc k) a e m [] s last enough =
    let here : m a ≡ some (tag false 0) = rw s last in rw (show_blocks, read, here) refl
show_blocks-Segment (suc k) a e m (b ∷ bs) s last enough =
    let least = s.2 in
    let some_size : (b.1 == 0) ≡ false = ground arith in
    let at : a + (b.1 + tag_size * 2) ≡ a + b.1 + tag_size * 2 = omega arith in
    let rest = show_blocks-Segment k (a + b.1 + tag_size * 2) e m bs s.3 last (omega arith) in
    rw (show_blocks, read, s.0, some_size, at, rest, ◌>>=◌) refl

-- On a heap of blocks `debug_heap_user` ends, and prints the address, the size and the free bit of
-- each block in their order, or that there is none; `debug_heap` at the same memory, with any fuel but 0, prints
-- no block.
pub debug_heap_user-shown :
    (fuel : ℕ) (h : Heap) (bs : List Block)
    → IsHeap h bs
    → 0 < fuel
    → (debug_heap_user h ≡ ok (heap_listing (h.start_brk + tag_size) bs))
      × (debug_heap fuel h.start_brk h.mem ≡ ok (kernel_listing (h.start_brk + tag_size) bs))
unfolding debug_heap_user debug_heap kernel_blocks
debug_heap_user-shown zero h bs is some_fuel = absurd (omega arith)
debug_heap_user-shown (suc k) h [] is some_fuel =
    let here : h.mem (h.start_brk + tag_size) ≡ some (tag false 0) = rw is.blocks is.last in
    (rw (debug_heap_user, read, here) refl, rw (debug_heap, read, here) refl)
debug_heap_user-shown (suc k) h (b ∷ bs) is some_fuel =
    let blocks = is.blocks in
    let (extent, bound) = IsHeap-extent h (b ∷ bs) is in
    let least = blocks.2 in
    let some_size : (b.1 == 0) ≡ false = ground arith in
    let some_block : (not b.0 && (b.1 == 0)) ≡ false = ground arith in
    let all =
      show_blocks-Segment (h.brk - h.start_brk) (h.start_brk + tag_size) (h.brk - tag_size) h.mem
        (b ∷ bs) blocks is.last (omega arith) in
    (
      rw (debug_heap_user, read, blocks.0, some_block, all, ◌>>=◌) refl,
      rw (debug_heap, read, blocks.0, some_block, kernel_blocks, read, blocks.0, some_size, ◌>>=◌)
          refl,
    )

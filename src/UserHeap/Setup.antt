-- ===== src/UserHeap/Setup.antt =====
-- `memlib_init`: the heap with no block.
use osvirt_project.Base.{ℕ, ◌+◌, ◌-◌, ◌<◌, ◌≡◌, ◌∙◌, false, [], arith}
use osvirt_project.UserHeap.{
  tag, tag_size, min_block_size, max_heap, Memory, store, Heap, memlib_init,
}
use osvirt_project.UserHeap.Tags.{store-same, store-Far}
use osvirt_project.UserHeap.Blocks.{IsHeap}
use osvirt_project.UserHeap.Extend.{mem_sbrk-ok}

-- `memlib_init` sets up the heap with no block, at any address that is not 0 and over any memory.
pub memlib_init-IsHeap : (base : ℕ) (m : Memory) → 0 < base → IsHeap (memlib_init base m) []
unfolding memlib_init
memlib_init-IsHeap base m above =
    let h : Heap = record { mem = m; start_brk = base; brk = base; max_addr = base + max_heap } in
    let sbrk = mem_sbrk-ok min_block_size h (omega arith) (omega arith) in
    let fence : base + min_block_size - tag_size ≡ base + tag_size = omega arith in
    let first = store base (tag false 0) m in
    rw (memlib_init, sbrk)
      (record {
        first =
            store-Far (base + tag_size) base (tag false 0) first (omega arith)
            ∙ store-same base (tag false 0) m;
        blocks = omega arith;
        last = rw fence (store-same (base + tag_size) (tag false 0) first);
        room = omega arith;
        limit = omega arith;
        extent = omega arith;
        above = above;
      })

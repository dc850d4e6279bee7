-- ===== src/UserHeap.antt =====
-- The user-space allocator of mm.c and userinc/mm.h: a heap of blocks between boundary tags. Memory
-- is the tags that stand in it, at their addresses.
pub mod Tags
pub mod Blocks
pub mod Find
pub mod Place
pub mod Extend
pub mod Allocate
pub mod Neighbours
pub mod Release
pub mod Live
pub mod Setup
pub mod Sequence
pub mod Show
mod Tests
use osvirt_project.Base.{
  ℕ, zero, suc, ◌+◌, ◌-◌, ◌*◌, ◌/◌, ◌%◌, ◌^◌, ◌≡◌, Bool, true, false, ◌&&◌, ◌||◌, not, Option, none,
  some, if◌then◌else◌, ◌==◌, ltb, leb, Run, ok, fault, out_of_fuel, ◌>>=◌, u64_mod, u32_mod,
}

-- `boundary_block_t`: one word, a bit for `free` and 63 bits for `size`.
pub record Tag : Type 0 where
  pub free : Bool
  pub size : ℕ

abbrev pub tag : Bool → ℕ → Tag
tag f n = record { free = f; size = n }

-- `TAGSIZE`, `MIN_BLOCK_SIZE` and `MAX_HEAP`.
abbrev pub tag_size : ℕ
tag_size = 8

abbrev pub min_block_size : ℕ
min_block_size = 16

abbrev pub max_heap : ℕ
max_heap = 1024 * 2 ^ 17

-- The tags in memory. A store destroys the tags that it overlaps.
abbrev pub Memory : Type 0
Memory = ℕ → Option Tag

unfoldable pub store : ℕ → Tag → Memory → Memory
store a t m q =
    if q == a then some t else if ltb q (a + tag_size) && ltb a (q + tag_size) then none else m q

-- The private variables of mm.c, and memory.
pub record Heap : Type 0 where
  pub mem : Memory
  pub start_brk : ℕ
  pub brk : ℕ
  pub max_addr : ℕ

-- A read of a tag. Where no tag stands, what is read is unknown: a fault of the model.
abbrev pub load {ℓ} : {A : Type ℓ} → Heap → ℕ → (Tag → Run A) → Run A
load h a k = elim (h.mem a) [ none ↦ fault | some t ↦ k t ]

-- A conversion to `int`, as its 32-bit pattern, its sign, and back to `size_t`.
abbrev pub to_int : ℕ → ℕ
to_int n = n % u32_mod

abbrev pub is_negative : ℕ → Bool
is_negative w = leb (2 ^ 31) w

abbrev pub from_int : ℕ → ℕ
from_int w = if is_negative w then w + (u64_mod - u32_mod) else w

-- `mem_sbrk`: `NULL` if the increment is negative or the heap is at its end.
unfoldable pub mem_sbrk : ℕ → Heap → ℕ × Heap
mem_sbrk incr h =
    if is_negative incr || ltb h.max_addr (h.brk + incr)
    then (0, h)
    else (h.brk, record h { brk = h.brk + incr })

abbrev pub get_payload : ℕ → ℕ
get_payload cur = cur + tag_size

-- `get_next`: `NULL` at the last fence; after the first fence comes the next tag.
unfoldable pub get_next : ℕ → Heap → Run ℕ
get_next cur h =
    if cur + tag_size == h.brk
    then ok 0
    else if cur == h.start_brk
    then ok (cur + tag_size)
    else load h cur λ t. ok (cur + t.size + tag_size * 2)

-- `get_prev`: through the footer that stands before the block.
unfoldable pub get_prev : ℕ → Heap → Run ℕ
get_prev cur h =
    if cur == h.start_brk
    then ok 0
    else load h (cur - tag_size) λ t. ok (cur - tag_size * 2 - t.size)

-- `find_block`: the walk from the first fence, on fuel.
unfoldable pub find_from : (fuel cur size : ℕ) → Heap → Run ℕ
find_from zero cur size h = out_of_fuel
find_from (suc k) cur size h = elim (cur == 0) [
  | true ↦ ok 0
  | false ↦ load h cur λ t. elim (t.free && leb size t.size) [
    | true ↦ ok cur
    | false ↦ get_next cur h >>= λ next. find_from k next size h
  ]
]

-- No more tags than bytes lie in the heap.
unfoldable pub find_block : ℕ → Heap → Run ℕ
find_block size h = find_from (h.brk - h.start_brk + 2) h.start_brk size h

-- `mark_used` and `mark_free`: the header, then the footer that its size leads to.
unfoldable pub mark : Bool → (cur size : ℕ) → Heap → Heap
mark f cur size h =
    let n = size % 2 ^ 63 in
    record h { mem = store (cur + tag_size + n) (tag f n) (store cur (tag f n) h.mem) }

unfoldable pub mark_used : (cur size : ℕ) → Heap → Heap
mark_used = mark false

unfoldable pub mark_free : (cur size : ℕ) → Heap → Heap
mark_free = mark true

-- `max(0, old_size - to_use - TAGSIZE - TAGSIZE)`, in `int`s.
abbrev pub split_size_of : (old_size to_use : ℕ) → ℕ
split_size_of old_size to_use =
    let d = (old_size + 2 * u32_mod - to_use - tag_size - tag_size) % u32_mod in
    if is_negative d then 0 else d

-- `split`: the block is used, and what is left behind it becomes a free block if it is large enough.
unfoldable pub split : (cur to_use : ℕ) → Heap → Run Heap
split cur to_use h = load h cur λ t.
    let old_size = to_int t.size in
    let rest = split_size_of old_size to_use in
    if ltb min_block_size rest
    then (get_next cur (mark_used cur (from_int to_use) h) >>= λ next.
        ok (mark_free next (from_int rest) (mark_used cur (from_int to_use) h)))
    else ok (mark_used cur (from_int old_size) h)

-- `extend_heap`: the new block takes the place of the last fence, and a new fence is set behind
-- it. A store through the pointer that `mem_sbrk` returns on a failure is a fault.
unfoldable pub extend_heap : ℕ → Heap → Run (ℕ × Heap)
extend_heap size h =
    let wanted = (size + 2 * tag_size) % u64_mod in
    let to_extend = if leb min_block_size wanted then wanted else min_block_size in
    let (old, h') = mem_sbrk (to_int to_extend) h in
    if old == 0
    then fault
    else (let last = old - tag_size in
        get_next last (mark_free last size h') >>= λ next.
        ok (last, record h' { mem = store next (tag false 0) (mark_free last size h').mem }))

-- `mm_malloc` on a heap that `memlib_init` has set up: its call of that is the caller's part.
unfoldable pub mm_malloc : ℕ → Heap → Run (ℕ × Heap)
mm_malloc size h =
    if size == 0
    then ok (0, h)
    else (let n = if leb size min_block_size then min_block_size else size in
        find_block n h >>= λ found. (if found == 0 then extend_heap n h else ok (found, h)) >>= λ r.
        split r.0 (to_int n) r.1 >>= λ h'. ok (get_payload r.0, h'))

-- What `coalesce` knows of a neighbour: its `free` bit and its size as an `int`.
abbrev pub Neighbour : Type 0
Neighbour = Bool × ℕ

unfoldable pub prev_of : ℕ → Heap → Run Neighbour
prev_of cur h = load h (cur - tag_size) λ before.
    if before.size == 0
    then ok (false, 0)
    else (get_prev cur h >>= λ prev. load h prev λ t. ok (t.free, to_int t.size))

unfoldable pub next_of : ℕ → Heap → Run Neighbour
next_of cur h = get_next cur h >>= λ next. load h next λ t. ok (t.free, to_int t.size)

-- `coalesce`: the block is freed together with its free neighbours and the tags between them.
unfoldable pub coalesce : ℕ → Heap → Run Heap
coalesce cur h = prev_of cur h >>= λ p. next_of cur h >>= λ n. load h cur λ t.
    if p.0 && n.0
    then (get_prev cur h >>= λ prev.
        ok
          (mark_free prev ((from_int ((p.1 + n.1) % u32_mod) + t.size + tag_size * 4) % u64_mod) h))
    else if p.0
    then (get_prev cur h >>= λ prev.
        ok (mark_free prev ((from_int p.1 + t.size + tag_size * 2) % u64_mod) h))
    else if n.0
    then ok (mark_free cur ((from_int n.1 + t.size + tag_size * 2) % u64_mod) h)
    else ok (mark_free cur t.size h)

unfoldable pub mm_free : ℕ → Heap → Run Heap
mm_free addr h = if addr == 0 then ok h else coalesce (addr - tag_size) h

-- `mm_realloc`: the block is freed and a new one is had. Nothing is copied.
unfoldable pub mm_realloc : (addr size : ℕ) → Heap → Run (ℕ × Heap)
mm_realloc addr size h =
    if size == 0 then ok (0, h) else (mm_free addr h >>= λ h'. mm_malloc size h')

-- `memlib_init` at the address that the system call returns for the heap: two fences.
unfoldable pub memlib_init : ℕ → Memory → Heap
memlib_init base m =
    let (initial, h) =
      mem_sbrk min_block_size
        (record { mem = m; start_brk = base; brk = base; max_addr = base + max_heap }) in
    record h { mem = store (initial + tag_size) (tag false 0) (store initial (tag false 0) h.mem) }

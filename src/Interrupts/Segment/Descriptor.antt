-- ===== src/Interrupts/Segment/Descriptor.antt =====
-- What the processor reads back of a task descriptor.
use Prim.Native.Nat.{bit_or}
use osvirt_project.Base.{
  ℕ, ◌+◌, ◌-◌, ◌*◌, ◌/◌, ◌%◌, ◌^◌, ◌<◌, ◌≡◌, ◌≢◌, refl, sym, ap, ◌∙◌, List, Option, none, some,
  arith, length, set, replicate, get_elem?, length-set, get_elem?-set_self, get_elem?-set_ne,
  get_elem?-some, ok, ◌>>=◌, ltb, u64_mod, u32_mod, true,
}
use osvirt_project.Base.Bits.{bit_or_disjoint}
use osvirt_project.Interrupts.{Handlers}
use osvirt_project.Interrupts.Gates.{handler, handler_of, create_idt_table_lem}
use osvirt_project.Interrupts.Segment.{
  Tss, no_tss, tss_size, Traps, low_word, load_tss_segment, setup_interrupts,
}

-- A task descriptor as the processor reads it from its two words.
pub record TaskDescriptor : Type 0 where
  pub base : ℕ
  pub limit : ℕ
  pub kind : ℕ
  pub is_present : ℕ

abbrev pub descriptor_of : (low high : ℕ) → TaskDescriptor
descriptor_of low high = record {
  base = high % 2 ^ 32 * 2 ^ 32 + low / 2 ^ 56 % 2 ^ 8 * 2 ^ 24 + low / 2 ^ 16 % 2 ^ 24;
  limit = low / 2 ^ 48 % 2 ^ 4 * 2 ^ 16 + low % 2 ^ 16;
  kind = low / 2 ^ 40 % 2 ^ 4;
  is_present = low / 2 ^ 47 % 2;
}

-- The descriptor that a selector names.
abbrev pub task_of : (selector : ℕ) → List ℕ → Option TaskDescriptor
task_of selector gdt = elim (get_elem? gdt (selector / 8)) [
  | none ↦ none
  | some low ↦ elim (get_elem? gdt (selector / 8 + 1)) [
    | none ↦ none
    | some high ↦ some (descriptor_of low high)
  ]
]

-- A part below the multiple of a power.
join : (k q s r : ℕ) → s ≡ q * 2 ^ k → r < 2 ^ k → bit_or s r ≡ s + r
join k q s r e small = rw e (bit_or_disjoint k q r small)

joined_to : (k q x s r : ℕ) → x ≡ s → s ≡ q * 2 ^ k → r < 2 ^ k → bit_or x r ≡ s + r
joined_to k q x s r same e small = ap (λ y. bit_or y r) same ∙ join k q s r e small

low_word_parts :
    (top low limit : ℕ)
    → top < 2 ^ 8
    → low < 2 ^ 24
    → limit < 2 ^ 16
    → bit_or (bit_or (bit_or (bit_or (top * 2 ^ 56) (2 ^ 47)) (9 * 2 ^ 40)) (low * 2 ^ 16)) limit
      ≡ top * 2 ^ 56 + 2 ^ 47 + 9 * 2 ^ 40 + low * 2 ^ 16 + limit
low_word_parts top low limit st sl small =
    let s1 = top * 2 ^ 56 + 2 ^ 47 in
    let s2 = s1 + 9 * 2 ^ 40 in
    let s3 = s2 + low * 2 ^ 16 in
    joined_to 16 (top * 2 ^ 40 + 2 ^ 31 + 9 * 2 ^ 24 + low) _ s3 limit
      (joined_to 40 (top * 2 ^ 16 + 2 ^ 7 + 9) _ s2 (low * 2 ^ 16)
        (joined_to 47 (top * 2 ^ 9 + 1) _ s1 (9 * 2 ^ 40)
          (join 56 top (top * 2 ^ 56) (2 ^ 47) refl (omega arith)) (omega arith) (omega arith))
        (omega arith) (omega arith))
      (omega arith) small

read_back :
    (base limit : ℕ)
    → base < u64_mod
    → limit < 2 ^ 16
    → descriptor_of (low_word base limit) (base / u32_mod)
      ≡ record { base = base; limit = limit; kind = 9; is_present = 1 }
unfolding low_word
read_back base limit fits small =
    let top = base / 2 ^ 24 % 2 ^ 8 in
    let low = base % 2 ^ 24 in
    let w = low_word base limit in
    let sum : w ≡ top * 2 ^ 56 + 2 ^ 47 + 9 * 2 ^ 40 + low * 2 ^ 16 + limit =
      low_word_parts top low limit (omega arith) (omega arith) small in
    let e1 : w / 2 ^ 56 % 2 ^ 8 ≡ top = omega arith in
    let e2 : w / 2 ^ 16 % 2 ^ 24 ≡ low = omega arith in
    let e3 : w / 2 ^ 48 % 2 ^ 4 * 2 ^ 16 + w % 2 ^ 16 ≡ limit = omega arith in
    let e5 : w / 2 ^ 40 % 2 ^ 4 ≡ 9 = omega arith in
    let e6 : w / 2 ^ 47 % 2 ≡ 1 = omega arith in
    let e7 : base / u32_mod % 2 ^ 32 * 2 ^ 32 + top * 2 ^ 24 + low ≡ base = omega arith in
    rw (e1, e2, e3, e5, e6, e7) refl

-- The words of the descriptor are in the table.
load_tss_segment-run :
    (selector tss_ptr : ℕ) (t : Traps)
    → selector / 8 + 1 < length t.gdt
    → tss_ptr < u64_mod
    → (gdt : List ℕ) × (load_tss_segment selector tss_ptr t
        ≡ ok (record t { gdt = gdt; task_selector = selector }))
      × (task_of selector gdt
          ≡ some (record { base = tss_ptr; limit = tss_size - 1; kind = 9; is_present = 1 }))
      × ((i : ℕ) → i ≢ selector / 8 → i ≢ selector / 8 + 1 → get_elem? gdt i ≡ get_elem? t.gdt i)
unfolding load_tss_segment
load_tss_segment-run selector tss_ptr t long fits =
    let at = selector / 8 in
    let low = low_word tss_ptr (tss_size - 1) in
    let high = tss_ptr / u32_mod in
    let g1 = set t.gdt at low in
    let len = length-set t.gdt at low in
    let (old, is) = get_elem?-some t.gdt at (omega arith) in
    let (next, is_next) = get_elem?-some g1 (at + 1) (omega arith) in
    let first =
      get_elem?-set_ne g1 (at + 1) at high (omega arith) ∙ get_elem?-set_self t.gdt at low old is in
    let second = get_elem?-set_self g1 (at + 1) high next is_next in
    let test : ltb (at + 1) (length t.gdt) ≡ true = ground arith in
    (
      set g1 (at + 1) high,
      rw (load_tss_segment, test) refl,
      rw (task_of, first, second) (ap some (read_back tss_ptr (tss_size - 1) fits (omega arith))),
      λ i no_low no_high.
          get_elem?-set_ne g1 (at + 1) i high (λ e. no_high (sym e))
          ∙ get_elem?-set_ne t.gdt at i low (λ e. no_low (sym e)),
    )

-- `setup_interrupts`, on an interrupt table of more than 48 gates and a descriptor table with the
-- two words at 0x28, for handlers of 64 bits: it returns; the processor finds the handlers as
-- `create_idt_table` sets them, behind present 64-bit interrupt gates and in the kernel's code
-- segment, at privilege level 0; the table's place and limit, and behind the selector that it loads the task segment, present,
-- with its place and its limit; the segment has the stack of level 0 at its own place and no I/O
-- bitmap. The other descriptors are as before.
pub setup_interrupts_lem :
    (h : Handlers) (idt_address tss_ptr : ℕ) (t : Traps)
    → 48 < length t.idt
    → 6 < length t.gdt
    → tss_ptr < u64_mod
    → h.generic_trap_hdl_ptr < u64_mod
    → h.gp_hdl_ptr < u64_mod
    → h.pg_fault_hdl_ptr < u64_mod
    → h.timer_hdl_ptr < u64_mod
    → (t' : Traps) × (setup_interrupts h idt_address tss_ptr t ≡ ok t')
      × ((k : ℕ) → handler t'.idt k ≡ handler_of h k t.idt)
      × (t'.idt_base ≡ idt_address)
      × (t'.idt_limit ≡ 256 * 16 - 1)
      × (task_of t'.task_selector t'.gdt
          ≡ some (record { base = tss_ptr; limit = 103; kind = 9; is_present = 1 }))
      × (get_elem? t'.tss.rsp 0 ≡ some tss_ptr)
      × (t'.tss.iopb_base ≡ 104)
      × ((i : ℕ) → i ≢ 5 → i ≢ 6 → get_elem? t'.gdt i ≡ get_elem? t.gdt i)
unfolding setup_interrupts
setup_interrupts_lem h idt_address tss_ptr t long wide fits sg sp sf st =
    let (idt, filled, same, vectors) = create_idt_table_lem h t.idt long sg sp sf st in
    let tss : Tss = record no_tss { rsp = set (replicate 3 0) 0 tss_ptr; iopb_base = tss_size } in
    let before : Traps = record t {
      idt = idt;
      idt_base = idt_address;
      idt_limit = 256 * 16 - 1;
      tss = tss;
    } in
    let (gdt, run, task, others) = load_tss_segment-run 0x28 tss_ptr before wide fits in
    (
      record before { gdt = gdt; task_selector = 0x28 },
      rw (setup_interrupts, filled, ◌>>=◌) run,
      vectors,
      refl,
      refl,
      task,
      refl,
      refl,
      others,
    )

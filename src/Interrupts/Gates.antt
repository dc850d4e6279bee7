-- ===== src/Interrupts/Gates.antt =====
-- What the interrupt table holds.
use osvirt_project.Base.{
  ℕ, zero, suc, ◌+◌, ◌*◌, ◌/◌, ◌%◌, ◌^◌, ◌≤◌, ◌<◌, ◌≡◌, ◌≢◌, refl, sym, ap, ◌∙◌, inl, inr, ◌⊎◌,
  List, set, get_elem?, get_elem?-set_ne, get_elem?-set_self, get_elem?-some, length, length-set,
  Option, none, some, ok, ◌>>=◌, ltb, ◌==◌, ◌&&◌, if◌then◌else◌, Bool-cases, arith, u64_mod,
}
use osvirt_project.Interrupts.{Gate, gate_of, fillgate, Handlers, fill_from, create_idt_table}

-- Where the processor goes for a vector: the code segment, the address, the stack (0 for that of the
-- privilege level), and the privilege level from which an instruction may ask for it.
pub record Target : Type 0 where
  pub selector : ℕ
  pub address : ℕ
  pub stack : ℕ
  pub level : ℕ

-- A gate counts if it is present, an interrupt gate of 64 bits (type 14), and its reserved bits are 0.
abbrev pub target_of : Gate → Option Target
target_of g =
    if (g.gd_p == 1) && (g.gd_type == 14) && (g.gd_zero == 0)
    then some (record {
      selector = g.gd_selector;
      address = g.gd_looffset + g.gd_hioffset * 2 ^ 16;
      stack = g.gd_ist;
      level = g.gd_dpl;
    })
    else none

-- The handler that the processor finds for a vector.
abbrev pub handler : List Gate → ℕ → Option Target
handler idt n = elim (get_elem? idt n) [ none ↦ none | some g ↦ target_of g ]

-- A handler of the kernel: in its code segment, on the stack of level 0, not to be asked for by
-- programs.
abbrev pub in_kernel : ℕ → Target
in_kernel fn = record { selector = 0x08; address = fn; stack = 0; level = 0 }

fillgate-run :
    (num fn ist : ℕ) (idt : List Gate)
    → num < length idt
    → fillgate num fn ist idt ≡ ok (set idt num (gate_of fn ist))
unfolding fillgate
fillgate-run num fn ist idt inside = ground arith

-- The table after the handlers are set: which vector has which.
abbrev pub handler_of : Handlers → ℕ → List Gate → Option Target
handler_of h n idt =
    if n == 48
    then some (in_kernel h.timer_hdl_ptr)
    else if n == 14
    then some (in_kernel h.pg_fault_hdl_ptr)
    else if n == 13
    then some (in_kernel h.gp_hdl_ptr)
    else if ltb n 32
    then some (in_kernel h.generic_trap_hdl_ptr)
    else handler idt n

handler-set_self :
    (idt : List Gate) (n fn : ℕ)
    → n < length idt
    → fn < u64_mod
    → handler (set idt n (gate_of fn 0)) n ≡ some (in_kernel fn)
handler-set_self idt n fn inside small =
    let (g, held) = get_elem?-some idt n inside in
    let whole : fn % 2 ^ 16 + ((fn / 2 ^ 16) % 2 ^ 48) * 2 ^ 16 ≡ fn = omega arith in
    rw (handler, get_elem?-set_self idt n (gate_of fn 0) g held, whole) refl

handler-set_ne :
    (idt : List Gate) (n k fn : ℕ) → k ≢ n → handler (set idt n (gate_of fn 0)) k ≡ handler idt k
handler-set_ne idt n k fn ne =
    ap (λ (g : Option Gate). elim g [ none ↦ none | some g ↦ target_of g ])
      (get_elem?-set_ne idt n k (gate_of fn 0) (λ e. ne (sym e)))

handler-set :
    (idt : List Gate) (n k fn : ℕ)
    → n < length idt
    → fn < u64_mod
    → handler (set idt n (gate_of fn 0)) k ≡ (if k == n then some (in_kernel fn) else handler idt k)
handler-set idt n k fn inside small = elim (Bool-cases (k == n)) [
  | inl e ↦ let same : k ≡ n = ground arith in rw (e, same) (handler-set_self idt n fn inside small)
  | inr e ↦ rw e (handler-set_ne idt n k fn (ground arith))
]

-- The loop over the first vectors.
fill_from-handler :
    (rounds i fn : ℕ) (idt : List Gate)
    → i + rounds ≤ length idt
    → fn < u64_mod
    → (idt' : List Gate) × (fill_from rounds i fn idt ≡ ok idt')
      × (length idt' ≡ length idt)
      × ((k : ℕ) → (i ≤ k) × (k < i + rounds) → handler idt' k ≡ some (in_kernel fn))
      × ((k : ℕ) → (k < i) ⊎ (i + rounds ≤ k) → handler idt' k ≡ handler idt k)
unfolding fill_from
fill_from-handler zero i fn idt inside small =
    (idt, refl, refl, (λ k h. absurd (omega arith)), (λ k h. refl))
fill_from-handler (suc r) i fn idt inside small =
    let next = set idt i (gate_of fn 0) in
    let long = length-set idt i (gate_of fn 0) in
    let (idt', run, same, in_range, others) =
      fill_from-handler r (i + 1) fn next (omega arith) small in
    (
      idt',
      rw (fill_from, fillgate-run i fn 0 idt (omega arith), ◌>>=◌) run,
      same ∙ long,
      (λ k h. elim (Bool-cases (k == i)) [
        | inl e ↦
            others k (inl (ground arith)) ∙ handler-set idt i k fn (omega arith) small ∙ rw e refl
        | inr e ↦ in_range k (ground arith, omega arith)
      ]),
      (λ k h. others k (omega arith) ∙ handler-set_ne idt i k fn (omega arith)),
    )

-- `create_idt_table` on a table of 49 gates or more, with 64-bit handlers, returns a table of the
-- same length: the processor finds, present and in the kernel's code segment, the generic handler behind the vectors below 32 but 13 and 14,
-- which have the handlers for general protection and page faults, the timer's behind 48, and what
-- was there behind every other vector.
pub create_idt_table_lem :
    (h : Handlers) (idt : List Gate)
    → 49 ≤ length idt
    → h.generic_trap_hdl_ptr < u64_mod
    → h.gp_hdl_ptr < u64_mod
    → h.pg_fault_hdl_ptr < u64_mod
    → h.timer_hdl_ptr < u64_mod
    → (idt' : List Gate) × (create_idt_table h idt ≡ ok idt')
      × (length idt' ≡ length idt)
      × ((k : ℕ) → handler idt' k ≡ handler_of h k idt)
unfolding create_idt_table
create_idt_table_lem h idt long sg sp sf st =
    let (t, run, same, in_range, others) =
      fill_from-handler 32 0 h.generic_trap_hdl_ptr idt (omega arith) sg in
    let t1 = set t 13 (gate_of h.gp_hdl_ptr 0) in
    let t2 = set t1 14 (gate_of h.pg_fault_hdl_ptr 0) in
    let t3 = set t2 48 (gate_of h.timer_hdl_ptr 0) in
    let l1 = length-set t 13 (gate_of h.gp_hdl_ptr 0) in
    let l2 = length-set t1 14 (gate_of h.pg_fault_hdl_ptr 0) in
    let l3 = length-set t2 48 (gate_of h.timer_hdl_ptr 0) in
    let first : (k : ℕ)
        → handler t k
          ≡ (if ltb k 32 then some (in_kernel h.generic_trap_hdl_ptr) else handler idt k) =
      λ k. elim (Bool-cases (ltb k 32)) [
        | inl e ↦ in_range k (omega arith, ground arith) ∙ rw e refl
        | inr e ↦ others k (inr (ground arith)) ∙ rw e refl
      ] in
    (
      t3,
      rw
          (
            run,
            ◌>>=◌,
            fillgate-run 13 h.gp_hdl_ptr 0 t (omega arith),
            fillgate-run 14 h.pg_fault_hdl_ptr 0 t1 (omega arith),
            fillgate-run 48 h.timer_hdl_ptr 0 t2 (omega arith),
          )
          refl,
      omega arith,
      λ k.
          rw
            (
              handler-set t2 48 k h.timer_hdl_ptr (omega arith) st,
              handler-set t1 14 k h.pg_fault_hdl_ptr (omega arith) sf,
              handler-set t 13 k h.gp_hdl_ptr (omega arith) sp,
              first k,
            )
            refl,
    )

-- ===== src/Apic/Enable.antt =====
-- What `x86_lapic_enable` writes.
use osvirt_project.Base.{
  ℕ, ◌^◌, ◌<◌, ◌≡◌, refl, sym, ap, subst, ◌∙◌, inl, inr, true, false, List, [], ◌∷◌, ◌++◌, arith,
  ◌==◌, if◌then◌else◌, Bool-cases, u32_mod,
}
use mathlib.Core.List.{append_assoc}
use osvirt_project.Apic.{
  Access, barrier, msr_write, says_x2apic, says_base, Cpu, Lapic, rdmsr, wrmsr, x2apic_base,
  x86_x2apic_barrier, x86_lapic_write, has_apic, before_p6, has_x2apic, x2apic_of, page_bits,
  locate, announce, set_flat, set_timer, x86_lapic_enable,
}
use osvirt_project.Apic.Registers.{
  registers, register_of, IsBase, Programs, Programs-nil, Programs-trans, registers-quiet, noted,
  x86_lapic_write-Programs,
}

-- Where the registers are: at a fixed address before P6, else in the x2APIC mode if there is one,
-- else in the page that the base register names.
abbrev pub base_of : Cpu → ℕ
base_of cpu =
    if before_p6 cpu
    then 0xfee00000
    else if has_x2apic cpu
    then x2apic_base
    else page_bits (rdmsr cpu 0x1b)

-- The spurious vector, the flat model in memory only, the priority, and the timer: the divider,
-- the count, and last the vector 48 in the periodic mode.
abbrev pub setup : Cpu → List (ℕ × ℕ)
setup cpu =
    (0x0f, 0x1ff) ∷ (if x2apic_of cpu == 0 then (0x0e, 0xffffffff) ∷ [] else [])
    ++ ((0x08, 0) ∷ (0x3e, 0) ∷ (0x38, 0x10000) ∷ (0x32, 0x20030) ∷ [])

base_of-IsBase : (cpu : Cpu) → IsBase (base_of cpu)
base_of-IsBase cpu = elim (Bool-cases (before_p6 cpu)) [
  | inl e ↦ rw e (inr (omega arith))
  | inr e ↦ elim (Bool-cases (has_x2apic cpu)) [
    | inl x ↦ rw (e, x) (inl refl)
    | inr x ↦ rw (e, x) (inr (below (rdmsr cpu 0x1b)))
  ]
]
  where
    below : (msr : ℕ) → page_bits msr < 2 ^ 36
    below msr = omega arith

-- The base is set and no register is written.
record Located (cpu : Cpu) (s s' : Lapic) : Type 0 where
  base : s'.lapic_base ≡ base_of cpu
  written : registers (base_of cpu) s'.log ≡ registers (base_of cpu) s.log
  time : s'.time ≡ s.time

below_registers : (base low high : ℕ) → register_of base (msr_write 0x1b low high) ≡ []
unfolding register_of
below_registers base low high = elim (Bool-cases (base == x2apic_base)) [
  | inl e ↦ rw e refl
  | inr e ↦ rw e refl
]

is_quiet :
    (base : ℕ) (log : List Access) (low high : ℕ)
    → registers base ((log ++ (barrier ∷ [])) ++ (msr_write 0x1b low high ∷ []))
      ≡ registers base log
unfolding register_of
is_quiet base log low high =
    registers-quiet base (log ++ (barrier ∷ [])) (msr_write 0x1b low high)
      (below_registers base low high)
    ∙ registers-quiet base log barrier refl

locate-Located : (cpu : Cpu) (s : Lapic) → Located cpu s (locate cpu s)
unfolding locate wrmsr x86_x2apic_barrier
locate-Located cpu s = elim (Bool-cases (before_p6 cpu)) [
  | inl e ↦ rw (locate, e) (record { base = rw e refl; written = refl; time = refl })
  | inr e ↦ elim (Bool-cases (has_x2apic cpu)) [
    | inl x ↦
        rw (locate, e, x)
          (record {
            base = rw (e, x) refl;
            written = is_quiet (base_of cpu) s.log _ _;
            time = refl;
          })
    | inr x ↦
        rw (locate, e, x)
          (record {
            base = rw (e, x) refl;
            written = is_quiet (base_of cpu) s.log _ _;
            time = refl;
          })
  ]
]

announce-Programs : (cpu : Cpu) (s : Lapic) → Programs s [] (announce cpu s)
unfolding announce register_of
announce-Programs cpu s = elim (Bool-cases (x2apic_of cpu == 0)) [
  | inl e ↦ rw (announce, e) (noted (says_base s.lapic_base) s [] refl)
  | inr e ↦ rw (announce, e) (noted says_x2apic s [] refl)
]

set_flat-Programs :
    (cpu : Cpu) (s : Lapic)
    → IsBase s.lapic_base
    → Programs s (if x2apic_of cpu == 0 then (0x0e, 0xffffffff) ∷ [] else []) (set_flat cpu s)
unfolding set_flat
set_flat-Programs cpu s is = elim (Bool-cases (x2apic_of cpu == 0)) [
  | inl e ↦
      rw (set_flat, e) (x86_lapic_write-Programs 0x0e 0xffffffff s is (omega arith) (omega arith))
  | inr e ↦ rw (set_flat, e) (Programs-nil s)
]

-- A write behind other steps.
then_write :
    (offset value : ℕ) {s s1 : Lapic} {l : List (ℕ × ℕ)}
    → IsBase s.lapic_base
    → offset < 2 ^ 8
    → value < u32_mod
    → Programs s l s1
    → Programs s (l ++ ((offset, value) ∷ [])) (x86_lapic_write offset value s1)
then_write offset value {s} {s1} is small fits p =
    Programs-trans p
      (x86_lapic_write-Programs offset value s1 (subst IsBase (sym p.base) is) small fits)

set_timer-Programs :
    (s : Lapic)
    → IsBase s.lapic_base
    → Programs s ((0x3e, 0) ∷ (0x38, 0x10000) ∷ (0x32, 0x20030) ∷ []) (set_timer s)
unfolding set_timer
set_timer-Programs s is =
    let p = then_write 0x32 0x20030 is (omega arith) (omega arith) (
      then_write 0x38 0x10000 is (omega arith) (omega arith)
        (x86_lapic_write-Programs 0x3e 0 s is (omega arith) (omega arith))) in
    record { base = p.base; written = p.written }

set_timer-on : (s : Lapic) → (set_timer s).has_time_ptr ≡ true
unfolding set_timer
set_timer-on s = refl

in_order :
    (a b : ℕ × ℕ) (flat timer : List (ℕ × ℕ))
    → (((a ∷ []) ++ flat) ++ (b ∷ [])) ++ timer ≡ a ∷ (flat ++ (b ∷ timer))
in_order a b flat timer = ap (λ l. a ∷ l) (append_assoc flat (b ∷ []) timer)

-- Without an APIC `x86_lapic_enable` writes nothing and leaves a null base. With one, the base is
-- where the processor has the registers, the registers are written with the values of the set-up
-- in their order, in either mode, the flat model in memory only, and the time can be read.
pub x86_lapic_enable-registers :
    (cpu : Cpu) (s : Lapic)
    → ((has_apic cpu ≡ false → x86_lapic_enable cpu s ≡ record s { lapic_base = 0 })
        × (has_apic cpu ≡ true
            → ((x86_lapic_enable cpu s).lapic_base ≡ base_of cpu)
              × IsBase (base_of cpu)
              × (registers (base_of cpu) (x86_lapic_enable cpu s).log
                  ≡ registers (base_of cpu) s.log ++ setup cpu)
              × ((x86_lapic_enable cpu s).has_time_ptr ≡ true)))
unfolding x86_lapic_enable
x86_lapic_enable-registers cpu s = (
  λ none_there. rw (x86_lapic_enable, none_there) refl,
  λ there.
      let found = locate-Located cpu s in
      let s1 = locate cpu s in
      let is = base_of-IsBase cpu in
      let is1 = subst IsBase (sym found.base) is in
      let p = then_write 0x0f 0x1ff is1 (omega arith) (omega arith) (announce-Programs cpu s1) in
      let s2 = x86_lapic_write 0x0f 0x1ff (announce cpu s1) in
      let q =
        then_write 0x08 0 is1 (omega arith) (omega arith)
          (Programs-trans p (set_flat-Programs cpu s2 (subst IsBase (sym p.base) is1))) in
      let r = Programs-trans q (
        set_timer-Programs (x86_lapic_write 0x08 0 (set_flat cpu s2))
          (subst IsBase (sym q.base) is1)) in
      rw (x86_lapic_enable, there)
        (
          r.base ∙ found.base,
          is,
          subst
                (λ b.
                  registers b (set_timer (x86_lapic_write 0x08 0 (set_flat cpu s2))).log
                  ≡ registers b s1.log ++ setup cpu)
                found.base
                (r.written
                  ∙ ap (λ l. registers s1.lapic_base s1.log ++ l)
                      (in_order (0x0f, 0x1ff) (0x08, 0)
                        (if x2apic_of cpu == 0 then (0x0e, 0xffffffff) ∷ [] else [])
                        ((0x3e, 0) ∷ (0x38, 0x10000) ∷ (0x32, 0x20030) ∷ [])))
              ∙ ap (λ l. l ++ setup cpu) found.written,
          set_timer-on (x86_lapic_write 0x08 0 (set_flat cpu s2)),
        ),
)

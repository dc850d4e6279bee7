-- ===== src/Apic/Switch.antt =====
-- How `x86_lapic_enable` writes the register 0x1b.
use Prim.Native.Nat.{bit_or}
use osvirt_project.Base.{
  ℕ, ◌+◌, ◌*◌, ◌/◌, ◌%◌, ◌^◌, ◌<◌, ◌≡◌, refl, sym, ap, ◌∙◌, ◌⊎◌, inl, inr, true, false, List, [],
  ◌∷◌, ◌++◌, arith, ◌==◌, Bool-cases, u32_mod,
}
use mathlib.Core.List.{append_assoc, append-nil}
use osvirt_project.Base.Bits.{bit_or_halves, bit_or_shift, bit_or_none, bit_or_disjoint}
use osvirt_project.Apic.{
  Access, barrier, msr_write, Cpu, Lapic, note, rdmsr, wrmsr, x2apic_base, x86_x2apic_barrier,
  x86_lapic_write, has_apic, before_p6, x2apic_of, locate, announce, set_flat, set_timer,
  x86_lapic_enable,
}
use osvirt_project.Apic.Mode.{
  Mode, in_page, x2apic, apic_register, apic_write, apic_writes, TurnsOn,
}

bit_or_even : (a b : ℕ) → b % 2 ≡ 0 → bit_or a b % 2 ≡ a % 2
bit_or_even a b even = let whole = bit_or_halves a b in omega arith

bit_or_odd : (a b : ℕ) → b % 2 ≡ 1 → bit_or a b % 2 ≡ 1
bit_or_odd a b odd = let whole = bit_or_halves a b in omega arith

-- Either of the two values that are joined to the register.
module _ (msr x2 : ℕ) (small : x2 < 2 ^ 11) where
  abbrev joined : ℕ
  joined = bit_or (bit_or msr 0x800) x2

  high_bits : joined / 2 ^ 12 ≡ msr / 2 ^ 12
  high_bits =
      let none_left : x2 / 2 ^ 12 ≡ 0 = omega arith in
      bit_or_shift 12 (bit_or msr 0x800) x2
      ∙ ap (λ v. bit_or (bit_or msr 0x800 / 2 ^ 12) v) none_left
      ∙ bit_or_none (bit_or msr 0x800 / 2 ^ 12) (bit_or msr 0x800 / 2 ^ 12) (omega arith)
      ∙ bit_or_shift 12 msr 0x800
      ∙ bit_or_none (msr / 2 ^ 12) (msr / 2 ^ 12) (omega arith)

  bit_11 : joined / 2 ^ 11 % 2 ≡ 1
  bit_11 =
      let none_left : x2 / 2 ^ 11 ≡ 0 = omega arith in
      ap (λ v. v % 2) (bit_or_shift 11 (bit_or msr 0x800) x2)
      ∙ bit_or_even (bit_or msr 0x800 / 2 ^ 11) (x2 / 2 ^ 11) (omega arith)
      ∙ ap (λ v. v % 2) (bit_or_shift 11 msr 0x800)
      ∙ bit_or_odd (msr / 2 ^ 11) 1 refl

  bit_10 :
      ((x2 / 2 ^ 10 % 2 ≡ 1) → joined / 2 ^ 10 % 2 ≡ 1)
      × ((x2 / 2 ^ 10 % 2 ≡ 0) → joined / 2 ^ 10 % 2 ≡ msr / 2 ^ 10 % 2)
  bit_10 = (
    λ odd.
        ap (λ v. v % 2) (bit_or_shift 10 (bit_or msr 0x800) x2)
        ∙ bit_or_odd (bit_or msr 0x800 / 2 ^ 10) (x2 / 2 ^ 10) odd,
    λ even.
        ap (λ v. v % 2) (bit_or_shift 10 (bit_or msr 0x800) x2)
        ∙ bit_or_even (bit_or msr 0x800 / 2 ^ 10) (x2 / 2 ^ 10) even
        ∙ ap (λ v. v % 2) (bit_or_shift 10 msr 0x800)
        ∙ bit_or_even (msr / 2 ^ 10) 2 refl,
  )

  -- The two halves that are written are the whole.
  whole : msr < 2 ^ 64 → joined / u32_mod % u32_mod * 2 ^ 32 + joined % u32_mod ≡ joined
  whole fits = let high = high_bits in omega arith

apic_writes-note :
    (a : Access) (s : Lapic) → apic_writes (note a s).log ≡ apic_writes s.log ++ apic_write a
unfolding apic_writes
apic_writes-note a s = go s.log
  where
    go : (log : List Access) → apic_writes (log ++ (a ∷ [])) ≡ apic_writes log ++ apic_write a
    go [] = append-nil (apic_write a)
    go (b ∷ log) =
        ap (λ l. apic_write b ++ l) (go log)
        ∙ sym (append_assoc (apic_write b) (apic_writes log) (apic_write a))

-- A step that does not write the register 0x1b.
abbrev pub IsQuiet : Lapic → Lapic → Type 0
IsQuiet s s' = apic_writes s'.log ≡ apic_writes s.log

noted-IsQuiet : (a : Access) (s : Lapic) → apic_write a ≡ [] → IsQuiet s (note a s)
noted-IsQuiet a s none_left =
    apic_writes-note a s
    ∙ ap (λ l. apic_writes s.log ++ l) none_left
    ∙ append-nil (apic_writes s.log)

x86_lapic_write-IsQuiet :
    (offset value : ℕ) (s : Lapic) → IsQuiet s (x86_lapic_write offset value s)
unfolding x86_lapic_write wrmsr x86_x2apic_barrier apic_write
x86_lapic_write-IsQuiet offset value s = elim (Bool-cases (s.lapic_base == x2apic_base)) [
  | inl x2 ↦
      let other : (0x800 + offset == 0x1b) ≡ false = ground arith in
      rw (x86_lapic_write, x2)
        (noted-IsQuiet _ (note barrier s) (rw other refl) ∙ noted-IsQuiet barrier s refl)
  | inr memory ↦ rw (x86_lapic_write, memory) (noted-IsQuiet _ s refl)
]

-- What comes after the switch.
module _ (cpu : Cpu) (s : Lapic) where
  announce-IsQuiet : IsQuiet s (announce cpu s)
  unfolding announce apic_write
  announce-IsQuiet = elim (Bool-cases (x2apic_of cpu == 0)) [
    | inl e ↦ rw (announce, e) (noted-IsQuiet _ s refl)
    | inr e ↦ rw (announce, e) (noted-IsQuiet _ s refl)
  ]

  set_flat-IsQuiet : IsQuiet s (set_flat cpu s)
  unfolding set_flat
  set_flat-IsQuiet = elim (Bool-cases (x2apic_of cpu == 0)) [
    | inl e ↦ rw (set_flat, e) (x86_lapic_write-IsQuiet 0x0e 0xffffffff s)
    | inr e ↦ rw (set_flat, e) refl
  ]

set_timer-IsQuiet : (s : Lapic) → IsQuiet s (set_timer s)
unfolding set_timer
set_timer-IsQuiet s =
    let s1 = x86_lapic_write 0x3e 0 s in
    let s2 = x86_lapic_write 0x38 0x10000 s1 in
    x86_lapic_write-IsQuiet 0x32 0x20030 s2
    ∙ x86_lapic_write-IsQuiet 0x38 0x10000 s1
    ∙ x86_lapic_write-IsQuiet 0x3e 0 s

pub enable-IsQuiet :
    (cpu : Cpu) (s : Lapic) → has_apic cpu ≡ true → IsQuiet (locate cpu s) (x86_lapic_enable cpu s)
unfolding x86_lapic_enable
enable-IsQuiet cpu s there =
    let s1 = announce cpu (locate cpu s) in
    let s2 = x86_lapic_write 0x0f 0x1ff s1 in
    rw (x86_lapic_enable, there)
      (set_timer-IsQuiet (x86_lapic_write 0x08 0 (set_flat cpu s2))
        ∙ x86_lapic_write-IsQuiet 0x08 0 (set_flat cpu s2)
        ∙ set_flat-IsQuiet cpu s2
        ∙ x86_lapic_write-IsQuiet 0x0f 0x1ff s1
        ∙ announce-IsQuiet cpu (locate cpu s))

pub apic_register-whole :
    (cpu : Cpu) → cpu.msr_low 0x1b < 2 ^ 32 → rdmsr cpu 0x1b ≡ apic_register cpu
unfolding rdmsr
apic_register-whole cpu low = bit_or_disjoint 32 (cpu.msr_high 0x1b) (cpu.msr_low 0x1b) low

-- The write of the register and its value.
module _ (cpu : Cpu) (s : Lapic) (low : cpu.msr_low 0x1b < 2 ^ 32)
    (high : cpu.msr_high 0x1b < 2 ^ 32) (late : before_p6 cpu ≡ false) where
  abbrev pub value : ℕ
  value = bit_or (bit_or (rdmsr cpu 0x1b) 0x800) (x2apic_of cpu)

  located-log :
      (locate cpu s).log
      ≡ (note (msr_write 0x1b (value % u32_mod) (value / u32_mod % u32_mod)) (note barrier s)).log
  unfolding locate wrmsr x86_x2apic_barrier
  located-log = rw (locate, late) refl

  pub located-writes :
      x2apic_of cpu < 2 ^ 11 → apic_writes (locate cpu s).log ≡ apic_writes s.log ++ (value ∷ [])
  unfolding apic_write
  located-writes small =
      let fits : rdmsr cpu 0x1b < 2 ^ 64 =
        (let same = apic_register-whole cpu low in omega arith) in
      ap apic_writes located-log
      ∙ apic_writes-note (msr_write 0x1b (value % u32_mod) (value / u32_mod % u32_mod))
          (note barrier s)
      ∙ ap (λ l. l ++ apic_write (msr_write 0x1b (value % u32_mod) (value / u32_mod % u32_mod)))
          (noted-IsQuiet barrier s refl)
      ∙ ap (λ v. apic_writes s.log ++ (v ∷ [])) (whole (rdmsr cpu 0x1b) (x2apic_of cpu) small fits)

  pub value-TurnsOn :
      (mode : Mode)
      → x2apic_of cpu < 2 ^ 11
      → ((mode ≡ x2apic) × (x2apic_of cpu / 2 ^ 10 % 2 ≡ 1))
        ⊎ ((mode ≡ in_page) × (x2apic_of cpu / 2 ^ 10 % 2 ≡ 0))
      → TurnsOn mode (apic_register cpu) value
  value-TurnsOn mode small way =
      let same = apic_register-whole cpu low in
      let msr = rdmsr cpu 0x1b in
      record {
        on = bit_11 msr (x2apic_of cpu) small;
        bit = elim way [
          | inl (is, odd) ↦ rw is ((bit_10 msr (x2apic_of cpu) small).0 odd)
          | inr (is, even) ↦
              rw is ((bit_10 msr (x2apic_of cpu) small).1 even ∙ ap (λ v. v / 2 ^ 10 % 2) same)
        ];
        page = high_bits msr (x2apic_of cpu) small ∙ ap (λ v. v / 2 ^ 12) same;
      }

pub fixed-IsQuiet : (cpu : Cpu) (s : Lapic) → before_p6 cpu ≡ true → IsQuiet s (locate cpu s)
unfolding locate
fixed-IsQuiet cpu s early = rw (locate, early) refl

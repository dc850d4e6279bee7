-- ===== src/Apic/Enabled.antt =====
-- `x86_lapic_enable` against the processor's manual.
use osvirt_project.Base.{
  ◌/◌, ◌%◌, ◌^◌, ◌<◌, ◌≡◌, refl, ap, subst, ◌∙◌, ◌⊎◌, inl, inr, true, ◌++◌, arith, Bool-cases,
}
use osvirt_project.Apic.{
  Cpu, Lapic, has_apic, before_p6, has_x2apic, x2apic_of, page_bits, x86_lapic_enable,
}
use osvirt_project.Apic.Registers.{registers}
use osvirt_project.Apic.Enable.{base_of, setup, x86_lapic_enable-registers}
use osvirt_project.Apic.Mode.{
  Mode, fixed, in_page, x2apic, IsMode, apic_register, place_of, program_of, apic_writes, Switched,
  Enabled,
}
use osvirt_project.Apic.Switch.{
  enable-IsQuiet, fixed-IsQuiet, apic_register-whole, value, located-writes, value-TurnsOn,
}

-- Where the modes' tests of the code are the manual's.
module _ (cpu : Cpu) (s : Lapic) (low : cpu.msr_low 0x1b < 2 ^ 32)
    (high : cpu.msr_high 0x1b < 2 ^ 32) (there : has_apic cpu ≡ true) where
  enabled :
      (mode : Mode)
      → base_of cpu ≡ place_of mode (apic_register cpu)
      → setup cpu ≡ program_of mode
      → Switched mode
          (apic_register cpu)
          (apic_writes s.log)
          (apic_writes (x86_lapic_enable cpu s).log)
      → Enabled cpu mode s (x86_lapic_enable cpu s)
  enabled mode place program switched =
      let (base, is, written, clock) = (x86_lapic_enable-registers cpu s).1 there in
      record {
        base = base ∙ place;
        set_up =
            subst
              (λ b. registers b (x86_lapic_enable cpu s).log ≡ registers b s.log ++ program_of mode)
              place (written ∙ ap (λ l. registers (base_of cpu) s.log ++ l) program);
        switched = switched;
        clock = clock;
      }

  mode-cases : (mode : Mode) × IsMode cpu mode × Enabled cpu mode s (x86_lapic_enable cpu s)
  mode-cases = elim (Bool-cases (before_p6 cpu)) [
    | inl early ↦ (
      fixed,
      ground arith,
      enabled fixed (rw early refl) (rw early refl)
          (enable-IsQuiet cpu s there ∙ fixed-IsQuiet cpu s early),
    )
    | inr late ↦ elim (Bool-cases (has_x2apic cpu)) [
      | inl x ↦
          let small : x2apic_of cpu < 2 ^ 11 = rw (late, x) (omega arith) in
          (
            x2apic,
            (ground arith, ground arith),
            enabled x2apic (rw (late, x) refl) (rw (late, x) refl) (
              value cpu s low high late,
              enable-IsQuiet cpu s there ∙ located-writes cpu s low high late small,
              value-TurnsOn cpu s low high late x2apic small (inl (refl, rw (late, x) refl)),
            ),
          )
      | inr x ↦
          let small : x2apic_of cpu < 2 ^ 11 = rw (late, x) (omega arith) in
          let same = apic_register-whole cpu low in
          (
            in_page,
            (ground arith, ground arith),
            enabled in_page (rw (late, x) (ap page_bits same ∙ omega arith)) (rw (late, x) refl) (
              value cpu s low high late,
              enable-IsQuiet cpu s there ∙ located-writes cpu s low high late small,
              value-TurnsOn cpu s low high late in_page small (inr (refl, rw (late, x) refl)),
            ),
          )
    ]
  ]

-- Without an APIC (bit 9 of `edx`) `x86_lapic_enable` only sets the base to null. With one, the family
-- and bit 21 of `ecx` tell the mode. The base is then the fixed address, the page that the register 0x1b
-- names, or the mark of the x2APIC mode; the registers behind it are written with the values of the
-- set-up in their order, the flat model not in the x2APIC mode; the register 0x1b is written
-- once, but not in the first case, so that the APIC is on, in the x2APIC mode in that case, and its
-- page stays; and the time can be read. The halves of the register 0x1b have 32 bits.
pub x86_lapic_enable_lem :
    (cpu : Cpu) (s : Lapic)
    → cpu.msr_low 0x1b < 2 ^ 32
    → cpu.msr_high 0x1b < 2 ^ 32
    → ((cpu.edx / 2 ^ 9 % 2 ≡ 0) × (x86_lapic_enable cpu s ≡ record s { lapic_base = 0 }))
      ⊎ ((cpu.edx / 2 ^ 9 % 2 ≡ 1)
          × (mode : Mode) × IsMode cpu mode
          × Enabled cpu mode s (x86_lapic_enable cpu s))
x86_lapic_enable_lem cpu s low high = elim (Bool-cases (has_apic cpu)) [
  | inr none_there ↦ inl (ground arith, (x86_lapic_enable-registers cpu s).0 none_there)
  | inl there ↦
      let (mode, is, on) = mode-cases cpu s low high there in inr (ground arith, mode, is, on)
]

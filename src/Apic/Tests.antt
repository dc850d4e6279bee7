-- ===== src/Apic/Tests.antt =====
-- An APIC in memory and one in the x2APIC mode.
use osvirt_project.Base.{
  ℕ, ◌+◌, ◌-◌, ◌/◌, ◌%◌, ◌^◌, ◌<◌, ◌≡◌, ◌⊎◌, refl, inr, true, false, [], ◌∷◌, ◌++◌, arith,
  replicate, if◌then◌else◌, ◌==◌, ok, u64_mod,
}
use osvirt_project.Apic.{
  store, load, Cpu, Lapic, register_at, x86_lapic_enable, x86_lapic_write_icr,
}
use osvirt_project.Apic.Registers.{registers}
use osvirt_project.Apic.Mode.{Mode, IsMode, Enabled}
use osvirt_project.Apic.Enabled.{x86_lapic_enable_lem}
use osvirt_project.Apic.Timer.{interrupts, interrupts-count}
use osvirt_project.Apic.Command.{x86_lapic_write_icr_lem}

-- The command is completed at the third poll.
abbrev cpu : Cpu
cpu = record {
  eax = 0x600;
  ecx = 2 ^ 21;
  edx = 2 ^ 9;
  msr_low = λ reg. 0xfee00900;
  msr_high = λ reg. 0;
  word_at = λ polls addr. if polls == 2 then 0 else 0x1000;
}

abbrev off : Lapic
off = record { lapic_base = 0; time = 5; has_time_ptr = false; log = [] }

x86_lapic_enable_lem_example :
    ((cpu.edx / 2 ^ 9 % 2 ≡ 0) × (x86_lapic_enable cpu off ≡ off))
    ⊎ ((cpu.edx / 2 ^ 9 % 2 ≡ 1)
        × (mode : Mode) × IsMode cpu mode
        × Enabled cpu mode off (x86_lapic_enable cpu off))
x86_lapic_enable_lem_example = x86_lapic_enable_lem cpu off (omega arith) (omega arith)

abbrev on : Lapic
on = record { lapic_base = 0xfee00000; time = 2 ^ 64 - 1; has_time_ptr = true; log = [] }

interrupts-count_example :
    ((interrupts 3 on).time ≡ (2 ^ 64 - 1 + 3) % u64_mod)
    × ((interrupts 3 on).lapic_base ≡ 0xfee00000)
    × (registers 0xfee00000 (interrupts 3 on).log
        ≡ registers 0xfee00000 [] ++ replicate 3 (0x0b, 0))
interrupts-count_example = interrupts-count 3 on (inr (omega arith)) (omega arith)

busy : (i : ℕ) → i < 2 → ¬ ((if i == 2 then 0 else 0x1000) / 2 ^ 12 % 2 ≡ 0)
busy i less e = ground arith

x86_lapic_write_icr_lem_example :
    x86_lapic_write_icr cpu 9 0xc0500 on
    ≡ ok (record on {
      log =
          store (register_at 0xfee00000 0x30) 0xc0500
          ∷ replicate 3 (load (register_at 0xfee00000 0x30));
    })
x86_lapic_write_icr_lem_example =
    x86_lapic_write_icr_lem cpu 9 0xc0500 2 on (omega arith) (omega arith) refl busy

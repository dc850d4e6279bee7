-- ===== src/Apic/Mode.antt =====
-- The processor's manual: what the bits of `cpuid` and of the register 0x1b say of the APIC.
use osvirt_project.Base.{
  ℕ, ◌+◌, ◌-◌, ◌*◌, ◌/◌, ◌%◌, ◌^◌, ◌≤◌, ◌<◌, ◌≡◌, true, List, [], ◌∷◌, ◌++◌, ◌==◌, if◌then◌else◌,
}
use osvirt_project.Apic.{
  Access, barrier, msr_write, store, load, says_x2apic, says_base, Cpu, Lapic,
}
use osvirt_project.Apic.Registers.{registers}

-- The registers stand at a fixed place, in a page that the register 0x1b names, or are machine
-- registers.
pub data Mode : Type 0 where
  fixed in_page x2apic : Mode

-- The family is in the bits 8 to 11 of `eax`, the x2APIC in bit 21 of `ecx`.
abbrev pub IsMode : Cpu → Mode → Type 0
IsMode cpu fixed = cpu.eax / 2 ^ 8 % 2 ^ 4 < 6
IsMode cpu in_page = (6 ≤ cpu.eax / 2 ^ 8 % 2 ^ 4) × (cpu.ecx / 2 ^ 21 % 2 ≡ 0)
IsMode cpu x2apic = (6 ≤ cpu.eax / 2 ^ 8 % 2 ^ 4) × (cpu.ecx / 2 ^ 21 % 2 ≡ 1)

-- What `rdmsr` finds in the register 0x1b.
abbrev pub apic_register : Cpu → ℕ
apic_register cpu = cpu.msr_high 0x1b * 2 ^ 32 + cpu.msr_low 0x1b

-- A page below 2 ^ 36: the register's bits 12 to 35. The x2APIC mode is the greatest address.
abbrev pub place_of : Mode → ℕ → ℕ
place_of fixed msr = 0xfee00000
place_of in_page msr = msr % 2 ^ 36 - msr % 2 ^ 12
place_of x2apic msr = 0xffffffffffffffff

-- The flat model is for an APIC in memory.
abbrev pub program_of : Mode → List (ℕ × ℕ)
program_of fixed =
    (0x0f, 0x1ff)
    ∷ (0x0e, 0xffffffff)
    ∷ (0x08, 0)
    ∷ (0x3e, 0)
    ∷ (0x38, 0x10000)
    ∷ (0x32, 0x20030)
    ∷ []
program_of in_page =
    (0x0f, 0x1ff)
    ∷ (0x0e, 0xffffffff)
    ∷ (0x08, 0)
    ∷ (0x3e, 0)
    ∷ (0x38, 0x10000)
    ∷ (0x32, 0x20030)
    ∷ []
program_of x2apic = (0x0f, 0x1ff) ∷ (0x08, 0) ∷ (0x3e, 0) ∷ (0x38, 0x10000) ∷ (0x32, 0x20030) ∷ []

-- The values written to the register 0x1b.
unfoldable pub apic_write : Access → List ℕ
apic_write barrier = []
apic_write (msr_write reg low high) = if reg == 0x1b then (high * 2 ^ 32 + low) ∷ [] else []
apic_write (store addr value) = []
apic_write (load addr) = []
apic_write says_x2apic = []
apic_write (says_base b) = []

unfoldable pub apic_writes : List Access → List ℕ
apic_writes [] = []
apic_writes (a ∷ log) = apic_write a ++ apic_writes log

-- Bit 10 of the register: the x2APIC mode, or what it was.
abbrev pub mode_bit : Mode → ℕ → ℕ
mode_bit fixed msr = msr / 2 ^ 10 % 2
mode_bit in_page msr = msr / 2 ^ 10 % 2
mode_bit x2apic msr = 1

-- The APIC is on (bit 11), and its page stays.
pub record TurnsOn (mode : Mode) (msr v : ℕ) : Type 0 where
  pub on : v / 2 ^ 11 % 2 ≡ 1
  pub bit : v / 2 ^ 10 % 2 ≡ mode_bit mode msr
  pub page : v / 2 ^ 12 ≡ msr / 2 ^ 12

-- The register 0x1b is not written, or once.
abbrev pub Switched : Mode → (msr : ℕ) → (before after : List ℕ) → Type 0
Switched fixed msr before after = after ≡ before
Switched in_page msr before after = (v : ℕ) × (after ≡ before ++ (v ∷ [])) × TurnsOn in_page msr v
Switched x2apic msr before after = (v : ℕ) × (after ≡ before ++ (v ∷ [])) × TurnsOn x2apic msr v

-- The base, the registers of the set-up in their order, and a time that can be read.
pub record Enabled (cpu : Cpu) (mode : Mode) (s s' : Lapic) : Type 0 where
  pub base : s'.lapic_base ≡ place_of mode (apic_register cpu)
  pub set_up :
      registers (place_of mode (apic_register cpu)) s'.log
      ≡ registers (place_of mode (apic_register cpu)) s.log ++ program_of mode
  pub switched : Switched mode (apic_register cpu) (apic_writes s.log) (apic_writes s'.log)
  pub clock : s'.has_time_ptr ≡ true

-- ===== src/Apic.antt =====
-- The local APIC: apic.c, with `rdmsr` and `wrmsr` of kerninc/msr.h. What the code does to the
-- processor is a log; what it reads from the processor is a parameter.
pub mod Registers
pub mod Enable
pub mod Mode
pub mod Switch
pub mod Enabled
pub mod Timer
pub mod Command
mod Tests
use Prim.Native.Nat.{bit_or}
use osvirt_project.Base.{
  ℕ, zero, suc, ◌+◌, ◌*◌, ◌/◌, ◌%◌, ◌^◌, Bool, true, false, List, [], ◌∷◌, ◌++◌, Run, ok,
  out_of_fuel, ◌==◌, ltb, if◌then◌else◌, u64_mod, u32_mod,
}

-- `mfence; lfence`, `wrmsr` with its register and its halves, a store and a load of 32 bits, and
-- what is printed.
pub data Access : Type 0 where
  barrier : Access
  msr_write : (reg low high : ℕ) → Access
  store : (addr value : ℕ) → Access
  load : (addr : ℕ) → Access
  says_x2apic : Access
  says_base : ℕ → Access

-- What the processor answers: `cpuid` of level 1, the halves that `rdmsr` of a register finds, and
-- 32 bits at an address, for each number of accesses before.
pub record Cpu : Type 0 where
  pub eax : ℕ
  pub ecx : ℕ
  pub edx : ℕ
  pub msr_low : ℕ → ℕ
  pub msr_high : ℕ → ℕ
  pub word_at : (polls addr : ℕ) → ℕ

-- The variables of apic.c. `time_ptr` is null until the timer runs.
pub record Lapic : Type 0 where
  pub lapic_base : ℕ
  pub time : ℕ
  pub has_time_ptr : Bool
  pub log : List Access

abbrev pub note : Access → Lapic → Lapic
note a s = record s { log = s.log ++ (a ∷ []) }

unfoldable pub rdmsr : Cpu → ℕ → ℕ
rdmsr cpu reg = bit_or (cpu.msr_high reg * 2 ^ 32) (cpu.msr_low reg)

unfoldable pub wrmsr : (reg val : ℕ) → Lapic → Lapic
wrmsr reg val s = note (msr_write reg (val % u32_mod) (val / u32_mod % u32_mod)) s

-- `X86_LAPIC_X2APIC`.
abbrev pub x2apic_base : ℕ
x2apic_base = 0xffffffffffffffff

-- `lapic_base + (offset << 4)`.
abbrev pub register_at : (base offset : ℕ) → ℕ
register_at base offset = (base + offset * 16) % u64_mod

unfoldable pub x86_lapic_read : Cpu → (offset : ℕ) → Lapic → ℕ
x86_lapic_read cpu offset s =
    if s.lapic_base == x2apic_base
    then rdmsr cpu (0x800 + offset) % u32_mod
    else cpu.word_at 0 (register_at s.lapic_base offset)

unfoldable pub x86_lapic_read_id : Cpu → Lapic → ℕ
x86_lapic_read_id cpu s =
    if s.lapic_base == x2apic_base
    then rdmsr cpu (0x800 + 0x02) % u32_mod
    else cpu.word_at 0 (register_at s.lapic_base 0x02) / 2 ^ 24

unfoldable pub x86_x2apic_barrier : Lapic → Lapic
x86_x2apic_barrier = note barrier

unfoldable pub x86_lapic_write : (offset value : ℕ) → Lapic → Lapic
x86_lapic_write offset value s =
    if s.lapic_base == x2apic_base
    then wrmsr (0x800 + offset) value (x86_x2apic_barrier s)
    else note (store (register_at s.lapic_base offset) value) s

unfoldable pub x86_x2apic_write_icr : (cmd_low cmd_high : ℕ) → Lapic → Lapic
x86_x2apic_write_icr low high s =
    wrmsr (0x800 + 0x30) (bit_or (high * 2 ^ 32) low) (x86_x2apic_barrier s)

-- `while (... & 0x1000U);`, on fuel.
unfoldable pub await_icr : Cpu → (fuel polls : ℕ) → Lapic → Run Lapic
await_icr cpu zero polls s = out_of_fuel
await_icr cpu (suc k) polls s =
    let addr = register_at s.lapic_base 0x30 in
    let s1 = note (load addr) s in
    if cpu.word_at polls addr / 2 ^ 12 % 2 == 0 then ok s1 else await_icr cpu k (polls + 1) s1

unfoldable pub x86_lapic_write_icr : Cpu → (fuel cmd : ℕ) → Lapic → Run Lapic
x86_lapic_write_icr cpu fuel cmd s =
    if s.lapic_base == x2apic_base
    then ok (x86_x2apic_write_icr cmd 0 s)
    else await_icr cpu fuel 0 (note (store (register_at s.lapic_base 0x30) cmd) s)

-- The tests of `x86_lapic_enable` on what `cpuid` answers.
abbrev pub has_apic : Cpu → Bool
has_apic cpu = cpu.edx / 2 ^ 9 % 2 == 1

abbrev pub before_p6 : Cpu → Bool
before_p6 cpu = ltb (cpu.eax / 2 ^ 8 % 16) 6

abbrev pub has_x2apic : Cpu → Bool
has_x2apic cpu = cpu.ecx / 2 ^ 21 % 2 == 1

-- `x2apic`: 0, or `X86_MSR_APIC_X2APIC`.
abbrev pub x2apic_of : Cpu → ℕ
x2apic_of cpu = if before_p6 cpu then 0 else if has_x2apic cpu then 0x400 else 0

-- `msr & 0xFFFFFF000ULL`.
abbrev pub page_bits : ℕ → ℕ
page_bits msr = msr / 2 ^ 12 % 2 ^ 24 * 2 ^ 12

-- Where the registers are, on a processor with an APIC.
unfoldable pub locate : Cpu → Lapic → Lapic
locate cpu s =
    if before_p6 cpu
    then record s { lapic_base = 0xfee00000 }
    else let msr = rdmsr cpu 0x1b in
      let s1 = wrmsr 0x1b (bit_or (bit_or msr 0x800) (x2apic_of cpu)) (x86_x2apic_barrier s) in
      record s1 { lapic_base = if x2apic_of cpu == 0 then page_bits msr else x2apic_base }

unfoldable pub announce : Cpu → Lapic → Lapic
announce cpu s = if x2apic_of cpu == 0 then note (says_base s.lapic_base) s else note says_x2apic s

-- The flat model is for an APIC in memory only.
unfoldable pub set_flat : Cpu → Lapic → Lapic
set_flat cpu s = if x2apic_of cpu == 0 then x86_lapic_write 0x0e 0xffffffff s else s

unfoldable pub set_timer : Lapic → Lapic
set_timer s =
    let s1 = x86_lapic_write 0x3e 0 s in
    let s2 = x86_lapic_write 0x38 0x10000 s1 in
    record (x86_lapic_write 0x32 0x20030 s2) { has_time_ptr = true }

unfoldable pub x86_lapic_enable : Cpu → Lapic → Lapic
x86_lapic_enable cpu s =
    if has_apic cpu
    then (let s1 = announce cpu (locate cpu s) in
        set_timer (x86_lapic_write 0x08 0 (set_flat cpu (x86_lapic_write 0x0f 0x1ff s1))))
    else record s { lapic_base = 0 }

unfoldable pub timer_handler : Lapic → Lapic
timer_handler s = x86_lapic_write 0x0b 0 (record s { time = (s.time + 1) % u64_mod })

-- ===== src/Apic/Timer.antt =====
-- The timer's interrupts.
use osvirt_project.Base.{
  ℕ, zero, suc, ◌+◌, ◌%◌, ◌<◌, ◌≡◌, refl, sym, subst, [], ◌∷◌, ◌++◌, arith, replicate, ◌==◌,
  Bool-cases, inl, inr, u64_mod,
}
use osvirt_project.Apic.{
  Lapic, x2apic_base, wrmsr, x86_x2apic_barrier, x86_lapic_write, timer_handler,
}
use osvirt_project.Apic.Registers.{
  registers, IsBase, Programs, Programs-nil, Programs-trans, x86_lapic_write-Programs,
}

-- A number of interrupts.
abbrev pub interrupts : ℕ → Lapic → Lapic
interrupts zero s = s
interrupts (suc k) s = interrupts k (timer_handler s)

write-time : (offset value : ℕ) (s : Lapic) → (x86_lapic_write offset value s).time ≡ s.time
unfolding x86_lapic_write wrmsr x86_x2apic_barrier
write-time offset value s = elim (Bool-cases (s.lapic_base == x2apic_base)) [
  | inl e ↦ rw (x86_lapic_write, e) refl
  | inr e ↦ rw (x86_lapic_write, e) refl
]

timer_handler-time : (s : Lapic) → (timer_handler s).time ≡ (s.time + 1) % u64_mod
unfolding timer_handler
timer_handler-time s = write-time 0x0b 0 (record s { time = (s.time + 1) % u64_mod })

timer_handler-Programs :
    (s : Lapic) → IsBase s.lapic_base → Programs s ((0x0b, 0) ∷ []) (timer_handler s)
unfolding timer_handler
timer_handler-Programs s is =
    let p =
      x86_lapic_write-Programs 0x0b 0 (record s { time = (s.time + 1) % u64_mod }) is (omega arith)
        (omega arith) in
    record { base = p.base; written = p.written }

interrupts-Programs :
    (k : ℕ) (s : Lapic) → IsBase s.lapic_base → Programs s (replicate k (0x0b, 0)) (interrupts k s)
interrupts-Programs zero s is = Programs-nil s
interrupts-Programs (suc k) s is =
    let first = timer_handler-Programs s is in
    Programs-trans first
      (interrupts-Programs k (timer_handler s) (subst IsBase (sym first.base) is))

interrupts-time :
    (k : ℕ) (s : Lapic) → s.time < u64_mod → (interrupts k s).time ≡ (s.time + k) % u64_mod
interrupts-time zero s small = omega arith
interrupts-time (suc k) s small =
    let one = timer_handler-time s in
    let ih = interrupts-time k (timer_handler s) (omega arith) in omega arith

-- After a number of timer interrupts the time is further by that number, modulo 2 ^ 64, and each
-- interrupt is acknowledged once: the end-of-interrupt register is written that many times, and no
-- other register.
pub interrupts-count :
    (k : ℕ) (s : Lapic)
    → IsBase s.lapic_base
    → s.time < u64_mod
    → ((interrupts k s).time ≡ (s.time + k) % u64_mod)
      × ((interrupts k s).lapic_base ≡ s.lapic_base)
      × (registers s.lapic_base (interrupts k s).log
          ≡ registers s.lapic_base s.log ++ replicate k (0x0b, 0))
interrupts-count k s is small =
    let p = interrupts-Programs k s is in (interrupts-time k s small, p.base, p.written)

-- ===== src/Apic/Command.antt =====
-- The wait for a command to an APIC in memory.
use osvirt_project.Base.{
  ℕ, zero, suc, ◌+◌, ◌/◌, ◌%◌, ◌^◌, ◌<◌, ◌≡◌, ◌≢◌, refl, sym, ap, subst, ◌∙◌, [], ◌∷◌, ◌++◌, arith,
  replicate, true, false, ◌==◌, ok,
}
use mathlib.Core.List.{append_assoc}
use osvirt_project.Apic.{
  store, load, Cpu, Lapic, note, x2apic_base, register_at, await_icr, x86_lapic_write_icr,
}

-- The answer of a poll: bit 12 is clear when the command is completed.
abbrev pub IsDone : Cpu → (base poll : ℕ) → Type 0
IsDone cpu base poll = cpu.word_at poll (register_at base 0x30) / 2 ^ 12 % 2 ≡ 0

-- The state after a number of polls.
abbrev polled : ℕ → Lapic → Lapic
polled k s = record s { log = s.log ++ replicate k (load (register_at s.lapic_base 0x30)) }

from_start : (p : ℕ) → p ≡ 0 + p
from_start p = omega arith

await_icr-polls :
    (cpu : Cpu) (fuel polls left : ℕ) (s : Lapic)
    → left < fuel
    → IsDone cpu s.lapic_base (polls + left)
    → ((i : ℕ) → i < left → ¬ (IsDone cpu s.lapic_base (polls + i)))
    → await_icr cpu fuel polls s ≡ ok (polled (suc left) s)
unfolding await_icr
await_icr-polls cpu zero polls left s enough done not_before = absurd (omega arith)
await_icr-polls cpu (suc k) polls zero s enough done not_before =
    let now : IsDone cpu s.lapic_base polls = subst (IsDone cpu s.lapic_base) (omega arith) done in
    let test : (cpu.word_at polls (register_at s.lapic_base 0x30) / 2 ^ 12 % 2 == 0) ≡ true =
      ground arith in
    rw (await_icr, test) refl
await_icr-polls cpu (suc k) polls (suc left) s enough done not_before =
    let is_load = load (register_at s.lapic_base 0x30) in
    let busy : ¬ (IsDone cpu s.lapic_base polls) =
      λ d. not_before 0 (omega arith) (subst (IsDone cpu s.lapic_base) (omega arith) d) in
    let test : (cpu.word_at polls (register_at s.lapic_base 0x30) / 2 ^ 12 % 2 == 0) ≡ false =
      ground arith in
    rw (await_icr, test)
      (await_icr-polls cpu k (polls + 1) left (note is_load s) (omega arith)
          (subst (IsDone cpu s.lapic_base) (omega arith) done)
          (λ i less d.
            not_before (suc i) (omega arith) (subst (IsDone cpu s.lapic_base) (omega arith) d))
        ∙ ap (λ l. ok (record s { log = l }))
            (append_assoc s.log (is_load ∷ []) (replicate (suc left) is_load)))

-- If the processor completes a command at some poll, and at no poll before, then on as much fuel as
-- there are polls `x86_lapic_write_icr` returns: it has written the command, and then read the
-- register that many times.
pub x86_lapic_write_icr_lem :
    (cpu : Cpu) (fuel cmd poll : ℕ) (s : Lapic)
    → s.lapic_base ≢ x2apic_base
    → poll < fuel
    → IsDone cpu s.lapic_base poll
    → ((i : ℕ) → i < poll → ¬ (IsDone cpu s.lapic_base i))
    → x86_lapic_write_icr cpu fuel cmd s
      ≡ ok (record s {
        log =
            s.log
            ++ (store (register_at s.lapic_base 0x30) cmd
                ∷ replicate (suc poll) (load (register_at s.lapic_base 0x30)));
      })
unfolding x86_lapic_write_icr
x86_lapic_write_icr_lem cpu fuel cmd poll s in_memory enough done not_before =
    let test : (s.lapic_base == x2apic_base) ≡ false = ground arith in
    let addr = register_at s.lapic_base 0x30 in
    rw (x86_lapic_write_icr, test)
      (await_icr-polls cpu fuel 0 poll (note (store addr cmd) s) enough
          (subst (IsDone cpu s.lapic_base) (from_start poll) done)
          (λ i less d. not_before i less (subst (IsDone cpu s.lapic_base) (sym (from_start i)) d))
        ∙ ap (λ l. ok (record s { log = l }))
            (append_assoc s.log (store addr cmd ∷ []) (replicate (suc poll) (load addr))))

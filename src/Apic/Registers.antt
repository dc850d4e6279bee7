-- ===== src/Apic/Registers.antt =====
-- The registers that a log writes, in either way to reach them.
use osvirt_project.Base.{
  ℕ, ◌+◌, ◌-◌, ◌/◌, ◌%◌, ◌^◌, ◌<◌, ◌≡◌, refl, sym, ap, subst, ◌∙◌, ◌⊎◌, inl, inr, true, false, List,
  [], ◌∷◌, ◌++◌, arith, ◌==◌, leb, if◌then◌else◌, u32_mod,
}
use mathlib.Core.List.{append_assoc, append-nil}
use osvirt_project.Apic.{
  Access, barrier, msr_write, store, load, says_x2apic, says_base, Lapic, note, wrmsr, x2apic_base,
  register_at, x86_x2apic_barrier, x86_lapic_write,
}

-- The register and the value of an access: a machine register from 0x800 on in the x2APIC mode,
-- 16 bytes for each register behind the base otherwise.
unfoldable pub register_of : (base : ℕ) → Access → List (ℕ × ℕ)
register_of base barrier = []
register_of base (msr_write reg low high) =
    if base == x2apic_base then (if leb 0x800 reg then (reg - 0x800, low) ∷ [] else []) else []
register_of base (store addr value) =
    if base == x2apic_base then [] else ((addr - base) / 16, value) ∷ []
register_of base (load addr) = []
register_of base says_x2apic = []
register_of base (says_base b) = []

unfoldable pub registers : (base : ℕ) → List Access → List (ℕ × ℕ)
registers base [] = []
registers base (a ∷ log) = register_of base a ++ registers base log

registers-append :
    (base : ℕ) (xs ys : List Access)
    → registers base (xs ++ ys) ≡ registers base xs ++ registers base ys
unfolding registers
registers-append base [] ys = refl
registers-append base (a ∷ xs) ys =
    ap (λ l. register_of base a ++ l) (registers-append base xs ys)
    ∙ sym (append_assoc (register_of base a) (registers base xs) (registers base ys))

-- The x2APIC mode, or memory below 2 ^ 36 (`0xFFFFFF000`).
abbrev pub IsBase : ℕ → Type 0
IsBase base = (base ≡ x2apic_base) ⊎ (base < 2 ^ 36)

-- A step that keeps the base and writes a list of registers.
pub record Programs (s : Lapic) (l : List (ℕ × ℕ)) (s' : Lapic) : Type 0 where
  pub base : s'.lapic_base ≡ s.lapic_base
  pub written : registers s.lapic_base s'.log ≡ registers s.lapic_base s.log ++ l

pub Programs-nil : (s : Lapic) → Programs s [] s
Programs-nil s = record { base = refl; written = sym (append-nil (registers s.lapic_base s.log)) }

pub Programs-trans :
    {s s1 s2 : Lapic} {xs ys : List (ℕ × ℕ)}
    → Programs s xs s1
    → Programs s1 ys s2
    → Programs s (xs ++ ys) s2
Programs-trans {s} {s1} {s2} {xs} {ys} a b = record {
  base = b.base ∙ a.base;
  written =
      subst (λ x. registers x s2.log ≡ registers x s1.log ++ ys) a.base b.written
      ∙ ap (λ l. l ++ ys) a.written
      ∙ append_assoc (registers s.lapic_base s.log) xs ys;
}

pub noted :
    (a : Access) (s : Lapic) (l : List (ℕ × ℕ))
    → register_of s.lapic_base a ≡ l
    → Programs s l (note a s)
unfolding registers
noted a s l e = record {
  base = refl;
  written =
      registers-append s.lapic_base s.log (a ∷ [])
      ∙ ap (λ x. registers s.lapic_base s.log ++ x) (append-nil (register_of s.lapic_base a) ∙ e);
}

-- A write reaches its register in either mode.
pub x86_lapic_write-Programs :
    (offset value : ℕ) (s : Lapic)
    → IsBase s.lapic_base
    → offset < 2 ^ 8
    → value < u32_mod
    → Programs s ((offset, value) ∷ []) (x86_lapic_write offset value s)
unfolding x86_lapic_write wrmsr x86_x2apic_barrier register_of
x86_lapic_write-Programs offset value s (inl e) small fits =
    let test : (s.lapic_base == x2apic_base) ≡ true = ground arith in
    let above : leb 0x800 (0x800 + offset) ≡ true = ground arith in
    let same : 0x800 + offset - 0x800 ≡ offset = omega arith in
    let whole : value % u32_mod ≡ value = omega arith in
    rw (x86_lapic_write, test)
      (Programs-trans (noted barrier s [] refl) (
        noted (msr_write (0x800 + offset) (value % u32_mod) (value / u32_mod % u32_mod))
          (note barrier s) ((offset, value) ∷ []) (rw (test, above, same, whole) refl)))
x86_lapic_write-Programs offset value s (inr low) small fits =
    let test : (s.lapic_base == x2apic_base) ≡ false = ground arith in
    let same : (register_at s.lapic_base offset - s.lapic_base) / 16 ≡ offset = omega arith in
    rw (x86_lapic_write, test)
      (noted (store (register_at s.lapic_base offset) value) s ((offset, value) ∷ [])
        (rw (test, same) refl))

pub registers-quiet :
    (base : ℕ) (log : List Access) (a : Access)
    → register_of base a ≡ []
    → registers base (log ++ (a ∷ [])) ≡ registers base log
unfolding registers
registers-quiet base log a e =
    registers-append base log (a ∷ [])
    ∙ ap (λ x. registers base log ++ x) (append-nil (register_of base a) ∙ e)
    ∙ append-nil (registers base log)

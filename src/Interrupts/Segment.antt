-- ===== src/Interrupts/Segment.antt =====
-- The task segment: `load_idt` and `load_tss_segment` of kerninc/interrupts.h, and
-- `setup_interrupts` of kernel.c.
pub mod Descriptor
use Prim.Native.Nat.{bit_or}
use osvirt_project.Base.{
  ℕ, ◌+◌, ◌-◌, ◌*◌, ◌/◌, ◌%◌, ◌^◌, List, [], ◌∷◌, length, set, replicate, Run, ok, fault, ◌>>=◌,
  ltb, if◌then◌else◌, u32_mod,
}
use osvirt_project.Interrupts.{Gate, Handlers, create_idt_table}

-- `tss_segment_t`, 104 bytes.
pub record Tss : Type 0 where
  pub reserved1 : ℕ
  pub rsp : List ℕ
  pub reserved2 : ℕ
  pub ist : List ℕ
  pub reserved3 : ℕ
  pub reserved4 : ℕ
  pub iopb_base : ℕ

abbrev pub tss_size : ℕ
tss_size = 104

-- `__builtin_memset(tss, 0, sizeof(tss_segment_t))`.
abbrev pub no_tss : Tss
no_tss = record {
  reserved1 = 0;
  rsp = replicate 3 0;
  reserved2 = 0;
  ist = replicate 7 0;
  reserved3 = 0;
  reserved4 = 0;
  iopb_base = 0;
}

-- The tables, and the processor's registers that hold where they are.
pub record Traps : Type 0 where
  pub idt : List Gate
  pub idt_base : ℕ
  pub idt_limit : ℕ
  pub tss : Tss
  pub gdt : List ℕ
  pub task_selector : ℕ

-- The first word of the descriptor: the base's bits 24 to 31, present, type 9, the base's low 24
-- bits, the limit.
unfoldable pub low_word : (base limit : ℕ) → ℕ
low_word base limit =
    bit_or
      (bit_or (bit_or (bit_or (base / 2 ^ 24 % 2 ^ 8 * 2 ^ 56) (2 ^ 47)) (9 * 2 ^ 40))
        (base % 2 ^ 24 * 2 ^ 16))
      limit

-- A selector counts bytes, and the table has words. A write behind it is a fault.
unfoldable pub load_tss_segment : (selector tss_ptr : ℕ) → Traps → Run Traps
load_tss_segment selector tss_ptr t =
    let at = selector / 8 in
    if ltb (at + 1) (length t.gdt)
    then ok (record t {
      gdt = set (set t.gdt at (low_word tss_ptr (tss_size - 1))) (at + 1) (tss_ptr / u32_mod);
      task_selector = selector;
    })
    else fault

abbrev pub load_idt : (base limit : ℕ) → Traps → Traps
load_idt base limit t = record t { idt_base = base; idt_limit = limit }

-- `sizeof(idt) - 1` for 256 gates of 16 bytes.
unfoldable pub setup_interrupts : Handlers → (idt_address tss_ptr : ℕ) → Traps → Run Traps
setup_interrupts h idt_address tss_ptr t = create_idt_table h t.idt >>= λ idt.
    let t1 = load_idt idt_address (256 * 16 - 1) (record t { idt = idt }) in
    let tss : Tss = record no_tss { rsp = set (replicate 3 0) 0 tss_ptr; iopb_base = tss_size } in
    load_tss_segment 0x28 tss_ptr (record t1 { tss = tss })

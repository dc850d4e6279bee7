-- ===== src/Interrupts.antt =====
-- The interrupt table of kernel.c: `gate_descriptor_t` of kerninc/types.h, `x86_fillgate` and
-- `create_idt_table`. A bit field keeps the low bits of what is assigned to it.
pub mod Gates
pub mod Segment
mod Tests
use osvirt_project.Base.{
  ℕ, zero, suc, ◌+◌, ◌*◌, ◌/◌, ◌%◌, ◌^◌, List, set, get_elem?, Option, none, some, Run, ok, fault,
  ◌>>=◌, ltb, length, if◌then◌else◌, u64_mod,
}

pub record Gate : Type 0 where
  pub gd_looffset : ℕ
  pub gd_selector : ℕ
  pub gd_ist : ℕ
  pub gd_xx1 : ℕ
  pub gd_type : ℕ
  pub gd_dpl : ℕ
  pub gd_p : ℕ
  pub gd_hioffset : ℕ
  pub gd_xx2 : ℕ
  pub gd_zero : ℕ
  pub gd_xx3 : ℕ

-- What `x86_fillgate` writes: it assigns every field.
abbrev pub gate_of : (fn ist : ℕ) → Gate
gate_of fn ist = record {
  gd_hioffset = (fn / 2 ^ 16) % 2 ^ 48;
  gd_looffset = fn % 2 ^ 16;
  gd_selector = 8;
  gd_ist = ist % 2 ^ 3;
  gd_type = 14;
  gd_dpl = 0;
  gd_p = 1;
  gd_zero = 0;
  gd_xx1 = 0;
  gd_xx2 = 0;
  gd_xx3 = 0;
}

unfoldable pub fillgate : (num fn ist : ℕ) → List Gate → Run (List Gate)
fillgate num fn ist idt = if ltb num (length idt) then ok (set idt num (gate_of fn ist)) else fault

-- The handlers that kernel_entry.S sets up.
pub record Handlers : Type 0 where
  pub generic_trap_hdl_ptr : ℕ
  pub gp_hdl_ptr : ℕ
  pub pg_fault_hdl_ptr : ℕ
  pub timer_hdl_ptr : ℕ

-- `for(i = 0; i < 32; i++)`, with the rounds left.
unfoldable pub fill_from : (rounds i fn : ℕ) → List Gate → Run (List Gate)
fill_from zero i fn idt = ok idt
fill_from (suc k) i fn idt = fillgate i fn 0 idt >>= λ idt. fill_from k (i + 1) fn idt

unfoldable pub create_idt_table : Handlers → List Gate → Run (List Gate)
create_idt_table h idt = fill_from 32 0 h.generic_trap_hdl_ptr idt >>= λ idt.
    fillgate 13 h.gp_hdl_ptr 0 idt >>= λ idt.
    fillgate 14 h.pg_fault_hdl_ptr 0 idt >>= λ idt. fillgate 48 h.timer_hdl_ptr 0 idt

-- ===== src/Interrupts/Tests.antt =====
-- The interrupt table at a concrete input.
use osvirt_project.Base.{ℕ, ◌≡◌, ◌≢◌, some, get_elem?, List, ok, replicate, arith}
use osvirt_project.Interrupts.{Gate, gate_of, Handlers}
use osvirt_project.Interrupts.Segment.{no_tss, Traps, setup_interrupts}
use osvirt_project.Interrupts.Segment.Descriptor.{task_of, setup_interrupts_lem}
use osvirt_project.Interrupts.Gates.{handler, handler_of}

abbrev handlers : Handlers
handlers = record {
  generic_trap_hdl_ptr = 0x1000;
  gp_hdl_ptr = 0x2000;
  pg_fault_hdl_ptr = 0xffff800000003000;
  timer_hdl_ptr = 0x4000;
}

abbrev cleared : List Gate
cleared = replicate 256 (gate_of 0 0)

abbrev traps : Traps
traps = record {
  idt = cleared;
  idt_base = 0;
  idt_limit = 0;
  tss = no_tss;
  gdt = replicate 7 0;
  task_selector = 0;
}

setup_interrupts_lem_example :
    (t : Traps) × (setup_interrupts handlers 0x5000 0x8000 traps ≡ ok t)
    × ((k : ℕ) → handler t.idt k ≡ handler_of handlers k cleared)
    × (t.idt_base ≡ 0x5000)
    × (t.idt_limit ≡ 4095)
    × (task_of t.task_selector t.gdt
        ≡ some (record { base = 0x8000; limit = 103; kind = 9; is_present = 1 }))
    × (get_elem? t.tss.rsp 0 ≡ some 0x8000)
    × (t.tss.iopb_base ≡ 104)
    × ((i : ℕ) → i ≢ 5 → i ≢ 6 → get_elem? t.gdt i ≡ get_elem? (replicate 7 0) i)
setup_interrupts_lem_example =
    setup_interrupts_lem handlers 0x5000 0x8000 traps (omega arith) (omega arith) (omega arith)
      (omega arith) (omega arith) (omega arith) (omega arith)

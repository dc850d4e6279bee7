-- ===== src/Kernel/Boot/Tests.antt =====
-- A machine with some memory, and the memory between two segments that are not free.
use osvirt_project.Base.{
  ℕ, zero, suc, ◌*◌, ◌^◌, ◌≡◌, ◌⊎◌, refl, ap, false, List, [], arith, length, replicate, ok,
}
use osvirt_project.ListLib.Sequences.{sequences}
use osvirt_project.Buddy.{Block}
use osvirt_project.MemoryMap.Samples.{map, clear_table, map-IsBootable}
use osvirt_project.Interrupts.{gate_of}
use osvirt_project.Interrupts.Segment.{no_tss}
use osvirt_project.Kernel.Stock.{AllUnused}
use osvirt_project.Kernel.Boot.{BootInfo, Platform, Machine, kernel_start}
use osvirt_project.Kernel.Boot.Outcome.{CanBoot, HaltsNoPage, Started}
use osvirt_project.Kernel.Boot.Started.{kernel_start-Started}

abbrev clear_block : Block
clear_block = record { physical_addr = 0; size = 0 }

abbrev clear_descriptors : ℕ → List Block
clear_descriptors n = replicate (n * 128) clear_block

AllUnused-clear :
    (k : ℕ) → AllUnused (replicate k clear_block) × (length (replicate k clear_block) ≡ k)
AllUnused-clear zero = (tt, refl)
AllUnused-clear (suc k) = let rest = AllUnused-clear k in ((refl, rest.0), ap suc rest.1)

-- The kernel, the screen and the program are in the last segment. The buddy system has a block of
-- 16384 pages, which is more than the page tables take.
abbrev boot_info : BootInfo
boot_info = record {
  memory_map = map;
  framebuffer = 0x8200000;
  kernel_code_size = 50000;
  user_code_size = 5000;
  user_buffer = 0x8300000;
  tss_buffer = 0x8000;
}

abbrev platform : Platform sequences
platform = record {
  cpu = record {
    eax = 0x600;
    ecx = 0;
    edx = 2 ^ 9;
    msr_low = λ reg. 0xfee00900;
    msr_high = λ reg. 0;
    word_at = λ polls addr. 0;
  };
  handlers = record {
    generic_trap_hdl_ptr = 0x1000;
    gp_hdl_ptr = 0x2000;
    pg_fault_hdl_ptr = 0x3000;
    timer_hdl_ptr = 0x4000;
  };
  syscall_entry_ptr = 0x5000;
  idt_address = 0x6000;
  raw = clear_table;
  raw_pool = clear_descriptors;
  links = λ k. [];
  lapic = record { lapic_base = 0; time = 0; has_time_ptr = false; log = [] };
  traps = record {
    idt = replicate 256 (gate_of 0 0);
    idt_base = 0;
    idt_limit = 0;
    tss = no_tss;
    gdt = replicate 7 0;
    task_selector = 0;
  };
  mem = λ a. 0;
}

machine-CanBoot : CanBoot sequences 0x8100000 0x10000 0x8000000 142671872 33280 boot_info platform
machine-CanBoot = record {
  bootable = map-IsBootable;
  pool = λ n. AllUnused-clear (n * 128);
  links = λ k h. refl;
  place = (refl, omega arith);
  size = omega arith;
  screen = (refl, omega arith, omega arith);
  code = (omega arith, omega arith);
  program = (omega arith, omega arith);
  tables = (omega arith, omega arith, omega arith);
  entries = (omega arith, omega arith, omega arith, omega arith);
}

kernel_start-Started_example :
    HaltsNoPage sequences 142671872 0x8100000 boot_info platform
    ⊎ ((m : Machine sequences) × (kernel_start sequences 0x8100000 boot_info platform ≡ ok m)
        × Started sequences 142671872 33280 boot_info platform m)
kernel_start-Started_example =
    kernel_start-Started sequences 0x8100000 0x10000 0x8000000 142671872 33280 boot_info platform
      machine-CanBoot

-- ===== src/Kernel/Boot.antt =====
-- `kernel_start` of kernel.c as a whole, up to the jump to the user program, less what it prints and
-- the screen that it sets up for that.
pub mod Null
pub mod Parts
pub mod Outcome
pub mod Started
mod Tests
use osvirt_project.Base.{ℕ, ◌+◌, ◌-◌, ◌*◌, ◌/◌, ◌%◌, List, Run, ok, ◌>>=◌, page_size}
use osvirt_project.ListLib.{ListLib}
use osvirt_project.Frames.{PageInfo, Frames, alloc_page, alloc_pages}
use osvirt_project.Buddy.{Block, Buddy, get_block}
use osvirt_project.MemoryMap.{MemoryDescriptor, get_memory_map_size}
use osvirt_project.MemoryMap.Setup.{init_page_properties}
use osvirt_project.PageTable.{Memory}
use osvirt_project.Apic.{Cpu, Lapic, x86_lapic_enable}
use osvirt_project.Interrupts.{Handlers}
use osvirt_project.Interrupts.Segment.{Traps, setup_interrupts}
use osvirt_project.Kernel.Start.{syscall_init, map_start, user_start}

-- `boot_info_t`, less the buffers that the boot loader keeps.
pub record BootInfo : Type 0 where
  pub memory_map : List MemoryDescriptor
  pub framebuffer : ℕ
  pub kernel_code_size : ℕ
  pub user_code_size : ℕ
  pub user_buffer : ℕ
  pub tss_buffer : ℕ

module _ (lib : ListLib) where
  -- What is there before: the processor, the entry points and places that the assembly sets, what
  -- memory holds where the allocators' tables come to stand, and the kernel's variables.
  pub record Platform : Type 0 where
    pub cpu : Cpu
    pub handlers : Handlers
    pub syscall_entry_ptr : ℕ
    pub idt_address : ℕ
    pub raw : ℕ → List PageInfo
    pub raw_pool : ℕ → List Block
    pub links : ListLib.Links lib
    pub lapic : Lapic
    pub traps : Traps
    pub mem : Memory

  -- What is there when the user program is entered, at `entry`.
  pub record Machine : Type 0 where
    pub lapic : Lapic
    pub traps : Traps
    pub frames : Frames
    pub mem : Memory
    pub buddy : Buddy lib
    pub cr3 : ℕ
    pub user_stack : ℕ
    pub entry : ℕ

  -- `framebuffer & ~PAGESHIFT`, where `PAGESHIFT` is 12.
  abbrev pub masked : ℕ → ℕ
  masked a = a - a / 4 % 4 * 4

  unfoldable pub kernel_start : (kernel_ptr : ℕ) → BootInfo → Platform → Run Machine
  kernel_start kernel_ptr b p =
      let lapic = syscall_init p.cpu p.syscall_entry_ptr p.lapic in
      init_page_properties lib b.memory_map p.raw p.raw_pool p.links >>= λ t.
      alloc_pages kernel_ptr (b.kernel_code_size / page_size + 1) t.1 >>= λ f1.
      alloc_page (masked b.framebuffer) f1.1 >>= λ f2.
      let counted = (get_memory_map_size b.memory_map 0).1 in
      map_start (get_block lib 1) (get_memory_map_size b.memory_map counted).0 b.framebuffer
        (p.mem, t.2)
      >>= λ k. setup_interrupts p.handlers p.idt_address b.tss_buffer p.traps >>= λ traps.
          user_start (get_block lib 1) k.0 b.user_code_size b.user_buffer (k.1, k.2) >>= λ u.
          ok (record {
            lapic = x86_lapic_enable p.cpu lapic;
            traps = traps;
            frames = f2.1;
            mem = u.1;
            buddy = u.2;
            cr3 = u.0;
            user_stack = 0x8000002000;
            entry = 0x8000003000;
          })

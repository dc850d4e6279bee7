-- ===== src/Kernel/Boot/Outcome.antt =====
-- A machine that `kernel_start` can boot, and what the call may come to.
use osvirt_project.Base.{
  ℕ, ◌+◌, ◌-◌, ◌*◌, ◌/◌, ◌%◌, ◌^◌, ◌≤◌, ◌<◌, ◌≡◌, ◌⊎◌, some, [], length, ok, fault, u64_mod,
  page_size,
}
use osvirt_project.ListLib.{ListLib}
use osvirt_project.Frames.{Frames}
use osvirt_project.Frames.Account.{IsAccounted}
use osvirt_project.Buddy.{Buddy, get_block}
use osvirt_project.MemoryMap.{Layout}
use osvirt_project.MemoryMap.Setup.{init_page_properties}
use osvirt_project.MemoryMap.Setup.Ready.{IsBootable}
use osvirt_project.PageTable.Walk.{translate}
use osvirt_project.PageTable.Level.{HaltsDry, IsSound}
use osvirt_project.Interrupts.Gates.{handler, handler_of}
use osvirt_project.Interrupts.Segment.Descriptor.{task_of}
use osvirt_project.Kernel.{rounds_of}
use osvirt_project.Kernel.Start.Identity.{IsIdentity, Covered}
use osvirt_project.Kernel.Pages.{buddies}
use osvirt_project.Kernel.Stock.{AllUnused}
use osvirt_project.Kernel.Boot.{BootInfo, Platform, Machine, kernel_start}
use osvirt_project.Kernel.Start.{map_start, user_start}
use osvirt_project.Kernel.Strict.{strict}
use osvirt_project.PageTable.{Memory}
use osvirt_project.Kernel.Boot.Parts.{drawn}

module _ (lib : ListLib) where
  -- Where the kernel, the screen, the program and the processor's tables are, and what memory holds.
  pub record CanBoot (kernel_ptr addr largest total f : ℕ) (b : BootInfo) (p : Platform lib)
      : Type 0 where
    pub bootable : IsBootable b.memory_map p.raw addr largest total
    pub pool : (n : ℕ) → AllUnused (p.raw_pool n) × (length (p.raw_pool n) ≡ n * 128)
    pub links : (k : ℕ) → 32 ≤ k → ListLib.items lib p.links k ≡ []
    pub place : (addr % page_size ≡ 0) × (addr + largest ≤ 2 ^ 52)
    pub size : total + page_size ≤ 2 ^ 48
    pub screen :
        (b.framebuffer ≡ f * page_size)
        × ((f + 4096) * page_size ≤ 2 ^ 48)
        × (f < total / page_size)
    pub code :
        (kernel_ptr + (b.kernel_code_size / page_size + 1) * page_size ≤ u64_mod)
        × (kernel_ptr / page_size + (b.kernel_code_size / page_size + 1) ≤ total / page_size)
    pub program :
        (0x8000003000 + rounds_of b.user_code_size * page_size ≤ 2 ^ 48)
        × (b.user_buffer + rounds_of b.user_code_size * page_size ≤ 2 ^ 52)
    pub tables : (48 < length p.traps.idt) × (6 < length p.traps.gdt) × (b.tss_buffer < u64_mod)
    pub entries :
        (p.handlers.generic_trap_hdl_ptr < u64_mod)
        × (p.handlers.gp_hdl_ptr < u64_mod)
        × (p.handlers.pg_fault_hdl_ptr < u64_mod)
        × (p.handlers.timer_hdl_ptr < u64_mod)

  -- The machine when the user program is entered.
  pub record Started (total f : ℕ) (b : BootInfo) (p : Platform lib) (m : Machine lib)
      : Type 0 where
    pub account : IsAccounted total m.frames
    pub tables : IsSound (get_block lib 1) (buddies lib) m.cr3 m.mem m.buddy
    pub kernel_part : (x : ℕ) → x < 2 ^ 27 → Covered total f x → IsIdentity m.cr3 m.mem x
    pub program :
        (j : ℕ)
        → j < rounds_of b.user_code_size
        → translate m.mem m.cr3 (m.entry + j * page_size)
          ≡ some ((b.user_buffer / page_size + j) * page_size)
    pub stack :
        (page : ℕ) × (translate m.mem m.cr3 (m.user_stack - page_size) ≡ some (page * page_size))
    pub vectors : (k : ℕ) → handler m.traps.idt k ≡ handler_of p.handlers k p.traps.idt
    pub task :
        task_of m.traps.task_selector m.traps.gdt
        ≡ some (record { base = b.tss_buffer; limit = 103; kind = 9; is_present = 1 })

  -- The run meets a `NULL` of `get_block(1)`: where that is a fault, building the kernel's table is one,
  -- or after it building the user's.
  abbrev pub MeetsNull : (total : ℕ) → BootInfo → Platform lib → Buddy lib → Type 0
  MeetsNull total b p s =
      (map_start (strict (get_block lib 1)) total b.framebuffer (p.mem, s) ≡ fault)
      ⊎ ((k : ℕ × Memory × Buddy lib) × (map_start (get_block lib 1) total b.framebuffer (p.mem, s)
            ≡ ok k)
          × (user_start (strict (get_block lib 1)) k.0 b.user_code_size b.user_buffer (k.1, k.2)
              ≡ fault))

  -- The machine halts, on a buddy system as `init_page_properties` left it; the run meets a `NULL` of
  -- `get_block(1)`, and such calls lead to a state in which it is returned.
  abbrev pub HaltsNoPage : (total kernel_ptr : ℕ) → BootInfo → Platform lib → Type 0
  HaltsNoPage total kernel_ptr b p =
      (l : Layout) × (f0 : Frames) × (s : Buddy lib) × (init_page_properties lib b.memory_map p.raw
          p.raw_pool p.links
        ≡ ok (l, f0, s))
      × HaltsDry (get_block lib 1) (drawn lib s) (kernel_start lib kernel_ptr b p)
      × MeetsNull total b p s

-- ===== src/Kernel/Boot/Started.antt =====
-- What `kernel_start` comes to.
use osvirt_project.Base.{
  ℕ, ◌+◌, ◌*◌, ◌/◌, ◌<◌, ◌≡◌, refl, sym, subst, ◌∙◌, ◌⊎◌, inl, inr, some, arith, ok, halted, fault,
  ◌>>=◌, page_size,
}
use osvirt_project.ListLib.{ListLib}
use osvirt_project.Frames.{Frames, alloc_page, alloc_pages}
use osvirt_project.Frames.Account.{IsAccounted}
use osvirt_project.Frames.Returns.{alloc_page-Kept, alloc_pages-Kept}
use osvirt_project.Buddy.{Buddy, get_block}
use osvirt_project.MemoryMap.{Layout, get_memory_map_size}
use osvirt_project.MemoryMap.Setup.{init_page_properties}
use osvirt_project.MemoryMap.Setup.Ready.{init_page_properties-Ready}
use osvirt_project.PageTable.{Memory}
use osvirt_project.PageTable.Level.{HaltsDry}
use osvirt_project.PageTable.Drawn.{start, drawn_from-IsSound}
use osvirt_project.Interrupts.Gates.{handler, handler_of}
use osvirt_project.Interrupts.Segment.{Traps, setup_interrupts}
use osvirt_project.Interrupts.Segment.Descriptor.{task_of, setup_interrupts_lem}
use osvirt_project.Apic.{x86_lapic_enable}
use osvirt_project.Kernel.Start.{syscall_init, map_start, user_start}
use osvirt_project.Kernel.Pages.{get_block-returns, get_block-keeps, IsStocked, buddies}
use osvirt_project.Kernel.Stock.{Ready-IsStocked}
use osvirt_project.Kernel.Boot.{BootInfo, Platform, Machine, masked, kernel_start}
use osvirt_project.Kernel.Boot.Parts.{translate-present, known_size, drawn, user_part, kernel_part}
use osvirt_project.Kernel.Boot.Outcome.{CanBoot, MeetsNull, HaltsNoPage, Started}
use osvirt_project.Kernel.Strict.{strict, halted-strict, map_start-Same, user_start-Same}

module _ (lib : ListLib) where
  -- The chain of `kernel_start`, once the allocators are set up.
  module _ (kernel_ptr total : ℕ) (b : BootInfo) (p : Platform lib) (l : Layout) (f0 : Frames)
      (s : Buddy lib) (f1 f2 : ℕ × Frames) (traps : Traps)
      (run0 : init_page_properties lib b.memory_map p.raw p.raw_pool p.links ≡ ok (l, f0, s))
      (run1 : alloc_pages kernel_ptr (b.kernel_code_size / page_size + 1) f0 ≡ ok f1)
      (run2 : alloc_page (masked lib b.framebuffer) f1.1 ≡ ok f2)
      (size : (get_memory_map_size b.memory_map (get_memory_map_size b.memory_map 0).1).0 ≡ total)
      (run4 : setup_interrupts p.handlers p.idt_address b.tss_buffer p.traps ≡ ok traps) where
    abbrev machine : ℕ × Memory × Buddy lib → Machine lib
    machine u = record {
      lapic = x86_lapic_enable p.cpu (syscall_init p.cpu p.syscall_entry_ptr p.lapic);
      traps = traps;
      frames = f2.1;
      mem = u.1;
      buddy = u.2;
      cr3 = u.0;
      user_stack = 0x8000002000;
      entry = 0x8000003000;
    }

    kernel_start-no_table :
        map_start (get_block lib 1) total b.framebuffer (p.mem, s) ≡ halted
        → kernel_start lib kernel_ptr b p ≡ halted
    unfolding kernel_start
    kernel_start-no_table stop = rw (kernel_start, run0, ◌>>=◌, run1, run2, size, stop) refl

    module _ (k : ℕ × Memory × Buddy lib)
        (run3 : map_start (get_block lib 1) total b.framebuffer (p.mem, s) ≡ ok k) where
      kernel_start-no_user :
          user_start (get_block lib 1) k.0 b.user_code_size b.user_buffer (k.1, k.2) ≡ halted
          → kernel_start lib kernel_ptr b p ≡ halted
      unfolding kernel_start
      kernel_start-no_user stop =
          rw (kernel_start, run0, ◌>>=◌, run1, run2, size, run3, run4, stop) refl

      kernel_start-run :
          (u : ℕ × Memory × Buddy lib)
          → user_start (get_block lib 1) k.0 b.user_code_size b.user_buffer (k.1, k.2) ≡ ok u
          → kernel_start lib kernel_ptr b p ≡ ok (machine u)
      unfolding kernel_start
      kernel_start-run u run5 =
          rw (kernel_start, run0, ◌>>=◌, run1, run2, size, run3, run4, run5) refl

    -- What is left to be shown once the traps are set up.
    finish :
        (addr largest f : ℕ)
        → CanBoot lib kernel_ptr addr largest total f b p
        → IsAccounted total f2.1
        → IsStocked lib s
        → ((k : ℕ) → handler traps.idt k ≡ handler_of p.handlers k p.traps.idt)
        → task_of traps.task_selector traps.gdt
          ≡ some (record { base = b.tss_buffer; limit = 103; kind = 9; is_present = 1 })
        → (HaltsDry (get_block lib 1) (drawn lib s) (kernel_start lib kernel_ptr b p)
            × MeetsNull lib total b p s)
          ⊎ ((m : Machine lib) × (kernel_start lib kernel_ptr b p ≡ ok m)
              × Started lib total f b p m)
    finish addr largest f can account stocked vectors task =
        let (screen, high, framed) = can.screen in
        let (after, below) = can.program in
        let some_pages = can.bootable.some_pages in
        let some_size : 0 < total = omega arith in
        elim (kernel_part lib s total f p.mem s (stocked, start) some_size can.size high) [
          | inl (stop, dry) ↦ inl (
            (
              kernel_start-no_table (
                  subst (λ a. map_start (get_block lib 1) total a (p.mem, s) ≡ halted) (sym screen)
                    stop),
              dry,
            ),
            inl (
                subst (λ a. map_start (strict (get_block lib 1)) total a (p.mem, s) ≡ fault)
                  (sym screen)
                  (halted-strict (get_block lib 1) (IsStocked lib) (get_block-returns lib)
                    (get_block-keeps lib)
                    (map_start-Same (get_block lib 1) (IsStocked lib) (get_block-returns lib)
                      (get_block-keeps lib) total (f * page_size) p.mem s stocked)
                    stop)),
          )
          | inr (k, run3', sound, same) ↦
              let run3 =
                subst (λ a. map_start (get_block lib 1) total a (p.mem, s) ≡ ok k) (sym screen)
                  run3' in
              let on = translate-present k.1 k.0 0 (same 0 (omega arith) (inl (omega arith))) in
              elim (user_part lib s k.0 b.user_code_size b.user_buffer k.1 k.2 sound on after
                below) [
                  | inl (stop, dry) ↦ inl (
                    (kernel_start-no_user k run3 stop, dry),
                    inr (
                      k,
                      run3,
                      halted-strict (get_block lib 1) (IsStocked lib) (get_block-returns lib)
                          (get_block-keeps lib)
                          (user_start-Same (get_block lib 1) (IsStocked lib) (get_block-returns lib)
                            (get_block-keeps lib) k.0 b.user_code_size b.user_buffer k.1 k.2
                            sound.ready.0)
                          stop,
                    ),
                  )
                  | inr (u, run5, sound', tables) ↦ inr (
                    machine u,
                    kernel_start-run k run3 u run5,
                    record {
                      account = account;
                      tables =
                          drawn_from-IsSound (get_block lib 1) (buddies lib) s u.0 u.1 u.2 sound';
                      kernel_part = λ x small way.
                          tables.kernel_part (x * page_size) (omega arith)
                          ∙ same x (omega arith) way;
                      program = tables.program;
                      stack = tables.stack;
                      vectors = vectors;
                      task = task;
                    },
                  )
                ]
        ]

-- On a machine that can boot, `kernel_start` comes to the jump to the user program, or it halts and
-- the run meets a `NULL` of `get_block(1)`: where that is a fault, building the kernel's page table
-- is one, or building the user's after it, in a state that calls of `get_block(1)` lead to from the
-- buddy system as `init_page_properties` left it. At the jump the page frames are accounted for; the table in `cr3`
-- is sound, and none of its tables is a free page of the buddy system; it maps to themselves the
-- pages below 2 ^ 39 of memory, of the framebuffer and of the fourth gigabyte, the program from its
-- entry on, and a page below the user's stack pointer; and the processor finds the handlers and the
-- task segment.
pub kernel_start-Started :
    (lib : ListLib) (kernel_ptr addr largest total f : ℕ) (b : BootInfo) (p : Platform lib)
    → CanBoot lib kernel_ptr addr largest total f b p
    → HaltsNoPage lib total kernel_ptr b p
      ⊎ ((m : Machine lib) × (kernel_start lib kernel_ptr b p ≡ ok m) × Started lib total f b p m)
kernel_start-Started lib kernel_ptr addr largest total f b p can =
    let (l, f0, s, run0, ready) =
      init_page_properties-Ready lib b.memory_map p.raw p.raw_pool p.links addr largest total
        can.bootable (λ n some_pages. let long = (can.pool n).1 in omega arith) can.links in
    let (fits, inside) = can.code in
    let (screen, high, framed) = can.screen in
    let entries = ready.entries in
    let (f1, run1, same1, account1) =
      alloc_pages-Kept total kernel_ptr (b.kernel_code_size / page_size + 1) f0 fits (omega arith)
        ready.account in
    let (f2, run2, same2, account2) =
      alloc_page-Kept total (masked lib b.framebuffer) f1.1 (omega arith) account1 in
    let (long, wide, tss) = can.tables in
    let (generic, gp, pf, timer) = can.entries in
    let (traps, run4, vectors, base, limit, task, rsp, iopb, others) =
      setup_interrupts_lem p.handlers p.idt_address b.tss_buffer p.traps long wide tss generic gp pf
        timer in
    let some_pages = can.bootable.some_pages in
    let size = known_size b.memory_map total can.bootable.whole (omega arith) in
    let (unused, length_pool) = can.pool l.num_buddy_pages in
    let stocked =
      Ready-IsStocked lib p.raw_pool total addr largest l f0 s ready unused length_pool can.place.0
        can.place.1 in
    elim (finish lib kernel_ptr total b p l f0 s f1 f2 traps run0 run1 run2 size run4 addr largest f
      can account2 stocked vectors task) [
        | inl halts ↦ inl (l, f0, s, run0, halts.0, halts.1)
        | inr started ↦ inr started
      ]

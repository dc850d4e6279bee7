-- ===== src/Lib.antt =====
-- A verification library for a small x86-64 kernel: its boot loader, its allocators of page frames,
-- blocks and slobs, its page tables, interrupt table, local APIC, system calls, formatted output and
-- console, and the user-space heap above it.
--
-- Parts and files:
--  * Base: the names that the modules share, Boolean tests, lists over the native numbers, and Run,
--    the outcome of a C function: a value, the machine halted, or a fault (an access that the
--    modelled memory does not hold, or undefined behaviour).
--  * Frames: the page frame allocator of allocator.c (alloc_page to request_page). The state is
--    properties_ptr.info_buffer as a list, with the counters as 32-bit words. take_page is
--    alloc_page and __reserve_page, which differ in the bit only; drop_page likewise. Frames/Show is
--    print_allocator, as the lines that it prints.
--  * MemoryMap: get_memory_map_size, get_largest_segment_size, reserve_special_segments and
--    init_page_properties of allocator.c, which is whole in MemoryMap/Setup. The firmware's map is a
--    list; what memory held before, in the table and in the pool, is a parameter.
--  * ListLib: the interface to list.c, a copy of another project's lists: what the kernel uses of
--    it, with the documented behaviour as laws. ListLib/Sequences is an instance for concrete runs.
--  * Buddy: get_block and free_block of allocator.c with their helpers, over ListLib, and in
--    Buddy/Setup init_buddy. A descriptor of buddy_pool is its index. Buddy/Rejoin follows the merges
--    of free_block, Buddy/Budget counts descriptors, and Buddy/Supply follows the pages of the blocks
--    that get_block splits. PageTable and Kernel take get_block as a parameter, with the laws of
--    PageSource in PageTable/Level; PageTable/Drawn is such a source in the states that its own calls
--    lead to, and Kernel/Pages makes the buddy system one.
--  * PageTable: page_table.c and kerninc/page_table.h. Memory is 64-bit words; the walk that the
--    processor makes is PageTable/Walk.
--  * Kernel: the mapping loops of kernel_start in kernel.c, and assign_heap and do_syscall_entry of
--    kernel_syscall.c. What is printed is a log. Kernel/Start: syscall_init, and of kernel_start
--    the kernel's and the user's page tables (map_start, user_start). Kernel/Boot is kernel_start as
--    a whole, over the parts of the other files, less what it prints; Kernel/Stock is the buddy
--    system that init_page_properties leaves. Kernel/Strict has the mapping loops with a source of
--    pages whose NULL is a fault, which tells the runs that meet one.
--  * Interrupts: x86_fillgate and create_idt_table of kernel.c. The processor's reading of a gate
--    is handler in Interrupts/Gates. Interrupts/Segment: setup_interrupts of kernel.c, and the task
--    segment of kerninc/interrupts.h, which Interrupts/Segment/Descriptor reads back.
--  * Apic: apic.c, with rdmsr and wrmsr of kerninc/msr.h. The accesses to the processor are a log;
--    Apic/Registers reads off it which register is written, in memory and in the x2APIC mode.
--    Apic/Mode has the manual's account of the bits that x86_lapic_enable reads and writes,
--    Apic/Switch the mode and the register 0x1b, Apic/Enabled the function as a whole.
--  * Slob: slob.c, over ListLib and with get_block as a parameter. Slob/Requests is a caller that
--    keeps what it holds.
--  * Console: fb.c, with the font as a parameter.
--  * Printf: printf.c. Printf/Number has the digits, Printf/Field the padding, Printf/Machine the state
--    machine of _do_vprintf, which yields the characters that it sends, and Printf/Output the
--    functions on top of it, to memory and, over Console, to the screen.
--  * Boot: boot.c. The firmware's services are a record of functions on a state that the model does not
--    look into; Boot/Files is OpenKernel, Boot/Graphics SetGraphicsMode, Boot/Loader efi_main. What is
--    printed, and the calls of GetMemoryMap and ExitBootServices, are a log.
--  * UserHeap: mm.c and userinc/mm.h. Memory is the boundary tags that stand in it. UserHeap/Blocks
--    ties it to the list of blocks, and UserHeap/Live to the payloads that a program holds.
--    UserHeap/Sequence has the calls that a program makes and its writes as a step relation, and
--    UserHeap/Show debug_heap_user of mm.c and debug_heap of kernel_syscall.c.
--  * UserProgram: user.c, a client of UserHeap.
--
-- Bounds and fuel: addresses and sizes are kept modulo 2 ^ 64, and C ints modulo 2 ^ 32, where the
-- code computes with them. Loops over pages, vectors and pixels run on the number of rounds left.
-- find_block has as much fuel as the heap has bytes, and each tag takes 8; free_block has a round
-- for each free block and one more, and a merge takes a block off a list; pages_to_buddy_index has
-- 63 shifts, as many as size_t allows.
-- The loop of _do_vprintf has a round for each character of the format and one more, as each takes a
-- character; a number of 64 bits has at most 22 digits and the buffer room for 63. The loop of efi_main
-- and the wait for a command to the APIC run on fuel that is a parameter, with the number of rounds
-- that the firmware or the processor needs.
--
-- Not modelled: the screen and what is printed in kernel_start, the assembly, the font, the
-- traps, which print and halt, the demonstrations in kernel.c, which nothing calls, and the other functions that
-- print only. mm_malloc and mm_realloc stand on a heap that is set up: their call of memlib_init on
-- one that is not is left to the caller, as is what it prints. QueryMode is an answer for each mode,
-- as the code does not look at its status. list.c is a copy of another project's lists.
pub mod Base
pub mod Frames
pub mod PageTable
pub mod ListLib
pub mod Buddy
pub mod UserHeap
pub mod UserProgram
pub mod MemoryMap
pub mod Slob
pub mod Kernel
pub mod Interrupts
pub mod Console
pub mod Printf
pub mod Apic
pub mod Boot

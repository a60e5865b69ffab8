-- ===== src/Lib.antt =====
-- HIK is a kernel in three layers. Core-0 is the trusted kernel: capabilities and domains
-- (Core-0/capability), physical memory (Core-0/mm), page tables and call gates (Core-0/isolation),
-- threads (Core-0/sched), interrupts (Core-0/irq), services (Core-0/service) and processes
-- (Core-0/process). Core-1 is the runtime of the services: the regions that a service may touch
-- (Core-1/isolation), its heap (Core-1/mm), its life (Core-1/service) and the messages between services
-- (Core-1/ipc). Core-3 is the runtime of the applications: a heap (Core-3/mm) and the wrappers of the
-- system calls (Core-3/core3.c).
-- The service manager calls the capability system and the scheduler, the scheduler calls the memory
-- manager for a thread's stack, the page tables take their pages from the memory manager and ask the
-- capability system, a process takes its memory, domain and page tables from those three, the
-- endpoints of Core-1 lie on its heap, core1_init sets up the parts of Core-1 together, and the
-- interrupt dispatcher asks the capability system about the handlers of services, and calls none.
--
-- Files:
--   Core0.Capability   Core-0/capability/capability.c, Core-0/include/capability.h
--   Core0.Mm           Core-0/mm/mm.c, Core-0/include/mm.h
--   Core0.Sched        Core-0/sched/sched.c, Core-0/include/sched.h
--   Core0.Irq          Core-0/irq/irq.c, Core-0/include/irq.h
--   Core0.Service      Core-0/service/service.c, Core-0/include/service.h, and strncpy of
--                      Core-0/lib/string.c
--   Core0.Text         strcmp and strncmp of Core-0/lib/string.c
--   Core0.Paging       Core-0/isolation/isolation.c, Core-0/include/isolation.h
--   Core0.Process      Core-0/process/process.c, Core-0/include/process.h
--   Core1.Isolation    Core-1/isolation/isolation.c, Core-1/include/isolation.h
--   Core1.Isolation.Bulk  the checked copies there, and memcpy, memset and memcmp of
--                      Core-1/lib/string.c
--   Core1.Ring         ipc_ring_* of Core-1/ipc/ipc.c, ring_buffer_t of Core-1/include/ipc.h
--   Core1.Ipc          the endpoints and channels of Core-1/ipc/ipc.c
--   Core1.Heap         Core-1/mm/physical_mem.c, Core-1/include/physical_mem.h
--   Core1.Service      Core-1/service/service.c, Core-1/include/service.h
--   Core1.Start        core1_init and core1_cleanup of Core-1/core1.c
--   Core1.Text         strings and memmove of Core-1/lib/string.c
--   Core3.Heap         Core-3/mm/virtual_mem.c, Core-3/include/virtual_mem.h
--   Core3.Runtime      Core-3/core3.c, Core-3/include/core3.h
--   Blocks             the block list that the heaps of Core-1 and Core-3 have in common, and its
--                      lemmas: Chain (lists of blocks in memory), Find, Place and Choose (allocating),
--                      Merge and Release (freeing), Spec, Used, Undo and Keep (on lists), Validate
--   Prelude            tests, arrays, commands, machine words and lists that all of them use
-- A module declares a component's records and operations, under the names of the C code; its child
-- modules hold the theorems, and its Tests the runs at concrete inputs.
--
-- A structure is a record, and a fixed-size array of it a function of the index. An operation that
-- changes a component is a command: a function from the component's state to a Run, which is a value
-- with the state after it, `hang` where the code waits for ever, or `fault` where it divides by zero
-- or writes outside of its tables. A component that calls others has a state that holds theirs. There
-- is one core, so a spinlock that is taken twice is a hang: __sync_lock_test_and_set waits for
-- a release that its own caller would have to make. Pointers into a table are indices, and
-- other pointers are addresses, where 0 is null. The string functions and the byte loops leave out
-- their tests for null, except memmove. Integers are natural numbers with
-- the wrap-around of their width written out (u32, u64, dec32, dec64, sub64); a value of a field is not
-- bounded by its type, so a theorem names the bounds that it needs.
--
-- A loop over a table is structural recursion on the number of rounds that its bound leaves: a search
-- is `first`, which looks at the indices below the bound in their order. A walk along the blocks of
-- a heap is given one step more than the heap has bytes. That is enough where the heap is in
-- order, since the walk meets each block once and every block takes at least the 25 bytes of its
-- header. Where a damaged list makes it run out of steps, the walk counts as a hang.
--
-- Code that is not of this repository's layers is a parameter: the callbacks of a service and the
-- handlers of messages, as a function from the address of the code to a command, and the kernel under
-- a system call of an application, as a command.
--
-- Not modelled: the dump functions (empty, or without output), service_get_api (a table of null
-- pointers), the idle thread (it only waits), memory barriers and the TLB (one core,
-- and no cache of translations), the log, the remaining string functions (plain byte loops), the
-- start-up code of Core-0, the main loop and the panic handler of Core-1, the stubs of Core-3, and the
-- boot loaders. `path` and `argv` of a process are not read by the code. The bytes of a Core-1 heap are
-- not modelled, only its headers. The heap of Core-3 has its bytes outside of the headers, where
-- a new header is written over them; what a merge leaves of a header is not followed.
pub mod Prelude
pub mod Blocks
pub mod Core0
pub mod Core1
pub mod Core3

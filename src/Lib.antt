-- ===== src/Lib.antt =====
-- A model of the core of the FOS kernel: its linked lists, its dynamic block allocator and kernel
-- heap, its page tables, its page fault handler, the heap and the shared memory of programs, its
-- locks, its scheduler, and the byte routines they stand on.
--
-- Parts, and where they are:
-- Memory: byte memory with 32-bit words, as the casts to `uint32 *` in lib/dynamic_allocator.c read
--   and write it.
-- Queue: the LIST_* macros of inc/queue.h on a list head and the link fields of its elements. An
--   element is its address, 0 is NULL. `IsQueue q xs` says that the links of `q` run through `xs`.
-- DynAlloc: lib/dynamic_allocator.c (initialize_dynamic_allocator, get_block_size, is_free_block,
--   set_block_data, free_block, alloc_block_FF, alloc_block_BF, realloc_block_FF) with `sbrk` of
--   kern/mem/kheap.c. `Heap` is the state that they share. `Holds h a bs e` is the abstract view:
--   from the end of the begin block at `a` to the end block at `e` memory is tiled by the blocks
--   `bs`, with equal tags at both ends of each, and the free list holds the free ones in address
--   order.
-- Spinlock: pushcli and popcli of kern/cpu/cpu.c and kern/conc/spinlock.c, for the one CPU that
--   `mycpu` answers.
-- Sched: the environment queues of kern/cpu/sched_helpers.c (enqueue, dequeue, sched_insert_*,
--   sched_remove_*, sched_new_env, sched_run_env, sched_run_all, sched_exit_env,
--   sched_exit_all_ready_envs), fos_scheduler_RR and the inner loop of fos_scheduler in
--   kern/cpu/sched.c, yield and sched of kern/proc/user_environment.c. All queues share one pair of
--   link fields per environment, as in the source; every operation takes the queue lock or checks
--   it. A switch of context is the composition of the code before it with the code behind it.
-- Conc: kern/conc/channel.c and kern/conc/sleeplock.c over Sched. The rounds of the loop of
--   wakeup_all are bounded by the size of the channel.
-- Strings: lib/string.c.
-- Paging: kern/mem/memory_manager.c (allocate_frame, free_frame, decrement_references,
--   get_page_table, create_page_table, map_frame, get_frame_info, unmap_frame, loadtime_map_frame),
--   kern/mem/paging_helpers.c, and kheap_physical_address and kheap_virtual_address of
--   kern/mem/kheap.c. `Paging` holds directories and tables by address, the frames by number and
--   the list of the free ones. `kmalloc`, which create_page_table calls, is a parameter.
-- Fault: kern/trap/fault_handler.c (fault_handler, page_fault_handler) with
--   env_page_ws_list_create_element of kern/mem/working_set_manager.c, over Paging. The hand of the
--   clock is a position in the working set. The calls of the page file and `kmalloc` are
--   parameters; pf_read_env_page of kern/disk/pagefile_manager.c is modelled besides, with the
--   pages that the page file holds as a parameter.
-- KHeap: kmalloc, kfree and krealloc of kern/mem/kheap.c over DynAlloc. The list of the free pages
--   is a list of ranges, each with the address of its node, which the block allocator hands out.
--   Frames are a counter and a list of mapped pages, as in `sbrk`; bit 9 of an entry is the page's
--   mark.
-- UserHeap: kern/mem/chunk_operations.c (sys_sbrk, getConsecutiveFreePages, allocate_user_mem,
--   free_user_mem), malloc and free of lib/uheap.c and the system calls between them in
--   kern/trap/syscall.c, over Paging and the working set of Fault. The block allocator of the
--   program, the kernel heap and the page file are parameters.
-- Shared: kern/mem/shared_memory_manager.c and smalloc, sget and sfree of lib/uheap.c, with the
--   system calls of kern/trap/syscall.c between them, over Paging. kmalloc and kfree are
--   parameters; an object is found by its address in the list, and a name is a list of bytes that
--   fits its array.
--
-- A run is `ok`, `panic` (the kernel stops) or `out_of_fuel`; `Returns P r` says that the run `r`
-- is `ok` with a result of which `P` holds. Words are natural numbers with the wrap-around written
-- out.
--
-- Fuel and bounds: LIST_FOREACH has one round for each element that the list counts and one more,
-- which is enough on a well-formed list (walk-IsQueue). alloc_block_FF calls itself once the heap
-- has grown; two rounds are enough in a ready heap (alloc_block_ff-alloc_spec). The loops on
-- strings need one round more than the string has bytes. A spinlock that another CPU holds is never
-- released within one call, so the spinning runs out of any fuel. The replacement loop of
-- page_fault_handler needs a round for each sweep that each page may still survive, and one for
-- each used bit (find_victim-Victim). The loops of kfree and krealloc over pages have the number of
-- pages of the kernel heap as their fuel, those of the user heap the number of pages of the user
-- heap and one more (malloc-Allocated); kfree needs one round for each page that it frees
-- (kfree-kmalloc).
--
-- Not modelled: the rest of the page file, calculate_available_frames, the other system calls and
-- the loading of environments; sched_kill_env and sched_kill_all, which free address spaces; the
-- lock on the frames, which one CPU takes and gives back within each call; a page table on the
-- disk, which no code writes; names and call stacks that locks keep for debugging; calls that only
-- print; and what is outside memory and registers (the console, the disk, the boot code, the
-- interrupt descriptors, the translation cache), the user programs and the tests.
pub mod Prelude
pub mod Memory
pub mod Queue
pub mod DynAlloc
pub mod Spinlock
pub mod Sched
pub mod Conc
pub mod Strings
pub mod Paging
pub mod Fault
pub mod KHeap
pub mod UserHeap
pub mod Shared

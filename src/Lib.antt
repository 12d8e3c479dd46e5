-- ===== src/Lib.antt =====
-- Singularity, a kernel for x86-64 in C++, C and Rust: a model of parts of its C++ code.
--
-- The program's parts. Kernel objects (archs/kom/common) are reference counted (`KObject`) and
-- named by handles of a table of capabilities (`HandleTable`). The objects modelled are channels
-- (`KChannelEndpoint`), ports (`KPort`), events (`KEvent`), containers of named objects
-- (`KContainer`) and blobs (`KVolatileBlob`). Paths lead to them through a tree of containers
-- (ons.cpp). Channels, ports and events block tasks on the wait queues of system/process/process.c, as do the locks of
-- system/sync. Block devices (system/device, system/disk) are read and written through the sector
-- cache (`DiskCache`); a partition (`PartitionDevice`) is a device that passes requests on to its
-- disk. The system calls (kom_syscalls.cpp) put the handle table, the channels and the ports
-- together. The heap (`KernelHeap`, archs/memory) serves small requests from slab caches
-- (`SlabCache`) and large ones from pages; both take their addresses from `VmArena`. A request that
-- is sampled goes to the guarded allocator instead (system/security/gwp_asan.cpp). The clock
-- (archs/cpu/x86_64/drivers/rtc) gives the time in the configured zone.
--
-- Where the code is. Each name is the source's in snake case; a file's functions stand for the methods
-- of the same name.
--   Kom/Object: `KObject`, `kobject_ref`, `kobject_unref` of kobject.hpp and handle.cpp.
--   Kom/Handle: all of `HandleTable` in handle.cpp. The arrays are functions from the index.
--   Kom/Error: the `KOM_` codes of kobject.hpp.
--   Kom/Channel: kchannel.cpp. Kom/Port: kport.cpp. Kom/Event: kevent.cpp.
--   Kom/Container: kcontainer.cpp. Kom/Blob: `KVolatileBlob` of kblob.cpp.
--   Sync/WaitQueue: the queue operations of process.c. Sync/Rwlock: rwlock.cpp. Sync/Mutex: mutex.cpp.
--   Disk/Cache: system/disk/cache.cpp. Disk/Partition: system/device/partition.cpp.
--   Kom/System, Kom/Syscall: kom_syscalls.cpp; `System` is the state that the calls share.
--   Memory/Words: words in byte-addressed memory. Memory/Slab: `SlabCache` of kheap_slab.cpp.
--   Memory/Heap: kheap.cpp; `realloc`, aligned blocks and whole pages are in Memory/Heap/Aligned, the
--   sums over the buckets in Memory/Heap/Sizes.
--   Memory/Arena: `VmArena` of archs/memory/kheap_slab.cpp and kheap.h.
--   Kom/Names: ons.cpp.
--   Memory/Guarded: gwp_asan.cpp. Rtc: rtc.cpp and rtc.hpp.
--   Common: Boolean tests, lists, arrays as functions, and bit operations.
-- The children of a component hold its lemmas, and its `Tests` runs on concrete inputs.
--
-- State and time. A method under a spinlock is one step; where a method blocks in a loop, one round of
-- the loop is one step and the task's next round is another, so that other tasks run in between. The
-- tasks that a step wakes are part of its result. Sequences of steps are lists of calls or relations
-- (`Step`, `Reach`). `HandleTable::dup` and `transfer` and a whole cache access take more than one
-- spinlock section in the source and are one step here. A panic is `none`, or a case that the callers
-- modelled here do not reach.
--
-- Numbers are natural numbers with the wrap-around of the source's types written out: `% 2 ^ 64`,
-- `% 2 ^ 32`, `% 2 ^ 16`. Subtraction that wraps adds the modulus first.
--
-- Bounds and fuel. A handle table has 4,096 slots, the arena's array 512, the cache 256 sets, a
-- lock 1,024 readers, the heap eight classes. `bits` runs 32 rounds, the width of its argument.
-- `lower_bound` runs on the number of regions as fuel, and the interval it searches shrinks each
-- round. `wake_all` runs on one more than the length of the queue, and each round but the last
-- takes a task off it. `find_slot` runs over the 64 slots of the guarded allocator. All other loops
-- are by recursion on what they count down.
--
-- Assumptions. The results of the allocator, the devices, the page tables and the timer are
-- parameters, free in each round. A device whose write of several sectors fails may have stored
-- a first part of them; one whose write of a single sector through the cache fails has not changed.
-- Devices share no sectors. A linked list is a list and a string a list of characters, but the free objects of a slab
-- are linked through memory as in the source. What `ons_resolve` finds is an argument of `kom_open`,
-- and the guarded allocator is a parameter of the heap. What the clock's registers and the firmware
-- answer is an argument, and the reading of the registers takes as many rounds as there are answers.
--
-- Not modelled: the physical frames behind the heap's pages, the scheduler, paging, the other drivers, the
-- console and the shell, all C but the wait queues, and the Rust core; log messages; freeing of
-- memory that nothing refers to.
pub mod Common
pub mod Disk
pub mod Kom
pub mod Memory
pub mod Rtc
pub mod Sync

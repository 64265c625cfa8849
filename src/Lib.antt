-- ===== src/Lib.antt =====
-- A model of the k-os kernel, written in C, with the theorems that make its parts correct. A file
-- stands for each part, its children hold the proofs, and a `Tests` child holds runs on small data.
--
-- The parts and their sources, by paths from the root of the repository:
--   CString    kernel/src/lib/string.c: the memory and string routines
--   RingBuff   kernel/inc/common/ringbuff.h: ring buffers of blocks, on the routines of CString
--   Keyboard   kernel/src/driver/console/keyboard.c: the key buffer, a ring buffer of bytes
--   PageAlloc  kernel/src/mm/mm.c: the page allocator, halving and joining blocks of pages
--   Slab       kernel/src/mm/cache.c: slab caches, from which kmalloc takes its small blocks
--   Timer      kernel/src/time/timer.c: the queue of timers, each relative to the one before it
--   Division   kernel/src/lib/math.c: the 64-bit division
--   Ramfs      kernel/src/fs/type/ramfs.c: the bytes of a file, in chunks
--   Tcp        kernel/src/net/ip/tcp.c: ports, connections, listening sockets, headers
--   Checksum   kernel/src/net/ip/checksum.h: the checksum of packets
--   Arp        kernel/src/net/ip/arp.c: the addresses that are known and the packets that wait
--   Semaphore  kernel/src/sync/semaphore.c: the semaphore, with its threads in any order
--   Sched      kernel/src/sched/sched.c: threads, their queue and the switch on each processor
--   Task       kernel/src/sched/sched.c: task nodes, their end and their children
--   Vram       kernel/src/driver/console/vram.c: the text console, its cursor and escape sequences
--   Tty        kernel/src/driver/console/tty.c: the terminal, from key codes to characters
--   Ufd        kernel/src/sched/sched.c and kernel/src/fs/fd.c: file descriptors and counts of files
--   Vfs        kernel/src/fs/vfs.c: directory entries, mounts and the lookup of paths
--   Swap       kernel/inc/common/swap.h: the order of the bytes of a word
--   LinkedList kernel/inc/common/list.h: the circular lists, by the links of their entries
--   Base       what they share: words, byte memory, integers, lists
-- A definition has the name of the C function, type or field that it models; a loop or a branch of
-- a function that has a definition of its own names that code in the comment above it.
--
-- How the program is modelled. The machine has 32-bit addresses: a pointer is a number, memory is a
-- function from addresses to bytes, and sums, differences and products of `uint32_t` wrap modulo
-- 2 ^ 32 (`add32`, `sub32`, `mul32`). A function that changes state returns the new state. A failed
-- BUG_ON, a panic and C's undefined behaviour are `none`; the build options are those of
-- kernel/config.h, where CONFIG_DEBUG_BUGCHECKS is on and CONFIG_DEBUG_MM is off. A block that a
-- routine gets from kmalloc, and a page that it gets from alloc_page, are arguments. The lists of a
-- slab cache are sequences of page addresses, the free lists of the page allocator are sequences of
-- page indices, and the queue of timers is a sequence of timers: LinkedList shows how such a sequence
-- stands in memory.
--
-- Loops with a counter recurse on what is left of it. A loop over a string that runs to its NUL
-- byte takes fuel: one step more than the length of the string is enough, and the theorems on these
-- routines say so. `itoa` gets 65 rounds, one more than its scratch space has places; `atoi` needs
-- 33 rounds for the numerals that `itoa` writes. The loops of the division need 65 rounds for
-- 64-bit numbers. `trim_block` gets one round more than the order of its block, which every round
-- lowers, and `ripple_join` eleven, since every round raises the order, up to 10. A transfer of
-- `len` bytes to or from a file of Ramfs gets `len` rounds, since each moves a byte at least;
-- `tcp_recv` needs one unit for each byte that is there. `log2` looks at 32 bits, and `free_pages`
-- frees 33 blocks at most, one for each bit. A lookup of a path takes a round for each name or mount
-- and one more; `Vfs.Walk` shows it where no mount is entered.
--
-- A connection of Tcp is a record with the segments that it has sent; `Tcp.Handshake` has what can
-- happen to it as a step relation, in any order, as `Arp.Runs`, `Semaphore.Steps` and `Sched.Steps`
-- have for the ARP cache, the semaphore and the scheduler. Not modelled: locks and interrupts
-- (every operation here runs under its lock), the callbacks of timers beyond their order, which do
-- not change the queue since its lock is held, the list of all caches, what other processors do
-- while a connection's lock is given up around `packet_send`, and the parts of the kernel that
-- drive hardware.
pub mod Arp
pub mod Base
pub mod CString
pub mod Checksum
pub mod Division
pub mod Keyboard
pub mod LinkedList
pub mod PageAlloc
pub mod Ramfs
pub mod RingBuff
pub mod Sched
pub mod Semaphore
pub mod Slab
pub mod Swap
pub mod Task
pub mod Tcp
pub mod Timer
pub mod Tty
pub mod Ufd
pub mod Vfs
pub mod Vram

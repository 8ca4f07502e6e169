-- ===== src/Lib.antt =====
-- Verification of the Pintos kernel in OS-lab2-master/pintos/src, as built for the threads
-- exercise (without USERPROG): its threads and scheduler, semaphores, locks and condition
-- variables, the timer with its sleeping threads, the queue between interrupt handlers and
-- threads, and the library routines on strings, bits, lists, sorting, 64-bit integers and random
-- numbers that they stand on; further the page allocator, and the files and directories of its
-- file system down to the sectors of a block device. Beside it stands the command parser of the
-- shell, OS-lab1-master/code/parse.c.
--
-- How the parts interact. The scheduler (threads/thread.c) keeps the ready list and the list of
-- all threads. Semaphores (threads/synch.c) block the running thread and make waiters ready
-- again; locks and condition variables are semaphores with an owner. The timer interrupt
-- (devices/timer.c) counts ticks, walks over all threads to wake those whose time has come, and
-- asks for a yield at the end of a time slice, which intr_handler (threads/interrupt.c) grants
-- when the handler is done. Interrupt queues (devices/intq.c) block and wake threads from both
-- sides. thread_create copies the name of a thread by strlcpy (lib/string.c). A directory
-- (filesys/directory.c) is a file of entries. An open file (filesys/file.c) stands on an inode
-- (filesys/inode.c), which counts its openers and those that deny writes, and which reads and
-- writes the sectors of a block device (devices/block.c); the free map (filesys/free-map.c) and
-- the page allocator (threads/palloc.c) hand out groups of bits of a bitmap
-- (lib/kernel/bitmap.c).
--
-- Which file models what, by the names of the functions:
--
-- - Threads: the kernel state, one record for the static variables of these files, and the
--   interrupt level of threads/interrupt.c. Threads/Switch: thread_current,
--   next_thread_to_run, schedule and thread_schedule_tail. Threads/Life: thread_create,
--   thread_block, thread_unblock, thread_yield, thread_exit, thread_foreach, thread_tick.
--   Threads/Invariant: where each thread stands. Threads/Next, Dispatch, Steps, RoundRobin,
--   Fresh and Create: what the operations do.
-- - Synch: every operation of threads/synch.c. Synch/Up and Down: sema_up and sema_down.
-- - Timer: devices/timer.c, update_sleeping_threads of threads/thread.c and the external part
--   of intr_handler. Timer/Wake, Tick and Sleep: what they do.
-- - IntQueue: devices/intq.c. IntQueue/Fifo and Calls: the queue as a sequence of bytes.
-- - Strings, with one child for each group of functions of lib/string.c: Memory (memcpy,
--   memmove), Text and Order (lengths, comparisons, searches for bytes), Copy (strlcpy,
--   strlcat), Find (strstr), Token (strtok_r), Segment (memcpy at an offset).
-- - Bitmap: lib/kernel/bitmap.c over Bits, the binary digits of a number. Bitmap/Single,
--   Range, Scan and Take: one bit, ranges, and the search for groups.
-- - FreeMap: filesys/free-map.c, what it does to the map. FreeMap/Sectors: free_map_allocate;
--   Release: free_map_release.
-- - Palloc: threads/palloc.c, and bitmap_create_in_buf of lib/kernel/bitmap.c. Palloc/Get and
--   Free: palloc_get_multiple and palloc_free_multiple.
-- - Block: devices/block.c, block_read and block_write. Block/Byte: the bytes of a device,
--   numbered across its sectors.
-- - Inode: inode_read_at and inode_write_at of filesys/inode.c, a round of each loop by
--   itself. Inode/Table: the list of open inodes, free_map_allocate and free_map_release with
--   the bitmap_write of lib/kernel/bitmap.c, inode_create, inode_open, inode_close and the
--   calls on counts. Inode/Access and Loop: what the two loops share; Read, Put, Write and
--   RoundTrip: their results; MapFile: what is written to the file of the free map; Header,
--   Create and Empty: new files; Entries and Opening: the list of open inodes.
-- - File: filesys/file.c. File/Accounts, Close and Calls: the counts of an inode and the open
--   files.
-- - Directory: filesys/directory.c. Directory/Entry and Lookup: an entry by itself, and the
--   search for a name; Slot, Written and Add: dir_add.
-- - Filesys: filesys_create, filesys_open and filesys_remove of filesys/filesys.c.
-- - LinkedList: lib/kernel/list.c on the links of elements by their addresses;
--   LinkedList/Order: the functions that compare elements. LinkedList/Chain: the sequence that
--   links stand for; Insert, Remove, Walk and Ordered: what the functions do to it.
-- - Stdlib: sort, qsort, binary_search and bsearch of lib/stdlib.c. Stdlib/Swap, Float,
--   Heapify and Sort: heap sort; Search: binary search.
-- - Arithmetic: lib/arithmetic.c. Arithmetic/Nlz, Narrow, Correction and Wide: its steps;
--   Quotient and Signed: the results.
-- - Random: lib/random.c. Random/Permutation and Draw: its state and its bytes.
-- - Shell: OS-lab1-master/code/parse.c, its three static buffers in one record. Shell/Bytes,
--   Token and Reading: nexttoken; Arguments: acmd.
-- - Common: shared names, Boolean tests, lists and integers. KernelTests, StringTests,
--   BitmapTests, PageTests, FileTests, DirectoryTests, ListTests, SortTests, NumberTests,
--   ShellTests: runs at concrete values.
--
-- How the state corresponds. Threads, semaphores, locks and condition variables go by their
-- addresses, numbers with 0 for the null pointer; a page is a thread where its magic number says
-- so. In the models of the clients, a list of lib/kernel/list.c is the sequence of its elements;
-- LinkedList has its links. The free map and the bits of a pool are bitmaps as in Bitmap. An
-- inode in memory goes by the address that malloc gave it, an open file is passed and returned
-- as a value, and the driver of a block device is the list of the sectors that it keeps. Sizes
-- and offsets in files are the nonnegative values of off_t. A failed assertion, a fault of the
-- machine and an access out of bounds are the value none. An operation that gives the processor
-- away ends with the next thread running, and what the thread does when it runs again is kept as
-- its frame, for resume to go on with.
--
-- Bounds and fuel. Words wrap at 2 ^ 32 and 2 ^ 64 where the source has unsigned integers. A
-- signed counter or sum that would overflow is undefined, the value none: the clock and the
-- counters of ticks, a wake-up time, a tid, and the negation in sdiv64. Loops recurse on the
-- list they walk or on the rounds left. Fuel appears in these places: the jumps in acmd and in
-- parse, each round of which uses up a character, have one more than the text has, and twice as
-- much; the loop over strtok_r, where more fuel than the string has bytes is enough, and
-- cond_broadcast, whose fuel is one more than there are waiters, each round taking one off; the
-- loops of inode_read_at and inode_write_at, each round of which transfers a byte at least, have
-- a round for each byte asked for; heapify has one more than there are elements, for each round
-- goes to a greater index, and binary_search one for each element; the loops over a directory
-- have one more than its file has whole entries; the loops of lib/kernel/list.c take their
-- rounds as an argument.
--
-- What is not modelled. The page that palloc_get_page hands out, and whether it does, is an
-- argument of thread_create and lies in a pool and is in use from then on; of a freed page only
-- its magic number is known to be gone. The inode behind the open file of the free map is kept
-- apart from the list of open inodes, as it stays while that file is open. The lock in
-- allocate_tid is taken to be free, as it is with interrupts on and one caller. The function
-- that a new thread runs and its argument are left out. A preemption happens where intr_handler
-- yields. Whether malloc and calloc have memory, and the address that inode_open gets, are
-- arguments. In lib/stdlib.c the bytes of one element are one value; the order of compared
-- elements is a parameter with the hypotheses that its documentation asks for. The locks of the
-- page pools are taken to be free. The boot sequence, the drivers, user programs, the set-up and
-- formatting in filesys/filesys.c, malloc, hash tables, printing, the processes of the shell
-- (lsh.c) and the empty exercise in devices/batch-scheduler.c are outside.
pub mod Common
pub mod Block
pub mod Inode
pub mod File
pub mod Directory
pub mod Filesys
pub mod LinkedList
pub mod Strings
pub mod Stdlib
pub mod Threads
pub mod Synch
pub mod Timer
pub mod IntQueue
pub mod Bits
pub mod Bitmap
pub mod Arithmetic
pub mod Random
pub mod FreeMap
pub mod Palloc
pub mod Shell
mod FileTests
mod DirectoryTests
mod ListTests
mod PageTests
mod SortTests
mod KernelTests
mod StringTests
mod BitmapTests
mod NumberTests
mod ShellTests

-- ===== src/Lib.antt =====
-- legacy-point-monitor: two programs that share an array of points in System V shared memory, and
-- the libraries that they are built on.
--
-- Parts and files. src/lib/store: the hash table (hash_table.c) is Store/HashTable.antt with its
-- laws in Store/HashTable/, the linked list (list.c) is Store/List.antt over the memory of
-- Store/Memory.antt with its laws in Store/List/. src/lib/thread_mgr (thread_mgr.c) is
-- Threads/State.antt (types and static variables), Threads/Signals.antt (signal handlers,
-- self-pipe, manager thread), Threads/Name.antt and Threads/Api.antt (th_execute, th_wait, th_kill,
-- th_exit and their kin) and Threads/Manager.antt (printed records, the library's handlers, the
-- loop of the manager thread); Threads/Calls.antt has the sequences of calls, and the other files
-- of Threads/ hold the proofs. src/lib/shmlib (shared_mem.c) is SharedMem/State.antt (types, static
-- variables, locks), SharedMem/Connect.antt (connect_shm) and SharedMem/Detach.antt (detach_shm and
-- destroy_shm) and SharedMem/Show.antt (show_segments); the other files of SharedMem/ hold the
-- proofs. src/lib/log_mgr (log_mgr.c) is Log.antt, with its laws in Log/. src/lib/store/point.c is
-- Points.antt, src/bin/install_data (install_data.c) is Install.antt for the tasks,
-- Install/Tasks.antt for the list of tasks, over a list with the laws of the record ItemList, which
-- Install/Tasks/Linked.antt fills with the linked list, Install/Startup.antt for main before and
-- after its loop, Install/Rounds.antt for the loop on the table of threads, and Install/Loop.antt
-- for the loop with its threads and the tasks, and src/bin/monitor_shm (monitor_shm.c) is
-- Monitor.antt for the countdown alone, Monitor/Program.antt for main on the shared memory library,
-- and Monitor/Signals.antt for its signals. What they do is in Points/Report.antt,
-- Install/Effect.antt, Install/Tasks/, Install/Startup/, Install/Rounds/, Install/Loop/ and the
-- other files of Monitor/. Common/ holds shared types, tests and lemmas. Functions and types have
-- the names of the source; static variables are the fields of a record.
--
-- How the parts interact. The thread manager keeps its signal handlers in a hash table of 15 slots,
-- in which the signals 1 to 15 have an index each.
--
-- The shared memory library keeps its segments in such a table too, of 4096 slots, and the
-- addresses at which a segment is attached in a linked list.
--
-- install_data turns the lines of a file into a linked list of tasks, which a managed thread
-- carries out on the array of 20 points; monitor_shm reports on the same array once a second. The
-- array is a list here. Both programs connect to one segment with the semaphores off, which the
-- models of their main functions do by the models of connect_shm, show_segments, detach_shm and
-- destroy_shm. The answers of the kernel to each call are arguments, the locks' too; the points
-- that monitor_shm finds in a round are an argument, since another process writes them.
--
-- The loop of install_data is a step relation: main, the worker and the thread that calls the
-- signal handlers take turns in any order, a shared access at a time. There th_execute, th_kill_all
-- and th_wait_all stand for what they do to the one worker (what they do to the table of threads in
-- each round is in Install/Rounds.antt), and a wake-up of pthread_cond_wait without a signal is a
-- relation of its own.
--
-- Bounds and fuel. The probe loop of the hash table is given as many rounds as the table has slots;
-- a loop that does not end in these never ends. A loop along a list is given `size + 1` rounds,
-- which is enough for every well-formed list; the loop of install_data on the table of threads is
-- followed for any number of rounds, and may go on or wait for ever. `int` keys are integers, reduced
-- modulo 2^32 where the source casts them.
--
-- Not modelled: the calls of log_event in the other parts, and show_hash and destroy_hash, which
-- nothing calls; failures of malloc, except where the source tests for them (th_execute). Floats
-- are a parameter. Answers of the C library and of the kernel are arguments.
pub mod Common
pub mod Store
pub mod Threads
pub mod Log
pub mod Points
pub mod SharedMem
pub mod Install
pub mod Monitor
mod Tests

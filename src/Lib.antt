-- ===== src/Lib.antt =====
-- coop-tasks: non-blocking collections, futures, and a thread pool on top of them.
--
-- The program's parts. src/collections.c holds a memory pool of fragments of one size, whose free
-- fragments form a non-blocking queue after Michael and Scott; a bounded queue of items, which is a
-- second such queue over the fragments of a pool of its own; a deque that is only declared; and a
-- non-blocking list. src/future.c is a promise and its future under a mutex. src/thread_pool.c
-- holds one queue of jobs for all workers and one for each worker, from which the others may steal.
-- src/tasks.c sets the fields of a runnable. src/threads_posix.c wraps pthreads, and src/utils.h
-- has the macro that runs a block under a mutex.
--
-- The files.
--   Base: lists, Boolean tests and machine words over the native numbers.
--   Heap: the memory of src/collections.c, its commands, and total correctness of a command. A cell
--     is a `struct memory_fragment`, a `struct queue_value` or a `struct list_node`: the link, the
--     bytes behind it, and the backlink and the key of a node, at its address. The value of a node
--     is behind the first 16 of these bytes, which are those of backlink and key. A command passes
--     the world on: the heap, the allocated blocks, errno, and the list of spurious failures that
--     weak compare-exchanges have ahead of them. It is a fault to access an address with no cell,
--     or to copy past the end of the bytes.
--   Msq: the two loops, which the source writes out in internal_mempool_put and queue_enqueue, and
--     in internal_mempool_pick and queue_dequeue. `link_last` and `unlink_first` model both copies;
--     what queue_dequeue copies before it moves the head is an argument.
--   Shared: a pool that any number of threads use at once. Shared/Machine has internal_mempool_put
--     and internal_mempool_pick as steps, each with one access to the pool or to a fragment, and
--     what callers do between them, with the histories of fragments; Inv, Lines, Changes, Kept,
--     Linked and Runs have what holds in every interleaving, Zeroed what a caller can break. Solo,
--     Ends, Carried and Alone are about one thread that runs while the others stand still.
--   Mempool: the memory pool, Mempool/Defs in the source's order and under the source's names.
--   Queue: the queue, likewise; Queue/Refine has the bounded queue that it promises.
--   LockFree: the list. Defs has the marks and the loops, Ops the calls; Inv says what a list is,
--     over the spans of nodes in Span and the map of Spec; Calls and Refine have the finite map
--     that a list promises. A key, which is signed in the source, has 2 ^ 63 added.
--   Deque: the six functions of the deque.
--   Future: Future/Defs has the operations of src/future.c and include/future.h run to the end,
--     Future/Steps one setter and any number of waiters, step by step.
--   ThreadPool: JobFields has the setters of src/thread_pool.c and src/tasks.c, Pool has
--     work_steal, job_seeking and thrdpool_add under the pool's mutex, over queues that are bounded
--     lists; Queues joins these to the byte queues of src/collections.c, through Queue/Refine.
--     Steps has the loops of the workers side by side, with thrdpool_add between their steps: what
--     the mutex guards is one step, and what a worker does outside of it to its own fields, with
--     the change of num_active, is another. Kept and Runs have what holds in every interleaving.
--     Create has the making and the destroying of a pool: the memory and the queues that it takes
--     and gives back; Cancel has the order in which it cancels and joins the workers.
--   Threads: the calls of src/threads_posix.c that pass an error number of pthreads on, which is an
--     argument, and the names of threads. The list `tcbs` of control blocks is an association list.
--     Threads/Create has what thrd_create, internal_entry and internal_task_finalizer do to the
--     tables of threads and to the keys of pthreads, for one thread at a time. Threads/Suspend has
--     the signal and the semaphore of thrd_suspend and thrd_resume, for any number of threads, and
--     Threads/Sleep has thrd_sleep over a clock of the system, whose documented behaviour is in the
--     record `Clock`.
--   Lock: the macro `lock` of src/utils.h, and what its cleanup handler does to a thread that is
--     cancelled under a mutex.
--   SharedTests, MempoolTests, QueueTests, ListTests, PoolTests, ThreadTests and Tests: the
--     theorems at concrete values.
--
-- Bounds and fuel. Numbers are those of a machine with 64-bit pointers and `size_t`: sizes are
-- taken modulo 2 ^ 64, the counters of nodes modulo 2 ^ 32. A link and its counter take 16 bytes.
-- What `calloc` finds is an argument, `fresh`. The fuel of a loop is the number of answers that
-- weak compare-exchanges still have ahead, plus two: a round that does not end the loop either uses
-- up such an answer or moves the tail on, which happens once at most. The loops of the list have
-- their fuel as an argument, which has to be above the number of entries and of spurious failures
-- ahead: a round goes on by an entry, or uses up a failure. `try_mark` and `help_flagged` share one
-- fuel.
--
-- What is not modelled. What `printf` makes of a number is an argument of list_dump. Mempool, Queue
-- and LockFree run one thread at a time: a compare-exchange may fail spuriously, but no other
-- thread acts between two accesses. The interleavings of threads are those of Shared, of the future
-- and of the workers of a pool. In Shared every access is one step, the plain read of a link too,
-- in one order for all threads, and no fragment is given to the pool twice. A compare-exchange that
-- fails leaves its expected value unused, as the source does. Deleting from a list is stated
-- without spurious failures, since help_marked tries once; keys are those strictly between
-- INTPTR_MIN and INTPTR_MAX, which the ends of a list have. In Threads/Suspend threads do not end,
-- no other signal is handled, and a semaphore has no highest value. ThreadPool/Steps starts with a
-- pool that is made, whose workers' threads are given, and in which nobody is cancelled. Mutexes
-- and conditions appear where an operation holds them. A caller of thrdpool_add is a worker of the
-- same pool, or no worker. The branches that are compiled without MEMPOOL_IMPLEMENTED_QUEUE are
-- left out, since src/collections.h defines it.
pub mod Base
pub mod Lock
pub mod Heap
pub mod Msq
pub mod Mempool
pub mod Shared
pub mod Queue
pub mod LockFree
pub mod Deque
pub mod Future
pub mod ThreadPool
pub mod Threads
mod SharedTests
mod MempoolTests
mod QueueTests
mod ListTests
mod PoolTests
mod ThreadTests
mod Tests

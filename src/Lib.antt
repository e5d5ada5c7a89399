-- ===== src/Lib.antt =====
-- bc-concurrency: a worker pool, a parallel loop, a bounded queue between threads, and stop signals.
--
-- The program's parts and the files that model them (paths from the repository's root):
--   * src/queue/bc_concurrency_queue.c, the bounded multi-producer multi-consumer queue. Queue has its
--     memory layout, bc_concurrency_queue_create, destroy, is_closed and capacity (`create`, `destroy`,
--     `is_closed`, `capacity`); Queue.Steps has push, pop and close as program counters (`Pc`) and one
--     shared access at a time (`move`); Queue.System puts any number of threads over one queue
--     (`Step`, `Reach`); Queue.Calls runs one call without competition; Queue.Fifo is the list that
--     the queue stands for, and Queue.Contents the elements that a state holds.
--   * src/dispatch/bc_concurrency_async.c, the parallel loop bc_concurrency_for: ParallelFor, with the
--     index of each call that a run makes, for the main thread and for each chunk.
--   * src/context/bc_concurrency.c, the context with its workers, in five parts. Context has
--     bc_concurrency_create and bc_concurrency_destroy (`create`, `destroy`): Context.Placement its
--     choice of the number of workers and of their cores, the rest each allocation with the label that
--     a failure jumps to; Context.Slots has bc_concurrency_register_slot (`register_slot`), and
--     Context.Queries the queries on tls_worker and the context, with bc_concurrency_foreach_slot.
--     Context.Ownership and Context.Pointers say which block of the heap belongs to which pointer of a
--     context, Context.Slots.Shape, Slots.Memory and Slots.Inits what a registration keeps of that,
--     Context.Destruction and Context.Callbacks what the destruction frees and calls, and
--     Context.Client puts create and any registrations together with what follows.
--     Spawning has spawn_workers and bc_concurrency_ensure_workers_spawned. Worker
--     has one worker's thread (`worker_step` for worker_thread_routine) and the main thread's calls on
--     it (`main_step` for bc_concurrency_dispatch_to_worker, bc_concurrency_wait_for_worker and the
--     stop of a worker), a lock, an unlock, a signal or an access at a time. Pool puts the main thread
--     over all workers: it goes through a script of such calls, and a run (`Reach`) is any interleaving
--     of the threads' steps with wake-ups that no signal made; Pool.Scripts has the scripts that
--     bc_concurrency_dispatch_and_wait, bc_concurrency_for and bc_concurrency_destroy go through.
--     Dispatch has the rest of bc_concurrency_dispatch_and_wait, the dispatch array and the assignments,
--     and Dispatch.Submission bc_concurrency_submit and bc_concurrency_submit_batch.
--   * a client's use of one context, with all of these on one heap: Session, whose `perform` makes one
--     call of bc_concurrency_register_slot, submit, submit_batch, dispatch_and_wait or bc_concurrency_for.
--   * src/platform/bc_concurrency_platform.c, physical cores and pinning: Platform.
--   * src/signal/bc_concurrency_signal.c, the stop signal handler: Signal; the sleep: Signal.Sleep.
--   * fuzzing/fuzz_bc_concurrency_queue.c, the fuzzing driver of the queue: Fuzzing.
--   * the pool allocator of bc-allocators: Allocator, an interface with laws; Allocator.Bump is an
--     allocator for concrete runs.
--   * Base has the shared helpers: tests on numbers, 64 bit words, bits, lists.
-- The queue, the signal handler and the context use the allocator; the parallel loop and the dispatch
-- use it and the workers, which a chunk or an assignment is handed to. Their scripts in Pool are made
-- from the chunks of ParallelFor and the assignments of Dispatch, and Pool.Doomed starts its runs from
-- what Spawning leaves.
--
-- A balanced script (`IsScript`) names workers below n only, waits for each worker exactly after it has
-- handed work to it, stops none that has work, and joins only what it has stopped; the scripts of the
-- three functions, and a client's dispatches followed by the destruction of the context, are balanced.
--
-- How the code corresponds: a size_t or uint64_t is a natural number, with each wrap-around written
-- out (`u64`, `sub64`); a comparison of positions is the signed one of the source (`signed_rank`). A
-- function that returns a bool and an out pointer returns an option. Memory of a queue is a function
-- from byte offsets, so that two slots can overlap if the layout lets them.
--
-- Fuel: `round_loop` doubles from 1, so 64 rounds reach 2 ^ 63; `serve` has six accesses, one for each
-- access of an uncontended push; `grow` starts at 1 or more, so 64 rounds reach 2 ^ 63 as
-- well; `nap_loop` needs a round for each nap, whose number nanosleep does not bound; `fuzz_loop` needs
-- no more rounds than its input has bytes; a session needs what `grow` needs. The bound 2 ^ 63 on the
-- steps of a run keeps the 64 bit positions and their signed difference from wrapping.
--
-- Not modelled: weak memory (accesses are taken in one order, which the acquire and release operations
-- of a slot's sequence number stand for; what a mutex guards is accessed under it), the bytes of an
-- element (a copy is one access), the files below /sys and the kernel's calls (parameters, with their
-- documented behaviour as hypotheses), the addresses of the work that is handed over (it is passed by
-- value), the thread-local variable tls_worker itself (the queries take the worker that it points to),
-- the pinning and the signal mask inside a worker's thread, the typed array of bc-core that holds the
-- staged tasks (its push is a parameter), the tests, the benchmarks,
-- fuzzing/fuzz_bc_concurrency_dispatch.c (a client, of calls that are modelled), the main functions of
-- the fuzzing drivers, and the pause instruction.
pub mod Base
pub mod Allocator
pub mod Queue
pub mod ParallelFor
pub mod Platform
pub mod Signal
pub mod Dispatch
pub mod Worker
pub mod Pool
pub mod Spawning
pub mod Context
pub mod Session
pub mod Fuzzing

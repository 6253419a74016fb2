-- ===== src/Lib.antt =====
-- A model of function_queue, a C++ library of parallel algorithms, futures and function streams on
-- top of a pool of worker threads.
--
-- A parallel algorithm splits its range by a partition policy, adds one task for each part to the
-- scheduler, waits on a latch that the tasks notify, and puts the results of the parts together. A
-- sort puts its parts together by reducing a vector of futures. A function stream sends a package
-- from task to task, one function each.
--
-- - Prelude: the names and the lemmas on lists and folds that the modules share. Outcome is the
--   result of code that may return, throw or be undefined.
-- - Ranges: the parts of a range, and split_fixed_t of include/daw/fs/impl/algorithms_impl.h. The
--   policy split_range_t calls partition_range of the header libraries that this repository uses;
--   a policy is a record of the split and of what the algorithms rely on.
-- - Tasks: partition_range and partition_range_pos of include/daw/fs/impl/algorithms_impl.h. A
--   task is one step on the shared memory, and the order of the tasks is a parameter.
-- - Algorithms: parallel_reduce, parallel_map_reduce, parallel_count, parallel_find_if,
--   parallel_equal, parallel_min_element, parallel_max_element, parallel_for_each,
--   parallel_for_each_index, parallel_sort, parallel_map and parallel_scan of
--   include/daw/fs/impl/algorithms_impl.h, each in a module of its own (MapPairs and InPlace are
--   about parallel_map on two ranges and over its own input, Scan has a module for each of its
--   passes, Writes is about the outputs of tasks, Chunked is about the loops over whole parts, and
--   FrontEnds has the calls on two iterators), with fill, map_reduce, transform and scan of
--   include/daw/fs/algorithms.h.
-- - MessageQueue: mpmc_bounded_queue of include/daw/fs/message_queue.h, over a record for
--   boost::lockfree::queue: its operations and what its documentation promises.
-- - Latch: the class latch of include/daw/fs/impl/daw_latch.h with the threads that wait on it;
--   Opening is about when it is open and whom it wakes, Handles about its owners, and Deadline
--   about its waits with a predicate or a deadline, over include/daw/atomic_wait_predicate.h.
-- - Scheduler: send_task, run_next_task, run_task and two overloads of wait_for_task_from_pool
--   (wait_for_task_of_worker is the one with an id alone) of src/task_scheduler.cpp. QueueLoops
--   has the two loops they share. Cycle is about its loops over the queues, Search and Contents
--   about what they find, Pending and Running about all waiting tasks together, Waiting and Ready
--   about one function each. Pool has the threads of a scheduler with start, stop and
--   wait_for_scope, over ithread of include/daw/fs/impl/ithread.h; Overrun is about sending a task
--   within wait_for_scope, Token and its module Losing about the temporary workers and the
--   overload of wait_for_task_from_pool with a predicate, Runner about the loop of a worker, and
--   Wrapper about the calls that a task_wrapper nests. Dispatch has add_task with the tasks of
--   include/daw/fs/impl/task.h, and Room says when a queue has room for them.
-- - OnScheduler: the tasks of a range on the queues of the scheduler, and the algorithms with
--   their tasks in the order in which the workers run them.
-- - Threads: ithread, stop_token and stop_token_owner of include/daw/fs/impl/ithread.h; Invariant
--   and Life have what holds at each step, and Ends is about join and the destructor.
-- - TaskGroup: schedule_task and create_task_group of include/daw/fs/task_scheduler.h, the tasks
--   that notify one latch; Counting is about when it is open.
-- - Futures: Reduction is reduce_futures of include/daw/fs/future_result.h; there a future stands
--   for what it will hold. Member is member_data_t of include/daw/fs/impl/future_result_impl.h,
--   with the shared data of all futures in one store and the tasks that set them in a list.
--   Invariant says who will set each future, Delivery, Delivered, SetValue and Growth are about
--   single updates, Steps, Runs and Forks about whole operations, Reachable about what
--   make_future_result, next, fork on futures that are not set yet, and the tasks lead to. A call
--   of get looks once at the world in which it is made; a caller who is blocked is in Callers and
--   in the model of the latch. Lost has two ways in which a continuation is never run, Chaining
--   next on a future that is set, and Callers the threads in get while a future is set. Adding is
--   about a scheduler that drops or refuses the task of a future, Join is join and future_apply,
--   Handle the ownership of the data by futures, continuations and handles, and Group is about the
--   latch of a future group. VoidMember and VoidErrors are about member_data_t<void>, with
--   src/future_result.cpp.
-- - Streams: Composer is function_composer_t, and Stream is call and call_task, of
--   include/daw/fs/impl/function_stream_impl.h; the package is that of include/daw/fs/package.h.
--   Generator is function_stream and future_generator_t of include/daw/fs/function_stream.h.
-- - FixedArray: include/daw/daw_fixed_array.h, on a heap of blocks where a wrong access is an
--   error. Ownership is about the blocks, and Items about the accessors.
-- - Benchmark: the loops of include/daw/benchmark.h that time a function, over a clock that is a
--   parameter.
--
-- Bounds and fuel: set_value has the number of futures as its fuel, since a continuation only sets
-- futures that were made after its own. reduce_rounds has the number of futures as its fuel, and
-- each round halves that number; a composer or a stream of n functions has n calls, one for each
-- function. The loop of the scheduler over the other queues has the number of queues as its fuel.
-- The loops of a worker and of a task_wrapper have a round for each task and one for the end, so
-- one more than the tasks that wait. Sizes and offsets are natural numbers: a range that exists in
-- memory does not overflow them.
--
-- A task is taken to run without being interrupted by another. The tasks of an algorithm touch
-- disjoint slots, or an atomic, and so what they leave is what some order of whole tasks leaves.
-- The functions that a caller gives to an algorithm are taken to return, and adding a task to
-- succeed; OnScheduler is about queues with room (the wait of the caller of an algorithm is not in
-- it), and Adding about a scheduler that drops or refuses the task. An operation of the scheduler
-- sees no other thread between its steps, but in the loops that wait: there a list of rounds says
-- what the others have done. Reachable takes each call and each task as one step; what happens
-- when next comes within set_value is in Lost. Not modelled: what a thread does between its
-- rounds, the results of a future group, and the benchmarks that average their times as double
-- numbers.
pub mod Algorithms
pub mod Benchmark
pub mod FixedArray
pub mod Futures
pub mod Latch
pub mod MessageQueue
pub mod OnScheduler
pub mod Outcome
pub mod Prelude
pub mod QueueLoops
pub mod Ranges
pub mod Scheduler
pub mod Streams
pub mod TaskGroup
pub mod Tasks
pub mod Threads

-- ===== src/Lib.antt =====
-- KMM, the runtime that runs tasks of a program on the host and on GPUs and moves their buffers
-- between the memories. A program's calls append nodes to a stage of the task graph; a commit hands
-- the stage to the scheduler. A node that executes asks the memory manager for its buffers: a
-- request waits in the access queue of each buffer, then its memory is allocated and a valid copy is
-- brought there. Copies, allocations and kernels run on GPU streams, and the stream manager tells by
-- events when they have completed.
--
-- The files:
--   Prelude: Boolean tests, lists over the native numbers, results and signed integers.
--   Identifiers: MemoryId and the device limit (include/kmm/core/identifiers.hpp).
--   Streams.Event: DeviceEvent, a word of 64 bits (include/kmm/runtime/stream_manager.hpp).
--   Streams.EventSet: DeviceEventSet (src/runtime/stream_manager.cpp), with what a wait for a set
--     means in Readiness and the removal of ready events in Removal.
--   Streams.Manager: DeviceStreamManager (src/runtime/stream_manager.cpp): streams, event pools,
--     record_event, wait_for_event, attach_callback and make_progress. Progress and Record hold the
--     proofs.
--   Memory.Types, Memory.Coherence: the entries of a buffer, and how prepare_access_to_buffer and
--     finalize_access_to_buffer change them (src/runtime/memory_manager.cpp). The commands to the
--     memory system are a log; Keeps, Transfer and Prepare follow the contents of the copies along
--     it, from arbitrary initial contents.
--   Memory.AccessQueue: the queue of requests of a buffer (src/runtime/memory_manager.cpp), with who
--     holds access at the same time in Grants.
--   Memory.Lru: the linked list of a device's unlocked buffers by least recent use
--     (src/runtime/memory_manager.cpp), as linked lists in Links, Writes and Listing, and against the
--     plain list of Usage in Refinement.
--   Allocators.Sync: SyncAllocator (src/runtime/allocators/base.cpp), with its count of bytes in
--     Accounting.
--   Allocators.Caching: CachingAllocator (src/runtime/allocators/caching.cpp), with the agreement of
--     its bins and its list of least recent use in Bins.
--   TaskGraph: the stage and the shared counters (src/runtime/task_graph.cpp), with the order of
--     nodes in Order and barriers in Barrier.
--   Scheduler: the records of tasks, the ready queues and the running tasks
--     (src/runtime/scheduler.cpp). Invariant states what a steady scheduler is; Submit and Progress
--     keep it through the two calls, and Runs follows sequences of calls, with what tasks and streams
--     answer left open in each, and calls that a task's exception leaves.
--   Integers: div_floor and div_ceil at unsigned types, and at signed types in Signed
--     (include/kmm/utils/integer_fun.hpp).
--   Checked: comparisons and conversions between integer types (include/kmm/utils/checked_compare.hpp,
--     include/kmm/utils/checked_math.hpp), with their exactness in Exact.
--   Geometry: ranges and bounds (include/kmm/utils/range.hpp, bounds.hpp, point.hpp and dim.hpp
--     there), as sets of points in Sets.
--   Distribution: the chunks of an array (src/core/distribution.cpp), with the exact counts in
--     Counts and the lookup of a region in Index and Lookup.
--   Memops: the definition of a copy, how it is extended and simplified (src/memops/types.cpp), and
--     the loops on the host (src/memops/host_copy.cpp). Pairs says which byte goes where; Merge,
--     Steps, Simplify and Execute follow the simplification, Extend and AddDimension the extension.
--   Planner: the descriptor of an array (src/planner/array_descriptor.cpp), the planners of reads and
--     writes in Read and Write (src/planner/read_planner.cpp, write_planner.cpp there), and launches
--     with one array in Launch (include/kmm/api/parallel_submit.hpp). Follows is the order of events
--     in the task graph; Reads, Groups, Writes and Waiting lead to Runs, where Races is the order of
--     accesses that a run of launches has, and Service ties each access to the node that makes it.
--   Registry: the buffers by id and the requests of a task (src/runtime/buffer_registry.cpp) over an
--     interface of the memory manager, with the requests made and given back counted in Held.
--   Tasks: what tasks are polled with, and the host task as a state machine in Host
--     (src/runtime/task.cpp). Release follows its requests through a poll.
--   Examples: the theorems at concrete inputs.
--
-- Bounds: an event's index is below 2 ^ 56 and its stream below 256; sizes and identifiers wrap at
-- 2 ^ 64 where the source's types do; there are 8 devices. Loops run over lists or over the number
-- of devices by structural recursion. The scheduler's loop that starts tasks has fuel, one more than
-- the number of records, which is enough because every record is started at most once.
--
-- Arguments of the model stand for the GPU driver (the answer to an event query, a new handle), for
-- the virtual allocation of an allocator, for the memory system's answers and for what a task does
-- when it is polled, an exception included. In Registry and Tasks, the memory manager and the
-- executors of tasks are interfaces, of which nothing is relied on: the theorems there are about the
-- calls that the memory manager is given.
--
-- Not modelled: the block and device allocators, the memory manager's allocation queue, the choice
-- to evict and its requests' states, the planner of reductions, device and prefetch tasks, launches
-- with several arrays, the domains, conversions of floating point numbers, kernels, threads and the templates of the user interface.
-- Waits that block have no state of their own. Signed arithmetic that overflows is undefined in the source; the index
-- geometry takes its values as mathematical integers.
pub mod Allocators
pub mod Checked
pub mod Distribution
pub mod Examples
pub mod Geometry
pub mod Identifiers
pub mod Integers
pub mod Memops
pub mod Memory
pub mod Planner
pub mod Prelude
pub mod Registry
pub mod Scheduler
pub mod Streams
pub mod TaskGraph
pub mod Tasks

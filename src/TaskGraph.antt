-- ===== src/TaskGraph.antt =====
-- src/runtime/task_graph.cpp: the stage on which one call builds its commands, and the counters
-- that the stages share. TaskGraph and the TaskGraphState that it points to are one record here.
pub mod Order
pub mod Barrier
use kmm.Prelude.{
  ℕ, zero, suc, ◌+◌, ◌%◌, ◌^◌, Bool, true, false, ◌&&◌, List, [], ◌∷◌, ◌++◌, ◌==◌, if◌then◌else◌,
}
use kmm.Identifiers.{MemoryId}
use kmm.Memory.Types.{AccessMode}

pub record BufferRequirement : Type 0 where
  pub buffer_id : ℕ
  pub memory_id : MemoryId
  pub access_mode : AccessMode

pub record BufferLayout : Type 0 where
  pub size_in_bytes : ℕ
  pub alignment : ℕ

-- Tasks, resources and the definitions of copies, reductions and fills go by number.
pub data Command : Type 0 where
  command_empty : Command
  command_buffer_delete : (id : ℕ) → Command
  command_prefetch : (buffer_id : ℕ) (memory_id : MemoryId) → Command
  command_copy :
      (src_buffer : ℕ) (src_memory : MemoryId) (dst_buffer : ℕ) (dst_memory : MemoryId)
      (definition : ℕ)
      → Command
  command_execute : (processor_id task : ℕ) (buffers : List BufferRequirement) → Command
  command_reduction : (src_buffer dst_buffer : ℕ) (memory_id : MemoryId) (definition : ℕ) → Command
  command_fill : (dst_buffer : ℕ) (memory_id : MemoryId) (definition : ℕ) → Command

pub record Node : Type 0 where
  pub id : ℕ
  pub command : Command
  pub dependencies : List ℕ

pub record TaskGraph : Type 0 where
  pub next_buffer_id : ℕ
  pub next_event_id : ℕ
  pub last_barrier_id : ℕ
  pub events_since_last_barrier : List ℕ
  pub staged_nodes : List Node
  pub staged_buffers : List (ℕ × BufferLayout)

-- A new stage on counters that stand where an earlier one left them.
abbrev pub new_stage : ℕ → ℕ → ℕ → TaskGraph
new_stage next_buffer next_event last_barrier = record {
  next_buffer_id = next_buffer;
  next_event_id = next_event;
  last_barrier_id = last_barrier;
  events_since_last_barrier = [];
  staged_nodes = [];
  staged_buffers = [];
}

-- The initial TaskGraphState.
abbrev pub initial : TaskGraph
initial = new_stage 1 1 1

abbrev pub next_id : ℕ → ℕ
next_id id = (id + 1) % 2 ^ 64

unfoldable pub insert_node : Command → List ℕ → TaskGraph → ℕ × TaskGraph
insert_node command deps g =
    let id = g.next_event_id in
    (
      id,
      record g {
        next_event_id = next_id id;
        events_since_last_barrier = g.events_since_last_barrier ++ id ∷ [];
        staged_nodes =
            g.staged_nodes ++ record { id = id; command = command; dependencies = deps } ∷ [];
      },
    )

-- std::equal of the list without its head and the list: neighbours are equal.
pub all_equal_to : ℕ → List ℕ → Bool
all_equal_to d [] = true
all_equal_to d (e ∷ es) = e == d && all_equal_to e es

unfoldable pub join_events : List ℕ → TaskGraph → ℕ × TaskGraph
unfolding all_equal_to insert_node
join_events [] g = (0, g)
join_events (d ∷ ds) g = if all_equal_to d ds then (d, g) else insert_node command_empty (d ∷ ds) g

unfoldable pub create_buffer : BufferLayout → TaskGraph → ℕ × TaskGraph
create_buffer layout g =
    let id = g.next_buffer_id in
    (
      id,
      record g {
        next_buffer_id = next_id id;
        staged_buffers = g.staged_buffers ++ (id, layout) ∷ [];
      },
    )

unfoldable pub delete_buffer : ℕ → List ℕ → TaskGraph → ℕ × TaskGraph
unfolding insert_node
delete_buffer id deps g = insert_node (command_buffer_delete id) deps g

unfoldable pub insert_compute_task :
    ℕ → ℕ → List BufferRequirement → List ℕ → TaskGraph → ℕ × TaskGraph
unfolding insert_node
insert_compute_task process_id task buffers deps g =
    insert_node (command_execute process_id task buffers) deps g

-- The list of events is moved out, so a barrier that adds a node begins a new list with that node.
unfoldable pub insert_barrier : TaskGraph → ℕ × TaskGraph
unfolding join_events
insert_barrier g = elim g.events_since_last_barrier [
  | [] ↦ (g.last_barrier_id, g)
  | e ∷ es ↦
      join_events ((e ∷ es) ++ g.last_barrier_id ∷ []) (record g { events_since_last_barrier = [] })
]

-- TaskGraphState::commit: the barrier's event, the staged nodes and buffers, and the counters.
unfoldable pub commit : TaskGraph → ℕ × List Node × List (ℕ × BufferLayout) × TaskGraph
unfolding insert_barrier
commit g =
    let (id, g') = insert_barrier g in
    (
      id,
      g'.staged_nodes,
      g'.staged_buffers,
      record g' { last_barrier_id = id; staged_nodes = []; staged_buffers = [] },
    )

-- ===== src/Examples/Others.antt =====
-- Examples for src/runtime/task_graph.cpp and src/runtime/allocators/base.cpp.
use kmm.Prelude.{ℕ, ◌≡◌, ◌⊎◌, refl, inr, false, Option, some, List, [], ◌∷◌, ◌++◌, arith, All}
use kmm.Prelude.Results.{ok}
use kmm.TaskGraph.{command_empty, Node, TaskGraph, commit}
use kmm.TaskGraph.Order.{IsSound}
use kmm.TaskGraph.Barrier.{commit_lem}
use kmm.Allocators.Sync.{SyncAllocator, Operation, allocated, allocate_async}
use kmm.Allocators.Sync.Accounting.{IsBalanced, Ends, allocate_async-Ends}

-- A stage with one node.
abbrev staged : TaskGraph
staged = record {
  next_buffer_id = 1;
  next_event_id = 2;
  last_barrier_id = 1;
  events_since_last_barrier = 1 ∷ [];
  staged_nodes = record { id = 1; command = command_empty; dependencies = [] } ∷ [];
  staged_buffers = [];
}

staged-IsSound : IsSound staged
staged-IsSound = record {
  ordered = (omega arith, tt, tt);
  used = (omega arith, tt);
  events = (omega arith, tt);
  barrier = inr (omega arith);
  barrier_le = omega arith;
  positive = omega arith;
}

commit_lem_example :
    (All (λ d. d ≡ (commit staged).0) (1 ∷ 1 ∷ []) × ((commit staged).1 ≡ staged.staged_nodes)
      ⊎ ((n : Node) × ((commit staged).1 ≡ staged.staged_nodes ++ n ∷ [])
          × (n.id ≡ (commit staged).0)
          × (n.dependencies ≡ 1 ∷ 1 ∷ [])))
    × ((commit staged).3.last_barrier_id ≡ (commit staged).0)
    × ((commit staged).3.staged_nodes ≡ [])
    × IsSound (commit staged).3
commit_lem_example = commit_lem staged 1 [] staged-IsSound refl (omega arith)

-- One block of 40 bytes, of which the client holds 30 and 10 wait for event 5.
abbrev in_use : SyncAllocator
in_use = record {
  pending_deallocs = record { address = 96; nbytes = 10; dependencies = 5 ∷ [] } ∷ [];
  bytes_limit = 64;
  bytes_in_use = 40;
  log = allocated 64 30 ∷ allocated 96 10 ∷ [];
}

in_use-IsBalanced : IsBalanced 30 in_use.pending_deallocs in_use
in_use-IsBalanced = record {
  counted = refl;
  covered = refl;
  limited = omega arith;
  word = omega arith;
}

abbrev give : List Operation → ℕ → Option ℕ
give log n = some 128

allocate_async-Ends_example :
    (r : Option ℕ × SyncAllocator) × (allocate_async give (λ e. false) 30 in_use ≡ ok r)
    × Ends give 30 30 r
allocate_async-Ends_example =
    allocate_async-Ends give (λ e. false) 30 30 in_use (omega arith) in_use-IsBalanced

-- ===== src/Examples/Tasks.antt =====
-- Examples for src/runtime/task.cpp and buffer_registry.cpp.
use kmm.Prelude.{
  ℕ, ◌+◌, refl, true, false, some, none, List, [], ◌∷◌, arith, length, ◌==◌, if◌then◌else◌,
}
use kmm.Prelude.Results.{ok}
use kmm.Identifiers.{host}
use kmm.Memory.Types.{read_write}
use kmm.TaskGraph.{BufferRequirement}
use kmm.Registry.{MemoryManager, create_requests}
use kmm.Registry.Held.{
  occurrences, ManagerCall, made_request, observed, Created, create_requests-Created,
}
use kmm.Tasks.{create_buffers, Executor, World, Services}
use kmm.Tasks.Host.{HostTask, poll}
use kmm.Tasks.Release.{watched, Polled, poll-Polled}

remove_one : ℕ → List ℕ → List ℕ
remove_one r [] = []
remove_one r (x ∷ xs) = let rest = remove_one r xs in if x == r then xs else x ∷ rest

-- A memory manager that keeps the list of its requests.
abbrev lists : MemoryManager (List ℕ)
lists = record {
  create_buffer = λ layout id m. (m, ok id);
  delete_buffer = λ b m. (m, ok tt);
  create_request = λ b memory_id mode m. (length m ∷ m, ok (length m));
  poll_request = λ r deps m. (m, deps, ok true);
  release_request = λ r event m. remove_one r m;
  get_accessor = λ r m. ok r;
}

abbrev threads : Executor ℕ
threads = record {
  is_ready = λ deps x. (x, deps, true);
  submit_host = λ task accessors x. (x + 1, ok x);
  wait_is_timeout = λ future x. (x, ok false);
}

abbrev services : Services (List ℕ) ℕ
services = record { memory = lists; executors = threads; make_poison_exception = λ t e. t }

abbrev requirement : BufferRequirement
requirement = record { buffer_id = 3; memory_id = host; access_mode = read_write }

abbrev task : HostTask
task = record {
  id = 9;
  status = create_buffers;
  buffers = requirement ∷ [];
  requests = [];
  dependencies = [];
  future = 0;
}

-- Another task has made the request 4.
abbrev manager_state : List ℕ × List ManagerCall
manager_state = (4 ∷ [], made_request 4 ∷ [])

abbrev world : World (List ℕ × List ManagerCall) ℕ
world = record {
  manager = manager_state;
  buffers = (3, record { buffer = some 5; poison_reason_opt = none }) ∷ [];
  executor = 0;
}

poll-Polled_example :
    Polled services (λ q. occurrences q (4 ∷ [])) (poll (watched services) task world)
poll-Polled_example =
    poll-Polled services (λ q. occurrences q (4 ∷ [])) task world (λ _. refl, λ q. omega arith)
      (omega arith, omega arith)

-- The second requirement is for a buffer that is missing.
create_requests-Created_example :
    Created lists
      (λ q. occurrences q (4 ∷ []))
      (create_requests
        (observed lists)
        (requirement ∷ record requirement { buffer_id = 8 } ∷ [])
        world.buffers
        manager_state)
create_requests-Created_example =
    create_requests-Created lists (requirement ∷ record requirement { buffer_id = 8 } ∷ [])
      world.buffers manager_state (λ q. occurrences q (4 ∷ [])) (λ q. omega arith)

-- ===== src/Tasks.antt =====
-- src/runtime/task.cpp: the tasks that the scheduler polls, as state machines. A task on the host
-- creates the requests for its buffers, polls them, waits for events, runs, and releases the
-- requests; an error on the way poisons the buffers that it would have written.
pub mod Host
pub mod Release
use kmm.Prelude.{ℕ, Bool, List}
use kmm.Prelude.Results.{Error, Result}
use kmm.Streams.Event.{DeviceEvent}
use kmm.Streams.EventSet.{DeviceEventSet}
use kmm.Registry.{MemoryManager, Buffers}

-- HostTask::Status.
pub data Status : Type 0 where
  init create_buffers polling_buffers polling_dependencies running completing completed : Status

-- What the tasks call beside the buffer registry, on its state `E`: the streams and the threads that
-- run host tasks. Tasks and futures go by number.
pub record Executor (E : Type 0) : Type 0 where
  pub is_ready : DeviceEventSet → E → E × DeviceEventSet × Bool
  pub submit_host : (task : ℕ) (accessors : List ℕ) → E → E × Result ℕ
  pub wait_is_timeout : (future : ℕ) → E → E × Result Bool

-- The state that a poll changes outside the task.
pub record World (M E : Type 0) : Type 0 where
  pub manager : M
  pub buffers : Buffers
  pub executor : E

-- The services that a task is polled with, and the number of the PoisonException made for an error
-- of a task.
pub record Services (M E : Type 0) : Type 0 where
  pub memory : MemoryManager M
  pub executors : Executor E
  pub make_poison_exception : ℕ → Error → ℕ

-- What a stage of a poll leads to: the poll returns Poll::Pending, or it goes on.
pub data Step (T W : Type 0) : Type 0 where
  pending next : (task : T) (world : W) → Step T W

infixl 5 ◌and_then◌
abbrev pub ◌and_then◌ : {T W : Type 0} → Step T W → (T → W → Step T W) → Step T W
s and_then rest = elim s [ pending t w ↦ pending t w | next t w ↦ rest t w ]

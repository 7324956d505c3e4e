-- ===== src/Scheduler.antt =====
-- src/runtime/scheduler.cpp: the records of tasks, the ready queues and the list of running tasks.
-- The shared pointers to records are positions in the store `records`, which only grows; the map
-- m_tasks and the links between records hold such positions. What a task does when it is
-- polled, an exception included, and which device events are ready, are arguments: within one
-- make_progress they answer from the calls made so far, and each make_progress has its own.
pub mod Queue
pub mod Counting
pub mod Invariant
pub mod Release
pub mod Advance
pub mod Polling
pub mod Progress
pub mod Gather
pub mod Submit
pub mod Runs
mod Examples
use kmm.Prelude.{
  ℕ, zero, suc, ◌+◌, ◌-◌, ◌%◌, ◌^◌, Bool, true, false, not, ◌&&◌, Option, none, some, List, [], ◌∷◌,
  ◌++◌, ltb, leb, ◌==◌, if◌then◌else◌, length, get_elem?, set,
}
use kmm.Prelude.Results.{Result, ok, err, out_of_range, ◌>>=◌, ◌>>◌, kmm_assert}
use kmm.Streams.Event.{DeviceEvent}
use kmm.Streams.EventSet.{DeviceEventSet, insert_all, remove_ready_trailing}

pub data Status : Type 0 where
  init awaiting_dependencies ready_to_start running waiting_for_completion completed : Status

-- The classes of tasks that choose a queue.
pub data Task : Type 0 where
  join_task host_task other_task : Task
  device_task : (device : ℕ) → Task

pub record TaskRecord : Type 0 where
  pub event_id : ℕ
  pub status : Status
  pub queue : ℕ
  pub predecessors : List ℕ
  pub predecessors_pending : ℕ
  pub input_events : DeviceEventSet
  pub successors : List ℕ
  pub output_events : DeviceEventSet
  pub task : Option Task

-- The slots of the priority queue, an event id and a record each, stand by event id, smallest first.
pub record SchedulerQueue : Type 0 where
  pub max_concurrent_jobs : ℕ
  pub num_jobs_active : ℕ
  pub tasks : List (ℕ × ℕ)

pub data TaskCall : Type 0 where
  started : (p : ℕ) (input_events : DeviceEventSet) → TaskCall
  polled : (p : ℕ) → TaskCall
  asked : (p : ℕ) → TaskCall

-- `log` holds the calls of tasks and the questions to the stream manager about the events of a
-- record (`asked`), newest first.
pub record Scheduler : Type 0 where
  pub records : ℕ → TaskRecord
  pub num_records : ℕ
  pub ready_queues : List SchedulerQueue
  pub tasks : List (ℕ × ℕ)
  pub running_tasks : List ℕ
  pub debug_mode : Bool
  pub log : List TaskCall

abbrev pub update : (ℕ → TaskRecord) → ℕ → TaskRecord → ℕ → TaskRecord
update f p t q = if p == q then t else f q

-- size_t minus one.
abbrev pub decrement : ℕ → ℕ
decrement n = (n + (2 ^ 64 - 1)) % 2 ^ 64

abbrev pub is_awaiting : Status → Bool
is_awaiting awaiting_dependencies = true
is_awaiting _ = false

abbrev pub is_ready_to_start : Status → Bool
is_ready_to_start ready_to_start = true
is_ready_to_start _ = false

abbrev pub is_running : Status → Bool
is_running running = true
is_running _ = false

abbrev pub is_waiting : Status → Bool
is_waiting waiting_for_completion = true
is_waiting _ = false

abbrev pub has_completed : Status → Bool
has_completed completed = true
has_completed _ = false

-- SchedulerQueue::push_job.
pub push_slot : ℕ → ℕ → List (ℕ × ℕ) → List (ℕ × ℕ)
push_slot id p [] = (id, p) ∷ []
push_slot id p ((j, q) ∷ rest) =
    if ltb id j then (id, p) ∷ (j, q) ∷ rest else (j, q) ∷ push_slot id p rest

abbrev pub push_job : ℕ → ℕ → SchedulerQueue → SchedulerQueue
push_job id p q = record q { tasks = push_slot id p q.tasks }

pub pop_job : SchedulerQueue → Option (ℕ × SchedulerQueue)
pop_job q = if leb q.max_concurrent_jobs q.num_jobs_active then none else elim q.tasks [
  | [] ↦ none
  | slot ∷ rest ↦ some (slot.1, record q { num_jobs_active = q.num_jobs_active + 1; tasks = rest })
]

abbrev pub completed_job : SchedulerQueue → SchedulerQueue
completed_job q = record q { num_jobs_active = decrement q.num_jobs_active }

-- A call of a method of the queue that a record points to.
pub adjust : ℕ → (SchedulerQueue → SchedulerQueue) → List SchedulerQueue → List SchedulerQueue
adjust i f [] = []
adjust zero f (q ∷ qs) = f q ∷ qs
adjust (suc i) f (q ∷ qs) = q ∷ adjust i f qs

-- The constructor's queues: 3 of their own, and one for each device with at most 5 jobs.
abbrev pub default_queue : SchedulerQueue
default_queue = record { max_concurrent_jobs = 2 ^ 64 - 1; num_jobs_active = 0; tasks = [] }

pub device_queues : ℕ → List SchedulerQueue
device_queues zero = []
device_queues (suc n) = record default_queue { max_concurrent_jobs = 5 } ∷ device_queues n

abbrev empty_record : TaskRecord
empty_record = record {
  event_id = 0;
  status = init;
  queue = 0;
  predecessors = [];
  predecessors_pending = 0;
  input_events = [];
  successors = [];
  output_events = [];
  task = none;
}

unfoldable pub new_scheduler : ℕ → Bool → Scheduler
unfolding device_queues
new_scheduler num_devices debug_mode = record {
  records = λ p. empty_record;
  num_records = 0;
  ready_queues = default_queue ∷ default_queue ∷ default_queue ∷ device_queues num_devices;
  tasks = [];
  running_tasks = [];
  debug_mode = debug_mode;
  log = [];
}

unfoldable pub determine_queue_id : Task → ℕ
determine_queue_id join_task = 0
determine_queue_id other_task = 1
determine_queue_id host_task = 2
determine_queue_id (device_task d) = 3 + d

pub enqueue_if_ready : ℕ → Scheduler → Scheduler
unfolding adjust push_slot
enqueue_if_ready p s =
    let t = s.records p in
    if is_awaiting t.status && t.predecessors_pending == 0
    then record s {
      records = update s.records p (record t { status = ready_to_start });
      ready_queues = adjust t.queue (push_job t.event_id p) s.ready_queues;
    }
    else s

unfoldable pub is_idle : Scheduler → Bool
is_idle s = elim s.running_tasks [
  | p ∷ rest ↦ false
  | [] ↦ elim s.tasks [ [] ↦ true | t ∷ rest ↦ false ]
]

-- The first queue that gives a task.
pub dequeue_ready_task : List SchedulerQueue → Option (ℕ × List SchedulerQueue)
unfolding pop_job
dequeue_ready_task [] = none
dequeue_ready_task (q ∷ qs) = elim (pop_job q) [
  | some (p, q') ↦ some (p, q' ∷ qs)
  | none ↦ elim (dequeue_ready_task qs) [ none ↦ none | some (p, qs') ↦ some (p, q ∷ qs') ]
]

-- Looking up an event id in m_tasks.
pub find_task : ℕ → List (ℕ × ℕ) → Option ℕ
find_task id [] = none
find_task id ((j, p) ∷ rest) = if j == id then some p else find_task id rest

pub erase_task : ℕ → List (ℕ × ℕ) → List (ℕ × ℕ)
erase_task id [] = []
erase_task id ((j, p) ∷ rest) = if j == id then erase_task id rest else (j, p) ∷ erase_task id rest

-- The loop of `submit` over the dependencies: `p` is the new record, `num_pending` and `events` what
-- has been gathered for it.
pub gather :
    ℕ
    → List ℕ
    → ℕ
    → DeviceEventSet
    → (ℕ → TaskRecord)
    → List (ℕ × ℕ)
    → ℕ × DeviceEventSet × (ℕ → TaskRecord)
unfolding find_task insert_all
gather p [] num_pending events records tasks = (num_pending, events, records)
gather p (dep ∷ deps) num_pending events records tasks = elim (find_task dep tasks) [
  | none ↦ gather p deps num_pending events records tasks
  | some q ↦
      let t = records q in
      let linked = update records q (record t { successors = t.successors ++ p ∷ [] }) in
      elim (is_waiting t.status) [
        | true ↦ gather p deps num_pending (insert_all t.output_events events) linked tasks
        | false ↦ gather p deps ((num_pending + 1) % 2 ^ 64) events linked tasks
      ]
]

-- m_tasks.emplace leaves an event id alone that is there already.
pub emplace_task : ℕ → ℕ → List (ℕ × ℕ) → List (ℕ × ℕ)
unfolding find_task
emplace_task id p tasks = elim (find_task id tasks) [ none ↦ (id, p) ∷ tasks | some q ↦ tasks ]

-- A queue number out of range is undefined in the source, and an error here.
unfoldable pub submit : ℕ → Task → List ℕ → Scheduler → Result Scheduler
unfolding gather determine_queue_id enqueue_if_ready emplace_task
submit event_id task dependencies s =
    let p = s.num_records in
    let queue = determine_queue_id task in
    let (num_pending, events, linked) = gather p dependencies 0 [] s.records s.tasks in
    elim (ltb queue (length s.ready_queues)) [
      | false ↦ err out_of_range
      | true ↦
          let s1 = enqueue_if_ready p (record s {
            records = update linked p (record {
              event_id = event_id;
              status = awaiting_dependencies;
              queue = queue;
              predecessors = dependencies;
              predecessors_pending = num_pending;
              input_events = events;
              successors = [];
              output_events = [];
              task = some task;
            });
            num_records = p + 1;
          }) in
          ok (record s1 { tasks = emplace_task event_id p s1.tasks })
    ]

unfoldable pub is_completed : ℕ → Scheduler → Bool
unfolding find_task
is_completed id s = elim (find_task id s.tasks) [ none ↦ true | some p ↦ false ]

-- The loop over the successors of a task that has been scheduled with `output_events`.
pub release : DeviceEventSet → List ℕ → Scheduler → Scheduler
unfolding enqueue_if_ready
release events [] s = s
release events (x ∷ xs) s =
    let t = s.records x in
    release events xs (
      enqueue_if_ready x (record s {
        records = update s.records x (record t {
          input_events = insert_all events t.input_events;
          predecessors_pending = decrement t.predecessors_pending;
        });
      }))

-- The first part of poll_completion.
pub start_if_ready : ℕ → Scheduler → Scheduler
start_if_ready p s =
    let t = s.records p in
    if is_ready_to_start t.status
    then record s {
      records = update s.records p (record t { status = running });
      log = started p t.input_events ∷ s.log;
    }
    else s

-- What a call of Task::poll comes to. An exception leaves the output events as the task has set them.
pub data Poll : Type 0 where
  poll_pending poll_ready poll_threw : Poll

abbrev pub is_poll_ready : Poll → Bool
is_poll_ready poll_ready = true
is_poll_ready _ = false

-- No part of the source here catches an exception, so make_progress leaves by it.
module _ (poll : List TaskCall → ℕ → Poll × DeviceEventSet)
    (ready : List TaskCall → DeviceEvent → Bool) where
  -- The second part. poll_completion goes on with `poll_ready`, and returns or throws with the others.
  pub schedule_if_running : ℕ → Scheduler → Poll × Scheduler
  unfolding release
  schedule_if_running p s =
      let t = s.records p in
      let log = polled p ∷ s.log in
      let (scheduled, events) = poll log p in
      let polled_record = record t { output_events = events } in
      elim (is_running t.status) [
        | false ↦ (poll_ready, s)
        | true ↦ elim (is_poll_ready scheduled) [
          | false ↦ (scheduled, record s { records = update s.records p polled_record; log = log })
          | true ↦ (
            poll_ready,
            release events t.successors (record s {
              records =
                  update s.records p (record polled_record { status = waiting_for_completion });
              log = log;
            }),
          )
        ]
      ]

  -- The third part. The events that the stream manager finds ready at the end of the set are dropped.
  pub complete_if_waiting : ℕ → Scheduler → Bool × Scheduler
  unfolding erase_task adjust remove_ready_trailing
  complete_if_waiting p s =
      let t = s.records p in
      let log = asked p ∷ s.log in
      let (events, all_ready) = remove_ready_trailing (ready log) t.output_events in
      let left = record t { output_events = events } in
      elim (is_waiting t.status) [
        | false ↦ (true, s)
        | true ↦ elim all_ready [
          | false ↦ (false, record s { records = update s.records p left; log = log })
          | true ↦ (
            true,
            record s {
              records = update s.records p (record left { status = completed; task = none });
              tasks = erase_task t.event_id s.tasks;
              ready_queues = adjust t.queue completed_job s.ready_queues;
              log = log;
            },
          )
        ]
      ]

  -- These two parts, and the assertion after them.
  pub go_on : ℕ → Scheduler → Result (Poll × Scheduler)
  unfolding schedule_if_running complete_if_waiting
  go_on p s =
      let a = schedule_if_running p s in
      let b = complete_if_waiting p a.1 in
      elim (is_poll_ready a.0) [
        | false ↦ ok a
        | true ↦ elim b.0 [
          | false ↦ ok (poll_pending, b.1)
          | true ↦ kmm_assert (has_completed (b.1.records p).status) >> ok (poll_ready, b.1)
        ]
      ]

  pub poll_completion : ℕ → Scheduler → Result (Poll × Scheduler)
  unfolding start_if_ready go_on
  poll_completion p s = go_on p (start_if_ready p s)

  -- The loop of make_progress over the running tasks; `later` tells whether one before stays. An
  -- exception, the flag false, leaves the rest of the list as it is.
  pub poll_running : Bool → List ℕ → Scheduler → Result (Bool × List ℕ × Scheduler)
  unfolding poll_completion
  poll_running later [] s = ok (true, [], s)
  poll_running later (p ∷ ps) s = elim (s.debug_mode && later) [
    | true ↦ poll_running true ps s >>= λ r. ok (r.0, p ∷ r.1, r.2)
    | false ↦ poll_completion p s >>= λ r. elim r.0 [
      | poll_ready ↦ poll_running later ps r.1
      | poll_pending ↦ poll_running true ps r.1 >>= λ k. ok (k.0, p ∷ k.1, k.2)
      | poll_threw ↦ ok (false, p ∷ ps, r.1)
    ]
  ]

  -- The flag is false when an exception leaves it. The task is in no list then.
  pub start_task : ℕ → Scheduler → Result (Bool × Scheduler)
  unfolding poll_completion
  start_task p s =
      kmm_assert (is_ready_to_start (s.records p).status) >> poll_completion p s >>= λ r. elim r.0 [
        | poll_ready ↦ ok (true, r.1)
        | poll_pending ↦ ok (true, record r.1 { running_tasks = r.1.running_tasks ++ p ∷ [] })
        | poll_threw ↦ ok (false, r.1)
      ]

  -- The loop of make_progress that starts tasks, on fuel.
  pub start_all : ℕ → Scheduler → Result (Bool × Scheduler)
  unfolding dequeue_ready_task start_task
  start_all zero s = ok (true, s)
  start_all (suc fuel) s = elim (dequeue_ready_task s.ready_queues) [
    | none ↦ ok (true, s)
    | some (p, queues) ↦ start_task p (record s { ready_queues = queues }) >>= λ r. elim r.0 [
      | true ↦ start_all fuel r.1
      | false ↦ ok (false, r.1)
    ]
  ]

  -- The flag tells whether the call returns; false is an exception of a task. Every record is started
  -- at most once, so their number is fuel enough.
  unfoldable pub make_progress : Scheduler → Result (Bool × Scheduler)
  unfolding poll_running start_all
  make_progress s = poll_running false s.running_tasks s >>= λ r. elim r.0 [
    | true ↦ start_all (s.num_records + 1) (record r.2 { running_tasks = r.1 })
    | false ↦ ok (false, record r.2 { running_tasks = r.1 })
  ]

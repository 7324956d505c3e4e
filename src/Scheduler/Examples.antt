-- ===== src/Scheduler/Examples.antt =====
-- The scheduler at concrete inputs: two tasks on the host, the second after the first.
use kmm.Prelude.{
  ℕ, ◌+◌, ◌<◌, ◌≡◌, refl, Bool, true, false, some, List, [], ◌∷◌, arith, length, get_elem?,
}
use kmm.Prelude.Results.{Result, ok, err}
use kmm.Streams.Event.{DeviceEvent}
use kmm.Streams.EventSet.{DeviceEventSet}
use kmm.Scheduler.{
  Poll, poll_ready, poll_threw, running, ready_to_start, TaskRecord, host_task, device_task,
  TaskCall, SchedulerQueue, Scheduler, is_awaiting, find_task, determine_queue_id, new_scheduler,
  submit, make_progress,
}
use kmm.Scheduler.Counting.{sum_below, count, count_slots, is_scheduled}
use kmm.Scheduler.Progress.{IsSteady, Leaves, make_progress-IsSteady}
use kmm.Scheduler.Submit.{submit-IsSteady, submit_links}
use kmm.Scheduler.Runs.{
  Reachable, constructed, after, submits, progresses, Reachable-IsSteady, IsFull, ready_at_limit,
  started_after,
}

-- A task is scheduled at once, or throws.
abbrev at_once : List TaskCall → ℕ → Poll × DeviceEventSet
at_once log p = (poll_ready, [])

abbrev throwing : List TaskCall → ℕ → Poll × DeviceEventSet
throwing log p = (poll_threw, [])

abbrev all_ready : List TaskCall → DeviceEvent → Bool
all_ready log e = true

abbrev value : Result Scheduler → Scheduler
value (ok s) = s
value (err e) = new_scheduler 1 false

abbrev outcome : Result (Bool × Scheduler) → Scheduler
outcome (ok r) = r.1
outcome (err e) = new_scheduler 1 false

abbrev empty : Scheduler
empty = new_scheduler 1 false

first : Scheduler
first = value (submit 1 host_task [] empty)

second : Scheduler
second = value (submit 2 host_task (1 ∷ []) first)

worked : Scheduler
worked = outcome (make_progress at_once all_ready second)

submits_first : submit 1 host_task [] empty ≡ ok first
unfolding first submit new_scheduler
submits_first = refl

first-Reachable : Reachable first
unfolding new_scheduler determine_queue_id
first-Reachable =
    after (constructed 1 false refl)
      (submits 1 host_task [] (omega arith) (omega arith) submits_first)

first-IsSteady : IsSteady first
first-IsSteady = Reachable-IsSteady first-Reachable

host_queue : determine_queue_id host_task < length first.ready_queues
unfolding first submit new_scheduler
host_queue = omega arith

submits_second : submit 2 host_task (1 ∷ []) first ≡ ok second
unfolding second first submit new_scheduler
submits_second = refl

second-Reachable : Reachable second
second-Reachable =
    after first-Reachable (submits 2 host_task (1 ∷ []) host_queue (omega arith) submits_second)

progresses_second : make_progress at_once all_ready second ≡ ok (true, worked)
unfolding worked make_progress second first submit new_scheduler
progresses_second = refl

worked-Reachable : Reachable worked
worked-Reachable = after second-Reachable (progresses at_once all_ready true progresses_second)

submit-IsSteady_example :
    (t : Scheduler) × (submit 2 host_task (1 ∷ []) first ≡ ok t)
    × IsSteady t
    × (t.num_records ≡ first.num_records + 1)
submit-IsSteady_example =
    submit-IsSteady 2 host_task (1 ∷ []) first first-IsSteady host_queue (omega arith)

known_first : find_task 1 first.tasks ≡ some 0
unfolding first submit new_scheduler
known_first = refl

submit_links_example :
    (t : Scheduler) × (submit 2 host_task (1 ∷ []) first ≡ ok t)
    × (0 < count first.num_records (t.records 0).successors)
submit_links_example =
    submit_links 2 host_task [] 1 [] first 0 first-IsSteady host_queue (omega arith) known_first

make_progress-IsSteady_example :
    (r : Bool × Scheduler) × (make_progress at_once all_ready second ≡ ok r)
    × Leaves at_once all_ready r
make_progress-IsSteady_example =
    make_progress-IsSteady at_once all_ready second (Reachable-IsSteady second-Reachable)

-- The first task throws when it is started, and the next call starts no task again.
broken : Scheduler
broken = outcome (make_progress throwing all_ready second)

throws_second : make_progress throwing all_ready second ≡ ok (false, broken)
unfolding broken make_progress second first submit new_scheduler
throws_second = refl

broken_status : ((broken.records 0).status ≡ running) × (broken.running_tasks ≡ [])
unfolding broken make_progress second first submit new_scheduler
broken_status = (refl, refl)

broken-Reachable : Reachable broken
broken-Reachable = after second-Reachable (progresses throwing all_ready false throws_second)

Reachable-IsSteady_example : IsSteady broken
Reachable-IsSteady_example = Reachable-IsSteady broken-Reachable

linked_second : 0 < count 1 (worked.records 0).successors
unfolding worked make_progress second first submit new_scheduler
linked_second = omega arith

two_records : 1 < worked.num_records
unfolding worked make_progress second first submit new_scheduler
two_records = omega arith

second_left : is_awaiting (worked.records 1).status ≡ false
unfolding worked make_progress second first submit new_scheduler
second_left = refl

started_after_example : is_scheduled (worked.records 0).status ≡ true
started_after_example =
    started_after 0 1 worked-Reachable (omega (arith, two_records)) two_records linked_second
      second_left

-- One task is ready to start and the queue of its device has five active jobs.
abbrev waiting_record : TaskRecord
waiting_record = record {
  event_id = 7;
  status = ready_to_start;
  queue = 0;
  predecessors = [];
  predecessors_pending = 0;
  input_events = [];
  successors = [];
  output_events = [];
  task = some (device_task 0);
}

abbrev saturated : Scheduler
saturated = record {
  records = λ p. waiting_record;
  num_records = 1;
  ready_queues = record { max_concurrent_jobs = 5; num_jobs_active = 5; tasks = (7, 0) ∷ [] } ∷ [];
  tasks = (7, 0) ∷ [];
  running_tasks = [];
  debug_mode = false;
  log = [];
}

saturated-IsSteady : IsSteady saturated
unfolding sum_below
saturated-IsSteady = record {
  sound = record {
    pending = λ x lt. refl;
    settled = λ x lt h. refl;
    bounded = λ x lt. omega arith;
    queues = λ x lt. omega arith;
    slots = λ x lt. ground arith;
    known = λ x le. ground arith;
    live = λ x lt. refl;
    links = λ x lt. tt;
    tasks = ((omega arith, refl, refl), tt);
  };
  active = tt;
}

stays_saturated : make_progress at_once all_ready saturated ≡ ok (true, saturated)
unfolding make_progress
stays_saturated = refl

ready_at_limit_example :
    (i : ℕ) × (q : SchedulerQueue) × (get_elem? saturated.ready_queues i ≡ some q)
    × IsFull q
    × (0 < count_slots 0 q.tasks)
ready_at_limit_example =
    ready_at_limit at_once all_ready saturated saturated 0 saturated-IsSteady stays_saturated
      (omega arith) refl

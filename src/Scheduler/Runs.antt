-- ===== src/Scheduler/Runs.antt =====
-- The scheduler from its constructor on: any sequence of calls, and what keeps a task from starting.
use kmm.Prelude.{
  ℕ, zero, suc, ◌^◌, ◌≤◌, ◌<◌, ◌≡◌, refl, sym, ap, subst, ◌⊎◌, inl, inr, Bool, true, false, none,
  some, List, [], ◌∷◌, arith, leb, ◌==◌, length, get_elem?, Bool-cases, Option-cases,
}
use kmm.Prelude.Results.{ok}
use kmm.Streams.Event.{DeviceEvent}
use kmm.Streams.EventSet.{DeviceEventSet}
use kmm.Scheduler.{
  Poll, Task, TaskCall, is_awaiting, SchedulerQueue, Scheduler, is_ready_to_start, pop_job,
  dequeue_ready_task, device_queues, new_scheduler, determine_queue_id, submit, make_progress,
}
use kmm.Scheduler.Counting.{count, is_scheduled, count_slots, queued}
use kmm.Scheduler.Progress.{IsSteady, Leaves, make_progress-IsSteady, steady_order}
use kmm.Scheduler.Submit.{submit-IsSteady}

queued-device_queues : (x n : ℕ) → queued x (device_queues n) ≡ 0
unfolding device_queues
queued-device_queues x zero = refl
queued-device_queues x (suc n) = omega (arith, queued-device_queues x n)

new-IsSteady :
    (num_devices : ℕ) (debug_mode : Bool) → IsSteady (new_scheduler num_devices debug_mode)
unfolding new_scheduler
new-IsSteady num_devices debug_mode = record {
  sound = record {
    pending = λ x lt. absurd (omega arith);
    settled = λ x lt. absurd (omega arith);
    bounded = λ x lt. absurd (omega arith);
    queues = λ x lt. absurd (omega arith);
    slots = λ x lt. absurd (omega arith);
    known = λ x le. omega (arith, queued-device_queues x num_devices);
    live = λ x lt. absurd (omega arith);
    links = λ x lt. absurd (omega arith);
    tasks = tt;
  };
  active = tt;
}

-- One call of a client. What the tasks and the stream manager answer is each make_progress's own, so
-- streams may go on between the calls; one that a task's exception leaves, `returned` false, counts too.
pub data Call (s t : Scheduler) : Type 0 where
  submits :
      (event_id : ℕ) (task : Task) (deps : List ℕ)
      → determine_queue_id task < length s.ready_queues
      → length deps < 2 ^ 64
      → submit event_id task deps s ≡ ok t
      → Call s t
  progresses :
      (poll : List TaskCall → ℕ → Poll × DeviceEventSet)
      (ready : List TaskCall → DeviceEvent → Bool) (returned : Bool)
      → make_progress poll ready s ≡ ok (returned, t)
      → Call s t

-- The schedulers that calls lead to from the constructor.
pub data Reachable : Scheduler → Type 0 where
  constructed :
      (num_devices : ℕ) (debug_mode : Bool) {s : Scheduler}
      → s ≡ new_scheduler num_devices debug_mode
      → Reachable s
  after : {s t : Scheduler} → Reachable s → Call s t → Reachable t

Call-IsSteady : (s t : Scheduler) → Call s t → IsSteady s → IsSteady t
Call-IsSteady s t (submits event_id task deps queue fits e) v =
    let (u, eu, vu, _) = submit-IsSteady event_id task deps s v queue fits in
    let same : u ≡ t = cc (e, eu) in subst IsSteady same vu
Call-IsSteady s t (progresses poll ready returned e) v =
    let (r, er, leaves) = make_progress-IsSteady poll ready s v in
    let same : r ≡ (returned, t) = cc (e, er) in
    subst IsSteady (ap (λ (z : Bool × Scheduler). z.1) same) leaves.steady

-- Every scheduler that calls of submit and make_progress lead to is steady, whatever the tasks and
-- the stream manager answer in each call, and also after calls that a task's exception has left.
pub Reachable-IsSteady : {s : Scheduler} → Reachable s → IsSteady s
Reachable-IsSteady (constructed n d e) = subst IsSteady (sym e) (new-IsSteady n d)
Reachable-IsSteady (after r c) = Call-IsSteady _ _ c (Reachable-IsSteady r)

-- In every scheduler that calls of submit and make_progress lead to, a task that is ready, or has been
-- started, has no predecessor left that has not been scheduled: it is no successor of such a record.
pub started_after :
    {s : Scheduler} (q x : ℕ)
    → Reachable s
    → q < s.num_records
    → x < s.num_records
    → 0 < count x (s.records q).successors
    → is_awaiting (s.records x).status ≡ false
    → is_scheduled (s.records q).status ≡ true
started_after {s} q x run lq lx linked gone =
    steady_order s q x (Reachable-IsSteady run) lq lx linked gone

-- A queue that gives no task is empty or at its limit.
abbrev pub IsFull : SchedulerQueue → Type 0
IsFull q = q.max_concurrent_jobs ≤ q.num_jobs_active

pop_job-none : (q : SchedulerQueue) → pop_job q ≡ none → (q.tasks ≡ []) ⊎ IsFull q
unfolding pop_job
pop_job-none q e = elim (Bool-cases (leb q.max_concurrent_jobs q.num_jobs_active)) [
  | inl full ↦ inr (ground (arith, full))
  | inr room ↦ by_slots q.tasks refl room
]
  where
    by_slots :
        (slots : List (ℕ × ℕ))
        → q.tasks ≡ slots
        → leb q.max_concurrent_jobs q.num_jobs_active ≡ false
        → (q.tasks ≡ []) ⊎ IsFull q
    by_slots [] t room = inl t
    by_slots (slot ∷ rest) t room = absurd (ground (arith, t, room, e))

waits_for_limit :
    (x : ℕ) (qs : List SchedulerQueue)
    → dequeue_ready_task qs ≡ none
    → 0 < queued x qs
    → (i : ℕ) × (q : SchedulerQueue) × (get_elem? qs i ≡ some q)
      × IsFull q
      × (0 < count_slots x q.tasks)
unfolding dequeue_ready_task
waits_for_limit x [] e h = absurd (omega arith)
waits_for_limit x (q ∷ qs) e h = elim (Option-cases (pop_job q)) [
  | inr ((p, r), popped) ↦ absurd (ground (arith, popped, e))
  | inl stuck ↦ elim (Bool-cases (count_slots x q.tasks == 0)) [
    | inr here ↦
        let some_here : 0 < count_slots x q.tasks = ground (arith, here) in
        elim (pop_job-none q stuck) [
          | inl empty ↦ absurd (omega (arith, some_here, ap (count_slots x) empty))
          | inr full ↦ (0, q, refl, full, some_here)
        ]
    | inl there ↦
        let rest : dequeue_ready_task qs ≡ none = ground (arith, stuck, e) in
        let (i, r, at, full, slots) = waits_for_limit x qs rest (ground (arith, there, h)) in
        (suc i, r, at, full, slots)
  ]
]

-- After a `make_progress` on a steady scheduler that returns, a task that is still ready to start
-- stands in a queue that has reached its limit of active jobs.
pub ready_at_limit :
    (poll : List TaskCall → ℕ → Poll × DeviceEventSet) (ready : List TaskCall → DeviceEvent → Bool)
    (s t : Scheduler) (x : ℕ)
    → IsSteady s
    → make_progress poll ready s ≡ ok (true, t)
    → x < t.num_records
    → is_ready_to_start (t.records x).status ≡ true
    → (i : ℕ) × (q : SchedulerQueue) × (get_elem? t.ready_queues i ≡ some q)
      × IsFull q
      × (0 < count_slots x q.tasks)
ready_at_limit poll ready s t x v run lt h =
    let (r, er, leaves) = make_progress-IsSteady poll ready s v in
    let same : r ≡ (true, t) = cc (run, er) in
    let left : Leaves poll ready (true, t) = subst (Leaves poll ready) same leaves in
    waits_for_limit x t.ready_queues (left.done refl)
      (ground (arith, left.steady.sound.slots x lt, h))

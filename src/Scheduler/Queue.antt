-- ===== src/Scheduler/Queue.antt =====
-- The ready queues as a whole: which records stand in them, and which one is given out.
use kmm.Prelude.{
  ℕ, zero, suc, ◌+◌, ◌≤◌, ◌<◌, ◌≡◌, refl, ◌∙◌, ap, inl, inr, some, List, [], ◌∷◌, arith, ltb, leb,
  ◌==◌, if◌then◌else◌, length, Bool-cases, Option-cases,
}
use kmm.Scheduler.{
  SchedulerQueue, push_slot, push_job, pop_job, completed_job, adjust, dequeue_ready_task,
}
use kmm.Scheduler.Counting.{count_slots, queued}

count_slots-push_slot :
    (x id p : ℕ) (slots : List (ℕ × ℕ))
    → count_slots x (push_slot id p slots) ≡ (if p == x then 1 else 0) + count_slots x slots
unfolding push_slot
count_slots-push_slot x id p [] = refl
count_slots-push_slot x id p ((j, q) ∷ rest) = elim (Bool-cases (ltb id j)) [
  | inl e ↦ rw e refl
  | inr e ↦ rw e (omega (arith, count_slots-push_slot x id p rest))
]

pub length-adjust :
    (i : ℕ) (f : SchedulerQueue → SchedulerQueue) (qs : List SchedulerQueue)
    → length (adjust i f qs) ≡ length qs
unfolding adjust
length-adjust i f [] = refl
length-adjust zero f (q ∷ qs) = refl
length-adjust (suc i) f (q ∷ qs) = ap suc (length-adjust i f qs)

pub queued-push_job :
    (x i id p : ℕ) (qs : List SchedulerQueue)
    → i < length qs
    → queued x (adjust i (push_job id p) qs) ≡ (if p == x then 1 else 0) + queued x qs
unfolding adjust
queued-push_job x i id p [] h = elim h [ ]
queued-push_job x zero id p (q ∷ qs) h = omega (arith, count_slots-push_slot x id p q.tasks)
queued-push_job x (suc i) id p (q ∷ qs) h =
    omega (arith, queued-push_job x i id p qs (omega (arith, h)))

pub queued-completed_job :
    (x i : ℕ) (qs : List SchedulerQueue) → queued x (adjust i completed_job qs) ≡ queued x qs
unfolding adjust
queued-completed_job x i [] = refl
queued-completed_job x zero (q ∷ qs) = refl
queued-completed_job x (suc i) (q ∷ qs) = omega (arith, queued-completed_job x i qs)

-- What a queue gives out: its first slot, and one more active job within the limit.
pub record Pops (q q' : SchedulerQueue) (p : ℕ) : Type 0 where
  pub slot : (x : ℕ) → count_slots x q.tasks ≡ (if p == x then 1 else 0) + count_slots x q'.tasks
  pub room : q'.num_jobs_active ≤ q.max_concurrent_jobs
  pub active : q'.num_jobs_active ≡ q.num_jobs_active + 1
  pub limit : q'.max_concurrent_jobs ≡ q.max_concurrent_jobs

pub pop_job-Pops : (q q' : SchedulerQueue) (p : ℕ) → pop_job q ≡ some (p, q') → Pops q q' p
unfolding pop_job
pop_job-Pops q q' p e = elim (Bool-cases (leb q.max_concurrent_jobs q.num_jobs_active)) [
  | inl full ↦ absurd (ground (arith, full, e))
  | inr room ↦ by_slots q.tasks refl (ground (arith, room))
]
  where
    by_slots :
        (slots : List (ℕ × ℕ))
        → q.tasks ≡ slots
        → q.num_jobs_active < q.max_concurrent_jobs
        → Pops q q' p
    by_slots [] t room = absurd (ground (arith, t, e))
    by_slots ((id, y) ∷ rest) t room = record {
      slot = λ x. ground (arith, t, e);
      room = ground (arith, t, e);
      active = ground (arith, t, e);
      limit = ground (arith, t, e);
    }

pub record Dequeues (qs qs' : List SchedulerQueue) (p : ℕ) : Type 0 where
  pub slot : (x : ℕ) → queued x qs ≡ (if p == x then 1 else 0) + queued x qs'
  pub len : length qs' ≡ length qs

pub dequeue-Dequeues :
    (qs qs' : List SchedulerQueue) (p : ℕ)
    → dequeue_ready_task qs ≡ some (p, qs')
    → Dequeues qs qs' p
unfolding dequeue_ready_task
dequeue-Dequeues [] qs' p e = absurd (cc e)
dequeue-Dequeues (q ∷ qs) qs' p e = elim (Option-cases (pop_job q)) [
  | inr ((y, r), popped) ↦
      let out : (y ≡ p) × (qs' ≡ r ∷ qs) = ground (arith, popped, e) in
      let pops = pop_job-Pops q r y popped in
      record { slot = λ x. rw (out.1, ← out.0) (omega (arith, pops.slot x)); len = ap length out.1 }
  | inl none_here ↦ elim (Option-cases (dequeue_ready_task qs)) [
    | inl none_there ↦ absurd (ground (arith, none_here, none_there, e))
    | inr ((y, rest), found) ↦
        let out : (y ≡ p) × (qs' ≡ q ∷ rest) = ground (arith, none_here, found, e) in
        let d = dequeue-Dequeues qs rest y found in
        record {
          slot = λ x. rw (out.1, ← out.0) (omega (arith, d.slot x));
          len = ap length out.1 ∙ ap suc d.len;
        }
  ]
]

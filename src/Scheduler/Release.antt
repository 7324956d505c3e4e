-- ===== src/Scheduler/Release.antt =====
-- enqueue_if_ready and the loop that tells the successors of a scheduled task.
use kmm.Prelude.{
  ℕ, ◌+◌, ◌<◌, ◌≡◌, refl, sym, ◌∙◌, ap, subst, inl, inr, true, false, ◌&&◌, List, [], ◌∷◌, arith,
  ◌==◌, if◌then◌else◌, length, All, Bool-cases, if_true, if_false, ==_refl,
}
use kmm.Streams.EventSet.{DeviceEventSet, insert_all}
use kmm.Scheduler.{
  ready_to_start, TaskRecord, Scheduler, update, decrement, has_completed, is_awaiting, adjust,
  push_job, enqueue_if_ready, release,
}
use kmm.Scheduler.Queue.{length-adjust, queued-push_job}
use kmm.Scheduler.Counting.{count, pending_for, update-cases}
use kmm.Scheduler.Invariant.{Listed-update, IsSound, Writes, Writes-IsSound, pending_for-update}

-- A step that changes the status of waiting records only.
pub record Calm (s s' : Scheduler) : Type 0 where
  pub number : s'.num_records ≡ s.num_records
  pub queue_len : length s'.ready_queues ≡ length s.ready_queues
  pub running_tasks : s'.running_tasks ≡ s.running_tasks
  pub log : s'.log ≡ s.log
  pub status :
      (x : ℕ)
      → is_awaiting (s.records x).status ≡ false
      → (s'.records x).status ≡ (s.records x).status

pub Calm-refl : (s : Scheduler) → Calm s s
Calm-refl s = record {
  number = refl;
  queue_len = refl;
  running_tasks = refl;
  log = refl;
  status = λ x h. refl;
}

pub Calm-trans : {r s t : Scheduler} → Calm r s → Calm s t → Calm r t
Calm-trans a b = record {
  number = b.number ∙ a.number;
  queue_len = b.queue_len ∙ a.queue_len;
  running_tasks = b.running_tasks ∙ a.running_tasks;
  log = b.log ∙ a.log;
  status = λ x h. b.status x (ap is_awaiting (a.status x h) ∙ h) ∙ a.status x h;
}

module _ (debt hand : List ℕ) (y : ℕ) (s : Scheduler) where
  pub enqueue_if_ready-IsSound :
      y < s.num_records
      → IsSound debt hand s
      → IsSound debt hand (enqueue_if_ready y s) × Calm s (enqueue_if_ready y s)
  unfolding enqueue_if_ready
  enqueue_if_ready-IsSound lt v =
      elim (Bool-cases (is_awaiting t.status && t.predecessors_pending == 0)) [
        | inr e ↦ subst Fine (sym (if_false _ s e)) (v, Calm-refl s)
        | inl e ↦ subst Fine (sym (if_true s' s e)) (Writes-IsSound (writes e) v, calm e)
      ]
    where
      Fine : Scheduler → Type 0
      Fine z = IsSound debt hand z × Calm s z

      t : TaskRecord
      t = s.records y

      t' : TaskRecord
      t' = record t { status = ready_to_start }

      s' : Scheduler
      s' = record s {
        records = update s.records y t';
        ready_queues = adjust t.queue (push_job t.event_id y) s.ready_queues;
      }

      counts :
          (is_awaiting t.status && t.predecessors_pending == 0) ≡ true
          → (x : ℕ) → pending_for s' x ≡ pending_for s x
      counts e = pending_for-update s s' y t' refl refl refl (ground (arith, e))

      writes :
          (is_awaiting t.status && t.predecessors_pending == 0) ≡ true
          → Writes debt hand debt hand s y t' s'
      writes e = record {
        records = refl;
        number = refl;
        inside = lt;
        successors = refl;
        queue = refl;
        queue_len = length-adjust t.queue (push_job t.event_id y) s.ready_queues;
        pending = v.pending y lt ∙ ap (λ n. n + count y debt) (sym (counts e y));
        pending_other = λ x lx n. ap (λ k. k + count x debt) (counts e x);
        settled = λ _. ground (arith, e);
        bounded = v.bounded y lt;
        live = refl;
        slot = ground (
          arith,
          e,
          v.slots y lt,
          queued-push_job y t.queue t.event_id y s.ready_queues (v.queues y lt),
        );
        slot_other = λ x n.
            ground (arith, queued-push_job x t.queue t.event_id y s.ready_queues (v.queues y lt));
        known = λ x le.
            ground (arith, queued-push_job x t.queue t.event_id y s.ready_queues (v.queues y lt));
        tasks = Listed-update s.records s.num_records y t' s.tasks refl refl v.tasks;
      }

      calm : (is_awaiting t.status && t.predecessors_pending == 0) ≡ true → Calm s s'
      calm e = record {
        number = refl;
        queue_len = length-adjust t.queue (push_job t.event_id y) s.ready_queues;
        running_tasks = refl;
        log = refl;
        status = λ x h. elim (update-cases s.records y t' x) [
          | inl (yx, _) ↦
              let awaiting : is_awaiting t.status ≡ true = ground (arith, e) in
              absurd (cc (awaiting, h, ap (λ k. is_awaiting (s.records k).status) yx))
          | inr (_, r) ↦ ap (λ (z : TaskRecord). z.status) r
        ];
      }

-- One successor is told: its count goes down, without passing zero.
abbrev told : DeviceEventSet → TaskRecord → TaskRecord
told events t = record t {
  input_events = insert_all events t.input_events;
  predecessors_pending = decrement t.predecessors_pending;
}

tell : DeviceEventSet → ℕ → Scheduler → Scheduler
tell events x s = record s { records = update s.records x (told events (s.records x)) }

tell-IsSound :
    (hand xs : List ℕ) (events : DeviceEventSet) (x : ℕ) (s : Scheduler)
    → x < s.num_records
    → IsSound (x ∷ xs) hand s
    → IsSound xs hand (tell events x s) × Calm s (tell events x s)
unfolding tell
tell-IsSound hand xs events x s lt v = (
  Writes-IsSound
      (record {
        records = refl;
        number = refl;
        inside = lt;
        successors = refl;
        queue = refl;
        queue_len = refl;
        pending = omega (arith, owed, v.bounded x lt, ap (λ k. k + count x xs) (counts x));
        pending_other = λ z lz n. ground (arith, counts z);
        settled = λ h. absurd (omega (arith, owed, v.settled x lt h));
        bounded = omega arith;
        live = v.live x lt;
        slot = v.slots x lt;
        slot_other = λ z n. refl;
        known = λ z le. refl;
        tasks =
            Listed-update s.records s.num_records x (told events (s.records x)) s.tasks refl
              unfinished v.tasks;
      })
      v,
  record {
    number = refl;
    queue_len = refl;
    running_tasks = refl;
    log = refl;
    status = λ z h. elim (update-cases s.records x (told events (s.records x)) z) [
      | inl (e, r) ↦ ap (λ (q : TaskRecord). q.status) r ∙ ap (λ k. (s.records k).status) e
      | inr (_, r) ↦ ap (λ (q : TaskRecord). q.status) r
    ];
  },
)
  where
    owed : (s.records x).predecessors_pending ≡ pending_for s x + (1 + count x xs)
    owed =
        v.pending x lt ∙ ap (λ b. pending_for s x + ((if b then 1 else 0) + count x xs)) (==_refl x)

    unfinished : has_completed (s.records x).status ≡ false
    unfinished = elim (Bool-cases (has_completed (s.records x).status)) [
      | inr e ↦ e
      | inl e ↦ absurd (omega (arith, owed, v.settled x lt (ground (arith, e))))
    ]

    counts : (z : ℕ) → pending_for (tell events x s) z ≡ pending_for s z
    counts z =
        pending_for-update s (tell events x s) x (told events (s.records x)) refl refl refl refl z

-- The whole loop pays the debt.
pub release-IsSound :
    (hand : List ℕ) (events : DeviceEventSet) (xs : List ℕ) (s : Scheduler)
    → All (λ x. x < s.num_records) xs
    → IsSound xs hand s
    → IsSound [] hand (release events xs s) × Calm s (release events xs s)
unfolding release tell
release-IsSound hand events [] s inside v = (v, Calm-refl s)
release-IsSound hand events (x ∷ xs) s inside v =
    let (v1, c1) = tell-IsSound hand xs events x s inside.0 v in
    let (v2, c2) = enqueue_if_ready-IsSound xs hand x (tell events x s) inside.0 v1 in
    let c = Calm-trans c1 c2 in
    let (v3, c3) =
      release-IsSound hand events xs (enqueue_if_ready x (tell events x s))
        (subst (λ n. All (λ z. z < n) xs) (sym c.number) inside.1) v2 in
    (v3, Calm-trans c c3)

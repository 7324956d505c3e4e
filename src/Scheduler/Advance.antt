-- ===== src/Scheduler/Advance.antt =====
-- How a call changes the scheduler, and writes that keep its invariant.
use kmm.Prelude.{
  ℕ, ◌+◌, ◌^◌, ◌<◌, ◌≡◌, refl, sym, ◌∙◌, ap, subst, inl, inr, Bool, true, false, List, [], ◌∷◌,
  arith, ◌==◌, length, All, Bool-cases, if_true, ==_refl,
}
use kmm.Scheduler.{
  Status, running, waiting_for_completion, completed, TaskRecord, started, Scheduler, update,
  is_running, has_completed, is_ready_to_start, erase_task, start_if_ready,
}
use kmm.Scheduler.Counting.{is_scheduled, pending_for, queued, update-cases, update_self}
use kmm.Scheduler.Invariant.{Listed, Listed-update, IsSound, Writes-IsSound, pending_for-update}
use kmm.Scheduler.Release.{Calm}

abbrev pub is_started : Status → Bool
is_started running = true
is_started waiting_for_completion = true
is_started completed = true
is_started _ = false

-- How a call changes the scheduler: started tasks stay so.
pub record Advances (s s' : Scheduler) : Type 0 where
  pub number : s'.num_records ≡ s.num_records
  pub queue_len : length s'.ready_queues ≡ length s.ready_queues
  pub running_tasks : s'.running_tasks ≡ s.running_tasks
  pub started :
      (x : ℕ) → is_started (s.records x).status ≡ true → is_started (s'.records x).status ≡ true

pub Advances-refl : (s : Scheduler) → Advances s s
Advances-refl s = record {
  number = refl;
  queue_len = refl;
  running_tasks = refl;
  started = λ x h. h;
}

pub Advances-trans : {r s t : Scheduler} → Advances r s → Advances s t → Advances r t
Advances-trans a b = record {
  number = b.number ∙ a.number;
  queue_len = b.queue_len ∙ a.queue_len;
  running_tasks = b.running_tasks ∙ a.running_tasks;
  started = λ x h. b.started x (a.started x h);
}

pub Calm-Advances : {s t : Scheduler} → Calm s t → Advances s t
Calm-Advances {s} c = record {
  number = c.number;
  queue_len = c.queue_len;
  running_tasks = c.running_tasks;
  started = λ x h. ap is_started (c.status x (ground (arith, h))) ∙ h;
}

-- A write of a started record is an advance.
pub write-Advances :
    (s s' : Scheduler) (p : ℕ) (t : TaskRecord)
    → s'.records ≡ update s.records p t
    → s'.num_records ≡ s.num_records
    → length s'.ready_queues ≡ length s.ready_queues
    → s'.running_tasks ≡ s.running_tasks
    → is_started t.status ≡ true
    → Advances s s'
write-Advances s s' p t r n q k h = record {
  number = n;
  queue_len = q;
  running_tasks = k;
  started = λ x old.
      ap (λ (f : ℕ → TaskRecord). is_started (f x).status) r ∙ elim (update-cases s.records p t x) [
        | inl (_, e) ↦ ap (λ (z : TaskRecord). is_started z.status) e ∙ h
        | inr (_, e) ↦ ap (λ (z : TaskRecord). is_started z.status) e ∙ old
      ];
}

-- Starting the task in hand.
pub start-IsSound :
    (p : ℕ) (s : Scheduler)
    → p < s.num_records
    → is_ready_to_start (s.records p).status ≡ true
    → IsSound [] (p ∷ []) s
    → IsSound [] [] (start_if_ready p s)
      × Advances s (start_if_ready p s)
      × (is_running ((start_if_ready p s).records p).status ≡ true)
unfolding start_if_ready
start-IsSound p s lt r v =
    subst (λ z. IsSound [] [] z × Advances s z × (is_running (z.records p).status ≡ true))
      (sym (if_true s' s r))
      (
        Writes-IsSound
            (record {
              records = refl;
              number = refl;
              inside = lt;
              successors = refl;
              queue = refl;
              queue_len = refl;
              pending = v.pending p lt ∙ ap (λ n. n + 0) (sym (counts p));
              pending_other = λ x lx n. ap (λ n. n + 0) (counts x);
              settled = λ _. v.settled p lt (ground (arith, r));
              bounded = v.bounded p lt;
              live = refl;
              slot = ground (arith, v.slots p lt, r, ==_refl p);
              slot_other = λ x n. ground arith;
              known = λ x le. refl;
              tasks = Listed-update s.records s.num_records p t' s.tasks refl refl v.tasks;
            })
            v,
        write-Advances s s' p t' refl refl refl refl refl,
        ap (λ (z : TaskRecord). is_running z.status) (update_self s.records p t'),
      )
  where
    t' : TaskRecord
    t' = record (s.records p) { status = running }

    s' : Scheduler
    s' = record s {
      records = update s.records p t';
      log = started p (s.records p).input_events ∷ s.log;
    }

    counts : (x : ℕ) → pending_for s' x ≡ pending_for s x
    counts x = pending_for-update s s' p t' refl refl refl (ground (arith, r)) x

-- A write of a started record that leaves what the invariant counts.
pub keep-IsSound :
    (s s' : Scheduler) (p : ℕ) (t : TaskRecord)
    → p < s.num_records
    → is_started (s.records p).status ≡ true
    → IsSound [] [] s
    → s'.records ≡ update s.records p t
    → s'.num_records ≡ s.num_records
    → t.successors ≡ (s.records p).successors
    → t.queue ≡ (s.records p).queue
    → t.predecessors_pending ≡ (s.records p).predecessors_pending
    → is_scheduled t.status ≡ is_scheduled (s.records p).status
    → is_started t.status ≡ true
    → ((x : ℕ) → queued x s'.ready_queues ≡ queued x s.ready_queues)
    → length s'.ready_queues ≡ length s.ready_queues
    → All (Listed s'.records s.num_records) s'.tasks
    → IsSound [] [] s'
keep-IsSound s s' p t lt st v r n succ q pend sched st' slots len tasks =
    Writes-IsSound
      (record {
        records = r;
        number = n;
        inside = lt;
        successors = succ;
        queue = q;
        queue_len = len;
        pending = pend ∙ v.pending p lt ∙ ap (λ k. k + 0) (sym (counts p));
        pending_other = λ x lx ne. ap (λ k. k + 0) (counts x);
        settled = λ _. pend ∙ v.settled p lt (ground (arith, st));
        bounded = subst (λ k. k < 2 ^ 64) (sym pend) (v.bounded p lt);
        live = ground (arith, st');
        slot = ground (arith, v.slots p lt, slots p, st, st');
        slot_other = λ x ne. ap (λ k. k + 0) (slots x);
        known = λ x le. slots x;
        tasks = tasks;
      })
      v
  where
    counts : (x : ℕ) → pending_for s' x ≡ pending_for s x
    counts x = pending_for-update s s' p t r n succ sched x

pub All-weaken :
    {A : Type 0} (P Q : A → Type 0) (xs : List A) → ((x : A) → P x → Q x) → All P xs → All Q xs
All-weaken P Q [] f h = tt
All-weaken P Q (x ∷ xs) f h = (f x h.0, All-weaken P Q xs f h.1)

-- A record that completes leaves the map of tasks.
pub Listed-erase_task :
    (f : ℕ → TaskRecord) (n p : ℕ) (t : TaskRecord) (tasks : List (ℕ × ℕ))
    → All (Listed f n) tasks
    → All (Listed (update f p t) n) (erase_task (f p).event_id tasks)
unfolding erase_task
Listed-erase_task f n p t [] h = tt
Listed-erase_task f n p t ((j, q) ∷ rest) h = elim (Bool-cases (j == (f p).event_id)) [
  | inl e ↦ rw e (Listed-erase_task f n p t rest h.1)
  | inr e ↦ rw e (
    elim (update-cases f p t q) [
      | inl (pq, _) ↦
          let same : j ≡ (f p).event_id = sym h.0.1 ∙ ap (λ k. (f k).event_id) (sym pq) in
          absurd (cc (e, ap (λ k. k == (f p).event_id) same, ==_refl (f p).event_id))
      | inr (_, r) ↦
          subst (λ (z : TaskRecord). (q < n) × (z.event_id ≡ j) × (has_completed z.status ≡ false))
            (sym r) h.0
    ],
    Listed-erase_task f n p t rest h.1,
  )
]

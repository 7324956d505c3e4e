-- ===== src/Scheduler/Submit.antt =====
-- submit: the new record waits exactly for the dependencies that have not been scheduled.
use native.Mathlib.Decide.{ℕ_discrete}
use kmm.Prelude.{
  ℕ, ◌+◌, ◌^◌, ◌<◌, ◌≡◌, ◌≢◌, refl, sym, ◌∙◌, ap, subst, inl, inr, false, ◌&&◌, some, List, [], ◌∷◌,
  ◌++◌, arith, lt→ltb, ◌==◌, if◌then◌else◌, length, All, Bool-cases, Option-cases,
}
use kmm.Prelude.Results.{ok}
use kmm.Streams.EventSet.{DeviceEventSet}
use kmm.Scheduler.{
  awaiting_dependencies, Task, TaskRecord, Scheduler, update, has_completed, is_awaiting,
  is_ready_to_start, find_task, gather, emplace_task, determine_queue_id, enqueue_if_ready, submit,
}
use kmm.Scheduler.Counting.{
  sum_below, sum_below-add_one, sum_below-zero, count-above, sum_below-cong, count, blocks, queued,
  pending_for, update_self, update_ne,
}
use kmm.Scheduler.Invariant.{is_init, Listed, IsSound}
use kmm.Scheduler.Release.{Calm, enqueue_if_ready-IsSound}
use kmm.Scheduler.Advance.{is_started}
use kmm.Scheduler.Progress.{IsSteady, Active}
use kmm.Scheduler.Gather.{
  Gathers, find_task-Listed, gather-Gathers, gather-linked, enqueue_if_ready_successors,
}

module _ (event_id : ℕ) (task : Task) (deps : List ℕ) (s : Scheduler) where
  -- The state before the new record may be queued.
  abbrev gathered : ℕ × DeviceEventSet × (ℕ → TaskRecord)
  gathered = gather s.num_records deps 0 [] s.records s.tasks

  abbrev new_record : TaskRecord
  new_record = record {
    event_id = event_id;
    status = awaiting_dependencies;
    queue = determine_queue_id task;
    predecessors = deps;
    predecessors_pending = gathered.0;
    input_events = gathered.1;
    successors = [];
    output_events = [];
    task = some task;
  }

  abbrev added : Scheduler
  added = record s {
    records = update gathered.2 s.num_records new_record;
    num_records = s.num_records + 1;
  }

  -- The records below the new one, and the new one.
  added_cases :
      (P : ℕ → TaskRecord → Type 0)
      → ((x : ℕ) → x < s.num_records → P x (gathered.2 x))
      → P s.num_records new_record
      → (x : ℕ) → x < s.num_records + 1
      → P x (added.records x)
  added_cases P old new x lt = elim (ℕ_discrete s.num_records x) [
    | yes e ↦
        subst (λ k. P k (added.records k)) e
          (subst (P s.num_records) (sym (update_self gathered.2 s.num_records new_record)) new)
    | no ne ↦
        subst (P x) (sym (update_ne gathered.2 s.num_records x new_record ne))
          (old x (omega (arith, ne)))
  ]

  added-IsSound :
      IsSound [] [] s
      → determine_queue_id task < length s.ready_queues
      → length deps < 2 ^ 64
      → IsSound [] [] added
  added-IsSound v queue fits = record {
    pending =
        added_cases (λ x t. t.predecessors_pending ≡ pending_for added x + 0)
          (λ x lt.
            g.links.pending x ∙ v.pending x lt ∙ omega (arith, total x (λ e. omega (arith, e, lt))))
          (omega (arith, own));
    settled =
        added_cases (λ x t. is_awaiting t.status ≡ false → t.predecessors_pending ≡ 0)
          (λ x lt h.
            g.links.pending x ∙ v.settled x lt (ap is_awaiting (sym (g.links.status x)) ∙ h))
          (λ h. absurd (cc h));
    bounded =
        added_cases (λ x t. t.predecessors_pending < 2 ^ 64)
          (λ x lt. subst (λ k. k < 2 ^ 64) (sym (g.links.pending x)) (v.bounded x lt))
          (omega (arith, g.bound));
    queues =
        added_cases (λ x t. t.queue < length s.ready_queues)
          (λ x lt. subst (λ k. k < length s.ready_queues) (sym (g.links.queue x)) (v.queues x lt))
          queue;
    slots =
        added_cases
          (λ x t. queued x s.ready_queues + 0 ≡ (if is_ready_to_start t.status then 1 else 0))
          (λ x lt.
            v.slots x lt ∙ ap (λ k. if is_ready_to_start k then 1 else 0) (sym (g.links.status x)))
          (omega (arith, v.known s.num_records (omega arith)));
    known = λ x le. v.known x (omega arith);
    live =
        added_cases (λ x t. is_init t.status ≡ false)
          (λ x lt. ap is_init (g.links.status x) ∙ v.live x lt) refl;
    links =
        added_cases (λ x t. All (λ y. (x < y) × (y < s.num_records + 1)) t.successors)
          (λ x lt. g.links.inside x lt (widen x (s.records x).successors (v.links x lt))) tt;
    tasks = relist s.tasks v.tasks;
  }
    where
      g : Gathers s.num_records deps 0 s.records gathered
      g = gather-Gathers s.num_records deps 0 [] s.records s.tasks (omega arith) v.tasks

      widen :
          (x : ℕ) (ys : List ℕ)
          → All (λ y. (x < y) × (y < s.num_records)) ys
          → All (λ y. (x < y) × (y < s.num_records + 1)) ys
      widen x [] h = tt
      widen x (y ∷ ys) h = ((h.0.0, omega (arith, h.0.1)), widen x ys h.1)

      relist :
          (es : List (ℕ × ℕ))
          → All (Listed s.records s.num_records) es
          → All (Listed added.records (s.num_records + 1)) es
      relist [] h = tt
      relist (e ∷ es) h =
          let same : added.records e.1 ≡ gathered.2 e.1 =
            update_ne gathered.2 s.num_records e.1 new_record (λ q. omega (arith, q, h.0.0)) in
          (
            (
              omega (arith, h.0.0),
              ap (λ (t : TaskRecord). t.event_id) same ∙ g.links.event_id e.1 ∙ h.0.1,
              ap (λ (t : TaskRecord). has_completed t.status) same
                  ∙ ap has_completed (g.links.status e.1)
                  ∙ h.0.2,
            ),
            relist es h.1,
          )

      -- The new record has no successors, so it adds nothing to a count.
      split : (x : ℕ) → pending_for added x ≡ sum_below s.num_records (λ q. blocks x (gathered.2 q))
      split x =
          let top : blocks x (added.records s.num_records) ≡ 0 =
            ap (blocks x) (update_self gathered.2 s.num_records new_record) in
          omega (
            arith,
            top,
            sum_below-add_one s.num_records (λ q. blocks x (added.records q)),
            sum_below-cong s.num_records (λ q. blocks x (added.records q))
                (λ q. blocks x (gathered.2 q))
                (λ q lt.
                  ap (blocks x)
                    (update_ne gathered.2 s.num_records q new_record (λ e. omega (arith, e, lt)))),
          )

      total : (x : ℕ) → s.num_records ≢ x → pending_for added x ≡ pending_for s x
      total x ne =
          split x
          ∙ sum_below-cong s.num_records (λ q. blocks x (gathered.2 q))
              (λ q. blocks x (s.records q)) (λ q lt. cc (g.links.status q, g.links.other q x ne))

      own : gathered.0 ≡ pending_for added s.num_records
      own =
          let none_before : sum_below s.num_records (λ q. blocks s.num_records (s.records q)) ≡ 0 =
            sum_below-zero s.num_records (λ q. blocks s.num_records (s.records q))
              (λ q lt.
                ground
                  (arith, count-above s.num_records q (s.records q).successors (v.links q lt))) in
          omega (arith, split s.num_records, g.counted, none_before)

  emplace-Listed :
      (f : ℕ → TaskRecord) (n : ℕ) (es : List (ℕ × ℕ))
      → Listed f n (event_id, s.num_records)
      → All (Listed f n) es
      → All (Listed f n) (emplace_task event_id s.num_records es)
  unfolding emplace_task
  emplace-Listed f n es new h = elim (Option-cases (find_task event_id es)) [
    | inl e ↦ rw (e, emplace_task) (new, h)
    | inr (q, e) ↦ rw (e, emplace_task) h
  ]

  abbrev named : Scheduler
  named = record added { tasks = emplace_task event_id s.num_records s.tasks }

  named-IsSound : IsSound [] [] added → IsSound [] [] named
  named-IsSound v = record {
    pending = v.pending;
    settled = v.settled;
    bounded = v.bounded;
    queues = v.queues;
    slots = v.slots;
    known = v.known;
    live = v.live;
    links = v.links;
    tasks =
        emplace-Listed added.records (s.num_records + 1) s.tasks
          (
            omega arith,
            ap (λ (t : TaskRecord). t.event_id) here,
            ap (λ (t : TaskRecord). has_completed t.status) here,
          )
          v.tasks;
  }
    where
      here : added.records s.num_records ≡ new_record
      here = update_self gathered.2 s.num_records new_record

  -- The map of tasks may as well be written before the record is queued.
  submit_runs :
      determine_queue_id task < length s.ready_queues
      → submit event_id task deps s ≡ ok (enqueue_if_ready s.num_records named)
  unfolding submit enqueue_if_ready
  submit_runs queue =
      let inside = lt→ltb (determine_queue_id task) (length s.ready_queues) queue in
      let t = added.records s.num_records in
      elim (Bool-cases (is_awaiting t.status && t.predecessors_pending == 0)) [
        | inl e ↦ rw (inside, submit) (rw e refl)
        | inr e ↦ rw (inside, submit) (rw e refl)
      ]

  submitted-IsSteady :
      IsSteady s
      → determine_queue_id task < length s.ready_queues
      → length deps < 2 ^ 64
      → IsSteady (enqueue_if_ready s.num_records named)
  submitted-IsSteady v queue fits =
      let (sound, calm) =
        enqueue_if_ready-IsSound [] [] s.num_records named (omega arith)
          (named-IsSound (added-IsSound v.sound queue fits)) in
      record {
        sound = sound;
        active =
            subst (All (Active (enqueue_if_ready s.num_records named))) (sym calm.running_tasks)
              (keep_active calm s.running_tasks v.active);
      }
    where
      g : Gathers s.num_records deps 0 s.records gathered
      g = gather-Gathers s.num_records deps 0 [] s.records s.tasks (omega arith) v.sound.tasks

      keep_active :
          Calm named (enqueue_if_ready s.num_records named)
          → (xs : List ℕ) → All (Active s) xs
          → All (Active (enqueue_if_ready s.num_records named)) xs
      keep_active calm [] h = tt
      keep_active calm (x ∷ xs) h =
          let same : (named.records x).status ≡ (s.records x).status =
            ap (λ (t : TaskRecord). t.status)
              (update_ne gathered.2 s.num_records x new_record (λ e. omega (arith, e, h.0.0)))
            ∙ g.links.status x in
          let after = calm.status x (ap is_awaiting same ∙ ground (arith, h.0.1)) in
          (
            (
              subst (◌<◌ x) (sym calm.number) (omega (arith, h.0.0)),
              ap is_started (after ∙ same) ∙ h.0.1,
            ),
            keep_active calm xs h.1,
          )

-- A submission to a steady scheduler whose queue exists ends with a steady scheduler that has one
-- more record.
pub submit-IsSteady :
    (event_id : ℕ) (task : Task) (deps : List ℕ) (s : Scheduler)
    → IsSteady s
    → determine_queue_id task < length s.ready_queues
    → length deps < 2 ^ 64
    → (t : Scheduler) × (submit event_id task deps s ≡ ok t)
      × IsSteady t
      × (t.num_records ≡ s.num_records + 1)
submit-IsSteady event_id task deps s v queue fits = (
  enqueue_if_ready s.num_records (named event_id task deps s),
  submit_runs event_id task deps s queue,
  submitted-IsSteady event_id task deps s v queue fits,
  (enqueue_if_ready-IsSound [] [] s.num_records (named event_id task deps s) (omega arith) (
      named-IsSound event_id task deps s
        (added-IsSound event_id task deps s v.sound queue fits))).1.number,
)

-- A submission to a steady scheduler whose queue exists succeeds, and the record of each dependency
-- that is still in the map of tasks has the new record among its successors, also when it waits for
-- completion.
pub submit_links :
    (event_id : ℕ) (task : Task) (xs : List ℕ) (dep : ℕ) (ys : List ℕ) (s : Scheduler) (q : ℕ)
    → IsSteady s
    → determine_queue_id task < length s.ready_queues
    → length (xs ++ dep ∷ ys) < 2 ^ 64
    → find_task dep s.tasks ≡ some q
    → (t : Scheduler) × (submit event_id task (xs ++ dep ∷ ys) s ≡ ok t)
      × (0 < count s.num_records (t.records q).successors)
submit_links event_id task xs dep ys s q v queue fits found =
    let deps = xs ++ dep ∷ ys in
    let (lt, _) = find_task-Listed s.records s.num_records dep s.tasks v.sound.tasks found in
    let before =
      gather-linked s.num_records xs dep ys 0 [] s.records s.tasks (omega (arith, fits))
        v.sound.tasks found in
    let same : ((named event_id task deps s).records q).successors
        ≡ ((gathered event_id task deps s).2 q).successors =
      ap (λ (t : TaskRecord). t.successors)
        (update_ne (gathered event_id task deps s).2 s.num_records q
          (new_record event_id task deps s) (λ e. omega (arith, e, lt))) in
    (
      enqueue_if_ready s.num_records (named event_id task deps s),
      submit_runs event_id task deps s queue,
      subst (λ l. 0 < count s.num_records l)
          (sym (enqueue_if_ready_successors s.num_records (named event_id task deps s) q ∙ same))
          before,
    )

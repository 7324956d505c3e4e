-- ===== src/Scheduler/Progress.antt =====
-- make_progress: its loop over the running tasks, its loop that starts tasks, and what each leaves.
use kmm.Prelude.{
  ℕ, zero, suc, ◌+◌, ◌≤◌, ◌<◌, ◌≡◌, refl, sym, ◌∙◌, ap, subst, inl, inr, Bool, true, false, ◌&&◌,
  none, List, [], ◌∷◌, ◌++◌, arith, ltb, ltb→lt, if◌then◌else◌, All, All-append, Bool-cases,
  Option-cases, if_false, ==_refl,
}
use kmm.Prelude.Results.{Result, ok, ◌>>=◌, ◌>>◌, kmm_assert}
use kmm.Streams.Event.{DeviceEvent}
use kmm.Streams.EventSet.{DeviceEventSet}
use kmm.Scheduler.{
  Poll, poll_pending, poll_ready, poll_threw, SchedulerQueue, TaskCall, Scheduler, is_awaiting,
  is_ready_to_start, poll_completion, poll_running, dequeue_ready_task, start_task, start_all,
  make_progress,
}
use kmm.Scheduler.Queue.{Dequeues, dequeue-Dequeues}
use kmm.Scheduler.Counting.{
  sum_below, sum_below-term, is_scheduled, blocks, pending_for, count, queued, sum_below-strict,
  sum_below-bound,
}
use kmm.Scheduler.Invariant.{IsSound}
use kmm.Scheduler.Advance.{is_started, Advances, Advances-refl, Advances-trans}
use kmm.Scheduler.Polling.{Throws, Polls, poll_completion-Polls, poll_completion-start}

abbrev pub Active : Scheduler → ℕ → Type 0
Active s x = (x < s.num_records) × (is_started (s.records x).status ≡ true)

-- Between calls: the invariant, and the list of running tasks holds started tasks.
pub record IsSteady (s : Scheduler) : Type 0 where
  pub sound : IsSound [] [] s
  pub active : All (Active s) s.running_tasks

All-Active : {s t : Scheduler} (xs : List ℕ) → Advances s t → All (Active s) xs → All (Active t) xs
All-Active [] a h = tt
All-Active (x ∷ xs) a h =
    ((subst (◌<◌ x) (sym a.number) h.0.0, a.started x h.0.1), All-Active xs a h.1)

-- The tasks that have not been started.
abbrev pub unstarted : Scheduler → ℕ
unstarted s = sum_below s.num_records (λ x. if is_started (s.records x).status then 0 else 1)

unstarted-le : (s : Scheduler) → unstarted s ≤ s.num_records
unstarted-le s = sum_below-bound s.num_records _ (λ x. ground arith)

unstarted-Advances :
    (s t : Scheduler) (p : ℕ)
    → Advances s t
    → p < s.num_records
    → is_started (s.records p).status ≡ false
    → is_started (t.records p).status ≡ true
    → unstarted t < unstarted s
unstarted-Advances s t p a lt old new =
    subst
      (λ n.
        sum_below n (λ x. if is_started (t.records x).status then 0 else 1)
        < sum_below s.num_records (λ x. if is_started (s.records x).status then 0 else 1))
      (sym a.number)
      (sum_below-strict s.num_records p _ _ lt (λ x lx. ground (arith, a.started x))
        (ground (arith, old, new)))

-- The list of running tasks plays no part in the invariant of the records.
relabel-IsSound :
    (s : Scheduler) (ps : List ℕ)
    → IsSound [] [] s
    → IsSound [] [] (record s { running_tasks = ps })
relabel-IsSound s ps v = record {
  pending = v.pending;
  settled = v.settled;
  bounded = v.bounded;
  queues = v.queues;
  slots = v.slots;
  known = v.known;
  live = v.live;
  links = v.links;
  tasks = v.tasks;
}

module _ (poll : List TaskCall → ℕ → Poll × DeviceEventSet)
    (ready : List TaskCall → DeviceEvent → Bool) where
  -- What polling the running tasks leaves.
  record PollsAll (s : Scheduler) (r : Bool × List ℕ × Scheduler) : Type 0 where
    sound : IsSound [] [] r.2
    advances : Advances s r.2
    active : All (Active r.2) r.1
    threw : r.0 ≡ false → Throws poll r.2.log

  poll_running-PollsAll :
      (later : Bool) (ps : List ℕ) (s : Scheduler)
      → All (Active s) ps
      → IsSound [] [] s
      → (r : Bool × List ℕ × Scheduler) × (poll_running poll ready later ps s ≡ ok r) × PollsAll s r
  unfolding poll_running
  poll_running-PollsAll later [] s h v = (
    (true, [], s),
    refl,
    record { sound = v; advances = Advances-refl s; active = tt; threw = λ f. absurd (cc f) },
  )
  poll_running-PollsAll later (p ∷ ps) s h v = elim (Bool-cases (s.debug_mode && later)) [
    | inl skip ↦
        let (r, e, g) = poll_running-PollsAll true ps s h.1 v in
        (
          (r.0, p ∷ r.1, r.2),
          rw (skip, poll_running) (ap (λ x. x >>= λ k. ok (k.0, p ∷ k.1, k.2)) e),
          record {
            sound = g.sound;
            advances = g.advances;
            active = ((All-Active (p ∷ []) g.advances (h.0, tt)).0, g.active);
            threw = g.threw;
          },
        )
    | inr go ↦
        let ((answer, k), ek, polls) = poll_completion-Polls poll ready p s h.0.0 h.0.1 v in
        let (r, e, g) = answered answer k polls (λ l j a w. poll_running-PollsAll l ps j a w) in
        (r, rw (go, poll_running) (rw ek e), g)
  ]
    where
      rest : Poll × Scheduler → Result (Bool × List ℕ × Scheduler)
      rest r = elim r.0 [
        | poll_ready ↦ poll_running poll ready later ps r.1
        | poll_pending ↦ poll_running poll ready true ps r.1 >>= λ k. ok (k.0, p ∷ k.1, k.2)
        | poll_threw ↦ ok (false, p ∷ ps, r.1)
      ]

      answered :
          (answer : Poll) (k : Scheduler)
          → Polls poll ready p s (answer, k)
          → ((l : Bool) (j : Scheduler)
              → All (Active j) ps
              → IsSound [] [] j
              → (r : Bool × List ℕ × Scheduler) × (poll_running poll ready l ps j ≡ ok r)
                × PollsAll j r)
          → (r : Bool × List ℕ × Scheduler) × (rest (answer, k) ≡ ok r) × PollsAll s r
      answered poll_ready k polls again =
          let (r, e, g) = again later k (All-Active ps polls.advances h.1) polls.sound in
          (
            r,
            e,
            record {
              sound = g.sound;
              advances = Advances-trans polls.advances g.advances;
              active = g.active;
              threw = g.threw;
            },
          )
      answered poll_pending k polls again =
          let (r, e, g) = again true k (All-Active ps polls.advances h.1) polls.sound in
          let here : Active k p =
            (subst (◌<◌ p) (sym polls.advances.number) h.0.0, polls.started) in
          (
            (r.0, p ∷ r.1, r.2),
            ap (λ x. x >>= λ z. ok (z.0, p ∷ z.1, z.2)) e,
            record {
              sound = g.sound;
              advances = Advances-trans polls.advances g.advances;
              active = ((All-Active (p ∷ []) g.advances (here, tt)).0, g.active);
              threw = g.threw;
            },
          )
      answered poll_threw k polls again = (
        (false, p ∷ ps, k),
        refl,
        record {
          sound = polls.sound;
          advances = polls.advances;
          active = All-Active (p ∷ ps) polls.advances h;
          threw = λ _. polls.threw refl;
        },
      )

  -- The task that leaves its queue is a record that is ready to start.
  dequeued :
      (s : Scheduler) (p : ℕ) (qs : List SchedulerQueue)
      → Dequeues s.ready_queues qs p
      → IsSound [] [] s
      → (p < s.num_records)
        × (is_ready_to_start (s.records p).status ≡ true)
        × IsSound [] (p ∷ []) (record s { ready_queues = qs })
  dequeued s p qs d v = (
    inside,
    ready_status,
    record {
      pending = v.pending;
      settled = v.settled;
      bounded = v.bounded;
      queues = λ x lt. subst (λ n. (s.records x).queue < n) (sym d.len) (v.queues x lt);
      slots = λ x lt. omega (arith, d.slot x, v.slots x lt);
      known = λ x le. omega (arith, d.slot x, v.known x le);
      live = v.live;
      links = v.links;
      tasks = v.tasks;
    },
  )
    where
      one : 1 ≤ queued p s.ready_queues
      one = ground (arith, d.slot p, ==_refl p)

      inside : p < s.num_records
      inside = elim (Bool-cases (ltb p s.num_records)) [
        | inl e ↦ ltb→lt p s.num_records e
        | inr e ↦ absurd (omega (arith, one, v.known p (ground (arith, e))))
      ]

      ready_status : is_ready_to_start (s.records p).status ≡ true
      ready_status = ground (arith, one, v.slots p inside)

  record Starts (s : Scheduler) (r : Bool × Scheduler) : Type 0 where
    steady : IsSteady r.1
    fewer : unstarted r.1 < unstarted s
    threw : r.0 ≡ false → Throws poll r.1.log

  start_task-Starts :
      (s : Scheduler) (p : ℕ) (qs : List SchedulerQueue)
      → Dequeues s.ready_queues qs p
      → IsSteady s
      → (r : Bool × Scheduler) × (start_task poll ready p (record s { ready_queues = qs }) ≡ ok r)
        × Starts s r
  unfolding start_task
  start_task-Starts s p qs d v =
      let (inside, rs, v1) = dequeued s p qs d v.sound in
      let s1 : Scheduler = record s { ready_queues = qs } in
      let ((answer, k), e, polls) = poll_completion-start poll ready p s1 inside rs v1 in
      let moved : Advances s k = record {
        number = polls.advances.number;
        queue_len = polls.advances.queue_len ∙ d.len;
        running_tasks = polls.advances.running_tasks;
        started = polls.advances.started;
      } in
      let fewer = unstarted-Advances s k p moved inside (ground (arith, rs)) polls.started in
      let kept : All (Active k) k.running_tasks =
        subst (All (Active k)) (sym moved.running_tasks)
          (All-Active s.running_tasks moved v.active) in
      let runs : start_task poll ready p s1 ≡ after (answer, k) =
        ap (λ x. kmm_assert x >> poll_completion poll ready p s1 >>= after) rs
        ∙ ap (λ x. x >>= after) e in
      let (r, er, starts) =
        answered answer k polls.sound kept (subst (◌<◌ p) (sym moved.number) inside, polls.started)
          fewer polls.threw in
      (r, runs ∙ er, starts)
    where
      after : Poll × Scheduler → Result (Bool × Scheduler)
      after k = elim k.0 [
        | poll_ready ↦ ok (true, k.1)
        | poll_pending ↦ ok (true, record (k.1) { running_tasks = k.1.running_tasks ++ p ∷ [] })
        | poll_threw ↦ ok (false, k.1)
      ]

      answered :
          (answer : Poll) (k : Scheduler)
          → IsSound [] [] k
          → All (Active k) k.running_tasks
          → Active k p
          → unstarted k < unstarted s
          → (answer ≡ poll_threw → Throws poll k.log)
          → (r : Bool × Scheduler) × (after (answer, k) ≡ ok r) × Starts s r
      answered poll_ready k sound kept here fewer threw = (
        (true, k),
        refl,
        record {
          steady = record { sound = sound; active = kept };
          fewer = fewer;
          threw = λ f. absurd (cc f);
        },
      )
      answered poll_pending k sound kept here fewer threw = (
        (true, record k { running_tasks = k.running_tasks ++ p ∷ [] }),
        refl,
        record {
          steady = record {
            sound = relabel-IsSound k _ sound;
            active = All-append (Active k) k.running_tasks (p ∷ []) kept (here, tt);
          };
          fewer = fewer;
          threw = λ f. absurd (cc f);
        },
      )
      answered poll_threw k sound kept here fewer threw = (
        (false, k),
        refl,
        record {
          steady = record { sound = sound; active = kept };
          fewer = fewer;
          threw = λ _. threw refl;
        },
      )

  -- What a loop leaves: a call that returns has gone on until no queue has a task to give, and one
  -- that does not has been left by its last poll of a task, which threw.
  pub record Leaves (r : Bool × Scheduler) : Type 0 where
    pub steady : IsSteady r.1
    pub done : r.0 ≡ true → dequeue_ready_task r.1.ready_queues ≡ none
    pub threw : r.0 ≡ false → Throws poll r.1.log

  start_all-Steady :
      (fuel : ℕ) (s : Scheduler)
      → unstarted s < fuel
      → IsSteady s
      → (r : Bool × Scheduler) × (start_all poll ready fuel s ≡ ok r) × Leaves r
  unfolding start_all
  start_all-Steady zero s h v = absurd (omega arith)
  start_all-Steady (suc fuel) s h v = elim (Option-cases (dequeue_ready_task s.ready_queues)) [
    | inl none_left ↦ (
      (true, s),
      rw (none_left, start_all) refl,
      record { steady = v; done = λ _. none_left; threw = λ f. absurd (cc f) },
    )
    | inr ((p, qs), found) ↦
        let ((returned, u), e, starts) =
          start_task-Starts s p qs (dequeue-Dequeues s.ready_queues qs p found) v in
        let (t, et, leaves) = started returned u starts (λ j l w. start_all-Steady fuel j l w) in
        (t, rw (found, start_all) (ap (λ r. r >>= rest) e ∙ et), leaves)
  ]
    where
      rest : Bool × Scheduler → Result (Bool × Scheduler)
      rest r = elim r.0 [ true ↦ start_all poll ready fuel r.1 | false ↦ ok (false, r.1) ]

      started :
          (returned : Bool) (u : Scheduler)
          → Starts s (returned, u)
          → ((j : Scheduler)
              → unstarted j < fuel
              → IsSteady j
              → (r : Bool × Scheduler) × (start_all poll ready fuel j ≡ ok r) × Leaves r)
          → (r : Bool × Scheduler) × (rest (returned, u) ≡ ok r) × Leaves r
      started true u starts again = again u (omega (arith, h, starts.fewer)) starts.steady
      started false u starts again = (
        (false, u),
        refl,
        record {
          steady = starts.steady;
          done = λ f. absurd (cc f);
          threw = λ _. starts.threw refl;
        },
      )

  -- From a steady scheduler `make_progress` fails no assertion and ends steady, also when a task
  -- throws; when it does not return, the last poll of a task has thrown, and when it returns, it has
  -- gone on until no queue has a task to give.
  pub make_progress-IsSteady :
      (s : Scheduler)
      → IsSteady s
      → (r : Bool × Scheduler) × (make_progress poll ready s ≡ ok r) × Leaves r
  unfolding make_progress
  make_progress-IsSteady s v =
      let ((returned, ps, k), e, polls) =
        poll_running-PollsAll false s.running_tasks s v.active v.sound in
      let steady : IsSteady (record k { running_tasks = ps }) = record {
        sound = relabel-IsSound k ps polls.sound;
        active = polls.active;
      } in
      let (r, er, leaves) = polled returned ps k polls.advances.number steady polls.threw in
      (r, ap (λ x. x >>= rest) e ∙ er, leaves)
    where
      rest : Bool × List ℕ × Scheduler → Result (Bool × Scheduler)
      rest r = elim r.0 [
        | true ↦ start_all poll ready (s.num_records + 1) (record (r.2) { running_tasks = r.1 })
        | false ↦ ok (false, record (r.2) { running_tasks = r.1 })
      ]

      polled :
          (returned : Bool) (ps : List ℕ) (k : Scheduler)
          → k.num_records ≡ s.num_records
          → IsSteady (record k { running_tasks = ps })
          → (returned ≡ false → Throws poll k.log)
          → (r : Bool × Scheduler) × (rest (returned, ps, k) ≡ ok r) × Leaves r
      polled true ps k number steady threw =
          start_all-Steady (s.num_records + 1) (record k { running_tasks = ps })
            (omega (arith, number, unstarted-le k)) steady
      polled false ps k number steady threw = (
        (false, record k { running_tasks = ps }),
        refl,
        record { steady = steady; done = λ f. absurd (cc f); threw = λ _. threw refl },
      )

-- On a steady scheduler a task that is ready, or has been started, has no predecessor left that has
-- not been scheduled: it is no successor of such a record.
pub steady_order :
    (s : Scheduler) (q x : ℕ)
    → IsSteady s
    → q < s.num_records
    → x < s.num_records
    → 0 < count x (s.records q).successors
    → is_awaiting (s.records x).status ≡ false
    → is_scheduled (s.records q).status ≡ true
steady_order s q x v lq lx linked gone = elim (Bool-cases (is_scheduled (s.records q).status)) [
  | inl e ↦ e
  | inr e ↦
      let blocked : count x (s.records q).successors ≤ pending_for s x =
        subst (λ n. n ≤ pending_for s x) (if_false _ _ e)
          (sum_below-term s.num_records q (λ k. blocks x (s.records k)) lq) in
      absurd (omega (arith, v.sound.pending x lx, v.sound.settled x lx gone, blocked, linked))
]

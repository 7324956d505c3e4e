-- ===== src/Scheduler/Polling.antt =====
-- poll_completion on a record that is ready or has been started: it fails no assertion, keeps the
-- invariant, and a task that has been started stays so.
use kmm.Prelude.{
  ℕ, zero, suc, ◌+◌, ◌-◌, ◌%◌, ◌^◌, ◌≤◌, ◌<◌, ◌≡◌, ◌≢◌, refl, sym, ◌∙◌, ap, subst, ◌⊎◌, inl, inr,
  Bool, true, false, ◌&&◌, List, [], ◌∷◌, ◌++◌, arith, ◌==◌, if◌then◌else◌, length, All, Bool-cases,
  if_true, if_false, ==_refl,
}
use kmm.Prelude.Results.{ok, ◌>>◌, kmm_assert}
use kmm.Streams.Event.{DeviceEvent}
use kmm.Streams.EventSet.{DeviceEventSet, remove_ready_trailing}
use kmm.Scheduler.{
  Poll, poll_pending, poll_ready, poll_threw, is_poll_ready, asked, waiting_for_completion,
  completed, TaskRecord, TaskCall, polled, Scheduler, update, is_awaiting, is_running, is_waiting,
  has_completed, is_ready_to_start, adjust, completed_job, erase_task, release, start_if_ready,
  schedule_if_running, complete_if_waiting, go_on, poll_completion,
}
use kmm.Scheduler.Queue.{length-adjust, queued-completed_job}
use kmm.Scheduler.Counting.{
  sum_below, sum_below-change, count, is_scheduled, blocks, pending_for, update_self, update_ne,
}
use kmm.Scheduler.Invariant.{Listed-update, IsSound, Writes-IsSound}
use kmm.Scheduler.Release.{release-IsSound}
use kmm.Scheduler.Advance.{
  is_started, Advances, Advances-refl, Advances-trans, Calm-Advances, write-Advances, start-IsSound,
  keep-IsSound, All-weaken, Listed-erase_task,
}

-- The last call of a task has thrown.
abbrev pub Throws : (List TaskCall → ℕ → Poll × DeviceEventSet) → List TaskCall → Type 0
Throws poll log =
    (p : ℕ) × (before : List TaskCall) × (log ≡ polled p ∷ before) × ((poll log p).0 ≡ poll_threw)

module _ (poll : List TaskCall → ℕ → Poll × DeviceEventSet)
    (ready : List TaskCall → DeviceEvent → Bool) (p : ℕ) where
  -- Polling a running task: it goes on running, or its successors are told.
  record Scheduled (s : Scheduler) (r : Poll × Scheduler) : Type 0 where
    sound : IsSound [] [] r.1
    advances : Advances s r.1
    stays : is_poll_ready r.0 ≡ false → is_running (r.1.records p).status ≡ true
    goes_on : is_poll_ready r.0 ≡ true → is_scheduled (r.1.records p).status ≡ true
    threw : r.0 ≡ poll_threw → Throws poll r.1.log

  schedule-Scheduled :
      (s : Scheduler)
      → p < s.num_records
      → is_started (s.records p).status ≡ true
      → IsSound [] [] s
      → Scheduled s (schedule_if_running poll ready p s)
  unfolding schedule_if_running
  schedule-Scheduled s lt st v = elim (Bool-cases (is_running t.status)) [
    | inr e ↦ subst (Scheduled s) (sym (on_other e)) (record {
      sound = v;
      advances = Advances-refl s;
      stays = λ h. absurd (cc h);
      goes_on = λ _. ground (arith, e, st);
      threw = λ h. absurd (cc h);
    })
    | inl e ↦ elim (Bool-cases (is_poll_ready (poll log p).0)) [
      | inr f ↦ subst (Scheduled s) (sym (on_polled e f)) (record {
        sound =
            keep-IsSound s polled_state p polled_record lt st v refl refl refl refl refl refl st
              (λ x. refl) refl
              (Listed-update s.records s.num_records p polled_record s.tasks refl
                (ground (arith, e)) v.tasks);
        advances = write-Advances s polled_state p polled_record refl refl refl refl st;
        stays = λ _.
            ap (λ (z : TaskRecord). is_running z.status) (update_self s.records p polled_record)
            ∙ e;
        goes_on = λ h. absurd (cc (f, h));
        threw = λ h. (p, s.log, refl, h);
      })
      | inl f ↦
          let (sound, calm) =
            release-IsSound [] events t.successors told_state
              (All-weaken _ _ t.successors (λ x h. h.1) (v.links p lt)) (owes e) in
          let here : (told_state.records p).status ≡ waiting_for_completion =
            ap (λ (z : TaskRecord). z.status) (update_self s.records p told_record) in
          subst (Scheduled s) (sym (on_told e f)) (record {
            sound = sound;
            advances =
                Advances-trans (write-Advances s told_state p told_record refl refl refl refl refl)
                  (Calm-Advances calm);
            stays = λ h. absurd (cc h);
            goes_on = λ _. ap is_scheduled (calm.status p (ap is_awaiting here) ∙ here);
            threw = λ h. absurd (cc h);
          })
    ]
  ]
    where
      t : TaskRecord
      t = s.records p

      log : List TaskCall
      log = polled p ∷ s.log

      events : DeviceEventSet
      events = (poll log p).1

      polled_record : TaskRecord
      polled_record = record t { output_events = events }

      polled_state : Scheduler
      polled_state = record s { records = update s.records p polled_record; log = log }

      told_record : TaskRecord
      told_record = record polled_record { status = waiting_for_completion }

      told_state : Scheduler
      told_state = record s { records = update s.records p told_record; log = log }

      on_other : is_running t.status ≡ false → schedule_if_running poll ready p s ≡ (poll_ready, s)
      on_other e = rw (e, schedule_if_running) refl

      on_polled :
          is_running t.status ≡ true
          → is_poll_ready (poll log p).0 ≡ false
          → schedule_if_running poll ready p s ≡ ((poll log p).0, polled_state)
      on_polled e f = rw (e, schedule_if_running) (rw f refl)

      on_told :
          is_running t.status ≡ true
          → is_poll_ready (poll log p).0 ≡ true
          → schedule_if_running poll ready p s
            ≡ (poll_ready, release events t.successors told_state)
      on_told e f = rw (e, schedule_if_running) (rw f refl)

      -- The successors are now to be told.
      moved :
          is_running t.status ≡ true
          → (x : ℕ) → pending_for told_state x + count x t.successors ≡ pending_for s x + 0
      moved e x =
          let one : sum_below s.num_records (λ q. blocks x (s.records q))
                + blocks x (update s.records p told_record p)
              ≡ pending_for told_state x + blocks x t =
            sum_below-change s.num_records p (λ q. blocks x (s.records q))
              (λ q. blocks x (update s.records p told_record q)) lt
              (λ q ne. ap (blocks x) (sym (update_ne s.records p q told_record ne))) in
          let old : blocks x t ≡ count x t.successors = ground (arith, e) in
          let new : blocks x (update s.records p told_record p) ≡ 0 =
            ap (blocks x) (update_self s.records p told_record) in
          omega (arith, one, old, new)

      owes : is_running t.status ≡ true → IsSound t.successors [] told_state
      owes e =
          Writes-IsSound
            (record {
              records = refl;
              number = refl;
              inside = lt;
              successors = refl;
              queue = refl;
              queue_len = refl;
              pending = v.pending p lt ∙ sym (moved e p);
              pending_other = λ x lx ne. moved e x;
              settled = λ _. v.settled p lt (ground (arith, st));
              bounded = v.bounded p lt;
              live = refl;
              slot = ground (arith, v.slots p lt, st);
              slot_other = λ x ne. refl;
              known = λ x le. refl;
              tasks = Listed-update s.records s.num_records p told_record s.tasks refl refl v.tasks;
            })
            v

  record Ends (s : Scheduler) (r : Bool × Scheduler) : Type 0 where
    sound : IsSound [] [] r.1
    advances : Advances s r.1
    ended : r.0 ≡ true → has_completed (r.1.records p).status ≡ true
    waits : r.0 ≡ false → is_started (r.1.records p).status ≡ true

  complete-Ends :
      (s : Scheduler)
      → p < s.num_records
      → is_scheduled (s.records p).status ≡ true
      → IsSound [] [] s
      → Ends s (complete_if_waiting poll ready p s)
  unfolding complete_if_waiting
  complete-Ends s lt st v = elim (Bool-cases (is_waiting t.status)) [
    | inr e ↦ subst (Ends s) (sym (on_settled e)) (record {
      sound = v;
      advances = Advances-refl s;
      ended = λ _. ground (arith, e, st);
      waits = λ h. absurd (cc h);
    })
    | inl e ↦ elim (Bool-cases (remove_ready_trailing (ready log) t.output_events).1) [
      | inr f ↦ subst (Ends s) (sym (on_left e f)) (record {
        sound =
            keep-IsSound s left_state p left lt active v refl refl refl refl refl refl active
              (λ x. refl) refl
              (Listed-update s.records s.num_records p left s.tasks refl (ground (arith, e))
                v.tasks);
        advances = write-Advances s left_state p left refl refl refl refl active;
        ended = λ h. absurd (cc h);
        waits = λ _.
            ap (λ (z : TaskRecord). is_started z.status) (update_self s.records p left) ∙ active;
      })
      | inl f ↦ subst (Ends s) (sym (on_done e f)) (record {
        sound =
            keep-IsSound s done p ended_record lt active v refl refl refl refl refl (sym st) refl
              (λ x. queued-completed_job x t.queue s.ready_queues)
              (length-adjust t.queue completed_job s.ready_queues)
              (Listed-erase_task s.records s.num_records p ended_record s.tasks v.tasks);
        advances =
            write-Advances s done p ended_record refl refl
              (length-adjust t.queue completed_job s.ready_queues) refl refl;
        ended = λ _.
            ap (λ (z : TaskRecord). has_completed z.status) (update_self s.records p ended_record);
        waits = λ h. absurd (cc h);
      })
    ]
  ]
    where
      t : TaskRecord
      t = s.records p

      active : is_started t.status ≡ true
      active = ground (arith, st)

      log : List TaskCall
      log = asked p ∷ s.log

      left : TaskRecord
      left = record t { output_events = (remove_ready_trailing (ready log) t.output_events).0 }

      left_state : Scheduler
      left_state = record s { records = update s.records p left; log = log }

      ended_record : TaskRecord
      ended_record = record left { status = completed; task = kmm.Prelude.none }

      done : Scheduler
      done = record s {
        records = update s.records p ended_record;
        tasks = erase_task t.event_id s.tasks;
        ready_queues = adjust t.queue completed_job s.ready_queues;
        log = log;
      }

      on_settled : is_waiting t.status ≡ false → complete_if_waiting poll ready p s ≡ (true, s)
      on_settled e = rw (e, complete_if_waiting) refl

      on_left :
          is_waiting t.status ≡ true
          → (remove_ready_trailing (ready log) t.output_events).1 ≡ false
          → complete_if_waiting poll ready p s ≡ (false, left_state)
      on_left e f = rw (e, complete_if_waiting) (rw f refl)

      on_done :
          is_waiting t.status ≡ true
          → (remove_ready_trailing (ready log) t.output_events).1 ≡ true
          → complete_if_waiting poll ready p s ≡ (true, done)
      on_done e f = rw (e, complete_if_waiting) (rw f refl)

  -- The call as a whole.
  pub record Polls (s : Scheduler) (r : Poll × Scheduler) : Type 0 where
    pub sound : IsSound [] [] r.1
    pub advances : Advances s r.1
    pub started : is_started (r.1.records p).status ≡ true
    pub threw : r.0 ≡ poll_threw → Throws poll r.1.log

  poll_started :
      (s : Scheduler)
      → p < s.num_records
      → is_started (s.records p).status ≡ true
      → IsSound [] [] s
      → start_if_ready p s ≡ s
  unfolding start_if_ready
  poll_started s lt st v =
      if_false {b = is_ready_to_start (s.records p).status} _ s (ground (arith, st))

  go_on-Polls :
      (s : Scheduler)
      → p < s.num_records
      → is_started (s.records p).status ≡ true
      → IsSound [] [] s
      → (r : Poll × Scheduler) × (go_on poll ready p s ≡ ok r) × Polls s r
  unfolding go_on
  go_on-Polls s lt st v =
      let a = schedule_if_running poll ready p s in
      let sched = schedule-Scheduled s lt st v in
      let b = complete_if_waiting poll ready p a.1 in
      elim (Bool-cases (is_poll_ready a.0)) [
        | inr f ↦ (
          a,
          rw (f, go_on) refl,
          record {
            sound = sched.sound;
            advances = sched.advances;
            started = ground (arith, sched.stays f);
            threw = sched.threw;
          },
        )
        | inl f ↦
            let ends =
              complete-Ends a.1 (subst (◌<◌ p) (sym sched.advances.number) lt) (sched.goes_on f)
                sched.sound in
            let adv2 = Advances-trans sched.advances ends.advances in
            elim (Bool-cases b.0) [
              | inr g ↦ (
                (poll_pending, b.1),
                rw (f, go_on) (rw g refl),
                record {
                  sound = ends.sound;
                  advances = adv2;
                  started = ends.waits g;
                  threw = λ h. absurd (cc h);
                },
              )
              | inl g ↦ (
                (poll_ready, b.1),
                rw (f, go_on)
                    (rw g (ap (λ x. kmm_assert x >> ok (poll_ready, b.1)) (ends.ended g))),
                record {
                  sound = ends.sound;
                  advances = adv2;
                  started = ground (arith, ends.ended g);
                  threw = λ h. absurd (cc h);
                },
              )
            ]
      ]

  finish_poll :
      (s s1 : Scheduler)
      → start_if_ready p s ≡ s1
      → p < s1.num_records
      → is_started (s1.records p).status ≡ true
      → IsSound [] [] s1
      → Advances s s1
      → (r : Poll × Scheduler) × (poll_completion poll ready p s ≡ ok r) × Polls s r
  unfolding poll_completion
  finish_poll s s1 e1 lt st v adv =
      let (r, e, g) = go_on-Polls s1 lt st v in
      (
        r,
        ap (go_on poll ready p) e1 ∙ e,
        record {
          sound = g.sound;
          advances = Advances-trans adv g.advances;
          started = g.started;
          threw = g.threw;
        },
      )

  -- poll_completion on a task that has been started.
  pub poll_completion-Polls :
      (s : Scheduler)
      → p < s.num_records
      → is_started (s.records p).status ≡ true
      → IsSound [] [] s
      → (r : Poll × Scheduler) × (poll_completion poll ready p s ≡ ok r) × Polls s r
  poll_completion-Polls s lt st v =
      finish_poll s s (poll_started s lt st v) lt st v (Advances-refl s)

  -- poll_completion on a task that has left its queue.
  pub poll_completion-start :
      (s : Scheduler)
      → p < s.num_records
      → is_ready_to_start (s.records p).status ≡ true
      → IsSound [] (p ∷ []) s
      → (r : Poll × Scheduler) × (poll_completion poll ready p s ≡ ok r) × Polls s r
  poll_completion-start s lt r v =
      let (v1, adv, run) = start-IsSound p s lt r v in
      finish_poll s (start_if_ready p s) refl (subst (◌<◌ p) (sym adv.number) lt)
        (ground (arith, run)) v1 adv

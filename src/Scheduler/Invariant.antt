-- ===== src/Scheduler/Invariant.antt =====
-- The invariant of the scheduler, between calls and inside them.
use kmm.Prelude.{
  ℕ, ◌+◌, ◌^◌, ◌≤◌, ◌<◌, ◌≡◌, ◌≢◌, sym, ◌∙◌, ap, subst, ◌⊎◌, inl, inr, Bool, true, false, List, [],
  ◌∷◌, if◌then◌else◌, length, All,
}
use kmm.Scheduler.{
  Status, init, TaskRecord, Scheduler, update, has_completed, is_awaiting, is_ready_to_start,
}
use kmm.Scheduler.Counting.{
  sum_below, sum_below-cong, count, is_scheduled, blocks, pending_for, queued, update-cases,
}

abbrev pub is_init : Status → Bool
is_init init = true
is_init _ = false

-- An entry of the map of tasks: a record under its event id that has not completed.
abbrev pub Listed : (ℕ → TaskRecord) → ℕ → ℕ × ℕ → Type 0
Listed f n e = (e.1 < n) × ((f e.1).event_id ≡ e.0) × (has_completed (f e.1).status ≡ false)

pub Listed-update :
    (f : ℕ → TaskRecord) (n p : ℕ) (t : TaskRecord) (tasks : List (ℕ × ℕ))
    → t.event_id ≡ (f p).event_id
    → has_completed t.status ≡ false
    → All (Listed f n) tasks
    → All (Listed (update f p t) n) tasks
Listed-update f n p t [] same h all = tt
Listed-update f n p t ((id, q) ∷ rest) same h all = (
  elim (update-cases f p t q) [
    | inl (e, r) ↦ (
      all.0.0,
      ap (λ (z : TaskRecord). z.event_id) r ∙ same ∙ ap (λ k. (f k).event_id) e ∙ all.0.1,
      ap (λ (z : TaskRecord). has_completed z.status) r ∙ h,
    )
    | inr (_, r) ↦
        subst (λ (z : TaskRecord). (q < n) × (z.event_id ≡ id) × (has_completed z.status ≡ false))
          (sym r) all.0
  ],
  Listed-update f n p t rest same h all.1,
)

-- `debt` holds the successors that have not been told yet, once for each time, and `hand` the
-- records that have left their queue and have not been started.
pub record IsSound (debt hand : List ℕ) (s : Scheduler) : Type 0 where
  pub pending :
      (x : ℕ)
      → x < s.num_records
      → (s.records x).predecessors_pending ≡ pending_for s x + count x debt
  pub settled :
      (x : ℕ)
      → x < s.num_records
      → is_awaiting (s.records x).status ≡ false
      → (s.records x).predecessors_pending ≡ 0
  pub bounded : (x : ℕ) → x < s.num_records → (s.records x).predecessors_pending < 2 ^ 64
  pub queues : (x : ℕ) → x < s.num_records → (s.records x).queue < length s.ready_queues
  pub slots :
      (x : ℕ)
      → x < s.num_records
      → queued x s.ready_queues + count x hand
        ≡ (if is_ready_to_start (s.records x).status then 1 else 0)
  pub known : (x : ℕ) → s.num_records ≤ x → queued x s.ready_queues ≡ 0
  pub live : (x : ℕ) → x < s.num_records → is_init (s.records x).status ≡ false
  pub links :
      (x : ℕ)
      → x < s.num_records
      → All (λ y. (x < y) × (y < s.num_records)) (s.records x).successors
  pub tasks : All (Listed s.records s.num_records) s.tasks

-- What a step that concerns the record `y` has to show: `t` is the new record.
pub record Writes (debt hand debt' hand' : List ℕ) (s : Scheduler) (y : ℕ) (t : TaskRecord)
    (s' : Scheduler) : Type 0 where
  pub records : s'.records ≡ update s.records y t
  pub number : s'.num_records ≡ s.num_records
  pub inside : y < s.num_records
  pub successors : t.successors ≡ (s.records y).successors
  pub queue : t.queue ≡ (s.records y).queue
  pub queue_len : length s'.ready_queues ≡ length s.ready_queues
  pub pending : t.predecessors_pending ≡ pending_for s' y + count y debt'
  pub pending_other :
      (x : ℕ)
      → x < s.num_records
      → y ≢ x
      → pending_for s' x + count x debt' ≡ pending_for s x + count x debt
  pub settled : is_awaiting t.status ≡ false → t.predecessors_pending ≡ 0
  pub bounded : t.predecessors_pending < 2 ^ 64
  pub live : is_init t.status ≡ false
  pub slot :
      queued y s'.ready_queues + count y hand' ≡ (if is_ready_to_start t.status then 1 else 0)
  pub slot_other :
      (x : ℕ)
      → y ≢ x
      → queued x s'.ready_queues + count x hand' ≡ queued x s.ready_queues + count x hand
  pub known : (x : ℕ) → s.num_records ≤ x → queued x s'.ready_queues ≡ queued x s.ready_queues
  pub tasks : All (Listed s'.records s.num_records) s'.tasks

module _ {debt hand debt' hand' : List ℕ} {s : Scheduler} {y : ℕ} {t : TaskRecord} {s' : Scheduler}
    (w : Writes debt hand debt' hand' s y t s') (v : IsSound debt hand s) where
  -- The two cases of a record after the step.
  record_cases : (x : ℕ) → ((y ≡ x) × (s'.records x ≡ t)) ⊎ ((y ≢ x) × (s'.records x ≡ s.records x))
  record_cases x = rw w.records (update-cases s.records y t x)

  -- A property of all records that the new record has too.
  everywhere :
      (P : TaskRecord → ℕ → Type 0)
      → P t y
      → ((x : ℕ) → x < s.num_records → P (s.records x) x)
      → (x : ℕ) → x < s'.num_records
      → P (s'.records x) x
  everywhere P new old x lt = elim (record_cases x) [
    | inl (e, r) ↦ subst (λ z. P z x) (sym r) (subst (P t) e new)
    | inr (_, r) ↦ subst (λ z. P z x) (sym r) (old x (subst (◌<◌ x) w.number lt))
  ]

  pub Writes-IsSound : IsSound debt' hand' s'
  Writes-IsSound = record {
    pending = λ x lt. elim (record_cases x) [
      | inl (e, r) ↦
          ap (λ (z : TaskRecord). z.predecessors_pending) r
          ∙ subst (λ z. t.predecessors_pending ≡ pending_for s' z + count z debt') e w.pending
      | inr (n, r) ↦
          let inside : x < s.num_records = subst (◌<◌ x) w.number lt in
          ap (λ (z : TaskRecord). z.predecessors_pending) r
          ∙ v.pending x inside
          ∙ sym (w.pending_other x inside n)
    ];
    settled =
        everywhere (λ z x. is_awaiting z.status ≡ false → z.predecessors_pending ≡ 0) w.settled
          v.settled;
    bounded = everywhere (λ z x. z.predecessors_pending < 2 ^ 64) w.bounded v.bounded;
    queues =
        everywhere (λ z x. z.queue < length s'.ready_queues)
          (rw (w.queue, w.queue_len) (v.queues y w.inside))
          (λ x lt. rw w.queue_len (v.queues x lt));
    slots = λ x lt. elim (record_cases x) [
      | inl (e, r) ↦
          subst
            (λ (z : TaskRecord).
              queued x s'.ready_queues + count x hand'
              ≡ (if is_ready_to_start z.status then 1 else 0))
            (sym r)
            (subst
              (λ z.
                queued z s'.ready_queues + count z hand'
                ≡ (if is_ready_to_start t.status then 1 else 0))
              e w.slot)
      | inr (n, r) ↦
          w.slot_other x n
          ∙ v.slots x (subst (◌<◌ x) w.number lt)
          ∙ ap (λ (z : TaskRecord). if is_ready_to_start z.status then 1 else 0) (sym r)
    ];
    known = λ x le.
        let out : s.num_records ≤ x = subst (λ k. k ≤ x) w.number le in
        w.known x out ∙ v.known x out;
    live = everywhere (λ z x. is_init z.status ≡ false) w.live v.live;
    links =
        everywhere (λ z x. All (λ y. (x < y) × (y < s'.num_records)) z.successors)
          (rw (w.successors, w.number) (v.links y w.inside)) (λ x lt. rw w.number (v.links x lt));
    tasks = subst (λ n. All (Listed s'.records n) s'.tasks) (sym w.number) w.tasks;
  }

-- A write that leaves the successors and whether they have been told leaves the counts.
pub pending_for-update :
    (s s' : Scheduler) (y : ℕ) (t : TaskRecord)
    → s'.records ≡ update s.records y t
    → s'.num_records ≡ s.num_records
    → t.successors ≡ (s.records y).successors
    → is_scheduled t.status ≡ is_scheduled (s.records y).status
    → (x : ℕ) → pending_for s' x ≡ pending_for s x
pending_for-update s s' y t r n same status x =
    ap (λ k. sum_below k (λ q. blocks x (s'.records q))) n
    ∙ sum_below-cong s.num_records _ _ (λ q lt. elim (update-cases s.records y t q) [
      | inl (e, z) ↦
          ap (λ (f : ℕ → TaskRecord). blocks x (f q)) r
          ∙ ap (blocks x) z
          ∙ cc (same, status)
          ∙ ap (λ k. blocks x (s.records k)) e
      | inr (_, z) ↦ ap (λ (f : ℕ → TaskRecord). blocks x (f q)) r ∙ ap (blocks x) z
    ])

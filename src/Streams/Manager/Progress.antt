-- ===== src/Streams/Manager/Progress.antt =====
-- make_progress_for_stream and make_progress: events complete in order, callbacks run when their
-- event has completed, and what has completed stays so.
use mathlib.Core.List.{Perm, perm_middle, append_assoc}
use native.Mathlib.Decide.{ℕ_discrete}
use mathlib.Core.List.Perm
use kmm.Prelude.{
  ℕ, zero, suc, ◌+◌, ◌≤◌, ◌≡◌, refl, ap, ◌⊎◌, inl, inr, Bool, true, false, some, List, [], ◌∷◌,
  ◌++◌, map, arith, ltb, leb, length, get_elem?, set, keep, All, Option-cases, Bool-cases,
  get_elem?-lt, get_elem?-set_self, get_elem?-set_ne, length-append,
}
use kmm.Prelude.Results.{ok, >>=-success, Result-cases}
use kmm.Streams.Event.{DeviceEvent, stream}
use kmm.Streams.Manager.{
  StreamState, EventPool, StreamManager, QueryResult, success, not_ready, failure, is_ready,
  Drained, drain, fire, store, finish, Outcome, make_progress_for_stream, progress_from,
  make_progress,
}

query-cases :
    (query : ℕ → QueryResult) (g : ℕ)
    → ((query g ≡ success) ⊎ (query g ≡ not_ready)) ⊎ (query g ≡ failure)
query-cases query g = ground arith

module _ (query : ℕ → QueryResult) where
  -- What the polling loop leaves: it takes a run of completed events from the front, counts them,
  -- and gives their handles back to the pool.
  pub record Drains (first : ℕ) (pending pool : List ℕ) (d : Drained) : Type 0 where
    pub taken : List ℕ
    pub split : pending ≡ taken ++ d.pending
    pub counted : d.first ≡ first + length taken
    pub completed : All (λ g. query g ≡ success) taken
    pub conserved : Perm (d.pool ++ d.pending) (pool ++ pending)

  stopped :
      (first : ℕ) (pending pool : List ℕ) (updated failed : Bool)
      → Drains first pending pool (record {
        first = first;
        pending = pending;
        pool = pool;
        updated = updated;
        failed = failed;
      })
  stopped first pending pool updated failed = record {
    taken = [];
    split = refl;
    counted = omega arith;
    completed = tt;
    conserved = Perm.rfl;
  }

  -- The polling loop takes a run of completed events from the front of the pending ones, counts
  -- them, and gives their handles back to the pool, so that no handle is lost.
  pub drain-Drains :
      (first : ℕ) (pending pool : List ℕ) (updated : Bool)
      → Drains first pending pool (drain query first pending pool updated)
  unfolding drain
  drain-Drains first [] pool updated = record {
    taken = [];
    split = refl;
    counted = omega arith;
    completed = tt;
    conserved = Perm.rfl;
  }
  drain-Drains first (g ∷ gs) pool updated = elim (query-cases query g) [
    | inl (inl e) ↦
        let rest = drain-Drains (first + 1) gs (g ∷ pool) true in
        rw (e, drain)
          (record {
            taken = g ∷ rest.taken;
            split = ap (◌∷◌ g) rest.split;
            counted = omega (arith, rest.counted);
            completed = (e, rest.completed);
            conserved = Perm.trans rest.conserved (Perm.symm (perm_middle pool gs));
          })
    | inl (inr e) ↦ rw (e, drain) (stopped first (g ∷ gs) pool updated false)
    | inr e ↦ rw (e, drain) (stopped first (g ∷ gs) pool updated true)
  ]

-- Callbacks stand by index.
abbrev pub IsSorted : ℕ → List (ℕ × ℕ) → Type 0
IsSorted lo [] = Unit {0}
IsSorted lo ((i, h) ∷ rest) = (lo ≤ i) × IsSorted i rest

keep_due-nil :
    (first lo : ℕ) (callbacks : List (ℕ × ℕ))
    → first ≤ lo
    → IsSorted lo callbacks
    → (keep (λ c. ltb c.0 first) callbacks ≡ []) × (keep (λ c. leb first c.0) callbacks ≡ callbacks)
keep_due-nil first lo [] h s = (refl, refl)
keep_due-nil first lo ((i, k) ∷ rest) h s =
    ground (arith, keep_due-nil first i rest (omega arith) s.1)

fire-keep :
    (first lo : ℕ) (callbacks : List (ℕ × ℕ))
    → IsSorted lo callbacks
    → ((fire first callbacks).0 ≡ map (λ c. c.1) (keep (λ c. ltb c.0 first) callbacks))
      × ((fire first callbacks).1 ≡ keep (λ c. leb first c.0) callbacks)
unfolding fire
fire-keep first lo [] s = (refl, refl)
fire-keep first lo ((i, k) ∷ rest) s =
    ground (arith, fire-keep first i rest s.1, keep_due-nil first i rest)

-- Where the callbacks stand by index and no query failed, the end of a call for one stream
-- notifies, in order of their events, the callbacks of exactly the
-- events that have completed by then, and keeps the others.
pub finish_notifies :
    (m : StreamManager) (i lo : ℕ) (s : StreamState) (pool : EventPool) (d : Drained)
    → IsSorted lo s.callbacks_heap
    → d.failed ≡ false
    → ((finish m i s pool d).notified
        ≡ map (λ c. c.1) (keep (λ c. ltb c.0 d.first) s.callbacks_heap))
      × ((finish m i s pool d).manager
          ≡ store m i s pool d (keep (λ c. leb d.first c.0) s.callbacks_heap))
unfolding finish
finish_notifies m i lo s pool d sorted fine =
    let f = fire-keep d.first lo s.callbacks_heap sorted in rw fine (f.0, rw f.1)

-- How a call can change a stream: a run of pending events at the front has completed.
pub record Advances (s t : StreamState) : Type 0 where
  pub taken : List ℕ
  pub split : s.pending_events ≡ taken ++ t.pending_events
  pub counted : t.first_pending_index ≡ s.first_pending_index + length taken

Advances-refl : (s : StreamState) → Advances s s
Advances-refl s = record { taken = []; split = refl; counted = omega arith }

Advances-trans : {s t u : StreamState} → Advances s t → Advances t u → Advances s u
Advances-trans a b = record {
  taken = a.taken ++ b.taken;
  split = cc (a.split, b.split, append_assoc a.taken b.taken _);
  counted = omega (arith, a.counted, b.counted, length-append a.taken b.taken);
}

finish_streams :
    (m : StreamManager) (i : ℕ) (s : StreamState) (pool : EventPool) (d : Drained)
    → (t : StreamState) × ((finish m i s pool d).manager.streams ≡ set m.streams i t)
      × (t.pending_events ≡ d.pending)
      × (t.first_pending_index ≡ d.first)
unfolding finish store
finish_streams m i s pool d = elim (Bool-cases d.failed) [
  | inl e ↦ (after s.callbacks_heap, rw e refl, refl, refl)
  | inr e ↦ (after (fire d.first s.callbacks_heap).1, rw e refl, refl, refl)
]
  where
    after : List (ℕ × ℕ) → StreamState
    after callbacks = record s {
      pending_events = d.pending;
      first_pending_index = d.first;
      callbacks_heap = callbacks;
    }

module _ (query : ℕ → QueryResult) where
  call_inversion :
      (m : StreamManager) (i : ℕ) {o : Outcome}
      → make_progress_for_stream query m i ≡ ok o
      → (s : StreamState) × (pool : EventPool) × (get_elem? m.streams i ≡ some s)
        × (o
            ≡ finish m i s pool
                (drain query s.first_pending_index s.pending_events pool.events false))
  unfolding make_progress_for_stream
  call_inversion m i e = elim (Option-cases (get_elem? m.streams i)) [
    | inl n ↦ absurd (ground (arith, n))
    | inr (s, q) ↦ elim (Option-cases (get_elem? m.event_pools s.pool_index)) [
      | inl n ↦ absurd (ground (arith, q, n))
      | inr (pool, r) ↦ (s, pool, q, ground (arith, q, r))
    ]
  ]

  -- Each stream keeps its place and only advances, also when a query fails.
  pub stream_Advances :
      (m : StreamManager) (i j : ℕ) {o : Outcome} {s : StreamState}
      → make_progress_for_stream query m i ≡ ok o
      → get_elem? m.streams j ≡ some s
      → (t : StreamState) × (get_elem? o.manager.streams j ≡ some t) × Advances s t
  stream_Advances m i j {o} {s} e q =
      let (s0, pool, q0, oe) = call_inversion m i e in
      let d = drain query s0.first_pending_index s0.pending_events pool.events false in
      let (t, streams, pending, first) = finish_streams m i s0 pool d in
      let same : o.manager.streams ≡ set m.streams i t = cc in
      elim (ℕ_discrete i j) [
        | yes ij ↦
            let drains =
              drain-Drains query s0.first_pending_index s0.pending_events pool.events false in
            let ss : s ≡ s0 = ground (arith, q, q0, ij) in
            (
              t,
              rw (same, ← ij) (get_elem?-set_self m.streams i t (get_elem?-lt m.streams i q0)),
              rw ss (record {
                taken = drains.taken;
                split = rw pending drains.split;
                counted = rw first drains.counted;
              }),
            )
        | no ne ↦ (s, rw same (rw (get_elem?-set_ne m.streams i j t ne) q), Advances-refl s)
      ]

  progress_from-Advances :
      (n i j : ℕ) (m : StreamManager) {o : Outcome} {s : StreamState}
      → progress_from query i n m ≡ ok o
      → get_elem? m.streams j ≡ some s
      → (t : StreamState) × (get_elem? o.manager.streams j ≡ some t) × Advances s t
  unfolding progress_from
  progress_from-Advances zero i j m {o} {s} e q = (s, cc, Advances-refl s)
  progress_from-Advances (suc n) i j m {o} {s} e q =
      let (o1, rest, e1) = >>=-success _ (make_progress_for_stream query m i) e in
      let (t, qt, a) = stream_Advances m i j e1 q in
      elim (Bool-cases o1.failed) [
        | inl f ↦ (t, ground (arith, rest, f, qt), a)
        | inr f ↦ elim (Result-cases (progress_from query (suc i) n o1.manager)) [
          | inl (x, bad) ↦ absurd (ground (arith, rest, f, bad))
          | inr (r, er) ↦
              let (u, qu, b) = progress_from-Advances n (suc i) j o1.manager er qt in
              (u, ground (arith, rest, f, er, qu), Advances-trans a b)
        ]
      ]

  -- An event that has completed stays so through any later round of `make_progress`, also through
  -- one that a failing query cuts short.
  pub is_ready_stays :
      (m : StreamManager) (e : DeviceEvent) {o : Outcome}
      → make_progress query m ≡ ok o
      → is_ready m e ≡ ok true
      → is_ready o.manager e ≡ ok true
  unfolding make_progress is_ready
  is_ready_stays m e {o} run ready = elim (Option-cases (get_elem? m.streams (stream e))) [
    | inl n ↦ absurd (ground (arith, n))
    | inr (s, q) ↦
        let (t, qt, a) = progress_from-Advances (length m.streams) 0 (stream e) m run q in
        ground (
          arith,
          q,
          qt,
          a.counted,
          get_elem?-lt m.streams (stream e) q,
          get_elem?-lt o.manager.streams (stream e) qt,
        )
  ]

-- ===== src/Streams/Manager.antt =====
-- DeviceStreamManager of src/runtime/stream_manager.cpp. A GPU event or stream handle of the driver
-- is a number. The driver's answers are arguments: `query` for gpuEventQuery, `created` for the
-- handle that gpuEventCreate or gpuStreamCreateWithPriority would return. Calls that KMM_GPU_CHECK
-- wraps are taken to succeed; only gpuEventQuery may fail. Stream numbers stay below 256.
pub mod Progress
pub mod Record
mod Examples
use kmm.Prelude.{
  ℕ, zero, suc, ◌+◌, ◌-◌, Bool, true, false, ◌||◌, Option, none, some, List, [], ◌∷◌, ◌++◌, ltb,
  leb, ◌==◌, if◌then◌else◌, length, get_elem?, set,
}
use kmm.Prelude.Results.{Error, gpu_failure, out_of_range, Result, ok, err, ◌>>=◌, ◌>>◌, kmm_assert}
use kmm.Streams.Event.{DeviceEvent, device_event, stream, index}
use kmm.Streams.EventSet.{DeviceEventSet}

-- The callbacks stand by event index, smallest first, which is what the priority queue gives out.
-- Those of one index keep their order here; the queue promises none.
pub record StreamState : Type 0 where
  pub pool_index : ℕ
  pub context : ℕ
  pub gpu_stream : ℕ
  pub delete_stream_on_exit : Bool
  pub pending_events : List ℕ
  pub first_pending_index : ℕ
  pub callbacks_heap : List (ℕ × ℕ)

pub record EventPool : Type 0 where
  pub context : ℕ
  pub events : List ℕ

pub record StreamManager : Type 0 where
  pub streams : List StreamState
  pub event_pools : List EventPool

pub data QueryResult : Type 0 where
  success not_ready failure : QueryResult

-- A vector's operator[]; out of range it is undefined, and an error here.
abbrev pub at {ℓ} : {A : Type ℓ} → List A → ℕ → Result A
at xs i = elim (get_elem? xs i) [ none ↦ err out_of_range | some x ↦ ok x ]

-- EventPool::pop takes the last event. The head of `events` is the back of the vector.
pub pop_event : List ℕ → ℕ → ℕ × List ℕ
pop_event [] created = (created, [])
pop_event (e ∷ es) created = (e, es)

-- The loop of find_pool_for_context: the last pool of the context.
pub find_pool : ℕ → ℕ → Option ℕ → List EventPool → Option ℕ
find_pool context i found [] = found
find_pool context i found (p ∷ ps) =
    find_pool context (suc i) (if p.context == context then some i else found) ps

pub find_pool_for_context : ℕ → List EventPool → ℕ × List EventPool
unfolding find_pool
find_pool_for_context context pools = elim (find_pool context 0 none pools) [
  | some i ↦ (i, pools)
  | none ↦ (length pools, pools ++ record { context = context; events = [] } ∷ [])
]

add_stream : StreamManager → ℕ → ℕ → Bool → StreamManager × ℕ
unfolding find_pool_for_context
add_stream m context gpu_stream delete_on_exit =
    let (pool_index, pools) = find_pool_for_context context m.event_pools in
    (
      record {
        streams =
            m.streams
            ++ record {
              pool_index = pool_index;
              context = context;
              gpu_stream = gpu_stream;
              delete_stream_on_exit = delete_on_exit;
              pending_events = [];
              first_pending_index = 1;
              callbacks_heap = [];
            }
              ∷ [];
        event_pools = pools;
      },
      length m.streams,
    )

unfoldable pub create_stream : StreamManager → ℕ → ℕ → StreamManager × ℕ
unfolding add_stream
create_stream m context created = add_stream m context created true

find_gpu_stream : ℕ → ℕ → List StreamState → Option (ℕ × StreamState)
find_gpu_stream gpu_stream i [] = none
find_gpu_stream gpu_stream i (s ∷ ss) =
    if s.gpu_stream == gpu_stream then some (i, s) else find_gpu_stream gpu_stream (suc i) ss

unfoldable pub get_or_add_stream : StreamManager → ℕ → ℕ → Result (StreamManager × ℕ)
unfolding find_gpu_stream add_stream
get_or_add_stream m context gpu_stream = elim (find_gpu_stream gpu_stream 0 m.streams) [
  | some (i, s) ↦ kmm_assert (s.context == context) >> ok (m, i)
  | none ↦ ok (add_stream m context gpu_stream false)
]

-- is_ready(DeviceEvent), with its assertion on the stream number.
unfoldable pub is_ready : StreamManager → DeviceEvent → Result Bool
is_ready m e = do
  kmm_assert (ltb (stream e) (length m.streams))
  s ← at m.streams (stream e)
  ok (ltb (index e) s.first_pending_index)

-- The handle that stands for an event which has not completed; `none` if it has.
unfoldable pub gpu_event_of : StreamState → ℕ → Result (Option ℕ)
gpu_event_of s i =
    if ltb i s.first_pending_index
    then ok none
    else (at s.pending_events (i - s.first_pending_index) >>= λ g. ok (some g))

-- wait_for_event: the handle that the stream is made to wait for, if any.
unfoldable pub wait_for_event : StreamManager → ℕ → DeviceEvent → Result (Option ℕ)
unfolding gpu_event_of
wait_for_event m dst e = do
  kmm_assert (ltb (stream e) (length m.streams))
  kmm_assert (ltb dst (length m.streams))
  src ← at m.streams (stream e)
  if stream e == dst then ok none else gpu_event_of src (index e)

unfoldable pub record_event : StreamManager → ℕ → ℕ → Result (DeviceEvent × StreamManager)
unfolding pop_event
record_event m stream_id created = do
  kmm_assert (ltb stream_id (length m.streams))
  s ← at m.streams stream_id
  event ← device_event stream_id (s.first_pending_index + length s.pending_events)
  pool ← at m.event_pools s.pool_index
  let popped = pop_event pool.events created
  ok (
    event,
    record {
      streams =
          set m.streams stream_id (record s { pending_events = s.pending_events ++ popped.0 ∷ [] });
      event_pools = set m.event_pools s.pool_index (record pool { events = popped.1 });
    },
  )

pub push_callback : ℕ → ℕ → List (ℕ × ℕ) → List (ℕ × ℕ)
push_callback i handle [] = (i, handle) ∷ []
push_callback i handle ((j, h) ∷ rest) =
    if ltb i j then (i, handle) ∷ (j, h) ∷ rest else (j, h) ∷ push_callback i handle rest

unfoldable pub attach_callback : StreamManager → DeviceEvent → ℕ → Result StreamManager
unfolding push_callback
attach_callback m e handle = do
  kmm_assert (ltb (stream e) (length m.streams))
  s ← at m.streams (stream e)
  ok (record m {
    streams =
        set m.streams (stream e)
          (record s { callbacks_heap = push_callback (index e) handle s.callbacks_heap });
  })

-- What the polling loop of make_progress_for_stream has done when it stops. `pool` is the pool's
-- events, newest first.
pub record Drained : Type 0 where
  pub first : ℕ
  pub pending : List ℕ
  pub pool : List ℕ
  pub updated : Bool
  pub failed : Bool

pub drain : (ℕ → QueryResult) → ℕ → List ℕ → List ℕ → Bool → Drained
drain query first [] pool updated = record {
  first = first;
  pending = [];
  pool = pool;
  updated = updated;
  failed = false;
}
drain query first (g ∷ gs) pool updated = elim (query g) [
  | success ↦ drain query (first + 1) gs (g ∷ pool) true
  | not_ready ↦ record {
    first = first;
    pending = g ∷ gs;
    pool = pool;
    updated = updated;
    failed = false;
  }
  | failure ↦ record {
    first = first;
    pending = g ∷ gs;
    pool = pool;
    updated = updated;
    failed = true;
  }
]

-- The callback loop: the handles that are notified, in order, and the callbacks left.
pub fire : ℕ → List (ℕ × ℕ) → List ℕ × List (ℕ × ℕ)
fire first [] = ([], [])
fire first ((i, h) ∷ rest) =
    let (fired, left) = fire first rest in
    if leb first i then ([], (i, h) ∷ rest) else (h ∷ fired, left)

pub record Outcome : Type 0 where
  pub manager : StreamManager
  pub notified : List ℕ
  pub updated : Bool
  pub failed : Bool

-- The stream and its pool after the loops.
pub store : StreamManager → ℕ → StreamState → EventPool → Drained → List (ℕ × ℕ) → StreamManager
store m i s pool d callbacks = record {
  streams = set m.streams i (record s {
    pending_events = d.pending;
    first_pending_index = d.first;
    callbacks_heap = callbacks;
  });
  event_pools = set m.event_pools s.pool_index (record pool { events = d.pool });
}

-- When a query fails its exception leaves the callbacks alone.
pub finish : StreamManager → ℕ → StreamState → EventPool → Drained → Outcome
unfolding store fire
finish m i s pool d =
    if d.failed
    then record {
      manager = store m i s pool d s.callbacks_heap;
      notified = [];
      updated = d.updated;
      failed = true;
    }
    else record {
      manager = store m i s pool d (fire d.first s.callbacks_heap).1;
      notified = (fire d.first s.callbacks_heap).0;
      updated = d.updated || ltb 0 (length (fire d.first s.callbacks_heap).0);
      failed = false;
    }

unfoldable pub make_progress_for_stream : (ℕ → QueryResult) → StreamManager → ℕ → Result Outcome
unfolding drain finish
make_progress_for_stream query m i = do
  s ← at m.streams i
  pool ← at m.event_pools s.pool_index
  ok (finish m i s pool (drain query s.first_pending_index s.pending_events pool.events false))

-- The loop of make_progress from stream `i` on, for `n` more streams; an exception ends it.
pub progress_from : (ℕ → QueryResult) → ℕ → ℕ → StreamManager → Result Outcome
progress_from query i zero m =
    ok (record { manager = m; notified = []; updated = false; failed = false })
progress_from query i (suc n) m = make_progress_for_stream query m i >>= λ o. elim o.failed [
  | true ↦ ok o
  | false ↦ progress_from query (suc i) n o.manager >>= λ r.
      ok (record r { notified = o.notified ++ r.notified; updated = o.updated || r.updated })
]

unfoldable pub make_progress : (ℕ → QueryResult) → StreamManager → Result Outcome
unfolding progress_from
make_progress query m = progress_from query 0 (length m.streams) m

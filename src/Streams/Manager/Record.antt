-- ===== src/Streams/Manager/Record.antt =====
-- record_event and wait_for_event: a new event stands for its own GPU event until it has completed.

use kmm.Prelude.{
  ℕ, ◌+◌, ◌-◌, ◌≤◌, ◌<◌, ◌≡◌, ◌≢◌, refl, ◌⊎◌, inl, inr, false, none, some, List, [], ◌∷◌, ◌++◌,
  arith, ltb, length, get_elem?, set, Bool-cases, get_elem?-lt, get_elem?-set_self,
  get_elem?-append_right, length-set,
}
use kmm.Prelude.Results.{ok}
use kmm.Streams.Event.{DeviceEvent, stream, index, max_index, device_event_fields}
use kmm.Streams.Manager.{
  StreamState, EventPool, StreamManager, is_ready, gpu_event_of, wait_for_event, record_event,
  pop_event,
}
use kmm.Streams.Manager.Progress.{Advances}

get_elem?-snoc {ℓ} :
    {A : Type ℓ} (xs : List A) (x : A) → get_elem? (xs ++ x ∷ []) (length xs) ≡ some x
get_elem?-snoc [] x = refl
get_elem?-snoc (y ∷ xs) x = get_elem?-snoc xs x

-- On a stream below 256 whose indices fit, a recorded event carries its stream and the next index
-- there, has not completed, and every other
-- stream of the manager that waits for it is made to wait for the GPU event taken from the pool.
pub record_event_lem :
    (m : StreamManager) (i dst created : ℕ) (s : StreamState) (pool : EventPool)
    → get_elem? m.streams i ≡ some s
    → get_elem? m.event_pools s.pool_index ≡ some pool
    → i < 256
    → s.first_pending_index + length s.pending_events < max_index
    → dst < length m.streams
    → dst ≢ i
    → (e : DeviceEvent) × (m' : StreamManager) × (record_event m i created ≡ ok (e, m'))
      × (stream e ≡ i)
      × (index e ≡ s.first_pending_index + length s.pending_events)
      × (is_ready m' e ≡ ok false)
      × (wait_for_event m' dst e ≡ ok (some (pop_event pool.events created).0))
unfolding record_event is_ready wait_for_event gpu_event_of
record_event_lem m i dst created s pool q qp hi hx hd ne =
    let (e, made, se, ie) = device_event_fields i _ hi hx in
    let popped : ℕ × List ℕ = pop_event pool.events created in
    let t : StreamState = record s { pending_events = s.pending_events ++ popped.0 ∷ [] } in
    let pools : List EventPool =
      set m.event_pools s.pool_index (record pool { events = popped.1 }) in
    let m' : StreamManager = record { streams = set m.streams i t; event_pools = pools } in
    let lt = get_elem?-lt m.streams i q in
    let got : get_elem? m'.streams i ≡ some t = get_elem?-set_self m.streams i t lt in
    let len : length m'.streams ≡ length m.streams = length-set m.streams i t in
    let last = get_elem?-snoc s.pending_events popped.0 in
    let offset : index e - s.first_pending_index ≡ length s.pending_events = omega arith in
    (
      e,
      m',
      ground (arith, lt, q, qp, made),
      se,
      ie,
      ground (arith, se, ie, got, len, lt),
      ground (arith, se, ie, got, len, lt, last, offset),
    )

-- The handle of an event stays the same, until the event has completed, however its stream advances.
pub gpu_event_stays :
    (s t : StreamState) (k g : ℕ)
    → Advances s t
    → gpu_event_of s k ≡ ok (some g)
    → (gpu_event_of t k ≡ ok none) ⊎ (gpu_event_of t k ≡ ok (some g))
unfolding gpu_event_of
gpu_event_stays s t k g a e = elim (Bool-cases (ltb k t.first_pending_index)) [
  | inl done ↦ inl (rw done)
  | inr not_yet ↦
      let reached : t.first_pending_index ≤ k = ground (arith, not_yet) in
      let offset : k - s.first_pending_index ≡ length a.taken + (k - t.first_pending_index) =
        omega (arith, a.counted) in
      let found = get_elem?-append_right a.taken t.pending_events (k - t.first_pending_index) in
      let same : get_elem? s.pending_events (k - s.first_pending_index)
          ≡ get_elem? t.pending_events (k - t.first_pending_index) =
        rw (a.split, offset) found in
      let old : ltb k s.first_pending_index ≡ false = ground (arith, a.counted) in
      inr (ground (arith, same, old, not_yet, e))
]

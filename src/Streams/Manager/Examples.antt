-- ===== src/Streams/Manager/Examples.antt =====
-- The stream manager at concrete inputs.
use kmm.Prelude.{
  ℕ, ◌+◌, ◌≡◌, refl, true, false, some, [], ◌∷◌, map, arith, ltb, leb, if◌then◌else◌, keep, length,
}
use kmm.Prelude.Results.{ok}
use kmm.Streams.Event.{DeviceEvent, stream, index}
use kmm.Streams.Manager.{
  StreamState, EventPool, StreamManager, QueryResult, success, not_ready, Drained, drain, fire,
  store, finish, Outcome, make_progress, make_progress_for_stream, progress_from, is_ready,
  record_event, wait_for_event, pop_event, gpu_event_of,
}
use kmm.Streams.Manager.Progress.{Drains, drain-Drains, finish_notifies, is_ready_stays}
use kmm.Streams.Manager.Record.{record_event_lem}

abbrev query : ℕ → QueryResult
query g = if ltb g 3 then success else not_ready

drain-Drains_example :
    Drains query 1 (2 ∷ 7 ∷ []) (4 ∷ []) (drain query 1 (2 ∷ 7 ∷ []) (4 ∷ []) false)
drain-Drains_example = drain-Drains query 1 (2 ∷ 7 ∷ []) (4 ∷ []) false

abbrev working : StreamState
working = record {
  pool_index = 0;
  context = 0;
  gpu_stream = 11;
  delete_stream_on_exit = true;
  pending_events = 2 ∷ 7 ∷ [];
  first_pending_index = 2;
  callbacks_heap = (2, 10) ∷ (3, 20) ∷ [];
}

abbrev idle : StreamState
idle = record working { pending_events = []; callbacks_heap = [] }

abbrev pool : EventPool
pool = record { context = 0; events = 4 ∷ [] }

abbrev manager : StreamManager
manager = record { streams = working ∷ idle ∷ []; event_pools = pool ∷ [] }

abbrev drained : Drained
drained = record { first = 3; pending = 7 ∷ []; pool = 2 ∷ 4 ∷ []; updated = true; failed = false }

finish_notifies_example :
    ((finish manager 0 working pool drained).notified
      ≡ map (λ c. c.1) (keep (λ c. ltb c.0 3) working.callbacks_heap))
    × ((finish manager 0 working pool drained).manager
        ≡ store manager 0 working pool drained (keep (λ c. leb 3 c.0) working.callbacks_heap))
finish_notifies_example =
    finish_notifies manager 0 2 working pool drained (omega arith, (omega arith, tt)) refl

-- The manager after a round of progress: event 2 of stream 0 has completed.
abbrev progressed : Outcome
progressed = record {
  manager = record {
    streams =
        record working {
          pending_events = 7 ∷ [];
          first_pending_index = 3;
          callbacks_heap = (3, 20) ∷ [];
        }
        ∷ idle
        ∷ [];
    event_pools = record pool { events = 2 ∷ 4 ∷ [] } ∷ [];
  };
  notified = 10 ∷ [];
  updated = true;
  failed = false;
}

progress_runs : make_progress query manager ≡ ok progressed
unfolding make_progress progress_from make_progress_for_stream drain fire finish store
progress_runs = refl

one_is_ready : is_ready manager 1 ≡ ok true
unfolding is_ready stream index
one_is_ready = refl

is_ready_stays_example : is_ready progressed.manager 1 ≡ ok true
is_ready_stays_example = is_ready_stays query manager 1 progress_runs one_is_ready

record_event_lem_example :
    (e : DeviceEvent) × (m' : StreamManager) × (record_event manager 0 8 ≡ ok (e, m'))
    × (stream e ≡ 0)
    × (index e ≡ working.first_pending_index + length working.pending_events)
    × (is_ready m' e ≡ ok false)
    × (wait_for_event m' 1 e ≡ ok (some 4))
unfolding pop_event
record_event_lem_example =
    record_event_lem manager 0 1 8 working pool refl refl (omega arith) (omega arith) (omega arith)
      (omega arith)

abbrev advanced : StreamState
advanced = record working { pending_events = 7 ∷ []; first_pending_index = 3 }

pending_seven : gpu_event_of working 3 ≡ ok (some 7)
unfolding gpu_event_of
pending_seven = refl

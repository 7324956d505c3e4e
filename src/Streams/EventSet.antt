-- ===== src/Streams/EventSet.antt =====
-- DeviceEventSet of src/runtime/stream_manager.cpp. A set is the list of its events; the small
-- vector that holds them grows without bound here, so its push never fails.
pub mod Readiness
pub mod Removal
use kmm.Prelude.{
  ℕ, zero, suc, ◌-◌, Bool, true, false, not, Option, none, some, List, [], ◌∷◌, ◌++◌, ◌==◌, ltb,
  if◌then◌else◌, length, get_elem?, set, take, keep, all,
}
use kmm.Streams.Event.{DeviceEvent, is_null, stream, max_event}

abbrev pub DeviceEventSet : Type 0
DeviceEventSet = List DeviceEvent

-- The search loop of both `insert` methods: the position of the last event on stream `s`.
pub find_stream : ℕ → ℕ → Option ℕ → DeviceEventSet → Option ℕ
find_stream s i found [] = found
find_stream s i found (x ∷ xs) = find_stream s (suc i) (if stream x == s then some i else found) xs

-- What both methods do with the position: raise that event, or push a new one.
pub put : Option ℕ → DeviceEvent → DeviceEventSet → DeviceEventSet
put none e es = es ++ e ∷ []
put (some i) e es = elim (get_elem? es i) [ none ↦ es | some old ↦ set es i (max_event old e) ]

-- insert(DeviceEvent).
unfoldable pub insert : DeviceEvent → DeviceEventSet → DeviceEventSet
unfolding find_stream put is_null
insert e es = if is_null e then es else put (find_stream (stream e) 0 none es) e es

-- insert(const DeviceEventSet&): only the first `num_old_events` places are searched.
pub insert_from : ℕ → DeviceEventSet → DeviceEventSet → DeviceEventSet
unfolding find_stream put
insert_from num_old_events [] es = es
insert_from num_old_events (e ∷ that) es =
    insert_from num_old_events that
      (put (find_stream (stream e) 0 none (take num_old_events es)) e es)

unfoldable pub insert_all : DeviceEventSet → DeviceEventSet → DeviceEventSet
unfolding insert_from
insert_all that es = insert_from (length es) that es

-- insert(DeviceEventSet&&): the larger set is kept, the smaller one is inserted.
unfoldable pub insert_move : DeviceEventSet → DeviceEventSet → DeviceEventSet
unfolding insert_all
insert_move that es =
    if ltb (length es) (length that) then insert_all es that else insert_all that es

-- operator|.
unfoldable pub union : DeviceEventSet → DeviceEventSet → DeviceEventSet
unfolding insert_all
union a b = insert_all b a

-- remove_ready: compacts the vector in place to the events that are not ready, in their order.
unfoldable pub remove_ready : (DeviceEvent → Bool) → DeviceEventSet → DeviceEventSet × Bool
remove_ready ready es = let left = keep (λ e. not (ready e)) es in (left, ltb 0 (length left))

-- remove_ready_trailing, with the loop's `new_size` as first argument.
pub trailing : ℕ → (DeviceEvent → Bool) → DeviceEventSet → DeviceEventSet × Bool
trailing zero ready es = ([], true)
trailing (suc n) ready es = elim (get_elem? es n) [
  | none ↦ trailing n ready es
  | some e ↦ elim (ready e) [ true ↦ trailing n ready es | false ↦ (take (suc n) es, false) ]
]

unfoldable pub remove_ready_trailing : (DeviceEvent → Bool) → DeviceEventSet → DeviceEventSet × Bool
unfolding trailing
remove_ready_trailing ready es = trailing (length es) ready es

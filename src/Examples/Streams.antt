-- ===== src/Examples/Streams.antt =====
-- Examples for src/runtime/stream_manager.cpp.
use kmm.Prelude.{ℕ, ◌+◌, ◌<◌, ◌≡◌, ◌↔◌, ◌⊎◌, Bool, true, not, ◌&&◌, [], ◌∷◌, arith, ltb, all}
use kmm.Prelude.Results.{ok}
use kmm.Streams.Event.{
  DeviceEvent, max_index, device_event, stream, index, device_event_fields, event_order,
}
use kmm.Streams.EventSet.{insert, insert_move, union, remove_ready, remove_ready_trailing}
use kmm.Streams.EventSet.Readiness.{ready_at, ready-insert, ready-union}
use kmm.Streams.EventSet.Removal.{remove_ready_flag, removal_keeps}

device_event_fields_example :
    (e : DeviceEvent) × (device_event 3 7 ≡ ok e) × (stream e ≡ 3) × (index e ≡ 7)
device_event_fields_example = device_event_fields 3 7 (omega arith) (omega arith)

event_order_example : (9 < 5 + max_index) ↔ (
    (stream 9 < stream (5 + max_index))
    ⊎ ((stream 9 ≡ stream (5 + max_index)) × (index 9 < index (5 + max_index))))
event_order_example = event_order 9 (5 + max_index) (omega arith) (omega arith)

-- Every stream has completed its events 1 and 2.
abbrev first_three : ℕ → ℕ
first_three s = 3

ready-insert_example :
    all (ready_at first_three) (insert 5 (2 ∷ []))
    ≡ (ready_at first_three 5 && all (ready_at first_three) (2 ∷ []))
ready-insert_example =
    ready-insert first_three 5 (2 ∷ []) (omega arith) (omega arith, tt) (omega arith)

ready-union_example :
    (all (ready_at first_three) (union (2 ∷ []) (5 ∷ []))
      ≡ (all (ready_at first_three) (2 ∷ []) && all (ready_at first_three) (5 ∷ [])))
    × (all (ready_at first_three) (insert_move (5 ∷ []) (2 ∷ []))
        ≡ (all (ready_at first_three) (2 ∷ []) && all (ready_at first_three) (5 ∷ [])))
ready-union_example = ready-union first_three (2 ∷ []) (5 ∷ []) (omega arith, tt) (omega arith, tt)

abbrev below_four : DeviceEvent → Bool
below_four e = ltb e 4

abbrev below_nine : DeviceEvent → Bool
below_nine e = ltb e 9

remove_ready_flag_example :
    (remove_ready below_four (2 ∷ 5 ∷ [])).1 ≡ not (all below_four (2 ∷ 5 ∷ []))
remove_ready_flag_example = remove_ready_flag below_four (2 ∷ 5 ∷ [])

below_grows : (e : DeviceEvent) → below_four e ≡ true → below_nine e ≡ true
below_grows e h = ground (arith, h)

removal_keeps_example :
    (all below_nine (remove_ready below_four (2 ∷ 5 ∷ [])).0 ≡ all below_nine (2 ∷ 5 ∷ []))
    × (all below_nine (remove_ready_trailing below_four (2 ∷ 5 ∷ [])).0
        ≡ all below_nine (2 ∷ 5 ∷ []))
    × ((remove_ready_trailing below_four (2 ∷ 5 ∷ [])).1 ≡ all below_four (2 ∷ 5 ∷ []))
removal_keeps_example = removal_keeps below_four below_nine below_grows (2 ∷ 5 ∷ [])

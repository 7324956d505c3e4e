-- ===== src/Memory/AccessQueue/Examples.antt =====
-- The access queue at concrete inputs.
use kmm.Prelude.{◌≡◌, ◌⊎◌, refl, true, false, [], ◌∷◌}
use kmm.Identifiers.{host_type, host, device, memory_eq, SameMemory}
use kmm.Memory.Types.{read, read_write, is_writer, is_exclusive}
use kmm.Memory.AccessQueue.{
  AccessRequest, AccessQueue, add_to_access_queue, allowed_beside, is_access_allowed, poll_pending,
  poll_access_queue, add, poll, call, run, empty_queue,
}
use kmm.Memory.AccessQueue.Grants.{granted_pair, granted_apart, poll_access_queue-Polled, Polled}

-- A reader on the host, one on device 2 and a writer there.
abbrev reader : AccessRequest
reader = record { identifier = 1; memory_id = host; mode = read }

abbrev far : AccessRequest
far = record { identifier = 2; memory_id = device 2; mode = read }

abbrev writer : AccessRequest
writer = record { identifier = 3; memory_id = device 2; mode = read_write }

abbrev waiting : AccessQueue
waiting = record { granted = reader ∷ []; pending = far ∷ writer ∷ []; num_requests_active = 3 }

poll_access_queue-Polled_example :
    Polled (reader ∷ []) (far ∷ writer ∷ []) (poll_access_queue waiting)
poll_access_queue-Polled_example = poll_access_queue-Polled waiting (tt, tt)

granted_pair_example :
    (is_exclusive reader.mode ≡ false)
    × (is_exclusive far.mode ≡ false)
    × ((is_writer reader.mode ≡ false) × (is_writer far.mode ≡ false)
        ⊎ (memory_eq far.memory_id reader.memory_id ≡ true))
unfolding run call add_to_access_queue poll_access_queue poll_pending is_access_allowed
    allowed_beside memory_eq
granted_pair_example =
    granted_pair (add reader ∷ add far ∷ add writer ∷ poll ∷ []) [] [] [] reader far refl

granted_apart_example :
    let a : AccessRequest = record {
      identifier = 1;
      memory_id = record { type = host_type; value = 2 };
      mode = read_write;
    } in
    let b : AccessRequest = record { identifier = 3; memory_id = device 2; mode = read_write } in
    ((run (add a ∷ add b ∷ poll ∷ []) empty_queue).granted ≡ a ∷ b ∷ [])
    × (SameMemory a.memory_id b.memory_id → ⊥)
granted_apart_example = granted_apart 2 1 3

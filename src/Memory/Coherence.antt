-- ===== src/Memory/Coherence.antt =====
-- The copies of one buffer: copy_h2d, copy_d2h, copy_d2d, allocate_host, make_entry_valid,
-- make_entry_exclusive, prepare_access_to_buffer and finalize_access_to_buffer of
-- src/runtime/memory_manager.cpp.
pub mod Keeps
pub mod Transfer
pub mod Prepare
use kmm.Prelude.{
  ℕ, zero, suc, ◌+◌, Bool, true, false, not, ◌&&◌, Option, none, some, List, [], ◌∷◌, ◌==◌,
  if◌then◌else◌,
}
use kmm.Prelude.Results.{Result, ok, err, ◌>>=◌, ◌>>◌, kmm_assert, out_of_host_memory}
use kmm.Streams.Event.{DeviceEvent}
use kmm.Streams.EventSet.{DeviceEventSet, insert, insert_all, union}
use kmm.Identifiers.{MemoryId, is_host, memory_eq, host, device, max_devices}
use kmm.Memory.Types.{
  AccessMode, is_writer, is_exclusive, Place, on_host, on_device, place, BufferEntry, Entries,
  entry, set_entry, Command, copy, allocate, MemorySystem,
}

-- What an access changes: the buffer, the commands given to the memory system (newest first), and
-- the events that the caller has to wait for.
pub record AccessState : Type 0 where
  pub buffer : Entries
  pub log : List Command
  pub deps_out : DeviceEventSet

abbrev pub add_deps : DeviceEventSet → AccessState → AccessState
add_deps events c = record c { deps_out = insert_all events c.deps_out }

module _ (memory : MemorySystem) where
  -- The effect of copy_h2d and copy_d2d: the target's events are replaced by that of the copy.
  pub copied_to_device : Place → ℕ → AccessState → AccessState
  copied_to_device src dst c =
      let b = c.buffer in
      let from = entry b src in
      let to = entry b (on_device dst) in
      let deps = union to.access_events from.write_events in
      let log = copy src (on_device dst) from.address to.address b.size_in_bytes deps ∷ c.log in
      let event = memory.copy_event log in
      record c {
        buffer =
            set_entry
              (set_entry b src (record from { access_events = insert event from.access_events }))
              (on_device dst)
              (record to {
                epoch_event = event ∷ [];
                access_events = event ∷ [];
                write_events = event ∷ [];
                is_valid = true;
              });
        log = log;
      }

  -- copy_h2d and copy_d2d. The result's first part is the event of the copy.
  pub copy_to_device : Place → ℕ → AccessState → Result (DeviceEvent × AccessState)
  unfolding copied_to_device
  copy_to_device src dst c = do
    let from = entry c.buffer src
    let to = entry c.buffer (on_device dst)
    kmm_assert (from.is_allocated && to.is_allocated)
    kmm_assert (from.is_valid && not to.is_valid)
    let d = copied_to_device src dst c
    ok (memory.copy_event d.log, d)

  -- The effect of copy_d2h: the host's events are extended by that of the copy.
  pub copied_to_host : ℕ → AccessState → AccessState
  copied_to_host src c =
      let b = c.buffer in
      let from = entry b (on_device src) in
      let to = entry b on_host in
      let deps = union from.write_events to.access_events in
      let log = copy (on_device src) on_host from.address to.address b.size_in_bytes deps ∷ c.log in
      let event = memory.copy_event log in
      record c {
        buffer =
            set_entry
              (set_entry b (on_device src)
                (record from { access_events = insert event from.access_events }))
              on_host
              (record to {
                epoch_event = insert event to.epoch_event;
                access_events = insert event to.access_events;
                write_events = insert event to.write_events;
                is_valid = true;
              });
        log = log;
      }

  pub copy_to_host : ℕ → AccessState → Result (DeviceEvent × AccessState)
  unfolding copied_to_host
  copy_to_host src c = do
    let from = entry c.buffer (on_device src)
    let to = entry c.buffer on_host
    kmm_assert (to.is_allocated && from.is_allocated)
    kmm_assert (not to.is_valid && from.is_valid)
    let d = copied_to_host src c
    ok (memory.copy_event d.log, d)

  -- A copy whose event the caller has to wait for.
  pub and_wait : Result (DeviceEvent × AccessState) → Result AccessState
  and_wait (ok (event, c)) = ok (record c { deps_out = insert event c.deps_out })
  and_wait (err e) = err e

  pub host_allocated : ℕ → DeviceEventSet → List Command → AccessState → AccessState
  host_allocated address events log c = record c {
    buffer = set_entry c.buffer on_host (record (c.buffer.host_entry) {
      address = address;
      is_allocated = true;
      is_valid = false;
      epoch_event = events;
      access_events = events;
      write_events = events;
    });
    log = log;
  }

  pub allocate_host : AccessState → Result AccessState
  unfolding host_allocated
  allocate_host c = do
    kmm_assert (not c.buffer.host_entry.is_allocated)
    kmm_assert (c.buffer.host_entry.num_allocation_locks == 0)
    let log = allocate on_host c.buffer.size_in_bytes ∷ c.log
    elim (memory.allocate_at log) [
      | none ↦ err out_of_host_memory
      | some (address, events) ↦ ok (host_allocated address events log c)
    ]

  -- The loop of find_valid_device_entry from device `i` on, with `n` devices left.
  pub find_valid_from : ℕ → ℕ → Entries → Option ℕ
  find_valid_from i zero b = none
  find_valid_from i (suc n) b =
      if (b.device_entry i).is_valid then some i else find_valid_from (i + 1) n b

  pub find_valid_device_entry : Entries → Option ℕ
  unfolding find_valid_from
  find_valid_device_entry b = find_valid_from 0 max_devices b

  -- The end of make_entry_valid, where no other copy is valid: the contents are not defined yet.
  pub declare_valid : Place → AccessState → AccessState
  declare_valid p c = record c {
    buffer = set_entry c.buffer p (record (entry c.buffer p) { is_valid = true });
  }

  -- The copy from one device to another, by way of the host if need be.
  pub device_to_device : ℕ → ℕ → AccessState → Result AccessState
  unfolding copy_to_device copy_to_host and_wait allocate_host
  device_to_device src dst c =
      if memory.is_copy_supported src dst
      then and_wait (copy_to_device (on_device src) dst c)
      else ((if c.buffer.host_entry.is_allocated then ok c else allocate_host c) >>= λ c1.
          and_wait (copy_to_host src c1) >>= λ c2. and_wait (copy_to_device on_host dst c2))

  pub fetch : Place → AccessState → Result AccessState
  unfolding copy_to_device copy_to_host and_wait device_to_device find_valid_device_entry
      declare_valid
  fetch on_host c = elim (find_valid_device_entry c.buffer) [
    | some src ↦ and_wait (copy_to_host src c)
    | none ↦ ok (declare_valid on_host c)
  ]
  fetch (on_device dst) c =
      if c.buffer.host_entry.is_valid
      then and_wait (copy_to_device on_host dst c)
      else elim (find_valid_device_entry c.buffer) [
        | some src ↦ device_to_device src dst c
        | none ↦ ok (declare_valid (on_device dst) c)
      ]

  unfoldable pub make_entry_valid : MemoryId → AccessState → Result AccessState
  unfolding fetch
  make_entry_valid m c = do
    let e = entry c.buffer (place m)
    kmm_assert e.is_allocated
    let c1 = add_deps e.epoch_event c
    if e.is_valid then ok c1 else fetch (place m) c1

  -- Invalidates one entry; the caller waits for all accesses to it.
  pub invalidate : Place → AccessState → AccessState
  invalidate p c =
      let e = entry c.buffer p in
      add_deps e.access_events
        (record c { buffer = set_entry c.buffer p (record e { is_valid = false }) })

  -- The loop over the other devices from device `i` on, with `n` devices left.
  pub invalidate_others : MemoryId → ℕ → ℕ → AccessState → AccessState
  unfolding invalidate
  invalidate_others m i zero c = c
  invalidate_others m i (suc n) c =
      invalidate_others m (i + 1) n
        (if memory_eq m (device i) then c else invalidate (on_device i) c)

  unfoldable pub make_entry_exclusive : MemoryId → AccessState → Result AccessState
  unfolding invalidate_others make_entry_valid
  make_entry_exclusive m c = do
    c1 ← make_entry_valid m c
    let c2 = if memory_eq m host then c1 else invalidate on_host c1
    ok (invalidate_others m 0 max_devices c2)

  unfoldable pub prepare_access_to_buffer : MemoryId → AccessMode → AccessState → Result AccessState
  unfolding make_entry_valid make_entry_exclusive
  prepare_access_to_buffer m mode c = do
    c1 ← make_entry_valid m c
    c2 ← if is_writer mode then make_entry_exclusive m c1 else ok c1
    ok (if is_exclusive mode then add_deps (entry c2.buffer (place m)).access_events c2 else c2)

-- finalize_access_to_buffer.
unfoldable pub finalize_access_to_buffer : MemoryId → AccessMode → DeviceEvent → Entries → Entries
finalize_access_to_buffer m mode event b =
    let e = entry b (place m) in
    set_entry b (place m) (record e {
      access_events = insert event e.access_events;
      write_events = if is_writer mode then insert event e.write_events else e.write_events;
      epoch_event = if is_exclusive mode then insert event e.epoch_event else e.epoch_event;
    })

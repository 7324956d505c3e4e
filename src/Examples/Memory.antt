-- ===== src/Examples/Memory.antt =====
-- Examples for src/runtime/memory_manager.cpp and the comparison of memory ids.
use kmm.Prelude.{ℕ, suc, ◌≡◌, ◌↔◌, ◌⊎◌, refl, inr, true, false, some, [], length, arith}
use kmm.Prelude.Results.{ok, err, out_of_host_memory}
use kmm.Identifiers.{host, device, memory_eq, SameMemory, memory_eq-SameMemory}
use kmm.Memory.Types.{
  AccessMode, read, read_write, exclusive, Place, on_host, on_device, BufferEntry, empty_entry,
  Entries, MemorySystem, is_writer, is_exclusive,
}
use kmm.Memory.Coherence.{AccessState, prepare_access_to_buffer, finalize_access_to_buffer}
use kmm.Memory.Coherence.Keeps.{IsSound, Agree}
use kmm.Memory.Coherence.Prepare.{
  ReaderState, WriterState, prepare_writer, prepare_reader, stale_read,
}

-- Every copy is allocated, and the host's is valid.
abbrev spare : BufferEntry
spare = record empty_entry { is_allocated = true; address = 4096 }

abbrev shared : AccessState
shared = record {
  buffer = record {
    size_in_bytes = 64;
    host_entry = record spare { is_valid = true };
    device_entry = λ i. spare;
  };
  log = [];
  deps_out = [];
}

abbrev memory : MemorySystem
memory = record {
  copy_event = λ log. suc (length log);
  allocate_at = λ log. some (4096, []);
  is_copy_supported = λ i j. false;
}

abbrev initially : Place → ℕ
initially p = elim p [ on_host ↦ 7 | on_device i ↦ 0 ]

shared-IsSound : IsSound shared.buffer
shared-IsSound = record { allocated = allocated; in_range = in_range }
  where
    allocated :
        (p : Place)
        → (kmm.Memory.Types.entry shared.buffer p).is_valid ≡ true
        → (kmm.Memory.Types.entry shared.buffer p).is_allocated ≡ true
    allocated on_host h = refl
    allocated (on_device i) h = refl

    in_range :
        (p : Place)
        → (kmm.Memory.Types.entry shared.buffer p).is_valid ≡ true
        → kmm.Memory.Coherence.Keeps.InRange p
    in_range on_host h = tt
    in_range (on_device i) h = absurd (cc h)

shared-Agree : Agree initially shared
shared-Agree on_host on_host h k = refl
shared-Agree on_host (on_device j) h k = absurd (cc k)
shared-Agree (on_device i) q h k = absurd (cc h)

prepare_writer_example :
    ((d : AccessState) × (prepare_access_to_buffer memory (device 3) exclusive shared ≡ ok d)
      × WriterState initially memory
          (device 3)
          shared
          (omega arith)
          refl
          (λ h. refl)
          shared-IsSound
          shared-Agree
          d)
    ⊎ (prepare_access_to_buffer memory (device 3) exclusive shared ≡ err out_of_host_memory)
unfolding memory_eq
prepare_writer_example =
    prepare_writer initially memory (device 3) shared (omega arith) refl (λ h. refl) shared-IsSound
      shared-Agree exclusive refl refl

prepare_reader_example :
    ((d : AccessState) × (prepare_access_to_buffer memory (device 3) read shared ≡ ok d)
      × ReaderState initially memory
          (device 3)
          shared
          (omega arith)
          refl
          (λ h. refl)
          shared-IsSound
          shared-Agree
          d)
    ⊎ (prepare_access_to_buffer memory (device 3) read shared ≡ err out_of_host_memory)
prepare_reader_example =
    prepare_reader initially memory (device 3) shared (omega arith) refl (λ h. refl) shared-IsSound
      shared-Agree

stale_read_example :
    ((d e : AccessState) × (prepare_access_to_buffer memory (device 0) read_write shared ≡ ok d)
      × (prepare_access_to_buffer memory host read
            (record d { buffer = finalize_access_to_buffer (device 0) read_write 9 d.buffer })
          ≡ ok e)
      × (e.log ≡ d.log))
    ⊎ (prepare_access_to_buffer memory (device 0) read_write shared ≡ err out_of_host_memory)
stale_read_example = stale_read initially memory shared 9 refl shared-IsSound shared-Agree refl

memory_eq-SameMemory_example :
    (memory_eq (device 2) (device 4) ≡ true) ↔ SameMemory (device 2) (device 4)
memory_eq-SameMemory_example = memory_eq-SameMemory (device 2) (device 4) (inr refl)

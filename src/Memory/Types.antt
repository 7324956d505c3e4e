-- ===== src/Memory/Types.antt =====
-- The records of src/runtime/memory_manager.cpp and AccessMode of include/kmm/core/buffer.hpp, with
-- the memory system as the memory manager sees it.
use native.Mathlib.Decide.{ℕ_discrete}
use kmm.Prelude.{
  ℕ, ◌≡◌, refl, ◌≢◌, ◌⊎◌, inl, inr, Bool, true, false, Option, List, [], ◌==◌, if◌then◌else◌, arith,
}
use kmm.Streams.Event.{DeviceEvent}
use kmm.Streams.EventSet.{DeviceEventSet}
use kmm.Identifiers.{MemoryId, host_type, device_type}

pub data AccessMode : Type 0 where
  read read_write exclusive : AccessMode

abbrev pub is_writer : AccessMode → Bool
is_writer read = false
is_writer _ = true

abbrev pub is_exclusive : AccessMode → Bool
is_exclusive exclusive = true
is_exclusive _ = false

-- Where a copy of a buffer lies: the affinity of a host id does not matter for this.
pub data Place : Type 0 where
  on_host : Place
  on_device : ℕ → Place

abbrev pub place : MemoryId → Place
place m = elim m.type [ host_type ↦ on_host | device_type ↦ on_device m.value ]

-- BufferEntry with the `data` field of HostEntry and DeviceEntry.
pub record BufferEntry : Type 0 where
  pub is_allocated : Bool
  pub is_valid : Bool
  pub num_allocation_locks : ℕ
  pub epoch_event : DeviceEventSet
  pub write_events : DeviceEventSet
  pub access_events : DeviceEventSet
  pub address : ℕ

abbrev pub empty_entry : BufferEntry
empty_entry = record {
  is_allocated = false;
  is_valid = false;
  num_allocation_locks = 0;
  epoch_event = [];
  write_events = [];
  access_events = [];
  address = 0;
}

-- The entries of a buffer. The array of device entries is a function of the device's number.
pub record Entries : Type 0 where
  pub size_in_bytes : ℕ
  pub host_entry : BufferEntry
  pub device_entry : ℕ → BufferEntry

-- Buffer::entry.
abbrev pub entry : Entries → Place → BufferEntry
entry b on_host = b.host_entry
entry b (on_device i) = b.device_entry i

abbrev pub set_entry : Entries → Place → BufferEntry → Entries
set_entry b on_host e = record b { host_entry = e }
set_entry b (on_device i) e = record b {
  device_entry = λ j. if i == j then e else b.device_entry j;
}

-- A request to the memory system.
pub data Command : Type 0 where
  copy : (src dst : Place) (src_address dst_address size : ℕ) (deps : DeviceEventSet) → Command
  allocate : (at : Place) (size : ℕ) → Command
  deallocate : (at : Place) (address size : ℕ) (deps : DeviceEventSet) → Command

-- The memory system's answers, each from the commands so far, newest first. An allocation gives an
-- address and the events after which it may be used, or fails.
pub record MemorySystem : Type 0 where
  pub copy_event : List Command → DeviceEvent
  pub allocate_at : List Command → Option (ℕ × DeviceEventSet)
  pub is_copy_supported : ℕ → ℕ → Bool

pub Place-discrete : Discrete Place
Place-discrete = hlevel ℕ_discrete

pub entry-set_self : (b : Entries) (p : Place) (e : BufferEntry) → entry (set_entry b p e) p ≡ e
entry-set_self b on_host e = refl
entry-set_self b (on_device i) e = ground arith

pub entry-set_ne :
    (b : Entries) (p q : Place) (e : BufferEntry) → p ≢ q → entry (set_entry b p e) q ≡ entry b q
entry-set_ne b on_host on_host e h = absurd (h refl)
entry-set_ne b on_host (on_device j) e h = refl
entry-set_ne b (on_device i) on_host e h = refl
entry-set_ne b (on_device i) (on_device j) e h = ground arith

-- An entry after a write: the new one at its place, the old one elsewhere.
pub entry-set :
    (b : Entries) (p : Place) (e : BufferEntry) (q : Place)
    → ((p ≡ q) × (entry (set_entry b p e) q ≡ e))
      ⊎ ((p ≢ q) × (entry (set_entry b p e) q ≡ entry b q))
entry-set b p e q = elim (Place-discrete p q) [
  | yes h ↦ inl (h, rw (← h) (entry-set_self b p e))
  | no n ↦ inr (n, entry-set_ne b p q e n)
]

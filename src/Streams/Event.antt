-- ===== src/Streams/Event.antt =====
-- DeviceEvent of include/kmm/runtime/stream_manager.hpp: a stream and the index of an event on it,
-- packed into a 64-bit word. An event is that word; zero is the null event.
use kmm.Prelude.{
  ℕ, ◌+◌, ◌*◌, ◌/◌, ◌%◌, ◌^◌, ◌<◌, ◌≤◌, ◌≡◌, ◌↔◌, ◌⊎◌, Bool, arith, ltb, ◌==◌, if◌then◌else◌,
}
use kmm.Prelude.Results.{Result, ok, ◌>>◌, kmm_assert}

abbrev pub DeviceEvent : Type 0
DeviceEvent = ℕ

abbrev pub max_index : ℕ
max_index = 2 ^ 56

-- The constructor: the product and the sum are taken in uint64_t.
unfoldable pub device_event : ℕ → ℕ → Result DeviceEvent
device_event stream index = do
  kmm_assert (ltb index max_index)
  ok ((stream * max_index + index) % 2 ^ 64)

unfoldable pub is_null : DeviceEvent → Bool
is_null e = e == 0

-- The cast to uint8_t keeps the low byte.
unfoldable pub stream : DeviceEvent → ℕ
stream e = e / max_index % 256

unfoldable pub index : DeviceEvent → ℕ
index e = e % max_index

-- std::max with the operator `<` on the packed words.
unfoldable pub max_event : DeviceEvent → DeviceEvent → DeviceEvent
max_event a b = if ltb a b then b else a

-- An event made from a stream number and an index below `max_index` gives both back.
pub device_event_fields :
    (s i : ℕ)
    → s < 256
    → i < max_index
    → (e : DeviceEvent) × (device_event s i ≡ ok e) × (stream e ≡ s) × (index e ≡ i)
unfolding device_event stream index
device_event_fields s i hs hi =
    ((s * max_index + i) % 2 ^ 64, ground arith, omega arith, omega arith)

-- The order of the packed 64-bit words is the lexicographic order of stream and index.
pub event_order :
    (a b : DeviceEvent)
    → a < 2 ^ 64
    → b < 2 ^ 64
    → (a < b) ↔ ((stream a < stream b) ⊎ ((stream a ≡ stream b) × (index a < index b)))
unfolding stream index
event_order a b ha hb = (λ h. omega arith, λ h. omega arith)

pub index_mono :
    (a b : DeviceEvent) → a < 2 ^ 64 → b < 2 ^ 64 → stream a ≡ stream b → a ≤ b → index a ≤ index b
unfolding stream index
index_mono a b ha hb e h = omega arith

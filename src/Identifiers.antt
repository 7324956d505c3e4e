-- ===== src/Identifiers.antt =====
-- MemoryId and DeviceId of include/kmm/core/identifiers.hpp.
use kmm.Prelude.{ℕ, ◌≡◌, ◌↔◌, ◌⊎◌, refl, Bool, true, false, not, arith, ltb, ◌==◌, if◌then◌else◌}
use kmm.Prelude.Results.{Result, ok, err, out_of_range}

abbrev pub max_devices : ℕ
max_devices = 8

-- The constructor of DeviceId throws above the limit.
unfoldable pub device_id : ℕ → Result ℕ
device_id v = if ltb v max_devices then ok v else err out_of_range

pub data MemoryType : Type 0 where
  host_type device_type : MemoryType

-- The value is the device's number, or for the host the device that it is close to.
pub record MemoryId : Type 0 where
  pub type : MemoryType
  pub value : ℕ

abbrev pub is_host : MemoryId → Bool
is_host m = elim m.type [ host_type ↦ true | device_type ↦ false ]

abbrev pub is_device : MemoryId → Bool
is_device m = not (is_host m)

abbrev same_type : MemoryType → MemoryType → Bool
same_type host_type host_type = true
same_type device_type device_type = true
same_type _ _ = false

-- MemoryId::operator==. Both operands of its `&&` test the left-hand side's type.
unfoldable pub memory_eq : MemoryId → MemoryId → Bool
memory_eq a b = if is_device a then a.value == b.value else same_type a.type b.type

-- MemoryId::host with the default affinity.
abbrev pub host : MemoryId
host = record { type = host_type; value = 0 }

abbrev pub device : ℕ → MemoryId
device i = record { type = device_type; value = i }

-- Whether two ids name one memory: the host whatever the affinity, or one device.
abbrev pub SameMemory : MemoryId → MemoryId → Type 0
SameMemory a b = (a.type ≡ b.type) × (is_device a ≡ true → a.value ≡ b.value)

-- The comparison is exact unless a device on the left meets the host on the right.
pub memory_eq-SameMemory :
    (a b : MemoryId)
    → (is_host a ≡ true) ⊎ (is_device b ≡ true)
    → (memory_eq a b ≡ true) ↔ SameMemory a b
unfolding memory_eq
memory_eq-SameMemory a b h = (λ e. ground arith, λ e. ground arith)

-- There it holds when the device's number is the affinity of the host id.
pub memory_eq-device_host :
    (i j : ℕ) → memory_eq (device i) (record { type = host_type; value = j }) ≡ (i == j)
unfolding memory_eq
memory_eq-device_host i j = refl

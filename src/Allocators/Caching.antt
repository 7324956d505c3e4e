-- ===== src/Allocators/Caching.antt =====
-- CachingAllocator of src/runtime/allocators/caching.cpp. The linked lists of slots are lists: each
-- bin from its head, and the list of least recent use from the oldest. A slot's `id` stands for its
-- pointer. The inner allocator's answer and the test on floating point numbers are arguments.
pub mod Bins
use kmm.Prelude.{
  ℕ, zero, suc, ◌+◌, ◌-◌, ◌%◌, ◌*◌, ◌/◌, ◌^◌, Bool, true, false, ◌||◌, Option, none, some, List, [],
  ◌∷◌, ◌++◌, ltb, leb, ◌==◌, if◌then◌else◌,
}
use kmm.Prelude.Results.{Result, ok, err, assertion, ◌>>=◌, ◌>>◌, kmm_assert}
use kmm.Streams.EventSet.{DeviceEventSet}
use kmm.Allocators.Sync.{size_limit, add_size, sub_size, Operation, allocated, deallocated}

-- The bitwise `|` of two numbers of up to `bits` bits.
bit_or : ℕ → ℕ → ℕ → ℕ
bit_or zero a b = 0
bit_or (suc bits) a b =
    let rest = bit_or bits (a / 2) (b / 2) in (if a % 2 == 1 || b % 2 == 1 then 1 else 0) + 2 * rest

-- The loop of round_up_to_power_of_two for size_t runs with shifts by 1, 2, 4, 8, 16 and 32.
unfoldable pub round_up_to_power_of_two : ℕ → ℕ
unfolding bit_or
round_up_to_power_of_two input =
    let smear : ℕ → ℕ → ℕ = λ i x. bit_or 64 x (x / 2 ^ i) in
    if input == 0
    then 1
    else (smear 32 (smear 16 (smear 8 (smear 4 (smear 2 (smear 1 (input - 1)))))) + 1) % size_limit

unfoldable pub round_up_to_multiple : ℕ → ℕ → ℕ
round_up_to_multiple input multiple =
    let remainder = input % multiple in
    if remainder == 0 then input else (input - remainder + multiple) % size_limit

unfoldable pub round_up_allocation_size : ℕ → ℕ
unfolding round_up_to_multiple round_up_to_power_of_two
round_up_allocation_size nbytes =
    if leb 1024 nbytes then round_up_to_multiple nbytes 1024 else round_up_to_power_of_two nbytes

pub record AllocationSlot : Type 0 where
  pub id : ℕ
  pub address : ℕ
  pub nbytes : ℕ
  pub dependencies : DeviceEventSet

-- `log` holds the calls of the inner allocator that had an effect, newest first. `next_slot` is the
-- id of the next slot to be made.
pub record CachingAllocator : Type 0 where
  pub allocation_bins : ℕ → List AllocationSlot
  pub lru : List AllocationSlot
  pub bytes_watermark : ℕ
  pub bytes_in_use : ℕ
  pub bytes_allocated : ℕ
  pub next_slot : ℕ
  pub log : List Operation

abbrev pub set_bin : ℕ → List AllocationSlot → (ℕ → List AllocationSlot) → ℕ → List AllocationSlot
set_bin n bin bins k = if n == k then bin else bins k

-- Taking a slot out of the list of least recent use.
pub unlink : ℕ → List AllocationSlot → List AllocationSlot
unlink id [] = []
unlink id (s ∷ rest) = if s.id == id then rest else s ∷ unlink id rest

unfoldable pub free_some_memory : CachingAllocator → Result (ℕ × CachingAllocator)
free_some_memory c = elim c.lru [
  | [] ↦ ok (0, c)
  | oldest ∷ newer ↦ elim (c.allocation_bins oldest.nbytes) [
    | [] ↦ err assertion
    | slot ∷ next ↦
        kmm_assert (slot.id == oldest.id)
        >> ok (
          slot.nbytes,
          record c {
            allocation_bins = set_bin oldest.nbytes next c.allocation_bins;
            lru = newer;
            bytes_allocated = sub_size c.bytes_allocated slot.nbytes;
            log = deallocated slot.address slot.nbytes ∷ c.log;
          },
        )
  ]
]

unfoldable pub deallocate_async : ℕ → ℕ → DeviceEventSet → CachingAllocator → CachingAllocator
unfolding round_up_allocation_size
deallocate_async address requested deps c =
    let nbytes = round_up_allocation_size requested in
    let slot : AllocationSlot = record {
      id = c.next_slot;
      address = address;
      nbytes = nbytes;
      dependencies = deps;
    } in
    record c {
      bytes_in_use = sub_size c.bytes_in_use nbytes;
      lru = c.lru ++ slot ∷ [];
      allocation_bins = set_bin nbytes (c.allocation_bins nbytes ++ slot ∷ []) c.allocation_bins;
      next_slot = c.next_slot + 1;
    }

-- `acceptable` is the comparison of the overhead with the new watermark times max_fragmentation.
unfoldable pub can_allocate_bytes : (ℕ → ℕ → Bool) → ℕ → CachingAllocator → Bool
can_allocate_bytes acceptable nbytes c =
    let overhead = sub_size c.bytes_allocated c.bytes_in_use in
    if leb nbytes (sub_size c.bytes_watermark c.bytes_allocated)
    then true
    else if overhead == 0
    then true
    else acceptable overhead (add_size c.bytes_allocated nbytes)

module _ (acceptable : ℕ → ℕ → Bool)
    (allocate : List Operation → ℕ → Option (ℕ × DeviceEventSet)) where
  -- The address, and the events that are inserted in `deps_out`; `none` is ErrorOutOfMemory.
  abbrev pub Answer : Type 0
  Answer = Option (ℕ × DeviceEventSet)

  -- The first part of the loop's body.
  pub attempt : ℕ → CachingAllocator → Option ((ℕ × DeviceEventSet) × CachingAllocator)
  unfolding can_allocate_bytes
  attempt nbytes c =
      if can_allocate_bytes acceptable nbytes c
      then elim (allocate c.log nbytes) [
        | none ↦ none
        | some memory ↦
            let total = add_size c.bytes_allocated nbytes in
            some (
              memory,
              record c {
                bytes_allocated = total;
                bytes_in_use = add_size c.bytes_in_use nbytes;
                bytes_watermark = if ltb c.bytes_watermark total then total else c.bytes_watermark;
                log = allocated memory.0 nbytes ∷ c.log;
              },
            )
      ]
      else none

  -- The loop, by recursion on the slots that can still be freed: it ends when there is none. The
  -- source ends it when free_some_memory gives 0, also after it has freed a slot of no bytes.
  pub make_room : ℕ → List AllocationSlot → CachingAllocator → Result (Answer × CachingAllocator)
  unfolding attempt free_some_memory
  make_room nbytes [] c = elim (attempt nbytes c) [
    | some (memory, d) ↦ ok (some memory, d)
    | none ↦ free_some_memory c >>= λ r. ok (none, r.1)
  ]
  make_room nbytes (s ∷ rest) c = elim (attempt nbytes c) [
    | some (memory, d) ↦ ok (some memory, d)
    | none ↦ free_some_memory c >>= λ r. make_room nbytes rest r.1
  ]

  unfoldable pub allocate_async : ℕ → CachingAllocator → Result (Answer × CachingAllocator)
  unfolding make_room round_up_allocation_size unlink
  allocate_async requested c =
      let nbytes = round_up_allocation_size requested in
      elim (c.allocation_bins nbytes) [
        | [] ↦ make_room nbytes c.lru c
        | slot ∷ next ↦ ok (
          some (slot.address, slot.dependencies),
          record c {
            allocation_bins = set_bin nbytes next c.allocation_bins;
            lru = unlink slot.id c.lru;
            bytes_in_use = add_size c.bytes_in_use nbytes;
          },
        )
      ]

-- The loop of trim, by recursion on the slots that can still be freed: it ends when there is none.
-- The source ends it when free_some_memory gives 0, also after it has freed a slot of no bytes. The
-- inner allocator's `trim` at the end changes nothing here.
pub trim_from : ℕ → List AllocationSlot → CachingAllocator → Result CachingAllocator
unfolding free_some_memory
trim_from remaining [] c = ok c
trim_from remaining (s ∷ rest) c = elim (ltb remaining c.bytes_allocated) [
  | false ↦ ok c
  | true ↦ free_some_memory c >>= λ r. trim_from remaining rest r.1
]

unfoldable pub trim : ℕ → CachingAllocator → Result CachingAllocator
unfolding trim_from
trim remaining c = trim_from remaining c.lru c

-- ===== src/Examples/Caching.antt =====
-- Examples for src/runtime/allocators/caching.cpp.
use kmm.Prelude.{ℕ, ◌+◌, ◌≤◌, ◌≡◌, ◌⊎◌, refl, Bool, false, Option, some, List, [], ◌∷◌, arith}
use kmm.Prelude.Results.{ok}
use kmm.Streams.EventSet.{DeviceEventSet}
use kmm.Allocators.Sync.{Operation}
use kmm.Allocators.Caching.{
  round_up_to_multiple, round_up_allocation_size, AllocationSlot, CachingAllocator,
  free_some_memory, deallocate_async, allocate_async, trim,
}
use kmm.Allocators.Caching.Bins.{
  of_size, IsBinned, Served, free_some_memory-IsBinned, deallocate_async-IsBinned,
  allocate_async-Served, trim-IsBinned,
}

abbrev slot : AllocationSlot
slot = record { id = 0; address = 4096; nbytes = 64; dependencies = 5 ∷ [] }

-- One slot of 64 bytes is kept and 2048 bytes are in use.
abbrev cached : CachingAllocator
cached = record {
  allocation_bins = λ n. of_size n (slot ∷ []);
  lru = slot ∷ [];
  bytes_watermark = 4096;
  bytes_in_use = 2048;
  bytes_allocated = 2112;
  next_slot = 1;
  log = [];
}

cached-IsBinned : IsBinned cached
cached-IsBinned = record {
  bins = λ n. refl;
  ordered = (omega arith, omega arith);
  counted = refl;
  word = omega arith;
}

free_some_memory-IsBinned_example :
    (r : ℕ × CachingAllocator) × (free_some_memory cached ≡ ok r)
    × IsBinned r.1
    × (r.0 + r.1.bytes_allocated ≡ 2112)
    × (r.1.bytes_in_use ≡ 2048)
    × (((slot ∷ [] ≡ []) × (r.1.lru ≡ [])) ⊎ ((s : AllocationSlot) × (slot ∷ [] ≡ s ∷ r.1.lru)))
free_some_memory-IsBinned_example = free_some_memory-IsBinned cached cached-IsBinned

rounded_fits : round_up_allocation_size 2000 ≤ 2048
unfolding round_up_allocation_size round_up_to_multiple
rounded_fits = omega arith

deallocate_async-IsBinned_example : IsBinned (deallocate_async 8192 2000 (7 ∷ []) cached)
deallocate_async-IsBinned_example =
    deallocate_async-IsBinned 8192 2000 (7 ∷ []) cached rounded_fits cached-IsBinned

abbrev give : List Operation → ℕ → Option (ℕ × DeviceEventSet)
give log n = some (16384, 9 ∷ [])

abbrev never : ℕ → ℕ → Bool
never overhead total = false

allocate_async-Served_example :
    (r : Option (ℕ × DeviceEventSet) × CachingAllocator) × (allocate_async never give 2000 cached
      ≡ ok r)
    × Served never give (round_up_allocation_size 2000) 2048 r
allocate_async-Served_example =
    allocate_async-Served never give 2000 cached cached-IsBinned (omega (arith, rounded_fits))

trim-IsBinned_example :
    (d : CachingAllocator) × (trim 100 cached ≡ ok d)
    × IsBinned d
    × (d.bytes_in_use ≡ 2048)
    × ((d.bytes_allocated ≤ 100) ⊎ (d.lru ≡ []))
trim-IsBinned_example = trim-IsBinned 100 cached cached-IsBinned

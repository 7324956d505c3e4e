-- ===== src/Allocators/Sync.antt =====
-- SyncAllocator of src/runtime/allocators/base.cpp. The virtual `allocate` is an argument: its
-- answer depends on what was allocated and freed before. Sizes are size_t, so sums and differences
-- wrap at 2 ^ 64. Waiting for an event set has no effect on the allocator's own state.
pub mod Accounting
use kmm.Prelude.{
  ℕ, zero, suc, ◌+◌, ◌-◌, ◌%◌, ◌^◌, Bool, true, false, ◌&&◌, Option, none, some, List, [], ◌∷◌,
  ◌++◌, ltb, leb, if◌then◌else◌,
}
use kmm.Prelude.Results.{Result, ok, ◌>>=◌, ◌>>◌, kmm_assert}
use kmm.Streams.Event.{DeviceEvent}
use kmm.Streams.EventSet.{DeviceEventSet, remove_ready_trailing}

abbrev pub size_limit : ℕ
size_limit = 2 ^ 64

-- size_t + and -.
abbrev pub add_size : ℕ → ℕ → ℕ
add_size a b = (a + b) % size_limit

abbrev pub sub_size : ℕ → ℕ → ℕ
sub_size a b = (a + size_limit - b) % size_limit

pub data Operation : Type 0 where
  allocated : (address nbytes : ℕ) → Operation
  deallocated : (address nbytes : ℕ) → Operation

pub record DeferredDealloc : Type 0 where
  pub address : ℕ
  pub nbytes : ℕ
  pub dependencies : DeviceEventSet

-- `log` holds the calls of the virtual methods that had an effect, newest first.
pub record SyncAllocator : Type 0 where
  pub pending_deallocs : List DeferredDealloc
  pub bytes_limit : ℕ
  pub bytes_in_use : ℕ
  pub log : List Operation

-- The end of a deferred deallocation.
pub free : ℕ → ℕ → SyncAllocator → SyncAllocator
free address nbytes s = record s {
  bytes_in_use = sub_size s.bytes_in_use nbytes;
  log = deallocated address nbytes ∷ s.log;
}

module _ (ready : DeviceEvent → Bool) where
  -- make_progress with the queue as an argument: frees at the front until something is not ready.
  pub progress : List DeferredDealloc → SyncAllocator → SyncAllocator
  unfolding free remove_ready_trailing
  progress [] s = record s { pending_deallocs = [] }
  progress (d ∷ ds) s = elim ((remove_ready_trailing ready d.dependencies).1) [
    | true ↦ progress ds (free d.address d.nbytes s)
    | false ↦ record s { pending_deallocs = d ∷ ds }
  ]

  unfoldable pub make_progress : SyncAllocator → SyncAllocator
  unfolding progress
  make_progress s = progress s.pending_deallocs s

  -- The set that is kept has lost its ready events at the end.
  unfoldable pub deallocate_async : ℕ → ℕ → DeviceEventSet → SyncAllocator → SyncAllocator
  unfolding make_progress
  deallocate_async address nbytes deps s =
      let s1 = make_progress s in
      let (left, is_ready) = remove_ready_trailing ready deps in
      if is_ready then free address nbytes s1 else record s1 {
        pending_deallocs =
            s1.pending_deallocs
            ++ record { address = address; nbytes = nbytes; dependencies = left } ∷ [];
      }

module _ (allocate : List Operation → ℕ → Option ℕ) where
  -- One attempt: within the limit, and if the system has memory.
  pub attempt : ℕ → SyncAllocator → Option (ℕ × SyncAllocator)
  attempt nbytes s =
      if leb nbytes (sub_size s.bytes_limit s.bytes_in_use)
      then elim (allocate s.log nbytes) [
        | none ↦ none
        | some address ↦ some (
          address,
          record s {
            bytes_in_use = add_size s.bytes_in_use nbytes;
            log = allocated address nbytes ∷ s.log;
          },
        )
      ]
      else none

  -- The loop of allocate_async, by recursion on the queue. `none` is ErrorOutOfMemory.
  pub attempts : ℕ → List DeferredDealloc → SyncAllocator → Option ℕ × SyncAllocator
  unfolding attempt free
  attempts nbytes [] s = elim (attempt nbytes (record s { pending_deallocs = [] })) [
    | some (address, s') ↦ (some address, s')
    | none ↦ (none, record s { pending_deallocs = [] })
  ]
  attempts nbytes (d ∷ ds) s = elim (attempt nbytes (record s { pending_deallocs = d ∷ ds })) [
    | some (address, s') ↦ (some address, s')
    | none ↦ attempts nbytes ds (free d.address d.nbytes s)
  ]

  unfoldable pub allocate_async :
      (DeviceEvent → Bool) → ℕ → SyncAllocator → Result (Option ℕ × SyncAllocator)
  unfolding attempts make_progress
  allocate_async ready nbytes s = do
    kmm_assert (ltb 0 nbytes)
    let s1 = make_progress ready s
    ok (attempts nbytes s1.pending_deallocs s1)

-- The loop of trim, by recursion on the queue.
pub trim_from : ℕ → List DeferredDealloc → SyncAllocator → SyncAllocator
unfolding free
trim_from remaining [] s = record s { pending_deallocs = [] }
trim_from remaining (d ∷ ds) s = elim (ltb remaining s.bytes_in_use) [
  | true ↦ trim_from remaining ds (free d.address d.nbytes s)
  | false ↦ record s { pending_deallocs = d ∷ ds }
]

unfoldable pub trim : ℕ → SyncAllocator → SyncAllocator
unfolding trim_from
trim remaining s = trim_from remaining s.pending_deallocs s

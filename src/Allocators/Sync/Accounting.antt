-- ===== src/Allocators/Sync/Accounting.antt =====
-- The bytes that SyncAllocator counts as in use, against the calls of the virtual methods.
use kmm.Prelude.{
  ℕ, ◌+◌, ◌≤◌, ◌<◌, ◌≡◌, refl, ap, ◌⊎◌, inl, inr, Bool, Option, none, some, List, [], ◌∷◌, ◌++◌,
  arith, ltb, leb, Bool-cases, Option-cases, if_false, lt→ltb,
}
use kmm.Prelude.Results.{ok, ◌>>◌, kmm_assert}
use kmm.Streams.Event.{DeviceEvent}
use kmm.Streams.EventSet.{DeviceEventSet, remove_ready_trailing}
use kmm.Allocators.Sync.{
  size_limit, add_size, sub_size, Operation, allocated, deallocated, DeferredDealloc, SyncAllocator,
  free, progress, make_progress, deallocate_async, attempt, attempts, allocate_async, trim_from,
  trim,
}

abbrev pub pending_bytes : List DeferredDealloc → ℕ
pending_bytes [] = 0
pending_bytes (d ∷ ds) = d.nbytes + pending_bytes ds

abbrev pub allocated_bytes : List Operation → ℕ
allocated_bytes [] = 0
allocated_bytes (allocated address n ∷ log) = n + allocated_bytes log
allocated_bytes (deallocated address n ∷ log) = allocated_bytes log

abbrev pub freed_bytes : List Operation → ℕ
freed_bytes [] = 0
freed_bytes (allocated address n ∷ log) = freed_bytes log
freed_bytes (deallocated address n ∷ log) = n + freed_bytes log

pending_bytes-snoc :
    (ds : List DeferredDealloc) (d : DeferredDealloc)
    → pending_bytes (ds ++ d ∷ []) ≡ pending_bytes ds + d.nbytes
pending_bytes-snoc [] d = omega arith
pending_bytes-snoc (x ∷ ds) d = omega (arith, pending_bytes-snoc ds d)

-- The counter is what was allocated and not freed yet. It is the sum of what clients hold and of
-- what waits in the queue `ds`, and it keeps the limit.
pub record IsBalanced (held : ℕ) (ds : List DeferredDealloc) (s : SyncAllocator) : Type 0 where
  pub counted : s.bytes_in_use + freed_bytes s.log ≡ allocated_bytes s.log
  pub covered : held + pending_bytes ds ≡ s.bytes_in_use
  pub limited : s.bytes_in_use ≤ s.bytes_limit
  pub word : s.bytes_limit < size_limit

abbrev pub IsSound : ℕ → SyncAllocator → Type 0
IsSound held s = IsBalanced held s.pending_deallocs s

IsBalanced-queue :
    (held : ℕ) (ds es : List DeferredDealloc) (s : SyncAllocator)
    → IsBalanced held ds s
    → IsBalanced held ds (record s { pending_deallocs = es })
IsBalanced-queue held ds es s v = record {
  counted = v.counted;
  covered = v.covered;
  limited = v.limited;
  word = v.word;
}

free-IsBalanced :
    (held : ℕ) (d : DeferredDealloc) (ds : List DeferredDealloc) (s : SyncAllocator)
    → IsBalanced held (d ∷ ds) s
    → IsBalanced held ds (free d.address d.nbytes s)
unfolding free
free-IsBalanced held d ds s v = ground arith

module _ (ready : DeviceEvent → Bool) (held : ℕ) where
  progress-IsSound :
      (ds : List DeferredDealloc) (s : SyncAllocator)
      → IsBalanced held ds s
      → IsSound held (progress ready ds s)
  unfolding progress
  progress-IsSound [] s v = IsBalanced-queue held [] [] s v
  progress-IsSound (d ∷ ds) s v = elim (Bool-cases (remove_ready_trailing ready d.dependencies).1) [
    | inl e ↦
        rw (e, progress)
          (progress-IsSound ds (free d.address d.nbytes s) (free-IsBalanced held d ds s v))
    | inr e ↦ rw (e, progress) (IsBalanced-queue held (d ∷ ds) (d ∷ ds) s v)
  ]

  pub make_progress-IsSound :
      (s : SyncAllocator) → IsSound held s → IsSound held (make_progress ready s)
  unfolding make_progress
  make_progress-IsSound s v = progress-IsSound s.pending_deallocs s v

  -- Giving back `nbytes` of the bytes held leaves the rest held, whether the memory is freed at
  -- once or waits in the queue.
  pub deallocate_async-IsSound :
      (address nbytes rest : ℕ) (deps : DeviceEventSet) (s : SyncAllocator)
      → held ≡ nbytes + rest
      → IsSound held s
      → IsSound rest (deallocate_async ready address nbytes deps s)
  unfolding deallocate_async free
  deallocate_async-IsSound address nbytes rest deps s e v =
      let s1 = make_progress ready s in
      let v1 = make_progress-IsSound s v in
      elim (Bool-cases (remove_ready_trailing ready deps).1) [
        | inl now ↦ rw now (record {
          counted = omega (arith, v1.counted, v1.covered, v1.limited, v1.word);
          covered = omega (arith, v1.counted, v1.covered, v1.limited, v1.word);
          limited = omega (arith, v1.counted, v1.covered, v1.limited, v1.word);
          word = v1.word;
        })
        | inr later ↦ rw later (record {
          counted = v1.counted;
          covered = omega (
            arith,
            v1.covered,
            pending_bytes-snoc s1.pending_deallocs (record {
              address = address;
              nbytes = nbytes;
              dependencies = (remove_ready_trailing ready deps).0;
            }),
          );
          limited = v1.limited;
          word = v1.word;
        })
      ]

module _ (allocate : List Operation → ℕ → Option ℕ) (held nbytes : ℕ) where
  -- What an attempt comes to: memory within the limit, or nothing changed.
  attempt_lem :
      (s : SyncAllocator)
      → IsSound held s
      → ((address : ℕ) × (s' : SyncAllocator) × (attempt allocate nbytes s ≡ some (address, s'))
          × IsSound (held + nbytes) s')
        ⊎ (attempt allocate nbytes s ≡ none)
  unfolding attempt
  attempt_lem s v = elim (Bool-cases (leb nbytes (sub_size s.bytes_limit s.bytes_in_use))) [
    | inr no_room ↦ inr (if_false _ _ no_room)
    | inl room ↦ elim (Option-cases (allocate s.log nbytes)) [
      | inl n ↦ inr (ground (arith, room, n))
      | inr (address, q) ↦
          let s' : SyncAllocator = record s {
            bytes_in_use = add_size s.bytes_in_use nbytes;
            log = allocated address nbytes ∷ s.log;
          } in
          inl (address, s', ground (arith, room, q), ground arith)
    ]
  ]

  -- How allocate_async ends: with memory that the client holds from now on, or with an empty queue.
  abbrev pub Ends : Option ℕ × SyncAllocator → Type 0
  Ends (some address, s) = IsSound (held + nbytes) s
  Ends (none, s) = IsSound held s × (s.pending_deallocs ≡ [])

  attempts-Ends :
      (ds : List DeferredDealloc) (s : SyncAllocator)
      → IsBalanced held ds s
      → Ends (attempts allocate nbytes ds s)
  unfolding attempts
  attempts-Ends [] s v =
      elim (attempt_lem (record s { pending_deallocs = [] }) (IsBalanced-queue held [] [] s v)) [
        | inl (address, s', e, v') ↦ rw (e, attempts) v'
        | inr e ↦ rw (e, attempts) (IsBalanced-queue held [] [] s v, refl)
      ]
  attempts-Ends (d ∷ ds) s v =
      elim (attempt_lem (record s { pending_deallocs = d ∷ ds })
        (IsBalanced-queue held (d ∷ ds) (d ∷ ds) s v)) [
          | inl (address, s', e, v') ↦ rw (e, attempts) v'
          | inr e ↦
              rw (e, attempts)
                (attempts-Ends ds (free d.address d.nbytes s) (free-IsBalanced held d ds s v))
        ]

-- A positive request gets memory that fits the limit, or finds the system out of memory only after
-- every deferred deallocation has been carried out; the bytes stay balanced either way.
pub allocate_async-Ends :
    (allocate : List Operation → ℕ → Option ℕ) (ready : DeviceEvent → Bool) (held nbytes : ℕ)
    (s : SyncAllocator)
    → 0 < nbytes
    → IsSound held s
    → (r : Option ℕ × SyncAllocator) × (allocate_async allocate ready nbytes s ≡ ok r)
      × Ends allocate held nbytes r
unfolding allocate_async
allocate_async-Ends allocate ready held nbytes s pos v =
    let s1 = make_progress ready s in
    (
      attempts allocate nbytes s1.pending_deallocs s1,
      ap (λ b. kmm_assert b >> ok (attempts allocate nbytes s1.pending_deallocs s1))
          (lt→ltb 0 nbytes pos),
      attempts-Ends allocate held nbytes s1.pending_deallocs s1
          (make_progress-IsSound ready held s v),
    )

trim_from_lem :
    (remaining held : ℕ) (ds : List DeferredDealloc) (s : SyncAllocator)
    → IsBalanced held ds s
    → IsSound held (trim_from remaining ds s)
      × (((trim_from remaining ds s).bytes_in_use ≤ remaining)
          ⊎ ((trim_from remaining ds s).pending_deallocs ≡ []))
unfolding trim_from
trim_from_lem remaining held [] s v = (IsBalanced-queue held [] [] s v, inr refl)
trim_from_lem remaining held (d ∷ ds) s v = elim (Bool-cases (ltb remaining s.bytes_in_use)) [
  | inl e ↦
      rw (e, trim_from)
        (trim_from_lem remaining held ds (free d.address d.nbytes s)
          (free-IsBalanced held d ds s v))
  | inr e ↦ rw (e, trim_from) (IsBalanced-queue held (d ∷ ds) (d ∷ ds) s v, inl (ground (arith, e)))
]

-- `trim` ends within the bound or with an empty queue, and keeps the bytes balanced.
pub trim_lem :
    (remaining held : ℕ) (s : SyncAllocator)
    → IsSound held s
    → IsSound held (trim remaining s)
      × (((trim remaining s).bytes_in_use ≤ remaining) ⊎ ((trim remaining s).pending_deallocs ≡ []))
unfolding trim
trim_lem remaining held s v = trim_from_lem remaining held s.pending_deallocs s v

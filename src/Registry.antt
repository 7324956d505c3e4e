-- ===== src/Registry.antt =====
-- src/runtime/buffer_registry.cpp: the buffers by their ids, with what has poisoned them, and the
-- requests of a task for all of its buffers. The memory manager stands behind an interface.
pub mod Held
use kmm.Prelude.{
  ℕ, Bool, true, false, not, ◌&&◌, Option, none, some, List, [], ◌∷◌, ◌++◌, ◌==◌, if◌then◌else◌,
}
use kmm.Prelude.Results.{Result, ok, err, not_found, already_exists, poisoned, ◌>>=◌}
use kmm.Identifiers.{MemoryId}
use kmm.Memory.Types.{AccessMode, is_writer}
use kmm.Streams.Event.{DeviceEvent}
use kmm.Streams.EventSet.{DeviceEventSet}
use kmm.TaskGraph.{BufferLayout, BufferRequirement}

-- The calls of the memory manager on its state `M`. What throws leaves a state too. Buffers,
-- requests and accessors go by number.
pub record MemoryManager (M : Type 0) : Type 0 where
  pub create_buffer : BufferLayout → ℕ → M → M × Result ℕ
  pub delete_buffer : ℕ → M → M × Result (Unit {0})
  pub create_request : ℕ → MemoryId → AccessMode → M → M × Result ℕ
  pub poll_request : ℕ → DeviceEventSet → M → M × DeviceEventSet × Result Bool
  pub release_request : ℕ → DeviceEvent → M → M
  pub get_accessor : ℕ → M → Result ℕ

-- A buffer that could not be created stays in the map without one. A poison goes by number.
pub record BufferMeta : Type 0 where
  pub buffer : Option ℕ
  pub poison_reason_opt : Option ℕ

abbrev pub Buffers : Type 0
Buffers = List (ℕ × BufferMeta)

pub find : ℕ → Buffers → Option BufferMeta
find id [] = none
find id ((k, meta) ∷ rest) = if k == id then some meta else find id rest

-- A write to the entry of an id.
pub store : ℕ → BufferMeta → Buffers → Buffers
store id meta [] = []
store id meta ((k, old) ∷ rest) =
    let later = store id meta rest in if k == id then (k, meta) ∷ rest else (k, old) ∷ later

pub erase : ℕ → Buffers → Buffers
erase id [] = []
erase id ((k, meta) ∷ rest) =
    let later = erase id rest in if k == id then rest else (k, meta) ∷ later

-- A buffer of the map, or the exception; a null buffer is none.
unfoldable pub get : ℕ → Buffers → Result (Option ℕ)
unfolding find
get id buffers = elim (find id buffers) [
  | none ↦ err not_found
  | some meta ↦ elim meta.poison_reason_opt [ some reason ↦ err poisoned | none ↦ ok meta.buffer ]
]

unfoldable pub poison : ℕ → ℕ → Buffers → Buffers
unfolding find store
poison id reason buffers = elim (find id buffers) [
  | none ↦ buffers
  | some meta ↦ elim meta.poison_reason_opt [
    | some earlier ↦ buffers
    | none ↦ store id (record meta { poison_reason_opt = some reason }) buffers
  ]
]

unfoldable pub poison_all : List BufferRequirement → ℕ → Buffers → Buffers
unfolding poison
poison_all [] reason buffers = buffers
poison_all (r ∷ rs) reason buffers =
    poison_all rs reason
      (if is_writer r.access_mode then poison r.buffer_id reason buffers else buffers)

module _ {M : Type 0} (manager : MemoryManager M) where
  unfoldable pub add : ℕ → BufferLayout → Buffers → M → M × Buffers × Result ℕ
  unfolding find store
  add buffer_id layout buffers m = elim (find buffer_id buffers) [
    | some meta ↦ (m, buffers, err already_exists)
    | none ↦
        let added : Buffers =
          (buffer_id, record { buffer = none; poison_reason_opt = none }) ∷ buffers in
        let (m1, made) = manager.create_buffer layout buffer_id m in
        elim made [
          | err e ↦ (m1, added, err e)
          | ok buffer ↦ (
            m1,
            store buffer_id (record { buffer = some buffer; poison_reason_opt = none }) added,
            ok buffer_id,
          )
        ]
  ]

  -- A null buffer would be dereferenced.
  unfoldable pub remove : ℕ → Buffers → M → M × Buffers × Result (Unit {0})
  unfolding find erase
  remove buffer_id buffers m = elim (find buffer_id buffers) [
    | none ↦ (m, buffers, err not_found)
    | some meta ↦ elim meta.buffer [
      | none ↦ (m, buffers, err not_found)
      | some buffer ↦
          let (m1, deleted) = manager.delete_buffer buffer m in
          elim deleted [
            | err e ↦ (m1, buffers, err e)
            | ok _ ↦ (m1, erase buffer_id buffers, ok tt)
          ]
    ]
  ]

  unfoldable pub release_all : List ℕ → DeviceEvent → M → M
  release_all [] event m = m
  release_all (req ∷ reqs) event m = release_all reqs event (manager.release_request req event m)

  -- The request for one buffer.
  unfoldable pub request_for : BufferRequirement → Buffers → M → M × Result ℕ
  unfolding get
  request_for r buffers m = elim (get r.buffer_id buffers) [
    | err e ↦ (m, err e)
    | ok none ↦ (m, err not_found)
    | ok (some buffer) ↦ manager.create_request buffer r.memory_id r.access_mode m
  ]

  -- The loop of create_requests, with the requests so far.
  unfoldable pub create_from : List BufferRequirement → List ℕ → Buffers → M → M × Result (List ℕ)
  unfolding request_for release_all
  create_from [] requests buffers m = (m, ok requests)
  create_from (r ∷ rs) requests buffers m =
      let (m1, made) = request_for r buffers m in
      elim made [
        | err e ↦ (release_all requests 0 m1, err e)
        | ok req ↦ create_from rs (requests ++ req ∷ []) buffers m1
      ]

  unfoldable pub create_requests : List BufferRequirement → Buffers → M → M × Result (List ℕ)
  unfolding create_from
  create_requests rs buffers m = create_from rs [] buffers m

  -- The loop of poll_requests; true is Poll::Ready.
  unfoldable pub poll_from : List ℕ → Bool → DeviceEventSet → M → M × DeviceEventSet × Result Bool
  poll_from [] result deps m = (m, deps, ok result)
  poll_from (req ∷ reqs) result deps m =
      let (m1, deps1, polled) = manager.poll_request req deps m in
      elim polled [
        | err e ↦ (m1, deps1, err e)
        | ok ready ↦ poll_from reqs (result && ready) deps1 m1
      ]

  unfoldable pub poll_requests : List ℕ → DeviceEventSet → M → M × DeviceEventSet × Result Bool
  unfolding poll_from
  poll_requests reqs deps m = poll_from reqs true deps m

  unfoldable pub access_requests : List ℕ → M → Result (List ℕ)
  access_requests [] m = ok []
  access_requests (req ∷ reqs) m = do
    accessor ← manager.get_accessor req m
    rest ← access_requests reqs m
    ok (accessor ∷ rest)

  -- The list of requests is empty afterwards.
  unfoldable pub release_requests : List ℕ → DeviceEvent → M → M × List ℕ
  unfolding release_all
  release_requests reqs event m = (release_all reqs event m, [])

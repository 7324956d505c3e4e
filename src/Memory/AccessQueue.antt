-- ===== src/Memory/AccessQueue.antt =====
-- The access queue of a buffer in src/runtime/memory_manager.cpp: add_to_access_queue,
-- remove_from_access_queue, is_access_allowed, poll_access_queue and request_has_access. The linked
-- list of the queue is the list `granted ++ pending`: access_head is its first request, access_tail
-- its last, and access_first_pending the first of `pending`. A request's flag `access_acquired`
-- says that it stands in `granted`.
pub mod Grants
mod Examples
use kmm.Prelude.{
  ℕ, zero, suc, ◌+◌, ◌-◌, Bool, true, false, not, ◌&&◌, ◌||◌, List, [], ◌∷◌, ◌++◌, ◌==◌,
  if◌then◌else◌, keep,
}
use kmm.Identifiers.{MemoryId, memory_eq}
use kmm.Memory.Types.{AccessMode, is_writer, is_exclusive}

pub record AccessRequest : Type 0 where
  pub identifier : ℕ
  pub memory_id : MemoryId
  pub mode : AccessMode

pub record AccessQueue : Type 0 where
  pub granted : List AccessRequest
  pub pending : List AccessRequest
  pub num_requests_active : ℕ

unfoldable pub add_to_access_queue : AccessRequest → AccessQueue → AccessQueue
add_to_access_queue req q = record q {
  pending = q.pending ++ req ∷ [];
  num_requests_active = q.num_requests_active + 1;
}

-- The test of `req` against one request that has access.
pub allowed_beside : AccessRequest → AccessRequest → Bool
allowed_beside req it =
    if is_exclusive req.mode || is_exclusive it.mode
    then false
    else if is_writer req.mode || is_writer it.mode
    then memory_eq req.memory_id it.memory_id
    else true

pub is_access_allowed : AccessRequest → List AccessRequest → Bool
unfolding allowed_beside
is_access_allowed req [] = true
is_access_allowed req (it ∷ rest) =
    if allowed_beside req it then is_access_allowed req rest else false

-- The loop of poll_access_queue, by recursion on the pending requests.
pub poll_pending : List AccessRequest → List AccessRequest → ℕ → AccessQueue
unfolding is_access_allowed
poll_pending granted [] n = record { granted = granted; pending = []; num_requests_active = n }
poll_pending granted (req ∷ pending) n = elim (is_access_allowed req granted) [
  | true ↦ poll_pending (granted ++ req ∷ []) pending n
  | false ↦ record { granted = granted; pending = req ∷ pending; num_requests_active = n }
]

unfoldable pub poll_access_queue : AccessQueue → AccessQueue
unfolding poll_pending
poll_access_queue q = poll_pending q.granted q.pending q.num_requests_active

pub has_identifier : ℕ → List AccessRequest → Bool
has_identifier i [] = false
has_identifier i (r ∷ rs) = r.identifier == i || has_identifier i rs

abbrev pub without : ℕ → List AccessRequest → List AccessRequest
without i = keep (λ r. not (r.identifier == i))

-- A request that had access gives it back, which may let others in. It is called for requests of the
-- queue only: the source then fails neither of its assertions on the ends of the list, and the count
-- is not 0 before it is lowered.
unfoldable pub remove_from_access_queue : ℕ → AccessQueue → AccessQueue
unfolding poll_access_queue has_identifier
remove_from_access_queue i q =
    let left : AccessQueue = record {
      granted = without i q.granted;
      pending = without i q.pending;
      num_requests_active = q.num_requests_active - 1;
    } in
    if has_identifier i q.granted then poll_access_queue left else left

unfoldable pub request_has_access : ℕ → AccessQueue → AccessQueue × Bool
unfolding poll_access_queue has_identifier
request_has_access i q = let p = poll_access_queue q in (p, has_identifier i p.granted)

-- The calls that the memory manager makes on a queue.
pub data QueueCall : Type 0 where
  add : AccessRequest → QueueCall
  poll : QueueCall
  remove : ℕ → QueueCall

pub call : QueueCall → AccessQueue → AccessQueue
unfolding add_to_access_queue poll_access_queue remove_from_access_queue
call (add r) q = add_to_access_queue r q
call poll q = poll_access_queue q
call (remove i) q = remove_from_access_queue i q

pub run : List QueueCall → AccessQueue → AccessQueue
unfolding call
run [] q = q
run (x ∷ xs) q = run xs (call x q)

abbrev pub empty_queue : AccessQueue
empty_queue = record { granted = []; pending = []; num_requests_active = 0 }

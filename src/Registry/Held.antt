-- ===== src/Registry/Held.antt =====
-- The requests that the registry makes at the memory manager and gives back, counted in the calls
-- that the memory manager is given; what the memory manager does with them is left open.
use kmm.Prelude.{
  ℕ, ◌+◌, ◌≡◌, refl, sym, subst, Bool, true, false, Option, none, some, List, [], ◌∷◌, ◌++◌, arith,
  ◌==◌, ◌&&◌,
}
use kmm.Prelude.Results.{Result, ok, err, not_found}
use kmm.Streams.Event.{DeviceEvent}
use kmm.Streams.EventSet.{DeviceEventSet}
use kmm.TaskGraph.{BufferRequirement}
use kmm.Registry.{
  MemoryManager, Buffers, get, release_all, request_for, create_from, create_requests, poll_from,
  poll_requests,
}

abbrev pub one_if : Bool → ℕ
one_if true = 1
one_if false = 0

-- How often a number stands in a list.
abbrev pub occurrences : ℕ → List ℕ → ℕ
occurrences q [] = 0
occurrences q (r ∷ rs) = one_if (r == q) + occurrences q rs

-- The calls of a memory manager that make a request and give one back, newest first.
pub data ManagerCall : Type 0 where
  made_request released_request : (request : ℕ) → ManagerCall

-- How many requests of a number have been made, and given back.
abbrev pub made_in : List ManagerCall → ℕ → ℕ
made_in [] q = 0
made_in (made_request r ∷ log) q = one_if (r == q) + made_in log q
made_in (released_request r ∷ log) q = made_in log q

abbrev pub released_in : List ManagerCall → ℕ → ℕ
released_in [] q = 0
released_in (made_request r ∷ log) q = released_in log q
released_in (released_request r ∷ log) q = one_if (r == q) + released_in log q

abbrev pub logged : Result ℕ → List ManagerCall → List ManagerCall
logged (ok r) log = made_request r ∷ log
logged (err e) log = log

-- A memory manager, whatever it does, together with the calls that it has been given.
abbrev pub observed : {M : Type 0} → MemoryManager M → MemoryManager (M × List ManagerCall)
observed manager = record {
  create_buffer =
      λ layout id m. let (m1, made) = manager.create_buffer layout id m.0 in ((m1, m.1), made);
  delete_buffer =
      λ buffer m. let (m1, deleted) = manager.delete_buffer buffer m.0 in ((m1, m.1), deleted);
  create_request = λ buffer memory_id mode m.
      let (m1, made) = manager.create_request buffer memory_id mode m.0 in
      ((m1, logged made m.1), made);
  poll_request = λ req deps m.
      let (m1, deps1, polled) = manager.poll_request req deps m.0 in ((m1, m.1), deps1, polled);
  release_request =
      λ req event m. (manager.release_request req event m.0, released_request req ∷ m.1);
  get_accessor = λ req m. manager.get_accessor req m.0;
}

module _ {M : Type 0} (manager : MemoryManager M) where
  -- All requests that have been made are given back, but for these and those of others.
  abbrev pub Holds : (ℕ → ℕ) → List ℕ → M × List ManagerCall → Type 0
  Holds base requests m =
      (q : ℕ) → made_in m.1 q ≡ released_in m.1 q + (base q + occurrences q requests)

  pub release_all-Holds :
      (base : ℕ → ℕ) (requests : List ℕ) (event : DeviceEvent) (m : M × List ManagerCall)
      → Holds base requests m
      → Holds base [] (release_all (observed manager) requests event m)
  unfolding release_all
  release_all-Holds base [] event m h = h
  release_all-Holds base (r ∷ rs) event m h =
      release_all-Holds base rs event
        (manager.release_request r event m.0, released_request r ∷ m.1) (λ q. omega (arith, h q))

  occurrences-append :
      (q : ℕ) (xs ys : List ℕ) → occurrences q (xs ++ ys) ≡ occurrences q xs + occurrences q ys
  occurrences-append q [] ys = omega arith
  occurrences-append q (x ∷ xs) ys = omega (arith, occurrences-append q xs ys)

  -- What creating requests leaves: all of them, or none when one fails.
  abbrev pub Created : (ℕ → ℕ) → (M × List ManagerCall) × Result (List ℕ) → Type 0
  Created base (m, ok requests) = Holds base requests m
  Created base (m, err e) = Holds base [] m

  -- A call that makes at most the request it returns.
  abbrev Makes : M × List ManagerCall → (M × List ManagerCall) × Result ℕ → Type 0
  Makes m made = made.0.1 ≡ logged made.1 m.1

  request_for-Makes :
      (r : BufferRequirement) (buffers : Buffers) (m : M × List ManagerCall)
      → Makes m (request_for (observed manager) r buffers m)
  unfolding request_for
  request_for-Makes r buffers m = by_buffer (get r.buffer_id buffers)
    where
      made : Result (Option ℕ) → (M × List ManagerCall) × Result ℕ
      made found = elim found [
        | err e ↦ (m, err e)
        | ok none ↦ (m, err not_found)
        | ok (some buffer) ↦ (observed manager).create_request buffer r.memory_id r.access_mode m
      ]

      by_buffer : (found : Result (Option ℕ)) → Makes m (made found)
      by_buffer (err e) = refl
      by_buffer (ok none) = refl
      by_buffer (ok (some buffer)) = refl

  create_from-Created :
      (base : ℕ → ℕ) (rs : List BufferRequirement) (requests : List ℕ) (buffers : Buffers)
      (m : M × List ManagerCall)
      → Holds base requests m
      → Created base (create_from (observed manager) rs requests buffers m)
  unfolding create_from
  create_from-Created base [] requests buffers m h = h
  create_from-Created base (r ∷ rs) requests buffers m h =
      by_result (request_for (observed manager) r buffers m) (request_for-Makes r buffers m)
        (λ req m1. create_from-Created base rs (requests ++ req ∷ []) buffers m1)
    where
      by_result :
          (made : (M × List ManagerCall) × Result ℕ)
          → Makes m made
          → ((req : ℕ) (m1 : M × List ManagerCall)
              → Holds base (requests ++ req ∷ []) m1
              → Created base (create_from (observed manager) rs (requests ++ req ∷ []) buffers m1))
          → Created base (elim made.1 [
            | err e ↦ (release_all (observed manager) requests 0 made.0, err e)
            | ok req ↦ create_from (observed manager) rs (requests ++ req ∷ []) buffers made.0
          ])
      by_result ((m1, log), err e) same later =
          release_all-Holds base requests 0 (m1, log)
            (subst (λ z. Holds base requests (m1, z)) (sym same) h)
      by_result ((m1, log), ok req) same later =
          later req (m1, log)
            (subst (λ z. Holds base (requests ++ req ∷ []) (m1, z)) (sym same)
              (λ q. omega (arith, h q, occurrences-append q requests (req ∷ []))))

  -- Creating the requests for a list of buffers, whatever the memory manager does: the requests that
  -- are made and not released again are those that it returns, each once; when one of them fails,
  -- whether its buffer is missing or poisoned or the memory manager throws, those made before it are
  -- released again, each once.
  pub create_requests-Created :
      (rs : List BufferRequirement) (buffers : Buffers) (m : M × List ManagerCall) (base : ℕ → ℕ)
      → Holds base [] m
      → Created base (create_requests (observed manager) rs buffers m)
  unfolding create_requests
  create_requests-Created rs buffers m base h = create_from-Created base rs [] buffers m h

  poll_from-log :
      (requests : List ℕ) (result : Bool) (deps : DeviceEventSet) (m : M × List ManagerCall)
      → (poll_from (observed manager) requests result deps m).0.1 ≡ m.1
  unfolding poll_from
  poll_from-log [] result deps m = refl
  poll_from-log (r ∷ rs) result deps m =
      by_result (manager.poll_request r deps m.0)
        (λ ready deps1 m1. poll_from-log rs (result && ready) deps1 m1)
    where
      others :
          M × DeviceEventSet × Result Bool → (M × List ManagerCall) × DeviceEventSet × Result Bool
      others polled = elim polled.2 [
        | err e ↦ ((polled.0, m.1), polled.1, err e)
        | ok ready ↦ poll_from (observed manager) rs (result && ready) polled.1 (polled.0, m.1)
      ]

      by_result :
          (polled : M × DeviceEventSet × Result Bool)
          → ((ready : Bool) (deps1 : DeviceEventSet) (m1 : M × List ManagerCall)
              → (poll_from (observed manager) rs (result && ready) deps1 m1).0.1 ≡ m1.1)
          → (others polled).0.1 ≡ m.1
      by_result (m1, deps1, err e) later = refl
      by_result (m1, deps1, ok ready) later = later ready deps1 (m1, m.1)

  pub poll_requests-Holds :
      (requests : List ℕ) (deps : DeviceEventSet) (m : M × List ManagerCall) (base : ℕ → ℕ)
      (kept : List ℕ)
      → Holds base kept m
      → Holds base kept (poll_requests (observed manager) requests deps m).0
  unfolding poll_requests
  poll_requests-Holds requests deps m base kept h q = cc (h q, poll_from-log requests true deps m)

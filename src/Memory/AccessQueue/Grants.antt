-- ===== src/Memory/AccessQueue/Grants.antt =====
-- Which requests hold access to a buffer at the same time, and in what order they get it.
use mathlib.Core.List.{append_assoc, append-nil}
use kmm.Prelude.{
  ℕ, ◌-◌, ◌≡◌, refl, sym, ◌∙◌, subst, ◌⊎◌, inl, inr, Bool, true, false, not, List, [], ◌∷◌, ◌++◌,
  arith, ◌==◌, All, All-append, keep, Bool-cases, if_true, if_false, ==_refl,
}
use kmm.Identifiers.{host_type, memory_eq, device, SameMemory}
use kmm.Memory.Types.{read_write, is_writer, is_exclusive}
use kmm.Memory.AccessQueue.{
  AccessRequest, AccessQueue, add_to_access_queue, allowed_beside, is_access_allowed, poll_pending,
  poll_access_queue, has_identifier, without, remove_from_access_queue, QueueCall, add, poll,
  remove, call, run, empty_queue,
}

-- Each request that has access was allowed beside those granted before it.
abbrev pub IsCompatible : List AccessRequest → List AccessRequest → Type 0
IsCompatible before [] = Unit {0}
IsCompatible before (r ∷ rs) =
    All (λ it. allowed_beside r it ≡ true) before × IsCompatible (before ++ r ∷ []) rs

allowed_iff :
    (req : AccessRequest) (granted : List AccessRequest)
    → is_access_allowed req granted ≡ true
    → All (λ it. allowed_beside req it ≡ true) granted
unfolding is_access_allowed
allowed_iff req [] h = tt
allowed_iff req (it ∷ rest) h = elim (Bool-cases (allowed_beside req it)) [
  | inl e ↦ (e, allowed_iff req rest (sym (if_true _ _ e) ∙ h))
  | inr e ↦ absurd (cc (h, if_false (is_access_allowed req rest) false e))
]

IsCompatible-snoc :
    (before xs : List AccessRequest) (r : AccessRequest)
    → IsCompatible before xs
    → All (λ it. allowed_beside r it ≡ true) (before ++ xs)
    → IsCompatible before (xs ++ r ∷ [])
IsCompatible-snoc before [] r h ok_r = (rw append-nil at ok_r, tt)
IsCompatible-snoc before (x ∷ xs) r h ok_r =
    (h.0, IsCompatible-snoc (before ++ x ∷ []) xs r h.1 (rw append_assoc ok_r))

-- What a round of polling leaves.
pub record Polled (granted pending : List AccessRequest) (q : AccessQueue) : Type 0 where
  pub compatible : IsCompatible [] q.granted
  pub order : q.granted ++ q.pending ≡ granted ++ pending
  pub extends : (more : List AccessRequest) × (q.granted ≡ granted ++ more)
  pub stuck :
      (q.pending ≡ [])
      ⊎ ((r : AccessRequest) × (rest : List AccessRequest) × (q.pending ≡ r ∷ rest)
          × (is_access_allowed r q.granted ≡ false))

poll_pending-Polled :
    (granted pending : List AccessRequest) (n : ℕ)
    → IsCompatible [] granted
    → Polled granted pending (poll_pending granted pending n)
unfolding poll_pending
poll_pending-Polled granted [] n h = record {
  compatible = h;
  order = refl;
  extends = ([], sym (append-nil granted));
  stuck = inl refl;
}
poll_pending-Polled granted (r ∷ pending) n h = elim (Bool-cases (is_access_allowed r granted)) [
  | inl e ↦
      let p =
        poll_pending-Polled (granted ++ r ∷ []) pending n
          (IsCompatible-snoc [] granted r h (allowed_iff r granted e)) in
      rw (e, poll_pending)
        (record {
          compatible = p.compatible;
          order = p.order ∙ append_assoc granted (r ∷ []) pending;
          extends = (r ∷ p.extends.0, p.extends.1 ∙ append_assoc granted (r ∷ []) p.extends.0);
          stuck = p.stuck;
        })
  | inr e ↦
      rw (e, poll_pending)
        (record {
          compatible = h;
          order = refl;
          extends = ([], sym (append-nil granted));
          stuck = inr (r, pending, refl, e);
        })
]

-- Polling grants access in the order of the queue, only to requests that are allowed beside those
-- before them, and goes on until the queue is empty or its next request is not allowed.
pub poll_access_queue-Polled :
    (q : AccessQueue) → IsCompatible [] q.granted → Polled q.granted q.pending (poll_access_queue q)
unfolding poll_access_queue
poll_access_queue-Polled q h = poll_pending-Polled q.granted q.pending q.num_requests_active h

-- Taking requests out of a queue leaves the others compatible.
All-prefix :
    (P : AccessRequest → Type 0) (xs ys : List AccessRequest)
    → All P (xs ++ ys)
    → All P xs × All P ys
All-prefix P [] ys h = (tt, h)
All-prefix P (x ∷ xs) ys h = let (a, b) = All-prefix P xs ys h.1 in ((h.0, a), b)

IsCompatible-keep :
    (p : AccessRequest → Bool) (before before' xs : List AccessRequest)
    → ((r : AccessRequest)
        → All (λ it. allowed_beside r it ≡ true) before
        → All (λ it. allowed_beside r it ≡ true) before')
    → IsCompatible before xs
    → IsCompatible before' (keep p xs)
IsCompatible-keep p before before' [] sub h = tt
IsCompatible-keep p before before' (x ∷ xs) sub h = elim (Bool-cases (p x)) [
  | inl e ↦ subst (IsCompatible before') (sym (if_true _ _ e)) (
    sub x h.0,
    IsCompatible-keep p (before ++ x ∷ []) (before' ++ x ∷ []) xs
        (λ r a.
          let (l, m) = All-prefix (λ it. allowed_beside r it ≡ true) before (x ∷ []) a in
          All-append (λ it. allowed_beside r it ≡ true) before' (x ∷ []) (sub r l) m)
        h.1,
  )
  | inr e ↦ subst (IsCompatible before') (sym (if_false _ _ e)) (
      IsCompatible-keep p (before ++ x ∷ []) before' xs
        (λ r a. sub r (All-prefix (λ it. allowed_beside r it ≡ true) before (x ∷ []) a).0) h.1)
]

call-IsCompatible :
    (x : QueueCall) (q : AccessQueue)
    → IsCompatible [] q.granted
    → IsCompatible [] (call x q).granted
unfolding call add_to_access_queue remove_from_access_queue
call-IsCompatible (add r) q h = h
call-IsCompatible poll q h = (poll_access_queue-Polled q h).compatible
call-IsCompatible (remove i) q h =
    let left : AccessQueue = record {
      granted = without i q.granted;
      pending = without i q.pending;
      num_requests_active = q.num_requests_active - 1;
    } in
    let kept : IsCompatible [] (without i q.granted) =
      IsCompatible-keep (λ r. not (r.identifier == i)) [] [] q.granted (λ r a. a) h in
    elim (Bool-cases (has_identifier i q.granted)) [
      | inl e ↦
          subst (λ (z : AccessQueue). IsCompatible [] z.granted) (sym (if_true _ left e))
            (poll_access_queue-Polled left kept).compatible
      | inr e ↦
          subst (λ (z : AccessQueue). IsCompatible [] z.granted)
            (sym (if_false (poll_access_queue left) _ e)) kept
    ]

pub run-IsCompatible :
    (xs : List QueueCall) (q : AccessQueue)
    → IsCompatible [] q.granted
    → IsCompatible [] (run xs q).granted
unfolding run
run-IsCompatible [] q h = h
run-IsCompatible (x ∷ xs) q h = run-IsCompatible xs (call x q) (call-IsCompatible x q h)

allowed_later :
    (before ys zs : List AccessRequest) (a b : AccessRequest)
    → ((r : AccessRequest)
        → All (λ it. allowed_beside r it ≡ true) before
        → allowed_beside r a ≡ true)
    → IsCompatible before (ys ++ b ∷ zs)
    → allowed_beside b a ≡ true
allowed_later before [] zs a b sel h = sel b h.0
allowed_later before (y ∷ ys) zs a b sel h =
    allowed_later (before ++ y ∷ []) ys zs a b
      (λ r all. sel r (All-prefix (λ it. allowed_beside r it ≡ true) before (y ∷ []) all).0) h.1

allowed_pair :
    (before xs ys zs : List AccessRequest) (a b : AccessRequest)
    → IsCompatible before (xs ++ (a ∷ (ys ++ b ∷ zs)))
    → allowed_beside b a ≡ true
allowed_pair before (x ∷ xs) ys zs a b h = allowed_pair (before ++ x ∷ []) xs ys zs a b h.1
allowed_pair before [] ys zs a b h =
    allowed_later (before ++ a ∷ []) ys zs a b
      (λ r all. (All-prefix (λ it. allowed_beside r it ≡ true) before (a ∷ []) all).1.0) h.1

-- After any calls on a new queue: of two requests that have access at the same time neither is
-- exclusive, and both only read or the later one's memory id compares equal to the earlier one's.
pub granted_pair :
    (calls : List QueueCall) (xs ys zs : List AccessRequest) (a b : AccessRequest)
    → (run calls empty_queue).granted ≡ xs ++ (a ∷ (ys ++ b ∷ zs))
    → (is_exclusive a.mode ≡ false)
      × (is_exclusive b.mode ≡ false)
      × ((is_writer a.mode ≡ false) × (is_writer b.mode ≡ false)
          ⊎ (memory_eq b.memory_id a.memory_id ≡ true))
unfolding allowed_beside
granted_pair calls xs ys zs a b e =
    let h : allowed_beside b a ≡ true =
      allowed_pair [] xs ys zs a b
        (subst (IsCompatible []) e (run-IsCompatible calls empty_queue tt)) in
    (ground arith, ground arith, ground arith)

-- Two writers get access at the same time, one on the host close to device i and one on device i,
-- although these are two memories.
pub granted_apart :
    (i k l : ℕ)
    → let a : AccessRequest = record {
      identifier = k;
      memory_id = record { type = host_type; value = i };
      mode = read_write;
    } in
      let b : AccessRequest = record { identifier = l; memory_id = device i; mode = read_write } in
      ((run (add a ∷ add b ∷ poll ∷ []) empty_queue).granted ≡ a ∷ b ∷ [])
      × (SameMemory a.memory_id b.memory_id → ⊥)
unfolding run add_to_access_queue poll_access_queue memory_eq
granted_apart i k l = (ground (arith, ==_refl i), λ s. cc s.0)

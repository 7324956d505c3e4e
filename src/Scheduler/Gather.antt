-- ===== src/Scheduler/Gather.antt =====
-- The loop of submit over the dependencies: the links it makes and the number it counts.

use kmm.Prelude.{
  ℕ, ◌+◌, ◌%◌, ◌^◌, ◌≤◌, ◌<◌, ◌≡◌, ◌≢◌, refl, sym, ◌∙◌, ap, subst, inl, inr, false, ◌&&◌, some,
  List, [], ◌∷◌, ◌++◌, arith, ◌==◌, length, All, All-append, Bool-cases, Option-cases, ==_refl,
}
use kmm.Streams.EventSet.{DeviceEventSet, insert_all}
use kmm.Scheduler.{
  ready_to_start, TaskRecord, Scheduler, update, has_completed, is_awaiting, is_waiting, find_task,
  gather, enqueue_if_ready,
}
use kmm.Scheduler.Counting.{
  sum_below, sum_below-change, count, count-append, is_scheduled, blocks, update-cases, update_self,
  update_ne,
}
use kmm.Scheduler.Invariant.{Listed, Listed-update}

pub find_task-Listed :
    (f : ℕ → TaskRecord) (n id : ℕ) (tasks : List (ℕ × ℕ)) {q : ℕ}
    → All (Listed f n) tasks
    → find_task id tasks ≡ some q
    → (q < n) × (has_completed (f q).status ≡ false)
unfolding find_task
find_task-Listed f n id [] h e = absurd (cc e)
find_task-Listed f n id ((j, r) ∷ rest) {q} h e = elim (Bool-cases (j == id)) [
  | inl hit ↦
      let same : r ≡ q = ground (arith, hit, e) in
      subst (λ k. (k < n) × (has_completed (f k).status ≡ false)) same (h.0.0, h.0.2)
  | inr miss ↦ find_task-Listed f n id rest h.1 (ground (arith, miss, e))
]

-- How the loop over the dependencies changes the records: `p` is added to successors.
pub record Links (p : ℕ) (f g : ℕ → TaskRecord) : Type 0 where
  pub event_id : (x : ℕ) → (g x).event_id ≡ (f x).event_id
  pub status : (x : ℕ) → (g x).status ≡ (f x).status
  pub queue : (x : ℕ) → (g x).queue ≡ (f x).queue
  pub pending : (x : ℕ) → (g x).predecessors_pending ≡ (f x).predecessors_pending
  pub other : (x z : ℕ) → p ≢ z → count z (g x).successors ≡ count z (f x).successors
  pub more : (x : ℕ) → count p (f x).successors ≤ count p (g x).successors
  pub inside :
      (x : ℕ)
      → x < p
      → All (λ y. (x < y) × (y < p + 1)) (f x).successors
      → All (λ y. (x < y) × (y < p + 1)) (g x).successors

pub Links-refl : (p : ℕ) (f : ℕ → TaskRecord) → Links p f f
Links-refl p f = record {
  event_id = λ x. refl;
  status = λ x. refl;
  queue = λ x. refl;
  pending = λ x. refl;
  other = λ x z h. refl;
  more = λ x. omega arith;
  inside = λ x h a. a;
}

pub Links-trans : {p : ℕ} {f g h : ℕ → TaskRecord} → Links p f g → Links p g h → Links p f h
Links-trans a b = record {
  event_id = λ x. b.event_id x ∙ a.event_id x;
  status = λ x. b.status x ∙ a.status x;
  queue = λ x. b.queue x ∙ a.queue x;
  pending = λ x. b.pending x ∙ a.pending x;
  other = λ x z n. b.other x z n ∙ a.other x z n;
  more = λ x. omega (arith, a.more x, b.more x);
  inside = λ x lt all. b.inside x lt (a.inside x lt all);
}

abbrev pub linked : ℕ → TaskRecord → TaskRecord
linked p t = record t { successors = t.successors ++ p ∷ [] }

-- A property of the records after one link.
pub link_cases :
    (p q : ℕ) (f : ℕ → TaskRecord) (P : ℕ → TaskRecord → Type 0)
    → ((x : ℕ) → P x (f x))
    → P q (linked p (f q))
    → (x : ℕ) → P x (update f q (linked p (f q)) x)
link_cases p q f P old new x = elim (update-cases f q (linked p (f q)) x) [
  | inl (e, r) ↦ subst (P x) (sym r) (subst (λ k. P k (linked p (f q))) e new)
  | inr (_, r) ↦ subst (P x) (sym r) (old x)
]

pub link-Links : (p q : ℕ) (f : ℕ → TaskRecord) → q < p → Links p f (update f q (linked p (f q)))
link-Links p q f lt = record {
  event_id = link_cases p q f (λ x t. t.event_id ≡ (f x).event_id) (λ x. refl) refl;
  status = link_cases p q f (λ x t. t.status ≡ (f x).status) (λ x. refl) refl;
  queue = link_cases p q f (λ x t. t.queue ≡ (f x).queue) (λ x. refl) refl;
  pending =
      link_cases p q f (λ x t. t.predecessors_pending ≡ (f x).predecessors_pending) (λ x. refl)
        refl;
  other = λ x z n.
      link_cases p q f (λ x t. count z t.successors ≡ count z (f x).successors) (λ x. refl)
        (ground (arith, count-append z (f q).successors (p ∷ []))) x;
  more =
      link_cases p q f (λ x t. count p (f x).successors ≤ count p t.successors) (λ x. omega arith)
        (omega (arith, count-append p (f q).successors (p ∷ [])));
  inside =
      link_cases p q f
        (λ x t.
          x < p
          → All (λ y. (x < y) × (y < p + 1)) (f x).successors
          → All (λ y. (x < y) × (y < p + 1)) t.successors)
        (λ x h a. a) (λ h a. All-append _ (f q).successors (p ∷ []) a ((h, omega arith), tt));
}

-- What the loop leaves: the number and the links agree.
pub record Gathers (p : ℕ) (deps : List ℕ) (n : ℕ) (f : ℕ → TaskRecord)
    (r : ℕ × DeviceEventSet × (ℕ → TaskRecord)) : Type 0 where
  pub links : Links p f r.2
  pub counted : sum_below p (λ q. blocks p (r.2 q)) + n ≡ sum_below p (λ q. blocks p (f q)) + r.0
  pub bound : r.0 ≤ n + length deps

pub gather-Gathers :
    (p : ℕ) (deps : List ℕ) (n : ℕ) (events : DeviceEventSet) (f : ℕ → TaskRecord)
    (tasks : List (ℕ × ℕ))
    → n + length deps < 2 ^ 64
    → All (Listed f p) tasks
    → Gathers p deps n f (gather p deps n events f tasks)
unfolding gather
gather-Gathers p [] n events f tasks fits h = record {
  links = Links-refl p f;
  counted = omega arith;
  bound = omega arith;
}
gather-Gathers p (dep ∷ deps) n events f tasks fits h = elim (Option-cases (find_task dep tasks)) [
  | inl unknown ↦
      let g = gather-Gathers p deps n events f tasks (omega arith) h in
      rw (unknown, gather)
        (record { links = g.links; counted = g.counted; bound = omega (arith, g.bound) })
  | inr (q, found) ↦
      let (lt, unfinished) = find_task-Listed f p dep tasks h found in
      let t' = linked p (f q) in
      let f' = update f q t' in
      let h' = Listed-update f p q t' tasks refl unfinished h in
      let change =
        sum_below-change p q (λ x. blocks p (f x)) (λ x. blocks p (f' x)) lt
          (λ x ne. ap (blocks p) (sym (update_ne f q x t' ne))) in
      let here : blocks p (f' q) ≡ blocks p t' = ap (blocks p) (update_self f q t') in
      elim (Bool-cases (is_waiting (f q).status)) [
        | inl done ↦
            let g =
              gather-Gathers p deps n (insert_all (f q).output_events events) f' tasks (omega arith)
                h' in
            let same : blocks p t' ≡ blocks p (f q) = ground (arith, done) in
            rw (found, gather)
              (rw done (record {
                links = Links-trans (link-Links p q f lt) g.links;
                counted = omega (arith, g.counted, change, here, same);
                bound = omega (arith, g.bound);
              }))
        | inr waits ↦
            let one : (n + 1) % 2 ^ 64 ≡ n + 1 = omega arith in
            let g =
              gather-Gathers p deps ((n + 1) % 2 ^ 64) events f' tasks (omega (arith, one)) h' in
            let open_q : is_scheduled (f q).status ≡ false = ground (arith, waits, unfinished) in
            let grown : blocks p t' ≡ blocks p (f q) + 1 =
              ground (arith, open_q, count-append p (f q).successors (p ∷ []), ==_refl p) in
            rw (found, gather)
              (rw waits (record {
                links = Links-trans (link-Links p q f lt) g.links;
                counted = omega (arith, g.counted, change, here, grown, one);
                bound = omega (arith, g.bound, one);
              }))
      ]
]

-- A dependency that is known has the new record among its successors.
pub gather-linked :
    (p : ℕ) (xs : List ℕ) (dep : ℕ) (ys : List ℕ) (n : ℕ) (events : DeviceEventSet)
    (f : ℕ → TaskRecord) (tasks : List (ℕ × ℕ)) {q : ℕ}
    → n + length (xs ++ dep ∷ ys) < 2 ^ 64
    → All (Listed f p) tasks
    → find_task dep tasks ≡ some q
    → 0 < count p ((gather p (xs ++ dep ∷ ys) n events f tasks).2 q).successors
unfolding gather
gather-linked p [] dep ys n events f tasks {q} fits h found =
    let (lt, unfinished) = find_task-Listed f p dep tasks h found in
    let t' = linked p (f q) in
    let f' = update f q t' in
    let h' = Listed-update f p q t' tasks refl unfinished h in
    let here : 0 < count p (f' q).successors =
      subst (λ (t : TaskRecord). 0 < count p t.successors) (sym (update_self f q t'))
        (ground (arith, count-append p (f q).successors (p ∷ []), ==_refl p)) in
    elim (Bool-cases (is_waiting (f q).status)) [
      | inl done ↦
          let g =
            gather-Gathers p ys n (insert_all (f q).output_events events) f' tasks (omega arith)
              h' in
          rw (found, gather) (rw done (omega (arith, here, g.links.more q)))
      | inr waits ↦
          let one : (n + 1) % 2 ^ 64 ≡ n + 1 = omega arith in
          let g = gather-Gathers p ys ((n + 1) % 2 ^ 64) events f' tasks (omega (arith, one)) h' in
          rw (found, gather) (rw waits (omega (arith, here, g.links.more q)))
    ]
gather-linked p (x ∷ xs) dep ys n events f tasks {q} fits h found =
    elim (Option-cases (find_task x tasks)) [
      | inl unknown ↦
          rw (unknown, gather) (gather-linked p xs dep ys n events f tasks (omega arith) h found)
      | inr (r, other) ↦
          let (lt, unfinished) = find_task-Listed f p x tasks h other in
          let t' = linked p (f r) in
          let f' = update f r t' in
          let h' = Listed-update f p r t' tasks refl unfinished h in
          let one : (n + 1) % 2 ^ 64 ≡ n + 1 = omega arith in
          elim (Bool-cases (is_waiting (f r).status)) [
            | inl done ↦
                rw (other, gather)
                  (rw done (
                    gather-linked p xs dep ys n (insert_all (f r).output_events events) f' tasks
                      (omega arith) h' found))
            | inr waits ↦
                rw (other, gather)
                  (rw waits (
                    gather-linked p xs dep ys ((n + 1) % 2 ^ 64) events f' tasks
                      (omega (arith, one)) h' found))
          ]
    ]

pub enqueue_if_ready_successors :
    (y : ℕ) (s : Scheduler) (x : ℕ)
    → ((enqueue_if_ready y s).records x).successors ≡ (s.records x).successors
unfolding enqueue_if_ready
enqueue_if_ready_successors y s x =
    elim (Bool-cases
      (is_awaiting (s.records y).status && (s.records y).predecessors_pending == 0)) [
        | inr e ↦ rw e refl
        | inl e ↦
            rw e
              (elim (update-cases s.records y (record (s.records y) { status = ready_to_start })
                x) [
                  | inl (yx, r) ↦
                      ap (λ (t : TaskRecord). t.successors) r
                      ∙ ap (λ k. (s.records k).successors) yx
                  | inr (_, r) ↦ ap (λ (t : TaskRecord). t.successors) r
                ])
      ]

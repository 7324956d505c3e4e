-- ===== src/TaskGraph/Barrier.antt =====
-- A barrier stands for every event since the one before it.
use kmm.Prelude.{
  ℕ, ◌+◌, ◌^◌, ◌<◌, ◌≡◌, refl, sym, ap, subst, ◌⊎◌, inl, inr, true, List, [], ◌∷◌, ◌++◌, arith, All,
  All-append, Bool-cases,
}
use kmm.TaskGraph.{Node, TaskGraph, insert_node, all_equal_to, join_events, insert_barrier, commit}
use kmm.TaskGraph.Order.{IsSound, join_events-IsSound}

all_equal_to_sound : (d : ℕ) (ds : List ℕ) → all_equal_to d ds ≡ true → All (λ e. e ≡ d) ds
unfolding all_equal_to
all_equal_to_sound d [] h = tt
all_equal_to_sound d (e ∷ es) h =
    let same : e ≡ d = ground (arith, h) in
    let rest : all_equal_to e es ≡ true = ground (arith, h) in
    (same, subst (λ x. All (λ y. y ≡ x) es) same (all_equal_to_sound e es rest))

-- An event that stands for a list of events: it is each of them, or it belongs to a new last node
-- that depends on exactly them.
pub record StandsFor (deps : List ℕ) (g : TaskGraph) (r : ℕ × TaskGraph) : Type 0 where
  pub stands :
      (All (λ d. d ≡ r.0) deps × (r.1 ≡ g))
      ⊎ ((n : Node) × (r.1.staged_nodes ≡ g.staged_nodes ++ n ∷ [])
          × (n.id ≡ r.0)
          × (n.dependencies ≡ deps))

pub join_events-StandsFor : (deps : List ℕ) (g : TaskGraph) → StandsFor deps g (join_events deps g)
unfolding join_events insert_node
join_events-StandsFor [] g = record { stands = inl (tt, refl) }
join_events-StandsFor (d ∷ ds) g = elim (Bool-cases (all_equal_to d ds)) [
  | inl e ↦ rw e (record { stands = inl ((refl, all_equal_to_sound d ds e), refl) })
  | inr e ↦ rw e (record { stands = inr (_, refl, refl, refl) })
]

cleared : TaskGraph → TaskGraph
cleared g = record g { events_since_last_barrier = [] }

cleared-IsSound : (g : TaskGraph) → IsSound g → IsSound (cleared g)
unfolding cleared
cleared-IsSound g s = record {
  ordered = s.ordered;
  used = s.used;
  events = tt;
  barrier = inl refl;
  barrier_le = s.barrier_le;
  positive = s.positive;
}

-- On a sound stage with events since the last barrier, `commit` returns an event that stands for
-- all of them and for the last barrier: it is each of them, or the handed-out nodes end with its
-- own, which depends on exactly them. It becomes the last barrier, and the stage left is sound.
pub commit_lem :
    (g : TaskGraph) (e : ℕ) (es : List ℕ)
    → IsSound g
    → g.events_since_last_barrier ≡ e ∷ es
    → g.next_event_id + 1 < 2 ^ 64
    → (All (λ d. d ≡ (commit g).0) (e ∷ (es ++ g.last_barrier_id ∷ []))
          × ((commit g).1 ≡ g.staged_nodes)
        ⊎ ((n : Node) × ((commit g).1 ≡ g.staged_nodes ++ n ∷ [])
            × (n.id ≡ (commit g).0)
            × (n.dependencies ≡ e ∷ (es ++ g.last_barrier_id ∷ []))))
      × ((commit g).3.last_barrier_id ≡ (commit g).0)
      × ((commit g).3.staged_nodes ≡ [])
      × IsSound (commit g).3
unfolding commit insert_barrier cleared
commit_lem g e es s q h =
    let deps : List ℕ = e ∷ (es ++ g.last_barrier_id ∷ []) in
    let run : insert_barrier g ≡ join_events deps (cleared g) = ap from_events q in
    let below : All (λ d. d < g.next_event_id) (e ∷ es) =
      subst (All (λ d. d < g.next_event_id)) q s.events in
    let last : g.last_barrier_id < g.next_event_id = elim s.barrier [
      | inl none_yet ↦ absurd (cc (q, none_yet))
      | inr l ↦ l
    ] in
    let (sound, fresh) =
      join_events-IsSound deps (cleared g) (cleared-IsSound g s)
        (All-append (λ d. d < g.next_event_id) (e ∷ es) (g.last_barrier_id ∷ []) below (last, tt))
        h in
    subst After (sym run) (after sound fresh (join_events-StandsFor deps (cleared g)).stands)
  where
    from_events : List ℕ → ℕ × TaskGraph
    from_events xs = elim xs [
      | [] ↦ (g.last_barrier_id, g)
      | x ∷ rest ↦ join_events ((x ∷ rest) ++ g.last_barrier_id ∷ []) (cleared g)
    ]

    left : ℕ × TaskGraph → TaskGraph
    left r = record (r.1) { last_barrier_id = r.0; staged_nodes = []; staged_buffers = [] }

    After : ℕ × TaskGraph → Type 0
    After r =
        (All (λ d. d ≡ r.0) (e ∷ (es ++ g.last_barrier_id ∷ []))
            × (r.1.staged_nodes ≡ g.staged_nodes)
          ⊎ ((n : Node) × (r.1.staged_nodes ≡ g.staged_nodes ++ n ∷ [])
              × (n.id ≡ r.0)
              × (n.dependencies ≡ e ∷ (es ++ g.last_barrier_id ∷ []))))
        × ((left r).last_barrier_id ≡ r.0)
        × ((left r).staged_nodes ≡ [])
        × IsSound (left r)

    left-IsSound : (r : ℕ × TaskGraph) → IsSound r.1 → r.0 < r.1.next_event_id → IsSound (left r)
    left-IsSound r sound fresh = record {
      ordered = tt;
      used = tt;
      events = sound.events;
      barrier = inr fresh;
      barrier_le = omega (arith, fresh);
      positive = sound.positive;
    }

    after :
        {r : ℕ × TaskGraph}
        → IsSound r.1
        → r.0 < r.1.next_event_id
        → (All (λ d. d ≡ r.0) (e ∷ (es ++ g.last_barrier_id ∷ [])) × (r.1 ≡ cleared g))
          ⊎ ((n : Node) × (r.1.staged_nodes ≡ g.staged_nodes ++ n ∷ [])
              × (n.id ≡ r.0)
              × (n.dependencies ≡ e ∷ (es ++ g.last_barrier_id ∷ [])))
        → After r
    after {r} sound fresh (inl (eqs, same)) = (
      inl (eqs, ap (λ (x : TaskGraph). x.staged_nodes) same),
      refl,
      refl,
      left-IsSound r sound fresh,
    )
    after {r} sound fresh (inr n) = (inr n, refl, refl, left-IsSound r sound fresh)

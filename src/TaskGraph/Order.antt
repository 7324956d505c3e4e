-- ===== src/TaskGraph/Order.antt =====
-- The nodes of a stage stand in an order in which each depends on earlier events only.
use kmm.Prelude.{
  ℕ, ◌+◌, ◌^◌, ◌≤◌, ◌<◌, ◌≡◌, refl, ◌⊎◌, inl, inr, List, [], ◌∷◌, ◌++◌, arith, All, All-append,
  Bool-cases,
}
use kmm.TaskGraph.{
  Command, command_empty, Node, TaskGraph, initial, next_id, insert_node, all_equal_to, join_events,
}

-- Identifiers grow along the nodes, and each node depends on smaller ones only.
abbrev pub IsOrdered : ℕ → List Node → Type 0
IsOrdered lo [] = Unit {0}
IsOrdered lo (n ∷ ns) = (lo ≤ n.id) × All (λ d. d < n.id) n.dependencies × IsOrdered (n.id + 1) ns

pub record IsSound (g : TaskGraph) : Type 0 where
  pub ordered : IsOrdered 0 g.staged_nodes
  pub used : All (λ (n : Node). n.id < g.next_event_id) g.staged_nodes
  pub events : All (λ e. e < g.next_event_id) g.events_since_last_barrier
  pub barrier : (g.events_since_last_barrier ≡ []) ⊎ (g.last_barrier_id < g.next_event_id)
  pub barrier_le : g.last_barrier_id ≤ g.next_event_id
  pub positive : 0 < g.next_event_id

pub initial-IsSound : IsSound initial
initial-IsSound = record {
  ordered = tt;
  used = tt;
  events = tt;
  barrier = inl refl;
  barrier_le = omega arith;
  positive = omega arith;
}

All-mono :
    {A : Type 0} (f : A → ℕ) (m n : ℕ) (xs : List A)
    → m ≤ n
    → All (λ x. f x < m) xs
    → All (λ x. f x < n) xs
All-mono f m n [] h a = tt
All-mono f m n (x ∷ xs) h a = (omega (arith, h, a.0), All-mono f m n xs h a.1)

IsOrdered-snoc :
    (lo : ℕ) (ns : List Node) (n : Node)
    → lo ≤ n.id
    → IsOrdered lo ns
    → All (λ (m : Node). m.id < n.id) ns
    → All (λ d. d < n.id) n.dependencies
    → IsOrdered lo (ns ++ n ∷ [])
IsOrdered-snoc lo [] n h o a d = (h, d, tt)
IsOrdered-snoc lo (m ∷ ns) n h o a d =
    (o.0, o.1, IsOrdered-snoc (m.id + 1) ns n (omega (arith, a.0)) o.2 a.1 d)

-- A node on earlier events keeps a sound stage sound, and its identifier is below the next one,
-- while identifiers do not wrap.
pub insert_node-IsSound :
    (command : Command) (deps : List ℕ) (g : TaskGraph)
    → IsSound g
    → All (λ d. d < g.next_event_id) deps
    → g.next_event_id + 1 < 2 ^ 64
    → IsSound (insert_node command deps g).1
      × ((insert_node command deps g).0 < (insert_node command deps g).1.next_event_id)
unfolding insert_node
insert_node-IsSound command deps g s d h =
    let id = g.next_event_id in
    let grown : id ≤ next_id id = omega arith in
    let fits : id < next_id id = omega arith in
    (
      record {
        ordered = IsOrdered-snoc 0 g.staged_nodes _ (omega arith) s.ordered s.used d;
        used =
            All-append (λ (n : Node). n.id < next_id id) g.staged_nodes (_ ∷ [])
              (All-mono (λ (n : Node). n.id) id (next_id id) g.staged_nodes grown s.used)
              (fits, tt);
        events =
            All-append (λ e. e < next_id id) g.events_since_last_barrier (id ∷ [])
              (All-mono (λ e. e) id (next_id id) g.events_since_last_barrier grown s.events)
              (fits, tt);
        barrier = inr (omega (arith, s.barrier_le));
        barrier_le = omega (arith, s.barrier_le);
        positive = omega arith;
      },
      fits,
    )

-- So does joining events: the event that stands for them is below the next identifier.
pub join_events-IsSound :
    (deps : List ℕ) (g : TaskGraph)
    → IsSound g
    → All (λ d. d < g.next_event_id) deps
    → g.next_event_id + 1 < 2 ^ 64
    → IsSound (join_events deps g).1
      × ((join_events deps g).0 < (join_events deps g).1.next_event_id)
unfolding join_events
join_events-IsSound [] g s d h = (s, s.positive)
join_events-IsSound (x ∷ ds) g s d h = elim (Bool-cases (all_equal_to x ds)) [
  | inl e ↦ rw e (s, d.0)
  | inr e ↦ rw e (insert_node-IsSound command_empty (x ∷ ds) g s d h)
]

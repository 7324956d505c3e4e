-- ===== src/Planner/Follows.antt =====
-- When one event comes after another in the graph of tasks, and that more nodes do not change this.
use mathlib.Core.List.{Memᴰ}
use mathlib.Core.List.Memᴰ
use kmm.Prelude.{ℕ, ◌≡◌, refl, sym, subst, inl, inr, List, [], ◌∷◌, ◌++◌, All-Memᴰ}
use kmm.TaskGraph.{Node, TaskGraph, join_events, commit, insert_barrier}
use kmm.TaskGraph.Barrier.{join_events-StandsFor}

pub data Follows (nodes : List Node) : ℕ → ℕ → Type 0 where
  same : {a : ℕ} → Follows nodes a a
  depends :
      {a d b : ℕ} (n : Node)
      → Memᴰ n nodes
      → n.id ≡ a
      → Memᴰ d n.dependencies
      → Follows nodes d b
      → Follows nodes a b

abbrev pub Includes : List Node → List Node → Type 0
Includes nodes more = (n : Node) → Memᴰ n nodes → Memᴰ n more

pub Follows-mono :
    {nodes more : List Node} {a b : ℕ} → Includes nodes more → Follows nodes a b → Follows more a b
Follows-mono f same = same
Follows-mono f (depends n m e d rest) = depends n (f n m) e d (Follows-mono f rest)

pub Follows-trans :
    {nodes : List Node} {a b c : ℕ} → Follows nodes a b → Follows nodes b c → Follows nodes a c
Follows-trans same h = h
Follows-trans (depends n m e d rest) h = depends n m e d (Follows-trans rest h)

-- A stage that has grown.
abbrev pub Grows : TaskGraph → TaskGraph → Type 0
Grows g g' = Includes g.staged_nodes g'.staged_nodes

pub Includes-behind :
    (old : List Node) {nodes more : List Node}
    → Includes nodes more
    → Includes (old ++ nodes) (old ++ more)
Includes-behind old f n m = elim (Memᴰ.append_cases old m) [
  | inl h ↦ Memᴰ.append_left _ h
  | inr h ↦ Memᴰ.append_right old (f n h)
]

-- A node at the end follows what it depends on.
pub last-Follows :
    (old : List Node) (nodes : List Node) (n : Node) (d : ℕ)
    → Memᴰ d n.dependencies
    → Follows (old ++ (nodes ++ n ∷ [])) n.id d
last-Follows old nodes n d m =
    depends n (Memᴰ.append_right old (Memᴰ.append_right nodes (Memᴰ.head refl))) refl m same

-- An event made of others follows each of them.
pub join_events-Follows :
    (old : List Node) (deps : List ℕ) (g : TaskGraph)
    → Grows g (join_events deps g).1
      × ((d : ℕ)
          → Memᴰ d deps
          → Follows (old ++ (join_events deps g).1.staged_nodes) (join_events deps g).0 d)
join_events-Follows old deps g =
    let r = join_events deps g in
    elim (join_events-StandsFor deps g).stands [
      | inl (all_same, unchanged) ↦ (
        λ n m. subst (λ (x : TaskGraph). Memᴰ n x.staged_nodes) (sym unchanged) m,
        λ d m.
            subst (Follows (old ++ r.1.staged_nodes) r.0)
              (sym (All-Memᴰ (λ x. x ≡ r.0) deps all_same m)) same,
      )
      | inr (n, staged, is_id, is_deps) ↦ (
        λ k m. subst (Memᴰ k) (sym staged) (Memᴰ.append_left (n ∷ []) m),
        λ d m.
            subst (λ nodes. Follows (old ++ nodes) r.0 d) (sym staged)
              (subst (λ a. Follows (old ++ (g.staged_nodes ++ n ∷ [])) a d) is_id
                (last-Follows old g.staged_nodes n d (subst (Memᴰ d) (sym is_deps) m))),
      )
    ]

-- The commit of a stage hands out all its nodes.
pub commit-Includes :
    (g : TaskGraph) → Includes g.staged_nodes (commit g).1 × ((commit g).3.staged_nodes ≡ [])
unfolding commit insert_barrier
commit-Includes g = (handed g.events_since_last_barrier, refl)
  where
    from_events : List ℕ → ℕ × TaskGraph
    from_events events = elim events [
      | [] ↦ (g.last_barrier_id, g)
      | e ∷ es ↦
          join_events ((e ∷ es) ++ g.last_barrier_id ∷ [])
            (record g { events_since_last_barrier = [] })
    ]

    handed : (events : List ℕ) → Includes g.staged_nodes (from_events events).1.staged_nodes
    handed [] n m = m
    handed (e ∷ es) n m =
        (join_events-Follows [] ((e ∷ es) ++ g.last_barrier_id ∷ [])
            (record g { events_since_last_barrier = [] })).0
          n m

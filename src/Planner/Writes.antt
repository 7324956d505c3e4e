-- ===== src/Planner/Writes.antt =====
-- What the commit of writes leaves: each chunk that was written has one event, which follows all
-- writes to the chunk.
use mathlib.Core.List.{Memᴰ}
use mathlib.Core.List.Memᴰ
use kmm.Prelude.{
  ℕ, ◌<◌, ◌≡◌, refl, sym, ap, ◌∙◌, subst, ◌⊎◌, inl, inr, some, List, [], ◌∷◌, ◌++◌, arith, All,
  All-Memᴰ, get_elem?,
}
use kmm.TaskGraph.{Node, TaskGraph}
use kmm.Planner.{BufferDescriptor}
use kmm.Planner.Read.{update_at}
use kmm.Planner.Write.{write_event, set_write, commit_groups}
use kmm.Planner.Follows.{Follows, same, Grows, Includes-behind, Follows-mono, join_events-Follows}
use kmm.Planner.Reads.{update_at-get}
use kmm.Planner.Groups.{IsStrict, InGroup}

write_event-Follows :
    (old : List Node) (events : List ℕ) (g : TaskGraph)
    → Grows g (write_event events g).1
      × ((e : ℕ)
          → Memᴰ e events
          → Follows (old ++ (write_event events g).1.staged_nodes) (write_event events g).0 e)
unfolding write_event
write_event-Follows old [] g = join_events-Follows old [] g
write_event-Follows old (event ∷ []) g = (
  λ n m. m,
  λ e m. subst (Follows (old ++ g.staged_nodes) event) (sym (Memᴰ.eq_of_singleton m)) same,
)
write_event-Follows old (event ∷ other ∷ events) g =
    join_events-Follows old (event ∷ other ∷ events) g

pub commit_groups-Grows :
    (groups : List (ℕ × List ℕ)) (buffers : List BufferDescriptor) (g : TaskGraph)
    → Grows g (commit_groups groups buffers g).1
unfolding commit_groups
commit_groups-Grows [] buffers g n m = m
commit_groups-Grows ((k, events) ∷ groups) buffers g n m =
    let r = write_event events g in
    commit_groups-Grows groups (update_at k (set_write r.0) buffers) r.1 n
      ((write_event-Follows [] events g).0 n m)

-- The descriptor of chunk `k` before and after.
abbrev pub HasWrites :
    List Node → List (ℕ × List ℕ) → ℕ → BufferDescriptor → BufferDescriptor → Type 0
HasWrites nodes groups k old b =
    (b ≡ old) × ((e : ℕ) → ¬ InGroup groups k e)
    ⊎ ((w : ℕ) × (b ≡ set_write w old)
        × ((e : ℕ) → InGroup groups k e → Follows nodes w e)
        × ((e : ℕ) × InGroup groups k e))

pub commit_groups-HasWrites :
    (nodes : List Node) (groups : List (ℕ × List ℕ)) (buffers : List BufferDescriptor)
    (g : TaskGraph) (k : ℕ) (b : BufferDescriptor)
    → IsStrict groups
    → All (λ (x : ℕ × List ℕ). (e : ℕ) × Memᴰ e x.1) groups
    → get_elem? (commit_groups groups buffers g).0 k ≡ some b
    → (old : BufferDescriptor) × (get_elem? buffers k ≡ some old)
      × HasWrites (nodes ++ (commit_groups groups buffers g).1.staged_nodes) groups k old b
unfolding commit_groups set_write
commit_groups-HasWrites nodes [] buffers g k b strict full h =
    (b, h, inl (refl, λ e m. Memᴰ.not-nil m.1))
commit_groups-HasWrites nodes ((j, events) ∷ groups) buffers g k b strict full h =
    let r = write_event events g in
    let end = commit_groups groups (update_at j (set_write r.0) buffers) r.1 in
    let (mid, at_mid, later) =
      commit_groups-HasWrites nodes groups (update_at j (set_write r.0) buffers) r.1 k b strict.1
        full.1 h in
    let (old, at, now) = update_at-get j (set_write r.0) buffers k mid at_mid in
    let here : (e : ℕ) → Memᴰ e events → Follows (nodes ++ end.1.staged_nodes) r.0 e = λ e m.
      Follows-mono
        (Includes-behind nodes
          (commit_groups-Grows groups (update_at j (set_write r.0) buffers) r.1))
        ((write_event-Follows nodes events g).1 e m) in
    (
      old,
      at,
      elim later [
        | inl (is_mid, no_access) ↦ elim now [
          | inl (e, written) ↦ inr (
            r.0,
            is_mid ∙ written,
            λ x (es, m, mx). elim (Memᴰ.cases_cons m) [
              | inl first ↦ here x (subst (Memᴰ x) (ap (λ (p : ℕ × List ℕ). p.1) first) mx)
              | inr rest ↦ absurd (no_access x (es, rest, mx))
            ],
            ((full.0).0, (events, Memᴰ.head (ap (λ (i : ℕ). (i, events)) (sym e)), (full.0).1)),
          )
          | inr (n, is_old) ↦ inl (
            is_mid ∙ is_old,
            λ x (es, m, mx). elim (Memᴰ.cases_cons m) [
              | inl first ↦ n (sym (ap (λ (p : ℕ × List ℕ). p.0) first))
              | inr rest ↦ no_access x (es, rest, mx)
            ],
          )
        ]
        | inr (w, is_b, follows, (x, (es, m, mx))) ↦
            let apart : j < k = All-Memᴰ (λ (p : ℕ × List ℕ). j < p.0) groups strict.0 m in
            inr (
              w,
              is_b ∙ elim now [
                | inl (_, written) ↦ ap (set_write w) written
                | inr (_, is_old) ↦ ap (set_write w) is_old
              ],
              λ y (fs, mf, my). elim (Memᴰ.cases_cons mf) [
                | inl first ↦ absurd (omega (arith, apart, ap (λ (p : ℕ × List ℕ). p.0) first))
                | inr rest ↦ follows y (fs, rest, my)
              ],
              (x, (es, Memᴰ.tail m, mx)),
            )
      ],
    )

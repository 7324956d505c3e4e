-- ===== src/Planner/Waiting.antt =====
-- Every task of a launch waits for the events that its access has to come after.
use mathlib.Core.List.{Memᴰ, append_assoc, append-nil}
use mathlib.Core.List.Memᴰ
use kmm.Prelude.{
  ℕ, ◌≡◌, refl, sym, ap, ◌∙◌, subst, Option, none, some, List, [], ◌∷◌, ◌++◌, All, All-append,
  All-map, get_elem?,
}
use kmm.Prelude.Results.{Result, ok, err, out_of_range, ◌>>=◌, >>=-success, ok-injective}
use kmm.Distribution.{region_to_chunk_index, chunk}
use kmm.TaskGraph.{command_execute, Node, TaskGraph, insert_node, insert_compute_task}
use kmm.Planner.{BufferDescriptor, ArrayDescriptor}
use kmm.Planner.Read.{Prepared, finalize_access}
use kmm.Planner.Read
use kmm.Planner.Write.{sort_accesses, group_accesses}
use kmm.Planner.Write
use kmm.Planner.Launch.{Access, reading, writing, Submission, prepare_access, submit_tasks}
use kmm.Planner.Follows.{Follows, Includes, Includes-behind, Follows-mono, last-Follows}
use kmm.Planner.Reads.{set_last-append}
use kmm.Planner.Service.{required, Serves, ServesAll, Serves-mono}

-- The events that an access waits for.
abbrev pub waits_for : Access → BufferDescriptor → List ℕ
waits_for reading b = b.last_write_event ∷ []
waits_for writing b = b.last_access_events

-- The access comes after them.
abbrev pub Waits : List Node → Access → List BufferDescriptor → ℕ × ℕ → Type 0
Waits nodes access buffers p =
    (b : BufferDescriptor) × (get_elem? buffers p.0 ≡ some b)
    × ((d : ℕ) → Memᴰ d (waits_for access b) → Follows nodes p.1 d)

record IsPrepared {N : ℕ} (access : Access) (a : ArrayDescriptor N) (t : Submission N)
    (accesses : List (ℕ × ℕ)) (p : Prepared N) : Type 0 where
  chunk_index : ℕ
  buffer : BufferDescriptor
  lookup : region_to_chunk_index N a.distribution t.region ≡ ok chunk_index
  at : get_elem? a.buffers chunk_index ≡ some buffer
  requirement : p.requirement ≡ required access t.memory_id buffer
  waits : p.dependencies ≡ waits_for access buffer
  added : p.events ≡ accesses ++ (chunk_index, 0) ∷ []

-- A lookup that succeeds found a chunk and its buffer.
module _ {P C : Type 0} (buffers : List BufferDescriptor)
    (make : ℕ → C → BufferDescriptor → P) where
  abbrev with_buffer : ℕ → C → Option BufferDescriptor → Result P
  with_buffer k c o = elim o [ none ↦ err out_of_range | some b ↦ ok (make k c b) ]

  found_buffer :
      (lookup : Result ℕ) (chunk_at : ℕ → Result C) (p : P)
      → (lookup >>= λ k. chunk_at k >>= λ c. with_buffer k c (get_elem? buffers k)) ≡ ok p
      → (k : ℕ) × (c : C) × (b : BufferDescriptor) × (lookup ≡ ok k)
        × (get_elem? buffers k ≡ some b)
        × (make k c b ≡ p)
  found_buffer (err e) chunk_at p h = absurd (cc h)
  found_buffer (ok k) chunk_at p h = at_chunk (chunk_at k) h
    where
      at_buffer :
          (c : C) (o : Option BufferDescriptor)
          → with_buffer k c o ≡ ok p
          → (b : BufferDescriptor) × (o ≡ some b) × (make k c b ≡ p)
      at_buffer c none h = absurd (cc h)
      at_buffer c (some b) h = (b, refl, ok-injective h)

      at_chunk :
          (r : Result C)
          → (r >>= λ c. with_buffer k c (get_elem? buffers k)) ≡ ok p
          → (i : ℕ) × (c : C) × (b : BufferDescriptor) × (ok k ≡ ok i)
            × (get_elem? buffers i ≡ some b)
            × (make i c b ≡ p)
      at_chunk (err e) h = absurd (cc h)
      at_chunk (ok c) h =
          let (b, at, is_p) = at_buffer c (get_elem? buffers k) h in (k, c, b, refl, at, is_p)

snoc_append :
    (xs : List (ℕ × ℕ)) (x : ℕ × ℕ) (all new r : List (ℕ × ℕ))
    → xs ++ x ∷ [] ≡ all
    → r ≡ all ++ new
    → r ≡ xs ++ x ∷ new
snoc_append xs x all new r e h = h ∙ ap (λ z. z ++ new) (sym e) ∙ append_assoc xs (x ∷ []) new

module _ (N : ℕ) where
  prepare_access-IsPrepared :
      (access : Access) (a : ArrayDescriptor N) (t : Submission N) (accesses : List (ℕ × ℕ))
      (p : Prepared N)
      → prepare_access N access a t.memory_id t.region accesses ≡ ok p
      → IsPrepared access a t accesses p
  unfolding prepare_access Read.prepare_access Write.prepare_access
  prepare_access-IsPrepared reading a t accesses p h =
      let (k, c, b, lookup, at, is_p) =
        found_buffer a.buffers _ (region_to_chunk_index N a.distribution t.region)
          (chunk N a.distribution) p h in
      record {
        chunk_index = k;
        buffer = b;
        lookup = lookup;
        at = at;
        requirement = ap (λ (q : Prepared N). q.requirement) (sym is_p);
        waits = ap (λ (q : Prepared N). q.dependencies) (sym is_p);
        added = ap (λ (q : Prepared N). q.events) (sym is_p);
      }
  prepare_access-IsPrepared writing a t accesses p h =
      let (k, c, b, lookup, at, is_p) =
        found_buffer a.buffers _ (region_to_chunk_index N a.distribution t.region)
          (chunk N a.distribution) p h in
      record {
        chunk_index = k;
        buffer = b;
        lookup = lookup;
        at = at;
        requirement = ap (λ (q : Prepared N). q.requirement) (sym is_p);
        waits = ap (λ (q : Prepared N). q.dependencies) (sym is_p);
        added = ap (λ (q : Prepared N). q.events) (sym is_p);
      }

  -- What the loop over the tasks leaves: its new accesses are those of the tasks, one for one, and
  -- all accesses come after what they have to wait for.
  pub record Submits (old : List Node) (access : Access) (a : ArrayDescriptor N)
      (ts : List (Submission N)) (accesses : List (ℕ × ℕ)) (g : TaskGraph)
      (r : List ℕ × List (ℕ × ℕ) × TaskGraph) : Type 0 where
    pub grown : Includes g.staged_nodes r.2.staged_nodes
    pub waits : All (Waits (old ++ r.2.staged_nodes) access a.buffers) r.1
    pub new : List (ℕ × ℕ)
    pub added : r.1 ≡ accesses ++ new
    pub serves : ServesAll (old ++ r.2.staged_nodes) access a.distribution a.buffers ts new

  pub submit_tasks-Submits :
      (old : List Node) (access : Access) (a : ArrayDescriptor N) (ts : List (Submission N))
      (events : List ℕ) (accesses : List (ℕ × ℕ)) (g : TaskGraph)
      (r : List ℕ × List (ℕ × ℕ) × TaskGraph)
      → submit_tasks N access a ts events accesses g ≡ ok r
      → All (Waits (old ++ g.staged_nodes) access a.buffers) accesses
      → Submits old access a ts accesses g r
  unfolding submit_tasks insert_compute_task insert_node finalize_access
  submit_tasks-Submits old access a [] events accesses g r h w =
      let e : (events, accesses, g) ≡ r = ok-injective h in
      subst (Submits old access a [] accesses g) e (record {
        grown = λ n m. m;
        waits = w;
        new = [];
        added = sym (append-nil accesses);
        serves = tt;
      })
  submit_tasks-Submits old access a (t ∷ ts) events accesses g r h w =
      let inserted : Prepared N → ℕ × TaskGraph =
        λ p. insert_compute_task t.processor_id t.task (p.requirement ∷ []) p.dependencies g in
      let others : Prepared N → List (ℕ × ℕ) → Result (List ℕ × List (ℕ × ℕ) × TaskGraph) =
        λ p finalized.
          submit_tasks N access a ts (events ++ (inserted p).0 ∷ []) finalized (inserted p).1 in
      let (p, after, prepared) =
        >>=-success (λ p. finalize_access (inserted p).0 p.events >>= others p)
          (prepare_access N access a t.memory_id t.region accesses) h in
      let (finalized, rest, is_finalized) =
        >>=-success (others p) (finalize_access (inserted p).0 p.events) after in
      let at = prepare_access-IsPrepared access a t accesses p prepared in
      let id = (inserted p).0 in
      let extended : accesses ++ (at.chunk_index, id) ∷ [] ≡ finalized = ok-injective (
        sym (ap (finalize_access id) at.added ∙ set_last-append id at.chunk_index accesses)
        ∙ is_finalized) in
      let nodes = (inserted p).1.staged_nodes in
      let grown : Includes (old ++ g.staged_nodes) (old ++ nodes) =
        Includes-behind old (λ n m. Memᴰ.append_left _ m) in
      let waiting : Waits (old ++ nodes) access a.buffers (at.chunk_index, id) = (
        at.buffer,
        at.at,
        λ d m. last-Follows old g.staged_nodes _ d (subst (Memᴰ d) (sym at.waits) m),
      ) in
      let so_far : All (Waits (old ++ nodes) access a.buffers) finalized =
        subst (All (Waits (old ++ nodes) access a.buffers)) extended (
          All-append (Waits (old ++ nodes) access a.buffers) accesses ((at.chunk_index, id) ∷ [])
            (All-map accesses (λ x v. (v.0, v.1, λ d m. Follows-mono grown (v.2 d m))) w)
            (waiting, tt)) in
      let later =
        submit_tasks-Submits old access a ts (events ++ id ∷ []) finalized (inserted p).1 r rest
          so_far in
      let made : Node = record {
        id = id;
        command = command_execute t.processor_id t.task (p.requirement ∷ []);
        dependencies = p.dependencies;
      } in
      let here : Serves (old ++ nodes) access a.distribution a.buffers t (at.chunk_index, id) =
        record {
          buffer = at.buffer;
          node = made;
          chunk_of = at.lookup;
          buffer_of = at.at;
          is_node = Memᴰ.append_right old (Memᴰ.append_right g.staged_nodes (Memᴰ.head refl));
          has_event = refl;
          runs = ap (λ q. command_execute t.processor_id t.task (q ∷ [])) at.requirement;
        } in
      record {
        grown = λ n m. later.grown n (Memᴰ.append_left _ m);
        waits = later.waits;
        new = (at.chunk_index, id) ∷ later.new;
        added =
            snoc_append accesses (at.chunk_index, id) finalized later.new r.1 extended later.added;
        serves = (
          Serves-mono access a.distribution a.buffers t (at.chunk_index, id)
              (Includes-behind old later.grown) here,
          later.serves,
        );
      }

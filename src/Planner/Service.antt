-- ===== src/Planner/Service.antt =====
-- Which node of the task graph makes an access of a launch, and what an access keeps of the array.
use mathlib.Core.List.{Memᴰ}
use kmm.Prelude.{ℕ, ◌≡◌, refl, ap, ◌∙◌, subst, inl, inr, some, List, [], ◌∷◌, get_elem?}
use kmm.Prelude.Results.{ok}
use kmm.Identifiers.{MemoryId}
use kmm.Memory.Types.{read, read_write}
use kmm.Distribution.{Distribution, region_to_chunk_index}
use kmm.TaskGraph.{BufferRequirement, command_execute, Node, TaskGraph}
use kmm.Planner.{BufferDescriptor, ArrayDescriptor}
use kmm.Planner.Read.{add_access, update_at}
use kmm.Planner.Read
use kmm.Planner.Write.{write_event, set_write, commit_groups, sort_accesses, group_accesses}
use kmm.Planner.Write
use kmm.Planner.Launch.{Access, reading, writing, Submission, commit_accesses}
use kmm.Planner.Follows.{Includes}
use kmm.Planner.Races.{History}
use kmm.Planner.Reads.{update_at-get}

-- The requirement of a task that accesses a buffer in this way.
abbrev pub required : Access → MemoryId → BufferDescriptor → BufferRequirement
required reading memory_id b = record {
  buffer_id = b.id;
  memory_id = memory_id;
  access_mode = read;
}
required writing memory_id b = record {
  buffer_id = b.id;
  memory_id = memory_id;
  access_mode = read_write;
}

pub required-id :
    (access : Access) (memory_id : MemoryId) (b c : BufferDescriptor)
    → b.id ≡ c.id
    → required access memory_id b ≡ required access memory_id c
required-id reading memory_id b c e =
    ap (λ i. record { buffer_id = i; memory_id = memory_id; access_mode = read }) e
required-id writing memory_id b c e =
    ap (λ i. record { buffer_id = i; memory_id = memory_id; access_mode = read_write }) e

-- A submitted task has this access, a chunk and an event: its region lies in the chunk, and the node
-- of that event runs the task with the buffer of the chunk as its only requirement.
pub record Serves {N : ℕ} (nodes : List Node) (access : Access) (d : Distribution N)
    (buffers : List BufferDescriptor) (t : Submission N) (x : ℕ × ℕ) : Type 0 where
  pub buffer : BufferDescriptor
  pub node : Node
  pub chunk_of : region_to_chunk_index N d t.region ≡ ok x.0
  pub buffer_of : get_elem? buffers x.0 ≡ some buffer
  pub is_node : Memᴰ node nodes
  pub has_event : node.id ≡ x.1
  pub runs :
      node.command ≡ command_execute t.processor_id t.task (required access t.memory_id buffer ∷ [])

module _ {N : ℕ} where
  -- The tasks of a launch and its accesses, one for one.
  abbrev pub ServesAll :
      List Node
      → Access
      → Distribution N
      → List BufferDescriptor
      → List (Submission N)
      → List (ℕ × ℕ)
      → Type 0
  ServesAll nodes access d buffers [] [] = Unit {0}
  ServesAll nodes access d buffers (t ∷ ts) [] = ⊥
  ServesAll nodes access d buffers [] (x ∷ xs) = ⊥
  ServesAll nodes access d buffers (t ∷ ts) (x ∷ xs) =
      Serves nodes access d buffers t x × ServesAll nodes access d buffers ts xs

  -- The launches and their histories, one for one.
  abbrev pub Served :
      List Node → ArrayDescriptor N → List (Access × List (Submission N)) → History → Type 0
  Served nodes a [] [] = Unit {0}
  Served nodes a (l ∷ launches) [] = ⊥
  Served nodes a [] (x ∷ h) = ⊥
  Served nodes a ((access, ts) ∷ launches) ((kind, accesses) ∷ h) =
      (kind ≡ access)
      × ServesAll nodes access a.distribution a.buffers ts accesses
      × Served nodes a launches h

  pub Serves-mono :
      {nodes more : List Node} (access : Access) (d : Distribution N)
      (buffers : List BufferDescriptor) (t : Submission N) (x : ℕ × ℕ)
      → Includes nodes more
      → Serves nodes access d buffers t x
      → Serves more access d buffers t x
  Serves-mono access d buffers t x f v = record {
    buffer = v.buffer;
    node = v.node;
    chunk_of = v.chunk_of;
    buffer_of = v.buffer_of;
    is_node = f v.node v.is_node;
    has_event = v.has_event;
    runs = v.runs;
  }

  pub ServesAll-mono :
      {nodes more : List Node} (access : Access) (d : Distribution N)
      (buffers : List BufferDescriptor) (ts : List (Submission N)) (xs : List (ℕ × ℕ))
      → Includes nodes more
      → ServesAll nodes access d buffers ts xs
      → ServesAll more access d buffers ts xs
  ServesAll-mono access d buffers [] [] f v = tt
  ServesAll-mono access d buffers (t ∷ ts) (x ∷ xs) f v =
      (Serves-mono access d buffers t x f v.0, ServesAll-mono access d buffers ts xs f v.1)
  ServesAll-mono access d buffers (t ∷ ts) [] f v = elim v [ ]
  ServesAll-mono access d buffers [] (x ∷ xs) f v = elim v [ ]

  pub Served-mono :
      {nodes more : List Node} (a : ArrayDescriptor N)
      (launches : List (Access × List (Submission N))) (h : History)
      → Includes nodes more
      → Served nodes a launches h
      → Served more a launches h
  Served-mono a [] [] f v = tt
  Served-mono a ((access, ts) ∷ launches) ((kind, accesses) ∷ h) f v = (
    v.0,
    ServesAll-mono access a.distribution a.buffers ts accesses f v.1,
    Served-mono a launches h f v.2,
  )
  Served-mono a (l ∷ launches) [] f v = elim v [ ]
  Served-mono a [] (x ∷ h) f v = elim v [ ]

-- Buffers that come from others, place by place, with their ids.
abbrev pub SameIds : List BufferDescriptor → List BufferDescriptor → Type 0
SameIds old new =
    (k : ℕ) (b : BufferDescriptor)
    → get_elem? new k ≡ some b
    → (c : BufferDescriptor) × (get_elem? old k ≡ some c) × (b.id ≡ c.id)

pub SameIds-trans :
    (xs ys zs : List BufferDescriptor) → SameIds xs ys → SameIds ys zs → SameIds xs zs
SameIds-trans xs ys zs f g k b at =
    let (c, at_c, e) = g k b at in let (d, at_d, q) = f k c at_c in (d, at_d, e ∙ q)

update_at-SameIds :
    (k : ℕ) (f : BufferDescriptor → BufferDescriptor) (buffers : List BufferDescriptor)
    → ((b : BufferDescriptor) → (f b).id ≡ b.id)
    → SameIds buffers (update_at k f buffers)
update_at-SameIds k f buffers same j b at =
    let (old, at_old, how) = update_at-get k f buffers j b at in
    (
      old,
      at_old,
      elim how [
        | inl (_, written) ↦ ap (λ (z : BufferDescriptor). z.id) written ∙ same old
        | inr (_, is_old) ↦ ap (λ (z : BufferDescriptor). z.id) is_old
      ],
    )

reads-SameIds :
    (accesses : List (ℕ × ℕ)) (buffers : List BufferDescriptor)
    → SameIds buffers (Read.commit accesses buffers)
unfolding Read.commit add_access
reads-SameIds [] buffers k b at = (b, at, refl)
reads-SameIds ((j, event) ∷ rest) buffers k b at =
    SameIds-trans _ _ _ (update_at-SameIds j (add_access event) buffers (λ b. refl))
      (reads-SameIds rest (update_at j (add_access event) buffers)) k b at

groups-SameIds :
    (groups : List (ℕ × List ℕ)) (buffers : List BufferDescriptor) (g : TaskGraph)
    → SameIds buffers (commit_groups groups buffers g).0
unfolding commit_groups set_write
groups-SameIds [] buffers g k b at = (b, at, refl)
groups-SameIds ((j, events) ∷ groups) buffers g k b at =
    let r = write_event events g in
    SameIds-trans _ _ _ (update_at-SameIds j (set_write r.0) buffers (λ b. refl))
      (groups-SameIds groups (update_at j (set_write r.0) buffers) r.1) k b at

pub commit_accesses-SameIds :
    (access : Access) (accesses : List (ℕ × ℕ)) (buffers : List BufferDescriptor) (g : TaskGraph)
    → SameIds buffers (commit_accesses access accesses buffers g).0
unfolding commit_accesses Write.commit
commit_accesses-SameIds reading accesses buffers g = reads-SameIds accesses buffers
commit_accesses-SameIds writing accesses buffers g =
    groups-SameIds (group_accesses (sort_accesses accesses)) buffers g

-- An array that has been accessed since: the same chunks, and buffers with the same ids.
pub record Keeps {N : ℕ} (old new : ArrayDescriptor N) : Type 0 where
  pub distribution : new.distribution ≡ old.distribution
  pub ids : SameIds old.buffers new.buffers

module _ {N : ℕ} {old new : ArrayDescriptor N} (kept : Keeps old new) (nodes : List Node)
    (access : Access) where
  Keeps-Serves :
      (t : Submission N) (x : ℕ × ℕ)
      → Serves nodes access new.distribution new.buffers t x
      → Serves nodes access old.distribution old.buffers t x
  Keeps-Serves t x v =
      let (c, at, e) = kept.ids x.0 v.buffer v.buffer_of in
      record {
        buffer = c;
        node = v.node;
        chunk_of =
            subst (λ d. region_to_chunk_index N d t.region ≡ ok x.0) kept.distribution v.chunk_of;
        buffer_of = at;
        is_node = v.is_node;
        has_event = v.has_event;
        runs =
            v.runs
            ∙ ap (λ r. command_execute t.processor_id t.task (r ∷ []))
                (required-id access t.memory_id v.buffer c e);
      }

  pub Keeps-ServesAll :
      (ts : List (Submission N)) (xs : List (ℕ × ℕ))
      → ServesAll nodes access new.distribution new.buffers ts xs
      → ServesAll nodes access old.distribution old.buffers ts xs
  Keeps-ServesAll [] [] v = tt
  Keeps-ServesAll (t ∷ ts) (x ∷ xs) v = (Keeps-Serves t x v.0, Keeps-ServesAll ts xs v.1)
  Keeps-ServesAll (t ∷ ts) [] v = elim v [ ]
  Keeps-ServesAll [] (x ∷ xs) v = elim v [ ]

-- ===== src/Planner/Write.antt =====
-- src/planner/write_planner.cpp: the accesses of one kernel that writes an array.
use kmm.Prelude.{ℕ, none, some, List, [], ◌∷◌, ◌++◌, get_elem?, ltb, ◌==◌, if◌then◌else◌}
use kmm.Prelude.Results.{Result, ok, err, out_of_range, ◌>>=◌}
use kmm.Identifiers.{MemoryId}
use kmm.Geometry.Bounds.{Bounds, from_offset_size}
use kmm.Distribution.{region_to_chunk_index, chunk}
use kmm.Memory.Types.{read_write}
use kmm.TaskGraph.{TaskGraph, join_events}
use kmm.Planner.{BufferDescriptor, ArrayDescriptor}
use kmm.Planner.Read.{Prepared, update_at}

module _ (N : ℕ) where
  unfoldable pub prepare_access :
      ArrayDescriptor N → MemoryId → Bounds N → List (ℕ × ℕ) → Result (Prepared N)
  unfolding region_to_chunk_index chunk
  prepare_access a memory_id region write_events = do
    chunk_index ← region_to_chunk_index N a.distribution region
    c ← chunk N a.distribution chunk_index
    elim (get_elem? a.buffers chunk_index) [
      | none ↦ err out_of_range
      | some buffer ↦ ok (record {
        requirement = record {
          buffer_id = buffer.id;
          memory_id = memory_id;
          access_mode = read_write;
        };
        region = from_offset_size N c.offset c.size;
        dependencies = buffer.last_access_events;
        events = write_events ++ (chunk_index, 0) ∷ [];
      })
    ]

-- std::sort by the chunk, as an insertion sort.
unfoldable pub insert_access : ℕ × ℕ → List (ℕ × ℕ) → List (ℕ × ℕ)
insert_access x [] = x ∷ []
insert_access x (y ∷ ys) = if ltb y.0 x.0 then y ∷ insert_access x ys else x ∷ y ∷ ys

unfoldable pub sort_accesses : List (ℕ × ℕ) → List (ℕ × ℕ)
unfolding insert_access
sort_accesses [] = []
sort_accesses (x ∷ xs) = insert_access x (sort_accesses xs)

-- An access before the groups of those behind it.
unfoldable pub add_to_groups : ℕ × ℕ → List (ℕ × List ℕ) → List (ℕ × List ℕ)
add_to_groups x [] = (x.0, x.1 ∷ []) ∷ []
add_to_groups x ((k, events) ∷ groups) =
    if x.0 == k then (k, x.1 ∷ events) ∷ groups else (x.0, x.1 ∷ []) ∷ (k, events) ∷ groups

-- The runs of neighbours with one chunk, which the two loops of commit go through.
unfoldable pub group_accesses : List (ℕ × ℕ) → List (ℕ × List ℕ)
unfolding add_to_groups
group_accesses [] = []
group_accesses (x ∷ xs) = add_to_groups x (group_accesses xs)

-- One event for the writes of a chunk.
unfoldable pub write_event : List ℕ → TaskGraph → ℕ × TaskGraph
unfolding join_events
write_event (event ∷ []) stage = (event, stage)
write_event deps stage = join_events deps stage

unfoldable pub set_write : ℕ → BufferDescriptor → BufferDescriptor
set_write event b = record b { last_write_event = event; last_access_events = event ∷ [] }

unfoldable pub commit_groups :
    List (ℕ × List ℕ) → List BufferDescriptor → TaskGraph → List BufferDescriptor × TaskGraph
unfolding write_event set_write update_at
commit_groups [] buffers stage = (buffers, stage)
commit_groups ((chunk_index, events) ∷ groups) buffers stage =
    let (event, stage1) = write_event events stage in
    commit_groups groups (update_at chunk_index (set_write event) buffers) stage1

unfoldable pub commit :
    List (ℕ × ℕ) → List BufferDescriptor → TaskGraph → List BufferDescriptor × TaskGraph
unfolding sort_accesses group_accesses commit_groups
commit write_events buffers stage =
    commit_groups (group_accesses (sort_accesses write_events)) buffers stage

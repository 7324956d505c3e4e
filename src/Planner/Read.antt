-- ===== src/Planner/Read.antt =====
-- src/planner/read_planner.cpp: the accesses of one kernel that reads an array.
use kmm.Prelude.{ℕ, none, some, List, [], ◌∷◌, ◌++◌, get_elem?, set}
use kmm.Prelude.Results.{Result, ok, err, assertion, out_of_range, ◌>>=◌}
use kmm.Identifiers.{MemoryId}
use kmm.Geometry.Bounds.{Bounds, from_offset_size}
use kmm.Distribution.{region_to_chunk_index, chunk}
use kmm.Memory.Types.{read}
use kmm.TaskGraph.{BufferRequirement}
use kmm.Planner.{BufferDescriptor, ArrayDescriptor}

-- What prepare_access gives: the requirement, the region of the chunk, the events added to the
-- dependencies, and the accesses of the planner, each a chunk and its event.
pub record Prepared (N : ℕ) : Type 0 where
  pub requirement : BufferRequirement
  pub region : Bounds N
  pub dependencies : List ℕ
  pub events : List (ℕ × ℕ)

-- The last access, whose event is not known yet, gets its event.
unfoldable pub set_last : ℕ → List (ℕ × ℕ) → Result (List (ℕ × ℕ))
set_last event [] = err assertion
set_last event ((chunk, e) ∷ []) = ok ((chunk, event) ∷ [])
set_last event (x ∷ y ∷ rest) = set_last event (y ∷ rest) >>= λ r. ok (x ∷ r)

module _ (N : ℕ) where
  -- There is a buffer for each chunk; without one the code would read past its vector.
  unfoldable pub prepare_access :
      ArrayDescriptor N → MemoryId → Bounds N → List (ℕ × ℕ) → Result (Prepared N)
  unfolding region_to_chunk_index chunk
  prepare_access a memory_id region read_events = do
    chunk_index ← region_to_chunk_index N a.distribution region
    c ← chunk N a.distribution chunk_index
    elim (get_elem? a.buffers chunk_index) [
      | none ↦ err out_of_range
      | some buffer ↦ ok (record {
        requirement = record { buffer_id = buffer.id; memory_id = memory_id; access_mode = read };
        region = from_offset_size N c.offset c.size;
        dependencies = buffer.last_write_event ∷ [];
        events = read_events ++ (chunk_index, 0) ∷ [];
      })
    ]

unfoldable pub finalize_access : ℕ → List (ℕ × ℕ) → Result (List (ℕ × ℕ))
unfolding set_last
finalize_access event_id read_events = set_last event_id read_events

unfoldable pub add_access : ℕ → BufferDescriptor → BufferDescriptor
add_access event b = record b { last_access_events = b.last_access_events ++ event ∷ [] }

-- A write through a reference to one buffer.
unfoldable pub update_at :
    ℕ → (BufferDescriptor → BufferDescriptor) → List BufferDescriptor → List BufferDescriptor
update_at k f buffers = elim (get_elem? buffers k) [ none ↦ buffers | some b ↦ set buffers k (f b) ]

-- The loop of commit.
unfoldable pub commit : List (ℕ × ℕ) → List BufferDescriptor → List BufferDescriptor
unfolding add_access update_at
commit [] buffers = buffers
commit ((chunk_index, event_id) ∷ rest) buffers =
    commit rest (update_at chunk_index (add_access event_id) buffers)

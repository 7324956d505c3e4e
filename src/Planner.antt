-- ===== src/Planner.antt =====
-- src/planner: the buffers of a distributed array with the events that order the accesses to each of
-- them. This file has the descriptor of src/planner/array_descriptor.cpp with its copies to and from
-- the host; the planners of the accesses of a kernel are in the modules Read and Write.
pub mod Read
pub mod Write
pub mod Launch
pub mod Follows
pub mod Reads
pub mod Groups
pub mod Writes
pub mod Races
pub mod Service
pub mod Waiting
pub mod Runs
use kmm.Prelude.{
  ℕ, zero, suc, ◌+◌, ◌-◌, ◌*◌, ◌%◌, ◌^◌, Bool, true, false, not, ◌&&◌, Option, none, some, List, [],
  ◌∷◌, ◌++◌, ◌==◌, if◌then◌else◌, get_elem?,
}
use kmm.Prelude.Results.{Result, ok, err, out_of_range, not_locked, ◌>>=◌}
use kmm.Prelude.Int.{ℤ, pos, pos_part}
use kmm.Checked.{cast, checked_cast}
use kmm.Identifiers.{host}
use kmm.Geometry.Bounds.{
  FixedVector, Point, Dim, Bounds, fill, from_offset_size, begins, sizes, dim_volume,
}
use kmm.Distribution.{Distribution, ArrayChunk, int64, size_type, num_chunks, chunk}
use kmm.Memory.Types.{read, read_write}
use kmm.Memops.{CopyDef, copy_def, add_dimension, simplify, wrap}
use kmm.TaskGraph.{
  BufferRequirement, BufferLayout, TaskGraph, join_events, create_buffer, delete_buffer,
  insert_compute_task,
}

pub record BufferDescriptor : Type 0 where
  pub id : ℕ
  pub layout : BufferLayout
  pub last_write_event : ℕ
  pub last_access_events : List ℕ

-- The size and the alignment of an element, in bytes.
pub record DataType : Type 0 where
  pub size_in_bytes : ℕ
  pub alignment : ℕ

pub record ArrayDescriptor (N : ℕ) : Type 0 where
  pub distribution : Distribution N
  pub dtype : DataType
  pub buffers : List BufferDescriptor

-- The std::shared_mutex of a descriptor: how many hold it shared, and whether one holds it alone.
pub record SharedMutex : Type 0 where
  pub num_shared : ℕ
  pub is_exclusive : Bool

-- The locks that the planners of reads and of writes try to take.
unfoldable pub try_lock_shared : SharedMutex → Result SharedMutex
try_lock_shared m =
    if m.is_exclusive then err not_locked else ok (record m { num_shared = m.num_shared + 1 })

unfoldable pub try_lock : SharedMutex → Result SharedMutex
try_lock m =
    if not m.is_exclusive && m.num_shared == 0
    then ok (record m { is_exclusive = true })
    else err not_locked

-- BufferLayout::repeat.
unfoldable pub repeat : BufferLayout → ℕ → BufferLayout
repeat layout n =
    let remainder = layout.size_in_bytes % layout.alignment in
    let padding = if remainder == 0 then 0 else layout.alignment - remainder in
    record {
      size_in_bytes = wrap ((layout.size_in_bytes + padding) * n);
      alignment = layout.alignment;
    }

-- BufferLayout::for_type.
unfoldable pub for_type : DataType → ℕ → BufferLayout
unfolding repeat
for_type dtype n =
    repeat (record { size_in_bytes = dtype.size_in_bytes; alignment = dtype.alignment }) n

-- The layout of a chunk's buffer.
unfoldable pub chunk_layout : (N : ℕ) → DataType → Dim N → BufferLayout
unfolding for_type dim_volume cast
chunk_layout N dtype size = for_type dtype (pos_part (cast size_type (dim_volume N size)))

-- The loop of the constructor from chunk `i` on, with `n` chunks left.
unfoldable pub create_buffers :
    (N : ℕ)
    → Distribution N
    → DataType
    → ℕ
    → ℕ
    → TaskGraph
    → Result (List BufferDescriptor × TaskGraph)
unfolding chunk chunk_layout create_buffer
create_buffers N d dtype i zero stage = ok ([], stage)
create_buffers N d dtype i (suc n) stage = do
  c ← chunk N d i
  let layout = chunk_layout N dtype c.size
  let (buffer_id, stage1) = create_buffer layout stage
  rest ← create_buffers N d dtype (i + 1) n stage1
  let made : BufferDescriptor = record {
    id = buffer_id;
    layout = layout;
    last_write_event = 0;
    last_access_events = [];
  }
  ok (made ∷ rest.0, rest.1)

unfoldable pub new_array_descriptor :
    (N : ℕ) → TaskGraph → Distribution N → DataType → Result (ArrayDescriptor N × TaskGraph)
unfolding create_buffers
new_array_descriptor N stage d dtype = do
  made ← create_buffers N d dtype 0 (num_chunks d) stage
  ok (record { distribution = d; dtype = dtype; buffers = made.0 }, made.1)

-- A checked_cast<size_t> of a coordinate.
unfoldable pub to_size : ℤ → Result ℕ
unfolding checked_cast
to_size v = checked_cast int64 size_type v >>= λ n. ok (pos_part n)

-- The loop of build_copy_operation, the first axis first.
unfoldable pub add_axes :
    (N : ℕ) (src_offset : Point N) (src_dims : Dim N) (dst_offset : Point N) (dst_dims : Dim N)
    (counts : Dim N) (src_stride dst_stride : ℕ) (c : CopyDef)
    → Result CopyDef
unfolding to_size add_dimension
add_axes zero src_offset src_dims dst_offset dst_dims counts src_stride dst_stride c = ok c
add_axes (suc N) src_offset src_dims dst_offset dst_dims counts src_stride dst_stride c = do
  count ← to_size counts.0
  src ← to_size src_offset.0
  dst ← to_size dst_offset.0
  c1 ← add_dimension count src dst src_stride dst_stride c
  src_dim ← to_size src_dims.0
  dst_dim ← to_size dst_dims.0
  add_axes N src_offset.1 src_dims.1 dst_offset.1 dst_dims.1 counts.1 (wrap (src_stride * src_dim))
      (wrap (dst_stride * dst_dim)) c1

unfoldable pub build_copy_operation :
    (N : ℕ) (src_offset : Point N) (src_dims : Dim N) (dst_offset : Point N) (dst_dims : Dim N)
    (counts : Dim N) (element_size : ℕ)
    → Result CopyDef
unfolding add_axes simplify
build_copy_operation N src_offset src_dims dst_offset dst_dims counts element_size = do
  c ←
      add_axes N src_offset src_dims dst_offset dst_dims counts element_size element_size
        (copy_def element_size)
  simplify c

-- The copy that both copy_bytes_into_buffer and copy_bytes_from_buffer build for a chunk.
unfoldable pub chunk_copy : (N : ℕ) → ArrayDescriptor N → ArrayChunk N → Result CopyDef
unfolding build_copy_operation
chunk_copy N a c =
    let region = from_offset_size N c.offset c.size in
    build_copy_operation N (fill N (pos 0)) (sizes N region) (begins N region)
      a.distribution.array_size (sizes N region) a.dtype.size_in_bytes

-- ResourceId::host, by number.
abbrev pub host_resource : ℕ
host_resource = 0

-- Tasks go by number: `copy_task` numbers the task object made for a copy.
module _ (copy_task : CopyDef → ℕ) where
  -- The first loop of copy_bytes_into_buffer, from chunk `i` on: the events of the reads.
  unfoldable pub read_chunks :
      (N : ℕ)
      → ArrayDescriptor N
      → ℕ
      → List BufferDescriptor
      → TaskGraph
      → Result (List ℕ × TaskGraph)
  unfolding chunk chunk_copy insert_compute_task
  read_chunks N a i [] stage = ok ([], stage)
  read_chunks N a i (buffer ∷ rest) stage = do
    c ← chunk N a.distribution i
    def ← chunk_copy N a c
    let requirement : BufferRequirement = record {
      buffer_id = buffer.id;
      memory_id = host;
      access_mode = read;
    }
    let (event_id, stage1) =
        insert_compute_task host_resource (copy_task def) (requirement ∷ [])
          (buffer.last_write_event ∷ []) stage
    others ← read_chunks N a (i + 1) rest stage1
    ok (event_id ∷ others.0, others.1)

  -- Its second loop, at one buffer.
  pub add_reads : List BufferDescriptor → List ℕ → List BufferDescriptor
  add_reads (buffer ∷ buffers) (event ∷ events) =
      record buffer { last_access_events = buffer.last_access_events ++ event ∷ [] }
      ∷ add_reads buffers events
  add_reads buffers _ = buffers

  unfoldable pub copy_bytes_into_buffer :
      (N : ℕ) → ArrayDescriptor N → TaskGraph → Result (ℕ × ArrayDescriptor N × TaskGraph)
  unfolding read_chunks add_reads join_events
  copy_bytes_into_buffer N a stage = do
    (events, stage1) ← read_chunks N a 0 a.buffers stage
    let (id, stage2) = join_events events stage1
    ok (id, record a { buffers = add_reads a.buffers events }, stage2)

  -- The first loop of copy_bytes_from_buffer, from chunk `i` on: the events of the writes.
  unfoldable pub write_chunks :
      (N : ℕ)
      → ArrayDescriptor N
      → ℕ
      → List BufferDescriptor
      → TaskGraph
      → Result (List ℕ × TaskGraph)
  unfolding chunk chunk_copy insert_compute_task
  write_chunks N a i [] stage = ok ([], stage)
  write_chunks N a i (buffer ∷ rest) stage = do
    c ← chunk N a.distribution i
    def ← chunk_copy N a c
    let requirement : BufferRequirement = record {
      buffer_id = buffer.id;
      memory_id = host;
      access_mode = read_write;
    }
    let (event_id, stage1) =
        insert_compute_task host_resource (copy_task def) (requirement ∷ [])
          buffer.last_access_events stage
    others ← write_chunks N a (i + 1) rest stage1
    ok (event_id ∷ others.0, others.1)

  pub set_writes : List BufferDescriptor → List ℕ → List BufferDescriptor
  set_writes (buffer ∷ buffers) (event ∷ events) =
      record buffer { last_write_event = event; last_access_events = event ∷ [] }
      ∷ set_writes buffers events
  set_writes buffers _ = buffers

  unfoldable pub copy_bytes_from_buffer :
      (N : ℕ) → ArrayDescriptor N → TaskGraph → Result (ℕ × ArrayDescriptor N × TaskGraph)
  unfolding write_chunks set_writes join_events
  copy_bytes_from_buffer N a stage = do
    (events, stage1) ← write_chunks N a 0 a.buffers stage
    let (id, stage2) = join_events events stage1
    ok (id, record a { buffers = set_writes a.buffers events }, stage2)

-- The events of all accesses.
pub access_events : List BufferDescriptor → List ℕ
access_events [] = []
access_events (buffer ∷ buffers) = buffer.last_access_events ++ access_events buffers

unfoldable pub join_array_events : {N : ℕ} → ArrayDescriptor N → TaskGraph → ℕ × TaskGraph
unfolding access_events join_events
join_array_events a stage = join_events (access_events a.buffers) stage

-- The loop of destroy.
pub delete_buffers : List BufferDescriptor → TaskGraph → TaskGraph
unfolding delete_buffer
delete_buffers [] stage = stage
delete_buffers (meta ∷ rest) stage =
    let (_, stage1) = delete_buffer meta.id meta.last_access_events stage in
    delete_buffers rest stage1

-- The constructor of a distribution without arguments.
abbrev pub zero_counts : (N : ℕ) → FixedVector ℕ N
zero_counts zero = tt
zero_counts (suc N) = (0, zero_counts N)

abbrev pub empty_distribution : (N : ℕ) → Distribution N
empty_distribution N = record {
  array_size = fill N (pos 0);
  chunk_size = fill N (pos 1);
  chunks_count = zero_counts N;
  memories = if N == 0 then host ∷ [] else [];
}

unfoldable pub destroy : (N : ℕ) → ArrayDescriptor N → TaskGraph → ArrayDescriptor N × TaskGraph
unfolding delete_buffers
destroy N a stage =
    (record a { distribution = empty_distribution N; buffers = [] }, delete_buffers a.buffers stage)

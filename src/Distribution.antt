-- ===== src/Distribution.antt =====
-- src/core/distribution.cpp: an array of N axes cut into chunks of one size, each owned by a memory.
-- The chunks are numbered with the last axis fastest.
pub mod Counts
pub mod Index
pub mod Lookup
use kmm.Prelude.{
  ℕ, zero, suc, ◌+◌, ◌*◌, ◌/◌, ◌%◌, ◌^◌, Bool, true, false, not, ◌&&◌, ◌||◌, Option, none, some,
  List, [], ◌∷◌, ltb, leb, ◌==◌, if◌then◌else◌, length, get_elem?, set,
}
use kmm.Prelude.Results.{Result, ok, err, out_of_range, invalid_argument, ◌>>=◌}
use kmm.Prelude.Int.{ℤ, pos, pos_part, ◌+ℤ◌, ◌-ℤ◌, ◌*ℤ◌, ltb_ℤ, eqb_ℤ}
use kmm.Identifiers.{MemoryId, memory_eq, host}
use kmm.Checked.{IntType, signed_int, unsigned_int, cast, in_range, checked_cast, checked_mul}
use kmm.Integers.Signed.{div_floor, div_ceil}
use kmm.Geometry.Bounds.{
  FixedVector, Point, Dim, Bounds, fill, equals, has_no_points, begins, sizes,
}

abbrev pub int64 : IntType
int64 = signed_int 64

abbrev pub size_type : IntType
size_type = unsigned_int 64

pub record ArrayChunk (N : ℕ) : Type 0 where
  pub owner_id : MemoryId
  pub offset : Point N
  pub size : Dim N

pub record Distribution (N : ℕ) : Type 0 where
  pub array_size : Dim N
  pub chunk_size : Dim N
  pub chunks_count : FixedVector ℕ N
  pub memories : List MemoryId

-- The loop of index2region, from the last axis to the first, with what is left of the index.
unfoldable pub regions : (N : ℕ) → ℕ → FixedVector ℕ N → Dim N → Dim N → Bounds N × ℕ
regions zero index num_chunks chunk_size array_size = (tt, index)
regions (suc N) index num_chunks chunk_size array_size =
    let (inner, index) = regions N index num_chunks.1 chunk_size.1 array_size.1 in
    let begin = pos (index % num_chunks.0) *ℤ chunk_size.0 in
    let end = begin +ℤ chunk_size.0 in
    (
      (record { begin = begin; end = if ltb_ℤ array_size.0 end then array_size.0 else end }, inner),
      index / num_chunks.0,
    )

unfoldable pub index2region : (N : ℕ) → ℕ → FixedVector ℕ N → Dim N → Dim N → Bounds N
unfolding regions
index2region N index num_chunks chunk_size array_size =
    (regions N index num_chunks chunk_size array_size).0

-- The loop of region2index.
unfoldable pub index_from : (N : ℕ) → ℕ → Bounds N → Dim N → FixedVector ℕ N → Result ℕ
unfolding div_floor in_range cast
index_from zero index region chunk_size chunks_count = ok index
index_from (suc N) index region chunk_size chunks_count =
    let k = div_floor region.0.begin chunk_size.0 in
    let next = (index * chunks_count.0 + pos_part (cast size_type k)) % 2 ^ 64 in
    if not (in_range int64 size_type k (pos chunks_count.0))
    then err out_of_range
    else if ltb_ℤ ((k +ℤ pos 1) *ℤ chunk_size.0) region.0.end
    then err out_of_range
    else index_from N next region.1 chunk_size.1 chunks_count.1

unfoldable pub region2index : (N : ℕ) → Bounds N → Dim N → FixedVector ℕ N → Result ℕ
unfolding index_from
region2index N region chunk_size chunks_count = index_from N 0 region chunk_size chunks_count

-- The loop of the constructor and of from_chunks that counts the chunks.
unfoldable pub count_chunks : (N : ℕ) → ℕ → Dim N → Dim N → Result (FixedVector ℕ N × ℕ)
unfolding div_ceil checked_cast checked_mul
count_chunks zero total array_size chunk_size = ok (tt, total)
count_chunks (suc N) total array_size chunk_size =
    checked_cast int64 size_type (div_ceil array_size.0 chunk_size.0) >>= λ count.
    checked_mul size_type (pos total) count >>= λ product.
    count_chunks N (pos_part product) array_size.1 chunk_size.1 >>= λ rest.
    ok ((pos_part count, rest.0), rest.1)

unfoldable pub new_distribution : (N : ℕ) → Dim N → Dim N → List MemoryId → Result (Distribution N)
unfolding count_chunks
new_distribution N array_size chunk_size memories =
    count_chunks N 1 array_size chunk_size >>= λ counted.
    if counted.1 == length memories
    then ok (record {
      array_size = array_size;
      chunk_size = chunk_size;
      chunks_count = counted.0;
      memories = memories;
    })
    else err invalid_argument

abbrev pub num_chunks : {N : ℕ} → Distribution N → ℕ
num_chunks d = length d.memories

unfoldable pub region_to_chunk_index : (N : ℕ) → Distribution N → Bounds N → Result ℕ
unfolding region2index
region_to_chunk_index N d region = region2index N region d.chunk_size d.chunks_count

unfoldable pub chunk : (N : ℕ) → Distribution N → ℕ → Result (ArrayChunk N)
unfolding index2region
chunk N d index = elim (get_elem? d.memories index) [
  | none ↦ err invalid_argument
  | some owner_id ↦
      let region = index2region N index d.chunks_count d.chunk_size d.array_size in
      ok (record { owner_id = owner_id; offset = begins N region; size = sizes N region })
]

-- The size of the last chunk whose offset is the origin.
unfoldable pub origin_size : (N : ℕ) → Dim N → List (ArrayChunk N) → Dim N
origin_size N found [] = found
origin_size N found (c ∷ cs) =
    origin_size N (if equals N c.offset (fill N (pos 0)) then c.size else found) cs

-- The loop over the axes of a chunk: its linear index, and the offset and size that it should have.
unfoldable pub place : (N : ℕ) → ℕ → Point N → Dim N → Dim N → FixedVector ℕ N → ℕ × Point N × Dim N
unfolding div_floor cast
place zero index offset chunk_size array_size chunks_count = (index, tt, tt)
place (suc N) index offset chunk_size array_size chunks_count =
    let k = div_floor offset.0 chunk_size.0 in
    let expected = k *ℤ chunk_size.0 in
    let left = array_size.0 -ℤ expected in
    let next = (index * chunks_count.0 + pos_part (cast size_type k)) % 2 ^ 64 in
    let (linear, offsets, lengths) =
      place N next offset.1 chunk_size.1 array_size.1 chunks_count.1 in
    (linear, (expected, offsets), (if ltb_ℤ left chunk_size.0 then left else chunk_size.0, lengths))

-- The owners so far; `none` is a chunk that has not been visited, whose owner in the source is the
-- host until it is. An index out of bounds is undefined in the source, and an error here.
unfoldable pub visit :
    Bool → MemoryId → ℕ → List (Option MemoryId) → Result (List (Option MemoryId))
unfolding memory_eq
visit allow_duplicates owner linear owners = elim (get_elem? owners linear) [
  | none ↦ err out_of_range
  | some none ↦ ok (set owners linear (some owner))
  | some (some m) ↦
      if not allow_duplicates
      then err invalid_argument
      else if not (memory_eq m owner)
      then ok (set owners linear (some host))
      else ok owners
]

-- The loop of from_chunks over the chunks.
unfoldable pub assign :
    (N : ℕ)
    → Dim N
    → Dim N
    → FixedVector ℕ N
    → Bool
    → List (Option MemoryId)
    → List (ArrayChunk N)
    → Result (List (Option MemoryId))
unfolding place visit
assign N array_size chunk_size counts allow_duplicates owners [] = ok owners
assign N array_size chunk_size counts allow_duplicates owners (c ∷ cs) =
    let (linear, offset, size) = place N 0 c.offset chunk_size array_size counts in
    if not (equals N c.offset offset) || not (equals N c.size size)
    then err invalid_argument
    else visit allow_duplicates c.owner_id linear owners >>= λ owners.
        assign N array_size chunk_size counts allow_duplicates owners cs

abbrev pub replicate {ℓ} : {A : Type ℓ} → ℕ → A → List A
replicate zero x = []
replicate (suc n) x = x ∷ replicate n x

-- The check that every chunk has been visited.
unfoldable pub all_visited : List (Option MemoryId) → Result (List MemoryId)
all_visited [] = ok []
all_visited (none ∷ os) = err invalid_argument
all_visited (some m ∷ os) = all_visited os >>= λ ms. ok (m ∷ ms)

unfoldable pub from_chunks : (N : ℕ) → Dim N → List (ArrayChunk N) → Bool → Result (Distribution N)
unfolding origin_size count_chunks assign all_visited new_distribution
from_chunks N array_size chunks allow_duplicates =
    let chunk_size = origin_size N (fill N (pos 0)) chunks in
    if has_no_points N chunk_size
    then err invalid_argument
    else count_chunks N 1 array_size chunk_size >>= λ counted.
        assign N array_size chunk_size counted.0 allow_duplicates (replicate counted.1 none) chunks
        >>= λ owners.
            all_visited owners >>= λ memories. new_distribution N array_size chunk_size memories

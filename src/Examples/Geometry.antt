-- ===== src/Examples/Geometry.antt =====
-- Index geometry, checked conversions and distributions at concrete inputs.
use kmm.Prelude.{ℕ, ◌≡◌, ◌↔◌, ◌<◌, refl, true, false, not, ◌&&◌, arith, List, [], ◌∷◌}
use kmm.Prelude.Results.{ok, err, overflow}
use kmm.Prelude.Int.{pos, negsuc, ◌+ℤ◌, ◌-ℤ◌, ◌*ℤ◌}
use kmm.Identifiers.{MemoryId, host, device}
use kmm.Checked.{signed_int, unsigned_int, checked_cast}
use kmm.Checked.Exact.{checked_cast_lem}
use kmm.Geometry.Range.{Range}
use kmm.Geometry.Bounds.{
  Point, Dim, Bounds, contains, intersection, overlaps, is_empty, contains_bounds,
}
use kmm.Geometry.Sets.{intersection_lem, contains_bounds_iff}
use kmm.Distribution.{
  Distribution, ArrayChunk, new_distribution, from_chunks, region_to_chunk_index, index2region,
  num_chunks,
}
use kmm.Distribution.Lookup.{region_to_chunk_index_iff}

abbrev span : ℕ → ℕ → Range
span b e = record { begin = pos b; end = pos e }

-- -1 does not fit in an unsigned type.
checked_cast_lem_example : checked_cast (signed_int 64) (unsigned_int 32) (negsuc 0) ≡ err overflow
checked_cast_lem_example =
    checked_cast_lem (signed_int 64) (unsigned_int 32) (negsuc 0) (omega arith)
      (omega arith, omega arith)

abbrev left_box : Bounds 2
left_box = (span 0 4, (span 0 6, tt))

abbrev right_box : Bounds 2
right_box = (span 2 8, (span 5 9, tt))

intersection_lem_example :
    (overlaps 2 left_box right_box ≡ not (is_empty 2 (intersection 2 left_box right_box)))
    × ((p : Point 2)
        → contains 2 (intersection 2 left_box right_box) p
          ≡ (contains 2 left_box p && contains 2 right_box p))
intersection_lem_example = intersection_lem 2 left_box right_box

contains_bounds_iff_example :
    (contains_bounds 2 left_box right_box ≡ true)
    ↔ ((p : Point 2) → contains 2 right_box p ≡ true → contains 2 left_box p ≡ true)
contains_bounds_iff_example = contains_bounds_iff 2 left_box right_box

-- An array of 5 by 4 in chunks of 2 by 2: three rows of two chunks.
abbrev array_dim : Dim 2
array_dim = (pos 5, (pos 4, tt))

abbrev chunk_dim : Dim 2
chunk_dim = (pos 2, (pos 2, tt))

abbrev owners : List MemoryId
owners = host ∷ device 0 ∷ device 1 ∷ host ∷ device 0 ∷ device 1 ∷ []

abbrev six_chunks : Distribution 2
six_chunks = record {
  array_size = array_dim;
  chunk_size = chunk_dim;
  chunks_count = (3, (2, tt));
  memories = owners;
}

made : new_distribution 2 array_dim chunk_dim owners ≡ ok six_chunks
unfolding new_distribution ◌+ℤ◌ ◌*ℤ◌
made = refl

abbrev one_cell : Bounds 2
one_cell = (span 4 5, (span 2 4, tt))

region_to_chunk_index_iff_example : (region_to_chunk_index 2 six_chunks one_cell ≡ ok 5) ↔ (
    (5 < num_chunks six_chunks)
    × (contains_bounds 2 (index2region 2 5 (3, (2, tt)) chunk_dim array_dim) one_cell ≡ true))
unfolding ◌+ℤ◌
region_to_chunk_index_iff_example =
    region_to_chunk_index_iff 2 array_dim chunk_dim owners six_chunks made
      (omega arith, (omega arith, tt)) (omega arith, (omega arith, tt)) (omega arith) one_cell refl
      refl 5

found : region_to_chunk_index 2 six_chunks one_cell ≡ ok 5
unfolding region_to_chunk_index ◌+ℤ◌ ◌*ℤ◌
found = refl

abbrev piece : ℕ → ℕ → ℕ → ℕ → MemoryId → ArrayChunk 2
piece y x h w m = record {
  owner_id = m;
  offset = (pos y, (pos x, tt));
  size = (pos h, (pos w, tt));
}

-- An empty chunk past the end of the first row of chunks takes the place of the first chunk of the
-- second row, which no chunk of the list covers.
missing_chunk :
    from_chunks 2
      (pos 4, (pos 4, tt))
      (piece 0 0 2 2 host ∷ piece 0 2 2 2 host ∷ piece 0 4 2 0 (device 1) ∷ piece 2 2 2 2 host ∷ [])
      false
    ≡ ok (record {
      array_size = (pos 4, (pos 4, tt));
      chunk_size = (pos 2, (pos 2, tt));
      chunks_count = (2, (2, tt));
      memories = host ∷ host ∷ device 1 ∷ host ∷ [];
    })
unfolding from_chunks ◌-ℤ◌ ◌*ℤ◌
missing_chunk = refl

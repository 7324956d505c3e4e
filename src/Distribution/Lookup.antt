-- ===== src/Distribution/Lookup.antt =====
-- A lookup by region is exact.
use native.Mathlib.Nat.{mod-eq_of_lt, div-add-mod, div-eq_of_lt-le, div-le_self}
use kmm.Prelude.{
  ℕ, zero, suc, ◌+◌, ◌*◌, ◌/◌, ◌%◌, ◌^◌, ◌<◌, ◌≤◌, ◌≡◌, ◌↔◌, refl, sym, ap, subst, ◌∙◌, Bool, true,
  false, not, ◌&&◌, arith, if◌then◌else◌, List,
}
use kmm.Prelude.Results.{Result, ok, err, out_of_range, ok-injective}
use kmm.Prelude.Int.{ℤ, pos, negsuc, pos_part, ◌+ℤ◌, ◌*ℤ◌, ltb_ℤ, leb_ℤ, +ℤ_parts, ◌<ℤ◌, ◌≤ℤ◌}
use kmm.Identifiers.{MemoryId}
use kmm.Checked.{max_inclusive, cast, in_range}
use kmm.Checked.Exact.{in_range_lem, cast_id}
use kmm.Integers.Signed.{div_floor, div_floor-pos, pos-mul, pos-add}
use kmm.Geometry.Bounds.{FixedVector, Dim, Bounds, of_dim, is_empty, within, contains_bounds}
use kmm.Distribution.{
  int64, size_type, Distribution, regions, index2region, index_from, region2index, num_chunks,
  region_to_chunk_index, new_distribution,
}
use kmm.Distribution.Counts.{count_product}
use kmm.Distribution.Index.{
  Positive, Sizes, next_end, digit, room, multiple, new_distribution_lem, factors,
  region_to_chunk_index-index2region,
}

-- Regions that are not empty and lie inside an array of these sizes.
abbrev Inside : (N : ℕ) → Dim N → Bounds N → Type 0
Inside zero array_size region = Unit
Inside (suc N) array_size region =
    (pos 0 ≤ℤ region.0.begin)
    × (region.0.begin <ℤ region.0.end)
    × (region.0.end ≤ℤ array_size.0)
    × Inside N array_size.1 region.1

-- A step of index_from that goes on.
axis_found :
    (n : ℕ) (c array begin end : ℤ)
    → pos 0 <ℤ c
    → n < 2 ^ 64
    → array ≤ℤ max_inclusive int64
    → pos 0 ≤ℤ begin
    → begin <ℤ end
    → end ≤ℤ array
    → in_range int64 size_type (div_floor begin c) (pos n) ≡ true
    → ltb_ℤ ((div_floor begin c +ℤ pos 1) *ℤ c) end ≡ false
    → (k : ℕ) × (div_floor begin c ≡ pos k)
      × (pos_part (cast size_type (pos k)) ≡ k)
      × (k < n)
      × (pos k *ℤ c ≤ℤ begin)
      × (end ≤ℤ pos k *ℤ c +ℤ c)
axis_found n (negsuc c) array begin end hc hn ha hb he hm inside low = absurd (omega (arith, hc))
axis_found n (pos c) array (negsuc b) end hc hn ha hb he hm inside low = absurd (omega (arith, hb))
axis_found n (pos c) array (pos b) end hc hn ha hb he hm inside low =
    let k = b / c in
    let is_k : div_floor (pos b) (pos c) ≡ pos k = div_floor-pos b c in
    let small : k ≤ b = div-le_self b c in
    let fits_k : k < 2 ^ 63 = omega (arith, small, he, hm, ha) in
    let exact =
      in_range_lem int64 size_type (pos k) (pos n) (omega arith)
        (omega arith, omega (arith, fits_k)) (omega arith, omega (arith, hn)) in
    let inside' : in_range int64 size_type (pos k) (pos n) ≡ true =
      subst (λ z. in_range int64 size_type z (pos n) ≡ true) is_k inside in
    let below : k < n = ground (arith, sym exact ∙ inside') in
    let low' : ltb_ℤ (pos (k * c + c)) end ≡ false =
      subst (λ z. ltb_ℤ z end ≡ false) (ap (λ z. (z +ℤ pos 1) *ℤ pos c) is_k ∙ next_end k c) low in
    let part : pos k *ℤ pos c ≡ pos (k * c) = pos-mul k c in
    let under : k * c ≤ b = grind (arith, div-add-mod b c) in
    (
      k,
      is_k,
      ap pos_part (cast_id size_type (pos k) (omega arith) (omega arith, omega (arith, fits_k))),
      below,
      rw part (omega (arith, under)),
      rw (part, pos-add (k * c) c) (ground (arith, low')),
    )

-- The digits of an index.
digits : (q n k : ℕ) → k < n → ((q * n + k) % n ≡ k) × ((q * n + k) / n ≡ q)
digits q n k h =
    let e : (q * n + k) / n ≡ q = div-eq_of_lt-le n (omega arith) (omega (arith, h)) in
    (omega (arith, div-add-mod (q * n + k) n, ap (λ d. n * d) e), e)

two_tests {ℓ} :
    {A : Type ℓ} (a b : Bool) (rest : Result A) (x : A)
    → (if not a then err out_of_range else if b then err out_of_range else rest) ≡ ok x
    → (a ≡ true) × (b ≡ false) × (rest ≡ ok x)
two_tests true false rest x e = (refl, refl, e)
two_tests true true rest x e = absurd (cc e)
two_tests false b rest x e = absurd (cc e)

bounded_part :
    (first next array begin end : ℤ) (rest : Bool)
    → first ≤ℤ begin
    → end ≤ℤ next
    → end ≤ℤ array
    → rest ≡ true
    → (leb_ℤ first begin && leb_ℤ end (if ltb_ℤ array next then array else next) && rest) ≡ true
bounded_part first next array begin end rest h k l r = ground (arith, h, k, l, r)

index_from_found :
    (N acc index : ℕ) (counts : FixedVector ℕ N) (chunk_size array_size : Dim N) (region : Bounds N)
    → Positive N chunk_size
    → Sizes N array_size
    → Inside N array_size region
    → 0 < count_product N counts
    → (acc + 1) * count_product N counts < 2 ^ 64
    → index_from N acc region chunk_size counts ≡ ok index
    → (r : ℕ) × (index ≡ acc * count_product N counts + r)
      × (r < count_product N counts)
      × ((q : ℕ)
          → let (parts, left) =
              regions N (q * count_product N counts + r) counts chunk_size array_size in
            (within N parts region ≡ true) × (left ≡ q))
unfolding regions index_from
index_from_found zero acc index counts chunk_size array_size region hc ha hr hp hw e =
    (0, omega (arith, ok-injective e), omega arith, λ q. (refl, omega arith))
index_from_found (suc N) acc index counts chunk_size array_size region hc ha (hb, hm, he, hr) hp hw
      e =
    let n = counts.0 in
    let P = count_product N counts.1 in
    let (some_here, some_inside) = factors n P hp in
    let k0 = div_floor region.0.begin chunk_size.0 in
    let next0 = (acc * n + pos_part (cast size_type k0)) % 2 ^ 64 in
    let (inside, low, rest) =
      two_tests (in_range int64 size_type k0 (pos n))
        (ltb_ℤ ((k0 +ℤ pos 1) *ℤ chunk_size.0) region.0.end)
        (index_from N next0 region.1 chunk_size.1 counts.1) index e in
    let few : n < 2 ^ 64 =
      omega (arith, multiple n P some_inside, multiple (n * P) (acc + 1) (omega arith), hw) in
    let (k, is_k, same, below, from_here, to_here) =
      axis_found n chunk_size.0 array_size.0 region.0.begin region.0.end hc.0 few ha.0 hb hm he
        inside low in
    let (next_fits, next_room, _) = room acc n P k below some_inside hw in
    let next : next0 ≡ acc * n + k =
      ap (λ z. (acc * n + pos_part (cast size_type z)) % 2 ^ 64) is_k
      ∙ ap (λ z. (acc * n + z) % 2 ^ 64) same
      ∙ mod-eq_of_lt next_fits in
    let rest : index_from N (acc * n + k) region.1 chunk_size.1 counts.1 ≡ ok index =
      subst (λ z. index_from N z region.1 chunk_size.1 counts.1 ≡ ok index) next rest in
    let (r, is_index, r_lt, there) =
      index_from_found N (acc * n + k) index counts.1 chunk_size.1 array_size.1 region.1 hc.1 ha.1
        hr some_inside next_room rest in
    (
      k * P + r,
      omega (arith, is_index),
      digit k n P r below r_lt,
      λ q.
          let e : q * (n * P) + (k * P + r) ≡ (q * n + k) * P + r = omega arith in
          let (inner, left) = there (q * n + k) in
          let (is_digit, is_rest) = digits q n k below in
          rw (e, left, is_digit, is_rest)
            (
              bounded_part (pos k *ℤ chunk_size.0) (pos k *ℤ chunk_size.0 +ℤ chunk_size.0)
                  array_size.0 region.0.begin region.0.end
                  (within N (regions N ((q * n + k) * P + r) counts.1 chunk_size.1 array_size.1).0
                    region.1)
                  from_here to_here he inner,
              refl,
            ),
    )

within-Inside :
    (N : ℕ) (array_size : Dim N) (region : Bounds N)
    → within N (of_dim N array_size) region ≡ true
    → is_empty N region ≡ false
    → Inside N array_size region
within-Inside zero array_size region h some = tt
within-Inside (suc N) array_size region h some =
    let (low, high, rest) =
      three (leb_ℤ (pos 0 +ℤ pos 0) region.0.begin) (leb_ℤ region.0.end (array_size.0 +ℤ pos 0))
        (within N (of_dim N array_size.1) region.1) h in
    (
      ground (arith, low, +ℤ_parts (pos 0) (pos 0)),
      ground (arith, some),
      ground (arith, high, +ℤ_parts array_size.0 (pos 0)),
      within-Inside N array_size.1 region.1 rest (ground (arith, some)),
    )
  where
    three : (a b c : Bool) → (a && b && c) ≡ true → (a ≡ true) × (b ≡ true) × (c ≡ true)
    three a b c e = (ground (arith, e), ground (arith, e), ground (arith, e))

-- Of a distribution that has chunks, and they of positive size, a region that is not empty and lies
-- inside the array is found under a number exactly when this is the number of a chunk and the region
-- lies in that chunk.
pub region_to_chunk_index_iff :
    (N : ℕ) (array_size chunk_size : Dim N) (memories : List MemoryId) (d : Distribution N)
    → new_distribution N array_size chunk_size memories ≡ ok d
    → Positive N chunk_size
    → Sizes N array_size
    → 0 < num_chunks d
    → (region : Bounds N) → contains_bounds N (of_dim N array_size) region ≡ true
    → is_empty N region ≡ false
    → (index : ℕ)
    → (region_to_chunk_index N d region ≡ ok index) ↔ (
        (index < num_chunks d)
        × (contains_bounds N (index2region N index d.chunks_count d.chunk_size d.array_size) region
            ≡ true))
unfolding region_to_chunk_index region2index index2region
region_to_chunk_index_iff N array_size chunk_size memories d made hc ha some region inside full
      index =
    (
      found,
      λ h.
          region_to_chunk_index-index2region N array_size chunk_size memories d made hc ha index h.0
            region h.1 full,
    )
  where
    found :
        region_to_chunk_index N d region ≡ ok index
        → (index < num_chunks d)
          × (contains_bounds N (regions N index d.chunks_count d.chunk_size d.array_size).0 region
              ≡ true)
    found e =
        let (same_array, same_chunk, number, few) =
          new_distribution_lem N array_size chunk_size memories d made in
        let in_array : Inside N array_size region =
          within-Inside N array_size region (ground (arith, inside, full)) full in
        let (r, is_index, r_lt, there) =
          index_from_found N 0 index d.chunks_count d.chunk_size d.array_size region
            (subst (Positive N) (sym same_chunk) hc) (subst (Sizes N) (sym same_array) ha)
            (subst (λ a. Inside N a region) (sym same_array) in_array) (omega (arith, number, some))
            (omega (arith, number, few)) e in
        let is_r : 0 * count_product N d.chunks_count + r ≡ index = omega (arith, is_index) in
        let contained : within N (regions N index d.chunks_count d.chunk_size d.array_size).0 region
            ≡ true =
          subst
            (λ i. within N (regions N i d.chunks_count d.chunk_size d.array_size).0 region ≡ true)
            is_r (there 0).0 in
        (omega (arith, is_index, r_lt, number), rw contained refl)

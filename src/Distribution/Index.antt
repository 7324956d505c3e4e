-- ===== src/Distribution/Index.antt =====
-- The numbering of chunks: finding the chunk of a region.
use native.Mathlib.Nat.{mod-eq_of_lt, mod-lt, div-add-mod}
use kmm.Prelude.{
  ℕ, zero, suc, ◌+◌, ◌*◌, ◌/◌, ◌%◌, ◌^◌, ◌<◌, ◌≤◌, ◌≡◌, refl, sym, ap, subst, ◌∙◌, inl, inr, Bool,
  true, false, ◌&&◌, arith, Bool-cases, ◌==◌, if◌then◌else◌, if_true, if_false, length, List,
}
use kmm.Prelude.Results.{ok, err, invalid_argument, >>=-success, ok-injective}
use kmm.Prelude.Int.{
  ℤ, pos, negsuc, pos_part, neg_part, ◌+ℤ◌, ◌*ℤ◌, ltb_ℤ, leb_ℤ, +ℤ_parts, ◌<ℤ◌, ◌≤ℤ◌,
}
use kmm.Identifiers.{MemoryId}
use kmm.Checked.{max_inclusive, cast, in_range}
use kmm.Checked.Exact.{in_range_lem, cast_id}
use kmm.Integers.Signed.{div_floor, div_floor_part, pos-mul, pos-add}
use kmm.Distribution.Counts.{count_product, count_chunks_lem}
use kmm.Geometry.Bounds.{FixedVector, Dim, Bounds, is_empty, within, contains_bounds}
use kmm.Distribution.{
  int64, size_type, Distribution, regions, index2region, index_from, region2index, num_chunks,
  region_to_chunk_index, count_chunks, new_distribution,
}

-- All sizes positive.
abbrev pub Positive : (N : ℕ) → Dim N → Type 0
Positive zero d = Unit
Positive (suc N) d = (pos 0 <ℤ d.0) × Positive N d.1

pub next_end : (k c : ℕ) → (pos k +ℤ pos 1) *ℤ pos c ≡ pos (k * c + c)
next_end k c = rw (pos-add k 1, pos-mul (k + 1) c) (ap pos (grind arith))

-- One axis: a region that is not empty and lies in the part of number `k` has this part's number,
-- and passes both tests.
axis :
    (k n : ℕ) (c array begin end : ℤ)
    → pos 0 <ℤ c
    → k < n
    → n < 2 ^ 64
    → array ≤ℤ max_inclusive int64
    → pos k *ℤ c ≤ℤ begin
    → begin <ℤ end
    → end ≤ℤ pos k *ℤ c +ℤ c
    → end ≤ℤ array
    → (div_floor begin c ≡ pos k)
      × (in_range int64 size_type (pos k) (pos n) ≡ true)
      × (ltb_ℤ ((pos k +ℤ pos 1) *ℤ c) end ≡ false)
      × (pos_part (cast size_type (pos k)) ≡ k)
axis k n (negsuc c) array begin end hc hk hn ha low inside high most = absurd (omega (arith, hc))
axis k n (pos c) array (negsuc b) end hc hk hn ha low inside high most =
    absurd (omega (arith, low, ap pos_part (pos-mul k c), ap neg_part (pos-mul k c)))
axis k n (pos c) array (pos b) end hc hk hn ha low inside high most =
    let e : pos k *ℤ pos c ≡ pos (k * c) = pos-mul k c in
    let below : k * c ≤ b = omega (arith, subst (λ z. z ≤ℤ pos b) e low) in
    let top : end ≤ℤ pos (k * c) +ℤ pos c = subst (λ z. end ≤ℤ z +ℤ pos c) e high in
    let top : end ≤ℤ pos (k * c + c) = omega (arith, top, +ℤ_parts (pos (k * c)) (pos c)) in
    let small : k ≤ k * c = grind (arith, hc) in
    let e' : (pos k +ℤ pos 1) *ℤ pos c ≡ pos (k * c + c) = next_end k c in
    (
      div_floor_part k b c below (omega (arith, top, inside)),
      in_range_lem int64 size_type (pos k) (pos n) (omega arith)
            (omega arith, omega (arith, small, below, inside, most, ha))
            (omega arith, omega (arith, hn))
          ∙ ground (arith, hk),
      rw e' (ground (arith, top)),
      ap pos_part (cast_id size_type (pos k) (omega arith) (omega arith, omega (arith, hk, hn))),
    )

-- The number of a chunk within the axes that a loop has passed: the index less what is left of it.
inner_index : (N : ℕ) → ℕ → FixedVector ℕ N → Dim N → Dim N → ℕ
inner_index zero index counts chunk_size array_size = 0
inner_index (suc N) index counts chunk_size array_size =
    (regions N index counts.1 chunk_size.1 array_size.1).1 % counts.0 * count_product N counts.1
    + inner_index N index counts.1 chunk_size.1 array_size.1

index_split :
    (N index : ℕ) (counts : FixedVector ℕ N) (chunk_size array_size : Dim N)
    → index
      ≡ (regions N index counts chunk_size array_size).1 * count_product N counts
        + inner_index N index counts chunk_size array_size
unfolding regions inner_index
index_split zero index counts chunk_size array_size = omega arith
index_split (suc N) index counts chunk_size array_size =
    let q = (regions N index counts.1 chunk_size.1 array_size.1).1 in
    let e = index_split N index counts.1 chunk_size.1 array_size.1 in
    regroup index q counts.0 (count_product N counts.1) (q / counts.0) (q % counts.0)
      (inner_index N index counts.1 chunk_size.1 array_size.1) e (div-add-mod q counts.0)
  where
    regroup :
        (index q n P d m r : ℕ)
        → index ≡ q * P + r
        → n * d + m ≡ q
        → index ≡ d * (n * P) + (m * P + r)
    regroup index q n P d m r e h = rw (e, sym h) (omega arith)

pub factors : (n P : ℕ) → 0 < n * P → (0 < n) × (0 < P)
factors zero P h = absurd (omega (arith, h))
factors (suc n) zero h = absurd (omega (arith, h))
factors (suc n) (suc P) h = (omega arith, omega arith)

scaled : (m n P : ℕ) → m < n → m * P + P ≤ n * P
scaled m n P h = grind arith

pub digit : (m n P r : ℕ) → m < n → r < P → m * P + r < n * P
digit m n P r h l = omega (arith, scaled m n P h, l)

pub multiple : (x P : ℕ) → 0 < P → x ≤ x * P
multiple x P h = grind arith

-- What is left of the room for indices after one more digit.
pub room :
    (acc n P k : ℕ)
    → k < n
    → 0 < P
    → (acc + 1) * (n * P) < 2 ^ 64
    → (acc * n + k < 2 ^ 64) × ((acc * n + k + 1) * P < 2 ^ 64) × (n < 2 ^ 64)
room acc n P k h hp hw =
    let next : (acc * n + k + 1) * P < 2 ^ 64 = omega (arith, scaled k n P h, hw) in
    (omega (arith, multiple (acc * n + k + 1) P hp, next), next, omega (arith, multiple n P hp, hw))

-- The four bounds that `within` tests on an axis.
sides :
    (first next array begin end : ℤ) (rest : Bool)
    → (leb_ℤ first begin && leb_ℤ end (if ltb_ℤ array next then array else next) && rest) ≡ true
    → (first ≤ℤ begin) × ((end ≤ℤ next) × (end ≤ℤ array)) × (rest ≡ true)
sides first next array begin end rest h =
    (ground (arith, h), (ground (arith, h), ground (arith, h)), ground (arith, h))

inner_index_bound :
    (N index : ℕ) (counts : FixedVector ℕ N) (chunk_size array_size : Dim N)
    → 0 < count_product N counts
    → inner_index N index counts chunk_size array_size < count_product N counts
unfolding inner_index
inner_index_bound zero index counts chunk_size array_size h = omega arith
inner_index_bound (suc N) index counts chunk_size array_size h =
    let (some_here, some_inside) = factors counts.0 (count_product N counts.1) h in
    digit ((regions N index counts.1 chunk_size.1 array_size.1).1 % counts.0) counts.0
      (count_product N counts.1) (inner_index N index counts.1 chunk_size.1 array_size.1)
      (mod-lt (regions N index counts.1 chunk_size.1 array_size.1).1 some_here)
      (inner_index_bound N index counts.1 chunk_size.1 array_size.1 some_inside)

-- An index below the number of chunks leaves nothing.
nothing_left :
    (N index : ℕ) (counts : FixedVector ℕ N) (chunk_size array_size : Dim N)
    → index < count_product N counts
    → inner_index N index counts chunk_size array_size ≡ index
nothing_left N index counts chunk_size array_size h =
    none_above (regions N index counts chunk_size array_size).1 (count_product N counts) index
      (inner_index N index counts chunk_size array_size) h
      (index_split N index counts chunk_size array_size)
  where
    none_above : (q P index r : ℕ) → index < P → index ≡ q * P + r → r ≡ index
    none_above zero P index r h e = omega (arith, e)
    none_above (suc q) P index r h e = absurd (omega (arith, e, h))

-- The sizes of an array are values of their type.
abbrev pub Sizes : (N : ℕ) → Dim N → Type 0
Sizes zero d = Unit
Sizes (suc N) d = (d.0 ≤ℤ max_inclusive int64) × Sizes N d.1

index_from_lem :
    (N index acc : ℕ) (counts : FixedVector ℕ N) (chunk_size array_size : Dim N) (region : Bounds N)
    → Positive N chunk_size
    → Sizes N array_size
    → 0 < count_product N counts
    → (acc + 1) * count_product N counts < 2 ^ 64
    → within N (regions N index counts chunk_size array_size).0 region ≡ true
    → is_empty N region ≡ false
    → index_from N acc region chunk_size counts
      ≡ ok (acc * count_product N counts + inner_index N index counts chunk_size array_size)
unfolding regions inner_index index_from
index_from_lem zero index acc counts chunk_size array_size region hc ha hp hw inside some =
    ap ok (omega arith)
index_from_lem (suc N) index acc counts chunk_size array_size region hc ha hp hw inside some =
    let q = (regions N index counts.1 chunk_size.1 array_size.1).1 in
    let k = q % counts.0 in
    let P = count_product N counts.1 in
    let (some_here, some_inside) = factors counts.0 P hp in
    let k_lt : k < counts.0 = mod-lt q some_here in
    let (next_fits, next_room, few) = room acc counts.0 P k k_lt some_inside hw in
    let (low, high, rest) =
      sides (pos k *ℤ chunk_size.0) (pos k *ℤ chunk_size.0 +ℤ chunk_size.0) array_size.0
        region.0.begin region.0.end
        (within N (regions N index counts.1 chunk_size.1 array_size.1).0 region.1) inside in
    let (e0, e1, e2, e3) =
      axis k counts.0 chunk_size.0 array_size.0 region.0.begin region.0.end hc.0 k_lt few ha.0 low
        (ground (arith, some)) high.0 high.1 in
    let more =
      index_from_lem N index (acc * counts.0 + k) counts.1 chunk_size.1 array_size.1 region.1 hc.1
        ha.1 some_inside next_room rest (ground (arith, some)) in
    rw (e0, e1, e2, e3, mod-eq_of_lt next_fits, more) (ap ok (omega arith))

-- What the constructor gives.
pub new_distribution_lem :
    (N : ℕ) (array_size chunk_size : Dim N) (memories : List MemoryId) (d : Distribution N)
    → new_distribution N array_size chunk_size memories ≡ ok d
    → (d.array_size ≡ array_size)
      × (d.chunk_size ≡ chunk_size)
      × (num_chunks d ≡ count_product N d.chunks_count)
      × (num_chunks d < 2 ^ 64)
unfolding new_distribution
new_distribution_lem N array_size chunk_size memories d h =
    let (counted, made, is_counted) =
      >>=-success
        (λ (counted : FixedVector ℕ N × ℕ).
          if counted.1 == length memories then ok (built counted.0) else err invalid_argument)
        (count_chunks N 1 array_size chunk_size) h in
    let (all, below) =
      count_chunks_lem N 1 array_size chunk_size counted is_counted (omega arith) in
    elim (Bool-cases (counted.1 == length memories)) [
      | inr e ↦ absurd (cc (made, if_false (ok (built counted.0)) (err invalid_argument) e))
      | inl e ↦
          let same : built counted.0 ≡ d =
            ok-injective (sym (if_true (ok (built counted.0)) (err invalid_argument) e) ∙ made) in
          let number : counted.1 ≡ length memories = ground (arith, e) in
          subst
            (λ d.
              (d.array_size ≡ array_size)
              × (d.chunk_size ≡ chunk_size)
              × (num_chunks d ≡ count_product N d.chunks_count)
              × (num_chunks d < 2 ^ 64))
            same (refl, refl, omega (arith, number, all), omega (arith, number, below))
    ]
  where
    built : FixedVector ℕ N → Distribution N
    built counts = record {
      array_size = array_size;
      chunk_size = chunk_size;
      chunks_count = counts;
      memories = memories;
    }

-- Of a distribution whose chunks have positive size, a region that is not empty and lies in a chunk
-- is found under the number of this chunk.
pub region_to_chunk_index-index2region :
    (N : ℕ) (array_size chunk_size : Dim N) (memories : List MemoryId) (d : Distribution N)
    → new_distribution N array_size chunk_size memories ≡ ok d
    → Positive N chunk_size
    → Sizes N array_size
    → (index : ℕ) → index < num_chunks d
    → (region : Bounds N)
    → contains_bounds N (index2region N index d.chunks_count d.chunk_size d.array_size) region
      ≡ true
    → is_empty N region ≡ false
    → region_to_chunk_index N d region ≡ ok index
unfolding region_to_chunk_index region2index index2region
region_to_chunk_index-index2region N array_size chunk_size memories d made hc ha index h region
      inside some =
    let (same_array, same_chunk, number, few) =
      new_distribution_lem N array_size chunk_size memories d made in
    let P = count_product N d.chunks_count in
    let below : index < P = omega (arith, number, h) in
    let contained : within N (regions N index d.chunks_count d.chunk_size d.array_size).0 region
        ≡ true =
      ground (arith, inside, some) in
    index_from_lem N index 0 d.chunks_count d.chunk_size d.array_size region
      (subst (Positive N) (sym same_chunk) hc) (subst (Sizes N) (sym same_array) ha)
      (omega (arith, below)) (omega (arith, number, few)) contained some
    ∙ ap ok (omega (arith, nothing_left N index d.chunks_count d.chunk_size d.array_size below))

-- ===== src/Distribution/Counts.antt =====
-- The count of the chunks of a distribution: every product is exact.
use kmm.Prelude.{
  ℕ, zero, suc, ◌*◌, ◌^◌, ◌<◌, ◌≡◌, sym, ap, subst, ◌∙◌, inl, inr, arith, Bool-cases, if_true,
  if_false,
}
use kmm.Prelude.Results.{ok, err, overflow, >>=-success, ok-injective, ◌>>=◌}
use kmm.Prelude.Int.{ℤ, pos, pos_part}
use kmm.Checked.Products.{checked_mul_exact}
use kmm.Checked.{checked_mul, checked_cast, cast, unsigned_cast, is_convertible}
use kmm.Integers.Signed.{div_ceil}
use kmm.Geometry.Bounds.{FixedVector, Dim}
use kmm.Distribution.{int64, size_type, count_chunks}

abbrev pub count_product : (N : ℕ) → FixedVector ℕ N → ℕ
count_product zero counts = 1
count_product (suc N) counts = counts.0 * count_product N counts.1

-- A cast to size_t gives a number that is not negative.
checked_cast_unsigned : (v c : ℤ) → checked_cast int64 size_type v ≡ ok c → (n : ℕ) × (c ≡ pos n)
unfolding checked_cast cast
checked_cast_unsigned v c h = elim (Bool-cases (is_convertible int64 size_type v)) [
  | inl e ↦ (
    unsigned_cast 64 v,
    sym (ok-injective (sym (if_true (ok (cast size_type v)) (err overflow) e) ∙ h)),
  )
  | inr e ↦ absurd (cc (h, if_false (ok (cast size_type v)) (err overflow) e))
]

pub count_chunks_lem :
    (N total : ℕ) (array_size chunk_size : Dim N) (counted : FixedVector ℕ N × ℕ)
    → count_chunks N total array_size chunk_size ≡ ok counted
    → total < 2 ^ 64
    → (counted.1 ≡ total * count_product N counted.0) × (counted.1 < 2 ^ 64)
unfolding count_chunks
count_chunks_lem zero total array_size chunk_size counted h hw =
    let e : (tt, total) ≡ counted = ok-injective h in
    (omega (arith, ap (λ r. r.1) e), omega (arith, ap (λ r. r.1) e, hw))
count_chunks_lem (suc N) total array_size chunk_size counted h hw =
    let (c, made, is_count) =
      >>=-success
        (λ count. checked_mul size_type (pos total) count >>= λ product.
          count_chunks N (pos_part product) array_size.1 chunk_size.1 >>= λ rest.
          ok ((pos_part count, rest.0), rest.1))
        (checked_cast int64 size_type (div_ceil array_size.0 chunk_size.0)) h in
    let (p, made, is_product) =
      >>=-success
        (λ product. count_chunks N (pos_part product) array_size.1 chunk_size.1 >>= λ rest.
          ok ((pos_part c, rest.0), rest.1))
        (checked_mul size_type (pos total) c) made in
    let (r, made, is_rest) =
      >>=-success (λ (rest : FixedVector ℕ N × ℕ). ok ((pos_part c, rest.0), rest.1))
        (count_chunks N (pos_part p) array_size.1 chunk_size.1) made in
    let (n, is_pos) = checked_cast_unsigned (div_ceil array_size.0 chunk_size.0) c is_count in
    let (is_exact, inside) =
      checked_mul_exact total n p
        (subst (λ z. checked_mul size_type (pos total) z ≡ ok p) is_pos is_product) in
    let (all, below) =
      count_chunks_lem N (pos_part p) array_size.1 chunk_size.1 r is_rest
        (omega (arith, ap pos_part is_exact, inside)) in
    let parts : ((pos_part c, r.0), r.1) ≡ counted = ok-injective made in
    subst (λ k. (k.1 ≡ total * count_product (suc N) k.0) × (k.1 < 2 ^ 64)) parts
      (all ∙ rw (is_exact, is_pos) (omega arith), below)

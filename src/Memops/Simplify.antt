-- ===== src/Memops/Simplify.antt =====
-- A copy in its simple form copies the same bytes.
use kmm.Prelude.{
  ℕ, zero, suc, ◌*◌, ◌^◌, ◌<◌, ◌≡◌, sym, ap, ◌∙◌, ◌↔◌, inl, inr, false, [], ◌∷◌, arith, Bool-cases,
  ==_iff, if_true, if_false, ◌==◌, if◌then◌else◌,
}
use kmm.Prelude.Results.{ok, ◌>>=◌, >>=-success, ok-injective}
use kmm.Prelude.Int.{pos, pos_part}
use kmm.Checked.{checked_mul}
use kmm.Checked.Products.{checked_mul_exact, checked_product_exact}
use kmm.Memops.{CopyDef, size_type, number_of_bytes_copied, simplify, nothing, rearrange}
use kmm.Memops.Pairs.{Copies}
use kmm.Memops.Steps.{
  volume, KeepsBytes, after, absorb_dims-KeepsBytes, merge_dims-KeepsBytes, clear_dims-KeepsBytes,
  order_dims-KeepsBytes, fill_dims-KeepsBytes,
}

pub number_of_bytes_copied_exact :
    (c : CopyDef) (n : ℕ) → number_of_bytes_copied c ≡ ok n → (n ≡ volume c) × (volume c < 2 ^ 64)
unfolding number_of_bytes_copied
number_of_bytes_copied_exact c n h =
    let counts = c.dim0.count ∷ c.dim1.count ∷ c.dim2.count ∷ [] in
    let (elements, then_bytes, product) = >>=-success _ _ h in
    let (bytes, done, multiplied) = >>=-success _ _ then_bytes in
    let (is_elements, _) = checked_product_exact counts elements product in
    let (is_bytes, few) =
      checked_mul_exact (c.dim2.count * (c.dim1.count * (c.dim0.count * 1))) c.element_size bytes
        (ap (λ z. checked_mul size_type z (pos c.element_size)) (sym is_elements) ∙ multiplied) in
    let is_n : pos_part bytes ≡ n = ok-injective done in
    (omega (arith, sym is_n, ap pos_part is_bytes), omega (arith, few))

product_positive : (a b : ℕ) → 0 < a → 0 < b → 0 < a * b
product_positive zero b h k = elim h [ ]
product_positive (suc a) zero h k = elim k [ ]
product_positive (suc a) (suc b) h k = omega arith

-- A copy that moves a byte has some.
Copies-volume : (c : CopyDef) (src dst : ℕ) → Copies c src dst → 0 < volume c
Copies-volume c src dst r =
    product_positive (c.element_size * c.dim0.count) (c.dim1.count * c.dim2.count)
      (product_positive c.element_size c.dim0.count (omega (arith, r.lt_byte))
        (omega (arith, r.lt0)))
      (product_positive c.dim1.count c.dim2.count (omega (arith, r.lt1)) (omega (arith, r.lt2)))

rearranged : KeepsBytes rearrange
rearranged = after fill_dims-KeepsBytes (
    after order_dims-KeepsBytes (
      after clear_dims-KeepsBytes (
        after merge_dims-KeepsBytes
          (after absorb_dims-KeepsBytes (after absorb_dims-KeepsBytes absorb_dims-KeepsBytes)))))

positive : (n : ℕ) {m : ℕ} → (n == 0) ≡ false → n ≡ m → 0 < m
positive n e h = ground arith

pub simplify-Copies :
    (c : CopyDef) (n : ℕ)
    → number_of_bytes_copied c ≡ ok n
    → (d : CopyDef) × (simplify c ≡ ok d) × ((src dst : ℕ) → Copies c src dst ↔ Copies d src dst)
unfolding simplify
simplify-Copies c n h =
    let (is_n, few) = number_of_bytes_copied_exact c n h in
    let run : simplify c ≡ (if n == 0 then ok nothing else ok (rearrange c)) =
      ap (λ r. r >>= λ bytes. if bytes == 0 then ok nothing else ok (rearrange c)) h in
    elim (Bool-cases (n == 0)) [
      | inl e ↦ (
        nothing,
        run ∙ if_true (ok nothing) (ok (rearrange c)) e,
        λ s t. (
          λ r. absurd (omega (arith, (==_iff n 0).0 e, is_n, Copies-volume c s t r)),
          λ r. absurd (omega (arith, r.lt_byte)),
        ),
      )
      | inr e ↦
          let k = rearranged c (positive n e is_n) few in
          (
            rearrange c,
            run ∙ if_false (ok nothing) (ok (rearrange c)) e,
            λ s t. (k.there s t, k.back s t),
          )
    ]

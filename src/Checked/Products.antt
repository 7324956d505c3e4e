-- ===== src/Checked/Products.antt =====
-- Checked products of sizes that raise no error are exact.
use kmm.Prelude.{
  ℕ, ◌*◌, ◌%◌, ◌^◌, ◌<◌, ◌≡◌, refl, sym, ap, subst, ◌∙◌, inl, inr, Bool, true, ◌&&◌, List, [], ◌∷◌,
  map, arith, Bool-cases, if_true, if_false,
}
use kmm.Prelude.Results.{ok, err, overflow, ok-injective}
use kmm.Prelude.Int.{ℤ, pos, ◌*ℤ◌}
use kmm.Integers.Signed.{pos-mul}
use kmm.Checked.{
  unsigned_int, fits, cast, is_convertible, checked_mul, product_from, checked_product,
}
use kmm.Checked.Exact.{cast_id}

-- A checked product of sizes is exact.
pub checked_mul_exact :
    (a b : ℕ) (v : ℤ)
    → checked_mul (unsigned_int 64) (pos a) (pos b) ≡ ok v
    → (v ≡ pos (a * b)) × (a * b < 2 ^ 64)
unfolding checked_mul
checked_mul_exact a b v h = elim (Bool-cases (fits (unsigned_int 64) (pos a *ℤ pos b))) [
  | inl e ↦
      let inside : a * b < 2 ^ 64 =
        ground (arith, subst (λ z. fits (unsigned_int 64) z ≡ true) (pos-mul a b) e) in
      let exact : cast (unsigned_int 64) (pos (a * b)) ≡ pos (a * b) =
        cast_id (unsigned_int 64) (pos (a * b)) (omega arith)
          (omega arith, omega (arith, inside)) in
      (
        sym (
              ok-injective
                (sym (if_true (ok (cast (unsigned_int 64) (pos a *ℤ pos b))) (err overflow) e) ∙ h))
            ∙ ap (cast (unsigned_int 64)) (pos-mul a b)
            ∙ exact,
        inside,
      )
  | inr e ↦
      absurd (cc (h, if_false (ok (cast (unsigned_int 64) (pos a *ℤ pos b))) (err overflow) e))
]

abbrev pub product_of : List ℕ → ℕ → ℕ
product_of [] n = n
product_of (c ∷ cs) n = product_of cs (c * n)

product_from_exact :
    (cs : List ℕ) (is_valid : Bool) (n : ℕ)
    → n < 2 ^ 64
    → (product_from (unsigned_int 64) (unsigned_int 64) (map pos cs) is_valid (pos n)).0 ≡ true
    → (is_valid ≡ true)
      × ((product_from (unsigned_int 64) (unsigned_int 64) (map pos cs) is_valid (pos n)).1
          ≡ pos (product_of cs n))
      × (product_of cs n < 2 ^ 64)
unfolding product_from is_convertible cast
product_from_exact [] is_valid n h e = (e, refl, h)
product_from_exact (c ∷ cs) is_valid n h e =
    let size = unsigned_int 64 in
    let Rest : ℤ → Bool × ℤ = λ z.
      product_from size size (map pos cs)
        (is_valid && is_convertible size size (pos c) && fits size z) (cast size z) in
    let p = c % 2 ^ 64 * n in
    let multiplied : pos (c % 2 ^ 64) *ℤ pos n ≡ pos p = pos-mul (c % 2 ^ 64) n in
    let (flags, value, few) =
      product_from_exact cs (is_valid && is_convertible size size (pos c) && fits size (pos p))
        (p % 2 ^ 64) (omega arith) (subst (λ z. (Rest z).0 ≡ true) multiplied e) in
    let small : c % 2 ^ 64 ≡ c = ground (arith, flags) in
    let below : p < 2 ^ 64 = ground (arith, flags) in
    let exact : p % 2 ^ 64 ≡ c * n = omega (arith, ap (λ k. k * n) small, below) in
    (
      ground (arith, flags),
      subst (λ z. (Rest z).1 ≡ pos (product_of cs (c * n))) (sym multiplied)
          (value ∙ ap (λ k. pos (product_of cs k)) exact),
      subst (λ k. product_of cs k < 2 ^ 64) exact few,
    )

pub checked_product_exact :
    (cs : List ℕ) (v : ℤ)
    → checked_product (unsigned_int 64) (unsigned_int 64) (map pos cs) (pos 1) ≡ ok v
    → (v ≡ pos (product_of cs 1)) × (product_of cs 1 < 2 ^ 64)
unfolding checked_product
checked_product_exact cs v h =
    let r = product_from (unsigned_int 64) (unsigned_int 64) (map pos cs) true (pos 1) in
    elim (Bool-cases r.0) [
      | inl e ↦
          let (_, value, few) = product_from_exact cs true 1 (omega arith) e in
          (sym (ok-injective (sym (if_true (ok r.1) (err overflow) e) ∙ h)) ∙ value, few)
      | inr e ↦ absurd (cc (h, if_false (ok r.1) (err overflow) e))
    ]

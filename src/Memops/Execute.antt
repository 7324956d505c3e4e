-- ===== src/Memops/Execute.antt =====
-- The loops of a copy on the host copy exactly the bytes that its definition reaches, also after
-- the definition has been simplified.
use mathlib.Core.List.{Memᴰ}
use mathlib.Core.List.Memᴰ
use kmm.Prelude.{
  ℕ, zero, suc, ◌+◌, ◌*◌, ◌<◌, ◌≡◌, ap, ◌∙◌, ◌↔◌, ◌⊎◌, inl, inr, List, [], ◌∷◌, arith, subst,
}
use kmm.Prelude.Results.{ok, ◌>>=◌}
use kmm.Memops.{CopyDef, wrap, number_of_bytes_copied, for_each, execute_copy_impl, execute_copy}
use kmm.Memops.Pairs.{Copies}
use kmm.Memops.Simplify.{simplify-Copies}

module _ {A : Type 0} {x : A} where
  for_each-of_Memᴰ :
      (n : ℕ) (body : ℕ → List A) → Memᴰ x (for_each n body) → (i : ℕ) × (i < n) × Memᴰ x (body i)
  for_each-of_Memᴰ zero body m = absurd (Memᴰ.not-nil m)
  for_each-of_Memᴰ (suc n) body m = elim (Memᴰ.append_cases (for_each n body) m) [
    | inl h ↦ let (i, lt, at) = for_each-of_Memᴰ n body h in (i, omega (arith, lt), at)
    | inr h ↦ (n, omega arith, h)
  ]

  Memᴰ-for_each :
      (n : ℕ) (body : ℕ → List A) (i : ℕ) → i < n → Memᴰ x (body i) → Memᴰ x (for_each n body)
  Memᴰ-for_each zero body i lt m = absurd (omega (arith, lt))
  Memᴰ-for_each (suc n) body i lt m = elim (last_or_before i n lt) [
    | inl e ↦ Memᴰ.append_right (for_each n body) (subst (λ k. Memᴰ x (body k)) e m)
    | inr h ↦ Memᴰ.append_left (body n) (Memᴰ-for_each n body i h m)
  ]
    where
      last_or_before : (i n : ℕ) → i < suc n → (i ≡ n) ⊎ (i < n)
      last_or_before i n h = grind arith

pub execute_copy_impl_iff :
    (c : CopyDef) (src dst : ℕ) → Memᴰ (src, dst) (execute_copy_impl c) ↔ Copies c src dst
unfolding execute_copy_impl
execute_copy_impl_iff c src dst = (reached, copied)
  where
    place_of : ℕ → ℕ → ℕ → ℕ → ℕ × ℕ
    place_of i2 i1 i0 byte = (
      wrap (
          c.src_offset
          + i0 * c.dim0.src_stride
          + i1 * c.dim1.src_stride
          + i2 * c.dim2.src_stride
          + byte),
      wrap (
          c.dst_offset
          + i0 * c.dim0.dst_stride
          + i1 * c.dim1.dst_stride
          + i2 * c.dim2.dst_stride
          + byte),
    )

    in_bytes : ℕ → ℕ → ℕ → List (ℕ × ℕ)
    in_bytes i2 i1 i0 = for_each c.element_size λ byte. place_of i2 i1 i0 byte ∷ []

    in_dim0 : ℕ → ℕ → List (ℕ × ℕ)
    in_dim0 i2 i1 = for_each c.dim0.count (in_bytes i2 i1)

    in_dim1 : ℕ → List (ℕ × ℕ)
    in_dim1 i2 = for_each c.dim1.count (in_dim0 i2)

    reached : Memᴰ (src, dst) (for_each c.dim2.count in_dim1) → Copies c src dst
    reached m =
        let (i2, lt2, m2) = for_each-of_Memᴰ c.dim2.count in_dim1 m in
        let (i1, lt1, m1) = for_each-of_Memᴰ c.dim1.count (in_dim0 i2) m2 in
        let (i0, lt0, m0) = for_each-of_Memᴰ c.dim0.count (in_bytes i2 i1) m1 in
        let (byte, lt, mb) =
          for_each-of_Memᴰ c.element_size (λ byte. place_of i2 i1 i0 byte ∷ []) m0 in
        let e : (src, dst) ≡ place_of i2 i1 i0 byte = Memᴰ.eq_of_singleton mb in
        record {
          i0 = i0;
          i1 = i1;
          i2 = i2;
          byte = byte;
          lt0 = lt0;
          lt1 = lt1;
          lt2 = lt2;
          lt_byte = lt;
          is_src = ap (λ p. p.0) e;
          is_dst = ap (λ p. p.1) e;
        }

    copied : Copies c src dst → Memᴰ (src, dst) (for_each c.dim2.count in_dim1)
    copied r =
        let p = place_of r.i2 r.i1 r.i0 r.byte in
        let e : (src, dst) ≡ p = ap (λ z. (z, dst)) r.is_src ∙ ap (λ (z : ℕ). (p.0, z)) r.is_dst in
        Memᴰ-for_each c.dim2.count in_dim1 r.i2 r.lt2 (
          Memᴰ-for_each c.dim1.count (in_dim0 r.i2) r.i1 r.lt1 (
            Memᴰ-for_each c.dim0.count (in_bytes r.i2 r.i1) r.i0 r.lt0 (
              Memᴰ-for_each c.element_size (λ byte. place_of r.i2 r.i1 r.i0 byte ∷ []) r.byte
                r.lt_byte (Memᴰ.head e))))

-- A copy whose number of bytes is no overflow is carried out, and the bytes it moves, with the
-- place of each in the source and in the destination, are those that the loops over the definition
-- as it was built would move.
pub execute_copy_lem :
    (c : CopyDef) (n : ℕ)
    → number_of_bytes_copied c ≡ ok n
    → (moved : List (ℕ × ℕ)) × (execute_copy c ≡ ok moved)
      × ((src dst : ℕ) → Memᴰ (src, dst) moved ↔ Memᴰ (src, dst) (execute_copy_impl c))
unfolding execute_copy
execute_copy_lem c n h =
    let (d, simplified, same) = simplify-Copies c n h in
    (
      execute_copy_impl d,
      ap (λ r. r >>= λ d'. ok (execute_copy_impl d')) simplified,
      λ s t. (
        λ m. (execute_copy_impl_iff c s t).1 ((same s t).1 ((execute_copy_impl_iff d s t).0 m)),
        λ m. (execute_copy_impl_iff d s t).1 ((same s t).0 ((execute_copy_impl_iff c s t).0 m)),
      ),
    )

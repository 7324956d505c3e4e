-- ===== src/Memops/AddDimension.antt =====
-- What add_dimension adds to a copy, whichever dimension takes it up.
use kmm.Prelude.{
  ℕ, ◌*◌, ◌^◌, ◌<◌, ◌≡◌, refl, sym, ap, ◌∙◌, subst, ◌↔◌, ◌⊎◌, inl, inr, Bool, true, false, ◌&&◌,
  Option, none, some, arith, Bool-cases, if_true, if_false, if◌then◌else◌, ◌==◌,
}
use mathlib.Core.Option.{some-injective}
use kmm.Prelude.Results.{ok, err, length_error, ok-injective}
use kmm.Memops.{Dimension, CopyDef, with_strides, wrap, continues, take_up, add_dimension}
use kmm.Memops.Pairs.{Reaches, Copies, swap01, swap12}
use kmm.Memops.Extend.{Repeated, moved_offset, element-Repeated, fresh-Repeated, continued-Repeated}

Repeated-map :
    {count so to ss ds : ℕ} {P Q : ℕ → ℕ → Type 0} {src dst : ℕ}
    → ((s t : ℕ) → P s t → Q s t)
    → Repeated count so to ss ds P src dst
    → Repeated count so to ss ds Q src dst
Repeated-map f r = record {
  step = r.step;
  first_src = r.first_src;
  first_dst = r.first_dst;
  step_lt = r.step_lt;
  moves = f r.first_src r.first_dst r.moves;
  is_src = r.is_src;
  is_dst = r.is_dst;
}

module _ (e f t count so to ss ds : ℕ) where
  -- A dimension that took up the new one.
  abbrev TookUp : Dimension → Dimension → Type 0
  TookUp a d =
      (b c : Dimension) (src dst : ℕ)
      → Reaches e (moved_offset f so ss) (moved_offset t to ds) d b c src dst
        ↔ Repeated count so to ss ds (Reaches e f t a b c) src dst

  take_up_lem :
      (a d : Dimension) → a.count * count < 2 ^ 64 → take_up count ss ds a ≡ some d → TookUp a d
  unfolding take_up
  take_up_lem a d few h = elim (Bool-cases (continues a ss ds)) [
    | inl e1 ↦
        let exact : wrap (a.count * count) ≡ a.count * count = omega (arith, few) in
        let is_d : record a { count = a.count * count } ≡ d =
          ap (λ n. record a { count = n }) (sym exact)
          ∙ some-injective _ _
              (sym (if_true (some (record a { count = wrap (a.count * count) })) _ e1) ∙ h) in
        subst (TookUp a) is_d (λ b c s u.
          continued-Repeated count so to ss ds a.count a.src_stride a.dst_stride
            (ground (arith, e1)) (ground (arith, e1)))
    | inr e1 ↦ elim (Bool-cases (a.count == 1)) [
      | inl e2 ↦
          let is_d : with_strides count ss ds ≡ d =
            some-injective _ _ (sym (if_false _ _ e1 ∙ if_true _ none e2) ∙ h) in
          subst (TookUp a) is_d (λ b c s u. fresh-Repeated count so to ss ds (ground (arith, e2)))
      | inr e2 ↦ absurd (
          cc (
            h,
            if_false (some (record a { count = wrap (a.count * count) }))
                (if a.count == 1 then some (with_strides count ss ds) else none) e1,
            if_false (some (with_strides count ss ds)) none e2,
          ))
    ]
  ]

-- The results of add_dimension that are no error.
added_cases :
    (test : Bool) (o0 o1 o2 : Option Dimension) (joined : CopyDef)
    (at0 at1 at2 : Dimension → CopyDef) (d : CopyDef)
    → (if test then ok joined else elim o0 [
      | some a ↦ ok (at0 a)
      | none ↦ elim o1 [
        | some a ↦ ok (at1 a)
        | none ↦ elim o2 [ some a ↦ ok (at2 a) | none ↦ err length_error ]
      ]
    ])
      ≡ ok d
    → (test ≡ true) × (joined ≡ d)
      ⊎ (((a : Dimension) × (o0 ≡ some a) × (at0 a ≡ d))
          ⊎ (((a : Dimension) × (o1 ≡ some a) × (at1 a ≡ d))
              ⊎ ((a : Dimension) × (o2 ≡ some a) × (at2 a ≡ d))))
added_cases true o0 o1 o2 joined at0 at1 at2 d h = inl (refl, ok-injective h)
added_cases false (some a) o1 o2 joined at0 at1 at2 d h = inr (inl (a, refl, ok-injective h))
added_cases false none (some a) o2 joined at0 at1 at2 d h =
    inr (inr (inl (a, refl, ok-injective h)))
added_cases false none none (some a) joined at0 at1 at2 d h =
    inr (inr (inr (a, refl, ok-injective h)))
added_cases false none none none joined at0 at1 at2 d h = absurd (cc h)

equal : (x y z : ℕ) → (x == y && z == y) ≡ true → (x ≡ y) × (z ≡ y)
equal x y z h = (ground (arith, h), ground (arith, h))

-- The new dimension may be repeated `count` times in whatever takes it up.
pub record Fits (count : ℕ) (c : CopyDef) : Type 0 where
  pub element : c.element_size * count < 2 ^ 64
  pub first : c.dim0.count * count < 2 ^ 64
  pub second : c.dim1.count * count < 2 ^ 64
  pub third : c.dim2.count * count < 2 ^ 64

-- Where the counts have room, a dimension added to a copy repeats the copy: the new one moves a byte
-- exactly when the old one moves a byte that lies some number of strides before it, from the offsets
-- on and for less than `count` steps.
pub add_dimension-Repeated :
    (count so to ss ds : ℕ) (c d : CopyDef)
    → Fits count c
    → add_dimension count so to ss ds c ≡ ok d
    → (src dst : ℕ) → Copies d src dst ↔ Repeated count so to ss ds (Copies c) src dst
unfolding add_dimension
add_dimension-Repeated count so to ss ds c d room h =
    let e = c.element_size in
    let f = c.src_offset in
    let t = c.dst_offset in
    let c1 : CopyDef = record c {
      src_offset = moved_offset f so ss;
      dst_offset = moved_offset t to ds;
    } in
    let Goal : CopyDef → Type 0 =
      λ x. (src dst : ℕ) → Copies x src dst ↔ Repeated count so to ss ds (Copies c) src dst in
    elim (added_cases (ss == e && ds == e) (take_up count ss ds c.dim0) (take_up count ss ds c.dim1)
      (take_up count ss ds c.dim2) (record c1 { element_size = wrap (e * count) })
      (λ a. record c1 { dim0 = a }) (λ a. record c1 { dim1 = a }) (λ a. record c1 { dim2 = a }) d
      h) [
        | inl (test, is_d) ↦
            let exact : wrap (e * count) ≡ e * count = omega (arith, room.element) in
            let P : ℕ → ℕ → ℕ → Type 0 = λ x y z.
              (src dst : ℕ)
              → Reaches x (moved_offset f so y) (moved_offset t to z) c.dim0 c.dim1 c.dim2 src dst
                ↔ Repeated count so to y z (Copies c) src dst in
            let same : P (e * count) e e = λ s u. element-Repeated count so to in
            let same : P (e * count) ss e =
              subst (λ y. P (e * count) y e) (sym (equal ss e ds test).0) same in
            let same : P (e * count) ss ds =
              subst (λ z. P (e * count) ss z) (sym (equal ss e ds test).1) same in
            subst Goal is_d (subst (λ x. P x ss ds) (sym exact) same)
        | inr (inl (a, took, is_d)) ↦
            subst Goal is_d (λ s u.
              take_up_lem e f t count so to ss ds c.dim0 a room.first took c.dim1 c.dim2 s u)
        | inr (inr (inl (a, took, is_d))) ↦
            let it = take_up_lem e f t count so to ss ds c.dim1 a room.second took c.dim0 c.dim2 in
            subst Goal is_d (λ s u. (
              λ r. Repeated-map (λ _ _. swap01) ((it s u).0 (swap01 r)),
              λ r. swap01 ((it s u).1 (Repeated-map (λ _ _. swap01) r)),
            ))
        | inr (inr (inr (a, took, is_d))) ↦
            let it = take_up_lem e f t count so to ss ds c.dim2 a room.third took c.dim0 c.dim1 in
            subst Goal is_d (λ s u. (
              λ r. Repeated-map (λ _ _ q. swap12 (swap01 q)) ((it s u).0 (swap01 (swap12 r))),
              λ r. swap12 (swap01 ((it s u).1 (Repeated-map (λ _ _ q. swap01 (swap12 q)) r))),
            ))
      ]

-- ===== src/Memops/Steps.antt =====
-- The steps of `simplify` that rearrange a copy of some bytes, none of which changes the bytes.
use kmm.Prelude.{
  ℕ, zero, suc, ◌*◌, ◌^◌, ◌<◌, ◌≤◌, ◌≡◌, refl, sym, ap, ◌∙◌, subst, inl, inr, Bool, true, false,
  arith, Bool-cases, if_true, if_false, if◌then◌else◌, ◌==◌, ◌&&◌,
}
use kmm.Memops.{
  Dimension, CopyDef, with_strides, wrap, merged, continues, absorb, absorb_dims, merge, merge01,
  merge02, merge10, merge12, merge20, merge21, merge_dims, clear_strides, clear_dims, is_after,
  order01, order02, order12, order_dims, fill_strides, fill_dims,
}
use kmm.Memops.Pairs.{Reaches, Copies, swap01, swap12, restride}
use kmm.Memops.Merge.{absorb_iff, merge_iff}

abbrev pub volume : CopyDef → ℕ
volume c = c.element_size * c.dim0.count * (c.dim1.count * c.dim2.count)

-- The same bytes go to the same places.
pub record Keeps (c d : CopyDef) : Type 0 where
  pub there : (src dst : ℕ) → Copies c src dst → Copies d src dst
  pub back : (src dst : ℕ) → Copies d src dst → Copies c src dst
  pub same_volume : volume d ≡ volume c

-- A step on copies of at least one byte whose number of bytes is a size_t.
abbrev pub KeepsBytes : (CopyDef → CopyDef) → Type 0
KeepsBytes step = (c : CopyDef) → 0 < volume c → volume c < 2 ^ 64 → Keeps c (step c)

Keeps-trans : {c d e : CopyDef} → Keeps c d → Keeps d e → Keeps c e
Keeps-trans h k = record {
  there = λ s t r. k.there s t (h.there s t r);
  back = λ s t r. h.back s t (k.back s t r);
  same_volume = k.same_volume ∙ h.same_volume;
}

pub Keeps-refl : (c : CopyDef) → Keeps c c
Keeps-refl c = record { there = λ s t r. r; back = λ s t r. r; same_volume = refl }

pub after : {f g : CopyDef → CopyDef} → KeepsBytes g → KeepsBytes f → KeepsBytes (λ c. g (f c))
after {f} kg kf c some few =
    let h = kf c some few in
    Keeps-trans h
      (kg (f c) (omega (arith, some, h.same_volume)) (omega (arith, few, h.same_volume)))

abbrev exchange01 : CopyDef → CopyDef
exchange01 c = record c { dim0 = c.dim1; dim1 = c.dim0 }

abbrev exchange12 : CopyDef → CopyDef
exchange12 c = record c { dim1 = c.dim2; dim2 = c.dim1 }

exchange01-KeepsBytes : KeepsBytes exchange01
exchange01-KeepsBytes c some few = record {
  there = λ s t. swap01;
  back = λ s t. swap01;
  same_volume = omega arith;
}

exchange12-KeepsBytes : KeepsBytes exchange12
exchange12-KeepsBytes c some few = record {
  there = λ s t. swap12;
  back = λ s t. swap12;
  same_volume = omega arith;
}

-- A step on other dimensions.
module _ {f : CopyDef → CopyDef} (k : KeepsBytes f) where
  on_01 : KeepsBytes (λ c. exchange01 (f (exchange01 c)))
  on_01 = after exchange01-KeepsBytes (after k exchange01-KeepsBytes)

  on_12 : KeepsBytes (λ c. exchange12 (f (exchange12 c)))
  on_12 = after exchange12-KeepsBytes (after k exchange12-KeepsBytes)

le_of_product : (x p : ℕ) → 0 < x * p → x ≤ x * p
le_of_product x zero h = absurd (omega (arith, h))
le_of_product x (suc p) h = omega arith

-- Neither branch of a test changes the bytes.
either :
    (b : Bool) {c d d' : CopyDef}
    → (b ≡ true → Keeps c d)
    → (b ≡ false → Keeps c d')
    → Keeps c (if b then d else d')
either true h h' = h refl
either false h h' = h' refl

order01-KeepsBytes : KeepsBytes order01
unfolding order01
order01-KeepsBytes c some few =
    either (is_after c.dim0 c.dim1) (λ _. exchange01-KeepsBytes c some few) (λ _. Keeps-refl c)

order12-KeepsBytes : KeepsBytes order12
unfolding order12
order12-KeepsBytes c some few =
    either (is_after c.dim1 c.dim2) (λ _. exchange12-KeepsBytes c some few) (λ _. Keeps-refl c)

order02-KeepsBytes : KeepsBytes order02
unfolding order02
order02-KeepsBytes c some few =
    either (is_after c.dim0 c.dim2) (λ _. on_01 exchange12-KeepsBytes c some few)
      (λ _. Keeps-refl c)

pub order_dims-KeepsBytes : KeepsBytes order_dims
unfolding order_dims
order_dims-KeepsBytes = after order12-KeepsBytes (after order02-KeepsBytes order01-KeepsBytes)

-- The first dimension with other strides, when it has one element.
restride0-Keeps :
    (x y : ℕ) (c : CopyDef)
    → c.dim0.count ≡ 1
    → Keeps c (record c { dim0 = with_strides c.dim0.count x y })
restride0-Keeps x y c one = record {
  there = λ s t. restride x y one;
  back = λ s t. restride c.dim0.src_stride c.dim0.dst_stride one;
  same_volume = refl;
}

fill0-KeepsBytes :
    (x y : CopyDef → ℕ) → KeepsBytes (λ c. record c { dim0 = fill_strides (x c) (y c) c.dim0 })
unfolding fill_strides
fill0-KeepsBytes x y c some few = elim (Bool-cases (c.dim0.count == 1)) [
  | inl e ↦
      subst (Keeps c)
        (ap (λ d. record c { dim0 = d })
          (sym (if_true (with_strides c.dim0.count (x c) (y c)) c.dim0 e)))
        (restride0-Keeps (x c) (y c) c (ground (arith, e)))
  | inr e ↦
      subst (Keeps c)
        (ap (λ d. record c { dim0 = d })
          (sym (if_false (with_strides c.dim0.count (x c) (y c)) c.dim0 e)))
        (Keeps-refl c)
]

pub fill_dims-KeepsBytes : KeepsBytes fill_dims
unfolding fill_dims
fill_dims-KeepsBytes =
    after (on_12 (on_01 (fill0-KeepsBytes (λ c. c.dim2.src_stride) (λ c. c.dim2.dst_stride)))) (
      after (on_01 (fill0-KeepsBytes (λ c. c.dim1.src_stride) (λ c. c.dim1.dst_stride)))
        (fill0-KeepsBytes (λ c. c.element_size) (λ c. c.element_size)))

clear0-KeepsBytes : KeepsBytes (λ c. record c { dim0 = clear_strides c.dim0 })
unfolding clear_strides fill_strides
clear0-KeepsBytes = fill0-KeepsBytes (λ c. 0) (λ c. 0)

pub clear_dims-KeepsBytes : KeepsBytes clear_dims
unfolding clear_dims
clear_dims-KeepsBytes =
    after (on_12 (on_01 clear0-KeepsBytes)) (after (on_01 clear0-KeepsBytes) clear0-KeepsBytes)

abbrev absorb0 : CopyDef → CopyDef
absorb0 c = let r = absorb c.element_size c.dim0 in record c { element_size = r.0; dim0 = r.1 }

absorbed-Keeps :
    (c : CopyDef)
    → 0 < volume c
    → volume c < 2 ^ 64
    → c.dim0.src_stride ≡ c.element_size
    → c.dim0.dst_stride ≡ c.element_size
    → Keeps c (record c { element_size = wrap (c.element_size * c.dim0.count); dim0 = merged })
absorbed-Keeps c some few hs hd =
    let size = c.element_size * c.dim0.count in
    let small : size ≤ volume c = le_of_product size (c.dim1.count * c.dim2.count) some in
    let exact : wrap size ≡ size = omega (arith, small, few) in
    let same : with_strides c.dim0.count c.element_size c.element_size ≡ c.dim0 =
      ap (λ z. with_strides c.dim0.count z c.element_size) (sym hs)
      ∙ ap (λ z. with_strides c.dim0.count c.dim0.src_stride z) (sym hd) in
    subst (Keeps c) (ap (λ z. record c { element_size = z; dim0 = merged }) (sym exact)) (record {
      there = λ s t r. (absorb_iff c.element_size c.dim0.count 1 1).0 (
          subst (λ d. Reaches c.element_size c.src_offset c.dst_offset d c.dim1 c.dim2 s t)
            (sym same) r);
      back = λ s t r.
          subst (λ d. Reaches c.element_size c.src_offset c.dst_offset d c.dim1 c.dim2 s t) same
            ((absorb_iff c.element_size c.dim0.count 1 1).1 r);
      same_volume = omega arith;
    })

absorb0-KeepsBytes : KeepsBytes absorb0
unfolding absorb
absorb0-KeepsBytes c some few =
    let test = c.dim0.src_stride == c.element_size && c.dim0.dst_stride == c.element_size in
    let size = wrap (c.element_size * c.dim0.count) in
    let joined : CopyDef = record c { element_size = size; dim0 = merged } in
    elim (Bool-cases test) [
      | inl e ↦
          subst (Keeps c)
            (ap (λ (r : ℕ × Dimension). record c { element_size = r.0; dim0 = r.1 })
              (sym (if_true (size, merged) (c.element_size, c.dim0) e)))
            (absorbed-Keeps c some few (ground (arith, e)) (ground (arith, e)))
      | inr e ↦
          subst (Keeps c)
            (ap (λ (r : ℕ × Dimension). record c { element_size = r.0; dim0 = r.1 })
              (sym (if_false (size, merged) (c.element_size, c.dim0) e)))
            (Keeps-refl c)
    ]

pub absorb_dims-KeepsBytes : KeepsBytes absorb_dims
unfolding absorb_dims
absorb_dims-KeepsBytes =
    after (on_12 (on_01 absorb0-KeepsBytes)) (after (on_01 absorb0-KeepsBytes) absorb0-KeepsBytes)

joined-Keeps :
    (c : CopyDef)
    → 0 < volume c
    → volume c < 2 ^ 64
    → c.dim1.src_stride ≡ wrap (c.dim0.count * c.dim0.src_stride)
    → c.dim1.dst_stride ≡ wrap (c.dim0.count * c.dim0.dst_stride)
    → Keeps c (record c {
      dim0 = record (c.dim0) { count = wrap (c.dim0.count * c.dim1.count) };
      dim1 = merged;
    })
joined-Keeps c some few hs hd =
    let n = c.dim0.count in
    let m = c.dim1.count in
    let x = c.dim0.src_stride in
    let y = c.dim0.dst_stride in
    let small : n * m ≤ n * m * (c.element_size * c.dim2.count) =
      le_of_product (n * m) (c.element_size * c.dim2.count) (omega (arith, some)) in
    let exact : wrap (n * m) ≡ n * m = omega (arith, small, few) in
    let same : with_strides m (wrap (n * x)) (wrap (n * y)) ≡ c.dim1 =
      ap (λ z. with_strides m z (wrap (n * y))) (sym hs)
      ∙ ap (λ z. with_strides m c.dim1.src_stride z) (sym hd) in
    subst (Keeps c)
      (ap (λ z. record c { dim0 = record (c.dim0) { count = z }; dim1 = merged }) (sym exact))
      (record {
        there = λ s t r. (merge_iff c.element_size n m x y 1 1).0 (
            subst (λ d. Reaches c.element_size c.src_offset c.dst_offset c.dim0 d c.dim2 s t)
              (sym same) r);
        back = λ s t r.
            subst (λ d. Reaches c.element_size c.src_offset c.dst_offset c.dim0 d c.dim2 s t) same
              ((merge_iff c.element_size n m x y 1 1).1 r);
        same_volume = omega arith;
      })

merge01-KeepsBytes : KeepsBytes merge01
unfolding merge01 merge
merge01-KeepsBytes c some few =
    let test = continues c.dim0 c.dim1.src_stride c.dim1.dst_stride in
    let joined : Dimension = record (c.dim0) { count = wrap (c.dim0.count * c.dim1.count) } in
    elim (Bool-cases test) [
      | inl e ↦
          subst (Keeps c)
            (ap (λ (r : Dimension × Dimension). record c { dim0 = r.0; dim1 = r.1 })
              (sym (if_true (joined, merged) (c.dim0, c.dim1) e)))
            (joined-Keeps c some few (ground (arith, e)) (ground (arith, e)))
      | inr e ↦
          subst (Keeps c)
            (ap (λ (r : Dimension × Dimension). record c { dim0 = r.0; dim1 = r.1 })
              (sym (if_false (joined, merged) (c.dim0, c.dim1) e)))
            (Keeps-refl c)
    ]

merge02-KeepsBytes : KeepsBytes merge02
unfolding merge01 merge02
merge02-KeepsBytes = on_12 merge01-KeepsBytes

merge10-KeepsBytes : KeepsBytes merge10
unfolding merge01 merge10
merge10-KeepsBytes = on_01 merge01-KeepsBytes

merge12-KeepsBytes : KeepsBytes merge12
unfolding merge01 merge12
merge12-KeepsBytes = on_01 (on_12 merge01-KeepsBytes)

merge20-KeepsBytes : KeepsBytes merge20
unfolding merge10 merge20
merge20-KeepsBytes = on_12 merge10-KeepsBytes

merge21-KeepsBytes : KeepsBytes merge21
unfolding merge20 merge21
merge21-KeepsBytes = on_01 merge20-KeepsBytes

pub merge_dims-KeepsBytes : KeepsBytes merge_dims
unfolding merge_dims
merge_dims-KeepsBytes = after merge21-KeepsBytes (
    after merge20-KeepsBytes (
      after merge12-KeepsBytes
        (after merge10-KeepsBytes (after merge02-KeepsBytes merge01-KeepsBytes))))

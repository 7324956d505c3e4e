-- ===== src/Checked/Exact.antt =====
-- The checked comparisons and conversions against the mathematical integers.
use native.Mathlib.Nat.{pow-suc, mod-eq_of_lt, mod-lt}
use kmm.Prelude.{
  ℕ, zero, suc, ◌+◌, ◌-◌, ◌*◌, ◌/◌, ◌^◌, ◌<◌, ◌≡◌, refl, inl, inr, true, not, ◌&&◌, arith, subst,
  Bool-cases, leb, if◌then◌else◌,
}
use kmm.Prelude.Results.{ok, err, overflow}
use kmm.Prelude.Int.{ℤ, pos, negsuc, ◌≤ℤ◌, ltb_ℤ, leb_ℤ, eqb_ℤ, eq_of_parts}
use kmm.Checked.{
  IntType, signed_int, unsigned_int, max_inclusive, min_inclusive, cast, unsigned_cast, is_less,
  is_equal, is_convertible, checked_cast, fits, in_range,
}

abbrev pub InRange : IntType → ℤ → Type 0
InRange t v = (min_inclusive t ≤ℤ v) × (v ≤ℤ max_inclusive t)

abbrev pub width : IntType → ℕ
width (signed_int w) = w
width (unsigned_int w) = w

pow_positive : (w : ℕ) → 0 < 2 ^ w
pow_positive zero = omega arith
pow_positive (suc w) = omega (arith, pow_positive w, pow-suc 2 w)

pow_even : (w : ℕ) → 0 < w → 2 ^ w ≡ 2 * ((2 ^ w - 1) / 2 + 1)
pow_even zero h = omega arith
pow_even (suc w) h = omega (arith, pow_positive w, pow-suc 2 w)

unsigned_cast_bound : (w : ℕ) (v : ℤ) → unsigned_cast w v < 2 ^ w
unsigned_cast_bound w (pos n) = omega (arith, mod-lt n (pow_positive w))
unsigned_cast_bound w (negsuc n) = omega (arith, pow_positive w)

unsigned_cast_small : (w n : ℕ) → n < 2 ^ w → unsigned_cast w (pos n) ≡ n
unsigned_cast_small w n h = mod-eq_of_lt h

-- The comparisons are those of the mathematical integers.
pub is_less-exact :
    (l r : IntType) (a b : ℤ)
    → InRange l a
    → InRange r b
    → (is_less l r a b ≡ ltb_ℤ a b) × (is_equal l r a b ≡ eqb_ℤ a b)
unfolding is_less is_equal cast
is_less-exact (signed_int l) (signed_int r) a b ha hb = (refl, refl)
is_less-exact (unsigned_int l) (unsigned_int r) a b ha hb = (refl, refl)
is_less-exact (unsigned_int l) (signed_int r) a (pos n) ha hb =
    rw (unsigned_cast_small r n (omega (arith, pow_positive r, hb.1))) (ground arith, ground arith)
is_less-exact (unsigned_int l) (signed_int r) a (negsuc n) ha hb =
    (ground (arith, ha.0), ground (arith, ha.0))
is_less-exact (signed_int l) (unsigned_int r) (pos n) b ha hb =
    rw (unsigned_cast_small l n (omega (arith, pow_positive l, ha.1))) (ground arith, ground arith)
is_less-exact (signed_int l) (unsigned_int r) (negsuc n) b ha hb =
    (ground (arith, hb.0), ground (arith, hb.0))

-- A cast to a type that holds the value gives the value, and a cast gives a value of the type.
pub cast_id : (t : IntType) (v : ℤ) → 0 < width t → InRange t v → cast t v ≡ v
unfolding cast
cast_id (unsigned_int w) (pos n) h hv =
    rw (unsigned_cast_small w n (omega (arith, pow_positive w, hv.1))) refl
cast_id (unsigned_int w) (negsuc n) h hv = ground (arith, hv.0)
cast_id (signed_int w) (pos n) h hv =
    rw (unsigned_cast_small w n (omega (arith, pow_positive w, hv.1))) (ground (arith, hv.1))
cast_id (signed_int w) (negsuc n) h hv =
    let small : n < 2 ^ w = omega (arith, pow_positive w, hv.0) in
    rw (mod-eq_of_lt small) (ground (arith, hv.0, pow_even w h))

cast-InRange : (t : IntType) (v : ℤ) → 0 < width t → InRange t (cast t v)
unfolding cast
cast-InRange (unsigned_int w) v h =
    (omega arith, omega (arith, unsigned_cast_bound w v, pow_positive w))
cast-InRange (signed_int w) v h = elim (Bool-cases (leb (unsigned_cast w v) ((2 ^ w - 1) / 2))) [
  | inl e ↦ rw e (omega arith, ground (arith, e))
  | inr e ↦ rw e (ground (arith, e, unsigned_cast_bound w v, pow_even w h), omega arith)
]

max_inclusive-InRange : (t : IntType) → InRange t (max_inclusive t)
max_inclusive-InRange (signed_int w) = (omega arith, omega arith)
max_inclusive-InRange (unsigned_int w) = (omega arith, omega arith)

fits→InRange : (t : IntType) (v : ℤ) → fits t v ≡ true → InRange t v
fits→InRange t v e = (ground (arith, e), ground (arith, e))

InRange→fits : (t : IntType) (v : ℤ) → InRange t v → fits t v ≡ true
InRange→fits t v h = ground (arith, h.0, h.1)

-- A value survives the cast exactly when the type holds it.
survives : (t : IntType) (v : ℤ) → 0 < width t → eqb_ℤ (cast t v) v ≡ fits t v
survives t v h = elim (Bool-cases (fits t v)) [
  | inl e ↦ rw (cast_id t v h (fits→InRange t v e), e) (ground arith)
  | inr e ↦ elim (Bool-cases (eqb_ℤ (cast t v) v)) [
    | inr d ↦ rw (e, d) refl
    | inl d ↦
        let same : cast t v ≡ v = eq_of_parts (cast t v) v (ground (arith, d)) in
        let inside : fits t v ≡ true =
          InRange→fits t v (subst (InRange t) same (cast-InRange t v h)) in
        absurd (cc (e, inside))
  ]
]

is_convertible_lem :
    (i o : IntType) (v : ℤ) → 0 < width o → InRange i v → is_convertible i o v ≡ fits o v
unfolding is_convertible
is_convertible_lem (signed_int i) (signed_int o) v h hv = survives (signed_int o) v h
is_convertible_lem (unsigned_int i) (unsigned_int o) v h hv = survives (unsigned_int o) v h
is_convertible_lem (unsigned_int i) (signed_int o) v h hv =
    let o' = signed_int o in
    let e =
      (is_less-exact o' (unsigned_int i) (max_inclusive o') v (max_inclusive-InRange o') hv).0 in
    rw e (ground (arith, hv.0))
is_convertible_lem (signed_int i) (unsigned_int o) v h hv =
    let o' = unsigned_int o in
    let e =
      (is_less-exact o' (signed_int i) (max_inclusive o') v (max_inclusive-InRange o') hv).0 in
    rw e (ground arith)

-- Of a value of its input type, a checked cast to a type of at least one bit gives the same value
-- if the output type holds it, and else the overflow exception.
pub checked_cast_lem :
    (i o : IntType) (v : ℤ)
    → 0 < width o
    → InRange i v
    → checked_cast i o v ≡ (if fits o v then ok v else err overflow)
unfolding checked_cast
checked_cast_lem i o v h hv = elim (Bool-cases (fits o v)) [
  | inl e ↦ rw (is_convertible_lem i o v h hv, e, cast_id o v h (fits→InRange o v e)) refl
  | inr e ↦ rw (is_convertible_lem i o v h hv, e) refl
]

-- The test of an index against a length is exact.
pub in_range_lem :
    (i u : IntType) (v length : ℤ)
    → 0 < width u
    → InRange i v
    → InRange u length
    → in_range i u v length ≡ (leb_ℤ (pos 0) v && ltb_ℤ v length)
unfolding in_range
in_range_lem i u v length h hv hl =
    let int : IntType = signed_int 32 in
    let e0 = (is_less-exact i int v (pos 0) hv (omega arith, omega arith)).0 in
    let e1 = (is_less-exact i u v length hv hl).0 in
    rw (e0, e1, is_convertible_lem i u v h hv) (above u hl)
  where
    above :
        (u : IntType)
        → InRange u length
        → (not (ltb_ℤ v (pos 0)) && ltb_ℤ v length && fits u v)
          ≡ (leb_ℤ (pos 0) v && ltb_ℤ v length)
    above (signed_int w) hl = ground (arith, hl.1)
    above (unsigned_int w) hl = ground (arith, hl.1)

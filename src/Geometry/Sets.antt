-- ===== src/Geometry/Sets.antt =====
-- Bounds as the sets of their points.
use kmm.Prelude.{
  ℕ, zero, suc, ◌≡◌, refl, inl, inr, Bool, true, false, not, ◌&&◌, ◌||◌, arith, Bool-cases,
  if◌then◌else◌, ◌⊎◌, ◌↔◌, ◌<◌, lt→ltb,
}
use kmm.Prelude.Int.{ℤ, pos, ◌+ℤ◌, ltb_ℤ, leb_ℤ, +ℤ_parts, -ℤ_parts, ◌-ℤ◌, ◌≤ℤ◌, ◌<ℤ◌}
use kmm.Geometry.Range
use kmm.Geometry.Bounds.{
  Point, Bounds, is_empty, intersection, overlaps, contains, shift_by, split_axis, split_tail_along,
  within, contains_bounds, begins,
}

from_both :
    (p a b : ℤ) → not (ltb_ℤ p (if leb_ℤ b a then a else b)) ≡ (not (ltb_ℤ p a) && not (ltb_ℤ p b))
from_both p a b = ground arith

to_both : (p a b : ℤ) → ltb_ℤ p (if leb_ℤ a b then a else b) ≡ (ltb_ℤ p a && ltb_ℤ p b)
to_both p a b = ground arith

contains-intersection :
    (N : ℕ) (b c : Bounds N) (p : Point N)
    → contains N (intersection N b c) p ≡ (contains N b p && contains N c p)
contains-intersection zero b c p = refl
contains-intersection (suc N) b c p =
    rw
      (
        from_both p.0 b.0.begin c.0.begin,
        to_both p.0 b.0.end c.0.end,
        contains-intersection N b.1 c.1 p.1,
      )
      (regroup (not (ltb_ℤ p.0 b.0.begin)) (not (ltb_ℤ p.0 c.0.begin)) (ltb_ℤ p.0 b.0.end)
        (ltb_ℤ p.0 c.0.end) (contains N b.1 p.1) (contains N c.1 p.1))
  where
    regroup :
        (a b c d e f : Bool)
        → (((a && b) && (c && d)) && (e && f)) ≡ (((a && c) && e) && ((b && d) && f))
    regroup a b c d e f = ground arith

meets : (N : ℕ) (b c : Bounds N) → overlaps N b c ≡ not (is_empty N (intersection N b c))
meets zero b c = refl
meets (suc N) b c =
    rw (meets N b.1 c.1)
      (axis b.0.begin b.0.end c.0.begin c.0.end (is_empty N (intersection N b.1 c.1)))
  where
    common :
        (b e b' e' : ℤ)
        → (ltb_ℤ b e && ltb_ℤ b' e' && ltb_ℤ b e' && ltb_ℤ b' e)
          ≡ not (leb_ℤ (if leb_ℤ e e' then e else e') (if leb_ℤ b' b then b else b'))
    common b e b' e' = ground arith

    axis :
        (b e b' e' : ℤ) (rest : Bool)
        → (ltb_ℤ b e && ltb_ℤ b' e' && ltb_ℤ b e' && ltb_ℤ b' e && not rest)
          ≡ not (leb_ℤ (if leb_ℤ e e' then e else e') (if leb_ℤ b' b then b else b') || rest)
    axis b e b' e' rest =
        rw (common b e b' e')
          (de_morgan (leb_ℤ (if leb_ℤ e e' then e else e') (if leb_ℤ b' b then b else b')) rest)
      where
        de_morgan : (x y : Bool) → (not x && not y) ≡ not (x || y)
        de_morgan x y = ground arith

-- A point lies in an intersection when it lies in both bounds, and bounds overlap exactly when their
-- intersection is not empty.
pub intersection_lem :
    (N : ℕ) (b c : Bounds N)
    → (overlaps N b c ≡ not (is_empty N (intersection N b c)))
      × ((p : Point N) → contains N (intersection N b c) p ≡ (contains N b p && contains N c p))
intersection_lem N b c = (meets N b c, contains-intersection N b c)

-- Shifting bounds and a point by the same offset changes nothing.
pub shifted : (N : ℕ) → Point N → Point N → Point N
shifted zero p q = tt
shifted (suc N) p q = (p.0 +ℤ q.0, shifted N p.1 q.1)

pub contains-shift_by :
    (N : ℕ) (b : Bounds N) (p offset : Point N)
    → contains N (shift_by N b offset) (shifted N p offset) ≡ contains N b p
unfolding shifted
contains-shift_by zero b p offset = refl
contains-shift_by (suc N) b p offset =
    rw
      (
        moved p.0 b.0.begin offset.0,
        moved p.0 b.0.end offset.0,
        contains-shift_by N b.1 p.1 offset.1,
      )
      refl
  where
    moved : (x y z : ℤ) → ltb_ℤ (x +ℤ z) (y +ℤ z) ≡ ltb_ℤ x y
    moved x y z = ground (arith, +ℤ_parts x z, +ℤ_parts y z)

pub begins-inside : (N : ℕ) (b : Bounds N) → is_empty N b ≡ false → contains N b (begins N b) ≡ true
begins-inside zero b h = refl
begins-inside (suc N) b h =
    let rest : is_empty N b.1 ≡ false = ground (arith, h) in
    rw (begins-inside N b.1 rest) (ground (arith, h))

lasts : (N : ℕ) → Bounds N → Point N
lasts zero b = tt
lasts (suc N) b = (b.0.end -ℤ pos 1, lasts N b.1)

lasts-inside : (N : ℕ) (b : Bounds N) → is_empty N b ≡ false → contains N b (lasts N b) ≡ true
unfolding lasts
lasts-inside zero b h = refl
lasts-inside (suc N) b h =
    let rest : is_empty N b.1 ≡ false = ground (arith, h) in
    rw (lasts-inside N b.1 rest) (ground (arith, h, -ℤ_parts b.0.end (pos 1)))

corners :
    (N : ℕ) (b c : Bounds N)
    → contains N b (begins N c) ≡ true
    → contains N b (lasts N c) ≡ true
    → within N b c ≡ true
unfolding lasts
corners zero b c h k = refl
corners (suc N) b c h k =
    let first : contains N b.1 (begins N c.1) ≡ true = ground (arith, h) in
    let last : contains N b.1 (lasts N c.1) ≡ true = ground (arith, k) in
    let low : leb_ℤ b.0.begin c.0.begin ≡ true = ground (arith, h) in
    let high : ltb_ℤ (c.0.end -ℤ pos 1) b.0.end ≡ true = ground (arith, k) in
    let high : leb_ℤ c.0.end b.0.end ≡ true = ground (arith, high, -ℤ_parts c.0.end (pos 1)) in
    rw (corners N b.1 c.1 first last, low, high) refl

in_within :
    (N : ℕ) (b c : Bounds N) (p : Point N)
    → within N b c ≡ true
    → contains N c p ≡ true
    → contains N b p ≡ true
in_within zero b c p h k = refl
in_within (suc N) b c p h k =
    let rest : within N b.1 c.1 ≡ true = ground (arith, h) in
    let below : contains N c.1 p.1 ≡ true = ground (arith, k) in
    let low : leb_ℤ b.0.begin c.0.begin ≡ true = ground (arith, h) in
    let high : leb_ℤ c.0.end b.0.end ≡ true = ground (arith, h) in
    let first : ltb_ℤ p.0 c.0.begin ≡ false = ground (arith, k) in
    let last : ltb_ℤ p.0 c.0.end ≡ true = ground (arith, k) in
    let first : ltb_ℤ p.0 b.0.begin ≡ false = ground (arith, first, low) in
    let last : ltb_ℤ p.0 b.0.end ≡ true = ground (arith, last, high) in
    rw (in_within N b.1 c.1 p.1 rest below, first, last) refl

not_in_empty : (N : ℕ) (c : Bounds N) (p : Point N) → is_empty N c ≡ true → contains N c p ≡ false
not_in_empty zero c p h = absurd (cc h)
not_in_empty (suc N) c p h = elim (Bool-cases (is_empty N c.1)) [
  | inl e ↦ rw (not_in_empty N c.1 p.1 e) (ground arith)
  | inr e ↦
      let none : leb_ℤ c.0.end c.0.begin ≡ true = ground (arith, h, e) in
      let apart : (not (ltb_ℤ p.0 c.0.begin) && ltb_ℤ p.0 c.0.end) ≡ false = ground (arith, none) in
      rw apart refl
]

-- The test on bounds is exact: bounds contain others when they contain all of their points.
pub contains_bounds_iff :
    (N : ℕ) (b c : Bounds N)
    → (contains_bounds N b c ≡ true)
      ↔ ((p : Point N) → contains N c p ≡ true → contains N b p ≡ true)
contains_bounds_iff N b c = (forth, back)
  where
    forth :
        contains_bounds N b c ≡ true → (p : Point N) → contains N c p ≡ true → contains N b p ≡ true
    forth h p k = elim (Bool-cases (is_empty N c)) [
      | inl e ↦ absurd (cc (k, not_in_empty N c p e))
      | inr e ↦
          let inside : within N b c ≡ true = ground (arith, h, e) in in_within N b c p inside k
    ]

    back :
        ((p : Point N) → contains N c p ≡ true → contains N b p ≡ true)
        → contains_bounds N b c ≡ true
    back h = elim (Bool-cases (is_empty N c)) [
      | inl e ↦ rw e (ground arith)
      | inr e ↦
          let inside =
            corners N b c (h (begins N c) (begins-inside N c e))
              (h (lasts N c) (lasts-inside N c e)) in
          rw inside (ground arith)
    ]

clamp : Range.Range → ℤ → ℤ
clamp r mid =
    let mid = if ltb_ℤ mid r.begin then r.begin else mid in if ltb_ℤ r.end mid then r.end else mid

clamp_bounds :
    (r : Range.Range) (mid : ℤ)
    → ((r.begin ≤ℤ clamp r mid) × (clamp r mid ≤ℤ r.end))
      ⊎ ((r.end <ℤ r.begin) × (clamp r mid ≡ r.end))
unfolding clamp
clamp_bounds r mid = ground arith

-- A cut of one axis.
cut :
    (b e m p : ℤ)
    → ((b ≤ℤ m) × (m ≤ℤ e)) ⊎ ((e <ℤ b) × (m ≡ e))
    → ((not (ltb_ℤ p b) && ltb_ℤ p e)
        ≡ ((not (ltb_ℤ p m) && ltb_ℤ p e) || (not (ltb_ℤ p b) && ltb_ℤ p m)))
      × (((not (ltb_ℤ p m) && ltb_ℤ p e) && (not (ltb_ℤ p b) && ltb_ℤ p m)) ≡ false)
cut b e m p (inl h) = (ground (arith, h.0, h.1), ground (arith, h.0, h.1))
cut b e m p (inr h) = rw h.1 (ground (arith, h.0), ground (arith, h.0))

Splits : (N : ℕ) → Bounds N → Bounds N × Bounds N → Point N → Type 0
Splits N b s p =
    (contains N b p ≡ (contains N s.0 p || contains N s.1 p))
    × ((contains N s.0 p && contains N s.1 p) ≡ false)

-- Adding a factor on the right, and on the left, of a split.
split_left :
    (a x y c : Bool)
    → a ≡ (x || y)
    → (x && y) ≡ false
    → ((a && c) ≡ ((x && c) || (y && c))) × (((x && c) && (y && c)) ≡ false)
split_left a x y c h k = rw h (ground arith, ground (arith, k))

split_right :
    (a x y c : Bool)
    → a ≡ (x || y)
    → (x && y) ≡ false
    → ((c && a) ≡ ((c && x) || (c && y))) × (((c && x) && (c && y)) ≡ false)
split_right a x y c h k = rw h (ground arith, ground (arith, k))

split_axis_lem :
    (N axis : ℕ) (mid : ℤ) (b : Bounds N) (p : Point N)
    → axis < N
    → Splits N b (split_axis N axis mid b) p
unfolding Splits split_axis Range.split_tail clamp
split_axis_lem zero axis mid b p h = absurd (omega (arith, h))
split_axis_lem (suc N) zero mid b p h =
    let (whole, apart) = cut b.0.begin b.0.end (clamp b.0 mid) p.0 (clamp_bounds b.0 mid) in
    split_left (Range.contains b.0 p.0)
      (Range.contains (record { begin = clamp b.0 mid; end = b.0.end }) p.0)
      (Range.contains (record { begin = b.0.begin; end = clamp b.0 mid }) p.0) (contains N b.1 p.1)
      whole apart
split_axis_lem (suc N) (suc axis) mid b p h =
    let s = split_axis N axis mid b.1 in
    let (whole, apart) = split_axis_lem N axis mid b.1 p.1 (omega (arith, h)) in
    split_right (contains N b.1 p.1) (contains N s.0 p.1) (contains N s.1 p.1)
      (Range.contains b.0 p.0) whole apart

-- Splitting bounds along one of their axes gives two bounds that have their points, each point in
-- exactly one of the two.
pub split_tail_along_lem :
    (N axis : ℕ) (mid : ℤ) (b : Bounds N) (p : Point N)
    → axis < N
    → let (tail, left) = split_tail_along N axis mid b in
      (contains N b p ≡ (contains N tail p || contains N left p))
      × ((contains N tail p && contains N left p) ≡ false)
unfolding split_tail_along Splits
split_tail_along_lem N axis mid b p h = rw (lt→ltb axis N h) (split_axis_lem N axis mid b p h)

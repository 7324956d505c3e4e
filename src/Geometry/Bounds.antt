-- ===== src/Geometry/Bounds.antt =====
-- include/kmm/utils/bounds.hpp, with the points and sizes of point.hpp and dim.hpp. A fixed_vector of
-- N elements is a product of N factors, and a loop over the axes is recursion on N.
use kmm.Prelude.{ℕ, zero, suc, Bool, true, false, not, ◌&&◌, ◌||◌, if◌then◌else◌, ltb}
use kmm.Prelude.Int.{ℤ, pos, ◌-ℤ◌, ◌*ℤ◌, ltb_ℤ, leb_ℤ, eqb_ℤ}
use kmm.Geometry.Range

abbrev pub FixedVector {ℓ} : Type ℓ → ℕ → Type ℓ
FixedVector T zero = Unit
FixedVector T (suc N) = T × FixedVector T N

abbrev pub Point : ℕ → Type 0
Point = FixedVector ℤ

abbrev pub Dim : ℕ → Type 0
Dim = FixedVector ℤ

abbrev pub Bounds : ℕ → Type 0
Bounds = FixedVector Range.Range

abbrev pub fill : (N : ℕ) → ℤ → FixedVector ℤ N
fill zero value = tt
fill (suc N) value = (value, fill N value)

-- operator== of points, and of sizes, of the same number of axes.
abbrev pub equals : (N : ℕ) → FixedVector ℤ N → FixedVector ℤ N → Bool
equals zero p q = true
equals (suc N) p q = eqb_ℤ p.0 q.0 && equals N p.1 q.1

-- Dim::is_empty, Dim::volume and Dim::contains.
abbrev pub has_no_points : (N : ℕ) → Dim N → Bool
has_no_points zero d = false
has_no_points (suc N) d = not (ltb_ℤ (pos 0) d.0) || has_no_points N d.1

abbrev pub product : (N : ℕ) → Dim N → ℤ
product zero d = pos 1
product (suc N) d = d.0 *ℤ product N d.1

unfoldable pub dim_volume : (N : ℕ) → Dim N → ℤ
dim_volume N d = if has_no_points N d then pos 0 else product N d

abbrev pub dim_contains : (N : ℕ) → Dim N → Point N → Bool
dim_contains zero d p = true
dim_contains (suc N) d p = not (ltb_ℤ p.0 (pos 0)) && ltb_ℤ p.0 d.0 && dim_contains N d.1 p.1

abbrev pub from_bounds : (N : ℕ) → Point N → Point N → Bounds N
from_bounds zero begin end = tt
from_bounds (suc N) begin end =
    (record { begin = begin.0; end = end.0 }, from_bounds N begin.1 end.1)

abbrev pub from_offset_size : (N : ℕ) → Point N → Dim N → Bounds N
from_offset_size zero offset shape = tt
from_offset_size (suc N) offset shape =
    (Range.shift_by (Range.up_to shape.0) offset.0, from_offset_size N offset.1 shape.1)

-- Bounds of a size, from the origin.
abbrev pub of_dim : (N : ℕ) → Dim N → Bounds N
of_dim N shape = from_offset_size N (fill N (pos 0)) shape

abbrev pub empty : (N : ℕ) → Bounds N
empty N = of_dim N (fill N (pos 0))

abbrev pub begins : (N : ℕ) → Bounds N → Point N
begins zero b = tt
begins (suc N) b = (b.0.begin, begins N b.1)

abbrev pub ends : (N : ℕ) → Bounds N → Point N
ends zero b = tt
ends (suc N) b = (b.0.end, ends N b.1)

abbrev pub sizes : (N : ℕ) → Bounds N → Dim N
sizes zero b = tt
sizes (suc N) b = (Range.size b.0, sizes N b.1)

abbrev pub is_empty : (N : ℕ) → Bounds N → Bool
is_empty zero b = false
is_empty (suc N) b = leb_ℤ b.0.end b.0.begin || is_empty N b.1

abbrev pub extent : (N : ℕ) → Bounds N → ℤ
extent zero b = pos 1
extent (suc N) b = (b.0.end -ℤ b.0.begin) *ℤ extent N b.1

unfoldable pub volume : (N : ℕ) → Bounds N → ℤ
volume N b = if is_empty N b then pos 0 else extent N b

abbrev pub intersection : (N : ℕ) → Bounds N → Bounds N → Bounds N
intersection zero b that = tt
intersection (suc N) b that = (
  record {
    begin = if leb_ℤ that.0.begin b.0.begin then b.0.begin else that.0.begin;
    end = if leb_ℤ b.0.end that.0.end then b.0.end else that.0.end;
  },
  intersection N b.1 that.1,
)

abbrev pub unite : (N : ℕ) → Bounds N → Bounds N → Bounds N
unite zero b that = tt
unite (suc N) b that = (
  record {
    begin = if ltb_ℤ b.0.begin that.0.begin then b.0.begin else that.0.begin;
    end = if ltb_ℤ that.0.end b.0.end then b.0.end else that.0.end;
  },
  unite N b.1 that.1,
)

abbrev pub overlaps : (N : ℕ) → Bounds N → Bounds N → Bool
overlaps zero b that = true
overlaps (suc N) b that = Range.overlaps b.0 that.0 && overlaps N b.1 that.1

-- The two flags of `contains` on bounds.
abbrev pub within : (N : ℕ) → Bounds N → Bounds N → Bool
within zero b that = true
within (suc N) b that =
    leb_ℤ b.0.begin that.0.begin && leb_ℤ that.0.end b.0.end && within N b.1 that.1

abbrev pub contains_bounds : (N : ℕ) → Bounds N → Bounds N → Bool
contains_bounds N b that = within N b that || is_empty N that

abbrev pub contains : (N : ℕ) → Bounds N → Point N → Bool
contains zero b that = true
contains (suc N) b that = Range.contains b.0 that.0 && contains N b.1 that.1

abbrev pub shift_by : (N : ℕ) → Bounds N → Point N → Bounds N
shift_by zero b offset = tt
shift_by (suc N) b offset = (Range.shift_by b.0 offset.0, shift_by N b.1 offset.1)

-- Returns the tail, and the bounds that are left.
unfoldable pub split_axis : (N : ℕ) → ℕ → ℤ → Bounds N → Bounds N × Bounds N
unfolding Range.split_tail
split_axis zero axis mid b = (tt, tt)
split_axis (suc N) zero mid b =
    let (tail, left) = Range.split_tail b.0 mid in ((tail, b.1), (left, b.1))
split_axis (suc N) (suc axis) mid b =
    let (tail, left) = split_axis N axis mid b.1 in ((b.0, tail), (b.0, left))

unfoldable pub split_tail_along : (N : ℕ) → ℕ → ℤ → Bounds N → Bounds N × Bounds N
unfolding split_axis
split_tail_along N axis mid b = if ltb axis N then split_axis N axis mid b else (empty N, b)

abbrev pub bounds_equal : (N : ℕ) → Bounds N → Bounds N → Bool
bounds_equal zero b that = true
bounds_equal (suc N) b that =
    eqb_ℤ b.0.begin that.0.begin && eqb_ℤ b.0.end that.0.end && bounds_equal N b.1 that.1

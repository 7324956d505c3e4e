-- ===== src/Checked.antt =====
-- include/kmm/utils/checked_compare.hpp and checked_math.hpp at integer types: comparisons between
-- types of different sign and width, conversions that throw, and products with a flag. A value is a
-- mathematical integer; `cast` is static_cast, which wraps.
pub mod Exact
pub mod Products
use kmm.Prelude.{
  ℕ, ◌+◌, ◌-◌, ◌/◌, ◌%◌, ◌^◌, Bool, true, false, not, ◌&&◌, ◌||◌, ltb, leb, if◌then◌else◌, List, [],
  ◌∷◌,
}
use kmm.Prelude.Results.{Result, ok, err, overflow}
use kmm.Prelude.Int.{ℤ, pos, negsuc, ◌+ℤ◌, ◌*ℤ◌, ltb_ℤ, leb_ℤ, eqb_ℤ}

-- The tags of numeric_type_traits for integers, with the width in bits.
pub data IntType : Type 0 where
  signed_int unsigned_int : (width : ℕ) → IntType

abbrev pub max_inclusive : IntType → ℤ
max_inclusive (signed_int w) = pos ((2 ^ w - 1) / 2)
max_inclusive (unsigned_int w) = pos (2 ^ w - 1)

abbrev pub min_inclusive : IntType → ℤ
min_inclusive (signed_int w) = negsuc ((2 ^ w - 1) / 2)
min_inclusive (unsigned_int w) = pos 0

abbrev pub unsigned_cast : ℕ → ℤ → ℕ
unsigned_cast w (pos n) = n % 2 ^ w
unsigned_cast w (negsuc n) = 2 ^ w - 1 - n % 2 ^ w

unfoldable pub cast : IntType → ℤ → ℤ
cast (unsigned_int w) v = pos (unsigned_cast w v)
cast (signed_int w) v =
    let u = unsigned_cast w v in if leb u ((2 ^ w - 1) / 2) then pos u else negsuc (2 ^ w - 1 - u)

-- checked_compare_impl, by the types of the two sides.
unfoldable pub is_less : IntType → IntType → ℤ → ℤ → Bool
unfolding cast
is_less (signed_int l) (signed_int r) a b = ltb_ℤ a b
is_less (unsigned_int l) (unsigned_int r) a b = ltb_ℤ a b
is_less (unsigned_int l) (signed_int r) a b = leb_ℤ (pos 0) b && ltb_ℤ a (cast (unsigned_int r) b)
is_less (signed_int l) (unsigned_int r) a b = ltb_ℤ a (pos 0) || ltb_ℤ (cast (unsigned_int l) a) b

unfoldable pub is_equal : IntType → IntType → ℤ → ℤ → Bool
unfolding cast
is_equal (signed_int l) (signed_int r) a b = eqb_ℤ a b
is_equal (unsigned_int l) (unsigned_int r) a b = eqb_ℤ a b
is_equal (unsigned_int l) (signed_int r) a b = leb_ℤ (pos 0) b && eqb_ℤ a (cast (unsigned_int r) b)
is_equal (signed_int l) (unsigned_int r) a b = leb_ℤ (pos 0) a && eqb_ℤ (cast (unsigned_int l) a) b

unfoldable pub is_less_equal : IntType → IntType → ℤ → ℤ → Bool
unfolding is_less is_equal
is_less_equal l r a b = is_less l r a b || is_equal l r a b

-- checked_convert_impl: the type of the input, the type of the output, the input.
unfoldable pub is_convertible : IntType → IntType → ℤ → Bool
unfolding cast is_less
is_convertible (signed_int i) (signed_int o) v = eqb_ℤ (cast (signed_int o) v) v
is_convertible (unsigned_int i) (unsigned_int o) v = eqb_ℤ (cast (unsigned_int o) v) v
is_convertible (unsigned_int i) (signed_int o) v =
    not (is_less (signed_int o) (unsigned_int i) (max_inclusive (signed_int o)) v)
is_convertible (signed_int i) (unsigned_int o) v =
    leb_ℤ (pos 0) v
    && not (is_less (unsigned_int o) (signed_int i) (max_inclusive (unsigned_int o)) v)

-- The literal 0 is an int of 32 bits.
unfoldable pub in_range : IntType → IntType → ℤ → ℤ → Bool
unfolding is_less is_convertible
in_range i u v length =
    not (is_less i (signed_int 32) v (pos 0)) && is_less i u v length && is_convertible i u v

unfoldable pub checked_cast : IntType → IntType → ℤ → Result ℤ
unfolding is_convertible cast
checked_cast i o v = if is_convertible i o v then ok (cast o v) else err overflow

-- The compiler's arithmetic with a flag of overflow: the wrapped value, and whether it is exact.
abbrev pub fits : IntType → ℤ → Bool
fits t v = leb_ℤ (min_inclusive t) v && leb_ℤ v (max_inclusive t)

abbrev pub exactly : IntType → ℤ → Bool × ℤ
exactly t v = (fits t v, cast t v)

unfoldable pub checked_mul : IntType → ℤ → ℤ → Result ℤ
unfolding cast
checked_mul t a b =
    let (is_exact, v) = exactly t (a *ℤ b) in if is_exact then ok v else err overflow

unfoldable pub checked_add : IntType → ℤ → ℤ → Result ℤ
unfolding cast
checked_add t a b =
    let (is_exact, v) = exactly t (a +ℤ b) in if is_exact then ok v else err overflow

-- The loop of checked_product, with its flag.
pub product_from : IntType → IntType → List ℤ → Bool → ℤ → Bool × ℤ
unfolding is_convertible cast
product_from i u [] is_valid accum = (is_valid, accum)
product_from i u (v ∷ vs) is_valid accum =
    let (is_exact, next) = exactly u (cast u v *ℤ accum) in
    product_from i u vs (is_valid && is_convertible i u v && is_exact) next

unfoldable pub checked_product : IntType → IntType → List ℤ → ℤ → Result ℤ
unfolding product_from
checked_product i u vs initial =
    let (is_valid, accum) = product_from i u vs true initial in
    if is_valid then ok accum else err overflow

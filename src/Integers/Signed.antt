-- ===== src/Integers/Signed.antt =====
-- div_floor and div_ceil of include/kmm/utils/integer_fun.hpp at signed types. The operators / and %
-- of the source round towards zero.
use native.Mathlib.Nat.{div-eq_of_lt-le}
use kmm.Prelude.{
  ℕ, suc, ◌+◌, ◌*◌, ◌/◌, ◌%◌, ◌≤◌, ◌<◌, ◌≡◌, refl, Bool, not, ◌&&◌, arith, if◌then◌else◌,
}
use kmm.Prelude.Int.{ℤ, pos, negsuc, pos_part, neg_part, sub_ℕ, ◌+ℤ◌, ◌-ℤ◌, ◌*ℤ◌, leb_ℤ, eqb_ℤ}

abbrev negative : ℕ → ℤ
negative n = sub_ℕ 0 n

abbrev quotient : ℤ → ℤ → ℤ
quotient (pos a) (pos b) = pos (a / b)
quotient (pos a) (negsuc b) = negative (a / suc b)
quotient (negsuc a) (pos b) = negative (suc a / b)
quotient (negsuc a) (negsuc b) = pos (suc a / suc b)

abbrev remainder : ℤ → ℤ → ℤ
remainder (pos a) b = pos (a % (pos_part b + neg_part b))
remainder (negsuc a) b = negative (suc a % (pos_part b + neg_part b))

abbrev same_sign : ℤ → ℤ → Bool
same_sign a b = if leb_ℤ (pos 0) a then leb_ℤ (pos 0) b else not (leb_ℤ (pos 0) b)

unfoldable pub div_floor : ℤ → ℤ → ℤ
div_floor a b =
    if not (eqb_ℤ (remainder a b) (pos 0)) && not (same_sign a b)
    then quotient a b -ℤ pos 1
    else quotient a b

unfoldable pub div_ceil : ℤ → ℤ → ℤ
div_ceil a b =
    if not (eqb_ℤ (remainder a b) (pos 0)) && same_sign a b
    then quotient a b +ℤ pos 1
    else quotient a b

pub pos-mul : (a b : ℕ) → pos a *ℤ pos b ≡ pos (a * b)
unfolding ◌*ℤ◌
pos-mul a b = ground arith

pub pos-add : (a b : ℕ) → pos a +ℤ pos b ≡ pos (a + b)
unfolding ◌+ℤ◌
pos-add a b = ground arith

-- The quotient rounded down, of numbers that are not negative.
pub div_floor-pos : (a b : ℕ) → div_floor (pos a) (pos b) ≡ pos (a / b)
unfolding div_floor
div_floor-pos a b = ground arith

pub div_floor_part : (k b c : ℕ) → k * c ≤ b → b < k * c + c → div_floor (pos b) (pos c) ≡ pos k
div_floor_part k b c h l =
    let low : c * k ≤ b = ground (arith, h) in
    let high : b < (k + 1) * c = grind (arith, l) in
    let e : b / c ≡ k = div-eq_of_lt-le c (grind (arith, h)) high in rw (div_floor-pos b c, e) refl

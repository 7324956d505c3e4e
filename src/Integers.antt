-- ===== src/Integers.antt =====
-- The divisions of include/kmm/utils/integer_fun.hpp: first at unsigned types, where the branches on
-- signs fall away, then at signed types, in Signed.
pub mod Signed
use kmm.Prelude.{
  ℕ, ◌+◌, ◌*◌, ◌/◌, ◌%◌, ◌≤◌, ◌<◌, ◌≡◌, inl, inr, arith, ◌==◌, if◌then◌else◌, Bool-cases,
}

unfoldable pub div_floor : ℕ → ℕ → ℕ
div_floor a b = a / b

unfoldable pub div_ceil : ℕ → ℕ → ℕ
div_ceil a b = if a % b == 0 then a / b else a / b + 1

-- For a positive divisor, the two quotients are the most parts of size `b` that fit in `a`, and
-- the fewest that hold it.
pub div_ceil-covers :
    (a b : ℕ)
    → 0 < b
    → (div_floor a b * b ≤ a)
      × (a < div_floor a b * b + b)
      × (a ≤ div_ceil a b * b)
      × (div_ceil a b * b < a + b)
unfolding div_ceil div_floor
div_ceil-covers a b h = elim (Bool-cases (a % b == 0)) [
  | inl e ↦
      let exact : a % b ≡ 0 = ground (arith, e) in
      rw e (omega (arith, exact), omega (arith, exact), omega (arith, exact), omega (arith, exact))
  | inr e ↦
      let left : 0 < a % b = ground (arith, e) in
      rw e (omega (arith, left), omega (arith, left), omega (arith, left), omega (arith, left))
]

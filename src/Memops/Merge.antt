-- ===== src/Memops/Merge.antt =====
-- Two dimensions in one: the bytes copied stay the same when a contiguous dimension becomes part of
-- the element, and when one dimension continues another.
use native.Mathlib.Nat.{div-add-mod, div-lt_iff_lt-mul, mod-lt}
use kmm.Prelude.{ℕ, zero, suc, ◌+◌, ◌*◌, ◌/◌, ◌%◌, ◌^◌, ◌<◌, ◌≡◌, ap, ◌∙◌, ◌↔◌, arith}
use kmm.Memops.{Dimension, with_strides, wrap}
use kmm.Memops.Pairs.{Reaches}

-- A position among `n` rows of `m`, and its row and column.
pub row_lt : (i b n m : ℕ) → i < n → b < m → i * m + b < n * m
row_lt i b zero m h h' = absurd (omega (arith, h))
row_lt zero b (suc n) m h h' = omega (arith, h')
row_lt (suc i) b (suc n) m h h' = omega (arith, row_lt i b n m (omega arith) h')

pub row_split : (k n m : ℕ) → k < n * m → (i : ℕ) × (b : ℕ) × (i < n) × (b < m) × (k ≡ i * m + b)
row_split k n zero h = absurd (omega (arith, h))
row_split k n (suc m) h = (
  k / suc m,
  k % suc m,
  (div-lt_iff_lt-mul (omega arith)).1 h,
  mod-lt k (omega arith),
  omega (arith, div-add-mod k (suc m)),
)

-- A stride may be reduced.
pub step_wrap : (x j z : ℕ) → wrap (x + j * wrap z) ≡ wrap (x + j * z)
step_wrap x j z =
    let parts : z ≡ 2 ^ 64 * (z / 2 ^ 64) + z % 2 ^ 64 = omega arith in
    let scaled : j * z ≡ 2 ^ 64 * (j * (z / 2 ^ 64)) + j * (z % 2 ^ 64) =
      ap (λ y. j * y) parts ∙ omega arith in
    omega (arith, scaled)

module _ {from to : ℕ} {c : Dimension} {src dst : ℕ} where
  pub absorb_iff :
      (e n x y : ℕ) {b : Dimension}
      → Reaches e from to (with_strides n e e) b c src dst
        ↔ Reaches (e * n) from to (with_strides 1 x y) b c src dst
  absorb_iff e n x y {b} = (forward, backward)
    where
      forward :
          Reaches e from to (with_strides n e e) b c src dst
          → Reaches (e * n) from to (with_strides 1 x y) b c src dst
      forward r = record {
        i0 = 0;
        i1 = r.i1;
        i2 = r.i2;
        byte = r.i0 * e + r.byte;
        lt0 = omega arith;
        lt1 = r.lt1;
        lt2 = r.lt2;
        lt_byte = omega (arith, row_lt r.i0 r.byte n e r.lt0 r.lt_byte);
        is_src = omega (arith, r.is_src);
        is_dst = omega (arith, r.is_dst);
      }

      backward :
          Reaches (e * n) from to (with_strides 1 x y) b c src dst
          → Reaches e from to (with_strides n e e) b c src dst
      backward r =
          let (i, byte, i_lt, byte_lt, is_byte) = row_split r.byte n e (omega (arith, r.lt_byte)) in
          let first : r.i0 ≡ 0 = omega (arith, r.lt0) in
          let s0 : r.i0 * x ≡ 0 = ap (λ i. i * x) first ∙ omega arith in
          let d0 : r.i0 * y ≡ 0 = ap (λ i. i * y) first ∙ omega arith in
          record {
            i0 = i;
            i1 = r.i1;
            i2 = r.i2;
            byte = byte;
            lt0 = i_lt;
            lt1 = r.lt1;
            lt2 = r.lt2;
            lt_byte = byte_lt;
            is_src = omega (arith, r.is_src, is_byte, s0);
            is_dst = omega (arith, r.is_dst, is_byte, d0);
          }

  pub merge_iff :
      (e n m x y u v : ℕ)
      → Reaches e from to
          (with_strides n x y)
          (with_strides m (wrap (n * x)) (wrap (n * y)))
          c
          src
          dst
        ↔ Reaches e from to (with_strides (n * m) x y) (with_strides 1 u v) c src dst
  merge_iff e n m x y u v = (forward, backward)
    where
      forward :
          Reaches e from to
            (with_strides n x y)
            (with_strides m (wrap (n * x)) (wrap (n * y)))
            c
            src
            dst
          → Reaches e from to (with_strides (n * m) x y) (with_strides 1 u v) c src dst
      forward r = record {
        i0 = r.i1 * n + r.i0;
        i1 = 0;
        i2 = r.i2;
        byte = r.byte;
        lt0 = omega (arith, row_lt r.i1 r.i0 m n r.lt1 r.lt0);
        lt1 = omega arith;
        lt2 = r.lt2;
        lt_byte = r.lt_byte;
        is_src = omega (
          arith,
          r.is_src,
          step_wrap (from + r.i0 * x + r.i2 * c.src_stride + r.byte) r.i1 (n * x),
        );
        is_dst = omega (
          arith,
          r.is_dst,
          step_wrap (to + r.i0 * y + r.i2 * c.dst_stride + r.byte) r.i1 (n * y),
        );
      }

      backward :
          Reaches e from to (with_strides (n * m) x y) (with_strides 1 u v) c src dst
          → Reaches e from to
              (with_strides n x y)
              (with_strides m (wrap (n * x)) (wrap (n * y)))
              c
              src
              dst
      backward r =
          let (i1, i0, lt1, lt0, is_i) = row_split r.i0 m n (omega (arith, r.lt0)) in
          let only : r.i1 ≡ 0 = omega (arith, r.lt1) in
          let s1 : r.i1 * u ≡ 0 = ap (λ i. i * u) only ∙ omega arith in
          let d1 : r.i1 * v ≡ 0 = ap (λ i. i * v) only ∙ omega arith in
          let s0 : r.i0 * x ≡ (i1 * n + i0) * x = ap (λ i. i * x) is_i in
          let d0 : r.i0 * y ≡ (i1 * n + i0) * y = ap (λ i. i * y) is_i in
          record {
            i0 = i0;
            i1 = i1;
            i2 = r.i2;
            byte = r.byte;
            lt0 = lt0;
            lt1 = lt1;
            lt2 = r.lt2;
            lt_byte = r.lt_byte;
            is_src = omega (
              arith,
              r.is_src,
              s1,
              s0,
              step_wrap (from + i0 * x + r.i2 * c.src_stride + r.byte) i1 (n * x),
            );
            is_dst = omega (
              arith,
              r.is_dst,
              d1,
              d0,
              step_wrap (to + i0 * y + r.i2 * c.dst_stride + r.byte) i1 (n * y),
            );
          }

-- ===== src/Memops/Extend.antt =====
-- A dimension added to a copy repeats the copy along it.
use kmm.Prelude.{ℕ, ◌+◌, ◌*◌, ◌<◌, ◌≡◌, refl, ap, ◌∙◌, ◌↔◌, arith}
use kmm.Memops.{Dimension, with_strides, wrap}
use kmm.Memops.Pairs.{Reaches}
use kmm.Memops.Merge.{row_lt, row_split, step_wrap}

-- The same move, `count` times: each time one stride further, from the offset on.
pub record Repeated (count src_offset dst_offset src_stride dst_stride : ℕ) (Moves : ℕ → ℕ → Type 0)
    (src dst : ℕ) : Type 0 where
  pub step : ℕ
  pub first_src : ℕ
  pub first_dst : ℕ
  pub step_lt : step < count
  pub moves : Moves first_src first_dst
  pub is_src : src ≡ wrap (first_src + (src_offset + step) * src_stride)
  pub is_dst : dst ≡ wrap (first_dst + (dst_offset + step) * dst_stride)

abbrev pub moved_offset : ℕ → ℕ → ℕ → ℕ
moved_offset from offset stride = wrap (from + wrap (offset * stride))

stride_of : (x k z : ℕ) {s : ℕ} → s ≡ wrap z → wrap (x + k * s) ≡ wrap (x + k * z)
stride_of x k z {s} e = ap (λ y. wrap (x + k * y)) e ∙ step_wrap x k z

module _ {e from to : ℕ} {b c : Dimension} {src dst : ℕ} (count so do' : ℕ) where
  pub element-Repeated :
      {a : Dimension}
      → Reaches (e * count) (moved_offset from so e) (moved_offset to do' e) a b c src dst
        ↔ Repeated count so do' e e (Reaches e from to a b c) src dst
  element-Repeated {a} = (forward, backward)
    where
      forward :
          Reaches (e * count) (moved_offset from so e) (moved_offset to do' e) a b c src dst
          → Repeated count so do' e e (Reaches e from to a b c) src dst
      forward r =
          let (k, byte, k_lt, byte_lt, is_byte) =
            row_split r.byte count e (omega (arith, r.lt_byte)) in
          record {
            step = k;
            first_src = _;
            first_dst = _;
            step_lt = k_lt;
            moves = record {
              i0 = r.i0;
              i1 = r.i1;
              i2 = r.i2;
              byte = byte;
              lt0 = r.lt0;
              lt1 = r.lt1;
              lt2 = r.lt2;
              lt_byte = byte_lt;
              is_src = refl;
              is_dst = refl;
            };
            is_src = omega (arith, r.is_src, is_byte);
            is_dst = omega (arith, r.is_dst, is_byte);
          }

      backward :
          Repeated count so do' e e (Reaches e from to a b c) src dst
          → Reaches (e * count) (moved_offset from so e) (moved_offset to do' e) a b c src dst
      backward x =
          let r = x.moves in
          record {
            i0 = r.i0;
            i1 = r.i1;
            i2 = r.i2;
            byte = x.step * e + r.byte;
            lt0 = r.lt0;
            lt1 = r.lt1;
            lt2 = r.lt2;
            lt_byte = omega (arith, row_lt x.step r.byte count e x.step_lt r.lt_byte);
            is_src = omega (arith, x.is_src, r.is_src);
            is_dst = omega (arith, x.is_dst, r.is_dst);
          }

  module _ (ss ds : ℕ) where
    pub fresh-Repeated :
        {a : Dimension}
        → a.count ≡ 1
        → Reaches e
            (moved_offset from so ss)
            (moved_offset to do' ds)
            (with_strides count ss ds)
            b
            c
            src
            dst
          ↔ Repeated count so do' ss ds (Reaches e from to a b c) src dst
    fresh-Repeated {a} one = (forward, backward)
      where
        forward :
            Reaches e
              (moved_offset from so ss)
              (moved_offset to do' ds)
              (with_strides count ss ds)
              b
              c
              src
              dst
            → Repeated count so do' ss ds (Reaches e from to a b c) src dst
        forward r = record {
          step = r.i0;
          first_src = _;
          first_dst = _;
          step_lt = r.lt0;
          moves = record {
            i0 = 0;
            i1 = r.i1;
            i2 = r.i2;
            byte = r.byte;
            lt0 = omega (arith, one);
            lt1 = r.lt1;
            lt2 = r.lt2;
            lt_byte = r.lt_byte;
            is_src = refl;
            is_dst = refl;
          };
          is_src = omega (arith, r.is_src);
          is_dst = omega (arith, r.is_dst);
        }

        backward :
            Repeated count so do' ss ds (Reaches e from to a b c) src dst
            → Reaches e
                (moved_offset from so ss)
                (moved_offset to do' ds)
                (with_strides count ss ds)
                b
                c
                src
                dst
        backward x =
            let r = x.moves in
            let only : r.i0 ≡ 0 = omega (arith, r.lt0, one) in
            let s0 : r.i0 * a.src_stride ≡ 0 = ap (λ i. i * a.src_stride) only ∙ omega arith in
            let d0 : r.i0 * a.dst_stride ≡ 0 = ap (λ i. i * a.dst_stride) only ∙ omega arith in
            record {
              i0 = x.step;
              i1 = r.i1;
              i2 = r.i2;
              byte = r.byte;
              lt0 = x.step_lt;
              lt1 = r.lt1;
              lt2 = r.lt2;
              lt_byte = r.lt_byte;
              is_src = omega (arith, x.is_src, r.is_src, s0);
              is_dst = omega (arith, x.is_dst, r.is_dst, d0);
            }

    pub continued-Repeated :
        (n x y : ℕ)
        → ss ≡ wrap (n * x)
        → ds ≡ wrap (n * y)
        → Reaches e
            (moved_offset from so ss)
            (moved_offset to do' ds)
            (with_strides (n * count) x y)
            b
            c
            src
            dst
          ↔ Repeated count so do' ss ds (Reaches e from to (with_strides n x y) b c) src dst
    continued-Repeated n x y hs hd = (forward, backward)
      where
        forward :
            Reaches e
              (moved_offset from so ss)
              (moved_offset to do' ds)
              (with_strides (n * count) x y)
              b
              c
              src
              dst
            → Repeated count so do' ss ds (Reaches e from to (with_strides n x y) b c) src dst
        forward r =
            let (k, i, k_lt, i_lt, is_i) = row_split r.i0 count n (omega (arith, r.lt0)) in
            let sx : r.i0 * x ≡ (k * n + i) * x = ap (λ j. j * x) is_i in
            let dx : r.i0 * y ≡ (k * n + i) * y = ap (λ j. j * y) is_i in
            let rest_s =
              from + so * ss + i * x + r.i1 * b.src_stride + r.i2 * c.src_stride + r.byte in
            let rest_d =
              to + do' * ds + i * y + r.i1 * b.dst_stride + r.i2 * c.dst_stride + r.byte in
            record {
              step = k;
              first_src = _;
              first_dst = _;
              step_lt = k_lt;
              moves = record {
                i0 = i;
                i1 = r.i1;
                i2 = r.i2;
                byte = r.byte;
                lt0 = i_lt;
                lt1 = r.lt1;
                lt2 = r.lt2;
                lt_byte = r.lt_byte;
                is_src = refl;
                is_dst = refl;
              };
              is_src = omega (arith, r.is_src, sx, stride_of rest_s k (n * x) hs);
              is_dst = omega (arith, r.is_dst, dx, stride_of rest_d k (n * y) hd);
            }

        backward :
            Repeated count so do' ss ds (Reaches e from to (with_strides n x y) b c) src dst
            → Reaches e
                (moved_offset from so ss)
                (moved_offset to do' ds)
                (with_strides (n * count) x y)
                b
                c
                src
                dst
        backward m =
            let r = m.moves in
            let rest_s =
              from + so * ss + r.i0 * x + r.i1 * b.src_stride + r.i2 * c.src_stride + r.byte in
            let rest_d =
              to + do' * ds + r.i0 * y + r.i1 * b.dst_stride + r.i2 * c.dst_stride + r.byte in
            record {
              i0 = m.step * n + r.i0;
              i1 = r.i1;
              i2 = r.i2;
              byte = r.byte;
              lt0 = omega (arith, row_lt m.step r.i0 count n m.step_lt r.lt0);
              lt1 = r.lt1;
              lt2 = r.lt2;
              lt_byte = r.lt_byte;
              is_src = omega (arith, m.is_src, r.is_src, stride_of rest_s m.step (n * x) hs);
              is_dst = omega (arith, m.is_dst, r.is_dst, stride_of rest_d m.step (n * y) hd);
            }

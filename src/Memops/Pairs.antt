-- ===== src/Memops/Pairs.antt =====
-- Which byte a copy moves where, whatever the order of its dimensions, and the rearrangements of
-- the dimensions that do not change this.
use kmm.Prelude.{ℕ, ◌+◌, ◌*◌, ◌<◌, ◌≡◌, ap, ◌∙◌, arith}
use kmm.Memops.{Dimension, CopyDef, with_strides, wrap}

-- The byte at `src` of the source goes to `dst` of the destination: a choice of one step in each
-- dimension and one byte of the element leads to both.
pub record Reaches (element_size src_offset dst_offset : ℕ) (a b c : Dimension) (src dst : ℕ)
    : Type 0 where
  pub i0 : ℕ
  pub i1 : ℕ
  pub i2 : ℕ
  pub byte : ℕ
  pub lt0 : i0 < a.count
  pub lt1 : i1 < b.count
  pub lt2 : i2 < c.count
  pub lt_byte : byte < element_size
  pub is_src :
      src ≡ wrap (src_offset + i0 * a.src_stride + i1 * b.src_stride + i2 * c.src_stride + byte)
  pub is_dst :
      dst ≡ wrap (dst_offset + i0 * a.dst_stride + i1 * b.dst_stride + i2 * c.dst_stride + byte)

abbrev pub Copies : CopyDef → ℕ → ℕ → Type 0
Copies c src dst = Reaches c.element_size c.src_offset c.dst_offset c.dim0 c.dim1 c.dim2 src dst

module _ {e from to : ℕ} {a b c : Dimension} {src dst : ℕ} where
  pub swap01 : Reaches e from to a b c src dst → Reaches e from to b a c src dst
  swap01 r = record {
    i0 = r.i1;
    i1 = r.i0;
    i2 = r.i2;
    byte = r.byte;
    lt0 = r.lt1;
    lt1 = r.lt0;
    lt2 = r.lt2;
    lt_byte = r.lt_byte;
    is_src = omega (arith, r.is_src);
    is_dst = omega (arith, r.is_dst);
  }

  pub swap12 : Reaches e from to a b c src dst → Reaches e from to a c b src dst
  swap12 r = record {
    i0 = r.i0;
    i1 = r.i2;
    i2 = r.i1;
    byte = r.byte;
    lt0 = r.lt0;
    lt1 = r.lt2;
    lt2 = r.lt1;
    lt_byte = r.lt_byte;
    is_src = omega (arith, r.is_src);
    is_dst = omega (arith, r.is_dst);
  }

  -- The strides of a dimension of one element do not matter.
  pub restride :
      (x y : ℕ)
      → a.count ≡ 1
      → Reaches e from to a b c src dst
      → Reaches e from to (with_strides a.count x y) b c src dst
  restride x y one r =
      let first : r.i0 ≡ 0 = omega (arith, r.lt0, one) in
      let s0 : r.i0 * a.src_stride ≡ 0 = ap (λ i. i * a.src_stride) first ∙ omega arith in
      let d0 : r.i0 * a.dst_stride ≡ 0 = ap (λ i. i * a.dst_stride) first ∙ omega arith in
      record {
        i0 = 0;
        i1 = r.i1;
        i2 = r.i2;
        byte = r.byte;
        lt0 = omega (arith, one);
        lt1 = r.lt1;
        lt2 = r.lt2;
        lt_byte = r.lt_byte;
        is_src = omega (arith, r.is_src, s0);
        is_dst = omega (arith, r.is_dst, d0);
      }

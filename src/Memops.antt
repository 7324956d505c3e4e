-- ===== src/Memops.antt =====
-- CopyDef of src/memops/types.cpp and its header: a copy of bytes between two buffers along at most
-- three strided dimensions, how it is built and brought into a simple form, and the loops of
-- src/memops/host_copy.cpp that carry it out. The arrays of counts and strides are three
-- dimensions, and the loops over them are written out. A size_t wraps.
pub mod Pairs
pub mod Merge
pub mod Steps
pub mod Simplify
pub mod Execute
pub mod Extend
pub mod AddDimension
use kmm.Prelude.{
  ℕ, zero, suc, ◌+◌, ◌-◌, ◌*◌, ◌%◌, ◌^◌, Bool, true, false, not, ◌&&◌, ◌||◌, Option, none, some,
  List, [], ◌∷◌, ◌++◌, map, ltb, ◌==◌, if◌then◌else◌,
}
use kmm.Prelude.Results.{Result, ok, err, length_error, ◌>>=◌}
use kmm.Prelude.Int.{ℤ, pos, pos_part}
use kmm.Checked.{IntType, unsigned_int, checked_mul, checked_product}

abbrev pub size_type : IntType
size_type = unsigned_int 64

abbrev pub wrap : ℕ → ℕ
wrap n = n % 2 ^ 64

pub record Dimension : Type 0 where
  pub count : ℕ
  pub src_stride : ℕ
  pub dst_stride : ℕ

pub record CopyDef : Type 0 where
  pub element_size : ℕ
  pub src_offset : ℕ
  pub dst_offset : ℕ
  pub dim0 : Dimension
  pub dim1 : Dimension
  pub dim2 : Dimension

abbrev pub with_strides : ℕ → ℕ → ℕ → Dimension
with_strides count src_stride dst_stride = record {
  count = count;
  src_stride = src_stride;
  dst_stride = dst_stride;
}

-- The constructor from the size of an element.
abbrev pub copy_def : ℕ → CopyDef
copy_def element_size = record {
  element_size = element_size;
  src_offset = 0;
  dst_offset = 0;
  dim0 = with_strides 1 0 0;
  dim1 = with_strides 1 0 0;
  dim2 = with_strides 1 0 0;
}

-- The strides continue a dimension: stepping by them is stepping by it past its end.
abbrev pub continues : Dimension → ℕ → ℕ → Bool
continues d src_stride dst_stride =
    src_stride == wrap (d.count * d.src_stride) && dst_stride == wrap (d.count * d.dst_stride)

-- The body of the loop of add_dimension: the dimension takes up the new one, or does not.
unfoldable pub take_up : ℕ → ℕ → ℕ → Dimension → Option Dimension
take_up count src_stride dst_stride d =
    if continues d src_stride dst_stride
    then some (record d { count = wrap (d.count * count) })
    else if d.count == 1
    then some (with_strides count src_stride dst_stride)
    else none

unfoldable pub add_dimension : ℕ → ℕ → ℕ → ℕ → ℕ → CopyDef → Result CopyDef
unfolding take_up
add_dimension count src_offset dst_offset src_stride dst_stride c =
    let c1 = record c {
      src_offset = wrap (c.src_offset + wrap (src_offset * src_stride));
      dst_offset = wrap (c.dst_offset + wrap (dst_offset * dst_stride));
    } in
    if src_stride == c.element_size && dst_stride == c.element_size
    then ok (record c1 { element_size = wrap (c.element_size * count) })
    else elim (take_up count src_stride dst_stride c.dim0) [
      | some d ↦ ok (record c1 { dim0 = d })
      | none ↦ elim (take_up count src_stride dst_stride c.dim1) [
        | some d ↦ ok (record c1 { dim1 = d })
        | none ↦ elim (take_up count src_stride dst_stride c.dim2) [
          | some d ↦ ok (record c1 { dim2 = d })
          | none ↦ err length_error
        ]
      ]
    ]

unfoldable pub number_of_bytes_copied : CopyDef → Result ℕ
unfolding checked_product checked_mul
number_of_bytes_copied c =
    checked_product size_type size_type (map pos (c.dim0.count ∷ c.dim1.count ∷ c.dim2.count ∷ []))
      (pos 1)
    >>= λ elements.
        checked_mul size_type elements (pos c.element_size) >>= λ bytes. ok (pos_part bytes)

-- What is left of a dimension that was merged into the element or into another one.
abbrev pub merged : Dimension
merged = with_strides 1 1 1

-- One dimension of the first loops of simplify: a contiguous one becomes part of the element.
unfoldable pub absorb : ℕ → Dimension → ℕ × Dimension
absorb element_size d =
    if d.src_stride == element_size && d.dst_stride == element_size
    then (wrap (element_size * d.count), merged)
    else (element_size, d)

unfoldable pub absorb_dims : CopyDef → CopyDef
unfolding absorb
absorb_dims c =
    let (e0, d0) = absorb c.element_size c.dim0 in
    let (e1, d1) = absorb e0 c.dim1 in
    let (e2, d2) = absorb e1 c.dim2 in
    record c { element_size = e2; dim0 = d0; dim1 = d1; dim2 = d2 }

-- Two dimensions of the second loops: the second is merged into the first when it continues it.
unfoldable pub merge : Dimension → Dimension → Dimension × Dimension
merge a b =
    if continues a b.src_stride b.dst_stride
    then (record a { count = wrap (a.count * b.count) }, merged)
    else (a, b)

unfoldable pub merge01 : CopyDef → CopyDef
unfolding merge
merge01 c = let (a, b) = merge c.dim0 c.dim1 in record c { dim0 = a; dim1 = b }

unfoldable pub merge02 : CopyDef → CopyDef
unfolding merge
merge02 c = let (a, b) = merge c.dim0 c.dim2 in record c { dim0 = a; dim2 = b }

unfoldable pub merge10 : CopyDef → CopyDef
unfolding merge
merge10 c = let (a, b) = merge c.dim1 c.dim0 in record c { dim1 = a; dim0 = b }

unfoldable pub merge12 : CopyDef → CopyDef
unfolding merge
merge12 c = let (a, b) = merge c.dim1 c.dim2 in record c { dim1 = a; dim2 = b }

unfoldable pub merge20 : CopyDef → CopyDef
unfolding merge
merge20 c = let (a, b) = merge c.dim2 c.dim0 in record c { dim2 = a; dim0 = b }

unfoldable pub merge21 : CopyDef → CopyDef
unfolding merge
merge21 c = let (a, b) = merge c.dim2 c.dim1 in record c { dim2 = a; dim1 = b }

unfoldable pub clear_strides : Dimension → Dimension
clear_strides d = if d.count == 1 then with_strides d.count 0 0 else d

unfoldable pub clear_dims : CopyDef → CopyDef
unfolding clear_strides
clear_dims c = record c {
  dim0 = clear_strides c.dim0;
  dim1 = clear_strides c.dim1;
  dim2 = clear_strides c.dim2;
}

-- The test of the loops that sort the dimensions.
abbrev pub is_after : Dimension → Dimension → Bool
is_after a b =
    (a.count == 1 && not (b.count == 1))
    || ltb b.dst_stride a.dst_stride
    || (a.dst_stride == b.dst_stride && ltb b.src_stride a.src_stride)

unfoldable pub order01 : CopyDef → CopyDef
order01 c = if is_after c.dim0 c.dim1 then record c { dim0 = c.dim1; dim1 = c.dim0 } else c

unfoldable pub order02 : CopyDef → CopyDef
order02 c = if is_after c.dim0 c.dim2 then record c { dim0 = c.dim2; dim2 = c.dim0 } else c

unfoldable pub order12 : CopyDef → CopyDef
order12 c = if is_after c.dim1 c.dim2 then record c { dim1 = c.dim2; dim2 = c.dim1 } else c

-- A dimension of one element takes the strides before it.
unfoldable pub fill_strides : ℕ → ℕ → Dimension → Dimension
fill_strides src_stride dst_stride d =
    if d.count == 1 then with_strides d.count src_stride dst_stride else d

unfoldable pub fill_dims : CopyDef → CopyDef
unfolding fill_strides
fill_dims c =
    let d0 = fill_strides c.element_size c.element_size c.dim0 in
    let d1 = fill_strides d0.src_stride d0.dst_stride c.dim1 in
    let d2 = fill_strides d1.src_stride d1.dst_stride c.dim2 in
    record c { dim0 = d0; dim1 = d1; dim2 = d2 }

abbrev pub nothing : CopyDef
nothing = record {
  element_size = 0;
  src_offset = 0;
  dst_offset = 0;
  dim0 = with_strides 0 1 1;
  dim1 = with_strides 0 1 1;
  dim2 = with_strides 0 1 1;
}

unfoldable pub merge_dims : CopyDef → CopyDef
unfolding merge01 merge02 merge10 merge12 merge20 merge21
merge_dims c = merge21 (merge20 (merge12 (merge10 (merge02 (merge01 c)))))

unfoldable pub order_dims : CopyDef → CopyDef
unfolding order01 order02 order12
order_dims c = order12 (order02 (order01 c))

-- The outer loop over the contiguous dimensions runs three times.
abbrev pub rearrange : CopyDef → CopyDef
rearrange c =
    fill_dims (order_dims (clear_dims (merge_dims (absorb_dims (absorb_dims (absorb_dims c))))))

unfoldable pub simplify : CopyDef → Result CopyDef
unfolding number_of_bytes_copied absorb_dims merge_dims clear_dims order_dims fill_dims
simplify c =
    number_of_bytes_copied c >>= λ bytes. if bytes == 0 then ok nothing else ok (rearrange c)

-- The rounds of a loop one after the other.
abbrev pub for_each {ℓ} : {A : Type ℓ} → ℕ → (ℕ → List A) → List A
for_each zero body = []
for_each (suc n) body = for_each n body ++ body n

-- The bytes that the calls of memcpy in execute_copy_impl copy, in order: the place of each in the
-- source and in the destination. Pointers wrap as a size_t does.
unfoldable pub execute_copy_impl : CopyDef → List (ℕ × ℕ)
execute_copy_impl c = for_each c.dim2.count λ i2. for_each c.dim1.count λ i1.
    for_each c.dim0.count λ i0. for_each c.element_size λ byte.
      (
        wrap (
            c.src_offset
            + i0 * c.dim0.src_stride
            + i1 * c.dim1.src_stride
            + i2 * c.dim2.src_stride
            + byte),
        wrap (
            c.dst_offset
            + i0 * c.dim0.dst_stride
            + i1 * c.dim1.dst_stride
            + i2 * c.dim2.dst_stride
            + byte),
      )
      ∷ []

unfoldable pub execute_copy : CopyDef → Result (List (ℕ × ℕ))
unfolding simplify execute_copy_impl
execute_copy c = simplify c >>= λ d. ok (execute_copy_impl d)

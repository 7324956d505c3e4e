-- ===== src/Examples/Memops.antt =====
-- Examples for src/memops/types.cpp and host_copy.cpp.
use mathlib.Core.List.{Memᴰ}
use kmm.Prelude.{ℕ, ◌≡◌, ◌↔◌, refl, List, arith}
use kmm.Prelude.Results.{ok}
use kmm.Prelude.Int.{◌*ℤ◌}
use kmm.Memops.{
  CopyDef, with_strides, copy_def, add_dimension, number_of_bytes_copied, execute_copy_impl,
  execute_copy,
}
use kmm.Memops.Pairs.{Copies}
use kmm.Memops.Extend.{Repeated}
use kmm.Memops.AddDimension.{add_dimension-Repeated}
use kmm.Memops.Execute.{execute_copy_lem}

-- Two rows of three elements of 4 bytes, into rows of five elements from the second row on.
abbrev rows : CopyDef
rows = record (copy_def 12) { dst_offset = 20; dim0 = with_strides 2 12 20 }

bytes : number_of_bytes_copied rows ≡ ok 24
unfolding number_of_bytes_copied ◌*ℤ◌
bytes = refl

execute_copy_lem_example :
    (moved : List (ℕ × ℕ)) × (execute_copy rows ≡ ok moved)
    × ((src dst : ℕ) → Memᴰ (src, dst) moved ↔ Memᴰ (src, dst) (execute_copy_impl rows))
execute_copy_lem_example = execute_copy_lem rows 24 bytes

second_axis : add_dimension 2 0 1 12 20 (copy_def 12) ≡ ok rows
unfolding add_dimension
second_axis = refl

-- The second axis of a copy of rows of 12 bytes.
add_dimension-Repeated_example :
    Copies rows 15 43 ↔ Repeated 2 0 1 12 20 (Copies (copy_def 12)) 15 43
add_dimension-Repeated_example =
    add_dimension-Repeated 2 0 1 12 20 (copy_def 12) rows
      (record {
        element = omega arith;
        first = omega arith;
        second = omega arith;
        third = omega arith;
      })
      second_axis 15 43

-- ===== src/Examples/Integers.antt =====
-- An example for include/kmm/utils/integer_fun.hpp.
use kmm.Prelude.{◌+◌, ◌*◌, ◌≤◌, ◌<◌, arith}
use kmm.Integers.{div_floor, div_ceil, div_ceil-covers}

div_ceil-covers_example :
    (div_floor 10 4 * 4 ≤ 10)
    × (10 < div_floor 10 4 * 4 + 4)
    × (10 ≤ div_ceil 10 4 * 4)
    × (div_ceil 10 4 * 4 < 10 + 4)
div_ceil-covers_example = div_ceil-covers 10 4 (omega arith)

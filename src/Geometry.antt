-- ===== src/Geometry.antt =====
-- The index geometry of include/kmm/utils: range.hpp, point.hpp, dim.hpp, fixed_vector.hpp and
-- bounds.hpp. The index type is int64_t; a value of it is a mathematical integer here, since the
-- source's arithmetic on it is undefined where it overflows.
pub mod Range
pub mod Bounds
pub mod Sets

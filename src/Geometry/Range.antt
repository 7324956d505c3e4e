-- ===== src/Geometry/Range.antt =====
-- include/kmm/utils/range.hpp at one index type.
use kmm.Prelude.{Bool, not, ◌&&◌, ◌||◌, if◌then◌else◌}
use kmm.Prelude.Int.{ℤ, pos, ◌+ℤ◌, ◌-ℤ◌, ltb_ℤ, leb_ℤ}

pub record Range : Type 0 where
  pub begin : ℤ
  pub end : ℤ

-- The constructor of one argument.
abbrev pub up_to : ℤ → Range
up_to end = record { begin = pos 0; end = end }

abbrev pub is_empty : Range → Bool
is_empty r = leb_ℤ r.end r.begin

abbrev pub contains : Range → ℤ → Bool
contains r index = not (ltb_ℤ index r.begin) && ltb_ℤ index r.end

abbrev pub contains_range : Range → Range → Bool
contains_range r that =
    is_empty that || (not (ltb_ℤ that.begin r.begin) && not (ltb_ℤ r.end that.end))

abbrev pub overlaps : Range → Range → Bool
overlaps r that =
    ltb_ℤ r.begin r.end
    && ltb_ℤ that.begin that.end
    && ltb_ℤ r.begin that.end
    && ltb_ℤ that.begin r.end

abbrev pub intersection : Range → Range → Range
intersection r that = record {
  begin = if ltb_ℤ that.begin r.begin then r.begin else that.begin;
  end = if ltb_ℤ r.end that.end then r.end else that.end;
}

unfoldable pub size : Range → ℤ
size r = if leb_ℤ r.begin r.end then r.end -ℤ r.begin else pos 0

-- Returns the tail, and the range that is left.
unfoldable pub split_tail : Range → ℤ → Range × Range
split_tail r mid =
    let mid = if ltb_ℤ mid r.begin then r.begin else mid in
    let mid = if ltb_ℤ r.end mid then r.end else mid in
    (record { begin = mid; end = r.end }, record r { end = mid })

abbrev pub shift_by : Range → ℤ → Range
shift_by r shift = record { begin = r.begin +ℤ shift; end = r.end +ℤ shift }

-- ===== src/Span/Examples.antt =====
-- The theorems about the ranges and spans of src/utils.rs at concrete values.
use plingo.Prelude.{◌≤◌, ◌≡◌, ◌↔◌, true, some, arith}
use plingo.Span.Range.{
  RangeOrPoint, range, point, start, end, is_point, covers, inside, intersection,
}
use plingo.Span.Bytes.{HasByte, IsNormal, intersection_lem, covers_iff}

range-IsNormal : IsNormal (range 2 5)
unfolding start end is_point
range-IsNormal = record { ordered = omega arith; proper = λ e. omega arith }

intersection_lem_example :
    (HasByte (range 2 5) 4 × HasByte (range 4 9) 4)
    ↔ ((r : RangeOrPoint) × (intersection (range 2 5) (range 4 9) ≡ some r) × HasByte r 4)
intersection_lem_example = intersection_lem (range 2 5) (range 4 9) 4

covers_iff_example :
    ((covers (range 2 5) (point 3) ≡ true)
      ↔ ((start (range 2 5) ≤ start (point 3)) × (end (point 3) ≤ end (range 2 5))))
    × (inside (point 3) (range 2 5) ≡ covers (range 2 5) (point 3))
covers_iff_example = covers_iff (range 2 5) (point 3)

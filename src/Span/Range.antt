-- ===== src/Span/Range.antt =====
-- `RangeOrPoint` of src/utils.rs at byte offsets, with the trait `RangeExt`.
use plingo.Prelude.{
  ℕ, min, max, Bool, true, false, ◌&&◌, ◌==◌, ltb, leb, if◌then◌else◌, Option, none, some,
}

pub data RangeOrPoint : Type 0 where
  range : ℕ → ℕ → RangeOrPoint
  point : ℕ → RangeOrPoint

unfoldable pub from_range : ℕ → ℕ → RangeOrPoint
from_range s e = if s == e then point s else range s e

unfoldable pub start : RangeOrPoint → ℕ
start (range s e) = s
start (point o) = o

unfoldable pub end : RangeOrPoint → ℕ
end (range s e) = e
end (point o) = o

unfoldable pub is_point : RangeOrPoint → Bool
is_point (range s e) = false
is_point (point o) = true

-- `From<(T, T)>` and `From<RangeOrPoint<T>>`.
unfoldable pub of_pair : ℕ × ℕ → RangeOrPoint
of_pair (s, e) = from_range s e

unfoldable pub to_pair : RangeOrPoint → ℕ × ℕ
to_pair (range s e) = (s, e)
to_pair (point o) = (o, o)

unfoldable pub covers : RangeOrPoint → RangeOrPoint → Bool
covers a b = leb (start a) (start b) && leb (end b) (end a)

unfoldable pub inside : RangeOrPoint → RangeOrPoint → Bool
inside a b = leb (start b) (start a) && leb (end a) (end b)

unfoldable pub overlaps : RangeOrPoint → RangeOrPoint → Bool
overlaps a b = ltb (start a) (end b) && ltb (start b) (end a)

unfoldable pub union : RangeOrPoint → RangeOrPoint → RangeOrPoint
union a b = from_range (min (start a) (start b)) (max (end a) (end b))

unfoldable pub intersection : RangeOrPoint → RangeOrPoint → Option RangeOrPoint
intersection a b =
    let s = max (start a) (start b) in
    let e = min (end a) (end b) in if ltb s e then some (from_range s e) else none

unfoldable pub trim_to : RangeOrPoint → ℕ → RangeOrPoint
trim_to a bound = from_range (min (start a) bound) (min (end a) bound)

-- ===== src/Span/Located.antt =====
-- `Span` of src/utils.rs: a byte range in the document of a URI. The URI type, of the crate
-- `fluent_uri`, is a parameter with its equality test.
use plingo.Prelude.{
  ℕ, ◌+◌, ◌-◌, ◌^◌, min, Bool, ◌&&◌, ◌==◌, ltb, if◌then◌else◌, Option, none, some, ◌>>=◌,
}
use plingo.Span.Range
use plingo.Span.Range.{RangeOrPoint, range, point}

-- `usize::MAX` and `usize::saturating_add` on a 64-bit machine.
abbrev pub usize_max : ℕ
usize_max = 2 ^ 64 - 1

abbrev pub saturating_add : ℕ → ℕ → ℕ
saturating_add a b = min usize_max (a + b)

pub record Span {ℓ} (Uri : Type ℓ) : Type ℓ where
  pub uri : Uri
  pub bytes : RangeOrPoint

-- `SpanError::IllegalSpan`; `InvalidUri` comes only from the parser of URIs.
pub data SpanError : Type 0 where
  illegal_span : ℕ → ℕ → SpanError

pub data SpanResult {ℓ} (Uri : Type ℓ) : Type ℓ where
  ok : Span Uri → SpanResult Uri
  err : SpanError → SpanResult Uri

module _ {ℓ} {Uri : Type ℓ} where
  unfoldable pub new_uri : Uri → ℕ → ℕ → SpanResult Uri
  new_uri uri start end =
      if ltb end start
      then err (illegal_span start end)
      else ok (record { uri = uri; bytes = Range.from_range start end })

  unfoldable pub point_uri : Uri → ℕ → SpanResult Uri
  unfolding new_uri
  point_uri uri offset = new_uri uri offset offset

  -- `trim`, for a source of `len_bytes` bytes.
  unfoldable pub trim : Span Uri → ℕ → Span Uri
  trim s len_bytes = record s { bytes = Range.trim_to s.bytes len_bytes }

  unfoldable pub map_range : (RangeOrPoint → RangeOrPoint) → Span Uri → Span Uri
  map_range f s = record s { bytes = f s.bytes }

abbrev pub freed_right : RangeOrPoint → RangeOrPoint
freed_right (range start end) = range start usize_max
freed_right (point offset) = range offset usize_max

abbrev pub freed_left : RangeOrPoint → RangeOrPoint
freed_left (range start end) = range 0 end
freed_left (point offset) = if offset == 0 then point offset else range 0 offset

abbrev pub extended_right : ℕ → RangeOrPoint → RangeOrPoint
extended_right amount (range start end) = range start (saturating_add end amount)
extended_right amount (point offset) = range offset (saturating_add offset amount)

module _ {ℓ} {Uri : Type ℓ} where
  unfoldable pub free_right : Span Uri → Span Uri
  unfolding map_range
  free_right = map_range freed_right

  unfoldable pub free_left : Span Uri → Span Uri
  unfolding map_range
  free_left = map_range freed_left

  unfoldable pub extend_right : Span Uri → ℕ → Span Uri
  unfolding map_range
  extend_right s amount = map_range (extended_right amount) s

module _ {ℓ} {Uri : Type ℓ} (same_uri : Uri → Uri → Bool) where
  unfoldable pub span_covers : Span Uri → Span Uri → Bool
  span_covers a b = same_uri a.uri b.uri && Range.covers a.bytes b.bytes

  unfoldable pub span_inside : Span Uri → Span Uri → Bool
  span_inside a b = same_uri a.uri b.uri && Range.inside a.bytes b.bytes

  unfoldable pub span_overlaps : Span Uri → Span Uri → Bool
  span_overlaps a b = same_uri a.uri b.uri && Range.overlaps a.bytes b.bytes

  unfoldable pub span_union : Span Uri → Span Uri → Option (Span Uri)
  span_union a b =
      if same_uri a.uri b.uri
      then some (record { uri = a.uri; bytes = Range.union a.bytes b.bytes })
      else none

  unfoldable pub span_intersection : Span Uri → Span Uri → Option (Span Uri)
  span_intersection a b =
      if same_uri a.uri b.uri
      then (Range.intersection a.bytes b.bytes >>= λ r. some (record { uri = a.uri; bytes = r }))
      else none

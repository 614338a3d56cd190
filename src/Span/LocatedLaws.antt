-- ===== src/Span/LocatedLaws.antt =====
-- What the constructors and the edits of `Span` (src/utils.rs) guarantee.
use plingo.Prelude.{ℕ, ◌+◌, ◌≤◌, ◌<◌, ◌≡◌, refl, true, arith, ge→ltb, lt→ltb, ==_iff}
use plingo.Span.Range.{RangeOrPoint, range, point, from_range, start, end, covers}
use plingo.Span.Bytes.{IsNormal, from_range-IsNormal, start-from_range, end-from_range}
use plingo.Span.Located.{
  Span, illegal_span, ok, err, new_uri, point_uri, usize_max, freed_right, freed_left,
  extended_right,
}

module _ {ℓ} {Uri : Type ℓ} where
  -- Ends in order make a span, which is normal and has those ends and that URI.
  pub new_uri_ok :
      (uri : Uri) (s e : ℕ)
      → s ≤ e
      → (sp : Span Uri) × (new_uri uri s e ≡ ok sp)
        × IsNormal sp.bytes
        × (start sp.bytes ≡ s)
        × (end sp.bytes ≡ e)
        × (sp.uri ≡ uri)
  unfolding new_uri
  new_uri_ok uri s e h = (
    record { uri = uri; bytes = from_range s e },
    rw (ge→ltb e s h),
    from_range-IsNormal s e h,
    start-from_range s e,
    end-from_range s e,
    refl,
  )

  -- Ends out of order make no span and are reported in the error; a point is always a span.
  pub new_uri_err :
      (uri : Uri) (s e : ℕ)
      → e < s
      → (new_uri uri s e ≡ err (illegal_span s e))
        × (point_uri uri s ≡ ok (record { uri = uri; bytes = point s }))
  unfolding new_uri point_uri from_range
  new_uri_err uri s e h = (rw (lt→ltb e s h), rw (ge→ltb s s (omega arith), (==_iff s s).1 refl))

-- Widening covers the range that it starts from and keeps its far end: `free_right` keeps the start
-- and reaches the greatest offset, `free_left` keeps the end and reaches 0, and `extend_right` keeps
-- the start and, below the greatest offset, moves the end by the amount.
pub widening :
    (r : RangeOrPoint) (amount : ℕ)
    → start r ≤ end r
    → end r + amount ≤ usize_max
    → (covers (freed_right r) r ≡ true)
      × (covers (freed_left r) r ≡ true)
      × (covers (extended_right amount r) r ≡ true)
      × (start (freed_right r) ≡ start r)
      × (end (freed_right r) ≡ usize_max)
      × (start (freed_left r) ≡ 0)
      × (end (freed_left r) ≡ end r)
      × (start (extended_right amount r) ≡ start r)
      × (end (extended_right amount r) ≡ end r + amount)
unfolding covers start end
widening (range s e) amount h k = ground arith
widening (point o) amount h k = ground arith

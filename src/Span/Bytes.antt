-- ===== src/Span/Bytes.antt =====
-- The operations on ranges of src/utils.rs, read as sets of byte positions.
use plingo.Prelude.{
  ℕ, ◌≤◌, ◌<◌, min, max, ◌≡◌, ◌↔◌, refl, ap₂, true, false, ◌==◌, arith, some, Bool-cases, inl, inr,
  ==_iff,
}
use plingo.Span.Range.{
  RangeOrPoint, range, point, from_range, start, end, is_point, of_pair, to_pair, covers, inside,
  overlaps, union, intersection, trim_to,
}

-- The bytes of a range: its start included, its end not. A point has none.
abbrev pub HasByte : RangeOrPoint → ℕ → Type 0
HasByte r b = (start r ≤ b) × (b < end r)

-- Ends in order, and equal ends only in a point.
pub record IsNormal (r : RangeOrPoint) : Type 0 where
  pub ordered : start r ≤ end r
  pub proper : is_point r ≡ false → start r < end r

pub start-from_range : (s e : ℕ) → start (from_range s e) ≡ s
unfolding from_range start
start-from_range s e = ground arith

pub end-from_range : (s e : ℕ) → end (from_range s e) ≡ e
unfolding from_range end
end-from_range s e = ground arith

pub from_range-IsNormal : (s e : ℕ) → s ≤ e → IsNormal (from_range s e)
unfolding from_range start end is_point
from_range-IsNormal s e h = ground arith

proper_range : {a b : ℕ} → IsNormal (range a b) → a < b
unfolding start end is_point
proper_range n = n.proper refl

-- A pair is given back by the range made of it, and a normal range by its pair.
pub pair_round_trip :
    (r : RangeOrPoint) (s e : ℕ)
    → IsNormal r
    → (of_pair (to_pair r) ≡ r) × (to_pair (of_pair (s, e)) ≡ (s, e))
unfolding of_pair to_pair from_range
pair_round_trip r s e n = (of_to r n, to_of)
  where
    of_to : (r : RangeOrPoint) → IsNormal r → of_pair (to_pair r) ≡ r
    of_to (range a b) n = let less : a < b = proper_range n in ground arith
    of_to (point o) n = ground arith

    to_of : to_pair (of_pair (s, e)) ≡ (s, e)
    to_of = elim (Bool-cases (s == e)) [
      | inl p ↦ let q : s ≡ e = (==_iff s e).0 p in rw (p, q)
      | inr p ↦ rw p
    ]

-- Between ranges with at least a byte each, `overlaps` holds exactly where they share one.
pub overlaps_iff :
    (a b : RangeOrPoint)
    → start a < end a
    → start b < end b
    → (overlaps a b ≡ true) ↔ ((byte : ℕ) × HasByte a byte × HasByte b byte)
unfolding overlaps
overlaps_iff a b h k =
    (λ o. (max (start a) (start b), ground arith, ground arith), λ s. ground arith)

-- The intersection has exactly the bytes that both ranges have: a shared byte lies in it, and it
-- has no others.
pub intersection_lem :
    (a b : RangeOrPoint) (byte : ℕ)
    → (HasByte a byte × HasByte b byte)
      ↔ ((r : RangeOrPoint) × (intersection a b ≡ some r) × HasByte r byte)
unfolding intersection
intersection_lem a b byte = (
  λ both. (
    from_range (max (start a) (start b)) (min (end a) (end b)),
    ground arith,
    rw (start-from_range, end-from_range) (omega arith),
  ),
  λ found. back found.0 found.1 found.2,
)
  where
    back :
        (r : RangeOrPoint)
        → intersection a b ≡ some r
        → HasByte r byte
        → HasByte a byte × HasByte b byte
    back r e h = ground (
      arith,
      start-from_range (max (start a) (start b)) (min (end a) (end b)),
      end-from_range (max (start a) (start b)) (min (end a) (end b)),
    )

-- `covers` and `inside` are one relation read both ways: that of lying between the ends.
pub covers_iff :
    (a b : RangeOrPoint)
    → ((covers a b ≡ true) ↔ ((start a ≤ start b) × (end b ≤ end a))) × (inside b a ≡ covers a b)
unfolding covers inside
covers_iff a b = (ground arith, refl)

-- The union covers both ranges, and every range that covers both covers the union.
pub union_least :
    (a b c : RangeOrPoint)
    → covers c a ≡ true
    → covers c b ≡ true
    → (covers (union a b) a ≡ true) × (covers (union a b) b ≡ true) × (covers c (union a b) ≡ true)
unfolding union covers
union_least a b c h k =
    rw
      (
        start-from_range (min (start a) (start b)) (max (end a) (end b)),
        end-from_range (min (start a) (start b)) (max (end a) (end b)),
      )
      (ground arith, ground arith, ground arith)

-- Trimming a range in order to a bound keeps exactly the bytes below it, keeps the range normal, and
-- changes nothing the second time.
pub trim_to_lem :
    (a : RangeOrPoint) (bound byte : ℕ)
    → start a ≤ end a
    → (HasByte (trim_to a bound) byte ↔ (HasByte a byte × (byte < bound)))
      × IsNormal (trim_to a bound)
      × (trim_to (trim_to a bound) bound ≡ trim_to a bound)
unfolding trim_to
trim_to_lem a bound byte h = (
  rw (start-from_range, end-from_range) (λ t. omega arith, λ t. omega arith),
  from_range-IsNormal (min (start a) bound) (min (end a) bound) (omega arith),
  rw (start-from_range, end-from_range) (ap₂ from_range (omega arith) (omega arith)),
)

-- ===== src/Tape/OrderKey.antt =====
-- `LeafOrderKey` of src/framework/tape.rs: a finite binary fraction, its bits after the point.
use plingo.Prelude.{
  ℕ, zero, suc, ◌+◌, ◌-◌, ◌==◌, is_lt, if◌then◌else◌, Option, none, some, List, [], ◌∷◌, ◌++◌,
  length, take, replicate,
}
use Prim.Native.Nat.{compare, Ordering}

abbrev pub LeafOrderKey : Type 0
LeafOrderKey = List ℕ

-- `Ord::cmp`: bit by bit, where the bits left out are 0.
unfoldable pub cmp : LeafOrderKey → LeafOrderKey → Ordering
cmp [] [] = Ordering.eq
cmp [] (c ∷ cs) = elim (compare 0 c) [
  | Ordering.eq ↦ cmp [] cs
  | Ordering.lt ↦ Ordering.lt
  | Ordering.gt ↦ Ordering.gt
]
cmp (b ∷ bs) [] = elim (compare b 0) [
  | Ordering.eq ↦ cmp bs []
  | Ordering.lt ↦ Ordering.lt
  | Ordering.gt ↦ Ordering.gt
]
cmp (b ∷ bs) (c ∷ cs) = elim (compare b c) [
  | Ordering.eq ↦ cmp bs cs
  | Ordering.lt ↦ Ordering.lt
  | Ordering.gt ↦ Ordering.gt
]

-- Zeros at the end are dropped.
unfoldable pub canonical : List ℕ → LeafOrderKey
canonical [] = []
canonical (b ∷ bs) = elim (canonical bs) [
  | [] ↦ if b == 0 then [] else b ∷ []
  | c ∷ cs ↦ b ∷ c ∷ cs
]

abbrev pub half : LeafOrderKey
half = 1 ∷ []

-- `Vec::resize` with zeros.
abbrev pub resize : List ℕ → ℕ → List ℕ
resize bits size = take size bits ++ replicate (size - length bits) 0

unfoldable pub with_increment_at : LeafOrderKey → ℕ → LeafOrderKey
with_increment_at key precision = canonical (resize key (precision - 1) ++ (1 ∷ []))

unfoldable pub before : LeafOrderKey → LeafOrderKey
before key = canonical (0 ∷ key)

unfoldable pub after : LeafOrderKey → LeafOrderKey
after key = with_increment_at key (length key + 1)

-- The loop of `between`, with fuel for its turns.
unfoldable pub search_between : ℕ → LeafOrderKey → LeafOrderKey → ℕ → Option LeafOrderKey
search_between zero left right precision = none
search_between (suc fuel) left right precision =
    let wider = search_between fuel left right (precision + 1) in
    let candidate = with_increment_at left precision in
    if is_lt (cmp candidate right) then some candidate else wider

unfoldable pub between : ℕ → Option LeafOrderKey → Option LeafOrderKey → Option LeafOrderKey
between fuel none none = some half
between fuel none (some right) = some (before right)
between fuel (some left) none = some (after left)
between fuel (some left) (some right) = search_between fuel left right (length left + 1)

-- ===== src/Tape/Build.antt =====
-- `LeafOrderKey::initial`, `build_balanced` and the leaves of `from_entries` and `rekey_between` of
-- src/framework/tape.rs.
use plingo.Prelude.{
  ℕ, zero, suc, ◌+◌, ◌*◌, ◌/◌, ◌%◌, ◌^◌, min, List, [], ◌∷◌, Option, none, some, take, drop, leb,
  if◌then◌else◌,
}
use plingo.Span.Located.{usize_max}
use plingo.Tape.OrderKey.{LeafOrderKey, canonical}
use plingo.Tape.Allocating.{Allocating, ◌>>=◌, returns, panics}
use plingo.Tape.Metric.{TapeEntry}
use plingo.Tape.Node.{TapeNode, leaf_max, make_leaf, make_branch}
use plingo.Tape.Split.{key_between}

-- The loop that finds how many bits a label needs, with fuel for its turns.
unfoldable pub initial_width : ℕ → ℕ → ℕ → ℕ → Option ℕ
initial_width zero width capacity total = none
initial_width (suc fuel) width capacity total =
    let wider = initial_width fuel (width + 1) (min usize_max (capacity * 2)) total in
    if leb capacity total then wider else some width

-- The bits of `numerator`, from the one at `width - 1` down.
unfoldable pub bits : ℕ → ℕ → List ℕ
bits zero numerator = []
bits (suc width) numerator = numerator / 2 ^ width % 2 ∷ bits width numerator

-- `LeafOrderKey::initial` with the width that its loop found.
abbrev pub initial_at : ℕ → ℕ → LeafOrderKey
initial_at width ordinal = canonical (bits width (ordinal + 1))

-- 64 turns, one for each bit of a `usize`.
abbrev pub initial : ℕ → ℕ → Option LeafOrderKey
initial ordinal total = elim (initial_width 64 0 1 total) [
  | none ↦ none
  | some width ↦ some (initial_at width ordinal)
]

-- `chunks(LEAF_MAX)`, a chunk for each unit of fuel at most.
unfoldable pub chunks : {T : Type 0} → ℕ → List T → List (List T)
chunks zero entries = []
chunks (suc fuel) [] = []
chunks (suc fuel) (x ∷ entries) =
    take leaf_max (x ∷ entries) ∷ chunks fuel (drop leaf_max (x ∷ entries))

abbrev pub key_initial : ℕ → ℕ → Allocating LeafOrderKey
key_initial ordinal total a = elim (initial ordinal total) [
  | none ↦ none
  | some key ↦ some (key, a)
]

module _ {T : Type 0} ⦃e : TapeEntry T⦄ where
  -- One level of `build_balanced`.
  unfoldable pub pair_level : List (TapeNode T) → Allocating (List (TapeNode T))
  pair_level [] = returns []
  pair_level (l ∷ []) = returns (l ∷ [])
  pair_level (l ∷ r ∷ nodes) = do
    node ← make_branch l r
    next ← pair_level nodes
    returns (node ∷ next)

  -- The loop of `build_balanced`, with fuel for its levels.
  unfoldable pub build_balanced : ℕ → List (TapeNode T) → Allocating (TapeNode T)
  unfolding pair_level
  build_balanced fuel [] = panics
  build_balanced fuel (node ∷ []) = returns node
  build_balanced zero (l ∷ r ∷ nodes) = panics
  build_balanced (suc fuel) (l ∷ r ∷ nodes) =
      pair_level (l ∷ r ∷ nodes) >>= λ next. build_balanced fuel next

  -- The leaves of `from_entries`.
  unfoldable pub initial_leaves : List (List T) → ℕ → ℕ → Allocating (List (TapeNode T))
  unfolding initial_width
  initial_leaves [] ordinal total = returns []
  initial_leaves (chunk ∷ rest) ordinal total = do
    order ← key_initial ordinal total
    node ← make_leaf chunk order
    nodes ← initial_leaves rest (ordinal + 1) total
    returns (node ∷ nodes)

  -- The leaves of `rekey_between`.
  unfoldable pub leaves_between :
      List (List T) → Option LeafOrderKey → Option LeafOrderKey → Allocating (List (TapeNode T))
  leaves_between [] previous upper = returns []
  leaves_between (chunk ∷ rest) previous upper = do
    order ← key_between previous upper
    node ← make_leaf chunk order
    nodes ← leaves_between rest (some order) upper
    returns (node ∷ nodes)

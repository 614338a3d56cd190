-- ===== src/Tape/Stable.antt =====
-- `StableTape` of src/framework/tape.rs: the root of a tree, or none. Each of its nodes is shared by
-- pointer in the program; here a node is a value, and its identity tells nodes apart.
use plingo.Prelude.{
  ℕ, ◌+◌, ◌-◌, ◌/◌, min, max, Bool, true, ◌&&◌, List, [], ◌∷◌, Option, none, some, length, is_lt,
  leb, if◌then◌else◌,
}
use plingo.Tape.OrderKey.{LeafOrderKey, cmp}
use plingo.Tape.Allocating.{Allocating, ◌>>=◌, returns}
use plingo.Tape.Metric.{SequenceMetric, TapeEntry, no_metric}
use plingo.Tape.Node.{TapeNode, leaf_max, len, node_metric, first_order, last_order, entries_of}
use plingo.Tape.Concat.{concat_nodes}
use plingo.Tape.Split.{split_node}
use plingo.Tape.Search.{node_get, prefix, rank_at_byte}
use plingo.Tape.Build.{chunks, build_balanced, initial_leaves, leaves_between}

abbrev pub StableTape : Type 0 → Type 0
StableTape T = Option (TapeNode T)

-- `is_none_or(|lower| lower < label)`
abbrev pub is_above : Option LeafOrderKey → LeafOrderKey → Bool
is_above none key = true
is_above (some lower) key = is_lt (cmp lower key)

abbrev pub is_below : Option LeafOrderKey → LeafOrderKey → Bool
is_below none key = true
is_below (some upper) key = is_lt (cmp key upper)

module _ {T : Type 0} where
  abbrev pub tape_len : StableTape T → ℕ
  tape_len none = 0
  tape_len (some root) = len root

  abbrev pub first_order_key : StableTape T → Option LeafOrderKey
  first_order_key none = none
  first_order_key (some root) = some (first_order root)

  abbrev pub last_order_key : StableTape T → Option LeafOrderKey
  last_order_key none = none
  last_order_key (some root) = some (last_order root)

  -- The entries that `iter` yields, in order.
  abbrev pub tape_entries : StableTape T → List T
  tape_entries none = []
  tape_entries (some root) = entries_of root

  abbrev pub get : StableTape T → ℕ → Option T
  get none rank = none
  get (some root) rank = if leb (len root) rank then none else node_get root rank

  unfoldable pub fits_between : StableTape T → Option LeafOrderKey → Option LeafOrderKey → Bool
  fits_between none lower upper = true
  fits_between (some root) lower upper =
      is_above lower (first_order root) && is_below upper (last_order root)

module _ {T : Type 0} ⦃e : TapeEntry T⦄ where
  abbrev pub tape_metric : StableTape T → SequenceMetric
  tape_metric none = no_metric
  tape_metric (some root) = node_metric root

  abbrev pub metric_before : StableTape T → ℕ → SequenceMetric
  metric_before none rank = no_metric
  metric_before (some root) rank = prefix root (min rank (len root))

  abbrev pub lexical_rank_at_byte_detailed : StableTape T → ℕ → ℕ × ℕ
  lexical_rank_at_byte_detailed none byte_offset = (0, 0)
  lexical_rank_at_byte_detailed (some root) byte_offset = rank_at_byte root byte_offset 0 0

  -- A row of leaves becomes a root; 64 levels are enough for what memory holds.
  abbrev pub root_of : Allocating (List (TapeNode T)) → Allocating (StableTape T)
  root_of leaves = do row ← leaves; root ← build_balanced 64 row; returns (some root)

  unfoldable pub from_entries : List T → Allocating (StableTape T)
  unfolding chunks initial_leaves build_balanced
  from_entries [] = returns none
  from_entries (x ∷ entries) =
      let leaf_count = (length (x ∷ entries) + (leaf_max - 1)) / leaf_max in
      root_of (initial_leaves (chunks (length (x ∷ entries)) (x ∷ entries)) 0 leaf_count)

  abbrev pub relabel :
      List T → Option LeafOrderKey → Option LeafOrderKey → Allocating (StableTape T)
  relabel [] lower upper = returns none
  relabel (x ∷ entries) lower upper =
      root_of (leaves_between (chunks (length (x ∷ entries)) (x ∷ entries)) lower upper)

  unfoldable pub rekey_between :
      StableTape T → Option LeafOrderKey → Option LeafOrderKey → Allocating (StableTape T)
  unfolding fits_between chunks leaves_between build_balanced
  rekey_between tape lower upper =
      if fits_between tape lower upper
      then returns tape
      else relabel (tape_entries tape) lower upper

  unfoldable pub split_at : StableTape T → ℕ → Allocating (StableTape T × StableTape T)
  unfolding split_node
  split_at none rank = returns (none, none)
  split_at (some root) rank = split_node root (min rank (len root)) none

  unfoldable pub concat : StableTape T → StableTape T → Allocating (StableTape T)
  unfolding rekey_between concat_nodes
  concat left right = do
    fitted ← rekey_between right (last_order_key left) none
    concat_nodes left fitted

  unfoldable pub splice : StableTape T → ℕ → ℕ → StableTape T → Allocating (StableTape T)
  unfolding split_at rekey_between concat
  splice tape range_start range_end replacement = do
    let start = min range_start (tape_len tape)
    let stop = max (min range_end (tape_len tape)) start
    (front, remainder) ← split_at tape start
    (removed, back) ← split_at remainder (stop - start)
    fitted ← rekey_between replacement (last_order_key front) (first_order_key back)
    joined ← concat front fitted
    concat joined back

  unfoldable pub push : StableTape T → T → Allocating (StableTape T)
  unfolding from_entries concat
  push tape value = do one ← from_entries (value ∷ []); concat tape one

-- ===== src/Tape/Split.antt =====
-- `split_node` of src/framework/tape.rs.
use plingo.Prelude.{
  ℕ, ◌+◌, ◌-◌, Option, none, some, length, take, drop, leb, ltb, ◌==◌, if◌then◌else◌,
}
use plingo.Tape.OrderKey.{LeafOrderKey, between}
use plingo.Tape.Between.{size_of}
use plingo.Tape.Allocating.{Allocating, ◌>>=◌, returns}
use plingo.Tape.Metric.{TapeEntry}
use plingo.Tape.Node.{TapeNode, leaf, branch, len, first_order, make_leaf}
use plingo.Tape.Concat.{concat_nodes}

-- `LeafOrderKey::between`, with a turn of its loop for each bit of the upper label and one more.
abbrev pub key_between : Option LeafOrderKey → Option LeafOrderKey → Allocating LeafOrderKey
key_between left right a = elim (between (size_of right + 1) left right) [
  | none ↦ none
  | some key ↦ some (key, a)
]

abbrev pub TapePair : Type 0 → Type 0
TapePair T = Option (TapeNode T) × Option (TapeNode T)

module _ {T : Type 0} ⦃e : TapeEntry T⦄ where
  unfoldable pub split_node : TapeNode T → ℕ → Option LeafOrderKey → Allocating (TapePair T)
  unfolding between concat_nodes
  split_node (leaf i o x m) rank upper =
      let parted = (do
        left ← make_leaf (take rank x) o
        right_order ← key_between (some o) upper
        right ← make_leaf (drop rank x) right_order
        returns (some left, some right)) in
      if rank == 0
      then returns (none, some (leaf i o x m))
      else (if leb (length x) rank then returns (some (leaf i o x m), none) else parted)
  split_node (branch i l r n h m f z) rank upper =
      let below = (do
        (prefix, middle) ← split_node l rank (some (first_order r))
        suffix ← concat_nodes middle (some r)
        returns (prefix, suffix)) in
      let above = (do
        (middle, suffix) ← split_node r (rank - len l) upper
        prefix ← concat_nodes (some l) middle
        returns (prefix, suffix)) in
      if rank == 0
      then returns (none, some (branch i l r n h m f z))
      else (if leb n rank
          then returns (some (branch i l r n h m f z), none)
          else (if ltb rank (len l) then below else above))

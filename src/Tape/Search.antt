-- ===== src/Tape/Search.antt =====
-- The read-only descents of `StableTape` of src/framework/tape.rs, over the nodes below a root.
use plingo.Prelude.{
  ℕ, ◌+◌, ◌-◌, min, Bool, List, [], ◌∷◌, ◌++◌, Option, none, some, length, get_elem?, take, drop,
  leb, ltb, ◌==◌, ◌||◌, ◌&&◌, true, false, if◌then◌else◌, ◌>>=◌,
}
use Prim.Native.Nat.{Ordering}
use plingo.Tape.OrderKey.{LeafOrderKey, cmp}
use plingo.Tape.Metric.{SequenceMetric, TapeEntry, add, metric_of}
use plingo.Tape.Node.{TapeNode, leaf, branch, len, node_metric, last_order}

-- `order <= last`, of how they compare.
abbrev pub at_most : Ordering → Bool
at_most Ordering.lt = true
at_most Ordering.eq = true
at_most Ordering.gt = false

-- `==` on labels: bit by bit.
unfoldable pub label_eq : LeafOrderKey → LeafOrderKey → Bool
label_eq [] [] = true
label_eq [] (c ∷ cs) = false
label_eq (b ∷ bs) [] = false
label_eq (b ∷ bs) (c ∷ cs) = (b == c) && label_eq bs cs

-- `OccurrenceLocation`
pub record OccurrenceLocation : Type 0 where
  pub leaf_id : ℕ
  pub slot : ℕ
  pub order : LeafOrderKey

module _ {T : Type 0} where
  -- The loop of `get`.
  unfoldable pub node_get : TapeNode T → ℕ → Option T
  node_get (leaf i o x m) rank = get_elem? x rank
  node_get (branch i l r n h m f z) rank =
      let left = node_get l rank in
      let right = node_get r (rank - len l) in if ltb rank (len l) then left else right

  -- `rank_of_order` and `leaf_at_order`
  unfoldable pub rank_of_order : TapeNode T → LeafOrderKey → ℕ → Option ℕ
  rank_of_order (leaf i o x m) order base = if label_eq o order then some base else none
  rank_of_order (branch i l r n h m f z) order base =
      let left = rank_of_order l order base in
      let right = rank_of_order r order (base + len l) in
      if at_most (cmp order (last_order l)) then left else right

  unfoldable pub leaf_at_order : TapeNode T → LeafOrderKey → Option (TapeNode T)
  leaf_at_order (leaf i o x m) order = if label_eq o order then some (leaf i o x m) else none
  leaf_at_order (branch i l r n h m f z) order =
      let left = leaf_at_order l order in
      let right = leaf_at_order r order in
      if at_most (cmp order (last_order l)) then left else right

module _ {T : Type 0} ⦃e : TapeEntry T⦄ where
  -- `prefix` inside `metric_before`
  unfoldable pub prefix : TapeNode T → ℕ → SequenceMetric
  prefix (leaf i o x m) rank = metric_of (take (min rank (length x)) x)
  prefix (branch i l r n h m f z) rank =
      let left = prefix l rank in
      let right = prefix r (rank - len l) in
      if leb rank (len l) then left else add (node_metric l) right

  -- The loop over a leaf in `lexical_rank_at_byte_detailed`.
  unfoldable pub scan_leaf : List T → ℕ → ℕ → ℕ
  scan_leaf [] remaining rank = rank
  scan_leaf (x ∷ entries) remaining rank =
      let width = (e.metric x).source_bytes in
      let later = scan_leaf entries (remaining - width) (rank + 1) in
      if ltb remaining width then rank else later

  -- The descent of `lexical_rank_at_byte_detailed`: the rank, and the depth.
  unfoldable pub rank_at_byte : TapeNode T → ℕ → ℕ → ℕ → ℕ × ℕ
  unfolding scan_leaf
  rank_at_byte (leaf i o x m) remaining rank depth = (scan_leaf x remaining rank, depth + 1)
  rank_at_byte (branch i l r n h m f z) remaining rank depth =
      let bytes = (node_metric l).source_bytes in
      let left = rank_at_byte l remaining rank (depth + 1) in
      let right = rank_at_byte r (remaining - bytes) (rank + len l) (depth + 1) in
      if ltb remaining bytes then left else right

  -- The locations of the entries of a leaf from a slot on. A slot fits a u8, since a leaf has at most
  -- 64 entries.
  abbrev pub slots_from : ℕ → LeafOrderKey → List T → ℕ → List (ℕ × OccurrenceLocation)
  slots_from i o [] slot = []
  slots_from i o (x ∷ entries) slot =
      (e.stable_id x, record { leaf_id = i; slot = slot; order = o })
      ∷ slots_from i o entries (slot + 1)

  -- The slots from `start` up to `stop` of a leaf; `none` where the slice panics on an inverted range.
  abbrev pub slots_between :
      ℕ → LeafOrderKey → List T → ℕ → ℕ → Option (List (ℕ × OccurrenceLocation))
  slots_between i o x start stop =
      if leb start stop
      then some (slots_from i o (take (stop - start) (drop start x)) start)
      else none

  -- `collect_locations` for the ranks from `first` up to `past`, the node starting at rank `base`.
  unfoldable pub collect_locations : TapeNode T → ℕ → ℕ → ℕ → Option (List (ℕ × OccurrenceLocation))
  collect_locations (leaf i o x m) base first past =
      let start = first - base in
      let stop = min (past - base) (length x) in
      if leb (base + length x) first || leb past base
      then some []
      else slots_between i o x start stop
  collect_locations (branch i l r n h m f z) base first past =
      let left = collect_locations l base first past in
      let right = collect_locations r (base + len l) first past in
      let inside = left >>= λ a. right >>= λ b. some (a ++ b) in
      if leb (base + n) first || leb past base then some [] else inside

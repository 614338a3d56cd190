-- ===== src/Tape/Concat.antt =====
-- `rebalance` and `concat_nodes` of src/framework/tape.rs.
use plingo.Prelude.{ℕ, ◌+◌, Option, none, some, ◌++◌, length, leb, ltb, if◌then◌else◌}
use plingo.Seq.Join.{Tilt, left_tall, right_tall, even}
use plingo.Tape.Allocating.{Allocating, ◌>>=◌, returns, panics}
use plingo.Tape.Metric.{TapeEntry}
use plingo.Tape.Node.{TapeNode, leaf, branch, leaf_max, next_height, height, make_leaf, make_branch}

-- Which side is taller by more than one level.
unfoldable pub lean : ℕ → ℕ → Tilt
lean left_height right_height =
    if ltb (next_height right_height) left_height
    then left_tall
    else (if ltb (next_height left_height) right_height then right_tall else even)

module _ {T : Type 0} ⦃e : TapeEntry T⦄ where
  -- The double rotation to the right, about the right child of the left side.
  abbrev pub pivot_right : TapeNode T → TapeNode T → TapeNode T → Allocating (TapeNode T)
  pivot_right outer (leaf i o entries m) r = panics
  pivot_right outer (branch i pl pr n h m f z) r = do
    left_branch ← make_branch outer pl
    right_branch ← make_branch pr r
    make_branch left_branch right_branch

  abbrev pub rotate_right : TapeNode T → TapeNode T → Allocating (TapeNode T)
  rotate_right (leaf i o entries m) r = panics
  rotate_right (branch i ll lr n h m f z) r =
      if leb (height lr) (height ll)
      then (make_branch lr r >>= λ b. make_branch ll b)
      else pivot_right ll lr r

  abbrev pub pivot_left : TapeNode T → TapeNode T → TapeNode T → Allocating (TapeNode T)
  pivot_left l (leaf i o entries m) outer = panics
  pivot_left l (branch i pl pr n h m f z) outer = do
    left_branch ← make_branch l pl
    right_branch ← make_branch pr outer
    make_branch left_branch right_branch

  abbrev pub rotate_left_at : TapeNode T → TapeNode T → Allocating (TapeNode T)
  rotate_left_at l (leaf i o entries m) = panics
  rotate_left_at l (branch i rl rr n h m f z) =
      if leb (height rl) (height rr)
      then (make_branch l rl >>= λ b. make_branch b rr)
      else pivot_left l rl rr

  unfoldable pub rebalance : TapeNode T → TapeNode T → Allocating (TapeNode T)
  unfolding lean
  rebalance l r = elim (lean (height l) (height r)) [
    | left_tall ↦ rotate_right l r
    | right_tall ↦ rotate_left_at l r
    | even ↦ make_branch l r
  ]

  -- Two roots; the height of a leaf is 1, which is never the taller side.
  unfoldable pub concat_roots : TapeNode T → TapeNode T → Allocating (TapeNode T)
  unfolding rebalance
  concat_roots (leaf i o x m) (leaf j p y k) =
      if leb (length x + length y) leaf_max
      then make_leaf (x ++ y) o
      else make_branch (leaf i o x m) (leaf j p y k)
  concat_roots (leaf i o x m) (branch j rl rr n h k f z) = elim (lean 1 h) [
    | left_tall ↦ panics
    | right_tall ↦ concat_roots (leaf i o x m) rl >>= λ joined. rebalance joined rr
    | even ↦ make_branch (leaf i o x m) (branch j rl rr n h k f z)
  ]
  concat_roots (branch i ll lr n h m f z) (leaf j p y k) = elim (lean h 1) [
    | left_tall ↦ concat_roots lr (leaf j p y k) >>= λ joined. rebalance ll joined
    | right_tall ↦ panics
    | even ↦ make_branch (branch i ll lr n h m f z) (leaf j p y k)
  ]
  concat_roots (branch i ll lr n h m f z) (branch j rl rr q g k a b) = elim (lean h g) [
    | left_tall ↦ concat_roots lr (branch j rl rr q g k a b) >>= λ joined. rebalance ll joined
    | right_tall ↦ concat_roots (branch i ll lr n h m f z) rl >>= λ joined. rebalance joined rr
    | even ↦ make_branch (branch i ll lr n h m f z) (branch j rl rr q g k a b)
  ]

  unfoldable pub concat_nodes :
      Option (TapeNode T) → Option (TapeNode T) → Allocating (Option (TapeNode T))
  unfolding concat_roots
  concat_nodes none r = returns r
  concat_nodes (some l) none = returns (some l)
  concat_nodes (some l) (some r) = concat_roots l r >>= λ t. returns (some t)

-- ===== src/Tape/Examples.antt =====
-- The theorems about src/framework/tape.rs at concrete labels, trees and cursors.
use plingo.Prelude.{
  List, Bool, ◌==◌, ==_iff, false, ℕ, ◌+◌, ◌*◌, ◌≤◌, ◌<◌, ◌≡◌, refl, true, false, ◌⊎◌, some, none,
  [], ◌∷◌, arith,
}
use plingo.Tape.OrderKey.{LeafOrderKey, cmp, between}
use plingo.Tape.Between.{◌≺◌, InOrder, Between, between_lem}
use plingo.Tape.Allocator.{new}
use plingo.Tape.Allocating.{Returns}
use plingo.Tape.Metric.{combine, usize_entry}
use plingo.Tape.Node.{TapeNode, leaf_of, branch_of, IsValid, IsBalanced}
use plingo.Tape.ExactEq.{nodes_equal, exact_eq, exact_eq_same, exact_eq_lem}
use plingo.Tape.Concat.{concat_roots}
use plingo.Tape.Attach.{Concatenated}
use plingo.Tape.ConcatLaws.{concat_roots_lem}
use plingo.Tape.Split.{split_node}
use plingo.Tape.SplitLaws.{IsHalved}
use plingo.Tape.SplitNode.{split_node_lem}
use plingo.Tape.Build.{build_balanced}
use plingo.Tape.Levels.{OddRoot, build_balanced_odd}
use plingo.Tape.Stable.{
  tape_entries, from_entries, splice, concat, split_at, metric_before,
  lexical_rank_at_byte_detailed,
}
use plingo.Tape.Fitting.{IsTape, built_height, from_entries_lem}
use plingo.Tape.Parts.{split_bound, AreParts, tape_split_at_lem}
use plingo.Tape.Splice.{splice_cost, tape_splice_lem, concat_lem}
use plingo.Tape.ByteRank.{FirstAfter, lexical_rank_lem, metric_before_lem}
use plingo.Tape.Occurrence.{locations_in_range}
use plingo.Tape.Search.{OccurrenceLocation}
use plingo.Tape.Locations.{ids, AreResolved, locations_in_range_lem}
use plingo.Tape.Iter.{node, next, iter_range}
use plingo.Tape.IterLaws.{Yields, next_lem}
use plingo.Tape.RangeLaws.{range_remaining, AreRanges, iter_range_lem}
use plingo.Tape.Cursor.{TapeCursor, frame, advance, retreat, cursor_at}
use plingo.Tape.CursorLaws.{CursorAt}
use plingo.Tape.CursorMoves.{
  pathless, Advanced, Retreated, advance_lem, retreat_lem, cursor_at_lem, retreat-advance,
}

-- 1/4 and 3/8
halves-InOrder : InOrder (some (0 ∷ 1 ∷ [])) (some (0 ∷ 1 ∷ 1 ∷ []))
unfolding cmp
halves-InOrder = (refl, refl)

between_lem_example :
    Between
      (some (0 ∷ 1 ∷ []))
      (some (0 ∷ 1 ∷ 1 ∷ []))
      (between 4 (some (0 ∷ 1 ∷ [])) (some (0 ∷ 1 ∷ 1 ∷ [])))
between_lem_example =
    between_lem 4 (some (0 ∷ 1 ∷ [])) (some (0 ∷ 1 ∷ 1 ∷ [])) halves-InOrder (omega arith)

-- Two leaves under a branch, and a leaf to put in.
abbrev quarter : LeafOrderKey
quarter = 0 ∷ 1 ∷ []

abbrev half_label : LeafOrderKey
half_label = 1 ∷ []

abbrev left_leaf : TapeNode ℕ
left_leaf = leaf_of 1 quarter (10 ∷ 20 ∷ [])

abbrev right_leaf : TapeNode ℕ
right_leaf = leaf_of 2 half_label (30 ∷ [])

abbrev two_leaves : TapeNode ℕ
two_leaves = branch_of 3 left_leaf right_leaf

left_leaf-IsValid : IsValid left_leaf
left_leaf-IsValid = (omega arith, omega arith, refl, refl)

right_leaf-IsValid : IsValid right_leaf
right_leaf-IsValid = (omega arith, omega arith, refl, refl)

labels_ascend : quarter ≺ half_label
unfolding cmp
labels_ascend = refl

two_leaves-IsValid : IsValid two_leaves
two_leaves-IsValid =
    (left_leaf-IsValid, right_leaf-IsValid, refl, refl, refl, refl, refl, labels_ascend)

two_leaves-IsTape : IsTape none none 2 (10 ∷ 20 ∷ 30 ∷ []) (some two_leaves)
two_leaves-IsTape = record {
  valid = two_leaves-IsValid;
  above = tt;
  below = tt;
  holds = refl;
  high = omega arith;
}

right_leaf-IsTape : IsTape none none 1 (30 ∷ []) (some right_leaf)
right_leaf-IsTape = record {
  valid = right_leaf-IsValid;
  above = tt;
  below = tt;
  holds = refl;
  high = omega arith;
}

tape_splice_lem_example :
    Returns
      (splice_cost 2 1 1)
      (splice (some two_leaves) 1 2 (some right_leaf))
      new
      (IsTape none none 67 (10 ∷ 30 ∷ 30 ∷ []))
tape_splice_lem_example =
    tape_splice_lem 2 1 (10 ∷ 20 ∷ 30 ∷ []) (30 ∷ []) (some two_leaves) (some right_leaf) 1 2
      (omega arith) (omega arith) two_leaves-IsTape right_leaf-IsTape new (omega arith, omega arith)

concat_lem_example :
    Returns
      (2 * 1 + 3 * (2 + 65))
      (concat (some two_leaves) (some right_leaf))
      new
      (IsTape none none 66 (10 ∷ 20 ∷ 30 ∷ 30 ∷ []))
concat_lem_example =
    concat_lem 2 1 (10 ∷ 20 ∷ 30 ∷ []) (30 ∷ []) (some two_leaves) (some right_leaf) (omega arith)
      (omega arith) (omega arith) two_leaves-IsTape right_leaf-IsTape new (omega arith, omega arith)

tape_split_at_lem_example :
    Returns
      (split_bound 2)
      (split_at (some two_leaves) 1)
      new
      (AreParts none 2 (10 ∷ 20 ∷ 30 ∷ []) 1)
tape_split_at_lem_example =
    tape_split_at_lem none 2 (10 ∷ 20 ∷ 30 ∷ []) (some two_leaves) 1 (omega arith) (omega arith)
      two_leaves-IsTape new (omega arith, omega arith)

concat_roots_lem_example :
    Returns 6 (concat_roots left_leaf right_leaf) new (Concatenated left_leaf right_leaf)
concat_roots_lem_example =
    concat_roots_lem left_leaf right_leaf left_leaf-IsValid right_leaf-IsValid labels_ascend
      (omega arith) (omega arith) new (omega arith, omega arith)

split_node_lem_example : Returns 14 (split_node two_leaves 1 none) new (IsHalved two_leaves 1 none)
split_node_lem_example =
    split_node_lem two_leaves 1 none two_leaves-IsValid (omega arith) (omega arith) tt (omega arith)
      new (omega arith, omega arith)

from_entries_lem_example :
    Returns 6
      (from_entries {T = ℕ} (10 ∷ 20 ∷ 30 ∷ []))
      new
      (IsTape none none built_height (10 ∷ 20 ∷ 30 ∷ []))
from_entries_lem_example =
    from_entries_lem (10 ∷ 20 ∷ 30 ∷ []) (omega arith) new (omega arith, omega arith)

lexical_rank_lem_example :
    FirstAfter {T = ℕ} (10 ∷ 20 ∷ 30 ∷ []) 1 (lexical_rank_at_byte_detailed (some two_leaves) 1).0
    × ((lexical_rank_at_byte_detailed (some two_leaves) 1).1 ≤ 2)
lexical_rank_lem_example =
    lexical_rank_lem 2 (10 ∷ 20 ∷ 30 ∷ []) (some two_leaves) 1 two_leaves-IsTape

metric_before_lem_example :
    ((metric_before (some two_leaves) 2).lexical_count ≡ 2)
    × ((metric_before (some two_leaves) 2).semantic_count ≡ 0)
    × ((metric_before (some two_leaves) 2).source_bytes ≡ 2)
metric_before_lem_example =
    metric_before_lem 2 (10 ∷ 20 ∷ 30 ∷ []) (some two_leaves) 2 two_leaves-IsTape

locations_in_range_lem_example :
    (found : List (ℕ × OccurrenceLocation)) × (locations_in_range (some two_leaves) 1 3
      ≡ some found)
    × (ids found ≡ 20 ∷ 30 ∷ [])
    × AreResolved two_leaves found
locations_in_range_lem_example =
    locations_in_range_lem 2 (10 ∷ 20 ∷ 30 ∷ []) two_leaves 1 3 two_leaves-IsTape (omega arith)

next_lem_example : Yields (10 ∷ 20 ∷ 30 ∷ []) (next 5 (node two_leaves ∷ []))
next_lem_example = next_lem 5 (node two_leaves ∷ []) (two_leaves-IsValid, tt) (omega arith)

iter_range_lem_example :
    (range_remaining (iter_range (some two_leaves) 1 9) ≡ 20 ∷ 30 ∷ [])
    × AreRanges (iter_range (some two_leaves) 1 9)
iter_range_lem_example =
    iter_range_lem 2 (10 ∷ 20 ∷ 30 ∷ []) (some two_leaves) 1 9 two_leaves-IsTape

-- A cursor on the last entry of the two leaves.
abbrev last_cursor : TapeCursor ℕ
last_cursor = record { path = frame two_leaves true ∷ []; at_leaf = right_leaf; slot = 0; rank = 2 }

last_cursor-CursorAt : CursorAt (10 ∷ 20 ∷ 30 ∷ []) last_cursor
last_cursor-CursorAt = record {
  in_leaf = omega arith;
  valid = right_leaf-IsValid;
  on_path = ((refl, two_leaves-IsValid), tt);
  entries = refl;
  ranked = refl;
}

advance_lem_example : Advanced (10 ∷ 20 ∷ 30 ∷ []) last_cursor (advance last_cursor)
advance_lem_example = advance_lem (10 ∷ 20 ∷ 30 ∷ []) last_cursor last_cursor-CursorAt

retreat_lem_example : Retreated (10 ∷ 20 ∷ 30 ∷ []) last_cursor (retreat last_cursor)
retreat_lem_example = retreat_lem (10 ∷ 20 ∷ 30 ∷ []) last_cursor last_cursor-CursorAt

cursor_at_lem_example :
    ((2 < 3)
      × ((c : TapeCursor ℕ) × (cursor_at (some two_leaves) 2 ≡ some c)
          × (c.rank ≡ 2)
          × CursorAt (10 ∷ 20 ∷ 30 ∷ []) c))
    ⊎ ((3 ≤ 2) × (cursor_at (some two_leaves) 2 ≡ none))
cursor_at_lem_example = cursor_at_lem 2 (10 ∷ 20 ∷ 30 ∷ []) (some two_leaves) 2 two_leaves-IsTape

retreat-advance_example :
    (advance last_cursor ≡ some (false, pathless last_cursor))
    × (retreat (pathless last_cursor) ≡ some (false, pathless last_cursor))
retreat-advance_example =
    retreat-advance (10 ∷ 20 ∷ 30 ∷ []) last_cursor last_cursor-CursorAt (omega arith) refl

build_balanced_odd_example :
    Returns 4
      (build_balanced 3 (left_leaf ∷ left_leaf ∷ left_leaf ∷ left_leaf ∷ right_leaf ∷ []))
      new
      (λ t.
        OddRoot 3 (left_leaf ∷ left_leaf ∷ left_leaf ∷ left_leaf ∷ []) right_leaf t
        × (¬ IsBalanced t))
build_balanced_odd_example =
    build_balanced_odd 2 1 2 (left_leaf ∷ left_leaf ∷ left_leaf ∷ left_leaf ∷ []) right_leaf
      (refl, (refl, (refl, (refl, tt)))) refl refl (omega arith) (omega arith) (omega arith) new
      (omega arith, omega arith)

-- No two nodes are one by pointer.
abbrev never_same : TapeNode ℕ → TapeNode ℕ → Bool
never_same a b = false

abbrev relabelled : TapeNode ℕ
relabelled = branch_of 9 (leaf_of 7 quarter (10 ∷ 20 ∷ [])) (leaf_of 8 half_label (30 ∷ []))

exact_eq_lem_example : tape_entries (some two_leaves) ≡ tape_entries (some relabelled)
exact_eq_lem_example =
    exact_eq_lem never_same (λ a b. a == b) (some two_leaves) (some relabelled) (λ a b h. cc) ==_iff
      (exact_eq_same never_same (λ a b. a == b) (some two_leaves) (some relabelled) ==_iff
        (refl, refl, (refl, refl), (refl, refl)))

-- The same three entries in one leaf and in two: the hashes differ, and the tapes count as unequal.
abbrev one_leaf : TapeNode ℕ
one_leaf = leaf_of 4 half_label (10 ∷ 20 ∷ 30 ∷ [])

exact_eq_by_shape :
    (tape_entries (some one_leaf) ≡ tape_entries (some two_leaves))
    × (exact_eq never_same (λ a b. a == b) (some one_leaf) (some two_leaves) ≡ false)
unfolding exact_eq nodes_equal combine
exact_eq_by_shape = (refl, refl)

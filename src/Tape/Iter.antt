-- ===== src/Tape/Iter.antt =====
-- `TapeIter` and `TapeRangeIter` of src/framework/tape.rs: stacks of what is left to visit, the top
-- first. A turn of a loop takes one unit of fuel.
use plingo.Prelude.{
  ℕ, zero, suc, ◌+◌, ◌-◌, min, max, List, [], ◌∷◌, ◌||◌, Option, none, some, length, get_elem?, leb,
  ltb, if◌then◌else◌,
}
use plingo.Tape.Node.{TapeNode, leaf, branch, len}
use plingo.Tape.Stable.{StableTape}

pub data IterFrame (T : Type 0) : Type 0 where
  node : TapeNode T → IterFrame T
  entries_at : List T → ℕ → IterFrame T

-- A slice from an index up to an end; `Node` frames are never pushed.
pub data RangeFrame (T : Type 0) : Type 0 where
  range_at : List T → ℕ → ℕ → RangeFrame T

module _ {T : Type 0} where
  abbrev pub iter : StableTape T → List (IterFrame T)
  iter none = []
  iter (some root) = node root ∷ []

  -- Where a leaf has been reached: its entry, and what is left.
  abbrev pub yield_at : List T → ℕ → List (IterFrame T) → Option (T × List (IterFrame T))
  yield_at x index stack = elim (get_elem? x index) [
    | none ↦ none
    | some value ↦
        some (value, if ltb (index + 1) (length x) then entries_at x (index + 1) ∷ stack else stack)
  ]

  unfoldable pub next : ℕ → List (IterFrame T) → Option (Option (T × List (IterFrame T)))
  next fuel [] = some none
  next zero (frame ∷ stack) = none
  next (suc fuel) (node (leaf i o x m) ∷ stack) = next fuel (entries_at x 0 ∷ stack)
  next (suc fuel) (node (branch i l r n h m f z) ∷ stack) = next fuel (node l ∷ node r ∷ stack)
  next (suc fuel) (entries_at x index ∷ stack) = some (yield_at x index stack)

  unfoldable pub push_intersection :
      TapeNode T → ℕ → ℕ → ℕ → List (RangeFrame T) → List (RangeFrame T)
  push_intersection (leaf i o x m) base first past stack =
      let start = first - base in
      let stop = min (past - base) (length x) in
      if leb (base + length x) first || leb past base
      then stack
      else (if ltb start stop then range_at x start stop ∷ stack else stack)
  push_intersection (branch i l r n h m f z) base first past stack =
      let right = push_intersection r (base + len l) first past stack in
      let inside = push_intersection l base first past right in
      if leb (base + n) first || leb past base then stack else inside

  -- `iter_range`, its bounds clamped.
  unfoldable pub iter_range : StableTape T → ℕ → ℕ → List (RangeFrame T)
  unfolding push_intersection
  iter_range none range_start range_end = []
  iter_range (some root) range_start range_end =
      let first = min range_start (len root) in
      let past = max (min range_end (len root)) first in
      if ltb first past then push_intersection root 0 first past [] else []

  unfoldable pub range_next : List (RangeFrame T) → Option (T × List (RangeFrame T))
  range_next [] = none
  range_next (range_at x index stop ∷ stack) = elim (get_elem? x index) [
    | none ↦ none
    | some value ↦
        some (value, if ltb (index + 1) stop then range_at x (index + 1) stop ∷ stack else stack)
  ]

-- ===== src/Tape/Cursor.antt =====
-- `TapeCursor` of src/framework/tape.rs: a leaf, a slot in it, and the path of branches above, the
-- lowest first, each with the side that was taken. The root, which the cursor keeps alive and never
-- reads, is left out.
use plingo.Prelude.{
  ℕ, ◌+◌, ◌-◌, Bool, true, false, List, [], ◌∷◌, Option, none, some, length, get_elem?, ltb,
  if◌then◌else◌,
}
use plingo.Tape.Node.{TapeNode, leaf, branch, len}
use plingo.Tape.Stable.{StableTape}

pub record CursorFrame (T : Type 0) : Type 0 where
  pub node : TapeNode T
  pub went_right : Bool

pub record TapeCursor (T : Type 0) : Type 0 where
  pub path : List (CursorFrame T)
  pub at_leaf : TapeNode T
  pub slot : ℕ
  pub rank : ℕ

-- Where a loop over the path ends: at a new leaf, at the end of the path, or in code that is not
-- reached, since every node on a path is a branch.
pub data Climb (T : Type 0) : Type 0 where
  arrived : List (CursorFrame T) → TapeNode T → ℕ → Climb T
  exhausted : Climb T
  unreachable : Climb T

module _ {T : Type 0} where
  abbrev pub frame : TapeNode T → Bool → CursorFrame T
  frame n side = record { node = n; went_right = side }

  unfoldable pub descend_to_rank : TapeNode T → ℕ → List (CursorFrame T) → Climb T
  descend_to_rank (leaf i o x m) rank path = arrived path (leaf i o x m) rank
  descend_to_rank (branch i l r n h m f z) rank path =
      let left = descend_to_rank l rank (frame (branch i l r n h m f z) false ∷ path) in
      let right = descend_to_rank r (rank - len l) (frame (branch i l r n h m f z) true ∷ path) in
      if ltb rank (len l) then left else right

  unfoldable pub descend_left : TapeNode T → List (CursorFrame T) → Climb T
  descend_left (leaf i o x m) path = arrived path (leaf i o x m) 0
  descend_left (branch i l r n h m f z) path =
      descend_left l (frame (branch i l r n h m f z) false ∷ path)

  unfoldable pub descend_right : TapeNode T → List (CursorFrame T) → Climb T
  descend_right (leaf i o x m) path = arrived path (leaf i o x m) (length x - 1)
  descend_right (branch i l r n h m f z) path =
      descend_right r (frame (branch i l r n h m f z) true ∷ path)

  -- The loop of `advance`, for one frame.
  abbrev pub climb_past : TapeNode T → Bool → List (CursorFrame T) → Climb T → Climb T
  climb_past (leaf i o x m) side path later = unreachable
  climb_past (branch i l r n h m f z) true path later = later
  climb_past (branch i l r n h m f z) false path later =
      descend_left r (frame (branch i l r n h m f z) true ∷ path)

  unfoldable pub climb_right : List (CursorFrame T) → Climb T
  unfolding descend_left
  climb_right [] = exhausted
  climb_right (top ∷ path) = climb_past top.node top.went_right path (climb_right path)

  -- The loop of `retreat`, for one frame.
  abbrev pub climb_before : TapeNode T → Bool → List (CursorFrame T) → Climb T → Climb T
  climb_before (leaf i o x m) side path later = unreachable
  climb_before (branch i l r n h m f z) false path later = later
  climb_before (branch i l r n h m f z) true path later =
      descend_right l (frame (branch i l r n h m f z) false ∷ path)

  unfoldable pub climb_left : List (CursorFrame T) → Climb T
  unfolding descend_right
  climb_left [] = exhausted
  climb_left (top ∷ path) = climb_before top.node top.went_right path (climb_left path)

  -- The answer of a move and the cursor after it; none where the code is not reached. Where the path
  -- runs out, it has been popped.
  abbrev pub arrive : TapeCursor T → ℕ → Climb T → Option (Bool × TapeCursor T)
  arrive c rank (arrived path found slot) =
      some (true, record { path = path; at_leaf = found; slot = slot; rank = rank })
  arrive c rank exhausted =
      some (false, record { path = []; at_leaf = c.at_leaf; slot = c.slot; rank = c.rank })
  arrive c rank unreachable = none

  abbrev pub moved_to : TapeCursor T → ℕ → ℕ → TapeCursor T
  moved_to c slot rank = record { path = c.path; at_leaf = c.at_leaf; slot = slot; rank = rank }

  unfoldable pub advance_in : TapeNode T → TapeCursor T → Option (Bool × TapeCursor T)
  unfolding climb_right
  advance_in (branch i l r n h m f z) c = none
  advance_in (leaf i o x m) c =
      if ltb (c.slot + 1) (length x)
      then some (true, moved_to c (c.slot + 1) (c.rank + 1))
      else arrive c (c.rank + 1) (climb_right c.path)

  abbrev pub advance : TapeCursor T → Option (Bool × TapeCursor T)
  advance c = advance_in c.at_leaf c

  unfoldable pub retreat : TapeCursor T → Option (Bool × TapeCursor T)
  unfolding climb_left
  retreat c =
      if ltb 0 c.slot
      then some (true, moved_to c (c.slot - 1) (c.rank - 1))
      else arrive c (c.rank - 1) (climb_left c.path)

  abbrev pub current_in : TapeNode T → ℕ → Option T
  current_in (leaf i o x m) slot = get_elem? x slot
  current_in (branch i l r n h m f z) slot = none

  -- `current`; out of range it panics.
  abbrev pub current : TapeCursor T → Option T
  current c = current_in c.at_leaf c.slot

  abbrev pub cursor_from : ℕ → Climb T → Option (TapeCursor T)
  cursor_from rank (arrived path found slot) =
      some record { path = path; at_leaf = found; slot = slot; rank = rank }
  cursor_from rank exhausted = none
  cursor_from rank unreachable = none

  unfoldable pub cursor_at : StableTape T → ℕ → Option (TapeCursor T)
  unfolding descend_to_rank
  cursor_at none rank = none
  cursor_at (some root) rank =
      if ltb rank (len root) then cursor_from rank (descend_to_rank root rank []) else none

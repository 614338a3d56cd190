-- ===== src/Tape/CursorMoves.antt =====
-- The moves of a cursor of src/framework/tape.rs, and what a move past an end leaves behind.
use plingo.Prelude.{
  Bool, ℕ, ◌+◌, ◌-◌, ◌≤◌, ◌<◌, ◌≡◌, refl, sym, subst, ap, ap₂, ◌∙◌, true, false, Bool-cases, List,
  [], ◌++◌, append-nil, length, length-append, get_elem?, get_elem?-append_left,
  get_elem?-append_right, Option, none, some, ltb, ltb→lt, ltb→ge, ◌⊎◌, inl, inr, arith,
}
use plingo.Tape.Metric.{TapeEntry}
use plingo.Tape.Node.{TapeNode, leaf, branch, len, entries_of, len-entries_of}
use plingo.Tape.Stable.{StableTape}
use plingo.Tape.Fitting.{IsTape}
use plingo.Tape.Cursor.{
  CursorFrame, TapeCursor, moved_to, advance_in, advance, retreat, current_in, current, cursor_at,
}
use plingo.Tape.CursorLaws.{
  entries_before, entries_after, whole, IsPath, InLeaf, CursorAt, descend_to_rank_lem,
  climb_right_lem, climb_left_lem,
}

-- The cursor after a move past an end: where it was, its path popped.
abbrev pub pathless : {T : Type 0} → TapeCursor T → TapeCursor T
pathless c = record { path = []; at_leaf = c.at_leaf; slot = c.slot; rank = c.rank }

module _ {T : Type 0} ⦃e : TapeEntry T⦄ where
  current_in_lem :
      (t : TapeNode T) (slot : ℕ) (path : List (CursorFrame T))
      → InLeaf t slot
      → current_in t slot ≡ get_elem? (whole t path) (length (entries_before path) + slot)
  current_in_lem (leaf i o y m) slot path h = sym (
      get_elem?-append_right (entries_before path) (y ++ entries_after path)
        (length (entries_before path) + slot) (omega arith)
      ∙ ap (get_elem? (y ++ entries_after path)) (omega arith)
      ∙ get_elem?-append_left y (entries_after path) slot h)
  current_in_lem (branch i l r n g m f z) slot path h = elim h [ ]

  -- A cursor reads the entry at its rank.
  pub current_lem : (x : List T) (c : TapeCursor T) → CursorAt x c → current c ≡ get_elem? x c.rank
  current_lem x c k =
      current_in_lem c.at_leaf c.slot c.path k.in_leaf ∙ ap₂ get_elem? k.entries k.ranked

  -- In a valid tape `cursor_at` a rank inside it gives a cursor that stands there, and none past the end.
  pub cursor_at_lem :
      (h : ℕ) (x : List T) (t : StableTape T) (rank : ℕ)
      → IsTape none none h x t
      → ((rank < length x)
          × ((c : TapeCursor T) × (cursor_at t rank ≡ some c) × (c.rank ≡ rank) × CursorAt x c))
        ⊎ ((length x ≤ rank) × (cursor_at t rank ≡ none))
  unfolding cursor_at
  cursor_at_lem h x none rank k = inr (omega (arith, ap length k), refl)
  cursor_at_lem h x (some root) rank k =
      let size : len root ≡ length x = len-entries_of root k.valid ∙ ap length k.holds in
      elim (Bool-cases (ltb rank (len root))) [
        | inl inside ↦
            let (path, t, slot, same, at) =
              descend_to_rank_lem root rank rank [] x k.valid tt (ltb→lt _ _ inside)
                (append-nil (entries_of root) ∙ k.holds) (omega arith) in
            inl (
              omega (arith, ltb→lt _ _ inside, size),
              (
                record { path = path; at_leaf = t; slot = slot; rank = rank },
                rw (inside, same, cursor_at) refl,
                refl,
                at,
              ),
            )
        | inr past ↦ inr (omega (arith, ltb→ge _ _ past, size), rw past refl)
      ]

  abbrev pub Advanced : List T → TapeCursor T → Option (Bool × TapeCursor T) → Type 0
  Advanced x c result =
      ((c.rank + 1 < length x)
        × ((d : TapeCursor T) × (result ≡ some (true, d)) × (d.rank ≡ c.rank + 1) × CursorAt x d))
      ⊎ ((c.rank + 1 ≡ length x) × (result ≡ some (false, pathless c)))

  advance_in_lem :
      (t : TapeNode T) (x : List T) (c : TapeCursor T)
      → c.at_leaf ≡ t
      → CursorAt x c
      → Advanced x c (advance_in t c)
  unfolding advance_in
  advance_in_lem (branch i l r n g m f z) x c same k =
      elim (subst (λ t. InLeaf t c.slot) same k.in_leaf) [ ]
  advance_in_lem (leaf i o y m) x c same k =
      let inside : c.slot < length y = subst (λ t. InLeaf t c.slot) same k.in_leaf in
      let all : whole (leaf i o y m) c.path ≡ x = subst (λ t. whole t c.path ≡ x) same k.entries in
      let size = length-append (entries_before c.path) (y ++ entries_after c.path) in
      let rest = length-append y (entries_after c.path) in
      elim (Bool-cases (ltb (c.slot + 1) (length y))) [
        | inl more ↦ inl (
          omega (arith, ltb→lt _ _ more, k.ranked, size, rest, ap length all),
          (
            moved_to c (c.slot + 1) (c.rank + 1),
            rw more refl,
            refl,
            record {
              in_leaf = subst (λ t. InLeaf t (c.slot + 1)) (sym same) (ltb→lt _ _ more);
              valid = k.valid;
              on_path = k.on_path;
              entries = k.entries;
              ranked = omega (arith, k.ranked);
            },
          ),
        )
        | inr last ↦
            elim (climb_right_lem c.path (leaf i o y m) x (c.rank + 1)
              (subst (λ t. IsPath t c.path) same k.on_path) all
              (omega (arith, ltb→ge _ _ last, inside, k.ranked))) [
                | inl (ended, whole_tape) ↦ inr (whole_tape, rw (last, ended) refl)
                | inr (left, (path, t, slot, landed, at)) ↦ inl (
                  left,
                  (
                    record { path = path; at_leaf = t; slot = slot; rank = c.rank + 1 },
                    rw (last, landed) refl,
                    refl,
                    at,
                  ),
                )
              ]
      ]

  -- `advance` of a cursor that stands at a rank moves to the next rank and answers `true`; on the last
  -- entry it stays there and answers `false`, and its path has been popped.
  pub advance_lem : (x : List T) (c : TapeCursor T) → CursorAt x c → Advanced x c (advance c)
  advance_lem x c k = advance_in_lem c.at_leaf x c refl k

  abbrev pub Retreated : List T → TapeCursor T → Option (Bool × TapeCursor T) → Type 0
  Retreated x c result =
      ((0 < c.rank)
        × ((d : TapeCursor T) × (result ≡ some (true, d)) × (d.rank ≡ c.rank - 1) × CursorAt x d))
      ⊎ ((c.rank ≡ 0) × (result ≡ some (false, pathless c)))

  lower_slot : (t : TapeNode T) (slot : ℕ) → InLeaf t slot → InLeaf t (slot - 1)
  lower_slot (leaf i o y m) slot h = omega arith
  lower_slot (branch i l r n g m f z) slot h = h

  -- `retreat` of a cursor that stands at a rank moves to the rank before and answers `true`; on the
  -- first entry it stays there and answers `false`, and its path has been popped.
  pub retreat_lem : (x : List T) (c : TapeCursor T) → CursorAt x c → Retreated x c (retreat c)
  unfolding retreat
  retreat_lem x c k = elim (Bool-cases (ltb 0 c.slot)) [
    | inl more ↦ inl (
      omega (arith, ltb→lt _ _ more, k.ranked),
      (
        moved_to c (c.slot - 1) (c.rank - 1),
        rw more refl,
        refl,
        record {
          in_leaf = lower_slot c.at_leaf c.slot k.in_leaf;
          valid = k.valid;
          on_path = k.on_path;
          entries = k.entries;
          ranked = omega (arith, ltb→lt _ _ more, k.ranked);
        },
      ),
    )
    | inr first ↦
        elim (climb_left_lem c.path c.at_leaf x c.rank k.on_path k.entries
          (omega (arith, ltb→ge _ _ first, k.ranked))) [
            | inl (ended, start) ↦ inr (start, rw (first, ended) refl)
            | inr (left, (path, t, slot, landed, at)) ↦ inl (
              left,
              (
                record { path = path; at_leaf = t; slot = slot; rank = c.rank - 1 },
                rw (first, landed) refl,
                refl,
                at,
              ),
            )
          ]
  ]

  -- Of a cursor on the last entry, and on the first slot of its leaf, an `advance` and a `retreat`
  -- after that both answer that there is nowhere to go, whatever entries stand before.
  pub retreat-advance :
      (x : List T) (c : TapeCursor T)
      → CursorAt x c
      → c.rank + 1 ≡ length x
      → c.slot ≡ 0
      → (advance c ≡ some (false, pathless c)) × (retreat (pathless c) ≡ some (false, pathless c))
  unfolding retreat
  retreat-advance x c k last first = elim (advance_lem x c k) [
    | inl (more, _) ↦ absurd (omega (arith, more, last))
    | inr (_, ended) ↦ (ended, rw first refl)
  ]

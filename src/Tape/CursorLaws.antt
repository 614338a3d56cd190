-- ===== src/Tape/CursorLaws.antt =====
-- A cursor of src/framework/tape.rs stands at a rank of the entries, and moves by one.
use plingo.Prelude.{
  Bool, ℕ, ◌+◌, ◌-◌, ◌<◌, ◌≡◌, refl, sym, subst, ap, ◌∙◌, true, false, Bool-cases, List, [], ◌∷◌,
  ◌++◌, append_assoc, length, length-append, ltb, ltb→lt, ltb→ge, lt→ltb, ge→ltb, ◌⊎◌, inl, inr,
  arith,
}
use plingo.Tape.OrderKey.{LeafOrderKey}
use plingo.Tape.Metric.{SequenceMetric, TapeEntry}
use plingo.Tape.Node.{TapeNode, leaf, branch, len, entries_of, IsValid, len-entries_of, len_pos}
use plingo.Tape.Cursor.{
  CursorFrame, TapeCursor, Climb, arrived, exhausted, frame, descend_to_rank, descend_left,
  descend_right, climb_past, climb_right, climb_before, climb_left,
}

module _ {T : Type 0} where
  abbrev pub before_frame : TapeNode T → Bool → List T → List T
  before_frame (leaf i o x m) side outer = outer
  before_frame (branch i l r n h m f z) true outer = outer ++ entries_of l
  before_frame (branch i l r n h m f z) false outer = outer

  abbrev pub after_frame : TapeNode T → Bool → List T → List T
  after_frame (leaf i o x m) side outer = outer
  after_frame (branch i l r n h m f z) true outer = outer
  after_frame (branch i l r n h m f z) false outer = entries_of r ++ outer

  -- The entries to the left and to the right of what a path leads to.
  abbrev pub entries_before : List (CursorFrame T) → List T
  entries_before [] = []
  entries_before (top ∷ path) = before_frame top.node top.went_right (entries_before path)

  abbrev pub entries_after : List (CursorFrame T) → List T
  entries_after [] = []
  entries_after (top ∷ path) = after_frame top.node top.went_right (entries_after path)

  -- The whole tape: what is left of a node, the node, and what is right of it.
  abbrev pub whole : TapeNode T → List (CursorFrame T) → List T
  whole t path = entries_before path ++ (entries_of t ++ entries_after path)

module _ {T : Type 0} ⦃e : TapeEntry T⦄ where
  abbrev pub FrameFits : TapeNode T → TapeNode T → Bool → Type 0
  FrameFits t (leaf i o x m) side = ⊥
  FrameFits t (branch i l r n h m f z) true = (t ≡ r) × IsValid (branch i l r n h m f z)
  FrameFits t (branch i l r n h m f z) false = (t ≡ l) × IsValid (branch i l r n h m f z)

  -- A path leads down to the node, through valid branches.
  abbrev pub IsPath : TapeNode T → List (CursorFrame T) → Type 0
  IsPath t [] = Unit
  IsPath t (top ∷ path) = FrameFits t top.node top.went_right × IsPath top.node path

  abbrev pub InLeaf : TapeNode T → ℕ → Type 0
  InLeaf (leaf i o x m) slot = slot < length x
  InLeaf (branch i l r n h m f z) slot = ⊥

  -- The cursor stands at its rank in the entries.
  pub record CursorAt (x : List T) (c : TapeCursor T) : Type 0 where
    pub in_leaf : InLeaf c.at_leaf c.slot
    pub valid : IsValid c.at_leaf
    pub on_path : IsPath c.at_leaf c.path
    pub entries : whole c.at_leaf c.path ≡ x
    pub ranked : length (entries_before c.path) + c.slot ≡ c.rank

  abbrev pub Lands : List T → ℕ → Climb T → Type 0
  Lands x rank climb =
      (path : List (CursorFrame T)) × (t : TapeNode T) × (slot : ℕ) × (climb ≡ arrived path t slot)
      × CursorAt x record { path = path; at_leaf = t; slot = slot; rank = rank }

  whole-left :
      (i : ℕ) (l r : TapeNode T) (n h : ℕ) (m : SequenceMetric) (f z : LeafOrderKey)
      (path : List (CursorFrame T))
      → whole l (frame (branch i l r n h m f z) false ∷ path) ≡ whole (branch i l r n h m f z) path
  whole-left i l r n h m f z path =
      ap (entries_before path ++◌)
        (sym (append_assoc (entries_of l) (entries_of r) (entries_after path)))

  whole-right :
      (i : ℕ) (l r : TapeNode T) (n h : ℕ) (m : SequenceMetric) (f z : LeafOrderKey)
      (path : List (CursorFrame T))
      → whole r (frame (branch i l r n h m f z) true ∷ path) ≡ whole (branch i l r n h m f z) path
  whole-right i l r n h m f z path =
      append_assoc (entries_before path) (entries_of l) (entries_of r ++ entries_after path)
      ∙ ap (entries_before path ++◌)
          (sym (append_assoc (entries_of l) (entries_of r) (entries_after path)))

  pub descend_to_rank_lem :
      (t : TapeNode T) (slot rank : ℕ) (path : List (CursorFrame T)) (x : List T)
      → IsValid t
      → IsPath t path
      → slot < len t
      → whole t path ≡ x
      → length (entries_before path) + slot ≡ rank
      → Lands x rank (descend_to_rank t slot path)
  unfolding descend_to_rank
  descend_to_rank_lem (leaf i o y m) slot rank path x v p h w k = (
    path,
    leaf i o y m,
    slot,
    refl,
    record { in_leaf = h; valid = v; on_path = p; entries = w; ranked = k },
  )
  descend_to_rank_lem (branch i l r n h m f z) slot rank path x v p lt w k =
      elim (Bool-cases (ltb slot (len l))) [
        | inl left ↦ rw left (
            descend_to_rank_lem l slot rank (frame (branch i l r n h m f z) false ∷ path) x v.0
              ((refl, v), p) (ltb→lt _ _ left) (whole-left i l r n h m f z path ∙ w) k)
        | inr right ↦ rw right (
            descend_to_rank_lem r (slot - len l) rank (frame (branch i l r n h m f z) true ∷ path) x
              v.1 ((refl, v), p) (omega (arith, lt, v.2, ltb→ge _ _ right))
              (whole-right i l r n h m f z path ∙ w)
              (omega (
                arith,
                k,
                length-append (entries_before path) (entries_of l),
                len-entries_of l v.0,
                ltb→ge _ _ right,
              )))
      ]

  descend_left_lem :
      (t : TapeNode T) (path : List (CursorFrame T))
      → IsValid t
      → descend_left t path ≡ descend_to_rank t 0 path
  unfolding descend_left descend_to_rank
  descend_left_lem (leaf i o x m) path v = refl
  descend_left_lem (branch i l r n h m f z) path v =
      rw (lt→ltb 0 (len l) (len_pos l v.0))
        (descend_left_lem l (frame (branch i l r n h m f z) false ∷ path) v.0)

  descend_right_lem :
      (t : TapeNode T) (path : List (CursorFrame T))
      → IsValid t
      → descend_right t path ≡ descend_to_rank t (len t - 1) path
  unfolding descend_right descend_to_rank
  descend_right_lem (leaf i o x m) path v = refl
  descend_right_lem (branch i l r n h m f z) path v =
      let last : n - 1 - len l ≡ len r - 1 = omega (arith, v.2) in
      rw (ge→ltb (n - 1) (len l) (omega (arith, v.2, len_pos r v.1)), last)
        (descend_right_lem r (frame (branch i l r n h m f z) true ∷ path) v.1)

  -- Past the end of a node: the next leaf to the right, or the end of the tape.
  abbrev pub Onward : List T → ℕ → Climb T → Type 0
  Onward x rank climb =
      ((climb ≡ exhausted) × (rank ≡ length x)) ⊎ ((rank < length x) × Lands x rank climb)

  climb_past_lem :
      (t n : TapeNode T) (side : Bool) (path : List (CursorFrame T)) (x : List T) (rank : ℕ)
      (later : Climb T)
      → FrameFits t n side
      → IsPath n path
      → whole t (frame n side ∷ path) ≡ x
      → length (entries_before (frame n side ∷ path)) + length (entries_of t) ≡ rank
      → ((whole n path ≡ x)
          → (length (entries_before path) + length (entries_of n) ≡ rank)
          → Onward x rank later)
      → Onward x rank (climb_past n side path later)
  climb_past_lem t (leaf i o y m) side path x rank later f p w k more = elim f [ ]
  climb_past_lem t (branch i l r n h m a z) true path x rank later f p w k more =
      more
        (sym (whole-right i l r n h m a z path)
          ∙ ap (λ y. whole y (frame (branch i l r n h m a z) true ∷ path)) (sym f.0)
          ∙ w)
        (omega (
          arith,
          k,
          ap (λ y. length (entries_of y)) f.0,
          length-append (entries_before path) (entries_of l),
          length-append (entries_of l) (entries_of r),
        ))
  climb_past_lem t (branch i l r n h m a z) false path x rank later f p w k more =
      let top = frame (branch i l r n h m a z) true in
      let next : whole r (top ∷ path) ≡ x =
        whole-right i l r n h m a z path
        ∙ sym (whole-left i l r n h m a z path)
        ∙ ap (λ y. whole y (frame (branch i l r n h m a z) false ∷ path)) (sym f.0)
        ∙ w in
      let start : length (entries_before path ++ entries_of l) + 0 ≡ rank = omega (
        arith,
        k,
        ap (λ y. length (entries_of y)) f.0,
        length-append (entries_before path) (entries_of l),
      ) in
      inr (
        omega (
          arith,
          start,
          ap length next,
          length-append (entries_before path ++ entries_of l) (entries_of r ++ entries_after path),
          length-append (entries_of r) (entries_after path),
          len_pos r f.1.1,
          len-entries_of r f.1.1,
        ),
        subst (Lands x rank) (sym (descend_left_lem r (top ∷ path) f.1.1)) (
            descend_to_rank_lem r 0 rank (top ∷ path) x f.1.1 ((refl, f.1), p) (len_pos r f.1.1)
              next start),
      )

  pub climb_right_lem :
      (path : List (CursorFrame T)) (t : TapeNode T) (x : List T) (rank : ℕ)
      → IsPath t path
      → whole t path ≡ x
      → length (entries_before path) + length (entries_of t) ≡ rank
      → Onward x rank (climb_right path)
  unfolding climb_right
  climb_right_lem [] t x rank p w k =
      inl (refl, omega (arith, k, ap length w, length-append (entries_of t) []))
  climb_right_lem (top ∷ path) t x rank p w k =
      climb_past_lem t top.node top.went_right path x rank (climb_right path) p.0 p.1 w k
        (climb_right_lem path top.node x rank p.1)

  -- Before the start of a node: the last entry of the leaf to the left, or the start of the tape.
  abbrev pub Back : List T → ℕ → Climb T → Type 0
  Back x rank climb = ((climb ≡ exhausted) × (rank ≡ 0)) ⊎ ((0 < rank) × Lands x (rank - 1) climb)

  climb_before_lem :
      (t n : TapeNode T) (side : Bool) (path : List (CursorFrame T)) (x : List T) (rank : ℕ)
      (later : Climb T)
      → FrameFits t n side
      → IsPath n path
      → whole t (frame n side ∷ path) ≡ x
      → length (entries_before (frame n side ∷ path)) ≡ rank
      → ((whole n path ≡ x) → (length (entries_before path) ≡ rank) → Back x rank later)
      → Back x rank (climb_before n side path later)
  climb_before_lem t (leaf i o y m) side path x rank later f p w k more = elim f [ ]
  climb_before_lem t (branch i l r n h m a z) false path x rank later f p w k more =
      more
        (sym (whole-left i l r n h m a z path)
          ∙ ap (λ y. whole y (frame (branch i l r n h m a z) false ∷ path)) (sym f.0)
          ∙ w)
        k
  climb_before_lem t (branch i l r n h m a z) true path x rank later f p w k more =
      let top = frame (branch i l r n h m a z) false in
      let pos = len_pos l f.1.0 in
      let size = length-append (entries_before path) (entries_of l) in
      let next : whole l (top ∷ path) ≡ x =
        whole-left i l r n h m a z path
        ∙ sym (whole-right i l r n h m a z path)
        ∙ ap (λ y. whole y (frame (branch i l r n h m a z) true ∷ path)) (sym f.0)
        ∙ w in
      inr (
        omega (arith, k, size, pos, len-entries_of l f.1.0),
        subst (Lands x (rank - 1)) (sym (descend_right_lem l (top ∷ path) f.1.0)) (
            descend_to_rank_lem l (len l - 1) (rank - 1) (top ∷ path) x f.1.0 ((refl, f.1), p)
              (omega (arith, pos)) next (omega (arith, k, size, pos, len-entries_of l f.1.0))),
      )

  pub climb_left_lem :
      (path : List (CursorFrame T)) (t : TapeNode T) (x : List T) (rank : ℕ)
      → IsPath t path
      → whole t path ≡ x
      → length (entries_before path) ≡ rank
      → Back x rank (climb_left path)
  unfolding climb_left
  climb_left_lem [] t x rank p w k = inl (refl, sym k)
  climb_left_lem (top ∷ path) t x rank p w k =
      climb_before_lem t top.node top.went_right path x rank (climb_left path) p.0 p.1 w k
        (climb_left_lem path top.node x rank p.1)

-- ===== src/Seq/Split.antt =====
-- Splitting a rope: `split_node` of src/utils/persistent_seq.rs.
use plingo.Prelude.{
  take_front, drop_front, ℕ, ◌-◌, ◌≤◌, ◌<◌, ◌≡◌, refl, ◌∙◌, sym, false, Option, some, length, take,
  drop, ltb, ◌==◌, if◌then◌else◌, arith, tests, length-take, length-drop, take-append_left,
  drop-append_left, take-append_right, drop-append_right, ltb→lt, ==_iff, Bool-cases, inl, inr,
}
use plingo.Seq.Measure.{SeqMeasure}
use plingo.Seq.Node.{
  Node, leaf, branch, len, new_leaf, to_list, to_list_option, IsValid, IsValidOption, len-to_list,
}
use plingo.Seq.Join.{join_options, join_options-IsValid, to_list-join_options}

lt_of_tests : (i n : ℕ) → ltb i n ≡ false → (i == n) ≡ false → n < i
lt_of_tests i n p q = ground arith

module _ {ℓ κ} {T : Type ℓ} {M : Type κ} ⦃s : SeqMeasure T M⦄ where
  -- Which side of a branch a split falls in.
  abbrev pub join_right :
      Node T M → Option (Node T M) × Option (Node T M) → Option (Node T M) × Option (Node T M)
  join_right r (prefix, split_left) = (prefix, join_options split_left (some r))

  abbrev pub join_left :
      Node T M → Option (Node T M) × Option (Node T M) → Option (Node T M) × Option (Node T M)
  join_left l (split_right, suffix) = (join_options (some l) split_right, suffix)

  pub split_node : Node T M → ℕ → Option (Node T M) × Option (Node T M)
  split_node (leaf values m) index =
      (some (new_leaf (take index values)), some (new_leaf (drop index values)))
  split_node (branch l r n h m) index =
      let below = join_right r (split_node l index) in
      let above = join_left l (split_node r (index - len l)) in
      if ltb index (len l) then below else (if index == len l then (some l, some r) else above)

  -- Inside the bounds a split cuts the list of values in two.
  pub split_node_lem :
      (t : Node T M) (i : ℕ)
      → IsValid t
      → 0 < i
      → i < len t
      → (to_list_option (split_node t i).0 ≡ take i (to_list t))
        × (to_list_option (split_node t i).1 ≡ drop i (to_list t))
  unfolding split_node
  split_node_lem (leaf values m) i v lo hi = (refl, refl)
  split_node_lem (branch l r n h m) i v lo hi = elim (Bool-cases (ltb i (len l))) [
    | inl p ↦
        let below = split_node_lem l i v.0 lo (ltb→lt _ _ p) in
        let bound : i ≤ length (to_list l) = omega (tests, len-to_list l v.0) in
        rw p (
          rw (take-append_left (to_list l) (to_list r) i bound) below.0,
          rw (to_list-join_options, below.1, drop-append_left (to_list l) (to_list r) i bound),
        )
    | inr p ↦ elim (Bool-cases (i == len l)) [
      | inl q ↦
          let size : i ≡ length (to_list l) = (==_iff _ _).0 q ∙ len-to_list l v.0 in
          rw (p, q)
            (
              sym (take_front (to_list l) (to_list r) i size),
              sym (drop_front (to_list l) (to_list r) i size),
            )
      | inr q ↦
          let past = lt_of_tests i (len l) p q in
          let above =
            split_node_lem r (i - len l) v.1 (omega (arith, past)) (omega (arith, past, v.2)) in
          let bound : length (to_list l) ≤ i = omega (tests, len-to_list l v.0) in
          rw (p, q)
            (
              rw (
                to_list-join_options,
                above.0,
                len-to_list l v.0,
                take-append_right (to_list l) (to_list r) i bound,
              ),
              rw (drop-append_right (to_list l) (to_list r) i bound, ← len-to_list l v.0) above.1,
            )
    ]
  ]

  -- Both halves are valid ropes, or absent.
  pub split_node-IsValid :
      (t : Node T M) (i : ℕ)
      → IsValid t
      → 0 < i
      → i < len t
      → IsValidOption (split_node t i).0 × IsValidOption (split_node t i).1
  unfolding split_node
  split_node-IsValid (leaf values m) i v lo hi = (
    (omega (arith, length-take i values), omega (arith, v.1, length-take i values), refl),
    (omega (arith, length-drop i values), omega (arith, v.1, length-drop i values), refl),
  )
  split_node-IsValid (branch l r n h m) i v lo hi = elim (Bool-cases (ltb i (len l))) [
    | inl p ↦
        let below = split_node-IsValid l i v.0 lo (ltb→lt _ _ p) in
        rw p (below.0, join_options-IsValid _ (some r) below.1 v.1)
    | inr p ↦ elim (Bool-cases (i == len l)) [
      | inl q ↦ rw (p, q) (v.0, v.1)
      | inr q ↦
          let past = lt_of_tests i (len l) p q in
          let above =
            split_node-IsValid r (i - len l) v.1 (omega (arith, past)) (omega (arith, past, v.2)) in
          rw (p, q) (join_options-IsValid (some l) _ v.0 above.0, above.1)
    ]
  ]

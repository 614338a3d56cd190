-- ===== src/Tape/SplitNode.antt =====
-- Every path through `split_node` of src/framework/tape.rs: where it cuts a leaf, goes down to the
-- left or to the right, or finds the boundary between two children.
use plingo.Prelude.{
  ℕ, ◌+◌, ◌-◌, ◌*◌, ◌≤◌, ◌<◌, ◌≡◌, refl, sym, subst, ap, false, Bool-cases, ltb, leb, ltb→lt,
  ltb→ge, leb→le, leb→gt, gt→leb, lt→ltb, ge→ltb, le→leb, ◌==◌, inl, inr, Option, none, some, List,
  length, take, drop, arith,
}
use plingo.Tape.OrderKey.{LeafOrderKey}
use plingo.Tape.Between.{◌≺◌, Below, InOrder}
use plingo.Tape.Allocating.{returns, Does, Does-returns, Does-bind, Does-weaken}
use plingo.Tape.Metric.{SequenceMetric, TapeEntry}
use plingo.Tape.Node.{
  TapeNode, leaf, branch, u16_max, len, height, first_order, last_order, IsValid, leaf_of,
  make_leaf, make_leaf_lem, len_pos,
}
use plingo.Tape.Concat.{concat_roots, concat_nodes}
use plingo.Tape.Attach.{Concatenated}
use plingo.Tape.ConcatLaws.{concat_roots_lem}
use plingo.Tape.Split.{key_between, split_node}
use plingo.Tape.SplitLaws.{
  key_between_lem, first_positive, split_cost, Halves, IsHalved, split_leaf, split_leftward,
  split_rightward, split_between,
}

pub pos→eq_zero : (n : ℕ) → 0 < n → (n == 0) ≡ false
pos→eq_zero n h = ground arith

pub InOrder-Below :
    (o : LeafOrderKey) (upper : Option LeafOrderKey) → Below upper o → InOrder (some o) upper
InOrder-Below o none b = tt
InOrder-Below o (some u) b = b

module _ {T : Type 0} ⦃e : TapeEntry T⦄ where
  pub concat_nodes_lem :
      (k : ℕ) (l r : TapeNode T)
      → IsValid l
      → IsValid r
      → last_order l ≺ first_order r
      → height l < u16_max
      → height r < u16_max
      → 3 * (height l + height r) ≤ k
      → Does k
          (concat_nodes (some l) (some r))
          (λ t. (j : TapeNode T) × (t ≡ some j) × Concatenated l r j)
  unfolding concat_nodes
  concat_nodes_lem k l r a b o h g enough =
      Does-weaken (3 * (height l + height r) + 0) k _ (omega (arith, enough)) (
        Does-bind (3 * (height l + height r)) 0 (concat_roots l r) (λ t. returns (some t))
          (concat_roots_lem l r a b o h g) (λ t c. Does-returns 0 (some t) (t, refl, c)))

  at_leaf :
      (i : ℕ) (o : LeafOrderKey) (x : List T) (m : SequenceMetric) (rank : ℕ)
      (upper : Option LeafOrderKey)
      → IsValid (leaf i o x m)
      → 0 < rank
      → rank < length x
      → Below upper o
      → Does 2 (split_node (leaf i o x m) rank upper) (IsHalved (leaf i o x m) rank upper)
  unfolding split_node
  at_leaf i o x m rank upper v lo hi below =
      rw (pos→eq_zero rank lo, gt→leb (length x) rank hi, split_node)
        (Does-bind 1 1 (make_leaf (take rank x) o) _ (make_leaf_lem (take rank x) o) (λ p w.
          Does-bind 0 1 (key_between (some o) upper) _
            (key_between_lem (some o) upper (InOrder-Below o upper below))
            (λ key k.
              Does-bind 1 0 (make_leaf (drop rank x) key) _ (make_leaf_lem (drop rank x) key)
                (λ q u.
                  Does-returns 0 (some p, some q)
                    (
                      p,
                      q,
                      refl,
                      subst (λ c. Halves (leaf i o x m) rank upper c q) (sym w.1)
                          (subst
                            (λ c. Halves (leaf i o x m) rank upper (leaf_of w.0 o (take rank x)) c)
                            (sym u.1)
                            (split_leaf i w.0 u.0 o key x m rank upper v lo hi k.0 k.1 k.2)),
                    )))))

  -- Where the cut is inside the left child.
  at_left :
      (i : ℕ) (l r : TapeNode T) (n h : ℕ) (m : SequenceMetric) (f z : LeafOrderKey) (rank : ℕ)
      (upper : Option LeafOrderKey)
      → IsValid (branch i l r n h m f z)
      → 0 < rank
      → rank < len l
      → Below upper z
      → h < u16_max
      → Does
          (split_cost l)
          (split_node l rank (some (first_order r)))
          (IsHalved l rank (some (first_order r)))
      → Does
          (split_cost (branch i l r n h m f z))
          (split_node (branch i l r n h m f z) rank upper)
          (IsHalved (branch i l r n h m f z) rank upper)
  unfolding split_node
  at_left i l r n h m f z rank upper v lo hi below g d =
      rw
        (
          pos→eq_zero rank lo,
          gt→leb n rank (omega (arith, hi, v.2)),
          lt→ltb rank (len l) hi,
          split_node,
        )
        (Does-weaken (split_cost l + (6 * h + 0)) _ _ (omega arith) (
          Does-bind (split_cost l) (6 * h + 0) (split_node l rank (some (first_order r))) _ d
            (λ s (p, q, same, halves). rw same (
              Does-bind (6 * h) 0 (concat_nodes (some q) (some r)) _
                (concat_nodes_lem (6 * h) q r halves.right_valid v.1 halves.right_last.0
                  (omega (arith, halves.right_high, v.3)) (omega (arith, v.3))
                  (omega (arith, halves.right_high, v.3)))
                (λ t (suffix, e, c).
                  Does-returns 0 (some p, t)
                    (
                      p,
                      suffix,
                      ap (λ w. (some p, w)) e,
                      split_leftward i l r p q suffix n h m f z rank upper v hi below halves c,
                    ))))))

  at_right :
      (i : ℕ) (l r : TapeNode T) (n h : ℕ) (m : SequenceMetric) (f z : LeafOrderKey) (rank : ℕ)
      (upper : Option LeafOrderKey)
      → IsValid (branch i l r n h m f z)
      → len l < rank
      → rank < n
      → h < u16_max
      → Does (split_cost r) (split_node r (rank - len l) upper) (IsHalved r (rank - len l) upper)
      → Does
          (split_cost (branch i l r n h m f z))
          (split_node (branch i l r n h m f z) rank upper)
          (IsHalved (branch i l r n h m f z) rank upper)
  unfolding split_node
  at_right i l r n h m f z rank upper v lo hi g d =
      rw
        (
          pos→eq_zero rank (omega (arith, lo)),
          gt→leb n rank hi,
          ge→ltb rank (len l) (omega (arith, lo)),
          split_node,
        )
        (Does-weaken (split_cost r + (6 * h + 0)) _ _ (omega arith) (
          Does-bind (split_cost r) (6 * h + 0) (split_node r (rank - len l) upper) _ d
            (λ s (p, q, same, halves). rw same (
              Does-bind (6 * h) 0 (concat_nodes (some l) (some p)) _
                (concat_nodes_lem (6 * h) l p v.0 halves.left_valid
                  (subst (λ w. last_order l ≺ w) (sym halves.left_first) v.7) (omega (arith, v.3))
                  (omega (arith, halves.left_high, v.3)) (omega (arith, halves.left_high, v.3)))
                (λ t (prefix, e, c).
                  Does-returns 0 (t, some q)
                    (
                      prefix,
                      q,
                      ap (λ w. (w, some q)) e,
                      split_rightward i l r p q prefix n h m f z rank upper v lo halves c,
                    ))))))

  pub split_node-zero :
      (t : TapeNode T) (upper : Option LeafOrderKey) → split_node t 0 upper ≡ returns (none, some t)
  unfolding split_node
  split_node-zero (leaf i o x m) upper = refl
  split_node-zero (branch i l r n h m f z) upper = refl

  pub split_node-full :
      (t : TapeNode T) (rank : ℕ) (upper : Option LeafOrderKey)
      → 0 < rank
      → len t ≤ rank
      → split_node t rank upper ≡ returns (some t, none)
  unfolding split_node
  split_node-full (leaf i o x m) rank upper lo hi =
      rw (pos→eq_zero rank lo, le→leb (length x) rank hi) refl
  split_node-full (branch i l r n h m f z) rank upper lo hi =
      rw (pos→eq_zero rank lo, le→leb n rank hi) refl

  at_boundary :
      (i : ℕ) (l r : TapeNode T) (n h : ℕ) (m : SequenceMetric) (f z : LeafOrderKey) (rank : ℕ)
      (upper : Option LeafOrderKey)
      → IsValid (branch i l r n h m f z)
      → rank ≡ len l
      → Below upper z
      → Does
          (split_cost (branch i l r n h m f z))
          (split_node (branch i l r n h m f z) rank upper)
          (IsHalved (branch i l r n h m f z) rank upper)
  unfolding split_node concat_nodes
  at_boundary i l r n h m f z rank upper v same below =
      let zero_left : rank - len l ≡ 0 = omega (arith, same) in
      rw
        (
          pos→eq_zero rank (omega (arith, same, len_pos l v.0)),
          gt→leb n rank (omega (arith, same, v.2, len_pos r v.1)),
          ge→ltb rank (len l) (omega (arith, same)),
          zero_left,
          split_node-zero r upper,
          split_node,
        )
        (Does-returns _ (some l, some r)
          (l, r, refl, split_between i l r n h m f z rank upper v same below))

  -- A cut strictly inside a valid tree below 65,535 levels, whose labels end below the upper bound,
  -- takes at most `split_cost` identities. It gives two valid trees with the entries before the rank
  -- and from it on, their labels in order and below the bound, neither higher, and both balanced where
  -- the tree is.
  pub split_node_lem :
      (t : TapeNode T) (rank : ℕ) (upper : Option LeafOrderKey)
      → IsValid t
      → 0 < rank
      → rank < len t
      → Below upper (last_order t)
      → height t < u16_max
      → Does (split_cost t) (split_node t rank upper) (IsHalved t rank upper)
  split_node_lem (leaf i o x m) rank upper v lo hi below g =
      at_leaf i o x m rank upper v lo hi below
  split_node_lem (branch i l r n h m f z) rank upper v lo hi below g =
      elim (Bool-cases (ltb rank (len l))) [
        | inl left ↦ at_left i l r n h m f z rank upper v lo (ltb→lt _ _ left) below g (
            split_node_lem l rank (some (first_order r)) v.0 lo (ltb→lt _ _ left)
              (v.7, first_positive r v.1) (omega (arith, v.3)))
        | inr rest ↦ elim (Bool-cases (leb rank (len l))) [
          | inl edge ↦
              at_boundary i l r n h m f z rank upper v
                (omega (arith, ltb→ge _ _ rest, leb→le _ _ edge)) below
          | inr right ↦ at_right i l r n h m f z rank upper v (leb→gt _ _ right) hi g (
              split_node_lem r (rank - len l) upper v.1 (omega (arith, leb→gt _ _ right))
                (omega (arith, hi, v.2, leb→gt _ _ right)) (subst (Below upper) v.6 below)
                (omega (arith, v.3)))
        ]
      ]

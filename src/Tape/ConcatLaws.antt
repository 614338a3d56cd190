-- ===== src/Tape/ConcatLaws.antt =====
-- What `concat_nodes` of src/framework/tape.rs keeps.
use plingo.Prelude.{
  ℕ, ◌+◌, ◌*◌, ◌≤◌, ◌<◌, refl, sym, subst, Bool-cases, leb, leb→le, inl, inr, List, ◌++◌, length,
  length-append, arith,
}
use plingo.Tape.OrderKey.{LeafOrderKey}
use plingo.Tape.Between.{◌≺◌}
use plingo.Tape.Allocating.{Does, Does-weaken, Does-imp}
use plingo.Tape.Metric.{SequenceMetric, TapeEntry}
use plingo.Tape.Node.{
  TapeNode, leaf, branch, leaf_max, u16_max, height, first_order, last_order, IsValid, leaf_of,
  make_leaf, make_leaf_lem,
}
use plingo.Tape.Concat.{concat_roots}
use plingo.Tape.Joined.{lean-cases}
use plingo.Tape.Attach.{Concatenated, of_branch, to_the_right, to_the_left}

module _ {T : Type 0} ⦃e : TapeEntry T⦄ where
  merged_leaf :
      (i j q : ℕ) (o p : LeafOrderKey) (x y : List T) (m k : SequenceMetric)
      → IsValid (leaf i o x m)
      → o ≺ p
      → length x + length y ≤ leaf_max
      → Concatenated (leaf i o x m) (leaf j p y k) (leaf_of q o (x ++ y))
  merged_leaf i j q o p x y m k v lt fits = record {
    valid =
        (omega (arith, v.0, length-append x y), omega (arith, fits, length-append x y), v.2, refl);
    entries = refl;
    first = refl;
    last = inl lt;
    high = omega arith;
    balanced = λ _ _. (tt, omega arith);
  }

  -- Two valid trees below 65,535 levels, the labels of the first below those of the second, are
  -- concatenated with at most three identities for each level of either. The result is valid, holds
  -- the entries in order, is at most one level higher than the taller, and balanced where both are.
  pub concat_roots_lem :
      (l r : TapeNode T)
      → IsValid l
      → IsValid r
      → last_order l ≺ first_order r
      → height l < u16_max
      → height r < u16_max
      → Does (3 * (height l + height r)) (concat_roots l r) (Concatenated l r)
  unfolding concat_roots
  concat_roots_lem (leaf i o x m) (leaf j p y k) a b lt g q =
      elim (Bool-cases (leb (length x + length y) leaf_max)) [
        | inl fits ↦
            rw (fits, concat_roots)
              (Does-weaken 1 6 _ (omega arith) (
                Does-imp 1 (make_leaf (x ++ y) o)
                  (λ t w.
                    subst (Concatenated (leaf i o x m) (leaf j p y k)) (sym w.1)
                      (merged_leaf i j w.0 o p x y m k a lt (leb→le _ _ fits)))
                  (make_leaf_lem (x ++ y) o)))
        | inr full ↦
            rw (full, concat_roots)
              (of_branch (leaf i o x m) (leaf j p y k) a b lt g q (omega arith) (omega arith) 6
                (omega arith))
      ]
  concat_roots_lem (leaf i o x m) (branch j rl rr n h k f z) a b lt g q =
      elim (lean-cases 1 h g q) [
        | inl (s, p) ↦ absurd (omega (arith, b.3))
        | inr (inl (s, p)) ↦
            rw (s, concat_roots)
              (to_the_left (leaf i o x m) j rl rr n h k f z a b lt g q p (
                concat_roots_lem (leaf i o x m) rl a b.0 (subst (λ w. o ≺ w) b.5 lt) g
                  (omega (arith, b.3))))
        | inr (inr (s, p, w)) ↦
            rw (s, concat_roots)
              (of_branch (leaf i o x m) (branch j rl rr n h k f z) a b lt g q p w _ (omega arith))
      ]
  concat_roots_lem (branch i ll lr n h m f z) (leaf j o y k) a b lt g q =
      elim (lean-cases h 1 g q) [
        | inl (s, p) ↦
            rw (s, concat_roots)
              (to_the_right i ll lr (leaf j o y k) n h m f z a b lt g q p (
                concat_roots_lem lr (leaf j o y k) a.1 b (subst (λ w. w ≺ o) a.6 lt)
                  (omega (arith, a.3)) q))
        | inr (inl (s, p)) ↦ absurd (omega (arith, a.3))
        | inr (inr (s, p, w)) ↦
            rw (s, concat_roots)
              (of_branch (branch i ll lr n h m f z) (leaf j o y k) a b lt g q p w _ (omega arith))
      ]
  concat_roots_lem (branch i ll lr n h m f z) (branch j rl rr c d k u v) a b lt g q =
      elim (lean-cases h d g q) [
        | inl (s, p) ↦
            rw (s, concat_roots)
              (to_the_right i ll lr (branch j rl rr c d k u v) n h m f z a b lt g q p (
                concat_roots_lem lr (branch j rl rr c d k u v) a.1 b (subst (λ w. w ≺ u) a.6 lt)
                  (omega (arith, a.3)) q))
        | inr (inl (s, p)) ↦
            rw (s, concat_roots)
              (to_the_left (branch i ll lr n h m f z) j rl rr c d k u v a b lt g q p (
                concat_roots_lem (branch i ll lr n h m f z) rl a b.0 (subst (λ w. z ≺ w) b.5 lt) g
                  (omega (arith, b.3))))
        | inr (inr (s, p, w)) ↦
            rw (s, concat_roots)
              (of_branch (branch i ll lr n h m f z) (branch j rl rr c d k u v) a b lt g q p w _
                (omega (arith, a.3)))
      ]

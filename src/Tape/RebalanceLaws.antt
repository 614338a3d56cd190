-- ===== src/Tape/RebalanceLaws.antt =====
-- What `rebalance` of src/framework/tape.rs keeps.
use plingo.Prelude.{
  ℕ, suc, ◌<◌, sym, subst, ap, ap₂, ◌∙◌, Bool-cases, leb, leb→le, leb→gt, inl, inr, arith,
}
use plingo.Tape.Between.{◌≺◌}
use plingo.Tape.Allocating.{◌>>=◌, Does, Does-bind, Does-weaken, Does-imp}
use plingo.Tape.Metric.{TapeEntry}
use plingo.Tape.Node.{
  TapeNode, leaf, branch, u16_max, height, first_order, last_order, IsValid, branch_of, make_branch,
  make_branch_lem, height_pos,
}
use plingo.Tape.Concat.{pivot_right, rotate_right, pivot_left, rotate_left_at, rebalance}
use plingo.Tape.Joined.{lean-cases, Joined, branch_of-Joined}
use plingo.Tape.Rotations.{single_right, double_right, single_left, double_left}

module _ {T : Type 0} ⦃e : TapeEntry T⦄ where
  -- Two branches on the way to a tree that joins two neighbours.
  two_branches :
      (l r a b : TapeNode T) (x : TapeNode T)
      → ((j c : ℕ) → Joined l r (branch_of j x (branch_of c a b)))
      → Does 3 (make_branch a b >>= λ t. make_branch x t) (Joined l r)
  two_branches l r a b x f = Does-weaken 2 3 _ (omega arith) (
      Does-bind 1 1 (make_branch a b) (λ t. make_branch x t) (make_branch_lem a b)
        (λ t q.
          Does-imp 1 (make_branch x t)
            (λ u w. subst (Joined l r) (ap (branch_of w.0 x) (sym q.1) ∙ sym w.1) (f w.0 q.0))
            (make_branch_lem x t)))

  two_branches_left :
      (l r a b x : TapeNode T)
      → ((j c : ℕ) → Joined l r (branch_of j (branch_of c a b) x))
      → Does 3 (make_branch a b >>= λ t. make_branch t x) (Joined l r)
  two_branches_left l r a b x f = Does-weaken 2 3 _ (omega arith) (
      Does-bind 1 1 (make_branch a b) (λ t. make_branch t x) (make_branch_lem a b)
        (λ t q.
          Does-imp 1 (make_branch t x)
            (λ u w.
              subst (Joined l r) (ap (λ y. branch_of w.0 y x) (sym q.1) ∙ sym w.1) (f w.0 q.0))
            (make_branch_lem t x)))

  three_branches :
      (l r a b c d : TapeNode T)
      → ((j k i : ℕ) → Joined l r (branch_of j (branch_of k a b) (branch_of i c d)))
      → Does 3 (make_branch a b >>= λ x. make_branch c d >>= λ y. make_branch x y) (Joined l r)
  three_branches l r a b c d f =
      Does-bind 1 2 (make_branch a b) (λ x. make_branch c d >>= λ y. make_branch x y)
        (make_branch_lem a b)
        (λ x p.
          Does-bind 1 1 (make_branch c d) (λ y. make_branch x y) (make_branch_lem c d)
            (λ y q.
              Does-imp 1 (make_branch x y)
                (λ u w.
                  subst (Joined l r) (ap₂ (branch_of w.0) (sym p.1) (sym q.1) ∙ sym w.1)
                    (f w.0 p.0 q.0))
                (make_branch_lem x y)))

  rotate_right_lem :
      (l r : TapeNode T)
      → IsValid l
      → IsValid r
      → last_order l ≺ first_order r
      → height l < u16_max
      → suc (height r) < height l
      → Does 3 (rotate_right l r) (Joined l r)
  rotate_right_lem (leaf i o x m) r a b lt k p = absurd (omega arith)
  rotate_right_lem (branch i ll lr n h m f z) r a b lt k p =
      elim (Bool-cases (leb (height lr) (height ll))) [
        | inl q ↦ rw q (
            two_branches (branch i ll lr n h m f z) r lr r ll
              (λ j c. single_right i j c ll lr r n h m f z a b lt k p (leb→le _ _ q)))
        | inr q ↦ rw q (by_pivot lr a (leb→gt _ _ q))
      ]
    where
      by_pivot :
          (pivot : TapeNode T)
          → IsValid (branch i ll pivot n h m f z)
          → height ll < height pivot
          → Does 3 (pivot_right ll pivot r) (Joined (branch i ll pivot n h m f z) r)
      by_pivot (leaf s o x pm) v q = absurd (omega (arith, height_pos ll v.0))
      by_pivot (branch s pl pr pn ph pm pf pz) v q =
          three_branches _ r ll pl pr r
            (λ j c d. double_right i j c d s ll pl pr r n h m f z pn ph pm pf pz v b lt k p q)

  rotate_left_lem :
      (l r : TapeNode T)
      → IsValid l
      → IsValid r
      → last_order l ≺ first_order r
      → height r < u16_max
      → suc (height l) < height r
      → Does 3 (rotate_left_at l r) (Joined l r)
  rotate_left_lem l (leaf i o x m) a b lt k p = absurd (omega arith)
  rotate_left_lem l (branch i rl rr n h m f z) a b lt k p =
      elim (Bool-cases (leb (height rl) (height rr))) [
        | inl q ↦ rw q (
            two_branches_left l (branch i rl rr n h m f z) l rl rr
              (λ j c. single_left i j c l rl rr n h m f z a b lt k p (leb→le _ _ q)))
        | inr q ↦ rw q (by_pivot rl b (leb→gt _ _ q))
      ]
    where
      by_pivot :
          (pivot : TapeNode T)
          → IsValid (branch i pivot rr n h m f z)
          → height rr < height pivot
          → Does 3 (pivot_left l pivot rr) (Joined l (branch i pivot rr n h m f z))
      by_pivot (leaf s o x pm) v q = absurd (omega (arith, height_pos rr v.1))
      by_pivot (branch s pl pr pn ph pm pf pz) v q =
          three_branches l _ l pl pr rr
            (λ j c d. double_left i j c d s l pl pr rr n h m f z pn ph pm pf pz a v lt k p q)

  -- Two valid neighbours, whatever their heights, are joined with at most three new branches.
  pub rebalance_lem :
      (l r : TapeNode T)
      → IsValid l
      → IsValid r
      → last_order l ≺ first_order r
      → height l < u16_max
      → height r < u16_max
      → Does 3 (rebalance l r) (Joined l r)
  unfolding rebalance
  rebalance_lem l r a b lt h k = elim (lean-cases (height l) (height r) h k) [
    | inl (q, p) ↦ rw (q, rebalance) (rotate_right_lem l r a b lt h p)
    | inr (inl (q, p)) ↦ rw (q, rebalance) (rotate_left_lem l r a b lt k p)
    | inr (inr (q, p, s)) ↦
        rw (q, rebalance)
          (Does-weaken 1 3 _ (omega arith) (
            Does-imp 1 (make_branch l r)
              (λ t w. subst (Joined l r) (sym w.1) (branch_of-Joined w.0 l r a b lt h k p s))
              (make_branch_lem l r)))
  ]

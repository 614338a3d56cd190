-- ===== src/Tape/Rotations.antt =====
-- The rotations of `rebalance` of src/framework/tape.rs.
use plingo.Prelude.{ℕ, suc, ◌≤◌, ◌<◌, refl, sym, subst, ap, ◌∙◌, ◌++◌, append_assoc, arith}
use plingo.Tape.OrderKey.{LeafOrderKey}
use plingo.Tape.Between.{◌≺◌}
use plingo.Tape.Metric.{SequenceMetric, TapeEntry}
use plingo.Tape.Node.{
  TapeNode, branch, u16_max, height, first_order, last_order, entries_of, IsValid, branch_of,
}
use plingo.Tape.Joined.{Joined, branch_of-IsValid}

module _ {T : Type 0} ⦃e : TapeEntry T⦄ where
  pub single_right :
      (i j c : ℕ) (ll lr r : TapeNode T) (n h : ℕ) (m : SequenceMetric) (f z : LeafOrderKey)
      → IsValid (branch i ll lr n h m f z)
      → IsValid r
      → z ≺ first_order r
      → h < u16_max
      → suc (height r) < h
      → height lr ≤ height ll
      → Joined (branch i ll lr n h m f z) r (branch_of j ll (branch_of c lr r))
  single_right i j c ll lr r n h m f z v b o k p q = record {
    valid =
        branch_of-IsValid j ll (branch_of c lr r) v.0
          (branch_of-IsValid c lr r v.1 b (subst (λ x. x ≺ first_order r) v.6 o)
            (omega (arith, v.3)) (omega arith))
          v.7 (omega (arith, v.3)) (omega (arith, v.3));
    entries = sym (append_assoc (entries_of ll) (entries_of lr) (entries_of r));
    first = sym v.5;
    last = refl;
    high = omega (arith, v.3);
    low = omega (arith, v.3);
    grows = λ x _. absurd (omega arith);
    balanced = λ x y s _. (
      x.0,
      (x.1, y, omega (arith, v.3, x.2, x.3), omega (arith, v.3, x.2, x.3)),
      omega (arith, v.3, x.2, x.3),
      omega (arith, v.3, x.2, x.3),
    );
  }

  pub double_right :
      (i j c d s : ℕ) (ll pl pr r : TapeNode T) (n h : ℕ) (m : SequenceMetric) (f z : LeafOrderKey)
      (pn ph : ℕ) (pm : SequenceMetric) (pf pz : LeafOrderKey)
      → IsValid (branch i ll (branch s pl pr pn ph pm pf pz) n h m f z)
      → IsValid r
      → z ≺ first_order r
      → h < u16_max
      → suc (height r) < h
      → height ll < ph
      → Joined
          (branch i ll (branch s pl pr pn ph pm pf pz) n h m f z)
          r
          (branch_of j (branch_of c ll pl) (branch_of d pr r))
  double_right i j c d s ll pl pr r n h m f z pn ph pm pf pz v b o k p q = record {
    valid =
        branch_of-IsValid j (branch_of c ll pl) (branch_of d pr r)
          (branch_of-IsValid c ll pl v.0 v.1.0 (subst (λ x. last_order ll ≺ x) v.1.5 v.7)
            (omega (arith, v.3)) (omega (arith, v.3, v.1.3)))
          (branch_of-IsValid d pr r v.1.1 b (subst (λ x. x ≺ first_order r) (v.6 ∙ v.1.6) o)
            (omega (arith, v.3, v.1.3)) (omega arith))
          v.1.7 (omega (arith, v.3, v.1.3)) (omega (arith, v.3, v.1.3));
    entries =
        append_assoc (entries_of ll) (entries_of pl) (entries_of pr ++ entries_of r)
        ∙ ap (entries_of ll ++◌) (sym (append_assoc (entries_of pl) (entries_of pr) (entries_of r)))
        ∙ sym (append_assoc (entries_of ll) (entries_of pl ++ entries_of pr) (entries_of r));
    first = sym v.5;
    last = refl;
    high = omega (arith, v.3, v.1.3);
    low = omega (arith, v.3, v.1.3);
    grows = λ x _. absurd (omega arith);
    balanced = λ x y t _. (
      (
        x.0,
        x.1.0,
        omega (arith, v.3, v.1.3, x.2, x.3, x.1.2, x.1.3),
        omega (arith, v.3, v.1.3, x.2, x.3, x.1.2, x.1.3),
      ),
      (
        x.1.1,
        y,
        omega (arith, v.3, v.1.3, x.2, x.3, x.1.2, x.1.3),
        omega (arith, v.3, v.1.3, x.2, x.3, x.1.2, x.1.3),
      ),
      omega (arith, v.3, v.1.3, x.2, x.3, x.1.2, x.1.3),
      omega (arith, v.3, v.1.3, x.2, x.3, x.1.2, x.1.3),
    );
  }

  pub single_left :
      (i j c : ℕ) (l rl rr : TapeNode T) (n h : ℕ) (m : SequenceMetric) (f z : LeafOrderKey)
      → IsValid l
      → IsValid (branch i rl rr n h m f z)
      → last_order l ≺ f
      → h < u16_max
      → suc (height l) < h
      → height rl ≤ height rr
      → Joined l (branch i rl rr n h m f z) (branch_of j (branch_of c l rl) rr)
  single_left i j c l rl rr n h m f z a v o k p q = record {
    valid =
        branch_of-IsValid j (branch_of c l rl) rr
          (branch_of-IsValid c l rl a v.0 (subst (λ x. last_order l ≺ x) v.5 o) (omega arith)
            (omega (arith, v.3)))
          v.1 v.7 (omega (arith, v.3)) (omega (arith, v.3));
    entries = append_assoc (entries_of l) (entries_of rl) (entries_of rr);
    first = refl;
    last = sym v.6;
    high = omega (arith, v.3);
    low = omega (arith, v.3);
    grows = λ _ x. absurd (omega arith);
    balanced = λ x y _ s. (
      (x, y.0, omega (arith, v.3, y.2, y.3), omega (arith, v.3, y.2, y.3)),
      y.1,
      omega (arith, v.3, y.2, y.3),
      omega (arith, v.3, y.2, y.3),
    );
  }

  pub double_left :
      (i j c d s : ℕ) (l pl pr rr : TapeNode T) (n h : ℕ) (m : SequenceMetric) (f z : LeafOrderKey)
      (pn ph : ℕ) (pm : SequenceMetric) (pf pz : LeafOrderKey)
      → IsValid l
      → IsValid (branch i (branch s pl pr pn ph pm pf pz) rr n h m f z)
      → last_order l ≺ f
      → h < u16_max
      → suc (height l) < h
      → height rr < ph
      → Joined l
          (branch i (branch s pl pr pn ph pm pf pz) rr n h m f z)
          (branch_of j (branch_of c l pl) (branch_of d pr rr))
  double_left i j c d s l pl pr rr n h m f z pn ph pm pf pz a v o k p q = record {
    valid =
        branch_of-IsValid j (branch_of c l pl) (branch_of d pr rr)
          (branch_of-IsValid c l pl a v.0.0 (subst (λ x. last_order l ≺ x) (v.5 ∙ v.0.5) o)
            (omega arith) (omega (arith, v.3, v.0.3)))
          (branch_of-IsValid d pr rr v.0.1 v.1 (subst (λ x. x ≺ first_order rr) v.0.6 v.7)
            (omega (arith, v.3, v.0.3)) (omega (arith, v.3)))
          v.0.7 (omega (arith, v.3, v.0.3)) (omega (arith, v.3, v.0.3));
    entries =
        append_assoc (entries_of l) (entries_of pl) (entries_of pr ++ entries_of rr)
        ∙ ap (entries_of l ++◌)
            (sym (append_assoc (entries_of pl) (entries_of pr) (entries_of rr)));
    first = refl;
    last = sym v.6;
    high = omega (arith, v.3, v.0.3);
    low = omega (arith, v.3, v.0.3);
    grows = λ _ x. absurd (omega arith);
    balanced = λ x y _ t. (
      (
        x,
        y.0.0,
        omega (arith, v.3, v.0.3, y.2, y.3, y.0.2, y.0.3),
        omega (arith, v.3, v.0.3, y.2, y.3, y.0.2, y.0.3),
      ),
      (
        y.0.1,
        y.1,
        omega (arith, v.3, v.0.3, y.2, y.3, y.0.2, y.0.3),
        omega (arith, v.3, v.0.3, y.2, y.3, y.0.2, y.0.3),
      ),
      omega (arith, v.3, v.0.3, y.2, y.3, y.0.2, y.0.3),
      omega (arith, v.3, v.0.3, y.2, y.3, y.0.2, y.0.3),
    );
  }

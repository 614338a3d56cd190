-- ===== src/Tape/Attach.antt =====
-- The steps of `concat_nodes` of src/framework/tape.rs: a root above two neighbours, or a neighbour
-- attached below one side of the taller.
use plingo.Prelude.{
  ℕ, suc, ◌+◌, ◌*◌, ◌≤◌, ◌<◌, max, ◌≡◌, sym, subst, ap, ◌∙◌, Bool-cases, leb, leb→le, leb→gt, inl,
  inr, ◌++◌, append_assoc, arith,
}
use plingo.Tape.OrderKey.{LeafOrderKey}
use plingo.Tape.Between.{◌≺◌}
use plingo.Tape.Order.{◌≼◌, ≼_then_≺}
use plingo.Tape.Allocating.{◌>>=◌, Does, Does-bind, Does-weaken, Does-imp}
use plingo.Tape.Metric.{SequenceMetric, TapeEntry}
use plingo.Tape.Node.{
  TapeNode, branch, u16_max, height, first_order, last_order, entries_of, IsValid, IsBalanced,
  make_branch, make_branch_lem,
}
use plingo.Tape.Concat.{rebalance, concat_roots}
use plingo.Tape.Joined.{Joined, branch_of-Joined}
use plingo.Tape.RebalanceLaws.{rebalance_lem}

module _ {T : Type 0} ⦃e : TapeEntry T⦄ where
  -- A tree for two neighbours: it holds their entries in order, starts with the first label, ends at
  -- the last label or before it, is at most one level higher, and balanced where they are.
  pub record Concatenated (l r t : TapeNode T) : Type 0 where
    pub valid : IsValid t
    pub entries : entries_of t ≡ entries_of l ++ entries_of r
    pub first : first_order t ≡ first_order l
    pub last : last_order t ≼ last_order r
    pub high : height t ≤ suc (max (height l) (height r))
    pub balanced :
        IsBalanced l → IsBalanced r → IsBalanced t × (max (height l) (height r) ≤ height t)

  pub of_branch :
      (l r : TapeNode T)
      → IsValid l
      → IsValid r
      → last_order l ≺ first_order r
      → height l < u16_max
      → height r < u16_max
      → height l ≤ suc (height r)
      → height r ≤ suc (height l)
      → (k : ℕ) → 0 < k
      → Does k (make_branch l r) (Concatenated l r)
  of_branch l r a b o h g p q k pos = Does-weaken 1 k _ pos (
      Does-imp 1 (make_branch l r)
        (λ t w. subst (Concatenated l r) (sym w.1) (
          let j = branch_of-Joined w.0 l r a b o h g p q in
          record {
            valid = j.valid;
            entries = j.entries;
            first = j.first;
            last = inr j.last;
            high = j.high;
            balanced = λ x y. (j.balanced x y (omega arith) (omega arith), j.low);
          }))
        (make_branch_lem l r))

  -- The right spine of a tall left side, below which the right side was attached.
  attach_right :
      (i : ℕ) (ll lr r joined t : TapeNode T) (n h : ℕ) (m : SequenceMetric) (f z : LeafOrderKey)
      → IsValid (branch i ll lr n h m f z)
      → suc (height r) < h
      → Concatenated lr r joined
      → Joined ll joined t
      → Concatenated (branch i ll lr n h m f z) r t
  attach_right i ll lr r joined t n h m f z v p c j = record {
    valid = j.valid;
    entries =
        j.entries
        ∙ ap (entries_of ll ++◌) c.entries
        ∙ sym (append_assoc (entries_of ll) (entries_of lr) (entries_of r));
    first = j.first ∙ sym v.5;
    last = subst (λ x. x ≼ last_order r) (sym j.last) c.last;
    high = omega (arith, j.high, c.high, v.3);
    balanced = λ x y.
        let (b, low) = c.balanced x.1 y in
        (
          j.balanced x.0 b (omega (arith, low, x.2, x.3))
              (omega (arith, low, c.high, x.2, x.3, v.3, p)),
          elim (Bool-cases (leb (height joined) (suc (height ll)))) [
            | inl s ↦ omega (arith, j.grows (omega (arith, low, x.2)) (leb→le _ _ s), v.3, p, low)
            | inr s ↦ omega (arith, j.low, leb→gt _ _ s, v.3, p, x.2, x.3)
          ],
        );
  }

  attach_left :
      (i : ℕ) (l rl rr joined t : TapeNode T) (n h : ℕ) (m : SequenceMetric) (f z : LeafOrderKey)
      → IsValid (branch i rl rr n h m f z)
      → suc (height l) < h
      → Concatenated l rl joined
      → Joined joined rr t
      → Concatenated l (branch i rl rr n h m f z) t
  attach_left i l rl rr joined t n h m f z v p c j = record {
    valid = j.valid;
    entries =
        j.entries
        ∙ ap (λ x. x ++ entries_of rr) c.entries
        ∙ append_assoc (entries_of l) (entries_of rl) (entries_of rr);
    first = j.first ∙ c.first;
    last = inr (j.last ∙ sym v.6);
    high = omega (arith, j.high, c.high, v.3);
    balanced = λ x y.
        let (b, low) = c.balanced x y.0 in
        (
          j.balanced b y.1 (omega (arith, low, c.high, y.2, y.3, v.3, p))
              (omega (arith, low, y.2, y.3)),
          elim (Bool-cases (leb (height joined) (suc (height rr)))) [
            | inl s ↦ omega (arith, j.grows (leb→le _ _ s) (omega (arith, low, y.3)), v.3, p, low)
            | inr s ↦ omega (arith, j.low, leb→gt _ _ s, v.3, p, y.2, y.3)
          ],
        );
  }

  -- A tall left side: attach to its right child, and rebalance.
  pub to_the_right :
      (i : ℕ) (ll lr r : TapeNode T) (n h : ℕ) (m : SequenceMetric) (f z : LeafOrderKey)
      → IsValid (branch i ll lr n h m f z)
      → IsValid r
      → z ≺ first_order r
      → h < u16_max
      → height r < u16_max
      → suc (height r) < h
      → Does (3 * (height lr + height r)) (concat_roots lr r) (Concatenated lr r)
      → Does
          (3 * (h + height r))
          (concat_roots lr r >>= λ joined. rebalance ll joined)
          (Concatenated (branch i ll lr n h m f z) r)
  to_the_right i ll lr r n h m f z v b lt g q p d =
      Does-weaken (3 * (height lr + height r) + 3) _ _ (omega (arith, v.3)) (
        Does-bind (3 * (height lr + height r)) 3 (concat_roots lr r) (λ joined. rebalance ll joined)
          d
          (λ joined c.
            Does-imp 3 (rebalance ll joined)
              (λ t j. attach_right i ll lr r joined t n h m f z v p c j)
              (rebalance_lem ll joined v.0 c.valid
                (subst (λ w. last_order ll ≺ w) (sym c.first) v.7) (omega (arith, v.3))
                (omega (arith, c.high, v.3, p)))))

  pub to_the_left :
      (l : TapeNode T) (i : ℕ) (rl rr : TapeNode T) (n h : ℕ) (m : SequenceMetric)
      (f z : LeafOrderKey)
      → IsValid l
      → IsValid (branch i rl rr n h m f z)
      → last_order l ≺ f
      → height l < u16_max
      → h < u16_max
      → suc (height l) < h
      → Does (3 * (height l + height rl)) (concat_roots l rl) (Concatenated l rl)
      → Does
          (3 * (height l + h))
          (concat_roots l rl >>= λ joined. rebalance joined rr)
          (Concatenated l (branch i rl rr n h m f z))
  to_the_left l i rl rr n h m f z a v lt q g p d =
      Does-weaken (3 * (height l + height rl) + 3) _ _ (omega (arith, v.3)) (
        Does-bind (3 * (height l + height rl)) 3 (concat_roots l rl) (λ joined. rebalance joined rr)
          d
          (λ joined c.
            Does-imp 3 (rebalance joined rr)
              (λ t j. attach_left i l rl rr joined t n h m f z v p c j)
              (rebalance_lem joined rr c.valid v.1
                (≼_then_≺ (last_order joined) (last_order rl) (first_order rr) c.last v.7)
                (omega (arith, c.high, v.3, p)) (omega (arith, v.3)))))

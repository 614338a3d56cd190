-- ===== src/Tape/SplitLaws.antt =====
-- What `split_node` of src/framework/tape.rs returns inside the bounds.
use plingo.Prelude.{
  ℕ, ◌+◌, ◌-◌, ◌*◌, ◌≤◌, ◌<◌, max, ◌≡◌, refl, sym, subst, ap, ◌∙◌, true, Option, none, some, List,
  ◌++◌, length, take, drop, length-take, length-drop, take-append_left, take-append_right,
  drop-append_left, drop-append_right, take_front, drop_front, arith,
}
use plingo.Tape.OrderKey.{LeafOrderKey}
use plingo.Tape.Between.{◌≺◌, is_positive, Above, Below, InOrder, size_of, between_lem}
use plingo.Tape.Order.{◌≼◌, ≼_then_≺}
use plingo.Tape.Allocating.{Does}
use plingo.Tape.Metric.{SequenceMetric, TapeEntry}
use plingo.Tape.Node.{
  TapeNode, leaf, branch, len, height, first_order, last_order, entries_of, IsValid, IsBalanced,
  leaf_of, len-entries_of,
}
use plingo.Tape.Attach.{Concatenated}
use plingo.Tape.Split.{key_between, TapePair}

pub key_between_lem :
    (left right : Option LeafOrderKey)
    → InOrder left right
    → Does 0
        (key_between left right)
        (λ key. Above left key × Below right key × (is_positive key ≡ true))
key_between_lem left right o a r =
    let (key, e, above, below, p) = between_lem (size_of right + 1) left right o (omega arith) in
    (
      key,
      a,
      ap (λ f. elim f [ none ↦ none | some k ↦ some (k, a) ]) e,
      (omega arith, omega arith, omega arith, omega arith),
      (above, below, p),
    )

pub Below-≼ :
    (upper : Option LeafOrderKey) (a b : LeafOrderKey) → a ≼ b → Below upper b → Below upper a
Below-≼ none a b h k = tt
Below-≼ (some u) a b h k = (≼_then_≺ a b u h k.0, k.1)

module _ {T : Type 0} ⦃e : TapeEntry T⦄ where
  pub first_positive : (t : TapeNode T) → IsValid t → is_positive (first_order t) ≡ true
  first_positive (leaf i o x m) v = v.2
  first_positive (branch i l r n h m f z) v = rw v.5 (first_positive l v.0)

  -- The identities that a split takes at most.
  abbrev pub split_cost : TapeNode T → ℕ
  split_cost (leaf i o x m) = 2
  split_cost (branch i l r n h m f z) = max (split_cost l) (split_cost r) + 6 * h

  -- The two parts of a tree below an upper label: they hold the first `rank` entries and the rest, their
  -- labels stay in order and below the upper label, and they are no higher, and balanced where it is.
  pub record Halves (t : TapeNode T) (rank : ℕ) (upper : Option LeafOrderKey) (p q : TapeNode T)
      : Type 0 where
    pub left_valid : IsValid p
    pub right_valid : IsValid q
    pub left_entries : entries_of p ≡ take rank (entries_of t)
    pub right_entries : entries_of q ≡ drop rank (entries_of t)
    pub left_first : first_order p ≡ first_order t
    pub gap : last_order p ≺ first_order q
    pub right_last : Below upper (last_order q)
    pub left_high : height p ≤ height t
    pub right_high : height q ≤ height t
    pub balanced : IsBalanced t → IsBalanced p × IsBalanced q

  abbrev pub IsHalved : TapeNode T → ℕ → Option LeafOrderKey → TapePair T → Type 0
  IsHalved t rank upper s =
      (p : TapeNode T) × (q : TapeNode T) × (s ≡ (some p, some q)) × Halves t rank upper p q

  pub split_leaf :
      (i j k : ℕ) (o key : LeafOrderKey) (x : List T) (m : SequenceMetric) (rank : ℕ)
      (upper : Option LeafOrderKey)
      → IsValid (leaf i o x m)
      → 0 < rank
      → rank < length x
      → o ≺ key
      → Below upper key
      → is_positive key ≡ true
      → Halves (leaf i o x m) rank upper (leaf_of j o (take rank x)) (leaf_of k key (drop rank x))
  split_leaf i j k o key x m rank upper v lo hi lt below p = record {
    left_valid =
        (omega (arith, length-take rank x), omega (arith, length-take rank x, v.1), v.2, refl);
    right_valid =
        (omega (arith, length-drop rank x), omega (arith, length-drop rank x, v.1), p, refl);
    left_entries = refl;
    right_entries = refl;
    left_first = refl;
    gap = lt;
    right_last = below;
    left_high = omega arith;
    right_high = omega arith;
    balanced = λ _. (tt, tt);
  }

  pub split_leftward :
      (i : ℕ) (l r p q suffix : TapeNode T) (n h : ℕ) (m : SequenceMetric) (f z : LeafOrderKey)
      (rank : ℕ) (upper : Option LeafOrderKey)
      → IsValid (branch i l r n h m f z)
      → rank < len l
      → Below upper z
      → Halves l rank (some (first_order r)) p q
      → Concatenated q r suffix
      → Halves (branch i l r n h m f z) rank upper p suffix
  split_leftward i l r p q suffix n h m f z rank upper v lt below s c =
      let bound : rank ≤ length (entries_of l) = omega (arith, lt, len-entries_of l v.0) in
      record {
        left_valid = s.left_valid;
        right_valid = c.valid;
        left_entries =
            s.left_entries ∙ sym (take-append_left (entries_of l) (entries_of r) rank bound);
        right_entries =
            c.entries
            ∙ ap (λ x. x ++ entries_of r) s.right_entries
            ∙ sym (drop-append_left (entries_of l) (entries_of r) rank bound);
        left_first = s.left_first ∙ sym v.5;
        gap = subst (λ x. last_order p ≺ x) (sym c.first) s.gap;
        right_last = Below-≼ upper _ _ (subst (λ x. last_order suffix ≼ x) (sym v.6) c.last) below;
        left_high = omega (arith, s.left_high, v.3);
        right_high = omega (arith, c.high, s.right_high, v.3);
        balanced = λ b. ((s.balanced b.0).0, (c.balanced (s.balanced b.0).1 b.1).0);
      }

  pub split_rightward :
      (i : ℕ) (l r p q prefix : TapeNode T) (n h : ℕ) (m : SequenceMetric) (f z : LeafOrderKey)
      (rank : ℕ) (upper : Option LeafOrderKey)
      → IsValid (branch i l r n h m f z)
      → len l < rank
      → Halves r (rank - len l) upper p q
      → Concatenated l p prefix
      → Halves (branch i l r n h m f z) rank upper prefix q
  split_rightward i l r p q prefix n h m f z rank upper v lt s c =
      let bound : length (entries_of l) ≤ rank = omega (arith, lt, len-entries_of l v.0) in
      let size = len-entries_of l v.0 in
      record {
        left_valid = c.valid;
        right_valid = s.right_valid;
        left_entries =
            c.entries
            ∙ ap (entries_of l ++◌) (s.left_entries ∙ ap (λ k. take (rank - k) (entries_of r)) size)
            ∙ sym (take-append_right (entries_of l) (entries_of r) rank bound);
        right_entries =
            s.right_entries
            ∙ ap (λ k. drop (rank - k) (entries_of r)) size
            ∙ sym (drop-append_right (entries_of l) (entries_of r) rank bound);
        left_first = c.first ∙ sym v.5;
        gap = ≼_then_≺ _ _ _ c.last s.gap;
        right_last = s.right_last;
        left_high = omega (arith, c.high, s.left_high, v.3);
        right_high = omega (arith, s.right_high, v.3);
        balanced = λ b. ((c.balanced b.0 (s.balanced b.1).0).0, (s.balanced b.1).1);
      }

  pub split_between :
      (i : ℕ) (l r : TapeNode T) (n h : ℕ) (m : SequenceMetric) (f z : LeafOrderKey) (rank : ℕ)
      (upper : Option LeafOrderKey)
      → IsValid (branch i l r n h m f z)
      → rank ≡ len l
      → Below upper z
      → Halves (branch i l r n h m f z) rank upper l r
  split_between i l r n h m f z rank upper v same below =
      let size : rank ≡ length (entries_of l) = same ∙ len-entries_of l v.0 in
      record {
        left_valid = v.0;
        right_valid = v.1;
        left_entries = sym (take_front (entries_of l) (entries_of r) rank size);
        right_entries = sym (drop_front (entries_of l) (entries_of r) rank size);
        left_first = sym v.5;
        gap = v.7;
        right_last = subst (Below upper) v.6 below;
        left_high = omega (arith, v.3);
        right_high = omega (arith, v.3);
        balanced = λ b. (b.0, b.1);
      }

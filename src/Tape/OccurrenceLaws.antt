-- ===== src/Tape/OccurrenceLaws.antt =====
-- Lookup by label in a valid tree of src/framework/tape.rs.
use plingo.Prelude.{
  ℕ, ◌+◌, ◌≤◌, ◌<◌, ◌≡◌, refl, sym, subst, ap, ◌∙◌, true, [], ◌∷◌, length, get_elem?,
  get_elem?-append_left, get_elem?-append_right, some, inl, inr, arith,
}
use Prim.Native.Nat.{Ordering}
use plingo.Tape.OrderKey.{LeafOrderKey, cmp}
use plingo.Tape.Between.{◌≺◌}
use plingo.Tape.Order.{◌≼◌, ≼_then_≺, ≺_then_≼}
use plingo.Tape.Metric.{TapeEntry}
use plingo.Tape.Node.{
  TapeNode, leaf, branch, len, first_order, last_order, entries_of, IsValid, len-entries_of,
}
use plingo.Tape.Search.{at_most, label_eq, rank_of_order, leaf_at_order}
use plingo.Tape.Parts.{first-last}
use plingo.Tape.Occurrence.{LeafAt}

label_eq_refl : (a : LeafOrderKey) → label_eq a a ≡ true
unfolding label_eq
label_eq_refl [] = refl
label_eq_refl (b ∷ a) = ground (arith, label_eq_refl a)

cmp_refl : (a : LeafOrderKey) → cmp a a ≡ Ordering.eq
unfolding cmp
cmp_refl [] = refl
cmp_refl (b ∷ a) = ground (arith, cmp_refl a)

cmp_flip : (a b : LeafOrderKey) → a ≺ b → cmp b a ≡ Ordering.gt
unfolding cmp
cmp_flip [] [] h = cc
cmp_flip [] (y ∷ b) h = ground (arith, cmp_flip [] b)
cmp_flip (x ∷ a) [] h = ground (arith, cmp_flip a [])
cmp_flip (x ∷ a) (y ∷ b) h = ground (arith, cmp_flip a b)

at_most_of_≼ : (a b : LeafOrderKey) → a ≼ b → at_most (cmp a b) ≡ true
at_most_of_≼ a b (inl h) = rw h refl
at_most_of_≼ a b (inr h) = rw (h, cmp_refl b) refl

module _ {T : Type 0} ⦃e : TapeEntry T⦄ where
  -- The labels in a tree lie between its first and its last.
  in_bounds :
      (t : TapeNode T) (k : ℕ) (s : TapeNode T)
      → IsValid t
      → LeafAt t k s
      → (first_order t ≼ first_order s) × (first_order s ≼ last_order t)
  in_bounds (leaf i o x m) k s v a = (inr (ap first_order (sym a.1)), inr (ap first_order a.1))
  in_bounds (branch i l r n h m f z) k s v (inl a) =
      let (low, high) = in_bounds l k s v.0 a in
      (
        subst (λ w. w ≼ first_order s) (sym v.5) low,
        inl (
            subst (λ w. first_order s ≺ w) (sym v.6)
              (≺_then_≼ (first_order s) (first_order r) (last_order r)
                (≼_then_≺ (first_order s) (last_order l) (first_order r) high v.7)
                (first-last r v.1))),
      )
  in_bounds (branch i l r n h m f z) k s v (inr (j, same, a)) =
      let (low, high) = in_bounds r j s v.1 a in
      (
        inl (
            subst (λ w. w ≺ first_order s) (sym v.5)
              (≺_then_≼ (first_order l) (first_order r) (first_order s)
                (≼_then_≺ (first_order l) (last_order l) (first_order r) (first-last l v.0) v.7)
                low)),
        subst (λ w. first_order s ≼ w) (sym v.6) high,
      )

  -- Leaf and rank are found by the label.
  pub rank_of_order_lem :
      (t : TapeNode T) (k base : ℕ) (s : TapeNode T)
      → IsValid t
      → LeafAt t k s
      → (rank_of_order t (first_order s) base ≡ some (base + k))
        × (leaf_at_order t (first_order s) ≡ some s)
  unfolding rank_of_order leaf_at_order
  rank_of_order_lem (leaf i o x m) k base s v a =
      let label : first_order s ≡ o = ap first_order a.1 in
      rw (label, label_eq_refl o) (ap some (omega (arith, a.0)), ap some (sym a.1))
  rank_of_order_lem (branch i l r n h m f z) k base s v (inl a) =
      let (p, q) = rank_of_order_lem l k base s v.0 a in
      rw (at_most_of_≼ (first_order s) (last_order l) (in_bounds l k s v.0 a).1) (p, q)
  rank_of_order_lem (branch i l r n h m f z) k base s v (inr (j, same, a)) =
      let (p, q) = rank_of_order_lem r j (base + len l) s v.1 a in
      let (low, high) = in_bounds r j s v.1 a in
      let past =
        cmp_flip (last_order l) (first_order s)
          (≺_then_≼ (last_order l) (first_order r) (first_order s) v.7 low) in
      rw past (p ∙ ap some (omega (arith, same)), q)

  leaf_inside :
      (t : TapeNode T) (k : ℕ) (s : TapeNode T)
      → IsValid t
      → LeafAt t k s
      → k + length (entries_of s) ≤ len t
  leaf_inside (leaf i o x m) k s v a = omega (arith, a.0, ap (λ w. length (entries_of w)) a.1)
  leaf_inside (branch i l r n h m f z) k s v (inl a) = omega (arith, leaf_inside l k s v.0 a, v.2)
  leaf_inside (branch i l r n h m f z) k s v (inr (j, same, a)) =
      omega (arith, leaf_inside r j s v.1 a, v.2, same)

  pub leaf_entries :
      (t : TapeNode T) (k j : ℕ) (s : TapeNode T)
      → IsValid t
      → LeafAt t k s
      → j < length (entries_of s)
      → get_elem? (entries_of t) (k + j) ≡ get_elem? (entries_of s) j
  leaf_entries (leaf i o x m) k j s v a h =
      ap (get_elem? x) (omega (arith, a.0)) ∙ ap (λ w. get_elem? (entries_of w) j) (sym a.1)
  leaf_entries (branch i l r n h m f z) k j s v (inl a) lt =
      get_elem?-append_left (entries_of l) (entries_of r) (k + j)
        (omega (arith, leaf_inside l k s v.0 a, lt, len-entries_of l v.0))
      ∙ leaf_entries l k j s v.0 a lt
  leaf_entries (branch i l r n h m f z) k j s v (inr (q, same, a)) lt =
      let size = len-entries_of l v.0 in
      get_elem?-append_right (entries_of l) (entries_of r) (k + j) (omega (arith, same, size))
      ∙ ap (get_elem? (entries_of r)) (omega (arith, same, size))
      ∙ leaf_entries r q j s v.1 a lt

-- ===== src/Tape/Parts.antt =====
-- What `split_at` and `concat_nodes` of src/framework/tape.rs do to the entries of whole tapes, and how
-- many nodes they make.
use plingo.Prelude.{
  ℕ, zero, suc, ◌+◌, ◌*◌, ◌≤◌, ◌<◌, max, ◌≡◌, refl, sym, subst, ap, ap₂, ◌∙◌, Bool-cases, List,
  ◌++◌, append-nil, Option, none, some, length, take, drop, take-length, drop-length, take-nil,
  drop-nil, inl, inr, leb, leb→le, leb→gt, arith,
}
use plingo.Tape.OrderKey.{LeafOrderKey}
use plingo.Tape.Between.{◌≺◌, Above}
use plingo.Tape.Order.{◌≼◌, ≼_then_≺, ≺_trans}
use plingo.Tape.Allocating.{Does, Does-returns, Does-weaken, Does-imp}
use plingo.Tape.Metric.{TapeEntry}
use plingo.Tape.Node.{
  TapeNode, leaf, branch, u16_max, len, height, first_order, last_order, IsValid, len-entries_of,
}
use plingo.Tape.Concat.{concat_nodes}
use plingo.Tape.Split.{split_node}
use plingo.Tape.SplitLaws.{split_cost, first_positive, Below-≼}
use plingo.Tape.SplitNode.{split_node_lem, split_node-zero, split_node-full, concat_nodes_lem}
use plingo.Tape.BuildLaws.{Built}
use plingo.Tape.Stable.{StableTape, tape_len, first_order_key, last_order_key, split_at}
use plingo.Tape.Fitting.{IsTape, IsTape-higher}

-- The identities that a split of a tree of a height takes at most.
abbrev pub split_bound : ℕ → ℕ
split_bound zero = 2
split_bound (suc h) = split_bound h + 6 * suc h

pub split_bound_monotone : (g h : ℕ) → g ≤ h → split_bound g ≤ split_bound h
split_bound_monotone zero zero l = omega arith
split_bound_monotone zero (suc h) l = omega (arith, split_bound_monotone zero h (omega arith))
split_bound_monotone (suc g) zero l = absurd (omega arith)
split_bound_monotone (suc g) (suc h) l = omega (arith, split_bound_monotone g h (omega arith))

-- What lies above a label above the bound lies above the bound.
Above-≺ : (lower : Option LeafOrderKey) (a b : LeafOrderKey) → Above lower a → a ≺ b → Above lower b
Above-≺ none a b h k = tt
Above-≺ (some lower) a b h k = ≺_trans lower a b h k

module _ {T : Type 0} ⦃e : TapeEntry T⦄ where
  pub first-last : (t : TapeNode T) → IsValid t → first_order t ≼ last_order t
  first-last (leaf i o x m) v = inr refl
  first-last (branch i l r n h m f z) v =
      let left = ≼_then_≺ (first_order l) (last_order l) (first_order r) (first-last l v.0) v.7 in
      let whole : first_order l ≺ last_order r = elim (first-last r v.1) [
        | inl lt ↦ ≺_trans (first_order l) (first_order r) (last_order r) left lt
        | inr same ↦ subst (λ w. first_order l ≺ w) same left
      ] in
      inl (subst (λ w. w ≺ z) (sym v.5) (subst (λ w. first_order l ≺ w) (sym v.6) whole))

  pub split_cost_bound : (t : TapeNode T) → IsValid t → split_cost t ≤ split_bound (height t)
  split_cost_bound (leaf i o x m) v = omega arith
  split_cost_bound (branch i l r n h m f z) v =
      let below = max (height l) (height r) in
      let left = split_bound_monotone (height l) below (omega arith) in
      let right = split_bound_monotone (height r) below (omega arith) in
      subst (λ k. split_cost (branch i l r n h m f z) ≤ split_bound k) (sym v.3)
        (omega (arith, left, right, split_cost_bound l v.0, split_cost_bound r v.1, v.3))

  -- The two parts of a tape at a rank: the labels of the first end below those of the second.
  abbrev pub AreParts : Option LeafOrderKey → ℕ → List T → ℕ → StableTape T × StableTape T → Type 0
  AreParts lower h x rank parts =
      (front : StableTape T) × (back : StableTape T) × (parts ≡ (front, back))
      × IsTape lower (first_order_key back) h (take rank x) front
      × IsTape (last_order_key front) none h (drop rank x) back
      × IsTape lower none h (drop rank x) back

  split_root :
      (lower : Option LeafOrderKey) (h : ℕ) (x : List T) (root : TapeNode T) (rank : ℕ)
      → h < u16_max
      → rank ≤ length x
      → Built lower none h x root
      → Does (split_bound h) (split_node root rank none) (AreParts lower h x rank)
  split_root lower h x root zero g l b =
      subst (λ m. Does (split_bound h) m (AreParts lower h x zero))
        (sym (split_node-zero root none))
        (Does-returns (split_bound h) (none, some root)
          (
            none,
            some root,
            refl,
            refl,
            record { valid = b.valid; above = tt; below = tt; holds = b.holds; high = b.high },
            b,
          ))
  split_root lower h x root (suc rank) g l b =
      let size : len root ≡ length x = len-entries_of root b.valid ∙ ap length b.holds in
      let cost = split_bound_monotone (height root) h b.high in
      elim (Bool-cases (leb (length x) (suc rank))) [
        | inl all ↦
            let whole : suc rank ≡ length x = omega (arith, l, leb→le _ _ all) in
            subst (λ m. Does (split_bound h) m (AreParts lower h x (suc rank)))
              (sym
                (split_node-full root (suc rank) none (omega arith) (omega (arith, size, whole))))
              (Does-returns (split_bound h) (some root, none)
                (
                  some root,
                  none,
                  refl,
                  record {
                    valid = b.valid;
                    above = b.above;
                    below = tt;
                    holds = b.holds ∙ sym (take-length x) ∙ ap (λ k. take k x) (sym whole);
                    high = b.high;
                  },
                  ap (λ k. drop k x) whole ∙ drop-length x,
                  ap (λ k. drop k x) whole ∙ drop-length x,
                ))
        | inr inside ↦
            Does-weaken (split_cost root) _ _ (omega (arith, cost, split_cost_bound root b.valid)) (
              Does-imp (split_cost root) (split_node root (suc rank) none)
                (λ parts (p, q, same, s). (
                  some p,
                  some q,
                  same,
                  record {
                    valid = s.left_valid;
                    above = subst (Above lower) (sym s.left_first) b.above;
                    below = (s.gap, first_positive q s.right_valid);
                    holds = s.left_entries ∙ ap (take (suc rank)) b.holds;
                    high = omega (arith, s.left_high, b.high);
                  },
                  record {
                    valid = s.right_valid;
                    above = s.gap;
                    below = tt;
                    holds = s.right_entries ∙ ap (drop (suc rank)) b.holds;
                    high = omega (arith, s.right_high, b.high);
                  },
                  record {
                    valid = s.right_valid;
                    above = Above-≺ lower (first_order root) (first_order q) b.above (
                        subst (λ w. w ≺ first_order q) s.left_first
                          (≼_then_≺ _ _ _ (first-last p s.left_valid) s.gap));
                    below = tt;
                    holds = s.right_entries ∙ ap (drop (suc rank)) b.holds;
                    high = omega (arith, s.right_high, b.high);
                  },
                ))
                (split_node_lem root (suc rank) none b.valid (omega arith)
                  (omega (arith, size, leb→gt _ _ inside)) tt (omega (arith, b.high, g))))
      ]

  pub tape_len_lem :
      (lower upper : Option LeafOrderKey) (h : ℕ) (x : List T) (t : StableTape T)
      → IsTape lower upper h x t
      → tape_len t ≡ length x
  tape_len_lem lower upper h x none k = ap length (sym k)
  tape_len_lem lower upper h x (some root) k = len-entries_of root k.valid ∙ ap length k.holds

  -- A split of a valid tape, at a rank up to its length, gives two valid tapes, no higher, with the
  -- entries before the rank and from it on, and the labels of the first below those of the second.
  pub tape_split_at_lem :
      (lower : Option LeafOrderKey) (h : ℕ) (x : List T) (t : StableTape T) (rank : ℕ)
      → h < u16_max
      → rank ≤ length x
      → IsTape lower none h x t
      → Does (split_bound h) (split_at t rank) (AreParts lower h x rank)
  unfolding split_at
  tape_split_at_lem lower h x none rank g l k =
      Does-returns (split_bound h) (none, none)
        (
          none,
          none,
          refl,
          ap (take rank) k ∙ take-nil rank,
          ap (drop rank) k ∙ drop-nil rank,
          ap (drop rank) k ∙ drop-nil rank,
        )
  tape_split_at_lem lower h x (some root) rank g l k =
      subst (λ r. Does (split_bound h) (split_node root r none) (AreParts lower h x rank))
        (omega (arith, l, tape_len_lem lower none h x (some root) k))
        (split_root lower h x root rank g l k)

  -- Two tapes, the labels of the second above those of the first.
  pub concat_nodes-IsTape :
      (upper : Option LeafOrderKey) (h g : ℕ) (x y : List T) (l r : StableTape T)
      → h < u16_max
      → g < u16_max
      → IsTape none upper h x l
      → IsTape (last_order_key l) upper g y r
      → Does (3 * (h + g)) (concat_nodes l r) (IsTape none upper (suc (max h g)) (x ++ y))
  unfolding concat_nodes
  concat_nodes-IsTape upper h g x y none none p q k j = Does-returns _ none (ap₂ ◌++◌ k j)
  concat_nodes-IsTape upper h g x y none (some r) p q k j = Does-returns _ (some r) (
      subst (λ w. IsTape none upper (suc (max h g)) (w ++ y) (some r)) (sym k)
        (IsTape-higher none upper g (suc (max h g)) y (some r) (omega arith) j))
  concat_nodes-IsTape upper h g x y (some l) none p q k j = Does-returns _ (some l) (
      subst (λ w. IsTape none upper (suc (max h g)) w (some l))
        (sym (append-nil x) ∙ ap (x ++◌) (sym j))
        (IsTape-higher none upper h (suc (max h g)) x (some l) (omega arith) k))
  concat_nodes-IsTape upper h g x y (some l) (some r) p q k j =
      Does-imp (3 * (h + g)) (concat_nodes (some l) (some r))
        (λ t (root, same, c). subst (IsTape none upper (suc (max h g)) (x ++ y)) (sym same) record {
          valid = c.valid;
          above = tt;
          below = Below-≼ upper _ _ c.last j.below;
          holds = c.entries ∙ ap₂ ◌++◌ k.holds j.holds;
          high = omega (arith, c.high, k.high, j.high);
        })
        (concat_nodes_lem (3 * (h + g)) l r k.valid j.valid j.above (omega (arith, k.high))
          (omega (arith, j.high)) (omega (arith, k.high, j.high)))

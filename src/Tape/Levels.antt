-- ===== src/Tape/Levels.antt =====
-- The shape that `build_balanced` of src/framework/tape.rs gives to a row with an odd node.
use plingo.Prelude.{
  ℕ, zero, suc, ◌+◌, ◌^◌, ◌≤◌, ◌<◌, ◌≡◌, refl, sym, subst, ap, ◌∙◌, List, [], ◌∷◌, ◌++◌,
  append_assoc, append-nil, length, arith,
}
use native.Mathlib.Nat.{pow-suc}
use plingo.Tape.InitialLaws.{two-pow_pos}
use plingo.Tape.BuildLaws.{row_entries}
use plingo.Tape.Allocating.{Does, Does-returns, Does-bind, Does-weaken, Does-imp}
use plingo.Tape.Metric.{TapeEntry}
use plingo.Tape.Node.{
  TapeNode, u16_max, entries_of, height, IsBalanced, branch_of, make_branch, make_branch_lem,
}
use plingo.Tape.Build.{pair_level, build_balanced}

module _ {T : Type 0} ⦃e : TapeEntry T⦄ where
  pair :
      (l r : TapeNode T) (row : List (TapeNode T)) (k : ℕ) {Q : List (TapeNode T) → Type 0}
      → ((i : ℕ) → Does k (pair_level row) (λ next. Q (branch_of i l r ∷ next)))
      → Does (1 + k) (pair_level (l ∷ r ∷ row)) Q
  unfolding pair_level
  pair l r row k {Q} d = Does-weaken (1 + (k + 0)) _ _ (omega arith) (
      Does-bind 1 (k + 0) (make_branch l r) _ (make_branch_lem l r) (λ t w.
        Does-bind k 0 (pair_level row) _ (d w.0)
          (λ next q. Does-returns 0 (t ∷ next) (subst (λ x. Q (x ∷ next)) (sym w.1) q))))

  level :
      (l r : TapeNode T) (row : List (TapeNode T)) (fuel j k : ℕ) {P : TapeNode T → Type 0}
      → Does j (pair_level (l ∷ r ∷ row)) (λ next. Does k (build_balanced fuel next) P)
      → Does (j + k) (build_balanced (suc fuel) (l ∷ r ∷ row)) P
  unfolding build_balanced
  level l r row fuel j k d =
      Does-bind j k (pair_level (l ∷ r ∷ row)) (λ next. build_balanced fuel next) d (λ next q. q)

  -- Every node of the row has the height.
  abbrev pub AllHigh : ℕ → List (TapeNode T) → Type 0
  AllHigh h [] = Unit
  AllHigh h (t ∷ row) = (height t ≡ h) × AllHigh h row

  -- A row of half as many nodes, one level higher, with the odd node behind it.
  abbrev HalvedRow : ℕ → ℕ → List (TapeNode T) → TapeNode T → List (TapeNode T) → Type 0
  HalvedRow m h row f next =
      (made : List (TapeNode T)) × (next ≡ made ++ (f ∷ []))
      × AllHigh (suc h) made
      × (length made ≡ m)
      × (row_entries made ≡ row_entries row)

  halved :
      (m h i : ℕ) (l r f : TapeNode T) (row next : List (TapeNode T))
      → height l ≡ h
      → height r ≡ h
      → h < u16_max
      → HalvedRow m h row f next
      → HalvedRow (suc m) h (l ∷ r ∷ row) f (branch_of i l r ∷ next)
  halved m h i l r f row next hl hr g (made, same, high, size, held) = (
    branch_of i l r ∷ made,
    ap (branch_of i l r ∷◌) same,
    (omega (arith, hl, hr, g), high),
    ap suc size,
    append_assoc (entries_of l) (entries_of r) (row_entries made)
        ∙ ap (λ x. entries_of l ++ (entries_of r ++ x)) held,
  )

  pair_level_odd :
      (m h : ℕ) (row : List (TapeNode T)) (f : TapeNode T)
      → AllHigh h row
      → length row ≡ m + m
      → h < u16_max
      → Does m (pair_level (row ++ (f ∷ []))) (HalvedRow m h row f)
  unfolding pair_level
  pair_level_odd m h [] f high size g =
      Does-returns m (f ∷ []) ([], refl, tt, omega (arith, size), refl)
  pair_level_odd m h (t ∷ []) f high size g = absurd (omega (arith, size))
  pair_level_odd zero h (l ∷ r ∷ row) f high size g = absurd (omega (arith, size))
  pair_level_odd (suc m) h (l ∷ r ∷ row) f high size g = Does-weaken (1 + m) _ _ (omega arith) (
      pair l r (row ++ (f ∷ [])) m {Q = HalvedRow (suc m) h (l ∷ r ∷ row) f} (λ i.
        Does-imp m (pair_level (row ++ (f ∷ [])))
          (λ next q. halved m h i l r f row next high.0 high.1.0 g q)
          (pair_level_odd m h row f high.1.1 (omega (arith, size)) g)))

  -- The root that the odd node and the tree of the others are paired into.
  abbrev pub OddRoot : ℕ → List (TapeNode T) → TapeNode T → TapeNode T → Type 0
  OddRoot h row f t =
      (left : TapeNode T) × (i : ℕ) × (t ≡ branch_of i left f)
      × (height left ≡ h)
      × (entries_of left ≡ row_entries row)

  from_halved :
      (k h fuel : ℕ) (row : List (TapeNode T)) (f : TapeNode T) (next : List (TapeNode T))
      → HalvedRow (2 ^ k) h row f next
      → ((made : List (TapeNode T))
          → AllHigh (suc h) made
          → length made ≡ 2 ^ k
          → Does
              (2 ^ k)
              (build_balanced (suc fuel) (made ++ (f ∷ [])))
              (OddRoot (suc h + k) made f))
      → Does (2 ^ k) (build_balanced (suc fuel) next) (OddRoot (h + suc k) row f)
  from_halved k h fuel row f next (made, same, high, size, held) builds =
      subst (λ x. Does (2 ^ k) (build_balanced (suc fuel) x) (OddRoot (h + suc k) row f)) (sym same)
        (Does-imp (2 ^ k) (build_balanced (suc fuel) (made ++ (f ∷ [])))
          (λ t (left, i, shape, tall, kept). (left, i, shape, omega (arith, tall), kept ∙ held))
          (builds made high size))

  odd_root :
      (k h fuel : ℕ) (row : List (TapeNode T)) (f : TapeNode T)
      → AllHigh h row
      → length row ≡ 2 ^ k
      → h + k < u16_max
      → k ≤ fuel
      → Does (2 ^ k) (build_balanced (suc fuel) (row ++ (f ∷ []))) (OddRoot (h + k) row f)
  unfolding pair_level build_balanced
  odd_root k h fuel [] f high size g enough = absurd (omega (arith, size, two-pow_pos k))
  odd_root zero h fuel (l ∷ []) f high size g enough = Does-weaken (1 + 0) _ _ (omega arith) (
      level l f [] fuel 1 0 {P = OddRoot (h + 0) (l ∷ []) f} (
        pair l f [] 0 {Q = λ next. Does 0 (build_balanced fuel next) (OddRoot (h + 0) (l ∷ []) f)}
          (λ i. Does-returns 0 [] (
            Does-returns 0 (branch_of i l f)
              (l, i, refl, omega (arith, high.0), sym (append-nil (entries_of l)))))))
  odd_root zero h fuel (l ∷ r ∷ row) f high size g enough = absurd (omega (arith, size))
  odd_root (suc k) h fuel (l ∷ []) f high size g enough =
      absurd (omega (arith, size, two-pow_pos k, pow-suc 2 k))
  odd_root (suc k) h zero (l ∷ r ∷ row) f high size g enough = absurd (omega arith)
  odd_root (suc k) h (suc fuel) (l ∷ r ∷ row) f high size g enough =
      Does-weaken (2 ^ k + 2 ^ k) _ _ (omega (arith, pow-suc 2 k)) (
        level l r (row ++ (f ∷ [])) (suc fuel) (2 ^ k) (2 ^ k) (
          Does-imp (2 ^ k) (pair_level (l ∷ r ∷ (row ++ (f ∷ []))))
            (λ next halves. from_halved k h fuel (l ∷ r ∷ row) f next halves (λ made tall count.
              odd_root k (suc h) fuel made f tall count (omega (arith, g)) (omega (arith, enough))))
            (pair_level_odd (2 ^ k) h (l ∷ r ∷ row) f high (omega (arith, size, pow-suc 2 k))
              (omega (arith, g)))))

  -- A power of two, at least four, of nodes of one height with one more node of that height behind
  -- them is built, where it stays below 65,535 levels, into a root whose left child holds the
  -- entries of all the others, in order, and is higher by the exponent, and whose right child is
  -- the last node itself, carried up: the tree is out of balance. A turn more than the exponent is
  -- enough fuel, and it takes no more identities than there are nodes in front.
  pub build_balanced_odd :
      (k h fuel : ℕ) (row : List (TapeNode T)) (f : TapeNode T)
      → AllHigh h row
      → height f ≡ h
      → length row ≡ 2 ^ k
      → 2 ≤ k
      → h + k < u16_max
      → k ≤ fuel
      → Does
          (2 ^ k)
          (build_balanced (suc fuel) (row ++ (f ∷ [])))
          (λ t. OddRoot (h + k) row f t × (¬ IsBalanced t))
  build_balanced_odd k h fuel row f high odd size large g enough =
      Does-imp (2 ^ k) (build_balanced (suc fuel) (row ++ (f ∷ [])))
        (λ t root. (root, uneven t root)) (odd_root k h fuel row f high size g enough)
    where
      uneven : (t : TapeNode T) → OddRoot (h + k) row f t → ¬ IsBalanced t
      uneven t (left, i, shape, tall, kept) balanced =
          let at_root = subst IsBalanced shape balanced in
          omega (arith, at_root.2, tall, odd, large)

-- ===== src/Tape/BuildLaws.antt =====
-- `build_balanced` of src/framework/tape.rs: a row of neighbours becomes one tree.
use plingo.Prelude.{
  ℕ, zero, suc, ◌+◌, ◌-◌, ◌^◌, ◌≤◌, ◌<◌, ◌≡◌, refl, sym, subst, ap, ◌∙◌, List, [], ◌∷◌, ◌++◌,
  append_assoc, append-nil, Option, some, length, arith,
}
use native.Mathlib.Nat.{pow-suc}
use plingo.Tape.OrderKey.{LeafOrderKey}
use plingo.Tape.Between.{Above, Below}
use plingo.Tape.Allocating.{Does, Does-returns, Does-bind, Does-weaken, Does-imp}
use plingo.Tape.Metric.{TapeEntry}
use plingo.Tape.Node.{
  TapeNode, u16_max, height, first_order, last_order, entries_of, IsValid, branch_of, make_branch,
  make_branch_lem,
}
use plingo.Tape.Joined.{branch_of-IsValid}
use plingo.Tape.Build.{pair_level, build_balanced}

-- How many branches a level of `n` nodes takes.
abbrev pairs : ℕ → ℕ
pairs zero = 0
pairs (suc zero) = 0
pairs (suc (suc n)) = suc (pairs n)

pairs_bound : (n : ℕ) → (pairs n + pairs n ≤ n) × (n ≤ suc (pairs n + pairs n))
pairs_bound zero = (omega arith, omega arith)
pairs_bound (suc zero) = (omega arith, omega arith)
pairs_bound (suc (suc n)) = let (a, b) = pairs_bound n in (omega arith, omega arith)

module _ {T : Type 0} ⦃e : TapeEntry T⦄ where
  -- Valid trees in a row, their labels ascending between two bounds, none higher than `h`.
  abbrev pub IsRow : Option LeafOrderKey → Option LeafOrderKey → ℕ → List (TapeNode T) → Type 0
  IsRow lower upper h [] = Unit
  IsRow lower upper h (t ∷ row) =
      IsValid t
      × (height t ≤ h)
      × Above lower (first_order t)
      × Below upper (last_order t)
      × IsRow (some (last_order t)) upper h row

  abbrev pub row_entries : List (TapeNode T) → List T
  row_entries [] = []
  row_entries (t ∷ row) = entries_of t ++ row_entries row

  -- One tree between the bounds, with the entries.
  pub record Built (lower upper : Option LeafOrderKey) (h : ℕ) (entries : List T) (t : TapeNode T)
      : Type 0 where
    pub valid : IsValid t
    pub above : Above lower (first_order t)
    pub below : Below upper (last_order t)
    pub holds : entries_of t ≡ entries
    pub high : height t ≤ h

  IsRow-higher :
      (lower upper : Option LeafOrderKey) (h : ℕ) (row : List (TapeNode T))
      → IsRow lower upper h row
      → IsRow lower upper (suc h) row
  IsRow-higher lower upper h [] c = tt
  IsRow-higher lower upper h (t ∷ row) c =
      (c.0, omega (arith, c.1), c.2, c.3, IsRow-higher (some (last_order t)) upper h row c.4)

  abbrev Paired :
      Option LeafOrderKey → Option LeafOrderKey → ℕ → List (TapeNode T) → List (TapeNode T) → Type 0
  Paired lower upper h row next =
      IsRow lower upper (suc h) next
      × (row_entries next ≡ row_entries row)
      × (length next + pairs (length row) ≡ length row)

  paired :
      (lower upper : Option LeafOrderKey) (h : ℕ) (l r t : TapeNode T)
      (row next : List (TapeNode T)) (i : ℕ)
      → t ≡ branch_of i l r
      → IsRow lower upper h (l ∷ r ∷ row)
      → suc h < u16_max
      → Paired (some (last_order r)) upper h row next
      → Paired lower upper h (l ∷ r ∷ row) (t ∷ next)
  paired lower upper h l r t row next i same c g p =
      subst (λ x. Paired lower upper h (l ∷ r ∷ row) (x ∷ next)) (sym same)
        (
          (
            branch_of-IsValid i l r c.0 c.4.0 c.4.2 (omega (arith, c.1)) (omega (arith, c.4.1)),
            omega (arith, c.1, c.4.1),
            c.2,
            c.4.3,
            p.0,
          ),
          append_assoc (entries_of l) (entries_of r) (row_entries next)
              ∙ ap (λ x. entries_of l ++ (entries_of r ++ x)) p.1,
          omega (arith, p.2),
        )

  pair_level_lem :
      (lower upper : Option LeafOrderKey) (h : ℕ) (row : List (TapeNode T))
      → IsRow lower upper h row
      → suc h < u16_max
      → Does (pairs (length row)) (pair_level row) (Paired lower upper h row)
  unfolding pair_level
  pair_level_lem lower upper h [] c g = Does-returns 0 [] (tt, refl, refl)
  pair_level_lem lower upper h (t ∷ []) c g =
      Does-returns 0 (t ∷ []) (IsRow-higher lower upper h (t ∷ []) c, refl, refl)
  pair_level_lem lower upper h (l ∷ r ∷ row) c g =
      Does-weaken (1 + (pairs (length row) + 0)) _ _ (omega arith) (
        Does-bind 1 (pairs (length row) + 0) (make_branch l r) _ (make_branch_lem l r) (λ t w.
          Does-bind (pairs (length row)) 0 (pair_level row) _
            (pair_level_lem (some (last_order r)) upper h row c.4.4 g)
            (λ next p.
              Does-returns 0 (t ∷ next) (paired lower upper h l r t row next w.0 w.1 c g p))))

  -- A row is built into one tree, with a level for each doubling of its length, and fewer identities
  -- than it has nodes.
  pub build_balanced_lem :
      (fuel : ℕ) (lower upper : Option LeafOrderKey) (h : ℕ) (row : List (TapeNode T))
      → IsRow lower upper h row
      → 0 < length row
      → length row ≤ 2 ^ fuel
      → h + fuel < u16_max
      → Does (length row) (build_balanced fuel row) (Built lower upper (h + fuel) (row_entries row))
  unfolding build_balanced
  build_balanced_lem fuel lower upper h [] c pos fits g = absurd (omega arith)
  build_balanced_lem fuel lower upper h (t ∷ []) c pos fits g = Does-returns 1 t record {
    valid = c.0;
    above = c.2;
    below = c.3;
    holds = sym (append-nil (entries_of t));
    high = omega (arith, c.1);
  }
  build_balanced_lem zero lower upper h (l ∷ r ∷ row) c pos fits g = absurd (omega arith)
  build_balanced_lem (suc fuel) lower upper h (l ∷ r ∷ row) c pos fits g =
      let size = length row in
      let bound = pairs_bound size in
      Does-weaken (pairs (suc (suc size)) + (suc (suc size) - pairs (suc (suc size)))) _ _
        (omega (arith, bound.0))
        (Does-bind (pairs (suc (suc size))) (suc (suc size) - pairs (suc (suc size)))
          (pair_level (l ∷ r ∷ row)) (λ next. build_balanced fuel next)
          (pair_level_lem lower upper h (l ∷ r ∷ row) c (omega (arith, g)))
          (λ next p. Does-weaken (length next) _ _ (omega (arith, p.2)) (
            Does-imp (length next) (build_balanced fuel next)
              (λ t q. record {
                valid = q.valid;
                above = q.above;
                below = q.below;
                holds = q.holds ∙ p.1;
                high = omega (arith, q.high);
              })
              (build_balanced_lem fuel lower upper (suc h) next p.0 (omega (arith, p.2, bound.0))
                (omega (arith, p.2, bound.0, bound.1, fits, pow-suc 2 fuel)) (omega (arith, g))))))

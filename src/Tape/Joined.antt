-- ===== src/Tape/Joined.antt =====
-- Two neighbours of src/framework/tape.rs made into one tree.
use plingo.Prelude.{
  ℕ, suc, ◌+◌, ◌≤◌, ◌<◌, max, ◌≡◌, refl, Bool-cases, ltb, ltb→lt, ltb→ge, ◌⊎◌, inl, inr, ◌++◌,
  arith,
}
use plingo.Seq.Join.{left_tall, right_tall, even}
use plingo.Tape.Between.{◌≺◌}
use plingo.Tape.Metric.{TapeEntry}
use plingo.Tape.Node.{
  TapeNode, u16_max, next_height, height, first_order, last_order, entries_of, IsValid, IsBalanced,
  branch_of,
}
use plingo.Tape.Concat.{lean}

pub lean-cases :
    (a b : ℕ)
    → a < u16_max
    → b < u16_max
    → ((lean a b ≡ left_tall) × (suc b < a))
      ⊎ (((lean a b ≡ right_tall) × (suc a < b)) ⊎ ((lean a b ≡ even) × (a ≤ suc b) × (b ≤ suc a)))
unfolding lean
lean-cases a b h k = elim (Bool-cases (ltb (next_height b) a)) [
  | inl p ↦ inl (rw p refl, omega (arith, ltb→lt _ _ p))
  | inr p ↦ elim (Bool-cases (ltb (next_height a) b)) [
    | inl q ↦ inr (inl (rw (p, q) refl, omega (arith, ltb→lt _ _ q)))
    | inr q ↦ inr (inr (rw (p, q) refl, omega (arith, ltb→ge _ _ p), omega (arith, ltb→ge _ _ q)))
  ]
]

module _ {T : Type 0} ⦃e : TapeEntry T⦄ where
  pub branch_of-IsValid :
      (i : ℕ) (l r : TapeNode T)
      → IsValid l
      → IsValid r
      → last_order l ≺ first_order r
      → height l < u16_max
      → height r < u16_max
      → IsValid (branch_of i l r)
  branch_of-IsValid i l r a b o h k = (a, b, refl, omega arith, refl, refl, refl, o)

  -- A tree made of two neighbours: their entries in order, the first and the last label, and at most
  -- one level more than the taller.
  pub record Joined (l r t : TapeNode T) : Type 0 where
    pub valid : IsValid t
    pub entries : entries_of t ≡ entries_of l ++ entries_of r
    pub first : first_order t ≡ first_order l
    pub last : last_order t ≡ last_order r
    pub high : height t ≤ suc (max (height l) (height r))
    pub low : max (height l) (height r) ≤ height t
    pub grows :
        height l ≤ suc (height r)
        → height r ≤ suc (height l)
        → height t ≡ suc (max (height l) (height r))
    pub balanced :
        IsBalanced l
        → IsBalanced r
        → height l ≤ height r + 2
        → height r ≤ height l + 2
        → IsBalanced t

  pub branch_of-Joined :
      (i : ℕ) (l r : TapeNode T)
      → IsValid l
      → IsValid r
      → last_order l ≺ first_order r
      → height l < u16_max
      → height r < u16_max
      → height l ≤ suc (height r)
      → height r ≤ suc (height l)
      → Joined l r (branch_of i l r)
  branch_of-Joined i l r a b o h k p q = record {
    valid = branch_of-IsValid i l r a b o h k;
    entries = refl;
    first = refl;
    last = refl;
    high = omega arith;
    low = omega arith;
    grows = λ _ _. omega arith;
    balanced = λ x y _ _. (x, y, omega arith, omega arith);
  }

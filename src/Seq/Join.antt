-- ===== src/Seq/Join.antt =====
-- Appending and joining ropes: `append_node`, `join` and `join_options` of
-- src/utils/persistent_seq.rs.
use plingo.Prelude.{
  ℕ, suc, ◌≤◌, ◌<◌, max, ◌⊎◌, ltb→lt, ◌≡◌, refl, Option, none, some, List, [], ◌∷◌, ◌++◌, length,
  ltb, if◌then◌else◌, arith, append-nil, append_assoc, length-append, tests, Bool-cases, inl, inr,
}
use plingo.Seq.Measure.{SeqMeasure}
use plingo.Seq.Node.{
  Node, leaf, branch, leaf_cap, saturating_suc, height, new_leaf, new_branch, to_list, IsValid,
  IsValidOption, to_list_option,
}

-- The three outcomes of the height tests of `join`.
pub data Tilt : Type 0 where
  left_tall right_tall even : Tilt

unfoldable pub tilt : ℕ → ℕ → Tilt
tilt left_height right_height =
    if ltb (saturating_suc right_height) left_height
    then left_tall
    else (if ltb (saturating_suc left_height) right_height then right_tall else even)

tilt-cases :
    (a b : ℕ)
    → ((tilt a b ≡ left_tall) × (saturating_suc b < a))
      ⊎ (((tilt a b ≡ right_tall) × (saturating_suc a < b)) ⊎ (tilt a b ≡ even))
unfolding tilt
tilt-cases a b = elim (Bool-cases (ltb (saturating_suc b) a)) [
  | inl p ↦ inl (rw p, ltb→lt _ _ p)
  | inr p ↦ elim (Bool-cases (ltb (saturating_suc a) b)) [
    | inl q ↦ inr (inl (rw (p, q), ltb→lt _ _ q))
    | inr q ↦ inr (inr (rw (p, q)))
  ]
]

module _ {ℓ κ} {T : Type ℓ} {M : Type κ} ⦃s : SeqMeasure T M⦄ where
  -- The height of a leaf is 0, which is never the taller side.
  pub join : Node T M → Node T M → Node T M
  join (leaf v m) (leaf w k) = new_branch (leaf v m) (leaf w k)
  join (leaf v m) (branch rl rr n h k) = elim (tilt 0 h) [
    | left_tall ↦ new_branch (leaf v m) (branch rl rr n h k)
    | right_tall ↦ new_branch (join (leaf v m) rl) rr
    | even ↦ new_branch (leaf v m) (branch rl rr n h k)
  ]
  join (branch ll lr n h k) (leaf v m) = elim (tilt h 0) [
    | left_tall ↦ new_branch ll (join lr (leaf v m))
    | right_tall ↦ new_branch (branch ll lr n h k) (leaf v m)
    | even ↦ new_branch (branch ll lr n h k) (leaf v m)
  ]
  join (branch ll lr n h k) (branch rl rr p g m) = elim (tilt h g) [
    | left_tall ↦ new_branch ll (join lr (branch rl rr p g m))
    | right_tall ↦ new_branch (join (branch ll lr n h k) rl) rr
    | even ↦ new_branch (branch ll lr n h k) (branch rl rr p g m)
  ]

  unfoldable pub join_options : Option (Node T M) → Option (Node T M) → Option (Node T M)
  join_options none none = none
  join_options (some l) none = some l
  join_options none (some r) = some r
  join_options (some l) (some r) = some (join l r)

  -- The values of an added leaf; an added branch has none to give.
  abbrev pub added_values : Node T M → List T
  added_values (leaf v m) = v
  added_values (branch l r n h m) = []

  pub append_node : Node T M → Node T M → Node T M
  append_node (leaf v m) added =
      if ltb (length v) leaf_cap
      then new_leaf (v ++ added_values added)
      else new_branch (leaf v m) added
  append_node (branch l r n h m) added = join l (append_node r added)

  pub to_list-join : (l r : Node T M) → to_list (join l r) ≡ to_list l ++ to_list r
  unfolding join
  to_list-join (leaf v m) (leaf w k) = refl
  to_list-join (leaf v m) (branch rl rr n h k) =
      ground (arith, to_list-join (leaf v m) rl, append_assoc v (to_list rl) (to_list rr))
  to_list-join (branch ll lr n h k) (leaf v m) =
      ground (arith, to_list-join lr (leaf v m), append_assoc (to_list ll) (to_list lr) v)
  to_list-join (branch ll lr n h k) (branch rl rr p g m) = ground (
    arith,
    to_list-join lr (branch rl rr p g m),
    to_list-join (branch ll lr n h k) rl,
    append_assoc (to_list ll) (to_list lr) (to_list rl ++ to_list rr),
    append_assoc (to_list ll ++ to_list lr) (to_list rl) (to_list rr),
  )

  pub join-IsValid : (l r : Node T M) → IsValid l → IsValid r → IsValid (join l r)
  unfolding join
  join-IsValid (leaf v m) (leaf w k) a b = (a, b, refl, refl, refl)
  join-IsValid (leaf v m) (branch rl rr n h k) a b =
      elim (tilt 0 h)
        as (λ t. IsValid (elim t [
          | left_tall ↦ new_branch (leaf v m) (branch rl rr n h k)
          | right_tall ↦ new_branch (join (leaf v m) rl) rr
          | even ↦ new_branch (leaf v m) (branch rl rr n h k)
        ])) [
          | left_tall ↦ (a, b, refl, refl, refl)
          | right_tall ↦ (join-IsValid (leaf v m) rl a b.0, b.1, refl, refl, refl)
          | even ↦ (a, b, refl, refl, refl)
        ]
  join-IsValid (branch ll lr n h k) (leaf v m) a b =
      ground (arith, join-IsValid lr (leaf v m) a.1 b)
  join-IsValid (branch ll lr n h k) (branch rl rr p g m) a b = ground (
    arith,
    join-IsValid lr (branch rl rr p g m) a.1 b,
    join-IsValid (branch ll lr n h k) rl a b.0,
  )

  pub join_options-IsValid :
      (l r : Option (Node T M))
      → IsValidOption l
      → IsValidOption r
      → IsValidOption (join_options l r)
  unfolding join_options
  join_options-IsValid none none a b = a
  join_options-IsValid none (some r) a b = b
  join_options-IsValid (some l) none a b = a
  join_options-IsValid (some l) (some r) a b = join-IsValid l r a b

  pub to_list-join_options :
      (l r : Option (Node T M))
      → to_list_option (join_options l r) ≡ to_list_option l ++ to_list_option r
  unfolding join_options
  to_list-join_options none none = refl
  to_list-join_options none (some r) = refl
  to_list-join_options (some l) none = rw append-nil
  to_list-join_options (some l) (some r) = to_list-join l r

  pub to_list-append_node :
      (t : Node T M) (x : T) → to_list (append_node t (new_leaf (x ∷ []))) ≡ to_list t ++ (x ∷ [])
  unfolding append_node
  to_list-append_node (leaf v m) x = elim (Bool-cases (ltb (length v) leaf_cap)) [
    | inl p ↦ rw p
    | inr p ↦ rw p
  ]
  to_list-append_node (branch l r n h m) x =
      rw (to_list-join, to_list-append_node r x, append_assoc)

  pub append_node-IsValid :
      (t : Node T M) (x : T) → IsValid t → IsValid (append_node t (new_leaf (x ∷ [])))
  unfolding append_node
  append_node-IsValid (leaf v m) x a = elim (Bool-cases (ltb (length v) leaf_cap)) [
    | inl p ↦
        rw p
          (omega (tests, length-append v (x ∷ [])), omega (tests, length-append v (x ∷ [])), refl)
    | inr p ↦ rw p (a, (omega arith, omega arith, refl), refl, refl, refl)
  ]
  append_node-IsValid (branch l r n h m) x a = join-IsValid l _ a.0 (append_node-IsValid r x a.1)

  -- A join is at most one level higher than the taller side, and never lower than it: joining
  -- along the boundary keeps the height under control although no rotation is made.
  pub height-join :
      (l r : Node T M)
      → IsValid l
      → IsValid r
      → (max (height l) (height r) ≤ height (join l r))
        × (height (join l r) ≤ suc (max (height l) (height r)))
  unfolding join
  height-join (leaf v m) (leaf w k) a b = omega arith
  height-join (leaf v m) (branch rl rr n h k) a b = elim (tilt-cases 0 h) [
    | inl (e, p) ↦ absurd (omega arith)
    | inr (inl (e, p)) ↦ rw (e, height) (omega (arith, height-join (leaf v m) rl a b.0, b.3))
    | inr (inr e) ↦ rw (e, height) (omega arith)
  ]
  height-join (branch ll lr n h k) (leaf v m) a b = elim (tilt-cases h 0) [
    | inl (e, p) ↦ rw (e, height) (omega (arith, height-join lr (leaf v m) a.1 b, a.3))
    | inr (inl (e, p)) ↦ absurd (omega arith)
    | inr (inr e) ↦ rw (e, height) (omega arith)
  ]
  height-join (branch ll lr n h k) (branch rl rr p g m) a b = elim (tilt-cases h g) [
    | inl (e, q) ↦ rw (e, height) (omega (arith, height-join lr (branch rl rr p g m) a.1 b, a.3))
    | inr (inl (e, q)) ↦
        rw (e, height) (omega (arith, height-join (branch ll lr n h k) rl a b.0, b.3))
    | inr (inr e) ↦ rw (e, height) (omega arith)
  ]

-- ===== src/Seq/Build.antt =====
-- Building a rope from values: `build_balanced` of src/utils/persistent_seq.rs, and the slice
-- iterator `chunks` that `from_iter` feeds it with.
use plingo.Prelude.{
  ℕ, zero, suc, ◌/◌, ◌≤◌, ◌<◌, ◌≡◌, refl, ◌∙◌, sym, ap, Option, none, some, List, [], ◌∷◌, ◌++◌,
  map, length, take, drop, ◌>>=◌, arith, length-take, length-drop, take-append-drop, append-nil,
  append_assoc,
}
use plingo.Seq.Measure.{SeqMeasure}
use plingo.Seq.Node.{Node, leaf_cap, new_leaf, new_branch, to_list, IsValid}

-- `values.chunks(LEAF_CAP)`; one unit of fuel for each value is enough.
pub chunks {ℓ} : {A : Type ℓ} → ℕ → List A → List (List A)
chunks zero xs = []
chunks (suc fuel) [] = []
chunks (suc fuel) (x ∷ xs) = take leaf_cap (x ∷ xs) ∷ chunks fuel (drop leaf_cap (x ∷ xs))

module _ {ℓ κ} {T : Type ℓ} {M : Type κ} ⦃s : SeqMeasure T M⦄ where
  -- The slice is halved until one node is left. `none` is a recursion deeper than the fuel; on the
  -- empty slice, which the source excludes by an assertion, it never ends.
  pub build_balanced : ℕ → List (Node T M) → Option (Node T M)
  build_balanced zero nodes = none
  build_balanced (suc fuel) (t ∷ []) = some t
  build_balanced (suc fuel) nodes = do
    let midpoint = length nodes / 2
    left ← build_balanced fuel (take midpoint nodes)
    right ← build_balanced fuel (drop midpoint nodes)
    some (new_branch left right)

  -- The values of a list of nodes, in order.
  abbrev pub values_of : List (Node T M) → List T
  values_of [] = []
  values_of (t ∷ ts) = to_list t ++ values_of ts

  abbrev pub AllValid : List (Node T M) → Type κ
  AllValid [] = Unit
  AllValid (t ∷ ts) = IsValid t × AllValid ts

  values_of-append : (xs ys : List (Node T M)) → values_of (xs ++ ys) ≡ values_of xs ++ values_of ys
  values_of-append [] ys = refl
  values_of-append (t ∷ xs) ys =
      rw (values_of-append xs ys) (sym (append_assoc (to_list t) (values_of xs) (values_of ys)))

  AllValid-take : (n : ℕ) (xs : List (Node T M)) → AllValid xs → AllValid (take n xs)
  AllValid-take zero xs a = tt
  AllValid-take (suc n) [] a = tt
  AllValid-take (suc n) (t ∷ xs) a = (a.0, AllValid-take n xs a.1)

  AllValid-drop : (n : ℕ) (xs : List (Node T M)) → AllValid xs → AllValid (drop n xs)
  AllValid-drop zero xs a = a
  AllValid-drop (suc n) [] a = tt
  AllValid-drop (suc n) (t ∷ xs) a = AllValid-drop n xs a.1

  halves_values :
      (n : ℕ) (xs : List (Node T M)) → values_of (take n xs) ++ values_of (drop n xs) ≡ values_of xs
  halves_values n xs =
      sym (values_of-append (take n xs) (drop n xs)) ∙ ap values_of (take-append-drop n xs)

  -- What `build_balanced` has to return: a valid node with the values, low enough for its count.
  pub record Balances (nodes : List (Node T M)) (t : Node T M) : Type (ℓ ⊔ κ) where
    pub valid : IsValid t
    pub values : to_list t ≡ values_of nodes

  -- With one unit of fuel for each node, a list that is not empty is built.
  pub build_balanced_lem :
      (fuel : ℕ) (nodes : List (Node T M))
      → 0 < length nodes
      → length nodes ≤ fuel
      → AllValid nodes
      → (t : Node T M) × (build_balanced fuel nodes ≡ some t) × Balances nodes t
  unfolding build_balanced
  build_balanced_lem zero nodes lo hi a = absurd (omega arith)
  build_balanced_lem (suc fuel) [] lo hi a = absurd (omega arith)
  build_balanced_lem (suc fuel) (t ∷ []) lo hi a =
      (t, refl, record { valid = a.0; values = sym (append-nil (to_list t)) })
  build_balanced_lem (suc fuel) (t ∷ u ∷ ts) lo hi a =
      let nodes = t ∷ u ∷ ts in
      let mid : ℕ = length nodes / 2 in
      let (l, el, bl) =
        build_balanced_lem fuel (take mid nodes) (omega (arith, length-take mid nodes))
          (omega (arith, length-take mid nodes)) (AllValid-take mid nodes a) in
      let (r, er, br) =
        build_balanced_lem fuel (drop mid nodes) (omega (arith, length-drop mid nodes))
          (omega (arith, length-drop mid nodes)) (AllValid-drop mid nodes a) in
      (
        new_branch l r,
        rw (el, er),
        record {
          valid = (bl.valid, br.valid, refl, refl, refl);
          values = rw (bl.values, br.values) (halves_values mid nodes);
        },
      )

module _ {ℓ κ} {T : Type ℓ} (M : Type κ) ⦃s : SeqMeasure T M⦄ where
  leaves_valid : (fuel : ℕ) (xs : List T) → AllValid (map (new_leaf {M = M}) (chunks fuel xs))
  unfolding chunks
  leaves_valid zero xs = tt
  leaves_valid (suc fuel) [] = tt
  leaves_valid (suc fuel) (x ∷ xs) = (
    (
      omega (arith, length-take leaf_cap (x ∷ xs)),
      omega (arith, length-take leaf_cap (x ∷ xs)),
      refl,
    ),
    leaves_valid fuel (drop leaf_cap (x ∷ xs)),
  )

  leaves_values :
      (fuel : ℕ) (xs : List T)
      → length xs ≤ fuel
      → values_of (map (new_leaf {M = M}) (chunks fuel xs)) ≡ xs
  unfolding chunks
  leaves_values zero [] h = refl
  leaves_values zero (x ∷ xs) h = absurd (omega arith)
  leaves_values (suc fuel) [] h = refl
  leaves_values (suc fuel) (x ∷ xs) h =
      rw
        (leaves_values fuel (drop leaf_cap (x ∷ xs)) (omega (arith, length-drop leaf_cap (x ∷ xs))))
        (take-append-drop leaf_cap (x ∷ xs))

module _ {ℓ κ} {T : Type ℓ} {M : Type κ} ⦃s : SeqMeasure T M⦄ where
  -- The body of `from_iter` for values that are not none.
  pub build_leaves : List T → Option (Node T M)
  build_leaves values =
      let leaves = map new_leaf (chunks (length values) values) in
      build_balanced (length leaves) leaves

  pub build_leaves_lem :
      (x : T) (xs : List T)
      → (t : Node T M) × (build_leaves (x ∷ xs) ≡ some t) × IsValid t × (to_list t ≡ x ∷ xs)
  unfolding build_leaves chunks
  build_leaves_lem x xs =
      let fuel : ℕ = suc (length xs) in
      let leaves : List (Node T M) = map new_leaf (chunks fuel (x ∷ xs)) in
      let (t, e, b) =
        build_balanced_lem (length leaves) leaves (omega arith) (omega arith)
          (leaves_valid M fuel (x ∷ xs)) in
      (t, e, b.valid, b.values ∙ leaves_values M fuel (x ∷ xs) (omega arith))

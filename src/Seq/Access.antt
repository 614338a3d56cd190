-- ===== src/Seq/Access.antt =====
-- Descents of src/utils/persistent_seq.rs that follow one path: `weighted_get_node`,
-- `measure_after_node` and `replace_node`.
use plingo.Prelude.{
  ℕ, suc, ◌+◌, ◌-◌, ◌≤◌, ◌<◌, ◌≡◌, refl, ◌∙◌, sym, ap, ap₂, Bool-cases, inl, inr, zero, false,
  ltb→lt, Option, none, some, List, [], ◌∷◌, ◌++◌, length, get_elem?, set, take, drop, ltb, ◌==◌,
  if◌then◌else◌, arith, tests, length-set,
}
use plingo.Seq.Measure.{
  SeqMeasure, IsLawful, SeqMeasureWeight, IsAdditive, weight-append, weight-nil,
}
use plingo.Seq.Node.{
  Node, leaf, branch, len, measure, new_leaf, new_branch, to_list, IsValid, len-to_list,
  measure-to_list,
}

module _ {ℓ κ} {T : Type ℓ} {M : Type κ} ⦃s : SeqMeasure T M⦄ where
  pub replace_node : Node T M → ℕ → T → Node T M
  replace_node (leaf values m) index value = new_leaf (set values index value)
  replace_node (branch l r n h m) index value =
      let in_left = new_branch (replace_node l index value) r in
      let in_right = new_branch l (replace_node r (index - len l) value) in
      if ltb index (len l) then in_left else in_right

  -- The descent into a left child returns without the measure of the right one.
  unfoldable pub measure_after_node : Node T M → ℕ → M
  measure_after_node (leaf values m) index =
      if index == 0 then m else s.measure_leaf (drop index values)
  measure_after_node (branch l r n h m) index =
      let in_left = measure_after_node l index in
      let in_right = measure_after_node r (index - len l) in
      if index == 0
      then m
      else (if ltb index (len l) then in_left else (if index == len l then measure r else in_right))

module _ {ℓ} {T : Type ℓ} (weigh : T → ℕ) where
  -- The loop over the values of a leaf, from the index of its first value.
  pub weighted_get_values : List T → ℕ → ℕ → Option (ℕ × ℕ × T)
  weighted_get_values [] offset index = none
  weighted_get_values (x ∷ xs) offset index =
      if ltb offset (weigh x)
      then some (index, offset, x)
      else weighted_get_values xs (offset - weigh x) (index + 1)

  -- The logical positions of a list of items.
  abbrev pub total : List T → ℕ
  total [] = 0
  total (x ∷ xs) = weigh x + total xs

module _ {ℓ κ} {T : Type ℓ} (M : Type κ) ⦃s : SeqMeasure T M⦄ ⦃w : SeqMeasureWeight M⦄ where
  -- `M::measure_leaf(from_ref(value)).weight()`
  abbrev pub item_weight : T → ℕ
  item_weight x = w.weight (s.measure_leaf (x ∷ []))

module _ {ℓ κ} {T : Type ℓ} {M : Type κ} ⦃s : SeqMeasure T M⦄ ⦃w : SeqMeasureWeight M⦄ where
  pub weighted_get_node : Node T M → ℕ → ℕ → Option (ℕ × ℕ × T)
  weighted_get_node (leaf values m) offset base =
      weighted_get_values (item_weight M) values offset base
  weighted_get_node (branch l r n h m) offset base =
      let in_left = weighted_get_node l offset base in
      let in_right = weighted_get_node r (offset - w.weight (measure l)) (base + len l) in
      if ltb offset (w.weight (measure l)) then in_left else in_right

not_below : (a b : ℕ) → b ≤ a → ltb a b ≡ false
not_below a b h = ground arith

module _ {ℓ} {A : Type ℓ} where
  set-append_left :
      (xs ys : List A) (i : ℕ) (v : A) → i < length xs → set (xs ++ ys) i v ≡ set xs i v ++ ys
  set-append_left [] ys i v h = elim h [ ]
  set-append_left (x ∷ xs) ys zero v h = refl
  set-append_left (x ∷ xs) ys (suc i) v h = ap (x ∷◌) (set-append_left xs ys i v (omega arith))

  set-append_right :
      (xs ys : List A) (i : ℕ) (v : A)
      → length xs ≤ i
      → set (xs ++ ys) i v ≡ xs ++ set ys (i - length xs) v
  set-append_right [] ys i v h = ap (λ k. set ys k v) (omega arith)
  set-append_right (x ∷ xs) ys zero v h = absurd (omega arith)
  set-append_right (x ∷ xs) ys (suc i) v h =
      ap (x ∷◌)
        (set-append_right xs ys i v (omega arith) ∙ ap (λ k. xs ++ set ys k v) (omega arith))

module _ {ℓ κ} {T : Type ℓ} {M : Type κ} ⦃s : SeqMeasure T M⦄ where
  pub to_list-replace_node :
      (t : Node T M) (i : ℕ) (x : T)
      → IsValid t
      → to_list (replace_node t i x) ≡ set (to_list t) i x
  unfolding replace_node
  to_list-replace_node (leaf values m) i x v = refl
  to_list-replace_node (branch l r n h m) i x v = elim (Bool-cases (ltb i (len l))) [
    | inl p ↦
        rw (p, to_list-replace_node l i x v.0)
          (sym (set-append_left (to_list l) (to_list r) i x (omega (tests, len-to_list l v.0))))
    | inr p ↦
        rw (p, to_list-replace_node r (i - len l) x v.1, len-to_list l v.0)
          (sym (set-append_right (to_list l) (to_list r) i x (omega (tests, len-to_list l v.0))))
  ]

  pub replace_node-IsValid :
      (t : Node T M) (i : ℕ) (x : T) → IsValid t → IsValid (replace_node t i x)
  unfolding replace_node
  replace_node-IsValid (leaf values m) i x v =
      (omega (arith, length-set values i x), omega (arith, v.1, length-set values i x), refl)
  replace_node-IsValid (branch l r n h m) i x v = elim (Bool-cases (ltb i (len l))) [
    | inl p ↦ rw p (replace_node-IsValid l i x v.0, v.1, refl, refl, refl)
    | inr p ↦ rw p (v.0, replace_node-IsValid r (i - len l) x v.1, refl, refl, refl)
  ]

module _ {ℓ} {T : Type ℓ} (weigh : T → ℕ) where
  -- The linear scan over a concatenation goes on in the second list when the first is used up.
  weighted-append_left :
      (xs ys : List T) (o i : ℕ)
      → o < total weigh xs
      → weighted_get_values weigh (xs ++ ys) o i ≡ weighted_get_values weigh xs o i
  unfolding weighted_get_values
  weighted-append_left [] ys o i h = elim h [ ]
  weighted-append_left (x ∷ xs) ys o i h = elim (Bool-cases (ltb o (weigh x))) [
    | inl p ↦ rw p
    | inr p ↦ rw p (weighted-append_left xs ys (o - weigh x) (i + 1) (omega tests))
  ]

  weighted-append_right :
      (xs ys : List T) (o i : ℕ)
      → total weigh xs ≤ o
      → weighted_get_values weigh (xs ++ ys) o i
        ≡ weighted_get_values weigh ys (o - total weigh xs) (i + length xs)
  unfolding weighted_get_values
  weighted-append_right [] ys o i h = ap₂ (weighted_get_values weigh ys) (omega arith) (omega arith)
  weighted-append_right (x ∷ xs) ys o i h = rw (not_below o (weigh x) (omega arith)) (
      weighted-append_right xs ys (o - weigh x) (i + 1) (omega arith)
      ∙ ap₂ (weighted_get_values weigh ys) (omega arith) (omega arith))

  -- What an offset inside the total finds: item `i`, whose positions start at `o - local`.
  abbrev pub Locates : List T → ℕ → ℕ × ℕ × T → Type ℓ
  Locates xs o (i, local, x) =
      (get_elem? xs i ≡ some x) × (local < weigh x) × (total weigh (take i xs) + local ≡ o)

  pub weighted_get_values_lem :
      (xs : List T) (o base : ℕ)
      → o < total weigh xs
      → (i : ℕ) × (local : ℕ) × (x : T) × (weighted_get_values weigh xs o base
          ≡ some (base + i, local, x))
        × Locates xs o (i, local, x)
  unfolding weighted_get_values
  weighted_get_values_lem [] o base h = elim h [ ]
  weighted_get_values_lem (x ∷ xs) o base h = elim (Bool-cases (ltb o (weigh x))) [
    | inl p ↦
        (0, o, x, rw p (ap (λ k. some (k, o, x)) (omega arith)), (refl, ltb→lt _ _ p, omega arith))
    | inr p ↦
        let (i, local, y, e, found) =
          weighted_get_values_lem xs (o - weigh x) (base + 1) (omega tests) in
        (
          suc i,
          local,
          y,
          rw p (e ∙ ap (λ k. some (k, local, y)) (omega arith)),
          (found.0, found.1, omega (tests, found.2)),
        )
  ]

module _ {ℓ κ} {T : Type ℓ} {M : Type κ} ⦃s : SeqMeasure T M⦄ ⦃w : SeqMeasureWeight M⦄
    (lawful : IsLawful s) (additive : IsAdditive s w) where
  pub weight-measure_leaf : (xs : List T) → w.weight (s.measure_leaf xs) ≡ total (item_weight M) xs
  weight-measure_leaf [] = weight-nil lawful additive
  weight-measure_leaf (x ∷ xs) =
      omega (arith, weight-append lawful additive (x ∷ []) xs, weight-measure_leaf xs)

  pub weight-measure :
      (t : Node T M) → IsValid t → w.weight (measure t) ≡ total (item_weight M) (to_list t)
  weight-measure t v = rw (measure-to_list lawful t v) (weight-measure_leaf (to_list t))

  -- The descent finds what a linear scan of the values finds.
  pub weighted_get_node_lem :
      (t : Node T M) (o base : ℕ)
      → IsValid t
      → weighted_get_node t o base ≡ weighted_get_values (item_weight M) (to_list t) o base
  unfolding weighted_get_node
  weighted_get_node_lem (leaf values m) o base v = refl
  weighted_get_node_lem (branch l r n h m) o base v =
      elim (Bool-cases (ltb o (w.weight (measure l)))) [
        | inl p ↦ rw p (
            weighted_get_node_lem l o base v.0
            ∙ sym (
                weighted-append_left (item_weight M) (to_list l) (to_list r) o base
                  (omega (tests, weight-measure l v.0))))
        | inr p ↦ rw p (
            weighted_get_node_lem r (o - w.weight (measure l)) (base + len l) v.1
            ∙ ap₂ (weighted_get_values (item_weight M) (to_list r))
                (omega (arith, weight-measure l v.0)) (omega (arith, len-to_list l v.0))
            ∙ sym (
                weighted-append_right (item_weight M) (to_list l) (to_list r) o base
                  (omega (tests, weight-measure l v.0))))
      ]

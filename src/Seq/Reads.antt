-- ===== src/Seq/Reads.antt =====
-- What the observers of a `PersistentSeq` (src/utils/persistent_seq.rs) return, in terms of its
-- list of values.
use plingo.Prelude.{
  ℕ, suc, ◌-◌, ◌≤◌, ◌<◌, ◌≡◌, ◌≢◌, ◌↔◌, refl, ◌∙◌, sym, ap, Bool, true, false, ◌&&◌, Option, none,
  some, List, [], ◌∷◌, ◌++◌, append-nil, length, get_elem?, drop, ltb, leb, ◌==◌, arith, tests,
  le→leb, gt→leb, lt→ltb, Bool-cases, inl, inr, length-append, length-drop, get_elem?-past, ==_iff,
}
use native.Mathlib.Nat.{zero-add}
use plingo.Seq.Measure.{
  SeqMeasure, IsLawful, SeqMeasureWeight, IsAdditive, count_measure, count_measure-IsLawful,
}
use plingo.Seq.Node.{
  Node, leaf, branch, len, measure, to_list, len-to_list, len_pos, measure-to_list, IsValid,
  get_lem,
}
use plingo.Seq.Iter.{node, work, collect_lem}
use plingo.Seq.Access.{
  measure_after_node, total, item_weight, Locates, weighted_get_values_lem, weighted_get_node_lem,
  weight-measure,
}
use plingo.Seq.Sequence.{
  PersistentSeq, rooted, seq_measure, seq_get, contents, iter, to_vec, zip_all, seq_eq, IsValidSeq,
  measure_after_items, weighted_get,
}
use plingo.Seq.Edits.{seq_len_lem}

module _ {ℓ κ} {T : Type ℓ} {M : Type κ} where
  -- The iterator ends, and has then yielded every value once, in order.
  pub to_vec_lem : (q : PersistentSeq T M) → to_vec q ≡ some (contents q)
  unfolding to_vec
  to_vec_lem q = on_root q.root
    where
      on_root : (t : Option (Node T M)) → to_vec (rooted t) ≡ some (contents (rooted t))
      on_root none = collect_lem _ [] (omega arith)
      on_root (some t) =
          collect_lem (suc (work (iter (rooted (some t))))) (node t ∷ []) (omega arith)
          ∙ ap some (append-nil (to_list t))

module _ {ℓ κ} {T : Type ℓ} {M : Type κ} ⦃s : SeqMeasure T M⦄ where
  -- Reading an index is reading the list of values, and gives nothing past its end.
  pub seq_get_lem :
      (q : PersistentSeq T M) (i : ℕ) → IsValidSeq q → seq_get q i ≡ get_elem? (contents q) i
  unfolding seq_get
  seq_get_lem q i = on_root q.root
    where
      on_root :
          (t : Option (Node T M))
          → IsValidSeq (rooted t)
          → seq_get (rooted t) i ≡ get_elem? (contents (rooted t)) i
      on_root none v = refl
      on_root (some t) v = elim (Bool-cases (ltb i (len t))) [
        | inl p ↦ rw p (get_lem t i v)
        | inr p ↦ rw p (sym (get_elem?-past (to_list t) i (omega (tests, len-to_list t v))))
      ]

  -- The aggregate measure of a sequence is that of the list of its values.
  pub seq_measure_lem :
      (q : PersistentSeq T M)
      → IsLawful s
      → IsValidSeq q
      → 0 < length (contents q)
      → seq_measure q ≡ some (s.measure_leaf (contents q))
  seq_measure_lem q lawful = on_root q.root
    where
      on_root :
          (t : Option (Node T M))
          → IsValidSeq (rooted t)
          → 0 < length (contents (rooted t))
          → seq_measure (rooted t) ≡ some (s.measure_leaf (contents (rooted t)))
      on_root none v h = elim h [ ]
      on_root (some t) v h = ap some (measure-to_list lawful t v)

after_some : {a b c : ℕ} → a ≡ b → some a ≡ some c → b ≡ c
after_some p e = cc

not_zero : (i : ℕ) → 0 < i → (i == 0) ≡ false
not_zero i h = ground arith

and_left : (a b : Bool) → (a && b) ≡ true → a ≡ true
and_left true b h = refl
and_left false b h = cc

and_right : (a b : Bool) → (a && b) ≡ true → b ≡ true
and_right true b h = h
and_right false b h = cc

module _ {ℓ} {T : Type ℓ} (eq : T → T → Bool) (eq_iff : (x y : T) → (eq x y ≡ true) ↔ (x ≡ y)) where
  zip_all_refl : (xs : List T) → zip_all eq xs xs ≡ true
  unfolding zip_all
  zip_all_refl [] = refl
  zip_all_refl (x ∷ xs) = rw ((eq_iff x x).1 refl) (zip_all_refl xs)

  zip_all_sound : (xs ys : List T) → length xs ≡ length ys → zip_all eq xs ys ≡ true → xs ≡ ys
  unfolding zip_all
  zip_all_sound [] [] n h = refl
  zip_all_sound [] (y ∷ ys) n h = absurd (omega arith)
  zip_all_sound (x ∷ xs) [] n h = absurd (omega arith)
  zip_all_sound (x ∷ xs) (y ∷ ys) n h = ground (arith, (eq_iff x y).0, zip_all_sound xs ys)

  -- The test that `eq` makes of the two lists.
  same_values_iff :
      (xs ys : List T) → ((length xs == length ys && zip_all eq xs ys) ≡ true) ↔ (xs ≡ ys)
  same_values_iff xs ys = (
    λ h. zip_all_sound xs ys ((==_iff _ _).0 (and_left _ _ h)) (and_right _ _ h),
    λ e. rw (e, (==_iff (length ys) (length ys)).1 refl) (zip_all_refl ys),
  )

module _ {ℓ κ} {T : Type ℓ} {M : Type κ} ⦃s : SeqMeasure T M⦄ (eq : T → T → Bool)
    (eq_iff : (x y : T) → (eq x y ≡ true) ↔ (x ≡ y)) where
  -- Equality of two valid sequences always answers, and answers `true` exactly when they hold the
  -- same values, whatever their shapes.
  pub seq_eq_lem :
      (a b : PersistentSeq T M)
      → IsValidSeq a
      → IsValidSeq b
      → (answer : Bool) × (seq_eq eq a b ≡ some answer)
        × ((answer ≡ true) ↔ (contents a ≡ contents b))
  unfolding seq_eq
  seq_eq_lem a b v w = (
    length (contents a) == length (contents b) && zip_all eq (contents a) (contents b),
    rw (to_vec_lem a, to_vec_lem b, seq_len_lem a v, seq_len_lem b w),
    same_values_iff eq eq_iff (contents a) (contents b),
  )

module _ {ℓ κ} {T : Type ℓ} {M : Type κ} ⦃s : SeqMeasure T M⦄ ⦃w : SeqMeasureWeight M⦄
    (lawful : IsLawful s) (additive : IsAdditive s w) where
  weighted_root :
      (t : Option (Node T M)) (o : ℕ)
      → IsValidSeq (rooted t)
      → o < total (item_weight M) (contents (rooted t))
      → (i : ℕ) × (local : ℕ) × (x : T) × (weighted_get (rooted t) o ≡ some (i, local, x))
        × Locates (item_weight M) (contents (rooted t)) o (i, local, x)
  unfolding weighted_get
  weighted_root none o v h = elim h [ ]
  weighted_root (some t) o v h =
      let (i, local, x, e, found) = weighted_get_values_lem (item_weight M) (to_list t) o 0 h in
      let inside : leb (w.weight (measure t)) o ≡ false =
        gt→leb _ _ (rw (weight-measure lawful additive t v) h) in
      (
        i,
        local,
        x,
        rw (inside, weighted_get_node_lem lawful additive t o 0 v)
            (e ∙ ap (λ k. some (k, local, x)) (zero-add i)),
        found,
      )

  -- An offset below the total weight is found: `weighted_get` returns the one item whose positions
  -- include it, with the item's index and the offset from the item's first position.
  pub weighted_get_lem :
      (q : PersistentSeq T M) (o : ℕ)
      → IsValidSeq q
      → o < total (item_weight M) (contents q)
      → (i : ℕ) × (local : ℕ) × (x : T) × (weighted_get q o ≡ some (i, local, x))
        × Locates (item_weight M) (contents q) o (i, local, x)
  weighted_get_lem q o v h = weighted_root q.root o v h

  -- From the total weight on, nothing is found.
  pub weighted_get_past :
      (q : PersistentSeq T M) (o : ℕ)
      → IsValidSeq q
      → total (item_weight M) (contents q) ≤ o
      → weighted_get q o ≡ none
  unfolding weighted_get
  weighted_get_past q o = on_root q.root
    where
      on_root :
          (t : Option (Node T M))
          → IsValidSeq (rooted t)
          → total (item_weight M) (contents (rooted t)) ≤ o
          → weighted_get (rooted t) o ≡ none
      on_root none v h = refl
      on_root (some t) v h =
          rw (le→leb (w.weight (measure t)) o (rw (weight-measure lawful additive t v) h))

module _ {ℓ} {T : Type ℓ} where
  measure-len : (t : Node T ℕ) → IsValid t → measure t ≡ len t
  measure-len t v = measure-to_list count_measure-IsLawful t v ∙ sym (len-to_list t v)

  -- Inside the left child the descent is that of the child.
  measure_after_left :
      (l r : Node T ℕ) (n h m i : ℕ)
      → 0 < i
      → i < len l
      → measure_after_node (branch l r n h m) i ≡ measure_after_node l i
  unfolding measure_after_node
  measure_after_left l r n h m i lo hi = rw (not_zero i lo, lt→ltb i (len l) hi)

  -- No descent returns more than the values that are left in the node.
  measure_after_node-le : (t : Node T ℕ) (i : ℕ) → IsValid t → measure_after_node t i ≤ len t - i
  unfolding measure_after_node
  measure_after_node-le (leaf values m) i v = elim (Bool-cases (i == 0)) [
    | inl z ↦ rw z (omega (arith, v.2, (==_iff i 0).0 z))
    | inr z ↦ rw z (omega (arith, length-drop i values))
  ]
  measure_after_node-le (branch l r n h m) i v = elim (Bool-cases (i == 0)) [
    | inl z ↦ rw z (omega (arith, (==_iff i 0).0 z, v.2, v.4, measure-len l v.0, measure-len r v.1))
    | inr z ↦ elim (Bool-cases (ltb i (len l))) [
      | inl p ↦ rw (z, p) (omega (tests, measure_after_node-le l i v.0, v.2))
      | inr p ↦ elim (Bool-cases (i == len l)) [
        | inl q ↦ rw (z, p, q) (omega (arith, (==_iff i (len l)).0 q, v.2, measure-len r v.1))
        | inr q ↦ rw (z, p, q) (omega (tests, measure_after_node-le r (i - len l) v.1, v.2))
      ]
    ]
  ]

  -- Where the index falls strictly inside the left child of the root, `measure_after_items` with
  -- the counting measure never returns the number of values from the index on: the values of the
  -- right child are left out.
  pub measure_after_items_short :
      (l r : Node T ℕ) (n h m i : ℕ)
      → IsValid (branch l r n h m)
      → 0 < i
      → i < len l
      → measure_after_items (rooted (some (branch l r n h m))) i
        ≢ some (length (drop i (to_list (branch l r n h m))))
  unfolding measure_after_items
  measure_after_items_short l r n h m i v lo hi e =
      let all : List T = to_list l ++ to_list r in
      let inside : leb n i ≡ false = gt→leb n i (omega (arith, v.2)) in
      let found : measure_after_node l i ≡ length (drop i all) =
        after_some (measure_after_left l r n h m i lo hi) (rw inside at e) in
      omega (
        arith,
        found,
        measure_after_node-le l i v.0,
        len_pos r v.1,
        length-drop i all,
        length-append (to_list l) (to_list r),
        len-to_list l v.0,
        len-to_list r v.1,
      )

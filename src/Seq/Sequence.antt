-- ===== src/Seq/Sequence.antt =====
-- `PersistentSeq` of src/utils/persistent_seq.rs and its methods. A method that asserts its
-- arguments returns `none` where the assertion fails.
use plingo.Prelude.{
  ℕ, suc, ◌-◌, Bool, true, false, Option, none, some, List, [], ◌∷◌, ltb, leb, ◌==◌, ◌&&◌, ◌>>=◌,
  if◌then◌else◌,
}
use plingo.Seq.Measure.{SeqMeasure, SeqMeasureWeight}
use plingo.Seq.Node.{Node, len, measure, get, new_leaf, to_list_option, IsValidOption}
use plingo.Seq.Join.{append_node, join_options}
use plingo.Seq.Split.{split_node}
use plingo.Seq.Build.{build_leaves}
use plingo.Seq.Access.{replace_node, measure_after_node, weighted_get_node}
use plingo.Seq.Iter.{Frame, node, collect, work}

pub record PersistentSeq {ℓ κ} (T : Type ℓ) (M : Type κ) : Type (ℓ ⊔ κ) where
  pub root : Option (Node T M)

module _ {ℓ κ} {T : Type ℓ} {M : Type κ} where
  abbrev pub rooted : Option (Node T M) → PersistentSeq T M
  rooted t = record { root = t }

  abbrev pub new : PersistentSeq T M
  new = rooted none

  abbrev pub seq_len : PersistentSeq T M → ℕ
  seq_len q = elim q.root [ none ↦ 0 | some t ↦ len t ]

  abbrev pub is_empty : PersistentSeq T M → Bool
  is_empty q = elim q.root [ none ↦ true | some t ↦ false ]

  abbrev pub seq_measure : PersistentSeq T M → Option M
  seq_measure q = q.root >>= λ t. some (measure t)

  unfoldable pub seq_get : PersistentSeq T M → ℕ → Option T
  seq_get q index = q.root >>= λ t. if ltb index (len t) then get t index else none

  -- The stack of frames that `iter` starts with.
  abbrev pub iter : PersistentSeq T M → List (Frame T M)
  iter q = elim q.root [ none ↦ [] | some t ↦ node t ∷ [] ]

  -- The loops are given one turn more than the frames have work for.
  unfoldable pub to_vec : PersistentSeq T M → Option (List T)
  to_vec q = collect (suc (work (iter q))) (iter q)

  -- The values that a sequence stands for.
  abbrev pub contents : PersistentSeq T M → List T
  contents q = to_list_option q.root

-- `zip(..).all(..)`, which stops at the end of the shorter side.
unfoldable pub zip_all {ℓ} : {T : Type ℓ} → (T → T → Bool) → List T → List T → Bool
zip_all eq [] ys = true
zip_all eq (x ∷ xs) [] = true
zip_all eq (x ∷ xs) (y ∷ ys) = eq x y && zip_all eq xs ys

-- `PartialEq::eq`, for the equality `eq` of the values.
unfoldable pub seq_eq {ℓ κ} :
    {T : Type ℓ} {M : Type κ} → (T → T → Bool) → PersistentSeq T M → PersistentSeq T M → Option Bool
seq_eq eq a b = do xs ← to_vec a; ys ← to_vec b; some (seq_len a == seq_len b && zip_all eq xs ys)

module _ {ℓ κ} {T : Type ℓ} {M : Type κ} ⦃s : SeqMeasure T M⦄ where
  abbrev pub IsValidSeq : PersistentSeq T M → Type κ
  IsValidSeq q = IsValidOption q.root

  unfoldable pub from_iter : List T → PersistentSeq T M
  from_iter [] = new
  from_iter (x ∷ xs) = rooted (build_leaves (x ∷ xs))

  unfoldable pub push : PersistentSeq T M → T → PersistentSeq T M
  push q value = elim q.root [
    | none ↦ rooted (some (new_leaf (value ∷ [])))
    | some t ↦ rooted (some (append_node t (new_leaf (value ∷ []))))
  ]

  unfoldable pub concat : PersistentSeq T M → PersistentSeq T M → PersistentSeq T M
  concat a b = rooted (join_options a.root b.root)

  unfoldable pub split_at : PersistentSeq T M → ℕ → Option (PersistentSeq T M × PersistentSeq T M)
  split_at q index =
      if leb index (seq_len q)
      then elim q.root [
        | none ↦ some (new, new)
        | some t ↦
            if index == 0
            then some (new, q)
            else (if index == len t
                then some (q, new)
                else (let (left, right) = split_node t index in some (rooted left, rooted right)))
      ]
      else none

  unfoldable pub replace : PersistentSeq T M → ℕ → T → Option (PersistentSeq T M)
  replace q index value =
      if ltb index (seq_len q)
      then (q.root >>= λ t. some (rooted (some (replace_node t index value))))
      else none

  unfoldable pub splice : PersistentSeq T M → ℕ → ℕ → List T → Option (PersistentSeq T M)
  splice q start end replacement =
      if leb start end && leb end (seq_len q)
      then (do
        (prefix, tail) ← split_at q start
        (dropped, suffix) ← split_at tail (end - start)
        some (concat (concat prefix (from_iter replacement)) suffix))
      else none

  unfoldable pub measure_after_items : PersistentSeq T M → ℕ → Option M
  measure_after_items q index =
      q.root >>= λ t. if leb (len t) index then none else some (measure_after_node t index)

module _ {ℓ κ} {T : Type ℓ} {M : Type κ} ⦃s : SeqMeasure T M⦄ ⦃w : SeqMeasureWeight M⦄ where
  unfoldable pub weighted_get : PersistentSeq T M → ℕ → Option (ℕ × ℕ × T)
  weighted_get q offset = q.root >>= λ t.
      if leb (w.weight (measure t)) offset then none else weighted_get_node t offset 0

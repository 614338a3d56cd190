-- ===== src/Seq/Examples.antt =====
-- The theorems about src/utils/persistent_seq.rs at concrete ropes.
use plingo.Prelude.{ℕ, ◌≡◌, ◌≢◌, ◌↔◌, Bool, true, ◌==◌, none, some, [], ◌∷◌, arith, ==_iff}
use plingo.Seq.Measure.{
  count_measure, count_weight, count_measure-IsLawful, count_measure-IsAdditive,
}
use plingo.Seq.Node.{Node, leaf, branch}
use plingo.Seq.Access.{item_weight, Locates}
use plingo.Seq.Sequence.{
  PersistentSeq, rooted, contents, IsValidSeq, from_iter, split_at, replace, splice, to_vec, seq_eq,
  weighted_get, measure_after_items,
}
use plingo.Seq.Edits.{from_iter_lem, Splits, split_at_lem, split_at_past, replace_lem, splice_lem}
use plingo.Seq.Reads.{to_vec_lem, seq_eq_lem, weighted_get_lem, measure_after_items_short}

abbrev left : Node ℕ ℕ
left = branch (leaf (1 ∷ []) 1) (leaf (2 ∷ []) 1) 2 1 2

abbrev right : Node ℕ ℕ
right = leaf (3 ∷ []) 1

abbrev three : PersistentSeq ℕ ℕ
three = rooted (some (branch left right 3 2 3))

abbrev flat : PersistentSeq ℕ ℕ
flat = rooted (some (leaf (1 ∷ 2 ∷ 3 ∷ []) 3))

three-IsValid : IsValidSeq three
three-IsValid = omega arith

flat-IsValid : IsValidSeq flat
flat-IsValid = omega arith

from_iter_lem_example :
    IsValidSeq {T = ℕ} {M = ℕ} (from_iter (4 ∷ 5 ∷ []))
    × (contents {T = ℕ} {M = ℕ} (from_iter (4 ∷ 5 ∷ [])) ≡ 4 ∷ 5 ∷ [])
from_iter_lem_example = from_iter_lem ℕ (4 ∷ 5 ∷ [])

split_at_lem_example :
    (a : PersistentSeq ℕ ℕ) × (b : PersistentSeq ℕ ℕ) × (split_at three 1 ≡ some (a, b))
    × Splits three 1 a b
split_at_lem_example = split_at_lem three 1 (omega arith) three-IsValid

split_at_past_example : split_at three 4 ≡ none
split_at_past_example = split_at_past three 4 (omega arith) three-IsValid

replace_lem_example :
    (r : PersistentSeq ℕ ℕ) × (replace three 1 9 ≡ some r)
    × IsValidSeq r
    × (contents r ≡ 1 ∷ 9 ∷ 3 ∷ [])
replace_lem_example = replace_lem three 1 9 (omega arith) three-IsValid

splice_lem_example :
    (r : PersistentSeq ℕ ℕ) × (splice three 1 2 (8 ∷ 9 ∷ []) ≡ some r)
    × IsValidSeq r
    × (contents r ≡ 1 ∷ 8 ∷ 9 ∷ 3 ∷ [])
splice_lem_example = splice_lem three 1 2 (8 ∷ 9 ∷ []) (omega arith) (omega arith) three-IsValid

to_vec_lem_example : to_vec three ≡ some (1 ∷ 2 ∷ 3 ∷ [])
to_vec_lem_example = to_vec_lem three

seq_eq_lem_example :
    (answer : Bool) × (seq_eq ◌==◌ three flat ≡ some answer)
    × ((answer ≡ true) ↔ (contents three ≡ contents flat))
seq_eq_lem_example = seq_eq_lem ◌==◌ ==_iff three flat three-IsValid flat-IsValid

weighted_get_lem_example :
    (i : ℕ) × (local : ℕ) × (x : ℕ) × (weighted_get three 2 ≡ some (i, local, x))
    × Locates (item_weight ℕ) (contents three) 2 (i, local, x)
weighted_get_lem_example =
    weighted_get_lem count_measure-IsLawful count_measure-IsAdditive three 2 three-IsValid
      (omega arith)

measure_after_items_short_example : measure_after_items three 1 ≢ some 2
measure_after_items_short_example =
    measure_after_items_short left right 3 2 3 1 three-IsValid (omega arith) (omega arith)

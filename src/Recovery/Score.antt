-- ===== src/Recovery/Score.antt =====
-- Repairs, their scores and the two orders on them: `SearchScore`, `SearchRecord` and
-- `repairs_better` of src/framework/parse/recovery.rs.
use plingo.Prelude.{ℕ, ◌+◌, Bool, ◌&&◌, ◌||◌, ◌==◌, ltb, is_lt, if◌then◌else◌, List, [], ◌∷◌}
use Prim.Native.Nat.{compare, Ordering}
use plingo.Grammar.Symbols.{TerminalId}

pub data Repair : Type 0 where
  insert : TerminalId → Repair
  delete : Repair
  shift : Repair
  shift_as_error : Repair

pub record SearchScore : Type 0 where
  pub deletes : ℕ
  pub error_shifts : ℕ
  pub shifts : ℕ
  pub inserts : ℕ

pub record SearchRecord : Type 0 where
  pub cost : ℕ
  pub score : SearchScore

unfoldable pub score_dominates : SearchScore → SearchScore → Bool
score_dominates a b =
    ltb b.error_shifts a.error_shifts
    || ((a.error_shifts == b.error_shifts) && ltb b.shifts a.shifts)
    || ((a.error_shifts == b.error_shifts) && ((a.shifts == b.shifts) && ltb a.deletes b.deletes))
    || ((a.error_shifts == b.error_shifts)
        && ((a.shifts == b.shifts) && ((a.deletes == b.deletes) && ltb a.inserts b.inserts)))

unfoldable pub record_dominates : SearchRecord → SearchRecord → Bool
unfolding score_dominates
record_dominates a b = ltb a.cost b.cost || ((a.cost == b.cost) && score_dominates a.score b.score)

-- The counters of `repair_quality`.
pub record Quality : Type 0 where
  pub shifts : ℕ
  pub error_shifts : ℕ
  pub inserts : ℕ
  pub deletes : ℕ

abbrev pub counted : Repair → Quality → Quality
counted shift q = record {
  shifts = q.shifts + 1;
  error_shifts = q.error_shifts;
  inserts = q.inserts;
  deletes = q.deletes;
}
counted shift_as_error q = record {
  shifts = q.shifts;
  error_shifts = q.error_shifts + 1;
  inserts = q.inserts;
  deletes = q.deletes;
}
counted (insert t) q = record {
  shifts = q.shifts;
  error_shifts = q.error_shifts;
  inserts = q.inserts + 1;
  deletes = q.deletes;
}
counted delete q = record {
  shifts = q.shifts;
  error_shifts = q.error_shifts;
  inserts = q.inserts;
  deletes = q.deletes + 1;
}

-- The loop over the repairs, from the counters so far.
abbrev pub count_repairs : List Repair → Quality → Quality
count_repairs [] q = q
count_repairs (r ∷ repairs) q = count_repairs repairs (counted r q)

abbrev pub repair_quality : List Repair → Quality
repair_quality repairs =
    count_repairs repairs (record { shifts = 0; error_shifts = 0; inserts = 0; deletes = 0 })

abbrev pub repair_rank : Repair → ℕ × ℕ
repair_rank shift = (0, 0)
repair_rank delete = (1, 0)
repair_rank (insert t) = (2, 0)
repair_rank shift_as_error = (3, 0)

-- `Ord::cmp` of pairs
abbrev pub rank_cmp : ℕ × ℕ → ℕ × ℕ → Ordering
rank_cmp a b = elim (compare a.0 b.0) [
  | Ordering.eq ↦ compare a.1 b.1
  | Ordering.lt ↦ Ordering.lt
  | Ordering.gt ↦ Ordering.gt
]

-- The first difference of the zipped lists.
unfoldable pub compare_repairs : List Repair → List Repair → Ordering
compare_repairs [] b = Ordering.eq
compare_repairs (x ∷ a) [] = Ordering.eq
compare_repairs (x ∷ a) (y ∷ b) = elim (rank_cmp (repair_rank x) (repair_rank y)) [
  | Ordering.eq ↦ compare_repairs a b
  | Ordering.lt ↦ Ordering.lt
  | Ordering.gt ↦ Ordering.gt
]

-- `if a != b { return less; }` in front of the rest.
abbrev pub unless_equal : ℕ → ℕ → Bool → Bool → Bool
unless_equal a b less rest = if a == b then rest else less

unfoldable pub repairs_better : List Repair → List Repair → Bool
unfolding compare_repairs
repairs_better candidate current =
    let cand = repair_quality candidate in
    let cur = repair_quality current in
    unless_equal cand.shifts cur.shifts (ltb cur.shifts cand.shifts) (
      unless_equal cand.error_shifts cur.error_shifts (ltb cand.error_shifts cur.error_shifts) (
        unless_equal cand.inserts cur.inserts (ltb cand.inserts cur.inserts) (
          unless_equal cand.deletes cur.deletes (ltb cand.deletes cur.deletes)
            (is_lt (compare_repairs candidate current)))))

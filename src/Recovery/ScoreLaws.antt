-- ===== src/Recovery/ScoreLaws.antt =====
-- Laws of the orders of src/framework/parse/recovery.rs on records and on repairs.
use plingo.Prelude.{
  ℕ, ◌+◌, ◌≡◌, refl, ap₂, Bool, true, false, ltb, is_lt, List, [], ◌∷◌, map, length, arith, inl,
  inr, Bool-cases,
}
use Prim.Native.Nat.{Ordering}
use plingo.Recovery.Score.{
  Repair, insert, delete, shift, shift_as_error, SearchRecord, score_dominates, record_dominates,
  Quality, counted, count_repairs, repair_quality, repair_rank, rank_cmp, compare_repairs,
  unless_equal, repairs_better,
}

-- Dominance of records is transitive.
pub record_dominates_trans :
    (a b c : SearchRecord)
    → record_dominates a b ≡ true
    → record_dominates b c ≡ true
    → record_dominates a c ≡ true
unfolding record_dominates score_dominates
record_dominates_trans a b c h k = ground arith

tie_of :
    (a b : ℕ) (x y : Bool)
    → unless_equal a b (ltb b a) x ≡ false
    → unless_equal b a (ltb a b) y ≡ false
    → (a ≡ b) × (x ≡ false) × (y ≡ false)
tie_of a b x y h k = (ground arith, ground arith, ground arith)

tie_of_less :
    (a b : ℕ) (x y : Bool)
    → unless_equal a b (ltb a b) x ≡ false
    → unless_equal b a (ltb b a) y ≡ false
    → (a ≡ b) × (x ≡ false) × (y ≡ false)
tie_of_less a b x y h k = (ground arith, ground arith, ground arith)

abbrev total : Quality → ℕ
total q = q.shifts + q.error_shifts + q.inserts + q.deletes

total-count_repairs :
    (repairs : List Repair) (q : Quality)
    → total (count_repairs repairs q) ≡ total q + length repairs
total-count_repairs [] q = omega arith
total-count_repairs (shift ∷ repairs) q =
    omega (arith, total-count_repairs repairs (counted shift q))
total-count_repairs (delete ∷ repairs) q =
    omega (arith, total-count_repairs repairs (counted delete q))
total-count_repairs (insert t ∷ repairs) q =
    omega (arith, total-count_repairs repairs (counted (insert t) q))
total-count_repairs (shift_as_error ∷ repairs) q =
    omega (arith, total-count_repairs repairs (counted shift_as_error q))

rank_tie :
    (m n : ℕ × ℕ) (o p : Ordering)
    → is_lt (elim (rank_cmp m n) [
      | Ordering.eq ↦ o
      | Ordering.lt ↦ Ordering.lt
      | Ordering.gt ↦ Ordering.gt
    ])
      ≡ false
    → is_lt (elim (rank_cmp n m) [
      | Ordering.eq ↦ p
      | Ordering.lt ↦ Ordering.lt
      | Ordering.gt ↦ Ordering.gt
    ])
      ≡ false
    → (m ≡ n) × (is_lt o ≡ false) × (is_lt p ≡ false)
rank_tie (a, b) (c, d) o p h k =
    (ap₂ (λ x y. (x, y)) (ground arith) (ground arith), ground arith, ground arith)

ranks_equal :
    (a b : List Repair)
    → length a ≡ length b
    → is_lt (compare_repairs a b) ≡ false
    → is_lt (compare_repairs b a) ≡ false
    → map repair_rank a ≡ map repair_rank b
unfolding compare_repairs
ranks_equal [] [] l h k = refl
ranks_equal [] (y ∷ b) l h k = absurd (omega arith)
ranks_equal (x ∷ a) [] l h k = absurd (omega arith)
ranks_equal (x ∷ a) (y ∷ b) l h k =
    let (same, later, back) =
      rank_tie (repair_rank x) (repair_rank y) (compare_repairs a b) (compare_repairs b a) h k in
    ap₂ ◌∷◌ same (ranks_equal a b (omega arith) later back)

-- Where neither list of repairs is better, the kinds of their repairs are the same one by one.
pub repairs_better_total :
    (a b : List Repair)
    → repairs_better a b ≡ false
    → repairs_better b a ≡ false
    → map repair_rank a ≡ map repair_rank b
unfolding repairs_better
repairs_better_total a b h k =
    let q : Quality = repair_quality a in
    let r : Quality = repair_quality b in
    let (shifts, h1, k1) = tie_of q.shifts r.shifts _ _ h k in
    let (errors, h2, k2) = tie_of_less q.error_shifts r.error_shifts _ _ h1 k1 in
    let (inserts, h3, k3) = tie_of_less q.inserts r.inserts _ _ h2 k2 in
    let (deletes, h4, k4) = tie_of_less q.deletes r.deletes _ _ h3 k3 in
    let of_a = total-count_repairs a no_repairs in
    let of_b = total-count_repairs b no_repairs in
    ranks_equal a b (omega (arith, shifts, errors, inserts, deletes, of_a, of_b)) h4 k4
  where
    no_repairs : Quality
    no_repairs = record { shifts = 0; error_shifts = 0; inserts = 0; deletes = 0 }

parts_equal :
    (a b : SearchRecord)
    → a.cost ≡ b.cost
    → a.score.error_shifts ≡ b.score.error_shifts
    → a.score.shifts ≡ b.score.shifts
    → a.score.deletes ≡ b.score.deletes
    → a.score.inserts ≡ b.score.inserts
    → a ≡ b
parts_equal a b cost errors shifts deletes inserts =
    ap₂ (λ c s. record { cost = c; score = s }) cost
      (ap₂
        (λ (x y : ℕ × ℕ). record { deletes = x.0; error_shifts = x.1; shifts = y.0; inserts = y.1 })
        (ap₂ (λ x y. (x, y)) deletes errors) (ap₂ (λ x y. (x, y)) shifts inserts))

-- Two records of which neither dominates the other are equal.
pub record_dominates_total :
    (a b : SearchRecord) → record_dominates a b ≡ false → record_dominates b a ≡ false → a ≡ b
unfolding record_dominates score_dominates
record_dominates_total a b h k =
    parts_equal a b (ground arith) (ground arith) (ground arith) (ground arith) (ground arith)

-- Of two records at most one dominates.
pub record_dominates_asym :
    (a b : SearchRecord) → record_dominates a b ≡ true → record_dominates b a ≡ false
unfolding record_dominates score_dominates
record_dominates_asym a b h = ground arith

-- No record that fails to dominate the old one dominates what dominates the old one.
pub record_dominates_chain :
    (r a b : SearchRecord)
    → record_dominates b a ≡ true
    → record_dominates r a ≡ false
    → record_dominates r b ≡ false
record_dominates_chain r a b h k = elim (Bool-cases (record_dominates r b)) [
  | inl e ↦ let bad = record_dominates_trans r b a e h in cc
  | inr e ↦ e
]

-- ===== src/Seq/Measure.antt =====
-- The traits `SeqMeasure` and `SeqMeasureWeight` of src/utils/persistent_seq.rs, as records of
-- their functions, and `CountMeasure`, which implements both.
use plingo.Prelude.{ℕ, ◌+◌, ◌≡◌, refl, List, [], ◌++◌, length, length-append, arith}

pub record SeqMeasure {ℓ κ} (T : Type ℓ) (M : Type κ) : Type (ℓ ⊔ κ) where
  pub measure_leaf : List T → M
  pub combine : M → M → M

-- What the trait's documentation asks of an implementation: the measure of a concatenation is the
-- combination of the measures, in order.
pub record IsLawful {ℓ κ} {T : Type ℓ} {M : Type κ} (s : SeqMeasure T M) : Type (ℓ ⊔ κ) where
  pub measure-append :
      (xs ys : List T)
      → s.measure_leaf (xs ++ ys) ≡ s.combine (s.measure_leaf xs) (s.measure_leaf ys)

pub record SeqMeasureWeight {κ} (M : Type κ) : Type κ where
  pub weight : M → ℕ

-- A weight counts the logical positions of the items, so the weights of neighbours add up.
pub record IsAdditive {ℓ κ} {T : Type ℓ} {M : Type κ} (s : SeqMeasure T M) (w : SeqMeasureWeight M)
    : Type κ where
  pub weight-combine : (a b : M) → w.weight (s.combine a b) ≡ w.weight a + w.weight b

module _ {ℓ κ} {T : Type ℓ} {M : Type κ} {s : SeqMeasure T M} {w : SeqMeasureWeight M} where
  pub weight-append :
      IsLawful s
      → IsAdditive s w
      → (xs ys : List T)
      → w.weight (s.measure_leaf (xs ++ ys))
        ≡ w.weight (s.measure_leaf xs) + w.weight (s.measure_leaf ys)
  weight-append lawful additive xs ys =
      rw (lawful.measure-append xs ys) (additive.weight-combine _ _)

  pub weight-nil : IsLawful s → IsAdditive s w → w.weight (s.measure_leaf []) ≡ 0
  weight-nil lawful additive = omega (arith, weight-append lawful additive [] [])

module _ {ℓ} {T : Type ℓ} where
  instance abbrev pub count_measure : SeqMeasure T ℕ
  count_measure = record { measure_leaf = length; combine = ◌+◌ }

  pub count_measure-IsLawful : IsLawful {T = T} count_measure
  count_measure-IsLawful = record { measure-append = length-append }

instance abbrev pub count_weight : SeqMeasureWeight ℕ
count_weight = record { weight = λ n. n }

pub count_measure-IsAdditive {ℓ} : {T : Type ℓ} → IsAdditive {T = T} count_measure count_weight
count_measure-IsAdditive = record { weight-combine = λ a b. refl }

-- ===== src/Tape/SearchLaws.antt =====
-- What the descents of src/framework/tape.rs find in a valid tree.
use plingo.Prelude.{
  ℕ, ◌+◌, ◌-◌, min, ◌≡◌, refl, sym, ap, ap₂, ◌∙◌, Bool-cases, List, [], ◌∷◌, ◌++◌, length,
  get_elem?, take, take-min, leb, ltb, ltb→lt, ltb→ge, leb→le, leb→gt, get_elem?-append_left,
  get_elem?-append_right, take-append_left, take-append_right, inl, inr, arith,
}
use plingo.Tape.Metric.{SequenceMetric, TapeEntry, no_metric, add, fold_metric, metric_of}
use plingo.Tape.Node.{TapeNode, leaf, branch, len, node_metric, entries_of, IsValid, len-entries_of}
use plingo.Tape.Search.{node_get, prefix}

-- A component of a metric that adds up, as the counts and the bytes do.
abbrev pub IsAdditive : (SequenceMetric → ℕ) → Type 0
IsAdditive part = (part no_metric ≡ 0) × ((a b : SequenceMetric) → part (add a b) ≡ part a + part b)

module _ {T : Type 0} ⦃e : TapeEntry T⦄ where
  -- `get` reads the entry with the rank, and none past the end.
  pub node_get_lem :
      (t : TapeNode T) (rank : ℕ) → IsValid t → node_get t rank ≡ get_elem? (entries_of t) rank
  unfolding node_get
  node_get_lem (leaf i o x m) rank v = refl
  node_get_lem (branch i l r n h m f z) rank v =
      let size = len-entries_of l v.0 in
      elim (Bool-cases (ltb rank (len l))) [
        | inl below ↦ rw below (
            node_get_lem l rank v.0
            ∙ sym (
                get_elem?-append_left (entries_of l) (entries_of r) rank
                  (omega (arith, size, ltb→lt _ _ below))))
        | inr above ↦ rw above (
            node_get_lem r (rank - len l) v.1
            ∙ ap (λ k. get_elem? (entries_of r) (rank - k)) size
            ∙ sym (
                get_elem?-append_right (entries_of l) (entries_of r) rank
                  (omega (arith, size, ltb→ge _ _ above))))
      ]

  abbrev pub total : (SequenceMetric → ℕ) → List T → ℕ
  total part [] = 0
  total part (x ∷ entries) = part (e.metric x) + total part entries

  fold_metric_lem :
      (part : SequenceMetric → ℕ) (m : SequenceMetric) (entries : List T)
      → IsAdditive part
      → part (fold_metric m entries) ≡ part m + total part entries
  fold_metric_lem part m [] a = omega arith
  fold_metric_lem part m (x ∷ entries) a =
      omega (arith, fold_metric_lem part (add m (e.metric x)) entries a, a.1 m (e.metric x))

  pub metric_of_lem :
      (part : SequenceMetric → ℕ) (entries : List T)
      → IsAdditive part
      → part (metric_of entries) ≡ total part entries
  metric_of_lem part entries a = omega (arith, fold_metric_lem part no_metric entries a, a.0)

  pub total-append :
      (part : SequenceMetric → ℕ) (x y : List T) → total part (x ++ y) ≡ total part x + total part y
  total-append part [] y = omega arith
  total-append part (a ∷ x) y = omega (arith, total-append part x y)

  pub node_metric_lem :
      (part : SequenceMetric → ℕ) (t : TapeNode T)
      → IsAdditive part
      → IsValid t
      → part (node_metric t) ≡ total part (entries_of t)
  node_metric_lem part (leaf i o x m) a v = ap part v.3 ∙ metric_of_lem part x a
  node_metric_lem part (branch i l r n h m f z) a v =
      ap part v.4
      ∙ a.1 (node_metric l) (node_metric r)
      ∙ ap₂ ◌+◌ (node_metric_lem part l a v.0) (node_metric_lem part r a v.1)
      ∙ sym (total-append part (entries_of l) (entries_of r))

  pub prefix_lem :
      (part : SequenceMetric → ℕ) (t : TapeNode T) (rank : ℕ)
      → IsAdditive part
      → IsValid t
      → part (prefix t rank) ≡ total part (take rank (entries_of t))
  unfolding prefix
  prefix_lem part (leaf i o x m) rank a v =
      metric_of_lem part (take (min rank (length x)) x) a ∙ ap (total part) (take-min rank x)
  prefix_lem part (branch i l r n h m f z) rank a v =
      let size = len-entries_of l v.0 in
      elim (Bool-cases (leb rank (len l))) [
        | inl below ↦ rw below (
            prefix_lem part l rank a v.0
            ∙ ap (total part) (
                sym (
                  take-append_left (entries_of l) (entries_of r) rank
                    (omega (arith, size, leb→le _ _ below)))))
        | inr above ↦ rw above (
            a.1 (node_metric l) (prefix r (rank - len l))
            ∙ ap₂ ◌+◌ (node_metric_lem part l a v.0) (
                prefix_lem part r (rank - len l) a v.1
                ∙ ap (λ k. total part (take (rank - k) (entries_of r))) size)
            ∙ sym (
                total-append part (entries_of l)
                  (take (rank - length (entries_of l)) (entries_of r)))
            ∙ ap (total part) (
                sym (
                  take-append_right (entries_of l) (entries_of r) rank
                    (omega (arith, size, leb→gt _ _ above)))))
      ]

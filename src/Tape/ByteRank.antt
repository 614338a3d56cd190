-- ===== src/Tape/ByteRank.antt =====
-- `metric_before` and `lexical_rank_at_byte_detailed` of src/framework/tape.rs against the entries.
use plingo.Prelude.{
  ℕ, suc, ◌+◌, ◌-◌, ◌≤◌, ◌<◌, min, ◌≡◌, ◌⊎◌, refl, sym, subst, ap, ◌∙◌, Bool-cases, List, [], ◌∷◌,
  ◌++◌, length, take, take-min, take-nil, take-length, take-append_left, take-append_right,
  length-append, ltb, ltb→lt, ltb→ge, none, some, inl, inr, arith,
}
use plingo.Tape.Metric.{SequenceMetric, TapeEntry}
use plingo.Tape.Node.{
  TapeNode, leaf, branch, len, height, node_metric, entries_of, IsValid, len-entries_of,
}
use plingo.Tape.Search.{scan_leaf, rank_at_byte}
use plingo.Tape.SearchLaws.{IsAdditive, total, total-append, node_metric_lem, prefix_lem}
use plingo.Tape.Stable.{StableTape, metric_before, lexical_rank_at_byte_detailed}
use plingo.Tape.Fitting.{IsTape}

bytes_IsAdditive : IsAdditive (λ m. m.source_bytes)
bytes_IsAdditive = (refl, λ a b. refl)

module _ {T : Type 0} ⦃e : TapeEntry T⦄ where
  abbrev pub bytes : List T → ℕ
  bytes = total (λ m. m.source_bytes)

  -- `k` entries end at the byte offset or before it, and the next, if any, ends after it.
  abbrev pub FirstAfter : List T → ℕ → ℕ → Type 0
  FirstAfter x offset k =
      (k ≤ length x)
      × (bytes (take k x) ≤ offset)
      × ((k ≡ length x) ⊎ (offset < bytes (take (suc k) x)))

  scan_leaf_lem :
      (x : List T) (remaining rank : ℕ)
      → (k : ℕ) × (scan_leaf x remaining rank ≡ rank + k) × FirstAfter x remaining k
  unfolding scan_leaf
  scan_leaf_lem [] remaining rank = (0, omega arith, (omega arith, omega arith, inl refl))
  scan_leaf_lem (x ∷ entries) remaining rank =
      let width = (e.metric x).source_bytes in
      elim (Bool-cases (ltb remaining width)) [
        | inl short ↦ (
          0,
          rw short (omega arith),
          (omega arith, omega arith, inr (omega (arith, ltb→lt _ _ short))),
        )
        | inr enough ↦
            let (k, same, (l, before, after)) =
              scan_leaf_lem entries (remaining - width) (rank + 1) in
            (
              suc k,
              rw enough (omega (arith, same)),
              (
                omega arith,
                omega (arith, before, ltb→ge _ _ enough),
                elim after [
                  | inl end ↦ inl (ap suc end)
                  | inr next ↦ inr (omega (arith, next, ltb→ge _ _ enough))
                ],
              ),
            )
      ]

  in_left :
      (x y : List T) (offset k : ℕ)
      → offset < bytes x
      → FirstAfter x offset k
      → FirstAfter (x ++ y) offset k
  in_left x y offset k lt (l, before, after) = elim (Bool-cases (ltb k (length x))) [
    | inl inside ↦ (
      omega (arith, l, length-append x y),
      subst (λ z. bytes z ≤ offset) (sym (take-append_left x y k l)) before,
      elim after [
        | inl end ↦ absurd (omega (arith, end, ltb→lt _ _ inside))
        | inr next ↦ inr (
            subst (λ z. offset < bytes z) (sym (take-append_left x y (suc k) (ltb→lt _ _ inside)))
              next)
      ],
    )
    | inr past ↦
        let whole : k ≡ length x = omega (arith, l, ltb→ge _ _ past) in
        let all : bytes (take k x) ≡ bytes x =
          ap (λ n. bytes (take n x)) whole ∙ ap bytes (take-length x) in
        absurd (omega (arith, all, before, lt))
  ]

  in_right :
      (x y : List T) (offset k : ℕ)
      → bytes x ≤ offset
      → FirstAfter y (offset - bytes x) k
      → FirstAfter (x ++ y) offset (length x + k)
  in_right x y offset k le (l, before, after) =
      let cut : (n : ℕ) → bytes (take (length x + n) (x ++ y)) ≡ bytes x + bytes (take n y) = λ n.
        ap bytes (take-append_right x y (length x + n) (omega arith))
        ∙ total-append (λ m. m.source_bytes) x (take (length x + n - length x) y)
        ∙ ap (λ j. bytes x + bytes (take j y)) (omega arith) in
      (
        omega (arith, l, length-append x y),
        omega (arith, cut k, before, le),
        elim after [
          | inl end ↦ inl (omega (arith, end, length-append x y))
          | inr next ↦
              let here : length x + suc k ≡ suc (length x + k) = omega arith in
              inr (
                subst (λ j. offset < bytes (take j (x ++ y))) here
                  (omega (arith, cut (suc k), next, le)))
        ],
      )

  rank_at_byte_lem :
      (t : TapeNode T) (remaining rank depth : ℕ)
      → IsValid t
      → (k : ℕ) × ((rank_at_byte t remaining rank depth).0 ≡ rank + k)
        × FirstAfter (entries_of t) remaining k
  unfolding rank_at_byte
  rank_at_byte_lem (leaf i o x m) remaining rank depth v = scan_leaf_lem x remaining rank
  rank_at_byte_lem (branch i l r n h m f z) remaining rank depth v =
      let size = len-entries_of l v.0 in
      let width = node_metric_lem (λ m. m.source_bytes) l bytes_IsAdditive v.0 in
      elim (Bool-cases (ltb remaining (node_metric l).source_bytes)) [
        | inl left ↦
            let (k, same, found) = rank_at_byte_lem l remaining rank (depth + 1) v.0 in
            (
              k,
              rw left same,
              in_left (entries_of l) (entries_of r) remaining k
                  (omega (arith, width, ltb→lt _ _ left)) found,
            )
        | inr right ↦
            let (k, same, found) =
              rank_at_byte_lem r (remaining - (node_metric l).source_bytes) (rank + len l)
                (depth + 1) v.1 in
            (
              length (entries_of l) + k,
              rw right (omega (arith, same, size)),
              in_right (entries_of l) (entries_of r) remaining k
                  (omega (arith, width, ltb→ge _ _ right))
                  (subst (λ w. FirstAfter (entries_of r) (remaining - w) k) width found),
            )
      ]

  rank_at_byte_depth :
      (t : TapeNode T) (remaining rank depth : ℕ)
      → IsValid t
      → (rank_at_byte t remaining rank depth).1 ≤ depth + height t
  unfolding rank_at_byte
  rank_at_byte_depth (leaf i o x m) remaining rank depth v = omega arith
  rank_at_byte_depth (branch i l r n h m f z) remaining rank depth v =
      elim (Bool-cases (ltb remaining (node_metric l).source_bytes)) [
        | inl left ↦
            rw left (omega (arith, rank_at_byte_depth l remaining rank (depth + 1) v.0, v.3))
        | inr right ↦ rw right (
            omega (
              arith,
              rank_at_byte_depth r (remaining - (node_metric l).source_bytes) (rank + len l)
                  (depth + 1) v.1,
              v.3,
            ))
      ]

  -- In a valid tape the rank of a byte offset is that of the first entry that ends after it, or the
  -- length of the tape where none does; the depth counted is at most the height.
  pub lexical_rank_lem :
      (h : ℕ) (x : List T) (t : StableTape T) (byte_offset : ℕ)
      → IsTape none none h x t
      → FirstAfter x byte_offset (lexical_rank_at_byte_detailed t byte_offset).0
        × ((lexical_rank_at_byte_detailed t byte_offset).1 ≤ h)
  lexical_rank_lem h x none byte_offset k = (
    subst (λ y. FirstAfter y byte_offset 0) (sym k) (omega arith, omega arith, inl refl),
    omega arith,
  )
  lexical_rank_lem h x (some root) byte_offset k =
      let (n, same, found) = rank_at_byte_lem root byte_offset 0 0 k.valid in
      (
        subst (λ j. FirstAfter x byte_offset j) (omega (arith, same))
            (subst (λ y. FirstAfter y byte_offset n) k.holds found),
        omega (arith, rank_at_byte_depth root byte_offset 0 0 k.valid, k.high),
      )

  part_before :
      (part : SequenceMetric → ℕ) (h : ℕ) (x : List T) (t : StableTape T) (rank : ℕ)
      → IsAdditive part
      → IsTape none none h x t
      → part (metric_before t rank) ≡ total part (take rank x)
  part_before part h x none rank a k =
      a.0 ∙ sym (ap (λ y. total part (take rank y)) k ∙ ap (total part) (take-nil rank))
  part_before part h x (some root) rank a k =
      let size : len root ≡ length (entries_of root) = len-entries_of root k.valid in
      prefix_lem part root (min rank (len root)) a k.valid
      ∙ ap (λ n. total part (take (min rank n) (entries_of root))) size
      ∙ ap (total part) (take-min rank (entries_of root))
      ∙ ap (λ y. total part (take rank y)) k.holds

  -- The counts and the bytes of `metric_before` are those of the entries before the rank. (Its hash
  -- depends on how the entries are spread over the leaves.)
  pub metric_before_lem :
      (h : ℕ) (x : List T) (t : StableTape T) (rank : ℕ)
      → IsTape none none h x t
      → ((metric_before t rank).lexical_count ≡ total (λ m. m.lexical_count) (take rank x))
        × ((metric_before t rank).semantic_count ≡ total (λ m. m.semantic_count) (take rank x))
        × ((metric_before t rank).source_bytes ≡ total (λ m. m.source_bytes) (take rank x))
  metric_before_lem h x t rank k = (
    part_before (λ m. m.lexical_count) h x t rank (refl, λ a b. refl) k,
    part_before (λ m. m.semantic_count) h x t rank (refl, λ a b. refl) k,
    part_before (λ m. m.source_bytes) h x t rank (refl, λ a b. refl) k,
  )

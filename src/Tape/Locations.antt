-- ===== src/Tape/Locations.antt =====
-- `locations_in_range` of src/framework/tape.rs finds every entry of the range, and each location
-- leads back to its entry.
use plingo.Prelude.{
  Bool, ℕ, suc, ◌+◌, ◌-◌, ◌≤◌, ◌<◌, min, ◌≡◌, refl, sym, subst, ap, ap₂, ◌∙◌, true, false, ◌||◌,
  ==_iff, Bool-cases, List, [], ◌∷◌, ◌++◌, map, length, length-take, length-drop, take, drop,
  take-min, get_elem?, get_elem?-take, get_elem?-drop, slice, slice-append, leb, leb→le, leb→gt,
  lt→ltb, le→leb, ◌⊎◌, none, some, inl, inr, arith,
}
use mathlib.Core.List.{map-append}
use plingo.Tape.OrderKey.{LeafOrderKey}
use plingo.Tape.Metric.{SequenceMetric, TapeEntry}
use plingo.Tape.Node.{TapeNode, leaf, branch, len, entries_of, IsValid, len-entries_of}
use plingo.Tape.Search.{OccurrenceLocation, slots_from, collect_locations}
use plingo.Tape.Fitting.{IsTape}
use plingo.Tape.Occurrence.{LeafAt, rank_of_location, locations_in_range}
use plingo.Tape.OccurrenceLaws.{rank_of_order_lem, leaf_entries}

or_false : (a b : Bool) → a || b ≡ false → (a ≡ false) × (b ≡ false)
or_false true b h = cc
or_false false b h = (refl, h)

abbrev pub ids : List (ℕ × OccurrenceLocation) → List ℕ
ids [] = []
ids (found ∷ rest) = found.0 ∷ ids rest

ids-append : (a b : List (ℕ × OccurrenceLocation)) → ids (a ++ b) ≡ ids a ++ ids b
ids-append [] b = refl
ids-append (found ∷ a) b = ap (found.0 ∷◌) (ids-append a b)

or_true : (a b : Bool) → a || b ≡ true → (a ≡ true) ⊎ (b ≡ true)
or_true true b h = inl refl
or_true false b h = inr h

nil_of_length : {A : Type 0} (x : List A) → length x ≡ 0 → [] ≡ x
nil_of_length [] h = refl
nil_of_length (a ∷ x) h = absurd (omega arith)

pub slice_same : {A : Type 0} (a b c d : ℕ) (x : List A) → a ≡ c → b ≡ d → slice a b x ≡ slice c d x
slice_same a b c d x p q = ap₂ (λ i j. slice i j x) p q

pub slice_outside :
    {A : Type 0} (base n first past : ℕ) (x : List A)
    → length x ≡ n
    → (leb (base + n) first || leb past base) ≡ true
    → [] ≡ slice (first - base) (past - base) x
slice_outside base n first past x size out =
    let inner = drop (first - base) x in
    let cut = past - base - (first - base) in
    let counted = length-take cut inner in
    let left = length-drop (first - base) x in
    nil_of_length (take cut inner) (elim (or_true (leb (base + n) first) (leb past base) out) [
      | inl after ↦ omega (arith, counted, left, leb→le _ _ after, size)
      | inr before ↦ omega (arith, counted, left, leb→le _ _ before)
    ])

-- The end of a slice may be clamped to the list.
pub slice_clamped :
    {A : Type 0} (start stop : ℕ) (x : List A)
    → slice start (min stop (length x)) x ≡ slice start stop x
slice_clamped start stop x =
    ap (λ k. take k (drop start x)) {x = min stop (length x) - start}
      {y = min (stop - start) (length (drop start x))} (omega (arith, length-drop start x))
    ∙ take-min (stop - start) (drop start x)

pub slice_branch :
    {A : Type 0} (base first past n : ℕ) (x y : List A)
    → n ≡ length x
    → slice (first - base) (past - base) x ++ slice (first - (base + n)) (past - (base + n)) y
      ≡ slice (first - base) (past - base) (x ++ y)
slice_branch base first past n x y size =
    ap (slice (first - base) (past - base) x ++◌) (
      slice_same (first - (base + n)) (past - (base + n)) (first - base - length x)
        (past - base - length x) y (omega (arith, size)) (omega (arith, size)))
    ∙ sym (slice-append (first - base) (past - base) x y)

module _ {T : Type 0} ⦃e : TapeEntry T⦄ where
  -- A location leads to the rank of an entry with the identity.
  abbrev pub IsResolved : TapeNode T → ℕ × OccurrenceLocation → Type 0
  IsResolved root (i, location) =
      (rank : ℕ) × (x : T) × (rank_of_location root location ≡ some rank)
      × (get_elem? (entries_of root) rank ≡ some x)
      × (e.stable_id x ≡ i)

  abbrev pub AreResolved : TapeNode T → List (ℕ × OccurrenceLocation) → Type 0
  AreResolved root [] = Unit
  AreResolved root (found ∷ rest) = IsResolved root found × AreResolved root rest

  AreResolved-append :
      (root : TapeNode T) (a b : List (ℕ × OccurrenceLocation))
      → AreResolved root a
      → AreResolved root b
      → AreResolved root (a ++ b)
  AreResolved-append root [] b p q = q
  AreResolved-append root (found ∷ a) b p q = (p.0, AreResolved-append root a b p.1 q)

  slot_found :
      (root : TapeNode T) (k i slot : ℕ) (o : LeafOrderKey) (x : List T) (m : SequenceMetric)
      (a : T)
      → IsValid root
      → LeafAt root k (leaf i o x m)
      → get_elem? x slot ≡ some a
      → slot < length x
      → IsResolved root (e.stable_id a, record { leaf_id = i; slot = slot; order = o })
  slot_found root k i slot o x m a v at found inside =
      let (ranked, reached) = rank_of_order_lem root k 0 (leaf i o x m) v at in
      (
        k + slot,
        a,
        rw (ranked, reached, (==_iff i i).1 refl, lt→ltb slot (length x) inside)
            (ap some (omega arith)),
        leaf_entries root k slot (leaf i o x m) v at inside ∙ found,
        refl,
      )

  slots_from-AreResolved :
      (root : TapeNode T) (k i slot : ℕ) (o : LeafOrderKey) (x y : List T) (m : SequenceMetric)
      → IsValid root
      → LeafAt root k (leaf i o x m)
      → ((j : ℕ) → j < length y → get_elem? x (slot + j) ≡ get_elem? y j)
      → slot + length y ≤ length x
      → AreResolved root (slots_from i o y slot)
  slots_from-AreResolved root k i slot o x [] m v at same fits = tt
  slots_from-AreResolved root k i slot o x (a ∷ y) m v at same fits = (
    slot_found root k i slot o x m a v at (ap (get_elem? x) (omega arith) ∙ same 0 (omega arith))
        (omega (arith, fits)),
    slots_from-AreResolved root k i (slot + 1) o x y m v at
        (λ j h. ap (get_elem? x) (omega arith) ∙ same (suc j) (omega (arith, h)))
        (omega (arith, fits)),
  )

  ids_of_slots :
      (i slot : ℕ) (o : LeafOrderKey) (x : List T) → ids (slots_from i o x slot) ≡ map e.stable_id x
  ids_of_slots i slot o [] = refl
  ids_of_slots i slot o (a ∷ x) = ap (e.stable_id a ∷◌) (ids_of_slots i (slot + 1) o x)

  -- What the locations found below a node are: the entries of the range, each with its place.
  abbrev Finds : TapeNode T → TapeNode T → ℕ → ℕ → ℕ → Type 0
  Finds root t base first past =
      (found : List (ℕ × OccurrenceLocation)) × (collect_locations t base first past ≡ some found)
      × (ids found ≡ map e.stable_id (slice (first - base) (past - base) (entries_of t)))
      × AreResolved root found

  leaf-Finds :
      (root : TapeNode T) (i base first past : ℕ) (o : LeafOrderKey) (x : List T)
      (m : SequenceMetric)
      → IsValid root
      → LeafAt root base (leaf i o x m)
      → first ≤ past
      → first < base + length x
      → base < past
      → (leb (base + length x) first || leb past base) ≡ false
      → Finds root (leaf i o x m) base first past
  unfolding collect_locations
  leaf-Finds root i base first past o x m w at ordered reaches before meets =
      let start : ℕ = first - base in
      let stop : ℕ = min (past - base) (length x) in
      let part : List T = take (stop - start) (drop start x) in
      let fits : start ≤ stop = omega (arith, ordered, reaches, before) in
      let counted = length-take (stop - start) (drop start x) in
      let left = length-drop start x in
      (
        slots_from i o part start,
        rw (meets, le→leb start stop fits) refl,
        ids_of_slots i start o part ∙ ap (map e.stable_id) (slice_clamped start (past - base) x),
        slots_from-AreResolved root base i start o x part m w at
            (λ j h. sym (
              get_elem?-take (stop - start) (drop start x) j (omega (arith, h, counted))
              ∙ get_elem?-drop start x j))
            (omega (arith, counted, left, reaches)),
      )

  collect_locations-Finds :
      (root t : TapeNode T) (base first past : ℕ)
      → IsValid root
      → IsValid t
      → first ≤ past
      → ((k : ℕ) (s : TapeNode T) → LeafAt t k s → LeafAt root (base + k) s)
      → Finds root t base first past
  unfolding collect_locations
  collect_locations-Finds root (leaf i o x m) base first past w v ordered inside =
      elim (Bool-cases (leb (base + length x) first || leb past base)) [
        | inl out ↦ (
          [],
          rw out refl,
          ap (map e.stable_id) (slice_outside base (length x) first past x refl out),
          tt,
        )
        | inr meets ↦
            let (reaches, before) = or_false (leb (base + length x) first) (leb past base) meets in
            leaf-Finds root i base first past o x m w
              (subst (λ k. LeafAt root k (leaf i o x m)) (omega arith)
                (inside 0 (leaf i o x m) (refl, refl)))
              ordered (leb→gt _ _ reaches) (leb→gt _ _ before) meets
      ]
  collect_locations-Finds root (branch i l r n h m f z) base first past w v ordered inside =
      let size = len-entries_of l v.0 in
      elim (Bool-cases (leb (base + n) first || leb past base)) [
        | inl out ↦ (
          [],
          rw out refl,
          ap (map e.stable_id) (
              slice_outside base n first past (entries_of l ++ entries_of r)
                (sym (len-entries_of (branch i l r n h m f z) v)) out),
          tt,
        )
        | inr meets ↦
            let (a, at_a, ids_a, res_a) =
              collect_locations-Finds root l base first past w v.0 ordered
                (λ k s q. inside k s (inl q)) in
            let (b, at_b, ids_b, res_b) =
              collect_locations-Finds root r (base + len l) first past w v.1 ordered (λ k s q.
                subst (λ j. LeafAt root j s) (omega arith)
                  (inside (len l + k) s (inr (k, refl, q)))) in
            (
              a ++ b,
              rw (meets, at_a, at_b) refl,
              ids-append a b
                  ∙ ap₂ ◌++◌ ids_a ids_b
                  ∙ sym
                      (map-append e.stable_id (slice (first - base) (past - base) (entries_of l)) _)
                  ∙ ap (map e.stable_id)
                      (slice_branch base first past (len l) (entries_of l) (entries_of r) size),
              AreResolved-append root a b res_a res_b,
            )
      ]

  -- For a range whose ends are in order, the locations in a valid tape are found, and they are those of
  -- its entries, in order: each leads back to the rank of an entry with its identity.
  pub locations_in_range_lem :
      (h : ℕ) (x : List T) (root : TapeNode T) (first past : ℕ)
      → IsTape none none h x (some root)
      → first ≤ past
      → (found : List (ℕ × OccurrenceLocation)) × (locations_in_range (some root) first past
          ≡ some found)
        × (ids found ≡ map e.stable_id (slice first past x))
        × AreResolved root found
  locations_in_range_lem h x root first past k ordered =
      let (found, at, same, resolved) =
        collect_locations-Finds root root 0 first past k.valid k.valid ordered
          (λ j s a. subst (λ q. LeafAt root q s) (omega arith) a) in
      (
        found,
        at,
        same
            ∙ ap (map e.stable_id) (
                slice_same (first - 0) (past - 0) first past (entries_of root) (omega arith)
                  (omega arith)
                ∙ ap (slice first past) k.holds),
        resolved,
      )

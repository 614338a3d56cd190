-- ===== src/Source/NormalizeLaws.antt =====
-- What `normalize_edits` of src/framework/source.rs leaves is a normalized list of splices.
use plingo.Prelude.{
  ℕ, ◌+◌, ◌-◌, ◌≤◌, ◌≡◌, refl, ap, ◌∙◌, Option, ◌⊎◌, true, false, ◌==◌, le→leb, some, List, [], ◌∷◌,
  ◌++◌, length, length-append, arith, Bool-cases, inl, inr, take, drop, append_assoc,
}
use plingo.Source.Coordinates.{SourceSplice}
use plingo.Source.Text.{Edit, IsNormalized, spliced}
use plingo.Source.Normalize.{
  Repl, overlapping, zip_equal, changes_nothing, splice_at, shift_splices, adjacent, merged,
  merge_from, merge_adjacent, normalize_replacements,
}

-- What the validation of the operations leaves: every old range is in order and inside the text.
abbrev pub AllInside : ℕ → List Repl → Type 0
AllInside len [] = Unit
AllInside len (r ∷ replacements) =
    (r.old_range.start ≤ r.old_range.end) × (r.old_range.end ≤ len) × AllInside len replacements

-- From a cursor on, the replacements are in order and inside the text.
abbrev pub InOrder : ℕ → ℕ → List Repl → Type 0
InOrder len oc [] = oc ≤ len
InOrder len oc (r ∷ replacements) =
    (oc ≤ r.old_range.start)
    × (r.old_range.start ≤ r.old_range.end)
    × InOrder len r.old_range.end replacements

in_order :
    (len oc : ℕ) (r : Repl) (replacements : List Repl)
    → oc ≤ r.old_range.start
    → AllInside len (r ∷ replacements)
    → overlapping (r ∷ replacements) ≡ false
    → InOrder len oc (r ∷ replacements)
unfolding overlapping
in_order len oc r [] h a e = (h, a.0, a.1)
in_order len oc r (s ∷ replacements) h a e =
    (h, a.0, in_order len r.old_range.end s replacements (ground arith) a.2 (ground arith))

pub InOrder-weaken :
    (len oc from : ℕ) (replacements : List Repl)
    → oc ≤ from
    → InOrder len from replacements
    → InOrder len oc replacements
InOrder-weaken len oc from [] h a = omega arith
InOrder-weaken len oc from (r ∷ replacements) h a = (omega (arith, a.0), a.1, a.2)

-- The slices of the ranges inside the text are in bounds.
abbrev pub SlicesInside : (ℕ → ℕ → Option (List ℕ)) → ℕ → Type 0
SlicesInside slice len =
    (from to : ℕ) → from ≤ to → to ≤ len → (bytes : List ℕ) × (slice from to ≡ some bytes)

pub changes_nothing_lem :
    (slice : ℕ → ℕ → Option (List ℕ)) (len : ℕ) (r : Repl)
    → SlicesInside slice len
    → r.old_range.start ≤ r.old_range.end
    → r.old_range.end ≤ len
    → (changes_nothing slice r ≡ some true) ⊎ (changes_nothing slice r ≡ some false)
changes_nothing_lem slice len r inside h k =
    let (bytes, e) = inside r.old_range.start r.old_range.end h k in
    elim (Bool-cases (length r.inserted == (r.old_range.end - r.old_range.start))) [
      | inl same ↦ elim (Bool-cases (zip_equal r.inserted bytes)) [
        | inl equal ↦ inl (rw (same, e, equal) refl)
        | inr differ ↦ inr (rw (same, e, differ) refl)
      ]
      | inr other ↦ inr (rw other refl)
    ]

pub InOrder-le : (len oc : ℕ) (replacements : List Repl) → InOrder len oc replacements → oc ≤ len
InOrder-le len oc [] o = o
InOrder-le len oc (r ∷ replacements) o =
    omega (arith, o.0, o.1, InOrder-le len r.old_range.end replacements o.2)

-- The new cursor is the old one with the shift.
pub shift_splices-IsNormalized :
    (slice : ℕ → ℕ → Option (List ℕ)) (len oc nc gained lost : ℕ) (replacements : List Repl)
    → SlicesInside slice len
    → InOrder len oc replacements
    → nc + lost ≡ oc + gained
    → (edits : List Edit) × (shift_splices slice replacements gained lost ≡ some edits)
      × IsNormalized len oc nc edits
unfolding shift_splices
shift_splices-IsNormalized slice len oc nc gained lost [] inside o h = ([], refl, o)
shift_splices-IsNormalized slice len oc nc gained lost (r ∷ replacements) inside o h =
    let enough : lost ≤ r.old_range.start + gained = omega (arith, o.0, h) in
    let start : ℕ = r.old_range.start + gained - lost in
    let size : ℕ = r.old_range.end - r.old_range.start in
    let guard = le→leb lost (r.old_range.start + gained) enough in
    let fits = InOrder-le len r.old_range.end replacements o.2 in
    elim (changes_nothing_lem slice len r inside o.1 fits) [
      | inl e ↦
          let later =
            InOrder-weaken len oc r.old_range.end replacements (omega (arith, o.0, o.1)) o.2 in
          rw (guard, e)
            (shift_splices-IsNormalized slice len oc nc gained lost replacements inside later h)
      | inr e ↦
          let (edits, f, n) =
            shift_splices-IsNormalized slice len r.old_range.end (start + length r.inserted)
              (gained + length r.inserted) (lost + size) replacements inside o.2
              (omega (arith, o.0, o.1, h, enough)) in
          (
            (splice_at r start, r.inserted) ∷ edits,
            rw (guard, e, f) refl,
            (o.0, o.1, omega (arith, o.0, h, enough), refl, n),
          )
    ]

adjacent→ends :
    (last s : SourceSplice)
    → adjacent last s ≡ true
    → (last.old_range.end ≡ s.old_range.start) × (last.new_range.end ≡ s.new_range.start)
adjacent→ends last s e = (ground arith, ground arith)

pub merge_from-IsNormalized :
    (len oc nc : ℕ) (last : SourceSplice) (last_text : List ℕ) (edits : List Edit)
    → IsNormalized len oc nc ((last, last_text) ∷ edits)
    → IsNormalized len oc nc (merge_from last last_text edits)
unfolding merge_from
merge_from-IsNormalized len oc nc last last_text [] n = n
merge_from-IsNormalized len oc nc last last_text ((s, text) ∷ edits) n =
    elim (Bool-cases (adjacent last s)) [
      | inl e ↦
          let meet = adjacent→ends last s e in
          let size : s.new_range.end ≡ last.new_range.start + length (last_text ++ text) =
            omega (arith, n.3, n.4.3, meet.1, length-append last_text text) in
          rw e (
            merge_from-IsNormalized len oc nc (merged last s) (last_text ++ text) edits
              (n.0, omega (arith, n.1, n.4.0, n.4.1), n.2, size, n.4.4))
      | inr e ↦ rw e (
        n.0,
        n.1,
        n.2,
        n.3,
        merge_from-IsNormalized len last.old_range.end last.new_range.end s text edits n.4,
      )
    ]

pub whole_order :
    (len : ℕ) (replacements : List Repl)
    → AllInside len replacements
    → overlapping replacements ≡ false
    → InOrder len 0 replacements
whole_order len [] a e = omega arith
whole_order len (r ∷ replacements) a e = in_order len 0 r replacements (omega arith) a e

-- Where the slices of ranges inside the text are in bounds, replacements that lie inside the text and
-- do not overlap are accepted, and leave normalized splices, with new ranges where the inserted bytes
-- come to stand.
pub normalize_replacements-IsNormalized :
    (slice : ℕ → ℕ → Option (List ℕ)) (len : ℕ) (replacements : List Repl)
    → SlicesInside slice len
    → AllInside len replacements
    → overlapping replacements ≡ false
    → (edits : List Edit) × (normalize_replacements slice replacements ≡ some edits)
      × IsNormalized len 0 0 edits
unfolding normalize_replacements merge_adjacent
normalize_replacements-IsNormalized slice len replacements inside a e =
    let (edits, f, n) =
      shift_splices-IsNormalized slice len 0 0 0 0 replacements inside
        (whole_order len replacements a e) refl in
    (merge_adjacent edits, rw (e, f) refl, of_merged edits n)
  where
    of_merged :
        (edits : List Edit)
        → IsNormalized len 0 0 edits
        → IsNormalized len 0 0 (merge_adjacent edits)
    of_merged [] n = n
    of_merged ((s, text) ∷ edits) n = merge_from-IsNormalized len 0 0 s text edits n

-- Merging adjacent splices does not change what they do to a text.
pub spliced-merge_from :
    (old : List ℕ) (oc : ℕ) (last : SourceSplice) (last_text : List ℕ) (edits : List Edit)
    → spliced old oc (merge_from last last_text edits) ≡ spliced old oc ((last, last_text) ∷ edits)
unfolding merge_from
spliced-merge_from old oc last last_text [] = refl
spliced-merge_from old oc last last_text ((s, text) ∷ edits) = elim (Bool-cases (adjacent last s)) [
  | inl e ↦
      let meet = adjacent→ends last s e in
      let none_between : s.old_range.start - last.old_range.end ≡ 0 = omega (arith, meet.0) in
      let later : List ℕ = spliced old s.old_range.end edits in
      rw e (
        spliced-merge_from old oc (merged last s) (last_text ++ text) edits
        ∙ ap (take (last.old_range.start - oc) (drop oc old) ++◌)
            (rw none_between (append_assoc last_text text later)))
  | inr e ↦ rw e (
      ap (λ t. take (last.old_range.start - oc) (drop oc old) ++ (last_text ++ t))
        (spliced-merge_from old last.old_range.end s text edits))
]

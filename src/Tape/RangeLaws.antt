-- ===== src/Tape/RangeLaws.antt =====
-- The range iterator of src/framework/tape.rs yields the entries of its range, in order.
use plingo.Prelude.{
  ℕ, suc, ◌+◌, ◌-◌, ◌≤◌, ◌<◌, min, max, ◌≡◌, refl, sym, ap, ◌∙◌, ◌||◌, Bool-cases, List, [], ◌∷◌,
  ◌++◌, append_assoc, append-nil, length, length-drop, take, drop, slice, take-min, drop-min,
  take-nil, drop-nil, get_elem?, none, some, leb, ltb, ltb→lt, ltb→ge, ltb, inl, inr, ◌⊎◌, arith,
}
use plingo.Tape.Metric.{TapeEntry}
use plingo.Tape.Node.{TapeNode, leaf, branch, len, entries_of, IsValid, len-entries_of}
use plingo.Tape.Stable.{StableTape}
use plingo.Tape.Fitting.{IsTape}
use plingo.Tape.Iter.{RangeFrame, range_at, push_intersection, iter_range, range_next}
use plingo.Tape.IterLaws.{drop-inside}
use plingo.Tape.Locations.{slice_outside, slice_clamped, slice_branch, slice_same}

-- Clamping the bounds of a range to the list changes nothing.
slice_window :
    {A : Type 0} (a b n : ℕ) (x : List A)
    → n ≡ length x
    → slice (min a n) (max (min b n) (min a n)) x ≡ slice a b x
slice_window a b n x size =
    let count = max (min b n) (min a n) - min a n in
    ap (λ k. take count (drop k x)) {x = min a n} {y = min a (length x)} (omega (arith, size))
    ∙ ap (take count) (drop-min a x)
    ∙ ap (λ k. take k (drop a x)) {x = count} {y = min (b - a) (length (drop a x))}
        (omega (arith, size, length-drop a x))
    ∙ take-min (b - a) (drop a x)

module _ {T : Type 0} where
  abbrev pub range_remaining : List (RangeFrame T) → List T
  range_remaining [] = []
  range_remaining (range_at x index stop ∷ stack) = slice index stop x ++ range_remaining stack

  abbrev pub AreRanges : List (RangeFrame T) → Type 0
  AreRanges [] = Unit
  AreRanges (range_at x index stop ∷ stack) = (index < stop) × (stop ≤ length x) × AreRanges stack

  slice-inside :
      (x : List T) (index stop : ℕ)
      → index < stop
      → stop ≤ length x
      → (a : T) × (get_elem? x index ≡ some a) × (slice index stop x ≡ a ∷ slice (index + 1) stop x)
  slice-inside x index stop h k =
      let (a, found, rest) = drop-inside x index (omega arith) in
      (
        a,
        found,
        ap (take (stop - index)) rest
            ∙ ap (λ n. take n (a ∷ drop (index + 1) x)) {x = stop - index}
                {y = suc (stop - (index + 1))} (omega arith),
      )

  -- A step of the range iterator yields the first of the entries that are left, and leaves the others;
  -- at the end it yields none.
  pub range_next_lem :
      (stack : List (RangeFrame T))
      → AreRanges stack
      → ((range_remaining stack ≡ []) × (range_next stack ≡ none))
        ⊎ ((value : T) × (rest : List (RangeFrame T)) × (range_next stack ≡ some (value, rest))
            × (range_remaining stack ≡ value ∷ range_remaining rest)
            × AreRanges rest)
  unfolding range_next
  range_next_lem [] v = inl (refl, refl)
  range_next_lem (range_at x index stop ∷ stack) v =
      let (a, found, rest) = slice-inside x index stop v.0 v.1 in
      elim (Bool-cases (ltb (index + 1) stop)) [
        | inl more ↦ inr (
          a,
          range_at x (index + 1) stop ∷ stack,
          rw (found, more, range_next) refl,
          ap (λ y. y ++ range_remaining stack) rest,
          (ltb→lt _ _ more, v.1, v.2),
        )
        | inr last ↦
            let done : slice (index + 1) stop x ≡ [] =
              ap (λ n. take n (drop (index + 1) x)) {x = stop - (index + 1)} {y = 0}
                (omega (arith, ltb→ge _ _ last)) in
            inr (
              a,
              stack,
              rw (found, last, range_next) refl,
              ap (λ y. y ++ range_remaining stack) (rest ∙ ap (a ∷◌) done),
              v.2,
            )
      ]

module _ {T : Type 0} ⦃e : TapeEntry T⦄ where
  push_intersection_lem :
      (t : TapeNode T) (base first past : ℕ) (stack : List (RangeFrame T))
      → IsValid t
      → AreRanges stack
      → (range_remaining (push_intersection t base first past stack)
          ≡ slice (first - base) (past - base) (entries_of t) ++ range_remaining stack)
        × AreRanges (push_intersection t base first past stack)
  unfolding push_intersection
  push_intersection_lem (leaf i o x m) base first past stack v w =
      elim (Bool-cases (leb (base + length x) first || leb past base)) [
        | inl out ↦ rw out (
          ap (λ y. y ++ range_remaining stack)
              (slice_outside base (length x) first past x refl out),
          w,
        )
        | inr meets ↦
            let clamped = slice_clamped (first - base) (past - base) x in
            elim (Bool-cases (ltb (first - base) (min (past - base) (length x)))) [
              | inl some_left ↦
                  rw (meets, some_left)
                    (
                      ap (λ y. y ++ range_remaining stack) clamped,
                      (ltb→lt _ _ some_left, omega arith, w),
                    )
              | inr empty ↦
                  rw (meets, empty)
                    (
                      ap (λ y. y ++ range_remaining stack)
                          (ap (λ n. take n (drop (first - base) x)) {x = 0}
                              {y = min (past - base) (length x) - (first - base)}
                              (omega (arith, ltb→ge _ _ empty))
                            ∙ clamped),
                      w,
                    )
            ]
      ]
  push_intersection_lem (branch i l r n h m f z) base first past stack v w =
      elim (Bool-cases (leb (base + n) first || leb past base)) [
        | inl out ↦ rw out (
          ap (λ y. y ++ range_remaining stack)
              (slice_outside base n first past (entries_of l ++ entries_of r)
                (sym (len-entries_of (branch i l r n h m f z) v)) out),
          w,
        )
        | inr meets ↦
            let (rest, ranges) = push_intersection_lem r (base + len l) first past stack v.1 w in
            let (all, frames) =
              push_intersection_lem l base first past
                (push_intersection r (base + len l) first past stack) v.0 ranges in
            rw meets (
              all
                  ∙ ap (slice (first - base) (past - base) (entries_of l) ++◌) rest
                  ∙ sym (
                      append_assoc (slice (first - base) (past - base) (entries_of l)) _
                        (range_remaining stack))
                  ∙ ap (λ y. y ++ range_remaining stack)
                      (slice_branch base first past (len l) (entries_of l) (entries_of r)
                        (len-entries_of l v.0)),
              frames,
            )
      ]

  -- Over a valid tape the range iterator starts with exactly the entries of its range to yield, in order;
  -- the bounds may lie past the end.
  pub iter_range_lem :
      (h : ℕ) (x : List T) (t : StableTape T) (range_start range_end : ℕ)
      → IsTape none none h x t
      → (range_remaining (iter_range t range_start range_end) ≡ slice range_start range_end x)
        × AreRanges (iter_range t range_start range_end)
  unfolding iter_range
  iter_range_lem h x none a b k =
      (sym (ap (slice a b) k ∙ ap (take (b - a)) (drop-nil a) ∙ take-nil (b - a)), tt)
  iter_range_lem h x (some root) a b k =
      let first = min a (len root) in
      let past = max (min b (len root)) first in
      let window : slice first past x ≡ slice a b x =
        slice_window a b (len root) x (len-entries_of root k.valid ∙ ap length k.holds) in
      elim (Bool-cases (ltb first past)) [
        | inl more ↦
            let (all, ranges) = push_intersection_lem root 0 first past [] k.valid tt in
            rw more (
              all
                  ∙ append-nil (slice (first - 0) (past - 0) (entries_of root))
                  ∙ slice_same (first - 0) (past - 0) first past (entries_of root) (omega arith)
                      (omega arith)
                  ∙ ap (slice first past) k.holds
                  ∙ window,
              ranges,
            )
        | inr empty ↦ rw empty (
          ap (λ n. take n (drop first x)) {x = 0} {y = past - first}
                (omega (arith, ltb→ge _ _ empty))
              ∙ window,
          tt,
        )
      ]

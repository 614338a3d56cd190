-- ===== src/Tape/IterLaws.antt =====
-- The iterators of src/framework/tape.rs yield the entries in order.
use plingo.Prelude.{
  ℕ, zero, suc, ◌+◌, ◌≤◌, ◌<◌, ◌≡◌, refl, sym, subst, ap, ◌∙◌, Bool-cases, List, [], ◌∷◌, ◌++◌,
  append_assoc, length, drop, drop-length, get_elem?, ◌⊎◌, Option, none, some, ltb, ltb→lt, ltb→ge,
  inl, inr, arith,
}
use plingo.Tape.Metric.{TapeEntry}
use plingo.Tape.Node.{TapeNode, leaf, branch, entries_of, IsValid}
use plingo.Tape.Iter.{IterFrame, node, entries_at, yield_at, next}

-- The entries from an index on start with the one at the index.
pub drop-inside :
    {A : Type 0} (x : List A) (k : ℕ)
    → k < length x
    → (a : A) × (get_elem? x k ≡ some a) × (drop k x ≡ a ∷ drop (k + 1) x)
drop-inside [] k h = absurd (omega arith)
drop-inside (a ∷ x) zero h = (a, refl, refl)
drop-inside (a ∷ x) (suc k) h =
    let (b, found, rest) = drop-inside x k (omega arith) in
    (b, found, rest ∙ ap (λ j. b ∷ drop j (a ∷ x)) {x = suc (k + 1)} {y = suc k + 1} (omega arith))

module _ {T : Type 0} ⦃e : TapeEntry T⦄ where
  -- What a stack is going to yield.
  abbrev pub remaining : List (IterFrame T) → List T
  remaining [] = []
  remaining (node t ∷ stack) = entries_of t ++ remaining stack
  remaining (entries_at x index ∷ stack) = drop index x ++ remaining stack

  abbrev pub AreFrames : List (IterFrame T) → Type 0
  AreFrames [] = Unit
  AreFrames (node t ∷ stack) = IsValid t × AreFrames stack
  AreFrames (entries_at x index ∷ stack) = (index < length x) × AreFrames stack

  -- The turns that the nodes of a stack take at most.
  abbrev pub node_turns : TapeNode T → ℕ
  node_turns (leaf i o x m) = 2
  node_turns (branch i l r n h m f z) = suc (node_turns l + node_turns r)

  abbrev pub turns : List (IterFrame T) → ℕ
  turns [] = 0
  turns (node t ∷ stack) = node_turns t + turns stack
  turns (entries_at x index ∷ stack) = suc (turns stack)

  abbrev pub Yields : List T → Option (Option (T × List (IterFrame T))) → Type 0
  Yields left result =
      ((left ≡ []) × (result ≡ some none))
      ⊎ ((value : T) × (stack : List (IterFrame T)) × (result ≡ some (some (value, stack)))
          × (left ≡ value ∷ remaining stack)
          × AreFrames stack)

  yield_at_lem :
      (x : List T) (index : ℕ) (stack : List (IterFrame T))
      → index < length x
      → AreFrames stack
      → Yields (drop index x ++ remaining stack) (some (yield_at x index stack))
  yield_at_lem x index stack inside v =
      let (a, found, rest) = drop-inside x index inside in
      elim (Bool-cases (ltb (index + 1) (length x))) [
        | inl more ↦ inr (
          a,
          entries_at x (index + 1) ∷ stack,
          rw (found, more, yield_at) refl,
          ap (λ y. y ++ remaining stack) rest,
          (ltb→lt _ _ more, v),
        )
        | inr last ↦
            let done : drop (index + 1) x ≡ [] =
              ap (λ k. drop k x) (omega (arith, inside, ltb→ge _ _ last)) ∙ drop-length x in
            inr (
              a,
              stack,
              rw (found, last, yield_at) refl,
              ap (λ y. y ++ remaining stack) (rest ∙ ap (a ∷◌) done),
              v,
            )
      ]

  -- With a turn for each node on the stack and one more for each leaf, `next` yields the first of the
  -- entries that are left, and leaves the others; at the end it yields none.
  pub next_lem :
      (fuel : ℕ) (stack : List (IterFrame T))
      → AreFrames stack
      → turns stack ≤ fuel
      → Yields (remaining stack) (next fuel stack)
  unfolding next
  next_lem fuel [] v h = inl (refl, refl)
  next_lem zero (node (leaf i o x m) ∷ stack) v h = absurd (omega arith)
  next_lem zero (node (branch i l r n g m f z) ∷ stack) v h = absurd (omega arith)
  next_lem zero (entries_at x index ∷ stack) v h = absurd (omega arith)
  next_lem (suc fuel) (node (leaf i o x m) ∷ stack) v h =
      next_lem fuel (entries_at x 0 ∷ stack) (v.0.0, v.1) (omega arith)
  next_lem (suc fuel) (node (branch i l r n g m f z) ∷ stack) v h =
      subst (λ y. Yields y (next fuel (node l ∷ node r ∷ stack)))
        (sym (append_assoc (entries_of l) (entries_of r) (remaining stack)))
        (next_lem fuel (node l ∷ node r ∷ stack) (v.0.0, (v.0.1, v.1)) (omega arith))
  next_lem (suc fuel) (entries_at x index ∷ stack) v h = yield_at_lem x index stack v.0 v.1

-- ===== src/Seq/Iter.antt =====
-- The borrowing iterator of src/utils/persistent_seq.rs: a stack of frames.
use plingo.Prelude.{
  ℕ, zero, suc, ◌+◌, ◌≤◌, ◌<◌, ◌≡◌, refl, ◌∙◌, Option, none, some, List, [], ◌∷◌, ◌++◌, length,
  get_elem?, ◌>>=◌, arith, append_assoc, drop, ◌⊎◌, inl, inr,
}
use native.Mathlib.Numerals.{add-one}
use plingo.Seq.Node.{Node, leaf, branch, to_list}

-- `Frame::Node` and `Frame::Leaf { values, next }`.
pub data Frame {ℓ κ} (T : Type ℓ) (M : Type κ) : Type (ℓ ⊔ κ) where
  node : Node T M → Frame T M
  values_at : List T → ℕ → Frame T M

drop-cases {ℓ} :
    {T : Type ℓ} (xs : List T) (i : ℕ)
    → ((get_elem? xs i ≡ none) × (drop i xs ≡ []))
      ⊎ ((v : T) × (get_elem? xs i ≡ some v) × (drop i xs ≡ v ∷ drop (suc i) xs))
drop-cases [] zero = inl (refl, refl)
drop-cases [] (suc i) = inl (refl, refl)
drop-cases (x ∷ xs) zero = inr (x, refl, refl)
drop-cases (x ∷ xs) (suc i) = drop-cases xs i

module _ {ℓ κ} {T : Type ℓ} {M : Type κ} where
  -- `Iterator::next`, with fuel for its `loop`. `none` is a loop that has run out of fuel;
  -- `some (none, _)` ends the iteration, and `some (some v, frames)` yields `v`.
  pub next : ℕ → List (Frame T M) → Option (Option T × List (Frame T M))
  next zero frames = none
  next (suc fuel) [] = some (none, [])
  next (suc fuel) (node (leaf values m) ∷ frames) = next fuel (values_at values 0 ∷ frames)
  next (suc fuel) (node (branch l r n h m) ∷ frames) = next fuel (node l ∷ node r ∷ frames)
  next (suc fuel) (values_at values i ∷ frames) = elim (get_elem? values i) [
    | none ↦ next fuel frames
    | some v ↦ some (some v, values_at values (i + 1) ∷ frames)
  ]

  -- `iter().cloned().collect()`: `next` until it is exhausted.
  pub collect : ℕ → List (Frame T M) → Option (List T)
  collect zero frames = none
  collect (suc fuel) frames = elim (next (suc fuel) frames) [
    | none ↦ none
    | some out ↦ elim out.0 [
      | none ↦ some []
      | some v ↦ collect fuel out.1 >>= λ values. some (v ∷ values)
    ]
  ]

  -- The values that a stack of frames has still to yield.
  abbrev pub pending : List (Frame T M) → List T
  pending [] = []
  pending (node t ∷ frames) = to_list t ++ pending frames
  pending (values_at values i ∷ frames) = drop i values ++ pending frames

  -- How many turns of the loop a node and a stack of frames take.
  abbrev pub node_work : Node T M → ℕ
  node_work (leaf values m) = 2 + length values
  node_work (branch l r n h m) = 1 + node_work l + node_work r

  abbrev pub work : List (Frame T M) → ℕ
  work [] = 0
  work (node t ∷ frames) = node_work t + work frames
  work (values_at values i ∷ frames) = 1 + length (drop i values) + work frames

  -- What a call of `next` on a stack of frames has to return: the first pending value, with the
  -- others left pending, and the end if there is none.
  abbrev Yields : List T → ℕ → Option T × List (Frame T M) → Type ℓ
  Yields [] n (o, rest) = o ≡ none
  Yields (v ∷ vs) n (o, rest) = (o ≡ some v) × (pending rest ≡ vs) × (work rest < n)

  Yields-grow :
      (vs : List T) (out : Option T × List (Frame T M)) {n k : ℕ}
      → n ≤ k
      → Yields vs n out
      → Yields vs k out
  Yields-grow [] (o, rest) h y = y
  Yields-grow (v ∷ vs) (o, rest) h y = (y.0, y.1, omega (arith, y.2))

  next_ended :
      (fuel : ℕ) (values : List T) (i : ℕ) (frames : List (Frame T M))
      → get_elem? values i ≡ none
      → next (suc fuel) (values_at values i ∷ frames) ≡ next fuel frames
  unfolding next
  next_ended fuel values i frames e = rw (e, next)

  next_value :
      (fuel : ℕ) (values : List T) (i : ℕ) (frames : List (Frame T M)) (v : T)
      → get_elem? values i ≡ some v
      → next (suc fuel) (values_at values i ∷ frames)
        ≡ some (some v, values_at values (i + 1) ∷ frames)
  unfolding next
  next_value fuel values i frames v e = rw (e, next)

  -- With more fuel than work, `next` returns.
  pub next_lem :
      (fuel : ℕ) (frames : List (Frame T M))
      → work frames < fuel
      → (out : Option T × List (Frame T M)) × (next fuel frames ≡ some out)
        × Yields (pending frames) (work frames) out
  unfolding next
  next_lem zero frames h = absurd (omega arith)
  next_lem (suc fuel) [] h = ((none, []), refl, refl)
  next_lem (suc fuel) (node (leaf values m) ∷ frames) h =
      let (out, e, y) = next_lem fuel (values_at values 0 ∷ frames) (omega arith) in
      (out, e, Yields-grow (values ++ pending frames) out (omega arith) y)
  next_lem (suc fuel) (node (branch l r n h m) ∷ frames) w =
      let (out, e, y) = next_lem fuel (node l ∷ node r ∷ frames) (omega arith) in
      (
        out,
        e,
        rw (append_assoc (to_list l) (to_list r) (pending frames))
            (Yields-grow (to_list l ++ (to_list r ++ pending frames)) out (omega arith) y),
      )
  next_lem (suc fuel) (values_at values i ∷ frames) h = elim (drop-cases values i) [
    | inl (e, d) ↦
        let (out, n, y) = next_lem fuel frames (omega arith) in
        (
          out,
          next_ended fuel values i frames e ∙ n,
          rw d (Yields-grow (pending frames) out (omega arith) y),
        )
    | inr (v, e, d) ↦ (
      (some v, values_at values (i + 1) ∷ frames),
      next_value fuel values i frames v e,
      rw d (refl, rw add-one, rw add-one (omega arith)),
    )
  ]

  collect_turn :
      (fuel : ℕ) (frames : List (Frame T M)) (out : Option T × List (Frame T M))
      → next (suc fuel) frames ≡ some out
      → collect (suc fuel) frames ≡ elim out.0 [
        | none ↦ some []
        | some v ↦ collect fuel out.1 >>= λ values. some (v ∷ values)
      ]
  unfolding collect
  collect_turn fuel frames out e = rw (e, collect)

  -- One turn of `collect` after `next` has returned.
  collect_step :
      (fuel : ℕ)
      → ((rest : List (Frame T M)) → work rest < fuel → collect fuel rest ≡ some (pending rest))
      → (vs : List T) (out : Option T × List (Frame T M)) (n : ℕ) → n ≤ fuel
      → Yields vs n out
      → elim out.0 [ none ↦ some [] | some v ↦ collect fuel out.1 >>= λ values. some (v ∷ values) ]
        ≡ some vs
  collect_step fuel ih [] (o, rest) n h y = rw y
  collect_step fuel ih (v ∷ vs) (o, rest) n h y = rw (y.0, ih rest (omega (arith, y.2)), y.1)

  -- The iterator yields every value once, in order, and then ends.
  pub collect_lem :
      (fuel : ℕ) (frames : List (Frame T M))
      → work frames < fuel
      → collect fuel frames ≡ some (pending frames)
  unfolding collect
  collect_lem zero frames h = absurd (omega arith)
  collect_lem (suc fuel) frames h =
      let (out, e, y) = next_lem (suc fuel) frames h in
      collect_turn fuel frames out e
      ∙ collect_step fuel (collect_lem fuel) (pending frames) out (work frames) (omega arith) y

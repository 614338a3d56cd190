-- ===== src/Tape/LeavesLaws.antt =====
-- The leaves that `from_entries` and `rekey_between` of src/framework/tape.rs make of their chunks.
use plingo.Prelude.{
  ℕ, zero, suc, ◌+◌, ◌*◌, ◌^◌, ◌≤◌, ◌<◌, ◌≡◌, refl, sym, subst, ap, ◌∙◌, true, List, [], ◌∷◌, ◌++◌,
  Option, none, some, length, length-take, length-drop, take, drop, take-append-drop, arith,
}
use plingo.Tape.OrderKey.{LeafOrderKey}
use plingo.Tape.Between.{◌≺◌, is_positive, Above, Below, InOrder}
use plingo.Tape.Allocating.{Does, Does-returns, Does-bind, Does-weaken}
use plingo.Tape.Metric.{TapeEntry}
use plingo.Tape.Node.{TapeNode, leaf_max, leaf_of, make_leaf, make_leaf_lem}
use plingo.Tape.Split.{key_between}
use plingo.Tape.SplitLaws.{key_between_lem}
use plingo.Tape.SplitNode.{InOrder-Below}
use plingo.Tape.Build.{
  initial_width, initial_at, key_initial, chunks, initial_leaves, leaves_between,
}
use plingo.Tape.InitialLaws.{initial_at-lt, initial_at_positive}
use plingo.Tape.BuildLaws.{IsRow, row_entries}

key_initial_lem :
    (w ordinal total : ℕ)
    → initial_width 64 0 1 total ≡ some w
    → Does 0 (key_initial ordinal total) (λ key. key ≡ initial_at w ordinal)
key_initial_lem w ordinal total h a r = (
  initial_at w ordinal,
  a,
  rw (h, key_initial) refl,
  (omega arith, omega arith, omega arith, omega arith),
  refl,
)

module _ {T : Type 0} where
  -- Chunks of 1 to 64 entries.
  abbrev pub AreChunks : List (List T) → Type 0
  AreChunks [] = Unit
  AreChunks (c ∷ cs) = (0 < length c) × (length c ≤ leaf_max) × AreChunks cs

  abbrev pub flat : List (List T) → List T
  flat [] = []
  flat (c ∷ cs) = c ++ flat cs

  pub chunks_lem :
      (fuel : ℕ) (x : List T)
      → length x ≤ fuel
      → AreChunks (chunks fuel x)
        × (flat (chunks fuel x) ≡ x)
        × (length (chunks fuel x) * 64 < length x + 64)
        × (length x ≤ length (chunks fuel x) * 64)
  unfolding chunks
  chunks_lem zero [] h = (tt, refl, omega arith, omega arith)
  chunks_lem zero (a ∷ x) h = absurd (omega arith)
  chunks_lem (suc fuel) [] h = (tt, refl, omega arith, omega arith)
  chunks_lem (suc fuel) (a ∷ x) h =
      let size = length-drop leaf_max (a ∷ x) in
      let front = length-take leaf_max (a ∷ x) in
      let (c, j, k, l) = chunks_lem fuel (drop leaf_max (a ∷ x)) (omega (arith, size, h)) in
      (
        (omega (arith, front), omega (arith, front), c),
        ap (λ y. take leaf_max (a ∷ x) ++ y) j ∙ take-append-drop leaf_max (a ∷ x),
        omega (arith, size, k),
        omega (arith, size, l),
      )

module _ {T : Type 0} ⦃e : TapeEntry T⦄ where
  abbrev pub AreLeaves :
      Option LeafOrderKey → Option LeafOrderKey → List (List T) → List (TapeNode T) → Type 0
  AreLeaves lower upper cs row =
      IsRow lower upper 1 row × (row_entries row ≡ flat cs) × (length row ≡ length cs)

  next_leaf :
      (lower upper : Option LeafOrderKey) (key : LeafOrderKey) (c : List T) (cs : List (List T))
      (t : TapeNode T) (i : ℕ) (row : List (TapeNode T))
      → AreChunks (c ∷ cs)
      → Above lower key
      → Below upper key
      → is_positive key ≡ true
      → t ≡ leaf_of i key c
      → AreLeaves (some key) upper cs row
      → AreLeaves lower upper (c ∷ cs) (t ∷ row)
  next_leaf lower upper key c cs t i row a above below p same w =
      subst (λ x. AreLeaves lower upper (c ∷ cs) (x ∷ row)) (sym same)
        (((a.0, a.1, p, refl), omega arith, above, below, w.0), ap (c ++◌) w.1, ap suc w.2)

  pub leaves_between_lem :
      (cs : List (List T)) (previous upper : Option LeafOrderKey)
      → AreChunks cs
      → InOrder previous upper
      → Does (length cs) (leaves_between cs previous upper) (AreLeaves previous upper cs)
  unfolding leaves_between
  leaves_between_lem [] previous upper a o = Does-returns 0 [] (tt, refl, refl)
  leaves_between_lem (c ∷ cs) previous upper a o =
      Does-weaken (0 + (1 + (length cs + 0))) _ _ (omega arith) (
        Does-bind 0 (1 + (length cs + 0)) (key_between previous upper) _
          (key_between_lem previous upper o)
          (λ key k. Does-bind 1 (length cs + 0) (make_leaf c key) _ (make_leaf_lem c key) (λ t w.
            Does-bind (length cs) 0 (leaves_between cs (some key) upper) _
              (leaves_between_lem cs (some key) upper a.2 (InOrder-Below key upper k.1))
              (λ row l.
                Does-returns 0 (t ∷ row)
                  (next_leaf previous upper key c cs t w.0 row a k.0 k.1 k.2 w.1 l)))))

  pub initial_leaves_lem :
      (cs : List (List T)) (w ordinal total : ℕ) (lower : Option LeafOrderKey)
      → AreChunks cs
      → initial_width 64 0 1 total ≡ some w
      → total < 2 ^ w
      → ordinal + length cs ≤ total
      → (0 < length cs → Above lower (initial_at w ordinal))
      → Does (length cs) (initial_leaves cs ordinal total) (AreLeaves lower none cs)
  unfolding initial_leaves
  initial_leaves_lem [] w ordinal total lower a h lt fits above = Does-returns 0 [] (tt, refl, refl)
  initial_leaves_lem (c ∷ cs) w ordinal total lower a h lt fits above =
      Does-weaken (0 + (1 + (length cs + 0))) _ _ (omega arith) (
        Does-bind 0 (1 + (length cs + 0)) (key_initial ordinal total) _
          (key_initial_lem w ordinal total h)
          (λ key k. Does-bind 1 (length cs + 0) (make_leaf c key) _ (make_leaf_lem c key) (λ t z.
            Does-bind (length cs) 0 (initial_leaves cs (ordinal + 1) total) _
              (initial_leaves_lem cs w (ordinal + 1) total (some key) a.2 h lt (omega arith)
                (λ more.
                  subst (λ x. x ≺ initial_at w (ordinal + 1)) (sym k)
                    (initial_at-lt w ordinal (ordinal + 1) (omega arith)
                      (omega (arith, more, fits, lt)))))
              (λ row l. Does-returns 0 (t ∷ row) (
                next_leaf lower none key c cs t z.0 row a
                  (subst (Above lower) (sym k) (above (omega arith))) tt
                  (subst (λ x. is_positive x ≡ true) (sym k)
                    (initial_at_positive w ordinal (omega (arith, fits, lt))))
                  z.1 l)))))

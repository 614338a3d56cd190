-- ===== src/Grammar/FirstSets.antt =====
-- `compute_first_sets` and `first_of_sequence` of src/framework/parse/analyze.rs: the sets are those of
-- the derivations.
use plingo.Prelude.{
  ℕ, zero, suc, ◌+◌, ◌*◌, ◌<◌, ◌≡◌, refl, sym, ap, subst, ◌∙◌, Bool, true, false, lt→ltb, some,
  List, [], ◌∷◌, length, get_elem?, set, replicate, length-replicate, get_elem?-inside, arith, inl,
  inr, ◌⊎◌, ◌↔◌,
}
use native.Mathlib.Nat.{suc-mul}
use plingo.Grammar.Symbols.{
  TerminalId, Symbol, terminal, non_terminal, epsilon, Production, Grammar, InRange, IsProper,
  AllProper, HasRule, Nullable, done, skip, expand,
}
use plingo.Grammar.Nullable.{BitVec, all_nullable, compute_nullable_sets}
use plingo.Grammar.NullableLaws.{
  unset-replicate, get_elem?-set, no_bit, both_set, Among-whole, compute_nullable_sets_lem,
}
use plingo.Grammar.First.{
  terminal_index, extend_first_from_sequence, compute_first_sets, first_of_sequence, First, head,
  skip_first, under, behind,
}
use plingo.Grammar.FirstExtend.{
  Has, Registered, Shaped, Hits, Extended, extend_first_from_sequence_lem, set-Has, set-keeps,
  index_terminals-lt,
}
use plingo.Grammar.FirstLaws.{
  unset_rows, AllRegistered, FirstAt, SoundRows, Hits-FirstAt, ClosesFirst, ClosedFirst,
  first_loop_lem,
}

module _ (g : Grammar) (is_nullable : BitVec) (rows : List BitVec) where
  IsProper-get_elem? :
      (productions : List Production) (k : ℕ) (p : Production)
      → AllProper g productions
      → get_elem? productions k ≡ some p
      → IsProper g p
  IsProper-get_elem? [] k p a e = cc
  IsProper-get_elem? (q ∷ productions) zero p a e =
      let same : q ≡ p = cc in subst (IsProper g) same a.0
  IsProper-get_elem? (q ∷ productions) (suc k) p a e = IsProper-get_elem? productions k p a.1 e

  ClosedFirst-get_elem? :
      (productions : List Production) (k : ℕ) (p : Production)
      → ClosedFirst g is_nullable rows productions
      → get_elem? productions k ≡ some p
      → ClosesFirst g is_nullable rows p
  ClosedFirst-get_elem? [] k p a e = cc
  ClosedFirst-get_elem? (q ∷ productions) zero p a e =
      let same : q ≡ p = cc in subst (ClosesFirst g is_nullable rows) same a.0
  ClosedFirst-get_elem? (q ∷ productions) (suc k) p a e =
      ClosedFirst-get_elem? productions k p a.1 e

  -- Rows that no production adds to have every terminal that begins a derivation.
  First-Hits :
      (sequence : List Symbol) (t : TerminalId) (i : ℕ)
      → AllProper g g.productions
      → Shaped g rows
      → ClosedFirst g is_nullable rows g.productions
      → ((id : ℕ) → Nullable g (non_terminal id ∷ []) → Has is_nullable id)
      → terminal_index g t ≡ some i
      → First g sequence t
      → Hits g is_nullable rows sequence i
  First-Hits _ t i p shape c n e head = e
  First-Hits _ t i p shape c n e (skip_first d) = First-Hits _ t i p shape c n e d
  First-Hits _ t i p shape c n e (behind vanishes d) =
      inr (n _ vanishes, First-Hits _ t i p shape c n e d)
  First-Hits _ t i p shape c n e (under (k, q, at, same, rhs) d) =
      let proper = IsProper-get_elem? g.productions k q p at in
      let (row, here) = get_elem?-inside rows q.lhs (omega (arith, proper.0, shape.0)) in
      let closes = ClosedFirst-get_elem? g.productions k q c at in
      inl (
        row,
        ap (get_elem? rows) (sym same) ∙ here,
        closes row _ i here rhs (First-Hits _ t i p shape c n e d),
      )

  all_nullable-Nullable :
      (sequence : List Symbol)
      → ((id : ℕ) → Has is_nullable id → Nullable g (non_terminal id ∷ []))
      → all_nullable is_nullable sequence ≡ some true
      → Nullable g sequence
  unfolding all_nullable
  all_nullable-Nullable [] n e = done
  all_nullable-Nullable (terminal t ∷ sequence) n e = cc
  all_nullable-Nullable (epsilon ∷ sequence) n e = skip (all_nullable-Nullable sequence n e)
  all_nullable-Nullable (non_terminal id ∷ sequence) n e =
      let (known, later) =
        both_set (get_elem? is_nullable id) (all_nullable is_nullable sequence) e in
      widen (n id known) (all_nullable-Nullable sequence n later)
    where
      widen :
          {id : ℕ} {rest : List Symbol}
          → Nullable g (non_terminal id ∷ [])
          → Nullable g rest
          → Nullable g (non_terminal id ∷ rest)
      widen (expand rule d done) later = expand rule d later

  Nullable-set :
      (sequence : List Symbol)
      → ((id : ℕ) → Nullable g (non_terminal id ∷ []) → Has is_nullable id)
      → Nullable g sequence
      → all_nullable is_nullable sequence ≡ some true
  unfolding all_nullable
  Nullable-set _ n done = refl
  Nullable-set _ n (skip d) = Nullable-set _ n d
  Nullable-set _ n (expand rule d later) = rw (n _ (expand rule d done)) (Nullable-set _ n later)

  -- The bits of `first_of_sequence`, by what the sequence contributes.
  first_of_sequence_bits :
      (sequence : List Symbol) (lookahead : TerminalId) (j : ℕ)
      → terminal_index g lookahead ≡ some j
      → (w : BitVec) (b : Bool)
      → extend_first_from_sequence g is_nullable rows
          (replicate (length g.terminals) false)
          sequence
        ≡ some (w, b)
      → Extended g is_nullable rows (replicate (length g.terminals) false) sequence w b
      → (first : BitVec) × (first_of_sequence g is_nullable rows sequence lookahead ≡ some first)
        × ((i : ℕ)
            → Has first i ↔ (
                Hits g is_nullable rows sequence i
                ⊎ ((all_nullable is_nullable sequence ≡ some true)
                    × (terminal_index g lookahead ≡ some i))))
  unfolding first_of_sequence terminal_index
  first_of_sequence_bits sequence lookahead j at w false e ext = (
    w,
    rw e refl,
    λ i. (
      λ h. elim (ext.1 i h) [ inl q ↦ absurd (no_bit (length g.terminals) i q) | inr q ↦ inl q ],
      λ h. elim h [ inl q ↦ ext.3 i q | inr q ↦ let bad = sym ext.4 ∙ q.0 in cc ],
    ),
  )
  first_of_sequence_bits sequence lookahead j at w true e ext =
      let fresh = length-replicate (length g.terminals) false in
      let bound = index_terminals-lt g.terminals 0 lookahead j at in
      let inside : j < length w = omega (arith, bound, ext.0, fresh) in
      (
        set w j true,
        rw (e, at, lt→ltb j (length w) inside) refl,
        λ i. (
          λ h. elim (get_elem?-set w j i h) [
            | inl q ↦ elim (ext.1 i q) [
              | inl z ↦ absurd (no_bit (length g.terminals) i z)
              | inr z ↦ inl z
            ]
            | inr q ↦ inr (ext.4, at ∙ ap some (sym q))
          ],
          λ h. elim h [
            | inl q ↦ set-keeps w j i (ext.3 i q)
            | inr q ↦
                let known = q.1 in
                let same : j ≡ i = cc in subst (λ x. Has (set w j true) x) same (set-Has w j inside)
          ],
        ),
      )

unset_rows-replicate : (n width : ℕ) → unset_rows (replicate n (replicate width false)) ≡ n * width
unset_rows-replicate zero width = sym (omega arith)
unset_rows-replicate (suc n) width =
    omega (arith, unset_rows-replicate n width, suc-mul n width, unset-replicate width)

row_of_replicate :
    (n width id : ℕ) (row : BitVec)
    → get_elem? (replicate n (replicate width false)) id ≡ some row
    → replicate width false ≡ row
row_of_replicate zero width id row e = cc
row_of_replicate (suc n) width zero row e = cc
row_of_replicate (suc n) width (suc id) row e = row_of_replicate n width id row e

-- What the two loops leave.
abbrev Analysed : Grammar → BitVec → List BitVec → Type 0
Analysed g is_nullable rows =
    (compute_nullable_sets g ≡ some is_nullable)
    × (length is_nullable ≡ length g.non_terminals)
    × ((id : ℕ) → (get_elem? is_nullable id ≡ some true) ↔ Nullable g (non_terminal id ∷ []))
    × (compute_first_sets g is_nullable ≡ some rows)
    × Shaped g rows
    × SoundRows g rows
    × ClosedFirst g is_nullable rows g.productions

both_loops :
    (g : Grammar)
    → AllProper g g.productions
    → AllRegistered g g.productions
    → (is_nullable : BitVec) × (rows : List BitVec) × Analysed g is_nullable rows
unfolding compute_first_sets
both_loops g p r =
    let n : ℕ = length g.non_terminals in
    let width : ℕ = length g.terminals in
    let (is_nullable, e, l, exact) = compute_nullable_sets_lem g p in
    let (rows, f, shape, sound, closed) =
      first_loop_lem g is_nullable l (λ id. (exact id).0) (n * width + 1)
        (replicate n (replicate width false)) (Among-whole g) p r
        (
          length-replicate n (replicate width false),
          λ id row at.
              ap length (sym (row_of_replicate n width id row at)) ∙ length-replicate width false,
        )
        (λ id row i at h.
          absurd
            (no_bit width i (subst (λ x. Has x i) (sym (row_of_replicate n width id row at)) h)))
        (omega (arith, unset_rows-replicate n width)) in
    (is_nullable, rows, (e, l, exact, f, shape, sound, closed))

under-FirstAt :
    (g : Grammar) (id i : ℕ)
    → (rhs : List Symbol) × HasRule g id rhs × FirstAt g rhs i
    → FirstAt g (non_terminal id ∷ []) i
under-FirstAt g id i (rhs, rule, (t, e, d)) = (t, e, under rule d)

-- For a grammar whose productions are in range, both loops end within their fuel and no index is out
-- of bounds. There is a row for each non-terminal, and its bits are exactly the terminals with which
-- something that the non-terminal derives begins.
pub compute_first_sets_lem :
    (g : Grammar)
    → AllProper g g.productions
    → AllRegistered g g.productions
    → (is_nullable : BitVec) × (rows : List BitVec) × (compute_nullable_sets g ≡ some is_nullable)
      × (compute_first_sets g is_nullable ≡ some rows)
      × Shaped g rows
      × ((id : ℕ) (row : BitVec) (i : ℕ)
          → get_elem? rows id ≡ some row
          → Has row i ↔ FirstAt g (non_terminal id ∷ []) i)
compute_first_sets_lem g p r =
    let (is_nullable, rows, (e, l, exact, f, shape, sound, closed)) = both_loops g p r in
    (
      is_nullable,
      rows,
      e,
      f,
      shape,
      λ id row i at. (
        λ h. under-FirstAt g id i (sound id row i at h),
        λ d. by_row is_nullable rows id row i at (
            First-Hits g is_nullable rows (non_terminal id ∷ []) d.0 i p shape closed
              (λ k. (exact k).1) d.1 d.2),
      ),
    )
  where
    by_row :
        (is_nullable : BitVec) (rows : List BitVec) (id : ℕ) (row : BitVec) (i : ℕ)
        → get_elem? rows id ≡ some row
        → Hits g is_nullable rows (non_terminal id ∷ []) i
        → Has row i
    by_row is_nullable rows id row i at (inl (other, here, h)) =
        let same : other ≡ row = cc in subst (λ x. Has x i) same h
    by_row is_nullable rows id row i at (inr h) = absurd h.1

-- FIRST of a sequence with a lookahead has exactly the terminals with which something that the
-- sequence derives begins, and the lookahead where the sequence derives the empty string; it is
-- computed without a panic for symbols and a lookahead of the grammar.
pub first_of_sequence_lem :
    (g : Grammar) (sequence : List Symbol) (lookahead : TerminalId)
    → AllProper g g.productions
    → AllRegistered g g.productions
    → InRange (length g.non_terminals) sequence
    → Registered g sequence
    → Registered g (terminal lookahead ∷ [])
    → (is_nullable : BitVec) × (rows : List BitVec) × (first : BitVec) × (compute_nullable_sets g
        ≡ some is_nullable)
      × (compute_first_sets g is_nullable ≡ some rows)
      × (first_of_sequence g is_nullable rows sequence lookahead ≡ some first)
      × ((i : ℕ)
          → Has first i ↔ (
              FirstAt g sequence i ⊎ (Nullable g sequence × (terminal_index g lookahead ≡ some i))))
unfolding first_of_sequence
first_of_sequence_lem g sequence lookahead p r range known look =
    let (is_nullable, rows, (e, l, exact, f, shape, sound, closed)) = both_loops g p r in
    let fresh = length-replicate (length g.terminals) false in
    let (w, b, extended, ext) =
      extend_first_from_sequence_lem g is_nullable rows (replicate (length g.terminals) false)
        sequence shape l range known fresh in
    let (j, at) = look.0 in
    let (first, run, bits) =
      first_of_sequence_bits g is_nullable rows sequence lookahead j at w b extended ext in
    let null_of = all_nullable-Nullable g is_nullable rows sequence (λ id. (exact id).0) in
    let null_to = Nullable-set g is_nullable rows sequence (λ id. (exact id).1) in
    (
      is_nullable,
      rows,
      first,
      e,
      f,
      run,
      λ i. (
        λ h. elim ((bits i).0 h) [
          | inl q ↦ inl (Hits-FirstAt g is_nullable rows sequence i (λ id. (exact id).0) sound q)
          | inr q ↦ inr (null_of q.0, q.1)
        ],
        λ h. elim h [
          | inl q ↦ (bits i).1 (
              inl (
                First-Hits g is_nullable rows sequence q.0 i p shape closed (λ id. (exact id).1) q.1
                  q.2))
          | inr q ↦ (bits i).1 (inr (null_to q.0, q.1))
        ],
      ),
    )

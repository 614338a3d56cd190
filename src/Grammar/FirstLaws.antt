-- ===== src/Grammar/FirstLaws.antt =====
-- `compute_first_sets` of src/framework/parse/analyze.rs against derivations: the steps of its loop.
use plingo.Prelude.{
  ℕ, zero, suc, ◌+◌, ◌≤◌, ◌<◌, ◌≡◌, refl, sym, ap, subst, ◌∙◌, Bool, true, false, Option, some,
  List, [], ◌∷◌, length, get_elem?, set, length-set, get_elem?-inside, arith, inl, inr, ◌⊎◌,
  Bool-cases,
}
use plingo.Grammar.Symbols.{
  TerminalId, Symbol, terminal, non_terminal, epsilon, Production, Grammar, production_rhs,
  IsProper, AllProper, HasRule, Nullable,
}
use plingo.Grammar.Nullable.{BitVec}
use plingo.Grammar.NullableLaws.{unset, weight, Among}
use plingo.Grammar.First.{
  terminal_index, bits_eq, first_step, first_pass, first_loop, First, head, skip_first, under,
  behind,
}
use plingo.Grammar.FirstExtend.{Has, Registered, Shaped, Hits, extend_first_from_sequence_lem}

bits_eq→eq : (v w : BitVec) → bits_eq v w ≡ true → v ≡ w
unfolding bits_eq
bits_eq→eq [] [] e = refl
bits_eq→eq [] (c ∷ w) e = cc
bits_eq→eq (b ∷ v) [] e = cc
bits_eq→eq (true ∷ v) (true ∷ w) e = ap (true ∷◌) (bits_eq→eq v w e)
bits_eq→eq (false ∷ v) (false ∷ w) e = ap (false ∷◌) (bits_eq→eq v w e)
bits_eq→eq (true ∷ v) (false ∷ w) e = cc
bits_eq→eq (false ∷ v) (true ∷ w) e = cc

unset-le : (w v : BitVec) → length w ≡ length v → ((k : ℕ) → Has v k → Has w k) → unset w ≤ unset v
unset-le [] [] l f = omega arith
unset-le [] (c ∷ v) l f = absurd (omega arith)
unset-le (b ∷ w) [] l f = absurd (omega arith)
unset-le (true ∷ w) (true ∷ v) l f = unset-le w v (omega arith) (λ k. f (suc k))
unset-le (true ∷ w) (false ∷ v) l f = omega (arith, unset-le w v (omega arith) (λ k. f (suc k)))
unset-le (false ∷ w) (false ∷ v) l f = omega (arith, unset-le w v (omega arith) (λ k. f (suc k)))
unset-le (false ∷ w) (true ∷ v) l f = let bad = f 0 refl in cc

-- More bits than before leave fewer that are not set.
unset-lt :
    (w v : BitVec)
    → length w ≡ length v
    → ((k : ℕ) → Has v k → Has w k)
    → bits_eq w v ≡ false
    → unset w < unset v
unfolding bits_eq
unset-lt [] [] l f e = cc
unset-lt [] (c ∷ v) l f e = absurd (omega arith)
unset-lt (b ∷ w) [] l f e = absurd (omega arith)
unset-lt (true ∷ w) (true ∷ v) l f e = unset-lt w v (omega arith) (λ k. f (suc k)) e
unset-lt (true ∷ w) (false ∷ v) l f e = omega (arith, unset-le w v (omega arith) (λ k. f (suc k)))
unset-lt (false ∷ w) (false ∷ v) l f e =
    omega (arith, unset-lt w v (omega arith) (λ k. f (suc k)) e)
unset-lt (false ∷ w) (true ∷ v) l f e = let bad = f 0 refl in cc

abbrev pub unset_rows : List BitVec → ℕ
unset_rows [] = 0
unset_rows (row ∷ rows) = unset row + unset_rows rows

unset_rows-set :
    (rows : List BitVec) (id : ℕ) (row next : BitVec)
    → get_elem? rows id ≡ some row
    → unset_rows (set rows id next) + unset row ≡ unset_rows rows + unset next
unset_rows-set [] id row next e = cc
unset_rows-set (r ∷ rows) zero row next e = let same : r ≡ row = cc in rw same (omega arith)
unset_rows-set (r ∷ rows) (suc id) row next e = omega (arith, unset_rows-set rows id row next e)

row_of_set :
    (rows : List BitVec) (i k : ℕ) (next row : BitVec)
    → get_elem? (set rows i next) k ≡ some row
    → (get_elem? rows k ≡ some row) ⊎ ((k ≡ i) × (next ≡ row))
row_of_set [] i k next row e = inl e
row_of_set (r ∷ rows) zero zero next row e = inr (refl, cc)
row_of_set (r ∷ rows) zero (suc k) next row e = inl e
row_of_set (r ∷ rows) (suc i) zero next row e = inl e
row_of_set (r ∷ rows) (suc i) (suc k) next row e = elim (row_of_set rows i k next row e) [
  | inl h ↦ inl h
  | inr h ↦ inr (ap suc h.0, h.1)
]

-- The production mentions only terminals of the grammar.
abbrev pub AllRegistered : Grammar → List Production → Type 0
AllRegistered g [] = Unit
AllRegistered g (p ∷ productions) =
    ((rhs : List Symbol) → production_rhs g p.id ≡ some rhs → Registered g rhs)
    × AllRegistered g productions

-- The terminal at an index begins what the sequence derives.
abbrev pub FirstAt : Grammar → List Symbol → ℕ → Type 0
FirstAt g sequence i = (t : TerminalId) × (terminal_index g t ≡ some i) × First g sequence t

-- Every bit of a row is a terminal that begins what a right-hand side of the row derives.
abbrev pub SoundRows : Grammar → List BitVec → Type 0
SoundRows g rows =
    (id : ℕ) (row : BitVec) (i : ℕ)
    → get_elem? rows id ≡ some row
    → Has row i
    → (rhs : List Symbol) × HasRule g id rhs × FirstAt g rhs i

module _ (g : Grammar) (is_nullable : BitVec) where
  pub Hits-FirstAt :
      (rows : List BitVec) (sequence : List Symbol) (i : ℕ)
      → ((id : ℕ) → Has is_nullable id → Nullable g (non_terminal id ∷ []))
      → SoundRows g rows
      → Hits g is_nullable rows sequence i
      → FirstAt g sequence i
  Hits-FirstAt rows [] i n s h = absurd h
  Hits-FirstAt rows (terminal t ∷ sequence) i n s h = (t, h, head)
  Hits-FirstAt rows (epsilon ∷ sequence) i n s h =
      let (t, e, d) = Hits-FirstAt rows sequence i n s h in (t, e, skip_first d)
  Hits-FirstAt rows (non_terminal id ∷ sequence) i n s (inl (row, at, h)) =
      let (rhs, rule, (t, e, d)) = s id row i at h in (t, e, under rule d)
  Hits-FirstAt rows (non_terminal id ∷ sequence) i n s (inr (vanishes, h)) =
      let (t, e, d) = Hits-FirstAt rows sequence i n s h in (t, e, behind (n id vanishes) d)

  -- The row of the production's left-hand side has all that its right-hand side contributes.
  abbrev pub ClosesFirst : List BitVec → Production → Type 0
  ClosesFirst rows p =
      (row : BitVec) (rhs : List Symbol) (i : ℕ)
      → get_elem? rows p.lhs ≡ some row
      → production_rhs g p.id ≡ some rhs
      → Hits g is_nullable rows rhs i
      → Has row i

  abbrev pub ClosedFirst : List BitVec → List Production → Type 0
  ClosedFirst rows [] = Unit
  ClosedFirst rows (p ∷ productions) = ClosesFirst rows p × ClosedFirst rows productions

  -- What some productions of a turn do to the rows and the flag.
  abbrev pub AdvanceFirst : List Production → List BitVec → Bool → List BitVec → Bool → Type 0
  AdvanceFirst productions rows c later d =
      Shaped g later
      × (SoundRows g rows → SoundRows g later)
      × (unset_rows later + weight d ≤ unset_rows rows + weight c)
      × (d ≡ false → (c ≡ false) × (later ≡ rows) × ClosedFirst rows productions)

  abbrev pub FirstTurn : List Production → List BitVec → Bool → Option (List BitVec × Bool) → Type 0
  FirstTurn productions rows c found =
      (later : List BitVec) × (d : Bool) × (found ≡ some (later, d))
      × AdvanceFirst productions rows c later d

  set-Shaped :
      (rows : List BitVec) (lhs : ℕ) (next : BitVec)
      → Shaped g rows
      → length next ≡ length g.terminals
      → Shaped g (set rows lhs next)
  set-Shaped rows lhs next shape l = (
    length-set rows lhs next ∙ shape.0,
    λ id row at. elim (row_of_set rows lhs id next row at) [
      | inl h ↦ shape.1 id row h
      | inr h ↦ ap length (sym h.1) ∙ l
    ],
  )

  set-SoundRows :
      (rows : List BitVec) (lhs : ℕ) (next : BitVec)
      → SoundRows g rows
      → ((i : ℕ) → Has next i → (rhs : List Symbol) × HasRule g lhs rhs × FirstAt g rhs i)
      → SoundRows g (set rows lhs next)
  set-SoundRows rows lhs next s f id row i at h = elim (row_of_set rows lhs id next row at) [
    | inl kept ↦ s id row i kept h
    | inr new ↦
        subst (λ x. (rhs : List Symbol) × HasRule g x rhs × FirstAt g rhs i) (sym new.0)
          (f i (subst (λ r. Has r i) (sym new.1) h))
  ]

  first_step_lem :
      (p : Production) (rows : List BitVec) (c : Bool)
      → (k : ℕ) × (get_elem? g.productions k ≡ some p)
      → IsProper g p
      → ((rhs : List Symbol) → production_rhs g p.id ≡ some rhs → Registered g rhs)
      → length is_nullable ≡ length g.non_terminals
      → ((id : ℕ) → Has is_nullable id → Nullable g (non_terminal id ∷ []))
      → Shaped g rows
      → FirstTurn (p ∷ []) rows c (first_step g is_nullable p rows c)
  unfolding first_step
  first_step_lem p rows c (k, at) (inside, rhs, e, range) known size n shape =
      let (row, here) = get_elem?-inside rows p.lhs (omega (arith, inside, shape.0)) in
      let l = shape.1 p.lhs row here in
      let (next, b, extended, ext) =
        extend_first_from_sequence_lem g is_nullable rows row rhs shape size range (known rhs e)
          l in
      elim (Bool-cases (bits_eq next row)) [
        | inl same ↦ (
          rows,
          c,
          rw (here, e, extended, same) refl,
          (
            shape,
            λ s. s,
            omega arith,
            λ f. (
              f,
              refl,
              (
                λ other rhs2 i at2 e2 h.
                    let row_same : row ≡ other = cc in
                    let rhs_same : rhs ≡ rhs2 = cc in
                    subst (λ r. Has r i) (bits_eq→eq next row same ∙ row_same)
                      (ext.3 i (subst (λ q. Hits g is_nullable rows q i) (sym rhs_same) h)),
                tt,
              ),
            ),
          ),
        )
        | inr differs ↦ (
          set rows p.lhs next,
          true,
          rw (here, e, extended, differs) refl,
          (
            set-Shaped rows p.lhs next shape (ext.0 ∙ l),
            λ s. set-SoundRows rows p.lhs next s (λ i h. elim (ext.1 i h) [
              | inl q ↦ s p.lhs row i here q
              | inr q ↦ (rhs, (k, p, at, refl, e), Hits-FirstAt rows rhs i n s q)
            ]),
            omega (
              arith,
              unset_rows-set rows p.lhs row next here,
              unset-lt next row ext.0 ext.2 differs,
            ),
            λ f. cc,
          ),
        )
      ]

  module _ (size : length is_nullable ≡ length g.non_terminals)
      (n : (id : ℕ) → Has is_nullable id → Nullable g (non_terminal id ∷ [])) where
    first_pass_lem :
        (productions : List Production) (rows : List BitVec) (c : Bool)
        → Among g productions
        → AllProper g productions
        → AllRegistered g productions
        → Shaped g rows
        → FirstTurn productions rows c (first_pass g is_nullable productions rows c)
    unfolding first_pass
    first_pass_lem [] rows c a p r shape =
        (rows, c, refl, (shape, λ s. s, omega arith, λ e. (e, refl, tt)))
    first_pass_lem (q ∷ productions) rows c a p r shape =
        let (rows1, c1, e1, s1) = first_step_lem q rows c a.0 p.0 r.0 size n shape in
        let (rows2, c2, e2, s2) = first_pass_lem productions rows1 c1 a.1 p.1 r.1 s1.0 in
        (
          rows2,
          c2,
          rw e1 e2,
          (
            s2.0,
            λ s. s2.1 (s1.1 s),
            omega (arith, s1.2, s2.2),
            λ e.
                let (f1, same2, closed2) = s2.3 e in
                let (f0, same1, closed1) = s1.3 f1 in
                (
                  f0,
                  same2 ∙ same1,
                  (closed1.0, subst (λ x. ClosedFirst x productions) same1 closed2),
                ),
          ),
        )

    -- Rows that are sound, and to which no production adds.
    abbrev pub SettledFirst : Option (List BitVec) → Type 0
    SettledFirst found =
        (rows : List BitVec) × (found ≡ some rows)
        × Shaped g rows
        × SoundRows g rows
        × ClosedFirst rows g.productions

    pub first_loop_lem :
        (fuel : ℕ) (rows : List BitVec)
        → Among g g.productions
        → AllProper g g.productions
        → AllRegistered g g.productions
        → Shaped g rows
        → SoundRows g rows
        → unset_rows rows < fuel
        → SettledFirst (first_loop fuel g is_nullable rows)
    unfolding first_loop
    first_loop_lem zero rows a p r shape s k = absurd (omega arith)
    first_loop_lem (suc fuel) rows a p r shape s k =
        let (later, d, e, adv) = first_pass_lem g.productions rows false a p r shape in
        by_change later d e adv (first_loop_lem fuel later a p r adv.0 (adv.1 s))
      where
        by_change :
            (later : List BitVec) (d : Bool)
            → first_pass g is_nullable g.productions rows false ≡ some (later, d)
            → AdvanceFirst g.productions rows false later d
            → (unset_rows later < fuel → SettledFirst (first_loop fuel g is_nullable later))
            → SettledFirst (first_loop (suc fuel) g is_nullable rows)
        by_change later true e adv again = rw e (again (omega (arith, adv.2, k)))
        by_change later false e adv again =
            let (f, same, closed) = adv.3 refl in
            (
              later,
              rw e refl,
              adv.0,
              adv.1 s,
              subst (λ x. ClosedFirst x g.productions) (sym same) closed,
            )

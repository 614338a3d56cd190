-- ===== src/Grammar/Examples.antt =====
-- The theorems about the grammar analysis at a concrete grammar.
use plingo.Prelude.{
  ℕ, subst, ◌⊎◌, ◌≡◌, refl, true, false, some, List, [], ◌∷◌, length, get_elem?, ◌↔◌, arith,
}
use plingo.Grammar.Symbols.{
  TerminalId, Symbol, terminal, non_terminal, epsilon, Production, Grammar, AllProper, Nullable,
}
use plingo.Grammar.Nullable.{BitVec, compute_nullable_sets}
use plingo.Grammar.NullableLaws.{compute_nullable_sets_lem}
use plingo.Grammar.First.{terminal_index, compute_first_sets, first_of_sequence}
use plingo.Grammar.FirstExtend.{Has, Registered, Shaped}
use plingo.Grammar.FirstLaws.{AllRegistered, FirstAt}
use plingo.Grammar.FirstSets.{compute_first_sets_lem, first_of_sequence_lem}

abbrev plus : TerminalId
plus = record { state_key = 1 ∷ []; token_id = 0 }

abbrev rule : ℕ → ℕ → ℕ → ℕ → Production
rule id lhs rhs_start rhs_len = record {
  id = id;
  lhs = lhs;
  rhs_start = rhs_start;
  rhs_len = rhs_len;
}

-- 0 ::= 1 1, 1 ::= ε | + 0, 2 ::= 0 +
abbrev optional : Grammar
optional = record {
  terminals = plus ∷ [];
  non_terminals =
      record { label = 0 ∷ []; named = true }
      ∷ record { label = 1 ∷ []; named = true }
      ∷ record { label = 2 ∷ []; named = false }
      ∷ [];
  productions = rule 0 0 0 2 ∷ rule 1 1 2 1 ∷ rule 2 1 3 2 ∷ rule 3 2 5 2 ∷ [];
  rhs_symbols =
      non_terminal 1
      ∷ non_terminal 1
      ∷ epsilon
      ∷ terminal plus
      ∷ non_terminal 0
      ∷ non_terminal 0
      ∷ terminal plus
      ∷ [];
}

optional_nullable : compute_nullable_sets optional ≡ some (true ∷ true ∷ false ∷ [])
unfolding compute_nullable_sets
optional_nullable = refl

optional-AllProper : AllProper optional optional.productions
optional-AllProper = (
  (omega arith, _, refl, (omega arith, (omega arith, tt))),
  (
    (omega arith, _, refl, tt),
    ((omega arith, _, refl, (omega arith, tt)), ((omega arith, _, refl, (omega arith, tt)), tt)),
  ),
)

compute_nullable_sets_lem_example :
    (v : BitVec) × (compute_nullable_sets optional ≡ some v)
    × (length v ≡ 3)
    × ((id : ℕ) → (get_elem? v id ≡ some true) ↔ Nullable optional (non_terminal id ∷ []))
compute_nullable_sets_lem_example = compute_nullable_sets_lem optional optional-AllProper

optional-AllRegistered : AllRegistered optional optional.productions
unfolding terminal_index
optional-AllRegistered = (
  λ rhs e. let same : non_terminal 1 ∷ non_terminal 1 ∷ [] ≡ rhs = cc in subst known same tt,
  (
    λ rhs e. let same : epsilon ∷ [] ≡ rhs = cc in subst known same tt,
    (
      λ rhs e.
          let same : terminal plus ∷ non_terminal 0 ∷ [] ≡ rhs = cc in
          subst known same ((0, refl), tt),
      (
        λ rhs e.
            let same : non_terminal 0 ∷ terminal plus ∷ [] ≡ rhs = cc in
            subst known same ((0, refl), tt),
        tt,
      ),
    ),
  ),
)
  where
    known : List Symbol → Type 0
    known = Registered optional

compute_first_sets_lem_example :
    (is_nullable : BitVec) × (rows : List BitVec) × (compute_nullable_sets optional
      ≡ some is_nullable)
    × (compute_first_sets optional is_nullable ≡ some rows)
    × Shaped optional rows
    × ((id : ℕ) (row : BitVec) (i : ℕ)
        → get_elem? rows id ≡ some row
        → Has row i ↔ FirstAt optional (non_terminal id ∷ []) i)
compute_first_sets_lem_example =
    compute_first_sets_lem optional optional-AllProper optional-AllRegistered

plus_known : Registered optional (terminal plus ∷ [])
unfolding terminal_index
plus_known = ((0, refl), tt)

first_of_sequence_lem_example :
    (is_nullable : BitVec) × (rows : List BitVec) × (first : BitVec) × (compute_nullable_sets
        optional
      ≡ some is_nullable)
    × (compute_first_sets optional is_nullable ≡ some rows)
    × (first_of_sequence optional is_nullable rows (non_terminal 0 ∷ []) plus ≡ some first)
    × ((i : ℕ)
        → Has first i ↔ (
            FirstAt optional (non_terminal 0 ∷ []) i
            ⊎ (Nullable optional (non_terminal 0 ∷ []) × (terminal_index optional plus ≡ some i))))
first_of_sequence_lem_example =
    first_of_sequence_lem optional (non_terminal 0 ∷ []) plus optional-AllProper
      optional-AllRegistered (omega arith, tt) tt plus_known

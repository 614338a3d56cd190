-- ===== src/Grammar/Symbols.antt =====
-- The grammar of src/framework/parse/grammar.rs, as far as its analysis reads it: labels of terminals
-- and productions, precedences and the build functions are left out.
use plingo.Prelude.{
  ℕ, ◌+◌, ◌<◌, ◌≡◌, Bool, leb, if◌then◌else◌, Option, none, some, ◌>>=◌, List, [], ◌∷◌, length,
  get_elem?, take, drop,
}

pub record TerminalId : Type 0 where
  pub state_key : List ℕ
  pub token_id : ℕ

pub data Symbol : Type 0 where
  terminal : TerminalId → Symbol
  non_terminal : ℕ → Symbol
  epsilon : Symbol

pub record NonTerminal : Type 0 where
  pub label : List ℕ
  pub named : Bool

pub record Production : Type 0 where
  pub id : ℕ
  pub lhs : ℕ
  pub rhs_start : ℕ
  pub rhs_len : ℕ

pub record Grammar : Type 0 where
  pub terminals : List TerminalId
  pub non_terminals : List NonTerminal
  pub productions : List Production
  pub rhs_symbols : List Symbol

-- The slice of the shared symbol list; `none` where an index is out of bounds, which panics.
abbrev pub production_rhs : Grammar → ℕ → Option (List Symbol)
production_rhs g production = do
  p ← get_elem? g.productions production
  if leb (p.rhs_start + p.rhs_len) (length g.rhs_symbols)
      then some (take p.rhs_len (drop p.rhs_start g.rhs_symbols))
      else none

-- Every non-terminal of a sequence is one of the first `count`.
abbrev pub InRange : ℕ → List Symbol → Type 0
InRange count [] = Unit
InRange count (terminal t ∷ sequence) = InRange count sequence
InRange count (non_terminal id ∷ sequence) = (id < count) × InRange count sequence
InRange count (epsilon ∷ sequence) = InRange count sequence

-- The production has a right-hand side, and mentions only non-terminals of the grammar.
abbrev pub IsProper : Grammar → Production → Type 0
IsProper g p =
    (p.lhs < length g.non_terminals)
    × (rhs : List Symbol) × (production_rhs g p.id ≡ some rhs)
    × InRange (length g.non_terminals) rhs

abbrev pub AllProper : Grammar → List Production → Type 0
AllProper g [] = Unit
AllProper g (p ∷ productions) = IsProper g p × AllProper g productions

-- The grammar has a production from `lhs` to `rhs`.
abbrev pub HasRule : Grammar → ℕ → List Symbol → Type 0
HasRule g lhs rhs =
    (k : ℕ) × (p : Production) × (get_elem? g.productions k ≡ some p)
    × (p.lhs ≡ lhs)
    × (production_rhs g p.id ≡ some rhs)

-- The sequence derives the empty string.
pub data Nullable (g : Grammar) : List Symbol → Type 0 where
  done : Nullable g []
  skip : {rest : List Symbol} → Nullable g rest → Nullable g (epsilon ∷ rest)
  expand :
      {lhs : ℕ} {rhs rest : List Symbol}
      → HasRule g lhs rhs
      → Nullable g rhs
      → Nullable g rest
      → Nullable g (non_terminal lhs ∷ rest)

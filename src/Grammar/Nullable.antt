-- ===== src/Grammar/Nullable.antt =====
-- `Grammar::compute_nullable_sets` of src/framework/parse/analyze.rs. `none` is a panic on an index
-- out of bounds, or no fuel.
use plingo.Prelude.{
  ℕ, zero, suc, ◌+◌, Bool, true, false, if◌then◌else◌, Option, none, some, ◌>>=◌, List, [], ◌∷◌,
  length, get_elem?, set, replicate,
}
use plingo.Grammar.Symbols.{
  Symbol, terminal, non_terminal, epsilon, Production, Grammar, production_rhs,
}

-- `bitvec::BitVec`
abbrev pub BitVec : Type 0
BitVec = List Bool

abbrev pub symbol_nullable : BitVec → Symbol → Option Bool
symbol_nullable is_nullable (terminal t) = some false
symbol_nullable is_nullable (non_terminal id) = get_elem? is_nullable id
symbol_nullable is_nullable epsilon = some true

-- `all`, which stops at the first symbol that fails.
unfoldable pub all_nullable : BitVec → List Symbol → Option Bool
all_nullable is_nullable [] = some true
all_nullable is_nullable (symbol ∷ symbols) =
    let rest = all_nullable is_nullable symbols in
    symbol_nullable is_nullable symbol >>= λ b. if b then rest else some false

-- Whether the bit of a production's left-hand side is set, and whether that is a change.
unfoldable pub mark : BitVec → Bool → ℕ → Bool → Option (BitVec × Bool)
mark is_nullable changed lhs false = some (is_nullable, changed)
mark is_nullable changed lhs true = get_elem? is_nullable lhs >>= λ known.
    if known then some (is_nullable, changed) else some (set is_nullable lhs true, true)

unfoldable pub nullable_step : Grammar → Production → BitVec → Bool → Option (BitVec × Bool)
unfolding all_nullable mark
nullable_step g p is_nullable changed = do
  rhs ← production_rhs g p.id
  b ← all_nullable is_nullable rhs
  mark is_nullable changed p.lhs b

-- One turn of the loop.
unfoldable pub nullable_pass : Grammar → List Production → BitVec → Bool → Option (BitVec × Bool)
unfolding nullable_step
nullable_pass g [] is_nullable changed = some (is_nullable, changed)
nullable_pass g (p ∷ productions) is_nullable changed =
    nullable_step g p is_nullable changed >>= λ s. nullable_pass g productions s.0 s.1

unfoldable pub nullable_loop : ℕ → Grammar → BitVec → Option BitVec
unfolding nullable_pass
nullable_loop zero g is_nullable = none
nullable_loop (suc fuel) g is_nullable = nullable_pass g g.productions is_nullable false >>= λ s.
    elim s.1 [ true ↦ nullable_loop fuel g s.0 | false ↦ some s.0 ]

-- Each turn but the last sets a bit.
unfoldable pub compute_nullable_sets : Grammar → Option BitVec
unfolding nullable_loop
compute_nullable_sets g =
    nullable_loop (length g.non_terminals + 1) g (replicate (length g.non_terminals) false)

-- ===== src/Grammar/First.antt =====
-- FIRST sets: `index_terminals`, `extend_first_from_sequence`, `compute_first_sets` and
-- `first_of_sequence` of src/framework/parse/analyze.rs, and the derivations that they stand for.
-- `none` is a panic on an index out of bounds or an unknown terminal, or no fuel.
use plingo.Prelude.{
  ℕ, zero, suc, ◌+◌, ◌*◌, Bool, true, false, ◌&&◌, ◌||◌, ◌==◌, ltb, if◌then◌else◌, Option, none,
  some, ◌>>=◌, List, [], ◌∷◌, length, get_elem?, set, replicate,
}
use plingo.Grammar.Symbols.{
  TerminalId, Symbol, terminal, non_terminal, epsilon, Production, Grammar, production_rhs, HasRule,
  Nullable,
}
use plingo.Grammar.Nullable.{BitVec}

abbrev pub bytes_eq : List ℕ → List ℕ → Bool
bytes_eq [] [] = true
bytes_eq [] (b ∷ bs) = false
bytes_eq (a ∷ left) [] = false
bytes_eq (a ∷ left) (b ∷ bs) = a == b && bytes_eq left bs

abbrev pub terminal_eq : TerminalId → TerminalId → Bool
terminal_eq s t = bytes_eq s.state_key t.state_key && s.token_id == t.token_id

-- The position of a terminal in the map that is collected from the list: the last one wins.
abbrev pub index_terminals : List TerminalId → ℕ → TerminalId → Option ℕ
index_terminals [] index t = none
index_terminals (s ∷ terminals) index t =
    let later = index_terminals terminals (suc index) t in
    elim later [ some i ↦ some i | none ↦ if terminal_eq s t then some index else none ]

unfoldable pub terminal_index : Grammar → TerminalId → Option ℕ
terminal_index g t = index_terminals g.terminals 0 t

-- `BitVec::set(index, true)`
abbrev pub set_bit : BitVec → ℕ → Option BitVec
set_bit v i = if ltb i (length v) then some (set v i true) else none

-- `union_nonterminal_first_into`: the bits that are set in the second are set in the first.
unfoldable pub union_bits : BitVec → BitVec → Option BitVec
union_bits target [] = some target
union_bits [] (true ∷ row) = none
union_bits [] (false ∷ row) = union_bits [] row
union_bits (b ∷ target) (c ∷ row) = union_bits target row >>= λ bits. some ((b || c) ∷ bits)

-- The bits of FIRST of the sequence are added, and the answer is whether all of it can vanish.
unfoldable pub extend_first_from_sequence :
    Grammar → BitVec → List BitVec → BitVec → List Symbol → Option (BitVec × Bool)
unfolding terminal_index union_bits
extend_first_from_sequence g is_nullable is_at_first target [] = some (target, true)
extend_first_from_sequence g is_nullable is_at_first target (terminal t ∷ sequence) = do
  i ← terminal_index g t
  bits ← set_bit target i
  some (bits, false)
extend_first_from_sequence g is_nullable is_at_first target (non_terminal id ∷ sequence) = do
  row ← get_elem? is_at_first id
  bits ← union_bits target row
  known ← get_elem? is_nullable id
  elim known [
    | true ↦ extend_first_from_sequence g is_nullable is_at_first bits sequence
    | false ↦ some (bits, false)
  ]
extend_first_from_sequence g is_nullable is_at_first target (epsilon ∷ sequence) =
    extend_first_from_sequence g is_nullable is_at_first target sequence

unfoldable pub bits_eq : BitVec → BitVec → Bool
bits_eq [] [] = true
bits_eq [] (c ∷ w) = false
bits_eq (b ∷ v) [] = false
bits_eq (true ∷ v) (true ∷ w) = bits_eq v w
bits_eq (false ∷ v) (false ∷ w) = bits_eq v w
bits_eq (true ∷ v) (false ∷ w) = false
bits_eq (false ∷ v) (true ∷ w) = false

unfoldable pub first_step :
    Grammar → BitVec → Production → List BitVec → Bool → Option (List BitVec × Bool)
unfolding extend_first_from_sequence bits_eq
first_step g is_nullable p is_at_first changed = do
  row ← get_elem? is_at_first p.lhs
  rhs ← production_rhs g p.id
  (next, vanishes) ← extend_first_from_sequence g is_nullable is_at_first row rhs
  if bits_eq next row then some (is_at_first, changed) else some (set is_at_first p.lhs next, true)

-- One turn of the loop.
unfoldable pub first_pass :
    Grammar → BitVec → List Production → List BitVec → Bool → Option (List BitVec × Bool)
unfolding first_step
first_pass g is_nullable [] is_at_first changed = some (is_at_first, changed)
first_pass g is_nullable (p ∷ productions) is_at_first changed =
    first_step g is_nullable p is_at_first changed >>= λ s.
    first_pass g is_nullable productions s.0 s.1

unfoldable pub first_loop : ℕ → Grammar → BitVec → List BitVec → Option (List BitVec)
unfolding first_pass
first_loop zero g is_nullable is_at_first = none
first_loop (suc fuel) g is_nullable is_at_first =
    first_pass g is_nullable g.productions is_at_first false >>= λ s. elim s.1 [
      | true ↦ first_loop fuel g is_nullable s.0
      | false ↦ some s.0
    ]

-- Each turn but the last sets a bit of some row.
unfoldable pub compute_first_sets : Grammar → BitVec → Option (List BitVec)
unfolding first_loop
compute_first_sets g is_nullable =
    let rows = length g.non_terminals in
    let width = length g.terminals in
    first_loop (rows * width + 1) g is_nullable (replicate rows (replicate width false))

unfoldable pub first_of_sequence :
    Grammar → BitVec → List BitVec → List Symbol → TerminalId → Option BitVec
unfolding extend_first_from_sequence
first_of_sequence g is_nullable is_at_first sequence lookahead = do
  (first, vanishes) ←
      extend_first_from_sequence g is_nullable is_at_first (replicate (length g.terminals) false)
        sequence
  elim vanishes [ true ↦ terminal_index g lookahead >>= λ i. set_bit first i | false ↦ some first ]

-- The sequence derives a sequence of symbols that begins with the terminal.
pub data First (g : Grammar) : List Symbol → TerminalId → Type 0 where
  head : {t : TerminalId} {rest : List Symbol} → First g (terminal t ∷ rest) t
  skip_first : {t : TerminalId} {rest : List Symbol} → First g rest t → First g (epsilon ∷ rest) t
  under :
      {t : TerminalId} {lhs : ℕ} {rhs rest : List Symbol}
      → HasRule g lhs rhs
      → First g rhs t
      → First g (non_terminal lhs ∷ rest) t
  behind :
      {t : TerminalId} {lhs : ℕ} {rest : List Symbol}
      → Nullable g (non_terminal lhs ∷ [])
      → First g rest t
      → First g (non_terminal lhs ∷ rest) t

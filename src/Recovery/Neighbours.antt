-- ===== src/Recovery/Neighbours.antt =====
-- The configurations that `find_recovery` of src/framework/parse/recovery.rs pushes from one: by a
-- shift, a token shifted as an error, an inserted terminal or a deleted token.
use plingo.Prelude.{
  ℕ, ◌+◌, min, Bool, true, false, if◌then◌else◌, Option, none, some, ◌>>=◌, List, [], ◌∷◌, ◌++◌,
}
use plingo.Grammar.Symbols.{TerminalId}
use plingo.Grammar.First.{terminal_eq}
use plingo.Span.Located.{usize_max}
use plingo.Recovery.Score.{insert, delete, shift, shift_as_error}
use plingo.Recovery.Queue.{SearchConfig, Search, push_config}
use plingo.Recovery.Closure.{
  SessionContext, action_set, has_shift, shift_targets, pushed, top_state, ClosedStack,
  compute_closed_stacks,
}

abbrev next_input : SearchConfig → ℕ
next_input config = min usize_max (config.input + 1)

abbrev after_shift : SearchConfig → List ℕ → ℕ → SearchConfig
after_shift config stack next_state = record {
  stack = pushed stack next_state;
  input = next_input config;
  repairs = config.repairs ++ (shift ∷ []);
  score = record {
    deletes = config.score.deletes;
    error_shifts = config.score.error_shifts;
    shifts = config.score.shifts + 1;
    inserts = config.score.inserts;
  };
}

abbrev after_error_shift : SearchConfig → List ℕ → ℕ → SearchConfig
after_error_shift config stack next_state = record {
  stack = pushed stack next_state;
  input = next_input config;
  repairs = config.repairs ++ (shift_as_error ∷ []);
  score = record {
    deletes = config.score.deletes;
    error_shifts = config.score.error_shifts + 1;
    shifts = config.score.shifts;
    inserts = config.score.inserts;
  };
}

abbrev after_insert : SearchConfig → TerminalId → List ℕ → ℕ → SearchConfig
after_insert config terminal stack next_state = record {
  stack = pushed stack next_state;
  input = config.input;
  repairs = config.repairs ++ (insert terminal ∷ []);
  score = record {
    deletes = config.score.deletes;
    error_shifts = config.score.error_shifts;
    shifts = config.score.shifts;
    inserts = config.score.inserts + 1;
  };
}

abbrev after_delete : SearchConfig → List ℕ → SearchConfig
after_delete config stack = record {
  stack = stack;
  input = next_input config;
  repairs = config.repairs ++ (delete ∷ []);
  score = record {
    deletes = config.score.deletes + 1;
    error_shifts = config.score.error_shifts;
    shifts = config.score.shifts;
    inserts = config.score.inserts;
  };
}

-- The loop over the targets of a shift.
unfoldable push_targets : Search → (ℕ → SearchConfig) → ℕ → List ℕ → Search
push_targets s after cost [] = s
push_targets s after cost (next_state ∷ targets) =
    push_targets (push_config s (after next_state) cost) after cost targets

unfoldable push_shift_neighbours :
    SessionContext → SearchConfig → List ℕ → ℕ → Search → Option Search
unfolding push_targets
push_shift_neighbours ctx config stack cost s = elim (top_state stack) [
  | none ↦ some s
  | some state ↦ shift_targets ctx state (ctx.tail_terminal config.input) >>= λ targets.
      some (push_targets s (after_shift config stack) cost targets)
]

unfoldable push_shift_as_error_neighbours :
    SessionContext → SearchConfig → List ℕ → ℕ → Search → Option Search
unfolding push_targets
push_shift_as_error_neighbours ctx config stack cost s =
    if terminal_eq (ctx.tail_terminal config.input) ctx.eof
    then some s
    else elim (top_state stack) [
      | none ↦ some s
      | some state ↦ shift_targets ctx state ctx.error_terminal >>= λ targets.
          some (push_targets s (after_error_shift config stack) (cost + 1) targets)
    ]

-- Some stack of a closure can shift the terminal.
unfoldable any_shift : SessionContext → TerminalId → List ClosedStack → Option Bool
any_shift ctx terminal [] = some false
any_shift ctx terminal (closed ∷ stacks) = elim (top_state closed.stack) [
  | none ↦ any_shift ctx terminal stacks
  | some state ↦ action_set ctx state terminal >>= λ actions.
      if has_shift actions then some true else any_shift ctx terminal stacks
]

-- The loop over the terminals of the grammar.
unfoldable insert_terminals :
    ℕ → SessionContext → List ℕ → List TerminalId → Option (List TerminalId)
unfolding any_shift compute_closed_stacks
insert_terminals fuel ctx stack [] = some []
insert_terminals fuel ctx stack (terminal ∷ terminals) =
    if terminal_eq terminal ctx.eof
    then insert_terminals fuel ctx stack terminals
    else (compute_closed_stacks fuel ctx stack terminal >>= λ closed.
        any_shift ctx terminal closed >>= λ can_shift.
        insert_terminals fuel ctx stack terminals >>= λ rest.
        some (if can_shift then terminal ∷ rest else rest))

-- The loop over the closed stacks of one terminal.
unfoldable push_inserted :
    SessionContext → SearchConfig → TerminalId → ℕ → List ClosedStack → Search → Option Search
unfolding push_targets
push_inserted ctx config terminal cost [] s = some s
push_inserted ctx config terminal cost (closed ∷ stacks) s = elim (top_state closed.stack) [
  | none ↦ push_inserted ctx config terminal cost stacks s
  | some state ↦ shift_targets ctx state terminal >>= λ targets.
      push_inserted ctx config terminal cost stacks
        (push_targets s (after_insert config terminal closed.stack) (cost + 1) targets)
]

unfoldable push_each_insert :
    ℕ → SessionContext → SearchConfig → List ℕ → ℕ → List TerminalId → Search → Option Search
unfolding push_inserted compute_closed_stacks
push_each_insert fuel ctx config stack cost [] s = some s
push_each_insert fuel ctx config stack cost (terminal ∷ terminals) s = do
  closed ← compute_closed_stacks fuel ctx stack terminal
  next ← push_inserted ctx config terminal cost closed s
  push_each_insert fuel ctx config stack cost terminals next

unfoldable push_insert_neighbours :
    ℕ → SessionContext → SearchConfig → List ℕ → ℕ → Search → Option Search
unfolding insert_terminals push_each_insert
push_insert_neighbours fuel ctx config stack cost s = do
  terminals ← insert_terminals fuel ctx stack ctx.grammar.terminals
  push_each_insert fuel ctx config stack cost terminals s

unfoldable push_delete_neighbour : SessionContext → SearchConfig → List ℕ → ℕ → Search → Search
push_delete_neighbour ctx config stack cost s =
    if terminal_eq (ctx.tail_terminal config.input) ctx.eof
    then s
    else push_config s (after_delete config stack) (cost + 1)

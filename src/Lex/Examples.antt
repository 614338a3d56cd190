-- ===== src/Lex/Examples.antt =====
-- The theorems about src/framework/lex/mode.rs at concrete states.
use plingo.Prelude.{ℕ, ◌≡◌, some, [], ◌∷◌}
use plingo.Lex.Mode.{
  State, StateAction, LexerState, enter, exit, current_state, parent_state, depth, apply_action,
  apply_action_lem,
}

abbrev mode : ℕ → State ℕ
mode id = record { id = id; slots = 0 }

-- In mode 1 inside mode 0, at offset 5.
abbrev in_string : LexerState ℕ
in_string = record { offset = 5; state_stack = mode 0 ∷ mode 1 ∷ [] }

apply_action_lem_example :
    (current_state (apply_action in_string (enter (mode 2))) ≡ some (mode 2))
    × (parent_state (apply_action in_string (enter (mode 2))) ≡ some (mode 1))
    × (depth (apply_action in_string (enter (mode 2))) ≡ 2)
    × (apply_action (apply_action in_string (enter (mode 2))) exit ≡ in_string)
    × (current_state (apply_action in_string exit) ≡ some (mode 0))
    × ((action : StateAction ℕ) → (apply_action in_string action).offset ≡ 5)
apply_action_lem_example = apply_action_lem in_string (mode 2)

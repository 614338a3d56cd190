-- ===== src/Recovery/Closure.antt =====
-- The closure of a stack under reductions: `compute_closed_stacks` of src/framework/parse/recovery.rs,
-- over the actions of src/framework/parse/build.rs. `none` is a panic on an index out of bounds, or no
-- fuel. The source's caches of these results leave no trace.
use plingo.Prelude.{
  ℕ, zero, suc, ◌+◌, ◌-◌, ◌*◌, Bool, true, false, ◌||◌, leb, if◌then◌else◌, Option, none, some,
  ◌>>=◌, List, [], ◌∷◌, ◌++◌, length, get_elem?, take,
}
use plingo.Grammar.Symbols.{TerminalId, Grammar}
use plingo.Grammar.First.{terminal_index}
use plingo.Recovery.Queue.{stack_eq}

pub data Action : Type 0 where
  shift_to : ℕ → Action
  reduce : ℕ → Action
  accept : Action
  error : Action

-- `ActionSet`
abbrev pub ActionSet : Type 0
ActionSet = List Action

abbrev pub has_shift : ActionSet → Bool
has_shift [] = false
has_shift (shift_to next ∷ actions) = true
has_shift (reduce production ∷ actions) = has_shift actions
has_shift (accept ∷ actions) = has_shift actions
has_shift (error ∷ actions) = has_shift actions

-- What the search reads of the session: the grammar and its special terminals, the tables, and the
-- terminals of the input.
pub record SessionContext : Type 0 where
  pub grammar : Grammar
  pub eof : TerminalId
  pub error_terminal : TerminalId
  pub actions : List ActionSet
  pub gotos : List (Option ℕ)
  pub tail_terminal : ℕ → TerminalId

abbrev action_index : Grammar → ℕ → TerminalId → Option ℕ
action_index g state terminal =
    terminal_index g terminal >>= λ i. some (state * length g.terminals + i)

abbrev goto_index : Grammar → ℕ → ℕ → ℕ
goto_index g state id = state * length g.non_terminals + id

abbrev pub action_set : SessionContext → ℕ → TerminalId → Option ActionSet
action_set ctx state terminal = action_index ctx.grammar state terminal >>= get_elem? ctx.actions

abbrev targets_of : ActionSet → List ℕ
targets_of [] = []
targets_of (shift_to next ∷ actions) = next ∷ targets_of actions
targets_of (reduce production ∷ actions) = targets_of actions
targets_of (accept ∷ actions) = targets_of actions
targets_of (error ∷ actions) = targets_of actions

abbrev pub shift_targets : SessionContext → ℕ → TerminalId → Option (List ℕ)
shift_targets ctx state terminal =
    action_set ctx state terminal >>= λ actions. some (targets_of actions)

abbrev pub pushed : List ℕ → ℕ → List ℕ
pushed stack state = stack ++ (state ∷ [])

-- `last`
abbrev pub top_state : List ℕ → Option ℕ
top_state stack = get_elem? stack (length stack - 1)

pub record ClosedStack : Type 0 where
  pub stack : List ℕ
  pub accepted : Bool

-- The stack after a reduction; `some none` where the stack is too short or there is no goto.
abbrev reduced_stack : SessionContext → List ℕ → ℕ → Option (Option (List ℕ))
reduced_stack ctx stack production = do
  p ← get_elem? ctx.grammar.productions production
  if leb (length stack) p.rhs_len
      then some none
      else (get_elem? stack (length stack - p.rhs_len - 1) >>= λ pred.
          get_elem? ctx.gotos (goto_index ctx.grammar pred p.lhs) >>= λ goto.
          some (goto >>= λ next. some (pushed (take (length stack - p.rhs_len) stack) next)))

-- What the actions on a stack lead to: the reduced stacks in order, and whether the input is accepted.
abbrev follow : SessionContext → List ℕ → ActionSet → Option (List (List ℕ) × Bool)
follow ctx stack [] = some ([], false)
follow ctx stack (reduce production ∷ actions) = do
  next ← reduced_stack ctx stack production
  (stacks, accepted) ← follow ctx stack actions
  elim next [ none ↦ some (stacks, accepted) | some reduced ↦ some (reduced ∷ stacks, accepted) ]
follow ctx stack (accept ∷ actions) = follow ctx stack actions >>= λ found. some (found.0, true)
follow ctx stack (shift_to next ∷ actions) = follow ctx stack actions
follow ctx stack (error ∷ actions) = follow ctx stack actions

abbrev seen_stack : List (List ℕ) → List ℕ → Bool
seen_stack [] stack = false
seen_stack (s ∷ seen) stack = stack_eq s stack || seen_stack seen stack

abbrev is_empty_list : List (List ℕ) → Bool
is_empty_list [] = true
is_empty_list (s ∷ stacks) = false

-- The loop over the queue, with the stacks that were seen.
unfoldable closed_loop :
    ℕ → SessionContext → TerminalId → List (List ℕ) → List (List ℕ) → Option (List ClosedStack)
closed_loop zero ctx lookahead queue seen = none
closed_loop (suc fuel) ctx lookahead [] seen = some []
closed_loop (suc fuel) ctx lookahead (stack ∷ queue) seen =
    if seen_stack seen stack
    then closed_loop fuel ctx lookahead queue seen
    else elim (top_state stack) [
      | none ↦ closed_loop fuel ctx lookahead queue (stack ∷ seen)
      | some state ↦ action_set ctx state lookahead >>= λ actions.
          follow ctx stack actions >>= λ found.
          closed_loop fuel ctx lookahead (queue ++ found.0) (stack ∷ seen) >>= λ out.
          if found.1 || is_empty_list found.0
          then some (record { stack = stack; accepted = found.1 } ∷ out)
          else some out
    ]

unfoldable pub compute_closed_stacks :
    ℕ → SessionContext → List ℕ → TerminalId → Option (List ClosedStack)
unfolding closed_loop
compute_closed_stacks fuel ctx stack lookahead = closed_loop fuel ctx lookahead (stack ∷ []) []

-- ===== src/Lex/Mode.antt =====
-- `LexerState` of src/framework/lex/mode.rs: the stack of lexer states and the actions on it. The slots
-- of a state are a parameter.
use plingo.Prelude.{
  ℕ, ◌+◌, ◌-◌, ◌≡◌, refl, ap, ltb, false, ge→ltb, if◌then◌else◌, Option, none, some, ◌>>=◌, List,
  [], ◌∷◌, ◌++◌, length, get_elem?, take, length-append, length-take, get_elem?-take,
  get_elem?-append_left, take_front, arith,
}

pub record State (Slots : Type 0) : Type 0 where
  pub id : ℕ
  pub slots : Slots

-- `stay` is the source's `None`.
pub data StateAction (Slots : Type 0) : Type 0 where
  stay : StateAction Slots
  enter : State Slots → StateAction Slots
  exit : StateAction Slots

-- The last state of the stack is the current one.
pub record LexerState (Slots : Type 0) : Type 0 where
  pub offset : ℕ
  pub state_stack : List (State Slots)

module _ {Slots : Type 0} where
  abbrev pub new_lexer_state : State Slots → LexerState Slots
  new_lexer_state root = record { offset = 0; state_stack = root ∷ [] }

  -- `last`; `none` is `MissingState`.
  abbrev pub current_state : LexerState Slots → Option (State Slots)
  current_state s = get_elem? s.state_stack (length s.state_stack - 1)

  abbrev pub current_slots : LexerState Slots → Option Slots
  current_slots s = current_state s >>= λ state. some state.slots

  abbrev pub parent_state : LexerState Slots → Option (State Slots)
  parent_state s =
      if ltb (length s.state_stack) 2
      then none
      else get_elem? s.state_stack (length s.state_stack - 2)

  abbrev pub parent_slots : LexerState Slots → Option Slots
  parent_slots s = parent_state s >>= λ state. some state.slots

  abbrev pub depth : LexerState Slots → ℕ
  depth s = length s.state_stack - 1

  -- `pop`, which leaves an empty stack as it is.
  abbrev pub popped : List (State Slots) → List (State Slots)
  popped stack = take (length stack - 1) stack

  unfoldable pub apply_action : LexerState Slots → StateAction Slots → LexerState Slots
  apply_action s stay = s
  apply_action s (enter state) = record {
    offset = s.offset;
    state_stack = s.state_stack ++ (state ∷ []);
  }
  apply_action s exit = record { offset = s.offset; state_stack = popped s.state_stack }

  exit_entered :
      (s : LexerState Slots) (state : State Slots)
      → apply_action (apply_action s (enter state)) exit ≡ s
  unfolding apply_action
  exit_entered s state =
      ap (λ stack. record { offset = s.offset; state_stack = stack })
        (take_front s.state_stack (state ∷ []) (length (s.state_stack ++ (state ∷ [])) - 1)
          (omega (arith, length-append s.state_stack (state ∷ []))))

  last_pushed :
      (stack : List (State Slots)) (state : State Slots)
      → get_elem? (stack ++ (state ∷ [])) (length stack) ≡ some state
  last_pushed [] state = refl
  last_pushed (x ∷ stack) state = last_pushed stack state

  below_pushed :
      (stack : List (State Slots)) (state : State Slots)
      → (if ltb (length stack + 1) 2
          then none
          else get_elem? (stack ++ (state ∷ [])) (length stack + 1 - 2))
        ≡ get_elem? stack (length stack - 1)
  below_pushed [] state = refl
  below_pushed (x ∷ stack) state =
      let deep : ltb (length (x ∷ stack) + 1) 2 ≡ false = ge→ltb _ _ (omega arith) in
      let at : length (x ∷ stack) + 1 - 2 ≡ length (x ∷ stack) - 1 = omega arith in
      rw (deep, at)
        (get_elem?-append_left (x ∷ stack) (state ∷ []) (length (x ∷ stack) - 1) (omega arith))

  below_popped :
      (stack : List (State Slots))
      → get_elem? (popped stack) (length (popped stack) - 1)
        ≡ (if ltb (length stack) 2 then none else get_elem? stack (length stack - 2))
  below_popped [] = refl
  below_popped (x ∷ []) = refl
  below_popped (x ∷ y ∷ stack) =
      let all : List (State Slots) = x ∷ y ∷ stack in
      let counted : length (popped all) ≡ length all - 1 =
        omega (arith, length-take (length all - 1) all) in
      let at : length (popped all) - 1 ≡ length all - 2 = omega (arith, counted) in
      let deep : ltb (length all) 2 ≡ false = ge→ltb _ _ (omega arith) in
      rw (at, deep) (get_elem?-take (length all - 1) all (length all - 2) (omega arith))

  -- After entering a state it is the current one, its parent is the state that was current, and the
  -- depth is the number of states that there were; leaving it gives the lexer state back. After leaving
  -- a state, the current one is what was its parent, if any. No action moves the offset.
  pub apply_action_lem :
      (s : LexerState Slots) (state : State Slots)
      → (current_state (apply_action s (enter state)) ≡ some state)
        × (parent_state (apply_action s (enter state)) ≡ current_state s)
        × (depth (apply_action s (enter state)) ≡ length s.state_stack)
        × (apply_action (apply_action s (enter state)) exit ≡ s)
        × (current_state (apply_action s exit) ≡ parent_state s)
        × ((action : StateAction Slots) → (apply_action s action).offset ≡ s.offset)
  unfolding apply_action
  apply_action_lem s state =
      let grown : length (s.state_stack ++ (state ∷ [])) ≡ length s.state_stack + 1 =
        length-append s.state_stack (state ∷ []) in
      let top : length s.state_stack + 1 - 1 ≡ length s.state_stack = omega arith in
      (
        rw (grown, top) (last_pushed s.state_stack state),
        rw grown (below_pushed s.state_stack state),
        rw grown top,
        exit_entered s state,
        below_popped s.state_stack,
        same_offset s,
      )
    where
      same_offset :
          (s : LexerState Slots) (action : StateAction Slots)
          → (apply_action s action).offset ≡ s.offset
      same_offset s stay = refl
      same_offset s (enter state) = refl
      same_offset s exit = refl

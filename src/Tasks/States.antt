-- ===== src/Tasks/States.antt =====
-- fleet/core/state_machine.py.
use aidean_fleet.Common.{ℕ, Bool, true, false, List, [], ◌∷◌, String, if◌then◌else◌, ltb, eqb, any}
use aidean_fleet.Common.Outcome.{Result, ◌>>◌, guard}

-- STATES; `unknown` is any other text
pub data State : Type 0 where
  draft assigned doing submitted reviewing done partial rework blocked escalated : State
  unknown : String → State

-- `is_state`
unfoldable pub is_state : State → Bool
is_state (State.unknown s) = false
is_state _ = true

-- `is_terminal`, by TERMINAL_STATES
unfoldable pub is_terminal : State → Bool
is_terminal State.done = true
is_terminal State.partial = true
is_terminal State.escalated = true
is_terminal _ = false

-- TRANSITIONS
unfoldable pub transitions : State → List State
transitions State.draft = State.assigned ∷ []
transitions State.assigned = State.doing ∷ State.blocked ∷ []
transitions State.doing = State.submitted ∷ State.blocked ∷ []
transitions State.submitted = State.reviewing ∷ State.blocked ∷ []
transitions State.reviewing = State.done ∷ State.partial ∷ State.rework ∷ State.blocked ∷ []
transitions State.rework = State.assigned ∷ State.escalated ∷ []
transitions State.blocked = State.assigned ∷ []
transitions _ = []

abbrev rank : State → ℕ
rank State.draft = 0
rank State.assigned = 1
rank State.doing = 2
rank State.submitted = 3
rank State.reviewing = 4
rank State.done = 5
rank State.partial = 6
rank State.rework = 7
rank State.blocked = 8
rank State.escalated = 9
rank (State.unknown s) = 10

-- `to_state in TRANSITIONS.get(from_state, frozenset())`
unfoldable pub can_transition : State → State → Bool
unfolding transitions
can_transition from to = any (λ s. eqb (rank s) (rank to)) (transitions from)

pub data Error : Type 0 where
  unknown_source unknown_target invalid_transition : State → State → Error
  no_task : Error
  duplicate_task : Error

unfoldable pub assert_transition : State → State → Result Error (Unit {0})
assert_transition from to = do
  guard (is_state from) (unknown_source from to)
  guard (is_state to) (unknown_target from to)
  guard (can_transition from to) (invalid_transition from to)

-- REWORK_ESCALATE_THRESHOLD
abbrev pub rework_escalate_threshold : ℕ
rework_escalate_threshold = 3

unfoldable pub resolve_rework_target : ℕ → State
resolve_rework_target rework_count =
    if ltb rework_escalate_threshold rework_count then State.escalated else State.assigned

-- ===== src/Kernel/State.antt =====
-- fleet/kernel/state.py: the statuses of a todo, the table of transitions, and the typed result of
-- a turn. The status `open` is written `opened`.
use aidean_fleet.Common.{ℕ, Bool, true, false, List, [], ◌∷◌, Option, String}

-- TODO_KINDS
abbrev pub todo_kinds : List String
todo_kinds = "exec" ∷ "plan" ∷ "steer" ∷ []

pub data Status : Type 0 where
  opened claimed running verifying done blocked needs_user superseded : Status

-- CLAIMED, RUNNING and VERIFYING, which the code always names together
abbrev pub in_flight : Status → Bool
in_flight Status.claimed = true
in_flight Status.running = true
in_flight Status.verifying = true
in_flight _ = false

-- DONE and SUPERSEDED, which have no way out
abbrev pub is_settled : Status → Bool
is_settled Status.done = true
is_settled Status.superseded = true
is_settled _ = false

abbrev pub is_opened : Status → Bool
is_opened Status.opened = true
is_opened _ = false

abbrev pub is_claimed : Status → Bool
is_claimed Status.claimed = true
is_claimed _ = false

abbrev pub is_running : Status → Bool
is_running Status.running = true
is_running _ = false

abbrev pub is_verifying : Status → Bool
is_verifying Status.verifying = true
is_verifying _ = false

abbrev pub is_done : Status → Bool
is_done Status.done = true
is_done _ = false

abbrev pub is_blocked : Status → Bool
is_blocked Status.blocked = true
is_blocked _ = false

abbrev pub is_needs_user : Status → Bool
is_needs_user Status.needs_user = true
is_needs_user _ = false

-- what the table may send a status to: a status, or REWORK_IF_ALLOWED
pub data Target : Type 0 where
  to : Status → Target
  rework : Target

-- TRANSITIONS
unfoldable pub transitions : Status → List Target
transitions Status.opened =
    to Status.claimed ∷ to Status.blocked ∷ to Status.superseded ∷ to Status.needs_user ∷ []
transitions Status.claimed =
    to Status.running
    ∷ to Status.opened
    ∷ to Status.blocked
    ∷ to Status.needs_user
    ∷ to Status.superseded
    ∷ []
transitions Status.running =
    to Status.verifying
    ∷ to Status.opened
    ∷ to Status.blocked
    ∷ to Status.needs_user
    ∷ to Status.superseded
    ∷ []
transitions Status.verifying =
    to Status.done
    ∷ rework
    ∷ to Status.blocked
    ∷ to Status.needs_user
    ∷ to Status.superseded
    ∷ to Status.running
    ∷ []
transitions Status.done = []
transitions Status.blocked = to Status.opened ∷ to Status.superseded ∷ to Status.needs_user ∷ []
transitions Status.needs_user = to Status.opened ∷ to Status.superseded ∷ []
transitions Status.superseded = []

-- VERDICTS; `other` is a text that is none of them
pub data Verdict : Type 0 where
  done successor blocked needs_user : Verdict
  other : String → Verdict

abbrev pub is_verdict : Verdict → Bool
is_verdict (Verdict.other s) = false
is_verdict _ = true

abbrev pub is_done_verdict : Verdict → Bool
is_done_verdict Verdict.done = true
is_done_verdict _ = false

-- the exit code of a process, which may be negative
pub data ExitCode : Type 0 where
  pos : ℕ → ExitCode
  negsuc : ℕ → ExitCode

-- The dictionary `successor`: a key that is missing is `none`.
pub record Successor : Type 0 where
  pub id : Option String
  pub kind : Option String
  pub title : Option String
  pub role : Option String
  pub depends_on : Option (List String)
  pub allowed_files : Option (List String)
  pub verify : Option (List String)
  pub done_when : Option String
  pub packet : Option String
  pub workspace : Option String

pub record TurnResult : Type 0 where
  pub verdict : Verdict
  pub note : String
  pub evidence_path : String
  pub exit_code : Option ExitCode
  pub tokens_in : ℕ
  pub tokens_out : ℕ
  pub session_id : String
  pub successor : Successor

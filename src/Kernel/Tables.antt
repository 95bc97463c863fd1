-- ===== src/Kernel/Tables.antt =====
-- The tables of fleet/kernel/store.py and database/migrations, the change of plan that a steer todo
-- proposes, and what a method of the kernel takes from the machine. A column of JSON is the list
-- that it encodes. Times are whole seconds; an ISO stamp and a day are texts.
use aidean_fleet.Common.{ℕ, Bool, List, Option, String}
use aidean_fleet.Kernel.State.{Status, ExitCode}

pub data GoalStatus : Type 0 where
  active done : GoalStatus

pub data RequirementsState : Type 0 where
  draft frozen : RequirementsState

pub record Goal : Type 0 where
  pub id : String
  pub title : String
  pub status : GoalStatus
  pub requirements : String
  pub workspace : String
  pub requirements_state : RequirementsState
  pub created_at : String

pub data PlanDecision : Type 0 where
  none pending approved rejected : PlanDecision

pub record Todo : Type 0 where
  pub id : String
  pub goal_id : String
  pub kind : String
  pub title : String
  pub role : String
  pub depends_on : List String
  pub allowed_files : List String
  pub verify : List String
  pub done_when : String
  pub packet : String
  pub workspace : String
  pub status : Status
  pub lineage : String
  pub attempt_count : ℕ
  pub successor_of : String
  pub claimed_by : String
  pub claim_expires_at : ℕ
  pub plan_decision : PlanDecision
  pub created_at : String
  pub updated_at : String

pub record Attempt : Type 0 where
  pub id : ℕ
  pub todo_id : String
  pub harness : String
  pub model : String
  pub started_at : String
  pub ended_at : Option String
  pub exit_code : Option ExitCode
  pub tokens_in : ℕ
  pub tokens_out : ℕ
  pub evidence_path : String
  pub turn_result : String
  pub session_id : String

-- one entry of `add`, of `modify` and its `fields`; a key that is missing is `none`
pub record AddSpec : Type 0 where
  pub id : Option String
  pub title : Option String
  pub role : Option String
  pub depends_on : Option (List String)
  pub allowed_files : Option (List String)
  pub verify : Option (List String)
  pub done_when : Option String
  pub workspace : Option String

pub record ModifySpec : Type 0 where
  pub todo_id : Option String
  pub title : Option String
  pub done_when : Option String
  pub packet : Option String
  pub allowed_files : Option (List String)
  pub verify : Option (List String)

pub record PlanDiff : Type 0 where
  pub add : List AddSpec
  pub cancel : List String
  pub modify : List ModifySpec

pub data Decision : Type 0 where
  approve reject : Decision
  other : String → Decision

-- `kind` with the payload of each event
pub data EventKind : Type 0 where
  goal_created goal_clarified goal_frozen : String → EventKind
  goal_done : EventKind
  todo_created : String → String → String → Option String → EventKind
  todo_claimed : String → ℕ → String → String → EventKind
  todo_lease_expired : EventKind
  todo_running todo_verifying : String → EventKind
  todo_done : String → String → ℕ → ℕ → EventKind
  todo_needs_user : Option ℕ → String → EventKind
  todo_successor : Option String → String → EventKind
  todo_blocked : String → EventKind
  todo_reopened : String → EventKind
  plan_diff_proposed : PlanDiff → EventKind
  plan_decided : Decision → ℕ → String → List String → EventKind

pub record Event : Type 0 where
  pub seq : ℕ
  pub ts : String
  pub kind : EventKind
  pub todo_id : String
  pub goal_id : String
  pub published : Bool

-- A limit of 0 stands for every limit that is not positive: no limit.
pub record Quota : Type 0 where
  pub key : String
  pub used : ℕ
  pub limit_per_day : ℕ
  pub day : String

-- `next_attempt` and `next_event` are SQLite's AUTOINCREMENT counters.
pub record Db : Type 0 where
  pub goals : List Goal
  pub todos : List Todo
  pub attempts : List Attempt
  pub next_attempt : ℕ
  pub events : List Event
  pub next_event : ℕ
  pub quotas : List Quota

-- The clock while a method runs, and the identifiers that `_new_id` makes in it: the n-th is
-- `fresh n`. `fresh_goal` is the one that begins with `G-`.
pub record Env : Type 0 where
  pub now : ℕ
  pub stamp : String
  pub day : String
  pub fresh_goal : String
  pub fresh : ℕ → String

-- the fields of `Kernel`
pub record Config : Type 0 where
  pub lease_seconds : ℕ
  pub lineage_limit : ℕ

-- KeyError, sqlite3.IntegrityError, and KernelError with its subclasses
pub data Error : Type 0 where
  no_todo no_goal integrity : Error
  bad_kind bad_verdict bad_decision bad_status not_holder not_verifying no_evidence : Error
  decision_already_made goal_already_frozen requirements_not_ready : Error

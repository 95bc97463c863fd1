-- ===== src/Tasks/Store.antt =====
-- The tasks of fleet/core/db.py: `create_task`, `update_task`, `transition`, `bump_rework` and
-- `transition_and_log`. A task has the columns that these read or set; the free fields of a call are
-- the four that its callers give.
use aidean_fleet.Common.{
  ℕ, ◌+◌, Bool, true, false, not, ◌&&◌, ◌||◌, none, some, filter, List, [], ◌∷◌, ◌++◌, Option,
  String, if◌then◌else◌, or_else, any, find?, update,
}
use aidean_fleet.Common.Text.{◌==◌, is_blank, precedes}
use aidean_fleet.Common.Sorted.{order_by}
use aidean_fleet.Common.Outcome.{Result, ok, err, ◌>>=◌, ◌>>◌, guard, from_option}
use aidean_fleet.Tasks.States.{
  State, is_state, assert_transition, resolve_rework_target, Error, no_task, duplicate_task,
  invalid_transition,
}

-- REVIEW_STATUSES
pub data ReviewStatus : Type 0 where
  pending reviewing pass partial rework blocked : ReviewStatus

pub record Task : Type 0 where
  pub task_id : String
  pub project_id : String
  pub exec_status : State
  pub review_status : ReviewStatus
  pub rework_count : ℕ
  pub detail : String
  pub remark : String
  pub blocked_reason : String
  pub created_at : String
  pub updated_at : String

-- `**fields`
pub record Fields : Type 0 where
  pub detail : Option String
  pub remark : Option String
  pub blocked_reason : Option String
  pub review_status : Option ReviewStatus

-- what an event says: the words of the caller, or the text that is made of the state
pub data Saying : Type 0 where
  words : String → Saying
  of_move : State → Saying

-- `action or ...` and `summary or ...`
unfoldable pub say : Option String → State → Saying
say none to = of_move to
say (some s) to = if is_blank s then of_move to else words s

-- who moves a task, and what he says of it
pub record Speaker : Type 0 where
  pub actor : String
  pub action : Option String
  pub summary : Option String

-- an event of the stream; its url and its extra fields are left out
pub record LogEntry : Type 0 where
  pub actor : String
  pub action : Saying
  pub task_id : String
  pub summary : Saying

abbrev pub log_entry : Speaker → String → State → LogEntry
log_entry by i to = record {
  actor = by.actor;
  action = say by.action to;
  task_id = i;
  summary = say by.summary to;
}

-- The tasks, the event stream, and the states that `plan.sync_task_state` writes to plan.json.
pub record Store : Type 0 where
  pub tasks : List Task
  pub log : List LogEntry
  pub plan : List (String × State)

abbrev pub has_task_id : String → Task → Bool
has_task_id i t = t.task_id == i

unfoldable pub get_task : String → Store → Result Error Task
get_task i s = from_option (find? (has_task_id i) s.tasks) no_task

-- `list_tasks`, by the time of creation and then by name
abbrev pub created_first : Task → Task → Bool
created_first t u =
    precedes t.created_at u.created_at
    || t.created_at == u.created_at && precedes t.task_id u.task_id

abbrev pub in_project : Option String → Task → Bool
in_project none t = true
in_project (some project) t = is_blank project || t.project_id == project

unfoldable pub list_tasks : Option String → Store → List Task
list_tasks project s = order_by created_first (filter (in_project project) s.tasks)

-- a new task, in the state DRAFT unless another is given
unfoldable pub create_task : String → String → String → State → String → Store → Result Error Store
create_task now i project state detail s = do
  guard (is_state state) (invalid_transition (State.unknown "<new>") state)
  guard (not (any (has_task_id i) s.tasks)) duplicate_task
  let task : Task = record {
    task_id = i;
    project_id = project;
    exec_status = state;
    review_status = ReviewStatus.pending;
    rework_count = 0;
    detail = detail;
    remark = "";
    blocked_reason = "";
    created_at = now;
    updated_at = now;
  }
  ok (record s { tasks = s.tasks ++ task ∷ [] })

-- `update_task`, with the columns to set as a function; no row is a KeyError
unfoldable pub update_task : String → (Task → Task) → Store → Result Error Store
update_task i set_columns s = do
  guard (any (has_task_id i) s.tasks) no_task
  ok (record s { tasks = update (has_task_id i) set_columns s.tasks })

-- `_default_review_status`
unfoldable pub default_review_status : State → ReviewStatus
default_review_status State.reviewing = ReviewStatus.reviewing
default_review_status State.done = ReviewStatus.pass
default_review_status State.partial = ReviewStatus.partial
default_review_status State.rework = ReviewStatus.rework
default_review_status State.blocked = ReviewStatus.blocked
default_review_status _ = ReviewStatus.pending

-- the reason that is set when the caller gives none
unfoldable pub default_reason : State → Fields → String
default_reason State.blocked fields = or_else fields.remark ""
default_reason _ fields = ""

abbrev pub moved : String → State → Fields → Task → Task
moved now to fields t = record t {
  exec_status = to;
  review_status = or_else fields.review_status (default_review_status to);
  detail = or_else fields.detail t.detail;
  remark = or_else fields.remark t.remark;
  blocked_reason = or_else fields.blocked_reason (default_reason to fields);
  updated_at = now;
}

unfoldable pub transition : String → String → State → Fields → Store → Result Error Store
transition now i to fields s = do
  task ← get_task i s
  assert_transition task.exec_status to
  update_task i (moved now to fields) s

abbrev is_reviewing : State → Bool
is_reviewing State.reviewing = true
is_reviewing _ = false

-- the check that `bump_rework` makes of a task under review, and of no other
unfoldable pub check_bump : State → Result Error (Unit {0})
check_bump state =
    if is_reviewing state then assert_transition State.reviewing State.rework else ok tt

abbrev pub bumped : String → Fields → ℕ → Task → Task
bumped now fields count t = record t {
  rework_count = count;
  exec_status = resolve_rework_target count;
  review_status = ReviewStatus.rework;
  detail = or_else fields.detail t.detail;
  remark = or_else fields.remark t.remark;
  blocked_reason = or_else fields.blocked_reason t.blocked_reason;
  updated_at = now;
}

unfoldable pub bump_rework : String → String → Fields → Store → Result Error Store
bump_rework now i fields s = do
  task ← get_task i s
  let count = task.rework_count + 1
  check_bump task.exec_status
  update_task i (bumped now fields count) s

-- `events.append` and `plan.sync_task_state`
unfoldable pub log_move : Speaker → String → State → Task → Store → Store
log_move by i to updated s =
    let s1 = record s { log = s.log ++ log_entry by i to ∷ [] } in
    if is_blank updated.project_id then s1 else record s1 { plan = s1.plan ++ (i, to) ∷ [] }

-- what leaves `transition_and_log`: an exception before anything is stored, or the EventWriteError of
-- an event without an actor, behind which the move stays stored in these tables
pub data Failure : Type 0 where
  refused : Error → Failure
  event_failed : Store → Failure

unfoldable pub refusing : {A : Type 0} → Result Error A → Result Failure A
refusing (ok a) = ok a
refusing (err e) = err (refused e)

-- check, store, append to the event stream, write plan.json: in this order
unfoldable pub transition_and_log :
    String → String → State → Speaker → Fields → Store → Result Failure (Task × Store)
transition_and_log now i to by fields s = do
  task ← refusing (get_task i s)
  refusing (assert_transition task.exec_status to)
  s1 ← refusing (transition now i to fields s)
  updated ← refusing (get_task i s1)
  guard (not (is_blank by.actor)) (event_failed s1)
  ok (updated, log_move by i to updated s1)

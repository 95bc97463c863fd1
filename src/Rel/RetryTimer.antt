-- ===== src/Rel/RetryTimer.antt =====
-- fleet/rel/retry_timer.py: `scan`, with the helpers that it calls. Times are whole seconds; a moment
-- that lies ahead counts as now, and is as far below the limit, which is positive. The parsing of a
-- date is given, and what others do to the tasks before each of the scan's own changes.
use aidean_fleet.Common.{
  ℕ, suc, ◌-◌, ◌*◌, Bool, true, false, not, ◌&&◌, List, [], ◌∷◌, ◌++◌, Option, none, some, String,
  if◌then◌else◌, ltb, leb, any,
}
use aidean_fleet.Common.Text.{◌==◌, is_blank}
use aidean_fleet.Common.Outcome.{Result, ok, err, ◌>>=◌}
use aidean_fleet.Tasks.States.{State}
use aidean_fleet.Tasks.Store.{Task, Store, Fields, Speaker, Failure, transition_and_log, list_tasks}

-- DEFAULT_TASK_STUCK_SECONDS and ESCALATE_MULTIPLIER
abbrev pub default_task_stuck_seconds : ℕ
default_task_stuck_seconds = 1800

abbrev pub escalate_multiplier : ℕ
escalate_multiplier = 2

-- `task_stuck_seconds`, of the number in the settings, if it is one
unfoldable pub task_stuck_seconds : Option ℕ → ℕ
task_stuck_seconds none = default_task_stuck_seconds
task_stuck_seconds (some value) = if ltb 0 value then value else default_task_stuck_seconds

-- a row of the event stream
pub record Row : Type 0 where
  pub seq : ℕ
  pub timestamp : String
  pub action : String
  pub task_id : String

-- the last "task:doing" of the task: its time and its number
unfoldable pub doing_anchor : List Row → String → Option String → ℕ → Option String × ℕ
doing_anchor [] i time seq = (time, seq)
doing_anchor (r ∷ rows) i time seq =
    let found = doing_anchor rows i (some r.timestamp) r.seq in
    let skip = doing_anchor rows i time seq in
    if r.action == "task:doing" && r.task_id == i then found else skip

unfoldable pub stuck_marked_since : List Row → String → ℕ → Bool
stuck_marked_since rows i doing_seq =
    any (λ r. r.action == "task:stuck" && (r.task_id == i && ltb doing_seq r.seq)) rows

pub data Action : Type 0 where
  escalated_blocked marked_stuck : (task : String) → (elapsed : ℕ) → Action

-- an event that the scan appends
pub data Notice : Type 0 where
  stuck_escalated stuck : (task : String) → (elapsed : ℕ) → Notice

pub record Scanned : Type 0 where
  pub store : Store
  pub notices : List Notice
  pub actions : List Action

abbrev pub is_doing : State → Bool
is_doing State.doing = true
is_doing _ = false

-- `started_at or updated_at or created_at`
abbrev pub first_text : String → String → String
first_text s t = if is_blank s then t else s

abbrev pub text_or_none : Option String → String
text_or_none none = ""
text_or_none (some s) = s

-- `datetime.fromisoformat`: a ValueError, a date without a time zone, or one with it
pub data Moment : Type 0 where
  unreadable naive : Moment
  aware : ℕ → Moment

-- the TypeError of the clock minus a date without a time zone, or an exception of the tasks
pub data ScanError : Type 0 where
  no_zone : ScanError
  of_tasks : Failure → ScanError

unfoldable pub from_tasks : {A : Type 0} → Result Failure A → Result ScanError A
from_tasks (ok a) = ok a
from_tasks (err e) = err (of_tasks e)

-- what is given: the parsing of a date, the clock, its text, the limit and the stream, and what others
-- have made of the tasks when the n-th task of the list has its turn
pub record Watch : Type 0 where
  pub from_iso : String → Moment
  pub meanwhile : ℕ → Store → Store
  pub now : ℕ
  pub stamp : String
  pub summary_of : String → ℕ → String
  pub limit : ℕ
  pub rows : List Row

module _ (w : Watch) where
  unfoldable pub raw_start : Task → String
  raw_start t =
      let (started, seq) = doing_anchor w.rows t.task_id none 0 in
      first_text (text_or_none started) (first_text t.updated_at t.created_at)

  -- how long a task is DOING: a date that cannot be read is passed over, one without a time zone is not
  unfoldable pub elapsed_of : Task → Result ScanError (Option ℕ)
  elapsed_of t = elim (w.from_iso (raw_start t)) [
    | unreadable ↦ ok none
    | naive ↦ err no_zone
    | aware started ↦ ok (some (w.now - started))
  ]

  -- what is to be done with a task
  pub data Step : Type 0 where
    leave : Step
    mark escalate : (elapsed : ℕ) → Step

  unfoldable pub step_of_elapsed : Task → ℕ → Step
  step_of_elapsed t elapsed =
      let (started, doing_seq) = doing_anchor w.rows t.task_id none 0 in
      if ltb elapsed w.limit
      then leave
      else if leb (w.limit * escalate_multiplier) elapsed
      then escalate elapsed
      else if stuck_marked_since w.rows t.task_id doing_seq
      then leave
      else mark elapsed

  abbrev pub step_after : Task → Option ℕ → Step
  step_after t none = leave
  step_after t (some elapsed) = step_of_elapsed t elapsed

  unfoldable pub step_of : Task → Result ScanError Step
  step_of t =
      if not (is_doing t.exec_status)
      then ok leave
      else do elapsed ← elapsed_of t; ok (step_after t elapsed)

  abbrev pub stuck_fields : Fields
  stuck_fields = record {
    detail = none;
    remark = none;
    blocked_reason = some "stuck_timeout";
    review_status = none;
  }

  -- who escalates; the summary is a text on the task and the time
  abbrev pub rel : String → ℕ → Speaker
  rel i elapsed = record { actor = "rel"; action = none; summary = some (w.summary_of i elapsed) }

  -- one round of the loop
  unfoldable pub take_step : Task → Step → Scanned → Result ScanError Scanned
  take_step t leave s = ok s
  take_step t (mark elapsed) s = ok record s {
    notices = s.notices ++ stuck t.task_id elapsed ∷ [];
    actions = s.actions ++ marked_stuck t.task_id elapsed ∷ [];
  }
  take_step t (escalate elapsed) s = do
    written ← from_tasks (
        transition_and_log w.stamp t.task_id State.blocked (rel t.task_id elapsed) stuck_fields
          s.store)
    ok record s {
      store = written.1;
      notices = s.notices ++ stuck_escalated t.task_id elapsed ∷ [];
      actions = s.actions ++ escalated_blocked t.task_id elapsed ∷ [];
    }

  unfoldable pub scan_each : ℕ → List Task → Scanned → Result ScanError Scanned
  scan_each n [] s = ok s
  scan_each n (t ∷ tasks) s = do
    step ← step_of t
    s1 ← take_step t step (record s { store = w.meanwhile n s.store })
    scan_each (suc n) tasks s1

  unfoldable pub scan : Option String → Store → Result ScanError Scanned
  scan project store =
      scan_each 0 (list_tasks project store) record { store = store; notices = []; actions = [] }

-- ===== src/Kernel/Writeback.antt =====
-- `transition` of fleet/kernel/kernel.py: the one way to write back the result of a turn.
use aidean_fleet.Common.{
  ℕ, Bool, not, ◌&&◌, ◌||◌, List, [], ◌∷◌, none, some, String, if◌then◌else◌, ltb, leb, eqb,
  or_else, any, count, update, is_empty,
}
use aidean_fleet.Common.Outcome.{Result, ok, err, ◌>>=◌, ◌>>◌, guard}
use aidean_fleet.Kernel.State.{
  Status, in_flight, is_settled, is_verifying, Verdict, is_verdict, is_done_verdict, Successor,
  TurnResult,
}
use aidean_fleet.Kernel.Tables.{
  GoalStatus, Todo, PlanDecision, Attempt, EventKind, Db, Env, Config, Error, bad_verdict,
  bad_status, not_verifying, no_evidence,
}
use aidean_fleet.Kernel.Sql.{
  text_or, get, event, insert_todo, set_todo, set_goal, of_todo, is_none, close_open_attempt,
}
use aidean_fleet.Common.Text.{◌==◌, is_blank, append}
use aidean_fleet.Kernel.Quota.{charge}
use aidean_fleet.Kernel.Lease.{reread}

-- the UPDATE that every verdict makes
abbrev pub settle_row : Env → Status → Todo → Todo
settle_row env s t = record t { status = s; updated_at = env.stamp; claim_expires_at = 0 }

-- `SELECT MAX(id) FROM attempts WHERE todo_id=?`; ids begin at 1, so 0 is no row
unfoldable pub last_attempt : String → List Attempt → ℕ
last_attempt i [] = 0
last_attempt i (a ∷ rows) =
    let rest = last_attempt i rows in if of_todo i a && ltb rest a.id then a.id else rest

unfoldable pub is_just_done : String → ℕ → Attempt → Bool
is_just_done i last a =
    of_todo i a && (not (is_none a.ended_at) && (a.turn_result == "done" && eqb a.id last))

-- the UPDATE that puts the outcome of the turn into the attempt that it has just closed
abbrev pub with_outcome : TurnResult → Attempt → Attempt
with_outcome result a = record a {
  exit_code = result.exit_code;
  tokens_in = result.tokens_in;
  tokens_out = result.tokens_out;
  evidence_path = result.evidence_path;
  session_id = result.session_id;
}

unfoldable pub record_outcome : String → TurnResult → Db → Db
record_outcome i result db = record db {
  attempts = update (is_just_done i (last_attempt i db.attempts)) (with_outcome result) db.attempts;
}

abbrev pub is_unfinished : String → Todo → Bool
is_unfinished g t = t.goal_id == g && not (is_settled t.status)

unfoldable pub unfinished : String → Db → ℕ
unfinished g db = count (is_unfinished g) db.todos

unfoldable pub set_goal_done : Env → String → Db → Db
set_goal_done env g db =
    let db1 = set_goal g (λ r. record r { status = GoalStatus.done }) db in
    event env EventKind.goal_done "" g db1

unfoldable pub finish_goal : Env → String → Db → Db
finish_goal env g db = if eqb (unfinished g db) 0 then set_goal_done env g db else db

-- the test that a todo with no command to verify it has evidence
abbrev pub is_credible : Todo → TurnResult → Bool
is_credible todo result =
    not (todo.kind == "exec" && (is_empty todo.verify && is_blank result.evidence_path))

unfoldable pub write_done : Env → Todo → TurnResult → Db → Db
write_done env todo result db =
    let i = todo.id in
    let db1 = set_todo i (settle_row env Status.done) db in
    let db2 = close_open_attempt env i "done" db1 in
    let db3 = record_outcome i result db2 in
    let kind =
      EventKind.todo_done result.note result.evidence_path result.tokens_in result.tokens_out in
    let db4 = event env kind i todo.goal_id db3 in
    let db5 = charge env (text_or (some todo.role) "global") 1 db4 in
    finish_goal env todo.goal_id db5

-- `_lineage_attempts`
unfoldable pub lineage_attempts : String → Db → ℕ
lineage_attempts lineage db =
    count (λ a. any (λ t. t.lineage == lineage && t.id == a.todo_id) db.todos) db.attempts

unfoldable pub successor_todo : Env → String → Todo → Successor → Todo
successor_todo env new_id todo spec = record {
  id = new_id;
  goal_id = todo.goal_id;
  kind = or_else spec.kind todo.kind;
  title = or_else spec.title (append todo.title "（返工）");
  role = or_else spec.role todo.role;
  depends_on = or_else spec.depends_on [];
  allowed_files = or_else spec.allowed_files todo.allowed_files;
  verify = or_else spec.verify todo.verify;
  done_when = or_else spec.done_when todo.done_when;
  packet = or_else spec.packet todo.packet;
  workspace = or_else spec.workspace todo.workspace;
  status = Status.opened;
  lineage = todo.lineage;
  attempt_count = 0;
  successor_of = todo.id;
  claimed_by = "";
  claim_expires_at = 0;
  plan_decision = PlanDecision.none;
  created_at = env.stamp;
  updated_at = env.stamp;
}

-- a verdict that only sets the status, closes the attempt and says so
unfoldable pub write_status : Env → Status → String → EventKind → Todo → Db → Db
write_status env s turn_result kind todo db =
    let db1 = set_todo todo.id (settle_row env s) db in
    let db2 = close_open_attempt env todo.id turn_result db1 in
    event env kind todo.id todo.goal_id db2

-- below the limit: the todo is superseded by a new one of its lineage
unfoldable pub make_successor : Env → Todo → TurnResult → Db → Result Error Db
make_successor env todo result db = do
  let db1 = set_todo todo.id (settle_row env Status.superseded) db
  let db2 = close_open_attempt env todo.id "successor" db1
  let new_id = text_or result.successor.id (env.fresh 0)
  db3 ← insert_todo (successor_todo env new_id todo result.successor) db2
  let kind = EventKind.todo_successor (some new_id) result.note
  ok (event env kind todo.id todo.goal_id db3)

unfoldable pub write_successor : Config → Env → Todo → TurnResult → Db → Result Error Db
write_successor cfg env todo result db =
    if leb cfg.lineage_limit (lineage_attempts todo.lineage db)
    then ok (
        write_status env Status.needs_user "needs_user"
          (EventKind.todo_needs_user (some cfg.lineage_limit) result.note) todo db)
    else make_successor env todo result db

-- the branches on the verdict
unfoldable pub write_verdict : Config → Env → Verdict → Todo → TurnResult → Db → Result Error Db
write_verdict cfg env Verdict.done todo result db = do
  guard (is_credible todo result) no_evidence
  ok (write_done env todo result db)
write_verdict cfg env Verdict.successor todo result db = write_successor cfg env todo result db
write_verdict cfg env Verdict.blocked todo result db =
    ok (write_status env Status.blocked "blocked" (EventKind.todo_blocked result.note) todo db)
write_verdict cfg env Verdict.needs_user todo result db = ok (
    write_status env Status.needs_user "needs_user" (EventKind.todo_needs_user none result.note)
      todo db)
write_verdict cfg env (Verdict.other s) todo result db = err bad_verdict

unfoldable pub transition : Config → Env → String → TurnResult → Db → Result Error (Todo × Db)
transition cfg env i result db = do
  guard (is_verdict result.verdict) bad_verdict
  todo ← get i db
  guard (in_flight todo.status) bad_status
  guard (not (is_done_verdict result.verdict) || is_verifying todo.status) not_verifying
  db1 ← write_verdict cfg env result.verdict todo result db
  reread i db1

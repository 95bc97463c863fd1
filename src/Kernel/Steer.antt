-- ===== src/Kernel/Steer.antt =====
-- The change of plan of fleet/kernel/kernel.py: `propose_plan_diff` and `apply_plan_diff`.
use aidean_fleet.Common.{
  ℕ, suc, ◌+◌, Bool, true, false, not, ◌&&◌, ◌||◌, List, [], ◌∷◌, ◌++◌, map, Option, none, some,
  String, if◌then◌else◌, ltb, eqb, or_else, count, find?, length,
}
use aidean_fleet.Common.Outcome.{Result, ok, err, ◌>>=◌, ◌>>◌, guard}
use aidean_fleet.Kernel.State.{Status, in_flight, is_settled, is_done, is_needs_user}
use aidean_fleet.Kernel.Tables.{
  Goal, GoalStatus, Todo, PlanDecision, AddSpec, ModifySpec, PlanDiff, Decision, EventKind, Db, Env,
  Error, bad_decision, bad_status, decision_already_made,
}
use aidean_fleet.Kernel.Sql.{
  has_id, has_goal_id, get, event, insert_todo, set_todo, close_open_attempt,
}
use aidean_fleet.Common.Text.{◌==◌, is_blank, append}
use aidean_fleet.Kernel.Lease.{reread}
use aidean_fleet.Kernel.Writeback.{settle_row, unfinished, set_goal_done}

-- Python's `json` on a change of plan; `loads` is `none` on a JSONDecodeError.
pub record Json : Type 0 where
  pub dumps : PlanDiff → String
  pub loads : String → Option PlanDiff

unfoldable pub propose_plan_diff : Json → Env → String → PlanDiff → Db → Result Error Db
propose_plan_diff json env i diff db = do
  todo ← get i db
  guard (in_flight todo.status) bad_status
  let db1 =
      set_todo i
        (λ t. record t {
          status = Status.needs_user;
          plan_decision = PlanDecision.pending;
          packet = json.dumps diff;
          updated_at = env.stamp;
          claim_expires_at = 0;
        })
        db
  let db2 = close_open_attempt env i "needs_user" db1
  ok (event env (EventKind.plan_diff_proposed diff) i todo.goal_id db2)

abbrev empty_diff : PlanDiff
empty_diff = record { add = []; cancel = []; modify = [] }

-- the change that is decided on: the argument, or the todo's packet
unfoldable pub diff_of : Json → Option PlanDiff → Todo → PlanDiff
diff_of json (some diff) todo = diff
diff_of json none todo =
    or_else (json.loads (if is_blank todo.packet then "{}" else todo.packet)) empty_diff

-- `id_map`, newest entry first, with the number of identifiers made so far
unfoldable pub id_map : Env → List AddSpec → ℕ → List (String × String) → ℕ × List (String × String)
id_map env [] n m = (n, m)
id_map env (spec ∷ specs) n m =
    let blank = is_blank (or_else spec.id "") in
    id_map env specs (if blank then n else suc n)
      (if blank then m else (or_else spec.id "", env.fresh n) ∷ m)

unfoldable pub mapped : List (String × String) → String → Option String
mapped [] k = none
mapped ((j, v) ∷ m) k = if j == k then some v else mapped m k

-- `str(spec.get("id"))`
abbrev spec_key : AddSpec → String
spec_key spec = or_else spec.id "None"

unfoldable pub added_todo : Env → List (String × String) → Todo → String → String → AddSpec → Todo
added_todo env ids todo new_id lineage spec = record {
  id = new_id;
  goal_id = todo.goal_id;
  kind = "exec";
  title = or_else spec.title "新任务";
  role = or_else spec.role "";
  depends_on = map (λ d. or_else (mapped ids d) d) (or_else spec.depends_on []);
  allowed_files = or_else spec.allowed_files [];
  verify = or_else spec.verify [];
  done_when = or_else spec.done_when "";
  packet = append "steer_source=" todo.id;
  workspace = or_else spec.workspace todo.workspace;
  status = Status.opened;
  lineage = lineage;
  attempt_count = 0;
  successor_of = "";
  claimed_by = "";
  claim_expires_at = 0;
  plan_decision = PlanDecision.none;
  created_at = env.stamp;
  updated_at = env.stamp;
}

-- the loop over `add`; `n` identifiers have been made
unfoldable pub add_todos :
    Env → List (String × String) → Todo → List AddSpec → ℕ → Db → Result Error Db
add_todos env ids todo [] n db = ok db
add_todos env ids todo (spec ∷ specs) n db = do
  let known = mapped ids (spec_key spec)
  let new_id = or_else known (env.fresh n)
  let n1 : ℕ = elim known [ none ↦ suc n | some _ ↦ n ]
  db1 ← insert_todo (added_todo env ids todo new_id (env.fresh n1) spec) db
  let kind =
      EventKind.todo_created "exec" (or_else spec.title "新任务") (or_else spec.role "") (some todo.id)
  add_todos env ids todo specs (suc n1) (event env kind new_id todo.goal_id db1)

-- what the loops over `cancel` and `modify` carry: `applied`, `skipped`, the tables
pub record Progress : Type 0 where
  pub applied : ℕ
  pub skipped : List String
  pub db : Db

-- the rows that a change of plan leaves alone: of another goal, its own, in flight
abbrev pub is_off_limits : Todo → String → Todo → Bool
is_off_limits todo target_id row =
    not (row.goal_id == todo.goal_id) || (target_id == todo.id || in_flight row.status)

unfoldable pub cancel_row : Env → Todo → String → Option Todo → Progress → Progress
cancel_row env todo target_id none p = p
cancel_row env todo target_id (some row) p =
    if is_settled row.status
    then p
    else if is_off_limits todo target_id row
    then record p { skipped = p.skipped ++ target_id ∷ [] }
    else record p {
      applied = p.applied + 1;
      db = event env (EventKind.todo_successor none todo.id) target_id todo.goal_id (
          set_todo target_id (λ t. record t { status = Status.superseded; updated_at = env.stamp })
            p.db);
    }

unfoldable pub cancel_todos : Env → Todo → List String → Progress → Progress
cancel_todos env todo [] p = p
cancel_todos env todo (c ∷ cs) p =
    cancel_todos env todo cs (cancel_row env todo c (find? (has_id c) p.db.todos) p)

abbrev pub is_some {ℓ} : {A : Type ℓ} → Option A → Bool
is_some none = false
is_some (some a) = true

abbrev pub has_fields : ModifySpec → Bool
has_fields m =
    is_some m.title
    || is_some m.done_when
    || is_some m.packet
    || is_some m.allowed_files
    || is_some m.verify

abbrev pub modified : Env → ModifySpec → Todo → Todo
modified env m t = record t {
  title = or_else m.title t.title;
  done_when = or_else m.done_when t.done_when;
  packet = or_else m.packet t.packet;
  allowed_files = or_else m.allowed_files t.allowed_files;
  verify = or_else m.verify t.verify;
  updated_at = env.stamp;
}

unfoldable pub modify_row : Env → Todo → ModifySpec → String → Option Todo → Progress → Progress
modify_row env todo m target_id none p = p
modify_row env todo m target_id (some row) p =
    if is_settled row.status
    then p
    else if is_off_limits todo target_id row
    then record p { skipped = p.skipped ++ target_id ∷ [] }
    else if has_fields m
    then record p { applied = p.applied + 1; db = set_todo target_id (modified env m) p.db }
    else p

-- `m.get("todo_id")` that is missing finds no row
unfoldable pub modify_target : Env → Todo → ModifySpec → Option String → Progress → Progress
modify_target env todo m none p = p
modify_target env todo m (some target_id) p =
    modify_row env todo m target_id (find? (has_id target_id) p.db.todos) p

unfoldable pub modify_todos : Env → Todo → List ModifySpec → Progress → Progress
modify_todos env todo [] p = p
modify_todos env todo (m ∷ ms) p = modify_todos env todo ms (modify_target env todo m m.todo_id p)

-- the three loops of an approved change
unfoldable pub apply_changes : Env → Todo → PlanDiff → Db → Result Error Progress
apply_changes env todo diff db = do
  let ids = id_map env diff.add 0 []
  db1 ← add_todos env ids.1 todo diff.add ids.0 db
  let added : Progress = record { applied = length diff.add; skipped = []; db = db1 }
  let cancelled = cancel_todos env todo diff.cancel added
  ok (modify_todos env todo diff.modify cancelled)

abbrev pub is_decision : Decision → Bool
is_decision (Decision.other s) = false
is_decision _ = true

abbrev pub is_undecided : PlanDecision → Bool
is_undecided PlanDecision.none = true
is_undecided PlanDecision.pending = true
is_undecided _ = false

unfoldable pub decide :
    Env → Todo → PlanDiff → Decision → Db → Result Error (PlanDecision × Progress)
decide env todo diff Decision.approve db = do
  p ← apply_changes env todo diff db
  ok (PlanDecision.approved, p)
decide env todo diff Decision.reject db =
    ok (PlanDecision.rejected, record { applied = 0; skipped = []; db = db })
decide env todo diff (Decision.other s) db = err bad_decision

abbrev pub is_active_goal : Option Goal → Bool
is_active_goal none = false
is_active_goal (some g) = elim g.status [ GoalStatus.active ↦ true | GoalStatus.done ↦ false ]

-- nothing of the goal is left, something was done, and the goal is not marked done
unfoldable pub is_complete : String → Db → Bool
is_complete g db =
    eqb (unfinished g db) 0
    && (ltb 0 (count (λ t. t.goal_id == g && is_done t.status) db.todos)
        && is_active_goal (find? (has_goal_id g) db.goals))

unfoldable pub close_goal : Env → String → Db → Db
close_goal env g db = if is_complete g db then set_goal_done env g db else db

abbrev pub decided_row : Env → PlanDecision → Todo → Todo
decided_row env d t = record t { plan_decision = d; updated_at = env.stamp }

-- the writes behind the decision; `auto_path` is that the todo is still in flight
unfoldable pub finish_plan : Env → Todo → Bool → PlanDecision → Decision → String → Progress → Db
finish_plan env todo true new_decision decision actor p =
    let db1 = set_todo todo.id (decided_row env new_decision) p.db in
    event env (EventKind.plan_decided decision p.applied actor p.skipped) todo.id todo.goal_id db1
finish_plan env todo false new_decision decision actor p =
    let db1 = set_todo todo.id (decided_row env new_decision) p.db in
    let db2 = set_todo todo.id (settle_row env Status.superseded) db1 in
    let kind = EventKind.plan_decided decision p.applied actor p.skipped in
    close_goal env todo.goal_id (event env kind todo.id todo.goal_id db2)

-- the event that a change in flight is announced by
unfoldable pub announce : Env → Todo → Bool → PlanDiff → Db → Db
announce env todo true change db =
    event env (EventKind.plan_diff_proposed change) todo.id todo.goal_id db
announce env todo false change db = db

unfoldable pub apply_plan_diff :
    Json → Env → String → Decision → Option PlanDiff → String → Db → Result Error (Todo × Db)
apply_plan_diff json env i decision diff actor db = do
  guard (is_decision decision) bad_decision
  todo ← get i db
  guard (is_undecided todo.plan_decision) decision_already_made
  guard (is_needs_user todo.status || in_flight todo.status) bad_status
  let change = diff_of json diff todo
  let auto_path = not (is_needs_user todo.status)
  outcome ← decide env todo change decision (announce env todo auto_path change db)
  reread i (finish_plan env todo auto_path outcome.0 decision actor outcome.1)

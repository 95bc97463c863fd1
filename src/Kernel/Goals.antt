-- ===== src/Kernel/Goals.antt =====
-- The methods of fleet/kernel/kernel.py that make and freeze goals, and that make todos.
use aidean_fleet.Common.{
  ℕ, Bool, true, false, not, List, [], map, Option, none, String, if◌then◌else◌, leb, filter,
}
use aidean_fleet.Common.Outcome.{Result, ok, ◌>>=◌, ◌>>◌, guard}
use aidean_fleet.Kernel.State.{todo_kinds, Status}
use aidean_fleet.Kernel.Tables.{
  Goal, GoalStatus, RequirementsState, Todo, PlanDecision, EventKind, Db, Env, Error, bad_kind,
  goal_already_frozen, requirements_not_ready,
}
use aidean_fleet.Kernel.Sql.{text_or, get_goal, event, insert_goal, insert_todo, set_goal}
use aidean_fleet.Common.Text.{
  is_in, is_blank, chars, first_chars, is_space, strip, strip_right, split_on, append,
}

-- FREEZE_MIN_REQUIREMENTS
abbrev pub freeze_min_requirements : ℕ
freeze_min_requirements = 10

new_goal : Env → String → String → String → String → RequirementsState → Goal
new_goal env gid title requirements workspace state = record {
  id = gid;
  title = title;
  status = GoalStatus.active;
  requirements = requirements;
  workspace = workspace;
  requirements_state = state;
  created_at = env.stamp;
}

unfoldable pub create_goal : Env → String → Option String → Db → Result Error (String × Db)
unfolding new_goal
create_goal env title goal_id db = do
  let gid = text_or goal_id env.fresh_goal
  db1 ← insert_goal (new_goal env gid title "" "" RequirementsState.frozen) db
  ok (gid, event env (EventKind.goal_created title) "" gid db1)

-- the row of `_insert_plan_todo`
unfoldable pub plan_todo : Env → String → String → String → String → String → String → Todo
plan_todo env tid gid role requirements workspace plan_title = record {
  id = tid;
  goal_id = gid;
  kind = "plan";
  title = plan_title;
  role = role;
  depends_on = [];
  allowed_files = [];
  verify = [];
  done_when = "产出的计划通过 schema 校验并写入";
  packet = requirements;
  workspace = workspace;
  status = Status.opened;
  lineage = tid;
  attempt_count = 0;
  successor_of = "";
  claimed_by = "";
  claim_expires_at = 0;
  plan_decision = PlanDecision.none;
  created_at = env.stamp;
  updated_at = env.stamp;
}

abbrev pub plan_title_of : String → String
plan_title_of title = append "拆解计划：" (first_chars 80 title)

unfoldable pub create_goal_with_plan :
    Env
    → String
    → String
    → String
    → String
    → Option String
    → Db
    → Result Error (String × String × Db)
unfolding new_goal
create_goal_with_plan env title requirements workspace role todo_id db = do
  let gid = env.fresh_goal
  let tid = text_or todo_id (env.fresh 0)
  let plan_title = plan_title_of title
  db1 ← insert_goal (new_goal env gid title requirements workspace RequirementsState.frozen) db
  db2 ← insert_todo (plan_todo env tid gid role requirements workspace plan_title) db1
  let db3 = event env (EventKind.goal_created title) "" gid db2
  let db4 = event env (EventKind.todo_created "plan" plan_title role none) tid gid db3
  ok (gid, tid, db4)

unfoldable pub create_goal_draft :
    Env → String → String → String → Option String → Db → Result Error (String × Db)
unfolding new_goal
create_goal_draft env title requirements workspace goal_id db = do
  let gid = text_or goal_id env.fresh_goal
  db1 ← insert_goal (new_goal env gid title requirements workspace RequirementsState.draft) db
  ok (gid, event env (EventKind.goal_created title) "" gid db1)

abbrev pub is_draft : RequirementsState → Bool
is_draft RequirementsState.draft = true
is_draft RequirementsState.frozen = false

-- `merged`: the old text, an empty line, the addition
unfoldable pub merge_requirements : String → String → String
merge_requirements requirements addition =
    let base = strip_right is_space requirements in
    if is_blank base then strip addition else append base (append "\n\n" (strip addition))

unfoldable pub append_goal_requirements : Env → String → String → Db → Result Error (Goal × Db)
append_goal_requirements env goal_id addition db = do
  goal ← get_goal goal_id db
  guard (is_draft goal.requirements_state) goal_already_frozen
  let merged = merge_requirements goal.requirements addition
  let db1 = set_goal goal_id (λ g. record g { requirements = merged }) db
  let db2 = event env (EventKind.goal_clarified (first_chars 200 addition)) "" goal_id db1
  goal_out ← get_goal goal_id db2
  ok (goal_out, db2)

unfoldable pub freeze_goal :
    Env → String → String → Option String → Db → Result Error (String × String × Goal × Db)
freeze_goal env goal_id role todo_id db = do
  let tid = text_or todo_id (env.fresh 0)
  goal ← get_goal goal_id db
  guard (is_draft goal.requirements_state) goal_already_frozen
  guard (leb freeze_min_requirements (chars (strip goal.requirements))) requirements_not_ready
  let plan_title = plan_title_of goal.title
  let db1 = set_goal goal_id (λ g. record g { requirements_state = RequirementsState.frozen }) db
  db2 ← insert_todo (plan_todo env tid goal_id role goal.requirements goal.workspace plan_title) db1
  let db3 = event env (EventKind.goal_frozen goal.title) "" goal_id db2
  let db4 = event env (EventKind.todo_created "plan" plan_title role none) tid goal_id db3
  goal_out ← get_goal goal_id db4
  ok (goal_id, tid, goal_out, db4)

-- `allowed_files` is a list, or a text with commas
pub data AllowedFiles : Type 0 where
  files : List String → AllowedFiles
  text : String → AllowedFiles

unfoldable pub allowed_list : AllowedFiles → List String
allowed_list (files xs) = xs
allowed_list (text s) = filter (λ item. not (is_blank item)) (map strip (split_on 44 s))

-- the arguments of `create_todo` with a default
pub record NewTodo : Type 0 where
  pub kind : String
  pub title : String
  pub role : String
  pub depends_on : List String
  pub allowed_files : AllowedFiles
  pub verify : List String
  pub done_when : String
  pub packet : String
  pub workspace : String
  pub todo_id : Option String

unfoldable pub new_todo : Env → String → String → NewTodo → Todo
new_todo env tid goal_id spec = record {
  id = tid;
  goal_id = goal_id;
  kind = spec.kind;
  title = spec.title;
  role = spec.role;
  depends_on = spec.depends_on;
  allowed_files = allowed_list spec.allowed_files;
  verify = spec.verify;
  done_when = spec.done_when;
  packet = spec.packet;
  workspace = spec.workspace;
  status = Status.opened;
  lineage = tid;
  attempt_count = 0;
  successor_of = "";
  claimed_by = "";
  claim_expires_at = 0;
  plan_decision = PlanDecision.none;
  created_at = env.stamp;
  updated_at = env.stamp;
}

unfoldable pub create_todo : Env → String → NewTodo → Db → Result Error (String × Db)
create_todo env goal_id spec db = do
  guard (is_in spec.kind todo_kinds) bad_kind
  let tid = text_or spec.todo_id (env.fresh 0)
  goal ← get_goal goal_id db
  db1 ← insert_todo (new_todo env tid goal_id spec) db
  let kind = EventKind.todo_created spec.kind spec.title spec.role none
  ok (tid, event env kind tid goal_id db1)

-- ===== src/Kernel/Consistency/Creation.antt =====
-- The methods that make goals and todos keep the tables consistent.
use aidean_fleet.Common.{◌≡◌, not, Option, String, leb, any, arith}
use aidean_fleet.Common.Outcome.{ok}
use aidean_fleet.Kernel.State.{todo_kinds}
use aidean_fleet.Kernel.Tables.{Goal, Todo, Db, Env}
use aidean_fleet.Kernel.Sql.{
  has_id, has_goal_id, get_goal, event, insert_goal, insert_todo, set_goal,
}
use aidean_fleet.Common.Outcome.{bind_ok, guard_ok, returned}
use aidean_fleet.Kernel.Consistency.Defs.{IsConsistent}
use aidean_fleet.Kernel.Consistency.Moves.{IsNew, IsConsistent-append}
use aidean_fleet.Kernel.Goals.{
  create_goal, plan_todo, create_goal_with_plan, create_goal_draft, append_goal_requirements,
  freeze_goal, is_draft, freeze_min_requirements, NewTodo, new_todo, create_todo,
}
use aidean_fleet.Common.Text.{is_in, chars, strip}

plan_todo-IsNew :
    (env : Env) (tid gid role req ws title : String)
    → IsNew (plan_todo env tid gid role req ws title)
unfolding plan_todo
plan_todo-IsNew env tid gid role req ws title = ground arith

new_todo-IsNew : (env : Env) (tid gid : String) (spec : NewTodo) → IsNew (new_todo env tid gid spec)
unfolding new_todo
new_todo-IsNew env tid gid spec = ground arith

pub insert_goal-IsConsistent :
    (g : Goal) (db : Db) {db' : Db} → insert_goal g db ≡ ok db' → IsConsistent db → IsConsistent db'
unfolding insert_goal
insert_goal-IsConsistent g db e c =
    guard_ok (not (any (has_goal_id g.id) db.goals)) _ e λ new k. returned IsConsistent _ k c

-- a new todo under a new key
pub insert_todo-IsConsistent :
    (t : Todo) (db : Db) {db' : Db}
    → IsNew t
    → insert_todo t db ≡ ok db'
    → IsConsistent db
    → IsConsistent db'
unfolding insert_todo
insert_todo-IsConsistent t db n e c = guard_ok (not (any (has_id t.id) db.todos)) _ e λ new k.
    guard_ok (any (has_goal_id t.goal_id) db.goals) _ k λ parent k'.
      returned IsConsistent _ k' (IsConsistent-append t db.todos db.attempts n (ground arith) c)

-- `create_goal` keeps the tables consistent.
pub create_goal-IsConsistent :
    (env : Env) (title : String) (gid : Option String) (db : Db) {r : String × Db}
    → create_goal env title gid db ≡ ok r
    → IsConsistent db
    → IsConsistent r.1
unfolding create_goal event
create_goal-IsConsistent env title gid db e c =
    bind_ok (insert_goal _ db) e
      λ db1 e1 k. returned (λ r. IsConsistent r.1) _ k (insert_goal-IsConsistent _ db e1 c)

-- `create_goal_with_plan` keeps the tables consistent.
pub create_goal_with_plan-IsConsistent :
    (env : Env) (title req ws role : String) (tid : Option String) (db : Db)
    {r : String × String × Db}
    → create_goal_with_plan env title req ws role tid db ≡ ok r
    → IsConsistent db
    → IsConsistent r.2
unfolding create_goal_with_plan event
create_goal_with_plan-IsConsistent env title req ws role tid db e c =
    bind_ok (insert_goal _ db) e λ db1 e1 k1. bind_ok (insert_todo _ db1) k1 λ db2 e2 k2.
      returned (λ r. IsConsistent r.2) _ k2
        (insert_todo-IsConsistent _ db1 (plan_todo-IsNew _ _ _ _ _ _ _) e2
          (insert_goal-IsConsistent _ db e1 c))

-- `create_goal_draft` keeps the tables consistent.
pub create_goal_draft-IsConsistent :
    (env : Env) (title req ws : String) (gid : Option String) (db : Db) {r : String × Db}
    → create_goal_draft env title req ws gid db ≡ ok r
    → IsConsistent db
    → IsConsistent r.1
unfolding create_goal_draft event
create_goal_draft-IsConsistent env title req ws gid db e c =
    bind_ok (insert_goal _ db) e
      λ db1 e1 k. returned (λ r. IsConsistent r.1) _ k (insert_goal-IsConsistent _ db e1 c)

-- `append_goal_requirements` keeps the tables consistent.
pub append_goal_requirements-IsConsistent :
    (env : Env) (g addition : String) (db : Db) {r : Goal × Db}
    → append_goal_requirements env g addition db ≡ ok r
    → IsConsistent db
    → IsConsistent r.1
unfolding append_goal_requirements set_goal event
append_goal_requirements-IsConsistent env g addition db e c =
    bind_ok (get_goal g db) e λ goal e1 k1.
      guard_ok (is_draft goal.requirements_state) _ k1
        λ fresh k2. bind_ok (get_goal g _) k2 λ out e2 k3. returned (λ r. IsConsistent r.1) _ k3 c

-- `freeze_goal` keeps the tables consistent.
pub freeze_goal-IsConsistent :
    (env : Env) (g role : String) (tid : Option String) (db : Db) {r : String × String × Goal × Db}
    → freeze_goal env g role tid db ≡ ok r
    → IsConsistent db
    → IsConsistent r.3
unfolding freeze_goal set_goal event
freeze_goal-IsConsistent env g role tid db e c = bind_ok (get_goal g db) e λ goal e1 k1.
    guard_ok (is_draft goal.requirements_state) _ k1 λ fresh k2.
      guard_ok (leb freeze_min_requirements (chars (strip goal.requirements))) _ k2 λ ready k3.
        bind_ok (insert_todo _ _) k3 λ db2 e2 k4. bind_ok (get_goal g _) k4 λ out e3 k5.
          returned (λ r. IsConsistent r.3) _ k5
            (insert_todo-IsConsistent _ _ (plan_todo-IsNew _ _ _ _ _ _ _) e2 c)

-- `create_todo` keeps the tables consistent.
pub create_todo-IsConsistent :
    (env : Env) (g : String) (spec : NewTodo) (db : Db) {r : String × Db}
    → create_todo env g spec db ≡ ok r
    → IsConsistent db
    → IsConsistent r.1
unfolding create_todo event
create_todo-IsConsistent env g spec db e c = guard_ok (is_in spec.kind todo_kinds) _ e λ known k0.
    bind_ok (get_goal g db) k0 λ goal e1 k1. bind_ok (insert_todo _ db) k1 λ db1 e2 k2.
      returned (λ r. IsConsistent r.1) _ k2
        (insert_todo-IsConsistent _ db (new_todo-IsNew _ _ _ _) e2 c)

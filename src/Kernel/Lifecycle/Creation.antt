-- ===== src/Kernel/Lifecycle/Creation.antt =====
-- The methods that make goals and todos add rows, and leave the others alone.
use aidean_fleet.Common.{◌≡◌, not, Option, String, leb, any}
use aidean_fleet.Common.Outcome.{ok}
use aidean_fleet.Kernel.State.{todo_kinds}
use aidean_fleet.Kernel.Tables.{Goal, Todo, Db, Env}
use aidean_fleet.Kernel.Sql.{
  has_id, has_goal_id, get_goal, event, insert_goal, insert_todo, set_goal,
}
use aidean_fleet.Common.Outcome.{bind_ok, guard_ok, returned}
use aidean_fleet.Kernel.Lifecycle.Defs.{Advances, Advances-refl, Advances-trans, Advances-append}
use aidean_fleet.Kernel.Goals.{
  create_goal, create_goal_with_plan, create_goal_draft, append_goal_requirements, freeze_goal,
  is_draft, freeze_min_requirements, NewTodo, create_todo,
}
use aidean_fleet.Common.Text.{is_in, chars, strip}

pub insert_goal-Advances :
    (g : Goal) (db : Db) {db' : Db} → insert_goal g db ≡ ok db' → Advances db.todos db'.todos
unfolding insert_goal
insert_goal-Advances g db e =
    guard_ok (not (any (has_goal_id g.id) db.goals)) _ e
      λ new k. returned (λ d. Advances db.todos d.todos) _ k (Advances-refl db.todos)

pub insert_todo-Advances :
    (t : Todo) (db : Db) {db' : Db} → insert_todo t db ≡ ok db' → Advances db.todos db'.todos
unfolding insert_todo
insert_todo-Advances t db e = guard_ok (not (any (has_id t.id) db.todos)) _ e λ new k.
    guard_ok (any (has_goal_id t.goal_id) db.goals) _ k
      λ parent k'. returned (λ d. Advances db.todos d.todos) _ k' (Advances-append db.todos t)

pub create_goal-Advances :
    (env : Env) (title : String) (gid : Option String) (db : Db) {r : String × Db}
    → create_goal env title gid db ≡ ok r
    → Advances db.todos r.1.todos
unfolding create_goal event
create_goal-Advances env title gid db e =
    bind_ok (insert_goal _ db) e
      λ db1 e1 k. returned (λ r. Advances db.todos r.1.todos) _ k (insert_goal-Advances _ db e1)

pub create_goal_with_plan-Advances :
    (env : Env) (title req ws role : String) (tid : Option String) (db : Db)
    {r : String × String × Db}
    → create_goal_with_plan env title req ws role tid db ≡ ok r
    → Advances db.todos r.2.todos
unfolding create_goal_with_plan event
create_goal_with_plan-Advances env title req ws role tid db e =
    bind_ok (insert_goal _ db) e λ db1 e1 k1. bind_ok (insert_todo _ db1) k1 λ db2 e2 k2.
      returned (λ r. Advances db.todos r.2.todos) _ k2
        (Advances-trans db.todos db1.todos db2.todos (insert_goal-Advances _ db e1)
          (insert_todo-Advances _ db1 e2))

pub create_goal_draft-Advances :
    (env : Env) (title req ws : String) (gid : Option String) (db : Db) {r : String × Db}
    → create_goal_draft env title req ws gid db ≡ ok r
    → Advances db.todos r.1.todos
unfolding create_goal_draft event
create_goal_draft-Advances env title req ws gid db e =
    bind_ok (insert_goal _ db) e
      λ db1 e1 k. returned (λ r. Advances db.todos r.1.todos) _ k (insert_goal-Advances _ db e1)

pub append_goal_requirements-Advances :
    (env : Env) (g addition : String) (db : Db) {r : Goal × Db}
    → append_goal_requirements env g addition db ≡ ok r
    → Advances db.todos r.1.todos
unfolding append_goal_requirements set_goal event
append_goal_requirements-Advances env g addition db e = bind_ok (get_goal g db) e λ goal e1 k1.
    guard_ok (is_draft goal.requirements_state) _ k1 λ fresh k2.
      bind_ok (get_goal g _) k2
        λ out e2 k3. returned (λ r. Advances db.todos r.1.todos) _ k3 (Advances-refl db.todos)

pub freeze_goal-Advances :
    (env : Env) (g role : String) (tid : Option String) (db : Db) {r : String × String × Goal × Db}
    → freeze_goal env g role tid db ≡ ok r
    → Advances db.todos r.3.todos
unfolding freeze_goal set_goal event
freeze_goal-Advances env g role tid db e = bind_ok (get_goal g db) e λ goal e1 k1.
    guard_ok (is_draft goal.requirements_state) _ k1 λ fresh k2.
      guard_ok (leb freeze_min_requirements (chars (strip goal.requirements))) _ k2 λ ready k3.
        bind_ok (insert_todo _ _) k3 λ db2 e2 k4. bind_ok (get_goal g _) k4 λ out e3 k5.
          returned (λ r. Advances db.todos r.3.todos) _ k5 (insert_todo-Advances _ _ e2)

pub create_todo-Advances :
    (env : Env) (g : String) (spec : NewTodo) (db : Db) {r : String × Db}
    → create_todo env g spec db ≡ ok r
    → Advances db.todos r.1.todos
unfolding create_todo event
create_todo-Advances env g spec db e = guard_ok (is_in spec.kind todo_kinds) _ e λ known k0.
    bind_ok (get_goal g db) k0 λ goal e1 k1.
      bind_ok (insert_todo _ db) k1
        λ db1 e2 k2. returned (λ r. Advances db.todos r.1.todos) _ k2 (insert_todo-Advances _ db e2)

-- ===== src/Runner/Planned.antt =====
-- What the planner writes for a worker are calls of the kernel.
use aidean_fleet.Common.{ℕ, suc, ◌≡◌, refl, subst, inl, inr, List, [], ◌∷◌, Bool, some, String}
use aidean_fleet.Common.Outcome.{Result, ok, err, bind_ok, Result-cases}
use aidean_fleet.Kernel.Tables.{Db, Env, Config, Decision}
use aidean_fleet.Kernel.Goals.{create_todo}
use aidean_fleet.Kernel.Steer.{Json}
use aidean_fleet.Kernel.Machine.{Call, perform, committed}
use aidean_fleet.Planner.Schema.{PlanTodo}
use aidean_fleet.Planner.Service.{
  map_ids, todo_of, kernel_result, apply_one, apply_each, apply_plan, Planner, run_plan_todo,
}
use aidean_fleet.Planner.Running.{run_plan_todo-writes}
use aidean_fleet.Planner.Steer.{Steerer, run_steer_todo}
use aidean_fleet.Planner.Steering.{run_steer_todo-Submits}
use aidean_fleet.Runner.Histories.{IsBehind, IsBehind-refl, IsBehind-trans, IsBehind-perform}

module _ (cfg : Config) (json : Json) where
  abbrev Behind : Db → Db → Type 0
  Behind = IsBehind cfg json

  -- a call that went through
  performed :
      (env : Env) (c : Call) (db : Db) {db' : Db}
      → perform cfg json env c db ≡ ok db'
      → Behind db db'
  performed env c db e =
      subst (λ t. Behind db (committed db t)) e (IsBehind-perform cfg json env c db)

  kernel_result_ok : {A : Type 0} (m : Result _ A) {a : A} → kernel_result m ≡ ok a → m ≡ ok a
  kernel_result_ok (ok a) e = cc
  kernel_result_ok (err x) e = cc

  apply_one-IsBehind :
      (env : Env) (goal : String) (base : List String) (ids : List (String × String))
      (spec : PlanTodo) (db : Db) {r : String × Db}
      → apply_one env goal base ids spec db ≡ ok r
      → Behind db r.1
  unfolding apply_one perform
  apply_one-IsBehind env goal base ids spec db e =
      bind_ok (map_ids ids spec.depends_on) e λ deps e1 k.
        performed env (Call.create_todo_call goal (todo_of base deps spec)) db
          (rw (kernel_result_ok (create_todo env goal (todo_of base deps spec) db) k) refl)

  apply_each-IsBehind :
      (envs : ℕ → Env) (goal : String) (base : List String) (n : ℕ) (specs : List PlanTodo)
      (ids : List (String × String)) (created : List String) (db : Db)
      → Behind db (apply_each envs goal base n specs ids created db).1
  unfolding apply_each
  apply_each-IsBehind envs goal base n [] ids created db = IsBehind-refl cfg json db
  apply_each-IsBehind envs goal base n (spec ∷ specs) ids created db =
      elim (Result-cases (apply_one (envs n) goal base ids spec db)) [
        | inr (x, e) ↦ rw (e, apply_each) (IsBehind-refl cfg json db)
        | inl (r, e) ↦
            rw (e, apply_each)
              (IsBehind-trans cfg json (apply_one-IsBehind (envs n) goal base ids spec db e)
                (apply_each-IsBehind envs goal base (suc n) specs _ _ r.1))
      ]

  pub run_plan_todo-IsBehind :
      (p : Planner) (show : ℕ → String) (envs : ℕ → Env) (i : String) (db : Db)
      → Behind db (run_plan_todo p show envs i db).1
  unfolding apply_plan
  run_plan_todo-IsBehind p show envs i db = elim (run_plan_todo-writes p show envs i db) [
    | inl same ↦ rw same (IsBehind-refl cfg json db)
    | inr h ↦ rw h.written (apply_each-IsBehind envs h.goal [] 0 h.plan.todos [] [] db)
  ]

  pub run_steer_todo-IsBehind :
      (s : Steerer) (env : Env) (auto : Bool) (i : String) (db : Db)
      → Behind db (run_steer_todo (record s { json = json }) env auto i db).1
  unfolding perform
  run_steer_todo-IsBehind s env auto i db =
      elim (run_steer_todo-Submits (record s { json = json }) env auto i db) [
        | inl same ↦ rw same (IsBehind-refl cfg json db)
        | inr h ↦ elim h.written [
          | inl proposed ↦ performed env (Call.propose_plan_diff_call h.todo.id h.diff) db proposed
          | inr (t, applied) ↦
              performed env
                (Call.apply_plan_diff_call h.todo.id Decision.approve (some h.diff) "console") db
                (rw applied refl)
        ]
      ]

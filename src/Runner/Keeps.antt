-- ===== src/Runner/Keeps.antt =====
-- What a worker leaves of the tables, whatever the models, the harnesses, the commands and the other
-- workers do.
use aidean_fleet.Common.{
  ℕ, zero, suc, ◌≡◌, refl, inl, inr, ◌||◌, List, [], ◌∷◌, Option, none, some, String, Bool-cases,
}
use aidean_fleet.Common.Text.{◌==◌, append}
use aidean_fleet.Common.Outcome.{Result, ok, err}
use aidean_fleet.Kernel.Tables.{Todo, Db, Config, Error}
use aidean_fleet.Kernel.Steer.{Json}
use aidean_fleet.Kernel.Machine.{Call, perform}
use aidean_fleet.Kernel.Reads.{Run, go, quota_exhausted, no_runnable_todo, should_run}
use aidean_fleet.Kernel.Views.{packet_for}
use aidean_fleet.Kernel.Consistency.Defs.{IsConsistent}
use aidean_fleet.Kernel.Consistency.Histories.{run_all_from-IsConsistent}
use aidean_fleet.Kernel.Lifecycle.Defs.{Advances}
use aidean_fleet.Kernel.Lifecycle.Histories.{run_all-Advances}
use aidean_fleet.Planner.Service.{PlannerError, Reply, answered, unavailable}
use aidean_fleet.Kernel.State.{TurnResult}
use aidean_fleet.Runner.Actions.{Action, Times, Outside, met}
use aidean_fleet.Runner.ModelWrite.{Outcome, Write, protocol_block}
use aidean_fleet.Runner.Worker.{
  Worker, Round, idle, writeback, Executor, harness, model_write, executor_name,
}
use aidean_fleet.Runner.Once.{
  renew, claim_as, start_running, start_verifying, read_packet, planned, beside, of_planner,
  run_planned, run_planning, renew_behind, finished, execute, run_exec, give_up, choose, run_other,
  run_todo, run_first, run_if, run_once, write_back, run_round, run_loop,
}
use aidean_fleet.Runner.Histories.{
  IsBehind, IsBehind-trans, IsBehind-run_all, Follows, Follows-bind, call-Follows, pure-Follows,
  raise-Follows, call_unit-Follows, attempt-Follows, read-Follows,
}
use aidean_fleet.Runner.Planned.{run_plan_todo-IsBehind, run_steer_todo-IsBehind}

beside_ok : {A : Type 0} (m : Result Error A) {db : Db} {r : A × Db} → beside db m ≡ ok r → r.1 ≡ db
beside_ok (ok a) e = cc e
beside_ok (err x) e = cc

of_planner-tables : (r : Result PlannerError TurnResult × Db) → (of_planner r).1 ≡ r.1
of_planner-tables (ok result, db) = refl
of_planner-tables (err e, db) = refl

module _ (w : Worker) (o : Outside) where
  abbrev Fine : {A : Type 0} → Action A → Type 0
  Fine m = Follows o.config o.json m

  renew-Fine : (n : ℕ) (i : String) → Fine (renew w o n i)
  unfolding renew perform
  renew-Fine n i = attempt-Follows o n (Call.renew_lease_call i w.name none) _ (λ env db. refl)

  claim_as-Fine : (todo : Todo) (h m : String) → Fine (claim_as w o todo h m)
  unfolding claim_as perform
  claim_as-Fine todo h m =
      call-Follows o 2 (Call.claim_call todo.id w.name none h m) _ (λ env db. refl)

  start_running-Fine : (todo : Todo) → Fine (start_running w o todo)
  unfolding start_running perform
  start_running-Fine todo =
      call_unit-Follows o 3 (Call.mark_running_call todo.id w.name) _ (λ env db. refl)

  start_verifying-Fine : (n : ℕ) (todo : Todo) → Fine (start_verifying w o n todo)
  unfolding start_verifying perform
  start_verifying-Fine n todo =
      call_unit-Follows o n (Call.mark_verifying_call todo.id w.name) _ (λ env db. refl)

  read_packet-Fine : (todo : Todo) → Fine (read_packet w o todo)
  unfolding read_packet
  read_packet-Fine todo = read-Follows o 4 _ (λ env db r e. beside_ok (packet_for todo.id db) e)

  planned-Fine :
      (n : ℕ) (run : Db → Result PlannerError TurnResult × Db)
      → ((db : Db) → IsBehind o.config o.json db (run db).1)
      → Fine (planned w o n run)
  unfolding planned
  planned-Fine n run h = record {
    behind = λ db.
        IsBehind-trans o.config o.json (IsBehind-run_all o.config o.json (o.times.others n) db)
          (rw (of_planner-tables (run (met o n db))) (h (met o n db)));
  }

  run_planned-Fine : (todo : Todo) → Fine (run_planned w o todo)
  unfolding run_planned
  run_planned-Fine todo = elim (Bool-cases (todo.kind == "plan")) [
    | inl plan ↦
        rw plan (planned-Fine 6 _ (run_plan_todo-IsBehind o.config o.json w.planner _ _ todo.id))
    | inr steer ↦
        rw steer (planned-Fine 6 _ (run_steer_todo-IsBehind o.config o.json w.steerer _ _ todo.id))
  ]

  run_planning-Fine :
      (todo claimed : Todo) (client : Option (String → Reply))
      → Fine (run_planning w o todo claimed client)
  unfolding run_planning
  run_planning-Fine todo claimed none = pure-Follows _ _ _
  run_planning-Fine todo claimed (some client) =
      Follows-bind _ _ _ _ (start_verifying-Fine 4 todo) λ verifying.
        Follows-bind _ _ _ _ (renew-Fine 5 todo.id)
          λ renewed. Follows-bind _ _ _ _ (run_planned-Fine todo) λ result. pure-Follows _ _ _

  renew_behind-Fine : (todo : Todo) (a : Reply) → Fine (renew_behind w o todo a)
  unfolding renew_behind
  renew_behind-Fine todo (unavailable why) = pure-Follows _ _ _
  renew_behind-Fine todo (answered reply) = renew-Fine 6 todo.id

  finished-Fine : (r : Option Outcome × List Write) → Fine (finished w o r)
  finished-Fine (none, files) = raise-Follows _ _ _
  finished-Fine (some outcome, files) = pure-Follows _ _ _

  execute-Fine :
      (todo : Todo) (model prompt : String) (e : Executor) → Fine (execute w o todo model prompt e)
  unfolding execute
  execute-Fine todo model prompt (harness name) = pure-Follows _ _ _
  execute-Fine todo model prompt (model_write client) =
      Follows-bind _ _ _ _ (renew-Fine 5 todo.id) λ before.
        Follows-bind _ _ _ _ (renew_behind-Fine todo (client (append prompt protocol_block)))
          λ behind. finished-Fine _

  run_exec-Fine : (todo : Todo) (model : String) (e : Executor) → Fine (run_exec w o todo model e)
  unfolding run_exec
  run_exec-Fine todo model e =
      Follows-bind _ _ _ _ (claim_as-Fine todo (executor_name e) model) λ claimed.
        Follows-bind _ _ _ _ (start_running-Fine todo) λ running.
          Follows-bind _ _ _ _ (read_packet-Fine todo) λ packet.
            Follows-bind _ _ _ _ (execute-Fine todo model _ e) λ work.
              Follows-bind _ _ _ _ (start_verifying-Fine 7 todo) λ verifying. pure-Follows _ _ _

  give_up-Fine :
      (todo : Todo) (chain : List String) (why : String) → Fine (give_up w o todo chain why)
  unfolding give_up
  give_up-Fine todo chain why =
      Follows-bind _ _ _ _ (claim_as-Fine todo "" "") λ claimed. pure-Follows _ _ _

  choose-Fine :
      (todo : Todo) (chain : List String) (model : String) (picked : Option String × String)
      (client : Option (String → Reply))
      → Fine (choose w o todo chain model picked client)
  unfolding choose
  choose-Fine todo chain model (some name, why) client = run_exec-Fine todo model (harness name)
  choose-Fine todo chain model (none, why) (some client) =
      run_exec-Fine todo model (model_write client)
  choose-Fine todo chain model (none, why) none = give_up-Fine todo chain why

  run_other-Fine : (todo : Todo) (model : String) → Fine (run_other w o todo model)
  unfolding run_other
  run_other-Fine todo model = Follows-bind _ _ _ _ (claim_as-Fine todo "planner" model) λ claimed.
      Follows-bind _ _ _ _ (start_running-Fine todo) λ running.
        elim (Bool-cases (todo.kind == "plan" || todo.kind == "steer")) [
          | inl planning ↦ rw planning (run_planning-Fine todo claimed w.planner_client)
          | inr other ↦ rw other (raise-Follows _ _ _)
        ]

  run_todo-Fine : (todo : Todo) → Fine (run_todo w o todo)
  unfolding run_todo
  run_todo-Fine todo = elim (Bool-cases (todo.kind == "exec")) [
    | inl exec ↦ rw exec (choose-Fine todo _ _ _ w.planner_client)
    | inr other ↦ rw other (run_other-Fine todo _)
  ]

  run_first-Fine : (todos : List Todo) → Fine (run_first w o todos)
  unfolding run_first
  run_first-Fine [] = pure-Follows _ _ _
  run_first-Fine (todo ∷ rest) = run_todo-Fine todo

  run_if-Fine : (run : Run) → Fine (run_if w o run)
  unfolding run_if perform
  run_if-Fine go =
      Follows-bind _ _ _ _ (call-Follows o 1 (Call.claimable_call none none) _ (λ env db. refl))
        λ todos. run_first-Fine todos
  run_if-Fine (quota_exhausted key) = pure-Follows _ _ _
  run_if-Fine no_runnable_todo = pure-Follows _ _ _

  pub run_once-Follows : Fine (run_once w o)
  unfolding run_once perform should_run
  run_once-Follows =
      Follows-bind _ _ _ _ (call-Follows o 0 (Call.claimable_call none none) _ (λ env db. refl))
        λ run. run_if-Fine run

  write_back-Fine : (round : Round) → Fine (write_back w o round)
  unfolding perform
  write_back-Fine (idle why) = pure-Follows _ _ _
  write_back-Fine (writeback i result claimed stored) =
      Follows-bind _ _ _ _ (call-Follows o 8 (Call.transition_call i result) _ (λ env db. refl))
        λ row. pure-Follows _ _ _

  pub run_round-Follows : Fine (run_round w o)
  unfolding run_round
  run_round-Follows = Follows-bind _ _ _ _ run_once-Follows λ round. write_back-Fine round

module _ (cfg : Config) (json : Json) (w : ℕ → Worker) (times : ℕ → Times) where
  run_loop-Follows : (n max_rounds : ℕ) → Follows cfg json (run_loop cfg json w times n max_rounds)
  unfolding run_loop
  run_loop-Follows n zero = pure-Follows _ _ _
  run_loop-Follows n (suc max_rounds) =
      Follows-bind _ _ _ _
        (run_round-Follows (w n) record { config = cfg; json = json; times = times n })
        λ done. run_loop-Follows (suc n) max_rounds

  -- From consistent tables, any number of rounds of a worker leaves consistent tables, in which every
  -- todo is still there and its status has gone along a chain of edges, which keeps those that are
  -- done or superseded as they are: whatever the models, harnesses and commands answer, whatever the
  -- other workers call before each call of this one (inside `run_plan_todo` and `run_steer_todo`
  -- nobody else calls), and also when the loop ends with an exception.
  pub run_loop-IsConsistent :
      (max_rounds : ℕ) (db : Db)
      → IsConsistent db
      → IsConsistent (run_loop cfg json w times 0 max_rounds db).1
        × Advances db.todos (run_loop cfg json w times 0 max_rounds db).1.todos
  run_loop-IsConsistent max_rounds db c =
      let h = (run_loop-Follows 0 max_rounds).behind db in
      rw h.reached
        (run_all_from-IsConsistent cfg json h.calls db c, run_all-Advances cfg json h.calls db c)

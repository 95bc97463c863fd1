-- ===== src/Runner/Backed.antt =====
-- What stands behind a result that a round of a worker writes back.
use aidean_fleet.Common.{
  ◌≡◌, refl, ◌⊎◌, inl, inr, true, false, ◌||◌, List, ◌∷◌, Option, none, some, String, is_empty,
  Bool-cases, arith,
}
use aidean_fleet.Common.Text.{◌==◌}
use aidean_fleet.Common.Outcome.{Result, ok, err}
use aidean_fleet.Kernel.State.{is_done_verdict, TurnResult}
use aidean_fleet.Kernel.Tables.{Todo, Db, Env, Config, bad_status}
use aidean_fleet.Kernel.Reads.{go, should_run, claimable}
use aidean_fleet.Kernel.Writeback.{transition}
use aidean_fleet.Planner.Service.{PlannerError, Reply}
use aidean_fleet.Runner.Actions.{Action, pure, Outside, met}
use aidean_fleet.Runner.Verified.{all_succeed, run_verify_iff}
use aidean_fleet.Runner.ModelWrite.{Outcome, Write}
use aidean_fleet.Runner.Worker.{
  Worker, Round, idle, writeback, Stored, Executor, harness, model_write, workspace_of, gate_of,
  exec_turn,
}
use aidean_fleet.Runner.Once.{
  planned, run_planned, run_planning, of_planner, with_evidence, run_exec, give_up, choose,
  run_other, run_todo,
}
use aidean_fleet.Runner.Posts.{
  Holds, Ensures, pure-Ensures, raise-Ensures, bind-Ensures, then-Ensures,
}
use aidean_fleet.Runner.Proposals.{
  is_asking, IsSettled, run_steer_todo-IsSettled, run_plan_todo-IsSettled,
}

-- every command of the todo ended with code 0, and there was one; the report is kept as evidence
pub record HasPassed (w : Worker) (todo : Todo) (result : TurnResult) (stored : Stored)
    : Type 0 where
  pub has_commands : is_empty todo.verify ≡ false
  pub succeeded : all_succeed (w.ran (workspace_of w todo)) 0 todo.verify ≡ true
  pub output : String
  pub kept : stored.evidence ≡ some (result.evidence_path, gate_of w todo, output)

-- the tables that the second reading of a round meets, which began with these
abbrev pub second_met : Outside → Db → Db
second_met o db = met o 1 (should_run (o.times.clock 0) (met o 0 db)).1

-- the todo that a result is about: the first that `claimable` listed in a round that began with these
-- tables
pub record IsListed (o : Outside) (db : Db) (todo : Todo) : Type 0 where
  pub may_run : (should_run (o.times.clock 0) (met o 0 db)).0 ≡ go
  pub rest : List Todo
  pub first : (claimable (o.times.clock 1) none none (second_met o db)).0 ≡ todo ∷ rest

pub record IsBacked (w : Worker) (o : Outside) (db : Db) (i : String) (result : TurnResult)
    (stored : Stored) : Type 0 where
  pub todo : Todo
  pub named : todo.id ≡ i
  pub listed : IsListed o db todo
  pub passed : ((todo.kind == "exec") ≡ false) ⊎ HasPassed w todo result stored

-- what a round returns: where it says done, that is backed; where it asks the user, the kernel refuses it
abbrev pub IsSound : Worker → Outside → Db → Round → Db → Type 0
IsSound w o start (idle why) db = Unit
IsSound w o start (writeback i result claimed stored) db =
    (is_done_verdict result.verdict ≡ true → IsBacked w o start i result stored)
    × (is_asking result.verdict ≡ true
        → (cfg : Config) (env : Env) → transition cfg env i result db ≡ err bad_status)

exec_turn-done :
    (w : Worker) (todo : Todo) (e : Executor) (outcome : Outcome)
    → is_done_verdict (exec_turn w todo e outcome).1.verdict ≡ true
    → ((gate_of w todo).passed ≡ true)
      × ((exec_turn w todo e outcome).0 ≡ gate_of w todo)
      × ((exec_turn w todo e outcome).1.evidence_path ≡ w.evidence_dir todo.id)
unfolding exec_turn
exec_turn-done w todo e outcome h = ground arith

exec_turn-HasPassed :
    (w : Worker) (todo : Todo) (e : Executor) (outcome : Outcome) (files : List Write)
    → is_done_verdict (exec_turn w todo e outcome).1.verdict ≡ true
    → HasPassed w todo (exec_turn w todo e outcome).1 record {
      files = files;
      evidence = some (w.evidence_dir todo.id, (exec_turn w todo e outcome).0, outcome.output);
    }
unfolding gate_of
exec_turn-HasPassed w todo e outcome files h =
    let (good, report, dir) = exec_turn-done w todo e outcome h in
    let passes =
      (run_verify_iff w.shown w.timeout (w.ran (workspace_of w todo)) todo.verify).0.0 good in
    record {
      has_commands = passes.0;
      succeeded = passes.1;
      output = outcome.output;
      kept = rw (report, dir) refl;
    }

module _ (w : Worker) (o : Outside) where
  -- a result that does not ask the user
  not_asking :
      (i : String) (result : TurnResult) (db : Db)
      → is_asking result.verdict ≡ false
      → is_asking result.verdict ≡ true
      → (cfg : Config) (env : Env) → transition cfg env i result db ≡ err bad_status
  not_asking i result db no_question h = cc (h, no_question)

  exec_turn-not_asking :
      (todo : Todo) (e : Executor) (outcome : Outcome)
      → is_asking (exec_turn w todo e outcome).1.verdict ≡ false
  unfolding exec_turn
  exec_turn-not_asking todo e outcome = ground arith

  module _ (start : Db) (todo : Todo) (listed : IsListed o start todo) where
    abbrev pub Sound : Action Round → Type 0
    Sound m = Ensures m (IsSound w o start)

    with_evidence-IsSound :
        (claimed : Todo) (e : Executor) (work : Outcome × List Write) (db : Db)
        → IsSound w o start (with_evidence w o todo claimed e work) db
    with_evidence-IsSound claimed e (outcome, files) db = (
      λ h. record {
        todo = todo;
        named = refl;
        listed = listed;
        passed = inr (exec_turn-HasPassed w todo e outcome files h);
      },
      not_asking todo.id _ db (exec_turn-not_asking todo e outcome),
    )

    run_exec-Sound : (model : String) (e : Executor) → Sound (run_exec w o todo model e)
    unfolding run_exec
    run_exec-Sound model e = then-Ensures _ _ λ claimed. then-Ensures _ _ λ running.
        then-Ensures _ _ λ packet. then-Ensures _ _ λ work.
          then-Ensures _ _ λ verifying. pure-Ensures _ (with_evidence-IsSound claimed e work)

    give_up-Sound : (chain : List String) (why : String) → Sound (give_up w o todo chain why)
    unfolding give_up
    give_up-Sound chain why =
        then-Ensures _ _ λ claimed. pure-Ensures _ (λ db. (λ h. cc h, λ h. cc h))

    choose-Sound :
        (chain : List String) (model : String) (picked : Option String × String)
        (client : Option (String → Reply))
        → Sound (choose w o todo chain model picked client)
    unfolding choose
    choose-Sound chain model (some name, why) client = run_exec-Sound model (harness name)
    choose-Sound chain model (none, why) (some client) = run_exec-Sound model (model_write client)
    choose-Sound chain model (none, why) none = give_up-Sound chain why

    -- what the planner returns is settled in the tables that it leaves
    abbrev PlannedWell : TurnResult → Db → Type 0
    PlannedWell result db =
        is_asking result.verdict ≡ true
        → (cfg : Config) (env : Env) → transition cfg env todo.id result db ≡ err bad_status

    of_planner-Holds :
        (r : Result PlannerError TurnResult × Db)
        → IsSettled todo.id r
        → Holds PlannedWell (of_planner r)
    of_planner-Holds (ok result, db) h = h
    of_planner-Holds (err e, db) h = tt

    run_planned-PlannedWell : Ensures (run_planned w o todo) PlannedWell
    unfolding run_planned planned
    run_planned-PlannedWell = elim (Bool-cases (todo.kind == "plan")) [
      | inl plan ↦ rw plan record {
        holds = λ db. of_planner-Holds _ (
            run_plan_todo-IsSettled w.planner w.shown.number o.times.planner_clock todo.id
              (met o 6 db));
      }
      | inr steer ↦ rw steer record {
        holds = λ db. of_planner-Holds _ (
            run_steer_todo-IsSettled (record w.steerer { json = o.json }) (o.times.planner_clock 0)
              w.scheduler_is_auto todo.id (met o 6 db));
      }
    ]

    module _ (other : (todo.kind == "exec") ≡ false) where
      otherwise-IsBacked :
          (result : TurnResult) (stored : Stored) → IsBacked w o start todo.id result stored
      otherwise-IsBacked result stored = record {
        todo = todo;
        named = refl;
        listed = listed;
        passed = inl other;
      }

      run_planning-Sound :
          (claimed : Todo) (client : Option (String → Reply))
          → Sound (run_planning w o todo claimed client)
      unfolding run_planning pure
      run_planning-Sound claimed none = record { holds = λ db. (λ h. cc h, λ h. cc h) }
      run_planning-Sound claimed (some client) = then-Ensures _ _ λ verifying.
          then-Ensures _ _ λ renewed.
            bind-Ensures PlannedWell _ _ run_planned-PlannedWell
              λ result db well. (λ h. otherwise-IsBacked result _, well)

      run_other-Sound : (model : String) → Sound (run_other w o todo model)
      unfolding run_other
      run_other-Sound model = then-Ensures _ _ λ claimed. then-Ensures _ _ λ running.
          elim (Bool-cases (todo.kind == "plan" || todo.kind == "steer")) [
            | inl planning ↦ rw planning (run_planning-Sound claimed w.planner_client)
            | inr neither ↦ rw neither (raise-Ensures _)
          ]

    pub run_todo-Sound : Sound (run_todo w o todo)
    unfolding run_todo
    run_todo-Sound = elim (Bool-cases (todo.kind == "exec")) [
      | inl exec ↦ rw exec (choose-Sound _ _ _ w.planner_client)
      | inr other ↦ rw other (run_other-Sound other _)
    ]

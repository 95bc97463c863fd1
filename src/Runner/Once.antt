-- ===== src/Runner/Once.antt =====
-- `run_once` and `run_loop` of fleet/runner/worker.py: the order of the calls. The calls of the kernel
-- in a round are numbered. `_run_planner` and `_run_steer` stand in `run_planned`.
use aidean_fleet.Common.{
  ℕ, zero, suc, ◌||◌, List, [], ◌∷◌, Option, none, some, String, if◌then◌else◌,
}
use aidean_fleet.Common.Text.{◌==◌, append}
use aidean_fleet.Common.Outcome.{Result, ok, err}
use aidean_fleet.Kernel.State.{Verdict, TurnResult}
use aidean_fleet.Kernel.Tables.{Todo, Db, Config, Error}
use aidean_fleet.Kernel.Steer.{Json}
use aidean_fleet.Kernel.Lease.{claim, renew_lease, mark_running, mark_verifying}
use aidean_fleet.Kernel.Reads.{Run, go, quota_exhausted, no_runnable_todo, should_run, claimable}
use aidean_fleet.Kernel.Views.{Packet, packet_for}
use aidean_fleet.Kernel.Writeback.{transition}
use aidean_fleet.Planner.Service.{PlannerError, Reply, answered, unavailable, run_plan_todo}
use aidean_fleet.Planner.Steer.{run_steer_todo}
use aidean_fleet.Runner.Actions.{
  WorkerError, planning, disk_failed, assertion, Action, pure, raise, ◌>>=◌, ◌>>◌, Times, Outside,
  met, call, call_unit, attempt,
}
use aidean_fleet.Runner.ModelWrite.{Outcome, Write, protocol_block, run_model_write}
use aidean_fleet.Runner.Prompt.{packet_prompt}
use aidean_fleet.Runner.Worker.{
  Worker, Round, idle, writeback, nothing_stored, harness_chain_for, pick_harness, workspace_of,
  plain_turn, Executor, harness, model_write, executor_name, exec_turn,
}

-- a reading, with the tables that it leaves as they are
abbrev pub beside : {A : Type 0} → Db → Result Error A → Result Error (A × Db)
beside db (ok a) = ok (a, db)
beside db (err e) = err e

abbrev pub of_planner : Result PlannerError TurnResult × Db → Result WorkerError TurnResult × Db
of_planner (ok result, db) = (ok result, db)
of_planner (err e, db) = (err (planning e), db)

module _ (w : Worker) (o : Outside) where
  -- `_renew`
  unfoldable pub renew : ℕ → String → Action (Unit {0})
  renew n i = attempt o n (λ env db. renew_lease o.config env i w.name none db)

  unfoldable pub claim_as : Todo → String → String → Action Todo
  claim_as todo harness_name model =
      call o 2 (λ env db. claim o.config env todo.id w.name none harness_name model db)

  unfoldable pub start_running : Todo → Action (Unit {0})
  start_running todo = call_unit o 3 (λ env db. mark_running env todo.id w.name db)

  unfoldable pub start_verifying : ℕ → Todo → Action (Unit {0})
  start_verifying n todo = call_unit o n (λ env db. mark_verifying env todo.id w.name db)

  unfoldable pub read_packet : Todo → Action Packet
  read_packet todo = call o 4 (λ env db. beside db (packet_for todo.id db))

  -- what the planner returns, in the tables that it finds and leaves
  unfoldable pub planned : ℕ → (Db → Result PlannerError TurnResult × Db) → Action TurnResult
  planned n run db = of_planner (run (met o n db))

  unfoldable pub run_planned : Todo → Action TurnResult
  run_planned todo =
      if todo.kind == "plan"
      then planned 6 (run_plan_todo w.planner w.shown.number o.times.planner_clock todo.id)
      else planned 6 (
          run_steer_todo (record w.steerer { json = o.json }) (o.times.planner_clock 0)
            w.scheduler_is_auto todo.id)

  -- a plan todo or a steer todo
  unfoldable pub run_planning : Todo → Todo → Option (String → Reply) → Action Round
  run_planning todo claimed none =
      pure (writeback todo.id (plain_turn Verdict.blocked "未配置 planner 模型客户端") none nothing_stored)
  run_planning todo claimed (some client) = do
    verifying ← start_verifying 4 todo
    renewed ← renew 5 todo.id
    result ← run_planned todo
    pure (writeback todo.id result (some claimed) nothing_stored)

  -- the heartbeats around the call of the model: the second one only behind an answer
  unfoldable pub renew_behind : Todo → Reply → Action (Unit {0})
  renew_behind todo (unavailable why) = pure tt
  renew_behind todo (answered reply) = renew 6 todo.id

  abbrev pub finished : Option Outcome × List Write → Action (Outcome × List Write)
  finished (none, files) = raise disk_failed
  finished (some outcome, files) = pure (outcome, files)

  -- `run_profile` or `run_model_write`
  unfoldable pub execute : Todo → String → String → Executor → Action (Outcome × List Write)
  execute todo model prompt (harness name) =
      pure (w.run_profile name prompt (workspace_of w todo) model, [])
  execute todo model prompt (model_write client) = do
    before ← renew 5 todo.id
    behind ← renew_behind todo (client (append prompt protocol_block))
    finished
        (run_model_write w.reader (w.disk (workspace_of w todo)) todo.allowed_files client prompt)

  abbrev pub with_evidence : Todo → Todo → Executor → Outcome × List Write → Round
  with_evidence todo claimed e (outcome, files) =
      let (report, result) = exec_turn w todo e outcome in
      writeback todo.id result (some claimed)
        record { files = files; evidence = some (w.evidence_dir todo.id, report, outcome.output) }

  -- an exec todo from its claim on
  unfoldable pub run_exec : Todo → String → Executor → Action Round
  run_exec todo model e = do
    claimed ← claim_as todo (executor_name e) model
    running ← start_running todo
    packet ← read_packet todo
    work ← execute todo model (packet_prompt w.dumps packet) e
    verifying ← start_verifying 7 todo
    pure (with_evidence todo claimed e work)

  -- nobody can work on the todo: it is claimed, and then written back as blocked
  unfoldable pub give_up : Todo → List String → String → Action Round
  give_up todo chain why = do
    claimed ← claim_as todo "" ""
    let note =
        append "执行体链全部不可用（"
          (append (w.repr chain) (append "）：" (append why "；且未配置模型直写回退（planner_client）")))
    pure (writeback todo.id (plain_turn Verdict.blocked note) (some claimed) nothing_stored)

  unfoldable pub model_of : Option (String → String) → String → String
  model_of none role = ""
  model_of (some f) role = f role

  unfoldable pub choose :
      Todo → List String → String → Option String × String → Option (String → Reply) → Action Round
  choose todo chain model (some name, why) client = run_exec todo model (harness name)
  choose todo chain model (none, why) (some client) = run_exec todo model (model_write client)
  choose todo chain model (none, why) none = give_up todo chain why

  -- a todo that is no exec todo
  unfoldable pub run_other : Todo → String → Action Round
  run_other todo model = do
    claimed ← claim_as todo "planner" model
    running ← start_running todo
    (if todo.kind == "plan" || todo.kind == "steer"
        then run_planning todo claimed w.planner_client
        else raise assertion)

  unfoldable pub run_todo : Todo → Action Round
  run_todo todo =
      let chain = harness_chain_for w todo.role in
      let model = model_of w.model_for todo.role in
      if todo.kind == "exec"
      then choose todo chain model (pick_harness w chain) w.planner_client
      else run_other todo model

  unfoldable pub run_first : List Todo → Action Round
  run_first [] = pure (idle no_runnable_todo)
  run_first (todo ∷ rest) = run_todo todo

  unfoldable pub run_if : Run → Action Round
  run_if go = do
    candidates ← call o 1 (λ env db. ok (claimable env none none db))
    run_first candidates
  run_if (quota_exhausted key) = pure (idle (quota_exhausted key))
  run_if no_runnable_todo = pure (idle no_runnable_todo)

  -- `run_once`
  unfoldable pub run_once : Action Round
  run_once = do run ← call o 0 (λ env db. ok (should_run env db)); run_if run

  abbrev pub write_back : Round → Action (Unit {0})
  write_back (idle why) = pure tt
  write_back (writeback i result claimed stored) = do
    row ← call o 8 (λ env db. transition o.config env i result db)
    pure tt

  -- one round of the loop; the callback `on_round` cannot stop it
  unfoldable pub run_round : Action (Unit {0})
  run_round = do round ← run_once; write_back round

-- `run_loop` with `max_rounds` above 0. What is given may be another thing in each round. With
-- `max_rounds` 0 the loop does any number of these rounds.
module _ (cfg : Config) (json : Json) (w : ℕ → Worker) (times : ℕ → Times) where
  unfoldable pub run_loop : ℕ → ℕ → Action (Unit {0})
  run_loop n zero = pure tt
  run_loop n (suc max_rounds) =
      run_round (w n) record { config = cfg; json = json; times = times n }
      >> run_loop (suc n) max_rounds

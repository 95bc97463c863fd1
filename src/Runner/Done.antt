-- ===== src/Runner/Done.antt =====
-- A round of the worker that ends well.
use aidean_fleet.Common.{
  ℕ, ◌≡◌, refl, ◌∙◌, ap, sym, subst, true, false, List, [], ◌∷◌, none, some, String, find?,
  is_empty, arith, All,
}
use aidean_fleet.Common.Text.{◌==◌}
use aidean_fleet.Common.Outcome.{Result, ok}
use aidean_fleet.Kernel.State.{Status, Verdict}
use aidean_fleet.Kernel.Tables.{Goal, Todo, Db, Env}
use aidean_fleet.Kernel.Sql.{has_id, get_goal, set_todo, event, close_open_attempt}
use aidean_fleet.Kernel.Lease.{
  claim_check, requeue_one, requeue_all, expired_ids, requeue_expired_leases,
}
use aidean_fleet.Kernel.Reads.{go, should_run, claimable}
use aidean_fleet.Kernel.Writeback.{transition}
use aidean_fleet.Kernel.Claimable.{CanStart, claimable-CanStart}
use aidean_fleet.Kernel.Consistency.Defs.{IsConsistent}
use aidean_fleet.Kernel.Consistency.Leases.{requeue_expired_leases-IsConsistent}
use aidean_fleet.Kernel.Verdicts.Done.{IsAcceptable, transition-done_accepts, transition-done}
use aidean_fleet.Planner.Service.{no_successor}
use aidean_fleet.Runner.Actions.{WorkerError, pure, Outside}
use aidean_fleet.Runner.Verified.{all_succeed, run_verify_iff}
use aidean_fleet.Runner.ModelWrite.{Outcome}
use aidean_fleet.Runner.Worker.{
  Worker, Round, Executor, harness, harness_chain_for, first_detected, pick_harness, workspace_of,
  gate_of, turn_of, exec_turn,
}
use aidean_fleet.Runner.Once.{
  run_exec, choose, model_of, run_todo, run_first, run_if, run_once, run_round,
}
use aidean_fleet.Runner.Steps.{get_goal_same}
use aidean_fleet.Runner.Finishing.{next_step, call_returns, checked, run_exec_returns}

requeue_all-goals :
    (env : Env) (tids : List String) (db : Db) → (requeue_all env tids db).goals ≡ db.goals
unfolding requeue_all requeue_one set_todo close_open_attempt event
requeue_all-goals env [] db = refl
requeue_all-goals env (tid ∷ tids) db = requeue_all-goals env tids (requeue_one env tid db)

claimable-goals : (env : Env) (db : Db) → (claimable env none none db).1.goals ≡ db.goals
unfolding claimable requeue_expired_leases
claimable-goals env db = requeue_all-goals env (expired_ids env db) db

should_run-tables : (env : Env) (db : Db) → (should_run env db).1 ≡ (claimable env none none db).1
unfolding should_run
should_run-tables env db = refl

-- what a harness that succeeds leads to when the commands pass
exec_turn_done :
    (w : Worker) (todo : Todo) (e : Executor) (outcome : Outcome)
    → outcome.succeeded ≡ true
    → (gate_of w todo).passed ≡ true
    → (exec_turn w todo e outcome).1
      ≡ turn_of outcome Verdict.done "机器门通过" (w.evidence_dir todo.id) no_successor
unfolding exec_turn
exec_turn_done w todo e outcome worked passes = ground arith

-- what stands at the start of the round
pub record IsSetUp (w : Worker) (o : Outside) (db : Db) (todo : Todo) (name : String) : Type 0 where
  pub alone : (n : ℕ) → o.times.others n ≡ []
  pub may_run : (should_run (o.times.clock 0) db).0 ≡ go
  pub rest : List Todo
  pub first :
      (claimable (o.times.clock 1) none none (should_run (o.times.clock 0) db).1).0 ≡ todo ∷ rest
  pub executable : (todo.kind == "exec") ≡ true
  pub goal : Goal
  pub has_goal : get_goal todo.goal_id db ≡ ok goal
  pub detected : first_detected w (harness_chain_for w todo.role) ≡ some name

module _ (w : Worker) (o : Outside) (db : Db) (todo : Todo) (name : String)
    (h : IsSetUp w o db todo name) where
  -- the tables that the second reading leaves
  abbrev seen : Db
  seen = (claimable (o.times.clock 1) none none (should_run (o.times.clock 0) db).1).1

  seen-goals : seen.goals ≡ db.goals
  seen-goals =
      claimable-goals (o.times.clock 1) (should_run (o.times.clock 0) db).1
      ∙ ap (λ d. d.goals) (should_run-tables (o.times.clock 0) db)
      ∙ claimable-goals (o.times.clock 0) db

  can_be_claimed : IsConsistent db → claim_check todo.id seen ≡ ok todo
  unfolding claimable
  can_be_claimed c =
      let db1 = (should_run (o.times.clock 0) db).1 in
      let c1 : IsConsistent db1 =
        subst IsConsistent (sym (should_run-tables (o.times.clock 0) db))
          (requeue_expired_leases-IsConsistent (o.times.clock 0) db c) in
      (subst (All (CanStart (o.times.clock 1) seen)) h.first
        (claimable-CanStart (o.times.clock 1) none none db1 c1)).0.passes_check

  run_todo_picks :
      (tables : Db)
      → run_todo w o todo tables
        ≡ run_exec w o todo (model_of w o w.model_for todo.role) (harness name) tables
  unfolding run_todo pick_harness choose
  run_todo_picks tables = rw (h.executable, h.detected, pick_harness) refl

  run_once_reaches :
      {r : Result WorkerError Round × Db}
      → run_exec w o todo (model_of w o w.model_for todo.role) (harness name) seen ≡ r
      → run_once w o db ≡ r
  unfolding run_once run_if run_first
  run_once_reaches e =
      next_step _ _ db (call_returns o 0 (h.alone 0) _ db refl)
      ∙ rw h.may_run (
          next_step _ _ _ (call_returns o 1 (h.alone 1) _ _ refl)
          ∙ ap (λ todos. run_first w o todos seen) h.first
          ∙ run_todo_picks seen
          ∙ e)

  -- A round that finds nothing in its way ends well: from consistent tables, with nobody else calling
  -- the kernel, an exec todo that is the first that `claimable` lists, whose goal exists and for which
  -- a harness is found, is done behind the round if the harness succeeds and each of its commands,
  -- of which there is one at least, ends with code 0.
  pub run_round_finishes :
      IsConsistent db
      → ((prompt : String)
          → (w.run_profile name prompt
              (workspace_of w todo)
              (model_of w o w.model_for todo.role)).succeeded
            ≡ true)
      → is_empty todo.verify ≡ false
      → all_succeed (w.ran (workspace_of w todo)) 0 todo.verify ≡ true
      → (db' : Db) × (row : Todo) × (run_round w o db ≡ (ok tt, db'))
        × (find? (has_id todo.id) db'.todos ≡ some row)
        × (row.status ≡ Status.done)
  unfolding run_round gate_of pure
  run_round_finishes c works some_command pass =
      let model = model_of w o w.model_for todo.role in
      let (prompt, claimed, db3, runs, left) =
        run_exec_returns o w todo h.alone model name seen (can_be_claimed c)
          (get_goal_same todo.goal_id db seen seen-goals ∙ h.has_goal) in
      let outcome = w.run_profile name prompt (workspace_of w todo) model in
      let passes : (gate_of w todo).passed ≡ true =
        (run_verify_iff w.shown w.timeout (w.ran (workspace_of w todo)) todo.verify).0.1
          (some_command, pass) in
      let result = turn_of outcome Verdict.done "机器门通过" (w.evidence_dir todo.id) no_successor in
      let same = exec_turn_done w todo (harness name) outcome (works prompt) passes in
      let ready : IsAcceptable (checked o w todo) result = record {
        verified = refl;
        credible = ground (arith, some_command);
      } in
      let (r, accepted) =
        transition-done_accepts o.config (o.times.clock 8) todo.id result db3 (checked o w todo)
          left.found ready in
      let (before, was, fit, done) =
        transition-done o.config (o.times.clock 8) todo.id result db3 accepted in
      let written = ap (λ t. transition o.config (o.times.clock 8) todo.id t db3) same ∙ accepted in
      (
        r.1,
        r.0,
        next_step _ _ db (run_once_reaches runs)
            ∙ next_step _ _ db3 (call_returns o 8 (h.alone 8) _ db3 written),
        done.stored_row,
        ap (λ t. t.status) done.returned_row,
      )

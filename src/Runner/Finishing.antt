-- ===== src/Runner/Finishing.antt =====
-- A round in which nothing stands in the way: the harness succeeds, the commands pass, and nobody else
-- calls the kernel.
use aidean_fleet.Common.{ℕ, ◌≡◌, refl, ◌∙◌, ap, [], String}
use aidean_fleet.Common.Text.{==_refl}
use aidean_fleet.Common.Outcome.{Result, ok, err}
use aidean_fleet.Kernel.State.{Status}
use aidean_fleet.Kernel.Tables.{Goal, Todo, Db, Env, Error}
use aidean_fleet.Kernel.Sql.{get_goal}
use aidean_fleet.Kernel.Lease.{claim_row, claim_check, with_status}
use aidean_fleet.Kernel.Machine.{run_all}
use aidean_fleet.Runner.Actions.{
  refused, Action, pure, ◌>>=◌, follow, Outside, met, settled, settled_unit, call, call_unit,
}
use aidean_fleet.Runner.Prompt.{packet_prompt}
use aidean_fleet.Runner.Worker.{Worker, harness, workspace_of}
use aidean_fleet.Runner.Once.{
  claim_as, start_running, start_verifying, read_packet, execute, with_evidence, run_exec,
}
use aidean_fleet.Runner.Steps.{
  Holds, claim-Holds, mark_running-Holds, mark_verifying-Holds, packet_for_found, get_goal_same,
}

-- the next step of an action whose first step returned
pub next_step :
    {A B : Type 0} (m : Action A) (f : A → Action B) {a : A} (db : Db) {db' : Db}
    → m db ≡ (ok a, db')
    → (m >>= f) db ≡ f a db'
unfolding ◌>>=◌
next_step m f db e = ap (follow f) e

module _ (o : Outside) (n : ℕ) (alone : o.times.others n ≡ []) where
  met_alone : (db : Db) → met o n db ≡ db
  unfolding run_all
  met_alone db = ap (λ calls. run_all o.config o.json calls db) alone

  pub call_returns :
      {A : Type 0} (f : Env → Db → Result Error (A × Db)) (db : Db) {r : A × Db}
      → f (o.times.clock n) db ≡ ok r
      → call o n f db ≡ (ok r.0, r.1)
  unfolding call
  call_returns f db e =
      ap (λ d. settled o d (f (o.times.clock n) d)) (met_alone db) ∙ ap (settled o db) e

  pub call_refused :
      {A : Type 0} (f : Env → Db → Result Error (A × Db)) (db : Db) {x : Error}
      → f (o.times.clock n) db ≡ err x
      → call o n f db ≡ (err (refused x), db)
  unfolding call
  call_refused f db e =
      ap (λ d. settled o d (f (o.times.clock n) d)) (met_alone db) ∙ ap (settled o db) e

  pub call_unit_returns :
      (f : Env → Db → Result Error Db) (db : Db) {db' : Db}
      → f (o.times.clock n) db ≡ ok db'
      → call_unit o n f db ≡ (ok tt, db')
  unfolding call_unit
  call_unit_returns f db e =
      ap (λ d. settled_unit o d (f (o.times.clock n) d)) (met_alone db) ∙ ap (settled_unit o db) e

module _ (o : Outside) (w : Worker) (todo : Todo) where
  -- the row while the worker is at it
  abbrev pub taken : Todo
  taken = claim_row (o.times.clock 2) w.name o.config.lease_seconds todo

  abbrev pub checked : Todo
  checked =
      with_status (o.times.clock 7) Status.verifying
        (with_status (o.times.clock 3) Status.running taken)

  pub run_exec_returns :
      (alone : (n : ℕ) → o.times.others n ≡ []) (model name : String) (db : Db) {goal : Goal}
      → claim_check todo.id db ≡ ok todo
      → get_goal todo.goal_id db ≡ ok goal
      → (prompt : String) × (claimed : Todo) × (db' : Db) × (run_exec w o todo model
            (harness name)
            db
          ≡ (
            ok (
                with_evidence w o todo claimed
                  (harness name)
                  (w.run_profile name prompt (workspace_of w todo) model, [])),
            db',
          ))
        × Holds db.goals todo.id checked db'
  unfolding run_exec claim_as start_running read_packet execute start_verifying pure
  run_exec_returns alone model name db {goal} free there =
      let (db1, claims, h1) =
        claim-Holds o.config (o.times.clock 2) todo.id w.name name model db free in
      let (db2, runs, h2) =
        mark_running-Holds (o.times.clock 3) todo.id w.name db.goals db1 h1 refl (==_refl w.name) in
      let (packet, reads) =
        packet_for_found todo.id db2 h2.found
          (get_goal_same todo.goal_id db db2 h2.same_goals ∙ there) in
      let (db3, verifies, h3) =
        mark_verifying-Holds (o.times.clock 7) todo.id w.name db.goals db2 h2 refl
          (==_refl w.name) in
      (
        packet_prompt w.dumps packet,
        taken,
        db3,
        next_step _ _ db (call_returns o 2 (alone 2) _ db claims)
            ∙ next_step _ _ db1 (call_unit_returns o 3 (alone 3) _ db1 runs)
            ∙ next_step _ _ db2 (call_returns o 4 (alone 4) _ db2 (rw reads refl))
            ∙ next_step _ _ db2 refl
            ∙ next_step _ _ db2 (call_unit_returns o 7 (alone 7) _ db2 verifies),
        h3,
      )

-- ===== src/Kernel/Machine.antt =====
-- The kernel as a machine: the methods of `Kernel` that write, as calls, and histories of calls.
-- A call that raises is rolled back, so that the tables stay as they were.
use aidean_fleet.Common.{ℕ, ◌≡◌, refl, List, [], ◌∷◌, Option, String}
use aidean_fleet.Common.Outcome.{Result, ok, err}
use aidean_fleet.Kernel.State.{TurnResult}
use aidean_fleet.Kernel.Tables.{PlanDiff, Decision, Db, Env, Config, Error}
use aidean_fleet.Kernel.Goals.{
  create_goal, create_goal_with_plan, create_goal_draft, append_goal_requirements, freeze_goal,
  NewTodo, create_todo,
}
use aidean_fleet.Kernel.Lease.{
  claim, renew_lease, requeue_expired_leases, mark_running, mark_verifying, reopen,
}
use aidean_fleet.Kernel.Quota.{set_quota}
use aidean_fleet.Kernel.Writeback.{transition}
use aidean_fleet.Kernel.Steer.{Json, propose_plan_diff, apply_plan_diff}
use aidean_fleet.Kernel.Reads.{claimable, mark_events_published}

pub data Call : Type 0 where
  create_goal_call : String → Option String → Call
  create_goal_with_plan_call : String → String → String → String → Option String → Call
  create_goal_draft_call : String → String → String → Option String → Call
  append_goal_requirements_call : String → String → Call
  freeze_goal_call : String → String → Option String → Call
  create_todo_call : String → NewTodo → Call
  claimable_call : Option String → Option String → Call
  claim_call : String → String → Option ℕ → String → String → Call
  renew_lease_call : String → String → Option ℕ → Call
  requeue_expired_leases_call : Call
  mark_running_call mark_verifying_call : String → String → Call
  transition_call : String → TurnResult → Call
  reopen_call : String → String → Call
  propose_plan_diff_call : String → PlanDiff → Call
  apply_plan_diff_call : String → Decision → Option PlanDiff → String → Call
  set_quota_call : String → ℕ → Call
  mark_events_published_call : List ℕ → Call

abbrev pub tables : {A : Type 0} → Result Error (A × Db) → Result Error Db
tables (ok r) = ok r.1
tables (err e) = err e

abbrev tables_of_three : {A B : Type 0} → Result Error (A × B × Db) → Result Error Db
tables_of_three (ok r) = ok r.2
tables_of_three (err e) = err e

abbrev tables_of_four : {A B C : Type 0} → Result Error (A × B × C × Db) → Result Error Db
tables_of_four (ok r) = ok r.3
tables_of_four (err e) = err e

-- the tables behind a call that may raise
abbrev pub committed : Db → Result Error Db → Db
committed db (ok db') = db'
committed db (err e) = db

module _ (cfg : Config) (json : Json) where
  -- one call, and the tables that it commits
  unfoldable pub perform : Env → Call → Db → Result Error Db
  perform env (create_goal_call title gid) db = tables (create_goal env title gid db)
  perform env (create_goal_with_plan_call title req ws role tid) db =
      tables_of_three (create_goal_with_plan env title req ws role tid db)
  perform env (create_goal_draft_call title req ws gid) db =
      tables (create_goal_draft env title req ws gid db)
  perform env (append_goal_requirements_call g addition) db =
      tables (append_goal_requirements env g addition db)
  perform env (freeze_goal_call g role tid) db = tables_of_four (freeze_goal env g role tid db)
  perform env (create_todo_call g spec) db = tables (create_todo env g spec db)
  perform env (claimable_call role kind) db = ok (claimable env role kind db).1
  perform env (claim_call i w lease h m) db = tables (claim cfg env i w lease h m db)
  perform env (renew_lease_call i w lease) db = renew_lease cfg env i w lease db
  perform env requeue_expired_leases_call db = ok (requeue_expired_leases env db).1
  perform env (mark_running_call i w) db = mark_running env i w db
  perform env (mark_verifying_call i w) db = mark_verifying env i w db
  perform env (transition_call i result) db = tables (transition cfg env i result db)
  perform env (reopen_call i actor) db = tables (reopen env i actor db)
  perform env (propose_plan_diff_call i diff) db = propose_plan_diff json env i diff db
  perform env (apply_plan_diff_call i d diff actor) db =
      tables (apply_plan_diff json env i d diff actor db)
  perform env (set_quota_call key limit) db = ok (set_quota env key limit db)
  perform env (mark_events_published_call seqs) db = ok (mark_events_published seqs db)

  unfoldable pub run_all : List (Env × Call) → Db → Db
  run_all [] db = db
  run_all ((env, c) ∷ calls) db = run_all calls (committed db (perform env c db))

abbrev pub empty_db : Db
empty_db = record {
  goals = [];
  todos = [];
  attempts = [];
  next_attempt = 1;
  events = [];
  next_event = 1;
  quotas = [];
}

pub tables_ok :
    {A : Type 0} (m : Result Error (A × Db)) {db : Db}
    → tables m ≡ ok db
    → (r : A × Db) × (m ≡ ok r) × (r.1 ≡ db)
tables_ok (ok r) h = (r, refl, cc)
tables_ok (err e) h = cc

pub tables_of_three_ok :
    {A B : Type 0} (m : Result Error (A × B × Db)) {db : Db}
    → tables_of_three m ≡ ok db
    → (r : A × B × Db) × (m ≡ ok r) × (r.2 ≡ db)
tables_of_three_ok (ok r) h = (r, refl, cc)
tables_of_three_ok (err e) h = cc

pub tables_of_four_ok :
    {A B C : Type 0} (m : Result Error (A × B × C × Db)) {db : Db}
    → tables_of_four m ≡ ok db
    → (r : A × B × C × Db) × (m ≡ ok r) × (r.3 ≡ db)
tables_of_four_ok (ok r) h = (r, refl, cc)
tables_of_four_ok (err e) h = cc

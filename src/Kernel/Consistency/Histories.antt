-- ===== src/Kernel/Consistency/Histories.antt =====
-- Consistency of the tables over every history of calls.
use aidean_fleet.Common.{◌≡◌, refl, List, [], ◌∷◌}
use aidean_fleet.Common.Outcome.{Result, ok, err, returned}
use aidean_fleet.Kernel.Tables.{Db, Env, Config, Error}
use aidean_fleet.Common.{subst}
use aidean_fleet.Kernel.Quota.{set_quota}
use aidean_fleet.Kernel.Steer.{Json}
use aidean_fleet.Kernel.Reads.{claimable, mark_events_published}
use aidean_fleet.Kernel.Machine.{
  Call, perform, committed, run_all, empty_db, tables_ok, tables_of_three_ok, tables_of_four_ok,
}
use aidean_fleet.Kernel.Consistency.Defs.{IsConsistent}
use aidean_fleet.Kernel.Consistency.Leases.{
  claim-IsConsistent, renew_lease-IsConsistent, requeue_expired_leases-IsConsistent,
  mark_running-IsConsistent, mark_verifying-IsConsistent, reopen-IsConsistent,
}
use aidean_fleet.Kernel.Consistency.Creation.{
  create_goal-IsConsistent, create_goal_with_plan-IsConsistent, create_goal_draft-IsConsistent,
  append_goal_requirements-IsConsistent, freeze_goal-IsConsistent, create_todo-IsConsistent,
}
use aidean_fleet.Kernel.Consistency.Writes.{transition-IsConsistent}
use aidean_fleet.Kernel.Consistency.Plans.{
  propose_plan_diff-IsConsistent, apply_plan_diff-IsConsistent,
}

module _ (cfg : Config) (json : Json) where
  perform-IsConsistent :
      (env : Env) (c : Call) (db : Db) {db' : Db}
      → perform cfg json env c db ≡ ok db'
      → IsConsistent db
      → IsConsistent db'
  unfolding perform claimable set_quota mark_events_published
  perform-IsConsistent env (Call.create_goal_call title gid) db e c =
      let (r, p, q) = tables_ok _ e in
      subst IsConsistent q (create_goal-IsConsistent env title gid db p c)
  perform-IsConsistent env (Call.create_goal_with_plan_call title req ws role tid) db e c =
      let (r, p, q) = tables_of_three_ok _ e in
      subst IsConsistent q (create_goal_with_plan-IsConsistent env title req ws role tid db p c)
  perform-IsConsistent env (Call.create_goal_draft_call title req ws gid) db e c =
      let (r, p, q) = tables_ok _ e in
      subst IsConsistent q (create_goal_draft-IsConsistent env title req ws gid db p c)
  perform-IsConsistent env (Call.append_goal_requirements_call g addition) db e c =
      let (r, p, q) = tables_ok _ e in
      subst IsConsistent q (append_goal_requirements-IsConsistent env g addition db p c)
  perform-IsConsistent env (Call.freeze_goal_call g role tid) db e c =
      let (r, p, q) = tables_of_four_ok _ e in
      subst IsConsistent q (freeze_goal-IsConsistent env g role tid db p c)
  perform-IsConsistent env (Call.create_todo_call g spec) db e c =
      let (r, p, q) = tables_ok _ e in
      subst IsConsistent q (create_todo-IsConsistent env g spec db p c)
  perform-IsConsistent env (Call.claimable_call role kind) db e c =
      returned IsConsistent _ e (requeue_expired_leases-IsConsistent env db c)
  perform-IsConsistent env (Call.claim_call i w lease h m) db e c =
      let (r, p, q) = tables_ok _ e in
      subst IsConsistent q (claim-IsConsistent cfg env i w lease h m db p c)
  perform-IsConsistent env (Call.renew_lease_call i w lease) db e c =
      renew_lease-IsConsistent cfg env i w lease db e c
  perform-IsConsistent env Call.requeue_expired_leases_call db e c =
      returned IsConsistent _ e (requeue_expired_leases-IsConsistent env db c)
  perform-IsConsistent env (Call.mark_running_call i w) db e c =
      mark_running-IsConsistent env i w db e c
  perform-IsConsistent env (Call.mark_verifying_call i w) db e c =
      mark_verifying-IsConsistent env i w db e c
  perform-IsConsistent env (Call.transition_call i result) db e c =
      let (r, p, q) = tables_ok _ e in
      subst IsConsistent q (transition-IsConsistent cfg env i result db p c)
  perform-IsConsistent env (Call.reopen_call i actor) db e c =
      let (r, p, q) = tables_ok _ e in subst IsConsistent q (reopen-IsConsistent env i actor db p c)
  perform-IsConsistent env (Call.propose_plan_diff_call i diff) db e c =
      propose_plan_diff-IsConsistent json env i diff db e c
  perform-IsConsistent env (Call.apply_plan_diff_call i d diff actor) db e c =
      let (r, p, q) = tables_ok _ e in
      subst IsConsistent q (apply_plan_diff-IsConsistent json env i d diff actor db p c)
  perform-IsConsistent env (Call.set_quota_call key limit) db e c = returned IsConsistent _ e c
  perform-IsConsistent env (Call.mark_events_published_call seqs) db e c =
      returned IsConsistent _ e c

  pub committed-IsConsistent :
      (env : Env) (c : Call) (db : Db) (r : Result Error Db)
      → perform cfg json env c db ≡ r
      → IsConsistent db
      → IsConsistent (committed db r)
  committed-IsConsistent env c db (ok db') e k = perform-IsConsistent env c db e k
  committed-IsConsistent env c db (err x) e k = k

  pub run_all_from-IsConsistent :
      (calls : List (Env × Call)) (db : Db)
      → IsConsistent db
      → IsConsistent (run_all cfg json calls db)
  unfolding run_all
  run_all_from-IsConsistent [] db k = k
  run_all_from-IsConsistent ((env, c) ∷ calls) db k =
      run_all_from-IsConsistent calls _ (committed-IsConsistent env c db _ refl k)

  -- After any sequence of calls of the kernel's methods from the empty tables, whatever their
  -- arguments, the clock, and the calls that raise: identifiers of todos are distinct, every attempt
  -- belongs to a todo, a todo has exactly one attempt that has not ended while it is claimed, running
  -- or verifying and none otherwise, `attempt_count` is the number of its attempts, and a todo that
  -- is not in flight has no lease.
  pub run_all-IsConsistent :
      (calls : List (Env × Call)) → IsConsistent (run_all cfg json calls empty_db)
  run_all-IsConsistent calls =
      run_all_from-IsConsistent calls empty_db record { distinct = tt; in_step = tt; owned = tt }

-- ===== src/Kernel/Lifecycle/Histories.antt =====
-- What holds of a todo's status over every history of calls.
use aidean_fleet.Common.{◌≡◌, refl, true, List, [], ◌∷◌, some, String, find?, arith}
use aidean_fleet.Common.Outcome.{Result, ok, err, returned}
use aidean_fleet.Kernel.State.{Status, is_settled}
use aidean_fleet.Kernel.Tables.{Todo, Db, Env, Config, Error}
use aidean_fleet.Kernel.Sql.{has_id}
use aidean_fleet.Kernel.Lifecycle.Defs.{
  allows, Edge, listed, expired, Chain, here, next, Advances, Advances-refl, Advances-trans,
}
use aidean_fleet.Common.{subst, sym}
use aidean_fleet.Kernel.Quota.{set_quota}
use aidean_fleet.Kernel.Steer.{Json}
use aidean_fleet.Kernel.Reads.{claimable, mark_events_published}
use aidean_fleet.Kernel.Machine.{
  Call, perform, committed, run_all, tables_ok, tables_of_three_ok, tables_of_four_ok,
}
use aidean_fleet.Kernel.Consistency.Defs.{IsConsistent}
use aidean_fleet.Kernel.Consistency.Histories.{committed-IsConsistent}
use aidean_fleet.Kernel.Lifecycle.Leases.{
  claim-Advances, renew_lease-Advances, requeue_expired_leases-Advances, mark_running-Advances,
  mark_verifying-Advances, reopen-Advances,
}
use aidean_fleet.Kernel.Lifecycle.Creation.{
  create_goal-Advances, create_goal_with_plan-Advances, create_goal_draft-Advances,
  append_goal_requirements-Advances, freeze_goal-Advances, create_todo-Advances,
}
use aidean_fleet.Kernel.Lifecycle.Writes.{transition-Advances}
use aidean_fleet.Kernel.Lifecycle.Plans.{propose_plan_diff-Advances, apply_plan_diff-Advances}

module _ (cfg : Config) (json : Json) where
  perform-Advances :
      (env : Env) (c : Call) (db : Db) {db' : Db}
      → perform cfg json env c db ≡ ok db'
      → IsConsistent db
      → Advances db.todos db'.todos
  unfolding perform claimable set_quota mark_events_published
  perform-Advances env (Call.create_goal_call title gid) db e k =
      let (r, p, q) = tables_ok _ e in
      subst (λ d. Advances db.todos d.todos) q (create_goal-Advances env title gid db p)
  perform-Advances env (Call.create_goal_with_plan_call title req ws role tid) db e k =
      let (r, p, q) = tables_of_three_ok _ e in
      subst (λ d. Advances db.todos d.todos) q
        (create_goal_with_plan-Advances env title req ws role tid db p)
  perform-Advances env (Call.create_goal_draft_call title req ws gid) db e k =
      let (r, p, q) = tables_ok _ e in
      subst (λ d. Advances db.todos d.todos) q
        (create_goal_draft-Advances env title req ws gid db p)
  perform-Advances env (Call.append_goal_requirements_call g addition) db e k =
      let (r, p, q) = tables_ok _ e in
      subst (λ d. Advances db.todos d.todos) q
        (append_goal_requirements-Advances env g addition db p)
  perform-Advances env (Call.freeze_goal_call g role tid) db e k =
      let (r, p, q) = tables_of_four_ok _ e in
      subst (λ d. Advances db.todos d.todos) q (freeze_goal-Advances env g role tid db p)
  perform-Advances env (Call.create_todo_call g spec) db e k =
      let (r, p, q) = tables_ok _ e in
      subst (λ d. Advances db.todos d.todos) q (create_todo-Advances env g spec db p)
  perform-Advances env (Call.claimable_call role kind) db e k =
      returned (λ d. Advances db.todos d.todos) _ e (requeue_expired_leases-Advances env db k)
  perform-Advances env (Call.claim_call i w lease h m) db e k =
      let (r, p, q) = tables_ok _ e in
      subst (λ d. Advances db.todos d.todos) q (claim-Advances cfg env i w lease h m db p)
  perform-Advances env (Call.renew_lease_call i w lease) db e k =
      renew_lease-Advances cfg env i w lease db e
  perform-Advances env Call.requeue_expired_leases_call db e k =
      returned (λ d. Advances db.todos d.todos) _ e (requeue_expired_leases-Advances env db k)
  perform-Advances env (Call.mark_running_call i w) db e k = mark_running-Advances env i w db e
  perform-Advances env (Call.mark_verifying_call i w) db e k = mark_verifying-Advances env i w db e
  perform-Advances env (Call.transition_call i result) db e k =
      let (r, p, q) = tables_ok _ e in
      subst (λ d. Advances db.todos d.todos) q (transition-Advances cfg env i result db p)
  perform-Advances env (Call.reopen_call i actor) db e k =
      let (r, p, q) = tables_ok _ e in
      subst (λ d. Advances db.todos d.todos) q (reopen-Advances env i actor db p)
  perform-Advances env (Call.propose_plan_diff_call i diff) db e k =
      propose_plan_diff-Advances json env i diff db e
  perform-Advances env (Call.apply_plan_diff_call i d diff actor) db e k =
      let (r, p, q) = tables_ok _ e in
      subst (λ x. Advances db.todos x.todos) q
        (apply_plan_diff-Advances json env i d diff actor db p k)
  perform-Advances env (Call.set_quota_call key limit) db e k =
      returned (λ d. Advances db.todos d.todos) _ e (Advances-refl db.todos)
  perform-Advances env (Call.mark_events_published_call seqs) db e k =
      returned (λ d. Advances db.todos d.todos) _ e (Advances-refl db.todos)

  committed-Advances :
      (env : Env) (c : Call) (db : Db) (r : Result Error Db)
      → perform cfg json env c db ≡ r
      → IsConsistent db
      → Advances db.todos (committed db r).todos
  committed-Advances env c db (ok db') e k = perform-Advances env c db e k
  committed-Advances env c db (err x) e k = Advances-refl db.todos

  -- Over any sequence of calls from consistent tables no todo is ever deleted, and the status of
  -- each goes along a chain of edges: those of the table TRANSITIONS, and the one from `verifying`
  -- back to `opened` that an expired lease takes.
  pub run_all-Advances :
      (calls : List (Env × Call)) (db : Db)
      → IsConsistent db
      → Advances db.todos (run_all cfg json calls db).todos
  unfolding run_all
  run_all-Advances [] db k = Advances-refl db.todos
  run_all-Advances ((env, c) ∷ calls) db k =
      let db1 = committed db (perform cfg json env c db) in
      Advances-trans db.todos db1.todos _ (committed-Advances env c db _ refl k)
        (run_all-Advances calls db1 (committed-IsConsistent cfg json env c db _ refl k))

Edge-settled : (s t : Status) → is_settled s ≡ true → ¬ Edge s t
unfolding allows
Edge-settled Status.done t h (listed a) = cc a
Edge-settled Status.superseded t h (listed a) = cc a
Edge-settled Status.opened t h e = cc h
Edge-settled Status.claimed t h e = cc h
Edge-settled Status.running t h e = cc h
Edge-settled Status.verifying t h e = cc h
Edge-settled Status.blocked t h e = cc h
Edge-settled Status.needs_user t h e = cc h
Edge-settled s t h (expired p q) = ground arith

Chain-settled : {s t : Status} → is_settled s ≡ true → Chain s t → t ≡ s
Chain-settled h here = refl
Chain-settled {s} h (next {t = u} c e) =
    absurd (Edge-settled u _ (subst (λ x. is_settled x ≡ true) (sym (Chain-settled h c)) h) e)

-- A todo that is done or superseded stays so, under its identifier, over any sequence of calls from
-- consistent tables.
pub run_all-settled :
    (cfg : Config) (json : Json) (calls : List (Env × Call)) (db : Db) (i : String) (t : Todo)
    → IsConsistent db
    → find? (has_id i) db.todos ≡ some t
    → is_settled t.status ≡ true
    → (t' : Todo) × (find? (has_id i) (run_all cfg json calls db).todos ≡ some t')
      × (t'.status ≡ t.status)
run_all-settled cfg json calls db i t k e h =
    let (t', e', c) = run_all-Advances cfg json calls db k i t e in (t', e', Chain-settled h c)

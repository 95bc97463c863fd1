-- ===== src/Kernel/Lifecycle/Steps.antt =====
-- What one call of fleet/kernel/kernel.py makes of the status of a todo: the calls that move one todo.
use aidean_fleet.Common.{
  ◌≡◌, refl, true, not, ◌||◌, Option, some, String, find?, find?-true, ap, subst, ◌∙◌,
}
use aidean_fleet.Common.Text.{◌==◌, eq_of_==}
use aidean_fleet.Common.Outcome.{ok, bind_ok, guard_ok, returned}
use aidean_fleet.Kernel.State.{
  Status, in_flight, is_opened, is_claimed, is_running, is_verifying, is_blocked, is_needs_user,
  Verdict, is_verdict, is_done_verdict, TurnResult,
}
use aidean_fleet.Kernel.Tables.{Todo, EventKind, Db, Env, Config}
use aidean_fleet.Kernel.Sql.{has_id, get, event, set_todo, insert_attempt, close_open_attempt}
use aidean_fleet.Kernel.Lease.{
  claim_check, claim_write, claim, mark_running, mark_verifying, reopen,
}
use aidean_fleet.Kernel.Quota.{charge}
use aidean_fleet.Kernel.Writeback.{
  settle_row, record_outcome, is_credible, write_done, write_status, write_verdict, transition,
}
use aidean_fleet.Kernel.Steer.{Json, propose_plan_diff}
use aidean_fleet.Kernel.Machine.{Call, perform, tables_ok}
use aidean_fleet.Kernel.Consistency.Moves.{claim_check_ok, get_ok, reread_ok, found_self}
use aidean_fleet.Kernel.Lifecycle.Writes.{finish_goal-todos}
use aidean_fleet.Kernel.Lifecycle.Edges.{
  CallEdge, is_waiting, verdict_edge, edge_of, IsMoved, update-IsMoved, edge_subst,
}

module _ (cfg : Config) (json : Json) (env : Env) where
  claim-IsMoved :
      (i w : String) (lease : Option _) (h m : String) (db : Db) {r : Todo × Db}
      → claim cfg env i w lease h m db ≡ ok r
      → IsMoved record { todo = i; from = is_opened; target = Status.claimed } db.todos r.1.todos
  unfolding claim claim_write set_todo insert_attempt event
  claim-IsMoved i w lease h m db e = bind_ok (claim_check i db) e λ t e1 k2.
      let (at, free) = claim_check_ok i db e1 in
      reread_ok
        (λ d.
          IsMoved record { todo = i; from = is_opened; target = Status.claimed } db.todos d.todos)
        i _ k2 (update-IsMoved _ _ db.todos {t = t} (λ x. refl) at free refl)

  mark_running-IsMoved :
      (i w : String) (db : Db) {db' : Db}
      → mark_running env i w db ≡ ok db'
      → IsMoved record { todo = i; from = is_claimed; target = Status.running } db.todos db'.todos
  unfolding mark_running set_todo event
  mark_running-IsMoved i w db e = bind_ok (get i db) e λ t e1 k1.
      guard_ok (is_claimed t.status) _ k1 λ was k2. guard_ok (t.claimed_by == w) _ k2 λ mine k3.
        returned
          (λ d.
            IsMoved record { todo = i; from = is_claimed; target = Status.running } db.todos
              d.todos)
          _ k3 (update-IsMoved _ _ db.todos {t = t} (λ x. refl) (get_ok i db e1) was refl)

  mark_verifying-IsMoved :
      (i w : String) (db : Db) {db' : Db}
      → mark_verifying env i w db ≡ ok db'
      → IsMoved record { todo = i; from = is_running; target = Status.verifying } db.todos db'.todos
  unfolding mark_verifying set_todo event
  mark_verifying-IsMoved i w db e = bind_ok (get i db) e λ t e1 k1.
      guard_ok (is_running t.status) _ k1 λ was k2. guard_ok (t.claimed_by == w) _ k2 λ mine k3.
        returned
          (λ d.
            IsMoved record { todo = i; from = is_running; target = Status.verifying } db.todos
              d.todos)
          _ k3 (update-IsMoved _ _ db.todos {t = t} (λ x. refl) (get_ok i db e1) was refl)

  reopen-IsMoved :
      (i actor : String) (db : Db) {r : Todo × Db}
      → reopen env i actor db ≡ ok r
      → IsMoved record { todo = i; from = is_waiting; target = Status.opened } db.todos r.1.todos
  unfolding reopen set_todo event
  reopen-IsMoved i actor db e = bind_ok (get i db) e λ t e1 k1.
      guard_ok (is_blocked t.status || is_needs_user t.status) _ k1 λ was k2.
        reread_ok
          (λ d.
            IsMoved record { todo = i; from = is_waiting; target = Status.opened } db.todos d.todos)
          i _ k2 (update-IsMoved _ _ db.todos {t = t} (λ x. refl) (get_ok i db e1) was refl)

  propose_plan_diff-IsMoved :
      (i : String) (diff : _) (db : Db) {db' : Db}
      → propose_plan_diff json env i diff db ≡ ok db'
      → IsMoved record { todo = i; from = in_flight; target = Status.needs_user } db.todos db'.todos
  unfolding propose_plan_diff set_todo close_open_attempt event
  propose_plan_diff-IsMoved i diff db e = bind_ok (get i db) e λ t e1 k1.
      guard_ok (in_flight t.status) _ k1 λ flying k2.
        returned
          (λ d.
            IsMoved record { todo = i; from = in_flight; target = Status.needs_user } db.todos
              d.todos)
          _ k2 (update-IsMoved _ _ db.todos {t = t} (λ x. refl) (get_ok i db e1) flying refl)

  write_status-IsMoved :
      (s : Status) (text : String) (kind : EventKind) (todo : Todo) (db : Db)
      → find? (has_id todo.id) db.todos ≡ some todo
      → in_flight todo.status ≡ true
      → IsMoved
          record { todo = todo.id; from = in_flight; target = s }
          db.todos
          (write_status env s text kind todo db).todos
  unfolding write_status set_todo close_open_attempt event
  write_status-IsMoved s text kind todo db at flying =
      update-IsMoved _ _ db.todos {t = todo} (λ x. refl) at flying refl

  write_done-IsMoved :
      (todo : Todo) (result : TurnResult) (db : Db)
      → find? (has_id todo.id) db.todos ≡ some todo
      → is_verifying todo.status ≡ true
      → IsMoved
          record { todo = todo.id; from = is_verifying; target = Status.done }
          db.todos
          (write_done env todo result db).todos
  unfolding write_done record_outcome set_todo close_open_attempt event charge
  write_done-IsMoved todo result db at checked = rw (finish_goal-todos env todo.goal_id) (
      update-IsMoved _ (settle_row env Status.done) db.todos {t = todo} (λ x. refl) at checked refl)

  write_verdict-IsMoved :
      (v : Verdict) (todo : Todo) (result : TurnResult) (db : Db) {e : CallEdge} {db' : Db}
      → find? (has_id todo.id) db.todos ≡ some todo
      → in_flight todo.status ≡ true
      → (not (is_done_verdict v) || is_verifying todo.status) ≡ true
      → write_verdict cfg env v todo result db ≡ ok db'
      → verdict_edge todo.id v ≡ some e
      → IsMoved e db.todos db'.todos
  unfolding write_verdict
  write_verdict-IsMoved Verdict.done todo result db {e} at flying checked k same =
      guard_ok (is_credible todo result) _ k λ evident k1.
        returned (λ d. IsMoved e db.todos d.todos) _ k1
          (edge_subst _ same (write_done-IsMoved todo result db at checked))
  write_verdict-IsMoved Verdict.successor todo result db at flying checked k same = cc same
  write_verdict-IsMoved Verdict.blocked todo result db {e} at flying checked k same =
      returned (λ d. IsMoved e db.todos d.todos) _ k
        (edge_subst _ same (write_status-IsMoved Status.blocked "blocked" _ todo db at flying))
  write_verdict-IsMoved Verdict.needs_user todo result db {e} at flying checked k same =
      returned (λ d. IsMoved e db.todos d.todos) _ k
        (edge_subst _ same
          (write_status-IsMoved Status.needs_user "needs_user" _ todo db at flying))
  write_verdict-IsMoved (Verdict.other s) todo result db at flying checked k same = cc same

  transition-IsMoved :
      (i : String) (result : TurnResult) (db : Db) {e : CallEdge} {r : Todo × Db}
      → transition cfg env i result db ≡ ok r
      → verdict_edge i result.verdict ≡ some e
      → IsMoved e db.todos r.1.todos
  unfolding transition
  transition-IsMoved i result db {e} k same = guard_ok (is_verdict result.verdict) _ k λ known k0.
      bind_ok (get i db) k0 λ todo e1 k1. guard_ok (in_flight todo.status) _ k1 λ flying k2.
        guard_ok (not (is_done_verdict result.verdict) || is_verifying todo.status) _ k2
          λ checked k3.
            bind_ok (write_verdict cfg env result.verdict todo result db) k3 λ db1 e2 k4.
              let own : todo.id ≡ i =
                eq_of_== todo.id i (find?-true (has_id i) db.todos (get_ok i db e1)) in
              reread_ok (λ d. IsMoved e db.todos d.todos) i db1 k4
                (write_verdict-IsMoved result.verdict todo result db
                  (found_self i db (get_ok i db e1)) flying checked e2
                  (ap (λ j. verdict_edge j result.verdict) own ∙ same))

  -- A call that moves one todo, where it goes through, finds that todo and takes exactly its edge: claim
  -- from open to claimed, mark_running from claimed to running, mark_verifying from running to verifying,
  -- reopen from blocked or needs_user to open, propose_plan_diff from a status in flight to needs_user,
  -- and transition from verifying to done, or from a status in flight to blocked or to needs_user as its
  -- verdict says. The rows of all other todos stay as they were. A transition to a successor is no such
  -- call.
  pub perform-IsMoved :
      (c : Call) (db : Db) {e : CallEdge} {db' : Db}
      → perform cfg json env c db ≡ ok db'
      → edge_of c ≡ some e
      → IsMoved e db.todos db'.todos
  unfolding perform
  perform-IsMoved (Call.claim_call i w lease h m) db {e} k same =
      let (r, p, q) = tables_ok _ k in
      subst (λ d. IsMoved e db.todos d.todos) q
        (edge_subst _ same (claim-IsMoved i w lease h m db p))
  perform-IsMoved (Call.mark_running_call i w) db k same =
      edge_subst _ same (mark_running-IsMoved i w db k)
  perform-IsMoved (Call.mark_verifying_call i w) db k same =
      edge_subst _ same (mark_verifying-IsMoved i w db k)
  perform-IsMoved (Call.reopen_call i actor) db {e} k same =
      let (r, p, q) = tables_ok _ k in
      subst (λ d. IsMoved e db.todos d.todos) q (edge_subst _ same (reopen-IsMoved i actor db p))
  perform-IsMoved (Call.propose_plan_diff_call i diff) db k same =
      edge_subst _ same (propose_plan_diff-IsMoved i diff db k)
  perform-IsMoved (Call.transition_call i result) db {e} k same =
      let (r, p, q) = tables_ok _ k in
      subst (λ d. IsMoved e db.todos d.todos) q (transition-IsMoved i result db p same)
  perform-IsMoved (Call.create_goal_call title gid) db k same = cc same
  perform-IsMoved (Call.create_goal_with_plan_call title req ws role tid) db k same = cc same
  perform-IsMoved (Call.create_goal_draft_call title req ws gid) db k same = cc same
  perform-IsMoved (Call.append_goal_requirements_call g addition) db k same = cc same
  perform-IsMoved (Call.freeze_goal_call g role tid) db k same = cc same
  perform-IsMoved (Call.create_todo_call g spec) db k same = cc same
  perform-IsMoved (Call.claimable_call role kind) db k same = cc same
  perform-IsMoved (Call.renew_lease_call i w lease) db k same = cc same
  perform-IsMoved Call.requeue_expired_leases_call db k same = cc same
  perform-IsMoved (Call.apply_plan_diff_call i d diff actor) db k same = cc same
  perform-IsMoved (Call.set_quota_call key limit) db k same = cc same
  perform-IsMoved (Call.mark_events_published_call seqs) db k same = cc same

-- ===== src/Kernel/Verdicts/Done.antt =====
-- The verdict `done`: when it is accepted, and what it leaves behind.
use aidean_fleet.Common.{◌≡◌, refl, true, some, String, find?, arith}
use aidean_fleet.Common.Outcome.{ok}
use aidean_fleet.Kernel.State.{Status, in_flight, is_verifying, Verdict, TurnResult}
use aidean_fleet.Kernel.Tables.{Todo, Db, Env, Config}
use aidean_fleet.Kernel.Sql.{has_id, text_or, get, event, set_todo, set_goal, close_open_attempt}
use aidean_fleet.Common.{subst, sym, find?-true}
use aidean_fleet.Common.Outcome.{bind_ok, guard_ok, returned}
use aidean_fleet.Common.Text.{eq_of_==}
use aidean_fleet.Kernel.Lease.{reread}
use aidean_fleet.Kernel.Consistency.Attempts.{opens, opens-close_self}
use aidean_fleet.Kernel.Consistency.Moves.{get_ok, opens-update}
use aidean_fleet.Common.{find?-update_self, ◌∙◌}
use aidean_fleet.Kernel.Quota.{charge}
use aidean_fleet.Kernel.Consistency.Moves.{found_self}
use aidean_fleet.Kernel.Lifecycle.Writes.{finish_goal-todos}
use aidean_fleet.Kernel.Writeback.{
  settle_row, with_outcome, record_outcome, is_just_done, set_goal_done, finish_goal, is_credible,
  write_done, write_verdict, transition,
}

-- what a todo must be for the verdict `done` to be accepted
pub record IsAcceptable (todo : Todo) (result : TurnResult) : Type 0 where
  pub verified : is_verifying todo.status ≡ true
  pub credible : is_credible todo result ≡ true

-- the result with another verdict
abbrev pub saying : Verdict → TurnResult → TurnResult
saying v result = record result { verdict = v }

-- what `write_done` leaves of the row, the attempts and the quotas
done_row :
    (env : Env) (todo : Todo) (result : TurnResult) (db : Db)
    → find? (has_id todo.id) db.todos ≡ some todo
    → find? (has_id todo.id) (write_done env todo result db).todos
      ≡ some (settle_row env Status.done todo)
unfolding write_done record_outcome set_todo close_open_attempt event charge
done_row env todo result db at =
    rw (finish_goal-todos env todo.goal_id)
      (find?-update_self (has_id todo.id) (settle_row env Status.done) db.todos (λ x. refl) at)

finish_goal-rest :
    (env : Env) (g : String) (db : Db)
    → ((finish_goal env g db).attempts ≡ db.attempts) × ((finish_goal env g db).quotas ≡ db.quotas)
unfolding finish_goal set_goal_done set_goal event
finish_goal-rest env g db = ground arith

done_attempts :
    (env : Env) (todo : Todo) (result : TurnResult) (db : Db)
    → opens todo.id (write_done env todo result db).attempts ≡ 0
unfolding write_done record_outcome set_todo close_open_attempt event charge
done_attempts env todo result db = rw (finish_goal-rest env todo.goal_id _).0 (
    opens-update (is_just_done todo.id _) (with_outcome result) todo.id _ (λ a. (refl, refl))
    ∙ opens-close_self env todo.id "done" db.attempts)

done_quotas :
    (env : Env) (todo : Todo) (result : TurnResult) (db : Db)
    → (write_done env todo result db).quotas
      ≡ (charge env (text_or (some todo.role) "global") 1 db).quotas
unfolding write_done record_outcome set_todo close_open_attempt event charge
done_quotas env todo result db = (finish_goal-rest env todo.goal_id _).1

-- what is seen behind a todo that was written back as done
pub record IsWrittenDone (env : Env) (i : String) (todo : Todo) (db : Db) (r : Todo × Db)
    : Type 0 where
  pub returned_row : r.0 ≡ settle_row env Status.done todo
  pub stored_row : find? (has_id i) r.1.todos ≡ some r.0
  pub attempts_closed : opens i r.1.attempts ≡ 0
  pub charged : r.1.quotas ≡ (charge env (text_or (some todo.role) "global") 1 db).quotas

write_done-seen :
    (env : Env) (i : String) (todo : Todo) (result : TurnResult) (db : Db) {r : Todo × Db}
    → find? (has_id i) db.todos ≡ some todo
    → reread i (write_done env todo result db) ≡ ok r
    → IsWrittenDone env i todo db r
unfolding reread
write_done-seen env i todo result db {r} at e =
    let own : todo.id ≡ i = eq_of_== todo.id i (find?-true (has_id i) db.todos at) in
    let db' = write_done env todo result db in
    let row : find? (has_id i) db'.todos ≡ some (settle_row env Status.done todo) =
      subst (λ j. find? (has_id j) db'.todos ≡ some (settle_row env Status.done todo)) own
        (done_row env todo result db (found_self i db at)) in
    bind_ok (get i db') e λ t e1 k.
      let at' = get_ok i db' e1 in
      returned (IsWrittenDone env i todo db) (t, db') k
        record {
          returned_row = cc (at', row);
          stored_row = at';
          attempts_closed =
              subst (λ j. opens j db'.attempts ≡ 0) own (done_attempts env todo result db);
          charged = done_quotas env todo result db;
        }

-- A `done` that is accepted comes from a todo that was being verified, with commands to verify it or
-- with evidence (unless it is no exec todo). It returns and stores the row as done and without a
-- lease, leaves the todo no open attempt, and charges one to its role, or to `global` without one.
pub transition-done :
    (cfg : Config) (env : Env) (i : String) (result : TurnResult) (db : Db) {r : Todo × Db}
    → transition cfg env i (saying Verdict.done result) db ≡ ok r
    → (todo : Todo) × (find? (has_id i) db.todos ≡ some todo)
      × IsAcceptable todo result
      × IsWrittenDone env i todo db r
unfolding transition write_verdict
transition-done cfg env i result db {r} e = bind_ok (get i db) e λ todo e1 k1.
    guard_ok (in_flight todo.status) _ k1 λ flying k2.
      guard_ok (is_verifying todo.status) _ k2 λ verified k3.
        bind_ok (write_verdict cfg env Verdict.done todo (saying Verdict.done result) db) k3
          λ db1 e2 k4. guard_ok (is_credible todo result) _ e2 λ credible k5.
            let at = get_ok i db e1 in
            (
              todo,
              at,
              record { verified = verified; credible = credible },
              write_done-seen env i todo (saying Verdict.done result) db at
                  (subst (λ d. reread i d ≡ ok r) (sym (cc k5)) k4),
            )

pub get_of_find? :
    (i : String) (db : Db) {t : Todo} → find? (has_id i) db.todos ≡ some t → get i db ≡ ok t
unfolding get
get_of_find? i db at = rw at

-- The other way round: from such a todo the verdict `done` is never refused.
pub transition-done_accepts :
    (cfg : Config) (env : Env) (i : String) (result : TurnResult) (db : Db) (todo : Todo)
    → find? (has_id i) db.todos ≡ some todo
    → IsAcceptable todo result
    → (r : Todo × Db) × (transition cfg env i (saying Verdict.done result) db ≡ ok r)
unfolding transition write_verdict reread
transition-done_accepts cfg env i result db todo at h =
    let own : todo.id ≡ i = eq_of_== todo.id i (find?-true (has_id i) db.todos at) in
    let flying : in_flight todo.status ≡ true = ground (arith, h.verified) in
    let db' = write_done env todo (saying Verdict.done result) db in
    let row : get i db' ≡ ok (settle_row env Status.done todo) =
      subst (λ j. get j db' ≡ ok (settle_row env Status.done todo)) own
        (get_of_find? todo.id db'
          (done_row env todo (saying Verdict.done result) db (found_self i db at))) in
    (
      (settle_row env Status.done todo, db'),
      rw (get_of_find? i db at, flying, h.verified, h.credible, row),
    )

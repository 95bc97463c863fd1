-- ===== src/Kernel/Consistency/Writes.antt =====
-- `transition` keeps the tables consistent.
use aidean_fleet.Common.{◌≡◌, refl, false, not, ◌||◌, some, String, leb, eqb, find?, arith}
use aidean_fleet.Common.Outcome.{ok}
use aidean_fleet.Kernel.State.{
  Status, in_flight, is_verifying, Verdict, is_verdict, is_done_verdict, Successor, TurnResult,
}
use aidean_fleet.Kernel.Tables.{Todo, EventKind, Db, Env, Config}
use aidean_fleet.Kernel.Sql.{
  has_id, get, event, insert_todo, set_todo, set_goal, close_open_attempt,
}
use aidean_fleet.Common.{inl, inr, Bool-cases}
use aidean_fleet.Common.Outcome.{bind_ok, guard_ok, returned}
use aidean_fleet.Kernel.Consistency.Defs.{IsConsistent}
use aidean_fleet.Kernel.Consistency.Moves.{get_ok, reread_ok, IsNew, close-IsConsistent}
use aidean_fleet.Kernel.Quota.{charge}
use aidean_fleet.Kernel.Consistency.Moves.{rewrite-IsConsistent, found_self}
use aidean_fleet.Kernel.Consistency.Creation.{insert_todo-IsConsistent}
use aidean_fleet.Kernel.Writeback.{
  settle_row, make_successor, with_outcome, record_outcome, is_just_done, last_attempt, unfinished,
  set_goal_done, finish_goal, is_credible, write_done, lineage_attempts, successor_todo,
  write_status, write_successor, write_verdict, transition,
}

pub set_goal_done-IsConsistent :
    (env : Env) (g : String) (db : Db) → IsConsistent db → IsConsistent (set_goal_done env g db)
unfolding set_goal_done set_goal event
set_goal_done-IsConsistent env g db c = c

finish_goal-IsConsistent :
    (env : Env) (g : String) (db : Db) → IsConsistent db → IsConsistent (finish_goal env g db)
unfolding finish_goal
finish_goal-IsConsistent env g db c = elim (Bool-cases (eqb (unfinished g db) 0)) [
  | inl p ↦ rw p (set_goal_done-IsConsistent env g db c)
  | inr p ↦ rw p c
]

record_outcome-IsConsistent :
    (i : String) (result : TurnResult) (db : Db)
    → IsConsistent db
    → IsConsistent (record_outcome i result db)
unfolding record_outcome
record_outcome-IsConsistent i result db c =
    rewrite-IsConsistent (is_just_done i (last_attempt i db.attempts)) (with_outcome result)
      db.todos db.attempts (λ a. (refl, refl)) c

successor_todo-IsNew :
    (env : Env) (new_id : String) (todo : Todo) (spec : Successor)
    → IsNew (successor_todo env new_id todo spec)
unfolding successor_todo
successor_todo-IsNew env new_id todo spec = ground arith

module _ (env : Env) (todo : Todo) (db : Db)
    (at : find? (has_id todo.id) db.todos ≡ some todo) where
  -- any status out of flight may be written
  pub write_status-IsConsistent :
      (s : Status) (r : String) (kind : EventKind)
      → in_flight s ≡ false
      → IsConsistent db
      → IsConsistent (write_status env s r kind todo db)
  unfolding write_status set_todo close_open_attempt event
  write_status-IsConsistent s r kind out c =
      close-IsConsistent env todo.id r (settle_row env s) db.todos db.attempts {t = todo}
        (λ x. refl) (λ x. refl) out refl at c

  write_done-IsConsistent :
      (result : TurnResult) → IsConsistent db → IsConsistent (write_done env todo result db)
  unfolding write_done set_todo close_open_attempt event charge
  write_done-IsConsistent result c = finish_goal-IsConsistent env todo.goal_id _ (
      record_outcome-IsConsistent todo.id result _ (
        close-IsConsistent env todo.id "done" (settle_row env Status.done) db.todos db.attempts
          {t = todo} (λ x. refl) (λ x. refl) refl refl at c))

  make_successor-IsConsistent :
      (result : TurnResult) {db' : Db}
      → make_successor env todo result db ≡ ok db'
      → IsConsistent db
      → IsConsistent db'
  unfolding make_successor set_todo close_open_attempt event
  make_successor-IsConsistent result e c = bind_ok (insert_todo _ _) e λ db3 e1 k.
      returned IsConsistent _ k (
        insert_todo-IsConsistent _ _ (successor_todo-IsNew env _ todo result.successor) e1 (
          close-IsConsistent env todo.id "successor" (settle_row env Status.superseded) db.todos
            db.attempts {t = todo} (λ x. refl) (λ x. refl) refl refl at c))

  write_successor-IsConsistent :
      (cfg : Config) (result : TurnResult) {db' : Db}
      → write_successor cfg env todo result db ≡ ok db'
      → IsConsistent db
      → IsConsistent db'
  unfolding write_successor
  write_successor-IsConsistent cfg result e c =
      elim (Bool-cases (leb cfg.lineage_limit (lineage_attempts todo.lineage db))) [
        | inl p ↦
            returned IsConsistent _ (rw p at e)
              (write_status-IsConsistent Status.needs_user "needs_user" _ refl c)
        | inr p ↦ make_successor-IsConsistent result (rw p at e) c
      ]

  -- every branch on the verdict
  write_verdict-IsConsistent :
      (cfg : Config) (v : Verdict) (result : TurnResult) {db' : Db}
      → write_verdict cfg env v todo result db ≡ ok db'
      → IsConsistent db
      → IsConsistent db'
  unfolding write_verdict
  write_verdict-IsConsistent cfg Verdict.done result e c =
      guard_ok (is_credible todo result) _ e
        λ evident k. returned IsConsistent _ k (write_done-IsConsistent result c)
  write_verdict-IsConsistent cfg Verdict.successor result e c =
      write_successor-IsConsistent cfg result e c
  write_verdict-IsConsistent cfg Verdict.blocked result e c =
      returned IsConsistent _ e (write_status-IsConsistent Status.blocked "blocked" _ refl c)
  write_verdict-IsConsistent cfg Verdict.needs_user result e c =
      returned IsConsistent _ e (write_status-IsConsistent Status.needs_user "needs_user" _ refl c)
  write_verdict-IsConsistent cfg (Verdict.other s) result e c = cc

-- `transition` keeps the tables consistent, whatever the verdict.
pub transition-IsConsistent :
    (cfg : Config) (env : Env) (i : String) (result : TurnResult) (db : Db) {r : Todo × Db}
    → transition cfg env i result db ≡ ok r
    → IsConsistent db
    → IsConsistent r.1
unfolding transition
transition-IsConsistent cfg env i result db e c =
    guard_ok (is_verdict result.verdict) _ e λ known k0. bind_ok (get i db) k0 λ todo e1 k1.
      guard_ok (in_flight todo.status) _ k1 λ flying k2.
        guard_ok (not (is_done_verdict result.verdict) || is_verifying todo.status) _ k2
          λ verified k3.
            bind_ok (write_verdict cfg env result.verdict todo result db) k3 λ db1 e2 k4.
              reread_ok IsConsistent i db1 k4 (
                write_verdict-IsConsistent env todo db (found_self i db (get_ok i db e1)) cfg
                  result.verdict result e2 c)

-- ===== src/Kernel/Lifecycle/Writes.antt =====
-- `transition` moves a status along the edges.
use aidean_fleet.Common.{◌≡◌, refl, true, not, ◌||◌, some, String, leb, eqb, find?, update, arith}
use aidean_fleet.Common.Outcome.{ok}
use aidean_fleet.Kernel.State.{
  Status, in_flight, is_verifying, Verdict, is_verdict, is_done_verdict, TurnResult,
}
use aidean_fleet.Kernel.Tables.{Todo, EventKind, Db, Env, Config}
use aidean_fleet.Kernel.Sql.{
  has_id, get, event, insert_todo, set_todo, set_goal, close_open_attempt,
}
use aidean_fleet.Common.{inl, inr, Bool-cases}
use aidean_fleet.Common.Outcome.{bind_ok, guard_ok, returned}
use aidean_fleet.Kernel.Consistency.Moves.{get_ok, reread_ok}
use aidean_fleet.Kernel.Lifecycle.Defs.{allows, Chain-one, Advances, Advances-trans, Advances-move}
use aidean_fleet.Kernel.Consistency.Moves.{found_self}
use aidean_fleet.Kernel.Quota.{charge}
use aidean_fleet.Kernel.Lifecycle.Creation.{insert_todo-Advances}
use aidean_fleet.Kernel.Writeback.{
  settle_row, make_successor, record_outcome, unfinished, set_goal_done, finish_goal, is_credible,
  write_done, lineage_attempts, write_status, write_successor, write_verdict, transition,
}

pub set_goal_done-todos :
    (env : Env) (g : String) (db : Db) → (set_goal_done env g db).todos ≡ db.todos
unfolding set_goal_done set_goal event
set_goal_done-todos env g db = refl

pub finish_goal-todos : (env : Env) (g : String) (db : Db) → (finish_goal env g db).todos ≡ db.todos
unfolding finish_goal
finish_goal-todos env g db = elim (Bool-cases (eqb (unfinished g db) 0)) [
  | inl p ↦ rw p (set_goal_done-todos env g db)
  | inr p ↦ rw p
]

module _ (env : Env) (todo : Todo) (db : Db)
    (at : find? (has_id todo.id) db.todos ≡ some todo) where
  -- any status that the table allows may be written
  pub write_status-Advances :
      (s : Status) (r : String) (kind : EventKind)
      → allows todo.status s ≡ true
      → Advances db.todos (write_status env s r kind todo db).todos
  unfolding write_status set_todo close_open_attempt event
  write_status-Advances s r kind h =
      Advances-move todo.id (settle_row env s) db.todos {t = todo} (λ x. refl) at
        (Chain-one todo.status s h)

  write_done-Advances :
      (result : TurnResult)
      → is_verifying todo.status ≡ true
      → Advances db.todos (write_done env todo result db).todos
  unfolding write_done record_outcome set_todo close_open_attempt event charge
  write_done-Advances result h = rw (finish_goal-todos env todo.goal_id) (
      Advances-move todo.id (settle_row env Status.done) db.todos {t = todo} (λ x. refl) at
        (Chain-one todo.status Status.done (unfold allows in ground arith)))

  make_successor-Advances :
      (result : TurnResult) {db' : Db}
      → in_flight todo.status ≡ true
      → make_successor env todo result db ≡ ok db'
      → Advances db.todos db'.todos
  unfolding make_successor set_todo close_open_attempt event
  make_successor-Advances result h e = bind_ok (insert_todo _ _) e λ db3 e1 k.
      returned (λ d. Advances db.todos d.todos) _ k
        (Advances-trans db.todos
          (update (has_id todo.id) (settle_row env Status.superseded) db.todos) db3.todos
          (Advances-move todo.id (settle_row env Status.superseded) db.todos {t = todo} (λ x. refl)
            at (Chain-one todo.status Status.superseded (unfold allows in ground arith)))
          (insert_todo-Advances _ _ e1))

  -- every branch on the verdict, from a todo in flight
  write_verdict-Advances :
      (cfg : Config) (v : Verdict) (result : TurnResult) {db' : Db}
      → in_flight todo.status ≡ true
      → (not (is_done_verdict v) || is_verifying todo.status) ≡ true
      → write_verdict cfg env v todo result db ≡ ok db'
      → Advances db.todos db'.todos
  unfolding write_verdict write_successor
  write_verdict-Advances cfg Verdict.done result h g e =
      guard_ok (is_credible todo result) _ e
        λ evident k. returned (λ d. Advances db.todos d.todos) _ k (write_done-Advances result g)
  write_verdict-Advances cfg Verdict.successor result h g e =
      elim (Bool-cases (leb cfg.lineage_limit (lineage_attempts todo.lineage db))) [
        | inl p ↦
            returned (λ d. Advances db.todos d.todos) _ (rw p at e)
              (write_status-Advances Status.needs_user "needs_user" _
                (unfold allows in ground arith))
        | inr p ↦ make_successor-Advances result h (rw p at e)
      ]
  write_verdict-Advances cfg Verdict.blocked result h g e =
      returned (λ d. Advances db.todos d.todos) _ e
        (write_status-Advances Status.blocked "blocked" _ (unfold allows in ground arith))
  write_verdict-Advances cfg Verdict.needs_user result h g e =
      returned (λ d. Advances db.todos d.todos) _ e
        (write_status-Advances Status.needs_user "needs_user" _ (unfold allows in ground arith))
  write_verdict-Advances cfg (Verdict.other s) result h g e = cc

pub transition-Advances :
    (cfg : Config) (env : Env) (i : String) (result : TurnResult) (db : Db) {r : Todo × Db}
    → transition cfg env i result db ≡ ok r
    → Advances db.todos r.1.todos
unfolding transition
transition-Advances cfg env i result db e = guard_ok (is_verdict result.verdict) _ e λ known k0.
    bind_ok (get i db) k0 λ todo e1 k1. guard_ok (in_flight todo.status) _ k1 λ flying k2.
      guard_ok (not (is_done_verdict result.verdict) || is_verifying todo.status) _ k2
        λ verified k3. bind_ok (write_verdict cfg env result.verdict todo result db) k3 λ db1 e2 k4.
          reread_ok (λ d. Advances db.todos d.todos) i db1 k4
            (write_verdict-Advances env todo db (found_self i db (get_ok i db e1)) cfg
              result.verdict result flying verified e2)

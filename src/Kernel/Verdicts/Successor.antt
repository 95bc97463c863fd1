-- ===== src/Kernel/Verdicts/Successor.antt =====
-- The verdict `successor`, below the limit of the lineage and at it.
use aidean_fleet.Common.{
  ◌≤◌, ◌<◌, ◌≡◌, refl, true, false, not, [], ◌∷◌, ◌++◌, some, String, leb, any, find?, update,
  arith,
}
use aidean_fleet.Common.Outcome.{ok, err}
use aidean_fleet.Kernel.State.{Status, in_flight, Verdict, TurnResult}
use aidean_fleet.Kernel.Tables.{Todo, EventKind, Db, Env, Config}
use aidean_fleet.Kernel.Sql.{
  has_id, has_goal_id, text_or, get, event, insert_todo, set_todo, close_open_attempt,
}
use aidean_fleet.Common.{subst, sym, find?-true}
use aidean_fleet.Common.Outcome.{bind_ok, guard_ok, returned}
use aidean_fleet.Common.Text.{eq_of_==, ==_refl}
use aidean_fleet.Kernel.Lease.{reread}
use aidean_fleet.Kernel.Consistency.Moves.{get_ok}
use aidean_fleet.Common.{
  ap, find?-append_none, find?_none_of_any, find?-update_self, find?-append, ◌∙◌,
}
use aidean_fleet.Kernel.Consistency.Moves.{found_self}
use aidean_fleet.Kernel.Writeback.{
  settle_row, make_successor, lineage_attempts, successor_todo, write_status, write_successor,
  write_verdict, transition,
}
use aidean_fleet.Kernel.Verdicts.Done.{saying}

-- what is seen behind a todo whose turn asks for a successor
pub record IsSucceeded (env : Env) (i : String) (todo : Todo) (r : Todo × Db) : Type 0 where
  pub superseded_row : r.0 ≡ settle_row env Status.superseded todo
  pub new_todo : Todo
  pub stored_new : find? (has_id new_todo.id) r.1.todos ≡ some new_todo
  pub new_opened : new_todo.status ≡ Status.opened
  pub same_lineage : new_todo.lineage ≡ todo.lineage
  pub points_back : new_todo.successor_of ≡ todo.id

-- a verdict that only parks the todo
write_status-seen :
    (env : Env) (i : String) (s : Status) (why : String) (kind : EventKind) (todo : Todo) (db : Db)
    {r : Todo × Db}
    → find? (has_id i) db.todos ≡ some todo
    → reread i (write_status env s why kind todo db) ≡ ok r
    → (r.0 ≡ settle_row env s todo)
      × (r.1.todos ≡ update (has_id todo.id) (settle_row env s) db.todos)
unfolding reread write_status set_todo close_open_attempt event
write_status-seen env i s why kind todo db {r} at e =
    let own : todo.id ≡ i = eq_of_== todo.id i (find?-true (has_id i) db.todos at) in
    let db' = write_status env s why kind todo db in
    let row : find? (has_id i) db'.todos ≡ some (settle_row env s todo) =
      subst (λ j. find? (has_id j) db'.todos ≡ some (settle_row env s todo)) own
        (find?-update_self (has_id todo.id) (settle_row env s) db.todos (λ x. refl)
          (found_self i db at)) in
    bind_ok (get i db') e λ t e1 k.
      returned
        (λ x.
          (x.0 ≡ settle_row env s todo)
          × (x.1.todos ≡ update (has_id todo.id) (settle_row env s) db.todos))
        (t, db') k (cc (get_ok i db' e1, row), refl)

-- what an INSERT leaves: the new row, and those that were there
record IsInserted (t : Todo) (db db' : Db) : Type 0 where
  new_row : find? (has_id t.id) db'.todos ≡ some t
  old_rows :
      (j : String) (x : Todo)
      → find? (has_id j) db.todos ≡ some x
      → find? (has_id j) db'.todos ≡ some x

insert_todo-seen : (t : Todo) (db : Db) {db' : Db} → insert_todo t db ≡ ok db' → IsInserted t db db'
unfolding insert_todo
insert_todo-seen t db e = guard_ok (not (any (has_id t.id) db.todos)) _ e λ new k.
    guard_ok (any (has_goal_id t.goal_id) db.goals) _ k λ parent k'.
      returned (IsInserted t db) (record db { todos = db.todos ++ t ∷ [] }) k'
        record {
          new_row =
              find?-append_none (has_id t.id) db.todos (t ∷ [])
                (find?_none_of_any (has_id t.id) db.todos (ground arith))
              ∙ rw (==_refl t.id);
          old_rows = λ j x at. find?-append (has_id j) db.todos (t ∷ []) at;
        }

make_successor-seen :
    (env : Env) (i : String) (todo : Todo) (result : TurnResult) (db db' : Db) {r : Todo × Db}
    → find? (has_id i) db.todos ≡ some todo
    → make_successor env todo result db ≡ ok db'
    → reread i db' ≡ ok r
    → IsSucceeded env i todo r
unfolding make_successor set_todo close_open_attempt event reread successor_todo
make_successor-seen env i todo result db db' {r} at e e' = bind_ok (insert_todo _ _) e λ db3 e1 k1.
    bind_ok (get i db') e' λ t e2 k2.
      let new =
        successor_todo env (text_or result.successor.id (env.fresh 0)) todo result.successor in
      let seen = insert_todo-seen _ _ e1 in
      let own : todo.id ≡ i = eq_of_== todo.id i (find?-true (has_id i) db.todos at) in
      let row =
        find?-update_self (has_id i) (settle_row env Status.superseded) db.todos (λ x. refl) at in
      let row3 : find? (has_id i) db3.todos ≡ some (settle_row env Status.superseded todo) =
        seen.old_rows i (settle_row env Status.superseded todo) (
          subst
            (λ j.
              find? (has_id i) (update (has_id j) (settle_row env Status.superseded) db.todos)
              ≡ some (settle_row env Status.superseded todo))
            (sym own) row) in
      let same : db3.todos ≡ db'.todos = ap (λ m. elim m [ ok d ↦ d.todos | err x ↦ [] ]) k1 in
      returned (IsSucceeded env i todo) (t, db') k2
        record {
          superseded_row = cc (
            get_ok i db' e2,
            subst (λ ts. find? (has_id i) ts ≡ some (settle_row env Status.superseded todo)) same
                row3,
          );
          new_todo = new;
          stored_new = subst (λ ts. find? (has_id new.id) ts ≡ some new) same seen.new_row;
          new_opened = refl;
          same_lineage = refl;
          points_back = refl;
        }

-- A turn that asks for a successor, where the lineage has had fewer attempts than the limit,
-- supersedes its todo and stores an open one of the same lineage that points back to it; from the
-- limit on no todo is added, and the todo waits for the user.
pub transition-successor :
    (cfg : Config) (env : Env) (i : String) (result : TurnResult) (db : Db) {r : Todo × Db}
    → transition cfg env i (saying Verdict.successor result) db ≡ ok r
    → (todo : Todo) × (find? (has_id i) db.todos ≡ some todo)
      × (in_flight todo.status ≡ true)
      × (lineage_attempts todo.lineage db < cfg.lineage_limit → IsSucceeded env i todo r)
      × (cfg.lineage_limit ≤ lineage_attempts todo.lineage db
          → (r.0 ≡ settle_row env Status.needs_user todo)
            × (r.1.todos ≡ update (has_id todo.id) (settle_row env Status.needs_user) db.todos))
unfolding transition write_verdict write_successor
transition-successor cfg env i result db {r} e = bind_ok (get i db) e λ todo e1 k1.
    guard_ok (in_flight todo.status) _ k1 λ flying k2.
      bind_ok (write_verdict cfg env Verdict.successor todo (saying Verdict.successor result) db) k2
        λ db1 e2 k4.
          let at = get_ok i db e1 in
          let tries_so_far = lineage_attempts todo.lineage db in
          (
            todo,
            at,
            flying,
            λ below.
                let p : leb cfg.lineage_limit tries_so_far ≡ false = ground arith in
                make_successor-seen env i todo (saying Verdict.successor result) db db1 at
                  (rw p at e2) k4,
            λ full.
                let p : leb cfg.lineage_limit tries_so_far ≡ true = ground arith in
                let kind = EventKind.todo_needs_user (some cfg.lineage_limit) result.note in
                let q : write_status env Status.needs_user "needs_user" kind todo db ≡ db1 =
                  cc (rw p at e2) in
                write_status-seen env i Status.needs_user "needs_user" kind todo db at
                  (subst (λ d. reread i d ≡ ok r) (sym q) k4),
          )

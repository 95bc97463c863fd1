-- ===== src/Kernel/Lifecycle/Plans.antt =====
-- The plan changes move statuses along the edges.
use aidean_fleet.Common.{
  ℕ, ◌≡◌, refl, Bool, true, false, not, ◌||◌, List, [], ◌∷◌, Option, none, some, String, find?,
  update, arith,
}
use aidean_fleet.Common.Outcome.{ok}
use aidean_fleet.Kernel.State.{Status, in_flight, is_settled, is_needs_user}
use aidean_fleet.Kernel.Tables.{
  Todo, PlanDecision, AddSpec, ModifySpec, PlanDiff, Decision, Db, Env,
}
use aidean_fleet.Kernel.Sql.{has_id, get, event, insert_todo, set_todo, close_open_attempt}
use aidean_fleet.Common.{inl, inr, Bool-cases}
use aidean_fleet.Common.Outcome.{bind_ok, guard_ok, returned}
use aidean_fleet.Kernel.Consistency.Defs.{IsConsistent}
use aidean_fleet.Kernel.Consistency.Moves.{get_ok, reread_ok}
use aidean_fleet.Kernel.Lifecycle.Defs.{
  allows, here, Chain-one, Advances, Advances-refl, Advances-trans, Advances-update, Advances-move,
}
use aidean_fleet.Common.{find?-update_self}
use aidean_fleet.Kernel.Writeback.{settle_row}
use aidean_fleet.Kernel.Consistency.Moves.{found_self}
use aidean_fleet.Kernel.Consistency.Plans.{Keeps, decide-Keeps, announce-Keeps}
use aidean_fleet.Kernel.Lifecycle.Creation.{insert_todo-Advances}
use aidean_fleet.Kernel.Lifecycle.Writes.{set_goal_done-todos}
use aidean_fleet.Kernel.Steer.{
  Json, propose_plan_diff, diff_of, add_todos, Progress, is_off_limits, cancel_row, cancel_todos,
  has_fields, modified, modify_row, modify_target, modify_todos, apply_changes, is_decision,
  is_undecided, is_complete, decided_row, announce, finish_plan, decide, close_goal,
  apply_plan_diff,
}

pub propose_plan_diff-Advances :
    (json : Json) (env : Env) (i : String) (diff : PlanDiff) (db : Db) {db' : Db}
    → propose_plan_diff json env i diff db ≡ ok db'
    → Advances db.todos db'.todos
unfolding propose_plan_diff set_todo close_open_attempt event
propose_plan_diff-Advances json env i diff db e = bind_ok (get i db) e λ t e1 k1.
    guard_ok (in_flight t.status) _ k1 λ flying k2.
      returned (λ d. Advances db.todos d.todos) _ k2
        (Advances-move i _ db.todos {t = t} (λ x. refl) (get_ok i db e1)
          (Chain-one t.status Status.needs_user (unfold allows in ground arith)))

module _ (env : Env) (todo : Todo) where
  add_todos-Advances :
      (ids : List (String × String)) (specs : List AddSpec) (n : ℕ) (db : Db) {db' : Db}
      → add_todos env ids todo specs n db ≡ ok db'
      → Advances db.todos db'.todos
  unfolding add_todos event
  add_todos-Advances ids [] n db e =
      returned (λ d. Advances db.todos d.todos) db e (Advances-refl db.todos)
  add_todos-Advances ids (spec ∷ specs) n db {db'} e = bind_ok (insert_todo _ db) e λ db1 e1 k1.
      Advances-trans db.todos db1.todos db'.todos (insert_todo-Advances _ db e1)
        (add_todos-Advances ids specs _ _ k1)

  cancel_row-Advances :
      (c : String) (row : Option Todo) (p : Progress)
      → find? (has_id c) p.db.todos ≡ row
      → Advances p.db.todos (cancel_row env todo c row p).db.todos
  unfolding cancel_row set_todo event
  cancel_row-Advances c none p e = Advances-refl p.db.todos
  cancel_row-Advances c (some row) p e = elim (Bool-cases (is_settled row.status)) [
    | inl settled ↦ rw settled (Advances-refl p.db.todos)
    | inr live ↦ elim (Bool-cases (is_off_limits todo c row)) [
      | inl off ↦ rw (live, off) (Advances-refl p.db.todos)
      | inr free ↦
          rw (live, free)
            (Advances-move c (λ t. record t { status = Status.superseded; updated_at = env.stamp })
              p.db.todos {t = row} (λ x. refl) e
              (Chain-one row.status Status.superseded (unfold allows in ground arith)))
    ]
  ]

  cancel_todos-Advances :
      (cs : List String) (p : Progress) → Advances p.db.todos (cancel_todos env todo cs p).db.todos
  unfolding cancel_todos
  cancel_todos-Advances [] p = Advances-refl p.db.todos
  cancel_todos-Advances (c ∷ cs) p =
      Advances-trans p.db.todos _ _ (cancel_row-Advances c (find? (has_id c) p.db.todos) p refl)
        (cancel_todos-Advances cs (cancel_row env todo c (find? (has_id c) p.db.todos) p))

  modify_row-Advances :
      (m : ModifySpec) (i : String) (row : Option Todo) (p : Progress)
      → Advances p.db.todos (modify_row env todo m i row p).db.todos
  unfolding modify_row set_todo
  modify_row-Advances m i none p = Advances-refl p.db.todos
  modify_row-Advances m i (some row) p = elim (Bool-cases (is_settled row.status)) [
    | inl settled ↦ rw settled (Advances-refl p.db.todos)
    | inr live ↦ elim (Bool-cases (is_off_limits todo i row)) [
      | inl off ↦ rw (live, off) (Advances-refl p.db.todos)
      | inr free ↦ elim (Bool-cases (has_fields m)) [
        | inl some_fields ↦
            rw (live, free, some_fields)
              (Advances-update i (modified env m) p.db.todos (λ x. refl) (λ t e. here))
        | inr no_fields ↦ rw (live, free, no_fields) (Advances-refl p.db.todos)
      ]
    ]
  ]

  modify_target-Advances :
      (m : ModifySpec) (i : Option String) (p : Progress)
      → Advances p.db.todos (modify_target env todo m i p).db.todos
  unfolding modify_target
  modify_target-Advances m none p = Advances-refl p.db.todos
  modify_target-Advances m (some i) p = modify_row-Advances m i (find? (has_id i) p.db.todos) p

  modify_todos-Advances :
      (ms : List ModifySpec) (p : Progress)
      → Advances p.db.todos (modify_todos env todo ms p).db.todos
  unfolding modify_todos
  modify_todos-Advances [] p = Advances-refl p.db.todos
  modify_todos-Advances (m ∷ ms) p =
      Advances-trans p.db.todos _ _ (modify_target-Advances m m.todo_id p)
        (modify_todos-Advances ms (modify_target env todo m m.todo_id p))

  apply_changes-Advances :
      (diff : PlanDiff) (db : Db) {p : Progress}
      → apply_changes env todo diff db ≡ ok p
      → Advances db.todos p.db.todos
  unfolding apply_changes
  apply_changes-Advances diff db e = bind_ok (add_todos env _ todo diff.add _ db) e λ db1 e1 k1.
      returned (λ p. Advances db.todos p.db.todos) _ k1
        (Advances-trans db.todos db1.todos _ (add_todos-Advances _ diff.add _ db e1) (
          Advances-trans db1.todos _ _ (cancel_todos-Advances diff.cancel _)
            (modify_todos-Advances diff.modify _)))

  decide-Advances :
      (diff : PlanDiff) (d : Decision) (db : Db) {r : PlanDecision × Progress}
      → decide env todo diff d db ≡ ok r
      → Advances db.todos r.1.db.todos
  unfolding decide
  decide-Advances diff Decision.approve db e = bind_ok (apply_changes env todo diff db) e λ p e1 k1.
      returned (λ r. Advances db.todos r.1.db.todos) _ k1 (apply_changes-Advances diff db e1)
  decide-Advances diff Decision.reject db e =
      returned (λ r. Advances db.todos r.1.db.todos) _ e (Advances-refl db.todos)
  decide-Advances diff (Decision.other s) db e = cc

  announce-todos :
      (auto : Bool) (change : PlanDiff) (db : Db)
      → (announce env todo auto change db).todos ≡ db.todos
  unfolding announce event
  announce-todos true change db = refl
  announce-todos false change db = refl

  close_goal-todos : (g : String) (db : Db) → (close_goal env g db).todos ≡ db.todos
  unfolding close_goal
  close_goal-todos g db = elim (Bool-cases (is_complete g db)) [
    | inl p ↦ rw p (set_goal_done-todos env g db)
    | inr p ↦ rw p
  ]

  finish_plan-Advances :
      (auto : Bool) (d : PlanDecision) (decision : Decision) (actor : String) (p : Progress)
      → (auto ≡ false → is_needs_user todo.status ≡ true)
      → find? (has_id todo.id) p.db.todos ≡ some todo
      → Advances p.db.todos (finish_plan env todo auto d decision actor p).todos
  unfolding finish_plan set_todo event
  finish_plan-Advances true d decision actor p out at =
      Advances-update todo.id (decided_row env d) p.db.todos (λ x. refl) (λ t e. here)
  finish_plan-Advances false d decision actor p out at = rw (close_goal-todos todo.goal_id) (
      Advances-trans p.db.todos (update (has_id todo.id) (decided_row env d) p.db.todos) _
        (Advances-update todo.id (decided_row env d) p.db.todos (λ x. refl) (λ t e. here))
        (Advances-move todo.id (settle_row env Status.superseded)
          (update (has_id todo.id) (decided_row env d) p.db.todos) {t = decided_row env d todo}
          (λ x. refl)
          (find?-update_self (has_id todo.id) (decided_row env d) p.db.todos (λ x. refl) at)
          (Chain-one todo.status Status.superseded (unfold allows in ground (arith, out refl)))))

pub apply_plan_diff-Advances :
    (json : Json) (env : Env) (i : String) (d : Decision) (diff : Option PlanDiff) (actor : String)
    (db : Db) {r : Todo × Db}
    → apply_plan_diff json env i d diff actor db ≡ ok r
    → IsConsistent db
    → Advances db.todos r.1.todos
unfolding apply_plan_diff
apply_plan_diff-Advances json env i d diff actor db e c = guard_ok (is_decision d) _ e λ known k0.
    bind_ok (get i db) k0 λ todo e1 k1.
      guard_ok (is_undecided todo.plan_decision) _ k1 λ undecided k2.
        guard_ok (is_needs_user todo.status || in_flight todo.status) _ k2 λ waiting k3.
          let change = diff_of json diff todo in
          let auto = not (is_needs_user todo.status) in
          let start : Keeps env todo db = record {
            consistent = c;
            own_row = found_self i db (get_ok i db e1);
          } in
          let db0 = announce env todo auto change db in
          bind_ok (decide env todo change d db0) k3 λ outcome e2 k4.
            reread_ok (λ x. Advances db.todos x.todos) i _ k4
              (Advances-trans db.todos outcome.1.db.todos _
                (rw (announce-todos env todo auto change db) at
                  (decide-Advances env todo change d db0 e2))
                (finish_plan-Advances env todo auto outcome.0 d actor outcome.1 (λ h. ground arith)
                  (decide-Keeps env todo change d db0 e2
                    (announce-Keeps env todo auto change db start)).own_row))

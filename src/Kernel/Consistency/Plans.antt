-- ===== src/Kernel/Consistency/Plans.antt =====
-- `propose_plan_diff` and `apply_plan_diff` keep the tables consistent, and a change of plan
-- leaves the row of the todo that proposed it alone.
use aidean_fleet.Common.{
  ℕ, ◌≡◌, refl, Bool, true, false, not, ◌||◌, List, [], ◌∷◌, Option, none, some, String, any, find?,
  update, arith,
}
use aidean_fleet.Common.Outcome.{ok}
use aidean_fleet.Kernel.State.{Status, in_flight, is_settled, is_needs_user}
use aidean_fleet.Kernel.Tables.{
  Todo, PlanDecision, AddSpec, ModifySpec, PlanDiff, Decision, EventKind, Db, Env,
}
use aidean_fleet.Kernel.Sql.{
  has_id, has_goal_id, get, event, insert_todo, set_todo, close_open_attempt,
}
use aidean_fleet.Common.{sym, inl, inr, Bool-cases}
use aidean_fleet.Common.Outcome.{bind_ok, guard_ok, returned}
use aidean_fleet.Common.Text.{◌==◌, eq_of_==}
use aidean_fleet.Kernel.Consistency.Defs.{IsConsistent}
use aidean_fleet.Kernel.Consistency.Moves.{
  get_ok, reread_ok, IsNew, found, close-IsConsistent, stay-IsConsistent,
}
use aidean_fleet.Common.{◌∙◌}
use aidean_fleet.Common.{find?-append, find?-update_ne, find?-update_self}
use aidean_fleet.Kernel.Writeback.{settle_row}
use aidean_fleet.Kernel.Consistency.Moves.{touch-IsConsistent, found_self}
use aidean_fleet.Kernel.Consistency.Creation.{insert_todo-IsConsistent}
use aidean_fleet.Kernel.Consistency.Writes.{set_goal_done-IsConsistent}
use aidean_fleet.Kernel.Steer.{
  Json, propose_plan_diff, diff_of, added_todo, add_todos, Progress, is_off_limits, cancel_row,
  cancel_todos, has_fields, modified, modify_row, modify_target, modify_todos, apply_changes,
  is_decision, is_undecided, decide, close_goal, is_complete, decided_row, announce, finish_plan,
  apply_plan_diff,
}

-- `propose_plan_diff` keeps the tables consistent.
pub propose_plan_diff-IsConsistent :
    (json : Json) (env : Env) (i : String) (diff : PlanDiff) (db : Db) {db' : Db}
    → propose_plan_diff json env i diff db ≡ ok db'
    → IsConsistent db
    → IsConsistent db'
unfolding propose_plan_diff set_todo close_open_attempt event
propose_plan_diff-IsConsistent json env i diff db e c = bind_ok (get i db) e λ t e1 k1.
    guard_ok (in_flight t.status) _ k1 λ flying k2. returned IsConsistent _ k2 (
      close-IsConsistent env i "needs_user" _ db.todos db.attempts {t = t} (λ x. refl) (λ x. refl)
        refl refl (get_ok i db e1) c)

module _ (env : Env) (todo : Todo) where
  -- what the loops keep: consistency, and the row of the todo itself
  pub record Keeps (db : Db) : Type 0 where
    pub consistent : IsConsistent db
    pub own_row : find? (has_id todo.id) db.todos ≡ some todo

  added_todo-IsNew :
      (ids : List (String × String)) (new_id lineage : String) (spec : AddSpec)
      → IsNew (added_todo env ids todo new_id lineage spec)
  unfolding added_todo
  added_todo-IsNew ids new_id lineage spec = ground arith

  insert_todo-Keeps :
      (t : Todo) (db : Db) {db' : Db} → IsNew t → insert_todo t db ≡ ok db' → Keeps db → Keeps db'
  insert_todo-Keeps t db {db'} n e k = record {
    consistent = insert_todo-IsConsistent t db n e k.consistent;
    own_row =
        unfold insert_todo in
        guard_ok (not (any (has_id t.id) db.todos)) _ e λ new k1.
          guard_ok (any (has_goal_id t.goal_id) db.goals) _ k1 λ parent k2.
            returned (λ d. find? (has_id todo.id) d.todos ≡ some todo) _ k2
              (find?-append (has_id todo.id) db.todos (t ∷ []) k.own_row);
  }

  event-Keeps :
      (kind : EventKind) (i g : String) (db : Db) → Keeps db → Keeps (event env kind i g db)
  unfolding event
  event-Keeps kind i g db k = record { consistent = k.consistent; own_row = k.own_row }

  add_todos-Keeps :
      (ids : List (String × String)) (specs : List AddSpec) (n : ℕ) (db : Db) {db' : Db}
      → add_todos env ids todo specs n db ≡ ok db'
      → Keeps db
      → Keeps db'
  unfolding add_todos
  add_todos-Keeps ids [] n db e k = returned Keeps db e k
  add_todos-Keeps ids (spec ∷ specs) n db e k = bind_ok (insert_todo _ db) e λ db1 e1 k1.
      add_todos-Keeps ids specs _ _ k1
        (event-Keeps _ _ _ db1 (insert_todo-Keeps _ db (added_todo-IsNew ids _ _ spec) e1 k))

  -- a write on another row
  other_row :
      (i : String) (f : Todo → Todo) (todos : List Todo)
      → ((x : Todo) → (f x).id ≡ x.id)
      → (i == todo.id) ≡ false
      → find? (has_id todo.id) (update (has_id i) f todos) ≡ find? (has_id todo.id) todos
  other_row i f todos keep ne =
      find?-update_ne (has_id i) (has_id todo.id) f todos
        (λ x e. let q : (x.id == todo.id) ≡ false = rw (eq_of_== x.id i e) ne in (q, rw (keep x) q))

  cancel_row-Keeps :
      (c : String) (row : Option Todo) (p : Progress)
      → find? (has_id c) p.db.todos ≡ row
      → Keeps p.db
      → Keeps (cancel_row env todo c row p).db
  unfolding cancel_row set_todo event
  cancel_row-Keeps c none p e k = k
  cancel_row-Keeps c (some row) p e k = elim (Bool-cases (is_settled row.status)) [
    | inl settled ↦ rw settled k
    | inr live ↦ elim (Bool-cases (is_off_limits todo c row)) [
      | inl off ↦ rw (live, off) k
      | inr free ↦
          rw (live, free)
            record {
              consistent =
                  stay-IsConsistent c _ p.db.todos p.db.attempts {t = row} (λ x. refl) (λ x. refl)
                    (ground arith) (found c p.db.todos p.db.attempts k.consistent e).1.released e
                    k.consistent;
              own_row = other_row c _ p.db.todos (λ x. refl) (ground arith) ∙ k.own_row;
            }
    ]
  ]

  cancel_todos-Keeps :
      (cs : List String) (p : Progress) → Keeps p.db → Keeps (cancel_todos env todo cs p).db
  unfolding cancel_todos
  cancel_todos-Keeps [] p k = k
  cancel_todos-Keeps (c ∷ cs) p k =
      cancel_todos-Keeps cs _ (cancel_row-Keeps c (find? (has_id c) p.db.todos) p refl k)

  modify_row-Keeps :
      (m : ModifySpec) (i : String) (row : Option Todo) (p : Progress)
      → Keeps p.db
      → Keeps (modify_row env todo m i row p).db
  unfolding modify_row set_todo
  modify_row-Keeps m i none p k = k
  modify_row-Keeps m i (some row) p k = elim (Bool-cases (is_settled row.status)) [
    | inl settled ↦ rw settled k
    | inr live ↦ elim (Bool-cases (is_off_limits todo i row)) [
      | inl off ↦ rw (live, off) k
      | inr free ↦ elim (Bool-cases (has_fields m)) [
        | inl some_fields ↦
            rw (live, free, some_fields)
              record {
                consistent =
                    touch-IsConsistent i (modified env m) p.db.todos p.db.attempts (λ x. refl)
                      (λ x. (refl, refl, refl)) k.consistent;
                own_row =
                    other_row i (modified env m) p.db.todos (λ x. refl) (ground arith) ∙ k.own_row;
              }
        | inr no_fields ↦ rw (live, free, no_fields) k
      ]
    ]
  ]

  modify_target-Keeps :
      (m : ModifySpec) (i : Option String) (p : Progress)
      → Keeps p.db
      → Keeps (modify_target env todo m i p).db
  unfolding modify_target
  modify_target-Keeps m none p k = k
  modify_target-Keeps m (some i) p k = modify_row-Keeps m i (find? (has_id i) p.db.todos) p k

  modify_todos-Keeps :
      (ms : List ModifySpec) (p : Progress) → Keeps p.db → Keeps (modify_todos env todo ms p).db
  unfolding modify_todos
  modify_todos-Keeps [] p k = k
  modify_todos-Keeps (m ∷ ms) p k = modify_todos-Keeps ms _ (modify_target-Keeps m m.todo_id p k)

  apply_changes-Keeps :
      (diff : PlanDiff) (db : Db) {p : Progress}
      → apply_changes env todo diff db ≡ ok p
      → Keeps db
      → Keeps p.db
  unfolding apply_changes
  apply_changes-Keeps diff db e k = bind_ok (add_todos env _ todo diff.add _ db) e λ db1 e1 k1.
      returned (λ p. Keeps p.db) _ k1
        (modify_todos-Keeps diff.modify _
          (cancel_todos-Keeps diff.cancel _ (add_todos-Keeps _ diff.add _ db e1 k)))

  pub decide-Keeps :
      (diff : PlanDiff) (d : Decision) (db : Db) {r : PlanDecision × Progress}
      → decide env todo diff d db ≡ ok r
      → Keeps db
      → Keeps r.1.db
  unfolding decide
  decide-Keeps diff Decision.approve db e k =
      bind_ok (apply_changes env todo diff db) e
        λ p e1 k1. returned (λ r. Keeps r.1.db) _ k1 (apply_changes-Keeps diff db e1 k)
  decide-Keeps diff Decision.reject db e k = returned (λ r. Keeps r.1.db) _ e k
  decide-Keeps diff (Decision.other s) db e k = cc

  close_goal-IsConsistent :
      (g : String) (db : Db) → IsConsistent db → IsConsistent (close_goal env g db)
  unfolding close_goal
  close_goal-IsConsistent g db c = elim (Bool-cases (is_complete g db)) [
    | inl p ↦ rw p (set_goal_done-IsConsistent env g db c)
    | inr p ↦ rw p c
  ]

  pub announce-Keeps :
      (auto : Bool) (change : PlanDiff) (db : Db)
      → Keeps db
      → Keeps (announce env todo auto change db)
  unfolding announce
  announce-Keeps true change db k = event-Keeps _ _ _ db k
  announce-Keeps false change db k = k

  finish_plan-IsConsistent :
      (auto : Bool) (d : PlanDecision) (decision : Decision) (actor : String) (p : Progress)
      → (auto ≡ false → in_flight todo.status ≡ false)
      → Keeps p.db
      → IsConsistent (finish_plan env todo auto d decision actor p)
  unfolding finish_plan set_todo event
  finish_plan-IsConsistent true d decision actor p out k =
      touch-IsConsistent todo.id (decided_row env d) p.db.todos p.db.attempts (λ x. refl)
        (λ x. (refl, refl, refl)) k.consistent
  finish_plan-IsConsistent false d decision actor p out k = close_goal-IsConsistent todo.goal_id _ (
      stay-IsConsistent todo.id (settle_row env Status.superseded)
        (update (has_id todo.id) (decided_row env d) p.db.todos) p.db.attempts
        {t = decided_row env d todo} (λ x. refl) (λ x. refl) (sym (out refl)) (λ h. refl)
        (find?-update_self (has_id todo.id) (decided_row env d) p.db.todos (λ x. refl) k.own_row)
        (touch-IsConsistent todo.id (decided_row env d) p.db.todos p.db.attempts (λ x. refl)
          (λ x. (refl, refl, refl)) k.consistent))

-- `apply_plan_diff` keeps the tables consistent, whether the change is approved or rejected, and on
-- the automatic path too.
pub apply_plan_diff-IsConsistent :
    (json : Json) (env : Env) (i : String) (d : Decision) (diff : Option PlanDiff) (actor : String)
    (db : Db) {r : Todo × Db}
    → apply_plan_diff json env i d diff actor db ≡ ok r
    → IsConsistent db
    → IsConsistent r.1
unfolding apply_plan_diff
apply_plan_diff-IsConsistent json env i d diff actor db e c =
    guard_ok (is_decision d) _ e λ known k0. bind_ok (get i db) k0 λ todo e1 k1.
      guard_ok (is_undecided todo.plan_decision) _ k1 λ undecided k2.
        guard_ok (is_needs_user todo.status || in_flight todo.status) _ k2 λ waiting k3.
          let change = diff_of json diff todo in
          let auto = not (is_needs_user todo.status) in
          let start : Keeps env todo db = record {
            consistent = c;
            own_row = found_self i db (get_ok i db e1);
          } in
          bind_ok (decide env todo change d (announce env todo auto change db)) k3 λ outcome e2 k4.
            reread_ok IsConsistent i _ k4 (
              finish_plan-IsConsistent env todo auto outcome.0 d actor outcome.1 (λ h. ground arith)
                (decide-Keeps env todo change d _ e2
                  (announce-Keeps env todo auto change db start)))

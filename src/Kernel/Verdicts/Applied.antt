-- ===== src/Kernel/Verdicts/Applied.antt =====
-- `apply_plan_diff` on a todo that is being verified: the automatic path of a todo that steers.
use aidean_fleet.Common.{
  ◌≡◌, refl, true, false, not, ◌||◌, Option, some, String, find?, find?-update_self, find?-true,
  subst, sym, arith,
}
use aidean_fleet.Common.Text.{◌==◌, eq_of_==}
use aidean_fleet.Common.Outcome.{ok, err, bind_ok, guard_ok, returned}
use aidean_fleet.Kernel.State.{in_flight, is_verifying, Verdict, TurnResult}
use aidean_fleet.Kernel.Tables.{
  Todo, PlanDecision, PlanDiff, Decision, Db, Env, Config, decision_already_made,
}
use aidean_fleet.Kernel.Sql.{has_id, get, event, set_todo}
use aidean_fleet.Kernel.Steer.{
  Json, Progress, apply_changes, is_decision, is_undecided, decide, decided_row, diff_of, announce,
  finish_plan, apply_plan_diff,
}
use aidean_fleet.Kernel.State.{is_needs_user}
use aidean_fleet.Kernel.Writeback.{transition}
use aidean_fleet.Kernel.Consistency.Defs.{IsConsistent}
use aidean_fleet.Kernel.Consistency.Moves.{get_ok, reread_ok, found_self}
use aidean_fleet.Kernel.Consistency.Plans.{Keeps, decide-Keeps, announce-Keeps}
use aidean_fleet.Kernel.Verdicts.Done.{saying, get_of_find?, transition-done_accepts}

decide-decided :
    (env : Env) (todo : Todo) (diff : PlanDiff) (d : Decision) (db : Db)
    {r : PlanDecision × Progress}
    → decide env todo diff d db ≡ ok r
    → is_undecided r.0 ≡ false
unfolding decide
decide-decided env todo diff Decision.approve db e =
    bind_ok (apply_changes env todo diff db) e
      λ p e1 k1. returned (λ r. is_undecided r.0 ≡ false) _ k1 refl
decide-decided env todo diff Decision.reject db e =
    returned (λ r. is_undecided r.0 ≡ false) _ e refl
decide-decided env todo diff (Decision.other s) db e = cc

-- the row behind a decision, which only notes it
record IsNoted (i : String) (todo : Todo) (env : Env) (db : Db) : Type 0 where
  decision : PlanDecision
  decided : is_undecided decision ≡ false
  row : find? (has_id i) db.todos ≡ some (decided_row env decision todo)

finish_plan-IsNoted :
    (env : Env) (todo : Todo) (auto : _) (c : PlanDecision) (d : Decision) (actor : String)
    (p : Progress)
    → auto ≡ true
    → is_undecided c ≡ false
    → find? (has_id todo.id) p.db.todos ≡ some todo
    → IsNoted todo.id todo env (finish_plan env todo auto c d actor p)
unfolding finish_plan set_todo event
finish_plan-IsNoted env todo true c d actor p h settled own = record {
  decision = c;
  decided = settled;
  row = find?-update_self (has_id todo.id) (decided_row env c) p.db.todos (λ x. refl) own;
}
finish_plan-IsNoted env todo false c d actor p h settled own = cc

apply_plan_diff-IsNoted :
    (json : Json) (env : Env) (i : String) (d : Decision) (diff : Option PlanDiff) (actor : String)
    (db : Db) {todo : Todo} {r : Todo × Db}
    → IsConsistent db
    → find? (has_id i) db.todos ≡ some todo
    → is_verifying todo.status ≡ true
    → apply_plan_diff json env i d diff actor db ≡ ok r
    → IsNoted i todo env r.1
unfolding apply_plan_diff
apply_plan_diff-IsNoted json env i d diff actor db {todo} {r} c at checked e =
    guard_ok (is_decision d) _ e λ known k0. bind_ok (get i db) k0 λ t e1 k1.
      guard_ok (is_undecided t.plan_decision) _ k1 λ undecided k2.
        guard_ok (is_needs_user t.status || in_flight t.status) _ k2 λ waiting k3.
          let same : t ≡ todo = cc (get_ok i db e1, at) in
          let change = diff_of json diff t in
          let auto = not (is_needs_user t.status) in
          let start : Keeps env t db = record {
            consistent = c;
            own_row = found_self i db (get_ok i db e1);
          } in
          let verifying : is_verifying t.status ≡ true =
            subst (λ x. is_verifying x.status ≡ true) (sym same) checked in
          bind_ok (decide env t change d (announce env t auto change db)) k3 λ outcome e2 k4.
            let after = finish_plan env t auto outcome.0 d actor outcome.1 in
            let own : t.id ≡ i =
              eq_of_== t.id i (find?-true (has_id i) db.todos (get_ok i db e1)) in
            let kept =
              decide-Keeps env t change d _ e2 (announce-Keeps env t auto change db start) in
            let noted =
              finish_plan-IsNoted env t auto outcome.0 d actor outcome.1 (ground (arith, verifying))
                (decide-decided env t change d _ e2) kept.own_row in
            reread_ok (IsNoted i todo env) i after k4 (
              subst (λ x. IsNoted i x env after) same
                (subst (λ j. IsNoted j t env after) own noted))

-- what a decision leaves: the todo is still being verified, a report of done on it is accepted if it is
-- no exec todo, and these tables take no other decision on it
pub record IsOnce (cfg : Config) (json : Json) (i : String) (kind : String) (db : Db) : Type 0 where
  pub row : Todo
  pub stored : find? (has_id i) db.todos ≡ some row
  pub same_kind : row.kind ≡ kind
  pub still_verifying : is_verifying row.status ≡ true
  pub accepts_done :
      (kind == "exec") ≡ false
      → (env : Env) (result : TurnResult)
      → (r : Todo × Db) × (transition cfg env i (saying Verdict.done result) db ≡ ok r)
  pub refuses_another :
      (env : Env) (d : Decision) (diff : Option PlanDiff) (actor : String)
      → is_decision d ≡ true
      → apply_plan_diff json env i d diff actor db ≡ err decision_already_made

-- A change that is decided on while its todo is being verified leaves that todo under verification, of
-- the same kind, whatever the change adds, cancels or modifies. In the tables that this leaves, the
-- verdict done is accepted, if the todo is no exec todo, and another decision on it is refused, of
-- whatever kind it is.
pub apply_plan_diff-IsOnce :
    (cfg : Config) (json : Json) (env : Env) (i : String) (d : Decision) (diff : Option PlanDiff)
    (actor : String) (db : Db) {todo : Todo} {r : Todo × Db}
    → IsConsistent db
    → find? (has_id i) db.todos ≡ some todo
    → is_verifying todo.status ≡ true
    → apply_plan_diff json env i d diff actor db ≡ ok r
    → IsOnce cfg json i todo.kind r.1
unfolding apply_plan_diff
apply_plan_diff-IsOnce cfg json env i d diff actor db {todo} {r} c at checked e =
    let noted = apply_plan_diff-IsNoted json env i d diff actor db c at checked e in
    let row = decided_row env noted.decision todo in
    record {
      row = row;
      stored = noted.row;
      same_kind = refl;
      still_verifying = checked;
      accepts_done = λ other env' result.
          transition-done_accepts cfg env' i result r.1 row noted.row
            record { verified = checked; credible = ground (arith, other) };
      refuses_another = λ env' d' diff' actor' known.
          rw (known, get_of_find? i r.1 noted.row, noted.decided) refl;
    }

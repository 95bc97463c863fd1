-- ===== src/Runner/Proposals.antt =====
-- Which results of the planner the kernel refuses: a change that is proposed has been written back
-- already.
use aidean_fleet.Common.{
  ◌≡◌, refl, subst, inl, inr, Bool, true, false, not, List, none, some, String, find?,
  if◌then◌else◌, Bool-cases, ℕ,
}
use aidean_fleet.Common.{find?-update_self, find?-true}
use aidean_fleet.Common.Text.{◌==◌, is_blank, eq_of_==}
use aidean_fleet.Common.Outcome.{Result, ok, err, bind_ok, guard_ok, returned, Result-cases, ◌>>=◌}
use aidean_fleet.Kernel.State.{in_flight, Verdict, is_verdict, TurnResult}
use aidean_fleet.Kernel.Tables.{Todo, Db, Env, Config, PlanDiff, bad_status, Decision}
use aidean_fleet.Kernel.Sql.{has_id, get, set_todo, event, close_open_attempt}
use aidean_fleet.Kernel.Steer.{Json, propose_plan_diff, apply_plan_diff}
use aidean_fleet.Kernel.Views.{get_todo, todos, packet_for}
use aidean_fleet.Kernel.Writeback.{transition}
use aidean_fleet.Kernel.Consistency.Moves.{get_ok}
use aidean_fleet.Kernel.Verdicts.Done.{get_of_find?}
use aidean_fleet.Planner.Service.{
  Planner, PlannerError, Reply, answered, unavailable, run_plan_todo, use_reply, Parsed, parsed,
  refused, parse_reply, done_turn,
}
use aidean_fleet.Planner.Steer.{
  Steerer, ParsedDiff, read, problem, parse_diff, submit, use_diff, run_steer_todo,
}

abbrev pub is_asking : Verdict → Bool
is_asking Verdict.needs_user = true
is_asking _ = false

-- a todo that is not in flight takes no result
transition_refuses :
    (cfg : Config) (env : Env) (i : String) (result : TurnResult) (db : Db) {t : Todo}
    → is_verdict result.verdict ≡ true
    → find? (has_id i) db.todos ≡ some t
    → in_flight t.status ≡ false
    → transition cfg env i result db ≡ err bad_status
unfolding transition
transition_refuses cfg env i result db known at out = rw (known, get_of_find? i db at, out) refl

propose_plan_diff-asks :
    (json : Json) (env : Env) (i : String) (diff : PlanDiff) (db : Db) {db' : Db}
    → propose_plan_diff json env i diff db ≡ ok db'
    → (t : Todo) × (find? (has_id i) db'.todos ≡ some t) × (in_flight t.status ≡ false)
unfolding propose_plan_diff set_todo close_open_attempt event
propose_plan_diff-asks json env i diff db e = bind_ok (get i db) e λ t e1 k1.
    guard_ok (in_flight t.status) _ k1 λ flying k2.
      returned
        (λ d. (t : Todo) × (find? (has_id i) d.todos ≡ some t) × (in_flight t.status ≡ false)) _ k2
        (_, find?-update_self (has_id i) _ db.todos (λ x. refl) (get_ok i db e1), refl)

-- where the result asks for the user, the kernel refuses it in the tables that it comes with
abbrev pub IsSettled : String → Result PlannerError TurnResult × Db → Type 0
IsSettled i (err e, db) = Unit
IsSettled i (ok result, db) =
    is_asking result.verdict ≡ true
    → (cfg : Config) (env : Env) → transition cfg env i result db ≡ err bad_status

module _ (s : Steerer) (env : Env) (auto_apply : Bool) where
  submit-IsSettled :
      (todo : Todo) (diff : PlanDiff) (db : Db)
      → IsSettled todo.id (submit s env auto_apply todo diff db)
  unfolding submit
  submit-IsSettled todo diff db = elim (Bool-cases auto_apply) [
    | inl auto ↦
        elim (Result-cases
          (apply_plan_diff s.json env todo.id Decision.approve (some diff) "console" db)) [
            | inr (e, failed) ↦ rw (auto, failed, submit) tt
            | inl (r, applied) ↦ rw (auto, applied, submit) (λ h. cc h)
          ]
    | inr asks ↦ elim (Result-cases (propose_plan_diff s.json env todo.id diff db)) [
      | inr (e, failed) ↦ rw (asks, failed, submit) tt
      | inl (db1, proposed) ↦
          rw (asks, proposed, submit)
            (λ h cfg env'.
              let (t, at, out) = propose_plan_diff-asks s.json env todo.id diff db proposed in
              transition_refuses cfg env' todo.id _ db1 refl at out)
    ]
  ]

  use_diff-IsSettled :
      (todo : Todo) (message : String) (reply : Reply) (db : Db)
      → IsSettled todo.id (use_diff s env auto_apply todo message reply db)
  unfolding use_diff
  use_diff-IsSettled todo message (unavailable why) db = λ h. cc h
  use_diff-IsSettled todo message (answered reply) db = by_parsed (parse_diff s todo reply db) refl
    where
      by_parsed :
          (r : ParsedDiff)
          → parse_diff s todo reply db ≡ r
          → IsSettled todo.id (use_diff s env auto_apply todo message (answered reply) db)
      by_parsed (problem why) e = rw (e, use_diff) (λ h. cc h)
      by_parsed (read diff) e = rw (e, use_diff) (submit-IsSettled todo diff db)

  pub run_steer_todo-IsSettled :
      (i : String) (db : Db) → IsSettled i (run_steer_todo s env auto_apply i db)
  unfolding run_steer_todo get_todo
  run_steer_todo-IsSettled i db = elim (Result-cases (get i db)) [
    | inr (e, missing) ↦ rw (missing, run_steer_todo) tt
    | inl (todo, at) ↦ elim (Bool-cases (not (todo.kind == "steer"))) [
      | inl other ↦ rw (at, other, run_steer_todo) tt
      | inr steers ↦ elim (Result-cases (packet_for i db)) [
        | inr (e, missing) ↦ rw (at, steers, missing, run_steer_todo) tt
        | inl (packet, there) ↦
            let own : todo.id ≡ i =
              eq_of_== todo.id i (find?-true (has_id i) db.todos (get_ok i db at)) in
            let message = if is_blank todo.packet then todo.title else todo.packet in
            let reply = s.client (todos (some todo.goal_id) none db) message in
            rw (at, steers, there, run_steer_todo)
              (subst (λ j. IsSettled j (use_diff s env auto_apply todo message reply db)) own
                (use_diff-IsSettled todo message reply db))
      ]
    ]
  ]

module _ (p : Planner) (show : ℕ → String) (envs : ℕ → Env) where
  done-IsSettled :
      (i : String) (created : Result PlannerError (List String)) (db : Db)
      → IsSettled i (created >>= λ ids. ok (done_turn show ids), db)
  done-IsSettled i (ok ids) db = λ h. cc h
  done-IsSettled i (err e) db = tt

  use_reply-IsSettled :
      (i : String) (todo : Todo) (requirements : String) (reply : Reply) (db : Db)
      → IsSettled i (use_reply p show envs todo requirements reply db)
  use_reply-IsSettled i todo requirements (unavailable why) db = λ h. cc h
  use_reply-IsSettled i todo requirements (answered reply) db = by_parsed (parse_reply p reply) refl
    where
      by_parsed :
          (r : Parsed)
          → parse_reply p reply ≡ r
          → IsSettled i (use_reply p show envs todo requirements (answered reply) db)
      by_parsed (refused why) e = rw (e, use_reply) (λ h. cc h)
      by_parsed (parsed plan) e = rw (e, use_reply) (done-IsSettled i _ _)

  pub run_plan_todo-IsSettled :
      (i : String) (db : Db) → IsSettled i (run_plan_todo p show envs i db)
  unfolding run_plan_todo
  run_plan_todo-IsSettled i db = elim (Result-cases (get_todo i db)) [
    | inr (e, missing) ↦ rw (missing, run_plan_todo) tt
    | inl (todo, at) ↦ elim (Bool-cases (not (todo.kind == "plan"))) [
      | inl other ↦ rw (at, other, run_plan_todo) tt
      | inr plan ↦ elim (Result-cases (packet_for i db)) [
        | inr (e, missing) ↦ rw (at, plan, missing, run_plan_todo) tt
        | inl (packet, there) ↦
            rw (at, plan, there, run_plan_todo) (use_reply-IsSettled i packet.todo _ _ db)
      ]
    ]
  ]

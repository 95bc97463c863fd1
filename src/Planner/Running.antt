-- ===== src/Planner/Running.antt =====
-- What `run_plan_todo` writes.
use aidean_fleet.Common.{ℕ, ◌≡◌, refl, ap, ◌⊎◌, inl, inr, not, [], String, Bool-cases, Option-cases}
use aidean_fleet.Common.Text.{◌==◌}
use aidean_fleet.Common.Outcome.{ok, Result-cases}
use aidean_fleet.Kernel.Tables.{Todo, Db, Env}
use aidean_fleet.Kernel.Views.{get_todo, packet_for}
use aidean_fleet.Planner.Schema.{Plan, Python, validate_plan}
use aidean_fleet.Planner.Json.{Value}
use aidean_fleet.Planner.Accepted.{IsAccepted, validate_plan-IsAccepted}
use aidean_fleet.Planner.Service.{
  apply_plan, Planner, Reply, answered, unavailable, parse_reply, parsed, refused, Parsed,
  json_text, run_plan_todo, use_reply,
}

-- an accepted plan, and the tables in which it has been written, whole or up to an exception
pub record WritesAccepted (python : Python) (envs : ℕ → Env) (db db' : Db) : Type 0 where
  pub source : Value
  pub plan : Plan
  pub valid : validate_plan python source ≡ ok plan
  pub accepted : IsAccepted plan
  pub goal : String
  pub written : db' ≡ (apply_plan envs goal plan [] db).1

module _ (p : Planner) (show : ℕ → String) (envs : ℕ → Env) where
  parse_reply-valid :
      (reply : String) {plan : Plan}
      → parse_reply p reply ≡ parsed plan
      → (v : Value) × (validate_plan p.python v ≡ ok plan)
  unfolding parse_reply
  parse_reply-valid reply {plan} e = elim (Option-cases (json_text reply)) [
    | inl no_braces ↦ cc (rw (no_braces, parse_reply) at e)
    | inr (t, braces) ↦ elim (Option-cases (p.loads t)) [
      | inl no_json ↦ cc (rw (braces, no_json, parse_reply) at e)
      | inr (v, json) ↦ elim (Result-cases (validate_plan p.python v)) [
        | inl (found, valid) ↦
            let same : found ≡ plan = cc (rw (braces, json, valid, parse_reply) at e) in
            (v, rw valid (ap ok same))
        | inr (x, bad) ↦ cc (rw (braces, json, bad, parse_reply) at e)
      ]
    ]
  ]

  use_reply-writes :
      (todo : Todo) (requirements : String) (reply : Reply) (db : Db)
      → ((use_reply p show envs todo requirements reply db).1 ≡ db)
        ⊎ WritesAccepted p.python envs db (use_reply p show envs todo requirements reply db).1
  use_reply-writes todo requirements (unavailable why) db = inl refl
  use_reply-writes todo requirements (answered reply) db = by_parsed (parse_reply p reply) refl
    where
      by_parsed :
          (r : Parsed)
          → parse_reply p reply ≡ r
          → ((use_reply p show envs todo requirements (answered reply) db).1 ≡ db)
            ⊎ WritesAccepted p.python envs db
                (use_reply p show envs todo requirements (answered reply) db).1
      by_parsed (refused why) e = inl (rw (e, use_reply) refl)
      by_parsed (parsed plan) e =
          let (v, valid) = parse_reply-valid reply e in
          inr record {
            source = v;
            plan = plan;
            valid = valid;
            accepted = validate_plan-IsAccepted p.python v valid;
            goal = todo.goal_id;
            written = rw (e, use_reply) refl;
          }

  -- A plan todo that is run leaves the tables as they were, or writes a plan that `validate_plan` has
  -- accepted: no reply of the model can write anything else.
  pub run_plan_todo-writes :
      (i : String) (db : Db)
      → ((run_plan_todo p show envs i db).1 ≡ db)
        ⊎ WritesAccepted p.python envs db (run_plan_todo p show envs i db).1
  unfolding run_plan_todo
  run_plan_todo-writes i db = elim (Result-cases (get_todo i db)) [
    | inr (e, missing) ↦ inl (rw (missing, run_plan_todo) refl)
    | inl (todo, at) ↦ elim (Bool-cases (not (todo.kind == "plan"))) [
      | inl other ↦ inl (rw (at, other, run_plan_todo) refl)
      | inr plan ↦ elim (Result-cases (packet_for i db)) [
        | inr (e, missing) ↦ inl (rw (at, plan, missing, run_plan_todo) refl)
        | inl (packet, there) ↦
            rw (at, plan, there, run_plan_todo) (use_reply-writes packet.todo _ _ db)
      ]
    ]
  ]

-- ===== src/Planner/Steering.antt =====
-- What a run of a steer todo writes.
use aidean_fleet.Common.{
  ◌≡◌, refl, subst, ◌⊎◌, inl, inr, Bool, true, not, arith, none, some, String, if◌then◌else◌,
  is_empty, Bool-cases, Option-cases,
}
use aidean_fleet.Common.Text.{◌==◌, is_blank}
use aidean_fleet.Common.Outcome.{ok, Result-cases}
use aidean_fleet.Kernel.Tables.{Todo, Db, Env, PlanDiff, Decision}
use aidean_fleet.Kernel.Steer.{propose_plan_diff, apply_plan_diff}
use aidean_fleet.Kernel.Views.{get_todo, todos, packet_for}
use aidean_fleet.Planner.Service.{json_text, Reply, unavailable, answered}
use aidean_fleet.Planner.Steer.{
  validate_diff, Steerer, ParsedDiff, read, problem, parse_diff, submit, use_diff, run_steer_todo,
}
use aidean_fleet.Planner.Targets.{IsTargeted, validate_diff-IsTargeted}

-- what a run of the steer todo of this name leaves: the tables of the kernel's call for a change that
-- names only what that todo, read from the tables, may
pub record Submits (s : Steerer) (env : Env) (i : String) (db db' : Db) : Type 0 where
  pub todo : Todo
  pub own : get_todo i db ≡ ok todo
  pub steers : (todo.kind == "steer") ≡ true
  pub diff : PlanDiff
  pub targeted : IsTargeted todo.goal_id todo.id db diff
  pub written :
      (propose_plan_diff s.json env todo.id diff db ≡ ok db')
      ⊎ ((t : Todo) × (apply_plan_diff s.json env todo.id Decision.approve (some diff) "console" db
            ≡ ok (t, db')))

parse_diff-IsTargeted :
    (s : Steerer) (todo : Todo) (reply : String) (db : Db) {diff : PlanDiff}
    → parse_diff s todo reply db ≡ read diff
    → IsTargeted todo.goal_id todo.id db diff
unfolding parse_diff
parse_diff-IsTargeted s todo reply db {diff} e = elim (Option-cases (json_text reply)) [
  | inl no_braces ↦ cc (rw (no_braces, parse_diff) at e)
  | inr (t, braces) ↦ elim (Option-cases (s.loads t)) [
    | inl no_json ↦ cc (rw (braces, no_json, parse_diff) at e)
    | inr (found, json) ↦
        elim (Bool-cases (is_empty (validate_diff todo.goal_id todo.id found db))) [
          | inr bad ↦ cc (rw (braces, json, bad, parse_diff) at e)
          | inl good ↦
              let same : found ≡ diff = cc (rw (braces, json, good, parse_diff) at e) in
              subst (IsTargeted todo.goal_id todo.id db) same
                (validate_diff-IsTargeted todo.goal_id todo.id db found good)
        ]
  ]
]

abbrev IsSteering : String → Db → Todo → Type 0
IsSteering i db todo = (get_todo i db ≡ ok todo) × ((todo.kind == "steer") ≡ true)

module _ (s : Steerer) (env : Env) (auto_apply : Bool) where
  abbrev Leaves : String → Db → Db → Type 0
  Leaves i db db' = (db' ≡ db) ⊎ Submits s env i db db'

  submit-Leaves :
      (i : String) (todo : Todo) (diff : PlanDiff) (db : Db)
      → IsSteering i db todo
      → IsTargeted todo.goal_id todo.id db diff
      → Leaves i db (submit s env auto_apply todo diff db).1
  unfolding submit
  submit-Leaves i todo diff db reads targeted = elim (Bool-cases auto_apply) [
    | inl auto ↦
        elim (Result-cases
          (apply_plan_diff s.json env todo.id Decision.approve (some diff) "console" db)) [
            | inr (e, failed) ↦ inl (rw (auto, failed, submit) refl)
            | inl (r, applied) ↦
                rw (auto, applied, submit)
                  (inr record {
                    todo = todo;
                    own = reads.0;
                    steers = reads.1;
                    diff = diff;
                    targeted = targeted;
                    written = inr (r.0, applied);
                  })
          ]
    | inr asks ↦ elim (Result-cases (propose_plan_diff s.json env todo.id diff db)) [
      | inr (e, failed) ↦ inl (rw (asks, failed, submit) refl)
      | inl (db1, proposed) ↦
          rw (asks, proposed, submit)
            (inr record {
              todo = todo;
              own = reads.0;
              steers = reads.1;
              diff = diff;
              targeted = targeted;
              written = inl proposed;
            })
    ]
  ]

  use_diff-Leaves :
      (i : String) (todo : Todo) (message : String) (reply : Reply) (db : Db)
      → IsSteering i db todo
      → Leaves i db (use_diff s env auto_apply todo message reply db).1
  unfolding use_diff
  use_diff-Leaves i todo message (unavailable why) db reads = inl refl
  use_diff-Leaves i todo message (answered reply) db reads =
      by_parsed (parse_diff s todo reply db) refl
    where
      by_parsed :
          (r : ParsedDiff)
          → parse_diff s todo reply db ≡ r
          → Leaves i db (use_diff s env auto_apply todo message (answered reply) db).1
      by_parsed (problem why) e = inl (rw (e, use_diff) refl)
      by_parsed (read diff) e =
          rw (e, use_diff)
            (submit-Leaves i todo diff db reads (parse_diff-IsTargeted s todo reply db e))

  -- A steer todo that is run leaves the tables as they were, or as the kernel's proposal or approval of a
  -- change leaves them that cancels and modifies only todos of the goal of the todo of this name in the
  -- tables, without that one, none of them done or superseded.
  pub run_steer_todo-Submits :
      (i : String) (db : Db)
      → ((run_steer_todo s env auto_apply i db).1 ≡ db)
        ⊎ Submits s env i db (run_steer_todo s env auto_apply i db).1
  unfolding run_steer_todo
  run_steer_todo-Submits i db = elim (Result-cases (get_todo i db)) [
    | inr (e, missing) ↦ inl (rw (missing, run_steer_todo) refl)
    | inl (todo, at) ↦ elim (Bool-cases (not (todo.kind == "steer"))) [
      | inl other ↦ inl (rw (at, other, run_steer_todo) refl)
      | inr steers ↦ elim (Result-cases (packet_for i db)) [
        | inr (e, missing) ↦ inl (rw (at, steers, missing, run_steer_todo) refl)
        | inl (packet, there) ↦
            rw (at, steers, there, run_steer_todo)
              (use_diff-Leaves i todo (if is_blank todo.packet then todo.title else todo.packet)
                (s.client (todos (some todo.goal_id) none db)
                  (if is_blank todo.packet then todo.title else todo.packet))
                db (at, ground (arith, steers)))
      ]
    ]
  ]

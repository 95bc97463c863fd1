-- ===== src/Planner/Steer.antt =====
-- fleet/planner/steer.py. `json.loads` with the three `or []` of `extract_diff` is given, as is the
-- text of the problems. A key of `fields` that the kernel does not read counts as none, and the key
-- `source_todo`, which only stands in the stored text, is left out.
use aidean_fleet.Common.{
  Bool, false, not, ◌&&◌, List, [], ◌∷◌, ◌++◌, Option, none, some, String, if◌then◌else◌, or_else,
  find?, is_empty,
}
use aidean_fleet.Common.Text.{◌==◌, is_blank, append, first_chars}
use aidean_fleet.Common.Outcome.{Result, ok, err}
use aidean_fleet.Kernel.State.{Status, Verdict, TurnResult, is_settled}
use aidean_fleet.Kernel.Tables.{Todo, Db, Env, AddSpec, ModifySpec, PlanDiff, Decision}
use aidean_fleet.Kernel.Steer.{Json, has_fields, propose_plan_diff, apply_plan_diff}
use aidean_fleet.Kernel.Views.{get_todo, todos, packet_for}
use aidean_fleet.Planner.Service.{
  PlannerError, kernel_error, wrong_kind, json_text, Reply, unavailable, answered, turn_result,
  blocked_turn, no_successor,
}

pub data Problem : Type 0 where
  cancel_unknown modify_unknown modify_settled modify_empty : String → Problem
  cancel_settled : String → Status → Problem
  add_incomplete : AddSpec → Problem
  add_unverified add_unlimited : String → Problem

-- `item.get(key)` is not empty
abbrev pub has_text : Option String → Bool
has_text none = false
has_text (some s) = not (is_blank s)

abbrev pub has_items : Option (List String) → Bool
has_items none = false
has_items (some xs) = not (is_empty xs)

-- `known.get(tid)`: a todo of the goal that is not the one that steers
unfoldable pub known : String → String → String → Db → Option Todo
known goal_id self_id tid db =
    if tid == self_id then none else find? (λ t. t.id == tid) (todos (some goal_id) none db)

unfoldable pub check_cancel : String → Option Todo → List Problem
check_cancel tid none = cancel_unknown tid ∷ []
check_cancel tid (some t) = if is_settled t.status then cancel_settled tid t.status ∷ [] else []

unfoldable pub check_modify : ModifySpec → String → Option Todo → List Problem
check_modify m tid none = modify_unknown tid ∷ []
check_modify m tid (some t) =
    if is_settled t.status
    then modify_settled tid ∷ []
    else if has_fields m
    then []
    else modify_empty tid ∷ []

unfoldable pub check_add : AddSpec → List Problem
check_add item =
    if not (has_text item.id && (has_text item.title && has_text item.role))
    then add_incomplete item ∷ []
    else (if has_items item.verify then [] else add_unverified (or_else item.id "") ∷ [])
      ++ (if has_items item.allowed_files then [] else add_unlimited (or_else item.id "") ∷ [])

-- the three loops of `validate_diff`
unfoldable pub each {ℓ} : {A : Type ℓ} → (A → List Problem) → List A → List Problem
each check [] = []
each check (x ∷ xs) = check x ++ each check xs

unfoldable pub validate_diff : String → String → PlanDiff → Db → List Problem
validate_diff goal_id self_id diff db =
    each (λ tid. check_cancel tid (known goal_id self_id tid db)) diff.cancel
    ++ (each
          (λ m.
            check_modify m (or_else m.todo_id "") (known goal_id self_id (or_else m.todo_id "") db))
          diff.modify
        ++ each check_add diff.add)

-- what is given: the reading of a diff, its text, the texts of problems, the model
pub record Steerer : Type 0 where
  pub loads : String → Option PlanDiff
  pub json : Json
  pub shown : List Problem → String
  pub unreadable : String
  pub client : List Todo → String → Reply

pub data ParsedDiff : Type 0 where
  read : PlanDiff → ParsedDiff
  problem : String → ParsedDiff

-- `extract_diff` and `validate_diff`, with the text of the exception
unfoldable pub parse_diff : Steerer → Todo → String → Db → ParsedDiff
parse_diff s todo reply db = elim (json_text reply) [
  | none ↦ problem s.unreadable
  | some t ↦ elim (s.loads t) [
    | none ↦ problem s.unreadable
    | some diff ↦
        let problems = validate_diff todo.goal_id todo.id diff db in
        if is_empty problems then read diff else problem (s.shown problems)
  ]
]

abbrev pub steer_again : Todo → String → String → TurnResult
steer_again todo message why =
    turn_result Verdict.successor (append "PlanDiff 校验失败，重试: " why) "" record no_successor {
      title = some todo.title;
      kind = some "steer";
      role = some todo.role;
      packet = some message;
      workspace = some todo.workspace;
    }

abbrev pub applied_turn : String → TurnResult
applied_turn text =
    turn_result Verdict.done "计划变更已自动应用（auto 模式）" (first_chars 2000 text) no_successor

abbrev pub proposed_turn : TurnResult
proposed_turn = turn_result Verdict.needs_user "计划变更待确认（plan_diff_review）" "" no_successor

module _ (s : Steerer) (env : Env) (auto_apply : Bool) where
  -- the change is made at once, or proposed
  unfoldable pub submit : Todo → PlanDiff → Db → Result PlannerError TurnResult × Db
  submit todo diff db =
      if auto_apply
      then (elim (apply_plan_diff s.json env todo.id Decision.approve (some diff) "console" db) [
        | ok r ↦ (ok (applied_turn (s.json.dumps diff)), r.1)
        | err e ↦ (err (kernel_error e), db)
      ])
      else (elim (propose_plan_diff s.json env todo.id diff db) [
        | ok db1 ↦ (ok proposed_turn, db1)
        | err e ↦ (err (kernel_error e), db)
      ])

  unfoldable pub use_diff : Todo → String → Reply → Db → Result PlannerError TurnResult × Db
  use_diff todo message (unavailable why) db = (ok (blocked_turn why), db)
  use_diff todo message (answered reply) db = elim (parse_diff s todo reply db) [
    | problem why ↦ (ok (steer_again todo message why), db)
    | read diff ↦ submit todo diff db
  ]

  -- the packet is read, and not used
  unfoldable pub run_steer_todo : String → Db → Result PlannerError TurnResult × Db
  run_steer_todo i db = elim (get_todo i db) [
    | err e ↦ (err (kernel_error e), db)
    | ok todo ↦
        let message = if is_blank todo.packet then todo.title else todo.packet in
        if not (todo.kind == "steer") then (err wrong_kind, db) else elim (packet_for i db) [
          | err e ↦ (err (kernel_error e), db)
          | ok packet ↦
              use_diff todo message (s.client (todos (some todo.goal_id) none db) message) db
        ]
  ]

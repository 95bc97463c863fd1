-- ===== src/Planner/Service.antt =====
-- fleet/planner/service.py. The client of the model gets what `build_prompt` writes into its text;
-- what it answers, or that it raised, is given. Each call of the kernel has its own clock.
use Prim.Native.Char.{code}
use aidean_fleet.Common.{
  ℕ, suc, not, List, [], ◌∷◌, ◌++◌, map, Option, none, some, String, if◌then◌else◌, eqb, filter,
  is_empty, length,
}
use aidean_fleet.Common.Text.{
  ◌==◌, is_blank, append, strip, strip_left, is_space, split_on, starts_with, drop_chars,
}
use aidean_fleet.Common.Outcome.{Result, ok, err, ◌>>=◌, from_option}
use aidean_fleet.Kernel.State.{Verdict, Successor, TurnResult}
use aidean_fleet.Kernel.Tables.{Todo, Db, Env, Error}
use aidean_fleet.Kernel.Goals.{AllowedFiles, NewTodo, create_todo}
use aidean_fleet.Kernel.Steer.{mapped}
use aidean_fleet.Kernel.Views.{Sibling, Packet, get_todo, packet_for}
use aidean_fleet.Planner.Json.{Value}
use aidean_fleet.Planner.Schema.{PlanError, PlanTodo, Plan, Python, validate_plan}

-- KeyError of a dictionary, an exception of the kernel, ValueError
pub data PlannerError : Type 0 where
  unmapped : String → PlannerError
  kernel_error : Error → PlannerError
  wrong_kind : PlannerError

-- `[id_map[d] for d in deps]`
unfoldable pub map_ids : List (String × String) → List String → Result PlannerError (List String)
map_ids ids [] = ok []
map_ids ids (d ∷ deps) = do
  new_id ← from_option (mapped ids d) (unmapped d)
  rest ← map_ids ids deps
  ok (new_id ∷ rest)

-- the arguments of `create_todo`
unfoldable pub todo_of : List String → List String → PlanTodo → NewTodo
todo_of base_depends deps spec = record {
  kind = "exec";
  title =
      if is_blank spec.milestone
      then spec.title
      else append "[" (append spec.milestone (append "] " spec.title));
  role = spec.role;
  depends_on = if is_empty deps then base_depends else deps;
  allowed_files = AllowedFiles.files spec.allowed_files;
  verify = spec.verify;
  done_when = spec.done_when;
  packet = append "milestone=" (append spec.milestone (append ";id=" spec.id));
  workspace = "";
  todo_id = none;
}

abbrev pub kernel_result {ℓ} : {A : Type ℓ} → Result Error A → Result PlannerError A
kernel_result (ok a) = ok a
kernel_result (err e) = err (kernel_error e)

-- one round of the loop of `apply_plan`: what it makes, or the exception
unfoldable pub apply_one :
    Env
    → String
    → List String
    → List (String × String)
    → PlanTodo
    → Db
    → Result PlannerError (String × Db)
apply_one env goal_id base_depends ids spec db = do
  deps ← map_ids ids spec.depends_on
  kernel_result (create_todo env goal_id (todo_of base_depends deps spec) db)

-- The loop. Each todo is made in a transaction of its own, so those made before an exception stay.
unfoldable pub apply_each :
    (ℕ → Env)
    → String
    → List String
    → ℕ
    → List PlanTodo
    → List (String × String)
    → List String
    → Db
    → Result PlannerError (List String) × Db
apply_each envs goal_id base_depends n [] ids created db = (ok created, db)
apply_each envs goal_id base_depends n (spec ∷ specs) ids created db =
    elim (apply_one (envs n) goal_id base_depends ids spec db) [
      | ok r ↦
          apply_each envs goal_id base_depends (suc n) specs ((spec.id, r.0) ∷ ids)
            (created ++ r.0 ∷ []) r.1
      | err e ↦ (err e, db)
    ]

unfoldable pub apply_plan :
    (ℕ → Env) → String → Plan → List String → Db → Result PlannerError (List String) × Db
apply_plan envs goal_id plan base_depends db =
    apply_each envs goal_id base_depends 0 plan.todos [] [] db

-- the text behind the first of a mark
unfoldable pub after_mark : String → ℕ → String → Option String
after_mark mark n String.[] = none
after_mark mark n (String.◌∷◌ c s) =
    let rest = after_mark mark n s in
    if starts_with mark (String.◌∷◌ c s) then some (drop_chars n (String.◌∷◌ c s)) else rest

-- the text before the first of a mark
unfoldable pub before_mark : String → String → Option String
before_mark mark String.[] = none
before_mark mark (String.◌∷◌ c s) =
    let rest = before_mark mark s in
    if starts_with mark (String.◌∷◌ c s)
    then some ""
    else elim rest [ none ↦ none | some t ↦ some (String.◌∷◌ c t) ]

-- "json" and white space behind the opening fence
unfoldable pub skip_language : String → String
skip_language s = strip_left is_space (if starts_with "json" s then drop_chars 4 s else s)

-- the text between two fences, or the whole text
unfoldable pub unfenced : String → String
unfenced s = elim (after_mark "```" 3 s) [
  | none ↦ s
  | some t ↦ elim (before_mark "```" (skip_language t)) [ none ↦ s | some body ↦ body ]
]

-- from the first opening brace on
unfoldable pub from_brace : String → Option String
from_brace String.[] = none
from_brace (String.◌∷◌ c s) =
    let rest = from_brace s in if eqb (code c) 123 then some (String.◌∷◌ c s) else rest

-- up to the last closing brace
unfoldable pub to_brace : String → Option String
to_brace String.[] = none
to_brace (String.◌∷◌ c s) = elim (to_brace s) [
  | some t ↦ some (String.◌∷◌ c t)
  | none ↦ if eqb (code c) 125 then some (String.◌∷◌ c "") else none
]

-- the text that `extract_json` gives to `json.loads`
unfoldable pub json_text : String → Option String
json_text s = elim (from_brace (unfenced s)) [ none ↦ none | some t ↦ to_brace t ]

-- What is asked of the model, and what comes back: a text, or the text of an exception.
pub record Asked : Type 0 where
  pub requirements : String
  pub goal_title : String
  pub existing : List Sibling
  pub roles : List String

pub data Reply : Type 0 where
  answered unavailable : String → Reply

-- `json.loads` (none is a JSONDecodeError), the texts of exceptions, and the model
pub record Planner : Type 0 where
  pub python : Python
  pub loads : String → Option Value
  pub message : PlanError → String
  pub not_json : String
  pub client : Asked → Reply

pub data Parsed : Type 0 where
  parsed : Plan → Parsed
  refused : String → Parsed

-- `validate_plan(extract_json(reply))`, with the text of PlanValidationError or JSONDecodeError
unfoldable pub parse_reply : Planner → String → Parsed
parse_reply p reply = elim (json_text reply) [
  | none ↦ refused p.not_json
  | some t ↦ elim (p.loads t) [
    | none ↦ refused p.not_json
    | some v ↦ elim (validate_plan p.python v) [
      | ok plan ↦ parsed plan
      | err e ↦ refused (p.message e)
    ]
  ]
]

abbrev pub no_successor : Successor
no_successor = record {
  id = none;
  kind = none;
  title = none;
  role = none;
  depends_on = none;
  allowed_files = none;
  verify = none;
  done_when = none;
  packet = none;
  workspace = none;
}

abbrev pub turn_result : Verdict → String → String → Successor → TurnResult
turn_result v note evidence successor = record {
  verdict = v;
  note = note;
  evidence_path = evidence;
  exit_code = none;
  tokens_in = 0;
  tokens_out = 0;
  session_id = "";
  successor = successor;
}

-- `", ".join(parts)`
unfoldable pub join : String → List String → String
join sep [] = ""
join sep (s ∷ []) = s
join sep (s ∷ t ∷ parts) = append s (append sep (join sep (t ∷ parts)))

abbrev pub blocked_turn : String → TurnResult
blocked_turn why = turn_result Verdict.blocked (append "规划模型不可用: " why) "" no_successor

-- the package of the next round, which carries the error
abbrev pub retry_turn : Todo → String → String → TurnResult
retry_turn todo requirements why =
    turn_result Verdict.successor (append "计划校验失败，重试: " why) "" record no_successor {
      title = some todo.title;
      kind = some "plan";
      role = some todo.role;
      packet = some (append requirements (append "\n\n【上一轮错误，务必修正】" why));
    }

-- `f"计划已生成 {len(created)} 个任务"`, with the text of a number given by its count
abbrev pub done_turn : (ℕ → String) → List String → TurnResult
done_turn show created =
    turn_result Verdict.done (append "计划已生成 " (append (show (length created)) " 个任务"))
      (join ", " created) no_successor

module _ (p : Planner) (show : ℕ → String) (envs : ℕ → Env) where
  -- the writes of a plan that is accepted
  abbrev pub write_plan : Todo → Plan → Db → Result PlannerError TurnResult × Db
  write_plan todo plan db =
      let (created, db1) = apply_plan envs todo.goal_id plan [] db in
      (created >>= λ ids. ok (done_turn show ids), db1)

  abbrev pub use_reply : Todo → String → Reply → Db → Result PlannerError TurnResult × Db
  use_reply todo requirements (unavailable why) db = (ok (blocked_turn why), db)
  use_reply todo requirements (answered reply) db = elim (parse_reply p reply) [
    | refused why ↦ (ok (retry_turn todo requirements why), db)
    | parsed plan ↦ write_plan todo plan db
  ]

  unfoldable pub requirements_of : Todo → String
  requirements_of todo = if is_blank todo.packet then todo.title else todo.packet

  unfoldable pub roles_of : String → List String
  roles_of role = filter (λ r. not (is_blank r)) (map strip (split_on 44 role))

  abbrev ask_planner : Packet → Db → Result PlannerError TurnResult × Db
  ask_planner packet db =
      use_reply packet.todo (requirements_of packet.todo)
        (p.client record {
          requirements = requirements_of packet.todo;
          goal_title = packet.goal_title;
          existing = packet.siblings;
          roles = roles_of packet.todo.role;
        })
        db

  -- `run_plan_todo`; the packet holds the same row
  unfoldable pub run_plan_todo : String → Db → Result PlannerError TurnResult × Db
  run_plan_todo i db = elim (get_todo i db) [
    | err e ↦ (err (kernel_error e), db)
    | ok todo ↦ if not (todo.kind == "plan") then (err wrong_kind, db) else elim (packet_for i db) [
      | err e ↦ (err (kernel_error e), db)
      | ok packet ↦ ask_planner packet db
    ]
  ]

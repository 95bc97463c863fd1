-- ===== src/Planner/Tests.antt =====
-- Runs of the planner.
use aidean_fleet.Common.{
  ◌<◌, ℕ, zero, suc, ◌≡◌, refl, ◌↔◌, ◌⊎◌, inl, inr, true, false, List, [], ◌∷◌, some, String, arith,
  Bool-cases, ap,
}
use aidean_fleet.Common.Text.{
  ◌==◌, eq_of_==, is_blank, chars, append, is_space, strip_left, strip_right, strip_by, strip,
  split_on,
}
use aidean_fleet.Common.Outcome.{ok, err}
use aidean_fleet.Kernel.Tables.{Env, Db, GoalStatus, RequirementsState}
use aidean_fleet.Kernel.Machine.{empty_db}
use aidean_fleet.Kernel.Consistency.Defs.{IsConsistent}
use aidean_fleet.Models.Retry.{contains}
use aidean_fleet.Common.Text.{starts_with}
use aidean_fleet.Planner.Json.{Value, Values, Entries, text_at, text_of, is_truthy}
use aidean_fleet.Planner.Schema
use aidean_fleet.Planner.Schema.{Plan, PlanTodo, PlanError, Python, Dfs}
use aidean_fleet.Planner.Order.{IsRanked, search_cycles-IsRanked}
use aidean_fleet.Planner.Ends.{search_cycles_ends}
use aidean_fleet.Planner.Accepted.{IsAccepted, validate_plan-IsAccepted}
use aidean_fleet.Planner.Service
use aidean_fleet.Planner.Service.{apply_plan, run_plan_todo, Planner, PlannerError, Reply}
use aidean_fleet.Planner.Running.{WritesAccepted, run_plan_todo-writes}
use aidean_fleet.Kernel.Steer.{mapped}
use aidean_fleet.Kernel.Goals.{plan_todo}
use aidean_fleet.Planner.Writing.{in_order, apply_plan_iff}
use aidean_fleet.Common.{none}
use aidean_fleet.Kernel.Reads.{comes_before}
use aidean_fleet.Common.Text.{precedes}
use aidean_fleet.Common.Sorted.{insert_by, order_by}
use aidean_fleet.Kernel.State.{Status}
use aidean_fleet.Kernel.Tables.{PlanDiff}
use aidean_fleet.Kernel.Views.{todos}
use aidean_fleet.Planner.Steer.{
  Steerer, cancel_unknown, known, check_cancel, each, validate_diff, run_steer_todo,
}
use aidean_fleet.Planner.Steering.{Submits, run_steer_todo-Submits}

abbrev pub python : Python
python = record { show = λ v. "?"; lower = λ s. s }

abbrev one_text : String → Value
one_text s = Value.array (Values.next (Value.text s) Values.no_values)

-- a todo of a plan, with its dependencies
abbrev todo_value : String → Values → Value
todo_value id deps = Value.object (
    Entries.entry "id" (Value.text id) (
      Entries.entry "milestone" (Value.text "M1") (
        Entries.entry "title" (Value.text " build ") (
          Entries.entry "role" (Value.text "fe-1") (
            Entries.entry "verify" (one_text "pnpm build") (
              Entries.entry "allowed_files" (Value.text "web/a, web/b ,")
                (Entries.entry "depends_on" (Value.array deps) Entries.no_entries)))))))

abbrev plan_value : Values → Value
plan_value todos = Value.object (
    Entries.entry "milestones"
      (Value.array (
        Values.next
          (Value.object (
            Entries.entry "id" (Value.text "M1")
              (Entries.entry "title" (Value.text "first") Entries.no_entries)))
          Values.no_values))
      (Entries.entry "todos" (Value.array todos) Entries.no_entries))

-- N1 depends on N2, which stands behind it
abbrev pub forward_value : Value
forward_value = plan_value (
    Values.next (todo_value "N1" (Values.next (Value.text "N2") Values.no_values))
      (Values.next (todo_value "N2" Values.no_values) Values.no_values))

abbrev clean : String → List String → PlanTodo
clean id deps = record {
  id = id;
  milestone = "M1";
  title = "build";
  role = "fe-1";
  depends_on = deps;
  allowed_files = "web/a" ∷ "web/b" ∷ [];
  verify = "pnpm build" ∷ [];
  done_when = "";
}

abbrev with_todos : List PlanTodo → Plan
with_todos todos = record { milestones = record { id = "M1"; title = "first" } ∷ []; todos = todos }

abbrev pub forward : Plan
forward = with_todos (clean "N1" ("N2" ∷ []) ∷ clean "N2" [] ∷ [])

abbrev backward : Plan
backward = with_todos (clean "N2" [] ∷ clean "N1" ("N2" ∷ []) ∷ [])

forward_is_valid : Schema.validate_plan python forward_value ≡ ok forward
unfolding Schema.validate_plan Schema.check_milestones Schema.check_milestone Schema.is_id
    Schema.is_id_rest Schema.is_id_char Schema.count_id_chars Schema.check_todos Schema.check_todo
    text_at is_truthy text_of Schema.milestone_allowed Schema.verify_of Schema.allowed_of
    Schema.check_known Schema.check_known_of Schema.depends_of Schema.deps_of Schema.is_fake
    Schema.milestone_name Schema.search_cycles Schema.texts Schema.visit Schema.visit_each contains
    starts_with is_space split_on strip_by strip_left strip_right strip is_blank ◌==◌
forward_is_valid = refl

-- the loop of a todo on itself is found
loop_is_found : Schema.search_cycles (clean "N1" ("N1" ∷ []) ∷ []) ≡ err (PlanError.cycle "N1")
unfolding Schema.search_cycles Schema.visit Schema.visit_each Schema.deps_of ◌==◌
loop_is_found = refl

validate_plan-IsAccepted_example : IsAccepted forward
validate_plan-IsAccepted_example = validate_plan-IsAccepted python forward_value forward_is_valid

search_cycles_ends_example :
    ((s : Dfs) × (Schema.search_cycles forward.todos ≡ ok s))
    ⊎ ((c : String) × (Schema.search_cycles forward.todos ≡ err (PlanError.cycle c))
        × ¬ ((rank : String → ℕ) × IsRanked rank forward.todos))
search_cycles_ends_example = search_cycles_ends forward.todos validate_plan-IsAccepted_example.known

search_cycles-IsRanked_example : (rank : String → ℕ) × IsRanked rank forward.todos
unfolding Schema.search_cycles Schema.visit Schema.visit_each Schema.deps_of ◌==◌
search_cycles-IsRanked_example =
    search_cycles-IsRanked forward.todos record { visiting = []; finished = "N1" ∷ "N2" ∷ [] }
      validate_plan-IsAccepted_example.distinct refl

-- names of growing length, one for each call
unfoldable pub name_of : ℕ → String
name_of zero = ""
name_of (suc n) = append "T" (name_of n)

chars-name_of : (n : ℕ) → chars (name_of n) ≡ n
unfolding name_of append chars
chars-name_of zero = refl
chars-name_of (suc n) = omega (arith, chars-name_of n)

name_of_differs : (k m : ℕ) → k < m → (name_of k == name_of m) ≡ false
name_of_differs k m l = elim (Bool-cases (name_of k == name_of m)) [
  | inr differ ↦ differ
  | inl same ↦
      let sizes : chars (name_of k) ≡ chars (name_of m) =
        ap chars (eq_of_== (name_of k) (name_of m) same) in
      absurd (omega (arith, l, sizes, chars-name_of k, chars-name_of m))
]

abbrev pub clocks : ℕ → Env
clocks n = record { now = 1000; stamp = "s"; day = "d"; fresh_goal = "G-1"; fresh = λ k. name_of n }

abbrev pub one_goal : Db
one_goal = record empty_db {
  goals =
      record {
        id = "G1";
        title = "g";
        status = GoalStatus.active;
        requirements = "";
        workspace = "";
        requirements_state = RequirementsState.draft;
        created_at = "s";
      }
      ∷ [];
}

pub one_goal-IsConsistent : IsConsistent one_goal
one_goal-IsConsistent = record { distinct = tt; in_step = tt; owned = tt }

apply_plan_iff_example :
    ((created : List String) × ((apply_plan clocks "G1" backward [] one_goal).0 ≡ ok created))
    ↔ (in_order [] backward.todos ≡ true)
unfolding ◌==◌
apply_plan_iff_example =
    apply_plan_iff clocks "G1" [] backward one_goal refl (λ k. refl) name_of_differs

-- a plan that is valid and cannot be written
forward_is_refused :
    (in_order [] forward.todos ≡ false)
    × ((apply_plan clocks "G1" forward [] one_goal).0 ≡ err (PlannerError.unmapped "N2"))
unfolding apply_plan Service.apply_each Service.apply_one Service.map_ids mapped ◌==◌
forward_is_refused = (refl, refl)

abbrev pub planner : Planner
planner = record {
  python = python;
  loads = λ s. some forward_value;
  message = λ e. "m";
  not_json = "j";
  client = λ a. Reply.answered "{}";
}

abbrev pub with_plan : Db
with_plan = record one_goal {
  todos = plan_todo (clocks 9) "P1" "G1" "fe-1" "a page" "" "plan" ∷ [];
}

run_plan_todo-writes_example :
    ((run_plan_todo planner (λ n. "2") clocks "P1" with_plan).1 ≡ with_plan)
    ⊎ WritesAccepted python clocks with_plan
        (run_plan_todo planner (λ n. "2") clocks "P1" with_plan).1
run_plan_todo-writes_example = run_plan_todo-writes planner (λ n. "2") clocks "P1" with_plan

-- a todo that steers, while it runs
abbrev pub with_steer : Db
with_steer = record with_plan {
  todos =
      record (plan_todo (clocks 9) "S1" "G1" "fe-1" "drop the page" "" "steer") {
        kind = "steer";
        status = Status.running;
      }
      ∷ with_plan.todos;
}

abbrev pub no_more_pages : PlanDiff
no_more_pages = record { add = []; cancel = "P1" ∷ []; modify = [] }

abbrev pub steerer : Steerer
steerer = record {
  loads = λ s. some no_more_pages;
  json = record { dumps = λ d. "{}"; loads = λ s. none };
  shown = λ ps. "p";
  unreadable = "u";
  client = λ ts message. Reply.answered "{}";
}

-- what is proposed has no problems, and a change that names the steering todo has
proposal_is_checked :
    (validate_diff "G1" "S1" no_more_pages with_steer ≡ [])
    × (validate_diff "G1" "S1" (record no_more_pages { cancel = "S1" ∷ [] }) with_steer
        ≡ cancel_unknown "S1" ∷ [])
unfolding validate_diff each check_cancel known todos is_blank plan_todo order_by insert_by precedes
    comes_before ◌==◌
proposal_is_checked = (refl, refl)

run_steer_todo-Submits_example :
    ((run_steer_todo steerer (clocks 3) false "S1" with_steer).1 ≡ with_steer)
    ⊎ Submits steerer
        (clocks 3)
        "S1"
        with_steer
        (run_steer_todo steerer (clocks 3) false "S1" with_steer).1
run_steer_todo-Submits_example = run_steer_todo-Submits steerer (clocks 3) false "S1" with_steer

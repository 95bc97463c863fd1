-- ===== src/Manager/Tests.antt =====
-- Runs of the graph of dependencies.
use aidean_fleet.Common.{
  ℕ, ◌≡◌, ◌↔◌, refl, ◌⊎◌, Bool, true, false, List, [], ◌∷◌, some, String, any, filter, is_empty,
  All,
}
use aidean_fleet.Common.Text.{
  ◌==◌, is_in, is_blank, replace_char, is_space, strip_left, strip_right, strip_by, strip, split_on,
  precedes,
}
use aidean_fleet.Common.Sorted.{insert_by, order_by}
use aidean_fleet.Tasks.States.{State}
use aidean_fleet.Gates.Patterns.{with_line_feeds, clean_pattern, parse_patterns}
use aidean_fleet.Manager.Cycles.{
  Entry, inner_of, remaining, add_free, take_free, first_free, left_over, report, detect_cycles,
}
use aidean_fleet.Manager.Sorting.{deps_in}
use aidean_fleet.Manager.Ranks.{IsRanked}
use aidean_fleet.Manager.Acyclic.{detect_cycles_ends}
use aidean_fleet.Common.{Option}
use aidean_fleet.Planner.Json.{Value, Values, text_of}
use aidean_fleet.Manager.Ready.{
  parse_dependencies, Row, Memory, range_unrestricted, dep_done, deps_ok, allowed_patterns,
  is_unrestricted, is_seen, see, notify, find_blockers, offer, offer_each, forget, get_ready_tasks,
  release_dependents, is_released,
}
use aidean_fleet.Manager.Offers.{is_ready}
use aidean_fleet.Manager.Readiness.{IsReady, get_ready_tasks-IsReady}

-- two loops, and a task that depends on one of them
abbrev two_loops : List Entry
two_loops =
    ("A", "B" ∷ []) ∷ ("B", "A" ∷ []) ∷ ("C", "C" ∷ []) ∷ ("D", "A" ∷ []) ∷ ("E", "X" ∷ []) ∷ []

-- both loops and what is behind them are one list
two_loops_are_one : detect_cycles two_loops ≡ some (("A" ∷ "B" ∷ "C" ∷ "D" ∷ []) ∷ [])
unfolding detect_cycles take_free add_free remaining inner_of first_free left_over report order_by
    insert_by precedes ◌==◌
two_loops_are_one = refl

detect_cycles_ends_example :
    ((detect_cycles two_loops ≡ some [])
      × ((rank : String → ℕ) × IsRanked rank (remaining two_loops)))
    ⊎ ((c : List String) × (detect_cycles two_loops ≡ some (c ∷ []))
        × (is_empty c ≡ false)
        × All (λ n. any (λ d. is_in d c) (deps_in (remaining two_loops) n) ≡ true) c
        × ¬ ((rank : String → ℕ) × IsRanked rank (remaining two_loops)))
unfolding ◌==◌
detect_cycles_ends_example = detect_cycles_ends two_loops (refl, (refl, (refl, (refl, (refl, tt)))))

-- a task that is done, one that is being done without limits, and one that depends on the first
abbrev rows : List Row
rows =
    record { task_id = "T1"; exec_status = State.done; dependencies = ""; allowed_files = "" }
    ∷ record { task_id = "T2"; exec_status = State.doing; dependencies = ""; allowed_files = "" }
    ∷ record {
      task_id = "T3";
      exec_status = State.assigned;
      dependencies = "T1";
      allowed_files = "";
    }
    ∷ []

-- an array of one text
abbrev loads : String → Option Value
loads text = some (Value.array (Values.next (Value.text text) Values.no_values))

abbrev show : Value → String
show v = "?"

abbrev literal : String → String → Bool
literal name pattern = name == pattern

abbrev fresh : Memory
fresh = record { seen = []; notices = [] }

get_ready_tasks-IsReady_example :
    ((get_ready_tasks literal loads show "P1" rows fresh).0
      ≡ filter (is_ready literal loads show "P1" rows) rows)
    × All
        (λ t.
          (is_ready literal loads show "P1" rows t ≡ true) ↔ IsReady literal loads show "P1" rows t)
        rows
get_ready_tasks-IsReady_example = get_ready_tasks-IsReady literal loads show "P1" rows fresh

-- The same warning is written by each of two calls, since the first call drops what it has remembered.
warned_again :
    (get_ready_tasks literal loads show "P1" rows
      (get_ready_tasks literal loads show "P1" rows fresh).1).1.notices
    ≡ range_unrestricted "T3" "T2" ∷ range_unrestricted "T3" "T2" ∷ []
unfolding parse_dependencies text_of get_ready_tasks offer_each offer find_blockers notify is_seen
    see forget deps_ok dep_done allowed_patterns is_unrestricted order_by parse_patterns
    with_line_feeds clean_pattern replace_char split_on strip strip_by strip_left strip_right
    is_space is_blank ◌==◌
warned_again = refl

-- what waits for a task that is done
released : release_dependents literal loads show "P1" rows "T1" ≡ ("T3" ∷ [])
unfolding parse_dependencies text_of strip strip_by strip_left strip_right is_space
    release_dependents is_released dep_done order_by insert_by is_blank ◌==◌
released = refl

-- ===== src/Manager/Ready.antt =====
-- Which tasks may be handed out: fleet/manager/dag.py but for `detect_cycles`. `fnmatch.fnmatch`,
-- `json.loads` and the text of a value are given. `_DEFER_SEEN` is a list of its entries.
use aidean_fleet.Common.{
  Bool, true, false, not, ◌&&◌, ◌||◌, List, [], ◌∷◌, ◌++◌, map, Option, none, some, String,
  if◌then◌else◌, any, all, filter, find?, is_empty,
}
use aidean_fleet.Common.Text.{◌==◌, is_in, is_blank, append, strip, precedes, starts_with}
use aidean_fleet.Common.Sorted.{order_by}
use aidean_fleet.Tasks.States.{State}
use aidean_fleet.Planner.Json.{Value, list_of, text_of}
use aidean_fleet.Planner.Service.{join}
use aidean_fleet.Gates.Patterns.{parse_patterns}
use aidean_fleet.Manager.Cycles.{Entry, detect_cycles}

-- the columns that are read; `dependencies` is the text of an array
pub record Row : Type 0 where
  pub task_id : String
  pub exec_status : State
  pub dependencies : String
  pub allowed_files : String

-- CycleDetected, and its message
unfoldable pub assert_acyclic : List Entry → Option (List String)
assert_acyclic deps_map = elim (detect_cycles deps_map) [
  | some ((first ∷ cycle) ∷ cycles) ↦ some (first ∷ cycle ++ first ∷ [])
  | _ ↦ none
]

abbrev pub is_done : State → Bool
is_done State.done = true
is_done _ = false

abbrev pub is_doing : State → Bool
is_doing State.doing = true
is_doing _ = false

abbrev pub is_assigned : State → Bool
is_assigned State.assigned = true
is_assigned _ = false

-- a task of this name is DONE, the first one if there are more
unfoldable pub dep_done : List Row → String → Bool
dep_done tasks dep = elim (find? (λ t. t.task_id == dep) tasks) [
  | none ↦ false
  | some t ↦ is_done t.exec_status
]

-- a task that was made in place of the dependency is DONE
unfoldable pub successor_chain_done : List Row → String → Bool
successor_chain_done tasks dep =
    any (λ t. starts_with (append dep "-R") t.task_id && is_done t.exec_status) tasks

unfoldable pub deps_ok : List Row → List String → Bool
deps_ok tasks deps = all (λ d. dep_done tasks d || successor_chain_done tasks d) deps

unfoldable pub allowed_patterns : Row → List String
allowed_patterns t =
    let patterns = parse_patterns t.allowed_files in
    if is_empty patterns then "*" ∷ [] else patterns

-- `set(patterns) == {"*"}`
unfoldable pub is_unrestricted : List String → Bool
is_unrestricted patterns = not (is_empty patterns) && all (λ p. p == "*") patterns

-- a key of `_DEFER_SEEN`, with or without "unrestricted"
pub record Key : Type 0 where
  pub project : String
  pub task : String
  pub unrestricted : Bool

abbrev pub same_bool : Bool → Bool → Bool
same_bool true b = b
same_bool false b = not b

abbrev pub same_key : Key → Key → Bool
same_key a b =
    a.project == b.project && (a.task == b.task && same_bool a.unrestricted b.unrestricted)

abbrev pub Seen : Type 0
Seen = List (Key × String)

-- `seen.get(key) == value`
unfoldable pub is_seen : Key → String → Seen → Bool
is_seen key value [] = false
is_seen key value ((k, v) ∷ seen) = if same_key k key then v == value else is_seen key value seen

-- `seen[key] = value`
unfoldable pub see : Key → String → Seen → Seen
see key value [] = (key, value) ∷ []
see key value ((k, v) ∷ seen) =
    let rest = see key value seen in if same_key k key then (k, value) ∷ seen else (k, v) ∷ rest

pub data Notice : Type 0 where
  range_unrestricted : (task : String) → (other : String) → Notice
  deferred : (task : String) → (conflicts : List String) → Notice

-- the cache and the events
pub record Memory : Type 0 where
  pub seen : Seen
  pub notices : List Notice

-- an event, unless the last of this key was the same
unfoldable pub notify : Key → String → Notice → Memory → Memory
notify key value notice m =
    if is_seen key value m.seen
    then m
    else record { seen = see key value m.seen; notices = m.notices ++ notice ∷ [] }

-- `parse_dependencies` of a text: what is no array of JSON is nothing
unfoldable pub parse_dependencies :
    (String → Option Value) → (Value → String) → String → List String
parse_dependencies loads show text = if is_blank text then [] else elim (loads text) [
  | some (Value.array vs) ↦ filter (λ s. not (is_blank (strip s))) (map (text_of show) (list_of vs))
  | _ ↦ []
]

module _ (fnmatch : String → String → Bool) (loads : String → Option Value) (show : Value → String)
    (project : String) where
  abbrev pub dependencies_of : Row → List String
  dependencies_of t = parse_dependencies loads show t.dependencies

  unfoldable pub ranges_conflict : List String → List String → Bool
  ranges_conflict patterns others = any (λ a. any (λ b. fnmatch a b || fnmatch b a) others) patterns

  abbrev pub key_of : Row → Bool → Key
  key_of task unrestricted = record {
    project = project;
    task = task.task_id;
    unrestricted = unrestricted;
  }

  -- the loop over the tasks being done: those that the task conflicts with
  unfoldable pub find_blockers : Row → List Row → Memory → List String × Memory
  find_blockers task [] m = ([], m)
  find_blockers task (other ∷ doing) m =
      let own = allowed_patterns task in
      let range = allowed_patterns other in
      let key = key_of task true in
      let warned =
        find_blockers task doing
          (notify key other.task_id (range_unrestricted task.task_id other.task_id) m) in
      let (blockers, m1) = find_blockers task doing m in
      if is_unrestricted own && is_unrestricted range
      then warned
      else if ranges_conflict own range
      then (other.task_id ∷ blockers, m1)
      else (blockers, m1)

  abbrev pub doing_of : List Row → List Row
  doing_of tasks = filter (λ t. is_doing t.exec_status) tasks

  pub record Found : Type 0 where
    pub ready : List Row
    pub conflicting : List String
    pub memory : Memory

  -- a task whose dependencies are met: handed out, or put off with an event
  unfoldable pub offer : List Row → Row → Found → Found
  offer tasks task f =
      let (found, m) = find_blockers task (doing_of tasks) f.memory in
      let blockers = order_by precedes found in
      let key = key_of task false in
      if is_empty blockers
      then record f { ready = f.ready ++ task ∷ []; memory = m }
      else record f {
        conflicting = task.task_id ∷ f.conflicting;
        memory = notify key (join "," blockers) (deferred task.task_id blockers) m;
      }

  -- the loop over the tasks
  unfoldable pub offer_each : List Row → List Row → Found → Found
  offer_each tasks [] f = f
  offer_each tasks (task ∷ rest) f =
      let next = offer tasks task f in
      let skip = offer_each tasks rest f in
      let offered = offer_each tasks rest next in
      if is_assigned task.exec_status && deps_ok tasks (dependencies_of task) then offered else skip

  -- the entries of this project whose task is not put off any more are dropped
  unfoldable pub forget : List String → Seen → Seen
  forget conflicting seen =
      filter (λ e. not (e.0.project == project && not (is_in e.0.task conflicting))) seen

  unfoldable pub get_ready_tasks : List Row → Memory → List Row × Memory
  get_ready_tasks tasks m =
      let found = offer_each tasks tasks record { ready = []; conflicting = []; memory = m } in
      (
        found.ready,
        record {
          seen = forget found.conflicting found.memory.seen;
          notices = found.memory.notices;
        },
      )

  -- `release_dependents`, for a task of this project
  unfoldable pub is_released : List Row → String → Row → Bool
  is_released tasks completed candidate =
      let deps = dependencies_of candidate in
      is_assigned candidate.exec_status
      && (is_in completed deps && all (λ d. dep_done tasks d || d == completed) deps)

  unfoldable pub release_dependents : List Row → String → List String
  release_dependents tasks completed =
      if dep_done tasks completed
      then order_by precedes (map (λ t. t.task_id) (filter (is_released tasks completed) tasks))
      else []

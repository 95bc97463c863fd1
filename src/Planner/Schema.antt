-- ===== src/Planner/Schema.antt =====
-- `validate_plan` of fleet/planner/schema.py: the checks in their order, and the search for a cycle.
use Prim.Native.Char.{Char, code}
use aidean_fleet.Common.{
  ℕ, zero, suc, ◌+◌, Bool, true, false, not, ◌&&◌, ◌||◌, List, [], ◌∷◌, ◌++◌, map, Option, none,
  some, String, if◌then◌else◌, leb, eqb, any, filter, find?, length, is_empty,
}
use aidean_fleet.Common.Text.{◌==◌, is_in, is_blank, strip, split_on}
use aidean_fleet.Common.Outcome.{Result, ok, err, ◌>>=◌, ◌>>◌, guard, from_option}
use aidean_fleet.Models.Retry.{contains}
use aidean_fleet.Common.Text.{starts_with}
use aidean_fleet.Planner.Json.{
  Value, list_of, lookup, as_object, as_array, as_text, text_of, text_at,
}

-- the messages of PlanValidationError, by the index that they name; `key_error` is a KeyError, and
-- `too_deep` the end of the fuel of the search
pub data PlanError : Type 0 where
  not_an_object no_milestones no_todos : PlanError
  bad_milestone bad_milestone_id duplicate_milestone : ℕ → PlanError
  todo_not_an_object bad_todo_id duplicate_todo no_title no_role : ℕ → PlanError
  unknown_milestone no_verify fake_verify no_allowed_files bad_depends_on : ℕ → PlanError
  unknown_dependency : String → String → PlanError
  cycle : String → PlanError
  key_error too_deep : PlanError

pub record Milestone : Type 0 where
  pub id : String
  pub title : String

pub record PlanTodo : Type 0 where
  pub id : String
  pub milestone : String
  pub title : String
  pub role : String
  pub depends_on : List String
  pub allowed_files : List String
  pub verify : List String
  pub done_when : String

pub record Plan : Type 0 where
  pub milestones : List Milestone
  pub todos : List PlanTodo

-- What Python gives: the text of a value that is no text, and `str.lower`.
pub record Python : Type 0 where
  pub show : Value → String
  pub lower : String → String

-- a character of `_ID_RE`
unfoldable pub is_id_char : Char → Bool
is_id_char c =
    let n = code c in
    leb 65 n && leb n 90 || leb 97 n && leb n 122 || leb 48 n && leb n 57 || eqb n 95 || eqb n 45

-- the characters up to the end, where `$` also stands before a last line feed
unfoldable pub is_id_rest : String → Bool
is_id_rest String.[] = true
is_id_rest (String.◌∷◌ c String.[]) = is_id_char c || eqb (code c) 10
is_id_rest (String.◌∷◌ c (String.◌∷◌ d s)) = is_id_char c && is_id_rest (String.◌∷◌ d s)

unfoldable pub count_id_chars : String → ℕ
count_id_chars String.[] = 0
count_id_chars (String.◌∷◌ c s) = (if is_id_char c then 1 else 0) + count_id_chars s

-- `_ID_RE.match(s)`
unfoldable pub is_id : String → Bool
is_id s = is_id_rest s && leb 1 (count_id_chars s) && leb (count_id_chars s) 64

unfoldable pub check_milestone : ℕ → List String → Value → Result PlanError Milestone
check_milestone index ids v = do
  fields ← from_option (as_object v) (bad_milestone index)
  id_value ← from_option (lookup "id" fields) (bad_milestone index)
  id ← from_option (as_text id_value) (bad_milestone index)
  title_value ← from_option (lookup "title" fields) (bad_milestone index)
  title ← from_option (as_text title_value) (bad_milestone index)
  guard (is_id id) (bad_milestone_id index)
  guard (not (is_in id ids)) (duplicate_milestone index)
  ok record { id = id; title = title }

-- the loop over `milestones`; `seen` holds the milestones before
unfoldable pub check_milestones :
    ℕ → List Milestone → List Value → Result PlanError (List Milestone)
check_milestones index seen [] = ok seen
check_milestones index seen (v ∷ vs) = do
  m ← check_milestone index (map (λ x. x.id) seen) v
  check_milestones (suc index) (seen ++ m ∷ []) vs

-- `milestone is not None and (…)` does not hold
unfoldable pub milestone_allowed : List String → Option Value → Bool
milestone_allowed ids none = true
milestone_allowed ids (some Value.null) = true
milestone_allowed ids (some (Value.text s)) = is_in s ids
milestone_allowed ids (some _) = false

unfoldable pub milestone_name : Option Value → String
milestone_name (some (Value.text s)) = s
milestone_name _ = ""

abbrev texts_more : Option String → Option (List String) → Option (List String)
texts_more none rest = none
texts_more (some s) none = none
texts_more (some s) (some ss) = some (s ∷ ss)

-- the texts of an array, if all its values are texts
unfoldable pub texts : List Value → Option (List String)
texts [] = some []
texts (v ∷ vs) = texts_more (as_text v) (texts vs)

-- `verify`: an array, not empty, of texts that are not blank
unfoldable pub verify_of : Option Value → Option (List String)
verify_of none = none
verify_of (some v) = elim (as_array v) [
  | none ↦ none
  | some vs ↦ elim (texts vs) [
    | none ↦ none
    | some cmds ↦ if is_empty cmds || any (λ c. is_blank (strip c)) cmds then none else some cmds
  ]
]

module _ (py : Python) where
  -- a command that only asks whether a file is there
  unfoldable pub is_fake : String → Bool
  is_fake cmd =
      let lowered = py.lower (strip cmd) in
      starts_with "python -c" lowered && contains ".exists()" lowered

  -- `allowed_files`: an array that is not empty, or a text with commas
  unfoldable pub allowed_of : Option Value → List String
  allowed_of none = []
  allowed_of (some (Value.text s)) =
      filter (λ part. not (is_blank part)) (map strip (split_on 44 s))
  allowed_of (some (Value.array vs)) = map (text_of py.show) (list_of vs)
  allowed_of (some _) = []

  unfoldable pub depends_of : Option Value → Option (List String)
  depends_of none = some []
  depends_of (some (Value.array vs)) = texts (list_of vs)
  depends_of (some _) = none

  -- one round of the loop over `todos`
  unfoldable pub check_todo : List String → List String → ℕ → Value → Result PlanError PlanTodo
  check_todo milestone_ids todo_ids index v = do
    fields ← from_option (as_object v) (todo_not_an_object index)
    id_value ← from_option (lookup "id" fields) (bad_todo_id index)
    id ← from_option (as_text id_value) (bad_todo_id index)
    guard (is_id id) (bad_todo_id index)
    guard (not (is_in id todo_ids)) (duplicate_todo index)
    title_value ← from_option (lookup "title" fields) (no_title index)
    title ← from_option (as_text title_value) (no_title index)
    guard (not (is_blank (strip title))) (no_title index)
    let role = strip (text_at py.show (lookup "role" fields))
    guard (not (is_blank role)) (no_role index)
    guard (milestone_allowed milestone_ids (lookup "milestone" fields)) (unknown_milestone index)
    verify ← from_option (verify_of (lookup "verify" fields)) (no_verify index)
    guard (not (any is_fake verify)) (fake_verify index)
    let allowed = allowed_of (lookup "allowed_files" fields)
    guard (not (is_empty allowed)) (no_allowed_files index)
    deps ← from_option (depends_of (lookup "depends_on" fields)) (bad_depends_on index)
    ok record {
      id = id;
      milestone = milestone_name (lookup "milestone" fields);
      title = strip title;
      role = role;
      depends_on = deps;
      allowed_files = allowed;
      verify = map strip verify;
      done_when = strip (text_at py.show (lookup "done_when" fields));
    }

  -- the loop over `todos`; `seen` is `clean_todos`
  unfoldable pub check_todos :
      List String → ℕ → List PlanTodo → List Value → Result PlanError (List PlanTodo)
  check_todos milestone_ids index seen [] = ok seen
  check_todos milestone_ids index seen (v ∷ vs) = do
    t ← check_todo milestone_ids (map (λ x. x.id) seen) index v
    check_todos milestone_ids (suc index) (seen ++ t ∷ []) vs

-- the loop that looks for a dependency that is not there
unfoldable pub check_known_of : List String → String → List String → Result PlanError (Unit {0})
check_known_of ids id [] = ok tt
check_known_of ids id (d ∷ deps) = do
  guard (is_in d ids) (unknown_dependency id d)
  check_known_of ids id deps

unfoldable pub check_known : List String → List PlanTodo → Result PlanError (Unit {0})
check_known ids [] = ok tt
check_known ids (t ∷ todos) = do known ← check_known_of ids t.id t.depends_on; check_known ids todos

-- `visiting` and `done`
pub record Dfs : Type 0 where
  pub visiting : List String
  pub finished : List String

-- `by_id[tid]["depends_on"]`
unfoldable pub deps_of : String → List PlanTodo → Option (List String)
deps_of id todos = elim (find? (λ t. t.id == id) todos) [ none ↦ none | some t ↦ some t.depends_on ]

-- the loop of `_visit` over the dependencies
unfoldable pub visit_each :
    (String → Dfs → Result PlanError Dfs) → List String → Dfs → Result PlanError Dfs
visit_each go [] s = ok s
visit_each go (d ∷ deps) s = do s1 ← go d s; visit_each go deps s1

abbrev pub enter : String → Dfs → Dfs
enter id s = record s { visiting = id ∷ s.visiting }

abbrev pub leave : String → Dfs → Dfs
leave id s = record {
  visiting = filter (λ x. not (x == id)) s.visiting;
  finished = id ∷ s.finished;
}

-- `_visit`, on fuel for the depth of its recursion
unfoldable pub visit : List PlanTodo → ℕ → String → Dfs → Result PlanError Dfs
visit todos zero id s = err too_deep
visit todos (suc fuel) id s =
    if is_in id s.finished then ok s else if is_in id s.visiting then err (cycle id) else do
      deps ← from_option (deps_of id todos) key_error
      s1 ← visit_each (visit todos fuel) deps (enter id s)
      ok (leave id s1)

-- each todo is visited; the recursion goes no deeper than there are todos
unfoldable pub search_cycles : List PlanTodo → Result PlanError Dfs
search_cycles todos =
    visit_each (visit todos (suc (length todos))) (map (λ t. t.id) todos)
      record { visiting = []; finished = [] }

unfoldable pub validate_plan : Python → Value → Result PlanError Plan
validate_plan py v = do
  fields ← from_option (as_object v) not_an_object
  milestones_value ← from_option (lookup "milestones" fields) no_milestones
  milestone_values ← from_option (as_array milestones_value) no_milestones
  guard (not (is_empty milestone_values)) no_milestones
  todos_value ← from_option (lookup "todos" fields) no_todos
  todo_values ← from_option (as_array todos_value) no_todos
  guard (not (is_empty todo_values)) no_todos
  milestones ← check_milestones 0 [] milestone_values
  todos ← check_todos py (map (λ m. m.id) milestones) 0 [] todo_values
  known ← check_known (map (λ t. t.id) todos) todos
  searched ← search_cycles todos
  ok record { milestones = milestones; todos = todos }

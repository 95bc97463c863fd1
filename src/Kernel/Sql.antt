-- ===== src/Kernel/Sql.antt =====
-- The statements that the methods of `Kernel` share. A method is a transaction, `with conn:`: it
-- returns the tables that it commits, or an exception, and then the tables stay as they were.
use aidean_fleet.Common.{
  suc, Bool, true, false, not, ◌&&◌, [], ◌∷◌, ◌++◌, Option, none, some, String, if◌then◌else◌, any,
  find?, update,
}
use aidean_fleet.Common.Text.{◌==◌, is_blank}
use aidean_fleet.Common.Outcome.{Result, ok, ◌>>◌, guard, from_option}
use aidean_fleet.Kernel.Tables.{
  Goal, Todo, Attempt, EventKind, Db, Env, Error, no_todo, no_goal, integrity,
}

abbrev pub has_id : String → Todo → Bool
has_id i t = t.id == i

abbrev pub has_goal_id : String → Goal → Bool
has_goal_id g r = r.id == g

-- `x or default` for a text
abbrev pub text_or : Option String → String → String
text_or none d = d
text_or (some s) d = if is_blank s then d else s

-- `_get`
unfoldable pub get : String → Db → Result Error Todo
get i db = from_option (find? (has_id i) db.todos) no_todo

-- `_get_goal`
unfoldable pub get_goal : String → Db → Result Error Goal
get_goal g db = from_option (find? (has_goal_id g) db.goals) no_goal

-- `_event`
unfoldable pub event : Env → EventKind → String → String → Db → Db
event env kind todo_id goal_id db = record db {
  events =
      db.events
      ++ record {
        seq = db.next_event;
        ts = env.stamp;
        kind = kind;
        todo_id = todo_id;
        goal_id = goal_id;
        published = false;
      }
        ∷ [];
  next_event = suc db.next_event;
}

-- `INSERT INTO goals`, whose key is primary
unfoldable pub insert_goal : Goal → Db → Result Error Db
insert_goal g db = do
  guard (not (any (has_goal_id g.id) db.goals)) integrity
  ok (record db { goals = db.goals ++ g ∷ [] })

-- `INSERT INTO todos`: the key is primary, and the goal is a foreign key
unfoldable pub insert_todo : Todo → Db → Result Error Db
insert_todo t db = do
  guard (not (any (has_id t.id) db.todos)) integrity
  guard (any (has_goal_id t.goal_id) db.goals) integrity
  ok (record db { todos = db.todos ++ t ∷ [] })

-- `UPDATE todos SET … WHERE id=?`
unfoldable pub set_todo : String → (Todo → Todo) → Db → Db
set_todo i f db = record db { todos = update (has_id i) f db.todos }

unfoldable pub set_goal : String → (Goal → Goal) → Db → Db
set_goal g f db = record db { goals = update (has_goal_id g) f db.goals }

abbrev pub is_none : Option String → Bool
is_none none = true
is_none (some s) = false

-- an attempt of the todo, and one that has not ended
abbrev pub of_todo : String → Attempt → Bool
of_todo i a = a.todo_id == i

abbrev pub is_open_for : String → Attempt → Bool
is_open_for i a = a.todo_id == i && is_none a.ended_at

-- `INSERT INTO attempts`
unfoldable pub insert_attempt : Env → String → String → String → Db → Db
insert_attempt env i harness model db = record db {
  attempts =
      db.attempts
      ++ record {
        id = db.next_attempt;
        todo_id = i;
        harness = harness;
        model = model;
        started_at = env.stamp;
        ended_at = none;
        exit_code = none;
        tokens_in = 0;
        tokens_out = 0;
        evidence_path = "";
        turn_result = "";
        session_id = "";
      }
        ∷ [];
  next_attempt = suc db.next_attempt;
}

-- `_close_open_attempt`
unfoldable pub close_open_attempt : Env → String → String → Db → Db
close_open_attempt env i turn_result db = record db {
  attempts =
      update (is_open_for i)
        (λ a. record a { ended_at = some env.stamp; turn_result = turn_result }) db.attempts;
}

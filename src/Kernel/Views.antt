-- ===== src/Kernel/Views.antt =====
-- What fleet/kernel/kernel.py shows of its tables: `get_todo`, `todos`, `packet_for`, `attention`.
use aidean_fleet.Common.{
  ℕ, Bool, true, false, not, ◌&&◌, ◌||◌, List, map, Option, none, some, String, count, filter, take,
}
use aidean_fleet.Common.Text.{◌==◌, is_blank, precedes}
use aidean_fleet.Common.Outcome.{Result, ok, ◌>>=◌}
use aidean_fleet.Kernel.State.{Status, in_flight, is_opened, is_done, is_blocked, is_needs_user}
use aidean_fleet.Common.Sorted.{order_by}
use aidean_fleet.Kernel.Tables.{Todo, Db, Error}
use aidean_fleet.Kernel.Sql.{get, get_goal}
use aidean_fleet.Kernel.Reads.{comes_before}

unfoldable pub get_todo : String → Db → Result Error Todo
get_todo i db = get i db

-- the conditions of `todos`; a filter that is blank is none
abbrev pub goal_allows : Option String → Todo → Bool
goal_allows none t = true
goal_allows (some g) t = is_blank g || t.goal_id == g

unfoldable pub todos : Option String → Option (Todo → Bool) → Db → List Todo
todos goal_id status db =
    order_by comes_before
      (filter (λ t. goal_allows goal_id t && elim status [ none ↦ true | some p ↦ p t ]) db.todos)

-- a row of `siblings`
pub record Sibling : Type 0 where
  pub id : String
  pub title : String
  pub status : Status

pub record Packet : Type 0 where
  pub todo : Todo
  pub goal_id : String
  pub goal_title : String
  pub siblings : List Sibling

abbrev created_before : Todo → Todo → Bool
created_before s t = precedes s.created_at t.created_at

abbrev pub siblings_of : Todo → List Todo → List Sibling
siblings_of todo rows =
    map (λ t. record { id = t.id; title = t.title; status = t.status })
      (order_by created_before
        (filter (λ t. t.goal_id == todo.goal_id && not (t.id == todo.id)) rows))

unfoldable pub packet_for : String → Db → Result Error Packet
packet_for i db = do
  todo ← get i db
  goal ← get_goal todo.goal_id db
  ok record {
    todo = todo;
    goal_id = goal.id;
    goal_title = goal.title;
    siblings = siblings_of todo db.todos;
  }

-- `counts`, and the four lists
pub record Attention : Type 0 where
  pub needs_user : List Todo
  pub running : List Todo
  pub blocked : List Todo
  pub done_recent : List Todo
  pub opened : ℕ
  pub superseded : ℕ

abbrev is_superseded : Status → Bool
is_superseded Status.superseded = true
is_superseded _ = false

-- `ORDER BY updated_at DESC`
abbrev updated_after : Todo → Todo → Bool
updated_after s t = precedes t.updated_at s.updated_at

abbrev latest : (Status → Bool) → Db → List Todo
latest p db = order_by updated_after (filter (λ t. p t.status) db.todos)

unfoldable pub attention : Db → Attention
attention db = record {
  needs_user = latest is_needs_user db;
  running = latest in_flight db;
  blocked = latest is_blocked db;
  done_recent = take 10 (latest is_done db);
  opened = count (λ t. is_opened t.status) db.todos;
  superseded = count (λ t. is_superseded t.status) db.todos;
}

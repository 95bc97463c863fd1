-- ===== src/Kernel/Reads.antt =====
-- The reading side of fleet/kernel/kernel.py: what can be claimed, whether to run, and the
-- projections of the tables.
use aidean_fleet.Common.{
  ℕ, Bool, true, false, not, ◌&&◌, ◌||◌, List, [], ◌∷◌, map, Option, none, some, String,
  if◌then◌else◌, ltb, leb, eqb, any, all, filter, find?, update, take,
}
use aidean_fleet.Kernel.State.{in_flight, is_opened, is_done}
use aidean_fleet.Common.Sorted.{order_by}
use aidean_fleet.Kernel.Tables.{Todo, Attempt, Event, Quota, Db, Env}
use aidean_fleet.Kernel.Sql.{has_id, text_or, of_todo}
use Prim.Native.Char.{code}
use aidean_fleet.Common.Text.{◌==◌, is_in, is_blank, strip_by, split_on, replace_char, precedes}
use aidean_fleet.Kernel.Quota.{quota_left}
use aidean_fleet.Kernel.Lease.{requeue_expired_leases}

abbrev pub row_is_done : Option Todo → Bool
row_is_done none = false
row_is_done (some t) = is_done t.status

-- `_deps_done`
unfoldable pub deps_done : Db → Todo → Bool
deps_done db todo = all (λ dep. row_is_done (find? (has_id dep) db.todos)) todo.depends_on

abbrev first_part : List String → String
first_part [] = ""
first_part (w ∷ ws) = w

-- one round of `_parse_roots`: the first part of the path, blank if nothing is left of it
unfoldable pub root_of : String → String
root_of pattern =
    first_part (split_on b'/' (strip_by (λ c. eqb (code c) b'/') (replace_char 92 "/" pattern)))

-- `_parse_roots`; a set, as the list of its members
unfoldable pub parse_roots : List String → List String
parse_roots patterns = filter (λ r. not (is_blank r)) (map root_of patterns)

-- `mine & theirs` is not empty
unfoldable pub roots_meet : List String → List String → Bool
roots_meet mine theirs = any (λ r. is_in r theirs) mine

-- `ORDER BY created_at, id`
unfoldable pub comes_before : Todo → Todo → Bool
comes_before s t =
    precedes s.created_at t.created_at || s.created_at == t.created_at && precedes s.id t.id

-- the roots of the todos in flight
unfoldable pub active_roots : Db → List (List String)
active_roots db = map (λ t. parse_roots t.allowed_files) (filter (λ t. in_flight t.status) db.todos)

abbrev filter_allows : Option String → String → Bool
filter_allows none x = true
filter_allows (some want) x = is_blank want || x == want

-- the tests of the loop of `claimable` on one open todo
unfoldable pub can_claim : Env → Option String → Option String → Db → Todo → Bool
can_claim env role kind db todo =
    (is_blank todo.role || filter_allows role todo.role)
    && (filter_allows kind todo.kind
        && (deps_done db todo
            && (not (any (roots_meet (parse_roots todo.allowed_files)) (active_roots db))
                && (quota_left env "global" db && quota_left env todo.role db))))

unfoldable pub claimable_in : Env → Option String → Option String → Db → List Todo
claimable_in env role kind db =
    filter (can_claim env role kind db)
      (order_by comes_before (filter (λ t. is_opened t.status) db.todos))

-- `claimable` takes back the leases that have expired before it reads
unfoldable pub claimable : Env → Option String → Option String → Db → List Todo × Db
claimable env role kind db =
    let db1 = (requeue_expired_leases env db).1 in (claimable_in env role kind db1, db1)

pub data Run : Type 0 where
  go : Run
  quota_exhausted : String → Run
  no_runnable_todo : Run

abbrev is_spent : String → Quota → Bool
is_spent day q = ltb 0 q.limit_per_day && (q.day == day && leb q.limit_per_day q.used)

-- the loop over the quotas that is made when nothing can be claimed
unfoldable pub spent_key : String → List String → List Quota → Run
spent_key day roles [] = no_runnable_todo
spent_key day roles (q ∷ rows) =
    if is_spent day q && (q.key == "global" || is_in q.key roles)
    then quota_exhausted q.key
    else spent_key day roles rows

unfoldable pub open_roles : Db → List String
open_roles db =
    map (λ t. text_or (some t.role) "global") (filter (λ t. is_opened t.status) db.todos)

unfoldable pub should_run : Env → Db → Run × Db
should_run env db =
    let (todos, db1) = claimable env none none db in
    (
      elim todos [
        | [] ↦ spent_key env.day (open_roles db1) db1.quotas
        | t ∷ rest ↦ if quota_left env "global" db1 then go else quota_exhausted "global"
      ],
      db1,
    )

-- `attempts_of`
unfoldable pub attempts_of : String → Db → List Attempt
attempts_of i db = filter (of_todo i) db.attempts

-- `pending_events`: the rows are in the order of `seq`
unfoldable pub pending_events : ℕ → Db → List Event
pending_events limit db = take limit (filter (λ e. not e.published) db.events)

unfoldable pub has_seq : List ℕ → Event → Bool
has_seq seqs e = any (eqb e.seq) seqs

-- `mark_events_published`
unfoldable pub mark_events_published : List ℕ → Db → Db
mark_events_published seqs db = record db {
  events = update (has_seq seqs) (λ e. record e { published = true }) db.events;
}

-- ===== src/Runner/Steps.antt =====
-- The calls of the kernel that a worker makes on its todo, when nothing stands in their way: what each
-- returns, and the row that it leaves.
use aidean_fleet.Common.{◌≡◌, refl, true, List, none, some, String, find?}
use aidean_fleet.Common.{find?-update_self}
use aidean_fleet.Common.Text.{◌==◌}
use aidean_fleet.Common.Outcome.{ok}
use aidean_fleet.Kernel.State.{Status, is_claimed, is_running}
use aidean_fleet.Kernel.Tables.{Goal, Todo, EventKind, Db, Env, Config}
use aidean_fleet.Kernel.Sql.{has_id, get_goal, event, set_todo, insert_attempt}
use aidean_fleet.Kernel.Lease.{
  reread, claim_row, claim_check, claim_write, claim, with_status, mark_running, mark_verifying,
}
use aidean_fleet.Kernel.Views.{Packet, siblings_of, packet_for}
use aidean_fleet.Kernel.Consistency.Moves.{claim_check_ok}
use aidean_fleet.Kernel.Verdicts.Done.{get_of_find?}

-- the row of a todo, and the goals that were there
pub record Holds (goals : List Goal) (i : String) (t : Todo) (db : Db) : Type 0 where
  pub found : find? (has_id i) db.todos ≡ some t
  pub same_goals : db.goals ≡ goals

module _ (cfg : Config) (env : Env) (i worker : String) where
  pub claim-Holds :
      (harness model : String) (db : Db) {t : Todo}
      → claim_check i db ≡ ok t
      → (db' : Db) × (claim cfg env i worker none harness model db
          ≡ ok (claim_row env worker cfg.lease_seconds t, db'))
        × Holds db.goals i (claim_row env worker cfg.lease_seconds t) db'
  unfolding claim claim_write reread set_todo insert_attempt event
  claim-Holds harness model db {t} free =
      let row =
        find?-update_self (has_id i) (claim_row env worker cfg.lease_seconds) db.todos (λ x. refl)
          (claim_check_ok i db free).0 in
      (
        claim_write env i worker cfg.lease_seconds harness model t db,
        rw
            (
              free,
              get_of_find? i (claim_write env i worker cfg.lease_seconds harness model t db) row,
            )
            refl,
        record { found = row; same_goals = refl },
      )

module _ (env : Env) (i worker : String) where
  pub mark_running-Holds :
      (goals : List Goal) (db : Db) {t : Todo}
      → Holds goals i t db
      → is_claimed t.status ≡ true
      → (t.claimed_by == worker) ≡ true
      → (db' : Db) × (mark_running env i worker db ≡ ok db')
        × Holds goals i (with_status env Status.running t) db'
  unfolding mark_running set_todo event
  mark_running-Holds goals db {t} h stands mine = (
    event env (EventKind.todo_running worker) i t.goal_id
        (set_todo i (with_status env Status.running) db),
    rw (get_of_find? i db h.found, stands, mine) refl,
    record {
      found =
          find?-update_self (has_id i) (with_status env Status.running) db.todos (λ x. refl)
            h.found;
      same_goals = h.same_goals;
    },
  )

  pub mark_verifying-Holds :
      (goals : List Goal) (db : Db) {t : Todo}
      → Holds goals i t db
      → is_running t.status ≡ true
      → (t.claimed_by == worker) ≡ true
      → (db' : Db) × (mark_verifying env i worker db ≡ ok db')
        × Holds goals i (with_status env Status.verifying t) db'
  unfolding mark_verifying set_todo event
  mark_verifying-Holds goals db {t} h stands mine = (
    event env (EventKind.todo_verifying worker) i t.goal_id
        (set_todo i (with_status env Status.verifying) db),
    rw (get_of_find? i db h.found, stands, mine) refl,
    record {
      found =
          find?-update_self (has_id i) (with_status env Status.verifying) db.todos (λ x. refl)
            h.found;
      same_goals = h.same_goals;
    },
  )

pub packet_for_found :
    (i : String) (db : Db) {t : Todo} {g : Goal}
    → find? (has_id i) db.todos ≡ some t
    → get_goal t.goal_id db ≡ ok g
    → (packet : Packet) × (packet_for i db ≡ ok packet)
unfolding packet_for
packet_for_found i db {t} {g} at goal = (
  record { todo = t; goal_id = g.id; goal_title = g.title; siblings = siblings_of t db.todos },
  rw (get_of_find? i db at, goal) refl,
)

pub get_goal_same :
    (g : String) (db db' : Db) → db'.goals ≡ db.goals → get_goal g db' ≡ get_goal g db
unfolding get_goal
get_goal_same g db db' same = rw same refl

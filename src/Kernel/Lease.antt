-- ===== src/Kernel/Lease.antt =====
-- Claims and leases of fleet/kernel/kernel.py: `claim`, `renew_lease`, `requeue_expired_leases`,
-- `mark_running`, `mark_verifying`, and `reopen`.
use aidean_fleet.Common.{
  ℕ, ◌+◌, Bool, ◌&&◌, ◌||◌, List, [], ◌∷◌, map, Option, String, ltb, or_else, filter,
}
use aidean_fleet.Common.Outcome.{Result, ok, ◌>>=◌, ◌>>◌, guard}
use aidean_fleet.Kernel.State.{
  Status, in_flight, is_opened, is_claimed, is_running, is_blocked, is_needs_user,
}
use aidean_fleet.Kernel.Tables.{Todo, EventKind, Db, Env, Config, Error, bad_status, not_holder}
use aidean_fleet.Kernel.Sql.{get, event, set_todo, insert_attempt, close_open_attempt}
use aidean_fleet.Common.Text.{◌==◌}

-- `return self.get_todo(todo_id)` behind a transaction
unfoldable pub reread : String → Db → Result Error (Todo × Db)
reread i db = do todo ← get i db; ok (todo, db)

-- the UPDATE of `claim`
abbrev pub claim_row : Env → String → ℕ → Todo → Todo
claim_row env worker lease t = record t {
  status = Status.claimed;
  claimed_by = worker;
  claim_expires_at = env.now + lease;
  attempt_count = t.attempt_count + 1;
  updated_at = env.stamp;
}

-- The two halves of `claim`: the SELECT with the test, which takes no lock, and the statements
-- that write, which run under the write lock.
unfoldable pub claim_check : String → Db → Result Error Todo
claim_check i db = do todo ← get i db; guard (is_opened todo.status) bad_status; ok todo

unfoldable pub claim_write : Env → String → String → ℕ → String → String → Todo → Db → Db
claim_write env i worker lease harness model todo db =
    let db1 = set_todo i (claim_row env worker lease) db in
    let db2 = insert_attempt env i harness model db1 in
    event env (EventKind.todo_claimed worker lease harness model) i todo.goal_id db2

unfoldable pub claim :
    Config → Env → String → String → Option ℕ → String → String → Db → Result Error (Todo × Db)
claim cfg env i worker lease_seconds harness model db = do
  let lease = or_else lease_seconds cfg.lease_seconds
  todo ← claim_check i db
  reread i (claim_write env i worker lease harness model todo db)

unfoldable pub renew_lease : Config → Env → String → String → Option ℕ → Db → Result Error Db
renew_lease cfg env i worker lease_seconds db = do
  let lease = or_else lease_seconds cfg.lease_seconds
  todo ← get i db
  guard (todo.claimed_by == worker) not_holder
  guard (in_flight todo.status) bad_status
  ok (set_todo i (λ t. record t { claim_expires_at = env.now + lease; updated_at = env.stamp }) db)

-- the WHERE of `requeue_expired_leases`
abbrev pub has_expired : ℕ → Todo → Bool
has_expired now t = in_flight t.status && (ltb 0 t.claim_expires_at && ltb t.claim_expires_at now)

abbrev pub requeue_row : Env → Todo → Todo
requeue_row env t = record t {
  status = Status.opened;
  claimed_by = "";
  claim_expires_at = 0;
  updated_at = env.stamp;
}

-- one round of the loop
unfoldable pub requeue_one : Env → String → Db → Db
requeue_one env tid db =
    let db1 = set_todo tid (requeue_row env) db in
    let db2 = close_open_attempt env tid "lease_expired" db1 in
    event env EventKind.todo_lease_expired tid "" db2

unfoldable pub requeue_all : Env → List String → Db → Db
requeue_all env [] db = db
requeue_all env (tid ∷ tids) db = requeue_all env tids (requeue_one env tid db)

unfoldable pub expired_ids : Env → Db → List String
expired_ids env db = map (λ t. t.id) (filter (has_expired env.now) db.todos)

unfoldable pub requeue_expired_leases : Env → Db → List String × Db
requeue_expired_leases env db = let tids = expired_ids env db in (tids, requeue_all env tids db)

abbrev pub with_status : Env → Status → Todo → Todo
with_status env s t = record t { status = s; updated_at = env.stamp }

unfoldable pub mark_running : Env → String → String → Db → Result Error Db
mark_running env i worker db = do
  todo ← get i db
  guard (is_claimed todo.status) bad_status
  guard (todo.claimed_by == worker) not_holder
  let db1 = set_todo i (with_status env Status.running) db
  ok (event env (EventKind.todo_running worker) i todo.goal_id db1)

unfoldable pub mark_verifying : Env → String → String → Db → Result Error Db
mark_verifying env i worker db = do
  todo ← get i db
  guard (is_running todo.status) bad_status
  guard (todo.claimed_by == worker) not_holder
  let db1 = set_todo i (with_status env Status.verifying) db
  ok (event env (EventKind.todo_verifying worker) i todo.goal_id db1)

unfoldable pub reopen : Env → String → String → Db → Result Error (Todo × Db)
reopen env i actor db = do
  todo ← get i db
  guard (is_blocked todo.status || is_needs_user todo.status) bad_status
  let db1 = set_todo i (requeue_row env) db
  let db2 = event env (EventKind.todo_reopened actor) i todo.goal_id db1
  reread i db2

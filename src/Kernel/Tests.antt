-- ===== src/Kernel/Tests.antt =====
-- Runs of the kernel.
use aidean_fleet.Common.{
  ◌≡◌, refl, ◌↔◌, true, false, List, [], ◌∷◌, ◌++◌, map, none, some, find?, if◌then◌else◌, All,
}
use aidean_fleet.Kernel.State.{Status, Verdict, Successor, TurnResult, is_settled, is_running}
use aidean_fleet.Common.Sorted.{insert_by, order_by}
use aidean_fleet.Kernel.Tables.{Db, Env, Config, Todo}
use aidean_fleet.Common.Text.{
  ◌==◌, is_blank, chars, first_chars, precedes, replace_char, append, is_space, strip_left,
  strip_right, strip_by, strip, split_on,
}
use aidean_fleet.Common.Outcome.{ok}
use aidean_fleet.Kernel.Race.{claim_race}
use aidean_fleet.Kernel.Billing.{less, quota_remaining-charge, quota_left_iff_remaining}
use aidean_fleet.Kernel.Claimable.{CanStart, claimable-CanStart}
use aidean_fleet.Kernel.Expiry.{requeue_expired_leases-expired}
use aidean_fleet.Kernel.Consistency.Attempts.{opens}
use aidean_fleet.Kernel.Sql.{
  has_id, get, get_goal, event, insert_goal, insert_todo, set_todo, set_goal, insert_attempt,
  close_open_attempt,
}
use aidean_fleet.Kernel.Goals.{
  create_goal, plan_todo, create_goal_with_plan, create_goal_draft, merge_requirements,
  append_goal_requirements, freeze_goal, allowed_list, new_todo, create_todo, NewTodo, AllowedFiles,
}
use aidean_fleet.Kernel.Quota.{
  row_left, quota_left, charge_rows, charge, set_quota_rows, set_quota, row_remaining,
  quota_remaining,
}
use aidean_fleet.Kernel.Lease.{
  reread, has_expired, claim_check, claim_write, claim, renew_lease, requeue_one, requeue_all,
  expired_ids, requeue_expired_leases, mark_running, mark_verifying, reopen,
}
use aidean_fleet.Kernel.Writeback.{
  last_attempt, is_just_done, record_outcome, unfinished, set_goal_done, finish_goal, write_done,
  lineage_attempts, successor_todo, write_status, make_successor, write_successor, write_verdict,
  transition,
}
use aidean_fleet.Kernel.Steer.{
  propose_plan_diff, diff_of, id_map, mapped, added_todo, add_todos, cancel_row, cancel_todos,
  modify_row, modify_target, modify_todos, apply_changes, decide, is_complete, close_goal,
  finish_plan, announce, apply_plan_diff, Json,
}
use aidean_fleet.Kernel.Reads.{
  deps_done, root_of, parse_roots, roots_meet, comes_before, active_roots, can_claim, claimable_in,
  claimable, spent_key, open_roles, should_run, attempts_of, pending_events, has_seq,
  mark_events_published,
}
use aidean_fleet.Kernel.Machine.{perform, run_all, Call, empty_db}
use aidean_fleet.Kernel.Consistency.Defs.{IsConsistent}
use aidean_fleet.Kernel.Consistency.Histories.{run_all-IsConsistent}
use aidean_fleet.Kernel.Lifecycle.Edges.{IsMoved}
use aidean_fleet.Kernel.Lifecycle.Steps.{perform-IsMoved}
use aidean_fleet.Kernel.Lifecycle.Histories.{run_all-settled}

abbrev pub env : Env
env = record { now = 1000; stamp = "s"; day = "d"; fresh_goal = "G-1"; fresh = λ n. "T-new" }

abbrev pub cfg : Config
cfg = record { lease_seconds = 900; lineage_limit = 4 }

abbrev pub job : NewTodo
job = record {
  kind = "exec";
  title = "build";
  role = "fe-1";
  depends_on = [];
  allowed_files = AllowedFiles.text "web/a, web/b ,";
  verify = "pnpm build" ∷ [];
  done_when = "";
  packet = "";
  workspace = "";
  todo_id = some "T1";
}

abbrev pub no_successor : Successor
no_successor = record {
  id = none;
  kind = none;
  title = none;
  role = none;
  depends_on = none;
  allowed_files = none;
  verify = none;
  done_when = none;
  packet = none;
  workspace = none;
}

abbrev pub turn : Verdict → TurnResult
turn v = record {
  verdict = v;
  note = "n";
  evidence_path = "";
  exit_code = none;
  tokens_in = 3;
  tokens_out = 4;
  session_id = "";
  successor = no_successor;
}

abbrev pub json : Json
json = record { dumps = λ d. "{}"; loads = λ s. none }

abbrev pub first_calls : List (Env × Call)
first_calls =
    (env, Call.create_goal_call "g" (some "G1"))
    ∷ (env, Call.create_todo_call "G1" job)
    ∷ (env, Call.claim_call "T1" "w" none "" "")
    ∷ (env, Call.mark_running_call "T1" "w")
    ∷ []

abbrev pub done_calls : List (Env × Call)
done_calls =
    (env, Call.mark_verifying_call "T1" "w")
    ∷ (env, Call.transition_call "T1" (turn Verdict.done))
    ∷ []

abbrev pub open_calls : List (Env × Call)
open_calls =
    (env, Call.create_goal_call "g" (some "G1")) ∷ (env, Call.create_todo_call "G1" job) ∷ []

-- a history from the empty tables, which the tests below run
unfoldable pub history : List (Env × Call) → Db
unfolding ◌==◌ is_blank chars first_chars precedes replace_char append is_space strip_left
    strip_right strip_by strip split_on get get_goal event insert_goal insert_todo set_todo set_goal
    insert_attempt close_open_attempt create_goal plan_todo create_goal_with_plan create_goal_draft
    merge_requirements append_goal_requirements freeze_goal allowed_list new_todo create_todo
    row_left quota_left charge_rows charge set_quota_rows set_quota row_remaining quota_remaining
    reread claim_check claim_write claim renew_lease requeue_one requeue_all expired_ids
    requeue_expired_leases mark_running mark_verifying reopen last_attempt is_just_done
    record_outcome unfinished set_goal_done finish_goal write_done lineage_attempts successor_todo
    write_status make_successor write_successor write_verdict transition propose_plan_diff diff_of
    id_map mapped added_todo add_todos cancel_row cancel_todos modify_row modify_target modify_todos
    apply_changes decide is_complete close_goal finish_plan announce apply_plan_diff deps_done
    root_of parse_roots roots_meet comes_before insert_by order_by active_roots can_claim
    claimable_in claimable spent_key open_roles should_run attempts_of pending_events has_seq
    mark_events_published perform run_all
history calls = run_all cfg json calls empty_db

running_status : map (λ t. t.status) (history first_calls).todos ≡ Status.running ∷ []
unfolding history
running_status = refl

done_quota : map (λ q. q.used) (history (first_calls ++ done_calls)).quotas ≡ 1 ∷ []
unfolding history
done_quota = refl

abbrev done_db : Db
done_db = history (first_calls ++ done_calls)

abbrev open_db : Db
open_db = history open_calls

abbrev quota_db : Db
quota_db = history ((env, Call.set_quota_call "fe-1" 5) ∷ [])

pub history-IsConsistent : (calls : List (Env × Call)) → IsConsistent (history calls)
unfolding history
history-IsConsistent calls = run_all-IsConsistent cfg json calls

done_row : (t : Todo) × (find? (has_id "T1") done_db.todos ≡ some t) × (is_settled t.status ≡ true)
unfolding history ◌==◌
done_row = (_, refl, refl)

run_all-IsConsistent_example : IsConsistent (run_all cfg json (first_calls ++ done_calls) empty_db)
run_all-IsConsistent_example = run_all-IsConsistent cfg json (first_calls ++ done_calls)

verifying_db :
    (db : Db) × (perform cfg json env (Call.mark_verifying_call "T1" "w") (history first_calls)
      ≡ ok db)
unfolding history perform ◌==◌ mark_verifying set_todo event get
verifying_db = (_, refl)

perform-IsMoved_example :
    IsMoved
      record { todo = "T1"; from = is_running; target = Status.verifying }
      (history first_calls).todos
      verifying_db.0.todos
perform-IsMoved_example =
    perform-IsMoved cfg json env (Call.mark_verifying_call "T1" "w") (history first_calls)
      {e = record { todo = "T1"; from = is_running; target = Status.verifying }}
      {db' = verifying_db.0} verifying_db.1 refl

run_all-settled_example :
    (t : Todo) × (find? (has_id "T1") (run_all cfg json open_calls done_db).todos ≡ some t)
    × (t.status ≡ done_row.0.status)
run_all-settled_example =
    run_all-settled cfg json open_calls done_db "T1" done_row.0
      (history-IsConsistent (first_calls ++ done_calls)) done_row.1 done_row.2

quota_remaining-charge_example : quota_remaining env "fe-1" (charge env "fe-1" 2 quota_db) ≡ (
    if "fe-1" == "fe-1"
    then less 2 (quota_remaining env "fe-1" quota_db)
    else quota_remaining env "fe-1" quota_db)
quota_remaining-charge_example = quota_remaining-charge env "fe-1" "fe-1" 2 quota_db

quota_left_iff_remaining_example :
    (quota_left env "fe-1" quota_db ≡ false) ↔ (quota_remaining env "fe-1" quota_db ≡ some 0)
quota_left_iff_remaining_example = quota_left_iff_remaining env "fe-1" quota_db

-- the todo is open, and two workers have looked
free_row : (t : Todo) × (claim_check "T1" open_db ≡ ok t)
unfolding history claim_check get ◌==◌
free_row = (_, refl)

claim_race_example :
    let db1 = claim_write env "T1" "w" 900 "h" "m" free_row.0 open_db in
    let db2 = claim_write env "T1" "v" 900 "h" "m" free_row.0 db1 in
    (opens "T1" db2.attempts ≡ 2) × (¬ IsConsistent db2)
claim_race_example =
    claim_race env env "T1" "w" "v" "h" "m" 900 free_row.0 free_row.0 open_db
      (history-IsConsistent open_calls) free_row.1 free_row.1

claimable-CanStart_example :
    All (CanStart env (claimable env none none open_db).1) (claimable env none none open_db).0
claimable-CanStart_example =
    claimable-CanStart env none none open_db (history-IsConsistent open_calls)

abbrev late : Env
late = record env { now = 2000 }

requeue_expired_leases-expired_example :
    All
      (λ t. has_expired late.now t ≡ false)
      (requeue_expired_leases late (history first_calls)).1.todos
requeue_expired_leases-expired_example = requeue_expired_leases-expired late (history first_calls)

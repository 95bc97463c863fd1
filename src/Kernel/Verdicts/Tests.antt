-- ===== src/Kernel/Verdicts/Tests.antt =====
-- Verdicts on a todo under verification.
use aidean_fleet.Common.{
  ◌≤◌, ◌<◌, ◌≡◌, refl, true, false, List, [], none, ◌∷◌, ◌++◌, some, find?, update,
}
use aidean_fleet.Common.Text.{◌==◌, is_blank, chars, first_chars, append}
use aidean_fleet.Common.Outcome.{ok}
use aidean_fleet.Kernel.State.{Status, Verdict, in_flight, is_verifying}
use aidean_fleet.Kernel.Tables.{Todo, Db, Env, PlanDiff, Decision}
use aidean_fleet.Kernel.Sql.{
  has_id, get, event, insert_todo, set_todo, set_goal, close_open_attempt, get_goal,
}
use aidean_fleet.Kernel.Quota.{charge_rows, charge}
use aidean_fleet.Kernel.Lease.{reread}
use aidean_fleet.Kernel.Writeback.{
  settle_row, last_attempt, is_just_done, record_outcome, unfinished, set_goal_done, finish_goal,
  write_done, lineage_attempts, successor_todo, write_status, make_successor, write_successor,
  write_verdict, transition,
}
use aidean_fleet.Kernel.Machine.{Call}
use aidean_fleet.Kernel.Tests.{env, cfg, json, job, turn, first_calls, open_calls, history}
use aidean_fleet.Kernel.Verdicts.Done.{IsAcceptable, IsWrittenDone, saying, transition-done}
use aidean_fleet.Kernel.Verdicts.Applied.{IsOnce, apply_plan_diff-IsOnce}
use aidean_fleet.Kernel.Steer.{
  diff_of, id_map, add_todos, cancel_row, cancel_todos, modify_todos, apply_changes, decide,
  finish_plan, announce, apply_plan_diff,
}
use aidean_fleet.Kernel.Consistency.Defs.{IsConsistent}
use aidean_fleet.Kernel.Consistency.Histories.{run_all-IsConsistent}
use aidean_fleet.Kernel.Verdicts.Successor.{IsSucceeded, transition-successor}

abbrev verifying_db : Db
verifying_db = history (first_calls ++ (env, Call.mark_verifying_call "T1" "w") ∷ [])

VerdictOk : (v : Verdict) (r : Todo × Db) → Type 0
VerdictOk v r = transition cfg env "T1" (saying v (turn v)) verifying_db ≡ ok r

done_ok : (r : Todo × Db) × VerdictOk Verdict.done r
unfolding history VerdictOk ◌==◌ is_blank chars first_chars append get event insert_todo set_todo
    set_goal close_open_attempt get_goal charge_rows charge reread last_attempt is_just_done
    record_outcome unfinished set_goal_done finish_goal write_done lineage_attempts successor_todo
    write_status make_successor write_successor write_verdict transition
done_ok = (_, refl)

successor_ok : (r : Todo × Db) × VerdictOk Verdict.successor r
unfolding history VerdictOk ◌==◌ is_blank chars first_chars append get event insert_todo set_todo
    set_goal close_open_attempt get_goal charge_rows charge reread last_attempt is_just_done
    record_outcome unfinished set_goal_done finish_goal write_done lineage_attempts successor_todo
    write_status make_successor write_successor write_verdict transition
successor_ok = (_, refl)

transition-done_example :
    (todo : Todo) × (find? (has_id "T1") verifying_db.todos ≡ some todo)
    × IsAcceptable todo (turn Verdict.done)
    × IsWrittenDone env "T1" todo verifying_db done_ok.0
unfolding VerdictOk
transition-done_example =
    transition-done cfg env "T1" (turn Verdict.done) verifying_db {r = done_ok.0} done_ok.1

transition-successor_example :
    (todo : Todo) × (find? (has_id "T1") verifying_db.todos ≡ some todo)
    × (in_flight todo.status ≡ true)
    × (lineage_attempts todo.lineage verifying_db < cfg.lineage_limit
        → IsSucceeded env "T1" todo successor_ok.0)
    × (cfg.lineage_limit ≤ lineage_attempts todo.lineage verifying_db
        → (successor_ok.0.0 ≡ settle_row env Status.needs_user todo)
          × (successor_ok.0.1.todos
              ≡ update (has_id todo.id) (settle_row env Status.needs_user) verifying_db.todos))
unfolding VerdictOk
transition-successor_example =
    transition-successor cfg env "T1" (turn Verdict.successor) verifying_db {r = successor_ok.0}
      successor_ok.1

-- a todo that steers, under verification, and the todo that it takes out of the plan
abbrev steer_calls : List (Env × Call)
steer_calls =
    open_calls
    ++ (env, Call.create_todo_call "G1" record job { kind = "steer"; todo_id = some "S1" })
      ∷ (env, Call.claim_call "S1" "w" none "" "")
      ∷ (env, Call.mark_running_call "S1" "w")
      ∷ (env, Call.mark_verifying_call "S1" "w")
      ∷ []

abbrev steer_db : Db
steer_db = history steer_calls

steer_db-IsConsistent : IsConsistent steer_db
unfolding history
steer_db-IsConsistent = run_all-IsConsistent cfg json steer_calls

abbrev without_job : PlanDiff
without_job = record { add = []; cancel = "T1" ∷ []; modify = [] }

Applied : (r : Todo × Db) → Type 0
Applied r =
    apply_plan_diff json env "S1" Decision.approve (some without_job) "console" steer_db ≡ ok r

applied_ok : (r : Todo × Db) × Applied r
unfolding history Applied ◌==◌ is_blank get event set_todo reread apply_plan_diff diff_of decide
    apply_changes add_todos id_map cancel_todos cancel_row modify_todos announce finish_plan
applied_ok = (_, refl)

steer_row :
    (t : Todo) × (find? (has_id "S1") steer_db.todos ≡ some t)
    × (is_verifying t.status ≡ true)
    × ((t.kind == "exec") ≡ false)
unfolding history ◌==◌
steer_row = (_, refl, refl, refl)

apply_plan_diff-IsOnce_example : IsOnce cfg json "S1" steer_row.0.kind applied_ok.0.1
unfolding Applied
apply_plan_diff-IsOnce_example =
    apply_plan_diff-IsOnce cfg json env "S1" Decision.approve (some without_job) "console" steer_db
      {todo = steer_row.0} {r = applied_ok.0} steer_db-IsConsistent steer_row.1 steer_row.2
      applied_ok.1

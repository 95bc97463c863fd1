-- ===== src/Rel/Tests.antt =====
-- A scan that finds a task that hangs, and a watchdog over a console that does not answer.
use aidean_fleet.Common.{◌≡◌, refl, [], ◌∷◌, none, All, arith}
use aidean_fleet.Common.Text.{◌==◌}
use aidean_fleet.Common.Outcome.{ok}
use aidean_fleet.Tasks.States.{State}
use aidean_fleet.Tasks.Store.{Task, ReviewStatus, Store, list_tasks}
use aidean_fleet.Rel.RetryTimer.{Watch, Scanned, aware, scan}
use aidean_fleet.Rel.Stuck.{IsBlocked, IsOverdue, HasZone, scan-IsBlocked}
use aidean_fleet.Rel.Watchdog.{
  Config, Cycle, new_dog, spawn_child, spawned, restart, storm, fail, loop, run,
}
use aidean_fleet.Rel.Storms.{IsSpaced, moments, run-IsSpaced}
use aidean_fleet.Common.{ℕ, ◌+◌, true, false, List}

abbrev hanging : Task
hanging = record {
  task_id = "T1";
  project_id = "P1";
  exec_status = State.doing;
  review_status = ReviewStatus.pending;
  rework_count = 0;
  detail = "";
  remark = "";
  blocked_reason = "";
  created_at = "c";
  updated_at = "u";
}

abbrev store : Store
store = record { tasks = hanging ∷ []; log = []; plan = [] }

abbrev watch : Watch
watch = record {
  from_iso = λ s. aware 100;
  meanwhile = λ n store. store;
  now = 4000;
  stamp = "s";
  summary_of = λ i n. i;
  limit = 1800;
  rows = record { seq = 1; timestamp = "t"; action = "task:doing"; task_id = "T1" } ∷ [];
}

scan-IsBlocked_example :
    (out : Scanned) × (scan watch none store ≡ ok out)
    × All (λ t. IsOverdue watch t → IsBlocked watch out.store t) (list_tasks none store)
unfolding ◌==◌
scan-IsBlocked_example =
    scan-IsBlocked watch none store (refl, tt) (omega arith) (λ n s. refl)
      (all_zoned (list_tasks none store))
  where
    all_zoned : (tasks : List Task) → All (HasZone watch) tasks
    all_zoned [] = tt
    all_zoned (t ∷ tasks) = (λ doing. refl, all_zoned tasks)

-- one restart a window, and a console that never answers
abbrev config : Config
config = record {
  max_failures = 1;
  restart_window = 300;
  max_restarts = 1;
  restart_cmd = "python" ∷ [];
}

abbrev dead_at : ℕ → Cycle
dead_at now = record {
  stop = false;
  alive = false;
  new_pid = now;
  now_storm = now;
  now_restart = now + 1;
}

abbrev dead_cycles : List Cycle
dead_cycles = dead_at 10 ∷ dead_at 400 ∷ dead_at 410 ∷ dead_at 900 ∷ []

-- the third failure lies in the window of the second restart
third_failure_escalates :
    ((run config 7 dead_cycles new_dog).0 ≡ 3)
    × ((run config 7 dead_cycles new_dog).1.escalated ≡ true)
    × ((run config 7 dead_cycles new_dog).1.restart_times ≡ 11 ∷ 401 ∷ [])
unfolding run loop fail storm restart spawn_child spawned
third_failure_escalates = (refl, refl, refl)

run-IsSpaced_example :
    IsSpaced config [] (moments config (run config 7 dead_cycles new_dog).1.notices)
    × ((run config 7 dead_cycles new_dog).1.restart_times
        ≡ moments config (run config 7 dead_cycles new_dog).1.notices)
run-IsSpaced_example =
    run-IsSpaced config 7 dead_cycles (omega arith, (omega arith, (omega arith, (omega arith, tt))))

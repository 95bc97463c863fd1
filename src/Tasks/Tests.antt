-- ===== src/Tasks/Tests.antt =====
-- Moves of a task under review.
use aidean_fleet.Common.{◌+◌, ◌≤◌, ◌<◌, ◌≡◌, refl, true, false, [], ◌∷◌, none, some, find?, arith}
use aidean_fleet.Common.Text.{◌==◌}
use aidean_fleet.Common.Outcome.{ok}
use aidean_fleet.Tasks.States.{
  State, is_state, is_terminal, transitions, can_transition, assert_transition,
  resolve_rework_target,
}
use aidean_fleet.Tasks.Store.{
  ReviewStatus, Speaker, Task, Fields, Store, has_task_id, get_task, update_task,
  default_review_status, default_reason, transition, check_bump, bump_rework,
}
use aidean_fleet.Tasks.Moves.{bump_rework-counts, bump_rework_leaves_terminal}

abbrev no_fields : Fields
no_fields = record { detail = none; remark = none; blocked_reason = none; review_status = none }

abbrev main : Speaker
main = record { actor = "main"; action = some "task:reviewed"; summary = none }

abbrev task_in : State → Task
task_in state = record {
  task_id = "T1";
  project_id = "P1";
  exec_status = state;
  review_status = ReviewStatus.pending;
  rework_count = 2;
  detail = "";
  remark = "";
  blocked_reason = "";
  created_at = "a";
  updated_at = "a";
}

abbrev store_in : State → Store
store_in state = record { tasks = task_in state ∷ []; log = []; plan = [] }

found_in : (state : State) → find? (has_task_id "T1") (store_in state).tasks ≡ some (task_in state)
unfolding ◌==◌
found_in state = refl

ends_done :
    (s : Store) × (transition "b" "T1" State.done no_fields (store_in State.reviewing) ≡ ok s)
unfolding ◌==◌ is_state transitions can_transition assert_transition get_task update_task
    default_review_status default_reason transition
ends_done = (_, refl)

ends_bumped : (s : Store) × (bump_rework "b" "T1" no_fields (store_in State.reviewing) ≡ ok s)
unfolding ◌==◌ is_state transitions can_transition assert_transition get_task update_task
    resolve_rework_target check_bump bump_rework
ends_bumped = (_, refl)

done_is_terminal : is_terminal State.done ≡ true
unfolding is_terminal
done_is_terminal = refl

bump_rework-counts_example :
    (t t' : Task) × (find? (has_task_id "T1") (store_in State.reviewing).tasks ≡ some t)
    × (find? (has_task_id "T1") ends_bumped.0.tasks ≡ some t')
    × (t'.rework_count ≡ t.rework_count + 1)
    × (t'.rework_count ≤ 3 → t'.exec_status ≡ State.assigned)
    × (3 < t'.rework_count → t'.exec_status ≡ State.escalated)
bump_rework-counts_example =
    bump_rework-counts "b" "T1" no_fields (store_in State.reviewing) {s' = ends_bumped.0}
      ends_bumped.1

two_below_three : 2 < 3
two_below_three = omega arith

bump_rework_leaves_terminal_example :
    (s' : Store) × (bump_rework "b" "T1" no_fields (store_in State.done) ≡ ok s')
    × (t' : Task) × (find? (has_task_id "T1") s'.tasks ≡ some t')
    × (t'.exec_status ≡ State.assigned)
    × (can_transition State.done t'.exec_status ≡ false)
bump_rework_leaves_terminal_example =
    bump_rework_leaves_terminal "b" "T1" no_fields (store_in State.done) (task_in State.done)
      (found_in State.done) done_is_terminal two_below_three

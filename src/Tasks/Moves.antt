-- ===== src/Tasks/Moves.antt =====
-- The moves of a task: along the table, with one entry in the stream; and the moves of a rework.
use aidean_fleet.Common.{
  ◌+◌, ◌≤◌, ◌<◌, ◌≡◌, refl, ◌∙◌, ◌↔◌, inl, inr, Bool, true, false, some, String, find?,
  find?-update_self, find?-update_ne, any-find?, any, update, arith, sym, ap, Bool-cases,
}
use aidean_fleet.Common.Text.{◌==◌, eq_of_==, is_blank}
use aidean_fleet.Common.Outcome.{ok, bind_ok, guard_ok, from_option_ok, returned}
use aidean_fleet.Tasks.States.{
  State, is_state, is_terminal, can_transition, transitions, assert_transition,
  resolve_rework_target,
}
use aidean_fleet.Tasks.Store.{
  Task, Fields, Store, has_task_id, get_task, update_task, moved, transition, check_bump, bumped,
  bump_rework, Speaker, refusing, log_move, transition_and_log,
}

assert_iff :
    (from to : State) → (assert_transition from to ≡ ok tt) ↔ (can_transition from to ≡ true)
unfolding assert_transition can_transition is_state transitions
assert_iff from to = ground arith

get_task_ok :
    (i : String) (s : Store) {t : Task}
    → get_task i s ≡ ok t
    → find? (has_task_id i) s.tasks ≡ some t
unfolding get_task
get_task_ok i s e = from_option_ok (find? (has_task_id i) s.tasks) _ e

update_task_ok :
    (i : String) (f : Task → Task) (s : Store) {s' : Store}
    → update_task i f s ≡ ok s'
    → s' ≡ record s { tasks = update (has_task_id i) f s.tasks }
unfolding update_task
update_task_ok i f s {s'} e = guard_ok (any (has_task_id i) s.tasks) _ e λ there k. sym (cc k)

-- what a write on one task leaves: its new row, and the rows, the stream and the plan as they were
pub record IsWritten (i : String) (f : Task → Task) (t : Task) (s s' : Store) : Type 0 where
  pub own_row : find? (has_task_id i) s'.tasks ≡ some (f t)
  pub other_rows :
      (j : String)
      → (i == j) ≡ false
      → find? (has_task_id j) s'.tasks ≡ find? (has_task_id j) s.tasks
  pub same_log : s'.log ≡ s.log
  pub same_plan : s'.plan ≡ s.plan

update_task-seen :
    (i : String) (f : Task → Task) (s : Store) {s' : Store} {t : Task}
    → ((x : Task) → (f x).task_id ≡ x.task_id)
    → find? (has_task_id i) s.tasks ≡ some t
    → update_task i f s ≡ ok s'
    → IsWritten i f t s s'
unfolding update_task
update_task-seen i f s {s'} {t} keep at e = guard_ok (any (has_task_id i) s.tasks) _ e λ there k.
    returned (IsWritten i f t s) (record s { tasks = update (has_task_id i) f s.tasks }) k
      record {
        own_row = find?-update_self (has_task_id i) f s.tasks (λ x. ap (λ n. n == i) (keep x)) at;
        other_rows = λ j ne. find?-update_ne (has_task_id i) (has_task_id j) f s.tasks (λ x q.
            let out : (x.task_id == j) ≡ false = rw (eq_of_== x.task_id i q) ne in
            (out, rw (keep x) out));
        same_log = refl;
        same_plan = refl;
      }

-- A move that goes through takes an edge of the table from the task's state, sets the row of that
-- task only, and touches neither the event stream nor the plan.
pub transition-moves :
    (now i : String) (to : State) (fields : Fields) (s : Store) {s' : Store}
    → transition now i to fields s ≡ ok s'
    → (t : Task) × (find? (has_task_id i) s.tasks ≡ some t)
      × (can_transition t.exec_status to ≡ true)
      × IsWritten i (moved now to fields) t s s'
unfolding transition
transition-moves now i to fields s e = bind_ok (get_task i s) e λ t e1 k1.
    bind_ok (assert_transition t.exec_status to) k1 λ checked e2 k2.
      let at = get_task_ok i s e1 in
      (
        t,
        at,
        (assert_iff t.exec_status to).0 e2,
        update_task-seen i (moved now to fields) s (λ x. refl) at k2,
      )

-- A task that is done, partial or escalated is moved by no call, to no state.
pub transition_from_terminal :
    (now i : String) (to : State) (fields : Fields) (s : Store) (t : Task)
    → find? (has_task_id i) s.tasks ≡ some t
    → is_terminal t.exec_status ≡ true
    → ¬ ((s' : Store) × (transition now i to fields s ≡ ok s'))
unfolding is_terminal can_transition transitions
transition_from_terminal now i to fields s t at h (s', e) =
    let (t', at', legal, w) = transition-moves now i to fields s e in
    let q : t' ≡ t = cc (at', at) in
    let legal' : can_transition t.exec_status to ≡ true = rw (← q) legal in ground arith

-- A bump that goes through counts one more rework and stores the task as assigned, or as escalated
-- when the new count is above 3.
pub bump_rework-counts :
    (now i : String) (fields : Fields) (s : Store) {s' : Store}
    → bump_rework now i fields s ≡ ok s'
    → (t t' : Task) × (find? (has_task_id i) s.tasks ≡ some t)
      × (find? (has_task_id i) s'.tasks ≡ some t')
      × (t'.rework_count ≡ t.rework_count + 1)
      × (t'.rework_count ≤ 3 → t'.exec_status ≡ State.assigned)
      × (3 < t'.rework_count → t'.exec_status ≡ State.escalated)
unfolding bump_rework resolve_rework_target
bump_rework-counts now i fields s e = bind_ok (get_task i s) e λ t e1 k1.
    bind_ok (check_bump t.exec_status) k1 λ checked e2 k2.
      let at = get_task_ok i s e1 in
      let w = update_task-seen i (bumped now fields (t.rework_count + 1)) s (λ x. refl) at k2 in
      (t, bumped now fields (t.rework_count + 1) t, at, w.own_row, refl, ground arith, ground arith)

-- `bump_rework` does not look at the table for a task that is not under review: a task that is done,
-- partial or escalated, with fewer than three reworks, is put back to `assigned`, which is no edge of
-- the table.
pub bump_rework_leaves_terminal :
    (now i : String) (fields : Fields) (s : Store) (t : Task)
    → find? (has_task_id i) s.tasks ≡ some t
    → is_terminal t.exec_status ≡ true
    → t.rework_count < 3
    → (s' : Store) × (bump_rework now i fields s ≡ ok s')
      × (t' : Task) × (find? (has_task_id i) s'.tasks ≡ some t')
      × (t'.exec_status ≡ State.assigned)
      × (can_transition t.exec_status t'.exec_status ≡ false)
unfolding bump_rework get_task update_task check_bump is_terminal can_transition transitions
    resolve_rework_target
bump_rework_leaves_terminal now i fields s t at h few =
    let new = bumped now fields (t.rework_count + 1) in
    (
      record s { tasks = update (has_task_id i) new s.tasks },
      rw (at, any-find? (has_task_id i) s.tasks at) (ground arith),
      new t,
      find?-update_self (has_task_id i) new s.tasks (λ x. refl) at,
      ground arith,
      ground arith,
    )

log_move-tasks :
    (by : Speaker) (i : String) (to : State) (t : Task) (s : Store) (p : Task → Bool)
    → find? p (log_move by i to t s).tasks ≡ find? p s.tasks
unfolding log_move
log_move-tasks by i to t s p = elim (Bool-cases (is_blank t.project_id)) [
  | inl nowhere ↦ rw nowhere refl
  | inr somewhere ↦ rw somewhere refl
]

-- A logged move along an edge of the table, of a task that is there, by an actor with a name, always
-- goes through.
pub transition_and_log_returns :
    (now i : String) (to : State) (by : Speaker) (fields : Fields) (s : Store) (t : Task)
    → is_blank by.actor ≡ false
    → find? (has_task_id i) s.tasks ≡ some t
    → can_transition t.exec_status to ≡ true
    → (r : Task × Store) × (transition_and_log now i to by fields s ≡ ok r)
      × (find? (has_task_id i) r.1.tasks ≡ some (moved now to fields t))
      × ((j : String)
          → (i == j) ≡ false
          → find? (has_task_id j) r.1.tasks ≡ find? (has_task_id j) s.tasks)
unfolding transition_and_log transition get_task update_task refusing
transition_and_log_returns now i to by fields s t named at legal =
    let checked = (assert_iff t.exec_status to).1 legal in
    let s1 = record s { tasks = update (has_task_id i) (moved now to fields) s.tasks } in
    let there : any (has_task_id i) s.tasks ≡ true = any-find? (has_task_id i) s.tasks at in
    let done : update_task i (moved now to fields) s ≡ ok s1 = rw there refl in
    let w = update_task-seen i (moved now to fields) s (λ x. refl) at done in
    (
      (moved now to fields t, log_move by i to (moved now to fields t) s1),
      rw (at, checked, there, w.own_row, named) refl,
      log_move-tasks by i to (moved now to fields t) s1 (has_task_id i) ∙ w.own_row,
      λ j other.
          log_move-tasks by i to (moved now to fields t) s1 (has_task_id j) ∙ w.other_rows j other,
    )

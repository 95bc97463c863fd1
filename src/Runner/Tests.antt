-- ===== src/Runner/Tests.antt =====
-- Runs of the runner.
use aidean_fleet.Common.{
  ℕ, ◌≡◌, refl, ◌↔◌, true, false, List, [], ◌∷◌, none, some, String, find?, is_empty, eqb,
  if◌then◌else◌,
}
use aidean_fleet.Common.Text.{
  ◌==◌, is_blank, chars, drop_chars, precedes, replace_char, append, is_space, strip_left,
  strip_right, strip_by, strip, split_on, starts_with,
}
use aidean_fleet.Common.Sorted.{insert_by, order_by}
use aidean_fleet.Common.Outcome.{Result, ok, err}
use aidean_fleet.Models.Retry.{contains}
use aidean_fleet.Kernel.State.{Status, ExitCode, TurnResult, Verdict}
use aidean_fleet.Kernel.Tables.{PlanDecision, Todo, Db, Config, bad_status}
use aidean_fleet.Kernel.Consistency.Defs.{IsConsistent}
use aidean_fleet.Kernel.Sql.{has_id, get, get_goal, set_todo, insert_attempt, event}
use aidean_fleet.Kernel.Machine.{run_all}
use aidean_fleet.Kernel.Views.{packet_for}
use aidean_fleet.Kernel.Reads
use aidean_fleet.Kernel.Lease
use aidean_fleet.Kernel.Quota
use aidean_fleet.Planner.Service.{
  Reply, no_successor, join, json_text, unfenced, after_mark, before_mark, skip_language,
  from_brace, to_brace,
}
use aidean_fleet.Planner.Json.{Value, Values, Entries}
use aidean_fleet.Planner.Tests.{clocks, one_goal, planner, steerer}
use aidean_fleet.Runner.Actions.{
  WorkerError, refused, ◌>>=◌, pure, call, call_unit, attempt, Times, Outside,
}
use aidean_fleet.Runner.Gates
use aidean_fleet.Runner.Gates.{Ran, GateReport, Shown}
use aidean_fleet.Runner.Verified.{all_succeed, entries, run_verify_iff}
use aidean_fleet.Runner.ModelWrite
use aidean_fleet.Runner.ModelWrite.{Outcome, Wrong, normalize_rel, Reader, Disk, run_model_write}
use aidean_fleet.Runner.Scope.{Leaves, run_model_write-Leaves}
use aidean_fleet.Runner.Worker.{
  Worker, Round, Stored, nothing_stored, writeback, first_detected, harness_chain_for, pick_harness,
  turn_of, gate_of, exec_turn, workspace_of,
}
use aidean_fleet.Runner.Once
use aidean_fleet.Runner.Once.{run_once, run_round, run_loop}
use aidean_fleet.Runner.Backed.{IsBacked}
use aidean_fleet.Runner.Judged.{run_once-IsBacked, run_round_asking}
use aidean_fleet.Planner.Steer.{
  known, check_cancel, each, validate_diff, parse_diff, proposed_turn, submit, use_diff,
  run_steer_todo,
}
use aidean_fleet.Kernel.Steer.{propose_plan_diff}
use aidean_fleet.Kernel.Sql.{close_open_attempt}
use aidean_fleet.Kernel.Views.{get_todo, todos}
use aidean_fleet.Runner.Done.{IsSetUp, run_round_finishes}

abbrev shown : Shown
shown = record { number = λ n. "2"; exit_code = λ c. "0" }

abbrev abc : List String
abc = "a" ∷ "b" ∷ "c" ∷ []

-- the second command does not end in time
abbrev second_hangs : ℕ → String → Ran
second_hangs n command =
    if eqb n 1 then Ran.timed_out else Ran.exited (ExitCode.pos 0) (some command) none

-- the command behind the one that hangs is run as well
third_is_run : (Gates.run_verify shown 600 second_hangs abc).passed ≡ false
unfolding Gates.run_verify Gates.verify_each Gates.entry_of Gates.last_chars append chars drop_chars
third_is_run = refl

run_verify_iff_example :
    ((Gates.run_verify shown 600 second_hangs abc).passed ≡ true
      ↔ (is_empty abc ≡ false) × (all_succeed second_hangs 0 abc ≡ true))
    × ((Gates.run_verify shown 600 second_hangs abc).commands
        ≡ entries shown 600 second_hangs 0 abc)
run_verify_iff_example = run_verify_iff shown 600 second_hangs abc

-- a path with a step to itself goes down, one with a step up does not, and the workspace itself passes
paths_are_read :
    (normalize_rel 0 " web\\./a " ≡ ok "web/a")
    × (normalize_rel 1 "web/../a" ≡ err (Wrong.climbs 1))
    × (normalize_rel 2 "C:/a" ≡ err (Wrong.absolute 2))
    × (normalize_rel 3 "./" ≡ ok "")
unfolding normalize_rel ◌==◌ is_blank replace_char append is_space strip_left strip_right strip_by
    strip split_on starts_with contains join
paths_are_read = (refl, refl, refl, refl)

-- one file to write
abbrev one_file : Value
one_file = Value.object (
    Entries.entry "ops"
      (Value.array (
        Values.next
          (Value.object (
            Entries.entry "op" (Value.text "write") (
              Entries.entry "path" (Value.text "web/a")
                (Entries.entry "content" (Value.text "x") Entries.no_entries))))
          Values.no_values))
      Entries.no_entries)

abbrev reader : Reader
reader = record { fnmatch = λ rel p. true; loads = λ s. some one_file; message = λ x. "m" }

abbrev disk : Disk
disk = record {
  root = "ws" ∷ [];
  is_symlink = λ rel. false;
  resolved = λ rel. "ws" ∷ rel ∷ [];
  attempt = λ n target. ModelWrite.complete;
}

file_is_written :
    (run_model_write reader disk ("web/**" ∷ []) (λ p. Reply.answered "{}") "p").1
    ≡ record { target = "ws" ∷ "web/a" ∷ []; content = "x" } ∷ []
unfolding run_model_write ModelWrite.parse_ops ModelWrite.parse_each ModelWrite.parse_op
    ModelWrite.check_ops ModelWrite.check_op ModelWrite.allowed ModelWrite.is_relative_to
    ModelWrite.write_files json_text unfenced after_mark before_mark skip_language from_brace
    to_brace normalize_rel ◌==◌ is_blank replace_char append is_space strip_left strip_right
    strip_by strip split_on starts_with drop_chars contains join
file_is_written = refl

run_model_write-Leaves_example :
    Leaves reader disk
      ("web/**" ∷ [])
      (λ p. Reply.answered "{}")
      "p"
      (run_model_write reader disk ("web/**" ∷ []) (λ p. Reply.answered "{}") "p").0
      (run_model_write reader disk ("web/**" ∷ []) (λ p. Reply.answered "{}") "p").1
run_model_write-Leaves_example =
    run_model_write-Leaves reader disk ("web/**" ∷ []) (λ p. Reply.answered "{}") "p"

-- an open exec todo of the only goal
abbrev job : Todo
job = record {
  id = "T1";
  goal_id = "G1";
  kind = "exec";
  title = "build";
  role = "fe-1";
  depends_on = [];
  allowed_files = "web/a" ∷ [];
  verify = "pnpm build" ∷ [];
  done_when = "";
  packet = "";
  workspace = "";
  status = Status.opened;
  lineage = "T1";
  attempt_count = 0;
  successor_of = "";
  claimed_by = "";
  claim_expires_at = 0;
  plan_decision = PlanDecision.none;
  created_at = "s";
  updated_at = "s";
}

abbrev one_job : Db
one_job = record one_goal { todos = job ∷ [] }

one_job-IsConsistent : IsConsistent one_job
one_job-IsConsistent = record {
  distinct = (refl, tt);
  in_step = (record { one_open = refl; counted = refl; released = λ h. refl }, tt);
  owned = tt;
}

abbrev config : Config
config = record { lease_seconds = 900; lineage_limit = 4 }

abbrev times : Times
times = record { clock = clocks; others = λ n. []; planner_clock = clocks }

abbrev outside : Outside
outside = record { config = config; json = steerer.json; times = times }

abbrev worked : Outcome
worked = record {
  succeeded = true;
  output = "report";
  error_code = none;
  error_msg = "";
  exit_code = some (ExitCode.pos 0);
  session_id = "";
  tokens_in = 3;
  tokens_out = 4;
}

-- a worker for which only the second harness of the chain is found
abbrev worker : Worker
worker = record {
  name = "w";
  planner_client = none;
  model_for = none;
  workspace_root = "ws";
  roles = λ role. none;
  scheduler_is_auto = false;
  loadable = λ name. true;
  detect = λ name. (name == "codex", "exit 1");
  run_profile = λ name prompt workspace model. worked;
  reader = reader;
  disk = λ workspace. disk;
  ran = λ workspace n command. Ran.exited (ExitCode.pos 0) none none;
  timeout = 600;
  shown = shown;
  dumps = record { texts = λ xs. "[]"; siblings = λ xs. "[]" };
  repr = λ xs. "[]";
  evidence_dir = λ i. "evidence";
  planner = planner;
  steerer = steerer;
}

one_job-IsSetUp : IsSetUp worker outside one_job job "codex"
unfolding Reads.should_run Reads.claimable Reads.claimable_in Reads.can_claim Reads.deps_done
    Reads.active_roots Reads.parse_roots Reads.roots_meet Reads.root_of Reads.comes_before
    Lease.requeue_expired_leases Lease.expired_ids Lease.requeue_all Quota.quota_left Quota.row_left
    order_by insert_by get_goal ◌==◌ is_blank replace_char strip_left strip_right strip_by split_on
    precedes first_detected harness_chain_for
one_job-IsSetUp = record {
  alone = λ n. refl;
  may_run = refl;
  rest = [];
  first = refl;
  executable = refl;
  goal = _;
  has_goal = refl;
  detected = refl;
}

run_round_finishes_example :
    (db' : Db) × (row : Todo) × (run_round worker outside one_job ≡ (ok tt, db'))
    × (find? (has_id "T1") db'.todos ≡ some row)
    × (row.status ≡ Status.done)
unfolding ◌==◌
run_round_finishes_example =
    run_round_finishes worker outside one_job job "codex" one_job-IsSetUp one_job-IsConsistent
      (λ prompt. refl) refl refl

abbrev done_result : TurnResult
done_result = turn_of worked Verdict.done "机器门通过" "evidence" no_successor

abbrev done_stored : Stored
done_stored = record { files = []; evidence = some ("evidence", gate_of worker job, "report") }

abbrev claimed_job : Todo
claimed_job = Lease.claim_row (clocks 2) "w" 900 job

-- the calls of a round, up to the result
unfoldable once : Worker → Outside → Db → Result WorkerError Round × Db
unfolding run_once Once.run_if Once.run_first Once.run_todo Once.choose Once.run_exec Once.claim_as
    Once.start_running Once.start_verifying Once.read_packet Once.execute Once.model_of
    Once.run_other Once.run_planning Once.renew Once.run_planned Once.planned ◌>>=◌ pure call
    call_unit attempt run_all pick_harness first_detected harness_chain_for workspace_of exec_turn
    gate_of Reads.should_run Reads.claimable Reads.claimable_in Reads.can_claim Reads.deps_done
    Reads.active_roots Reads.parse_roots Reads.roots_meet Reads.root_of Reads.comes_before
    Lease.requeue_expired_leases Lease.expired_ids Lease.requeue_all Lease.claim Lease.claim_check
    Lease.claim_write Lease.reread Lease.renew_lease Lease.mark_running Lease.mark_verifying
    Quota.quota_left Quota.row_left packet_for get get_goal set_todo insert_attempt event order_by
    insert_by ◌==◌ is_blank replace_char strip_left strip_right strip_by split_on precedes
    Gates.run_verify Gates.verify_each Gates.entry_of
once w o db = run_once w o db

done_round :
    (run_once worker outside one_job).0
    ≡ ok (writeback "T1" done_result (some claimed_job) done_stored)
unfolding once
done_round = refl

run_once-IsBacked_example : IsBacked worker outside one_job "T1" done_result done_stored
run_once-IsBacked_example =
    run_once-IsBacked worker outside "T1" done_result (some claimed_job) done_stored one_job
      {db' = (run_once worker outside one_job).1}
      (λ i. (done_round i, (run_once worker outside one_job).1)) refl

-- a todo that steers, beside the one that it cancels
abbrev steering : Todo
steering = record job { id = "S1"; kind = "steer"; packet = "drop it"; created_at = "r" }

abbrev planned : Todo
planned = record job { id = "P1"; depends_on = "S1" ∷ [] }

abbrev with_steering : Db
with_steering = record one_goal { todos = steering ∷ planned ∷ [] }

abbrev asking_worker : Worker
asking_worker = record worker { planner_client = some (λ p. Reply.answered "{}") }

asking_round :
    (run_once asking_worker outside with_steering).0
    ≡ ok (
        writeback "S1" proposed_turn
          (some (Lease.claim_row (clocks 2) "w" 900 steering))
          nothing_stored)
unfolding once run_steer_todo get_todo todos use_diff submit parse_diff validate_diff known
    check_cancel each json_text unfenced after_mark before_mark skip_language from_brace to_brace
    starts_with drop_chars is_space propose_plan_diff close_open_attempt
asking_round = refl

run_round_asking_example :
    run_round asking_worker outside with_steering
    ≡ (err (refused bad_status), (run_once asking_worker outside with_steering).1)
run_round_asking_example =
    run_round_asking asking_worker outside "S1" proposed_turn
      (some (Lease.claim_row (clocks 2) "w" 900 steering)) nothing_stored with_steering
      {db' = (run_once asking_worker outside with_steering).1}
      (λ i. (asking_round i, (run_once asking_worker outside with_steering).1)) refl refl

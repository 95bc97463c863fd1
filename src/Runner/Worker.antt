-- ===== src/Runner/Worker.antt =====
-- fleet/runner/worker.py. A profile is known by its name, which `load_profile` compares. Given are
-- the configuration, the profiles and what a harness does, the model, the disk, the commands, and the
-- texts of lists and numbers. Nobody else calls the kernel inside `run_plan_todo` and `run_steer_todo`.
use aidean_fleet.Common.{
  ℕ, Bool, false, ◌&&◌, List, [], ◌∷◌, map, Option, none, some, String, if◌then◌else◌, filter,
  is_empty, or_else,
}
use aidean_fleet.Common.Text.{is_blank, append, first_chars}
use aidean_fleet.Kernel.State.{Verdict, Successor, TurnResult}
use aidean_fleet.Kernel.Tables.{Todo}
use aidean_fleet.Kernel.Reads.{Run}
use aidean_fleet.Planner.Service.{Planner, Reply, join, no_successor}
use aidean_fleet.Planner.Steer.{Steerer}
use aidean_fleet.Runner.Gates.{Ran, GateReport, Shown, run_verify, summary}
use aidean_fleet.Runner.ModelWrite.{Outcome, Reader, Disk, Write}
use aidean_fleet.Runner.Prompt.{Dumps}

-- DEFAULT_HARNESS_CHAIN
abbrev pub default_harness_chain : List String
default_harness_chain = "claude" ∷ "codex" ∷ "opencode" ∷ []

-- the arguments of `run_once`, and what is given
pub record Worker : Type 0 where
  pub name : String
  pub planner_client : Option (String → Reply)
  pub model_for : Option (String → String)
  pub workspace_root : String
  -- `cfg.roles.get(role)`; none also where the configuration cannot be read
  pub roles : String → Option (List String)
  pub scheduler_is_auto : Bool
  pub loadable : String → Bool
  pub detect : String → Bool × String
  pub run_profile : String → String → String → String → Outcome
  pub reader : Reader
  pub disk : String → Disk
  pub ran : String → ℕ → String → Ran
  pub timeout : ℕ
  pub shown : Shown
  pub dumps : Dumps
  pub repr : List String → String
  pub evidence_dir : String → String
  pub planner : Planner
  pub steerer : Steerer

-- what a round stores besides the tables: files that a model wrote, and the evidence of the gate
pub record Stored : Type 0 where
  pub files : List Write
  pub evidence : Option (String × GateReport × String)

-- What `run_once` returns, with what it has stored; the claimed row is missing where the dictionary
-- has none.
pub data Round : Type 0 where
  idle : Run → Round
  writeback : String → TurnResult → Option Todo → Stored → Round

abbrev pub nothing_stored : Stored
nothing_stored = record { files = []; evidence = none }

-- `_harness_chain_for`
unfoldable pub harness_chain_for : Worker → String → List String
harness_chain_for w role =
    let chain = or_else (w.roles role) [] in if is_empty chain then default_harness_chain else chain

-- the loop of `_pick_harness`
unfoldable pub first_detected : Worker → List String → Option String
first_detected w [] = none
first_detected w (name ∷ chain) =
    let rest = first_detected w chain in
    if w.loadable name && (w.detect name).0 then some name else rest

-- why none was picked
unfoldable pub detect_fail : Worker → List String → String
detect_fail w chain = join "；" (
    map (λ name. append name (append ":" (w.detect name).1))
      (filter (λ name. w.loadable name) chain))

-- `_pick_harness`
unfoldable pub pick_harness : Worker → List String → Option String × String
pick_harness w chain = elim (first_detected w chain) [
  | some name ↦ (some name, "")
  | none ↦ (none, detect_fail w chain)
]

unfoldable pub workspace_of : Worker → Todo → String
workspace_of w todo = if is_blank todo.workspace then w.workspace_root else todo.workspace

-- a TurnResult with `**outcome.to_turn_kwargs()`
abbrev pub turn_of : Outcome → Verdict → String → String → Successor → TurnResult
turn_of outcome v note evidence successor = record {
  verdict = v;
  note = note;
  evidence_path = evidence;
  exit_code = outcome.exit_code;
  tokens_in = outcome.tokens_in;
  tokens_out = outcome.tokens_out;
  session_id = outcome.session_id;
  successor = successor;
}

abbrev pub plain_turn : Verdict → String → TurnResult
plain_turn v note = record {
  verdict = v;
  note = note;
  evidence_path = "";
  exit_code = none;
  tokens_in = 0;
  tokens_out = 0;
  session_id = "";
  successor = no_successor;
}

-- who works on an exec todo
pub data Executor : Type 0 where
  harness : String → Executor
  model_write : (String → Reply) → Executor

abbrev pub executor_name : Executor → String
executor_name (harness name) = name
executor_name (model_write client) = "model-write"

abbrev pub failure_source : Executor → String
failure_source (harness name) = append "harness " name
failure_source (model_write client) = "模型直写"

-- the package of the round behind a gate that failed
abbrev pub rework_of : Worker → Todo → String → Successor
rework_of w todo text = record no_successor {
  title = some todo.title;
  role = some todo.role;
  allowed_files = some todo.allowed_files;
  verify = some todo.verify;
  done_when = some todo.done_when;
  packet = some (append todo.packet (append "\n\n【上一轮机器门结果】机器门未通过，按以下失败项修复：\n" text));
  workspace = some (workspace_of w todo);
}

module _ (w : Worker) where
  abbrev pub failed_turn : Todo → Executor → Outcome → TurnResult
  failed_turn todo e outcome =
      turn_of outcome Verdict.blocked
        (append (failure_source e) (
          append "执行失败: " (
            append (or_else outcome.error_code "None")
              (append " " (first_chars 200 outcome.error_msg)))))
        "" no_successor

  unfoldable pub gate_of : Todo → GateReport
  gate_of todo = run_verify w.shown w.timeout (w.ran (workspace_of w todo)) todo.verify

  abbrev pub gated_turn : Todo → Outcome → GateReport → TurnResult
  gated_turn todo outcome report =
      if report.passed
      then turn_of outcome Verdict.done "机器门通过" (w.evidence_dir todo.id) no_successor
      else turn_of outcome Verdict.successor (append "机器门未通过，需返工：\n" (summary w.shown report)) ""
          (rework_of w todo (summary w.shown report))

  -- the end of an exec todo: what is stored as evidence, and the result of the turn
  unfoldable pub exec_turn : Todo → Executor → Outcome → GateReport × TurnResult
  exec_turn todo e outcome =
      if outcome.succeeded
      then (gate_of todo, gated_turn todo outcome (gate_of todo))
      else (record { passed = false; commands = [] }, failed_turn todo e outcome)

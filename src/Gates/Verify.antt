-- ===== src/Gates/Verify.antt =====
-- `run_gate` of fleet/gates/verify.py with `check_evidence`, `truncate_tail` and `_finish`. The answer
-- of the command, the directories that it leaves, what stands at a path behind it, and how far the
-- storing of the evidence comes are given.
use aidean_fleet.Common.{
  ℕ, ◌-◌, Bool, true, false, ◌||◌, List, [], ◌∷◌, ◌++◌, map, Option, none, some, String,
  if◌then◌else◌, ltb, eqb, leb, any, is_empty, take,
}
use aidean_fleet.Common.Text.{is_blank, append, chars, strip, drop_chars}
use aidean_fleet.Common.Outcome.{Result, ok, err}
use aidean_fleet.Gates.Patterns.{parse_patterns, touched_forbidden, outside_allowed}
use aidean_fleet.Gates.Flattened.{flattened_path_dirs}
use aidean_fleet.Gates.Snapshot.{
  Paths, Dir, Dirs, dir, no_dirs, sub, Source, baseline, git, untracked, Workspace,
  changed_files_of,
}

-- `exit_code`: None, a code, or the negative number of a signal
pub data ExitStatus : Type 0 where
  no_exit : ExitStatus
  exited signalled : ℕ → ExitStatus

abbrev pub is_success : ExitStatus → Bool
is_success (exited n) = eqb n 0
is_success _ = false

-- the texts of `check_evidence`
pub data Missing : Type 0 where
  unset : Missing
  no_such empty_file empty_directory unknown_kind : String → Missing

-- what stands at a path: the size of a file, or the sizes of the files below a directory
pub data Found : Type 0 where
  nothing other_kind : Found
  a_file : ℕ → Found
  a_directory : List ℕ → Found

-- `reasons`, by their first word
pub data Reason : Type 0 where
  workspace_missing evidence_write_failed : String → Reason
  baseline_missing verify_cmd_missing : Reason
  verify_cmd_failed : ExitStatus → Reason
  forbidden_files_touched outside_allowed_files flattened_dirs : List String → Reason
  evidence_missing : Missing → Reason

pub record GateResult : Type 0 where
  pub passed : Bool
  pub reasons : List Reason
  pub exit_code : ExitStatus
  pub output_tail : String
  pub verify_cmd : String
  pub changed_files : List String
  pub forbidden_touched : List String
  pub outside : List String
  pub missing_evidence : List Missing
  pub fatal : Bool
  pub baseline_source : Source
  pub evidence_dir : Option String

-- the columns that the gate reads
pub record GateTask : Type 0 where
  pub project_id : String
  pub task_id : String
  pub verify_cmd : String
  pub allowed_files : String
  pub forbidden_files : String
  pub evidence_path : String
  pub workspace : Workspace

pub record Machine : Type 0 where
  pub paths : Paths
  pub fnmatch : String → String → Bool
  pub run_command : String → ExitStatus × String
  -- the names of the directories at the top of the workspace, when this command has ended
  pub dirs_behind : String → List String
  -- what stands at an evidence path, at the end of the gate
  pub look_at : String → Found
  -- the directory of the evidence; or the error, and that directory if it was made before the error
  pub write_evidence : GateResult → Result (String × Option String) String

abbrev pub max_files : ℕ
max_files = 20000

abbrev pub output_tail_limit : ℕ
output_tail_limit = 2000

unfoldable pub truncate_tail : ℕ → String → String
truncate_tail limit content =
    if leb (chars content) limit
    then content
    else append "…（已截尾，仅保留末尾 2000 字）\n" (drop_chars (chars content - limit) content)

-- of an evidence path that is set, resolved against the workspace
unfoldable pub check_found : String → Found → List Missing
check_found raw nothing = no_such raw ∷ []
check_found raw other_kind = unknown_kind raw ∷ []
check_found raw (a_file size) = if ltb 0 size then [] else empty_file raw ∷ []
check_found raw (a_directory sizes) =
    if any (λ size. ltb 0 size) sizes then [] else empty_directory raw ∷ []

abbrev shown_name : String → String
shown_name name = if is_blank name then "(空)" else name

module _ (m : Machine) (task : GateTask) where
  unfoldable pub check_evidence : List Missing
  check_evidence =
      let raw = strip task.evidence_path in
      if is_blank raw then unset ∷ [] else check_found raw (m.look_at raw)

  abbrev pub refuse : Reason → GateResult → GateResult
  refuse reason r = record r { passed = false; reasons = r.reasons ++ reason ∷ [] }

  abbrev pub refuse_unless : Bool → Reason → GateResult → GateResult
  refuse_unless true reason r = r
  refuse_unless false reason r = refuse reason r

  -- the command, as it stands
  unfoldable pub check_command : GateResult → GateResult
  check_command r =
      let cmd = strip task.verify_cmd in
      let (code, output) = m.run_command cmd in
      if is_blank cmd
      then refuse verify_cmd_missing r
      else refuse_unless (is_success code) (verify_cmd_failed code)
          record r { exit_code = code; output_tail = truncate_tail output_tail_limit output }

  -- the changes against the two lists of patterns
  unfoldable pub scan_changes : List String → GateResult → GateResult
  scan_changes changed r = record r {
    forbidden_touched = touched_forbidden m.fnmatch changed (parse_patterns task.forbidden_files);
    outside = outside_allowed m.fnmatch changed (parse_patterns task.allowed_files);
  }

  unfoldable pub check_changes : GateResult → GateResult
  check_changes r =
      refuse_unless (is_empty r.outside) (outside_allowed_files r.outside) (
        refuse_unless (is_empty r.forbidden_touched) (forbidden_files_touched r.forbidden_touched)
          r)

  unfoldable pub check_dirs : List String → GateResult → GateResult
  check_dirs names r =
      let polluted = flattened_path_dirs names in
      refuse_unless (is_empty polluted) (flattened_dirs (take 10 polluted)) r

  unfoldable pub check_missing : GateResult → GateResult
  check_missing r =
      let missing = check_evidence in
      if is_empty missing then r else record r {
        passed = false;
        missing_evidence = missing;
        reasons = r.reasons ++ map evidence_missing missing;
      }

  abbrev pub started : GateResult
  started = record {
    passed = true;
    reasons = [];
    exit_code = no_exit;
    output_tail = "";
    verify_cmd = task.verify_cmd;
    changed_files = [];
    forbidden_touched = [];
    outside = [];
    missing_evidence = [];
    fatal = false;
    baseline_source = baseline;
    evidence_dir = none;
  }

  -- `_finish`
  unfoldable pub finish : GateResult → GateResult
  finish r =
      if is_blank task.project_id || is_blank task.task_id then r else elim (m.write_evidence r) [
        | ok where_to ↦ record r { evidence_dir = some where_to }
        | err (e, made) ↦ record r {
          evidence_dir = made;
          reasons = r.reasons ++ evidence_write_failed e ∷ [];
        }
      ]

  abbrev pub names_of : Dirs → List String
  names_of no_dirs = []
  names_of (sub name d subs) = name ∷ names_of subs

  abbrev pub root_names : Dir → List String
  root_names (dir files subs) = names_of subs

  -- the directories that stand at the top behind `verify_cmd`, which runs unless it is blank
  unfoldable pub names_behind : Dir → List String
  names_behind root =
      let cmd = strip task.verify_cmd in if is_blank cmd then root_names root else m.dirs_behind cmd

  -- the checks in their order, behind those that end the gate
  unfoldable pub run_checks : Dir → List String → GateResult → GateResult
  run_checks root changed r =
      check_missing
        (check_dirs (names_behind root) (check_changes (check_command (scan_changes changed r))))

  abbrev pub scanned : List String → Source → GateResult
  scanned changed source = record started { changed_files = changed; baseline_source = source }

  abbrev pub no_workspace : GateResult
  no_workspace =
      record (refuse (workspace_missing (shown_name (strip task.workspace.name))) started) {
        fatal = true;
      }

  -- on whether the workspace has no name, its directory, and the changes
  unfoldable pub gate_on : Bool → Option Dir → List String → Source → GateResult
  gate_on true root changed source = finish no_workspace
  gate_on false none changed source = finish no_workspace
  gate_on false (some root) changed untracked =
      finish (record (refuse baseline_missing (scanned changed untracked)) { fatal = true })
  gate_on false (some root) changed baseline =
      finish (run_checks root changed (scanned changed baseline))
  gate_on false (some root) changed git = finish (run_checks root changed (scanned changed git))

  unfoldable pub run_gate : GateResult
  run_gate =
      let (changed, source) = changed_files_of m.paths max_files task.workspace in
      gate_on (is_blank (strip task.workspace.name)) task.workspace.root changed source

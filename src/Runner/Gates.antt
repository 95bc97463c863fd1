-- ===== src/Runner/Gates.antt =====
-- fleet/runner/gates.py. What each command does when it is run is given, as are the texts of numbers.
-- The directory that the commands run in is made before, and is not part of the report.
use aidean_fleet.Common.{
  ℕ, zero, suc, ◌-◌, Bool, true, false, not, ◌&&◌, List, [], ◌∷◌, ◌++◌, map, Option, String,
  if◌then◌else◌, filter, is_empty, or_else,
}
use aidean_fleet.Common.Text.{is_blank, append, chars, drop_chars}
use aidean_fleet.Kernel.State.{ExitCode}
use aidean_fleet.Planner.Service.{join}

-- `subprocess.run`: a process that ended, TimeoutExpired, or another exception with its text
pub data Ran : Type 0 where
  exited : ExitCode → Option String → Option String → Ran
  timed_out : Ran
  raised : String → Ran

-- a dictionary of `commands`
pub record Entry : Type 0 where
  pub command : String
  pub exit_code : ExitCode
  pub passed : Bool
  pub output : String

pub record GateReport : Type 0 where
  pub passed : Bool
  pub commands : List Entry

-- the texts that Python writes for numbers
pub record Shown : Type 0 where
  pub number : ℕ → String
  pub exit_code : ExitCode → String

abbrev pub is_zero : ExitCode → Bool
is_zero (ExitCode.pos zero) = true
is_zero (ExitCode.pos (suc n)) = false
is_zero (ExitCode.negsuc n) = false

-- `s[-n:]`, for n above 0
unfoldable pub last_chars : ℕ → String → String
last_chars n s = drop_chars (chars s - n) s

module _ (shown : Shown) (timeout : ℕ) where
  -- the branches of the `try`
  unfoldable pub entry_of : String → Ran → Entry
  entry_of command (exited code stdout stderr) = record {
    command = command;
    exit_code = code;
    passed = is_zero code;
    output = last_chars 4000 (append (or_else stdout "") (or_else stderr ""));
  }
  entry_of command timed_out = record {
    command = command;
    exit_code = ExitCode.pos 124;
    passed = false;
    output = append "超时（" (append (shown.number timeout) "s）");
  }
  entry_of command (raised why) = record {
    command = command;
    exit_code = ExitCode.pos 127;
    passed = false;
    output = why;
  }

  module _ (ran : ℕ → String → Ran) where
    -- the loop; `n` counts the commands that have been run
    unfoldable pub verify_each : ℕ → List String → GateReport → GateReport
    verify_each n [] report = report
    verify_each n (command ∷ commands) report =
        let entry = entry_of command (ran n command) in
        verify_each (suc n) commands record {
          passed = if entry.passed then report.passed else false;
          commands = report.commands ++ entry ∷ [];
        }

    unfoldable pub run_verify : List String → GateReport
    run_verify commands =
        if is_empty commands
        then record { passed = false; commands = [] }
        else verify_each 0 commands record { passed = true; commands = [] }

-- a line of `summary` for each command, and one for the output of each that failed
unfoldable pub summary_line : Shown → Entry → String
summary_line shown c = append "  " (
    append (if c.passed then "PASS" else "FAIL")
      (append ": " (append c.command (append "（exit " (append (shown.exit_code c.exit_code) "）")))))

abbrev pub has_failed_aloud : Entry → Bool
has_failed_aloud c = not c.passed && not (is_blank c.output)

unfoldable pub output_line : Entry → String
output_line c = append "    输出末尾: " (last_chars 300 c.output)

-- `GateReport.summary`
unfoldable pub summary : Shown → GateReport → String
summary shown report =
    let lines =
      map (summary_line shown) report.commands
      ++ map output_line (filter has_failed_aloud report.commands) in
    let text = join "\n" lines in if is_blank text then "  （无验收命令）" else text

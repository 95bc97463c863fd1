-- ===== src/Gates/Tests.antt =====
-- Runs of the gate.
use aidean_fleet.Common.{ℕ, ◌≡◌, refl, ◌↔◌, true, [], ◌∷◌, none, some}
use aidean_fleet.Common.Text.{
  ◌==◌, is_in, is_blank, append, replace_char, is_space, strip_left, strip_right, strip_by, strip,
  split_on, starts_with,
}
use aidean_fleet.Common.Outcome.{err}
use aidean_fleet.Gates.Patterns.{
  with_line_feeds, clean_pattern, parse_patterns, without_suffix, matches_below, matches,
  matches_any, touched_forbidden,
}
use aidean_fleet.Gates.Flattened.{tokens, split_flattened}
use aidean_fleet.Gates.Segments.{joined, AllIn, split_flattened_iff}
use aidean_fleet.Gates.Snapshot.{
  Paths, Stat, Snapshot, Dir, dir, no_dirs, sub, look, snapshot_workspace, merged_changes,
  is_ignored, scan_files, scan_dir,
}
use aidean_fleet.Gates.Changes.{differs, merged_changes-differs}
use aidean_fleet.Gates.Verify.{Machine, GateTask, exited, a_file, run_gate}
use aidean_fleet.Gates.Passing.{Passes, run_gate_iff}

abbrev paths : Paths
paths = record { parts = split_on 47; suffix = λ s. ""; lower = λ s. s }

abbrev stat : ℕ → Stat
stat size = record { mtime_ns = 1; size = size }

abbrev before : Snapshot
before = ("a.py", stat 3) ∷ ("b.py", stat 4) ∷ []

abbrev root : Dir
root = dir (("a.py", stat 5) ∷ []) (
    sub "src" (dir (("c.py", stat 1) ∷ []) no_dirs)
      (sub "build" (dir (("d.py", stat 1) ∷ []) no_dirs) no_dirs))

root_is_read : snapshot_workspace paths 9 root ≡ (("a.py", stat 5) ∷ ("src/c.py", stat 1) ∷ [])
unfolding snapshot_workspace scan_dir scan_files is_ignored split_on append ◌==◌
root_is_read = refl

merged_changes-differs_example :
    is_in "a.py" (merged_changes before (("a.py", stat 5) ∷ []))
    ≡ differs (look "a.py" before) (look "a.py" (("a.py", stat 5) ∷ []))
merged_changes-differs_example = merged_changes-differs "a.py" before (("a.py", stat 5) ∷ [])

split_flattened_iff_example :
    (split_flattened "srcfeaturestable" ≡ some ("src" ∷ "features" ∷ "table" ∷ [])) ↔ (
      (joined ("src" ∷ "features" ∷ "table" ∷ []) ≡ "srcfeaturestable")
      × AllIn tokens ("src" ∷ "features" ∷ "table" ∷ []))
split_flattened_iff_example =
    split_flattened_iff "srcfeaturestable" ("src" ∷ "features" ∷ "table" ∷ [])

-- a hidden file that is forbidden is not found, where a pattern stands for itself
hidden_is_not_found : touched_forbidden (λ s p. s == p) (".env" ∷ []) (parse_patterns ".env") ≡ []
unfolding touched_forbidden matches_any matches matches_below parse_patterns clean_pattern
    with_line_feeds without_suffix replace_char split_on strip strip_by strip_left strip_right
    is_space is_blank append starts_with ◌==◌
hidden_is_not_found = refl

abbrev machine : Machine
machine = record {
  paths = paths;
  fnmatch = λ s p. s == p;
  run_command = λ c. (exited 0, "ok");
  dirs_behind = λ c. [];
  look_at = λ s. a_file 3;
  write_evidence = λ r. err ("disk full", none);
}

abbrev task : GateTask
task = record {
  project_id = "P1";
  task_id = "T1";
  verify_cmd = "pytest";
  allowed_files = "a.py; b.py; src/**";
  forbidden_files = "docs/**";
  evidence_path = "out.log";
  workspace = record { name = "/w"; root = some root; before = some before; lines = none };
}

run_gate_iff_example : ((run_gate machine task).passed ≡ true) ↔ Passes machine task
run_gate_iff_example = run_gate_iff machine task

-- ===== src/Gates/Snapshot.antt =====
-- `is_ignored`, `snapshot_workspace`, `diff_snapshot`, `git_changed_files` and `changed_files_of`. A
-- directory is given as `os.walk` goes through it; what `Path` takes from a path is given.
use Prim.Native.Char.{Char, code}
use aidean_fleet.Common.{
  ℕ, Bool, true, false, not, ◌&&◌, ◌||◌, List, [], ◌∷◌, ◌++◌, map, Option, none, some, String,
  if◌then◌else◌, eqb, leb, any, filter, length,
}
use aidean_fleet.Common.Text.{◌==◌, is_in, is_blank, append, strip, strip_by, precedes, drop_chars}
use aidean_fleet.Common.Sorted.{order_by}
use aidean_fleet.Planner.Service.{after_mark}

-- IGNORE_DIRS, IGNORE_SUFFIXES and _WIN_RESERVED
abbrev pub ignore_dirs : List String
ignore_dirs =
    ".git" ∷ ".hg" ∷ ".svn" ∷ "node_modules" ∷ "__pycache__" ∷ ".venv" ∷ "venv" ∷ ".mypy_cache"
    ∷ ".pytest_cache" ∷ ".ruff_cache" ∷ "playwright-report" ∷ "test-results" ∷ ".next" ∷ "dist"
    ∷ "coverage" ∷ ".nyc_output" ∷ "build" ∷ []

abbrev pub ignore_suffixes : List String
ignore_suffixes = ".pyc" ∷ ".pyo" ∷ ".log" ∷ ".tmp" ∷ ".lock" ∷ []

abbrev pub win_reserved : List String
win_reserved = "nul" ∷ "con" ∷ "aux" ∷ "prn" ∷ []

-- `Path(p).parts`, `Path(p).suffix` and `str.lower`
pub record Paths : Type 0 where
  pub parts : String → List String
  pub suffix : String → String
  pub lower : String → String

pub record Stat : Type 0 where
  pub mtime_ns : ℕ
  pub size : ℕ

abbrev pub Snapshot : Type 0
Snapshot = List (String × Stat)

-- the files of a directory, and the directories in it
mutual
  pub data Dir : Type 0 where
    dir : List (String × Stat) → Dirs → Dir

  pub data Dirs : Type 0 where
    no_dirs : Dirs
    sub : String → Dir → Dirs → Dirs

module _ (p : Paths) where
  unfoldable pub is_ignored : String → Bool
  is_ignored relative =
      any (λ part. is_in part ignore_dirs) (p.parts relative)
      || any (λ part. is_in (p.lower part) win_reserved) (p.parts relative)
      || is_in (p.lower (p.suffix relative)) ignore_suffixes

  -- the files of one directory: whether the limit is reached, and the snapshot
  unfoldable pub scan_files : ℕ → String → List (String × Stat) → Snapshot → Bool × Snapshot
  scan_files limit prefix [] found = (false, found)
  scan_files limit prefix ((name, stat) ∷ files) found =
      let relative = append prefix name in
      let found1 = found ++ (relative, stat) ∷ [] in
      let skip = scan_files limit prefix files found in
      let rest = scan_files limit prefix files found1 in
      if is_ignored relative
      then skip
      else if leb limit (length found1)
      then (true, found1)
      else rest

  unfoldable mutual
    pub scan_dir : ℕ → String → Dir → Snapshot → Bool × Snapshot
    scan_dir limit prefix (dir files subs) found =
        let (full, found1) = scan_files limit prefix files found in
        scan_subs limit prefix subs full found1

    -- the directories in it that are not ignored, unless the limit was reached
    pub scan_subs : ℕ → String → Dirs → Bool → Snapshot → Bool × Snapshot
    scan_subs limit prefix no_dirs full found = (full, found)
    scan_subs limit prefix (sub name d subs) true found = (true, found)
    scan_subs limit prefix (sub name d subs) false found =
        let skip = scan_subs limit prefix subs false found in
        let (full, found1) = scan_dir limit (append prefix (append name "/")) d found in
        let rest = scan_subs limit prefix subs full found1 in
        if is_in name ignore_dirs then skip else rest

  unfoldable pub snapshot_workspace : ℕ → Dir → Snapshot
  snapshot_workspace max_files root = (scan_dir max_files "" root []).1

-- `s[path]`
abbrev pub look : String → Snapshot → Option Stat
look path [] = none
look path ((p, stat) ∷ rest) = if p == path then some stat else look path rest

abbrev pub paths_of : Snapshot → List String
paths_of snapshot = map (λ e. e.0) snapshot

abbrev pub has_path : String → Snapshot → Bool
has_path path snapshot = is_in path (paths_of snapshot)

-- a set as a list without repetitions, in order
unfoldable pub without_repetitions : List String → List String
without_repetitions [] = []
without_repetitions (x ∷ xs) =
    let rest = without_repetitions xs in if is_in x rest then rest else x ∷ rest

unfoldable pub sorted_set : List String → List String
sorted_set xs = order_by precedes (without_repetitions xs)

-- the size or the time is another
unfoldable pub is_modified : Option Stat → Option Stat → Bool
is_modified none now = false
is_modified (some before) none = false
is_modified (some before) (some now) =
    not (eqb before.size now.size) || not (eqb before.mtime_ns now.mtime_ns)

pub record Changes : Type 0 where
  pub added : List String
  pub modified : List String
  pub removed : List String

unfoldable pub diff_snapshot : Snapshot → Snapshot → Changes
diff_snapshot baseline current = record {
  added = sorted_set (filter (λ path. not (has_path path baseline)) (paths_of current));
  modified =
      sorted_set
        (filter (λ path. is_modified (look path baseline) (look path current)) (paths_of current));
  removed = sorted_set (filter (λ path. not (has_path path current)) (paths_of baseline));
}

unfoldable pub merged_changes : Snapshot → Snapshot → List String
merged_changes baseline current =
    let diff = diff_snapshot baseline current in
    sorted_set (diff.added ++ (diff.modified ++ diff.removed))

pub data Source : Type 0 where
  baseline git untracked : Source

abbrev is_quote : Char → Bool
is_quote c = eqb (code c) 34

-- the path of a line of `git status --porcelain`; of a renaming the new one
unfoldable pub path_of_line : String → String
path_of_line line =
    let path = strip_by is_quote (strip (drop_chars 3 line)) in
    elim (after_mark " -> " 4 path) [ none ↦ path | some renamed ↦ renamed ]

-- `git_changed_files`, from the lines that git prints, if it ran in a repository
unfoldable pub git_changed_files : Paths → List String → List String
git_changed_files p lines =
    sorted_set
      (filter (λ path. not (is_blank path) && not (is_ignored p path)) (map path_of_line lines))

-- what the gate finds of a task: the directory, the baseline, the lines of git
pub record Workspace : Type 0 where
  pub name : String
  pub root : Option Dir
  pub before : Option Snapshot
  pub lines : Option (List String)

unfoldable pub changed_files_of : Paths → ℕ → Workspace → List String × Source
changed_files_of p max_files w = elim w.root [
  | none ↦ ([], Source.untracked)
  | some root ↦ if is_blank (strip w.name) then ([], Source.untracked) else elim w.before [
    | some before ↦ (merged_changes before (snapshot_workspace p max_files root), Source.baseline)
    | none ↦ elim w.lines [
      | some lines ↦ (git_changed_files p lines, Source.git)
      | none ↦ ([], Source.untracked)
    ]
  ]
]

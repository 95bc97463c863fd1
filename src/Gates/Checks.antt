-- ===== src/Gates/Checks.antt =====
-- What each check of the gate of fleet/gates/verify.py adds to its answer.
use aidean_fleet.Common.{
  ◌≡◌, refl, ◌∙◌, ap, inl, inr, Bool, true, false, not, ◌&&◌, ◌||◌, List, [], ◌∷◌, String, filter,
  any, is_empty, take, Bool-cases, arith,
}
use aidean_fleet.Common.Text.{is_blank, strip, precedes}
use aidean_fleet.Common.Outcome.{Result-cases}
use aidean_fleet.Common.Sorted.{order_by, any-order_by}
use aidean_fleet.Gates.Patterns.{parse_patterns, matches_any, touched_forbidden, outside_allowed}
use aidean_fleet.Gates.Flattened.{is_flattened, flattened_path_dirs}
use aidean_fleet.Gates.Snapshot.{Dir}
use aidean_fleet.Gates.Verify.{
  Machine, GateTask, GateResult, Reason, outside_allowed_files, forbidden_files_touched,
  flattened_dirs, is_success, check_evidence, refuse_unless, check_command, scan_changes,
  check_changes, check_dirs, check_missing, finish, names_behind, run_checks,
}

is_empty-filter {ℓ} :
    {A : Type ℓ} (p : A → Bool) (xs : List A) → is_empty (filter p xs) ≡ not (any p xs)
is_empty-filter p [] = refl
is_empty-filter p (x ∷ xs) = elim (Bool-cases (p x)) [
  | inl found ↦ rw found refl
  | inr other ↦ rw other (is_empty-filter p xs)
]

module _ (m : Machine) (task : GateTask) where
  refuse_unless-passed :
      (b : Bool) (reason : Reason) (r : GateResult)
      → (refuse_unless m task b reason r).passed ≡ (r.passed && b)
  refuse_unless-passed true reason r = ground arith
  refuse_unless-passed false reason r = ground arith

  pub finish-passed : (r : GateResult) → (finish m task r).passed ≡ r.passed
  unfolding finish
  finish-passed r = elim (Bool-cases (is_blank task.project_id || is_blank task.task_id)) [
    | inl nameless ↦ rw nameless refl
    | inr named ↦ elim (Result-cases (m.write_evidence r)) [
      | inl (where_to, stored) ↦ rw (named, stored) refl
      | inr (e, failed) ↦ rw (named, failed) refl
    ]
  ]

  check_command-passed :
      (r : GateResult)
      → (check_command m task r).passed ≡ (
          r.passed
          && (not (is_blank (strip task.verify_cmd))
              && is_success (m.run_command (strip task.verify_cmd)).0))
  unfolding check_command
  check_command-passed r = elim (Bool-cases (is_blank (strip task.verify_cmd))) [
    | inl blank ↦ rw blank (ground arith)
    | inr command ↦ elim (Bool-cases (is_success (m.run_command (strip task.verify_cmd)).0)) [
      | inl done ↦ rw (command, done) (ground arith)
      | inr failed ↦ rw (command, failed) (ground arith)
    ]
  ]

  check_missing-passed :
      (r : GateResult)
      → (check_missing m task r).passed ≡ (r.passed && is_empty (check_evidence m task))
  unfolding check_missing
  check_missing-passed r = elim (Bool-cases (is_empty (check_evidence m task))) [
    | inl complete ↦ rw complete (ground arith)
    | inr missing ↦ rw missing (ground arith)
  ]

  check_changes-passed :
      (r : GateResult)
      → (check_changes m task r).passed
        ≡ (r.passed && is_empty r.forbidden_touched && is_empty r.outside)
  unfolding check_changes
  check_changes-passed r =
      refuse_unless-passed (is_empty r.outside) (outside_allowed_files r.outside) (
        refuse_unless m task (is_empty r.forbidden_touched)
          (forbidden_files_touched r.forbidden_touched) r)
      ∙ ap (λ b. b && is_empty r.outside)
          (refuse_unless-passed (is_empty r.forbidden_touched)
            (forbidden_files_touched r.forbidden_touched) r)

  check_dirs-passed :
      (names : List String) (r : GateResult)
      → (check_dirs m task names r).passed ≡ (r.passed && not (any is_flattened names))
  unfolding check_dirs flattened_path_dirs
  check_dirs-passed names r =
      refuse_unless-passed (is_empty (flattened_path_dirs names))
        (flattened_dirs (take 10 (flattened_path_dirs names))) r
      ∙ ap (λ b. r.passed && b)
          (is_empty-filter is_flattened (order_by precedes names)
            ∙ ap not (any-order_by precedes is_flattened names))

  abbrev pub forbids : String → Bool
  forbids path = matches_any m.fnmatch path (parse_patterns task.forbidden_files)

  abbrev pub excludes : String → Bool
  excludes path =
      not (is_empty (parse_patterns task.allowed_files))
      && not (matches_any m.fnmatch path (parse_patterns task.allowed_files))

  abbrev pub command_succeeds : Bool
  command_succeeds =
      not (is_blank (strip task.verify_cmd)) && is_success (m.run_command (strip task.verify_cmd)).0

  check_command-keeps :
      (r : GateResult)
      → ((check_command m task r).forbidden_touched ≡ r.forbidden_touched)
        × ((check_command m task r).outside ≡ r.outside)
  unfolding check_command
  check_command-keeps r = elim (Bool-cases (is_blank (strip task.verify_cmd))) [
    | inl blank ↦ rw blank (refl, refl)
    | inr command ↦ elim (Bool-cases (is_success (m.run_command (strip task.verify_cmd)).0)) [
      | inl done ↦ rw (command, done) (refl, refl)
      | inr failed ↦ rw (command, failed) (refl, refl)
    ]
  ]

  pub run_checks-passed :
      (root : Dir) (changed : List String) (r : GateResult)
      → (run_checks m task root changed r).passed ≡ (
          r.passed
          && command_succeeds
          && not (any forbids changed)
          && not (any excludes changed)
          && not (any is_flattened (names_behind m task root))
          && is_empty (check_evidence m task))
  unfolding run_checks scan_changes touched_forbidden outside_allowed
  run_checks-passed root changed r =
      let s = scan_changes m task changed r in
      let c = check_command m task s in
      let (f, o) = check_command-keeps s in
      rw
        (
          check_missing-passed
              (check_dirs m task (names_behind m task root) (check_changes m task c)),
          check_dirs-passed (names_behind m task root) (check_changes m task c),
          check_changes-passed c,
          check_command-passed s,
          f,
          o,
          is_empty-filter forbids changed,
          is_empty-filter excludes changed,
        )
        refl

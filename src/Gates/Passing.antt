-- ===== src/Gates/Passing.antt =====
-- When the gate of fleet/gates/verify.py lets a task pass.
use aidean_fleet.Common.{
  ◌≡◌, ◌<◌, ltb, inl, inr, Bool-cases, refl, ◌∙◌, ap, sym, ◌↔◌, Bool, true, false, not, ◌&&◌, List,
  [], ◌∷◌, Option, none, some, String, any, is_empty, All, arith,
}
use aidean_fleet.Common.Text.{is_blank, strip}
use aidean_fleet.Common.Keys.{All-none}
use aidean_fleet.Gates.Patterns.{parse_patterns, matches_any}
use aidean_fleet.Gates.Flattened.{is_flattened}
use aidean_fleet.Gates.Snapshot.{Dir, Source, baseline, git, untracked, changed_files_of}
use aidean_fleet.Gates.Verify.{
  Machine, GateTask, Found, nothing, other_kind, a_file, a_directory, check_found, max_files,
  is_success, check_evidence, refuse, baseline_missing, no_workspace, scanned, gate_on,
  names_behind, run_checks, run_gate,
}
use aidean_fleet.Gates.Checks.{
  finish-passed, run_checks-passed, forbids, excludes, command_succeeds,
}

any_of_All {ℓ} :
    {A : Type ℓ} (p : A → Bool) (xs : List A) → All (λ x. p x ≡ false) xs → any p xs ≡ false
any_of_All p [] h = refl
any_of_All p (x ∷ xs) h = rw h.0 (any_of_All p xs h.1)

-- what counts as evidence: a file that is not empty, or a directory with one below it
abbrev pub IsEvidence : Found → Type 0
IsEvidence nothing = ⊥
IsEvidence other_kind = ⊥
IsEvidence (a_file size) = 0 < size
IsEvidence (a_directory sizes) = any (λ size. ltb 0 size) sizes ≡ true

abbrev is_known : Source → Bool
is_known untracked = false
is_known _ = true

module _ (m : Machine) (task : GateTask) where
  abbrev changed_of : List String
  changed_of = (changed_files_of m.paths max_files task.workspace).0

  abbrev source_of : Source
  source_of = (changed_files_of m.paths max_files task.workspace).1

  check_found_iff :
      (raw : String) (x : Found) → (is_empty (check_found raw x) ≡ true) ↔ IsEvidence x
  unfolding check_found
  check_found_iff raw nothing = (λ e. cc e, λ e. absurd e)
  check_found_iff raw other_kind = (λ e. cc e, λ e. absurd e)
  check_found_iff raw (a_file size) = elim (Bool-cases (ltb 0 size)) [
    | inl some_bytes ↦ rw some_bytes (λ e. ground arith, λ e. refl)
    | inr none_left ↦ rw none_left (λ e. cc e, λ e. absurd (ground arith))
  ]
  check_found_iff raw (a_directory sizes) = elim (Bool-cases (any (λ size. ltb 0 size) sizes)) [
    | inl some_bytes ↦ rw some_bytes (λ e. refl, λ e. refl)
    | inr none_left ↦ rw none_left (λ e. cc e, λ e. cc e)
  ]

  check_evidence_iff : (is_empty (check_evidence m task) ≡ true) ↔ (
      (is_blank (strip task.evidence_path) ≡ false)
      × IsEvidence (m.look_at (strip task.evidence_path)))
  unfolding check_evidence
  check_evidence_iff =
      let raw = strip task.evidence_path in
      elim (Bool-cases (is_blank raw)) [
        | inl blank ↦ rw blank (λ e. cc e, λ e. cc e.0)
        | inr named ↦
            let at = check_found_iff raw (m.look_at raw) in
            rw named (λ e. (refl, at.0 e), λ e. at.1 e.1)
      ]

  -- what a task must meet: a workspace whose changes are known, a command that succeeds, no change
  -- that is forbidden or not allowed, no flattened directory behind the command, and evidence
  pub record Passes : Type 0 where
    pub root : Dir
    pub there : task.workspace.root ≡ some root
    pub named : is_blank (strip task.workspace.name) ≡ false
    pub known : is_known source_of ≡ true
    pub has_command : is_blank (strip task.verify_cmd) ≡ false
    pub succeeds : is_success (m.run_command (strip task.verify_cmd)).0 ≡ true
    pub not_forbidden :
        All
          (λ path. matches_any m.fnmatch path (parse_patterns task.forbidden_files) ≡ false)
          changed_of
    pub allowed :
        All
          (λ path.
            (not (is_empty (parse_patterns task.allowed_files))
              && not (matches_any m.fnmatch path (parse_patterns task.allowed_files)))
            ≡ false)
          changed_of
    pub not_flattened : All (λ name. is_flattened name ≡ false) (names_behind m task root)
    pub names_evidence : is_blank (strip task.evidence_path) ≡ false
    pub has_evidence : IsEvidence (m.look_at (strip task.evidence_path))

  abbrev all_checks : Dir → Bool
  all_checks root =
      (command_succeeds m task)
      && not (any (forbids m task) changed_of)
      && not (any (excludes m task) changed_of)
      && not (any is_flattened (names_behind m task root))
      && is_empty (check_evidence m task)

  gate_on-known :
      (nameless : Bool) (found : Option Dir) (source : Source) (root : Dir)
      → nameless ≡ false
      → found ≡ some root
      → is_known source ≡ true
      → (gate_on m task nameless found changed_of source).passed ≡ all_checks root
  unfolding gate_on
  gate_on-known true found source root named there known = cc named
  gate_on-known false none source root named there known = cc there
  gate_on-known false (some r) untracked root named there known = cc known
  gate_on-known false (some r) baseline root named there known =
      finish-passed m task (run_checks m task r changed_of (scanned m task changed_of baseline))
      ∙ run_checks-passed m task r changed_of (scanned m task changed_of baseline)
      ∙ let same : r ≡ root = cc there in ap all_checks same
  gate_on-known false (some r) git root named there known =
      finish-passed m task (run_checks m task r changed_of (scanned m task changed_of git))
      ∙ run_checks-passed m task r changed_of (scanned m task changed_of git)
      ∙ let same : r ≡ root = cc there in ap all_checks same

  gate_on_starts :
      (nameless : Bool) (found : Option Dir) (source : Source)
      → (gate_on m task nameless found changed_of source).passed ≡ true
      → (root : Dir) × (nameless ≡ false) × (found ≡ some root) × (is_known source ≡ true)
  unfolding gate_on
  gate_on_starts true found source e = cc (sym (finish-passed m task (no_workspace m task)) ∙ e)
  gate_on_starts false none source e = cc (sym (finish-passed m task (no_workspace m task)) ∙ e)
  gate_on_starts false (some r) untracked e = cc (
      sym (
        finish-passed m task
          record (refuse m task baseline_missing (scanned m task changed_of untracked)) {
            fatal = true;
          })
      ∙ e)
  gate_on_starts false (some r) baseline e = (r, refl, refl, refl)
  gate_on_starts false (some r) git e = (r, refl, refl, refl)

  run_gate-known :
      (root : Dir)
      → task.workspace.root ≡ some root
      → is_blank (strip task.workspace.name) ≡ false
      → is_known source_of ≡ true
      → (run_gate m task).passed ≡ all_checks root
  unfolding run_gate
  run_gate-known root there named known =
      gate_on-known (is_blank (strip task.workspace.name)) task.workspace.root source_of root named
        there known

  run_gate_starts :
      (run_gate m task).passed ≡ true
      → (root : Dir) × (is_blank (strip task.workspace.name) ≡ false)
        × (task.workspace.root ≡ some root)
        × (is_known source_of ≡ true)
  unfolding run_gate
  run_gate_starts e =
      gate_on_starts (is_blank (strip task.workspace.name)) task.workspace.root source_of e

  -- The gate lets a task pass exactly where it has a workspace whose changes are known, a command that
  -- ends with code 0, no change that is forbidden or outside the allowed files, no flattened directory
  -- at its top behind that command, and an evidence path at which a file that is not empty stands, or a
  -- directory with one; whether or not the result can be stored.
  pub run_gate_iff : ((run_gate m task).passed ≡ true) ↔ Passes
  run_gate_iff = (
    λ e.
        let (root, named, there, known) = run_gate_starts e in
        let all_true : all_checks root ≡ true = sym (run_gate-known root there named known) ∙ e in
        record {
          root = root;
          there = there;
          named = named;
          known = known;
          has_command = ground arith;
          succeeds = ground arith;
          not_forbidden = All-none (forbids m task) changed_of (ground arith);
          allowed = All-none (excludes m task) changed_of (ground arith);
          not_flattened = All-none is_flattened (names_behind m task root) (ground arith);
          names_evidence = (check_evidence_iff.0 (ground arith)).0;
          has_evidence = (check_evidence_iff.0 (ground arith)).1;
        },
    λ p.
        run_gate-known p.root p.there p.named p.known
        ∙ rw
            (
              p.has_command,
              p.succeeds,
              check_evidence_iff.1 (p.names_evidence, p.has_evidence),
              any_of_All (forbids m task) changed_of p.not_forbidden,
              any_of_All (excludes m task) changed_of p.allowed,
              any_of_All is_flattened (names_behind m task p.root) p.not_flattened,
            )
            refl,
  )

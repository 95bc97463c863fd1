-- ===== src/Runner/Verified.antt =====
-- When the gate of fleet/runner/gates.py passes.
use aidean_fleet.Common.{
  ℕ, suc, ◌≡◌, refl, ◌∙◌, ◌↔◌, Bool, true, false, ◌&&◌, List, [], ◌∷◌, ◌++◌, String, is_empty,
  arith,
}
use aidean_fleet.Runner.Gates.{
  Ran, exited, timed_out, raised, Entry, GateReport, Shown, is_zero, entry_of, verify_each,
  run_verify,
}
use mathlib.Core.List.{append_assoc, append-nil}

-- a process that ended with code 0
abbrev pub succeeded : Ran → Bool
succeeded (exited code stdout stderr) = is_zero code
succeeded timed_out = false
succeeded (raised why) = false

-- every command ends with code 0, the first of them being the `n`-th that is run
abbrev pub all_succeed : (ℕ → String → Ran) → ℕ → List String → Bool
all_succeed ran n [] = true
all_succeed ran n (command ∷ commands) =
    succeeded (ran n command) && all_succeed ran (suc n) commands

-- the entries of the commands, in order
abbrev pub entries : Shown → ℕ → (ℕ → String → Ran) → ℕ → List String → List Entry
entries shown timeout ran n [] = []
entries shown timeout ran n (command ∷ commands) =
    entry_of shown timeout command (ran n command) ∷ entries shown timeout ran (suc n) commands

module _ (shown : Shown) (timeout : ℕ) where
  entry_of-succeeded :
      (command : String) (r : Ran) → (entry_of shown timeout command r).passed ≡ succeeded r
  unfolding entry_of
  entry_of-succeeded command (exited code stdout stderr) = refl
  entry_of-succeeded command timed_out = refl
  entry_of-succeeded command (raised why) = refl

  module _ (ran : ℕ → String → Ran) where
    verify_each-passed :
        (n : ℕ) (commands : List String) (report : GateReport)
        → (verify_each shown timeout ran n commands report).passed
          ≡ (report.passed && all_succeed ran n commands)
    unfolding verify_each
    verify_each-passed n [] report = ground arith
    verify_each-passed n (command ∷ commands) report =
        verify_each-passed (suc n) commands _
        ∙ rw (entry_of-succeeded command (ran n command)) (ground arith)

    verify_each-entries :
        (n : ℕ) (commands : List String) (report : GateReport)
        → (verify_each shown timeout ran n commands report).commands
          ≡ report.commands ++ entries shown timeout ran n commands
    unfolding verify_each
    verify_each-entries n [] report = simp append-nil
    verify_each-entries n (command ∷ commands) report =
        verify_each-entries (suc n) commands _ ∙ simp append_assoc

    -- The gate passes exactly when there is a command and every one of them ends with code 0: a timeout
    -- or an exception is a failure, and no command at all is one too. Every command is run and reported,
    -- in order, those behind a failure included.
    pub run_verify_iff :
        (commands : List String)
        → ((run_verify shown timeout ran commands).passed ≡ true
            ↔ (is_empty commands ≡ false) × (all_succeed ran 0 commands ≡ true))
          × ((run_verify shown timeout ran commands).commands
              ≡ entries shown timeout ran 0 commands)
    unfolding run_verify
    run_verify_iff [] = ((λ h. cc h, λ h. cc (h.0)), refl)
    run_verify_iff (command ∷ commands) = (
      (
        λ h. (
          refl,
          cc (h, verify_each-passed 0 (command ∷ commands) record { passed = true; commands = [] }),
        ),
        λ h. verify_each-passed 0 (command ∷ commands) _ ∙ h.1,
      ),
      verify_each-entries 0 (command ∷ commands) _,
    )

-- ===== src/Governance/Tests.antt =====
-- Spendings on the budgets of a task, a project and a day, and requests for approval.
use aidean_fleet.Common.{
  ◌+◌, ◌≡◌, refl, true, false, List, [], ◌∷◌, none, some, String, find?, if◌then◌else◌, All,
}
use aidean_fleet.Common.Text.{◌==◌, is_blank, precedes}
use aidean_fleet.Common.Outcome.{ok}
use aidean_fleet.Governance.Budget.{
  Level, BudgetLimit, Defaults, is_exceeded, get_budget, upsert_budget, load_from_config,
  check_level, check_given, check, update_first, consume_one, consume_budgets, scopes_of, consume,
}
use aidean_fleet.Governance.Spending.{used_of, is_charged, consume-used}
use aidean_fleet.Governance.Checks.{HasRoom, check-room}
use aidean_fleet.Governance.Approvals.{
  Decision, ApprovalStatus, ApprovalRequest, Clock, has_approval_id, is_pending, is_expired,
  insert_created, order_created, list_pending_approvals, expired_ids, check_expired,
}
use aidean_fleet.Governance.Decisions.{GateCall, run_gate, run_gate-decided}
use aidean_fleet.Governance.Expiry.{is_due, check_expired-expired}

abbrev defaults : Defaults
defaults = record {
  limit_of = λ l. elim l [ Level.task ↦ 100 | Level.project ↦ 1000 | Level.daily ↦ 500 ];
  action = "pause";
}

abbrev used_up : List BudgetLimit
used_up =
    record {
      level = Level.task;
      scope = "T1";
      limit_tokens = 100;
      used_tokens = 90;
      action = "pause";
    }
    ∷ []

task_pool : used_of Level.task "T1" (consume defaults "d" 20 "T1" "P1" used_up).1 ≡ 110
unfolding used_of ◌==◌ is_blank is_exceeded get_budget upsert_budget load_from_config check_level
    check_given check update_first consume_one consume_budgets scopes_of consume
task_pool = refl

consume-used_example :
    used_of Level.task "T1" (consume defaults "d" 20 "T1" "P1" used_up).1
    ≡ used_of Level.task "T1" used_up + (if is_charged "d" "T1" "P1" Level.task "T1" then 20 else 0)
consume-used_example = consume-used defaults "d" 20 "T1" "P1" Level.task "T1" used_up

passes : (b : BudgetLimit) × ((check defaults "d" "T1" "P1" used_up).0 ≡ ok b)
unfolding ◌==◌ is_blank is_exceeded get_budget upsert_budget load_from_config check_level
    check_given check
passes = (_, refl)

charges_task : is_charged "d" "T1" "P1" Level.task "T1" ≡ true
unfolding ◌==◌ is_blank
charges_task = refl

check-room_example : HasRoom Level.task "T1" (check defaults "d" "T1" "P1" used_up).1
check-room_example = check-room defaults "d" "T1" "P1" used_up passes.1 Level.task "T1" charges_task

abbrev clock : Clock
clock = record {
  now = 90;
  stamp = "2026-01-02";
  expiry = "2026-01-03";
  fresh = "appr-2";
  parse = λ s. if s == "2026-01-01" then some 50 else none;
}

abbrev requested : String → ApprovalStatus → ApprovalRequest
requested i status = record {
  approval_id = i;
  action_type = "smtp_first_send";
  description = "d";
  task_id = "T1";
  project_id = "P1";
  requested_by = "system";
  status = status;
  decided_by = "";
  decided_at = "";
  created_at = "2025-12-31";
  expires_at = "2026-01-01";
}

abbrev approved_row : ApprovalRequest
approved_row = requested "appr-0" (ApprovalStatus.decided Decision.approval)

abbrev requests : List ApprovalRequest
requests = approved_row ∷ requested "appr-1" ApprovalStatus.pending ∷ []

abbrev gate_calls : List (Clock × GateCall)
gate_calls =
    (clock, GateCall.request_call "smtp_first_send" "" "T1" "P1" "system")
    ∷ (clock, GateCall.reject_call "appr-0" "user")
    ∷ (clock, GateCall.check_expired_call)
    ∷ []

approved_found : find? (has_approval_id "appr-0") requests ≡ some approved_row
unfolding ◌==◌
approved_found = refl

approved_over : is_pending approved_row ≡ false
unfolding is_pending
approved_over = refl

run_gate-decided_example :
    find? (has_approval_id "appr-0") (run_gate gate_calls requests) ≡ some approved_row
run_gate-decided_example =
    run_gate-decided gate_calls requests "appr-0" approved_row approved_found approved_over

first_expires : (check_expired clock requests).0 ≡ "appr-1" ∷ []
unfolding ◌==◌ is_blank precedes is_pending is_expired insert_created order_created
    list_pending_approvals expired_ids check_expired
first_expires = refl

check_expired-expired_example : All (λ a. is_due clock a ≡ false) (check_expired clock requests).1
check_expired-expired_example = check_expired-expired clock requests

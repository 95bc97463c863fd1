-- ===== src/Governance/Approvals.antt =====
-- The approval gate: fleet/governance/approval.py, and the statements of fleet/governance/store.py on
-- the table governance_approvals. The parsing of a date is given; a date that it rejects never
-- expires.
use aidean_fleet.Common.{
  ℕ, Bool, true, false, not, ◌&&◌, List, [], ◌∷◌, ◌++◌, map, Option, none, some, String,
  if◌then◌else◌, ltb, any, filter, find?, update,
}
use aidean_fleet.Common.Text.{◌==◌, is_blank, precedes}
use aidean_fleet.Common.Outcome.{Result, ok, ◌>>=◌, ◌>>◌, guard, from_option}

-- `approve`, `reject`, or any other text that `decide_approval` is given
pub data Decision : Type 0 where
  approval rejection : Decision
  other : String → Decision

pub data ApprovalStatus : Type 0 where
  pending : ApprovalStatus
  decided : Decision → ApprovalStatus

-- a row of governance_approvals, and `ApprovalRequest`
pub record ApprovalRequest : Type 0 where
  pub approval_id : String
  pub action_type : String
  pub description : String
  pub task_id : String
  pub project_id : String
  pub requested_by : String
  pub status : ApprovalStatus
  pub decided_by : String
  pub decided_at : String
  pub created_at : String
  pub expires_at : String

pub record ApprovalDecision : Type 0 where
  pub approved : Bool
  pub approval_id : String
  pub decision : Decision
  pub decided_by : String
  pub decided_at : String

-- `datetime.utcnow()`, its text, the text of the moment at which a new request expires, a fresh
-- identifier, and `datetime.fromisoformat`
pub record Clock : Type 0 where
  pub now : ℕ
  pub stamp : String
  pub expiry : String
  pub fresh : String
  pub parse : String → Option ℕ

pub data ApprovalError : Type 0 where
  unknown_action duplicate_approval : ApprovalError

-- TRIGGER_ACTIONS
abbrev pub trigger_actions : List (String × String)
trigger_actions =
    ("delete_overwrite", "delete/overwrite command outside redlines")
    ∷ ("smtp_first_send", "first real SMTP send")
    ∷ ("budget_warning", "task budget >80% threshold (warn only)")
    ∷ []

abbrev pub has_approval_id : String → ApprovalRequest → Bool
has_approval_id i a = a.approval_id == i

unfoldable pub is_pending : ApprovalRequest → Bool
is_pending a = elim a.status [ ApprovalStatus.pending ↦ true | ApprovalStatus.decided d ↦ false ]

-- `WHERE approval_id = ? AND status = 'pending'`
unfoldable pub is_pending_at : String → ApprovalRequest → Bool
is_pending_at i a = a.approval_id == i && is_pending a

unfoldable pub create_approval :
    ApprovalRequest → List ApprovalRequest → Result ApprovalError (List ApprovalRequest)
create_approval a rows = do
  guard (not (any (has_approval_id a.approval_id) rows)) duplicate_approval
  ok (rows ++ a ∷ [])

-- `request_approval`
unfoldable pub request_approval :
    Clock
    → String
    → String
    → String
    → String
    → String
    → List ApprovalRequest
    → Result ApprovalError (ApprovalRequest × List ApprovalRequest)
request_approval clock action description task project by rows = do
  trigger ← from_option (find? (λ t. t.0 == action) trigger_actions) unknown_action
  let request : ApprovalRequest = record {
    approval_id = clock.fresh;
    action_type = action;
    description = if is_blank description then trigger.1 else description;
    task_id = task;
    project_id = project;
    requested_by = by;
    status = ApprovalStatus.pending;
    decided_by = "";
    decided_at = "";
    created_at = clock.stamp;
    expires_at = clock.expiry;
  }
  rows1 ← create_approval request rows
  ok (request, rows1)

unfoldable pub is_decision : Decision → Bool
is_decision (Decision.other s) = false
is_decision _ = true

abbrev pub decide : Decision → String → String → ApprovalRequest → ApprovalRequest
decide d by at a = record a { status = ApprovalStatus.decided d; decided_by = by; decided_at = at }

-- `decide_approval`, which says whether a row was written
unfoldable pub decide_approval :
    String → Decision → String → String → List ApprovalRequest → Bool × List ApprovalRequest
decide_approval i d by at rows =
    if is_decision d
    then (any (is_pending_at i) rows, update (is_pending_at i) (decide d by at) rows)
    else (false, rows)

abbrev answer : Clock → String → String → Bool → ApprovalDecision
answer clock i by approved = record {
  approved = approved;
  approval_id = i;
  decision = if approved then Decision.approval else Decision.rejection;
  decided_by = by;
  decided_at = clock.stamp;
}

-- `approve` and `reject`
unfoldable pub approve :
    Clock → String → String → List ApprovalRequest → ApprovalDecision × List ApprovalRequest
approve clock i by rows =
    let (written, rows1) = decide_approval i Decision.approval by clock.stamp rows in
    (answer clock i by written, rows1)

unfoldable pub reject :
    Clock → String → String → List ApprovalRequest → ApprovalDecision × List ApprovalRequest
reject clock i by rows =
    (answer clock i by false, (decide_approval i Decision.rejection by clock.stamp rows).1)

is_later : ℕ → Option ℕ → Bool
is_later now none = false
is_later now (some t) = ltb t now

-- `now > datetime.fromisoformat(expires_at)`, and no text is no date
unfoldable pub is_expired : Clock → ApprovalRequest → Bool
unfolding is_later
is_expired clock a = not (is_blank a.expires_at) && is_later clock.now (clock.parse a.expires_at)

-- `list_pending_approvals`, ordered by the text of their creation
unfoldable pub insert_created : ApprovalRequest → List ApprovalRequest → List ApprovalRequest
insert_created a [] = a ∷ []
insert_created a (b ∷ rows) =
    if precedes b.created_at a.created_at then b ∷ insert_created a rows else a ∷ b ∷ rows

unfoldable pub order_created : List ApprovalRequest → List ApprovalRequest
order_created [] = []
order_created (a ∷ rows) = insert_created a (order_created rows)

unfoldable pub list_pending_approvals : List ApprovalRequest → List ApprovalRequest
list_pending_approvals rows = order_created (filter is_pending rows)

-- the identifiers that `check_expired` returns
unfoldable pub expired_ids : Clock → List ApprovalRequest → List String
expired_ids clock rows =
    map (λ a. a.approval_id) (filter (is_expired clock) (list_pending_approvals rows))

unfoldable pub reject_all : Clock → List String → List ApprovalRequest → List ApprovalRequest
reject_all clock [] rows = rows
reject_all clock (i ∷ ids) rows = reject_all clock ids (reject clock i "system:timeout" rows).1

-- `check_expired`
unfoldable pub check_expired : Clock → List ApprovalRequest → List String × List ApprovalRequest
check_expired clock rows = (expired_ids clock rows, reject_all clock (expired_ids clock rows) rows)

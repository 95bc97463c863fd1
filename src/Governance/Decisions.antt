-- ===== src/Governance/Decisions.antt =====
-- How a request for approval ends.
use aidean_fleet.Common.{
  ◌≡◌, refl, inl, inr, Bool, false, List, [], ◌∷◌, some, String, any, find?, update, find?-append,
  Bool-cases, arith, subst, sym, ap, Option-cases,
}
use aidean_fleet.Common.Text.{◌==◌}
use aidean_fleet.Common.Outcome.{Result, ok, err}
use aidean_fleet.Governance.Approvals.{
  Decision, ApprovalRequest, Clock, ApprovalError, trigger_actions, is_decision, has_approval_id,
  is_pending, is_pending_at, create_approval, request_approval, decide, decide_approval, approve,
  reject, expired_ids, reject_all, check_expired,
}

-- the calls of the gate that write
pub data GateCall : Type 0 where
  request_call : String → String → String → String → String → GateCall
  approve_call reject_call : String → String → GateCall
  check_expired_call : GateCall

kept_rows :
    List ApprovalRequest
    → Result ApprovalError (ApprovalRequest × List ApprovalRequest)
    → List ApprovalRequest
kept_rows rows (ok r) = r.1
kept_rows rows (err e) = rows

-- a call that raises writes nothing
unfoldable pub perform_gate : Clock → GateCall → List ApprovalRequest → List ApprovalRequest
unfolding kept_rows
perform_gate clock (GateCall.request_call action description task project by) rows =
    kept_rows rows (request_approval clock action description task project by rows)
perform_gate clock (GateCall.approve_call i by) rows = (approve clock i by rows).1
perform_gate clock (GateCall.reject_call i by) rows = (reject clock i by rows).1
perform_gate clock GateCall.check_expired_call rows = (check_expired clock rows).1

unfoldable pub run_gate : List (Clock × GateCall) → List ApprovalRequest → List ApprovalRequest
run_gate [] rows = rows
run_gate ((clock, call) ∷ calls) rows = run_gate calls (perform_gate clock call rows)

-- an update of rows that all differ from the one that is found
find?-update_other {ℓ} :
    {A : Type ℓ} (p q : A → Bool) (f : A → A) (xs : List A) {a : A}
    → ((x : A) → q (f x) ≡ q x)
    → find? q xs ≡ some a
    → p a ≡ false
    → find? q (update p f xs) ≡ some a
find?-update_other p q f [] keep at other = cc
find?-update_other p q f (x ∷ xs) {a} keep at other = elim (Bool-cases (q x)) [
  | inl t ↦
      let same : x ≡ a = ground arith in
      rw (subst (λ y. p y ≡ false) (sym same) other, t) (ap some same)
  | inr t ↦
      let rest = find?-update_other p q f xs keep (rw t at at) other in
      elim (Bool-cases (p x)) [ inl u ↦ rw (u, keep x, t) rest | inr u ↦ rw (u, t) rest ]
]

-- the request has been decided, and this is how
abbrev IsDecided : String → ApprovalRequest → List ApprovalRequest → Type 0
IsDecided i a rows = (find? (has_approval_id i) rows ≡ some a) × (is_pending a ≡ false)

decide_approval-IsDecided :
    (i j : String) (d : Decision) (by at : String) (a : ApprovalRequest)
    (rows : List ApprovalRequest)
    → IsDecided i a rows
    → IsDecided i a (decide_approval j d by at rows).1
unfolding decide_approval is_pending_at
decide_approval-IsDecided i j d by at a rows h = elim (Bool-cases (is_decision d)) [
  | inl p ↦ rw p (
    find?-update_other (is_pending_at j) (has_approval_id i) (decide d by at) rows (λ x. refl) h.0
        (ground (arith, h.1)),
    h.1,
  )
  | inr p ↦ rw p h
]

reject_all-IsDecided :
    (clock : Clock) (ids : List String) (i : String) (a : ApprovalRequest)
    (rows : List ApprovalRequest)
    → IsDecided i a rows
    → IsDecided i a (reject_all clock ids rows)
unfolding reject_all reject
reject_all-IsDecided clock [] i a rows h = h
reject_all-IsDecided clock (j ∷ ids) i a rows h =
    reject_all-IsDecided clock ids i a _
      (decide_approval-IsDecided i j Decision.rejection "system:timeout" clock.stamp a rows h)

request_approval-IsDecided :
    (clock : Clock) (action description task project by i : String) (a : ApprovalRequest)
    (rows : List ApprovalRequest)
    → IsDecided i a rows
    → IsDecided i a
        (kept_rows rows (request_approval clock action description task project by rows))
unfolding kept_rows request_approval create_approval
request_approval-IsDecided clock action description task project by i a rows h =
    elim (Option-cases (find? (λ t. t.0 == action) trigger_actions)) [
      | inl unknown ↦ rw unknown h
      | inr (trigger, known) ↦ elim (Bool-cases (any (has_approval_id clock.fresh) rows)) [
        | inl taken ↦ rw (known, taken) h
        | inr free ↦ rw (known, free) (find?-append (has_approval_id i) rows _ h.0, h.1)
      ]
    ]

-- A request that has been approved or rejected keeps its decision, by whom and when, over every
-- sequence of calls of the gate, expiry included.
pub run_gate-decided :
    (calls : List (Clock × GateCall)) (rows : List ApprovalRequest) (i : String)
    (a : ApprovalRequest)
    → find? (has_approval_id i) rows ≡ some a
    → is_pending a ≡ false
    → find? (has_approval_id i) (run_gate calls rows) ≡ some a
unfolding run_gate perform_gate approve reject check_expired
run_gate-decided [] rows i a at over = at
run_gate-decided ((clock, GateCall.request_call action description task project by) ∷ calls) rows i
      a at over =
    run_gate-decided calls _ i a
      (request_approval-IsDecided clock action description task project by i a rows (at, over)).0
      over
run_gate-decided ((clock, GateCall.approve_call j by) ∷ calls) rows i a at over =
    run_gate-decided calls _ i a
      (decide_approval-IsDecided i j Decision.approval by clock.stamp a rows (at, over)).0 over
run_gate-decided ((clock, GateCall.reject_call j by) ∷ calls) rows i a at over =
    run_gate-decided calls _ i a
      (decide_approval-IsDecided i j Decision.rejection by clock.stamp a rows (at, over)).0 over
run_gate-decided ((clock, GateCall.check_expired_call) ∷ calls) rows i a at over =
    run_gate-decided calls _ i a
      (reject_all-IsDecided clock (expired_ids clock rows) i a rows (at, over)).0 over

-- ===== src/Kernel/Lifecycle/Edges.antt =====
-- The calls of fleet/kernel/kernel.py that move the status of one todo, and what such a move is.
use aidean_fleet.Common.{
  ◌≡◌, Bool, true, false, ◌||◌, List, Option, none, some, String, find?, update, find?-update_ne,
  find?-update_self, ap, subst,
}
use aidean_fleet.Common.Text.{◌==◌, eq_of_==}
use aidean_fleet.Kernel.State.{
  Status, in_flight, is_opened, is_claimed, is_running, is_verifying, is_blocked, is_needs_user,
  Verdict,
}
use aidean_fleet.Kernel.Tables.{Todo}
use aidean_fleet.Kernel.Sql.{has_id}
use aidean_fleet.Kernel.Machine.{Call}

-- what a call does to a todo: its name, the statuses that it may be in, and the one that it gets
pub record CallEdge : Type 0 where
  pub todo : String
  pub from : Status → Bool
  pub target : Status

abbrev pub is_waiting : Status → Bool
is_waiting s = is_blocked s || is_needs_user s

abbrev pub verdict_edge : String → Verdict → Option CallEdge
verdict_edge i Verdict.done = some record { todo = i; from = is_verifying; target = Status.done }
verdict_edge i Verdict.blocked = some record { todo = i; from = in_flight; target = Status.blocked }
verdict_edge i Verdict.needs_user =
    some record { todo = i; from = in_flight; target = Status.needs_user }
verdict_edge i _ = none

-- the calls that move one todo
abbrev pub edge_of : Call → Option CallEdge
edge_of (Call.claim_call i w lease h m) =
    some record { todo = i; from = is_opened; target = Status.claimed }
edge_of (Call.mark_running_call i w) =
    some record { todo = i; from = is_claimed; target = Status.running }
edge_of (Call.mark_verifying_call i w) =
    some record { todo = i; from = is_running; target = Status.verifying }
edge_of (Call.reopen_call i actor) =
    some record { todo = i; from = is_waiting; target = Status.opened }
edge_of (Call.propose_plan_diff_call i diff) =
    some record { todo = i; from = in_flight; target = Status.needs_user }
edge_of (Call.transition_call i result) = verdict_edge i result.verdict
edge_of _ = none

-- the todo was in such a status and is in the new one, and every other row is as it was
pub record IsMoved (e : CallEdge) (todos todos' : List Todo) : Type 0 where
  pub before : Todo
  pub after : Todo
  pub was : find? (has_id e.todo) todos ≡ some before
  pub allowed : e.from before.status ≡ true
  pub found : find? (has_id e.todo) todos' ≡ some after
  pub reached : after.status ≡ e.target
  pub others :
      (j : String) → (e.todo == j) ≡ false → find? (has_id j) todos' ≡ find? (has_id j) todos

pub update-IsMoved :
    (e : CallEdge) (f : Todo → Todo) (todos : List Todo) {t : Todo}
    → ((x : Todo) → (f x).id ≡ x.id)
    → find? (has_id e.todo) todos ≡ some t
    → e.from t.status ≡ true
    → (f t).status ≡ e.target
    → IsMoved e todos (update (has_id e.todo) f todos)
update-IsMoved e f todos {t} keep at may new = record {
  before = t;
  after = f t;
  was = at;
  allowed = may;
  found = find?-update_self (has_id e.todo) f todos (λ x. ap (λ k. k == e.todo) (keep x)) at;
  reached = new;
  others = λ j ne. find?-update_ne (has_id e.todo) (has_id j) f todos (λ x q.
      let out : (x.id == j) ≡ false = rw (eq_of_== x.id e.todo q) ne in (out, rw (keep x) out));
}

pub edge_subst :
    (d : CallEdge) {e : CallEdge} {todos todos' : List Todo}
    → some d ≡ some e
    → IsMoved d todos todos'
    → IsMoved e todos todos'
edge_subst d {e} {todos} {todos'} same h =
    let p : d ≡ e = cc same in subst (λ x. IsMoved x todos todos') p h

-- ===== src/Kernel/Consistency/Leases.antt =====
-- The methods on claims and leases keep the tables consistent.
use aidean_fleet.Common.{
  ℕ, ◌≡◌, refl, ◌||◌, List, [], ◌∷◌, ◌++◌, Option, String, or_else, find?, arith,
}
use aidean_fleet.Common.Outcome.{ok}
use aidean_fleet.Kernel.State.{Status, in_flight, is_claimed, is_running, is_blocked, is_needs_user}
use aidean_fleet.Kernel.Tables.{Todo, Db, Env, Config}
use aidean_fleet.Kernel.Sql.{has_id, get, event, set_todo, insert_attempt, close_open_attempt}
use aidean_fleet.Common.{Option-cases, any_of_find?_none, update_none}
use aidean_fleet.Common.{All-append, subst, inl, inr, any-find?}
use aidean_fleet.Common.Outcome.{bind_ok, guard_ok, returned}
use aidean_fleet.Common.Text.{◌==◌}
use aidean_fleet.Kernel.Lease.{
  claim_row, claim_check, claim_write, claim, renew_lease, requeue_row, requeue_one, requeue_all,
  expired_ids, requeue_expired_leases, with_status, mark_running, mark_verifying, reopen,
}
use aidean_fleet.Kernel.Consistency.Attempts.{new_attempt, opens-insert_self, tries-insert_self}
use aidean_fleet.Kernel.Consistency.Defs.{IsInStep, IsOwned, IsConsistent}
use aidean_fleet.Kernel.Consistency.Moves.{
  claim_check_ok, close_absent, get_ok, reread_ok, IsConsistent-move, Frames-insert, found,
  close-IsConsistent, stay-IsConsistent,
}

-- `claim` keeps the tables consistent.
pub claim-IsConsistent :
    (cfg : Config) (env : Env) (i worker : String) (lease : Option ℕ) (h m : String) (db : Db)
    {r : Todo × Db}
    → claim cfg env i worker lease h m db ≡ ok r
    → IsConsistent db
    → IsConsistent r.1
unfolding claim claim_write set_todo insert_attempt event
claim-IsConsistent cfg env i worker lease h m db e c = bind_ok (claim_check i db) e λ t e1 k2.
    let (at, free) = claim_check_ok i db e1 in
    let (own_id, s) = found i db.todos db.attempts c at in
    let l = or_else lease cfg.lease_seconds in
    let rows = db.attempts ++ new_attempt env i h m db.next_attempt ∷ [] in
    reread_ok IsConsistent i _ k2 (
      IsConsistent-move i (claim_row env worker l) db.todos db.attempts rows (λ x. refl)
        (Frames-insert env i h m db.next_attempt db.attempts) at
        (subst
          (λ j.
            IsInStep (db.attempts ++ new_attempt env j h m db.next_attempt ∷ [])
              (claim_row env worker l t))
          own_id
          record {
            one_open =
                ground
                  (arith, s.one_open, opens-insert_self env t.id db.attempts h m db.next_attempt);
            counted =
                ground
                  (arith, s.counted, tries-insert_self env t.id db.attempts h m db.next_attempt);
            released = λ no_flight. cc;
          })
        (All-append (IsOwned db.todos) db.attempts (new_attempt env i h m db.next_attempt ∷ [])
          c.owned (any-find? (has_id i) db.todos at, tt))
        c)

-- `renew_lease` keeps the tables consistent.
pub renew_lease-IsConsistent :
    (cfg : Config) (env : Env) (i worker : String) (lease : Option ℕ) (db : Db) {db' : Db}
    → renew_lease cfg env i worker lease db ≡ ok db'
    → IsConsistent db
    → IsConsistent db'
unfolding renew_lease set_todo
renew_lease-IsConsistent cfg env i worker lease db e c = bind_ok (get i db) e λ t e1 k1.
    guard_ok (t.claimed_by == worker) _ k1 λ mine k2.
      guard_ok (in_flight t.status) _ k2 λ flying k3. returned IsConsistent _ k3 (
        stay-IsConsistent i _ db.todos db.attempts {t = t} (λ x. refl) (λ x. refl) refl
          (λ no_flight. cc) (get_ok i db e1) c)

-- one round of the loop over the expired leases, whatever the identifier
requeue_one-IsConsistent :
    (env : Env) (tid : String) (db : Db) → IsConsistent db → IsConsistent (requeue_one env tid db)
unfolding requeue_one set_todo close_open_attempt event
requeue_one-IsConsistent env tid db c = elim (Option-cases (find? (has_id tid) db.todos)) [
  | inl missing ↦
      let out = any_of_find?_none (has_id tid) db.todos missing in
      rw
        (
          update_none (has_id tid) (requeue_row env) db.todos out,
          close_absent env tid "lease_expired" db.todos db.attempts out c.owned,
        )
        c
  | inr (t, at) ↦
      close-IsConsistent env tid "lease_expired" (requeue_row env) db.todos db.attempts {t = t}
        (λ x. refl) (λ x. refl) refl refl at c
]

requeue_all-IsConsistent :
    (env : Env) (tids : List String) (db : Db)
    → IsConsistent db
    → IsConsistent (requeue_all env tids db)
unfolding requeue_all
requeue_all-IsConsistent env [] db c = c
requeue_all-IsConsistent env (tid ∷ tids) db c =
    requeue_all-IsConsistent env tids (requeue_one env tid db)
      (requeue_one-IsConsistent env tid db c)

-- `requeue_expired_leases` keeps the tables consistent.
pub requeue_expired_leases-IsConsistent :
    (env : Env) (db : Db) → IsConsistent db → IsConsistent (requeue_expired_leases env db).1
unfolding requeue_expired_leases
requeue_expired_leases-IsConsistent env db c =
    requeue_all-IsConsistent env (expired_ids env db) db c

-- `mark_running` keeps the tables consistent.
pub mark_running-IsConsistent :
    (env : Env) (i worker : String) (db : Db) {db' : Db}
    → mark_running env i worker db ≡ ok db'
    → IsConsistent db
    → IsConsistent db'
unfolding mark_running set_todo event
mark_running-IsConsistent env i worker db e c = bind_ok (get i db) e λ t e1 k1.
    guard_ok (is_claimed t.status) _ k1 λ was k2. guard_ok (t.claimed_by == worker) _ k2 λ mine k3.
      returned IsConsistent _ k3 (
        stay-IsConsistent i (with_status env Status.running) db.todos db.attempts {t = t}
          (λ x. refl) (λ x. refl) (ground arith) (λ no_flight. ground arith) (get_ok i db e1) c)

-- `mark_verifying` keeps the tables consistent.
pub mark_verifying-IsConsistent :
    (env : Env) (i worker : String) (db : Db) {db' : Db}
    → mark_verifying env i worker db ≡ ok db'
    → IsConsistent db
    → IsConsistent db'
unfolding mark_verifying set_todo event
mark_verifying-IsConsistent env i worker db e c = bind_ok (get i db) e λ t e1 k1.
    guard_ok (is_running t.status) _ k1 λ was k2. guard_ok (t.claimed_by == worker) _ k2 λ mine k3.
      returned IsConsistent _ k3 (
        stay-IsConsistent i (with_status env Status.verifying) db.todos db.attempts {t = t}
          (λ x. refl) (λ x. refl) (ground arith) (λ no_flight. ground arith) (get_ok i db e1) c)

-- `reopen` keeps the tables consistent.
pub reopen-IsConsistent :
    (env : Env) (i actor : String) (db : Db) {r : Todo × Db}
    → reopen env i actor db ≡ ok r
    → IsConsistent db
    → IsConsistent r.1
unfolding reopen set_todo event
reopen-IsConsistent env i actor db e c = bind_ok (get i db) e λ t e1 k1.
    guard_ok (is_blocked t.status || is_needs_user t.status) _ k1 λ was k2.
      reread_ok IsConsistent i _ k2 (
        stay-IsConsistent i (requeue_row env) db.todos db.attempts {t = t} (λ x. refl) (λ x. refl)
          (ground arith) (λ no_flight. refl) (get_ok i db e1) c)

-- ===== src/Kernel/Race.antt =====
-- Two workers that claim one todo. The SELECT of `claim` runs before the write lock is taken, so
-- its test may be made by both before either writes.
use aidean_fleet.Common.{ℕ, suc, ◌≡◌, refl, [], ◌∷◌, ◌++◌, String, update, arith}
use aidean_fleet.Common.Outcome.{ok, err}
use aidean_fleet.Kernel.Tables.{Todo, Db, Env, bad_status}
use aidean_fleet.Kernel.Sql.{has_id, get, event, set_todo, insert_attempt}
use aidean_fleet.Common.{subst}
use aidean_fleet.Kernel.Lease.{claim_row}
use aidean_fleet.Kernel.Consistency.Attempts.{opens, new_attempt, opens-insert_self}
use aidean_fleet.Kernel.Consistency.Defs.{IsConsistent}
use aidean_fleet.Kernel.Consistency.Moves.{found}
use aidean_fleet.Common.{find?-update_self}
use aidean_fleet.Kernel.Lease.{claim_check, claim_write}
use aidean_fleet.Kernel.Consistency.Moves.{claim_check_ok}

-- When the first write is over before the second test, the second claim is refused.
pub claim_then_refused :
    (env : Env) (i w h m : String) (l : ℕ) (t : Todo) (db : Db)
    → claim_check i db ≡ ok t
    → claim_check i (claim_write env i w l h m t db) ≡ err bad_status
unfolding claim_check get claim_write set_todo insert_attempt event
claim_then_refused env i w h m l t db e =
    let (at, free) = claim_check_ok i db e in
    rw (find?-update_self (has_id i) (claim_row env w l) db.todos (λ x. refl) at)

-- When both tests are made before either write, both claims go through: the todo has two attempts
-- that have not ended, and the tables are no longer consistent.
pub claim_race :
    (env env' : Env) (i w w' h m : String) (l : ℕ) (t t' : Todo) (db : Db)
    → IsConsistent db
    → claim_check i db ≡ ok t
    → claim_check i db ≡ ok t'
    → let db1 = claim_write env i w l h m t db in
      let db2 = claim_write env' i w' l h m t' db1 in
      (opens i db2.attempts ≡ 2) × (¬ IsConsistent db2)
unfolding claim_write set_todo insert_attempt event
claim_race env env' i w w' h m l t t' db c e e' =
    let (at, free) = claim_check_ok i db e in
    let (own, s) = found i db.todos db.attempts c at in
    let rows1 = db.attempts ++ new_attempt env i h m db.next_attempt ∷ [] in
    let none_open : opens i db.attempts ≡ 0 =
      subst (λ j. opens j db.attempts ≡ 0) own (ground (arith, s.one_open)) in
    let both : opens i (rows1 ++ new_attempt env' i h m (suc db.next_attempt) ∷ []) ≡ 2 = omega (
      arith,
      none_open,
      opens-insert_self env i db.attempts h m db.next_attempt,
      opens-insert_self env' i rows1 h m (suc db.next_attempt),
    ) in
    let at1 = find?-update_self (has_id i) (claim_row env w l) db.todos (λ x. refl) at in
    let at2 =
      find?-update_self (has_id i) (claim_row env' w' l)
        (update (has_id i) (claim_row env w l) db.todos) (λ x. refl) at1 in
    (
      both,
      λ k.
          let (own2, s2) = found i _ _ k at2 in
          let one : opens i (rows1 ++ new_attempt env' i h m (suc db.next_attempt) ∷ []) ≡ 1 =
            subst (λ j. opens j (rows1 ++ new_attempt env' i h m (suc db.next_attempt) ∷ []) ≡ 1)
              own2 s2.one_open in
          absurd (omega (arith, both, one)),
    )

-- ===== src/Kernel/Expiry.antt =====
-- What `requeue_expired_leases` leaves.
use aidean_fleet.Common.{
  ◌≡◌, inl, inr, true, false, List, [], ◌∷◌, map, String, filter, update, All, All-map, Bool-cases,
  arith, subst, sym,
}
use aidean_fleet.Common.Text.{==_refl, ==_comm, is_in}
use aidean_fleet.Kernel.Tables.{Todo, Db, Env}
use aidean_fleet.Kernel.Sql.{has_id, event, set_todo, close_open_attempt}
use aidean_fleet.Kernel.Lease.{
  has_expired, requeue_row, requeue_one, requeue_all, expired_ids, requeue_expired_leases,
}

-- a lease that has expired is among the identifiers
IsListed : Env → List String → Todo → Type 0
IsListed env ids t = has_expired env.now t ≡ true → is_in t.id ids ≡ true

abbrev ids_of : Env → List Todo → List String
ids_of env rows = map (λ t. t.id) (filter (has_expired env.now) rows)

IsListed-more :
    (env : Env) (i : String) (ids : List String) (rows : List Todo)
    → All (IsListed env ids) rows
    → All (IsListed env (i ∷ ids)) rows
unfolding IsListed
IsListed-more env i ids rows h = All-map (λ t k e. ground (arith, k e)) rows h

expired-IsListed : (env : Env) (rows : List Todo) → All (IsListed env (ids_of env rows)) rows
unfolding IsListed
expired-IsListed env [] = tt
expired-IsListed env (t ∷ rows) =
    let rest = ids_of env rows in
    elim (Bool-cases (has_expired env.now t)) [
      | inl p ↦
          let step : ids_of env (t ∷ rows) ≡ t.id ∷ rest = rw p in
          subst (λ ids. All (IsListed env ids) (t ∷ rows)) (sym step)
            (λ e. rw (==_refl t.id), IsListed-more env t.id rest rows (expired-IsListed env rows))
      | inr p ↦
          let step : ids_of env (t ∷ rows) ≡ rest = rw p in
          subst (λ ids. All (IsListed env ids) (t ∷ rows)) (sym step)
            (λ e. cc (e, p), expired-IsListed env rows)
    ]

requeue-IsListed :
    (env : Env) (i : String) (ids : List String) (rows : List Todo)
    → All (IsListed env (i ∷ ids)) rows
    → All (IsListed env ids) (update (has_id i) (requeue_row env) rows)
unfolding IsListed
requeue-IsListed env i ids [] h = tt
requeue-IsListed env i ids (t ∷ rows) h = elim (Bool-cases (has_id i t)) [
  | inl p ↦ rw p (λ e. cc e, requeue-IsListed env i ids rows h.1)
  | inr p ↦
      rw p (λ e. ground (arith, h.0 e, ==_comm i t.id, p), requeue-IsListed env i ids rows h.1)
]

requeue_all-expired :
    (env : Env) (ids : List String) (db : Db)
    → All (IsListed env ids) db.todos
    → All (λ t. has_expired env.now t ≡ false) (requeue_all env ids db).todos
unfolding IsListed requeue_all requeue_one set_todo close_open_attempt event
requeue_all-expired env [] db h =
    All-map (λ t k. elim (Bool-cases (has_expired env.now t)) [ inl p ↦ cc (k p) | inr p ↦ p ])
      db.todos h
requeue_all-expired env (i ∷ ids) db h =
    requeue_all-expired env ids (requeue_one env i db) (requeue-IsListed env i ids db.todos h)

-- Behind `requeue_expired_leases` no todo in flight has a lease that has expired by the clock of the
-- call.
pub requeue_expired_leases-expired :
    (env : Env) (db : Db)
    → All (λ t. has_expired env.now t ≡ false) (requeue_expired_leases env db).1.todos
unfolding requeue_expired_leases expired_ids
requeue_expired_leases-expired env db =
    requeue_all-expired env (expired_ids env db) db (expired-IsListed env db.todos)

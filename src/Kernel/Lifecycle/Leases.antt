-- ===== src/Kernel/Lifecycle/Leases.antt =====
-- The methods on claims and leases move a status along the edges.
use aidean_fleet.Common.{
  ℕ, ◌≡◌, refl, true, false, ◌||◌, List, [], ◌∷◌, map, Option, some, String, any, filter, find?,
  update, arith,
}
use aidean_fleet.Common.Outcome.{ok}
use aidean_fleet.Kernel.State.{Status, in_flight, is_claimed, is_running, is_blocked, is_needs_user}
use aidean_fleet.Kernel.Tables.{Todo, Db, Env, Config}
use aidean_fleet.Kernel.Sql.{has_id, get, event, set_todo, insert_attempt, close_open_attempt}
use aidean_fleet.Common.{All, All-map, subst, sym, inl, inr, Bool-cases}
use aidean_fleet.Common.Outcome.{bind_ok, guard_ok, returned}
use aidean_fleet.Common.Text.{◌==◌, eq_of_==, ==_refl}
use aidean_fleet.Kernel.Lease.{
  claim_check, claim_write, claim, renew_lease, has_expired, requeue_row, requeue_one, requeue_all,
  expired_ids, requeue_expired_leases, mark_running, mark_verifying, reopen,
}
use aidean_fleet.Kernel.Consistency.Defs.{HasDistinctIds, IsConsistent}
use aidean_fleet.Kernel.Consistency.Moves.{claim_check_ok, get_ok, reread_ok}
use aidean_fleet.Kernel.Lifecycle.Defs.{
  allows, expired, Chain, here, next, Chain-one, Advances, Advances-refl, Advances-trans,
  Advances-move,
}
use aidean_fleet.Common.Text.{==_comm}
use aidean_fleet.Common.{All-filter, find?-update_ne, find?-update_self, ◌∙◌, ◌⊎◌}

-- `claim` moves `opened` to `claimed`.
pub claim-Advances :
    (cfg : Config) (env : Env) (i worker : String) (lease : Option ℕ) (h m : String) (db : Db)
    {r : Todo × Db}
    → claim cfg env i worker lease h m db ≡ ok r
    → Advances db.todos r.1.todos
unfolding claim claim_write set_todo insert_attempt event
claim-Advances cfg env i worker lease h m db e = bind_ok (claim_check i db) e λ t e1 k2.
    let (at, free) = claim_check_ok i db e1 in
    reread_ok (λ d. Advances db.todos d.todos) i _ k2
      (Advances-move i _ db.todos {t = t} (λ x. refl) at
        (Chain-one t.status Status.claimed (unfold allows in ground arith)))

pub renew_lease-Advances :
    (cfg : Config) (env : Env) (i worker : String) (lease : Option ℕ) (db : Db) {db' : Db}
    → renew_lease cfg env i worker lease db ≡ ok db'
    → Advances db.todos db'.todos
unfolding renew_lease set_todo
renew_lease-Advances cfg env i worker lease db e = bind_ok (get i db) e λ t e1 k1.
    guard_ok (t.claimed_by == worker) _ k1 λ mine k2.
      guard_ok (in_flight t.status) _ k2 λ flying k3.
        returned (λ d. Advances db.todos d.todos) _ k3
          (Advances-move i _ db.todos {t = t} (λ x. refl) (get_ok i db e1) here)

pub mark_running-Advances :
    (env : Env) (i worker : String) (db : Db) {db' : Db}
    → mark_running env i worker db ≡ ok db'
    → Advances db.todos db'.todos
unfolding mark_running set_todo event
mark_running-Advances env i worker db e = bind_ok (get i db) e λ t e1 k1.
    guard_ok (is_claimed t.status) _ k1 λ was k2. guard_ok (t.claimed_by == worker) _ k2 λ mine k3.
      returned (λ d. Advances db.todos d.todos) _ k3
        (Advances-move i _ db.todos {t = t} (λ x. refl) (get_ok i db e1)
          (Chain-one t.status Status.running (unfold allows in ground arith)))

pub mark_verifying-Advances :
    (env : Env) (i worker : String) (db : Db) {db' : Db}
    → mark_verifying env i worker db ≡ ok db'
    → Advances db.todos db'.todos
unfolding mark_verifying set_todo event
mark_verifying-Advances env i worker db e = bind_ok (get i db) e λ t e1 k1.
    guard_ok (is_running t.status) _ k1 λ was k2. guard_ok (t.claimed_by == worker) _ k2 λ mine k3.
      returned (λ d. Advances db.todos d.todos) _ k3
        (Advances-move i _ db.todos {t = t} (λ x. refl) (get_ok i db e1)
          (Chain-one t.status Status.verifying (unfold allows in ground arith)))

pub reopen-Advances :
    (env : Env) (i actor : String) (db : Db) {r : Todo × Db}
    → reopen env i actor db ≡ ok r
    → Advances db.todos r.1.todos
unfolding reopen set_todo event
reopen-Advances env i actor db e = bind_ok (get i db) e λ t e1 k1.
    guard_ok (is_blocked t.status || is_needs_user t.status) _ k1 λ was k2.
      reread_ok (λ d. Advances db.todos d.todos) i _ k2
        (Advances-move i _ db.todos {t = t} (λ x. refl) (get_ok i db e1)
          (Chain-one t.status Status.opened (unfold allows in ground arith)))

-- a row that the loop over the expired leases may put back
abbrev CanRequeue : List Todo → String → Type 0
CanRequeue todos i =
    (t : Todo) × (find? (has_id i) todos ≡ some t)
    × ((in_flight t.status ≡ true) ⊎ (t.status ≡ Status.opened))

requeue-Chain : (s : Status) → (in_flight s ≡ true) ⊎ (s ≡ Status.opened) → Chain s Status.opened
requeue-Chain s (inr q) = subst (λ x. Chain x Status.opened) (sym q) here
requeue-Chain Status.claimed (inl h) = Chain-one _ _ (unfold allows in refl)
requeue-Chain Status.running (inl h) = Chain-one _ _ (unfold allows in refl)
requeue-Chain Status.verifying (inl h) = next here (expired refl refl)
requeue-Chain Status.opened (inl h) = here
requeue-Chain Status.done (inl h) = cc
requeue-Chain Status.blocked (inl h) = cc
requeue-Chain Status.needs_user (inl h) = cc
requeue-Chain Status.superseded (inl h) = cc

CanRequeue-one :
    (env : Env) (i j : String) (todos : List Todo)
    → CanRequeue todos j
    → CanRequeue (update (has_id i) (requeue_row env) todos) j
CanRequeue-one env i j todos (t, e, h) = elim (Bool-cases (i == j)) [
  | inl p ↦ (
    requeue_row env t,
    rw (eq_of_== i j p) (find?-update_self (has_id j) (requeue_row env) todos (λ x. refl) e),
    inr refl,
  )
  | inr p ↦ (
    t,
    find?-update_ne (has_id i) (has_id j) (requeue_row env) todos
          (λ x q. let out : (x.id == j) ≡ false = rw (eq_of_== x.id i q) p in (out, out))
        ∙ e,
    h,
  )
]

requeue_all-Advances :
    (env : Env) (tids : List String) (db : Db)
    → All (CanRequeue db.todos) tids
    → Advances db.todos (requeue_all env tids db).todos
unfolding requeue_all requeue_one set_todo close_open_attempt event
requeue_all-Advances env [] db h = Advances-refl db.todos
requeue_all-Advances env (i ∷ tids) db h =
    let todos' = update (has_id i) (requeue_row env) db.todos in
    Advances-trans db.todos todos' _
      (Advances-move i (requeue_row env) db.todos {t = h.0.0} (λ x. refl) h.0.1
        (requeue-Chain h.0.0.status h.0.2))
      (requeue_all-Advances env tids (requeue_one env i db)
        (All-map (λ j. CanRequeue-one env i j db.todos) tids h.1))

-- under distinct identifiers each row is the one that its identifier finds
found_each : (ts : List Todo) → HasDistinctIds ts → All (λ t. find? (has_id t.id) ts ≡ some t) ts
found_each [] d = tt
found_each (x ∷ xs) d = (rw (==_refl x.id), later xs d.0 (found_each xs d.1))
  where
    later :
        (ys : List Todo)
        → any (has_id x.id) ys ≡ false
        → All (λ t. find? (has_id t.id) xs ≡ some t) ys
        → All (λ t. find? (has_id t.id) (x ∷ xs) ≡ some t) ys
    later [] out h = tt
    later (y ∷ ys) out h = elim (Bool-cases (y.id == x.id)) [
      | inl p ↦ cc (rw p at out)
      | inr p ↦
          let q : (x.id == y.id) ≡ false = ==_comm x.id y.id ∙ p in
          (rw q h.0, later ys (rw p at out) h.1)
    ]

All-map_of {ℓ} :
    {A B : Type 0} (P : B → Type ℓ) (f : A → B) (xs : List A)
    → All (λ x. P (f x)) xs
    → All P (map f xs)
All-map_of P f [] h = tt
All-map_of P f (x ∷ xs) h = (h.0, All-map_of P f xs h.1)

pub requeue_expired_leases-Advances :
    (env : Env) (db : Db)
    → IsConsistent db
    → Advances db.todos (requeue_expired_leases env db).1.todos
unfolding requeue_expired_leases expired_ids
requeue_expired_leases-Advances env db c = requeue_all-Advances env _ db (
    All-map_of (CanRequeue db.todos) (λ t. t.id) (filter (has_expired env.now) db.todos)
      (All-map (λ t h. (t, h.0, inl (ground arith))) (filter (has_expired env.now) db.todos)
        (All-filter (λ t. find? (has_id t.id) db.todos ≡ some t) (has_expired env.now) db.todos
          (found_each db.todos c.distinct))))

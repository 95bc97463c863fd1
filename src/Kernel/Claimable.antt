-- ===== src/Kernel/Claimable.antt =====
-- What `claimable` promises of the todos that it lists.
use aidean_fleet.Common.{
  ◌≡◌, ◌∙◌, true, false, List, [], ◌∷◌, some, Option, String, any, all, find?, map, filter, ◌&&◌,
  ◌||◌, inl, inr, Bool-cases, Option-cases, All, All-filter, All-map, arith,
}
use aidean_fleet.Common.Text.{◌==◌, eq_of_==, is_in, is_blank, ==_refl, ==_comm}
use aidean_fleet.Common.Outcome.{ok}
use aidean_fleet.Common.Sorted.{All-order_by}
use aidean_fleet.Common.Keys.{All-none, All-zip}
use aidean_fleet.Kernel.State.{is_opened, is_done, in_flight}
use aidean_fleet.Kernel.Tables.{Todo, Db, Env}
use aidean_fleet.Kernel.Sql.{has_id, get}
use aidean_fleet.Kernel.Quota.{quota_left}
use aidean_fleet.Kernel.Lease.{claim_check, requeue_expired_leases}
use aidean_fleet.Kernel.Reads.{
  root_of, row_is_done, deps_done, parse_roots, roots_meet, comes_before, active_roots, can_claim,
  claimable_in, claimable,
}
use aidean_fleet.Kernel.Consistency.Defs.{HasDistinctIds, IsConsistent}
use aidean_fleet.Kernel.Consistency.Leases.{requeue_expired_leases-IsConsistent}

abbrev IsFound : List Todo → Todo → Type 0
IsFound rows t = find? (has_id t.id) rows ≡ some t

-- with distinct keys, a SELECT by the key of a row finds that row
All-IsFound : (rows : List Todo) → HasDistinctIds rows → All (IsFound rows) rows
All-IsFound [] h = tt
All-IsFound (t ∷ rows) h = (
  rw (==_refl t.id),
  All-map (λ x k. let other : (t.id == x.id) ≡ false = ==_comm t.id x.id ∙ k.0 in rw other k.1) rows
      (All-zip _ _ rows (All-none (has_id t.id) rows h.0) (All-IsFound rows h.1)),
)

-- the file patterns of a todo begin with no first part that one of these patterns has
abbrev pub IsApart : List String → Todo → Type 0
IsApart mine u =
    in_flight u.status ≡ true
    → All
        (λ p.
          is_blank (root_of p) ≡ false
          → All (λ x. (root_of p == root_of x) ≡ false) u.allowed_files)
        mine

-- a dependency: the row of this key is done
abbrev pub IsDone : List Todo → String → Type 0
IsDone rows dep = (u : Todo) × (find? (has_id dep) rows ≡ some u) × (is_done u.status ≡ true)

not_among :
    (r : String) (theirs : List String)
    → is_blank r ≡ false
    → is_in r (parse_roots theirs) ≡ false
    → All (λ x. (r == root_of x) ≡ false) theirs
unfolding parse_roots
not_among r [] named h = tt
not_among r (x ∷ theirs) named h = elim (Bool-cases (is_blank (root_of x))) [
  | inl blank ↦ (
    elim (Bool-cases (r == root_of x)) [
      | inl same ↦ let p : r ≡ root_of x = eq_of_== r (root_of x) same in cc (p, blank, named)
      | inr other ↦ other
    ],
    not_among r theirs named (rw (blank, parse_roots) at h),
  )
  | inr kept ↦
      let h1 : (root_of x == r || is_in r (parse_roots theirs)) ≡ false =
        rw (kept, parse_roots) at h in
      let other : (root_of x == r) ≡ false = ground arith in
      (==_comm r (root_of x) ∙ other, not_among r theirs named (ground arith))
]

roots_apart :
    (mine theirs : List String)
    → roots_meet (parse_roots mine) (parse_roots theirs) ≡ false
    → All
        (λ p. is_blank (root_of p) ≡ false → All (λ x. (root_of p == root_of x) ≡ false) theirs)
        mine
unfolding roots_meet parse_roots
roots_apart [] theirs h = tt
roots_apart (p ∷ mine) theirs h = elim (Bool-cases (is_blank (root_of p))) [
  | inl blank ↦ (
    λ named. cc (blank, named),
    roots_apart mine theirs (rw (blank, roots_meet, parse_roots) at h),
  )
  | inr kept ↦
      let h1 : (is_in (root_of p) (parse_roots theirs)
            || roots_meet (parse_roots mine) (parse_roots theirs))
          ≡ false =
        rw (kept, roots_meet, parse_roots) at h in
      (
        λ named. not_among (root_of p) theirs named (ground arith),
        roots_apart mine theirs (ground arith),
      )
]

rows-IsApart :
    (mine : List String) (rows : List Todo)
    → any
        (roots_meet (parse_roots mine))
        (map (λ u. parse_roots u.allowed_files) (filter (λ u. in_flight u.status) rows))
      ≡ false
    → All (IsApart mine) rows
rows-IsApart mine [] h = tt
rows-IsApart mine (u ∷ rows) h = elim (Bool-cases (in_flight u.status)) [
  | inl flies ↦
      let h1 : (roots_meet (parse_roots mine) (parse_roots u.allowed_files)
            || any (roots_meet (parse_roots mine))
                (map (λ x. parse_roots x.allowed_files) (filter (λ x. in_flight x.status) rows)))
          ≡ false =
        rw flies at h in
      (λ f. roots_apart mine u.allowed_files (ground arith), rows-IsApart mine rows (ground arith))
  | inr lands ↦ (λ flies. cc (flies, lands), rows-IsApart mine rows (rw lands at h))
]

all-IsDone :
    (rows : List Todo) (deps : List String)
    → all (λ dep. row_is_done (find? (has_id dep) rows)) deps ≡ true
    → All (IsDone rows) deps
all-IsDone rows [] h = tt
all-IsDone rows (dep ∷ deps) h = elim (Option-cases (find? (has_id dep) rows)) [
  | inl missing ↦ cc (rw missing at h)
  | inr (u, found) ↦
      let h1 : (is_done u.status && all (λ d. row_is_done (find? (has_id d) rows)) deps) ≡ true =
        rw found at h in
      ((u, found, ground arith), all-IsDone rows deps (ground arith))
]

-- what holds of a todo that is listed, in the tables that `claimable` leaves
pub record CanStart (env : Env) (db : Db) (t : Todo) : Type 0 where
  pub passes_check : claim_check t.id db ≡ ok t
  pub dependencies_done : All (IsDone db.todos) t.depends_on
  pub apart : All (IsApart t.allowed_files) db.todos
  pub global_quota : quota_left env "global" db ≡ true
  pub role_quota : quota_left env t.role db ≡ true

can_claim-CanStart :
    (env : Env) (role kind : Option String) (db : Db) (t : Todo)
    → IsFound db.todos t
    → is_opened t.status ≡ true
    → can_claim env role kind db t ≡ true
    → CanStart env db t
unfolding can_claim claim_check get deps_done active_roots
can_claim-CanStart env role kind db t at free can = record {
  passes_check = rw (at, free);
  dependencies_done = all-IsDone db.todos t.depends_on (ground (arith, can));
  apart = rows-IsApart t.allowed_files db.todos (ground (arith, can));
  global_quota = ground (arith, can);
  role_quota = ground (arith, can);
}

-- From consistent tables, each todo that `claimable` lists passes the check of `claim` in the tables
-- that it leaves; for each key that it depends on, the row of that key is done; the first part of each
-- of its file patterns, where there is one, is not that of a file pattern of a todo in flight; and it has
-- quota left, its own role's and the global one.
pub claimable-CanStart :
    (env : Env) (role kind : Option String) (db : Db)
    → IsConsistent db
    → All (CanStart env (claimable env role kind db).1) (claimable env role kind db).0
unfolding claimable claimable_in
claimable-CanStart env role kind db c =
    let db1 = (requeue_expired_leases env db).1 in
    let rows = requeue_expired_leases-IsConsistent env db c in
    All-map (λ t k. can_claim-CanStart env role kind db1 t k.0.0 k.0.1 k.1) _
      (All-filter _ (can_claim env role kind db1) _ (
        All-order_by _ comes_before _ (
          All-filter (IsFound db1.todos) (λ t. is_opened t.status) db1.todos
            (All-IsFound db1.todos rows.distinct))))

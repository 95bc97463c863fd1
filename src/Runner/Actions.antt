-- ===== src/Runner/Actions.antt =====
-- The calls of the kernel that a worker makes: each is a transaction, before which other workers may
-- have made calls of their own, and what it wrote stays behind an exception of a later one.
use aidean_fleet.Common.{ℕ, List}
use aidean_fleet.Common.Outcome.{Result, ok, err}
use aidean_fleet.Kernel.Tables.{Db, Env, Config, Error}
use aidean_fleet.Kernel.Steer.{Json}
use aidean_fleet.Kernel.Machine.{Call, run_all, committed}
use aidean_fleet.Planner.Service.{PlannerError}

-- what may leave a round: an exception of the kernel, of the planner, of the disk, an AssertionError
pub data WorkerError : Type 0 where
  refused : Error → WorkerError
  planning : PlannerError → WorkerError
  disk_failed assertion : WorkerError

abbrev pub Action : Type 0 → Type 0
Action A = Db → Result WorkerError A × Db

module _ {A : Type 0} where
  unfoldable pub pure : A → Action A
  pure a db = (ok a, db)

  unfoldable pub raise : WorkerError → Action A
  raise e db = (err e, db)

abbrev pub follow :
    {A B : Type 0} → (A → Action B) → Result WorkerError A × Db → Result WorkerError B × Db
follow f (ok a, db) = f a db
follow f (err e, db) = (err e, db)

infixl 5 ◌>>=◌ ◌>>◌
unfoldable pub ◌>>=◌ : {A B : Type 0} → Action A → (A → Action B) → Action B
◌>>=◌ m f db = follow f (m db)

abbrev pub ◌>>◌ : {A B : Type 0} → Action A → Action B → Action B
m >> k = m >>= λ _. k

-- What a round takes from outside: the clock of its n-th call of the kernel, the calls that others
-- have made before it, and the clock of the calls that the planner makes. The heartbeats of a harness
-- that runs are among the calls of others.
pub record Times : Type 0 where
  pub clock : ℕ → Env
  pub others : ℕ → List (Env × Call)
  pub planner_clock : ℕ → Env

pub record Outside : Type 0 where
  pub config : Config
  pub json : Json
  pub times : Times

module _ (o : Outside) where
  -- the tables that the n-th call finds
  abbrev pub met : ℕ → Db → Db
  met n db = run_all o.config o.json (o.times.others n) db

  abbrev pub settled : {A : Type 0} → Db → Result Error (A × Db) → Result WorkerError A × Db
  settled db (ok r) = (ok r.0, r.1)
  settled db (err e) = (err (refused e), db)

  abbrev pub settled_unit : Db → Result Error Db → Result WorkerError (Unit {0}) × Db
  settled_unit db (ok db') = (ok tt, db')
  settled_unit db (err e) = (err (refused e), db)

  -- a call that returns a value, one that returns none, one whose exception is passed over, a reading
  unfoldable pub call : {A : Type 0} → ℕ → (Env → Db → Result Error (A × Db)) → Action A
  call n f db = settled (met n db) (f (o.times.clock n) (met n db))

  unfoldable pub call_unit : ℕ → (Env → Db → Result Error Db) → Action (Unit {0})
  call_unit n f db = settled_unit (met n db) (f (o.times.clock n) (met n db))

  unfoldable pub attempt : ℕ → (Env → Db → Result Error Db) → Action (Unit {0})
  attempt n f db = (ok tt, committed (met n db) (f (o.times.clock n) (met n db)))

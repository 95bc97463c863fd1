-- ===== src/Runner/Posts.antt =====
-- What an action returns, with the tables that it leaves: a postcondition and its rules.
use aidean_fleet.Common.Outcome.{Result, ok, err}
use aidean_fleet.Kernel.Tables.{Db}
use aidean_fleet.Runner.Actions.{WorkerError, Action, pure, raise, follow, ◌>>=◌}

abbrev pub Holds : {A : Type 0} → (A → Db → Type 0) → Result WorkerError A × Db → Type 0
Holds P (ok a, db) = P a db
Holds P (err e, db) = Unit

pub record Ensures {A : Type 0} (m : Action A) (P : A → Db → Type 0) : Type 0 where
  pub holds : (db : Db) → Holds P (m db)

module _ {A : Type 0} {P : A → Db → Type 0} where
  pub pure-Ensures : (a : A) → ((db : Db) → P a db) → Ensures (pure a) P
  unfolding pure
  pure-Ensures a h = record { holds = h }

  pub raise-Ensures : (e : WorkerError) → Ensures (raise e) P
  unfolding raise
  raise-Ensures e = record { holds = λ db. tt }

follow-Holds :
    {A B : Type 0} (P : A → Db → Type 0) (Q : B → Db → Type 0) (f : A → Action B)
    → ((a : A) (db : Db) → P a db → Holds Q (f a db))
    → (r : Result WorkerError A × Db) → Holds P r
    → Holds Q (follow f r)
follow-Holds P Q f k (ok a, db) h = k a db h
follow-Holds P Q f k (err e, db) h = tt

-- the rest may use what the first action ensures
pub bind-Ensures :
    {A B : Type 0} (P : A → Db → Type 0) {Q : B → Db → Type 0} (m : Action A) (f : A → Action B)
    → Ensures m P
    → ((a : A) (db : Db) → P a db → Holds Q (f a db))
    → Ensures (m >>= f) Q
unfolding ◌>>=◌
bind-Ensures P {Q} m f h k = record { holds = λ db. follow-Holds P Q f k (m db) (h.holds db) }

follow-Holds_any :
    {A B : Type 0} (Q : B → Db → Type 0) (f : A → Action B)
    → ((a : A) → Ensures (f a) Q)
    → (r : Result WorkerError A × Db) → Holds Q (follow f r)
follow-Holds_any Q f k (ok a, db) = (k a).holds db
follow-Holds_any Q f k (err e, db) = tt

-- the rest ensures it whatever the first action returns
pub then-Ensures :
    {A B : Type 0} {Q : B → Db → Type 0} (m : Action A) (f : A → Action B)
    → ((a : A) → Ensures (f a) Q)
    → Ensures (m >>= f) Q
unfolding ◌>>=◌
then-Ensures {Q = Q} m f k = record { holds = λ db. follow-Holds_any Q f k (m db) }

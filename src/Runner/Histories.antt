-- ===== src/Runner/Histories.antt =====
-- The tables behind an action of a worker are those behind a history of kernel calls.
use aidean_fleet.Common.{ℕ, ◌≡◌, refl, sym, ◌∙◌, subst, ap, List, [], ◌∷◌, ◌++◌}
use aidean_fleet.Common.Outcome.{Result, ok, err}
use aidean_fleet.Kernel.Tables.{Db, Env, Config, Error}
use aidean_fleet.Kernel.Steer.{Json}
use aidean_fleet.Kernel.Machine.{Call, tables, perform, committed, run_all}
use aidean_fleet.Runner.Actions.{
  WorkerError, Action, pure, raise, follow, ◌>>=◌, Outside, met, settled, settled_unit, call,
  call_unit, attempt,
}

module _ (cfg : Config) (json : Json) where
  -- `db'` stands behind a history of kernel calls from `db`
  pub record IsBehind (db db' : Db) : Type 0 where
    pub calls : List (Env × Call)
    pub reached : db' ≡ run_all cfg json calls db

  pub IsBehind-refl : (db : Db) → IsBehind db db
  unfolding run_all
  IsBehind-refl db = record { calls = []; reached = refl }

  pub run_all-append :
      (xs ys : List (Env × Call)) (db : Db)
      → run_all cfg json (xs ++ ys) db ≡ run_all cfg json ys (run_all cfg json xs db)
  unfolding run_all
  run_all-append [] ys db = refl
  run_all-append ((env, c) ∷ xs) ys db =
      run_all-append xs ys (committed db (perform cfg json env c db))

  pub IsBehind-trans : {a b c : Db} → IsBehind a b → IsBehind b c → IsBehind a c
  IsBehind-trans {a} h k = record {
    calls = h.calls ++ k.calls;
    reached =
        k.reached
        ∙ ap (run_all cfg json k.calls) h.reached
        ∙ sym (run_all-append h.calls k.calls a);
  }

  pub IsBehind-run_all :
      (calls : List (Env × Call)) (db : Db) → IsBehind db (run_all cfg json calls db)
  IsBehind-run_all calls db = record { calls = calls; reached = refl }

  -- one call, whether or not it raises
  pub IsBehind-perform :
      (env : Env) (c : Call) (db : Db) → IsBehind db (committed db (perform cfg json env c db))
  unfolding run_all
  IsBehind-perform env c db = record { calls = (env, c) ∷ []; reached = refl }

  pub record Follows {A : Type 0} (m : Action A) : Type 0 where
    pub behind : (db : Db) → IsBehind db (m db).1

  pub pure-Follows : {A : Type 0} (a : A) → Follows (pure a)
  unfolding pure
  pure-Follows a = record { behind = IsBehind-refl }

  pub raise-Follows : {A : Type 0} (e : WorkerError) → Follows (raise {A = A} e)
  unfolding raise
  raise-Follows e = record { behind = IsBehind-refl }

  follow-IsBehind :
      {A B : Type 0} (f : A → Action B)
      → ((a : A) → Follows (f a))
      → {db : Db} (r : Result WorkerError A × Db) → IsBehind db r.1
      → IsBehind db (follow f r).1
  follow-IsBehind f k (ok a, db') h = IsBehind-trans h ((k a).behind db')
  follow-IsBehind f k (err x, db') h = h

  pub Follows-bind :
      {A B : Type 0} (m : Action A) (f : A → Action B)
      → Follows m
      → ((a : A) → Follows (f a))
      → Follows (m >>= f)
  unfolding ◌>>=◌
  Follows-bind m f h k = record { behind = λ db. follow-IsBehind f k (m db) (h.behind db) }

module _ (o : Outside) where
  abbrev Behind : Db → Db → Type 0
  Behind = IsBehind o.config o.json

  settled-IsBehind :
      {A : Type 0} (env : Env) (c : Call) (db : Db) (r : Result Error (A × Db))
      → perform o.config o.json env c db ≡ tables r
      → Behind db (settled o db r).1
  settled-IsBehind env c db (ok r) e =
      subst (λ t. Behind db (committed db t)) e (IsBehind-perform o.config o.json env c db)
  settled-IsBehind env c db (err x) e = IsBehind-refl o.config o.json db

  settled_unit-IsBehind :
      (env : Env) (c : Call) (db : Db) (r : Result Error Db)
      → perform o.config o.json env c db ≡ r
      → Behind db (settled_unit o db r).1
  settled_unit-IsBehind env c db (ok r) e =
      subst (λ t. Behind db (committed db t)) e (IsBehind-perform o.config o.json env c db)
  settled_unit-IsBehind env c db (err x) e = IsBehind-refl o.config o.json db

  pub call-Follows :
      {A : Type 0} (n : ℕ) (c : Call) (f : Env → Db → Result Error (A × Db))
      → ((env : Env) (db : Db) → perform o.config o.json env c db ≡ tables (f env db))
      → Follows o.config o.json (call o n f)
  unfolding call
  call-Follows n c f same = record {
    behind = λ db.
        IsBehind-trans o.config o.json (IsBehind-run_all o.config o.json (o.times.others n) db)
          (settled-IsBehind (o.times.clock n) c (met o n db) _ (same _ _));
  }

  pub call_unit-Follows :
      (n : ℕ) (c : Call) (f : Env → Db → Result Error Db)
      → ((env : Env) (db : Db) → perform o.config o.json env c db ≡ f env db)
      → Follows o.config o.json (call_unit o n f)
  unfolding call_unit
  call_unit-Follows n c f same = record {
    behind = λ db.
        IsBehind-trans o.config o.json (IsBehind-run_all o.config o.json (o.times.others n) db)
          (settled_unit-IsBehind (o.times.clock n) c (met o n db) _ (same _ _));
  }

  pub attempt-Follows :
      (n : ℕ) (c : Call) (f : Env → Db → Result Error Db)
      → ((env : Env) (db : Db) → perform o.config o.json env c db ≡ f env db)
      → Follows o.config o.json (attempt o n f)
  unfolding attempt
  attempt-Follows n c f same = record {
    behind = λ db.
        IsBehind-trans o.config o.json (IsBehind-run_all o.config o.json (o.times.others n) db) (
          subst (λ t. Behind (met o n db) (committed (met o n db) t)) (same _ _)
            (IsBehind-perform o.config o.json (o.times.clock n) c (met o n db)));
  }

  -- a reading
  pub read-Follows :
      {A : Type 0} (n : ℕ) (f : Env → Db → Result Error (A × Db))
      → ((env : Env) (db : Db) (r : A × Db) → f env db ≡ ok r → r.1 ≡ db)
      → Follows o.config o.json (call o n f)
  unfolding call
  read-Follows {A} n f same = record {
    behind = λ db.
        IsBehind-trans o.config o.json (IsBehind-run_all o.config o.json (o.times.others n) db)
          (by_result (met o n db) (f (o.times.clock n) (met o n db)) refl);
  }
    where
      by_result :
          (db : Db) (r : Result Error (A × Db))
          → f (o.times.clock n) db ≡ r
          → Behind db (settled o db r).1
      by_result db (ok r) e =
          subst (λ d. Behind db d) (sym (same _ _ r e)) (IsBehind-refl o.config o.json _)
      by_result db (err x) e = IsBehind-refl o.config o.json _

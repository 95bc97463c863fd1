-- ===== src/Runner/Judged.antt =====
-- What a round of a worker writes back, and when the kernel refuses it.
use aidean_fleet.Common.{◌≡◌, refl, subst, sym, ap, ◌∙◌, true, List, [], ◌∷◌, Option, none, String}
use aidean_fleet.Common.Outcome.{ok, err}
use aidean_fleet.Kernel.State.{is_done_verdict, TurnResult}
use aidean_fleet.Kernel.Tables.{Todo, Db, bad_status}
use aidean_fleet.Kernel.Reads.{Run, go, quota_exhausted, no_runnable_todo, should_run, claimable}
use aidean_fleet.Runner.Actions.{refused, pure, Outside, met, call, follow, ◌>>=◌}
use aidean_fleet.Runner.Worker.{Worker, writeback, Stored}
use aidean_fleet.Runner.Once.{run_first, run_if, run_once, write_back, run_round}
use aidean_fleet.Runner.Finishing.{call_refused}
use aidean_fleet.Runner.Posts.{Holds}
use aidean_fleet.Runner.Proposals.{is_asking}
use aidean_fleet.Runner.Backed.{second_met, IsBacked, IsSound, run_todo-Sound}
use aidean_fleet.Kernel.Writeback.{transition}

module _ (w : Worker) (o : Outside) where
  -- what the first reading answered, and the list that the second one returned, in a round that began
  -- with these tables
  abbrev HasRead : Db → Run → Db → Type 0
  HasRead start run db =
      (run ≡ (should_run (o.times.clock 0) (met o 0 start)).0)
      × (db ≡ (should_run (o.times.clock 0) (met o 0 start)).1)

  abbrev IsOffered : Db → List Todo → Type 0
  IsOffered start todos =
      ((should_run (o.times.clock 0) (met o 0 start)).0 ≡ go)
      × ((claimable (o.times.clock 1) none none (second_met o start)).0 ≡ todos)

  run_first-Sound :
      (start : Db) (todos : List Todo) (db : Db)
      → IsOffered start todos
      → Holds (IsSound w o start) (run_first w o todos db)
  unfolding run_first pure
  run_first-Sound start [] db h = tt
  run_first-Sound start (todo ∷ rest) db (may, e) =
      (run_todo-Sound w o start todo record { may_run = may; rest = rest; first = e }).holds db

  run_if-Sound :
      (start : Db) (run : Run) (db : Db)
      → HasRead start run db
      → Holds (IsSound w o start) (run_if w o run db)
  unfolding run_if call pure ◌>>=◌
  run_if-Sound start go db (may, same) =
      run_first-Sound start (claimable (o.times.clock 1) none none (met o 1 db)).0 _
        (sym may, ap (λ d. (claimable (o.times.clock 1) none none (met o 1 d)).0) (sym same))
  run_if-Sound start (quota_exhausted key) db h = tt
  run_if-Sound start no_runnable_todo db h = tt

  run_once-Sound : (start : Db) → Holds (IsSound w o start) (run_once w o start)
  unfolding run_once call ◌>>=◌
  run_once-Sound start =
      run_if-Sound start (should_run (o.times.clock 0) (met o 0 start)).0 _ (refl, refl)

  module _ (i : String) (result : TurnResult) (claimed : Option Todo) (stored : Stored) where
    round-IsSound :
        (db : Db) {db' : Db}
        → run_once w o db ≡ (ok (writeback i result claimed stored), db')
        → IsSound w o db (writeback i result claimed stored) db'
    round-IsSound db e = subst (Holds (IsSound w o db)) e (run_once-Sound db)

    -- A round that says done is about the first todo that `claimable` listed, in the tables that the
    -- reading of should_run and the calls of others have made of those that the round began with, and
    -- should_run allowed the round. If that is an exec todo, it has commands to verify it, each of them
    -- ended with code 0, and the report of the gate is kept as evidence where the result says.
    pub run_once-IsBacked :
        (db : Db) {db' : Db}
        → run_once w o db ≡ (ok (writeback i result claimed stored), db')
        → is_done_verdict result.verdict ≡ true
        → IsBacked w o db i result stored
    run_once-IsBacked db e h = (round-IsSound db e).0 h

    -- A round whose result asks the user always ends the loop with an exception, unless others
    -- call the kernel before it is written back: what it asks has put the todo out of flight already,
    -- and the kernel then takes no result.
    pub run_round_asking :
        (db : Db) {db' : Db}
        → run_once w o db ≡ (ok (writeback i result claimed stored), db')
        → is_asking result.verdict ≡ true
        → o.times.others 8 ≡ []
        → run_round w o db ≡ (err (refused bad_status), db')
    unfolding run_round ◌>>=◌
    run_round_asking db {db'} e h alone =
        let fails = (round-IsSound db e).1 h o.config (o.times.clock 8) in
        ap (follow (write_back w o)) e
        ∙ ap (follow (λ row. pure tt))
            (call_refused o 8 alone (λ env db. transition o.config env i result db) db' fails)

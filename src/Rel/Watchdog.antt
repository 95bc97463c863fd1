-- ===== src/Rel/Watchdog.antt =====
-- fleet/rel/watchdog.py: the loop of `Watchdog.run`. A run is the list of its cycles: what the probe
-- answers, whether the watchdog has been stopped from outside, and what the clock says when it is read.
-- `max_cycles` is the length of the list. Times are whole seconds; a window that reaches before zero
-- holds every time. The processes are given by their numbers. The event of a restart carries the time of
-- the restart; its clock is taken to be that of the watchdog.
use aidean_fleet.Common.{
  ℕ, suc, ◌-◌, Bool, true, false, List, [], ◌∷◌, ◌++◌, Option, none, some, if◌then◌else◌, leb,
  count, is_empty, String,
}

pub record Config : Type 0 where
  pub max_failures : ℕ
  pub restart_window : ℕ
  pub max_restarts : ℕ
  pub restart_cmd : List String

-- DEFAULT_MAX_FAILURES, DEFAULT_RESTART_WINDOW and DEFAULT_MAX_RESTARTS
abbrev pub default_config : List String → Config
default_config cmd = record {
  max_failures = 3;
  restart_window = 300;
  max_restarts = 3;
  restart_cmd = cmd;
}

pub data Notice : Type 0 where
  restart_notice : (at restarts : ℕ) → (old_pid new_pid : Option ℕ) → Notice
  escalate_notice : (restarts : ℕ) → Notice

-- the fields of a watchdog, and the events that it appends
pub record Dog : Type 0 where
  pub child : Option ℕ
  pub restarts : ℕ
  pub consecutive_failures : ℕ
  pub escalated : Bool
  pub stopped : Bool
  pub restart_times : List ℕ
  pub notices : List Notice

pub record Cycle : Type 0 where
  pub stop : Bool
  pub alive : Bool
  pub new_pid : ℕ
  pub now_storm : ℕ
  pub now_restart : ℕ

abbrev pub new_dog : Dog
new_dog = record {
  child = none;
  restarts = 0;
  consecutive_failures = 0;
  escalated = false;
  stopped = false;
  restart_times = [];
  notices = [];
}

module _ (c : Config) where
  -- the process that is started, if there is a command
  unfoldable pub spawn_child : ℕ → Dog → Dog
  spawn_child pid d = if is_empty c.restart_cmd then d else record d { child = some pid }

  unfoldable pub spawned : ℕ → Option ℕ
  spawned pid = if is_empty c.restart_cmd then none else some pid

  unfoldable pub restart : ℕ → ℕ → Dog → Dog
  restart pid now d =
      let d1 = spawn_child pid d in
      record d1 {
        restarts = suc d.restarts;
        restart_times = d.restart_times ++ now ∷ [];
        notices = d.notices ++ restart_notice now (suc d.restarts) d.child (spawned pid) ∷ [];
      }

  unfoldable pub storm : ℕ → List ℕ → Bool
  storm now times = leb c.max_restarts (count (λ t. leb (now - c.restart_window) t) times)

  abbrev pub give_up : Dog → Dog
  give_up d = record d {
    escalated = true;
    stopped = true;
    notices = d.notices ++ escalate_notice d.restarts ∷ [];
  }

  -- a probe that failed: whether the loop ends, the failures in a row, the watchdog
  unfoldable pub fail : Cycle → ℕ → Dog → Bool × ℕ × Dog
  fail cycle failures d =
      let d1 = record d { consecutive_failures = suc failures } in
      if leb c.max_failures (suc failures)
      then (if storm cycle.now_storm d.restart_times
          then (true, suc failures, give_up d1)
          else (false, 0, restart cycle.new_pid cycle.now_restart d1))
      else (false, suc failures, d1)

  -- the loop, and the number of its cycles
  unfoldable pub loop : List Cycle → ℕ → ℕ → Dog → ℕ × Dog
  loop [] cycles failures d = (cycles, record d { stopped = true })
  loop (cycle ∷ rest) cycles failures d =
      let (over, failures1, d1) = fail cycle failures d in
      let ended : ℕ × Dog = (suc cycles, record d1 { stopped = true }) in
      let failed = loop rest (suc cycles) failures1 d1 in
      let well = loop rest (suc cycles) 0 (record d { consecutive_failures = 0 }) in
      if d.stopped
      then (cycles, d)
      else if cycle.stop
      then (cycles, record d { stopped = true })
      else if cycle.alive
      then well
      else if over
      then ended
      else failed

  unfoldable pub run : ℕ → List Cycle → Dog → ℕ × Dog
  run pid cycles d =
      let started : Dog = elim d.child [ none ↦ spawn_child pid d | some old ↦ d ] in
      loop cycles 0 0 started

-- ===== src/Rel/Storms.antt =====
-- How often a watchdog restarts.
use aidean_fleet.Common.{
  ap, sym, subst, ◌∙◌, Option, ℕ, suc, ◌+◌, ◌-◌, ◌≤◌, ◌<◌, ◌≡◌, refl, inl, inr, Bool, true, false,
  List, [], ◌∷◌, ◌++◌, some, if◌then◌else◌, leb, count, is_empty, All, Bool-cases, arith,
}
use aidean_fleet.Rel.Watchdog.{
  Config, Notice, restart_notice, escalate_notice, Cycle, Dog, new_dog, spawn_child, restart, storm,
  fail, loop, run,
}

module _ (c : Config) where
  -- of the restarts before each one, fewer than the bound lie in the window that ends with it
  abbrev pub IsSpaced : List ℕ → List ℕ → Type 0
  IsSpaced before [] = Unit
  IsSpaced before (t ∷ times) =
      (count (λ u. leb (t - c.restart_window) u) before < c.max_restarts)
      × IsSpaced (t ∷ before) times

  -- the times of the restarts that the events report
  abbrev pub moments : List Notice → List ℕ
  moments [] = []
  moments (restart_notice at n old new ∷ notices) = at ∷ moments notices
  moments (escalate_notice n ∷ notices) = moments notices

  -- the clock does not go back between the two readings of a cycle
  abbrev pub IsForward : Cycle → Type 0
  IsForward cycle = cycle.now_storm ≤ cycle.now_restart

  IsSpaced-snoc :
      (before times : List ℕ) (t : ℕ)
      → IsSpaced before times
      → count (λ u. leb (t - c.restart_window) u) before
          + count (λ u. leb (t - c.restart_window) u) times
        < c.max_restarts
      → IsSpaced before (times ++ t ∷ [])
  IsSpaced-snoc before [] t h l = (omega (arith, l), tt)
  IsSpaced-snoc before (x ∷ times) t h l =
      (h.0, IsSpaced-snoc (x ∷ before) times t h.1 (omega (arith, l)))

  -- a later window holds no more
  count_later :
      (early late : ℕ) (times : List ℕ)
      → early ≤ late
      → count (λ u. leb (late - c.restart_window) u) times
        ≤ count (λ u. leb (early - c.restart_window) u) times
  count_later early late [] l = omega arith
  count_later early late (u ∷ times) l =
      let rest = count_later early late times l in
      elim (Bool-cases (leb (late - c.restart_window) u)) [
        | inr before_it ↦ rw before_it (ground (arith, rest))
        | inl within ↦
            let too : leb (early - c.restart_window) u ≡ true = ground (arith, within, l) in
            rw (within, too) (omega (arith, rest))
      ]

  moments-restart :
      (notices : List Notice) (at n : ℕ) (old new : Option ℕ)
      → moments (notices ++ restart_notice at n old new ∷ []) ≡ moments notices ++ at ∷ []
  moments-restart [] at n old new = refl
  moments-restart (restart_notice k m p q ∷ notices) at n old new =
      ap (λ times. k ∷ times) (moments-restart notices at n old new)
  moments-restart (escalate_notice m ∷ notices) at n old new = moments-restart notices at n old new

  moments-escalate :
      (notices : List Notice) (n : ℕ)
      → moments (notices ++ escalate_notice n ∷ []) ≡ moments notices
  moments-escalate [] n = refl
  moments-escalate (restart_notice k m p q ∷ notices) n =
      ap (λ times. k ∷ times) (moments-escalate notices n)
  moments-escalate (escalate_notice m ∷ notices) n = moments-escalate notices n

  -- what the watchdog remembers is what the events report
  record IsRecorded (d : Dog) : Type 0 where
    same_times : d.restart_times ≡ moments d.notices
    spaced : IsSpaced [] d.restart_times

  fail-IsSpaced :
      (cycle : Cycle) (failures : ℕ) (d : Dog)
      → IsForward cycle
      → IsRecorded d
      → IsRecorded (fail c cycle failures d).2
  unfolding fail storm restart spawn_child
  fail-IsSpaced cycle failures d forward h = elim (Bool-cases (leb c.max_failures (suc failures))) [
    | inr few ↦ rw few record { same_times = h.same_times; spaced = h.spaced }
    | inl many ↦ elim (Bool-cases (storm c cycle.now_storm d.restart_times)) [
      | inl stormy ↦
          rw (many, stormy)
            record {
              same_times = h.same_times ∙ sym (moments-escalate d.notices d.restarts);
              spaced = h.spaced;
            }
      | inr calm ↦
          let fewer = count_later cycle.now_storm cycle.now_restart d.restart_times forward in
          let after =
            restart c cycle.new_pid cycle.now_restart
              (record d { consecutive_failures = suc failures }) in
          let spaced : IsSpaced [] (d.restart_times ++ cycle.now_restart ∷ []) =
            IsSpaced-snoc [] d.restart_times cycle.now_restart h.spaced
              (ground (arith, fewer, calm)) in
          rw (many, calm)
            record {
              same_times =
                  ap (λ times. times ++ cycle.now_restart ∷ []) h.same_times
                  ∙ sym (moments-restart d.notices cycle.now_restart (suc d.restarts) d.child _);
              spaced = spaced;
            }
    ]
  ]

  -- a run whose restarts are spaced
  record IsCalm (result : ℕ × Dog) : Type 0 where
    recorded : IsRecorded result.1

  either : (b : Bool) {x y : ℕ × Dog} → IsCalm x → IsCalm y → IsCalm (if b then x else y)
  either true h k = h
  either false h k = k

  same_dog :
      (d e : Dog)
      → e.restart_times ≡ d.restart_times
      → e.notices ≡ d.notices
      → IsRecorded d
      → IsRecorded e
  same_dog d e times notices h = record {
    same_times = times ∙ h.same_times ∙ ap moments (sym notices);
    spaced = subst (IsSpaced []) (sym times) h.spaced;
  }

  new_dog-IsRecorded : IsRecorded new_dog
  new_dog-IsRecorded = record { same_times = refl; spaced = tt }

  both :
      {result : ℕ × Dog}
      → IsCalm result
      → IsSpaced [] (moments result.1.notices) × (result.1.restart_times ≡ moments result.1.notices)
  both h = (subst (IsSpaced []) h.recorded.same_times h.recorded.spaced, h.recorded.same_times)

  loop-IsCalm :
      (cycles : List Cycle) (n failures : ℕ) (d : Dog)
      → All IsForward cycles
      → IsRecorded d
      → IsCalm (loop c cycles n failures d)
  unfolding loop
  loop-IsCalm [] n failures d forward h = record { recorded = same_dog d _ refl refl h }
  loop-IsCalm (cycle ∷ rest) n failures d forward h =
      let failed = fail c cycle failures d in
      let step = fail-IsSpaced cycle failures d forward.0 h in
      either d.stopped record { recorded = same_dog d _ refl refl h }
        (either cycle.stop record { recorded = same_dog d _ refl refl h }
          (either cycle.alive
            (loop-IsCalm rest (suc n) 0 (record d { consecutive_failures = 0 }) forward.1
              (same_dog d _ refl refl h))
            (either failed.0 record { recorded = same_dog failed.2 _ refl refl step }
              (loop-IsCalm rest (suc n) failed.1 failed.2 forward.1 step))))

  -- Over every run of a new watchdog, whose clock does not go back within a cycle, no window of the
  -- configured length that ends with a restart holds more restarts than the configured number: the
  -- restarts are those that the watchdog's events report, with their times, and what it remembers of
  -- them is the same.
  pub run-IsSpaced :
      (pid : ℕ) (cycles : List Cycle)
      → All IsForward cycles
      → IsSpaced [] (moments (run c pid cycles new_dog).1.notices)
        × ((run c pid cycles new_dog).1.restart_times
            ≡ moments (run c pid cycles new_dog).1.notices)
  unfolding run spawn_child
  run-IsSpaced pid cycles forward = elim (Bool-cases (is_empty c.restart_cmd)) [
    | inl no_cmd ↦ rw no_cmd (both (loop-IsCalm cycles 0 0 new_dog forward new_dog-IsRecorded))
    | inr cmd ↦ rw cmd (
        both (
          loop-IsCalm cycles 0 0 (record new_dog { child = some pid }) forward
            (same_dog new_dog _ refl refl new_dog-IsRecorded)))
  ]

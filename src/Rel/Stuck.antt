-- ===== src/Rel/Stuck.antt =====
-- What a scan for tasks that hang does with them.
use aidean_fleet.Common.{
  ℕ, suc, ap, if◌then◌else◌, ◌+◌, ◌-◌, ◌*◌, ◌≤◌, ◌≡◌, refl, ◌∙◌, sym, subst, inl, inr, Bool, true,
  false, List, [], ◌∷◌, ◌++◌, Option, none, some, String, ltb, leb, ◌&&◌, any, count, filter, find?,
  All, All-map, All-filter, Bool-cases, arith,
}
use aidean_fleet.Common.Text.{◌==◌, is_blank, eq_of_==, ==_refl, ==_comm}
use aidean_fleet.Common.Outcome.{Result, ok}
use aidean_fleet.Common.Keys.{HasDistinctKeys, HasDistinctKeys-find?, is_in-keys, All-zip}
use aidean_fleet.Common.Sorted.{count-order_by, All-order_by}
use aidean_fleet.Tasks.States.{State, can_transition, transitions}
use aidean_fleet.Tasks.Store.{
  Task, Store, has_task_id, moved, list_tasks, created_first, in_project,
}
use aidean_fleet.Tasks.Moves.{transition_and_log_returns}
use aidean_fleet.Rel.RetryTimer.{
  Watch, rel, Row, Moment, unreadable, naive, aware, ScanError, first_text, text_or_none,
  step_after, doing_anchor, raw_start, from_tasks, Scanned, Step, leave, mark, escalate, is_doing,
  elapsed_of, step_of_elapsed, step_of, stuck_fields, stuck, stuck_escalated, marked_stuck,
  escalated_blocked, take_step, scan_each, scan,
}

doing_can_block :
    (state : State) → is_doing state ≡ true → can_transition state State.blocked ≡ true
unfolding can_transition transitions
doing_can_block state e = ground (arith, e)

abbrev or_else : Option String → Option String → Option String
or_else none t = t
or_else (some s) t = some s

-- the time of the last event task:doing of the task
abbrev pub last_doing : List Row → String → Option String
last_doing [] i = none
last_doing (r ∷ rows) i =
    or_else (last_doing rows i)
      (if r.action == "task:doing" && r.task_id == i then some r.timestamp else none)

abbrev is_naive : Moment → Bool
is_naive naive = true
is_naive _ = false

or_else_assoc : (a b c : Option String) → or_else (or_else a b) c ≡ or_else a (or_else b c)
or_else_assoc none b c = refl
or_else_assoc (some s) b c = refl

or_else-none : (a : Option String) → or_else a none ≡ a
or_else-none none = refl
or_else-none (some s) = refl

doing_anchor-last_doing :
    (rows : List Row) (i : String) (time : Option String) (seq : ℕ)
    → (doing_anchor rows i time seq).0 ≡ or_else (last_doing rows i) time
unfolding doing_anchor
doing_anchor-last_doing [] i time seq = refl
doing_anchor-last_doing (r ∷ rows) i time seq =
    elim (Bool-cases (r.action == "task:doing" && r.task_id == i)) [
      | inl found ↦ rw found (
          doing_anchor-last_doing rows i (some r.timestamp) r.seq
          ∙ sym (or_else_assoc (last_doing rows i) (some r.timestamp) time))
      | inr other ↦ rw other (
          doing_anchor-last_doing rows i time seq
          ∙ sym (or_else_assoc (last_doing rows i) none time))
    ]

module _ (w : Watch) where
  -- the text of the date from which a task is DOING
  abbrev pub start_text : Task → String
  start_text t =
      first_text (text_or_none (last_doing w.rows t.task_id)) (first_text t.updated_at t.created_at)

  raw_start-start_text : (t : Task) → raw_start w t ≡ start_text t
  unfolding raw_start
  raw_start-start_text t =
      ap (λ time. first_text (text_or_none time) (first_text t.updated_at t.created_at))
        (doing_anchor-last_doing w.rows t.task_id none 0
          ∙ or_else-none (last_doing w.rows t.task_id))

rel_has_name : is_blank "rel" ≡ false
unfolding is_blank
rel_has_name = refl

module _ (w : Watch) where
  abbrev is_escalated : Result ScanError (Step w) → Bool
  is_escalated (ok (escalate elapsed)) = true
  is_escalated _ = false

  -- only a task that is DOING is escalated
  escalated_is_doing :
      (t : Task) → is_escalated (step_of w t) ≡ true → is_doing t.exec_status ≡ true
  unfolding step_of
  escalated_is_doing t e = elim (Bool-cases (is_doing t.exec_status)) [
    | inl doing ↦ doing
    | inr idle ↦ cc (rw (idle, step_of) at e)
  ]

  abbrev pub IsBlocked : Store → Task → Type 0
  IsBlocked s t =
      (u : Task) × (find? (has_task_id t.task_id) s.tasks ≡ some u)
      × (u.exec_status ≡ State.blocked)
      × (u.blocked_reason ≡ "stuck_timeout")

  abbrev IsStored : Store → Task → Type 0
  IsStored s t = find? (has_task_id t.task_id) s.tasks ≡ some t

  abbrev IsOnce : List Task → Type 0
  IsOnce tasks = (x : String) → count (has_task_id x) tasks ≤ 1

  -- what a round leaves
  record IsStepped (t : Task) (s s' : Store) : Type 0 where
    blocked : is_escalated (step_of w t) ≡ true → IsBlocked s' t
    others :
        (j : String)
        → (t.task_id == j) ≡ false
        → find? (has_task_id j) s'.tasks ≡ find? (has_task_id j) s.tasks

  abbrev Steps : Task → Scanned → Step w → Type 0
  Steps t s step = (s' : Scanned) × (take_step w t step s ≡ ok s') × IsStepped t s.store s'.store

  take_step-IsStepped :
      (t : Task) (s : Scanned) (step : Step w)
      → step_of w t ≡ ok step
      → IsStored s.store t
      → Steps t s step
  unfolding take_step from_tasks
  take_step-IsStepped t s leave e stored =
      (s, refl, record { blocked = λ h. cc (rw e at h); others = λ j other. refl })
  take_step-IsStepped t s (mark elapsed) e stored = (
    record s {
      notices = s.notices ++ stuck t.task_id elapsed ∷ [];
      actions = s.actions ++ marked_stuck t.task_id elapsed ∷ [];
    },
    refl,
    record { blocked = λ h. cc (rw e at h); others = λ j other. refl },
  )
  take_step-IsStepped t s (escalate elapsed) e stored =
      let doing = escalated_is_doing t (rw e refl) in
      let (r, at, own, others) =
        transition_and_log_returns w.stamp t.task_id State.blocked (rel w t.task_id elapsed)
          (stuck_fields w) s.store t rel_has_name stored (doing_can_block t.exec_status doing) in
      (
        record s {
          store = r.1;
          notices = s.notices ++ stuck_escalated t.task_id elapsed ∷ [];
          actions = s.actions ++ escalated_blocked t.task_id elapsed ∷ [];
        },
        rw at refl,
        record {
          blocked = λ h. (moved w.stamp State.blocked (stuck_fields w) t, own, refl, refl);
          others = others;
        },
      )

  -- a date that the clock can be compared with, where the task is DOING
  abbrev pub HasZone : Task → Type 0
  HasZone t = is_doing t.exec_status ≡ true → is_naive (w.from_iso (start_text w t)) ≡ false

  step_of_returns : (t : Task) → HasZone t → (step : Step w) × (step_of w t ≡ ok step)
  unfolding step_of elapsed_of
  step_of_returns t zone = elim (Bool-cases (is_doing t.exec_status)) [
    | inr idle ↦ (leave, rw (idle, step_of) refl)
    | inl doing ↦
        by_moment (w.from_iso (raw_start w t)) refl
          (subst (λ x. is_naive (w.from_iso x) ≡ false) (sym (raw_start-start_text w t))
            (zone doing))
          doing
  ]
    where
      by_moment :
          (m : Moment)
          → w.from_iso (raw_start w t) ≡ m
          → is_naive (w.from_iso (raw_start w t)) ≡ false
          → is_doing t.exec_status ≡ true
          → (step : Step w) × (step_of w t ≡ ok step)
      by_moment unreadable e zone doing = (step_after w t none, rw (doing, elapsed_of, e) refl)
      by_moment naive e zone doing = cc (rw e at zone)
      by_moment (aware started) e zone doing =
          (step_after w t (some (w.now - started)), rw (doing, elapsed_of, e) refl)

  record IsScanned (tasks : List Task) (s s' : Store) : Type 0 where
    all_blocked : All (λ t. is_escalated (step_of w t) ≡ true → IsBlocked s' t) tasks
    others :
        (j : String)
        → any (has_task_id j) tasks ≡ false
        → find? (has_task_id j) s'.tasks ≡ find? (has_task_id j) s.tasks

  -- a task that stands first does not stand again
  first_once :
      (t : Task) (tasks : List Task)
      → IsOnce (t ∷ tasks)
      → any (has_task_id t.task_id) tasks ≡ false
  first_once t tasks once =
      let one = once t.task_id in let self = ==_refl t.task_id in no_count tasks (ground arith)
    where
      no_count :
          (rest : List Task)
          → count (has_task_id t.task_id) rest ≤ 0
          → any (has_task_id t.task_id) rest ≡ false
      no_count [] l = refl
      no_count (u ∷ rest) l = ground (arith, no_count rest)

  others_differ :
      (i : String) (tasks : List Task)
      → any (has_task_id i) tasks ≡ false
      → All (λ u. (i == u.task_id) ≡ false) tasks
  others_differ i [] e = tt
  others_differ i (u ∷ tasks) e =
      (==_comm i u.task_id ∙ ground arith, others_differ i tasks (ground arith))

  scan_each-IsScanned :
      (n : ℕ) (tasks : List Task) (s : Scanned)
      → ((k : ℕ) (store : Store) → w.meanwhile k store ≡ store)
      → All HasZone tasks
      → IsOnce tasks
      → All (IsStored s.store) tasks
      → (s' : Scanned) × (scan_each w n tasks s ≡ ok s') × IsScanned tasks s.store s'.store
  unfolding scan_each
  scan_each-IsScanned n [] s alone_here zones once stored =
      (s, refl, record { all_blocked = tt; others = λ j e. refl })
  scan_each-IsScanned n (t ∷ tasks) s alone_here zones once stored =
      let (step, step_at) = step_of_returns t zones.0 in
      let (s1, at, stepped) = take_step-IsStepped t s step step_at stored.0 in
      let alone = first_once t tasks once in
      let (s2, rest_at, scanned) =
        scan_each-IsScanned (suc n) tasks s1 alone_here zones.1
          (λ x. let l = once x in omega (arith, l))
          (All-map (λ u (kept, other). stepped.others u.task_id other ∙ kept) tasks
            (All-zip (IsStored s.store) (λ u. (t.task_id == u.task_id) ≡ false) tasks stored.1
              (others_differ t.task_id tasks alone))) in
      (
        s2,
        rw (step_at, alone_here n s.store, at) rest_at,
        record {
          all_blocked = (
            λ h.
                let (u, found, state, reason) = stepped.blocked h in
                (u, scanned.others t.task_id alone ∙ found, state, reason),
            scanned.all_blocked,
          );
          others = λ j e. scanned.others j (ground arith) ∙ stepped.others j (ground arith);
        },
      )

  list_tasks-IsOnce :
      (project : Option String) (s : Store)
      → HasDistinctKeys (λ t. t.task_id) s.tasks
      → IsOnce (list_tasks project s)
  unfolding list_tasks
  list_tasks-IsOnce project s h x =
      rw (count-order_by created_first (has_task_id x) (filter (in_project project) s.tasks))
        (of_distinct s.tasks h)
    where
      none_there :
          (rows : List Task)
          → any (has_task_id x) rows ≡ false
          → count (has_task_id x) (filter (in_project project) rows) ≡ 0
      none_there [] e = refl
      none_there (t ∷ rows) e = elim (Bool-cases (in_project project t)) [
        | inl listed ↦ rw listed (ground (arith, none_there rows))
        | inr other ↦ rw other (none_there rows (ground arith))
      ]

      of_distinct :
          (rows : List Task)
          → HasDistinctKeys (λ t. t.task_id) rows
          → count (has_task_id x) (filter (in_project project) rows) ≤ 1
      of_distinct [] h = omega arith
      of_distinct (t ∷ rows) h = elim (Bool-cases (in_project project t)) [
        | inr other ↦ rw other (of_distinct rows h.1)
        | inl listed ↦ elim (Bool-cases (t.task_id == x)) [
          | inr differs ↦ rw (listed, differs) (omega (arith, of_distinct rows h.1))
          | inl same ↦
              let gone : any (has_task_id x) rows ≡ false =
                subst (λ z. any (has_task_id z) rows ≡ false) (eq_of_== t.task_id x same)
                  (sym (is_in-keys (λ u. u.task_id) t.task_id rows) ∙ h.0) in
              rw (listed, same) (omega (arith, none_there rows gone))
        ]
      ]

  list_tasks-IsStored :
      (project : Option String) (s : Store)
      → HasDistinctKeys (λ t. t.task_id) s.tasks
      → All (IsStored s) (list_tasks project s)
  unfolding list_tasks
  list_tasks-IsStored project s h =
      All-order_by (IsStored s) created_first (filter (in_project project) s.tasks) (
        All-map (λ t k. k.0) (filter (in_project project) s.tasks)
          (All-filter (IsStored s) (in_project project) s.tasks
            (HasDistinctKeys-find? (λ t. t.task_id) s.tasks h)))

  -- the task is DOING since a moment that is twice the limit back at least
  pub record IsOverdue (t : Task) : Type 0 where
    pub doing : is_doing t.exec_status ≡ true
    pub started : ℕ
    pub told : w.from_iso (start_text w t) ≡ aware started
    pub long : started + w.limit * 2 ≤ w.now

  overdue_is_escalated : (t : Task) → 1 ≤ w.limit → IsOverdue t → is_escalated (step_of w t) ≡ true
  unfolding step_of elapsed_of step_of_elapsed
  overdue_is_escalated t positive e =
      let told : w.from_iso (raw_start w t) ≡ aware e.started =
        ap w.from_iso (raw_start-start_text w t) ∙ e.told in
      let l = e.long in
      let late : ltb (w.now - e.started) w.limit ≡ false = ground (arith, l, positive) in
      let long : leb (w.limit * 2) (w.now - e.started) ≡ true = ground (arith, l) in
      rw (e.doing, elapsed_of, told, late, long) refl

  -- A scan does not raise where the names of the tasks are distinct, the limit is positive, nobody else
  -- changes the tasks meanwhile, and the date from which each listed task is DOING has a time zone or is
  -- unreadable. Behind it every listed task that is DOING for twice the limit at least, counted from its
  -- last event task:doing, or else from its last change, is BLOCKED with the reason "stuck_timeout".
  pub scan-IsBlocked :
      (project : Option String) (s : Store)
      → HasDistinctKeys (λ t. t.task_id) s.tasks
      → 1 ≤ w.limit
      → ((n : ℕ) (store : Store) → w.meanwhile n store ≡ store)
      → All HasZone (list_tasks project s)
      → (out : Scanned) × (scan w project s ≡ ok out)
        × All (λ t. IsOverdue t → IsBlocked out.store t) (list_tasks project s)
  unfolding scan
  scan-IsBlocked project s h positive alone zones =
      let (out, at, scanned) =
        scan_each-IsScanned 0 (list_tasks project s)
          record { store = s; notices = []; actions = [] } alone zones
          (list_tasks-IsOnce project s h) (list_tasks-IsStored project s h) in
      (
        out,
        at,
        All-map (λ t k e. k (overdue_is_escalated t positive e)) (list_tasks project s)
            scanned.all_blocked,
      )

-- ===== src/Manager/Offers.antt =====
-- What `get_ready_tasks` hands out.
use aidean_fleet.Common.{
  ◌≡◌, refl, ◌∙◌, sym, ap, inl, inr, Bool, true, not, ◌&&◌, List, [], ◌∷◌, ◌++◌, map, String,
  if◌then◌else◌, any, filter, is_empty, Bool-cases,
}
use aidean_fleet.Common.Text.{precedes}
use aidean_fleet.Common.Sorted.{order_by, any-order_by}
use aidean_fleet.Common.{Option}
use aidean_fleet.Planner.Json.{Value}
use aidean_fleet.Manager.Ready.{
  dependencies_of, Row, Memory, Found, is_assigned, is_doing, deps_ok, allowed_patterns,
  is_unrestricted, ranges_conflict, find_blockers, doing_of, offer, offer_each, get_ready_tasks,
}

module _ (fnmatch : String → String → Bool) (loads : String → Option Value) (show : Value → String)
    (project : String) where
  -- the ranges of two tasks may write to one file, where not both are without limits
  abbrev pub blocks : Row → Row → Bool
  blocks task other =
      not (is_unrestricted (allowed_patterns task) && is_unrestricted (allowed_patterns other))
      && ranges_conflict fnmatch loads show project (allowed_patterns task) (allowed_patterns other)

  -- the tests of `get_ready_tasks` on a task, in one; Readiness says what they ask
  abbrev pub is_ready : List Row → Row → Bool
  is_ready tasks task =
      is_assigned task.exec_status
      && deps_ok tasks (dependencies_of fnmatch loads show project task)
      && not (any (λ other. is_doing other.exec_status && blocks task other) tasks)

  find_blockers-blocks :
      (task : Row) (doing : List Row) (m : Memory)
      → (find_blockers fnmatch loads show project task doing m).0
        ≡ map (λ t. t.task_id) (filter (blocks task) doing)
  unfolding find_blockers
  find_blockers-blocks task [] m = refl
  find_blockers-blocks task (other ∷ doing) m =
      elim (Bool-cases
        (is_unrestricted (allowed_patterns task) && is_unrestricted (allowed_patterns other))) [
          | inl free ↦ rw (free) (find_blockers-blocks task doing _)
          | inr limited ↦
              elim (Bool-cases (
                ranges_conflict fnmatch loads show project (allowed_patterns task)
                  (allowed_patterns other))) [
                    | inl meets ↦
                        rw (limited, meets)
                          (ap (λ ids. other.task_id ∷ ids) (find_blockers-blocks task doing m))
                    | inr apart ↦ rw (limited, apart) (find_blockers-blocks task doing m)
                  ]
        ]

  is_empty-any {ℓ} : {A : Type ℓ} (xs : List A) → is_empty xs ≡ not (any (λ x. true) xs)
  is_empty-any [] = refl
  is_empty-any (x ∷ xs) = refl

  is_empty-blockers :
      (task : Row) (tasks : List Row)
      → is_empty
          (map (λ t. t.task_id) (filter (blocks task) (doing_of fnmatch loads show project tasks)))
        ≡ not (any (λ other. is_doing other.exec_status && blocks task other) tasks)
  is_empty-blockers task [] = refl
  is_empty-blockers task (other ∷ tasks) = elim (Bool-cases (is_doing other.exec_status)) [
    | inr idle ↦ rw idle (is_empty-blockers task tasks)
    | inl doing ↦ elim (Bool-cases (blocks task other)) [
      | inl meets ↦ rw (doing, meets) refl
      | inr apart ↦ rw (doing, apart) (is_empty-blockers task tasks)
    ]
  ]

  -- no blocker is found exactly where no task being done blocks
  no_blocker :
      (task : Row) (tasks : List Row) (m : Memory)
      → is_empty (
          order_by precedes
            (find_blockers fnmatch loads show project task
              (doing_of fnmatch loads show project tasks)
              m).0)
        ≡ not (any (λ other. is_doing other.exec_status && blocks task other) tasks)
  no_blocker task tasks m =
      let found =
        (find_blockers fnmatch loads show project task (doing_of fnmatch loads show project tasks)
          m).0 in
      is_empty-any (order_by precedes found)
      ∙ ap not (any-order_by precedes (λ x. true) found)
      ∙ sym (is_empty-any found)
      ∙ ap is_empty (find_blockers-blocks task (doing_of fnmatch loads show project tasks) m)
      ∙ is_empty-blockers task tasks

  append_assoc {ℓ} :
      {A : Type ℓ} (xs : List A) (y : A) (ys : List A) → (xs ++ y ∷ []) ++ ys ≡ xs ++ y ∷ ys
  append_assoc [] y ys = refl
  append_assoc (x ∷ xs) y ys = ap (λ zs. x ∷ zs) (append_assoc xs y ys)

  append-nil {ℓ} : {A : Type ℓ} (xs : List A) → xs ++ [] ≡ xs
  append-nil [] = refl
  append-nil (x ∷ xs) = ap (λ zs. x ∷ zs) (append-nil xs)

  offer-ready :
      (tasks : List Row) (task : Row) (f : Found fnmatch loads show project)
      → (offer fnmatch loads show project tasks task f).ready
        ≡ f.ready
          ++ (if not (any (λ other. is_doing other.exec_status && blocks task other) tasks)
              then task ∷ []
              else [])
  unfolding offer
  offer-ready tasks task f =
      let blockers = no_blocker task tasks f.memory in
      elim (Bool-cases (any (λ other. is_doing other.exec_status && blocks task other) tasks)) [
        | inl blocked ↦ rw (blockers, blocked) (sym (append-nil f.ready))
        | inr clear ↦ rw (blockers, clear) refl
      ]

  offer_each-ready :
      (tasks rest : List Row) (f : Found fnmatch loads show project)
      → (offer_each fnmatch loads show project tasks rest f).ready
        ≡ f.ready ++ filter (is_ready tasks) rest
  unfolding offer_each
  offer_each-ready tasks [] f = sym (append-nil f.ready)
  offer_each-ready tasks (task ∷ rest) f =
      let able =
        is_assigned task.exec_status
        && deps_ok tasks (dependencies_of fnmatch loads show project task) in
      let clear = not (any (λ other. is_doing other.exec_status && blocks task other) tasks) in
      elim (Bool-cases able) [
        | inr unable ↦ rw unable (offer_each-ready tasks rest f)
        | inl able ↦
            let one = offer-ready tasks task f in
            let more =
              offer_each-ready tasks rest (offer fnmatch loads show project tasks task f) in
            elim (Bool-cases clear) [
              | inl free ↦
                  rw (able, free)
                    (more
                      ∙ ap (λ xs. xs ++ filter (is_ready tasks) rest) (rw free at one)
                      ∙ append_assoc f.ready task (filter (is_ready tasks) rest))
              | inr held ↦
                  rw (able, held)
                    (more
                      ∙ ap (λ xs. xs ++ filter (is_ready tasks) rest)
                          (rw held at one ∙ append-nil f.ready))
            ]
      ]

  -- The tasks that may be handed out are, in their order, those that are ASSIGNED, whose dependencies
  -- are done or have a successor that is, and that no task being done blocks; what was remembered and
  -- written before has no say.
  pub get_ready_tasks-is_ready :
      (tasks : List Row) (m : Memory)
      → (get_ready_tasks fnmatch loads show project tasks m).0 ≡ filter (is_ready tasks) tasks
  unfolding get_ready_tasks
  get_ready_tasks-is_ready tasks m =
      offer_each-ready tasks tasks record { ready = []; conflicting = []; memory = m }

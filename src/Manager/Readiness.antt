-- ===== src/Manager/Readiness.antt =====
-- What a task that `get_ready_tasks` of fleet/manager/dag.py hands out must meet, said without the
-- functions that it calls.
use aidean_fleet.Common.{
  ◌≡◌, refl, ◌↔◌, ◌⊎◌, inl, inr, Bool, true, false, ◌&&◌, ◌||◌, List, [], ◌∷◌, Option, some, String,
  any, all, filter, find?, is_empty, All, Bool-cases, Option-cases, arith, if◌then◌else◌,
}
use aidean_fleet.Common.Text.{◌==◌, append, starts_with}
use aidean_fleet.Planner.Json.{Value}
use aidean_fleet.Gates.Patterns.{parse_patterns}
use aidean_fleet.Manager.Ready.{
  dependencies_of, Row, Memory, is_assigned, is_doing, is_done, dep_done, successor_chain_done,
  deps_ok, allowed_patterns, is_unrestricted, ranges_conflict, get_ready_tasks,
}
use aidean_fleet.Manager.Offers.{blocks, is_ready, get_ready_tasks-is_ready}

-- one of the elements has the property
abbrev pub Some : {A : Type 0} → (A → Type 0) → List A → Type 0
Some P [] = ⊥
Some P (x ∷ xs) = P x ⊎ Some P xs

module _ {A : Type 0} (p : A → Bool) (P : A → Type 0) (h : (x : A) → (p x ≡ true) ↔ P x) where
  all_iff : (xs : List A) → (all p xs ≡ true) ↔ All P xs
  all_iff [] = (λ e. tt, λ k. refl)
  all_iff (x ∷ xs) = (
    λ e. ((h x).0 (ground arith), (all_iff xs).0 (ground arith)),
    λ k. rw ((h x).1 k.0, (all_iff xs).1 k.1) refl,
  )

  any_iff : (xs : List A) → (any p xs ≡ true) ↔ Some P xs
  any_iff [] = (λ e. cc e, λ k. absurd k)
  any_iff (x ∷ xs) = elim (Bool-cases (p x)) [
    | inl holds ↦ rw holds (λ e. inl ((h x).0 holds), λ k. refl)
    | inr fails ↦ rw fails (
      λ e. inr ((any_iff xs).0 e),
      λ k. elim k [ inl now ↦ cc ((h x).1 now, fails) | inr later ↦ (any_iff xs).1 later ],
    )
  ]

none_iff :
    {A : Type 0} (p : A → Bool) (P : A → Type 0)
    → ((x : A) → (p x ≡ false) ↔ P x)
    → (xs : List A) → (any p xs ≡ false) ↔ All P xs
none_iff p P h [] = (λ e. tt, λ k. refl)
none_iff p P h (x ∷ xs) = (
  λ e. ((h x).0 (ground arith), (none_iff p P h xs).0 (ground arith)),
  λ k. rw ((h x).1 k.0) ((none_iff p P h xs).1 k.1),
)

-- the file patterns of a task, or one star if it names none
abbrev pub range_of : Row → List String
range_of t = elim (parse_patterns t.allowed_files) [ [] ↦ "*" ∷ [] | p ∷ ps ↦ p ∷ ps ]

-- the first task of the name is done, or some task is whose name goes on with -R
abbrev pub IsMet : List Row → String → Type 0
IsMet tasks dep =
    ((u : Row) × (find? (λ t. t.task_id == dep) tasks ≡ some u) × (is_done u.exec_status ≡ true))
    ⊎ Some (λ u. (starts_with (append dep "-R") u.task_id ≡ true) × (is_done u.exec_status ≡ true))
        tasks

abbrev pub AllStars : List String → Type 0
AllStars ps = All (λ p. (p == "*") ≡ true) ps

allowed_patterns-range_of : (t : Row) → allowed_patterns t ≡ range_of t
unfolding allowed_patterns
allowed_patterns-range_of t = by_patterns (parse_patterns t.allowed_files)
  where
    by_patterns :
        (ps : List String)
        → (if is_empty ps then "*" ∷ [] else ps) ≡ (elim ps [ [] ↦ "*" ∷ [] | p ∷ qs ↦ p ∷ qs ])
    by_patterns [] = refl
    by_patterns (p ∷ ps) = refl

range_of-some : (t : Row) → is_empty (range_of t) ≡ false
range_of-some t = by_patterns (parse_patterns t.allowed_files)
  where
    by_patterns :
        (ps : List String)
        → is_empty {A = String} (elim ps [ [] ↦ "*" ∷ [] | p ∷ qs ↦ p ∷ qs ]) ≡ false
    by_patterns [] = refl
    by_patterns (p ∷ ps) = refl

unrestricted_iff : (t : Row) → (is_unrestricted (allowed_patterns t) ≡ true) ↔ AllStars (range_of t)
unfolding is_unrestricted
unrestricted_iff t =
    let stars =
      all_iff (λ p. p == "*") (λ p. (p == "*") ≡ true) (λ p. (λ e. e, λ e. e)) (range_of t) in
    rw (allowed_patterns-range_of t, range_of-some t) (λ e. stars.0 e, λ k. stars.1 k)

module _ (tasks : List Row) where
  done_iff :
      (dep : String)
      → (dep_done tasks dep ≡ true) ↔ (
          (u : Row) × (find? (λ t. t.task_id == dep) tasks ≡ some u)
          × (is_done u.exec_status ≡ true))
  unfolding dep_done
  done_iff dep = elim (Option-cases (find? (λ t. t.task_id == dep) tasks)) [
    | inl missing ↦ rw missing (λ e. cc e, λ k. cc k.1)
    | inr (u, found) ↦ (λ e. (u, found, rw (found, dep_done) at e), λ k. rw (k.1, dep_done) k.2)
  ]

  IsMet-iff :
      (dep : String)
      → ((dep_done tasks dep || successor_chain_done tasks dep) ≡ true) ↔ IsMet tasks dep
  unfolding successor_chain_done
  IsMet-iff dep =
      let chain =
        any_iff (λ t. starts_with (append dep "-R") t.task_id && is_done t.exec_status)
          (λ u. (starts_with (append dep "-R") u.task_id ≡ true) × (is_done u.exec_status ≡ true))
          (λ u. (λ e. (ground arith, ground arith), λ k. rw (k.0, k.1) refl)) tasks in
      (
        λ e. elim (Bool-cases (dep_done tasks dep)) [
          | inl done ↦ inl ((done_iff dep).0 done)
          | inr waits ↦ inr (chain.0 (rw waits at e))
        ],
        λ k. elim k [
          | inl done ↦ rw ((done_iff dep).1 done) refl
          | inr later ↦ rw (chain.1 later) (ground arith)
        ],
      )

  deps_iff : (deps : List String) → (deps_ok tasks deps ≡ true) ↔ All (IsMet tasks) deps
  unfolding deps_ok
  deps_iff = all_iff _ (IsMet tasks) IsMet-iff

module _ (fnmatch : String → String → Bool) (loads : String → Option Value) (show : Value → String)
    (project : String) where
  -- no pattern of the one matches a pattern of the other
  abbrev pub IsDisjoint : List String → List String → Type 0
  IsDisjoint ps qs = All (λ a. All (λ b. (fnmatch a b ≡ false) × (fnmatch b a ≡ false)) qs) ps

  -- two tasks that may run side by side: neither has limits, or their patterns are disjoint
  abbrev pub IsCompatible : Row → Row → Type 0
  IsCompatible task other =
      (AllStars (range_of task) × AllStars (range_of other))
      ⊎ IsDisjoint (range_of task) (range_of other)

  pub record IsReady (tasks : List Row) (task : Row) : Type 0 where
    pub assigned : is_assigned task.exec_status ≡ true
    pub dependencies_met : All (IsMet tasks) (dependencies_of fnmatch loads show project task)
    pub apart : All (λ u. is_doing u.exec_status ≡ true → IsCompatible task u) tasks

  IsDisjoint-iff :
      (ps qs : List String)
      → (ranges_conflict fnmatch loads show project ps qs ≡ false) ↔ IsDisjoint ps qs
  unfolding ranges_conflict
  IsDisjoint-iff ps qs =
      none_iff _ _
        (λ a.
          none_iff (λ b. fnmatch a b || fnmatch b a)
            (λ b. (fnmatch a b ≡ false) × (fnmatch b a ≡ false))
            (λ b. (λ e. (ground arith, ground arith), λ k. rw (k.0, k.1) refl)) qs)
        ps

  IsCompatible-iff :
      (task other : Row)
      → (blocks fnmatch loads show project task other ≡ false) ↔ IsCompatible task other
  IsCompatible-iff task other =
      let free = unrestricted_iff task in
      let unlimited = unrestricted_iff other in
      let apart = IsDisjoint-iff (range_of task) (range_of other) in
      let same = allowed_patterns-range_of task in
      let range = allowed_patterns-range_of other in
      (
        λ e.
            elim (Bool-cases (
              is_unrestricted (allowed_patterns task)
              && is_unrestricted (allowed_patterns other))) [
                | inl both ↦ inl (free.0 (ground arith), unlimited.0 (ground arith))
                | inr limited ↦ inr (apart.0 (rw (limited, same, range) at e))
              ],
        λ k. elim k [
          | inl stars ↦ rw (free.1 stars.0, unlimited.1 stars.1) refl
          | inr clear ↦ rw (same, range, apart.1 clear) (ground arith)
        ],
      )

  IsReady-iff :
      (tasks : List Row) (task : Row)
      → (is_ready fnmatch loads show project tasks task ≡ true) ↔ IsReady tasks task
  IsReady-iff tasks task =
      let deps = deps_iff tasks (dependencies_of fnmatch loads show project task) in
      let clear =
        none_iff (λ u. is_doing u.exec_status && blocks fnmatch loads show project task u)
          (λ u. is_doing u.exec_status ≡ true → IsCompatible task u)
          (λ u. (
            λ e doing. (IsCompatible-iff task u).0 (rw doing at e),
            λ k. elim (Bool-cases (is_doing u.exec_status)) [
              | inl doing ↦ rw (doing, (IsCompatible-iff task u).1 (k doing)) refl
              | inr idle ↦ rw idle refl
            ],
          ))
          tasks in
      (
        λ e. record {
          assigned = ground arith;
          dependencies_met = deps.0 (ground arith);
          apart = clear.0 (ground arith);
        },
        λ k. rw (k.assigned, deps.1 k.dependencies_met, clear.1 k.apart) refl,
      )

  -- The tasks handed out are a selection of the list in its order, and a task of the list is selected
  -- exactly where it is ASSIGNED; for each dependency, the first task of that name is DONE, or some
  -- task is whose name begins with it and -R; and for each task that is DOING, both have no limits, or
  -- no file pattern of the one matches one of the other. What was remembered and written before has no
  -- say.
  pub get_ready_tasks-IsReady :
      (tasks : List Row) (m : Memory)
      → ((get_ready_tasks fnmatch loads show project tasks m).0
          ≡ filter (is_ready fnmatch loads show project tasks) tasks)
        × All (λ t. (is_ready fnmatch loads show project tasks t ≡ true) ↔ IsReady tasks t) tasks
  get_ready_tasks-IsReady tasks m =
      (get_ready_tasks-is_ready fnmatch loads show project tasks m, everywhere tasks)
    where
      everywhere :
          (rows : List Row)
          → All (λ t. (is_ready fnmatch loads show project tasks t ≡ true) ↔ IsReady tasks t) rows
      everywhere [] = tt
      everywhere (t ∷ rows) = (IsReady-iff tasks t, everywhere rows)

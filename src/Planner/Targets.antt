-- ===== src/Planner/Targets.antt =====
-- What a change of plan that is submitted may touch.
use aidean_fleet.Common.{
  ◌≡◌, refl, inl, inr, true, false, ◌&&◌, List, [], ◌∷◌, ◌++◌, none, some, String, or_else, filter,
  find?, is_empty, All, All-find, Bool-cases, Option-cases,
}
use aidean_fleet.Common.Text.{◌==◌}
use aidean_fleet.Common.Sorted.{All-order_by}
use aidean_fleet.Kernel.State.{is_settled}
use aidean_fleet.Kernel.Tables.{Todo, Db, ModifySpec, PlanDiff}
use aidean_fleet.Kernel.Reads.{comes_before}
use aidean_fleet.Kernel.Steer.{has_fields}
use aidean_fleet.Kernel.Views.{todos, goal_allows}
use aidean_fleet.Planner.Steer.{Problem, known, check_cancel, check_modify, each, validate_diff}

-- a todo of the goal, not the one that steers, neither done nor superseded
pub record IsTarget (goal_id self_id : String) (db : Db) (tid : String) : Type 0 where
  pub other : (tid == self_id) ≡ false
  pub row : Todo
  pub found : find? (λ t. t.id == tid) (todos (some goal_id) none db) ≡ some row
  pub in_goal : goal_allows (some goal_id) row ≡ true
  pub unsettled : is_settled row.status ≡ false

-- what a change may name
pub record IsTargeted (goal_id self_id : String) (db : Db) (diff : PlanDiff) : Type 0 where
  pub cancels : All (IsTarget goal_id self_id db) diff.cancel
  pub modifies :
      All
        (λ m. IsTarget goal_id self_id db (or_else m.todo_id "") × (has_fields m ≡ true))
        diff.modify

nothing_left {ℓ} :
    {A : Type ℓ} (xs ys : List A)
    → is_empty (xs ++ ys) ≡ true
    → (is_empty xs ≡ true) × (is_empty ys ≡ true)
nothing_left [] ys e = (refl, e)
nothing_left (x ∷ xs) ys e = cc e

each-All {ℓ κ} :
    {A : Type ℓ} (check : A → List Problem) (P : A → Type κ)
    → ((x : A) → is_empty (check x) ≡ true → P x)
    → (xs : List A) → is_empty (each check xs) ≡ true
    → All P xs
unfolding each
each-All check P one [] e = tt
each-All check P one (x ∷ xs) e =
    let (here, rest) = nothing_left (check x) (each check xs) e in
    (one x here, each-All check P one xs rest)

All-allowed :
    (goal_id : String) (rows : List Todo)
    → All
        (λ t. goal_allows (some goal_id) t ≡ true)
        (filter (λ t. goal_allows (some goal_id) t && true) rows)
All-allowed goal_id [] = tt
All-allowed goal_id (t ∷ rows) = elim (Bool-cases (goal_allows (some goal_id) t)) [
  | inl mine ↦ rw mine (mine, All-allowed goal_id rows)
  | inr other ↦ rw other (All-allowed goal_id rows)
]

All-todos :
    (goal_id : String) (db : Db)
    → All (λ t. goal_allows (some goal_id) t ≡ true) (todos (some goal_id) none db)
unfolding todos
All-todos goal_id db =
    All-order_by (λ t. goal_allows (some goal_id) t ≡ true) comes_before
      (filter (λ t. goal_allows (some goal_id) t && true) db.todos) (All-allowed goal_id db.todos)

module _ (goal_id self_id : String) (db : Db) where
  found_target :
      (tid : String) (row : Todo)
      → known goal_id self_id tid db ≡ some row
      → is_settled row.status ≡ false
      → IsTarget goal_id self_id db tid
  unfolding known
  found_target tid row e unsettled = elim (Bool-cases (tid == self_id)) [
    | inl own ↦ cc (rw own at e)
    | inr other ↦
        let at : find? (λ t. t.id == tid) (todos (some goal_id) none db) ≡ some row =
          rw other at e in
        record {
          other = other;
          row = row;
          found = at;
          in_goal =
              All-find (λ t. goal_allows (some goal_id) t ≡ true) (λ t. t.id == tid)
                (todos (some goal_id) none db) (All-todos goal_id db) at;
          unsettled = unsettled;
        }
  ]

  cancel_target :
      (tid : String)
      → is_empty (check_cancel tid (known goal_id self_id tid db)) ≡ true
      → IsTarget goal_id self_id db tid
  unfolding check_cancel
  cancel_target tid e = elim (Option-cases (known goal_id self_id tid db)) [
    | inl missing ↦ cc (rw missing at e)
    | inr (row, at) ↦ elim (Bool-cases (is_settled row.status)) [
      | inl settled ↦ cc (rw (at, settled, check_cancel) at e)
      | inr unsettled ↦ found_target tid row at unsettled
    ]
  ]

  modify_target :
      (m : ModifySpec)
      → is_empty
          (check_modify m (or_else m.todo_id "") (known goal_id self_id (or_else m.todo_id "") db))
        ≡ true
      → IsTarget goal_id self_id db (or_else m.todo_id "") × (has_fields m ≡ true)
  unfolding check_modify
  modify_target m e = elim (Option-cases (known goal_id self_id (or_else m.todo_id "") db)) [
    | inl missing ↦ cc (rw missing at e)
    | inr (row, at) ↦ elim (Bool-cases (is_settled row.status)) [
      | inl settled ↦ cc (rw (at, settled, check_modify) at e)
      | inr unsettled ↦ elim (Bool-cases (has_fields m)) [
        | inl fields ↦ (found_target (or_else m.todo_id "") row at unsettled, fields)
        | inr bare ↦ cc (rw (at, unsettled, bare, check_modify) at e)
      ]
    ]
  ]

  -- A change without problems names for cancelling and modifying only todos of the goal that are neither
  -- done nor superseded, and not the one that steers.
  pub validate_diff-IsTargeted :
      (diff : PlanDiff)
      → is_empty (validate_diff goal_id self_id diff db) ≡ true
      → IsTargeted goal_id self_id db diff
  unfolding validate_diff
  validate_diff-IsTargeted diff e =
      let (cancels, rest) = nothing_left (each _ diff.cancel) _ e in
      let (modifies, adds) = nothing_left (each _ diff.modify) _ rest in
      record {
        cancels = each-All _ (IsTarget goal_id self_id db) cancel_target diff.cancel cancels;
        modifies =
            each-All _
              (λ m. IsTarget goal_id self_id db (or_else m.todo_id "") × (has_fields m ≡ true))
              modify_target diff.modify modifies;
      }

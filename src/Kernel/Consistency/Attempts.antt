-- ===== src/Kernel/Consistency/Attempts.antt =====
-- How the statements on attempts move the numbers of attempts of a todo, open and in all.
use aidean_fleet.Common.{
  ℕ, ◌+◌, ◌≡◌, refl, false, List, [], ◌∷◌, ◌++◌, none, some, String, count, update, arith,
}
use aidean_fleet.Kernel.Tables.{Attempt, Env}
use aidean_fleet.Kernel.Sql.{of_todo, is_open_for}
use aidean_fleet.Common.Text.{◌==◌, eq_of_==, ==_refl}
use aidean_fleet.Common.{count-append, count-update_same}

abbrev pub opens : String → List Attempt → ℕ
opens i rows = count (is_open_for i) rows

abbrev pub tries : String → List Attempt → ℕ
tries i rows = count (of_todo i) rows

-- a row that is written at the end
abbrev pub new_attempt : Env → String → String → String → ℕ → Attempt
new_attempt env i harness model n = record {
  id = n;
  todo_id = i;
  harness = harness;
  model = model;
  started_at = env.stamp;
  ended_at = none;
  exit_code = none;
  tokens_in = 0;
  tokens_out = 0;
  evidence_path = "";
  turn_result = "";
  session_id = "";
}

-- the change that `close_open_attempt` makes
abbrev pub closed : Env → String → Attempt → Attempt
closed env r a = record a { ended_at = some env.stamp; turn_result = r }

module _ (env : Env) (i : String) (rows : List Attempt) where
  pub opens-insert_self :
      (h m : String) (n : ℕ) → opens i (rows ++ new_attempt env i h m n ∷ []) ≡ opens i rows + 1
  opens-insert_self h m n =
      ground (arith, count-append (is_open_for i) rows (new_attempt env i h m n ∷ []), ==_refl i)

  pub tries-insert_self :
      (h m : String) (n : ℕ) → tries i (rows ++ new_attempt env i h m n ∷ []) ≡ tries i rows + 1
  tries-insert_self h m n =
      ground (arith, count-append (of_todo i) rows (new_attempt env i h m n ∷ []), ==_refl i)

  pub opens-insert_ne :
      (j h m : String) (n : ℕ)
      → (i == j) ≡ false
      → opens j (rows ++ new_attempt env i h m n ∷ []) ≡ opens j rows
  opens-insert_ne j h m n ne =
      ground (arith, count-append (is_open_for j) rows (new_attempt env i h m n ∷ []))

  pub tries-insert_ne :
      (j h m : String) (n : ℕ)
      → (i == j) ≡ false
      → tries j (rows ++ new_attempt env i h m n ∷ []) ≡ tries j rows
  tries-insert_ne j h m n ne =
      ground (arith, count-append (of_todo j) rows (new_attempt env i h m n ∷ []))

module _ (env : Env) (i r : String) where
  pub opens-close_self :
      (rows : List Attempt) → opens i (update (is_open_for i) (closed env r) rows) ≡ 0
  opens-close_self [] = refl
  opens-close_self (a ∷ rows) = ground (arith, opens-close_self rows)

  pub opens-close_ne :
      (j : String) (rows : List Attempt)
      → (i == j) ≡ false
      → opens j (update (is_open_for i) (closed env r) rows) ≡ opens j rows
  opens-close_ne j [] ne = refl
  opens-close_ne j (a ∷ rows) ne = ground (arith, opens-close_ne j rows ne, eq_of_== a.todo_id i)

  pub tries-close :
      (j : String) (rows : List Attempt)
      → tries j (update (is_open_for i) (closed env r) rows) ≡ tries j rows
  tries-close j rows =
      count-update_same (is_open_for i) (of_todo j) (closed env r) rows (λ a e. refl)

-- ===== src/Governance/Budget.antt =====
-- The three pools of fleet/governance/budget.py, and the statements of fleet/governance/store.py on
-- the table governance_budget. Tokens are not negative: for a negative number `consume_budgets`
-- raises before it writes. A limit of 0 stands for every limit that is not positive.
use aidean_fleet.Common.{
  ℕ, ◌+◌, ◌-◌, Bool, true, false, ◌&&◌, List, [], ◌∷◌, ◌++◌, Option, none, some, String,
  if◌then◌else◌, ltb, leb, or_else, any, find?, update,
}
use aidean_fleet.Common.Text.{◌==◌, is_blank}
use aidean_fleet.Common.Outcome.{Result, ok, err}

pub data Level : Type 0 where
  task project daily : Level

-- a row of governance_budget, and `BudgetLimit`
pub record BudgetLimit : Type 0 where
  pub level : Level
  pub scope : String
  pub limit_tokens : ℕ
  pub used_tokens : ℕ
  pub action : String

-- `remaining`
unfoldable pub remaining : BudgetLimit → ℕ
remaining b = b.limit_tokens - b.used_tokens

-- `is_exceeded`
unfoldable pub is_exceeded : BudgetLimit → Bool
is_exceeded b = ltb 0 b.limit_tokens && leb b.limit_tokens b.used_tokens

abbrev pub same_level : Level → Level → Bool
same_level Level.task Level.task = true
same_level Level.project Level.project = true
same_level Level.daily Level.daily = true
same_level _ _ = false

abbrev pub is_at : Level → String → BudgetLimit → Bool
is_at l s b = same_level b.level l && b.scope == s

-- DEFAULT_BUDGETS and DEFAULT_ACTION, which come from the environment
pub record Defaults : Type 0 where
  pub limit_of : Level → ℕ
  pub action : String

-- `get_budget`
unfoldable pub get_budget : Level → String → List BudgetLimit → Option BudgetLimit
get_budget l s rows = find? (is_at l s) rows

-- the row that stands for a budget that nobody has set
abbrev pub default_row : Defaults → Level → String → ℕ → BudgetLimit
default_row d l s used = record {
  level = l;
  scope = s;
  limit_tokens = d.limit_of l;
  used_tokens = used;
  action = d.action;
}

-- `upsert_budget`: an update of what is given, or a new row
unfoldable pub upsert_budget :
    Level → String → Option ℕ → Option ℕ → Option String → List BudgetLimit → List BudgetLimit
upsert_budget l s used limit action rows =
    if any (is_at l s) rows
    then update (is_at l s)
        (λ b. record b {
          used_tokens = or_else used b.used_tokens;
          limit_tokens = or_else limit b.limit_tokens;
          action = or_else action b.action;
        })
        rows
    else rows
      ++ record {
        level = l;
        scope = s;
        limit_tokens = or_else limit 0;
        used_tokens = or_else used 0;
        action = or_else action "pause";
      }
        ∷ []

load_row :
    Defaults
    → Level
    → String
    → Option BudgetLimit
    → List BudgetLimit
    → BudgetLimit × List BudgetLimit
load_row d l s (some b) rows = (b, rows)
load_row d l s none rows =
    (default_row d l s 0, upsert_budget l s (some 0) (some (d.limit_of l)) (some d.action) rows)

-- `_load_from_config`: a budget that is missing is stored with its default
unfoldable pub load_from_config :
    Defaults → Level → String → List BudgetLimit → BudgetLimit × List BudgetLimit
unfolding load_row
load_from_config d l s rows = load_row d l s (get_budget l s rows) rows

-- one level of `check`: the BudgetExceeded that it raises is the budget; what has been stored stays
unfoldable pub check_level :
    Defaults → Level → String → List BudgetLimit → Result BudgetLimit BudgetLimit × List BudgetLimit
check_level d l s rows =
    let (b, rows1) = load_from_config d l s rows in (if is_exceeded b then err b else ok b, rows1)

-- a level whose scope is blank is passed over
unfoldable pub check_given :
    Defaults → Level → String → List BudgetLimit → Result BudgetLimit (Unit {0}) × List BudgetLimit
check_given d l s rows = if is_blank s then (ok tt, rows) else (
  elim (check_level d l s rows).0 [ ok b ↦ ok tt | err b ↦ err b ],
  (check_level d l s rows).1,
)

-- the next check is made where the one before did not raise
abbrev pub and_then :
    Result BudgetLimit (Unit {0}) × List BudgetLimit
    → (List BudgetLimit → Result BudgetLimit BudgetLimit × List BudgetLimit)
    → Result BudgetLimit BudgetLimit × List BudgetLimit
and_then (ok passed, rows) next = next rows
and_then (err b, rows) next = (err b, rows)

-- `check`: task, project, day
unfoldable pub check :
    Defaults
    → String
    → String
    → String
    → List BudgetLimit
    → Result BudgetLimit BudgetLimit × List BudgetLimit
check d today task_id project_id rows = and_then (check_given d Level.task task_id rows) (λ rows1.
    and_then (check_given d Level.project project_id rows1)
      (λ rows2. check_level d Level.daily today rows2))

-- `UPDATE ... WHERE id = ?`, with the id of the row that the SELECT found first
unfoldable pub update_first :
    (BudgetLimit → Bool) → (BudgetLimit → BudgetLimit) → List BudgetLimit → List BudgetLimit
update_first p f [] = []
update_first p f (b ∷ rows) =
    let rest = update_first p f rows in if p b then f b ∷ rows else b ∷ rest

-- one round of the loop of `consume_budgets`
unfoldable pub consume_one : Defaults → ℕ → Level → String → List BudgetLimit → List BudgetLimit
consume_one d tokens l s rows =
    if any (is_at l s) rows
    then update_first (is_at l s) (λ b. record b { used_tokens = b.used_tokens + tokens }) rows
    else rows ++ default_row d l s tokens ∷ []

unfoldable pub consume_budgets :
    Defaults → ℕ → List (Level × String) → List BudgetLimit → List BudgetLimit
consume_budgets d tokens [] rows = rows
consume_budgets d tokens ((l, s) ∷ scopes) rows =
    consume_budgets d tokens scopes (consume_one d tokens l s rows)

-- the scopes that `consume` charges
unfoldable pub scopes_of : String → String → String → List (Level × String)
scopes_of today task_id project_id =
    (if is_blank task_id then [] else (Level.task, task_id) ∷ [])
    ++ (if is_blank project_id then [] else (Level.project, project_id) ∷ [])
    ++ (Level.daily, today) ∷ []

unfoldable pub consume :
    Defaults
    → String
    → ℕ
    → String
    → String
    → List BudgetLimit
    → Result BudgetLimit BudgetLimit × List BudgetLimit
consume d today tokens task_id project_id rows =
    check d today task_id project_id
      (consume_budgets d tokens (scopes_of today task_id project_id) rows)

-- `set_limit` and `reset`
unfoldable pub set_limit : Level → String → ℕ → String → List BudgetLimit → List BudgetLimit
set_limit l s limit action rows = upsert_budget l s none (some limit) (some action) rows

unfoldable pub reset : Level → String → List BudgetLimit → List BudgetLimit
reset l s rows = upsert_budget l s (some 0) none none rows

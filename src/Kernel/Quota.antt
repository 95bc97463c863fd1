-- ===== src/Kernel/Quota.antt =====
-- The quota of fleet/kernel/kernel.py. A todo is charged when it is written back as done.
use aidean_fleet.Common.{
  ℕ, ◌+◌, ◌-◌, Bool, true, ◌||◌, List, [], ◌∷◌, ◌++◌, Option, none, some, String, if◌then◌else◌,
  ltb, eqb, find?, update,
}
use aidean_fleet.Kernel.Tables.{Quota, Db, Env}
use aidean_fleet.Common.Text.{◌==◌}

abbrev pub has_key : String → Quota → Bool
has_key k q = q.key == k

abbrev pub used_on : String → Quota → ℕ
used_on day q = if q.day == day then q.used else 0

-- the test of `_quota_left` on a row
unfoldable pub row_left : String → Option Quota → Bool
row_left day none = true
row_left day (some q) = eqb q.limit_per_day 0 || ltb (used_on day q) q.limit_per_day

-- `_quota_left`
unfoldable pub quota_left : Env → String → Db → Bool
quota_left env key db = row_left env.day (find? (has_key key) db.quotas)

unfoldable pub charge_rows : Env → String → ℕ → Option Quota → List Quota → List Quota
charge_rows env key amount none rows =
    rows ++ record { key = key; used = amount; limit_per_day = 0; day = env.day } ∷ []
charge_rows env key amount (some q) rows =
    update (has_key key) (λ r. record r { used = used_on env.day q + amount; day = env.day }) rows

-- `_charge`
unfoldable pub charge : Env → String → ℕ → Db → Db
charge env key amount db = record db {
  quotas = charge_rows env key amount (find? (has_key key) db.quotas) db.quotas;
}

unfoldable pub set_quota_rows : Env → String → ℕ → Option Quota → List Quota → List Quota
set_quota_rows env key limit none rows =
    rows ++ record { key = key; used = 0; limit_per_day = limit; day = env.day } ∷ []
set_quota_rows env key limit (some q) rows =
    update (has_key key) (λ r. record r { limit_per_day = limit }) rows

unfoldable pub set_quota : Env → String → ℕ → Db → Db
set_quota env key limit db = record db {
  quotas = set_quota_rows env key limit (find? (has_key key) db.quotas) db.quotas;
}

-- `quota_remaining`; `none` is no limit
unfoldable pub row_remaining : String → Option Quota → Option ℕ
row_remaining day none = none
row_remaining day (some q) =
    if eqb q.limit_per_day 0 then none else some (q.limit_per_day - used_on day q)

unfoldable pub quota_remaining : Env → String → Db → Option ℕ
quota_remaining env key db = row_remaining env.day (find? (has_key key) db.quotas)

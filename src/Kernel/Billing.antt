-- ===== src/Kernel/Billing.antt =====
-- What a charge does to the quotas.
use aidean_fleet.Common.{
  ℕ, ◌+◌, ◌-◌, ◌≡◌, ◌↔◌, refl, false, List, Option, none, some, String, if◌then◌else◌, find?, arith,
}
use aidean_fleet.Kernel.Tables.{Quota, Db, Env}
use aidean_fleet.Common.{
  subst, ap, find?-append_none, find?-append_other, find?-update_ne, find?-update_self, Bool-cases,
  inl, inr,
}
use aidean_fleet.Common.Text.{◌==◌, eq_of_==, ==_refl}
use aidean_fleet.Kernel.Quota.{
  has_key, used_on, row_left, quota_left, charge_rows, charge, row_remaining, quota_remaining,
}

abbrev pub less : ℕ → Option ℕ → Option ℕ
less n none = none
less n (some r) = some (r - n)

charge_same :
    (env : Env) (k : String) (n : ℕ) (rows : List Quota) (o : Option Quota)
    → find? (has_key k) rows ≡ o
    → row_remaining env.day (find? (has_key k) (charge_rows env k n o rows))
      ≡ less n (row_remaining env.day o)
unfolding charge_rows row_remaining
charge_same env k n rows none e = rw (find?-append_none (has_key k) rows _ e, ==_refl k)
charge_same env k n rows (some q) e =
    rw
      (
        find?-update_self (has_key k)
            (λ r. record r { used = used_on env.day q + n; day = env.day }) rows (λ x. refl) e,
        ==_refl env.day,
      )
      (ground arith)

charge_other :
    (env : Env) (k j : String) (n : ℕ) (rows : List Quota) (o : Option Quota)
    → (k == j) ≡ false
    → find? (has_key j) (charge_rows env k n o rows) ≡ find? (has_key j) rows
unfolding charge_rows
charge_other env k j n rows none ne = find?-append_other (has_key j) rows _ ne
charge_other env k j n rows (some q) ne =
    find?-update_ne (has_key k) (has_key j)
      (λ r. record r { used = used_on env.day q + n; day = env.day }) rows
      (λ x e. let out : (x.key == j) ≡ false = rw (eq_of_== x.key k e) ne in (out, out))

-- A charge lowers what remains of its key's limit for the day by its amount, down to nothing, also on
-- the first charge of a day, and does not touch another key. A key without a limit stays so.
pub quota_remaining-charge :
    (env : Env) (k j : String) (n : ℕ) (db : Db)
    → quota_remaining env j (charge env k n db)
      ≡ (if k == j then less n (quota_remaining env j db) else quota_remaining env j db)
unfolding quota_remaining charge
quota_remaining-charge env k j n db = elim (Bool-cases (k == j)) [
  | inl p ↦ rw p (
      subst (λ x. quota_remaining env x (charge env k n db) ≡ less n (quota_remaining env x db))
        (eq_of_== k j p) (charge_same env k n db.quotas (find? (has_key k) db.quotas) refl))
  | inr p ↦ rw p (
      ap (row_remaining env.day) (charge_other env k j n db.quotas (find? (has_key k) db.quotas) p))
]

-- A key may be used exactly while it has no limit or something of the limit remains.
pub quota_left_iff_remaining :
    (env : Env) (k : String) (db : Db)
    → (quota_left env k db ≡ false) ↔ (quota_remaining env k db ≡ some 0)
unfolding quota_left quota_remaining row_left row_remaining
quota_left_iff_remaining env k db = ground arith

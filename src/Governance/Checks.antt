-- ===== src/Governance/Checks.antt =====
-- What a check that does not raise has seen.
use aidean_fleet.Common.{
  ◌≡◌, refl, ◌∙◌, subst, sym, ◌⊎◌, inl, inr, true, false, List, [], ◌∷◌, some, String, find?,
  find?-append, find?-append_none, any_of_find?_none, Bool-cases, Option-cases, arith,
}
use aidean_fleet.Common.Text.{eq_of_==, is_blank}
use aidean_fleet.Common.Outcome.{Result, ok, err}
use aidean_fleet.Governance.Budget.{
  Level, BudgetLimit, is_exceeded, is_at, Defaults, get_budget, default_row, upsert_budget,
  load_from_config, check_level, check_given, and_then, check,
}
use aidean_fleet.Governance.Spending.{is_charged, same_key_refl}

-- a budget that is stored and not used up
pub HasRoom : Level → String → List BudgetLimit → Type 0
HasRoom l s rows = (b : BudgetLimit) × (get_budget l s rows ≡ some b) × (is_exceeded b ≡ false)

-- the rows that are found stay found
Keeps : List BudgetLimit → List BudgetLimit → Type 0
Keeps rows rows' =
    (l : Level) (s : String) (b : BudgetLimit)
    → get_budget l s rows ≡ some b
    → get_budget l s rows' ≡ some b

load-Keeps :
    (d : Defaults) (k : Level) (j : String) (rows : List BudgetLimit)
    → Keeps rows (load_from_config d k j rows).1
unfolding Keeps get_budget load_from_config upsert_budget
load-Keeps d k j rows l s b at = elim (Option-cases (find? (is_at k j) rows)) [
  | inl missing ↦
      rw (missing, any_of_find?_none (is_at k j) rows missing) (find?-append (is_at l s) rows _ at)
  | inr (x, there) ↦ rw there at
]

load-stores :
    (d : Defaults) (l : Level) (s : String) (rows : List BudgetLimit)
    → get_budget l s (load_from_config d l s rows).1 ≡ some (load_from_config d l s rows).0
unfolding get_budget load_from_config upsert_budget
load-stores d l s rows = elim (Option-cases (find? (is_at l s) rows)) [
  | inl missing ↦ rw (
    missing,
    any_of_find?_none (is_at l s) rows missing,
    find?-append_none (is_at l s) rows (default_row d l s 0 ∷ []) missing,
    same_key_refl l s,
  )
  | inr (x, there) ↦ rw (there, there)
]

Result-cases :
    (m : Result BudgetLimit BudgetLimit)
    → ((b : BudgetLimit) × (m ≡ ok b)) ⊎ ((b : BudgetLimit) × (m ≡ err b))
Result-cases (ok b) = inl (b, refl)
Result-cases (err b) = inr (b, refl)

module _ (d : Defaults) (l : Level) (s : String) (rows : List BudgetLimit) where
  check_level-room :
      {b : BudgetLimit} → (check_level d l s rows).0 ≡ ok b → HasRoom l s (check_level d l s rows).1
  unfolding check_level HasRoom
  check_level-room {b} e = elim (Bool-cases (is_exceeded (load_from_config d l s rows).0)) [
    | inl full ↦ let h = rw full at e in cc h
    | inr fine ↦ ((load_from_config d l s rows).0, load-stores d l s rows, fine)
  ]

  check_level-Keeps : Keeps rows (check_level d l s rows).1
  unfolding check_level
  check_level-Keeps = load-Keeps d l s rows

  check_given-Keeps : Keeps rows (check_given d l s rows).1
  unfolding check_given Keeps
  check_given-Keeps k j b at = elim (Bool-cases (is_blank s)) [
    | inl p ↦ rw p at
    | inr p ↦ rw p (check_level-Keeps k j b at)
  ]

  check_given-room :
      is_blank s ≡ false
      → (check_given d l s rows).0 ≡ ok tt
      → HasRoom l s (check_given d l s rows).1
  unfolding check_given
  check_given-room given e = elim (Result-cases (check_level d l s rows).0) [
    | inl (b, passed) ↦ rw given (check_level-room passed)
    | inr (b, raised) ↦ let h = rw (given, raised) at e in cc h
  ]

HasRoom-Keeps :
    (l : Level) (s : String) (rows rows' : List BudgetLimit)
    → Keeps rows rows'
    → HasRoom l s rows
    → HasRoom l s rows'
unfolding HasRoom Keeps
HasRoom-Keeps l s rows rows' keep (b, at, fine) = (b, keep l s b at, fine)

and_then_ok :
    (m : Result BudgetLimit (Unit {0}) × List BudgetLimit)
    (next : List BudgetLimit → Result BudgetLimit BudgetLimit × List BudgetLimit) {b : BudgetLimit}
    → (and_then m next).0 ≡ ok b
    → (m.0 ≡ ok tt) × (and_then m next ≡ next m.1)
and_then_ok (ok tt, rows) next e = (refl, refl)
and_then_ok (err x, rows) next e = cc

-- the three levels, each with the checks that come behind it
room_at :
    (d : Defaults) (today t p : String) (rows : List BudgetLimit) (l : Level) (s : String)
    {b : BudgetLimit}
    → is_charged today t p l s ≡ true
    → let m1 = check_given d Level.task t rows in
      let m2 = check_given d Level.project p m1.1 in
      m1.0 ≡ ok tt
      → m2.0 ≡ ok tt
      → (check_level d Level.daily today m2.1).0 ≡ ok b
      → HasRoom l s (check_level d Level.daily today m2.1).1
room_at d today t p rows Level.task s charged ok1 ok2 e3 =
    let m1 = check_given d Level.task t rows in
    let m2 = check_given d Level.project p m1.1 in
    let own : t ≡ s = eq_of_== t s (ground arith) in
    HasRoom-Keeps Level.task s m2.1 _ (check_level-Keeps d Level.daily today m2.1) (
      HasRoom-Keeps Level.task s m1.1 m2.1 (check_given-Keeps d Level.project p m1.1) (
        subst (λ x. HasRoom Level.task x m1.1) own
          (check_given-room d Level.task t rows (ground arith) ok1)))
room_at d today t p rows Level.project s charged ok1 ok2 e3 =
    let m1 = check_given d Level.task t rows in
    let m2 = check_given d Level.project p m1.1 in
    let own : p ≡ s = eq_of_== p s (ground arith) in
    HasRoom-Keeps Level.project s m2.1 _ (check_level-Keeps d Level.daily today m2.1) (
      subst (λ x. HasRoom Level.project x m2.1) own
        (check_given-room d Level.project p m1.1 (ground arith) ok2))
room_at d today t p rows Level.daily s charged ok1 ok2 e3 =
    let m2 = check_given d Level.project p (check_given d Level.task t rows).1 in
    subst (λ x. HasRoom Level.daily x (check_level d Level.daily today m2.1).1)
      (eq_of_== today s charged) (check_level-room d Level.daily today m2.1 e3)

-- A check that passes has stored a budget with room for the task and for the project (where they are
-- given) and for the day: for each of the budgets that a spending falls on.
pub check-room :
    (d : Defaults) (today t p : String) (rows : List BudgetLimit) {b : BudgetLimit}
    → (check d today t p rows).0 ≡ ok b
    → (l : Level) (s : String) → is_charged today t p l s ≡ true
    → HasRoom l s (check d today t p rows).1
unfolding check
check-room d today t p rows {b} e l s charged =
    let m1 = check_given d Level.task t rows in
    let m2 = check_given d Level.project p m1.1 in
    let next2 : List BudgetLimit → Result BudgetLimit BudgetLimit × List BudgetLimit =
      λ rows2. check_level d Level.daily today rows2 in
    let (ok1, same1) =
      and_then_ok m1 (λ rows1. and_then (check_given d Level.project p rows1) next2) e in
    let e2 : (and_then m2 next2).0 ≡ ok b = subst (λ x. x.0 ≡ ok b) same1 e in
    let (ok2, same2) = and_then_ok m2 next2 e2 in
    let e3 : (check_level d Level.daily today m2.1).0 ≡ ok b = subst (λ x. x.0 ≡ ok b) same2 e2 in
    let room : HasRoom l s (check_level d Level.daily today m2.1).1 =
      room_at d today t p rows l s charged ok1 ok2 e3 in
    subst (λ x. HasRoom l s x.1) (sym (same1 ∙ same2)) room

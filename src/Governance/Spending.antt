-- ===== src/Governance/Spending.antt =====
-- What a spending of tokens does to the pools, and when it is refused.
use aidean_fleet.Common.{
  ℕ, ◌+◌, ◌≡◌, refl, ◌∙◌, inl, inr, Bool, true, false, not, ◌&&◌, List, [], ◌∷◌, Option, none, some,
  String, if◌then◌else◌, any, find?, find?-append_none, find?-append_other, any_of_find?_none,
  any-find?, Bool-cases, Option-cases, arith, ap, subst,
}
use aidean_fleet.Common.Text.{◌==◌, eq_of_==, ==_refl, is_blank}
use aidean_fleet.Common.Outcome.{Result, ok, err}
use aidean_fleet.Governance.Budget.{
  Level, BudgetLimit, same_level, is_at, Defaults, get_budget, default_row, upsert_budget,
  load_from_config, check_level, check_given, and_then, check, update_first, consume_one,
  consume_budgets, scopes_of, consume,
}

-- the tokens that are booked on a budget, stored or not
abbrev used_in : Option BudgetLimit → ℕ
used_in none = 0
used_in (some b) = b.used_tokens

unfoldable pub used_of : Level → String → List BudgetLimit → ℕ
unfolding get_budget
used_of l s rows = used_in (get_budget l s rows)

same_level_refl : (l : Level) → same_level l l ≡ true
same_level_refl Level.task = refl
same_level_refl Level.project = refl
same_level_refl Level.daily = refl

eq_of_same_level : (k l : Level) → same_level k l ≡ true → k ≡ l
eq_of_same_level k l h = ground arith

abbrev pub same_key : Level → String → Level → String → Bool
same_key k j l s = same_level k l && j == s

-- the tests of two keys on a row of one of them
is_at_key :
    (k l : Level) (j s : String) (b : BudgetLimit)
    → is_at k j b ≡ true
    → is_at l s b ≡ same_key k j l s
is_at_key k l j s b h =
    let p : b.level ≡ k = eq_of_same_level b.level k (ground arith) in
    let q : b.scope ≡ j = eq_of_== b.scope j (ground arith) in
    ap (λ x. same_level x l && b.scope == s) p ∙ ap (λ x. same_level k l && x == s) q

find?-update_first_self :
    (p : BudgetLimit → Bool) (f : BudgetLimit → BudgetLimit) (rows : List BudgetLimit)
    {b : BudgetLimit}
    → ((x : BudgetLimit) → p (f x) ≡ p x)
    → find? p rows ≡ some b
    → find? p (update_first p f rows) ≡ some (f b)
unfolding update_first
find?-update_first_self p f [] keep at = cc at
find?-update_first_self p f (x ∷ rows) {b} keep at = elim (Bool-cases (p x)) [
  | inl here ↦ let q : x ≡ b = ground arith in rw (here, keep x, here, q) refl
  | inr further ↦ rw (further, further) (find?-update_first_self p f rows keep (rw further at at))
]

find?-update_first_other :
    (p q : BudgetLimit → Bool) (f : BudgetLimit → BudgetLimit) (rows : List BudgetLimit)
    → ((x : BudgetLimit) → p x ≡ true → (q x ≡ false) × (q (f x) ≡ false))
    → find? q (update_first p f rows) ≡ find? q rows
unfolding update_first
find?-update_first_other p q f [] h = refl
find?-update_first_other p q f (x ∷ rows) h = elim (Bool-cases (p x)) [
  | inl here ↦ rw (here, (h x here).0, (h x here).1) refl
  | inr further ↦
      let rest = find?-update_first_other p q f rows h in
      elim (Bool-cases (q x)) [
        | inl seen ↦ rw (further, seen) refl
        | inr unseen ↦ rw (further, unseen) rest
      ]
]

module _ (k : Level) (j : String) (f : BudgetLimit → BudgetLimit) where
  -- an update of the first row of one key, read at any key
  get-update_other :
      (l : Level) (s : String) (rows : List BudgetLimit)
      → ((b : BudgetLimit) → ((f b).level ≡ b.level) × ((f b).scope ≡ b.scope))
      → same_key k j l s ≡ false
      → find? (is_at l s) (update_first (is_at k j) f rows) ≡ find? (is_at l s) rows
  get-update_other l s rows keep ne =
      find?-update_first_other (is_at k j) (is_at l s) f rows (λ b h.
        let out : is_at l s b ≡ false = is_at_key k l j s b h ∙ ne in
        (out, rw ((keep b).0, (keep b).1) out))

pub same_key_refl : (l : Level) (s : String) → same_key l s l s ≡ true
same_key_refl l s = rw (same_level_refl l, ==_refl s)

-- rows of the key of a test that passes
key_subst :
    (P : Level → String → Type 0) (k l : Level) (j s : String)
    → same_key k j l s ≡ true
    → P k j
    → P l s
key_subst P k l j s h p =
    subst (λ x. P x s) (eq_of_same_level k l (ground arith))
      (subst (λ x. P k x) (eq_of_== j s (ground arith)) p)

abbrev spend : ℕ → BudgetLimit → BudgetLimit
spend n b = record b { used_tokens = b.used_tokens + n }

consume_one_self :
    (d : Defaults) (n : ℕ) (l : Level) (s : String) (rows : List BudgetLimit)
    → used_of l s (consume_one d n l s rows) ≡ used_of l s rows + n
unfolding used_of consume_one
consume_one_self d n l s rows = elim (Option-cases (find? (is_at l s) rows)) [
  | inl missing ↦
      rw
        (
          any_of_find?_none (is_at l s) rows missing,
          find?-append_none (is_at l s) rows (default_row d l s n ∷ []) missing,
          same_key_refl l s,
          missing,
        )
        (omega arith)
  | inr (b, at) ↦ rw (
    any-find? (is_at l s) rows at,
    find?-update_first_self (is_at l s) (spend n) rows (λ x. refl) at,
    at,
  )
]

consume_one-other :
    (d : Defaults) (n : ℕ) (k l : Level) (j s : String) (rows : List BudgetLimit)
    → same_key k j l s ≡ false
    → used_of l s (consume_one d n k j rows) ≡ used_of l s rows
unfolding used_of consume_one
consume_one-other d n k l j s rows ne = elim (Bool-cases (any (is_at k j) rows)) [
  | inl there ↦ rw (there, get-update_other k j (spend n) l s rows (λ b. (refl, refl)) ne)
  | inr missing ↦ rw (missing, find?-append_other (is_at l s) rows (default_row d k j n) ne)
]

consume_one-used :
    (d : Defaults) (n : ℕ) (k l : Level) (j s : String) (rows : List BudgetLimit)
    → used_of l s (consume_one d n k j rows)
      ≡ used_of l s rows + (if same_key k j l s then n else 0)
consume_one-used d n k l j s rows = elim (Bool-cases (same_key k j l s)) [
  | inl p ↦ rw p (
      key_subst (λ x y. used_of x y (consume_one d n k j rows) ≡ used_of x y rows + n) k l j s p
        (consume_one_self d n k j rows))
  | inr p ↦ rw p (consume_one-other d n k l j s rows p ∙ omega arith)
]

-- how much of a spending falls on a key, for each time that the key is among the scopes
abbrev share : ℕ → Level → String → List (Level × String) → ℕ
share n l s [] = 0
share n l s ((k, j) ∷ scopes) = (if same_key k j l s then n else 0) + share n l s scopes

consume_budgets-used :
    (d : Defaults) (n : ℕ) (l : Level) (s : String) (scopes : List (Level × String))
    (rows : List BudgetLimit)
    → used_of l s (consume_budgets d n scopes rows) ≡ used_of l s rows + share n l s scopes
unfolding consume_budgets
consume_budgets-used d n l s [] rows = omega arith
consume_budgets-used d n l s ((k, j) ∷ scopes) rows = omega (
  arith,
  consume_budgets-used d n l s scopes (consume_one d n k j rows),
  consume_one-used d n k l j s rows,
)

-- a budget that is loaded, and stored with its default if it is missing
load-used :
    (d : Defaults) (k l : Level) (j s : String) (rows : List BudgetLimit)
    → used_of l s (load_from_config d k j rows).1 ≡ used_of l s rows
unfolding used_of load_from_config upsert_budget get_budget
load-used d k l j s rows = elim (Option-cases (find? (is_at k j) rows)) [
  | inl missing ↦ elim (Bool-cases (same_key k j l s)) [
    | inl p ↦
        key_subst (λ x y. used_of x y (load_from_config d k j rows).1 ≡ used_of x y rows) k l j s p
          (rw (
            missing,
            any_of_find?_none (is_at k j) rows missing,
            find?-append_none (is_at k j) rows (default_row d k j 0 ∷ []) missing,
            same_key_refl k j,
          ))
    | inr p ↦ rw (
      missing,
      any_of_find?_none (is_at k j) rows missing,
      find?-append_other (is_at l s) rows (default_row d k j 0) p,
    )
  ]
  | inr (b, at) ↦ rw at
]

check_level-used :
    (d : Defaults) (k l : Level) (j s : String) (rows : List BudgetLimit)
    → used_of l s (check_level d k j rows).1 ≡ used_of l s rows
unfolding check_level
check_level-used d k l j s rows = load-used d k l j s rows

check_given-used :
    (d : Defaults) (k l : Level) (j s : String) (rows : List BudgetLimit)
    → used_of l s (check_given d k j rows).1 ≡ used_of l s rows
unfolding check_given
check_given-used d k l j s rows = elim (Bool-cases (is_blank j)) [
  | inl p ↦ rw p
  | inr p ↦ rw p (check_level-used d k l j s rows)
]

and_then-used :
    (l : Level) (s : String) (m : Result BudgetLimit (Unit {0}) × List BudgetLimit)
    (next : List BudgetLimit → Result BudgetLimit BudgetLimit × List BudgetLimit)
    → ((rows : List BudgetLimit) → used_of l s (next rows).1 ≡ used_of l s rows)
    → used_of l s (and_then m next).1 ≡ used_of l s m.1
and_then-used l s (ok passed, rows) next same = same rows
and_then-used l s (err b, rows) next same = refl

-- A check books nothing, on no budget, also where it raises or stores the defaults of a budget that
-- was missing.
pub check-used :
    (d : Defaults) (today t p : String) (l : Level) (s : String) (rows : List BudgetLimit)
    → used_of l s (check d today t p rows).1 ≡ used_of l s rows
unfolding check
check-used d today t p l s rows =
    and_then-used l s (check_given d Level.task t rows) _ (λ rows1.
      and_then-used l s (check_given d Level.project p rows1) _
        (λ rows2. check_level-used d Level.daily l today s rows2)
      ∙ check_given-used d Level.project l p s rows1)
    ∙ check_given-used d Level.task l t s rows

-- the budgets that a spending falls on
abbrev pub is_charged : String → String → String → Level → String → Bool
is_charged today t p Level.task s = not (is_blank t) && t == s
is_charged today t p Level.project s = not (is_blank p) && p == s
is_charged today t p Level.daily s = today == s

share_of_scopes :
    (n : ℕ) (today t p : String) (l : Level) (s : String)
    → share n l s (scopes_of today t p) ≡ (if is_charged today t p l s then n else 0)
unfolding scopes_of
share_of_scopes n today t p Level.task s = ground arith
share_of_scopes n today t p Level.project s = ground arith
share_of_scopes n today t p Level.daily s = ground arith

-- `consume` books its tokens exactly once on the budget of the task, of the project and of the day
-- (the first two where they are given), and on no other, whether or not the check behind it raises.
pub consume-used :
    (d : Defaults) (today : String) (n : ℕ) (t p : String) (l : Level) (s : String)
    (rows : List BudgetLimit)
    → used_of l s (consume d today n t p rows).1
      ≡ used_of l s rows + (if is_charged today t p l s then n else 0)
unfolding consume
consume-used d today n t p l s rows =
    check-used d today t p l s (consume_budgets d n (scopes_of today t p) rows)
    ∙ consume_budgets-used d n l s (scopes_of today t p) rows
    ∙ ap (λ x. used_of l s rows + x) (share_of_scopes n today t p l s)

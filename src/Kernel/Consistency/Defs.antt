-- ===== src/Kernel/Consistency/Defs.antt =====
-- The invariant of the tables, and the rule for a statement that moves one todo.
use aidean_fleet.Common.{
  ◌≡◌, true, false, List, [], ◌∷◌, some, String, if◌then◌else◌, any, find?, update, arith,
}
use aidean_fleet.Common.{ap, ◌∙◌}
use aidean_fleet.Kernel.State.{in_flight}
use aidean_fleet.Kernel.Tables.{Todo, Attempt, Db}
use aidean_fleet.Kernel.Sql.{has_id}
use aidean_fleet.Common.{All, any-update_same, update_none, Bool-cases, inl, inr}
use aidean_fleet.Common.Text.{◌==◌, eq_of_==, ==_comm}
use aidean_fleet.Kernel.Consistency.Attempts.{opens, tries}

-- the primary key of `todos`
abbrev pub HasDistinctIds : List Todo → Type 0
HasDistinctIds [] = Unit
HasDistinctIds (t ∷ rows) = (any (has_id t.id) rows ≡ false) × HasDistinctIds rows

-- What ties a todo to the attempts: one is open exactly while the todo is in flight,
-- `attempt_count` is their number, and only a todo in flight has a lease.
pub record IsInStep (attempts : List Attempt) (t : Todo) : Type 0 where
  pub one_open : opens t.id attempts ≡ (if in_flight t.status then 1 else 0)
  pub counted : tries t.id attempts ≡ t.attempt_count
  pub released : in_flight t.status ≡ false → t.claim_expires_at ≡ 0

abbrev pub IsOwned : List Todo → Attempt → Type 0
IsOwned todos a = any (has_id a.todo_id) todos ≡ true

pub record IsConsistentRows (todos : List Todo) (attempts : List Attempt) : Type 0 where
  pub distinct : HasDistinctIds todos
  pub in_step : All (IsInStep attempts) todos
  pub owned : All (IsOwned todos) attempts

abbrev pub IsConsistent : Db → Type 0
IsConsistent db = IsConsistentRows db.todos db.attempts

-- `as'` has the same attempts as `rows` of every todo but `i`
pub record Frames (i : String) (rows rows' : List Attempt) : Type 0 where
  pub same_opens : (j : String) → (i == j) ≡ false → opens j rows' ≡ opens j rows
  pub same_tries : (j : String) → (i == j) ≡ false → tries j rows' ≡ tries j rows

module _ (i : String) {rows rows' : List Attempt} (fr : Frames i rows rows') where
  pub IsInStep-frame : (t : Todo) → (t.id == i) ≡ false → IsInStep rows t → IsInStep rows' t
  IsInStep-frame t ne h =
      let ne' : (i == t.id) ≡ false = ==_comm i t.id ∙ ne in
      record {
        one_open = fr.same_opens t.id ne' ∙ h.one_open;
        counted = fr.same_tries t.id ne' ∙ h.counted;
        released = h.released;
      }

  pub All-frame :
      (ts : List Todo)
      → any (has_id i) ts ≡ false
      → All (IsInStep rows) ts
      → All (IsInStep rows') ts
  All-frame [] ne h = tt
  All-frame (t ∷ ts) ne h = elim (Bool-cases (has_id i t)) [
    | inl p ↦ cc (rw p at ne)
    | inr p ↦ (IsInStep-frame t p h.0, All-frame ts (rw p at ne) h.1)
  ]

-- a test of identifiers on an updated table
pub any_id-update :
    (j i : String) (f : Todo → Todo) (ts : List Todo)
    → ((t : Todo) → (f t).id ≡ t.id)
    → any (has_id j) (update (has_id i) f ts) ≡ any (has_id j) ts
any_id-update j i f ts keep =
    any-update_same (has_id i) (has_id j) f ts (λ t e. ap (λ s. s == j) (keep t))

pub HasDistinctIds-update :
    (i : String) (f : Todo → Todo) (ts : List Todo)
    → ((t : Todo) → (f t).id ≡ t.id)
    → HasDistinctIds ts
    → HasDistinctIds (update (has_id i) f ts)
HasDistinctIds-update i f [] keep h = tt
HasDistinctIds-update i f (t ∷ ts) keep h = elim (Bool-cases (has_id i t)) [
  | inl p ↦
      rw p
        (rw (keep t) (any_id-update t.id i f ts keep ∙ h.0), HasDistinctIds-update i f ts keep h.1)
  | inr p ↦ rw p (any_id-update t.id i f ts keep ∙ h.0, HasDistinctIds-update i f ts keep h.1)
]

module _ (i : String) (f : Todo → Todo) {rows rows' : List Attempt} (fr : Frames i rows rows') where
  pub All-move :
      (ts : List Todo) {t : Todo}
      → HasDistinctIds ts
      → find? (has_id i) ts ≡ some t
      → IsInStep rows' (f t)
      → All (IsInStep rows) ts
      → All (IsInStep rows') (update (has_id i) f ts)
  All-move [] d e g h = tt
  All-move (x ∷ xs) {t} d e g h = elim (Bool-cases (has_id i x)) [
    | inl p ↦
        let q : x ≡ t = ground arith in
        let out : any (has_id i) xs ≡ false = rw (← eq_of_== x.id i p) d.0 in
        rw (p, update_none (has_id i) f xs out) (rw q g, All-frame i fr xs out h.1)
    | inr p ↦ rw p (IsInStep-frame i fr x p h.0, All-move xs d.1 (rw p at e) g h.1)
  ]

-- ===== src/Kernel/Consistency/Moves.antt =====
-- Consistency under the shapes of writes that the methods make.
use aidean_fleet.Common.{
  ℕ, ◌≡◌, refl, Bool, true, false, List, [], ◌∷◌, ◌++◌, some, String, any, find?, update, arith,
}
use aidean_fleet.Common.Outcome.{guard_ok, returned, ok}
use aidean_fleet.Kernel.State.{is_opened, in_flight}
use aidean_fleet.Kernel.Tables.{Todo, Attempt, Db, Env}
use aidean_fleet.Kernel.Sql.{has_id, get, of_todo, is_open_for}
use aidean_fleet.Common.{All-find, find?-true}
use aidean_fleet.Common.{
  All, All-append, All-map, All-update, inl, inr, sym, subst, Bool-cases, any-append, ◌∙◌,
  count-update_same,
}
use aidean_fleet.Common.Outcome.{guard_ok, returned, bind_ok, from_option_ok}
use aidean_fleet.Common.Text.{eq_of_==, ==_comm}
use aidean_fleet.Kernel.Lease.{reread, claim_check}
use aidean_fleet.Kernel.Consistency.Attempts.{
  opens, tries, new_attempt, closed, opens-close_self, opens-insert_ne, tries-insert_ne,
  opens-close_ne, tries-close,
}
use aidean_fleet.Kernel.Consistency.Defs.{
  HasDistinctIds, IsInStep, IsOwned, IsConsistentRows, Frames, any_id-update, HasDistinctIds-update,
  All-move,
}

pub get_ok :
    (i : String) (db : Db) {t : Todo} → get i db ≡ ok t → find? (has_id i) db.todos ≡ some t
unfolding get
get_ok i db h = from_option_ok (find? (has_id i) db.todos) _ h

pub claim_check_ok :
    (i : String) (db : Db) {t : Todo}
    → claim_check i db ≡ ok t
    → (find? (has_id i) db.todos ≡ some t) × (is_opened t.status ≡ true)
unfolding claim_check
claim_check_ok i db {t} e = bind_ok (get i db) e λ t0 e1 k1.
    guard_ok (is_opened t0.status) _ k1 λ free k2.
      returned (λ x. (find? (has_id i) db.todos ≡ some x) × (is_opened x.status ≡ true)) t0 k2
        (get_ok i db e1, free)

-- a reread returns the tables as they are
pub reread_ok :
    (P : Db → Type 0) (i : String) (db : Db) {r : Todo × Db} → reread i db ≡ ok r → P db → P r.1
unfolding reread
reread_ok P i db {r} h p = bind_ok (get i db) h λ t e k. let q : db ≡ r.1 = cc k in subst P q p

-- one todo moves, and only its attempts change
pub IsConsistent-move :
    (i : String) (f : Todo → Todo) (todos : List Todo) (rows rows' : List Attempt) {t : Todo}
    → ((x : Todo) → (f x).id ≡ x.id)
    → Frames i rows rows'
    → find? (has_id i) todos ≡ some t
    → IsInStep rows' (f t)
    → All (IsOwned todos) rows'
    → IsConsistentRows todos rows
    → IsConsistentRows (update (has_id i) f todos) rows'
IsConsistent-move i f todos rows rows' keep fr e g own c = record {
  distinct = HasDistinctIds-update i f todos keep c.distinct;
  in_step = All-move i f fr todos c.distinct e g c.in_step;
  owned = All-map (λ a h. any_id-update a.todo_id i f todos keep ∙ h) rows' own;
}

-- a todo that no row has yet has no attempts
unowned_none :
    (i : String) (todos : List Todo) (rows : List Attempt)
    → any (has_id i) todos ≡ false
    → All (IsOwned todos) rows
    → (opens i rows ≡ 0) × (tries i rows ≡ 0)
unowned_none i todos [] out own = (refl, refl)
unowned_none i todos (a ∷ rows) out own = elim (Bool-cases (of_todo i a)) [
  | inl p ↦ let q : any (has_id i) todos ≡ true = rw (← eq_of_== a.todo_id i p) own.0 in cc (q, out)
  | inr p ↦ ground (arith, unowned_none i todos rows out own.1)
]

-- the todos that are made are open, and have neither attempt nor lease
pub record IsNew (t : Todo) : Type 0 where
  pub not_started : in_flight t.status ≡ false
  pub untried : t.attempt_count ≡ 0
  pub unleased : t.claim_expires_at ≡ 0

HasDistinctIds-append :
    (t : Todo) (ts : List Todo)
    → any (has_id t.id) ts ≡ false
    → HasDistinctIds ts
    → HasDistinctIds (ts ++ t ∷ [])
HasDistinctIds-append t [] out d = (refl, tt)
HasDistinctIds-append t (x ∷ ts) out d = (
  ground (arith, any-append (has_id x.id) ts (t ∷ []), d.0, ==_comm t.id x.id),
  HasDistinctIds-append t ts (ground arith) d.1,
)

pub IsConsistent-append :
    (t : Todo) (todos : List Todo) (rows : List Attempt)
    → IsNew t
    → any (has_id t.id) todos ≡ false
    → IsConsistentRows todos rows
    → IsConsistentRows (todos ++ t ∷ []) rows
IsConsistent-append t todos rows new out c =
    let none_yet = unowned_none t.id todos rows out c.owned in
    record {
      distinct = HasDistinctIds-append t todos out c.distinct;
      in_step = All-append (IsInStep rows) todos (t ∷ []) c.in_step (
        record { one_open = ground arith; counted = ground arith; released = λ h. new.unleased },
        tt,
      );
      owned =
          All-map (λ a h. ground (arith, any-append (has_id a.todo_id) todos (t ∷ []))) rows
            c.owned;
    }

pub Frames-refl : (i : String) (rows : List Attempt) → Frames i rows rows
Frames-refl i rows = record { same_opens = λ j ne. refl; same_tries = λ j ne. refl }

pub Frames-insert :
    (env : Env) (i h m : String) (n : ℕ) (rows : List Attempt)
    → Frames i rows (rows ++ new_attempt env i h m n ∷ [])
Frames-insert env i h m n rows = record {
  same_opens = λ j ne. opens-insert_ne env i rows j h m n ne;
  same_tries = λ j ne. tries-insert_ne env i rows j h m n ne;
}

pub Frames-close :
    (env : Env) (i r : String) (rows : List Attempt)
    → Frames i rows (update (is_open_for i) (closed env r) rows)
Frames-close env i r rows = record {
  same_opens = λ j ne. opens-close_ne env i r j rows ne;
  same_tries = λ j ne. tries-close env i r j rows;
}

-- an update that leaves the owner and the end of each attempt alone changes no number
pub opens-update :
    (p : Attempt → Bool) (f : Attempt → Attempt) (j : String) (rows : List Attempt)
    → ((a : Attempt) → ((f a).todo_id ≡ a.todo_id) × ((f a).ended_at ≡ a.ended_at))
    → opens j (update p f rows) ≡ opens j rows
opens-update p f j rows same =
    count-update_same p (is_open_for j) f rows (λ a e. rw ((same a).0, (same a).1))

pub tries-update :
    (p : Attempt → Bool) (f : Attempt → Attempt) (j : String) (rows : List Attempt)
    → ((a : Attempt) → ((f a).todo_id ≡ a.todo_id) × ((f a).ended_at ≡ a.ended_at))
    → tries j (update p f rows) ≡ tries j rows
tries-update p f j rows same = count-update_same p (of_todo j) f rows (λ a e. rw (same a).0)

pub All-IsOwned-update :
    (todos : List Todo) (p : Attempt → Bool) (f : Attempt → Attempt) (rows : List Attempt)
    → ((a : Attempt) → (f a).todo_id ≡ a.todo_id)
    → All (IsOwned todos) rows
    → All (IsOwned todos) (update p f rows)
All-IsOwned-update todos p f rows same own =
    All-update (IsOwned todos) p f rows (λ a e h. rw (same a) h) own

-- the row that `get` finds
pub found :
    (i : String) (todos : List Todo) (rows : List Attempt) {t : Todo}
    → IsConsistentRows todos rows
    → find? (has_id i) todos ≡ some t
    → (t.id ≡ i) × IsInStep rows t
found i todos rows {t} c e = (
  eq_of_== t.id i (find?-true (has_id i) todos e),
  All-find (IsInStep rows) (has_id i) todos c.in_step e,
)

-- A todo leaves its flight, or stays out of it: it has no lease, and its open attempt is closed.
pub close-IsConsistent :
    (env : Env) (i r : String) (f : Todo → Todo) (todos : List Todo) (rows : List Attempt)
    {t : Todo}
    → ((x : Todo) → (f x).id ≡ x.id)
    → ((x : Todo) → (f x).attempt_count ≡ x.attempt_count)
    → in_flight (f t).status ≡ false
    → (f t).claim_expires_at ≡ 0
    → find? (has_id i) todos ≡ some t
    → IsConsistentRows todos rows
    → IsConsistentRows (update (has_id i) f todos) (update (is_open_for i) (closed env r) rows)
close-IsConsistent env i r f todos rows {t} keep_id keep_count out free e c =
    let (at, s) = found i todos rows c e in
    IsConsistent-move i f todos rows (update (is_open_for i) (closed env r) rows) keep_id
      (Frames-close env i r rows) e
      (subst (λ j. IsInStep (update (is_open_for j) (closed env r) rows) (f t)) at
        record {
          one_open = rw (keep_id t, out) (opens-close_self env t.id r rows);
          counted = rw (keep_id t, keep_count t) (tries-close env t.id r t.id rows ∙ s.counted);
          released = λ h. free;
        })
      (All-IsOwned-update todos (is_open_for i) (closed env r) rows (λ a. refl) c.owned) c

-- A write that leaves the attempts alone, and does not move the todo in or out of its flight.
pub stay-IsConsistent :
    (i : String) (f : Todo → Todo) (todos : List Todo) (rows : List Attempt) {t : Todo}
    → ((x : Todo) → (f x).id ≡ x.id)
    → ((x : Todo) → (f x).attempt_count ≡ x.attempt_count)
    → in_flight (f t).status ≡ in_flight t.status
    → (in_flight t.status ≡ false → (f t).claim_expires_at ≡ 0)
    → find? (has_id i) todos ≡ some t
    → IsConsistentRows todos rows
    → IsConsistentRows (update (has_id i) f todos) rows
stay-IsConsistent i f todos rows {t} keep_id keep_count same free e c =
    let (at, s) = found i todos rows c e in
    IsConsistent-move i f todos rows rows keep_id (Frames-refl i rows) e
      record {
        one_open = rw (keep_id t, same) s.one_open;
        counted = rw (keep_id t, keep_count t) s.counted;
        released = λ h. free (rw same at h);
      }
      c.owned c

-- the attempts of a todo that is not there: closing them changes nothing
pub close_absent :
    (env : Env) (i r : String) (todos : List Todo) (rows : List Attempt)
    → any (has_id i) todos ≡ false
    → All (IsOwned todos) rows
    → update (is_open_for i) (closed env r) rows ≡ rows
close_absent env i r todos [] out own = refl
close_absent env i r todos (a ∷ rows) out own = elim (Bool-cases (of_todo i a)) [
  | inl p ↦ let q : any (has_id i) todos ≡ true = rw (← eq_of_== a.todo_id i p) own.0 in cc (q, out)
  | inr p ↦ rw (p, close_absent env i r todos rows out own.1)
]

-- Attempts that are rewritten with their owners and ends kept.
pub rewrite-IsConsistent :
    (p : Attempt → Bool) (f : Attempt → Attempt) (todos : List Todo) (rows : List Attempt)
    → ((a : Attempt) → ((f a).todo_id ≡ a.todo_id) × ((f a).ended_at ≡ a.ended_at))
    → IsConsistentRows todos rows
    → IsConsistentRows todos (update p f rows)
rewrite-IsConsistent p f todos rows same c = record {
  distinct = c.distinct;
  in_step =
      All-map
        (λ t s. record {
          one_open = opens-update p f t.id rows same ∙ s.one_open;
          counted = tries-update p f t.id rows same ∙ s.counted;
          released = s.released;
        })
        todos c.in_step;
  owned = All-IsOwned-update todos p f rows (λ a. (same a).0) c.owned;
}

pub found_self :
    (i : String) (db : Db) {t : Todo}
    → find? (has_id i) db.todos ≡ some t
    → find? (has_id t.id) db.todos ≡ some t
found_self i db {t} e =
    subst (λ j. find? (has_id j) db.todos ≡ some t)
      (sym (eq_of_== t.id i (find?-true (has_id i) db.todos e))) e

-- A write that leaves alone all that consistency reads, on whatever row it falls.
pub touch-IsConsistent :
    (i : String) (f : Todo → Todo) (todos : List Todo) (rows : List Attempt)
    → ((x : Todo) → (f x).id ≡ x.id)
    → ((x : Todo)
        → ((f x).attempt_count ≡ x.attempt_count)
          × ((f x).status ≡ x.status)
          × ((f x).claim_expires_at ≡ x.claim_expires_at))
    → IsConsistentRows todos rows
    → IsConsistentRows (update (has_id i) f todos) rows
touch-IsConsistent i f todos rows keep same c = record {
  distinct = HasDistinctIds-update i f todos keep c.distinct;
  in_step =
      All-update (IsInStep rows) (has_id i) f todos
        (λ x e s. record {
          one_open = rw (keep x, (same x).1) s.one_open;
          counted = rw (keep x, (same x).0) s.counted;
          released = λ h. (same x).2 ∙ s.released (rw (same x).1 at h);
        })
        c.in_step;
  owned = All-map (λ a h. any_id-update a.todo_id i f todos keep ∙ h) rows c.owned;
}

-- ===== src/Kernel/Lifecycle/Defs.antt =====
-- The life of a todo: the edges that its status takes, and the rules for the statements.
use aidean_fleet.Common.{
  ℕ, ◌≡◌, Bool, true, false, List, [], ◌∷◌, ◌++◌, some, String, eqb, any, find?, update,
}
use aidean_fleet.Kernel.State.{Status}
use aidean_fleet.Kernel.Tables.{Todo}
use aidean_fleet.Kernel.Sql.{has_id}
use aidean_fleet.Common.{
  Bool-cases, find?-append, find?-update_ne, find?-update_self, inl, inr, ◌∙◌, subst, ap,
}
use aidean_fleet.Common.Text.{◌==◌, eq_of_==}
use aidean_fleet.Kernel.State.{Target, to, rework, transitions}

abbrev rank : Status → ℕ
rank Status.opened = 0
rank Status.claimed = 1
rank Status.running = 2
rank Status.verifying = 3
rank Status.done = 4
rank Status.blocked = 5
rank Status.needs_user = 6
rank Status.superseded = 7

abbrev is_target : Status → Target → Bool
is_target s (to t) = eqb (rank s) (rank t)
is_target s rework = false

-- `t in TRANSITIONS[s]`
unfoldable pub allows : Status → Status → Bool
unfolding transitions
allows s t = any (is_target t) (transitions s)

-- The edges: those of the table, and the one that an expired lease takes out of `verifying`.
pub data Edge (s t : Status) : Type 0 where
  listed : allows s t ≡ true → Edge s t
  expired : s ≡ Status.verifying → t ≡ Status.opened → Edge s t

pub data Chain (s : Status) : Status → Type 0 where
  here : Chain s s
  next : {t u : Status} → Chain s t → Edge t u → Chain s u

pub Chain-append : {s t u : Status} → Chain s t → Chain t u → Chain s u
Chain-append c here = c
Chain-append c (next d e) = next (Chain-append c d) e

pub Chain-one : (s t : Status) → allows s t ≡ true → Chain s t
Chain-one s t h = next here (listed h)

-- every todo is still there, and its status has gone along edges
abbrev pub Advances : List Todo → List Todo → Type 0
Advances todos todos' =
    (j : String) (t : Todo)
    → find? (has_id j) todos ≡ some t
    → (t' : Todo) × (find? (has_id j) todos' ≡ some t') × Chain t.status t'.status

pub Advances-refl : (todos : List Todo) → Advances todos todos
Advances-refl todos j t e = (t, e, here)

pub Advances-trans : (a b c : List Todo) → Advances a b → Advances b c → Advances a c
Advances-trans a b c g h j t e =
    let (t1, e1, c1) = g j t e in let (t2, e2, c2) = h j t1 e1 in (t2, e2, Chain-append c1 c2)

pub Advances-append : (todos : List Todo) (new : Todo) → Advances todos (todos ++ new ∷ [])
Advances-append todos new j t e = (t, find?-append (has_id j) todos (new ∷ []) e, here)

pub Advances-update :
    (i : String) (f : Todo → Todo) (todos : List Todo)
    → ((x : Todo) → (f x).id ≡ x.id)
    → ((t : Todo) → find? (has_id i) todos ≡ some t → Chain t.status (f t).status)
    → Advances todos (update (has_id i) f todos)
Advances-update i f todos keep move j t e = elim (Bool-cases (i == j)) [
  | inl p ↦
      let e' : find? (has_id i) todos ≡ some t = rw (eq_of_== i j p) e in
      (
        f t,
        rw (← eq_of_== i j p)
            (find?-update_self (has_id i) f todos (λ x. ap (λ k. k == i) (keep x)) e'),
        move t e',
      )
  | inr p ↦ (
    t,
    find?-update_ne (has_id i) (has_id j) f todos (λ x q.
          let out : (x.id == j) ≡ false = rw (eq_of_== x.id i q) p in (out, rw (keep x) out))
        ∙ e,
    here,
  )
]

-- the update of a row that is known
pub Advances-move :
    (i : String) (f : Todo → Todo) (todos : List Todo) {t : Todo}
    → ((x : Todo) → (f x).id ≡ x.id)
    → find? (has_id i) todos ≡ some t
    → Chain t.status (f t).status
    → Advances todos (update (has_id i) f todos)
Advances-move i f todos {t} keep at c =
    Advances-update i f todos keep
      (λ x e. let q : t ≡ x = cc (at, e) in subst (λ y. Chain y.status (f y).status) q c)

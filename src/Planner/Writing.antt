-- ===== src/Planner/Writing.antt =====
-- What `apply_plan` writes.
use aidean_fleet.Common.{
  ℕ, suc, ◌+◌, ◌≤◌, ◌<◌, ◌≡◌, refl, ◌∙◌, ◌↔◌, inl, inr, Bool, true, false, ◌&&◌, List, [], ◌∷◌,
  ◌++◌, map, none, some, String, any, all, find?, length, length-append, any-append,
  any_of_find?_none, Bool-cases, Option-cases, arith,
}
use aidean_fleet.Common.Text.{◌==◌, is_in}
use aidean_fleet.Common.Outcome.{
  Result, ok, err, from_option, bind_ok, from_option_ok, returned, Result-cases,
}
use aidean_fleet.Kernel.Tables.{Db, Env, Error, EventKind}
use aidean_fleet.Kernel.Sql.{has_id, has_goal_id, get_goal, event, insert_todo}
use aidean_fleet.Kernel.Goals.{create_todo, new_todo}
use aidean_fleet.Kernel.Steer.{mapped}
use aidean_fleet.Kernel.Consistency.Defs.{IsConsistent}
use aidean_fleet.Kernel.Consistency.Creation.{create_todo-IsConsistent}
use aidean_fleet.Planner.Schema.{PlanTodo, Plan}
use aidean_fleet.Planner.Service.{
  unmapped, map_ids, todo_of, kernel_result, apply_one, apply_each, apply_plan,
}

-- each todo depends on todos that are listed before it only
abbrev pub in_order : List String → List PlanTodo → Bool
in_order earlier [] = true
in_order earlier (t ∷ todos) =
    all (λ d. is_in d earlier) t.depends_on && in_order (t.id ∷ earlier) todos

mapped-is_in :
    (ids : List (String × String)) (d : String) {x : String}
    → mapped ids d ≡ some x
    → is_in d (map (λ p. p.0) ids) ≡ true
unfolding mapped
mapped-is_in [] d e = cc
mapped-is_in ((j, v) ∷ ids) d {x} e = ground (arith, mapped-is_in ids d {x = x})

is_in-mapped :
    (ids : List (String × String)) (d : String)
    → is_in d (map (λ p. p.0) ids) ≡ true
    → (x : String) × (mapped ids d ≡ some x)
unfolding mapped
is_in-mapped [] d e = cc
is_in-mapped ((j, v) ∷ ids) d e = elim (Bool-cases (j == d)) [
  | inl p ↦ (v, rw p)
  | inr p ↦ let (x, at) = is_in-mapped ids d (ground arith) in (x, rw p at)
]

map_ids-all :
    (ids : List (String × String)) (deps : List String) {xs : List String}
    → map_ids ids deps ≡ ok xs
    → all (λ d. is_in d (map (λ p. p.0) ids)) deps ≡ true
unfolding map_ids
map_ids-all ids [] e = refl
map_ids-all ids (d ∷ deps) e = bind_ok (from_option (mapped ids d) (unmapped d)) e λ x e1 k1.
    bind_ok (map_ids ids deps) k1 λ xs e2 k2.
      rw (mapped-is_in ids d (from_option_ok (mapped ids d) _ e1)) (map_ids-all ids deps e2)

all-map_ids :
    (ids : List (String × String)) (deps : List String)
    → all (λ d. is_in d (map (λ p. p.0) ids)) deps ≡ true
    → (xs : List String) × (map_ids ids deps ≡ ok xs)
unfolding map_ids
all-map_ids ids [] e = ([], refl)
all-map_ids ids (d ∷ deps) e =
    let (x, at) = is_in-mapped ids d (ground arith) in
    let (xs, rest) = all-map_ids ids deps (ground arith) in (x ∷ xs, rw (at, rest))

kernel_result_ok {ℓ} : {A : Type ℓ} (m : Result Error A) {a : A} → kernel_result m ≡ ok a → m ≡ ok a
kernel_result_ok (ok x) e = cc
kernel_result_ok (err x) e = cc

apply_one_ok :
    (env : Env) (g : String) (base : List String) (ids : List (String × String)) (spec : PlanTodo)
    (db : Db) {r : String × Db}
    → apply_one env g base ids spec db ≡ ok r
    → (deps : List String) × (map_ids ids spec.depends_on ≡ ok deps)
      × (create_todo env g (todo_of base deps spec) db ≡ ok r)
unfolding apply_one
apply_one_ok env g base ids spec db e =
    bind_ok (map_ids ids spec.depends_on) e
      λ deps e1 k1. (deps, e1, kernel_result_ok (create_todo env g (todo_of base deps spec) db) k1)

module _ (envs : ℕ → Env) (g : String) (base : List String) where
  apply_each-in_order :
      (n : ℕ) (specs : List PlanTodo) (ids : List (String × String)) (created : List String)
      (db : Db) {out : List String}
      → (apply_each envs g base n specs ids created db).0 ≡ ok out
      → (in_order (map (λ p. p.0) ids) specs ≡ true) × (length out ≡ length created + length specs)
  unfolding apply_each
  apply_each-in_order n [] ids created db e =
      returned (λ out. (true ≡ true) × (length out ≡ length created + 0)) created e
        (refl, omega arith)
  apply_each-in_order n (spec ∷ specs) ids created db {out} e =
      elim (Result-cases (apply_one (envs n) g base ids spec db)) [
        | inl (r, at) ↦
            let rest =
              apply_each-in_order (suc n) specs ((spec.id, r.0) ∷ ids) (created ++ r.0 ∷ []) r.1
                {out = out} (rw (at, apply_each) at e) in
            let (deps, e1, k1) = apply_one_ok (envs n) g base ids spec db at in
            (
              rw (map_ids-all ids spec.depends_on e1) rest.0,
              omega (arith, rest.1, length-append created (r.0 ∷ [])),
            )
        | inr (x, at) ↦ let bad = rw (at, apply_each) at e in cc bad
      ]

  apply_each-IsConsistent :
      (n : ℕ) (specs : List PlanTodo) (ids : List (String × String)) (created : List String)
      (db : Db)
      → IsConsistent db
      → IsConsistent (apply_each envs g base n specs ids created db).1
  unfolding apply_each
  apply_each-IsConsistent n [] ids created db c = c
  apply_each-IsConsistent n (spec ∷ specs) ids created db c =
      elim (Result-cases (apply_one (envs n) g base ids spec db)) [
        | inr (x, at) ↦ rw (at, apply_each) c
        | inl (r, at) ↦
            rw (at, apply_each)
              (apply_each-IsConsistent (suc n) specs ((spec.id, r.0) ∷ ids) (created ++ r.0 ∷ [])
                r.1
                (let (deps, e1, k1) = apply_one_ok (envs n) g base ids spec db at in
                  create_todo-IsConsistent (envs n) g (todo_of base deps spec) db k1 c))
      ]

  -- A plan that is written whole has each todo behind those that it depends on, and one new todo for
  -- each of its own; a plan that is valid in another order is never written whole.
  pub apply_plan-in_order :
      (plan : Plan) (db : Db) {created : List String}
      → (apply_plan envs g plan base db).0 ≡ ok created
      → (in_order [] plan.todos ≡ true) × (length created ≡ length plan.todos)
  unfolding apply_plan
  apply_plan-in_order plan db {created} e =
      let (o, n) = apply_each-in_order 0 plan.todos [] [] db {out = created} e in
      (o, omega (arith, n))

  -- Whatever is written of a plan, also before an exception, leaves the tables consistent.
  pub apply_plan-IsConsistent :
      (plan : Plan) (db : Db) → IsConsistent db → IsConsistent (apply_plan envs g plan base db).1
  unfolding apply_plan
  apply_plan-IsConsistent plan db c = apply_each-IsConsistent 0 plan.todos [] [] db c

  -- what lets the kernel make the todos from the n-th on: the goal is there, and the identifiers that
  -- it makes are new and distinct
  record CanCreate (n : ℕ) (db : Db) : Type 0 where
    goal_there : any (has_goal_id g) db.goals ≡ true
    unused : (k : ℕ) → n ≤ k → any (has_id ((envs k).fresh 0)) db.todos ≡ false
    distinct : (k m : ℕ) → k < m → ((envs k).fresh 0 == (envs m).fresh 0) ≡ false

  create_todo-returns :
      (n : ℕ) (deps : List String) (spec : PlanTodo) (db : Db)
      → CanCreate n db
      → (r : String × Db) × (create_todo (envs n) g (todo_of base deps spec) db ≡ ok r)
        × CanCreate (suc n) r.1
  unfolding create_todo get_goal insert_todo event new_todo ◌==◌ todo_of
  create_todo-returns n deps spec db c = elim (Option-cases (find? (has_goal_id g) db.goals)) [
    | inl missing ↦ cc (any_of_find?_none (has_goal_id g) db.goals missing, c.goal_there)
    | inr (goal, at) ↦
        let new_spec = todo_of base deps spec in
        let tid = (envs n).fresh 0 in
        let row = new_todo (envs n) tid g new_spec in
        let kind = EventKind.todo_created new_spec.kind new_spec.title new_spec.role none in
        (
          (tid, event (envs n) kind tid g (record db { todos = db.todos ++ row ∷ [] })),
          rw (at, c.unused n (omega arith), c.goal_there) refl,
          record {
            goal_there = c.goal_there;
            unused = λ k later.
                any-append (has_id ((envs k).fresh 0)) db.todos _
                ∙ rw (c.unused k (omega arith), c.distinct n k (omega arith)) refl;
            distinct = c.distinct;
          },
        )
  ]

  apply_one-returns :
      (n : ℕ) (ids : List (String × String)) (spec : PlanTodo) (db : Db) {deps : List String}
      {r : String × Db}
      → map_ids ids spec.depends_on ≡ ok deps
      → create_todo (envs n) g (todo_of base deps spec) db ≡ ok r
      → apply_one (envs n) g base ids spec db ≡ ok r
  unfolding apply_one
  apply_one-returns n ids spec db all_mapped made = rw (all_mapped, made) refl

  apply_each-returns :
      (n : ℕ) (specs : List PlanTodo) (ids : List (String × String)) (created : List String)
      (db : Db)
      → CanCreate n db
      → in_order (map (λ p. p.0) ids) specs ≡ true
      → (out : List String) × ((apply_each envs g base n specs ids created db).0 ≡ ok out)
  unfolding apply_each
  apply_each-returns n [] ids created db c o = (created, refl)
  apply_each-returns n (spec ∷ specs) ids created db c o =
      let (deps, all_mapped) = all-map_ids ids spec.depends_on (ground arith) in
      let (r, made, c1) = create_todo-returns n deps spec db c in
      let (out, at) =
        apply_each-returns (suc n) specs ((spec.id, r.0) ∷ ids) (created ++ r.0 ∷ []) r.1 c1
          (ground arith) in
      (out, rw (apply_one-returns n ids spec db all_mapped made, apply_each) at)

  -- Where the kernel can make todos, a plan is written whole exactly when each of its todos stands
  -- behind those that it depends on.
  pub apply_plan_iff :
      (plan : Plan) (db : Db)
      → any (has_goal_id g) db.goals ≡ true
      → ((k : ℕ) → any (has_id ((envs k).fresh 0)) db.todos ≡ false)
      → ((k m : ℕ) → k < m → ((envs k).fresh 0 == (envs m).fresh 0) ≡ false)
      → ((created : List String) × ((apply_plan envs g plan base db).0 ≡ ok created))
        ↔ (in_order [] plan.todos ≡ true)
  unfolding apply_plan
  apply_plan_iff plan db goal new distinct = (
    λ (created, e). (apply_plan-in_order plan db {created = created} e).0,
    λ o.
        apply_each-returns 0 plan.todos [] [] db
          record { goal_there = goal; unused = λ k later. new k; distinct = distinct } o,
  )

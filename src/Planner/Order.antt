-- ===== src/Planner/Order.antt =====
-- The search for a cycle orders the todos that it accepts.
use aidean_fleet.Common.{
  ℕ, zero, suc, ◌≤◌, ◌<◌, ◌≡◌, refl, ap, subst, inl, inr, true, ◌||◌, List, [], ◌∷◌, map, some,
  String, if◌then◌else◌, any, find?, length, All, All-map, Bool-cases, Option-cases,
  any_of_find?_none, arith,
}
use aidean_fleet.Common.Text.{◌==◌, eq_of_==, ==_refl, is_in}
use aidean_fleet.Common.Keys.{HasDistinctKeys, HasDistinctKeys-find?}
use aidean_fleet.Common.Outcome.{Result, ok, from_option, bind_ok, from_option_ok, returned}
use aidean_fleet.Planner.Schema.{
  PlanError, PlanTodo, Dfs, deps_of, visit_each, enter, leave, visit, search_cycles, key_error,
}

-- the names of todos, and where each is found
abbrev pub ids_of : List PlanTodo → List String
ids_of todos = map (λ t. t.id) todos

abbrev pub DependsOn : List PlanTodo → String → List String → Type 0
DependsOn todos id deps = deps_of id todos ≡ some deps

-- each name comes before those that it depends on
abbrev pub IsOrdered : List PlanTodo → List String → Type 0
IsOrdered todos [] = Unit
IsOrdered todos (x ∷ xs) =
    ((deps : List String) × DependsOn todos x deps × All (λ d. is_in d xs ≡ true) deps)
    × IsOrdered todos xs

-- a number for each name, smaller for what it depends on
abbrev pub IsRanked : (String → ℕ) → List PlanTodo → Type 0
IsRanked rank todos = All (λ t. All (λ d. rank d < rank t.id) t.depends_on) todos

-- each dependency is the name of a todo
abbrev pub IsKnown : List PlanTodo → Type 0
IsKnown todos = All (λ t. All (λ d. is_in d (ids_of todos) ≡ true) t.depends_on) todos

pub is_in-names :
    (id : String) (todos : List PlanTodo) → is_in id (ids_of todos) ≡ any (λ t. t.id == id) todos
is_in-names id [] = refl
is_in-names id (t ∷ todos) = ap (λ b. t.id == id || b) (is_in-names id todos)

-- the entry of a name
pub deps_of-name :
    (id : String) (todos : List PlanTodo)
    → is_in id (ids_of todos) ≡ true
    → (t : PlanTodo) × (find? (λ x. x.id == id) todos ≡ some t) × DependsOn todos id t.depends_on
unfolding deps_of
deps_of-name id todos e = elim (Option-cases (find? (λ x. x.id == id) todos)) [
  | inl missing ↦ cc (is_in-names id todos, any_of_find?_none (λ x. x.id == id) todos missing, e)
  | inr (t, at) ↦ (t, at, rw (at, deps_of))
]

record Visited (todos : List PlanTodo) (ids : List String) (s s' : Dfs) : Type 0 where
  ordered : IsOrdered todos s.finished → IsOrdered todos s'.finished
  there : All (λ d. is_in d s'.finished ≡ true) ids
  kept : (x : String) → is_in x s.finished ≡ true → is_in x s'.finished ≡ true

module _ (todos : List PlanTodo) where
  visit_each-Visited :
      (go : String → Dfs → Result PlanError Dfs)
      → ((d : String) (s s' : Dfs) → go d s ≡ ok s' → Visited todos (d ∷ []) s s')
      → (deps : List String) (s s' : Dfs) → visit_each go deps s ≡ ok s'
      → Visited todos deps s s'
  unfolding visit_each
  visit_each-Visited go one [] s s' e =
      returned (Visited todos [] s) s e record { ordered = λ h. h; there = tt; kept = λ x h. h }
  visit_each-Visited go one (d ∷ deps) s s' e = bind_ok (go d s) e λ s1 e1 k.
      let a = one d s s1 e1 in
      let b = visit_each-Visited go one deps s1 s' k in
      record {
        ordered = λ h. b.ordered (a.ordered h);
        there = (b.kept d a.there.0, b.there);
        kept = λ x h. b.kept x (a.kept x h);
      }

  visit-Visited :
      (fuel : ℕ) (id : String) (s s' : Dfs)
      → visit todos fuel id s ≡ ok s'
      → Visited todos (id ∷ []) s s'
  unfolding visit
  visit-Visited zero id s s' e = cc
  visit-Visited (suc fuel) id s s' e = elim (Bool-cases (is_in id s.finished)) [
    | inl p ↦
        returned (Visited todos (id ∷ []) s) s (rw p at e)
          record { ordered = λ h. h; there = (p, tt); kept = λ x h. h }
    | inr p ↦ elim (Bool-cases (is_in id s.visiting)) [
      | inl q ↦ let k = rw (p, q) at e in cc k
      | inr q ↦ bind_ok (from_option (deps_of id todos) key_error) (rw (p, q) at e) λ deps e1 k1.
          bind_ok (visit_each (visit todos fuel) deps (enter id s)) k1 λ s1 e2 k2.
            let each =
              visit_each-Visited (visit todos fuel) (visit-Visited fuel) deps (enter id s) s1 e2 in
            returned (Visited todos (id ∷ []) s) (leave id s1) k2 record {
              ordered =
                  λ h. ((deps, from_option_ok (deps_of id todos) _ e1, each.there), each.ordered h);
              there = (rw (==_refl id), tt);
              kept = λ x h. ground (arith, each.kept x h);
            }
    ]
  ]

-- A search that ends well has put every todo into an order in which each comes before those that it
-- depends on.
search_cycles-IsOrdered :
    (todos : List PlanTodo) (s : Dfs)
    → search_cycles todos ≡ ok s
    → IsOrdered todos s.finished × All (λ d. is_in d s.finished ≡ true) (ids_of todos)
unfolding search_cycles
search_cycles-IsOrdered todos s e =
    let v =
      visit_each-Visited todos (visit todos (suc (length todos)))
        (visit-Visited todos (suc (length todos))) (ids_of todos) _ s e in
    (v.ordered tt, v.there)

-- the place of a name, counted from the end
rank_in : List String → String → ℕ
rank_in [] x = 0
rank_in (t ∷ ts) x =
    let rest = rank_in ts x in if is_in x ts then rest else if t == x then suc (length ts) else 0

rank_in-le-length : (ts : List String) (x : String) → rank_in ts x ≤ length ts
unfolding rank_in
rank_in-le-length [] x = omega arith
rank_in-le-length (t ∷ ts) x = ground (arith, rank_in-le-length ts x)

rank_in-lt :
    (todos : List PlanTodo) (ts : List String) (x : String) (deps : List String)
    → IsOrdered todos ts
    → is_in x ts ≡ true
    → DependsOn todos x deps
    → All (λ d. (is_in d ts ≡ true) × (rank_in ts d < rank_in ts x)) deps
unfolding rank_in
rank_in-lt todos [] x deps o e k = cc
rank_in-lt todos (t ∷ ts) x deps o e k = elim (Bool-cases (is_in x ts)) [
  | inl p ↦
      All-map (λ d h. let q : is_in d ts ≡ true = h.0 in (ground (arith, h.0), rw (p, q) h.1)) deps
        (rank_in-lt todos ts x deps o.1 p k)
  | inr p ↦
      let own : t ≡ x = eq_of_== t x (ground arith) in
      let same : o.0.0 ≡ deps = cc (o.0.1, k, own) in
      All-map
        (λ d h.
          let q : is_in d ts ≡ true = h in
          (ground (arith, h), rw (p, q, own, ==_refl x) (omega (arith, rank_in-le-length ts d))))
        deps (subst (λ ds. All (λ d. is_in d ts ≡ true) ds) same o.0.2)
]

-- with distinct names, the entry that is found for a todo is its own
names-DependsOn :
    (todos : List PlanTodo)
    → HasDistinctKeys (λ t. t.id) todos
    → All (λ t. DependsOn todos t.id t.depends_on) todos
unfolding deps_of
names-DependsOn todos h =
    All-map (λ (t : PlanTodo) (at : find? (λ y. y.id == t.id) todos ≡ some t). rw (at, deps_of))
      todos (HasDistinctKeys-find? (λ t. t.id) todos h)

IsRanked-All :
    (todos : List PlanTodo) (ts : List String) (some_todos : List PlanTodo)
    → IsOrdered todos ts
    → All (λ d. is_in d ts ≡ true) (ids_of some_todos)
    → All (λ t. DependsOn todos t.id t.depends_on) some_todos
    → IsRanked (rank_in ts) some_todos
IsRanked-All todos ts [] o there h = tt
IsRanked-All todos ts (t ∷ rest) o there h = (
  All-map (λ d k. k.1) t.depends_on (rank_in-lt todos ts t.id t.depends_on o there.0 h.0),
  IsRanked-All todos ts rest o there.1 h.1,
)

-- A plan with distinct names that the search accepts has no cycle: its names have numbers that grow
-- from a dependency to what depends on it.
pub search_cycles-IsRanked :
    (todos : List PlanTodo) (s : Dfs)
    → HasDistinctKeys (λ t. t.id) todos
    → search_cycles todos ≡ ok s
    → (rank : String → ℕ) × IsRanked rank todos
search_cycles-IsRanked todos s distinct e =
    let (o, there) = search_cycles-IsOrdered todos s e in
    (
      rank_in s.finished,
      IsRanked-All todos s.finished todos o there (names-DependsOn todos distinct),
    )

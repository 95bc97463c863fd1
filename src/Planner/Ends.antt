-- ===== src/Planner/Ends.antt =====
-- The search for a cycle ends, and it refuses no plan that has an order.
use aidean_fleet.Common.{
  ℕ, zero, suc, ◌≤◌, ◌<◌, ◌≡◌, refl, subst, ◌⊎◌, inl, inr, Bool, true, false, not, List, [], ◌∷◌,
  String, filter, count, length, All, All-find, All-map, Bool-cases, find?-true, arith,
}
use aidean_fleet.Common.Text.{◌==◌, eq_of_==, ==_refl, is_in}
use aidean_fleet.Common.Keys.{All-is_in}
use aidean_fleet.Common.Outcome.{Result, ok, err}
use aidean_fleet.Planner.Schema.{
  PlanError, PlanTodo, Dfs, visit_each, enter, leave, visit, search_cycles, cycle,
}
use aidean_fleet.Planner.Order.{ids_of, IsRanked, IsKnown, deps_of-name}

-- the names that are not being visited
abbrev waiting : List PlanTodo → List String → ℕ
waiting todos v = count (λ x. not (is_in x v)) (ids_of todos)

-- no name of the list has a number below those of the names being visited
abbrev IsRefused : List PlanTodo → List String → List String → Type 0
IsRefused todos ids v =
    (rank : String → ℕ) → IsRanked rank todos → All (λ d. All (λ x. rank d < rank x) v) ids → ⊥

-- the search went on as before, or it found a cycle
abbrev Ends : List PlanTodo → List String → List String → Result PlanError Dfs → Type 0
Ends todos ids v r =
    ((s : Dfs) × (r ≡ ok s) × (s.visiting ≡ v))
    ⊎ ((c : String) × (r ≡ err (cycle c)) × IsRefused todos ids v)

filter-ne : (id : String) (v : List String) → is_in id v ≡ false → filter (λ x. not (x == id)) v ≡ v
filter-ne id [] h = refl
filter-ne id (x ∷ v) h = ground (arith, filter-ne id v)

waiting-le :
    (ids v : List String) (id : String)
    → count (λ x. not (is_in x (id ∷ v))) ids ≤ count (λ x. not (is_in x v)) ids
waiting-le [] v id = omega arith
waiting-le (x ∷ ids) v id = ground (arith, waiting-le ids v id)

waiting-lt :
    (ids v : List String) (id : String)
    → is_in id ids ≡ true
    → is_in id v ≡ false
    → count (λ x. not (is_in x (id ∷ v))) ids < count (λ x. not (is_in x v)) ids
waiting-lt [] v id h k = cc
waiting-lt (x ∷ ids) v id h k = elim (Bool-cases (x == id)) [
  | inl p ↦ rw (eq_of_== x id p, ==_refl id, k) (omega (arith, waiting-le ids v id))
  | inr p ↦
      let rest = waiting-lt ids v id (ground arith) k in
      ground (arith, rest, p, waiting-le ids v id)
]

visit_each-Ends :
    (todos : List PlanTodo) (go : String → Dfs → Result PlanError Dfs) (v : List String)
    → ((d : String) (s : Dfs)
        → is_in d (ids_of todos) ≡ true
        → s.visiting ≡ v
        → Ends todos (d ∷ []) v (go d s))
    → (deps : List String) (s : Dfs) → All (λ d. is_in d (ids_of todos) ≡ true) deps
    → s.visiting ≡ v
    → Ends todos deps v (visit_each go deps s)
unfolding visit_each
visit_each-Ends todos go v one [] s h e = inl (s, refl, e)
visit_each-Ends todos go v one (d ∷ deps) s h e = elim (one d s h.0 e) [
  | inr (c, at, refused) ↦ inr (c, rw at, λ rank r below. refused rank r (below.0, tt))
  | inl (s1, at, same) ↦ elim (visit_each-Ends todos go v one deps s1 h.1 same) [
    | inl (s2, at2, same2) ↦ inl (s2, rw at at2, same2)
    | inr (c, at2, refused) ↦ inr (c, rw at at2, λ rank r below. refused rank r below.1)
  ]
]

below_deps :
    (rank : String → ℕ) (id : String) (v deps : List String)
    → All (λ x. rank id < rank x) v
    → All (λ d. rank d < rank id) deps
    → All (λ d. All (λ x. rank d < rank x) (id ∷ v)) deps
below_deps rank id v deps below h =
    All-map (λ d k. (k, All-map (λ x l. omega arith) v below)) deps h

visit-Ends :
    (todos : List PlanTodo)
    → IsKnown todos
    → (fuel : ℕ) (id : String) (s : Dfs) → is_in id (ids_of todos) ≡ true
    → waiting todos s.visiting < fuel
    → Ends todos (id ∷ []) s.visiting (visit todos fuel id s)
unfolding visit
visit-Ends todos known zero id s there few = absurd (omega arith)
visit-Ends todos known (suc fuel) id s there few = elim (Bool-cases (is_in id s.finished)) [
  | inl p ↦ inl (s, rw p, refl)
  | inr p ↦ elim (Bool-cases (is_in id s.visiting)) [
    | inl q ↦ inr (
      id,
      rw (p, q),
      λ rank r below.
          absurd (omega (arith, All-is_in (λ x. rank id < rank x) id s.visiting below.0 q)),
    )
    | inr q ↦
        let (t, found, deps) = deps_of-name id todos there in
        let own : t.id ≡ id = eq_of_== t.id id (find?-true (λ x. x.id == id) todos found) in
        let fewer = waiting-lt (ids_of todos) s.visiting id there q in
        elim (visit_each-Ends todos (visit todos fuel) (id ∷ s.visiting)
          (λ d s1 at same.
            subst (λ v. Ends todos (d ∷ []) v (visit todos fuel d s1)) same
              (visit-Ends todos known fuel d s1 at (rw same (omega arith))))
          t.depends_on (enter id s)
          (All-find (λ t. All (λ d. is_in d (ids_of todos) ≡ true) t.depends_on) (λ x. x.id == id)
            todos known found)
          refl) [
            | inl (s1, at, same) ↦ inl (
              leave id s1,
              rw (p, q, deps, at),
              rw (same, ==_refl id) (filter-ne id s.visiting q),
            )
            | inr (c, at, refused) ↦ inr (
              c,
              rw (p, q, deps, at),
              λ rank r below. refused rank r (
                  below_deps rank id s.visiting t.depends_on below.0 (
                    subst (λ i. All (λ d. rank d < rank i) t.depends_on) own
                      (All-find (λ t. All (λ d. rank d < rank t.id) t.depends_on) (λ x. x.id == id)
                        todos r found))),
            )
          ]
  ]
]

All-self :
    (todos rest : List PlanTodo)
    → ((id : String) → is_in id (ids_of rest) ≡ true → is_in id (ids_of todos) ≡ true)
    → All (λ d. is_in d (ids_of todos) ≡ true) (ids_of rest)
All-self todos [] h = tt
All-self todos (t ∷ rest) h =
    (h t.id (rw (==_refl t.id)), All-self todos rest (λ id e. h id (ground (arith, e))))

count-le-length :
    (p : String → Bool) (todos : List PlanTodo) → count p (ids_of todos) ≤ length todos
count-le-length p [] = omega arith
count-le-length p (t ∷ todos) = ground (arith, count-le-length p todos)

All-same : (ids : List String) → All (λ d. Unit {0}) ids
All-same [] = tt
All-same (x ∷ ids) = (tt, All-same ids)

-- Where each dependency names a todo, the search always ends: it goes through, or it reports a cycle,
-- and then no numbers of the names grow from each dependency to what depends on it.
pub search_cycles_ends :
    (todos : List PlanTodo)
    → IsKnown todos
    → ((s : Dfs) × (search_cycles todos ≡ ok s))
      ⊎ ((c : String) × (search_cycles todos ≡ err (cycle c))
          × ¬ ((rank : String → ℕ) × IsRanked rank todos))
unfolding search_cycles
search_cycles_ends todos known =
    elim (visit_each-Ends todos (visit todos (suc (length todos))) []
      (λ d s at same.
        subst (λ v. Ends todos (d ∷ []) v (visit todos (suc (length todos)) d s)) same
          (visit-Ends todos known (suc (length todos)) d s at
            (omega (arith, count-le-length (λ x. not (is_in x s.visiting)) todos))))
      (ids_of todos) record { visiting = []; finished = [] } (All-self todos todos (λ id e. e))
      refl) [
        | inl (s, at, same) ↦ inl (s, at)
        | inr (c, at, refused) ↦ inr (c, at, λ (rank, r). refused rank r (All-same (ids_of todos)))
      ]

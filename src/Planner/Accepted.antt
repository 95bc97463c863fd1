-- ===== src/Planner/Accepted.antt =====
-- What holds of every plan that `validate_plan` accepts.
use aidean_fleet.Common.{
  ℕ, suc, ◌≡◌, ◌∙◌, subst, inl, inr, Bool, true, false, not, ◌||◌, List, [], ◌∷◌, ◌++◌, map, Option,
  none, some, String, any, is_empty, is_empty-map, any-map, All, All-append, Bool-cases,
  Option-cases, arith,
}
use aidean_fleet.Common.Text.{is_in, is_blank, strip}
use aidean_fleet.Common.Keys.{HasDistinctKeys, HasDistinctKeys-snoc}
use aidean_fleet.Common.Outcome.{ok, from_option, bind_ok, guard_ok, from_option_ok, returned}
use aidean_fleet.Planner.Json.{Value, as_object, as_array, as_text, lookup, text_at}
use aidean_fleet.Planner.Schema.{
  PlanTodo, Plan, Python, is_id, is_fake, verify_of, allowed_of, depends_of, milestone_allowed,
  check_milestones, check_todo, check_todos, check_known_of, check_known, search_cycles,
  validate_plan, texts,
}
use aidean_fleet.Planner.Order.{IsRanked, IsKnown, search_cycles-IsRanked}

-- what the checks of one todo establish
pub record IsSound (todo : PlanTodo) : Type 0 where
  pub id_ok : is_id todo.id ≡ true
  pub has_title : is_blank todo.title ≡ false
  pub has_role : is_blank todo.role ≡ false
  pub has_verify : is_empty todo.verify ≡ false
  pub real_commands : any is_blank todo.verify ≡ false
  pub has_files : is_empty todo.allowed_files ≡ false

verify_of-real :
    (v : Option Value) {cmds : List String}
    → verify_of v ≡ some cmds
    → (is_empty (map strip cmds) ≡ false) × (any is_blank (map strip cmds) ≡ false)
unfolding verify_of
verify_of-real none e = cc
verify_of-real (some v) {cmds} e = elim (Option-cases (as_array v)) [
  | inl none_there ↦ cc (rw (none_there, verify_of) at e)
  | inr (vs, array_there) ↦ elim (Option-cases (texts vs)) [
    | inl mixed ↦ cc (rw (array_there, mixed, verify_of) at e)
    | inr (found, texts_there) ↦
        elim (Bool-cases (is_empty found || any (λ c. is_blank (strip c)) found)) [
          | inl bad ↦ cc (rw (array_there, texts_there, bad, verify_of) at e)
          | inr good ↦
              let same : found ≡ cmds = cc (rw (array_there, texts_there, good, verify_of) at e) in
              subst
                (λ cs. (is_empty (map strip cs) ≡ false) × (any is_blank (map strip cs) ≡ false))
                same
                (
                  is_empty-map strip found ∙ ground arith,
                  any-map is_blank strip found ∙ ground arith,
                )
        ]
  ]
]

not-false : (b : Bool) → not b ≡ true → b ≡ false
not-false b h = ground arith

module _ (py : Python) where
  check_todo-IsSound :
      (ms ids : List String) (index : ℕ) (v : Value) {t : PlanTodo}
      → check_todo py ms ids index v ≡ ok t
      → IsSound t × (is_in t.id ids ≡ false)
  unfolding check_todo
  check_todo-IsSound ms ids index v e = bind_ok (from_option (as_object v) _) e λ fields e1 k1.
      bind_ok (from_option (lookup "id" fields) _) k1 λ id_value e2 k2.
        bind_ok (from_option (as_text id_value) _) k2 λ id e3 k3.
          guard_ok (is_id id) _ k3 λ id_ok k4. guard_ok (not (is_in id ids)) _ k4 λ new k5.
            bind_ok (from_option (lookup "title" fields) _) k5 λ title_value e6 k6.
              bind_ok (from_option (as_text title_value) _) k6 λ title e7 k7.
                guard_ok (not (is_blank (strip title))) _ k7 λ titled k8.
                  guard_ok (not (is_blank (strip (text_at py.show (lookup "role" fields))))) _ k8
                    λ cast k9.
                      guard_ok (milestone_allowed ms (lookup "milestone" fields)) _ k9 λ placed k10.
                        bind_ok (from_option (verify_of (lookup "verify" fields)) _) k10
                          λ verify e11 k11.
                            guard_ok (not (any (is_fake py) verify)) _ k11 λ real k12.
                              guard_ok
                                (not (is_empty (allowed_of py (lookup "allowed_files" fields)))) _
                                k12
                                λ filed k13.
                                  bind_ok
                                    (from_option (depends_of py (lookup "depends_on" fields)) _) k13
                                    λ deps e14 k14.
                                      let cmds = verify_of-real (lookup "verify" fields) (
                                        from_option_ok (verify_of (lookup "verify" fields)) _
                                          e11) in
                                      returned (λ t. IsSound t × (is_in t.id ids ≡ false)) _ k14
                                        (
                                          record {
                                            id_ok = id_ok;
                                            has_title = not-false _ titled;
                                            has_role = not-false _ cast;
                                            has_verify = cmds.0;
                                            real_commands = cmds.1;
                                            has_files = not-false _ filed;
                                          },
                                          not-false _ new,
                                        )

  check_todos-IsSound :
      (ms : List String) (index : ℕ) (seen : List PlanTodo) (vs : List Value)
      {todos : List PlanTodo}
      → check_todos py ms index seen vs ≡ ok todos
      → All IsSound seen
      → HasDistinctKeys (λ t. t.id) seen
      → All IsSound todos × HasDistinctKeys (λ t. t.id) todos
  unfolding check_todos
  check_todos-IsSound ms index seen [] e h k =
      returned (λ ts. All IsSound ts × HasDistinctKeys (λ t. t.id) ts) seen e (h, k)
  check_todos-IsSound ms index seen (v ∷ vs) e h k =
      bind_ok (check_todo py ms (map (λ x. x.id) seen) index v) e λ t e1 k1.
        let (sound, new) = check_todo-IsSound ms (map (λ x. x.id) seen) index v e1 in
        check_todos-IsSound ms (suc index) (seen ++ t ∷ []) vs k1
          (All-append IsSound seen (t ∷ []) h (sound, tt))
          (HasDistinctKeys-snoc (λ x. x.id) seen t k new)

known_of :
    (ids : List String) (id : String) (deps : List String)
    → check_known_of ids id deps ≡ ok tt
    → All (λ d. is_in d ids ≡ true) deps
unfolding check_known_of
known_of ids id [] e = tt
known_of ids id (d ∷ deps) e = guard_ok (is_in d ids) _ e λ there k. (there, known_of ids id deps k)

known-All :
    (ids : List String) (todos : List PlanTodo)
    → check_known ids todos ≡ ok tt
    → All (λ t. All (λ d. is_in d ids ≡ true) t.depends_on) todos
unfolding check_known
known-All ids [] e = tt
known-All ids (t ∷ todos) e =
    bind_ok (check_known_of ids t.id t.depends_on) e
      λ u e1 k. (known_of ids t.id t.depends_on e1, known-All ids todos k)

-- what holds of a plan that is accepted
pub record IsAccepted (plan : Plan) : Type 0 where
  pub sound : All IsSound plan.todos
  pub distinct : HasDistinctKeys (λ t. t.id) plan.todos
  pub known : IsKnown plan.todos
  pub rank : String → ℕ
  pub ranked : IsRanked rank plan.todos

-- In a plan that is accepted each todo has an identifier of the pattern, a title, a role, files, and
-- commands to verify it, none of them blank; no two todos have one identifier; each dependency names a
-- todo; and the todos have numbers that grow from a dependency to what depends on it.
pub validate_plan-IsAccepted :
    (py : Python) (v : Value) {plan : Plan} → validate_plan py v ≡ ok plan → IsAccepted plan
unfolding validate_plan
validate_plan-IsAccepted py v e = bind_ok (from_option (as_object v) _) e λ fields e1 k1.
    bind_ok (from_option (lookup "milestones" fields) _) k1 λ mv e2 k2.
      bind_ok (from_option (as_array mv) _) k2 λ mvs e3 k3.
        guard_ok (not (is_empty mvs)) _ k3 λ some_milestones k4.
          bind_ok (from_option (lookup "todos" fields) _) k4 λ tv e5 k5.
            bind_ok (from_option (as_array tv) _) k5 λ tvs e6 k6.
              guard_ok (not (is_empty tvs)) _ k6 λ some_todos k7.
                bind_ok (check_milestones 0 [] mvs) k7 λ ms e8 k8.
                  bind_ok (check_todos py (map (λ m. m.id) ms) 0 [] tvs) k8 λ todos e9 k9.
                    bind_ok (check_known (map (λ t. t.id) todos) todos) k9 λ u e10 k10.
                      bind_ok (search_cycles todos) k10 λ s e11 k11.
                        let (sound, distinct) =
                          check_todos-IsSound py (map (λ m. m.id) ms) 0 [] tvs e9 tt tt in
                        let (rank, ranked) = search_cycles-IsRanked todos s distinct e11 in
                        returned IsAccepted record { milestones = ms; todos = todos } k11
                          record {
                            sound = sound;
                            distinct = distinct;
                            known = known-All (map (λ t. t.id) todos) todos e10;
                            rank = rank;
                            ranked = ranked;
                          }

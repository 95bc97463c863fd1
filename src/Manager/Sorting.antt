-- ===== src/Manager/Sorting.antt =====
-- The loop of `detect_cycles`: what it keeps true, and that its fuel is enough.
use aidean_fleet.Common.{
  ◌≤◌, ◌≡◌, refl, ◌∙◌, sym, subst, inl, inr, true, false, ◌||◌, List, [], ◌∷◌, ◌++◌, String,
  if◌then◌else◌, count, is_empty, All, Bool-cases, any-append, count-append, arith,
}
use aidean_fleet.Common.Text.{◌==◌, ==_refl, eq_of_==, is_in, precedes}
use aidean_fleet.Common.Sorted.{order_by, any-order_by, count-order_by}
use aidean_fleet.Manager.Cycles.{Entry, names_of, is_within}

-- what a task of the graph depends on
abbrev pub deps_in : List Entry → String → List String
deps_in [] n = []
deps_in ((node, deps) ∷ graph) n = if node == n then deps else deps_in graph n

-- each task that is taken has its dependencies taken before it
abbrev pub IsTaken : List Entry → List String → Type 0
IsTaken graph [] = Unit
IsTaken graph (n ∷ taken) =
    (is_in n (names_of graph) ≡ true)
    × (is_in n taken ≡ false)
    × (is_within taken (deps_in graph n) ≡ true)
    × IsTaken graph taken

-- an entry is the one that its name finds
abbrev pub IsEntry : List Entry → Entry → Type 0
IsEntry graph e = (is_in e.0 (names_of graph) ≡ true) × (deps_in graph e.0 ≡ e.1)

pub record IsQueue (graph : List Entry) (taken queue : List String) : Type 0 where
  pub free :
      (x : String)
      → is_in x queue ≡ true
      → (is_in x (names_of graph) ≡ true)
        × (is_in x taken ≡ false)
        × (is_within taken (deps_in graph x) ≡ true)
  pub once : (x : String) → count (λ y. y == x) queue ≤ 1

-- a task whose dependencies are taken is taken or waits
abbrev pub IsReached : List String → List String → Entry → Type 0
IsReached taken queue e = is_within taken e.1 ≡ true → (is_in e.0 taken || is_in e.0 queue) ≡ true

pub record Added (graph : List Entry) (taken queue : List String) (rest : List Entry)
    (queue' : List String) : Type 0 where
  pub is_queue : IsQueue graph taken queue'
  pub kept : (x : String) → is_in x queue ≡ true → is_in x queue' ≡ true
  pub reached : All (λ e. is_empty e.1 ≡ false → IsReached taken queue' e) rest

pub count-none :
    (x : String) (queue : List String) → is_in x queue ≡ false → count (λ y. y == x) queue ≡ 0
count-none x [] e = refl
count-none x (y ∷ queue) e = ground (arith, count-none x queue)

pub none-count :
    (x : String) (queue : List String) → count (λ y. y == x) queue ≤ 0 → is_in x queue ≡ false
none-count x [] l = refl
none-count x (y ∷ queue) l = ground (arith, none-count x queue)

module _ (graph : List Entry) (taken : List String) where
  pub joined-IsQueue :
      (queue : List String) (n : String)
      → IsQueue graph taken queue
      → is_in n queue ≡ false
      → (is_in n (names_of graph) ≡ true)
        × (is_in n taken ≡ false)
        × (is_within taken (deps_in graph n) ≡ true)
      → IsQueue graph taken (order_by precedes (queue ++ n ∷ []))
  joined-IsQueue queue n q new free = record {
    free = λ x there.
        let at : (is_in x queue || is_in x (n ∷ [])) ≡ true =
          sym (any-append (λ y. y == x) queue (n ∷ []))
          ∙ sym (any-order_by precedes (λ y. y == x) (queue ++ n ∷ []))
          ∙ there in
        elim (Bool-cases (n == x)) [
          | inl same ↦
              subst
                (λ z.
                  (is_in z (names_of graph) ≡ true)
                  × (is_in z taken ≡ false)
                  × (is_within taken (deps_in graph z) ≡ true))
                (eq_of_== n x same) free
          | inr other ↦ q.free x (ground arith)
        ];
    once = λ x.
        let size = count-order_by precedes (λ y. y == x) (queue ++ n ∷ []) in
        let sum = count-append (λ y. y == x) queue (n ∷ []) in
        elim (Bool-cases (n == x)) [
          | inl same ↦
              let fresh =
                count-none x queue (subst (λ z. is_in z queue ≡ false) (eq_of_== n x same) new) in
              rw size (rw sum (rw same (omega (arith, fresh))))
          | inr other ↦ rw size (rw sum (rw other (omega (arith, q.once x))))
        ];
  }

  pub kept_joined :
      (queue : List String) (n x : String)
      → is_in x queue ≡ true
      → is_in x (order_by precedes (queue ++ n ∷ [])) ≡ true
  kept_joined queue n x e =
      any-order_by precedes (λ y. y == x) (queue ++ n ∷ [])
      ∙ any-append (λ y. y == x) queue (n ∷ [])
      ∙ rw e refl

  pub new_joined :
      (queue : List String) (n : String) → is_in n (order_by precedes (queue ++ n ∷ [])) ≡ true
  new_joined queue n =
      any-order_by precedes (λ y. y == n) (queue ++ n ∷ [])
      ∙ any-append (λ y. y == n) queue (n ∷ [])
      ∙ rw (==_refl n) (ground arith)

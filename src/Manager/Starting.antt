-- ===== src/Manager/Starting.antt =====
-- The state in which the loop of `detect_cycles` starts, and that it ends.
use aidean_fleet.Common.{
  ◌≤◌, ◌≡◌, refl, ◌∙◌, sym, subst, inl, inr, Bool, true, false, List, [], ◌∷◌, some, String, count,
  filter, is_empty, length, All, All-map, Bool-cases, arith,
}
use aidean_fleet.Common.Text.{◌==◌, ==_refl, eq_of_==, is_in, precedes}
use aidean_fleet.Common.Keys.{HasDistinctKeys}
use aidean_fleet.Common.Sorted.{any-order_by, count-order_by}
use aidean_fleet.Manager.Cycles.{Entry, names_of, is_within, first_free, take_free}
use aidean_fleet.Manager.Sorting.{deps_in, IsEntry, IsQueue, IsReached, count-none}
use aidean_fleet.Manager.Rounds.{open_in, IsFinal, take_free-IsFinal}

-- the state before the first round
pub entries_of : (graph : List Entry) → HasDistinctKeys (λ e. e.0) graph → All (IsEntry graph) graph
entries_of [] h = tt
entries_of (x ∷ graph) h = (
  (rw (==_refl x.0) refl, rw (==_refl x.0) refl),
  All-map
      (λ e k. elim (Bool-cases (x.0 == e.0)) [
        | inr other ↦ (rw other k.0, rw other k.1)
        | inl same ↦
            let gone = subst (λ z. is_in z (names_of graph) ≡ false) (eq_of_== x.0 e.0 same) h.0 in
            cc (gone, k.0)
      ])
      graph (entries_of graph h.1),
)

abbrev is_free : Entry → Bool
is_free e = is_empty e.1

free_has :
    (graph rest : List Entry) (x : String)
    → All (IsEntry graph) rest
    → is_in x (names_of (filter is_free rest)) ≡ true
    → (is_in x (names_of graph) ≡ true) × (is_within [] (deps_in graph x) ≡ true)
free_has graph [] x entries e = cc e
free_has graph ((node, []) ∷ rest) x entries e = elim (Bool-cases (node == x)) [
  | inr other ↦ free_has graph rest x entries.1 (rw other at e)
  | inl same ↦
      subst (λ z. (is_in z (names_of graph) ≡ true) × (is_within [] (deps_in graph z) ≡ true))
        (eq_of_== node x same) (entries.0.0, rw entries.0.1 refl)
]
free_has graph ((node, d ∷ deps) ∷ rest) x entries e = free_has graph rest x entries.1 e

is_in-free :
    (p : Entry → Bool) (graph : List Entry) (x : String)
    → is_in x (names_of graph) ≡ false
    → is_in x (names_of (filter p graph)) ≡ false
is_in-free p [] x e = refl
is_in-free p (n ∷ graph) x e = elim (Bool-cases (p n)) [
  | inl yes_p ↦ let rest = is_in-free p graph x (ground arith) in rw yes_p (ground arith)
  | inr no_p ↦ rw no_p (is_in-free p graph x (ground arith))
]

count-free :
    (p : Entry → Bool) (graph : List Entry) (x : String)
    → HasDistinctKeys (λ e. e.0) graph
    → count (λ y. y == x) (names_of (filter p graph)) ≤ 1
count-free p [] x h = omega arith
count-free p (n ∷ graph) x h = elim (Bool-cases (p n)) [
  | inr no_p ↦ rw no_p (count-free p graph x h.1)
  | inl yes_p ↦ elim (Bool-cases (n.0 == x)) [
    | inr other ↦ rw (yes_p, other) (omega (arith, count-free p graph x h.1))
    | inl same ↦
        let gone =
          is_in-free p graph x
            (subst (λ z. is_in z (names_of graph) ≡ false) (eq_of_== n.0 x same) h.0) in
        rw (yes_p, same) (omega (arith, count-none x (names_of (filter p graph)) gone))
  ]
]

free-IsReached :
    (rest : List Entry)
    → All (λ e. is_within [] e.1 ≡ true → is_in e.0 (names_of (filter is_free rest)) ≡ true) rest
free-IsReached [] = tt
free-IsReached ((node, []) ∷ rest) = (
  λ w. rw (==_refl node) refl,
  All-map (λ e k w. let there = k w in ground arith) rest (free-IsReached rest),
)
free-IsReached ((node, d ∷ deps) ∷ rest) = (λ w. cc w, free-IsReached rest)

open_in-nil : (graph : List Entry) → open_in graph [] ≡ length graph
open_in-nil [] = refl
open_in-nil (e ∷ graph) = omega (arith, open_in-nil graph)

first_free-IsQueue :
    (graph : List Entry) → HasDistinctKeys (λ e. e.0) graph → IsQueue graph [] (first_free graph)
unfolding first_free
first_free-IsQueue graph h = record {
  free = λ x e.
      let (known, within) =
        free_has graph graph x (entries_of graph h)
          (sym (any-order_by precedes (λ y. y == x) (names_of (filter is_free graph))) ∙ e) in
      (known, refl, within);
  once = λ x.
      rw (count-order_by precedes (λ y. y == x) (names_of (filter is_free graph)))
        (count-free is_free graph x h);
}

first_free-IsReached : (graph : List Entry) → All (IsReached [] (first_free graph)) graph
unfolding first_free
first_free-IsReached graph =
    All-map (λ e k w. any-order_by precedes (λ y. y == e.0) (names_of (filter is_free graph)) ∙ k w)
      graph (free-IsReached graph)

-- The loop ends within as many rounds as there are tasks.
pub take_free_ends :
    (graph : List Entry)
    → HasDistinctKeys (λ e. e.0) graph
    → (out : List String) × (take_free graph (length graph) [] (first_free graph) ≡ some out)
      × IsFinal graph out
take_free_ends graph h =
    take_free-IsFinal graph (entries_of graph h) h (length graph) [] (first_free graph)
      (omega (arith, open_in-nil graph)) (omega (arith, open_in-nil graph)) tt
      (first_free-IsQueue graph h) (first_free-IsReached graph)

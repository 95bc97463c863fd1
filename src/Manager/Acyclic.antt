-- ===== src/Manager/Acyclic.antt =====
-- `detect_cycles` reports nothing exactly where there is no cycle.
use aidean_fleet.Common.{
  ℕ, zero, suc, ◌≤◌, ◌<◌, ◌≡◌, refl, ◌∙◌, sym, ap, subst, ◌⊎◌, inl, inr, true, false, not, ◌&&◌,
  List, [], ◌∷◌, some, String, eqb, any, filter, is_empty, length, All, All-map, Bool-cases, arith,
}
use aidean_fleet.Common.Text.{◌==◌, ==_refl, eq_of_==, is_in, precedes}
use aidean_fleet.Common.Keys.{HasDistinctKeys, All-zip, is_in-filter}
use aidean_fleet.Common.Sorted.{any-order_by}
use aidean_fleet.Manager.Cycles.{
  Entry, names_of, remaining, is_within, left_over, report, detect_cycles,
}
use aidean_fleet.Manager.Sorting.{deps_in, IsEntry}
use aidean_fleet.Manager.Rounds.{open_in, IsFinal}
use aidean_fleet.Manager.Starting.{entries_of, take_free_ends}
use aidean_fleet.Manager.Ranks.{
  IsRanked, IsInner, All-within, place, placed, names_of-inner, inner-HasDistinctKeys, inner-All,
}

by_name {ℓ} :
    (Q : String → List String → Type ℓ) (graph : List Entry) (n : String)
    → All (λ e. Q e.0 e.1) graph
    → is_in n (names_of graph) ≡ true
    → Q n (deps_in graph n)
by_name Q [] n h e = cc e
by_name Q ((node, deps) ∷ graph) n h e = elim (Bool-cases (node == n)) [
  | inl same ↦ rw same (subst (λ z. Q z deps) (eq_of_== node n same) h.0)
  | inr other ↦ rw other (by_name Q graph n h.1 (rw other at e))
]

All-taken :
    (graph : List Entry) (out : List String)
    → open_in graph out ≡ 0
    → All (λ e. is_in e.0 out ≡ true) graph
All-taken [] out e = tt
All-taken (x ∷ graph) out e = (ground arith, All-taken graph out (ground arith))

none_open :
    (graph : List Entry) (out : List String)
    → All (λ e. is_in e.0 out ≡ true) graph
    → open_in graph out ≡ 0
none_open [] out h = refl
none_open (x ∷ graph) out h = rw h.0 (omega (arith, none_open graph out h.1))

All-self :
    (xs ys : List String)
    → ((x : String) → is_in x xs ≡ true → is_in x ys ≡ true)
    → All (λ x. is_in x ys ≡ true) xs
All-self [] ys k = tt
All-self (x ∷ xs) ys k = (k x (rw (==_refl x) refl), All-self xs ys (λ y e. k y (ground arith)))

module _ (graph : List Entry) (distinct : HasDistinctKeys (λ e. e.0) graph) (inner : IsInner graph)
    (out : List String) (final : IsFinal graph out) where
  is_in-left_over :
      (x : String) → is_in x (left_over graph out) ≡ (not (is_in x out) && is_in x (names_of graph))
  unfolding left_over
  is_in-left_over x =
      any-order_by precedes (λ y. y == x) (filter (λ n. not (is_in n out)) (names_of graph))
      ∙ is_in-filter (λ n. not (is_in n out)) x (names_of graph)

  ranked : open_in graph out ≡ 0 → IsRanked (place out) graph
  ranked none_left =
      All-map
        (λ e (known, taken).
          subst (λ deps. All (λ d. place out d < place out e.0) deps) known.1
            (All-map (λ d k. k.1) (deps_in graph e.0) (placed graph out e.0 final.sorted taken)))
        graph
        (All-zip (IsEntry graph) (λ e. is_in e.0 out ≡ true) graph (entries_of graph distinct)
          (All-taken graph out none_left))

  below :
      (rank : String → ℕ)
      → IsRanked rank graph
      → (k : ℕ) (x : String) → is_in x (names_of graph) ≡ true
      → rank x < k
      → is_in x out ≡ true
  below rank r zero x known l = absurd (omega (arith, l))
  below rank r (suc k) x known l =
      by_name (λ n deps. is_within out deps ≡ true → is_in n out ≡ true) graph x final.complete
        known
        (All-within out (deps_in graph x) (
          All-map (λ d (less, there). below rank r k d there (omega (arith, l, less)))
            (deps_in graph x)
            (All-zip (λ d. rank d < rank x) (λ d. is_in d (names_of graph) ≡ true) (deps_in graph x)
              (by_name (λ n deps. All (λ d. rank d < rank n) deps) graph x r known)
              (by_name (λ n deps. All (λ d. is_in d (names_of graph) ≡ true) deps) graph x inner
                known))))

  not-IsRanked : 1 ≤ open_in graph out → ¬ ((rank : String → ℕ) × IsRanked rank graph)
  not-IsRanked some_left (rank, r) =
      let none_left = none_open graph out (
        All-map (λ e known. below rank r (suc (rank e.0)) e.0 known.0 (omega arith)) graph
          (entries_of graph distinct)) in
      absurd (omega (arith, some_left, none_left))

  some_left_over :
      (deps : List String)
      → is_within out deps ≡ false
      → All (λ d. is_in d (names_of graph) ≡ true) deps
      → any (λ d. is_in d (left_over graph out)) deps ≡ true
  some_left_over [] e h = cc e
  some_left_over (d ∷ deps) e h = elim (Bool-cases (is_in d out)) [
    | inl taken ↦ let rest = some_left_over deps (rw taken at e) h.1 in rw rest (ground arith)
    | inr left ↦ rw (is_in-left_over d, left, h.0) refl
  ]

  -- each task that is left over depends on one that is
  left_over_depends :
      All
        (λ n. any (λ d. is_in d (left_over graph out)) (deps_in graph n) ≡ true)
        (left_over graph out)
  left_over_depends =
      All-map
        (λ n there.
          let both : (not (is_in n out) && is_in n (names_of graph)) ≡ true =
            sym (is_in-left_over n) ∙ there in
          some_left_over (deps_in graph n)
            (elim (Bool-cases (is_within out (deps_in graph n))) [
              | inr free ↦ free
              | inl within ↦
                  let taken =
                    by_name (λ n deps. is_within out deps ≡ true → is_in n out ≡ true) graph n
                      final.complete (ground arith) within in
                  ground arith
            ])
            (by_name (λ n deps. All (λ d. is_in d (names_of graph) ≡ true) deps) graph n inner
              (ground arith)))
        (left_over graph out) (All-self (left_over graph out) (left_over graph out) (λ x e. e))

  left_over_nonempty : 1 ≤ open_in graph out → is_empty (left_over graph out) ≡ false
  left_over_nonempty some_left = by_list (left_over graph out) refl
    where
      by_list : (c : List String) → left_over graph out ≡ c → is_empty c ≡ false
      by_list (x ∷ c) e = refl
      by_list [] e =
          let none_left = none_open graph out (
            All-map
              (λ entry known.
                let absent : (not (is_in entry.0 out) && is_in entry.0 (names_of graph)) ≡ false =
                  sym (is_in-left_over entry.0) ∙ ap (λ xs. is_in entry.0 xs) e in
                ground (arith, known.0))
              graph (entries_of graph distinct)) in
          absurd (omega (arith, some_left, none_left))

remaining-HasDistinctKeys :
    (deps_map : List Entry)
    → HasDistinctKeys (λ e. e.0) deps_map
    → HasDistinctKeys (λ e. e.0) (remaining deps_map)
unfolding remaining
remaining-HasDistinctKeys deps_map h = inner-HasDistinctKeys (names_of deps_map) deps_map h

remaining-IsInner : (deps_map : List Entry) → IsInner (remaining deps_map)
unfolding remaining
remaining-IsInner deps_map =
    rw (names_of-inner (names_of deps_map) deps_map) (inner-All (names_of deps_map) deps_map)

-- Of a dictionary of dependencies the search either reports nothing, and then the tasks have numbers that
-- grow from each dependency within it to what depends on it; or it reports one list, not empty, in which
-- each task depends on another of the list, and then there are no such numbers.
pub detect_cycles_ends :
    (deps_map : List Entry)
    → HasDistinctKeys (λ e. e.0) deps_map
    → ((detect_cycles deps_map ≡ some [])
        × ((rank : String → ℕ) × IsRanked rank (remaining deps_map)))
      ⊎ ((c : List String) × (detect_cycles deps_map ≡ some (c ∷ []))
          × (is_empty c ≡ false)
          × All (λ n. any (λ d. is_in d c) (deps_in (remaining deps_map) n) ≡ true) c
          × ¬ ((rank : String → ℕ) × IsRanked rank (remaining deps_map)))
unfolding detect_cycles report
detect_cycles_ends deps_map h =
    let graph = remaining deps_map in
    let distinct = remaining-HasDistinctKeys deps_map h in
    let inner = remaining-IsInner deps_map in
    let (out, at, final) = take_free_ends graph distinct in
    elim (Bool-cases (eqb (length out) (length graph))) [
      | inl all_out ↦
          let size = final.size in
          inl (
            rw (at, all_out, detect_cycles) refl,
            (place out, ranked graph distinct inner out final (ground arith)),
          )
      | inr some_out ↦
          let size = final.size in
          let some_left : 1 ≤ open_in graph out = ground arith in
          inr (
            left_over graph out,
            rw (at, some_out, detect_cycles) refl,
            left_over_nonempty graph distinct inner out final some_left,
            left_over_depends graph distinct inner out final,
            not-IsRanked graph distinct inner out final some_left,
          )
    ]

-- ===== src/Manager/Ranks.antt =====
-- The order in which tasks are taken gives each a number above what it depends on.
use aidean_fleet.Common.{
  ℕ, ◌<◌, ◌≡◌, refl, ap, subst, inl, inr, Bool, true, false, List, [], ◌∷◌, String, if◌then◌else◌,
  filter, length, All, All-map, Bool-cases, arith,
}
use aidean_fleet.Common.Text.{◌==◌, ==_refl, eq_of_==, is_in}
use aidean_fleet.Common.Keys.{HasDistinctKeys}
use aidean_fleet.Manager.Cycles.{Entry, names_of, inner_of, is_within}
use aidean_fleet.Manager.Sorting.{deps_in, IsTaken}

-- a number for each task, smaller for what it depends on
abbrev pub IsRanked : (String → ℕ) → List Entry → Type 0
IsRanked rank graph = All (λ e. All (λ d. rank d < rank e.0) e.1) graph

-- the dependencies are tasks of the graph
abbrev pub IsInner : List Entry → Type 0
IsInner graph = All (λ e. All (λ d. is_in d (names_of graph) ≡ true) e.1) graph

pub within-All :
    (taken deps : List String) → is_within taken deps ≡ true → All (λ d. is_in d taken ≡ true) deps
within-All taken [] e = tt
within-All taken (d ∷ deps) e = (ground arith, within-All taken deps (ground arith))

pub All-within :
    (taken deps : List String) → All (λ d. is_in d taken ≡ true) deps → is_within taken deps ≡ true
All-within taken [] h = refl
All-within taken (d ∷ deps) h = rw h.0 (All-within taken deps h.1)

-- the place of a task, counted from the first that was taken
abbrev pub place : List String → String → ℕ
place [] x = 0
place (n ∷ taken) x = if n == x then length taken else place taken x

place-lt : (taken : List String) (x : String) → is_in x taken ≡ true → place taken x < length taken
place-lt [] x e = cc e
place-lt (n ∷ taken) x e = elim (Bool-cases (n == x)) [
  | inl same ↦ rw same (omega arith)
  | inr other ↦ rw other (omega (arith, place-lt taken x (ground arith)))
]

not_same :
    (taken : List String) (n d : String)
    → is_in n taken ≡ false
    → is_in d taken ≡ true
    → (n == d) ≡ false
not_same taken n d new there = elim (Bool-cases (n == d)) [
  | inr other ↦ other
  | inl same ↦ let k = subst (λ z. is_in z taken ≡ false) (eq_of_== n d same) new in cc (there, k)
]

pub placed :
    (graph : List Entry) (taken : List String) (m : String)
    → IsTaken graph taken
    → is_in m taken ≡ true
    → All (λ d. (is_in d taken ≡ true) × (place taken d < place taken m)) (deps_in graph m)
placed graph [] m t e = cc e
placed graph (n ∷ taken) m t e = elim (Bool-cases (n == m)) [
  | inl same ↦
      subst
        (λ z.
          All (λ d. (is_in d (n ∷ taken) ≡ true) × (place (n ∷ taken) d < place (n ∷ taken) z))
            (deps_in graph z))
        (eq_of_== n m same)
        (All-map
          (λ d there.
            let other = not_same taken n d t.1 there in
            (rw other there, rw (other, ==_refl n) (place-lt taken d there)))
          (deps_in graph n) (within-All taken (deps_in graph n) t.2))
  | inr other ↦
      All-map (λ d k. let new = not_same taken n d t.1 k.0 in (rw new k.0, rw (new, other) k.1))
        (deps_in graph m) (placed graph taken m t.3 (rw other at e))
]

pub names_of-inner :
    (known : List String) (graph : List Entry) → names_of (inner_of known graph) ≡ names_of graph
unfolding inner_of
names_of-inner known [] = refl
names_of-inner known (e ∷ graph) = ap (λ ns. e.0 ∷ ns) (names_of-inner known graph)

pub inner-HasDistinctKeys :
    (known : List String) (graph : List Entry)
    → HasDistinctKeys (λ e. e.0) graph
    → HasDistinctKeys (λ e. e.0) (inner_of known graph)
unfolding inner_of
inner-HasDistinctKeys known [] h = tt
inner-HasDistinctKeys known (e ∷ graph) h =
    (rw (names_of-inner known graph) h.0, inner-HasDistinctKeys known graph h.1)

All-filtered : (p : String → Bool) (deps : List String) → All (λ d. p d ≡ true) (filter p deps)
All-filtered p [] = tt
All-filtered p (d ∷ deps) = elim (Bool-cases (p d)) [
  | inl kept ↦ rw kept (kept, All-filtered p deps)
  | inr dropped ↦ rw dropped (All-filtered p deps)
]

pub inner-All :
    (known : List String) (graph : List Entry)
    → All (λ e. All (λ d. is_in d known ≡ true) e.1) (inner_of known graph)
unfolding inner_of
inner-All known [] = tt
inner-All known (e ∷ graph) = (All-filtered (λ d. is_in d known) e.1, inner-All known graph)

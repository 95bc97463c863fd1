-- ===== src/Manager/Rounds.antt =====
-- The rounds of `detect_cycles`: each takes one task, and there are enough of them.
use aidean_fleet.Common.{
  ℕ, zero, suc, ◌+◌, ◌≤◌, ◌≡◌, refl, ◌∙◌, sym, subst, inl, inr, true, false, not, ◌&&◌, ◌||◌, List,
  [], ◌∷◌, ◌++◌, some, String, count, is_empty, length, All, All-map, Bool-cases, arith,
}
use aidean_fleet.Common.Text.{◌==◌, ==_refl, ==_comm, eq_of_==, is_in, precedes}
use aidean_fleet.Common.Keys.{HasDistinctKeys}
use aidean_fleet.Common.Sorted.{order_by}
use aidean_fleet.Manager.Cycles.{Entry, names_of, is_within, add_free, take_free}
use aidean_fleet.Manager.Sorting.{
  deps_in, IsTaken, IsEntry, IsQueue, IsReached, Added, joined-IsQueue, kept_joined, new_joined,
  none-count,
}

module _ (graph : List Entry) (taken : List String) where
  add_free-Added :
      (rest : List Entry) (queue : List String)
      → All (IsEntry graph) rest
      → IsQueue graph taken queue
      → Added graph taken queue rest (add_free taken rest queue)
  unfolding add_free
  add_free-Added [] queue entries q = record { is_queue = q; kept = λ x e. e; reached = tt }
  add_free-Added ((other, deps) ∷ rest) queue entries q =
      elim (Bool-cases (is_in other taken || is_in other queue)) [
        | inl known ↦
            let later = add_free-Added rest queue entries.1 q in
            rw known record {
              is_queue = later.is_queue;
              kept = later.kept;
              reached = (
                λ nonempty within. elim (Bool-cases (is_in other taken)) [
                  | inl t ↦ rw t refl
                  | inr f ↦ rw f (later.kept other (rw f at known))
                ],
                later.reached,
              );
            }
        | inr new ↦ elim (Bool-cases (not (is_empty deps) && is_within taken deps)) [
          | inr not_free ↦
              let later = add_free-Added rest queue entries.1 q in
              rw (new, not_free)
                record {
                  is_queue = later.is_queue;
                  kept = later.kept;
                  reached =
                      (λ nonempty within. cc (rw (nonempty, within) at not_free), later.reached);
                }
          | inl free ↦
              let within : is_within taken (deps_in graph other) ≡ true =
                rw entries.0.1 (ground arith) in
              let later = add_free-Added rest (order_by precedes (queue ++ other ∷ [])) entries.1 (
                joined-IsQueue graph taken queue other q (ground arith)
                  (entries.0.0, ground arith, within)) in
              rw (new, free)
                record {
                  is_queue = later.is_queue;
                  kept = λ x e. later.kept x (kept_joined graph taken queue other x e);
                  reached = (
                    λ nonempty inside.
                        let there = later.kept other (new_joined graph taken queue other) in
                        ground arith,
                    later.reached,
                  );
                }
        ]
      ]

-- how many entries are not taken
abbrev pub open_in : List Entry → List String → ℕ
open_in graph taken = count (λ e. not (is_in e.0 taken)) graph

-- a name that is not in the graph does not change the count
open_in-other :
    (graph : List Entry) (taken : List String) (n : String)
    → is_in n (names_of graph) ≡ false
    → open_in graph (n ∷ taken) ≡ open_in graph taken
open_in-other [] taken n e = refl
open_in-other (x ∷ graph) taken n e =
    let other : (n == x.0) ≡ false = ==_comm n x.0 ∙ ground arith in
    rw other (ground (arith, open_in-other graph taken n (ground arith)))

open_in-taken :
    (graph : List Entry) (taken : List String) (n : String)
    → HasDistinctKeys (λ e. e.0) graph
    → is_in n (names_of graph) ≡ true
    → is_in n taken ≡ false
    → suc (open_in graph (n ∷ taken)) ≡ open_in graph taken
open_in-taken [] taken n distinct e new = cc e
open_in-taken (x ∷ graph) taken n distinct e new = elim (Bool-cases (x.0 == n)) [
  | inl same ↦
      let eq = eq_of_== x.0 n same in
      let rest =
        open_in-other graph taken n (subst (λ z. is_in z (names_of graph) ≡ false) eq distinct.0) in
      let gone : is_in x.0 taken ≡ false = subst (λ z. is_in z taken ≡ false) (sym eq) new in
      let back : (n == x.0) ≡ true = ==_comm n x.0 ∙ same in rw (back, gone) (omega (arith, rest))
  | inr other ↦
      let back : (n == x.0) ≡ false = ==_comm n x.0 ∙ other in
      let rest = open_in-taken graph taken n distinct.1 (ground arith) new in
      rw back (omega (arith, rest))
]

-- what the loop has when it ends
pub record IsFinal (graph : List Entry) (taken : List String) : Type 0 where
  pub sorted : IsTaken graph taken
  pub complete : All (λ e. is_within taken e.1 ≡ true → is_in e.0 taken ≡ true) graph
  pub size : length taken + open_in graph taken ≡ length graph

within_more :
    (taken : List String) (n : String) (deps : List String)
    → is_within taken deps ≡ true
    → is_within (n ∷ taken) deps ≡ true
within_more taken n [] e = refl
within_more taken n (d ∷ deps) e = ground (arith, within_more taken n deps (ground arith))

-- a name waits once, so behind it in the queue it does not stand again
not_again :
    (n : String) (queue : List String) → count (λ y. y == n) (n ∷ queue) ≤ 1 → is_in n queue ≡ false
not_again n queue l = none-count n queue (let one = ==_refl n in ground arith)

popped-IsQueue :
    (graph : List Entry) (taken queue : List String) (n : String)
    → IsQueue graph taken (n ∷ queue)
    → IsQueue graph (n ∷ taken) queue
popped-IsQueue graph taken queue n q = record {
  free = λ x e.
      let (known, new, within) = q.free x (ground arith) in
      let other : (n == x) ≡ false = elim (Bool-cases (n == x)) [
        | inr p ↦ p
        | inl p ↦
            let again =
              subst (λ z. is_in z queue ≡ false) (eq_of_== n x p) (not_again n queue (q.once n)) in
            cc (e, again)
      ] in
      (known, rw other new, within_more taken n (deps_in graph x) within);
  once = λ x. let l = q.once x in omega (arith, l);
}

module _ (graph : List Entry) (entries : All (IsEntry graph) graph) where
  -- a task that is reached stays so when the first of the queue is taken
  next-IsReached :
      (taken queue queue' : List String) (n : String) (rest : List Entry)
      → ((x : String) → is_in x queue ≡ true → is_in x queue' ≡ true)
      → All (IsReached taken (n ∷ queue)) rest
      → All (λ e. is_empty e.1 ≡ false → IsReached (n ∷ taken) queue' e) rest
      → All (IsReached (n ∷ taken) queue') rest
  next-IsReached taken queue queue' n [] kept before now = tt
  next-IsReached taken queue queue' n (e ∷ rest) kept before now = (
    λ within. elim (Bool-cases (is_empty e.1)) [
      | inr nonempty ↦ now.0 nonempty within
      | inl empty ↦
          let there = before.0 (within_empty e.1 empty) in
          elim (Bool-cases (is_in e.0 queue)) [
            | inl waits ↦ let k = kept e.0 waits in ground arith
            | inr gone ↦ ground arith
          ]
    ],
    next-IsReached taken queue queue' n rest kept before.1 now.1,
  )
    where
      within_empty : (deps : List String) → is_empty deps ≡ true → is_within taken deps ≡ true
      within_empty [] e = refl
      within_empty (d ∷ deps) e = cc e

  pub take_free-IsFinal :
      (distinct : HasDistinctKeys (λ e. e.0) graph) (fuel : ℕ) (taken queue : List String)
      → open_in graph taken ≤ fuel
      → length taken + open_in graph taken ≡ length graph
      → IsTaken graph taken
      → IsQueue graph taken queue
      → All (IsReached taken queue) graph
      → (out : List String) × (take_free graph fuel taken queue ≡ some out) × IsFinal graph out
  unfolding take_free
  take_free-IsFinal distinct fuel taken [] l size t q r = (
    taken,
    refl,
    record {
      sorted = t;
      complete = All-map (λ e reached within. let k = reached within in ground arith) graph r;
      size = size;
    },
  )
  take_free-IsFinal distinct zero taken (n ∷ queue) l size t q r =
      let (known, new, within) = q.free n (rw (==_refl n) refl) in
      absurd (omega (arith, l, open_in-taken graph taken n distinct known new))
  take_free-IsFinal distinct (suc fuel) taken (n ∷ queue) l size t q r =
      let (known, new, within) = q.free n (rw (==_refl n) refl) in
      let fewer = open_in-taken graph taken n distinct known new in
      let added =
        add_free-Added graph (n ∷ taken) graph queue entries
          (popped-IsQueue graph taken queue n q) in
      take_free-IsFinal distinct fuel (n ∷ taken) (add_free (n ∷ taken) graph queue)
        (omega (arith, l, fewer)) (omega (arith, size, fewer)) (known, new, within, t)
        added.is_queue
        (next-IsReached taken queue (add_free (n ∷ taken) graph queue) n graph added.kept r
          added.reached)

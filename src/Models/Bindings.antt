-- ===== src/Models/Bindings.antt =====
-- The chain of a role: which models it has, and that none is there twice.
use aidean_fleet.Common.{
  ℕ, ◌≡◌, refl, ◌∙◌, ap, sym, subst, inl, inr, Bool, true, false, List, [], ◌∷◌, ◌++◌, some, String,
  eqb, any, All, All-append, All-filter, All-map, Bool-cases, Option-cases, any-append, arith,
}
use aidean_fleet.Common.Text.{◌==◌, eq_of_==, ==_refl, ==_comm}
use aidean_fleet.Models.Pool.{
  ModelEntry, Settings, same_bool, sorts_before, same_entry, is_allowed, insert_entry, sort_entries,
  load_pool, get_by_name, role_chain, add_candidate, add_candidates, chain_for,
}

abbrev is_named : String → ModelEntry → Bool
is_named n e = e.name == n

-- no two of these models have one name
abbrev pub HasDistinctNames : List ModelEntry → Type 0
HasDistinctNames [] = Unit
HasDistinctNames (e ∷ es) = (any (is_named e.name) es ≡ false) × HasDistinctNames es

HasDistinctNames-append :
    (es : List ModelEntry) (e : ModelEntry)
    → HasDistinctNames es
    → any (is_named e.name) es ≡ false
    → HasDistinctNames (es ++ e ∷ [])
HasDistinctNames-append [] e h new = (refl, tt)
HasDistinctNames-append (x ∷ es) e h new =
    let other : (e.name == x.name) ≡ false = ==_comm e.name x.name ∙ ground arith in
    (
      any-append (is_named x.name) es (e ∷ []) ∙ rw (h.0, other),
      HasDistinctNames-append es e h.1 (ground arith),
    )

same_bool_refl : (b : Bool) → same_bool b b ≡ true
same_bool_refl true = refl
same_bool_refl false = refl

eqb_refl : (n : ℕ) → eqb n n ≡ true
eqb_refl n = ground arith

same_entry_refl : (e : ModelEntry) → same_entry e e ≡ true
unfolding same_entry
same_entry_refl e = rw (
  ==_refl e.name,
  ==_refl e.base_url,
  ==_refl e.model_id,
  ==_refl e.api_key,
  ==_refl e.http_proxy,
  ==_refl e.https_proxy,
  ==_refl e.env_scope,
  eqb_refl e.level,
  same_bool_refl e.resolved,
  same_bool_refl e.cache,
)

get_by_name-name :
    (n : String) (es : List ModelEntry) {e : ModelEntry} → get_by_name n es ≡ some e → e.name ≡ n
unfolding get_by_name
get_by_name-name n [] {e} h = cc
get_by_name-name n (x ∷ es) {e} h = elim (Option-cases (get_by_name n es)) [
  | inl missing ↦ elim (Bool-cases (x.name == n)) [
    | inl p ↦ let same : x ≡ e = ground arith in rw (← same) (eq_of_== x.name n p)
    | inr p ↦ ground arith
  ]
  | inr (later, at) ↦ let same : later ≡ e = ground arith in rw (← same) (get_by_name-name n es at)
]

get_by_name-All :
    (P : ModelEntry → Type 0) (n : String) (es : List ModelEntry) {e : ModelEntry}
    → All P es
    → get_by_name n es ≡ some e
    → P e
unfolding get_by_name
get_by_name-All P n [] {e} h k = cc
get_by_name-All P n (x ∷ es) {e} h k = elim (Option-cases (get_by_name n es)) [
  | inl missing ↦ let same : x ≡ e = ground arith in subst P same h.0
  | inr (later, at) ↦
      let same : later ≡ e = ground arith in subst P same (get_by_name-All P n es h.1 at)
]

module _ (P : ModelEntry → Type 0) where
  insert_entry-All :
      (e : ModelEntry) (es : List ModelEntry) → P e → All P es → All P (insert_entry e es)
  unfolding insert_entry
  insert_entry-All e [] p h = (p, tt)
  insert_entry-All e (x ∷ es) p h = elim (Bool-cases (sorts_before x e)) [
    | inl t ↦ rw t (h.0, insert_entry-All e es p h.1)
    | inr t ↦ rw t (p, h)
  ]

  sort_entries-All : (es : List ModelEntry) → All P es → All P (sort_entries es)
  unfolding sort_entries
  sort_entries-All [] h = tt
  sort_entries-All (e ∷ es) h = insert_entry-All e (sort_entries es) h.0 (sort_entries-All es h.1)

-- what every model of a chain has: it is the pool's model of its name, and it has the property
abbrev IsFromPool : List ModelEntry → (ModelEntry → Type 0) → ModelEntry → Type 0
IsFromPool pool P e = (get_by_name e.name pool ≡ some e) × P e

record IsChain (pool : List ModelEntry) (P : ModelEntry → Type 0) (chain : List ModelEntry)
    : Type 0 where
  distinct : HasDistinctNames chain
  from_pool : All (IsFromPool pool P) chain

-- a model that is not in the chain has a new name
new_name :
    (pool : List ModelEntry) (P : ModelEntry → Type 0) (e : ModelEntry) (chain : List ModelEntry)
    → get_by_name e.name pool ≡ some e
    → All (IsFromPool pool P) chain
    → any (same_entry e) chain ≡ false
    → any (is_named e.name) chain ≡ false
new_name pool P e [] at h new = refl
new_name pool P e (x ∷ chain) at h new = elim (Bool-cases (x.name == e.name)) [
  | inl p ↦
      let found : get_by_name e.name pool ≡ some x = rw (← eq_of_== x.name e.name p) h.0.0 in
      let same : x ≡ e = cc (found, at) in
      let again : same_entry e x ≡ true =
        subst (λ y. same_entry e y ≡ true) (sym same) (same_entry_refl e) in
      absurd (ground (arith, again, new))
  | inr p ↦ rw p (new_name pool P e chain at h.1 (ground arith))
]

add_candidate-IsChain :
    (pool : List ModelEntry) (P : ModelEntry → Type 0) (n : String) (chain : List ModelEntry)
    → All P pool
    → IsChain pool P chain
    → IsChain pool P (add_candidate (get_by_name n pool) chain)
add_candidate-IsChain pool P n chain all c = elim (Option-cases (get_by_name n pool)) [
  | inl missing ↦ rw missing c
  | inr (e, at) ↦
      let own : get_by_name e.name pool ≡ some e =
        ap (λ m. get_by_name m pool) (get_by_name-name n pool at) ∙ at in
      elim (Bool-cases (any (same_entry e) chain)) [
        | inl there ↦ rw (at, there) c
        | inr new ↦
            rw (at, new)
              record {
                distinct =
                    HasDistinctNames-append chain e c.distinct
                      (new_name pool P e chain own c.from_pool new);
                from_pool =
                    All-append (IsFromPool pool P) chain (e ∷ []) c.from_pool
                      ((own, get_by_name-All P n pool all at), tt);
              }
      ]
]

add_candidates-IsChain :
    (pool : List ModelEntry) (P : ModelEntry → Type 0) (names : List String)
    (chain : List ModelEntry)
    → All P pool
    → IsChain pool P chain
    → IsChain pool P (add_candidates pool names chain)
unfolding add_candidates
add_candidates-IsChain pool P [] chain all c = c
add_candidates-IsChain pool P (n ∷ names) chain all c =
    add_candidates-IsChain pool P names (add_candidate (get_by_name n pool) chain) all
      (add_candidate-IsChain pool P n chain all c)

All-const {ℓ κ} : {A : Type ℓ} (P : A → Type κ) (xs : List A) → ((x : A) → P x) → All P xs
All-const P [] h = tt
All-const P (x ∷ xs) h = (h x, All-const P xs h)

load_pool-allowed :
    (lower : String → String) (c : Settings) (include_prod : Bool)
    → All (λ e. is_allowed lower include_prod e ≡ true) (load_pool lower c (some include_prod))
unfolding load_pool
load_pool-allowed lower c include_prod =
    sort_entries-All (λ e. is_allowed lower include_prod e ≡ true) _
      (All-map (λ x h. h.1) _
        (All-filter (λ e. Unit {0}) (is_allowed lower include_prod) c.models
          (All-const (λ e. Unit {0}) c.models (λ e. tt))))

-- The chain of a role names no model twice, and has only the models that the pool gives for their
-- names, even where the role is bound to one name several times or the pool has a name twice. Without
-- production, none of them is for production only.
pub chain_for-distinct :
    (lower : String → String) (c : Settings) (role : String) (include_prod : Bool)
    → HasDistinctNames (chain_for lower c role (some include_prod))
      × All
          (λ e.
            (get_by_name e.name (load_pool lower c (some include_prod)) ≡ some e)
            × (is_allowed lower include_prod e ≡ true))
          (chain_for lower c role (some include_prod))
unfolding chain_for
chain_for-distinct lower c role include_prod =
    let chain =
      add_candidates-IsChain (load_pool lower c (some include_prod))
        (λ e. is_allowed lower include_prod e ≡ true) (role_chain role c.roles) []
        (load_pool-allowed lower c include_prod) record { distinct = tt; from_pool = tt } in
    (chain.distinct, chain.from_pool)

-- ===== src/Gates/Segments.antt =====
-- A name of a directory is split exactly where it is a row of known segments.
use aidean_fleet.Common.{
  ℕ, zero, suc, ◌≤◌, ◌≡◌, refl, ap, sym, ◌↔◌, inl, inr, Bool, true, false, not, ◌&&◌, ◌||◌, List,
  [], ◌∷◌, some, String, any, all, find?, find?-true, All, subst, any_of_find?_none, Bool-cases,
  Option-cases, arith,
}
use aidean_fleet.Common.Text.{◌==◌, ==_refl, eq_of_==, is_in, is_blank, append, chars}
use aidean_fleet.Common.Text.{starts_with}
use aidean_fleet.Common.Text.{drop_chars}
use aidean_fleet.Common.Prefixes.{
  append-drop_chars, starts_with-append, drop_chars-append, chars-append, starts_with_comparable,
}
use aidean_fleet.Common.Sorted.{insert_by, order_by}
use aidean_fleet.Gates.Flattened.{tokens, split_by, split_flattened}

-- the segments without separators
abbrev pub joined : List String → String
joined [] = ""
joined (t ∷ segments) = append t (joined segments)

abbrev pub AllIn : List String → List String → Type 0
AllIn words segments = All (λ t. is_in t words ≡ true) segments

is_blank-nil : (s : String) → is_blank s ≡ true → "" ≡ s
unfolding is_blank
is_blank-nil String.[] e = refl
is_blank-nil (String.◌∷◌ c s) e = cc e

is_in-find? :
    (p : String → Bool) (words : List String) {t : String}
    → find? p words ≡ some t
    → is_in t words ≡ true
is_in-find? p [] e = cc e
is_in-find? p (w ∷ words) {t} e = elim (Bool-cases (p w)) [
  | inl here ↦ let same : w ≡ t = cc (rw here at e) in rw (same, ==_refl t) refl
  | inr later ↦ ground (arith, is_in-find? p words {t = t} (rw later at e))
]

module _ (words : List String) where
  split_by-joined :
      (fuel : ℕ) (name : String) {segments : List String}
      → split_by words fuel name ≡ some segments
      → (joined segments ≡ name) × AllIn words segments
  unfolding split_by
  split_by-joined zero name {segments} e = elim (Bool-cases (is_blank name)) [
    | inr more ↦ cc (rw more at e)
    | inl over ↦
        let same : [] ≡ segments = cc (rw over at e) in
        subst (λ xs. (joined xs ≡ name) × AllIn words xs) same (is_blank-nil name over, tt)
  ]
  split_by-joined (suc fuel) name {segments} e = elim (Bool-cases (is_blank name)) [
    | inl over ↦
        let same : [] ≡ segments = cc (rw over at e) in
        subst (λ xs. (joined xs ≡ name) × AllIn words xs) same (is_blank-nil name over, tt)
    | inr more ↦ elim (Option-cases (find? (λ t. starts_with t name) words)) [
      | inl dead ↦ cc (rw (more, dead) at e)
      | inr (t, found) ↦ elim (Option-cases (split_by words fuel (drop_chars (chars t) name))) [
        | inl dead ↦ cc (rw (more, found, dead) at e)
        | inr (rest, at) ↦
            let same : (t ∷ rest) ≡ segments = cc (rw (more, found, at) at e) in
            let (whole, all_in) =
              split_by-joined fuel (drop_chars (chars t) name) {segments = rest} at in
            subst (λ xs. (joined xs ≡ name) × AllIn words xs) same
              (
                rw whole
                    (append-drop_chars t name (find?-true (λ t. starts_with t name) words found)),
                (is_in-find? (λ t. starts_with t name) words found, all_in),
              )
      ]
    ]
  ]

-- no word is blank, and none starts with another
abbrev pub is_prefix_free : List String → Bool
is_prefix_free words =
    all (λ t. not (is_blank t) && all (λ u. t == u || not (starts_with t u)) words) words

all-is_in :
    (p : String → Bool) (words : List String) (t : String)
    → all p words ≡ true
    → is_in t words ≡ true
    → p t ≡ true
all-is_in p [] t e h = cc h
all-is_in p (w ∷ words) t e h = elim (Bool-cases (w == t)) [
  | inl same ↦ subst (λ x. p x ≡ true) (eq_of_== w t same) (ground arith)
  | inr other ↦ all-is_in p words t (ground arith) (ground arith)
]

any-is_in :
    (p : String → Bool) (words : List String) (t : String)
    → p t ≡ true
    → is_in t words ≡ true
    → any p words ≡ true
any-is_in p [] t e h = cc h
any-is_in p (w ∷ words) t e h = elim (Bool-cases (w == t)) [
  | inl same ↦ rw (eq_of_== w t same, e) refl
  | inr other ↦ let more = any-is_in p words t e (ground arith) in ground arith
]

is_blank-chars : (s : String) → is_blank s ≡ false → 1 ≤ chars s
unfolding is_blank chars
is_blank-chars String.[] e = cc e
is_blank-chars (String.◌∷◌ c s) e = omega arith

is_blank-append : (t s : String) → is_blank t ≡ false → is_blank (append t s) ≡ false
unfolding is_blank append
is_blank-append String.[] s e = cc e
is_blank-append (String.◌∷◌ c t) s e = refl

split_by-nil : (words : List String) (fuel : ℕ) → split_by words fuel "" ≡ some []
unfolding split_by is_blank
split_by-nil words zero = refl
split_by-nil words (suc fuel) = refl

module _ (words : List String) (free : is_prefix_free words ≡ true) where
  word_not_blank : (t : String) → is_in t words ≡ true → is_blank t ≡ false
  word_not_blank t h =
      let both =
        all-is_in (λ t. not (is_blank t) && all (λ u. t == u || not (starts_with t u)) words) words
          t free h in
      ground arith

  word_unique :
      (t u : String) → is_in t words ≡ true → is_in u words ≡ true → starts_with t u ≡ true → t ≡ u
  word_unique t u h k e =
      let both =
        all-is_in (λ t. not (is_blank t) && all (λ u. t == u || not (starts_with t u)) words) words
          t free h in
      let one = all-is_in (λ u. t == u || not (starts_with t u)) words u (ground arith) k in
      eq_of_== t u (ground arith)

  find?-word :
      (t rest : String)
      → is_in t words ≡ true
      → find? (λ u. starts_with u (append t rest)) words ≡ some t
  find?-word t rest h = elim (Option-cases (find? (λ u. starts_with u (append t rest)) words)) [
    | inl none_found ↦
        let some_found =
          any-is_in (λ u. starts_with u (append t rest)) words t (starts_with-append t rest) h in
        cc (any_of_find?_none (λ u. starts_with u (append t rest)) words none_found, some_found)
    | inr (u, found) ↦
        let k = is_in-find? (λ u. starts_with u (append t rest)) words found in
        let e = find?-true (λ u. starts_with u (append t rest)) words found in
        elim (starts_with_comparable t u (append t rest) (starts_with-append t rest) e) [
          | inl shorter ↦ rw found (ap some (sym (word_unique t u h k shorter)))
          | inr longer ↦ rw found (ap some (word_unique u t k h longer))
        ]
  ]

  split_by_finds :
      (segments : List String) (fuel : ℕ)
      → AllIn words segments
      → chars (joined segments) ≤ fuel
      → split_by words fuel (joined segments) ≡ some segments
  unfolding split_by
  split_by_finds [] fuel h l = split_by-nil words fuel
  split_by_finds (t ∷ segments) zero h l =
      absurd (
        omega (arith, l, is_blank-chars t (word_not_blank t h.0), chars-append t (joined segments)))
  split_by_finds (t ∷ segments) (suc fuel) h l =
      let rest = split_by_finds segments fuel h.1 (
        omega
          (arith, l, is_blank-chars t (word_not_blank t h.0), chars-append t (joined segments))) in
      rw
        (
          is_blank-append t (joined segments) (word_not_blank t h.0),
          find?-word t (joined segments) h.0,
          drop_chars-append t (joined segments),
          rest,
          split_by,
        )
        refl

tokens_are_prefix_free : is_prefix_free tokens ≡ true
unfolding tokens order_by insert_by starts_with is_blank chars ◌==◌
tokens_are_prefix_free = refl

-- A name is split exactly where it is a row of known segments, and then into that row, though the loop
-- never takes back a segment: no known segment starts with another.
pub split_flattened_iff :
    (name : String) (segments : List String)
    → (split_flattened name ≡ some segments) ↔ ((joined segments ≡ name) × AllIn tokens segments)
unfolding split_flattened
split_flattened_iff name segments = (
  λ e. split_by-joined tokens (chars name) name {segments = segments} e,
  λ (whole, all_in).
      subst (λ s. split_by tokens (chars s) s ≡ some segments) whole
        (split_by_finds tokens tokens_are_prefix_free segments (chars (joined segments)) all_in
          (omega arith)),
)

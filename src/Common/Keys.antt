-- ===== src/Common/Keys.antt =====
-- Rows with a text as their key: distinct keys, and what a search by key finds.
use Prim.Native.String.{String}
use mathlib.Core.Path.{◌≡◌, refl, sym, ◌∙◌, subst}
use mathlib.Core.Logic.{inl, inr}
use mathlib.Core.Bool.{Bool, true, false, ◌&&◌}
use mathlib.Core.Option.{some}
use mathlib.Core.List.{List, [], ◌∷◌, ◌++◌, map}
use native.Mathlib.Omega.{arith}
use aidean_fleet.Common.Tests.{Bool-cases}
use aidean_fleet.Common.Lists.{any, filter, find?, All, All-map, any-append}
use aidean_fleet.Common.Text.{◌==◌, eq_of_==, ==_refl, ==_comm, is_in}

pub All-none {ℓ} :
    {A : Type ℓ} (p : A → Bool) (xs : List A) → any p xs ≡ false → All (λ x. p x ≡ false) xs
All-none p [] h = tt
All-none p (x ∷ xs) h = (ground arith, All-none p xs (ground arith))

pub All-zip {ℓ κ μ} :
    {A : Type ℓ} (P : A → Type κ) (Q : A → Type μ) (xs : List A)
    → All P xs
    → All Q xs
    → All (λ x. P x × Q x) xs
All-zip P Q [] h k = tt
All-zip P Q (x ∷ xs) h k = ((h.0, k.0), All-zip P Q xs h.1 k.1)

-- what holds of every text of a list holds of a text that is in it
pub All-is_in {ℓ} :
    (P : String → Type ℓ) (x : String) (xs : List String) → All P xs → is_in x xs ≡ true → P x
All-is_in P x [] h e = cc
All-is_in P x (y ∷ ys) h e = elim (Bool-cases (y == x)) [
  | inl p ↦ subst P (eq_of_== y x p) h.0
  | inr p ↦ All-is_in P x ys h.1 (ground arith)
]

module _ {ℓ} {A : Type ℓ} (key : A → String) where
  abbrev pub HasDistinctKeys : List A → Type 0
  HasDistinctKeys [] = Unit
  HasDistinctKeys (x ∷ xs) = (is_in (key x) (map key xs) ≡ false) × HasDistinctKeys xs

  pub is_in-keys : (k : String) (xs : List A) → is_in k (map key xs) ≡ any (λ x. key x == k) xs
  is_in-keys k [] = refl
  is_in-keys k (x ∷ xs) = ground (arith, is_in-keys k xs)

  -- with distinct keys, a search by the key of a row finds that row
  pub HasDistinctKeys-find? :
      (xs : List A) → HasDistinctKeys xs → All (λ x. find? (λ y. key y == key x) xs ≡ some x) xs
  HasDistinctKeys-find? [] h = tt
  HasDistinctKeys-find? (x ∷ xs) h = (
    rw (==_refl (key x)),
    All-map
        (λ y k.
          let other : (key x == key y) ≡ false = ==_comm (key x) (key y) ∙ k.0 in rw other k.1)
        xs
        (All-zip _ _ xs (All-none (λ y. key y == key x) xs (sym (is_in-keys (key x) xs) ∙ h.0))
          (HasDistinctKeys-find? xs h.1)),
  )

  pub HasDistinctKeys-snoc :
      (xs : List A) (y : A)
      → HasDistinctKeys xs
      → is_in (key y) (map key xs) ≡ false
      → HasDistinctKeys (xs ++ y ∷ [])
  HasDistinctKeys-snoc [] y h new = (refl, tt)
  HasDistinctKeys-snoc (x ∷ xs) y h new =
      let other : (key y == key x) ≡ false = ==_comm (key y) (key x) ∙ ground arith in
      (
        is_in-keys (key x) (xs ++ y ∷ [])
            ∙ any-append (λ z. key z == key x) xs (y ∷ [])
            ∙ rw (sym (is_in-keys (key x) xs) ∙ h.0, other),
        HasDistinctKeys-snoc xs y h.1 (ground arith),
      )

pub is_in-filter :
    (q : String → Bool) (path : String) (xs : List String)
    → is_in path (filter q xs) ≡ (q path && is_in path xs)
is_in-filter q path [] = ground arith
is_in-filter q path (x ∷ xs) =
    let rest = is_in-filter q path xs in
    elim (Bool-cases (x == path)) [
      | inl same ↦
          subst (λ y. is_in y (filter q (x ∷ xs)) ≡ (q y && is_in y (x ∷ xs)))
            (eq_of_== x path same)
            (elim (Bool-cases (q x)) [
              | inl yes_q ↦ rw (yes_q, ==_refl x) (ground arith)
              | inr no_q ↦ rw (no_q) (is_in-filter q x xs ∙ rw no_q refl)
            ])
      | inr other ↦ elim (Bool-cases (q x)) [
        | inl yes_q ↦ rw (yes_q, other) rest
        | inr no_q ↦ rw (no_q, other) rest
      ]
    ]

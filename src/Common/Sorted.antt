-- ===== src/Common/Sorted.antt =====
-- Sorting by insertion, which like Python's keeps the order of what neither comes before.
use Prim.Native.Nat.{suc}
use mathlib.Core.Path.{◌≡◌, refl, ◌∙◌, ap}
use mathlib.Core.Logic.{inl, inr}
use mathlib.Core.Bool.{Bool, ◌||◌}
use mathlib.Core.List.{List, [], ◌∷◌}
use native.Mathlib.Omega.{arith}
use aidean_fleet.Common.Tests.{Bool-cases, if◌then◌else◌}
use aidean_fleet.Common.Lists.{any, count, All, length}

module _ {ℓ} {A : Type ℓ} where
  unfoldable pub insert_by : (A → A → Bool) → A → List A → List A
  insert_by before t [] = t ∷ []
  insert_by before t (r ∷ rows) = if before r t then r ∷ insert_by before t rows else t ∷ r ∷ rows

  unfoldable pub order_by : (A → A → Bool) → List A → List A
  order_by before [] = []
  order_by before (t ∷ rows) = insert_by before t (order_by before rows)

  insert_by-any :
      (before : A → A → Bool) (p : A → Bool) (t : A) (rows : List A)
      → any p (insert_by before t rows) ≡ any p (t ∷ rows)
  unfolding insert_by
  insert_by-any before p t [] = refl
  insert_by-any before p t (r ∷ rows) = elim (Bool-cases (before r t)) [
    | inl later ↦ rw (later, insert_by-any before p t rows) (ground arith)
    | inr first ↦ rw first refl
  ]

  pub any-order_by :
      (before : A → A → Bool) (p : A → Bool) (rows : List A)
      → any p (order_by before rows) ≡ any p rows
  unfolding order_by
  any-order_by before p [] = refl
  any-order_by before p (t ∷ rows) =
      insert_by-any before p t (order_by before rows)
      ∙ ap (λ b. p t || b) (any-order_by before p rows)

  insert_by-count :
      (before : A → A → Bool) (p : A → Bool) (t : A) (rows : List A)
      → count p (insert_by before t rows) ≡ count p (t ∷ rows)
  unfolding insert_by
  insert_by-count before p t [] = refl
  insert_by-count before p t (r ∷ rows) = elim (Bool-cases (before r t)) [
    | inl later ↦ rw later (omega (arith, insert_by-count before p t rows))
    | inr first ↦ rw first refl
  ]

  pub count-order_by :
      (before : A → A → Bool) (p : A → Bool) (rows : List A)
      → count p (order_by before rows) ≡ count p rows
  unfolding order_by
  count-order_by before p [] = refl
  count-order_by before p (t ∷ rows) =
      omega (arith, insert_by-count before p t (order_by before rows), count-order_by before p rows)

  length-insert_by :
      (before : A → A → Bool) (t : A) (rows : List A)
      → length (insert_by before t rows) ≡ suc (length rows)
  unfolding insert_by
  length-insert_by before t [] = refl
  length-insert_by before t (r ∷ rows) = elim (Bool-cases (before r t)) [
    | inl later ↦ rw later (omega (arith, length-insert_by before t rows))
    | inr first ↦ rw first refl
  ]

  pub length-order_by :
      (before : A → A → Bool) (rows : List A) → length (order_by before rows) ≡ length rows
  unfolding order_by
  length-order_by before [] = refl
  length-order_by before (t ∷ rows) =
      omega (arith, length-insert_by before t (order_by before rows), length-order_by before rows)

module _ {ℓ κ} {A : Type ℓ} (P : A → Type κ) where
  insert_by-All :
      (before : A → A → Bool) (t : A) (rows : List A)
      → P t
      → All P rows
      → All P (insert_by before t rows)
  unfolding insert_by
  insert_by-All before t [] p h = (p, tt)
  insert_by-All before t (r ∷ rows) p h = elim (Bool-cases (before r t)) [
    | inl later ↦ rw later (h.0, insert_by-All before t rows p h.1)
    | inr here ↦ rw here (p, h)
  ]

  pub All-order_by :
      (before : A → A → Bool) (rows : List A) → All P rows → All P (order_by before rows)
  unfolding order_by
  All-order_by before [] h = tt
  All-order_by before (t ∷ rows) h =
      insert_by-All before t (order_by before rows) h.0 (All-order_by before rows h.1)

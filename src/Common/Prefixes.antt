-- ===== src/Common/Prefixes.antt =====
-- A text that stands at the start of another, and what is behind it.
use Prim.Native.Char.{code}
use Prim.Native.Nat.{ℕ, ◌+◌}
use Prim.Native.String.{String}
use mathlib.Core.Path.{◌≡◌, refl}
use mathlib.Core.Logic.{inl, inr, ◌⊎◌}
use mathlib.Core.Bool.{true}
use native.Mathlib.Omega.{arith}
use text.Mathlib.TextEquality.{Char-path}
use aidean_fleet.Common.Tests.{eqb}
use aidean_fleet.Common.Text.{append, chars, starts_with, drop_chars}

eqb-true : (m n : ℕ) → eqb m n ≡ true → m ≡ n
eqb-true m n e = ground (arith, e)

eqb_refl : (n : ℕ) → eqb n n ≡ true
eqb_refl n = ground arith

pub append-drop_chars :
    (t s : String) → starts_with t s ≡ true → append t (drop_chars (chars t) s) ≡ s
unfolding starts_with append drop_chars chars
append-drop_chars String.[] s e = refl
append-drop_chars (String.◌∷◌ c t) String.[] e = cc e
append-drop_chars (String.◌∷◌ c t) (String.◌∷◌ d s) e =
    rw
      (
        Char-path c d (eqb-true (code c) (code d) (ground arith)),
        append-drop_chars t s (ground arith),
      )
      refl

pub starts_with-append : (t s : String) → starts_with t (append t s) ≡ true
unfolding starts_with append
starts_with-append String.[] s = refl
starts_with-append (String.◌∷◌ c t) s = rw (eqb_refl (code c)) (starts_with-append t s)

pub drop_chars-append : (t s : String) → drop_chars (chars t) (append t s) ≡ s
unfolding drop_chars append chars
drop_chars-append String.[] s = refl
drop_chars-append (String.◌∷◌ c t) s = drop_chars-append t s

pub chars-append : (t s : String) → chars (append t s) ≡ chars t + chars s
unfolding append chars
chars-append String.[] s = omega arith
chars-append (String.◌∷◌ c t) s = omega (arith, chars-append t s)

-- Of two texts that a text starts with, one starts with the other.
pub starts_with_comparable :
    (t u s : String)
    → starts_with t s ≡ true
    → starts_with u s ≡ true
    → (starts_with t u ≡ true) ⊎ (starts_with u t ≡ true)
unfolding starts_with
starts_with_comparable String.[] u s e f = inl refl
starts_with_comparable (String.◌∷◌ c t) String.[] s e f = inr refl
starts_with_comparable (String.◌∷◌ c t) (String.◌∷◌ d u) String.[] e f = cc e
starts_with_comparable (String.◌∷◌ c t) (String.◌∷◌ d u) (String.◌∷◌ b s) e f =
    let p = Char-path c b (eqb-true (code c) (code b) (ground arith)) in
    let q = Char-path d b (eqb-true (code d) (code b) (ground arith)) in
    elim (starts_with_comparable t u s (ground arith) (ground arith)) [
      | inl first ↦ inl (rw (p, q, eqb_refl (code b)) first)
      | inr second ↦ inr (rw (p, q, eqb_refl (code b)) second)
    ]

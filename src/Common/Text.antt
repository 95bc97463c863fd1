-- ===== src/Common/Text.antt =====
-- Python's `str` where the program looks into it: characters, white space, `strip`, `split`.
use Prim.Native.Char.{Char, code}
use Prim.Native.String.{String, compare}
use text.Mathlib.Text.{◌==◌ as text_eq}
use text.Mathlib.TextEquality.{eq_iff}
use Prim.Native.Nat.{ℕ, zero, suc, Ordering}
use mathlib.Core.Path.{◌≡◌, refl, sym}
use mathlib.Core.Logic.{inl, inr}
use mathlib.Core.Bool.{Bool, true, false, ◌&&◌, ◌||◌}
use mathlib.Core.List.{List, [], ◌∷◌}
use aidean_fleet.Common.Tests.{Bool-cases, leb, eqb, if◌then◌else◌}
use aidean_fleet.Common.Lists.{any}

-- Texts are compared whole; the test is shut, and `eq_of_==` and `==_refl` are its laws.
infix 50 ◌==◌
unfoldable pub ◌==◌ : String → String → Bool
s == t = text_eq s t

pub eq_of_== : (s t : String) → (s == t) ≡ true → s ≡ t
unfolding ◌==◌
eq_of_== s t h = (eq_iff s t).0 h

pub ==_refl : (s : String) → (s == s) ≡ true
unfolding ◌==◌
==_refl s = (eq_iff s s).1 refl

pub ==_symm : (s t : String) → (s == t) ≡ true → (t == s) ≡ true
==_symm s t h = rw (eq_of_== s t h) (==_refl t)

pub ==_trans : (s t u : String) → (s == t) ≡ true → (t == u) ≡ true → (s == u) ≡ true
==_trans s t u h k = rw (eq_of_== s t h) k

pub ==_comm : (s t : String) → (s == t) ≡ (t == s)
==_comm s t = elim (Bool-cases (s == t)) [
  | inl p ↦ rw p (sym (==_symm s t p))
  | inr p ↦ elim (Bool-cases (t == s)) [ inl q ↦ cc (==_symm t s q) | inr q ↦ rw (p, q) ]
]

-- `s in xs`
abbrev pub is_in : String → List String → Bool
is_in s xs = any (λ x. x == s) xs

-- `not s`
unfoldable pub is_blank : String → Bool
is_blank String.[] = true
is_blank (String.◌∷◌ c s) = false

-- `len(s)`: characters
unfoldable pub chars : String → ℕ
chars String.[] = 0
chars (String.◌∷◌ c s) = suc (chars s)

-- `s[:n]`
unfoldable pub first_chars : ℕ → String → String
first_chars zero s = ""
first_chars (suc n) String.[] = ""
first_chars (suc n) (String.◌∷◌ c s) = String.◌∷◌ c (first_chars n s)

-- `s < t`, in the order of the code points
unfoldable pub precedes : String → String → Bool
precedes s t = elim (compare s t) [ Ordering.lt ↦ true | _ ↦ false ]

-- `s.replace(a, b)` for single characters, by their codes
unfoldable pub replace_char : ℕ → Char → String → String
replace_char old c String.[] = ""
replace_char old c (String.◌∷◌ d s) =
    String.◌∷◌ (if eqb (code d) old then c else d) (replace_char old c s)

-- `s + t`
unfoldable pub append : String → String → String
append String.[] t = t
append (String.◌∷◌ c s) t = String.◌∷◌ c (append s t)

-- the characters that `str.isspace` accepts
unfoldable pub is_space : Char → Bool
is_space c =
    let n = code c in
    leb 9 n && leb n 13
    || leb 28 n && leb n 32
    || eqb n 133
    || eqb n 160
    || eqb n 5760
    || leb 8192 n && leb n 8202
    || eqb n 8232
    || eqb n 8233
    || eqb n 8239
    || eqb n 8287
    || eqb n 12288

unfoldable pub strip_left : (Char → Bool) → String → String
strip_left p String.[] = ""
strip_left p (String.◌∷◌ c s) = if p c then strip_left p s else String.◌∷◌ c s

put_unless : Bool → Char → String → String
put_unless true c String.[] = ""
put_unless true c (String.◌∷◌ d s) = String.◌∷◌ c (String.◌∷◌ d s)
put_unless false c s = String.◌∷◌ c s

unfoldable pub strip_right : (Char → Bool) → String → String
unfolding put_unless
strip_right p String.[] = ""
strip_right p (String.◌∷◌ c s) = put_unless (p c) c (strip_right p s)

unfoldable pub strip_by : (Char → Bool) → String → String
unfolding strip_left strip_right
strip_by p s = strip_right p (strip_left p s)

-- `s.strip()`
unfoldable pub strip : String → String
unfolding strip_by is_space
strip s = strip_by is_space s

-- `s.split(sep)` for a separator of one character
push_char : Char → List String → List String
push_char c [] = String.◌∷◌ c "" ∷ []
push_char c (w ∷ ws) = String.◌∷◌ c w ∷ ws

unfoldable pub split_on : ℕ → String → List String
unfolding push_char
split_on sep String.[] = "" ∷ []
split_on sep (String.◌∷◌ c s) =
    let rest = split_on sep s in if eqb (code c) sep then "" ∷ rest else push_char c rest

-- `s.startswith(p)`
unfoldable pub starts_with : String → String → Bool
starts_with String.[] s = true
starts_with (String.◌∷◌ c p) String.[] = false
starts_with (String.◌∷◌ c p) (String.◌∷◌ d s) = eqb (code c) (code d) && starts_with p s

-- `s[n:]`
unfoldable pub drop_chars : ℕ → String → String
drop_chars zero s = s
drop_chars (suc n) String.[] = ""
drop_chars (suc n) (String.◌∷◌ c s) = drop_chars n s

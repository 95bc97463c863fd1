-- ===== src/Models/Retry.antt =====
-- fleet/models/retry.py: how a failure is classified, and how often a model is asked again.
use Prim.Native.Char.{Char, code}
use aidean_fleet.Common.{
  ℕ, Bool, true, false, not, ◌&&◌, ◌||◌, List, [], ◌∷◌, Option, none, some, String, if◌then◌else◌,
  ltb, eqb, or_else, any,
}
use aidean_fleet.Common.Text.{is_in, is_blank, append, strip, starts_with}

-- HARD and TRANSIENT; UNKNOWN stands behind the switch `_UNKNOWN_IS_TRANSIENT`, which is on
pub data Kind : Type 0 where
  hard transient unknown : Kind

-- What Python takes from the tables of Unicode: `str.lower`, and `\w` and `\d` of a pattern.
pub record Unicode : Type 0 where
  pub lower : String → String
  pub is_word : Char → Bool
  pub is_digit : Char → Bool

-- HARD_SIGNALS and TRANSIENT_SIGNALS
abbrev pub hard_signals : List String
hard_signals = "401" ∷ "402" ∷ "403" ∷ "quota_exhausted" ∷ "model_not_found" ∷ []

abbrev pub transient_signals : List String
transient_signals =
    "429" ∷ "timeout" ∷ "timed_out" ∷ "read_timeout" ∷ "network" ∷ "connection_reset" ∷ []

-- `p in s`
unfoldable pub contains : String → String → Bool
unfolding starts_with
contains p String.[] = is_blank p
contains p (String.◌∷◌ c s) = starts_with p (String.◌∷◌ c s) || contains p s

module _ (u : Unicode) where
  -- `\b` between two characters, of which the ends of the text are none
  is_boundary : Bool → Bool → Bool
  is_boundary before after = if before then not after else after

  starts_word : String → Bool
  starts_word String.[] = false
  starts_word (String.◌∷◌ c s) = u.is_word c

  -- three characters between two boundaries, at the start of the text
  three_here : (Char → Bool) → (Char → Bool) → (Char → Bool) → Bool → String → Bool
  unfolding is_boundary starts_word
  three_here p q r before (String.◌∷◌ a (String.◌∷◌ b (String.◌∷◌ c s))) =
      is_boundary before (u.is_word a)
      && p a
      && q b
      && r c
      && is_boundary (u.is_word c) (starts_word s)
  three_here p q r before _ = false

  -- the same, anywhere in it
  unfoldable pub three_in : (Char → Bool) → (Char → Bool) → (Char → Bool) → Bool → String → Bool
  unfolding three_here
  three_in p q r before String.[] = false
  three_in p q r before (String.◌∷◌ c s) =
      three_here p q r before (String.◌∷◌ c s) || three_in p q r (u.is_word c) s

  -- `_SERVER_ERROR_RE` and `_RATE_LIMIT_RE`
  unfoldable pub is_server_error : String → Bool
  is_server_error s = three_in (λ c. eqb (code c) 53) u.is_digit u.is_digit false s

  unfoldable pub is_rate_limit : String → Bool
  is_rate_limit s =
      three_in (λ c. eqb (code c) 52) (λ c. eqb (code c) 50) (λ c. eqb (code c) 57) false s

  -- `f"{code} {detail}".lower()`
  abbrev text_of : String → String → String
  text_of error detail = u.lower (append error (append " " detail))

  abbrev code_of : Option String → String
  code_of none = ""
  code_of (some error) = u.lower (strip error)

  abbrev kind_of : String → String → Kind
  kind_of error text =
      if is_in error hard_signals || any (λ signal. contains signal error) hard_signals
      then Kind.hard
      else if any (λ signal. contains signal text) ("quota_exhausted" ∷ "model_not_found" ∷ [])
      then Kind.hard
      else if is_server_error error
      then Kind.transient
      else if is_in error transient_signals || is_rate_limit error
      then Kind.transient
      else if is_rate_limit text || is_server_error text
      then Kind.transient
      else if any (λ signal. contains signal text) ("timeout" ∷ "timed out" ∷ "超时" ∷ [])
      then Kind.transient
      else Kind.transient

  unfoldable pub classify : Option String → String → Kind
  classify error detail = kind_of (code_of error) (text_of (code_of error) detail)

  unfoldable pub is_hard : Option String → String → Bool
  is_hard error detail = elim (classify error detail) [ Kind.hard ↦ true | _ ↦ false ]

  unfoldable pub quota_exhausted : Option String → String → Bool
  quota_exhausted error detail =
      let text = text_of (or_else error "") detail in
      contains "402" text
      || contains "quota" text
      || contains "额度" text
      || contains "insufficient" text

-- `RetryPolicy`; a number of attempts that is not positive is 0 here
pub record RetryPolicy : Type 0 where
  pub max_attempts : ℕ
  pub delay_seconds : ℕ
  pub timeout_seconds : ℕ

-- `max(1, max_attempts)`
abbrev pub attempts_bound : RetryPolicy → ℕ
attempts_bound p = if ltb p.max_attempts 1 then 1 else p.max_attempts

unfoldable pub attempts_for : RetryPolicy → Kind → ℕ
attempts_for p Kind.hard = 1
attempts_for p _ = attempts_bound p

unfoldable pub should_retry : RetryPolicy → Kind → ℕ → Bool
should_retry p kind attempts_done = ltb attempts_done (attempts_for p kind)

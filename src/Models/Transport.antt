-- ===== src/Models/Transport.antt =====
-- fleet/models/transport.py: the usage that a service reports, and the registry of stable prefixes.
-- Numbers of tokens are not negative; `int` of a text is given.
use aidean_fleet.Common.{
  ℕ, ◌+◌, Bool, ◌&&◌, List, [], ◌∷◌, ◌++◌, Option, none, some, String, if◌then◌else◌, eqb, or_else,
  find?, update,
}
use aidean_fleet.Common.Text.{◌==◌}

-- a value of the reported dictionary
pub data Value : Type 0 where
  number : ℕ → Value
  text : String → Value
  other : Value

-- The keys of the report that are read; `details_cached` is the key `cached_tokens` of
-- `prompt_tokens_details`, where that is a dictionary. A report that is no dictionary has no keys.
pub record RawUsage : Type 0 where
  pub prompt_tokens : Option Value
  pub completion_tokens : Option Value
  pub details_cached : Option Value
  pub prompt_cache_hit_tokens : Option Value
  pub cached_tokens : Option Value
  pub total_tokens : Option Value

-- USAGE_FIELDS
pub record Usage : Type 0 where
  pub prompt_tokens : ℕ
  pub cached_tokens : ℕ
  pub completion_tokens : ℕ
  pub total_tokens : ℕ

module _ (int_of : String → Option ℕ) where
  -- `_as_int(raw.get(key))`
  unfoldable pub as_int : Option Value → ℕ
  as_int none = 0
  as_int (some (Value.number n)) = n
  as_int (some (Value.text s)) = or_else (int_of s) 0
  as_int (some Value.other) = 0

  -- `a or b` of numbers
  abbrev first_positive : ℕ → ℕ → ℕ
  first_positive a b = if eqb a 0 then b else a

  unfoldable pub normalize_usage : RawUsage → Usage
  normalize_usage raw =
      let prompt = as_int raw.prompt_tokens in
      let completion = as_int raw.completion_tokens in
      record {
        prompt_tokens = prompt;
        cached_tokens =
            first_positive
              (first_positive (as_int raw.details_cached) (as_int raw.prompt_cache_hit_tokens))
              (as_int raw.cached_tokens);
        completion_tokens = completion;
        total_tokens = first_positive (as_int raw.total_tokens) (prompt + completion);
      }

-- an entry of `_PREFIX_CACHE`
pub record Prefix : Type 0 where
  pub role : String
  pub project : String
  pub version : ℕ
  pub prefix_text : String

abbrev pub has_prefix_key : String → String → Prefix → Bool
has_prefix_key role project p = p.role == role && p.project == project

-- what `set_stable_prefix` does, by the entry that there is
abbrev pub set_prefix : String → String → String → List Prefix → Option Prefix → ℕ × List Prefix
set_prefix role project prefix cache none =
    (1, cache ++ record { role = role; project = project; version = 1; prefix_text = prefix } ∷ [])
set_prefix role project prefix cache (some p) =
    if p.prefix_text == prefix then (p.version, cache) else (
      p.version + 1,
      update (has_prefix_key role project)
          (λ x. record x { version = p.version + 1; prefix_text = prefix }) cache,
    )

unfoldable pub set_stable_prefix : String → String → String → List Prefix → ℕ × List Prefix
set_stable_prefix role project prefix cache =
    set_prefix role project prefix cache (find? (has_prefix_key role project) cache)

abbrev pub read_prefix : Option Prefix → ℕ × String
read_prefix none = (0, "")
read_prefix (some p) = (p.version, p.prefix_text)

unfoldable pub get_stable_prefix : String → String → List Prefix → ℕ × String
get_stable_prefix role project cache = read_prefix (find? (has_prefix_key role project) cache)

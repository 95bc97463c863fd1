-- ===== src/Gates/Patterns.antt =====
-- `parse_patterns`, `matches_any` and `evaluate_files`. `fnmatch.fnmatch` is given.
use Prim.Native.Char.{Char, code}
use aidean_fleet.Common.{
  Bool, not, ◌&&◌, ◌||◌, List, map, Option, none, some, String, if◌then◌else◌, eqb, any, filter,
  is_empty,
}
use aidean_fleet.Common.Text.{
  ◌==◌, is_blank, append, replace_char, strip, strip_left, strip_right, split_on,
}
use aidean_fleet.Common.Text.{starts_with}

abbrev pub is_dot_or_slash : Char → Bool
is_dot_or_slash c = eqb (code c) 46 || eqb (code c) 47

abbrev pub is_slash : Char → Bool
is_slash c = eqb (code c) 47

-- the separators become line feeds, from the carriage return to the bar
unfoldable pub with_line_feeds : String → String
with_line_feeds s =
    replace_char 124 "\n" (replace_char 59 "\n" (replace_char 44 "\n" (replace_char 13 "\n" s)))

unfoldable pub clean_pattern : String → String
clean_pattern item = strip_left is_dot_or_slash (strip item)

unfoldable pub parse_patterns : String → List String
parse_patterns text =
    map clean_pattern
      (filter (λ item. not (is_blank (strip item))) (split_on 10 (with_line_feeds text)))

-- `s[:-len(suffix)]`, where `s` ends with the suffix
unfoldable pub without_suffix : String → String → Option String
without_suffix suffix String.[] = if is_blank suffix then some "" else none
without_suffix suffix (String.◌∷◌ c s) =
    let rest = without_suffix suffix s in
    if String.◌∷◌ c s == suffix
    then some ""
    else elim rest [ none ↦ none | some t ↦ some (String.◌∷◌ c t) ]

module _ (fnmatch : String → String → Bool) where
  -- the tests behind the literal ones: a tree below a directory, or what stands in a directory
  unfoldable pub matches_below : String → String → Bool
  matches_below relative candidate = elim (without_suffix "/**" candidate) [
    | some prefix ↦ starts_with (append (strip_right is_slash prefix) "/") relative
    | none ↦ fnmatch relative (append candidate "/*")
  ]

  unfoldable pub matches : String → String → Bool
  matches relative pattern =
      let candidate = strip_right is_slash pattern in
      relative == candidate || fnmatch relative candidate || matches_below relative candidate

  unfoldable pub matches_any : String → List String → Bool
  matches_any relative patterns = any (matches relative) patterns

  unfoldable pub touched_forbidden : List String → List String → List String
  touched_forbidden changed forbidden = filter (λ path. matches_any path forbidden) changed

  unfoldable pub outside_allowed : List String → List String → List String
  outside_allowed changed allowed =
      filter (λ path. not (is_empty allowed) && not (matches_any path allowed)) changed

  unfoldable pub evaluate_files :
      List String → List String → List String → List String × List String
  evaluate_files changed allowed forbidden =
      (touched_forbidden changed forbidden, outside_allowed changed allowed)

-- ===== src/Gates/Reading.antt =====
-- What patterns `parse_patterns` reads.
use aidean_fleet.Common.{
  ◌≡◌, refl, inl, inr, Bool, false, not, List, [], ◌∷◌, map, String, filter, All, Bool-cases,
}
use aidean_fleet.Common.Text.{is_blank, strip, strip_left, split_on}
use aidean_fleet.Gates.Patterns.{is_dot_or_slash, with_line_feeds, clean_pattern, parse_patterns}

-- the text begins with a dot or a slash
abbrev pub is_dotted : String → Bool
is_dotted String.[] = false
is_dotted (String.◌∷◌ c s) = is_dot_or_slash c

strip_left_is_not_dotted : (s : String) → is_dotted (strip_left is_dot_or_slash s) ≡ false
unfolding strip_left
strip_left_is_not_dotted String.[] = refl
strip_left_is_not_dotted (String.◌∷◌ c s) = elim (Bool-cases (is_dot_or_slash c)) [
  | inl dropped ↦ rw dropped (strip_left_is_not_dotted s)
  | inr kept ↦ rw (kept, kept) refl
]

All-clean : (items : List String) → All (λ p. is_dotted p ≡ false) (map clean_pattern items)
unfolding clean_pattern
All-clean [] = tt
All-clean (item ∷ items) = (strip_left_is_not_dotted (strip item), All-clean items)

-- No pattern that is read begins with a dot or a slash, whatever was written: one for a hidden file
-- loses its dot.
pub parse_patterns_loses_dots :
    (text : String) → All (λ p. is_dotted p ≡ false) (parse_patterns text)
unfolding parse_patterns
parse_patterns_loses_dots text =
    All-clean (filter (λ item. not (is_blank (strip item))) (split_on 10 (with_line_feeds text)))

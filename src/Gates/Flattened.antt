-- ===== src/Gates/Flattened.antt =====
-- `_split_flattened` and `flattened_path_dirs`: names of directories that are a path without its
-- separators. The loop is on fuel: each round takes a character of the name at least.
use aidean_fleet.Common.{
  ℕ, zero, suc, ◌+◌, Bool, false, List, [], ◌∷◌, Option, none, some, String, if◌then◌else◌, leb,
  filter, find?, length,
}
use aidean_fleet.Common.Text.{is_blank, chars, precedes}
use aidean_fleet.Common.Text.{starts_with}
use aidean_fleet.Common.Text.{drop_chars}
use aidean_fleet.Common.Sorted.{order_by}

-- `_FLATTEN_SEGMENTS`
abbrev pub flatten_segments : List String
flatten_segments =
    "src" ∷ "tests" ∷ "public" ∷ "docs" ∷ ".github" ∷ ".vscode" ∷ ".husky" ∷ "components"
    ∷ "features" ∷ "pages" ∷ "shared" ∷ "app" ∷ "layout" ∷ "providers" ∷ "table" ∷ "core" ∷ "data"
    ∷ "hooks" ∷ "store" ∷ "types" ∷ "ui" ∷ "animations" ∷ "renderers" ∷ "constants" ∷ "styles"
    ∷ "utils" ∷ "unit" ∷ "integration" ∷ "e2e" ∷ "fixtures" ∷ "workflows" ∷ "images" ∷ "Dashboard"
    ∷ "Settings" ∷ "TableView" ∷ "Button" ∷ "Input" ∷ "Select" ∷ "Modal" ∷ "Dropdown" ∷ "Tooltip"
    ∷ "Avatar" ∷ "Badge" ∷ "Skeleton" ∷ "Spinner" ∷ []

-- `sorted(known, key=len, reverse=True)` keeps the order of texts of one length
abbrev pub is_longer : String → String → Bool
is_longer s t = leb (chars t + 1) (chars s)

unfoldable pub tokens : List String
tokens = order_by is_longer flatten_segments

abbrev pub put : String → Option (List String) → Option (List String)
put t none = none
put t (some segments) = some (t ∷ segments)

-- the loop: the first token that the rest of the name starts with
unfoldable pub split_by : List String → ℕ → String → Option (List String)
split_by words zero name = if is_blank name then some [] else none
split_by words (suc fuel) name =
    if is_blank name then some [] else elim (find? (λ t. starts_with t name) words) [
      | none ↦ none
      | some t ↦ put t (split_by words fuel (drop_chars (chars t) name))
    ]

unfoldable pub split_flattened : String → Option (List String)
split_flattened name = split_by tokens (chars name) name

-- the directories of the root, in order, whose name is a path of two segments at least
unfoldable pub is_flattened : String → Bool
is_flattened name = elim (split_flattened name) [
  | none ↦ false
  | some segments ↦ leb 2 (length segments)
]

unfoldable pub flattened_path_dirs : List String → List String
flattened_path_dirs names = filter is_flattened (order_by precedes names)

-- ===== src/Planner/Json.antt =====
-- Values that `json.loads` makes, as the planner reads them. A key that is written twice is there
-- once, with its last value.
use aidean_fleet.Common.{
  Bool, true, false, not, List, [], ◌∷◌, Option, none, some, String, if◌then◌else◌,
}
use aidean_fleet.Common.Text.{◌==◌, is_blank}

mutual
  pub data Value : Type 0 where
    null : Value
    boolean : Bool → Value
    text : String → Value
    number : (is_zero : Bool) → (shown : String) → Value
    object : Entries → Value
    array : Values → Value

  pub data Entries : Type 0 where
    entry : (key : String) → Value → Entries → Entries
    no_entries : Entries

  pub data Values : Type 0 where
    next : Value → Values → Values
    no_values : Values

abbrev pub list_of : Values → List Value
list_of no_values = []
list_of (next v vs) = v ∷ list_of vs

-- `d.get(key)`
abbrev pub lookup : String → Entries → Option Value
lookup k no_entries = none
lookup k (entry j v rest) = if j == k then some v else lookup k rest

abbrev pub as_object : Value → Option Entries
as_object (object fields) = some fields
as_object _ = none

abbrev pub as_array : Value → Option (List Value)
as_array (array vs) = some (list_of vs)
as_array _ = none

abbrev pub as_text : Value → Option String
as_text (text s) = some s
as_text _ = none

abbrev is_no_values : Values → Bool
is_no_values no_values = true
is_no_values (next v vs) = false

abbrev is_no_entries : Entries → Bool
is_no_entries no_entries = true
is_no_entries (entry k v rest) = false

-- `bool(value)`
unfoldable pub is_truthy : Value → Bool
is_truthy null = false
is_truthy (boolean b) = b
is_truthy (number is_zero shown) = not is_zero
is_truthy (text s) = not (is_blank s)
is_truthy (array vs) = not (is_no_values vs)
is_truthy (object fields) = not (is_no_entries fields)

-- `str(value)`, where the text of a value that is no text is given
unfoldable pub text_of : (Value → String) → Value → String
text_of show (text s) = s
text_of show v = show v

-- `str(d.get(key) or "")`
unfoldable pub text_at : (Value → String) → Option Value → String
text_at show none = ""
text_at show (some v) = if is_truthy v then text_of show v else ""

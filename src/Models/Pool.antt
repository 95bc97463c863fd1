-- ===== src/Models/Pool.antt =====
-- fleet/models/pool.py. What config.load reads of the environment is given: the entries of the pool
-- and the roles with the names they are bound to. Levels are not negative.
use aidean_fleet.Common.{
  ℕ, Bool, true, false, not, ◌&&◌, ◌||◌, List, [], ◌∷◌, ◌++◌, Option, none, some, String,
  if◌then◌else◌, ltb, eqb, any, filter,
}
use aidean_fleet.Common.Text.{◌==◌, is_blank, precedes}

pub record ModelEntry : Type 0 where
  pub name : String
  pub level : ℕ
  pub base_url : String
  pub model_id : String
  pub api_key : String
  pub http_proxy : String
  pub https_proxy : String
  pub env_scope : String
  pub resolved : Bool
  pub cache : Bool

pub record Role : Type 0 where
  pub name : String
  pub bind_model_name : List String

-- the sections model_pool and roles, and what `app_env` reads
pub record Settings : Type 0 where
  pub models : List ModelEntry
  pub roles : List Role
  pub test_fleet_env : String
  pub fleet_env : String

abbrev pub same_bool : Bool → Bool → Bool
same_bool true b = b
same_bool false b = not b

-- `==` of two entries, a comparison of every field
unfoldable pub same_entry : ModelEntry → ModelEntry → Bool
same_entry a b =
    a.name == b.name
    && eqb a.level b.level
    && a.base_url == b.base_url
    && a.model_id == b.model_id
    && a.api_key == b.api_key
    && a.http_proxy == b.http_proxy
    && a.https_proxy == b.https_proxy
    && a.env_scope == b.env_scope
    && same_bool a.resolved b.resolved
    && same_bool a.cache b.cache

-- the key of the sort: level, then name
abbrev pub sorts_before : ModelEntry → ModelEntry → Bool
sorts_before a b = ltb a.level b.level || eqb a.level b.level && precedes a.name b.name

unfoldable pub insert_entry : ModelEntry → List ModelEntry → List ModelEntry
insert_entry e [] = e ∷ []
insert_entry e (x ∷ xs) = if sorts_before x e then x ∷ insert_entry e xs else e ∷ x ∷ xs

unfoldable pub sort_entries : List ModelEntry → List ModelEntry
sort_entries [] = []
sort_entries (e ∷ es) = insert_entry e (sort_entries es)

module _ (lower : String → String) where
  -- `app_env() != "test"`
  unfoldable pub is_prod : Settings → Bool
  is_prod c = not (c.test_fleet_env == "1" || lower c.fleet_env == "test")

  abbrev pub is_allowed : Bool → ModelEntry → Bool
  is_allowed include_prod e = include_prod || not (lower e.env_scope == "prod")

  -- `load_pool`, where none leaves the question to the environment
  unfoldable pub load_pool : Settings → Option Bool → List ModelEntry
  load_pool c none = sort_entries (filter (is_allowed (is_prod c)) c.models)
  load_pool c (some include_prod) = sort_entries (filter (is_allowed include_prod) c.models)

-- `pool_by_name(...).get(name)`: the last of the entries with one name counts
abbrev pub keep_later : Option ModelEntry → Bool → ModelEntry → Option ModelEntry
keep_later (some later) same e = some later
keep_later none same e = if same then some e else none

unfoldable pub get_by_name : String → List ModelEntry → Option ModelEntry
get_by_name n [] = none
get_by_name n (e ∷ es) = keep_later (get_by_name n es) (e.name == n) e

unfoldable pub is_available : ModelEntry → Bool
is_available e = not (is_blank e.base_url) && e.resolved

unfoldable pub role_chain : String → List Role → List String
role_chain n [] = []
role_chain n (r ∷ roles) = if r.name == n then r.bind_model_name else role_chain n roles

-- one round of the loop of `chain_for`
abbrev pub add_candidate : Option ModelEntry → List ModelEntry → List ModelEntry
add_candidate none chain = chain
add_candidate (some e) chain = if any (same_entry e) chain then chain else chain ++ e ∷ []

unfoldable pub add_candidates : List ModelEntry → List String → List ModelEntry → List ModelEntry
add_candidates pool [] chain = chain
add_candidates pool (n ∷ names) chain =
    add_candidates pool names (add_candidate (get_by_name n pool) chain)

unfoldable pub chain_for : (String → String) → Settings → String → Option Bool → List ModelEntry
chain_for lower c role include_prod =
    add_candidates (load_pool lower c include_prod) (role_chain role c.roles) []

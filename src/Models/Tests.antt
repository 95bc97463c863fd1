-- ===== src/Models/Tests.antt =====
-- Requests on a pool of two models, of which the first answers 429 twice and the second is asked
-- then; a usage and a prefix.
use Prim.Native.Char.{Char, code}
use aidean_fleet.Common.{
  List, ◌+◌, ◌⊎◌, ℕ, ◌≡◌, refl, Bool, true, false, ◌&&◌, [], ◌∷◌, Option, none, some, String, ltb,
  leb, All,
}
use aidean_fleet.Common.Text.{
  ◌==◌, is_blank, append, precedes, is_space, strip_left, strip_right, strip_by, strip,
}
use aidean_fleet.Models.Retry.{
  Unicode, contains, three_in, is_server_error, is_rate_limit, classify, attempts_for, should_retry,
}
use aidean_fleet.Models.Pool.{
  ModelEntry, Settings, same_entry, is_prod, is_allowed, insert_entry, sort_entries, load_pool,
  get_by_name, is_available, role_chain, add_candidates, chain_for,
}
use aidean_fleet.Models.Router.{
  TransportResult, World, RouteResult, Request, try_on, try_candidate, switch_to, route, call,
}
use aidean_fleet.Models.Transport.{
  Value, RawUsage, as_int, normalize_usage, Prefix, set_stable_prefix, get_stable_prefix,
}
use aidean_fleet.Models.Prefixes.{set_stable_prefix-get}
use aidean_fleet.Models.Calls.{Tried, try_candidate-tries}
use aidean_fleet.Models.Chains.{Routes, route-Routes}
use aidean_fleet.Models.Bindings.{HasDistinctNames, chain_for-distinct}

abbrev is_digit : Char → Bool
is_digit c = leb 48 (code c) && leb (code c) 57

abbrev unicode : Unicode
unicode = record { lower = λ s. s; is_word = is_digit; is_digit = is_digit }

abbrev entry : String → ℕ → ModelEntry
entry n level = record {
  name = n;
  level = level;
  base_url = "https://host";
  model_id = n;
  api_key = "${KEY}";
  http_proxy = "";
  https_proxy = "";
  env_scope = "all";
  resolved = true;
  cache = false;
}

abbrev settings : Settings
settings = record {
  models = entry "b" 2 ∷ entry "a" 1 ∷ [];
  roles = record { name = "be-1"; bind_model_name = "a" ∷ "b" ∷ "a" ∷ [] } ∷ [];
  test_fleet_env = "";
  fleet_env = "";
}

abbrev answer : Bool → TransportResult
answer true = record { is_ok = true; text = "hi"; error_code = none; error_msg = "" }
answer false = record { is_ok = false; text = ""; error_code = some "429"; error_msg = "" }

abbrev request : Request
request = record {
  unicode = unicode;
  policy = record { max_attempts = 2; delay_seconds = 10; timeout_seconds = 600 };
  invoke = λ n e prompt timeout system. answer (ltb 1 n);
  prompt = "p";
  system_prompt = none;
  emit_switch = true;
}

abbrev world : World
world = record { requests = 0; waits = 0; events = [] }

status_of : Option (RouteResult × World) → Option (Option String × ℕ)
status_of none = none
status_of (some (r, w)) = some (r.model, w.requests)

answered_by_second : status_of (call request settings "be-1" world) ≡ some (some "b", 3)
unfolding status_of ◌==◌ is_blank append precedes is_space strip_left strip_right strip_by strip
    contains three_in is_server_error is_rate_limit classify attempts_for should_retry same_entry
    is_prod insert_entry sort_entries load_pool get_by_name is_available role_chain add_candidates
    chain_for try_on try_candidate switch_to route call
answered_by_second = refl

try_candidate-tries_example :
    Tried request (entry "a" 1) 0 world (try_candidate request (entry "a" 1) world)
try_candidate-tries_example = try_candidate-tries request (entry "a" 1) world

route-Routes_example :
    Routes request
      (entry "a" 1 ∷ entry "b" 2 ∷ [])
      none
      []
      []
      world
      (route request (entry "a" 1 ∷ entry "b" 2 ∷ []) none [] ([], world))
route-Routes_example = route-Routes request (entry "a" 1 ∷ entry "b" 2 ∷ []) none [] [] world

chain_for-distinct_example :
    HasDistinctNames (chain_for unicode.lower settings "be-1" (some false))
    × All
        (λ e.
          (get_by_name e.name (load_pool unicode.lower settings (some false)) ≡ some e)
          × (is_allowed unicode.lower false e ≡ true))
        (chain_for unicode.lower settings "be-1" (some false))
chain_for-distinct_example = chain_for-distinct unicode.lower settings "be-1" false

abbrev no_int : String → Option ℕ
no_int s = none

abbrev raw_usage : RawUsage
raw_usage = record {
  prompt_tokens = some (Value.number 7);
  completion_tokens = some (Value.number 5);
  details_cached = some (Value.number 0);
  prompt_cache_hit_tokens = some (Value.number 3);
  cached_tokens = none;
  total_tokens = none;
}

cached_and_total :
    let u = normalize_usage no_int raw_usage in (u.cached_tokens ≡ 3) × (u.total_tokens ≡ 12)
unfolding as_int normalize_usage
cached_and_total = (refl, refl)

abbrev prefixes : List Prefix
prefixes = record { role = "be-1"; project = "P1"; version = 4; prefix_text = "old" } ∷ []

set_stable_prefix-get_example :
    let r = set_stable_prefix "be-1" "P1" "new" prefixes in
    let before = get_stable_prefix "be-1" "P1" prefixes in
    (get_stable_prefix "be-1" "P1" r.1 ≡ (r.0, "new"))
    × (before.1 == "new" ≡ true → before.0 ≡ 0 ⊎ r.0 ≡ before.0)
    × (before.1 == "new" ≡ false → r.0 ≡ before.0 + 1)
set_stable_prefix-get_example = set_stable_prefix-get "be-1" "P1" "new" prefixes

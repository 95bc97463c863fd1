-- ===== src/Models/Router.antt =====
-- fleet/models/router.py. The transport is given: what it answers to the n-th request of the world,
-- which has counted the requests, the waits and the events.
use aidean_fleet.Common.{
  ℕ, zero, suc, Bool, true, false, not, List, [], ◌∷◌, ◌++◌, Option, none, some, String,
  if◌then◌else◌,
}
use aidean_fleet.Models.Retry.{Kind, Unicode, RetryPolicy, attempts_bound, classify, should_retry}
use aidean_fleet.Models.Pool.{ModelEntry, Settings, is_available, chain_for}

-- `TransportResult`
pub record TransportResult : Type 0 where
  pub is_ok : Bool
  pub text : String
  pub error_code : Option String
  pub error_msg : String

-- `transport(entry, prompt, timeout, system_prompt)`, by the number of the request
abbrev pub Transport : Type 0
Transport = ℕ → ModelEntry → String → ℕ → Option String → TransportResult

-- `launch:model_switch` (from, to, attempts) and `model:call` (model, attempts)
pub data RouterEvent : Type 0 where
  model_switch : Option String → Option String → ℕ → RouterEvent
  model_call : String → ℕ → RouterEvent

pub record World : Type 0 where
  pub requests : ℕ
  pub waits : ℕ
  pub events : List RouterEvent

-- `CandidateAttempt`, and an entry of `failures`
pub record CandidateAttempt : Type 0 where
  pub model : String
  pub model_id : String
  pub attempts : ℕ
  pub is_ok : Bool
  pub text : String
  pub error_code : Option String
  pub error : String
  pub kind : Option Kind

pub data Status : Type 0 where
  ok blocked : Status

pub record Failure : Type 0 where
  pub model : Option String
  pub attempts : ℕ
  pub error_code : Option String

pub record Switch : Type 0 where
  pub from : String
  pub to : String
  pub attempts : ℕ

-- `RouteResult`
pub record RouteResult : Type 0 where
  pub status : Status
  pub output : String
  pub model : Option String
  pub model_id : Option String
  pub attempts : ℕ
  pub switches : List Switch
  pub failures : List Failure

-- the arguments of `call` that its loops read
pub record Request : Type 0 where
  pub unicode : Unicode
  pub policy : RetryPolicy
  pub invoke : Transport
  pub prompt : String
  pub system_prompt : Option String
  pub emit_switch : Bool

abbrev pub new_candidate : ModelEntry → CandidateAttempt
new_candidate e = record {
  model = e.name;
  model_id = e.model_id;
  attempts = 0;
  is_ok = false;
  text = "";
  error_code = none;
  error = "";
  kind = none;
}

module _ (q : Request) where
  -- what the transport answers next
  abbrev pub next_result : ModelEntry → World → TransportResult
  next_result e w = q.invoke w.requests e q.prompt q.policy.timeout_seconds q.system_prompt

  abbrev pub kind_of_result : TransportResult → Kind
  kind_of_result r = classify q.unicode r.error_code r.error_msg

  abbrev pub succeeded : ℕ → TransportResult → CandidateAttempt → CandidateAttempt
  succeeded n r a = record a { attempts = n; is_ok = true; text = r.text }

  abbrev pub failed : ℕ → TransportResult → CandidateAttempt → CandidateAttempt
  failed n r a = record a {
    attempts = n;
    error_code = r.error_code;
    error = r.error_msg;
    kind = some (kind_of_result r);
  }

  abbrev pub asked : World → World
  asked w = record w { requests = suc w.requests }

  -- the loop of `_try_candidate`, on fuel
  unfoldable pub try_on :
      ℕ → ModelEntry → CandidateAttempt → World → Option (CandidateAttempt × World)
  try_on zero e a w = none
  try_on (suc fuel) e a w =
      let r = next_result e w in
      let n = suc a.attempts in
      let w1 = asked w in
      let rest = try_on fuel e (failed n r a) (record w1 { waits = suc w.waits }) in
      if r.is_ok
      then some
          (succeeded n r a, record w1 { events = w.events ++ RouterEvent.model_call e.name n ∷ [] })
      else if not (should_retry q.policy (kind_of_result r) n)
      then some (failed n r a, w1)
      else rest

  -- `_try_candidate`: its loop ends within the attempts that a soft failure is allowed
  unfoldable pub try_candidate : ModelEntry → World → Option (CandidateAttempt × World)
  try_candidate e w = try_on (attempts_bound q.policy) e (new_candidate e) w

  -- the switch to the next candidate: an entry of the result and an event
  unfoldable pub switch_to :
      Option (ModelEntry × ℕ) → ModelEntry → List Switch × World → List Switch × World
  switch_to none e (switches, w) = (switches, w)
  switch_to (some (previous, attempts)) e (switches, w) =
      if q.emit_switch
      then (
        switches ++ record { from = previous.name; to = e.name; attempts = attempts } ∷ [],
        record w {
          events =
              w.events ++ RouterEvent.model_switch (some previous.name) (some e.name) attempts ∷ [];
        },
      )
      else (switches, w)

  abbrev pub no_key : ModelEntry → Failure
  no_key e = record { model = some e.name; attempts = 0; error_code = some "no_key" }

  abbrev pub failure_of : CandidateAttempt → Failure
  failure_of a = record { model = some a.model; attempts = a.attempts; error_code = a.error_code }

  abbrev pub routed : ModelEntry → CandidateAttempt → List Switch → List Failure → RouteResult
  routed e a switches failures = record {
    status = Status.ok;
    output = a.text;
    model = some e.name;
    model_id = some e.model_id;
    attempts = a.attempts;
    switches = switches;
    failures = failures;
  }

  abbrev pub blocked_result : List Switch → List Failure → RouteResult
  blocked_result switches failures = record {
    status = Status.blocked;
    output = "";
    model = none;
    model_id = none;
    attempts = 0;
    switches = switches;
    failures = failures;
  }

  -- what the loop of `call` does with the attempt on a candidate: return, or go on
  abbrev pub after_attempt :
      ModelEntry
      → List Switch
      → List Failure
      → (CandidateAttempt → World → Option (RouteResult × World))
      → Option (CandidateAttempt × World)
      → Option (RouteResult × World)
  after_attempt e switches failures next none = none
  after_attempt e switches failures next (some (a, w)) =
      if a.is_ok then some (routed e a switches failures, w) else next a w

  -- the loop of `call`
  unfoldable pub route :
      List ModelEntry
      → Option (ModelEntry × ℕ)
      → List Failure
      → List Switch × World
      → Option (RouteResult × World)
  route [] previous failures (switches, w) = some (blocked_result switches failures, w)
  route (e ∷ chain) previous failures s =
      let (switches, w) = switch_to previous e s in
      if not (is_available e)
      then route chain (some (e, 0)) (failures ++ no_key e ∷ []) (switches, w)
      else after_attempt e switches failures
          (λ a w1.
            route chain (some (e, a.attempts)) (failures ++ failure_of a ∷ []) (switches, w1))
          (try_candidate e w)

  abbrev pub nothing_bound : World → RouteResult × World
  nothing_bound w = (
    blocked_result []
        (record { model = none; attempts = 0; error_code = some "no_model_bound" } ∷ []),
    if q.emit_switch
        then record w { events = w.events ++ RouterEvent.model_switch none none 0 ∷ [] }
        else w,
  )

  abbrev pub route_chain : List ModelEntry → World → Option (RouteResult × World)
  route_chain [] w = some (nothing_bound w)
  route_chain (e ∷ chain) w = route (e ∷ chain) none [] ([], w)

  -- `call`
  unfoldable pub call : Settings → String → World → Option (RouteResult × World)
  call c role w = route_chain (chain_for q.unicode.lower c role none) w

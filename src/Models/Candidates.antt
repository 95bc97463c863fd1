-- ===== src/Models/Candidates.antt =====
-- What the loop of `call` of fleet/models/router.py is to do with the candidates of a role: who answers,
-- who is silent and reported, who is switched to.
use aidean_fleet.Common.{
  ℕ, suc, ◌+◌, ◌-◌, ◌≤◌, ◌<◌, All, ◌≡◌, ◌∙◌, ◌⊎◌, true, false, List, [], ◌∷◌, ◌++◌, map, Option,
  none, some, String, if◌then◌else◌, arith,
}
use aidean_fleet.Models.Retry.{attempts_bound, should_retry}
use aidean_fleet.Models.Pool.{ModelEntry, is_available}
use aidean_fleet.Models.Router.{
  World, CandidateAttempt, Status, Failure, Switch, RouteResult, Request, kind_of_result,
}
use aidean_fleet.Models.Calls.{reply, IsTried}

-- who is reported, and who is left for whom
abbrev pub reported : List Failure → List (Option String)
reported fs = map (λ f. f.model) fs

abbrev pub pairs : List Switch → List (String × String)
pairs ss = map (λ s. (s.from, s.to)) ss

abbrev pub names : List ModelEntry → List (Option String)
names es = map (λ e. some e.name) es

module _ (q : Request) where
  abbrev pub hop : Option (ModelEntry × ℕ) → ModelEntry → List (String × String)
  hop none e = []
  hop (some p) e = if q.emit_switch then (p.0.name, e.name) ∷ [] else []

  -- each candidate behind the first is switched to from the one before it
  abbrev pub hops : Option (ModelEntry × ℕ) → List ModelEntry → List (String × String)
  hops previous [] = []
  hops previous (e ∷ es) = hop previous e ++ hops (some (e, 0)) es

  -- as many requests as these candidates may be sent
  abbrev pub most_requests : List ModelEntry → ℕ
  most_requests [] = 0
  most_requests (e ∷ es) =
      (if is_available e then attempts_bound q.policy else 0) + most_requests es

-- A candidate did not answer: it has no key, or its requests, among those of these numbers, ended with
-- one that failed in a way that is not tried again after that many attempts.
pub record IsSilent (q : Request) (low high : ℕ) (e : ModelEntry) : Type 0 where
  pub failed_request :
      is_available e ≡ true
      → (k : ℕ) × (n : ℕ) × (0 < n)
        × (low + n ≤ suc k)
        × (k < high)
        × ((reply q e k).is_ok ≡ false)
        × (should_retry q.policy (kind_of_result q (reply q e k)) n ≡ false)

-- Nobody answered: each candidate is silent, and reported, in order.
pub record IsBlocked (q : Request) (chain : List ModelEntry) (previous : Option (ModelEntry × ℕ))
    (fs : List Failure) (ss : List Switch) (low high : ℕ) (r : RouteResult) : Type 0 where
  pub all_silent : All (IsSilent q low high) chain
  pub blocked_status : r.status ≡ Status.blocked
  pub all_reported : reported r.failures ≡ reported fs ++ names chain
  pub all_switched : pairs r.switches ≡ pairs ss ++ hops q previous chain

-- A candidate answered: the last request was to it and its answer is the output, those before it are
-- silent and reported, in order, and those behind it were not asked.
pub record IsAnswered (q : Request) (chain : List ModelEntry) (previous : Option (ModelEntry × ℕ))
    (fs : List Failure) (ss : List Switch) (low high : ℕ) (r : RouteResult) : Type 0 where
  pub earlier : List ModelEntry
  pub answering : ModelEntry
  pub later : List ModelEntry
  pub parts : chain ≡ earlier ++ answering ∷ later
  pub ok_status : r.status ≡ Status.ok
  pub answered_by : r.model ≡ some answering.name
  pub has_key : is_available answering ≡ true
  pub earlier_silent : All (IsSilent q low high) earlier
  pub last_request : ℕ
  pub is_last : suc last_request ≡ high
  pub succeeded : (reply q answering last_request).is_ok ≡ true
  pub same_output : r.output ≡ (reply q answering last_request).text
  pub earlier_reported : reported r.failures ≡ reported fs ++ names earlier
  pub earlier_switched : pairs r.switches ≡ pairs ss ++ hops q previous (earlier ++ answering ∷ [])

-- what is seen behind a chain of candidates
pub record IsRouted (q : Request) (chain : List ModelEntry) (previous : Option (ModelEntry × ℕ))
    (fs : List Failure) (ss : List Switch) (w : World) (r : RouteResult × World) : Type 0 where
  pub outcome :
      IsBlocked q chain previous fs ss w.requests r.1.requests r.0
      ⊎ IsAnswered q chain previous fs ss w.requests r.1.requests r.0
  pub more_requests : w.requests ≤ r.1.requests
  pub few_requests : r.1.requests ≤ w.requests + most_requests q chain

module _ (q : Request) where
  pub IsSilent-wider :
      (low middle high : ℕ)
      → low ≤ middle
      → (e : ModelEntry) → IsSilent q middle high e
      → IsSilent q low high e
  IsSilent-wider low middle high up e h = record {
    failed_request = λ key.
        let (k, n, some_tries, after, before, bad, over) = h.failed_request key in
        (k, n, some_tries, omega (arith, up), before, bad, over);
  }

  -- a candidate that was tried and did not answer
  pub tried-IsSilent :
      (e : ModelEntry) (w : World) (t : CandidateAttempt × World) (high : ℕ)
      → IsTried q e 0 w t
      → t.0.is_ok ≡ false
      → t.1.requests ≤ high
      → IsSilent q w.requests high e
  tried-IsSilent e w t high tried bad below = record {
    failed_request = λ key.
        let k : ℕ = t.1.requests - 1 in
        let last : suc k ≡ t.1.requests =
          omega (arith, tried.some_attempts, tried.one_request_each) in
        (
          k,
          t.0.attempts,
          tried.some_attempts,
          omega (arith, tried.one_request_each, last),
          omega (arith, last, below),
          tried.last_counts k last ∙ bad,
          tried.not_again bad k last,
        );
  }

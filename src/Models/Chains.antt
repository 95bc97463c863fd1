-- ===== src/Models/Chains.antt =====
-- The candidates of a role, one after the other: who answers, who is reported, who follows whom.
use aidean_fleet.Common.{
  ℕ, suc, ◌+◌, ◌-◌, ◌≤◌, All-map, ◌≡◌, refl, ◌∙◌, ap, sym, subst, ◌⊎◌, inl, inr, true, false, List,
  [], ◌∷◌, ◌++◌, map, Option, none, some, String, if◌then◌else◌, Bool-cases, arith, any, is_empty,
}
use aidean_fleet.Common.Text.{◌==◌, ==_refl}
use mathlib.Core.List.{map-append, append-nil, append_assoc}
use aidean_fleet.Models.Retry.{attempts_bound}
use aidean_fleet.Models.Pool.{ModelEntry, Settings, is_available, chain_for}
use aidean_fleet.Models.Router.{
  World, CandidateAttempt, Status, Failure, Switch, RouteResult, Request, switch_to, no_key,
  failure_of, routed, route, nothing_bound, route_chain, call,
}
use aidean_fleet.Models.Calls.{IsTried, Tried, try_candidate-tries}
use aidean_fleet.Models.Candidates.{
  reported, pairs, names, hop, hops, IsSilent, IsBlocked, IsAnswered, IsRouted, IsSilent-wider,
  tried-IsSilent,
}

module _ (q : Request) where
  switch_to-pairs :
      (previous : Option (ModelEntry × ℕ)) (e : ModelEntry) (ss : List Switch) (w : World)
      → (pairs (switch_to q previous e (ss, w)).0 ≡ pairs ss ++ hop q previous e)
        × ((switch_to q previous e (ss, w)).1.requests ≡ w.requests)
  unfolding switch_to
  switch_to-pairs none e ss w = (sym (append-nil (pairs ss)), refl)
  switch_to-pairs (some (p, n)) e ss w = elim (Bool-cases q.emit_switch) [
    | inl on ↦ rw on (map-append (λ s. (s.from, s.to)) ss _, refl)
    | inr off ↦ rw off (sym (append-nil (pairs ss)), refl)
  ]

  hops_of_model :
      (e : ModelEntry) (n : ℕ) (chain : List ModelEntry)
      → hops q (some (e, n)) chain ≡ hops q (some (e, 0)) chain
  hops_of_model e n [] = refl
  hops_of_model e n (x ∷ chain) = refl

  reported-snoc :
      (fs : List Failure) (f : Failure) (e : ModelEntry) (rest : List (Option String))
      → f.model ≡ some e.name
      → reported (fs ++ f ∷ []) ++ rest ≡ reported fs ++ some e.name ∷ rest
  reported-snoc fs f e rest same = rw (
    map-append (λ x. x.model) fs (f ∷ []),
    same,
    append_assoc (reported fs) (some e.name ∷ []) rest,
  )

  pairs-hop :
      (e : ModelEntry) (previous : Option (ModelEntry × ℕ)) (n : ℕ) (ss ss1 : List Switch)
      (chain : List ModelEntry)
      → pairs ss1 ≡ pairs ss ++ hop q previous e
      → pairs ss1 ++ hops q (some (e, n)) chain ≡ pairs ss ++ hops q previous (e ∷ chain)
  pairs-hop e previous n ss ss1 chain pair = rw (
    pair,
    hops_of_model e n chain,
    append_assoc (pairs ss) (hop q previous e) (hops q (some (e, 0)) chain),
  )

  -- a candidate that is reported, then the outcome of those behind it
  reported-first :
      (e : ModelEntry) (chain : List ModelEntry) (previous : Option (ModelEntry × ℕ)) (n : ℕ)
      (fs : List Failure) (f : Failure) (ss ss1 : List Switch) (low middle high : ℕ)
      (r : RouteResult)
      → f.model ≡ some e.name
      → pairs ss1 ≡ pairs ss ++ hop q previous e
      → low ≤ middle
      → IsSilent q low high e
      → IsBlocked q chain (some (e, n)) (fs ++ f ∷ []) ss1 middle high r
        ⊎ IsAnswered q chain (some (e, n)) (fs ++ f ∷ []) ss1 middle high r
      → IsBlocked q (e ∷ chain) previous fs ss low high r
        ⊎ IsAnswered q (e ∷ chain) previous fs ss low high r
  reported-first e chain previous n fs f ss ss1 low middle high r same pair up silent (inl b) =
      inl record {
        all_silent = (silent, All-map (IsSilent-wider q low middle high up) chain b.all_silent);
        blocked_status = b.blocked_status;
        all_reported = b.all_reported ∙ reported-snoc fs f e (names chain) same;
        all_switched = b.all_switched ∙ pairs-hop e previous n ss ss1 chain pair;
      }
  reported-first e chain previous n fs f ss ss1 low middle high r same pair up silent (inr a) =
      inr record {
        earlier_silent =
            (silent, All-map (IsSilent-wider q low middle high up) a.earlier a.earlier_silent);
        last_request = a.last_request;
        is_last = a.is_last;
        succeeded = a.succeeded;
        same_output = a.same_output;
        earlier = e ∷ a.earlier;
        answering = a.answering;
        later = a.later;
        parts = ap (λ es. e ∷ es) a.parts;
        ok_status = a.ok_status;
        answered_by = a.answered_by;
        has_key = a.has_key;
        earlier_reported = a.earlier_reported ∙ reported-snoc fs f e (names a.earlier) same;
        earlier_switched =
            a.earlier_switched ∙ pairs-hop e previous n ss ss1 (a.earlier ++ a.answering ∷ []) pair;
      }

  -- the result of a candidate that answered
  answers :
      (e : ModelEntry) (chain : List ModelEntry) (previous : Option (ModelEntry × ℕ))
      (fs : List Failure) (ss ss1 : List Switch) (w : World) (t : CandidateAttempt × World)
      → is_available e ≡ true
      → pairs ss1 ≡ pairs ss ++ hop q previous e
      → IsTried q e 0 w t
      → t.0.is_ok ≡ true
      → IsAnswered q (e ∷ chain) previous fs ss w.requests t.1.requests (routed q e t.0 ss1 fs)
  answers e chain previous fs ss ss1 w t key pair tried good =
      let last : suc (t.1.requests - 1) ≡ t.1.requests =
        omega (arith, tried.some_attempts, tried.one_request_each) in
      record {
        earlier_silent = tt;
        last_request = t.1.requests - 1;
        is_last = last;
        succeeded = tried.last_counts _ last ∙ good;
        same_output = tried.same_text good _ last;
        earlier = [];
        answering = e;
        later = chain;
        parts = refl;
        ok_status = refl;
        answered_by = refl;
        has_key = key;
        earlier_reported = sym (append-nil (reported fs));
        earlier_switched = pair ∙ ap (λ hs. pairs ss ++ hs) (sym (append-nil (hop q previous e)));
      }

  unfoldable pub Routes :
      List ModelEntry
      → Option (ModelEntry × ℕ)
      → List Failure
      → List Switch
      → World
      → Option (RouteResult × World)
      → Type 0
  Routes chain previous fs ss w o =
      (r : RouteResult × World) × (o ≡ some r) × IsRouted q chain previous fs ss w r

  -- the loop goes on behind a candidate that is reported
  next_candidate :
      (e : ModelEntry) (chain : List ModelEntry) (previous : Option (ModelEntry × ℕ)) (n : ℕ)
      (fs : List Failure) (f : Failure) (ss ss1 : List Switch) (w w1 : World)
      (o : Option (RouteResult × World))
      → f.model ≡ some e.name
      → pairs ss1 ≡ pairs ss ++ hop q previous e
      → w1.requests ≤ w.requests + (if is_available e then attempts_bound q.policy else 0)
      → w.requests ≤ w1.requests
      → ((high : ℕ) → w1.requests ≤ high → IsSilent q w.requests high e)
      → Routes chain (some (e, n)) (fs ++ f ∷ []) ss1 w1 o
      → Routes (e ∷ chain) previous fs ss w o
  unfolding Routes
  next_candidate e chain previous n fs f ss ss1 w w1 o same pair few up silent (r, at, routes) = (
    r,
    at,
    record {
      outcome =
          reported-first e chain previous n fs f ss ss1 w.requests w1.requests r.1.requests r.0 same
            pair up (silent r.1.requests routes.more_requests) routes.outcome;
      more_requests = omega (arith, up, routes.more_requests);
      few_requests = omega (arith, few, routes.few_requests);
    },
  )

  -- The loop of `call` always ends. Either a candidate answered: the last request was to it and
  -- succeeded, its text is the output, and those behind it are not asked; or every candidate was
  -- silent. The candidates before the one that answers are silent too: each has no key, or its
  -- requests ended with one that failed and is not to be tried again. The silent ones are reported in
  -- order; each candidate that was reached, but the first, was switched to from the one before it;
  -- and no more requests were made than the attempts that each candidate with a key is allowed.
  pub route-Routes :
      (chain : List ModelEntry) (previous : Option (ModelEntry × ℕ)) (fs : List Failure)
      (ss : List Switch) (w : World)
      → Routes chain previous fs ss w (route q chain previous fs (ss, w))
  unfolding Routes route Tried
  route-Routes [] previous fs ss w = (
    _,
    refl,
    record {
      outcome = inl record {
        blocked_status = refl;
        all_silent = tt;
        all_reported = sym (append-nil (reported fs));
        all_switched = sym (append-nil (pairs ss));
      };
      few_requests = omega arith;
      more_requests = omega arith;
    },
  )
  route-Routes (e ∷ chain) previous fs ss w =
      let (pair, unasked) = switch_to-pairs previous e ss w in
      let ss1 = (switch_to q previous e (ss, w)).0 in
      let w1 = (switch_to q previous e (ss, w)).1 in
      elim (Bool-cases (is_available e)) [
        | inl key ↦
            let (t, same, tried) = try_candidate-tries q e w1 in
            let few : t.1.requests
                ≤ w.requests + (if is_available e then attempts_bound q.policy else 0) =
              rw key (omega (arith, unasked, tried.one_request_each, tried.few_attempts)) in
            let up : w.requests ≤ t.1.requests = omega (arith, unasked, tried.one_request_each) in
            elim (Bool-cases t.0.is_ok) [
              | inl good ↦
                  rw (key, same, good)
                    (
                      _,
                      refl,
                      record {
                        outcome = inr (
                            subst
                              (λ low.
                                IsAnswered q (e ∷ chain) previous fs ss low t.1.requests
                                  (routed q e t.0 ss1 fs))
                              unasked
                              (answers e chain previous fs ss ss1 w1 t key pair tried good));
                        few_requests = omega (arith, few);
                        more_requests = up;
                      },
                    )
              | inr bad ↦
                  rw (key, same, bad)
                    (next_candidate e chain previous t.0.attempts fs (failure_of q t.0) ss ss1 w t.1
                      _ (ap some tried.same_model) pair few up
                      (λ high below.
                        subst (λ low. IsSilent q low high e) unasked
                          (tried-IsSilent q e w1 t high tried bad below))
                      (route-Routes chain (some (e, t.0.attempts)) (fs ++ failure_of q t.0 ∷ []) ss1
                        t.1))
            ]
        | inr missing ↦ rw missing (
            next_candidate e chain previous 0 fs (no_key q e) ss ss1 w w1 _ refl pair
              (omega (arith, unasked)) (omega (arith, unasked))
              (λ high below. record { failed_request = λ key. cc (key, missing) })
              (route-Routes chain (some (e, 0)) (fs ++ no_key q e ∷ []) ss1 w1))
      ]

  reported_some :
      (fs : List Failure) {x : Option String} {xs : List (Option String)}
      → reported fs ≡ x ∷ xs
      → is_empty fs ≡ false
  reported_some [] h = cc
  reported_some (f ∷ fs) h = refl

  named_between :
      (es later : List ModelEntry) (e : ModelEntry)
      → any (λ n. n == e.name) (map (λ x. x.name) (es ++ e ∷ later)) ≡ true
  named_between [] later e = rw (==_refl e.name)
  named_between (x ∷ es) later e = ground (arith, named_between es later e)

  named_in :
      (x : ModelEntry) (chain es later : List ModelEntry) (e : ModelEntry)
      → x ∷ chain ≡ es ++ e ∷ later
      → any (λ n. n == e.name) (map (λ y. y.name) (x ∷ chain)) ≡ true
  named_in x chain es later e parts =
      subst (λ ys. any (λ n. n == e.name) (map (λ y. y.name) ys) ≡ true) (sym parts)
        (named_between es later e)

  chain_returns :
      (chain : List ModelEntry) (w : World)
      → (r : RouteResult × World) × (route_chain q chain w ≡ some r)
        × (r.0.status ≡ Status.blocked → is_empty r.0.failures ≡ false)
        × (r.0.status ≡ Status.ok
            → (e : ModelEntry) × (any (λ n. n == e.name) (map (λ x. x.name) chain) ≡ true)
              × (r.0.model ≡ some e.name))
  unfolding Routes
  chain_returns [] w = (nothing_bound q w, refl, λ b. refl, λ g. cc g)
  chain_returns (e ∷ chain) w =
      let (r, at, routes) = route-Routes (e ∷ chain) none [] [] w in
      elim routes.outcome [
        | inl b ↦
            (r, at, λ h. reported_some r.0.failures b.all_reported, λ g. cc (g, b.blocked_status))
        | inr a ↦ (
          r,
          at,
          λ h. cc (h, a.ok_status),
          λ g. (a.answering, named_in e chain a.earlier a.later a.answering a.parts, a.answered_by),
        )
      ]

  -- `call` always returns. A blocked result names at least one failure, and an answer comes from a
  -- model of the role's chain.
  pub call-returns :
      (c : Settings) (role : String) (w : World)
      → (r : RouteResult × World) × (call q c role w ≡ some r)
        × (r.0.status ≡ Status.blocked → is_empty r.0.failures ≡ false)
        × (r.0.status ≡ Status.ok
            → (e : ModelEntry) × (any
                  (λ n. n == e.name)
                  (map (λ x. x.name) (chain_for q.unicode.lower c role none))
                ≡ true)
              × (r.0.model ≡ some e.name))
  unfolding call
  call-returns c role w = chain_returns (chain_for q.unicode.lower c role none) w

-- ===== src/Models/Calls.antt =====
-- The attempts on one candidate: how many there are, and what ends them.
use aidean_fleet.Common.{
  subst, ℕ, zero, suc, ◌+◌, ◌-◌, ◌≤◌, ◌<◌, ◌≡◌, refl, ◌∙◌, inl, inr, true, false, Option, some, ltb,
  Bool-cases, arith, sym,
}
use aidean_fleet.Models.Retry.{Kind, RetryPolicy, attempts_bound, attempts_for, should_retry}
use aidean_fleet.Models.Pool.{ModelEntry}
use aidean_fleet.Models.Router.{
  TransportResult, World, CandidateAttempt, Request, new_candidate, next_result, kind_of_result,
  succeeded, failed, asked, try_on, try_candidate,
}

should_retry_below :
    (p : RetryPolicy) (k : Kind) (n : ℕ) → should_retry p k n ≡ true → n < attempts_bound p
unfolding should_retry attempts_for
should_retry_below p Kind.hard n h = ground arith
should_retry_below p Kind.transient n h = ground arith
should_retry_below p Kind.unknown n h = ground arith

attempts_bound-pos : (p : RetryPolicy) → 0 < attempts_bound p
attempts_bound-pos p = ground arith

-- what the transport answers to the request of this number
abbrev pub reply : Request → ModelEntry → ℕ → TransportResult
reply q e k = q.invoke k e q.prompt q.policy.timeout_seconds q.system_prompt

-- What is seen behind the attempts on a candidate that began with some made before them: they stay
-- within the bound, each is one request, one wait stands between two, all but the last failed in a way
-- that is tried again after that many attempts, and the last was answered or was not to be tried again.
pub record IsTried (q : Request) (e : ModelEntry) (before : ℕ) (w : World)
    (r : CandidateAttempt × World) : Type 0 where
  pub some_attempts : before < r.0.attempts
  pub few_attempts : r.0.attempts ≤ attempts_bound q.policy
  pub one_request_each : r.1.requests + before ≡ w.requests + r.0.attempts
  pub one_wait_between : suc r.1.waits + before ≡ w.waits + r.0.attempts
  pub earlier_failed : (k : ℕ) → w.requests ≤ k → suc k < r.1.requests → (reply q e k).is_ok ≡ false
  pub last_counts : (k : ℕ) → suc k ≡ r.1.requests → (reply q e k).is_ok ≡ r.0.is_ok
  pub earlier_tried_again :
      (k : ℕ)
      → w.requests ≤ k
      → suc k < r.1.requests
      → should_retry q.policy (kind_of_result q (reply q e k)) (before + (suc k - w.requests))
        ≡ true
  pub not_again :
      r.0.is_ok ≡ false
      → (k : ℕ) → suc k ≡ r.1.requests
      → should_retry q.policy (kind_of_result q (reply q e k)) r.0.attempts ≡ false
  pub same_text : r.0.is_ok ≡ true → (k : ℕ) → suc k ≡ r.1.requests → r.0.text ≡ (reply q e k).text
  pub same_model : r.0.model ≡ e.name

unfoldable pub Tried : Request → ModelEntry → ℕ → World → Option (CandidateAttempt × World) → Type 0
Tried q e before w o = (r : CandidateAttempt × World) × (o ≡ some r) × IsTried q e before w r

module _ (q : Request) (e : ModelEntry) where
  ends_here :
      (a b : CandidateAttempt) (w w' : World)
      → b.attempts ≡ suc a.attempts
      → w'.requests ≡ suc w.requests
      → w'.waits ≡ w.waits
      → suc a.attempts ≤ attempts_bound q.policy
      → (reply q e w.requests).is_ok ≡ b.is_ok
      → (b.is_ok ≡ false
          → should_retry q.policy (kind_of_result q (reply q e w.requests)) (suc a.attempts)
            ≡ false)
      → (b.is_ok ≡ true → b.text ≡ (reply q e w.requests).text)
      → b.model ≡ e.name
      → IsTried q e a.attempts w (b, w')
  ends_here a b w w' n r z few counts last text name = record {
    some_attempts = omega arith;
    few_attempts = omega arith;
    one_request_each = omega arith;
    one_wait_between = omega arith;
    earlier_failed = λ k low high. absurd (omega arith);
    last_counts = λ k p. let at : k ≡ w.requests = omega arith in rw at counts;
    earlier_tried_again = λ k low high. absurd (omega arith);
    not_again = λ bad k p. let at : k ≡ w.requests = omega arith in rw (at, n) (last bad);
    same_text = λ good k p. let at : k ≡ w.requests = omega arith in rw at (text good);
    same_model = name;
  }

  goes_on :
      (a b : CandidateAttempt) (w w' : World) {r : CandidateAttempt × World}
      → b.attempts ≡ suc a.attempts
      → w'.requests ≡ suc w.requests
      → w'.waits ≡ suc w.waits
      → (reply q e w.requests).is_ok ≡ false
      → should_retry q.policy (kind_of_result q (reply q e w.requests)) (suc a.attempts) ≡ true
      → IsTried q e b.attempts w' r
      → IsTried q e a.attempts w r
  goes_on a b w w' {r} n s z bad again t = record {
    some_attempts = omega (arith, t.some_attempts);
    few_attempts = t.few_attempts;
    one_request_each = omega (arith, t.one_request_each);
    one_wait_between = omega (arith, t.one_wait_between);
    earlier_failed = λ k low high. elim (Bool-cases (ltb w.requests k)) [
      | inl p ↦ t.earlier_failed k (ground arith) high
      | inr p ↦ let at : k ≡ w.requests = ground arith in rw at bad
    ];
    last_counts = t.last_counts;
    earlier_tried_again = λ k low high. elim (Bool-cases (ltb w.requests k)) [
      | inl p ↦
          let number : b.attempts + (suc k - w'.requests) ≡ a.attempts + (suc k - w.requests) =
            ground arith in
          subst (λ m. should_retry q.policy (kind_of_result q (reply q e k)) m ≡ true) number
            (t.earlier_tried_again k (ground arith) high)
      | inr p ↦
          let at : k ≡ w.requests = ground arith in
          let number : a.attempts + (suc w.requests - w.requests) ≡ suc a.attempts = omega arith in
          rw (at, number) again
    ];
    not_again = t.not_again;
    same_text = t.same_text;
    same_model = t.same_model;
  }

  try_on-tries :
      (fuel : ℕ) (a : CandidateAttempt) (w : World)
      → 0 < fuel
      → a.attempts + fuel ≡ attempts_bound q.policy
      → a.is_ok ≡ false
      → a.model ≡ e.name
      → Tried q e a.attempts w (try_on q fuel e a w)
  unfolding try_on Tried
  try_on-tries zero a w some_fuel enough fresh name = absurd (omega arith)
  try_on-tries (suc fuel) a w some_fuel enough fresh name =
      let r = next_result q e w in
      elim (Bool-cases r.is_ok) [
        | inl good ↦ rw good (
          _,
          refl,
          ends_here a (succeeded q (suc a.attempts) r a) w _ refl refl refl (omega arith) good
              (λ bad. cc) (λ answered. refl) name,
        )
        | inr bad ↦
            elim (Bool-cases (should_retry q.policy (kind_of_result q r) (suc a.attempts))) [
              | inl again ↦
                  let below =
                    should_retry_below q.policy (kind_of_result q r) (suc a.attempts) again in
                  let (t, same, tried) =
                    try_on-tries fuel (failed q (suc a.attempts) r a)
                      (record (asked q w) { waits = suc w.waits }) (omega (arith, below))
                      (omega arith) fresh name in
                  rw (bad, again)
                    (
                      t,
                      same,
                      goes_on a (failed q (suc a.attempts) r a) w _ refl refl refl bad again tried,
                    )
              | inr over ↦
                  rw (bad, over)
                    (
                      _,
                      refl,
                      ends_here a (failed q (suc a.attempts) r a) w (asked q w) refl refl refl
                          (omega arith) (bad ∙ sym fresh) (λ failed_now. over)
                          (λ answered. cc (answered, fresh)) name,
                    )
            ]
      ]

  -- The attempts on a candidate always end, within the bound of the policy: `_try_candidate` returns
  -- an attempt that made one request each time and waited between two. Every request but the last
  -- failed, and in a way that the policy tries again after that many attempts; the last was answered,
  -- or its failure is one that the policy does not try again.
  pub try_candidate-tries : (w : World) → Tried q e 0 w (try_candidate q e w)
  unfolding try_candidate
  try_candidate-tries w =
      try_on-tries (attempts_bound q.policy) (new_candidate e) w (attempts_bound-pos q.policy)
        (omega arith) refl refl

-- ===== src/Models/Prefixes.antt =====
-- What the usage and the registry of prefixes promise.
use aidean_fleet.Common.{
  ℕ, ◌+◌, ◌≡◌, refl, inl, inr, true, false, List, [], ◌∷◌, Option, none, some, String,
  if◌then◌else◌, eqb, find?, find?-append_none, find?-update_self, Bool-cases, Option-cases, arith,
  ap, ◌⊎◌,
}
use aidean_fleet.Common.Text.{◌==◌, ==_refl, eq_of_==}
use aidean_fleet.Models.Transport.{
  Value, RawUsage, Usage, as_int, normalize_usage, Prefix, has_prefix_key, set_stable_prefix,
  get_stable_prefix,
}

-- a normalized usage, reported again
abbrev pub reported_again : Usage → RawUsage
reported_again u = record {
  prompt_tokens = some (Value.number u.prompt_tokens);
  completion_tokens = some (Value.number u.completion_tokens);
  details_cached = none;
  prompt_cache_hit_tokens = none;
  cached_tokens = some (Value.number u.cached_tokens);
  total_tokens = some (Value.number u.total_tokens);
}

total_again :
    (t s : ℕ)
    → (let r = (if eqb t 0 then s else t) in if eqb r 0 then s else r) ≡ (if eqb t 0 then s else t)
total_again t s = ground arith

-- A usage that has been normalized is not changed when it is normalized again.
pub normalize_usage_idem :
    (int_of : String → Option ℕ) (raw : RawUsage)
    → normalize_usage int_of (reported_again (normalize_usage int_of raw))
      ≡ normalize_usage int_of raw
unfolding normalize_usage as_int
normalize_usage_idem int_of raw =
    ap
      (λ t. record {
        prompt_tokens = as_int int_of raw.prompt_tokens;
        cached_tokens = (normalize_usage int_of raw).cached_tokens;
        completion_tokens = as_int int_of raw.completion_tokens;
        total_tokens = t;
      })
      (total_again (as_int int_of raw.total_tokens)
        (as_int int_of raw.prompt_tokens + as_int int_of raw.completion_tokens))

-- A prefix that is registered is read back with the version that was returned. Where the text was
-- registered already, that version is the one from before, unless that was 0; where the text is
-- another, it is one more.
pub set_stable_prefix-get :
    (role project prefix : String) (cache : List Prefix)
    → let r = set_stable_prefix role project prefix cache in
      let before = get_stable_prefix role project cache in
      (get_stable_prefix role project r.1 ≡ (r.0, prefix))
      × (before.1 == prefix ≡ true → before.0 ≡ 0 ⊎ r.0 ≡ before.0)
      × (before.1 == prefix ≡ false → r.0 ≡ before.0 + 1)
unfolding set_stable_prefix get_stable_prefix
set_stable_prefix-get role project prefix cache =
    elim (Option-cases (find? (has_prefix_key role project) cache)) [
      | inl missing ↦
          rw
            (
              missing,
              find?-append_none (has_prefix_key role project) cache
                  (record { role = role; project = project; version = 1; prefix_text = prefix }
                    ∷ [])
                  missing,
              ==_refl role,
              ==_refl project,
            )
            (refl, λ same. inl refl, λ other. refl)
      | inr (p, at) ↦ elim (Bool-cases (p.prefix_text == prefix)) [
        | inl same ↦
            rw (at, same, at)
              (
                ap (λ t. (p.version, t)) (eq_of_== p.prefix_text prefix same),
                λ k. inr refl,
                λ k. cc k,
              )
        | inr other ↦
            rw
              (
                at,
                other,
                find?-update_self (has_prefix_key role project)
                    (λ x. record x { version = p.version + 1; prefix_text = prefix }) cache
                    (λ x. refl) at,
              )
              (refl, λ k. cc k, λ k. refl)
      ]
    ]

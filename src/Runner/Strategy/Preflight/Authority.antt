-- ===== src/Runner/Strategy/Preflight/Authority.antt =====
-- `checkLocalPolicy`, `permissionsNeeded` and `classifyAuthorization` of
-- packages/runner/src/strategy/preflight.ts.
use waterx_predict_agent.Base.{
  ℕ, ltb, if◌then◌else◌, Bool, true, false, not, Option, none, some, List, [], ◌∷◌, ◌++◌, any,
  select, is_none, Text, codes,
}
use waterx_predict_agent.Sdk.Decimal.{buy, sell}
use waterx_predict_agent.Runner.Secrets.{Json}
use waterx_predict_agent.Runner.Detail.{items, word, number}
use waterx_predict_agent.Runner.Job.{JobLegIntent, JobPolicySnapshot, JobRecord, PolicyMode}
use waterx_predict_agent.Runner.Strategy.Gateway.{EffectiveLimits, MandateLimits}
use waterx_predict_agent.Runner.Strategy.Preflight.{
  Entries, PreflightVerdict, entry, pause, stop, delegation_unreadable, no_mandate, suspended,
  blocked, policy_mode_unrecognized, delegation_revoked, policy_expired, policy_read_only,
  policy_requires_approval,
}

abbrev mode_detail : Text → JobPolicySnapshot → Entries
mode_detail mode policy = (codes "mode", word mode) ∷ (codes "source", word policy.source) ∷ []

abbrev expiry_detail : ℕ → ℕ → JobPolicySnapshot → Entries
expiry_detail not_after at policy =
    (codes "notAfter", number not_after)
    ∷ (codes "at", number at)
    ∷ (codes "source", word policy.source)
    ∷ (codes "mode", word (codes "delegated-auto"))
    ∷ []

abbrev pub policy_expiry : JobPolicySnapshot → ℕ → Option ℕ → Option PreflightVerdict
policy_expiry policy at none = none
policy_expiry policy at (some not_after) =
    if ltb at not_after
    then none
    else some (stop policy_expired (expiry_detail not_after at policy))

unfoldable pub check_local_policy : JobRecord → ℕ → Option PreflightVerdict
check_local_policy job at = elim job.policy.mode [
  | PolicyMode.read_only ↦ some (stop policy_read_only (mode_detail (codes "read-only") job.policy))
  | PolicyMode.interactive ↦
      some (stop policy_requires_approval (mode_detail (codes "interactive") job.policy))
  | PolicyMode.unrecognized name ↦
      some (pause policy_mode_unrecognized (mode_detail name job.policy))
  | PolicyMode.delegated_auto ↦ policy_expiry job.policy at job.policy.not_after
]

-- Authorization.

pub record PermissionsNeeded : Type 0 where
  pub place : Bool
  pub close : Bool

abbrev is_buy : JobLegIntent → Bool
is_buy leg = elim leg.side [ buy ↦ true | sell ↦ false ]

unfoldable pub permissions_needed : List JobLegIntent → PermissionsNeeded
permissions_needed legs = record {
  place = any is_buy legs;
  close = any (λ leg. not (is_buy leg)) legs;
}

abbrev pub one_if : Bool → Text → Option Bool → List (Text × Option Bool)
one_if false name granted = []
one_if true name granted = (name, granted) ∷ []

abbrev pub required : EffectiveLimits → PermissionsNeeded → List (Text × Option Bool)
required limits needs =
    one_if needs.place (codes "mayPlaceOrder") limits.delegation.may_place_order
    ++ one_if needs.close (codes "mayRequestClose") limits.delegation.may_request_close

abbrev pub is_denied : Option Bool → Bool
is_denied (some false) = true
is_denied _ = false

abbrev names : List (Text × Option Bool) → List Json
names [] = []
names ((name, granted) ∷ rest) = word name ∷ names rest

abbrev texts : List Text → List Json
texts [] = []
texts (t ∷ ts) = word t ∷ texts ts

abbrev listed : Text → List Json → Text → ℕ → Entries
listed key values stamp at = (key, Json.array (items values)) ∷ (stamp, number at) ∷ []

abbrev pub mandate_verdict : EffectiveLimits → Option MandateLimits → Option PreflightVerdict
mandate_verdict limits none = some (pause no_mandate (entry (codes "asOf") (number limits.as_of)))
mandate_verdict limits (some mandate) =
    if mandate.is_suspended
    then some (
        pause suspended (
          (codes "policyVersion", number mandate.policy_version)
          ∷ (codes "asOf", number limits.as_of)
          ∷ []))
    else elim limits.blockers [
      | [] ↦ none
      | b ∷ bs ↦
          some
            (pause blocked (listed (codes "blockers") (texts (b ∷ bs)) (codes "asOf") limits.as_of))
    ]

abbrev pub unless_unreadable :
    List (Text × Option Bool) → EffectiveLimits → Bool → Option PreflightVerdict
unless_unreadable [] limits has_mandate =
    if has_mandate then mandate_verdict limits limits.limits else none
unless_unreadable (p ∷ ps) limits has_mandate = some (
    pause delegation_unreadable (
      listed (codes "unreadable") (names (p ∷ ps)) (codes "checkedAt")
        limits.delegation.checked_at))

abbrev pub unless_revoked :
    List (Text × Option Bool)
    → List (Text × Option Bool)
    → EffectiveLimits
    → Bool
    → Option PreflightVerdict
unless_revoked [] unreadable limits has_mandate = unless_unreadable unreadable limits has_mandate
unless_revoked (p ∷ ps) unreadable limits has_mandate = some (
    stop delegation_revoked
      (listed (codes "revoked") (names (p ∷ ps)) (codes "checkedAt") limits.delegation.checked_at))

-- The Boolean is `mandate === 'SERVER'`.
unfoldable pub classify_authorization :
    EffectiveLimits → PermissionsNeeded → Bool → Option PreflightVerdict
classify_authorization limits needs has_mandate =
    unless_revoked (select (λ p. is_denied p.1) (required limits needs))
      (select (λ p. is_none p.1) (required limits needs)) limits has_mandate

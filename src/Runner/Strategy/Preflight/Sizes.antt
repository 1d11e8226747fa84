-- ===== src/Runner/Strategy/Preflight/Sizes.antt =====
-- `withPolicyCheck` and the size of a dynamic fraction, of packages/runner/src/strategy/preflight.ts.
use waterx_predict_agent.Base.{
  ℕ, ◌==◌, if◌then◌else◌, false, ◌&&◌, Option, none, some, [], ◌∷◌, Text, codes,
}
use waterx_predict_agent.Sdk.Decimal.{compare_decimal, at_most}
use waterx_predict_agent.Runner.Detail.{word, number}
use waterx_predict_agent.Runner.Job.{JobLegIntent, JobPolicySnapshot, JobRecord}
use waterx_predict_agent.Runner.Store.Db.{Result, ok, StoreError, or_fail, ◌>>=◌}
use waterx_predict_agent.Runner.Strategy.Gateway.{Position, shares_for_fraction}
use waterx_predict_agent.Runner.Strategy.Preflight.{
  LegSkipReason, Entries, PreparedLeg, position_mismatch, fraction_resolves_to_zero,
  exceeds_policy_order_limit,
}

abbrev pub skipped : ℕ → JobLegIntent → LegSkipReason → Entries → PreparedLeg
skipped i intent reason detail = record {
  leg_index = i;
  intent = intent;
  skip = some (record { reason = reason; retryable = false; detail = detail });
}

abbrev order_limit_detail : Text → Text → JobPolicySnapshot → Entries
order_limit_detail amount ceiling policy =
    (codes "buyAmount", word amount)
    ∷ (codes "maxOrderNotional", word ceiling)
    ∷ (codes "source", word policy.source)
    ∷ []

abbrev within_order_limit :
    ℕ → JobLegIntent → JobPolicySnapshot → Option Text → Option Text → Result PreparedLeg
within_order_limit i intent policy (some ceiling) (some amount) = do
  c ← or_fail StoreError.range_error (compare_decimal amount ceiling)
  ok (
      if at_most c
      then record { leg_index = i; intent = intent; skip = none }
      else skipped i intent exceeds_policy_order_limit (order_limit_detail amount ceiling policy))
within_order_limit i intent policy none amount =
    ok (record { leg_index = i; intent = intent; skip = none })
within_order_limit i intent policy (some ceiling) none =
    ok (record { leg_index = i; intent = intent; skip = none })

unfoldable pub with_policy_check : ℕ → JobLegIntent → JobRecord → Result PreparedLeg
with_policy_check i intent job =
    within_order_limit i intent job.policy job.policy.max_order_notional intent.buy_amount

-- One leg's part of the plan, or the verdict that the whole job pauses.
pub data Resolved : Type 0 where
  prepared : PreparedLeg → Resolved
  unverified : Entries → Resolved

abbrev sized : ℕ → JobLegIntent → Text → ℕ → Text → JobRecord → Option Text → Result Resolved
sized i intent fraction id held job none = ok (
    prepared (
      skipped i intent fraction_resolves_to_zero (
        (codes "positionId", number id)
        ∷ (codes "fraction", word fraction)
        ∷ (codes "held", word held)
        ∷ [])))
sized i intent fraction id held job (some shares) = do
  leg ← with_policy_check i (record intent { sell_shares = some shares }) job
  ok (prepared leg)

abbrev held_part : ℕ → JobLegIntent → Text → ℕ → JobRecord → Option Text → Result Resolved
held_part i intent fraction id job none = ok (
    unverified (
      (codes "legIndex", number i)
      ∷ (codes "positionId", number id)
      ∷ (codes "shares", word (codes "null"))
      ∷ []))
held_part i intent fraction id job (some held) = do
  part ← shares_for_fraction held fraction
  sized i intent fraction id held job part

-- A leg whose position was found.
unfoldable pub resolve_held : ℕ → JobLegIntent → Text → ℕ → JobRecord → Position → Result Resolved
resolve_held i intent fraction id job position =
    if position.market_id == intent.market_id && position.outcome_id == intent.outcome_id
    then held_part i intent fraction id job position.shares
    else ok (
        prepared (
          skipped i intent position_mismatch (
            (codes "positionId", number id)
            ∷ (codes "positionMarketId", number position.market_id)
            ∷ (codes "positionOutcomeId", number position.outcome_id)
            ∷ [])))

-- ===== src/Runner/Strategy/Preflight.antt =====
-- packages/runner/src/strategy/preflight.ts: the verdicts of the checks at the trigger. A `detail` object is the list of its entries; an id or an instant is printed as a number.
pub mod Authority
pub mod Markets
pub mod Sizes
pub mod Checks
pub mod Asks
pub mod Verdicts
pub mod Pages
use waterx_predict_agent.Base.{
  ℕ, zero, suc, ◌==◌, ltb, leb, if◌then◌else◌, Bool, true, false, not, ◌&&◌, Option, none, some,
  List, [], ◌∷◌, ◌++◌, map, any, find, select, sort_by, is_none, is_some, Text, codes,
}
use waterx_predict_agent.Sdk.Decimal.{Side, buy, sell, compare_decimal, at_most}
use waterx_predict_agent.Runner.Secrets.{Json}
use waterx_predict_agent.Runner.Detail.{items, word, number, truth}
use waterx_predict_agent.Runner.Job.{
  JobLegIntent, JobLegSizing, JobPolicySnapshot, JobRecord, PolicyMode,
}
use waterx_predict_agent.Runner.Store.Db.{Result, ok, err, StoreError, or_fail, ◌>>=◌}
use waterx_predict_agent.Runner.Strategy.Gateway.{
  Market, MarketStatus, MarketDisposition, MarketDispositionReason, MarketVerdict, classify_market,
  EffectiveLimits, MandateLimits, Position, shares_for_fraction,
}

pub data PreflightPauseReason : Type 0 where
  delegation_unreadable no_mandate suspended blocked market_not_tradeable market_status_unknown
        policy_mode_unrecognized position_unverified :
      PreflightPauseReason

pub data PreflightStopReason : Type 0 where
  delegation_revoked policy_expired policy_read_only policy_requires_approval market_closed
        market_resolved :
      PreflightStopReason

pub data LegSkipReason : Type 0 where
  position_gone position_mismatch fraction_resolves_to_zero exceeds_policy_order_limit
        exceeds_policy_run_limit price_worse_than_bound target_no_longer_met quote_expired
        expired_before_sent refused_on_resume :
      LegSkipReason

abbrev pub Entries : Type 0
Entries = List (Text × Json)

pub record LegSkip : Type 0 where
  pub reason : LegSkipReason
  pub retryable : Bool
  pub detail : Entries

pub record PreparedLeg : Type 0 where
  pub leg_index : ℕ
  pub intent : JobLegIntent
  pub skip : Option LegSkip

pub data PreflightVerdict : Type 0 where
  proceed : List PreparedLeg → PreflightVerdict
  pause : PreflightPauseReason → Entries → PreflightVerdict
  stop : PreflightStopReason → Entries → PreflightVerdict

abbrev pub entry : Text → Json → Entries
entry key value = (key, value) ∷ []

abbrev pub optional_entry : Text → Option Text → Entries
optional_entry key none = []
optional_entry key (some t) = entry key (word t)

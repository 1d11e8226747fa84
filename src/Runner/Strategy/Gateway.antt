-- ===== src/Runner/Strategy/Gateway.antt =====
-- packages/runner/src/strategy/gateway.ts, positions.ts and lifecycle.ts, and the parts of the SDK's
-- contract that they read: what a strategy asks of the server, the signer and the price feed.
use waterx_predict_agent.Base.{
  ℕ, ◌*◌, ◌/◌, ◌==◌, if◌then◌else◌, Bool, true, false, Option, none, some, List, Text,
}
use waterx_predict_agent.Sdk.Decimal.{Side, buy, sell, to_scaled, from_scaled}
use waterx_predict_agent.Runner.Job.{JobLegIntent, JobPolicySnapshot, JobRecord}
use waterx_predict_agent.Runner.Store.Db.{Result, ok, err, StoreError, or_fail, ◌>>=◌}
use waterx_predict_agent.Runner.Reconciler.{ExecutionRead, ExecutionStatus}

-- `other` is a status that this build does not know.
pub data MarketStatus : Type 0 where
  pregame in_play closed resolved : MarketStatus
  other : Text → MarketStatus

pub record Market : Type 0 where
  pub status : MarketStatus
  pub tradeable : Bool
  pub tradeability_reason : Option Text

pub data MarketDisposition : Type 0 where
  runnable pause terminal : MarketDisposition

pub data MarketDispositionReason : Type 0 where
  is_tradeable not_tradeable market_closed market_resolved unknown_status : MarketDispositionReason

pub record MarketVerdict : Type 0 where
  pub disposition : MarketDisposition
  pub reason : MarketDispositionReason

abbrev verdict : MarketDisposition → MarketDispositionReason → MarketVerdict
verdict d r = record { disposition = d; reason = r }

abbrev while_open : Bool → MarketVerdict
while_open true = verdict runnable is_tradeable
while_open false = verdict pause not_tradeable

unfoldable pub classify_market : Market → MarketVerdict
classify_market m = elim m.status [
  | MarketStatus.closed ↦ verdict terminal market_closed
  | MarketStatus.resolved ↦ verdict terminal market_resolved
  | MarketStatus.pregame ↦ while_open m.tradeable
  | MarketStatus.in_play ↦ while_open m.tradeable
  | MarketStatus.other t ↦ verdict pause unknown_status
]

-- What the chain grants the agent; `none` is a read that failed.
pub record Delegation : Type 0 where
  pub may_place_order : Option Bool
  pub may_request_close : Option Bool
  pub checked_at : ℕ

pub record MandateLimits : Type 0 where
  pub is_suspended : Bool
  pub policy_version : ℕ

-- `limits` is `none` where the owner has granted no mandate.
pub record EffectiveLimits : Type 0 where
  pub delegation : Delegation
  pub limits : Option MandateLimits
  pub blockers : List Text
  pub as_of : ℕ

pub record Position : Type 0 where
  pub position_id : ℕ
  pub market_id : ℕ
  pub outcome_id : ℕ
  pub shares : Option Text

pub record PositionPage : Type 0 where
  pub positions : List Position
  pub next_cursor : Option (Option ℕ)

pub data OrderSize : Type 0 where
  buy_amount sell_shares : Text → OrderSize

pub record QuoteRequest : Type 0 where
  pub market_id : ℕ
  pub outcome_id : ℕ
  pub side : Side
  pub size : OrderSize

pub record Quote : Type 0 where
  pub quote_id : ℕ
  pub expected_price : Text
  pub as_of : ℕ
  pub expires_at : ℕ

pub record CreateRequest : Type 0 where
  pub account_id : ℕ
  pub market_id : ℕ
  pub outcome_id : ℕ
  pub side : Side
  pub size : OrderSize
  pub position_id : Option ℕ
  pub reference_quote_id : ℕ
  pub max_slippage_bps : ℕ
  pub worst_acceptable_price : Option Text
  pub strategy_id : ℕ

pub record CreatedExecution : Type 0 where
  pub execution_id : ℕ
  pub reference_quote_id : ℕ
  pub submission_quote_id : ℕ
  pub status : ExecutionStatus
  pub enforced_worst_price : Text
  pub signature_expires_at : ℕ
  pub transaction_bytes : ℕ

-- What of a structured refusal is safe to persist.
pub record ApiError : Type 0 where
  pub code : Text
  pub http_status : ℕ
  pub retryable : Bool

-- What a write got back: an answer, a refusal that settles what happened, or an error that settles
-- nothing (`isDefinitive` is false).
pub data Answer (A : Type 0) : Type 0 where
  answered : A → Answer A
  refused : ApiError → Answer A
  unresolved : Answer A

pub record SignRequest : Type 0 where
  pub job_id : ℕ
  pub leg_index : ℕ
  pub agent_wallet : ℕ
  pub policy : JobPolicySnapshot
  pub transaction_bytes : ℕ

-- A signature, or the code of the signer's refusal.
pub data Signing : Type 0 where
  signature : ℕ → Signing
  unsigned : Text → Signing

pub record WatchKey : Type 0 where
  pub market_id : ℕ
  pub outcome_id : ℕ
  pub side : Side

-- Everything outside the process. Each answer may depend on the moment at which it is asked.
pub record Outside : Type 0 where
  pub has_mandate : Bool
  pub get_quote : ℕ → QuoteRequest → Result Quote
  pub create_execution : ℕ → CreateRequest → ℕ → Answer CreatedExecution
  pub submit_execution : ℕ → ℕ → ℕ → Answer ExecutionRead
  pub get_execution : ℕ → ℕ → Result ExecutionRead
  pub get_market : ℕ → ℕ → Result Market
  pub get_effective_limits : ℕ → ℕ → Result EffectiveLimits
  pub get_positions : ℕ → ℕ → Option ℕ → Result PositionPage
  pub observe : ℕ → WatchKey → Result (Option Text)
  pub sign : ℕ → SignRequest → Signing
  pub new_id : ℕ → ℕ
  pub fingerprint_create : CreateRequest → ℕ
  pub fingerprint_submit : ℕ → ℕ
  pub mandate_digest : JobPolicySnapshot → ℕ

abbrev size_from : Side → Option Text → Option Text → Result OrderSize
size_from buy (some amount) shares = ok (OrderSize.buy_amount amount)
size_from buy none shares = err StoreError.size_missing
size_from sell amount (some shares) = ok (OrderSize.sell_shares shares)
size_from sell amount none = err StoreError.size_missing

unfoldable pub size_of : JobLegIntent → Result OrderSize
size_of intent = size_from intent.side intent.buy_amount intent.sell_shares

unfoldable pub quote_request_for : JobLegIntent → Result QuoteRequest
quote_request_for intent = do
  size ← size_of intent
  ok (record {
    market_id = intent.market_id;
    outcome_id = intent.outcome_id;
    side = intent.side;
    size = size;
  })

unfoldable pub build_create_request : JobRecord → JobLegIntent → ℕ → Result CreateRequest
build_create_request job intent quote_id = do
  size ← size_of intent
  ok (record {
    account_id = job.account_id;
    market_id = intent.market_id;
    outcome_id = intent.outcome_id;
    side = intent.side;
    size = size;
    position_id = intent.position_id;
    reference_quote_id = quote_id;
    max_slippage_bps = intent.max_slippage_bps;
    worst_acceptable_price = intent.worst_acceptable_price;
    strategy_id = job.strategy_id;
  })

-- `sharesForFraction` of strategy/intent.ts.
abbrev pub unless_zero : ℕ → Option Text
unless_zero shares = if shares == 0 then none else some (from_scaled shares)

unfoldable pub shares_for_fraction : Text → Text → Result (Option Text)
shares_for_fraction held fraction = do
  shares ← or_fail StoreError.range_error (to_scaled held)
  part ← or_fail StoreError.range_error (to_scaled fraction)
  ok (unless_zero (shares * part / 1_000_000))

-- ===== src/Runner/Strategy/Driver.antt =====
-- packages/runner/src/strategy/driver.ts: what a pass reports, and the checks of a fresh quote. The
-- `detail` of a report is the list of its entries.
pub mod Report
pub mod Endings
pub mod Create
pub mod Submit
pub mod Execute
pub mod Resume
pub mod Pass
pub mod Told
pub mod Keys
pub mod Asked
pub mod Sent
pub mod Executed
pub mod Drives
pub mod Accounts
pub mod Quotes
pub mod Silent
pub mod Idle
pub mod Left
use waterx_predict_agent.Base.{
  ℕ, zero, suc, ◌==◌, ltb, leb, if◌then◌else◌, Bool, true, false, not, ◌&&◌, Option, none, some,
  List, [], ◌∷◌, ◌++◌, map, any, find, select, sort_by, is_none, is_some, Text, codes,
}
use waterx_predict_agent.Sdk.Decimal.{Side, buy, sell, target_reached}
use waterx_predict_agent.Runner.StateMachine.{JobState}
use waterx_predict_agent.Runner.Detail.{number, word}
use waterx_predict_agent.Runner.Job.{JobLegIntent, JobLease, JobRecord, TriggerKind}
use waterx_predict_agent.Runner.Store.Db.{Result, ok, StoreError, or_fail, ◌>>=◌}
use waterx_predict_agent.Runner.Strategy.Gateway.{Outside, Quote, WatchKey}
use waterx_predict_agent.Runner.Strategy.Preflight.{Entries, LegSkip, LegSkipReason, PreparedLeg}

-- `signal` is left out: a pass that is aborted stops at one of its calls.
pub record DriveJobOptions : Type 0 where
  pub outside : Outside
  pub lease : JobLease
  pub at : ℕ

pub data DriveAction : Type 0 where
  already_terminal armed waiting paused resumed triggered rearmed executed reconciled ended
        unknown_pending not_drivable :
      DriveAction

pub record DriveLegReport : Type 0 where
  pub leg_index : ℕ
  pub attempted : Bool
  pub execution_id : Option ℕ
  pub skip : Option LegSkip
  pub refused_code : Option Text
  pub sign_refused_code : Option Text

pub record DriveResult : Type 0 where
  pub job_id : ℕ
  pub from : JobState
  pub to : JobState
  pub action : DriveAction
  pub reason : Text
  pub legs : Option (List DriveLegReport)
  pub detail : Option Entries

abbrev pub say_of :
    JobRecord
    → JobState
    → DriveAction
    → Text
    → Option (List DriveLegReport)
    → Option Entries
    → DriveResult
say_of job to action reason legs detail = record {
  job_id = job.job_id;
  from = job.state;
  to = to;
  action = action;
  reason = reason;
  legs = legs;
  detail = detail;
}

abbrev pub say : JobRecord → JobState → DriveAction → Text → DriveResult
say job to action reason = say_of job to action reason none none

abbrev pub say_detail : JobRecord → JobState → DriveAction → Text → Entries → DriveResult
say_detail job to action reason detail = say_of job to action reason none (some detail)

abbrev pub report : ℕ → DriveLegReport
report i = record {
  leg_index = i;
  attempted = false;
  execution_id = none;
  skip = none;
  refused_code = none;
  sign_refused_code = none;
}

abbrev pub to_report : PreparedLeg → DriveLegReport
to_report leg = record (report leg.leg_index) { skip = leg.skip }

-- `reports.set(leg.legIndex, …)`, which keeps the place of a key that it has.
abbrev pub set_report : DriveLegReport → List DriveLegReport → List DriveLegReport
set_report r [] = r ∷ []
set_report r (x ∷ xs) =
    let rest = set_report r xs in if x.leg_index == r.leg_index then r ∷ xs else x ∷ rest

abbrev pub sorted : List DriveLegReport → List DriveLegReport
sorted reports = sort_by (λ a b. ltb a.leg_index b.leg_index) reports

abbrev pub watch_from : Option ℕ → Option ℕ → Option Side → Option WatchKey
watch_from (some m) (some o) (some s) = some (record { market_id = m; outcome_id = o; side = s })
watch_from _ _ _ = none

unfoldable pub watch_key_of : JobRecord → Option WatchKey
watch_key_of job = watch_from job.trigger.market_id job.trigger.outcome_id job.trigger.side

pub record QuotedLeg : Type 0 where
  pub leg_index : ℕ
  pub intent : JobLegIntent
  pub quote : Quote

abbrev pub same_side : Side → Side → Bool
same_side buy buy = true
same_side sell sell = true
same_side _ _ = false

abbrev pub side_text : Side → Text
side_text buy = codes "BUY"
side_text sell = codes "SELL"

abbrev pub retry : LegSkipReason → Entries → LegSkip
retry reason detail = record { reason = reason; retryable = true; detail = detail }

abbrev price_detail : Quote → Text → Text → Side → Entries
price_detail quote key price side =
    (codes "expectedPrice", word quote.expected_price)
    ∷ (key, word price)
    ∷ (codes "side", word (side_text side))
    ∷ []

abbrev quote_detail : Quote → ℕ → Entries
quote_detail quote at =
    (codes "quoteId", number quote.quote_id)
    ∷ (codes "expiresAt", number quote.expires_at)
    ∷ (codes "at", number at)
    ∷ []

-- The price meets a bound, or the leg is skipped.
abbrev pub meets : JobLegIntent → Quote → Text → LegSkipReason → Text → Result (Option LegSkip)
meets intent quote bound reason key = do
  met ← or_fail StoreError.range_error (target_reached intent.side quote.expected_price bound)
  ok (if met then none else some (retry reason (price_detail quote key bound intent.side)))

abbrev pub watches : WatchKey → JobLegIntent → Bool
watches watch intent =
    watch.market_id == intent.market_id
    && (watch.outcome_id == intent.outcome_id && same_side watch.side intent.side)

abbrev pub target_of : TriggerKind → Option Text → Option WatchKey → JobLegIntent → Option Text
target_of TriggerKind.price (some target) (some watch) intent =
    if watches watch intent then some target else none
target_of _ _ _ intent = none

-- The trigger's own target, where the leg trades what the target was about.
unfoldable pub target_for : JobRecord → JobLegIntent → Option Text
target_for job intent =
    target_of job.trigger.kind job.trigger.target_price (watch_key_of job) intent

abbrev pub meets_optional :
    JobLegIntent → Quote → Option Text → LegSkipReason → Text → Result (Option LegSkip)
meets_optional intent quote none reason key = ok none
meets_optional intent quote (some bound) reason key = meets intent quote bound reason key

abbrev pub or_then : Option LegSkip → Result (Option LegSkip) → Result (Option LegSkip)
or_then (some skip) rest = ok (some skip)
or_then none rest = rest

abbrev pub priced : JobRecord → JobLegIntent → Quote → Result (Option LegSkip)
priced job intent quote = do
  bounded ←
      meets_optional intent quote intent.worst_acceptable_price LegSkipReason.price_worse_than_bound
        (codes "worstAcceptablePrice")
  or_then bounded (
      meets_optional intent quote (target_for job intent) LegSkipReason.target_no_longer_met
        (codes "targetPrice"))

unfoldable pub verify_quote : JobRecord → JobLegIntent → Quote → ℕ → Result (Option LegSkip)
verify_quote job intent quote at =
    if leb quote.expires_at at
    then ok (some (retry LegSkipReason.quote_expired (quote_detail quote at)))
    else priced job intent quote

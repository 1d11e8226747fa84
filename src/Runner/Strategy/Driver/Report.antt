-- ===== src/Runner/Strategy/Driver/Report.antt =====
-- The words that packages/runner/src/strategy/driver.ts writes to the transition log.
use waterx_predict_agent.Base.{ℕ, Option, none, some, List, [], ◌∷◌, ◌++◌, map, Text, codes}
use waterx_predict_agent.Runner.StateMachine.{JobState}
use waterx_predict_agent.Runner.Secrets.{Json}
use waterx_predict_agent.Runner.Detail.{fields, items, number, truth, word}
use waterx_predict_agent.Runner.Job.{TriggerKind, Observe}
use waterx_predict_agent.Runner.Reconciler.{ReconcileDisposition}
use waterx_predict_agent.Runner.Strategy.Gateway.{ApiError, WatchKey}
use waterx_predict_agent.Runner.Strategy.Preflight.{
  Entries, LegSkip, LegSkipReason, PreflightPauseReason, PreflightStopReason, entry, optional_entry,
}
use waterx_predict_agent.Runner.Strategy.Driver.{DriveLegReport, side_text}

abbrev pub pause_text : PreflightPauseReason → Text
pause_text PreflightPauseReason.delegation_unreadable = codes "DELEGATION_UNREADABLE"
pause_text PreflightPauseReason.no_mandate = codes "NO_MANDATE"
pause_text PreflightPauseReason.suspended = codes "SUSPENDED"
pause_text PreflightPauseReason.blocked = codes "BLOCKED"
pause_text PreflightPauseReason.market_not_tradeable = codes "MARKET_NOT_TRADEABLE"
pause_text PreflightPauseReason.market_status_unknown = codes "MARKET_STATUS_UNKNOWN"
pause_text PreflightPauseReason.policy_mode_unrecognized = codes "POLICY_MODE_UNRECOGNIZED"
pause_text PreflightPauseReason.position_unverified = codes "POSITION_UNVERIFIED"

abbrev pub stop_text : PreflightStopReason → Text
stop_text PreflightStopReason.delegation_revoked = codes "DELEGATION_REVOKED"
stop_text PreflightStopReason.policy_expired = codes "POLICY_EXPIRED"
stop_text PreflightStopReason.policy_read_only = codes "POLICY_READ_ONLY"
stop_text PreflightStopReason.policy_requires_approval = codes "POLICY_REQUIRES_APPROVAL"
stop_text PreflightStopReason.market_closed = codes "MARKET_CLOSED"
stop_text PreflightStopReason.market_resolved = codes "MARKET_RESOLVED"

abbrev skip_text : LegSkipReason → Text
skip_text LegSkipReason.position_gone = codes "POSITION_GONE"
skip_text LegSkipReason.position_mismatch = codes "POSITION_MISMATCH"
skip_text LegSkipReason.fraction_resolves_to_zero = codes "FRACTION_RESOLVES_TO_ZERO"
skip_text LegSkipReason.exceeds_policy_order_limit = codes "EXCEEDS_POLICY_ORDER_LIMIT"
skip_text LegSkipReason.exceeds_policy_run_limit = codes "EXCEEDS_POLICY_RUN_LIMIT"
skip_text LegSkipReason.price_worse_than_bound = codes "PRICE_WORSE_THAN_BOUND"
skip_text LegSkipReason.target_no_longer_met = codes "TARGET_NO_LONGER_MET"
skip_text LegSkipReason.quote_expired = codes "QUOTE_EXPIRED"
skip_text LegSkipReason.expired_before_sent = codes "EXPIRED_BEFORE_SENT"
skip_text LegSkipReason.refused_on_resume = codes "REFUSED_ON_RESUME"

abbrev pub state_text : JobState → Text
state_text JobState.draft = codes "DRAFT"
state_text JobState.watching = codes "WATCHING"
state_text JobState.paused = codes "PAUSED"
state_text JobState.triggered = codes "TRIGGERED"
state_text JobState.quoting = codes "QUOTING"
state_text JobState.creating = codes "CREATING"
state_text JobState.awaiting_signature = codes "AWAITING_SIGNATURE"
state_text JobState.submitting = codes "SUBMITTING"
state_text JobState.submitted = codes "SUBMITTED"
state_text JobState.reconciling = codes "RECONCILING"
state_text JobState.unknown_pending = codes "UNKNOWN_PENDING"
state_text JobState.filled = codes "FILLED"
state_text JobState.failed = codes "FAILED"
state_text JobState.cancelled = codes "CANCELLED"
state_text JobState.expired = codes "EXPIRED"

abbrev pub disposition_text : ReconcileDisposition → Text
disposition_text ReconcileDisposition.terminal = codes "TERMINAL"
disposition_text ReconcileDisposition.leg_resolved = codes "LEG_RESOLVED"
disposition_text ReconcileDisposition.still_pending = codes "STILL_PENDING"
disposition_text ReconcileDisposition.inconclusive = codes "INCONCLUSIVE"
disposition_text ReconcileDisposition.replayable = codes "REPLAYABLE"
disposition_text ReconcileDisposition.rearmed = codes "REARMED"
disposition_text ReconcileDisposition.not_applicable = codes "NOT_APPLICABLE"

abbrev pub trigger_text : TriggerKind → Text
trigger_text TriggerKind.immediate = codes "IMMEDIATE"
trigger_text TriggerKind.price = codes "PRICE"

abbrev pub observe_entry : Text → Option Observe → Entries
observe_entry key none = []
observe_entry key (some Observe.ask) = entry key (word (codes "ASK"))
observe_entry key (some Observe.bid) = entry key (word (codes "BID"))

abbrev pub optional_number : Text → Option ℕ → Entries
optional_number key none = []
optional_number key (some n) = entry key (number n)

abbrev pub watch_json : WatchKey → Json
watch_json w = Json.object (
    fields (
      (codes "marketId", number w.market_id)
      ∷ (codes "outcomeId", number w.outcome_id)
      ∷ (codes "side", word (side_text w.side))
      ∷ []))

abbrev skip_entry : Option LegSkip → Entries
skip_entry none = []
skip_entry (some skip) = entry (codes "skip") (
    Json.object (
      fields (
        (codes "reason", word (skip_text skip.reason))
        ∷ (codes "retryable", truth skip.retryable)
        ∷ (codes "detail", Json.object (fields skip.detail))
        ∷ [])))

abbrev report_json : DriveLegReport → Json
report_json r = Json.object (
    fields (
      (codes "legIndex", number r.leg_index)
        ∷ (codes "attempted", truth r.attempted)
        ∷ optional_number (codes "executionId") r.execution_id
      ++ skip_entry r.skip
      ++ optional_entry (codes "refusedCode") r.refused_code
      ++ optional_entry (codes "signRefusedCode") r.sign_refused_code))

abbrev pub report_entries : Text → List DriveLegReport → Entries
report_entries key reports = entry key (Json.array (items (map report_json reports)))

abbrev pub index_entries : Text → List ℕ → Entries
index_entries key is = entry key (Json.array (items (map number is)))

-- `refusalDetail`.
abbrev pub refusal_detail : ApiError → Entries
refusal_detail e =
    (codes "code", word e.code)
    ∷ (codes "httpStatus", number e.http_status)
    ∷ (codes "retryable", truth e.retryable)
    ∷ []

-- ===== src/Runner/Strategy/Driver/Create.antt =====
-- `execute` of packages/runner/src/strategy/driver.ts up to its creates: the reservation, the mandate
-- and the create requests.
use waterx_predict_agent.Base.{
  ℕ, ◌==◌, if◌then◌else◌, true, false, Option, none, some, List, [], ◌∷◌, ◌++◌, find, Text, codes,
}
use waterx_predict_agent.Runner.StateMachine.{JobState}
use waterx_predict_agent.Runner.Detail.{detail_of, number, word}
use waterx_predict_agent.Runner.Job.{
  JobLeg, JobLegIntent, JobLegStatus, JobRecord, SideEffectKind, SideEffectOutcome,
  SideEffectAttempt,
}
use waterx_predict_agent.Runner.Store.Legs.{
  LegPatch, MandateSpend, commit_mandate_spend, reserve_leg, update_leg, admitted, refused,
}
use waterx_predict_agent.Runner.Store.Effects.{begin_side_effect, complete_side_effect}
use waterx_predict_agent.Runner.Reconciler.Pass.{status_text}
use waterx_predict_agent.Runner.Store.Db.{ok}
use waterx_predict_agent.Runner.Strategy.Gateway.{
  Answer, CreateRequest, CreatedExecution, build_create_request,
}
use waterx_predict_agent.Runner.Strategy.World.{
  Act, Payload, ask, of_result, pure, send, store, ◌>>=◌,
}
use waterx_predict_agent.Runner.Strategy.Preflight.{LegSkip, LegSkipReason, PreparedLeg}
use waterx_predict_agent.Runner.Strategy.Driver.{
  DriveJobOptions, DriveLegReport, DriveResult, QuotedLeg, report, set_report,
}
use waterx_predict_agent.Runner.Strategy.Driver.Report.{refusal_detail}
use waterx_predict_agent.Runner.Strategy.Driver.Endings.{unknown}

pub record LiveLeg : Type 0 where
  pub leg_index : ℕ
  pub intent : JobLegIntent
  pub created : CreatedExecution

abbrev pub no_patch : LegPatch
no_patch = record {
  status = none;
  reference_quote_id = none;
  submission_quote_id = none;
  quoted_at = none;
  execution_id = none;
  submission_digest = none;
  keeper_digest = none;
}

abbrev pub with_status : JobLegStatus → LegPatch
with_status s = record no_patch { status = some s }

-- What becomes of the create of one leg.
pub data CreateOutcome : Type 0 where
  live : LiveLeg → CreateOutcome
  turned_away : Text → CreateOutcome
  gave_up : DriveResult → CreateOutcome

-- What becomes of them all: the reports and the legs that live, or the pass ends at once.
pub data CreatesOutcome : Type 0 where
  all_asked : List DriveLegReport → List LiveLeg → CreatesOutcome
  cut_short : DriveResult → CreatesOutcome

-- `Map.get` of a map that was built from the rows: the last row of an index wins.
unfoldable pub key_in : ℕ → List JobLeg → Option ℕ
key_in i [] = none
key_in i (l ∷ ls) =
    let rest = key_in i ls in
    elim rest [
      | some key ↦ some key
      | none ↦ if l.leg_index == i then some l.idempotency_key else none
    ]

abbrev over_budget : JobRecord → Text → MandateSpend → Option LegSkip
over_budget job amount (admitted total) = none
over_budget job amount (refused total ceiling) = some (record {
  reason = LegSkipReason.exceeds_policy_run_limit;
  retryable = false;
  detail =
      (codes "buyAmount", word amount)
      ∷ (codes "committed", word total)
      ∷ (codes "maxRunNotional", word ceiling)
      ∷ (codes "source", word job.policy.source)
      ∷ [];
})

abbrev sort_out :
    QuotedLeg
    → Option LegSkip
    → List QuotedLeg × List PreparedLeg
    → List QuotedLeg × List PreparedLeg
sort_out leg none (sending, over) = (leg ∷ sending, over)
sort_out leg (some skip) (sending, over) =
    (sending, record { leg_index = leg.leg_index; intent = leg.intent; skip = some skip } ∷ over)

abbrev created_patch : QuotedLeg → CreatedExecution → LegPatch
created_patch leg created = record no_patch {
  execution_id = some created.execution_id;
  reference_quote_id = some created.reference_quote_id;
  submission_quote_id = some created.submission_quote_id;
  quoted_at = some leg.quote.as_of;
}

abbrev created_report : LiveLeg → DriveLegReport
created_report leg = record (report leg.leg_index) {
  attempted = true;
  execution_id = some leg.created.execution_id;
}

abbrev refused_report : ℕ → Text → DriveLegReport
refused_report i code = record (report i) { attempted = true; refused_code = some code }

module _ (o : DriveJobOptions) where
  abbrev pub key_or_new : Option JobLeg → Act ℕ
  key_or_new (some leg) = pure leg.idempotency_key
  key_or_new none = ask (λ m. ok (o.outside.new_id m))

  -- `keyFor`: the key that is on disk, else a new one.
  unfoldable pub key_for : List JobLeg → ℕ → Act ℕ
  key_for existing i = key_or_new (find (λ (l : JobLeg). l.leg_index == i) existing)

  unfoldable pub reserve_all : List JobLeg → List (ℕ × JobLegIntent) → Act (Unit {0})
  reserve_all existing [] = pure tt
  reserve_all existing ((i, intent) ∷ rest) = do
    key ← key_for existing i
    leg ← store (
        reserve_leg (record {
          lease = o.lease;
          leg_index = i;
          idempotency_key = key;
          intent = intent;
          at = o.at;
        }))
    reserve_all existing rest

  abbrev pub commit_amount : JobRecord → ℕ → Option Text → Act (Option LegSkip)
  commit_amount job i none = pure none
  commit_amount job i (some amount) = do
    spend ← store (
        commit_mandate_spend (record {
          lease = o.lease;
          leg_index = i;
          scope = o.outside.mandate_digest job.policy;
          amount = amount;
          ceiling = job.policy.max_run_notional;
          at = o.at;
        }))
    pure (over_budget job amount spend)

  unfoldable pub commit_spend : JobRecord → QuotedLeg → Act (Option LegSkip)
  commit_spend job leg = commit_amount job leg.leg_index leg.intent.buy_amount

  -- The legs that are sent, and those over the budget.
  unfoldable pub commit_all : JobRecord → List QuotedLeg → Act (List QuotedLeg × List PreparedLeg)
  commit_all job [] = pure ([], [])
  commit_all job (leg ∷ rest) = do
    skip ← commit_spend job leg
    sorted ← commit_all job rest
    pure (sort_out leg skip sorted)

  unfoldable pub skip_all : List PreparedLeg → Act (Unit {0})
  skip_all [] = pure tt
  skip_all (leg ∷ rest) = do
    row ← store (update_leg o.lease leg.leg_index (with_status JobLegStatus.skipped) o.at)
    skip_all rest

  unfoldable pub after_create :
      JobRecord
      → JobState
      → QuotedLeg
      → SideEffectAttempt
      → Answer CreatedExecution
      → Act CreateOutcome
  after_create job from leg attempt (Answer.answered created) = do
    row ← store (
        complete_side_effect (record {
          lease = o.lease;
          attempt_id = attempt.attempt_id;
          outcome = SideEffectOutcome.succeeded;
          at = o.at;
          detail = detail_of (
              (codes "executionId", number created.execution_id)
              ∷ (codes "status", word (status_text created.status))
              ∷ (codes "enforcedWorstPrice", word created.enforced_worst_price)
              ∷ (codes "signatureExpiresAt", number created.signature_expires_at)
              ∷ []);
          leg = some (created_patch leg created);
        }))
    pure (live (record { leg_index = leg.leg_index; intent = leg.intent; created = created }))
  after_create job from leg attempt (Answer.refused error) = do
    row ← store (
        complete_side_effect (record {
          lease = o.lease;
          attempt_id = attempt.attempt_id;
          outcome = SideEffectOutcome.failed;
          at = o.at;
          detail = detail_of (refusal_detail error);
          leg = some (with_status JobLegStatus.failed);
        }))
    pure (turned_away error.code)
  after_create job from leg attempt Answer.unresolved = do
    r ← unknown o job from (codes "CREATE_UNRESOLVED") (
        (codes "legIndex", number leg.leg_index)
        ∷ (codes "attemptId", number attempt.attempt_id)
        ∷ [])
    pure (gave_up r)

  -- A key that is not in the store is thrown inside the `try`, and `isDefinitive` is false of it.
  abbrev pub send_create :
      JobRecord → QuotedLeg → CreateRequest → Option ℕ → Act (Answer CreatedExecution)
  send_create job leg body none = pure Answer.unresolved
  send_create job leg body (some key) =
      send
        (record {
          job_id = o.lease.job_id;
          leg_index = leg.leg_index;
          payload = Payload.create key body;
        })
        (λ m. o.outside.create_execution m body key)

  unfoldable pub create_one : JobRecord → JobState → List JobLeg → QuotedLeg → Act CreateOutcome
  create_one job from rows leg = do
    body ← of_result (build_create_request job leg.intent leg.quote.quote_id)
    id ← ask (λ m. ok (o.outside.new_id m))
    attempt ← store (
        begin_side_effect (record {
          lease = o.lease;
          attempt_id = id;
          leg_index = leg.leg_index;
          kind = SideEffectKind.create_execution;
          request_fingerprint = o.outside.fingerprint_create body;
          at = o.at;
        }))
    answer ← send_create job leg body (key_in leg.leg_index rows)
    after_create job from leg attempt answer

  abbrev pub go_on :
      QuotedLeg
      → List DriveLegReport
      → List LiveLeg
      → CreateOutcome
      → (List DriveLegReport → List LiveLeg → Act CreatesOutcome)
      → Act CreatesOutcome
  go_on leg reports lives (live l) k = k (set_report (created_report l) reports) (lives ++ l ∷ [])
  go_on leg reports lives (turned_away code) k =
      k (set_report (refused_report leg.leg_index code) reports) lives
  go_on leg reports lives (gave_up r) k = pure (cut_short r)

  unfoldable pub create_all :
      JobRecord
      → JobState
      → List JobLeg
      → List QuotedLeg
      → List DriveLegReport
      → List LiveLeg
      → Act CreatesOutcome
  create_all job from rows [] reports lives = pure (all_asked reports lives)
  create_all job from rows (leg ∷ rest) reports lives = do
    outcome ← create_one job from rows leg
    go_on leg reports lives outcome (create_all job from rows rest)

-- ===== src/Runner/Strategy/Driver/Resume.antt =====
-- `resume`, `concludeResume` and `reconcilePass` of packages/runner/src/strategy/driver.ts.
use waterx_predict_agent.Base.{
  ℕ, ◌==◌, leb, if◌then◌else◌, Bool, true, false, not, ◌&&◌, Option, none, some, List, [], ◌∷◌,
  ◌++◌, map, find, select, is_none, codes,
}
use waterx_predict_agent.Runner.StateMachine.{JobState}
use waterx_predict_agent.Runner.Detail.{number, word}
use waterx_predict_agent.Runner.Job.{
  JobLeg, JobLegIntent, JobLegStatus, JobRecord, SideEffectAttempt,
}
use waterx_predict_agent.Runner.Store.Legs.{list_legs}
use waterx_predict_agent.Runner.Store.Effects.{list_side_effects}
use waterx_predict_agent.Runner.Reconciler.{ReconcileDisposition, ReconcileResult, was_attempted}
use waterx_predict_agent.Runner.Strategy.Gateway.{quote_request_for, Quote}
use waterx_predict_agent.Runner.Strategy.World.{Act, ask, of_result, pure, query, ◌>>=◌}
use waterx_predict_agent.Runner.Strategy.Preflight.{
  Entries, LegSkip, LegSkipReason, PreflightVerdict, PreparedLeg, entry,
}
use waterx_predict_agent.Runner.Strategy.Preflight.Checks.{preflight}
use waterx_predict_agent.Runner.Strategy.Driver.{
  DriveAction, DriveJobOptions, DriveResult, QuotedLeg, say_detail, to_report, verify_quote,
}
use waterx_predict_agent.Runner.Strategy.Driver.Report.{pause_text, stop_text}
use waterx_predict_agent.Runner.Strategy.Driver.Endings.{reconcile, reconcile_plain, reconciled_as}
use waterx_predict_agent.Runner.Strategy.Driver.Create.{skip_all}
use waterx_predict_agent.Runner.Strategy.Driver.Execute.{execute}

abbrev is_pending : JobLegStatus → Bool
is_pending JobLegStatus.pending = true
is_pending _ = false

-- PENDING, with no execution and no attempt.
abbrev pub is_sendable : List SideEffectAttempt → JobLeg → Bool
is_sendable attempts l =
    is_pending l.status && (is_none l.execution_id && not (was_attempted attempts l))

unfoldable pub unsent_legs : List JobLeg → List SideEffectAttempt → List JobLeg
unsent_legs legs attempts = select (is_sendable attempts) legs

abbrev final : LegSkipReason → Entries → LegSkip
final reason detail = record { reason = reason; retryable = false; detail = detail }

abbrev missed : LegSkip → List JobLeg → List PreparedLeg
missed skip legs =
    map (λ (l : JobLeg). record { leg_index = l.leg_index; intent = l.intent; skip = some skip })
      legs

-- The legs of a pass by what their fresh quote says.
pub record Priced : Type 0 where
  pub quoted : List QuotedLeg
  pub skipped : List PreparedLeg

abbrev pub no_legs : Priced
no_legs = record { quoted = []; skipped = [] }

abbrev pub priced_leg : ℕ → JobLegIntent → Quote → Option LegSkip → Priced → Priced
priced_leg i intent quote none p = record p {
  quoted = p.quoted ++ record { leg_index = i; intent = intent; quote = quote } ∷ [];
}
priced_leg i intent quote (some skip) p = record p {
  skipped = p.skipped ++ record { leg_index = i; intent = intent; skip = some skip } ∷ [];
}

module _ (o : DriveJobOptions) where
  unfoldable pub quote_leg : JobRecord → ℕ → JobLegIntent → Priced → Act Priced
  quote_leg job i intent p = do
    request ← of_result (quote_request_for intent)
    quote ← ask (λ m. o.outside.get_quote m request)
    refusal ← of_result (verify_quote job intent quote o.at)
    pure (priced_leg i intent quote refusal p)

  unfoldable pub conclude_resume : JobRecord → List PreparedLeg → Act DriveResult
  conclude_resume job skipped = do
    u ← skip_all o skipped
    r ← reconcile_plain o JobState.reconciling
    pure (record r {
      from = job.state;
      legs = some (map to_report skipped);
      detail = some (resumed r.detail);
    })
    where
      resumed : Option Entries → Entries
      resumed none = entry (codes "resume") (word (codes "NO_LEG_SENT"))
      resumed (some detail) = detail ++ entry (codes "resume") (word (codes "NO_LEG_SENT"))

  -- A leg of the plan under the intent on disk; one that is not among the unsent is passed by.
  abbrev pub price_one :
      JobRecord → PreparedLeg → Option JobLeg → Option LegSkip → Priced → Act Priced
  price_one job leg none skip p = pure p
  price_one job leg (some row) (some skip) p = pure (record p {
    skipped =
        p.skipped
        ++ record { leg_index = leg.leg_index; intent = row.intent; skip = some skip } ∷ [];
  })
  price_one job leg (some row) none p = quote_leg job leg.leg_index row.intent p

  unfoldable pub price_unsent : JobRecord → List JobLeg → List PreparedLeg → Priced → Act Priced
  price_unsent job unsent [] p = pure p
  price_unsent job unsent (leg ∷ rest) p = do
    q ← price_one job leg (find (λ (l : JobLeg). l.leg_index == leg.leg_index) unsent) leg.skip p
    price_unsent job unsent rest q

  abbrev pub send_priced : JobRecord → List QuotedLeg → List PreparedLeg → Act DriveResult
  send_priced job [] skipped = conclude_resume job skipped
  send_priced job (l ∷ ls) skipped = execute o job (l ∷ ls) skipped

  unfoldable pub resume_with : JobRecord → List JobLeg → PreflightVerdict → Act DriveResult
  resume_with job unsent (PreflightVerdict.pause reason detail) = pure (
      say_detail job JobState.reconciling DriveAction.reconciled
        (codes "RESUME_" ++ pause_text reason) detail)
  resume_with job unsent (PreflightVerdict.stop reason detail) = conclude_resume job (
      missed
        (final LegSkipReason.refused_on_resume
          ((codes "refusal", word (stop_text reason)) ∷ detail))
        unsent)
  resume_with job unsent (PreflightVerdict.proceed legs) = do
    p ← price_unsent job unsent legs no_legs
    send_priced job p.quoted p.skipped

  abbrev expired_detail : JobRecord → Entries
  expired_detail job = (codes "expiresAt", number job.expires_at) ∷ (codes "at", number o.at) ∷ []

  unfoldable pub resume_unsent : JobRecord → List JobLeg → Act DriveResult
  resume_unsent job [] = reconcile_plain o JobState.reconciling
  resume_unsent job (l ∷ ls) =
      if leb job.expires_at o.at
      then conclude_resume job
          (missed (final LegSkipReason.expired_before_sent (expired_detail job)) (l ∷ ls))
      else (preflight o.outside job o.at >>= resume_with job (l ∷ ls))

  unfoldable pub resume : JobRecord → Act DriveResult
  resume job = do
    legs ← query (list_legs job.job_id)
    attempts ← query (list_side_effects job.job_id)
    resume_unsent (record job { state = JobState.reconciling }) (unsent_legs legs attempts)

  abbrev pub after_reconcile : JobState → JobRecord → ReconcileResult → Act DriveResult
  after_reconcile from job r = elim r.disposition [
    | ReconcileDisposition.replayable ↦ resume job
    | _ ↦ pure (reconciled_as from r)
  ]

  -- `reconcilePass` with the job: a replayable answer resumes the run.
  unfoldable pub reconcile_pass : JobState → JobRecord → Act DriveResult
  reconcile_pass from job = reconcile o >>= after_reconcile from job

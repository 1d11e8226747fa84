-- ===== src/Runner/Strategy/Driver/Endings.antt =====
-- The endings, pauses and reconcile passes of packages/runner/src/strategy/driver.ts: `endLocally`,
-- `refuseLocally`, `pause`, `stop`, `unknown`, `noneLeft` and a `reconcilePass` that may not resume.
use waterx_predict_agent.Base.{
  ℕ, leb, if◌then◌else◌, Bool, false, not, Option, none, some, List, [], ◌∷◌, ◌++◌, map, any, Text,
  codes,
}
use waterx_predict_agent.Runner.StateMachine.{JobState, state_eq, can_transition}
use waterx_predict_agent.Runner.Secrets.{Json}
use waterx_predict_agent.Runner.Detail.{detail_of, number, word}
use waterx_predict_agent.Runner.Job.{JobRecord}
use waterx_predict_agent.Runner.Store.Jobs.{TransitionInput, transition}
use waterx_predict_agent.Runner.Reconciler.{ReconcileDisposition, ReconcileResult, ExecutionStatus}
use waterx_predict_agent.Runner.Reconciler.Pass.{reconcile_job, status_text}
use waterx_predict_agent.Runner.Strategy.World.{Act, pure, store, timed, ◌>>=◌}
use waterx_predict_agent.Runner.Strategy.Preflight.{
  Entries, LegSkip, PreflightVerdict, PreparedLeg, entry, optional_entry,
}
use waterx_predict_agent.Runner.Strategy.Preflight.Authority.{check_local_policy}
use waterx_predict_agent.Runner.Strategy.Driver.{
  DriveAction, DriveJobOptions, DriveResult, say, say_of, say_detail, to_report,
}
use waterx_predict_agent.Runner.Strategy.Driver.Report.{
  disposition_text, optional_number, pause_text, report_entries, stop_text,
}

abbrev cancel_entries : JobRecord → ℕ → Entries
cancel_entries job requested_at =
    (codes "requestedAt", number requested_at)
    ∷ optional_entry (codes "cancelReason") job.cancel_reason

abbrev pub is_retryable : Option LegSkip → Bool
is_retryable none = false
is_retryable (some skip) = skip.retryable

abbrev pub left_over : List PreparedLeg → Entries
left_over legs = report_entries (codes "legs") (map to_report legs)

abbrev action_of : ReconcileDisposition → DriveAction
action_of ReconcileDisposition.terminal = DriveAction.ended
action_of ReconcileDisposition.inconclusive = DriveAction.unknown_pending
action_of ReconcileDisposition.rearmed = DriveAction.rearmed
action_of ReconcileDisposition.not_applicable = DriveAction.not_drivable
action_of _ = DriveAction.reconciled

abbrev optional_status : Option ExecutionStatus → Entries
optional_status none = []
optional_status (some s) = entry (codes "status") (word (status_text s))

unfoldable pub reconciled_as : JobState → ReconcileResult → DriveResult
reconciled_as from r = record {
  job_id = r.job_id;
  from = from;
  to = r.to;
  action = action_of r.disposition;
  reason = r.reason;
  legs = none;
  detail = some (
      (codes "disposition", word (disposition_text r.disposition))
        ∷ optional_number (codes "legIndex") r.leg_index
      ++ optional_number (codes "executionId") r.execution_id
      ++ optional_status r.status);
}

module _ (o : DriveJobOptions) where
  abbrev input : JobState → Text → Option Json → TransitionInput
  input to reason detail = record {
    lease = o.lease;
    to = to;
    reason = reason;
    at = o.at;
    detail = detail;
  }

  -- `await store.transition(…)`.
  unfoldable pub move : JobState → Text → Option Json → Act (Unit {0})
  move to reason detail = store (transition (input to reason detail)) >>= λ row. pure tt

  unfoldable pub stop : JobRecord → Text → Entries → Act DriveResult
  stop job reason detail = do
    u ← move JobState.failed reason (detail_of detail)
    pure (say_detail job JobState.failed DriveAction.ended reason detail)

  unfoldable pub pause : JobRecord → Text → Entries → Act DriveResult
  pause job reason detail =
      if state_eq job.state JobState.paused
      then pure (say_detail job JobState.paused DriveAction.waiting reason detail)
      else if not (can_transition job.state JobState.paused)
      then pure (say_detail job job.state DriveAction.waiting reason detail)
      else (move JobState.paused reason (detail_of detail) >>= λ u.
          pure (say_detail job JobState.paused DriveAction.paused reason detail))

  abbrev pub unless_expired : JobRecord → Act (Option DriveResult)
  unless_expired job =
      if leb job.expires_at o.at
      then (move JobState.expired (codes "EXPIRY_REACHED")
            (detail_of (entry (codes "expiresAt") (number job.expires_at)))
          >>= λ u.
              pure (some (say job JobState.expired DriveAction.ended (codes "EXPIRY_REACHED"))))
      else pure none

  unfoldable pub end_from : JobRecord → Option ℕ → Act (Option DriveResult)
  end_from job (some requested_at) = do
    u ←
        move JobState.cancelled (codes "CANCEL_REQUESTED")
          (detail_of (cancel_entries job requested_at))
    pure (some (say job JobState.cancelled DriveAction.ended (codes "CANCEL_REQUESTED")))
  end_from job none = unless_expired job

  unfoldable pub end_locally : JobRecord → Act (Option DriveResult)
  end_locally job = end_from job job.cancel_requested_at

  unfoldable pub refuse : JobRecord → Option PreflightVerdict → Act (Option DriveResult)
  refuse job none = pure none
  refuse job (some (PreflightVerdict.proceed legs)) = pure none
  refuse job (some (PreflightVerdict.stop reason detail)) =
      stop job (stop_text reason) detail >>= λ r. pure (some r)
  refuse job (some (PreflightVerdict.pause reason detail)) =
      pause job (pause_text reason) detail >>= λ r. pure (some r)

  unfoldable pub refuse_locally : JobRecord → Act (Option DriveResult)
  refuse_locally job = refuse job (check_local_policy job o.at)

  abbrev pub none_left_as :
      JobRecord → List PreparedLeg → JobState → DriveAction → Text → Act DriveResult
  none_left_as job legs to action reason = do
    u ← move to reason (detail_of (left_over legs))
    pure (say_of job to action reason (some (map to_report legs)) (some (left_over legs)))

  unfoldable pub none_left : JobRecord → List PreparedLeg → Act DriveResult
  none_left job legs =
      if any (λ (leg : PreparedLeg). is_retryable leg.skip) legs
      then none_left_as job legs JobState.watching DriveAction.rearmed (codes "NO_LEG_QUALIFIED")
      else none_left_as job legs JobState.failed DriveAction.ended (codes "NO_LEG_CAN_QUALIFY")

  unfoldable pub unknown : JobRecord → JobState → Text → Entries → Act DriveResult
  unknown job from reason detail = do
    u ← move JobState.unknown_pending reason (detail_of detail)
    pure
        (record (say_detail job JobState.unknown_pending DriveAction.unknown_pending reason
          detail) { from = from })

  unfoldable pub reconcile : Act ReconcileResult
  reconcile = timed (λ m.
      reconcile_job (record { lease = o.lease; at = o.at; gateway = o.outside.get_execution m }))

  -- `reconcilePass` without the job: a replayable answer is only reported.
  unfoldable pub reconcile_plain : JobState → Act DriveResult
  reconcile_plain from = do result ← reconcile; pure (reconciled_as from result)

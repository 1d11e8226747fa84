-- ===== src/Runner/Reconciler/Pass.antt =====
-- packages/runner/src/reconciler.ts: `reconcileJob`, one pass over one leg. The gateway is a
-- parameter; a read that it answers with an error is one that throws.
use waterx_predict_agent.Base.{
  ℕ, ◌==◌, if◌then◌else◌, Bool, true, false, not, ◌||◌, Option, none, some, List, [], ◌∷◌, ◌++◌,
  any, find, Text, codes,
}
use waterx_predict_agent.Runner.StateMachine.{JobState, state_eq}
use waterx_predict_agent.Runner.Secrets.{Json}
use waterx_predict_agent.Runner.Detail.{detail_of, items, fields, word, number, truth}
use waterx_predict_agent.Runner.Job.{JobRecord, JobLeg, JobLegStatus, JobLease, SideEffectAttempt}
use waterx_predict_agent.Runner.Store.Db.{Result, StoreError}
use waterx_predict_agent.Runner.Store.Jobs.{TransitionInput, transition, get_job}
use waterx_predict_agent.Runner.Store.Legs.{LegPatch, list_legs, update_leg}
use waterx_predict_agent.Runner.Store.Effects.{
  complete_side_effect, list_open_side_effects, list_side_effects,
}
use waterx_predict_agent.Runner.Store.Prog.{Prog, call, read, pure, throw, ◌>>=◌, ◌>>◌}
use waterx_predict_agent.Runner.Reconciler.{
  ExecutionStatus, TerminalStatus, terminal_status, ExecutionRead, ReconcileDisposition,
  ReconcileResult, Move, never_sent, conclude, stuck, ask, next_move, is_resolved, leg_terminal,
  submission_observed, attempt_outcome, observed, is_empty_patch, conclusion,
}

abbrev pub status_text : ExecutionStatus → Text
status_text ExecutionStatus.received = codes "RECEIVED"
status_text ExecutionStatus.risk_reserved = codes "RISK_RESERVED"
status_text ExecutionStatus.awaiting_signature = codes "AWAITING_SIGNATURE"
status_text ExecutionStatus.submitting = codes "SUBMITTING"
status_text ExecutionStatus.submitted = codes "SUBMITTED"
status_text ExecutionStatus.pending_fill = codes "PENDING_FILL"
status_text ExecutionStatus.filled = codes "FILLED"
status_text ExecutionStatus.rejected = codes "REJECTED"
status_text ExecutionStatus.cancelled = codes "CANCELLED"
status_text ExecutionStatus.expired = codes "EXPIRED"

abbrev verdict_text : TerminalStatus → Text
verdict_text TerminalStatus.filled = codes "FILLED"
verdict_text TerminalStatus.rejected = codes "REJECTED"
verdict_text TerminalStatus.cancelled = codes "CANCELLED"
verdict_text TerminalStatus.expired = codes "EXPIRED"

abbrev leg_status_text : JobLegStatus → Text
leg_status_text JobLegStatus.pending = codes "PENDING"
leg_status_text JobLegStatus.succeeded = codes "SUCCEEDED"
leg_status_text JobLegStatus.failed = codes "FAILED"
leg_status_text JobLegStatus.skipped = codes "SKIPPED"
leg_status_text JobLegStatus.unknown = codes "UNKNOWN"

abbrev conclusion_reason : Option TerminalStatus → Text
conclusion_reason none = codes "ALL_LEGS_RESOLVED"
conclusion_reason (some v) = codes "EXECUTION_" ++ verdict_text v

abbrev leg_entries : List JobLeg → List Json
leg_entries [] = []
leg_entries (l ∷ ls) =
    Json.object (
      fields (
        (codes "legIndex", number l.leg_index)
        ∷ (codes "status", word (leg_status_text l.status))
        ∷ []))
    ∷ leg_entries ls

abbrev last_status : Option TerminalStatus → List (Text × Json)
last_status none = []
last_status (some v) = (codes "lastExecutionStatus", word (verdict_text v)) ∷ []

abbrev kept_keys : List JobLeg → List Json
kept_keys [] = []
kept_keys (l ∷ ls) = number l.leg_index ∷ kept_keys ls

abbrev open_id : Option SideEffectAttempt → List (Text × Json)
open_id none = []
open_id (some a) = (codes "openAttemptId", number a.attempt_id) ∷ []

-- What every write of a pass carries, and the one call that it makes to the server.
pub record ReconcileJobOptions : Type 0 where
  pub lease : JobLease
  pub at : ℕ
  pub gateway : ℕ → Result ExecutionRead

abbrev pub move_to : ReconcileJobOptions → JobState → Text → Option Json → TransitionInput
move_to o to reason detail = record {
  lease = o.lease;
  to = to;
  reason = reason;
  at = o.at;
  detail = detail;
}

abbrev pub result_of :
    ReconcileJobOptions
    → JobState
    → JobState
    → ReconcileDisposition
    → Text
    → Option ℕ
    → ReconcileResult
result_of o from to disposition reason leg = record {
  job_id = o.lease.job_id;
  from = from;
  to = to;
  disposition = disposition;
  reason = reason;
  leg_index = leg;
  execution_id = none;
  status = none;
}

abbrev about_read : ℕ → ExecutionRead → ReconcileResult → ReconcileResult
about_read e r result = record result { execution_id = some e; status = some r.status }

unfoldable pub conclude_job :
    ReconcileJobOptions
    → JobState
    → List JobLeg
    → Option TerminalStatus
    → Option ℕ
    → Prog ReconcileResult
conclude_job o from legs verdict leg = do
  row ← call (
      transition (
        move_to o (conclusion legs verdict) (conclusion_reason verdict) (
          detail_of ((codes "legs", Json.array (items (leg_entries legs))) ∷ last_status verdict))))
  pure (result_of o from row.state ReconcileDisposition.terminal (conclusion_reason verdict) leg)

unfoldable pub never_sent_answer :
    ReconcileJobOptions → JobState → List JobLeg → ℕ → Bool → Prog ReconcileResult
never_sent_answer o from legs i true = pure (
    result_of o from JobState.reconciling ReconcileDisposition.replayable (codes "NEVER_SENT")
      (some i))
never_sent_answer o from legs i false = do
  row ← call (
      transition (
        move_to o JobState.watching (codes "NOTHING_WAS_SENT")
          (detail_of ((codes "keptKeys", Json.array (items (kept_keys legs))) ∷ []))))
  pure (
      result_of o from JobState.watching ReconcileDisposition.rearmed (codes "NOTHING_WAS_SENT")
        (some i))

unfoldable pub retreat :
    ReconcileJobOptions → JobState → ℕ → Option SideEffectAttempt → Prog ReconcileResult
retreat o from i opened = do
  row ← call (
      transition (
        move_to o JobState.unknown_pending (codes "RECONCILE_INCONCLUSIVE") (
          detail_of (
            (codes "legIndex", number i)
            ∷ (codes "missing", word (codes "EXECUTION_ID"))
            ∷ (
              codes "needs",
              word (codes "A read from Idempotency-Key to an execution. The API exposes none."),
            )
            ∷ open_id opened))))
  pure (
      result_of o from JobState.unknown_pending ReconcileDisposition.inconclusive
        (codes "NO_EXECUTION_ID") (some i))

unfoldable pub apply_leg :
    ReconcileJobOptions → ℕ → Option SideEffectAttempt → ExecutionRead → LegPatch → Prog (Unit {0})
apply_leg o i (some opened) r patch = do
  row ← call (
      complete_side_effect (record {
        lease = o.lease;
        attempt_id = opened.attempt_id;
        outcome = attempt_outcome opened r;
        at = o.at;
        detail = detail_of (
            (codes "resolvedBy", word (codes "RECONCILE"))
            ∷ (codes "executionId", number r.execution_id)
            ∷ (codes "observedStatus", word (status_text r.status))
            ∷ (codes "submissionObserved", truth (submission_observed r))
            ∷ []);
        leg = some patch;
      }))
  pure tt
apply_leg o i none r patch =
    if is_empty_patch patch
    then pure tt
    else call (update_leg o.lease i patch o.at) >>= λ row. pure tt

unfoldable pub after_read :
    ReconcileJobOptions
    → JobState
    → ℕ
    → ℕ
    → Option SideEffectAttempt
    → ExecutionRead
    → Option TerminalStatus
    → Prog ReconcileResult
after_read o from i e opened r none = do
  apply_leg o i opened r (observed r none)
  pure (
      about_read e r (
        result_of o from JobState.reconciling ReconcileDisposition.still_pending
          (codes "EXECUTION_NOT_TERMINAL") (some i)))
after_read o from i e opened r (some verdict) = do
  apply_leg o i opened r (observed r (some (leg_terminal verdict)))
  legs ← read (list_legs o.lease.job_id)
  (if any (λ l. not (is_resolved l)) legs
      then pure (
          about_read e r (
            result_of o from JobState.reconciling ReconcileDisposition.leg_resolved
              (codes "EXECUTION_" ++ status_text r.status) (some i)))
      else conclude_job o from legs (some verdict) (some i) >>= λ concluded.
          pure (about_read e r concluded))

-- `await gateway.getExecution(…)`.
abbrev pub ask_gateway : ReconcileJobOptions → ℕ → Prog ExecutionRead
ask_gateway o e db = (o.gateway e, db)

abbrev open_on : ℕ → List SideEffectAttempt → Option SideEffectAttempt
open_on i attempts = find (λ a. a.leg_index == i) attempts

unfoldable pub make_move :
    ReconcileJobOptions
    → JobState
    → List JobLeg
    → List SideEffectAttempt
    → Move
    → Prog ReconcileResult
make_move o from legs opens (never_sent i under_way) = never_sent_answer o from legs i under_way
make_move o from legs opens conclude = conclude_job o from legs none none
make_move o from legs opens (stuck i) = retreat o from i (open_on i opens)
make_move o from legs opens (ask i e) = do
  r ← ask_gateway o e
  after_read o from i e (open_on i opens) r (terminal_status r.status)

-- The job says RECONCILING before anything is read.
unfoldable pub start : ReconcileJobOptions → JobState → Prog (Unit {0})
start o from =
    if state_eq from JobState.unknown_pending
    then (call (transition (move_to o JobState.reconciling (codes "RECONCILE_STARTED") none))
        >>= λ row. pure tt)
    else pure tt

unfoldable pub reconcile_from : ReconcileJobOptions → JobState → Prog ReconcileResult
reconcile_from o from = do
  start o from
  legs ← read (list_legs o.lease.job_id)
  attempts ← read (list_side_effects o.lease.job_id)
  opens ← read (list_open_side_effects (some o.lease.job_id))
  make_move o from legs opens (next_move legs attempts)

unfoldable pub reconcile_known : ReconcileJobOptions → Option JobRecord → Prog ReconcileResult
reconcile_known o none = throw StoreError.unknown_job
reconcile_known o (some job) =
    if state_eq job.state JobState.unknown_pending || state_eq job.state JobState.reconciling
    then reconcile_from o job.state
    else pure (
        result_of o job.state job.state ReconcileDisposition.not_applicable
          (codes "NOT_RECONCILABLE") none)

unfoldable pub reconcile_job : ReconcileJobOptions → Prog ReconcileResult
reconcile_job o = do job ← read (get_job o.lease.job_id); reconcile_known o job

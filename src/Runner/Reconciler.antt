-- ===== src/Runner/Reconciler.antt =====
-- packages/runner/src/reconciler.ts: the decisions of a reconcile pass, before anything is written.
pub mod Pass
pub mod Verdict
pub mod Passed
pub mod Report
use waterx_predict_agent.Base.{
  ℕ, ◌==◌, if◌then◌else◌, or_else, Bool, true, false, not, ◌&&◌, ◌||◌, Option, none, some, List, [],
  ◌∷◌, is_some, is_none, any, find, select, Text, codes,
}
use waterx_predict_agent.Runner.StateMachine.{JobState}
use waterx_predict_agent.Runner.Job.{
  JobLeg, JobLegStatus, SideEffectAttempt, SideEffectKind, SideEffectOutcome, kind_eq,
}
use waterx_predict_agent.Runner.Store.Legs.{LegPatch}

pub data ExecutionStatus : Type 0 where
  received risk_reserved awaiting_signature submitting submitted pending_fill filled rejected
        cancelled expired :
      ExecutionStatus

pub data TerminalStatus : Type 0 where
  filled rejected cancelled expired : TerminalStatus

-- `isTerminalExecutionStatus`, with the status that its type guard narrows to.
abbrev pub terminal_status : ExecutionStatus → Option TerminalStatus
terminal_status ExecutionStatus.filled = some TerminalStatus.filled
terminal_status ExecutionStatus.rejected = some TerminalStatus.rejected
terminal_status ExecutionStatus.cancelled = some TerminalStatus.cancelled
terminal_status ExecutionStatus.expired = some TerminalStatus.expired
terminal_status _ = none

-- What the module reads of a `SubmitExecutionResponseBody`.
pub record ExecutionRead : Type 0 where
  pub execution_id : ℕ
  pub status : ExecutionStatus
  pub transaction_digest : Option ℕ
  pub fill_digest : Option ℕ

pub data ReconcileDisposition : Type 0 where
  terminal leg_resolved still_pending inconclusive replayable rearmed not_applicable :
      ReconcileDisposition

abbrev pub job_terminal : TerminalStatus → JobState
job_terminal TerminalStatus.filled = JobState.filled
job_terminal TerminalStatus.rejected = JobState.failed
job_terminal TerminalStatus.cancelled = JobState.cancelled
job_terminal TerminalStatus.expired = JobState.expired

abbrev pub leg_terminal : TerminalStatus → JobLegStatus
leg_terminal TerminalStatus.filled = JobLegStatus.succeeded
leg_terminal _ = JobLegStatus.failed

abbrev pub has_succeeded : JobLeg → Bool
has_succeeded l = elim l.status [ JobLegStatus.succeeded ↦ true | _ ↦ false ]

abbrev pub is_resolved : JobLeg → Bool
is_resolved l = elim l.status [
  | JobLegStatus.succeeded ↦ true
  | JobLegStatus.failed ↦ true
  | JobLegStatus.skipped ↦ true
  | _ ↦ false
]

abbrev pub unresolved : List JobLeg → List JobLeg
unresolved legs = select (λ l. not (is_resolved l)) legs

abbrev pub was_attempted : List SideEffectAttempt → JobLeg → Bool
was_attempted attempts l = any (λ a. a.leg_index == l.leg_index) attempts

abbrev pub is_unsent : List SideEffectAttempt → JobLeg → Bool
is_unsent attempts l = is_none l.execution_id && not (was_attempted attempts l)

abbrev pub is_empty : List SideEffectAttempt → Bool
is_empty [] = true
is_empty (a ∷ rest) = false

-- A request for some leg of the job did leave the process.
abbrev pub is_under_way : List SideEffectAttempt → List JobLeg → Bool
is_under_way attempts legs = not (is_empty attempts) || any (λ l. is_some l.execution_id) legs

abbrev pub first : List JobLeg → Option JobLeg
first [] = none
first (l ∷ rest) = some l

-- What a pass does next: `never_sent` and the index of the leg, with whether the run is under way;
-- `conclude`; `stuck` on a leg without an execution; `ask` about a leg's execution.
pub data Move : Type 0 where
  never_sent : ℕ → Bool → Move
  conclude : Move
  stuck : ℕ → Move
  ask : ℕ → ℕ → Move

abbrev pub about : Option JobLeg → Move
about none = conclude
about (some l) = elim l.execution_id [ none ↦ stuck l.leg_index | some e ↦ ask l.leg_index e ]

abbrev pub unless_unsent : Option JobLeg → List JobLeg → List SideEffectAttempt → Move
unless_unsent (some l) legs attempts = never_sent l.leg_index (is_under_way attempts legs)
unless_unsent none legs attempts =
    about (or_else (find (λ l. is_some l.execution_id) (unresolved legs)) (first (unresolved legs)))

unfoldable pub next_move : List JobLeg → List SideEffectAttempt → Move
next_move legs attempts = unless_unsent (find (is_unsent attempts) (unresolved legs)) legs attempts

unfoldable pub submission_observed : ExecutionRead → Bool
submission_observed r = is_some r.transaction_digest || elim r.status [
  | ExecutionStatus.submitting ↦ true
  | ExecutionStatus.submitted ↦ true
  | ExecutionStatus.pending_fill ↦ true
  | ExecutionStatus.filled ↦ true
  | _ ↦ false
]

unfoldable pub attempt_outcome : SideEffectAttempt → ExecutionRead → SideEffectOutcome
attempt_outcome attempt r =
    if kind_eq attempt.kind SideEffectKind.submit_execution && not (submission_observed r)
    then SideEffectOutcome.failed
    else SideEffectOutcome.succeeded

-- The columns that a read establishes.
abbrev pub observed : ExecutionRead → Option JobLegStatus → LegPatch
observed r status = record {
  status = status;
  reference_quote_id = none;
  submission_quote_id = none;
  quoted_at = none;
  execution_id = none;
  submission_digest = r.transaction_digest;
  keeper_digest = r.fill_digest;
}

-- `Object.keys(patch).length === 0`.
abbrev pub is_empty_patch : LegPatch → Bool
is_empty_patch p = is_none p.status && (is_none p.submission_digest && is_none p.keeper_digest)

abbrev verdict_state : Option TerminalStatus → JobState
verdict_state none = JobState.failed
verdict_state (some v) = job_terminal v

-- The state that `concludeJob` gives the job.
unfoldable pub conclusion : List JobLeg → Option TerminalStatus → JobState
conclusion legs verdict = if any has_succeeded legs then JobState.filled else verdict_state verdict

pub record ReconcileResult : Type 0 where
  pub job_id : ℕ
  pub from : JobState
  pub to : JobState
  pub disposition : ReconcileDisposition
  pub reason : Text
  pub leg_index : Option ℕ
  pub execution_id : Option ℕ
  pub status : Option ExecutionStatus

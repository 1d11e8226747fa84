-- ===== src/Runner/Recovery.antt =====
-- packages/runner/src/recovery.ts: what a Runner that starts makes of each job that it finds.
pub mod Decision
pub mod Recovered
use waterx_predict_agent.Runner.Detail.{detail_of, number, word}
use waterx_predict_agent.Base.{
  ℕ, ◌-◌, ◌==◌, ltb, leb, if◌then◌else◌, Bool, true, false, not, ◌&&◌, ◌||◌, Option, none, some,
  List, [], ◌∷◌, is_some, is_none, any, find, select, Text, codes,
}
use waterx_predict_agent.Runner.StateMachine.{
  JobState, job_states, state_eq, non_terminal_job_states, is_terminal_job_state,
}
use waterx_predict_agent.Runner.Job.{
  RunnerInstance, JobRecord, JobLeg, JobLease, SideEffectAttempt, SideEffectOutcome,
}
use waterx_predict_agent.Runner.Store.Db.{Db, Result, ok, err, StoreError}
use waterx_predict_agent.Runner.Store.Instances.{list_instances}
use waterx_predict_agent.Runner.Store.Jobs.{TransitionInput, transition, JobFilter, list_jobs}
use waterx_predict_agent.Runner.Store.Leases.{ClaimJobInput, claim_job}
use waterx_predict_agent.Runner.Store.Legs.{list_legs}
use waterx_predict_agent.Runner.Store.Effects.{list_open_side_effects, list_side_effects}
use waterx_predict_agent.Runner.Store.Prog.{Prog, call, read, pure, catch, ◌>>=◌}

pub data RecoveryDisposition : Type 0 where
  unknown_pending reconcile rearmed resumed expired cancelled held_elsewhere unresolved :
      RecoveryDisposition

abbrev disposition_text : RecoveryDisposition → Text
disposition_text unknown_pending = codes "UNKNOWN_PENDING"
disposition_text reconcile = codes "RECONCILE"
disposition_text rearmed = codes "REARMED"
disposition_text resumed = codes "RESUMED"
disposition_text expired = codes "EXPIRED"
disposition_text cancelled = codes "CANCELLED"
disposition_text held_elsewhere = codes "HELD_ELSEWHERE"
disposition_text unresolved = codes "UNRESOLVED"

pub record Facts : Type 0 where
  pub state : JobState
  pub has_open_attempt : Bool
  pub has_abandoned_attempt : Bool
  pub has_execution : Bool
  pub cancel_requested : Bool
  pub expired : Bool

pub record Plan : Type 0 where
  pub to : JobState
  pub disposition : RecoveryDisposition
  pub reason : Text

abbrev plan : JobState → RecoveryDisposition → Text → Plan
plan to disposition reason = record { to = to; disposition = disposition; reason = reason }

unfoldable pub classify : Facts → Plan
classify f =
    if f.has_open_attempt
    then plan JobState.unknown_pending unknown_pending (codes "CRASH_DURING_SIDE_EFFECT")
    else if state_eq f.state JobState.unknown_pending
    then plan JobState.reconciling reconcile (codes "RESOLVE_UNKNOWN_PENDING")
    else if f.has_execution
    then plan JobState.reconciling reconcile (codes "EXECUTION_EXISTS")
    else if (job_states f.state).in_flight || f.has_abandoned_attempt
    then plan JobState.unknown_pending unknown_pending (codes "IN_FLIGHT_WITHOUT_EXECUTION")
    else if f.cancel_requested
    then plan JobState.cancelled cancelled (codes "CANCEL_REQUESTED")
    else if f.expired
    then plan JobState.expired expired (codes "EXPIRES_AT_PASSED")
    else if state_eq f.state JobState.triggered || state_eq f.state JobState.quoting
    then plan JobState.watching rearmed (codes "NOTHING_WAS_SENT")
    else plan f.state resumed (codes "RESUMED")

pub record RecoveredJob : Type 0 where
  pub job_id : ℕ
  pub from : JobState
  pub to : JobState
  pub disposition : RecoveryDisposition
  pub lease : Option JobLease
  pub open_attempt_id : Option ℕ
  pub execution_id : Option ℕ
  pub error : Option StoreError

pub record RecoveryOptions : Type 0 where
  pub instance_id : ℕ
  pub at : ℕ
  pub lease_ttl_ms : ℕ
  pub stale_after_ms : ℕ

pub record RecoveryReport : Type 0 where
  pub instance_id : ℕ
  pub at : ℕ
  pub jobs : List RecoveredJob
  pub stale_instances : List RunnerInstance

abbrev is_abandoned : Option SideEffectOutcome → Bool
is_abandoned (some SideEffectOutcome.abandoned) = true
is_abandoned _ = false

abbrev first : List SideEffectAttempt → Option SideEffectAttempt
first [] = none
first (a ∷ rest) = some a

abbrev attempt_id_of : Option SideEffectAttempt → Option ℕ
attempt_id_of none = none
attempt_id_of (some a) = some a.attempt_id

abbrev execution_of : Option JobLeg → Option ℕ
execution_of none = none
execution_of (some l) = l.execution_id

-- What the ledger says of one job: its open attempt, the execution on disk, the facts.
pub record Evidence : Type 0 where
  pub open_attempt : Option SideEffectAttempt
  pub with_execution : Option JobLeg
  pub facts : Facts

unfoldable pub evidence : ℕ → JobRecord → Db → Evidence
evidence at candidate db =
    let open_attempt = first (list_open_side_effects (some candidate.job_id) db) in
    let with_execution = find (λ l. is_some l.execution_id) (list_legs candidate.job_id db) in
    record {
      open_attempt = open_attempt;
      with_execution = with_execution;
      facts = record {
        state = candidate.state;
        has_open_attempt = is_some open_attempt;
        has_abandoned_attempt =
            any (λ a. is_abandoned a.outcome) (list_side_effects candidate.job_id db);
        has_execution = is_some with_execution;
        cancel_requested = is_some candidate.cancel_requested_at;
        expired = leb candidate.expires_at at;
      };
    }

abbrev report_of :
    JobRecord → JobState → RecoveryDisposition → Option JobLease → Evidence → RecoveredJob
report_of candidate to disposition lease seen = record {
  job_id = candidate.job_id;
  from = candidate.state;
  to = to;
  disposition = disposition;
  lease = lease;
  open_attempt_id = attempt_id_of seen.open_attempt;
  execution_id = execution_of seen.with_execution;
  error = none;
}

abbrev without_evidence :
    JobRecord → RecoveryDisposition → Option JobLease → Option StoreError → RecoveredJob
without_evidence candidate disposition lease error = record {
  job_id = candidate.job_id;
  from = candidate.state;
  to = candidate.state;
  disposition = disposition;
  lease = lease;
  open_attempt_id = none;
  execution_id = none;
  error = error;
}

abbrev pub recovery_move : RecoveryOptions → JobLease → Plan → TransitionInput
recovery_move options lease p = record {
  lease = lease;
  to = p.to;
  reason = p.reason;
  at = options.at;
  detail = detail_of (
      (codes "recoveredBy", number options.instance_id)
      ∷ (codes "disposition", word (disposition_text p.disposition))
      ∷ []);
}

unfoldable pub carry_out :
    RecoveryOptions → JobRecord → JobLease → Evidence → Plan → Prog RecoveredJob
carry_out options candidate lease seen p =
    if state_eq p.to candidate.state
    then pure (report_of candidate candidate.state p.disposition (some lease) seen)
    else catch
        (call (transition (recovery_move options lease p)) >>= λ row. pure (
          report_of candidate p.to p.disposition
            (if is_terminal_job_state p.to then none else some lease) seen))
        (λ x. pure (without_evidence candidate unresolved (some lease) (some x)))

unfoldable pub recover_claimed : RecoveryOptions → JobRecord → Option JobLease → Prog RecoveredJob
recover_claimed options candidate none = pure (without_evidence candidate held_elsewhere none none)
recover_claimed options candidate (some lease) = do
  seen ← read (evidence options.at candidate)
  carry_out options candidate lease seen (classify seen.facts)

-- One round of the loop in `recoverJobs`.
unfoldable pub recover_job : RecoveryOptions → JobRecord → Prog RecoveredJob
recover_job options candidate = do
  lease ← call (
      claim_job (record {
        job_id = candidate.job_id;
        instance_id = options.instance_id;
        at = options.at;
        lease_ttl_ms = options.lease_ttl_ms;
      }))
  recover_claimed options candidate lease

unfoldable pub recover_each : RecoveryOptions → List JobRecord → Prog (List RecoveredJob)
recover_each options [] = pure []
recover_each options (c ∷ cs) = do
  recovered ← recover_job options c
  rest ← recover_each options cs
  pure (recovered ∷ rest)

-- Silent for longer than `staleAfterMs`, not stopped, and not this instance.
abbrev is_stale : RecoveryOptions → RunnerInstance → Bool
is_stale options i =
    (not (i.instance_id == options.instance_id) && is_none i.stopped_at)
    && ltb options.stale_after_ms (options.at - i.heartbeat_at)

unfoldable pub recover_jobs : RecoveryOptions → Prog RecoveryReport
recover_jobs options = do
  stale ← read (λ db. select (is_stale options) (list_instances db))
  candidates ← read (
      list_jobs (record {
        states = some non_terminal_job_states;
        account_id = none;
        strategy_id = none;
        unleased_at = none;
      }))
  jobs ← recover_each options candidates
  pure (record {
    instance_id = options.instance_id;
    at = options.at;
    jobs = jobs;
    stale_instances = stale;
  })

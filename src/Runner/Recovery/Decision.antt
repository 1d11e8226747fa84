-- ===== src/Runner/Recovery/Decision.antt =====
-- The decision table of packages/runner/src/recovery.ts: only evidence ends a job.
use waterx_predict_agent.Base.{Bool, true, false, ◌||◌, ◌≡◌, ◌⊎◌, arith}
use waterx_predict_agent.Runner.StateMachine.{
  can_transition, is_in_flight_job_state, is_terminal_job_state,
}
use waterx_predict_agent.Runner.Recovery.{Facts, classify}

-- A request may have left the process for this job.
abbrev pub may_have_sent : Facts → Bool
may_have_sent f =
    (f.has_open_attempt || f.has_abandoned_attempt)
    || (f.has_execution || is_in_flight_job_state f.state)

-- The state that recovery plans is an in-flight one exactly when something may have been sent.
pub classify-in_flight : (f : Facts) → is_in_flight_job_state (classify f).to ≡ may_have_sent f
unfolding classify is_in_flight_job_state
classify-in_flight f = ground arith

-- For a job that is not over and whose evidence is that of an in-flight state, the plan is to leave
-- the job where it is or to take an edge of the state machine.
pub classify-can_transition :
    (f : Facts)
    → is_terminal_job_state f.state ≡ false
    → may_have_sent f ≡ is_in_flight_job_state f.state
    → ((classify f).to ≡ f.state) ⊎ (can_transition f.state (classify f).to ≡ true)
unfolding classify is_in_flight_job_state can_transition is_terminal_job_state
classify-can_transition f live h = ground arith

-- ===== src/Witnesses/CancelRun.antt =====
-- One cancellation, run: the job is watching under a lease of this Runner.
use waterx_predict_agent.Runner.Store
use waterx_predict_agent.Runner.Secrets.{assert_no_secrets, is_forbidden}
use waterx_predict_agent.Base.{refl, some, none, true, [], ◌∷◌, codes}
use waterx_predict_agent.Runner.StateMachine.{
  JobState, can_transition, is_terminal_job_state, can_end_locally,
}
use waterx_predict_agent.Runner.Store.Jobs.{request_cancel, transition}
use waterx_predict_agent.Runner.Store.Db.{append_transition, assert_lease, encode_detail}
use waterx_predict_agent.Runner.Store.Prog.{call, pure}
use waterx_predict_agent.Runner.Strategy.Cancel.{
  CancelContext, StrategyCancelResult, cancel_strategy, apply_cancel,
}
use waterx_predict_agent.Runner.Strategy.Cancel.Answer.{IsTrue, cancel_strategy-IsTrue}
use waterx_predict_agent.Witnesses.Data.{lease_of_1, held_by_1, with_job}

abbrev context : CancelContext
context = record { at = 60; leases = lease_of_1 ∷ []; via = some (codes "ipc") }

abbrev answer : StrategyCancelResult
answer = record {
  job_id = 7;
  state = JobState.cancelled;
  recorded = true;
  applied = true;
  pending = none;
  cancel_requested_at = some 60;
  terminal_at = some 60;
}

cancel_strategy-IsTrue_example :
    IsTrue 7
      (held_by_1 JobState.watching)
      (answer, [])
      (cancel_strategy context 7 (codes "stop") (with_job JobState.watching)).1
unfolding assert_no_secrets is_forbidden cancel_strategy apply_cancel request_cancel transition
    append_transition assert_lease encode_detail can_transition is_terminal_job_state
    can_end_locally call pure Store.Db.◌>>=◌ Store.Prog.◌>>=◌
cancel_strategy-IsTrue_example =
    cancel_strategy-IsTrue context 7 (codes "stop") (with_job JobState.watching)
      (held_by_1 JobState.watching) answer [] refl refl

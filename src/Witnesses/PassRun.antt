-- ===== src/Witnesses/PassRun.antt =====
-- One reconcile pass, run: the execution is there and its keeper has not answered.
use waterx_predict_agent.Runner.Store
use waterx_predict_agent.Runner.Store.Db.{append_transition, assert_lease, encode_detail}
use waterx_predict_agent.Base.{refl, some, codes}
use waterx_predict_agent.Runner.StateMachine.{JobState, can_transition, is_terminal_job_state}
use waterx_predict_agent.Runner.Store.Gives.{Stands}
use waterx_predict_agent.Runner.Store.Jobs.{get_job, transition}
use waterx_predict_agent.Runner.Store.Legs.{list_legs, update_leg, patch_leg}
use waterx_predict_agent.Runner.Store.Effects.{list_side_effects, list_open_side_effects}
use waterx_predict_agent.Runner.Store.Prog.{read, call, pure}
use waterx_predict_agent.Runner.Reconciler.{
  ReconcileResult, ReconcileDisposition, ExecutionStatus, next_move,
}
use waterx_predict_agent.Runner.Reconciler.Pass.{
  reconcile_job, reconcile_known, reconcile_from, start, make_move, after_read, apply_leg,
}
use waterx_predict_agent.Runner.Reconciler.Report.{reconcile_job-Stands}
use waterx_predict_agent.Witnesses.LedgerRuns.{pass, with_placed}

abbrev report : ReconcileResult
report = record {
  job_id = 7;
  from = JobState.unknown_pending;
  to = JobState.reconciling;
  disposition = ReconcileDisposition.still_pending;
  reason = codes "EXECUTION_NOT_TERMINAL";
  leg_index = some 0;
  execution_id = some 77;
  status = some ExecutionStatus.pending_fill;
}

reconcile_job-Stands_example : Stands 7 JobState.reconciling (reconcile_job pass with_placed).1
unfolding reconcile_job reconcile_known reconcile_from start make_move after_read apply_leg get_job
    list_legs list_side_effects list_open_side_effects transition append_transition update_leg
    patch_leg next_move read call pure can_transition is_terminal_job_state assert_lease
    encode_detail Store.Db.◌>>=◌ Store.Prog.◌>>=◌
reconcile_job-Stands_example = reconcile_job-Stands pass with_placed report refl

-- ===== src/Witnesses/TickRun.antt =====
-- One tick of the scheduler, run: a job that nobody holds is claimed, is found to have expired, and
-- its lease is given back.
use waterx_predict_agent.Runner.Store
use waterx_predict_agent.Runner.Strategy.World
use waterx_predict_agent.Base.{◌≤◌, max, length, All, refl, none, true, [], ◌∷◌, codes}
use waterx_predict_agent.Runner.Secrets.{assert_no_secrets, is_forbidden}
use waterx_predict_agent.Runner.StateMachine.{
  JobState, can_transition, is_terminal_job_state, can_end_locally,
}
use waterx_predict_agent.Runner.Store.Db.{
  Db, append_transition, assert_lease, encode_detail, empty_db,
}
use waterx_predict_agent.Runner.Store.Jobs.{get_job, list_jobs, matches, transition}
use waterx_predict_agent.Runner.Store.Leases.{claim_job}
use waterx_predict_agent.Runner.Job.{JobLease}
use waterx_predict_agent.Runner.Store.Invariant.{IsLedger}
use waterx_predict_agent.Runner.Strategy.World.{World}
use waterx_predict_agent.Runner.Strategy.World.Ran.{IsAccounted}
use waterx_predict_agent.Runner.Strategy.Driver.{DriveAction, say}
use waterx_predict_agent.Runner.Strategy.Driver.Pass.{drive_job, drive_known, check_locally}
use waterx_predict_agent.Runner.Strategy.Driver.Endings.{end_locally, end_from, move}
use waterx_predict_agent.Runner.Strategy.Driver.Accounts.{IsOneOrder}
use waterx_predict_agent.Runner.Scheduler.{
  JobSchedulerOptions, SchedulerTickReport, claim_one, claim_each, claim, pass, pass_each, run_tick,
}
use waterx_predict_agent.Runner.Scheduler.Ticks.{run_tick-bound, run_tick-IsOneOrder}
use waterx_predict_agent.Witnesses.Data.{held_by_1, runner}
use waterx_predict_agent.Witnesses.DriveRun.{outside}

abbrev options : JobSchedulerOptions
options = record {
  instance_id = 1;
  driver = outside;
  now = λ m. 1000;
  admit = λ m. true;
  lease_ttl_ms = 100;
  max_jobs = 1;
}

abbrev unheld : World
unheld = record {
  db = record empty_db {
    instances = runner 1 ∷ [];
    jobs =
        record (held_by_1 JobState.watching) { lease_instance_id = none; lease_expires_at = none }
        ∷ [];
  };
  sent = [];
  moment = 0;
}

unheld-IsLedger : IsLedger unheld.db
unheld-IsLedger = record {
  legs = tt;
  keys = tt;
  executions = tt;
  open_attempts = tt;
  keyed = tt;
  amounts = tt;
}

abbrev report : SchedulerTickReport
report = record {
  at = 1000;
  claimed = 7 ∷ [];
  passes =
      say (held_by_1 JobState.watching) JobState.expired DriveAction.ended (codes "EXPIRY_REACHED")
      ∷ [];
  released = 7 ∷ [];
  failures = [];
  deferred = 0;
  admitting = true;
}

run_tick-bound_example : length {A = JobLease} [] ≤ max 1 (length {A = JobLease} [])
unfolding run_tick claim claim_one claim_each pass pass_each list_jobs matches claim_job drive_job
    drive_known check_locally end_locally end_from move World.store World.lift World.query
    World.pure World.ask World.attempt World.◌>>=◌ Store.Prog.call get_job transition
    append_transition assert_lease encode_detail can_transition is_terminal_job_state
    can_end_locally assert_no_secrets is_forbidden Store.Db.◌>>=◌
run_tick-bound_example = run_tick-bound options [] [] report unheld unheld-IsLedger refl

run_tick-IsOneOrder_example :
    IsAccounted outside (run_tick options [] unheld).1
    × All
        (λ s. All (IsOneOrder s) (run_tick options [] unheld).1.sent)
        (run_tick options [] unheld).1.sent
run_tick-IsOneOrder_example = run_tick-IsOneOrder options [] unheld unheld-IsLedger tt

-- ===== src/Witnesses/OwnershipRun.antt =====
-- A lease on job 7 and an open attempt of job 8, which instance 2 holds.
use waterx_predict_agent.Base.{◌≡◌, refl, some, none, [], ◌∷◌}
use waterx_predict_agent.Runner.StateMachine.{JobState}
use waterx_predict_agent.Runner.Job.{JobRecord, SideEffectAttempt, SideEffectOutcome}
use waterx_predict_agent.Runner.Store.Db.{Db, ok, find_attempt, assert_lease, ◌>>=◌}
use waterx_predict_agent.Runner.Store.Effects.{CompleteSideEffectInput, complete_side_effect}
use waterx_predict_agent.Runner.Store.Ownership.{complete_side_effect-any_job}
use waterx_predict_agent.Witnesses.Data.{lease_of_1, held_by_1, the_attempt, with_job}

abbrev other_job : JobRecord
other_job = record (held_by_1 JobState.creating) {
  job_id = 8;
  lease_instance_id = some 2;
  lease_fence = 4;
}

abbrev other_attempt : SideEffectAttempt
other_attempt = record the_attempt { job_id = 8; instance_id = 2 }

abbrev two_jobs : Db
two_jobs = record (with_job JobState.watching) {
  jobs = other_job ∷ held_by_1 JobState.watching ∷ [];
  effects = other_attempt ∷ [];
}

abbrev foreign : CompleteSideEffectInput
foreign = record {
  lease = lease_of_1;
  attempt_id = 900;
  outcome = SideEffectOutcome.failed;
  at = 70;
  detail = none;
  leg = none;
}

complete_side_effect-any_job_example :
    (row : SideEffectAttempt) × (e : Db) × (complete_side_effect foreign two_jobs ≡ ok (row, e))
    × (find_attempt 900 e ≡ some row)
    × (row.job_id ≡ 8)
    × (row.outcome ≡ some SideEffectOutcome.failed)
unfolding assert_lease ◌>>=◌
complete_side_effect-any_job_example =
    complete_side_effect-any_job foreign two_jobs other_attempt refl refl refl refl refl

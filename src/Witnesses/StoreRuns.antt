-- ===== src/Witnesses/StoreRuns.antt =====
-- The theorems on histories of the store at concrete histories.
use waterx_predict_agent.Base.{some, [], ◌∷◌, ◌≡◌, refl, arith}
use waterx_predict_agent.Runner.StateMachine.{
  JobState, is_in_flight_job_state, is_terminal_job_state,
}
use waterx_predict_agent.Runner.Job.{JobRecord, JobLease}
use waterx_predict_agent.Runner.Store.Db.{Db, ok, empty_db, find_job, assert_lease}
use waterx_predict_agent.Runner.Store.Leases.{claim_job}
use waterx_predict_agent.Runner.Store.Run.{moves, step, run}
use waterx_predict_agent.Runner.Store.Invariant.{IsJobTable, IsLedger}
use waterx_predict_agent.Runner.Store.Invariant.Jobs.{run-IsJobTable}
use waterx_predict_agent.Runner.Store.Invariant.Legs.{run-IsLedger}
use waterx_predict_agent.Runner.Store.Invariant.History.{run-terminal}
use waterx_predict_agent.Runner.Store.Invariant.Passage.{IsPassage, run-in_flight}
use waterx_predict_agent.Runner.Store.Invariant.Fencing.{IsStale, run-stale, claim_job-fences}
use waterx_predict_agent.Witnesses.Data.{
  runner, lease_of_1, held_by_1, claim_by, move, with_job, history, second_claim,
}

-- Job 7 after the claim of instance 2.
abbrev with_later_claim : Db
with_later_claim = record (with_job JobState.creating) {
  jobs =
      record (held_by_1 JobState.creating) {
        lease_instance_id = some 2;
        lease_expires_at = some 300;
        lease_fence = 2;
      }
      ∷ [];
}

abbrev stale_1 : IsStale lease_of_1 with_later_claim
stale_1 = record {
  job = record (held_by_1 JobState.creating) {
    lease_instance_id = some 2;
    lease_expires_at = some 300;
    lease_fence = 2;
  };
  found = refl;
  behind = omega arith;
}

run-stale_example :
    step (run with_later_claim second_claim) (moves (move lease_of_1 JobState.failed 250))
    ≡ run with_later_claim second_claim
run-stale_example =
    run-stale with_later_claim second_claim (moves (move lease_of_1 JobState.failed 250)) lease_of_1
      stale_1 refl

claim_job-fences_example :
    (new : JobLease) × (e : Db) × (claim_job (claim_by 2 200) (with_job JobState.creating)
      ≡ ok (some new, e))
    × (assert_lease new e ≡ ok tt)
    × (new.fence ≡ 2)
    × IsStale lease_of_1 e
unfolding is_terminal_job_state
claim_job-fences_example =
    claim_job-fences (claim_by 2 200) (with_job JobState.creating) (runner 2)
      (held_by_1 JobState.creating) refl refl lease_of_1 refl refl refl (omega arith)

run-IsJobTable_example : IsJobTable (run empty_db history)
run-IsJobTable_example = run-IsJobTable history

run-IsLedger_example : IsLedger (run empty_db history)
run-IsLedger_example = run-IsLedger history

run-in_flight_example :
    IsPassage JobState.creating 7
      (with_job JobState.creating).transitions
      (run (with_job JobState.creating) second_claim)
unfolding is_in_flight_job_state
run-in_flight_example =
    run-in_flight (with_job JobState.creating) second_claim 7 (held_by_1 JobState.creating) refl
      refl

run-terminal_example :
    (k : JobRecord) × (find_job 7 (run (with_job JobState.filled) second_claim) ≡ some k)
    × (k.state ≡ JobState.filled)
unfolding is_terminal_job_state
run-terminal_example =
    run-terminal (with_job JobState.filled) second_claim 7 (held_by_1 JobState.filled) refl refl

-- ===== src/Witnesses/KeeperRun.antt =====
-- One pass of the keeper: one lease that is still good, and one on a job that does not exist.
use waterx_predict_agent.Base.{◌+◌, ◌<◌, ◌≡◌, [], ◌∷◌, List, All, arith}
use waterx_predict_agent.Runner.StateMachine.{JobState}
use waterx_predict_agent.Runner.Job.{JobLease}
use waterx_predict_agent.Runner.Store.Db.{ok}
use waterx_predict_agent.Runner.Supervisor.{LeaseKeeperOptions, Kept, tick}
use waterx_predict_agent.Runner.Supervisor.Fresh.{tick-IsFresh}
use waterx_predict_agent.Witnesses.Data.{lease_of_1, with_job}

abbrev keeper : LeaseKeeperOptions
keeper = record { instance_id = 1; at = 60; lease_ttl_ms = 100; safety_margin_ms = 20 }

abbrev two_leases : List JobLease
two_leases = lease_of_1 ∷ record lease_of_1 { job_id = 9; expires_at = 75 } ∷ []

tick-IsFresh_example :
    (k : Kept) × ((tick keeper two_leases (with_job JobState.watching)).0 ≡ ok k)
    × All (λ l. 60 + 20 < l.expires_at) k.leases
tick-IsFresh_example = tick-IsFresh keeper two_leases (with_job JobState.watching) (omega arith)

-- ===== src/Runner/Recovery/Recovered.antt =====
-- Recovery as a whole, packages/runner/src/recovery.ts over the store.
use waterx_predict_agent.Base.{Option, List, [], ◌∷◌, Bool-cases, inl, inr, none, some}
use waterx_predict_agent.Runner.StateMachine.{state_eq}
use waterx_predict_agent.Runner.Job.{JobRecord, JobLease}
use waterx_predict_agent.Runner.Store.Db.{Db}
use waterx_predict_agent.Runner.Store.Change.{Change}
use waterx_predict_agent.Runner.Store.Change.JobMethods.{claim_job-Makes, transition-Makes}
use waterx_predict_agent.Runner.Store.Prog.Safe.{
  IsSafe, safe_run, call-IsSafe, read-IsSafe, pure-IsSafe, catch-IsSafe, bind-IsSafe,
}
use waterx_predict_agent.Runner.Recovery.{
  RecoveryOptions, Evidence, Plan, recover_claimed, recover_job, recover_each, recover_jobs,
  carry_out,
}

carry_out-IsSafe :
    (options : RecoveryOptions) (candidate : JobRecord) (lease : JobLease) (seen : Evidence)
    (p : Plan)
    → IsSafe (carry_out options candidate lease seen p)
unfolding carry_out
carry_out-IsSafe options candidate lease seen p =
    elim (Bool-cases (state_eq p.to candidate.state)) [
      | inl same ↦ rw same (pure-IsSafe _)
      | inr moves ↦ rw moves (
          catch-IsSafe _ _
            (bind-IsSafe _ _ (call-IsSafe _ (transition-Makes _)) (λ row. pure-IsSafe _))
            (λ x. pure-IsSafe _))
    ]

recover_claimed-IsSafe :
    (options : RecoveryOptions) (candidate : JobRecord) (lease : Option JobLease)
    → IsSafe (recover_claimed options candidate lease)
unfolding recover_claimed
recover_claimed-IsSafe options candidate none = pure-IsSafe _
recover_claimed-IsSafe options candidate (some lease) =
    bind-IsSafe _ _ (read-IsSafe _) (λ seen. carry_out-IsSafe options candidate lease seen _)

recover_each-IsSafe :
    (options : RecoveryOptions) (cs : List JobRecord) → IsSafe (recover_each options cs)
unfolding recover_each recover_job
recover_each-IsSafe options [] = pure-IsSafe _
recover_each-IsSafe options (c ∷ cs) =
    bind-IsSafe _ _
      (bind-IsSafe _ _ (call-IsSafe _ (claim_job-Makes _))
        (λ lease. recover_claimed-IsSafe options c lease))
      (λ job. bind-IsSafe _ _ (recover_each-IsSafe options cs) (λ rest. pure-IsSafe _))

-- Start-up recovery writes by changes of the store alone, also where it ends in an error.
pub recover_jobs-Change :
    (options : RecoveryOptions) (db : Db) → Change db (recover_jobs options db).1
unfolding recover_jobs
recover_jobs-Change options db =
    safe_run
      (bind-IsSafe _ _ (read-IsSafe _) (λ stale. bind-IsSafe _ _ (read-IsSafe _) (λ candidates.
        bind-IsSafe _ _ (recover_each-IsSafe options candidates) (λ jobs. pure-IsSafe _))))
      db

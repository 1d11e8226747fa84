-- ===== src/Runner/Store/Leases.antt =====
-- The lease methods of packages/runner/src/sqlite/store.ts.
use waterx_predict_agent.Base.{
  ℕ, ◌+◌, ◌==◌, ltb, if◌then◌else◌, Bool, false, not, ◌&&◌, Option, none, some, update,
}
use waterx_predict_agent.Runner.StateMachine.{is_terminal_job_state}
use waterx_predict_agent.Runner.Job.{JobRecord, JobLease}
use waterx_predict_agent.Runner.Store.Db.{
  Db, Result, ok, ◌>>=◌, ◌>>◌, is_job, require_instance, require_job, assert_lease,
}

pub record ClaimJobInput : Type 0 where
  pub job_id : ℕ
  pub instance_id : ℕ
  pub at : ℕ
  pub lease_ttl_ms : ℕ

abbrev pub held_by_another : ℕ → Option ℕ → Bool
held_by_another id none = false
held_by_another id (some i) = not (i == id)

abbrev pub still_live : ℕ → Option ℕ → Bool
still_live at none = false
still_live at (some expires) = ltb at expires

abbrev pub claim : ClaimJobInput → JobRecord → Db → Option JobLease × Db
claim input job db = (
  some (record {
    job_id = input.job_id;
    instance_id = input.instance_id;
    fence = job.lease_fence + 1;
    expires_at = input.at + input.lease_ttl_ms;
  }),
  record db {
    jobs =
        update (λ j. is_job input.job_id j && j.lease_fence == job.lease_fence)
          (λ j. record j {
            lease_instance_id = some input.instance_id;
            lease_expires_at = some (input.at + input.lease_ttl_ms);
            lease_fence = job.lease_fence + 1;
            updated_at = input.at;
          })
          db.jobs;
  },
)

-- `none` in the result is `undefined`: the job is over, or another instance's lease is live.
unfoldable pub claim_job : ClaimJobInput → Db → Result (Option JobLease × Db)
claim_job input db = do
  require_instance input.instance_id db
  job ← require_job input.job_id db
  ok (
      if is_terminal_job_state job.state
      then (none, db)
      else if held_by_another input.instance_id job.lease_instance_id
          && still_live input.at job.lease_expires_at
      then (none, db)
      else claim input job db)

unfoldable pub renew_lease : JobLease → ℕ → ℕ → Db → Result (JobLease × Db)
renew_lease lease at ttl_ms db = do
  assert_lease lease db
  ok (
    record lease { expires_at = at + ttl_ms },
    record db {
      jobs =
          update (is_job lease.job_id)
            (λ j. record j { lease_expires_at = some (at + ttl_ms); updated_at = at }) db.jobs;
    },
  )

unfoldable pub release_job : JobLease → ℕ → Db → Result (Unit {0} × Db)
release_job lease at db = do
  assert_lease lease db
  ok (
    tt,
    record db {
      jobs =
          update (is_job lease.job_id)
            (λ j. record j { lease_instance_id = none; lease_expires_at = none; updated_at = at })
            db.jobs;
    },
  )

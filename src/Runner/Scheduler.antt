-- ===== src/Runner/Scheduler.antt =====
-- `JobScheduler` of packages/runner/src/scheduler.ts: one tick. The keeper of supervisor.ts is the list
-- of the leases that it holds; its own timer does not run inside a tick.
pub mod Ticks
use waterx_predict_agent.Base.{
  ℕ, zero, suc, ◌+◌, ◌-◌, ◌==◌, ltb, if◌then◌else◌, Bool, true, false, not, Option, none, some,
  List, [], ◌∷◌, ◌++◌, map, find, select, update, sort_by, is_some, length,
}
use waterx_predict_agent.Runner.StateMachine.{is_terminal_job_state, non_terminal_job_states}
use waterx_predict_agent.Runner.Job.{JobLease, JobRecord}
use waterx_predict_agent.Runner.Store.Db.{Result, ok, err, StoreError}
use waterx_predict_agent.Runner.Store.Jobs.{JobFilter, list_jobs}
use waterx_predict_agent.Runner.Store.Leases.{ClaimJobInput, claim_job}
use waterx_predict_agent.Runner.Supervisor.{is_lease_lost}
use waterx_predict_agent.Runner.Strategy.Cancel.{forget, lease_on}
use waterx_predict_agent.Runner.Strategy.Gateway.{Outside}
use waterx_predict_agent.Runner.Strategy.World.{Act, ask, attempt, pure, query, store, ◌>>=◌, ◌>>◌}
use waterx_predict_agent.Runner.Strategy.Driver.{DriveJobOptions, DriveResult}
use waterx_predict_agent.Runner.Strategy.Driver.Pass.{drive_job}

-- `driver` is the gateway, the signer and the feed; the clock and `admit` may answer differently at
-- each moment. The events are left out.
pub record JobSchedulerOptions : Type 0 where
  pub instance_id : ℕ
  pub driver : Outside
  pub now : ℕ → ℕ
  pub admit : ℕ → Bool
  pub lease_ttl_ms : ℕ
  pub max_jobs : ℕ

pub record SchedulerTickReport : Type 0 where
  pub at : ℕ
  pub claimed : List ℕ
  pub passes : List DriveResult
  pub released : List ℕ
  pub failures : List (ℕ × StoreError)
  pub deferred : ℕ
  pub admitting : Bool

abbrev is_for : ℕ → JobLease → Bool
is_for id l = l.job_id == id

-- `hold`, `isHeld` and `held` of the keeper.
abbrev pub hold : JobLease → List JobLease → List JobLease
hold lease leases =
    if is_some (find (is_for lease.job_id) leases)
    then update (is_for lease.job_id) (λ old. lease) leases
    else leases ++ lease ∷ []

abbrev pub is_held : ℕ → List JobLease → Bool
is_held id leases = is_some (lease_on id leases)

abbrev pub held : List JobLease → List ℕ
held leases = sort_by ltb (map (λ (l : JobLease). l.job_id) leases)

-- The state of the claim loop.
pub record Claiming : Type 0 where
  pub leases : List JobLease
  pub room : ℕ
  pub claimed : List ℕ
  pub deferred : ℕ

abbrev pub after_claim : ℕ → Result (Option JobLease) → Claiming → Claiming
after_claim id (ok (some lease)) c = record c {
  leases = hold lease c.leases;
  room = c.room - 1;
  claimed = c.claimed ++ id ∷ [];
}
after_claim id (ok none) c = c
after_claim id (err x) c = c

abbrev pub defer : Claiming → Claiming
defer c = record c { deferred = c.deferred + 1 }

-- The state of the loop of passes.
pub record Ticking : Type 0 where
  pub leases : List JobLease
  pub passes : List DriveResult
  pub released : List ℕ
  pub failures : List (ℕ × StoreError)

abbrev pub after_pass : ℕ → Result DriveResult → Ticking → Ticking
after_pass id (ok result) t =
    if is_terminal_job_state result.to
    then record t {
      leases = forget id t.leases;
      passes = t.passes ++ result ∷ [];
      released = t.released ++ id ∷ [];
    }
    else record t { passes = t.passes ++ result ∷ [] }
after_pass id (err x) t = record t {
  leases = if is_lease_lost x then forget id t.leases else t.leases;
  failures = t.failures ++ (id, x) ∷ [];
}

abbrev pub idle : List JobLease → Claiming
idle leases = record { leases = leases; room = 0; claimed = []; deferred = 0 }

module _ (o : JobSchedulerOptions) where
  unfoldable pub claim_one : ℕ → JobRecord → Claiming → Act Claiming
  claim_one at job c = do
    answer ← attempt (
        store (
          claim_job (record {
            job_id = job.job_id;
            instance_id = o.instance_id;
            at = at;
            lease_ttl_ms = o.lease_ttl_ms;
          })))
    pure (after_claim job.job_id answer c)

  unfoldable pub claim_each : ℕ → List JobRecord → Claiming → Act Claiming
  claim_each at [] c = pure c
  claim_each at (job ∷ rest) c =
      if c.room == 0
      then claim_each at rest (defer c)
      else (claim_one at job c >>= λ d. claim_each at rest d)

  unfoldable pub claim : ℕ → List JobLease → Act Claiming
  claim at leases = do
    candidates ← query (
        list_jobs (record {
          states = some non_terminal_job_states;
          account_id = none;
          strategy_id = none;
          unleased_at = some at;
        }))
    claim_each at (select (λ (job : JobRecord). not (is_held job.job_id leases)) candidates)
        (record {
          leases = leases;
          room = o.max_jobs - length (held leases);
          claimed = [];
          deferred = 0;
        })

  abbrev pub pass_under : ℕ → Option JobLease → Ticking → Act Ticking
  pass_under id none t = pure t
  pass_under id (some lease) t = do
    at ← ask (λ m. ok (o.now m))
    outcome ← attempt (drive_job (record { outside = o.driver; lease = lease; at = at }))
    pure (after_pass id outcome t)

  unfoldable pub pass : ℕ → Ticking → Act Ticking
  pass id t = pass_under id (lease_on id t.leases) t

  unfoldable pub pass_each : List ℕ → Ticking → Act Ticking
  pass_each [] t = pure t
  pass_each (id ∷ rest) t = do t' ← pass id t; pass_each rest t'

  abbrev pub claim_if : Bool → ℕ → List JobLease → Act Claiming
  claim_if true at leases = claim at leases
  claim_if false at leases = pure (idle leases)

  -- The report, and the leases that are held then.
  unfoldable pub run_tick : List JobLease → Act (SchedulerTickReport × List JobLease)
  run_tick leases = do
    at ← ask (λ m. ok (o.now m))
    admitting ← ask (λ m. ok (o.admit m))
    c ← claim_if admitting at leases
    t ←
        pass_each (held c.leases)
          (record { leases = c.leases; passes = []; released = []; failures = [] })
    pure (
      record {
        at = at;
        claimed = c.claimed;
        passes = t.passes;
        released = t.released;
        failures = t.failures;
        deferred = c.deferred;
        admitting = admitting;
      },
      t.leases,
    )

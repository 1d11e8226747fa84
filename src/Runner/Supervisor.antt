-- ===== src/Runner/Supervisor.antt =====
-- `LeaseKeeper` of packages/runner/src/supervisor.ts: one pass of its timer. The keeper's entries are
-- the leases that it holds, in the order in which they were taken.
pub mod Fresh
use waterx_predict_agent.Base.{
  ℕ, ◌-◌, ◌==◌, leb, if◌then◌else◌, Bool, true, false, not, List, [], ◌∷◌, select, update, is_some,
  find,
}
use waterx_predict_agent.Runner.Job.{JobLease}
use waterx_predict_agent.Runner.Store.Db.{Db, StoreError}
use waterx_predict_agent.Runner.Store.Instances.{heartbeat}
use waterx_predict_agent.Runner.Store.Leases.{renew_lease}
use waterx_predict_agent.Runner.Store.Prog.{Prog, call, pure, catch, ◌>>=◌, ◌>>◌}

pub data LeaseLossReason : Type 0 where
  released lease_lost unrenewable : LeaseLossReason

-- The options of a keeper, and the instant that its clock gives.
pub record LeaseKeeperOptions : Type 0 where
  pub instance_id : ℕ
  pub at : ℕ
  pub lease_ttl_ms : ℕ
  pub safety_margin_ms : ℕ

-- The entries after a pass, and what `onLeaseLost` was told.
pub record Kept : Type 0 where
  pub leases : List JobLease
  pub lost : List (ℕ × LeaseLossReason)

pub data Renewal : Type 0 where
  kept : JobLease → Renewal
  dropped : LeaseLossReason → Renewal

abbrev pub is_lease_lost : StoreError → Bool
is_lease_lost StoreError.lease_lost = true
is_lease_lost _ = false

abbrev pub after_failure : LeaseKeeperOptions → JobLease → StoreError → Renewal
after_failure o lease x =
    if is_lease_lost x
    then dropped lease_lost
    else if leb (lease.expires_at - o.at) o.safety_margin_ms
    then dropped unrenewable
    else kept lease

unfoldable pub renew_one : LeaseKeeperOptions → JobLease → Prog Renewal
renew_one o lease =
    catch (call (renew_lease lease o.at o.lease_ttl_ms) >>= λ renewed. pure (kept renewed))
      (λ x. pure (after_failure o lease x))

abbrev pub keep_with : JobLease → Renewal → Kept → Kept
keep_with lease (kept renewed) rest = record rest { leases = renewed ∷ rest.leases }
keep_with lease (dropped why) rest = record rest { lost = (lease.job_id, why) ∷ rest.lost }

unfoldable pub renew_all : LeaseKeeperOptions → List JobLease → Prog Kept
renew_all o [] = pure (record { leases = []; lost = [] })
renew_all o (lease ∷ leases) = do
  renewal ← renew_one o lease
  rest ← renew_all o leases
  pure (keep_with lease renewal rest)

-- A missed heartbeat is reported and drops nothing.
unfoldable pub tick : LeaseKeeperOptions → List JobLease → Prog Kept
tick o leases = do
  beaten ← catch (call (heartbeat o.instance_id o.at) >>= λ row. pure true) (λ x. pure false)
  renew_all o leases

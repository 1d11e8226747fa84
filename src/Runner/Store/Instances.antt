-- ===== src/Runner/Store/Instances.antt =====
-- The instance methods of packages/runner/src/sqlite/store.ts.
use waterx_predict_agent.Base.{ℕ, none, some, List, ◌∷◌, find, sort_by, update}
use waterx_predict_agent.Runner.Job.{RunnerInstance}
use waterx_predict_agent.Runner.Store.Db.{
  before, Db, Result, ok, ◌>>=◌, ◌>>◌, is_instance, require_instance, is_id,
}

pub record RegisterInstanceInput : Type 0 where
  pub instance_id : ℕ
  pub pid : ℕ
  pub host : ℕ
  pub at : ℕ

upsert_instance : RegisterInstanceInput → List RunnerInstance → List RunnerInstance
upsert_instance input rows = elim (find (is_instance input.instance_id) rows) [
  | none ↦
      record {
        instance_id = input.instance_id;
        pid = input.pid;
        host = input.host;
        started_at = input.at;
        heartbeat_at = input.at;
        stopped_at = none;
      }
      ∷ rows
  | some _ ↦
      update (is_instance input.instance_id)
        (λ i. record i {
          pid = input.pid;
          host = input.host;
          heartbeat_at = input.at;
          stopped_at = none;
        })
        rows
]

unfoldable pub register_instance : RegisterInstanceInput → Db → Result (RunnerInstance × Db)
unfolding upsert_instance
register_instance input db = do
  let db' = record db { instances = upsert_instance input db.instances }
  row ← require_instance input.instance_id db'
  ok (row, db')

unfoldable pub heartbeat : ℕ → ℕ → Db → Result (RunnerInstance × Db)
heartbeat id at db = do
  let db' = record db {
    instances = update (is_instance id) (λ i. record i { heartbeat_at = at }) db.instances;
  }
  require_instance id db
  row ← require_instance id db'
  ok (row, db')

-- A clean stop gives back every lease of the instance, and touches no fence.
unfoldable pub stop_instance : ℕ → ℕ → Db → Result (Unit {0} × Db)
stop_instance id at db = ok (
  tt,
  record db {
    jobs =
        update (λ j. is_id id j.lease_instance_id)
          (λ j. record j { lease_instance_id = none; lease_expires_at = none; updated_at = at })
          db.jobs;
    instances =
        update (is_instance id) (λ i. record i { stopped_at = some at; heartbeat_at = at })
          db.instances;
  },
)

unfoldable pub list_instances : Db → List RunnerInstance
list_instances db =
    sort_by (λ i k. before i.started_at i.instance_id k.started_at k.instance_id) db.instances

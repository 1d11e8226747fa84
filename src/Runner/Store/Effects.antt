-- ===== src/Runner/Store/Effects.antt =====
-- The side-effect ledger of packages/runner/src/sqlite/store.ts.
use waterx_predict_agent.Base.{
  ℕ, ◌==◌, ltb, Bool, true, not, ◌&&◌, Option, none, some, List, ◌∷◌, select, sort_by, update,
  is_some, is_none,
}
use waterx_predict_agent.Runner.Secrets.{Json}
use waterx_predict_agent.Runner.Job.{
  JobLeg, SideEffectAttempt, SideEffectKind, SideEffectOutcome, JobLease, kind_eq,
}
use waterx_predict_agent.Runner.Store.Db.{
  Db, Result, ok, StoreError, ◌>>=◌, ◌>>◌, guard, or_fail, is_attempt, find_leg, find_attempt,
  find_open_attempt, require_attempt, assert_lease, encode_detail, before,
}
use waterx_predict_agent.Runner.Store.Legs.{LegPatch, patch_leg}

pub record BeginSideEffectInput : Type 0 where
  pub lease : JobLease
  pub attempt_id : ℕ
  pub leg_index : ℕ
  pub kind : SideEffectKind
  pub request_fingerprint : ℕ
  pub at : ℕ

-- The key is the leg's, never the caller's.
abbrev pub new_attempt : BeginSideEffectInput → JobLeg → SideEffectAttempt
new_attempt input leg = record {
  attempt_id = input.attempt_id;
  job_id = input.lease.job_id;
  leg_index = input.leg_index;
  kind = input.kind;
  idempotency_key = leg.idempotency_key;
  request_fingerprint = input.request_fingerprint;
  instance_id = input.lease.instance_id;
  started_at = input.at;
  outcome = none;
  outcome_at = none;
  detail = none;
}

unfoldable pub insert_attempt : BeginSideEffectInput → JobLeg → Db → Result (SideEffectAttempt × Db)
insert_attempt input leg db = do
  guard (not (is_some (find_attempt input.attempt_id db))) StoreError.constraint
  let db' = record db { effects = new_attempt input leg ∷ db.effects }
  attempt ← require_attempt input.attempt_id db'
  ok (attempt, db')

-- A replay of the open request gets the open attempt back.
unfoldable pub replay :
    BeginSideEffectInput → SideEffectAttempt → Db → Result (SideEffectAttempt × Db)
replay input attempt db = do
  guard (kind_eq attempt.kind input.kind) StoreError.open_side_effect
  guard (attempt.request_fingerprint == input.request_fingerprint) StoreError.replay_mismatch
  ok (attempt, db)

unfoldable pub begin_side_effect : BeginSideEffectInput → Db → Result (SideEffectAttempt × Db)
begin_side_effect input db = do
  assert_lease input.lease db
  leg ← or_fail StoreError.no_idempotency_key (find_leg input.lease.job_id input.leg_index db)
  elim (find_open_attempt input.lease.job_id input.leg_index db) [
    | some attempt ↦ replay input attempt db
    | none ↦ insert_attempt input leg db
  ]

pub record CompleteSideEffectInput : Type 0 where
  pub lease : JobLease
  pub attempt_id : ℕ
  pub outcome : SideEffectOutcome
  pub at : ℕ
  pub detail : Option Json
  pub leg : Option LegPatch

-- The patch of a leg that comes with the outcome, in the same transaction.
unfoldable pub patch_with : ℕ → ℕ → Option LegPatch → ℕ → Db → Result Db
patch_with id i none at db = ok db
patch_with id i (some patch) at db = do (leg, db') ← patch_leg id i patch at db; ok db'

abbrev pub closed : SideEffectOutcome → ℕ → Option Json → SideEffectAttempt → SideEffectAttempt
closed outcome at detail a = record a {
  outcome = some outcome;
  outcome_at = some at;
  detail = detail;
}

unfoldable pub complete_side_effect : CompleteSideEffectInput → Db → Result (SideEffectAttempt × Db)
complete_side_effect input db = do
  assert_lease input.lease db
  attempt ← require_attempt input.attempt_id db
  guard (is_none attempt.outcome) StoreError.unknown_side_effect
  detail ← encode_detail input.detail
  let resolved = record db {
    effects =
        update (is_attempt input.attempt_id) (closed input.outcome input.at detail) db.effects;
  }
  db' ← patch_with attempt.job_id attempt.leg_index input.leg input.at resolved
  row ← require_attempt input.attempt_id db'
  ok (row, db')

abbrev of_job : Option ℕ → ℕ → Bool
of_job none id = true
of_job (some job) id = id == job

-- With no job named, the open attempts of every job.
unfoldable pub list_open_side_effects : Option ℕ → Db → List SideEffectAttempt
list_open_side_effects job db =
    sort_by (λ a b. ltb a.started_at b.started_at)
      (select (λ a. of_job job a.job_id && is_none a.outcome) db.effects)

unfoldable pub list_side_effects : ℕ → Db → List SideEffectAttempt
list_side_effects id db =
    sort_by (λ a b. before a.started_at a.attempt_id b.started_at b.attempt_id)
      (select (λ a. a.job_id == id) db.effects)

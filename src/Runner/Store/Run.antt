-- ===== src/Runner/Store/Run.antt =====
-- A history of packages/runner/src/store.ts: the calls of any number of Runner instances and
-- clients, in the order in which their transactions commit.
pub mod Refinement
use waterx_predict_agent.Base.{ℕ, Option, List, [], ◌∷◌, Text}
use waterx_predict_agent.Runner.Job.{JobLease}
use waterx_predict_agent.Runner.Store.Db.{Db, Result, ok, err}
use waterx_predict_agent.Runner.Store.Instances.{
  RegisterInstanceInput, register_instance, heartbeat, stop_instance,
}
use waterx_predict_agent.Runner.Store.Jobs.{
  CreateJobInput, create_job, request_cancel, TransitionInput, transition,
}
use waterx_predict_agent.Runner.Store.Leases.{ClaimJobInput, claim_job, renew_lease, release_job}
use waterx_predict_agent.Runner.Store.Legs.{
  ReserveLegInput, reserve_leg, LegPatch, update_leg, CommitMandateSpendInput, commit_mandate_spend,
}
use waterx_predict_agent.Runner.Store.Effects.{
  BeginSideEffectInput, begin_side_effect, CompleteSideEffectInput, complete_side_effect,
}
use waterx_predict_agent.Runner.Store.Streams.{save_cursor}

-- The methods of `JobStore` that write.
pub data Call : Type 0 where
  registers : RegisterInstanceInput → Call
  beats : ℕ → ℕ → Call
  stops : ℕ → ℕ → Call
  creates : CreateJobInput → Call
  asks_cancel : ℕ → Text → ℕ → Call
  claims : ClaimJobInput → Call
  renews : JobLease → ℕ → ℕ → Call
  releases : JobLease → ℕ → Call
  moves : TransitionInput → Call
  reserves : ReserveLegInput → Call
  commits : CommitMandateSpendInput → Call
  updates : JobLease → ℕ → LegPatch → ℕ → Call
  begins : BeginSideEffectInput → Call
  completes : CompleteSideEffectInput → Call
  saves : ℕ → Text → ℕ → Call

-- The database that a call leaves: a refused one is rolled back.
abbrev pub after {ℓ} : {A : Type ℓ} → Db → Result (A × Db) → Db
after db (ok (a, e)) = e
after db (err x) = db

unfoldable pub step : Db → Call → Db
step db (registers input) = after db (register_instance input db)
step db (beats id at) = after db (heartbeat id at db)
step db (stops id at) = after db (stop_instance id at db)
step db (creates input) = after db (create_job input db)
step db (asks_cancel id reason at) = after db (request_cancel id reason at db)
step db (claims input) = after db (claim_job input db)
step db (renews lease at ttl) = after db (renew_lease lease at ttl db)
step db (releases lease at) = after db (release_job lease at db)
step db (moves input) = after db (transition input db)
step db (reserves input) = after db (reserve_leg input db)
step db (commits input) = after db (commit_mandate_spend input db)
step db (updates lease i patch at) = after db (update_leg lease i patch at db)
step db (begins input) = after db (begin_side_effect input db)
step db (completes input) = after db (complete_side_effect input db)
step db (saves scope cursor at) = after db (save_cursor scope cursor at db)

unfoldable pub run : Db → List Call → Db
run db [] = db
run db (c ∷ cs) = run (step db c) cs

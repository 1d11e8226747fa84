-- ===== src/Witnesses/LedgerRuns.antt =====
-- The theorems on the ledger, on recovery and on a reconcile pass at concrete databases.
use waterx_predict_agent.Base.{ℕ, ◌≤◌, none, some, [], ◌∷◌, ◌≡◌, refl, codes}
use waterx_predict_agent.Sdk.Decimal.{from_scaled, to_scaled}
use waterx_predict_agent.Runner.StateMachine.{JobState}
use waterx_predict_agent.Runner.Store.Db.{Db, Result, ok, assert_lease, ◌>>=◌}
use waterx_predict_agent.Runner.Store.Legs.{commit_new, commit_mandate_spend, spend_total}
use waterx_predict_agent.Runner.Store.Effects.{insert_attempt, begin_side_effect}
use waterx_predict_agent.Runner.Store.Replay.{begin_side_effect-twice}
use waterx_predict_agent.Runner.Store.Mandate.{commit-ceiling}
use waterx_predict_agent.Runner.Recovery.{RecoveryOptions}
use waterx_predict_agent.Runner.Reconciler.{ExecutionRead, ExecutionStatus}
use waterx_predict_agent.Runner.Reconciler.Pass.{ReconcileJobOptions}
use waterx_predict_agent.Witnesses.Data.{
  lease_of_1, with_job, with_leg, attempt_input, the_attempt, spend_input, placed,
}

abbrev with_attempt : Db
with_attempt = record (with_leg JobState.creating) { effects = the_attempt ∷ [] }

begin_side_effect-twice_example :
    begin_side_effect attempt_input with_attempt ≡ ok (the_attempt, with_attempt)
unfolding begin_side_effect insert_attempt assert_lease ◌>>=◌
begin_side_effect-twice_example =
    begin_side_effect-twice attempt_input the_attempt (with_leg JobState.creating) with_attempt refl

abbrev with_spend : Db
with_spend = record (with_leg JobState.quoting) {
  spend = record { job_id = 7; leg_index = 0; scope = 60; amount = codes "2.5"; at = 14 } ∷ [];
}

commit-ceiling_example :
    (n : ℕ) × (from_scaled 2500000 ≡ from_scaled n)
    × (spend_total 60 with_spend.spend ≡ ok n)
    × (n ≤ 4000000)
unfolding commit_mandate_spend commit_new spend_total to_scaled assert_lease ◌>>=◌
commit-ceiling_example =
    commit-ceiling spend_input (with_leg JobState.quoting) with_spend (from_scaled 2500000)
      (codes "4") 4000000 refl refl refl refl

abbrev recovery : RecoveryOptions
recovery = record { instance_id = 2; at = 200; lease_ttl_ms = 100; stale_after_ms = 60 }

-- A server that knows one execution, still waiting for its keeper.
abbrev answers : ℕ → Result ExecutionRead
answers e = ok (record {
  execution_id = e;
  status = ExecutionStatus.pending_fill;
  transaction_digest = some 88;
  fill_digest = none;
})

abbrev pub pass : ReconcileJobOptions
pass = record { lease = lease_of_1; at = 210; gateway = answers }

abbrev pub with_placed : Db
with_placed = record (with_job JobState.unknown_pending) { legs = placed ∷ [] }

-- ===== src/Runner/Strategy/Cancel.antt =====
-- `cancelStrategy` of packages/runner/src/strategy/service.ts. The keeper of this Runner's leases is
-- the list of the leases that it holds, empty where there is none.
pub mod Answer
use waterx_predict_agent.Base.{
  ℕ, ◌==◌, if◌then◌else◌, Bool, true, false, not, Option, none, some, List, [], ◌∷◌, ◌++◌, find,
  select, Text, codes,
}
use waterx_predict_agent.Runner.StateMachine.{JobState, can_end_locally}
use waterx_predict_agent.Runner.Secrets.{Json}
use waterx_predict_agent.Runner.Detail.{detail_of, word}
use waterx_predict_agent.Runner.Job.{JobRecord, JobLease}
use waterx_predict_agent.Runner.Store.Db.{Db}
use waterx_predict_agent.Runner.Store.Jobs.{request_cancel, transition, TransitionInput}
use waterx_predict_agent.Runner.Store.Prog.{Prog, call, pure, ◌>>=◌}

pub data CancelPending : Type 0 where
  not_leased_by_this_runner in_flight : CancelPending

pub record StrategyCancelResult : Type 0 where
  pub job_id : ℕ
  pub state : JobState
  pub recorded : Bool
  pub applied : Bool
  pub pending : Option CancelPending
  pub cancel_requested_at : Option ℕ
  pub terminal_at : Option ℕ

pub record CancelContext : Type 0 where
  pub at : ℕ
  pub leases : List JobLease
  pub via : Option Text

abbrev pub waiting : ℕ → JobRecord → CancelPending → StrategyCancelResult
waiting id row why = record {
  job_id = id;
  state = row.state;
  recorded = true;
  applied = false;
  pending = some why;
  cancel_requested_at = row.cancel_requested_at;
  terminal_at = none;
}

abbrev requested_via : Option Text → List (Text × Json)
requested_via none = []
requested_via (some via) = (codes "requestedVia", word via) ∷ []

abbrev pub cancelling : CancelContext → JobLease → Text → TransitionInput
cancelling context lease reason = record {
  lease = lease;
  to = JobState.cancelled;
  reason = codes "CANCEL_REQUESTED";
  at = context.at;
  detail = detail_of ((codes "requestedReason", word reason) ∷ requested_via context.via);
}

abbrev pub lease_on : ℕ → List JobLease → Option JobLease
lease_on id leases = find (λ l. l.job_id == id) leases

-- The keeper's `forget`.
abbrev pub forget : ℕ → List JobLease → List JobLease
forget id leases = select (λ l. not (l.job_id == id)) leases

unfoldable pub apply_cancel :
    CancelContext
    → ℕ
    → Text
    → JobRecord
    → Option JobLease
    → Prog (StrategyCancelResult × List JobLease)
apply_cancel context id reason row none =
    pure (waiting id row not_leased_by_this_runner, context.leases)
apply_cancel context id reason row (some lease) =
    if can_end_locally row.state
    then (do
      cancelled ← call (transition (cancelling context lease reason))
      pure (
        record {
          job_id = id;
          state = cancelled.state;
          recorded = true;
          applied = true;
          pending = none;
          cancel_requested_at = cancelled.cancel_requested_at;
          terminal_at = cancelled.terminal_at;
        },
        forget id context.leases,
      ))
    else pure (waiting id row in_flight, context.leases)

-- The result, and the leases that the keeper holds afterwards.
unfoldable pub cancel_strategy :
    CancelContext → ℕ → Text → Prog (StrategyCancelResult × List JobLease)
cancel_strategy context id reason = do
  row ← call (request_cancel id reason context.at)
  apply_cancel context id reason row (lease_on id context.leases)

-- ===== src/Witnesses/Data.antt =====
-- The rows and calls that the examples use: job 7 of packages/runner/src/job.ts, instances 1 and 2.
use waterx_predict_agent.Base.{ℕ, none, some, List, [], ◌∷◌, codes}
use waterx_predict_agent.Sdk.Decimal.{Side}
use waterx_predict_agent.Runner.StateMachine.{JobState}
use waterx_predict_agent.Runner.Job.{
  RunnerInstance, JobLegIntent, TriggerKind, PolicyMode, JobRecord, JobLeg, SideEffectAttempt,
  SideEffectKind, JobLease,
}
use waterx_predict_agent.Runner.Store.Db.{Db, CursorRow, empty_db}
use waterx_predict_agent.Runner.Store.Jobs.{CreateJobInput, TransitionInput, new_job}
use waterx_predict_agent.Runner.Store.Leases.{ClaimJobInput}
use waterx_predict_agent.Runner.Store.Legs.{ReserveLegInput, CommitMandateSpendInput, new_leg}
use waterx_predict_agent.Runner.Store.Effects.{BeginSideEffectInput, new_attempt}
use waterx_predict_agent.Runner.Store.Run.{
  Call, registers, beats, creates, asks_cancel, claims, moves, reserves, begins, commits,
}

abbrev pub buy_leg : JobLegIntent
buy_leg = record {
  market_id = 3;
  outcome_id = 1;
  side = Side.buy;
  buy_amount = some (codes "2.5");
  sell_shares = none;
  position_id = none;
  max_slippage_bps = 50;
  worst_acceptable_price = none;
  sizing = none;
}

abbrev pub job_input : CreateJobInput
job_input = record {
  job_id = 7;
  strategy_id = 70;
  owner_address = 71;
  account_id = 72;
  agent_wallet = 73;
  intent = buy_leg ∷ [];
  trigger = record {
    kind = TriggerKind.immediate;
    target_price = none;
    observe = none;
    market_id = none;
    outcome_id = none;
    side = none;
  };
  policy = record {
    mode = PolicyMode.delegated_auto;
    source = codes "local";
    max_order_notional = none;
    max_run_notional = none;
    not_after = none;
  };
  expires_at = some 1000;
  at = 5;
}

abbrev pub runner : ℕ → RunnerInstance
runner id = record {
  instance_id = id;
  pid = 40;
  host = 8;
  started_at = 1;
  heartbeat_at = 1;
  stopped_at = none;
}

abbrev pub lease_of_1 : JobLease
lease_of_1 = record { job_id = 7; instance_id = 1; fence = 1; expires_at = 110 }

abbrev pub lease_of_2 : JobLease
lease_of_2 = record { job_id = 7; instance_id = 2; fence = 2; expires_at = 300 }

-- Job 7 under the first lease, in a given state.
abbrev pub held_by_1 : JobState → JobRecord
held_by_1 s = record (new_job job_input 1000) {
  state = s;
  lease_instance_id = some 1;
  lease_expires_at = some 110;
  lease_fence = 1;
}

abbrev pub leg_input : ReserveLegInput
leg_input = record {
  lease = lease_of_1;
  leg_index = 0;
  idempotency_key = 500;
  intent = buy_leg;
  at = 12;
}

abbrev pub attempt_input : BeginSideEffectInput
attempt_input = record {
  lease = lease_of_1;
  attempt_id = 900;
  leg_index = 0;
  kind = SideEffectKind.create_execution;
  request_fingerprint = 901;
  at = 13;
}

abbrev pub spend_input : CommitMandateSpendInput
spend_input = record {
  lease = lease_of_1;
  leg_index = 0;
  scope = 60;
  amount = codes "2.5";
  ceiling = some (codes "4");
  at = 14;
}

abbrev pub claim_by : ℕ → ℕ → ClaimJobInput
claim_by id at = record { job_id = 7; instance_id = id; at = at; lease_ttl_ms = 100 }

abbrev pub move : JobLease → JobState → ℕ → TransitionInput
move lease to at = record { lease = lease; to = to; reason = codes "TEST"; at = at; detail = none }

abbrev pub with_job : JobState → Db
with_job s = record empty_db { instances = runner 2 ∷ runner 1 ∷ []; jobs = held_by_1 s ∷ [] }

abbrev pub the_leg : JobLeg
the_leg = new_leg leg_input

abbrev pub with_leg : JobState → Db
with_leg s = record (with_job s) { legs = the_leg ∷ [] }

abbrev pub the_attempt : SideEffectAttempt
the_attempt = new_attempt attempt_input the_leg

-- The leg with an execution of the server on it.
abbrev pub placed : JobLeg
placed = record the_leg { execution_id = some 77 }

-- From an empty database to an order in flight, and a second instance after a crash.
abbrev pub history : List Call
history =
    registers (record { instance_id = 1; pid = 40; host = 8; at = 1 })
    ∷ creates job_input
    ∷ claims (claim_by 1 10)
    ∷ moves (move lease_of_1 JobState.watching 10)
    ∷ moves (move lease_of_1 JobState.triggered 11)
    ∷ moves (move lease_of_1 JobState.quoting 11)
    ∷ reserves leg_input
    ∷ commits spend_input
    ∷ moves (move lease_of_1 JobState.creating 13)
    ∷ begins attempt_input
    ∷ registers (record { instance_id = 2; pid = 41; host = 8; at = 200 })
    ∷ claims (claim_by 2 200)
    ∷ moves (move lease_of_2 JobState.unknown_pending 201)
    ∷ moves (move lease_of_2 JobState.reconciling 202)
    ∷ moves (move lease_of_2 JobState.cancelled 203)
    ∷ asks_cancel 7 (codes "late") 204
    ∷ []

abbrev pub second_claim : List Call
second_claim = beats 1 150 ∷ claims (claim_by 2 200) ∷ []

abbrev pub cursor_row : CursorRow
cursor_row = record { scope = 30; cursor = codes "12"; updated_at = 3 }

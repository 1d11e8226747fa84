-- ===== src/Runner/Job.antt =====
-- packages/runner/src/job.ts: what a durable job is made of. Ids, keys, digests and fingerprints,
-- which the code only compares for equality, are numbers; an instant is its milliseconds.
use waterx_predict_agent.Base.{ℕ, Option, List, Text, ◌==◌, Bool}
use waterx_predict_agent.Runner.StateMachine.{JobState}
use waterx_predict_agent.Runner.Secrets.{Json}
use waterx_predict_agent.Sdk.Decimal.{Side}

pub record RunnerInstance : Type 0 where
  pub instance_id : ℕ
  pub pid : ℕ
  pub host : ℕ
  pub started_at : ℕ
  pub heartbeat_at : ℕ
  pub stopped_at : Option ℕ

pub data JobLegSizing : Type 0 where
  absolute : JobLegSizing
  frozen_fraction : Text → Text → ℕ → JobLegSizing
  dynamic_fraction : Text → JobLegSizing

pub record JobLegIntent : Type 0 where
  pub market_id : ℕ
  pub outcome_id : ℕ
  pub side : Side
  pub buy_amount : Option Text
  pub sell_shares : Option Text
  pub position_id : Option ℕ
  pub max_slippage_bps : ℕ
  pub worst_acceptable_price : Option Text
  pub sizing : Option JobLegSizing

pub data TriggerKind : Type 0 where
  immediate price : TriggerKind

pub data Observe : Type 0 where
  ask bid : Observe

pub record JobTrigger : Type 0 where
  pub kind : TriggerKind
  pub target_price : Option Text
  pub observe : Option Observe
  pub market_id : Option ℕ
  pub outcome_id : Option ℕ
  pub side : Option Side

-- `unrecognized` is a mode that another build wrote, by its name.
pub data PolicyMode : Type 0 where
  interactive delegated_auto read_only : PolicyMode
  unrecognized : Text → PolicyMode

pub record JobPolicySnapshot : Type 0 where
  pub mode : PolicyMode
  pub source : Text
  pub max_order_notional : Option Text
  pub max_run_notional : Option Text
  pub not_after : Option ℕ

pub record JobRecord : Type 0 where
  pub job_id : ℕ
  pub strategy_id : ℕ
  pub owner_address : ℕ
  pub account_id : ℕ
  pub agent_wallet : ℕ
  pub state : JobState
  pub intent : List JobLegIntent
  pub trigger : JobTrigger
  pub policy : JobPolicySnapshot
  pub created_at : ℕ
  pub updated_at : ℕ
  pub expires_at : ℕ
  pub lease_instance_id : Option ℕ
  pub lease_expires_at : Option ℕ
  pub lease_fence : ℕ
  pub cancel_requested_at : Option ℕ
  pub cancel_reason : Option Text
  pub terminal_at : Option ℕ

pub data JobLegStatus : Type 0 where
  pending succeeded failed skipped unknown : JobLegStatus

pub record JobLeg : Type 0 where
  pub job_id : ℕ
  pub leg_index : ℕ
  pub idempotency_key : ℕ
  pub intent : JobLegIntent
  pub status : JobLegStatus
  pub reference_quote_id : Option ℕ
  pub submission_quote_id : Option ℕ
  pub quoted_at : Option ℕ
  pub execution_id : Option ℕ
  pub submission_digest : Option ℕ
  pub keeper_digest : Option ℕ
  pub created_at : ℕ
  pub updated_at : ℕ

pub data SideEffectKind : Type 0 where
  create_execution submit_execution reconcile_execution : SideEffectKind

pub data SideEffectOutcome : Type 0 where
  succeeded failed abandoned : SideEffectOutcome

pub record SideEffectAttempt : Type 0 where
  pub attempt_id : ℕ
  pub job_id : ℕ
  pub leg_index : ℕ
  pub kind : SideEffectKind
  pub idempotency_key : ℕ
  pub request_fingerprint : ℕ
  pub instance_id : ℕ
  pub started_at : ℕ
  pub outcome : Option SideEffectOutcome
  pub outcome_at : Option ℕ
  pub detail : Option Json

pub record JobTransitionRecord : Type 0 where
  pub job_id : ℕ
  pub seq : ℕ
  pub from_state : Option JobState
  pub to_state : JobState
  pub reason : Text
  pub instance_id : Option ℕ
  pub at : ℕ
  pub detail : Option Json

pub record JobLease : Type 0 where
  pub job_id : ℕ
  pub instance_id : ℕ
  pub fence : ℕ
  pub expires_at : ℕ

abbrev pub kind_tag : SideEffectKind → ℕ
kind_tag create_execution = 0
kind_tag submit_execution = 1
kind_tag reconcile_execution = 2

-- `===` on the kinds of a side effect.
abbrev pub kind_eq : SideEffectKind → SideEffectKind → Bool
kind_eq a b = kind_tag a == kind_tag b

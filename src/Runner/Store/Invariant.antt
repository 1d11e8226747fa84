-- ===== src/Runner/Store/Invariant.antt =====
-- What holds of the tables of packages/runner/src/sqlite/store.ts between two transactions.
pub mod Sound
pub mod Jobs
pub mod Legs
pub mod History
pub mod Passage
pub mod Fencing
use waterx_predict_agent.Base.{
  find, ℕ, suc, ◌==◌, Bool, true, false, ◌&&◌, Option, none, some, List, [], ◌∷◌, select, length,
  is_some, is_none, All, Distinct, ◌≡◌, ◌≢◌,
}
use waterx_predict_agent.Sdk.Decimal.{to_scaled}
use waterx_predict_agent.Runner.StateMachine.{
  JobState, job_states, is_terminal_job_state, can_transition,
}
use waterx_predict_agent.Runner.Job.{JobRecord, JobLeg, SideEffectAttempt, JobTransitionRecord}
use waterx_predict_agent.Runner.Store.Db.{Db, find_job, is_leg}

-- A job's rows of the transition log, newest first.
abbrev pub log : ℕ → List JobTransitionRecord → List JobTransitionRecord
log id ts = select (λ t. t.job_id == id) ts

-- The log is a walk along edges from DRAFT to the state.
abbrev pub IsLog : List JobTransitionRecord → JobState → Type 0
IsLog [] s = ⊥
IsLog (t ∷ []) s = (t.to_state ≡ s) × (t.from_state ≡ none) × (s ≡ JobState.draft)
IsLog (t ∷ u ∷ r) s =
    (t.to_state ≡ s)
    × (t.from_state ≡ some u.to_state)
    × (can_transition u.to_state s ≡ true)
    × IsLog (u ∷ r) u.to_state

-- Its entries are numbered from 1 with no gap.
abbrev pub IsNumbered : List JobTransitionRecord → Type 0
IsNumbered [] = Unit
IsNumbered (t ∷ r) = (t.seq ≡ suc (length r)) × IsNumbered r

pub record IsSound (legs : List JobLeg) (ts : List JobTransitionRecord) (j : JobRecord)
    : Type 0 where
  pub stamped : is_some j.terminal_at ≡ is_terminal_job_state j.state
  pub released : is_terminal_job_state j.state ≡ true → j.lease_instance_id ≡ none
  pub leg_on_disk :
      (job_states j.state).requires_leg ≡ true
      → length (select (λ l. l.job_id == j.job_id) legs) ≢ 0
  pub logged : IsLog (log j.job_id ts) j.state
  pub numbered : IsNumbered (log j.job_id ts)

abbrev pub same_job : JobRecord → JobRecord → Bool
same_job j k = j.job_id == k.job_id

pub record IsJobTable (db : Db) : Type 0 where
  pub distinct : Distinct same_job db.jobs
  pub sound : All (IsSound db.legs db.transitions) db.jobs
  pub unlogged : (id : ℕ) → find_job id db ≡ none → log id db.transitions ≡ []

abbrev pub same_leg : JobLeg → JobLeg → Bool
same_leg l m = l.job_id == m.job_id && l.leg_index == m.leg_index

abbrev pub same_key : JobLeg → JobLeg → Bool
same_key l m = l.idempotency_key == m.idempotency_key

abbrev pub same_id : Option ℕ → Option ℕ → Bool
same_id none o = false
same_id (some a) none = false
same_id (some a) (some b) = a == b

abbrev pub same_execution : JobLeg → JobLeg → Bool
same_execution l m = same_id l.execution_id m.execution_id

abbrev pub both_open : SideEffectAttempt → SideEffectAttempt → Bool
both_open a b =
    (a.job_id == b.job_id && a.leg_index == b.leg_index) && (is_none a.outcome && is_none b.outcome)

-- A job's leg is on disk under that key.
pub record IsKeyAt (legs : List JobLeg) (id i key : ℕ) : Type 0 where
  pub leg : JobLeg
  pub found : find (is_leg id i) legs ≡ some leg
  pub same : key ≡ leg.idempotency_key

-- An attempt carries the key of a leg that is on disk.
abbrev pub IsKeyed : List JobLeg → SideEffectAttempt → Type 0
IsKeyed legs a = IsKeyAt legs a.job_id a.leg_index a.idempotency_key

pub record IsLedger (db : Db) : Type 0 where
  pub legs : Distinct same_leg db.legs
  pub keys : Distinct same_key db.legs
  pub executions : Distinct same_execution db.legs
  pub open_attempts : Distinct both_open db.effects
  pub keyed : All (IsKeyed db.legs) db.effects
  pub amounts : All (λ r. is_some (to_scaled r.amount) ≡ true) db.spend

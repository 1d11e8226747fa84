-- ===== src/Runner/Store/Jobs.antt =====
-- The job and transition methods of packages/runner/src/sqlite/store.ts.
use waterx_predict_agent.Base.{
  ℕ, ◌==◌, ltb, leb, if◌then◌else◌, or_else, Bool, true, false, not, ◌&&◌, Option, none, some, List,
  [], ◌∷◌, select, sort_by, update, is_some, Text, codes,
}
use waterx_predict_agent.Runner.StateMachine.{
  JobState, job_states, includes, is_terminal_job_state, can_transition,
}
use waterx_predict_agent.Runner.Secrets.{Json}
use waterx_predict_agent.Runner.Job.{
  JobRecord, JobLegIntent, JobTrigger, JobPolicySnapshot, JobTransitionRecord, JobLease,
}
use waterx_predict_agent.Runner.Store.Db.{
  before, Db, Result, ok, err, StoreError, ◌>>=◌, ◌>>◌, guard, is_job, find_job, require_job,
  count_legs, assert_lease, append_transition,
}

pub record CreateJobInput : Type 0 where
  pub job_id : ℕ
  pub strategy_id : ℕ
  pub owner_address : ℕ
  pub account_id : ℕ
  pub agent_wallet : ℕ
  pub intent : List JobLegIntent
  pub trigger : JobTrigger
  pub policy : JobPolicySnapshot
  -- `Date.parse`, which may not be finite.
  pub expires_at : Option ℕ
  pub at : ℕ

abbrev is_empty : List JobLegIntent → Bool
is_empty [] = true
is_empty (l ∷ ls) = false

abbrev pub new_job : CreateJobInput → ℕ → JobRecord
new_job input expires_at = record {
  job_id = input.job_id;
  strategy_id = input.strategy_id;
  owner_address = input.owner_address;
  account_id = input.account_id;
  agent_wallet = input.agent_wallet;
  state = JobState.draft;
  intent = input.intent;
  trigger = input.trigger;
  policy = input.policy;
  created_at = input.at;
  updated_at = input.at;
  expires_at = expires_at;
  lease_instance_id = none;
  lease_expires_at = none;
  lease_fence = 0;
  cancel_requested_at = none;
  cancel_reason = none;
  terminal_at = none;
}

unfoldable pub insert_job : CreateJobInput → ℕ → Db → Result (JobRecord × Db)
insert_job input expires_at db = do
  guard (not (is_some (find_job input.job_id db))) StoreError.constraint
  let inserted = record db { jobs = new_job input expires_at ∷ db.jobs }
  db' ←
      append_transition input.job_id none JobState.draft (codes "JOB_CREATED") none input.at none
        inserted
  job ← require_job input.job_id db'
  ok (job, db')

-- The keys of an intent, a trigger and a policy are the fixed ones of their records, none of them
-- forbidden, so `encodeJson` lets them through.
unfoldable pub create_job : CreateJobInput → Db → Result (JobRecord × Db)
create_job input db = do
  guard (not (is_empty input.intent)) StoreError.invalid_input
  elim input.expires_at [
    | none ↦ err StoreError.invalid_input
    | some expires_at ↦ insert_job input expires_at db
  ]

unfoldable pub get_job : ℕ → Db → Option JobRecord
get_job id db = find_job id db

pub record JobFilter : Type 0 where
  pub states : Option (List JobState)
  pub account_id : Option ℕ
  pub strategy_id : Option ℕ
  pub unleased_at : Option ℕ

-- A clause that is absent selects every row.
abbrev optional {ℓ} : {A : Type ℓ} → (A → Bool) → Option A → Bool
optional p none = true
optional p (some a) = p a

abbrev in_states : List JobState → JobState → Bool
in_states [] s = true
in_states (x ∷ xs) s = includes (x ∷ xs) s

abbrev is_unleased : ℕ → Option ℕ → Option ℕ → Bool
is_unleased at none expires = true
is_unleased at (some i) none = true
is_unleased at (some i) (some expires) = leb expires at

unfoldable pub matches : JobFilter → JobRecord → Bool
matches f j =
    (optional (λ states. in_states states j.state) f.states
      && optional (λ a. j.account_id == a) f.account_id)
    && (optional (λ s. j.strategy_id == s) f.strategy_id
        && optional (λ at. is_unleased at j.lease_instance_id j.lease_expires_at) f.unleased_at)

unfoldable pub list_jobs : JobFilter → Db → List JobRecord
unfolding matches
list_jobs f db =
    sort_by (λ j k. before j.created_at j.job_id k.created_at k.job_id) (select (matches f) db.jobs)

unfoldable pub request_cancel : ℕ → Text → ℕ → Db → Result (JobRecord × Db)
request_cancel id reason at db = do
  job ← require_job id db
  guard (not (is_terminal_job_state job.state)) StoreError.illegal_transition
  let db' = record db {
    jobs =
        update (is_job id)
          (λ j. record j {
            cancel_requested_at = or_else j.cancel_requested_at (some at);
            cancel_reason = or_else j.cancel_reason (some reason);
            updated_at = at;
          })
          db.jobs;
  }
  row ← require_job id db'
  ok (row, db')

pub record TransitionInput : Type 0 where
  pub lease : JobLease
  pub to : JobState
  pub reason : Text
  pub at : ℕ
  pub detail : Option Json

-- The row that a transition writes: a terminal state also gives the lease back.
abbrev pub moved : JobState → ℕ → JobRecord → JobRecord
moved to at j =
    if is_terminal_job_state to
    then record j {
      state = to;
      updated_at = at;
      terminal_at = some at;
      lease_instance_id = none;
      lease_expires_at = none;
    }
    else record j { state = to; updated_at = at; terminal_at = none }

unfoldable pub transition : TransitionInput → Db → Result (JobRecord × Db)
transition input db = do
  let id = input.lease.job_id
  assert_lease input.lease db
  job ← require_job id db
  guard (can_transition job.state input.to) StoreError.illegal_transition
  guard (not ((job_states input.to).requires_leg && count_legs id db == 0))
      StoreError.no_idempotency_key
  let updated = record db { jobs = update (is_job id) (moved input.to input.at) db.jobs }
  db' ←
      append_transition id (some job.state) input.to input.reason (some input.lease.instance_id)
        input.at input.detail updated
  row ← require_job id db'
  ok (row, db')

unfoldable pub list_transitions : ℕ → Db → List JobTransitionRecord
list_transitions id db =
    sort_by (λ a b. ltb a.seq b.seq) (select (λ t. t.job_id == id) db.transitions)

-- ===== src/Runner/Store/Db.antt =====
-- packages/runner/src/errors.ts, the tables of sqlite/migrations.ts, and the private readers of
-- sqlite/store.ts. A method of the store is a function from the database to a result: an error
-- carries no database, which is the ROLLBACK of `tx`, and a success carries the new one.
use waterx_predict_agent.Base.{
  ◌||◌, ℕ, ◌+◌, ◌==◌, ltb, max, if◌then◌else◌, Bool, true, false, ◌&&◌, Option, none, some, List,
  [], ◌∷◌, length, select, find, is_none, Text,
}
use waterx_predict_agent.Runner.StateMachine.{JobState}
use waterx_predict_agent.Runner.Secrets.{Json, assert_no_secrets}
use waterx_predict_agent.Runner.Job.{
  RunnerInstance, JobRecord, JobLeg, SideEffectAttempt, JobTransitionRecord, JobLease,
}

-- `JobStoreErrorCode`; `constraint` is the engine's own error on a primary key, and `range_error`
-- the one that a malformed decimal throws, `gateway_error` the one of a read that fails,
-- `size_missing` the one of an order without a size.
pub data StoreError : Type 0 where
  unknown_job unknown_leg illegal_transition lease_lost no_idempotency_key duplicate_idempotency_key
        duplicate_execution replay_mismatch open_side_effect unknown_side_effect cursor_rewind
        schema_too_new secret_rejected invalid_input constraint range_error gateway_error
        size_missing :
      StoreError

pub data Result {ℓ} (A : Type ℓ) : Type ℓ where
  ok : A → Result A
  err : StoreError → Result A

infixl 5 ◌>>=◌ ◌>>◌
unfoldable pub ◌>>=◌ {ℓ κ} : {B : Type ℓ} {C : Type κ} → Result B → (B → Result C) → Result C
err x >>= k = err x
ok b >>= k = k b

abbrev pub ◌>>◌ {ℓ κ} : {A : Type ℓ} {B : Type κ} → Result A → Result B → Result B
m >> k = m >>= λ _. k

-- `if (!test) throw …`.
abbrev pub guard : Bool → StoreError → Result (Unit {0})
guard false x = err x
guard true x = ok tt

abbrev pub or_fail {ℓ} : {A : Type ℓ} → StoreError → Option A → Result A
or_fail e none = err e
or_fail e (some a) = ok a

pub record CursorRow : Type 0 where
  pub scope : ℕ
  pub cursor : Text
  pub updated_at : ℕ

pub record SpendRow : Type 0 where
  pub job_id : ℕ
  pub leg_index : ℕ
  pub scope : ℕ
  pub amount : Text
  pub at : ℕ

-- The tables, each newest row first.
pub record Db : Type 0 where
  pub instances : List RunnerInstance
  pub jobs : List JobRecord
  pub transitions : List JobTransitionRecord
  pub legs : List JobLeg
  pub effects : List SideEffectAttempt
  pub cursors : List CursorRow
  pub spend : List SpendRow

abbrev pub empty_db : Db
empty_db = record {
  instances = [];
  jobs = [];
  transitions = [];
  legs = [];
  effects = [];
  cursors = [];
  spend = [];
}

abbrev pub is_instance : ℕ → RunnerInstance → Bool
is_instance id i = i.instance_id == id

abbrev pub is_job : ℕ → JobRecord → Bool
is_job id j = j.job_id == id

abbrev pub is_leg : ℕ → ℕ → JobLeg → Bool
is_leg id i l = l.job_id == id && l.leg_index == i

abbrev pub is_attempt : ℕ → SideEffectAttempt → Bool
is_attempt id a = a.attempt_id == id

abbrev pub is_open_on : ℕ → ℕ → SideEffectAttempt → Bool
is_open_on id i a = (a.job_id == id && a.leg_index == i) && is_none a.outcome

abbrev pub find_job : ℕ → Db → Option JobRecord
find_job id db = find (is_job id) db.jobs

abbrev pub find_leg : ℕ → ℕ → Db → Option JobLeg
find_leg id i db = find (is_leg id i) db.legs

abbrev pub find_attempt : ℕ → Db → Option SideEffectAttempt
find_attempt id db = find (is_attempt id) db.effects

abbrev pub find_open_attempt : ℕ → ℕ → Db → Option SideEffectAttempt
find_open_attempt id i db = find (is_open_on id i) db.effects

abbrev pub require_instance : ℕ → Db → Result RunnerInstance
require_instance id db = or_fail invalid_input (find (is_instance id) db.instances)

abbrev pub require_job : ℕ → Db → Result JobRecord
require_job id db = or_fail unknown_job (find_job id db)

abbrev pub require_leg : ℕ → ℕ → Db → Result JobLeg
require_leg id i db = or_fail unknown_leg (find_leg id i db)

abbrev pub require_attempt : ℕ → Db → Result SideEffectAttempt
require_attempt id db = or_fail unknown_side_effect (find_attempt id db)

abbrev pub count_legs : ℕ → Db → ℕ
count_legs id db = length (select (λ l. l.job_id == id) db.legs)

-- `a !== null && a === b` on a nullable id.
abbrev pub is_id : ℕ → Option ℕ → Bool
is_id id none = false
is_id id (some a) = a == id

-- The fencing check: the instance and the fence, never the clock.
abbrev pub holds : JobLease → JobRecord → Bool
holds lease j = is_id lease.instance_id j.lease_instance_id && j.lease_fence == lease.fence

unfoldable pub assert_lease : JobLease → Db → Result (Unit {0})
assert_lease lease db = do job ← require_job lease.job_id db; guard (holds lease job) lease_lost

-- `encodeJson` of an optional detail.
unfoldable pub encode_detail : Option Json → Result (Option Json)
encode_detail none = ok none
encode_detail (some j) =
    if is_none (assert_no_secrets j []) then ok (some j) else err secret_rejected

-- SELECT COALESCE(MAX(seq), 0) … WHERE job_id = ?.
abbrev pub max_seq : ℕ → List JobTransitionRecord → ℕ
max_seq id [] = 0
max_seq id (t ∷ ts) = let rest = max_seq id ts in if t.job_id == id then max t.seq rest else rest

abbrev pub log_entry :
    ℕ → ℕ → Option JobState → JobState → Text → Option ℕ → ℕ → Option Json → JobTransitionRecord
log_entry id seq from to reason instance_id at detail = record {
  job_id = id;
  seq = seq;
  from_state = from;
  to_state = to;
  reason = reason;
  instance_id = instance_id;
  at = at;
  detail = detail;
}

unfoldable pub append_transition :
    ℕ → Option JobState → JobState → Text → Option ℕ → ℕ → Option Json → Db → Result Db
append_transition id from to reason instance_id at detail db = do
  encoded ← encode_detail detail
  ok (record db {
    transitions =
        log_entry id (max_seq id db.transitions + 1) from to reason instance_id at encoded
        ∷ db.transitions;
  })

-- ORDER BY an instant, then an id.
abbrev pub before : ℕ → ℕ → ℕ → ℕ → Bool
before at id at' id' = ltb at at' || (at == at' && ltb id id')

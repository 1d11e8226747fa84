-- ===== src/Runner/Store/Change.antt =====
-- What one method of packages/runner/src/sqlite/store.ts may do to the database, as a relation:
-- each constructor is one write, with the facts its guards have established.
pub mod JobMethods
pub mod LedgerMethods
use waterx_predict_agent.Base.{
  ◌≤◌, find, ℕ, suc, ◌+◌, ◌==◌, Bool, true, false, not, ◌&&◌, Option, none, some, List, [], ◌∷◌,
  update, Text, ◌≡◌, refl, arith, subst, ◌≢◌, ◌⊎◌, is_some,
}
use waterx_predict_agent.Sdk.Decimal.{to_scaled}
use waterx_predict_agent.Runner.StateMachine.{
  JobState, job_states, is_terminal_job_state, can_transition,
}
use waterx_predict_agent.Runner.Secrets.{Json}
use waterx_predict_agent.Runner.Job.{
  RunnerInstance, JobRecord, JobLeg, SideEffectAttempt, SideEffectOutcome, JobTransitionRecord,
}
use waterx_predict_agent.Runner.Store.Db.{
  guard, or_fail, Db, CursorRow, SpendRow, Result, StoreError, ok, err, ◌>>=◌, is_job, is_leg,
  is_attempt, find_job, find_leg, find_attempt, find_open_attempt, count_legs, max_seq,
}
use waterx_predict_agent.Runner.Store.Jobs.{moved}
use waterx_predict_agent.Runner.Store.Legs.{LegPatch, patched, key_taken, execution_taken, is_spend}
use waterx_predict_agent.Runner.Store.Effects.{closed}
use waterx_predict_agent.Runner.Store.Streams.{is_scope, position}

-- The row after a write that neither moves the job nor claims it: a lease is kept or given back.
pub record IsTouch (j k : JobRecord) : Type 0 where
  pub job_id : k.job_id ≡ j.job_id
  pub state : k.state ≡ j.state
  pub terminal_at : k.terminal_at ≡ j.terminal_at
  pub fence : k.lease_fence ≡ j.lease_fence
  pub lease : (k.lease_instance_id ≡ j.lease_instance_id) ⊎ (k.lease_instance_id ≡ none)

-- The row after a claim: the fence grows by one.
pub record IsClaim (j k : JobRecord) : Type 0 where
  pub job_id : k.job_id ≡ j.job_id
  pub state : k.state ≡ j.state
  pub terminal_at : k.terminal_at ≡ j.terminal_at
  pub fence : k.lease_fence ≡ j.lease_fence + 1

pub record IsNewJob (j : JobRecord) : Type 0 where
  pub state : j.state ≡ JobState.draft
  pub terminal_at : j.terminal_at ≡ none
  pub lease : j.lease_instance_id ≡ none

-- A new row of the transition log, numbered behind the job's earlier ones.
pub record IsEntry (t : JobTransitionRecord) (id : ℕ) (from : Option JobState) (to : JobState)
    (ts : List JobTransitionRecord) : Type 0 where
  pub job_id : t.job_id ≡ id
  pub from_state : t.from_state ≡ from
  pub to_state : t.to_state ≡ to
  pub seq : t.seq ≡ max_seq id ts + 1

-- No scope loses its cursor, and none goes back.
abbrev pub IsForward : List CursorRow → List CursorRow → Type 0
IsForward old rows =
    (scope : ℕ) (row : CursorRow)
    → find (is_scope scope) old ≡ some row
    → (new : CursorRow) × (find (is_scope scope) rows ≡ some new)
      × (position row.cursor ≤ position new.cursor)

pub data Change : Db → Db → Type 0 where
  keep : {db : Db} → Change db db
  and_then : {db e f : Db} → Change db e → Change e f → Change db f
  instances_set :
      {db : Db} (rows : List RunnerInstance) → Change db (record db { instances = rows })
  job_created :
      {db : Db} (j : JobRecord) (t : JobTransitionRecord)
      → find_job j.job_id db ≡ none
      → IsNewJob j
      → IsEntry t j.job_id none JobState.draft db.transitions
      → Change db (record db { jobs = j ∷ db.jobs; transitions = t ∷ db.transitions })
  job_touched :
      {db : Db} (p : JobRecord → Bool) (f : JobRecord → JobRecord)
      → ((j : JobRecord) → IsTouch j (f j))
      → Change db (record db { jobs = update p f db.jobs })
  job_claimed :
      {db : Db} (p : JobRecord → Bool) (f : JobRecord → JobRecord) (id : ℕ) (job : JobRecord)
      → find_job id db ≡ some job
      → is_terminal_job_state job.state ≡ false
      → ((j : JobRecord) → p j ≡ true → (is_job id j ≡ true) × IsClaim j (f j))
      → Change db (record db { jobs = update p f db.jobs })
  job_moved :
      {db : Db} (id : ℕ) (job : JobRecord) (to : JobState) (at : ℕ) (t : JobTransitionRecord)
      → find_job id db ≡ some job
      → can_transition job.state to ≡ true
      → ((job_states to).requires_leg ≡ true → count_legs id db ≢ 0)
      → IsEntry t id (some job.state) to db.transitions
      → Change db (record db {
        jobs = update (is_job id) (moved to at) db.jobs;
        transitions = t ∷ db.transitions;
      })
  leg_added :
      {db : Db} (l : JobLeg)
      → find_leg l.job_id l.leg_index db ≡ none
      → key_taken l.idempotency_key db.legs ≡ false
      → l.execution_id ≡ none
      → Change db (record db { legs = l ∷ db.legs })
  leg_patched :
      {db : Db} (id i : ℕ) (patch : LegPatch) (at : ℕ)
      → execution_taken id i patch.execution_id db.legs ≡ false
      → Change db (record db { legs = update (is_leg id i) (patched patch at) db.legs })
  attempt_opened :
      {db : Db} (a : SideEffectAttempt) (l : JobLeg)
      → find_leg a.job_id a.leg_index db ≡ some l
      → a.idempotency_key ≡ l.idempotency_key
      → find_open_attempt a.job_id a.leg_index db ≡ none
      → find_attempt a.attempt_id db ≡ none
      → Change db (record db { effects = a ∷ db.effects })
  attempt_closed :
      {db : Db} (id : ℕ) (outcome : SideEffectOutcome) (at : ℕ) (detail : Option Json)
      → Change db
          (record db { effects = update (is_attempt id) (closed outcome at detail) db.effects })
  cursors_set :
      {db : Db} (rows : List CursorRow)
      → IsForward db.cursors rows
      → Change db (record db { cursors = rows })
  spend_added :
      {db : Db} (r : SpendRow)
      → is_some (to_scaled r.amount) ≡ true
      → Change db (record db { spend = r ∷ db.spend })

-- Of a method's result: what the new database is to the old one. An error leaves no database.
pub data Makes {ℓ} {A : Type ℓ} (db : Db) : Result (A × Db) → Type ℓ where
  makes : {a : A} {e : Db} → Change db e → Makes db (ok (a, e))
  fails : {x : StoreError} → Makes db (err x)

module _ {ℓ κ} {A : Type ℓ} {B : Type κ} (db : Db) where
  pub Makes-bind :
      (m : Result B) (f : B → Result (A × Db))
      → ((b : B) → m ≡ ok b → Makes db (f b))
      → Makes db (m >>= f)
  unfolding ◌>>=◌
  Makes-bind (ok b) f k = k b refl
  Makes-bind (err x) f k = fails

pub Makes-ok {ℓ} :
    {A : Type ℓ} {db e : Db} {a : A} {r : Result (A × Db)}
    → Makes db r
    → r ≡ ok (a, e)
    → Change db e
Makes-ok {db = db} {e} (makes {e = e'} c) h = let q : e' ≡ e = ground arith in subst (Change db) q c
Makes-ok fails h = cc

-- Inversion of a successful bind.
pub >>=-eq-ok {ℓ κ} :
    {B : Type ℓ} {C : Type κ} (r : Result B) (k : B → Result C) {c : C}
    → (r >>= k) ≡ ok c
    → (b : B) × (r ≡ ok b) × (k b ≡ ok c)
unfolding ◌>>=◌
>>=-eq-ok (err x) k h = cc
>>=-eq-ok (ok b) k h = (b, refl, h)

pub guard-true : (b : Bool) (e : StoreError) {u : Unit {0}} → guard b e ≡ ok u → b ≡ true
guard-true true e h = refl
guard-true false e h = cc

pub or_fail-some {ℓ} :
    {A : Type ℓ} (e : StoreError) (o : Option A) {a : A} → or_fail e o ≡ ok a → o ≡ some a
or_fail-some e none h = cc
or_fail-some e (some b) h = cc

pub ok-injective {ℓ} : {A : Type ℓ} {a b : A} → ok a ≡ ok b → a ≡ b
ok-injective h = cc

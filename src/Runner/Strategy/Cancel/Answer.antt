-- ===== src/Runner/Strategy/Cancel/Answer.antt =====
-- What `cancelStrategy` of packages/runner/src/strategy/service.ts answers, against the job table.
use mathlib.Core.Option
use waterx_predict_agent.Base.{or_else, Bool-cases, inl, inr, ◌⊎◌, Text}
use waterx_predict_agent.Runner.Store.Prog.Safe.{
  IsSafe, safe_run, call-IsSafe, pure-IsSafe, bind-IsSafe, if-IsSafe,
}
use waterx_predict_agent.Runner.Strategy.Cancel.{CancelPending, waiting}
use waterx_predict_agent.Base.{
  ◌⊎◌, Text, ℕ, ◌==◌, ==_iff, true, false, Option, none, some, List, find, find_test, find-update,
  edited, update, ◌≡◌, refl, sym, ap, ◌∙◌, subst, arith, some_injective,
}
use waterx_predict_agent.Runner.StateMachine.{
  JobState, state_eq, can_end_locally, is_terminal_job_state,
}
use waterx_predict_agent.Runner.Job.{JobRecord, JobLease}
use waterx_predict_agent.Runner.Store.Db.{Db, ok, find_job, is_job}
use waterx_predict_agent.Runner.Store.Jobs.{request_cancel}
use waterx_predict_agent.Runner.Store.Change.{Change, guard-true, or_fail-some}
use waterx_predict_agent.Runner.Store.Change.JobMethods.{request_cancel-Makes, transition-Makes}
use waterx_predict_agent.Runner.Store.Gives.{Gives, gives, Gives-bind, Stands, transition-Gives}
use waterx_predict_agent.Runner.Store.Prog.After.{
  After, bind-After, call-After, pure-After, After-ok,
}
use waterx_predict_agent.Runner.Strategy.Cancel.{
  StrategyCancelResult, CancelContext, lease_on, apply_cancel, cancel_strategy,
}

touched-find :
    (id : ℕ) (f : JobRecord → JobRecord) (rows : List JobRecord) (job : JobRecord)
    → ((j : JobRecord) → (f j).job_id ≡ j.job_id)
    → find (is_job id) rows ≡ some job
    → find (is_job id) (update (is_job id) f rows) ≡ some (f job)
touched-find id f rows job keeps h =
    find-update (is_job id) (is_job id) f rows (λ j e. rw (keeps j) refl)
    ∙ ap (Option.map (edited (is_job id) f)) h
    ∙ rw (find_test (is_job id) rows h)

not_cancelled :
    (s : JobState) → is_terminal_job_state s ≡ false → false ≡ state_eq s JobState.cancelled
unfolding is_terminal_job_state
not_cancelled s h = ground arith

module _ (id : ℕ) (job : JobRecord) where
  -- The row is the job's, live, with its state as it was.
  abbrev IsAsked : JobRecord → Db → Type 0
  IsAsked row e =
      (row.state ≡ job.state) × (is_terminal_job_state job.state ≡ false) × Stands id job.state e

  request_cancel-Gives :
      (reason : Text) (at : ℕ) (db : Db)
      → find_job id db ≡ some job
      → Gives IsAsked (request_cancel id reason at db)
  unfolding request_cancel
  request_cancel-Gives reason at db h = Gives-bind _ _ _ λ old found. Gives-bind _ _ _ λ _ live.
      Gives-bind _ _ _ λ row again.
        let there = touched-find id write db.jobs job (λ j. refl) h in
        let same : write job ≡ row = some_injective (sym there ∙ or_fail-some _ _ again) in
        let mine : old ≡ job = some_injective (sym (or_fail-some _ _ found) ∙ h) in
        gives (
          ap (λ (k : JobRecord). k.state) (sym same),
          ground (
            arith,
            guard-true _ _ live,
            ap (λ (k : JobRecord). is_terminal_job_state k.state) mine,
          ),
          (write job, there, refl),
        )
    where
      write : JobRecord → JobRecord
      write j = record j {
        cancel_requested_at = or_else j.cancel_requested_at (some at);
        cancel_reason = or_else j.cancel_reason (some reason);
        updated_at = at;
      }

  -- The answer names the state in which the job stands; it says applied exactly when that is
  -- CANCELLED; and where it changed the state, the state could end locally.
  abbrev pub IsTrue : StrategyCancelResult × List JobLease → Db → Type 0
  IsTrue (r, leases) e =
      Stands id r.state e
      × (r.applied ≡ state_eq r.state JobState.cancelled)
      × (((r.applied ≡ false) × (r.state ≡ job.state)) ⊎ (can_end_locally job.state ≡ true))

  waiting-IsTrue :
      (row : JobRecord) (leases : List JobLease) (why : CancelPending) (e : Db)
      → IsAsked row e
      → IsTrue (waiting id row why, leases) e
  waiting-IsTrue row leases why e (same, live, there) =
      (rw same there, rw same (not_cancelled job.state live), inl (refl, same))

  apply_cancel-IsTrue :
      (context : CancelContext) (reason : Text) (row : JobRecord) (lease : Option JobLease) (e : Db)
      → lease_on id context.leases ≡ lease
      → IsAsked row e
      → After IsTrue (apply_cancel context id reason row lease e)
  unfolding apply_cancel
  apply_cancel-IsTrue context reason row none e own h =
      pure-After IsTrue _ e
        (waiting-IsTrue row context.leases CancelPending.not_leased_by_this_runner e h)
  apply_cancel-IsTrue context reason row (some lease) e own (same, live, there) =
      let here : lease.job_id ≡ id =
        (==_iff _ _).0 (find_test (λ (l : JobLease). l.job_id == id) context.leases own) in
      elim (Bool-cases (can_end_locally row.state)) [
        | inl ends ↦ rw ends (
            bind-After IsTrue _ _ e (call-After _ _ e (transition-Gives _ e))
              (λ cancelled d (to, stands). pure-After IsTrue _ d (
                subst (λ i. Stands i cancelled.state d) here (rw to stands),
                rw to refl,
                inr (rw same at ends),
              )))
        | inr stays ↦ rw stays (
            pure-After IsTrue _ e
              (waiting-IsTrue row context.leases CancelPending.in_flight e (same, live, there)))
      ]

-- A cancellation that returns names the state in which the job then stands, and says applied exactly
-- when that state is CANCELLED; and either it is not applied and the state is as it was, or the
-- state was one that a local decision may end.
pub cancel_strategy-IsTrue :
    (context : CancelContext) (id : ℕ) (reason : Text) (db : Db) (job : JobRecord)
    (r : StrategyCancelResult) (leases : List JobLease)
    → find_job id db ≡ some job
    → (cancel_strategy context id reason db).0 ≡ ok (r, leases)
    → IsTrue id job (r, leases) (cancel_strategy context id reason db).1
unfolding cancel_strategy
cancel_strategy-IsTrue context id reason db job r leases h q =
    After-ok (IsTrue id job) _ (r, leases)
      (bind-After (IsTrue id job) _ _ db
        (call-After _ _ db (request_cancel-Gives id job reason context.at db h))
        (λ row e asked. apply_cancel-IsTrue id job context reason row _ e refl asked))
      q

apply_cancel-IsSafe :
    (context : CancelContext) (id : ℕ) (reason : Text) (row : JobRecord) (lease : Option JobLease)
    → IsSafe (apply_cancel context id reason row lease)
unfolding apply_cancel
apply_cancel-IsSafe context id reason row none = pure-IsSafe _
apply_cancel-IsSafe context id reason row (some lease) =
    if-IsSafe _ (bind-IsSafe _ _ (call-IsSafe _ (transition-Makes _)) (λ c. pure-IsSafe _))
      (pure-IsSafe _)

-- A cancellation writes by changes of the store alone, also where it ends in an error.
pub cancel_strategy-Change :
    (context : CancelContext) (id : ℕ) (reason : Text) (db : Db)
    → Change db (cancel_strategy context id reason db).1
unfolding cancel_strategy
cancel_strategy-Change context id reason db =
    safe_run
      (bind-IsSafe _ _ (call-IsSafe _ (request_cancel-Makes id reason context.at))
        (λ row. apply_cancel-IsSafe context id reason row _))
      db

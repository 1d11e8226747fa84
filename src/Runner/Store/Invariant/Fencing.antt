-- ===== src/Runner/Store/Invariant/Fencing.antt =====
-- The fence of packages/runner/src/sqlite/store.ts: once a job has been claimed again, no call under
-- an earlier lease writes anything, for ever.
use waterx_predict_agent.Base.{
  some_injective, subst, ◌+◌, ◌≤◌, ◌<◌, ◌==◌, ==_refl, Bool, true, false, ◌&&◌, Option, none, some,
  List, find, find-update, find_test, edited, ◌≡◌, refl, sym, ◌∙◌, ap, arith, inl, inr, ◌⊎◌,
  Bool-cases,
}
use mathlib.Core.Option
use waterx_predict_agent.Runner.StateMachine.{is_terminal_job_state}
use waterx_predict_agent.Runner.Job.{RunnerInstance, JobRecord, JobLease}
use waterx_predict_agent.Runner.Store.Db.{
  Db, Result, ok, err, StoreError, ◌>>=◌, find_job, is_job, assert_lease, is_instance,
}
use waterx_predict_agent.Runner.Store.Jobs.{transition}
use waterx_predict_agent.Runner.Store.Leases.{
  ClaimJobInput, claim_job, claim, held_by_another, still_live, renew_lease, release_job,
}
use waterx_predict_agent.Runner.Store.Legs.{reserve_leg, update_leg, commit_mandate_spend}
use waterx_predict_agent.Runner.Store.Effects.{begin_side_effect, complete_side_effect}
use waterx_predict_agent.Runner.Store.Run.{
  Call, registers, beats, stops, creates, asks_cancel, claims, renews, releases, moves, reserves,
  commits, updates, begins, completes, saves, after, step, run,
}
use waterx_predict_agent.Runner.Store.Invariant.History.{run-IsLater}

-- The lease that a call writes under.
abbrev pub lease_of : Call → Option JobLease
lease_of (renews lease at ttl) = some lease
lease_of (releases lease at) = some lease
lease_of (moves input) = some input.lease
lease_of (reserves input) = some input.lease
lease_of (commits input) = some input.lease
lease_of (updates lease i patch at) = some lease
lease_of (begins input) = some input.lease
lease_of (completes input) = some input.lease
lease_of _ = none

-- The job has been claimed since: its fence is past the lease's.
pub record IsStale (lease : JobLease) (db : Db) : Type 0 where
  pub job : JobRecord
  pub found : find_job lease.job_id db ≡ some job
  pub behind : lease.fence < job.lease_fence

stale_lease :
    (lease : JobLease) (db : Db)
    → IsStale lease db
    → assert_lease lease db ≡ err StoreError.lease_lost
unfolding assert_lease ◌>>=◌
stale_lease lease db h = rw h.found (ground (arith, h.behind))

refused {ℓ κ} :
    {A : Type ℓ} {B : Type κ} (db : Db) (m : Result B) (f : B → Result (A × Db)) {x : StoreError}
    → m ≡ err x
    → after db (m >>= f) ≡ db
unfolding ◌>>=◌
refused db (ok b) f h = cc
refused db (err x) f h = refl

stale_call :
    (db : Db) (c : Call) (lease : JobLease)
    → lease_of c ≡ some lease
    → IsStale lease db
    → step db c ≡ db
unfolding step renew_lease release_job transition reserve_leg commit_mandate_spend update_leg
    begin_side_effect complete_side_effect
stale_call db (renews l at ttl) lease e h =
    refused db _ _ (stale_lease l db (subst (λ k. IsStale k db) (sym (some_injective e)) h))
stale_call db (releases l at) lease e h =
    refused db _ _ (stale_lease l db (subst (λ k. IsStale k db) (sym (some_injective e)) h))
stale_call db (moves input) lease e h =
    refused db _ _
      (stale_lease input.lease db (subst (λ k. IsStale k db) (sym (some_injective e)) h))
stale_call db (reserves input) lease e h =
    refused db _ _
      (stale_lease input.lease db (subst (λ k. IsStale k db) (sym (some_injective e)) h))
stale_call db (commits input) lease e h =
    refused db _ _
      (stale_lease input.lease db (subst (λ k. IsStale k db) (sym (some_injective e)) h))
stale_call db (updates l i patch at) lease e h =
    refused db _ _ (stale_lease l db (subst (λ k. IsStale k db) (sym (some_injective e)) h))
stale_call db (begins input) lease e h =
    refused db _ _
      (stale_lease input.lease db (subst (λ k. IsStale k db) (sym (some_injective e)) h))
stale_call db (completes input) lease e h =
    refused db _ _
      (stale_lease input.lease db (subst (λ k. IsStale k db) (sym (some_injective e)) h))
stale_call db (registers input) lease e h = cc
stale_call db (beats id at) lease e h = cc
stale_call db (stops id at) lease e h = cc
stale_call db (creates input) lease e h = cc
stale_call db (asks_cancel id r at) lease e h = cc
stale_call db (claims input) lease e h = cc
stale_call db (saves s c at) lease e h = cc

-- A lease that has been fenced out writes nothing after any further history.
pub run-stale :
    (db : Db) (cs : List Call) (c : Call) (lease : JobLease)
    → IsStale lease db
    → lease_of c ≡ some lease
    → step (run db cs) c ≡ run db cs
run-stale db cs c lease h e =
    let later = run-IsLater db cs lease.job_id h.job h.found in
    stale_call (run db cs) c lease e (record {
      job = later.row;
      found = later.found;
      behind = omega (arith, h.behind, later.fence);
    })

claimed-found :
    (input : ClaimJobInput) (job : JobRecord) (db : Db)
    → find_job input.job_id db ≡ some job
    → (k : JobRecord) × (find_job input.job_id (claim input job db).1 ≡ some k)
      × (k.lease_fence ≡ job.lease_fence + 1)
      × (k.lease_instance_id ≡ some input.instance_id)
claimed-found input job db found = (
  write job,
  find-update hit (is_job input.job_id) write db.jobs (λ k e. refl)
      ∙ ap (Option.map (edited hit write)) found
      ∙ rw (find_test (is_job input.job_id) db.jobs found, ==_refl job.lease_fence),
  refl,
  refl,
)
  where
    hit : JobRecord → Bool
    hit j = is_job input.job_id j && j.lease_fence == job.lease_fence

    write : JobRecord → JobRecord
    write j = record j {
      lease_instance_id = some input.instance_id;
      lease_expires_at = some (input.at + input.lease_ttl_ms);
      lease_fence = job.lease_fence + 1;
      updated_at = input.at;
    }

module _ (input : ClaimJobInput) (db : Db) (i : RunnerInstance) (job : JobRecord)
    (known : find (is_instance input.instance_id) db.instances ≡ some i)
    (found : find_job input.job_id db ≡ some job) where
  -- A claim on a job that is over, or that another instance holds under a lease that is still live,
  -- answers with no lease and changes nothing.
  pub claim_job-refuses :
      (is_terminal_job_state job.state ≡ true)
        ⊎ (held_by_another input.instance_id job.lease_instance_id
              && still_live input.at job.lease_expires_at
            ≡ true)
      → claim_job input db ≡ ok (none, db)
  unfolding claim_job ◌>>=◌
  claim_job-refuses (inl over) = rw (known, found, over)
  claim_job-refuses (inr held) =
      rw (known, found)
        (elim (Bool-cases (is_terminal_job_state job.state)) [
          | inl over ↦ rw over
          | inr live ↦ rw (live, held)
        ])

  -- Any other claim succeeds: it gives a lease that the store accepts, whose fence is one past the
  -- one before, and every lease given out on the job before is fenced out.
  pub claim_job-fences :
      (old : JobLease)
      → is_terminal_job_state job.state ≡ false
      → held_by_another input.instance_id job.lease_instance_id
          && still_live input.at job.lease_expires_at
        ≡ false
      → old.job_id ≡ input.job_id
      → old.fence ≤ job.lease_fence
      → (new : JobLease) × (e : Db) × (claim_job input db ≡ ok (some new, e))
        × (assert_lease new e ≡ ok tt)
        × (new.fence ≡ job.lease_fence + 1)
        × IsStale old e
  unfolding claim_job ◌>>=◌ assert_lease
  claim_job-fences old live free same behind =
      let (k, there, fence, holder) = claimed-found input job db found in
      (
        record {
          job_id = input.job_id;
          instance_id = input.instance_id;
          fence = job.lease_fence + 1;
          expires_at = input.at + input.lease_ttl_ms;
        },
        (claim input job db).1,
        rw (known, found, live, free),
        rw (there, holder, fence, ==_refl input.instance_id, ==_refl (job.lease_fence + 1)),
        refl,
        record { job = k; found = rw same there; behind = omega (arith, fence) },
      )

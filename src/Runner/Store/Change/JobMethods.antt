-- ===== src/Runner/Store/Change/JobMethods.antt =====
-- The instance, job, lease and transition methods make one change each.
use waterx_predict_agent.Base.{
  ℕ, Text, Option, some, none, ◌∷◌, Bool, true, not, ◌&&◌, ◌==◌, ◌+◌, ◌≡◌, ◌≢◌, refl, inl, inr,
  subst, arith, Bool-cases,
}
use waterx_predict_agent.Runner.Job.{JobRecord, JobLease, JobTransitionRecord}
use waterx_predict_agent.Runner.Secrets.{Json}
use waterx_predict_agent.Runner.StateMachine.{JobState, job_states, is_terminal_job_state}
use waterx_predict_agent.Runner.Store.Db.{
  log_entry, max_seq, Db, ok, err, StoreError, append_transition, count_legs, encode_detail,
}
use waterx_predict_agent.Runner.Store.Instances.{
  RegisterInstanceInput, register_instance, heartbeat, stop_instance,
}
use waterx_predict_agent.Runner.Store.Jobs.{
  new_job, insert_job, CreateJobInput, create_job, TransitionInput, transition, request_cancel,
}
use waterx_predict_agent.Runner.Store.Leases.{
  still_live, held_by_another, ClaimJobInput, claim_job, renew_lease, release_job,
}
use waterx_predict_agent.Runner.Store.Change.{
  ok-injective, >>=-eq-ok, guard-true, or_fail-some, Change, Makes, Makes-bind, keep, makes, fails,
  and_then, job_touched, job_claimed, job_moved, job_created, instances_set, IsEntry, IsTouch,
}

append_transition-IsEntry :
    (id : ℕ) (from : Option JobState) (to : JobState) (reason : Text) (inst : Option ℕ) (at : ℕ)
    (detail : Option Json) (db : Db) {e : Db}
    → append_transition id from to reason inst at detail db ≡ ok e
    → (t : JobTransitionRecord) × IsEntry t id from to db.transitions
      × (record db { transitions = t ∷ db.transitions } ≡ e)
unfolding append_transition
append_transition-IsEntry id from to reason inst at detail db {e} h =
    let (encoded, _, q) = >>=-eq-ok (encode_detail detail) _ h in
    (
      log_entry id (max_seq id db.transitions + 1) from to reason inst at encoded,
      record { job_id = refl; from_state = refl; to_state = refl; seq = refl },
      ok-injective q,
    )

pub register_instance-Makes :
    (input : RegisterInstanceInput) (db : Db) → Makes db (register_instance input db)
unfolding register_instance
register_instance-Makes input db = Makes-bind db _ _ λ row found. makes (instances_set _)

pub heartbeat-Makes : (id at : ℕ) (db : Db) → Makes db (heartbeat id at db)
unfolding heartbeat
heartbeat-Makes id at db =
    Makes-bind db _ _ λ old known. Makes-bind db _ _ λ row found. makes (instances_set _)

module _ {j k : JobRecord} where
  same_lease :
      k.job_id ≡ j.job_id
      → k.state ≡ j.state
      → k.terminal_at ≡ j.terminal_at
      → k.lease_fence ≡ j.lease_fence
      → k.lease_instance_id ≡ j.lease_instance_id
      → IsTouch j k
  same_lease a b c d e = record { job_id = a; state = b; terminal_at = c; fence = d; lease = inl e }

  lease_back :
      k.job_id ≡ j.job_id
      → k.state ≡ j.state
      → k.terminal_at ≡ j.terminal_at
      → k.lease_fence ≡ j.lease_fence
      → k.lease_instance_id ≡ none
      → IsTouch j k
  lease_back a b c d e = record { job_id = a; state = b; terminal_at = c; fence = d; lease = inr e }

pub stop_instance-Makes : (id at : ℕ) (db : Db) → Makes db (stop_instance id at db)
unfolding stop_instance
stop_instance-Makes id at db =
    makes (and_then (job_touched _ _ λ j. lease_back refl refl refl refl refl) (instances_set _))

pub request_cancel-Makes :
    (id : ℕ) (reason : Text) (at : ℕ) (db : Db) → Makes db (request_cancel id reason at db)
unfolding request_cancel
request_cancel-Makes id reason at db = Makes-bind db _ _ λ job found. Makes-bind db _ _ λ _ live.
    Makes-bind db _ _ λ row again. makes (job_touched _ _ λ j. same_lease refl refl refl refl refl)

pub renew_lease-Makes :
    (lease : JobLease) (at ttl : ℕ) (db : Db) → Makes db (renew_lease lease at ttl db)
unfolding renew_lease
renew_lease-Makes lease at ttl db =
    Makes-bind db _ _ λ _ held. makes (job_touched _ _ λ j. same_lease refl refl refl refl refl)

pub release_job-Makes : (lease : JobLease) (at : ℕ) (db : Db) → Makes db (release_job lease at db)
unfolding release_job
release_job-Makes lease at db =
    Makes-bind db _ _ λ _ held. makes (job_touched _ _ λ j. lease_back refl refl refl refl refl)

pub claim_job-Makes : (input : ClaimJobInput) (db : Db) → Makes db (claim_job input db)
unfolding claim_job
claim_job-Makes input db = Makes-bind db _ _ λ _ known. Makes-bind db _ _ λ job found.
    elim (Bool-cases (is_terminal_job_state job.state)) [
      | inl over ↦ rw over (makes keep)
      | inr live ↦
          elim (Bool-cases (
            held_by_another input.instance_id job.lease_instance_id
            && still_live input.at job.lease_expires_at)) [
              | inl busy ↦ rw (live, busy) (makes keep)
              | inr free ↦
                  rw (live, free)
                    (makes (
                      job_claimed _ _ input.job_id job (or_fail-some _ _ found) live λ j hit. (
                        ground arith,
                        record {
                          job_id = refl;
                          state = refl;
                          terminal_at = refl;
                          fence = ground arith;
                        },
                      )))
            ]
    ]

pub insert_job-Makes :
    (input : CreateJobInput) (expires_at : ℕ) (db : Db) → Makes db (insert_job input expires_at db)
unfolding insert_job
insert_job-Makes input x db = Makes-bind db _ _ λ _ absent. Makes-bind db _ _ λ e appended.
    Makes-bind db _ _ λ row again.
      let (t, entry, q) =
        append_transition-IsEntry input.job_id none JobState.draft _ none input.at none
          (record db { jobs = new_job input x ∷ db.jobs }) appended in
      makes (
        subst (Change db) q (
          job_created (new_job input x) t (ground (arith, guard-true _ _ absent))
            (record { state = refl; terminal_at = refl; lease = refl }) entry))

pub create_job-Makes : (input : CreateJobInput) (db : Db) → Makes db (create_job input db)
unfolding create_job
create_job-Makes input db = Makes-bind db _ _ λ _ legs. with_expiry input.expires_at
  where
    with_expiry :
        (e : Option ℕ)
        → Makes db (elim e [
          | none ↦ err StoreError.invalid_input
          | some expires_at ↦ insert_job input expires_at db
        ])
    with_expiry none = fails
    with_expiry (some x) = insert_job-Makes input x db

allowed :
    (input : TransitionInput) (needs : Bool) (db : Db)
    → not (needs && count_legs input.lease.job_id db == 0) ≡ true
    → needs ≡ true
    → count_legs input.lease.job_id db ≢ 0
allowed input needs db h n = ground arith

pub transition-Makes : (input : TransitionInput) (db : Db) → Makes db (transition input db)
unfolding transition
transition-Makes input db = Makes-bind db _ _ λ _ held. Makes-bind db _ _ λ job found.
    Makes-bind db _ _ λ _ edge. Makes-bind db _ _ λ _ legs. Makes-bind db _ _ λ e appended.
      Makes-bind db _ _ λ row again.
        let (t, entry, q) =
          append_transition-IsEntry input.lease.job_id (some job.state) input.to _ _ input.at
            input.detail _ appended in
        makes (
          subst (Change db) q (
            job_moved input.lease.job_id job input.to input.at t (or_fail-some _ _ found)
              (guard-true _ _ edge)
              (allowed input (job_states input.to).requires_leg db (guard-true _ _ legs)) entry))

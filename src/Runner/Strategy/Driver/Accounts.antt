-- ===== src/Runner/Strategy/Driver/Accounts.antt =====
-- `driveJob` of packages/runner/src/strategy/driver.ts: what a pass writes, sends and reports, from any
-- state of the job and whatever is answered.
use waterx_predict_agent.Base.{
  [], ◌∷◌, ◌∷◌, ℕ, All-map, All, List, Option, none, some, ◌≡◌, refl, sym, ==_iff, find_test, inl,
  inr,
}
use waterx_predict_agent.Runner.StateMachine.{JobState, can_end_locally, is_terminal_job_state}
use waterx_predict_agent.Runner.Job.{SideEffectAttempt, JobLeg, JobRecord}
use waterx_predict_agent.Runner.Store.Db.{find_job, is_job, ok}
use waterx_predict_agent.Runner.Store.Jobs.{get_job}
use waterx_predict_agent.Runner.Store.Change.{Change}
use waterx_predict_agent.Runner.Store.Gives.{Stands}
use waterx_predict_agent.Runner.Store.Invariant.{IsKeyed, IsKeyAt, IsLedger}
use waterx_predict_agent.Runner.Strategy.World.Backed.{Has, Backs}
use waterx_predict_agent.Runner.Store.Invariant.Legs.{Change-IsLedger}
use waterx_predict_agent.Runner.Strategy.World.{Act, Payload, Sent, World, ◌>>=◌}
use waterx_predict_agent.Runner.Strategy.World.Ran.{
  Ran, Ran-Steps, Ran-ok, Steps-Change, Steps-IsAccounted, IsAccounted, bind-Ran, pure-Ran,
  throw-Ran, if-Ran, query-Ran,
}
use waterx_predict_agent.Runner.Strategy.Driver.{Outside, DriveJobOptions, DriveResult}
use waterx_predict_agent.Runner.Strategy.Driver.Endings.{end_locally}
use waterx_predict_agent.Runner.Strategy.Driver.Pass.{
  arm, advance, advance_from, unless_said, advance_unless_refused, check_locally, drive_known,
  drive_job, in_doubt,
}
use waterx_predict_agent.Runner.Strategy.Driver.Told.{
  At, IsTold, IsToldOr, move-Ran, end_locally-Ran, refuse_locally-Ran,
}
use waterx_predict_agent.Runner.Strategy.Driver.Asked.{same_keys, onward-IsLedger}
use waterx_predict_agent.Runner.Strategy.Driver.Executed.{reconcile_pass-Ran}
use waterx_predict_agent.Runner.Strategy.Driver.Drives.{watch_pass-Ran, act_pass-Ran}

module _ (o : DriveJobOptions) where
  arm-Ran : (job : JobRecord) (w : World) → Ran o.outside (IsTold o) w (arm o job w)
  unfolding arm
  arm-Ran job w =
      bind-Ran o.outside _ _ _ (move-Ran o _ _ _ w) (λ u v s h. pure-Ran o.outside _ v _ h)

  advance_from-Ran :
      (job : JobRecord) (state : JobState) (w : World)
      → job.state ≡ state
      → job.job_id ≡ o.lease.job_id
      → IsLedger w.db
      → At o job.state w
      → Ran o.outside (IsTold o) w (advance_from o job state w)
  advance_from-Ran job JobState.draft w e same ledger h = arm-Ran job w
  advance_from-Ran job JobState.watching w e same ledger h =
      watch_pass-Ran o job w same (inl e) ledger h
  advance_from-Ran job JobState.paused w e same ledger h =
      watch_pass-Ran o job w same (inr e) ledger h
  advance_from-Ran job JobState.triggered w e same ledger h = act_pass-Ran o job w same ledger
  advance_from-Ran job JobState.quoting w e same ledger h = pure-Ran o.outside _ w _ h
  advance_from-Ran job JobState.creating w e same ledger h = pure-Ran o.outside _ w _ h
  advance_from-Ran job JobState.awaiting_signature w e same ledger h = pure-Ran o.outside _ w _ h
  advance_from-Ran job JobState.submitting w e same ledger h = pure-Ran o.outside _ w _ h
  advance_from-Ran job JobState.submitted w e same ledger h = pure-Ran o.outside _ w _ h
  advance_from-Ran job JobState.reconciling w e same ledger h = pure-Ran o.outside _ w _ h
  advance_from-Ran job JobState.unknown_pending w e same ledger h = pure-Ran o.outside _ w _ h
  advance_from-Ran job JobState.filled w e same ledger h = pure-Ran o.outside _ w _ h
  advance_from-Ran job JobState.failed w e same ledger h = pure-Ran o.outside _ w _ h
  advance_from-Ran job JobState.cancelled w e same ledger h = pure-Ran o.outside _ w _ h
  advance_from-Ran job JobState.expired w e same ledger h = pure-Ran o.outside _ w _ h

  unless_said-Ran :
      (state : JobState) (said : Option DriveResult) (rest : Act DriveResult) (w : World)
      → IsToldOr o state said w
      → (At o state w → Ran o.outside (IsTold o) w (rest w))
      → Ran o.outside (IsTold o) w (unless_said o said rest w)
  unless_said-Ran state none rest w h k = k h
  unless_said-Ran state (some r) rest w h k = pure-Ran o.outside _ w _ h

  check_locally-Ran :
      (job : JobRecord) (w : World)
      → job.job_id ≡ o.lease.job_id
      → IsLedger w.db
      → At o job.state w
      → Ran o.outside (IsTold o) w (check_locally o job w)
  unfolding check_locally advance
  check_locally-Ran job w same ledger h =
      if-Ran o.outside _ w (can_end_locally job.state)
        (end_locally o job >>= λ ended. unless_said o ended (advance_unless_refused o job)) _
        (λ e. bind-Ran o.outside _ _ _ (end_locally-Ran o job w h) (λ ended v s told.
          unless_said-Ran job.state ended _ v told (λ there.
            bind-Ran o.outside _ _ _ (refuse_locally-Ran o job v there) (λ refused v' t said.
              unless_said-Ran job.state refused _ v' said (
                advance_from-Ran job job.state v' refl same
                  (onward-IsLedger o t (onward-IsLedger o s ledger)))))))
        (λ e. advance_from-Ran job job.state w refl same ledger h)

  drive_known-Ran :
      (job : Option JobRecord) (w : World)
      → find_job o.lease.job_id w.db ≡ job
      → IsLedger w.db
      → Ran o.outside (IsTold o) w (drive_known o job w)
  unfolding drive_known
  drive_known-Ran none w e ledger = throw-Ran o.outside _ w _
  drive_known-Ran (some job) w e ledger =
      let there : At o job.state w = (job, e, refl) in
      let same : job.job_id ≡ o.lease.job_id =
        (==_iff _ _).0 (find_test (is_job o.lease.job_id) w.db.jobs e) in
      if-Ran o.outside _ w (is_terminal_job_state job.state) _ _
        (λ t. pure-Ran o.outside _ w _ there)
        (λ t.
          if-Ran o.outside _ w (in_doubt job.state) _ _
            (λ d. reconcile_pass-Ran o job.state job w same ledger)
            (λ d. check_locally-Ran job w same ledger there))

  pub drive_job-Ran : (w : World) → IsLedger w.db → Ran o.outside (IsTold o) w (drive_job o w)
  unfolding drive_job get_job
  drive_job-Ran w ledger =
      bind-Ran o.outside _ _ _ (query-Ran o.outside w _)
        (λ job v s (q, e). drive_known-Ran job v (rw e (sym q)) (onward-IsLedger o s ledger))

-- A pass over a sound ledger writes by changes of the store alone, also where it fails half-way.
pub drive_job-Change :
    (o : DriveJobOptions) (w : World) → IsLedger w.db → Change w.db (drive_job o w).1.db
drive_job-Change o w ledger =
    Steps-Change o.outside (Ran-Steps o.outside (drive_job-Ran o w ledger))

-- From a sound ledger that has an attempt for each request sent so far, a pass leaves one that has an
-- attempt for each request sent by then: of the same leg and kind, with the fingerprint of the
-- request and, for a create, with its key; also where the pass fails half-way.
pub drive_job-IsAccounted :
    (o : DriveJobOptions) (w : World)
    → IsLedger w.db
    → IsAccounted o.outside w
    → IsAccounted o.outside (drive_job o w).1
drive_job-IsAccounted o w ledger h =
    Steps-IsAccounted o.outside (Ran-Steps o.outside (drive_job-Ran o w ledger)) h

-- A pass over a sound ledger that returns tells the truth: the job stands in the store in the state
-- that the result names.
pub drive_job-Stands :
    (o : DriveJobOptions) (w : World) (r : DriveResult)
    → IsLedger w.db
    → (drive_job o w).0 ≡ ok r
    → Stands o.lease.job_id r.to (drive_job o w).1.db
drive_job-Stands o w r ledger h = Ran-ok o.outside (drive_job o w) r (drive_job-Ran o w ledger) h

abbrev IsSameKey : Payload → Payload → Type 0
IsSameKey (Payload.create k body) (Payload.create n other) = k ≡ n
IsSameKey _ _ = Unit

-- Two creates of one leg carry one key.
abbrev pub IsOneOrder : Sent → Sent → Type 0
IsOneOrder s t = s.job_id ≡ t.job_id → s.leg_index ≡ t.leg_index → IsSameKey s.payload t.payload

abbrev IsKeptKey : List JobLeg → ℕ → ℕ → Payload → Type 0
IsKeptKey legs id i (Payload.create k body) = IsKeyAt legs id i k
IsKeptKey legs id i (Payload.submit execution signature) = Unit

module _ (o : Outside) where
  backed_key :
      (legs : List JobLeg) (id i : ℕ) (p : Payload) (effects : List SideEffectAttempt)
      → All (IsKeyed legs) effects
      → Has (Backs o (record { job_id = id; leg_index = i; payload = p })) effects
      → IsKeptKey legs id i p
  backed_key legs id i p [] k h = elim h [ ]
  backed_key legs id i p (a ∷ rest) k (inr h) = backed_key legs id i p rest k.1 h
  backed_key legs id i (Payload.create n body) (a ∷ rest) k (inl (job, leg, (kind, key, print))) =
      rw (job, leg, key) at k.0
  backed_key legs id i (Payload.submit execution signature) (a ∷ rest) k (inl h) = tt

  kept_keys :
      (legs : List JobLeg) (id i : ℕ) (p q : Payload)
      → IsKeptKey legs id i p
      → IsKeptKey legs id i q
      → IsSameKey p q
  kept_keys legs id i (Payload.create k body) (Payload.create n other) h g =
      same_keys legs id i k n h g
  kept_keys legs id i (Payload.create k body) (Payload.submit execution signature) h g = tt
  kept_keys legs id i (Payload.submit execution signature) q h g = tt

  pub accounted_keys :
      (w : World) → IsLedger w.db → IsAccounted o w → All (λ s. All (IsOneOrder s) w.sent) w.sent
  accounted_keys w ledger h =
      let keys : All (λ (s : Sent). IsKeptKey w.db.legs s.job_id s.leg_index s.payload) w.sent =
        All-map
          (λ s b. backed_key w.db.legs s.job_id s.leg_index s.payload w.db.effects ledger.keyed b)
          w.sent h in
      All-map
        (λ s k.
          All-map
            (λ t n job leg.
              kept_keys w.db.legs t.job_id t.leg_index s.payload t.payload (rw (job, leg) at k) n)
            w.sent keys)
        w.sent keys

-- From a sound ledger that accounts for what was sent so far, and behind any pass, no matter how it
-- ends: all the creates that ever left for one leg of one job carry one idempotency key.
pub drive_job-IsOneOrder :
    (o : DriveJobOptions) (w : World)
    → IsLedger w.db
    → IsAccounted o.outside w
    → All (λ s. All (IsOneOrder s) (drive_job o w).1.sent) (drive_job o w).1.sent
drive_job-IsOneOrder o w ledger h =
    accounted_keys o.outside (drive_job o w).1
      (Change-IsLedger (drive_job-Change o w ledger) ledger) (drive_job-IsAccounted o w ledger h)

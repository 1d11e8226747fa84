-- ===== src/Runner/Strategy/Driver/Told.antt =====
-- The endings of packages/runner/src/strategy/driver.ts: what they write, and that the report names
-- the state in which the job stands.
use waterx_predict_agent.Base.{◌≡◌, codes, any, subst, ℕ, not, Option, none, some, List, Text, leb}
use waterx_predict_agent.Runner.StateMachine.{JobState, state_eq, can_transition}
use waterx_predict_agent.Runner.StateMachine.Edges.{state_eq_iff}
use waterx_predict_agent.Runner.Secrets.{Json}
use waterx_predict_agent.Runner.Job.{JobRecord}
use waterx_predict_agent.Runner.Store.Db.{Db, Result, ok, err}
use waterx_predict_agent.Runner.Store.Gives.{Gives, gives, refuses, Stands, transition-Gives}
use waterx_predict_agent.Runner.Store.Change.JobMethods.{transition-Makes}
use waterx_predict_agent.Runner.Reconciler.Passed.{reconcile_job-Change}
use waterx_predict_agent.Runner.Reconciler.Report.{reconcile_job-replayable, reconcile_job-Stands}
use waterx_predict_agent.Runner.Reconciler.{ReconcileDisposition, ReconcileResult}
use waterx_predict_agent.Runner.Strategy.World.{World}
use waterx_predict_agent.Runner.Strategy.World.Ran.{
  Ran, bind-Ran, pure-Ran, if-Ran, store-Ran, timed-Ran,
}
use waterx_predict_agent.Runner.Strategy.Preflight.{Entries, PreflightVerdict, PreparedLeg}
use waterx_predict_agent.Runner.Strategy.Driver.{DriveAction, DriveJobOptions, DriveResult}
use waterx_predict_agent.Runner.Strategy.Driver.Endings.{
  is_retryable, move, stop, pause, end_from, end_locally, unless_expired, refuse, refuse_locally,
  none_left, none_left_as, unknown, reconcile, reconcile_plain, reconciled_as,
}

pub any-Gives : {A : Type 0} (r : Result (A × Db)) → Gives {A = A} (λ a e. Unit) r
any-Gives (ok (a, e)) = gives tt
any-Gives (err x) = refuses

module _ (o : DriveJobOptions) where
  abbrev pub At : JobState → World → Type 0
  At s w = Stands o.lease.job_id s w.db

  -- The report names the state in which the job stands.
  abbrev pub IsTold : DriveResult → World → Type 0
  IsTold r v = At r.to v

  -- Where there is no report the job stands where it did.
  abbrev pub IsToldOr : JobState → Option DriveResult → World → Type 0
  IsToldOr s none v = At s v
  IsToldOr s (some r) v = IsTold r v

  pub move-Ran :
      (to : JobState) (reason : Text) (detail : Option Json) (w : World)
      → Ran o.outside (λ u v. At to v) w (move o to reason detail w)
  unfolding move
  move-Ran to reason detail w =
      bind-Ran o.outside _ _ _
        (store-Ran o.outside w _ _ (transition-Makes _ w.db) (transition-Gives _ w.db))
        (λ row v s (same, there). pure-Ran o.outside _ v tt there)

  pub stop-Ran :
      (job : JobRecord) (reason : Text) (detail : Entries) (w : World)
      → Ran o.outside IsTold w (stop o job reason detail w)
  unfolding stop
  stop-Ran job reason detail w =
      bind-Ran o.outside _ _ _ (move-Ran _ _ _ w) (λ u v s h. pure-Ran o.outside _ v _ h)

  pub pause-Ran :
      (job : JobRecord) (reason : Text) (detail : Entries) (w : World)
      → At job.state w
      → Ran o.outside IsTold w (pause o job reason detail w)
  unfolding pause
  pause-Ran job reason detail w h =
      if-Ran o.outside _ w (state_eq job.state JobState.paused) _ _
        (λ e.
          pure-Ran o.outside _ w _
            (subst (λ s. At s w) ((state_eq_iff job.state JobState.paused).0 e) h))
        (λ e.
          if-Ran o.outside _ w (not (can_transition job.state JobState.paused)) _ _
            (λ f. pure-Ran o.outside _ w _ h)
            (λ f.
              bind-Ran o.outside _ _ _ (move-Ran _ _ _ w) (λ u v s t. pure-Ran o.outside _ v _ t)))

  unless_expired-Ran :
      (job : JobRecord) (w : World)
      → At job.state w
      → Ran o.outside (IsToldOr job.state) w (unless_expired o job w)
  unless_expired-Ran job w h =
      if-Ran o.outside _ w (leb job.expires_at o.at) _ _
        (λ e. bind-Ran o.outside _ _ _ (move-Ran _ _ _ w) (λ u v s t. pure-Ran o.outside _ v _ t))
        (λ e. pure-Ran o.outside _ w _ h)

  end_from-Ran :
      (job : JobRecord) (requested : Option ℕ) (w : World)
      → At job.state w
      → Ran o.outside (IsToldOr job.state) w (end_from o job requested w)
  unfolding end_from
  end_from-Ran job (some at) w h =
      bind-Ran o.outside _ _ _ (move-Ran _ _ _ w) (λ u v s t. pure-Ran o.outside _ v _ t)
  end_from-Ran job none w h = unless_expired-Ran job w h

  pub end_locally-Ran :
      (job : JobRecord) (w : World)
      → At job.state w
      → Ran o.outside (IsToldOr job.state) w (end_locally o job w)
  unfolding end_locally
  end_locally-Ran job w h = end_from-Ran job job.cancel_requested_at w h

  refuse-Ran :
      (job : JobRecord) (verdict : Option PreflightVerdict) (w : World)
      → At job.state w
      → Ran o.outside (IsToldOr job.state) w (refuse o job verdict w)
  unfolding refuse
  refuse-Ran job none w h = pure-Ran o.outside _ w _ h
  refuse-Ran job (some (PreflightVerdict.proceed legs)) w h = pure-Ran o.outside _ w _ h
  refuse-Ran job (some (PreflightVerdict.stop reason detail)) w h =
      bind-Ran o.outside _ _ _ (stop-Ran job _ detail w) (λ r v s t. pure-Ran o.outside _ v _ t)
  refuse-Ran job (some (PreflightVerdict.pause reason detail)) w h =
      bind-Ran o.outside _ _ _ (pause-Ran job _ detail w h) (λ r v s t. pure-Ran o.outside _ v _ t)

  pub refuse_locally-Ran :
      (job : JobRecord) (w : World)
      → At job.state w
      → Ran o.outside (IsToldOr job.state) w (refuse_locally o job w)
  unfolding refuse_locally
  refuse_locally-Ran job w h = refuse-Ran job _ w h

  none_left_as-Ran :
      (job : JobRecord) (legs : List PreparedLeg) (to : JobState) (action : DriveAction)
      (reason : Text) (w : World)
      → Ran o.outside IsTold w (none_left_as o job legs to action reason w)
  none_left_as-Ran job legs to action reason w =
      bind-Ran o.outside _ _ _ (move-Ran to _ _ w) (λ u v s t. pure-Ran o.outside _ v _ t)

  pub none_left-Ran :
      (job : JobRecord) (legs : List PreparedLeg) (w : World)
      → Ran o.outside IsTold w (none_left o job legs w)
  unfolding none_left
  none_left-Ran job legs w =
      if-Ran o.outside _ w (any (λ (leg : PreparedLeg). is_retryable leg.skip) legs)
        (none_left_as o job legs JobState.watching DriveAction.rearmed (codes "NO_LEG_QUALIFIED"))
        (none_left_as o job legs JobState.failed DriveAction.ended (codes "NO_LEG_CAN_QUALIFY"))
        (λ e. none_left_as-Ran job legs _ _ _ w) (λ e. none_left_as-Ran job legs _ _ _ w)

  pub unknown-Ran :
      (job : JobRecord) (from : JobState) (reason : Text) (detail : Entries) (w : World)
      → Ran o.outside IsTold w (unknown o job from reason detail w)
  unfolding unknown
  unknown-Ran job from reason detail w =
      bind-Ran o.outside _ _ _ (move-Ran _ _ _ w) (λ u v s t. pure-Ran o.outside _ v _ t)

  pub reconcile-Ran :
      (w : World)
      → Ran o.outside
          (λ (r : ReconcileResult) v.
            At r.to v
            × (r.disposition ≡ ReconcileDisposition.replayable → r.to ≡ JobState.reconciling))
          w
          (reconcile o w)
  unfolding reconcile
  reconcile-Ran w =
      timed-Ran o.outside w
        (λ r e.
          Stands o.lease.job_id r.to e
          × (r.disposition ≡ ReconcileDisposition.replayable → r.to ≡ JobState.reconciling))
        _ (reconcile_job-Change _ w.db)
        (λ r h. (reconcile_job-Stands _ w.db r h, reconcile_job-replayable _ w.db r h))

  pub reconcile_plain-Ran :
      (from : JobState) (w : World) → Ran o.outside IsTold w (reconcile_plain o from w)
  unfolding reconcile_plain reconciled_as
  reconcile_plain-Ran from w =
      bind-Ran o.outside _ _ _ (reconcile-Ran w) (λ r v s t. pure-Ran o.outside _ v _ t.0)

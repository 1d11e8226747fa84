-- ===== src/Runner/Strategy/Driver/Drives.antt =====
-- The watch and the act pass of packages/runner/src/strategy/driver.ts, whole.
use waterx_predict_agent.Base.{inr, codes, inl, ◌⊎◌, List, [], ◌∷◌, Text, Option, none, some, ◌≡◌}
use waterx_predict_agent.Runner.StateMachine.{JobState}
use waterx_predict_agent.Runner.Job.{JobRecord, JobTrigger, TriggerKind}
use waterx_predict_agent.Runner.Store.Invariant.{IsLedger}
use waterx_predict_agent.Runner.Strategy.Gateway.{WatchKey}
use waterx_predict_agent.Runner.Strategy.World.{pure, World}
use waterx_predict_agent.Runner.Strategy.World.Ran.{Ran, bind-Ran, pure-Ran}
use waterx_predict_agent.Runner.Strategy.World.Reads.{
  IsRead, read_run, bind-IsRead, pure-IsRead, ask-IsRead, of_result-IsRead,
}
use waterx_predict_agent.Runner.Strategy.Preflight.{PreflightVerdict, PreparedLeg}
use waterx_predict_agent.Runner.Strategy.Preflight.Asks.{check_markets-IsRead, preflight-IsRead}
use waterx_predict_agent.Runner.Strategy.Driver.{DriveJobOptions, QuotedLeg, watch_key_of}
use waterx_predict_agent.Runner.Strategy.Driver.Resume.{Priced}
use waterx_predict_agent.Runner.Strategy.Driver.Pass.{
  Observation, reached, waiting, undrivable, observe_price, watch_price, observe, quote_all,
  execute_quoted, quote_and_execute, act_on, act_pass, after_observing, back_to_watching,
  watch_runnable, watch_on, watch_pass,
}
use waterx_predict_agent.Runner.Strategy.Driver.Told.{
  At, IsTold, move-Ran, stop-Ran, pause-Ran, none_left-Ran,
}
use waterx_predict_agent.Runner.Strategy.Driver.Asked.{onward-IsLedger}
use waterx_predict_agent.Runner.Strategy.Driver.Executed.{execute-Ran, quote_leg-IsRead}

module _ (o : DriveJobOptions) where
  observe_price-IsRead :
      (t : JobTrigger) (watch : WatchKey) (target : Text) (price : Option Text)
      → IsRead o.outside (observe_price o t watch target price)
  observe_price-IsRead t watch target none = pure-IsRead o.outside _
  observe_price-IsRead t watch target (some observed) =
      bind-IsRead o.outside _ _ (of_result-IsRead o.outside _) (λ met. pure-IsRead o.outside _)

  watch_price-IsRead :
      (t : JobTrigger) (watch : Option WatchKey) (target : Option Text)
      → IsRead o.outside (watch_price o t watch target)
  watch_price-IsRead t (some watch) (some target) =
      bind-IsRead o.outside _ _ (ask-IsRead o.outside _)
        (λ price. observe_price-IsRead t watch target price)
  watch_price-IsRead t none target = pure-IsRead o.outside _
  watch_price-IsRead t (some watch) none = pure-IsRead o.outside _

  observe-IsRead : (job : JobRecord) → IsRead o.outside (observe o job)
  unfolding observe
  observe-IsRead job = by_kind job.trigger.kind
    where
      by_kind :
          (kind : TriggerKind)
          → IsRead o.outside (elim kind [
            | TriggerKind.immediate ↦ pure (reached (codes "IMMEDIATE") [])
            | TriggerKind.price ↦
                watch_price o job.trigger (watch_key_of job) job.trigger.target_price
          ])
      by_kind TriggerKind.immediate = pure-IsRead o.outside _
      by_kind TriggerKind.price = watch_price-IsRead job.trigger _ _

  quote_all-IsRead :
      (job : JobRecord) (legs : List PreparedLeg) (p : Priced)
      → IsRead o.outside (quote_all o job legs p)
  unfolding quote_all
  quote_all-IsRead job [] p = pure-IsRead o.outside _
  quote_all-IsRead job (leg ∷ rest) p =
      bind-IsRead o.outside _ _ (quote_leg-IsRead o job leg.leg_index leg.intent p)
        (λ q. quote_all-IsRead job rest q)

  execute_quoted-Ran :
      (job : JobRecord) (quoted : List QuotedLeg) (skipped : List PreparedLeg) (w : World)
      → job.job_id ≡ o.lease.job_id
      → IsLedger w.db
      → Ran o.outside (IsTold o) w (execute_quoted o job quoted skipped w)
  execute_quoted-Ran job [] skipped w same ledger = none_left-Ran o _ skipped w
  execute_quoted-Ran job (l ∷ ls) skipped w same ledger =
      execute-Ran o job (l ∷ ls) skipped w same ledger

  quote_and_execute-Ran :
      (job : JobRecord) (legs wanted : List PreparedLeg) (w : World)
      → job.job_id ≡ o.lease.job_id
      → IsLedger w.db
      → Ran o.outside (IsTold o) w (quote_and_execute o job legs wanted w)
  unfolding quote_and_execute
  quote_and_execute-Ran job legs [] w same ledger = none_left-Ran o job legs w
  quote_and_execute-Ran job legs (a ∷ rest) w same ledger =
      bind-Ran o.outside _ _ _ (move-Ran o _ _ _ w) (λ u w₁ s₁ h.
        bind-Ran o.outside _ _ _ (read_run o.outside (quote_all-IsRead job (a ∷ rest) _) w₁)
          (λ p w₂ s₂ e.
            execute_quoted-Ran job p.quoted p.skipped w₂ same
              (onward-IsLedger o s₂ (onward-IsLedger o s₁ ledger))))

  act_on-Ran :
      (job : JobRecord) (v : PreflightVerdict) (w : World)
      → job.job_id ≡ o.lease.job_id
      → IsLedger w.db
      → Ran o.outside (IsTold o) w (act_on o job v w)
  unfolding act_on
  act_on-Ran job (PreflightVerdict.stop reason detail) w same ledger = stop-Ran o job _ detail w
  act_on-Ran job (PreflightVerdict.pause reason detail) w same ledger =
      bind-Ran o.outside _ _ _ (move-Ran o _ _ _ w) (λ u v s h. pure-Ran o.outside _ v _ h)
  act_on-Ran job (PreflightVerdict.proceed legs) w same ledger =
      quote_and_execute-Ran job legs _ w same ledger

  pub act_pass-Ran :
      (job : JobRecord) (w : World)
      → job.job_id ≡ o.lease.job_id
      → IsLedger w.db
      → Ran o.outside (IsTold o) w (act_pass o job w)
  unfolding act_pass
  act_pass-Ran job w same ledger =
      bind-Ran o.outside _ _ _ (read_run o.outside (preflight-IsRead o.outside job o.at) w)
        (λ v u s e. act_on-Ran job v u same (onward-IsLedger o s ledger))

  after_observing-Ran :
      (job : JobRecord) (seen : Observation) (w : World)
      → job.job_id ≡ o.lease.job_id
      → IsLedger w.db
      → At o JobState.watching w
      → Ran o.outside (IsTold o) w (after_observing o job seen w)
  unfolding after_observing
  after_observing-Ran job (waiting reason detail) w same ledger h = pure-Ran o.outside _ w _ h
  after_observing-Ran job (undrivable reason detail) w same ledger h = pure-Ran o.outside _ w _ h
  after_observing-Ran job (reached reason detail) w same ledger h =
      bind-Ran o.outside _ _ _ (move-Ran o _ _ _ w) (λ u v s k.
        bind-Ran o.outside _ _ _ (act_pass-Ran _ v same (onward-IsLedger o s ledger))
          (λ acted v' t told. pure-Ran o.outside _ v' _ told))

  -- Behind the resumption of a paused job it stands in WATCHING.
  back_to_watching-Ran :
      (job : JobRecord) (w : World)
      → (job.state ≡ JobState.watching) ⊎ (job.state ≡ JobState.paused)
      → At o job.state w
      → Ran o.outside (λ u v. At o JobState.watching v) w (back_to_watching o job w)
  unfolding back_to_watching
  back_to_watching-Ran job w (inl e) h = rw e (pure-Ran o.outside _ w tt (rw e at h))
  back_to_watching-Ran job w (inr e) h = rw e (move-Ran o _ _ _ w)

  watch_runnable-Ran :
      (job : JobRecord) (w : World)
      → job.job_id ≡ o.lease.job_id
      → (job.state ≡ JobState.watching) ⊎ (job.state ≡ JobState.paused)
      → IsLedger w.db
      → At o job.state w
      → Ran o.outside (IsTold o) w (watch_runnable o job w)
  unfolding watch_runnable
  watch_runnable-Ran job w same state ledger h =
      bind-Ran o.outside _ _ _ (back_to_watching-Ran job w state h) (λ u v s k.
        bind-Ran o.outside _ _ _ (read_run o.outside (observe-IsRead job) v) (λ seen v' t e.
          after_observing-Ran job seen v' same (onward-IsLedger o t (onward-IsLedger o s ledger))
            (rw e k)))

  watch_on-Ran :
      (job : JobRecord) (v : Option PreflightVerdict) (w : World)
      → job.job_id ≡ o.lease.job_id
      → (job.state ≡ JobState.watching) ⊎ (job.state ≡ JobState.paused)
      → IsLedger w.db
      → At o job.state w
      → Ran o.outside (IsTold o) w (watch_on o job v w)
  unfolding watch_on
  watch_on-Ran job none w same state ledger h = watch_runnable-Ran job w same state ledger h
  watch_on-Ran job (some (PreflightVerdict.proceed legs)) w same state ledger h =
      watch_runnable-Ran job w same state ledger h
  watch_on-Ran job (some (PreflightVerdict.stop reason detail)) w same state ledger h =
      stop-Ran o job _ detail w
  watch_on-Ran job (some (PreflightVerdict.pause reason detail)) w same state ledger h =
      pause-Ran o job _ detail w h

  pub watch_pass-Ran :
      (job : JobRecord) (w : World)
      → job.job_id ≡ o.lease.job_id
      → (job.state ≡ JobState.watching) ⊎ (job.state ≡ JobState.paused)
      → IsLedger w.db
      → At o job.state w
      → Ran o.outside (IsTold o) w (watch_pass o job w)
  unfolding watch_pass
  watch_pass-Ran job w same state ledger h =
      bind-Ran o.outside _ _ _ (read_run o.outside (check_markets-IsRead o.outside job) w)
        (λ v u s e. watch_on-Ran job v u same state (onward-IsLedger o s ledger) (rw e h))

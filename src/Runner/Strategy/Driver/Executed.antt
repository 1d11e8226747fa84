-- ===== src/Runner/Strategy/Driver/Executed.antt =====
-- `execute`, `resume` and `reconcilePass` of packages/runner/src/strategy/driver.ts, whole.
use waterx_predict_agent.Base.{ℕ, List, [], ◌∷◌, Option, none, some, ◌≡◌, refl, leb}
use waterx_predict_agent.Runner.StateMachine.{JobState}
use waterx_predict_agent.Runner.Job.{JobLeg, JobRecord, JobLegIntent}
use waterx_predict_agent.Runner.Reconciler.{ReconcileDisposition, ReconcileResult}
use waterx_predict_agent.Runner.Store.Invariant.{IsLedger}
use waterx_predict_agent.Runner.Strategy.World.{World, ◌>>=◌}
use waterx_predict_agent.Runner.Strategy.World.Ran.{Ran, bind-Ran, pure-Ran, if-Ran, query-Ran}
use waterx_predict_agent.Runner.Strategy.World.Reads.{
  IsRead, read_run, bind-IsRead, pure-IsRead, ask-IsRead, of_result-IsRead,
}
use waterx_predict_agent.Runner.Strategy.Preflight.{LegSkip, PreflightVerdict, PreparedLeg}
use waterx_predict_agent.Runner.Strategy.Preflight.Checks.{preflight}
use waterx_predict_agent.Runner.Strategy.Preflight.Asks.{preflight-IsRead}
use waterx_predict_agent.Runner.Strategy.Driver.{DriveJobOptions, QuotedLeg}
use waterx_predict_agent.Runner.Strategy.Driver.Create.{CreatesOutcome, all_asked, cut_short}
use waterx_predict_agent.Runner.Strategy.Driver.Endings.{reconciled_as}
use waterx_predict_agent.Runner.Strategy.Driver.Execute.{after_creates, send_all, execute}
use waterx_predict_agent.Runner.Strategy.Driver.Resume.{
  Priced, quote_leg, conclude_resume, price_one, price_unsent, send_priced, resume_with,
  resume_unsent, resume, after_reconcile, reconcile_pass,
}
use waterx_predict_agent.Runner.Strategy.Driver.Told.{
  At, IsTold, move-Ran, none_left-Ran, reconcile-Ran, reconcile_plain-Ran,
}
use waterx_predict_agent.Runner.Strategy.Driver.Keys.{list_legs-HasKeys}
use waterx_predict_agent.Runner.Strategy.Driver.Asked.{
  IsReady, AreSettled, onward-IsLedger, onward-IsReady, reserve_all-Ran, commit_all-Ran,
  skip_all-Ran, create_all-Ran,
}
use waterx_predict_agent.Runner.Strategy.Driver.Sent.{sign_all-Ran, submit_signed-Ran}

module _ (o : DriveJobOptions) where
  after_creates-Ran :
      (job : JobRecord) (outcome : CreatesOutcome) (w : World)
      → IsLedger w.db
      → AreSettled o outcome w
      → Ran o.outside (IsTold o) w (after_creates o job outcome w)
  unfolding after_creates
  after_creates-Ran job (cut_short r) w ledger h = pure-Ran o.outside _ w _ h
  after_creates-Ran job (all_asked reports []) w ledger h =
      bind-Ran o.outside _ _ _ (move-Ran o _ _ _ w) (λ u v s t.
        bind-Ran o.outside _ _ _ (reconcile_plain-Ran o _ v)
          (λ r v' t' k. pure-Ran o.outside _ v' _ k))
  after_creates-Ran job (all_asked reports (l ∷ ls)) w ledger h =
      bind-Ran o.outside _ _ _ (move-Ran o _ _ _ w) (λ u v s t.
        bind-Ran o.outside _ _ _ (sign_all-Ran o job (l ∷ ls) _ v) (λ signed v' s' k.
          submit_signed-Ran o job job.state signed signed.signed v'
            (onward-IsLedger o s' (onward-IsLedger o s ledger))))

  send_all-Ran :
      (job : JobRecord) (sending : List QuotedLeg) (over : List PreparedLeg) (w : World)
      → job.job_id ≡ o.lease.job_id
      → IsLedger w.db
      → Ran o.outside (IsTold o) w (send_all o job sending over w)
  unfolding send_all
  send_all-Ran job [] over w same ledger = none_left-Ran o job over w
  send_all-Ran job (leg ∷ rest) over w same ledger =
      bind-Ran o.outside _ _ _ (query-Ran o.outside w _) (λ rows w₁ s₁ (q, e).
        let keys = list_legs-HasKeys o.lease.job_id w.db ledger in
        let ready : IsReady o rows w₁ = rw (q, e, same) (ledger, keys) in
        bind-Ran o.outside _ _ _ (move-Ran o _ _ _ w₁) (λ u w₂ s₂ h.
          let ready₂ = onward-IsReady o rows s₂ ready in
          bind-Ran o.outside _ _ _ (create_all-Ran o job job.state rows (leg ∷ rest) _ [] w₂ ready₂)
            (λ outcome w₃ s₃ k.
              after_creates-Ran job outcome w₃ (onward-IsLedger o s₃ ready₂.0) k)))

  pub execute-Ran :
      (job : JobRecord) (quoted : List QuotedLeg) (skipped : List PreparedLeg) (w : World)
      → job.job_id ≡ o.lease.job_id
      → IsLedger w.db
      → Ran o.outside (IsTold o) w (execute o job quoted skipped w)
  unfolding execute
  execute-Ran job quoted skipped w same ledger =
      bind-Ran o.outside _ _ _ (query-Ran o.outside w _) (λ existing w₁ s₁ e.
        bind-Ran o.outside _ _ _ (reserve_all-Ran o existing _ w₁) (λ u w₂ s₂ h₂.
          bind-Ran o.outside _ _ _ (commit_all-Ran o job quoted w₂) (λ sorted w₃ s₃ h₃.
            bind-Ran o.outside _ _ _ (skip_all-Ran o _ w₃) (λ v w₄ s₄ h₄.
              send_all-Ran job sorted.0 _ w₄ same (
                onward-IsLedger o s₄
                  (onward-IsLedger o s₃ (onward-IsLedger o s₂ (onward-IsLedger o s₁ ledger))))))))

  pub quote_leg-IsRead :
      (job : JobRecord) (i : ℕ) (intent : JobLegIntent) (p : Priced)
      → IsRead o.outside (quote_leg o job i intent p)
  unfolding quote_leg
  quote_leg-IsRead job i intent p =
      bind-IsRead o.outside _ _ (of_result-IsRead o.outside _) (λ request.
        bind-IsRead o.outside _ _ (ask-IsRead o.outside _) (λ quote.
          bind-IsRead o.outside _ _ (of_result-IsRead o.outside _)
            (λ refusal. pure-IsRead o.outside _)))

  conclude_resume-Ran :
      (job : JobRecord) (legs : List PreparedLeg) (w : World)
      → Ran o.outside (IsTold o) w (conclude_resume o job legs w)
  unfolding conclude_resume
  conclude_resume-Ran job legs w = bind-Ran o.outside _ _ _ (skip_all-Ran o legs w) (λ u v s h.
      bind-Ran o.outside _ _ _ (reconcile_plain-Ran o _ v)
        (λ r v' t k. pure-Ran o.outside _ v' _ k))

  price_one-IsRead :
      (job : JobRecord) (leg : PreparedLeg) (row : Option JobLeg) (skip : Option LegSkip)
      (p : Priced)
      → IsRead o.outside (price_one o job leg row skip p)
  price_one-IsRead job leg none skip p = pure-IsRead o.outside _
  price_one-IsRead job leg (some row) (some skip) p = pure-IsRead o.outside _
  price_one-IsRead job leg (some row) none p = quote_leg-IsRead job leg.leg_index row.intent p

  price_unsent-IsRead :
      (job : JobRecord) (unsent : List JobLeg) (legs : List PreparedLeg) (p : Priced)
      → IsRead o.outside (price_unsent o job unsent legs p)
  unfolding price_unsent
  price_unsent-IsRead job unsent [] p = pure-IsRead o.outside _
  price_unsent-IsRead job unsent (leg ∷ rest) p =
      bind-IsRead o.outside _ _ (price_one-IsRead job leg _ leg.skip p)
        (λ q. price_unsent-IsRead job unsent rest q)

  send_priced-Ran :
      (job : JobRecord) (quoted : List QuotedLeg) (skipped : List PreparedLeg) (w : World)
      → job.job_id ≡ o.lease.job_id
      → IsLedger w.db
      → Ran o.outside (IsTold o) w (send_priced o job quoted skipped w)
  send_priced-Ran job [] skipped w same ledger = conclude_resume-Ran job skipped w
  send_priced-Ran job (l ∷ ls) skipped w same ledger =
      execute-Ran job (l ∷ ls) skipped w same ledger

  resume_with-Ran :
      (job : JobRecord) (unsent : List JobLeg) (v : PreflightVerdict) (w : World)
      → job.job_id ≡ o.lease.job_id
      → IsLedger w.db
      → At o JobState.reconciling w
      → Ran o.outside (IsTold o) w (resume_with o job unsent v w)
  unfolding resume_with
  resume_with-Ran job unsent (PreflightVerdict.pause reason detail) w same ledger h =
      pure-Ran o.outside _ w _ h
  resume_with-Ran job unsent (PreflightVerdict.stop reason detail) w same ledger h =
      conclude_resume-Ran job _ w
  resume_with-Ran job unsent (PreflightVerdict.proceed legs) w same ledger h =
      bind-Ran o.outside _ _ _ (read_run o.outside (price_unsent-IsRead job unsent legs _) w)
        (λ p v s e. send_priced-Ran job p.quoted p.skipped v same (onward-IsLedger o s ledger))

  resume_unsent-Ran :
      (job : JobRecord) (unsent : List JobLeg) (w : World)
      → job.job_id ≡ o.lease.job_id
      → IsLedger w.db
      → At o JobState.reconciling w
      → Ran o.outside (IsTold o) w (resume_unsent o job unsent w)
  unfolding resume_unsent
  resume_unsent-Ran job [] w same ledger h = reconcile_plain-Ran o _ w
  resume_unsent-Ran job (l ∷ ls) w same ledger h =
      if-Ran o.outside _ w (leb job.expires_at o.at) _
        (preflight o.outside job o.at >>= resume_with o job (l ∷ ls))
        (λ e. conclude_resume-Ran job _ w)
        (λ e.
          bind-Ran o.outside _ _ _ (read_run o.outside (preflight-IsRead o.outside job o.at) w)
            (λ v w₁ s k.
              resume_with-Ran job (l ∷ ls) v w₁ same (onward-IsLedger o s ledger) (rw k h)))

  resume-Ran :
      (job : JobRecord) (w : World)
      → job.job_id ≡ o.lease.job_id
      → IsLedger w.db
      → At o JobState.reconciling w
      → Ran o.outside (IsTold o) w (resume o job w)
  unfolding resume
  resume-Ran job w same ledger h =
      bind-Ran o.outside _ _ _ (query-Ran o.outside w _) (λ legs w₁ s₁ (q₁, e₁).
        bind-Ran o.outside _ _ _ (query-Ran o.outside w₁ _) (λ attempts w₂ s₂ (q₂, e₂).
          resume_unsent-Ran _ _ w₂ same (rw (e₂, e₁) ledger) (rw (e₂, e₁) h)))

  after_reconcile-Ran :
      (from : JobState) (job : JobRecord) (r : ReconcileResult) (d : ReconcileDisposition)
      (w : World)
      → r.disposition ≡ d
      → job.job_id ≡ o.lease.job_id
      → IsLedger w.db
      → At o r.to w
      → (r.disposition ≡ ReconcileDisposition.replayable → r.to ≡ JobState.reconciling)
      → Ran o.outside (IsTold o) w (after_reconcile o from job r w)
  unfolding reconciled_as
  after_reconcile-Ran from job r ReconcileDisposition.replayable w q same ledger h k =
      rw q (resume-Ran job w same ledger (rw (← k q) h))
  after_reconcile-Ran from job r ReconcileDisposition.terminal w q same ledger h k =
      rw q (pure-Ran o.outside _ w _ h)
  after_reconcile-Ran from job r ReconcileDisposition.leg_resolved w q same ledger h k =
      rw q (pure-Ran o.outside _ w _ h)
  after_reconcile-Ran from job r ReconcileDisposition.still_pending w q same ledger h k =
      rw q (pure-Ran o.outside _ w _ h)
  after_reconcile-Ran from job r ReconcileDisposition.inconclusive w q same ledger h k =
      rw q (pure-Ran o.outside _ w _ h)
  after_reconcile-Ran from job r ReconcileDisposition.rearmed w q same ledger h k =
      rw q (pure-Ran o.outside _ w _ h)
  after_reconcile-Ran from job r ReconcileDisposition.not_applicable w q same ledger h k =
      rw q (pure-Ran o.outside _ w _ h)

  pub reconcile_pass-Ran :
      (from : JobState) (job : JobRecord) (w : World)
      → job.job_id ≡ o.lease.job_id
      → IsLedger w.db
      → Ran o.outside (IsTold o) w (reconcile_pass o from job w)
  unfolding reconcile_pass
  reconcile_pass-Ran from job w same ledger =
      bind-Ran o.outside _ _ _ (reconcile-Ran o w) (λ r v s (h, k).
        after_reconcile-Ran from job r r.disposition v refl same (onward-IsLedger o s ledger) h k)

-- ===== src/Runner/Strategy/Driver/Sent.antt =====
-- The submits of packages/runner/src/strategy/driver.ts: each has its attempt in the ledger before it
-- leaves.
use waterx_predict_agent.Base.{List, [], ◌∷◌, none, some}
use waterx_predict_agent.Runner.StateMachine.{JobState}
use waterx_predict_agent.Runner.Job.{JobRecord, SideEffectAttempt}
use waterx_predict_agent.Runner.Reconciler.{ExecutionRead}
use waterx_predict_agent.Runner.Store.Change.LedgerMethods.{
  begin_side_effect-Makes, complete_side_effect-Makes,
}
use waterx_predict_agent.Runner.Store.Invariant.{IsLedger}
use waterx_predict_agent.Runner.Strategy.Gateway.{Answer}
use waterx_predict_agent.Runner.Store.Db.{Result, ok, err}
use waterx_predict_agent.Runner.Strategy.World.{Act, World}
use waterx_predict_agent.Runner.Strategy.World.Backed.{Has-map}
use waterx_predict_agent.Runner.Strategy.World.Ran.{
  attempt-Ran, Ran, bind-Ran, pure-Ran, ask-Ran, send-Ran, store-Ran,
}
use waterx_predict_agent.Runner.Strategy.Driver.{DriveJobOptions, DriveLegReport}
use waterx_predict_agent.Runner.Strategy.Driver.Create.{LiveLeg}
use waterx_predict_agent.Runner.Strategy.Driver.Submit.{
  Signed, SignedLeg, SubmitOutcome, SubmitsOutcome, carry_on, gave_up, all_sent, cut_short,
  sign_all, after_submit, after_close, submit_unresolved, submit_one, submit_all, go_on,
  after_submits, submit_signed,
}
use waterx_predict_agent.Runner.Strategy.Driver.Told.{
  IsTold, any-Gives, move-Ran, unknown-Ran, reconcile_plain-Ran,
}
use waterx_predict_agent.Runner.Strategy.Driver.Keys.{IsBegun, IsOpened, begin_side_effect-Gives}
use waterx_predict_agent.Runner.Strategy.Driver.Asked.{IsAnything, onward-IsLedger}

module _ (o : DriveJobOptions) where
  pub sign_all-Ran :
      (job : JobRecord) (legs : List LiveLeg) (signed : Signed) (w : World)
      → Ran o.outside (IsAnything o) w (sign_all o job legs signed w)
  unfolding sign_all
  sign_all-Ran job [] signed w = pure-Ran o.outside _ w _ tt
  sign_all-Ran job (leg ∷ rest) signed w =
      bind-Ran o.outside _ _ _ (ask-Ran o.outside w _) (λ signing v s h. sign_all-Ran job rest _ v)

  abbrev IsSettled : SubmitOutcome → World → Type 0
  IsSettled (carry_on code) v = Unit
  IsSettled (gave_up r) v = IsTold o r v

  submit_unresolved-Ran :
      (job : JobRecord) (from : JobState) (leg : SignedLeg) (attempt : SideEffectAttempt)
      (w : World)
      → Ran o.outside IsSettled w (submit_unresolved o job from leg attempt w)
  submit_unresolved-Ran job from leg attempt w =
      bind-Ran o.outside _ _ _ (unknown-Ran o job from _ _ w)
        (λ r v s h. pure-Ran o.outside _ v _ h)

  after_close-Ran :
      {A : Type 0} (job : JobRecord) (from : JobState) (leg : SignedLeg)
      (attempt : SideEffectAttempt) (closed : Result A) (w : World)
      → Ran o.outside IsSettled w (after_close o job from leg attempt closed w)
  after_close-Ran job from leg attempt (ok row) w = pure-Ran o.outside _ w _ tt
  after_close-Ran job from leg attempt (err x) w = submit_unresolved-Ran job from leg attempt w

  after_submit-Ran :
      (job : JobRecord) (from : JobState) (leg : SignedLeg) (attempt : SideEffectAttempt)
      (answer : Answer ExecutionRead) (w : World)
      → Ran o.outside IsSettled w (after_submit o job from leg attempt answer w)
  unfolding after_submit
  after_submit-Ran job from leg attempt (Answer.answered submitted) w =
      bind-Ran o.outside _ _ _
        (attempt-Ran o.outside w _
          (store-Ran o.outside w _ _ (complete_side_effect-Makes _ w.db) (any-Gives _)))
        (λ closed v s h. after_close-Ran job from leg attempt closed v)
  after_submit-Ran job from leg attempt (Answer.refused error) w =
      bind-Ran o.outside _ _ _
        (store-Ran o.outside w _ _ (complete_side_effect-Makes _ w.db) (any-Gives _))
        (λ row v s h. pure-Ran o.outside _ v _ tt)
  after_submit-Ran job from leg attempt Answer.unresolved w =
      submit_unresolved-Ran job from leg attempt w

  submit_one-Ran :
      (job : JobRecord) (from : JobState) (leg : SignedLeg) (w : World)
      → IsLedger w.db
      → Ran o.outside IsSettled w (submit_one o job from leg w)
  unfolding submit_one
  submit_one-Ran job from leg w ledger =
      bind-Ran o.outside _ _ _ (ask-Ran o.outside w _) (λ id w₁ s₁ e₁.
        bind-Ran o.outside _ _ _
          (store-Ran o.outside w₁ (IsOpened _) _ (begin_side_effect-Makes _ w₁.db)
            (begin_side_effect-Gives _ w₁.db (onward-IsLedger o s₁ ledger)))
          (λ attempt w₂ s₂ begun.
            bind-Ran o.outside _ _ _
              (send-Ran o.outside w₂ _ _ (
                Has-map _ _ w₂.db.effects
                  (λ a (b : IsBegun _ w₂.db.legs a).
                    (b.job_id, b.leg_index, (b.kind, b.request_fingerprint)))
                  begun))
              (λ answer w₃ s₃ h. after_submit-Ran job from leg attempt answer w₃)))

  abbrev AreSettled : SubmitsOutcome → World → Type 0
  AreSettled (all_sent reports) v = Unit
  AreSettled (cut_short r) v = IsTold o r v

  go_on-Ran :
      (leg : SignedLeg) (reports : List DriveLegReport) (outcome : SubmitOutcome)
      (k : List DriveLegReport → Act SubmitsOutcome) (v : World)
      → IsSettled outcome v
      → ((rs : List DriveLegReport) → Ran o.outside AreSettled v (k rs v))
      → Ran o.outside AreSettled v (go_on o leg reports outcome k v)
  go_on-Ran leg reports (carry_on none) k v h rest = rest _
  go_on-Ran leg reports (carry_on (some code)) k v h rest = rest _
  go_on-Ran leg reports (gave_up r) k v h rest = pure-Ran o.outside _ v _ h

  submit_all-Ran :
      (job : JobRecord) (from : JobState) (legs : List SignedLeg) (reports : List DriveLegReport)
      (w : World)
      → IsLedger w.db
      → Ran o.outside AreSettled w (submit_all o job from legs reports w)
  unfolding submit_all
  submit_all-Ran job from [] reports w ledger = pure-Ran o.outside _ w _ tt
  submit_all-Ran job from (leg ∷ rest) reports w ledger =
      bind-Ran o.outside _ _ _ (submit_one-Ran job from leg w ledger) (λ outcome v s h.
        go_on-Ran leg reports outcome _ v h
          (λ rs. submit_all-Ran job from rest rs v (onward-IsLedger o s ledger)))

  after_submits-Ran :
      (job : JobRecord) (from : JobState) (signed : Signed) (outcome : SubmitsOutcome) (w : World)
      → AreSettled outcome w
      → Ran o.outside (IsTold o) w (after_submits o job from signed outcome w)
  unfolding after_submits
  after_submits-Ran job from signed (cut_short r) w h = pure-Ran o.outside _ w _ h
  after_submits-Ran job from signed (all_sent reports) w h =
      bind-Ran o.outside _ _ _ (move-Ran o _ _ _ w) (λ u w₁ s₁ h₁.
        bind-Ran o.outside _ _ _ (move-Ran o _ _ _ w₁) (λ u w₂ s₂ h₂.
          bind-Ran o.outside _ _ _ (reconcile_plain-Ran o _ w₂)
            (λ r w₃ s₃ h₃. pure-Ran o.outside _ w₃ _ h₃)))

  pub submit_signed-Ran :
      (job : JobRecord) (from : JobState) (signed : Signed) (legs : List SignedLeg) (w : World)
      → IsLedger w.db
      → Ran o.outside (IsTold o) w (submit_signed o job from signed legs w)
  unfolding submit_signed
  submit_signed-Ran job from signed [] w ledger =
      bind-Ran o.outside _ _ _ (move-Ran o _ _ _ w) (λ u v s h.
        bind-Ran o.outside _ _ _ (reconcile_plain-Ran o _ v)
          (λ r v' t k. pure-Ran o.outside _ v' _ k))
  submit_signed-Ran job from signed (l ∷ ls) w ledger =
      bind-Ran o.outside _ _ _ (move-Ran o _ _ _ w) (λ u v s h.
        bind-Ran o.outside _ _ _
          (submit_all-Ran job from signed.signed signed.reports v (onward-IsLedger o s ledger))
          (λ outcome v' t k. after_submits-Ran job from signed outcome v' k))

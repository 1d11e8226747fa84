-- ===== src/Runner/Strategy/Driver/Asked.antt =====
-- The creates of packages/runner/src/strategy/driver.ts: each has its attempt in the ledger before it
-- leaves.
use waterx_predict_agent.Base.{
  ℕ, Option, none, some, List, [], ◌∷◌, ◌≡◌, refl, sym, ◌∙◌, ap, some_injective, Text,
}
use waterx_predict_agent.Runner.StateMachine.{JobState}
use waterx_predict_agent.Runner.Job.{
  JobLeg, JobLegIntent, JobRecord, SideEffectAttempt, SideEffectKind,
}
use waterx_predict_agent.Runner.Store.Change.LedgerMethods.{
  reserve_leg-Makes, update_leg-Makes, commit_mandate_spend-Makes, begin_side_effect-Makes,
  complete_side_effect-Makes,
}
use waterx_predict_agent.Runner.Store.Invariant.{IsKeyAt, IsLedger}
use waterx_predict_agent.Runner.Store.Invariant.Legs.{Change-IsKeyAt, Change-IsLedger}
use waterx_predict_agent.Runner.Strategy.Gateway.{Answer, CreateRequest, CreatedExecution}
use waterx_predict_agent.Runner.Strategy.World.{Act, Payload, World}
use waterx_predict_agent.Runner.Strategy.World.Backed.{Backs, Has-map, IsBacked}
use waterx_predict_agent.Runner.Strategy.World.Ran.{
  Ran, Steps, Steps-Change, bind-Ran, pure-Ran, of_result-Ran, ask-Ran, send-Ran, store-Ran,
}
use waterx_predict_agent.Runner.Strategy.World.Reads.{weaken-Ran}
use waterx_predict_agent.Runner.Strategy.Preflight.{PreparedLeg}
use waterx_predict_agent.Runner.Strategy.Driver.{DriveJobOptions, DriveLegReport, QuotedLeg}
use waterx_predict_agent.Runner.Strategy.Driver.Create.{
  LiveLeg, CreateOutcome, CreatesOutcome, live, turned_away, gave_up, all_asked, cut_short, key_in,
  key_for, key_or_new, reserve_all, commit_amount, commit_spend, commit_all, skip_all, after_create,
  send_create, create_one, create_all, go_on,
}
use waterx_predict_agent.Runner.Strategy.Driver.Told.{IsTold, any-Gives, unknown-Ran}
use waterx_predict_agent.Runner.Strategy.Driver.Keys.{
  HasKeys, IsBegun, IsOpened, begin_side_effect-Gives,
}

pub same_keys :
    (legs : List JobLeg) (id i k n : ℕ) → IsKeyAt legs id i k → IsKeyAt legs id i n → k ≡ n
same_keys legs id i k n a b =
    a.same
    ∙ ap (λ (l : JobLeg). l.idempotency_key) (some_injective (sym a.found ∙ b.found))
    ∙ sym b.same

module _ (o : DriveJobOptions) where
  abbrev pub IsAnything : {A : Type 0} → A → World → Type 0
  IsAnything a v = Unit

  pub onward-IsLedger : {w v : World} → Steps o.outside w v → IsLedger w.db → IsLedger v.db
  onward-IsLedger s h = Change-IsLedger (Steps-Change o.outside s) h

  -- The ledger is sound, and the keys of the rows are on disk.
  abbrev pub IsReady : List JobLeg → World → Type 0
  IsReady rows w = IsLedger w.db × HasKeys o.lease.job_id rows w.db.legs

  pub onward-IsReady :
      (rows : List JobLeg) {w v : World} → Steps o.outside w v → IsReady rows w → IsReady rows v
  onward-IsReady rows s (ledger, keys) = (
    onward-IsLedger s ledger,
    λ i key e. Change-IsKeyAt _ i key (Steps-Change o.outside s) (keys i key e),
  )

  key_for-Ran :
      (existing : List JobLeg) (i : ℕ) (w : World)
      → Ran o.outside IsAnything w (key_for o existing i w)
  unfolding key_for
  key_for-Ran existing i w = key_or_new-Ran _
    where
      key_or_new-Ran : (l : Option JobLeg) → Ran o.outside IsAnything w (key_or_new o l w)
      key_or_new-Ran none = weaken-Ran o.outside _ (λ a v h. tt) (ask-Ran o.outside w _)
      key_or_new-Ran (some l) = pure-Ran o.outside _ w _ tt

  pub reserve_all-Ran :
      (existing : List JobLeg) (legs : List (ℕ × JobLegIntent)) (w : World)
      → Ran o.outside IsAnything w (reserve_all o existing legs w)
  unfolding reserve_all
  reserve_all-Ran existing [] w = pure-Ran o.outside _ w tt tt
  reserve_all-Ran existing ((i, intent) ∷ rest) w =
      bind-Ran o.outside _ _ _ (key_for-Ran existing i w) (λ key v s h.
        bind-Ran o.outside _ _ _
          (store-Ran o.outside v _ _ (reserve_leg-Makes _ v.db) (any-Gives _))
          (λ row u t k. reserve_all-Ran existing rest u))

  commit_amount-Ran :
      (job : JobRecord) (i : ℕ) (amount : Option Text) (w : World)
      → Ran o.outside IsAnything w (commit_amount o job i amount w)
  commit_amount-Ran job i none w = pure-Ran o.outside _ w _ tt
  commit_amount-Ran job i (some amount) w =
      bind-Ran o.outside _ _ _
        (store-Ran o.outside w _ _ (commit_mandate_spend-Makes _ w.db) (any-Gives _))
        (λ spend v s h. pure-Ran o.outside _ v _ tt)

  pub commit_all-Ran :
      (job : JobRecord) (legs : List QuotedLeg) (w : World)
      → Ran o.outside IsAnything w (commit_all o job legs w)
  unfolding commit_all commit_spend
  commit_all-Ran job [] w = pure-Ran o.outside _ w _ tt
  commit_all-Ran job (leg ∷ rest) w =
      bind-Ran o.outside _ _ _ (commit_amount-Ran job leg.leg_index leg.intent.buy_amount w)
        (λ skip v s h.
          bind-Ran o.outside _ _ _ (commit_all-Ran job rest v)
            (λ sorted u t k. pure-Ran o.outside _ u _ tt))

  pub skip_all-Ran :
      (legs : List PreparedLeg) (w : World) → Ran o.outside IsAnything w (skip_all o legs w)
  unfolding skip_all
  skip_all-Ran [] w = pure-Ran o.outside _ w tt tt
  skip_all-Ran (leg ∷ rest) w =
      bind-Ran o.outside _ _ _
        (store-Ran o.outside w _ _ (update_leg-Makes o.lease _ _ o.at w.db) (any-Gives _))
        (λ row v s h. skip_all-Ran rest v)

  abbrev IsSettled : CreateOutcome → World → Type 0
  IsSettled (live l) v = Unit
  IsSettled (turned_away code) v = Unit
  IsSettled (gave_up r) v = IsTold o r v

  after_create-Ran :
      (job : JobRecord) (from : JobState) (leg : QuotedLeg) (attempt : SideEffectAttempt)
      (answer : Answer CreatedExecution) (w : World)
      → Ran o.outside IsSettled w (after_create o job from leg attempt answer w)
  unfolding after_create
  after_create-Ran job from leg attempt (Answer.answered created) w =
      bind-Ran o.outside _ _ _
        (store-Ran o.outside w _ _ (complete_side_effect-Makes _ w.db) (any-Gives _))
        (λ row v s h. pure-Ran o.outside _ v _ tt)
  after_create-Ran job from leg attempt (Answer.refused error) w =
      bind-Ran o.outside _ _ _
        (store-Ran o.outside w _ _ (complete_side_effect-Makes _ w.db) (any-Gives _))
        (λ row v s h. pure-Ran o.outside _ v _ tt)
  after_create-Ran job from leg attempt Answer.unresolved w =
      bind-Ran o.outside _ _ _ (unknown-Ran o job from _ _ w)
        (λ r v s h. pure-Ran o.outside _ v _ h)

  send_create-Ran :
      (job : JobRecord) (leg : QuotedLeg) (body : CreateRequest) (key : Option ℕ) (w : World)
      → ((k : ℕ)
          → key ≡ some k
          → IsBacked o.outside
              (record {
                job_id = o.lease.job_id;
                leg_index = leg.leg_index;
                payload = Payload.create k body;
              })
              w.db)
      → Ran o.outside IsAnything w (send_create o job leg body key w)
  send_create-Ran job leg body none w h = pure-Ran o.outside _ w _ tt
  send_create-Ran job leg body (some k) w h =
      weaken-Ran o.outside _ (λ a v e. tt) (send-Ran o.outside w _ _ (h k refl))

  -- A create leaves under the key of its leg, behind an attempt with its bytes.
  create_one-Ran :
      (job : JobRecord) (from : JobState) (rows : List JobLeg) (leg : QuotedLeg) (w : World)
      → IsReady rows w
      → Ran o.outside IsSettled w (create_one o job from rows leg w)
  unfolding create_one
  create_one-Ran job from rows leg w ready =
      bind-Ran o.outside _ _ _ (of_result-Ran o.outside w _) (λ body w₁ s₁ e₁.
        bind-Ran o.outside _ _ _ (ask-Ran o.outside w₁ _) (λ id w₂ s₂ e₂.
          let ready₂ = onward-IsReady rows s₂ (onward-IsReady rows s₁ ready) in
          bind-Ran o.outside _ _ _
            (store-Ran o.outside w₂ (IsOpened _) _ (begin_side_effect-Makes _ w₂.db)
              (begin_side_effect-Gives _ w₂.db ready₂.0))
            (λ attempt w₃ s₃ begun.
              let keys = (onward-IsReady rows s₃ ready₂).1 in
              bind-Ran o.outside _ _ _
                (send_create-Ran job leg body (key_in leg.leg_index rows) w₃ (λ k q.
                  Has-map _ _ w₃.db.effects
                    (λ a (b : IsBegun _ w₃.db.legs a). backs a body k w₃ b (keys _ k q)) begun))
                (λ answer w₄ s₄ h. after_create-Ran job from leg attempt answer w₄))))
    where
      backs :
          (a : SideEffectAttempt) (body : CreateRequest) (k : ℕ) (v : World) {id : ℕ}
          → IsBegun
              (record {
                lease = o.lease;
                attempt_id = id;
                leg_index = leg.leg_index;
                kind = SideEffectKind.create_execution;
                request_fingerprint = o.outside.fingerprint_create body;
                at = o.at;
              })
              v.db.legs
              a
          → IsKeyAt v.db.legs o.lease.job_id leg.leg_index k
          → Backs o.outside
              (record {
                job_id = o.lease.job_id;
                leg_index = leg.leg_index;
                payload = Payload.create k body;
              })
              a
      backs a body k v b at = (
        b.job_id,
        b.leg_index,
        (
          b.kind,
          same_keys v.db.legs _ _ _ _ (rw (b.job_id, b.leg_index) at b.keyed) at,
          b.request_fingerprint,
        ),
      )

  abbrev pub AreSettled : CreatesOutcome → World → Type 0
  AreSettled (all_asked reports lives) v = Unit
  AreSettled (cut_short r) v = IsTold o r v

  go_on-Ran :
      (leg : QuotedLeg) (reports : List DriveLegReport) (lives : List LiveLeg)
      (outcome : CreateOutcome) (k : List DriveLegReport → List LiveLeg → Act CreatesOutcome)
      (v : World)
      → IsSettled outcome v
      → ((rs : List DriveLegReport) (ls : List LiveLeg) → Ran o.outside AreSettled v (k rs ls v))
      → Ran o.outside AreSettled v (go_on o leg reports lives outcome k v)
  go_on-Ran leg reports lives (live l) k v h rest = rest _ _
  go_on-Ran leg reports lives (turned_away code) k v h rest = rest _ _
  go_on-Ran leg reports lives (gave_up r) k v h rest = pure-Ran o.outside _ v _ h

  pub create_all-Ran :
      (job : JobRecord) (from : JobState) (rows : List JobLeg) (legs : List QuotedLeg)
      (reports : List DriveLegReport) (lives : List LiveLeg) (w : World)
      → IsReady rows w
      → Ran o.outside AreSettled w (create_all o job from rows legs reports lives w)
  unfolding create_all
  create_all-Ran job from rows [] reports lives w ready = pure-Ran o.outside _ w _ tt
  create_all-Ran job from rows (leg ∷ rest) reports lives w ready =
      bind-Ran o.outside _ _ _ (create_one-Ran job from rows leg w ready) (λ outcome v s h.
        go_on-Ran leg reports lives outcome _ v h
          (λ rs ls. create_all-Ran job from rows rest rs ls v (onward-IsReady rows s ready)))

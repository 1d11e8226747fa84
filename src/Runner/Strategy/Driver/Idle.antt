-- ===== src/Runner/Strategy/Driver/Idle.antt =====
-- `driveJob` of packages/runner/src/strategy/driver.ts where it may not act.
use waterx_predict_agent.Base.{
  ℕ, leb, ltb, List, ◌<◌, true, false, not, Bool-cases, Option, none, some, is_some, ◌≡◌, refl, sym,
  ◌∙◌, arith, ◌⊎◌, inl, inr, Text,
}
use waterx_predict_agent.Runner.StateMachine.{
  JobState, can_end_locally, is_terminal_job_state, state_eq, can_transition,
}
use waterx_predict_agent.Runner.Secrets.{Json}
use waterx_predict_agent.Runner.Job.{JobRecord, PolicyMode}
use waterx_predict_agent.Runner.Store.Db.{find_job}
use waterx_predict_agent.Runner.Store.Jobs.{get_job}
use waterx_predict_agent.Runner.Store.Prog.{call}
use waterx_predict_agent.Runner.Strategy.World.{Act, World, lift, query, store, ◌>>=◌}
use waterx_predict_agent.Runner.Strategy.Preflight.{Entries, PreflightVerdict, PreparedLeg}
use waterx_predict_agent.Runner.Strategy.Preflight.Authority.{check_local_policy, policy_expiry}
use waterx_predict_agent.Runner.Strategy.Preflight.Verdicts.{IsInForce, check_local_policy_iff}
use waterx_predict_agent.Runner.Strategy.Driver.{DriveJobOptions, DriveResult}
use waterx_predict_agent.Runner.Strategy.Driver.Endings.{
  move, stop, pause, end_from, end_locally, refuse, refuse_locally,
}
use waterx_predict_agent.Runner.Strategy.Driver.Pass.{
  unless_said, advance_unless_refused, check_locally, in_doubt, drive_known, drive_job,
}
use waterx_predict_agent.Runner.Strategy.Driver.Silent.{
  IsQuiet, Silent, Silent-IsQuiet, pure-Silent, if-Silent, bind-Silent, IsAny, settled-Silent,
}

policy_expiry-halts :
    (job : JobRecord) (at : ℕ) (o : Option ℕ) (legs : List PreparedLeg)
    → policy_expiry job.policy at o ≡ some (PreflightVerdict.proceed legs)
    → ⊥
policy_expiry-halts job at none legs e = cc
policy_expiry-halts job at (some t) legs e = elim (Bool-cases (ltb at t)) [
  | inl f ↦ let bad = rw f at e in cc
  | inr f ↦ let bad = rw f at e in cc
]

-- A local policy never says PROCEED.
check_local_policy-halts :
    (job : JobRecord) (at : ℕ) (legs : List PreparedLeg)
    → check_local_policy job at ≡ some (PreflightVerdict.proceed legs)
    → ⊥
unfolding check_local_policy
check_local_policy-halts job at legs = by_mode job.policy.mode refl
  where
    by_mode :
        (mode : PolicyMode)
        → job.policy.mode ≡ mode
        → check_local_policy job at ≡ some (PreflightVerdict.proceed legs)
        → ⊥
    by_mode PolicyMode.delegated_auto q e = policy_expiry-halts job at _ legs (rw q at e)
    by_mode PolicyMode.interactive q e = let bad = rw q at e in cc
    by_mode PolicyMode.read_only q e = let bad = rw q at e in cc
    by_mode (PolicyMode.unrecognized name) q e = let bad = rw q at e in cc

module _ (o : DriveJobOptions) where
  move-Silent :
      (to : JobState) (reason : Text) (detail : Option Json) (w : World)
      → Silent IsAny w (move o to reason detail w)
  unfolding move store lift call
  move-Silent to reason detail w =
      bind-Silent IsAny w _ _ (settled-Silent w _) (λ row v h. pure-Silent IsAny v tt tt)

  stop-Silent :
      (job : JobRecord) (reason : Text) (detail : Entries) (w : World)
      → Silent IsAny w (stop o job reason detail w)
  unfolding stop
  stop-Silent job reason detail w =
      bind-Silent IsAny w _ _ (move-Silent _ _ _ w) (λ u v h. pure-Silent IsAny v _ tt)

  pause-Silent :
      (job : JobRecord) (reason : Text) (detail : Entries) (w : World)
      → Silent IsAny w (pause o job reason detail w)
  unfolding pause
  pause-Silent job reason detail w =
      if-Silent IsAny w (state_eq job.state JobState.paused) _ _ (λ e. pure-Silent IsAny w _ tt)
        (λ e.
          if-Silent IsAny w (not (can_transition job.state JobState.paused)) _ _
            (λ f. pure-Silent IsAny w _ tt)
            (λ f.
              bind-Silent IsAny w _ _ (move-Silent _ _ _ w) (λ u v h. pure-Silent IsAny v _ tt)))

  -- An ending is said, or the job was neither cancelled nor has it expired.
  abbrev IsEndable : JobRecord → Option DriveResult → Type 0
  IsEndable job said =
      (is_some said ≡ true) ⊎ ((job.cancel_requested_at ≡ none) × (o.at < job.expires_at))

  end_from-Silent :
      (job : JobRecord) (requested : Option ℕ) (w : World)
      → job.cancel_requested_at ≡ requested
      → Silent (IsEndable job) w (end_from o job requested w)
  unfolding end_from
  end_from-Silent job (some at) w e =
      bind-Silent _ w _ _ (move-Silent _ _ _ w) (λ u v h. pure-Silent _ v _ (inl refl))
  end_from-Silent job none w e =
      if-Silent _ w (leb job.expires_at o.at) _ _
        (λ f. bind-Silent _ w _ _ (move-Silent _ _ _ w) (λ u v h. pure-Silent _ v _ (inl refl)))
        (λ f. pure-Silent _ w _ (inr (e, ground (arith, f))))

  refuse-Silent :
      (job : JobRecord) (verdict : Option PreflightVerdict) (w : World)
      → check_local_policy job o.at ≡ verdict
      → Silent
          (λ (said : Option DriveResult).
            (is_some said ≡ true) ⊎ (check_local_policy job o.at ≡ none))
          w
          (refuse o job verdict w)
  unfolding refuse
  refuse-Silent job none w e = pure-Silent _ w _ (inr e)
  refuse-Silent job (some (PreflightVerdict.proceed legs)) w e =
      elim (check_local_policy-halts job o.at legs e) [ ]
  refuse-Silent job (some (PreflightVerdict.stop reason detail)) w e =
      bind-Silent _ w _ _ (stop-Silent job _ detail w) (λ r v h. pure-Silent _ v _ (inl refl))
  refuse-Silent job (some (PreflightVerdict.pause reason detail)) w e =
      bind-Silent _ w _ _ (pause-Silent job _ detail w) (λ r v h. pure-Silent _ v _ (inl refl))

  unless_said-Silent :
      (said : Option DriveResult) (rest : Act DriveResult) (w : World)
      → (is_some said ≡ false → Silent IsAny w (rest w))
      → Silent IsAny w (unless_said o said rest w)
  unless_said-Silent none rest w k = k refl
  unless_said-Silent (some r) rest w k = pure-Silent IsAny w r tt

  check_locally-Silent :
      (job : JobRecord) (w : World)
      → can_end_locally job.state ≡ true
      → ((job.cancel_requested_at ≡ none)
          → o.at < job.expires_at
          → check_local_policy job o.at ≡ none
          → ⊥)
      → Silent IsAny w (check_locally o job w)
  unfolding check_locally end_locally refuse_locally
  check_locally-Silent job w can h =
      if-Silent IsAny w (can_end_locally job.state)
        (end_locally o job >>= λ ended. unless_said o ended (advance_unless_refused o job)) _
        (λ e. bind-Silent IsAny w _ _ (end_from-Silent job _ w refl) (λ ended v said.
          unless_said-Silent ended _ v (λ not_ended.
            bind-Silent IsAny v _ _ (refuse-Silent job _ v refl) (λ refused u why.
              unless_said-Silent refused _ u
                (λ not_refused. elim (acts ended refused said why not_ended not_refused) [ ])))))
        (λ e. cc)
    where
      acts :
          (ended refused : Option DriveResult)
          → IsEndable job ended
          → ((is_some refused ≡ true) ⊎ (check_local_policy job o.at ≡ none))
          → is_some ended ≡ false
          → is_some refused ≡ false
          → ⊥
      acts ended refused (inl e) why p q = let bad : true ≡ false = sym e ∙ p in cc
      acts ended refused (inr (free, live)) (inl e) p q = let bad : true ≡ false = sym e ∙ q in cc
      acts ended refused (inr (free, live)) (inr e) p q = h free live e

-- The owner has not cancelled the job, it has not expired, and its policy is in force.
pub record MayAct (job : JobRecord) (at : ℕ) : Type 0 where
  pub wanted : job.cancel_requested_at ≡ none
  pub live : at < job.expires_at
  pub in_force : IsInForce job.policy at

local_states :
    (s : JobState)
    → can_end_locally s ≡ true
    → (is_terminal_job_state s ≡ false) × (in_doubt s ≡ false)
unfolding can_end_locally is_terminal_job_state
local_states JobState.draft h = (refl, refl)
local_states JobState.watching h = (refl, refl)
local_states JobState.paused h = (refl, refl)
local_states JobState.triggered h = (refl, refl)
local_states JobState.quoting h = (refl, refl)
local_states JobState.creating h = cc
local_states JobState.awaiting_signature h = cc
local_states JobState.submitting h = cc
local_states JobState.submitted h = cc
local_states JobState.reconciling h = cc
local_states JobState.unknown_pending h = cc
local_states JobState.filled h = cc
local_states JobState.failed h = cc
local_states JobState.cancelled h = cc
local_states JobState.expired h = cc

-- A pass over a job with nothing in flight that the owner has cancelled, that has expired or whose
-- policy is not in force sends nothing and asks nobody anything.
pub drive_job-IsQuiet :
    (o : DriveJobOptions) (job : JobRecord) (w : World)
    → find_job o.lease.job_id w.db ≡ some job
    → can_end_locally job.state ≡ true
    → ¬ MayAct job o.at
    → IsQuiet w (drive_job o w).1
unfolding drive_job drive_known query get_job ◌>>=◌
drive_job-IsQuiet o job w found can idle =
    let (live, known) = local_states job.state can in
    rw (found, live, known)
      (Silent-IsQuiet (
        check_locally-Silent o job w can (λ free time policy. idle (record {
          wanted = free;
          live = time;
          in_force = (check_local_policy_iff job o.at).0 policy;
        }))))

-- ===== src/Runner/Strategy/Driver/Pass.antt =====
-- `driveJob` of packages/runner/src/strategy/driver.ts, with the watch and the act pass.
use waterx_predict_agent.Base.{
  if◌then◌else◌, Bool, true, false, not, Option, none, some, List, [], ◌∷◌, ◌++◌, map, select,
  is_some, Text, codes, ◌||◌,
}
use waterx_predict_agent.Sdk.Decimal.{target_reached}
use waterx_predict_agent.Runner.StateMachine.{
  JobState, state_eq, is_terminal_job_state, can_end_locally,
}
use waterx_predict_agent.Runner.Secrets.{Json}
use waterx_predict_agent.Runner.Detail.{detail_of, fields, number, word}
use waterx_predict_agent.Runner.Job.{JobRecord, JobTrigger, TriggerKind}
use waterx_predict_agent.Runner.Store.Jobs.{get_job}
use waterx_predict_agent.Runner.Store.Db.{StoreError, or_fail}
use waterx_predict_agent.Runner.Strategy.Gateway.{WatchKey}
use waterx_predict_agent.Runner.Strategy.World.{Act, ask, of_result, pure, query, throw, ◌>>=◌}
use waterx_predict_agent.Runner.Strategy.Preflight.{
  Entries, PreflightVerdict, PreparedLeg, entry, optional_entry,
}
use waterx_predict_agent.Runner.Strategy.Preflight.Checks.{check_markets, preflight}
use waterx_predict_agent.Runner.Strategy.Driver.{
  Side, DriveAction, DriveJobOptions, DriveResult, QuotedLeg, say, say_detail, side_text,
  watch_key_of,
}
use waterx_predict_agent.Runner.Strategy.Driver.Report.{
  index_entries, observe_entry, optional_number, pause_text, state_text, stop_text, trigger_text,
  watch_json,
}
use waterx_predict_agent.Runner.Strategy.Driver.Endings.{
  end_locally, move, none_left, pause, refuse_locally, stop,
}
use waterx_predict_agent.Runner.Strategy.Driver.Execute.{execute}
use waterx_predict_agent.Runner.Strategy.Driver.Resume.{Priced, quote_leg, reconcile_pass}

pub data Observation : Type 0 where
  reached waiting undrivable : Text → Entries → Observation

abbrev optional_side : Option Side → Entries
optional_side none = []
optional_side (some s) = entry (codes "side") (word (side_text s))

abbrev trigger_json : JobTrigger → Json
trigger_json t = Json.object (
    fields (
      entry (codes "kind") (word (trigger_text t.kind))
      ++ optional_entry (codes "targetPrice") t.target_price
      ++ observe_entry (codes "observe") t.observe
      ++ optional_number (codes "marketId") t.market_id
      ++ optional_number (codes "outcomeId") t.outcome_id
      ++ optional_side t.side))

abbrev price_entries : JobTrigger → WatchKey → Text → Text → Entries
price_entries t watch observed target =
    (codes "observed", word observed)
    ∷ (codes "target", word target)
    ∷ (codes "side", word (side_text watch.side))
    ∷ observe_entry (codes "book") t.observe

abbrev pub observed_as : Bool → Entries → Observation
observed_as true detail = reached (codes "TARGET_OBSERVED") detail
observed_as false detail = waiting (codes "TARGET_NOT_MET") detail

abbrev is_skipped : PreparedLeg → Bool
is_skipped leg = is_some leg.skip

abbrev still_watching : Bool → DriveAction → DriveAction
still_watching true action = DriveAction.resumed
still_watching false action = action

abbrev pub in_doubt : JobState → Bool
in_doubt s = state_eq s JobState.unknown_pending || state_eq s JobState.reconciling

module _ (o : DriveJobOptions) where
  abbrev pub observe_price : JobTrigger → WatchKey → Text → Option Text → Act Observation
  observe_price t watch target none =
      pure (waiting (codes "NO_PRICE_OBSERVED") (entry (codes "watch") (watch_json watch)))
  observe_price t watch target (some observed) = do
    met ← of_result (or_fail StoreError.range_error (target_reached watch.side observed target))
    pure (observed_as met (price_entries t watch observed target))

  abbrev pub watch_price : JobTrigger → Option WatchKey → Option Text → Act Observation
  watch_price t (some watch) (some target) = do
    price ← ask (λ m. o.outside.observe m watch)
    observe_price t watch target price
  watch_price t _ _ =
      pure (undrivable (codes "TRIGGER_INCOMPLETE") (entry (codes "trigger") (trigger_json t)))

  unfoldable pub observe : JobRecord → Act Observation
  observe job = elim job.trigger.kind [
    | TriggerKind.immediate ↦ pure (reached (codes "IMMEDIATE") [])
    | TriggerKind.price ↦ watch_price job.trigger (watch_key_of job) job.trigger.target_price
  ]

  unfoldable pub quote_all : JobRecord → List PreparedLeg → Priced → Act Priced
  quote_all job [] p = pure p
  quote_all job (leg ∷ rest) p = do
    q ← quote_leg o job leg.leg_index leg.intent p
    quote_all job rest q

  abbrev pub execute_quoted : JobRecord → List QuotedLeg → List PreparedLeg → Act DriveResult
  execute_quoted job [] skipped = none_left o (record job { state = JobState.quoting }) skipped
  execute_quoted job (l ∷ ls) skipped = execute o job (l ∷ ls) skipped

  unfoldable pub quote_and_execute :
      JobRecord → List PreparedLeg → List PreparedLeg → Act DriveResult
  quote_and_execute job legs [] = none_left o job legs
  quote_and_execute job legs (first ∷ more) = do
    u ← move o JobState.quoting (codes "PREFLIGHT_PASSED") (
        detail_of
          (index_entries (codes "legs") (map (λ (l : PreparedLeg). l.leg_index) (first ∷ more))))
    p ← quote_all job (first ∷ more) (record { quoted = []; skipped = select is_skipped legs })
    execute_quoted job p.quoted p.skipped

  unfoldable pub act_on : JobRecord → PreflightVerdict → Act DriveResult
  act_on job (PreflightVerdict.stop reason detail) = stop o job (stop_text reason) detail
  act_on job (PreflightVerdict.pause reason detail) = do
    u ← move o JobState.paused (pause_text reason) (detail_of detail)
    pure (say_detail job JobState.paused DriveAction.paused (pause_text reason) detail)
  act_on job (PreflightVerdict.proceed legs) =
      quote_and_execute job legs (select (λ leg. not (is_skipped leg)) legs)

  unfoldable pub act_pass : JobRecord → Act DriveResult
  act_pass job = preflight o.outside job o.at >>= act_on job

  unfoldable pub after_observing : JobRecord → Observation → Act DriveResult
  after_observing job (waiting reason detail) = pure (
      say_detail job JobState.watching
        (still_watching (state_eq job.state JobState.paused) DriveAction.waiting) reason detail)
  after_observing job (undrivable reason detail) = pure (
      say_detail job JobState.watching
        (still_watching (state_eq job.state JobState.paused) DriveAction.not_drivable) reason
        detail)
  after_observing job (reached reason detail) = do
    u ← move o JobState.triggered reason (detail_of detail)
    acted ← act_pass (record job { state = JobState.triggered })
    pure (record acted { from = job.state })

  unfoldable pub back_to_watching : JobRecord → Act (Unit {0})
  back_to_watching job =
      if state_eq job.state JobState.paused
      then move o JobState.watching (codes "MARKET_RUNNABLE") none
      else pure tt

  unfoldable pub watch_runnable : JobRecord → Act DriveResult
  watch_runnable job = do
    u ← back_to_watching job
    observation ← observe job
    after_observing job observation

  unfoldable pub watch_on : JobRecord → Option PreflightVerdict → Act DriveResult
  watch_on job none = watch_runnable job
  watch_on job (some (PreflightVerdict.proceed legs)) = watch_runnable job
  watch_on job (some (PreflightVerdict.stop reason detail)) = stop o job (stop_text reason) detail
  watch_on job (some (PreflightVerdict.pause reason detail)) =
      pause o job (pause_text reason) detail

  unfoldable pub watch_pass : JobRecord → Act DriveResult
  watch_pass job = check_markets o.outside job >>= watch_on job

  unfoldable pub arm : JobRecord → Act DriveResult
  arm job = do
    u ← move o JobState.watching (codes "ARMED") (
        detail_of (
          (codes "expiresAt", number job.expires_at)
          ∷ (codes "trigger", word (trigger_text job.trigger.kind))
          ∷ []))
    pure (say job JobState.watching DriveAction.armed (codes "ARMED"))

  abbrev pub advance_from : JobRecord → JobState → Act DriveResult
  advance_from job JobState.draft = arm job
  advance_from job JobState.watching = watch_pass job
  advance_from job JobState.paused = watch_pass job
  advance_from job JobState.triggered = act_pass job
  advance_from job _ = pure (say job job.state DriveAction.not_drivable (codes "AWAITING_RECOVERY"))

  -- The `switch` on the state.
  unfoldable pub advance : JobRecord → Act DriveResult
  advance job = advance_from job job.state

  abbrev pub unless_said : Option DriveResult → Act DriveResult → Act DriveResult
  unless_said (some r) rest = pure r
  unless_said none rest = rest

  abbrev pub advance_unless_refused : JobRecord → Act DriveResult
  advance_unless_refused job = do refused ← refuse_locally o job; unless_said refused (advance job)

  unfoldable pub check_locally : JobRecord → Act DriveResult
  check_locally job =
      if can_end_locally job.state
      then (end_locally o job >>= λ ended. unless_said ended (advance_unless_refused job))
      else advance job

  unfoldable pub drive_known : Option JobRecord → Act DriveResult
  drive_known none = throw StoreError.unknown_job
  drive_known (some job) =
      if is_terminal_job_state job.state
      then pure
          (say job job.state DriveAction.already_terminal (codes "JOB_" ++ state_text job.state))
      else if in_doubt job.state
      then reconcile_pass o job.state job
      else check_locally job

  unfoldable pub drive_job : Act DriveResult
  drive_job = query (get_job o.lease.job_id) >>= drive_known

-- ===== src/Runner/Strategy/Driver/Execute.antt =====
-- `execute` of packages/runner/src/strategy/driver.ts.
use waterx_predict_agent.Base.{ℕ, ltb, none, some, List, [], ◌∷◌, ◌++◌, map, sort_by, codes}
use waterx_predict_agent.Runner.StateMachine.{JobState}
use waterx_predict_agent.Runner.Secrets.{Json}
use waterx_predict_agent.Runner.Detail.{detail_of, fields, items, number}
use waterx_predict_agent.Runner.Job.{JobLegIntent, JobRecord}
use waterx_predict_agent.Runner.Store.Legs.{list_legs}
use waterx_predict_agent.Runner.Strategy.World.{Act, pure, query, ◌>>=◌}
use waterx_predict_agent.Runner.Strategy.Preflight.{Entries, PreparedLeg}
use waterx_predict_agent.Runner.Strategy.Driver.{
  DriveJobOptions, DriveLegReport, DriveResult, QuotedLeg, sorted, set_report, to_report,
}
use waterx_predict_agent.Runner.Strategy.Driver.Report.{index_entries, report_entries}
use waterx_predict_agent.Runner.Strategy.Driver.Endings.{move, none_left, reconcile_plain}
use waterx_predict_agent.Runner.Strategy.Driver.Create.{
  LiveLeg, CreatesOutcome, all_asked, cut_short, reserve_all, commit_all, skip_all, create_all,
}
use waterx_predict_agent.Runner.Strategy.Driver.Submit.{sign_all, submit_signed}

-- Every leg of the pass in leg order, to be reserved.
abbrev pub to_reserve : List QuotedLeg → List PreparedLeg → List (ℕ × JobLegIntent)
to_reserve quoted skipped =
    sort_by (λ a b. ltb a.0 b.0)
      (map (λ (l : QuotedLeg). (l.leg_index, l.intent)) quoted
        ++ map (λ (l : PreparedLeg). (l.leg_index, l.intent)) skipped)

abbrev pub in_leg_order : List PreparedLeg → List PreparedLeg
in_leg_order legs = sort_by (λ a b. ltb a.leg_index b.leg_index) legs

-- `new Map(passedOver.map(…))`.
abbrev reports_of : List DriveLegReport → List PreparedLeg → List DriveLegReport
reports_of reports [] = reports
reports_of reports (leg ∷ rest) = reports_of (set_report (to_report leg) reports) rest

abbrev skipped_entries : List PreparedLeg → Entries
skipped_entries [] = []
skipped_entries (l ∷ ls) = report_entries (codes "skipped") (map to_report (l ∷ ls))

abbrev live_json : LiveLeg → Json
live_json l = Json.object (
    fields (
      (codes "legIndex", number l.leg_index)
      ∷ (codes "executionId", number l.created.execution_id)
      ∷ []))

module _ (o : DriveJobOptions) where
  unfoldable pub after_creates : JobRecord → CreatesOutcome → Act DriveResult
  after_creates job (cut_short r) = pure r
  after_creates job (all_asked reports []) = do
    u ← move o JobState.reconciling (codes "ALL_CREATES_REFUSED") none
    r ← reconcile_plain o JobState.reconciling
    pure (record r {
      from = job.state;
      legs = some (sorted reports);
      reason = codes "ALL_CREATES_REFUSED";
    })
  after_creates job (all_asked reports (l ∷ ls)) = do
    u ←
        move o JobState.awaiting_signature (codes "EXECUTIONS_CREATED")
          (detail_of ((codes "legs", Json.array (items (map live_json (l ∷ ls)))) ∷ []))
    signed ← sign_all o job (l ∷ ls) (record { signed = []; unsigned = []; reports = reports })
    submit_signed o job job.state signed signed.signed

  abbrev pub creating : JobRecord → List QuotedLeg → List PreparedLeg → Act DriveResult
  creating job sending passed_over = do
    rows ← query (list_legs job.job_id)
    u ← move o JobState.creating (codes "LEGS_RESERVED") (
        detail_of (
          index_entries (codes "creating") (map (λ (l : QuotedLeg). l.leg_index) sending)
          ++ skipped_entries passed_over))
    outcome ← create_all o job job.state rows sending (reports_of [] passed_over) []
    after_creates job outcome

  -- Nothing that survives to be sent ends in `noneLeft`.
  unfoldable pub send_all : JobRecord → List QuotedLeg → List PreparedLeg → Act DriveResult
  send_all job [] passed_over = none_left o job passed_over
  send_all job (leg ∷ rest) passed_over = creating job (leg ∷ rest) passed_over

  unfoldable pub execute : JobRecord → List QuotedLeg → List PreparedLeg → Act DriveResult
  execute job quoted skipped = do
    existing ← query (list_legs job.job_id)
    u ← reserve_all o existing (to_reserve quoted skipped)
    sorted_out ← commit_all o job quoted
    let passed_over = in_leg_order (skipped ++ sorted_out.1)
    v ← skip_all o passed_over
    send_all job sorted_out.0 passed_over

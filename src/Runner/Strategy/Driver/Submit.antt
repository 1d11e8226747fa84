-- ===== src/Runner/Strategy/Driver/Submit.antt =====
-- `execute` of packages/runner/src/strategy/driver.ts behind its creates: the signatures and the
-- submits.
use waterx_predict_agent.Base.{
  ℕ, ◌==◌, if◌then◌else◌, true, Option, none, some, List, [], ◌∷◌, ◌++◌, map, Text, codes,
}
use waterx_predict_agent.Runner.StateMachine.{JobState}
use waterx_predict_agent.Runner.Secrets.{Json}
use waterx_predict_agent.Runner.Detail.{detail_of, fields, items, number, word}
use waterx_predict_agent.Runner.Job.{
  JobRecord, JobLegStatus, SideEffectKind, SideEffectOutcome, SideEffectAttempt,
}
use waterx_predict_agent.Runner.Store.Effects.{begin_side_effect, complete_side_effect}
use waterx_predict_agent.Runner.Store.Db.{Result, ok, err}
use waterx_predict_agent.Runner.Reconciler.{ExecutionRead}
use waterx_predict_agent.Runner.Reconciler.Pass.{status_text}
use waterx_predict_agent.Runner.Strategy.Gateway.{Answer, Signing, signature, unsigned}
use waterx_predict_agent.Runner.Strategy.World
use waterx_predict_agent.Runner.Strategy.World.{Act, Payload, ask, pure, send, store, ◌>>=◌}
use waterx_predict_agent.Runner.Strategy.Preflight.{Entries, entry}
use waterx_predict_agent.Runner.Strategy.Driver.{
  DriveAction, DriveJobOptions, DriveLegReport, DriveResult, report, set_report, sorted,
}
use waterx_predict_agent.Runner.Strategy.Driver.Report.{index_entries, refusal_detail}
use waterx_predict_agent.Runner.Strategy.Driver.Endings.{move, reconcile_plain, unknown}
use waterx_predict_agent.Runner.Strategy.Driver.Create.{LiveLeg, no_patch, with_status}

pub record SignedLeg : Type 0 where
  pub leg_index : ℕ
  pub execution_id : ℕ
  pub signature : ℕ

-- The legs that were signed, the index and the code of those that were not, and the reports.
pub record Signed : Type 0 where
  pub signed : List SignedLeg
  pub unsigned : List (ℕ × Text)
  pub reports : List DriveLegReport

abbrev refused_reports : ℕ → Text → List DriveLegReport → List DriveLegReport
refused_reports i code [] = []
refused_reports i code (r ∷ rs) =
    (if r.leg_index == i then record r { sign_refused_code = some code } else r)
    ∷ refused_reports i code rs

abbrev after_sign : LiveLeg → Signing → Signed → Signed
after_sign leg (signature s) done = record done {
  signed =
      done.signed
      ++ record {
        leg_index = leg.leg_index;
        execution_id = leg.created.execution_id;
        signature = s;
      }
        ∷ [];
}
after_sign leg (unsigned code) done = record done {
  unsigned = done.unsigned ++ (leg.leg_index, code) ∷ [];
  reports = refused_reports leg.leg_index code done.reports;
}

-- What becomes of the submit of one leg; `none` leaves its report as it is.
pub data SubmitOutcome : Type 0 where
  carry_on : Option Text → SubmitOutcome
  gave_up : DriveResult → SubmitOutcome

pub data SubmitsOutcome : Type 0 where
  all_sent : List DriveLegReport → SubmitsOutcome
  cut_short : DriveResult → SubmitsOutcome

abbrev refused_report : SignedLeg → Text → DriveLegReport
refused_report leg code = record (report leg.leg_index) {
  attempted = true;
  execution_id = some leg.execution_id;
  refused_code = some code;
}

abbrev unsigned_json : ℕ × Text → Json
unsigned_json (i, code) =
    Json.object (fields ((codes "legIndex", number i) ∷ (codes "code", word code) ∷ []))

abbrev unsigned_entry : List (ℕ × Text) → Entries
unsigned_entry legs = entry (codes "unsigned") (Json.array (items (map unsigned_json legs)))

abbrev unsigned_entries : List (ℕ × Text) → Entries
unsigned_entries [] = []
unsigned_entries (u ∷ us) = unsigned_entry (u ∷ us)

abbrev summary : JobRecord → JobState → Signed → List DriveLegReport → DriveResult → DriveResult
summary job from signed reports r = record {
  job_id = job.job_id;
  from = from;
  to = r.to;
  action = elim r.action [ DriveAction.ended ↦ DriveAction.ended | _ ↦ DriveAction.executed ];
  reason = codes "SUBMITTED";
  legs = some (sorted reports);
  detail = some ((codes "reconcile", word r.reason) ∷ unsigned_entries signed.unsigned);
}

module _ (o : DriveJobOptions) where
  unfoldable pub sign_all : JobRecord → List LiveLeg → Signed → Act Signed
  sign_all job [] done = pure done
  sign_all job (leg ∷ rest) done = do
    signing ← ask (λ m. ok (
        o.outside.sign m (record {
          job_id = job.job_id;
          leg_index = leg.leg_index;
          agent_wallet = job.agent_wallet;
          policy = job.policy;
          transaction_bytes = leg.created.transaction_bytes;
        })))
    sign_all job rest (after_sign leg signing done)

  abbrev pub submit_unresolved :
      JobRecord → JobState → SignedLeg → SideEffectAttempt → Act SubmitOutcome
  submit_unresolved job from leg attempt = do
    r ← unknown o job from (codes "SUBMIT_UNRESOLVED") (
        (codes "legIndex", number leg.leg_index)
        ∷ (codes "attemptId", number attempt.attempt_id)
        ∷ (codes "executionId", number leg.execution_id)
        ∷ [])
    pure (gave_up r)

  -- The close of the attempt stands in the same `try` as the request, so its error settles nothing.
  abbrev pub after_close :
      {A : Type 0}
      → JobRecord
      → JobState
      → SignedLeg
      → SideEffectAttempt
      → Result A
      → Act SubmitOutcome
  after_close job from leg attempt (ok row) = pure (carry_on none)
  after_close job from leg attempt (err x) = submit_unresolved job from leg attempt

  unfoldable pub after_submit :
      JobRecord
      → JobState
      → SignedLeg
      → SideEffectAttempt
      → Answer ExecutionRead
      → Act SubmitOutcome
  after_submit job from leg attempt (Answer.answered submitted) = do
    closed ← World.attempt (
        store (
          complete_side_effect (record {
            lease = o.lease;
            attempt_id = attempt.attempt_id;
            outcome = SideEffectOutcome.succeeded;
            at = o.at;
            detail = detail_of (
                (codes "executionId", number submitted.execution_id)
                ∷ (codes "status", word (status_text submitted.status))
                ∷ []);
            leg = some (record no_patch { submission_digest = submitted.transaction_digest });
          })))
    after_close job from leg attempt closed
  after_submit job from leg attempt (Answer.refused error) = do
    row ← store (
        complete_side_effect (record {
          lease = o.lease;
          attempt_id = attempt.attempt_id;
          outcome = SideEffectOutcome.failed;
          at = o.at;
          detail = detail_of (refusal_detail error);
          leg = some (with_status JobLegStatus.failed);
        }))
    pure (carry_on (some error.code))
  after_submit job from leg attempt Answer.unresolved = submit_unresolved job from leg attempt

  -- The fingerprint is over the execution id, not the signature.
  unfoldable pub submit_one : JobRecord → JobState → SignedLeg → Act SubmitOutcome
  submit_one job from leg = do
    id ← ask (λ m. ok (o.outside.new_id m))
    attempt ← store (
        begin_side_effect (record {
          lease = o.lease;
          attempt_id = id;
          leg_index = leg.leg_index;
          kind = SideEffectKind.submit_execution;
          request_fingerprint = o.outside.fingerprint_submit leg.execution_id;
          at = o.at;
        }))
    answer ←
        send
          (record {
            job_id = o.lease.job_id;
            leg_index = leg.leg_index;
            payload = Payload.submit leg.execution_id leg.signature;
          })
          (λ m. o.outside.submit_execution m leg.execution_id leg.signature)
    after_submit job from leg attempt answer

  abbrev pub go_on :
      SignedLeg
      → List DriveLegReport
      → SubmitOutcome
      → (List DriveLegReport → Act SubmitsOutcome)
      → Act SubmitsOutcome
  go_on leg reports (carry_on none) k = k reports
  go_on leg reports (carry_on (some code)) k = k (set_report (refused_report leg code) reports)
  go_on leg reports (gave_up r) k = pure (cut_short r)

  unfoldable pub submit_all :
      JobRecord → JobState → List SignedLeg → List DriveLegReport → Act SubmitsOutcome
  submit_all job from [] reports = pure (all_sent reports)
  submit_all job from (leg ∷ rest) reports = do
    outcome ← submit_one job from leg
    go_on leg reports outcome (submit_all job from rest)

  unfoldable pub after_submits : JobRecord → JobState → Signed → SubmitsOutcome → Act DriveResult
  after_submits job from signed (cut_short r) = pure r
  after_submits job from signed (all_sent reports) = do
    u ← move o JobState.submitted (codes "SUBMITTED") none
    v ← move o JobState.reconciling (codes "RECONCILE_STARTED") none
    r ← reconcile_plain o JobState.reconciling
    pure (summary job from signed reports r)

  abbrev pub submitting : JobRecord → JobState → Signed → List ℕ → Act DriveResult
  submitting job from signed indices = do
    u ←
        move o JobState.submitting (codes "SIGNED")
          (detail_of (index_entries (codes "legs") indices ++ unsigned_entries signed.unsigned))
    outcome ← submit_all job from signed.signed signed.reports
    after_submits job from signed outcome

  unfoldable pub submit_signed : JobRecord → JobState → Signed → List SignedLeg → Act DriveResult
  submit_signed job from signed [] = do
    u ←
        move o JobState.reconciling (codes "NOTHING_SIGNED")
          (detail_of (unsigned_entry signed.unsigned))
    r ← reconcile_plain o JobState.reconciling
    pure (record r {
      from = from;
      legs = some (sorted signed.reports);
      reason = codes "NOTHING_SIGNED";
    })
  submit_signed job from signed (l ∷ ls) =
      submitting job from signed (map (λ (s : SignedLeg). s.leg_index) (l ∷ ls))

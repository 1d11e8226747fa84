-- ===== src/Witnesses/DriveRun.antt =====
-- One pass of the driver, run: the job is watching under a lease, at once due, and every answer is
-- the good one.
use waterx_predict_agent.Runner.Strategy.Driver.Accounts.{
  IsOneOrder, drive_job-IsOneOrder, drive_job-IsAccounted, drive_job-Stands,
}
use waterx_predict_agent.Runner.Strategy.World.Ran.{IsAccounted}
use waterx_predict_agent.Runner.Store.Gives.{Stands}
use waterx_predict_agent.Runner.Store.Jobs.{get_job, transition}
use waterx_predict_agent.Runner.Store.Db.{append_transition, assert_lease, encode_detail, ok}
use waterx_predict_agent.Runner.Strategy.Driver.Pass.{drive_job, drive_known, check_locally}
use waterx_predict_agent.Runner.Strategy.Driver.Endings.{end_locally, end_from, move}
use waterx_predict_agent.Runner.Strategy.Driver.{
  DriveAction, DriveResult, say, verify_quote, DriveJobOptions,
}
use waterx_predict_agent.Runner.Strategy.Driver.Idle.{drive_job-IsQuiet}
use waterx_predict_agent.Runner.Strategy.Driver.Silent.{IsQuiet}
use waterx_predict_agent.Runner.Strategy.Driver.Quotes.{IsGoodQuote, verify_quote_iff}
use waterx_predict_agent.Runner.Strategy.Preflight.Authority.{classify_authorization}
use waterx_predict_agent.Runner.Strategy.Preflight.Verdicts.{
  IsGranted, IsWritable, classify_authorization_iff,
}
use waterx_predict_agent.Runner.Strategy.Preflight.Pages.{IsWithin, find_position-IsWithin}
use waterx_predict_agent.Runner.Strategy.Preflight.Checks.{find_position}
use waterx_predict_agent.Runner.Strategy.Gateway.{
  shares_for_fraction, Answer, EffectiveLimits, MarketStatus, Outside, Quote, signature,
}
use waterx_predict_agent.Runner.Strategy.Shares.{IsShareOf, shares_for_fraction-IsShareOf}
use waterx_predict_agent.Sdk.Decimal.{to_scaled, from_scaled}
use waterx_predict_agent.Witnesses.Data.{buy_leg, held_by_1, lease_of_1, with_job}
use waterx_predict_agent.Base.{
  All, ◌↔◌, ◌≡◌, refl, true, false, some, none, [], codes, arith, ℕ, ◌+◌,
}
use waterx_predict_agent.Runner.StateMachine.{
  can_transition, is_terminal_job_state, can_end_locally, JobState,
}
use waterx_predict_agent.Runner.Secrets.{assert_no_secrets, is_forbidden}
use waterx_predict_agent.Runner.Store.Invariant.{IsLedger}
use waterx_predict_agent.Runner.Reconciler.{ExecutionRead, ExecutionStatus}
use waterx_predict_agent.Runner.Strategy.World.{World}
use waterx_predict_agent.Runner.Store
use waterx_predict_agent.Runner.Strategy.World

abbrev pub good_quote : Quote
good_quote = record { quote_id = 40; expected_price = codes "0.5"; as_of = 60; expires_at = 90 }

abbrev read : ExecutionStatus → ExecutionRead
read status = record {
  execution_id = 800;
  status = status;
  transaction_digest = some 31;
  fill_digest = none;
}

abbrev pub limits : EffectiveLimits
limits = record {
  delegation = record { may_place_order = some true; may_request_close = none; checked_at = 59 };
  limits = some (record { is_suspended = false; policy_version = 2 });
  blockers = [];
  as_of = 59;
}

abbrev pub outside : Outside
outside = record {
  has_mandate = true;
  get_quote = λ m r. ok good_quote;
  create_execution = λ m body key. Answer.answered (record {
    execution_id = 800;
    reference_quote_id = 40;
    submission_quote_id = 41;
    status = ExecutionStatus.awaiting_signature;
    enforced_worst_price = codes "0.51";
    signature_expires_at = 80;
    transaction_bytes = 5;
  });
  submit_execution = λ m e s. Answer.answered (read ExecutionStatus.submitted);
  get_execution = λ m e. ok (read ExecutionStatus.filled);
  get_market = λ m id.
      ok (record { status = MarketStatus.in_play; tradeable = true; tradeability_reason = none });
  get_effective_limits = λ m id. ok limits;
  get_positions = λ m id cursor. ok (record { positions = []; next_cursor = some none });
  observe = λ m key. ok none;
  sign = λ m r. signature 66;
  new_id = λ m. 1000 + m;
  fingerprint_create = λ body. body.reference_quote_id;
  fingerprint_submit = λ e. e;
  mandate_digest = λ p. 60;
}

abbrev pub drive_at : ℕ → DriveJobOptions
drive_at at = record { outside = outside; lease = lease_of_1; at = at }

abbrev pub world : JobState → World
world s = record { db = with_job s; sent = []; moment = 0 }

pub world-IsLedger : (s : JobState) → IsLedger (world s).db
world-IsLedger s = record {
  legs = tt;
  keys = tt;
  executions = tt;
  open_attempts = tt;
  keyed = tt;
  amounts = tt;
}

drive_job-IsOneOrder_example :
    All
      (λ s. All (IsOneOrder s) (drive_job (drive_at 60) (world JobState.watching)).1.sent)
      (drive_job (drive_at 60) (world JobState.watching)).1.sent
drive_job-IsOneOrder_example =
    drive_job-IsOneOrder (drive_at 60) (world JobState.watching) (world-IsLedger JobState.watching)
      tt

drive_job-IsAccounted_example :
    IsAccounted outside (drive_job (drive_at 60) (world JobState.watching)).1
drive_job-IsAccounted_example =
    drive_job-IsAccounted (drive_at 60) (world JobState.watching) (world-IsLedger JobState.watching)
      tt

abbrev expiry : DriveResult
expiry =
    say (held_by_1 JobState.watching) JobState.expired DriveAction.ended (codes "EXPIRY_REACHED")

drive_job-Stands_example :
    Stands 7 JobState.expired (drive_job (drive_at 1000) (world JobState.watching)).1.db
unfolding drive_job drive_known check_locally end_locally end_from move World.store World.lift
    World.query World.pure World.◌>>=◌ Store.Prog.call get_job transition append_transition
    assert_lease encode_detail can_transition is_terminal_job_state can_end_locally
    assert_no_secrets is_forbidden Store.Db.◌>>=◌
drive_job-Stands_example =
    drive_job-Stands (drive_at 1000) (world JobState.watching) expiry
      (world-IsLedger JobState.watching) refl

drive_job-IsQuiet_example :
    IsQuiet (world JobState.watching) (drive_job (drive_at 1000) (world JobState.watching)).1
unfolding can_end_locally
drive_job-IsQuiet_example =
    drive_job-IsQuiet (drive_at 1000) (held_by_1 JobState.watching) (world JobState.watching) refl
      refl (λ m. let late = m.live in omega (arith, late))

verify_quote_iff_example :
    (verify_quote (held_by_1 JobState.triggered) buy_leg good_quote 60 ≡ ok none)
    ↔ IsGoodQuote (held_by_1 JobState.triggered) buy_leg good_quote 60
verify_quote_iff_example = verify_quote_iff (held_by_1 JobState.triggered) buy_leg good_quote 60

classify_authorization_iff_example :
    (classify_authorization limits (record { place = true; close = false }) true ≡ none) ↔ (
      IsGranted limits (record { place = true; close = false }) × (true ≡ true → IsWritable limits))
classify_authorization_iff_example =
    classify_authorization_iff limits (record { place = true; close = false }) true

find_position-IsWithin_example :
    IsWithin outside 72 5 20 0 none
      (world JobState.watching)
      (find_position outside 72 5 (world JobState.watching))
find_position-IsWithin_example = find_position-IsWithin outside 72 5 (world JobState.watching)

shares_for_fraction-IsShareOf_example :
    (n : ℕ) × (to_scaled (codes "1.500000") ≡ some n) × IsShareOf 3_000_000 500_000 n
unfolding to_scaled from_scaled shares_for_fraction Store.Db.◌>>=◌
shares_for_fraction-IsShareOf_example =
    shares_for_fraction-IsShareOf (codes "3") (codes "0.5") (codes "1.500000") 3_000_000 500_000
      refl refl refl

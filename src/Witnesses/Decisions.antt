-- ===== src/Witnesses/Decisions.antt =====
-- The theorems on the decision tables, the secrets check and the decimals at concrete values.
use waterx_predict_agent.Base.{some, [], ◌∷◌, true, false, not, ◌≡◌, codes, any, is_none}
use waterx_predict_agent.Sdk.Decimal.{to_scaled, from_scaled}
use waterx_predict_agent.Sdk.Decimal.RoundTrip.{to_scaled-from_scaled}
use waterx_predict_agent.Runner.StateMachine.{JobState, is_in_flight_job_state}
use waterx_predict_agent.Runner.Secrets.{Json, Fields, is_forbidden, assert_no_secrets, at_key}
use waterx_predict_agent.Runner.Secrets.Refusal.{keys, assert_no_secrets_lem}
use waterx_predict_agent.Runner.Job.{JobLeg}
use waterx_predict_agent.Runner.Recovery.{Facts, classify}
use waterx_predict_agent.Runner.Recovery.Decision.{may_have_sent, classify-in_flight}
use waterx_predict_agent.Runner.Reconciler.{never_sent, next_move}
use waterx_predict_agent.Runner.Reconciler.Verdict.{IsRight, next_move-IsRight}
use waterx_predict_agent.Witnesses.Data.{the_leg, the_attempt, placed}

-- An open attempt of a job that was creating its order when its Runner died.
abbrev crashed : Facts
crashed = record {
  state = JobState.creating;
  has_open_attempt = true;
  has_abandoned_attempt = false;
  has_execution = false;
  cancel_requested = true;
  expired = true;
}

classify-in_flight_example : is_in_flight_job_state (classify crashed).to ≡ may_have_sent crashed
classify-in_flight_example = classify-in_flight crashed

abbrev note : Json
note = Json.object (
    Fields.field (codes "leg")
      (Json.object (Fields.field (codes "Access-Token") (Json.primitive (codes "x")) Fields.end))
      Fields.end)

assert_no_secrets_lem_example :
    is_none (assert_no_secrets note (at_key (codes "detail") ∷ []))
    ≡ not (any is_forbidden (keys note))
assert_no_secrets_lem_example = assert_no_secrets_lem note (at_key (codes "detail") ∷ [])

to_scaled-from_scaled_example : to_scaled (from_scaled 1250000) ≡ some 1250000
to_scaled-from_scaled_example = to_scaled-from_scaled 1250000

-- The second leg of a job whose first is on the server.
abbrev second_leg : JobLeg
second_leg = record the_leg { leg_index = 1; idempotency_key = 501 }

next_move-IsRight_example :
    IsRight (placed ∷ second_leg ∷ []) (the_attempt ∷ []) (never_sent 1 true)
unfolding next_move
next_move-IsRight_example = next_move-IsRight (placed ∷ second_leg ∷ []) (the_attempt ∷ [])

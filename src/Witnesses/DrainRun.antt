-- ===== src/Witnesses/DrainRun.antt =====
-- A drain, run: an attempt of its own instance stays open, and the deadline passes.
use waterx_predict_agent.Base.{◌+◌, ◌≡◌, none, false, [], ◌∷◌, arith}
use waterx_predict_agent.Runner.StateMachine.{JobState}
use waterx_predict_agent.Runner.Strategy.World.{World}
use waterx_predict_agent.Runner.Drain.{DrainControllerOptions, DrainOptions, admitting, drain}
use waterx_predict_agent.Runner.Drain.Settles.{IsClock, Ends, drain-Ends}
use waterx_predict_agent.Witnesses.Data.{with_leg, the_attempt, lease_of_1}

abbrev controller : DrainControllerOptions
controller = record {
  instance_id = 1;
  now = λ m. m;
  driving = λ m. false;
  tick = none;
  sleep = λ ms w. record w { moment = w.moment + ms };
}

abbrev options : DrainOptions
options = record { deadline_ms = 5; poll_interval_ms = 2 }

abbrev in_flight : World
in_flight = record {
  db = record (with_leg JobState.creating) { effects = the_attempt ∷ [] };
  sent = [];
  moment = 20;
}

controller-IsClock : IsClock controller options
controller-IsClock = record { goes_on = λ leases w. omega arith; polls = omega arith }

drain-Ends_example :
    (admitting (drain controller options 6 none (lease_of_1 ∷ []) in_flight).0 ≡ false)
    × Ends controller options (drain controller options 6 none (lease_of_1 ∷ []) in_flight).1
drain-Ends_example =
    drain-Ends controller options none (lease_of_1 ∷ []) in_flight controller-IsClock

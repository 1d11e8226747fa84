-- ===== src/Runner/StateMachine.antt =====
-- packages/runner/src/state-machine.ts: the states of a durable job, what each state may do to the
-- outside world, and the closed set of edges.
pub mod Edges
use waterx_predict_agent.Base.{ℕ, ◌==◌, Bool, true, false, not, ◌&&◌, ◌||◌, List, [], ◌∷◌, select}

pub data JobState : Type 0 where
  draft watching paused triggered quoting creating awaiting_signature submitting submitted
        reconciling unknown_pending filled failed cancelled expired :
      JobState

-- The position of a state among the keys of `JOB_STATES`; two states are equal when theirs are.
abbrev pub ordinal : JobState → ℕ
ordinal draft = 0
ordinal watching = 1
ordinal paused = 2
ordinal triggered = 3
ordinal quoting = 4
ordinal creating = 5
ordinal awaiting_signature = 6
ordinal submitting = 7
ordinal submitted = 8
ordinal reconciling = 9
ordinal unknown_pending = 10
ordinal filled = 11
ordinal failed = 12
ordinal cancelled = 13
ordinal expired = 14

abbrev pub state_eq : JobState → JobState → Bool
state_eq a b = ordinal a == ordinal b

pub data JobStateEffect : Type 0 where
  nothing read sign write : JobStateEffect

pub record JobStateSpec : Type 0 where
  pub terminal : Bool
  pub effect : JobStateEffect
  pub requires_leg : Bool
  pub in_flight : Bool

-- `JOB_STATES`.
abbrev pub job_states : JobState → JobStateSpec
job_states draft = record {
  terminal = false;
  effect = nothing;
  requires_leg = false;
  in_flight = false;
}
job_states watching = record {
  terminal = false;
  effect = read;
  requires_leg = false;
  in_flight = false;
}
job_states paused = record {
  terminal = false;
  effect = nothing;
  requires_leg = false;
  in_flight = false;
}
job_states triggered = record {
  terminal = false;
  effect = nothing;
  requires_leg = false;
  in_flight = false;
}
job_states quoting = record {
  terminal = false;
  effect = read;
  requires_leg = false;
  in_flight = false;
}
job_states creating = record {
  terminal = false;
  effect = write;
  requires_leg = true;
  in_flight = true;
}
job_states awaiting_signature = record {
  terminal = false;
  effect = sign;
  requires_leg = true;
  in_flight = true;
}
job_states submitting = record {
  terminal = false;
  effect = write;
  requires_leg = true;
  in_flight = true;
}
job_states submitted = record {
  terminal = false;
  effect = read;
  requires_leg = true;
  in_flight = true;
}
job_states reconciling = record {
  terminal = false;
  effect = read;
  requires_leg = true;
  in_flight = true;
}
job_states unknown_pending = record {
  terminal = false;
  effect = nothing;
  requires_leg = true;
  in_flight = true;
}
job_states filled = record {
  terminal = true;
  effect = nothing;
  requires_leg = true;
  in_flight = false;
}
job_states failed = record {
  terminal = true;
  effect = nothing;
  requires_leg = false;
  in_flight = false;
}
job_states cancelled = record {
  terminal = true;
  effect = nothing;
  requires_leg = false;
  in_flight = false;
}
job_states expired = record {
  terminal = true;
  effect = nothing;
  requires_leg = false;
  in_flight = false;
}

-- `JOB_TRANSITIONS`.
abbrev pub job_transitions : JobState → List JobState
job_transitions draft = watching ∷ cancelled ∷ expired ∷ failed ∷ []
job_transitions watching = triggered ∷ paused ∷ cancelled ∷ expired ∷ failed ∷ []
job_transitions paused = watching ∷ cancelled ∷ expired ∷ failed ∷ []
job_transitions triggered = quoting ∷ watching ∷ paused ∷ cancelled ∷ expired ∷ failed ∷ []
job_transitions quoting = creating ∷ watching ∷ paused ∷ cancelled ∷ expired ∷ failed ∷ []
job_transitions creating = awaiting_signature ∷ reconciling ∷ failed ∷ unknown_pending ∷ []
job_transitions awaiting_signature = submitting ∷ reconciling ∷ failed ∷ unknown_pending ∷ []
job_transitions submitting = submitted ∷ reconciling ∷ failed ∷ unknown_pending ∷ []
job_transitions submitted = reconciling ∷ unknown_pending ∷ []
job_transitions reconciling =
    filled ∷ failed ∷ cancelled ∷ expired ∷ unknown_pending ∷ creating ∷ submitting ∷ watching ∷ []
job_transitions unknown_pending = reconciling ∷ []
job_transitions filled = []
job_transitions failed = []
job_transitions cancelled = []
job_transitions expired = []

abbrev pub includes : List JobState → JobState → Bool
includes [] s = false
includes (x ∷ xs) s = state_eq x s || includes xs s

unfoldable pub is_terminal_job_state : JobState → Bool
is_terminal_job_state s = (job_states s).terminal

-- `Object.keys(JOB_STATES)`.
abbrev all_states : List JobState
all_states =
    draft ∷ watching ∷ paused ∷ triggered ∷ quoting ∷ creating ∷ awaiting_signature ∷ submitting
    ∷ submitted ∷ reconciling ∷ unknown_pending ∷ filled ∷ failed ∷ cancelled ∷ expired ∷ []

abbrev pub non_terminal_job_states : List JobState
non_terminal_job_states = select (λ s. not (job_states s).terminal) all_states

unfoldable pub is_in_flight_job_state : JobState → Bool
is_in_flight_job_state s = (job_states s).in_flight

unfoldable pub can_transition : JobState → JobState → Bool
can_transition from to = includes (job_transitions from) to

unfoldable pub can_end_locally : JobState → Bool
can_end_locally s = not (job_states s).terminal && not (job_states s).in_flight

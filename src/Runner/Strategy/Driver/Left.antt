-- ===== src/Runner/Strategy/Driver/Left.antt =====
-- `driveJob` of packages/runner/src/strategy/driver.ts on the jobs that it leaves as they are.
use waterx_predict_agent.Base.{
  Bool, true, false, not, ◌&&◌, ◌||◌, Bool-cases, some, ◌≡◌, refl, inl, inr,
}
use waterx_predict_agent.Runner.StateMachine.{
  JobState, can_end_locally, is_terminal_job_state, is_in_flight_job_state,
}
use waterx_predict_agent.Runner.Job.{JobRecord}
use waterx_predict_agent.Runner.Store.Db.{find_job}
use waterx_predict_agent.Runner.Store.Jobs.{get_job}
use waterx_predict_agent.Runner.Strategy.World.{World, pure, query, ◌>>=◌}
use waterx_predict_agent.Runner.Strategy.Driver.{DriveJobOptions}
use waterx_predict_agent.Runner.Strategy.Driver.Pass.{
  advance, advance_from, check_locally, in_doubt, drive_known, drive_job,
}

-- The states that a pass may not leave: the terminal ones, and those of a run that was cut off.
abbrev pub is_left : JobState → Bool
is_left s = is_terminal_job_state s || (is_in_flight_job_state s && not (in_doubt s))

advance_from-left :
    (o : DriveJobOptions) (job : JobRecord) (s : JobState) (w : World)
    → is_left s ≡ true
    → (advance_from o job s w).1 ≡ w
unfolding is_terminal_job_state is_in_flight_job_state pure
advance_from-left o job JobState.draft w h = cc
advance_from-left o job JobState.watching w h = cc
advance_from-left o job JobState.paused w h = cc
advance_from-left o job JobState.triggered w h = cc
advance_from-left o job JobState.quoting w h = refl
advance_from-left o job JobState.creating w h = refl
advance_from-left o job JobState.awaiting_signature w h = refl
advance_from-left o job JobState.submitting w h = refl
advance_from-left o job JobState.submitted w h = refl
advance_from-left o job JobState.reconciling w h = refl
advance_from-left o job JobState.unknown_pending w h = refl
advance_from-left o job JobState.filled w h = refl
advance_from-left o job JobState.failed w h = refl
advance_from-left o job JobState.cancelled w h = refl
advance_from-left o job JobState.expired w h = refl

left_states : (s : JobState) → is_left s ≡ true → (in_doubt s ≡ false) × (can_end_locally s ≡ false)
unfolding can_end_locally is_terminal_job_state is_in_flight_job_state
left_states JobState.draft h = cc
left_states JobState.watching h = cc
left_states JobState.paused h = cc
left_states JobState.triggered h = cc
left_states JobState.quoting h = cc
left_states JobState.creating h = (refl, refl)
left_states JobState.awaiting_signature h = (refl, refl)
left_states JobState.submitting h = (refl, refl)
left_states JobState.submitted h = (refl, refl)
left_states JobState.reconciling h = cc
left_states JobState.unknown_pending h = cc
left_states JobState.filled h = (refl, refl)
left_states JobState.failed h = (refl, refl)
left_states JobState.cancelled h = (refl, refl)
left_states JobState.expired h = (refl, refl)

-- A pass over a job that has ended, or that a crash left between CREATING and SUBMITTED, changes
-- nothing: it writes, sends and asks nothing.
pub drive_job-leaves :
    (o : DriveJobOptions) (job : JobRecord) (w : World)
    → find_job o.lease.job_id w.db ≡ some job
    → is_left job.state ≡ true
    → (drive_job o w).1 ≡ w
unfolding drive_job drive_known query get_job ◌>>=◌ check_locally advance pure
drive_job-leaves o job w found left =
    let (known, busy) = left_states job.state left in
    elim (Bool-cases (is_terminal_job_state job.state)) [
      | inl e ↦ rw (found, e) refl
      | inr e ↦ rw (found, e, known, busy) (advance_from-left o job job.state w left)
    ]

-- ===== src/Runner/Drain.antt =====
-- `DrainController` of packages/runner/src/drain.ts. The keeper is the list of the leases that it
-- holds. `tick` and `sleep` are parameters: a tick that throws is one that ends where it got to.
-- The options come with their defaults filled in.
pub mod Settles
use waterx_predict_agent.Base.{
  ℕ, zero, suc, ◌+◌, ◌-◌, ◌==◌, leb, Bool, true, false, not, Option, none, some, or_else, is_none,
  List, [], ◌∷◌, map, select, length,
}
use waterx_predict_agent.Runner.StateMachine.{non_terminal_job_states}
use waterx_predict_agent.Runner.Job.{JobLease, SideEffectAttempt, SideEffectKind}
use waterx_predict_agent.Runner.Store.Db.{Db}
use waterx_predict_agent.Runner.Store.Effects.{list_open_side_effects}
use waterx_predict_agent.Runner.Store.Jobs.{JobFilter, list_jobs}
use waterx_predict_agent.Runner.Scheduler.{held}
use waterx_predict_agent.Runner.Strategy.World.{World}

pub record DrainAttempt : Type 0 where
  pub attempt_id : ℕ
  pub job_id : ℕ
  pub leg_index : ℕ
  pub kind : SideEffectKind
  pub started_at : ℕ

-- Without `admitting`, which is always false, `deadlineExceeded`, which is the negation of
-- `settled`, and `joined`.
pub record DrainReport : Type 0 where
  pub instance_id : ℕ
  pub began_at : ℕ
  pub at : ℕ
  pub driving : Bool
  pub settled : Bool
  pub deadline_ms : ℕ
  pub deadline_at : ℕ
  pub waited_ms : ℕ
  pub held : List ℕ
  pub settling : List DrainAttempt
  pub inherited : List DrainAttempt
  pub non_terminal : ℕ

pub record DrainOptions : Type 0 where
  pub deadline_ms : ℕ
  pub poll_interval_ms : ℕ

-- What a tick leaves: the leases and the world.
pub record DrainControllerOptions : Type 0 where
  pub instance_id : ℕ
  pub now : ℕ → ℕ
  pub driving : ℕ → Bool
  pub tick : Option (List JobLease → World → List JobLease × World)
  pub sleep : ℕ → World → World

abbrev pub to_attempt : SideEffectAttempt → DrainAttempt
to_attempt a = record {
  attempt_id = a.attempt_id;
  job_id = a.job_id;
  leg_index = a.leg_index;
  kind = a.kind;
  started_at = a.started_at;
}

pub record Snapshot : Type 0 where
  pub held : List ℕ
  pub settling : List DrainAttempt
  pub inherited : List DrainAttempt
  pub non_terminal : ℕ

abbrev pub is_mine : ℕ → SideEffectAttempt → Bool
is_mine id a = a.instance_id == id

unfoldable pub snapshot : ℕ → List JobLease → Db → Snapshot
snapshot id leases db = record {
  held = held leases;
  settling = map to_attempt (select (is_mine id) (list_open_side_effects none db));
  inherited = map to_attempt (select (λ a. not (is_mine id a)) (list_open_side_effects none db));
  non_terminal = length (
      list_jobs
        (record {
          states = some non_terminal_job_states;
          account_id = none;
          strategy_id = none;
          unleased_at = none;
        })
        db);
}

abbrev pub is_settled : Snapshot → Bool
is_settled s = length s.settling == 0

module _ (o : DrainControllerOptions) (options : DrainOptions) where
  abbrev pub report : ℕ → ℕ → Bool → Snapshot → World → DrainReport
  report began_at started settled s w = record {
    instance_id = o.instance_id;
    began_at = began_at;
    at = o.now w.moment;
    driving = o.driving w.moment;
    settled = settled;
    deadline_ms = options.deadline_ms;
    deadline_at = started + options.deadline_ms;
    waited_ms = o.now w.moment - started;
    held = s.held;
    settling = s.settling;
    inherited = s.inherited;
    non_terminal = s.non_terminal;
  }

  -- A tick, if anything drives, and the poll interval.
  abbrev tick_if :
      Option (List JobLease → World → List JobLease × World)
      → List JobLease
      → World
      → List JobLease × World
  tick_if none leases w = (leases, w)
  tick_if (some tick) leases w = tick leases w

  abbrev pub poll : List JobLease → World → List JobLease × World
  poll leases w =
      let (after, v) = tick_if o.tick leases w in (after, o.sleep options.poll_interval_ms v)

  -- What one look at the store says, as it settles or is late: a report, or another round.
  abbrev pub look_at : Bool → Bool → (Bool → DrainReport) → Option DrainReport
  look_at true late told = some (told true)
  look_at false true told = some (told false)
  look_at false false told = none

  unfoldable pub look : ℕ → ℕ → List JobLease → World → Option DrainReport
  look began_at started leases w =
      let s = snapshot o.instance_id leases w.db in
      look_at (is_settled s) (leb options.deadline_ms (o.now w.moment - started))
        (λ settled. report began_at started settled s w)

  abbrev pub or_again :
      Option DrainReport → World → Option (DrainReport × World) → Option (DrainReport × World)
  or_again (some r) w again = some (r, w)
  or_again none w again = again

  -- `for (;;)`, on fuel.
  unfoldable pub drain_loop : ℕ → ℕ → ℕ → List JobLease → World → Option (DrainReport × World)
  drain_loop zero began_at started leases w = none
  drain_loop (suc fuel) began_at started leases w =
      let (after, v) = poll leases w in
      or_again (look began_at started leases w) w (drain_loop fuel began_at started after v)

  -- `runDrain`, with `beganAt` as the controller holds it.
  unfoldable pub run_drain : ℕ → Option ℕ → List JobLease → World → Option (DrainReport × World)
  run_drain fuel began_at leases w = elim began_at [
    | some began ↦ drain_loop fuel began (o.now w.moment) leases w
    | none ↦ drain_loop fuel (o.now w.moment) (o.now w.moment) leases w
  ]

  -- `drain`, where none is in progress: what the controller holds afterwards, and the report.
  abbrev pub drain : ℕ → Option ℕ → List JobLease → World → Option ℕ × Option (DrainReport × World)
  drain fuel began_at leases w =
      let began = or_else began_at (some (o.now w.moment)) in (began, run_drain fuel began leases w)

-- `admitting`.
abbrev pub admitting : Option ℕ → Bool
admitting began_at = is_none began_at

-- What `runner.status` tells of a drain.
pub record DrainState : Type 0 where
  pub began_at : ℕ
  pub settled : Bool
  pub settling : ℕ
  pub inherited : ℕ

abbrev pub state : ℕ → Option ℕ → List JobLease → Db → Option DrainState
state id none leases db = none
state id (some began) leases db =
    let s = snapshot id leases db in
    some (record {
      began_at = began;
      settled = is_settled s;
      settling = length s.settling;
      inherited = length s.inherited;
    })

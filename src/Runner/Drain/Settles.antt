-- ===== src/Runner/Drain/Settles.antt =====
-- A drain of packages/runner/src/drain.ts comes to an end, and what its report says.
use waterx_predict_agent.Base.{
  ℕ, zero, suc, ◌+◌, ◌-◌, ◌≤◌, ◌<◌, ◌==◌, length, leb, true, false, Bool-cases, Option, none, some,
  List, [], ◌∷◌, map, select, ◌≡◌, refl, arith, inl, inr, ◌↔◌, ◌⊎◌,
}
use waterx_predict_agent.Runner.Job.{JobLease}
use waterx_predict_agent.Runner.Store.Db.{Db}
use waterx_predict_agent.Runner.Store.Effects.{list_open_side_effects}
use waterx_predict_agent.Runner.Strategy.World.{World}
use waterx_predict_agent.Runner.Drain.{
  DrainAttempt, DrainControllerOptions, DrainOptions, DrainReport, snapshot, is_mine, is_settled,
  to_attempt, poll, look, drain_loop, run_drain, report, drain, admitting,
}

-- The clock never goes back while a tick runs, and a sleep takes its time.
pub record IsClock (o : DrainControllerOptions) (options : DrainOptions) : Type 0 where
  pub goes_on :
      (leases : List JobLease) (w : World)
      → o.now w.moment + options.poll_interval_ms ≤ o.now (poll o options leases w).1.moment
  pub polls : 0 < options.poll_interval_ms

-- What a report says of the store that it was made from.
pub record IsAccurate (o : DrainControllerOptions) (options : DrainOptions) (r : DrainReport)
    (w : World) : Type 0 where
  pub settling :
      r.settling
      ≡ map to_attempt (select (is_mine o.instance_id) (list_open_side_effects none w.db))
  pub settled : (r.settled ≡ true) ↔ (r.settling ≡ [])
  pub waited : r.settled ≡ false → options.deadline_ms ≤ r.waited_ms

-- It ends in a report, which is accurate of the world it ends in.
pub Ends : DrainControllerOptions → DrainOptions → Option (DrainReport × World) → Type 0
Ends o options none = ⊥
Ends o options (some (r, w)) = IsAccurate o options r w

-- No open attempts: the test on the length and the list say the same.
length-empty : (l : List DrainAttempt) → (length l == 0) ≡ true → l ≡ []
length-empty [] e = refl
length-empty (a ∷ rest) e = ground (arith, e)

empty-length : (l : List DrainAttempt) → l ≡ [] → (length l == 0) ≡ true
empty-length l e = rw e refl

snapshot-settling :
    (id : ℕ) (leases : List JobLease) (db : Db)
    → (snapshot id leases db).settling
      ≡ map to_attempt (select (is_mine id) (list_open_side_effects none db))
unfolding snapshot
snapshot-settling id leases db = refl

module _ (o : DrainControllerOptions) (options : DrainOptions) where
  look-cases :
      (began started : ℕ) (leases : List JobLease) (w : World)
      → ((r : DrainReport) × (look o options began started leases w ≡ some r)
          × IsAccurate o options r w)
        ⊎ ((look o options began started leases w ≡ none)
            × (o.now w.moment - started < options.deadline_ms))
  unfolding look
  look-cases began started leases w =
      let s = snapshot o.instance_id leases w.db in
      elim (Bool-cases (is_settled s)) [
        | inl e ↦ inl (
          report o options began started true s w,
          rw e refl,
          record {
            settling = snapshot-settling o.instance_id leases w.db;
            settled = (λ said. length-empty s.settling e, λ none_left. refl);
            waited = λ unsettled. cc;
          },
        )
        | inr e ↦ elim (Bool-cases (leb options.deadline_ms (o.now w.moment - started))) [
          | inl late ↦ inl (
            report o options began started false s w,
            rw (e, late) refl,
            record {
              settling = snapshot-settling o.instance_id leases w.db;
              settled = (λ bad. cc, λ none_left. let now = empty-length s.settling none_left in cc);
              waited = λ unsettled. ground (arith, late);
            },
          )
          | inr early ↦ inr (rw (e, early) refl, ground (arith, early))
        ]
      ]

  drain_loop-Ends :
      IsClock o options
      → (fuel began started : ℕ) (leases : List JobLease) (w : World) → started ≤ o.now w.moment
      → options.deadline_ms - (o.now w.moment - started) < fuel
      → Ends o options (drain_loop o options fuel began started leases w)
  unfolding drain_loop Ends
  drain_loop-Ends clock zero began started leases w up left = ground (arith, left)
  drain_loop-Ends clock (suc fuel) began started leases w up left =
      elim (look-cases began started leases w) [
        | inl (r, e, accurate) ↦ rw e accurate
        | inr (e, early) ↦
            let next = clock.goes_on leases w in
            let polls = clock.polls in
            rw e (
              drain_loop-Ends clock fuel began started _ _ (omega (arith, up, next))
                (omega (arith, up, next, left, polls, early)))
      ]

run_drain-Ends :
    (o : DrainControllerOptions) (options : DrainOptions) (began : Option ℕ)
    (leases : List JobLease) (w : World)
    → IsClock o options
    → Ends o options (run_drain o options (suc options.deadline_ms) began leases w)
unfolding run_drain
run_drain-Ends o options (some began) leases w clock =
    drain_loop-Ends o options clock _ began _ leases w (omega arith) (omega arith)
run_drain-Ends o options none leases w clock =
    drain_loop-Ends o options clock _ _ _ leases w (omega arith) (omega arith)

-- A drain closes admission. Under a clock that a poll moves by its interval, which is not zero, it
-- returns within a round for each millisecond of its deadline and one more, whatever the ticks do,
-- and its report is accurate of the world it ends in: it lists the open attempts of its own
-- instance, is settled exactly if there are none, and has waited out its deadline otherwise.
pub drain-Ends :
    (o : DrainControllerOptions) (options : DrainOptions) (began : Option ℕ)
    (leases : List JobLease) (w : World)
    → IsClock o options
    → (admitting (drain o options (suc options.deadline_ms) began leases w).0 ≡ false)
      × Ends o options (drain o options (suc options.deadline_ms) began leases w).1
drain-Ends o options none leases w clock = (refl, run_drain-Ends o options _ leases w clock)
drain-Ends o options (some began) leases w clock = (refl, run_drain-Ends o options _ leases w clock)

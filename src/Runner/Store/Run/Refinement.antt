-- ===== src/Runner/Store/Run/Refinement.antt =====
-- Every call refines a change, and what every change keeps, every history keeps.
use waterx_predict_agent.Base.{List, [], ◌∷◌}
use waterx_predict_agent.Runner.Store.Db.{Db, Result}
use waterx_predict_agent.Runner.Store.Change.{Change, Makes, makes, fails, keep}
use waterx_predict_agent.Runner.Store.Change.JobMethods.{
  register_instance-Makes, heartbeat-Makes, stop_instance-Makes, create_job-Makes,
  request_cancel-Makes, claim_job-Makes, renew_lease-Makes, release_job-Makes, transition-Makes,
}
use waterx_predict_agent.Runner.Store.Change.LedgerMethods.{
  reserve_leg-Makes, update_leg-Makes, commit_mandate_spend-Makes, begin_side_effect-Makes,
  complete_side_effect-Makes, save_cursor-Makes,
}
use waterx_predict_agent.Runner.Store.Run.{
  Call, registers, beats, stops, creates, asks_cancel, claims, renews, releases, moves, reserves,
  commits, updates, begins, completes, saves, after, step, run,
}

after-Change {ℓ} :
    {A : Type ℓ} {db : Db} {r : Result (A × Db)} → Makes db r → Change db (after db r)
after-Change (makes c) = c
after-Change fails = keep

-- Whatever a call is and whether or not it is refused, the database it leaves is one change away.
pub step-Change : (db : Db) (c : Call) → Change db (step db c)
unfolding step
step-Change db (registers input) = after-Change (register_instance-Makes input db)
step-Change db (beats id at) = after-Change (heartbeat-Makes id at db)
step-Change db (stops id at) = after-Change (stop_instance-Makes id at db)
step-Change db (creates input) = after-Change (create_job-Makes input db)
step-Change db (asks_cancel id reason at) = after-Change (request_cancel-Makes id reason at db)
step-Change db (claims input) = after-Change (claim_job-Makes input db)
step-Change db (renews lease at ttl) = after-Change (renew_lease-Makes lease at ttl db)
step-Change db (releases lease at) = after-Change (release_job-Makes lease at db)
step-Change db (moves input) = after-Change (transition-Makes input db)
step-Change db (reserves input) = after-Change (reserve_leg-Makes input db)
step-Change db (commits input) = after-Change (commit_mandate_spend-Makes input db)
step-Change db (updates lease i patch at) = after-Change (update_leg-Makes lease i patch at db)
step-Change db (begins input) = after-Change (begin_side_effect-Makes input db)
step-Change db (completes input) = after-Change (complete_side_effect-Makes input db)
step-Change db (saves scope cursor at) = after-Change (save_cursor-Makes scope cursor at db)

-- An invariant of changes is an invariant of histories.
pub run-keeps {ℓ} :
    (P : Db → Type ℓ)
    → ((db e : Db) → Change db e → P db → P e)
    → (db : Db) (cs : List Call) → P db
    → P (run db cs)
unfolding run
run-keeps P kept db [] h = h
run-keeps P kept db (c ∷ cs) h =
    run-keeps P kept (step db c) cs (kept db (step db c) (step-Change db c) h)

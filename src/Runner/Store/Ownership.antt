-- ===== src/Runner/Store/Ownership.antt =====
-- Whose attempt `completeSideEffect` of packages/runner/src/sqlite/store.ts closes.
use mathlib.Core.Option
use waterx_predict_agent.Base.{
  ℕ, Option, none, some, List, find, find_test, find-update, edited, update, ◌≡◌, refl, ap, ◌∙◌,
}
use waterx_predict_agent.Runner.Job.{SideEffectAttempt, SideEffectOutcome}
use waterx_predict_agent.Runner.Secrets.{Json}
use waterx_predict_agent.Runner.Store.Db.{
  Db, ok, ◌>>=◌, is_attempt, find_attempt, assert_lease, encode_detail,
}
use waterx_predict_agent.Runner.Store.Effects.{
  CompleteSideEffectInput, complete_side_effect, closed, patch_with,
}

closed-found :
    (id : ℕ) (outcome : SideEffectOutcome) (at : ℕ) (detail : Option Json)
    (rows : List SideEffectAttempt) (a : SideEffectAttempt)
    → find (is_attempt id) rows ≡ some a
    → find (is_attempt id) (update (is_attempt id) (closed outcome at detail) rows)
      ≡ some (closed outcome at detail a)
closed-found id outcome at detail rows a h =
    find-update (is_attempt id) (is_attempt id) (closed outcome at detail) rows (λ b e. refl)
    ∙ ap (Option.map (edited (is_attempt id) (closed outcome at detail))) h
    ∙ rw (find_test (is_attempt id) rows h)

-- Under a lease that the store accepts on any job, completing an open attempt with no detail and no
-- patch succeeds, whatever job the attempt belongs to: the row that is closed keeps that job.
pub complete_side_effect-any_job :
    (input : CompleteSideEffectInput) (db : Db) (attempt : SideEffectAttempt)
    → assert_lease input.lease db ≡ ok tt
    → find_attempt input.attempt_id db ≡ some attempt
    → attempt.outcome ≡ none
    → input.detail ≡ none
    → input.leg ≡ none
    → (row : SideEffectAttempt) × (e : Db) × (complete_side_effect input db ≡ ok (row, e))
      × (find_attempt input.attempt_id e ≡ some row)
      × (row.job_id ≡ attempt.job_id)
      × (row.outcome ≡ some input.outcome)
unfolding complete_side_effect ◌>>=◌ encode_detail patch_with
complete_side_effect-any_job input db attempt held found live plain bare =
    let there =
      closed-found input.attempt_id input.outcome input.at none db.effects attempt found in
    (
      closed input.outcome input.at none attempt,
      record db {
        effects =
            update (is_attempt input.attempt_id) (closed input.outcome input.at none) db.effects;
      },
      rw (held, found, live, plain, bare, there),
      there,
      refl,
      refl,
    )

-- ===== src/Runner/Store/Replay.antt =====
-- A call of packages/runner/src/sqlite/store.ts that is made again after its answer was lost.
use waterx_predict_agent.Runner.Job.{JobLease}
use waterx_predict_agent.Runner.Store.Db.{is_attempt, is_open_on, is_leg}
use waterx_predict_agent.Runner.Store.Gives.{Gives, gives, refuses, Gives-bind, Gives-ok}
use waterx_predict_agent.Base.{
  ◌==◌, ==_refl, true, some, List, ◌∷◌, find, ◌≡◌, refl, sym, ap, ◌∙◌, subst, inl, inr, Bool-cases,
  Option-cases, some_injective,
}
use waterx_predict_agent.Runner.Job.{JobLeg, SideEffectAttempt, kind_eq, kind_tag}
use waterx_predict_agent.Runner.Store.Db.{Db, ok, ◌>>=◌, find_leg, find_open_attempt, assert_lease}
use waterx_predict_agent.Runner.Store.Change.{guard-true, or_fail-some}
use waterx_predict_agent.Runner.Store.Legs.{ReserveLegInput, reserve_leg, insert_leg, new_leg}
use waterx_predict_agent.Runner.Store.Effects.{
  BeginSideEffectInput, begin_side_effect, insert_attempt, replay, new_attempt,
}

-- The answer of `reserve_leg` when the leg is on disk under the key.
reserved :
    (input : ReserveLegInput) (leg : JobLeg) (db : Db)
    → assert_lease input.lease db ≡ ok tt
    → find_leg input.lease.job_id input.leg_index db ≡ some leg
    → (leg.idempotency_key == input.idempotency_key) ≡ true
    → reserve_leg input db ≡ ok (leg, db)
unfolding reserve_leg ◌>>=◌
reserved input leg db held found key = rw (held, found, key)

pub same_jobs :
    (lease : JobLease) (db e : Db) → e.jobs ≡ db.jobs → assert_lease lease e ≡ assert_lease lease db
unfolding assert_lease
same_jobs lease db e h = rw h refl

new_leg-found :
    (input : ReserveLegInput) (rows : List JobLeg)
    → find (is_leg input.lease.job_id input.leg_index) (new_leg input ∷ rows) ≡ some (new_leg input)
new_leg-found input rows = rw (==_refl input.lease.job_id, ==_refl input.leg_index)

reserve_leg-Gives :
    (input : ReserveLegInput) (db : Db)
    → Gives (λ leg e. reserve_leg input e ≡ ok (leg, e)) (reserve_leg input db)
unfolding reserve_leg insert_leg
reserve_leg-Gives input db = Gives-bind _ _ _ λ _ held.
    elim (Option-cases (find_leg input.lease.job_id input.leg_index db)) [
      | inl absent ↦ rw absent (
          Gives-bind _ _ _ λ _ free. Gives-bind _ _ _ λ row again.
            let made : new_leg input ≡ row =
              some_injective (sym (new_leg-found input db.legs) ∙ or_fail-some _ _ again) in
            gives (
              reserved input row (record db { legs = new_leg input ∷ db.legs })
                (same_jobs input.lease db _ refl ∙ held) (or_fail-some _ _ again)
                (subst (λ l. (l.idempotency_key == input.idempotency_key) ≡ true) made
                  (==_refl input.idempotency_key))))
      | inr (old, found) ↦
          rw found (elim (Bool-cases (old.idempotency_key == input.idempotency_key)) [
            | inl same ↦ rw same (gives (reserved input old db held found same))
            | inr other ↦ rw other refuses
          ])
    ]

-- Reserving a leg again, with the answer of the first call lost, gives the same leg under the same
-- key and writes nothing.
pub reserve_leg-twice :
    (input : ReserveLegInput) (leg : JobLeg) (db e : Db)
    → reserve_leg input db ≡ ok (leg, e)
    → reserve_leg input e ≡ ok (leg, e)
reserve_leg-twice input leg db e h = Gives-ok (reserve_leg-Gives input db) h

begun :
    (input : BeginSideEffectInput) (leg : JobLeg) (attempt : SideEffectAttempt) (db : Db)
    → assert_lease input.lease db ≡ ok tt
    → find_leg input.lease.job_id input.leg_index db ≡ some leg
    → find_open_attempt input.lease.job_id input.leg_index db ≡ some attempt
    → kind_eq attempt.kind input.kind ≡ true
    → (attempt.request_fingerprint == input.request_fingerprint) ≡ true
    → begin_side_effect input db ≡ ok (attempt, db)
unfolding begin_side_effect replay ◌>>=◌
begun input leg attempt db held found opened kind print = rw (held, found, opened, kind, print)

new_attempt-found :
    (input : BeginSideEffectInput) (leg : JobLeg) (rows : List SideEffectAttempt)
    → find (is_attempt input.attempt_id) (new_attempt input leg ∷ rows)
      ≡ some (new_attempt input leg)
new_attempt-found input leg rows = rw (==_refl input.attempt_id)

new_attempt-opened :
    (input : BeginSideEffectInput) (leg : JobLeg) (rows : List SideEffectAttempt)
    → find (is_open_on input.lease.job_id input.leg_index) (new_attempt input leg ∷ rows)
      ≡ some (new_attempt input leg)
new_attempt-opened input leg rows = rw (==_refl input.lease.job_id, ==_refl input.leg_index)

begin_side_effect-Gives :
    (input : BeginSideEffectInput) (db : Db)
    → Gives (λ a e. begin_side_effect input e ≡ ok (a, e)) (begin_side_effect input db)
unfolding begin_side_effect insert_attempt replay
begin_side_effect-Gives input db = Gives-bind _ _ _ λ _ held. Gives-bind _ _ _ λ leg found.
    elim (Option-cases (find_open_attempt input.lease.job_id input.leg_index db)) [
      | inl absent ↦ rw absent (
          Gives-bind _ _ _ λ _ free. Gives-bind _ _ _ λ row again.
            let made : new_attempt input leg ≡ row =
              some_injective
                (sym (new_attempt-found input leg db.effects) ∙ or_fail-some _ _ again) in
            gives (
              begun input leg row (record db { effects = new_attempt input leg ∷ db.effects })
                (same_jobs input.lease db _ refl ∙ held) (or_fail-some _ _ found)
                (new_attempt-opened input leg db.effects ∙ ap some made)
                (subst (λ a. kind_eq a.kind input.kind ≡ true) made (==_refl (kind_tag input.kind)))
                (subst (λ a. (a.request_fingerprint == input.request_fingerprint) ≡ true) made
                  (==_refl input.request_fingerprint))))
      | inr (old, opened) ↦ rw opened (
          Gives-bind _ _ _ λ _ kind. Gives-bind _ _ _ λ _ print. gives (
            begun input leg old db held (or_fail-some _ _ found) opened (guard-true _ _ kind)
              (guard-true _ _ print)))
    ]

-- Beginning a side effect again, with the answer of the first call lost, gives the same open attempt
-- under the same key and opens no second one.
pub begin_side_effect-twice :
    (input : BeginSideEffectInput) (attempt : SideEffectAttempt) (db e : Db)
    → begin_side_effect input db ≡ ok (attempt, e)
    → begin_side_effect input e ≡ ok (attempt, e)
begin_side_effect-twice input attempt db e h = Gives-ok (begin_side_effect-Gives input db) h

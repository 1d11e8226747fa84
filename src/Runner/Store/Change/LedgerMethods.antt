-- ===== src/Runner/Store/Change/LedgerMethods.antt =====
-- The leg, mandate, side-effect and cursor methods make one change each, or two in one transaction.
use mathlib.Core.Option
use waterx_predict_agent.Base.{
  edited, find-update, find_test, ==_iff, sym, ◌∙◌, ap, ◌≤◌, update, List, ◌∷◌, subst, ℕ, Text,
  Option, some, none, ◌==◌, ltb, ◌≡◌, refl, inl, inr, arith, Bool-cases, Option-cases, find,
}
use waterx_predict_agent.Runner.Job.{JobLeg, JobLease, SideEffectAttempt}
use waterx_predict_agent.Runner.Store.Db.{CursorRow, Db, ok, find_leg, find_open_attempt}
use waterx_predict_agent.Runner.Store.Legs.{
  ReserveLegInput, reserve_leg, insert_leg, new_leg, LegPatch, patch_leg, update_leg, commit_new,
  CommitMandateSpendInput, commit_mandate_spend, is_spend,
}
use waterx_predict_agent.Runner.Store.Effects.{
  BeginSideEffectInput, begin_side_effect, insert_attempt, replay, new_attempt,
  CompleteSideEffectInput, complete_side_effect, patch_with,
}
use waterx_predict_agent.Runner.Store.Streams.{save_cursor, advance, is_scope, position}
use waterx_predict_agent.Runner.Store.Change.{
  IsForward, ok-injective, Change, Makes, makes, fails, Makes-bind, Makes-ok, >>=-eq-ok, guard-true,
  or_fail-some, keep, and_then, leg_added, leg_patched, attempt_opened, attempt_closed, cursors_set,
  spend_added,
}

insert_leg-Makes :
    (input : ReserveLegInput) (db : Db)
    → find_leg input.lease.job_id input.leg_index db ≡ none
    → Makes db (insert_leg input db)
unfolding insert_leg
insert_leg-Makes input db absent = Makes-bind db _ _ λ _ free.
    Makes-bind db _ _ λ leg again.
      makes (leg_added (new_leg input) absent (ground (arith, guard-true _ _ free)) refl)

pub reserve_leg-Makes : (input : ReserveLegInput) (db : Db) → Makes db (reserve_leg input db)
unfolding reserve_leg
reserve_leg-Makes input db = Makes-bind db _ _ λ _ held.
    elim (Option-cases (find_leg input.lease.job_id input.leg_index db)) [
      | inl e ↦ rw e (insert_leg-Makes input db e)
      | inr (old, e) ↦ rw e (elim (Bool-cases (old.idempotency_key == input.idempotency_key)) [
        | inl same ↦ rw same (makes keep)
        | inr other ↦ rw other fails
      ])
    ]

pub patch_leg-Makes :
    (id i : ℕ) (patch : LegPatch) (at : ℕ) (db : Db) → Makes db (patch_leg id i patch at db)
unfolding patch_leg
patch_leg-Makes id i patch at db = Makes-bind db _ _ λ old found. Makes-bind db _ _ λ _ free.
    Makes-bind db _ _
      λ leg again. makes (leg_patched id i patch at (ground (arith, guard-true _ _ free)))

pub update_leg-Makes :
    (lease : JobLease) (i : ℕ) (patch : LegPatch) (at : ℕ) (db : Db)
    → Makes db (update_leg lease i patch at db)
unfolding update_leg
update_leg-Makes lease i patch at db =
    Makes-bind db _ _ λ _ held. patch_leg-Makes lease.job_id i patch at db

commit_new-Makes :
    (input : CommitMandateSpendInput) (committed : ℕ) (db : Db)
    → Makes db (commit_new input committed db)
unfolding commit_new
commit_new-Makes input committed db = Makes-bind db _ _ λ amount reads.
    Makes-bind db _ _ λ over checked. elim (Bool-cases over) [
      | inl e ↦ rw e (makes keep)
      | inr e ↦ rw e (makes (spend_added _ (rw (or_fail-some _ _ reads))))
    ]

pub commit_mandate_spend-Makes :
    (input : CommitMandateSpendInput) (db : Db) → Makes db (commit_mandate_spend input db)
unfolding commit_mandate_spend
commit_mandate_spend-Makes input db = Makes-bind db _ _ λ _ held.
    Makes-bind db _ _ λ committed total.
      elim (Option-cases (find (is_spend input.lease.job_id input.leg_index) db.spend)) [
        | inl e ↦ rw e (commit_new-Makes input committed db)
        | inr (row, e) ↦ rw e (makes keep)
      ]

insert_attempt-Makes :
    (input : BeginSideEffectInput) (leg : JobLeg) (db : Db)
    → find_leg input.lease.job_id input.leg_index db ≡ some leg
    → find_open_attempt input.lease.job_id input.leg_index db ≡ none
    → Makes db (insert_attempt input leg db)
unfolding insert_attempt
insert_attempt-Makes input leg db found closed = Makes-bind db _ _ λ _ free.
    Makes-bind db _ _ λ row again. makes (
      attempt_opened (new_attempt input leg) leg found refl closed
        (ground (arith, guard-true _ _ free)))

replay-Makes :
    (input : BeginSideEffectInput) (attempt : SideEffectAttempt) (db : Db)
    → Makes db (replay input attempt db)
unfolding replay
replay-Makes input attempt db = Makes-bind db _ _ λ _ kind. Makes-bind db _ _ λ _ bytes. makes keep

pub begin_side_effect-Makes :
    (input : BeginSideEffectInput) (db : Db) → Makes db (begin_side_effect input db)
unfolding begin_side_effect
begin_side_effect-Makes input db = Makes-bind db _ _ λ _ held. Makes-bind db _ _ λ leg found.
    elim (Option-cases (find_open_attempt input.lease.job_id input.leg_index db)) [
      | inl e ↦ rw e (insert_attempt-Makes input leg db (or_fail-some _ _ found) e)
      | inr (a, e) ↦ rw e (replay-Makes input a db)
    ]

patch_with-Change :
    (id i : ℕ) (patch : Option LegPatch) (at : ℕ) (db : Db) {e : Db}
    → patch_with id i patch at db ≡ ok e
    → Change db e
unfolding patch_with
patch_with-Change id i none at db h = subst (Change db) (ok-injective h) keep
patch_with-Change id i (some patch) at db h =
    let ((leg, e'), q, r) = >>=-eq-ok (patch_leg id i patch at db) _ h in
    subst (Change db) (ok-injective r) (Makes-ok (patch_leg-Makes id i patch at db) q)

pub complete_side_effect-Makes :
    (input : CompleteSideEffectInput) (db : Db) → Makes db (complete_side_effect input db)
unfolding complete_side_effect
complete_side_effect-Makes input db = Makes-bind db _ _ λ _ held. Makes-bind db _ _ λ attempt found.
    Makes-bind db _ _ λ _ unresolved. Makes-bind db _ _ λ detail encoded.
      Makes-bind db _ _ λ e patched_leg. Makes-bind db _ _ λ row again. makes (
        and_then (attempt_closed input.attempt_id input.outcome input.at detail)
          (patch_with-Change attempt.job_id attempt.leg_index input.leg input.at _ patched_leg))

written-IsForward :
    (scope : ℕ) (cursor : Text) (at : ℕ) (row : CursorRow) (rows : List CursorRow)
    → find (is_scope scope) rows ≡ some row
    → position row.cursor ≤ position cursor
    → IsForward rows
        (update (is_scope scope) (λ r. record r { cursor = cursor; updated_at = at }) rows)
written-IsForward scope cursor at row rows held on s old found = (
  edited (is_scope scope) write old,
  find-update (is_scope scope) (is_scope s) write rows (λ r e. refl)
      ∙ ap (Option.map (edited (is_scope scope) write)) found,
  elim (Bool-cases (is_scope scope old)) [
    | inl e ↦
        let own : old.scope ≡ s = (==_iff _ _).0 (find_test (is_scope s) rows found) in
        let same : s ≡ scope = sym own ∙ (==_iff _ _).0 e in
        let it : some row ≡ some old =
          sym held ∙ ap (λ k. find (is_scope k) rows) (sym same) ∙ found in
        rw e (ground arith)
    | inr e ↦ rw e (omega arith)
  ],
)
  where
    write : CursorRow → CursorRow
    write r = record r { cursor = cursor; updated_at = at }

added-IsForward :
    (new : CursorRow) (rows : List CursorRow)
    → find (is_scope new.scope) rows ≡ none
    → IsForward rows (new ∷ rows)
added-IsForward new rows absent s old found = elim (Bool-cases (is_scope s new)) [
  | inl e ↦
      let bad : none ≡ some old =
        sym absent ∙ ap (λ k. find (is_scope k) rows) ((==_iff _ _).0 e) ∙ found in
      cc
  | inr e ↦ (old, rw e found, omega arith)
]

advance-Makes :
    (scope : ℕ) (cursor : Text) (at : ℕ) (row : CursorRow) (db : Db)
    → find (is_scope scope) db.cursors ≡ some row
    → Makes db (advance scope cursor at row.cursor db)
unfolding advance
advance-Makes scope cursor at row db held =
    elim (Bool-cases (ltb (position cursor) (position row.cursor))) [
      | inl back ↦ rw back fails
      | inr e ↦ rw e (elim (Bool-cases (position cursor == position row.cursor)) [
        | inl same ↦ rw same (makes keep)
        | inr on ↦ rw on (
            makes (
              cursors_set _ (written-IsForward scope cursor at row db.cursors held (ground arith))))
      ])
    ]

pub save_cursor-Makes :
    (scope : ℕ) (cursor : Text) (at : ℕ) (db : Db) → Makes db (save_cursor scope cursor at db)
unfolding save_cursor
save_cursor-Makes scope cursor at db = Makes-bind db _ _ λ _ digits.
    elim (Option-cases (find (is_scope scope) db.cursors)) [
      | inl e ↦ rw e (makes (cursors_set _ (added-IsForward _ db.cursors e)))
      | inr (row, e) ↦ rw e (advance-Makes scope cursor at row db e)
    ]

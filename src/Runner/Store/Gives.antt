-- ===== src/Runner/Store/Gives.antt =====
-- What holds of the answer of a method of packages/runner/src/store.ts and of the database that it
-- commits, when it does not throw.
use mathlib.Core.Option
use waterx_predict_agent.Base.{find_test, some_injective, edited, none, some, Option, List, ℕ}
use waterx_predict_agent.Runner.Secrets.{Json}
use waterx_predict_agent.Runner.Store.Change.{ok-injective, >>=-eq-ok, or_fail-some}
use waterx_predict_agent.Runner.Store.Jobs.{TransitionInput, transition, moved}
use waterx_predict_agent.Runner.Store.Legs.{LegPatch, patch_leg, update_leg}
use waterx_predict_agent.Runner.Store.Effects.{
  CompleteSideEffectInput, complete_side_effect, patch_with,
}
use waterx_predict_agent.Runner.Store.Db.{encode_detail, is_job, append_transition}
use waterx_predict_agent.Runner.Store.Invariant.Sound.{moved-job_id, moved-state}
use waterx_predict_agent.Base.{find-update, update, find, Text, Option, List, ap, sym, ◌∙◌, subst}
use waterx_predict_agent.Base.{some, subst, ℕ, ◌≡◌, refl}
use waterx_predict_agent.Runner.StateMachine.{JobState}
use waterx_predict_agent.Runner.Job.{JobLease, JobRecord}
use waterx_predict_agent.Runner.Store.Db.{Db, Result, StoreError, ok, err, ◌>>=◌, find_job}

pub data Gives {ℓ} {A : Type ℓ} (Q : A → Db → Type ℓ) : Result (A × Db) → Type ℓ where
  gives : {a : A} {e : Db} → Q a e → Gives Q (ok (a, e))
  refuses : {x : StoreError} → Gives Q (err x)

pub Gives-bind {ℓ} :
    {A : Type ℓ} {B : Type ℓ} (Q : A → Db → Type ℓ) (m : Result B) (f : B → Result (A × Db))
    → ((b : B) → m ≡ ok b → Gives Q (f b))
    → Gives Q (m >>= f)
unfolding ◌>>=◌
Gives-bind Q (ok b) f k = k b refl
Gives-bind Q (err x) f k = refuses

pub Gives-ok {ℓ} :
    {A : Type ℓ} {Q : A → Db → Type ℓ} {r : Result (A × Db)} {a : A} {e : Db}
    → Gives Q r
    → r ≡ ok (a, e)
    → Q a e
Gives-ok {Q = Q} (gives h) q = subst (λ x. Q x.0 x.1) (ok-injective q) h
Gives-ok refuses q = cc

-- The job is on disk, in that state.
abbrev pub Stands : ℕ → JobState → Db → Type 0
Stands id s db = (k : JobRecord) × (find_job id db ≡ some k) × (k.state ≡ s)

append_transition-jobs :
    (id : ℕ) (from : Option JobState) (to : JobState) (reason : Text) (by : Option ℕ) (at : ℕ)
    (detail : Option Json) (db : Db) {e : Db}
    → append_transition id from to reason by at detail db ≡ ok e
    → e.jobs ≡ db.jobs
unfolding append_transition
append_transition-jobs id from to reason by at detail db h =
    let (encoded, p, q) = >>=-eq-ok (encode_detail detail) _ h in
    ap (λ (d : Db). d.jobs) (sym (ok-injective q))

moved-find :
    (id : ℕ) (to : JobState) (at : ℕ) (job : JobRecord) (rows : List JobRecord)
    → find (is_job id) rows ≡ some job
    → find (is_job id) (update (is_job id) (moved to at) rows) ≡ some (moved to at job)
moved-find id to at job rows h =
    find-update (is_job id) (is_job id) (moved to at) rows (λ j e. rw (moved-job_id to at j) refl)
    ∙ ap (Option.map (edited (is_job id) (moved to at))) h
    ∙ rw (find_test (is_job id) rows h)

pub transition-Gives :
    (input : TransitionInput) (db : Db)
    → Gives
        (λ row e. (row.state ≡ input.to) × Stands input.lease.job_id input.to e)
        (transition input db)
unfolding transition
transition-Gives input db = Gives-bind _ _ _ λ _ held. Gives-bind _ _ _ λ job found.
    Gives-bind _ _ _ λ _ edge. Gives-bind _ _ _ λ _ legs. Gives-bind _ _ _ λ e appended.
      Gives-bind _ _ _ λ row again.
        let id = input.lease.job_id in
        let there : find_job id e ≡ some (moved input.to input.at job) =
          ap (find (is_job id)) (append_transition-jobs id _ _ _ _ _ _ _ appended)
          ∙ moved-find id input.to input.at job db.jobs (or_fail-some _ _ found) in
        let same : moved input.to input.at job ≡ row =
          some_injective (sym there ∙ or_fail-some _ _ again) in
        gives (
          ap (λ (k : JobRecord). k.state) (sym same) ∙ moved-state input.to input.at job,
          (moved input.to input.at job, there, moved-state input.to input.at job),
        )

pub patch_leg-Gives :
    (id i : ℕ) (patch : LegPatch) (at : ℕ) (db : Db)
    → Gives (λ a e. e.jobs ≡ db.jobs) (patch_leg id i patch at db)
unfolding patch_leg
patch_leg-Gives id i patch at db =
    Gives-bind _ _ _
      λ old found. Gives-bind _ _ _ λ _ free. Gives-bind _ _ _ λ leg again. gives refl

pub update_leg-Gives :
    (lease : JobLease) (i : ℕ) (patch : LegPatch) (at : ℕ) (db : Db)
    → Gives (λ a e. e.jobs ≡ db.jobs) (update_leg lease i patch at db)
unfolding update_leg
update_leg-Gives lease i patch at db =
    Gives-bind _ _ _ λ _ held. patch_leg-Gives lease.job_id i patch at db

patch_with-jobs :
    (id i : ℕ) (patch : Option LegPatch) (at : ℕ) (db : Db) {e : Db}
    → patch_with id i patch at db ≡ ok e
    → e.jobs ≡ db.jobs
unfolding patch_with
patch_with-jobs id i none at db h = ap (λ (d : Db). d.jobs) (sym (ok-injective h))
patch_with-jobs id i (some patch) at db {e} h =
    let ((leg, d), p, q) = >>=-eq-ok (patch_leg id i patch at db) _ h in
    ap (λ (d : Db). d.jobs) (sym (ok-injective q)) ∙ Gives-ok (patch_leg-Gives id i patch at db) p

pub complete_side_effect-Gives :
    (input : CompleteSideEffectInput) (db : Db)
    → Gives (λ a e. e.jobs ≡ db.jobs) (complete_side_effect input db)
unfolding complete_side_effect
complete_side_effect-Gives input db = Gives-bind _ _ _ λ _ held. Gives-bind _ _ _ λ attempt found.
    Gives-bind _ _ _ λ _ unresolved. Gives-bind _ _ _ λ detail encoded.
      Gives-bind _ _ _ λ e patched. Gives-bind _ _ _ λ row again.
        gives (patch_with-jobs attempt.job_id attempt.leg_index input.leg input.at _ patched)

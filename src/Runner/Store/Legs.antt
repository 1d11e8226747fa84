-- ===== src/Runner/Store/Legs.antt =====
-- The leg and mandate methods of packages/runner/src/sqlite/store.ts.
use waterx_predict_agent.Base.{
  ℕ, ◌+◌, ◌==◌, ltb, if◌then◌else◌, or_else, Bool, false, not, ◌&&◌, Option, none, some, List, [],
  ◌∷◌, any, select, find, sort_by, update, Text,
}
use waterx_predict_agent.Sdk.Decimal.{to_scaled, from_scaled}
use waterx_predict_agent.Runner.Job.{JobLeg, JobLegIntent, JobLegStatus, JobLease}
use waterx_predict_agent.Runner.Store.Db.{
  Db, SpendRow, Result, ok, err, StoreError, ◌>>=◌, ◌>>◌, guard, or_fail, is_leg, find_leg,
  require_leg, is_id, assert_lease,
}

pub record ReserveLegInput : Type 0 where
  pub lease : JobLease
  pub leg_index : ℕ
  pub idempotency_key : ℕ
  pub intent : JobLegIntent
  pub at : ℕ

abbrev pub new_leg : ReserveLegInput → JobLeg
new_leg input = record {
  job_id = input.lease.job_id;
  leg_index = input.leg_index;
  idempotency_key = input.idempotency_key;
  intent = input.intent;
  status = JobLegStatus.pending;
  reference_quote_id = none;
  submission_quote_id = none;
  quoted_at = none;
  execution_id = none;
  submission_digest = none;
  keeper_digest = none;
  created_at = input.at;
  updated_at = input.at;
}

-- The unique index `job_legs_key`.
abbrev pub key_taken : ℕ → List JobLeg → Bool
key_taken key legs = any (λ l. l.idempotency_key == key) legs

unfoldable pub insert_leg : ReserveLegInput → Db → Result (JobLeg × Db)
insert_leg input db = do
  guard (not (key_taken input.idempotency_key db.legs)) StoreError.duplicate_idempotency_key
  let db' = record db { legs = new_leg input ∷ db.legs }
  leg ← require_leg input.lease.job_id input.leg_index db'
  ok (leg, db')

unfoldable pub reserve_leg : ReserveLegInput → Db → Result (JobLeg × Db)
reserve_leg input db = do
  assert_lease input.lease db
  elim (find_leg input.lease.job_id input.leg_index db) [
    | some existing ↦
        if existing.idempotency_key == input.idempotency_key
        then ok (existing, db)
        else err StoreError.replay_mismatch
    | none ↦ insert_leg input db
  ]

unfoldable pub list_legs : ℕ → Db → List JobLeg
list_legs id db =
    sort_by (λ l m. ltb l.leg_index m.leg_index) (select (λ l. l.job_id == id) db.legs)

pub record LegPatch : Type 0 where
  pub status : Option JobLegStatus
  pub reference_quote_id : Option ℕ
  pub submission_quote_id : Option ℕ
  pub quoted_at : Option ℕ
  pub execution_id : Option ℕ
  pub submission_digest : Option ℕ
  pub keeper_digest : Option ℕ

abbrev pub set_status : Option JobLegStatus → JobLegStatus → JobLegStatus
set_status none s = s
set_status (some t) s = t

-- The columns that the patch names, and `updated_at`.
abbrev pub patched : LegPatch → ℕ → JobLeg → JobLeg
patched p at l = record l {
  status = set_status p.status l.status;
  reference_quote_id = or_else p.reference_quote_id l.reference_quote_id;
  submission_quote_id = or_else p.submission_quote_id l.submission_quote_id;
  quoted_at = or_else p.quoted_at l.quoted_at;
  execution_id = or_else p.execution_id l.execution_id;
  submission_digest = or_else p.submission_digest l.submission_digest;
  keeper_digest = or_else p.keeper_digest l.keeper_digest;
  updated_at = at;
}

-- The unique index `job_legs_execution`: another leg already has that execution.
abbrev pub execution_taken : ℕ → ℕ → Option ℕ → List JobLeg → Bool
execution_taken id i none legs = false
execution_taken id i (some e) legs = any (λ l. not (is_leg id i l) && is_id e l.execution_id) legs

unfoldable pub patch_leg : ℕ → ℕ → LegPatch → ℕ → Db → Result (JobLeg × Db)
patch_leg id i patch at db = do
  require_leg id i db
  guard (not (execution_taken id i patch.execution_id db.legs)) StoreError.duplicate_execution
  let db' = record db { legs = update (is_leg id i) (patched patch at) db.legs }
  leg ← require_leg id i db'
  ok (leg, db')

unfoldable pub update_leg : JobLease → ℕ → LegPatch → ℕ → Db → Result (JobLeg × Db)
update_leg lease i patch at db = do assert_lease lease db; patch_leg lease.job_id i patch at db

pub record CommitMandateSpendInput : Type 0 where
  pub lease : JobLease
  pub leg_index : ℕ
  pub scope : ℕ
  pub amount : Text
  pub ceiling : Option Text
  pub at : ℕ

pub data MandateSpend : Type 0 where
  admitted : Text → MandateSpend
  refused : Text → Text → MandateSpend

-- `toScaled`, which throws on a text that is no decimal.
abbrev pub scaled : Text → Result ℕ
scaled t = or_fail StoreError.range_error (to_scaled t)

abbrev pub add_row : ℕ → SpendRow → Result ℕ → Result ℕ
add_row scope row rest =
    if row.scope == scope
    then (do sum ← rest; amount ← scaled row.amount; ok (sum + amount))
    else rest

unfoldable pub spend_total : ℕ → List SpendRow → Result ℕ
spend_total scope [] = ok 0
spend_total scope (row ∷ rows) = add_row scope row (spend_total scope rows)

abbrev pub is_spend : ℕ → ℕ → SpendRow → Bool
is_spend id i r = r.job_id == id && r.leg_index == i

-- `total > toScaled(ceiling)`; with no ceiling nothing is over it.
abbrev pub over_ceiling : ℕ → Option Text → Result Bool
over_ceiling total none = ok false
over_ceiling total (some ceiling) = do limit ← scaled ceiling; ok (ltb limit total)

abbrev pub ceiling_text : Option Text → Text
ceiling_text none = []
ceiling_text (some t) = t

unfoldable pub commit_new : CommitMandateSpendInput → ℕ → Db → Result (MandateSpend × Db)
commit_new input committed db = do
  amount ← scaled input.amount
  over ← over_ceiling (committed + amount) input.ceiling
  (if over
      then ok (refused (from_scaled committed) (ceiling_text input.ceiling), db)
      else ok (
        admitted (from_scaled (committed + amount)),
        record db {
          spend =
              record {
                job_id = input.lease.job_id;
                leg_index = input.leg_index;
                scope = input.scope;
                amount = input.amount;
                at = input.at;
              }
              ∷ db.spend;
        },
      ))

unfoldable pub commit_mandate_spend : CommitMandateSpendInput → Db → Result (MandateSpend × Db)
commit_mandate_spend input db = do
  assert_lease input.lease db
  committed ← spend_total input.scope db.spend
  elim (find (is_spend input.lease.job_id input.leg_index) db.spend) [
    | some already ↦ ok (admitted (from_scaled committed), db)
    | none ↦ commit_new input committed db
  ]

unfoldable pub total_mandate_spend : ℕ → Db → Result Text
total_mandate_spend scope db = do total ← spend_total scope db.spend; ok (from_scaled total)

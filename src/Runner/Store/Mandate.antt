-- ===== src/Runner/Store/Mandate.antt =====
-- The mandate ceiling of packages/runner/src/sqlite/store.ts.
use waterx_predict_agent.Base.{
  ℕ, ◌+◌, ◌≤◌, ==_refl, ltb, false, none, some, List, ◌∷◌, find, Text, ◌≡◌, refl, sym, ap, ◌∙◌,
  arith, inl, inr, Bool-cases,
}
use waterx_predict_agent.Sdk.Decimal.{to_scaled, from_scaled}
use waterx_predict_agent.Runner.Store.Db.{Db, SpendRow, ok, ◌>>=◌, assert_lease}
use waterx_predict_agent.Runner.Store.Gives.{Gives, gives, Gives-bind, Gives-ok}
use waterx_predict_agent.Runner.Store.Replay.{same_jobs}
use waterx_predict_agent.Runner.Store.Change.{>>=-eq-ok, ok-injective}
use waterx_predict_agent.Runner.Store.Legs.{
  CommitMandateSpendInput, MandateSpend, admitted, scaled, refused, commit_mandate_spend,
  commit_new, spend_total, is_spend, over_ceiling,
}

abbrev spend_row : CommitMandateSpendInput → SpendRow
spend_row input = record {
  job_id = input.lease.job_id;
  leg_index = input.leg_index;
  scope = input.scope;
  amount = input.amount;
  at = input.at;
}

new-total :
    (input : CommitMandateSpendInput) (rows : List SpendRow) (committed amount : ℕ)
    → spend_total input.scope rows ≡ ok committed
    → scaled input.amount ≡ ok amount
    → spend_total input.scope (spend_row input ∷ rows) ≡ ok (committed + amount)
unfolding spend_total ◌>>=◌
new-total input rows committed amount h k = rw (==_refl input.scope, h, k)

again :
    (input : CommitMandateSpendInput) (row : SpendRow) (n : ℕ) (db : Db)
    → assert_lease input.lease db ≡ ok tt
    → spend_total input.scope db.spend ≡ ok n
    → find (is_spend input.lease.job_id input.leg_index) db.spend ≡ some row
    → commit_mandate_spend input db ≡ ok (admitted (from_scaled n), db)
unfolding commit_mandate_spend ◌>>=◌
again input row n db held total found = rw (held, total, found)

-- The answer to a first commit: over the ceiling and nothing written, or counted and within it.
data IsAnswer (input : CommitMandateSpendInput) (db : Db) : MandateSpend → Db → Type 0 where
  over : {a b : Text} → IsAnswer input db (refused a b) db
  within :
      {e : Db} (n : ℕ)
      → spend_total input.scope e.spend ≡ ok n
      → over_ceiling n input.ceiling ≡ ok false
      → find (is_spend input.lease.job_id input.leg_index) e.spend ≡ some (spend_row input)
      → e.jobs ≡ db.jobs
      → IsAnswer input db (admitted (from_scaled n)) e

spend_row-found :
    (input : CommitMandateSpendInput) (rows : List SpendRow)
    → find (is_spend input.lease.job_id input.leg_index) (spend_row input ∷ rows)
      ≡ some (spend_row input)
spend_row-found input rows = rw (==_refl input.lease.job_id, ==_refl input.leg_index)

commit_new-Gives :
    (input : CommitMandateSpendInput) (committed : ℕ) (db : Db)
    → spend_total input.scope db.spend ≡ ok committed
    → Gives (IsAnswer input db) (commit_new input committed db)
unfolding commit_new
commit_new-Gives input committed db total = Gives-bind _ _ _ λ amount reads.
    Gives-bind _ _ _ λ beyond checked. elim (Bool-cases beyond) [
      | inl e ↦ rw e (gives over)
      | inr e ↦ rw e (
          gives (
            within (committed + amount) (new-total input db.spend committed amount total reads)
              (checked ∙ ap ok e) (spend_row-found input db.spend) refl))
    ]

commit-IsAnswer :
    (input : CommitMandateSpendInput) (m : MandateSpend) (db e : Db)
    → find (is_spend input.lease.job_id input.leg_index) db.spend ≡ none
    → commit_mandate_spend input db ≡ ok (m, e)
    → (assert_lease input.lease db ≡ ok tt) × IsAnswer input db m e
unfolding commit_mandate_spend
commit-IsAnswer input m db e fresh h =
    let (u, held, rest) = >>=-eq-ok (assert_lease input.lease db) _ h in
    let (committed, total, answer) = >>=-eq-ok (spend_total input.scope db.spend) _ rest in
    (held, Gives-ok (commit_new-Gives input committed db total) (rw fresh at answer))

admitted-injective : {a b : Text} → admitted a ≡ admitted b → a ≡ b
admitted-injective h = cc

within_limit :
    (n : ℕ) (c : Text) (limit : ℕ)
    → over_ceiling n (some c) ≡ ok false
    → to_scaled c ≡ some limit
    → n ≤ limit
unfolding ◌>>=◌
within_limit n c limit below r =
    let test : ok (ltb limit n) ≡ ok false = rw r at below in
    let quiet : ltb limit n ≡ false = ok-injective test in ground arith

bounded :
    (input : CommitMandateSpendInput) (db e : Db) (m : MandateSpend) (t c : Text) (limit : ℕ)
    → IsAnswer input db m e
    → m ≡ admitted t
    → input.ceiling ≡ some c
    → to_scaled c ≡ some limit
    → (n : ℕ) × (t ≡ from_scaled n) × (spend_total input.scope e.spend ≡ ok n) × (n ≤ limit)
bounded input db e m t c limit over p q r = cc
bounded input db e m t c limit (within n total below found jobs) p q r =
    (n, sym (admitted-injective p), total, within_limit n c limit (rw q at below) r)

-- An amount that is admitted for the first time under a ceiling leaves the total of its scope, which
-- is the answer, at or below that ceiling.
pub commit-ceiling :
    (input : CommitMandateSpendInput) (db e : Db) (t c : Text) (limit : ℕ)
    → find (is_spend input.lease.job_id input.leg_index) db.spend ≡ none
    → input.ceiling ≡ some c
    → to_scaled c ≡ some limit
    → commit_mandate_spend input db ≡ ok (admitted t, e)
    → (n : ℕ) × (t ≡ from_scaled n) × (spend_total input.scope e.spend ≡ ok n) × (n ≤ limit)
commit-ceiling input db e t c limit fresh q r h =
    bounded input db e _ t c limit (commit-IsAnswer input _ db e fresh h).1 refl q r

counted-twice :
    (input : CommitMandateSpendInput) (db e : Db) (m : MandateSpend) (t : Text)
    → assert_lease input.lease db ≡ ok tt
    → IsAnswer input db m e
    → m ≡ admitted t
    → commit_mandate_spend input e ≡ ok (m, e)
counted-twice input db e m t held over p = cc
counted-twice input db e m t held (within n total below found jobs) p =
    again input (spend_row input) n e (same_jobs input.lease db e jobs ∙ held) total found

-- Committing the same leg again, with the first answer lost, gives the same answer and counts the
-- amount once.
pub commit-twice :
    (input : CommitMandateSpendInput) (db e : Db) (t : Text)
    → find (is_spend input.lease.job_id input.leg_index) db.spend ≡ none
    → commit_mandate_spend input db ≡ ok (admitted t, e)
    → commit_mandate_spend input e ≡ ok (admitted t, e)
commit-twice input db e t fresh h =
    let (held, answer) = commit-IsAnswer input _ db e fresh h in
    counted-twice input db e _ t held answer refl

-- ===== src/Sdk/Intents/Ledger/Usable.antt =====
-- What `assertUsable` of packages/sdk/src/intent-store.ts makes sure of.
use waterx_predict_agent.Sdk.Intents.Canonical.{Members, normalize_intent, intent_digest}
use waterx_predict_agent.Sdk.Intents.Shape.{unrecoverable_intent_reason}
use waterx_predict_agent.Base.{
  List, ℕ, ap, Option, none, some, is_none, Bool, true, false, not, any, All, All-map, Distinct, [],
  ◌∷◌, Text, ◌≡◌, refl, sym, sym, arith,
}
use waterx_predict_agent.Sdk.Intents.Ledger.{
  ◌>>◌, IntentReservation, reserve, reserve_under, hashed, get_record, Answer, ok, fails, ◌>>=◌,
  check, LedgerError, IntentRecord, Records, has_key, same_execution, validate, assert_usable, save,
}

pub bind-ok {ℓ κ} :
    {A : Type ℓ} {B : Type κ} (x : Answer A) (k : A → Answer B) {b : B}
    → (x >>= k) ≡ ok b
    → (a : A) × (x ≡ ok a) × (k a ≡ ok b)
bind-ok (ok a) k e = (a, refl, e)
bind-ok (fails f) k e = cc

pub check-true : (b : Bool) (e : LedgerError) {u : Unit {0}} → check b e ≡ ok u → b ≡ true
check-true true e h = refl
check-true false e h = cc

pub check-then {ℓ} :
    {A : Type ℓ} (b : Bool) (f : LedgerError) (x : Answer A) {a : A}
    → (check b f >> x) ≡ ok a
    → (b ≡ true) × (x ≡ ok a)
check-then true f x e = (refl, e)
check-then false f x e = cc

pub ok-injective {ℓ} : {A : Type ℓ} {a b : A} → ok a ≡ ok b → a ≡ b
ok-injective e = cc

pub not-true : (b : Bool) → not b ≡ true → b ≡ false
not-true true e = cc
not-true false e = refl

abbrev pub clash_keys : Text × IntentRecord → Text × IntentRecord → Bool
clash_keys x e = has_key e.1.idempotency_key x

abbrev pub clash_executions : Text × IntentRecord → Text × IntentRecord → Bool
clash_executions x e = same_execution x.1.execution_id e.1.execution_id

module _ (sha256 : Text → Text) where
  -- An entry is valid and has nothing of those that were seen.
  record IsFresh (seen : Records) (e : Text × IntentRecord) : Type 0 where
    valid : validate sha256 e.0 e.1 ≡ ok tt
    key : any (has_key e.1.idempotency_key) seen ≡ false
    execution : any (λ (x : Text × IntentRecord). clash_executions x e) seen ≡ false

  pub record IsSound (records : Records) : Type 0 where
    pub valid : All (λ e. validate sha256 e.0 e.1 ≡ ok tt) records
    pub keys : Distinct clash_keys records
    pub executions : Distinct clash_executions records

  -- Behind one more that was seen.
  later :
      (x : Text × IntentRecord) (seen : Records) (e : Text × IntentRecord)
      → IsFresh (x ∷ seen) e
      → IsFresh seen e × (clash_keys x e ≡ false) × (clash_executions x e ≡ false)
  later x seen e h = (
    record {
      valid = h.valid;
      key = ground (arith, h.key);
      execution = ground (arith, h.execution);
    },
    ground (arith, h.key),
    ground (arith, h.execution),
  )

  assert_usable-parts :
      (seen records : Records)
      → assert_usable sha256 seen records ≡ ok tt
      → All (IsFresh seen) records × IsSound records
  unfolding assert_usable
  assert_usable-parts seen [] e = (tt, record { valid = tt; keys = tt; executions = tt })
  assert_usable-parts seen ((d, r) ∷ rest) e =
      let (u, valid, e1) = bind-ok (validate sha256 d r) _ e in
      let (u1, k, e2) =
        bind-ok (check (not (any (has_key r.idempotency_key) seen)) LedgerError.key_twice) _ e1 in
      let (u2, x, e3) =
        bind-ok
          (check
            (not (
              any (λ (e : Text × IntentRecord). same_execution e.1.execution_id r.execution_id)
                seen))
            LedgerError.execution_twice)
          _ e2 in
      let (fresh, sound) = assert_usable-parts ((d, r) ∷ seen) rest e3 in
      let seen_too = All-map (later (d, r) seen) rest fresh in
      (
        (
          record {
            valid = valid;
            key = not-true _ (check-true _ _ k);
            execution = not-true _ (check-true _ _ x);
          },
          All-map (λ a h. h.0) rest seen_too,
        ),
        record {
          valid = (valid, sound.valid);
          keys = (All-map (λ a h. h.1) rest seen_too, sound.keys);
          executions = (All-map (λ a h. h.2) rest seen_too, sound.executions);
        },
      )

  pub save-usable :
      (records after : Records)
      → save sha256 records ≡ ok after
      → (after ≡ records) × (assert_usable sha256 [] records ≡ ok tt)
  unfolding save
  save-usable records after e =
      let (u, usable, e1) = bind-ok (assert_usable sha256 [] records) _ e in
      (sym (ok-injective e1), usable)

  -- What is loaded is sound.
  pub assert_usable-IsSound :
      (records : Records) → assert_usable sha256 [] records ≡ ok tt → IsSound records
  assert_usable-IsSound records e = (assert_usable-parts [] records e).1

  -- What a reservation that returns has asked for.
  pub reserve-parts :
      (intent : Members) (draws : List Text) (at : ℕ) (records : Records)
      (made : IntentReservation × Records)
      → reserve sha256 intent draws at records ≡ ok made
      → (digest : Text) × (intent_digest sha256 intent ≡ some digest)
        × (reserve_under sha256 digest intent draws at records (get_record digest records)
            ≡ ok made)
  unfolding reserve
  reserve-parts intent draws at records made e =
      let (fine, e1) =
        check-then (is_none (unrecoverable_intent_reason (normalize_intent intent)))
          LedgerError.unrecoverable
          (hashed sha256 (intent_digest sha256 intent) >>= λ digest.
            reserve_under sha256 digest intent draws at records (get_record digest records))
          e in
      let (digest, h, e2) =
        bind-ok (hashed sha256 (intent_digest sha256 intent))
          (λ digest.
            reserve_under sha256 digest intent draws at records (get_record digest records))
          e1 in
      (digest, hashed-some (intent_digest sha256 intent) digest h, e2)
    where
      hashed-some :
          (o : Option Text) (digest : Text) → hashed sha256 o ≡ ok digest → o ≡ some digest
      hashed-some none digest h = cc
      hashed-some (some t) digest h = ap some (ok-injective h)

-- ===== src/Sdk/Intents/Ledger.antt =====
-- `BaseIntentStore` of packages/sdk/src/intent-store.ts, on the records of a ledger in the order
-- of its map. The hash is a parameter, and the draws of `randomUUID` are a list. An error carries
-- no ledger: nothing was written.
pub mod Usable
pub mod Run
pub mod Digests
pub mod Found
pub mod Keys
use waterx_predict_agent.Base.{
  ℕ, leb, or_else, if◌then◌else◌, Bool, true, false, not, ◌&&◌, ◌||◌, Option, none, some, is_none,
  List, [], ◌∷◌, ◌++◌, map, select, find, any, update, sort_by, Text, text_eq,
}
use waterx_predict_agent.Sdk.Intents.Canonical.{Members, normalize_intent, intent_digest}
use waterx_predict_agent.Sdk.Intents.Shape.{is_identifier_text, unrecoverable_intent_reason}

pub data IntentRecordStatus : Type 0 where
  pending settled : IntentRecordStatus

pub record IntentRecord : Type 0 where
  pub idempotency_key : Text
  pub digest : Text
  pub intent : Members
  pub status : IntentRecordStatus
  pub created_at : ℕ
  pub execution_id : Option Text
  pub enforced_worst_price : Option Text
  pub settled_at : Option ℕ
  pub outcome : Option Text

pub record IntentReservation : Type 0 where
  pub idempotency_key : Text
  pub replayed : Bool
  pub entry : IntentRecord

-- A map from digests to records, in the order of insertion.
abbrev pub Records : Type 0
Records = List (Text × IntentRecord)

-- The errors that are thrown, by what they name. `no_draw` stands for a loop that goes on.
pub data LedgerError : Type 0 where
  unusable_key empty_field unusable_execution unrecoverable : LedgerError
  wrong_digest wrong_hash key_twice execution_twice unrepresentable no_draw : LedgerError

pub data Answer {ℓ} (A : Type ℓ) : Type ℓ where
  ok : A → Answer A
  fails : LedgerError → Answer A

infixl 5 ◌>>=◌ ◌>>◌
abbrev pub ◌>>=◌ {ℓ κ} : {A : Type ℓ} {B : Type κ} → Answer A → (A → Answer B) → Answer B
fails e >>= k = fails e
ok a >>= k = k a

abbrev pub ◌>>◌ {ℓ κ} : {A : Type ℓ} {B : Type κ} → Answer A → Answer B → Answer B
m >> k = m >>= λ _. k

abbrev pub check : Bool → LedgerError → Answer (Unit {0})
check true e = ok tt
check false e = fails e

abbrev pub is_filled : Option Text → Bool
is_filled none = true
is_filled (some []) = false
is_filled (some (c ∷ cs)) = true

abbrev pub is_usable_execution : Option Text → Bool
is_usable_execution none = true
is_usable_execution (some t) = is_identifier_text t

abbrev pub digest_is : Text → Option Text → Bool
digest_is digest none = false
digest_is digest (some t) = text_eq t digest

abbrev pub is_at : Text → Text × IntentRecord → Bool
is_at digest entry = text_eq entry.0 digest

abbrev pub has_key : Text → Text × IntentRecord → Bool
has_key key entry = text_eq entry.1.idempotency_key key

abbrev pub same_execution : Option Text → Option Text → Bool
same_execution (some a) (some b) = text_eq a b
same_execution _ _ = false

-- `records.get`.
abbrev pub record_of : Option (Text × IntentRecord) → Option IntentRecord
record_of none = none
record_of (some entry) = some entry.1

abbrev pub get_record : Text → Records → Option IntentRecord
get_record digest records = record_of (find (is_at digest) records)

module _ (sha256 : Text → Text) where
  -- `validate`, of a record whose fields have their types.
  unfoldable pub validate : Text → IntentRecord → Answer (Unit {0})
  validate digest r = do
    check (is_identifier_text r.idempotency_key) LedgerError.unusable_key
    check (is_filled r.execution_id) LedgerError.empty_field
    check (is_filled r.enforced_worst_price) LedgerError.empty_field
    check (is_filled r.outcome) LedgerError.empty_field
    check (is_usable_execution r.execution_id) LedgerError.unusable_execution
    check (is_none (unrecoverable_intent_reason (normalize_intent r.intent)))
        LedgerError.unrecoverable
    check (text_eq r.digest digest) LedgerError.wrong_digest
    check (digest_is digest (intent_digest sha256 (normalize_intent r.intent)))
        LedgerError.wrong_hash

  -- `assertUsable`, behind the records already seen.
  unfoldable pub assert_usable : Records → Records → Answer (Unit {0})
  assert_usable seen [] = ok tt
  assert_usable seen ((digest, r) ∷ rest) = do
    validate digest r
    check (not (any (has_key r.idempotency_key) seen)) LedgerError.key_twice
    check
        (not
          (any (λ (e : Text × IntentRecord). same_execution e.1.execution_id r.execution_id) seen))
        LedgerError.execution_twice
    assert_usable ((digest, r) ∷ seen) rest

  -- `save`: what may be persisted.
  unfoldable pub save : Records → Answer Records
  save records = do assert_usable [] records; ok records

  -- The loop over `randomUUID`.
  abbrev pub mint : Records → List Text → Answer Text
  mint records [] = fails LedgerError.no_draw
  mint records (key ∷ draws) =
      let next = mint records draws in if any (has_key key) records then next else ok key

  abbrev pub hashed : Option Text → Answer Text
  hashed none = fails LedgerError.unrepresentable
  hashed (some digest) = ok digest

  abbrev pub new_record : Text → Text → Members → ℕ → IntentRecord
  new_record key digest intent at = record {
    idempotency_key = key;
    digest = digest;
    intent = normalize_intent intent;
    status = IntentRecordStatus.pending;
    created_at = at;
    execution_id = none;
    enforced_worst_price = none;
    settled_at = none;
    outcome = none;
  }

  -- Under a digest: the record that stands there, or a new one at the end.
  unfoldable pub reserve_under :
      Text
      → Members
      → List Text
      → ℕ
      → Records
      → Option IntentRecord
      → Answer (IntentReservation × Records)
  reserve_under digest intent draws at records (some existing) = ok (
    record { idempotency_key = existing.idempotency_key; replayed = true; entry = existing },
    records,
  )
  reserve_under digest intent draws at records none = do
    key ← mint records draws
    saved ← save (records ++ ((digest, new_record key digest intent at) ∷ []))
    ok (
      record { idempotency_key = key; replayed = false; entry = new_record key digest intent at },
      saved,
    )

  unfoldable pub reserve : Members → List Text → ℕ → Records → Answer (IntentReservation × Records)
  reserve intent draws at records = do
    check (is_none (unrecoverable_intent_reason (normalize_intent intent)))
        LedgerError.unrecoverable
    digest ← hashed (intent_digest sha256 intent)
    reserve_under digest intent draws at records (get_record digest records)

  -- `update`: the first record of that key, if there is one.
  abbrev pub change_first : Text → (IntentRecord → IntentRecord) → Records → Records
  change_first key change [] = []
  change_first key change (e ∷ rest) =
      let changed = change_first key change rest in
      if has_key key e then (e.0, change e.1) ∷ rest else e ∷ changed

  unfoldable pub update_record : Text → (IntentRecord → IntentRecord) → Records → Answer Records
  update_record key change records =
      if any (has_key key) records then save (change_first key change records) else ok records

  abbrev pub attached : Text → Option Text → IntentRecord → IntentRecord
  attached execution price r = record r {
    execution_id = some execution;
    enforced_worst_price = or_else price r.enforced_worst_price;
  }

  unfoldable pub attach : Text → Text → Option Text → Records → Answer Records
  attach key execution price records = do
    check (is_identifier_text execution) LedgerError.unusable_execution
    update_record key (attached execution price) records

  abbrev pub settled_with : Text → ℕ → IntentRecord → IntentRecord
  settled_with outcome at r = record r {
    status = IntentRecordStatus.settled;
    settled_at = some at;
    outcome = some outcome;
  }

  unfoldable pub settle : Text → Text → ℕ → Records → Answer Records
  settle key outcome at records = update_record key (settled_with outcome at) records

  abbrev pub drop_first : Text → Records → Records
  drop_first key [] = []
  drop_first key (e ∷ rest) =
      let dropped = drop_first key rest in if has_key key e then rest else e ∷ dropped

  unfoldable pub forget : Text → Records → Answer Records
  forget key records = save (drop_first key records)

  abbrev pub is_pending : IntentRecord → Bool
  is_pending r = elim r.status [ pending ↦ true | settled ↦ false ]

  pub pending_of : Records → List IntentRecord
  pending_of records =
      sort_by (λ (a : IntentRecord) b. leb a.created_at b.created_at)
        (select is_pending (map (λ (e : Text × IntentRecord). e.1) records))

  abbrev pub found : Option Text → Records → Answer (Option IntentRecord)
  found none records = fails LedgerError.unrepresentable
  found (some digest) records = ok (get_record digest records)

  -- `find`.
  pub find_intent : Members → Records → Answer (Option IntentRecord)
  find_intent intent records = found (intent_digest sha256 intent) records

-- ===== src/Sdk/Intents/Ledger/Keys.antt =====
-- One key for one intent, over any calls on a ledger of packages/sdk/src/intent-store.ts.
use waterx_predict_agent.Base.{
  ℕ, Bool, not, true, false, Bool-cases, inl, inr, Option, none, some, is_none, find, any, All,
  List, [], ◌∷◌, Text, text_eq, ◌≡◌, refl, sym, ap, ◌∙◌,
}
use waterx_predict_agent.Sdk.Intents.Canonical.{Members, normalize_intent, intent_digest}
use waterx_predict_agent.Sdk.Intents.Canonical.Same.{SameIntent, intent_digest-SameIntent}
use waterx_predict_agent.Sdk.Intents.Shape.{is_identifier_text, unrecoverable_intent_reason}
use waterx_predict_agent.Sdk.Intents.Ledger.{
  Answer, ok, fails, LedgerError, IntentRecord, IntentReservation, Records, is_at, has_key,
  get_record, record_of, mint, new_record, reserve, reserve_under, change_first, update_record,
  attached, attach, settled_with, settle, drop_first, forget, save,
}
use waterx_predict_agent.Sdk.Intents.Ledger.Usable.{
  not-true, bind-ok, check-then, ok-injective, save-usable, reserve-parts,
}
use waterx_predict_agent.Sdk.Intents.Ledger.Run.{
  Call, reserves, attaches, settles, forgets, step, or_before, run,
}
use waterx_predict_agent.Sdk.Intents.Ledger.Found.{
  find-append, find-end, change_first-find, drop_first-find,
}

-- Under a digest stands a record with a key.
pub record Holds (digest key : Text) (records : Records) : Type 0 where
  pub entry : Text × IntentRecord
  pub there : find (is_at digest) records ≡ some entry
  pub keyed : entry.1.idempotency_key ≡ key

-- A call forgets the key.
abbrev pub spares : Text → Call → Bool
spares key (forgets other) = not (text_eq key other)
spares key _ = true

module _ (sha256 : Text → Text) where
  saved :
      (digest key : Text) (records after : Records)
      → Holds digest key records
      → save sha256 records ≡ ok after
      → Holds digest key after
  saved digest key records after h e =
      let (same, usable) = save-usable sha256 records after e in rw same h

  update_record-Holds :
      (digest key other : Text) (change : IntentRecord → IntentRecord) (records after : Records)
      → ((r : IntentRecord) → (change r).idempotency_key ≡ r.idempotency_key)
      → Holds digest key records
      → update_record sha256 other change records ≡ ok after
      → Holds digest key after
  unfolding update_record
  update_record-Holds digest key other change records after kept h e =
      elim (Bool-cases (any (has_key other) records)) [
        | inl q ↦
            let (e', there, same) =
              change_first-find sha256 digest other change records h.entry kept h.there in
            saved digest key (change_first sha256 other change records) after
              (record { entry = e'; there = there; keyed = same ∙ h.keyed }) (rw q at e)
        | inr q ↦ let same : records ≡ after = ok-injective (rw q at e) in rw (← same) h
      ]

  reserve_under-Holds :
      (digest key under : Text) (intent : Members) (draws : List Text) (at : ℕ) (records : Records)
      (there : Option IntentRecord) (made : IntentReservation × Records)
      → Holds digest key records
      → reserve_under sha256 under intent draws at records there ≡ ok made
      → Holds digest key made.1
  unfolding reserve_under
  reserve_under-Holds digest key under intent draws at records (some r) made h e =
      let same : records ≡ made.1 =
        ap (λ (x : IntentReservation × Records). x.1) (ok-injective e) in
      rw (← same) h
  reserve_under-Holds digest key under intent draws at records none made h e =
      let (new_key, minted, e1) = bind-ok (mint sha256 records draws) _ e in
      let (after, s, e2) = bind-ok (save sha256 _) _ e1 in
      let same : after ≡ made.1 = ap (λ (x : IntentReservation × Records). x.1) (ok-injective e2) in
      rw (← same) (
        saved digest key _ after
          (record {
            entry = h.entry;
            there = find-append sha256 (is_at digest) records _ h.entry h.there;
            keyed = h.keyed;
          })
          s)

  step-Holds :
      (digest key : Text) (c : Call) (records after : Records)
      → spares key c ≡ true
      → Holds digest key records
      → step sha256 c records ≡ ok after
      → Holds digest key after
  unfolding step attach settle forget
  step-Holds digest key (reserves intent draws at) records after s h e =
      let (made, e0, same) = bind-ok (reserve sha256 intent draws at records) _ e in
      let (under, d, e2) = reserve-parts sha256 intent draws at records made e0 in
      rw (← ok-injective same)
        (reserve_under-Holds digest key under intent draws at records _ made h e2)
  step-Holds digest key (attaches other execution price) records after s h e =
      let (fine, e1) =
        check-then (is_identifier_text execution) LedgerError.unusable_execution
          (update_record sha256 other (attached sha256 execution price) records) e in
      update_record-Holds digest key other (attached sha256 execution price) records after
        (λ r. refl) h e1
  step-Holds digest key (settles other outcome at) records after s h e =
      update_record-Holds digest key other (settled_with sha256 outcome at) records after
        (λ r. refl) h e
  step-Holds digest key (forgets other) records after s h e =
      let kept : has_key other h.entry ≡ false = rw h.keyed (not-true (text_eq key other) s) in
      saved digest key (drop_first sha256 other records) after
        (record {
          entry = h.entry;
          there = drop_first-find sha256 digest other records h.entry kept h.there;
          keyed = h.keyed;
        })
        e

  run-Holds :
      (digest key : Text) (cs : List Call) (records : Records)
      → All (λ c. spares key c ≡ true) cs
      → Holds digest key records
      → Holds digest key (run sha256 cs records)
  unfolding run
  run-Holds digest key [] records s h = h
  run-Holds digest key (c ∷ cs) records s h =
      run-Holds digest key cs _ s.1 (one (step sha256 c records) refl)
    where
      one :
          (a : Answer Records) → step sha256 c records ≡ a → Holds digest key (or_before records a)
      one (ok after) e = step-Holds digest key c records after s.0 h e
      one (fails f) e = h

  reserve-there :
      (intent : Members) (draws : List Text) (at : ℕ) (records : Records) (digest : Text)
      (entry : Text × IntentRecord)
      → is_none (unrecoverable_intent_reason (normalize_intent intent)) ≡ true
      → intent_digest sha256 intent ≡ some digest
      → find (is_at digest) records ≡ some entry
      → reserve sha256 intent draws at records
        ≡ ok (
          record { idempotency_key = entry.1.idempotency_key; replayed = true; entry = entry.1 },
          records,
        )
  unfolding reserve reserve_under
  reserve-there intent draws at records digest entry fine d there = rw (fine, d) (rw there refl)

  -- A reservation leaves its key under the digest.
  reserve_under-made :
      (digest : Text) (intent : Members) (draws : List Text) (at : ℕ) (records : Records)
      (made : IntentReservation × Records)
      → reserve_under sha256 digest intent draws at records (get_record digest records) ≡ ok made
      → Holds digest made.0.idempotency_key made.1
  unfolding reserve_under
  reserve_under-made digest intent draws at records made e = go (find (is_at digest) records) refl e
    where
      go :
          (o : Option (Text × IntentRecord))
          → find (is_at digest) records ≡ o
          → reserve_under sha256 digest intent draws at records (record_of o) ≡ ok made
          → Holds digest made.0.idempotency_key made.1
      go (some entry) q e =
          rw (← ok-injective e) (record { entry = entry; there = q; keyed = refl })
      go none q e =
          let (key, minted, e1) = bind-ok (mint sha256 records draws) _ e in
          let (after, w, e2) = bind-ok (save sha256 _) _ e1 in
          rw (← ok-injective e2) (
            saved digest key _ after
              (record {
                entry = (digest, new_record sha256 key digest intent at);
                there = find-end sha256 digest records _ q;
                keyed = refl;
              })
              w)

-- After a reservation, and any calls that do not forget its key, an intent with the same content is
-- given the same key again, as a replay, and nothing is written.
pub reserve-replays :
    (sha256 : Text → Text) (intent again : Members) (draws later : List Text) (at then_at : ℕ)
    (records : Records) (made : IntentReservation × Records) (cs : List Call)
    → reserve sha256 intent draws at records ≡ ok made
    → SameIntent intent again
    → is_none (unrecoverable_intent_reason (normalize_intent again)) ≡ true
    → All (λ c. spares made.0.idempotency_key c ≡ true) cs
    → (r : IntentReservation) × (reserve sha256 again later then_at (run sha256 cs made.1)
        ≡ ok (r, run sha256 cs made.1))
      × (r.idempotency_key ≡ made.0.idempotency_key)
      × (r.replayed ≡ true)
reserve-replays sha256 intent again draws later at then_at records made cs e same fine s =
    let (digest, d, e1) = reserve-parts sha256 intent draws at records made e in
    let d' : intent_digest sha256 again ≡ some digest =
      sym (intent_digest-SameIntent sha256 same) ∙ d in
    let h =
      run-Holds sha256 digest _ cs made.1 s
        (reserve_under-made sha256 digest intent draws at records made e1) in
    (
      record { idempotency_key = h.entry.1.idempotency_key; replayed = true; entry = h.entry.1 },
      reserve-there sha256 again later then_at _ digest h.entry fine d' h.there,
      h.keyed,
      refl,
    )

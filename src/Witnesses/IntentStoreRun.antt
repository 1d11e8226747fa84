-- ===== src/Witnesses/IntentStoreRun.antt =====
-- An intent reserved, settled and reserved again, and two sections on one ledger.
use waterx_predict_agent.Base.{
  Distinct, List, ℕ, ◌≡◌, ◌≢◌, ◌↔◌, ◌<◌, refl, none, some, true, false, [], ◌∷◌, Text, codes,
}
use waterx_predict_agent.Sdk.Decimal.{to_scaled}
use waterx_predict_agent.Sdk.Intents.Canonical.{
  Members, member, end, text, object, integer, intent_digest, normalize_intent, canonical_json,
  quote,
}
use waterx_predict_agent.Sdk.Intents.Canonical.Same.{excluded, back, intent_digest-SameIntent}
use waterx_predict_agent.Sdk.Intents.Shape.{
  unrecoverable_intent_reason, sided_reason, size_reason, is_positive_decimal,
}
use waterx_predict_agent.Sdk.Intents.Shape.Sizes.{is_positive_decimal_iff}
use waterx_predict_agent.Sdk.Intents.Ledger.{
  ok, IntentRecordStatus, IntentRecord, IntentReservation, Records, reserve, reserve_under,
  validate, save, assert_usable,
}
use waterx_predict_agent.Sdk.Intents.Ledger.Run.{Call, reserves, settles, run}
use waterx_predict_agent.Sdk.Intents.Ledger.Usable.{IsSound}
use waterx_predict_agent.Sdk.Intents.Ledger.Digests.{same_digest, run-IsSound}
use waterx_predict_agent.Sdk.Intents.Ledger.Keys.{reserve-replays}
use waterx_predict_agent.Sdk.Intents.Files.{
  Files, away, opened, loaded, set_phase, no_files, Reach, start, next, acquire, load,
}
use waterx_predict_agent.Sdk.Intents.Files.Serial.{Reach-IsSerial}

abbrev hash : Text → Text
hash t = codes "d"

abbrev address : Text
address = codes "0x0123456789abcdef0123456789abcdef0123456789abcdef0123456789abcdef"

abbrev intent : Members
intent = member (codes "accountId") (text address) (
    member (codes "marketId") (text (codes "m")) (
      member (codes "outcomeId") (text (codes "YES")) (
        member (codes "side") (text (codes "BUY")) (
          member (codes "size") (object (member (codes "buyAmount") (text (codes "2.5")) end))
            (member (codes "maxSlippageBps") (integer 50) end)))))

abbrev requoted : Members
requoted = member (codes "referenceQuoteId") (text (codes "q")) intent

abbrev reserved : IntentRecord
reserved = record {
  idempotency_key = codes "k";
  digest = codes "d";
  intent = intent;
  status = IntentRecordStatus.pending;
  created_at = 5;
  execution_id = none;
  enforced_worst_price = none;
  settled_at = none;
  outcome = none;
}

abbrev made : IntentReservation × Records
made = (
  record { idempotency_key = codes "k"; replayed = false; entry = reserved },
  (codes "d", reserved) ∷ [],
)

abbrev calls : List Call
calls = settles (codes "k") (codes "FILLED") 9 ∷ []

reserve-replays_example :
    (r : IntentReservation) × (reserve hash requoted (codes "l" ∷ []) 11 (run hash calls made.1)
      ≡ ok (r, run hash calls made.1))
    × (r.idempotency_key ≡ codes "k")
    × (r.replayed ≡ true)
unfolding reserve reserve_under validate save assert_usable intent_digest normalize_intent
    canonical_json quote unrecoverable_intent_reason sided_reason size_reason is_positive_decimal
reserve-replays_example =
    reserve-replays hash intent requoted (codes "k" ∷ []) (codes "l" ∷ []) 5 11 [] made calls refl
      (back (excluded (codes "referenceQuoteId") (text (codes "q")) intent refl)) refl (refl, tt)

run-IsSound_example :
    (assert_usable hash [] (run hash (reserves intent (codes "k" ∷ []) 5 ∷ calls) []) ≡ ok tt)
    × IsSound hash (run hash (reserves intent (codes "k" ∷ []) 5 ∷ calls) [])
    × Distinct same_digest (run hash (reserves intent (codes "k" ∷ []) 5 ∷ calls) [])
run-IsSound_example = run-IsSound hash (reserves intent (codes "k" ∷ []) 5 ∷ calls)

intent_digest-SameIntent_example : intent_digest hash requoted ≡ intent_digest hash intent
intent_digest-SameIntent_example =
    intent_digest-SameIntent hash
      (excluded (codes "referenceQuoteId") (text (codes "q")) intent refl)

is_positive_decimal_iff_example :
    (is_positive_decimal (codes "2.50") ≡ true)
    ↔ ((n : ℕ) × (to_scaled (codes "2.50") ≡ some n) × (0 < n))
is_positive_decimal_iff_example = is_positive_decimal_iff (codes "2.50")

-- Section 1 has its lock and has read the empty ledger.
abbrev reading : Files
reading = record {
  lock = some 1;
  ledger = [];
  phase = set_phase (set_phase (λ token. away) 1 opened) 1 (loaded []);
}

reading-Reach : Reach hash reading
unfolding assert_usable
reading-Reach = next (next start (acquire no_files 1 refl refl)) (load _ 1 refl refl)

Reach-IsSerial_example :
    ((t u : ℕ) → reading.phase t ≢ away → reading.phase u ≢ away → t ≡ u)
    × ((cs : List Call) × (reading.ledger ≡ run hash cs []))
    × IsSound hash reading.ledger
Reach-IsSerial_example = Reach-IsSerial hash reading-Reach

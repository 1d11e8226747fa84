-- ===== src/Sdk/Intents/Ledger/Digests.antt =====
-- The digests of a ledger of packages/sdk/src/intent-store.ts are the keys of a map.
use waterx_predict_agent.Base.{
  ap, ℕ, Bool, false, Bool-cases, inl, inr, Option, none, some, Option-cases, find, find-none, any,
  All, Distinct, List, [], ◌∷◌, ◌++◌, Text, text_eq, ◌≡◌, refl, sym,
}
use waterx_predict_agent.Sdk.Intents.Shape.{is_identifier_text}
use waterx_predict_agent.Sdk.Intents.Ledger.{
  LedgerError, attached, settled_with, Answer, ok, fails, IntentRecord, IntentReservation, Records,
  is_at, has_key, get_record, mint, new_record, reserve, reserve_under, change_first, update_record,
  attach, settle, drop_first, forget, save, assert_usable,
}
use waterx_predict_agent.Sdk.Intents.Canonical.{Members}
use waterx_predict_agent.Sdk.Intents.Ledger.Usable.{
  check-then, reserve-parts, bind-ok, ok-injective, save-usable, IsSound, assert_usable-IsSound,
}
use waterx_predict_agent.Sdk.Intents.Ledger.Run.{
  Call, reserves, attaches, settles, forgets, step, or_before, run,
}

abbrev pub same_digest : Text × IntentRecord → Text × IntentRecord → Bool
same_digest x y = text_eq x.0 y.0

module _ (sha256 : Text → Text) where
  All-change_first :
      (d : Text) (key : Text) (change : IntentRecord → IntentRecord) (l : Records)
      → All (λ (y : Text × IntentRecord). text_eq d y.0 ≡ false) l
      → All (λ (y : Text × IntentRecord). text_eq d y.0 ≡ false) (change_first sha256 key change l)
  All-change_first d key change [] h = tt
  All-change_first d key change (e ∷ rest) h = elim (Bool-cases (has_key key e)) [
    | inl q ↦ rw q h
    | inr q ↦ rw q (h.0, All-change_first d key change rest h.1)
  ]

  change_first-Distinct :
      (key : Text) (change : IntentRecord → IntentRecord) (l : Records)
      → Distinct same_digest l
      → Distinct same_digest (change_first sha256 key change l)
  change_first-Distinct key change [] h = tt
  change_first-Distinct key change (e ∷ rest) h = elim (Bool-cases (has_key key e)) [
    | inl q ↦ rw q h
    | inr q ↦
        rw q (All-change_first e.0 key change rest h.0, change_first-Distinct key change rest h.1)
  ]

  All-drop_first {κ} :
      (P : Text × IntentRecord → Type κ) (key : Text) (l : Records)
      → All P l
      → All P (drop_first sha256 key l)
  All-drop_first P key [] h = tt
  All-drop_first P key (e ∷ rest) h = elim (Bool-cases (has_key key e)) [
    | inl q ↦ rw q h.1
    | inr q ↦ rw q (h.0, All-drop_first P key rest h.1)
  ]

  drop_first-Distinct :
      (key : Text) (l : Records)
      → Distinct same_digest l
      → Distinct same_digest (drop_first sha256 key l)
  drop_first-Distinct key [] h = tt
  drop_first-Distinct key (e ∷ rest) h = elim (Bool-cases (has_key key e)) [
    | inl q ↦ rw q h.1
    | inr q ↦ rw q (
      All-drop_first (λ y. same_digest e y ≡ false) key rest h.0,
      drop_first-Distinct key rest h.1,
    )
  ]

  append-Distinct :
      (l : Records) (x : Text × IntentRecord)
      → Distinct same_digest l
      → All (λ e. is_at x.0 e ≡ false) l
      → Distinct same_digest (l ++ (x ∷ []))
  append-Distinct [] x h a = (tt, tt)
  append-Distinct (e ∷ rest) x h a = (All-append e x rest h.0 a.0, append-Distinct rest x h.1 a.1)
    where
      All-append :
          (e x : Text × IntentRecord) (l : Records)
          → All (λ y. same_digest e y ≡ false) l
          → same_digest e x ≡ false
          → All (λ y. same_digest e y ≡ false) (l ++ (x ∷ []))
      All-append e x [] h a = (a, tt)
      All-append e x (y ∷ l) h a = (h.0, All-append e x l h.1 a)

  get_record-none :
      (digest : Text) (records : Records)
      → get_record digest records ≡ none
      → find (is_at digest) records ≡ none
  get_record-none digest records e = elim (Option-cases (find (is_at digest) records)) [
    | inl q ↦ q
    | inr (a, q) ↦ let bad = rw q at e in cc
  ]

  -- Each record can be read back, under one digest.
  pub record IsLedger (records : Records) : Type 0 where
    pub usable : assert_usable sha256 [] records ≡ ok tt
    pub digests : Distinct same_digest records

  saved-IsLedger :
      (records after : Records)
      → Distinct same_digest records
      → save sha256 records ≡ ok after
      → IsLedger after
  saved-IsLedger records after d e =
      let (same, usable) = save-usable sha256 records after e in
      rw same (record { usable = usable; digests = d })

  reserve_under-IsLedger :
      (digest : Text) (intent : Members) (draws : List Text) (at : ℕ) (records : Records)
      (there : Option IntentRecord) (made : IntentReservation) (after : Records)
      → there ≡ get_record digest records
      → IsLedger records
      → reserve_under sha256 digest intent draws at records there ≡ ok (made, after)
      → IsLedger after
  unfolding reserve_under
  reserve_under-IsLedger digest intent draws at records (some existing) made after q h e =
      let same : records ≡ after = ap (λ (x : IntentReservation × Records). x.1) (ok-injective e) in
      rw (← same) h
  reserve_under-IsLedger digest intent draws at records none made after q h e =
      let (key, minted, e1) = bind-ok (mint sha256 records draws) _ e in
      let (saved, s, e2) = bind-ok (save sha256 _) _ e1 in
      let same : saved ≡ after = ap (λ (x : IntentReservation × Records). x.1) (ok-injective e2) in
      let fresh = find-none (is_at digest) records (get_record-none digest records (sym q)) in
      rw (← same) (
        saved-IsLedger _ saved
          (append-Distinct records (digest, new_record sha256 key digest intent at) h.digests fresh)
          s)

  update_record-IsLedger :
      (key : Text) (change : IntentRecord → IntentRecord) (records after : Records)
      → IsLedger records
      → update_record sha256 key change records ≡ ok after
      → IsLedger after
  unfolding update_record
  update_record-IsLedger key change records after h e =
      elim (Bool-cases (any (has_key key) records)) [
        | inl q ↦
            saved-IsLedger _ after (change_first-Distinct key change records h.digests) (rw q at e)
        | inr q ↦ let same : records ≡ after = ok-injective (rw q at e) in rw (← same) h
      ]

  step-IsLedger :
      (c : Call) (records after : Records)
      → IsLedger records
      → step sha256 c records ≡ ok after
      → IsLedger after
  unfolding step attach settle forget
  step-IsLedger (reserves intent draws at) records after h e =
      let (made, e0, same) = bind-ok (reserve sha256 intent draws at records) _ e in
      let (digest, d, e2) = reserve-parts sha256 intent draws at records made e0 in
      rw (← ok-injective same)
        (reserve_under-IsLedger digest intent draws at records _ made.0 made.1 refl h e2)
  step-IsLedger (attaches key execution price) records after h e =
      let (fine, e1) =
        check-then (is_identifier_text execution) LedgerError.unusable_execution
          (update_record sha256 key (attached sha256 execution price) records) e in
      update_record-IsLedger key (attached sha256 execution price) records after h e1
  step-IsLedger (settles key outcome at) records after h e =
      update_record-IsLedger key (settled_with sha256 outcome at) records after h e
  step-IsLedger (forgets key) records after h e =
      saved-IsLedger _ after (drop_first-Distinct key records h.digests) e

  run-IsLedger :
      (cs : List Call) (records : Records) → IsLedger records → IsLedger (run sha256 cs records)
  unfolding run
  run-IsLedger [] records h = h
  run-IsLedger (c ∷ cs) records h = run-IsLedger cs _ (one (step sha256 c records) refl)
    where
      one : (a : Answer Records) → step sha256 c records ≡ a → IsLedger (or_before records a)
      one (ok after) e = step-IsLedger c records after h e
      one (fails f) e = h

-- Whatever calls are made on an empty ledger, the next load reads back all of it, each record under
-- the hash of its own intent, and no two records have one digest, one key or one execution.
pub run-IsSound :
    (sha256 : Text → Text) (cs : List Call)
    → (assert_usable sha256 [] (run sha256 cs []) ≡ ok tt)
      × IsSound sha256 (run sha256 cs [])
      × Distinct same_digest (run sha256 cs [])
unfolding assert_usable
run-IsSound sha256 cs =
    let h = run-IsLedger sha256 cs [] (record { usable = refl; digests = tt }) in
    (h.usable, assert_usable-IsSound sha256 _ h.usable, h.digests)

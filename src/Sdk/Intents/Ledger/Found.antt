-- ===== src/Sdk/Intents/Ledger/Found.antt =====
-- What the lookups of a ledger of packages/sdk/src/intent-store.ts find when its records change.
use waterx_predict_agent.Base.{
  Bool, true, false, Bool-cases, inl, inr, none, some, some_injective, find, [], ◌∷◌, ◌++◌, Text,
  text_eq, ◌≡◌, refl, ap, arith,
}
use waterx_predict_agent.Sdk.Intents.Ledger.{
  IntentRecord, Records, is_at, has_key, change_first, drop_first,
}

pub text_eq_refl : (s : Text) → text_eq s s ≡ true
text_eq_refl [] = refl
text_eq_refl (x ∷ xs) = ground (arith, text_eq_refl xs)

module _ (sha256 : Text → Text) where
  pub find-append :
      (p : Text × IntentRecord → Bool) (l m : Records) (e : Text × IntentRecord)
      → find p l ≡ some e
      → find p (l ++ m) ≡ some e
  find-append p [] m e h = cc
  find-append p (x ∷ l) m e h = elim (Bool-cases (p x)) [
    | inl q ↦ rw q (rw q at h)
    | inr q ↦ rw q (find-append p l m e (rw q at h))
  ]

  pub find-end :
      (digest : Text) (l : Records) (r : IntentRecord)
      → find (is_at digest) l ≡ none
      → find (is_at digest) (l ++ ((digest, r) ∷ [])) ≡ some (digest, r)
  find-end digest [] r h = rw (text_eq_refl digest) refl
  find-end digest (x ∷ l) r h = elim (Bool-cases (is_at digest x)) [
    | inl q ↦ let bad : some x ≡ none = rw q at h in cc
    | inr q ↦ rw q (find-end digest l r (rw q at h))
  ]

  pub change_first-find :
      (digest key : Text) (change : IntentRecord → IntentRecord) (l : Records)
      (e : Text × IntentRecord)
      → ((r : IntentRecord) → (change r).idempotency_key ≡ r.idempotency_key)
      → find (is_at digest) l ≡ some e
      → (e' : Text × IntentRecord) × (find (is_at digest) (change_first sha256 key change l)
          ≡ some e')
        × (e'.1.idempotency_key ≡ e.1.idempotency_key)
  change_first-find digest key change [] e kept h = cc
  change_first-find digest key change (x ∷ l) e kept h = elim (Bool-cases (has_key key x)) [
    | inl k ↦ elim (Bool-cases (is_at digest x)) [
      | inl q ↦
          let same : x ≡ e = some_injective (rw q at h) in
          ((x.0, change x.1), rw (k, q) refl, rw (← same) (kept x.1))
      | inr q ↦ (e, rw (k, q) (rw q at h), refl)
    ]
    | inr k ↦ elim (Bool-cases (is_at digest x)) [
      | inl q ↦ (e, rw (k, q) (rw q at h), refl)
      | inr q ↦
          let (e', f, same) = change_first-find digest key change l e kept (rw q at h) in
          (e', rw (k, q) f, same)
    ]
  ]

  pub drop_first-find :
      (digest key : Text) (l : Records) (e : Text × IntentRecord)
      → has_key key e ≡ false
      → find (is_at digest) l ≡ some e
      → find (is_at digest) (drop_first sha256 key l) ≡ some e
  drop_first-find digest key [] e other h = cc
  drop_first-find digest key (x ∷ l) e other h = elim (Bool-cases (is_at digest x)) [
    | inl q ↦
        let same : x ≡ e = some_injective (rw q at h) in
        let kept : has_key key x ≡ false = rw same other in rw (kept, q) (ap some same)
    | inr q ↦ elim (Bool-cases (has_key key x)) [
      | inl k ↦ rw k (rw q at h)
      | inr k ↦ rw (k, q) (drop_first-find digest key l e other (rw q at h))
    ]
  ]

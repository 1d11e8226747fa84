-- ===== src/Runner/Strategy/World/Backed.antt =====
-- The requests of packages/runner/src/strategy/driver.ts against the ledger of the store.
use waterx_predict_agent.Base.{
  Bool, some, List, [], ◌∷◌, find, update, ◌≡◌, ◌⊎◌, inl, inr, Bool-cases, arith,
}
use waterx_predict_agent.Runner.Job.{SideEffectAttempt, SideEffectKind}
use waterx_predict_agent.Runner.Store.Db.{Db, is_attempt}
use waterx_predict_agent.Runner.Store.Effects.{closed}
use waterx_predict_agent.Runner.Store.Change.{
  Change, keep, and_then, instances_set, job_created, job_touched, job_claimed, job_moved,
  leg_added, leg_patched, attempt_opened, attempt_closed, cursors_set, spend_added,
}
use waterx_predict_agent.Runner.Strategy.Gateway.{Outside}
use waterx_predict_agent.Runner.Strategy.World.{Payload, Sent}

-- Some element of the list.
abbrev pub Has : {A : Type 0} → (A → Type 0) → List A → Type 0
Has P [] = ⊥
Has P (x ∷ xs) = P x ⊎ Has P xs

pub Has-map :
    {A : Type 0} (P Q : A → Type 0) (xs : List A) → ((a : A) → P a → Q a) → Has P xs → Has Q xs
Has-map P Q [] f h = elim h [ ]
Has-map P Q (x ∷ xs) f (inl h) = inl (f x h)
Has-map P Q (x ∷ xs) f (inr h) = inr (Has-map P Q xs f h)

Has-update :
    {A : Type 0} (P : A → Type 0) (p : A → Bool) (f : A → A) (xs : List A)
    → ((a : A) → P a → P (f a))
    → Has P xs
    → Has P (update p f xs)
Has-update P p f [] k h = elim h [ ]
Has-update P p f (x ∷ xs) k (inl h) = elim (Bool-cases (p x)) [
  | inl e ↦ inl (rw e (k x h))
  | inr e ↦ inl (rw e h)
]
Has-update P p f (x ∷ xs) k (inr h) = inr (Has-update P p f xs k h)

pub Has-find :
    {A : Type 0} (p : A → Bool) (xs : List A) {a : A} → find p xs ≡ some a → Has (λ x. x ≡ a) xs
Has-find p [] h = cc
Has-find p (x ∷ xs) {a} h = elim (Bool-cases (p x)) [
  | inl e ↦ let q : x ≡ a = ground arith in inl q
  | inr e ↦ inr (Has-find p xs (rw e at h))
]

module _ (o : Outside) where
  -- The attempt is of the request: of its kind, its bytes and, for a create, its key.
  abbrev Matches : Payload → SideEffectAttempt → Type 0
  Matches (Payload.create key body) a =
      (a.kind ≡ SideEffectKind.create_execution)
      × (a.idempotency_key ≡ key)
      × (a.request_fingerprint ≡ o.fingerprint_create body)
  Matches (Payload.submit execution signature) a =
      (a.kind ≡ SideEffectKind.submit_execution)
      × (a.request_fingerprint ≡ o.fingerprint_submit execution)

  abbrev pub Backs : Sent → SideEffectAttempt → Type 0
  Backs s a = (a.job_id ≡ s.job_id) × (a.leg_index ≡ s.leg_index) × Matches s.payload a

  -- The ledger has an attempt for the request.
  abbrev pub IsBacked : Sent → Db → Type 0
  IsBacked s db = Has (Backs s) db.effects

  pub Change-IsBacked : {db e : Db} (s : Sent) → Change db e → IsBacked s db → IsBacked s e
  Change-IsBacked s keep h = h
  Change-IsBacked s (and_then c d) h = Change-IsBacked s d (Change-IsBacked s c h)
  Change-IsBacked s (attempt_opened a l found k opened fresh) h = inr h
  Change-IsBacked s (attempt_closed {db} n outcome at detail) h =
      Has-update (Backs s) (is_attempt n) (closed outcome at detail) db.effects
        (still_Backs s.payload) h
    where
      still_Backs :
          (p : Payload) (a : SideEffectAttempt)
          → (a.job_id ≡ s.job_id) × (a.leg_index ≡ s.leg_index) × Matches p a
          → (a.job_id ≡ s.job_id)
            × (a.leg_index ≡ s.leg_index)
            × Matches p (closed outcome at detail a)
      still_Backs (Payload.create key body) a h = h
      still_Backs (Payload.submit execution signature) a h = h
  Change-IsBacked s (leg_added l absent free fresh) h = h
  Change-IsBacked s (leg_patched id' i' patch at free) h = h
  Change-IsBacked s (spend_added r reads) h = h
  Change-IsBacked s (instances_set rows) h = h
  Change-IsBacked s (job_created j t absent n e) h = h
  Change-IsBacked s (job_touched p f touch) h = h
  Change-IsBacked s (job_claimed p f n job found live claim) h = h
  Change-IsBacked s (job_moved n job to at t found edge leg e) h = h
  Change-IsBacked s (cursors_set rows forward) h = h

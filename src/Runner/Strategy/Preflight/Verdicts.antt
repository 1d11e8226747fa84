-- ===== src/Runner/Strategy/Preflight/Verdicts.antt =====
-- When the checks of packages/runner/src/strategy/preflight.ts let a job go on.
use waterx_predict_agent.Runner.Strategy.Gateway.{EffectiveLimits, MandateLimits}
use waterx_predict_agent.Base.{
  [], ◌∷◌, ◌++◌, List, Text, select, is_none, All, some_injective, sym, ◌∙◌, ap, codes, Bool, ℕ,
  ltb, ◌<◌, true, false, Bool-cases, Option, none, some, ◌≡◌, refl, arith, ◌↔◌, inl, inr,
}
use waterx_predict_agent.Runner.Job.{JobPolicySnapshot, JobRecord, PolicyMode}
use waterx_predict_agent.Runner.Strategy.Preflight.Authority.{
  required, PermissionsNeeded, mandate_verdict, unless_revoked, one_if, is_denied,
  classify_authorization, check_local_policy, policy_expiry,
}

-- The local policy lets an unattended process sign at that time.
pub record IsInForce (policy : JobPolicySnapshot) (at : ℕ) : Type 0 where
  pub mode : policy.mode ≡ PolicyMode.delegated_auto
  pub not_after : (t : ℕ) → policy.not_after ≡ some t → at < t

expiry_iff :
    (policy : JobPolicySnapshot) (at : ℕ) (o : Option ℕ)
    → (policy_expiry policy at o ≡ none) ↔ ((t : ℕ) → o ≡ some t → at < t)
expiry_iff policy at none = (λ e t q. cc, λ h. refl)
expiry_iff policy at (some n) = elim (Bool-cases (ltb at n)) [
  | inl e ↦
      (λ q t r. let same : n ≡ t = some_injective r in ground (arith, e, same), λ h. rw e refl)
  | inr e ↦ (
    λ q. let bad = rw e at q in cc,
    λ h. let less = h n refl in let bad : true ≡ false = ground (arith, e, less) in cc,
  )
]

-- The local policy passes exactly under a delegated mandate that has not run out.
pub check_local_policy_iff :
    (job : JobRecord) (at : ℕ) → (check_local_policy job at ≡ none) ↔ IsInForce job.policy at
unfolding check_local_policy
check_local_policy_iff job at = by_mode job.policy.mode refl
  where
    by_mode :
        (mode : PolicyMode)
        → job.policy.mode ≡ mode
        → (check_local_policy job at ≡ none) ↔ IsInForce job.policy at
    by_mode PolicyMode.delegated_auto e = (
      λ q. record { mode = e; not_after = (expiry_iff job.policy at _).0 (rw e at q) },
      λ h. rw e ((expiry_iff job.policy at _).1 h.not_after),
    )
    by_mode PolicyMode.interactive e = (λ q. let bad = rw e at q in cc, λ h. let m = h.mode in cc)
    by_mode PolicyMode.read_only e = (λ q. let bad = rw e at q in cc, λ h. let m = h.mode in cc)
    by_mode (PolicyMode.unrecognized name) e =
        (λ q. let bad = rw e at q in cc, λ h. let m = h.mode in cc)

abbrev IsGrant : Text × Option Bool → Type 0
IsGrant p = p.1 ≡ some true

grants_iff :
    (ps : List (Text × Option Bool))
    → ((select (λ p. is_denied p.1) ps ≡ []) × (select (λ p. is_none p.1) ps ≡ [])) ↔ All IsGrant ps
grants_iff [] = (λ h. tt, λ h. (refl, refl))
grants_iff ((name, none) ∷ ps) = (λ (h, k). cc, λ (h, k). cc)
grants_iff ((name, some false) ∷ ps) = (λ (h, k). cc, λ (h, k). cc)
grants_iff ((name, some true) ∷ ps) =
    (λ h. (refl, (grants_iff ps).0 h), λ (h, k). (grants_iff ps).1 k)

one_if_iff :
    (b : Bool) (name : Text) (granted : Option Bool) (ps : List (Text × Option Bool))
    → All IsGrant (one_if b name granted ++ ps)
      ↔ ((b ≡ true → granted ≡ some true) × All IsGrant ps)
one_if_iff false name granted ps = (λ h. (λ e. cc, h), λ (h, k). k)
one_if_iff true name granted ps = (λ (h, k). (λ e. h, k), λ (h, k). (h refl, k))

-- The owner's mandate lets the agent write now.
pub record IsWritable (limits : EffectiveLimits) : Type 0 where
  pub mandate : MandateLimits
  pub granted : limits.limits ≡ some mandate
  pub running : mandate.is_suspended ≡ false
  pub unblocked : limits.blockers ≡ []

mandate_iff :
    (limits : EffectiveLimits) (o : Option MandateLimits)
    → limits.limits ≡ o
    → (mandate_verdict limits o ≡ none) ↔ IsWritable limits
mandate_iff limits none e = (λ h. cc, λ w. let g = w.granted in cc)
mandate_iff limits (some m) e = elim (Bool-cases m.is_suspended) [
  | inl s ↦ (
    λ h. let bad = rw s at h in cc,
    λ w.
        let same : m ≡ w.mandate = some_injective (sym e ∙ w.granted) in
        let bad : true ≡ false =
          sym s ∙ ap (λ (x : MandateLimits). x.is_suspended) same ∙ w.running in
        cc,
  )
  | inr s ↦ (
    λ h. record {
      mandate = m;
      granted = e;
      running = s;
      unblocked = none_listed _ refl (rw s at h);
    },
    λ w. rw (s, w.unblocked) refl,
  )
]
  where
    none_listed :
        (bs : List Text)
        → limits.blockers ≡ bs
        → mandate_verdict limits (some (record m { is_suspended = false })) ≡ none
        → limits.blockers ≡ []
    none_listed [] q h = q
    none_listed (b ∷ bs) q h = let bad = rw q at h in cc

-- What the owner has granted for the legs of a job.
pub record IsGranted (limits : EffectiveLimits) (needs : PermissionsNeeded) : Type 0 where
  pub place : needs.place ≡ true → limits.delegation.may_place_order ≡ some true
  pub close : needs.close ≡ true → limits.delegation.may_request_close ≡ some true

required_iff :
    (limits : EffectiveLimits) (needs : PermissionsNeeded)
    → All IsGrant (required limits needs) ↔ IsGranted limits needs
required_iff limits needs = (
  λ h.
      let (place, rest) = (one_if_iff needs.place _ _ _).0 h in
      record { place = place; close = last rest },
  λ g. (one_if_iff needs.place _ _ _).1 (g.place, only g.close),
)
  where
    last :
        All IsGrant
          (one_if needs.close (codes "mayRequestClose") limits.delegation.may_request_close)
        → needs.close ≡ true
        → limits.delegation.may_request_close ≡ some true
    last h e = (rw e at h).0

    only :
        (needs.close ≡ true → limits.delegation.may_request_close ≡ some true)
        → All IsGrant
            (one_if needs.close (codes "mayRequestClose") limits.delegation.may_request_close)
    only k = elim (Bool-cases needs.close) [ inl e ↦ rw e (k e, tt) | inr e ↦ rw e tt ]

lists_iff :
    (limits : EffectiveLimits) (has_mandate : Bool) (revoked unreadable : List (Text × Option Bool))
    → (unless_revoked revoked unreadable limits has_mandate ≡ none)
      ↔ (((revoked ≡ []) × (unreadable ≡ [])) × (has_mandate ≡ true → IsWritable limits))
lists_iff limits b (p ∷ ps) ys = (λ h. cc, λ ((h, k), w). cc)
lists_iff limits b [] (y ∷ ys) = (λ h. cc, λ ((h, k), w). cc)
lists_iff limits true [] [] = (
  λ h. ((refl, refl), λ e. (mandate_iff limits _ refl).0 h),
  λ (h, w). (mandate_iff limits _ refl).1 (w refl),
)
lists_iff limits false [] [] = (λ h. ((refl, refl), λ e. cc), λ h. refl)

-- The server's answer lets a job go on exactly when every permission that its legs need reads as
-- granted and, where writes need a mandate of the owner's, there is one that is not suspended and
-- nothing blocks it.
pub classify_authorization_iff :
    (limits : EffectiveLimits) (needs : PermissionsNeeded) (has_mandate : Bool)
    → (classify_authorization limits needs has_mandate ≡ none)
      ↔ (IsGranted limits needs × (has_mandate ≡ true → IsWritable limits))
unfolding classify_authorization
classify_authorization_iff limits needs b = (
  λ h.
      let (empty, writable) = (lists_iff limits b _ _).0 h in
      ((required_iff limits needs).0 ((grants_iff _).0 empty), writable),
  λ (g, w). (lists_iff limits b _ _).1 ((grants_iff _).1 ((required_iff limits needs).1 g), w),
)

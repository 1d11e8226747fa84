-- ===== src/Runner/Strategy/Shares.antt =====
-- `sharesForFraction` of packages/runner/src/strategy/intent.ts.
use native.Mathlib.Nat.{mul-le-mul_left}
use waterx_predict_agent.Base.{
  ℕ, suc, ◌*◌, ◌/◌, ◌==◌, ◌≤◌, ◌<◌, Bool-cases, inl, inr, some, Text, ◌≡◌, refl, arith,
  some_injective,
}
use waterx_predict_agent.Sdk.Decimal.{to_scaled, from_scaled}
use waterx_predict_agent.Sdk.Decimal.RoundTrip.{to_scaled-from_scaled}
use waterx_predict_agent.Runner.Store.Db.{ok, ◌>>=◌}
use waterx_predict_agent.Runner.Store.Change.{ok-injective}
use waterx_predict_agent.Runner.Strategy.Gateway.{shares_for_fraction, unless_zero}

-- The most shares, in millionths, that a fraction of a holding is worth.
pub record IsShareOf (held part n : ℕ) : Type 0 where
  pub some_of_it : 0 < n
  pub no_more : n * 1_000_000 ≤ held * part
  pub no_less : held * part < suc n * 1_000_000

share_of :
    (x n : ℕ) (t : Text)
    → unless_zero n ≡ some t
    → n ≡ x / 1_000_000
    → (to_scaled t ≡ some n) × (0 < n) × (n * 1_000_000 ≤ x) × (x < suc n * 1_000_000)
share_of x n t h e = elim (Bool-cases (n == 0)) [
  | inl z ↦ let bad = rw z at h in cc
  | inr z ↦
      let same : from_scaled n ≡ t = some_injective (rw z at h) in
      (rw (← same) (to_scaled-from_scaled n), ground (arith, z), omega (arith, e), omega (arith, e))
]

-- The shares that a dynamic fraction resolves to are the fraction of the holding, rounded down to a
-- millionth of a share, and are not zero.
pub shares_for_fraction-IsShareOf :
    (held fraction t : Text) (h f : ℕ)
    → to_scaled held ≡ some h
    → to_scaled fraction ≡ some f
    → shares_for_fraction held fraction ≡ ok (some t)
    → (n : ℕ) × (to_scaled t ≡ some n) × IsShareOf h f n
unfolding shares_for_fraction ◌>>=◌
shares_for_fraction-IsShareOf held fraction t h f p q e =
    let whole = ok-injective (rw (p, q) at e) in
    let (reads, positive, no_more, no_less) = share_of (h * f) _ t whole refl in
    (
      h * f / 1_000_000,
      reads,
      record { some_of_it = positive; no_more = no_more; no_less = no_less },
    )

-- A part of a holding is no more than the holding.
pub shares_for_fraction-held :
    (held fraction t : Text) (h f : ℕ)
    → to_scaled held ≡ some h
    → to_scaled fraction ≡ some f
    → f ≤ 1_000_000
    → shares_for_fraction held fraction ≡ ok (some t)
    → (n : ℕ) × (to_scaled t ≡ some n) × (n ≤ h)
shares_for_fraction-held held fraction t h f p q part e =
    let (n, reads, share) = shares_for_fraction-IsShareOf held fraction t h f p q e in
    (n, reads, omega (arith, share.no_more, mul-le-mul_left h part))

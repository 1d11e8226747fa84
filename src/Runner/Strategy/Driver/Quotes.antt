-- ===== src/Runner/Strategy/Driver/Quotes.antt =====
-- `verifyQuote` of packages/runner/src/strategy/driver.ts: which quotes are acted on.
use waterx_predict_agent.Base.{
  and_both, ap, ◌∙◌, codes, ==_iff, Bool, if◌then◌else◌, some_injective, ℕ, leb, ◌<◌, true, false,
  Bool-cases, Option, none, some, Text, ◌≡◌, refl, arith, ◌↔◌, inl, inr,
}
use waterx_predict_agent.Sdk.Decimal.{target_reached}
use waterx_predict_agent.Runner.Job.{TriggerKind, JobLegIntent, JobRecord}
use waterx_predict_agent.Runner.Store.Db.{ok, or_fail, ◌>>=◌, StoreError}
use waterx_predict_agent.Runner.Store.Change.{>>=-eq-ok, or_fail-some}
use waterx_predict_agent.Runner.Strategy.Gateway.{Quote}
use waterx_predict_agent.Runner.Strategy.Preflight.{LegSkip, LegSkipReason}
use waterx_predict_agent.Runner.Strategy.Driver.{
  watch_from, watches, same_side, target_of, WatchKey, watch_key_of, Side, meets, meets_optional,
  or_then, priced, target_for, verify_quote,
}

-- The trigger waits for a price of the market, outcome and side that the leg trades, and this is it.
pub record IsTarget (job : JobRecord) (intent : JobLegIntent) (target : Text) : Type 0 where
  pub on_price : job.trigger.kind ≡ TriggerKind.price
  pub price : job.trigger.target_price ≡ some target
  pub market : job.trigger.market_id ≡ some intent.market_id
  pub outcome : job.trigger.outcome_id ≡ some intent.outcome_id
  pub side : job.trigger.side ≡ some intent.side

-- What a quote meets to be acted on.
pub record IsGoodQuote (job : JobRecord) (intent : JobLegIntent) (quote : Quote) (at : ℕ)
    : Type 0 where
  pub live : at < quote.expires_at
  pub bounded :
      (bound : Text)
      → intent.worst_acceptable_price ≡ some bound
      → target_reached intent.side quote.expected_price bound ≡ some true
  pub on_target :
      (target : Text)
      → IsTarget job intent target
      → target_reached intent.side quote.expected_price target ≡ some true

same_side_iff : (a b : Side) → (same_side a b ≡ true) ↔ (a ≡ b)
same_side_iff Side.buy Side.buy = (λ e. refl, λ e. refl)
same_side_iff Side.sell Side.sell = (λ e. refl, λ e. refl)
same_side_iff Side.buy Side.sell = (λ e. cc, λ e. cc)
same_side_iff Side.sell Side.buy = (λ e. cc, λ e. cc)

watches_iff :
    (watch : WatchKey) (intent : JobLegIntent)
    → (watches watch intent ≡ true) ↔ (
        (watch.market_id ≡ intent.market_id)
        × (watch.outcome_id ≡ intent.outcome_id)
        × (watch.side ≡ intent.side))
watches_iff watch intent =
    let m = ==_iff watch.market_id intent.market_id in
    let o = ==_iff watch.outcome_id intent.outcome_id in
    let s = same_side_iff watch.side intent.side in
    (
      λ e.
          let (em, rest) = and_both _ _ e in
          let (eo, es) = and_both _ _ rest in (m.0 em, o.0 eo, s.0 es),
      λ (em, eo, es). rw (m.1 em, o.1 eo, s.1 es) refl,
    )

target_for_iff :
    (job : JobRecord) (intent : JobLegIntent) (target : Text)
    → (target_for job intent ≡ some target) ↔ IsTarget job intent target
unfolding target_for watch_key_of
target_for_iff job intent target = (
  λ e.
      is_target job.trigger.kind job.trigger.target_price job.trigger.market_id
        job.trigger.outcome_id job.trigger.side refl refl refl refl refl e,
  λ t.
      rw (t.on_price, t.price, t.market, t.outcome, t.side)
        (if_watched ((watches_iff _ intent).1 (refl, refl, refl))),
)
  where
    if_watched : {b : Bool} → b ≡ true → (if b then some target else none) ≡ some target
    if_watched e = rw e refl

    is_target :
        (kind : TriggerKind) (price : Option Text) (m o : Option ℕ) (s : Option Side)
        → job.trigger.kind ≡ kind
        → job.trigger.target_price ≡ price
        → job.trigger.market_id ≡ m
        → job.trigger.outcome_id ≡ o
        → job.trigger.side ≡ s
        → target_of kind price (watch_from m o s) intent ≡ some target
        → IsTarget job intent target
    is_target TriggerKind.price (some p) (some m) (some o) (some s) ek ep em eo es e =
        elim (Bool-cases (watches (record { market_id = m; outcome_id = o; side = s }) intent)) [
          | inl fits ↦
              let same : p ≡ target = some_injective (rw fits at e) in
              let (fm, fo, fs) = (watches_iff _ intent).0 fits in
              record {
                on_price = ek;
                price = ep ∙ ap some same;
                market = em ∙ ap some fm;
                outcome = eo ∙ ap some fo;
                side = es ∙ ap some fs;
              }
          | inr off ↦ let bad : none ≡ some target = rw off at e in cc
        ]
    is_target _ _ _ _ _ ek ep em eo es e = cc

meets-none :
    (intent : JobLegIntent) (quote : Quote) (bound : Text) (reason : LegSkipReason) (key : Text)
    → meets intent quote bound reason key ≡ ok none
    → target_reached intent.side quote.expected_price bound ≡ some true
unfolding ◌>>=◌
meets-none intent quote bound reason key h =
    let (met, reads, answer) =
      >>=-eq-ok
        (or_fail StoreError.range_error (target_reached intent.side quote.expected_price bound)) _
        h in
    elim (Bool-cases met) [
      | inl e ↦ or_fail-some _ _ reads ∙ ap some e
      | inr e ↦ let bad = rw e at answer in cc
    ]

meets_optional_iff :
    (intent : JobLegIntent) (quote : Quote) (bound : Option Text) (reason : LegSkipReason)
    (key : Text)
    → (meets_optional intent quote bound reason key ≡ ok none) ↔ (
        (b : Text) → bound ≡ some b → target_reached intent.side quote.expected_price b ≡ some true)
unfolding ◌>>=◌
meets_optional_iff intent quote none reason key = (λ h b e. cc, λ h. refl)
meets_optional_iff intent quote (some b) reason key = (
  λ h c e. rw (← some_injective e) (meets-none intent quote b reason key h),
  λ h. let met = h b refl in rw met refl,
)

priced_iff :
    (job : JobRecord) (intent : JobLegIntent) (quote : Quote)
    → (priced job intent quote ≡ ok none) ↔ (
        ((b : Text)
          → intent.worst_acceptable_price ≡ some b
          → target_reached intent.side quote.expected_price b ≡ some true)
        × ((t : Text)
            → IsTarget job intent t
            → target_reached intent.side quote.expected_price t ≡ some true))
unfolding ◌>>=◌
priced_iff job intent quote = (
  λ h.
      let (bounded, first, rest) =
        >>=-eq-ok (meets_optional intent quote intent.worst_acceptable_price _ _) _ h in
      both bounded first rest,
  λ (h, k).
      let first =
        (meets_optional_iff intent quote intent.worst_acceptable_price
            LegSkipReason.price_worse_than_bound (codes "worstAcceptablePrice")).1
          h in
      let second =
        (meets_optional_iff intent quote (target_for job intent) LegSkipReason.target_no_longer_met
            (codes "targetPrice")).1
          (λ t e. k t ((target_for_iff job intent t).0 e)) in
      bound_then first second,
)
  where
    both :
        (bounded : Option LegSkip)
        → meets_optional intent quote intent.worst_acceptable_price
            LegSkipReason.price_worse_than_bound
            (codes "worstAcceptablePrice")
          ≡ ok bounded
        → or_then bounded (
            meets_optional intent quote
              (target_for job intent)
              LegSkipReason.target_no_longer_met
              (codes "targetPrice"))
          ≡ ok none
        → ((b : Text)
            → intent.worst_acceptable_price ≡ some b
            → target_reached intent.side quote.expected_price b ≡ some true)
          × ((t : Text)
              → IsTarget job intent t
              → target_reached intent.side quote.expected_price t ≡ some true)
    both none e f =
        let on_target = (meets_optional_iff intent quote _ _ _).0 f in
        (
          (meets_optional_iff intent quote _ _ _).0 e,
          λ t target. on_target t ((target_for_iff job intent t).1 target),
        )
    both (some skip) e f = cc

    bound_then :
        meets_optional intent quote intent.worst_acceptable_price
            LegSkipReason.price_worse_than_bound
            (codes "worstAcceptablePrice")
          ≡ ok none
        → meets_optional intent quote
            (target_for job intent)
            LegSkipReason.target_no_longer_met
            (codes "targetPrice")
          ≡ ok none
        → priced job intent quote ≡ ok none
    bound_then e f = rw (e, f) refl

-- A quote is acted on exactly when it has not expired, is no worse than the leg's own bound and, where
-- the leg trades what the trigger watches, still meets the trigger's target.
pub verify_quote_iff :
    (job : JobRecord) (intent : JobLegIntent) (quote : Quote) (at : ℕ)
    → (verify_quote job intent quote at ≡ ok none) ↔ IsGoodQuote job intent quote at
unfolding verify_quote
verify_quote_iff job intent quote at = elim (Bool-cases (leb quote.expires_at at)) [
  | inl e ↦ (
    λ h. let bad = rw e at h in cc,
    λ good. let late = good.live in let bad : true ≡ false = ground (arith, e, late) in cc,
  )
  | inr e ↦ (
    λ h.
        let (bounded, on_target) = (priced_iff job intent quote).0 (rw e at h) in
        record { live = ground (arith, e); bounded = bounded; on_target = on_target },
    λ good. rw e ((priced_iff job intent quote).1 (good.bounded, good.on_target)),
  )
]

-- ===== src/Witnesses/IntentRun.antt =====
-- An expiry and a trigger on a price, as a request gives them.
use waterx_predict_agent.Base.{◌≡◌, refl, ◌↔◌, none, some, [], ◌∷◌, codes}
use waterx_predict_agent.Sdk.Decimal.{to_scaled}
use waterx_predict_agent.Runner.Job.{TriggerKind}
use waterx_predict_agent.Runner.Strategy.Intent.{
  ExpiryRequest, StrategyTriggerRequest, resolve_expiry, passed, normalize_trigger, price_trigger,
  target_text, require_price, watched, unanimous,
}
use waterx_predict_agent.Runner.Strategy.Intent.Trigger.{
  IsExpiry, IsPriced, resolve_expiry_iff, normalize_trigger-IsPriced,
}
use waterx_predict_agent.Witnesses.Data.{buy_leg}

resolve_expiry_iff_example :
    (resolve_expiry (ExpiryRequest.instant 1000) 400 600
      ≡ passed (record { expires_at = 1000; expires_in_ms = 600 }))
    ↔ IsExpiry
        (ExpiryRequest.instant 1000)
        400
        600
        (record { expires_at = 1000; expires_in_ms = 600 })
resolve_expiry_iff_example =
    resolve_expiry_iff (ExpiryRequest.instant 1000) 400 600
      (record { expires_at = 1000; expires_in_ms = 600 })

abbrev request : StrategyTriggerRequest
request = record {
  kind = TriggerKind.price;
  target_price = some (codes "0.4");
  market_id = none;
  outcome_id = none;
  side = none;
}

normalize_trigger-IsPriced_example :
    IsPriced request
      (buy_leg ∷ buy_leg ∷ [])
      (price_trigger (codes "0.4") (record { market_id = 3; outcome_id = 1; side = buy_leg.side }))
unfolding normalize_trigger target_text require_price to_scaled watched unanimous
normalize_trigger-IsPriced_example =
    normalize_trigger-IsPriced request (buy_leg ∷ buy_leg ∷ []) _ refl refl

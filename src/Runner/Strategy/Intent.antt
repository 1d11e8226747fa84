-- ===== src/Runner/Strategy/Intent.antt =====
-- packages/runner/src/strategy/intent.ts: the expiry, the policy and the trigger of a strategy. The
-- texts of refusals are left out. An instant of a request has been read, an id is not blank and an
-- outcome and a side are of their types.
pub mod Trigger
use waterx_predict_agent.Base.{
  map, ℕ, ◌-◌, ◌==◌, ltb, leb, if◌then◌else◌, Bool, true, false, ◌&&◌, ◌||◌, Option, none, some,
  is_none, List, [], ◌∷◌, Text,
}
use waterx_predict_agent.Sdk.Decimal.{Side, to_scaled}
use waterx_predict_agent.Runner.Job.{
  JobLegIntent, JobTrigger, TriggerKind, Observe, PolicyMode, JobPolicySnapshot,
}
use waterx_predict_agent.Runner.Strategy.Driver.{same_side}

pub data StrategyErrorCode : Type 0 where
  expiry_required expiry_invalid expiry_in_past expiry_too_far no_legs : StrategyErrorCode
  field_required field_invalid size_missing size_ambiguous size_invalid : StrategyErrorCode
  fraction_invalid fraction_resolves_to_zero position_required : StrategyErrorCode
  position_not_applicable position_read_unavailable position_unknown : StrategyErrorCode
  position_lookup_inconclusive position_mismatch position_shares_unknown : StrategyErrorCode
  trigger_invalid trigger_incomplete trigger_ambiguous policy_forbids_write : StrategyErrorCode
  policy_requires_delegation policy_mode_unrecognized : StrategyErrorCode

-- A value, or a `StrategyError` that is thrown.
pub data Checked {ℓ} (A : Type ℓ) : Type ℓ where
  passed : A → Checked A
  refused : StrategyErrorCode → Checked A

infixl 5 ◌>>=◌
abbrev pub ◌>>=◌ {ℓ κ} : {A : Type ℓ} {B : Type κ} → Checked A → (A → Checked B) → Checked B
refused code >>= k = refused code
passed a >>= k = k a

-- `absent` is an omitted or a blank text, `unreadable` one that is no ISO instant with a zone.
pub data ExpiryRequest : Type 0 where
  absent unreadable : ExpiryRequest
  instant : ℕ → ExpiryRequest

pub record ResolvedExpiry : Type 0 where
  pub expires_at : ℕ
  pub expires_in_ms : ℕ

abbrev pub within_cap : ℕ → ℕ → ℕ → Checked ResolvedExpiry
within_cap expiry at max_expiry_ms =
    if leb expiry at
    then refused StrategyErrorCode.expiry_in_past
    else if ltb max_expiry_ms (expiry - at)
    then refused StrategyErrorCode.expiry_too_far
    else passed (record { expires_at = expiry; expires_in_ms = expiry - at })

unfoldable pub resolve_expiry : ExpiryRequest → ℕ → ℕ → Checked ResolvedExpiry
resolve_expiry absent at max_expiry_ms = refused StrategyErrorCode.expiry_required
resolve_expiry unreadable at max_expiry_ms = refused StrategyErrorCode.expiry_invalid
resolve_expiry (instant expiry) at max_expiry_ms = within_cap expiry at max_expiry_ms

unfoldable pub require_policy_that_can_sign_unattended : JobPolicySnapshot → Checked (Unit {0})
require_policy_that_can_sign_unattended policy = elim policy.mode [
  | PolicyMode.read_only ↦ refused StrategyErrorCode.policy_forbids_write
  | PolicyMode.interactive ↦ refused StrategyErrorCode.policy_requires_delegation
  | PolicyMode.delegated_auto ↦ passed tt
  | PolicyMode.unrecognized mode ↦ refused StrategyErrorCode.policy_mode_unrecognized
]

-- An immediate trigger of the type may carry the fields of a price by mistake.
pub record StrategyTriggerRequest : Type 0 where
  pub kind : TriggerKind
  pub target_price : Option Text
  pub market_id : Option ℕ
  pub outcome_id : Option ℕ
  pub side : Option Side

-- `parseScaled` and the bound of a probability.
abbrev pub price_of : Text → Option ℕ → Checked Text
price_of value none = refused StrategyErrorCode.field_invalid
price_of value (some scaled) =
    if ltb 1_000_000 scaled then refused StrategyErrorCode.field_invalid else passed value

unfoldable pub require_price : Text → Checked Text
require_price value = price_of value (to_scaled value)

-- What `trim` takes off.
abbrev pub is_white : ℕ → Bool
is_white c =
    (leb 9 c && leb c 13)
    || (c == 32
        || (c == 160
            || (c == 5760
                || (leb 8192 c && leb c 8202
                    || (c == 8232
                        || (c == 8233
                            || (c == 8239 || (c == 8287 || (c == 12288 || c == 65279)))))))))

abbrev pub is_blank : Text → Bool
is_blank [] = true
is_blank (c ∷ cs) = is_white c && is_blank cs

unfoldable pub target_text : Option Text → Checked Text
target_text none = refused StrategyErrorCode.trigger_invalid
target_text (some value) =
    if is_blank value then refused StrategyErrorCode.trigger_invalid else require_price value

abbrev pub all_same {ℓ} : {A : Type ℓ} → (A → A → Bool) → A → List A → Bool
all_same same a [] = true
all_same same a (b ∷ bs) = same a b && all_same same a bs

-- The one value that every leg agrees on.
unfoldable pub unanimous {ℓ} :
    {A : Type ℓ} → (A → A → Bool) → (JobLegIntent → A) → List JobLegIntent → Checked A
unanimous same field [] = refused StrategyErrorCode.trigger_ambiguous
unanimous same field (leg ∷ legs) =
    if all_same same (field leg) (map field legs)
    then passed (field leg)
    else refused StrategyErrorCode.trigger_ambiguous

pub record Watched : Type 0 where
  pub market_id : ℕ
  pub outcome_id : ℕ
  pub side : Side

-- The watched market: named in full, or not at all and then the one of the legs.
unfoldable pub watched : Option ℕ → Option ℕ → Option Side → List JobLegIntent → Checked Watched
watched (some m) (some o) (some s) legs =
    passed (record { market_id = m; outcome_id = o; side = s })
watched none none none legs = do
  m ← unanimous ◌==◌ (λ leg. leg.market_id) legs
  o ← unanimous ◌==◌ (λ leg. leg.outcome_id) legs
  s ← unanimous same_side (λ leg. leg.side) legs
  passed (record { market_id = m; outcome_id = o; side = s })
watched _ _ _ legs = refused StrategyErrorCode.trigger_incomplete

-- A BUY target is a ceiling on the ask, a SELL target a floor under the bid.
abbrev pub observe_of : Side → Observe
observe_of Side.buy = Observe.ask
observe_of Side.sell = Observe.bid

abbrev pub price_trigger : Text → Watched → JobTrigger
price_trigger target w = record {
  kind = TriggerKind.price;
  target_price = some target;
  observe = some (observe_of w.side);
  market_id = some w.market_id;
  outcome_id = some w.outcome_id;
  side = some w.side;
}

abbrev pub immediate_trigger : JobTrigger
immediate_trigger = record {
  kind = TriggerKind.immediate;
  target_price = none;
  observe = none;
  market_id = none;
  outcome_id = none;
  side = none;
}

abbrev pub has_no_stray : StrategyTriggerRequest → Bool
has_no_stray trigger =
    is_none trigger.target_price
    && (is_none trigger.market_id && (is_none trigger.outcome_id && is_none trigger.side))

unfoldable pub normalize_trigger : StrategyTriggerRequest → List JobLegIntent → Checked JobTrigger
normalize_trigger trigger legs = elim trigger.kind [
  | TriggerKind.immediate ↦
      if has_no_stray trigger
      then passed immediate_trigger
      else refused StrategyErrorCode.trigger_invalid
  | TriggerKind.price ↦ do
    target ← target_text trigger.target_price
    market ← watched trigger.market_id trigger.outcome_id trigger.side legs
    passed (price_trigger target market)
]

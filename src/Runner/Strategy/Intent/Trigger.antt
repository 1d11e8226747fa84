-- ===== src/Runner/Strategy/Intent/Trigger.antt =====
-- The trigger and the expiry that packages/runner/src/strategy/intent.ts lets through.
use waterx_predict_agent.Base.{
  and_both, ap, sym, subst, Option-cases, ==_iff, ◌∷◌, ◌==◌, ◌⊎◌, ◌↔◌, none, map, All, some, Text,
  Option, List, [], true, false, Bool, ℕ, ◌+◌, ◌-◌, ◌<◌, ◌≤◌, ltb, leb, Bool-cases, inl, inr, ◌≡◌,
  refl, arith,
}
use waterx_predict_agent.Sdk.Decimal.{Side, to_scaled}
use waterx_predict_agent.Runner.Job.{JobLegIntent, JobTrigger, TriggerKind, Observe}
use waterx_predict_agent.Runner.Strategy.Driver.{same_side}
use waterx_predict_agent.Runner.Strategy.Intent.{
  observe_of, is_blank, all_same, unanimous, Watched, refused, ◌>>=◌, require_price, target_text,
  normalize_trigger, StrategyTriggerRequest, Checked, watched, passed, ExpiryRequest,
  ResolvedExpiry, resolve_expiry,
}

-- An instant after the creation and within the cap, which is not moved.
pub record IsExpiry (request : ExpiryRequest) (at max_expiry_ms : ℕ) (x : ResolvedExpiry)
    : Type 0 where
  pub asked : request ≡ ExpiryRequest.instant x.expires_at
  pub later : at < x.expires_at
  pub near : x.expires_at ≤ at + max_expiry_ms
  pub left : x.expires_in_ms ≡ x.expires_at - at

passed-injective {ℓ} : {A : Type ℓ} {a b : A} → passed a ≡ passed b → a ≡ b
passed-injective e = cc

resolve_expiry-IsExpiry :
    (request : ExpiryRequest) (at max_expiry_ms : ℕ) (x : ResolvedExpiry)
    → resolve_expiry request at max_expiry_ms ≡ passed x
    → IsExpiry request at max_expiry_ms x
unfolding resolve_expiry
resolve_expiry-IsExpiry ExpiryRequest.absent at cap x e = cc
resolve_expiry-IsExpiry ExpiryRequest.unreadable at cap x e = cc
resolve_expiry-IsExpiry (ExpiryRequest.instant i) at cap x e = elim (Bool-cases (leb i at)) [
  | inl past ↦ let bad = rw past at e in cc
  | inr later ↦ elim (Bool-cases (ltb cap (i - at))) [
    | inl far ↦ let bad = rw (later, far) at e in cc
    | inr near ↦
        let same = passed-injective (rw (later, near) at e) in
        rw (← same) (record {
          asked = refl;
          later = ground (arith, later);
          near = ground (arith, later, near);
          left = refl;
        })
  ]
]

IsExpiry-passed :
    (request : ExpiryRequest) (at max_expiry_ms : ℕ) (x : ResolvedExpiry)
    → IsExpiry request at max_expiry_ms x
    → resolve_expiry request at max_expiry_ms ≡ passed x
unfolding resolve_expiry
IsExpiry-passed request at cap x h =
    let later : leb x.expires_at at ≡ false = ground (arith, h.later) in
    let near : ltb cap (x.expires_at - at) ≡ false = ground (arith, h.near) in
    rw (h.asked, later, near, ← h.left) refl

-- An expiry is taken exactly if it is after the creation and within the cap, and then as it was
-- asked for.
pub resolve_expiry_iff :
    (request : ExpiryRequest) (at max_expiry_ms : ℕ) (x : ResolvedExpiry)
    → (resolve_expiry request at max_expiry_ms ≡ passed x) ↔ IsExpiry request at max_expiry_ms x
resolve_expiry_iff request at cap x =
    (resolve_expiry-IsExpiry request at cap x, IsExpiry-passed request at cap x)

bind-passed {ℓ κ} :
    {A : Type ℓ} {B : Type κ} (x : Checked A) (k : A → Checked B) (b : B)
    → (x >>= k) ≡ passed b
    → (a : A) × (x ≡ passed a) × (k a ≡ passed b)
bind-passed (passed a) k b e = (a, refl, e)
bind-passed (refused code) k b e = cc

same_side_sound : (a b : Side) → same_side a b ≡ true → a ≡ b
same_side_sound Side.buy Side.buy e = refl
same_side_sound Side.sell Side.sell e = refl
same_side_sound Side.buy Side.sell e = cc
same_side_sound Side.sell Side.buy e = cc

module _ {A : Type 0} (same : A → A → Bool) (sound : (a b : A) → same a b ≡ true → a ≡ b)
    (field : JobLegIntent → A) where
  all_same-All :
      (a : A) (legs : List JobLegIntent)
      → all_same same a (map field legs) ≡ true
      → All (λ leg. field leg ≡ a) legs
  all_same-All a [] e = tt
  all_same-All a (leg ∷ legs) e =
      let (first, rest) = and_both _ _ e in
      (sym (sound a (field leg) first), all_same-All a legs rest)

  unanimous-All :
      (legs : List JobLegIntent) (a : A)
      → unanimous same field legs ≡ passed a
      → All (λ leg. field leg ≡ a) legs
  unfolding unanimous
  unanimous-All [] a e = cc
  unanimous-All (leg ∷ legs) a e = elim (Bool-cases (all_same same (field leg) (map field legs))) [
    | inl agree ↦
        let same_value : field leg ≡ a = passed-injective (rw agree at e) in
        (
          same_value,
          subst (λ x. All (λ (l : JobLegIntent). field l ≡ x) legs) same_value
              (all_same-All (field leg) legs agree),
        )
    | inr differ ↦ let bad = rw differ at e in cc
  ]

-- The watched market is named in full by the request, or it is that of every leg.
pub IsWatched : StrategyTriggerRequest → List JobLegIntent → Watched → Type 0
IsWatched request legs w =
    ((request.market_id ≡ some w.market_id)
      × (request.outcome_id ≡ some w.outcome_id)
      × (request.side ≡ some w.side))
    ⊎ (All (λ leg. leg.market_id ≡ w.market_id) legs
        × All (λ leg. leg.outcome_id ≡ w.outcome_id) legs
        × All (λ leg. leg.side ≡ w.side) legs)

agreed :
    (legs : List JobLegIntent) (w : Watched)
    → watched none none none legs ≡ passed w
    → All (λ leg. leg.market_id ≡ w.market_id) legs
      × All (λ leg. leg.outcome_id ≡ w.outcome_id) legs
      × All (λ leg. leg.side ≡ w.side) legs
unfolding watched
agreed legs w e =
    let (m, em, rest) = bind-passed (unanimous ◌==◌ (λ leg. leg.market_id) legs) _ w e in
    let (o, eo, rest2) = bind-passed (unanimous ◌==◌ (λ leg. leg.outcome_id) legs) _ w rest in
    let (s, es, done) = bind-passed (unanimous same_side (λ leg. leg.side) legs) _ w rest2 in
    let same = passed-injective done in
    rw (← same) (
      unanimous-All ◌==◌ (λ a b. (==_iff a b).0) (λ leg. leg.market_id) legs m em,
      unanimous-All ◌==◌ (λ a b. (==_iff a b).0) (λ leg. leg.outcome_id) legs o eo,
      unanimous-All same_side same_side_sound (λ leg. leg.side) legs s es,
    )

watched-IsWatched :
    (request : StrategyTriggerRequest) (legs : List JobLegIntent) (w : Watched) (m o : Option ℕ)
    (s : Option Side)
    → request.market_id ≡ m
    → request.outcome_id ≡ o
    → request.side ≡ s
    → watched m o s legs ≡ passed w
    → IsWatched request legs w
unfolding watched IsWatched
watched-IsWatched request legs w (some m) (some o) (some s) em eo es e =
    let same = passed-injective e in rw (← same) (inl (em, eo, es))
watched-IsWatched request legs w none none none em eo es e = inr (agreed legs w e)
watched-IsWatched request legs w (some m) (some o) none em eo es e = cc
watched-IsWatched request legs w (some m) none (some s) em eo es e = cc
watched-IsWatched request legs w (some m) none none em eo es e = cc
watched-IsWatched request legs w none (some o) (some s) em eo es e = cc
watched-IsWatched request legs w none (some o) none em eo es e = cc
watched-IsWatched request legs w none none (some s) em eo es e = cc

-- What a side reads of the book: a buy the ask, a sell the bid.
pub data ReadsBook : Side → Option Observe → Type 0 where
  buys_at_ask : ReadsBook Side.buy (some Observe.ask)
  sells_at_bid : ReadsBook Side.sell (some Observe.bid)

observe_of-ReadsBook : (side : Side) → ReadsBook side (some (observe_of side))
observe_of-ReadsBook Side.buy = buys_at_ask
observe_of-ReadsBook Side.sell = sells_at_bid

-- A trigger that waits for a probability, on the side of the book that its market's side reads.
pub record IsPriced (request : StrategyTriggerRequest) (legs : List JobLegIntent) (t : JobTrigger)
    : Type 0 where
  pub target : Text
  pub scaled : ℕ
  pub market : Watched
  pub asked : request.target_price ≡ some target
  pub price : t.target_price ≡ some target
  pub reads : to_scaled target ≡ some scaled
  pub probable : scaled ≤ 1_000_000
  pub on_market : (t.market_id ≡ some market.market_id) × (t.outcome_id ≡ some market.outcome_id)
  pub on_side : t.side ≡ some market.side
  pub on_book : ReadsBook market.side t.observe
  pub whose : IsWatched request legs market

target_text-reads :
    (value : Option Text) (target : Text)
    → target_text value ≡ passed target
    → (scaled : ℕ) × (value ≡ some target) × (to_scaled target ≡ some scaled) × (scaled ≤ 1_000_000)
unfolding target_text require_price
target_text-reads none target e = cc
target_text-reads (some value) target e = elim (Bool-cases (is_blank value)) [
  | inl blank ↦ let bad = rw blank at e in cc
  | inr written ↦ elim (Option-cases (to_scaled value)) [
    | inl broken ↦ let bad = rw (written, broken) at e in cc
    | inr (n, fine) ↦ elim (Bool-cases (ltb 1_000_000 n)) [
      | inl above ↦ let bad = rw (written, fine, above) at e in cc
      | inr within ↦
          let same : value ≡ target = passed-injective (rw (written, fine, within) at e) in
          (n, ap some same, rw (← same) fine, ground (arith, within))
    ]
  ]
]

-- A trigger on a price that is let through waits for the target of the request, which is a
-- probability, in a market that the request names in full or that every leg trades, and reads the
-- ask for a buy and the bid for a sell.
pub normalize_trigger-IsPriced :
    (request : StrategyTriggerRequest) (legs : List JobLegIntent) (t : JobTrigger)
    → request.kind ≡ TriggerKind.price
    → normalize_trigger request legs ≡ passed t
    → IsPriced request legs t
unfolding normalize_trigger
normalize_trigger-IsPriced request legs t kind e =
    let priced = rw kind at e in
    let (target, et, rest) = bind-passed (target_text request.target_price) _ t priced in
    let (market, em, done) =
      bind-passed (watched request.market_id request.outcome_id request.side legs) _ t rest in
    let same = passed-injective done in
    let (n, asked, reads, probable) = target_text-reads request.target_price target et in
    let whose = watched-IsWatched request legs market _ _ _ refl refl refl em in
    rw (← same) (record {
      target = target;
      scaled = n;
      market = market;
      asked = asked;
      price = refl;
      reads = reads;
      probable = probable;
      on_market = (refl, refl);
      on_side = refl;
      on_book = observe_of-ReadsBook market.side;
      whose = whose;
    })

-- ===== src/Runner/Prices/Polled.antt =====
-- A polled price of packages/runner/src/prices.ts is of a read that is recent.
use waterx_predict_agent.Base.{
  ℕ, ◌+◌, ◌==◌, ◌<◌, Bool, true, false, Option, none, some, find, Text, ◌≡◌, refl, arith,
}
use waterx_predict_agent.Sdk.Decimal.{Side}
use waterx_predict_agent.Runner.Prices.{
  PolledTopic, OutcomePrices, MarketPrices, PollingOptions, is_fresh, read_outcome, read_topic,
  polled_price,
}

abbrev pub outcome_price : Side → OutcomePrices → Option Text
outcome_price Side.buy e = e.indicative_ask
outcome_price Side.sell e = e.indicative_bid

-- The price is in the market that has just been read, which is open.
pub record IsRead (side : Side) (outcome_id : ℕ) (market : Option MarketPrices) (price : Text)
    : Type 0 where
  pub board : MarketPrices
  pub outcome : OutcomePrices
  pub answered : market ≡ some board
  pub tradeable : board.tradeable ≡ true
  pub listed :
      find (λ (e : OutcomePrices). e.outcome_id == outcome_id) board.outcomes ≡ some outcome
  pub on_side : outcome_price side outcome ≡ some price

pub read_topic-IsRead :
    (side : Side) (at outcome_id : ℕ) (market : Option MarketPrices) (t : PolledTopic)
    (price : Text)
    → polled_price side (read_topic at outcome_id market t) ≡ some price
    → IsRead side outcome_id market price
unfolding read_topic
read_topic-IsRead Side.buy at outcome_id none t price e = cc
read_topic-IsRead Side.sell at outcome_id none t price e = cc
read_topic-IsRead side at outcome_id (some market) t price e =
    go market.tradeable (find (λ (e : OutcomePrices). e.outcome_id == outcome_id) market.outcomes)
      side refl refl e
  where
    go :
        (b : Bool) (found : Option OutcomePrices) (side : Side)
        → market.tradeable ≡ b
        → find (λ (e : OutcomePrices). e.outcome_id == outcome_id) market.outcomes ≡ found
        → polled_price side (read_outcome at b found (record t { last_read_at = some at }))
          ≡ some price
        → IsRead side outcome_id (some market) price
    go false found Side.buy b f e = cc
    go false found Side.sell b f e = cc
    go true none Side.buy b f e = cc
    go true none Side.sell b f e = cc
    go true (some outcome) Side.buy b f e = record {
      board = market;
      outcome = outcome;
      answered = refl;
      tradeable = b;
      listed = f;
      on_side = e;
    }
    go true (some outcome) Side.sell b f e = record {
      board = market;
      outcome = outcome;
      answered = refl;
      tradeable = b;
      listed = f;
      on_side = e;
    }

pub is_fresh-recent :
    (o : PollingOptions) (at : ℕ) (last : Option ℕ)
    → is_fresh o at last ≡ true
    → (r : ℕ) × (last ≡ some r) × (at < r + o.min_poll_ms)
is_fresh-recent o at none e = cc
is_fresh-recent o at (some r) e = (r, refl, ground (arith, e))

pub same-price :
    (side : Side) (at : ℕ) (t : PolledTopic)
    → polled_price side (record t { last_asked_at = at }) ≡ polled_price side t
same-price Side.buy at t = refl
same-price Side.sell at t = refl

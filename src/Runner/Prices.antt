-- ===== src/Runner/Prices.antt =====
-- packages/runner/src/prices.ts: where the triggers get their prices. `released` and the topics that
-- a call drops are those whose subscription is given back.
pub mod Heard
pub mod Polled
pub mod Sourced
use waterx_predict_agent.Base.{
  ℕ, ◌+◌, ◌==◌, ltb, leb, if◌then◌else◌, Bool, true, false, not, ◌&&◌, ◌||◌, Option, none, some,
  List, [], ◌∷◌, ◌++◌, map, select, find, update, Text,
}
use waterx_predict_agent.Sdk.Decimal.{Side}
use waterx_predict_agent.Sdk.QuoteStream.{
  QuoteTopic, same_topic, QuoteFrame, QuoteStreamEvent, frame, unavailable, QuoteUnavailableReason,
  RejectionReason, stream_trigger_price,
}
use waterx_predict_agent.Runner.Strategy.Gateway.{WatchKey}

pub record PriceTopic : Type 0 where
  pub topic : QuoteTopic
  pub subscribed_at : ℕ
  pub frame : Option QuoteFrame
  pub last_observed_at : Option ℕ
  pub last_asked_at : ℕ
  pub unavailable : Option QuoteUnavailableReason
  pub gapped : Bool

pub record StreamObserver : Type 0 where
  pub topics : List PriceTopic
  pub closed : Bool
  pub released : List QuoteTopic

abbrev pub watched_topic : WatchKey → QuoteTopic
watched_topic watch = record { market_id = watch.market_id; outcome_id = watch.outcome_id }

abbrev pub is_about : QuoteTopic → PriceTopic → Bool
is_about topic t = same_topic topic t.topic

-- `apply`.
unfoldable pub apply_event : ℕ → QuoteStreamEvent → PriceTopic → PriceTopic
apply_event now (frame f) t = record t {
  frame = some f;
  last_observed_at = some now;
  unavailable = none;
  gapped = f.gap;
}
apply_event now (unavailable reason) t = record t {
  frame = none;
  unavailable = some reason;
  gapped = false;
}

abbrev pub new_topic : QuoteTopic → ℕ → PriceTopic
new_topic topic at = record {
  topic = topic;
  subscribed_at = at;
  frame = none;
  last_observed_at = none;
  last_asked_at = at;
  unavailable = none;
  gapped = false;
}

-- What `onQuote` tells before it returns.
abbrev pub apply_first : ℕ → Option QuoteStreamEvent → PriceTopic → PriceTopic
apply_first now none t = t
apply_first now (some event) t = apply_event now event t

abbrev pub subscribed : QuoteTopic → ℕ → Option QuoteStreamEvent → Option PriceTopic → PriceTopic
subscribed topic at answer (some t) = t
subscribed topic at answer none = apply_first at answer (new_topic topic at)

abbrev pub with_asked :
    QuoteTopic → PriceTopic → Option PriceTopic → List PriceTopic → List PriceTopic
with_asked topic asked none topics = topics ++ (asked ∷ [])
with_asked topic asked (some t) topics = update (is_about topic) (λ old. asked) topics

-- A topic that nobody has asked about for so long.
abbrev pub is_idle : ℕ → ℕ → PriceTopic → Bool
is_idle idle_ms at t = leb (t.last_asked_at + idle_ms) at

unfoldable pub prune : ℕ → ℕ → StreamObserver → StreamObserver
prune idle_ms at o = record o {
  topics = select (λ (t : PriceTopic). not (is_idle idle_ms at t)) o.topics;
  released = map (λ (t : PriceTopic). t.topic) (select (is_idle idle_ms at) o.topics) ++ o.released;
}

abbrev pub price_of : Side → Option QuoteFrame → Option Text
price_of side none = none
price_of side (some f) = stream_trigger_price side f

-- `observe`, where `refused` is a signal that has been aborted, and `answer` what the stream tells
-- at once where the topic is new.
unfoldable pub observe :
    ℕ
    → WatchKey
    → Bool
    → ℕ
    → Option QuoteStreamEvent
    → StreamObserver
    → Option Text × StreamObserver
observe idle_ms watch refused at answer o =
    let known = find (is_about (watched_topic watch)) o.topics in
    let asked = record (subscribed (watched_topic watch) at answer known) { last_asked_at = at } in
    if refused || o.closed then (none, o) else (
      price_of watch.side asked.frame,
      prune idle_ms at
          (record o { topics = with_asked (watched_topic watch) asked known o.topics }),
    )

-- The listener of a topic.
unfoldable pub hear : QuoteTopic → ℕ → QuoteStreamEvent → StreamObserver → StreamObserver
hear topic now event o = record o {
  topics = update (is_about topic) (apply_event now event) o.topics;
}

unfoldable pub close : StreamObserver → StreamObserver
close o = record o {
  closed = true;
  topics = [];
  released = map (λ (t : PriceTopic). t.topic) o.topics ++ o.released;
}

pub record PolledTopic : Type 0 where
  pub topic : QuoteTopic
  pub subscribed_at : ℕ
  pub last_asked_at : ℕ
  pub last_read_at : Option ℕ
  pub last_observed_at : Option ℕ
  pub unavailable : Option QuoteUnavailableReason
  pub bid : Option Text
  pub ask : Option Text

-- The part of a market that is read.
pub record OutcomePrices : Type 0 where
  pub outcome_id : ℕ
  pub indicative_bid : Option Text
  pub indicative_ask : Option Text

pub record MarketPrices : Type 0 where
  pub tradeable : Bool
  pub outcomes : List OutcomePrices

pub record PollingOptions : Type 0 where
  pub min_poll_ms : ℕ
  pub idle_ms : ℕ

pub record PollingObserver : Type 0 where
  pub topics : List PolledTopic
  pub closed : Bool

abbrev pub is_polled : QuoteTopic → PolledTopic → Bool
is_polled topic t = same_topic topic t.topic

abbrev pub expired : PollingOptions → ℕ → List PolledTopic → List PolledTopic
expired o now topics =
    select (λ (t : PolledTopic). not (ltb (t.last_asked_at + o.idle_ms) now)) topics

abbrev pub new_polled : QuoteTopic → ℕ → PolledTopic
new_polled topic at = record {
  topic = topic;
  subscribed_at = at;
  last_asked_at = at;
  last_read_at = none;
  last_observed_at = none;
  unavailable = none;
  bid = none;
  ask = none;
}

abbrev pub or_new : QuoteTopic → ℕ → Option PolledTopic → PolledTopic
or_new topic at none = new_polled topic at
or_new topic at (some t) = t

abbrev pub is_fresh : PollingOptions → ℕ → Option ℕ → Bool
is_fresh o now none = false
is_fresh o now (some read) = ltb now (read + o.min_poll_ms)

abbrev pub without_price : QuoteUnavailableReason → PolledTopic → PolledTopic
without_price reason t = record t { unavailable = some reason; bid = none; ask = none }

abbrev pub read_outcome : ℕ → Bool → Option OutcomePrices → PolledTopic → PolledTopic
read_outcome at false outcome t =
    without_price (QuoteUnavailableReason.rejected RejectionReason.market_closed) t
read_outcome at true none t =
    without_price (QuoteUnavailableReason.rejected RejectionReason.not_quotable) t
read_outcome at true (some outcome) t = record t {
  unavailable = none;
  bid = outcome.indicative_bid;
  ask = outcome.indicative_ask;
  last_observed_at = some at;
}

-- A read, which is `none` where it has thrown.
unfoldable pub read_topic : ℕ → ℕ → Option MarketPrices → PolledTopic → PolledTopic
read_topic at outcome_id none t =
    without_price QuoteUnavailableReason.disconnected (record t { last_read_at = some at })
read_topic at outcome_id (some market) t =
    read_outcome at market.tradeable
      (find (λ (e : OutcomePrices). e.outcome_id == outcome_id) market.outcomes)
      (record t { last_read_at = some at })

abbrev pub polled_price : Side → PolledTopic → Option Text
polled_price Side.buy t = t.ask
polled_price Side.sell t = t.bid

abbrev pub with_polled :
    QuoteTopic → PolledTopic → Option PolledTopic → List PolledTopic → List PolledTopic
with_polled topic polled none topics = topics ++ (polled ∷ [])
with_polled topic polled (some t) topics = update (is_polled topic) (λ old. polled) topics

-- What a topic is after a poll at an instant; `market` answers the read, if there is one.
unfoldable pub poll_topic : PollingOptions → ℕ → ℕ → Option MarketPrices → PolledTopic → PolledTopic
poll_topic o at outcome_id market t =
    let asked = record t { last_asked_at = at } in
    if is_fresh o at t.last_read_at then asked else read_topic at outcome_id market asked

-- `observe` of the polling observer.
unfoldable pub poll_price :
    PollingOptions
    → WatchKey
    → ℕ
    → Option MarketPrices
    → PollingObserver
    → Option Text × PollingObserver
poll_price o watch at market p =
    let left = expired o at p.topics in
    let known = find (is_polled (watched_topic watch)) left in
    let polled = poll_topic o at watch.outcome_id market (or_new (watched_topic watch) at known) in
    if p.closed then (none, p) else (
      polled_price watch.side polled,
      record p { topics = with_polled (watched_topic watch) polled known left },
    )

unfoldable pub close_polling : PollingObserver → PollingObserver
close_polling p = record { topics = []; closed = true }

-- ===== src/Witnesses/QuoteStreamRun.antt =====
-- A quote stream that is asked for a market, receives two frames and goes silent, and the prices
-- that are read off it.
use waterx_predict_agent.Base.{
  Any, Bool, List, ◌≡◌, refl, none, some, true, false, All, [], ◌∷◌, codes, arith,
}
use waterx_predict_agent.Sdk.Decimal.{Side}
use waterx_predict_agent.Sdk.QuoteStream.{
  QuoteStreamEvent, QuoteTopic, snapshot, update_frame, QuoteFrame, frame, StreamOptions,
  QuoteStream, new_stream, flush, stream_trigger_price,
}
use waterx_predict_agent.Sdk.QuoteStream.Handlers.{
  release, handle_heartbeat, on_quote, opened, handle_ready, handle_quote_frame, handle_silence,
}
use waterx_predict_agent.Sdk.QuoteStream.Run.{
  StreamReach, start, next, asks, opens, is_ready, receives,
}
use waterx_predict_agent.Sdk.QuoteStream.Run.Contiguous.{IsContiguous}
use waterx_predict_agent.Sdk.QuoteStream.Run.Kept.{Reach-IsContiguous}
use waterx_predict_agent.Sdk.QuoteStream.Run.Awaited.{Calm, ready, flushing, rounds, called}
use waterx_predict_agent.Sdk.QuoteStream.Run.GivesUp.{rounds-end}
use waterx_predict_agent.Runner.Strategy.Gateway.{WatchKey}
use waterx_predict_agent.Runner.Prices.{
  PriceTopic, StreamObserver, MarketPrices, PollingOptions, new_topic, observe, apply_event,
  price_of, poll_price, poll_topic, read_topic,
}
use waterx_predict_agent.Runner.Prices.Heard.{heard, IsCurrent, observe-IsCurrent, silence-no_price}
use waterx_predict_agent.Runner.Prices.Sourced.{polls, IsRecent, poll_price-IsRead}

abbrev options : StreamOptions
options = record { max_handshake_failures = 3; max_silent_windows = 2; idle_disconnect_ms = 0 }

abbrev topic : QuoteTopic
topic = record { market_id = 3; outcome_id = 1 }

abbrev first_frame : QuoteFrame
first_frame = record {
  topic = topic;
  kind = snapshot;
  seq = some 1;
  gap = false;
  indicative_bid = some (codes "0.4");
  indicative_ask = some (codes "0.5");
  stale = false;
}

abbrev second_frame : QuoteFrame
second_frame = record first_frame { kind = update_frame; seq = some 2 }

abbrev connected : QuoteStream
connected = handle_ready (opened (on_quote topic 5 new_stream))

abbrev flowing : QuoteStream
flowing =
    handle_quote_frame topic (some second_frame)
      (handle_quote_frame topic (some first_frame) connected)

flowing-StreamReach : StreamReach options flowing
unfolding handle_quote_frame handle_ready opened on_quote flush
flowing-StreamReach =
    next
      (next (next (next (next start (asks topic 5)) opens) is_ready)
        (receives topic (some first_frame) refl))
      (receives topic (some second_frame) refl)

Reach-IsContiguous_example : All (λ r. IsContiguous r.told) flowing.topics
Reach-IsContiguous_example = Reach-IsContiguous flowing-StreamReach

-- Asked for a topic, the connector was called; behind the first answer the server is ready.
abbrev silent_rounds : List (Bool × List Calm)
silent_rounds =
    (false, ready ∷ [])
    ∷ (false, [])
    ∷ (false, flushing ∷ [])
    ∷ (false, [])
    ∷ (true, [])
    ∷ (false, [])
    ∷ []

rounds-end_example : (rounds options silent_rounds (on_quote topic 5 new_stream)).degraded ≡ true
unfolding on_quote
rounds-end_example =
    rounds-end options silent_rounds 0 (on_quote topic 5 new_stream)
      (called (record { not_closed = refl; not_degraded = refl; asked = refl; counted = refl })
        refl)
      (omega arith)

-- A socket that is kept through an idle spell may lose its timer: an answer disarms it while nobody
-- listens, and a topic that is asked for then does not arm it again.
abbrev slow_to_leave : StreamOptions
slow_to_leave = record options { idle_disconnect_ms = 300 }

idle_socket_test :
    (on_quote topic 6 (handle_heartbeat [] (release slow_to_leave topic 5 connected))).silence_timer
    ≡ false
unfolding handle_heartbeat release handle_ready opened on_quote flush
idle_socket_test = refl

silence-no_price_example :
    All
      (λ r. (t : PriceTopic) → t.frame ≡ none → price_of Side.buy (heard 7 r.told t).frame ≡ none)
      (handle_silence options flowing).topics
silence-no_price_example = silence-no_price options flowing 7 Side.buy

abbrev watch : WatchKey
watch = record { market_id = 3; outcome_id = 1; side = Side.buy }

abbrev told : List QuoteStreamEvent
told = frame second_frame ∷ frame first_frame ∷ []

abbrev observer : StreamObserver
observer = record { topics = heard 7 told (new_topic topic 6) ∷ []; closed = false; released = [] }

observe-IsCurrent_example : IsCurrent Side.buy told (codes "0.5")
unfolding observe apply_event stream_trigger_price
observe-IsCurrent_example =
    observe-IsCurrent 300 watch false 7 8 none observer told (new_topic topic 6) (codes "0.5") refl
      refl refl

abbrev polling : PollingOptions
polling = record { min_poll_ms = 5000; idle_ms = 300000 }

abbrev board : MarketPrices
board = record {
  tradeable = true;
  outcomes =
      record {
        outcome_id = 1;
        indicative_bid = some (codes "0.4");
        indicative_ask = some (codes "0.5");
      }
      ∷ [];
}

-- Read at 8, and answered again at 9 without a read.
poll_price-IsRead_example : Any (IsRecent polling watch 9 (codes "0.5")) (
    record { watch = watch; at = 9; market = none }
    ∷ record { watch = watch; at = 8; market = some board }
    ∷ [])
unfolding poll_price poll_topic read_topic polls
poll_price-IsRead_example =
    poll_price-IsRead polling (record { watch = watch; at = 8; market = some board } ∷ []) watch 9
      none (codes "0.5") refl

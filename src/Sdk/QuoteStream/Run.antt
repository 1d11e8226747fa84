-- ===== src/Sdk/QuoteStream/Run.antt =====
-- What may happen to a `SocketQuoteStream` of packages/sdk/src/quote-stream.ts, in any order. The
-- server sends frames on a connection that has become ready; all else may come at any time.
pub mod Contiguous
pub mod Kept
pub mod Silence
pub mod Awaited
pub mod GivesUp
use waterx_predict_agent.Base.{ℕ, Bool, true, Option, List, ◌≡◌}
use waterx_predict_agent.Sdk.QuoteStream.{
  QuoteTopic, QuoteFrame, RejectionReason, StreamOptions, QuoteStream, new_stream, flush,
}
use waterx_predict_agent.Sdk.QuoteStream.Handlers.{
  on_quote, release, close, opened, open_failed, handle_ready, handle_quote_frame,
  handle_subscription, handle_heartbeat, handle_server_error, handle_silence, retry_fires,
  idle_fires,
}

pub data StreamStep (o : StreamOptions) (s : QuoteStream) : QuoteStream → Type 0 where
  asks : (topic : QuoteTopic) (listener : ℕ) → StreamStep o s (on_quote topic listener s)
  releases : (topic : QuoteTopic) (listener : ℕ) → StreamStep o s (release o topic listener s)
  closes : StreamStep o s (close s)
  opens : StreamStep o s (opened s)
  fails_to_open : StreamStep o s (open_failed s)
  is_ready : StreamStep o s (handle_ready s)
  receives :
      (topic : QuoteTopic) (f : Option QuoteFrame)
      → s.live ≡ true
      → StreamStep o s (handle_quote_frame topic f s)
  answers :
      (rejections : List (QuoteTopic × RejectionReason))
      → StreamStep o s (handle_subscription rejections s)
  beats : (entries : List (QuoteTopic × Option ℕ)) → StreamStep o s (handle_heartbeat entries s)
  refuses : (refusal : Bool) → StreamStep o s (handle_server_error o refusal s)
  is_silent : StreamStep o s (handle_silence o s)
  retries : StreamStep o s (retry_fires s)
  idles : StreamStep o s (idle_fires s)
  flushes : StreamStep o s (flush s)

pub data StreamReach (o : StreamOptions) : QuoteStream → Type 0 where
  start : StreamReach o new_stream
  next : {s t : QuoteStream} → StreamReach o s → StreamStep o s t → StreamReach o t

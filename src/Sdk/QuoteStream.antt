-- ===== src/Sdk/QuoteStream.antt =====
-- packages/sdk/src/quote-stream.ts: the state of a `SocketQuoteStream`. A payload has been read, a
-- timer is whether it is armed, and a listener is a number that does not call the stream back while
-- it is told something. `told` is what the listeners of a registration have been told since it
-- stands, and `sent` what has been sent on the socket, both newest first.
pub mod Handlers
pub mod Run
use waterx_predict_agent.Base.{
  ℕ, suc, ◌+◌, ◌==◌, if◌then◌else◌, Bool, true, false, not, ◌&&◌, ◌||◌, Option, none, some, is_some,
  is_none, List, [], ◌∷◌, ◌++◌, map, select, any, find, update, Text,
}
use waterx_predict_agent.Sdk.Decimal.{Side}

pub record QuoteTopic : Type 0 where
  pub market_id : ℕ
  pub outcome_id : ℕ

-- `topicKey`, as a test.
abbrev pub same_topic : QuoteTopic → QuoteTopic → Bool
same_topic a b = (a.market_id == b.market_id) && (a.outcome_id == b.outcome_id)

pub data FrameKind : Type 0 where
  snapshot update_frame : FrameKind

-- `seq` is what `parseSeq` reads, and `stale` the flag of its freshness.
pub record QuoteFrame : Type 0 where
  pub topic : QuoteTopic
  pub kind : FrameKind
  pub seq : Option ℕ
  pub gap : Bool
  pub indicative_bid : Option Text
  pub indicative_ask : Option Text
  pub stale : Bool

abbrev pub side_price : Side → QuoteFrame → Option Text
side_price Side.buy frame = frame.indicative_ask
side_price Side.sell frame = frame.indicative_bid

unfoldable pub stream_trigger_price : Side → QuoteFrame → Option Text
stream_trigger_price side frame = if frame.stale then none else side_price side frame

pub data RejectionReason : Type 0 where
  invalid_request unknown_market market_closed : RejectionReason
  not_quotable subscription_limit rate_limited : RejectionReason

pub data QuoteUnavailableReason : Type 0 where
  rejected : RejectionReason → QuoteUnavailableReason
  gap disconnected degraded : QuoteUnavailableReason

pub data QuoteStreamEvent : Type 0 where
  frame : QuoteFrame → QuoteStreamEvent
  unavailable : QuoteUnavailableReason → QuoteStreamEvent

-- `TERMINAL_REJECTIONS`.
abbrev pub is_terminal_rejection : RejectionReason → Bool
is_terminal_rejection unknown_market = true
is_terminal_rejection market_closed = true
is_terminal_rejection invalid_request = true
is_terminal_rejection _ = false

pub data Pending : Type 0 where
  fresh resume : Pending

pub record Registration : Type 0 where
  pub topic : QuoteTopic
  pub listeners : List ℕ
  pub seq : Option ℕ
  pub pending : Option Pending
  pub refused : Bool
  pub waiting_retry : Bool
  pub told : List QuoteStreamEvent

pub data Message : Type 0 where
  subscribe : List QuoteTopic → Message
  subscribe_resumed : List QuoteTopic → Message
  unsubscribe : List QuoteTopic → Message

pub record StreamOptions : Type 0 where
  pub max_handshake_failures : ℕ
  pub max_silent_windows : ℕ
  pub idle_disconnect_ms : ℕ

-- `turned_away` are the listeners that were told at once that the stream is degraded.
pub record QuoteStream : Type 0 where
  pub topics : List Registration
  pub pending_unsubscribe : List QuoteTopic
  pub socket : Bool
  pub opening : Bool
  pub idle_timer : Bool
  pub flush_timer : Bool
  pub retry_timer : Bool
  pub silence_timer : Bool
  pub refresh_before_next_handshake : Bool
  pub handshake_failures : ℕ
  pub silent_windows : ℕ
  pub ever_ready : Bool
  pub live : Bool
  pub degraded : Bool
  pub closed : Bool
  pub sent : List Message
  pub turned_away : List ℕ

abbrev pub new_stream : QuoteStream
new_stream = record {
  topics = [];
  pending_unsubscribe = [];
  socket = false;
  opening = false;
  idle_timer = false;
  flush_timer = false;
  retry_timer = false;
  silence_timer = false;
  refresh_before_next_handshake = false;
  handshake_failures = 0;
  silent_windows = 0;
  ever_ready = false;
  live = false;
  degraded = false;
  closed = false;
  sent = [];
  turned_away = [];
}

abbrev pub is_on : QuoteTopic → Registration → Bool
is_on topic r = same_topic topic r.topic

abbrev pub emit_to : QuoteStreamEvent → Registration → Registration
emit_to event r = record r { told = event ∷ r.told }

abbrev pub notify_all : QuoteUnavailableReason → QuoteStream → QuoteStream
notify_all reason s = record s { topics = map (emit_to (unavailable reason)) s.topics }

abbrev pub is_nil {ℓ} : {A : Type ℓ} → List A → Bool
is_nil [] = true
is_nil (a ∷ rest) = false

abbrev pub arm_silence_timer : QuoteStream → QuoteStream
arm_silence_timer s = record s { silence_timer = not (s.closed || (s.degraded || is_nil s.topics)) }

abbrev pub observe_liveness : QuoteStream → QuoteStream
observe_liveness s = arm_silence_timer (record s { silent_windows = 0 })

abbrev pub schedule_flush : QuoteStream → QuoteStream
schedule_flush s = record s { flush_timer = s.flush_timer || not s.closed }

abbrev pub schedule_retry : QuoteStream → QuoteStream
schedule_retry s = record s { retry_timer = s.retry_timer || not s.closed }

abbrev pub disconnect_socket : QuoteStream → QuoteStream
disconnect_socket s = record s { socket = false; live = false; silence_timer = false }

-- `open` has been called.
abbrev pub ensure_connected : QuoteStream → QuoteStream
ensure_connected s =
    if (s.closed || s.degraded) || (s.socket || s.opening) then s else record s { opening = true }

-- `giveUp`, where `onDegraded` is a matter of the caller.
unfoldable pub give_up : QuoteStream → QuoteStream
give_up s =
    if s.degraded
    then s
    else disconnect_socket (
        notify_all QuoteUnavailableReason.degraded (record s {
          degraded = true;
          flush_timer = false;
          retry_timer = false;
          silence_timer = false;
        }))

abbrev pub is_pending : Pending → Registration → Bool
is_pending kind r = elim r.pending [
  | none ↦ false
  | some p ↦ elim p [
    | fresh ↦ elim kind [ fresh ↦ true | resume ↦ false ]
    | resume ↦ elim kind [ fresh ↦ false | resume ↦ true ]
  ]
]

-- A message, if it names anything.
abbrev pub send_if : (List QuoteTopic → Message) → List QuoteTopic → List Message → List Message
send_if message topics sent = if is_nil topics then sent else message topics ∷ sent

abbrev pub topic_of : Registration → QuoteTopic
topic_of r = r.topic

-- A flush on a live socket.
abbrev pub flush_live : QuoteStream → QuoteStream
flush_live s = record s {
  topics = map (λ (r : Registration). record r { pending = none }) s.topics;
  pending_unsubscribe = [];
  sent = send_if unsubscribe s.pending_unsubscribe (
      send_if subscribe_resumed (map topic_of (select (is_pending resume) s.topics))
        (send_if subscribe (map topic_of (select (is_pending fresh) s.topics)) s.sent));
}

unfoldable pub flush : QuoteStream → QuoteStream
flush s =
    let cleared = record s { flush_timer = false } in
    if s.socket && s.live then flush_live cleared else cleared

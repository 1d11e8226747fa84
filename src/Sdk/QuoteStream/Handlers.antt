-- ===== src/Sdk/QuoteStream/Handlers.antt =====
-- What a `SocketQuoteStream` of packages/sdk/src/quote-stream.ts does when it is called, when
-- something arrives and when a timer fires.
use waterx_predict_agent.Base.{
  ℕ, suc, ◌+◌, ◌==◌, ltb, leb, if◌then◌else◌, Bool, true, false, not, ◌&&◌, ◌||◌, Option, none,
  some, List, [], ◌∷◌, ◌++◌, map, select, any, find, update,
}
use waterx_predict_agent.Sdk.QuoteStream.{
  QuoteTopic, snapshot, update_frame, QuoteFrame, RejectionReason, QuoteUnavailableReason, frame,
  unavailable, is_terminal_rejection, Pending, fresh, resume, Registration, StreamOptions,
  QuoteStream, is_on, emit_to, notify_all, is_nil, arm_silence_timer, observe_liveness,
  schedule_flush, schedule_retry, disconnect_socket, ensure_connected, give_up, flush,
}

abbrev pub registered : QuoteTopic → Registration
registered topic = record {
  topic = topic;
  listeners = [];
  seq = none;
  pending = some fresh;
  refused = false;
  waiting_retry = false;
  told = [];
}

abbrev pub with_topic : QuoteTopic → QuoteStream → QuoteStream
with_topic topic s =
    if any (is_on topic) s.topics
    then s
    else schedule_flush (record s { topics = s.topics ++ (registered topic ∷ []) })

abbrev pub add_listener : ℕ → Registration → Registration
add_listener listener r =
    if any (λ l. l == listener) r.listeners
    then r
    else record r { listeners = r.listeners ++ (listener ∷ []) }

abbrev pub with_listener : QuoteTopic → ℕ → QuoteStream → QuoteStream
with_listener topic listener s = record s {
  topics = update (is_on topic) (add_listener listener) s.topics;
}

-- `onQuote`.
unfoldable pub on_quote : QuoteTopic → ℕ → QuoteStream → QuoteStream
on_quote topic listener s =
    if s.closed || s.degraded
    then record s { turned_away = listener ∷ s.turned_away }
    else ensure_connected
        (with_listener topic listener (with_topic topic (record s { idle_timer = false })))

abbrev pub schedule_idle_disconnect : StreamOptions → QuoteStream → QuoteStream
schedule_idle_disconnect o s =
    if not (s.socket || s.opening)
    then record s { idle_timer = false }
    else if o.idle_disconnect_ms == 0
    then disconnect_socket
        (record s { idle_timer = false; pending_unsubscribe = []; flush_timer = false })
    else record s { idle_timer = true }

abbrev pub remove_listener : ℕ → Registration → Registration
remove_listener listener r = record r { listeners = select (λ l. not (l == listener)) r.listeners }

abbrev pub no_listener_left : ℕ → Registration → Bool
no_listener_left listener r = is_nil (remove_listener listener r).listeners

-- The last listener of a topic goes, and the topic with it.
abbrev pub dropped : StreamOptions → Registration → QuoteStream → QuoteStream
dropped o current s =
    let without = schedule_flush (record s {
      topics = select (λ (r : Registration). not (is_on current.topic r)) s.topics;
      pending_unsubscribe = s.pending_unsubscribe ++ (current.topic ∷ []);
    }) in
    if is_nil without.topics then schedule_idle_disconnect o without else without

abbrev pub release_from : StreamOptions → ℕ → Option Registration → QuoteStream → QuoteStream
release_from o listener none s = s
release_from o listener (some current) s =
    if no_listener_left listener current
    then dropped o current s
    else record s { topics = update (is_on current.topic) (remove_listener listener) s.topics }

-- The function that `onQuote` returns, at its first call.
unfoldable pub release : StreamOptions → QuoteTopic → ℕ → QuoteStream → QuoteStream
release o topic listener s = release_from o listener (find (is_on topic) s.topics) s

unfoldable pub close : QuoteStream → QuoteStream
close s = disconnect_socket (record s {
  closed = true;
  idle_timer = false;
  flush_timer = false;
  retry_timer = false;
  topics = [];
  pending_unsubscribe = [];
})

-- `open`, when the connector has answered.
unfoldable pub opened : QuoteStream → QuoteStream
opened s =
    let done = record s { opening = false } in
    if s.closed || is_nil s.topics then done else arm_silence_timer (record done { socket = true })

-- `open`, when it has thrown.
unfoldable pub open_failed : QuoteStream → QuoteStream
open_failed s = record (give_up s) { opening = false }

abbrev pub reconnect_pending : Bool → Pending
reconnect_pending true = resume
reconnect_pending false = fresh

abbrev pub on_ready : Bool → Registration → Registration
on_ready reconnected r = record r {
  seq = none;
  waiting_retry = false;
  pending = if r.refused then r.pending else some (reconnect_pending reconnected);
}

abbrev pub notify_if : Bool → QuoteStream → QuoteStream
notify_if true s = notify_all QuoteUnavailableReason.disconnected s
notify_if false s = s

unfoldable pub handle_ready : QuoteStream → QuoteStream
handle_ready s =
    let armed =
      arm_silence_timer (record s { handshake_failures = 0; ever_ready = true; live = true }) in
    flush (
      notify_if s.ever_ready (record armed {
        pending_unsubscribe = [];
        topics = map (on_ready s.ever_ready) armed.topics;
      }))

-- Whether the sequence number is the next one.
abbrev pub follows : Option ℕ → Option ℕ → Bool
follows seq none = true
follows none (some last) = false
follows (some n) (some last) = n == suc last

abbrev pub missed : QuoteFrame → Registration → Bool
missed f r = elim f.kind [ snapshot ↦ f.gap | update_frame ↦ not (follows f.seq r.seq) ]

abbrev pub gap_if : Bool → Registration → Registration
gap_if true r = emit_to (unavailable QuoteUnavailableReason.gap) r
gap_if false r = r

unfoldable pub receive : Option QuoteFrame → Registration → Registration
receive none r = emit_to (unavailable QuoteUnavailableReason.gap) r
receive (some f) r =
    emit_to (frame f)
      (gap_if (missed f r) (record r { refused = false; waiting_retry = false; seq = f.seq }))

-- `none` stands for a frame that cannot be read but for its topic.
unfoldable pub handle_quote_frame : QuoteTopic → Option QuoteFrame → QuoteStream → QuoteStream
handle_quote_frame topic f s =
    let alive = observe_liveness s in
    record alive { topics = update (is_on topic) (receive f) alive.topics }

abbrev pub reject : RejectionReason → Registration → Registration
reject reason r = emit_to (unavailable (QuoteUnavailableReason.rejected reason)) (
    if is_terminal_rejection reason
    then record r { refused = true; pending = none }
    else record r { waiting_retry = true; pending = none })

abbrev pub reject_each : List (QuoteTopic × RejectionReason) → List Registration → List Registration
reject_each [] topics = topics
reject_each ((topic, reason) ∷ rest) topics =
    reject_each rest (update (is_on topic) (reject reason) topics)

abbrev pub retry_needed : List (QuoteTopic × RejectionReason) → List Registration → Bool
retry_needed [] topics = false
retry_needed ((topic, reason) ∷ rest) topics =
    (any (is_on topic) topics && not (is_terminal_rejection reason)) || retry_needed rest topics

-- The rejections that name a topic.
unfoldable pub handle_subscription : List (QuoteTopic × RejectionReason) → QuoteStream → QuoteStream
handle_subscription rejections s =
    let alive = observe_liveness s in
    let marked = record alive { topics = reject_each rejections alive.topics } in
    if retry_needed rejections s.topics then schedule_retry marked else marked

abbrev pub behind : ℕ → Option ℕ → Bool
behind seq none = false
behind seq (some last) = ltb last seq

abbrev pub catch_up : ℕ → Registration → Registration
catch_up seq r =
    if behind seq r.seq
    then emit_to (unavailable QuoteUnavailableReason.gap) (record r { seq = some seq })
    else r

abbrev pub beat_each : List (QuoteTopic × Option ℕ) → List Registration → List Registration
beat_each [] topics = topics
beat_each ((topic, none) ∷ rest) topics = beat_each rest topics
beat_each ((topic, some seq) ∷ rest) topics =
    beat_each rest (update (is_on topic) (catch_up seq) topics)

unfoldable pub handle_heartbeat : List (QuoteTopic × Option ℕ) → QuoteStream → QuoteStream
handle_heartbeat entries s =
    let alive = observe_liveness s in record alive { topics = beat_each entries alive.topics }

-- `refusal` is whether the reason refuses the token.
unfoldable pub handle_server_error : StreamOptions → Bool → QuoteStream → QuoteStream
handle_server_error o refusal s =
    let counted = record s {
      refresh_before_next_handshake = s.refresh_before_next_handshake || refusal;
      live = false;
      handshake_failures = s.handshake_failures + 1;
    } in
    if leb o.max_handshake_failures counted.handshake_failures then give_up counted else counted

-- A silent window, as it is counted and told.
abbrev pub hushed : QuoteStream → QuoteStream
hushed s =
    notify_all QuoteUnavailableReason.disconnected
      (record s { silence_timer = false; silent_windows = s.silent_windows + 1; live = false })

unfoldable pub handle_silence : StreamOptions → QuoteStream → QuoteStream
handle_silence o s =
    if leb o.max_silent_windows (s.silent_windows + 1)
    then give_up (hushed s)
    else ensure_connected (disconnect_socket (hushed s))

abbrev pub retry_topic : Registration → Registration
retry_topic r =
    if r.waiting_retry then record r { waiting_retry = false; pending = some fresh } else r

abbrev pub is_waiting : Registration → Bool
is_waiting r = r.waiting_retry

unfoldable pub retry_fires : QuoteStream → QuoteStream
retry_fires s =
    let retried = record s { retry_timer = false; topics = map retry_topic s.topics } in
    if any is_waiting s.topics then flush retried else retried

unfoldable pub idle_fires : QuoteStream → QuoteStream
idle_fires s =
    let fired = record s { idle_timer = false } in
    if is_nil s.topics then disconnect_socket fired else fired

-- ===== src/Sdk/QuoteStream/Run/Kept.antt =====
-- Every step of packages/sdk/src/quote-stream.ts keeps what its listeners are told in order.
use waterx_predict_agent.Base.{
  ℕ, ◌+◌, ◌==◌, leb, Bool, true, false, not, ◌||◌, Bool-cases, inl, inr, Option, none, some, find,
  any, List, [], ◌∷◌, map, select, update, All, All-map, All-select, ◌≡◌, refl,
}
use waterx_predict_agent.Sdk.QuoteStream.{
  QuoteTopic, QuoteFrame, QuoteUnavailableReason, unavailable, frame, QuoteStreamEvent,
  Registration, StreamOptions, QuoteStream, is_on, emit_to, is_nil, ensure_connected,
  disconnect_socket,
}
use waterx_predict_agent.Sdk.QuoteStream.Handlers.{
  registered, with_topic, with_listener, hushed, add_listener, on_quote, remove_listener,
  no_listener_left, dropped, release_from, release, close, opened, open_failed, on_ready, notify_if,
  handle_ready, receive, handle_quote_frame, retry_needed, handle_subscription, handle_heartbeat,
  handle_server_error, handle_silence, retry_topic, is_waiting, retry_fires, idle_fires,
}
use waterx_predict_agent.Sdk.QuoteStream.Run.{
  StreamStep, asks, releases, closes, opens, fails_to_open, is_ready, receives, answers, beats,
  refuses, is_silent, retries, idles, flushes, StreamReach, start, next,
}
use waterx_predict_agent.Sdk.QuoteStream.Run.Contiguous.{
  IsContiguous, HasLast, either-IsKept, IsQuiet, IsTracked, IsKept, All-under, All-end, All-one,
  add_listener-IsTracked, reject_each-IsTracked, beat_each-IsTracked, notify-IsTracked,
  flush-IsKept, give_up-IsKept, receive-IsTracked, tell-unavailable,
}

connected : (s : QuoteStream) → IsKept s → IsKept (ensure_connected s)
connected s h =
    either-IsKept ((s.closed || s.degraded) || (s.socket || s.opening)) _ _ h
      (record { tracked = h.tracked; ready = h.ready })

retry_topic-IsTracked :
    (ready : Bool) (r : Registration) → IsTracked ready r → IsTracked ready (retry_topic r)
retry_topic-IsTracked ready r h = elim (Bool-cases r.waiting_retry) [
  | inl e ↦ simp e h
  | inr e ↦ simp e h
]

with_topic-IsKept : (topic : QuoteTopic) (s : QuoteStream) → IsKept s → IsKept (with_topic topic s)
with_topic-IsKept topic s h = either-IsKept (any (is_on topic) s.topics) _ _ h (record {
  tracked =
      All-end (IsTracked s.ever_ready) (registered topic) s.topics (tt, tt, λ u. tt) h.tracked;
  ready = h.ready;
})

on_quote-IsKept :
    (topic : QuoteTopic) (listener : ℕ) (s : QuoteStream)
    → IsKept s
    → IsKept (on_quote topic listener s)
unfolding on_quote
on_quote-IsKept topic listener s h =
    let awake = record s { idle_timer = false } in
    let known = with_topic-IsKept topic awake (record { tracked = h.tracked; ready = h.ready }) in
    either-IsKept (s.closed || s.degraded) _ _ (record { tracked = h.tracked; ready = h.ready })
      (connected (with_listener topic listener (with_topic topic awake)) (record {
        tracked =
            All-one topic (add_listener listener) _ (add_listener-IsTracked _ listener)
              known.tracked;
        ready = known.ready;
      }))

dropped-IsKept :
    (o : StreamOptions) (current : Registration) (s : QuoteStream)
    → IsKept s
    → IsKept (dropped o current s)
dropped-IsKept o current s h =
    let left =
      All-map (λ a p. p.0) _
        (All-select (IsTracked s.ever_ready) (λ (r : Registration). not (is_on current.topic r))
          s.topics h.tracked) in
    either-IsKept (is_nil (select (λ (r : Registration). not (is_on current.topic r)) s.topics)) _ _
      (either-IsKept (not (s.socket || s.opening)) _ _ (record { tracked = left; ready = h.ready })
        (either-IsKept (o.idle_disconnect_ms == 0) _ _
          (record { tracked = left; ready = λ bad. cc })
          (record { tracked = left; ready = h.ready })))
      (record { tracked = left; ready = h.ready })

release-IsKept :
    (o : StreamOptions) (topic : QuoteTopic) (listener : ℕ) (s : QuoteStream)
    → IsKept s
    → IsKept (release o topic listener s)
unfolding release
release-IsKept o topic listener s h = one (find (is_on topic) s.topics)
  where
    one : (found : Option Registration) → IsKept (release_from o listener found s)
    one none = h
    one (some current) =
        either-IsKept (no_listener_left listener current) _ _ (dropped-IsKept o current s h)
          (record {
            tracked =
                All-one current.topic (remove_listener listener) s.topics (λ r p. p) h.tracked;
            ready = h.ready;
          })

again-IsTracked :
    (r : Registration)
    → IsTracked true r
    → IsTracked true (emit_to (unavailable QuoteUnavailableReason.disconnected) (on_ready true r))
again-IsTracked r h =
    let said = tell-unavailable true QuoteUnavailableReason.disconnected r h in
    (said.0, tt, λ e. tt)

first-IsTracked : (r : Registration) → IsTracked false r → IsTracked true (on_ready false r)
first-IsTracked r h = (h.0, one r.told (h.2 refl), λ e. cc)
  where
    one : (told : List QuoteStreamEvent) → IsQuiet told → HasLast none told
    one [] q = tt
    one (frame f ∷ told) q = elim q [ ]
    one (unavailable reason ∷ told) q = tt

ready_topics :
    (ready : Bool) (l : List Registration)
    → All (IsTracked ready) l
    → (s : QuoteStream) → s.topics ≡ map (on_ready ready) l
    → s.ever_ready ≡ true
    → IsKept (notify_if ready s)
ready_topics true l h s e ready = record { tracked = rw (ready, e) (two l h); ready = λ u. ready }
  where
    two :
        (l : List Registration)
        → All (IsTracked true) l
        → All (IsTracked true) (
            map (emit_to (unavailable QuoteUnavailableReason.disconnected)) (map (on_ready true) l))
    two [] h = tt
    two (r ∷ l) h = (again-IsTracked r h.0, two l h.1)
ready_topics false l h s e ready = record {
  tracked =
      rw (ready, e)
        (All-under (IsTracked false) (IsTracked true) (on_ready false) first-IsTracked l h);
  ready = λ u. ready;
}

handle_ready-IsKept : (s : QuoteStream) → IsKept s → IsKept (handle_ready s)
unfolding handle_ready
handle_ready-IsKept s h = flush-IsKept _ (ready_topics s.ever_ready s.topics h.tracked _ refl refl)

received :
    (ready : Bool)
    → ready ≡ true
    → (topic : QuoteTopic) (f : Option QuoteFrame) (l : List Registration) → All (IsTracked ready) l
    → All (IsTracked ready) (update (is_on topic) (receive f) l)
received true e topic f l h = All-one topic (receive f) l (receive-IsTracked f) h
received false e topic f l h = cc

Step-IsKept : {o : StreamOptions} {s t : QuoteStream} → StreamStep o s t → IsKept s → IsKept t
unfolding close opened open_failed handle_quote_frame handle_subscription handle_heartbeat
    handle_server_error handle_silence retry_fires idle_fires
Step-IsKept (asks topic listener) h = on_quote-IsKept topic listener _ h
Step-IsKept (releases topic listener) h = release-IsKept _ topic listener _ h
Step-IsKept closes h = record { tracked = tt; ready = λ e. cc }
Step-IsKept {s} opens h =
    either-IsKept (s.closed || is_nil s.topics) _ _
      (record { tracked = h.tracked; ready = h.ready })
      (record { tracked = h.tracked; ready = h.ready })
Step-IsKept {s} fails_to_open h =
    let up = give_up-IsKept s h in record { tracked = up.tracked; ready = up.ready }
Step-IsKept is_ready h = handle_ready-IsKept _ h
Step-IsKept {s} (receives topic f live) h = record {
  tracked = received s.ever_ready (h.ready live) topic f s.topics h.tracked;
  ready = h.ready;
}
Step-IsKept {s} (answers rejections) h =
    let marked = reject_each-IsTracked s.ever_ready rejections s.topics h.tracked in
    either-IsKept (retry_needed rejections s.topics) _ _
      (record { tracked = marked; ready = h.ready }) (record { tracked = marked; ready = h.ready })
Step-IsKept {s} (beats entries) h = record {
  tracked = beat_each-IsTracked s.ever_ready entries s.topics h.tracked;
  ready = h.ready;
}
Step-IsKept {o} {s} (refuses refusal) h =
    either-IsKept (leb o.max_handshake_failures (s.handshake_failures + 1)) _ _
      (give_up-IsKept _ (record { tracked = h.tracked; ready = λ bad. cc }))
      (record { tracked = h.tracked; ready = λ bad. cc })
Step-IsKept {o} {s} is_silent h =
    let said =
      notify-IsTracked s.ever_ready QuoteUnavailableReason.disconnected s.topics h.tracked in
    either-IsKept (leb o.max_silent_windows (s.silent_windows + 1)) _ _
      (give_up-IsKept (hushed s) (record { tracked = said; ready = λ bad. cc }))
      (connected (disconnect_socket (hushed s)) (record { tracked = said; ready = λ bad. cc }))
Step-IsKept {s} retries h =
    let retried =
      All-under (IsTracked s.ever_ready) (IsTracked s.ever_ready) retry_topic
        (retry_topic-IsTracked s.ever_ready) s.topics h.tracked in
    either-IsKept (any is_waiting s.topics) _ _
      (flush-IsKept _ (record { tracked = retried; ready = h.ready }))
      (record { tracked = retried; ready = h.ready })
Step-IsKept {s} idles h =
    either-IsKept (is_nil s.topics) _ _ (record { tracked = h.tracked; ready = λ bad. cc })
      (record { tracked = h.tracked; ready = h.ready })
Step-IsKept flushes h = flush-IsKept _ h

Reach-IsKept : {o : StreamOptions} {s : QuoteStream} → StreamReach o s → IsKept s
Reach-IsKept start = record { tracked = tt; ready = λ e. cc }
Reach-IsKept (next r st) = Step-IsKept st (Reach-IsKept r)

-- Whatever happens to a stream, in any order: an update that listeners are told right behind
-- another frame, with nothing between them, has the next number, where that frame has one.
pub Reach-IsContiguous :
    {o : StreamOptions} {s : QuoteStream}
    → StreamReach o s
    → All (λ r. IsContiguous r.told) s.topics
Reach-IsContiguous {o} {s} r = All-map (λ a h. h.0) s.topics (Reach-IsKept r).tracked

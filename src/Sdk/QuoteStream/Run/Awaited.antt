-- ===== src/Sdk/QuoteStream/Run/Awaited.antt =====
-- A silent connection of packages/sdk/src/quote-stream.ts, step by step: the timer that watches it,
-- and the connector that it calls.
use waterx_predict_agent.Base.{
  ℕ, ◌+◌, leb, Bool, true, false, not, ◌&&◌, ◌||◌, if◌then◌else◌, List, [], ◌∷◌, map, ◌∙◌, ◌≡◌,
  refl, sym, ap,
}
use waterx_predict_agent.Sdk.QuoteStream.{
  Registration, StreamOptions, QuoteStream, flush, is_nil, arm_silence_timer,
}
use waterx_predict_agent.Sdk.QuoteStream.Handlers.{
  handle_silence, opened, open_failed, handle_ready, notify_if, on_ready,
}

-- What may come on a connection although no answer does: the server is ready and a flush is sent.
pub data Calm : Type 0 where
  ready flushing : Calm

abbrev pub calm : List Calm → QuoteStream → QuoteStream
calm [] s = s
calm (ready ∷ cs) s = calm cs (if s.socket then handle_ready s else s)
calm (flushing ∷ cs) s = calm cs (flush s)

-- What is next on a silent connection: the timer fires if it is armed, and else the connector
-- answers or throws if it was called. If neither is so, nothing ever happens.
abbrev pub waited : StreamOptions → Bool → QuoteStream → QuoteStream
waited o throws s =
    if s.silence_timer
    then handle_silence o s
    else if s.opening
    then (if throws then open_failed s else opened s)
    else s

-- Rounds: whether the connector throws in it, and what comes behind.
unfoldable pub rounds : StreamOptions → List (Bool × List Calm) → QuoteStream → QuoteStream
rounds o [] s = s
rounds o ((throws, cs) ∷ rest) s = rounds o rest (calm cs (waited o throws s))

pub either :
    (P : QuoteStream → Type 0) (b : Bool) (s t : QuoteStream)
    → (b ≡ true → P s)
    → (b ≡ false → P t)
    → P (if b then s else t)
either P true s t h k = h refl
either P false s t h k = k refl

-- A stream that somebody listens to, in a silence of so many windows.
pub record IsListening (windows : ℕ) (s : QuoteStream) : Type 0 where
  pub not_closed : s.closed ≡ false
  pub not_degraded : s.degraded ≡ false
  pub asked : is_nil s.topics ≡ false
  pub counted : s.silent_windows ≡ windows

-- Its timer is armed, or the connector was called.
pub data IsAwaited (windows : ℕ) (s : QuoteStream) : Type 0 where
  armed : IsListening windows s → s.silence_timer ≡ true → IsAwaited windows s
  called : IsListening windows s → s.opening ≡ true → IsAwaited windows s

is_nil-map : (f : Registration → Registration) (l : List Registration) → is_nil (map f l) ≡ is_nil l
is_nil-map f [] = refl
is_nil-map f (r ∷ l) = refl

module _ (o : StreamOptions) (n : ℕ) (s : QuoteStream) (h : IsListening n s) where
  pub flush-armed :
      s.silence_timer ≡ true → IsListening n (flush s) × ((flush s).silence_timer ≡ true)
  unfolding flush
  flush-armed t =
      either (λ v. IsListening n v × (v.silence_timer ≡ true)) (s.socket && s.live) _ _
        (λ e. (
          record {
            not_closed = h.not_closed;
            not_degraded = h.not_degraded;
            asked = is_nil-map _ s.topics ∙ h.asked;
            counted = h.counted;
          },
          t,
        ))
        (λ e. (
          record {
            not_closed = h.not_closed;
            not_degraded = h.not_degraded;
            asked = h.asked;
            counted = h.counted;
          },
          t,
        ))

  pub flush-called : s.opening ≡ true → IsListening n (flush s) × ((flush s).opening ≡ true)
  unfolding flush
  flush-called t =
      either (λ v. IsListening n v × (v.opening ≡ true)) (s.socket && s.live) _ _
        (λ e. (
          record {
            not_closed = h.not_closed;
            not_degraded = h.not_degraded;
            asked = is_nil-map _ s.topics ∙ h.asked;
            counted = h.counted;
          },
          t,
        ))
        (λ e. (
          record {
            not_closed = h.not_closed;
            not_degraded = h.not_degraded;
            asked = h.asked;
            counted = h.counted;
          },
          t,
        ))

  notify_if-armed :
      (b : Bool)
      → s.silence_timer ≡ true
      → IsListening n (notify_if b s) × ((notify_if b s).silence_timer ≡ true)
  notify_if-armed false t = (h, t)
  notify_if-armed true t = (
    record {
      not_closed = h.not_closed;
      not_degraded = h.not_degraded;
      asked = is_nil-map _ s.topics ∙ h.asked;
      counted = h.counted;
    },
    t,
  )

  arms : not (s.closed || (s.degraded || is_nil s.topics)) ≡ true
  arms = rw (h.not_closed, h.not_degraded, h.asked) refl

  pub opened-armed : IsListening n (opened s) × ((opened s).silence_timer ≡ true)
  unfolding opened
  opened-armed =
      either (λ v. IsListening n v × (v.silence_timer ≡ true)) (s.closed || is_nil s.topics) _ _
        (λ e. let bad : false ≡ true = sym (rw (h.not_closed, h.asked) refl) ∙ e in cc)
        (λ e. (
          record {
            not_closed = h.not_closed;
            not_degraded = h.not_degraded;
            asked = h.asked;
            counted = h.counted;
          },
          arms,
        ))

  pub silence-called :
      leb o.max_silent_windows (n + 1) ≡ false
      → IsListening (n + 1) (handle_silence o s) × ((handle_silence o s).opening ≡ true)
  unfolding handle_silence
  silence-called e =
      either (λ v. IsListening (n + 1) v × (v.opening ≡ true))
        (leb o.max_silent_windows (s.silent_windows + 1)) _ _
        (λ late.
          let bad : false ≡ true =
            sym e ∙ ap (λ w. leb o.max_silent_windows (w + 1)) (sym h.counted) ∙ late in
          cc)
        (λ early.
          either (λ v. IsListening (n + 1) v × (v.opening ≡ true))
            ((s.closed || s.degraded) || (false || s.opening)) _ _
            (λ busy. (
              record {
                not_closed = h.not_closed;
                not_degraded = h.not_degraded;
                asked = is_nil-map _ s.topics ∙ h.asked;
                counted = ap (λ w. w + 1) h.counted;
              },
              rw (h.not_closed, h.not_degraded) at busy,
            ))
            (λ free. (
              record {
                not_closed = h.not_closed;
                not_degraded = h.not_degraded;
                asked = is_nil-map _ s.topics ∙ h.asked;
                counted = ap (λ w. w + 1) h.counted;
              },
              refl,
            )))

-- What `handleReady` makes of a stream before it tells anybody.
abbrev readied : QuoteStream → QuoteStream
readied s =
    record (arm_silence_timer
      (record s { handshake_failures = 0; ever_ready = true; live = true })) {
        pending_unsubscribe = [];
        topics = map (on_ready s.ever_ready) s.topics;
      }

pub ready-armed :
    (o : StreamOptions) (n : ℕ) (s : QuoteStream)
    → IsListening n s
    → IsListening n (handle_ready s) × ((handle_ready s).silence_timer ≡ true)
unfolding handle_ready
ready-armed o n s h =
    let first : IsListening n (readied s) = record {
      not_closed = h.not_closed;
      not_degraded = h.not_degraded;
      asked = is_nil-map _ s.topics ∙ h.asked;
      counted = h.counted;
    } in
    let (k, u) = notify_if-armed o n (readied s) first s.ever_ready (arms o n s h) in
    flush-armed o n (notify_if s.ever_ready (readied s)) k u

-- ===== src/Sdk/QuoteStream/Run/GivesUp.antt =====
-- A connection of packages/sdk/src/quote-stream.ts that stays silent is given up.
use waterx_predict_agent.Base.{
  subst, Bool-cases, length, ◌*◌, ℕ, ◌+◌, ◌≤◌, leb, Bool, true, false, ◌&&◌, ◌||◌, inl, inr, List,
  [], ◌∷◌, ◌⊎◌, ◌≡◌, refl, sym, ap, arith,
}
use waterx_predict_agent.Sdk.QuoteStream.{StreamOptions, QuoteStream, flush, is_nil, give_up}
use waterx_predict_agent.Sdk.QuoteStream.Handlers.{
  hushed, handle_silence, opened, open_failed, handle_ready, notify_if,
}
use waterx_predict_agent.Sdk.QuoteStream.Run.Awaited.{
  Calm, ready, flushing, calm, waited, rounds, either, IsListening, IsAwaited, armed, called,
  flush-armed, flush-called, opened-armed, silence-called, ready-armed,
}

-- A stream that has been given up stays so.
flush-degraded : (s : QuoteStream) → s.degraded ≡ true → (flush s).degraded ≡ true
unfolding flush
flush-degraded s h = either (λ v. v.degraded ≡ true) (s.socket && s.live) _ _ (λ e. h) (λ e. h)

notify_if-degraded :
    (b : Bool) (s : QuoteStream) → s.degraded ≡ true → (notify_if b s).degraded ≡ true
notify_if-degraded true s h = h
notify_if-degraded false s h = h

ready-degraded : (s : QuoteStream) → s.degraded ≡ true → (handle_ready s).degraded ≡ true
unfolding handle_ready
ready-degraded s h = flush-degraded _ (notify_if-degraded s.ever_ready _ h)

give_up-degraded : (s : QuoteStream) → (give_up s).degraded ≡ true
unfolding give_up
give_up-degraded s = either (λ v. v.degraded ≡ true) s.degraded _ _ (λ e. e) (λ e. refl)

failed-degraded : (s : QuoteStream) → (open_failed s).degraded ≡ true
unfolding open_failed
failed-degraded s = give_up-degraded s

opened-degraded : (s : QuoteStream) → s.degraded ≡ true → (opened s).degraded ≡ true
unfolding opened
opened-degraded s h =
    either (λ v. v.degraded ≡ true) (s.closed || is_nil s.topics) _ _ (λ e. h) (λ e. h)

silence-degraded :
    (o : StreamOptions) (s : QuoteStream)
    → (s.degraded ≡ true) ⊎ (o.max_silent_windows ≤ s.silent_windows + 1)
    → (handle_silence o s).degraded ≡ true
unfolding handle_silence
silence-degraded o s h =
    either (λ v. v.degraded ≡ true) (leb o.max_silent_windows (s.silent_windows + 1)) _ _
      (λ e. give_up-degraded (hushed s))
      (λ e. elim h [
        | inl gone ↦
            either (λ v. v.degraded ≡ true) ((s.closed || s.degraded) || (false || s.opening)) _ _
              (λ u. gone) (λ u. gone)
        | inr late ↦ absurd (ground (arith, e, late))
      ])

waited-degraded :
    (o : StreamOptions) (throws : Bool) (s : QuoteStream)
    → s.degraded ≡ true
    → (waited o throws s).degraded ≡ true
waited-degraded o throws s h =
    either (λ v. v.degraded ≡ true) s.silence_timer _ _ (λ e. silence-degraded o s (inl h))
      (λ e.
        either (λ v. v.degraded ≡ true) s.opening _ _
          (λ u.
            either (λ v. v.degraded ≡ true) throws _ _ (λ t. failed-degraded s)
              (λ t. opened-degraded s h))
          (λ u. h))

calm-degraded : (cs : List Calm) (s : QuoteStream) → s.degraded ≡ true → (calm cs s).degraded ≡ true
calm-degraded [] s h = h
calm-degraded (ready ∷ cs) s h =
    calm-degraded cs _
      (either (λ v. v.degraded ≡ true) s.socket _ _ (λ e. ready-degraded s h) (λ e. h))
calm-degraded (flushing ∷ cs) s h = calm-degraded cs (flush s) (flush-degraded s h)

rounds-degraded :
    (o : StreamOptions) (rs : List (Bool × List Calm)) (s : QuoteStream)
    → s.degraded ≡ true
    → (rounds o rs s).degraded ≡ true
unfolding rounds
rounds-degraded o [] s h = h
rounds-degraded o ((throws, cs) ∷ rs) s h =
    rounds-degraded o rs _ (calm-degraded cs _ (waited-degraded o throws s h))

-- Behind whatever comes with no answer, the stream is still awaited, and an armed timer stays armed.
calm-armed :
    (o : StreamOptions) (cs : List Calm) (n : ℕ) (s : QuoteStream)
    → IsListening n s
    → s.silence_timer ≡ true
    → IsListening n (calm cs s) × ((calm cs s).silence_timer ≡ true)
calm-armed o [] n s h t = (h, t)
calm-armed o (ready ∷ cs) n s h t =
    let (k, u) =
      either (λ v. IsListening n v × (v.silence_timer ≡ true)) s.socket _ _
        (λ e. ready-armed o n s h) (λ e. (h, t)) in
    calm-armed o cs n _ k u
calm-armed o (flushing ∷ cs) n s h t = let (k, u) = flush-armed o n s h t in calm-armed o cs n _ k u

calm-IsAwaited :
    (o : StreamOptions) (cs : List Calm) (n : ℕ) (s : QuoteStream)
    → IsListening n s
    → s.opening ≡ true
    → IsAwaited n (calm cs s)
calm-IsAwaited o [] n s h t = called h t
calm-IsAwaited o (ready ∷ cs) n s h t =
    either (λ v. IsAwaited n (calm cs v)) s.socket _ _
      (λ e. let (k, u) = ready-armed o n s h in let (l, v) = calm-armed o cs n _ k u in armed l v)
      (λ e. calm-IsAwaited o cs n s h t)
calm-IsAwaited o (flushing ∷ cs) n s h t =
    let (k, u) = flush-called o n s h t in calm-IsAwaited o cs n _ k u

-- An armed timer is one round ahead of a call.
abbrev ahead : Bool → ℕ
ahead true = 1
ahead false = 0

ahead_small : (b : Bool) → ahead b ≤ 1
ahead_small true = omega arith
ahead_small false = omega arith

listening : {n : ℕ} {s : QuoteStream} → IsAwaited n s → IsListening n s
listening (armed h t) = h
listening (called h t) = h

opening_of : {n : ℕ} {s : QuoteStream} → IsAwaited n s → s.silence_timer ≡ false → s.opening ≡ true
opening_of (armed h t) f = cc
opening_of (called h t) f = t

awaited_rounds :
    (o : StreamOptions) (rs : List (Bool × List Calm)) (n : ℕ) (s : QuoteStream)
    → IsAwaited n s
    → 2 ≤ length rs + ahead s.silence_timer
    → 2 * o.max_silent_windows ≤ 2 * n + length rs + ahead s.silence_timer
    → (rounds o rs s).degraded ≡ true
unfolding rounds
awaited_rounds o [] n s a some_left enough =
    absurd (omega (arith, some_left, ahead_small s.silence_timer))
awaited_rounds o ((throws, cs) ∷ rs) n s a some_left enough = elim (Bool-cases s.silence_timer) [
  | inl t ↦
      let fires : waited o throws s ≡ handle_silence o s = rw t refl in
      let one : ahead s.silence_timer ≡ 1 = ap ahead t in
      subst (λ (v : QuoteStream). (rounds o rs (calm cs v)).degraded ≡ true) (sym fires)
        (elim (Bool-cases (leb o.max_silent_windows (n + 1))) [
          | inl e ↦ rounds-degraded o rs _ (
              calm-degraded cs _ (
                silence-degraded o s (inr (let w = (listening a).counted in ground (arith, e, w)))))
          | inr e ↦
              let (k, u) = silence-called o n s (listening a) e in
              let far : n + 2 ≤ o.max_silent_windows = ground (arith, e) in
              awaited_rounds o rs (n + 1) _ (calm-IsAwaited o cs (n + 1) _ k u)
                (omega (arith, enough, far, one)) (omega (arith, enough, one))
        ])
  | inr f ↦
      let called_one = opening_of a f in
      let none_ahead : ahead s.silence_timer ≡ 0 = ap ahead f in
      elim (Bool-cases throws) [
        | inl t ↦
            let falls : waited o throws s ≡ open_failed s = rw (f, called_one, t) refl in
            subst (λ (v : QuoteStream). (rounds o rs (calm cs v)).degraded ≡ true) (sym falls)
              (rounds-degraded o rs _ (calm-degraded cs _ (failed-degraded s)))
        | inr t ↦
            let opens : waited o throws s ≡ opened s = rw (f, called_one, t) refl in
            let (k, u) = opened-armed o n s (listening a) in
            let (l, v) = calm-armed o cs n _ k u in
            let one : ahead (calm cs (opened s)).silence_timer ≡ 1 = ap ahead v in
            subst (λ (v : QuoteStream). (rounds o rs (calm cs v)).degraded ≡ true) (sym opens)
              (awaited_rounds o rs n _ (armed l v) (omega (arith, some_left, none_ahead, one))
                (omega (arith, enough, none_ahead, one)))
      ]
]

-- A connection that stays silent, with a topic that somebody listens to, is given up within two
-- rounds for each window of its budget and two more, where its timer is armed or the connector was
-- called: in each round the timer fires if it is armed, and else the connector answers or throws if
-- it was called, and the server may be ready and flushes may be sent in between.
pub rounds-end :
    (o : StreamOptions) (rs : List (Bool × List Calm)) (n : ℕ) (s : QuoteStream)
    → IsAwaited n s
    → 2 * o.max_silent_windows + 2 ≤ length rs
    → (rounds o rs s).degraded ≡ true
rounds-end o rs n s a enough =
    awaited_rounds o rs n s a (omega (arith, enough)) (omega (arith, enough))

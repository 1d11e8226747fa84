-- ===== src/Runner/Prices/Sourced.antt =====
-- Where the prices of a polled topic of packages/runner/src/prices.ts come from, over any calls.
use waterx_predict_agent.Base.{
  [], ◌∷◌, List, All, Any, Any-map, All-map, All-find, All-select, All-update, some_injective, sym,
  subst, ◌∙◌, ==_iff, and_both, ℕ, ◌+◌, ◌==◌, ◌<◌, Bool, true, false, if◌then◌else◌, inl, inr,
  Option, none, some, find, Text, ◌≡◌, ◌⊎◌, refl,
}
use waterx_predict_agent.Sdk.Decimal.{Side}
use waterx_predict_agent.Runner.Strategy.Gateway.{WatchKey}
use waterx_predict_agent.Runner.Prices.Heard.{unless_shut}
use waterx_predict_agent.Runner.Prices.{
  same_topic, QuoteTopic, new_polled, with_polled, PolledTopic, OutcomePrices, MarketPrices,
  PollingOptions, PollingObserver, watched_topic, is_polled, expired, or_new, is_fresh,
  read_outcome, read_topic, polled_price, poll_topic, poll_price,
}
use waterx_predict_agent.Runner.Prices.Polled.{
  IsRead, read_topic-IsRead, is_fresh-recent, same-price,
}

-- One call of `observe`, with what the server answers if it is read.
pub record Poll : Type 0 where
  pub watch : WatchKey
  pub at : ℕ
  pub market : Option MarketPrices

-- Any number of calls on a new observer, the last one first.
unfoldable pub polls : PollingOptions → List Poll → PollingObserver
polls o [] = record { topics = []; closed = false }
polls o (q ∷ before) = (poll_price o q.watch q.at q.market (polls o before)).1

-- A call about that topic at that instant, in whose market the price is.
pub record IsSource (topic : QuoteTopic) (side : Side) (read_at : ℕ) (price : Text) (q : Poll)
    : Type 0 where
  pub on_topic : watched_topic q.watch ≡ topic
  pub then_read : q.at ≡ read_at
  pub source : IsRead side topic.outcome_id q.market price

-- A topic whose prices were read when it says.
abbrev pub IsSourced : List Poll → PolledTopic → Type 0
IsSourced history t =
    (side : Side) (price : Text)
    → polled_price side t ≡ some price
    → (r : ℕ) × (t.last_read_at ≡ some r) × Any (IsSource t.topic side r price) history

IsSourced-later :
    (q : Poll) (history : List Poll) (t : PolledTopic)
    → IsSourced history t
    → IsSourced (q ∷ history) t
IsSourced-later q history t h side price e =
    let (r, last, source) = h side price e in (r, last, inr source)

same_topic_sound : (a b : QuoteTopic) → same_topic a b ≡ true → a ≡ b
same_topic_sound a b e =
    let (m, o) = and_both (a.market_id == b.market_id) (a.outcome_id == b.outcome_id) e in
    let same_market : a.market_id ≡ b.market_id = (==_iff _ _).0 m in
    let same_outcome : a.outcome_id ≡ b.outcome_id = (==_iff _ _).0 o in
    λ i. record { market_id = same_market i; outcome_id = same_outcome i }

read_outcome-last :
    (at : ℕ) (open_market : Bool) (outcome : Option OutcomePrices) (t : PolledTopic)
    → ((read_outcome at open_market outcome t).last_read_at ≡ t.last_read_at)
      × ((read_outcome at open_market outcome t).topic ≡ t.topic)
read_outcome-last at false outcome t = (refl, refl)
read_outcome-last at true none t = (refl, refl)
read_outcome-last at true (some outcome) t = (refl, refl)

read_topic-last :
    (at outcome_id : ℕ) (market : Option MarketPrices) (t : PolledTopic)
    → ((read_topic at outcome_id market t).last_read_at ≡ some at)
      × ((read_topic at outcome_id market t).topic ≡ t.topic)
unfolding read_topic
read_topic-last at outcome_id none t = (refl, refl)
read_topic-last at outcome_id (some market) t =
    read_outcome-last at market.tradeable
      (find (λ (e : OutcomePrices). e.outcome_id == outcome_id) market.outcomes)
      (record t { last_read_at = some at })

-- A topic after a poll: its prices were read when it says, and that is now or recent.
pub record IsPolled (o : PollingOptions) (q : Poll) (history : List Poll) (t : PolledTopic)
    : Type 0 where
  pub sourced : IsSourced (q ∷ history) t
  pub topic : t.topic ≡ watched_topic q.watch
  pub recent : (r : ℕ) → t.last_read_at ≡ some r → (r ≡ q.at) ⊎ (q.at < r + o.min_poll_ms)

poll_topic-IsPolled :
    (o : PollingOptions) (q : Poll) (history : List Poll) (t : PolledTopic)
    → t.topic ≡ watched_topic q.watch
    → IsSourced history t
    → IsPolled o q history (poll_topic o q.at q.watch.outcome_id q.market t)
unfolding poll_topic
poll_topic-IsPolled o q history t same h = either (is_fresh o q.at t.last_read_at) refl
  where
    either :
        (b : Bool)
        → is_fresh o q.at t.last_read_at ≡ b
        → IsPolled o q history (
            if b
            then record t { last_asked_at = q.at }
            else read_topic q.at q.watch.outcome_id q.market (record t { last_asked_at = q.at }))
    either true f = record {
      sourced = λ side price e.
          let (r, last, source) = h side price (rw (← same-price side q.at t) e) in
          (r, last, inr source);
      topic = same;
      recent = λ r last.
          let (s, read, close) = is_fresh-recent o q.at t.last_read_at f in
          let agree : s ≡ r = some_injective (sym read ∙ last) in inr (rw (← agree) close);
    }
    either false f =
        let (last, kept) =
          read_topic-last q.at q.watch.outcome_id q.market (record t { last_asked_at = q.at }) in
        record {
          sourced = λ side price e. (
            q.at,
            last,
            inl (record {
              on_topic = sym (kept ∙ same);
              then_read = refl;
              source =
                  subst (λ (topic : QuoteTopic). IsRead side topic.outcome_id q.market price)
                    (sym (kept ∙ same))
                    (read_topic-IsRead side q.at q.watch.outcome_id q.market _ price e);
            }),
          );
          topic = kept ∙ same;
          recent = λ r e. inl (some_injective (sym e ∙ last));
        }

new_polled-IsSourced :
    (topic : QuoteTopic) (at : ℕ) (history : List Poll) → IsSourced history (new_polled topic at)
new_polled-IsSourced topic at history Side.buy price e = cc
new_polled-IsSourced topic at history Side.sell price e = cc

-- The topic that a call is about, before the poll.
or_new-IsSourced :
    (topic : QuoteTopic) (at : ℕ) (history : List Poll) (left : List PolledTopic)
    (known : Option PolledTopic)
    → find (is_polled topic) left ≡ known
    → All (IsSourced history) left
    → ((or_new topic at known).topic ≡ topic) × IsSourced history (or_new topic at known)
or_new-IsSourced topic at history left none e h = (refl, new_polled-IsSourced topic at history)
or_new-IsSourced topic at history left (some t) e h =
    let (sourced, about) = All-find (IsSourced history) (is_polled topic) left h e in
    (sym (same_topic_sound topic t.topic about), sourced)

with_polled-IsSourced :
    (topic : QuoteTopic) (history : List Poll) (t : PolledTopic) (known : Option PolledTopic)
    (left : List PolledTopic)
    → IsSourced history t
    → All (IsSourced history) left
    → All (IsSourced history) (with_polled topic t known left)
with_polled-IsSourced topic history t none [] p h = (p, tt)
with_polled-IsSourced topic history t none (x ∷ left) p h =
    (h.0, with_polled-IsSourced topic history t none left p h.1)
with_polled-IsSourced topic history t (some old) left p h =
    All-update (is_polled topic) (λ x. t) left (λ x e q. p) (λ x e q. q) h

module _ (o : PollingOptions) (q : Poll) (history : List Poll) (p : PollingObserver)
    (h : All (IsSourced history) p.topics) where
  left-IsSourced : All (IsSourced history) (expired o q.at p.topics)
  left-IsSourced =
      All-map (λ t k. k.0) (expired o q.at p.topics) (All-select (IsSourced history) _ p.topics h)

  abbrev polled : PolledTopic
  polled = poll_topic o q.at q.watch.outcome_id q.market (
      or_new (watched_topic q.watch) q.at
        (find (is_polled (watched_topic q.watch)) (expired o q.at p.topics)))

  polled-IsPolled : IsPolled o q history polled
  polled-IsPolled =
      let (topic, sourced) =
        or_new-IsSourced (watched_topic q.watch) q.at history (expired o q.at p.topics) _ refl
          left-IsSourced in
      poll_topic-IsPolled o q history _ topic sourced

  poll_price-topics : All (IsSourced (q ∷ history)) (poll_price o q.watch q.at q.market p).1.topics
  unfolding poll_price
  poll_price-topics =
      unless_closed p.closed _ _ (All-map (λ t k. IsSourced-later q history t k) p.topics h) (
        with_polled-IsSourced (watched_topic q.watch) (q ∷ history) _ _ _ polled-IsPolled.sourced
          (All-map (λ t k. IsSourced-later q history t k) (expired o q.at p.topics) left-IsSourced))
    where
      unless_closed :
          (b : Bool) (x y : Option Text × PollingObserver)
          → All (IsSourced (q ∷ history)) x.1.topics
          → All (IsSourced (q ∷ history)) y.1.topics
          → All (IsSourced (q ∷ history)) (if b then x else y).1.topics
      unless_closed true x y a b = a
      unless_closed false x y a b = b

polls-IsSourced :
    (o : PollingOptions) (history : List Poll) → All (IsSourced history) (polls o history).topics
unfolding polls
polls-IsSourced o [] = tt
polls-IsSourced o (q ∷ history) =
    poll_price-topics o q history (polls o history) (polls-IsSourced o history)

-- A call about the same topic, in whose market the price is, and which is this one or less than the
-- minimal interval ago.
pub record IsRecent (o : PollingOptions) (watch : WatchKey) (at : ℕ) (price : Text) (q : Poll)
    : Type 0 where
  pub on_topic : watched_topic q.watch ≡ watched_topic watch
  pub source : IsRead watch.side watch.outcome_id q.market price
  pub recent : (q.at ≡ at) ⊎ (at < q.at + o.min_poll_ms)

-- A price that a poll answers, after any calls on a new observer, is one of the market that this
-- call, or a call less than the minimal interval ago, was answered: of the same market and outcome,
-- which was open, on the side that is watched.
pub poll_price-IsRead :
    (o : PollingOptions) (history : List Poll) (watch : WatchKey) (at : ℕ)
    (market : Option MarketPrices) (price : Text)
    → (poll_price o watch at market (polls o history)).0 ≡ some price
    → Any (IsRecent o watch at price) (record { watch = watch; at = at; market = market } ∷ history)
unfolding poll_price
poll_price-IsRead o history watch at market price e =
    let q : Poll = record { watch = watch; at = at; market = market } in
    let answered = unless_shut (polls o history).closed _ _ _ price e in
    let t = polled-IsPolled o q history (polls o history) (polls-IsSourced o history) in
    let (r, last, source) = t.sourced watch.side price answered in
    Any-map
      (λ x s. record {
        on_topic = s.on_topic ∙ t.topic;
        source =
            subst (λ (topic : QuoteTopic). IsRead watch.side topic.outcome_id x.market price)
              t.topic s.source;
        recent = rw s.then_read (t.recent r last);
      })
      (q ∷ history) source

-- ===== src/Runner/Prices/Heard.antt =====
-- A price of packages/runner/src/prices.ts is never a remembered one.
use waterx_predict_agent.Base.{
  ℕ, Bool, true, false, ◌||◌, Option, none, some, find, List, [], ◌∷◌, All, if◌then◌else◌, Text,
  ◌≡◌, refl,
}
use waterx_predict_agent.Sdk.Decimal.{Side}
use waterx_predict_agent.Sdk.QuoteStream.{
  QuoteFrame, QuoteStreamEvent, frame, unavailable, Registration, StreamOptions, QuoteStream,
  side_price, stream_trigger_price,
}
use waterx_predict_agent.Sdk.QuoteStream.Handlers.{handle_silence}
use waterx_predict_agent.Sdk.QuoteStream.Run.Contiguous.{IsQuiet}
use waterx_predict_agent.Sdk.QuoteStream.Run.Silence.{handle_silence-IsQuiet}
use waterx_predict_agent.Runner.Strategy.Gateway.{WatchKey}
use waterx_predict_agent.Runner.Prices.{
  PriceTopic, StreamObserver, watched_topic, is_about, apply_event, price_of, observe,
}

-- A topic that has heard all that the listeners of a registration were told, newest first, each at
-- some instant.
abbrev pub heard : ℕ → List QuoteStreamEvent → PriceTopic → PriceTopic
heard now [] t = t
heard now (e ∷ es) t = apply_event now e (heard now es t)

-- A price is the one of the frame told last, which is not stale.
pub record IsCurrent (side : Side) (told : List QuoteStreamEvent) (price : Text) : Type 0 where
  pub newest : QuoteFrame
  pub before : List QuoteStreamEvent
  pub last : told ≡ frame newest ∷ before
  pub live : newest.stale ≡ false
  pub on_side : side_price side newest ≡ some price

unless_none :
    (b : Bool) (o : Option Text) (p : Text)
    → (if b then none else o) ≡ some p
    → (b ≡ false) × (o ≡ some p)
unless_none true o p e = cc
unless_none false o p e = (refl, e)

pub unless_shut {ℓ} :
    {A : Type ℓ} (b : Bool) (x : Option Text) (s t : A) (p : Text)
    → (if◌then◌else◌ {A = Option Text × A} b (none, s) (x, t)).0 ≡ some p
    → x ≡ some p
unless_shut true x s t p e = cc
unless_shut false x s t p e = e

price_of-frame :
    (side : Side) (f : QuoteFrame) (price : Text)
    → stream_trigger_price side f ≡ some price
    → (f.stale ≡ false) × (side_price side f ≡ some price)
unfolding stream_trigger_price
price_of-frame side f price e = unless_none f.stale (side_price side f) price e

heard-IsCurrent :
    (now : ℕ) (side : Side) (told : List QuoteStreamEvent) (t : PriceTopic) (price : Text)
    → t.frame ≡ none
    → price_of side (heard now told t).frame ≡ some price
    → IsCurrent side told price
unfolding apply_event
heard-IsCurrent now side [] t price n e = let bad : none ≡ some price = rw n at e in cc
heard-IsCurrent now side (unavailable reason ∷ told) t price n e = cc
heard-IsCurrent now side (frame f ∷ told) t price n e =
    let (s, p) = price_of-frame side f price e in
    record { newest = f; before = told; last = refl; live = s; on_side = p }

-- What an observer answers about a topic that has heard what its stream has told since it was
-- subscribed: the price on the watched side of the frame told last, if that is not stale, and
-- otherwise nothing.
pub observe-IsCurrent :
    (idle_ms : ℕ) (watch : WatchKey) (refused : Bool) (now at : ℕ)
    (answer : Option QuoteStreamEvent) (o : StreamObserver) (told : List QuoteStreamEvent)
    (t : PriceTopic) (price : Text)
    → t.frame ≡ none
    → find (is_about (watched_topic watch)) o.topics ≡ some (heard now told t)
    → (observe idle_ms watch refused at answer o).0 ≡ some price
    → IsCurrent watch.side told price
unfolding observe
observe-IsCurrent idle_ms watch refused now at answer o told t price n known e =
    heard-IsCurrent now watch.side told t price n
      (rw known at (unless_shut (refused || o.closed) _ _ _ price e))

quiet-no_price :
    (now : ℕ) (side : Side) (told : List QuoteStreamEvent) (t : PriceTopic)
    → IsQuiet told
    → t.frame ≡ none
    → price_of side (heard now told t).frame ≡ none
unfolding apply_event
quiet-no_price now side [] t q n = rw n refl
quiet-no_price now side (unavailable reason ∷ told) t q n = refl
quiet-no_price now side (frame f ∷ told) t q n = elim q [ ]

-- Behind a silent window every topic that has heard its stream is without a price.
pub silence-no_price :
    (s : StreamOptions) (stream : QuoteStream) (now : ℕ) (side : Side)
    → All
        (λ r. (t : PriceTopic) → t.frame ≡ none → price_of side (heard now r.told t).frame ≡ none)
        (handle_silence s stream).topics
silence-no_price s stream now side = go _ (handle_silence-IsQuiet s stream).0
  where
    go :
        (l : List Registration)
        → All (λ r. IsQuiet r.told) l
        → All
            (λ r.
              (t : PriceTopic) → t.frame ≡ none → price_of side (heard now r.told t).frame ≡ none)
            l
    go [] h = tt
    go (r ∷ l) h = (λ t n. quiet-no_price now side r.told t h.0 n, go l h.1)

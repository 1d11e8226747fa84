-- ===== src/Runner/Strategy/Preflight/Markets.antt =====
-- `marketsInvolved` and the verdict on one market, of packages/runner/src/strategy/preflight.ts.
use waterx_predict_agent.Base.{
  ℕ, ◌==◌, if◌then◌else◌, Bool, Option, none, some, List, [], ◌∷◌, ◌++◌, map, any, Text, codes,
}
use waterx_predict_agent.Runner.Detail.{word, number, truth}
use waterx_predict_agent.Runner.Job.{JobLegIntent, JobRecord}
use waterx_predict_agent.Runner.Strategy.Gateway.{
  Market, MarketStatus, MarketDisposition, MarketDispositionReason, MarketVerdict, classify_market,
}
use waterx_predict_agent.Runner.Strategy.Preflight.{
  Entries, PreflightVerdict, optional_entry, pause, stop, market_not_tradeable,
  market_status_unknown, market_closed, market_resolved,
}

abbrev contains : ℕ → List ℕ → Bool
contains x xs = any (λ y. y == x) xs

-- `[...new Set(xs)]`: the first of each, in order; `seen` is what the set already has.
abbrev unique : List ℕ → List ℕ → List ℕ
unique seen [] = []
unique seen (x ∷ xs) =
    let kept = unique (x ∷ seen) xs in
    let dropped = unique seen xs in if contains x seen then dropped else x ∷ kept

abbrev watched_market : Option ℕ → List ℕ
watched_market none = []
watched_market (some m) = m ∷ []

unfoldable pub markets_involved : JobRecord → List ℕ
markets_involved job =
    unique []
      (watched_market job.trigger.market_id ++ map (λ (l : JobLegIntent). l.market_id) job.intent)

abbrev status_text : MarketStatus → Text
status_text MarketStatus.pregame = codes "PREGAME"
status_text MarketStatus.in_play = codes "IN_PLAY"
status_text MarketStatus.closed = codes "CLOSED"
status_text MarketStatus.resolved = codes "RESOLVED"
status_text (MarketStatus.other t) = t

abbrev market_detail : ℕ → Market → Entries
market_detail id market =
    (codes "marketId", number id)
    ∷ (codes "status", word (status_text market.status))
    ∷ (codes "tradeable", truth market.tradeable)
    ∷ optional_entry (codes "tradeabilityReason") market.tradeability_reason

abbrev disposed : MarketVerdict → Entries → Option PreflightVerdict
disposed v detail = elim v.disposition [
  | MarketDisposition.runnable ↦ none
  | MarketDisposition.terminal ↦ some (
      stop
        (elim v.reason [
          | MarketDispositionReason.market_resolved ↦ market_resolved
          | _ ↦ market_closed
        ])
        detail)
  | MarketDisposition.pause ↦ some (
      pause
        (elim v.reason [
          | MarketDispositionReason.unknown_status ↦ market_status_unknown
          | _ ↦ market_not_tradeable
        ])
        detail)
]

unfoldable pub market_verdict : ℕ → Market → Option PreflightVerdict
market_verdict id market = disposed (classify_market market) (market_detail id market)

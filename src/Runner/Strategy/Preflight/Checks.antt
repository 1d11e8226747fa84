-- ===== src/Runner/Strategy/Preflight/Checks.antt =====
-- The checks of packages/runner/src/strategy/preflight.ts and `findPosition` of positions.ts, in the
-- order in which they ask.
use waterx_predict_agent.Base.{
  ℕ, zero, suc, ◌==◌, if◌then◌else◌, Bool, true, false, Option, none, some, List, [], ◌∷◌, ◌++◌,
  any, find, Text, codes,
}
use waterx_predict_agent.Runner.Detail.{number, word}
use waterx_predict_agent.Runner.Job.{JobLegIntent, JobLegSizing, JobRecord}
use waterx_predict_agent.Runner.Strategy.Gateway.{Outside, Position, PositionPage}
use waterx_predict_agent.Runner.Strategy.World.{Act, ask, pure, of_result, ◌>>=◌}
use waterx_predict_agent.Runner.Strategy.Preflight.{
  PreflightVerdict, PreflightPauseReason, PreparedLeg, LegSkipReason, entry, proceed, pause,
}
use waterx_predict_agent.Runner.Strategy.Preflight.Sizes.{
  Resolved, with_policy_check, skipped, prepared, unverified, resolve_held,
}
use waterx_predict_agent.Runner.Strategy.Preflight.Authority.{
  check_local_policy, permissions_needed, classify_authorization,
}
use waterx_predict_agent.Runner.Strategy.Preflight.Markets.{markets_involved, market_verdict}

-- `found`, or the absence with whether it is proven; with the number of pages read.
pub data PositionLookup : Type 0 where
  found : Position → ℕ → PositionLookup
  absent : Bool → ℕ → PositionLookup

-- What a page says: the row, an end, or the cursor of the next page.
pub data PageStep : Type 0 where
  answer : PositionLookup → PageStep
  go_on : ℕ → PageStep

abbrev pub next_cursor : ℕ → List ℕ → Option (Option ℕ) → PageStep
next_cursor read seen none = answer (absent false read)
next_cursor read seen (some none) = answer (absent true read)
next_cursor read seen (some (some c)) =
    if any (λ s. s == c) seen then answer (absent false read) else go_on c

abbrev pub or_next : Option Position → ℕ → List ℕ → Option (Option ℕ) → PageStep
or_next (some p) read seen cursor = answer (found p read)
or_next none read seen cursor = next_cursor read seen cursor

unfoldable pub read_page : ℕ → ℕ → List ℕ → PositionPage → PageStep
read_page id read seen page =
    or_next (find (λ (p : Position). p.position_id == id) page.positions) read seen page.next_cursor

abbrev pub follow : PageStep → (ℕ → Act PositionLookup) → Act PositionLookup
follow (answer lookup) k = pure lookup
follow (go_on c) k = k c

module _ (o : Outside) where
  -- The fuel is `maxPages − pagesRead`.
  unfoldable pub walk_pages : ℕ → ℕ → ℕ → ℕ → List ℕ → Option ℕ → Act PositionLookup
  walk_pages zero account id read seen cursor = pure (absent false read)
  walk_pages (suc left) account id read seen cursor = do
    page ← ask (λ m. o.get_positions m account cursor)
    follow (read_page id (suc read) seen page)
        (λ c. walk_pages left account id (suc read) (c ∷ seen) (some c))

  unfoldable pub find_position : ℕ → ℕ → Act PositionLookup
  find_position account id = walk_pages 20 account id 0 [] none

  abbrev pub or_market :
      Option PreflightVerdict → Act (Option PreflightVerdict) → Act (Option PreflightVerdict)
  or_market (some v) rest = pure (some v)
  or_market none rest = rest

  unfoldable pub check_each : List ℕ → Act (Option PreflightVerdict)
  check_each [] = pure none
  check_each (id ∷ ids) = do
    market ← ask (λ m. o.get_market m id)
    or_market (market_verdict id market) (check_each ids)

  unfoldable pub check_markets : JobRecord → Act (Option PreflightVerdict)
  check_markets job = check_each (markets_involved job)

  abbrev pub looked_up : ℕ → JobLegIntent → Text → ℕ → JobRecord → PositionLookup → Act Resolved
  looked_up i intent fraction id job (found position read) =
      of_result (resolve_held i intent fraction id job position)
  looked_up i intent fraction id job (absent true read) = pure (
      prepared (
        skipped i intent LegSkipReason.position_gone
          ((codes "positionId", number id) ∷ (codes "pagesRead", number read) ∷ [])))
  looked_up i intent fraction id job (absent false read) = pure (
      unverified (
        (codes "legIndex", number i)
        ∷ (codes "positionId", number id)
        ∷ (codes "pagesRead", number read)
        ∷ []))

  abbrev pub with_position : ℕ → JobLegIntent → Text → JobRecord → Option ℕ → Act Resolved
  with_position i intent fraction job none = pure (
      prepared (
        skipped i intent LegSkipReason.position_gone
          (entry (codes "missing") (word (codes "positionId")))))
  with_position i intent fraction job (some id) = do
    lookup ← find_position job.account_id id
    looked_up i intent fraction id job lookup

  abbrev pub checked : ℕ → JobLegIntent → JobRecord → Act Resolved
  checked i intent job = do leg ← of_result (with_policy_check i intent job); pure (prepared leg)

  -- Only a dynamic fraction is resolved here.
  unfoldable pub resolve_leg : ℕ → JobLegIntent → JobRecord → Option JobLegSizing → Act Resolved
  resolve_leg i intent job (some (JobLegSizing.dynamic_fraction fraction)) =
      with_position i intent fraction job intent.position_id
  resolve_leg i intent job none = checked i intent job
  resolve_leg i intent job (some JobLegSizing.absolute) = checked i intent job
  resolve_leg i intent job (some (JobLegSizing.frozen_fraction f held as_of)) = checked i intent job

  abbrev pub with_leg : Resolved → (PreparedLeg → Act PreflightVerdict) → Act PreflightVerdict
  with_leg (unverified detail) k = pure (pause PreflightPauseReason.position_unverified detail)
  with_leg (prepared leg) k = k leg

  unfoldable pub resolve_from :
      ℕ → List JobLegIntent → JobRecord → List PreparedLeg → Act PreflightVerdict
  resolve_from i [] job done = pure (proceed done)
  resolve_from i (intent ∷ rest) job done = do
    resolved ← resolve_leg i intent job intent.sizing
    with_leg resolved (λ leg. resolve_from (suc i) rest job (done ++ leg ∷ []))

  unfoldable pub resolve_legs : JobRecord → Act PreflightVerdict
  resolve_legs job = resolve_from 0 job.intent job []

  -- The first verdict that is one ends the checks.
  abbrev pub unless : Option PreflightVerdict → Act PreflightVerdict → Act PreflightVerdict
  unless (some v) rest = pure v
  unless none rest = rest

  unfoldable pub authorize : JobRecord → Act (Option PreflightVerdict)
  authorize job = do
    limits ← ask (λ m. o.get_effective_limits m job.account_id)
    pure (classify_authorization limits (permissions_needed job.intent) o.has_mandate)

  unfoldable pub checked_markets : JobRecord → Act PreflightVerdict
  checked_markets job = do markets ← check_markets job; unless markets (resolve_legs job)

  unfoldable pub authorized : JobRecord → Act PreflightVerdict
  authorized job = do authorization ← authorize job; unless authorization (checked_markets job)

  unfoldable pub preflight : JobRecord → ℕ → Act PreflightVerdict
  preflight job at = unless (check_local_policy job at) (authorized job)

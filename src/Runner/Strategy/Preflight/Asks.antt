-- ===== src/Runner/Strategy/Preflight/Asks.antt =====
-- The checks of packages/runner/src/strategy/preflight.ts leave the store alone.
use waterx_predict_agent.Base.{ℕ, suc, zero, true, false, Option, none, some, List, [], ◌∷◌, Text}
use waterx_predict_agent.Runner.Job.{JobLegIntent, JobLegSizing, JobRecord}
use waterx_predict_agent.Runner.Strategy.Gateway.{Outside}
use waterx_predict_agent.Runner.Strategy.World.{Act}
use waterx_predict_agent.Runner.Strategy.World.Reads.{
  IsRead, bind-IsRead, pure-IsRead, ask-IsRead, of_result-IsRead,
}
use waterx_predict_agent.Runner.Strategy.Preflight.{PreflightVerdict, PreparedLeg}
use waterx_predict_agent.Runner.Strategy.Preflight.Sizes.{Resolved, prepared, unverified}
use waterx_predict_agent.Runner.Strategy.Preflight.Authority.{check_local_policy}
use waterx_predict_agent.Runner.Strategy.Preflight.Markets.{market_verdict}
use waterx_predict_agent.Runner.Strategy.Preflight.Checks.{
  PageStep, PositionLookup, found, absent, answer, go_on, read_page, walk_pages, find_position,
  check_each, check_markets, resolve_leg, resolve_from, resolve_legs, authorize, checked_markets,
  authorized, preflight, unless, follow, or_market, with_leg, looked_up, with_position, checked,
}

module _ (o : Outside) where
  follow-IsRead :
      (step : PageStep) (k : ℕ → Act PositionLookup)
      → ((c : ℕ) → IsRead o (k c))
      → IsRead o (follow step k)
  follow-IsRead (answer lookup) k h = pure-IsRead o lookup
  follow-IsRead (go_on c) k h = h c

  walk_pages-IsRead :
      (left account id read : ℕ) (seen : List ℕ) (cursor : Option ℕ)
      → IsRead o (walk_pages o left account id read seen cursor)
  unfolding walk_pages
  walk_pages-IsRead zero account id read seen cursor = pure-IsRead o _
  walk_pages-IsRead (suc left) account id read seen cursor =
      bind-IsRead o _ _ (ask-IsRead o _) (λ page.
        follow-IsRead (read_page id (suc read) seen page) _
          (λ c. walk_pages-IsRead left account id (suc read) (c ∷ seen) (some c)))

  find_position-IsRead : (account id : ℕ) → IsRead o (find_position o account id)
  unfolding find_position
  find_position-IsRead account id = walk_pages-IsRead 20 account id 0 [] none

  or_market-IsRead :
      (v : Option PreflightVerdict) (rest : Act (Option PreflightVerdict))
      → IsRead o rest
      → IsRead o (or_market o v rest)
  or_market-IsRead none rest h = h
  or_market-IsRead (some v) rest h = pure-IsRead o _

  check_each-IsRead : (ids : List ℕ) → IsRead o (check_each o ids)
  unfolding check_each
  check_each-IsRead [] = pure-IsRead o none
  check_each-IsRead (id ∷ ids) =
      bind-IsRead o _ _ (ask-IsRead o _)
        (λ market. or_market-IsRead (market_verdict id market) _ (check_each-IsRead ids))

  pub check_markets-IsRead : (job : JobRecord) → IsRead o (check_markets o job)
  unfolding check_markets
  check_markets-IsRead job = check_each-IsRead _

  looked_up-IsRead :
      (i : ℕ) (intent : JobLegIntent) (fraction : Text) (id : ℕ) (job : JobRecord)
      (lookup : PositionLookup)
      → IsRead o (looked_up o i intent fraction id job lookup)
  looked_up-IsRead i intent fraction id job (found position read) = of_result-IsRead o _
  looked_up-IsRead i intent fraction id job (absent true read) = pure-IsRead o _
  looked_up-IsRead i intent fraction id job (absent false read) = pure-IsRead o _

  with_position-IsRead :
      (i : ℕ) (intent : JobLegIntent) (fraction : Text) (job : JobRecord) (id : Option ℕ)
      → IsRead o (with_position o i intent fraction job id)
  with_position-IsRead i intent fraction job none = pure-IsRead o _
  with_position-IsRead i intent fraction job (some id) =
      bind-IsRead o _ _ (find_position-IsRead job.account_id id)
        (λ lookup. looked_up-IsRead i intent fraction id job lookup)

  checked-IsRead :
      (i : ℕ) (intent : JobLegIntent) (job : JobRecord) → IsRead o (checked o i intent job)
  checked-IsRead i intent job = bind-IsRead o _ _ (of_result-IsRead o _) (λ leg. pure-IsRead o _)

  resolve_leg-IsRead :
      (i : ℕ) (intent : JobLegIntent) (job : JobRecord) (sizing : Option JobLegSizing)
      → IsRead o (resolve_leg o i intent job sizing)
  unfolding resolve_leg
  resolve_leg-IsRead i intent job (some (JobLegSizing.dynamic_fraction fraction)) =
      with_position-IsRead i intent fraction job intent.position_id
  resolve_leg-IsRead i intent job none = checked-IsRead i intent job
  resolve_leg-IsRead i intent job (some JobLegSizing.absolute) = checked-IsRead i intent job
  resolve_leg-IsRead i intent job (some (JobLegSizing.frozen_fraction f held as_of)) =
      checked-IsRead i intent job

  with_leg-IsRead :
      (r : Resolved) (k : PreparedLeg → Act PreflightVerdict)
      → ((leg : PreparedLeg) → IsRead o (k leg))
      → IsRead o (with_leg o r k)
  with_leg-IsRead (prepared leg) k h = h leg
  with_leg-IsRead (unverified detail) k h = pure-IsRead o _

  resolve_from-IsRead :
      (i : ℕ) (intents : List JobLegIntent) (job : JobRecord) (prepared : List PreparedLeg)
      → IsRead o (resolve_from o i intents job prepared)
  unfolding resolve_from
  resolve_from-IsRead i [] job legs = pure-IsRead o _
  resolve_from-IsRead i (intent ∷ rest) job legs =
      bind-IsRead o _ _ (resolve_leg-IsRead i intent job intent.sizing)
        (λ r. with_leg-IsRead r _ (λ leg. resolve_from-IsRead (suc i) rest job _))

  unless-IsRead :
      (v : Option PreflightVerdict) (rest : Act PreflightVerdict)
      → IsRead o rest
      → IsRead o (unless o v rest)
  unless-IsRead none rest h = h
  unless-IsRead (some v) rest h = pure-IsRead o v

  -- A preflight asks and never writes.
  pub preflight-IsRead : (job : JobRecord) (at : ℕ) → IsRead o (preflight o job at)
  unfolding preflight authorized authorize checked_markets resolve_legs
  preflight-IsRead job at = unless-IsRead (check_local_policy job at) _ (
      bind-IsRead o _ _ (bind-IsRead o _ _ (ask-IsRead o _) (λ limits. pure-IsRead o _))
        (λ authorization. unless-IsRead authorization _ (
          bind-IsRead o _ _ (check_markets-IsRead job)
            (λ markets. unless-IsRead markets _ (resolve_from-IsRead 0 job.intent job [])))))

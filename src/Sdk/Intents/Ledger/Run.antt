-- ===== src/Sdk/Intents/Ledger/Run.antt =====
-- The calls on a store of packages/sdk/src/intent-store.ts, one behind the other.
use waterx_predict_agent.Base.{ℕ, List, [], ◌∷◌, Option, Text}
use waterx_predict_agent.Sdk.Intents.Canonical.{Members}
use waterx_predict_agent.Sdk.Intents.Ledger.{
  Answer, ok, fails, ◌>>=◌, Records, reserve, attach, settle, forget,
}

-- The methods that write.
pub data Call : Type 0 where
  reserves : Members → List Text → ℕ → Call
  attaches : Text → Text → Option Text → Call
  settles : Text → Text → ℕ → Call
  forgets : Text → Call

unfoldable pub step : (Text → Text) → Call → Records → Answer Records
step sha256 (reserves intent draws at) records =
    reserve sha256 intent draws at records >>= λ made. ok made.1
step sha256 (attaches key execution price) records = attach sha256 key execution price records
step sha256 (settles key outcome at) records = settle sha256 key outcome at records
step sha256 (forgets key) records = forget sha256 key records

-- A call that throws writes nothing.
abbrev pub or_before : Records → Answer Records → Records
or_before records (ok after) = after
or_before records (fails e) = records

unfoldable pub run : (Text → Text) → List Call → Records → Records
run sha256 [] records = records
run sha256 (c ∷ cs) records = run sha256 cs (or_before records (step sha256 c records))

-- ===== src/Runner/Strategy/World.antt =====
-- What a pass of packages/runner/src/strategy/driver.ts acts on: the job store, the requests that
-- have left the process, and a moment that every call outside the store passes, so that two equal
-- questions may be answered differently.
pub mod Ran
pub mod Backed
pub mod Reads
use waterx_predict_agent.Base.{ℕ, suc, Option, none, some, List, ◌∷◌}
use waterx_predict_agent.Runner.Job.{SideEffectKind}
use waterx_predict_agent.Runner.Store.Db.{Db, Result, ok, err, StoreError}
use waterx_predict_agent.Runner.Store.Prog.{Prog, call}
use waterx_predict_agent.Runner.Strategy.Gateway.{CreateRequest}

-- A write request as it leaves: a create under its idempotency key, or a submit of an execution.
pub data Payload : Type 0 where
  create : ℕ → CreateRequest → Payload
  submit : ℕ → ℕ → Payload

pub record Sent : Type 0 where
  pub job_id : ℕ
  pub leg_index : ℕ
  pub payload : Payload

pub record World : Type 0 where
  pub db : Db
  pub sent : List Sent
  pub moment : ℕ

abbrev pub Act {ℓ} : Type ℓ → Type ℓ
Act A = World → Result A × World

abbrev pub landed {ℓ} : {A : Type ℓ} → World → Result A × Db → Result A × World
landed w (r, db) = (r, record w { db = db })

module _ {ℓ} {A : Type ℓ} where
  -- Code that only calls the store.
  unfoldable pub lift : Prog A → Act A
  lift p w = landed w (p w.db)

  -- Code that calls the store and asks outside at most once.
  unfoldable pub timed : (ℕ → Prog A) → Act A
  timed p w = landed (record w { moment = suc w.moment }) (p w.moment w.db)

  unfoldable pub store : (Db → Result (A × Db)) → Act A
  store method = lift (call method)

  unfoldable pub query : (Db → A) → Act A
  query q w = (ok (q w.db), w)

  unfoldable pub pure : A → Act A
  pure a w = (ok a, w)

  unfoldable pub throw : StoreError → Act A
  throw x w = (err x, w)

  -- Arithmetic that may throw.
  unfoldable pub of_result : Result A → Act A
  of_result r w = (r, w)

  -- A call outside: a read of the server, a signature, a fresh id.
  unfoldable pub ask : (ℕ → Result A) → Act A
  ask answer w = (answer w.moment, record w { moment = suc w.moment })

  -- A write request: it has left whatever is answered.
  unfoldable pub send : Sent → (ℕ → A) → Act A
  send s answer w = (ok (answer w.moment), record w { sent = s ∷ w.sent; moment = suc w.moment })

-- `try { … } catch (error) { … }`, where the handler goes on with the error.
unfoldable pub attempt : {A : Type 0} → Act A → Act (Result A)
attempt p w = (ok (p w).0, (p w).1)

abbrev pub next {ℓ κ} :
    {A : Type ℓ} {B : Type κ} → Result A × World → (A → Act B) → Result B × World
next (ok a, w) f = f a w
next (err x, w) f = (err x, w)

infixl 5 ◌>>=◌ ◌>>◌
unfoldable pub ◌>>=◌ {ℓ κ} : {A : Type ℓ} {B : Type κ} → Act A → (A → Act B) → Act B
◌>>=◌ p f w = next (p w) f

abbrev pub ◌>>◌ {ℓ κ} : {A : Type ℓ} {B : Type κ} → Act A → Act B → Act B
p >> q = p >>= λ _. q

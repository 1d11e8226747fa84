-- ===== src/Runner/Strategy/Driver/Silent.antt =====
-- Runs of a pass of packages/runner/src/strategy/driver.ts in which nothing leaves the process.
use waterx_predict_agent.Base.{Bool, true, false, ◌≡◌, refl, ◌∙◌, if◌then◌else◌}
use waterx_predict_agent.Runner.Store.Db.{Db, Result, StoreError, ok, err}
use waterx_predict_agent.Runner.Store.Prog.{settle}
use waterx_predict_agent.Runner.Strategy.World.{Act, World, landed, next, pure, ◌>>=◌}

-- Nothing has left the process and nothing outside was asked.
pub record IsQuiet (w v : World) : Type 0 where
  pub sent : v.sent ≡ w.sent
  pub moment : v.moment ≡ w.moment

-- A quiet run, and what holds of the answer where there is one.
pub data Silent {A : Type 0} (Q : A → Type 0) (w : World) : Result A × World → Type 0 where
  done : {a : A} {v : World} → IsQuiet w v → Q a → Silent Q w (ok a, v)
  failed : {x : StoreError} {v : World} → IsQuiet w v → Silent Q w (err x, v)

pub Silent-IsQuiet :
    {A : Type 0} {Q : A → Type 0} {w : World} {r : Result A × World} → Silent Q w r → IsQuiet w r.1
Silent-IsQuiet (done q h) = q
Silent-IsQuiet (failed q) = q

pub IsQuiet-on : {w v u : World} → IsQuiet w v → IsQuiet v u → IsQuiet w u
IsQuiet-on p q = record { sent = q.sent ∙ p.sent; moment = q.moment ∙ p.moment }

pub still : (w : World) → IsQuiet w w
still w = record { sent = refl; moment = refl }

module _ {A : Type 0} (Q : A → Type 0) where
  pub later : {w v : World} {r : Result A × World} → IsQuiet w v → Silent Q v r → Silent Q w r
  later p (done q h) = done (IsQuiet-on p q) h
  later p (failed q) = failed (IsQuiet-on p q)

  pub pure-Silent : (w : World) (a : A) → Q a → Silent Q w (pure a w)
  unfolding pure
  pure-Silent w a h = done (still w) h

  pub if-Silent :
      (w : World) (b : Bool) (p q : Act A)
      → (b ≡ true → Silent Q w (p w))
      → (b ≡ false → Silent Q w (q w))
      → Silent Q w ((if b then p else q) w)
  if-Silent w true p q h k = h refl
  if-Silent w false p q h k = k refl

module _ {A B : Type 0} (Q : A → Type 0) where
  pub next-Silent :
      {R : B → Type 0} {w : World} (r : Result B × World) (f : B → Act A)
      → Silent R w r
      → ((b : B) (v : World) → R b → Silent Q v (f b v))
      → Silent Q w (next r f)
  next-Silent (ok b, v) f (done q h) k = later Q q (k b v h)
  next-Silent (err x, v) f (failed q) k = failed q

  pub bind-Silent :
      {R : B → Type 0} (w : World) (p : Act B) (f : B → Act A)
      → Silent R w (p w)
      → ((b : B) (v : World) → R b → Silent Q v (f b v))
      → Silent Q w ((p >>= f) w)
  unfolding ◌>>=◌
  bind-Silent w p f h k = next-Silent (p w) f h k

abbrev pub IsAny : {A : Type 0} → A → Type 0
IsAny a = Unit

pub settled-Silent :
    {A : Type 0} (w : World) (r : Result (A × Db))
    → Silent (IsAny {A = A}) w (landed w (settle w.db r))
settled-Silent w (ok (a, e)) = done (record { sent = refl; moment = refl }) tt
settled-Silent w (err x) = failed (record { sent = refl; moment = refl })

-- ===== src/Runner/Strategy/World/Reads.antt =====
-- The parts of packages/runner/src/strategy/driver.ts that only read.
use waterx_predict_agent.Base.{ℕ, refl, ◌∙◌}
use waterx_predict_agent.Runner.Store.Db.{err, ok, Result}
use waterx_predict_agent.Runner.Strategy.Gateway.{Outside}
use waterx_predict_agent.Runner.Strategy.World.{Act, World, ask, of_result, pure, ◌>>=◌}
use waterx_predict_agent.Runner.Strategy.World.Ran.{
  Ran, done, failed, Kept, bind-Ran, pure-Ran, of_result-Ran, ask-Ran,
}

module _ (o : Outside) where
  pub weaken-Ran :
      {A : Type 0} {Q R : A → World → Type 0} {w : World} (r : Result A × World)
      → ((a : A) (v : World) → Q a v → R a v)
      → Ran o Q w r
      → Ran o R w r
  weaken-Ran (ok a, v) k (done s q) = done s (k a v q)
  weaken-Ran (err x, v) k (failed s) = failed s

  -- The code leaves the store alone.
  pub data IsRead {A : Type 0} (p : Act A) : Type 0 where
    reads : ((w : World) → Ran o (Kept o w) w (p w)) → IsRead p

  pub read_run : {A : Type 0} {p : Act A} → IsRead p → (w : World) → Ran o (Kept o w) w (p w)
  read_run (reads h) = h

  module _ {A B : Type 0} where
    pub bind-IsRead :
        (p : Act B) (f : B → Act A) → IsRead p → ((b : B) → IsRead (f b)) → IsRead (p >>= f)
    bind-IsRead p f (reads h) k = reads λ w.
        bind-Ran o (Kept o w) p f (h w)
          (λ b v s q. weaken-Ran (f b v) (λ a u e. e ∙ q) (read_run (k b) v))

  module _ {A : Type 0} where
    pub pure-IsRead : (a : A) → IsRead (pure a)
    pure-IsRead a = reads λ w. pure-Ran o (Kept o w) w a refl

    pub ask-IsRead : (answer : ℕ → Result A) → IsRead (ask answer)
    ask-IsRead answer = reads λ w. ask-Ran o w answer

    pub of_result-IsRead : (r : Result A) → IsRead (of_result r)
    of_result-IsRead r = reads λ w. of_result-Ran o w r

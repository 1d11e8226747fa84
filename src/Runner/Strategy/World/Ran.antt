-- ===== src/Runner/Strategy/World/Ran.antt =====
-- What a run of packages/runner/src/strategy/driver.ts does to its world, step by step.
use waterx_predict_agent.Base.{
  ℕ, suc, Bool, true, false, if◌then◌else◌, ◌∷◌, ◌≡◌, refl, All, All-map, subst,
}
use waterx_predict_agent.Runner.Store.Db.{Db, Result, StoreError, ok, err}
use waterx_predict_agent.Runner.Store.Change.{
  Change, keep, and_then, Makes, makes, fails, ok-injective,
}
use waterx_predict_agent.Runner.Store.Gives.{Gives, gives, refuses}
use waterx_predict_agent.Runner.Store.Prog.{Prog, call, settle}
use waterx_predict_agent.Runner.Strategy.Gateway.{Outside}
use waterx_predict_agent.Runner.Strategy.World.{
  attempt, Act, Sent, World, ask, landed, lift, next, of_result, pure, query, send, store, throw,
  timed, ◌>>=◌,
}
use waterx_predict_agent.Runner.Strategy.World.Backed.{IsBacked, Change-IsBacked}

module _ (o : Outside) where
  -- A run writes by changes of the store, and sends a request only where the ledger already has an
  -- attempt for it.
  pub data Steps : World → World → Type 0 where
    still : {w : World} → Steps w w
    onward : {w v u : World} → Steps w v → Steps v u → Steps w u
    wrote : {w : World} {e : Db} → Change w.db e → Steps w (record w { db = e })
    passed : {w : World} → Steps w (record w { moment = suc w.moment })
    sent_out :
        {w : World} (s : Sent)
        → IsBacked o s w.db
        → Steps w (record w { sent = s ∷ w.sent; moment = suc w.moment })

  pub Steps-Change : {w v : World} → Steps w v → Change w.db v.db
  Steps-Change still = keep
  Steps-Change (onward s t) = and_then (Steps-Change s) (Steps-Change t)
  Steps-Change (wrote c) = c
  Steps-Change passed = keep
  Steps-Change (sent_out s h) = keep

  abbrev pub IsAccounted : World → Type 0
  IsAccounted w = All (λ s. IsBacked o s w.db) w.sent

  pub Steps-IsAccounted : {w v : World} → Steps w v → IsAccounted w → IsAccounted v
  Steps-IsAccounted still h = h
  Steps-IsAccounted (onward s t) h = Steps-IsAccounted t (Steps-IsAccounted s h)
  Steps-IsAccounted (wrote {w} c) h = All-map (λ s b. Change-IsBacked o s c b) w.sent h
  Steps-IsAccounted passed h = h
  Steps-IsAccounted (sent_out s b) h = (b, h)

  -- A run from a world: the steps, and what holds of the answer where there is one.
  pub data Ran {A : Type 0} (Q : A → World → Type 0) (w : World) : Result A × World → Type 0 where
    done : {a : A} {v : World} → Steps w v → Q a v → Ran Q w (ok a, v)
    failed : {x : StoreError} {v : World} → Steps w v → Ran Q w (err x, v)

  pub Ran-Steps :
      {A : Type 0} {Q : A → World → Type 0} {w : World} {r : Result A × World}
      → Ran Q w r
      → Steps w r.1
  Ran-Steps (done s q) = s
  Ran-Steps (failed s) = s

  pub Ran-ok :
      {A : Type 0} {Q : A → World → Type 0} {w : World} (r : Result A × World) (a : A)
      → Ran Q w r
      → r.0 ≡ ok a
      → Q a r.1
  Ran-ok {Q = Q} (ok b, v) a (done s q) h = subst (λ x. Q x v) (ok-injective h) q
  Ran-ok (err x, v) a (failed s) h = cc

  module _ {A : Type 0} (Q : A → World → Type 0) where
    after_Ran : {w v : World} {r : Result A × World} → Steps w v → Ran Q v r → Ran Q w r
    after_Ran s (done t q) = done (onward s t) q
    after_Ran s (failed t) = failed (onward s t)

  module _ {A B : Type 0} (Q : A → World → Type 0) where
    next-Ran :
        {R : B → World → Type 0} {w : World} (r : Result B × World) (f : B → Act A)
        → Ran R w r
        → ((b : B) (v : World) → Steps w v → R b v → Ran Q v (f b v))
        → Ran Q w (next r f)
    next-Ran (ok b, v) f (done s h) k = after_Ran Q s (k b v s h)
    next-Ran (err x, v) f (failed s) k = failed s

    pub bind-Ran :
        {R : B → World → Type 0} {w : World} (p : Act B) (f : B → Act A)
        → Ran R w (p w)
        → ((b : B) (v : World) → Steps w v → R b v → Ran Q v (f b v))
        → Ran Q w ((p >>= f) w)
    unfolding ◌>>=◌
    bind-Ran {w = w} p f h k = next-Ran (p w) f h k

  module _ {A : Type 0} (Q : A → World → Type 0) (w : World) where
    pub pure-Ran : (a : A) → Q a w → Ran Q w (pure a w)
    unfolding pure
    pure-Ran a h = done still h

    pub throw-Ran : (x : StoreError) → Ran Q w (throw x w)
    unfolding throw
    throw-Ran x = failed still

    pub if-Ran :
        (b : Bool) (p q : Act A)
        → (b ≡ true → Ran Q w (p w))
        → (b ≡ false → Ran Q w (q w))
        → Ran Q w ((if b then p else q) w)
    if-Ran true p q h k = h refl
    if-Ran false p q h k = k refl

  module _ {A : Type 0} (w : World) where
    -- The run has left the store alone.
    abbrev pub Kept : A → World → Type 0
    Kept a v = v.db ≡ w.db

    pub of_result-Ran : (r : Result A) → Ran Kept w (of_result r w)
    unfolding of_result
    of_result-Ran (ok a) = done still refl
    of_result-Ran (err x) = failed still

    pub query-Ran : (q : Db → A) → Ran (λ a v. (a ≡ q w.db) × (v.db ≡ w.db)) w (query q w)
    unfolding query
    query-Ran q = done still (refl, refl)

    answered-Ran : (r : Result A) → Ran Kept w (r, record w { moment = suc w.moment })
    answered-Ran (ok a) = done passed refl
    answered-Ran (err x) = failed passed

    pub ask-Ran : (answer : ℕ → Result A) → Ran Kept w (ask answer w)
    unfolding ask
    ask-Ran answer = answered-Ran (answer w.moment)

    pub send-Ran : (s : Sent) (answer : ℕ → A) → IsBacked o s w.db → Ran Kept w (send s answer w)
    unfolding send
    send-Ran s answer h = done (sent_out s h) refl

    settled-Ran :
        (Q : A → Db → Type 0) (r : Result (A × Db))
        → Makes w.db r
        → Gives Q r
        → Ran (λ a v. Q a v.db) w (landed w (settle w.db r))
    settled-Ran Q (ok (a, e)) (makes c) (gives h) = done (wrote c) h
    settled-Ran Q (err x) fails refuses = failed still

    pub store-Ran :
        (Q : A → Db → Type 0) (method : Db → Result (A × Db))
        → Makes w.db (method w.db)
        → Gives Q (method w.db)
        → Ran (λ a v. Q a v.db) w (store method w)
    unfolding store lift call
    store-Ran Q method c h = settled-Ran Q (method w.db) c h

    timed_landed :
        (Q : A → Db → Type 0) (r : Result A × Db)
        → Change w.db r.1
        → ((a : A) → r.0 ≡ ok a → Q a r.1)
        → Ran (λ a v. Q a v.db) w (landed (record w { moment = suc w.moment }) r)
    timed_landed Q (ok a, e) c h = done (onward passed (wrote c)) (h a refl)
    timed_landed Q (err x, e) c h = failed (onward passed (wrote c))

    pub timed-Ran :
        (Q : A → Db → Type 0) (p : ℕ → Prog A)
        → Change w.db (p w.moment w.db).1
        → ((a : A) → (p w.moment w.db).0 ≡ ok a → Q a (p w.moment w.db).1)
        → Ran (λ a v. Q a v.db) w (timed p w)
    unfolding timed
    timed-Ran Q p c h = timed_landed Q (p w.moment w.db) c h

    attempted-Ran :
        {Q : A → World → Type 0} (r : Result A × World)
        → Ran Q w r
        → Ran (λ x v. Unit) w (ok r.0, r.1)
    attempted-Ran (ok a, v) (done s h) = done s tt
    attempted-Ran (err x, v) (failed s) = done s tt

    pub attempt-Ran :
        {Q : A → World → Type 0} (p : Act A) → Ran Q w (p w) → Ran (λ x v. Unit) w (attempt p w)
    unfolding attempt
    attempt-Ran p h = attempted-Ran (p w) h

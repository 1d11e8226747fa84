-- ===== src/Runner/Supervisor/Fresh.antt =====
-- What a pass of the keeper of packages/runner/src/supervisor.ts leaves under management.
use waterx_predict_agent.Base.{◌+◌, ◌<◌, Bool, List, [], ◌∷◌, All, ◌≡◌, refl, arith}
use waterx_predict_agent.Runner.Job.{JobLease}
use waterx_predict_agent.Runner.Store.Db.{Db, Result, ok, err, StoreError}
use waterx_predict_agent.Runner.Store.Leases.{renew_lease}
use waterx_predict_agent.Runner.Store.Change.{Change}
use waterx_predict_agent.Runner.Store.Change.JobMethods.{heartbeat-Makes, renew_lease-Makes}
use waterx_predict_agent.Runner.Store.Gives.{Gives, gives, Gives-bind}
use waterx_predict_agent.Runner.Store.Prog.{Prog, catch, rescue, next, pure, ◌>>=◌}
use waterx_predict_agent.Runner.Store.Prog.After.{
  After, done, failed, bind-After, call-After, pure-After,
}
use waterx_predict_agent.Runner.Store.Prog.Safe.{
  IsSafe, safe_run, call-IsSafe, pure-IsSafe, catch-IsSafe, bind-IsSafe,
}
use waterx_predict_agent.Runner.Supervisor.{
  LeaseKeeperOptions, Kept, Renewal, kept, dropped, after_failure, renew_one, keep_with, renew_all,
  tick,
}

-- The program returns, and its answer has the property.
data Returns {A : Type 0} (Q : A → Type 0) : Result A × Db → Type 0 where
  returns : {a : A} {e : Db} → Q a → Returns Q (ok a, e)

module _ {A B : Type 0} (Q : A → Type 0) where
  next-Returns :
      {R : B → Type 0} (r : Result B × Db) (f : B → Prog A)
      → Returns R r
      → ((b : B) (e : Db) → R b → Returns Q (f b e))
      → Returns Q (next r f)
  next-Returns (ok b, e) f (returns h) k = k b e h
  next-Returns (err x, e) f h k = elim h [ ]

  bind-Returns :
      {R : B → Type 0} (p : Prog B) (f : B → Prog A) (db : Db)
      → Returns R (p db)
      → ((b : B) (e : Db) → R b → Returns Q (f b e))
      → Returns Q ((p >>= f) db)
  unfolding ◌>>=◌
  bind-Returns p f db h k = next-Returns (p db) f h k

module _ {A : Type 0} (Q : A → Type 0) where
  rescue-Returns :
      (r : Result A × Db) (handler : StoreError → Prog A)
      → After (λ a e. Q a) r
      → ((x : StoreError) (e : Db) → Returns Q (handler x e))
      → Returns Q (rescue r handler)
  rescue-Returns (ok a, e) handler (done h) k = returns h
  rescue-Returns (err x, e) handler failed k = k x e

  catch-Returns :
      (p : Prog A) (handler : StoreError → Prog A) (db : Db)
      → After (λ a e. Q a) (p db)
      → ((x : StoreError) (e : Db) → Returns Q (handler x e))
      → Returns Q (catch p handler db)
  unfolding catch
  catch-Returns p handler db h k = rescue-Returns (p db) handler h k

  pure-Returns : (a : A) (db : Db) → Q a → Returns Q (pure a db)
  unfolding pure
  pure-Returns a db h = returns h

  Returns-ok : (r : Result A × Db) → Returns Q r → (a : A) × (r.0 ≡ ok a) × Q a
  Returns-ok (ok a, e) (returns h) = (a, refl, h)
  Returns-ok (err x, e) h = elim h [ ]

any-After : {A : Type 0} (r : Result A × Db) → After (λ a e. Unit {0}) r
any-After (ok a, e) = done tt
any-After (err x, e) = failed

module _ (o : LeaseKeeperOptions) (short : o.safety_margin_ms < o.lease_ttl_ms) where
  -- More of the lease is left than the safety margin.
  abbrev IsFresh : JobLease → Type 0
  IsFresh l = o.at + o.safety_margin_ms < l.expires_at

  abbrev IsKept : Renewal → Type 0
  IsKept (kept l) = IsFresh l
  IsKept (dropped why) = Unit

  renew_lease-Gives :
      (lease : JobLease) (db : Db)
      → Gives (λ l e. IsFresh l) (renew_lease lease o.at o.lease_ttl_ms db)
  unfolding renew_lease
  renew_lease-Gives lease db = Gives-bind _ _ _ λ _ held. gives (omega (arith, short))

  failure-IsKept : (lease : JobLease) (x : StoreError) → IsKept (after_failure o lease x)
  failure-IsKept lease x = ground (arith, short)

  renew_one-IsKept : (lease : JobLease) (db : Db) → Returns IsKept (renew_one o lease db)
  unfolding renew_one
  renew_one-IsKept lease db =
      catch-Returns IsKept _ _ db
        (bind-After _ _ _ db (call-After _ _ db (renew_lease-Gives lease db))
          (λ l e fresh. pure-After _ (kept l) e fresh))
        (λ x e. pure-Returns IsKept _ e (failure-IsKept lease x))

  keep_with-All :
      (lease : JobLease) (r : Renewal) (rest : Kept)
      → IsKept r
      → All IsFresh rest.leases
      → All IsFresh (keep_with lease r rest).leases
  keep_with-All lease (kept l) rest h k = (h, k)
  keep_with-All lease (dropped why) rest h k = k

  renew_all-All :
      (leases : List JobLease) (db : Db)
      → Returns (λ (k : Kept). All IsFresh k.leases) (renew_all o leases db)
  unfolding renew_all
  renew_all-All [] db = pure-Returns _ _ db tt
  renew_all-All (lease ∷ leases) db = bind-Returns _ _ _ db (renew_one-IsKept lease db) (λ r e h.
      bind-Returns _ _ _ e (renew_all-All leases e)
        (λ rest d k. pure-Returns _ _ d (keep_with-All lease r rest h k)))

-- With a safety margin shorter than the time to live, a pass always returns, whatever the store
-- refuses, and every lease that is still held then has more than the margin left.
pub tick-IsFresh :
    (o : LeaseKeeperOptions) (leases : List JobLease) (db : Db)
    → o.safety_margin_ms < o.lease_ttl_ms
    → (k : Kept) × ((tick o leases db).0 ≡ ok k)
      × All (λ l. o.at + o.safety_margin_ms < l.expires_at) k.leases
unfolding tick
tick-IsFresh o leases db short =
    Returns-ok (λ (k : Kept). All (λ l. o.at + o.safety_margin_ms < l.expires_at) k.leases) _
      (bind-Returns _ _ _ db
        (catch-Returns (λ (b : Bool). Unit {0}) _ _ db (any-After _) (λ x e. pure-Returns _ _ e tt))
        (λ b e h. renew_all-All o short leases e))

renew_all-IsSafe : (o : LeaseKeeperOptions) (leases : List JobLease) → IsSafe (renew_all o leases)
unfolding renew_all renew_one
renew_all-IsSafe o [] = pure-IsSafe _
renew_all-IsSafe o (lease ∷ leases) =
    bind-IsSafe _ _
      (catch-IsSafe _ _
        (bind-IsSafe _ _ (call-IsSafe _ (renew_lease-Makes lease o.at o.lease_ttl_ms))
          (λ l. pure-IsSafe _))
        (λ x. pure-IsSafe _))
      (λ r. bind-IsSafe _ _ (renew_all-IsSafe o leases) (λ rest. pure-IsSafe _))

-- A pass of the keeper writes by changes of the store alone.
pub tick-Change :
    (o : LeaseKeeperOptions) (leases : List JobLease) (db : Db) → Change db (tick o leases db).1
unfolding tick
tick-Change o leases db =
    safe_run
      (bind-IsSafe _ _
        (catch-IsSafe _ _
          (bind-IsSafe _ _ (call-IsSafe _ (heartbeat-Makes o.instance_id o.at))
            (λ row. pure-IsSafe _))
          (λ x. pure-IsSafe _))
        (λ b. renew_all-IsSafe o leases))
      db

-- ===== src/Runner/Store/Prog/Safe.antt =====
-- A program of store calls changes the database by changes of the store alone, whether or not it
-- ends in an error.
use waterx_predict_agent.Base.{Bool, true, false, if◌then◌else◌}
use waterx_predict_agent.Runner.Store.Db.{Db, Result, StoreError, ok, err}
use waterx_predict_agent.Runner.Store.Change.{Change, Makes, makes, fails, keep, and_then}
use waterx_predict_agent.Runner.Store.Prog.{
  Prog, call, read, pure, throw, catch, settle, rescue, next, ◌>>=◌,
}

pub data IsSafe {ℓ} {A : Type ℓ} (p : Prog A) : Type ℓ where
  safe : ((db : Db) → Change db (p db).1) → IsSafe p

pub safe_run {ℓ} : {A : Type ℓ} {p : Prog A} → IsSafe p → (db : Db) → Change db (p db).1
safe_run (safe h) = h

module _ {ℓ} {A : Type ℓ} where
  settle-Change : (db : Db) {r : Result (A × Db)} → Makes db r → Change db (settle db r).1
  settle-Change db (makes c) = c
  settle-Change db fails = keep

  rescue-Change :
      (db : Db) (r : Result A × Db) (handler : StoreError → Prog A)
      → Change db r.1
      → ((x : StoreError) → IsSafe (handler x))
      → Change db (rescue r handler).1
  rescue-Change db (ok a, e) handler c k = c
  rescue-Change db (err x, e) handler c k = and_then c (safe_run (k x) e)

  pub call-IsSafe :
      (method : Db → Result (A × Db)) → ((db : Db) → Makes db (method db)) → IsSafe (call method)
  unfolding call
  call-IsSafe method h = safe λ db. settle-Change db (h db)

  pub read-IsSafe : (query : Db → A) → IsSafe (read query)
  unfolding read
  read-IsSafe query = safe λ db. keep

  pub pure-IsSafe : (a : A) → IsSafe (pure a)
  unfolding pure
  pure-IsSafe a = safe λ db. keep

  pub throw-IsSafe : (x : StoreError) → IsSafe (throw {A = A} x)
  unfolding throw
  throw-IsSafe x = safe λ db. keep

  pub catch-IsSafe :
      (p : Prog A) (handler : StoreError → Prog A)
      → IsSafe p
      → ((x : StoreError) → IsSafe (handler x))
      → IsSafe (catch p handler)
  unfolding catch
  catch-IsSafe p handler (safe h) k = safe λ db. rescue-Change db (p db) handler (h db) k

  pub if-IsSafe : (b : Bool) {p q : Prog A} → IsSafe p → IsSafe q → IsSafe (if b then p else q)
  if-IsSafe true p q = p
  if-IsSafe false p q = q

module _ {ℓ κ} {A : Type ℓ} {B : Type κ} where
  next-Change :
      (db : Db) (r : Result A × Db) (f : A → Prog B)
      → Change db r.1
      → ((a : A) → IsSafe (f a))
      → Change db (next r f).1
  next-Change db (ok a, e) f c k = and_then c (safe_run (k a) e)
  next-Change db (err x, e) f c k = c

  pub bind-IsSafe :
      (p : Prog A) (f : A → Prog B) → IsSafe p → ((a : A) → IsSafe (f a)) → IsSafe (p >>= f)
  unfolding ◌>>=◌
  bind-IsSafe p f (safe h) k = safe λ db. next-Change db (p db) f (h db) k

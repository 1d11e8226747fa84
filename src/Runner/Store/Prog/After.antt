-- ===== src/Runner/Store/Prog/After.antt =====
-- A program that does not fail: what holds of the answer and the database that it leaves.
use waterx_predict_agent.Base.{subst}
use waterx_predict_agent.Runner.Store.Change.{ok-injective}
use waterx_predict_agent.Runner.Store.Gives.{Gives, gives, refuses}
use waterx_predict_agent.Base.{Bool, true, false, if◌then◌else◌, ◌≡◌, refl}
use waterx_predict_agent.Runner.Store.Db.{Db, Result, StoreError, ok, err}
use waterx_predict_agent.Runner.Store.Prog.{throw, read, Prog, call, pure, settle, next, ◌>>=◌}

-- Of a program.
pub data After {ℓ} {A : Type ℓ} (Q : A → Db → Type ℓ) : Result A × Db → Type ℓ where
  done : {a : A} {e : Db} → Q a e → After Q (ok a, e)
  failed : {x : StoreError} {e : Db} → After Q (err x, e)

module _ {ℓ} {A B : Type ℓ} (Q : A → Db → Type ℓ) where
  next-After :
      {R : B → Db → Type ℓ} (r : Result B × Db) (f : B → Prog A)
      → After R r
      → ((b : B) (e : Db) → R b e → After Q (f b e))
      → After Q (next r f)
  next-After (ok b, e) f (done h) k = k b e h
  next-After (err x, e) f failed k = failed

  pub bind-After :
      {R : B → Db → Type ℓ} (p : Prog B) (f : B → Prog A) (db : Db)
      → After R (p db)
      → ((b : B) (e : Db) → R b e → After Q (f b e))
      → After Q ((p >>= f) db)
  unfolding ◌>>=◌
  bind-After p f db h k = next-After (p db) f h k

module _ {ℓ} {A : Type ℓ} (Q : A → Db → Type ℓ) where
  settle-After : (db : Db) (r : Result (A × Db)) → Gives Q r → After Q (settle db r)
  settle-After db (ok (a, e)) (gives h) = done h
  settle-After db (err x) refuses = failed

  pub call-After :
      (method : Db → Result (A × Db)) (db : Db) → Gives Q (method db) → After Q (call method db)
  unfolding call
  call-After method db h = settle-After db (method db) h

  pub pure-After : (a : A) (db : Db) → Q a db → After Q (pure a db)
  unfolding pure
  pure-After a db h = done h

  pub throw-After : (x : StoreError) (db : Db) → After Q (throw x db)
  unfolding throw
  throw-After x db = failed

  pub if-After :
      (b : Bool) (p q : Prog A) (db : Db)
      → (b ≡ true → After Q (p db))
      → (b ≡ false → After Q (q db))
      → After Q ((if b then p else q) db)
  if-After true p q db h k = h refl
  if-After false p q db h k = k refl

  -- The answer of a program that did not fail.
  pub After-ok : (r : Result A × Db) (a : A) → After Q r → r.0 ≡ ok a → Q a r.1
  After-ok (ok b, e) a (done h) q = subst (λ x. Q x e) (ok-injective q) h
  After-ok (err x, e) a failed q = cc

-- A read leaves the database as it is.
pub read-After : {A : Type 0} (query : Db → A) (db : Db) → After (λ a e. e ≡ db) (read query db)
unfolding read
read-After query db = done refl

-- ===== src/Runner/Store/Prog.antt =====
-- Code that makes several calls of packages/runner/src/store.ts, each its own transaction: an error
-- keeps what was committed before it.
pub mod Safe
pub mod After
use waterx_predict_agent.Runner.Store.Db.{Db, Result, StoreError, ok, err}

abbrev pub Prog {ℓ} : Type ℓ → Type ℓ
Prog A = Db → Result A × Db

module _ {ℓ} {A : Type ℓ} where
  abbrev pub settle : Db → Result (A × Db) → Result A × Db
  settle db (ok (a, e)) = (ok a, e)
  settle db (err x) = (err x, db)

  abbrev pub rescue : Result A × Db → (StoreError → Prog A) → Result A × Db
  rescue (ok a, e) handler = (ok a, e)
  rescue (err x, e) handler = handler x e

  -- `await store.method(…)`.
  unfoldable pub call : (Db → Result (A × Db)) → Prog A
  call method db = settle db (method db)

  -- A read, which fails on nothing.
  unfoldable pub read : (Db → A) → Prog A
  read query db = (ok (query db), db)

  unfoldable pub pure : A → Prog A
  pure a db = (ok a, db)

  unfoldable pub throw : StoreError → Prog A
  throw x db = (err x, db)

  -- `try { … } catch (error) { … }`.
  unfoldable pub catch : Prog A → (StoreError → Prog A) → Prog A
  catch p handler db = rescue (p db) handler

abbrev pub next {ℓ κ} : {A : Type ℓ} {B : Type κ} → Result A × Db → (A → Prog B) → Result B × Db
next (ok a, e) f = f a e
next (err x, e) f = (err x, e)

infixl 5 ◌>>=◌ ◌>>◌
unfoldable pub ◌>>=◌ {ℓ κ} : {A : Type ℓ} {B : Type κ} → Prog A → (A → Prog B) → Prog B
◌>>=◌ p f db = next (p db) f

abbrev pub ◌>>◌ {ℓ κ} : {A : Type ℓ} {B : Type κ} → Prog A → Prog B → Prog B
p >> q = p >>= λ _. q

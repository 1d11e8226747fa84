-- ===== src/Runner/Strategy/Driver/Keys.antt =====
-- The keys under which `execute` of packages/runner/src/strategy/driver.ts sends, and the attempt that
-- `beginSideEffect` of the store leaves in the ledger.
use waterx_predict_agent.Base.{
  subst, ℕ, ◌==◌, ==_iff, ==_refl, true, false, Bool-cases, inl, inr, Option, none, some,
  Option-cases, List, [], ◌∷◌, find, find_test, All, All-map, All-both, All-find, All-select,
  All-sort_by, Distinct, ◌≡◌, refl, sym, ◌∙◌, some_injective, arith,
}
use waterx_predict_agent.Runner.Job.{JobLeg, SideEffectAttempt, SideEffectKind, kind_eq}
use waterx_predict_agent.Runner.Store.Db.{Db, find_leg, is_leg, is_open_on}
use waterx_predict_agent.Runner.Store.Change.{guard-true, or_fail-some}
use waterx_predict_agent.Runner.Store.Gives.{Gives, gives, Gives-bind}
use waterx_predict_agent.Runner.Store.Legs.{list_legs}
use waterx_predict_agent.Runner.Store.Effects.{
  BeginSideEffectInput, begin_side_effect, insert_attempt, replay,
}
use waterx_predict_agent.Runner.Store.Invariant.{IsKeyAt, IsKeyed, IsLedger, same_leg}
use waterx_predict_agent.Runner.Strategy.World.Backed.{Has, Has-map, Has-find}
use waterx_predict_agent.Runner.Strategy.Driver.Create.{key_in}

-- Each row is the one that its job and index find.
abbrev IsFound : List JobLeg → JobLeg → Type 0
IsFound legs l = find (is_leg l.job_id l.leg_index) legs ≡ some l

distinct-IsFound : (legs : List JobLeg) → Distinct same_leg legs → All (IsFound legs) legs
distinct-IsFound [] d = tt
distinct-IsFound (x ∷ xs) d = (
  rw (==_refl x.job_id, ==_refl x.leg_index),
  All-both (λ l f e. let other : is_leg l.job_id l.leg_index x ≡ false = e in rw other f) xs
      (distinct-IsFound xs d.1) d.0,
)

-- The keys that a list of rows names are the ones on disk.
abbrev pub HasKeys : ℕ → List JobLeg → List JobLeg → Type 0
HasKeys id rows legs = (i key : ℕ) → key_in i rows ≡ some key → IsKeyAt legs id i key

found_at :
    (id i : ℕ) (l : JobLeg) (legs : List JobLeg)
    → l.job_id ≡ id
    → l.leg_index ≡ i
    → IsFound legs l
    → IsKeyAt legs id i l.idempotency_key
found_at id i l legs p q f = record { leg = l; found = rw (← p, ← q) f; same = refl }

found-HasKeys :
    (id : ℕ) (rows legs : List JobLeg)
    → All (λ l. IsFound legs l × (l.job_id ≡ id)) rows
    → HasKeys id rows legs
unfolding key_in
found-HasKeys id [] legs h i key e = cc
found-HasKeys id (l ∷ ls) legs h i key e = elim (Option-cases (key_in i ls)) [
  | inl q ↦ elim (Bool-cases (l.leg_index == i)) [
    | inl t ↦
        let k : some l.idempotency_key ≡ some key = rw (q, t) at e in
        rw (← some_injective k) (found_at id i l legs h.0.1 ((==_iff _ _).0 t) h.0.0)
    | inr t ↦ let bad : none ≡ some key = rw (q, t) at e in cc
  ]
  | inr (k, q) ↦
      let same : some k ≡ some key = rw q at e in found-HasKeys id ls legs h.1 i key (q ∙ same)
]

pub list_legs-HasKeys : (id : ℕ) (db : Db) → IsLedger db → HasKeys id (list_legs id db) db.legs
unfolding list_legs
list_legs-HasKeys id db h = found-HasKeys id _ db.legs (
    All-sort_by _ _ _ (
      All-map (λ l p. (p.0, (==_iff _ _).0 p.1)) _
        (All-select _ (λ (l : JobLeg). l.job_id == id) db.legs (distinct-IsFound db.legs h.legs))))

-- An attempt of that request, under the key of its leg.
pub record IsBegun (input : BeginSideEffectInput) (legs : List JobLeg) (a : SideEffectAttempt)
    : Type 0 where
  pub job_id : a.job_id ≡ input.lease.job_id
  pub leg_index : a.leg_index ≡ input.leg_index
  pub kind : a.kind ≡ input.kind
  pub request_fingerprint : a.request_fingerprint ≡ input.request_fingerprint
  pub keyed : IsKeyed legs a

kind_eq_lem : (a b : SideEffectKind) → kind_eq a b ≡ true → a ≡ b
kind_eq_lem SideEffectKind.create_execution SideEffectKind.create_execution h = refl
kind_eq_lem SideEffectKind.submit_execution SideEffectKind.submit_execution h = refl
kind_eq_lem SideEffectKind.reconcile_execution SideEffectKind.reconcile_execution h = refl
kind_eq_lem SideEffectKind.create_execution SideEffectKind.submit_execution h = cc
kind_eq_lem SideEffectKind.create_execution SideEffectKind.reconcile_execution h = cc
kind_eq_lem SideEffectKind.submit_execution SideEffectKind.create_execution h = cc
kind_eq_lem SideEffectKind.submit_execution SideEffectKind.reconcile_execution h = cc
kind_eq_lem SideEffectKind.reconcile_execution SideEffectKind.create_execution h = cc
kind_eq_lem SideEffectKind.reconcile_execution SideEffectKind.submit_execution h = cc

module _ (input : BeginSideEffectInput) where
  -- The ledger has the attempt.
  abbrev pub IsOpened : SideEffectAttempt → Db → Type 0
  IsOpened row e = Has (IsBegun input e.legs) e.effects

  replay-Gives :
      (attempt : SideEffectAttempt) (db : Db)
      → IsLedger db
      → find (is_open_on input.lease.job_id input.leg_index) db.effects ≡ some attempt
      → Gives IsOpened (replay input attempt db)
  unfolding replay
  replay-Gives attempt db h f = Gives-bind _ _ _ λ u kind. Gives-bind _ _ _ λ v print.
      let t = find_test (is_open_on input.lease.job_id input.leg_index) db.effects f in
      let begun : IsBegun input db.legs attempt = record {
        job_id = ground (arith, t);
        leg_index = ground (arith, t);
        kind = kind_eq_lem _ _ (guard-true _ _ kind);
        request_fingerprint = (==_iff _ _).0 (guard-true _ _ print);
        keyed = (All-find (IsKeyed db.legs) _ db.effects h.keyed f).0;
      } in
      gives (
        Has-map (λ x. x ≡ attempt) (IsBegun input db.legs) db.effects
          (λ x e. subst (IsBegun input db.legs) (sym e) begun) (Has-find _ db.effects f))

  insert-Gives :
      (leg : JobLeg) (db : Db)
      → find_leg input.lease.job_id input.leg_index db ≡ some leg
      → Gives IsOpened (insert_attempt input leg db)
  unfolding insert_attempt
  insert-Gives leg db f = Gives-bind _ _ _ λ u fresh. Gives-bind _ _ _ λ row again. gives (
      inl (record {
        job_id = refl;
        leg_index = refl;
        kind = refl;
        request_fingerprint = refl;
        keyed = record { leg = leg; found = f; same = refl };
      }))

  -- A begun side effect is in the ledger, whether it is new or a replay of the open one.
  pub begin_side_effect-Gives :
      (db : Db) → IsLedger db → Gives IsOpened (begin_side_effect input db)
  unfolding begin_side_effect
  begin_side_effect-Gives db h = Gives-bind _ _ _ λ u held. Gives-bind _ _ _ λ leg known.
      begun leg (or_fail-some _ _ known)
        (find (is_open_on input.lease.job_id input.leg_index) db.effects) refl
    where
      begun :
          (leg : JobLeg)
          → find_leg input.lease.job_id input.leg_index db ≡ some leg
          → (opened : Option SideEffectAttempt)
          → find (is_open_on input.lease.job_id input.leg_index) db.effects ≡ opened
          → Gives IsOpened (elim opened [
            | some attempt ↦ replay input attempt db
            | none ↦ insert_attempt input leg db
          ])
      begun leg f none e = insert-Gives leg db f
      begun leg f (some attempt) e = replay-Gives attempt db h e

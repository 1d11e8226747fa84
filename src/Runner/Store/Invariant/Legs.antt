-- ===== src/Runner/Store/Invariant/Legs.antt =====
-- Legs, the side-effect ledger and the mandate rows, through every history.
use waterx_predict_agent.Base.{
  ℕ, Bool, true, false, not, ◌&&◌, Option, none, some, List, ◌∷◌, All-map, All-every, All-update,
  any-false, find-none, find-update, Distinct, Distinct-update, Distinct-update_one, ◌≡◌, refl, sym,
  edited, if◌then◌else◌, ◌∙◌, ap, arith, inl, inr, Bool-cases, find, update,
}
use mathlib.Core.Option
use mathlib.Core.Path.{ap₂}
use waterx_predict_agent.Runner.Job.{JobLeg, SideEffectAttempt, SideEffectOutcome}
use waterx_predict_agent.Runner.Secrets.{Json}
use waterx_predict_agent.Runner.Store.Db.{Db, empty_db, is_leg, is_open_on, is_attempt, is_id}
use waterx_predict_agent.Runner.Store.Legs.{LegPatch, patched, execution_taken}
use waterx_predict_agent.Runner.Store.Effects.{closed}
use waterx_predict_agent.Runner.Store.Change.{
  Change, keep, and_then, instances_set, job_created, job_touched, job_claimed, job_moved,
  leg_added, leg_patched, attempt_opened, attempt_closed, cursors_set, spend_added,
}
use waterx_predict_agent.Runner.Store.Run.{Call, run}
use waterx_predict_agent.Runner.Store.Run.Refinement.{run-keeps}
use waterx_predict_agent.Runner.Store.Invariant.{
  IsKeyAt, same_leg, same_key, same_execution, both_open, IsKeyed, IsLedger,
}

same_leg_of :
    (id i : ℕ) (x y : JobLeg) → is_leg id i x ≡ true → is_leg id i y ≡ true → same_leg x y ≡ true
same_leg_of id i x y p q = ground arith

patched-executions :
    (id i : ℕ) (patch : LegPatch) (at : ℕ) (legs : List JobLeg) (e : Option ℕ)
    → patch.execution_id ≡ e
    → execution_taken id i e legs ≡ false
    → Distinct same_leg legs
    → Distinct same_execution legs
    → Distinct same_execution (update (is_leg id i) (patched patch at) legs)
patched-executions id i patch at legs none p free d h =
    Distinct-update same_execution (is_leg id i) (patched patch at) legs (λ a b q s. rw p s)
      (λ a b q s. rw p s) h
patched-executions id i patch at legs (some e) p free d h =
    Distinct-update_one (λ l. (not (is_leg id i l) && is_id e l.execution_id) ≡ false) same_leg
      same_execution (is_leg id i) (patched patch at) legs (same_leg_of id i)
      (λ x y q s r. rw p (ground arith)) (λ x y q s r. rw p (ground arith)) (any-false _ legs free)
      d h

IsKeyAt-added :
    (l : JobLeg) (legs : List JobLeg) (id i key : ℕ)
    → find (is_leg l.job_id l.leg_index) legs ≡ none
    → IsKeyAt legs id i key
    → IsKeyAt (l ∷ legs) id i key
IsKeyAt-added l legs id i key absent k = elim (Bool-cases (is_leg id i l)) [
  | inl e ↦
      let job : l.job_id ≡ id = ground arith in
      let index : l.leg_index ≡ i = ground arith in
      let bad : none ≡ some k.leg =
        sym absent ∙ ap₂ (λ j n. find (is_leg j n) legs) job index ∙ k.found in
      cc
  | inr e ↦ record { leg = k.leg; found = rw e k.found; same = k.same }
]

IsKeyAt-patched :
    (id i : ℕ) (patch : LegPatch) (at : ℕ) (legs : List JobLeg) (id' i' key : ℕ)
    → IsKeyAt legs id' i' key
    → IsKeyAt (update (is_leg id i) (patched patch at) legs) id' i' key
IsKeyAt-patched id i patch at legs id' i' key k = record {
  leg = edited (is_leg id i) (patched patch at) k.leg;
  found =
      find-update (is_leg id i) (is_leg id' i') (patched patch at) legs (λ l e. refl)
      ∙ ap (Option.map (edited (is_leg id i) (patched patch at))) k.found;
  same = k.same ∙ same_key_after (is_leg id i k.leg) k.leg;
}
  where
    same_key_after :
        (b : Bool) (l : JobLeg)
        → l.idempotency_key ≡ (if b then patched patch at l else l).idempotency_key
    same_key_after true l = refl
    same_key_after false l = refl

-- A key that is on disk stays with its leg.
pub Change-IsKeyAt :
    {db e : Db} (id i key : ℕ) → Change db e → IsKeyAt db.legs id i key → IsKeyAt e.legs id i key
Change-IsKeyAt id i key keep h = h
Change-IsKeyAt id i key (and_then c d) h = Change-IsKeyAt id i key d (Change-IsKeyAt id i key c h)
Change-IsKeyAt id i key (leg_added {db} l absent free fresh) h =
    IsKeyAt-added l db.legs id i key absent h
Change-IsKeyAt id i key (leg_patched {db} id' i' patch at free) h =
    IsKeyAt-patched id' i' patch at db.legs id i key h
Change-IsKeyAt id i key (attempt_opened a l found k opened fresh) h = h
Change-IsKeyAt id i key (attempt_closed n outcome at detail) h = h
Change-IsKeyAt id i key (spend_added r reads) h = h
Change-IsKeyAt id i key (instances_set rows) h = h
Change-IsKeyAt id i key (job_created j t absent n e) h = h
Change-IsKeyAt id i key (job_touched p f touch) h = h
Change-IsKeyAt id i key (job_claimed p f n job found live claim) h = h
Change-IsKeyAt id i key (job_moved n job to at t found edge leg e) h = h
Change-IsKeyAt id i key (cursors_set rows forward) h = h

closed-IsKeyed :
    (legs : List JobLeg) (outcome : SideEffectOutcome) (at : ℕ) (detail : Option Json)
    (a : SideEffectAttempt)
    → IsKeyed legs a
    → IsKeyed legs (closed outcome at detail a)
closed-IsKeyed legs outcome at detail a k = record { leg = k.leg; found = k.found; same = k.same }

pub Change-IsLedger : {db e : Db} → Change db e → IsLedger db → IsLedger e
Change-IsLedger keep h = h
Change-IsLedger (and_then c d) h = Change-IsLedger d (Change-IsLedger c h)
Change-IsLedger (leg_added {db} l absent free fresh) h = record {
  legs = (
    All-map (λ m q. ground arith) db.legs (find-none (is_leg l.job_id l.leg_index) db.legs absent),
    h.legs,
  );
  keys = (All-map (λ m q. ground arith) db.legs (any-false _ db.legs free), h.keys);
  executions = (All-every (λ m. rw fresh) db.legs, h.executions);
  open_attempts = h.open_attempts;
  keyed = All-map (λ a k. IsKeyAt-added l db.legs _ _ _ absent k) db.effects h.keyed;
  amounts = h.amounts;
}
Change-IsLedger (leg_patched {db} id i patch at free) h = record {
  legs =
      Distinct-update same_leg (is_leg id i) (patched patch at) db.legs (λ a b e q. q)
        (λ a b e q. q) h.legs;
  keys =
      Distinct-update same_key (is_leg id i) (patched patch at) db.legs (λ a b e q. q)
        (λ a b e q. q) h.keys;
  executions =
      patched-executions id i patch at db.legs patch.execution_id refl free h.legs h.executions;
  open_attempts = h.open_attempts;
  keyed = All-map (λ a k. IsKeyAt-patched id i patch at db.legs _ _ _ k) db.effects h.keyed;
  amounts = h.amounts;
}
Change-IsLedger (attempt_opened {db} a l found key opened fresh) h = record {
  legs = h.legs;
  keys = h.keys;
  executions = h.executions;
  open_attempts = (
    All-map (λ b q. ground arith) db.effects
        (find-none (is_open_on a.job_id a.leg_index) db.effects opened),
    h.open_attempts,
  );
  keyed = (record { leg = l; found = found; same = key }, h.keyed);
  amounts = h.amounts;
}
Change-IsLedger (attempt_closed {db} id outcome at detail) h = record {
  legs = h.legs;
  keys = h.keys;
  executions = h.executions;
  open_attempts =
      Distinct-update both_open (is_attempt id) (closed outcome at detail) db.effects
        (λ a b e q. ground arith) (λ a b e q. ground arith) h.open_attempts;
  keyed =
      All-update (is_attempt id) (closed outcome at detail) db.effects
        (λ a e k. closed-IsKeyed db.legs outcome at detail a k) (λ a e k. k) h.keyed;
  amounts = h.amounts;
}
Change-IsLedger (spend_added r reads) h = record {
  legs = h.legs;
  keys = h.keys;
  executions = h.executions;
  open_attempts = h.open_attempts;
  keyed = h.keyed;
  amounts = (reads, h.amounts);
}
Change-IsLedger (instances_set rows) h = record {
  legs = h.legs;
  keys = h.keys;
  executions = h.executions;
  open_attempts = h.open_attempts;
  keyed = h.keyed;
  amounts = h.amounts;
}
Change-IsLedger (job_created j t absent n e) h = record {
  legs = h.legs;
  keys = h.keys;
  executions = h.executions;
  open_attempts = h.open_attempts;
  keyed = h.keyed;
  amounts = h.amounts;
}
Change-IsLedger (job_touched p f touch) h = record {
  legs = h.legs;
  keys = h.keys;
  executions = h.executions;
  open_attempts = h.open_attempts;
  keyed = h.keyed;
  amounts = h.amounts;
}
Change-IsLedger (job_claimed p f id job found live claim) h = record {
  legs = h.legs;
  keys = h.keys;
  executions = h.executions;
  open_attempts = h.open_attempts;
  keyed = h.keyed;
  amounts = h.amounts;
}
Change-IsLedger (job_moved id job to at t found edge leg e) h = record {
  legs = h.legs;
  keys = h.keys;
  executions = h.executions;
  open_attempts = h.open_attempts;
  keyed = h.keyed;
  amounts = h.amounts;
}
Change-IsLedger (cursors_set rows forward) h = record {
  legs = h.legs;
  keys = h.keys;
  executions = h.executions;
  open_attempts = h.open_attempts;
  keyed = h.keyed;
  amounts = h.amounts;
}

-- After any history of calls, refused ones included: no two legs share a job and an index, an
-- idempotency key or an execution; no leg has two unresolved attempts; every attempt carries the
-- key of a leg on disk; and every committed amount reads as a number.
pub run-IsLedger : (cs : List Call) → IsLedger (run empty_db cs)
run-IsLedger cs =
    run-keeps IsLedger (λ db e. Change-IsLedger) empty_db cs
      (record {
        legs = tt;
        keys = tt;
        executions = tt;
        open_attempts = tt;
        keyed = tt;
        amounts = tt;
      })

-- ===== src/Runner/Scheduler/Ticks.antt =====
-- What ticks of packages/runner/src/scheduler.ts do to the store, the requests and the leases.
use waterx_predict_agent.Base.{
  ℕ, suc, ◌+◌, ◌==◌, ltb, ◌≤◌, max, if◌then◌else◌, Bool, true, false, not, Option, none, some, List,
  [], ◌∷◌, find, select, update, insert_by, is_some, length, length-append, Bool-cases, inl, inr,
  ◌≡◌, refl, ◌∙◌, ap, arith, All,
}
use waterx_predict_agent.Runner.StateMachine.{is_terminal_job_state}
use waterx_predict_agent.Runner.Job.{JobLease, JobRecord}
use waterx_predict_agent.Runner.Store.Db.{Result, ok, err}
use waterx_predict_agent.Runner.Store.Change.JobMethods.{claim_job-Makes}
use waterx_predict_agent.Runner.Store.Invariant.{IsLedger}
use waterx_predict_agent.Runner.Strategy.Cancel.{forget, lease_on}
use waterx_predict_agent.Runner.Supervisor.{is_lease_lost}
use waterx_predict_agent.Runner.Strategy.World.{World, ◌>>=◌}
use waterx_predict_agent.Runner.Strategy.World.Reads.{weaken-Ran}
use waterx_predict_agent.Runner.Strategy.World.Ran.{
  Ran, Ran-Steps, Ran-ok, Steps-IsAccounted, IsAccounted, Steps-Change, bind-Ran, pure-Ran, if-Ran,
  ask-Ran, query-Ran, store-Ran, attempt-Ran,
}
use waterx_predict_agent.Runner.Store.Invariant.Legs.{Change-IsLedger}
use waterx_predict_agent.Runner.Strategy.Driver.{DriveResult}
use waterx_predict_agent.Runner.Strategy.Driver.Told.{any-Gives}
use waterx_predict_agent.Runner.Strategy.Driver.Accounts.{drive_job-Ran, IsOneOrder, accounted_keys}
use waterx_predict_agent.Runner.Scheduler.{
  JobSchedulerOptions, SchedulerTickReport, hold, held, Claiming, after_claim, defer, Ticking,
  after_pass, claim_one, claim_each, claim, pass_under, pass, pass_each, claim_if, run_tick,
}

length-update :
    {A : Type 0} (p : A → Bool) (f : A → A) (xs : List A) → length (update p f xs) ≡ length xs
length-update p f [] = refl
length-update p f (x ∷ xs) = ap suc (length-update p f xs)

length-insert_by :
    (before : ℕ → ℕ → Bool) (x : ℕ) (xs : List ℕ) → length (insert_by before x xs) ≡ suc (length xs)
length-insert_by before x [] = refl
length-insert_by before x (y ∷ ys) = elim (Bool-cases (before x y)) [
  | inl e ↦ rw e
  | inr e ↦ rw e (ap suc (length-insert_by before x ys))
]

length-held : (leases : List JobLease) → length (held leases) ≡ length leases
length-held [] = refl
length-held (l ∷ ls) = length-insert_by ltb l.job_id _ ∙ ap suc (length-held ls)

length-hold : (l : JobLease) (leases : List JobLease) → length (hold l leases) ≤ length leases + 1
length-hold l leases =
    elim (Bool-cases (is_some (find (λ (x : JobLease). x.job_id == l.job_id) leases))) [
      | inl e ↦
          rw e (
            omega (arith, length-update (λ (x : JobLease). x.job_id == l.job_id) (λ old. l) leases))
      | inr e ↦ rw e (omega (arith, length-append leases (l ∷ [])))
    ]

length-select : {A : Type 0} (p : A → Bool) (xs : List A) → length (select p xs) ≤ length xs
length-select p [] = omega arith
length-select p (x ∷ xs) = elim (Bool-cases (p x)) [
  | inl e ↦ rw e (omega (arith, length-select p xs))
  | inr e ↦ rw e (omega (arith, length-select p xs))
]

-- There is room for what is held.
abbrev IsRoomy : ℕ → Claiming → Type 0
IsRoomy most c = length c.leases + c.room ≤ most

after_claim-IsRoomy :
    (id most : ℕ) (answer : Result (Option JobLease)) (c : Claiming)
    → (c.room == 0) ≡ false
    → IsRoomy most c
    → IsRoomy most (after_claim id answer c)
after_claim-IsRoomy id most (ok (some lease)) c room h =
    let grown = length-hold lease c.leases in
    let left : 1 ≤ c.room = ground (arith, room) in omega (arith, grown, left, h)
after_claim-IsRoomy id most (ok none) c room h = h
after_claim-IsRoomy id most (err x) c room h = h

forget_if :
    (b : Bool) (id : ℕ) (leases : List JobLease)
    → length (if b then forget id leases else leases) ≤ length leases
forget_if true id leases = length-select _ leases
forget_if false id leases = omega arith

after_pass-length :
    (id most : ℕ) (r : Result DriveResult) (t : Ticking)
    → length t.leases ≤ most
    → length (after_pass id r t).leases ≤ most
after_pass-length id most (ok result) t h = elim (Bool-cases (is_terminal_job_state result.to)) [
  | inl e ↦ rw e (omega (arith, length-select (λ (l : JobLease). not (l.job_id == id)) t.leases, h))
  | inr e ↦ rw e h
]
after_pass-length id most (err x) t h = omega (arith, forget_if (is_lease_lost x) id t.leases, h)

module _ (o : JobSchedulerOptions) where
  abbrev IsTick : {A : Type 0} → (A → Type 0) → World → Result A × World → Type 0
  IsTick Q w r = Ran o.driver (λ a v. Q a) w r

  claim_one-Ran :
      (at most : ℕ) (job : JobRecord) (c : Claiming) (w : World)
      → (c.room == 0) ≡ false
      → IsRoomy most c
      → IsTick (IsRoomy most) w (claim_one o at job c w)
  unfolding claim_one
  claim_one-Ran at most job c w room h =
      bind-Ran o.driver _ _ _
        (attempt-Ran o.driver w _ (store-Ran o.driver w _ _ (claim_job-Makes _ w.db) (any-Gives _)))
        (λ answer v s u.
          pure-Ran o.driver _ v _ (after_claim-IsRoomy job.job_id most answer c room h))

  claim_each-Ran :
      (at most : ℕ) (jobs : List JobRecord) (c : Claiming) (w : World)
      → IsRoomy most c
      → IsTick (IsRoomy most) w (claim_each o at jobs c w)
  unfolding claim_each
  claim_each-Ran at most [] c w h = pure-Ran o.driver _ w _ h
  claim_each-Ran at most (job ∷ rest) c w h =
      if-Ran o.driver _ w (c.room == 0) _ (claim_one o at job c >>= λ d. claim_each o at rest d)
        (λ e. claim_each-Ran at most rest (defer c) w h)
        (λ e.
          bind-Ran o.driver _ _ _ (claim_one-Ran at most job c w e h)
            (λ d v s k. claim_each-Ran at most rest d v k))

  claim_if-Ran :
      (b : Bool) (at : ℕ) (leases : List JobLease) (w : World)
      → IsTick (λ c. length c.leases ≤ max o.max_jobs (length leases)) w (claim_if o b at leases w)
  unfolding claim
  claim_if-Ran false at leases w = pure-Ran o.driver _ w _ (omega arith)
  claim_if-Ran true at leases w =
      bind-Ran o.driver _ _ _ (query-Ran o.driver w _) (λ candidates v s e.
        weaken-Ran o.driver _ (λ c u k. omega (arith, k))
          (claim_each-Ran at (max o.max_jobs (length leases)) _ _ v
            (omega (arith, length-held leases))))

  pass-Ran :
      (id most : ℕ) (t : Ticking) (w : World)
      → IsLedger w.db
      → length t.leases ≤ most
      → IsTick (λ t'. length t'.leases ≤ most) w (pass o id t w)
  unfolding pass
  pass-Ran id most t w ledger h = under (lease_on id t.leases)
    where
      under :
          (lease : Option JobLease)
          → IsTick (λ t'. length t'.leases ≤ most) w (pass_under o id lease t w)
      under none = pure-Ran o.driver _ w _ h
      under (some lease) = bind-Ran o.driver _ _ _ (ask-Ran o.driver w _) (λ at v s e.
          bind-Ran o.driver _ _ _ (attempt-Ran o.driver v _ (drive_job-Ran _ v (rw e ledger)))
            (λ r u k x. pure-Ran o.driver _ u _ (after_pass-length id most r t h)))

  pass_each-Ran :
      (ids : List ℕ) (most : ℕ) (t : Ticking) (w : World)
      → IsLedger w.db
      → length t.leases ≤ most
      → IsTick (λ t'. length t'.leases ≤ most) w (pass_each o ids t w)
  unfolding pass_each
  pass_each-Ran [] most t w ledger h = pure-Ran o.driver _ w _ h
  pass_each-Ran (id ∷ rest) most t w ledger h =
      bind-Ran o.driver _ _ _ (pass-Ran id most t w ledger h) (λ t' v s k.
        pass_each-Ran rest most t' v (Change-IsLedger (Steps-Change o.driver s) ledger) k)

  run_tick-Ran :
      (leases : List JobLease) (w : World)
      → IsLedger w.db
      → IsTick (λ a. length a.1 ≤ max o.max_jobs (length leases)) w (run_tick o leases w)
  unfolding run_tick
  run_tick-Ran leases w ledger = bind-Ran o.driver _ _ _ (ask-Ran o.driver w _) (λ at w₁ s₁ e₁.
      bind-Ran o.driver _ _ _ (ask-Ran o.driver w₁ _) (λ admitting w₂ s₂ e₂.
        bind-Ran o.driver _ _ _ (claim_if-Ran admitting at leases w₂) (λ c w₃ s₃ room.
          let kept = Change-IsLedger (Steps-Change o.driver s₃) (rw (e₂, e₁) ledger) in
          bind-Ran o.driver _ _ _ (pass_each-Ran (held c.leases) _ _ w₃ kept room)
            (λ t w₄ s₄ k. pure-Ran o.driver _ w₄ _ k))))

-- A tick over a sound ledger that returns leaves the Runner with at most `max_jobs` leases, or as many
-- as it had where that is more.
pub run_tick-bound :
    (o : JobSchedulerOptions) (leases after : List JobLease) (report : SchedulerTickReport)
    (w : World)
    → IsLedger w.db
    → (run_tick o leases w).0 ≡ ok (report, after)
    → length after ≤ max o.max_jobs (length leases)
run_tick-bound o leases after report w ledger h =
    Ran-ok o.driver (run_tick o leases w) (report, after) (run_tick-Ran o leases w ledger) h

-- A tick over a sound ledger that accounts for what was sent so far leaves one that accounts for what
-- was sent by then, and all the creates that ever left for one leg of one job carry one key, across
-- all the jobs of the tick and whichever of its passes fail.
pub run_tick-IsOneOrder :
    (o : JobSchedulerOptions) (leases : List JobLease) (w : World)
    → IsLedger w.db
    → IsAccounted o.driver w
    → IsAccounted o.driver (run_tick o leases w).1
      × All (λ s. All (IsOneOrder s) (run_tick o leases w).1.sent) (run_tick o leases w).1.sent
run_tick-IsOneOrder o leases w ledger h =
    let steps = Ran-Steps o.driver (run_tick-Ran o leases w ledger) in
    let accounted = Steps-IsAccounted o.driver steps h in
    (
      accounted,
      accounted_keys o.driver (run_tick o leases w).1
          (Change-IsLedger (Steps-Change o.driver steps) ledger) accounted,
    )

-- ===== src/Runner/Reconciler/Report.antt =====
-- What a reconcile pass of packages/runner/src/reconciler.ts reports, against the job table.
use waterx_predict_agent.Base.{
  Bool-cases, inl, inr, any, not, ap, arith, subst, ℕ, Option, none, some, List, Bool, true, false,
  ◌≡◌, refl, ◌∙◌, ◌||◌,
}
use waterx_predict_agent.Runner.StateMachine.{JobState, state_eq}
use waterx_predict_agent.Runner.StateMachine.Edges.{state_eq_iff}
use waterx_predict_agent.Runner.Job.{JobRecord, JobLeg, SideEffectAttempt}
use waterx_predict_agent.Runner.Store.Db.{Db, Result, ok, err, find_job}
use waterx_predict_agent.Runner.Store.Jobs.{get_job}
use waterx_predict_agent.Runner.Store.Legs.{LegPatch}
use waterx_predict_agent.Runner.Store.Gives.{
  Stands, transition-Gives, update_leg-Gives, complete_side_effect-Gives,
}
use waterx_predict_agent.Runner.Store.Prog.{read, ◌>>=◌}
use waterx_predict_agent.Runner.Store.Prog.After.{
  read-After, throw-After, After, done, failed, bind-After, call-After, pure-After, if-After,
  After-ok,
}
use waterx_predict_agent.Runner.Reconciler.{
  ReconcileDisposition, is_resolved, ExecutionRead, TerminalStatus, ReconcileResult, Move,
  never_sent, conclude, stuck, ask, is_empty_patch,
}
use waterx_predict_agent.Runner.Reconciler.Pass.{
  ReconcileJobOptions, conclude_job, never_sent_answer, retreat, apply_leg, after_read, make_move,
  start, reconcile_from, reconcile_known, reconcile_job,
}

module _ (o : ReconcileJobOptions) where
  -- The report names the state in which the job stands, which is RECONCILING where a leg may be
  -- replayed.
  abbrev IsTrue : ReconcileResult → Db → Type 0
  IsTrue r e =
      Stands o.lease.job_id r.to e
      × (r.disposition ≡ ReconcileDisposition.replayable → r.to ≡ JobState.reconciling)

  conclude_job-IsTrue :
      (from : JobState) (legs : List JobLeg) (v : Option TerminalStatus) (i : Option ℕ) (db : Db)
      → After IsTrue (conclude_job o from legs v i db)
  unfolding conclude_job
  conclude_job-IsTrue from legs v i db =
      bind-After IsTrue _ _ db (call-After _ _ db (transition-Gives _ db))
        (λ row e (same, there). pure-After IsTrue _ e (rw same there, λ d. cc))

  never_sent-IsTrue :
      (from : JobState) (legs : List JobLeg) (i : ℕ) (under_way : Bool) (db : Db)
      → Stands o.lease.job_id JobState.reconciling db
      → After IsTrue (never_sent_answer o from legs i under_way db)
  unfolding never_sent_answer
  never_sent-IsTrue from legs i true db h = pure-After IsTrue _ db (h, λ d. refl)
  never_sent-IsTrue from legs i false db h =
      bind-After IsTrue _ _ db (call-After _ _ db (transition-Gives _ db))
        (λ row e (same, there). pure-After IsTrue _ e (there, λ d. cc))

  retreat-IsTrue :
      (from : JobState) (i : ℕ) (opened : Option SideEffectAttempt) (db : Db)
      → After IsTrue (retreat o from i opened db)
  unfolding retreat
  retreat-IsTrue from i opened db =
      bind-After IsTrue _ _ db (call-After _ _ db (transition-Gives _ db))
        (λ row e (same, there). pure-After IsTrue _ e (there, λ d. cc))

  apply_leg-jobs :
      (i : ℕ) (opened : Option SideEffectAttempt) (r : ExecutionRead) (patch : LegPatch) (db : Db)
      → After (λ u e. e.jobs ≡ db.jobs) (apply_leg o i opened r patch db)
  unfolding apply_leg
  apply_leg-jobs i (some opened) r patch db =
      bind-After _ _ _ db (call-After _ _ db (complete_side_effect-Gives _ db))
        (λ row e same. pure-After _ _ e same)
  apply_leg-jobs i none r patch db =
      if-After _ (is_empty_patch patch) _ _ db (λ h. pure-After _ _ db refl)
        (λ h.
          bind-After _ _ _ db (call-After _ _ db (update_leg-Gives o.lease i patch o.at db))
            (λ row e same. pure-After _ _ e same))

  still :
      (db e : Db)
      → e.jobs ≡ db.jobs
      → Stands o.lease.job_id JobState.reconciling db
      → Stands o.lease.job_id JobState.reconciling e
  still db e same (k, found, stands) = (k, rw same found, stands)

  after_read-IsTrue :
      (from : JobState) (i x : ℕ) (opened : Option SideEffectAttempt) (r : ExecutionRead)
      (v : Option TerminalStatus) (db : Db)
      → Stands o.lease.job_id JobState.reconciling db
      → After IsTrue (after_read o from i x opened r v db)
  unfolding after_read
  after_read-IsTrue from i x opened r none db h =
      bind-After IsTrue _ _ db (apply_leg-jobs i opened r _ db)
        (λ u e same. pure-After IsTrue _ e (still db e same h, λ d. cc))
  after_read-IsTrue from i x opened r (some v) db h =
      bind-After IsTrue _ _ db (apply_leg-jobs i opened r _ db) (λ u e same.
        bind-After IsTrue _ _ e (read-After _ e) (λ legs d at_e.
          elim (Bool-cases (any (λ l. not (is_resolved l)) legs)) [
            | inl more ↦
                let now = still db d (ap (λ (x : Db). x.jobs) at_e ∙ same) h in
                rw more (pure-After IsTrue _ d (now, λ q. cc))
            | inr over ↦ rw over (
                bind-After IsTrue _ _ d (conclude_job-IsTrue from legs (some v) (some i) d)
                  (λ c d' t. pure-After IsTrue _ d' t))
          ]))

  make_move-IsTrue :
      (from : JobState) (legs : List JobLeg) (opens : List SideEffectAttempt) (m : Move) (db : Db)
      → Stands o.lease.job_id JobState.reconciling db
      → After IsTrue (make_move o from legs opens m db)
  unfolding make_move
  make_move-IsTrue from legs opens (never_sent i b) db h = never_sent-IsTrue from legs i b db h
  make_move-IsTrue from legs opens conclude db h = conclude_job-IsTrue from legs none none db
  make_move-IsTrue from legs opens (stuck i) db h = retreat-IsTrue from i _ db
  make_move-IsTrue from legs opens (ask i x) db h =
      bind-After IsTrue _ _ db (asked (o.gateway x))
        (λ r e at_db. after_read-IsTrue from i x _ r _ e (rw at_db h))
    where
      asked : (answer : Result ExecutionRead) → After (λ r e. e ≡ db) (answer, db)
      asked (ok r) = done refl
      asked (err x) = failed

  start-Stands :
      (from : JobState) (db : Db)
      → (state_eq from JobState.unknown_pending || state_eq from JobState.reconciling) ≡ true
      → Stands o.lease.job_id from db
      → After (λ u e. Stands o.lease.job_id JobState.reconciling e) (start o from db)
  unfolding start
  start-Stands from db known h =
      if-After _ (state_eq from JobState.unknown_pending) _ _ db
        (λ e.
          bind-After _ _ _ db (call-After _ _ db (transition-Gives _ db))
            (λ row e (same, there). pure-After _ _ e there))
        (λ e. pure-After _ _ db (
          subst (λ s. Stands o.lease.job_id s db) ((state_eq_iff _ _).0 (ground (arith, known, e)))
            h))

  reconcile_from-IsTrue :
      (from : JobState) (db : Db)
      → (state_eq from JobState.unknown_pending || state_eq from JobState.reconciling) ≡ true
      → Stands o.lease.job_id from db
      → After IsTrue (reconcile_from o from db)
  unfolding reconcile_from
  reconcile_from-IsTrue from db known h =
      bind-After IsTrue _ _ db (start-Stands from db known h) (λ u e there.
        bind-After IsTrue _ _ e (read-After _ e) (λ legs e₁ q₁.
          bind-After IsTrue _ _ e₁ (read-After _ e₁) (λ attempts e₂ q₂.
            bind-After IsTrue _ _ e₂ (read-After _ e₂)
              (λ opens e₃ q₃. make_move-IsTrue from legs opens _ e₃ (rw (q₃ ∙ q₂ ∙ q₁) there)))))

  reconcile_known-IsTrue :
      (db : Db) (job : Option JobRecord)
      → find_job o.lease.job_id db ≡ job
      → After IsTrue (reconcile_known o job db)
  unfolding reconcile_known
  reconcile_known-IsTrue db none h = throw-After IsTrue _ db
  reconcile_known-IsTrue db (some job) h =
      if-After IsTrue _ _ _ db (λ known. reconcile_from-IsTrue job.state db known (job, h, refl))
        (λ other. pure-After IsTrue _ db ((job, h, refl), λ d. cc))

-- A pass that returns tells the truth: the job stands in the store in the state that the result
-- names, on every branch, whatever the server answered.
pub reconcile_job-Stands :
    (o : ReconcileJobOptions) (db : Db) (r : ReconcileResult)
    → (reconcile_job o db).0 ≡ ok r
    → Stands o.lease.job_id r.to (reconcile_job o db).1
unfolding reconcile_job get_job read ◌>>=◌
reconcile_job-Stands o db r h =
    (After-ok (IsTrue o) (reconcile_job o db) r
      (reconcile_known-IsTrue o db (find_job o.lease.job_id db) refl) h).0

-- Only a job in RECONCILING is told that a leg of it may be replayed.
pub reconcile_job-replayable :
    (o : ReconcileJobOptions) (db : Db) (r : ReconcileResult)
    → (reconcile_job o db).0 ≡ ok r
    → r.disposition ≡ ReconcileDisposition.replayable
    → r.to ≡ JobState.reconciling
unfolding reconcile_job get_job read ◌>>=◌
reconcile_job-replayable o db r h =
    (After-ok (IsTrue o) (reconcile_job o db) r
      (reconcile_known-IsTrue o db (find_job o.lease.job_id db) refl) h).1

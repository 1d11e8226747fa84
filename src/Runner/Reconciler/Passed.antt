-- ===== src/Runner/Reconciler/Passed.antt =====
-- A reconcile pass over the store, packages/runner/src/reconciler.ts.
use waterx_predict_agent.Base.{
  ℕ, Option, List, Bool, Bool-cases, inl, inr, none, some, true, false, any, not,
}
use waterx_predict_agent.Runner.StateMachine.{JobState, state_eq}
use waterx_predict_agent.Runner.Job.{JobRecord, JobLeg, SideEffectAttempt}
use waterx_predict_agent.Runner.Store.Db.{Db}
use waterx_predict_agent.Runner.Store.Change.{Change, keep}
use waterx_predict_agent.Runner.Store.Change.JobMethods.{transition-Makes}
use waterx_predict_agent.Runner.Store.Change.LedgerMethods.{
  update_leg-Makes, complete_side_effect-Makes,
}
use waterx_predict_agent.Runner.Store.Legs.{LegPatch}
use waterx_predict_agent.Runner.Store.Prog.Safe.{
  IsSafe, safe, safe_run, call-IsSafe, read-IsSafe, pure-IsSafe, throw-IsSafe, bind-IsSafe,
  if-IsSafe,
}
use waterx_predict_agent.Runner.Reconciler.{
  ExecutionRead, TerminalStatus, Move, never_sent, conclude, stuck, ask, is_empty_patch,
  is_resolved,
}
use waterx_predict_agent.Runner.Reconciler.Pass.{
  ReconcileJobOptions, conclude_job, never_sent_answer, retreat, apply_leg, after_read, make_move,
  start, reconcile_from, reconcile_known, reconcile_job,
}

module _ (o : ReconcileJobOptions) where
  conclude_job-IsSafe :
      (from : JobState) (legs : List JobLeg) (v : Option TerminalStatus) (i : Option ℕ)
      → IsSafe (conclude_job o from legs v i)
  unfolding conclude_job
  conclude_job-IsSafe from legs v i =
      bind-IsSafe _ _ (call-IsSafe _ (transition-Makes _)) (λ row. pure-IsSafe _)

  never_sent-IsSafe :
      (from : JobState) (legs : List JobLeg) (i : ℕ) (under_way : Bool)
      → IsSafe (never_sent_answer o from legs i under_way)
  unfolding never_sent_answer
  never_sent-IsSafe from legs i true = pure-IsSafe _
  never_sent-IsSafe from legs i false =
      bind-IsSafe _ _ (call-IsSafe _ (transition-Makes _)) (λ row. pure-IsSafe _)

  retreat-IsSafe :
      (from : JobState) (i : ℕ) (opened : Option SideEffectAttempt)
      → IsSafe (retreat o from i opened)
  unfolding retreat
  retreat-IsSafe from i opened =
      bind-IsSafe _ _ (call-IsSafe _ (transition-Makes _)) (λ row. pure-IsSafe _)

  apply_leg-IsSafe :
      (i : ℕ) (opened : Option SideEffectAttempt) (r : ExecutionRead) (patch : LegPatch)
      → IsSafe (apply_leg o i opened r patch)
  unfolding apply_leg
  apply_leg-IsSafe i (some opened) r patch =
      bind-IsSafe _ _ (call-IsSafe _ (complete_side_effect-Makes _)) (λ row. pure-IsSafe _)
  apply_leg-IsSafe i none r patch = elim (Bool-cases (is_empty_patch patch)) [
    | inl e ↦ rw e (pure-IsSafe _)
    | inr e ↦ rw e (
        bind-IsSafe _ _ (call-IsSafe _ (update_leg-Makes o.lease i patch o.at))
          (λ row. pure-IsSafe _))
  ]

  after_read-IsSafe :
      (from : JobState) (i e : ℕ) (opened : Option SideEffectAttempt) (r : ExecutionRead)
      (v : Option TerminalStatus)
      → IsSafe (after_read o from i e opened r v)
  unfolding after_read
  after_read-IsSafe from i e opened r none =
      bind-IsSafe _ _ (apply_leg-IsSafe i opened r _) (λ u. pure-IsSafe _)
  after_read-IsSafe from i e opened r (some v) =
      bind-IsSafe _ _ (apply_leg-IsSafe i opened r _) (λ u. bind-IsSafe _ _ (read-IsSafe _) (λ legs.
        if-IsSafe (any (λ l. not (is_resolved l)) legs) (pure-IsSafe _)
          (bind-IsSafe _ _ (conclude_job-IsSafe from legs (some v) (some i)) (λ c. pure-IsSafe _))))

  make_move-IsSafe :
      (from : JobState) (legs : List JobLeg) (opens : List SideEffectAttempt) (m : Move)
      → IsSafe (make_move o from legs opens m)
  unfolding make_move
  make_move-IsSafe from legs opens (never_sent i b) = never_sent-IsSafe from legs i b
  make_move-IsSafe from legs opens conclude = conclude_job-IsSafe from legs none none
  make_move-IsSafe from legs opens (stuck i) = retreat-IsSafe from i _
  make_move-IsSafe from legs opens (ask i e) =
      bind-IsSafe _ _ (safe λ db. keep) (λ r. after_read-IsSafe from i e _ r _)

  start-IsSafe : (from : JobState) → IsSafe (start o from)
  unfolding start
  start-IsSafe from =
      if-IsSafe (state_eq from JobState.unknown_pending)
        (bind-IsSafe _ _ (call-IsSafe _ (transition-Makes _)) (λ row. pure-IsSafe _))
        (pure-IsSafe _)

  reconcile_from-IsSafe : (from : JobState) → IsSafe (reconcile_from o from)
  unfolding reconcile_from
  reconcile_from-IsSafe from = bind-IsSafe _ _ (start-IsSafe from) (λ u.
      bind-IsSafe _ _ (read-IsSafe _) (λ legs. bind-IsSafe _ _ (read-IsSafe _) (λ attempts.
        bind-IsSafe _ _ (read-IsSafe _) (λ opens. make_move-IsSafe from legs opens _))))

  reconcile_known-IsSafe : (job : Option JobRecord) → IsSafe (reconcile_known o job)
  unfolding reconcile_known
  reconcile_known-IsSafe none = throw-IsSafe _
  reconcile_known-IsSafe (some job) = if-IsSafe _ (reconcile_from-IsSafe job.state) (pure-IsSafe _)

-- A reconcile pass writes by changes of the store alone, whatever the server answers and also where
-- a call of the pass fails half-way.
pub reconcile_job-Change : (o : ReconcileJobOptions) (db : Db) → Change db (reconcile_job o db).1
unfolding reconcile_job
reconcile_job-Change o db =
    safe_run (bind-IsSafe _ _ (read-IsSafe _) (λ job. reconcile_known-IsSafe o job)) db

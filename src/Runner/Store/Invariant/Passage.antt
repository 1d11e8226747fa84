-- ===== src/Runner/Store/Invariant/Passage.antt =====
-- How a job leaves the states in flight of packages/runner/src/state-machine.ts: what its log says.
use waterx_predict_agent.Base.{
  ℕ, ==_iff, Bool, true, none, some, List, [], ◌∷◌, ◌++◌, Any, find, find_test, find-update, edited,
  update, ◌≡◌, refl, sym, ap, ◌∙◌, inl, inr, ◌⊎◌, Bool-cases,
}
use mathlib.Core.Option
use waterx_predict_agent.Runner.StateMachine.{
  JobState, is_in_flight_job_state, is_terminal_job_state,
}
use waterx_predict_agent.Runner.StateMachine.Edges.{
  ◌⟶◌, in_flight_edge, here, onward, terminal_stays, failed_over,
}
use waterx_predict_agent.Runner.Job.{JobRecord, JobTransitionRecord}
use waterx_predict_agent.Runner.Store.Db.{Db, find_job, is_job}
use waterx_predict_agent.Runner.Store.Jobs.{moved}
use waterx_predict_agent.Runner.Store.Change.{
  Change, keep, and_then, instances_set, job_created, job_touched, job_claimed, job_moved,
  leg_added, leg_patched, attempt_opened, attempt_closed, cursors_set, spend_added,
}
use waterx_predict_agent.Runner.Store.Run.{Call, run}
use waterx_predict_agent.Runner.Store.Run.Refinement.{run-keeps}
use waterx_predict_agent.Runner.Store.Invariant.Sound.{moved-job_id, moved-state}
use waterx_predict_agent.Runner.Store.Invariant.History.{the_row}

-- An entry of the log that moves a job to RECONCILING.
abbrev pub Reconciles : ℕ → JobTransitionRecord → Type 0
Reconciles id t = (t.job_id ≡ id) × (t.to_state ≡ JobState.reconciling)

-- A job that was in flight, and what the log of its table has gained since.
pub record IsPassage (started : JobState) (id : ℕ) (old : List JobTransitionRecord) (e : Db)
    : Type 0 where
  pub row : JobRecord
  pub found : find_job id e ≡ some row
  pub added : List JobTransitionRecord
  pub grown : e.transitions ≡ added ++ old
  pub passed :
      (is_in_flight_job_state row.state ≡ true)
      ⊎ (row.state ≡ JobState.failed)
      ⊎ (started ≡ JobState.reconciling)
      ⊎ Any (Reconciles id) added
  -- A job that is in RECONCILING now was moved there, or began there.
  pub entered :
      row.state ≡ JobState.reconciling
      → (started ≡ JobState.reconciling) ⊎ Any (Reconciles id) added

-- The row that an UPDATE leaves, where it keeps the ids and, of this row, the state.
kept_row :
    (p : JobRecord → Bool) (f : JobRecord → JobRecord) (id : ℕ) (j : JobRecord)
    (rows : List JobRecord)
    → ((k : JobRecord) → p k ≡ true → (f k).job_id ≡ k.job_id)
    → find (is_job id) rows ≡ some j
    → (p j ≡ true → (f j).state ≡ j.state)
    → (find (is_job id) (update p f rows) ≡ some (edited p f j)) × ((edited p f j).state ≡ j.state)
kept_row p f id j rows own found same = (
  find-update p (is_job id) f rows (λ k e. rw (own k e)) ∙ ap (Option.map (edited p f)) found,
  elim (Bool-cases (p j)) [ inl e ↦ rw e (same e) | inr e ↦ rw e refl ],
)

module _ (started : JobState) (id : ℕ) (old : List JobTransitionRecord) where
  restated :
      {d e : Db} (k : IsPassage started id old d) (row : JobRecord)
      → find_job id e ≡ some row
      → row.state ≡ k.row.state
      → e.transitions ≡ d.transitions
      → IsPassage started id old e
  restated k row found same log = record {
    row = row;
    found = found;
    added = k.added;
    grown = log ∙ k.grown;
    passed = rw same k.passed;
    entered = rw same k.entered;
  }

  -- The log has gained an entry that is not of the job.
  logged :
      {d e : Db} (k : IsPassage started id old d) (t : JobTransitionRecord)
      → find_job id e ≡ some k.row
      → e.transitions ≡ t ∷ d.transitions
      → IsPassage started id old e
  logged k t found log = record {
    row = k.row;
    found = found;
    added = t ∷ k.added;
    grown = log ∙ ap (◌∷◌ t) k.grown;
    passed = elim k.passed [
      | inl a ↦ inl a
      | inr (inl b) ↦ inr (inl b)
      | inr (inr (inl c)) ↦ inr (inr (inl c))
      | inr (inr (inr h)) ↦ inr (inr (inr (inr h)))
    ];
    entered = λ e. elim (k.entered e) [ inl c ↦ inl c | inr h ↦ inr (inr h) ];
  }

  -- The job itself has moved along an edge, and the log says so.
  advanced :
      {d e : Db} (k : IsPassage started id old d) (row : JobRecord) (t : JobTransitionRecord)
      → find_job id e ≡ some row
      → k.row.state ⟶ row.state
      → t.job_id ≡ id
      → t.to_state ≡ row.state
      → e.transitions ≡ t ∷ d.transitions
      → IsPassage started id old e
  advanced k row t found edge own to log = record {
    row = row;
    found = found;
    added = t ∷ k.added;
    grown = log ∙ ap (◌∷◌ t) k.grown;
    passed = elim k.passed [
      | inl flying ↦ elim (in_flight_edge k.row.state row.state flying edge) [
        | inl still ↦ inl still
        | inr (inl over) ↦ inr (inl over)
        | inr (inr there) ↦ elim (k.entered there) [
          | inl c ↦ inr (inr (inl c))
          | inr h ↦ inr (inr (inr (inr h)))
        ]
      ]
      | inr (inl over) ↦
          let final : is_terminal_job_state k.row.state ≡ true =
            ap is_terminal_job_state over ∙ failed_over in
          let stays = terminal_stays final (onward here edge) in inr (inl (stays ∙ over))
      | inr (inr (inl c)) ↦ inr (inr (inl c))
      | inr (inr (inr h)) ↦ inr (inr (inr (inr h)))
    ];
    entered = λ e. inr (inl (own, to ∙ e));
  }

  Change-IsPassage :
      {d e : Db} → Change d e → IsPassage started id old d → IsPassage started id old e
  Change-IsPassage keep k = k
  Change-IsPassage (and_then c d) k = Change-IsPassage d (Change-IsPassage c k)
  Change-IsPassage (job_created {db} new t absent n e) k = elim (Bool-cases (is_job id new)) [
    | inl own ↦
        let bad : none ≡ some k.row =
          sym absent ∙ ap (λ i. find_job i db) ((==_iff _ _).0 own) ∙ k.found in
        cc
    | inr other ↦ logged k t (rw other k.found) refl
  ]
  Change-IsPassage (job_touched {db} p f touch) k =
      let (there, same) =
        kept_row p f id k.row db.jobs (λ j e. (touch j).job_id) k.found
          (λ e. (touch k.row).state) in
      restated k _ there same refl
  Change-IsPassage (job_claimed {db} p f id' job found live claim) k =
      let (there, same) =
        kept_row p f id k.row db.jobs (λ j e. (claim j e).1.job_id) k.found
          (λ e. (claim k.row e).1.state) in
      restated k _ there same refl
  Change-IsPassage (job_moved {db} id' job to at t found edge leg entry) k =
      let there : find (is_job id) (update (is_job id') (moved to at) db.jobs)
          ≡ some (edited (is_job id') (moved to at) k.row) =
        find-update (is_job id') (is_job id) (moved to at) db.jobs
          (λ j e. rw (moved-job_id to at j))
        ∙ ap (Option.map (edited (is_job id') (moved to at))) k.found in
      elim (Bool-cases (is_job id' k.row)) [
        | inl own ↦
            let same : id' ≡ id =
              sym ((==_iff _ _).0 own) ∙ (==_iff _ _).0 (find_test (is_job id) db.jobs k.found) in
            let was : k.row.state ≡ job.state = the_row id id' db k.found found own in
            let now : (moved to at k.row).state ≡ to = moved-state to at k.row in
            advanced k (moved to at k.row) t (rw own at there) (rw (was, now) edge)
              (entry.job_id ∙ same) (entry.to_state ∙ sym now) refl
        | inr other ↦ logged k t (rw other at there) refl
      ]
  Change-IsPassage (instances_set rows) k = restated k k.row k.found refl refl
  Change-IsPassage (leg_added l a b c) k = restated k k.row k.found refl refl
  Change-IsPassage (leg_patched i l p at free) k = restated k k.row k.found refl refl
  Change-IsPassage (attempt_opened a l b c d f) k = restated k k.row k.found refl refl
  Change-IsPassage (attempt_closed a b c d) k = restated k k.row k.found refl refl
  Change-IsPassage (cursors_set rows forward) k = restated k k.row k.found refl refl
  Change-IsPassage (spend_added r reads) k = restated k k.row k.found refl refl

-- A job in an in-flight state is, after any history, still in flight, or FAILED, or it began in
-- RECONCILING, or the log has gained an entry that moves it there.
pub run-in_flight :
    (db : Db) (cs : List Call) (id : ℕ) (j : JobRecord)
    → find_job id db ≡ some j
    → is_in_flight_job_state j.state ≡ true
    → IsPassage j.state id db.transitions (run db cs)
run-in_flight db cs id j h flying =
    run-keeps (IsPassage j.state id db.transitions)
      (λ d e c k. Change-IsPassage j.state id db.transitions c k) db cs
      (record {
        row = j;
        found = h;
        added = [];
        grown = refl;
        passed = inl flying;
        entered = λ e. inl e;
      })

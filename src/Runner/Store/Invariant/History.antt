-- ===== src/Runner/Store/Invariant/History.antt =====
-- What a history does to one job and to one cursor: nothing is deleted, nothing goes back.
use waterx_predict_agent.Base.{
  some_injective, ℕ, ◌≤◌, ==_iff, Bool, true, none, some, List, find, find_test, find-update,
  edited, update, ◌≡◌, sym, ◌∙◌, ap, arith, inl, inr, Bool-cases,
}
use mathlib.Core.Option
use waterx_predict_agent.Runner.StateMachine.{JobState, is_terminal_job_state}
use waterx_predict_agent.Runner.StateMachine.Edges.{
  ◌⟶◌, ◌⟶*◌, here, onward, ⟶*-trans, terminal_stays,
}
use waterx_predict_agent.Runner.Job.{JobRecord}
use waterx_predict_agent.Runner.Store.Db.{Db, CursorRow, find_job, is_job}
use waterx_predict_agent.Runner.Store.Jobs.{moved}
use waterx_predict_agent.Runner.Store.Streams.{is_scope, position}
use waterx_predict_agent.Runner.Store.Change.{
  Change, keep, and_then, instances_set, job_created, job_touched, job_claimed, job_moved,
  leg_added, leg_patched, attempt_opened, attempt_closed, cursors_set, spend_added,
}
use waterx_predict_agent.Runner.Store.Run.{Call, run}
use waterx_predict_agent.Runner.Store.Run.Refinement.{run-keeps}
use waterx_predict_agent.Runner.Store.Invariant.Sound.{moved-job_id, moved-fence, moved-state}

-- The row that a job has become.
pub record IsLater (j : JobRecord) (id : ℕ) (e : Db) : Type 0 where
  pub row : JobRecord
  pub found : find_job id e ≡ some row
  pub fence : j.lease_fence ≤ row.lease_fence
  pub path : j.state ⟶* row.state

one_edge : {s t : JobState} → s ⟶ t → s ⟶* t
one_edge e = onward here e

-- An UPDATE that may only raise fences and follow edges.
update-IsLater :
    (p : JobRecord → Bool) (f : JobRecord → JobRecord) (id : ℕ) (j : JobRecord)
    (rows : List JobRecord)
    → ((k : JobRecord) → p k ≡ true → (f k).job_id ≡ k.job_id)
    → find (is_job id) rows ≡ some j
    → (p j ≡ true → (j.lease_fence ≤ (f j).lease_fence) × (j.state ⟶* (f j).state))
    → (k : JobRecord) × (find (is_job id) (update p f rows) ≡ some k)
      × (j.lease_fence ≤ k.lease_fence)
      × (j.state ⟶* k.state)
update-IsLater p f id j rows own found step =
    let there : find (is_job id) (update p f rows) ≡ some (edited p f j) =
      find-update p (is_job id) f rows (λ k e. rw (own k e)) ∙ ap (Option.map (edited p f)) found in
    elim (Bool-cases (p j)) [
      | inl e ↦ (edited p f j, there, rw e (step e).0, rw e (step e).1)
      | inr e ↦ (edited p f j, there, rw e (omega arith), rw e here)
    ]

pub the_row :
    (id id' : ℕ) (db : Db) {j job : JobRecord}
    → find_job id db ≡ some j
    → find_job id' db ≡ some job
    → is_job id' j ≡ true
    → j.state ≡ job.state
the_row id id' db {j} {job} h found own =
    let same : id ≡ id' =
      sym ((==_iff _ _).0 (find_test (is_job id) db.jobs h)) ∙ (==_iff _ _).0 own in
    let row : some j ≡ some job = sym h ∙ ap (λ i. find_job i db) same ∙ found in
    ap (λ (k : JobRecord). k.state) (some_injective row)

Change-IsLater :
    {db e : Db} (id : ℕ) (j : JobRecord) → Change db e → find_job id db ≡ some j → IsLater j id e
Change-IsLater id j keep h = record { row = j; found = h; fence = omega arith; path = here }
Change-IsLater id j (and_then c d) h =
    let k = Change-IsLater id j c h in
    let l = Change-IsLater id k.row d k.found in
    record {
      row = l.row;
      found = l.found;
      fence = omega (arith, k.fence, l.fence);
      path = ⟶*-trans k.path l.path;
    }
Change-IsLater id j (job_created {db} new t absent n e) h = elim (Bool-cases (is_job id new)) [
  | inl own ↦
      let bad : none ≡ some j = sym absent ∙ ap (λ i. find_job i db) ((==_iff _ _).0 own) ∙ h in cc
  | inr other ↦ record { row = j; found = rw other h; fence = omega arith; path = here }
]
Change-IsLater id j (job_touched {db} p f touch) h =
    let (k, found, fence, path) =
      update-IsLater p f id j db.jobs (λ k e. (touch k).job_id) h
        (λ e. (omega (arith, (touch j).fence), rw (touch j).state here)) in
    record { row = k; found = found; fence = fence; path = path }
Change-IsLater id j (job_claimed {db} p f id' job found live claim) h =
    let (k, found', fence, path) =
      update-IsLater p f id j db.jobs (λ k e. (claim k e).1.job_id) h
        (λ e. (omega (arith, (claim j e).1.fence), rw (claim j e).1.state here)) in
    record { row = k; found = found'; fence = fence; path = path }
Change-IsLater id j (job_moved {db} id' job to at t found edge leg e) h =
    let (k, found', fence, path) =
      update-IsLater (is_job id') (moved to at) id j db.jobs (λ k e. moved-job_id to at k) h
        (λ own. (
          omega (arith, moved-fence to at j),
          rw (moved-state to at j) (one_edge (rw (the_row id id' db h found own) edge)),
        )) in
    record { row = k; found = found'; fence = fence; path = path }
Change-IsLater id j (instances_set rows) h = record {
  row = j;
  found = h;
  fence = omega arith;
  path = here;
}
Change-IsLater id j (leg_added l a b c) h = record {
  row = j;
  found = h;
  fence = omega arith;
  path = here;
}
Change-IsLater id j (leg_patched i l p at free) h = record {
  row = j;
  found = h;
  fence = omega arith;
  path = here;
}
Change-IsLater id j (attempt_opened a l b c d f) h = record {
  row = j;
  found = h;
  fence = omega arith;
  path = here;
}
Change-IsLater id j (attempt_closed a b c d) h = record {
  row = j;
  found = h;
  fence = omega arith;
  path = here;
}
Change-IsLater id j (cursors_set rows forward) h = record {
  row = j;
  found = h;
  fence = omega arith;
  path = here;
}
Change-IsLater id j (spend_added r reads) h = record {
  row = j;
  found = h;
  fence = omega arith;
  path = here;
}

-- No history deletes a job, lowers its fence, or moves it but along the edges of the state machine.
pub run-IsLater :
    (db : Db) (cs : List Call) (id : ℕ) (j : JobRecord)
    → find_job id db ≡ some j
    → IsLater j id (run db cs)
run-IsLater db cs id j h =
    run-keeps (IsLater j id) (λ d e c k. later d e c k) db cs
      (record { row = j; found = h; fence = omega arith; path = here })
  where
    later : (d e : Db) → Change d e → IsLater j id d → IsLater j id e
    later d e c k =
        let l = Change-IsLater id k.row c k.found in
        record {
          row = l.row;
          found = l.found;
          fence = omega (arith, k.fence, l.fence);
          path = ⟶*-trans k.path l.path;
        }

-- A job that is over stays as it ended, whatever is called afterwards.
pub run-terminal :
    (db : Db) (cs : List Call) (id : ℕ) (j : JobRecord)
    → find_job id db ≡ some j
    → is_terminal_job_state j.state ≡ true
    → (k : JobRecord) × (find_job id (run db cs) ≡ some k) × (k.state ≡ j.state)
run-terminal db cs id j h over =
    let k = run-IsLater db cs id j h in (k.row, k.found, terminal_stays over k.path)

-- The cursor that a scope holds is at least as far on.
abbrev pub IsAhead : ℕ → CursorRow → Db → Type 0
IsAhead scope row db =
    (new : CursorRow) × (find (is_scope scope) db.cursors ≡ some new)
    × (position row.cursor ≤ position new.cursor)

Change-IsAhead :
    {d e : Db} (scope : ℕ) (row : CursorRow)
    → Change d e
    → IsAhead scope row d
    → IsAhead scope row e
Change-IsAhead scope row keep h = h
Change-IsAhead scope row (and_then c d) h =
    Change-IsAhead scope row d (Change-IsAhead scope row c h)
Change-IsAhead scope row (cursors_set rows forward) (held, found, far) =
    let (new, found', on) = forward scope held found in (new, found', omega (arith, far, on))
Change-IsAhead scope row (instances_set rows) h = h
Change-IsAhead scope row (job_created j t a n e) h = h
Change-IsAhead scope row (job_touched p f t) h = h
Change-IsAhead scope row (job_claimed p f id job found live claim) h = h
Change-IsAhead scope row (job_moved id job to at t found edge leg e) h = h
Change-IsAhead scope row (leg_added l a b c) h = h
Change-IsAhead scope row (leg_patched i l p at free) h = h
Change-IsAhead scope row (attempt_opened a l b c d f) h = h
Change-IsAhead scope row (attempt_closed a b c d) h = h
Change-IsAhead scope row (spend_added r reads) h = h

-- A stream cursor, once saved, is never lost and never moves backwards.
pub run-cursor :
    (db : Db) (cs : List Call) (scope : ℕ) (row : CursorRow)
    → find (is_scope scope) db.cursors ≡ some row
    → (new : CursorRow) × (find (is_scope scope) (run db cs).cursors ≡ some new)
      × (position row.cursor ≤ position new.cursor)
run-cursor db cs scope row h =
    run-keeps (IsAhead scope row) (λ d e c k. Change-IsAhead scope row c k) db cs
      (row, h, omega arith)

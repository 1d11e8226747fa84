-- ===== src/Runner/Store/Invariant/Jobs.antt =====
-- The job table and its transition log, through every history.
use waterx_predict_agent.Runner.Store.Invariant.Sound.{
  log-other, touch-IsSound, claim-IsSound, other-IsSound, new-IsSound, moved-IsSound, moved-job_id,
  legs-IsSound,
}
use waterx_predict_agent.Base.{
  ℕ, ◌==◌, Bool, true, false, Option, none, some, List, ◌∷◌, All-map, All-both, All-update,
  All-update_found, find-none, find-update, length-select-update, Distinct, Distinct-update, ◌≡◌,
  ◌≢◌, refl, sym, subst, ◌∙◌, ap, arith, inl, inr, Bool-cases, find, update,
}
use mathlib.Core.Option
use waterx_predict_agent.Runner.Job.{JobRecord}
use waterx_predict_agent.Runner.Store.Db.{Db, find_job, is_job, is_leg, count_legs, empty_db}
use waterx_predict_agent.Runner.Store.Jobs.{moved}
use waterx_predict_agent.Runner.Store.Legs.{patched}
use waterx_predict_agent.Runner.Store.Change.{
  Change, keep, and_then, instances_set, job_created, job_touched, job_claimed, job_moved,
  leg_added, leg_patched, attempt_opened, attempt_closed, cursors_set, spend_added, IsEntry,
}
use waterx_predict_agent.Runner.Store.Run.{Call, run}
use waterx_predict_agent.Runner.Store.Run.Refinement.{run-keeps}
use waterx_predict_agent.Runner.Store.Invariant.{IsSound, same_job, IsJobTable}

same_id_job :
    (id : ℕ) (x y : JobRecord) → is_job id x ≡ true → is_job id y ≡ true → same_job x y ≡ true
same_id_job id x y p q = ground arith

find-edited-none : {A B : Type 0} (f : A → B) (o : Option A) → Option.map f o ≡ none → o ≡ none
find-edited-none f none h = refl
find-edited-none f (some a) h = cc

module _ (p : JobRecord → Bool) (f : JobRecord → JobRecord) (db : Db)
    (own : (j : JobRecord) → p j ≡ true → (f j).job_id ≡ j.job_id) where
  jobs-distinct : Distinct same_job db.jobs → Distinct same_job (update p f db.jobs)
  jobs-distinct =
      Distinct-update same_job p f db.jobs (λ a b e q. rw (own a e) q) (λ a b e q. rw (own a e) q)

  jobs-find-none : (id : ℕ) → find (is_job id) (update p f db.jobs) ≡ none → find_job id db ≡ none
  jobs-find-none id h =
      find-edited-none _ _ (sym (find-update p (is_job id) f db.jobs (λ a e. rw (own a e))) ∙ h)

apart : (a b c : ℕ) → a ≡ b → (c == b) ≡ false → (a == c) ≡ false
apart a b c p q = ground arith

found_apart :
    (id k : ℕ) (db : Db) {job : JobRecord}
    → find_job id db ≡ some job
    → find_job k db ≡ none
    → (id == k) ≡ false
found_apart id k db {job} found absent = elim (Bool-cases (id == k)) [
  | inl e ↦
      let same : id ≡ k = ground arith in
      let bad : some job ≡ none = sym found ∙ ap (λ i. find_job i db) same ∙ absent in cc
  | inr e ↦ e
]

Change-IsJobTable : {db e : Db} → Change db e → IsJobTable db → IsJobTable e
Change-IsJobTable keep h = h
Change-IsJobTable (and_then c d) h = Change-IsJobTable d (Change-IsJobTable c h)
Change-IsJobTable (instances_set rows) h = record {
  distinct = h.distinct;
  sound = h.sound;
  unlogged = h.unlogged;
}
Change-IsJobTable (job_created {db} j t absent n e) h = record {
  distinct = (
    All-map (λ k q. ground arith) db.jobs (find-none (is_job j.job_id) db.jobs absent),
    h.distinct,
  );
  sound = (
    new-IsSound db.legs db.transitions j t n e (h.unlogged j.job_id absent),
    All-both (λ k q s. other-IsSound db.legs db.transitions k t (apart _ _ _ e.job_id q) s) db.jobs
        (find-none (is_job j.job_id) db.jobs absent) h.sound,
  );
  unlogged = λ id q.
      let other : (j.job_id == id) ≡ false = ground arith in
      log-other id t db.transitions (rw e.job_id other) ∙ h.unlogged id (ground arith);
}
Change-IsJobTable (job_touched {db} p f touch) h = record {
  distinct = jobs-distinct p f db (λ j e. (touch j).job_id) h.distinct;
  sound =
      All-update p f db.jobs (λ j e s. touch-IsSound db.legs db.transitions j (f j) (touch j) s)
        (λ j e s. s) h.sound;
  unlogged = λ id q. h.unlogged id (jobs-find-none p f db (λ j e. (touch j).job_id) id q);
}
Change-IsJobTable (job_claimed {db} p f id job found live claim) h = record {
  distinct = jobs-distinct p f db (λ j e. (claim j e).1.job_id) h.distinct;
  sound =
      All-update_found (IsSound db.legs db.transitions) (IsSound db.legs db.transitions) same_job p
        (is_job id) f job db.jobs (same_id_job id) (λ j e. (claim j e).0) h.distinct found
        (λ e s. claim-IsSound db.legs db.transitions job (f job) live (claim job e).1 s)
        (λ j e s. s) h.sound;
  unlogged = λ k q. h.unlogged k (jobs-find-none p f db (λ j e. (claim j e).1.job_id) k q);
}
Change-IsJobTable (job_moved {db} id job to at t found edge leg e) h = record {
  distinct = jobs-distinct (is_job id) (moved to at) db (λ j q. moved-job_id to at j) h.distinct;
  sound =
      All-update_found (IsSound db.legs db.transitions) (IsSound db.legs (t ∷ db.transitions))
        same_job (is_job id) (is_job id) (moved to at) job db.jobs (same_id_job id) (λ j q. q)
        h.distinct found
        (λ q s.
          let own : id ≡ job.job_id = ground arith in
          moved-IsSound db.legs db.transitions job to at t edge
            (λ r. subst (λ i. count_legs i db ≢ 0) own (leg r))
            (subst (λ i. IsEntry t i (some job.state) to db.transitions) own e) s)
        (λ j q s. other-IsSound db.legs db.transitions j t (apart _ _ _ e.job_id q) s) h.sound;
  unlogged = λ k q.
      let before : find_job k db ≡ none =
        jobs-find-none (is_job id) (moved to at) db (λ j q. moved-job_id to at j) k q in
      log-other k t db.transitions (rw e.job_id (found_apart id k db found before))
      ∙ h.unlogged k before;
}
Change-IsJobTable (leg_added {db} l absent free fresh) h = record {
  distinct = h.distinct;
  sound =
      All-map (λ j s. legs-IsSound db.legs (l ∷ db.legs) db.transitions j (λ z. ground arith) s)
        db.jobs h.sound;
  unlogged = h.unlogged;
}
Change-IsJobTable (leg_patched {db} id i patch at free) h = record {
  distinct = h.distinct;
  sound =
      All-map
        (λ j s.
          legs-IsSound db.legs _ db.transitions j
            (λ z.
              sym (
                length-select-update (is_leg id i) (λ l. l.job_id == j.job_id) (patched patch at)
                  db.legs (λ l q. refl))
              ∙ z)
            s)
        db.jobs h.sound;
  unlogged = h.unlogged;
}
Change-IsJobTable (attempt_opened a l found key closed fresh) h = record {
  distinct = h.distinct;
  sound = h.sound;
  unlogged = h.unlogged;
}
Change-IsJobTable (attempt_closed id outcome at detail) h = record {
  distinct = h.distinct;
  sound = h.sound;
  unlogged = h.unlogged;
}
Change-IsJobTable (cursors_set rows forward) h = record {
  distinct = h.distinct;
  sound = h.sound;
  unlogged = h.unlogged;
}
Change-IsJobTable (spend_added r reads) h = record {
  distinct = h.distinct;
  sound = h.sound;
  unlogged = h.unlogged;
}

empty-IsJobTable : IsJobTable empty_db
empty-IsJobTable = record { distinct = tt; sound = tt; unlogged = λ id h. refl }

-- After any history of calls, refused ones included: no two jobs share an id; a job has a terminal
-- instant exactly when its state is terminal, and then it has no lease; a job in a state that needs
-- a leg has one on disk; each job's log is a walk along the edges of the state machine from DRAFT to
-- its state, numbered from 1 without a gap; and an id with no job has no log.
pub run-IsJobTable : (cs : List Call) → IsJobTable (run empty_db cs)
run-IsJobTable cs = run-keeps IsJobTable (λ db e. Change-IsJobTable) empty_db cs empty-IsJobTable

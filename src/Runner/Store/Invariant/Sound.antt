-- ===== src/Runner/Store/Invariant/Sound.antt =====
-- What each change does to one job and its rows of the transition log.
use waterx_predict_agent.Base.{
  ℕ, ◌==◌, ==_refl, true, false, none, some, List, [], ◌∷◌, select, length, ◌≡◌, ◌≢◌, refl, sym,
  subst, ◌∙◌, ap, arith, inl, inr, Bool-cases,
}
use mathlib.Core.Path.{subst₂}
use waterx_predict_agent.Runner.StateMachine.{
  JobState, job_states, is_terminal_job_state, can_transition,
}
use waterx_predict_agent.Runner.Job.{JobRecord, JobLeg, JobTransitionRecord}
use waterx_predict_agent.Runner.Store.Db.{max_seq}
use waterx_predict_agent.Runner.Store.Jobs.{moved}
use waterx_predict_agent.Runner.Store.Change.{IsTouch, IsClaim, IsNewJob, IsEntry}
use waterx_predict_agent.Runner.Store.Invariant.{log, IsLog, IsNumbered, IsSound}

max_seq-log :
    (id : ℕ) (ts : List JobTransitionRecord)
    → IsNumbered (log id ts)
    → max_seq id ts ≡ length (log id ts)
max_seq-log id [] h = refl
max_seq-log id (t ∷ ts) h = elim (Bool-cases (t.job_id == id)) [
  | inl e ↦
      let h' : IsNumbered (t ∷ log id ts) = rw e at h in
      rw e (omega (arith, max_seq-log id ts h'.1, h'.0))
  | inr e ↦ rw e (max_seq-log id ts (rw e at h))
]

pub log-other :
    (id : ℕ) (t : JobTransitionRecord) (ts : List JobTransitionRecord)
    → (t.job_id == id) ≡ false
    → log id (t ∷ ts) ≡ log id ts
log-other id t ts h = rw h

log-own :
    (id : ℕ) (t : JobTransitionRecord) (ts : List JobTransitionRecord)
    → t.job_id ≡ id
    → log id (t ∷ ts) ≡ t ∷ log id ts
log-own id t ts h = rw (h, ==_refl id)

IsLog-extend :
    (t : JobTransitionRecord) (l : List JobTransitionRecord) {s to : JobState}
    → t.to_state ≡ to
    → t.from_state ≡ some s
    → can_transition s to ≡ true
    → IsLog l s
    → IsLog (t ∷ l) to
IsLog-extend t [] a b edge h = absurd h
IsLog-extend t (u ∷ []) a b edge h = (a, rw h.0 b, rw h.0 edge, (refl, h.1, h.0 ∙ h.2))
IsLog-extend t (u ∷ v ∷ r) a b edge h = (a, rw h.0 b, rw h.0 edge, (refl, h.1, rw h.0 h.2, h.3))

draft_free : (job_states JobState.draft).requires_leg ≡ true → ⊥
draft_free h = cc

module _ (legs : List JobLeg) (ts : List JobTransitionRecord) where
  pub touch-IsSound : (j k : JobRecord) → IsTouch j k → IsSound legs ts j → IsSound legs ts k
  touch-IsSound j k t h = record {
    stamped = ground arith;
    released = λ e. ground (arith, h.released (sym (ap is_terminal_job_state t.state) ∙ e));
    leg_on_disk =
        λ e. rw t.job_id (h.leg_on_disk (sym (ap (λ s. (job_states s).requires_leg) t.state) ∙ e));
    logged = subst₂ (λ id s. IsLog (log id ts) s) (sym t.job_id) (sym t.state) h.logged;
    numbered = subst (λ id. IsNumbered (log id ts)) (sym t.job_id) h.numbered;
  }

  pub claim-IsSound :
      (j k : JobRecord)
      → is_terminal_job_state j.state ≡ false
      → IsClaim j k
      → IsSound legs ts j
      → IsSound legs ts k
  claim-IsSound j k live t h = record {
    stamped = ground arith;
    released = λ e. ground arith;
    leg_on_disk =
        λ e. rw t.job_id (h.leg_on_disk (sym (ap (λ s. (job_states s).requires_leg) t.state) ∙ e));
    logged = subst₂ (λ id s. IsLog (log id ts) s) (sym t.job_id) (sym t.state) h.logged;
    numbered = subst (λ id. IsNumbered (log id ts)) (sym t.job_id) h.numbered;
  }

  -- A new entry of another job's log leaves this job as it was.
  pub other-IsSound :
      (j : JobRecord) (t : JobTransitionRecord)
      → (t.job_id == j.job_id) ≡ false
      → IsSound legs ts j
      → IsSound legs (t ∷ ts) j
  other-IsSound j t e h = record {
    stamped = h.stamped;
    released = h.released;
    leg_on_disk = h.leg_on_disk;
    logged = rw e h.logged;
    numbered = rw e h.numbered;
  }

  pub new-IsSound :
      (j : JobRecord) (t : JobTransitionRecord)
      → IsNewJob j
      → IsEntry t j.job_id none JobState.draft ts
      → log j.job_id ts ≡ []
      → IsSound legs (t ∷ ts) j
  unfolding is_terminal_job_state
  new-IsSound j t n e q =
      let one : log j.job_id (t ∷ ts) ≡ t ∷ [] = log-own j.job_id t ts e.job_id ∙ ap (◌∷◌ t) q in
      record {
        stamped = rw (n.terminal_at, n.state);
        released = λ x. n.lease;
        leg_on_disk =
            λ x. absurd (draft_free (sym (ap (λ s. (job_states s).requires_leg) n.state) ∙ x));
        logged =
            subst (λ l. IsLog l j.state) (sym one)
              (e.to_state ∙ sym n.state, e.from_state, n.state);
        numbered =
            subst IsNumbered (sym one)
              (omega (arith, e.seq, max_seq-log j.job_id ts (rw q tt), ap length q), tt);
      }

  pub moved-IsSound :
      (j : JobRecord) (to : JobState) (at : ℕ) (t : JobTransitionRecord)
      → can_transition j.state to ≡ true
      → ((job_states to).requires_leg ≡ true → length (select (λ l. l.job_id == j.job_id) legs) ≢ 0)
      → IsEntry t j.job_id (some j.state) to ts
      → IsSound legs ts j
      → IsSound legs (t ∷ ts) (moved to at j)
  moved-IsSound j to at t edge leg e h =
      let own : log j.job_id (t ∷ ts) ≡ t ∷ log j.job_id ts = log-own j.job_id t ts e.job_id in
      let longer : IsLog (log j.job_id (t ∷ ts)) to =
        subst (λ l. IsLog l to) (sym own)
          (IsLog-extend t (log j.job_id ts) e.to_state e.from_state edge h.logged) in
      let counted : IsNumbered (log j.job_id (t ∷ ts)) =
        subst IsNumbered (sym own)
          (omega (arith, e.seq, max_seq-log j.job_id ts h.numbered), h.numbered) in
      elim (Bool-cases (is_terminal_job_state to)) [
        | inl over ↦ rw over (record {
          stamped = sym over;
          released = λ _. refl;
          leg_on_disk = leg;
          logged = longer;
          numbered = counted;
        })
        | inr live ↦ rw live (record {
          stamped = sym live;
          released = λ x. cc;
          leg_on_disk = leg;
          logged = longer;
          numbered = counted;
        })
      ]

pub moved-job_id : (to : JobState) (at : ℕ) (j : JobRecord) → (moved to at j).job_id ≡ j.job_id
moved-job_id to at j = ground arith

pub moved-fence :
    (to : JobState) (at : ℕ) (j : JobRecord) → (moved to at j).lease_fence ≡ j.lease_fence
moved-fence to at j = ground arith

pub moved-state : (to : JobState) (at : ℕ) (j : JobRecord) → (moved to at j).state ≡ to
moved-state to at j = ground arith

-- More legs, and legs whose columns changed, are still legs on disk.
pub legs-IsSound :
    (legs legs' : List JobLeg) (ts : List JobTransitionRecord) (j : JobRecord)
    → (length (select (λ l. l.job_id == j.job_id) legs') ≡ 0
        → length (select (λ l. l.job_id == j.job_id) legs) ≡ 0)
    → IsSound legs ts j
    → IsSound legs' ts j
legs-IsSound legs legs' ts j more h = record {
  stamped = h.stamped;
  released = h.released;
  leg_on_disk = λ e z. h.leg_on_disk e (more z);
  logged = h.logged;
  numbered = h.numbered;
}

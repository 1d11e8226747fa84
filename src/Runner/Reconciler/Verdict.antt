-- ===== src/Runner/Reconciler/Verdict.antt =====
-- The decisions of packages/runner/src/reconciler.ts: which leg a pass takes, and how a job ends.
use waterx_predict_agent.Base.{
  and_both, is_none, sym, ◌∙◌, or_else, ap, or_else, ap, All-map, All-unselect, All-not_found,
  Any-map, Any-select, Any-find, ==_iff, All, Any, not, refl, ◌∷◌, true, false, Option, none, some,
  List, [], is_some, any, find, find_test, ◌≡◌, ◌≢◌, ◌↔◌, ◌⊎◌, inl, inr, arith, Option-cases,
}
use waterx_predict_agent.Runner.StateMachine.{JobState, can_transition, is_terminal_job_state}
use waterx_predict_agent.Runner.Job.{JobLegStatus, JobLeg, SideEffectAttempt, SideEffectOutcome}
use waterx_predict_agent.Runner.Reconciler.{
  first, about, is_under_way, Move, ask, is_resolved, ExecutionRead, TerminalStatus,
  terminal_status, has_succeeded, unresolved, is_unsent, was_attempted, never_sent, conclude, stuck,
  next_move, attempt_outcome, submission_observed, conclusion,
}

-- However the legs ended and whatever the server said, the job ends in a terminal state that has an
-- edge from RECONCILING.
pub conclusion-can_transition :
    (legs : List JobLeg) (verdict : Option TerminalStatus)
    → (is_terminal_job_state (conclusion legs verdict) ≡ true)
      × (can_transition JobState.reconciling (conclusion legs verdict) ≡ true)
unfolding conclusion is_terminal_job_state can_transition
conclusion-can_transition legs verdict = ground arith

-- A job ends FILLED exactly when a leg succeeded or the server said FILLED.
pub conclusion_iff :
    (legs : List JobLeg) (verdict : Option TerminalStatus)
    → (conclusion legs verdict ≡ JobState.filled)
      ↔ ((any has_succeeded legs ≡ true) ⊎ (verdict ≡ some TerminalStatus.filled))
unfolding conclusion
conclusion_iff legs verdict = ground arith

-- A submit that is closed as FAILED is never that of an execution that filled.
pub attempt_outcome-failed :
    (a : SideEffectAttempt) (r : ExecutionRead)
    → attempt_outcome a r ≡ SideEffectOutcome.failed
    → terminal_status r.status ≢ some TerminalStatus.filled
unfolding attempt_outcome submission_observed
attempt_outcome-failed a r h = ground arith

-- A leg that is not over.
abbrev pub IsOpen : JobLeg → Type 0
IsOpen l =
    (l.status ≢ JobLegStatus.succeeded)
    × (l.status ≢ JobLegStatus.failed)
    × (l.status ≢ JobLegStatus.skipped)

-- A leg that is not over, has no execution, and for which no attempt of any kind was made.
abbrev pub IsNeverSent : List SideEffectAttempt → JobLeg → Type 0
IsNeverSent attempts l =
    IsOpen l
    × (l.execution_id ≡ none)
    × All (λ (a : SideEffectAttempt). a.leg_index ≢ l.leg_index) attempts

-- What a move says of the legs and attempts that it was chosen for.
pub IsRight : List JobLeg → List SideEffectAttempt → Move → Type 0
IsRight legs attempts (never_sent i under_way) =
    Any (λ l. (l.leg_index ≡ i) × IsNeverSent attempts l) legs
    × ((under_way ≡ true) ↔ ((attempts ≢ []) ⊎ Any (λ l. l.execution_id ≢ none) legs))
IsRight legs attempts (stuck i) =
    All (λ l. ¬ IsNeverSent attempts l) legs
    × Any (λ l. (l.leg_index ≡ i) × IsOpen l × (l.execution_id ≡ none)) legs
    × All (λ l. IsOpen l → l.execution_id ≡ none) legs
IsRight legs attempts (ask i e) =
    All (λ l. ¬ IsNeverSent attempts l) legs
    × Any (λ l. (l.leg_index ≡ i) × IsOpen l × (l.execution_id ≡ some e)) legs
IsRight legs attempts conclude = All (λ l. ¬ IsOpen l) legs

resolved_iff : (l : JobLeg) → (not (is_resolved l) ≡ true) ↔ IsOpen l
resolved_iff l = ground arith

attempted_iff :
    (attempts : List SideEffectAttempt) (l : JobLeg)
    → (was_attempted attempts l ≡ false)
      ↔ All (λ (a : SideEffectAttempt). a.leg_index ≢ l.leg_index) attempts
attempted_iff [] l = (λ e. tt, λ h. refl)
attempted_iff (a ∷ attempts) l =
    let same = ==_iff a.leg_index l.leg_index in
    let rest = attempted_iff attempts l in
    (
      λ e. (λ q. cc (same.1 q, e), rest.0 (ground (arith, e))),
      λ (other, h). let none_here = rest.1 h in ground (arith, other, none_here),
    )

IsNeverSent-iff :
    (attempts : List SideEffectAttempt) (l : JobLeg)
    → ((not (is_resolved l) ≡ true) × (is_unsent attempts l ≡ true)) ↔ IsNeverSent attempts l
IsNeverSent-iff attempts l =
    let still_open = resolved_iff l in
    let untried = attempted_iff attempts l in
    (
      λ (o, u).
          let (bare, tried) =
            and_both (is_none l.execution_id) (not (was_attempted attempts l)) u in
          (still_open.0 o, ground arith, untried.0 (ground (arith, tried))),
      λ (o, bare, h). let none_here = untried.1 h in (still_open.1 o, rw (bare, none_here) refl),
    )

executing :
    (legs : List JobLeg)
    → any (λ (l : JobLeg). is_some l.execution_id) legs ≡ true
    → Any (λ l. l.execution_id ≢ none) legs
executing [] e = cc
executing (l ∷ legs) e = elim (Option-cases l.execution_id) [
  | inl bare ↦ inr (executing legs (rw bare at e))
  | inr (x, had) ↦ inl (λ bad. cc (had, bad))
]

executed :
    (legs : List JobLeg)
    → Any (λ l. l.execution_id ≢ none) legs
    → any (λ (l : JobLeg). is_some l.execution_id) legs ≡ true
executed [] h = absurd h
executed (l ∷ legs) h = elim (Option-cases l.execution_id) [
  | inl bare ↦ elim h [ inl bad ↦ absurd (bad bare) | inr rest ↦ rw bare (executed legs rest) ]
  | inr (x, had) ↦ rw had refl
]

under_way_iff :
    (attempts : List SideEffectAttempt) (legs : List JobLeg)
    → (is_under_way attempts legs ≡ true)
      ↔ ((attempts ≢ []) ⊎ Any (λ l. l.execution_id ≢ none) legs)
under_way_iff [] legs = (
  λ e. inr (executing legs e),
  λ h. elim h [ inl bad ↦ absurd (bad refl) | inr some_leg ↦ executed legs some_leg ],
)
under_way_iff (a ∷ attempts) legs = (λ e. inl (λ bad. cc), λ h. refl)

asked-IsRight :
    (legs : List JobLeg) (attempts : List SideEffectAttempt) (l : JobLeg)
    → All (λ l. ¬ IsNeverSent attempts l) legs
    → Any (λ k. (k ≡ l) × IsOpen k) legs
    → (l.execution_id ≡ none → All (λ l. IsOpen l → l.execution_id ≡ none) legs)
    → IsRight legs attempts (about (some l))
unfolding IsRight
asked-IsRight legs attempts l h one bare = elim (Option-cases l.execution_id) [
  | inl e ↦ rw e (
    h,
    Any-map
        (λ k (q, o).
          (ap (λ (x : JobLeg). x.leg_index) q, o, ap (λ (x : JobLeg). x.execution_id) q ∙ e))
        legs one,
    bare e,
  )
  | inr (x, e) ↦ rw e (
    h,
    Any-map
        (λ k (q, o).
          (ap (λ (x : JobLeg). x.leg_index) q, o, ap (λ (x : JobLeg). x.execution_id) q ∙ e))
        legs one,
  )
]

IsOpen-one :
    (legs : List JobLeg) (l : JobLeg)
    → Any (λ k. k ≡ l) (unresolved legs)
    → Any (λ k. (k ≡ l) × IsOpen k) legs
IsOpen-one legs l h =
    Any-map (λ k (q, o). (q, (resolved_iff k).0 o)) legs
      (Any-select (λ k. k ≡ l) (λ (k : JobLeg). not (is_resolved k)) legs h)

about-IsRight :
    (legs : List JobLeg) (attempts : List SideEffectAttempt)
    → All (λ l. ¬ IsNeverSent attempts l) legs
    → IsRight legs attempts (
        about (
          or_else
            (find (λ (l : JobLeg). is_some l.execution_id) (unresolved legs))
            (first (unresolved legs))))
unfolding IsRight
about-IsRight legs attempts h =
    elim (Option-cases (find (λ (l : JobLeg). is_some l.execution_id) (unresolved legs))) [
      | inr (l, e) ↦
          let test = find_test (λ (l : JobLeg). is_some l.execution_id) (unresolved legs) e in
          rw e (
            asked-IsRight legs attempts l h
              (IsOpen-one legs l (
                Any-find (λ k. k ≡ l) (λ (k : JobLeg). is_some k.execution_id) (unresolved legs) e
                  refl))
              (λ bare. let bad : true ≡ false = sym test ∙ ap is_some bare in cc))
      | inl e ↦
          let bare = All-not_found (λ (l : JobLeg). is_some l.execution_id) (unresolved legs) e in
          rw e (nobody (unresolved legs) refl bare)
    ]
  where
    all_bare :
        All (λ l. is_some l.execution_id ≡ false) (unresolved legs)
        → All (λ l. IsOpen l → l.execution_id ≡ none) legs
    all_bare h =
        All-map (λ l k o. let e = k ((resolved_iff l).1 o) in ground (arith, e)) legs
          (All-unselect (λ (l : JobLeg). is_some l.execution_id ≡ false)
            (λ (l : JobLeg). not (is_resolved l)) legs h)

    nobody :
        (us : List JobLeg)
        → unresolved legs ≡ us
        → All (λ l. is_some l.execution_id ≡ false) (unresolved legs)
        → IsRight legs attempts (about (first us))
    nobody [] e bare =
        All-map (λ l k o. k ((resolved_iff l).1 o)) legs
          (All-unselect (λ l. ⊥) (λ (l : JobLeg). not (is_resolved l)) legs (rw e tt))
    nobody (l ∷ us) e bare =
        asked-IsRight legs attempts l h (IsOpen-one legs l (rw e (inl refl))) (λ q. all_bare bare)

-- Whatever a reconcile pass does next is right of the legs and attempts: the leg that it proposes
-- to send has no execution, is not over and has no attempt of any kind, and it says whether
-- anything was attempted or has an execution; if it proposes none, there is no such leg, and it asks
-- about an execution of a leg that is not over, is stuck on one that has none where no such leg has
-- one, or concludes where every leg is over.
pub next_move-IsRight :
    (legs : List JobLeg) (attempts : List SideEffectAttempt)
    → IsRight legs attempts (next_move legs attempts)
unfolding next_move IsRight
next_move-IsRight legs attempts =
    elim (Option-cases (find (is_unsent attempts) (unresolved legs))) [
      | inl e ↦
          let unsent =
            All-unselect (λ l. is_unsent attempts l ≡ false) (λ (l : JobLeg). not (is_resolved l))
              legs (All-not_found (is_unsent attempts) (unresolved legs) e) in
          rw e (
            about-IsRight legs attempts (
              All-map
                (λ l h n. let (o, u) = (IsNeverSent-iff attempts l).1 n in let off = h o in cc) legs
                unsent))
      | inr (l, e) ↦
          let chosen =
            Any-select (λ k. (k ≡ l) × (is_unsent attempts l ≡ true))
              (λ (k : JobLeg). not (is_resolved k)) legs
              (Any-find (λ k. (k ≡ l) × (is_unsent attempts l ≡ true)) (is_unsent attempts)
                (unresolved legs) e (refl, find_test (is_unsent attempts) (unresolved legs) e)) in
          rw e (
            Any-map
                (λ k ((q, u), o). (
                  ap (λ (x : JobLeg). x.leg_index) q,
                  (IsNeverSent-iff attempts k).0 (o, ap (is_unsent attempts) q ∙ u),
                ))
                legs chosen,
            under_way_iff attempts legs,
          )
    ]

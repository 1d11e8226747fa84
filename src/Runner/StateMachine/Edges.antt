-- ===== src/Runner/StateMachine/Edges.antt =====
-- What the edge set of packages/runner/src/state-machine.ts promises.
use waterx_predict_agent.Base.{
  true, false, List, [], ◌∷◌, ◌≡◌, ◌≢◌, ◌⊎◌, inl, inr, ◌↔◌, refl, sym, ap, ◌∙◌, subst, arith,
  Bool-cases,
}
use waterx_predict_agent.Runner.StateMachine.{
  JobState, JobStateEffect, job_states, can_transition, can_end_locally, is_in_flight_job_state,
  is_terminal_job_state, includes, non_terminal_job_states, state_eq,
}

pub state_eq_iff : (a b : JobState) → (state_eq a b ≡ true) ↔ (a ≡ b)
state_eq_iff a b = ground arith

-- One edge, from the first state to the second.
infix 40 ◌⟶◌
abbrev pub ◌⟶◌ : JobState → JobState → Type 0
s ⟶ t = can_transition s t ≡ true

-- A state is terminal exactly when it has no edge out.
pub terminal_iff : (s : JobState) → (is_terminal_job_state s ≡ true) ↔ ((t : JobState) → ¬ (s ⟶ t))
unfolding can_transition is_terminal_job_state
terminal_iff JobState.draft = (λ h. cc, λ f. absurd (f JobState.failed refl))
terminal_iff JobState.watching = (λ h. cc, λ f. absurd (f JobState.failed refl))
terminal_iff JobState.paused = (λ h. cc, λ f. absurd (f JobState.failed refl))
terminal_iff JobState.triggered = (λ h. cc, λ f. absurd (f JobState.failed refl))
terminal_iff JobState.quoting = (λ h. cc, λ f. absurd (f JobState.failed refl))
terminal_iff JobState.creating = (λ h. cc, λ f. absurd (f JobState.failed refl))
terminal_iff JobState.awaiting_signature = (λ h. cc, λ f. absurd (f JobState.failed refl))
terminal_iff JobState.submitting = (λ h. cc, λ f. absurd (f JobState.failed refl))
terminal_iff JobState.submitted = (λ h. cc, λ f. absurd (f JobState.reconciling refl))
terminal_iff JobState.reconciling = (λ h. cc, λ f. absurd (f JobState.failed refl))
terminal_iff JobState.unknown_pending = (λ h. cc, λ f. absurd (f JobState.reconciling refl))
terminal_iff JobState.filled = (λ h t e. cc, λ f. refl)
terminal_iff JobState.failed = (λ h t e. cc, λ f. refl)
terminal_iff JobState.cancelled = (λ h t e. cc, λ f. refl)
terminal_iff JobState.expired = (λ h t e. cc, λ f. refl)

-- The states listed as non-terminal are exactly those that are not terminal.
pub non_terminal_iff :
    (s : JobState) → (includes non_terminal_job_states s ≡ true) ↔ (is_terminal_job_state s ≡ false)
unfolding is_terminal_job_state
non_terminal_iff s = ground arith

-- A local decision may end a job exactly where both CANCELLED and EXPIRED are one edge away and
-- the state is not RECONCILING.
pub can_end_locally_iff :
    (s : JobState)
    → (can_end_locally s ≡ true)
      ↔ ((s ⟶ JobState.cancelled) × (s ⟶ JobState.expired) × (s ≢ JobState.reconciling))
unfolding can_transition can_end_locally
can_end_locally_iff s = ground arith

-- UNKNOWN_PENDING has one edge out, to RECONCILING.
pub unknown_pending_edge :
    (t : JobState) → (JobState.unknown_pending ⟶ t) ↔ (t ≡ JobState.reconciling)
unfolding can_transition
unknown_pending_edge t = ground arith

-- A state whose next act may sign or write is in flight, and its table row requires a leg.
pub effect_needs_leg :
    (s : JobState)
    → ((job_states s).effect ≡ JobStateEffect.write) ⊎ ((job_states s).effect ≡ JobStateEffect.sign)
    → (is_in_flight_job_state s ≡ true) × ((job_states s).requires_leg ≡ true)
unfolding is_in_flight_job_state
effect_needs_leg s h = ground arith

pub in_flight_edge :
    (s t : JobState)
    → is_in_flight_job_state s ≡ true
    → s ⟶ t
    → (is_in_flight_job_state t ≡ true) ⊎ (t ≡ JobState.failed) ⊎ (s ≡ JobState.reconciling)
unfolding can_transition is_in_flight_job_state
in_flight_edge s t h e = ground arith

-- A sequence of states, each one edge from the one before.
abbrev pub IsWalk : List JobState → Type 0
IsWalk [] = Unit
IsWalk (s ∷ []) = Unit
IsWalk (s ∷ t ∷ r) = (s ⟶ t) × IsWalk (t ∷ r)

abbrev pub last : JobState → List JobState → JobState
last s [] = s
last s (t ∷ r) = last t r

failed_stays :
    (ts : List JobState) → IsWalk (JobState.failed ∷ ts) → last JobState.failed ts ≡ JobState.failed
unfolding can_transition
failed_stays [] w = refl
failed_stays (t ∷ r) w = cc (w.0)

-- Every walk from an in-flight state that ends anywhere but in flight or in FAILED has been in
-- RECONCILING.
pub in_flight_walk :
    (s : JobState) (ts : List JobState)
    → is_in_flight_job_state s ≡ true
    → IsWalk (s ∷ ts)
    → is_in_flight_job_state (last s ts) ≡ false
    → last s ts ≢ JobState.failed
    → includes (s ∷ ts) JobState.reconciling ≡ true
in_flight_walk s [] h w out nf = cc
in_flight_walk s (t ∷ r) h w out nf = elim (in_flight_edge s t h w.0) [
  | inl ht ↦
      let tail = in_flight_walk t r ht w.1 out nf in
      elim (Bool-cases (state_eq s JobState.reconciling)) [ inl e ↦ rw e | inr e ↦ rw e tail ]
  | inr (inl e) ↦
      absurd
        (nf (subst (λ u. IsWalk (u ∷ r) → last u r ≡ JobState.failed) (sym e) (failed_stays r) w.1))
  | inr (inr e) ↦ rw e
]

-- Every job can still be brought to a terminal state, within two edges.
pub terminal_in_reach :
    (s : JobState)
    → is_terminal_job_state s ≡ false
    → (s ⟶ JobState.failed)
      ⊎ ((s ⟶ JobState.reconciling) × (JobState.reconciling ⟶ JobState.failed))
unfolding can_transition is_terminal_job_state
terminal_in_reach s h = ground arith

-- Any number of edges, in the order in which they are taken.
infix 40 ◌⟶*◌
pub data ◌⟶*◌ : JobState → JobState → Type 0 where
  here : {s : JobState} → s ⟶* s
  onward : {s t u : JobState} → s ⟶* t → t ⟶ u → s ⟶* u

pub ⟶*-trans : {s t u : JobState} → s ⟶* t → t ⟶* u → s ⟶* u
⟶*-trans p here = p
⟶*-trans p (onward q e) = onward (⟶*-trans p q) e

-- Nothing follows a terminal state.
pub terminal_stays : {s t : JobState} → is_terminal_job_state s ≡ true → s ⟶* t → t ≡ s
terminal_stays h here = refl
terminal_stays {s} h (onward {t = t} q e) =
    let same : t ≡ s = terminal_stays h q in
    absurd ((terminal_iff t).0 (ap is_terminal_job_state same ∙ h) _ e)

pub failed_over : is_terminal_job_state JobState.failed ≡ true
unfolding is_terminal_job_state
failed_over = refl

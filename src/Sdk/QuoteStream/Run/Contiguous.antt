-- ===== src/Sdk/QuoteStream/Run/Contiguous.antt =====
-- What the listeners of packages/sdk/src/quote-stream.ts are told: no frame is missed unsaid.
use waterx_predict_agent.Base.{
  ℕ, ◌==◌, Bool, true, false, not, ◌&&◌, Bool-cases, if◌then◌else◌, inl, inr, Option, none, some,
  any, List, [], ◌∷◌, ◌++◌, map, update, All, All-update, ◌≡◌, refl,
}
use waterx_predict_agent.Sdk.QuoteStream.{
  QuoteTopic, update_frame, QuoteFrame, RejectionReason, QuoteUnavailableReason, QuoteStreamEvent,
  frame, unavailable, is_terminal_rejection, Registration, QuoteStream, is_on, emit_to, give_up,
  flush,
}
use waterx_predict_agent.Sdk.QuoteStream.Handlers.{
  add_listener, follows, missed, receive, reject, reject_each, behind, catch_up, beat_each,
}

-- An update that is told right behind a frame has the next number, if that frame has one.
abbrev pub Follows : QuoteStreamEvent → QuoteStreamEvent → Type 0
Follows (frame f) (frame g) = f.kind ≡ update_frame → follows f.seq g.seq ≡ true
Follows _ _ = Unit

abbrev pub IsContiguous : List QuoteStreamEvent → Type 0
IsContiguous [] = Unit
IsContiguous (e ∷ []) = Unit
IsContiguous (e ∷ d ∷ rest) = Follows e d × IsContiguous (d ∷ rest)

-- The registration has the number of the frame told last.
abbrev pub HasLast : Option ℕ → List QuoteStreamEvent → Type 0
HasLast seq (frame f ∷ rest) = seq ≡ f.seq
HasLast seq _ = Unit

abbrev pub IsQuiet : List QuoteStreamEvent → Type 0
IsQuiet (frame f ∷ rest) = ⊥
IsQuiet _ = Unit

abbrev pub IsTracked : Bool → Registration → Type 0
IsTracked ready r = IsContiguous r.told × HasLast r.seq r.told × (ready ≡ false → IsQuiet r.told)

pub tell-unavailable :
    (ready : Bool) (reason : QuoteUnavailableReason) (r : Registration)
    → IsTracked ready r
    → IsTracked ready (emit_to (unavailable reason) r)
tell-unavailable ready reason r h = (one r.told h.0, tt, λ e. tt)
  where
    one :
        (told : List QuoteStreamEvent)
        → IsContiguous told
        → IsContiguous (unavailable reason ∷ told)
    one [] c = tt
    one (e ∷ told) c = (tt, c)

tell-frame :
    (f : QuoteFrame) (seq : Option ℕ) (told : List QuoteStreamEvent)
    → IsContiguous told
    → HasLast seq told
    → (f.kind ≡ update_frame → follows f.seq seq ≡ true)
    → IsContiguous (frame f ∷ told)
tell-frame f seq [] c l n = tt
tell-frame f seq (unavailable reason ∷ told) c l n = (tt, c)
tell-frame f seq (frame g ∷ told) c l n = (λ k. rw (← l) (n k), c)

not-false : (b : Bool) → not b ≡ false → b ≡ true
not-false true e = refl
not-false false e = cc

told_update :
    (f : QuoteFrame) (r : Registration)
    → missed f r ≡ false
    → f.kind ≡ update_frame
    → follows f.seq r.seq ≡ true
told_update f r fine k = not-false (follows f.seq r.seq) (rw k at fine)

pub receive-IsTracked :
    (f : Option QuoteFrame) (r : Registration) → IsTracked true r → IsTracked true (receive f r)
unfolding receive
receive-IsTracked none r h = tell-unavailable true QuoteUnavailableReason.gap r h
receive-IsTracked (some f) r h = elim (Bool-cases (missed f r)) [
  | inl gone ↦
      let said = tell-unavailable true QuoteUnavailableReason.gap r h in
      rw gone ((tt, said.0), refl, λ e. cc)
  | inr fine ↦ rw fine (tell-frame f r.seq r.told h.0 h.1 (told_update f r fine), refl, λ e. cc)
]

-- What holds of every registration, and of the connection.
pub record IsKept (s : QuoteStream) : Type 0 where
  pub tracked : All (IsTracked s.ever_ready) s.topics
  pub ready : s.live ≡ true → s.ever_ready ≡ true

pub All-under {κ} :
    (P Q : Registration → Type κ) (g : Registration → Registration)
    → ((r : Registration) → P r → Q (g r))
    → (l : List Registration) → All P l
    → All Q (map g l)
All-under P Q g f [] h = tt
All-under P Q g f (x ∷ l) h = (f x h.0, All-under P Q g f l h.1)

pub All-end {κ} :
    (P : Registration → Type κ) (x : Registration) (l : List Registration)
    → P x
    → All P l
    → All P (l ++ (x ∷ []))
All-end P x [] p h = (p, tt)
All-end P x (y ∷ l) p h = (h.0, All-end P x l p h.1)

-- Any change of one topic that keeps a registration tracked.
pub All-one :
    {ready : Bool} (topic : QuoteTopic) (g : Registration → Registration) (l : List Registration)
    → ((r : Registration) → IsTracked ready r → IsTracked ready (g r))
    → All (IsTracked ready) l
    → All (IsTracked ready) (update (is_on topic) g l)
All-one topic g l keep h = All-update (is_on topic) g l (λ r e p. keep r p) (λ r e p. p) h

pub add_listener-IsTracked :
    (ready : Bool) (listener : ℕ) (r : Registration)
    → IsTracked ready r
    → IsTracked ready (add_listener listener r)
add_listener-IsTracked ready listener r h =
    elim (Bool-cases (any (λ (l : ℕ). l == listener) r.listeners)) [
      | inl e ↦ rw e h
      | inr e ↦ rw e h
    ]

reject-IsTracked :
    (ready : Bool) (reason : RejectionReason) (r : Registration)
    → IsTracked ready r
    → IsTracked ready (reject reason r)
reject-IsTracked ready reason r h = elim (Bool-cases (is_terminal_rejection reason)) [
  | inl e ↦ rw e (tell-unavailable ready (QuoteUnavailableReason.rejected reason) r h)
  | inr e ↦ rw e (tell-unavailable ready (QuoteUnavailableReason.rejected reason) r h)
]

pub reject_each-IsTracked :
    (ready : Bool) (rejections : List (QuoteTopic × RejectionReason)) (l : List Registration)
    → All (IsTracked ready) l
    → All (IsTracked ready) (reject_each rejections l)
reject_each-IsTracked ready [] l h = h
reject_each-IsTracked ready ((topic, reason) ∷ rest) l h =
    reject_each-IsTracked ready rest _
      (All-one topic (reject reason) l (reject-IsTracked ready reason) h)

catch_up-IsTracked :
    (ready : Bool) (seq : ℕ) (r : Registration)
    → IsTracked ready r
    → IsTracked ready (catch_up seq r)
catch_up-IsTracked ready seq r h = elim (Bool-cases (behind seq r.seq)) [
  | inl e ↦
      let said = tell-unavailable ready QuoteUnavailableReason.gap r h in rw e (said.0, tt, λ u. tt)
  | inr e ↦ rw e h
]

pub beat_each-IsTracked :
    (ready : Bool) (entries : List (QuoteTopic × Option ℕ)) (l : List Registration)
    → All (IsTracked ready) l
    → All (IsTracked ready) (beat_each entries l)
beat_each-IsTracked ready [] l h = h
beat_each-IsTracked ready ((topic, none) ∷ rest) l h = beat_each-IsTracked ready rest l h
beat_each-IsTracked ready ((topic, some seq) ∷ rest) l h =
    beat_each-IsTracked ready rest _
      (All-one topic (catch_up seq) l (catch_up-IsTracked ready seq) h)

pub notify-IsTracked :
    (ready : Bool) (reason : QuoteUnavailableReason) (l : List Registration)
    → All (IsTracked ready) l
    → All (IsTracked ready) (map (emit_to (unavailable reason)) l)
notify-IsTracked ready reason l h =
    All-under (IsTracked ready) (IsTracked ready) (emit_to (unavailable reason))
      (tell-unavailable ready reason) l h

-- Either way that a test comes out.
pub either-IsKept :
    (b : Bool) (s t : QuoteStream) → IsKept s → IsKept t → IsKept (if b then s else t)
either-IsKept true s t h k = h
either-IsKept false s t h k = k

pub flush-IsKept : (s : QuoteStream) → IsKept s → IsKept (flush s)
unfolding flush
flush-IsKept s h =
    either-IsKept (s.socket && s.live) _ _
      (record {
        tracked =
            All-under (IsTracked s.ever_ready) (IsTracked s.ever_ready)
              (λ (r : Registration). record r { pending = none }) (λ r p. p) s.topics h.tracked;
        ready = h.ready;
      })
      (record { tracked = h.tracked; ready = h.ready })

pub give_up-IsKept : (s : QuoteStream) → IsKept s → IsKept (give_up s)
unfolding give_up
give_up-IsKept s h = either-IsKept s.degraded _ _ h (record {
  tracked = notify-IsTracked s.ever_ready QuoteUnavailableReason.degraded s.topics h.tracked;
  ready = λ bad. cc;
})

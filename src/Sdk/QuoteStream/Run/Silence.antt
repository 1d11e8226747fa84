-- ===== src/Sdk/QuoteStream/Run/Silence.antt =====
-- A silent connection in packages/sdk/src/quote-stream.ts: no price survives it.
use waterx_predict_agent.Base.{
  ◌+◌, leb, Bool, true, false, ◌||◌, if◌then◌else◌, List, [], ◌∷◌, map, All, ◌≡◌, refl,
}
use waterx_predict_agent.Sdk.QuoteStream.{
  QuoteUnavailableReason, unavailable, Registration, StreamOptions, QuoteStream, emit_to, give_up,
}
use waterx_predict_agent.Sdk.QuoteStream.Handlers.{hushed, handle_silence}
use waterx_predict_agent.Sdk.QuoteStream.Run.Contiguous.{IsQuiet}

-- Nobody holds a price, and no frame is on its way.
pub record IsSilent (s : QuoteStream) : Type 0 where
  pub quiet : All (λ r. IsQuiet r.told) s.topics
  pub dead : s.live ≡ false

notified :
    (reason : QuoteUnavailableReason) (l : List Registration)
    → All (λ r. IsQuiet r.told) (map (emit_to (unavailable reason)) l)
notified reason [] = tt
notified reason (r ∷ l) = (tt, notified reason l)

either-IsSilent :
    (b : Bool) (s t : QuoteStream) → IsSilent s → IsSilent t → IsSilent (if b then s else t)
either-IsSilent true s t h k = h
either-IsSilent false s t h k = k

hushed-IsSilent : (s : QuoteStream) → IsSilent (hushed s)
hushed-IsSilent s = record {
  quiet = notified QuoteUnavailableReason.disconnected s.topics;
  dead = refl;
}

give_up-IsSilent : (s : QuoteStream) → IsSilent s → IsSilent (give_up s)
unfolding give_up
give_up-IsSilent s h =
    either-IsSilent s.degraded _ _ h
      (record { quiet = notified QuoteUnavailableReason.degraded s.topics; dead = refl })

handle_silence-IsSilent : (o : StreamOptions) (s : QuoteStream) → IsSilent (handle_silence o s)
unfolding handle_silence
handle_silence-IsSilent o s =
    let h = hushed-IsSilent s in
    either-IsSilent (leb o.max_silent_windows (s.silent_windows + 1)) _ _
      (give_up-IsSilent (hushed s) h)
      (either-IsSilent ((s.closed || s.degraded) || (false || s.opening)) _ _
        (record { quiet = h.quiet; dead = refl }) (record { quiet = h.quiet; dead = refl }))

-- A silent window leaves nobody with a price: what each listener was told last is that there is
-- none, and no frame is on its way.
pub handle_silence-IsQuiet :
    (o : StreamOptions) (s : QuoteStream)
    → All (λ r. IsQuiet r.told) (handle_silence o s).topics × ((handle_silence o s).live ≡ false)
handle_silence-IsQuiet o s = let h = handle_silence-IsSilent o s in (h.quiet, h.dead)

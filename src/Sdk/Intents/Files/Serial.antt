-- ===== src/Sdk/Intents/Files/Serial.antt =====
-- Sections on one ledger of packages/sdk/src/intent-store.ts leave what some order of their calls
-- would leave.
use waterx_predict_agent.Base.{
  ◌⊎◌, ℕ, ◌==◌, ==_iff, Bool-cases, inl, inr, true, false, Option, none, some, some_injective, List,
  [], ◌∷◌, ◌++◌, Text, ◌≡◌, ◌≢◌, refl, sym, ◌∙◌, arith,
}
use waterx_predict_agent.Sdk.Intents.Ledger.{ok, Records}
use waterx_predict_agent.Sdk.Intents.Ledger.Run.{Call, step, run}
use waterx_predict_agent.Sdk.Intents.Ledger.Usable.{IsSound}
use waterx_predict_agent.Sdk.Intents.Ledger.Digests.{run-IsSound}
use waterx_predict_agent.Sdk.Intents.Files.{
  Phase, away, opened, loaded, fenced, Files, set_phase, unlocked, FileStep, acquire, load, fence,
  commit, release, no_files, Reach, start, next,
}

module _ (sha256 : Text → Text) where
  -- Only the holder of the lock is in a section, and what it has read is what stands there.
  record IsExclusive (f : Files) : Type 0 where
    alone : (t : ℕ) → f.phase t ≢ away → f.lock ≡ some t
    read : (t : ℕ) (r : Records) → f.phase t ≡ loaded r → r ≡ f.ledger
    made :
        (t : ℕ) (r : Records) → f.phase t ≡ fenced r → (c : Call) × (step sha256 c f.ledger ≡ ok r)

  run-append :
      (cs : List Call) (c : Call) (records after : Records)
      → step sha256 c (run sha256 cs records) ≡ ok after
      → run sha256 (cs ++ (c ∷ [])) records ≡ after
  unfolding run
  run-append [] c records after e = rw e refl
  run-append (d ∷ cs) c records after e = run-append cs c _ after e

  -- Where all but one are away.
  sole :
      (g : Files) (token : ℕ)
      → ((t : ℕ) → (t == token) ≡ false → g.phase t ≡ away)
      → (g.phase token ≢ away → g.lock ≡ some token)
      → ((r : Records) → g.phase token ≡ loaded r → r ≡ g.ledger)
      → ((r : Records) → g.phase token ≡ fenced r → (c : Call) × (step sha256 c g.ledger ≡ ok r))
      → IsExclusive g
  sole g token others lock read made = record {
    alone = λ t busy. elim (Bool-cases (t == token)) [
      | inl q ↦ let e = (==_iff t token).0 q in rw e (lock (rw e at busy))
      | inr q ↦ absurd (busy (others t q))
    ];
    read = λ t r e. elim (Bool-cases (t == token)) [
      | inl q ↦ let same = (==_iff t token).0 q in read r (rw same at e)
      | inr q ↦ let gone = others t q in let bad : away ≡ loaded r = sym gone ∙ e in cc
    ];
    made = λ t r e. elim (Bool-cases (t == token)) [
      | inl q ↦ let same = (==_iff t token).0 q in made r (rw same at e)
      | inr q ↦ let gone = others t q in let bad : away ≡ fenced r = sym gone ∙ e in cc
    ];
  }

  away-cases : (p : Phase) → (p ≡ away) ⊎ (p ≢ away)
  away-cases away = inl refl
  away-cases opened = inr (λ e. cc)
  away-cases (loaded r) = inr (λ e. cc)
  away-cases (fenced r) = inr (λ e. cc)

  -- The others are away while one is not, and all are where there is no lock.
  others_away :
      (f : Files) (token : ℕ)
      → IsExclusive f
      → (f.lock ≡ none) ⊎ (f.lock ≡ some token)
      → (t : ℕ) → (t == token) ≡ false
      → f.phase t ≡ away
  others_away f token h lock t q = elim (away-cases (f.phase t)) [
    | inl e ↦ e
    | inr busy ↦
        let mine = h.alone t busy in
        elim lock [
          | inl free ↦ let bad : some t ≡ none = sym mine ∙ free in cc
          | inr held ↦
              let same : t ≡ token = some_injective (sym mine ∙ held) in
              let bad : (t == token) ≡ true = (==_iff t token).1 same in cc
        ]
  ]

  set-here : (phase : ℕ → Phase) (token : ℕ) (p : Phase) → set_phase phase token p token ≡ p
  set-here phase token p = ground arith

  set-elsewhere :
      (f : Files) (token : ℕ) (p : Phase)
      → ((t : ℕ) → (t == token) ≡ false → f.phase t ≡ away)
      → (t : ℕ) → (t == token) ≡ false
      → set_phase f.phase token p t ≡ away
  set-elsewhere f token p others t q = rw q (others t q)

  unlocked-own : (token : ℕ) (lock : Option ℕ) → lock ≡ some token → unlocked token lock ≡ none
  unlocked-own token lock e = rw e (ground arith)

  not_away :
      (f : Files) (token : ℕ) (p : Phase) → f.phase token ≡ p → p ≢ away → f.phase token ≢ away
  not_away f token p e other gone = other (sym e ∙ gone)

  Step-IsExclusive : {f g : Files} → FileStep sha256 f g → IsExclusive f → IsExclusive g
  Step-IsExclusive (acquire f token free here) h =
      sole (record f { lock = some token; phase = set_phase f.phase token opened }) token
        (set-elsewhere f token opened (others_away f token h (inl free))) (λ busy. refl)
        (λ r e. let bad : opened ≡ loaded r = sym (set-here f.phase token opened) ∙ e in cc)
        (λ r e. let bad : opened ≡ fenced r = sym (set-here f.phase token opened) ∙ e in cc)
  Step-IsExclusive (load f token here fine) h =
      let mine = h.alone token (not_away f token opened here (λ e. cc)) in
      sole (record f { phase = set_phase f.phase token (loaded f.ledger) }) token
        (set-elsewhere f token (loaded f.ledger) (others_away f token h (inr mine))) (λ busy. mine)
        (λ r e.
          let same : loaded f.ledger ≡ loaded r =
            sym (set-here f.phase token (loaded f.ledger)) ∙ e in
          cc)
        (λ r e.
          let bad : loaded f.ledger ≡ fenced r =
            sym (set-here f.phase token (loaded f.ledger)) ∙ e in
          cc)
  Step-IsExclusive (fence f token c records after here e0 own) h =
      let mine = h.alone token (not_away f token (loaded records) here (λ e. cc)) in
      sole (record f { phase = set_phase f.phase token (fenced after) }) token
        (set-elsewhere f token (fenced after) (others_away f token h (inr mine))) (λ busy. mine)
        (λ r e.
          let bad : fenced after ≡ loaded r = sym (set-here f.phase token (fenced after)) ∙ e in cc)
        (λ r e.
          let same : fenced after ≡ fenced r = sym (set-here f.phase token (fenced after)) ∙ e in
          let result : after ≡ r = cc in (c, rw (← h.read token records here, ← result) e0))
  Step-IsExclusive (commit f token after here) h =
      let mine = h.alone token (not_away f token (fenced after) here (λ e. cc)) in
      sole (record f { ledger = after; phase = set_phase f.phase token opened }) token
        (set-elsewhere f token opened (others_away f token h (inr mine))) (λ busy. mine)
        (λ r e. let bad : opened ≡ loaded r = sym (set-here f.phase token opened) ∙ e in cc)
        (λ r e. let bad : opened ≡ fenced r = sym (set-here f.phase token opened) ∙ e in cc)
  Step-IsExclusive (release f token busy) h =
      let mine = h.alone token busy in
      sole (record f { lock = unlocked token f.lock; phase = set_phase f.phase token away }) token
        (set-elsewhere f token away (others_away f token h (inr mine)))
        (λ again. absurd (again (set-here f.phase token away)))
        (λ r e. let bad : away ≡ loaded r = sym (set-here f.phase token away) ∙ e in cc)
        (λ r e. let bad : away ≡ fenced r = sym (set-here f.phase token away) ∙ e in cc)

  start-IsExclusive : IsExclusive no_files
  start-IsExclusive = record {
    alone = λ t busy. absurd (busy refl);
    read = λ t r e. cc;
    made = λ t r e. cc;
  }

  Reach-IsExclusive : {f : Files} → Reach sha256 f → IsExclusive f
  Reach-IsExclusive start = start-IsExclusive
  Reach-IsExclusive (next r s) = Step-IsExclusive s (Reach-IsExclusive r)

  serial : {f : Files} → Reach sha256 f → (cs : List Call) × (f.ledger ≡ run sha256 cs [])
  unfolding run
  serial start = ([], refl)
  serial (next r (acquire f token free here)) = serial r
  serial (next r (load f token here fine)) = serial r
  serial (next r (fence f token c records after here e own)) = serial r
  serial (next r (commit f token after here)) =
      let (cs, same) = serial r in
      let (c, made) = (Reach-IsExclusive r).made token after here in
      (cs ++ (c ∷ []), sym (run-append cs c [] after (rw (← same) made)))
  serial (next r (release f token busy)) = serial r

-- Two processes are never in a section together, and however their steps interleave, the ledger is
-- the one that some order of their calls leaves, so that the next load reads it back, with one key
-- and one execution to a record.
pub Reach-IsSerial :
    (sha256 : Text → Text) {f : Files}
    → Reach sha256 f
    → ((t u : ℕ) → f.phase t ≢ away → f.phase u ≢ away → t ≡ u)
      × ((cs : List Call) × (f.ledger ≡ run sha256 cs []))
      × IsSound sha256 f.ledger
Reach-IsSerial sha256 r =
    let h = Reach-IsExclusive sha256 r in
    let (cs, same) = serial sha256 r in
    (
      λ t u busy also. some_injective (sym (h.alone t busy) ∙ h.alone u also),
      (cs, same),
      rw same ((run-IsSound sha256 cs).1),
    )

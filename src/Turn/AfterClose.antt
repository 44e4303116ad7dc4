-- ===== src/Turn/AfterClose.antt =====
-- Proofs on the signals that still arrive for a turn that has just been closed
-- (crates/speech-core-daemon/src/detectors/turn.rs).
use speech_core.Base.{
  ℕ, ◌-◌, ◌≤◌, ◌<◌, true, ◌||◌, not, Option, none, some, List, [], ◌≡◌, ◌⊎◌, inl, inr, refl, sym,
  subst, if_cases, is_none, arith,
}
use speech_core.Progress.State.{is_speech_evidence_text}
use speech_core.Turn.Config.{TurnManagerConfig, ms_to_samples}
use speech_core.Turn.Signals.{
  TranscriptTokenCommitted, ModelEou, VadSegmentEnd, VadAcousticFallback, ModelDrainHandle,
  DetectorAction,
}
use speech_core.Turn.Local.{Env, Local, M, ok, TurnSession}
use speech_core.Turn.Close.{
  CloseRequest, count_close, dispatch_turn, close_specific_turn, close_turn,
}
use speech_core.Turn.Handlers.Shared.{is_stale}
use speech_core.Turn.Handlers.Token.{late_for_closed_turn, ghost_late_token, on_transcript_token}
use speech_core.Turn.Handlers.Model.{
  too_early, vad_still_in_speech, refractory, no_new_vad_speech_since_close, eou_suppressed,
  on_model_eou,
}
use speech_core.Turn.Post.{Post, good, Post-if, Post-state, Post-write, Post-after_write}
use speech_core.Turn.Handlers.Silence.{on_vad_acoustic_fallback}
use speech_core.Turn.Handlers.Segment.{on_vad_segment_end}

-- The session as a close at `decision` leaves it.
pub record JustClosed (decision : ℕ) (s : TurnSession) : Type 0 where
  pub no_turn : s.open_turn ≡ none
  pub closed : s.last_closed_decision_sample ≡ some decision

-- The VAD has spoken, and not since the close.
pub record NoNewSpeech (decision : ℕ) (s : TurnSession) : Type 0 where
  pub seen : s.saw_vad_signal ≡ true
  pub started : ℕ
  pub start : s.last_vad_start_sample ≡ some started
  pub before : started ≤ decision

late_tests :
    (end_sample decision : ℕ) (s : TurnSession)
    → JustClosed decision s
    → (end_sample ≤ decision) ⊎ NoNewSpeech decision s
    → (late_for_closed_turn end_sample s || ghost_late_token s) ≡ true
unfolding late_for_closed_turn ghost_late_token
late_tests end_sample decision s c (inl h) = rw c.closed (ground arith)
late_tests end_sample decision s c (inr h) =
    rw (c.closed, c.no_turn, h.seen, h.start) (ground (arith, h.before))

suppressed_tests :
    (config : TurnManagerConfig) (e : ModelEou) (decision : ℕ) (s : TurnSession)
    → JustClosed decision s
    → (e.decision_sample - decision < ms_to_samples config.model_eou_refractory_ms)
      ⊎ NoNewSpeech decision s
    → (too_early config e s
        || vad_still_in_speech s
        || refractory config e s
        || no_new_vad_speech_since_close s)
      ≡ true
unfolding refractory no_new_vad_speech_since_close
suppressed_tests config e decision s c (inl h) = rw c.closed (ground arith)
suppressed_tests config e decision s c (inr h) =
    rw (c.closed, h.seen, h.start) (ground (arith, h.before))

stale_tests :
    (sample decision : ℕ) (s : TurnSession)
    → JustClosed decision s
    → sample ≤ decision
    → is_stale sample s ≡ true
unfolding is_stale
stale_tests sample decision s c h = rw (c.closed, c.no_turn) (ground arith)

-- What the session and the progress were, they still are.
abbrev pub Unchanged : Local → Local → Type 0
Unchanged before after = (after.session ≡ before.session) × (after.progress ≡ before.progress)

-- The session after a close.
abbrev closed_session : CloseRequest → TurnSession → TurnSession
closed_session c s = count_close c (record s { open_turn = none })

closed_session-JustClosed :
    (c : CloseRequest) (s : TurnSession) → JustClosed c.decision_sample (closed_session c s)
unfolding count_close
closed_session-JustClosed c s = record { no_turn = refl; closed = refl }

module _ ⦃env : Env⦄ where
  -- A close leaves the session so, whatever becomes of its writes.
  close_turn-session :
      (c : CloseRequest) (l : Local) → (close_turn c l).1.session ≡ closed_session c l.session
  unfolding close_turn close_specific_turn dispatch_turn
  close_turn-session c l =
      Post-state {I = λ m. m.session ≡ closed_session c l.session}
        (Post-after_write _ _ _ refl (Post-after_write _ _ _ refl (Post-write _ _ refl refl)))

  close_turn-JustClosed :
      (c : CloseRequest) (l : Local) → JustClosed c.decision_sample (close_turn c l).1.session
  close_turn-JustClosed c l =
      subst (JustClosed c.decision_sample) (sym (close_turn-session c l))
        (closed_session-JustClosed c l.session)

  close_turn-NoNewSpeech :
      (c : CloseRequest) (decision : ℕ) (l : Local)
      → NoNewSpeech decision l.session
      → NoNewSpeech decision (close_turn c l).1.session
  unfolding count_close
  close_turn-NoNewSpeech c decision l n =
      subst (NoNewSpeech decision) (sym (close_turn-session c l))
        (record { seen = n.seen; started = n.started; start = n.start; before = n.before })

  late-on_transcript_token :
      (s : TranscriptTokenCommitted) (decision : ℕ) (l : Local)
      → JustClosed decision l.session
      → (s.end_sample ≤ decision) ⊎ NoNewSpeech decision l.session
      → Post (Unchanged l) (Unchanged l) (on_transcript_token s l)
  unfolding on_transcript_token
  late-on_transcript_token s decision l c h =
      Post-if (not (is_speech_evidence_text ⦃u = env.unicode⦄ s.text)) _ _ l
        (λ _. good _ l (refl, refl))
        λ _.
          Post-after_write _ _ _ (refl, refl)
            (Post-if (late_for_closed_turn s.end_sample l.session || ghost_late_token l.session) _ _
              _ (λ _. good _ _ (refl, refl))
              (λ f. absurd (ground (arith, late_tests s.end_sample decision l.session c h))))

  -- After a close, a token that ends at or before the close's decision opens no turn and changes
  -- neither the session nor the progress; and while the VAD has spoken but has not reported a new
  -- start past that decision, neither does any other token.
  pub close_turn-on_transcript_token :
      (c : CloseRequest) (s : TranscriptTokenCommitted) (l : Local)
      → (s.end_sample ≤ c.decision_sample) ⊎ NoNewSpeech c.decision_sample l.session
      → let closed = (close_turn c l).1 in
        (closed.session.open_turn ≡ none) × Unchanged closed (on_transcript_token s closed).1
  close_turn-on_transcript_token c s l h =
      let closed = close_turn-JustClosed c l in
      (
        closed.no_turn,
        Post-state (
            late-on_transcript_token s c.decision_sample _ closed
              (elim h [ inl e ↦ inl e | inr n ↦ inr (close_turn-NoNewSpeech c _ l n) ])),
      )

  late-on_model_eou :
      (config : TurnManagerConfig) (e : ModelEou) (decision : ℕ) (l : Local)
      → JustClosed decision l.session
      → (e.decision_sample - decision < ms_to_samples config.model_eou_refractory_ms)
        ⊎ NoNewSpeech decision l.session
      → Post (Unchanged l) (Unchanged l) (on_model_eou config e l)
  unfolding on_model_eou eou_suppressed
  late-on_model_eou config e decision l c h =
      Post-if
        (too_early config e l.session
          || vad_still_in_speech l.session
          || refractory config e l.session
          || no_new_vad_speech_since_close l.session)
        _ _ l (λ _. Post-after_write _ _ _ (refl, refl) (good _ _ (refl, refl)))
        (λ f. absurd (ground (arith, suppressed_tests config e decision l.session c h)))

  -- After a close, an end of utterance of the model within the refractory time opens no turn,
  -- closes none and changes neither the session nor the progress; and while the VAD has spoken but
  -- has not reported a new start past the close's decision, neither does any later one.
  pub close_turn-on_model_eou :
      (config : TurnManagerConfig) (c : CloseRequest) (e : ModelEou) (l : Local)
      → (e.decision_sample - c.decision_sample < ms_to_samples config.model_eou_refractory_ms)
        ⊎ NoNewSpeech c.decision_sample l.session
      → let closed = (close_turn c l).1 in
        (closed.session.open_turn ≡ none) × Unchanged closed (on_model_eou config e closed).1
  close_turn-on_model_eou config c e l h =
      let closed = close_turn-JustClosed c l in
      (
        closed.no_turn,
        Post-state (
            late-on_model_eou config e c.decision_sample _ closed
              (elim h [ inl r ↦ inl r | inr n ↦ inr (close_turn-NoNewSpeech c _ l n) ])),
      )

  -- After a close, a VAD end and an acoustic fallback whose decision is at or before that of the
  -- close are dropped: nothing at all changes, and no event is written.
  pub close_turn-stale :
      (config : TurnManagerConfig) (drain : Option ModelDrainHandle) (c : CloseRequest)
      (s : VadSegmentEnd) (f : VadAcousticFallback) (l : Local)
      → s.decision_sample ≤ c.decision_sample
      → f.decision_sample ≤ c.decision_sample
      → let closed = (close_turn c l).1 in
        (on_vad_segment_end config drain s closed ≡ (ok [], closed))
        × (on_vad_acoustic_fallback config f closed ≡ (ok [], closed))
  unfolding on_vad_segment_end on_vad_acoustic_fallback
  close_turn-stale config drain c s f l h k =
      let closed = (close_turn c l).1 in
      (
        if_cases (λ (m : M (List DetectorAction)). m closed ≡ (ok [], closed))
            (is_stale s.decision_sample closed.session) (λ _. refl)
            (λ e.
              absurd
                (ground (arith, stale_tests s.decision_sample _ _ (close_turn-JustClosed c l) h))),
        if_cases (λ (m : M (List DetectorAction)). m closed ≡ (ok [], closed))
            (is_stale f.decision_sample closed.session || is_none closed.session.open_turn)
            (λ _. refl)
            (λ e.
              absurd
                (ground (arith, stale_tests f.decision_sample _ _ (close_turn-JustClosed c l) k))),
      )

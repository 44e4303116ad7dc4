-- ===== src/Turn/Invariant/Others.antt =====
-- The invariant through the handlers of held speech, silence, tokens and model decisions
-- (crates/speech-core-daemon/src/detectors/turn.rs).
use speech_core.Base.{
  ℕ, ◌-◌, Bool, true, false, ◌||◌, not, String, Option, none, some, List, ◌≡◌, refl, ltb, ◌==◌,
  is_none, max, if◌then◌else◌,
}
use speech_core.Progress.State.{is_speech_evidence_text}
use speech_core.Turn.Config.{TurnManagerConfig, ms_to_samples}
use speech_core.Turn.Signals.{
  VadSpeechPresence, VadLowSilence, VadAcousticFallback, TranscriptTokenCommitted, ModelEou,
  SemanticTurnDecision, ModelDrainHandle,
}
use speech_core.Turn.Events.{Event}
use speech_core.Turn.Local.{Env, Local, return, OpenTurn}
use speech_core.Turn.Align.Untouched.{wait_for_model_progress-SameBut}
use speech_core.Turn.Close.{turn_start_or}
use speech_core.Turn.Handlers.Shared.{is_stale, hold_anchor, hold_fires}
use speech_core.Turn.Handlers.Hold.{
  presence_hold, hold_progress, live_presence, on_vad_speech_presence,
}
use speech_core.Turn.Handlers.Silence.{
  wait_model, wait_choice, quiet_anchor, is_quiet, quiet_close, quiet_choice, on_vad_low_silence,
  fallback_close, fallback_too_short, fallback_candidate, on_vad_acoustic_fallback,
}
use speech_core.Turn.Handlers.Token.{
  late_for_closed_turn, ghost_late_token, open_transcript_turn, keep_token, on_transcript_token,
}
use speech_core.Turn.Handlers.Model.{
  provisional_start, too_early, vad_still_in_speech, refractory, no_new_vad_speech_since_close,
  eou_suppressed, eou_close, eou_accepted, on_model_eou, record_semantic_decision,
  close_turn_from_semantic, on_semantic_turn_decision,
}
use speech_core.Turn.Post.{Post, good, Post-continue, Post-if, Post-weaken}
use speech_core.Turn.Invariant.{Inv, Open}
use speech_core.Turn.Invariant.Closing.{close_turn-Inv}
use speech_core.Turn.Invariant.Session.{
  Inv-session, Open-session, write-Inv, write-Open, start_turn-Open, note_turn_opened-Open,
}
use speech_core.Turn.Invariant.Shared.{
  open_of, SameBut-Open, turn_id_or_next-Open, ensure_turn-SomeOpen, aligned_close-Inv,
}

or_false_right : (a : Bool) {b : Bool} → (a || b) ≡ false → b ≡ false
or_false_right true e = cc
or_false_right false e = e

module _ ⦃env : Env⦄ {key : String} {base : List Event} where
  live_presence-Inv :
      (config : TurnManagerConfig) (drain : Option ModelDrainHandle) (s : VadSpeechPresence)
      {turn : OpenTurn} (l : Local)
      → Open key base turn l
      → Post (Inv key base) (Inv key base) (live_presence config drain s l)
  unfolding live_presence presence_hold hold_progress
  live_presence-Inv config drain s l o =
      let anchor =
        hold_anchor s.ids.stream_session_id (turn_start_or l.session.open_turn s.start_sample) l in
      Post-if
        (hold_fires s.decision_sample anchor (ms_to_samples config.human_hold_silence_ms)
          l.session.last_human_hold_token_anchor)
        _ _ l
        (λ _.
          Post-continue (write-Open _ _ (λ h. h) (Open-session _ (refl, refl, refl, refl, refl) o))
            λ _ l1 o1.
              aligned_close-Inv config drain s.ids _ _ s.decision_sample s.decision_sample
                s.start_sample l1 o1 (turn_id_or_next-Open o))
        (λ _. Post-continue (write-Inv _ _ (λ h. h) o.inv) λ _ l1 i1. good _ l1 i1)

  pub on_vad_speech_presence-Inv :
      (config : TurnManagerConfig) (drain : Option ModelDrainHandle) (s : VadSpeechPresence)
      (l : Local)
      → Inv key base l
      → Post (Inv key base) (Inv key base) (on_vad_speech_presence config drain s l)
  unfolding on_vad_speech_presence
  on_vad_speech_presence-Inv config drain s l i =
      Post-if (ms_to_samples config.human_hold_silence_ms == 0 || is_none l.session.open_turn) _ _ l
        (λ _. good _ l i)
        (λ e.
          live_presence-Inv config drain s l
            (open_of l i (or_false_right (ms_to_samples config.human_hold_silence_ms == 0) e)).1)

  -- Waiting changes no session and writes nothing.
  wait_model-Open :
      (config : TurnManagerConfig) (id : String) (target : ℕ) {turn : OpenTurn} (l : Local)
      → Open key base turn l
      → Post (Inv key base) (Open key base turn) (wait_model config id target l)
  unfolding wait_model
  wait_model-Open config id target {turn} l o =
      elim l.progress
        as (λ p. Post (Inv key base) (Open key base turn) (wait_choice config id target p l)) [
          | none ↦ good tt l o
          | some _ ↦ good tt _ (
              SameBut-Open
                (wait_for_model_progress-SameBut id target config.model_alignment_timeout_ms l) o)
        ]

  quiet_close-Inv :
      (config : TurnManagerConfig) (s : VadLowSilence) (turn : OpenTurn) (anchor : ℕ) (l : Local)
      → Open key base turn l
      → Post (Inv key base) (Inv key base) (quiet_close config s turn anchor l)
  unfolding quiet_close
  quiet_close-Inv config s turn anchor l o = Post-continue (write-Open _ _ (λ h. h) o) λ _ l1 o1.
      Post-continue
        (wait_model-Open config s.ids.stream_session_id (max anchor turn.start_sample) l1 o1)
        λ _ l2 o2. Post-continue (close_turn-Inv _ l2 o2 refl) λ _ l3 i3. good _ l3 i3

  pub on_vad_low_silence-Inv :
      (config : TurnManagerConfig) (s : VadLowSilence) (l : Local)
      → Inv key base l
      → Post (Inv key base) (Inv key base) (on_vad_low_silence config s l)
  unfolding on_vad_low_silence
  on_vad_low_silence-Inv config s l i = go l.session.open_turn refl
    where
      go :
          (turn : Option OpenTurn)
          → l.session.open_turn ≡ turn
          → Post (Inv key base) (Inv key base) (quiet_choice config s turn l)
      go none e = good _ l i
      go (some turn) e =
          let anchor = quiet_anchor s.ids.stream_session_id turn l in
          Post-if
            (ms_to_samples config.transcript_silence_close_ms == 0
              || l.session.saw_vad_signal
              || not (is_quiet config s anchor))
            _ _ l (λ _. good _ l i)
            (λ _. quiet_close-Inv config s turn anchor l (record { inv = i; is_open = e }))

  fallback_candidate-Inv :
      (config : TurnManagerConfig) (s : VadAcousticFallback) (turn_id : String) {turn : OpenTurn}
      (l : Local)
      → Open key base turn l
      → turn_id ≡ turn.turn_id
      → Post (Inv key base) (Inv key base) (fallback_candidate config s turn_id l)
  unfolding fallback_candidate fallback_close
  fallback_candidate-Inv config s turn_id l o e =
      Post-continue (write-Open _ _ (λ h. h) o) λ _ l1 o1.
        Post-if config.vad_close_enabled _ _ l1
          (λ _.
            Post-continue (wait_model-Open config s.ids.stream_session_id s.end_sample l1 o1)
              λ _ l2 o2. Post-continue (close_turn-Inv _ l2 o2 e) λ _ l3 i3. good _ l3 i3)
          (λ _. good _ l1 o1.inv)

  pub on_vad_acoustic_fallback-Inv :
      (config : TurnManagerConfig) (s : VadAcousticFallback) (l : Local)
      → Inv key base l
      → Post (Inv key base) (Inv key base) (on_vad_acoustic_fallback config s l)
  unfolding on_vad_acoustic_fallback fallback_too_short
  on_vad_acoustic_fallback-Inv config s l i =
      Post-if (is_stale s.decision_sample l.session || is_none l.session.open_turn) _ _ l
        (λ _. good _ l i)
        λ e.
          let o = open_of l i (or_false_right (is_stale s.decision_sample l.session) e) in
          Post-if (ltb (s.end_sample - s.start_sample) (ms_to_samples config.min_vad_speech_ms)) _ _
            l (λ _. Post-continue (write-Inv _ _ (λ h. h) i) λ _ l1 i1. good _ l1 i1)
            (λ _. fallback_candidate-Inv config s _ l o.1 (turn_id_or_next-Open o.1))

  keep_token-Inv :
      (s : TranscriptTokenCommitted) (l : Local)
      → Inv key base l
      → Post (Inv key base) (Inv key base) (keep_token s l)
  unfolding keep_token open_transcript_turn
  keep_token-Inv s l i =
      Post-continue opened λ _ l2 i2. good _ _ (Inv-session _ (refl, refl, refl, refl, refl) i2)
    where
      opened :
          Post
            (Inv key base)
            (Inv key base)
            ((if is_none l.session.open_turn then open_transcript_turn s else return tt) l)
      opened =
          Post-if (is_none l.session.open_turn) _ _ l
            (λ _. Post-continue (start_turn-Open s.start_sample "transcript" l i) λ _ l1 o1.
              Post-weaken (λ _ o. o.inv)
                (note_turn_opened-Open s.ids.stream_session_id (λ _. s.token_index) l1 o1))
            (λ _. good _ l i)

  pub on_transcript_token-Inv :
      (s : TranscriptTokenCommitted) (l : Local)
      → Inv key base l
      → Post (Inv key base) (Inv key base) (on_transcript_token s l)
  unfolding on_transcript_token
  on_transcript_token-Inv s l i =
      Post-if (not (is_speech_evidence_text ⦃u = env.unicode⦄ s.text)) _ _ l (λ _. good _ l i)
        λ _. Post-continue (write-Inv _ _ (λ h. h) i) λ _ l1 i1.
          Post-if (late_for_closed_turn s.end_sample l.session || ghost_late_token l.session) _ _ l1
            (λ _. good _ l1 i1) (λ _. keep_token-Inv s l1 i1)

  eou_accepted-Inv :
      (config : TurnManagerConfig) (e : ModelEou) (start : ℕ) (l : Local)
      → Inv key base l
      → Post (Inv key base) (Inv key base) (eou_accepted config e start l)
  unfolding eou_accepted eou_close
  eou_accepted-Inv config e start l i =
      Post-continue (ensure_turn-SomeOpen e.ids.stream_session_id start "model" l i) λ _ l1 o1.
        Post-continue (write-Open _ _ (λ h. h) o1.1) λ _ l2 o2.
          Post-if config.model_eou_close_enabled _ _ l2
            (λ _.
              Post-continue (close_turn-Inv _ l2 o2 (turn_id_or_next-Open o1.1))
                λ _ l3 i3. good _ l3 i3)
            (λ _. good _ l2 o2.inv)

  pub on_model_eou-Inv :
      (config : TurnManagerConfig) (e : ModelEou) (l : Local)
      → Inv key base l
      → Post (Inv key base) (Inv key base) (on_model_eou config e l)
  unfolding on_model_eou eou_suppressed
  on_model_eou-Inv config e l i =
      Post-if
        (too_early config e l.session
          || vad_still_in_speech l.session
          || refractory config e l.session
          || no_new_vad_speech_since_close l.session)
        _ _ l (λ _. Post-continue (write-Inv _ _ (λ h. h) i) λ _ l1 i1. good _ l1 i1)
        (λ _. eou_accepted-Inv config e (provisional_start l.session) l i)

  pub on_semantic_turn_decision-Inv :
      (config : TurnManagerConfig) (drain : Option ModelDrainHandle) (d : SemanticTurnDecision)
      (l : Local)
      → Inv key base l
      → Post (Inv key base) (Inv key base) (on_semantic_turn_decision config drain d l)
  unfolding on_semantic_turn_decision record_semantic_decision close_turn_from_semantic
  on_semantic_turn_decision-Inv config drain d l i =
      Post-continue (write-Inv _ _ (λ h. h) (Inv-session _ (refl, refl, refl, refl, refl) i))
        λ _ l1 i1.
          Post-if (not d.complete || not config.semantic_gate_close_enabled) _ _ l1
            (λ _. good _ l1 i1)
            λ _.
              Post-if (is_none l1.session.open_turn) _ _ l1 (λ _. good _ l1 i1)
                λ e.
                  let o = open_of l1 i1 e in
                  aligned_close-Inv config drain d.ids _ _ d.end_sample d.decision_sample
                    d.end_sample l1 o.1 (turn_id_or_next-Open o.1)
